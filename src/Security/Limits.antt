-- ===== src/Security/Limits.antt =====
-- Rate limits and session timeouts. A client is known by a key; times are milliseconds.
use quick_desk.Base.{
  ℕ, ◌+◌, ◌*◌, ltb, leb, ℤ, pos, Bool, true, false, List, [], ◌∷◌, ◌++◌, Option, none, some,
  if◌then◌else◌, length, min, Eq, suc,
}
use quick_desk.Base.Dict.{lookup, insert, erase}

pub record Limits (K : Type 0) : Type 0 where
  pub rate_limit_per_minute : ℤ
  pub rate_limiter : List (K × List ℕ)
  pub session_timeout_secs : ℤ
  pub last_activity : List (K × ℕ)
  -- The interval of the session timer while it runs.
  pub session_timer : Option ℕ

-- The `while` loop of `checkRateLimit`: `first() < now - 60000`.
unfoldable pub drop_old : ℕ → List ℕ → List ℕ
drop_old now [] = []
drop_old now (t ∷ ts) = let rest = drop_old now ts in if ltb (t + 60000) now then rest else t ∷ ts

-- `checkRateLimit` on the timestamps of one client, under a limit above 0.
unfoldable pub check_times : ℕ → ℕ → List ℕ → List ℕ × Bool
check_times limit now times =
    let recent = drop_old now times in
    if leb limit (length recent) then (recent, false) else (recent ++ now ∷ [], true)

-- The timer's interval, std::min(seconds * 1000, 30000), or none for a timer that is stopped.
-- The product is that of an `int` that does not overflow.
unfoldable pub timer_interval : ℤ → Option ℕ
timer_interval (pos (suc n)) = some (min (suc n * 1000) 30000)
timer_interval seconds = none

module _ {K : Type 0} ⦃e : Eq K⦄ where
  abbrev pub times_of : K → List (K × List ℕ) → List ℕ
  times_of k m = elim (lookup k m) [ none ↦ [] | some ts ↦ ts ]

  unfoldable pub set_rate_limit_per_minute : ℤ → Limits K → Limits K
  set_rate_limit_per_minute n s = record s { rate_limit_per_minute = n }

  abbrev pub check_positive : ℕ → K → ℕ → Limits K → Limits K × Bool
  check_positive limit k now s =
      let (times, allowed) = check_times limit now (times_of k s.rate_limiter) in
      (record s { rate_limiter = insert k times s.rate_limiter }, allowed)

  abbrev pub check_limit : ℤ → K → ℕ → Limits K → Limits K × Bool
  check_limit (pos (suc n)) k now s = check_positive (suc n) k now s
  check_limit limit k now s = (s, true)

  -- `now` is QDateTime::currentMSecsSinceEpoch. A limit of 0 or less lets everything through.
  unfoldable pub check_rate_limit : K → ℕ → Limits K → Limits K × Bool
  check_rate_limit k now s = check_limit s.rate_limit_per_minute k now s

  unfoldable pub set_session_timeout_secs : ℤ → Limits K → Limits K
  set_session_timeout_secs seconds s = record s {
    session_timeout_secs = seconds;
    session_timer = timer_interval seconds;
  }

  unfoldable pub record_activity : K → ℕ → Limits K → Limits K
  record_activity k now s = record s { last_activity = insert k now s.last_activity }

  unfoldable pub remove_client : K → Limits K → Limits K
  remove_client k s = record s {
    last_activity = erase k s.last_activity;
    rate_limiter = erase k s.rate_limiter;
  }

  -- The clients whose last activity lies before `now - timeout`.
  unfoldable pub expired_before : ℕ → ℕ → List (K × ℕ) → List K
  expired_before timeout now [] = []
  expired_before timeout now ((k, t) ∷ m) =
      let rest = expired_before timeout now m in
      if ltb (t + timeout * 1000) now then k ∷ rest else rest

  abbrev pub expired_under : ℤ → ℕ → List (K × ℕ) → List K
  expired_under (pos (suc n)) now m = expired_before (suc n) now m
  expired_under seconds now m = []

  unfoldable pub expired_clients : ℕ → Limits K → List K
  expired_clients now s = expired_under s.session_timeout_secs now s.last_activity
