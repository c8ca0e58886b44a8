-- ===== src/Security/Sessions.antt =====
-- Session timeouts.
use quick_desk.Base.{
  ℕ, suc, ◌+◌, ◌*◌, ◌≡◌, ◌≢◌, refl, ap, ◌∙◌, sym, pos, Bool, false, List, [], ◌∷◌, Option, none,
  some, arith, Eq, ltb, string_eq,
}
use quick_desk.Base.Dict.{
  lookup, insert, erase, contains, has_key, has_key-insert, has_key-erase, lookup-insert,
}
use quick_desk.Security.Limits.{
  Limits, record_activity, remove_client, expired_before, expired_under, expired_clients,
}

abbrev pub timed_out : ℕ → ℕ → Option ℕ → Bool
timed_out timeout now none = false
timed_out timeout now (some t) = ltb (t + timeout * 1000) now

module _ {K : Type 0} ⦃e : Eq K⦄ where
  -- A client is listed once in the table of activities.
  abbrev pub Once : List (K × ℕ) → Type 0
  Once [] = Unit {0}
  Once ((k, t) ∷ m) = (has_key k m ≡ false) × Once m

  absent_not_expired :
      (k : K) (timeout now : ℕ) (m : List (K × ℕ))
      → has_key k m ≡ false
      → contains k (expired_before timeout now m) ≡ false
  unfolding expired_before has_key contains
  absent_not_expired k timeout now [] h = refl
  absent_not_expired k timeout now ((j, t) ∷ m) h =
      ground (arith, absent_not_expired k timeout now m)

  expired_before_lem :
      (k : K) (timeout now : ℕ) (m : List (K × ℕ))
      → Once m
      → contains k (expired_before timeout now m) ≡ timed_out timeout now (lookup k m)
  unfolding expired_before lookup contains
  expired_before_lem k timeout now [] h = refl
  expired_before_lem k timeout now ((j, t) ∷ m) h = ground (
    arith,
    e.beq_iff j k,
    expired_before_lem k timeout now m h.1,
    absent_not_expired j timeout now m h.0,
  )

  Once-insert : (k : K) (t : ℕ) (m : List (K × ℕ)) → Once m → Once (insert k t m)
  unfolding insert has_key
  Once-insert k t [] h = (refl, tt)
  Once-insert k t ((j, u) ∷ m) h =
      ground (arith, e.beq_iff j k, e.beq_iff k j, Once-insert k t m h.1, has_key-insert k j t m)

  expired_clients_lem :
      (k : K) (now n : ℕ) (s : Limits K)
      → s.session_timeout_secs ≡ pos (suc n)
      → Once s.last_activity
      → contains k (expired_clients now s) ≡ timed_out (suc n) now (lookup k s.last_activity)
  unfolding expired_clients
  expired_clients_lem k now n s h o =
      ap (λ r. contains k (expired_under r now s.last_activity)) h
      ∙ expired_before_lem k (suc n) now s.last_activity o

  -- With a timeout set, a client that was active at `t` is expired exactly once more than the
  -- timeout has passed since `t`; the activity changes nothing for another client; and a client
  -- that was removed is not expired.
  pub expired_clients_after :
      (k j : K) (t now n : ℕ) (s : Limits K)
      → s.session_timeout_secs ≡ pos (suc n)
      → Once s.last_activity
      → j ≢ k
      → (contains k (expired_clients now (record_activity k t s)) ≡ ltb (t + suc n * 1000) now)
        × (contains j (expired_clients now (record_activity k t s))
            ≡ contains j (expired_clients now s))
        × (contains k (expired_clients now (remove_client k s)) ≡ false)
  unfolding record_activity remove_client
  expired_clients_after k j t now n s h o d =
      let m = s.last_activity in
      let active = record s { last_activity = insert k t m } in
      let once = Once-insert k t m o in
      let own : lookup k (insert k t m) ≡ some t =
        ground (arith, lookup-insert k k t m, e.beq_iff k k) in
      let other : lookup j (insert k t m) ≡ lookup j m =
        ground (arith, lookup-insert k j t m, e.beq_iff k j) in
      let gone : has_key k (erase k m) ≡ false =
        ground (arith, has_key-erase k k m, e.beq_iff k k) in
      (
        expired_clients_lem k now n active h once ∙ ap (timed_out (suc n) now) own,
        expired_clients_lem j now n active h once
            ∙ ap (timed_out (suc n) now) other
            ∙ sym (expired_clients_lem j now n s h o),
        unfold expired_clients in
            (ap (λ r. contains k (expired_under r now (erase k m))) h
              ∙ absent_not_expired k (suc n) now (erase k m) gone),
      )
