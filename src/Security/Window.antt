-- ===== src/Security/Window.antt =====
-- The rate limit of one client as a sliding window of 60 seconds.
use mathlib.Core.List.{append_assoc}
use quick_desk.Base.{
  ℕ, ◌+◌, ◌≤◌, ◌≡◌, refl, ap, ◌∙◌, inl, inr, ltb, leb, le→leb, sym, Bool, true, List, [], ◌∷◌, ◌++◌,
  if◌then◌else◌, length, length-append, arith, All, Bool-cases, if_split,
}
use quick_desk.Base.Count.{count, count-append}
use quick_desk.Security.Limits.{drop_old, check_times}

-- A client's checks at the given times, from the timestamps `times`: the timestamps after them,
-- and the times at which a request was let through, appended to `passed`.
unfoldable pub check_all : ℕ → List ℕ → List ℕ → List ℕ → List ℕ × List ℕ
check_all limit [] times passed = (times, passed)
check_all limit (now ∷ checks) times passed =
    let (times', allowed) = check_times limit now times in
    check_all limit checks times' (if allowed then passed ++ now ∷ [] else passed)

-- The clock does not go back.
abbrev pub Ascending : ℕ → List ℕ → Type 0
Ascending from [] = Unit {0}
Ascending from (t ∷ ts) = (from ≤ t) × Ascending t ts

-- A time that is at most a minute before `now`.
abbrev pub in_window : ℕ → ℕ → Bool
in_window now t = leb now (t + 60000)

abbrev pub last_of : ℕ → List ℕ → ℕ
last_of d [] = d
last_of d (t ∷ ts) = last_of t ts

-- The requests let through are the forgotten ones, all older than a minute, and the timestamps,
-- which ascend up to the last check.
record Tracks (limit now : ℕ) (times passed : List ℕ) : Type 0 where
  old : List ℕ
  splits : passed ≡ old ++ times
  forgotten : count (in_window now) old ≡ 0
  limited : length times ≤ limit
  ascending : Ascending 0 times
  past : All (λ t. t ≤ now) times

-- What leaves the window does not come back.
count-later :
    (m n : ℕ) (ts : List ℕ) → m ≤ n → count (in_window m) ts ≡ 0 → count (in_window n) ts ≡ 0
unfolding count
count-later m n [] h e = refl
count-later m n (t ∷ ts) h e = ground (arith, count-later m n ts h)

drop_old-split :
    (now : ℕ) (ts : List ℕ)
    → (gone : List ℕ) × (ts ≡ gone ++ drop_old now ts)
      × (count (in_window now) gone ≡ 0)
      × (length (drop_old now ts) ≤ length ts)
unfolding drop_old count
drop_old-split now [] = ([], refl, refl, omega arith)
drop_old-split now (t ∷ ts) = elim (Bool-cases (ltb (t + 60000) now)) [
  | inl e ↦
      let (gone, s, c, l) = drop_old-split now ts in
      rw e (t ∷ gone, ap (◌∷◌ t) s, ground arith, omega arith)
  | inr e ↦ rw e ([], refl, refl, omega arith)
]

Ascending-weaken : (a b : ℕ) (ts : List ℕ) → a ≤ b → Ascending b ts → Ascending a ts
Ascending-weaken a b [] h s = tt
Ascending-weaken a b (t ∷ ts) h s = (omega arith, s.1)

All-mono : (m n : ℕ) (ts : List ℕ) → m ≤ n → All (λ t. t ≤ m) ts → All (λ t. t ≤ n) ts
All-mono m n [] h a = tt
All-mono m n (t ∷ ts) h a = (omega arith, All-mono m n ts h a.1)

Ascending-drop_old : (b now : ℕ) (ts : List ℕ) → Ascending b ts → Ascending b (drop_old now ts)
unfolding drop_old
Ascending-drop_old b now [] s = tt
Ascending-drop_old b now (t ∷ ts) s =
    if_split (Ascending b) (ltb (t + 60000) now)
      (λ _. Ascending-drop_old b now ts (Ascending-weaken b t ts s.0 s.1)) (λ _. s)

All-drop_old :
    (m n now : ℕ) (ts : List ℕ) → m ≤ n → All (λ t. t ≤ m) ts → All (λ t. t ≤ n) (drop_old now ts)
unfolding drop_old
All-drop_old m n now [] h a = tt
All-drop_old m n now (t ∷ ts) h a =
    if_split (All (λ t. t ≤ n)) (ltb (t + 60000) now) (λ _. All-drop_old m n now ts h a.1)
      (λ _. (omega arith, All-mono m n ts h a.1))

Ascending-append :
    (b now : ℕ) (ts : List ℕ)
    → b ≤ now
    → Ascending b ts
    → All (λ t. t ≤ now) ts
    → Ascending b (ts ++ now ∷ [])
Ascending-append b now [] h s a = (h, tt)
Ascending-append b now (t ∷ ts) h s a = (s.0, Ascending-append t now ts a.0 s.1 a.1)

All-append : (now : ℕ) (ts : List ℕ) → All (λ t. t ≤ now) ts → All (λ t. t ≤ now) (ts ++ now ∷ [])
All-append now [] a = (omega arith, tt)
All-append now (t ∷ ts) a = (a.0, All-append now ts a.1)

count-Ascending :
    (b now : ℕ) (ts : List ℕ)
    → now ≤ b + 60000
    → Ascending b ts
    → count (in_window now) ts ≡ length ts
unfolding count
count-Ascending b now [] h s = refl
count-Ascending b now (t ∷ ts) h s =
    let rest = count-Ascending t now ts (omega arith) s.1 in
    let first : in_window now t ≡ true = le→leb now (t + 60000) (omega arith) in ground arith

-- What `drop_old` keeps lies in the window.
count-drop_old :
    (b now : ℕ) (ts : List ℕ)
    → Ascending b ts
    → count (in_window now) (drop_old now ts) ≡ length (drop_old now ts)
unfolding drop_old
count-drop_old b now [] s = unfold count in refl
count-drop_old b now (t ∷ ts) s =
    if_split (λ r. count (in_window now) r ≡ length r) (ltb (t + 60000) now)
      (λ _. count-drop_old t now ts s.1)
      (λ e. count-Ascending t now (t ∷ ts) (ground arith) (omega arith, s.1))

check_times-Tracks :
    (limit m now : ℕ) (times passed : List ℕ)
    → m ≤ now
    → Tracks limit m times passed
    → Tracks limit now
        (check_times limit now times).0
        (if (check_times limit now times).1 then passed ++ now ∷ [] else passed)
      × ((check_times limit now times).1 ≡ ltb (count (in_window now) passed) limit)
unfolding check_times
check_times-Tracks limit m now times passed h t =
    let (gone, s, c, l) = drop_old-split now times in
    let recent = drop_old now times in
    let split : passed ≡ (t.old ++ gone) ++ recent =
      t.splits ∙ ap (◌++◌ t.old) s ∙ sym (append_assoc t.old gone recent) in
    let none_old : count (in_window now) (t.old ++ gone) ≡ 0 =
      omega
        (arith, count-append (in_window now) t.old gone, count-later m now t.old h t.forgotten) in
    let counted : count (in_window now) passed ≡ length recent =
      ap (count (in_window now)) split
      ∙ omega (
        arith,
        count-append (in_window now) (t.old ++ gone) recent,
        count-drop_old 0 now times t.ascending,
      ) in
    let sorted = Ascending-drop_old 0 now times t.ascending in
    let before = All-drop_old m now now times h t.past in
    elim (Bool-cases (leb limit (length recent))) [
      | inl full ↦ rw full (
        record {
          old = t.old ++ gone;
          splits = split;
          forgotten = none_old;
          limited = omega arith;
          ascending = sorted;
          past = before;
        },
        ground arith,
      )
      | inr room ↦ rw room (
        record {
          old = t.old ++ gone;
          splits = ap (λ r. r ++ now ∷ []) split ∙ append_assoc (t.old ++ gone) recent (now ∷ []);
          forgotten = none_old;
          limited = ground (arith, length-append recent (now ∷ []));
          ascending = Ascending-append 0 now recent (omega arith) sorted before;
          past = All-append now recent before;
        },
        ground arith,
      )
    ]

-- The answers that the promise gives: a request passes exactly if fewer than the limit passed in
-- the minute that ends with it.
unfoldable pub promise_all : ℕ → List ℕ → List ℕ → List ℕ
promise_all limit [] passed = passed
promise_all limit (now ∷ checks) passed =
    promise_all limit checks
      (if ltb (count (in_window now) passed) limit then passed ++ now ∷ [] else passed)

check_all-promise_all :
    (limit m : ℕ) (checks times passed : List ℕ)
    → Ascending m checks
    → Tracks limit m times passed
    → (check_all limit checks times passed).1 ≡ promise_all limit checks passed
unfolding check_all promise_all
check_all-promise_all limit m [] times passed h t = refl
check_all-promise_all limit m (now ∷ checks) times passed h t =
    let (tracks, answer) = check_times-Tracks limit m now times passed h.0 t in
    check_all-promise_all limit now checks (check_times limit now times).0 _ h.1 tracks
    ∙ ap (λ b. promise_all limit checks (if b then passed ++ now ∷ [] else passed)) answer

-- With a clock that does not go back, the checks of a new client let through exactly the requests
-- of the sliding window: one passes if and only if fewer than the limit have passed in the 60
-- seconds that end with it.
pub check_all-window :
    (limit start : ℕ) (checks : List ℕ)
    → Ascending start checks
    → (check_all limit checks [] []).1 ≡ promise_all limit checks []
check_all-window limit start checks h = check_all-promise_all limit start checks [] [] h (record {
  old = [];
  splits = refl;
  forgotten = unfold count in refl;
  limited = omega arith;
  ascending = tt;
  past = tt;
})
