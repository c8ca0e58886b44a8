-- ===== src/Security/Clients.antt =====
-- `checkRateLimit` over many clients.
use quick_desk.Base.{
  ℕ, suc, ◌≡◌, refl, ap, ◌∙◌, inl, inr, pos, Bool, ◌&&◌, List, [], ◌∷◌, ◌++◌, none, if◌then◌else◌,
  arith, Bool-cases, Eq, ◌==◌, beq→eq,
}
use quick_desk.Base.Dict.{lookup, insert, lookup-insert}
use quick_desk.Security.Limits.{
  Limits, check_times, times_of, check_positive, check_limit, check_rate_limit,
}
use quick_desk.Security.Window.{check_all, promise_all, check_all-window, Ascending}

module _ {K : Type 0} ⦃e : Eq K⦄ where
  -- The times at which client `k` is let through, in a run of checks of any clients.
  unfoldable pub passed_by : K → Limits K → List (K × ℕ) → List ℕ → List ℕ
  passed_by k s [] passed = passed
  passed_by k s ((j, now) ∷ checks) passed =
      let (s', allowed) = check_rate_limit j now s in
      passed_by k s' checks (if (j == k) && allowed then passed ++ now ∷ [] else passed)

  -- The times of the checks of client `k`.
  unfoldable pub checks_of : K → List (K × ℕ) → List ℕ
  checks_of k [] = []
  checks_of k ((j, now) ∷ checks) = if j == k then now ∷ checks_of k checks else checks_of k checks

  times_of-insert :
      (j k : K) (ts : List ℕ) (m : List (K × List ℕ))
      → times_of k (insert j ts m) ≡ (if j == k then ts else times_of k m)
  times_of-insert j k ts m = ground (arith, lookup-insert j k ts m)

  check_rate_limit-pos :
      (n : ℕ) (k : K) (now : ℕ) (s : Limits K)
      → s.rate_limit_per_minute ≡ pos (suc n)
      → check_rate_limit k now s ≡ check_positive (suc n) k now s
  unfolding check_rate_limit
  check_rate_limit-pos n k now s h = ap (λ r. check_limit r k now s) h

  passed_by-check_all :
      (k : K) (n : ℕ) (s : Limits K) (checks : List (K × ℕ)) (passed : List ℕ)
      → s.rate_limit_per_minute ≡ pos (suc n)
      → passed_by k s checks passed
        ≡ (check_all (suc n) (checks_of k checks) (times_of k s.rate_limiter) passed).1
  unfolding passed_by checks_of check_all
  passed_by-check_all k n s [] passed h = refl
  passed_by-check_all k n s ((j, now) ∷ checks) passed h =
      let next : Limits K × Bool = check_positive (suc n) j now s in
      let times = times_of k s.rate_limiter in
      rw (check_rate_limit-pos n j now s h) (elim (Bool-cases (j == k)) [
        | inl same ↦
            let eq : j ≡ k = beq→eq j k same in
            let own : times_of k next.0.rate_limiter ≡ (check_times (suc n) now times).0 =
              times_of-insert j k _ s.rate_limiter ∙ rw (same, eq) refl in
            let answer : next.1 ≡ (check_times (suc n) now times).1 = rw eq refl in
            rw (same, answer) (passed_by-check_all k n next.0 checks _ h ∙ rw own refl)
        | inr other ↦
            let kept : times_of k next.0.rate_limiter ≡ times =
              times_of-insert j k _ s.rate_limiter ∙ rw other refl in
            rw other (passed_by-check_all k n next.0 checks passed h ∙ rw kept refl)
      ])

  -- Under a limit above 0, whatever other clients do in between, a client that is new to the rate
  -- limiter and whose clock does not go back is let through exactly as the sliding window says:
  -- a request passes if and only if fewer than the limit of the client's own requests have passed
  -- in the 60 seconds that end with it.
  pub passed_by-window :
      (k : K) (n start : ℕ) (s : Limits K) (checks : List (K × ℕ))
      → s.rate_limit_per_minute ≡ pos (suc n)
      → lookup k s.rate_limiter ≡ none
      → Ascending start (checks_of k checks)
      → passed_by k s checks [] ≡ promise_all (suc n) (checks_of k checks) []
  passed_by-window k n start s checks h fresh up =
      passed_by-check_all k n s checks [] h
      ∙ rw (fresh, times_of) (check_all-window (suc n) start (checks_of k checks) up)
