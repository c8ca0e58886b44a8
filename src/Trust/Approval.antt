-- ===== src/Trust/Approval.antt =====
-- TrustHandler: where the answer "approved" of a waiting call comes from.
use quick_desk.Base.{
  ℕ, ◌≡◌, inl, inr, Bool, true, false, ◌&&◌, ◌||◌, String, List, [], ◌∷◌, ◌++◌, none, some,
  if◌then◌else◌, if_split, is_empty, arith, Option-cases, nat_eq, nat_eqb, nat_eqb_iff, str_eq,
  eq_iff, any,
}
use quick_desk.Base.Dict.{lookup, contains, lookup-insert, lookup-erase}
use quick_desk.Trust.Handler.{
  Cell, Begun, TrustHandler, init, is_auto, open_confirmation, begin_confirmation, end_confirmation,
  handle_emergency_stop, handle_deactivate_emergency, resolve_confirmation, Step, begins, ends,
  resolves, stops, deactivates, step, run,
}
use quick_desk.Trust.Liveness.{lookup-write_cell, lookup-deny_all}

-- The answer that approves the confirmation for the reason.
abbrev pub is_approval : ℕ → String → ℕ × Bool × String → Bool
is_approval id reason (i, approved, text) = nat_eqb i id && (approved && str_eq text reason)

abbrev pub is_resolution : ℕ → String → Step → Bool
is_resolution id reason (resolves i approved text) =
    nat_eqb i id && (approved && str_eq text reason)
is_resolution id reason s = false

-- The confirmation's call has the user's approval in its variables.
abbrev has_approval : ℕ → String → List (ℕ × Cell) → Bool
has_approval id reason m = elim (lookup id m) [
  | none ↦ false
  | some c ↦ c.is_done && (c.is_approved && str_eq c.reason reason)
]

any-append :
    (p : ℕ × Bool × String → Bool) (xs : List (ℕ × Bool × String)) (y : ℕ × Bool × String)
    → any p (xs ++ y ∷ []) ≡ (any p xs || p y)
unfolding any
any-append p [] y = ground arith
any-append p (x ∷ xs) y = ground (arith, any-append p xs y)

-- `asked` tells whether someone has approved the confirmation for the reason.
record IsHonest (id : ℕ) (reason : String) (asked : Bool) (h : TrustHandler) : Type 0 where
  cells : has_approval id reason h.waiting ≡ true → asked ≡ true
  answers_by : any (is_approval id reason) h.answers ≡ true → asked ≡ true

module _ (id : ℕ) (reason : String) where
  end_confirmation-IsHonest :
      (j : ℕ) (asked : Bool) (h : TrustHandler)
      → IsHonest id reason asked h
      → IsHonest id reason asked (end_confirmation j h)
  unfolding end_confirmation
  end_confirmation-IsHonest j asked h w = elim (Option-cases (lookup j h.waiting)) [
    | inl e ↦ rw (e, end_confirmation) w
    | inr (c, e) ↦
        rw (e, end_confirmation)
          (record {
            cells = λ p. ground (arith, lookup-erase j id h.waiting, w.cells);
            answers_by = λ p. ground (
              arith,
              e,
              w.cells,
              w.answers_by,
              nat_eqb_iff j id,
              any-append (is_approval id reason) h.answers
                  (if c.is_done then (j, c.is_approved, c.reason) else (j, false, "timeout")),
            );
          })
  ]

  step-IsHonest :
      (s : Step) (asked : Bool) (h : TrustHandler)
      → IsHonest id reason asked h
      → IsHonest id reason (asked || is_resolution id reason s) (step s h)
  unfolding step begin_confirmation open_confirmation resolve_confirmation handle_emergency_stop
      handle_deactivate_emergency
  step-IsHonest (begins mode r) asked h w =
      let kept : IsHonest id reason (asked || false) h = record {
        cells = λ p. ground (arith, w.cells p);
        answers_by = λ p. ground (arith, w.answers_by p);
      } in
      if_split (λ (p : TrustHandler × Begun). IsHonest id reason (asked || false) p.0)
        (is_empty r.tool_name) (λ _. kept)
        λ _.
          if_split (λ (p : TrustHandler × Begun). IsHonest id reason (asked || false) p.0)
            (is_auto mode) (λ _. kept)
            λ _. record {
              cells = λ p. ground (
                arith,
                w.cells,
                lookup-insert h.next_id id
                    (record { is_approved = false; reason = ""; is_done = false }) h.waiting,
              );
              answers_by = λ p. ground (arith, w.answers_by p);
            }
  step-IsHonest (ends j) asked h w =
      let e = end_confirmation-IsHonest j asked h w in
      record {
        cells = λ p. ground (arith, e.cells p);
        answers_by = λ p. ground (arith, e.answers_by p);
      }
  step-IsHonest (resolves j approved text) asked h w =
      if_split (IsHonest id reason (asked || is_resolution id reason (resolves j approved text)))
        (contains j h.pending)
        (λ _. record {
          cells = λ p. ground (
            arith,
            w.cells,
            eq_iff text reason,
            lookup-write_cell j id
                (record { is_approved = approved; reason = text; is_done = true }) h.waiting,
          );
          answers_by = λ p. ground (arith, w.answers_by p);
        })
        (λ _. record {
          cells = λ p. ground (arith, w.cells p);
          answers_by = λ p. ground (arith, w.answers_by p);
        })
  step-IsHonest (stops text) asked h w = record {
    cells = λ p. ground (arith, w.cells, lookup-deny_all h.pending id h.waiting);
    answers_by = λ p. ground (arith, w.answers_by p);
  }
  step-IsHonest deactivates asked h w = record {
    cells = λ p. ground (arith, w.cells p);
    answers_by = λ p. ground (arith, w.answers_by p);
  }

  run-IsHonest :
      (steps : List Step) (asked : Bool) (h : TrustHandler)
      → IsHonest id reason asked h
      → IsHonest id reason (asked || any (is_resolution id reason) steps) (run steps h)
  unfolding run any
  run-IsHonest [] asked h w = record {
    cells = λ p. ground (arith, w.cells p);
    answers_by = λ p. ground (arith, w.answers_by p);
  }
  run-IsHonest (s ∷ steps) asked h w =
      let rest =
        run-IsHonest steps (asked || is_resolution id reason s) (step s h)
          (step-IsHonest s asked h w) in
      record {
        cells = λ p. ground (arith, rest.cells p);
        answers_by = λ p. ground (arith, rest.answers_by p);
      }

-- Among the answers of the calls that waited, since the handler was made, one that approves a
-- confirmation for a reason is there only if a resolution of that confirmation has approved it for
-- that reason: no time-out, no emergency stop and no other confirmation's resolution approves it.
pub run-approved_by :
    (id : ℕ) (reason : String) (steps : List Step)
    → any (is_approval id reason) (run steps init).answers ≡ true
    → any (is_resolution id reason) steps ≡ true
unfolding init any lookup
run-approved_by id reason steps h =
    let w =
      run-IsHonest id reason steps false init
        (record { cells = λ p. ground arith; answers_by = λ p. ground arith }) in
    w.answers_by h
