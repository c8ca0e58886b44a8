-- ===== src/Trust/Stop.antt =====
-- TrustHandler: the calls that wait when an emergency stop comes.
use quick_desk.Base.{
  ℕ, ◌<◌, ◌≡◌, refl, inl, inr, Bool, true, false, ◌||◌, String, List, [], ◌∷◌, ◌++◌, some, if_split,
  is_empty, arith, Option-cases, nat_eq, nat_eqb, nat_eqb_iff,
}
use quick_desk.Base.Dict.{
  lookup, contains, lookup-insert, lookup-erase, contains-add, contains-remove,
}
use quick_desk.Trust.Handler.{
  Begun, TrustHandler, is_auto, open_confirmation, begin_confirmation, end_confirmation,
  handle_emergency_stop, handle_deactivate_emergency, resolve_confirmation, Step, begins, ends,
  resolves, stops, deactivates, step, run,
}
use quick_desk.Trust.Liveness.{IsLive, lookup-write_cell, lookup-deny_all, lookup-has_key, stopped}

-- A call that an emergency stop has answered and that has not read its answer yet.
record IsStopped (id : ℕ) (h : TrustHandler) : Type 0 where
  gone : contains id h.pending ≡ false
  denied : lookup id h.waiting ≡ some stopped
  below : id < h.next_id

abbrev pub is_end : ℕ → Step → Bool
is_end id (ends j) = nat_eqb id j
is_end id s = false

unfoldable pub is_ended : ℕ → List Step → Bool
is_ended id [] = false
is_ended id (s ∷ steps) = is_end id s || is_ended id steps

end_confirmation-IsStopped :
    (id j : ℕ) (h : TrustHandler)
    → nat_eqb id j ≡ false
    → IsStopped id h
    → IsStopped id (end_confirmation j h)
unfolding end_confirmation
end_confirmation-IsStopped id j h ne w = elim (Option-cases (lookup j h.waiting)) [
  | inl e ↦ rw (e, end_confirmation) w
  | inr (c, e) ↦
      rw (e, end_confirmation)
        (record {
          gone = ground (arith, contains-remove j id h.pending, w.gone);
          denied = ground (arith, lookup-erase j id h.waiting, w.denied);
          below = w.below;
        })
]

step-IsStopped :
    (id : ℕ) (s : Step) (h : TrustHandler)
    → is_end id s ≡ false
    → IsStopped id h
    → IsStopped id (step s h)
unfolding step begin_confirmation open_confirmation resolve_confirmation handle_emergency_stop
    handle_deactivate_emergency contains
step-IsStopped id (begins mode r) h ne w =
    if_split (λ (p : TrustHandler × Begun). IsStopped id p.0) (is_empty r.tool_name) (λ _. w)
      λ _.
        if_split (λ (p : TrustHandler × Begun). IsStopped id p.0) (is_auto mode) (λ _. w)
          λ _. record {
            gone = ground (arith, contains-add h.next_id id h.pending, w.gone, w.below);
            denied = ground (
              arith,
              lookup-insert h.next_id id
                  (record { is_approved = false; reason = ""; is_done = false }) h.waiting,
              w.denied,
              w.below,
            );
            below = ground (arith, w.below);
          }
step-IsStopped id (ends j) h ne w = end_confirmation-IsStopped id j h ne w
step-IsStopped id (resolves j approved reason) h ne w =
    if_split (IsStopped id) (contains j h.pending)
      (λ c. record {
        gone = w.gone;
        denied = ground (
          arith,
          w.gone,
          w.denied,
          c,
          nat_eqb_iff j id,
          lookup-write_cell j id
              (record { is_approved = approved; reason = reason; is_done = true }) h.waiting,
        );
        below = w.below;
      })
      (λ _. w)
step-IsStopped id (stops reason) h ne w = record {
  gone = refl;
  denied = ground (arith, lookup-deny_all h.pending id h.waiting, w.denied);
  below = w.below;
}
step-IsStopped id deactivates h ne w = record { gone = w.gone; denied = w.denied; below = w.below }

run-IsStopped :
    (id : ℕ) (steps : List Step) (h : TrustHandler)
    → is_ended id steps ≡ false
    → IsStopped id h
    → IsStopped id (run steps h)
unfolding run is_ended
run-IsStopped id [] h ne w = w
run-IsStopped id (s ∷ steps) h ne w =
    run-IsStopped id steps (step s h) (ground arith) (step-IsStopped id s h (ground arith) w)

handle_emergency_stop-IsStopped :
    (id : ℕ) (reason : String) (h : TrustHandler)
    → IsLive h
    → contains id h.pending ≡ true
    → IsStopped id (handle_emergency_stop reason h)
unfolding handle_emergency_stop contains
handle_emergency_stop-IsStopped id reason h w p =
    let (c, e) = lookup-has_key id h.waiting (w.waits id p) in
    record {
      gone = refl;
      denied = ground (arith, lookup-deny_all h.pending id h.waiting, e, p);
      below = w.below id (w.waits id p);
    }

-- A confirmation that is pending when an emergency stop comes is denied with "emergency stop" when
-- its call goes on, whatever steps lie between: no later resolution, even of the user, and no
-- deactivation of the stop changes the answer.
pub handle_emergency_stop-denies :
    (id : ℕ) (reason : String) (steps : List Step) (h : TrustHandler)
    → IsLive h
    → contains id h.pending ≡ true
    → is_ended id steps ≡ false
    → (end_confirmation id (run steps (handle_emergency_stop reason h))).answers
      ≡ (run steps (handle_emergency_stop reason h)).answers ++ (id, false, "emergency stop") ∷ []
unfolding end_confirmation
handle_emergency_stop-denies id reason steps h w p ne =
    let s =
      run-IsStopped id steps (handle_emergency_stop reason h) ne
        (handle_emergency_stop-IsStopped id reason h w p) in
    rw (s.denied, end_confirmation) refl
