-- ===== src/Trust/Liveness.antt =====
-- TrustHandler: what the pointers of m_pending lead to.
use quick_desk.Base.{
  ℕ, ◌<◌, ◌≡◌, refl, inl, inr, true, false, List, [], ◌∷◌, none, some, if◌then◌else◌, if_split,
  is_empty, arith, Bool-cases, Option-cases, nat_eq, nat_eqb,
}
use quick_desk.Base.Dict.{
  lookup, contains, has_key, has_key-insert, has_key-erase, contains-add, contains-remove,
}
use quick_desk.Trust.Handler.{
  Cell, Begun, ConfirmationRequest, TrustHandler, is_auto, open_confirmation, begin_confirmation,
  write_cell, end_confirmation, deny_all, handle_emergency_stop, handle_deactivate_emergency,
  resolve_confirmation, Step, begins, ends, resolves, stops, deactivates, step, run,
}

pub lookup-write_cell :
    (id j : ℕ) (c : Cell) (m : List (ℕ × Cell))
    → lookup j (write_cell id c m)
      ≡ elim (lookup j m) [ none ↦ none | some d ↦ some (if nat_eqb id j then c else d) ]
unfolding lookup write_cell
lookup-write_cell id j c [] = refl
lookup-write_cell id j c ((i, d) ∷ m) = ground (arith, lookup-write_cell id j c m)

has_key-write_cell :
    (id j : ℕ) (c : Cell) (m : List (ℕ × Cell)) → has_key j (write_cell id c m) ≡ has_key j m
unfolding has_key write_cell
has_key-write_cell id j c [] = refl
has_key-write_cell id j c ((i, d) ∷ m) = ground (arith, has_key-write_cell id j c m)

has_key-deny_all :
    (ids : List ℕ) (j : ℕ) (m : List (ℕ × Cell)) → has_key j (deny_all ids m) ≡ has_key j m
unfolding deny_all
has_key-deny_all [] j m = refl
has_key-deny_all (id ∷ ids) j m =
    let c : Cell = record { is_approved = false; reason = "emergency stop"; is_done = true } in
    ground (arith, has_key-deny_all ids j (write_cell id c m), has_key-write_cell id j c m)

abbrev pub stopped : Cell
stopped = record { is_approved = false; reason = "emergency stop"; is_done = true }

pub lookup-deny_all :
    (ids : List ℕ) (j : ℕ) (m : List (ℕ × Cell))
    → lookup j (deny_all ids m)
      ≡ elim (lookup j m) [ none ↦ none | some d ↦ some (if contains j ids then stopped else d) ]
unfolding deny_all contains
lookup-deny_all [] j m = ground (arith, Option-cases (lookup j m))
lookup-deny_all (id ∷ ids) j m = ground (
  arith,
  lookup-deny_all ids j (write_cell id stopped m),
  lookup-write_cell id j stopped m,
  Option-cases (lookup j m),
)

pub lookup-has_key :
    (j : ℕ) (m : List (ℕ × Cell)) → has_key j m ≡ true → (c : Cell) × (lookup j m ≡ some c)
unfolding has_key lookup
lookup-has_key j [] h = ground arith
lookup-has_key j ((i, d) ∷ m) h = elim (Bool-cases (nat_eqb i j)) [
  | inl e ↦ (d, rw e refl)
  | inr e ↦ let (c, g) = lookup-has_key j m (let h' = rw e at h in h') in (c, rw e g)
]

-- The entries of m_pending belong to waiting calls, whose numbers have been given out.
pub record IsLive (h : TrustHandler) : Type 0 where
  pub waits : (id : ℕ) → contains id h.pending ≡ true → has_key id h.waiting ≡ true
  pub below : (id : ℕ) → has_key id h.waiting ≡ true → id < h.next_id

open_confirmation-IsLive :
    (r : ConfirmationRequest) (h : TrustHandler) → IsLive h → IsLive (open_confirmation r h)
unfolding open_confirmation
open_confirmation-IsLive r h w =
    let c : Cell = record { is_approved = false; reason = ""; is_done = false } in
    record {
      waits = λ id p. ground (
        arith,
        contains-add h.next_id id h.pending,
        has_key-insert h.next_id id c h.waiting,
        w.waits id,
      );
      below = λ id p. ground (arith, has_key-insert h.next_id id c h.waiting, w.below id);
    }

end_confirmation-IsLive : (id : ℕ) (h : TrustHandler) → IsLive h → IsLive (end_confirmation id h)
unfolding end_confirmation
end_confirmation-IsLive id h w = elim (Option-cases (lookup id h.waiting)) [
  | inl e ↦ rw (e, end_confirmation) w
  | inr (c, e) ↦
      rw (e, end_confirmation)
        (record {
          waits = λ j p.
              ground
                (arith, contains-remove id j h.pending, has_key-erase id j h.waiting, w.waits j);
          below = λ j p. ground (arith, has_key-erase id j h.waiting, w.below j);
        })
]

step-IsLive : (s : Step) (h : TrustHandler) → IsLive h → IsLive (step s h)
unfolding step begin_confirmation resolve_confirmation handle_emergency_stop
    handle_deactivate_emergency contains
step-IsLive (begins mode r) h w =
    if_split (λ (p : TrustHandler × Begun). IsLive p.0) (is_empty r.tool_name) (λ _. w)
      λ _.
        if_split (λ (p : TrustHandler × Begun). IsLive p.0) (is_auto mode) (λ _. w)
          (λ _. open_confirmation-IsLive r h w)
step-IsLive (ends id) h w = end_confirmation-IsLive id h w
step-IsLive (resolves id approved reason) h w =
    if_split IsLive (contains id h.pending)
      (λ _. record {
        waits = λ j p. rw (has_key-write_cell id j _ h.waiting) (w.waits j p);
        below = λ j p. w.below j (rw (has_key-write_cell id j _ h.waiting) at p);
      })
      (λ _. w)
step-IsLive (stops reason) h w = record {
  waits = λ j p. absurd (ground arith);
  below = λ j p. w.below j (rw (has_key-deny_all h.pending j h.waiting) at p);
}
step-IsLive deactivates h w = record { waits = w.waits; below = w.below }

-- Where every entry of m_pending belongs to a call that still waits, so that no pointer in it
-- outlives the variables that it leads to, and the next number is above those of all waiting calls,
-- both hold after any steps.
pub run-IsLive : (steps : List Step) (h : TrustHandler) → IsLive h → IsLive (run steps h)
unfolding run
run-IsLive [] h w = w
run-IsLive (s ∷ steps) h w = run-IsLive steps (step s h) (step-IsLive s h w)
