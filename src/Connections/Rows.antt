-- ===== src/Connections/Rows.antt =====
-- ConnectionListModel: the rows of one device.
use quick_desk.Base.{
  ℕ, zero, suc, pos, negsuc, ◌≡◌, refl, inl, inr, false, String, List, [], ◌∷◌, ◌++◌, none, some,
  if_split, str_eq, eq_iff, get_elem?, set, find_index, arith, Bool-cases, Option-cases, any,
}
use quick_desk.Connections.Model.{
  ConnectionEntry, ConnectionListModel, is_device, add_connection, remove_at, remove_connection,
  is_no_row, clear, update_state, Call, adds, removes, clears, updates, apply, apply_all,
}

-- No device has two rows.
abbrev pub Distinct : List ConnectionEntry → Type 0
Distinct [] = Unit {0}
Distinct (c ∷ cs) = (any (is_device c.device_id) cs ≡ false) × Distinct cs

any-append :
    (id : String) (cs : List ConnectionEntry) (c : ConnectionEntry)
    → any (is_device id) cs ≡ false
    → is_device id c ≡ false
    → any (is_device id) (cs ++ c ∷ []) ≡ false
unfolding any
any-append id [] c h g = ground (arith, g)
any-append id (b ∷ cs) c h g = ground (arith, any-append id cs c)

find_index-any :
    (id : String) (cs : List ConnectionEntry)
    → find_index (is_device id) cs ≡ none
    → any (is_device id) cs ≡ false
unfolding any find_index
find_index-any id [] h = refl
find_index-any id (c ∷ cs) h = elim (Bool-cases (is_device id c)) [
  | inl e ↦ absurd (let h' = rw e at h in ground arith)
  | inr e ↦ rw e (find_index-any id cs (let h' = rw e at h in ground arith))
]

Distinct-append :
    (cs : List ConnectionEntry) (c : ConnectionEntry)
    → Distinct cs
    → any (is_device c.device_id) cs ≡ false
    → Distinct (cs ++ c ∷ [])
unfolding any
Distinct-append [] c d h = (refl, tt)
Distinct-append (b ∷ cs) c d h = (
  any-append b.device_id cs c d.0
      (ground (arith, eq_iff b.device_id c.device_id, eq_iff c.device_id b.device_id)),
  Distinct-append cs c d.1 (ground arith),
)

any-remove_at :
    (id : String) (i : ℕ) (cs : List ConnectionEntry)
    → any (is_device id) cs ≡ false
    → any (is_device id) (remove_at i cs) ≡ false
unfolding any remove_at
any-remove_at id i [] h = h
any-remove_at id zero (c ∷ cs) h = ground arith
any-remove_at id (suc i) (c ∷ cs) h = ground (arith, any-remove_at id i cs)

Distinct-remove_at : (i : ℕ) (cs : List ConnectionEntry) → Distinct cs → Distinct (remove_at i cs)
unfolding remove_at
Distinct-remove_at i [] d = d
Distinct-remove_at zero (c ∷ cs) d = d.1
Distinct-remove_at (suc i) (c ∷ cs) d =
    (any-remove_at c.device_id i cs d.0, Distinct-remove_at i cs d.1)

any-set :
    (id state : String) (i : ℕ) (c : ConnectionEntry) (cs : List ConnectionEntry)
    → get_elem? cs i ≡ some c
    → any (is_device id) (set cs i (record c { state = state })) ≡ any (is_device id) cs
unfolding any
any-set id state i c [] h = refl
any-set id state zero c (b ∷ cs) h = ground arith
any-set id state (suc i) c (b ∷ cs) h = ground (arith, any-set id state i c cs h)

Distinct-set :
    (state : String) (i : ℕ) (c : ConnectionEntry) (cs : List ConnectionEntry)
    → get_elem? cs i ≡ some c
    → Distinct cs
    → Distinct (set cs i (record c { state = state }))
Distinct-set state i c [] h d = d
Distinct-set state zero c (b ∷ cs) h d = (ground arith, d.1)
Distinct-set state (suc i) c (b ∷ cs) h d =
    (rw (any-set b.device_id state i c cs h) d.0, Distinct-set state i c cs h d.1)

apply-Distinct :
    (call : Call) (m : ConnectionListModel)
    → Distinct m.connections
    → Distinct (apply call m).connections
unfolding apply add_connection remove_connection clear update_state
apply-Distinct (adds id) m d = elim (Option-cases (find_index (is_device id) m.connections)) [
  | inl e ↦ rw (e, Distinct) (Distinct-append m.connections _ d (find_index-any id m.connections e))
  | inr (i, e) ↦ rw (e, Distinct) d
]
apply-Distinct (removes (negsuc n)) m d = d
apply-Distinct (removes (pos i)) m d = elim (Option-cases (get_elem? m.connections i)) [
  | inl e ↦ rw (e, Distinct) d
  | inr (c, e) ↦ rw (e, Distinct) (Distinct-remove_at i m.connections d)
]
apply-Distinct clears m d =
    if_split (λ (n : ConnectionListModel). Distinct n.connections) (is_no_row m.connections)
      (λ _. d) (λ _. tt)
apply-Distinct (updates id state) m d =
    elim (Option-cases (find_index (is_device id) m.connections)) [
      | inl e ↦ rw (e, Distinct) d
      | inr (i, e) ↦ elim (Option-cases (get_elem? m.connections i)) [
        | inl g ↦ rw (e, g, Distinct) d
        | inr (c, g) ↦
            rw (e, g, Distinct)
              (if_split (λ (n : ConnectionListModel). Distinct n.connections) (str_eq c.state state)
                (λ _. d) (λ _. Distinct-set state i c m.connections g d))
      ]
    ]

-- Whatever calls are made on a model of which no two rows are of one device, the empty one for
-- instance, no two rows of the result are of one device.
pub apply_all-Distinct :
    (calls : List Call) (m : ConnectionListModel)
    → Distinct m.connections
    → Distinct (apply_all calls m).connections
unfolding apply_all
apply_all-Distinct [] m d = d
apply_all-Distinct (c ∷ cs) m d = apply_all-Distinct cs (apply c m) (apply-Distinct c m d)
