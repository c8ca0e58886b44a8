-- ===== src/Connections/States.antt =====
-- The model as a map from a device to the state of its row.
use quick_desk.Base.{
  ℕ, zero, suc, ◌≡◌, refl, ◌∙◌, inl, inr, false, String, List, [], ◌∷◌, ◌++◌, Option, none, some,
  if◌then◌else◌, str_eq, eq_iff, get_elem?, set, find_index, find_index-some, arith, Bool-cases,
  Option-cases, any,
}
use quick_desk.Connections.Model.{
  ConnectionEntry, Signal, ConnectionListModel, is_device, row_at, add_connection, remove_at,
  remove_connection, clear, update_state, index_of,
}
use quick_desk.Connections.Rows.{Distinct}

-- The state in the row that `indexOf` finds for the device.
unfoldable pub state_of : String → ConnectionListModel → Option String
state_of id m = elim (row_at (index_of id m) m.connections) [ none ↦ none | some c ↦ some c.state ]

unfoldable first_state : String → List ConnectionEntry → Option String
first_state id [] = none
first_state id (c ∷ cs) = if is_device id c then some c.state else first_state id cs

state_of_lem :
    (id : String) (cs : List ConnectionEntry) (signals : List Signal)
    → state_of id (record { connections = cs; signals = signals }) ≡ first_state id cs
unfolding state_of index_of row_at first_state find_index
state_of_lem id [] signals = refl
state_of_lem id (c ∷ cs) signals =
    ground (arith, state_of_lem id cs signals, Option-cases (find_index (is_device id) cs))

first_state-set :
    (d id state : String) (i : ℕ) (c : ConnectionEntry) (cs : List ConnectionEntry)
    → get_elem? cs i ≡ some c
    → find_index (is_device id) cs ≡ some i
    → first_state d (set cs i (record c { state = state }))
      ≡ (if str_eq id d then some state else first_state d cs)
unfolding first_state find_index
first_state-set d id state i c [] h f = ground arith
first_state-set d id state zero c (b ∷ cs) h f =
    ground (arith, eq_iff id d, eq_iff b.device_id id, eq_iff b.device_id d, eq_iff c.device_id d)
first_state-set d id state (suc i) c (b ∷ cs) h f = ground (
  arith,
  eq_iff id d,
  eq_iff b.device_id id,
  eq_iff b.device_id d,
  first_state-set d id state i c cs h (ground arith),
)

first_state-same :
    (id : String) (i : ℕ) (c : ConnectionEntry) (cs : List ConnectionEntry)
    → get_elem? cs i ≡ some c
    → find_index (is_device id) cs ≡ some i
    → first_state id cs ≡ some c.state
unfolding first_state find_index
first_state-same id i c [] h f = ground arith
first_state-same id zero c (b ∷ cs) h f = ground arith
first_state-same id (suc i) c (b ∷ cs) h f =
    ground (arith, first_state-same id i c cs h (ground arith))

first_state-any :
    (id : String) (cs : List ConnectionEntry)
    → any (is_device id) cs ≡ false
    → first_state id cs ≡ none
unfolding first_state any
first_state-any id [] h = refl
first_state-any id (c ∷ cs) h = ground (arith, first_state-any id cs)

first_state-remove_at :
    (d id : String) (i : ℕ) (cs : List ConnectionEntry)
    → Distinct cs
    → find_index (is_device id) cs ≡ some i
    → first_state d (remove_at i cs) ≡ (if str_eq id d then none else first_state d cs)
unfolding first_state find_index remove_at
first_state-remove_at d id i [] w f = ground arith
first_state-remove_at d id zero (b ∷ cs) w f = ground (
  arith,
  eq_iff id d,
  eq_iff b.device_id id,
  eq_iff b.device_id d,
  first_state-any b.device_id cs w.0,
)
first_state-remove_at d id (suc i) (b ∷ cs) w f = ground (
  arith,
  eq_iff id d,
  eq_iff b.device_id id,
  eq_iff b.device_id d,
  first_state-remove_at d id i cs w.1 (ground arith),
)

first_state-append :
    (d : String) (c : ConnectionEntry) (cs : List ConnectionEntry)
    → first_state d (cs ++ c ∷ []) ≡ elim (first_state d cs) [
      | none ↦ (if is_device d c then some c.state else none)
      | some s ↦ some s
    ]
unfolding first_state
first_state-append d c [] = refl
first_state-append d c (b ∷ cs) = ground (arith, first_state-append d c cs)

-- What `first_state` gives where the search of the device misses.
first_state-none :
    (id : String) (cs : List ConnectionEntry)
    → find_index (is_device id) cs ≡ none
    → first_state id cs ≡ none
unfolding first_state find_index
first_state-none id [] h = refl
first_state-none id (c ∷ cs) h = elim (Bool-cases (is_device id c)) [
  | inl e ↦ absurd (let h' = rw e at h in ground arith)
  | inr e ↦ rw e (first_state-none id cs (let h' = rw e at h in ground arith))
]

add_connection-first :
    (d id : String) (m : ConnectionListModel)
    → first_state d (add_connection id m).0.connections ≡ elim (first_state d m.connections) [
      | none ↦ (if str_eq id d then some "connecting" else none)
      | some s ↦ some s
    ]
unfolding add_connection first_state
add_connection-first d id m = elim (Option-cases (find_index (is_device id) m.connections)) [
  | inl e ↦ rw (e, first_state) (first_state-append d _ m.connections)
  | inr (i, e) ↦
      let (c, g, h) = find_index-some (is_device id) m.connections i e in
      ground (arith, e, eq_iff id d, first_state-same id i c m.connections g e)
]

update_state-first :
    (d id state : String) (m : ConnectionListModel)
    → first_state d (update_state id state m).connections ≡ elim (first_state id m.connections) [
      | none ↦ first_state d m.connections
      | some s ↦ (if str_eq id d then some state else first_state d m.connections)
    ]
unfolding update_state
update_state-first d id state m = elim (Option-cases (find_index (is_device id) m.connections)) [
  | inl e ↦ ground (arith, e, first_state-none id m.connections e)
  | inr (i, e) ↦
      let (c, g, h) = find_index-some (is_device id) m.connections i e in
      ground (
        arith,
        e,
        g,
        eq_iff id d,
        eq_iff c.state state,
        first_state-same id i c m.connections g e,
        first_state-set d id state i c m.connections g e,
      )
]

remove_connection-first :
    (d id : String) (m : ConnectionListModel)
    → Distinct m.connections
    → first_state d (remove_connection (index_of id m) m).connections
      ≡ (if str_eq id d then none else first_state d m.connections)
unfolding remove_connection index_of
remove_connection-first d id m w = elim (Option-cases (find_index (is_device id) m.connections)) [
  | inl e ↦ ground (arith, e, eq_iff id d, first_state-none id m.connections e)
  | inr (i, e) ↦
      let (c, g, h) = find_index-some (is_device id) m.connections i e in
      ground (arith, e, g, first_state-remove_at d id i m.connections w e)
]

clear-first : (d : String) (m : ConnectionListModel) → first_state d (clear m).connections ≡ none
unfolding clear first_state
clear-first d m = go m.connections m.signals
  where
    go :
        (cs : List ConnectionEntry) (signals : List Signal)
        → first_state d (clear (record { connections = cs; signals = signals })).connections ≡ none
    go [] signals = refl
    go (c ∷ cs) signals = refl

-- The state that the model shows for a device, none for a device without a row, after each
-- operation of a model in which no device has two rows: adding a device shows "connecting" for it
-- unless it is there already, updating shows the new state for it if it is there, removing the row
-- that `indexOf` gives for it leaves it without one, clearing leaves no device with one, and no
-- operation on one device changes what is shown for another.
pub state_of_after :
    (d id state : String) (m : ConnectionListModel)
    → Distinct m.connections
    → (state_of d (add_connection id m).0 ≡ elim (state_of d m) [
      | none ↦ (if str_eq id d then some "connecting" else none)
      | some s ↦ some s
    ])
      × (state_of d (update_state id state m) ≡ elim (state_of id m) [
        | none ↦ state_of d m
        | some s ↦ (if str_eq id d then some state else state_of d m)
      ])
      × (state_of d (remove_connection (index_of id m) m)
          ≡ (if str_eq id d then none else state_of d m))
      × (state_of d (clear m) ≡ none)
state_of_after d id state m w =
    let here : (x : String) (n : ConnectionListModel) → state_of x n ≡ first_state x n.connections =
      λ x n. state_of_lem x n.connections n.signals in
    (
      ground (arith, here d (add_connection id m).0, here d m, add_connection-first d id m),
      ground (
        arith,
        here d (update_state id state m),
        here d m,
        here id m,
        update_state-first d id state m,
      ),
      ground (
        arith,
        here d (remove_connection (index_of id m) m),
        here d m,
        remove_connection-first d id m w,
      ),
      here d (clear m) ∙ clear-first d m,
    )
