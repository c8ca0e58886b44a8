-- ===== src/Connections/Model.antt =====
-- ConnectionListModel: its rows, the signals it puts out, and its operations.
use quick_desk.Base.{
  ℕ, zero, suc, ℤ, pos, negsuc, Bool, true, false, String, List, [], ◌∷◌, ◌++◌, Option, none, some,
  if◌then◌else◌, str_eq, length, get_elem?, set, find_index,
}

pub record ConnectionEntry : Type 0 where
  pub device_id : String
  pub name : String
  pub state : String

pub data Signal : Type 0 where
  -- endInsertRows and endRemoveRows, with the row.
  rows_inserted rows_removed : ℕ → Signal
  model_reset : Signal
  -- dataChanged of a row for StateRole.
  data_changed : ℕ → Signal
  count_changed : Signal

pub record ConnectionListModel : Type 0 where
  pub connections : List ConnectionEntry
  pub signals : List Signal

pub data Role : Type 0 where
  device_id_role name_role state_role other_role : Role

abbrev pub is_device : String → ConnectionEntry → Bool
is_device id c = str_eq c.device_id id

unfoldable pub read_role : Role → ConnectionEntry → Option String
read_role device_id_role c = some c.device_id
read_role name_role c = some c.name
read_role state_role c = some c.state
read_role other_role c = none

-- The row at an `int` index, none out of range.
unfoldable pub row_at : ℤ → List ConnectionEntry → Option ConnectionEntry
row_at (pos i) cs = get_elem? cs i
row_at (negsuc n) cs = none

unfoldable pub row_count : ConnectionListModel → ℕ
row_count m = length m.connections

-- `data`: an invalid QVariant is none.
unfoldable pub data_at : ℤ → Role → ConnectionListModel → Option String
data_at index role m = elim (row_at index m.connections) [ none ↦ none | some c ↦ read_role role c ]

unfoldable pub add_connection : String → ConnectionListModel → ConnectionListModel × ℕ
add_connection id m = elim (find_index (is_device id) m.connections) [
  | some i ↦ (m, i)
  | none ↦
      let row = length m.connections in
      let c : ConnectionEntry = record { device_id = id; name = id; state = "connecting" } in
      (
        record {
          connections = m.connections ++ c ∷ [];
          signals = m.signals ++ rows_inserted row ∷ count_changed ∷ [];
        },
        row,
      )
]

-- QVector::removeAt
unfoldable pub remove_at : ℕ → List ConnectionEntry → List ConnectionEntry
remove_at i [] = []
remove_at zero (c ∷ cs) = cs
remove_at (suc i) (c ∷ cs) = c ∷ remove_at i cs

unfoldable pub remove_connection : ℤ → ConnectionListModel → ConnectionListModel
remove_connection (negsuc n) m = m
remove_connection (pos i) m = elim (get_elem? m.connections i) [
  | none ↦ m
  | some c ↦ record {
    connections = remove_at i m.connections;
    signals = m.signals ++ rows_removed i ∷ count_changed ∷ [];
  }
]

abbrev pub is_no_row : List ConnectionEntry → Bool
is_no_row [] = true
is_no_row (c ∷ cs) = false

unfoldable pub clear : ConnectionListModel → ConnectionListModel
clear m =
    if is_no_row m.connections
    then m
    else record { connections = []; signals = m.signals ++ model_reset ∷ count_changed ∷ [] }

-- The first row of the device.
unfoldable pub update_state : String → String → ConnectionListModel → ConnectionListModel
update_state id state m = elim (find_index (is_device id) m.connections) [
  | none ↦ m
  | some i ↦ elim (get_elem? m.connections i) [
    | none ↦ m
    | some c ↦ if str_eq c.state state then m else record {
      connections = set m.connections i (record c { state = state });
      signals = m.signals ++ data_changed i ∷ [];
    }
  ]
]

unfoldable pub index_of : String → ConnectionListModel → ℤ
index_of id m = elim (find_index (is_device id) m.connections) [ none ↦ negsuc 0 | some i ↦ pos i ]

unfoldable pub device_id_at : ℤ → ConnectionListModel → String
device_id_at index m = elim (row_at index m.connections) [ none ↦ "" | some c ↦ c.device_id ]

unfoldable pub state_at : ℤ → ConnectionListModel → String
state_at index m = elim (row_at index m.connections) [ none ↦ "" | some c ↦ c.state ]

-- The calls that change the model.
pub data Call : Type 0 where
  adds : String → Call
  removes : ℤ → Call
  clears : Call
  updates : String → String → Call

unfoldable pub apply : Call → ConnectionListModel → ConnectionListModel
apply (adds id) m = (add_connection id m).0
apply (removes index) m = remove_connection index m
apply clears m = clear m
apply (updates id state) m = update_state id state m

unfoldable pub apply_all : List Call → ConnectionListModel → ConnectionListModel
apply_all [] m = m
apply_all (c ∷ cs) m = apply_all cs (apply c m)
