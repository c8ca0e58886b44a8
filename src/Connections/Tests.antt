-- ===== src/Connections/Tests.antt =====
-- The connection list on a concrete history.
use quick_desk.Base.{◌≡◌, refl, pos, negsuc, List, [], ◌∷◌, none, some, if◌then◌else◌, str_eq, any}
use quick_desk.Connections.Model.{
  ConnectionListModel, add_connection, remove_connection, clear, update_state, index_of, Call, adds,
  removes, updates, apply_all,
}
use quick_desk.Connections.Rows.{Distinct, apply_all-Distinct}
use quick_desk.Connections.States.{state_of, state_of_after}

abbrev no_rows : ConnectionListModel
no_rows = record { connections = []; signals = [] }

abbrev calls : List Call
calls =
    adds "111"
    ∷ adds "222"
    ∷ adds "111"
    ∷ updates "222" "connected"
    ∷ removes (pos 0)
    ∷ adds "111"
    ∷ removes (negsuc 0)
    ∷ []

apply_all-Distinct_example : Distinct (apply_all calls no_rows).connections
apply_all-Distinct_example = apply_all-Distinct calls no_rows tt

abbrev two_rows : ConnectionListModel
two_rows = record {
  connections =
      record { device_id = "111"; name = "111"; state = "connecting" }
      ∷ record { device_id = "222"; name = "222"; state = "connected" }
      ∷ [];
  signals = [];
}

state_of_after_example :
    (state_of "222" (add_connection "111" two_rows).0 ≡ elim (state_of "222" two_rows) [
      | none ↦ (if str_eq "111" "222" then some "connecting" else none)
      | some s ↦ some s
    ])
    × (state_of "222" (update_state "111" "failed" two_rows) ≡ elim (state_of "111" two_rows) [
      | none ↦ state_of "222" two_rows
      | some s ↦ (if str_eq "111" "222" then some "failed" else state_of "222" two_rows)
    ])
    × (state_of "222" (remove_connection (index_of "111" two_rows) two_rows)
        ≡ (if str_eq "111" "222" then none else state_of "222" two_rows))
    × (state_of "222" (clear two_rows) ≡ none)
unfolding any
state_of_after_example = state_of_after "222" "111" "failed" two_rows (refl, (refl, tt))
