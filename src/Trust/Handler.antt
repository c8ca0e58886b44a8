-- ===== src/Trust/Handler.antt =====
-- TrustHandler as a machine. A confirmation "confirm-%1" is known by its number. A call of
-- handleRequestConfirmation is cut in two: what it does up to its wait, and what it does from there.
use quick_desk.Base.{
  ℕ, suc, ℤ, pos, Bool, true, false, String, List, [], ◌∷◌, ◌++◌, Option, none, some, if◌then◌else◌,
  str_eq, is_empty, nat_eq, nat_eqb,
}
use quick_desk.Base.Dict.{lookup, insert, erase, contains, add, remove}

-- The local variables of a waiting call that PendingConfirmation points to.
pub record Cell : Type 0 where
  pub is_approved : Bool
  pub reason : String
  pub is_done : Bool

-- The parameters of a request; `risk_level` and `timeout_secs` are none where they are missing.
pub record ConfirmationRequest : Type 0 where
  pub device_id : String
  pub tool_name : String
  pub arguments_json : String
  pub risk_level : Option String
  pub reasons : List String
  pub timeout_secs : Option ℤ

pub data Signal : Type 0 where
  confirmation_requested : ℕ → String → String → String → String → List String → ℤ → Signal
  emergency_stop_activated : String → Signal
  emergency_stop_deactivated : Signal

pub record TrustHandler : Type 0 where
  -- The keys of m_pending; the value of a key is the pointers to the call's cell in `waiting`.
  pub pending : List ℕ
  pub waiting : List (ℕ × Cell)
  pub next_id : ℕ
  pub signals : List Signal
  -- What waiting calls have answered: the confirmation, `approved`, and `reason`.
  pub answers : List (ℕ × Bool × String)

unfoldable pub init : TrustHandler
init = record { pending = []; waiting = []; next_id = 1; signals = []; answers = [] }

-- How the first half of handleRequestConfirmation ends.
pub data Begun : Type 0 where
  tool_name_missing auto_approved : Begun
  waits : ℕ → Begun

abbrev pub or_else {ℓ} : {A : Type ℓ} → A → Option A → A
or_else d none = d
or_else d (some v) = v

-- The confirm mode is none where the configuration could not be read.
abbrev pub is_auto : Option String → Bool
is_auto none = false
is_auto (some mode) = str_eq mode "auto_approve"

-- The call's entry in m_pending, its variables, and its signal.
unfoldable pub open_confirmation : ConfirmationRequest → TrustHandler → TrustHandler
open_confirmation r h = record {
  pending = add h.next_id h.pending;
  waiting =
      insert h.next_id (record { is_approved = false; reason = ""; is_done = false }) h.waiting;
  next_id = suc h.next_id;
  signals =
      h.signals
      ++ confirmation_requested h.next_id r.device_id r.tool_name r.arguments_json
          (or_else "medium" r.risk_level) r.reasons (or_else (pos 60) r.timeout_secs)
        ∷ [];
  answers = h.answers;
}

unfoldable pub begin_confirmation :
    Option String → ConfirmationRequest → TrustHandler → TrustHandler × Begun
begin_confirmation mode r h =
    if is_empty r.tool_name
    then (h, tool_name_missing)
    else if is_auto mode
    then (h, auto_approved)
    else (open_confirmation r h, waits h.next_id)

-- A write through the pointers of a confirmation.
unfoldable pub write_cell : ℕ → Cell → List (ℕ × Cell) → List (ℕ × Cell)
write_cell id c [] = []
write_cell id c ((i, d) ∷ m) = (i, (if nat_eqb i id then c else d)) ∷ write_cell id c m

-- The end of the wait, woken or out of time: the confirmation leaves m_pending and the call answers.
unfoldable pub end_confirmation : ℕ → TrustHandler → TrustHandler
end_confirmation id h = elim (lookup id h.waiting) [
  | none ↦ h
  | some c ↦ record h {
    pending = remove id h.pending;
    waiting = erase id h.waiting;
    answers =
        h.answers
        ++ (if c.is_done then (id, c.is_approved, c.reason) else (id, false, "timeout")) ∷ [];
  }
]

-- The loop of handleEmergencyStop.
unfoldable pub deny_all : List ℕ → List (ℕ × Cell) → List (ℕ × Cell)
deny_all [] m = m
deny_all (id ∷ ids) m =
    deny_all ids
      (write_cell id (record { is_approved = false; reason = "emergency stop"; is_done = true }) m)

-- `reason` is the parameter of the request, "manual" where it is missing.
unfoldable pub handle_emergency_stop : String → TrustHandler → TrustHandler
handle_emergency_stop reason h = record h {
  pending = [];
  waiting = deny_all h.pending h.waiting;
  signals = h.signals ++ emergency_stop_activated reason ∷ [];
}

unfoldable pub handle_deactivate_emergency : TrustHandler → TrustHandler
handle_deactivate_emergency h = record h { signals = h.signals ++ emergency_stop_deactivated ∷ [] }

unfoldable pub resolve_confirmation : ℕ → Bool → String → TrustHandler → TrustHandler
resolve_confirmation id approved reason h =
    if contains id h.pending
    then record h {
      waiting =
          write_cell id (record { is_approved = approved; reason = reason; is_done = true })
            h.waiting;
    }
    else h

-- The steps, in the order in which m_pendingMutex lets them through.
pub data Step : Type 0 where
  begins : Option String → ConfirmationRequest → Step
  ends : ℕ → Step
  resolves : ℕ → Bool → String → Step
  stops : String → Step
  deactivates : Step

unfoldable pub step : Step → TrustHandler → TrustHandler
step (begins mode r) h = (begin_confirmation mode r h).0
step (ends id) h = end_confirmation id h
step (resolves id approved reason) h = resolve_confirmation id approved reason h
step (stops reason) h = handle_emergency_stop reason h
step deactivates h = handle_deactivate_emergency h

unfoldable pub run : List Step → TrustHandler → TrustHandler
run [] h = h
run (s ∷ steps) h = run steps (step s h)
