-- ===== src/Trust/Tests.antt =====
-- The confirmations on a concrete history.
use quick_desk.Base.{◌≡◌, refl, pos, true, false, List, [], ◌∷◌, ◌++◌, none, some, arith, any}
use quick_desk.Base.Dict.{lookup, contains, has_key, add, insert}
use quick_desk.Trust.Handler.{
  ConfirmationRequest, init, begin_confirmation, open_confirmation, end_confirmation,
  handle_emergency_stop, resolve_confirmation, write_cell, Step, begins, ends, resolves,
  deactivates, step, run,
}
use quick_desk.Trust.Liveness.{IsLive, run-IsLive}
use quick_desk.Trust.Stop.{is_ended, handle_emergency_stop-denies}
use quick_desk.Trust.Approval.{is_resolution, run-approved_by}

abbrev request : ConfirmationRequest
request = record {
  device_id = "111";
  tool_name = "exec";
  arguments_json = "{}";
  risk_level = none;
  reasons = "shell" ∷ [];
  timeout_secs = some (pos 30);
}

init-IsLive : IsLive init
unfolding init contains has_key
init-IsLive = record {
  waits = λ id p. absurd (ground arith);
  below = λ id p. absurd (ground arith);
}

-- Two calls wait.
abbrev opened : List Step
opened = begins none request ∷ begins (some "manual") request ∷ []

run-IsLive_example : IsLive (run opened init)
run-IsLive_example = run-IsLive opened init init-IsLive

-- The stop comes, the user approves too late, and the stop is lifted.
abbrev later : List Step
later = resolves 1 true "ok" ∷ ends 2 ∷ deactivates ∷ []

handle_emergency_stop-denies_example :
    (end_confirmation 1 (run later (handle_emergency_stop "manual" (run opened init)))).answers
    ≡ (run later (handle_emergency_stop "manual" (run opened init))).answers
      ++ (1, false, "emergency stop") ∷ []
unfolding init run step begin_confirmation open_confirmation contains add is_ended
handle_emergency_stop-denies_example =
    handle_emergency_stop-denies 1 "manual" later (run opened init)
      (run-IsLive opened init init-IsLive) refl refl

abbrev approved : List Step
approved = begins none request ∷ resolves 1 true "ok" ∷ ends 1 ∷ []

run-approved_by_example : any (is_resolution 1 "ok") approved ≡ true
unfolding init run step begin_confirmation open_confirmation resolve_confirmation end_confirmation
    write_cell contains add insert lookup any
run-approved_by_example = run-approved_by 1 "ok" approved refl
