-- ===== src/Processes/Tests.antt =====
-- The client process on concrete histories.
use quick_desk.Base.{◌≡◌, refl, ◌+◌, ◌≤◌, pos, true, false, List, [], ◌∷◌, none, any, length}
use quick_desk.Processes.Child.{
  is_running, Machine, Parting, not_started, running, normal_exit, crash_exit, started, finished,
  starts_then_dies,
}
use quick_desk.Processes.Client.{
  init, set_client_process_status, on_client_process_started, handle_signal, replace_process,
  start_process, finish_start, start_client_process, stop_client_process, Step, receive, step, run,
  starts, stops, emits, terminate_fires, kill_fires,
}
use quick_desk.Processes.ClientBounds.{is_timely, is_excess}
use quick_desk.Processes.ClientRuns.{run-Steady, init-Steady, run-within}
use quick_desk.Processes.ClientStages.{launches}
use quick_desk.Processes.ClientLoop.{Crash, crash_steps, run-crash_steps}
use quick_desk.Processes.ClientRest.{stop_client_process-final}
use quick_desk.Processes.ClientStale.{stop_client_process-stale}

abbrev machine : Machine
machine = record {
  exists = λ path. true;
  is_executable = λ path. true;
  is_service_running = false;
  is_windows = true;
  is_mac = false;
}

abbrev dying : Parting
dying = starts_then_dies (pos 1)

-- A start, a crash, and a stop while the restart is planned.
abbrev history : List Step
history = starts machine dying ∷ emits started ∷ emits (finished (pos 3) normal_exit) ∷ stops ∷ []

run-within_example :
    ((run history (init "client" "logs" "")).restart_count ≤ 5)
    × (is_timely (run history (init "client" "logs" "")).restart_timer ≡ true)
    × (any is_excess (run history (init "client" "logs" "")).outputs ≡ false)
run-within_example = run-within "client" "logs" "" history

abbrev up : List Step
up = starts machine dying ∷ emits started ∷ []

abbrev crash : Crash
crash = record { code = pos 3; exit = normal_exit; machine = machine; parting = dying }

-- Six crashes, each as soon as the process runs.
abbrev crashes : List Crash
crashes = crash ∷ crash ∷ crash ∷ crash ∷ crash ∷ crash ∷ []

run-crash_steps_example :
    (is_running (run (crash_steps crashes) (run up (init "client" "" ""))).process ≡ true)
    × ((run (crash_steps crashes) (run up (init "client" "" ""))).status ≡ running)
    × (launches (run (crash_steps crashes) (run up (init "client" "" ""))).outputs
        ≡ length crashes + launches (run up (init "client" "" "")).outputs)
unfolding init run step start_client_process start_process finish_start replace_process
    set_client_process_status receive handle_signal on_client_process_started
run-crash_steps_example =
    run-crash_steps crashes (run up (init "client" "" ""))
      (run-Steady up (init "client" "" "") (init-Steady "client" "" "")) refl refl refl refl refl
      (
        (refl, refl),
        ((refl, refl), ((refl, refl), ((refl, refl), ((refl, refl), ((refl, refl), tt))))),
      )

-- The process is stopped, does not react, and is killed.
abbrev shutdown : List Step
shutdown = terminate_fires ∷ kill_fires ∷ emits (finished (pos 9) crash_exit) ∷ []

stop_client_process-final_example :
    (launches (run shutdown (stop_client_process (run up (init "client" "" "")))).outputs
      ≡ launches (run up (init "client" "" "")).outputs)
    × ((run shutdown (stop_client_process (run up (init "client" "" "")))).restart_timer ≡ none)
unfolding any
stop_client_process-final_example =
    stop_client_process-final shutdown (run up (init "client" "" "")) refl

stop_client_process-stale_example :
    ((run
        (stops ∷ starts machine dying ∷ emits started ∷ emits (finished (pos 3) crash_exit) ∷ [])
        (init "client" "" "")).status
      ≡ not_started)
    × ((run
          (stops ∷ starts machine dying ∷ emits started ∷ emits (finished (pos 3) crash_exit) ∷ [])
          (init "client" "" "")).restart_timer
        ≡ none)
unfolding init
stop_client_process-stale_example =
    stop_client_process-stale machine dying (pos 3) crash_exit (init "client" "" "") refl refl refl
      refl
