-- ===== src/Processes/HostTests.antt =====
-- The host on concrete histories.
use quick_desk.Base.{◌≡◌, refl, pos, true, false, List, [], ◌∷◌, ◌++◌, none, is_some, any}
use quick_desk.Processes.Child.{Machine, Parting, starts_then_dies}
use quick_desk.Processes.Host.{
  init, is_host_running, is_host_service_running, set_host_process_status,
  connect_to_host_service_async, start_host_process,
}
use quick_desk.Processes.HostEvents.{
  stop_host_process, on_write_pipe_connected, on_pipe_error_occurred, Step, connect_write,
  fail_pipe, step, run, starts, restart_fires, write_connects, pipe_fails, deferred_fires,
  pipe_timer_fires,
}
use quick_desk.Processes.ClientBounds.{is_timely}
use quick_desk.Processes.HostBounds.{is_excess}
use quick_desk.Processes.HostRuns.{run-announces}
use quick_desk.Processes.HostStop.{launches}
use quick_desk.Processes.HostRest.{stop_host_process-final}
use quick_desk.Processes.HostPending.{run-pending}

-- Windows with the service running.
abbrev machine : Machine
machine = record {
  exists = λ path. true;
  is_executable = λ path. true;
  is_service_running = true;
  is_windows = true;
  is_mac = false;
}

abbrev dying : Parting
dying = starts_then_dies (pos 1)

-- The write pipe connects and the read pipe fails.
abbrev half_connected : List Step
half_connected = starts machine dying ∷ write_connects ∷ pipe_fails false "no pipe" ∷ []

abbrev retried : List Step
retried = half_connected ++ deferred_fires machine dying ∷ restart_fires machine dying ∷ []

run-announces_example :
    (any is_excess (run retried (init "host" "" "")).outputs ≡ false)
    × (is_timely (run retried (init "host" "" "")).restart_timer ≡ true)
run-announces_example = run-announces "host" "" "" retried

abbrev later : List Step
later =
    deferred_fires machine dying ∷ pipe_timer_fires machine dying ∷ restart_fires machine dying ∷ []

stop_host_process-final_example :
    (launches (run later (stop_host_process (run half_connected (init "host" "" "")))).outputs
      ≡ launches (run half_connected (init "host" "" "")).outputs)
    × ((run later (stop_host_process (run half_connected (init "host" "" "")))).restart_timer
        ≡ none)
    × ((run later (stop_host_process (run half_connected (init "host" "" "")))).pipes ≡ none)
unfolding any
stop_host_process-final_example =
    stop_host_process-final later (run half_connected (init "host" "" "")) refl

run-pending_example :
    ((run half_connected (init "host" "" "")).is_pipe_timer_on ≡ true)
    × (is_some (run half_connected (init "host" "" "")).pipes ≡ true)
    × ((step
          (pipe_timer_fires machine dying)
          (run half_connected (init "host" "" ""))).is_service_connecting
        ≡ false)
    × ((step (pipe_timer_fires machine dying) (run half_connected (init "host" "" ""))).pipes
        ≡ none)
unfolding init run step start_host_process connect_to_host_service_async set_host_process_status
    is_host_running is_host_service_running connect_write on_write_pipe_connected fail_pipe
    on_pipe_error_occurred
run-pending_example = run-pending "host" "" "" half_connected machine dying refl
