-- ===== src/Processes/HostEvents.antt =====
-- ProcessManager: the stop of the host, the signals of its pipes and the timers.
use quick_desk.Base.{
  ℕ, suc, ◌-◌, pos, Bool, true, false, not, ◌&&◌, String, List, [], ◌∷◌, Option, none, some, leb,
  nat_eqb, is_some, if◌then◌else◌,
}
use quick_desk.Processes.Child.{
  not_started, running, Child, is_alive, ProcessSignal, process_error, Machine,
  max_restart_attempts, ask_to_exit, Force, escalate_terminate, escalate_kill, Parting, can_emit,
  state_after,
}
use quick_desk.Processes.Host.{
  unknown_mode, service_mode, PipeState, pipe_unconnected, pipe_connecting, pipe_connected, Pipes,
  through_pipes, host_process_started, host_process_stopped, host_process_error, read_pipe_opened,
  pipes_closed, forced, Host, put_out, is_connected, is_host_service_running,
  set_host_process_status, set_host_auto_restart, reset_host_retry_count, set_launch_mode,
  announce_host_restart, count_restart, handle_signal, start_host_as_child_process,
  start_host_process,
}

unfoldable pub cleanup_service_connection : Host → Host
cleanup_service_connection h =
    if is_some h.pipes
    then put_out pipes_closed (record h { messaging = none; pipes = none })
    else record h { messaging = none }

-- The end of stopHostProcess, once the timers and flags are set.
unfoldable pub release_host : Host → Host
release_host h =
    if is_some h.pipes
    then set_host_process_status not_started
        (record (cleanup_service_connection h) { restart_count = 0 })
    else if is_alive h.process
    then record h { process = ask_to_exit h.process }
    else set_host_process_status not_started
        (record h { messaging = none; process = none; restart_count = 0 })

unfoldable pub stop_host_process : Host → Host
stop_host_process h = release_host (
    set_launch_mode unknown_mode (record h {
      restart_timer = none;
      is_stopping_intentionally = true;
      is_service_connecting = false;
      is_pipe_timer_on = h.is_pipe_timer_on && not h.is_service_connecting;
    }))

unfoldable pub on_host_restart_timer : Machine → Parting → Host → Host
on_host_restart_timer m parting h = (start_host_process m parting h).0

-- The phase between the two pipes: the write pipe is there, the read pipe is opened.
unfoldable pub on_write_pipe_connected : Pipes → Host → Host
on_write_pipe_connected pipes h =
    if h.is_service_connecting
    then put_out read_pipe_opened (record h {
      pipes = some (record pipes { read = pipe_connecting; write = pipe_connected });
    })
    else record h { pipes = some (record pipes { write = pipe_connected }) }

unfoldable pub on_service_pipe_connected : Host → Host
on_service_pipe_connected h =
    if h.is_service_connecting
    then put_out host_process_started (
        set_host_process_status running (
          set_launch_mode service_mode (record h {
            is_service_connecting = false;
            is_pipe_timer_on = false;
            messaging = some through_pipes;
            restart_count = 0;
          })))
    else h

-- The service is given up: the host becomes a child process.
unfoldable pub fall_back : Machine → Parting → Host → Host
fall_back m parting h = (start_host_as_child_process m parting (set_launch_mode unknown_mode h)).0

unfoldable pub on_service_pipe_error : Machine → Parting → Host → Host
on_service_pipe_error m parting h =
    if h.is_service_connecting
    then (let h =
          cleanup_service_connection
            (record h { is_service_connecting = false; is_pipe_timer_on = false }) in
        if is_host_service_running m
        then (if leb (suc h.restart_count) max_restart_attempts
            then announce_host_restart (count_restart h)
            else fall_back m parting (count_restart h))
        else fall_back m parting h)
    else h

-- handleError: an error while the pipes are opened is put off.
unfoldable pub on_pipe_error_occurred : Bool → String → Host → Host
on_pipe_error_occurred is_peer_closed text h =
    if h.is_service_connecting
    then record h { deferred_errors = suc h.deferred_errors }
    else if is_peer_closed
    then h
    else put_out (host_process_error (process_error text)) h

-- The lambda on QLocalSocket::disconnected of the read pipe.
unfoldable pub on_read_pipe_disconnected : Machine → Parting → Host → Host
on_read_pipe_disconnected m parting h =
    if h.is_service_connecting
    then h
    else (let h = cleanup_service_connection (put_out (host_process_stopped (pos 0)) h) in
        if h.is_stopping_intentionally
        then set_host_process_status not_started (record h { is_stopping_intentionally = false })
        else if not h.auto_restart
        then set_host_process_status not_started h
        else if is_host_service_running m
        then (if leb (suc h.restart_count) max_restart_attempts
            then announce_host_restart (count_restart h)
            else fall_back m parting (record (count_restart h) { restart_timer = none }))
        else fall_back m parting (record h { restart_timer = none }))

unfoldable pub put_force : Child × Option Force → Host → Host
put_force (p, none) h = record h { process = some p }
put_force (p, some force) h = put_out (forced force) (record h { process = some p })

-- A step: a call, a signal of the process or of a pipe, or a timer.
pub data Step : Type 0 where
  starts : Machine → Parting → Step
  stops resets : Step
  enables : Bool → Step
  emits : ProcessSignal → Step
  restart_fires : Machine → Parting → Step
  terminate_fires kill_fires write_connects read_connects : Step
  pipe_fails : Bool → String → Step
  read_disconnects deferred_fires pipe_timer_fires : Machine → Parting → Step

unfoldable pub receive : ProcessSignal → Option Child → Host → Host
receive g none h = h
receive g (some p) h =
    if can_emit g p.state
    then handle_signal g (record h { process = some (record p { state = state_after g p.state }) })
    else h

unfoldable pub fire_restart : Machine → Parting → Option ℕ → Host → Host
fire_restart m parting none h = h
fire_restart m parting (some delay) h =
    on_host_restart_timer m parting (record h { restart_timer = none })

unfoldable pub fire_terminate : Option Child → Host → Host
fire_terminate none h = h
fire_terminate (some p) h =
    if nat_eqb p.to_terminate 0 then h else put_force (escalate_terminate p) h

unfoldable pub fire_kill : Option Child → Host → Host
fire_kill none h = h
fire_kill (some p) h = if nat_eqb p.to_kill 0 then h else put_force (escalate_kill p) h

abbrev pub is_connecting : PipeState → Bool
is_connecting pipe_connecting = true
is_connecting _ = false

unfoldable pub connect_write : Option Pipes → Host → Host
connect_write none h = h
connect_write (some pipes) h =
    if is_connecting pipes.write then on_write_pipe_connected pipes h else h

unfoldable pub connect_read : Option Pipes → Host → Host
connect_read none h = h
connect_read (some pipes) h =
    if is_connecting pipes.read
    then on_service_pipe_connected
        (record h { pipes = some (record pipes { read = pipe_connected }) })
    else h

unfoldable pub disconnect_read : Machine → Parting → Option Pipes → Host → Host
disconnect_read m parting none h = h
disconnect_read m parting (some pipes) h =
    if is_connected pipes.read
    then on_read_pipe_disconnected m parting
        (record h { pipes = some (record pipes { read = pipe_unconnected }) })
    else h

unfoldable pub fail_pipe : Bool → String → Option Pipes → Host → Host
fail_pipe is_peer_closed text none h = h
fail_pipe is_peer_closed text (some pipes) h = on_pipe_error_occurred is_peer_closed text h

unfoldable pub fire_deferred : Machine → Parting → Host → Host
fire_deferred m parting h =
    if nat_eqb h.deferred_errors 0
    then h
    else on_service_pipe_error m parting (record h { deferred_errors = h.deferred_errors - 1 })

unfoldable pub fire_pipe_timer : Machine → Parting → Host → Host
fire_pipe_timer m parting h =
    if h.is_pipe_timer_on
    then on_service_pipe_error m parting (record h { is_pipe_timer_on = false })
    else h

unfoldable pub step : Step → Host → Host
step (starts m parting) h = (start_host_process m parting h).0
step stops h = stop_host_process h
step resets h = reset_host_retry_count h
step (enables enabled) h = set_host_auto_restart enabled h
step (emits g) h = receive g h.process h
step (restart_fires m parting) h = fire_restart m parting h.restart_timer h
step terminate_fires h = fire_terminate h.process h
step kill_fires h = fire_kill h.process h
step write_connects h = connect_write h.pipes h
step read_connects h = connect_read h.pipes h
step (pipe_fails is_peer_closed text) h = fail_pipe is_peer_closed text h.pipes h
step (read_disconnects m parting) h = disconnect_read m parting h.pipes h
step (deferred_fires m parting) h = fire_deferred m parting h
step (pipe_timer_fires m parting) h = fire_pipe_timer m parting h

unfoldable pub run : List Step → Host → Host
run [] h = h
run (s ∷ steps) h = run steps (step s h)
