-- ===== src/Processes/Host.antt =====
-- ProcessManager: the host, a child process or a Windows service behind two named pipes.
use quick_desk.Base.{
  ℕ, suc, ℤ, Bool, true, false, not, ◌&&◌, ◌||◌, String, List, [], ◌∷◌, ◌++◌, Option, none, some,
  ltb, leb, nat_eqb, is_some, is_empty, if◌then◌else◌,
}
use quick_desk.Processes.Child.{
  ProcessStatus, not_started, starting, running, failed, restarting, status_code, process_starting,
  ExitStatus, ProcessError, failed_to_start, crashed, other_error, Child, new_child, is_running,
  set_state, ProcessSignal, started, finished, error_occurred, ErrorText, path_not_set,
  crashed_too_often, start_failed_too_often, not_executable, start_failed, process_error, Machine,
  max_restart_attempts, calculate_restart_delay, is_abnormal, Argument, request_mac_permissions,
  arguments, can_start, Force, Parting, leaving,
}

-- HostLaunchMode::Mode.
pub data LaunchMode : Type 0 where
  unknown_mode service_mode child_process_mode : LaunchMode

-- QLocalSocket::LocalSocketState, as far as the code tells the states apart.
pub data PipeState : Type 0 where
  pipe_unconnected pipe_connecting pipe_connected : PipeState

-- m_hostReadSocket and m_hostWriteSocket, which are made and dropped together.
pub record Pipes : Type 0 where
  pub read : PipeState
  pub write : PipeState

-- What a NativeMessaging talks through.
pub data Channel : Type 0 where
  through_process through_pipes : Channel

pub data Output : Type 0 where
  host_process_started : Output
  host_process_stopped : ℤ → Output
  host_process_error : ErrorText → Output
  host_process_restarting : ℕ → ℕ → Output
  host_auto_restart_changed host_process_status_changed host_launch_mode_changed : Output
  launched : String → List Argument → Output
  -- QLocalSocket::connectToServer on the write pipe, and on the read pipe.
  write_pipe_opened read_pipe_opened pipes_closed : Output
  forced : Force → Output

pub record Host : Type 0 where
  pub exe_path : String
  pub log_dir : String
  pub config_dir : String
  pub process : Option Child
  pub pipes : Option Pipes
  pub messaging : Option Channel
  pub auto_restart : Bool
  pub restart_count : ℕ
  pub is_stopping_intentionally : Bool
  pub is_mac_permission_request_sent : Bool
  pub restart_timer : Option ℕ
  pub status : ProcessStatus
  pub launch_mode : LaunchMode
  pub is_service_connecting : Bool
  -- Whether m_pipeConnectTimer runs, and the calls of onServicePipeError that were put off.
  pub is_pipe_timer_on : Bool
  pub deferred_errors : ℕ
  pub outputs : List Output

unfoldable pub init : String → String → String → Host
init exe_path log_dir config_dir = record {
  exe_path = exe_path;
  log_dir = log_dir;
  config_dir = config_dir;
  process = none;
  pipes = none;
  messaging = none;
  auto_restart = true;
  restart_count = 0;
  is_stopping_intentionally = false;
  is_mac_permission_request_sent = false;
  restart_timer = none;
  status = not_started;
  launch_mode = unknown_mode;
  is_service_connecting = false;
  is_pipe_timer_on = false;
  deferred_errors = 0;
  outputs = [];
}

abbrev pub put_out : Output → Host → Host
put_out o h = record h { outputs = h.outputs ++ o ∷ [] }

abbrev pub is_connected : PipeState → Bool
is_connected pipe_connected = true
is_connected _ = false

abbrev pub are_read_connected : Option Pipes → Bool
are_read_connected none = false
are_read_connected (some pipes) = is_connected pipes.read

unfoldable pub is_host_running : Host → Bool
is_host_running h = is_some h.messaging && are_read_connected h.pipes || is_running h.process

unfoldable pub is_host_service_running : Machine → Bool
is_host_service_running m = m.is_windows && m.is_service_running

unfoldable pub set_host_process_status : ProcessStatus → Host → Host
set_host_process_status st h =
    if nat_eqb (status_code h.status) (status_code st)
    then h
    else put_out host_process_status_changed (record h { status = st })

unfoldable pub set_host_auto_restart : Bool → Host → Host
set_host_auto_restart enabled h =
    if (if h.auto_restart then enabled else not enabled)
    then h
    else put_out host_auto_restart_changed (record h { auto_restart = enabled })

unfoldable pub reset_host_retry_count : Host → Host
reset_host_retry_count h = record h { restart_count = 0 }

abbrev pub set_launch_mode : LaunchMode → Host → Host
set_launch_mode mode h = put_out host_launch_mode_changed (record h { launch_mode = mode })

-- A planned restart, the counter raised already.
unfoldable pub announce_host_restart : Host → Host
announce_host_restart h =
    record (put_out (host_process_restarting h.restart_count max_restart_attempts)
      (set_host_process_status restarting h)) {
        restart_timer = some (calculate_restart_delay h.restart_count);
      }

abbrev pub count_restart : Host → Host
count_restart h = record h { restart_count = suc h.restart_count }

unfoldable pub on_host_process_finished : ℤ → ExitStatus → Host → Host
on_host_process_finished code exit h =
    let h = record (put_out (host_process_stopped code) h) { messaging = none } in
    if h.is_stopping_intentionally
    then set_host_process_status not_started
        (record h { is_stopping_intentionally = false; process = none; restart_count = 0 })
    else if not h.auto_restart
    then set_host_process_status not_started h
    else if not (is_abnormal code exit)
    then set_host_process_status not_started h
    else if leb max_restart_attempts h.restart_count
    then put_out (host_process_error crashed_too_often) (set_host_process_status failed h)
    else announce_host_restart (count_restart h)

unfoldable pub on_host_process_started : Host → Host
on_host_process_started h = put_out host_process_started (
    set_host_process_status running (
      set_launch_mode child_process_mode
        (record h { messaging = some through_process; restart_count = 0 })))

unfoldable pub on_host_process_error_occurred : ProcessError → String → Host → Host
on_host_process_error_occurred failed_to_start text h =
    let h = put_out (host_process_error (start_failed text)) h in
    if h.auto_restart && not h.is_stopping_intentionally
    then (if ltb h.restart_count max_restart_attempts
        then announce_host_restart (count_restart h)
        else put_out (host_process_error start_failed_too_often) (set_host_process_status failed h))
    else set_host_process_status not_started h
on_host_process_error_occurred crashed text h = h
on_host_process_error_occurred other_error text h =
    put_out (host_process_error (process_error text)) h

unfoldable pub handle_signal : ProcessSignal → Host → Host
handle_signal started h = on_host_process_started h
handle_signal (finished code exit) h = on_host_process_finished code exit h
handle_signal (error_occurred error text) h = on_host_process_error_occurred error text h

unfoldable pub handle_signals : List ProcessSignal → Host → Host
handle_signals [] h = h
handle_signals (g ∷ gs) h = handle_signals gs (handle_signal g h)

-- startProcess for the host: on a Mac the first start asks for permissions. A stop that was asked for
-- while the old process lived takes the new one away too: the source goes on through the null
-- pointer, the model without a process.
unfoldable pub start_process : Machine → Host → Host × Bool
start_process m h =
    let asks = m.is_mac && not h.is_mac_permission_request_sent in
    let args =
      arguments h.log_dir h.config_dir ++ (if asks then request_mac_permissions ∷ [] else []) in
    if can_start m h.exe_path
    then (
      put_out (launched h.exe_path args) (record h {
        process = set_state process_starting h.process;
        is_mac_permission_request_sent = h.is_mac_permission_request_sent || m.is_mac;
      }),
      true,
    )
    else (put_out (host_process_error (not_executable h.exe_path)) h, false)

unfoldable pub finish_start : Host × Bool → Host × Bool
finish_start (h, true) = (h, true)
finish_start (h, false) = (set_host_process_status not_started (record h { process = none }), false)

unfoldable pub start_host_as_child_process : Machine → Parting → Host → Host × Bool
start_host_as_child_process m parting h =
    if is_empty h.exe_path
    then (set_host_process_status not_started (put_out (host_process_error path_not_set) h), false)
    else finish_start (
        start_process m
          (handle_signals (leaving h.process parting) (record h { process = some new_child })))

-- The sockets are new, and the write pipe is opened first.
unfoldable pub connect_to_host_service_async : Host → Host
connect_to_host_service_async h = put_out write_pipe_opened (record h {
  pipes = some (record { read = pipe_unconnected; write = pipe_connecting });
  is_service_connecting = true;
  is_pipe_timer_on = true;
})

unfoldable pub start_host_process : Machine → Parting → Host → Host × Bool
start_host_process m parting h =
    if is_host_running h || h.is_service_connecting
    then (h, true)
    else (let h = set_host_process_status starting h in
        if is_host_service_running m
        then (connect_to_host_service_async h, true)
        else start_host_as_child_process m parting h)
