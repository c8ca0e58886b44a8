-- ===== src/Processes/Client.antt =====
-- ProcessManager: the client process.
use quick_desk.Base.{
  ℕ, suc, ℤ, Bool, true, false, not, ◌&&◌, String, List, [], ◌∷◌, ◌++◌, Option, none, some, ltb,
  leb, nat_eqb, is_empty, if◌then◌else◌,
}
use quick_desk.Processes.Child.{
  ProcessStatus, not_started, starting, running, failed, restarting, status_code, process_starting,
  ExitStatus, ProcessError, failed_to_start, crashed, other_error, Child, new_child, is_running,
  is_starting, is_alive, set_state, ProcessSignal, started, finished, error_occurred, ErrorText,
  path_not_set, crashed_too_often, start_failed_too_often, not_executable, start_failed,
  process_error, Machine, max_restart_attempts, calculate_restart_delay, is_abnormal, Argument,
  arguments, can_start, ask_to_exit, Force, escalate_terminate, escalate_kill, Parting,
  parting_signals, can_emit, state_after,
}

pub data Output : Type 0 where
  client_process_started : Output
  client_process_stopped : ℤ → Output
  client_process_error : ErrorText → Output
  client_process_restarting : ℕ → ℕ → Output
  client_auto_restart_changed : Output
  client_process_status_changed : Output
  -- QProcess::start with a program and its arguments.
  launched : String → List Argument → Output
  forced : Force → Output

pub record Client : Type 0 where
  pub exe_path : String
  pub log_dir : String
  pub config_dir : String
  pub process : Option Child
  -- Whether there is a NativeMessaging.
  pub has_messaging : Bool
  pub auto_restart : Bool
  pub restart_count : ℕ
  pub is_stopping_intentionally : Bool
  -- The delay of the restart timer where it runs.
  pub restart_timer : Option ℕ
  pub status : ProcessStatus
  pub outputs : List Output

unfoldable pub init : String → String → String → Client
init exe_path log_dir config_dir = record {
  exe_path = exe_path;
  log_dir = log_dir;
  config_dir = config_dir;
  process = none;
  has_messaging = false;
  auto_restart = true;
  restart_count = 0;
  is_stopping_intentionally = false;
  restart_timer = none;
  status = not_started;
  outputs = [];
}

abbrev pub put_out : Output → Client → Client
put_out o c = record c { outputs = c.outputs ++ o ∷ [] }

unfoldable pub set_client_process_status : ProcessStatus → Client → Client
set_client_process_status st c =
    if nat_eqb (status_code c.status) (status_code st)
    then c
    else put_out client_process_status_changed (record c { status = st })

unfoldable pub set_client_auto_restart : Bool → Client → Client
set_client_auto_restart enabled c =
    if (if c.auto_restart then enabled else not enabled)
    then c
    else put_out client_auto_restart_changed (record c { auto_restart = enabled })

unfoldable pub reset_client_retry_count : Client → Client
reset_client_retry_count c = record c { restart_count = 0 }

-- The restart that a crash and a failed start have in common.
unfoldable pub schedule_client_restart : Client → Client
schedule_client_restart c =
    let counted = record c { restart_count = suc c.restart_count } in
    let told = set_client_process_status restarting counted in
    record (put_out (client_process_restarting (suc c.restart_count) max_restart_attempts) told) {
      restart_timer = some (calculate_restart_delay (suc c.restart_count));
    }

unfoldable pub on_client_process_finished : ℤ → ExitStatus → Client → Client
on_client_process_finished code exit c =
    let c = record (put_out (client_process_stopped code) c) { has_messaging = false } in
    if c.is_stopping_intentionally
    then set_client_process_status not_started
        (record c { is_stopping_intentionally = false; process = none; restart_count = 0 })
    else if not c.auto_restart
    then set_client_process_status not_started c
    else if not (is_abnormal code exit)
    then set_client_process_status not_started c
    else if leb max_restart_attempts c.restart_count
    then put_out (client_process_error crashed_too_often) (set_client_process_status failed c)
    else schedule_client_restart c

unfoldable pub on_client_process_started : Client → Client
on_client_process_started c =
    put_out client_process_started
      (set_client_process_status running (record c { has_messaging = true; restart_count = 0 }))

unfoldable pub on_client_process_error_occurred : ProcessError → String → Client → Client
on_client_process_error_occurred failed_to_start text c =
    let c = put_out (client_process_error (start_failed text)) c in
    if c.auto_restart && not c.is_stopping_intentionally
    then (if ltb c.restart_count max_restart_attempts
        then schedule_client_restart c
        else put_out (client_process_error start_failed_too_often)
            (set_client_process_status failed c))
    else set_client_process_status not_started c
on_client_process_error_occurred crashed text c = c
on_client_process_error_occurred other_error text c =
    put_out (client_process_error (process_error text)) c

unfoldable pub handle_signal : ProcessSignal → Client → Client
handle_signal started c = on_client_process_started c
handle_signal (finished code exit) c = on_client_process_finished code exit c
handle_signal (error_occurred error text) c = on_client_process_error_occurred error text c

unfoldable pub handle_signals : List ProcessSignal → Client → Client
handle_signals [] c = c
handle_signals (g ∷ gs) c = handle_signals gs (handle_signal g c)

-- make_unique of a QProcess. One that is replaced while it starts is destroyed, which it tells the
-- manager; the new one is not connected yet.
unfoldable pub replace_process : Parting → Client → Client
replace_process parting c =
    let replaced = record c { process = some new_child } in
    if is_starting c.process then handle_signals (parting_signals parting) replaced else replaced

-- startProcess for the client. A stop that was asked for while the old process was starting takes the
-- new one away too: the source goes on through the null pointer, the model without a process.
unfoldable pub start_process : Machine → Client → Client × Bool
start_process m c =
    if can_start m c.exe_path
    then (
      put_out (launched c.exe_path (arguments c.log_dir c.config_dir))
          (record c { process = set_state process_starting c.process }),
      true,
    )
    else (put_out (client_process_error (not_executable c.exe_path)) c, false)

unfoldable pub finish_start : Client × Bool → Client × Bool
finish_start (c, true) = (c, true)
finish_start (c, false) =
    (set_client_process_status not_started (record c { process = none }), false)

unfoldable pub start_client_process : Machine → Parting → Client → Client × Bool
start_client_process m parting c =
    if is_running c.process
    then (c, true)
    else if is_empty c.exe_path
    then (put_out (client_process_error path_not_set) c, false)
    else finish_start
        (start_process m (set_client_process_status starting (replace_process parting c)))

unfoldable pub stop_client_process : Client → Client
stop_client_process c =
    let c = record c { restart_timer = none; is_stopping_intentionally = true } in
    if is_alive c.process
    then record c { process = ask_to_exit c.process }
    else set_client_process_status not_started
        (record c { has_messaging = false; process = none; restart_count = 0 })

unfoldable pub on_client_restart_timer : Machine → Parting → Client → Client
on_client_restart_timer m parting c = (start_client_process m parting c).0

-- The process after an escalation timer, and what it asks.
unfoldable pub put_force : Child × Option Force → Client → Client
put_force (p, none) c = record c { process = some p }
put_force (p, some force) c = put_out (forced force) (record c { process = some p })

-- A step: a call, a signal of the process, or a timer.
pub data Step : Type 0 where
  starts : Machine → Parting → Step
  stops resets : Step
  enables : Bool → Step
  emits : ProcessSignal → Step
  restart_fires : Machine → Parting → Step
  terminate_fires kill_fires : Step

-- Qt delivers a signal of a process that exists, in a state that goes with it.
unfoldable pub receive : ProcessSignal → Option Child → Client → Client
receive g none c = c
receive g (some p) c =
    if can_emit g p.state
    then handle_signal g (record c { process = some (record p { state = state_after g p.state }) })
    else c

-- A timer fires where it runs.
unfoldable pub fire_restart : Machine → Parting → Option ℕ → Client → Client
fire_restart m parting none c = c
fire_restart m parting (some delay) c =
    on_client_restart_timer m parting (record c { restart_timer = none })

unfoldable pub fire_terminate : Option Child → Client → Client
fire_terminate none c = c
fire_terminate (some p) c =
    if nat_eqb p.to_terminate 0 then c else put_force (escalate_terminate p) c

unfoldable pub fire_kill : Option Child → Client → Client
fire_kill none c = c
fire_kill (some p) c = if nat_eqb p.to_kill 0 then c else put_force (escalate_kill p) c

unfoldable pub step : Step → Client → Client
step (starts m parting) c = (start_client_process m parting c).0
step stops c = stop_client_process c
step resets c = reset_client_retry_count c
step (enables enabled) c = set_client_auto_restart enabled c
step (emits g) c = receive g c.process c
step (restart_fires m parting) c = fire_restart m parting c.restart_timer c
step terminate_fires c = fire_terminate c.process c
step kill_fires c = fire_kill c.process c

unfoldable pub run : List Step → Client → Client
run [] c = c
run (s ∷ steps) c = run steps (step s c)
