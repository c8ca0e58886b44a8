-- ===== src/Processes/Child.antt =====
-- ProcessManager: what its two halves share, and the QProcess that each of them owns.
use quick_desk.Base.{
  ℕ, zero, suc, ◌-◌, ◌*◌, ◌^◌, min, ℤ, pos, negsuc, Bool, true, false, ◌&&◌, String, List, [], ◌∷◌,
  ◌++◌, Option, none, some, if◌then◌else◌, is_empty,
}

-- ProcessStatus::Status.
pub data ProcessStatus : Type 0 where
  not_started starting running failed restarting : ProcessStatus

abbrev pub status_code : ProcessStatus → ℕ
status_code not_started = 0
status_code starting = 1
status_code running = 2
status_code failed = 3
status_code restarting = 4

-- QProcess::ProcessState.
pub data ChildState : Type 0 where
  process_not_running process_starting process_running : ChildState

pub data ExitStatus : Type 0 where
  normal_exit crash_exit : ExitStatus

-- QProcess::ProcessError; `other_error` stands for the four that the code does not tell apart.
pub data ProcessError : Type 0 where
  failed_to_start crashed other_error : ProcessError

-- A QProcess: its state, whether its write channel is closed, and how many of the single-shot timers
-- that have it as their context wait to terminate it and to kill it.
pub record Child : Type 0 where
  pub state : ChildState
  pub is_write_closed : Bool
  pub to_terminate : ℕ
  pub to_kill : ℕ

abbrev pub new_child : Child
new_child = record {
  state = process_not_running;
  is_write_closed = false;
  to_terminate = 0;
  to_kill = 0;
}

abbrev pub is_running_state : ChildState → Bool
is_running_state process_running = true
is_running_state _ = false

abbrev pub is_starting_state : ChildState → Bool
is_starting_state process_starting = true
is_starting_state _ = false

-- The state is not NotRunning.
abbrev pub is_alive_state : ChildState → Bool
is_alive_state process_not_running = false
is_alive_state _ = true

-- Tests on the pointer m_hostProcess or m_clientProcess.
abbrev pub is_running : Option Child → Bool
is_running none = false
is_running (some p) = is_running_state p.state

abbrev pub is_starting : Option Child → Bool
is_starting none = false
is_starting (some p) = is_starting_state p.state

abbrev pub is_alive : Option Child → Bool
is_alive none = false
is_alive (some p) = is_alive_state p.state

abbrev pub set_state : ChildState → Option Child → Option Child
set_state st none = none
set_state st (some p) = some (record p { state = st })

-- The signals of a QProcess that ProcessManager is connected to.
pub data ProcessSignal : Type 0 where
  started : ProcessSignal
  finished : ℤ → ExitStatus → ProcessSignal
  error_occurred : ProcessError → String → ProcessSignal

-- The messages of hostProcessError and clientProcessError.
pub data ErrorText : Type 0 where
  path_not_set crashed_too_often start_failed_too_often : ErrorText
  not_executable : String → ErrorText
  start_failed : String → ErrorText
  process_error : String → ErrorText

-- What the file system and the operating system answer while a call runs.
pub record Machine : Type 0 where
  pub exists : String → Bool
  pub is_executable : String → Bool
  pub is_service_running : Bool
  pub is_windows : Bool
  pub is_mac : Bool

-- MAX_RESTART_ATTEMPTS.
abbrev pub max_restart_attempts : ℕ
max_restart_attempts = 5

-- BASE_RESTART_DELAY_MS.
abbrev pub base_restart_delay_ms : ℕ
base_restart_delay_ms = 2000

unfoldable pub calculate_restart_delay : ℕ → ℕ
calculate_restart_delay retry_count = min (base_restart_delay_ms * 2 ^ (retry_count - 1)) 32000

abbrev pub is_abnormal : ℤ → ExitStatus → Bool
is_abnormal code crash_exit = true
is_abnormal (pos zero) normal_exit = false
is_abnormal (pos (suc n)) normal_exit = true
is_abnormal (negsuc n) normal_exit = true

-- The command line of startProcess; the last argument is for the host on a Mac, once.
pub data Argument : Type 0 where
  log_dir_is config_dir_is : String → Argument
  request_mac_permissions : Argument

unfoldable pub arguments : String → String → List Argument
arguments log_dir config_dir =
    (if is_empty log_dir then [] else log_dir_is log_dir ∷ [])
    ++ (if is_empty config_dir then [] else config_dir_is config_dir ∷ [])

-- The guard of startProcess.
abbrev pub can_start : Machine → String → Bool
can_start m exe_path = m.exists exe_path && m.is_executable exe_path

-- A stop of a live process: its write channel is closed and the first timer of its escalation is set.
unfoldable pub ask_to_exit : Option Child → Option Child
ask_to_exit none = none
ask_to_exit (some p) = some (record p { is_write_closed = true; to_terminate = suc p.to_terminate })

-- What an escalation timer asks of the process.
pub data Force : Type 0 where
  terminates kills : Force

-- The first timer: a live process is terminated and gets the second timer.
unfoldable pub escalate_terminate : Child → Child × Option Force
escalate_terminate p =
    if is_alive_state p.state
    then (record p { to_terminate = p.to_terminate - 1; to_kill = suc p.to_kill }, some terminates)
    else (record p { to_terminate = p.to_terminate - 1 }, none)

-- The second timer: a live process is killed.
unfoldable pub escalate_kill : Child → Child × Option Force
escalate_kill p =
    (record p { to_kill = p.to_kill - 1 }, (if is_alive_state p.state then some kills else none))

-- How a QProcess that is destroyed in its starting state ends: its destructor kills it and waits.
pub data Parting : Type 0 where
  starts_then_dies : ℤ → Parting
  fails_to_start : String → Parting

abbrev pub parting_signals : Parting → List ProcessSignal
parting_signals (starts_then_dies code) = started ∷ finished code crash_exit ∷ []
parting_signals (fails_to_start text) = error_occurred failed_to_start text ∷ []

abbrev pub exit_code : Parting → ℤ
exit_code (starts_then_dies code) = code
exit_code (fails_to_start text) = pos 0

abbrev pub leaving_in : ChildState → Parting → List ProcessSignal
leaving_in process_not_running parting = []
leaving_in process_starting parting = parting_signals parting
leaving_in process_running parting = finished (exit_code parting) crash_exit ∷ []

-- Whether Qt can emit a signal in a state of the process.
abbrev pub can_emit : ProcessSignal → ChildState → Bool
can_emit started st = is_starting_state st
can_emit (finished code status) st = is_running_state st
can_emit (error_occurred failed_to_start text) st = is_starting_state st
can_emit (error_occurred crashed text) st = is_running_state st
can_emit (error_occurred other_error text) st = true

-- The state that a signal tells of.
abbrev pub state_after : ProcessSignal → ChildState → ChildState
state_after started st = process_running
state_after (finished code status) st = process_not_running
state_after (error_occurred failed_to_start text) st = process_not_running
state_after (error_occurred crashed text) st = st
state_after (error_occurred other_error text) st = st

-- The signals of a QProcess that is destroyed, whatever its state.
abbrev pub leaving : Option Child → Parting → List ProcessSignal
leaving none parting = []
leaving (some p) parting = leaving_in p.state parting
