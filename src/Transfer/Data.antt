-- ===== src/Transfer/Data.antt =====
-- The data of QuickDesk/src/manager/FileTransferQueue.h: a task, the queue's state, the signals it
-- emits, and the messages and file facts it reads.
use quick_desk.Base.{ℤ, ℕ, Bool, true, false, not, ◌&&◌, String, List, str_eq}

pub data Direction : Type 0 where
  upload download : Direction

-- The texts that `Task::status` holds.
pub data Status : Type 0 where
  queued uploading downloading cancelling uncertain complete error cancelled disconnected : Status

-- A progress between 0 and 1, as a fraction.
pub record Ratio : Type 0 where
  pub part : ℕ
  pub whole : ℕ

pub record Task : Type 0 where
  pub id : String
  pub connection_id : String
  pub device_id : String
  pub transfer_id : String
  pub filename : String
  pub path : String
  pub direction : Direction
  pub status : Status
  pub error_text : String
  pub save_path : String
  pub save_root : String
  pub progress : Ratio
  pub cancel_sent : Bool
  pub cancel_requested : Bool

-- The JSON commands of `commandRequested`.
pub data Command : Type 0 where
  start_upload : String → String → Command
  cancel_upload : String → String → Command
  cancel_download : String → String → Command

-- The signals, in the order in which they are emitted.
pub data Signal : Type 0 where
  changed : Signal
  command_requested : Command → Signal
  notice : String → String → Signal

-- What QTimer::singleShot has put off.
pub data Timer : Type 0 where
  pump_later : String → Timer
  prune_later : Timer
  timeout_later : String → Timer

pub record TransferQueue : Type 0 where
  pub tasks : List Task
  pub sessions : List (String × String)
  pub download_roots : List (String × String)
  pub retired_connections : List String
  pub retired_transfers : List String
  pub blocked_uploads : List String
  pub timers : List Timer
  pub signals : List Signal

-- QUrl::isLocalFile and QUrl::toLocalFile.
pub record Url : Type 0 where
  pub is_local_file : Bool
  pub local_file : String

-- The answers of QFileInfo and QDir at the time of a call.
pub record Files : Type 0 where
  pub exists : String → Bool
  pub is_file : String → Bool
  pub is_readable : String → Bool
  pub is_dir : String → Bool
  pub canonical_file_path : String → String
  pub file_name : String → String
  pub absolute_path : String → String
  pub relative_file_path : String → String → String
  pub is_absolute_path : String → Bool

-- The fields of a native message that `handleMessage` reads; a missing one is empty or 0.
pub record Message : Type 0 where
  pub connection_id : String
  pub type_name : String
  pub transfer_id : String
  pub filename : String
  pub save_path : String
  pub error_message : String
  pub total_bytes : ℤ
  pub bytes_received : ℤ
  pub bytes_sent : ℤ

abbrev pub terminal : Status → Bool
terminal complete = true
terminal error = true
terminal cancelled = true
terminal disconnected = true
terminal _ = false

abbrev pub is_queued : Status → Bool
is_queued queued = true
is_queued _ = false

abbrev pub is_upload : Direction → Bool
is_upload upload = true
is_upload download = false

abbrev pub same_direction : Direction → Direction → Bool
same_direction upload d = is_upload d
same_direction download d = not (is_upload d)

-- A task of the connection that has not ended.
abbrev pub is_live : String → Task → Bool
is_live c t = str_eq t.connection_id c && not (terminal t.status)

-- An upload of the connection that has not ended.
abbrev pub is_pending : String → Task → Bool
is_pending c t = str_eq t.connection_id c && (is_upload t.direction && not (terminal t.status))

-- An upload of the connection that was handed to the native side and has not ended.
abbrev pub is_dispatched : String → Task → Bool
is_dispatched c t =
    str_eq t.connection_id c
    && (is_upload t.direction && (not (is_queued t.status) && not (terminal t.status)))

-- An upload of the connection and of the file that has not ended.
abbrev pub has_path : String → String → Task → Bool
has_path c path t = is_pending c t && str_eq t.path path
