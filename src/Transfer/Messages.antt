-- ===== src/Transfer/Messages.antt =====
-- QuickDesk/src/manager/FileTransferQueue.cpp: the messages of the native side (`handleMessage`).
use Prim.Native.String.{◌++◌ as append_text}
use quick_desk.Base.{
  ℤ, pos, negsuc, ℕ, suc, min, Bool, true, false, not, ◌&&◌, String, [], ◌∷◌, ◌++◌, Option, none,
  some, str_eq, is_empty, if◌then◌else◌, get_elem?, find_index, is_some, string_eq,
}
use quick_desk.Base.Dict.{lookup, add, has_key, contains}
use quick_desk.Transfer.Data.{
  Direction, upload, download, downloading, uncertain, complete, error, Ratio, Task, changed,
  notice, TransferQueue, Message, terminal, is_queued, is_upload, same_direction, is_dispatched,
}
use quick_desk.Transfer.Sessions.{emit, store}
use quick_desk.Transfer.Uploads.{device_of}
use quick_desk.Transfer.Cancel.{wire_key, finish, send_cancel}

pub data Phase : Type 0 where
  started progress complete_phase error_phase : Phase

-- The message types that `handleMessage` accepts, by direction and by the ending of their name.
abbrev pub kind_of : String → Option (Direction × Phase)
kind_of s =
    if str_eq s "fileDownloadStarted"
    then some (download, started)
    else if str_eq s "fileDownloadProgress"
    then some (download, progress)
    else if str_eq s "fileDownloadComplete"
    then some (download, complete_phase)
    else if str_eq s "fileDownloadError"
    then some (download, error_phase)
    else if str_eq s "fileTransferProgress"
    then some (upload, progress)
    else if str_eq s "fileTransferComplete"
    then some (upload, complete_phase)
    else if str_eq s "fileTransferError"
    then some (upload, error_phase)
    else none

abbrev pub ends_transfer : Phase → Bool
ends_transfer complete_phase = true
ends_transfer error_phase = true
ends_transfer _ = false

-- Where an upload result without an identifier is charged to the dispatched upload.
unfoldable pub lose_at : String → ℕ → Task → TransferQueue → TransferQueue
lose_at c i t q = emit changed (
    store i
      (record t {
        status = uncertain;
        error_text =
            "A transfer result arrived without an identifier. Reconnect to reset this session's queue.";
      })
      (record q { blocked_uploads = add c q.blocked_uploads }))

-- To act on the first task that passes a test, if there is one.
abbrev pub with_first :
    (Task → Bool) → (ℕ → Task → TransferQueue → TransferQueue) → TransferQueue → TransferQueue
with_first p act q = elim (find_index p q.tasks) [
  | none ↦ q
  | some i ↦ elim (get_elem? q.tasks i) [ none ↦ q | some t ↦ act i t q ]
]

-- An upload message without an identifier.
unfoldable pub unidentified : String → Phase → TransferQueue → TransferQueue
unfolding lose_at
unidentified c phase q =
    if ends_transfer phase then with_first (is_dispatched c) (lose_at c) q else q

-- The running task that the message names.
abbrev pub is_named : String → Direction → String → Task → Bool
is_named c d id t =
    str_eq t.connection_id c
    && (same_direction t.direction d
        && (not (terminal t.status)
            && (not (is_queued t.status) && (not (is_empty id) && str_eq t.transfer_id id))))

-- The dispatched upload that has no identifier yet.
abbrev pub awaits_id : String → Task → Bool
awaits_id c t = is_dispatched c t && is_empty t.transfer_id

abbrev pub new_download : String → String → String → Message → Task
new_download fresh device root m = record {
  id = fresh;
  connection_id = m.connection_id;
  device_id = device;
  transfer_id = m.transfer_id;
  filename = m.filename;
  path = "";
  direction = download;
  status = downloading;
  error_text = "";
  save_path = "";
  save_root = root;
  progress = record { part = 0; whole = 1 };
  cancel_sent = false;
  cancel_requested = false;
}

unfoldable pub start_download : String → Message → TransferQueue → TransferQueue
start_download fresh m q =
    if is_empty m.transfer_id then q else elim (lookup m.connection_id q.download_roots) [
      | none ↦ q
      | some root ↦ emit changed (record q {
        tasks = q.tasks ++ new_download fresh (device_of m.connection_id q) root m ∷ [];
      })
    ]

-- total > 0 ? clamp(bytes / total, 0, 1) : 0
unfoldable pub ratio : ℤ → ℤ → Ratio
ratio (pos (suc n)) (pos b) = record { part = min b (suc n); whole = suc n }
ratio (pos (suc n)) (negsuc b) = record { part = 0; whole = suc n }
ratio t b = record { part = 0; whole = 1 }

abbrev pub complete_text : Bool → String
complete_text true = "Completed before cancellation took effect."
complete_text false = ""

abbrev pub error_text_of : Bool → String → String
error_text_of c text =
    let cause : String = if is_empty text then "File transfer failed." else text in
    if c then append_text "Transfer ended after a cancellation request: " cause else cause

-- The last part of `handleMessage`, on the task `t` that stands at the index.
unfoldable pub apply_at : Direction → Phase → Message → ℕ → Task → TransferQueue → TransferQueue
apply_at d phase m i old q =
    let t : Task = record old {
      transfer_id = if is_empty m.transfer_id then old.transfer_id else m.transfer_id;
    } in
    elim phase [
      | started ↦ store i t q
      | progress ↦
          let p = ratio m.total_bytes (if is_upload d then m.bytes_sent else m.bytes_received) in
          let t' : Task = record t { progress = p } in
          if old.cancel_requested
          then send_cancel i t' (emit changed q)
          else emit changed (store i t' q)
      | complete_phase ↦
          let saved : String = if is_upload d then t.save_path else m.save_path in
          finish i (record t { save_path = saved }) complete (complete_text old.cancel_requested) q
      | error_phase ↦ finish i t error (error_text_of old.cancel_requested m.error_message) q
    ]

-- A download message that no task answers to.
unfoldable pub report_missing : Direction → Phase → Message → TransferQueue → TransferQueue
report_missing download error_phase m q =
    if is_some (lookup m.connection_id q.download_roots)
    then emit
        (notice (device_of m.connection_id q)
          (append_text "Download could not start: " m.error_message))
        q
    else q
report_missing d phase m q = q

-- An upload message whose identifier no task has: the dispatched upload that has none takes it,
-- unless the message names another file.
unfoldable pub adopt_at : Phase → Message → ℕ → Task → TransferQueue → TransferQueue
unfolding apply_at
adopt_at phase m i t q =
    if not (is_empty m.filename) && not (str_eq m.filename t.filename)
    then q
    else apply_at upload phase m i t q

unfoldable pub unknown_transfer :
    Direction → Phase → String → Message → TransferQueue → TransferQueue
unfolding start_download report_missing adopt_at
unknown_transfer download started fresh m q = start_download fresh m q
unknown_transfer download phase fresh m q = report_missing download phase m q
unknown_transfer upload phase fresh m q =
    with_first (awaits_id m.connection_id) (adopt_at phase m) q

-- A message of a kind that is accepted, past the test for retired transfers.
unfoldable pub dispatch_message :
    Direction → Phase → String → Message → TransferQueue → TransferQueue
unfolding unidentified apply_at unknown_transfer
dispatch_message d phase fresh m q =
    if is_upload d && is_empty m.transfer_id
    then unidentified m.connection_id phase q
    else elim (find_index (is_named m.connection_id d m.transfer_id) q.tasks) [
      | none ↦ unknown_transfer d phase fresh m q
      | some i ↦ elim (get_elem? q.tasks i) [ none ↦ q | some t ↦ apply_at d phase m i t q ]
    ]

abbrev pub is_retired : Direction → Message → TransferQueue → Bool
is_retired d m q =
    not (is_empty m.transfer_id)
    && contains (wire_key m.connection_id d m.transfer_id) q.retired_transfers

unfoldable pub handle_message : String → Message → TransferQueue → TransferQueue
handle_message fresh m q =
    if not (has_key m.connection_id q.sessions) then q else elim (kind_of m.type_name) [
      | none ↦ q
      | some (d, phase) ↦ if is_retired d m q then q else dispatch_message d phase fresh m q
    ]
