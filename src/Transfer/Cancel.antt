-- ===== src/Transfer/Cancel.antt =====
-- QuickDesk/src/manager/FileTransferQueue.cpp: the end of a task and its cancellation. A task that the
-- source reaches by an index is read once, changed, and stored once.
use Prim.Native.String.{◌++◌ as append_text}
use quick_desk.Base.{
  ℕ, Bool, true, false, ◌||◌, String, List, Option, none, some, str_eq, is_empty, if◌then◌else◌,
  get_elem?, set, find_index, string_eq,
}
use quick_desk.Base.Dict.{add}
use quick_desk.Transfer.Data.{
  Direction, upload, download, Status, cancelling, uncertain, complete, cancelled, Task, Command,
  cancel_upload, cancel_download, changed, command_requested, pump_later, timeout_later,
  TransferQueue, terminal, is_queued, is_upload,
}
use quick_desk.Transfer.Sessions.{emit, single_shot, store}

abbrev pub direction_text : Direction → String
direction_text upload = "upload"
direction_text download = "download"

unfoldable pub wire_key : String → Direction → String → String
wire_key c d id =
    append_text (append_text (append_text (append_text c "\0") (direction_text d)) "\0") id

unfoldable pub task_index : String → List Task → Option ℕ
task_index id ts = find_index (λ t. str_eq t.id id) ts

-- `finish` on the task `t` that stands at the index.
unfoldable pub finish : ℕ → Task → Status → String → TransferQueue → TransferQueue
finish i t s text q =
    if terminal t.status
    then store i t q
    else let done : Task = record t {
      status = s;
      error_text = text;
      progress = elim s [ complete ↦ record { part = 1; whole = 1 } | _ ↦ t.progress ];
    } in
      let retired =
        if is_empty t.transfer_id
        then q.retired_transfers
        else add (wire_key t.connection_id t.direction t.transfer_id) q.retired_transfers in
      single_shot (pump_later t.connection_id)
        (emit changed (record q { tasks = set q.tasks i done; retired_transfers = retired }))

abbrev pub cancel_command : Task → Command
cancel_command t =
    if is_upload t.direction
    then cancel_upload t.connection_id t.transfer_id
    else cancel_download t.connection_id t.transfer_id

unfoldable pub send_cancel : ℕ → Task → TransferQueue → TransferQueue
send_cancel i t q =
    if is_empty t.transfer_id || t.cancel_sent
    then store i t q
    else emit (command_requested (cancel_command t)) (store i (record t { cancel_sent = true }) q)

abbrev pub not_cancellable : Status → Bool
not_cancellable cancelling = true
not_cancellable uncertain = true
not_cancellable s = terminal s

-- A running task whose cancellation is asked for.
abbrev pub ask_cancel : Task → Task
ask_cancel t = record t {
  cancel_requested = true;
  status = cancelling;
  error_text = "Cancellation requested. Waiting for the remote transfer result.";
}

-- `cancel` on the task that stands at the index.
unfoldable pub cancel_at : ℕ → Task → TransferQueue → TransferQueue
unfolding send_cancel
cancel_at i t q =
    if not_cancellable t.status
    then q
    else if is_queued t.status
    then finish i t cancelled "Cancelled before upload started." q
    else single_shot (timeout_later t.id) (send_cancel i (ask_cancel t) (emit changed q))

-- To act on the task with an identifier, if there is one.
abbrev pub with_task :
    String → (ℕ → Task → TransferQueue → TransferQueue) → TransferQueue → TransferQueue
with_task id act q = elim (task_index id q.tasks) [
  | none ↦ q
  | some i ↦ elim (get_elem? q.tasks i) [ none ↦ q | some t ↦ act i t q ]
]

unfoldable pub cancel : String → TransferQueue → TransferQueue
unfolding cancel_at
cancel id q = with_task id cancel_at q

abbrev pub is_cancelling : Status → Bool
is_cancelling cancelling = true
is_cancelling _ = false

unfoldable pub time_out_at : ℕ → Task → TransferQueue → TransferQueue
time_out_at i t q =
    if is_cancelling t.status
    then emit changed (
        store i
          (record t {
            status = uncertain;
            error_text =
                "Cancellation was not confirmed. Reconnect to reset this session's queue; the remote file may be incomplete.";
          })
          q)
    else q

unfoldable pub cancellation_timed_out : String → TransferQueue → TransferQueue
unfolding time_out_at
cancellation_timed_out id q = with_task id time_out_at q
