-- ===== src/Transfer/Uploads.antt =====
-- QuickDesk/src/manager/FileTransferQueue.cpp: the uploads that wait, and their dispatch.
use quick_desk.Base.{
  leb, Bool, true, false, not, ◌&&◌, ◌||◌, String, List, [], ◌∷◌, ◌++◌, none, some, str_eq,
  if◌then◌else◌, any, string_eq,
}
use quick_desk.Base.Dict.{lookup, insert, has_key, contains}
use quick_desk.Base.Count.{count}
use quick_desk.Transfer.Data.{
  upload, queued, uploading, error, Task, start_upload, Signal, changed, command_requested, notice,
  TransferQueue, Url, Files, is_queued, is_pending, is_dispatched, has_path,
}
use quick_desk.Transfer.Sessions.{emit}

abbrev pub usable : Files → String → Bool
usable fs p = fs.exists p && (fs.is_file p && fs.is_readable p)

-- The loop of `pump` over the tasks: the tasks after it, and the signals it emits.
unfoldable pub pump_tasks : Files → String → List Task → List Task × List Signal
pump_tasks fs c [] = ([], [])
pump_tasks fs c (t ∷ ts) =
    let rest = pump_tasks fs c ts in
    if str_eq t.connection_id c && is_queued t.status
    then if usable fs t.path
      then (
        record t { status = uploading } ∷ ts,
        changed ∷ command_requested (start_upload c t.path) ∷ [],
      )
      else (
        record t { status = error; error_text = "The local file is no longer available." } ∷ rest.0,
        changed ∷ rest.1,
      )
    else (t ∷ rest.0, rest.1)

unfoldable pub pump : Files → String → TransferQueue → TransferQueue
pump fs c q =
    if not (has_key c q.sessions) || contains c q.blocked_uploads
    then q
    else if any (is_dispatched c) q.tasks
    then q
    else let (ts, out) = pump_tasks fs c q.tasks in
      record q { tasks = ts; signals = q.signals ++ out }

abbrev pub new_upload : Files → String → String → String → String → Task
new_upload fs fresh c device path = record {
  id = fresh;
  connection_id = c;
  device_id = device;
  transfer_id = "";
  filename = fs.file_name path;
  path = fs.canonical_file_path path;
  direction = upload;
  status = queued;
  error_text = "";
  save_path = "";
  save_root = "";
  progress = record { part = 0; whole = 1 };
  cancel_sent = false;
  cancel_requested = false;
}

abbrev pub device_of : String → TransferQueue → String
device_of c q = elim (lookup c q.sessions) [ none ↦ "" | some d ↦ d ]

unfoldable pub bad_file_text : Bool → String
bad_file_text true = "Folders are not supported. Select individual files to upload."
bad_file_text false = "Select an existing, readable local file."

-- The part of `enqueueUpload` after its checks.
unfoldable pub append_upload : Files → Task → TransferQueue → TransferQueue
append_upload fs t q =
    pump fs t.connection_id (emit changed (record q { tasks = q.tasks ++ t ∷ [] }))

-- `fresh` is the identifier that QUuid makes.
unfoldable pub enqueue_upload : Files → String → String → Url → TransferQueue → TransferQueue × Bool
unfolding append_upload
enqueue_upload fs fresh c url q =
    if not (has_key c q.sessions)
    then (q, false)
    else let f = url.local_file in
      let device = device_of c q in
      if not url.is_local_file || not (usable fs f)
      then (emit (notice device (bad_file_text (fs.is_dir f))) q, false)
      else if any (has_path c (fs.canonical_file_path f)) q.tasks
      then (q, true)
      else if leb 256 (count (is_pending c) q.tasks)
      then (
        emit (notice device "The upload queue is full. Wait for pending files to finish.") q,
        false,
      )
      else (append_upload fs (new_upload fs fresh c device f) q, true)

unfoldable pub register_download : Files → String → String → TransferQueue → TransferQueue
register_download fs c dir q =
    if has_key c q.sessions
    then record q { download_roots = insert c (fs.absolute_path dir) q.download_roots }
    else q
