-- ===== src/Transfer/Tests.antt =====
-- The transfer queue on concrete runs.
use quick_desk.Base.{
  ℕ, ap, inl, if◌then◌else◌, ◌≡◌, refl, true, false, not, String, List, [], ◌∷◌, some, is_empty,
  pos, any, get_elem?, string_eq, find_index,
}
use quick_desk.Base.Dict.{lookup, has_key, contains, insert}
use quick_desk.Base.Count.{count}
use quick_desk.Transfer.Data.{
  upload, download, queued, uploading, complete, Task, changed, command_requested, start_upload,
  TransferQueue, Url, Files, Message, is_live, is_dispatched,
}
use quick_desk.Transfer.Sessions.{init, begin_session, end_session, session_active}
use quick_desk.Transfer.Uploads.{pump, pump_tasks, enqueue_upload, register_download}
use quick_desk.Transfer.Cancel.{task_index, cancel, finish}
use quick_desk.Transfer.Messages.{
  complete_phase, error_phase, handle_message, dispatch_message, unknown_transfer, start_download,
  apply_at,
}
use quick_desk.Transfer.Views.{safe_path, completed_download_path}
use quick_desk.Transfer.Steps.{
  Call, begins, enqueues, registers, receives, cancels, clears, fires, step, run,
}
use quick_desk.Transfer.Held.{starts}
use quick_desk.Transfer.Invariant.Store.{IsSound}
use quick_desk.Transfer.Invariant.Reach.{run-init-IsSound}
use quick_desk.Transfer.Finality.Rules.{KeepsFinished}
use quick_desk.Transfer.Finality.Steps.{step-KeepsFinished}
use quick_desk.Transfer.Retired.{end_session-final}
use quick_desk.Transfer.Duplicates.{handle_message-last}
use quick_desk.Transfer.Dispatch.{pump-first, handle_message-blocks, changes, mark_lost}
use quick_desk.Transfer.Paths.{is_within, IsShareable, completed_download_path-IsShareable}

-- Every path but the empty one and "/gone" is a readable file, and is canonical.
abbrev files : Files
files = record {
  exists = λ p. not (is_empty p);
  is_file = λ p. true;
  is_readable = λ p. true;
  is_dir = λ p. false;
  canonical_file_path = λ p. p;
  file_name = λ p. p;
  absolute_path = λ p. p;
  relative_file_path = λ r p. if is_within r p then "report.pdf" else "..";
  is_absolute_path = λ p. false;
}

abbrev local_file : String → Url
local_file p = record { is_local_file = true; local_file = p }

abbrev task : String → String → Task
task id path = record {
  id = id;
  connection_id = "c1";
  device_id = "d1";
  transfer_id = "";
  filename = path;
  path = path;
  direction = upload;
  status = queued;
  error_text = "";
  save_path = "";
  save_root = "";
  progress = record { part = 0; whole = 1 };
  cancel_sent = false;
  cancel_requested = false;
}

abbrev running : Task
running = record (task "t1" "/a") { status = uploading; transfer_id = "n1" }

abbrev saved : Task
saved = record (task "t3" "") {
  status = complete;
  direction = download;
  save_path = "/home/report.pdf";
  save_root = "/home";
}

abbrev queue : List Task → TransferQueue
queue ts = record {
  tasks = ts;
  sessions = ("c1", "d1") ∷ [];
  download_roots = [];
  retired_connections = [];
  retired_transfers = [];
  blocked_uploads = [];
  timers = [];
  signals = [];
}

abbrev about_n1 : String → Message
about_n1 type_name = record {
  connection_id = "c1";
  type_name = type_name;
  transfer_id = "n1";
  filename = "/a";
  save_path = "";
  error_message = "";
  total_bytes = pos 10;
  bytes_received = pos 0;
  bytes_sent = pos 5;
}

abbrev uploads : List Call
uploads =
    begins "c1" "d1"
    ∷ enqueues files "t1" "c1" (local_file "/a")
    ∷ enqueues files "t2" "c1" (local_file "/b")
    ∷ receives "x" (about_n1 "fileTransferProgress")
    ∷ cancels "t1"
    ∷ []

-- Two uploads, of which the first runs and is being cancelled.
two_uploads : count (is_dispatched "c1") (run uploads init).tasks ≡ 1
unfolding run step init count cancel task_index find_index handle_message has_key enqueue_upload
    begin_session contains insert any pump pump_tasks dispatch_message
two_uploads = refl

run-init-IsSound_example : IsSound (run uploads init)
run-init-IsSound_example = run-init-IsSound uploads

step-KeepsFinished_example :
    KeepsFinished
      (queue (saved ∷ running ∷ []))
      (step (cancels "t3") (queue (saved ∷ running ∷ [])))
step-KeepsFinished_example = step-KeepsFinished (cancels "t3") (queue (saved ∷ running ∷ [])) refl

end_session-final_example :
    (session_active "c1" (run (begins "c1" "d1" ∷ []) (end_session "c1" (run uploads init)))
      ≡ false)
    × (count
          (is_live "c1")
          (run (begins "c1" "d1" ∷ []) (end_session "c1" (run uploads init))).tasks
        ≡ 0)
end_session-final_example = end_session-final "c1" uploads (begins "c1" "d1" ∷ []) refl

-- The session goes on, another upload is queued, and finished tasks are cleared.
abbrev goes_on : List Call
goes_on = enqueues files "t5" "c1" (local_file "/c") ∷ fires files 0 ∷ clears ∷ fires files 0 ∷ []

handle_message-last_example :
    handle_message "y"
      (about_n1 "fileTransferError")
      (run goes_on (handle_message "x" (about_n1 "fileTransferComplete") (queue (running ∷ []))))
    ≡ run goes_on (handle_message "x" (about_n1 "fileTransferComplete") (queue (running ∷ [])))
unfolding has_key any
handle_message-last_example =
    handle_message-last "x" "y" (about_n1 "fileTransferComplete") (about_n1 "fileTransferError")
      goes_on (queue (running ∷ [])) upload complete_phase error_phase refl refl refl refl refl refl
      refl refl

pump-first_example :
    pump files "c1" (queue (task "t0" "" ∷ task "t1" "/a" ∷ task "t2" "/b" ∷ []))
    ≡ record (queue (
        mark_lost files "c1" (task "t0" "")
        ∷ record (task "t1" "/a") { status = uploading }
        ∷ task "t2" "/b"
        ∷ [])) { signals = changed ∷ changed ∷ command_requested (start_upload "c1" "/a") ∷ [] }
unfolding has_key contains any changes
pump-first_example =
    pump-first files "c1" (queue (task "t0" "" ∷ task "t1" "/a" ∷ task "t2" "/b" ∷ []))
      (task "t0" "" ∷ []) (task "t2" "/b" ∷ []) (task "t1" "/a") refl refl refl refl refl refl

abbrev nameless : Message
nameless = record (about_n1 "fileTransferError") { transfer_id = "" }

-- The result comes again with its identifier, and the timer for the next upload fires.
abbrev named_after : List Call
named_after = receives "y" (about_n1 "fileTransferComplete") ∷ fires files 0 ∷ []

handle_message-blocks_example :
    starts "c1"
      (run named_after (handle_message "x" nameless (queue (running ∷ task "t2" "/b" ∷ []))))
    ≡ starts "c1" (queue (running ∷ task "t2" "/b" ∷ []))
unfolding has_key any
handle_message-blocks_example =
    handle_message-blocks "x" nameless named_after (queue (running ∷ task "t2" "/b" ∷ []))
      error_phase refl refl refl refl refl

-- A download under "/home" that completes.
abbrev downloads : List Call
downloads =
    begins "c1" "d1"
    ∷ registers files "c1" "/home"
    ∷ receives "t3" (about_n1 "fileDownloadStarted")
    ∷ receives "x" (record (about_n1 "fileDownloadComplete") { save_path = "/home/report.pdf" })
    ∷ []

completed_download_path-IsShareable_example :
    (i : ℕ) × (t : Task) × (task_index "t3" (run downloads init).tasks ≡ some i)
    × (get_elem? (run downloads init).tasks i ≡ some t)
    × IsShareable files downloads t (completed_download_path files "t3" (run downloads init))
unfolding completed_download_path task_index find_index run step init begin_session contains insert
    has_key register_download handle_message dispatch_message unknown_transfer start_download lookup
    apply_at finish safe_path
completed_download_path-IsShareable_example =
    completed_download_path-IsShareable files "t3" downloads
      (λ a b _ _ out. inl (ap (λ x. if x then "report.pdf" else "..") out)) refl
