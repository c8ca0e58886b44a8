-- ===== src/Transfer/Views.antt =====
-- QuickDesk/src/manager/FileTransferQueue.cpp: what the queue shows of its tasks.
use text.Mathlib.Text.{starts_with}
use quick_desk.Base.{
  Bool, true, false, not, ◌||◌, String, List, map, none, some, str_eq, is_empty, if◌then◌else◌,
  get_elem?,
}
use quick_desk.Transfer.Data.{
  Direction, Status, complete, Ratio, Task, TransferQueue, Files, is_upload,
}
use quick_desk.Transfer.Uploads.{usable}
use quick_desk.Transfer.Cancel.{task_index}

-- One row of `tasks()`.
pub record Row : Type 0 where
  pub task_id : String
  pub transfer_id : String
  pub device_id : String
  pub filename : String
  pub direction : Direction
  pub progress : Ratio
  pub status : Status
  pub error_message : String
  pub save_path : String

abbrev pub row : Task → Row
row t = record {
  task_id = t.id;
  transfer_id = t.transfer_id;
  device_id = t.device_id;
  filename = t.filename;
  direction = t.direction;
  progress = t.progress;
  status = t.status;
  error_message = t.error_text;
  save_path = t.save_path;
}

unfoldable pub rows : TransferQueue → List Row
rows q = map row q.tasks

abbrev pub is_complete : Status → Bool
is_complete complete = true
is_complete _ = false

-- Whether a path relative to the save directory leaves it.
abbrev pub escapes : Files → String → Bool
escapes fs r = str_eq r ".." || (starts_with r "../" || fs.is_absolute_path r)

-- The part of `completedDownloadPath` once the task is known; the empty text is the refusal.
unfoldable pub safe_path : Files → Task → String
safe_path fs t =
    if is_upload t.direction || not (is_complete t.status)
    then ""
    else if not (usable fs t.save_path)
    then ""
    else let root = fs.canonical_file_path t.save_root in
      let path = fs.canonical_file_path t.save_path in
      if is_empty root || is_empty path
      then ""
      else if escapes fs (fs.relative_file_path root path)
      then ""
      else path

unfoldable pub completed_download_path : Files → String → TransferQueue → String
unfolding safe_path
completed_download_path fs id q = elim (task_index id q.tasks) [
  | none ↦ ""
  | some i ↦ elim (get_elem? q.tasks i) [ none ↦ "" | some t ↦ safe_path fs t ]
]
