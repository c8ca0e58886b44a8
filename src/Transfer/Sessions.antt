-- ===== src/Transfer/Sessions.antt =====
-- QuickDesk/src/manager/FileTransferQueue.cpp: the queue's sessions and its finished tasks. A method
-- returns the new queue; signals and timers are appended to fields of it.
use quick_desk.Base.{
  ℕ, Bool, not, ◌&&◌, ◌||◌, String, List, [], ◌∷◌, ◌++◌, map, is_empty, if◌then◌else◌, set, keep_if,
  any, string_eq,
}
use quick_desk.Base.Dict.{insert, erase, keys, has_key, contains, add, remove}
use quick_desk.Transfer.Data.{
  disconnected, Task, Signal, changed, Timer, prune_later, TransferQueue, terminal, is_live,
}

unfoldable pub init : TransferQueue
init = record {
  tasks = [];
  sessions = [];
  download_roots = [];
  retired_connections = [];
  retired_transfers = [];
  blocked_uploads = [];
  timers = [];
  signals = [];
}

abbrev pub emit : Signal → TransferQueue → TransferQueue
emit s q = record q { signals = q.signals ++ s ∷ [] }

abbrev pub single_shot : Timer → TransferQueue → TransferQueue
single_shot t q = record q { timers = q.timers ++ t ∷ [] }

-- A write through an index into `m_tasks`.
abbrev pub store : ℕ → Task → TransferQueue → TransferQueue
store i t q = record q { tasks = set q.tasks i t }

unfoldable pub begin_session : String → String → TransferQueue → TransferQueue
begin_session c device q =
    if not (is_empty c) && not (contains c q.retired_connections)
    then record q { sessions = insert c device q.sessions }
    else q

-- What `endSession` does to one task.
abbrev pub disconnect : String → Task → Task
disconnect c t =
    if is_live c t
    then record t {
      status = disconnected;
      error_text = "Connection closed. This transfer was not confirmed complete.";
    }
    else t

unfoldable pub retire : String → TransferQueue → TransferQueue
retire c q = record q {
  sessions = erase c q.sessions;
  download_roots = erase c q.download_roots;
  retired_connections = add c q.retired_connections;
  blocked_uploads = remove c q.blocked_uploads;
  tasks = map (disconnect c) q.tasks;
}

unfoldable pub end_session : String → TransferQueue → TransferQueue
unfolding retire
end_session c q =
    if is_empty c
    then q
    else if any (is_live c) q.tasks
    then emit changed (retire c q)
    else retire c q

unfoldable pub reconcile_session : String → String → Bool → Bool → TransferQueue → TransferQueue
reconcile_session c device connected terminated q =
    if terminated || (not connected && has_key c q.sessions)
    then end_session c q
    else if connected
    then begin_session c device q
    else q

unfoldable pub session_active : String → TransferQueue → Bool
session_active c q = has_key c q.sessions

unfoldable pub clear_completed : TransferQueue → TransferQueue
clear_completed q = single_shot prune_later q

abbrev pub is_unfinished : Task → Bool
is_unfinished t = not (terminal t.status)

-- The deferred part of `clearCompleted`.
unfoldable pub prune : TransferQueue → TransferQueue
prune q =
    let left = keep_if is_unfinished q.tasks in
    let q' : TransferQueue = record q { tasks = left } in
    if any (λ t. terminal t.status) q.tasks then emit changed q' else q'

unfoldable pub end_sessions : List String → TransferQueue → TransferQueue
end_sessions [] q = q
end_sessions (c ∷ cs) q = end_sessions cs (end_session c q)

unfoldable pub end_all_sessions : TransferQueue → TransferQueue
unfolding end_sessions
end_all_sessions q = end_sessions (keys q.sessions) q
