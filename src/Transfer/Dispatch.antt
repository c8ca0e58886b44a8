-- ===== src/Transfer/Dispatch.antt =====
-- Which upload `pump` hands over, and when it hands over none.
use quick_desk.Base.{
  ◌≡◌, refl, Bool, true, false, not, ◌&&◌, String, List, [], ◌∷◌, ◌++◌, map, some, str_eq, arith,
  eq_iff, string_eq, if◌then◌else◌, any, any-find_index,
}
use quick_desk.Base.Dict.{has_key, contains, contains-add}
use quick_desk.Transfer.Data.{
  upload, uploading, error, Task, Signal, changed, command_requested, start_upload, TransferQueue,
  Message, Files, is_queued, is_dispatched,
}
use quick_desk.Transfer.Uploads.{usable, pump_tasks, pump}
use quick_desk.Transfer.Messages.{
  Phase, kind_of, lose_at, unidentified, dispatch_message, handle_message, ends_transfer,
  with_first,
}
use quick_desk.Transfer.Steps.{Call, run}
use quick_desk.Transfer.Blocked.{run-Held}
use quick_desk.Transfer.Held.{starts, Held, emits-starts}

-- A queued task of the connection whose file can be read.
abbrev pub is_ready : Files → String → Task → Bool
is_ready fs c t = (str_eq t.connection_id c && is_queued t.status) && usable fs t.path

-- A queued task of the connection whose file cannot be read.
abbrev pub is_lost : Files → String → Task → Bool
is_lost fs c t = (str_eq t.connection_id c && is_queued t.status) && not (usable fs t.path)

abbrev pub mark_lost : Files → String → Task → Task
mark_lost fs c t =
    if is_lost fs c t
    then record t { status = error; error_text = "The local file is no longer available." }
    else t

-- One `changed` for each task that is marked.
unfoldable pub changes : Files → String → List Task → List Signal
changes fs c [] = []
changes fs c (t ∷ ts) = if is_lost fs c t then changed ∷ changes fs c ts else changes fs c ts

pump_tasks_first :
    (fs : Files) (c : String) (before after : List Task) (t : Task)
    → any (is_ready fs c) before ≡ false
    → is_ready fs c t ≡ true
    → pump_tasks fs c (before ++ t ∷ after) ≡ (
      map (mark_lost fs c) before ++ (record t { status = uploading } ∷ after),
      changes fs c before ++ (changed ∷ command_requested (start_upload c t.path) ∷ []),
    )
unfolding pump_tasks any changes
pump_tasks_first fs c [] after t h r = ground arith
pump_tasks_first fs c (u ∷ before) after t h r =
    ground (arith, pump_tasks_first fs c before after t)

-- With an active session, no unidentified result and no upload in progress, `pump` starts the
-- first queued upload of the connection whose file is readable, marks the queued ones before it
-- as errors, with one `changed` each, and leaves every other task and field as it is.
pub pump-first :
    (fs : Files) (c : String) (q : TransferQueue) (before after : List Task) (t : Task)
    → has_key c q.sessions ≡ true
    → contains c q.blocked_uploads ≡ false
    → any (is_dispatched c) q.tasks ≡ false
    → q.tasks ≡ before ++ t ∷ after
    → any (is_ready fs c) before ≡ false
    → is_ready fs c t ≡ true
    → pump fs c q ≡ record q {
      tasks = map (mark_lost fs c) before ++ (record t { status = uploading } ∷ after);
      signals =
          q.signals
          ++ (changes fs c before ++ (changed ∷ command_requested (start_upload c t.path) ∷ []));
    }
unfolding pump
pump-first fs c q before after t s b idle e h r =
    let done = pump_tasks_first fs c before after t h r in
    rw (s, b, idle, pump) (ground (arith, done, e))

-- An upload result without an identifier blocks the connection and starts nothing.
unidentified-Held :
    (c : String) (phase : Phase) (q : TransferQueue)
    → ends_transfer phase ≡ true
    → any (is_dispatched c) q.tasks ≡ true
    → Held c (starts c q) (unidentified c phase q)
unfolding unidentified lose_at
unidentified-Held c phase q e a =
    let (i, t, f, g, w) = any-find_index (is_dispatched c) q.tasks a in
    rw (e, f, g, with_first)
      (
        ground (arith, contains-add c c q.blocked_uploads, eq_iff c c),
        emits-starts c changed q refl,
      )

-- After an upload result without an identifier, while an upload of its connection is in progress, no
-- upload of that connection is ever started again, whatever calls, messages and timers follow.
pub handle_message-blocks :
    (fresh : String) (m : Message) (later : List Call) (q : TransferQueue) (phase : Phase)
    → kind_of m.type_name ≡ some (upload, phase)
    → ends_transfer phase ≡ true
    → m.transfer_id ≡ ""
    → has_key m.connection_id q.sessions ≡ true
    → any (is_dispatched m.connection_id) q.tasks ≡ true
    → starts m.connection_id (run later (handle_message fresh m q)) ≡ starts m.connection_id q
unfolding handle_message dispatch_message
handle_message-blocks fresh m later q phase k e t s a =
    (run-Held m.connection_id (starts m.connection_id q) later (handle_message fresh m q)
      (rw (s, k, t, handle_message) (unidentified-Held m.connection_id phase q e a))).1
