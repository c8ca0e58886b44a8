-- ===== src/Transfer/Kept.antt =====
-- FileTransferQueue: what each method does to the sessions.
use quick_desk.Base.{
  ℕ, ◌≡◌, refl, inl, inr, Bool, true, false, not, ◌&&◌, ◌||◌, String, List, [], ◌∷◌, str_eq, arith,
  eq_iff, string_eq, Option-cases, if_split, get_elem?, find_index,
}
use quick_desk.Base.Dict.{has_key, has_key-erase, has_key-insert}
use quick_desk.Transfer.Data.{
  Direction, upload, download, Task, Status, Timer, pump_later, prune_later, timeout_later,
  TransferQueue, Message, Files, Url, is_upload, is_dispatched, cancelled, changed,
}
use quick_desk.Transfer.Sessions.{
  emit, retire, begin_session, end_session, reconcile_session, prune, end_sessions,
}
use quick_desk.Transfer.Uploads.{pump, enqueue_upload, register_download}
use quick_desk.Transfer.Cancel.{
  finish, send_cancel, cancel_at, cancel, ask_cancel, task_index, time_out_at,
  cancellation_timed_out,
}
use quick_desk.Transfer.Messages.{
  Phase, started, kind_of, lose_at, unidentified, is_named, start_download, apply_at,
  report_missing, adopt_at, awaits_id, unknown_transfer, dispatch_message, is_retired,
  handle_message, ends_transfer,
}
use quick_desk.Transfer.Steps.{run_timer, drop_at, fire}
use quick_desk.Transfer.Searches.{at_index_cases, with_first_cases}

finish_sessions :
    (i : ℕ) (t : Task) (s : Status) (text : String) (q : TransferQueue)
    → (finish i t s text q).sessions ≡ q.sessions
unfolding finish
finish_sessions i t s text q = ground arith

send_cancel_sessions :
    (i : ℕ) (t : Task) (q : TransferQueue) → (send_cancel i t q).sessions ≡ q.sessions
unfolding send_cancel
send_cancel_sessions i t q = ground arith

apply_at_sessions :
    (d : Direction) (phase : Phase) (m : Message) (i : ℕ) (t : Task) (q : TransferQueue)
    → (apply_at d phase m i t q).sessions ≡ q.sessions
unfolding apply_at finish send_cancel
apply_at_sessions d started m i t q = refl
apply_at_sessions d phase m i t q = ground arith

-- The two queues have the same sessions.
abbrev pub SameSessions : TransferQueue → TransferQueue → Type 0
SameSessions q r = r.sessions ≡ q.sessions

unknown_transfer_sessions :
    (d : Direction) (phase : Phase) (fresh : String) (m : Message) (q : TransferQueue)
    → SameSessions q (unknown_transfer d phase fresh m q)
unfolding start_download report_missing adopt_at unknown_transfer
unknown_transfer_sessions download phase fresh m q = ground arith
unknown_transfer_sessions upload phase fresh m q =
    with_first_cases (SameSessions q) (adopt_at phase m) (awaits_id m.connection_id) q refl
      λ i t _ _. ground (arith, apply_at_sessions upload phase m i t q)

dispatch_message_sessions :
    (d : Direction) (phase : Phase) (fresh : String) (m : Message) (q : TransferQueue)
    → SameSessions q (dispatch_message d phase fresh m q)
unfolding dispatch_message unidentified lose_at
dispatch_message_sessions d phase fresh m q =
    if_split (SameSessions q) (is_upload d && str_eq m.transfer_id "")
      (λ _.
        if_split (SameSessions q) (ends_transfer phase)
          (λ _.
            with_first_cases (SameSessions q) (lose_at m.connection_id)
              (is_dispatched m.connection_id) q refl λ i t _ _. refl)
          (λ _. refl))
      (λ _. ground (
        arith,
        unknown_transfer_sessions d phase fresh m q,
        at_index_cases (SameSessions q) (apply_at d phase m)
            (find_index (is_named m.connection_id d m.transfer_id) q.tasks) q refl
            (λ i t _ _. apply_at_sessions d phase m i t q),
      ))

pub handle_message_sessions :
    (fresh : String) (m : Message) (q : TransferQueue) → SameSessions q (handle_message fresh m q)
unfolding handle_message
handle_message_sessions fresh m q =
    if_split (SameSessions q) (not (has_key m.connection_id q.sessions)) (λ _. refl)
      λ _. elim (Option-cases (kind_of m.type_name)) [
        | inl e ↦ rw e refl
        | inr ((d, phase), e) ↦ rw e (
            if_split (SameSessions q) (is_retired d m q) (λ _. refl)
              (λ _. dispatch_message_sessions d phase fresh m q))
      ]

pub cancel_sessions : (id : String) (q : TransferQueue) → SameSessions q (cancel id q)
unfolding cancel cancel_at
cancel_sessions id q =
    at_index_cases (SameSessions q) cancel_at (task_index id q.tasks) q refl λ i t _ _. ground (
      arith,
      finish_sessions i t cancelled "Cancelled before upload started." q,
      send_cancel_sessions i (ask_cancel t) (emit changed q),
    )

time_out_sessions : (id : String) (q : TransferQueue) → SameSessions q (cancellation_timed_out id q)
unfolding cancellation_timed_out time_out_at
time_out_sessions id q =
    at_index_cases (SameSessions q) time_out_at (task_index id q.tasks) q refl
      λ i t _ _. ground arith

pump_sessions : (fs : Files) (c : String) (q : TransferQueue) → SameSessions q (pump fs c q)
unfolding pump
pump_sessions fs c q = ground arith

pub enqueue_upload_sessions :
    (fs : Files) (fresh c : String) (url : Url) (q : TransferQueue)
    → SameSessions q (enqueue_upload fs fresh c url q).0
unfolding enqueue_upload pump
enqueue_upload_sessions fs fresh c url q = ground arith

pub run_timer_sessions :
    (fs : Files) (t : Timer) (q : TransferQueue) → SameSessions q (run_timer fs t q)
unfolding run_timer prune
run_timer_sessions fs (pump_later k) q = pump_sessions fs k q
run_timer_sessions fs prune_later q = ground arith
run_timer_sessions fs (timeout_later id) q = time_out_sessions id q

pub fire_sessions : (fs : Files) (i : ℕ) (q : TransferQueue) → SameSessions q (fire fs i q)
unfolding fire
fire_sessions fs i q = elim (Option-cases (get_elem? q.timers i)) [
  | inl e ↦ rw (e, fire) refl
  | inr (t, e) ↦ rw (e, fire) (run_timer_sessions fs t (record q { timers = drop_at i q.timers }))
]

pub register_download_sessions :
    (fs : Files) (c dir : String) (q : TransferQueue)
    → SameSessions q (register_download fs c dir q)
unfolding register_download
register_download_sessions fs c dir q = ground arith

-- The sessions after an end: the others, and not the one that has ended.
pub end_session_sessions :
    (c j : String) (q : TransferQueue)
    → has_key j (end_session c q).sessions ≡ true
    → (has_key j q.sessions ≡ true) × ((str_eq c j && not (str_eq c "")) ≡ false)
unfolding end_session retire
end_session_sessions c j q h =
    (ground (arith, has_key-erase c j q.sessions), ground (arith, has_key-erase c j q.sessions))

pub begin_session_sessions :
    (c d j : String) (q : TransferQueue)
    → has_key j (begin_session c d q).sessions ≡ true
    → (has_key j q.sessions || (str_eq c j && not (str_eq c ""))) ≡ true
unfolding begin_session
begin_session_sessions c d j q h = ground (arith, has_key-insert c j d q.sessions)

pub end_sessions_sessions :
    (cs : List String) (j : String) (q : TransferQueue)
    → has_key j (end_sessions cs q).sessions ≡ true
    → has_key j q.sessions ≡ true
unfolding end_sessions
end_sessions_sessions [] j q h = h
end_sessions_sessions (c ∷ cs) j q h =
    (end_session_sessions c j q (end_sessions_sessions cs j (end_session c q) h)).0

-- A session after a reconciliation is one of before or, when connected, the one reconciled; one that
-- is not connected any more has ended.
pub reconcile_session_sessions :
    (c d j : String) (connected over : Bool) (q : TransferQueue)
    → has_key j (reconcile_session c d connected over q).sessions ≡ true
    → (has_key j q.sessions || (str_eq c j && not (str_eq c ""))) ≡ true
unfolding reconcile_session
reconcile_session_sessions c d j connected over q h =
    ground (arith, begin_session_sessions c d j q, end_session_sessions c j q)

pub reconcile_session_ends :
    (c d : String) (over : Bool) (q : TransferQueue)
    → str_eq c "" ≡ false
    → has_key c (reconcile_session c d false over q).sessions ≡ false
unfolding reconcile_session
reconcile_session_ends c d over q n = ground (arith, end_session_sessions c c q, eq_iff c c)

pub reconcile_session_drops :
    (c d j : String) (over : Bool) (q : TransferQueue)
    → has_key j (reconcile_session c d false over q).sessions ≡ true
    → has_key j q.sessions ≡ true
unfolding reconcile_session
reconcile_session_drops c d j over q h = ground (arith, end_session_sessions c j q)
