-- ===== src/Transfer/Retired.antt =====
-- FileTransferQueue: connections whose session was ended, and transfers that have finished.
use quick_desk.Base.{
  ap, ℕ, ◌≡◌, refl, ◌∙◌, inl, inr, true, false, not, ◌&&◌, String, List, [], ◌∷◌, str_eq, arith,
  eq_iff, string_eq, Option-cases, if_split, get_elem?, find_index,
}
use quick_desk.Base.Dict.{has_key, contains, keys, contains-add}
use quick_desk.Base.Count.{count}
use quick_desk.Transfer.Data.{
  Direction, upload, download, Task, Status, Timer, pump_later, prune_later, timeout_later,
  TransferQueue, Message, Files, Url, is_upload, is_dispatched, is_live, cancelled, changed,
}
use quick_desk.Transfer.Sessions.{
  init, emit, begin_session, end_session, reconcile_session, session_active, clear_completed, prune,
  end_sessions, end_all_sessions,
}
use quick_desk.Transfer.Uploads.{pump, enqueue_upload, register_download}
use quick_desk.Transfer.Cancel.{
  finish, send_cancel, cancel_at, cancel, ask_cancel, task_index, time_out_at,
  cancellation_timed_out,
}
use quick_desk.Transfer.Messages.{
  Phase, started, kind_of, lose_at, unidentified, is_named, start_download, apply_at,
  report_missing, adopt_at, awaits_id, unknown_transfer, dispatch_message, is_retired,
  handle_message, ends_transfer,
}
use quick_desk.Transfer.Steps.{
  Call, begins, ends, reconciles, ends_all, clears, enqueues, registers, receives, cancels,
  times_out, fires, run_timer, drop_at, fire, step, run,
}
use quick_desk.Transfer.Searches.{at_index_cases, with_first_cases}
use quick_desk.Transfer.Invariant.Store.{IsSound}
use quick_desk.Transfer.Invariant.Reach.{run-IsSound, run-init-IsSound}
use quick_desk.Transfer.Invariant.Sessions.{end_session-IsSound}

finish_retired :
    (i : ℕ) (t : Task) (s : Status) (text : String) (q : TransferQueue)
    → (finish i t s text q).retired_connections ≡ q.retired_connections
unfolding finish
finish_retired i t s text q = ground arith

send_cancel_retired :
    (i : ℕ) (t : Task) (q : TransferQueue)
    → (send_cancel i t q).retired_connections ≡ q.retired_connections
unfolding send_cancel
send_cancel_retired i t q = ground arith

apply_at_retired :
    (d : Direction) (phase : Phase) (m : Message) (i : ℕ) (t : Task) (q : TransferQueue)
    → (apply_at d phase m i t q).retired_connections ≡ q.retired_connections
unfolding apply_at finish send_cancel
apply_at_retired d started m i t q = refl
apply_at_retired d phase m i t q = ground arith

-- The two queues have the same retired connections.
abbrev SameRetired : TransferQueue → TransferQueue → Type 0
SameRetired q r = r.retired_connections ≡ q.retired_connections

unknown_transfer_retired :
    (d : Direction) (phase : Phase) (fresh : String) (m : Message) (q : TransferQueue)
    → SameRetired q (unknown_transfer d phase fresh m q)
unfolding start_download report_missing adopt_at unknown_transfer
unknown_transfer_retired download phase fresh m q = ground arith
unknown_transfer_retired upload phase fresh m q =
    with_first_cases (SameRetired q) (adopt_at phase m) (awaits_id m.connection_id) q refl
      λ i t _ _. ground (arith, apply_at_retired upload phase m i t q)

dispatch_message_retired :
    (d : Direction) (phase : Phase) (fresh : String) (m : Message) (q : TransferQueue)
    → SameRetired q (dispatch_message d phase fresh m q)
unfolding dispatch_message unidentified lose_at
dispatch_message_retired d phase fresh m q =
    if_split (SameRetired q) (is_upload d && str_eq m.transfer_id "")
      (λ _.
        if_split (SameRetired q) (ends_transfer phase)
          (λ _.
            with_first_cases (SameRetired q) (lose_at m.connection_id)
              (is_dispatched m.connection_id) q refl λ i t _ _. refl)
          (λ _. refl))
      (λ _. ground (
        arith,
        unknown_transfer_retired d phase fresh m q,
        at_index_cases (SameRetired q) (apply_at d phase m)
            (find_index (is_named m.connection_id d m.transfer_id) q.tasks) q refl
            (λ i t _ _. apply_at_retired d phase m i t q),
      ))

handle_message_retired :
    (fresh : String) (m : Message) (q : TransferQueue) → SameRetired q (handle_message fresh m q)
unfolding handle_message
handle_message_retired fresh m q =
    if_split (SameRetired q) (not (has_key m.connection_id q.sessions)) (λ _. refl)
      λ _. elim (Option-cases (kind_of m.type_name)) [
        | inl e ↦ rw e refl
        | inr ((d, phase), e) ↦ rw e (
            if_split (SameRetired q) (is_retired d m q) (λ _. refl)
              (λ _. dispatch_message_retired d phase fresh m q))
      ]

cancel_retired : (id : String) (q : TransferQueue) → SameRetired q (cancel id q)
unfolding cancel cancel_at
cancel_retired id q =
    at_index_cases (SameRetired q) cancel_at (task_index id q.tasks) q refl λ i t _ _. ground (
      arith,
      finish_retired i t cancelled "Cancelled before upload started." q,
      send_cancel_retired i (ask_cancel t) (emit changed q),
    )

time_out_retired : (id : String) (q : TransferQueue) → SameRetired q (cancellation_timed_out id q)
unfolding cancellation_timed_out time_out_at
time_out_retired id q =
    at_index_cases (SameRetired q) time_out_at (task_index id q.tasks) q refl
      λ i t _ _. ground arith

pump_retired : (fs : Files) (c : String) (q : TransferQueue) → SameRetired q (pump fs c q)
unfolding pump
pump_retired fs c q = ground arith

enqueue_upload_retired :
    (fs : Files) (fresh c : String) (url : Url) (q : TransferQueue)
    → SameRetired q (enqueue_upload fs fresh c url q).0
unfolding enqueue_upload pump
enqueue_upload_retired fs fresh c url q = ground arith

-- A retired connection stays retired.
module _ (c : String) where
  abbrev IsRetired : TransferQueue → Type 0
  IsRetired q = contains c q.retired_connections ≡ true

  end_session-IsRetired :
      (k : String) (q : TransferQueue) → IsRetired q → IsRetired (end_session k q)
  unfolding end_session
  end_session-IsRetired k q h = ground (arith, contains-add k c q.retired_connections)

  begin_session-IsRetired :
      (k d : String) (q : TransferQueue) → IsRetired q → IsRetired (begin_session k d q)
  unfolding begin_session
  begin_session-IsRetired k d q h = ground arith

  end_sessions-IsRetired :
      (cs : List String) (q : TransferQueue) → IsRetired q → IsRetired (end_sessions cs q)
  unfolding end_sessions
  end_sessions-IsRetired [] q h = h
  end_sessions-IsRetired (k ∷ cs) q h =
      end_sessions-IsRetired cs (end_session k q) (end_session-IsRetired k q h)

  run_timer_retired :
      (fs : Files) (t : Timer) (q : TransferQueue) → SameRetired q (run_timer fs t q)
  unfolding run_timer prune
  run_timer_retired fs (pump_later k) q = pump_retired fs k q
  run_timer_retired fs prune_later q = ground arith
  run_timer_retired fs (timeout_later id) q = time_out_retired id q

  step-IsRetired : (k : Call) (q : TransferQueue) → IsRetired q → IsRetired (step k q)
  unfolding step clear_completed end_all_sessions reconcile_session register_download fire
  step-IsRetired (begins k d) q h = begin_session-IsRetired k d q h
  step-IsRetired (ends k) q h = end_session-IsRetired k q h
  step-IsRetired (reconciles k d a b) q h =
      ground (arith, begin_session-IsRetired k d q h, end_session-IsRetired k q h)
  step-IsRetired ends_all q h = end_sessions-IsRetired (keys q.sessions) q h
  step-IsRetired clears q h = h
  step-IsRetired (enqueues fs fresh k url) q h =
      ap (contains c) (enqueue_upload_retired fs fresh k url q) ∙ h
  step-IsRetired (registers fs k dir) q h = ground arith
  step-IsRetired (receives fresh m) q h = ap (contains c) (handle_message_retired fresh m q) ∙ h
  step-IsRetired (cancels id) q h = ap (contains c) (cancel_retired id q) ∙ h
  step-IsRetired (times_out id) q h = ap (contains c) (time_out_retired id q) ∙ h
  step-IsRetired (fires fs i) q h = elim (Option-cases (get_elem? q.timers i)) [
    | inl e ↦ rw (e, fire) h
    | inr (t, e) ↦
        rw (e, fire)
          (ap (contains c) (run_timer_retired fs t (record q { timers = drop_at i q.timers })) ∙ h)
  ]

  run-IsRetired : (cs : List Call) (q : TransferQueue) → IsRetired q → IsRetired (run cs q)
  unfolding run
  run-IsRetired [] q h = h
  run-IsRetired (k ∷ cs) q h = run-IsRetired cs (step k q) (step-IsRetired k q h)

  end_session-retires : (q : TransferQueue) → str_eq c "" ≡ false → IsRetired (end_session c q)
  unfolding end_session
  end_session-retires q n = ground (arith, contains-add c c q.retired_connections, eq_iff c c)

-- Once a session whose connection identifier is not empty is ended, after any history of the queue,
-- no later sequence of calls, messages and timers leaves its connection active or with an
-- unfinished task.
pub end_session-final :
    (c : String) (before after : List Call)
    → str_eq c "" ≡ false
    → (session_active c (run after (end_session c (run before init))) ≡ false)
      × (count (is_live c) (run after (end_session c (run before init))).tasks ≡ 0)
unfolding session_active
end_session-final c before after n = (gone, v.attached c gone)
  where
    ended : TransferQueue
    ended = end_session c (run before init)

    v : IsSound (run after ended)
    v = run-IsSound after ended (end_session-IsSound c _ (run-init-IsSound before))

    gone : has_key c (run after ended).sessions ≡ false
    gone = v.separate c (run-IsRetired c after ended (end_session-retires c (run before init) n))
