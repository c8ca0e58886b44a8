-- ===== src/Transfer/Remembered.antt =====
-- FileTransferQueue: the identifiers of finished transfers, which no step forgets.
use quick_desk.Base.{
  ℕ, ◌≡◌, inl, inr, true, not, ◌&&◌, String, List, [], ◌∷◌, str_eq, arith, string_eq, Option-cases,
  if_split, get_elem?, find_index, is_empty,
}
use quick_desk.Base.Dict.{has_key, contains, keys, contains-add}
use quick_desk.Transfer.Data.{
  Direction, upload, download, Task, Status, Timer, pump_later, prune_later, timeout_later,
  TransferQueue, Message, Files, Url, is_upload, is_dispatched, cancelled, complete, error, changed,
}
use quick_desk.Transfer.Sessions.{
  emit, begin_session, end_session, reconcile_session, clear_completed, prune, end_sessions,
  end_all_sessions,
}
use quick_desk.Transfer.Uploads.{pump, enqueue_upload, register_download}
use quick_desk.Transfer.Cancel.{
  wire_key, finish, send_cancel, cancel_at, cancel, ask_cancel, task_index, time_out_at,
  cancellation_timed_out,
}
use quick_desk.Transfer.Messages.{
  Phase, started, progress, complete_phase, error_phase, kind_of, lose_at, unidentified, is_named,
  start_download, apply_at, report_missing, adopt_at, awaits_id, unknown_transfer, dispatch_message,
  is_retired, handle_message, ends_transfer,
}
use quick_desk.Transfer.Steps.{
  Call, begins, ends, reconciles, ends_all, clears, enqueues, registers, receives, cancels,
  times_out, fires, run_timer, drop_at, fire, step, run,
}
use quick_desk.Transfer.Searches.{at_index_cases, with_first_cases}

module _ (key : String) where
  abbrev pub Remembers : TransferQueue → Type 0
  Remembers q = contains key q.retired_transfers ≡ true

  finish-Remembers :
      (i : ℕ) (t : Task) (s : Status) (text : String) (q : TransferQueue)
      → Remembers q
      → Remembers (finish i t s text q)
  unfolding finish
  finish-Remembers i t s text q h = ground (
    arith,
    contains-add (wire_key t.connection_id t.direction t.transfer_id) key q.retired_transfers,
  )

  send_cancel-Remembers :
      (i : ℕ) (t : Task) (q : TransferQueue) → Remembers q → Remembers (send_cancel i t q)
  unfolding send_cancel
  send_cancel-Remembers i t q h = ground arith

  apply_at-Remembers :
      (d : Direction) (phase : Phase) (m : Message) (i : ℕ) (t : Task) (q : TransferQueue)
      → Remembers q
      → Remembers (apply_at d phase m i t q)
  unfolding apply_at
  apply_at-Remembers d started m i t q h = h
  apply_at-Remembers d progress m i t q h =
      if_split Remembers t.cancel_requested (λ _. send_cancel-Remembers i _ (emit changed q) h)
        (λ _. h)
  apply_at-Remembers d complete_phase m i t q h = finish-Remembers i _ complete _ q h
  apply_at-Remembers d error_phase m i t q h = finish-Remembers i _ error _ q h

  unknown_transfer-Remembers :
      (d : Direction) (phase : Phase) (fresh : String) (m : Message) (q : TransferQueue)
      → Remembers q
      → Remembers (unknown_transfer d phase fresh m q)
  unfolding start_download report_missing adopt_at unknown_transfer
  unknown_transfer-Remembers download phase fresh m q h = ground arith
  unknown_transfer-Remembers upload phase fresh m q h =
      with_first_cases Remembers (adopt_at phase m) (awaits_id m.connection_id) q h λ i t _ _.
        if_split Remembers (not (is_empty m.filename) && not (str_eq m.filename t.filename))
          (λ _. h) (λ _. apply_at-Remembers upload phase m i t q h)

  dispatch_message-Remembers :
      (d : Direction) (phase : Phase) (fresh : String) (m : Message) (q : TransferQueue)
      → Remembers q
      → Remembers (dispatch_message d phase fresh m q)
  unfolding dispatch_message unidentified lose_at
  dispatch_message-Remembers d phase fresh m q h =
      if_split Remembers (is_upload d && is_empty m.transfer_id)
        (λ _.
          if_split Remembers (ends_transfer phase)
            (λ _.
              with_first_cases Remembers (lose_at m.connection_id) (is_dispatched m.connection_id) q
                h λ i t _ _. h)
            (λ _. h))
        (λ _. elim (Option-cases (find_index (is_named m.connection_id d m.transfer_id) q.tasks)) [
          | inl e ↦ rw e (unknown_transfer-Remembers d phase fresh m q h)
          | inr (i, e) ↦ rw e (elim (Option-cases (get_elem? q.tasks i)) [
            | inl f ↦ rw f h
            | inr (t, f) ↦ rw f (apply_at-Remembers d phase m i t q h)
          ])
        ])

  pub handle_message-Remembers :
      (fresh : String) (m : Message) (q : TransferQueue)
      → Remembers q
      → Remembers (handle_message fresh m q)
  unfolding handle_message
  handle_message-Remembers fresh m q h =
      if_split Remembers (not (has_key m.connection_id q.sessions)) (λ _. h)
        λ _. elim (Option-cases (kind_of m.type_name)) [
          | inl e ↦ rw e h
          | inr ((d, phase), e) ↦ rw e (
              if_split Remembers (is_retired d m q) (λ _. h)
                (λ _. dispatch_message-Remembers d phase fresh m q h))
        ]

  cancel-Remembers : (id : String) (q : TransferQueue) → Remembers q → Remembers (cancel id q)
  unfolding cancel cancel_at
  cancel-Remembers id q h =
      at_index_cases Remembers cancel_at (task_index id q.tasks) q h λ i t _ _. ground (
        arith,
        finish-Remembers i t cancelled "Cancelled before upload started." q h,
        send_cancel-Remembers i (ask_cancel t) (emit changed q) h,
      )

  time_out-Remembers :
      (id : String) (q : TransferQueue) → Remembers q → Remembers (cancellation_timed_out id q)
  unfolding cancellation_timed_out time_out_at
  time_out-Remembers id q h =
      at_index_cases Remembers time_out_at (task_index id q.tasks) q h λ i t _ _. ground arith

  end_session-Remembers :
      (c : String) (q : TransferQueue) → Remembers q → Remembers (end_session c q)
  unfolding end_session
  end_session-Remembers c q h = ground arith

  end_sessions-Remembers :
      (cs : List String) (q : TransferQueue) → Remembers q → Remembers (end_sessions cs q)
  unfolding end_sessions
  end_sessions-Remembers [] q h = h
  end_sessions-Remembers (c ∷ cs) q h =
      end_sessions-Remembers cs (end_session c q) (end_session-Remembers c q h)

  run_timer-Remembers :
      (fs : Files) (t : Timer) (q : TransferQueue) → Remembers q → Remembers (run_timer fs t q)
  unfolding run_timer prune pump
  run_timer-Remembers fs (pump_later c) q h = ground arith
  run_timer-Remembers fs prune_later q h = ground arith
  run_timer-Remembers fs (timeout_later id) q h = time_out-Remembers id q h

  enqueue_upload-Remembers :
      (fs : Files) (fresh c : String) (url : Url) (q : TransferQueue)
      → Remembers q
      → Remembers (enqueue_upload fs fresh c url q).0
  unfolding enqueue_upload pump
  enqueue_upload-Remembers fs fresh c url q h = ground arith

  step-Remembers : (k : Call) (q : TransferQueue) → Remembers q → Remembers (step k q)
  unfolding step clear_completed end_all_sessions reconcile_session register_download begin_session
      fire
  step-Remembers (begins c d) q h = ground arith
  step-Remembers (ends c) q h = end_session-Remembers c q h
  step-Remembers (reconciles c d a b) q h = ground (arith, end_session-Remembers c q h)
  step-Remembers ends_all q h = end_sessions-Remembers (keys q.sessions) q h
  step-Remembers clears q h = h
  step-Remembers (enqueues fs fresh c url) q h = enqueue_upload-Remembers fs fresh c url q h
  step-Remembers (registers fs c dir) q h = ground arith
  step-Remembers (receives fresh m) q h = handle_message-Remembers fresh m q h
  step-Remembers (cancels id) q h = cancel-Remembers id q h
  step-Remembers (times_out id) q h = time_out-Remembers id q h
  step-Remembers (fires fs i) q h = elim (Option-cases (get_elem? q.timers i)) [
    | inl e ↦ rw (e, fire) h
    | inr (t, e) ↦
        rw (e, fire) (run_timer-Remembers fs t (record q { timers = drop_at i q.timers }) h)
  ]

  pub run-Remembers : (cs : List Call) (q : TransferQueue) → Remembers q → Remembers (run cs q)
  unfolding run
  run-Remembers [] q h = h
  run-Remembers (k ∷ cs) q h = run-Remembers cs (step k q) (step-Remembers k q h)
