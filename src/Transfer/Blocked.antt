-- ===== src/Transfer/Blocked.antt =====
-- FileTransferQueue: a connection on which no upload is started any more, through every step.
use quick_desk.Base.{
  ℕ, sym, any, leb, ◌≡◌, refl, ◌∙◌, ap, inl, inr, Bool, true, false, not, ◌&&◌, ◌||◌, String, List,
  [], ◌∷◌, str_eq, arith, string_eq, Option-cases, if_split, get_elem?, is_empty, eq_iff,
  Bool-cases,
}
use quick_desk.Base.Dict.{
  has_key, contains, keys, contains-add, contains-remove, has_key-erase, has_key-insert, insert,
}
use quick_desk.Base.Count.{count, count-append}
use quick_desk.Transfer.Data.{
  Timer, pump_later, prune_later, timeout_later, TransferQueue, Files, Url, is_dispatched,
  cancelled, changed, terminal, is_live, notice, is_queued, is_pending, has_path,
}
use quick_desk.Transfer.Sessions.{
  emit, retire, begin_session, end_session, reconcile_session, clear_completed, prune, end_sessions,
  end_all_sessions,
}
use quick_desk.Transfer.Uploads.{
  pump, pump_tasks, usable, append_upload, enqueue_upload, register_download,
}
use quick_desk.Transfer.Cancel.{
  cancel_at, cancel, ask_cancel, task_index, time_out_at, is_cancelling, not_cancellable,
  cancellation_timed_out,
}
use quick_desk.Transfer.Steps.{
  Call, begins, ends, reconciles, ends_all, clears, enqueues, registers, receives, cancels,
  times_out, fires, run_timer, drop_at, fire, step, run,
}
use quick_desk.Transfer.Searches.{at_index_cases}
use quick_desk.Transfer.Held.{
  is_start, pump_tasks-starts, Held, emit-Held, finish-Held, send_cancel-Held, handle_message-Held,
}

module _ (c : String) (n : ℕ) where
  cancel-Held : (id : String) (q : TransferQueue) → Held c n q → Held c n (cancel id q)
  unfolding cancel cancel_at
  cancel-Held id q h = at_index_cases (Held c n) cancel_at (task_index id q.tasks) q h λ i t _ _.
      if_split (Held c n) (not_cancellable t.status) (λ _. h)
        λ _.
          if_split (Held c n) (is_queued t.status)
            (λ _. finish-Held c n i t cancelled "Cancelled before upload started." q h)
            (λ _.
              send_cancel-Held c n i (ask_cancel t) (emit changed q)
                (emit-Held c n changed q refl h))

  time_out-Held :
      (id : String) (q : TransferQueue) → Held c n q → Held c n (cancellation_timed_out id q)
  unfolding cancellation_timed_out time_out_at
  time_out-Held id q h =
      at_index_cases (Held c n) time_out_at (task_index id q.tasks) q h λ i t _ _.
        if_split (Held c n) (is_cancelling t.status) (λ _. emit-Held c n changed q refl h) (λ _. h)

  retire-Held : (k : String) (q : TransferQueue) → Held c n q → Held c n (retire k q)
  unfolding retire
  retire-Held k q h = (
    ground (
      arith,
      contains-remove k c q.blocked_uploads,
      contains-add k c q.retired_connections,
      has_key-erase k c q.sessions,
      h.0,
    ),
    h.1,
  )

  end_session-Held : (k : String) (q : TransferQueue) → Held c n q → Held c n (end_session k q)
  unfolding end_session
  end_session-Held k q h =
      if_split (Held c n) (is_empty k) (λ _. h)
        λ _.
          if_split (Held c n) (any (is_live k) q.tasks)
            (λ _. emit-Held c n changed (retire k q) refl (retire-Held k q h))
            (λ _. retire-Held k q h)

  end_sessions-Held :
      (ks : List String) (q : TransferQueue) → Held c n q → Held c n (end_sessions ks q)
  unfolding end_sessions
  end_sessions-Held [] q h = h
  end_sessions-Held (k ∷ ks) q h = end_sessions-Held ks (end_session k q) (end_session-Held k q h)

  begin_session-Held :
      (k d : String) (q : TransferQueue) → Held c n q → Held c n (begin_session k d q)
  unfolding begin_session
  begin_session-Held k d q h =
      if_split (Held c n) (not (is_empty k) && not (contains k q.retired_connections))
        (λ ready. (held (ground (arith, ready)), h.1)) (λ _. h)
    where
      held :
          contains k q.retired_connections ≡ false
          → (contains c q.blocked_uploads
              || (contains c q.retired_connections && not (has_key c (insert k d q.sessions))))
            ≡ true
      held new = elim (Bool-cases (str_eq k c)) [
        | inl same ↦
            let t : k ≡ c = (eq_iff k c).0 same in
            let r : contains c q.retired_connections ≡ false =
              ap (λ x. contains x q.retired_connections) (sym t) ∙ new in
            ground (arith, h.0, r)
        | inr other ↦ ground (arith, h.0, has_key-insert k c d q.sessions, other)
      ]

  pump-Held : (fs : Files) (k : String) (q : TransferQueue) → Held c n q → Held c n (pump fs k q)
  unfolding pump
  pump-Held fs k q h =
      if_split (Held c n) (not (has_key k q.sessions) || contains k q.blocked_uploads) (λ _. h)
        λ ready.
          if_split (Held c n) (any (is_dispatched k) q.tasks) (λ _. h)
            λ _. (
              h.0,
              (count-append (is_start c) q.signals (pump_tasks fs k q.tasks).1
                    ∙ omega (arith, pump_tasks-starts fs k c q.tasks (other ready)))
                  ∙ h.1,
            )
    where
      other :
          (not (has_key k q.sessions) || contains k q.blocked_uploads) ≡ false → str_eq k c ≡ false
      other ready = elim (Bool-cases (str_eq k c)) [
        | inr it ↦ it
        | inl same ↦
            let t : k ≡ c = (eq_iff k c).0 same in
            let r : (not (has_key c q.sessions) || contains c q.blocked_uploads) ≡ false =
              ap (λ x. not (has_key x q.sessions) || contains x q.blocked_uploads) (sym t)
              ∙ ready in
            absurd (ground (arith, h.0, r))
      ]

  enqueue_upload-Held :
      (fs : Files) (fresh k : String) (url : Url) (q : TransferQueue)
      → Held c n q
      → Held c n (enqueue_upload fs fresh k url q).0
  unfolding enqueue_upload append_upload
  enqueue_upload-Held fs fresh k url q h =
      if_split P (not (has_key k q.sessions)) (λ _. h)
        λ _.
          if_split P (not url.is_local_file || not (usable fs f))
            (λ _. emit-Held c n (notice _ _) q refl h)
            λ _.
              if_split P (any (has_path k (fs.canonical_file_path f)) q.tasks) (λ _. h)
                λ _.
                  if_split P (leb 256 (count (is_pending k) q.tasks))
                    (λ _. emit-Held c n (notice _ _) q refl h)
                    (λ _. pump-Held fs k _ (emit-Held c n changed q refl h))
    where
      f : String
      f = url.local_file

      P : TransferQueue × Bool → Type 0
      P r = Held c n r.0

  prune-Held : (q : TransferQueue) → Held c n q → Held c n (prune q)
  unfolding prune
  prune-Held q h =
      if_split (Held c n) (any (λ t. terminal t.status) q.tasks)
        (λ _. emit-Held c n changed q refl h) (λ _. h)

  run_timer-Held :
      (fs : Files) (t : Timer) (q : TransferQueue) → Held c n q → Held c n (run_timer fs t q)
  unfolding run_timer
  run_timer-Held fs (pump_later k) q h = pump-Held fs k q h
  run_timer-Held fs prune_later q h = prune-Held q h
  run_timer-Held fs (timeout_later id) q h = time_out-Held id q h

  step-Held : (k : Call) (q : TransferQueue) → Held c n q → Held c n (step k q)
  unfolding step clear_completed end_all_sessions reconcile_session register_download fire
  step-Held (begins k d) q h = begin_session-Held k d q h
  step-Held (ends k) q h = end_session-Held k q h
  step-Held (reconciles k d on over) q h =
      if_split (Held c n) (over || (not on && has_key k q.sessions)) (λ _. end_session-Held k q h)
        λ _. if_split (Held c n) on (λ _. begin_session-Held k d q h) (λ _. h)
  step-Held ends_all q h = end_sessions-Held (keys q.sessions) q h
  step-Held clears q h = h
  step-Held (enqueues fs fresh k url) q h = enqueue_upload-Held fs fresh k url q h
  step-Held (registers fs k dir) q h = if_split (Held c n) (has_key k q.sessions) (λ _. h) (λ _. h)
  step-Held (receives fresh m) q h = handle_message-Held c n fresh m q h
  step-Held (cancels id) q h = cancel-Held id q h
  step-Held (times_out id) q h = time_out-Held id q h
  step-Held (fires fs i) q h = elim (Option-cases (get_elem? q.timers i)) [
    | inl e ↦ rw (e, fire) h
    | inr (t, e) ↦ rw (e, fire) (run_timer-Held fs t (record q { timers = drop_at i q.timers }) h)
  ]

  pub run-Held : (ks : List Call) (q : TransferQueue) → Held c n q → Held c n (run ks q)
  unfolding run
  run-Held [] q h = h
  run-Held (k ∷ ks) q h = run-Held ks (step k q) (step-Held k q h)
