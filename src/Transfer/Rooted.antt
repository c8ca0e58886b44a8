-- ===== src/Transfer/Rooted.antt =====
-- FileTransferQueue: the download roots of the connections and of the tasks, through every step.
use quick_desk.Base.{
  weight, keep_if, sym, any, leb, ◌≡◌, refl, ◌∙◌, ap, ap₂, inl, inr, Bool, true, not, ◌&&◌, ◌||◌,
  String, List, [], ◌∷◌, arith, string_eq, Option-cases, if_split, get_elem?, is_empty, eq_iff,
}
use quick_desk.Base.Dict.{has_key, contains, keys, lookup-insert_cases, lookup-erase_cases}
use quick_desk.Base.Count.{count, count-append, count-map_le, count-keep_if_le}
use quick_desk.Transfer.Data.{
  Task, Timer, pump_later, prune_later, timeout_later, TransferQueue, Files, Url, is_dispatched,
  cancelled, changed, terminal, is_live, is_queued, is_pending, has_path,
}
use quick_desk.Transfer.Sessions.{
  emit, disconnect, is_unfinished, retire, begin_session, end_session, reconcile_session,
  clear_completed, prune, end_sessions, end_all_sessions,
}
use quick_desk.Transfer.Uploads.{
  pump, pump_tasks, usable, device_of, new_upload, append_upload, enqueue_upload, register_download,
}
use quick_desk.Transfer.Cancel.{
  send_cancel, cancel_at, cancel, ask_cancel, task_index, time_out_at, is_cancelling,
  not_cancellable, cancellation_timed_out,
}
use quick_desk.Transfer.Steps.{
  Call, begins, ends, reconciles, ends_all, clears, enqueues, registers, receives, cancels,
  times_out, fires, run_timer, drop_at, fire, step, run,
}
use quick_desk.Transfer.Searches.{at_index_cases}
use quick_desk.Transfer.Roots.{
  registers_root, is_stray, with_tasks-Rooted, set-straight, finish-Rooted, send_cancel-Rooted,
  handle_message-Rooted, Rooted,
}

module _ (allowed : String → String → Bool) where
  cancel-Rooted :
      (id : String) (q : TransferQueue) → Rooted allowed q → Rooted allowed (cancel id q)
  unfolding cancel cancel_at
  cancel-Rooted id q h =
      at_index_cases (Rooted allowed) cancel_at (task_index id q.tasks) q h λ i t _ g.
        if_split (Rooted allowed) (not_cancellable t.status) (λ _. h)
          λ _.
            if_split (Rooted allowed) (is_queued t.status)
              (λ _.
                finish-Rooted allowed i t t cancelled "Cancelled before upload started." q g refl h)
              (λ _.
                let z =
                  send_cancel-Rooted allowed i t (ask_cancel t) (emit changed q) g refl
                    (with_tasks-Rooted allowed q (emit changed q) refl h.tasks h) in
                with_tasks-Rooted allowed (send_cancel i (ask_cancel t) (emit changed q)) _ refl
                  z.tasks z)

  time_out-Rooted :
      (id : String) (q : TransferQueue)
      → Rooted allowed q
      → Rooted allowed (cancellation_timed_out id q)
  unfolding cancellation_timed_out time_out_at
  time_out-Rooted id q h =
      at_index_cases (Rooted allowed) time_out_at (task_index id q.tasks) q h λ i t _ g.
        if_split (Rooted allowed) (is_cancelling t.status)
          (λ _.
            with_tasks-Rooted allowed q _ refl (set-straight allowed q.tasks i t _ g refl h.tasks)
              h)
          (λ _. h)

  disconnect-straight :
      (k : String) (t : Task) → is_stray allowed (disconnect k t) ≡ is_stray allowed t
  disconnect-straight k t =
      if_split (λ u. is_stray allowed u ≡ is_stray allowed t) (is_live k t) (λ _. refl) (λ _. refl)

  retire-Rooted : (k : String) (q : TransferQueue) → Rooted allowed q → Rooted allowed (retire k q)
  unfolding retire
  retire-Rooted k q h = record {
    roots = λ c r e. h.roots c r (lookup-erase_cases k c r q.download_roots e).1;
    tasks = omega (
      arith,
      count-map_le (is_stray allowed) (disconnect k) q.tasks
          (λ t. omega (arith, ap weight (disconnect-straight k t))),
      h.tasks,
    );
  }

  end_session-Rooted :
      (k : String) (q : TransferQueue) → Rooted allowed q → Rooted allowed (end_session k q)
  unfolding end_session
  end_session-Rooted k q h =
      let z = retire-Rooted k q h in
      if_split (Rooted allowed) (is_empty k) (λ _. h)
        λ _.
          if_split (Rooted allowed) (any (is_live k) q.tasks)
            (λ _. with_tasks-Rooted allowed (retire k q) _ refl z.tasks z) (λ _. z)

  end_sessions-Rooted :
      (ks : List String) (q : TransferQueue) → Rooted allowed q → Rooted allowed (end_sessions ks q)
  unfolding end_sessions
  end_sessions-Rooted [] q h = h
  end_sessions-Rooted (k ∷ ks) q h =
      end_sessions-Rooted ks (end_session k q) (end_session-Rooted k q h)

  begin_session-Rooted :
      (k d : String) (q : TransferQueue) → Rooted allowed q → Rooted allowed (begin_session k d q)
  unfolding begin_session
  begin_session-Rooted k d q h =
      if_split (Rooted allowed) (not (is_empty k) && not (contains k q.retired_connections))
        (λ _. with_tasks-Rooted allowed q _ refl h.tasks h) (λ _. h)

  register_download-Rooted :
      (fs : Files) (k dir : String) (q : TransferQueue)
      → allowed k (fs.absolute_path dir) ≡ true
      → Rooted allowed q
      → Rooted allowed (register_download fs k dir q)
  unfolding register_download
  register_download-Rooted fs k dir q ok h =
      if_split (Rooted allowed) (has_key k q.sessions)
        (λ _. record {
          roots = λ c r e.
              elim (lookup-insert_cases k c (fs.absolute_path dir) r q.download_roots e) [
                | inl (same, it) ↦ ap₂ allowed (sym same) (sym it) ∙ ok
                | inr (other, old) ↦ h.roots c r old
              ];
          tasks = h.tasks;
        })
        (λ _. h)

  pump_tasks-straight :
      (fs : Files) (k : String) (ts : List Task)
      → count (is_stray allowed) (pump_tasks fs k ts).0 ≡ count (is_stray allowed) ts
  unfolding pump_tasks count
  pump_tasks-straight fs k [] = refl
  pump_tasks-straight fs k (t ∷ ts) = ground (arith, pump_tasks-straight fs k ts)

  pump-Rooted :
      (fs : Files) (k : String) (q : TransferQueue)
      → Rooted allowed q
      → Rooted allowed (pump fs k q)
  unfolding pump
  pump-Rooted fs k q h =
      if_split (Rooted allowed) (not (has_key k q.sessions) || contains k q.blocked_uploads)
        (λ _. h)
        λ _.
          if_split (Rooted allowed) (any (is_dispatched k) q.tasks) (λ _. h)
            (λ _. with_tasks-Rooted allowed q _ refl (pump_tasks-straight fs k q.tasks ∙ h.tasks) h)

  enqueue_upload-Rooted :
      (fs : Files) (fresh k : String) (url : Url) (q : TransferQueue)
      → Rooted allowed q
      → Rooted allowed (enqueue_upload fs fresh k url q).0
  unfolding enqueue_upload append_upload count
  enqueue_upload-Rooted fs fresh k url q h =
      if_split P (not (has_key k q.sessions)) (λ _. h)
        λ _.
          if_split P (not url.is_local_file || not (usable fs f))
            (λ _. with_tasks-Rooted allowed q _ refl h.tasks h)
            λ _.
              if_split P (any (has_path k (fs.canonical_file_path f)) q.tasks) (λ _. h)
                λ _.
                  if_split P (leb 256 (count (is_pending k) q.tasks))
                    (λ _. with_tasks-Rooted allowed q _ refl h.tasks h)
                    (λ _. pump-Rooted fs k _ (
                      with_tasks-Rooted allowed q _ refl
                        (omega (
                          arith,
                          count-append (is_stray allowed) q.tasks
                              (new_upload fs fresh k (device_of k q) f ∷ []),
                          h.tasks,
                        ))
                        h))
    where
      f : String
      f = url.local_file

      P : TransferQueue × Bool → Type 0
      P r = Rooted allowed r.0

  prune-Rooted : (q : TransferQueue) → Rooted allowed q → Rooted allowed (prune q)
  unfolding prune
  prune-Rooted q h =
      let z : count (is_stray allowed) (keep_if is_unfinished q.tasks) ≡ 0 =
        omega (arith, count-keep_if_le (is_stray allowed) is_unfinished q.tasks, h.tasks) in
      if_split (Rooted allowed) (any (λ t. terminal t.status) q.tasks)
        (λ _. with_tasks-Rooted allowed q _ refl z h) (λ _. with_tasks-Rooted allowed q _ refl z h)

  run_timer-Rooted :
      (fs : Files) (t : Timer) (q : TransferQueue)
      → Rooted allowed q
      → Rooted allowed (run_timer fs t q)
  unfolding run_timer
  run_timer-Rooted fs (pump_later k) q h = pump-Rooted fs k q h
  run_timer-Rooted fs prune_later q h = prune-Rooted q h
  run_timer-Rooted fs (timeout_later id) q h = time_out-Rooted id q h

  step-Rooted :
      (k : Call) (q : TransferQueue)
      → ((c r : String) → registers_root c r k ≡ true → allowed c r ≡ true)
      → Rooted allowed q
      → Rooted allowed (step k q)
  unfolding step clear_completed end_all_sessions reconcile_session fire
  step-Rooted (begins k d) q a h = begin_session-Rooted k d q h
  step-Rooted (ends k) q a h = end_session-Rooted k q h
  step-Rooted (reconciles k d on over) q a h =
      if_split (Rooted allowed) (over || (not on && has_key k q.sessions))
        (λ _. end_session-Rooted k q h)
        λ _. if_split (Rooted allowed) on (λ _. begin_session-Rooted k d q h) (λ _. h)
  step-Rooted ends_all q a h = end_sessions-Rooted (keys q.sessions) q h
  step-Rooted clears q a h = with_tasks-Rooted allowed q _ refl h.tasks h
  step-Rooted (enqueues fs fresh k url) q a h = enqueue_upload-Rooted fs fresh k url q h
  step-Rooted (registers fs k dir) q a h =
      let r = fs.absolute_path dir in
      register_download-Rooted fs k dir q (a k r (ground (arith, eq_iff k k, eq_iff r r))) h
  step-Rooted (receives fresh m) q a h = handle_message-Rooted allowed fresh m q h
  step-Rooted (cancels id) q a h = cancel-Rooted id q h
  step-Rooted (times_out id) q a h = time_out-Rooted id q h
  step-Rooted (fires fs i) q a h = elim (Option-cases (get_elem? q.timers i)) [
    | inl e ↦ rw (e, fire) h
    | inr (t, e) ↦
        let q' : TransferQueue = record q { timers = drop_at i q.timers } in
        rw (e, fire) (run_timer-Rooted fs t q' (with_tasks-Rooted allowed q q' refl h.tasks h))
  ]

  pub run-Rooted :
      (ks : List Call) (q : TransferQueue)
      → ((c r : String) → any (registers_root c r) ks ≡ true → allowed c r ≡ true)
      → Rooted allowed q
      → Rooted allowed (run ks q)
  unfolding run any
  run-Rooted [] q a h = h
  run-Rooted (k ∷ ks) q a h =
      run-Rooted ks (step k q) (λ c r e. a c r (ground (arith, e)))
        (step-Rooted k q (λ c r e. a c r (ground (arith, e))) h)
