-- ===== src/Transfer/Roots.antt =====
-- FileTransferQueue: the download roots of the connections and of the tasks, through the messages.
use quick_desk.Base.{
  ℕ, weight, set, sym, is_some, ◌≡◌, refl, ◌∙◌, ap, inl, inr, Bool, true, false, not, ◌&&◌, ◌||◌,
  String, List, [], ◌∷◌, some, str_eq, arith, string_eq, Option-cases, if_split, get_elem?,
  find_index, is_empty,
}
use quick_desk.Base.Dict.{lookup, has_key}
use quick_desk.Base.Count.{count, count-append, count-set}
use quick_desk.Transfer.Data.{
  Direction, upload, download, Task, Status, TransferQueue, Message, is_upload, is_dispatched,
  complete, error, changed, terminal,
}
use quick_desk.Transfer.Sessions.{emit, store}
use quick_desk.Transfer.Uploads.{device_of}
use quick_desk.Transfer.Cancel.{finish, send_cancel}
use quick_desk.Transfer.Messages.{
  Phase, started, progress, complete_phase, error_phase, kind_of, lose_at, unidentified, is_named,
  start_download, new_download, apply_at, report_missing, adopt_at, awaits_id, unknown_transfer,
  dispatch_message, is_retired, handle_message, ends_transfer,
}
use quick_desk.Transfer.Steps.{Call, registers}
use quick_desk.Transfer.Searches.{with_first_cases}

-- A call that registers a download root for the connection.
abbrev pub registers_root : String → String → Call → Bool
registers_root c root (registers fs k dir) = str_eq k c && str_eq (fs.absolute_path dir) root
registers_root c root call = false

module _ (allowed : String → String → Bool) where
  -- A download under a root that is not one of its connection's.
  abbrev pub is_stray : Task → Bool
  is_stray t = not (is_upload t.direction) && not (allowed t.connection_id t.save_root)

  -- The roots that the queue keeps, for connections and for tasks, are allowed.
  pub record Rooted (q : TransferQueue) : Type 0 where
    pub roots : (c r : String) → lookup c q.download_roots ≡ some r → allowed c r ≡ true
    pub tasks : count is_stray q.tasks ≡ 0

  pub with_tasks-Rooted :
      (q r : TransferQueue)
      → r.download_roots ≡ q.download_roots
      → count is_stray r.tasks ≡ 0
      → Rooted q
      → Rooted r
  with_tasks-Rooted q r same z h = record {
    roots = λ c d e. h.roots c d (ap (λ m. lookup c m) (sym same) ∙ e);
    tasks = z;
  }

  -- A write to a task that keeps its direction, its connection and its root.
  pub set-straight :
      (ts : List Task) (i : ℕ) (old u : Task)
      → get_elem? ts i ≡ some old
      → is_stray u ≡ is_stray old
      → count is_stray ts ≡ 0
      → count is_stray (set ts i u) ≡ 0
  set-straight ts i old u g same z =
      omega (arith, count-set is_stray ts i old u g, ap weight same, z)

  store-Rooted :
      (i : ℕ) (old u : Task) (q : TransferQueue)
      → get_elem? q.tasks i ≡ some old
      → is_stray u ≡ is_stray old
      → Rooted q
      → Rooted (store i u q)
  store-Rooted i old u q g same h =
      with_tasks-Rooted q (store i u q) refl (set-straight q.tasks i old u g same h.tasks) h

  pub finish-Rooted :
      (i : ℕ) (old t : Task) (s : Status) (text : String) (q : TransferQueue)
      → get_elem? q.tasks i ≡ some old
      → is_stray t ≡ is_stray old
      → Rooted q
      → Rooted (finish i t s text q)
  unfolding finish
  finish-Rooted i old t s text q g same h =
      if_split Rooted (terminal t.status) (λ _. store-Rooted i old t q g same h)
        (λ _. with_tasks-Rooted q _ refl (set-straight q.tasks i old _ g same h.tasks) h)

  pub send_cancel-Rooted :
      (i : ℕ) (old t : Task) (q : TransferQueue)
      → get_elem? q.tasks i ≡ some old
      → is_stray t ≡ is_stray old
      → Rooted q
      → Rooted (send_cancel i t q)
  unfolding send_cancel
  send_cancel-Rooted i old t q g same h =
      if_split Rooted (is_empty t.transfer_id || t.cancel_sent)
        (λ _. store-Rooted i old t q g same h)
        (λ _. with_tasks-Rooted q _ refl (set-straight q.tasks i old _ g same h.tasks) h)

  apply_at-Rooted :
      (d : Direction) (phase : Phase) (m : Message) (i : ℕ) (t : Task) (q : TransferQueue)
      → get_elem? q.tasks i ≡ some t
      → Rooted q
      → Rooted (apply_at d phase m i t q)
  unfolding apply_at
  apply_at-Rooted d started m i t q g h = store-Rooted i t _ q g refl h
  apply_at-Rooted d progress m i t q g h =
      if_split Rooted t.cancel_requested
        (λ _.
          send_cancel-Rooted i t _ (emit changed q) g refl (with_tasks-Rooted q _ refl h.tasks h))
        (λ _. with_tasks-Rooted q _ refl (set-straight q.tasks i t _ g refl h.tasks) h)
  apply_at-Rooted d complete_phase m i t q g h = finish-Rooted i t _ complete _ q g refl h
  apply_at-Rooted d error_phase m i t q g h = finish-Rooted i t _ error _ q g refl h

  start_download-Rooted :
      (fresh : String) (m : Message) (q : TransferQueue)
      → Rooted q
      → Rooted (start_download fresh m q)
  unfolding start_download count
  start_download-Rooted fresh m q h =
      if_split Rooted (is_empty m.transfer_id) (λ _. h)
        λ _. elim (Option-cases (lookup m.connection_id q.download_roots)) [
          | inl e ↦ rw e h
          | inr (root, e) ↦ rw e (
              with_tasks-Rooted q _ refl
                (ground (
                  arith,
                  count-append is_stray q.tasks
                      (new_download fresh (device_of m.connection_id q) root m ∷ []),
                  h.tasks,
                  h.roots m.connection_id root e,
                ))
                h)
        ]

  unknown_transfer-Rooted :
      (d : Direction) (phase : Phase) (fresh : String) (m : Message) (q : TransferQueue)
      → Rooted q
      → Rooted (unknown_transfer d phase fresh m q)
  unfolding adopt_at unknown_transfer report_missing
  unknown_transfer-Rooted download started fresh m q h = start_download-Rooted fresh m q h
  unknown_transfer-Rooted download error_phase fresh m q h =
      if_split Rooted (is_some (lookup m.connection_id q.download_roots))
        (λ _. with_tasks-Rooted q _ refl h.tasks h) (λ _. h)
  unknown_transfer-Rooted download phase fresh m q h = h
  unknown_transfer-Rooted upload phase fresh m q h =
      with_first_cases Rooted (adopt_at phase m) (awaits_id m.connection_id) q h λ i t g _.
        if_split Rooted (not (is_empty m.filename) && not (str_eq m.filename t.filename)) (λ _. h)
          (λ _. apply_at-Rooted upload phase m i t q g h)

  dispatch_message-Rooted :
      (d : Direction) (phase : Phase) (fresh : String) (m : Message) (q : TransferQueue)
      → Rooted q
      → Rooted (dispatch_message d phase fresh m q)
  unfolding dispatch_message unidentified lose_at
  dispatch_message-Rooted d phase fresh m q h =
      if_split Rooted (is_upload d && is_empty m.transfer_id)
        (λ _.
          if_split Rooted (ends_transfer phase)
            (λ _.
              with_first_cases Rooted (lose_at m.connection_id) (is_dispatched m.connection_id) q h
                λ i t g _. with_tasks-Rooted q _ refl (set-straight q.tasks i t _ g refl h.tasks) h)
            (λ _. h))
        (λ _. elim (Option-cases (find_index (is_named m.connection_id d m.transfer_id) q.tasks)) [
          | inl e ↦ rw e (unknown_transfer-Rooted d phase fresh m q h)
          | inr (i, e) ↦ rw e (elim (Option-cases (get_elem? q.tasks i)) [
            | inl f ↦ rw f h
            | inr (t, f) ↦ rw f (apply_at-Rooted d phase m i t q f h)
          ])
        ])

  pub handle_message-Rooted :
      (fresh : String) (m : Message) (q : TransferQueue)
      → Rooted q
      → Rooted (handle_message fresh m q)
  unfolding handle_message
  handle_message-Rooted fresh m q h =
      if_split Rooted (not (has_key m.connection_id q.sessions)) (λ _. h)
        λ _. elim (Option-cases (kind_of m.type_name)) [
          | inl e ↦ rw e h
          | inr ((d, phase), e) ↦ rw e (
              if_split Rooted (is_retired d m q) (λ _. h)
                (λ _. dispatch_message-Rooted d phase fresh m q h))
        ]
