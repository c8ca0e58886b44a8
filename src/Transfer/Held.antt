-- ===== src/Transfer/Held.antt =====
-- FileTransferQueue: a connection on which no upload is started any more, through the messages.
use quick_desk.Base.{
  ℕ, is_some, ◌≡◌, refl, ◌∙◌, inl, inr, Bool, true, false, not, ◌&&◌, ◌||◌, String, List, [], ◌∷◌,
  str_eq, arith, string_eq, Option-cases, if_split, get_elem?, find_index, is_empty,
}
use quick_desk.Base.Dict.{lookup, has_key, contains, contains-add}
use quick_desk.Base.Count.{count, count-append}
use quick_desk.Transfer.Data.{
  Direction, upload, download, Task, Status, TransferQueue, Message, Files, is_upload,
  is_dispatched, complete, error, changed, terminal, Signal, start_upload, command_requested,
  notice,
}
use quick_desk.Transfer.Sessions.{emit}
use quick_desk.Transfer.Uploads.{pump_tasks}
use quick_desk.Transfer.Cancel.{cancel_command, finish, send_cancel}
use quick_desk.Transfer.Messages.{
  Phase, started, progress, complete_phase, error_phase, kind_of, lose_at, unidentified, is_named,
  start_download, apply_at, report_missing, adopt_at, awaits_id, unknown_transfer, dispatch_message,
  is_retired, handle_message, ends_transfer,
}
use quick_desk.Transfer.Searches.{with_first_cases}

-- A command that starts an upload of the connection.
abbrev pub is_start : String → Signal → Bool
is_start c (command_requested (start_upload k path)) = str_eq k c
is_start c s = false

-- How many uploads of the connection the signals say were started.
abbrev pub starts : String → TransferQueue → ℕ
starts c q = count (is_start c) q.signals

-- The connection is blocked, or its session has ended for good.
abbrev pub is_held : String → TransferQueue → Bool
is_held c q =
    contains c q.blocked_uploads || (contains c q.retired_connections && not (has_key c q.sessions))

pub emits-starts :
    (c : String) (s : Signal) (q : TransferQueue)
    → is_start c s ≡ false
    → starts c (emit s q) ≡ starts c q
unfolding count
emits-starts c s q h = ground (arith, count-append (is_start c) q.signals (s ∷ []), h)

cancel_command-quiet :
    (c : String) (t : Task) → is_start c (command_requested (cancel_command t)) ≡ false
cancel_command-quiet c t =
    if_split (λ k. is_start c (command_requested k) ≡ false) (is_upload t.direction) (λ _. refl)
      (λ _. refl)

-- The dispatch of one connection starts no upload of another.
pub pump_tasks-starts :
    (fs : Files) (k c : String) (ts : List Task)
    → str_eq k c ≡ false
    → count (is_start c) (pump_tasks fs k ts).1 ≡ 0
unfolding pump_tasks count
pump_tasks-starts fs k c [] n = refl
pump_tasks-starts fs k c (t ∷ ts) n = ground (arith, pump_tasks-starts fs k c ts n, n)

module _ (c : String) (n : ℕ) where
  -- The connection is held, and n of its uploads have been started.
  abbrev pub Held : TransferQueue → Type 0
  Held q = (is_held c q ≡ true) × (starts c q ≡ n)

  pub emit-Held : (s : Signal) (q : TransferQueue) → is_start c s ≡ false → Held q → Held (emit s q)
  emit-Held s q quiet h = (h.0, emits-starts c s q quiet ∙ h.1)

  pub finish-Held :
      (i : ℕ) (t : Task) (s : Status) (text : String) (q : TransferQueue)
      → Held q
      → Held (finish i t s text q)
  unfolding finish
  finish-Held i t s text q h =
      if_split Held (terminal t.status) (λ _. h) (λ _. emit-Held changed q refl h)

  pub send_cancel-Held : (i : ℕ) (t : Task) (q : TransferQueue) → Held q → Held (send_cancel i t q)
  unfolding send_cancel
  send_cancel-Held i t q h =
      if_split Held (is_empty t.transfer_id || t.cancel_sent) (λ _. h)
        (λ _. emit-Held (command_requested (cancel_command t)) q (cancel_command-quiet c t) h)

  apply_at-Held :
      (d : Direction) (phase : Phase) (m : Message) (i : ℕ) (t : Task) (q : TransferQueue)
      → Held q
      → Held (apply_at d phase m i t q)
  unfolding apply_at
  apply_at-Held d started m i t q h = h
  apply_at-Held d progress m i t q h =
      if_split Held t.cancel_requested
        (λ _. send_cancel-Held i _ (emit changed q) (emit-Held changed q refl h))
        (λ _. emit-Held changed q refl h)
  apply_at-Held d complete_phase m i t q h = finish-Held i _ complete _ q h
  apply_at-Held d error_phase m i t q h = finish-Held i _ error _ q h

  start_download-Held :
      (fresh : String) (m : Message) (q : TransferQueue) → Held q → Held (start_download fresh m q)
  unfolding start_download
  start_download-Held fresh m q h =
      if_split Held (is_empty m.transfer_id) (λ _. h)
        λ _. elim (Option-cases (lookup m.connection_id q.download_roots)) [
          | inl e ↦ rw e h
          | inr (root, e) ↦ rw e (emit-Held changed q refl h)
        ]

  report_missing-Held :
      (d : Direction) (phase : Phase) (m : Message) (q : TransferQueue)
      → Held q
      → Held (report_missing d phase m q)
  unfolding report_missing
  report_missing-Held download error_phase m q h =
      if_split Held (is_some (lookup m.connection_id q.download_roots))
        (λ _. emit-Held (notice _ _) q refl h) (λ _. h)
  report_missing-Held _ _ m q h = h

  unknown_transfer-Held :
      (d : Direction) (phase : Phase) (fresh : String) (m : Message) (q : TransferQueue)
      → Held q
      → Held (unknown_transfer d phase fresh m q)
  unfolding adopt_at unknown_transfer
  unknown_transfer-Held download started fresh m q h = start_download-Held fresh m q h
  unknown_transfer-Held download phase fresh m q h = report_missing-Held download phase m q h
  unknown_transfer-Held upload phase fresh m q h =
      with_first_cases Held (adopt_at phase m) (awaits_id m.connection_id) q h λ i t _ _.
        if_split Held (not (is_empty m.filename) && not (str_eq m.filename t.filename)) (λ _. h)
          (λ _. apply_at-Held upload phase m i t q h)

  lose_at-Held :
      (k : String) (i : ℕ) (t : Task) (q : TransferQueue) → Held q → Held (lose_at k i t q)
  unfolding lose_at
  lose_at-Held k i t q h =
      (ground (arith, contains-add k c q.blocked_uploads, h.0), emits-starts c changed q refl ∙ h.1)

  dispatch_message-Held :
      (d : Direction) (phase : Phase) (fresh : String) (m : Message) (q : TransferQueue)
      → Held q
      → Held (dispatch_message d phase fresh m q)
  unfolding dispatch_message unidentified
  dispatch_message-Held d phase fresh m q h =
      if_split Held (is_upload d && is_empty m.transfer_id)
        (λ _.
          if_split Held (ends_transfer phase)
            (λ _.
              with_first_cases Held (lose_at m.connection_id) (is_dispatched m.connection_id) q h
                λ i t _ _. lose_at-Held m.connection_id i t q h)
            (λ _. h))
        (λ _. elim (Option-cases (find_index (is_named m.connection_id d m.transfer_id) q.tasks)) [
          | inl e ↦ rw e (unknown_transfer-Held d phase fresh m q h)
          | inr (i, e) ↦ rw e (elim (Option-cases (get_elem? q.tasks i)) [
            | inl f ↦ rw f h
            | inr (t, f) ↦ rw f (apply_at-Held d phase m i t q h)
          ])
        ])

  pub handle_message-Held :
      (fresh : String) (m : Message) (q : TransferQueue) → Held q → Held (handle_message fresh m q)
  unfolding handle_message
  handle_message-Held fresh m q h =
      if_split Held (not (has_key m.connection_id q.sessions)) (λ _. h)
        λ _. elim (Option-cases (kind_of m.type_name)) [
          | inl e ↦ rw e h
          | inr ((d, phase), e) ↦ rw e (
              if_split Held (is_retired d m q) (λ _. h)
                (λ _. dispatch_message-Held d phase fresh m q h))
        ]
