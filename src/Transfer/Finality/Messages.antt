-- ===== src/Transfer/Finality/Messages.antt =====
-- The entries of the finished tasks through a native message.
use quick_desk.Base.{
  ℕ, ◌≡◌, inl, inr, Bool, true, false, not, ◌&&◌, String, [], ◌∷◌, ◌++◌, some, str_eq, arith,
  string_eq, Option-cases, if_split, get_elem?, find_index, is_some, get_elem?-append,
  find_index-holds,
}
use quick_desk.Base.Dict.{has_key, lookup}
use quick_desk.Transfer.Data.{
  Direction, upload, download, Task, TransferQueue, Message, terminal, is_upload, is_dispatched,
  complete, error, changed,
}
use quick_desk.Transfer.Sessions.{emit}
use quick_desk.Transfer.Messages.{
  Phase, started, progress, complete_phase, error_phase, kind_of, lose_at, unidentified, is_named,
  awaits_id, start_download, apply_at, report_missing, adopt_at, unknown_transfer, dispatch_message,
  is_retired, handle_message, ends_transfer,
}
use quick_desk.Transfer.Searches.{with_first_cases}
use quick_desk.Transfer.Finality.Rules.{
  Keeps, Keeps-finish, Keeps-send_cancel, Keeps-set, KeepsFinished, Keeps-refl,
}

pub Keeps-apply_at :
    (d : Direction) (phase : Phase) (m : Message) (q : TransferQueue) (i : ℕ) (t : Task)
    → get_elem? q.tasks i ≡ some t
    → terminal t.status ≡ false
    → KeepsFinished q (apply_at d phase m i t q)
unfolding apply_at
Keeps-apply_at d started m q i t g n = Keeps-set q.tasks i t _ g n
Keeps-apply_at d progress m q i t g n =
    if_split (KeepsFinished q) t.cancel_requested
      (λ _. Keeps-send_cancel i t _ (emit changed q) g n) (λ _. Keeps-set q.tasks i t _ g n)
Keeps-apply_at d complete_phase m q i t g n = Keeps-finish i t _ complete _ q g n
Keeps-apply_at d error_phase m q i t g n = Keeps-finish i t _ error _ q g n

pub Keeps-append : (q : TransferQueue) (t : Task) → Keeps q.tasks (q.tasks ++ t ∷ [])
Keeps-append q t i u e h = get_elem?-append q.tasks (t ∷ []) i u h

pub Keeps-start_download :
    (fresh : String) (m : Message) (q : TransferQueue) → KeepsFinished q (start_download fresh m q)
unfolding start_download
Keeps-start_download fresh m q =
    if_split (KeepsFinished q) (str_eq m.transfer_id "") (λ _. Keeps-refl q.tasks)
      λ _. elim (Option-cases (lookup m.connection_id q.download_roots)) [
        | inl e ↦ rw e (Keeps-refl q.tasks)
        | inr (root, e) ↦ rw e (Keeps-append q _)
      ]

pub Keeps-report_missing :
    (d : Direction) (phase : Phase) (m : Message) (q : TransferQueue)
    → KeepsFinished q (report_missing d phase m q)
unfolding report_missing
Keeps-report_missing download error_phase m q =
    if_split (KeepsFinished q) (is_some (lookup m.connection_id q.download_roots))
      (λ _. Keeps-refl q.tasks) (λ _. Keeps-refl q.tasks)
Keeps-report_missing _ _ m q = Keeps-refl q.tasks

pub Keeps-adopt_at :
    (phase : Phase) (m : Message) (q : TransferQueue) (i : ℕ) (t : Task)
    → get_elem? q.tasks i ≡ some t
    → awaits_id m.connection_id t ≡ true
    → KeepsFinished q (adopt_at phase m i t q)
unfolding adopt_at
Keeps-adopt_at phase m q i t g e =
    if_split (KeepsFinished q) (not (str_eq m.filename "") && not (str_eq m.filename t.filename))
      (λ _. Keeps-refl q.tasks) (λ _. Keeps-apply_at upload phase m q i t g (ground arith))

pub Keeps-unknown_transfer :
    (d : Direction) (phase : Phase) (fresh : String) (m : Message) (q : TransferQueue)
    → KeepsFinished q (unknown_transfer d phase fresh m q)
unfolding unknown_transfer
Keeps-unknown_transfer download started fresh m q = Keeps-start_download fresh m q
Keeps-unknown_transfer download phase fresh m q = Keeps-report_missing download phase m q
Keeps-unknown_transfer upload phase fresh m q =
    with_first_cases (KeepsFinished q) (adopt_at phase m) (awaits_id m.connection_id) q
      (Keeps-refl q.tasks) (Keeps-adopt_at phase m q)

pub Keeps-unidentified :
    (c : String) (phase : Phase) (q : TransferQueue) → KeepsFinished q (unidentified c phase q)
unfolding unidentified lose_at
Keeps-unidentified c phase q =
    if_split (KeepsFinished q) (ends_transfer phase)
      (λ _.
        with_first_cases (KeepsFinished q) (lose_at c) (is_dispatched c) q (Keeps-refl q.tasks)
          λ i t g e. Keeps-set q.tasks i t _ g (ground arith))
      (λ _. Keeps-refl q.tasks)

pub Keeps-dispatch_message :
    (d : Direction) (phase : Phase) (fresh : String) (m : Message) (q : TransferQueue)
    → KeepsFinished q (dispatch_message d phase fresh m q)
unfolding dispatch_message
Keeps-dispatch_message d phase fresh m q =
    if_split (KeepsFinished q) (is_upload d && str_eq m.transfer_id "")
      (λ _. Keeps-unidentified m.connection_id phase q)
      λ _. elim (Option-cases (find_index named q.tasks)) [
        | inl e ↦ rw e (Keeps-unknown_transfer d phase fresh m q)
        | inr (i, e) ↦ rw e (elim (Option-cases (get_elem? q.tasks i)) [
          | inl f ↦ rw f (Keeps-refl q.tasks)
          | inr (t, f) ↦
              let hit : named t ≡ true = find_index-holds named q.tasks i t e f in
              rw f (Keeps-apply_at d phase m q i t f (ground arith))
        ])
      ]
  where
    named : Task → Bool
    named = is_named m.connection_id d m.transfer_id

pub Keeps-handle_message :
    (fresh : String) (m : Message) (q : TransferQueue) → KeepsFinished q (handle_message fresh m q)
unfolding handle_message
Keeps-handle_message fresh m q =
    if_split (KeepsFinished q) (not (has_key m.connection_id q.sessions)) (λ _. Keeps-refl q.tasks)
      λ _. elim (Option-cases (kind_of m.type_name)) [
        | inl e ↦ rw e (Keeps-refl q.tasks)
        | inr ((d, phase), e) ↦ rw e (
            if_split (KeepsFinished q) (is_retired d m q) (λ _. Keeps-refl q.tasks)
              (λ _. Keeps-dispatch_message d phase fresh m q))
      ]
