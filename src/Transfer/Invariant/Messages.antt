-- ===== src/Transfer/Invariant/Messages.antt =====
-- The invariant of the transfer queue through a native message.
use quick_desk.Base.{
  ℕ, ◌≡◌, refl, inl, inr, true, false, not, ◌&&◌, String, some, str_eq, arith, string_eq,
  Option-cases, if_split, get_elem?, find_index, find_index-some, is_some,
}
use quick_desk.Base.Dict.{has_key, lookup}
use quick_desk.Transfer.Data.{
  Direction, upload, download, Task, TransferQueue, Message, terminal, is_queued, is_dispatched,
  complete, error, is_upload, changed,
}
use quick_desk.Transfer.Sessions.{emit, store}
use quick_desk.Transfer.Uploads.{device_of}
use quick_desk.Transfer.Messages.{
  Phase, started, progress, complete_phase, error_phase, kind_of, lose_at, unidentified, is_named,
  awaits_id, start_download, apply_at, report_missing, adopt_at, unknown_transfer, dispatch_message,
  is_retired, handle_message, new_download, ends_transfer,
}
use quick_desk.Transfer.Searches.{with_first_cases}
use quick_desk.Transfer.Invariant.Store.{IsSound, store-IsSound, append-IsSound}
use quick_desk.Transfer.Invariant.Sessions.{reframe}
use quick_desk.Transfer.Invariant.Tasks.{finish-IsSound, send_cancel-IsSound}

module _ (q : TransferQueue) (v : IsSound q) where
  lose_at-IsSound :
      (c : String) (i : ℕ) (t : Task)
      → get_elem? q.tasks i ≡ some t
      → is_dispatched c t ≡ true
      → IsSound (lose_at c i t q)
  unfolding lose_at
  lose_at-IsSound c i t h e =
      reframe (store i _ q) _
        (store-IsSound q i t _ v h (refl, refl, refl, ground arith, inl (ground arith))) refl refl
        refl

  apply_at-IsSound :
      (d : Direction) (phase : Phase) (m : Message) (i : ℕ) (t : Task)
      → get_elem? q.tasks i ≡ some t
      → terminal t.status ≡ false
      → is_queued t.status ≡ false
      → IsSound (apply_at d phase m i t q)
  unfolding apply_at
  apply_at-IsSound d started m i t h n e = store-IsSound q i t _ v h (refl, refl, refl, n, inl e)
  apply_at-IsSound d progress m i t h n e =
      if_split IsSound t.cancel_requested
        (λ _.
          send_cancel-IsSound (emit changed q) (reframe q _ v refl refl refl) i t _ h
            (refl, refl, refl, n, inl e))
        (λ _.
          reframe (store i _ q) _ (store-IsSound q i t _ v h (refl, refl, refl, n, inl e)) refl refl
            refl)
  apply_at-IsSound d complete_phase m i t h n e =
      finish-IsSound q v i t _ complete _ h refl refl refl refl n refl
  apply_at-IsSound d error_phase m i t h n e =
      finish-IsSound q v i t _ error _ h refl refl refl refl n refl

  start_download-IsSound :
      (fresh : String) (m : Message)
      → has_key m.connection_id q.sessions ≡ true
      → IsSound (start_download fresh m q)
  unfolding start_download
  start_download-IsSound fresh m s =
      if_split IsSound (str_eq m.transfer_id "") (λ _. v)
        λ _. elim (Option-cases (lookup m.connection_id q.download_roots)) [
          | inl e ↦ rw e v
          | inr (root, e) ↦ rw e (
              reframe _ _
                (append-IsSound q (new_download fresh (device_of m.connection_id q) root m) v s
                  (ground arith) (ground (arith, v.bounded m.connection_id))
                  (ground (arith, v.distinct m.connection_id "")))
                refl refl refl)
        ]

  report_missing-IsSound :
      (d : Direction) (phase : Phase) (m : Message) → IsSound (report_missing d phase m q)
  unfolding report_missing
  report_missing-IsSound download error_phase m =
      if_split IsSound (is_some (lookup m.connection_id q.download_roots))
        (λ _. reframe q _ v refl refl refl) (λ _. v)
  report_missing-IsSound download started m = v
  report_missing-IsSound _ _ m = v

  adopt_at-IsSound :
      (phase : Phase) (m : Message) (i : ℕ) (t : Task)
      → get_elem? q.tasks i ≡ some t
      → awaits_id m.connection_id t ≡ true
      → IsSound (adopt_at phase m i t q)
  unfolding adopt_at
  adopt_at-IsSound phase m i t h e =
      if_split IsSound (not (str_eq m.filename "") && not (str_eq m.filename t.filename)) (λ _. v)
        (λ _. apply_at-IsSound upload phase m i t h (ground arith) (ground arith))

  unknown_transfer-IsSound :
      (d : Direction) (phase : Phase) (fresh : String) (m : Message)
      → has_key m.connection_id q.sessions ≡ true
      → IsSound (unknown_transfer d phase fresh m q)
  unfolding unknown_transfer
  unknown_transfer-IsSound download started fresh m s = start_download-IsSound fresh m s
  unknown_transfer-IsSound download phase fresh m s = report_missing-IsSound download phase m
  unknown_transfer-IsSound upload phase fresh m s =
      with_first_cases IsSound (adopt_at phase m) (awaits_id m.connection_id) q v
        (adopt_at-IsSound phase m)

  unidentified-IsSound : (c : String) (phase : Phase) → IsSound (unidentified c phase q)
  unfolding unidentified
  unidentified-IsSound c phase =
      if_split IsSound (ends_transfer phase)
        (λ _. with_first_cases IsSound (lose_at c) (is_dispatched c) q v (lose_at-IsSound c))
        (λ _. v)

  dispatch_message-IsSound :
      (d : Direction) (phase : Phase) (fresh : String) (m : Message)
      → has_key m.connection_id q.sessions ≡ true
      → IsSound (dispatch_message d phase fresh m q)
  unfolding dispatch_message
  dispatch_message-IsSound d phase fresh m s =
      if_split IsSound (is_upload d && str_eq m.transfer_id "")
        (λ _. unidentified-IsSound m.connection_id phase)
        λ _. elim (Option-cases (find_index (is_named m.connection_id d m.transfer_id) q.tasks)) [
          | inl e ↦ rw e (unknown_transfer-IsSound d phase fresh m s)
          | inr (i, e) ↦
              let (t, f, w) =
                find_index-some (is_named m.connection_id d m.transfer_id) q.tasks i e in
              rw (e, f) (apply_at-IsSound d phase m i t f (ground arith) (ground arith))
        ]

pub handle_message-IsSound :
    (fresh : String) (m : Message) (q : TransferQueue)
    → IsSound q
    → IsSound (handle_message fresh m q)
unfolding handle_message
handle_message-IsSound fresh m q v =
    if_split IsSound (not (has_key m.connection_id q.sessions)) (λ _. v)
      λ s. elim (Option-cases (kind_of m.type_name)) [
        | inl e ↦ rw e v
        | inr ((d, phase), e) ↦ rw e (
            if_split IsSound (is_retired d m q) (λ _. v)
              (λ _. dispatch_message-IsSound q v d phase fresh m (ground arith)))
      ]
