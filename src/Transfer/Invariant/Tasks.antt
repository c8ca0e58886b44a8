-- ===== src/Transfer/Invariant/Tasks.antt =====
-- The invariant of the transfer queue through the methods that change one task.
use quick_desk.Base.{
  ℕ, ◌≡◌, refl, inl, inr, true, false, ◌||◌, String, some, str_eq, arith, string_eq, if_split,
  get_elem?,
}
use quick_desk.Transfer.Data.{Task, Status, TransferQueue, terminal, is_queued, cancelled, changed}
use quick_desk.Transfer.Sessions.{emit, store}
use quick_desk.Transfer.Cancel.{
  finish, send_cancel, cancel_at, cancel, task_index, time_out_at, is_cancelling, not_cancellable,
  ask_cancel, cancellation_timed_out,
}
use quick_desk.Transfer.Searches.{at_index_cases}
use quick_desk.Transfer.Invariant.Store.{IsSound, Shrinks, store-IsSound}
use quick_desk.Transfer.Invariant.Sessions.{reframe}

module _ (q : TransferQueue) (v : IsSound q) where
  -- `finish` on an edited copy of the task that stands at the index.
  pub finish-IsSound :
      (i : ℕ) (old t : Task) (s : Status) (text : String)
      → get_elem? q.tasks i ≡ some old
      → t.connection_id ≡ old.connection_id
      → t.direction ≡ old.direction
      → t.path ≡ old.path
      → t.status ≡ old.status
      → terminal old.status ≡ false
      → terminal s ≡ true
      → IsSound (finish i t s text q)
  unfolding finish
  finish-IsSound i old t s text h a b g c n d =
      if_split IsSound (terminal t.status) (λ e. absurd (ground arith))
        λ _.
          reframe (store i _ q) _ (store-IsSound q i old _ v h (a, b, g, n, inr d)) refl refl refl

  pub send_cancel-IsSound :
      (i : ℕ) (old t : Task)
      → get_elem? q.tasks i ≡ some old
      → Shrinks old t
      → IsSound (send_cancel i t q)
  unfolding send_cancel
  send_cancel-IsSound i old t h s =
      if_split IsSound (str_eq t.transfer_id "" || t.cancel_sent)
        (λ _. store-IsSound q i old t v h s)
        λ _.
          reframe (store i _ q) _ (store-IsSound q i old (record t { cancel_sent = true }) v h s)
            refl refl refl

pub cancel_at-IsSound :
    (q : TransferQueue)
    → IsSound q
    → (i : ℕ) (t : Task) → get_elem? q.tasks i ≡ some t
    → IsSound (cancel_at i t q)
unfolding cancel_at
cancel_at-IsSound q v i t h =
    if_split IsSound (not_cancellable t.status) (λ _. v)
      λ a.
        if_split IsSound (is_queued t.status)
          (λ b. finish-IsSound q v i t t cancelled _ h refl refl refl refl (ground arith) refl)
          λ b.
            reframe _ _
              (send_cancel-IsSound (emit changed q) (reframe q _ v refl refl refl) i t
                (ask_cancel t) h (refl, refl, refl, ground arith, inl b))
              refl refl refl

pub cancel-IsSound : (id : String) (q : TransferQueue) → IsSound q → IsSound (cancel id q)
unfolding cancel
cancel-IsSound id q v =
    at_index_cases IsSound cancel_at (task_index id q.tasks) q v λ i t _. cancel_at-IsSound q v i t

time_out_at-IsSound :
    (q : TransferQueue)
    → IsSound q
    → (i : ℕ) (t : Task) → get_elem? q.tasks i ≡ some t
    → IsSound (time_out_at i t q)
unfolding time_out_at
time_out_at-IsSound q v i t h =
    if_split IsSound (is_cancelling t.status)
      (λ a.
        reframe (store i _ q) _
          (store-IsSound q i t _ v h (refl, refl, refl, ground arith, inl (ground arith))) refl refl
          refl)
      (λ _. v)

pub cancellation_timed_out-IsSound :
    (id : String) (q : TransferQueue) → IsSound q → IsSound (cancellation_timed_out id q)
unfolding cancellation_timed_out
cancellation_timed_out-IsSound id q v =
    at_index_cases IsSound time_out_at (task_index id q.tasks) q v
      λ i t _. time_out_at-IsSound q v i t
