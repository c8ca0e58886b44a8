-- ===== src/Transfer/Finality/Steps.antt =====
-- The entries of the finished tasks through every step.
use quick_desk.Base.{
  ℕ, ◌≡◌, inl, inr, Bool, true, false, not, ◌&&◌, ◌||◌, String, List, [], ◌∷◌, some, none, str_eq,
  string_eq, Option-cases, if_split, get_elem?, any, leb,
}
use quick_desk.Base.Dict.{has_key, contains, keys}
use quick_desk.Base.Count.{count}
use quick_desk.Transfer.Data.{
  Timer, pump_later, prune_later, timeout_later, TransferQueue, Files, Url, is_dispatched, is_live,
  is_pending, has_path,
}
use quick_desk.Transfer.Sessions.{
  begin_session, end_session, reconcile_session, clear_completed, end_sessions, end_all_sessions,
}
use quick_desk.Transfer.Uploads.{
  usable, pump, new_upload, device_of, enqueue_upload, register_download,
}
use quick_desk.Transfer.Cancel.{cancel_at, cancel, task_index, time_out_at, cancellation_timed_out}
use quick_desk.Transfer.Steps.{
  Call, begins, ends, reconciles, ends_all, clears, enqueues, registers, receives, cancels,
  times_out, fires, run_timer, fire, step, drop_at,
}
use quick_desk.Transfer.Searches.{at_index_cases}
use quick_desk.Transfer.Finality.Rules.{
  Keeps-cancel_at, Keeps-disconnect, Keeps-pump, Keeps-time_out_at, KeepsFinished, Keeps-refl,
}
use quick_desk.Transfer.Finality.Messages.{Keeps-append, Keeps-handle_message}

Keeps-begin_session : (c d : String) (q : TransferQueue) → KeepsFinished q (begin_session c d q)
unfolding begin_session
Keeps-begin_session c d q =
    if_split (KeepsFinished q) (not (str_eq c "") && not (contains c q.retired_connections))
      (λ _. Keeps-refl q.tasks) (λ _. Keeps-refl q.tasks)

Keeps-end_session : (c : String) (q : TransferQueue) → KeepsFinished q (end_session c q)
unfolding end_session
Keeps-end_session c q =
    if_split (KeepsFinished q) (str_eq c "") (λ _. Keeps-refl q.tasks)
      λ _.
        if_split (KeepsFinished q) (any (is_live c) q.tasks) (λ _. Keeps-disconnect c q.tasks)
          (λ _. Keeps-disconnect c q.tasks)

Keeps-reconcile_session :
    (c d : String) (a b : Bool) (q : TransferQueue) → KeepsFinished q (reconcile_session c d a b q)
unfolding reconcile_session
Keeps-reconcile_session c d a b q =
    if_split (KeepsFinished q) (b || (not a && has_key c q.sessions)) (λ _. Keeps-end_session c q)
      λ _. if_split (KeepsFinished q) a (λ _. Keeps-begin_session c d q) (λ _. Keeps-refl q.tasks)

Keeps-end_sessions : (cs : List String) (q : TransferQueue) → KeepsFinished q (end_sessions cs q)
unfolding end_sessions
Keeps-end_sessions [] q = Keeps-refl q.tasks
Keeps-end_sessions (c ∷ cs) q =
    λ i t e h. Keeps-end_sessions cs (end_session c q) i t e (Keeps-end_session c q i t e h)

Keeps-pump_call : (fs : Files) (c : String) (q : TransferQueue) → KeepsFinished q (pump fs c q)
unfolding pump
Keeps-pump_call fs c q =
    if_split (KeepsFinished q) (not (has_key c q.sessions) || contains c q.blocked_uploads)
      (λ _. Keeps-refl q.tasks)
      λ _.
        if_split (KeepsFinished q) (any (is_dispatched c) q.tasks) (λ _. Keeps-refl q.tasks)
          (λ _. Keeps-pump fs c q.tasks)

Keeps-enqueue_upload :
    (fs : Files) (fresh c : String) (url : Url) (q : TransferQueue)
    → KeepsFinished q (enqueue_upload fs fresh c url q).0
unfolding enqueue_upload
Keeps-enqueue_upload fs fresh c url q =
    if_split Kept (not (has_key c q.sessions)) (λ _. Keeps-refl q.tasks)
      λ _.
        if_split Kept (not url.is_local_file || not (usable fs f)) (λ _. Keeps-refl q.tasks)
          λ _.
            if_split Kept (any (has_path c (fs.canonical_file_path f)) q.tasks)
              (λ _. Keeps-refl q.tasks)
              λ _.
                if_split Kept (leb 256 (count (is_pending c) q.tasks)) (λ _. Keeps-refl q.tasks)
                  λ _ i t e h.
                    Keeps-pump_call fs c _ i t e
                      (Keeps-append q (new_upload fs fresh c (device_of c q) f) i t e h)
  where
    f : String
    f = url.local_file

    Kept : TransferQueue × Bool → Type 0
    Kept r = KeepsFinished q r.0

Keeps-register_download :
    (fs : Files) (c dir : String) (q : TransferQueue)
    → KeepsFinished q (register_download fs c dir q)
unfolding register_download
Keeps-register_download fs c dir q =
    if_split (KeepsFinished q) (has_key c q.sessions) (λ _. Keeps-refl q.tasks)
      (λ _. Keeps-refl q.tasks)

Keeps-cancel : (id : String) (q : TransferQueue) → KeepsFinished q (cancel id q)
unfolding cancel
Keeps-cancel id q =
    at_index_cases (KeepsFinished q) cancel_at (task_index id q.tasks) q (Keeps-refl q.tasks)
      λ i t _. Keeps-cancel_at q i t

Keeps-time_out : (id : String) (q : TransferQueue) → KeepsFinished q (cancellation_timed_out id q)
unfolding cancellation_timed_out
Keeps-time_out id q =
    at_index_cases (KeepsFinished q) time_out_at (task_index id q.tasks) q (Keeps-refl q.tasks)
      λ i t _. Keeps-time_out_at q i t

-- The deferred pruning, which drops the finished tasks.
abbrev pub is_prune : Timer → Bool
is_prune prune_later = true
is_prune _ = false

-- Whether a call fires the deferred pruning.
abbrev pub prunes : Call → TransferQueue → Bool
prunes (fires fs i) q = elim (get_elem? q.timers i) [ none ↦ false | some t ↦ is_prune t ]
prunes _ q = false

Keeps-run_timer :
    (fs : Files) (t : Timer) (q : TransferQueue)
    → is_prune t ≡ false
    → KeepsFinished q (run_timer fs t q)
unfolding run_timer
Keeps-run_timer fs (pump_later c) q n = Keeps-pump_call fs c q
Keeps-run_timer fs prune_later q n = cc
Keeps-run_timer fs (timeout_later id) q n = Keeps-time_out id q

Keeps-fire :
    (fs : Files) (i : ℕ) (q : TransferQueue)
    → prunes (fires fs i) q ≡ false
    → KeepsFinished q (fire fs i q)
unfolding fire
Keeps-fire fs i q n = elim (Option-cases (get_elem? q.timers i)) [
  | inl e ↦ rw (e, fire) (Keeps-refl q.tasks)
  | inr (t, e) ↦
      rw (e, fire)
        (Keeps-run_timer fs t (record q { timers = drop_at i q.timers }) (rw (e, prunes) at n))
]

-- Every step but the deferred pruning leaves each finished task in its place, with the same
-- status, error, path and progress.
pub step-KeepsFinished :
    (c : Call) (q : TransferQueue) → prunes c q ≡ false → KeepsFinished q (step c q)
unfolding step clear_completed end_all_sessions
step-KeepsFinished (begins c d) q n = Keeps-begin_session c d q
step-KeepsFinished (ends c) q n = Keeps-end_session c q
step-KeepsFinished (reconciles c d a b) q n = Keeps-reconcile_session c d a b q
step-KeepsFinished ends_all q n = Keeps-end_sessions (keys q.sessions) q
step-KeepsFinished clears q n = Keeps-refl q.tasks
step-KeepsFinished (enqueues fs fresh c url) q n = Keeps-enqueue_upload fs fresh c url q
step-KeepsFinished (registers fs c dir) q n = Keeps-register_download fs c dir q
step-KeepsFinished (receives fresh m) q n = Keeps-handle_message fresh m q
step-KeepsFinished (cancels id) q n = Keeps-cancel id q
step-KeepsFinished (times_out id) q n = Keeps-time_out id q
step-KeepsFinished (fires fs i) q n = Keeps-fire fs i q n
