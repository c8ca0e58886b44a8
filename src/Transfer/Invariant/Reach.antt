-- ===== src/Transfer/Invariant/Reach.antt =====
-- The invariant of the transfer queue over histories of calls, messages and timers.
use quick_desk.Base.{ℕ, arith, refl, List, [], ◌∷◌, inl, inr, Option-cases, get_elem?}
use quick_desk.Transfer.Data.{Timer, pump_later, prune_later, timeout_later, TransferQueue, Files}
use quick_desk.Transfer.Sessions.{init, clear_completed}
use quick_desk.Transfer.Steps.{
  Call, begins, ends, reconciles, ends_all, clears, enqueues, registers, receives, cancels,
  times_out, fires, run_timer, fire, step, run,
}
use quick_desk.Base.Count.{count}
use quick_desk.Base.Dict.{has_key, contains}
use quick_desk.Transfer.Invariant.Store.{IsSound}
use quick_desk.Transfer.Invariant.Sessions.{
  reframe, begin_session-IsSound, end_session-IsSound, reconcile_session-IsSound,
  end_all_sessions-IsSound, prune-IsSound,
}
use quick_desk.Transfer.Invariant.Uploads.{
  pump-IsSound, enqueue_upload-IsSound, register_download-IsSound,
}
use quick_desk.Transfer.Invariant.Tasks.{cancel-IsSound, cancellation_timed_out-IsSound}
use quick_desk.Transfer.Invariant.Messages.{handle_message-IsSound}

run_timer-IsSound :
    (fs : Files) (t : Timer) (q : TransferQueue) → IsSound q → IsSound (run_timer fs t q)
unfolding run_timer
run_timer-IsSound fs (pump_later c) q v = pump-IsSound fs c q v
run_timer-IsSound fs prune_later q v = prune-IsSound q v
run_timer-IsSound fs (timeout_later id) q v = cancellation_timed_out-IsSound id q v

fire-IsSound : (fs : Files) (i : ℕ) (q : TransferQueue) → IsSound q → IsSound (fire fs i q)
unfolding fire
fire-IsSound fs i q v = elim (Option-cases (get_elem? q.timers i)) [
  | inl e ↦ rw (e, fire) v
  | inr (t, e) ↦ rw (e, fire) (run_timer-IsSound fs t _ (reframe q _ v refl refl refl))
]

-- Every public method, native message and fired timer keeps the invariant of the transfer queue:
-- at most one dispatched upload, at most 256 unfinished uploads and no two of the same
-- canonical path for each connection, no unfinished task without an active session, and no active session of a retired connection.
pub step-IsSound : (c : Call) (q : TransferQueue) → IsSound q → IsSound (step c q)
unfolding step
step-IsSound (begins c d) q v = begin_session-IsSound c d q v
step-IsSound (ends c) q v = end_session-IsSound c q v
step-IsSound (reconciles c d a b) q v = reconcile_session-IsSound c d a b q v
step-IsSound ends_all q v = end_all_sessions-IsSound q v
step-IsSound clears q v = unfold clear_completed in reframe q _ v refl refl refl
step-IsSound (enqueues fs fresh c url) q v = enqueue_upload-IsSound fs fresh c url q v
step-IsSound (registers fs c dir) q v = register_download-IsSound fs c dir q v
step-IsSound (receives fresh m) q v = handle_message-IsSound fresh m q v
step-IsSound (cancels id) q v = cancel-IsSound id q v
step-IsSound (times_out id) q v = cancellation_timed_out-IsSound id q v
step-IsSound (fires fs i) q v = fire-IsSound fs i q v

init-IsSound : IsSound init
unfolding init count has_key contains
init-IsSound = record {
  one_dispatch = λ c. omega arith;
  bounded = λ c. omega arith;
  distinct = λ c p. omega arith;
  attached = λ c h. refl;
  separate = λ c h. cc;
}

pub run-IsSound : (cs : List Call) (q : TransferQueue) → IsSound q → IsSound (run cs q)
unfolding run
run-IsSound [] q v = v
run-IsSound (c ∷ cs) q v = run-IsSound cs (step c q) (step-IsSound c q v)

-- From the empty queue, after any sequence of calls, messages and timers: at most one upload of a
-- connection is dispatched and unfinished, at most 256 are unfinished, no two unfinished ones
-- have the same canonical path, an unfinished task belongs to an active session, and a connection whose session was ended has no active session.
pub run-init-IsSound : (cs : List Call) → IsSound (run cs init)
run-init-IsSound cs = run-IsSound cs init init-IsSound
