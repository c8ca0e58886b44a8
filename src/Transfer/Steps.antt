-- ===== src/Transfer/Steps.antt =====
-- FileTransferQueue as a machine: the public methods, the native messages, and the event loop
-- that fires a pending timer. The environment chooses; file facts and fresh identifiers come
-- with each call.
use quick_desk.Base.{ℕ, zero, suc, Bool, String, List, [], ◌∷◌, none, some, get_elem?}
use quick_desk.Transfer.Data.{
  Timer, pump_later, prune_later, timeout_later, TransferQueue, Url, Files, Message,
}
use quick_desk.Transfer.Sessions.{
  begin_session, end_session, reconcile_session, clear_completed, prune, end_all_sessions,
}
use quick_desk.Transfer.Uploads.{pump, enqueue_upload, register_download}
use quick_desk.Transfer.Cancel.{cancel, cancellation_timed_out}
use quick_desk.Transfer.Messages.{handle_message}

pub data Call : Type 0 where
  begins : String → String → Call
  ends : String → Call
  reconciles : String → String → Bool → Bool → Call
  ends_all : Call
  clears : Call
  enqueues : Files → String → String → Url → Call
  registers : Files → String → String → Call
  receives : String → Message → Call
  cancels : String → Call
  times_out : String → Call
  fires : Files → ℕ → Call

-- The i-th pending timer leaves the list.
abbrev pub drop_at : ℕ → List Timer → List Timer
drop_at i [] = []
drop_at zero (t ∷ ts) = ts
drop_at (suc i) (t ∷ ts) = t ∷ drop_at i ts

unfoldable pub run_timer : Files → Timer → TransferQueue → TransferQueue
run_timer fs (pump_later c) q = pump fs c q
run_timer fs prune_later q = prune q
run_timer fs (timeout_later id) q = cancellation_timed_out id q

unfoldable pub fire : Files → ℕ → TransferQueue → TransferQueue
fire fs i q = elim (get_elem? q.timers i) [
  | none ↦ q
  | some t ↦ run_timer fs t (record q { timers = drop_at i q.timers })
]

unfoldable pub step : Call → TransferQueue → TransferQueue
unfolding fire run_timer
step (begins c device) q = begin_session c device q
step (ends c) q = end_session c q
step (reconciles c device connected terminated) q =
    reconcile_session c device connected terminated q
step ends_all q = end_all_sessions q
step clears q = clear_completed q
step (enqueues fs fresh c url) q = (enqueue_upload fs fresh c url q).0
step (registers fs c dir) q = register_download fs c dir q
step (receives fresh m) q = handle_message fresh m q
step (cancels id) q = cancel id q
step (times_out id) q = cancellation_timed_out id q
step (fires fs i) q = fire fs i q

unfoldable pub run : List Call → TransferQueue → TransferQueue
run [] q = q
run (c ∷ cs) q = run cs (step c q)
