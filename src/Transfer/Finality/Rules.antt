-- ===== src/Transfer/Finality/Rules.antt =====
-- The entries of the finished tasks through the methods that write to one task.
use quick_desk.Base.{
  ℕ, zero, suc, ◌≡◌, inl, inr, true, false, ◌||◌, String, List, [], ◌∷◌, map, some, str_eq, arith,
  string_eq, if_split, get_elem?, set, set_cases,
}
use quick_desk.Transfer.Data.{
  Task, Status, TransferQueue, Files, terminal, is_queued, cancelled, changed,
}
use quick_desk.Transfer.Sessions.{emit, disconnect}
use quick_desk.Transfer.Uploads.{pump_tasks}
use quick_desk.Transfer.Cancel.{
  finish, send_cancel, cancel_at, ask_cancel, not_cancellable, is_cancelling, time_out_at,
}

-- Every finished entry of the first list is the same entry of the second.
abbrev pub Keeps : List Task → List Task → Type 0
Keeps ts us =
    (i : ℕ) (t : Task)
    → terminal t.status ≡ true
    → get_elem? ts i ≡ some t
    → get_elem? us i ≡ some t

-- The finished entries of a queue stand in another.
abbrev pub KeepsFinished : TransferQueue → TransferQueue → Type 0
KeepsFinished q r = Keeps q.tasks r.tasks

pub Keeps-refl : (ts : List Task) → Keeps ts ts
Keeps-refl ts i t e h = h

-- A write over an unfinished task.
pub Keeps-set :
    (ts : List Task) (i : ℕ) (old u : Task)
    → get_elem? ts i ≡ some old
    → terminal old.status ≡ false
    → Keeps ts (set ts i u)
Keeps-set ts i old u g n j t e h = elim (set_cases ts i j u) [
  | inl same ↦ rw same h
  | inr at ↦ absurd (ground arith)
]

pub Keeps-disconnect : (c : String) (ts : List Task) → Keeps ts (map (disconnect c) ts)
Keeps-disconnect c [] i t e h = ground arith
Keeps-disconnect c (u ∷ ts) zero t e h = ground arith
Keeps-disconnect c (u ∷ ts) (suc i) t e h = Keeps-disconnect c ts i t e h

pub Keeps-pump : (fs : Files) (c : String) (ts : List Task) → Keeps ts (pump_tasks fs c ts).0
unfolding pump_tasks
Keeps-pump fs c [] i t e h = ground arith
Keeps-pump fs c (u ∷ ts) zero t e h = ground arith
Keeps-pump fs c (u ∷ ts) (suc i) t e h = ground (arith, Keeps-pump fs c ts i t e h)

pub Keeps-finish :
    (i : ℕ) (old t : Task) (s : Status) (text : String) (q : TransferQueue)
    → get_elem? q.tasks i ≡ some old
    → terminal old.status ≡ false
    → Keeps q.tasks (finish i t s text q).tasks
unfolding finish
Keeps-finish i old t s text q g n =
    if_split (KeepsFinished q) (terminal t.status) (λ _. Keeps-set q.tasks i old t g n)
      (λ _. Keeps-set q.tasks i old _ g n)

pub Keeps-send_cancel :
    (i : ℕ) (old t : Task) (q : TransferQueue)
    → get_elem? q.tasks i ≡ some old
    → terminal old.status ≡ false
    → Keeps q.tasks (send_cancel i t q).tasks
unfolding send_cancel
Keeps-send_cancel i old t q g n =
    if_split (KeepsFinished q) (str_eq t.transfer_id "" || t.cancel_sent)
      (λ _. Keeps-set q.tasks i old t g n) (λ _. Keeps-set q.tasks i old _ g n)

pub Keeps-cancel_at :
    (q : TransferQueue) (i : ℕ) (t : Task)
    → get_elem? q.tasks i ≡ some t
    → KeepsFinished q (cancel_at i t q)
unfolding cancel_at
Keeps-cancel_at q i t g =
    if_split (KeepsFinished q) (not_cancellable t.status) (λ _. Keeps-refl q.tasks)
      λ a.
        if_split (KeepsFinished q) (is_queued t.status)
          (λ _. Keeps-finish i t t cancelled _ q g (ground arith))
          (λ _. Keeps-send_cancel i t (ask_cancel t) (emit changed q) g (ground arith))

pub Keeps-time_out_at :
    (q : TransferQueue) (i : ℕ) (t : Task)
    → get_elem? q.tasks i ≡ some t
    → KeepsFinished q (time_out_at i t q)
unfolding time_out_at
Keeps-time_out_at q i t g =
    if_split (KeepsFinished q) (is_cancelling t.status)
      (λ a. Keeps-set q.tasks i t _ g (ground arith)) (λ _. Keeps-refl q.tasks)
