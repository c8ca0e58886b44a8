-- ===== src/Transfer/Duplicates.antt =====
-- FileTransferQueue.handleMessage on transfers that have finished.
use quick_desk.Base.{
  Bool-cases, ℕ, ◌≡◌, refl, ap₂, subst, inl, inr, true, false, not, String, List, some, str_eq,
  arith, eq_iff, string_eq, if_split, get_elem?, find_index, any, any-find_index,
}
use quick_desk.Base.Dict.{has_key, contains, contains-add}
use quick_desk.Transfer.Data.{
  Direction, upload, download, Task, Status, TransferQueue, Message, terminal, same_direction,
  complete, error,
}
use quick_desk.Transfer.Cancel.{wire_key, finish}
use quick_desk.Transfer.Messages.{
  Phase, started, progress, complete_phase, error_phase, kind_of, is_named, apply_at,
  dispatch_message, is_retired, handle_message, ends_transfer,
}
use quick_desk.Transfer.Steps.{Call, run}
use quick_desk.Transfer.Remembered.{run-Remembers}

-- A message about a retired transfer changes nothing.
retired_ignored :
    (fresh : String) (m : Message) (q : TransferQueue) (d : Direction) (phase : Phase)
    → kind_of m.type_name ≡ some (d, phase)
    → is_retired d m q ≡ true
    → handle_message fresh m q ≡ q
unfolding handle_message
retired_ignored fresh m q d phase k r =
    if_split (λ s. s ≡ q) (not (has_key m.connection_id q.sessions)) (λ _. refl) λ _. rw (k, r) refl

finish-retires :
    (i : ℕ) (t : Task) (s : Status) (text : String) (q : TransferQueue) (id : String)
    → terminal t.status ≡ false
    → t.transfer_id ≡ id
    → str_eq id "" ≡ false
    → contains (wire_key t.connection_id t.direction id) (finish i t s text q).retired_transfers
      ≡ true
unfolding finish
finish-retires i t s text q id n a e =
    let key = wire_key t.connection_id t.direction id in
    ground (arith, contains-add key key q.retired_transfers, eq_iff key key)

same_direction-eq : (a b : Direction) → same_direction a b ≡ true → a ≡ b
same_direction-eq upload upload h = refl
same_direction-eq upload download h = cc
same_direction-eq download upload h = cc
same_direction-eq download download h = refl

apply_at-retires :
    (d : Direction) (phase : Phase) (m : Message) (i : ℕ) (t : Task) (q : TransferQueue)
    → ends_transfer phase ≡ true
    → terminal t.status ≡ false
    → str_eq m.transfer_id "" ≡ false
    → contains
        (wire_key t.connection_id t.direction m.transfer_id)
        (apply_at d phase m i t q).retired_transfers
      ≡ true
unfolding apply_at
apply_at-retires d started m i t q e n f = cc
apply_at-retires d progress m i t q e n f = cc
apply_at-retires d complete_phase m i t q e n f =
    finish-retires i _ complete _ q m.transfer_id n (rw f refl) f
apply_at-retires d error_phase m i t q e n f =
    finish-retires i _ error _ q m.transfer_id n (rw f refl) f

-- A message with an identifier goes to the task that the search finds.
dispatch_message-named :
    (fresh : String) (m : Message) (q : TransferQueue) (d : Direction) (phase : Phase) (i : ℕ)
    (t : Task)
    → str_eq m.transfer_id "" ≡ false
    → find_index (is_named m.connection_id d m.transfer_id) q.tasks ≡ some i
    → get_elem? q.tasks i ≡ some t
    → dispatch_message d phase fresh m q ≡ apply_at d phase m i t q
unfolding dispatch_message
dispatch_message-named fresh m q upload phase i t f g h = rw (f, g, h, dispatch_message) refl
dispatch_message-named fresh m q download phase i t f g h = rw (g, h, dispatch_message) refl

-- A message that ends the running transfer it names retires its identifier.
handle_message-retires :
    (fresh : String) (m : Message) (q : TransferQueue) (d : Direction) (phase : Phase)
    → kind_of m.type_name ≡ some (d, phase)
    → ends_transfer phase ≡ true
    → has_key m.connection_id q.sessions ≡ true
    → str_eq m.transfer_id "" ≡ false
    → any (is_named m.connection_id d m.transfer_id) q.tasks ≡ true
    → contains
        (wire_key m.connection_id d m.transfer_id)
        (handle_message fresh m q).retired_transfers
      ≡ true
unfolding handle_message
handle_message-retires fresh m q d phase k e s f a =
    let (i, t, g, h, p) = any-find_index (is_named m.connection_id d m.transfer_id) q.tasks a in
    let key = wire_key m.connection_id d m.transfer_id in
    elim (Bool-cases (contains key q.retired_transfers)) [
      | inl r ↦ rw (s, k, f, r, handle_message) r
      | inr r ↦
          let c : t.connection_id ≡ m.connection_id =
            ground (arith, p, eq_iff t.connection_id m.connection_id) in
          let n : terminal t.status ≡ false = ground (arith, p) in
          let w : t.direction ≡ d = same_direction-eq t.direction d (ground (arith, p)) in
          rw (s, k, f, r, handle_message, dispatch_message-named fresh m q d phase i t f g h)
            (subst (λ x. contains x (apply_at d phase m i t q).retired_transfers ≡ true)
              (ap₂ (λ x y. wire_key x y m.transfer_id) c w)
              (apply_at-retires d phase m i t q e n f))
    ]

-- A message of an active session that ends the running transfer that it names by an identifier is
-- the last one: whatever calls, messages and timers follow, no later message about the same
-- connection, direction and identifier changes anything.
pub handle_message-last :
    (fresh fresh' : String) (m m' : Message) (later : List Call) (q : TransferQueue) (d : Direction)
    (phase phase' : Phase)
    → kind_of m.type_name ≡ some (d, phase)
    → ends_transfer phase ≡ true
    → has_key m.connection_id q.sessions ≡ true
    → str_eq m.transfer_id "" ≡ false
    → any (is_named m.connection_id d m.transfer_id) q.tasks ≡ true
    → kind_of m'.type_name ≡ some (d, phase')
    → m'.connection_id ≡ m.connection_id
    → m'.transfer_id ≡ m.transfer_id
    → handle_message fresh' m' (run later (handle_message fresh m q))
      ≡ run later (handle_message fresh m q)
handle_message-last fresh fresh' m m' later q d phase phase' k e s f a k' c t =
    retired_ignored fresh' m' (run later (handle_message fresh m q)) d phase' k' (
      rw (c, t, f)
        (run-Remembers (wire_key m.connection_id d m.transfer_id) later (handle_message fresh m q)
          (handle_message-retires fresh m q d phase k e s f a)))
