-- ===== src/Transfer/Invariant/Store.antt =====
-- What every state of the transfer queue satisfies, and what a write to one task keeps.
use quick_desk.Base.{
  ◌+◌, ◌++◌, ◌∷◌, [], Bool, eq_iff, ℕ, ◌≤◌, ◌≡◌, ◌⊎◌, true, false, String, some, weight, get_elem?,
  arith, string_eq,
}
use quick_desk.Base.Dict.{has_key, contains}
use quick_desk.Base.Count.{count, count-set, count-append}
use quick_desk.Transfer.Data.{
  Task, TransferQueue, terminal, is_queued, is_live, is_pending, is_dispatched, has_path,
}
use quick_desk.Transfer.Sessions.{store}

-- At most one upload of a connection is in the hands of the native side, at most 256 wait or run,
-- no two of
-- which have the same path, a task that has not ended belongs to an active session, and a retired connection has none.
pub record IsSound (q : TransferQueue) : Type 0 where
  pub one_dispatch : (c : String) → count (is_dispatched c) q.tasks ≤ 1
  pub bounded : (c : String) → count (is_pending c) q.tasks ≤ 256
  pub distinct : (c p : String) → count (has_path c p) q.tasks ≤ 1
  pub attached : (c : String) → has_key c q.sessions ≡ false → count (is_live c) q.tasks ≡ 0
  pub separate :
      (c : String) → contains c q.retired_connections ≡ true → has_key c q.sessions ≡ false

-- A task that has not ended is replaced by one of the same connection, direction and path, which is
-- not newly dispatched.
abbrev pub Shrinks : Task → Task → Type 0
Shrinks t u =
    (u.connection_id ≡ t.connection_id)
    × (u.direction ≡ t.direction)
    × (u.path ≡ t.path)
    × (terminal t.status ≡ false)
    × ((is_queued t.status ≡ false) ⊎ (terminal u.status ≡ true))

pub Shrinks-weights :
    (c : String) (t u : Task)
    → Shrinks t u
    → (weight (is_dispatched c u) ≤ weight (is_dispatched c t))
      × (weight (is_pending c u) ≤ weight (is_pending c t))
      × (weight (is_live c u) ≤ weight (is_live c t))
      × ((p : String) → weight (has_path c p u) ≤ weight (has_path c p t))
Shrinks-weights c t u (a, b, d, n, e) =
    (ground arith, ground arith, ground arith, λ p. ground arith)

pub store-IsSound :
    (q : TransferQueue) (i : ℕ) (t u : Task)
    → IsSound q
    → get_elem? q.tasks i ≡ some t
    → Shrinks t u
    → IsSound (store i u q)
store-IsSound q i t u v h s = record {
  one_dispatch = λ c. omega (
    arith,
    v.one_dispatch c,
    count-set (is_dispatched c) q.tasks i t u h,
    (Shrinks-weights c t u s).0,
  );
  bounded = λ c.
      omega
        (arith, v.bounded c, count-set (is_pending c) q.tasks i t u h, (Shrinks-weights c t u s).1);
  distinct = λ c p. omega (
    arith,
    v.distinct c p,
    count-set (has_path c p) q.tasks i t u h,
    (Shrinks-weights c t u s).3 p,
  );
  attached = λ c e.
      omega
        (arith, v.attached c e, count-set (is_live c) q.tasks i t u h, (Shrinks-weights c t u s).2);
  separate = v.separate;
}

count_single : (p : Task → Bool) (t : Task) → count p (t ∷ []) ≡ weight (p t)
unfolding count
count_single p t = omega arith

-- A new task that is not dispatched, of an active session with room for it.
pub append-IsSound :
    (q : TransferQueue) (t : Task)
    → IsSound q
    → has_key t.connection_id q.sessions ≡ true
    → is_dispatched t.connection_id t ≡ false
    → count (is_pending t.connection_id) q.tasks + weight (is_pending t.connection_id t) ≤ 256
    → count (has_path t.connection_id t.path) q.tasks + weight (is_pending t.connection_id t) ≤ 1
    → IsSound (record q { tasks = q.tasks ++ t ∷ [] })
append-IsSound q t v s d b n = record {
  one_dispatch = λ c. ground (
    arith,
    v.one_dispatch c,
    count_last (is_dispatched c),
    eq_iff t.connection_id c,
    eq_iff t.connection_id t.connection_id,
  );
  bounded = λ c. ground (
    arith,
    v.bounded c,
    count_last (is_pending c),
    eq_iff t.connection_id c,
    eq_iff t.connection_id t.connection_id,
  );
  distinct = λ c p. ground (
    arith,
    v.distinct c p,
    count_last (has_path c p),
    eq_iff t.connection_id c,
    eq_iff t.connection_id t.connection_id,
    eq_iff t.path p,
  );
  attached =
      λ c h. ground (arith, v.attached c h, count_last (is_live c), eq_iff t.connection_id c);
  separate = v.separate;
}
  where
    count_last : (p : Task → Bool) → count p (q.tasks ++ t ∷ []) ≡ count p q.tasks + weight (p t)
    count_last p = omega (arith, count-append p q.tasks (t ∷ []), count_single p t)
