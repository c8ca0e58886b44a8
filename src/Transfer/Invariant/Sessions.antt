-- ===== src/Transfer/Invariant/Sessions.antt =====
-- The invariant of the transfer queue through the methods on sessions.
use quick_desk.Base.{
  ◌≤◌, ◌≡◌, refl, ap, inl, inr, Bool, not, ◌&&◌, String, List, [], ◌∷◌, map, str_eq, eq_iff, weight,
  arith, string_eq, Bool-cases, keep_if, if_split, any,
}
use quick_desk.Base.Dict.{contains, keys, has_key-insert, has_key-erase, contains-add}
use quick_desk.Base.Count.{count, count-map_le, count-keep_if_le}
use quick_desk.Transfer.Data.{
  Task, TransferQueue, terminal, is_live, is_pending, is_dispatched, has_path,
}
use quick_desk.Transfer.Sessions.{
  begin_session, end_session, retire, disconnect, reconcile_session, prune, end_sessions,
  end_all_sessions, is_unfinished,
}
use quick_desk.Transfer.Invariant.Store.{IsSound}

-- The invariant reads the tasks, the sessions and the retired connections.
pub reframe :
    (q r : TransferQueue)
    → IsSound q
    → r.tasks ≡ q.tasks
    → r.sessions ≡ q.sessions
    → r.retired_connections ≡ q.retired_connections
    → IsSound r
reframe q r v a b c = record {
  one_dispatch = λ k. omega (arith, v.one_dispatch k, ap (count (is_dispatched k)) a);
  bounded = λ k. omega (arith, v.bounded k, ap (count (is_pending k)) a);
  distinct = λ k p. omega (arith, v.distinct k p, ap (count (has_path k p)) a);
  attached = λ k. rw (a, b) (v.attached k);
  separate = λ k. rw (b, c) (v.separate k);
}

pub begin_session-IsSound :
    (c d : String) (q : TransferQueue) → IsSound q → IsSound (begin_session c d q)
unfolding begin_session
begin_session-IsSound c d q v =
    elim (Bool-cases (not (str_eq c "") && not (contains c q.retired_connections))) [
      | inl e ↦ rw e (record {
        one_dispatch = v.one_dispatch;
        bounded = v.bounded;
        distinct = v.distinct;
        attached = λ k h. v.attached k (ground (arith, has_key-insert c k d q.sessions));
        separate =
            λ k h. ground (arith, has_key-insert c k d q.sessions, v.separate k h, eq_iff c k);
      })
      | inr e ↦ rw e v
    ]

disconnect_weights :
    (c k : String) (t : Task)
    → (weight (is_dispatched k (disconnect c t)) ≤ weight (is_dispatched k t))
      × (weight (is_pending k (disconnect c t)) ≤ weight (is_pending k t))
      × (weight (is_live k (disconnect c t)) ≤ weight (is_live k t))
      × ((p : String) → weight (has_path k p (disconnect c t)) ≤ weight (has_path k p t))
disconnect_weights c k t = (ground arith, ground arith, ground arith, λ p. ground arith)

-- No task of a retired connection is left unfinished.
count-disconnect : (c : String) (ts : List Task) → count (is_live c) (map (disconnect c) ts) ≡ 0
unfolding count
count-disconnect c [] = refl
count-disconnect c (t ∷ ts) = ground (arith, count-disconnect c ts)

retire-IsSound : (c : String) (q : TransferQueue) → IsSound q → IsSound (retire c q)
unfolding retire
retire-IsSound c q v = record {
  one_dispatch = λ k. omega (
    arith,
    v.one_dispatch k,
    count-map_le (is_dispatched k) (disconnect c) q.tasks (λ t. (disconnect_weights c k t).0),
  );
  bounded = λ k. omega (
    arith,
    v.bounded k,
    count-map_le (is_pending k) (disconnect c) q.tasks (λ t. (disconnect_weights c k t).1),
  );
  distinct = λ k p. omega (
    arith,
    v.distinct k p,
    count-map_le (has_path k p) (disconnect c) q.tasks (λ t. (disconnect_weights c k t).3 p),
  );
  attached = λ k h. ground (
    arith,
    eq_iff c k,
    has_key-erase c k q.sessions,
    v.attached k,
    count-disconnect c q.tasks,
    count-map_le (is_live k) (disconnect c) q.tasks (λ t. (disconnect_weights c k t).2),
  );
  separate = λ k h. ground (
    arith,
    eq_iff c k,
    has_key-erase c k q.sessions,
    v.separate k,
    contains-add c k q.retired_connections,
  );
}

pub end_session-IsSound : (c : String) (q : TransferQueue) → IsSound q → IsSound (end_session c q)
unfolding end_session
end_session-IsSound c q v =
    if_split IsSound (str_eq c "") (λ _. v)
      λ _.
        if_split IsSound (any (is_live c) q.tasks)
          (λ _. reframe (retire c q) _ (retire-IsSound c q v) refl refl refl)
          (λ _. retire-IsSound c q v)

pub reconcile_session-IsSound :
    (c d : String) (a b : Bool) (q : TransferQueue)
    → IsSound q
    → IsSound (reconcile_session c d a b q)
unfolding reconcile_session
reconcile_session-IsSound c d a b q v =
    ground (arith, begin_session-IsSound c d q v, end_session-IsSound c q v)

end_sessions-IsSound :
    (cs : List String) (q : TransferQueue) → IsSound q → IsSound (end_sessions cs q)
unfolding end_sessions
end_sessions-IsSound [] q v = v
end_sessions-IsSound (c ∷ cs) q v = end_sessions-IsSound cs _ (end_session-IsSound c q v)

pub end_all_sessions-IsSound : (q : TransferQueue) → IsSound q → IsSound (end_all_sessions q)
unfolding end_all_sessions
end_all_sessions-IsSound q v = end_sessions-IsSound (keys q.sessions) q v

pub prune-IsSound : (q : TransferQueue) → IsSound q → IsSound (prune q)
unfolding prune
prune-IsSound q v =
    if_split IsSound (any (λ t. terminal t.status) q.tasks)
      (λ _. reframe pruned _ kept refl refl refl) (λ _. kept)
  where
    pruned : TransferQueue
    pruned = record q { tasks = keep_if is_unfinished q.tasks }

    kept : IsSound pruned
    kept = record {
      one_dispatch = λ k.
          omega (arith, v.one_dispatch k, count-keep_if_le (is_dispatched k) is_unfinished q.tasks);
      bounded =
          λ k. omega (arith, v.bounded k, count-keep_if_le (is_pending k) is_unfinished q.tasks);
      distinct = λ k p.
          omega (arith, v.distinct k p, count-keep_if_le (has_path k p) is_unfinished q.tasks);
      attached =
          λ k h. omega (arith, v.attached k h, count-keep_if_le (is_live k) is_unfinished q.tasks);
      separate = v.separate;
    }
