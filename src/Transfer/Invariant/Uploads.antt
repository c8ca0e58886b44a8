-- ===== src/Transfer/Invariant/Uploads.antt =====
-- The invariant of the transfer queue through the queueing and dispatch of uploads.
use quick_desk.Base.{
  ◌+◌, ◌≤◌, refl, Bool, not, ◌||◌, String, List, [], ◌∷◌, str_eq, eq_iff, weight, arith, string_eq,
  if_split, any, leb,
}
use quick_desk.Base.Dict.{has_key, contains}
use quick_desk.Base.Count.{count, any-count}
use quick_desk.Transfer.Data.{
  Task, TransferQueue, Files, Url, is_live, is_pending, is_dispatched, has_path,
}
use quick_desk.Transfer.Uploads.{
  usable, pump_tasks, pump, new_upload, device_of, enqueue_upload, register_download,
}
use quick_desk.Transfer.Invariant.Store.{IsSound, append-IsSound}
use quick_desk.Transfer.Invariant.Sessions.{reframe}

-- `pump` keeps the paths of the uploads.
pump_tasks_paths :
    (fs : Files) (c k p : String) (ts : List Task)
    → count (has_path k p) (pump_tasks fs c ts).0 ≤ count (has_path k p) ts
unfolding pump_tasks count
pump_tasks_paths fs c k p [] = omega arith
pump_tasks_paths fs c k p (t ∷ ts) = ground (arith, pump_tasks_paths fs c k p ts)

-- `pump` hands over at most one upload, and of its own connection.
pump_tasks_counts :
    (fs : Files) (c k : String) (ts : List Task)
    → (count (is_dispatched k) (pump_tasks fs c ts).0
        ≤ count (is_dispatched k) ts + weight (str_eq c k))
      × (count (is_pending k) (pump_tasks fs c ts).0 ≤ count (is_pending k) ts)
      × (count (is_live k) (pump_tasks fs c ts).0 ≤ count (is_live k) ts)
unfolding pump_tasks count
pump_tasks_counts fs c k [] = (omega arith, omega arith, omega arith)
pump_tasks_counts fs c k (t ∷ ts) = ground (
  arith,
  eq_iff t.connection_id c,
  eq_iff t.connection_id k,
  eq_iff c k,
  pump_tasks_counts fs c k ts,
)

pub pump-IsSound : (fs : Files) (c : String) (q : TransferQueue) → IsSound q → IsSound (pump fs c q)
unfolding pump
pump-IsSound fs c q v =
    if_split IsSound (not (has_key c q.sessions) || contains c q.blocked_uploads) (λ _. v)
      λ _.
        if_split IsSound (any (is_dispatched c) q.tasks) (λ _. v)
          λ idle. record {
            one_dispatch = λ k. ground (
              arith,
              eq_iff c k,
              v.one_dispatch k,
              any-count (is_dispatched c) q.tasks idle,
              pump_tasks_counts fs c k q.tasks,
            );
            bounded = λ k. omega (arith, v.bounded k, (pump_tasks_counts fs c k q.tasks).1);
            distinct = λ k p. omega (arith, v.distinct k p, pump_tasks_paths fs c k p q.tasks);
            attached = λ k h. omega (arith, v.attached k h, (pump_tasks_counts fs c k q.tasks).2);
            separate = v.separate;
          }

pub enqueue_upload-IsSound :
    (fs : Files) (fresh c : String) (url : Url) (q : TransferQueue)
    → IsSound q
    → IsSound (enqueue_upload fs fresh c url q).0
unfolding enqueue_upload
enqueue_upload-IsSound fs fresh c url q v =
    if_split Result-IsSound (not (has_key c q.sessions)) (λ _. v)
      λ s.
        if_split Result-IsSound (not url.is_local_file || not (usable fs f))
          (λ _. reframe q _ v refl refl refl)
          λ _.
            if_split Result-IsSound (any (has_path c (fs.canonical_file_path f)) q.tasks) (λ _. v)
              λ new.
                if_split Result-IsSound (leb 256 (count (is_pending c) q.tasks))
                  (λ _. reframe q _ v refl refl refl)
                  λ room. pump-IsSound fs c _ (
                    reframe _ _
                      (append-IsSound q (new_upload fs fresh c (device_of c q) f) v (ground arith)
                        (ground arith) (ground arith)
                        (ground
                          (arith, any-count (has_path c (fs.canonical_file_path f)) q.tasks new)))
                      refl refl refl)
  where
    f : String
    f = url.local_file

    Result-IsSound : TransferQueue × Bool → Type 0
    Result-IsSound r = IsSound r.0

pub register_download-IsSound :
    (fs : Files) (c dir : String) (q : TransferQueue)
    → IsSound q
    → IsSound (register_download fs c dir q)
unfolding register_download
register_download-IsSound fs c dir q v =
    if_split IsSound (has_key c q.sessions) (λ _. reframe q _ v refl refl refl) (λ _. v)
