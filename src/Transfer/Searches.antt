-- ===== src/Transfer/Searches.antt =====
-- The rules for acting on the task that a search finds: a property of the queue, from its
-- property at a miss and after the action on the task that stands at the index.
use quick_desk.Base.{
  ℕ, ◌≡◌, refl, inl, inr, Bool, true, some, none, Option, Option-cases, get_elem?, find_index,
  find_index-holds,
}
use quick_desk.Transfer.Data.{Task, TransferQueue}
use quick_desk.Transfer.Messages.{with_first}

module _ {ℓ} (P : TransferQueue → Type ℓ) (act : ℕ → Task → TransferQueue → TransferQueue) where
  pub at_index_cases :
      (o : Option ℕ) (q : TransferQueue)
      → P q
      → ((i : ℕ) (t : Task) → o ≡ some i → get_elem? q.tasks i ≡ some t → P (act i t q))
      → P (elim o [
        | none ↦ q
        | some i ↦ elim (get_elem? q.tasks i) [ none ↦ q | some t ↦ act i t q ]
      ])
  at_index_cases none q v h = v
  at_index_cases (some i) q v h = elim (Option-cases (get_elem? q.tasks i)) [
    | inl e ↦ rw e v
    | inr (t, e) ↦ rw e (h i t refl e)
  ]

  -- The task that is acted on passes the test of the search.
  pub with_first_cases :
      (p : Task → Bool) (q : TransferQueue)
      → P q
      → ((i : ℕ) (t : Task) → get_elem? q.tasks i ≡ some t → p t ≡ true → P (act i t q))
      → P (with_first p act q)
  with_first_cases p q v h =
      at_index_cases (find_index p q.tasks) q v
        λ i t e f. h i t f (find_index-holds p q.tasks i t e f)
