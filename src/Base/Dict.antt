-- ===== src/Base/Dict.antt =====
-- Dictionaries (QHash, QMap) as association lists, and sets of keys (QSet) as lists. Each is
-- known by its membership test: the laws are equations in `if` form.
use quick_desk.Base.{
  Eq, ◌==◌, ◌≡◌, refl, ap, Bool, true, false, not, ◌&&◌, ◌||◌, List, [], ◌∷◌, ◌++◌, Option, none,
  some, if◌then◌else◌, is_some, arith, Bool-cases, ◌⊎◌, inl, inr,
}

module _ {ℓ κ} {K : Type ℓ} {V : Type κ} ⦃e : Eq K⦄ where
  -- QHash::remove
  unfoldable pub erase : K → List (K × V) → List (K × V)
  erase key [] = []
  erase key ((at, old) ∷ rest) = if at == key then erase key rest else (at, old) ∷ erase key rest

  unfoldable pub lookup : K → List (K × V) → Option V
  lookup key [] = none
  lookup key ((at, found) ∷ rest) = if at == key then some found else lookup key rest

  unfoldable pub has_key : K → List (K × V) → Bool
  has_key key [] = false
  has_key key ((at, found) ∷ rest) = if at == key then true else has_key key rest

  -- QHash::insert and operator[] =: an existing entry is overwritten.
  unfoldable pub insert : K → V → List (K × V) → List (K × V)
  insert key value [] = (key, value) ∷ []
  insert key value ((at, old) ∷ rest) =
      if at == key then (key, value) ∷ rest else (at, old) ∷ insert key value rest

  unfoldable pub keys : List (K × V) → List K
  keys [] = []
  keys ((at, found) ∷ rest) = at ∷ keys rest

  pub has_key-insert :
      (k j : K) (v : V) (m : List (K × V)) → has_key j (insert k v m) ≡ (e.beq k j || has_key j m)
  unfolding has_key insert
  has_key-insert k j v [] = ground arith
  has_key-insert k j v ((i, w) ∷ m) =
      ground (arith, e.beq_iff k j, e.beq_iff i k, e.beq_iff i j, has_key-insert k j v m)

  pub has_key-erase :
      (k j : K) (m : List (K × V)) → has_key j (erase k m) ≡ (not (e.beq k j) && has_key j m)
  unfolding has_key erase
  has_key-erase k j [] = ground arith
  has_key-erase k j ((i, w) ∷ m) =
      ground (arith, e.beq_iff k j, e.beq_iff i k, e.beq_iff i j, has_key-erase k j m)

  pub lookup-insert :
      (k j : K) (v : V) (m : List (K × V))
      → lookup j (insert k v m) ≡ (if k == j then some v else lookup j m)
  unfolding insert lookup
  lookup-insert key other value [] = refl
  lookup-insert key other value ((at, old) ∷ rest) = ground (
    lookup-insert key other value rest,
    e.beq_iff at key,
    e.beq_iff at other,
    e.beq_iff key other,
    arith,
  )

  pub lookup-erase :
      (k j : K) (m : List (K × V)) → lookup j (erase k m) ≡ (if k == j then none else lookup j m)
  unfolding lookup erase
  lookup-erase k j [] = ground arith
  lookup-erase k j ((i, w) ∷ m) =
      ground (arith, e.beq_iff k j, e.beq_iff i k, e.beq_iff i j, lookup-erase k j m)

  pub has_key-lookup : (k : K) (m : List (K × V)) → has_key k m ≡ is_some (lookup k m)
  unfolding has_key lookup
  has_key-lookup k [] = refl
  has_key-lookup k ((i, w) ∷ m) = ground (arith, has_key-lookup k m)

  -- An entry after a write is the one written or one of before.
  pub lookup-insert_cases :
      (k j : K) (v u : V) (m : List (K × V))
      → lookup j (insert k v m) ≡ some u
      → ((k ≡ j) × (v ≡ u)) ⊎ ((e.beq k j ≡ false) × (lookup j m ≡ some u))
  lookup-insert_cases k j v u m h = elim (Bool-cases (e.beq k j)) [
    | inl same ↦ inl ((e.beq_iff k j).0 same, ground (arith, lookup-insert k j v m, same, h))
    | inr other ↦ inr (other, ground (arith, lookup-insert k j v m, other, h))
  ]

  pub lookup-insert_self : (k : K) (v : V) (m : List (K × V)) → lookup k (insert k v m) ≡ some v
  lookup-insert_self k v m = ground (arith, lookup-insert k k v m, e.beq_iff k k)

  pub lookup-insert_other :
      (k j : K) (v : V) (m : List (K × V))
      → e.beq k j ≡ false
      → lookup j (insert k v m) ≡ lookup j m
  lookup-insert_other k j v m other = ground (arith, lookup-insert k j v m, other)

  -- An entry after a removal is one of before, of another key.
  pub lookup-erase_cases :
      (k j : K) (u : V) (m : List (K × V))
      → lookup j (erase k m) ≡ some u
      → (e.beq k j ≡ false) × (lookup j m ≡ some u)
  lookup-erase_cases k j u m h = elim (Bool-cases (e.beq k j)) [
    | inl same ↦ absurd (ground (arith, lookup-erase k j m, same, h))
    | inr other ↦ (other, ground (arith, lookup-erase k j m, other, h))
  ]

  pub lookup-erase_other :
      (k j : K) (m : List (K × V)) → e.beq k j ≡ false → lookup j (erase k m) ≡ lookup j m
  lookup-erase_other k j m other = ground (arith, lookup-erase k j m, other)

  -- A key that is absent is none of those that are there.
  pub other_key :
      {v : V} (k j : K) (m : List (K × V))
      → lookup k m ≡ none
      → lookup j m ≡ some v
      → e.beq k j ≡ false
  other_key k j m absent there = elim (Bool-cases (e.beq k j)) [
    | inl same ↦
        let t : k ≡ j = (e.beq_iff k j).0 same in
        absurd (cc (absent, there, ap (λ x. lookup x m) t))
    | inr other ↦ other
  ]

  -- No key stands twice.
  unfoldable pub is_dict : List (K × V) → Bool
  is_dict [] = true
  is_dict ((at, found) ∷ rest) = not (has_key at rest) && is_dict rest

  pub is_dict-insert :
      (k : K) (v : V) (m : List (K × V)) → is_dict m ≡ true → is_dict (insert k v m) ≡ true
  unfolding is_dict insert has_key
  is_dict-insert k v [] h = refl
  is_dict-insert k v ((i, w) ∷ m) h =
      ground (arith, e.beq_iff i k, e.beq_iff k i, is_dict-insert k v m, has_key-insert k i v m)

module _ {ℓ} {K : Type ℓ} ⦃e : Eq K⦄ where
  unfoldable pub contains : K → List K → Bool
  contains k [] = false
  contains k (j ∷ s) = if j == k then true else contains k s

  -- QSet::insert
  unfoldable pub add : K → List K → List K
  add k s = if contains k s then s else k ∷ s

  -- QSet::remove
  unfoldable pub remove : K → List K → List K
  remove k [] = []
  remove k (j ∷ s) = if j == k then remove k s else j ∷ remove k s

  pub contains-add : (k j : K) (s : List K) → contains j (add k s) ≡ (e.beq k j || contains j s)
  unfolding add contains
  contains-add k j s = elim (Bool-cases (contains k s)) [
    | inl old ↦ rw old (ground (arith, e.beq_iff k j))
    | inr new ↦ rw new (ground arith)
  ]

  pub contains-remove :
      (k j : K) (s : List K) → contains j (remove k s) ≡ (not (e.beq k j) && contains j s)
  unfolding contains remove
  contains-remove k j [] = ground arith
  contains-remove k j (i ∷ s) =
      ground (arith, e.beq_iff k j, e.beq_iff i k, e.beq_iff i j, contains-remove k j s)

  pub contains-append :
      (k : K) (xs ys : List K) → contains k (xs ++ ys) ≡ (contains k xs || contains k ys)
  unfolding contains
  contains-append k [] ys = refl
  contains-append k (x ∷ xs) ys = ground (arith, contains-append k xs ys)
