-- ===== src/Base/Count.antt =====
-- Counting the entries that pass a test, and how the list operations change the count.
use quick_desk.Base.{
  ℕ, zero, suc, ◌+◌, ◌≤◌, ◌≡◌, refl, Bool, false, List, [], ◌∷◌, ◌++◌, map, some, arith, weight,
  get_elem?, set, keep_if, any,
}

module _ {ℓ} {A : Type ℓ} where
  unfoldable pub count : (A → Bool) → List A → ℕ
  count p [] = 0
  count p (x ∷ xs) = weight (p x) + count p xs

  pub count-append : (p : A → Bool) (xs ys : List A) → count p (xs ++ ys) ≡ count p xs + count p ys
  unfolding count
  count-append p [] ys = omega arith
  count-append p (x ∷ xs) ys = omega (arith, count-append p xs ys)

  pub count-set :
      (p : A → Bool) (xs : List A) (i : ℕ) (x y : A)
      → get_elem? xs i ≡ some x
      → count p (set xs i y) + weight (p x) ≡ count p xs + weight (p y)
  unfolding count
  count-set p [] i x y h = ground arith
  count-set p (z ∷ xs) zero x y h = ground arith
  count-set p (z ∷ xs) (suc i) x y h = omega (arith, count-set p xs i x y h)

  pub count-map_le :
      (p : A → Bool) (f : A → A) (xs : List A)
      → ((x : A) → weight (p (f x)) ≤ weight (p x))
      → count p (map f xs) ≤ count p xs
  unfolding count
  count-map_le p f [] h = omega arith
  count-map_le p f (x ∷ xs) h = omega (arith, count-map_le p f xs h, h x)

  pub count-keep_if_le : (p k : A → Bool) (xs : List A) → count p (keep_if k xs) ≤ count p xs
  unfolding count keep_if
  count-keep_if_le p k [] = omega arith
  count-keep_if_le p k (x ∷ xs) = ground (arith, count-keep_if_le p k xs)

  pub any-count : (p : A → Bool) (xs : List A) → any p xs ≡ false → count p xs ≡ 0
  unfolding any count
  any-count p [] h = refl
  any-count p (x ∷ xs) h = ground (arith, any-count p xs)

  pub count_mono :
      (p q : A → Bool) (xs : List A)
      → ((x : A) → weight (p x) ≤ weight (q x))
      → count p xs ≤ count q xs
  unfolding count
  count_mono p q [] h = omega arith
  count_mono p q (x ∷ xs) h = omega (arith, count_mono p q xs h, h x)

  -- An entry of a list of which none passes.
  pub count_none :
      (p : A → Bool) (xs : List A) (i : ℕ) (x : A)
      → get_elem? xs i ≡ some x
      → count p xs ≡ 0
      → p x ≡ false
  unfolding count
  count_none p [] i x h z = ground arith
  count_none p (y ∷ xs) zero x h z = ground arith
  count_none p (y ∷ xs) (suc i) x h z = count_none p xs i x h (omega (arith, z))
