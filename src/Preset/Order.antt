-- ===== src/Preset/Order.antt =====
-- `isVersionLower` against the first position where two versions differ.
use quick_desk.Base.{
  ℕ, zero, suc, ◌+◌, ◌≤◌, ◌<◌, ℤ, pos, negsuc, ◌≡◌, ◌↔◌, refl, sym, subst, inl, inr, true, false,
  List, [], ◌∷◌, ltb, length, arith, Bool-cases,
}
use quick_desk.Preset.Version.{int_ltb, number_at, compare_from, max, is_version_lower}

pub int_ltb-irreflexive : (x y : ℤ) → x ≡ y → int_ltb x y ≡ false
int_ltb-irreflexive (pos m) (pos n) h = ground arith
int_ltb-irreflexive (pos m) (negsuc n) h = refl
int_ltb-irreflexive (negsuc m) (pos n) h = cc
int_ltb-irreflexive (negsuc m) (negsuc n) h = ground arith

pub int_ltb-asym : (x y : ℤ) → int_ltb x y ≡ true → int_ltb y x ≡ false
int_ltb-asym (pos m) (pos n) h = ground arith
int_ltb-asym (pos m) (negsuc n) h = cc
int_ltb-asym (negsuc m) (pos n) h = refl
int_ltb-asym (negsuc m) (negsuc n) h = ground arith

int_ltb-total : (x y : ℤ) → int_ltb x y ≡ false → int_ltb y x ≡ false → x ≡ y
int_ltb-total (pos m) (pos n) h g = ground arith
int_ltb-total (pos m) (negsuc n) h g = cc
int_ltb-total (negsuc m) (pos n) h g = cc
int_ltb-total (negsuc m) (negsuc n) h g = ground arith

number_at-out : (xs : List ℤ) (i : ℕ) → length xs ≤ i → number_at xs i ≡ pos 0
number_at-out [] i h = refl
number_at-out (x ∷ xs) zero h = absurd (omega arith)
number_at-out (x ∷ xs) (suc i) h = number_at-out xs i (omega arith)

module _ (a b : List ℤ) where
  -- The versions agree from one position up to another.
  abbrev pub AgreeOn : ℕ → ℕ → Type 0
  AgreeOn i k = (j : ℕ) → i ≤ j → j < k → number_at a j ≡ number_at b j

  compare_from-finds :
      (i fuel : ℕ)
      → compare_from a b i fuel ≡ true
      → (k : ℕ) × AgreeOn i k × (int_ltb (number_at a k) (number_at b k) ≡ true)
  unfolding compare_from
  compare_from-finds i zero h = absurd (ground arith)
  compare_from-finds i (suc fuel) h = elim (Bool-cases (int_ltb (number_at a i) (number_at b i))) [
    | inl e ↦ (i, (λ j l u. absurd (omega arith)), e)
    | inr e ↦ elim (Bool-cases (int_ltb (number_at b i) (number_at a i))) [
      | inl g ↦ absurd (ground arith)
      | inr g ↦
          let (k, agree, lower) = compare_from-finds (suc i) fuel (ground arith) in
          let here = int_ltb-total (number_at a i) (number_at b i) e g in
          (k, (λ j l u. at_or_after i k agree here j l u), lower)
    ]
  ]
    where
      at_or_after : (i k : ℕ) → AgreeOn (suc i) k → number_at a i ≡ number_at b i → AgreeOn i k
      at_or_after i k agree here j l u = elim (Bool-cases (ltb i j)) [
        | inl e ↦ agree j (ground arith) u
        | inr e ↦ subst (λ x. number_at a x ≡ number_at b x) (ground arith) here
      ]

  compare_from-at :
      (i fuel k : ℕ)
      → i ≤ k
      → k < i + fuel
      → AgreeOn i k
      → int_ltb (number_at a k) (number_at b k) ≡ true
      → compare_from a b i fuel ≡ true
  unfolding compare_from
  compare_from-at i zero k l u agree h = absurd (omega arith)
  compare_from-at i (suc fuel) k l u agree h = elim (Bool-cases (ltb i k)) [
    | inl e ↦
        let same = agree i (omega arith) (ground arith) in
        let rest =
          compare_from-at (suc i) fuel k (ground arith) (omega arith)
            (λ j l' u'. agree j (omega arith) u') h in
        rw
          (
            int_ltb-irreflexive (number_at a i) (number_at b i) same,
            int_ltb-irreflexive (number_at b i) (number_at a i) (sym same),
          )
          rest
    | inr e ↦
        let here : k ≡ i = ground arith in
        let lower : int_ltb (number_at a i) (number_at b i) ≡ true =
          subst (λ x. int_ltb (number_at a x) (number_at b x) ≡ true) here h in
        rw lower refl
  ]

  differs-within :
      (k : ℕ) → int_ltb (number_at a k) (number_at b k) ≡ true → k < max (length a) (length b)
  differs-within k h = elim (Bool-cases (ltb k (max (length a) (length b)))) [
    | inl e ↦ ground arith
    | inr e ↦
        let x = number_at-out a k (ground arith) in
        let y = number_at-out b k (ground arith) in
        absurd (ground (arith, int_ltb-irreflexive (number_at a k) (number_at b k) (cc (x, y))))
  ]

-- A version is lower than another exactly if, at some position, its number is the smaller one and
-- the two agree at all positions before, where a missing number counts as 0.
pub is_version_lower_iff :
    (a b : List ℤ)
    → (is_version_lower a b ≡ true)
      ↔ ((k : ℕ) × AgreeOn a b 0 k × (int_ltb (number_at a k) (number_at b k) ≡ true))
unfolding is_version_lower
is_version_lower_iff a b = (
  compare_from-finds a b 0 (max (length a) (length b)),
  λ (k, agree, lower).
      compare_from-at a b 0 (max (length a) (length b)) k (omega arith)
        (omega (arith, differs-within a b k lower)) agree lower,
)
