-- ===== src/Preset/StrictOrder.antt =====
-- `isVersionLower` as an order.
use quick_desk.Base.{
  ℕ, ◌<◌, ℤ, pos, negsuc, ◌≡◌, refl, sym, subst, ◌∙◌, inl, inr, true, false, not, ◌&&◌, ◌||◌, List,
  ltb, arith, Bool-cases,
}
use quick_desk.Preset.Version.{int_ltb, number_at, is_version_lower}
use quick_desk.Preset.Order.{AgreeOn, is_version_lower_iff, int_ltb-irreflexive}

int_ltb_trans : (x y z : ℤ) → int_ltb x y ≡ true → int_ltb y z ≡ true → int_ltb x z ≡ true
int_ltb_trans (pos m) (pos n) (pos o) h g = ground arith
int_ltb_trans (pos m) (pos n) (negsuc o) h g = cc
int_ltb_trans (pos m) (negsuc n) z h g = cc
int_ltb_trans (negsuc m) y (pos o) h g = refl
int_ltb_trans (negsuc m) (pos n) (negsuc o) h g = cc
int_ltb_trans (negsuc m) (negsuc n) (negsuc o) h g = ground arith

abbrev IsLess : ℤ → ℤ → Type 0
IsLess x y = int_ltb x y ≡ true

trans_at :
    (a b c : List ℤ) (k l : ℕ)
    → AgreeOn a b 0 k
    → IsLess (number_at a k) (number_at b k)
    → AgreeOn b c 0 l
    → IsLess (number_at b l) (number_at c l)
    → (m : ℕ) × AgreeOn a c 0 m × IsLess (number_at a m) (number_at c m)
trans_at a b c k l p h q g = elim (Bool-cases (ltb k l)) [
  | inl e ↦
      let u : k < l = ground (arith, e) in
      (
        k,
        (λ j s t. p j s t ∙ q j s (omega (arith, t, u))),
        subst (IsLess (number_at a k)) (q k (omega arith) u) h,
      )
  | inr e ↦ elim (Bool-cases (ltb l k)) [
    | inl f ↦
        let u : l < k = ground (arith, f) in
        (
          l,
          (λ j s t. p j s (omega (arith, t, u)) ∙ q j s t),
          subst (λ x. IsLess x (number_at c l)) (sym (p l (omega arith) u)) g,
        )
    | inr f ↦
        let u : l ≡ k = ground (arith, e, f) in
        let g' : IsLess (number_at b k) (number_at c k) =
          subst (λ x. IsLess (number_at b x) (number_at c x)) u g in
        (
          k,
          (λ j s t. p j s t ∙ q j s (omega (arith, t, u))),
          int_ltb_trans (number_at a k) (number_at b k) (number_at c k) h g',
        )
  ]
]

lower_trans :
    (a b c : List ℤ)
    → is_version_lower a b ≡ true
    → is_version_lower b c ≡ true
    → is_version_lower a c ≡ true
lower_trans a b c h g =
    let (k, p, x) = (is_version_lower_iff a b).0 h in
    let (l, q, y) = (is_version_lower_iff b c).0 g in
    (is_version_lower_iff a c).1 (trans_at a b c k l p x q y)

lower_irreflexive : (a : List ℤ) → is_version_lower a a ≡ false
lower_irreflexive a = elim (Bool-cases (is_version_lower a a)) [
  | inl e ↦
      let (k, p, x) = (is_version_lower_iff a a).0 e in
      absurd (ground (arith, x, int_ltb-irreflexive (number_at a k) (number_at a k) refl))
  | inr e ↦ e
]

-- No version is lower than itself, of two versions not each is lower than the other, and a version
-- lower than one that is lower than a third is lower than the third.
pub is_version_lower_strict :
    (a b c : List ℤ)
    → (is_version_lower a a ≡ false)
      × ((is_version_lower a b && is_version_lower b a) ≡ false)
      × ((not (is_version_lower a b && is_version_lower b c) || is_version_lower a c) ≡ true)
is_version_lower_strict a b c = (
  lower_irreflexive a,
  ground (arith, lower_trans a b a, lower_irreflexive a),
  ground (arith, lower_trans a b c),
)
