-- ===== src/Preset/Version.antt =====
-- `isVersionLower` on the numbers of two versions: the parts between the dots, by QString::toInt.
use quick_desk.Base.{
  ℕ, zero, suc, ℤ, pos, negsuc, Bool, true, false, List, none, some, if◌then◌else◌, ltb, length,
  get_elem?,
}

abbrev pub int_ltb : ℤ → ℤ → Bool
int_ltb (pos m) (pos n) = ltb m n
int_ltb (pos m) (negsuc n) = false
int_ltb (negsuc m) (pos n) = true
int_ltb (negsuc m) (negsuc n) = ltb n m

-- The number at a position; a missing one counts as 0.
abbrev pub number_at : List ℤ → ℕ → ℤ
number_at xs i = elim (get_elem? xs i) [ none ↦ pos 0 | some n ↦ n ]

-- The loop from index `i`, of which `fuel` rounds are left.
unfoldable pub compare_from : List ℤ → List ℤ → ℕ → ℕ → Bool
compare_from current required i zero = false
compare_from current required i (suc fuel) =
    let rest = compare_from current required (suc i) fuel in
    if int_ltb (number_at current i) (number_at required i)
    then true
    else if int_ltb (number_at required i) (number_at current i)
    then false
    else rest

-- qMax
abbrev pub max : ℕ → ℕ → ℕ
max a b = if ltb a b then b else a

unfoldable pub is_version_lower : List ℤ → List ℤ → Bool
is_version_lower current required =
    compare_from current required 0 (max (length current) (length required))
