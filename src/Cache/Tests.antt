-- ===== src/Cache/Tests.antt =====
-- The cache on a concrete history.
use quick_desk.Base.{
  ℕ, ◌≡◌, refl, String, List, [], ◌∷◌, none, some, arith, Bool, true, not, ◌&&◌, string_eq,
}
use quick_desk.Base.Dict.{has_key, keys, contains}
use quick_desk.Cache.Store.{get, put}
use quick_desk.Cache.Order.{IsValid, Distinct, of_entries, put-IsValid, get-put, get-put_full}

-- Thirty frames, "f00" first.
abbrev frames : List (String × ℕ)
frames =
    ("f01", 1)
    ∷ ("f02", 2)
    ∷ ("f03", 3)
    ∷ ("f04", 4)
    ∷ ("f05", 5)
    ∷ ("f06", 6)
    ∷ ("f07", 7)
    ∷ ("f08", 8)
    ∷ ("f09", 9)
    ∷ ("f10", 10)
    ∷ ("f11", 11)
    ∷ ("f12", 12)
    ∷ ("f13", 13)
    ∷ ("f14", 14)
    ∷ ("f15", 15)
    ∷ ("f16", 16)
    ∷ ("f17", 17)
    ∷ ("f18", 18)
    ∷ ("f19", 19)
    ∷ ("f20", 20)
    ∷ ("f21", 21)
    ∷ ("f22", 22)
    ∷ ("f23", 23)
    ∷ ("f24", 24)
    ∷ ("f25", 25)
    ∷ ("f26", 26)
    ∷ ("f27", 27)
    ∷ ("f28", 28)
    ∷ ("f29", 29)
    ∷ []

abbrev no_repeat : List String → Bool
no_repeat [] = true
no_repeat (k ∷ ks) = not (contains k ks) && no_repeat ks

no_repeat→Distinct : (ks : List String) → no_repeat ks ≡ true → Distinct ks
no_repeat→Distinct [] h = tt
no_repeat→Distinct (k ∷ ks) h = (ground arith, no_repeat→Distinct ks (ground arith))

full-IsValid : IsValid (of_entries (("f00", 0) ∷ frames))
unfolding keys contains
full-IsValid = record {
  listed = refl;
  distinct = no_repeat→Distinct ((of_entries {V = ℕ} (("f00", 0) ∷ frames)).order) refl;
  bounded = omega arith;
}

put-IsValid_example : IsValid (put "f30" 30 (of_entries (("f00", 0) ∷ frames)))
put-IsValid_example = put-IsValid "f30" 30 (of_entries (("f00", 0) ∷ frames)) full-IsValid

get-put_example : get "f30" (put "f30" 30 (of_entries (("f00", 0) ∷ frames))) ≡ some 30
get-put_example = get-put "f30" 30 (of_entries (("f00", 0) ∷ frames)) refl

-- "f00" makes room for "f30".
get-put_full_example : get "f00" (put "f30" 30 (of_entries (("f00", 0) ∷ frames))) ≡ none
unfolding has_key
get-put_full_example = get-put_full "f30" "f00" "f00" 30 0 frames full-IsValid refl refl refl
