-- ===== src/Cache/Store.antt =====
-- The cache and its methods. `m_order` holds the hashes, oldest first.
use quick_desk.Base.{
  ℕ, leb, String, List, [], ◌∷◌, ◌++◌, Option, none, is_empty, if◌then◌else◌, length, string_eq,
}
use quick_desk.Base.Dict.{lookup, insert, erase, has_key}

pub record OcrCache (V : Type 0) : Type 0 where
  pub entries : List (String × V)
  pub order : List String

abbrev pub max_entries : ℕ
max_entries = 30

module _ {V : Type 0} where
  unfoldable pub empty : OcrCache V
  empty = record { entries = []; order = [] }

  unfoldable pub get : String → OcrCache V → Option V
  get hash c = if is_empty hash then none else lookup hash c.entries

  -- The loop of `put`: drop the oldest entries while there is no room.
  unfoldable pub make_room : List (String × V) → List String → OcrCache V
  make_room entries [] = record { entries = entries; order = [] }
  make_room entries (oldest ∷ order) =
      let rest = make_room (erase oldest entries) order in
      if leb max_entries (length entries)
      then rest
      else record { entries = entries; order = oldest ∷ order }

  unfoldable pub put : String → V → OcrCache V → OcrCache V
  put hash result c =
      if is_empty hash
      then c
      else if has_key hash c.entries
      then record c { entries = insert hash result c.entries }
      else let room = make_room c.entries c.order in
        record { entries = insert hash result room.entries; order = room.order ++ hash ∷ [] }

  unfoldable pub clear : OcrCache V → OcrCache V
  clear c = record { entries = []; order = [] }

  unfoldable pub size : OcrCache V → ℕ
  size c = length c.entries
