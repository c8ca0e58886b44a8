-- ===== src/Cache/Order.antt =====
-- OcrCache.put and its queue: the bound of the cache and the order in which entries go.
use quick_desk.Base.{
  suc, ◌≤◌, ◌<◌, ◌≡◌, refl, sym, ap, ◌∙◌, leb, leb→le, subst, true, false, String, List, [], ◌∷◌,
  ◌++◌, none, some, is_empty, str_eq, eq_iff, if◌then◌else◌, length, length-append, string_eq,
  arith, Bool-cases, inl, inr,
}
use quick_desk.Base.Dict.{
  lookup, insert, erase, has_key, keys, contains, contains-append, lookup-insert,
}
use quick_desk.Cache.Store.{OcrCache, max_entries, get, make_room, put}

-- No key stands twice.
abbrev pub Distinct : List String → Type 0
Distinct [] = Unit {0}
Distinct (k ∷ ks) = (contains k ks ≡ false) × Distinct ks

Distinct-append :
    (k : String) (ks : List String) → Distinct ks → contains k ks ≡ false → Distinct (ks ++ k ∷ [])
unfolding contains
Distinct-append k [] d h = (refl, tt)
Distinct-append k (j ∷ ks) d h = (
  contains-append j ks (k ∷ []) ∙ ground (arith, eq_iff j k, eq_iff k j),
  Distinct-append k ks d.1 (ground arith),
)

module _ {V : Type 0} where
  -- The queue lists the keys of the table, each once, and there are at most 30.
  pub record IsValid (c : OcrCache V) : Type 0 where
    pub listed : keys c.entries ≡ c.order
    pub distinct : Distinct c.order
    pub bounded : length c.order ≤ max_entries

  length-keys : (m : List (String × V)) → length (keys m) ≡ length m
  unfolding keys
  length-keys [] = refl
  length-keys ((k, v) ∷ m) = ap suc (length-keys m)

  has_key-keys : (k : String) (m : List (String × V)) → contains k (keys m) ≡ has_key k m
  unfolding keys contains has_key
  has_key-keys k [] = refl
  has_key-keys k ((j, v) ∷ m) = ground (arith, has_key-keys k m)

  keys-insert_new :
      (k : String) (v : V) (m : List (String × V))
      → has_key k m ≡ false
      → keys (insert k v m) ≡ keys m ++ k ∷ []
  unfolding keys insert has_key
  keys-insert_new k v [] h = refl
  keys-insert_new k v ((j, w) ∷ m) h = ground (arith, keys-insert_new k v m)

  keys-insert_old :
      (k : String) (v : V) (m : List (String × V))
      → has_key k m ≡ true
      → keys (insert k v m) ≡ keys m
  unfolding keys insert has_key
  keys-insert_old k v [] h = cc
  keys-insert_old k v ((j, w) ∷ m) h = ground (arith, eq_iff j k, keys-insert_old k v m)

  erase_absent : (k : String) (m : List (String × V)) → has_key k m ≡ false → erase k m ≡ m
  unfolding erase has_key
  erase_absent k [] h = refl
  erase_absent k ((j, w) ∷ m) h = ground (arith, erase_absent k m)

  make_room-room :
      (m : List (String × V)) (o : List String)
      → length m < max_entries
      → make_room m o ≡ record { entries = m; order = o }
  unfolding make_room
  make_room-room m [] h = refl
  make_room-room m (k ∷ o) h = ground arith

  -- A full table gives up its oldest entry.
  make_room-full :
      (k : String) (v : V) (m : List (String × V)) (o : List String)
      → suc (length m) ≡ max_entries
      → has_key k m ≡ false
      → make_room ((k, v) ∷ m) (k ∷ o) ≡ record { entries = m; order = o }
  unfolding make_room
  make_room-full k v m o h d =
      let gone : erase k ((k, v) ∷ m) ≡ m =
        unfold erase in ground (arith, eq_iff k k, erase_absent k m d) in
      let full : leb max_entries (suc (length m)) ≡ true = ground arith in
      rw (full, gone) (make_room-room m o (omega arith))

  put-new :
      (k : String) (v : V) (m : List (String × V)) (o : List String) (c : OcrCache V)
      → make_room c.entries c.order ≡ record { entries = m; order = o }
      → is_empty k ≡ false
      → has_key k c.entries ≡ false
      → put k v c ≡ record { entries = insert k v m; order = o ++ k ∷ [] }
  unfolding put
  put-new k v m o c r n f = rw (n, f, r, put) refl

  -- A new key goes to the end of a queue that has room for it.
  append-IsValid :
      (k : String) (v : V) (m : List (String × V)) (o : List String)
      → keys m ≡ o
      → Distinct o
      → length o < max_entries
      → has_key k m ≡ false
      → IsValid (record { entries = insert k v m; order = o ++ k ∷ [] })
  append-IsValid k v m o l d b n = record {
    listed = keys-insert_new k v m n ∙ ap (λ ks. ks ++ k ∷ []) l;
    distinct = Distinct-append k o d (ap (contains k) (sym l) ∙ has_key-keys k m ∙ n);
    bounded = omega (arith, length-append o (k ∷ []));
  }

  -- The cache with the given table.
  abbrev pub of_entries : List (String × V) → OcrCache V
  of_entries m = record { entries = m; order = keys m }

  pub eq-of_entries : (c : OcrCache V) → IsValid c → of_entries c.entries ≡ c
  eq-of_entries c v = λ i. record { entries = c.entries; order = v.listed i }

  put-room :
      (k : String) (v : V) (m : List (String × V))
      → is_empty k ≡ false
      → has_key k m ≡ false
      → length m < max_entries
      → put k v (of_entries m) ≡ record { entries = insert k v m; order = keys m ++ k ∷ [] }
  put-room k v m n f b = put-new k v m (keys m) (of_entries m) (make_room-room m (keys m) b) n f

  put-full :
      (k j : String) (v w : V) (m : List (String × V))
      → is_empty k ≡ false
      → has_key k ((j, w) ∷ m) ≡ false
      → has_key j m ≡ false
      → suc (length m) ≡ max_entries
      → put k v (of_entries ((j, w) ∷ m))
        ≡ record { entries = insert k v m; order = keys m ++ k ∷ [] }
  put-full k j v w m n f d b =
      put-new k v m (keys m) (of_entries ((j, w) ∷ m))
        (unfold keys in make_room-full j w m (keys m) b d) n f

  put_new-IsValid :
      (k : String) (v : V) (m : List (String × V))
      → Distinct (keys m)
      → length m ≤ max_entries
      → is_empty k ≡ false
      → has_key k m ≡ false
      → IsValid (put k v (of_entries m))
  unfolding keys has_key
  put_new-IsValid k v [] d b n f =
      rw (put-room k v [] n f (omega arith)) (append-IsValid k v [] [] refl tt (omega arith) f)
  put_new-IsValid k v ((j, w) ∷ m) d b n f =
      elim (Bool-cases (leb max_entries (length ((j, w) ∷ m)))) [
        | inl full ↦
            rw
              (put-full k j v w m n f (sym (has_key-keys j m) ∙ d.0)
                (omega (arith, leb→le _ _ full)))
              (append-IsValid k v m (keys m) refl d.1 (omega (arith, length-keys m)) (ground arith))
        | inr room ↦ rw (put-room k v ((j, w) ∷ m) n f (ground arith)) (
            append-IsValid k v ((j, w) ∷ m) (keys ((j, w) ∷ m)) refl d
              (ground (arith, length-keys m)) f)
      ]

  make_put-IsValid :
      (k : String) (v : V) (m : List (String × V))
      → Distinct (keys m)
      → length m ≤ max_entries
      → IsValid (put k v (of_entries m))
  unfolding put
  make_put-IsValid k v m d b = elim (Bool-cases (is_empty k)) [
    | inl e ↦
        rw (e, put) (record { listed = refl; distinct = d; bounded = omega (arith, length-keys m) })
    | inr n ↦ elim (Bool-cases (has_key k m)) [
      | inl old ↦
          rw (n, old, put)
            (record {
              listed = keys-insert_old k v m old;
              distinct = d;
              bounded = omega (arith, length-keys m);
            })
      | inr new ↦ put_new-IsValid k v m d b n new
    ]
  ]

  -- Every write keeps the queue a list of the table's keys, each once, and at most 30 of them.
  pub put-IsValid : (k : String) (v : V) (c : OcrCache V) → IsValid c → IsValid (put k v c)
  put-IsValid k v c valid =
      subst (λ r. IsValid (put k v r)) (eq-of_entries c valid)
        (make_put-IsValid k v c.entries (subst Distinct (sym valid.listed) valid.distinct)
          (omega (arith, length-keys c.entries, ap length valid.listed, valid.bounded)))

  lookup_absent : (k : String) (m : List (String × V)) → has_key k m ≡ false → lookup k m ≡ none
  unfolding lookup has_key
  lookup_absent k [] h = refl
  lookup_absent k ((j, w) ∷ m) h = ground (arith, lookup_absent k m)

  -- The value written last under a key that is not empty is the one that is read there, also when
  -- the write drops another entry.
  pub get-put :
      (k : String) (v : V) (c : OcrCache V) → is_empty k ≡ false → get k (put k v c) ≡ some v
  unfolding get put
  get-put k v c n = ground (
    arith,
    lookup-insert k k v c.entries,
    lookup-insert k k v (make_room c.entries c.order).entries,
    eq_iff k k,
  )

  -- A new frame in a full cache takes the place of the one inserted first, whichever was read or
  -- overwritten last; every other frame keeps its result.
  pub get-put_full :
      (k j oldest : String) (v w : V) (m : List (String × V))
      → IsValid (of_entries ((oldest, w) ∷ m))
      → length ((oldest, w) ∷ m) ≡ max_entries
      → is_empty k ≡ false
      → has_key k ((oldest, w) ∷ m) ≡ false
      → get j (put k v (of_entries ((oldest, w) ∷ m))) ≡ (
          if str_eq k j
          then some v
          else if str_eq oldest j
          then none
          else get j (of_entries ((oldest, w) ∷ m)))
  unfolding get lookup has_key keys
  get-put_full k j oldest v w m valid b n f =
      let gone : has_key oldest m ≡ false = sym (has_key-keys oldest m) ∙ valid.distinct.0 in
      rw (put-full k oldest v w m n f gone b) (
        ground (
          arith,
          lookup-insert k j v m,
          lookup_absent oldest m gone,
          eq_iff k j,
          eq_iff oldest j,
          eq_iff j "",
        ))
