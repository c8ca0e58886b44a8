-- ===== src/Clients/Listings.antt =====
-- ClientManager: the message connectionListChanged, which replaces both maps.
use quick_desk.Base.{
  ℕ, zero, suc, ◌≡◌, refl, ap, ◌≤◌, inl, inr, Bool, true, false, not, ◌&&◌, ◌||◌, String, List, [],
  ◌∷◌, none, is_some, arith, str_eq, string_eq, eq_iff, any, Bool-cases, Option-cases,
}
use quick_desk.Base.Dict.{
  lookup, insert, has_key, has_key-lookup, has_key-insert, is_dict, is_dict-insert,
}
use quick_desk.Transfer.Data.{TransferQueue}
use quick_desk.Clients.State.{ConnectionInfo, Settings, ClientManager}
use quick_desk.Clients.Transfers.{Entry, entry_info, take_entries}
use quick_desk.Clients.Wired.{IsWired, add-IsWired}

-- One of the first n + 1 identifiers.
unfoldable pub is_issued : Settings → ℕ → String → Bool
is_issued s zero c = str_eq c (s.conn_name zero)
is_issued s (suc n) c = str_eq c (s.conn_name (suc n)) || is_issued s n c

abbrev pub shares : Entry → Entry → Bool
shares e other = str_eq e.connection_id other.connection_id || str_eq e.device_id other.device_id

-- The entries have identifiers that were issued, and no two share an identifier or a device.
unfoldable pub is_proper : Settings → ℕ → List Entry → Bool
is_proper s n [] = true
is_proper s n (e ∷ es) =
    is_issued s n e.connection_id && not (any (shares e) es) && is_proper s n es

is_issued_name :
    (s : Settings) (n : ℕ) (c : String)
    → is_issued s n c ≡ true
    → (j : ℕ) × (c ≡ s.conn_name j) × (j ≤ n)
unfolding is_issued
is_issued_name s zero c h = (zero, (eq_iff c (s.conn_name zero)).0 h, omega arith)
is_issued_name s (suc n) c h = elim (Bool-cases (str_eq c (s.conn_name (suc n)))) [
  | inl same ↦ (suc n, (eq_iff c (s.conn_name (suc n))).0 same, omega arith)
  | inr other ↦
      let (j, name, le) = is_issued_name s n c (ground (arith, other, h)) in
      (j, name, omega (arith, le))
]

pub absent_lookup :
    {A : Type 0} (x : String) (m : List (String × A)) → has_key x m ≡ false → lookup x m ≡ none
absent_lookup x m h = elim (Option-cases (lookup x m)) [
  | inl e ↦ e
  | inr (v, e) ↦ absurd (cc (h, has_key-lookup x m, ap is_some e))
]

abbrev pub is_taken : List (String × ConnectionInfo) → List (String × String) → Entry → Bool
is_taken ks ids e = has_key e.device_id ks || has_key e.connection_id ids

still_free :
    (ks : List (String × ConnectionInfo)) (ids : List (String × String)) (e : Entry)
    (k : ConnectionInfo) (es : List Entry)
    → any (shares e) es ≡ false
    → any (is_taken ks ids) es ≡ false
    → any (is_taken (insert e.device_id k ks) (insert e.connection_id e.device_id ids)) es ≡ false
unfolding any
still_free ks ids e k [] h f = refl
still_free ks ids e k (x ∷ es) h f = ground (
  arith,
  has_key-insert e.device_id x.device_id k ks,
  has_key-insert e.connection_id x.connection_id e.device_id ids,
  still_free ks ids e k es,
  h,
  f,
)

-- The maps that the entries fill.
pub take_entries-IsWired :
    {s : Settings} {n : ℕ} (q : TransferQueue) (old : List (String × ConnectionInfo))
    (es : List Entry) (m : ClientManager)
    → is_proper s n es ≡ true
    → any (is_taken m.connections m.conn_id_to_device_id) es ≡ false
    → is_dict m.connections ≡ true
    → IsWired s n m.connections m.conn_id_to_device_id q
    → IsWired s n (take_entries old es m).connections (take_entries old es m).conn_id_to_device_id q
      × (is_dict (take_entries old es m).connections ≡ true)
unfolding take_entries is_proper any
take_entries-IsWired q old [] m p f z w = (w, z)
take_entries-IsWired {s} {n} q old (e ∷ es) m p f z w =
    let k = entry_info old e in
    take_entries-IsWired q old es _ (ground (arith, p))
      (still_free m.connections m.conn_id_to_device_id e k es (ground (arith, p))
        (ground (arith, f)))
      (is_dict-insert e.device_id k m.connections z)
      (add-IsWired e.device_id k n (absent_lookup e.device_id m.connections (ground (arith, f)))
        (absent_lookup e.connection_id m.conn_id_to_device_id (ground (arith, f))) refl
        (is_issued_name s n e.connection_id (ground (arith, p))) (omega arith) w)

pub take_entries_rest :
    (old : List (String × ConnectionInfo)) (es : List Entry) (m : ClientManager)
    → ((take_entries old es m).connection_counter ≡ m.connection_counter)
      × ((take_entries old es m).transfers ≡ m.transfers)
unfolding take_entries
take_entries_rest old [] m = (refl, refl)
take_entries_rest old (e ∷ es) m = take_entries_rest old es _
