-- ===== src/Gateway/Members.antt =====
-- The clients of the server that have been told that they are authenticated.
use quick_desk.Base.{
  ℕ, ◌≡◌, refl, Bool, true, false, ◌&&◌, String, List, [], ◌∷◌, ◌++◌, Option, is_empty, arith,
  nat_eq, nat_eqb_iff, string_eq,
}
use quick_desk.Base.Dict.{contains, add, contains-add}
use quick_desk.Security.Access.{PermissionLevel}
use quick_desk.Gateway.State.{client_id_eq, Request, authenticated, Output, sent, handled, Server}

-- The clients that have been told that they are authenticated, after one more output.
unfoldable pub note : Output → List ℕ → List ℕ
note (sent c (authenticated p i)) known = c ∷ known
note o known = known

unfoldable pub allowed : List ℕ → Output → Bool
allowed known (handled c r) = contains c known
allowed known o = true

-- Every handled request in the outputs is one of a client that has been told so before it.
unfoldable pub guarded : List ℕ → List Output → Bool
guarded known [] = true
guarded known (o ∷ os) = allowed known o && guarded (note o known) os

unfoldable pub known_after : List ℕ → List Output → List ℕ
known_after known [] = known
known_after known (o ∷ os) = known_after (note o known) os

abbrev pub is_quiet : Output → Bool
is_quiet (handled c r) = false
is_quiet o = true

abbrev pub are_quiet : List Output → Bool
are_quiet [] = true
are_quiet (o ∷ os) = is_quiet o && are_quiet os

guarded-append :
    (known : List ℕ) (xs ys : List Output)
    → guarded known (xs ++ ys) ≡ (guarded known xs && guarded (known_after known xs) ys)
unfolding guarded known_after
guarded-append known [] ys = refl
guarded-append known (x ∷ xs) ys = ground (arith, guarded-append (note x known) xs ys)

known_after-append :
    (known : List ℕ) (xs ys : List Output)
    → known_after known (xs ++ ys) ≡ known_after (known_after known xs) ys
unfolding known_after
known_after-append known [] ys = refl
known_after-append known (x ∷ xs) ys = known_after-append (note x known) xs ys

note_grows :
    (o : Output) (c : ℕ) (known : List ℕ)
    → contains c known ≡ true
    → contains c (note o known) ≡ true
unfolding note contains
note_grows (sent d (authenticated p i)) c known h = ground arith
note_grows _ c known h = h

known_after_grows :
    (c : ℕ) (known : List ℕ) (os : List Output)
    → contains c known ≡ true
    → contains c (known_after known os) ≡ true
unfolding known_after
known_after_grows c known [] h = h
known_after_grows c known (o ∷ os) h =
    known_after_grows c (note o known) os (note_grows o c known h)

allowed_quiet : (o : Output) (known : List ℕ) → is_quiet o ≡ true → allowed known o ≡ true
unfolding allowed
allowed_quiet (handled c r) known h = cc
allowed_quiet _ known h = refl

guarded_quiet : (known : List ℕ) (os : List Output) → are_quiet os ≡ true → guarded known os ≡ true
unfolding guarded
guarded_quiet known [] h = refl
guarded_quiet known (o ∷ os) h =
    ground (arith, allowed_quiet o known, guarded_quiet (note o known) os)

-- What holds of a server with a token: its authenticated clients have been told so.
pub record IsGuarded (token : String) (members : List ℕ) (outs : List Output) : Type 0 where
  pub locked : is_empty token ≡ false
  pub safe : guarded [] outs ≡ true
  pub told : (c : ℕ) → contains c members ≡ true → contains c (known_after [] outs) ≡ true

abbrev pub Guarded : Server → Type 0
Guarded s = IsGuarded s.auth_token s.authenticated_clients s.outputs

pub append_quiet :
    (token : String) (members : List ℕ) (outs more : List Output)
    → are_quiet more ≡ true
    → IsGuarded token members outs
    → IsGuarded token members (outs ++ more)
append_quiet token members outs more h w = record {
  locked = w.locked;
  safe =
      ground
        (arith, guarded-append [] outs more, guarded_quiet (known_after [] outs) more h, w.safe);
  told = λ c p.
      rw (known_after-append [] outs more)
        (known_after_grows c (known_after [] outs) more (w.told c p));
}

pub put_quiet :
    {token : String} {members : List ℕ} {outs : List Output} (o : Output)
    → is_quiet o ≡ true
    → IsGuarded token members outs
    → IsGuarded token members (outs ++ o ∷ [])
put_quiet {token} {members} {outs} o h w =
    append_quiet token members outs (o ∷ []) (ground (arith, h)) w

pub put_handled :
    {token : String} {members : List ℕ} {outs : List Output} (c : ℕ) (r : Request)
    → contains c members ≡ true
    → IsGuarded token members outs
    → IsGuarded token members (outs ++ handled c r ∷ [])
unfolding guarded allowed known_after note
put_handled {token} {members} {outs} c r h w = record {
  locked = w.locked;
  safe = ground (arith, guarded-append [] outs (handled c r ∷ []), w.told c h, w.safe);
  told = λ d p. rw (known_after-append [] outs (handled c r ∷ [])) (w.told d p);
}

-- A client becomes a member and is told so.
pub put_member :
    {token : String} {members : List ℕ} {outs : List Output} (c : ℕ) (p : PermissionLevel)
    (i : Option String)
    → IsGuarded token members outs
    → IsGuarded token (add c members) (outs ++ sent c (authenticated p i) ∷ [])
unfolding known_after note contains
put_member {token} {members} {outs} c p i w =
    let reply = sent c (authenticated p i) in
    let whole = append_quiet token members outs (reply ∷ []) refl w in
    record {
      locked = w.locked;
      safe = whole.safe;
      told = λ d q.
          rw (known_after-append [] outs (reply ∷ []))
            (ground (arith, contains-add c d members, w.told d, nat_eqb_iff c d));
    }
