-- ===== src/Security/AccessLaws.antt =====
-- Who is let in, and to what.
use quick_desk.Base.{
  ◌≡◌, ◌≢◌, ◌↔◌, refl, ◌∙◌, true, false, ◌||◌, String, List, [], ◌∷◌, is_empty, eq_iff, arith,
  string_eq,
}
use quick_desk.Base.Dict.{contains, add, contains-add}
use quick_desk.Security.Access.{
  read_only, full_control, Access, authenticate_token, insert_all, is_nil, set_allowed_devices,
  is_device_allowed,
}

-- A token gives full control exactly if it is the full access token and not empty; it gives
-- read-only access exactly if it is the read-only token, not empty, and not the full access token.
pub authenticate_token_iff :
    (token : String) (a : Access)
    → ((authenticate_token token a ≡ full_control)
        ↔ ((token ≡ a.full_access_token) × (is_empty token ≡ false)))
      × ((authenticate_token token a ≡ read_only) ↔ (
          (token ≡ a.read_only_token) × (is_empty token ≡ false) × (token ≢ a.full_access_token)))
unfolding authenticate_token
authenticate_token_iff token a =
    let full = a.full_access_token in
    let read = a.read_only_token in
    let e1 = eq_iff token full in
    let e2 = eq_iff token read in
    let e3 = eq_iff token "" in
    let e4 = eq_iff full "" in
    let e5 = eq_iff read "" in
    (
      (ground (arith, e1, e2, e3, e4, e5), ground (arith, e1, e2, e3, e4, e5)),
      (ground (arith, e1, e2, e3, e4, e5), ground (arith, e1, e2, e3, e4, e5)),
    )

contains-insert_all :
    (id : String) (ids devices : List String)
    → contains id (insert_all ids devices) ≡ (contains id ids || contains id devices)
unfolding insert_all contains
contains-insert_all id [] devices = refl
contains-insert_all id (x ∷ ids) devices =
    contains-insert_all id ids (add x devices)
    ∙ ground (arith, contains-add x id devices, eq_iff x id)

contains-nil :
    (id : String) (devices : List String) → is_nil devices ≡ true → contains id devices ≡ false
unfolding contains
contains-nil id [] h = refl
contains-nil id (d ∷ devices) h = cc

is_nil-insert_all :
    (id : String) (ids devices : List String) → is_nil (insert_all (id ∷ ids) devices) ≡ false
unfolding contains
is_nil-insert_all id ids devices = ground (
  arith,
  contains-nil id (insert_all (id ∷ ids) devices),
  contains-insert_all id (id ∷ ids) devices,
  eq_iff id id,
)

-- After `setAllowedDevices` a device is allowed exactly if the list is empty or names it.
pub set_allowed_devices-allows :
    (id : String) (ids : List String) (a : Access)
    → is_device_allowed id (set_allowed_devices ids a) ≡ (is_nil ids || contains id ids)
unfolding is_device_allowed set_allowed_devices
set_allowed_devices-allows id [] a = unfold insert_all in refl
set_allowed_devices-allows id (x ∷ ids) a =
    rw (is_nil-insert_all x ids [])
      (contains-insert_all id (x ∷ ids) [] ∙ unfold contains in ground arith)
