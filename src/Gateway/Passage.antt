-- ===== src/Gateway/Passage.antt =====
-- Which requests reach ApiHandler.
use mathlib.Core.List.{append-nil}
use quick_desk.Base.{
  ℕ, ◌≡◌, refl, ap, inl, inr, Bool, true, false, not, ◌&&◌, ◌||◌, String, List, [], ◌∷◌, ◌++◌, some,
  str_eq, is_empty, arith, Bool-cases, if_split, nat_eq, string_eq,
}
use quick_desk.Base.Dict.{contains}
use quick_desk.Security.Access.{
  PermissionLevel, no_access, is_method_allowed, is_device_allowed, is_dangerous_operation,
}
use quick_desk.Security.Limits.{record_activity, check_rate_limit}
use quick_desk.Gateway.State.{
  ClientId, client_id_eq, Request, Reason, Output, handled, Server, Qt, client_id, permission_of,
  is_rate_limit,
}
use quick_desk.Gateway.Guard.{
  deny, call_handler, async_methods, guard_danger, guard_device, guard_method, guard_request, admit,
  authenticate_client, enter, on_text_message,
}

-- The calls of the handler among the outputs, in order.
unfoldable pub handled_of : List Output → List (ℕ × Request)
handled_of [] = []
handled_of (handled client r ∷ os) = (client, r) ∷ handled_of os
handled_of (o ∷ os) = handled_of os

handled_of-append : (xs ys : List Output) → handled_of (xs ++ ys) ≡ handled_of xs ++ handled_of ys
unfolding handled_of
handled_of-append [] ys = refl
handled_of-append (handled client r ∷ xs) ys = ap (◌∷◌ (client, r)) (handled_of-append xs ys)
handled_of-append (_ ∷ xs) ys = handled_of-append xs ys

-- One request if the test passes, none otherwise.
abbrev pub one_if : Bool → ℕ × Request → List (ℕ × Request)
one_if true call = call ∷ []
one_if false call = []

ruleset quiet = (handled_of-append, append-nil)

handled_of-deny :
    (cid : ClientId) (method : String) (reason : Reason) (s : Server)
    → handled_of (deny cid method reason s).outputs ≡ handled_of s.outputs
unfolding deny handled_of
handled_of-deny cid method reason s =
    if_split (λ (r : Server). handled_of r.outputs ≡ handled_of s.outputs) (is_rate_limit reason)
      (λ _. simp quiet) (λ _. simp quiet)

handled_of-call_handler :
    (client : ℕ) (r : Request) (s : Server)
    → handled_of (call_handler client r s).outputs ≡ handled_of s.outputs ++ (client, r) ∷ []
unfolding call_handler handled_of
handled_of-call_handler client r s =
    if_split (λ (t : Server). handled_of t.outputs ≡ handled_of s.outputs ++ (client, r) ∷ [])
      (contains r.method async_methods) (λ _. simp quiet) (λ _. simp quiet)

-- The conditions under which a request is passed on, by the settings of the server.
abbrev pub is_device_ok : Request → Server → Bool
is_device_ok r s =
    not (str_eq r.method "connectToHost") || is_device_allowed r.params.device_id s.access

abbrev pub is_known : ℕ → Server → Bool
is_known client s = is_empty s.auth_token || contains client s.authenticated_clients

module _ (qt : Qt) (client : ℕ) (cid : ClientId) (r : Request) where
  handled_of-guard_danger :
      (s : Server)
      → handled_of (guard_danger qt client cid r s).outputs
        ≡ handled_of s.outputs
          ++ one_if (not (is_dangerous_operation qt.to_lower r.method r.params)) (client, r)
  unfolding guard_danger handled_of
  handled_of-guard_danger s =
      elim (Bool-cases (is_dangerous_operation qt.to_lower r.method r.params)) [
        | inl e ↦ rw e (simp (quiet, handled_of-deny))
        | inr e ↦ rw e (simp (quiet, handled_of-call_handler))
      ]

  handled_of-guard_device :
      (s : Server)
      → handled_of (guard_device qt client cid r s).outputs
        ≡ handled_of s.outputs
          ++ one_if
              (is_device_ok r s && not (is_dangerous_operation qt.to_lower r.method r.params))
              (client, r)
  unfolding guard_device handled_of
  handled_of-guard_device s = elim (Bool-cases (str_eq r.method "connectToHost")) [
    | inl c ↦ elim (Bool-cases (is_device_allowed r.params.device_id s.access)) [
      | inl a ↦ rw (c, a) (handled_of-guard_danger s)
      | inr a ↦ rw (c, a) (simp (quiet, handled_of-deny))
    ]
    | inr n ↦ rw n (handled_of-guard_danger s)
  ]

  handled_of-guard_method :
      (permission : PermissionLevel) (s : Server)
      → handled_of (guard_method qt client cid permission r s).outputs
        ≡ handled_of s.outputs
          ++ one_if
              (is_method_allowed r.method permission
                && (is_device_ok r s && not (is_dangerous_operation qt.to_lower r.method r.params)))
              (client, r)
  unfolding guard_method handled_of
  handled_of-guard_method permission s = elim (Bool-cases (is_method_allowed r.method permission)) [
    | inl a ↦ rw a (handled_of-guard_device s)
    | inr d ↦ rw d (simp (quiet, handled_of-deny))
  ]

  handled_of-guard_request :
      (now : ℕ) (s : Server)
      → handled_of (guard_request qt now client cid r s).outputs
        ≡ handled_of s.outputs
          ++ one_if
              ((check_rate_limit cid now s.limits).1
                && (is_method_allowed r.method (permission_of client s)
                    && (is_device_ok r s
                        && not (is_dangerous_operation qt.to_lower r.method r.params))))
              (client, r)
  unfolding guard_request handled_of
  handled_of-guard_request now s = elim (Bool-cases (check_rate_limit cid now s.limits).1) [
    | inl a ↦ rw a (handled_of-guard_method (permission_of client s) _)
    | inr d ↦ rw d (simp (quiet, handled_of-deny))
  ]

handled_of-admit :
    (qt : Qt) (client : ℕ) (r : Request) (permission : PermissionLevel) (s : Server)
    → handled_of (admit qt client r permission s).0.outputs ≡ handled_of s.outputs
unfolding admit handled_of
handled_of-admit qt client r no_access s = simp (quiet, handled_of-deny)
handled_of-admit qt client r permission s = simp quiet

handled_of-authenticate :
    (qt : Qt) (client : ℕ) (r : Request) (s : Server)
    → handled_of (authenticate_client qt client r s).0.outputs ≡ handled_of s.outputs
unfolding authenticate_client handled_of
handled_of-authenticate qt client r s = elim (Bool-cases (str_eq r.method "auth")) [
  | inl a ↦ rw a (handled_of-admit qt client r _ s)
  | inr n ↦ rw n (simp quiet)
]

-- Only an "auth" request passes `authenticateClient`.
pub authenticate-auth :
    (qt : Qt) (client : ℕ) (r : Request) (s : Server)
    → (not (authenticate_client qt client r s).1 || str_eq r.method "auth") ≡ true
unfolding authenticate_client
authenticate-auth qt client r s = elim (Bool-cases (str_eq r.method "auth")) [
  | inl a ↦ rw a (ground arith)
  | inr n ↦ rw n refl
]

handled_of-enter :
    (qt : Qt) (now client : ℕ) (cid : ClientId) (r : Request) (s : Server)
    → handled_of (enter qt now client cid r (authenticate_client qt client r s)).outputs
      ≡ handled_of s.outputs
unfolding enter
handled_of-enter qt now client cid r s =
    rw (authenticate-auth qt client r s) (handled_of-authenticate qt client r s)

check_answer :
    (cid : ClientId) (now : ℕ) (s : Server)
    → (check_rate_limit cid now (record_activity cid now s.limits)).1
      ≡ (check_rate_limit cid now s.limits).1
unfolding check_rate_limit record_activity
check_answer cid now s = ground arith

-- Whether a request is passed on: a token is not needed or the client has shown it, the rate
-- limit of the client allows it, its permission covers the method, the device is allowed if the
-- method connects to one, and the operation is not dangerous.
abbrev pub passes : Qt → ℕ → ℕ → Request → Server → Bool
passes qt now client r s =
    is_known client s
    && ((check_rate_limit (client_id qt client s) now s.limits).1
        && (is_method_allowed r.method (permission_of client s)
            && (is_device_ok r s && not (is_dangerous_operation qt.to_lower r.method r.params))))

handled_of-active :
    (qt : Qt) (now client : ℕ) (r : Request) (s : Server)
    → handled_of
        (guard_request qt now client
          (client_id qt client s)
          r
          (record s { limits = record_activity (client_id qt client s) now s.limits })).outputs
      ≡ handled_of s.outputs
        ++ one_if
            ((check_rate_limit (client_id qt client s) now s.limits).1
              && (is_method_allowed r.method (permission_of client s)
                  && (is_device_ok r s
                      && not (is_dangerous_operation qt.to_lower r.method r.params))))
            (client, r)
unfolding permission_of
handled_of-active qt now client r s =
    let cid = client_id qt client s in
    rw (← check_answer cid now s) (
      handled_of-guard_request qt client cid r now
        (record s { limits = record_activity cid now s.limits }))

-- A text message makes ApiHandler handle its request, once, exactly if the client needs no token
-- or has shown it, its rate limit allows the request, its permission covers the method, a device
-- to connect to is allowed, and the operation is not dangerous; otherwise the message makes the
-- handler handle nothing.
pub on_text_message-handles :
    (qt : Qt) (now client : ℕ) (r : Request) (s : Server)
    → handled_of (on_text_message qt now client (some r) s).outputs
      ≡ handled_of s.outputs ++ one_if (passes qt now client r s) (client, r)
unfolding on_text_message
on_text_message-handles qt now client r s =
    let cid = client_id qt client s in
    let active : Server = record s { limits = record_activity cid now s.limits } in
    ground (
      arith,
      handled_of-active qt now client r s,
      handled_of-enter qt now client cid r active,
      append-nil (handled_of s.outputs),
    )
