-- ===== src/Gateway/Histories.antt =====
-- WebSocketApiServer: what each slot does to the authenticated clients and the outputs.
use quick_desk.Base.{
  ℕ, ◌≡◌, refl, inl, inr, Bool, true, false, not, ◌&&◌, ◌||◌, String, List, [], ◌∷◌, ◌++◌, Option,
  none, some, if_split, str_eq, is_empty, arith, Option-cases, nat_eq, string_eq, get_elem?,
}
use quick_desk.Base.Dict.{contains, remove, lookup, contains-remove}
use quick_desk.Security.Access.{
  PermissionLevel, no_access, read_only, full_control, is_method_allowed, is_device_allowed,
  is_dangerous_operation,
}
use quick_desk.Security.Limits.{check_rate_limit}
use quick_desk.Gateway.State.{
  ClientId, client_id_eq, Request, Reason, session_timeout, timed_out, answer, Output, sent, closed,
  deleted, audit_allowed, audit_denied, rate_limit_signal, anomaly_signal, listening_changed,
  Server, Qt, client_id, permission_of, is_rate_limit,
}
use quick_desk.Gateway.Guard.{
  deny, call_handler, async_methods, guard_danger, guard_device, guard_method, guard_request, admit,
  authenticate_client, enter, on_text_message,
}
use quick_desk.Gateway.Events.{
  close_all, send_all, accept, on_new_connection, on_client_disconnected, on_session_expired,
  expire_all, finish_job,
}
use quick_desk.Gateway.Passage.{authenticate-auth}
use quick_desk.Gateway.Members.{are_quiet, IsGuarded, Guarded, put_quiet, put_handled, put_member}

deny-Guarded :
    (cid : ClientId) (method : String) (reason : Reason) (s : Server)
    → Guarded s
    → Guarded (deny cid method reason s)
unfolding deny
deny-Guarded cid method reason s w =
    let logged = put_quiet (audit_denied cid method reason) refl w in
    if_split Guarded (is_rate_limit reason)
      (λ _.
        put_quiet (anomaly_signal cid) refl (put_quiet (rate_limit_signal cid method) refl logged))
      (λ _. logged)

call_handler-Guarded :
    (client : ℕ) (r : Request) (s : Server)
    → contains client s.authenticated_clients ≡ true
    → Guarded s
    → Guarded (call_handler client r s)
unfolding call_handler
call_handler-Guarded client r s h w =
    let called = put_handled client r h w in
    if_split Guarded (contains r.method async_methods) (λ _. called)
      (λ _. put_quiet (sent client (answer r r.id)) refl called)

guard_request-Guarded :
    (qt : Qt) (now client : ℕ) (cid : ClientId) (r : Request) (s : Server)
    → contains client s.authenticated_clients ≡ true
    → Guarded s
    → Guarded (guard_request qt now client cid r s)
unfolding guard_request guard_method guard_device guard_danger
guard_request-Guarded qt now client cid r s h w =
    if_split Guarded (check_rate_limit cid now s.limits).1
      (λ _.
        if_split Guarded (is_method_allowed r.method (permission_of client s))
          (λ _.
            if_split Guarded
              (str_eq r.method "connectToHost"
                && not (is_device_allowed r.params.device_id s.access))
              (λ _. put_quiet _ refl (deny-Guarded cid r.method _ _ w))
              (λ _.
                if_split Guarded (is_dangerous_operation qt.to_lower r.method r.params)
                  (λ _. put_quiet _ refl (put_quiet _ refl (deny-Guarded cid r.method _ _ w)))
                  (λ _.
                    call_handler-Guarded client r _ h
                      (put_quiet (audit_allowed cid r.method) refl w))))
          (λ _. put_quiet _ refl (deny-Guarded cid r.method _ _ w)))
      (λ _. put_quiet _ refl (deny-Guarded cid r.method _ _ w))

admit-Guarded :
    (qt : Qt) (client : ℕ) (r : Request) (permission : PermissionLevel) (s : Server)
    → Guarded s
    → Guarded (admit qt client r permission s).0
unfolding admit
admit-Guarded qt client r no_access s w =
    put_quiet _ refl
      (put_quiet _ refl (put_quiet _ refl (deny-Guarded (client_id qt client s) "auth" _ s w)))
admit-Guarded qt client r read_only s w =
    put_member client read_only r.id (put_quiet _ refl (put_quiet _ refl w))
admit-Guarded qt client r full_control s w =
    put_member client full_control r.id (put_quiet _ refl (put_quiet _ refl w))

authenticate_client-Guarded :
    (qt : Qt) (client : ℕ) (r : Request) (s : Server)
    → Guarded s
    → Guarded (authenticate_client qt client r s).0
unfolding authenticate_client
authenticate_client-Guarded qt client r s w =
    if_split (λ (p : Server × Bool). Guarded p.0) (str_eq r.method "auth")
      (λ _. admit-Guarded qt client r _ s w) (λ _. put_quiet _ refl w)

enter-Guarded :
    (qt : Qt) (now client : ℕ) (cid : ClientId) (r : Request) (s : Server)
    → Guarded s
    → Guarded (enter qt now client cid r (authenticate_client qt client r s))
unfolding enter
enter-Guarded qt now client cid r s w =
    rw (authenticate-auth qt client r s, enter) (authenticate_client-Guarded qt client r s w)

pub on_text_message-Guarded :
    (qt : Qt) (now client : ℕ) (doc : Option Request) (s : Server)
    → Guarded s
    → Guarded (on_text_message qt now client doc s)
unfolding on_text_message
on_text_message-Guarded qt now client none s w = put_quiet _ refl w
on_text_message-Guarded qt now client (some r) s w =
    if_split Guarded (not (is_empty s.auth_token) && not (contains client s.authenticated_clients))
      (λ _. enter-Guarded qt now client (client_id qt client s) r _ w)
      (λ e.
        guard_request-Guarded qt now client (client_id qt client s) r _
          (ground (arith, e, w.locked)) w)

-- Members may leave.
pub drop_members :
    {token : String} {members fewer : List ℕ} {outs : List Output}
    → ((c : ℕ) → contains c fewer ≡ true → contains c members ≡ true)
    → IsGuarded token members outs
    → IsGuarded token fewer outs
drop_members h w = record { locked = w.locked; safe = w.safe; told = λ c p. w.told c (h c p) }

accept-Guarded : (now client : ℕ) (s : Server) → Guarded s → Guarded (accept now client s)
unfolding accept
accept-Guarded now client s w =
    if_split Guarded (is_empty s.auth_token) (λ e. absurd (ground (arith, e, w.locked))) (λ _. w)

pub on_new_connection-Guarded :
    (now : ℕ) (pending : List (Option ℕ)) (s : Server)
    → Guarded s
    → Guarded (on_new_connection now pending s)
unfolding on_new_connection
on_new_connection-Guarded now [] s w = w
on_new_connection-Guarded now (none ∷ pending) s w = on_new_connection-Guarded now pending s w
on_new_connection-Guarded now (some client ∷ pending) s w =
    on_new_connection-Guarded now pending (accept now client s) (accept-Guarded now client s w)

pub on_client_disconnected-Guarded :
    (qt : Qt) (client : ℕ) (s : Server) → Guarded s → Guarded (on_client_disconnected qt client s)
unfolding on_client_disconnected
on_client_disconnected-Guarded qt client s w =
    let left = put_quiet (deleted client) refl (
      drop_members {fewer = remove client s.authenticated_clients}
        (λ c p. ground (arith, contains-remove client c s.authenticated_clients, p)) w) in
    if_split Guarded (contains client s.authenticated_clients) (λ _. put_quiet _ refl left)
      (λ _. left)

on_session_expired-Guarded :
    (cid : ClientId) (s : Server) → Guarded s → Guarded (on_session_expired cid s)
unfolding on_session_expired
on_session_expired-Guarded cid s w = elim (Option-cases (lookup cid s.client_id_map)) [
  | inl e ↦ rw (e, on_session_expired) w
  | inr (client, e) ↦
      rw (e, on_session_expired)
        (put_quiet (closed client) refl (
          put_quiet (sent client timed_out) refl
            (deny-Guarded cid "SESSION_TIMEOUT" session_timeout s w)))
]

pub expire_all-Guarded :
    (cids : List ClientId) (s : Server) → Guarded s → Guarded (expire_all cids s)
unfolding expire_all
expire_all-Guarded [] s w = w
expire_all-Guarded (cid ∷ cids) s w =
    expire_all-Guarded cids (on_session_expired cid s) (on_session_expired-Guarded cid s w)

pub finish_job-Guarded : (i : ℕ) (s : Server) → Guarded s → Guarded (finish_job i s)
unfolding finish_job
finish_job-Guarded i s w = elim (Option-cases (get_elem? s.jobs i)) [
  | inl e ↦ rw (e, finish_job) w
  | inr ((client, r), e) ↦
      rw (e, finish_job)
        (if_split Guarded (contains client s.clients || contains client s.authenticated_clients)
          (λ _. put_quiet _ refl w) (λ _. w))
]

pub close_all_quiet :
    (cs : List ℕ) → are_quiet (close_all cs ++ listening_changed false ∷ []) ≡ true
unfolding close_all
close_all_quiet [] = refl
close_all_quiet (c ∷ cs) = close_all_quiet cs

pub send_all_quiet : (text : String) (cs : List ℕ) → are_quiet (send_all text cs) ≡ true
unfolding send_all
send_all_quiet text [] = refl
send_all_quiet text (c ∷ cs) = send_all_quiet text cs
