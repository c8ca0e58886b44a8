-- ===== src/Gateway/Guard.antt =====
-- `onTextMessageReceived` and `authenticateClient`.
use quick_desk.Base.{
  ℕ, Bool, true, false, not, ◌&&◌, ◌||◌, String, List, [], ◌∷◌, ◌++◌, Option, none, some,
  if◌then◌else◌, str_eq, is_empty, length, nat_eq, string_eq,
}
use quick_desk.Base.Dict.{contains, add, insert, lookup}
use quick_desk.Security.Access.{
  PermissionLevel, no_access, authenticate_token, is_method_allowed, is_device_allowed,
  is_dangerous_operation,
}
use quick_desk.Security.Limits.{record_activity, check_rate_limit}
use quick_desk.Gateway.State.{
  ClientId, peer, client_id_eq, Request, Reason, rate_limit, permission_denied, device_not_allowed,
  dangerous_operation, invalid_token, parse_error, auth_required, token_refused, authenticated,
  rate_exceeded, method_denied, device_denied, operation_blocked, answer, sent, closed, handled,
  audit_allowed, audit_denied, rate_limit_signal, anomaly_signal, dangerous_signal, count_changed,
  Server, put_out, Qt, client_id, permission_of, is_rate_limit,
}

-- SecurityManager::logAudit of a denied request; the text of the entry is not kept.
unfoldable pub deny : ClientId → String → Reason → Server → Server
deny cid method reason s =
    let logged = put_out (audit_denied cid method reason) s in
    if is_rate_limit reason
    then put_out (anomaly_signal cid) (put_out (rate_limit_signal cid method) logged)
    else logged

unfoldable pub async_methods : List String
async_methods =
    "getUiState" ∷ "getScreenText" ∷ "findElement" ∷ "clickText" ∷ "assertTextPresent"
    ∷ "assertScreenState" ∷ "screenDiffSummary" ∷ "waitForText" ∷ "verifyActionResult" ∷ "skillExec"
    ∷ "skillListTools" ∷ "requestConfirmation" ∷ []

-- The call of the handler: on the thread pool, or at once with its answer.
unfoldable pub call_handler : ℕ → Request → Server → Server
call_handler client r s =
    let called = put_out (handled client r) s in
    if contains r.method async_methods
    then record called { jobs = s.jobs ++ (client, r) ∷ [] }
    else put_out (sent client (answer r r.id)) called

unfoldable pub guard_danger : Qt → ℕ → ClientId → Request → Server → Server
guard_danger qt client cid r s =
    if is_dangerous_operation qt.to_lower r.method r.params
    then put_out (sent client (operation_blocked r.id))
        (put_out (dangerous_signal cid r.method) (deny cid r.method dangerous_operation s))
    else call_handler client r (put_out (audit_allowed cid r.method) s)

unfoldable pub guard_device : Qt → ℕ → ClientId → Request → Server → Server
guard_device qt client cid r s =
    if str_eq r.method "connectToHost" && not (is_device_allowed r.params.device_id s.access)
    then put_out (sent client (device_denied r.params.device_id r.id))
        (deny cid r.method device_not_allowed s)
    else guard_danger qt client cid r s

unfoldable pub guard_method : Qt → ℕ → ClientId → PermissionLevel → Request → Server → Server
guard_method qt client cid permission r s =
    if is_method_allowed r.method permission
    then guard_device qt client cid r s
    else put_out (sent client (method_denied r.method r.id)) (deny cid r.method permission_denied s)

-- The checks of a request from a client that needs no authentication, or has passed it.
unfoldable pub guard_request : Qt → ℕ → ℕ → ClientId → Request → Server → Server
guard_request qt now client cid r s =
    let (limits, allowed) = check_rate_limit cid now s.limits in
    let checked : Server = record s { limits = limits } in
    if allowed
    then guard_method qt client cid (permission_of client s) r checked
    else put_out (sent client (rate_exceeded r.id)) (deny cid r.method rate_limit checked)

-- The identifier in m_clientInfo[client]; a new entry has an empty one.
unfoldable pub stored_id : ℕ → Server → ClientId
stored_id client s = elim (lookup client s.client_info) [ none ↦ peer "" | some info ↦ info.id ]

-- `authenticateClient` on a request whose method is "auth".
unfoldable pub admit : Qt → ℕ → Request → PermissionLevel → Server → Server × Bool
admit qt client r no_access s =
    let cid = client_id qt client s in
    (
      put_out (closed client) (
          put_out (sent client (token_refused r.id))
            (put_out (anomaly_signal cid) (deny cid "auth" invalid_token s))),
      false,
    )
admit qt client r permission s =
    let members = add client s.authenticated_clients in
    let cid = stored_id client s in
    let entered : Server = record s {
      authenticated_clients = members;
      client_info = insert client (record { permission = permission; id = cid }) s.client_info;
    } in
    (
      put_out (sent client (authenticated permission r.id))
          (put_out (audit_allowed cid "auth") (put_out (count_changed (length members)) entered)),
      true,
    )

unfoldable pub authenticate_client : Qt → ℕ → Request → Server → Server × Bool
authenticate_client qt client r s =
    if str_eq r.method "auth"
    then admit qt client r (authenticate_token r.params.token s.access) s
    else (put_out (sent client (auth_required r.id)) s, false)

-- What follows `authenticateClient`.
unfoldable pub enter : Qt → ℕ → ℕ → ClientId → Request → Server × Bool → Server
enter qt now client cid r (entered, passed) =
    if not passed || str_eq r.method "auth"
    then entered
    else guard_request qt now client cid r entered

-- The request is none where the text is no JSON object.
unfoldable pub on_text_message : Qt → ℕ → ℕ → Option Request → Server → Server
on_text_message qt now client none s =
    let cid = client_id qt client s in
    put_out (sent client parse_error) (record s { limits = record_activity cid now s.limits })
on_text_message qt now client (some r) s =
    let cid = client_id qt client s in
    let active : Server = record s { limits = record_activity cid now s.limits } in
    if not (is_empty s.auth_token) && not (contains client s.authenticated_clients)
    then enter qt now client cid r (authenticate_client qt client r active)
    else guard_request qt now client cid r active
