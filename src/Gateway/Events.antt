-- ===== src/Gateway/Events.antt =====
-- The other slots of WebSocketApiServer, and the server as a machine over its events.
use quick_desk.Base.{
  zero, ℕ, suc, Bool, true, false, ◌||◌, String, List, [], ◌∷◌, ◌++◌, Option, none, some,
  if◌then◌else◌, is_empty, length, nat_eq, string_eq, get_elem?,
}
use quick_desk.Base.Dict.{contains, add, remove, insert, erase, lookup}
use quick_desk.Security.Access.{full_control, set_full_access_token}
use quick_desk.Security.Limits.{record_activity, remove_client, expired_clients}
use quick_desk.Gateway.State.{
  ClientId, numbered, client_id_eq, Request, session_timeout, answer, timed_out, event, Output,
  sent, closed, deleted, count_changed, listening_changed, Server, put_out, Qt, client_id,
}
use quick_desk.Gateway.Guard.{deny, on_text_message}

-- `start`: `listens` is the answer of QWebSocketServer::listen. A running server is left alone.
unfoldable pub start : Bool → Server → Server
start listens s =
    if s.is_listening
    then s
    else if listens
    then put_out (listening_changed true) (record s { is_listening = true })
    else s

unfoldable pub close_all : List ℕ → List Output
close_all [] = []
close_all (c ∷ cs) = closed c ∷ close_all cs

unfoldable pub stop : Server → Server
stop s =
    if s.is_listening
    then record s {
      is_listening = false;
      clients = [];
      authenticated_clients = [];
      client_info = [];
      client_id_map = [];
      outputs = s.outputs ++ (close_all s.clients ++ listening_changed false ∷ []);
    }
    else s

unfoldable pub set_auth_token : String → Server → Server
set_auth_token token s = record s {
  auth_token = token;
  access = set_full_access_token token s.access;
}

unfoldable pub send_all : String → List ℕ → List Output
send_all text [] = []
send_all text (c ∷ cs) = sent c (event text) ∷ send_all text cs

unfoldable pub broadcast_event : String → Server → Server
broadcast_event text s =
    let targets = if is_empty s.auth_token then s.clients else s.authenticated_clients in
    record s { outputs = s.outputs ++ send_all text targets }

-- One round of the loop of `onNewConnection`.
unfoldable pub accept : ℕ → ℕ → Server → Server
accept now client s =
    let id = numbered s.next_client_id in
    let joined : Server = record s {
      clients = add client s.clients;
      next_client_id = suc s.next_client_id;
      client_info = insert client (record { permission = full_control; id = id }) s.client_info;
      client_id_map = insert id client s.client_id_map;
      limits = record_activity id now s.limits;
    } in
    let members = add client s.authenticated_clients in
    if is_empty s.auth_token
    then put_out (count_changed (length members))
        (record joined { authenticated_clients = members })
    else joined

-- The pending connections; a null one is skipped.
unfoldable pub on_new_connection : ℕ → List (Option ℕ) → Server → Server
on_new_connection now [] s = s
on_new_connection now (none ∷ pending) s = on_new_connection now pending s
on_new_connection now (some client ∷ pending) s =
    on_new_connection now pending (accept now client s)

unfoldable pub on_client_disconnected : Qt → ℕ → Server → Server
on_client_disconnected qt client s =
    let cid = client_id qt client s in
    let members = remove client s.authenticated_clients in
    let left : Server = record s {
      limits = remove_client cid s.limits;
      clients = remove client s.clients;
      authenticated_clients = members;
      client_id_map = erase cid s.client_id_map;
      client_info = erase client s.client_info;
      outputs = s.outputs ++ deleted client ∷ [];
    } in
    if contains client s.authenticated_clients
    then put_out (count_changed (length members)) left
    else left

unfoldable pub on_session_expired : ClientId → Server → Server
on_session_expired cid s = elim (lookup cid s.client_id_map) [
  | none ↦ s
  | some client ↦
      put_out (closed client)
        (put_out (sent client timed_out) (deny cid "SESSION_TIMEOUT" session_timeout s))
]

unfoldable pub expire_all : List ClientId → Server → Server
expire_all [] s = s
expire_all (cid ∷ cids) s = expire_all cids (on_session_expired cid s)

-- SecurityManager::checkSessionTimeouts, on each tick of its timer.
unfoldable pub check_session_timeouts : ℕ → Server → Server
check_session_timeouts now s = expire_all (expired_clients now s.limits) s

unfoldable pub without : ℕ → List (ℕ × Request) → List (ℕ × Request)
without i [] = []
without zero (j ∷ js) = js
without (suc i) (j ∷ js) = j ∷ without i js

-- A job of the thread pool ends: its answer is sent if the client is still there.
unfoldable pub finish_job : ℕ → Server → Server
finish_job i s = elim (get_elem? s.jobs i) [
  | none ↦ s
  | some (client, r) ↦
      let done : Server = record s { jobs = without i s.jobs } in
      if contains client s.clients || contains client s.authenticated_clients
      then put_out (sent client (answer r r.id)) done
      else done
]

pub data Event : Type 0 where
  starts : Bool → Event
  stops : Event
  sets_token : String → Event
  broadcasts : String → Event
  connects : ℕ → List (Option ℕ) → Event
  receives : ℕ → ℕ → Option Request → Event
  disconnects : ℕ → Event
  ticks : ℕ → Event
  ends_job : ℕ → Event

unfoldable pub step : Qt → Event → Server → Server
step qt (starts listens) s = start listens s
step qt stops s = stop s
step qt (sets_token token) s = set_auth_token token s
step qt (broadcasts text) s = broadcast_event text s
step qt (connects now pending) s = on_new_connection now pending s
step qt (receives now client doc) s = on_text_message qt now client doc s
step qt (disconnects client) s = on_client_disconnected qt client s
step qt (ticks now) s = check_session_timeouts now s
step qt (ends_job i) s = finish_job i s

unfoldable pub run_server : Qt → List Event → Server → Server
run_server qt [] s = s
run_server qt (e ∷ es) s = run_server qt es (step qt e s)
