-- ===== src/Gateway/State.antt =====
-- The state of WebSocketApiServer and what it puts out. Sockets are numbers.
use quick_desk.Base.{
  ℕ, ◌≡◌, ◌↔◌, Bool, true, false, String, List, [], ◌∷◌, ◌++◌, Option, none, some, Eq, nat_eq,
  string_eq, nat_eqb, str_eq, eq_iff, arith,
}
use quick_desk.Base.Dict.{lookup}
use quick_desk.Security.Access.{PermissionLevel, full_control, Access, Params}
use quick_desk.Security.Limits.{Limits}

-- "client_%1", or the peer's address for a socket that the server does not know.
pub data ClientId : Type 0 where
  numbered : ℕ → ClientId
  peer : String → ClientId

abbrev pub client_id_beq : ClientId → ClientId → Bool
client_id_beq (numbered m) (numbered n) = nat_eqb m n
client_id_beq (numbered m) (peer t) = false
client_id_beq (peer s) (numbered n) = false
client_id_beq (peer s) (peer t) = str_eq s t

pub client_id_beq_iff : (a b : ClientId) → (client_id_beq a b ≡ true) ↔ (a ≡ b)
client_id_beq_iff (numbered m) (numbered n) = (ground arith, ground arith)
client_id_beq_iff (numbered m) (peer t) = (cc, cc)
client_id_beq_iff (peer s) (numbered n) = (cc, cc)
client_id_beq_iff (peer s) (peer t) = (ground (arith, eq_iff s t), ground (arith, eq_iff s t))

instance abbrev pub client_id_eq : Eq ClientId
client_id_eq = record { beq = client_id_beq; beq_iff = client_id_beq_iff }

pub record ClientInfo : Type 0 where
  pub permission : PermissionLevel
  pub id : ClientId

-- A JSON request; `id` is none where the object has no such member.
pub record Request : Type 0 where
  pub method : String
  pub params : Params
  pub id : Option String

pub data Reason : Type 0 where
  rate_limit permission_denied device_not_allowed dangerous_operation invalid_token
        session_timeout :
      Reason

-- The texts sent to a client. `answer` is what ApiHandler::handleRequest gives for the request.
pub data Reply : Type 0 where
  parse_error : Reply
  auth_required : Option String → Reply
  token_refused : Option String → Reply
  authenticated : PermissionLevel → Option String → Reply
  rate_exceeded : Option String → Reply
  method_denied : String → Option String → Reply
  device_denied : String → Option String → Reply
  operation_blocked : Option String → Reply
  answer : Request → Option String → Reply
  timed_out : Reply
  event : String → Reply

pub data Output : Type 0 where
  sent : ℕ → Reply → Output
  closed : ℕ → Output
  deleted : ℕ → Output
  -- A call of ApiHandler::handleRequest for a client.
  handled : ℕ → Request → Output
  audit_allowed : ClientId → String → Output
  audit_denied : ClientId → String → Reason → Output
  rate_limit_signal : ClientId → String → Output
  anomaly_signal : ClientId → Output
  dangerous_signal : ClientId → String → Output
  count_changed : ℕ → Output
  listening_changed : Bool → Output

pub record Server : Type 0 where
  -- Whether there is a QWebSocketServer: one that does not listen is deleted at once.
  pub is_listening : Bool
  pub clients : List ℕ
  pub authenticated_clients : List ℕ
  pub client_info : List (ℕ × ClientInfo)
  pub client_id_map : List (ClientId × ℕ)
  pub auth_token : String
  pub next_client_id : ℕ
  pub access : Access
  pub limits : Limits ClientId
  -- The requests that the thread pool works on.
  pub jobs : List (ℕ × Request)
  pub outputs : List Output

abbrev pub put_out : Output → Server → Server
put_out o s = record s { outputs = s.outputs ++ o ∷ [] }

-- What comes from Qt: a socket's peer address, and QString::toLower.
pub record Qt : Type 0 where
  pub peer_address : ℕ → String
  pub to_lower : String → String

unfoldable pub client_id : Qt → ℕ → Server → ClientId
client_id qt client s = elim (lookup client s.client_info) [
  | none ↦ peer (qt.peer_address client)
  | some info ↦ info.id
]

-- m_clientInfo.value(client).permission; the default of ClientInfo is full control.
unfoldable pub permission_of : ℕ → Server → PermissionLevel
permission_of client s = elim (lookup client s.client_info) [
  | none ↦ full_control
  | some info ↦ info.permission
]

abbrev pub is_rate_limit : Reason → Bool
is_rate_limit rate_limit = true
is_rate_limit _ = false
