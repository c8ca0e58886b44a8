-- ===== src/Gateway/Tests.antt =====
-- The server on concrete requests.
use quick_desk.Base.{◌≡◌, refl, pos, true, false, String, List, [], ◌∷◌, ◌++◌, none, some}
use quick_desk.Security.Access.{read_only}
use quick_desk.Gateway.State.{numbered, client_id_eq, Request, Server, Qt}
use quick_desk.Gateway.Guard.{on_text_message}
use quick_desk.Gateway.Events.{Event, connects, receives, disconnects, ticks, run_server}
use quick_desk.Gateway.Members.{guarded}
use quick_desk.Gateway.Told.{keep_token, run_server-guarded}
use quick_desk.Gateway.Passage.{handled_of, one_if, passes, on_text_message-handles}

abbrev qt : Qt
qt = record { peer_address = λ _. "127.0.0.1"; to_lower = λ s. s }

-- Client 7 has shown the read-only token, and client 8 none.
abbrev server : Server
server = record {
  is_listening = true;
  clients = 7 ∷ 8 ∷ [];
  authenticated_clients = 7 ∷ [];
  client_info =
      (7, record { permission = read_only; id = numbered 1 })
      ∷ (8, record { permission = read_only; id = numbered 2 })
      ∷ [];
  client_id_map = (numbered 1, 7) ∷ (numbered 2, 8) ∷ [];
  auth_token = "secret";
  next_client_id = 3;
  access = record {
    full_access_token = "secret";
    read_only_token = "look";
    allowed_devices = [];
    device_filter_enabled = false;
  };
  limits = record {
    rate_limit_per_minute = pos 60;
    rate_limiter = [];
    session_timeout_secs = pos 0;
    last_activity = [];
    session_timer = none;
  };
  jobs = [];
  outputs = [];
}

abbrev request : String → Request
request method = record {
  method = method;
  params = record { token = ""; device_id = ""; keys = []; text = "" };
  id = some "1";
}

on_text_message-handles_example :
    handled_of (on_text_message qt 1000 7 (some (request "getStatus")) server).outputs
    ≡ handled_of server.outputs
      ++ one_if (passes qt 1000 7 (request "getStatus") server) (7, request "getStatus")
on_text_message-handles_example = on_text_message-handles qt 1000 7 (request "getStatus") server

abbrev fresh : Server
fresh = record server {
  clients = [];
  authenticated_clients = [];
  client_info = [];
  client_id_map = [];
}

-- A client comes, asks too early, authenticates, asks again, and leaves.
abbrev events : List Event
events =
    connects 0 (some 7 ∷ [])
    ∷ receives 10 7 (some (request "getStatus"))
    ∷ receives 20 7 (
        some (record (request "auth") {
          params = record { token = "look"; device_id = ""; keys = []; text = "" };
        }))
    ∷ receives 30 7 (some (request "getStatus"))
    ∷ disconnects 7
    ∷ ticks 40
    ∷ []

run_server-guarded_example : guarded [] (run_server qt events fresh).outputs ≡ true
unfolding keep_token
run_server-guarded_example = run_server-guarded qt events fresh refl refl refl refl
