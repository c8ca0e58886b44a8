-- ===== src/Gateway/Told.antt =====
-- WebSocketApiServer: whole histories of a server with a token.
use quick_desk.Base.{
  ◌≡◌, refl, Bool, true, false, ◌&&◌, List, [], ◌∷◌, ◌++◌, if_split, is_empty, arith, nat_eq,
}
use quick_desk.Base.Dict.{contains}
use quick_desk.Security.Limits.{expired_clients}
use quick_desk.Gateway.State.{client_id_eq, listening_changed, Server, Qt}
use quick_desk.Gateway.Events.{
  start, close_all, stop, broadcast_event, check_session_timeouts, Event, starts, stops, sets_token,
  broadcasts, connects, receives, disconnects, ticks, ends_job, step, run_server,
}
use quick_desk.Gateway.Members.{guarded, Guarded, append_quiet, put_quiet}
use quick_desk.Gateway.Histories.{
  on_text_message-Guarded, on_new_connection-Guarded, on_client_disconnected-Guarded,
  expire_all-Guarded, finish_job-Guarded, drop_members, close_all_quiet, send_all_quiet,
}

abbrev pub keeps_token : Event → Bool
keeps_token (sets_token t) = false
keeps_token e = true

unfoldable pub keep_token : List Event → Bool
keep_token [] = true
keep_token (e ∷ es) = keeps_token e && keep_token es

stop-Guarded : (s : Server) → Guarded s → Guarded (stop s)
unfolding stop contains
stop-Guarded s w =
    if_split Guarded s.is_listening
      (λ _.
        append_quiet s.auth_token [] s.outputs (close_all s.clients ++ listening_changed false ∷ [])
          (close_all_quiet s.clients) (drop_members (λ c p. absurd (ground arith)) w))
      (λ _. w)

start-Guarded : (listens : Bool) (s : Server) → Guarded s → Guarded (start listens s)
unfolding start
start-Guarded listens s w =
    if_split Guarded s.is_listening (λ _. w)
      λ _. if_split Guarded listens (λ _. put_quiet _ refl w) (λ _. w)

step-Guarded :
    (qt : Qt) (e : Event) (s : Server) → keeps_token e ≡ true → Guarded s → Guarded (step qt e s)
unfolding step broadcast_event check_session_timeouts
step-Guarded qt (starts listens) s k w = start-Guarded listens s w
step-Guarded qt stops s k w = stop-Guarded s w
step-Guarded qt (sets_token t) s k w = cc
step-Guarded qt (broadcasts text) s k w =
    append_quiet s.auth_token s.authenticated_clients s.outputs _ (send_all_quiet text _) w
step-Guarded qt (connects now pending) s k w = on_new_connection-Guarded now pending s w
step-Guarded qt (receives now client doc) s k w = on_text_message-Guarded qt now client doc s w
step-Guarded qt (disconnects client) s k w = on_client_disconnected-Guarded qt client s w
step-Guarded qt (ticks now) s k w = expire_all-Guarded (expired_clients now s.limits) s w
step-Guarded qt (ends_job i) s k w = finish_job-Guarded i s w

run_server-Guarded :
    (qt : Qt) (es : List Event) (s : Server)
    → keep_token es ≡ true
    → Guarded s
    → Guarded (run_server qt es s)
unfolding run_server keep_token
run_server-Guarded qt [] s k w = w
run_server-Guarded qt (e ∷ es) s k w =
    run_server-Guarded qt es (step qt e s) (ground arith) (step-Guarded qt e s (ground arith) w)

-- From a server with a token, that has no authenticated client yet and has put out nothing, and
-- through any events that leave the token as it is: each request that is handled is one of a client
-- to which the server has sent before that it is authenticated.
pub run_server-guarded :
    (qt : Qt) (es : List Event) (s : Server)
    → keep_token es ≡ true
    → is_empty s.auth_token ≡ false
    → s.authenticated_clients ≡ []
    → s.outputs ≡ []
    → guarded [] (run_server qt es s).outputs ≡ true
unfolding guarded contains
run_server-guarded qt es s k t m o =
    let w : Guarded s = record {
      locked = t;
      safe = rw o refl;
      told = λ c p. absurd (let q = rw m at p in ground arith);
    } in
    (run_server-Guarded qt es s k w).safe
