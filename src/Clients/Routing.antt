-- ===== src/Clients/Routing.antt =====
-- ClientManager: file sessions, commands and shared memory against the connections.
use quick_desk.Base.{
  ℕ, ℤ, ◌≡◌, refl, ◌∙◌, ap, inl, inr, Bool, true, false, not, String, List, [], ◌∷◌, ◌++◌, some,
  arith, is_empty, str_eq, string_eq, if_split, Option-cases,
}
use quick_desk.Base.Dict.{lookup, has_key}
use quick_desk.Transfer.Sessions.{init as no_transfers, session_active}
use quick_desk.Frames.Manager.{is_attached}
use quick_desk.Clients.State.{
  RtcStatus, rtc_connected, rtc_failed, ConnectionInfo, Settings, ClientManager, Command,
  to_connection, video_frame_ready, connection_id_for, find_device_id, can_send,
  set_active_device_id, is_rtc_over,
}
use quick_desk.Clients.Commands.{send_command}
use quick_desk.Clients.Lifecycle.{
  init, tell_state, change_state, remove_connection, pick_active, drop_connection, open_connection,
  connect_to_host,
}
use quick_desk.Clients.Notices.{
  handle_connection_failed, attach_memory, show_frame, handle_video_frame_ready,
}
use quick_desk.Clients.Machine.{Step, run}
use quick_desk.Clients.Changes.{Wired, connection_id_for-some}
use quick_desk.Clients.Histories.{is_proper_history, run-Wired}

init-Wired : (s : Settings) → Wired s init
unfolding init lookup has_key no_transfers
init-Wired s = record {
  own = λ d k e. absurd (cc e);
  back = λ c d e. absurd (cc e);
  issued = λ c d e. absurd (cc e);
  live = λ c h. absurd (cc h);
}

-- In every history where the identifiers of different numbers differ, and every message
-- connectionListChanged names issued identifiers, no identifier and no device twice, an active session of a file transfer is that of a connection in the map that is connected,
-- and the messages of that connection are taken for its device's.
pub run-session :
    (s : Settings) (steps : List Step) (c : String)
    → ((i j : ℕ) → s.conn_name i ≡ s.conn_name j → i ≡ j)
    → is_proper_history s steps init ≡ true
    → session_active c (run s steps init).transfers ≡ true
    → (d : String) × (k : ConnectionInfo) × (lookup d (run s steps init).connections ≡ some k)
      × (k.connection_id ≡ c)
      × (k.rtc_state ≡ rtc_connected)
      × (find_device_id c (run s steps init) ≡ d)
unfolding session_active find_device_id
run-session s steps c inj n h =
    let w = run-Wired {s = s} steps init inj n (init-Wired s) in
    let (full, u) = w.live c h in
    let back : lookup c (run s steps init).conn_id_to_device_id ≡ some u.device =
      cc (u.named, (w.own u.device u.info u.found).1) in
    (u.device, u.info, u.found, u.named, u.up, rw (back, find_device_id) refl)

-- In every history where the identifiers of different numbers differ and none is empty, and every
-- message connectionListChanged names issued identifiers, no identifier and no device twice, a command for a device that has a connection goes out, while the process
-- is ready, under the identifier whose messages are taken for that device's.
pub run-routes :
    (s : Settings) (steps : List Step) (d : String) (k : ConnectionInfo) (c : Command)
    (ready : Bool)
    → ((i j : ℕ) → s.conn_name i ≡ s.conn_name j → i ≡ j)
    → ((i : ℕ) → is_empty (s.conn_name i) ≡ false)
    → is_proper_history s steps init ≡ true
    → lookup d (run s steps init).connections ≡ some k
    → can_send ready (run s steps init) ≡ true
    → ((send_command ready d c (run s steps init)).sent
        ≡ (run s steps init).sent ++ to_connection k.connection_id c ∷ [])
      × (find_device_id k.connection_id (run s steps init) ≡ d)
unfolding send_command find_device_id
run-routes s steps d k c ready inj full n e r =
    let m : ClientManager = run s steps init in
    let w = run-Wired {s = s} steps init inj n (init-Wired s) in
    let mine = (w.own d k e).1 in
    let (j, name, le) = w.issued k.connection_id d mine in
    let id : connection_id_for d m ≡ k.connection_id = connection_id_for-some d k m e in
    let there : is_empty (connection_id_for d m) ≡ false = ap is_empty (id ∙ name) ∙ full j in
    (rw (r, there, send_command, id) refl, rw (mine, find_device_id) refl)

keeps_memory :
    (st : RtcStatus) (text d : String) (m : ClientManager)
    → (change_state st text d m).memory ≡ m.memory
unfolding change_state tell_state
keeps_memory st text d m = ground arith

set_active_device_id-memory :
    (d : String) (m : ClientManager) → (set_active_device_id d m).memory ≡ m.memory
unfolding set_active_device_id
set_active_device_id-memory d m = ground arith

handle_connection_failed-memory :
    (s : Settings) (code text d : String) (m : ClientManager)
    → (handle_connection_failed s code text d m).memory ≡ m.memory
unfolding handle_connection_failed drop_connection remove_connection pick_active
handle_connection_failed-memory s code text d m =
    if_split (λ (x : ClientManager). x.memory ≡ m.memory)
      (str_eq (remove_connection d (change_state rtc_failed "failed" d m)).active_device_id d)
      (λ _. set_active_device_id-memory _ _ ∙ keeps_memory rtc_failed "failed" d m)
      (λ _. keeps_memory rtc_failed "failed" d m)

open_connection-memory :
    (s : Settings) (d code token url : String) (m : ClientManager)
    → (open_connection s d code token url m).memory ≡ m.memory
unfolding open_connection
open_connection-memory s d code token url m =
    if_split (λ (x : ClientManager). x.memory ≡ m.memory) (is_empty m.active_device_id)
      (λ _. set_active_device_id-memory d _) (λ _. refl)

connect_to_host-memory :
    (s : Settings) (ready : Bool) (d code token url : String) (m : ClientManager)
    → (connect_to_host s ready d code token url m).0.memory ≡ m.memory
unfolding connect_to_host remove_connection
connect_to_host-memory s ready d code token url m =
    if_split P (not (can_send ready m)) (λ _. refl)
      (λ _.
        if_split P (is_empty token) (λ _. refl)
          (λ _. elim (Option-cases (lookup d m.connections)) [
            | inl e ↦ rw e (open_connection-memory s d code token url m)
            | inr (k, e) ↦ rw e (
                if_split P (is_rtc_over k.rtc_state)
                  (λ _. open_connection-memory s d code token url (remove_connection d m))
                  (λ _. refl))
          ]))
  where
    P : ClientManager × String → Type 0
    P r = r.0.memory ≡ m.memory

attach_memory-on :
    (attaches : Bool) (name d : String) (m : ClientManager)
    → is_attached d m.memory ≡ true
    → attach_memory attaches name d m ≡ (m, true)
unfolding attach_memory
attach_memory-on attaches name d m on = rw on refl

show_frame-memory :
    (index width height : ℤ) (d : String) (m : ClientManager)
    → ((show_frame index width height d (m, true)).memory ≡ m.memory)
      × ((show_frame index width height d (m, true)).signals
          ≡ m.signals ++ video_frame_ready d index ∷ [])
unfolding show_frame
show_frame-memory index width height d m = (ground arith, ground arith)

-- Where a device's frames are read from stays as it is when its connection fails and a new one is
-- made: if shared memory was attached for the device before, the first frame of the new connection
-- is announced with the memory of the old one still attached, whatever memory the new one names.
pub handle_video_frame_ready-stale :
    (s : Settings) (code text d access token url name : String) (ready attaches : Bool)
    (index width height : ℤ) (m : ClientManager)
    → is_attached d m.memory ≡ true
    → ((handle_video_frame_ready attaches index width height name d
          (connect_to_host s ready d access token url
            (handle_connection_failed s code text d m)).0).memory
        ≡ m.memory)
      × ((handle_video_frame_ready attaches index width height name d
            (connect_to_host s ready d access token url
              (handle_connection_failed s code text d m)).0).signals
          ≡ (connect_to_host s ready d access token url
              (handle_connection_failed s code text d m)).0.signals
            ++ video_frame_ready d index ∷ [])
unfolding handle_video_frame_ready
handle_video_frame_ready-stale s code text d access token url name ready attaches index width height
      m h =
    let failed : ClientManager = handle_connection_failed s code text d m in
    let again : ClientManager = (connect_to_host s ready d access token url failed).0 in
    let kept : again.memory ≡ m.memory =
      connect_to_host-memory s ready d access token url failed
      ∙ handle_connection_failed-memory s code text d m in
    let on : is_attached d again.memory ≡ true = ap (is_attached d) kept ∙ h in
    let shown = show_frame-memory index width height d again in
    let one = ap (show_frame index width height d) (attach_memory-on attaches name d again on) in
    (
      ap (λ (x : ClientManager). x.memory) one ∙ (shown.0 ∙ kept),
      ap (λ (x : ClientManager). x.signals) one ∙ shown.1,
    )
