-- ===== src/Clients/Handlers.antt =====
-- ClientManager: every call keeps the maps and the file sessions in order.
use quick_desk.Base.{
  ℕ, ℤ, suc, ◌≡◌, refl, ◌∙◌, ap, inl, inr, Bool, true, false, not, ◌||◌, String, none, some, arith,
  is_empty, string_eq, eq_iff, Option-cases, if_split,
}
use quick_desk.Base.Dict.{lookup, has_key, lookup-erase}
use quick_desk.Frames.Manager.{is_attached}
use quick_desk.Clients.State.{
  rtc_connecting, rtc_connected, rtc_failed, rtc_disconnected, Capabilities, ConnectionInfo,
  blank_connection, Settings, ClientManager, connection_id_for, can_send, is_rtc_over, send_message,
  to_connection, disconnect_from,
}
use quick_desk.Clients.Lifecycle.{
  at_device, write_at, set_signaling, set_size, set_supports, remove_connection, open_connection,
  connect_to_host, disconnect_from_host,
}
use quick_desk.Clients.Notices.{
  handle_signaling_state_changed, handle_host_connected, handle_host_disconnected,
  handle_connection_failed, handle_host_capabilities, attach_memory, show_frame,
  handle_video_frame_ready,
}
use quick_desk.Clients.Wired.{live_at, update-IsWired, open-IsWired}
use quick_desk.Clients.Changes.{
  Wired, set_active_device_id-Wired, change_state-Wired, change_state-found,
  remove_connection-Wired, drop_connection-Wired,
}

-- A write that leaves a connection's identifier, device and state alone.
write_at-Wired :
    {s : Settings} (d : String) (f : ConnectionInfo → ConnectionInfo) (k : ConnectionInfo)
    (m : ClientManager)
    → ((x : ConnectionInfo) → (f x).connection_id ≡ x.connection_id)
    → ((x : ConnectionInfo) → (f x).device_id ≡ x.device_id)
    → ((x : ConnectionInfo) → (f x).rtc_state ≡ x.rtc_state)
    → lookup d m.connections ≡ some k
    → Wired s m
    → Wired s (write_at d f m)
write_at-Wired {s} d f k m id_kept device_kept rtc_kept e w =
    let at : at_device d m.connections ≡ k = rw (e, at_device) refl in
    update-IsWired d k (f (at_device d m.connections)) m.transfers e
      (id_kept _ ∙ ap (λ (x : ConnectionInfo). x.connection_id) at)
      (device_kept _ ∙ ap (λ (x : ConnectionInfo). x.device_id) at) (λ c h. ground (arith, h))
      (λ h. rtc_kept _ ∙ (ap (λ (x : ConnectionInfo). x.rtc_state) at ∙ (live_at d k w e h).1)) w

pub handle_signaling_state_changed-Wired :
    {s : Settings} (state : String) (retry next : ℤ) (error d : String) (k : ConnectionInfo)
    (m : ClientManager)
    → lookup d m.connections ≡ some k
    → Wired s m
    → Wired s (handle_signaling_state_changed state retry next error d m)
unfolding handle_signaling_state_changed
handle_signaling_state_changed-Wired state retry next error d k m e w =
    write_at-Wired d (set_signaling state retry next error) k m (λ _. refl) (λ _. refl) (λ _. refl)
      e w

pub handle_host_capabilities-Wired :
    {s : Settings} (supports : Capabilities) (d : String) (k : ConnectionInfo) (m : ClientManager)
    → lookup d m.connections ≡ some k
    → Wired s m
    → Wired s (handle_host_capabilities supports d m)
unfolding handle_host_capabilities
handle_host_capabilities-Wired {s} supports d k m e w =
    if_split (Wired s) (has_key d m.connections)
      (λ _. write_at-Wired d (set_supports supports) k m (λ _. refl) (λ _. refl) (λ _. refl) e w)
      (λ _. w)

show_frame-Wired :
    {s : Settings} (index width height : ℤ) (d : String) (k : ConnectionInfo)
    (r : ClientManager × Bool)
    → lookup d r.0.connections ≡ some k
    → Wired s r.0
    → Wired s (show_frame index width height d r)
unfolding show_frame
show_frame-Wired index width height d k (m, false) e w = w
show_frame-Wired {s} index width height d k (m, true) e w =
    if_split (Wired s) (has_key d m.connections)
      (λ _. write_at-Wired d (set_size width height) k m (λ _. refl) (λ _. refl) (λ _. refl) e w)
      (λ _. w)

pub handle_video_frame_ready-Wired :
    {s : Settings} (attaches : Bool) (index width height : ℤ) (name d : String) (k : ConnectionInfo)
    (m : ClientManager)
    → lookup d m.connections ≡ some k
    → Wired s m
    → Wired s (handle_video_frame_ready attaches index width height name d m)
unfolding handle_video_frame_ready attach_memory
handle_video_frame_ready-Wired {s} attaches index width height name d k m e w =
    if_split (λ (r : ClientManager × Bool). Wired s (show_frame index width height d r))
      (is_attached d m.memory) (λ _. show_frame-Wired index width height d k _ e w)
      (λ _. show_frame-Wired index width height d k _ e w)

pub handle_host_connected-Wired :
    {s : Settings} (d : String) (k : ConnectionInfo) (m : ClientManager)
    → lookup d m.connections ≡ some k
    → Wired s m
    → Wired s (handle_host_connected d m)
unfolding handle_host_connected
handle_host_connected-Wired d k m e w =
    change_state-Wired rtc_connected "connected" d k m (λ _. refl) e w

pub handle_host_disconnected-Wired :
    {s : Settings} (d : String) (k : ConnectionInfo) (m : ClientManager)
    → lookup d m.connections ≡ some k
    → Wired s m
    → Wired s (handle_host_disconnected s d m)
unfolding handle_host_disconnected
handle_host_disconnected-Wired d k m e w =
    let (j, f) = change_state-found rtc_disconnected "disconnected" d k m e in
    drop_connection-Wired d j _ f
      (change_state-Wired rtc_disconnected "disconnected" d k m (λ t. absurd (cc t)) e w)

pub handle_connection_failed-Wired :
    {s : Settings} (code text d : String) (k : ConnectionInfo) (m : ClientManager)
    → lookup d m.connections ≡ some k
    → Wired s m
    → Wired s (handle_connection_failed s code text d m)
unfolding handle_connection_failed
handle_connection_failed-Wired code text d k m e w =
    let (j, f) = change_state-found rtc_failed "failed" d k m e in
    drop_connection-Wired d j _ f
      (change_state-Wired rtc_failed "failed" d k m (λ t. absurd (cc t)) e w)

pub disconnect_from_host-Wired :
    {s : Settings} (ready : Bool) (d : String) (m : ClientManager)
    → Wired s m
    → Wired s (disconnect_from_host s ready d m)
unfolding disconnect_from_host connection_id_for
disconnect_from_host-Wired {s} ready d m w =
    if_split (Wired s) (not (can_send ready m) || is_empty (connection_id_for d m)) (λ _. w)
      (λ f. elim (Option-cases (lookup d m.connections)) [
        | inl e ↦
            let no_id : connection_id_for d m ≡ "" = rw (e, connection_id_for) refl in
            absurd (ground (arith, f, ap is_empty no_id))
        | inr (k, e) ↦
            let sent : ClientManager =
              send_message (to_connection (connection_id_for d m) disconnect_from) m in
            let (j, g) = change_state-found rtc_disconnected "disconnected" d k sent e in
            drop_connection-Wired d j _ g
              (change_state-Wired rtc_disconnected "disconnected" d k sent (λ t. absurd (cc t)) e w)
      ])

open_connection-Wired :
    {s : Settings} (d code token url : String) (m : ClientManager)
    → ((i j : ℕ) → s.conn_name i ≡ s.conn_name j → i ≡ j)
    → lookup d m.connections ≡ none
    → Wired s m
    → Wired s (open_connection s d code token url m)
unfolding open_connection
open_connection-Wired {s} d code token url m inj e w =
    let v =
      open-IsWired d
        (record blank_connection {
          connection_id = s.conn_name (suc m.connection_counter);
          device_id = d;
          rtc_state = rtc_connecting;
        })
        inj e refl refl w in
    if_split (Wired s) (is_empty m.active_device_id) (λ _. set_active_device_id-Wired d _ v)
      (λ _. v)

remove_connection-gone :
    (d : String) (m : ClientManager) → lookup d (remove_connection d m).connections ≡ none
unfolding remove_connection
remove_connection-gone d m = ground (arith, lookup-erase d d m.connections, eq_iff d d)

pub connect_to_host-Wired :
    {s : Settings} (ready : Bool) (d code token url : String) (m : ClientManager)
    → ((i j : ℕ) → s.conn_name i ≡ s.conn_name j → i ≡ j)
    → Wired s m
    → Wired s (connect_to_host s ready d code token url m).0
unfolding connect_to_host
connect_to_host-Wired {s} ready d code token url m inj w =
    if_split (λ (r : ClientManager × String). Wired s r.0) (not (can_send ready m)) (λ _. w)
      (λ _.
        if_split (λ (r : ClientManager × String). Wired s r.0) (is_empty token) (λ _. w)
          (λ _. elim (Option-cases (lookup d m.connections)) [
            | inl e ↦ rw e (open_connection-Wired d code token url m inj e w)
            | inr (k, e) ↦ rw e (
                if_split (λ (r : ClientManager × String). Wired s r.0) (is_rtc_over k.rtc_state)
                  (λ _.
                    open_connection-Wired d code token url _ inj (remove_connection-gone d m)
                      (remove_connection-Wired d k m e w))
                  (λ _. w))
          ]))
