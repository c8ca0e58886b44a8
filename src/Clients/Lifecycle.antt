-- ===== src/Clients/Lifecycle.antt =====
-- ClientManager: how connections come, change and go.
use quick_desk.Base.{
  ℕ, suc, ℤ, Bool, true, false, not, ◌||◌, String, List, [], ◌∷◌, Option, none, some, is_empty,
  str_eq, if◌then◌else◌, nat_eqb, string_eq,
}
use quick_desk.Base.Dict.{lookup, insert, erase, has_key, keys}
use quick_desk.Transfer.Sessions.{
  init as no_transfers, end_session, reconcile_session, end_all_sessions,
}
use quick_desk.Frames.Manager.{detach}
use quick_desk.Clients.State.{
  RtcStatus, rtc_disconnected, rtc_connecting, Capabilities, ConnectionInfo, blank_connection,
  disconnect_from, connect_message, disconnect_all_message, to_connection, connection_state_changed,
  connection_added, connection_removed, connection_count_changed, active_connection_changed,
  connection_list_changed, error_occurred, ClientManager, Settings, emit, send_message, can_send,
  connection_id_for, is_rtc_over, set_active_device_id,
}

unfoldable pub init : ClientManager
init = record {
  messaging = none;
  connections = [];
  conn_id_to_device_id = [];
  active_device_id = "";
  connection_counter = 0;
  ice_config = "";
  transfers = no_transfers;
  memory = record { handles = []; signals = [] };
  sent = [];
  signals = [];
}

-- m_connections[deviceId], which makes an entry where there is none.
abbrev pub at_device : String → List (String × ConnectionInfo) → ConnectionInfo
at_device device ks = elim (lookup device ks) [ none ↦ blank_connection | some k ↦ k ]

abbrev pub write_at : String → (ConnectionInfo → ConnectionInfo) → ClientManager → ClientManager
write_at device f m = record m {
  connections = insert device (f (at_device device m.connections)) m.connections;
}

abbrev pub set_signaling : String → ℤ → ℤ → String → ConnectionInfo → ConnectionInfo
set_signaling state retry next error k = record k {
  signaling_state = state;
  signaling_retry_count = retry;
  signaling_next_retry_in = next;
  signaling_error = error;
}

abbrev pub set_size : ℤ → ℤ → ConnectionInfo → ConnectionInfo
set_size width height k = record k { width = width; height = height }

abbrev pub set_name : String → ConnectionInfo → ConnectionInfo
set_name name k = record k { device_name = name }

abbrev pub set_supports : Capabilities → ConnectionInfo → ConnectionInfo
set_supports supports k = record k { supports = supports }

abbrev pub set_rtc : RtcStatus → ConnectionInfo → ConnectionInfo
set_rtc st k = record k { rtc_state = st }

-- The signal connectionStateChanged, with the manager's own slot for it.
unfoldable pub tell_state : String → String → ClientManager → ClientManager
tell_state device text m = emit (connection_state_changed device text) (record m {
  transfers =
      reconcile_session (connection_id_for device m) device (str_eq text "connected")
        (str_eq text "disconnected" || str_eq text "failed") m.transfers;
})

-- `if (m_connections.contains(deviceId))` with a new state and its signal.
unfoldable pub change_state : RtcStatus → String → String → ClientManager → ClientManager
change_state st text device m =
    if has_key device m.connections
    then tell_state device text (write_at device (set_rtc st) m)
    else m

unfoldable pub remove_connection : String → ClientManager → ClientManager
remove_connection device m = record m {
  transfers = end_session (connection_id_for device m) m.transfers;
  conn_id_to_device_id =
      (if has_key device m.connections
        then erase (connection_id_for device m) m.conn_id_to_device_id
        else m.conn_id_to_device_id);
  connections = erase device m.connections;
}

abbrev pub detach_memory : String → ClientManager → ClientManager
detach_memory device m = record m { memory = detach device m.memory }

abbrev pub next_active : Settings → List String → String
next_active s [] = ""
next_active s (d ∷ ds) = s.first_key (d ∷ ds)

-- The next active device, where the active one has gone.
unfoldable pub pick_active : Settings → String → ClientManager → ClientManager
pick_active s device m =
    if str_eq m.active_device_id device
    then set_active_device_id (next_active s (keys m.connections)) m
    else m

-- The end of a connection that four handlers have in common.
unfoldable pub drop_connection : Settings → String → ClientManager → ClientManager
drop_connection s device m = pick_active s device (
    emit connection_list_changed (
      emit (connection_removed device)
        (emit connection_count_changed (remove_connection device m))))

abbrev pub same_messaging : Option ℕ → Option ℕ → Bool
same_messaging none none = true
same_messaging (some i) (some j) = nat_eqb i j
same_messaging _ _ = false

-- The loop of setMessaging over the devices.
unfoldable pub lose_devices : List String → ClientManager → ClientManager
lose_devices [] m = m
lose_devices (d ∷ ds) m =
    lose_devices ds (emit (connection_removed d) (detach_memory d (tell_state d "disconnected" m)))

abbrev pub clear_connections : ClientManager → ClientManager
clear_connections m = record m {
  connections = [];
  conn_id_to_device_id = [];
  active_device_id = "";
}

abbrev pub tell_cleared : ClientManager → ClientManager
tell_cleared m =
    emit connection_list_changed (emit active_connection_changed (emit connection_count_changed m))

unfoldable pub lose_all : List String → ClientManager → ClientManager
lose_all [] m = clear_connections m
lose_all (d ∷ ds) m = tell_cleared (clear_connections (lose_devices (d ∷ ds) m))

unfoldable pub set_messaging : Option ℕ → ClientManager → ClientManager
set_messaging messaging m =
    let ended =
      if same_messaging m.messaging messaging then m.transfers else end_all_sessions m.transfers in
    let m : ClientManager = record m { transfers = ended; messaging = messaging } in
    elim messaging [ none ↦ lose_all (keys m.connections) m | some i ↦ m ]

-- The part of connectToHost past its checks.
unfoldable pub open_connection :
    Settings → String → String → String → String → ClientManager → ClientManager
open_connection s device code token url m =
    let id = s.conn_name (suc m.connection_counter) in
    let conn : ConnectionInfo = record blank_connection {
      connection_id = id;
      device_id = device;
      rtc_state = rtc_connecting;
    } in
    let opened = emit connection_list_changed (
      emit (connection_added device) (
        emit connection_count_changed (
          send_message
            (connect_message id device code token url s.api_key s.preferred_video_codec
              m.ice_config)
            (record m {
              connection_counter = suc m.connection_counter;
              connections = insert device conn m.connections;
              conn_id_to_device_id = insert id device m.conn_id_to_device_id;
            })))) in
    if is_empty m.active_device_id then set_active_device_id device opened else opened

-- The connection that a device has already, if it is not over, is used again.
unfoldable pub connect_to_host :
    Settings → Bool → String → String → String → String → ClientManager → ClientManager × String
connect_to_host s ready device code token url m =
    if not (can_send ready m)
    then (emit (error_occurred device "NOT_READY" "Client process is not ready") m, "")
    else if is_empty token
    then (
      emit
          (error_occurred device "MISSING_SIGNAL_TOKEN"
            "signalToken is required (call verifyAccessCode first)")
          m,
      "",
    )
    else elim (lookup device m.connections) [
      | none ↦ (open_connection s device code token url m, device)
      | some k ↦
          if is_rtc_over k.rtc_state
          then (open_connection s device code token url (remove_connection device m), device)
          else (m, device)
    ]

unfoldable pub disconnect_from_host : Settings → Bool → String → ClientManager → ClientManager
disconnect_from_host s ready device m =
    if not (can_send ready m) || is_empty (connection_id_for device m)
    then m
    else drop_connection s device (
        detach_memory device (
          change_state rtc_disconnected "disconnected" device
            (send_message (to_connection (connection_id_for device m) disconnect_from) m)))

-- The loop of disconnectAll.
unfoldable pub disconnect_devices : List String → ClientManager → ClientManager
disconnect_devices [] m = m
disconnect_devices (d ∷ ds) m = disconnect_devices ds (
    emit (connection_removed d)
      (detach_memory d (tell_state d "disconnected" (write_at d (set_rtc rtc_disconnected) m))))

unfoldable pub disconnect_all : Bool → ClientManager → ClientManager
disconnect_all ready m =
    if can_send ready m
    then tell_cleared (
        clear_connections
          (disconnect_devices (keys m.connections) (send_message disconnect_all_message m)))
    else m
