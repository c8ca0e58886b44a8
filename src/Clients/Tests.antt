-- ===== src/Clients/Tests.antt =====
-- The connections on a concrete history.
use Prim.Native.String.{◌++◌ as append_text}
use Prim.Native.String.{count as text_length}
use text.Mathlib.TextLemmas.{length-append}
use quick_desk.Base.{
  ℕ, zero, suc, ◌+◌, ◌≡◌, refl, ap, inl, inr, pos, true, false, String, List, [], ◌∷◌, ◌++◌, Option,
  some, arith, any, is_empty, Bool-cases, eq_iff, string_eq,
}
use quick_desk.Base.Dict.{lookup, insert, has_key, contains, keys}
use quick_desk.Transfer.Data.{Message as FileMessage}
use quick_desk.Transfer.Sessions.{
  init as no_transfers, begin_session, reconcile_session, session_active, end_all_sessions,
}
use quick_desk.Transfer.Messages.{handle_message}
use quick_desk.Frames.Manager.{is_attached, attach, attach_new}
use quick_desk.Clients.State.{
  rtc_connected, ConnectionInfo, Settings, ClientManager, set_bitrate_to, to_connection,
  video_frame_ready, find_device_id, connection_id_for, set_active_device_id, no_capabilities,
}
use quick_desk.Clients.Commands.{send_command}
use quick_desk.Clients.Lifecycle.{
  init, set_messaging, connect_to_host, open_connection, change_state, tell_state,
}
use quick_desk.Clients.Notices.{
  handle_host_connected, handle_video_frame_ready, attach_memory, show_frame,
  handle_connection_failed,
}
use quick_desk.Clients.Machine.{
  Step, sets_messaging, connects, receives, host_connected, connection_list, video_frame,
  handle_body, on_message_received, step, run,
}
use quick_desk.Clients.Transfers.{
  Entry, take_entries, end_old, reconcile_all, handle_connection_list_changed, on_transfers,
  answer_signals,
}
use quick_desk.Clients.Listings.{is_proper, is_issued}
use quick_desk.Clients.Histories.{is_proper_history}
use quick_desk.Clients.Routing.{run-session, run-routes, handle_video_frame_ready-stale}

-- A connection's identifier with its number in strokes.
abbrev conn_name : ℕ → String
conn_name zero = "conn_"
conn_name (suc n) = append_text "i" (conn_name n)

text_length-conn_name : (n : ℕ) → text_length (conn_name n) ≡ n + 5
text_length-conn_name zero = refl
text_length-conn_name (suc n) =
    omega (arith, length-append "i" (conn_name n), text_length-conn_name n)

conn_name_inj : (i j : ℕ) → conn_name i ≡ conn_name j → i ≡ j
conn_name_inj i j e =
    omega (arith, text_length-conn_name i, text_length-conn_name j, ap text_length e)

conn_name_full : (i : ℕ) → is_empty (conn_name i) ≡ false
conn_name_full i = elim (Bool-cases (is_empty (conn_name i))) [
  | inl e ↦
      absurd
        (omega (arith, text_length-conn_name i, ap text_length ((eq_iff (conn_name i) "").0 e)))
  | inr e ↦ e
]

abbrev settings : Settings
settings = record {
  conn_name = conn_name;
  first_key = λ ds. "";
  number_text = λ i. "";
  api_key = "";
  preferred_video_codec = "";
}

abbrev wire : FileMessage
wire = record {
  connection_id = conn_name 1;
  type_name = "";
  transfer_id = "";
  filename = "";
  save_path = "";
  error_message = "";
  total_bytes = pos 0;
  bytes_received = pos 0;
  bytes_sent = pos 0;
}

abbrev listed : Entry
listed = record {
  connection_id = conn_name 1;
  device_id = "111";
  device_name = "";
  connected_at = "";
  state = "connected";
}

-- A process, a connection, its host, and the list of connections.
abbrev history : List Step
history =
    sets_messaging (some 1)
    ∷ connects true "111" "code" "token" "wss://s"
    ∷ receives true "t" wire host_connected
    ∷ receives true "t" wire (connection_list (listed ∷ []))
    ∷ []

abbrev connected : ClientManager
connected = run settings history init

run-session_example :
    (d : String) × (k : ConnectionInfo) × (lookup d connected.connections ≡ some k)
    × (k.connection_id ≡ conn_name 1)
    × (k.rtc_state ≡ rtc_connected)
    × (find_device_id (conn_name 1) connected ≡ d)
unfolding init run step set_messaging connect_to_host open_connection on_message_received
    on_transfers handle_body handle_host_connected change_state tell_state session_active
    set_active_device_id lookup insert has_key no_transfers begin_session reconcile_session
    handle_message answer_signals connection_id_for find_device_id contains end_all_sessions keys
    handle_connection_list_changed take_entries end_old reconcile_all is_proper_history is_proper
    is_issued any
run-session_example = run-session settings history (conn_name 1) conn_name_inj refl refl

abbrev entry : Option ConnectionInfo
entry = lookup "111" connected.connections

run-routes_example :
    ((send_command true "111" (set_bitrate_to (pos 1000)) connected).sent
      ≡ connected.sent ++ to_connection (conn_name 1) (set_bitrate_to (pos 1000)) ∷ [])
    × (find_device_id (conn_name 1) connected ≡ "111")
unfolding init run step set_messaging connect_to_host open_connection on_message_received
    on_transfers handle_body handle_host_connected change_state tell_state set_active_device_id
    lookup insert has_key no_transfers begin_session reconcile_session handle_message answer_signals
    connection_id_for find_device_id contains end_all_sessions keys handle_connection_list_changed
    take_entries end_old reconcile_all is_proper_history is_proper is_issued any
run-routes_example =
    run-routes settings history "111"
      (record {
        connection_id = conn_name 1;
        device_id = "111";
        device_name = "";
        rtc_state = rtc_connected;
        connected_at = "";
        width = pos 0;
        height = pos 0;
        signaling_state = "disconnected";
        signaling_retry_count = pos 0;
        signaling_next_retry_in = pos 0;
        signaling_error = "";
        supports = no_capabilities;
      })
      (set_bitrate_to (pos 1000)) true conn_name_inj conn_name_full refl refl refl

-- The first connection has shown a frame from its shared memory.
abbrev seen : ClientManager
seen =
    run settings
      (receives true "t" wire (video_frame true (pos 1) (pos 640) (pos 480) "memory_1") ∷ [])
      connected

handle_video_frame_ready-stale_example :
    ((handle_video_frame_ready true
        (pos 1)
        (pos 800)
        (pos 600)
        "memory_2"
        "111"
        (connect_to_host settings true "111" "code" "token" "wss://s"
          (handle_connection_failed settings "E" "lost" "111" seen)).0).memory
      ≡ seen.memory)
    × ((handle_video_frame_ready true
          (pos 1)
          (pos 800)
          (pos 600)
          "memory_2"
          "111"
          (connect_to_host settings true "111" "code" "token" "wss://s"
            (handle_connection_failed settings "E" "lost" "111" seen)).0).signals
        ≡ (connect_to_host settings true "111" "code" "token" "wss://s"
            (handle_connection_failed settings "E" "lost" "111" seen)).0.signals
          ++ video_frame_ready "111" (pos 1) ∷ [])
unfolding init run step set_messaging connect_to_host open_connection on_message_received
    on_transfers handle_body handle_host_connected change_state tell_state set_active_device_id
    lookup insert has_key no_transfers begin_session reconcile_session handle_message answer_signals
    connection_id_for find_device_id contains end_all_sessions keys handle_connection_list_changed
    take_entries end_old reconcile_all is_proper_history is_proper is_issued any
    handle_video_frame_ready attach_memory show_frame is_attached attach attach_new
handle_video_frame_ready-stale_example =
    handle_video_frame_ready-stale settings "E" "lost" "111" "code" "token" "wss://s" "memory_2"
      true true (pos 1) (pos 800) (pos 600) seen refl
