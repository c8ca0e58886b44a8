-- ===== src/Clients/State.antt =====
-- ClientManager: the connections, the two maps that hold them, and what is read off them. The order
-- of m_connections, that of its keys, is not kept.
use quick_desk.Base.{
  ℕ, ℤ, pos, Bool, true, false, ◌&&◌, String, List, [], ◌∷◌, ◌++◌, Option, none, some, is_some,
  if◌then◌else◌, string_eq,
}
use quick_desk.Base.Dict.{lookup}
use quick_desk.Transfer.Data.{TransferQueue}
use quick_desk.Frames.Manager.{SharedMemoryManager}

-- RtcStatus::Status.
pub data RtcStatus : Type 0 where
  rtc_disconnected rtc_connecting rtc_connected rtc_failed : RtcStatus

-- What a host says that it can do.
pub record Capabilities : Type 0 where
  pub send_attention_sequence : Bool
  pub lock_workstation : Bool
  pub file_transfer : Bool
  pub privacy_screen : Bool
  pub virtual_display : Bool

abbrev pub no_capabilities : Capabilities
no_capabilities = record {
  send_attention_sequence = false;
  lock_workstation = false;
  file_transfer = false;
  privacy_screen = false;
  virtual_display = false;
}

pub record ConnectionInfo : Type 0 where
  pub connection_id : String
  pub device_id : String
  pub device_name : String
  pub rtc_state : RtcStatus
  pub connected_at : String
  pub width : ℤ
  pub height : ℤ
  pub signaling_state : String
  pub signaling_retry_count : ℤ
  pub signaling_next_retry_in : ℤ
  pub signaling_error : String
  pub supports : Capabilities

-- A ConnectionInfo as its declaration fills it.
abbrev pub blank_connection : ConnectionInfo
blank_connection = record {
  connection_id = "";
  device_id = "";
  device_name = "";
  rtc_state = rtc_disconnected;
  connected_at = "";
  width = pos 0;
  height = pos 0;
  signaling_state = "disconnected";
  signaling_retry_count = pos 0;
  signaling_next_retry_in = pos 0;
  signaling_error = "";
  supports = no_capabilities;
}

pub data DisplayCommand : Type 0 where
  create_display : ℤ → ℤ → ℤ → DisplayCommand
  remove_display : ℤ → DisplayCommand
  remove_all_displays query_displays : DisplayCommand

-- The JSON messages to one connection, by their types.
pub data Command : Type 0 where
  mouse_event : String → ℤ → ℤ → ℤ → ℤ → ℤ → Command
  keyboard_event : String → ℤ → ℤ → Command
  clipboard_sync skill_bridge_send : String → Command
  set_framerate : ℤ → Command
  set_resolution_to : ℤ → ℤ → ℤ → Command
  set_framerate_boost_to : Bool → ℤ → ℤ → Command
  set_bitrate_to : ℤ → Command
  set_audio_enabled_to : Bool → Command
  select_display_at : ℤ → Command
  action : String → Command
  virtual_display_command : DisplayCommand → Command
  start_file_upload_of cancel_file_upload_of cancel_file_download_of : String → Command
  start_file_download_to : String → Command
  disconnect_from : Command

-- The JSON messages to the native process; an empty text is a member that the message does not have.
pub data Message : Type 0 where
  -- connectionId, deviceId, accessCode, signalToken, serverUrl, apiKey, preferredVideoCodec and
  -- iceConfig.
  connect_message : String → String → String → String → String → String → String → String → Message
  disconnect_all_message : Message
  hello_message : String → String → Message
  to_connection : String → Command → Message

-- A display of a host, with the JSON object that tells of it.
pub record Display : Type 0 where
  pub width : ℤ
  pub height : ℤ
  pub json : String

-- What is told of a file transfer, by its identifier, beside what the queue makes of it.
pub data FileEvent : Type 0 where
  file_transfer_progress : String → String → ℤ → ℤ → FileEvent
  file_transfer_complete file_transfer_error : String → String → FileEvent
  file_download_started : String → String → ℤ → FileEvent
  file_download_progress : String → String → ℤ → ℤ → FileEvent
  file_download_complete : String → String → String → FileEvent
  file_download_error : String → String → FileEvent

pub data Signal : Type 0 where
  connection_state_changed : String → String → Signal
  connection_added connection_removed : String → Signal
  connection_count_changed active_connection_changed connection_list_changed : Signal
  error_occurred : String → String → String → Signal
  hello_response_received : String → Signal
  signaling_state_changed : String → String → ℤ → ℤ → String → Signal
  video_frame_ready : String → ℤ → Signal
  clipboard_received : String → String → Signal
  cursor_shape_changed : String → ℤ → ℤ → ℤ → ℤ → String → Signal
  display_list_changed : String → List Display → ℤ → Signal
  video_layout_changed : String → ℤ → ℤ → Signal
  file_event_happened : String → FileEvent → Signal
  host_capabilities_changed : String → Capabilities → Signal
  file_transfer_notice : String → String → Signal
  skill_bridge_response_received virtual_display_state_changed : String → String → Signal

pub record ClientManager : Type 0 where
  -- m_messaging, by the number of the object that it points to.
  pub messaging : Option ℕ
  pub connections : List (String × ConnectionInfo)
  pub conn_id_to_device_id : List (String × String)
  pub active_device_id : String
  pub connection_counter : ℕ
  -- m_iceConfig, the text of the JSON object, or empty.
  pub ice_config : String
  pub transfers : TransferQueue
  pub memory : SharedMemoryManager
  pub sent : List Message
  pub signals : List Signal

-- What comes from Qt and from the configuration: QString::arg for a connection's identifier and for a number, the
-- least key of a QMap, the API key and the preferred codec.
pub record Settings : Type 0 where
  pub conn_name : ℕ → String
  pub first_key : List String → String
  pub number_text : ℤ → String
  pub api_key : String
  pub preferred_video_codec : String

abbrev pub emit : Signal → ClientManager → ClientManager
emit g m = record m { signals = m.signals ++ g ∷ [] }

abbrev pub send_message : Message → ClientManager → ClientManager
send_message msg m = record m { sent = m.sent ++ msg ∷ [] }

-- `m_messaging && m_messaging->isReady()`, where `ready` is the answer of isReady.
abbrev pub can_send : Bool → ClientManager → Bool
can_send ready m = is_some m.messaging && ready

unfoldable pub connection_id_for : String → ClientManager → String
connection_id_for device m = elim (lookup device m.connections) [
  | none ↦ ""
  | some k ↦ k.connection_id
]

unfoldable pub find_device_id : String → ClientManager → String
find_device_id id m = elim (lookup id m.conn_id_to_device_id) [ none ↦ "" | some device ↦ device ]

unfoldable pub get_connection_rtc_state : String → ClientManager → RtcStatus
get_connection_rtc_state device m = elim (lookup device m.connections) [
  | none ↦ rtc_disconnected
  | some k ↦ k.rtc_state
]

unfoldable pub supports_file_transfer : String → ClientManager → Bool
supports_file_transfer device m = elim (lookup device m.connections) [
  | none ↦ false
  | some k ↦ k.supports.file_transfer
]

abbrev pub is_rtc_connected : RtcStatus → Bool
is_rtc_connected rtc_connected = true
is_rtc_connected _ = false

abbrev pub is_rtc_over : RtcStatus → Bool
is_rtc_over rtc_disconnected = true
is_rtc_over rtc_failed = true
is_rtc_over _ = false

unfoldable pub file_transfer_ready : Bool → String → ClientManager → Bool
file_transfer_ready ready device m =
    can_send ready m
    && is_rtc_connected (get_connection_rtc_state device m)
    && supports_file_transfer device m

unfoldable pub set_active_device_id : String → ClientManager → ClientManager
set_active_device_id device m =
    if string_eq.beq m.active_device_id device
    then m
    else emit active_connection_changed (record m { active_device_id = device })

abbrev pub set_ice_config : String → ClientManager → ClientManager
set_ice_config json m = record m { ice_config = json }
