-- ===== src/Clients/Machine.antt =====
-- ClientManager: the native messages, and all its calls as one machine.
use quick_desk.Base.{ℕ, ℤ, Bool, String, List, [], ◌∷◌, Option, string_eq}
use quick_desk.Transfer.Data.{Files, Message as FileMessage, Url}
use quick_desk.Transfer.Sessions.{clear_completed, end_all_sessions}
use quick_desk.Transfer.Cancel.{cancel}
use quick_desk.Transfer.Messages.{handle_message}
use quick_desk.Transfer.Steps.{fire}
use quick_desk.Clients.State.{
  Display, FileEvent, set_ice_config, Capabilities, error_occurred, hello_response_received,
  clipboard_received, cursor_shape_changed, skill_bridge_response_received,
  virtual_display_state_changed, ClientManager, Settings, emit, find_device_id,
  set_active_device_id,
}
use quick_desk.Clients.Lifecycle.{
  set_messaging, connect_to_host, disconnect_from_host, disconnect_all,
}
use quick_desk.Clients.Notices.{
  for_device, handle_signaling_state_changed, HostInfo, handle_connection_state_changed,
  handle_host_connected, handle_host_disconnected, handle_connection_failed,
  handle_host_connection_failed, handle_display_list_changed, handle_file_event,
  handle_host_capabilities, handle_video_frame_ready,
}
use quick_desk.Clients.Transfers.{
  Entry, handle_connection_list_changed, on_transfers, start_file_upload, start_file_download,
}

unfoldable pub on_messaging_error : String → ClientManager → ClientManager
on_messaging_error text m =
    emit (error_occurred "" "MESSAGING_ERROR" text)
      (record m { transfers = end_all_sessions m.transfers })

-- The members of a native message beyond those that the queue reads; `id` is connectionId.
pub data Body : Type 0 where
  hello_response : String → Body
  signaling_state : String → ℤ → ℤ → String → Body
  connection_state : String → HostInfo → Body
  connection_list : List Entry → Body
  video_frame : Bool → ℤ → ℤ → ℤ → String → Body
  clipboard : String → Body
  error_message : String → String → Body
  connection_failed : String → String → Body
  host_connected host_disconnected : Body
  host_connection_failed : ℤ → Body
  cursor_shape : ℤ → ℤ → ℤ → ℤ → String → Body
  display_list : List Display → ℤ → Body
  host_capabilities : Capabilities → Body
  -- The members that the queue has read too.
  file_event : FileEvent → Body
  skill_bridge_response virtual_display_state : String → Body
  -- The responses that are only logged, and the types that are not modelled or not known.
  other_message : Body

unfoldable pub handle_body : Settings → String → Body → ClientManager → ClientManager
handle_body s id (hello_response version) m = emit (hello_response_received version) m
handle_body s id (signaling_state state retry next error) m =
    for_device id (handle_signaling_state_changed state retry next error) m
handle_body s id (connection_state text info) m =
    for_device id (handle_connection_state_changed text info) m
handle_body s id (connection_list es) m = handle_connection_list_changed es m
handle_body s id (video_frame attaches index width height name) m =
    for_device id (handle_video_frame_ready attaches index width height name) m
handle_body s id (clipboard text) m =
    for_device id (λ device m. emit (clipboard_received device text) m) m
handle_body s id (error_message code text) m =
    emit (error_occurred (find_device_id id m) code text) m
handle_body s id (connection_failed code text) m =
    for_device id (handle_connection_failed s code text) m
handle_body s id host_connected m = for_device id handle_host_connected m
handle_body s id host_disconnected m = for_device id (handle_host_disconnected s) m
handle_body s id (host_connection_failed code) m =
    for_device id (handle_host_connection_failed s code) m
handle_body s id (cursor_shape width height x y image) m =
    for_device id (λ device m. emit (cursor_shape_changed device width height x y image) m) m
handle_body s id (host_capabilities supports) m =
    for_device id (handle_host_capabilities supports) m
handle_body s id (display_list displays active) m =
    for_device id (handle_display_list_changed displays active) m
handle_body s id (file_event event) m = for_device id (handle_file_event event) m
handle_body s id (skill_bridge_response json) m =
    for_device id (λ device m. emit (skill_bridge_response_received device json) m) m
handle_body s id (virtual_display_state json) m =
    for_device id (λ device m. emit (virtual_display_state_changed device json) m) m
handle_body s id other_message m = m

-- The queue reads every message first.
unfoldable pub on_message_received :
    Settings → Bool → String → FileMessage → Body → ClientManager → ClientManager
on_message_received s ready fresh wire body m =
    handle_body s wire.connection_id body (on_transfers ready (handle_message fresh wire) m)

pub data Step : Type 0 where
  sets_messaging : Option ℕ → Step
  connects : Bool → String → String → String → String → Step
  disconnects : Bool → String → Step
  disconnects_all : Bool → Step
  activates : String → Step
  receives : Bool → String → FileMessage → Body → Step
  fails : String → Step
  uploads : Bool → Files → String → String → Url → Step
  downloads : Bool → Files → String → String → Step
  cancels : Bool → String → Step
  clears : Step
  configures : String → Step
  -- The i-th timer of the queue.
  fires : Bool → Files → ℕ → Step

unfoldable pub step : Settings → Step → ClientManager → ClientManager
step s (sets_messaging messaging) m = set_messaging messaging m
step s (connects ready device code token url) m =
    (connect_to_host s ready device code token url m).0
step s (disconnects ready device) m = disconnect_from_host s ready device m
step s (disconnects_all ready) m = disconnect_all ready m
step s (activates device) m = set_active_device_id device m
step s (receives ready fresh wire body) m = on_message_received s ready fresh wire body m
step s (fails text) m = on_messaging_error text m
step s (uploads ready fs fresh device url) m = start_file_upload ready fs fresh device url m
step s (downloads ready fs save_dir device) m = start_file_download ready fs save_dir device m
step s (cancels ready task) m = on_transfers ready (cancel task) m
step s (configures json) m = set_ice_config json m
step s clears m = record m { transfers = clear_completed m.transfers }
step s (fires ready fs i) m = on_transfers ready (fire fs i) m

unfoldable pub run : Settings → List Step → ClientManager → ClientManager
run s [] m = m
run s (x ∷ xs) m = run s xs (step s x m)
