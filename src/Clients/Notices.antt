-- ===== src/Clients/Notices.antt =====
-- ClientManager: the messages that tell of one connection.
use Prim.Native.String.{◌++◌ as append_text}
use quick_desk.Base.{
  List, get_elem?, ℕ, pos, negsuc, nat_eqb, ℤ, Bool, true, false, String, Option, none, some,
  is_empty, str_eq, if◌then◌else◌, string_eq,
}
use quick_desk.Base.Dict.{has_key}
use quick_desk.Frames.Manager.{attach, is_attached}
use quick_desk.Clients.State.{
  FileEvent, file_event_happened, Display, display_list_changed, video_layout_changed, RtcStatus,
  rtc_disconnected, rtc_connecting, rtc_connected, rtc_failed, Capabilities,
  connection_list_changed, error_occurred, signaling_state_changed, video_frame_ready,
  host_capabilities_changed, ClientManager, Settings, emit, find_device_id,
}
use quick_desk.Clients.Lifecycle.{
  write_at, set_signaling, set_size, set_name, set_supports, set_rtc, tell_state, change_state,
  detach_memory, drop_connection,
}

-- The handlers run for the device that the message's connection belongs to.
abbrev pub for_device :
    String → (String → ClientManager → ClientManager) → ClientManager → ClientManager
for_device id act m = if is_empty (find_device_id id m) then m else act (find_device_id id m) m

unfoldable pub handle_signaling_state_changed :
    String → ℤ → ℤ → String → String → ClientManager → ClientManager
handle_signaling_state_changed state retry next error device m =
    emit (signaling_state_changed device state retry next error)
      (write_at device (set_signaling state retry next error) m)

-- The state that a text names, if any.
abbrev pub rtc_of : String → Option RtcStatus
rtc_of text =
    if str_eq text "connecting"
    then some rtc_connecting
    else if str_eq text "connected"
    then some rtc_connected
    else if str_eq text "disconnected"
    then some rtc_disconnected
    else if str_eq text "failed"
    then some rtc_failed
    else none

-- hostInfo: the size, where there is a resolution of two parts, and the device's name.
pub record HostInfo : Type 0 where
  pub size : Option (ℤ × ℤ)
  pub device_name : Option String

abbrev pub write_state : Option RtcStatus → String → ClientManager → ClientManager
write_state none device m = m
write_state (some st) device m = write_at device (set_rtc st) m

abbrev pub write_size : Option (ℤ × ℤ) → String → ClientManager → ClientManager
write_size none device m = m
write_size (some (w, h)) device m = write_at device (set_size w h) m

abbrev pub write_name : Option String → String → ClientManager → ClientManager
write_name none device m = m
write_name (some name) device m = write_at device (set_name name) m

unfoldable pub handle_connection_state_changed :
    String → HostInfo → String → ClientManager → ClientManager
handle_connection_state_changed text info device m = emit connection_list_changed (
    tell_state device text (
      write_name info.device_name device
        (write_size info.size device (write_state (rtc_of text) device m))))

unfoldable pub handle_host_connected : String → ClientManager → ClientManager
handle_host_connected device m =
    emit connection_list_changed (change_state rtc_connected "connected" device m)

unfoldable pub handle_host_disconnected : Settings → String → ClientManager → ClientManager
handle_host_disconnected s device m =
    drop_connection s device
      (detach_memory device (change_state rtc_disconnected "disconnected" device m))

unfoldable pub handle_connection_failed :
    Settings → String → String → String → ClientManager → ClientManager
handle_connection_failed s code text device m =
    drop_connection s device
      (emit (error_occurred device code text) (change_state rtc_failed "failed" device m))

abbrev pub is_code : ℤ → ℕ → Bool
is_code (pos n) i = nat_eqb n i
is_code (negsuc n) i = false

unfoldable pub failure_text : Settings → ℤ → String
failure_text s code =
    if is_code code 1
    then "Authentication failed"
    else if is_code code 2
    then "Channel error"
    else if is_code code 3
    then "Connection timeout"
    else if is_code code 4
    then "Network error"
    else append_text (append_text "Connection failed (error code: " (s.number_text code)) ")"

-- handleHostConnectionFailed, which ends the connection as handleConnectionFailed does.
abbrev pub handle_host_connection_failed : Settings → ℤ → String → ClientManager → ClientManager
handle_host_connection_failed s code device m =
    handle_connection_failed s "CONNECTION_FAILED" (failure_text s code) device m

unfoldable pub display_at : ℤ → List Display → Option Display
display_at (pos i) ds = get_elem? ds i
display_at (negsuc i) ds = none

-- handleDisplayListChanged: the older signal is for the active display, where the index names one.
unfoldable pub handle_display_list_changed :
    List Display → ℤ → String → ClientManager → ClientManager
handle_display_list_changed displays active device m =
    let told = emit (display_list_changed device displays active) m in
    elim (display_at active displays) [
      | none ↦ told
      | some d ↦ emit (video_layout_changed device d.width d.height) told
    ]

-- The handlers of the messages about one file, which pass the members on.
abbrev pub handle_file_event : FileEvent → String → ClientManager → ClientManager
handle_file_event event device m = emit (file_event_happened device event) m

unfoldable pub handle_host_capabilities : Capabilities → String → ClientManager → ClientManager
handle_host_capabilities supports device m =
    emit (host_capabilities_changed device supports)
      (if has_key device m.connections then write_at device (set_supports supports) m else m)

-- The first half of handleVideoFrameReady; `attaches` is the answer of QSharedMemory::attach.
unfoldable pub attach_memory : Bool → String → String → ClientManager → ClientManager × Bool
attach_memory attaches name device m = if is_attached device m.memory then (m, true) else (
  record m { memory = (attach attaches device name m.memory).0 },
  (attach attaches device name m.memory).1,
)

unfoldable pub show_frame : ℤ → ℤ → ℤ → String → ClientManager × Bool → ClientManager
show_frame index width height device (m, false) = m
show_frame index width height device (m, true) =
    emit (video_frame_ready device index)
      (if has_key device m.connections then write_at device (set_size width height) m else m)

unfoldable pub handle_video_frame_ready :
    Bool → ℤ → ℤ → ℤ → String → String → ClientManager → ClientManager
handle_video_frame_ready attaches index width height name device m =
    show_frame index width height device (attach_memory attaches name device m)
