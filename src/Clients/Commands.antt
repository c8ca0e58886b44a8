-- ===== src/Clients/Commands.antt =====
-- ClientManager: the messages that go to one connection.
use quick_desk.Base.{
  ℕ, zero, suc, ℤ, pos, negsuc, Bool, true, false, not, ◌&&◌, String, is_empty, if◌then◌else◌, leb,
  ltb,
}
use quick_desk.Clients.State.{
  create_display, remove_display, remove_all_displays, query_displays, Command, mouse_event,
  keyboard_event, clipboard_sync, skill_bridge_send, set_framerate, set_resolution_to,
  set_framerate_boost_to, set_bitrate_to, set_audio_enabled_to, select_display_at, action,
  virtual_display_command, cancel_file_upload_of, cancel_file_download_of, hello_message,
  to_connection, error_occurred, ClientManager, emit, send_message, can_send, connection_id_for,
}

-- qBound.
abbrev pub bound : ℕ → ℤ → ℕ → ℤ
bound low (pos n) high = pos (if ltb n low then low else if ltb high n then high else n)
bound low (negsuc n) high = pos low

-- The guard that the methods below share: the process is ready and the device has a connection.
unfoldable pub send_command : Bool → String → Command → ClientManager → ClientManager
send_command ready device c m =
    if can_send ready m && not (is_empty (connection_id_for device m))
    then send_message (to_connection (connection_id_for device m) c) m
    else m

unfoldable pub send_mouse_event :
    Bool → String → String → ℤ → ℤ → ℤ → ℤ → ℤ → ClientManager → ClientManager
send_mouse_event ready device kind x y button dx dy m =
    send_command ready device (mouse_event kind x y button dx dy) m

abbrev pub send_mouse_move : Bool → String → ℤ → ℤ → ClientManager → ClientManager
send_mouse_move ready device x y m =
    send_mouse_event ready device "move" x y (pos 0) (pos 0) (pos 0) m

abbrev pub send_mouse_press : Bool → String → ℤ → ℤ → ℤ → ClientManager → ClientManager
send_mouse_press ready device x y button m =
    send_mouse_event ready device "press" x y button (pos 0) (pos 0) m

abbrev pub send_mouse_release : Bool → String → ℤ → ℤ → ℤ → ClientManager → ClientManager
send_mouse_release ready device x y button m =
    send_mouse_event ready device "release" x y button (pos 0) (pos 0) m

abbrev pub send_mouse_wheel : Bool → String → ℤ → ℤ → ℤ → ℤ → ClientManager → ClientManager
send_mouse_wheel ready device x y dx dy m =
    send_mouse_event ready device "wheel" x y (pos 0) dx dy m

unfoldable pub send_keyboard_event : Bool → String → String → ℤ → ℤ → ClientManager → ClientManager
send_keyboard_event ready device kind code locks m =
    send_command ready device (keyboard_event kind code locks) m

abbrev pub send_key_press : Bool → String → ℤ → ℤ → ClientManager → ClientManager
send_key_press ready device code locks m = send_keyboard_event ready device "press" code locks m

abbrev pub send_key_release : Bool → String → ℤ → ℤ → ClientManager → ClientManager
send_key_release ready device code locks m = send_keyboard_event ready device "release" code locks m

unfoldable pub send_action : Bool → String → String → ClientManager → ClientManager
send_action ready device name m = send_command ready device (action name) m

abbrev pub release_all_input : Bool → String → ClientManager → ClientManager
release_all_input ready device m = send_action ready device "releaseAllInputAction" m

abbrev pub toggle_privacy_screen : Bool → String → Bool → ClientManager → ClientManager
toggle_privacy_screen ready device enabled m =
    send_action ready device (if enabled then "enablePrivacyScreen" else "disablePrivacyScreen") m

unfoldable pub sync_clipboard : Bool → String → String → ClientManager → ClientManager
sync_clipboard ready device text m = send_command ready device (clipboard_sync text) m

unfoldable pub send_skill_command : Bool → String → String → ClientManager → ClientManager
send_skill_command ready device json m = send_command ready device (skill_bridge_send json) m

unfoldable pub set_target_framerate : Bool → String → ℤ → ClientManager → ClientManager
set_target_framerate ready device framerate m =
    send_command ready device (set_framerate (bound 1 framerate 60)) m

-- 0 < value <= 8192
abbrev pub is_extent : ℤ → Bool
is_extent (pos zero) = false
is_extent (pos (suc n)) = leb (suc n) 8192
is_extent (negsuc n) = false

unfoldable pub set_resolution : Bool → String → ℤ → ℤ → ℤ → ClientManager → ClientManager
set_resolution ready device width height dpi m =
    if is_extent width && is_extent height
    then send_command ready device (set_resolution_to width height dpi) m
    else m

unfoldable pub set_framerate_boost : Bool → String → Bool → ℤ → ℤ → ClientManager → ClientManager
set_framerate_boost ready device enabled interval duration m =
    send_command ready device
      (set_framerate_boost_to enabled (bound 10 interval 1000) (bound 100 duration 1000)) m

abbrev pub is_negative : ℤ → Bool
is_negative (pos n) = false
is_negative (negsuc n) = true

unfoldable pub set_bitrate : Bool → String → ℤ → ClientManager → ClientManager
set_bitrate ready device bps m =
    if is_negative bps then m else send_command ready device (set_bitrate_to bps) m

unfoldable pub set_audio_enabled : Bool → String → Bool → ClientManager → ClientManager
set_audio_enabled ready device enabled m =
    send_command ready device (set_audio_enabled_to enabled) m

unfoldable pub select_display : Bool → String → ℤ → ClientManager → ClientManager
select_display ready device index m = send_command ready device (select_display_at index) m

unfoldable pub create_virtual_display : Bool → String → ℤ → ℤ → ℤ → ClientManager → ClientManager
create_virtual_display ready device width height rate m =
    send_command ready device (virtual_display_command (create_display width height rate)) m

unfoldable pub remove_virtual_display : Bool → String → ℤ → ClientManager → ClientManager
remove_virtual_display ready device index m =
    send_command ready device (virtual_display_command (remove_display index)) m

unfoldable pub remove_all_virtual_displays : Bool → String → ClientManager → ClientManager
remove_all_virtual_displays ready device m =
    send_command ready device (virtual_display_command remove_all_displays) m

unfoldable pub query_virtual_displays : Bool → String → ClientManager → ClientManager
query_virtual_displays ready device m =
    send_command ready device (virtual_display_command query_displays) m

unfoldable pub cancel_file_upload : Bool → String → String → ClientManager → ClientManager
cancel_file_upload ready device transfer m =
    send_command ready device (cancel_file_upload_of transfer) m

unfoldable pub cancel_file_download : Bool → String → String → ClientManager → ClientManager
cancel_file_download ready device transfer m =
    send_command ready device (cancel_file_download_of transfer) m

unfoldable pub send_hello : Bool → String → String → ClientManager → ClientManager
send_hello ready device codec m =
    if can_send ready m
    then send_message (hello_message device codec) m
    else emit (error_occurred "" "NOT_READY" "Client process is not ready") m
