-- ===== src/Clients/Histories.antt =====
-- ClientManager: the maps and the file sessions over whole histories.
use quick_desk.Base.{
  ℤ, Option-cases, inl, inr, ℕ, ◌≡◌, refl, ◌∙◌, ap, Bool, true, false, ◌&&◌, String, List, [], ◌∷◌,
  arith, string_eq,
}
use quick_desk.Transfer.Data.{
  TransferQueue, Signal as FileSignal, changed, command_requested, notice,
}
use quick_desk.Transfer.Sessions.{clear_completed}
use quick_desk.Transfer.Cancel.{cancel}
use quick_desk.Transfer.Messages.{handle_message}
use quick_desk.Transfer.Steps.{fire}
use quick_desk.Transfer.Kept.{handle_message_sessions, cancel_sessions, fire_sessions}
use quick_desk.Clients.State.{
  Display, Settings, ClientManager, emit, clipboard_received, cursor_shape_changed,
  skill_bridge_response_received, virtual_display_state_changed,
}
use quick_desk.Clients.Notices.{
  handle_connection_failed, handle_signaling_state_changed, handle_connection_state_changed,
  handle_video_frame_ready, handle_host_connected, handle_host_disconnected,
  handle_display_list_changed, handle_file_event, display_at, handle_host_capabilities,
  failure_text, handle_host_connection_failed,
}
use quick_desk.Clients.Machine.{
  display_list, file_event, configures, on_messaging_error, Body, hello_response, signaling_state,
  connection_state, connection_list, video_frame, clipboard, error_message, connection_failed,
  host_connected, host_disconnected, host_connection_failed, cursor_shape, host_capabilities,
  skill_bridge_response, virtual_display_state, other_message, handle_body, on_message_received,
  Step, sets_messaging, connects, disconnects, disconnects_all, activates, receives, fails, uploads,
  downloads, cancels, clears, fires, step, run,
}
use quick_desk.Clients.Transfers.{answer_command, answer_signals, on_transfers}
use quick_desk.Clients.Wired.{fewer-IsWired}
use quick_desk.Clients.Changes.{Wired, set_active_device_id-Wired, for_device-Wired}
use quick_desk.Clients.Handlers.{
  handle_signaling_state_changed-Wired, handle_host_capabilities-Wired,
  handle_video_frame_ready-Wired, handle_host_connected-Wired, handle_host_disconnected-Wired,
  handle_connection_failed-Wired, disconnect_from_host-Wired, connect_to_host-Wired,
}
use quick_desk.Clients.Listings.{is_proper}
use quick_desk.Clients.ListedSessions.{handle_connection_list_changed-Wired}
use quick_desk.Clients.Losses.{
  handle_connection_state_changed-Wired, disconnect_all-Wired, set_messaging-Wired, end_all_fewer,
}
use quick_desk.Clients.FileSessions.{
  on_transfers-Wired, start_file_upload-Wired, start_file_download-Wired,
}

-- A listing names connections by identifiers that were issued, each device and each once.
abbrev pub is_proper_body : Settings → ℕ → Body → Bool
is_proper_body s n (connection_list es) = is_proper s n es
is_proper_body s n body = true

handle_display_list_changed-Wired :
    {s : Settings} (displays : List Display) (active : ℤ) (d : String) (m : ClientManager)
    → Wired s m
    → Wired s (handle_display_list_changed displays active d m)
unfolding handle_display_list_changed
handle_display_list_changed-Wired displays active d m w =
    elim (Option-cases (display_at active displays)) [
      | inl e ↦ rw (e, handle_display_list_changed) w
      | inr (x, e) ↦ rw (e, handle_display_list_changed) w
    ]

handle_body-Wired :
    {s : Settings} (id : String) (body : Body) (m : ClientManager)
    → is_proper_body s m.connection_counter body ≡ true
    → Wired s m
    → Wired s (handle_body s id body m)
unfolding handle_body
handle_body-Wired id (hello_response version) m n w = w
handle_body-Wired id (signaling_state state retry next error) m n w =
    for_device-Wired id (handle_signaling_state_changed state retry next error) m
      (λ d k e. handle_signaling_state_changed-Wired state retry next error d k m e w) w
handle_body-Wired id (connection_state text info) m n w =
    for_device-Wired id (handle_connection_state_changed text info) m
      (λ d k e. handle_connection_state_changed-Wired text info d k m e w) w
handle_body-Wired id (connection_list es) m n w = handle_connection_list_changed-Wired es m n w
handle_body-Wired id (video_frame attaches index width height name) m n w =
    for_device-Wired id (handle_video_frame_ready attaches index width height name) m
      (λ d k e. handle_video_frame_ready-Wired attaches index width height name d k m e w) w
handle_body-Wired id (clipboard text) m n w =
    for_device-Wired id (λ device m. emit (clipboard_received device text) m) m (λ d k e. w) w
handle_body-Wired id (error_message code text) m n w = w
handle_body-Wired {s} id (connection_failed code text) m n w =
    for_device-Wired id (handle_connection_failed s code text) m
      (λ d k e. handle_connection_failed-Wired code text d k m e w) w
handle_body-Wired id host_connected m n w =
    for_device-Wired id handle_host_connected m (λ d k e. handle_host_connected-Wired d k m e w) w
handle_body-Wired {s} id host_disconnected m n w =
    for_device-Wired id (handle_host_disconnected s) m
      (λ d k e. handle_host_disconnected-Wired d k m e w) w
handle_body-Wired {s} id (host_connection_failed code) m n w =
    for_device-Wired id (handle_host_connection_failed s code) m
      (λ d k e. handle_connection_failed-Wired "CONNECTION_FAILED" (failure_text s code) d k m e w)
      w
handle_body-Wired id (cursor_shape width height x y image) m n w =
    for_device-Wired id (λ device m. emit (cursor_shape_changed device width height x y image) m) m
      (λ d k e. w) w
handle_body-Wired id (host_capabilities supports) m n w =
    for_device-Wired id (handle_host_capabilities supports) m
      (λ d k e. handle_host_capabilities-Wired supports d k m e w) w
handle_body-Wired id (display_list displays active) m n w =
    for_device-Wired id (handle_display_list_changed displays active) m
      (λ d k e. handle_display_list_changed-Wired displays active d m w) w
handle_body-Wired id (file_event event) m n w =
    for_device-Wired id (handle_file_event event) m (λ d k e. w) w
handle_body-Wired id (skill_bridge_response json) m n w =
    for_device-Wired id (λ device m. emit (skill_bridge_response_received device json) m) m
      (λ d k e. w) w
handle_body-Wired id (virtual_display_state json) m n w =
    for_device-Wired id (λ device m. emit (virtual_display_state_changed device json) m) m
      (λ d k e. w) w
handle_body-Wired id other_message m n w = w

-- The slots for the queue's signals issue no identifier.
answer_signals_counter :
    (ready : Bool) (gs : List FileSignal) (m : ClientManager)
    → (answer_signals ready gs m).connection_counter ≡ m.connection_counter
unfolding answer_signals answer_command
answer_signals_counter ready [] m = refl
answer_signals_counter ready (changed ∷ gs) m = answer_signals_counter ready gs m
answer_signals_counter ready (notice d text ∷ gs) m = answer_signals_counter ready gs _
answer_signals_counter ready (command_requested c ∷ gs) m =
    answer_signals_counter ready gs (answer_command ready c m) ∙ ground arith

on_transfers_counter :
    (ready : Bool) (act : TransferQueue → TransferQueue) (m : ClientManager)
    → (on_transfers ready act m).connection_counter ≡ m.connection_counter
unfolding on_transfers
on_transfers_counter ready act m = answer_signals_counter ready _ _

abbrev pub is_proper_step : Settings → ℕ → Step → Bool
is_proper_step s n (receives ready fresh wire body) = is_proper_body s n body
is_proper_step s n x = true

-- In a history every listing is proper when it comes.
unfoldable pub is_proper_history : Settings → List Step → ClientManager → Bool
is_proper_history s [] m = true
is_proper_history s (x ∷ xs) m =
    is_proper_step s m.connection_counter x && is_proper_history s xs (step s x m)

step-Wired :
    {s : Settings} (x : Step) (m : ClientManager)
    → ((i j : ℕ) → s.conn_name i ≡ s.conn_name j → i ≡ j)
    → is_proper_step s m.connection_counter x ≡ true
    → Wired s m
    → Wired s (step s x m)
unfolding step on_message_received on_messaging_error clear_completed
step-Wired (sets_messaging messaging) m inj n w = set_messaging-Wired messaging m w
step-Wired (connects ready d code token url) m inj n w =
    connect_to_host-Wired ready d code token url m inj w
step-Wired (disconnects ready d) m inj n w = disconnect_from_host-Wired ready d m w
step-Wired (disconnects_all ready) m inj n w = disconnect_all-Wired ready m w
step-Wired (activates d) m inj n w = set_active_device_id-Wired d m w
step-Wired {s} (receives ready fresh wire body) m inj n w =
    handle_body-Wired wire.connection_id body _
      (ap (λ (i : ℕ). is_proper_body s i body)
          (on_transfers_counter ready (handle_message fresh wire) m)
        ∙ n)
      (on_transfers-Wired ready (handle_message fresh wire) m
        (handle_message_sessions fresh wire m.transfers) w)
step-Wired (fails text) m inj n w = fewer-IsWired _ (λ c. end_all_fewer false c m.transfers) w
step-Wired (uploads ready fs fresh d url) m inj n w =
    start_file_upload-Wired ready fs fresh d url m w
step-Wired (downloads ready fs save_dir d) m inj n w =
    start_file_download-Wired ready fs save_dir d m w
step-Wired (cancels ready task) m inj n w =
    on_transfers-Wired ready (cancel task) m (cancel_sessions task m.transfers) w
step-Wired (configures json) m inj n w = w
step-Wired clears m inj n w = fewer-IsWired _ (λ c h. h) w
step-Wired (fires ready fs i) m inj n w =
    on_transfers-Wired ready (fire fs i) m (fire_sessions fs i m.transfers) w

pub run-Wired :
    {s : Settings} (xs : List Step) (m : ClientManager)
    → ((i j : ℕ) → s.conn_name i ≡ s.conn_name j → i ≡ j)
    → is_proper_history s xs m ≡ true
    → Wired s m
    → Wired s (run s xs m)
unfolding run is_proper_history
run-Wired [] m inj n w = w
run-Wired (x ∷ xs) m inj n w =
    run-Wired xs _ inj (ground arith) (step-Wired x m inj (ground arith) w)
