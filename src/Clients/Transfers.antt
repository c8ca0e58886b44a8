-- ===== src/Clients/Transfers.antt =====
-- ClientManager: the list of connections and the file transfers.
use quick_desk.Base.{
  Bool, true, false, not, ◌||◌, String, List, [], ◌∷◌, Option, none, some, is_empty, str_eq,
  if◌then◌else◌, length, drop, string_eq,
}
use quick_desk.Base.Dict.{lookup, insert}
use quick_desk.Transfer.Data.{
  TransferQueue, Files, Command as FileCommand, Signal as FileSignal, Url, start_upload,
  cancel_upload, cancel_download, changed, command_requested, notice,
}
use quick_desk.Transfer.Sessions.{begin_session, end_session, reconcile_session, session_active}
use quick_desk.Transfer.Uploads.{enqueue_upload, register_download}
use quick_desk.Clients.State.{
  RtcStatus, rtc_disconnected, Capabilities, ConnectionInfo, blank_connection, Command,
  start_file_upload_of, cancel_file_upload_of, cancel_file_download_of, start_file_download_to,
  to_connection, connection_count_changed, connection_list_changed, file_transfer_notice,
  ClientManager, emit, send_message, can_send, connection_id_for, find_device_id,
  get_connection_rtc_state, is_rtc_connected, is_rtc_over, file_transfer_ready,
}
use quick_desk.Clients.Notices.{rtc_of}

-- An entry of the message connectionListChanged.
pub record Entry : Type 0 where
  pub connection_id : String
  pub device_id : String
  pub device_name : String
  pub connected_at : String
  pub state : String

abbrev pub rtc_or_disconnected : Option RtcStatus → RtcStatus
rtc_or_disconnected none = rtc_disconnected
rtc_or_disconnected (some st) = st

-- What is kept of the connection that the device had, if it is the same one.
abbrev pub kept_capabilities : String → Option ConnectionInfo → Capabilities
kept_capabilities id none = blank_connection.supports
kept_capabilities id (some old) =
    if str_eq old.connection_id id then old.supports else blank_connection.supports

abbrev pub entry_info : List (String × ConnectionInfo) → Entry → ConnectionInfo
entry_info old e = record blank_connection {
  connection_id = e.connection_id;
  device_id = e.device_id;
  supports = kept_capabilities e.connection_id (lookup e.device_id old);
  device_name = e.device_name;
  connected_at = e.connected_at;
  rtc_state = rtc_or_disconnected (rtc_of e.state);
}

unfoldable pub take_entries :
    List (String × ConnectionInfo) → List Entry → ClientManager → ClientManager
take_entries old [] m = m
take_entries old (e ∷ es) m = take_entries old es (record m {
  connections = insert e.device_id (entry_info old e) m.connections;
  conn_id_to_device_id = insert e.connection_id e.device_id m.conn_id_to_device_id;
})

-- Whether the device still has that connection.
abbrev pub is_kept : Option ConnectionInfo → ConnectionInfo → Bool
is_kept none old = false
is_kept (some k) old = str_eq k.connection_id old.connection_id

unfoldable pub end_old :
    List (String × ConnectionInfo) → List (String × ConnectionInfo) → TransferQueue → TransferQueue
end_old now [] q = q
end_old now ((d, old) ∷ ks) q =
    end_old now ks
      (if is_kept (lookup old.device_id now) old then q else end_session old.connection_id q)

unfoldable pub reconcile_all : List (String × ConnectionInfo) → TransferQueue → TransferQueue
reconcile_all [] q = q
reconcile_all ((d, k) ∷ ks) q = reconcile_all ks (
    reconcile_session k.connection_id k.device_id (is_rtc_connected k.rtc_state)
      (is_rtc_over k.rtc_state) q)

unfoldable pub handle_connection_list_changed : List Entry → ClientManager → ClientManager
handle_connection_list_changed es m =
    let taken =
      take_entries m.connections es (record m { connections = []; conn_id_to_device_id = [] }) in
    emit connection_list_changed (
      emit connection_count_changed (record taken {
        transfers =
            reconcile_all taken.connections
              (end_old taken.connections m.connections taken.transfers);
      }))

abbrev pub command_connection : FileCommand → String
command_connection (start_upload id path) = id
command_connection (cancel_upload id transfer) = id
command_connection (cancel_download id transfer) = id

abbrev pub command_message : FileCommand → Command
command_message (start_upload id path) = start_file_upload_of path
command_message (cancel_upload id transfer) = cancel_file_upload_of transfer
command_message (cancel_download id transfer) = cancel_file_download_of transfer

-- The manager's slot for commandRequested.
unfoldable pub answer_command : Bool → FileCommand → ClientManager → ClientManager
answer_command ready c m =
    let id = command_connection c in
    let device = find_device_id id m in
    if is_empty device
      || not (can_send ready m)
      || not (is_rtc_connected (get_connection_rtc_state device m))
    then record m { transfers = end_session id m.transfers }
    else send_message (to_connection id (command_message c)) m

abbrev pub answer_signal : Bool → FileSignal → ClientManager → ClientManager
answer_signal ready changed m = m
answer_signal ready (command_requested c) m = answer_command ready c m
answer_signal ready (notice device text) m = emit (file_transfer_notice device text) m

unfoldable pub answer_signals : Bool → List FileSignal → ClientManager → ClientManager
answer_signals ready [] m = m
answer_signals ready (g ∷ gs) m = answer_signals ready gs (answer_signal ready g m)

-- A call of the queue, and then the slots for the signals that it has emitted: the queue emits a
-- command last, but for a timer that it sets.
unfoldable pub on_transfers : Bool → (TransferQueue → TransferQueue) → ClientManager → ClientManager
on_transfers ready act m =
    answer_signals ready (drop (length m.transfers.signals) (act m.transfers).signals)
      (record m { transfers = act m.transfers })

abbrev pub not_available : String → ClientManager → ClientManager
not_available device m =
    emit (file_transfer_notice device "File transfer is not available for this connection.") m

abbrev pub must_reconnect : String → ClientManager → ClientManager
must_reconnect device m =
    emit
      (file_transfer_notice device "Disconnect and reconnect to reset this session's file queue.") m

-- beginSession, as both kinds of transfer call it.
abbrev pub with_session : String → ClientManager → ClientManager
with_session device m = record m {
  transfers = begin_session (connection_id_for device m) device m.transfers;
}

unfoldable pub start_file_upload :
    Bool → Files → String → String → Url → ClientManager → ClientManager
start_file_upload ready fs fresh device url m =
    let begun : ClientManager = with_session device m in
    if not (file_transfer_ready ready device m)
    then not_available device m
    else if not (session_active (connection_id_for device m) begun.transfers)
    then must_reconnect device begun
    else on_transfers ready (λ q. (enqueue_upload fs fresh (connection_id_for device m) url q).0)
        begun

unfoldable pub start_file_download : Bool → Files → String → String → ClientManager → ClientManager
start_file_download ready fs save_dir device m =
    let id = connection_id_for device m in
    let begun : ClientManager = with_session device m in
    if not (file_transfer_ready ready device m)
    then not_available device m
    else if is_empty id
    then m
    else if not (session_active id begun.transfers)
    then must_reconnect device begun
    else send_message (to_connection id (start_file_download_to save_dir))
        (record begun { transfers = register_download fs id save_dir begun.transfers })

-- pasteFilesFromClipboard, past the check for URLs; each upload comes with its fresh identifier.
unfoldable pub paste_files :
    Bool → Files → String → List (String × Url) → ClientManager → ClientManager × Bool
paste_files ready fs device [] m = (m, false)
paste_files ready fs device ((fresh, url) ∷ urls) m =
    if url.is_local_file
    then (
      (paste_files ready fs device urls (start_file_upload ready fs fresh device url m)).0,
      true,
    )
    else paste_files ready fs device urls m
