-- ===== src/Clients/FileSessions.antt =====
-- ClientManager: the file sessions that uploads and downloads begin.
use quick_desk.Base.{
  ◌≡◌, refl, sym, ◌∙◌, ap, subst, inl, inr, Bool, true, not, ◌&&◌, ◌||◌, String, List, [], ◌∷◌,
  some, arith, str_eq, is_empty, string_eq, Option-cases, if_split,
}
use quick_desk.Base.Dict.{lookup, has_key}
use quick_desk.Transfer.Data.{
  TransferQueue, Files, Signal as FileSignal, Url, changed, command_requested, notice,
}
use quick_desk.Transfer.Sessions.{begin_session, session_active}
use quick_desk.Transfer.Kept.{
  enqueue_upload_sessions, register_download_sessions, end_session_sessions, begin_session_sessions,
}
use quick_desk.Clients.State.{
  rtc_connected, rtc_disconnected, ConnectionInfo, Settings, ClientManager, connection_id_for,
  find_device_id, get_connection_rtc_state, is_rtc_connected, file_transfer_ready, can_send,
}
use quick_desk.Clients.Transfers.{
  command_connection, answer_command, answer_signals, on_transfers, with_session, start_file_upload,
  start_file_download,
}
use quick_desk.Clients.Wired.{fewer-IsWired, update-IsWired}
use quick_desk.Clients.Changes.{
  Wired, is_rtc_connected-eq, unwritten, reads-IsWired, connection_id_for-some,
}

-- The slots for the queue's signals end sessions at most.
answer_signals-Wired :
    {s : Settings} (ready : Bool) (gs : List FileSignal) (m : ClientManager)
    → Wired s m
    → Wired s (answer_signals ready gs m)
unfolding answer_signals answer_command
answer_signals-Wired ready [] m w = w
answer_signals-Wired ready (changed ∷ gs) m w = answer_signals-Wired ready gs m w
answer_signals-Wired ready (notice d text ∷ gs) m w = answer_signals-Wired ready gs _ w
answer_signals-Wired {s} ready (command_requested c ∷ gs) m w = answer_signals-Wired ready gs _ (
    if_split (Wired s)
      (is_empty (find_device_id (command_connection c) m)
        || not (can_send ready m)
        || not (
            is_rtc_connected
              (get_connection_rtc_state (find_device_id (command_connection c) m) m)))
      (λ _.
        fewer-IsWired _ (λ j h. (end_session_sessions (command_connection c) j m.transfers h).0) w)
      (λ _. w))

pub on_transfers-Wired :
    {s : Settings} (ready : Bool) (act : TransferQueue → TransferQueue) (m : ClientManager)
    → (act m.transfers).sessions ≡ m.transfers.sessions
    → Wired s m
    → Wired s (on_transfers ready act m)
unfolding on_transfers
on_transfers-Wired ready act m e w =
    answer_signals-Wired ready _ _
      (fewer-IsWired (act m.transfers) (λ c h. cc (h, ap (has_key c) e)) w)

connected_found :
    (d : String) (m : ClientManager)
    → is_rtc_connected (get_connection_rtc_state d m) ≡ true
    → (k : ConnectionInfo) × (lookup d m.connections ≡ some k) × (k.rtc_state ≡ rtc_connected)
unfolding get_connection_rtc_state
connected_found d m h = elim (Option-cases (lookup d m.connections)) [
  | inl e ↦
      let st : get_connection_rtc_state d m ≡ rtc_disconnected =
        rw (e, get_connection_rtc_state) refl in
      absurd (cc (h, ap is_rtc_connected st))
  | inr (k, e) ↦
      let st : get_connection_rtc_state d m ≡ k.rtc_state = rw (e, get_connection_rtc_state) refl in
      (k, e, is_rtc_connected-eq k.rtc_state (ap is_rtc_connected (sym st) ∙ h))
]

-- A session that an upload or a download begins is that of a connected device.
with_session-Wired :
    {s : Settings} (ready : Bool) (d : String) (m : ClientManager)
    → file_transfer_ready ready d m ≡ true
    → Wired s m
    → Wired s (with_session d m)
unfolding file_transfer_ready
with_session-Wired {s} ready d m r w =
    let (k, e, up) = connected_found d m (ground (arith, r)) in
    let z = unwritten d k m.connections e in
    let id = connection_id_for-some d k m e in
    reads-IsWired z.reads (
      update-IsWired d k z.new (begin_session (connection_id_for d m) d m.transfers) e z.same_id
        z.same_device
        (λ c h.
          subst
            (λ (i : String).
              (has_key c m.transfers.sessions || (str_eq i c && not (is_empty i))) ≡ true)
            id (begin_session_sessions (connection_id_for d m) d c m.transfers h))
        (λ _. z.state ∙ up) w)

pub start_file_upload-Wired :
    {s : Settings} (ready : Bool) (fs : Files) (fresh d : String) (url : Url) (m : ClientManager)
    → Wired s m
    → Wired s (start_file_upload ready fs fresh d url m)
unfolding start_file_upload
start_file_upload-Wired {s} ready fs fresh d url m w =
    if_split (Wired s) (not (file_transfer_ready ready d m)) (λ _. w)
      (λ r.
        let v = with_session-Wired ready d m (ground (arith, r)) w in
        if_split (Wired s)
          (not (session_active (connection_id_for d m) (with_session d m).transfers)) (λ _. v)
          (λ _.
            on_transfers-Wired ready _ (with_session d m)
              (enqueue_upload_sessions fs fresh (connection_id_for d m) url
                (with_session d m).transfers)
              v))

pub start_file_download-Wired :
    {s : Settings} (ready : Bool) (fs : Files) (save_dir d : String) (m : ClientManager)
    → Wired s m
    → Wired s (start_file_download ready fs save_dir d m)
unfolding start_file_download
start_file_download-Wired {s} ready fs save_dir d m w =
    if_split (Wired s) (not (file_transfer_ready ready d m)) (λ _. w)
      (λ r.
        if_split (Wired s) (is_empty (connection_id_for d m)) (λ _. w)
          (λ _.
            let v = with_session-Wired ready d m (ground (arith, r)) w in
            if_split (Wired s)
              (not (session_active (connection_id_for d m) (with_session d m).transfers)) (λ _. v)
              (λ _.
                fewer-IsWired _
                  (λ c h. cc (
                    h,
                    ap (has_key c) (
                        register_download_sessions fs (connection_id_for d m) save_dir
                          (with_session d m).transfers),
                  ))
                  v)))
