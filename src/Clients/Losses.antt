-- ===== src/Clients/Losses.antt =====
-- ClientManager: the state that a message tells of, and the loss of all connections.
use quick_desk.Base.{
  ℕ, ℤ, ◌≡◌, refl, ◌∙◌, ap, inl, inr, Bool, true, false, String, List, [], ◌∷◌, Option, none, some,
  arith, str_eq, is_empty, string_eq, eq_iff, Bool-cases, if_split, if◌then◌else◌,
}
use quick_desk.Base.Dict.{lookup, has_key, lookup-insert_self}
use quick_desk.Clients.State.{
  RtcStatus, rtc_connected, rtc_disconnected, ConnectionInfo, Settings, ClientManager,
  connection_id_for, can_send, send_message, disconnect_all_message,
}
use quick_desk.Clients.Lifecycle.{at_device, write_at, set_size, set_name, set_rtc, tell_state}
use quick_desk.Clients.Notices.{
  rtc_of, HostInfo, write_state, write_size, write_name, handle_connection_state_changed,
}
use quick_desk.Clients.Wired.{IsWired}
use quick_desk.Clients.Changes.{
  Wired, IsRewritten, unwritten, at_device-some, write_at-IsRewritten, connection_id_for-some,
  tell_state-Wired,
}
use quick_desk.Base.Dict.{contains, keys, lookup-insert_other}
use quick_desk.Transfer.Data.{TransferQueue}
use quick_desk.Transfer.Sessions.{reconcile_session, end_all_sessions}
use quick_desk.Transfer.Kept.{reconcile_session_drops, end_sessions_sessions}
use quick_desk.Clients.Lifecycle.{
  lose_devices, lose_all, disconnect_devices, disconnect_all, same_messaging, set_messaging,
}
use quick_desk.Clients.Wired.{IsUp, fewer-IsWired}
use quick_desk.Clients.Changes.{ended}

abbrev state_after : Option RtcStatus → RtcStatus → RtcStatus
state_after none st = st
state_after (some new) st = new

write_name-IsRewritten :
    {d : String} {old : ConnectionInfo} {st : RtcStatus} {ks : List (String × ConnectionInfo)}
    (name : Option String) (m : ClientManager)
    → IsRewritten d old st ks m.connections
    → IsRewritten d old st ks (write_name name d m).connections
write_name-IsRewritten none m z = z
write_name-IsRewritten (some name) m z =
    write_at-IsRewritten (set_name name) m (λ _. refl) (λ _. refl) (λ _ e. e) z

write_size-IsRewritten :
    {d : String} {old : ConnectionInfo} {st : RtcStatus} {ks : List (String × ConnectionInfo)}
    (size : Option (ℤ × ℤ)) (m : ClientManager)
    → IsRewritten d old st ks m.connections
    → IsRewritten d old st ks (write_size size d m).connections
write_size-IsRewritten none m z = z
write_size-IsRewritten (some (w, h)) m z =
    write_at-IsRewritten (set_size w h) m (λ _. refl) (λ _. refl) (λ _ e. e) z

write_state-IsRewritten :
    (o : Option RtcStatus) (d : String) (k : ConnectionInfo) (m : ClientManager)
    → lookup d m.connections ≡ some k
    → IsRewritten d k (state_after o k.rtc_state) m.connections (write_state o d m).connections
write_state-IsRewritten none d k m e = unwritten d k m.connections e
write_state-IsRewritten (some st) d k m e =
    write_at-IsRewritten (set_rtc st) m (λ _. refl) (λ _. refl) (λ _ _. refl)
      (unwritten d k m.connections e)

-- The three writes leave all but the connections alone.
written-IsWired :
    {s : Settings} {ks : List (String × ConnectionInfo)} (o : Option RtcStatus)
    (size : Option (ℤ × ℤ)) (name : Option String) (d : String) (m : ClientManager)
    → IsWired s m.connection_counter ks m.conn_id_to_device_id m.transfers
    → (λ (x : ClientManager). IsWired s x.connection_counter ks x.conn_id_to_device_id x.transfers)
        (write_name name d (write_size size d (write_state o d m)))
written-IsWired none none none d m w = w
written-IsWired none none (some n) d m w = w
written-IsWired none (some (x, y)) none d m w = w
written-IsWired none (some (x, y)) (some n) d m w = w
written-IsWired (some st) none none d m w = w
written-IsWired (some st) none (some n) d m w = w
written-IsWired (some st) (some (x, y)) none d m w = w
written-IsWired (some st) (some (x, y)) (some n) d m w = w

state_after-agrees :
    (text : String) (st : RtcStatus)
    → str_eq text "connected" ≡ true
    → state_after (rtc_of text) st ≡ rtc_connected
state_after-agrees text st t =
    let e : text ≡ "connected" = (eq_iff text "connected").0 t in rw e refl

-- Whatever state a message names, the session of the connection goes with every state but
-- "connected".
pub handle_connection_state_changed-Wired :
    {s : Settings} (text : String) (info : HostInfo) (d : String) (k : ConnectionInfo)
    (m : ClientManager)
    → lookup d m.connections ≡ some k
    → Wired s m
    → Wired s (handle_connection_state_changed text info d m)
unfolding handle_connection_state_changed
handle_connection_state_changed-Wired {s} text info d k m e w =
    tell_state-Wired d text k _
      (write_name-IsRewritten info.device_name _
        (write_size-IsRewritten info.size _ (write_state-IsRewritten (rtc_of text) d k m e)))
      e (state_after-agrees text k.rtc_state)
      (written-IsWired (rtc_of text) info.size info.device_name d m w)

-- Every session left is that of a connected device among those named.
abbrev IsLeft : List String → List (String × ConnectionInfo) → TransferQueue → Type 0
IsLeft ds ks q =
    (c : String)
    → has_key c q.sessions ≡ true
    → (is_empty c ≡ false) × (u : IsUp ks c) × (contains u.device ds ≡ true)

contains_head :
    (d x : String) (ds : List String)
    → contains x (d ∷ ds) ≡ true
    → str_eq d x ≡ false
    → contains x ds ≡ true
unfolding contains
contains_head d x ds h f = ground (arith, h, f)

-- One device more is told that it is disconnected.
tell-IsLeft :
    (ds : List String) (ks now : List (String × ConnectionInfo)) (d i : String) (over : Bool)
    (q : TransferQueue)
    → ((x : String) → str_eq d x ≡ false → lookup x now ≡ lookup x ks)
    → ((k : ConnectionInfo) → lookup d ks ≡ some k → i ≡ k.connection_id)
    → IsLeft (d ∷ ds) ks q
    → IsLeft ds now (reconcile_session i d false over q)
tell-IsLeft ds ks now d i over q others own left c h =
    let (full, u, named) = left c (reconcile_session_drops i d c over q h) in
    let kept : (x : IsUp now c) × (contains x.device ds ≡ true) =
      elim (Bool-cases (str_eq d u.device)) [
        | inl same ↦
            let t : d ≡ u.device = (eq_iff d u.device).0 same in
            let mine : i ≡ c =
              own u.info (ap (λ (x : String). lookup x ks) t ∙ u.found) ∙ u.named in
            absurd (cc (h, ended i c d false over q mine refl full))
        | inr other ↦ (
          record {
            device = u.device;
            info = u.info;
            found = others u.device other ∙ u.found;
            named = u.named;
            up = u.up;
          },
          contains_head d u.device ds named other,
        )
      ] in
    (full, kept.0, kept.1)

lose_devices-IsLeft :
    (ds : List String) (m : ClientManager)
    → IsLeft ds m.connections m.transfers
    → IsLeft [] (lose_devices ds m).connections (lose_devices ds m).transfers
unfolding lose_devices tell_state
lose_devices-IsLeft [] m left = left
lose_devices-IsLeft (d ∷ ds) m left = lose_devices-IsLeft ds _ (
    tell-IsLeft ds m.connections _ d (connection_id_for d m) true m.transfers (λ x _. refl)
      (λ k e. connection_id_for-some d k m e) left)

disconnect_devices-IsLeft :
    (ds : List String) (m : ClientManager)
    → IsLeft ds m.connections m.transfers
    → IsLeft [] (disconnect_devices ds m).connections (disconnect_devices ds m).transfers
unfolding disconnect_devices tell_state
disconnect_devices-IsLeft [] m left = left
disconnect_devices-IsLeft (d ∷ ds) m left =
    let written : ClientManager = write_at d (set_rtc rtc_disconnected) m in
    disconnect_devices-IsLeft ds _ (
      tell-IsLeft ds m.connections _ d (connection_id_for d written) true m.transfers
        (λ x other. lookup-insert_other d x _ m.connections other)
        (λ k e.
          connection_id_for-some d (set_rtc rtc_disconnected (at_device d m.connections)) written
            (lookup-insert_self d _ m.connections)
          ∙ ap (λ (x : ConnectionInfo). x.connection_id) (at_device-some d k m e))
        left)

-- Without a connection there is no session.
cleared-Wired :
    {s : Settings} {n : ℕ} {ks : List (String × ConnectionInfo)} (q : TransferQueue)
    → IsLeft [] ks q
    → IsWired s n [] [] q
unfolding lookup contains
cleared-Wired q left = record {
  own = λ d k e. absurd (cc e);
  back = λ c d e. absurd (cc e);
  issued = λ c d e. absurd (cc e);
  live = λ c h. let (full, u, named) = left c h in absurd (cc named);
}

contains-keys :
    (d : String) (k : ConnectionInfo) (ks : List (String × ConnectionInfo))
    → lookup d ks ≡ some k
    → contains d (keys ks) ≡ true
unfolding lookup contains keys
contains-keys d k [] e = absurd (cc e)
contains-keys d k ((x, j) ∷ ks) e = ground (arith, contains-keys d k ks)

wired-IsLeft :
    {s : Settings} {n : ℕ} {ids : List (String × String)} (ks : List (String × ConnectionInfo))
    (q : TransferQueue)
    → IsWired s n ks ids q
    → IsLeft (keys ks) ks q
wired-IsLeft ks q w c h =
    let (full, u) = w.live c h in (full, u, contains-keys u.device u.info ks u.found)

lose_all-Wired :
    {s : Settings} (ds : List String) (m : ClientManager)
    → IsLeft ds m.connections m.transfers
    → Wired s (lose_all ds m)
unfolding lose_all
lose_all-Wired [] m left = cleared-Wired m.transfers left
lose_all-Wired (d ∷ ds) m left = cleared-Wired _ (lose_devices-IsLeft (d ∷ ds) m left)

pub disconnect_all-Wired :
    {s : Settings} (ready : Bool) (m : ClientManager) → Wired s m → Wired s (disconnect_all ready m)
unfolding disconnect_all
disconnect_all-Wired {s} ready m w =
    if_split (Wired s) (can_send ready m)
      (λ _. cleared-Wired _ (
        disconnect_devices-IsLeft (keys m.connections) (send_message disconnect_all_message m)
          (wired-IsLeft m.connections m.transfers w)))
      (λ _. w)

pub end_all_fewer :
    (b : Bool) (c : String) (q : TransferQueue)
    → has_key c (if b then q else end_all_sessions q).sessions ≡ true
    → has_key c q.sessions ≡ true
unfolding end_all_sessions
end_all_fewer true c q h = h
end_all_fewer false c q h = end_sessions_sessions (keys q.sessions) c q h

pub set_messaging-Wired :
    {s : Settings} (messaging : Option ℕ) (m : ClientManager)
    → Wired s m
    → Wired s (set_messaging messaging m)
unfolding set_messaging
set_messaging-Wired (some i) m w =
    fewer-IsWired _ (λ c. end_all_fewer (same_messaging m.messaging (some i)) c m.transfers) w
set_messaging-Wired none m w =
    let q : TransferQueue =
      if same_messaging m.messaging none then m.transfers else end_all_sessions m.transfers in
    let v =
      fewer-IsWired q (λ c. end_all_fewer (same_messaging m.messaging none) c m.transfers) w in
    lose_all-Wired (keys m.connections) _ (wired-IsLeft m.connections q v)
