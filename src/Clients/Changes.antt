-- ===== src/Clients/Changes.antt =====
-- ClientManager: one device's connection changes its state, or goes.
use quick_desk.Base.{
  ℕ, ◌≡◌, refl, sym, ◌∙◌, ap, subst, inl, inr, Bool, true, false, not, ◌&&◌, ◌||◌, String, List,
  some, is_some, arith, str_eq, is_empty, string_eq, eq_iff, Bool-cases, Option-cases, if_split,
}
use quick_desk.Base.Dict.{
  lookup, insert, has_key, has_key-lookup, lookup-insert, lookup-insert_self,
}
use quick_desk.Transfer.Data.{TransferQueue}
use quick_desk.Transfer.Sessions.{reconcile_session}
use quick_desk.Transfer.Kept.{reconcile_session_sessions, reconcile_session_ends}
use quick_desk.Clients.State.{
  RtcStatus, rtc_connected, rtc_connecting, rtc_disconnected, rtc_failed, is_rtc_connected,
  ConnectionInfo, Settings, ClientManager, connection_id_for, find_device_id, set_active_device_id,
}
use quick_desk.Clients.Lifecycle.{
  at_device, write_at, set_rtc, tell_state, change_state, remove_connection, pick_active,
  drop_connection,
}
use quick_desk.Clients.Notices.{for_device}
use quick_desk.Clients.Wired.{IsWired, update-IsWired, erase-IsWired}

abbrev pub Wired : Settings → ClientManager → Type 0
Wired s m = IsWired s m.connection_counter m.connections m.conn_id_to_device_id m.transfers

pub is_rtc_connected-eq : (st : RtcStatus) → is_rtc_connected st ≡ true → st ≡ rtc_connected
is_rtc_connected-eq rtc_connected h = refl
is_rtc_connected-eq rtc_connecting h = absurd (cc h)
is_rtc_connected-eq rtc_disconnected h = absurd (cc h)
is_rtc_connected-eq rtc_failed h = absurd (cc h)

-- The map after writes to the entry of one device.
pub record IsRewritten (d : String) (old : ConnectionInfo) (st : RtcStatus)
    (ks now : List (String × ConnectionInfo)) : Type 0 where
  pub new : ConnectionInfo
  pub state : new.rtc_state ≡ st
  pub same_id : new.connection_id ≡ old.connection_id
  pub same_device : new.device_id ≡ old.device_id
  pub reads : (x : String) → lookup x now ≡ lookup x (insert d new ks)

pub unwritten :
    (d : String) (old : ConnectionInfo) (ks : List (String × ConnectionInfo))
    → lookup d ks ≡ some old
    → IsRewritten d old old.rtc_state ks ks
unwritten d old ks e = record {
  new = old;
  state = refl;
  same_id = refl;
  same_device = refl;
  reads = λ x. ground (arith, lookup-insert d x old ks, eq_iff d x, e);
}

pub reads_self :
    {d : String} {old : ConnectionInfo} {st : RtcStatus} {ks now : List (String × ConnectionInfo)}
    → (z : IsRewritten d old st ks now) → lookup d now ≡ some z.new
reads_self {d} {old} {st} {ks} z = z.reads d ∙ lookup-insert_self d z.new ks

pub at_device-new :
    {old : ConnectionInfo} {st : RtcStatus} {ks : List (String × ConnectionInfo)} (d : String)
    (m : ClientManager)
    → (z : IsRewritten d old st ks m.connections) → at_device d m.connections ≡ z.new
at_device-new d m z = rw (reads_self z, at_device) refl

pub write_at-IsRewritten :
    {d : String} {old : ConnectionInfo} {st new_st : RtcStatus}
    {ks : List (String × ConnectionInfo)} (f : ConnectionInfo → ConnectionInfo) (m : ClientManager)
    → ((k : ConnectionInfo) → (f k).connection_id ≡ k.connection_id)
    → ((k : ConnectionInfo) → (f k).device_id ≡ k.device_id)
    → ((k : ConnectionInfo) → k.rtc_state ≡ st → (f k).rtc_state ≡ new_st)
    → IsRewritten d old st ks m.connections
    → IsRewritten d old new_st ks (write_at d f m).connections
write_at-IsRewritten {d} {old} {st} {new_st} {ks} f m id_kept device_kept turned z =
    let at = at_device-new d m z in
    record {
      new = f (at_device d m.connections);
      state = turned _ (ap (λ (k : ConnectionInfo). k.rtc_state) at ∙ z.state);
      same_id = id_kept _ ∙ (ap (λ (k : ConnectionInfo). k.connection_id) at ∙ z.same_id);
      same_device = device_kept _ ∙ (ap (λ (k : ConnectionInfo). k.device_id) at ∙ z.same_device);
      reads = λ x. ground (
        arith,
        lookup-insert d x (f (at_device d m.connections)) m.connections,
        lookup-insert d x (f (at_device d m.connections)) ks,
        lookup-insert d x z.new ks,
        z.reads x,
      );
    }

pub connection_id_for-some :
    (d : String) (k : ConnectionInfo) (m : ClientManager)
    → lookup d m.connections ≡ some k
    → connection_id_for d m ≡ k.connection_id
unfolding connection_id_for
connection_id_for-some d k m e = rw (e, connection_id_for) refl

pub at_device-some :
    (d : String) (k : ConnectionInfo) (m : ClientManager)
    → lookup d m.connections ≡ some k
    → at_device d m.connections ≡ k
at_device-some d k m e = rw (e, at_device) refl

pub reads-IsWired :
    {s : Settings} {n : ℕ} {ks now : List (String × ConnectionInfo)} {ids : List (String × String)}
    {q : TransferQueue}
    → ((x : String) → lookup x now ≡ lookup x ks)
    → IsWired s n ks ids q
    → IsWired s n now ids q
reads-IsWired r w = record {
  own = λ d k e. w.own d k (sym (r d) ∙ e);
  back = λ c d e. let (k, f, named) = w.back c d e in (k, r d ∙ f, named);
  issued = w.issued;
  live = λ c h.
      let (full, u) = w.live c h in
      (
        full,
        record {
          device = u.device;
          info = u.info;
          found = r u.device ∙ u.found;
          named = u.named;
          up = u.up;
        },
      );
}

-- A session that is not connected any more has ended.
pub ended :
    (i c d : String) (connected over : Bool) (q : TransferQueue)
    → i ≡ c
    → connected ≡ false
    → is_empty c ≡ false
    → has_key c (reconcile_session i d connected over q).sessions ≡ false
ended i c d connected over q e f n = cc (e, f, reconcile_session_ends c d over q n)

-- The state is told of a device whose entry was written to: the session of its connection goes with
-- every state but "connected".
pub tell_state-Wired :
    {s : Settings} {st : RtcStatus} {ks : List (String × ConnectionInfo)} (d text : String)
    (old : ConnectionInfo) (m : ClientManager) (z : IsRewritten d old st ks m.connections)
    → lookup d ks ≡ some old
    → (str_eq text "connected" ≡ true → st ≡ rtc_connected)
    → IsWired s m.connection_counter ks m.conn_id_to_device_id m.transfers
    → Wired s (tell_state d text m)
unfolding tell_state
tell_state-Wired {s} {st} {ks} d text old m z e up w =
    reads-IsWired z.reads (update-IsWired d old z.new r e z.same_id z.same_device sub top w)
  where
    id : connection_id_for d m ≡ old.connection_id
    id = connection_id_for-some d z.new m (reads_self z) ∙ z.same_id

    r : TransferQueue
    r =
        reconcile_session (connection_id_for d m) d (str_eq text "connected")
          (str_eq text "disconnected" || str_eq text "failed") m.transfers

    sub :
        (c : String)
        → has_key c r.sessions ≡ true
        → (has_key c m.transfers.sessions
            || (str_eq old.connection_id c && not (is_empty old.connection_id)))
          ≡ true
    sub c h =
        subst
          (λ (i : String).
            (has_key c m.transfers.sessions || (str_eq i c && not (is_empty i))) ≡ true)
          id
          (reconcile_session_sessions (connection_id_for d m) d c (str_eq text "connected")
            (str_eq text "disconnected" || str_eq text "failed") m.transfers h)

    ends :
        str_eq text "connected" ≡ false
        → is_empty old.connection_id ≡ false
        → has_key old.connection_id r.sessions ≡ false
    ends f full = ended (connection_id_for d m) old.connection_id d _ _ m.transfers id f full

    top : has_key old.connection_id r.sessions ≡ true → z.new.rtc_state ≡ rtc_connected
    top h = elim (Bool-cases (str_eq text "connected")) [
      | inl t ↦ z.state ∙ up t
      | inr f ↦ elim (Bool-cases (is_empty old.connection_id)) [
        | inl empty ↦ absurd (
            cc (
              empty,
              (w.live old.connection_id (ground (arith, sub old.connection_id h, empty))).0,
            ))
        | inr full ↦ absurd (cc (ends f full, h))
      ]
    ]

pub set_active_device_id-Wired :
    {s : Settings} (d : String) (m : ClientManager) → Wired s m → Wired s (set_active_device_id d m)
unfolding set_active_device_id
set_active_device_id-Wired {s} d m w =
    if_split (Wired s) (string_eq.beq m.active_device_id d) (λ _. w) (λ _. w)

pub change_state-Wired :
    {s : Settings} (st : RtcStatus) (text d : String) (k : ConnectionInfo) (m : ClientManager)
    → (str_eq text "connected" ≡ true → st ≡ rtc_connected)
    → lookup d m.connections ≡ some k
    → Wired s m
    → Wired s (change_state st text d m)
unfolding change_state
change_state-Wired {s} st text d k m up e w =
    if_split (Wired s) (has_key d m.connections)
      (λ _.
        tell_state-Wired d text k (write_at d (set_rtc st) m)
          (write_at-IsRewritten (set_rtc st) m (λ _. refl) (λ _. refl) (λ _ _. refl)
            (unwritten d k m.connections e))
          e up w)
      (λ _. w)

-- The device is still there.
pub change_state-found :
    (st : RtcStatus) (text d : String) (k : ConnectionInfo) (m : ClientManager)
    → lookup d m.connections ≡ some k
    → (j : ConnectionInfo) × (lookup d (change_state st text d m).connections ≡ some j)
unfolding change_state tell_state
change_state-found st text d k m e =
    if_split (λ (x : ClientManager). (j : ConnectionInfo) × (lookup d x.connections ≡ some j))
      (has_key d m.connections)
      (λ _. (set_rtc st (at_device d m.connections), lookup-insert_self d _ m.connections))
      (λ _. (k, e))

pub remove_connection-Wired :
    {s : Settings} (d : String) (k : ConnectionInfo) (m : ClientManager)
    → lookup d m.connections ≡ some k
    → Wired s m
    → Wired s (remove_connection d m)
unfolding remove_connection
remove_connection-Wired {s} d k m e w =
    let id = connection_id_for-some d k m e in
    let has : has_key d m.connections ≡ true = has_key-lookup d m.connections ∙ ap is_some e in
    rw (has, id) (erase-IsWired d k e w)

pub drop_connection-Wired :
    {s : Settings} (d : String) (k : ConnectionInfo) (m : ClientManager)
    → lookup d m.connections ≡ some k
    → Wired s m
    → Wired s (drop_connection s d m)
unfolding drop_connection pick_active
drop_connection-Wired {s} d k m e w =
    let r = remove_connection-Wired d k m e w in
    if_split (Wired s) (str_eq (remove_connection d m).active_device_id d)
      (λ _. set_active_device_id-Wired _ _ r) (λ _. r)

-- A handler runs for a device that has a connection.
pub for_device-Wired :
    {s : Settings} (id : String) (act : String → ClientManager → ClientManager) (m : ClientManager)
    → ((d : String) (k : ConnectionInfo) → lookup d m.connections ≡ some k → Wired s (act d m))
    → Wired s m
    → Wired s (for_device id act m)
unfolding find_device_id
for_device-Wired {s} id act m f w =
    if_split (Wired s) (is_empty (find_device_id id m)) (λ _. w)
      (λ full. elim (Option-cases (lookup id m.conn_id_to_device_id)) [
        | inl e ↦
            let none_found : find_device_id id m ≡ "" = rw (e, find_device_id) refl in
            absurd (cc (full, ap is_empty none_found))
        | inr (d, e) ↦
            let (k, g, named) = w.back id d e in
            let d_found : find_device_id id m ≡ d = rw (e, find_device_id) refl in
            subst (λ (x : String). Wired s (act x m)) (sym d_found) (f d k g)
      ])
