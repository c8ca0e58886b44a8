-- ===== src/Clients/ListedSessions.antt =====
-- ClientManager: the file sessions after the message connectionListChanged.
use quick_desk.Base.{
  ℕ, ◌≡◌, refl, sym, ◌∙◌, ap, ◌⊎◌, inl, inr, Bool, true, false, String, List, [], ◌∷◌, some, arith,
  str_eq, is_empty, string_eq, eq_iff, any, subst, Bool-cases, Option-cases,
}
use quick_desk.Base.Dict.{lookup, has_key, is_dict, other_key}
use quick_desk.Transfer.Data.{TransferQueue}
use quick_desk.Transfer.Sessions.{init as no_transfers, reconcile_session}
use quick_desk.Transfer.Kept.{end_session_sessions, reconcile_session_sessions}
use quick_desk.Clients.State.{
  ConnectionInfo, Settings, ClientManager, is_rtc_connected, is_rtc_over,
}
use quick_desk.Clients.Transfers.{
  Entry, take_entries, is_kept, end_old, reconcile_all, handle_connection_list_changed,
}
use quick_desk.Clients.Wired.{IsUp, IsWired}
use quick_desk.Clients.Changes.{Wired, ended, is_rtc_connected-eq}
use quick_desk.Clients.Listings.{
  is_proper, absent_lookup, is_taken, take_entries-IsWired, take_entries_rest,
}

end_old_fewer :
    (now olds : List (String × ConnectionInfo)) (c : String) (q : TransferQueue)
    → has_key c (end_old now olds q).sessions ≡ true
    → has_key c q.sessions ≡ true
unfolding end_old
end_old_fewer now [] c q h = h
end_old_fewer now ((d, old) ∷ olds) c q h =
    ground (arith, end_old_fewer now olds c _ h, end_session_sessions old.connection_id c q)

-- A session that outlives the loop over the old connections is that of one that the device has kept.
end_old_kept :
    (now olds : List (String × ConnectionInfo)) (d : String) (i : ConnectionInfo)
    (q : TransferQueue)
    → lookup d olds ≡ some i
    → is_empty i.connection_id ≡ false
    → has_key i.connection_id (end_old now olds q).sessions ≡ true
    → is_kept (lookup i.device_id now) i ≡ true
unfolding end_old lookup
end_old_kept now [] d i q e full h = absurd (cc e)
end_old_kept now ((x, old) ∷ olds) d i q e full h = elim (Bool-cases (str_eq x d)) [
  | inr other ↦ end_old_kept now olds d i _ (ground (arith, e, other)) full h
  | inl same ↦
      let one : old ≡ i = ground (arith, e, same) in
      elim (Bool-cases (is_kept (lookup i.device_id now) i)) [
        | inl kept ↦ kept
        | inr lost ↦
            let same_id = ap (λ (k : ConnectionInfo). k.connection_id) one in
            let gone = ap (λ k. is_kept (lookup k.device_id now) k) one ∙ lost in
            absurd (
              ground (
                arith,
                end_old_fewer now olds i.connection_id _ h,
                gone,
                end_session_sessions old.connection_id i.connection_id q,
                (eq_iff old.connection_id i.connection_id).1 same_id,
                ap is_empty same_id ∙ full,
              ))
      ]
]

is_kept_found :
    (now : List (String × ConnectionInfo)) (i : ConnectionInfo)
    → is_kept (lookup i.device_id now) i ≡ true
    → (k : ConnectionInfo) × (lookup i.device_id now ≡ some k) × (k.connection_id ≡ i.connection_id)
is_kept_found now i h = elim (Option-cases (lookup i.device_id now)) [
  | inl e ↦ absurd (cc (h, ap (λ o. is_kept o i) e))
  | inr (k, e) ↦
      (k, e, (eq_iff k.connection_id i.connection_id).0 (sym (ap (λ o. is_kept o i) e) ∙ h))
]

abbrev is_of : String → String × ConnectionInfo → Bool
is_of c (d, k) = str_eq k.connection_id c

any-lookup :
    (ks : List (String × ConnectionInfo)) (d : String) (k : ConnectionInfo)
    → lookup d ks ≡ some k
    → any (is_of k.connection_id) ks ≡ true
unfolding any lookup
any-lookup [] d k e = absurd (cc e)
any-lookup ((x, j) ∷ ks) d k e = elim (Bool-cases (str_eq x d)) [
  | inl same ↦
      let one : j ≡ k = ground (arith, e, same) in
      ground (
        arith,
        (eq_iff j.connection_id k.connection_id).1
            (ap (λ (y : ConnectionInfo). y.connection_id) one),
      )
  | inr other ↦ ground (arith, any-lookup ks d k (ground (arith, e, other)))
]

-- A session after the last loop is that of a connection that is connected, or one of before of which
-- the loop saw no connection.
reconcile_all-IsUp :
    (now ks : List (String × ConnectionInfo)) (c : String) (q : TransferQueue)
    → is_dict ks ≡ true
    → ((x : String) (k : ConnectionInfo) → lookup x ks ≡ some k → lookup x now ≡ some k)
    → ((j : String) → has_key j q.sessions ≡ true → is_empty j ≡ false)
    → has_key c (reconcile_all ks q).sessions ≡ true
    → (is_empty c ≡ false)
      × (IsUp now c ⊎ ((has_key c q.sessions ≡ true) × (any (is_of c) ks ≡ false)))
unfolding reconcile_all is_dict lookup any
reconcile_all-IsUp now [] c q z sub full h = (full c h, inr (h, refl))
reconcile_all-IsUp now ((d, k) ∷ ks) c q z sub full h =
    let rest = reconcile_all-IsUp now ks c r (ground (arith, z)) sub' full' h in
    let there : is_empty c ≡ false = rest.0 in
    (
      there,
      elim rest.1 [
        | inl up ↦ inl up
        | inr (was, unseen) ↦ elim (Bool-cases (str_eq k.connection_id c)) [
          | inl same ↦
              let t : k.connection_id ≡ c = (eq_iff k.connection_id c).0 same in
              elim (Bool-cases (is_rtc_connected k.rtc_state)) [
                | inl on ↦ inl (record {
                  device = d;
                  info = k;
                  found = sub d k (ground (arith, eq_iff d d));
                  named = t;
                  up = is_rtc_connected-eq k.rtc_state on;
                })
                | inr off ↦
                    let over : has_key c r.sessions ≡ false =
                      ended k.connection_id c k.device_id (is_rtc_connected k.rtc_state)
                        (is_rtc_over k.rtc_state) q t off there in
                    absurd (cc (was, over))
              ]
          | inr other ↦ inr (
            ground (
              arith,
              reconcile_session_sessions k.connection_id k.device_id c
                  (is_rtc_connected k.rtc_state) (is_rtc_over k.rtc_state) q was,
              other,
            ),
            ground (arith, unseen, other),
          )
        ]
      ],
    )
  where
    r : TransferQueue
    r =
        reconcile_session k.connection_id k.device_id (is_rtc_connected k.rtc_state)
          (is_rtc_over k.rtc_state) q

    other_head : (x : String) (j : ConnectionInfo) → lookup x ks ≡ some j → str_eq d x ≡ false
    other_head x j e = other_key d x ks (absent_lookup d ks (ground (arith, z))) e

    sub' : (x : String) (j : ConnectionInfo) → lookup x ks ≡ some j → lookup x now ≡ some j
    sub' x j e = sub x j (ground (arith, e, other_head x j e))

    full' : (j : String) → has_key j r.sessions ≡ true → is_empty j ≡ false
    full' j e = elim (Bool-cases (has_key j q.sessions)) [
      | inl was ↦ full j was
      | inr new ↦
          let said =
            reconcile_session_sessions k.connection_id k.device_id j (is_rtc_connected k.rtc_state)
              (is_rtc_over k.rtc_state) q e in
          let t : k.connection_id ≡ j = (eq_iff k.connection_id j).0 (ground (arith, said, new)) in
          ap is_empty (sym t) ∙ ground (arith, said, new)
    ]

none_taken : (es : List Entry) → any (is_taken [] []) es ≡ false
unfolding any has_key
none_taken [] = refl
none_taken (e ∷ es) = none_taken es

-- The maps before an entry is taken in, with no session.
empty-IsWired : (s : Settings) (n : ℕ) → IsWired s n [] [] no_transfers
unfolding lookup has_key no_transfers
empty-IsWired s n = record {
  own = λ d k e. absurd (cc e);
  back = λ c d e. absurd (cc e);
  issued = λ c d e. absurd (cc e);
  live = λ c h. absurd (cc h);
}

-- The sessions that outlive a listing are those of its connected entries.
listed-IsUp :
    {s : Settings} (now : List (String × ConnectionInfo)) (m : ClientManager) (c : String)
    → is_dict now ≡ true
    → Wired s m
    → has_key c (reconcile_all now (end_old now m.connections m.transfers)).sessions ≡ true
    → (is_empty c ≡ false) × IsUp now c
listed-IsUp now m c z w h =
    let fewer = λ (j : String). end_old_fewer now m.connections j m.transfers in
    let r =
      reconcile_all-IsUp now now c (end_old now m.connections m.transfers) z (λ x k e. e)
        (λ j e. (w.live j (fewer j e)).0) h in
    (
      r.0,
      elim r.1 [
        | inl up ↦ up
        | inr (was, unseen) ↦
            let u = (w.live c (fewer c was)).1 in
            let there =
              end_old_kept now m.connections u.device u.info m.transfers u.found
                (ap is_empty u.named ∙ r.0)
                (subst (λ j. has_key j (end_old now m.connections m.transfers).sessions ≡ true)
                  (sym u.named) was) in
            let (k, e, same_id) = is_kept_found now u.info there in
            let named : k.connection_id ≡ c = same_id ∙ u.named in
            let seen : any (is_of c) now ≡ true =
              subst (λ j. any (is_of j) now ≡ true) named (any-lookup now u.info.device_id k e) in
            absurd (cc (seen, unseen))
      ],
    )

pub handle_connection_list_changed-Wired :
    {s : Settings} (es : List Entry) (m : ClientManager)
    → is_proper s m.connection_counter es ≡ true
    → Wired s m
    → Wired s (handle_connection_list_changed es m)
unfolding handle_connection_list_changed is_dict
handle_connection_list_changed-Wired {s} es m p w =
    let bare : ClientManager = record m { connections = []; conn_id_to_device_id = [] } in
    let taken : ClientManager = take_entries m.connections es bare in
    let filled =
      take_entries-IsWired {s = s} no_transfers m.connections es bare p (none_taken es) refl
        (empty-IsWired s m.connection_counter) in
    let (counter, queue) = take_entries_rest m.connections es bare in
    let rest : TransferQueue =
      reconcile_all taken.connections (end_old taken.connections m.connections taken.transfers) in
    let v = filled.0 in
    subst (λ (n : ℕ). IsWired s n taken.connections taken.conn_id_to_device_id rest) (sym counter)
      (record {
        own = v.own;
        back = v.back;
        issued = v.issued;
        live = λ c h. listed-IsUp taken.connections m c filled.1 w (
            subst
              (λ (q : TransferQueue).
                has_key c
                  (reconcile_all taken.connections
                    (end_old taken.connections m.connections q)).sessions
                ≡ true)
              queue h);
      })
