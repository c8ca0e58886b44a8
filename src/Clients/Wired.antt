-- ===== src/Clients/Wired.antt =====
-- ClientManager: its two maps and the sessions of its file transfers, and how one entry changes them.
use quick_desk.Base.{
  ℕ, suc, ◌≡◌, sym, ◌∙◌, ap, ◌≤◌, inl, inr, true, false, not, ◌&&◌, ◌||◌, String, List, none, some,
  arith, str_eq, is_empty, string_eq, eq_iff, Bool-cases, Option-cases,
}
use quick_desk.Base.Dict.{
  lookup, insert, erase, has_key, lookup-insert_cases, lookup-insert_self, lookup-insert_other,
  lookup-erase_cases, lookup-erase_other, other_key,
}
use quick_desk.Transfer.Data.{TransferQueue}
use quick_desk.Transfer.Sessions.{end_session}
use quick_desk.Transfer.Kept.{end_session_sessions}
use quick_desk.Clients.State.{rtc_connected, ConnectionInfo, Settings}

-- The connection with that identifier is in the map, connected.
pub record IsUp (ks : List (String × ConnectionInfo)) (c : String) : Type 0 where
  pub device : String
  pub info : ConnectionInfo
  pub found : lookup device ks ≡ some info
  pub named : info.connection_id ≡ c
  pub up : info.rtc_state ≡ rtc_connected

-- The maps name each other's entries, every identifier was issued, and every file session is that of
-- a connection that is connected.
pub record IsWired (s : Settings) (n : ℕ) (ks : List (String × ConnectionInfo))
    (ids : List (String × String)) (q : TransferQueue) : Type 0 where
  pub own :
      (d : String) (k : ConnectionInfo)
      → lookup d ks ≡ some k
      → (k.device_id ≡ d) × (lookup k.connection_id ids ≡ some d)
  pub back :
      (c d : String)
      → lookup c ids ≡ some d
      → (k : ConnectionInfo) × (lookup d ks ≡ some k) × (k.connection_id ≡ c)
  pub issued : (c d : String) → lookup c ids ≡ some d → (j : ℕ) × (c ≡ s.conn_name j) × (j ≤ n)
  pub live : (c : String) → has_key c q.sessions ≡ true → (is_empty c ≡ false) × IsUp ks c

module _ {s : Settings} {n : ℕ} {ks : List (String × ConnectionInfo)} {ids : List (String × String)}
    {q : TransferQueue} where
  -- The session of a device's connection says that the connection is connected.
  pub live_at :
      (d : String) (k : ConnectionInfo)
      → IsWired s n ks ids q
      → lookup d ks ≡ some k
      → has_key k.connection_id q.sessions ≡ true
      → (is_empty k.connection_id ≡ false) × (k.rtc_state ≡ rtc_connected)
  live_at d k w e h =
      let (full, u) = w.live k.connection_id h in
      let mine = (w.own d k e).1 in
      let its = (w.own u.device u.info u.found).1 in
      let same : d ≡ u.device = cc (mine, its, u.named) in
      let one : k ≡ u.info = cc (e, u.found, same) in
      (full, ap (λ (x : ConnectionInfo). x.rtc_state) one ∙ u.up)

  pub fewer-IsWired :
      (r : TransferQueue)
      → ((c : String) → has_key c r.sessions ≡ true → has_key c q.sessions ≡ true)
      → IsWired s n ks ids q
      → IsWired s n ks ids r
  fewer-IsWired r sub w = record {
    own = w.own;
    back = w.back;
    issued = w.issued;
    live = λ c h. w.live c (sub c h);
  }

  -- An entry is overwritten by one of the same connection; its session lives on only if the new one
  -- is connected.
  pub update-IsWired :
      (d : String) (old new : ConnectionInfo) (r : TransferQueue)
      → lookup d ks ≡ some old
      → new.connection_id ≡ old.connection_id
      → new.device_id ≡ old.device_id
      → ((c : String)
          → has_key c r.sessions ≡ true
          → (has_key c q.sessions
              || (str_eq old.connection_id c && not (is_empty old.connection_id)))
            ≡ true)
      → (has_key old.connection_id r.sessions ≡ true → new.rtc_state ≡ rtc_connected)
      → IsWired s n ks ids q
      → IsWired s n (insert d new ks) ids r
  update-IsWired d old new r e same_id same_device sub up w = record {
    own = λ x k f. elim (lookup-insert_cases d x new k ks f) [
      | inl (g, v) ↦
          let (a, b) = w.own d old e in (cc (v, g, a, same_device), cc (v, g, b, same_id))
      | inr (g, f') ↦ w.own x k f'
    ];
    back = λ c x f.
        let (k, g, named) = w.back c x f in
        elim (Bool-cases (str_eq d x)) [
          | inl same ↦
              let t : d ≡ x = (eq_iff d x).0 same in
              (new, cc (lookup-insert_self d new ks, t), cc (same_id, named, e, g, t))
          | inr other ↦ (k, lookup-insert_other d x new ks other ∙ g, named)
        ];
    issued = w.issued;
    live = λ c h.
        let fresh : old.connection_id ≡ c → IsUp (insert d new ks) c = λ t. record {
          device = d;
          info = new;
          found = lookup-insert_self d new ks;
          named = same_id ∙ t;
          up = up (cc (h, t));
        } in
        elim (Bool-cases (has_key c q.sessions)) [
          | inl was ↦
              let (full, u) = w.live c was in
              (
                full,
                elim (Bool-cases (str_eq d u.device)) [
                  | inl same ↦
                      let t : d ≡ u.device = (eq_iff d u.device).0 same in
                      let one : old ≡ u.info = cc (e, u.found, t) in
                      fresh (ap (λ (x : ConnectionInfo). x.connection_id) one ∙ u.named)
                  | inr other ↦ record {
                    device = u.device;
                    info = u.info;
                    found = lookup-insert_other d u.device new ks other ∙ u.found;
                    named = u.named;
                    up = u.up;
                  }
                ],
              )
          | inr not_yet ↦
              let t : old.connection_id ≡ c =
                (eq_iff old.connection_id c).0 (ground (arith, sub c h, not_yet)) in
              (ap is_empty (sym t) ∙ ground (arith, sub c h, not_yet), fresh t)
        ];
  }

  -- A connection goes, with its entry in the other map and its session.
  pub erase-IsWired :
      (d : String) (old : ConnectionInfo)
      → lookup d ks ≡ some old
      → IsWired s n ks ids q
      → IsWired s n (erase d ks) (erase old.connection_id ids) (end_session old.connection_id q)
  erase-IsWired d old e w = record {
    own = λ x k f.
        let (other, f') = lookup-erase_cases d x k ks f in
        let (a, b) = w.own x k f' in
        (
          a,
          elim (Bool-cases (str_eq old.connection_id k.connection_id)) [
            | inl same ↦
                let t : old.connection_id ≡ k.connection_id = (eq_iff _ _).0 same in
                let one : d ≡ x = cc ((w.own d old e).1, b, t) in
                absurd (cc (other, (eq_iff d x).1 one))
            | inr other_id ↦ lookup-erase_other old.connection_id k.connection_id ids other_id ∙ b
          ],
        );
    back = λ c x f.
        let (other_id, f') = lookup-erase_cases old.connection_id c x ids f in
        let (k, g, named) = w.back c x f' in
        elim (Bool-cases (str_eq d x)) [
          | inl same ↦
              let t : d ≡ x = (eq_iff d x).0 same in
              let one : old ≡ k = cc (e, g, t) in
              absurd (
                cc (
                  other_id,
                  (eq_iff old.connection_id c).1
                      (ap (λ (y : ConnectionInfo). y.connection_id) one ∙ named),
                ))
          | inr other ↦ (k, lookup-erase_other d x ks other ∙ g, named)
        ];
    issued = λ c x f. w.issued c x (lookup-erase_cases old.connection_id c x ids f).1;
    live = λ c h.
        let (was, gone) = end_session_sessions old.connection_id c q h in
        let (full, u) = w.live c was in
        (
          full,
          elim (Bool-cases (str_eq d u.device)) [
            | inl same ↦
                let t : d ≡ u.device = (eq_iff d u.device).0 same in
                let one : old ≡ u.info = cc (e, u.found, t) in
                let named : old.connection_id ≡ c =
                  ap (λ (y : ConnectionInfo). y.connection_id) one ∙ u.named in
                absurd (
                  ground
                    (arith, gone, (eq_iff old.connection_id c).1 named, ap is_empty named ∙ full))
            | inr other ↦ record {
              device = u.device;
              info = u.info;
              found = lookup-erase_other d u.device ks other ∙ u.found;
              named = u.named;
              up = u.up;
            }
          ],
        );
  }

  -- A connection of a device that has none, under an identifier that none has.
  pub add-IsWired :
      (d : String) (new : ConnectionInfo) (m : ℕ)
      → lookup d ks ≡ none
      → lookup new.connection_id ids ≡ none
      → new.device_id ≡ d
      → (j : ℕ) × (new.connection_id ≡ s.conn_name j) × (j ≤ m)
      → n ≤ m
      → IsWired s n ks ids q
      → IsWired s m (insert d new ks) (insert new.connection_id d ids) q
  add-IsWired d new m e e_id device_is its_name n_le w = record {
    own = λ x k f. elim (lookup-insert_cases d x new k ks f) [
      | inl (g, v) ↦ (cc (v, g, device_is), cc (v, g, lookup-insert_self new.connection_id d ids))
      | inr (other, f') ↦
          let (a, b) = w.own x k f' in
          (
            a,
            lookup-insert_other new.connection_id k.connection_id d ids
                  (other_key new.connection_id k.connection_id ids e_id b)
                ∙ b,
          )
    ];
    back = λ c x f. elim (lookup-insert_cases new.connection_id c d x ids f) [
      | inl (g, v) ↦ (new, cc (lookup-insert_self d new ks, v), g)
      | inr (other_id, f') ↦
          let (k, g, named) = w.back c x f' in
          (k, lookup-insert_other d x new ks (other_key d x ks e g) ∙ g, named)
    ];
    issued = λ c x f. elim (lookup-insert_cases new.connection_id c d x ids f) [
      | inl (g, v) ↦ (its_name.0, cc (g, its_name.1), its_name.2)
      | inr (other_id, f') ↦
          let (j, name, le) = w.issued c x f' in (j, name, omega (arith, le, n_le))
    ];
    live = λ c h.
        let (full, u) = w.live c h in
        (
          full,
          record {
            device = u.device;
            info = u.info;
            found =
                lookup-insert_other d u.device new ks (other_key d u.device ks e u.found) ∙ u.found;
            named = u.named;
            up = u.up;
          },
        );
  }

  pub open-IsWired :
      (d : String) (new : ConnectionInfo)
      → ((i j : ℕ) → s.conn_name i ≡ s.conn_name j → i ≡ j)
      → lookup d ks ≡ none
      → new.connection_id ≡ s.conn_name (suc n)
      → new.device_id ≡ d
      → IsWired s n ks ids q
      → IsWired s (suc n) (insert d new ks) (insert new.connection_id d ids) q
  open-IsWired d new inj e id_is device_is w =
      let fresh : lookup new.connection_id ids ≡ none =
        elim (Option-cases (lookup new.connection_id ids)) [
          | inl none_yet ↦ none_yet
          | inr (x, g) ↦
              let (j, name, le) = w.issued new.connection_id x g in
              absurd (omega (arith, inj (suc n) j (sym id_is ∙ name), le))
        ] in
      add-IsWired d new (suc n) e fresh device_is (suc n, id_is, omega arith) (omega arith) w
