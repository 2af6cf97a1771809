-- ===== src/Membership/NewGroups.antt =====
-- What `SMNewGroup` leaves in the database.
use bftraft4go.Prelude.{
  ℕ, ◌≤◌, ◌≡◌, refl, ap, sym, ◌∙◌, subst, Bool, true, false, ◌||◌, some, none, [], Bytes,
  bytes_equal, bytes_equal→eq, Bool-cases, Option-cases, inl, inr, arith, Map, ltb, if◌then◌else◌,
  ◌⊎◌,
}
use mathlib.Core.List.{append-nil}
use bftraft4go.Encoding.{u64_bytes}
use bftraft4go.Messages.{RaftGroup, LogEntry, Peer}
use bftraft4go.Outcome.{Result, ok, err, codec_error, store_error}
use bftraft4go.World.{World, IsWorld, fetched_of}
use bftraft4go.World.Keyed.{find_item, has_prefix, has_prefix-append}
use bftraft4go.World.Writes.{find_item-insert_other}
use bftraft4go.Store.{compose_key_prefix, group_meta, group_peers, peer_key}
use bftraft4go.Store.Keys.{has_prefix-table}
use bftraft4go.Server.{Server, RtGroup}
use bftraft4go.Peers.{save_peer}
use bftraft4go.Groups.{get_group_from_kv, get_group}
use bftraft4go.Groups.Stored.{get-set, get_group-db}
use bftraft4go.Membership.{refused, new_peer, save_new_group, create_group, sm_new_group}

module _ (w : World) (laws : IsWorld w) where
  keys_differ : (g h id : ℕ) → bytes_equal (peer_key h id) (compose_key_prefix g group_meta) ≡ false
  unfolding peer_key
  keys_differ g h id =
      elim (Bool-cases (bytes_equal (peer_key h id) (compose_key_prefix g group_meta))) [
        | inr other ↦ other
        | inl same ↦
            let outside =
              has_prefix-table g h group_meta group_peers (u64_bytes id) (omega arith) (omega arith)
                (ground arith) in
            let own : has_prefix (compose_key_prefix g group_meta) (compose_key_prefix g group_meta)
                ≡ true =
              subst (λ (k : Bytes). has_prefix (compose_key_prefix g group_meta) k ≡ true)
                (append-nil (compose_key_prefix g group_meta))
                (has_prefix-append (compose_key_prefix g group_meta) []) in
            let under : has_prefix (compose_key_prefix g group_meta) (peer_key h id) ≡ true =
              subst (λ (k : Bytes). has_prefix (compose_key_prefix g group_meta) k ≡ true)
                (sym (bytes_equal→eq _ _ same)) own in
            cc (outside, under)
      ]

  -- A read of a group looks at one item.
  group_of-same :
      (db db' : w.Db) (id : ℕ)
      → find_item (compose_key_prefix id group_meta) (w.items db')
        ≡ find_item (compose_key_prefix id group_meta) (w.items db)
      → get_group_from_kv w db' id ≡ get_group_from_kv w db id
  unfolding get_group_from_kv
  group_of-same db db' id same =
      let e : w.get db' (compose_key_prefix id group_meta)
          ≡ w.get db (compose_key_prefix id group_meta) =
        laws.get_lem db' (compose_key_prefix id group_meta)
        ∙ ap fetched_of same
        ∙ sym (laws.get_lem db (compose_key_prefix id group_meta)) in
      rw (e, get_group_from_kv) refl

  save_peer-group :
      (s : Server w) (peer : Peer) (r : Result (Server w)) (id : ℕ)
      → save_peer w s peer ≡ r
      → get_group_from_kv w (elim r as (λ _. Server w) [ ok t ↦ t | err e ↦ s ]).db id
        ≡ get_group_from_kv w s.db id
  unfolding save_peer
  save_peer-group s peer (err x) id e = refl
  save_peer-group s peer (ok t) id e = elim (Option-cases (w.peer_codec.marshal peer)) [
    | inl bad ↦ let e' : err codec_error ≡ ok t = rw (bad, save_peer) at e in cc (e')
    | inr (bytes, marshalled) ↦
        elim (Option-cases (w.set s.db (peer_key peer.group peer.id) bytes)) [
          | inl no_room ↦
              let e' : err store_error ≡ ok t = rw no_room at (rw (marshalled, save_peer) at e) in
              cc (e')
          | inr (db', written) ↦
              let e' : ok (record s { db = db' }) ≡ ok t =
                rw written at (rw (marshalled, save_peer) at e) in
              let same : record s { db = db' } ≡ t = cc (e') in
              ap (λ (u : Server w). get_group_from_kv w u.db id) (sym same)
              ∙ group_of-same s.db db' id (
                  ap (find_item (compose_key_prefix id group_meta))
                    (laws.items-set s.db db' _ bytes written)
                  ∙ find_item-insert_other (peer_key peer.group peer.id)
                      (compose_key_prefix id group_meta) (some bytes) (w.items s.db)
                      (keys_differ id peer.group peer.id))
        ]
  ]

  save_new_group-stored :
      (s t : Server w) (group : RaftGroup) (peer : Peer)
      → save_new_group w s group peer ≡ some t
      → get_group_from_kv w t.db group.id ≡ some group
  unfolding save_new_group
  save_new_group-stored s t group peer e = elim (Option-cases (w.group_codec.marshal group)) [
    | inl bad ↦ let e' : none ≡ some t = rw (bad, save_new_group) at e in cc (e')
    | inr (bytes, marshalled) ↦
        let key = compose_key_prefix group.id group_meta in
        elim (Option-cases (w.set s.db key bytes)) [
          | inl no_room ↦
              let e' : none ≡ some t = rw no_room at (rw (marshalled, save_new_group) at e) in
              cc (e')
          | inr (db', written) ↦
              let s' : Server w = record s { db = db' } in
              let same : (elim (save_peer w s' peer) as (λ _. Server w) [ ok u ↦ u | err x ↦ s' ])
                  ≡ t =
                cc (rw written at (rw (marshalled, save_new_group) at e)) in
              ap (λ (u : Server w). get_group_from_kv w u.db group.id) (sym same)
              ∙ save_peer-group s' peer (save_peer w s' peer) group.id refl
              ∙ (unfold get_group_from_kv in
                  rw (get-set w laws s.db db' key bytes written, get_group_from_kv)
                    (ap (λ (r : RaftGroup × Bool). some r.0)
                      (laws.group-IsCodec group bytes marshalled)))
        ]
  ]

  module _ (now : ℕ) (s : Server w) (onboard : Map RtGroup) (arg : Bytes) (entry : LogEntry)
      (group : RaftGroup) (decoded : w.group_codec.unmarshal arg ≡ (group, true)) where
    -- What is left of a proposed group: nothing, or the group with term 0.
    abbrev pub Proposed : Bytes × Server w × Map RtGroup → Type 0
    Proposed r =
        ((r.0 ≡ refused) × (r.1.db ≡ s.db) × (r.2 ≡ onboard))
        ⊎ (((get_group w s group.id).0 ≡ none)
            × (1 ≤ group.replications)
            × (group.replications ≤ 100)
            × (r.0 ≡ u64_bytes entry.index)
            × (get_group_from_kv w r.1.db group.id ≡ some (record group { term = 0 })))

    create_group-Proposed : Proposed (create_group w now s onboard group entry)
    unfolding create_group
    create_group-Proposed =
        elim (Bool-cases (ltb group.replications 1 || ltb 100 group.replications)) [
          | inl bad ↦ rw bad (inl (refl, refl, refl))
          | inr good ↦ elim (Option-cases (get_group w s group.id).0) [
            | inr (known, is_known) ↦
                rw good (rw is_known (inl (refl, get_group-db w s group.id, refl)))
            | inl new ↦
                let s' = (get_group w s group.id).1 in
                let fresh : RaftGroup = record group { term = 0 } in
                let peer = new_peer entry.command.client_id group.id in
                elim (Option-cases (save_new_group w s' fresh peer)) [
                  | inl failed ↦
                      rw good (rw new (rw failed (inl (refl, get_group-db w s group.id, refl))))
                  | inr (t, saved) ↦
                      let stored = save_new_group-stored s' t fresh peer saved in
                      rw good
                        (rw new (rw saved (inr (refl, ground arith, ground arith, refl, stored))))
                ]
          ]
        ]

    -- In a world that keeps its laws, for a proposed group that can be decoded, `SMNewGroup`
    -- either answers 0 and leaves the database and the groups on board as they were; or the number
    -- was free and the replications are from 1 to 100, it answers the index of the entry, and
    -- `GetGroupFromKV` then reads the group with term 0.
    pub sm_new_group-Proposed : Proposed (sm_new_group w now s onboard arg entry)
    unfolding sm_new_group
    sm_new_group-Proposed =
        let e : sm_new_group w now s onboard arg entry ≡ create_group w now s onboard group entry =
          ap
            (λ (p : RaftGroup × Bool).
              if p.1 then create_group w now s onboard p.0 entry else (refused, s, onboard))
            decoded in
        subst Proposed (sym e) create_group-Proposed
