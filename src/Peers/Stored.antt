-- ===== src/Peers/Stored.antt =====
-- `SavePeer` and `GetGroupPeersFromKV` on the table of the peers.
use bftraft4go.Prelude.{
  ℕ, ◌^◌, ◌<◌, ◌≡◌, refl, sym, ap, ◌∙◌, subst, Bool, true, false, none, some, List, [], ◌∷◌, arith,
  Bytes, leb, ◌==◌, if◌then◌else◌, bytes_equal, Bool-cases, Option-cases, inl, inr, Map, lookup,
  insert,
}
use bftraft4go.Encoding.{u64_bytes}
use bftraft4go.Encoding.Order.{bytes_leb}
use bftraft4go.Messages.{Peer}
use bftraft4go.Outcome.{done, ok}
use bftraft4go.World.{World, IsWorld}
use bftraft4go.World.Keyed.{Item, has_prefix, has_prefix-append, under_prefix, seek, insert_item}
use bftraft4go.World.Walks.{taken}
use bftraft4go.World.Writes.{under_prefix-insert_under, under_prefix-insert_outside}
use bftraft4go.World.Climbs.{taken-seek}
use bftraft4go.Store.{compose_key_prefix, peer_key, group_peers}
use bftraft4go.Server.{Server}
use bftraft4go.Peers.{read_peers, get_group_peers_from_kv, save_peer}
use bftraft4go.Peers.Table.{
  Ascending, put_peer, find_peer-put_peer, put_peer-Ascending, insert_all, lookup-insert_all,
  peer_key_order, peer_key_equal,
}

module _ (w : World) where
  -- An item that holds a peer under its key.
  abbrev pub HoldsPeer : ℕ → Peer → Item → Type 0
  HoldsPeer g p item =
      (bs : Bytes) × (w.peer_codec.marshal p ≡ some bs)
      × (item.1 ≡ some bs)
      × (item.0 ≡ peer_key g p.id)

  abbrev pub StoredPeers : ℕ → List Peer → List Item → Type 0
  StoredPeers g [] [] = Unit
  StoredPeers g [] (x ∷ xs) = ⊥
  StoredPeers g (p ∷ ps) [] = ⊥
  StoredPeers g (p ∷ ps) (x ∷ xs) = HoldsPeer g p x × StoredPeers g ps xs

  -- The database holds exactly the peers `ps` of group `g`.
  pub record IsPeerTable (g : ℕ) (db : w.Db) (ps : List Peer) : Type 0 where
    pub stored : StoredPeers g ps (under_prefix (compose_key_prefix g group_peers) (w.items db))
    pub ascending : Ascending ps

  StoredPeers-put :
      (g : ℕ) (p : Peer) (bs : Bytes) (ps : List Peer) (xs : List Item)
      → w.peer_codec.marshal p ≡ some bs
      → p.id < 2 ^ 64
      → StoredPeers g ps xs
      → Ascending ps
      → StoredPeers g (put_peer p ps) (insert_item (peer_key g p.id) (some bs) xs)
  unfolding put_peer insert_item
  StoredPeers-put g p bs [] [] marshalled fits h up = ((bs, marshalled, refl, refl), tt)
  StoredPeers-put g p bs [] (x ∷ xs) marshalled fits h up = absurd h
  StoredPeers-put g p bs (q ∷ qs) [] marshalled fits h up = absurd h
  StoredPeers-put g p bs (q ∷ qs) ((j, u) ∷ xs) marshalled fits h up =
      let same_key : bytes_equal j (peer_key g p.id) ≡ (q.id == p.id) =
        ap (λ t. bytes_equal t (peer_key g p.id)) h.0.3 ∙ peer_key_equal g q.id p.id up.0 fits in
      let key_order : bytes_leb j (peer_key g p.id) ≡ leb q.id p.id =
        ap (λ t. bytes_leb t (peer_key g p.id)) h.0.3 ∙ peer_key_order g q.id p.id up.0 fits in
      elim (Bool-cases (q.id == p.id)) [
        | inl same ↦ rw (same_key ∙ same) (rw same ((bs, marshalled, refl, refl), h.1))
        | inr other ↦ rw (same_key ∙ other) (
            rw other (elim (Bool-cases (leb q.id p.id)) [
              | inl le ↦
                  rw (key_order ∙ le)
                    (rw le (h.0, StoredPeers-put g p bs qs xs marshalled fits h.1 up.2))
              | inr past ↦ rw (key_order ∙ past) (rw past ((bs, marshalled, refl, refl), h))
            ]))
      ]

  module _ (laws : IsWorld w) (g : ℕ) where
    pub save_peer-IsPeerTable :
        (s s' : Server w) (p : Peer) (ps : List Peer)
        → IsPeerTable g s.db ps
        → p.group ≡ g
        → p.id < 2 ^ 64
        → save_peer w s p ≡ ok s'
        → IsPeerTable g s'.db (put_peer p ps)
    unfolding save_peer
    save_peer-IsPeerTable s s' p ps table own fits e =
        elim (Option-cases (w.peer_codec.marshal p)) [
          | inl bad ↦ let e' = rw (bad, save_peer) at e in cc (e')
          | inr (bs, marshalled) ↦ elim (Option-cases (w.set s.db (peer_key p.group p.id) bs)) [
            | inl no_room ↦ let e' = rw no_room at (rw (marshalled, save_peer) at e) in cc (e')
            | inr (db', written) ↦
                let e' : ok (record s { db = db' }) ≡ ok s' =
                  rw written at (rw (marshalled, save_peer) at e) in
                let same : record s { db = db' } ≡ s' = cc (e') in
                let key : has_prefix (compose_key_prefix g group_peers) (peer_key g p.id) ≡ true =
                  unfold peer_key in has_prefix-append (compose_key_prefix g group_peers) _ in
                let items : w.items db' ≡ insert_item (peer_key g p.id) (some bs) (w.items s.db) =
                  laws.items-set s.db db' _ bs written
                  ∙ ap (λ i. insert_item (peer_key i p.id) (some bs) (w.items s.db)) own in
                let under =
                  ap (under_prefix (compose_key_prefix g group_peers)) items
                  ∙ under_prefix-insert_under (compose_key_prefix g group_peers) (peer_key g p.id)
                      (some bs) (w.items s.db) key (laws.items-IsSorted s.db) in
                subst (λ (t : Server w). IsPeerTable g t.db (put_peer p ps)) same
                  (record {
                    stored =
                        subst (StoredPeers g (put_peer p ps)) (sym under) (
                          StoredPeers-put g p bs ps _ marshalled fits table.stored table.ascending);
                    ascending = put_peer-Ascending p ps fits table.ascending;
                  })
          ]
        ]

    -- A write outside of the table leaves it.
    pub IsPeerTable-set :
        (db db' : w.Db) (ps : List Peer) (k v : Bytes)
        → IsPeerTable g db ps
        → w.set db k v ≡ some db'
        → has_prefix (compose_key_prefix g group_peers) k ≡ false
        → IsPeerTable g db' ps
    IsPeerTable-set db db' ps k v table written outside = record {
      stored =
          subst (λ t. StoredPeers g ps (under_prefix (compose_key_prefix g group_peers) t))
            (sym (laws.items-set db db' k v written))
            (rw
              (under_prefix-insert_outside (compose_key_prefix g group_peers) k (some v)
                (w.items db) outside)
              table.stored);
      ascending = table.ascending;
    }

    read_peers-taken :
        (prefix : Bytes) (xs : List Item) (ps : List Peer) (m : Map Peer)
        → StoredPeers g ps (taken prefix xs)
        → read_peers w prefix xs m ≡ done (insert_all ps m)
    unfolding read_peers taken insert_all
    read_peers-taken prefix [] [] m h = refl
    read_peers-taken prefix [] (p ∷ ps) m h = absurd h
    read_peers-taken prefix ((k, v) ∷ xs) [] m h = elim (Bool-cases (has_prefix prefix k)) [
      | inr out ↦ rw (out, read_peers) refl
      | inl under ↦ absurd (rw under at h)
    ]
    read_peers-taken prefix ((k, none) ∷ xs) (p ∷ ps) m h =
        elim (Bool-cases (has_prefix prefix k)) [
          | inr out ↦ absurd (rw out at h)
          | inl under ↦
              let held : StoredPeers g (p ∷ ps) ((k, none) ∷ taken prefix xs) = rw under at h in
              cc (held.0.2)
        ]
    read_peers-taken prefix ((k, some bytes) ∷ xs) (p ∷ ps) m h =
        elim (Bool-cases (has_prefix prefix k)) [
          | inr out ↦ absurd (rw out at h)
          | inl under ↦
              let held : StoredPeers g (p ∷ ps) ((k, some bytes) ∷ taken prefix xs) =
                rw under at h in
              let bs = held.0.0 in
              let same : bytes ≡ bs = cc (held.0.2) in
              let peer : (w.peer_codec.unmarshal bytes).0 ≡ p =
                ap (λ t. (w.peer_codec.unmarshal t).0) same
                ∙ ap (λ (t : Peer × Bool). t.0) (laws.peer-IsCodec p bs held.0.1) in
              rw (under, read_peers)
                (read_peers-taken prefix xs ps
                    (insert ((w.peer_codec.unmarshal bytes).0.id) ((w.peer_codec.unmarshal bytes).0)
                      m)
                    held.1
                  ∙ ap (λ (t : Peer). done (insert_all ps (insert t.id t m))) peer)
        ]

    seek_first :
        (ps : List Peer) (xs : List Item)
        → StoredPeers g ps xs
        → Ascending ps
        → seek (peer_key g 0) xs ≡ xs
    unfolding seek
    seek_first [] [] h up = refl
    seek_first [] (x ∷ xs) h up = absurd h
    seek_first (p ∷ ps) [] h up = absurd h
    seek_first (p ∷ ps) (x ∷ xs) h up =
        let first : bytes_leb (peer_key g 0) x.0 ≡ true =
          ap (bytes_leb (peer_key g 0)) h.0.3
          ∙ peer_key_order g 0 p.id (omega arith) up.0
          ∙ ground arith in
        rw first refl

    pub get_group_peers_from_kv-eq :
        (db : w.Db) (ps : List Peer)
        → IsPeerTable g db ps
        → get_group_peers_from_kv w db g ≡ done (insert_all ps [])
    unfolding get_group_peers_from_kv peer_key
    get_group_peers_from_kv-eq db ps table =
        let climbed : taken (compose_key_prefix g group_peers) (seek (peer_key g 0) (w.items db))
            ≡ under_prefix (compose_key_prefix g group_peers) (w.items db) =
          taken-seek (compose_key_prefix g group_peers) (u64_bytes 0) (w.items db)
            (laws.items-IsSorted db)
          ∙ seek_first ps _ table.stored table.ascending in
        read_peers-taken (compose_key_prefix g group_peers) (seek (peer_key g 0) (w.items db)) ps []
          (subst (StoredPeers g ps) (sym climbed) table.stored)

    -- In a world that keeps its laws, where the database holds the peers of a group as a table in
    -- the order of their ids: after `SavePeer` has saved a peer of the group, with an id that fits
    -- in a uint64, `GetGroupPeersFromKV` reads the map from before with the peer under its id, and
    -- the database holds the table with the peer in its place.
    pub get_group_peers_from_kv-save_peer :
        (s s' : Server w) (p : Peer) (ps : List Peer)
        → IsPeerTable g s.db ps
        → p.group ≡ g
        → p.id < 2 ^ 64
        → save_peer w s p ≡ ok s'
        → (before : Map Peer) × (after : Map Peer) × (get_group_peers_from_kv w s.db g
            ≡ done before)
          × (get_group_peers_from_kv w s'.db g ≡ done after)
          × ((id : ℕ) → lookup id after ≡ (if p.id == id then some p else lookup id before))
          × IsPeerTable g s'.db (put_peer p ps)
    unfolding lookup
    get_group_peers_from_kv-save_peer s s' p ps table own fits saved =
        let table' = save_peer-IsPeerTable s s' p ps table own fits saved in
        (
          insert_all ps [],
          insert_all (put_peer p ps) [],
          get_group_peers_from_kv-eq s.db ps table,
          get_group_peers_from_kv-eq s'.db (put_peer p ps) table',
          (λ id. ground (
            arith,
            lookup-insert_all id (put_peer p ps) [] table'.ascending,
            lookup-insert_all id ps [] table.ascending,
            find_peer-put_peer id p ps,
          )),
          table',
        )
