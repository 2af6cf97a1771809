-- ===== src/Alpha/Saves.antt =====
-- What a save that succeeds has written, and which reads see it.
use mathlib.Core.List.{append-nil}
use bftraft4go.Prelude.{
  ◌≡◌, refl, sym, ap, ◌∙◌, subst, Bool, true, false, some, [], Bytes, bytes_equal, bytes_equal→eq,
  Bool-cases, Option-cases, inl, inr,
}
use bftraft4go.Messages.{Peer, Host, RaftGroup}
use bftraft4go.Outcome.{Result, ok, err, codec_error, store_error}
use bftraft4go.World.{World, IsWorld, found, fetched_of}
use bftraft4go.World.Keyed.{has_prefix, has_prefix-append, find_item}
use bftraft4go.World.Writes.{find_item-insert_other}
use bftraft4go.Store.{compose_key_prefix, peer_key, host_key, group_meta}
use bftraft4go.Server.{Server}
use bftraft4go.Hosts.{save_host}
use bftraft4go.Peers.{save_peer}
use bftraft4go.Groups.{get_group_from_kv}
use bftraft4go.Alpha.{save_group_txn}

-- No key outside of a prefix is the prefix.
pub apart_key : (k j : Bytes) → has_prefix k j ≡ false → bytes_equal j k ≡ false
apart_key k j outside = elim (Bool-cases (bytes_equal j k)) [
  | inr apart ↦ apart
  | inl same ↦
      let own : has_prefix k k ≡ true =
        subst (λ t. has_prefix k t ≡ true) (append-nil k) (has_prefix-append k []) in
      cc (own, outside, bytes_equal→eq j k same)
]

module _ (w : World) where
  -- What a save that succeeds has written.
  abbrev pub Wrote : Bytes → Bytes → Server w → Server w → Type 0
  Wrote key bytes s s' = (w.set s.db key bytes ≡ some s'.db) × (s'.id ≡ s.id)

  written_as :
      (key bytes : Bytes) (s s' : Server w) (db' : w.Db)
      → w.set s.db key bytes ≡ some db'
      → ◌≡◌ {A = Result (Server w)} (ok (record s { db = db' })) (ok s')
      → Wrote key bytes s s'
  written_as key bytes s s' db' written e =
      let same : record s { db = db' } ≡ s' = cc (e) in
      subst (Wrote key bytes s) same (written, refl)

  pub save_group_txn-Wrote :
      (s s' : Server w) (group : RaftGroup)
      → save_group_txn w s group ≡ ok s'
      → (bytes : Bytes) × (w.group_codec.marshal group ≡ some bytes)
        × Wrote (compose_key_prefix group.id group_meta) bytes s s'
  unfolding save_group_txn
  save_group_txn-Wrote s s' group e = elim (Option-cases (w.group_codec.marshal group)) [
    | inl bad ↦ let e' : err codec_error ≡ ok s' = rw (bad, save_group_txn) at e in cc (e')
    | inr (bytes, marshalled) ↦
        let key = compose_key_prefix group.id group_meta in
        elim (Option-cases (w.set s.db key bytes)) [
          | inl no_room ↦
              let e' : err store_error ≡ ok s' =
                rw no_room at (rw (marshalled, save_group_txn) at e) in
              cc (e')
          | inr (db', written) ↦ (
            bytes,
            marshalled,
            written_as key bytes s s' db' written
                (rw written at (rw (marshalled, save_group_txn) at e)),
          )
        ]
  ]

  pub save_peer-Wrote :
      (s s' : Server w) (peer : Peer)
      → save_peer w s peer ≡ ok s'
      → (bytes : Bytes) × Wrote (peer_key peer.group peer.id) bytes s s'
  unfolding save_peer
  save_peer-Wrote s s' peer e = elim (Option-cases (w.peer_codec.marshal peer)) [
    | inl bad ↦ let e' : err codec_error ≡ ok s' = rw (bad, save_peer) at e in cc (e')
    | inr (bytes, marshalled) ↦
        elim (Option-cases (w.set s.db (peer_key peer.group peer.id) bytes)) [
          | inl no_room ↦
              let e' : err store_error ≡ ok s' = rw no_room at (rw (marshalled, save_peer) at e) in
              cc (e')
          | inr (db', written) ↦ (
            bytes,
            written_as (peer_key peer.group peer.id) bytes s s' db' written
                (rw written at (rw (marshalled, save_peer) at e)),
          )
        ]
  ]

  pub save_host-Wrote :
      (s s' : Server w) (node : Host)
      → save_host w s node ≡ ok s'
      → (bytes : Bytes) × Wrote (host_key node.id) bytes s s'
  unfolding save_host
  save_host-Wrote s s' node e = elim (Option-cases (w.host_codec.marshal node)) [
    | inl bad ↦ let e' : err codec_error ≡ ok s' = rw (bad, save_host) at e in cc (e')
    | inr (bytes, marshalled) ↦ elim (Option-cases (w.set s.db (host_key node.id) bytes)) [
      | inl no_room ↦
          let e' : err store_error ≡ ok s' = rw no_room at (rw (marshalled, save_host) at e) in
          cc (e')
      | inr (db', written) ↦ (
        bytes,
        written_as (host_key node.id) bytes s s' db' written
            (rw written at (rw (marshalled, save_host) at e)),
      )
    ]
  ]

  module _ (laws : IsWorld w) where
    pub get-set_other :
        (db db' : w.Db) (k j v : Bytes)
        → w.set db j v ≡ some db'
        → has_prefix k j ≡ false
        → w.get db' k ≡ w.get db k
    get-set_other db db' k j v written outside =
        laws.get_lem db' k
        ∙ ap (λ xs. fetched_of (find_item k xs)) (laws.items-set db db' j v written)
        ∙ ap fetched_of (find_item-insert_other j k (some v) (w.items db) (apart_key k j outside))
        ∙ sym (laws.get_lem db k)

    pub read_group :
        (db : w.Db) (group : RaftGroup) (bytes : Bytes)
        → w.group_codec.marshal group ≡ some bytes
        → w.get db (compose_key_prefix group.id group_meta) ≡ found (some bytes)
        → get_group_from_kv w db group.id ≡ some group
    unfolding get_group_from_kv
    read_group db group bytes marshalled at =
        rw (at, get_group_from_kv)
          (ap (λ (r : RaftGroup × Bool). some r.0) (laws.group-IsCodec group bytes marshalled))
