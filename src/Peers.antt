-- ===== src/Peers.antt =====
-- server/peers.go: the peers of a group in the database, and the entries that a peer lacks.
pub mod Uncommitted
pub mod Fresh
pub mod Table
pub mod Stored
use bftraft4go.Prelude.{
  ℕ, zero, ◌+◌, Bool, true, false, ◌&&◌, Option, none, some, List, [], ◌∷◌, ◌++◌, Bytes, ltb, ◌==◌,
  if◌then◌else◌, reverse, Map, insert,
}
use bftraft4go.Encoding.{u64_bytes}
use bftraft4go.Messages.{LogEntry, Peer}
use bftraft4go.Outcome.{Outcome, done, panicked, ◌>>=◌, store_error, codec_error, Result, ok, err}
use bftraft4go.World.{World}
use bftraft4go.World.Keyed.{Item, seek, has_prefix}
use bftraft4go.Store.{compose_key_prefix, peer_key, group_peers}
use bftraft4go.Server.{Server}
use bftraft4go.Log.{reversed_log_iterator, current_entry}

-- `&pb.LogEntry{Term: 0, Index: 0}`
abbrev pub zero_entry : LogEntry
zero_entry = record {
  term = 0;
  index = 0;
  hash = [];
  command = record {
    group = 0;
    client_id = 0;
    request_id = 0;
    func_id = 0;
    signature = [];
    arg = [];
  };
}

module _ (w : World) where
  -- The loop of `GetGroupPeersFromKV`. A value that cannot be read is a nil that is dereferenced.
  unfoldable pub read_peers : Bytes → List Item → Map Peer → Outcome (Map Peer)
  read_peers prefix [] peers = done peers
  read_peers prefix ((key, value) ∷ items) peers = elim (has_prefix prefix key) [
    | false ↦ done peers
    | true ↦ elim value [
      | none ↦ panicked
      | some bytes ↦
          let peer = (w.peer_codec.unmarshal bytes).0 in
          read_peers prefix items (insert peer.id peer peers)
    ]
  ]

  -- `GetGroupPeersFromKV`
  unfoldable pub get_group_peers_from_kv : w.Db → ℕ → Outcome (Map Peer)
  unfolding read_peers
  get_group_peers_from_kv db group =
      let key_prefix = compose_key_prefix group group_peers in
      read_peers key_prefix (seek (key_prefix ++ u64_bytes 0) (w.items db)) []

  -- The loop of `PeerUncommittedLogEntries`: the entries that are passed, and the last one seen.
  unfoldable pub walk_down : ℕ → ℕ → List Item → LogEntry → List LogEntry × LogEntry
  walk_down group_id next_log_idx [] prev_entry = ([], prev_entry)
  walk_down group_id next_log_idx (item ∷ iter) prev_entry =
      elim (current_entry w group_id (item ∷ iter)) [
        | none ↦ ([], prev_entry)
        | some entry ↦
            let rest = walk_down group_id next_log_idx iter entry in
            if ltb entry.index next_log_idx then ([], entry) else (entry ∷ rest.0, rest.1)
      ]

  -- `PeerUncommittedLogEntries`: the entries, the least index first, and the one before them.
  unfoldable pub peer_uncommitted_log_entries : ℕ → w.Db → Peer → List LogEntry × LogEntry
  unfolding walk_down
  peer_uncommitted_log_entries group_id db peer =
      let (entries, prev_entry) =
        walk_down group_id peer.next_index (reversed_log_iterator w group_id db) zero_entry in
      (
        reverse entries,
        (if (peer.next_index == 0) && (peer.match_index == 0) then zero_entry else prev_entry),
      )

  -- `SavePeer`
  unfoldable pub save_peer : Server w → Peer → Result (Server w)
  save_peer s peer = elim (w.peer_codec.marshal peer) [
    | none ↦ err codec_error
    | some bytes ↦ elim (w.set s.db (peer_key peer.group peer.id) bytes) [
      | none ↦ err store_error
      | some db' ↦ ok (record s { db = db' })
    ]
  ]
