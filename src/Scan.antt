-- ===== src/Scan.antt =====
-- `ScanHostedGroups` of server/peers.go: which groups a node takes on board when it starts.
pub mod Scanned
use bftraft4go.Prelude.{
  ℕ, Bool, true, false, Option, none, some, List, [], ◌∷◌, Bytes, ltb, ◌==◌, if◌then◌else◌, length,
  Map, insert,
}
use bftraft4go.Encoding.{u32_bytes}
use bftraft4go.Messages.{Peer}
use bftraft4go.Outcome.{Outcome, done, panicked, ◌>>=◌}
use bftraft4go.World.{World}
use bftraft4go.World.Keyed.{Item, seek, has_prefix}
use bftraft4go.Store.{group_peers}
use bftraft4go.Server.{Server, RtGroup, follower}
use bftraft4go.Peers.{get_group_peers_from_kv}
use bftraft4go.Groups.{new_rt_group, get_group_from_kv, get_group_hosts}

module _ (w : World) (visits : Map Peer → Map Peer) (now server_id : ℕ) where
  -- The body of the loop: a peer that is this node, of a group that the database has.
  unfoldable pub scan_peer : Peer → Server w → Map RtGroup → Outcome (Map RtGroup × Server w)
  scan_peer peer s groups =
      if peer.id == server_id
      then (elim (get_group_from_kv w s.db peer.group) [
        | none ↦ done (groups, s)
        | some group ↦ get_group_hosts w visits s group.id >>= λ h.
            get_group_peers_from_kv w h.1.db peer.group >>= λ peers. done (
              insert peer.group
                  (new_rt_group now (if ltb (length h.0) 2 then h.1.id else 0) peers group follower)
                  groups,
              h.1,
            )
      ])
      else done (groups, s)

  -- The loop over the table of peers. A value that cannot be read is a nil that is dereferenced.
  unfoldable pub scan_peers : List Item → Server w → Map RtGroup → Outcome (Map RtGroup × Server w)
  unfolding scan_peer
  scan_peers [] s groups = done (groups, s)
  scan_peers ((key, value) ∷ items) s groups = elim (has_prefix (u32_bytes group_peers) key) [
    | false ↦ done (groups, s)
    | true ↦ elim value [
      | none ↦ panicked
      | some bytes ↦
          scan_peer (w.peer_codec.unmarshal bytes).0 s groups >>= λ r. scan_peers items r.1 r.0
    ]
  ]

-- The last loop: the groups are put on board.
unfoldable pub board_all : Map RtGroup → Map RtGroup → Map RtGroup
board_all [] onboard = onboard
board_all ((group_id, meta) ∷ groups) onboard = board_all groups (insert group_id meta onboard)

-- `ScanHostedGroups`: what it returns, the node, and the groups on board.
unfoldable pub scan_hosted_groups :
    (w : World)
    → (Map Peer → Map Peer)
    → ℕ
    → Server w
    → ℕ
    → Map RtGroup
    → Outcome (Map RtGroup × Server w × Map RtGroup)
unfolding scan_peers board_all
scan_hosted_groups w visits now s server_id onboard =
    scan_peers w visits now server_id (seek (u32_bytes group_peers) (w.items s.db)) s [] >>= λ r.
    done (r.0, r.1, board_all r.0 onboard)
