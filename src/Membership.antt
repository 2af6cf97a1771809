-- ===== src/Membership.antt =====
-- The membership commands of server/membership.go, as they run on every node that commits them. The
-- groups on board are a map, next to the node. FNV, the hash of a public key, and the decoding of a
-- `NodeJoinGroupEntry` are arguments. What is sent to other goroutines (an invitation, the end of a
-- wait) is left out.
pub mod NewGroups
pub mod Registry
pub mod Join
pub mod Saves
pub mod Joins
pub mod Creates
pub mod Quiet
use bftraft4go.Prelude.{
  ℕ, zero, suc, ◌+◌, Bool, true, false, not, ◌&&◌, ◌||◌, Option, none, some, List, [], ◌∷◌, Bytes,
  ltb, leb, ◌==◌, if◌then◌else◌, length, Map, lookup, insert,
}
use bftraft4go.Encoding.{u64_bytes}
use bftraft4go.Messages.{LogEntry, Peer, Host, RaftGroup}
use bftraft4go.Outcome.{Outcome, done, panicked, ◌>>=◌, Result, ok, err}
use bftraft4go.World.{World}
use bftraft4go.Store.{compose_key_prefix, group_meta}
use bftraft4go.Server.{Server, RtGroup, Role, leader}
use bftraft4go.Hosts.{get_host, save_host}
use bftraft4go.Peers.{get_group_peers_from_kv, save_peer}
use bftraft4go.Groups.{new_rt_group, get_onboard_group, set_onboard_group, get_group}

abbrev pub refused : Bytes
refused = 0 ∷ []

abbrev pub accepted : Bytes
accepted = 1 ∷ []

-- The peer that a new member is.
abbrev pub new_peer : ℕ → ℕ → Peer
new_peer id group = record { id = id; group = group; next_index = 0; match_index = 0 }

module _ (w : World) (hash_key : Bytes → ℕ) where
  -- `SMRegHost`: an error of the save is only logged.
  unfoldable pub sm_reg_host : Server w → Bytes → Bytes × Server w
  sm_reg_host s arg =
      let (node, decoded) = w.host_codec.unmarshal arg in
      if decoded
      then (
        accepted,
        elim (save_host w s (record node { id = hash_key node.public_key; online = true })) [
          | ok s' ↦ s'
          | err e ↦ s
        ],
      )
      else (refused, s)

  -- `SMNewClient`
  unfoldable pub sm_new_client : Server w → Bytes → Bytes × Server w
  sm_new_client s arg =
      let (client, decoded) = w.host_codec.unmarshal arg in
      if decoded
      then (elim (save_host w s (record client { id = hash_key client.public_key })) [
        | ok s' ↦ (accepted, s')
        | err e ↦ (refused, s)
      ])
      else (refused, s)

module _ (w : World) where
  -- The transaction of `SMNodeJoin`: whether it goes through. A group that is not known is a nil
  -- that is dereferenced.
  unfoldable pub join_transaction : Server w → ℕ → ℕ → Outcome (Bool × Server w)
  join_transaction s node group_id =
      let (host, s') = get_host w s node in
      let (group, s'') = get_group w s' group_id in
      elim host [
        | none ↦ done (false, s')
        | some h ↦ if node == s.id then done (true, s') else (elim group [
          | none ↦ panicked
          | some g ↦ get_group_peers_from_kv w s''.db group_id >>= λ peers.
              if leb g.replications (length peers)
              then done (false, s'')
              else done (elim (save_peer w s'' (new_peer node group_id)) [
                | ok t ↦ (true, t)
                | err e ↦ (false, s'')
              ])
        ])
      ]

  -- What `SMNodeJoin` does to the group on board.
  unfoldable pub join_onboard :
      (Bytes → Bool) → Server w → Map RtGroup → ℕ → ℕ → Outcome (Bytes × Server w × Map RtGroup)
  join_onboard connects s onboard node group_id = elim (get_onboard_group onboard group_id) [
    | none ↦ done (accepted, s, onboard)
    | some meta ↦
        let (host, s') = get_host w s node in
        elim host [
          | none ↦ panicked
          | some h ↦
              if connects h.server_addr
              then done (
                accepted,
                s',
                insert group_id
                    (record meta {
                      group_peers = insert node (new_peer node group_id) meta.group_peers;
                    })
                    onboard,
              )
              else done (refused, s', onboard)
        ]
  ]

  -- `SMNodeJoin`
  unfoldable pub sm_node_join :
      (Bytes → Option ℕ)
      → (Bytes → Bool)
      → Server w
      → Map RtGroup
      → Bytes
      → LogEntry
      → Outcome (Bytes × Server w × Map RtGroup)
  unfolding join_transaction join_onboard
  sm_node_join decode_join connects s onboard arg entry = elim (decode_join arg) [
    | none ↦ done (refused, s, onboard)
    | some group_id ↦ join_transaction s entry.command.client_id group_id >>= λ t.
        if t.0
        then join_onboard connects t.1 onboard entry.command.client_id group_id
        else done (refused, t.1, onboard)
  ]

  -- The saves of `SMNewGroup`: whether the transaction goes through. The test on the save of the
  -- peer returns nil either way.
  unfoldable pub save_new_group : Server w → RaftGroup → Peer → Option (Server w)
  save_new_group s group peer = elim (w.group_codec.marshal group) [
    | none ↦ none
    | some bytes ↦ elim (w.set s.db (compose_key_prefix group.id group_meta) bytes) [
      | none ↦ none
      | some db' ↦
          let s' = record s { db = db' } in
          some (elim (save_peer w s' peer) [ ok t ↦ t | err e ↦ s' ])
    ]
  ]

  -- `SMNewGroup`, once the group is decoded.
  unfoldable pub create_group :
      ℕ → Server w → Map RtGroup → RaftGroup → LogEntry → Bytes × Server w × Map RtGroup
  unfolding save_new_group
  create_group now s onboard group entry =
      let peer = new_peer entry.command.client_id group.id in
      let fresh = record group { term = 0 } in
      let (known, s') = get_group w s group.id in
      if ltb group.replications 1 || ltb 100 group.replications
      then (refused, s, onboard)
      else (elim known [
        | some g ↦ (refused, s', onboard)
        | none ↦ elim (save_new_group s' fresh peer) [
          | none ↦ (refused, s', onboard)
          | some t ↦ (
            u64_bytes entry.index,
            t,
            (if s.id == entry.command.client_id
                then set_onboard_group onboard
                    (new_rt_group now entry.command.client_id ((peer.id, peer) ∷ []) fresh leader)
                else onboard),
          )
        ]
      ])

  -- `SMNewGroup`
  unfoldable pub sm_new_group :
      ℕ → Server w → Map RtGroup → Bytes → LogEntry → Bytes × Server w × Map RtGroup
  unfolding create_group
  sm_new_group now s onboard arg entry =
      let (group, decoded) = w.group_codec.unmarshal arg in
      if decoded then create_group now s onboard group entry else (refused, s, onboard)
