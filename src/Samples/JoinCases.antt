-- ===== src/Samples/JoinCases.antt =====
-- The theorem on `NodeJoin` at the small cluster: two invitations for the group 7 with three members.
use bftraft4go.Prelude.{ℕ, ◌≡◌, refl, List, [], ◌∷◌, Bytes, bytes_equal, lookup, insert}
use bftraft4go.Messages.{RaftGroup, GroupInvitation}
use bftraft4go.Outcome.{done, ok}
use bftraft4go.Encoding.{u32_bytes, u64_bytes, put_uint}
use bftraft4go.Encoding.Order.{bytes_leb}
use bftraft4go.World.Keyed.{seek, has_prefix, insert_item, find_item}
use bftraft4go.Store.{compose_key_prefix, peer_key, group_meta}
use bftraft4go.Consensus.{expected_players, pick_majority, first_reaching, count_hashes, bump}
use bftraft4go.Server.{Server, RtGroup, follower}
use bftraft4go.Hosts.{get_host, load_host}
use bftraft4go.Peers.{get_group_peers_from_kv, save_peer}
use bftraft4go.Groups.{
  get_group_hosts, hosts_of_peers, get_group, get_group_from_kv, new_rt_group, set_onboard_group,
}
use bftraft4go.Membership.{new_peer}
use bftraft4go.Membership.Join.{
  hosts_map, take_invitation, wait_invitations, join_as_peer, node_join,
}
use bftraft4go.Membership.Join.Invited.{Admitted, node_join-Invited}
use bftraft4go.Samples.Codecs.{encode_peer, encode_group, decode_peer, decode_group}
use bftraft4go.Samples.Small.{small, all_items}
use bftraft4go.Samples.Cluster.{node, peer}

abbrev invitation : ℕ → GroupInvitation
invitation from = record { group = 7; leader = 2; node = from; signature = [] }

abbrev raft_group : RaftGroup
raft_group = record { replications = 3; id = 7; term = 4 }

abbrev writes : List (Bytes × Bytes)
writes =
    (peer_key 7 2, encode_peer (peer 2))
    ∷ (peer_key 7 3, encode_peer (peer 3))
    ∷ (peer_key 7 9, encode_peer (peer 9))
    ∷ (compose_key_prefix 7 group_meta, encode_group raft_group)
    ∷ []

abbrev joined_node : Server small
joined_node = record (node ((peer_key 7 1, encode_peer (new_peer 1 7)) ∷ writes)) {
  groups = (7, raft_group) ∷ [];
}

abbrev joined_group : RtGroup
joined_group =
    new_rt_group 5 2 (insert 1 (new_peer 1 7) ((2, peer 2) ∷ (3, peer 3) ∷ (9, peer 9) ∷ []))
      raft_group follower

joined :
    node_join small
      (λ m. m)
      (λ m. m)
      5
      7
      (ok (1 ∷ []))
      (invitation 5 ∷ invitation 2 ∷ invitation 2 ∷ invitation 3 ∷ invitation 9 ∷ [])
      (node writes)
      []
    ≡ done (ok tt, joined_node, set_onboard_group [] joined_group)
unfolding node_join join_as_peer wait_invitations take_invitation hosts_map expected_players
    pick_majority first_reaching count_hashes bump get_group get_group_hosts hosts_of_peers
    get_group_from_kv get_group_peers_from_kv save_peer new_rt_group get_host load_host lookup
    insert seek has_prefix all_items insert_item find_item compose_key_prefix peer_key u32_bytes
    u64_bytes put_uint bytes_leb bytes_equal encode_peer encode_group decode_peer decode_group
joined = refl

node_join-Invited_example :
    Admitted small
      (λ m. m)
      (λ m. m)
      5
      7
      (invitation 5 ∷ invitation 2 ∷ invitation 2 ∷ invitation 3 ∷ invitation 9 ∷ [])
      (node writes)
      []
      (joined_node, set_onboard_group [] joined_group)
node_join-Invited_example =
    node_join-Invited small (λ m. m) (λ m. m) 5 7
      (invitation 5 ∷ invitation 2 ∷ invitation 2 ∷ invitation 3 ∷ invitation 9 ∷ []) (node writes)
      [] (ok (1 ∷ [])) (ok tt, joined_node, set_onboard_group [] joined_group) joined refl
