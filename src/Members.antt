-- ===== src/Members.antt =====
-- What a node tells of the members of its groups: `GroupHosts`, `GroupMembers` and `ApproveAppend` of
-- server/bftraft.go with their parts in server/group.go and utils/shares.go. The encoding of a
-- `GroupMember` is an argument; where it fails, `proto.Marshal` gives no bytes and the error is dropped.
use bftraft4go.Prelude.{ℕ, true, false, Option, none, some, List, [], ◌∷◌, ◌++◌, Bytes, Map}
use bftraft4go.Messages.{
  Peer, Host, GroupMember, GroupMembersResponse, GroupNodesResponse, AppendEntriesResponse,
  ApproveAppendResponse,
}
use bftraft4go.Outcome.{Outcome, done, ◌>>=◌, Result, ok, err, cannot_find_group}
use bftraft4go.World.{World}
use bftraft4go.Server.{Server, RtGroup, sign}
use bftraft4go.Hosts.{get_host}
use bftraft4go.Log.{last_log_entry}
use bftraft4go.Groups.{get_onboard_group, get_group_hosts}

abbrev pub bytes_or_nil : Option Bytes → Bytes
bytes_or_nil none = []
bytes_or_nil (some bytes) = bytes

-- `GetMembersSignData`
unfoldable pub get_members_sign_data : (GroupMember → Option Bytes) → List GroupMember → Bytes
get_members_sign_data marshal [] = []
get_members_sign_data marshal (member ∷ members) =
    bytes_or_nil (marshal member) ++ get_members_sign_data marshal members

-- `NodesSignData`
unfoldable pub nodes_sign_data : (Host → Option Bytes) → List Host → Bytes
nodes_sign_data marshal [] = []
nodes_sign_data marshal (node ∷ nodes) =
    bytes_or_nil (marshal node) ++ nodes_sign_data marshal nodes

module _ (w : World) where
  -- The loop of `RPCGroupMembers`: a peer whose host is not known is left out.
  unfoldable pub members_of_peers : List (ℕ × Peer) → Server w → List GroupMember × Server w
  members_of_peers [] s = ([], s)
  members_of_peers ((peer_id, peer) ∷ peers) s =
      let (host, s') = get_host w s peer.id in
      let (members, s'') = members_of_peers peers s' in
      (elim host [ none ↦ members | some h ↦ record { host = h; peer = peer } ∷ members ], s'')

  -- `RPCGroupMembers`
  unfoldable pub rpc_group_members :
      (GroupMember → Option Bytes)
      → (Map Peer → Map Peer)
      → Server w
      → RtGroup
      → GroupMembersResponse × Server w
  unfolding members_of_peers
  rpc_group_members marshal visits s m =
      let (members, s') = members_of_peers (visits m.group_peers) s in
      (
        record {
          last_entry = last_log_entry w m.group.id s'.db;
          members = members;
          signature = sign w s' (get_members_sign_data marshal members);
        },
        s',
      )

  -- `GroupMembers`
  unfoldable pub group_members :
      (GroupMember → Option Bytes)
      → (Map Peer → Map Peer)
      → Server w
      → Map RtGroup
      → ℕ
      → Result GroupMembersResponse × Server w
  unfolding rpc_group_members
  group_members marshal visits s onboard group_id = elim (get_onboard_group onboard group_id) [
    | none ↦ (err cannot_find_group, s)
    | some meta ↦ let (response, s') = rpc_group_members marshal visits s meta in (ok response, s')
  ]

  -- `GroupHosts`
  unfoldable pub group_hosts :
      (Map Peer → Map Peer) → Server w → ℕ → Outcome (GroupNodesResponse × Server w)
  group_hosts visits s group_id = get_group_hosts w visits s group_id >>= λ r. done (
    record { nodes = r.0; signature = sign w r.1 (nodes_sign_data w.host_codec.marshal r.0) },
    r.1,
  )

  -- `ApproveAppend` of a group: all but the answer that it failed is commented out.
  unfoldable pub approve_append : Server w → AppendEntriesResponse → ApproveAppendResponse
  approve_append s req = record {
    group = req.group;
    peer = s.id;
    index = req.index;
    appended = false;
    delayed = false;
    failed = true;
    signature = [];
  }

  -- `ApproveAppend` of the server.
  unfoldable pub serve_approve_append :
      Server w → Map RtGroup → AppendEntriesResponse → Result ApproveAppendResponse
  unfolding approve_append
  serve_approve_append s onboard req = elim (get_onboard_group onboard req.group) [
    | none ↦ err cannot_find_group
    | some meta ↦ ok (approve_append s req)
  ]
