-- ===== src/Alpha.antt =====
-- server/alpha.go: how a node that starts finds its place in the alpha group. The answers of the alpha
-- nodes are arguments, in the order of their arrival; so are the encodings that badger does not see and
-- the address of the node. `log.Fatal` and `panic` end the process: both are `panicked`.
pub mod Saves
pub mod Cold
use bftraft4go.Prelude.{
  ℕ, Bool, true, false, ◌||◌, Option, none, some, List, [], ◌∷◌, ◌++◌, Bytes, ◌==◌, Map, insert,
}
use bftraft4go.Messages.{Peer, Host, RaftGroup, GroupMember, GroupMembersResponse}
use bftraft4go.Outcome.{Outcome, done, panicked, ◌>>=◌, store_error, codec_error, Result, ok, err}
use bftraft4go.World.{World, Codec}
use bftraft4go.Store.{compose_key_prefix, group_meta}
use bftraft4go.Consensus.{FuncResult, majority_response}
use bftraft4go.Server.{Server, RtGroup, leader}
use bftraft4go.Hosts.{save_host}
use bftraft4go.Peers.{save_peer}
use bftraft4go.Leader.{alpha_group}
use bftraft4go.Vote.{save_group}
use bftraft4go.Groups.{new_rt_group, set_onboard_group, get_group}
use bftraft4go.Members.{bytes_or_nil, get_members_sign_data}

abbrev pub alpha_raft_group : RaftGroup
alpha_raft_group = record { replications = 32; id = alpha_group; term = 0 }

module _ (w : World) where
  -- The host that a node is, with a key that x509 may fail to encode (the error is dropped).
  unfoldable pub this_host : (w.PublicKey → Option Bytes) → Bytes → Server w → Host
  this_host marshal_key address s = record {
    id = s.id;
    last_seen = 0;
    online = true;
    server_addr = address;
    public_key = bytes_or_nil (marshal_key (w.public_of s.private_key));
  }

  unfoldable pub this_peer : Server w → Peer
  this_peer s = record { id = s.id; group = alpha_group; next_index = 0; match_index = 0 }

  -- `SaveGroup` in a transaction.
  unfoldable pub save_group_txn : Server w → RaftGroup → Result (Server w)
  save_group_txn s group = elim (w.group_codec.marshal group) [
    | none ↦ err codec_error
    | some bytes ↦ elim (w.set s.db (compose_key_prefix group.id group_meta) bytes) [
      | none ↦ err store_error
      | some db' ↦ ok (record s { db = db' })
    ]
  ]

  -- The transaction of `ColdStart`.
  unfoldable pub cold_saves : RaftGroup → Peer → Host → Server w → Result (Server w)
  unfolding save_group_txn
  cold_saves group peer host s = elim (save_group_txn s group) [
    | err e ↦ err e
    | ok s1 ↦ elim (save_peer w s1 peer) [ err e ↦ err e | ok s2 ↦ save_host w s2 host ]
  ]

  -- `ColdStart`: the node, the groups on board, and the addresses that the client starts from.
  unfoldable pub cold_start :
      (w.PublicKey → Option Bytes)
      → Bytes
      → ℕ
      → Server w
      → Map RtGroup
      → Outcome (Server w × Map RtGroup × List Bytes)
  unfolding cold_saves this_host this_peer
  cold_start marshal_key address now s onboard =
      elim (cold_saves alpha_raft_group (this_peer s) (this_host marshal_key address s) s) [
        | err e ↦ panicked
        | ok s' ↦ done (
          s',
          set_onboard_group onboard
              (new_rt_group now s.id ((s.id, this_peer s) ∷ []) alpha_raft_group leader),
          address ∷ [],
        )
      ]

  -- The answers as `MajorityResponse` sees them: a failed call is nil.
  unfoldable pub member_answers :
      (GroupMember → Option Bytes)
      → List (Option GroupMembersResponse)
      → List (FuncResult GroupMembersResponse)
  member_answers marshal [] = []
  member_answers marshal (none ∷ rest) =
      record { result = none; feature = [] } ∷ member_answers marshal rest
  member_answers marshal (some res ∷ rest) =
      record { result = some res; feature = get_members_sign_data marshal res.members }
      ∷ member_answers marshal rest

  -- The same of `GetGroupContent`: an answer that cannot be encoded is nil too.
  unfoldable pub content_answers : List (Option RaftGroup) → List (FuncResult RaftGroup)
  content_answers [] = []
  content_answers (none ∷ rest) = record { result = none; feature = [] } ∷ content_answers rest
  content_answers (some group ∷ rest) =
      elim (w.group_codec.marshal group) [
        | none ↦ record { result = none; feature = [] }
        | some bytes ↦ record { result = some group; feature = bytes }
      ]
      ∷ content_answers rest

  unfoldable pub is_member : ℕ → List GroupMember → Bool
  is_member id [] = false
  is_member id (m ∷ members) = (m.peer.id == id) || is_member id members

  -- The loop of the last transaction; the errors of the saves are dropped.
  unfoldable pub save_members : List GroupMember → Server w → Server w
  save_members [] s = s
  save_members (member ∷ members) s =
      let s1 : Server w = elim (save_peer w s member.peer) [ ok t ↦ t | err e ↦ s ] in
      let s2 : Server w = elim (save_host w s1 member.host) [ ok t ↦ t | err e ↦ s1 ] in
      save_members members s2

  -- The end of `SyncAlphaGroup` of a node that is no member. The group is the one that the cache
  -- points to (`cached`), and is changed in place.
  unfoldable pub adopt_group : Bool → RaftGroup → GroupMembersResponse → Server w → Server w
  unfolding save_members
  adopt_group cached group res s =
      let group' = record group {
        term = elim res.last_entry [ none ↦ 0 | some entry ↦ entry.index ];
      } in
      let s' : Server w = elim cached [
        | true ↦ record s { groups = insert alpha_group group' s.groups }
        | false ↦ s
      ] in
      save_members res.members (save_group w s' group')

  -- `SyncAlphaGroup`, once the members are known.
  unfoldable pub sync_members :
      Option RaftGroup → GroupMembersResponse → Server w → Outcome (Server w)
  unfolding is_member adopt_group
  sync_members pulled res s =
      let (group, s') = get_group w s alpha_group in
      elim (is_member s.id res.members) [
        | true ↦ elim group [ none ↦ panicked | some g ↦ done s' ]
        | false ↦ elim group [
          | some g ↦ done (adopt_group true g res s')
          | none ↦ elim pulled [ none ↦ panicked | some g ↦ done (adopt_group false g res s') ]
        ]
      ]

  -- `SyncAlphaGroup`: the node, the groups on board, and the addresses that the client starts from, if
  -- they change.
  unfoldable pub sync_alpha_group :
      (Bytes → ℕ)
      → (Map ℕ → Map ℕ)
      → (Map GroupMembersResponse → Map GroupMembersResponse)
      → (Map RaftGroup → Map RaftGroup)
      → (GroupMember → Option Bytes)
      → (w.PublicKey → Option Bytes)
      → Bytes
      → ℕ
      → List (Option GroupMembersResponse)
      → List (Option RaftGroup)
      → Server w
      → Map RtGroup
      → Outcome (Server w × Map RtGroup × Option (List Bytes))
  unfolding member_answers content_answers cold_start sync_members
  sync_alpha_group hash_data range range_members range_groups marshal marshal_key address now
        members contents s onboard =
      elim (majority_response hash_data range range_members (member_answers marshal members)) [
        | none ↦ cold_start marshal_key address now s onboard >>= λ r. done (r.0, r.1, some r.2)
        | some res ↦
            sync_members (majority_response hash_data range range_groups (content_answers contents))
              res s
            >>= λ s'. done (s', onboard, none)
      ]
