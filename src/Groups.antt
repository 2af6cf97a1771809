-- ===== src/Groups.antt =====
-- The groups of a node: reading and caching of server/group.go, and the calls of server/bftraft.go
-- that look up a group and hand on to it. The groups on board (`GroupsOnboard`) are a map, next to the
-- node.
pub mod Stored
pub mod Pulls
use bftraft4go.Prelude.{
  ℕ, zero, suc, ◌+◌, ◌%◌, Bool, true, false, Option, none, some, List, [], ◌∷◌, ◌++◌, Bytes, ◌==◌,
  if◌then◌else◌, length, Map, lookup, insert,
}
use bftraft4go.Encoding.{u64_bytes}
use bftraft4go.Messages.{
  LogEntry, Peer, Host, RaftGroup, RequestVoteRequest, RequestVoteResponse, AppendEntriesRequest,
  AppendEntriesResponse,
}
use bftraft4go.Outcome.{Outcome, done, panicked, ◌>>=◌, GoError, cannot_find_group, Result, ok, err}
use bftraft4go.World.{World, found, key_not_found, failed}
use bftraft4go.World.Keyed.{Item, seek, has_prefix}
use bftraft4go.Store.{compose_key_prefix, group_meta, log_entries}
use bftraft4go.Server.{Server, RtGroup, Role}
use bftraft4go.Hosts.{get_host}
use bftraft4go.Log.{log_entry_from_item}
use bftraft4go.Peers.{get_group_peers_from_kv}
use bftraft4go.Ballot.{request_vote}
use bftraft4go.Follower.{RaftFunc, append_entries}

-- `NewRTGroup`, at the time `now` in milliseconds. The time wheel that it starts is not part of the value.
unfoldable pub new_rt_group : ℕ → ℕ → Map Peer → RaftGroup → Role → RtGroup
new_rt_group now leader peers group role = record {
  leader_id = leader;
  last_voted_to = 0;
  last_voted_term = 0;
  group_peers = peers;
  group = group;
  timeout = now + 60000;
  role = role;
  votes = [];
  send_votes_for_peers = [];
}

-- `GroupLeader`
pub record GroupLeader : Type 0 where
  pub leader_node : Option Host
  pub accuate : Bool

-- `GetOnboardGroup`, `SetOnboardGroup`
unfoldable pub get_onboard_group : Map RtGroup → ℕ → Option RtGroup
get_onboard_group onboard id = lookup id onboard

unfoldable pub set_onboard_group : Map RtGroup → RtGroup → Map RtGroup
set_onboard_group onboard meta = insert meta.group.id meta onboard

module _ (w : World) where
  -- `GetGroupFromKV`
  unfoldable pub get_group_from_kv : w.Db → ℕ → Option RaftGroup
  get_group_from_kv db group_id = elim (w.get db (compose_key_prefix group_id group_meta)) [
    | found value ↦ elim value [ none ↦ none | some bytes ↦ some (w.group_codec.unmarshal bytes).0 ]
    | key_not_found ↦ none
    | failed ↦ none
  ]

  -- `GetGroup`, `GetGroupNTXN`
  unfoldable pub get_group : Server w → ℕ → Option RaftGroup × Server w
  unfolding get_group_from_kv
  get_group s group_id = elim (lookup group_id s.groups) [
    | some group ↦ (some group, s)
    | none ↦ elim (get_group_from_kv s.db group_id) [
      | none ↦ (none, s)
      | some group ↦ (some group, record s { groups = insert group_id group s.groups })
    ]
  ]

  -- The loop of `GetGroupHosts`
  unfoldable pub hosts_of_peers : List (ℕ × Peer) → Server w → List Host × Server w
  hosts_of_peers [] s = ([], s)
  hosts_of_peers ((peer_id, peer) ∷ peers) s =
      let (node, s') = get_host w s peer.id in
      let (nodes, s'') = hosts_of_peers peers s' in
      (elim node [ none ↦ nodes | some host ↦ host ∷ nodes ], s'')

  -- `GetGroupHosts`, `GetGroupHostsNTXN`, with the order in which the map of peers is visited.
  unfoldable pub get_group_hosts :
      (Map Peer → Map Peer) → Server w → ℕ → Outcome (List Host × Server w)
  unfolding hosts_of_peers
  get_group_hosts visits s group_id =
      get_group_peers_from_kv w s.db group_id >>= λ peers. done (hosts_of_peers (visits peers) s)

  -- `GroupLeader`. The second branch fills a variable of its own, and the empty answer is returned.
  unfoldable pub group_leader :
      (Map Peer → Map Peer) → Server w → Map RtGroup → ℕ → Outcome (GroupLeader × Server w)
  unfolding get_group_hosts
  group_leader visits s onboard group_id = elim (get_onboard_group onboard group_id) [
    | some meta ↦
        let (node, s') = get_host w s meta.leader_id in
        done (record { leader_node = node; accuate = true }, s')
    | none ↦ get_group_hosts visits s group_id >>= λ r.
        done (record { leader_node = none; accuate = false }, r.1)
  ]

  -- `RequestVote` of the server. A group is changed in place.
  unfoldable pub serve_request_vote :
      Server w
      → Map RtGroup
      → (ℕ → RtGroup)
      → RequestVoteRequest
      → Outcome (Result RequestVoteResponse × Map RtGroup)
  serve_request_vote s onboard later req = elim (get_onboard_group onboard req.group) [
    | none ↦ done (err cannot_find_group, onboard)
    | some meta ↦ request_vote w s meta later req >>= λ r.
        done (ok r.0, elim r.1 [ none ↦ onboard | some meta' ↦ insert req.group meta' onboard ])
  ]

  -- `AppendEntries` of the server.
  unfoldable pub serve_append_entries :
      (ℕ → Option (RaftFunc w))
      → ℕ
      → ℕ
      → Server w
      → Map RtGroup
      → AppendEntriesRequest
      → Outcome (Result AppendEntriesResponse × Server w × Map RtGroup)
  serve_append_entries func_reg now draw s onboard req =
      elim (get_onboard_group onboard req.group) [
        | none ↦ done (err cannot_find_group, s, onboard)
        | some meta ↦ append_entries w func_reg now draw s meta req >>= λ r.
            done (r.0, r.1, insert req.group r.2 onboard)
      ]

  -- `GetGroupContent`
  unfoldable pub get_group_content : Server w → ℕ → Result RaftGroup × Server w
  unfolding get_group
  get_group_content s group_id =
      let (group, s') = get_group s group_id in
      (elim group [ none ↦ err cannot_find_group | some g ↦ ok g ], s')

  -- The inner loop of `PullGroupLogs`, after its `Next`: an entry that cannot be read is nil.
  unfoldable pub pull_entries : Bytes → List Item → List (Option LogEntry)
  pull_entries prefix [] = []
  pull_entries prefix (item ∷ items) =
      let rest = pull_entries prefix items in
      if has_prefix prefix item.0 then log_entry_from_item w item ∷ rest else []

  -- `PullGroupLogs`. A first entry that cannot be read is a nil that is dereferenced.
  unfoldable pub pull_group_logs : w.Db → ℕ → ℕ → Outcome (List (Option LogEntry))
  unfolding pull_entries
  pull_group_logs db group index =
      let key_prefix = compose_key_prefix group log_entries in
      elim (seek (key_prefix ++ u64_bytes index) (w.items db)) [
        | [] ↦ done []
        | item ∷ items ↦
            if has_prefix key_prefix item.0
            then elim (log_entry_from_item w item) [
              | none ↦ panicked
              | some first_entry ↦
                  done (if first_entry.index == index then pull_entries key_prefix items else [])
            ]
            else done []
      ]
