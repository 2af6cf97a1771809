-- ===== src/Samples/ReplicationCases.antt =====
-- The theorems on heartbeats at the small cluster: the node 1 leads, the node 2 lacks an entry.
use bftraft4go.Prelude.{◌≡◌, refl, false, some, [], ◌∷◌, arith, lookup, inr}
use bftraft4go.Outcome.{done, ok}
use bftraft4go.Messages.{Peer, AppendEntriesResponse}
use bftraft4go.Server.{Server, RtGroup}
use bftraft4go.Hosts.{get_host, load_host}
use bftraft4go.Hosts.KeyViews.{key_view}
use bftraft4go.Follower.{append_entries}
use bftraft4go.Follower.Appends.{AtLog}
use bftraft4go.Follower.Batches.{Answer, Taken}
use bftraft4go.Follower.Returns.{Readable, Served}
use bftraft4go.Leader.{heartbeat_request, note_response}
use bftraft4go.Replication.{heartbeat_request-Taken}
use bftraft4go.Replication.Stuck.{heartbeat_request-stuck}
use bftraft4go.Samples.Small.{small, small-IsWorld, parse_key}
use bftraft4go.Samples.Cluster.{
  node, group, peer, first_entry, second_entry, one_write, two_writes, one_write-IsLog, empty-IsLog,
  two_writes-IsLog, small-IsRoomy,
}
use bftraft4go.Samples.HandlerCases.{echo, registered, registered-IsQuiet}

abbrev follower_node : Server small
follower_node = record (node one_write) { id = 2 }

leader_peer : lookup 1 (group 1).group_peers ≡ some (peer 1)
unfolding lookup
leader_peer = refl

leader_key : key_view small follower_node 1 ≡ done (some 101)
unfolding key_view get_host load_host lookup parse_key
leader_key = refl

second-Readable : Readable small follower_node (second_entry ∷ [])
unfolding key_view get_host load_host lookup parse_key
second-Readable = ((some 109, refl), tt)

second-Served :
    Served small small-IsWorld small-IsRoomy 7 registered registered-IsQuiet (second_entry ∷ [])
second-Served = ((refl, echo, refl, λ s m. ((5 ∷ [], s, m), refl)), tt)

heartbeat_request-Taken_example :
    (r : Answer small) × (append_entries small registered 10 20 follower_node
        (group 1)
        (heartbeat_request small (node two_writes) (group 1) (peer 2))
      ≡ done r)
    × Taken small 7 (first_entry ∷ []) (second_entry ∷ []) r
heartbeat_request-Taken_example =
    heartbeat_request-Taken small small-IsWorld 7 small-IsRoomy registered registered-IsQuiet
      (node two_writes) follower_node (group 1) (group 1) (peer 2) (peer 1) 101 (first_entry ∷ [])
      second_entry [] 10 20 (refl, two_writes-IsLog) (refl, one_write-IsLog) (inr (0, refl, refl))
      refl leader_peer leader_key (omega arith) (omega arith) second-Readable second-Served

-- The leader has the positions 1 and 0 of the peer 2, which has lost its log.
abbrev lost : Peer
lost = record (peer 2) { next_index = 1; match_index = 0 }

abbrev leading : RtGroup
leading = record (group 1) { group_peers = (1, peer 1) ∷ (2, lost) ∷ [] }

abbrev lost_node : Server small
lost_node = record (node []) { id = 2 }

lost_known : lookup 2 leading.group_peers ≡ some lost
unfolding lookup
lost_known = refl

keys_known :
    (key_view small lost_node 1 ≡ done (some 101))
    × (key_view small (node two_writes) 2 ≡ done (some 102))
unfolding key_view get_host load_host lookup parse_key
keys_known = (refl, refl)

heartbeat_request-stuck_example :
    (response : AppendEntriesResponse) × (t' : Server small) × (m' : RtGroup) × (append_entries
        small registered 10 20 lost_node
        (group 1)
        (heartbeat_request small (node two_writes) leading lost)
      ≡ done (ok response, t', m'))
    × (response.successed ≡ false)
    × AtLog small 7 [] t' m'
    × (s' : Server small) × (lead' : RtGroup) × (note_response small response
          (node two_writes, leading)
        ≡ done (s', lead'))
    × (s'.db ≡ two_writes)
    × (lookup 2 lead'.group_peers ≡ some lost)
heartbeat_request-stuck_example =
    heartbeat_request-stuck small small-IsWorld 7 registered (node two_writes) lost_node leading
      (group 1) lost (peer 1) 101 102 first_entry (second_entry ∷ []) 10 20 (refl, two_writes-IsLog)
      (refl, empty-IsLog) refl refl lost_known refl leader_peer keys_known.0 keys_known.1
