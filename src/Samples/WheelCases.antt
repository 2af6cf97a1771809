-- ===== src/Samples/WheelCases.antt =====
-- The theorems on `StartTimeWheel` and `ScanHostedGroups` at the small cluster.
use bftraft4go.Prelude.{
  ℕ, ◌≡◌, refl, false, some, List, [], ◌∷◌, arith, Bytes, lookup, insert, bytes_equal,
}
use bftraft4go.Messages.{Peer, RaftGroup}
use bftraft4go.Outcome.{done, panicked}
use bftraft4go.Encoding.{u32_bytes, u64_bytes, put_uint}
use bftraft4go.Encoding.Order.{bytes_leb}
use bftraft4go.World.Keyed.{seek, has_prefix, insert_item, find_item}
use bftraft4go.Store.{compose_key_prefix, peer_key, group_meta}
use bftraft4go.Server.{RtGroup, leader, follower, refresh_timer}
use bftraft4go.Hosts.{get_host, load_host, get_host_public_key}
use bftraft4go.Peers.{get_group_peers_from_kv}
use bftraft4go.Groups.{get_group_hosts, hosts_of_peers, get_group_from_kv, new_rt_group}
use bftraft4go.Leader.{
  marked, heartbeat_request, send_requests, note_response, note_responses, send_followers_heartbeat,
}
use bftraft4go.Scan.{scan_hosted_groups, scan_peers, scan_peer, board_all}
use bftraft4go.Scan.Scanned.{FromDb, scan_hosted_groups-FromDb}
use bftraft4go.Wheel.{Look, act, turn, run_wheel}
use bftraft4go.Wheel.Restart.{lone_group-panics}
use bftraft4go.Wheel.Logs.{TakingPart, run_wheel-TakingPart}
use bftraft4go.Samples.Codecs.{encode_peer, encode_group, decode_peer, decode_group}
use bftraft4go.Samples.Small.{small, small-IsWorld, all_items}
use bftraft4go.Samples.Cluster.{node, group, first_entry, one_write, one_write-IsLog}
use bftraft4go.Samples.HandlerCases.{registered}
use bftraft4go.Samples.LeaderCases.{network}

abbrev look : ℕ → Look
look now = record {
  now = now;
  draw = 20;
  draw_long = 40;
  net = network;
  ballots = λ req. [];
  hash_data = λ b. 1;
  range = λ m. m;
  range_vals = λ m. m;
  pulled = λ index. [];
}

abbrev leading : RtGroup
leading = record (group 1) { role = leader }

abbrev led : RtGroup
led = record leading { timeout = 30; send_votes_for_peers = (2, false) ∷ [] }

wheeled :
    run_wheel small registered (look 10 ∷ look 15 ∷ []) (node one_write) leading
    ≡ done (node one_write, led)
unfolding run_wheel turn act send_followers_heartbeat send_requests heartbeat_request marked
    note_responses note_response refresh_timer get_host get_host_public_key lookup insert
wheeled = refl

run_wheel-TakingPart_example :
    TakingPart small small-IsWorld 7 (first_entry ∷ []) (omega arith) (node one_write, led)
run_wheel-TakingPart_example =
    run_wheel-TakingPart small small-IsWorld 7 (first_entry ∷ []) (omega arith) registered
      (look 10 ∷ look 15 ∷ []) (node one_write) leading (node one_write, led) wheeled
      ((refl, one_write-IsLog), tt)

-- A database with the group 8, whose only peer is the node.
abbrev own_peer : Peer
own_peer = record { id = 1; group = 8; next_index = 0; match_index = 0 }

abbrev lone : RaftGroup
lone = record { replications = 1; id = 8; term = 2 }

abbrev lone_writes : List (Bytes × Bytes)
lone_writes =
    (peer_key 8 1, encode_peer own_peer) ∷ (compose_key_prefix 8 group_meta, encode_group lone) ∷ []

abbrev restarted : RtGroup
restarted = record {
  leader_id = 1;
  last_voted_to = 0;
  last_voted_term = 0;
  group_peers = (1, own_peer) ∷ [];
  group = lone;
  timeout = 60005;
  role = follower;
  votes = [];
  send_votes_for_peers = [];
}

scanned :
    scan_hosted_groups small (λ m. m) 5 (node lone_writes) 1 []
    ≡ done ((8, restarted) ∷ [], node lone_writes, (8, restarted) ∷ [])
unfolding scan_hosted_groups scan_peers scan_peer board_all get_group_hosts hosts_of_peers
    get_group_from_kv get_group_peers_from_kv new_rt_group get_host load_host lookup insert seek
    has_prefix all_items insert_item find_item compose_key_prefix peer_key u32_bytes u64_bytes
    put_uint bytes_leb bytes_equal encode_peer encode_group decode_peer decode_group
scanned = refl

found : lookup 8 ((8, restarted) ∷ []) ≡ some restarted
unfolding lookup
found = refl

scan_hosted_groups-FromDb_example : FromDb small (λ m. m) 5 1 (node lone_writes) 8 restarted
scan_hosted_groups-FromDb_example =
    scan_hosted_groups-FromDb small (λ m. m) 5 (node lone_writes) 1 []
      ((8, restarted) ∷ [], node lone_writes, (8, restarted) ∷ []) scanned 8 restarted found

lone_group-panics_example :
    turn small registered (look 60005) (node lone_writes) restarted ≡ panicked
lone_group-panics_example =
    lone_group-panics small registered (λ m. m) (λ peers. refl) 5 (node lone_writes) []
      ((8, restarted) ∷ [], node lone_writes, (8, restarted) ∷ []) scanned 8 restarted found refl
      (omega arith) (look 60005) (node lone_writes) refl (omega arith)
