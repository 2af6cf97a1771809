-- ===== src/Samples/LeaderCases.antt =====
-- The theorems on `SendFollowersHeartbeat` and `ExecCommand` at the small cluster.
use bftraft4go.Prelude.{◌≡◌, refl, true, false, some, [], ◌∷◌, arith, bytes_equal, lookup, insert}
use bftraft4go.Messages.{AppendEntriesResponse, CommandResponse}
use bftraft4go.Outcome.{done, err, store_error}
use bftraft4go.Encoding.{u32_bytes, u64_bytes, put_uint}
use bftraft4go.Encoding.Order.{bytes_leb}
use bftraft4go.Text.{decimal, digits}
use bftraft4go.World.Keyed.{reverse_seek, seek_down, current, has_prefix, insert_item, find_item}
use bftraft4go.Store.{compose_key_prefix, log_entry_key}
use bftraft4go.SignData.{exec_command_sign_data, command_sign_data}
use bftraft4go.Server.{Server, RtGroup, sign, verify_sign, refresh_timer}
use bftraft4go.Hosts.{get_host, load_host, get_host_public_key, parse_host_key, verify_command_sign}
use bftraft4go.Log.{
  log_hash, group_hash, last_log_entry, last_entry_hash, last_entry_index, append_entry_to_local,
  write_entry, set_or_keep, current_entry, reversed_log_iterator, log_entry_from_item,
}
use bftraft4go.Follower.{commit_group_log}
use bftraft4go.Follower.Appends.{AtLog}
use bftraft4go.Leader.{
  Network, marked, heartbeat_request, send_requests, note_response, note_responses,
  send_followers_heartbeat, new_entry, first_answer, signed_answer, accept_command, append_command,
  lead_command,
}
use bftraft4go.Leader.Beats.{send_followers_heartbeat-IsLog}
use bftraft4go.Leader.Commands.{Led, lead_command-Led}
use bftraft4go.Samples.Codecs.{encode_entry, decode_entry}
use bftraft4go.Samples.Small.{small, small-IsWorld, all_items, parse_key}
use bftraft4go.Samples.Cluster.{
  node, group, first_entry, one_write, two_writes, one_write-IsLog, small-IsRoomy, command,
}
use bftraft4go.Samples.HandlerCases.{registered, registered-IsQuiet}

abbrev reply : AppendEntriesResponse
reply = record {
  group = 7;
  term = 4;
  index = 1;
  peer = 2;
  successed = true;
  convinced = true;
  hash = [];
  signature = [];
}

abbrev pub network : Network
network = record {
  connects = λ address. true;
  visits = λ peers. peers;
  answers = λ requests. some reply ∷ [];
  forward = λ host cmd. err store_error;
}

abbrev group_after : RtGroup
group_after = record (group 1) { timeout = 30; send_votes_for_peers = (2, false) ∷ [] }

beaten :
    send_followers_heartbeat small network 10 20 (node one_write) (group 1)
    ≡ done (node one_write, group_after)
unfolding send_followers_heartbeat send_requests heartbeat_request marked note_responses
    note_response refresh_timer get_host get_host_public_key lookup insert
beaten = refl

send_followers_heartbeat-IsLog_example :
    AtLog small 7 (first_entry ∷ []) (node one_write) group_after
send_followers_heartbeat-IsLog_example =
    send_followers_heartbeat-IsLog small small-IsWorld 7 (first_entry ∷ []) network 10 20
      (node one_write) (group 1) (node one_write, group_after) beaten (refl, one_write-IsLog)

abbrev node_after : Server small
node_after = record (node two_writes) { node_public_keys = (2, 102) ∷ (3, 103) ∷ (9, 109) ∷ [] }

abbrev answer : CommandResponse
answer = record {
  group = 7;
  leader_id = 1;
  node_id = 1;
  request_id = 2;
  signature = sign small (node []) (command_sign_data 7 1 2 (5 ∷ []));
  result = 5 ∷ [];
}

executed :
    lead_command small registered network 10 20 (node one_write) (group 1) (command 2)
    ≡ done (answer, node_after, group_after)
unfolding lead_command accept_command append_command new_entry first_answer signed_answer
    send_followers_heartbeat send_requests heartbeat_request marked note_responses note_response
    refresh_timer commit_group_log get_host_public_key parse_host_key get_host load_host lookup
    insert verify_command_sign last_log_entry last_entry_hash last_entry_index current_entry
    reversed_log_iterator log_entry_from_item reverse_seek seek_down current has_prefix log_hash
    group_hash decimal digits compose_key_prefix log_entry_key u32_bytes u64_bytes put_uint
    bytes_leb bytes_equal all_items insert_item find_item encode_entry decode_entry
    append_entry_to_local write_entry set_or_keep sign verify_sign exec_command_sign_data
    command_sign_data parse_key
executed = refl

lead_command-Led_example :
    Led small 7 (first_entry ∷ []) (group 1) (command 2) (answer, node_after, group_after)
lead_command-Led_example =
    lead_command-Led small small-IsWorld small-IsRoomy 7 (first_entry ∷ []) registered
      registered-IsQuiet (omega arith) network 10 20 (node one_write) (group 1) (command 2)
      (answer, node_after, group_after) executed (refl, one_write-IsLog) refl
