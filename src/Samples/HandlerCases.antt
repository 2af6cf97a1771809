-- ===== src/Samples/HandlerCases.antt =====
-- The theorem on `AppendEntries` at the small cluster.
use bftraft4go.Prelude.{
  ℕ, ◌≡◌, refl, ap, ◌∙◌, true, Option, some, List, [], ◌∷◌, arith, Bytes, bytes_equal, lookup,
  insert,
}
use bftraft4go.Messages.{LogEntry, AppendEntriesRequest, AppendEntriesResponse}
use bftraft4go.Outcome.{done, ok, along_done}
use bftraft4go.Server.{Server, RtGroup, sign, verify_sign}
use bftraft4go.Hosts.{get_host, load_host, get_host_public_key, parse_host_key, verify_command_sign}
use bftraft4go.Log.{
  log_hash, group_hash, last_log_entry, last_entry_hash, last_entry_index, append_entry_to_local,
  write_entry, set_or_keep, current_entry, reversed_log_iterator, log_entry_from_item,
}
use bftraft4go.Log.Abstract.{IsLog}
use bftraft4go.Follower.{
  RaftFunc, append_entries, transfer, follow_leader, match_entries, take_entries, check_all,
  check_entries, check_entry, append_all, append_one, store_entry, commit_group_log, note_entry,
  first_response, last_log_term,
}
use bftraft4go.Follower.Appends.{IsQuiet}
use bftraft4go.Follower.Batches.{AllOrNone, append_entries-AllOrNone}
use bftraft4go.World.Keyed.{reverse_seek, seek_down, current, has_prefix, insert_item, find_item}
use bftraft4go.Store.{compose_key_prefix, log_entry_key}
use bftraft4go.Encoding.{u32_bytes, u64_bytes, put_uint}
use bftraft4go.Encoding.Order.{bytes_leb}
use bftraft4go.Text.{decimal, digits}
use bftraft4go.SignData.{exec_command_sign_data, command_sign_data}
use bftraft4go.Samples.Codecs.{encode_entry, decode_entry}
use bftraft4go.Samples.Small.{small, small-IsWorld, all_items, parse_key}
use bftraft4go.Samples.Cluster.{
  node, group, first_entry, second_entry, one_write, two_writes, one_write-IsLog, small-IsRoomy,
}

abbrev pub echo : RaftFunc small
echo entry s m = done (entry.command.arg, s, m)

abbrev pub registered : ℕ → Option (RaftFunc small)
registered id = some echo

pub registered-IsQuiet : IsQuiet small 7 registered
registered-IsQuiet id f entry s m r at e own =
    let same : echo ≡ f = cc (at) in
    along_done
      (λ (t : Bytes × Server small × RtGroup).
        (t.2.group.id ≡ 7)
        × ((es : List LogEntry) → IsLog small 7 s.db es → IsLog small 7 t.1.db es))
      (entry.command.arg, s, m) r (ap (λ (h : RaftFunc small). h entry s m) same ∙ e)
      (own, λ es log. log)

abbrev batch : AppendEntriesRequest
batch = record {
  group = 7;
  term = 4;
  leader_id = 2;
  prev_log_index = 1;
  prev_log_term = 3;
  signature = [];
  quorum_votes = [];
  entries = second_entry ∷ [];
}

abbrev node_after : Server small
node_after = record (node two_writes) { node_public_keys = (2, 102) ∷ (3, 103) ∷ (9, 109) ∷ [] }

abbrev group_after : RtGroup
group_after = record (group 2) { timeout = 10010 }

abbrev response : AppendEntriesResponse
response = record {
  group = 7;
  term = 4;
  index = 2;
  peer = 1;
  successed = true;
  convinced = true;
  hash = second_entry.hash;
  signature = sign small (node []) second_entry.hash;
}

took :
    append_entries small registered 10 20 (node one_write) (group 2) batch
    ≡ done (ok response, node_after, group_after)
unfolding append_entries transfer first_response follow_leader match_entries take_entries check_all
    check_entries check_entry get_host_public_key parse_host_key get_host load_host lookup insert
    verify_command_sign append_all append_one store_entry commit_group_log note_entry last_log_term
    last_log_entry last_entry_hash last_entry_index current_entry reversed_log_iterator
    log_entry_from_item reverse_seek seek_down current has_prefix log_hash group_hash decimal digits
    compose_key_prefix log_entry_key u32_bytes u64_bytes put_uint bytes_leb bytes_equal all_items
    insert_item find_item encode_entry decode_entry append_entry_to_local write_entry set_or_keep
    sign verify_sign exec_command_sign_data command_sign_data parse_key
took = refl

append_entries-AllOrNone_example :
    AllOrNone small 7 (first_entry ∷ []) (second_entry ∷ []) (ok response, node_after, group_after)
append_entries-AllOrNone_example =
    append_entries-AllOrNone small small-IsWorld small-IsRoomy 7 registered registered-IsQuiet
      (first_entry ∷ []) 10 20 (node one_write) (group 2) batch
      (ok response, node_after, group_after) took (refl, one_write-IsLog) (omega arith)
      (omega arith)
