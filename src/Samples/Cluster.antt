-- ===== src/Samples/Cluster.antt =====
-- A group of three peers (number 7), one of them the node under test (number 1), with a log of up to
-- two entries; host 9 is a client.
use bftraft4go.Prelude.{ℕ, ◌+◌, refl, true, List, [], ◌∷◌, arith, Bytes}
use bftraft4go.Messages.{CommandRequest, LogEntry, Peer, Host}
use bftraft4go.World.Keyed.{under_prefix}
use bftraft4go.Store.{log_entry_key}
use bftraft4go.SignData.{exec_command_sign_data}
use bftraft4go.Server.{Server, RtGroup, candidate}
use bftraft4go.Log.{log_hash, group_hash}
use bftraft4go.Log.Abstract.{IsLog}
use bftraft4go.Log.Append.{append_entry_to_local-IsLog}
use bftraft4go.Follower.Appends.{IsRoomy}
use bftraft4go.Samples.Codecs.{encode_entry}
use bftraft4go.Samples.Small.{small, small-IsWorld, all_items}

abbrev pub unsigned_command : ℕ → CommandRequest
unsigned_command request = record {
  group = 7;
  client_id = 9;
  request_id = request;
  func_id = 2;
  signature = [];
  arg = 5 ∷ [];
}

abbrev pub command : ℕ → CommandRequest
command request = record (unsigned_command request) {
  signature = 109 ∷ exec_command_sign_data (unsigned_command request);
}

abbrev pub first_entry : LogEntry
first_entry = record {
  term = 3;
  index = 1;
  hash = log_hash small (group_hash small 7) 1 2 (5 ∷ []);
  command = command 1;
}

abbrev pub second_entry : LogEntry
second_entry = record {
  term = 4;
  index = 2;
  hash = log_hash small first_entry.hash 2 2 (5 ∷ []);
  command = command 2;
}

abbrev pub one_write : List (Bytes × Bytes)
one_write = (log_entry_key 7 1, encode_entry first_entry) ∷ []

abbrev pub two_writes : List (Bytes × Bytes)
two_writes = (log_entry_key 7 2, encode_entry second_entry) ∷ one_write

pub empty-IsLog : IsLog small 7 [] []
unfolding all_items under_prefix
empty-IsLog = record { stored = tt; indexed = tt; chained = tt; short = omega arith }

pub one_write-IsLog : IsLog small 7 one_write (first_entry ∷ [])
one_write-IsLog =
    (append_entry_to_local-IsLog small small-IsWorld 7 [] [] empty-IsLog first_entry refl
      (omega arith) refl one_write (encode_entry first_entry) refl refl refl).1

pub two_writes-IsLog : IsLog small 7 two_writes (first_entry ∷ second_entry ∷ [])
two_writes-IsLog =
    (append_entry_to_local-IsLog small small-IsWorld 7 one_write (first_entry ∷ []) one_write-IsLog
      second_entry refl (omega arith) refl two_writes (encode_entry second_entry) refl refl refl).1

pub small-IsRoomy : IsRoomy small
small-IsRoomy = record {
  marshals = λ e. (encode_entry e, refl);
  sets = λ db k v. ((k, v) ∷ db, refl);
}

abbrev pub peer : ℕ → Peer
peer id = record { id = id; group = 7; next_index = 2; match_index = 1 }

abbrev pub host : ℕ → Host
host id = record {
  id = id;
  last_seen = 0;
  online = true;
  server_addr = id ∷ [];
  public_key = (100 + id) ∷ [];
}

abbrev pub node : List (Bytes × Bytes) → Server small
node db = record {
  id = 1;
  db = db;
  private_key = 101;
  groups = [];
  hosts = (1, host 1) ∷ (2, host 2) ∷ (3, host 3) ∷ (9, host 9) ∷ [];
  node_public_keys = (2, 102) ∷ (3, 103) ∷ [];
}

abbrev pub group : ℕ → RtGroup
group leader = record {
  leader_id = leader;
  last_voted_to = 0;
  last_voted_term = 0;
  group_peers = (1, peer 1) ∷ (2, peer 2) ∷ (3, peer 3) ∷ [];
  group = record { replications = 3; id = 7; term = 4 };
  timeout = 0;
  role = candidate;
  votes = [];
  send_votes_for_peers = [];
}
