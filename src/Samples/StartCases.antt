-- ===== src/Samples/StartCases.antt =====
-- The theorem on `GetServer` at the small world: a node that finds no alpha nodes.
use bftraft4go.Prelude.{
  ◌≡◌, refl, true, some, none, List, [], ◌∷◌, arith, Bytes, bytes_equal, lookup, insert,
}
use bftraft4go.Outcome.{done}
use bftraft4go.World.{Codec, IsCodec}
use bftraft4go.World.Keyed.{under_prefix, seek, has_prefix, insert_item, find_item}
use bftraft4go.Encoding.{u32_bytes, u64_bytes, put_uint}
use bftraft4go.Encoding.Order.{bytes_leb}
use bftraft4go.Store.{compose_key_prefix, peer_key, host_key, group_meta}
use bftraft4go.Consensus
use bftraft4go.Consensus.{majority_response}
use bftraft4go.Log.{set_or_keep}
use bftraft4go.Server.{Server, RtGroup, leader}
use bftraft4go.Hosts.{save_host}
use bftraft4go.Peers.{save_peer}
use bftraft4go.Peers.Stored.{IsPeerTable}
use bftraft4go.Groups.{new_rt_group, set_onboard_group}
use bftraft4go.Scan.{scan_hosted_groups}
use bftraft4go.Leader.{alpha_group}
use bftraft4go.Alpha.{
  alpha_raft_group, this_host, this_peer, member_answers, save_group_txn, cold_saves, cold_start,
  sync_alpha_group,
}
use bftraft4go.Start.{
  ServerConfig, Surroundings, config_group, server_conf, init_database, get_config, hash_public_key,
  new_server, get_server,
}
use bftraft4go.Start.First.{IsFirst, get_server-IsFirst}
use bftraft4go.Samples.Codecs.{encode_peer, encode_host, encode_group}
use bftraft4go.Samples.Small.{small, small-IsWorld, all_items}

abbrev config_codec : Codec ServerConfig
config_codec = record {
  marshal = λ c. some c.private_key;
  unmarshal = λ bytes. (record { private_key = bytes }, true);
}

config-IsCodec : IsCodec config_codec
config-IsCodec c bytes e = let same : c.private_key ≡ bytes = cc (e) in cc (same)

-- A key is its number, and the hash of its public half is the number 5.
abbrev alone : Surroundings small
alone = record {
  hash_key = λ bytes. 5;
  marshal_key = λ key. some (key ∷ []);
  parse_private_key = λ bytes. some 105;
  visits = λ m. m;
  hash_data = λ bytes. 1;
  range = λ m. m;
  range_members = λ m. m;
  range_groups = λ m. m;
  marshal_member = λ member. none;
  address = 8 ∷ [];
  now = 3;
  members = none ∷ none ∷ [];
  contents = [];
}

abbrev config_writes : List (Bytes × Bytes)
config_writes = (compose_key_prefix config_group server_conf, 105 ∷ []) ∷ []

abbrev started : Server small
started = record {
  id = 5;
  db =
      (
        host_key 5,
        encode_host (
            this_host small alone.marshal_key (8 ∷ [])
              (new_server small config_codec alone 105 [])),
      )
      ∷ (
        peer_key alpha_group 5,
        encode_peer (this_peer small (new_server small config_codec alone 105 [])),
      )
      ∷ (compose_key_prefix alpha_group group_meta, encode_group alpha_raft_group)
      ∷ config_writes;
  private_key = 105;
  groups = [];
  hosts = [];
  node_public_keys = [];
}

abbrev founder : RtGroup
founder =
    new_rt_group 3 5 ((5, this_peer small (new_server small config_codec alone 105 [])) ∷ [])
      alpha_raft_group leader

ran :
    get_server small config_codec alone (init_database small config_codec (some (105 ∷ [])) [])
    ≡ done (started, set_onboard_group [] founder, some ((8 ∷ []) ∷ []))
unfolding get_server get_config find_item all_items init_database set_or_keep insert_item
    bytes_equal compose_key_prefix u32_bytes put_uint u64_bytes scan_hosted_groups seek bytes_leb
    has_prefix sync_alpha_group majority_response member_answers cold_start cold_saves
    save_group_txn save_peer save_host this_host this_peer new_rt_group new_server hash_public_key
    Consensus.collect Consensus.settle Consensus.pick_majority Consensus.count_hashes
    Consensus.first_reaching Consensus.expected_players lookup insert host_key peer_key
ran = refl

empty_table : IsPeerTable small alpha_group config_writes []
unfolding all_items under_prefix insert_item has_prefix compose_key_prefix u32_bytes put_uint
empty_table = record { stored = tt; ascending = tt }

no_answer :
    majority_response alone.hash_data alone.range alone.range_members
      (member_answers small alone.marshal_member alone.members)
    ≡ none
unfolding majority_response member_answers lookup
no_answer = refl

get_server-IsFirst_example :
    IsFirst small small-IsWorld config_codec config-IsCodec alone config_writes 105
      (started, set_onboard_group [] founder, some ((8 ∷ []) ∷ []))
unfolding hash_public_key
get_server-IsFirst_example =
    get_server-IsFirst small small-IsWorld config_codec config-IsCodec alone (105 ∷ []) 105 []
      config_writes (105 ∷ []) [] (started, set_onboard_group [] founder, some ((8 ∷ []) ∷ [])) refl
      refl refl (omega arith) empty_table no_answer ran
