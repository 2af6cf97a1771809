-- ===== src/Start.antt =====
-- How a node comes up: `InitDatabase` and `GetServer` of server/bftraft.go, `GetConfig` of
-- server/config.go, `HashPublicKey` of utils/signature.go. `log.Panic` is `panicked`. The generated
-- key, the encoding of a `ServerConfig` and the functions of crypto/x509 and hash/fnv are arguments,
-- and so are the answers of the alpha nodes.
pub mod First
use bftraft4go.Prelude.{ℕ, true, false, Option, none, some, List, [], Bytes, Map}
use bftraft4go.Messages.{Peer, RaftGroup, GroupMember, GroupMembersResponse}
use bftraft4go.Outcome.{Outcome, done, panicked, ◌>>=◌}
use bftraft4go.World.{World, Codec, found, key_not_found, failed}
use bftraft4go.Store.{compose_key_prefix}
use bftraft4go.Log.{set_or_keep}
use bftraft4go.Server.{Server, RtGroup}
use bftraft4go.Members.{bytes_or_nil}
use bftraft4go.Scan.{scan_hosted_groups}
use bftraft4go.Alpha.{sync_alpha_group}

-- `ServerConfig`
pub record ServerConfig : Type 0 where
  pub private_key : Bytes

abbrev pub config_group : ℕ
config_group = 0

abbrev pub server_conf : ℕ
server_conf = 100

module _ (w : World) (config_codec : Codec ServerConfig) where
  -- `InitDatabase`: the errors of the encoding and of the write are dropped. That the database is
  -- opened and closed is left out.
  unfoldable pub init_database : Option Bytes → w.Db → w.Db
  init_database generated db = elim generated [
    | none ↦ db
    | some private_key ↦
        set_or_keep w db (compose_key_prefix config_group server_conf)
          (bytes_or_nil (config_codec.marshal (record { private_key = private_key })))
  ]

  -- `GetConfig`
  unfoldable pub get_config : w.Db → Outcome ServerConfig
  get_config db = elim (w.get db (compose_key_prefix config_group server_conf)) [
    | key_not_found ↦ panicked
    | failed ↦ panicked
    | found value ↦ elim value [
      | none ↦ panicked
      | some bytes ↦ elim (config_codec.unmarshal bytes).1 [
        | false ↦ panicked
        | true ↦ done (config_codec.unmarshal bytes).0
      ]
    ]
  ]

-- `HashPublicKey`; the error of the encoding is dropped.
unfoldable pub hash_public_key :
    (w : World) → (Bytes → ℕ) → (w.PublicKey → Option Bytes) → w.PublicKey → ℕ
hash_public_key w hash_key marshal_key key = hash_key (bytes_or_nil (marshal_key key))

-- What a node that starts meets: the keys, the visits of the maps, the answers of the alpha nodes.
pub record Surroundings (w : World) : Type 0 where
  pub hash_key : Bytes → ℕ
  pub marshal_key : w.PublicKey → Option Bytes
  pub parse_private_key : Bytes → Option w.PrivateKey
  pub visits : Map Peer → Map Peer
  pub hash_data : Bytes → ℕ
  pub range : Map ℕ → Map ℕ
  pub range_members : Map GroupMembersResponse → Map GroupMembersResponse
  pub range_groups : Map RaftGroup → Map RaftGroup
  pub marshal_member : GroupMember → Option Bytes
  pub address : Bytes
  pub now : ℕ
  pub members : List (Option GroupMembersResponse)
  pub contents : List (Option RaftGroup)

module _ (w : World) (config_codec : Codec ServerConfig) (world : Surroundings w) where
  -- The node that `GetServer` makes of its key and its database.
  unfoldable pub new_server : w.PrivateKey → w.Db → Server w
  new_server key db = record {
    id = hash_public_key w world.hash_key world.marshal_key (w.public_of key);
    db = db;
    private_key = key;
    groups = [];
    hosts = [];
    node_public_keys = [];
  }

  -- `GetServer` on an open database: the node, the groups on board, and the addresses that the client
  -- starts from, if they change. The functions that it registers are `membership_funcs`.
  unfoldable pub get_server : w.Db → Outcome (Server w × Map RtGroup × Option (List Bytes))
  unfolding new_server
  get_server db = get_config w config_codec db >>= λ config.
      elim (world.parse_private_key config.private_key) [
        | none ↦ panicked
        | some key ↦
            let s = new_server key db in
            scan_hosted_groups w world.visits world.now s s.id [] >>= λ r.
            sync_alpha_group w world.hash_data world.range world.range_members world.range_groups
              world.marshal_member world.marshal_key world.address world.now world.members
              world.contents r.1 r.2
      ]
