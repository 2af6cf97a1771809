-- ===== src/Hosts.antt =====
-- server/hosts.go: the hosts that a node knows, behind two caches.
pub mod Views
pub mod KeyViews
use bftraft4go.Prelude.{ℕ, Bool, false, Option, none, some, ◌++◌, Bytes, lookup, insert}
use bftraft4go.Messages.{CommandRequest, Host}
use bftraft4go.Outcome.{Outcome, done, panicked, ◌>>=◌, store_error, codec_error, Result, ok, err}
use bftraft4go.World.{World, Codec, found, key_not_found, failed}
use bftraft4go.Store.{host_key}
use bftraft4go.SignData.{exec_command_sign_data}
use bftraft4go.Server.{Server, verify_sign}

module _ (w : World) where
  -- The second half of `GetHost`, where the cache has nothing.
  unfoldable pub load_host : Server w → ℕ → Option Host × Server w
  load_host s node_id = elim (w.get s.db (host_key node_id)) [
    | found value ↦ elim value [
      | none ↦ (none, s)
      | some bytes ↦
          let node = (w.host_codec.unmarshal bytes).0 in
          (some node, record s { hosts = insert node_id node s.hosts })
    ]
    | key_not_found ↦ (none, s)
    | failed ↦ (none, s)
  ]

  -- `GetHost`, `GetHostNTXN`
  unfoldable pub get_host : Server w → ℕ → Option Host × Server w
  unfolding load_host
  get_host s node_id = elim (lookup node_id s.hosts) [
    | some node ↦ (some node, s)
    | none ↦ load_host s node_id
  ]

  -- The end of `GetHostPublicKey`. `ParsePublicKey` asserts the type of what it parsed before it
  -- looks at the error, and so panics on bytes that are no key.
  unfoldable pub parse_host_key :
      ℕ → Option Host × Server w → Outcome (Option w.PublicKey × Server w)
  parse_host_key node_id (none, s) = done (none, s)
  parse_host_key node_id (some node, s) = elim (w.parse_public_key node.public_key) [
    | none ↦ panicked
    | some key ↦
        done (some key, record s { node_public_keys = insert node_id key s.node_public_keys })
  ]

  -- `GetHostPublicKey`
  unfoldable pub get_host_public_key : Server w → ℕ → Outcome (Option w.PublicKey × Server w)
  unfolding parse_host_key get_host
  get_host_public_key s node_id = elim (lookup node_id s.node_public_keys) [
    | some key ↦ done (some key, s)
    | none ↦ parse_host_key node_id (get_host s node_id)
  ]

  -- `SaveHost`, `SaveHostNTXN`: the cache of hosts is left as it is.
  unfoldable pub save_host : Server w → Host → Result (Server w)
  save_host s node = elim (w.host_codec.marshal node) [
    | none ↦ err codec_error
    | some bytes ↦ elim (w.set s.db (host_key node.id) bytes) [
      | none ↦ err store_error
      | some db' ↦ ok (record s { db = db' })
    ]
  ]

  -- `VerifyCommandSign`
  unfoldable pub verify_command_sign : Server w → CommandRequest → Outcome (Bool × Server w)
  verify_command_sign s cmd = get_host_public_key s cmd.client_id >>= λ got. elim got.0 [
    | none ↦ done (false, got.1)
    | some key ↦ done (verify_sign w key cmd.signature (exec_command_sign_data cmd), got.1)
  ]
