-- ===== src/Start/First.antt =====
-- The first node of a network.
use bftraft4go.Prelude.{
  ℕ, ◌^◌, ◌<◌, ◌≡◌, refl, ap, subst, Bool, Option, none, some, List, [], ◌∷◌, Bytes, Map, inl, inr,
}
use bftraft4go.Messages.{Peer}
use bftraft4go.Outcome.{done, panicked, >>=-eq-done, along_done, Result-cases}
use bftraft4go.World.{World, IsWorld, Codec, IsCodec, found}
use bftraft4go.Store.{compose_key_prefix}
use bftraft4go.Consensus.{majority_response}
use bftraft4go.Log.{set_or_keep}
use bftraft4go.Server.{Server, RtGroup, leader}
use bftraft4go.Peers.Stored.{IsPeerTable}
use bftraft4go.Leader.{alpha_group}
use bftraft4go.Groups.{get_onboard_group, new_rt_group}
use bftraft4go.Groups.Stored.{get-set}
use bftraft4go.Members.{bytes_or_nil}
use bftraft4go.Scan.{scan_hosted_groups}
use bftraft4go.Scan.Scanned.{scan_hosted_groups-SameStore}
use bftraft4go.Alpha.{
  alpha_raft_group, this_host, this_peer, member_answers, cold_saves, cold_start, sync_alpha_group,
}
use bftraft4go.Alpha.Cold.{Founded, cold_start-Founded}
use bftraft4go.Start.{
  ServerConfig, Surroundings, config_group, server_conf, init_database, get_config, hash_public_key,
  new_server, get_server,
}

module _ (w : World) (laws : IsWorld w) (config_codec : Codec ServerConfig)
    (reads : IsCodec config_codec) where
  -- `GetConfig` reads what `InitDatabase` has written.
  get_config-init_database :
      (private_key : Bytes) (db db' : w.Db) (bytes : Bytes)
      → config_codec.marshal (record { private_key = private_key }) ≡ some bytes
      → w.set db (compose_key_prefix config_group server_conf) bytes ≡ some db'
      → (init_database w config_codec (some private_key) db ≡ db')
        × (get_config w config_codec db' ≡ done (record { private_key = private_key }))
  unfolding init_database get_config set_or_keep
  get_config-init_database private_key db db' bytes marshalled written =
      let at : w.get db' (compose_key_prefix config_group server_conf) ≡ found (some bytes) =
        get-set w laws db db' (compose_key_prefix config_group server_conf) bytes written in
      let read = reads (record { private_key = private_key }) bytes marshalled in
      (
        rw (marshalled, bytes_or_nil) (rw (written, set_or_keep) refl),
        rw (at, get_config)
            (rw (ap (λ (t : ServerConfig × Bool). t.1) read)
              (ap (λ (t : ServerConfig × Bool). done t.0) read)),
      )

  cold_start-bootstrap :
      (marshal_key : w.PublicKey → Option Bytes) (address : Bytes) (now : ℕ) (s : Server w)
      (onboard : Map RtGroup) (t : Server w × Map RtGroup × List Bytes)
      → cold_start w marshal_key address now s onboard ≡ done t
      → t.2 ≡ address ∷ []
  unfolding cold_start
  cold_start-bootstrap marshal_key address now s onboard t e =
      elim (Result-cases
        (cold_saves w alpha_raft_group (this_peer w s) (this_host w marshal_key address s) s)) [
          | inl (x, failed) ↦ let bad : panicked ≡ done t = rw (failed, cold_start) at e in cc (bad)
          | inr (s', saved) ↦
              along_done (λ (t : Server w × Map RtGroup × List Bytes). t.2 ≡ address ∷ []) _ t
                (rw (saved, cold_start) at e) refl
        ]

  module _ (world : Surroundings w) where
    -- What the first node is when it has started.
    pub record IsFirst (db : w.Db) (key : w.PrivateKey)
        (r : Server w × Map RtGroup × Option (List Bytes)) : Type 0 where
      pub scanned : Server w
      pub own_id : scanned.id ≡ hash_public_key w world.hash_key world.marshal_key (w.public_of key)
      pub same_db : scanned.db ≡ db
      pub founded :
          Founded w laws r.0 alpha_raft_group
            (this_peer w scanned)
            (this_host w world.marshal_key world.address scanned)
      pub on_board :
          get_onboard_group r.1 alpha_group
          ≡ some (
              new_rt_group world.now scanned.id
                ((scanned.id, this_peer w scanned) ∷ [])
                alpha_raft_group
                leader)
      pub bootstrap : r.2 ≡ some (world.address ∷ [])

    get_config-IsFirst :
        (key : w.PrivateKey) (db : w.Db) (ps : List Peer)
        (r : Server w × Map RtGroup × Option (List Bytes)) (config : ServerConfig)
        → get_config w config_codec db ≡ done config
        → world.parse_private_key config.private_key ≡ some key
        → hash_public_key w world.hash_key world.marshal_key (w.public_of key) < 2 ^ 64
        → IsPeerTable w alpha_group db ps
        → majority_response world.hash_data world.range world.range_members
            (member_answers w world.marshal_member world.members)
          ≡ none
        → get_server w config_codec world db ≡ done r
        → IsFirst db key r
    unfolding get_server new_server sync_alpha_group
    get_config-IsFirst key db ps r config known parsed fits table alone e =
        let s = new_server w config_codec world key db in
        let (q, scanned, e') =
          >>=-eq-done (scan_hosted_groups w world.visits world.now s s.id []) _
            (rw parsed at (rw (known, get_server) at e)) in
        let same = scan_hosted_groups-SameStore w world.visits world.now s s.id [] q scanned in
        let (t, cold, end) =
          >>=-eq-done (cold_start w world.marshal_key world.address world.now q.1 q.2) _
            (rw (alone, sync_alpha_group) at e') in
        let boot =
          cold_start-Founded w laws world.marshal_key world.address world.now q.1 q.2 ps t
            (rw (same.0) table) (rw (same.1) fits) cold in
        along_done (IsFirst db key) _ r end (record {
          scanned = q.1;
          own_id = same.1;
          same_db = same.0;
          founded = boot.0;
          on_board = boot.1;
          bootstrap =
              ap some
                (cold_start-bootstrap world.marshal_key world.address world.now q.1 q.2 t cold);
        })

    -- In a world that keeps its laws, on a database that `InitDatabase` has given a key, where the
    -- peers of the alpha group are a table and the id fits in a uint64: if `MajorityResponse`
    -- finds no answer of the alpha nodes, then `GetServer`, when it returns, has made a node with
    -- the hash of its public key as id, the alpha group, the node as its peer and the node's host
    -- are what is read from the database, the alpha group is on board with the node as its leader
    -- and only peer, and the client starts from the node itself.
    pub get_server-IsFirst :
        (private_key : Bytes) (key : w.PrivateKey) (db db' : w.Db) (bytes : Bytes) (ps : List Peer)
        (r : Server w × Map RtGroup × Option (List Bytes))
        → config_codec.marshal (record { private_key = private_key }) ≡ some bytes
        → w.set db (compose_key_prefix config_group server_conf) bytes ≡ some db'
        → world.parse_private_key private_key ≡ some key
        → hash_public_key w world.hash_key world.marshal_key (w.public_of key) < 2 ^ 64
        → IsPeerTable w alpha_group db' ps
        → majority_response world.hash_data world.range world.range_members
            (member_answers w world.marshal_member world.members)
          ≡ none
        → get_server w config_codec world (init_database w config_codec (some private_key) db)
          ≡ done r
        → IsFirst db' key r
    get_server-IsFirst private_key key db db' bytes ps r marshalled written parsed fits table alone
          e =
        let (initial, config) =
          get_config-init_database private_key db db' bytes marshalled written in
        let s = new_server w config_codec world key db' in
        let e1 : get_server w config_codec world db' ≡ done r =
          subst (λ d. get_server w config_codec world d ≡ done r) initial e in
        get_config-IsFirst key db' ps r (record { private_key = private_key }) config parsed fits
          table alone e1
