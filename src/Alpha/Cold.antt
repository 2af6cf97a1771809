-- ===== src/Alpha/Cold.antt =====
-- What `ColdStart` leaves in the database and on board.
use mathlib.Core.List.{append-nil}
use bftraft4go.Prelude.{
  ℕ, ◌^◌, ◌<◌, ◌≡◌, ◌≢◌, refl, ◌∙◌, subst, false, Option, some, List, [], ◌∷◌, arith, Bytes, Map,
  lookup, lookup-insert_self,
}
use bftraft4go.Encoding.{u64_bytes}
use bftraft4go.Messages.{Peer, Host, RaftGroup}
use bftraft4go.Outcome.{done, panicked, Result, ok, err, along_done}
use bftraft4go.World.{World, IsWorld, found}
use bftraft4go.World.Keyed.{has_prefix}
use bftraft4go.Store.{
  compose_key_prefix, peer_key, host_key, group_meta, group_peers, host_list, host_list_group,
}
use bftraft4go.Store.Keys.{has_prefix-table}
use bftraft4go.Server.{Server, RtGroup, leader}
use bftraft4go.Hosts.{save_host, load_host}
use bftraft4go.Peers.{save_peer, get_group_peers_from_kv}
use bftraft4go.Peers.Table.{put_peer, find_peer-put_peer, insert_all, lookup-insert_all}
use bftraft4go.Peers.Stored.{
  IsPeerTable, IsPeerTable-set, save_peer-IsPeerTable, get_group_peers_from_kv-eq,
}
use bftraft4go.Leader.{alpha_group}
use bftraft4go.Groups.{get_group_from_kv, new_rt_group, set_onboard_group, get_onboard_group}
use bftraft4go.Groups.Stored.{get-set, load_host-save_host}
use bftraft4go.Alpha.Saves.{
  save_group_txn-Wrote, save_peer-Wrote, save_host-Wrote, get-set_other, read_group,
}
use bftraft4go.Alpha.{
  this_host, this_peer, alpha_raft_group, save_group_txn, cold_saves, cold_start,
}

host_outside :
    (g t id : ℕ)
    → t < 2 ^ 32
    → t ≢ host_list
    → has_prefix (compose_key_prefix g t) (host_key id) ≡ false
unfolding host_key
host_outside g t id fits apart =
    has_prefix-table g host_list_group t host_list (u64_bytes id) fits (omega arith) apart

peer_outside :
    (g t h id : ℕ)
    → t < 2 ^ 32
    → t ≢ group_peers
    → has_prefix (compose_key_prefix g t) (peer_key h id) ≡ false
unfolding peer_key
peer_outside g t h id fits apart =
    has_prefix-table g h t group_peers (u64_bytes id) fits (omega arith) apart

group_outside :
    (g : ℕ)
    → has_prefix (compose_key_prefix g group_peers) (compose_key_prefix g group_meta) ≡ false
group_outside g =
    subst (λ (k : Bytes). has_prefix (compose_key_prefix g group_peers) k ≡ false)
      (append-nil (compose_key_prefix g group_meta))
      (has_prefix-table g g group_peers group_meta [] (omega arith) (omega arith) (ground arith))

module _ (w : World) where
  module _ (laws : IsWorld w) where
    -- A group, a peer of it and a host that are saved one after the other are there.
    pub record Founded (s : Server w) (group : RaftGroup) (peer : Peer) (host : Host) : Type 0 where
      pub stored_group : get_group_from_kv w s.db group.id ≡ some group
      pub peers : Map Peer
      pub stored_peers : get_group_peers_from_kv w s.db group.id ≡ done peers
      pub has_peer : lookup peer.id peers ≡ some peer
      pub stored_host : (load_host w s host.id).0 ≡ some host

    abbrev Steps : Server w → Server w → RaftGroup → Peer → Host → Type 0
    Steps s s' group peer host =
        (s1 : Server w) × (s2 : Server w) × (save_group_txn w s group ≡ ok s1)
        × (save_peer w s1 peer ≡ ok s2)
        × (save_host w s2 host ≡ ok s')

    cold_saves-Steps :
        (s s' : Server w) (group : RaftGroup) (peer : Peer) (host : Host)
        → cold_saves w group peer host s ≡ ok s'
        → Steps s s' group peer host
    unfolding cold_saves
    cold_saves-Steps s s' group peer host e = first (save_group_txn w s group) refl
      where
        second :
            (s1 : Server w) (q : Result (Server w))
            → save_group_txn w s group ≡ ok s1
            → save_peer w s1 peer ≡ q
            → Steps s s' group peer host
        second s1 (ok s2) one two = (s1, s2, one, two, rw two at (rw (one, cold_saves) at e))
        second s1 (err x) one two =
            let bad : err x ≡ ok s' = rw two at (rw (one, cold_saves) at e) in cc (bad)

        first : (q : Result (Server w)) → save_group_txn w s group ≡ q → Steps s s' group peer host
        first (ok s1) one = second s1 (save_peer w s1 peer) one refl
        first (err x) one = let bad : err x ≡ ok s' = rw (one, cold_saves) at e in cc (bad)

    cold_saves-Founded :
        (group : RaftGroup) (peer : Peer) (host : Host) (ps : List Peer) (s s' : Server w)
        → IsPeerTable w group.id s.db ps
        → peer.group ≡ group.id
        → peer.id < 2 ^ 64
        → cold_saves w group peer host s ≡ ok s'
        → Founded s' group peer host
    unfolding cold_saves
    cold_saves-Founded group peer host ps s s' table own fits e =
        cold_of (cold_saves-Steps s s' group peer host e)
      where
        cold_of : Steps s s' group peer host → Founded s' group peer host
        cold_of (s1, s2, saved1, saved2, saved3) =
            let (bytes, marshalled, wrote1) = save_group_txn-Wrote w s s1 group saved1 in
            let (bytes2, wrote2) = save_peer-Wrote w s1 s2 peer saved2 in
            let (bytes3, wrote3) = save_host-Wrote w s2 s' host saved3 in
            let prefix = compose_key_prefix group.id group_meta in
            let group_at : w.get s'.db prefix ≡ found (some bytes) =
              get-set_other w laws s2.db s'.db prefix (host_key host.id) bytes3 wrote3.0
                (host_outside group.id group_meta host.id (omega arith) (ground arith))
              ∙ get-set_other w laws s1.db s2.db prefix (peer_key peer.group peer.id) bytes2
                  wrote2.0
                  (peer_outside group.id group_meta peer.group peer.id (omega arith) (ground arith))
              ∙ get-set w laws s.db s1.db prefix bytes wrote1.0 in
            let table1 =
              IsPeerTable-set w laws group.id s.db s1.db ps prefix bytes table wrote1.0
                (group_outside group.id) in
            let table2 =
              save_peer-IsPeerTable w laws group.id s1 s2 peer ps table1 own fits saved2 in
            let table3 =
              IsPeerTable-set w laws group.id s2.db s'.db (put_peer peer ps) (host_key host.id)
                bytes3 table2 wrote3.0
                (host_outside group.id group_peers host.id (omega arith) (ground arith)) in
            record {
              stored_group = read_group w laws s'.db group bytes marshalled group_at;
              peers = insert_all (put_peer peer ps) [];
              stored_peers =
                  get_group_peers_from_kv-eq w laws group.id s'.db (put_peer peer ps) table3;
              has_peer =
                  unfold lookup in
                  ground (
                    arith,
                    lookup-insert_all peer.id (put_peer peer ps) [] table3.ascending,
                    find_peer-put_peer peer.id peer ps,
                  );
              stored_host = load_host-save_host w laws s2 s' host saved3;
            }

    -- In a world that keeps its laws, where the database holds the peers of the alpha group as a
    -- table and the node's id is a uint64: if `ColdStart` does not end the process, the alpha
    -- group, the node as its peer and the node's host are then what is read from the database, and
    -- the alpha group is on board with the node as its leader and only peer.
    pub cold_start-Founded :
        (marshal_key : w.PublicKey → Option Bytes) (address : Bytes) (now : ℕ) (s : Server w)
        (onboard : Map RtGroup) (ps : List Peer) (r : Server w × Map RtGroup × List Bytes)
        → IsPeerTable w alpha_group s.db ps
        → s.id < 2 ^ 64
        → cold_start w marshal_key address now s onboard ≡ done r
        → Founded r.0 alpha_raft_group (this_peer w s) (this_host w marshal_key address s)
          × (get_onboard_group r.1 alpha_group
              ≡ some (new_rt_group now s.id ((s.id, this_peer w s) ∷ []) alpha_raft_group leader))
    unfolding cold_start this_peer set_onboard_group get_onboard_group new_rt_group
    cold_start-Founded marshal_key address now s onboard ps r table fits e =
        go (cold_saves w alpha_raft_group (this_peer w s) (this_host w marshal_key address s) s)
          refl
      where
        Booted : Server w × Map RtGroup × List Bytes → Type 0
        Booted r =
            Founded r.0 alpha_raft_group (this_peer w s) (this_host w marshal_key address s)
            × (get_onboard_group r.1 alpha_group
                ≡ some (new_rt_group now s.id ((s.id, this_peer w s) ∷ []) alpha_raft_group leader))

        go :
            (q : Result (Server w))
            → cold_saves w alpha_raft_group (this_peer w s) (this_host w marshal_key address s) s
              ≡ q
            → Booted r
        go (err x) saved = let bad : panicked ≡ done r = rw (saved, cold_start) at e in cc (bad)
        go (ok s') saved = along_done Booted _ r (rw (saved, cold_start) at e) (
          cold_saves-Founded alpha_raft_group (this_peer w s) (this_host w marshal_key address s) ps
              s s' table refl fits saved,
          lookup-insert_self alpha_group _ onboard,
        )
