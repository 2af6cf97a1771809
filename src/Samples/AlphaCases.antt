-- ===== src/Samples/AlphaCases.antt =====
-- The theorems on the table of peers and the membership commands at the small cluster.
use bftraft4go.Prelude.{
  ℕ, ◌≡◌, refl, true, some, List, [], ◌∷◌, arith, Bytes, ◌==◌, if◌then◌else◌, lookup, Map,
}
use bftraft4go.Messages.{Peer}
use bftraft4go.Outcome.{done, ok}
use bftraft4go.World.Keyed.{under_prefix}
use bftraft4go.Store.{peer_key}
use bftraft4go.Peers.{get_group_peers_from_kv, save_peer}
use bftraft4go.Peers.Table.{put_peer}
use bftraft4go.Peers.Stored.{IsPeerTable, save_peer-IsPeerTable, get_group_peers_from_kv-save_peer}
use bftraft4go.Follower.Appends.{IsQuiet}
use bftraft4go.Membership.Registry.{membership_funcs}
use bftraft4go.Membership.Quiet.{membership_funcs-IsQuiet}
use bftraft4go.Samples.Codecs.{encode_peer}
use bftraft4go.Samples.Small.{small, small-IsWorld, all_items}
use bftraft4go.Samples.Cluster.{node, peer}

empty-IsPeerTable : (g : ℕ) → IsPeerTable small g [] []
unfolding all_items under_prefix
empty-IsPeerTable g = record { stored = tt; ascending = tt }

abbrev peer_writes : List (Bytes × Bytes)
peer_writes = (peer_key 7 2, encode_peer (peer 2)) ∷ []

abbrev more_writes : List (Bytes × Bytes)
more_writes = (peer_key 7 3, encode_peer (peer 3)) ∷ peer_writes

saved :
    (p : ℕ) (db : List (Bytes × Bytes))
    → save_peer small (node db) (peer p) ≡ ok (node ((peer_key 7 p, encode_peer (peer p)) ∷ db))
unfolding save_peer
saved p db = refl

one-IsPeerTable : IsPeerTable small 7 peer_writes (put_peer (peer 2) [])
one-IsPeerTable =
    save_peer-IsPeerTable small small-IsWorld 7 (node []) (node peer_writes) (peer 2) []
      (empty-IsPeerTable 7) refl (omega arith) (saved 2 [])

get_group_peers_from_kv-save_peer_example :
    (before : Map Peer) × (after : Map Peer) × (get_group_peers_from_kv small peer_writes 7
      ≡ done before)
    × (get_group_peers_from_kv small more_writes 7 ≡ done after)
    × ((id : ℕ) → lookup id after ≡ (if 3 == id then some (peer 3) else lookup id before))
    × IsPeerTable small 7 more_writes (put_peer (peer 3) (put_peer (peer 2) []))
get_group_peers_from_kv-save_peer_example =
    get_group_peers_from_kv-save_peer small small-IsWorld 7 (node peer_writes) (node more_writes)
      (peer 3) (put_peer (peer 2) []) one-IsPeerTable refl (omega arith) (saved 3 peer_writes)

membership_funcs-IsQuiet_example :
    IsQuiet small 7 (membership_funcs small (λ k. 4) (λ b. some 7) (λ a. true) 5 [])
membership_funcs-IsQuiet_example =
    membership_funcs-IsQuiet small small-IsWorld 7 (λ k. 4) (λ b. some 7) (λ a. true) 5 []
