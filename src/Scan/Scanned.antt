-- ===== src/Scan/Scanned.antt =====
-- What `ScanHostedGroups` finds.
use bftraft4go.Prelude.{
  ℕ, ◌+◌, ◌≤◌, ◌<◌, ◌≡◌, refl, sym, ap, ◌∙◌, subst, true, none, some, List, [], ◌∷◌, arith, ==_iff,
  ltb, ◌==◌, if◌then◌else◌, length, Map, lookup, insert, lookup-insert, Bool-cases, Option-cases,
  inl, inr,
}
use bftraft4go.Encoding.{u32_bytes}
use bftraft4go.Messages.{Peer, Host, RaftGroup}
use bftraft4go.Outcome.{done, panicked, >>=-eq-done, along_done}
use bftraft4go.World.{World}
use bftraft4go.World.Keyed.{Item, seek, has_prefix}
use bftraft4go.Store.{group_peers}
use bftraft4go.Server.{Server, RtGroup, follower}
use bftraft4go.Hosts.{get_host}
use bftraft4go.Hosts.KeyViews.{get_host-SameKeys}
use bftraft4go.Peers.{get_group_peers_from_kv}
use bftraft4go.Groups.{new_rt_group, get_group_from_kv, hosts_of_peers, get_group_hosts}
use bftraft4go.Scan.{scan_peer, scan_peers, board_all, scan_hosted_groups}

module _ (w : World) where
  -- The walk over the peers of a group changes neither the database nor the id of the node, and
  -- finds a host for each peer at most.
  abbrev pub SameStore : Server w → Server w → Type 0
  SameStore s t = (t.db ≡ s.db) × (t.id ≡ s.id)

  pub hosts_of_peers-SameStore :
      (peers : List (ℕ × Peer)) (s : Server w) → SameStore s (hosts_of_peers w peers s).1
  unfolding hosts_of_peers
  hosts_of_peers-SameStore [] s = (refl, refl)
  hosts_of_peers-SameStore ((i, peer) ∷ peers) s =
      let one = get_host-SameKeys w s peer.id in
      let rest = hosts_of_peers-SameStore peers (get_host w s peer.id).1 in
      (rest.0 ∙ one.db, rest.1 ∙ one.id)

  length-hosts_of_peers :
      (peers : List (ℕ × Peer)) (s : Server w) → length (hosts_of_peers w peers s).0 ≤ length peers
  unfolding hosts_of_peers
  length-hosts_of_peers [] s = omega arith
  length-hosts_of_peers ((i, peer) ∷ peers) s =
      ground (arith, length-hosts_of_peers peers (get_host w s peer.id).1)

  module _ (visits : Map Peer → Map Peer) (now server_id : ℕ) (s0 : Server w) where
    -- A group as it is taken on board from the database.
    pub record FromDb (g : ℕ) (m : RtGroup) : Type 0 where
      pub role : m.role ≡ follower
      pub timeout : m.timeout ≡ now + 60000
      pub group : get_group_from_kv w s0.db g ≡ some m.group
      pub peers : get_group_peers_from_kv w s0.db g ≡ done m.group_peers
      pub lone : m.group.id ≡ g → length (visits m.group_peers) < 2 → m.leader_id ≡ s0.id

    abbrev pub AllFromDb : Map RtGroup → Type 0
    AllFromDb groups = (g : ℕ) (m : RtGroup) → lookup g groups ≡ some m → FromDb g m

    abbrev Sound : Map RtGroup × Server w → Type 0
    Sound r = SameStore s0 r.1 × AllFromDb r.0

    few_hosts :
        (s : Server w) (i : ℕ) (h : List Host × Server w) (peers : Map Peer)
        → get_group_hosts w visits s i ≡ done h
        → get_group_peers_from_kv w s.db i ≡ done peers
        → (SameStore s h.1) × (length h.0 ≤ length (visits peers))
    unfolding get_group_hosts
    few_hosts s i h peers e known =
        along_done
          (λ (r : List Host × Server w). SameStore s r.1 × (length r.0 ≤ length (visits peers)))
          (hosts_of_peers w (visits peers) s) h (rw known at e)
          (hosts_of_peers-SameStore (visits peers) s, length-hosts_of_peers (visits peers) s)

    hosts-SameStore :
        (s : Server w) (i : ℕ) (h : List Host × Server w)
        → get_group_hosts w visits s i ≡ done h
        → SameStore s h.1
    unfolding get_group_hosts
    hosts-SameStore s i h e =
        let (peers, known, rest) = >>=-eq-done (get_group_peers_from_kv w s.db i) _ e in
        (few_hosts s i h peers e known).0

    boarded-FromDb :
        (s : Server w) (g : ℕ) (group : RaftGroup) (h : List Host × Server w) (peers : Map Peer)
        → SameStore s0 s
        → get_group_from_kv w s.db g ≡ some group
        → get_group_hosts w visits s group.id ≡ done h
        → get_group_peers_from_kv w h.1.db g ≡ done peers
        → FromDb g
            (new_rt_group now (if ltb (length h.0) 2 then h.1.id else 0) peers group follower)
    unfolding new_rt_group
    boarded-FromDb s g group h peers same stored hosts known =
        let moved = hosts-SameStore s group.id h hosts in
        let at : get_group_peers_from_kv w s.db g ≡ done peers =
          ap (λ d. get_group_peers_from_kv w d g) (sym moved.0) ∙ known in
        record {
          role = refl;
          timeout = refl;
          group = ap (λ d. get_group_from_kv w d g) (sym same.0) ∙ stored;
          peers = ap (λ d. get_group_peers_from_kv w d g) (sym same.0) ∙ at;
          lone = λ own few.
              let fits =
                few_hosts s group.id h peers hosts (ap (get_group_peers_from_kv w s.db) own ∙ at) in
              let short : ltb (length h.0) 2 ≡ true = ground (arith, fits.1) in
              rw short (moved.1 ∙ same.1);
        }

    insert-AllFromDb :
        (k : ℕ) (n : RtGroup) (groups : Map RtGroup)
        → FromDb k n
        → AllFromDb groups
        → AllFromDb (insert k n groups)
    insert-AllFromDb k n groups new old g m at =
        let at' : (if k == g then some n else lookup g groups) ≡ some m =
          sym (lookup-insert k g n groups) ∙ at in
        elim (Bool-cases (k == g)) [
          | inl same ↦
              let eq : some n ≡ some m = rw same at at' in
              let n-eq : n ≡ m = cc (eq) in
              subst (λ i. FromDb i m) ((==_iff k g).0 same) (subst (FromDb k) n-eq new)
          | inr other ↦ old g m (rw other at at')
        ]

    scan_peer-Sound :
        (peer : Peer) (s : Server w) (groups : Map RtGroup) (r : Map RtGroup × Server w)
        → Sound (groups, s)
        → scan_peer w visits now server_id peer s groups ≡ done r
        → Sound r
    unfolding scan_peer
    scan_peer-Sound peer s groups r sound e = elim (Bool-cases (peer.id == server_id)) [
      | inr other ↦ along_done Sound (groups, s) r (rw other at e) sound
      | inl own ↦ elim (Option-cases (get_group_from_kv w s.db peer.group)) [
        | inl missing ↦ along_done Sound (groups, s) r (rw missing at (rw own at e)) sound
        | inr (group, stored) ↦
            let (h, hosts, rest) =
              >>=-eq-done (get_group_hosts w visits s group.id) _ (rw stored at (rw own at e)) in
            let (peers, known, last) =
              >>=-eq-done (get_group_peers_from_kv w h.1.db peer.group) _ rest in
            let moved = hosts-SameStore s group.id h hosts in
            along_done Sound _ r last (
              (moved.0 ∙ sound.0.0, moved.1 ∙ sound.0.1),
              insert-AllFromDb peer.group _ groups
                  (boarded-FromDb s peer.group group h peers sound.0 stored hosts known) sound.1,
            )
      ]
    ]

    scan_peers-Sound :
        (items : List Item) (s : Server w) (groups : Map RtGroup) (r : Map RtGroup × Server w)
        → Sound (groups, s)
        → scan_peers w visits now server_id items s groups ≡ done r
        → Sound r
    unfolding scan_peers
    scan_peers-Sound [] s groups r sound e = along_done Sound (groups, s) r e sound
    scan_peers-Sound ((key, none) ∷ items) s groups r sound e =
        elim (Bool-cases (has_prefix (u32_bytes group_peers) key)) [
          | inr out ↦ along_done Sound (groups, s) r (rw (out, scan_peers) at e) sound
          | inl under ↦ let bad : panicked ≡ done r = rw (under, scan_peers) at e in cc (bad)
        ]
    scan_peers-Sound ((key, some bytes) ∷ items) s groups r sound e =
        elim (Bool-cases (has_prefix (u32_bytes group_peers) key)) [
          | inr out ↦ along_done Sound (groups, s) r (rw (out, scan_peers) at e) sound
          | inl under ↦
              let (q, first, rest) =
                >>=-eq-done
                  (scan_peer w visits now server_id (w.peer_codec.unmarshal bytes).0 s groups) _
                  (rw (under, scan_peers) at e) in
              scan_peers-Sound items q.1 q.0 r
                (scan_peer-Sound (w.peer_codec.unmarshal bytes).0 s groups q sound first) rest
        ]

module _ (w : World) (visits : Map Peer → Map Peer) (now : ℕ) (s : Server w) (server_id : ℕ)
    (onboard : Map RtGroup) (r : Map RtGroup × Server w × Map RtGroup)
    (e : scan_hosted_groups w visits now s server_id onboard ≡ done r) where
  scanned :
      (q : Map RtGroup × Server w) × Sound w visits now server_id s q
      × (done (q.0, q.1, board_all q.0 onboard) ≡ done r)
  unfolding scan_hosted_groups
  scanned =
      let (q, found, rest) =
        >>=-eq-done
          (scan_peers w visits now server_id (seek (u32_bytes group_peers) (w.items s.db)) s [])
          (λ q. done (q.0, q.1, board_all q.0 onboard)) e in
      let none_yet : AllFromDb w visits now server_id s [] = λ g m at. unfold lookup in cc (at) in
      (
        q,
        scan_peers-Sound w visits now server_id s (seek (u32_bytes group_peers) (w.items s.db)) s []
            q ((refl, refl), none_yet) found,
        rest,
      )

  -- The scan changes neither the database nor the id of the node.
  pub scan_hosted_groups-SameStore : SameStore w s r.1
  scan_hosted_groups-SameStore =
      along_done (λ (t : Map RtGroup × Server w × Map RtGroup). SameStore w s t.1) _ r scanned.2
        scanned.1.0

  -- Each group that `ScanHostedGroups` returns is a follower with the content and the peers that
  -- the database has under its number and a timer of a minute; and where the content has that
  -- number and there are less than two peers to visit, the leader is the node itself.
  pub scan_hosted_groups-FromDb :
      (g : ℕ) (m : RtGroup) → lookup g r.0 ≡ some m → FromDb w visits now server_id s g m
  scan_hosted_groups-FromDb g m at =
      along_done
        (λ (t : Map RtGroup × Server w × Map RtGroup). AllFromDb w visits now server_id s t.0) _ r
        scanned.2 scanned.1.1 g m at
