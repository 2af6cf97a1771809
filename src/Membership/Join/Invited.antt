-- ===== src/Membership/Join/Invited.antt =====
-- Who stands behind a node that has joined a group.
use bftraft4go.Prelude.{
  ℕ, ◌≤◌, ◌≡◌, ◌≢◌, refl, sym, ap, ◌∙◌, Option, none, some, List, [], ◌∷◌, Bytes, ◌==◌,
  if◌then◌else◌, length, Map, insert, Bool-cases, Option-cases, inl, inr, ◌⊎◌,
}
use bftraft4go.Messages.{Peer, Host, GroupInvitation}
use bftraft4go.Outcome.{
  done, panicked, ◌>>=◌, >>=-eq-done, along_done, GoError, remote_error, timeout, Result, ok, err,
  Result-cases,
}
use bftraft4go.World.{World}
use bftraft4go.Consensus.{expected_players, pick_majority}
use bftraft4go.Server.{Server, RtGroup, follower}
use bftraft4go.Peers.{get_group_peers_from_kv, save_peer}
use bftraft4go.Groups.{new_rt_group, set_onboard_group, get_group, get_group_hosts}
use bftraft4go.Scan.Scanned.{SameStore, hosts_of_peers-SameStore}
use bftraft4go.Membership.{new_peer}
use bftraft4go.Groups.Stored.{get_group-db}
use bftraft4go.Membership.Join.Taken.{Invited, no_invitations, wait_invitations-Invited}
use bftraft4go.Membership.Join.{hosts_map, Invitations, wait_invitations, join_as_peer, node_join}

module _ (w : World) where
  -- The group `g` that a node has taken on board when it joined: with the content that is known for
  -- the number, and the peers that the database has and the node itself. It follows the leader
  -- `picked`, or the number 0 where this is the node itself.
  pub record Boarded (s : Server w) (g picked : ℕ) (onboard : Map RtGroup)
      (r : Server w × Map RtGroup) : Type 0 where
    pub saved : save_peer w (get_group w s g).1 (new_peer s.id g) ≡ ok r.0
    pub m : RtGroup
    pub set : r.1 ≡ set_onboard_group onboard m
    pub content : (get_group w s g).0 ≡ some m.group
    pub peers : Map Peer
    pub stored : get_group_peers_from_kv w s.db g ≡ done peers
    pub members : m.group_peers ≡ insert s.id (new_peer s.id g) peers
    pub role : m.role ≡ follower
    pub leader : m.leader_id ≡ (if picked == s.id then 0 else picked)

  -- Where the node cannot save itself as a peer, nothing happens.
  pub record Unsaved (s : Server w) (g : ℕ) (onboard : Map RtGroup) (r : Server w × Map RtGroup)
      : Type 0 where
    pub error : GoError
    pub failed : save_peer w (get_group w s g).1 (new_peer s.id g) ≡ err error
    pub kept : (r.1 ≡ onboard) × (r.0.db ≡ s.db)

  join_as_peer-Boarded :
      (range : Map ℕ → Map ℕ) (now g : ℕ) (i : Invitations) (s : Server w) (onboard : Map RtGroup)
      (r : Server w × Map RtGroup)
      → join_as_peer w range now g i s onboard ≡ done r
      → Unsaved s g onboard r ⊎ Boarded s g (pick_majority range i.leaders) onboard r
  unfolding join_as_peer new_rt_group
  join_as_peer-Boarded range now g i s onboard r e =
      let Fine : Server w × Map RtGroup → Type 0 =
        λ t. Unsaved s g onboard t ⊎ Boarded s g (pick_majority range i.leaders) onboard t in
      let s' = (get_group w s g).1 in
      let (peers, read, rest) = >>=-eq-done (get_group_peers_from_kv w s'.db g) _ e in
      elim (Result-cases (save_peer w s' (new_peer s.id g))) [
        | inl (x, failed) ↦
            along_done Fine (s', onboard) r (rw failed at rest)
              (inl (record { error = x; failed = failed; kept = (refl, get_group-db w s g) }))
        | inr (t, saved) ↦ elim (Option-cases (get_group w s g).0) [
          | inl nil ↦ let bad : panicked ≡ done r = rw nil at (rw saved at rest) in cc (bad)
          | inr (group, known) ↦ along_done Fine _ r (rw known at (rw saved at rest)) (
              inr (record {
                m =
                    new_rt_group now (picked_leader s i) (insert s.id (new_peer s.id g) peers) group
                      follower;
                saved = saved;
                set = refl;
                content = known;
                peers = peers;
                stored = ap (λ d. get_group_peers_from_kv w d g) (sym (get_group-db w s g)) ∙ read;
                members = refl;
                role = refl;
                leader = refl;
              }))
        ]
      ]
    where
      picked_leader : Server w → Invitations → ℕ
      picked_leader s i =
          if pick_majority range i.leaders == s.id then 0 else pick_majority range i.leaders

  get_group_hosts-SameStore :
      (visits : Map Peer → Map Peer) (s : Server w) (g : ℕ) (h : List Host × Server w)
      → get_group_hosts w visits s g ≡ done h
      → SameStore w s h.1
  unfolding get_group_hosts
  get_group_hosts-SameStore visits s g h e =
      let (peers, known, rest) = >>=-eq-done (get_group_peers_from_kv w s.db g) _ e in
      along_done (λ t. SameStore w s t.1) _ h rest (hosts_of_peers-SameStore w (visits peers) s)

  module _ (range : Map ℕ → Map ℕ) (visits : Map Peer → Map Peer) (now g : ℕ)
      (invs : List GroupInvitation) (s : Server w) (onboard : Map RtGroup) where
    -- What a node that has joined knows of its invitations and of its group.
    pub record Admitted (r : Server w × Map RtGroup) : Type 0 where
      pub hosts : List Host × Server w
      pub invitations : Invitations
      pub known : get_group_hosts w visits s g ≡ done hosts
      pub same : SameStore w s hosts.1
      pub invited : Invited (hosts_map hosts.0 []) invs invitations
      pub enough : expected_players (length (hosts_map hosts.0 [])) ≤ length invitations.taken
      pub boarded :
          Unsaved hosts.1 g onboard r
          ⊎ Boarded hosts.1 g (pick_majority range invitations.leaders) onboard r

    abbrev Out : Type 0
    Out = Result (Unit {0}) × Server w × Map RtGroup

    never_err :
        (x : GoError) (t : Server w) (r : Out) → done (err x, t, onboard) ≡ done r → r.0 ≢ ok tt
    never_err x t r e = along_done (λ q. q.0 ≢ ok tt) _ r e (λ bad. cc (bad))

    abbrev waited : List Host × Server w → Option Invitations
    waited h =
        wait_invitations (hosts_map h.0 []) (expected_players (length (hosts_map h.0 []))) invs
          (record { taken = []; leaders = [] })

    after_wait :
        (h : List Host × Server w) (r : Out)
        → get_group_hosts w visits s g ≡ done h
        → (elim (waited h) [
          | none ↦ done (err timeout, h.1, onboard)
          | some i ↦ join_as_peer w range now g i h.1 onboard >>= λ t. done (ok tt, t.0, t.1)
        ])
          ≡ done r
        → r.0 ≡ ok tt
        → Admitted (r.1, r.2)
    after_wait h r known e joined = elim (Option-cases (waited h)) [
      | inl late ↦ absurd (never_err timeout h.1 r (rw late at e) joined)
      | inr (i, enough) ↦
          let (t, boarded, e') =
            >>=-eq-done (join_as_peer w range now g i h.1 onboard) _ (rw enough at e) in
          let got =
            wait_invitations-Invited (hosts_map h.0 []) invs _ invs
              (record { taken = []; leaders = [] }) i (λ inv among. among)
              (no_invitations (hosts_map h.0 []) invs) enough in
          let end = join_as_peer-Boarded range now g i h.1 onboard t boarded in
          record {
            hosts = h;
            invitations = i;
            known = known;
            same = get_group_hosts-SameStore visits s g h known;
            invited = got.0;
            enough = got.1;
            boarded =
                along_done
                  (λ q.
                    Unsaved h.1 g onboard (q.1, q.2)
                    ⊎ Boarded h.1 g (pick_majority range i.leaders) onboard (q.1, q.2))
                  (ok tt, t.0, t.1) r e' end;
          }
    ]

    -- If `NodeJoin` returns with no error, then it has taken at least a quorum (`ExpectedPlayers`)
    -- of the hosts of the group as invitations that arrived, each from another host of the group;
    -- and either `SavePeer` of the node fails, and the database and the groups on board are as
    -- they were; or the node has saved itself as a peer, and the group is on board with the
    -- content that the node has for its number and the peers that are stored and the node itself,
    -- as a follower of the leader that `PickMajority` finds among the leaders that these
    -- invitations name, in the order in which they were taken, but of the number 0 where that is
    -- the node itself.
    pub node_join-Invited :
        (res : Result Bytes) (r : Out)
        → node_join w range visits now g res invs s onboard ≡ done r
        → r.0 ≡ ok tt
        → Admitted (r.1, r.2)
    unfolding node_join
    node_join-Invited res r e joined = elim (Result-cases res) [
      | inl (x, failed) ↦ absurd (never_err x s r (rw (failed, node_join) at e) joined)
      | inr ([], empty) ↦ let bad : panicked ≡ done r = rw (empty, node_join) at e in cc (bad)
      | inr (first ∷ rest, told) ↦
          let e' = rw (told, node_join) at e in
          elim (Bool-cases (first == 1)) [
            | inr other ↦ absurd (never_err remote_error s r (rw other at e') joined)
            | inl one ↦
                let (h, known, e1) = >>=-eq-done (get_group_hosts w visits s g) _ (rw one at e') in
                after_wait h r known e1 joined
          ]
    ]
