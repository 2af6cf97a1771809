-- ===== src/Vote/Quorum.antt =====
-- Quorums of voters: what an accepted leader has, what two accepted leaders share, and what the
-- votes do not bind.
use mathlib.Core.Path.{fun_ext}
use bftraft4go.Prelude.{
  ℕ, ◌*◌, ◌≤◌, ◌<◌, ◌≡◌, refl, ap, ap₂, sym, ◌∙◌, subst, Bool, true, false, some, List, [], ◌∷◌,
  arith, Map, Elem, All, lookup, keys, length, ltb, leb, leb→le, le→leb, Bool-cases, inl, inr,
}
use bftraft4go.Prelude.Distinct.{IsDistinct, pigeonhole, length-keys, keys-IsDistinct, lookup→key}
use bftraft4go.Messages.{RequestVoteResponse, AppendEntriesRequest, Peer}
use bftraft4go.Outcome.{done, ◌>>=◌, >>=-eq-done}
use bftraft4go.World.{World}
use bftraft4go.Consensus.{expected_players}
use bftraft4go.Consensus.Counting.{expected_players-majority}
use bftraft4go.Server.{Server, RtGroup, follower, expected_honest_peers}
use bftraft4go.Vote.{check_vote, take_vote, count_votes, follow, become_follower}
use bftraft4go.Vote.Requests.{HasVote, count_votes_sound}

module _ (w : World) where
  -- A quorum of different peers has voted for the sender of the request.
  pub record Elected (s : Server w) (m : RtGroup) (req : AppendEntriesRequest) : Type 0 where
    pub voters : List ℕ
    pub distinct : IsDistinct voters
    pub enough : expected_honest_peers m ≤ length voters
    pub voted : (id : ℕ) → Elem id voters → HasVote w m req s req.quorum_votes id

  -- What is changed in a group that follows a new leader.
  pub record Follows (m m' : RtGroup) (req : AppendEntriesRequest) : Type 0 where
    pub role : m'.role ≡ follower
    pub leader : m'.leader_id ≡ req.leader_id
    pub term : m'.group.term ≡ req.term
    pub group_id : m'.group.id ≡ m.group.id
    pub peers : m'.group_peers ≡ m.group_peers
    pub no_vote : m'.last_voted_to ≡ 0

  of_key :
      (P : ℕ → Type 0) (votes : Map Bool)
      → All (λ (e : ℕ × Bool). P e.0) votes
      → (id : ℕ) → Elem id (keys votes)
      → P id
  unfolding keys
  of_key P [] all id e = elim e [ ]
  of_key P ((k, b) ∷ votes) all id (inl e) = subst P (sym e) all.0
  of_key P ((k, b) ∷ votes) all id (inr e) = of_key P votes all.1 id e

  module _ (now draw : ℕ) (s : Server w) (m : RtGroup) (req : AppendEntriesRequest) where
    counted :
        {s' : Server w} {m' : RtGroup}
        → become_follower w now draw s m req ≡ done (true, s', m')
        → (r : Map Bool × Server w) × (count_votes w s m req req.quorum_votes [] ≡ done r)
          × (follow w now draw m req r ≡ (true, s', m'))
    unfolding become_follower
    counted {s'} {m'} e =
        elim (Bool-cases (ltb (length req.quorum_votes) (expected_honest_peers m))) [
          | inl few ↦ let e' : done (false, s, m) ≡ done (true, s', m') = rw few at e in cc (e')
          | inr many ↦
              let (r, c, end) =
                >>=-eq-done (count_votes w s m req req.quorum_votes []) _ (rw many at e) in
              (r, c, cc (end))
        ]

    pub followed :
        (r : Map Bool × Server w) (s' : Server w) (m' : RtGroup)
        → follow w now draw m req r ≡ (true, s', m')
        → (expected_honest_peers m ≤ length r.0) × Follows m m' req
    unfolding follow
    followed r s' m' e = elim (Bool-cases (leb (expected_honest_peers m) (length r.0))) [
      | inl enough ↦ (
        leb→le _ _ enough,
        subst (λ n. Follows m n req) (ap (λ (t : Bool × Server w × RtGroup). t.2) (rw enough at e))
            (record {
              role = refl;
              leader = refl;
              term = refl;
              group_id = refl;
              peers = refl;
              no_vote = refl;
            }),
      )
      | inr few ↦ let e' : (false, r.1, m) ≡ (true, s', m') = rw few at e in cc (e')
    ]

    -- If `BecomeFollower` accepts a leader, then a quorum of different peers of the group
    -- (`ExpectedHonestPeers`) each have a vote in the request that is granted, for the sender and
    -- this group, and verified under the key that the node holds for the peer; and the group then
    -- is a follower of the sender at the term of the request, with the same number and peers and
    -- no vote of its own.
    pub become_follower-Elected :
        {s' : Server w} {m' : RtGroup}
        → become_follower w now draw s m req ≡ done (true, s', m')
        → Elected s m req × Follows m m' req
    become_follower-Elected {s'} {m'} e =
        let (r, counting, end) = counted e in
        let (unique, all, same) =
          count_votes_sound w m req (HasVote w m req s req.quorum_votes) s r.1 req.quorum_votes []
            r.0 (λ id h. h) counting tt tt in
        (
          record {
            voters = keys r.0;
            distinct = keys-IsDistinct r.0 unique;
            enough = omega (arith, length-keys r.0, (followed r s' m' end).0);
            voted = of_key (HasVote w m req s req.quorum_votes) r.0 all;
          },
          (followed r s' m' end).1,
        )

    take_vote-any_term :
        (t : ℕ) (u : Server w) (vote : RequestVoteResponse) (acc : Map Bool)
        → take_vote w u m (record req { term = t }) vote acc ≡ take_vote w u m req vote acc
    unfolding take_vote check_vote
    take_vote-any_term t u vote acc = refl

    count_votes-any_term :
        (t : ℕ) (u : Server w) (votes : List RequestVoteResponse) (acc : Map Bool)
        → count_votes w u m (record req { term = t }) votes acc ≡ count_votes w u m req votes acc
    unfolding count_votes
    count_votes-any_term t u [] acc = refl
    count_votes-any_term t u (vote ∷ votes) acc =
        ap₂ ◌>>=◌ (take_vote-any_term t u vote acc)
          (fun_ext λ r. count_votes-any_term t r.1 votes r.0)

    many_votes :
        {s' : Server w} {m' : RtGroup}
        → become_follower w now draw s m req ≡ done (true, s', m')
        → ltb (length req.quorum_votes) (expected_honest_peers m) ≡ false
    unfolding become_follower
    many_votes {s'} {m'} e =
        elim (Bool-cases (ltb (length req.quorum_votes) (expected_honest_peers m))) [
          | inl few ↦ let e' : done (false, s, m) ≡ done (true, s', m') = rw few at e in cc (e')
          | inr many ↦ many
        ]

  -- `BecomeFollower` with enough counted votes.
  pub follow_enough :
      (now draw : ℕ) (m : RtGroup) (req : AppendEntriesRequest) (r : Map Bool × Server w)
      → expected_honest_peers m ≤ length r.0
      → (s'' : Server w) × (m'' : RtGroup) × (follow w now draw m req r ≡ (true, s'', m''))
        × (m''.group.term ≡ req.term)
        × (m''.leader_id ≡ req.leader_id)
  unfolding follow
  follow_enough now draw m req r enough =
      let f = follow w now draw m req r in
      let reached = le→leb _ _ enough in
      (f.1, f.2, ap (λ (b : Bool). (b, f.1, f.2)) (rw reached), rw reached, rw reached)

  -- The votes do not bind a term: if `BecomeFollower` accepts a request, it accepts the request
  -- with any other term too, and the group then is at that term under the sender.
  pub become_follower-any_term :
      (now draw : ℕ) (s : Server w) (m : RtGroup) (req : AppendEntriesRequest) (t : ℕ)
      {s' : Server w} {m' : RtGroup}
      → become_follower w now draw s m req ≡ done (true, s', m')
      → (s'' : Server w) × (m'' : RtGroup) × (become_follower w now draw s m
            (record req { term = t })
          ≡ done (true, s'', m''))
        × (m''.group.term ≡ t)
        × (m''.leader_id ≡ req.leader_id)
  unfolding become_follower
  become_follower-any_term now draw s m req t {s'} {m'} e =
      let (r, counting, end) = counted now draw s m req e in
      let enough = (followed now draw s m req r s' m' end).0 in
      let (s'', m'', f, term, leader) =
        follow_enough now draw m (record req { term = t }) r enough in
      (
        s'',
        m'',
        rw (many_votes now draw s m req e) (
            rw (count_votes-any_term now draw s m req t s req.quorum_votes [] ∙ counting)
              (ap done f)),
        term,
        leader,
      )

  quorum_half : (m : RtGroup) → length m.group_peers < 2 * expected_honest_peers m
  unfolding expected_honest_peers
  quorum_half m = expected_players-majority (length m.group_peers)

  shared_voter :
      (s1 s2 : Server w) (m1 m2 : RtGroup) (req1 req2 : AppendEntriesRequest)
      → ((k : ℕ) (p : Peer) → lookup k m1.group_peers ≡ some p → p.id ≡ k)
      → m2.group_peers ≡ m1.group_peers
      → Elected s1 m1 req1
      → Elected s2 m2 req2
      → (id : ℕ) × HasVote w m1 req1 s1 req1.quorum_votes id
        × HasVote w m2 req2 s2 req2.quorum_votes id
  shared_voter s1 s2 m1 m2 req1 req2 keyed same_peers e1 e2 =
      let (id, in1, in2) =
        pigeonhole e1.voters e2.voters (keys m1.group_peers) e1.distinct e2.distinct
          (λ id at. member m1 req1 s1 refl id (e1.voted id at))
          (λ id at. member m2 req2 s2 same_peers id (e2.voted id at))
          (omega (arith, length-keys m1.group_peers, quorum_half m1, same_quorum)) in
      (id, e1.voted id in1, e2.voted id in2)
    where
      same_quorum : expected_honest_peers m2 ≡ expected_honest_peers m1
      same_quorum =
          unfold expected_honest_peers in
          ap (λ (ps : Map Peer). expected_players (length ps)) same_peers

      member :
          (m : RtGroup) (req : AppendEntriesRequest) (s : Server w)
          → m.group_peers ≡ m1.group_peers
          → (id : ℕ) → HasVote w m req s req.quorum_votes id
          → Elem id (keys m1.group_peers)
      member m req s same id (vote, at, v) =
          let found =
            subst (λ (ps : Map Peer). lookup vote.voter ps ≡ some v.peer) same v.is_peer in
          subst (λ (k : ℕ). Elem k (keys m1.group_peers))
            (sym (keyed vote.voter v.peer found) ∙ v.peer_id)
            (lookup→key vote.voter v.peer m1.group_peers found)

  -- If two nodes with the same peers in a group, each stored under its own id, accept a leader
  -- each, at whatever terms, then some peer has voted for both.
  pub become_follower-shared_voter :
      (now1 draw1 now2 draw2 : ℕ) (s1 s2 : Server w) (m1 m2 : RtGroup)
      (req1 req2 : AppendEntriesRequest) {s1' s2' : Server w} {m1' m2' : RtGroup}
      → ((k : ℕ) (p : Peer) → lookup k m1.group_peers ≡ some p → p.id ≡ k)
      → m2.group_peers ≡ m1.group_peers
      → become_follower w now1 draw1 s1 m1 req1 ≡ done (true, s1', m1')
      → become_follower w now2 draw2 s2 m2 req2 ≡ done (true, s2', m2')
      → (id : ℕ) × HasVote w m1 req1 s1 req1.quorum_votes id
        × HasVote w m2 req2 s2 req2.quorum_votes id
  become_follower-shared_voter now1 draw1 now2 draw2 s1 s2 m1 m2 req1 req2 keyed same_peers a1 a2 =
      shared_voter s1 s2 m1 m2 req1 req2 keyed same_peers
        (become_follower-Elected now1 draw1 s1 m1 req1 a1).0
        (become_follower-Elected now2 draw2 s2 m2 req2 a2).0
