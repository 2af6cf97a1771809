-- ===== src/Vote/Recognised.antt =====
-- When `BecomeFollower` accepts a leader: it returns, and a quorum of good votes is enough.
use bftraft4go.Prelude.{
  ℕ, suc, ◌+◌, ◌≤◌, ◌≡◌, refl, ap, sym, ◌∙◌, subst, Bool, true, false, ◌&&◌, none, some, List, [],
  ◌∷◌, arith, All, Map, Elem, lookup, insert, lookup-insert_ne, length, ltb, ◌==◌, inl, inr,
}
use bftraft4go.Prelude.Distinct.{IsDistinct}
use bftraft4go.Messages.{RequestVoteResponse, AppendEntriesRequest, Peer}
use bftraft4go.Outcome.{done}
use bftraft4go.World.{World}
use bftraft4go.SignData.{request_vote_response_sign_data}
use bftraft4go.Server.{Server, RtGroup, expected_honest_peers, verify_sign}
use bftraft4go.Hosts.KeyViews.{got_key, key_view, SameKeys}
use bftraft4go.Vote.{check_vote, take_vote, count_votes, become_follower}
use bftraft4go.Vote.Quorum.{Follows, follow_enough, followed}

length-insert_new :
    (k : ℕ) (v : Bool) (m : Map Bool) → lookup k m ≡ none → length (insert k v m) ≡ suc (length m)
unfolding lookup insert
length-insert_new k v [] new = refl
length-insert_new k v ((j, u) ∷ m) new = ground (arith, length-insert_new k v m)

abbrev pub voters : List RequestVoteResponse → List ℕ
voters [] = []
voters (vote ∷ votes) = vote.voter ∷ voters votes

module _ (w : World) (m : RtGroup) (req : AppendEntriesRequest) where
  -- A vote of a peer for the sender of the request, under the key that the node has of the peer.
  pub record GoodVote (s : Server w) (vote : RequestVoteResponse) : Type 0 where
    pub peer : Peer
    pub is_peer : lookup vote.voter m.group_peers ≡ some peer
    pub own_id : peer.id ≡ vote.voter
    pub key : w.PublicKey
    pub has_key : key_view w s vote.voter ≡ done (some key)
    pub signed : verify_sign w key vote.signature (request_vote_response_sign_data vote) ≡ true
    pub for_group : vote.group ≡ m.group.id
    pub for_sender : vote.candidate_id ≡ req.leader_id
    pub granted : vote.granted ≡ true

  GoodVote-SameKeys :
      (s t : Server w) (votes : List RequestVoteResponse)
      → SameKeys w s t
      → All (GoodVote s) votes
      → All (GoodVote t) votes
  GoodVote-SameKeys s t [] same good = tt
  GoodVote-SameKeys s t (vote ∷ votes) same good = (
    record {
      peer = good.0.peer;
      is_peer = good.0.is_peer;
      own_id = good.0.own_id;
      key = good.0.key;
      has_key = same.keys vote.voter ∙ good.0.has_key;
      signed = good.0.signed;
      for_group = good.0.for_group;
      for_sender = good.0.for_sender;
      granted = good.0.granted;
    },
    GoodVote-SameKeys s t votes same good.1,
  )

  take_vote-good :
      (s : Server w) (vote : RequestVoteResponse) (acc : Map Bool)
      → GoodVote s vote
      → (t : Server w) × (take_vote w s m req vote acc ≡ done (insert vote.voter true acc, t))
        × SameKeys w s t
  unfolding take_vote check_vote
  take_vote-good s vote acc good =
      let (t, got, same) = got_key w s vote.voter (some good.key) good.has_key in
      let fits : ((vote.group == m.group.id)
            && ((vote.candidate_id == req.leader_id) && vote.granted))
          ≡ true =
        ground (arith, good.for_group, good.for_sender, good.granted) in
      (
        t,
        rw (good.is_peer, take_vote)
            (rw (good.own_id, take_vote)
              (rw (got, take_vote) (rw (good.signed, check_vote) (rw (fits, check_vote) refl)))),
        same,
      )

  count_votes-good :
      (s : Server w) (votes : List RequestVoteResponse) (acc : Map Bool)
      → All (GoodVote s) votes
      → IsDistinct (voters votes)
      → ((id : ℕ) → Elem id (voters votes) → lookup id acc ≡ none)
      → (r : Map Bool × Server w) × (count_votes w s m req votes acc ≡ done r)
        × (length r.0 ≡ length acc + length votes)
  unfolding count_votes
  count_votes-good s [] acc good distinct new = ((acc, s), refl, omega arith)
  count_votes-good s (vote ∷ votes) acc good distinct new =
      let (t, taken, same) = take_vote-good s vote acc good.0 in
      let still_new : (id : ℕ)
          → Elem id (voters votes)
          → lookup id (insert vote.voter true acc) ≡ none =
        λ id among.
          lookup-insert_ne vote.voter id true acc
            (λ e. distinct.0 (subst (λ i. Elem i (voters votes)) (sym e) among))
          ∙ new id (inr among) in
      let (r, rest, long) =
        count_votes-good t votes (insert vote.voter true acc)
          (GoodVote-SameKeys s t votes same good.1) distinct.1 still_new in
      (
        r,
        rw taken rest,
        omega (arith, long, length-insert_new vote.voter true acc (new vote.voter (inl refl))),
      )

  -- If the request has as many votes as a quorum (`ExpectedHonestPeers`) or more, of different
  -- peers, each granted, for the sender and this group, and verified under the key that the node
  -- has of the voter, then `BecomeFollower` returns and accepts the leader, and the group then is
  -- a follower of the sender at the term of the request, with the same number and peers and no
  -- vote of its own.
  pub become_follower-Follows :
      (now draw : ℕ) (s : Server w)
      → All (GoodVote s) req.quorum_votes
      → IsDistinct (voters req.quorum_votes)
      → expected_honest_peers m ≤ length req.quorum_votes
      → (s' : Server w) × (m' : RtGroup) × (become_follower w now draw s m req
          ≡ done (true, s', m'))
        × Follows w m m' req
  unfolding become_follower lookup
  become_follower-Follows now draw s good distinct enough =
      let (r, counting, long) =
        count_votes-good s req.quorum_votes [] good distinct (λ id among. refl) in
      let many : ltb (length req.quorum_votes) (expected_honest_peers m) ≡ false = ground arith in
      let (s', m', f, term, leader) =
        follow_enough w now draw m req r (omega (arith, long, enough)) in
      (s', m', rw many (rw counting (ap done f)), (followed w now draw s m req r s' m' f).1)
