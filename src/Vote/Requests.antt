-- ===== src/Vote/Requests.antt =====
-- The votes that `BecomeFollower` counts in a request.
use bftraft4go.Prelude.{
  ℕ, ◌≡◌, refl, ap, sym, ◌⊎◌, ◌∙◌, subst, Bool, true, ◌&&◌, Option, none, some, List, [], ◌∷◌,
  arith, Map, IsUnique, insert-IsUnique, Elem, All, lookup, insert, ◌==◌, Bool-cases, Option-cases,
  inl, inr,
}
use bftraft4go.Messages.{RequestVoteResponse, AppendEntriesRequest, Peer}
use bftraft4go.Outcome.{done, >>=-eq-done}
use bftraft4go.World.{World}
use bftraft4go.SignData.{request_vote_response_sign_data}
use bftraft4go.Server.{Server, RtGroup, verify_sign}
use bftraft4go.Hosts.{get_host_public_key}
use bftraft4go.Hosts.KeyViews.{
  key_view, SameKeys, SameKeys-refl, SameKeys-trans, get_host_public_key-view,
}
use bftraft4go.Vote.{check_vote, take_vote, count_votes}

module _ (w : World) where
  -- Peer `id` of the group gave the sender of `req` a vote and signed it.
  pub record VotesFor (s : Server w) (m : RtGroup) (req : AppendEntriesRequest) (id : ℕ)
      (vote : RequestVoteResponse) : Type 0 where
    pub peer : Peer
    pub is_peer : lookup vote.voter m.group_peers ≡ some peer
    pub peer_id : peer.id ≡ id
    pub key : w.PublicKey
    pub has_key : key_view w s id ≡ done (some key)
    pub signed : verify_sign w key vote.signature (request_vote_response_sign_data vote) ≡ true
    pub same_group : vote.group ≡ m.group.id
    pub for_sender : vote.candidate_id ≡ req.leader_id
    pub granted : vote.granted ≡ true

  module _ (m : RtGroup) (req : AppendEntriesRequest) where
    check_vote_sound :
        (s : Server w) (vote : RequestVoteResponse) (peer : Peer) (k : Option w.PublicKey)
        (acc acc' : Map Bool)
        → lookup vote.voter m.group_peers ≡ some peer
        → key_view w s peer.id ≡ done k
        → check_vote w m req vote peer.id k acc ≡ done acc'
        → (acc' ≡ acc) ⊎ (VotesFor s m req peer.id vote × (acc' ≡ insert peer.id true acc))
    unfolding check_vote
    check_vote_sound s vote peer none acc acc' at seen e = cc
    check_vote_sound s vote peer (some key) acc acc' at seen e =
        elim (Bool-cases
          (verify_sign w key vote.signature (request_vote_response_sign_data vote))) [
            | inr bad ↦ inl (ground (arith, bad))
            | inl good ↦
                elim (Bool-cases (
                  (vote.group == m.group.id)
                  && ((vote.candidate_id == req.leader_id) && vote.granted))) [
                    | inr other ↦ inl (ground (arith, good, other))
                    | inl fits ↦ inr (
                      record {
                        peer = peer;
                        is_peer = at;
                        peer_id = refl;
                        key = key;
                        has_key = seen;
                        signed = good;
                        same_group = ground (arith, fits);
                        for_sender = ground (arith, fits);
                        granted = ground (arith, fits);
                      },
                      ground (arith, good, fits),
                    )
                  ]
          ]

    take_vote_sound :
        (s t : Server w) (vote : RequestVoteResponse) (acc acc' : Map Bool)
        → take_vote w s m req vote acc ≡ done (acc', t)
        → SameKeys w s t
          × ((acc' ≡ acc) ⊎ ((id : ℕ) × VotesFor s m req id vote × (acc' ≡ insert id true acc)))
    unfolding take_vote
    take_vote_sound s t vote acc acc' e = elim (Option-cases (lookup vote.voter m.group_peers)) [
      | inl nil ↦
          let e' : done (acc, s) ≡ done (acc', t) = rw (nil, take_vote) at e in
          (subst (SameKeys w s) (cc (e')) (SameKeys-refl w s), inl (cc (e')))
      | inr (peer, at) ↦
          let (got, g, rest) =
            >>=-eq-done (get_host_public_key w s peer.id) _ (rw (at, take_vote) at e) in
          let (votes, c, end) = >>=-eq-done (check_vote w m req vote peer.id got.0 acc) _ rest in
          elim (get_host_public_key-view w s peer.id) [
            | inl bad ↦ cc (g, bad.0)
            | inr (k, u, known) ↦
                let same : got ≡ (k, u) = cc (g, known.0) in
                (
                  subst (SameKeys w s)
                      (sym (ap (λ (r : Option w.PublicKey × Server w). r.1) same) ∙ cc (end))
                      known.2,
                  named peer (
                      check_vote_sound s vote peer k acc acc' at known.1 (
                        subst
                          (λ (r : Option w.PublicKey × Server w).
                            check_vote w m req vote peer.id r.0 acc ≡ done acc')
                          same (c ∙ cc (end)))),
                )
          ]
    ]
      where
        named :
            (peer : Peer)
            → (acc' ≡ acc) ⊎ (VotesFor s m req peer.id vote × (acc' ≡ insert peer.id true acc))
            → (acc' ≡ acc) ⊎ ((id : ℕ) × VotesFor s m req id vote × (acc' ≡ insert id true acc))
        named peer (inl same) = inl same
        named peer (inr new) = inr (peer.id, new.0, new.1)

    -- Every key of the map of votes is a peer with a vote in the request.
    abbrev pub HasVote : Server w → List RequestVoteResponse → ℕ → Type 0
    HasVote s votes id = (vote : RequestVoteResponse) × Elem vote votes × VotesFor s m req id vote

    HasVote-same :
        (s t : Server w) (votes : List RequestVoteResponse) (id : ℕ)
        → SameKeys w s t
        → HasVote t votes id
        → HasVote s votes id
    HasVote-same s t votes id same (vote, at, v) = (
      vote,
      at,
      record {
        peer = v.peer;
        is_peer = v.is_peer;
        peer_id = v.peer_id;
        key = v.key;
        has_key = sym (same.keys id) ∙ v.has_key;
        signed = v.signed;
        same_group = v.same_group;
        for_sender = v.for_sender;
        granted = v.granted;
      },
    )

    All-insert :
        (P : ℕ → Type 0) (k : ℕ) (acc : Map Bool)
        → P k
        → All (λ (e : ℕ × Bool). P e.0) acc
        → All (λ (e : ℕ × Bool). P e.0) (insert k true acc)
    unfolding insert
    All-insert P k [] p h = (p, tt)
    All-insert P k ((j, b) ∷ acc) p h = elim (Bool-cases (j == k)) [
      | inl same ↦ rw same (p, h.1)
      | inr other ↦ rw other (h.0, All-insert P k acc p h.1)
    ]

    pub count_votes_sound :
        (P : ℕ → Type 0) (s t : Server w) (votes : List RequestVoteResponse) (acc acc' : Map Bool)
        → ((id : ℕ) → HasVote s votes id → P id)
        → count_votes w s m req votes acc ≡ done (acc', t)
        → IsUnique acc
        → All (λ (e : ℕ × Bool). P e.0) acc
        → IsUnique acc' × All (λ (e : ℕ × Bool). P e.0) acc' × SameKeys w s t
    unfolding count_votes
    count_votes_sound P s t [] acc acc' intro e unique all =
        subst
          (λ (r : Map Bool × Server w).
            IsUnique r.0 × All (λ (e : ℕ × Bool). P e.0) r.0 × SameKeys w s r.1)
          (cc (e)) (unique, all, SameKeys-refl w s)
    count_votes_sound P s t (vote ∷ votes) acc acc' intro e unique all =
        let (r, first, rest) = >>=-eq-done (take_vote w s m req vote acc) _ e in
        let (same, step) = take_vote_sound s r.1 vote acc r.0 first in
        let (u, a, later) =
          count_votes_sound P r.1 t votes r.0 acc'
            (λ id h. let (v, at, x) = HasVote-same s r.1 votes id same h in intro id (v, inr at, x))
            rest
            (elim step [
              | inl old ↦ rw old unique
              | inr new ↦ rw (new.2) (insert-IsUnique new.0 true acc unique)
            ])
            (elim step [
              | inl old ↦ rw old all
              | inr new ↦
                  rw (new.2) (All-insert P new.0 acc (intro new.0 (vote, inl refl, new.1)) all)
            ]) in
        (u, a, SameKeys-trans w s r.1 t same later)
