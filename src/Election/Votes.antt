-- ===== src/Election/Votes.antt =====
-- What a candidate counts as a vote, and who answers its request: not the candidate itself.
use bftraft4go.Prelude.{
  ℕ, ◌+◌, ◌%◌, ◌^◌, ◌≤◌, ◌<◌, ◌≡◌, refl, ap, sym, ◌∙◌, subst, Bool, true, false, Option, none, some,
  List, [], ◌∷◌, arith, leb, leb→le, Bool-cases, inl, inr, ◌⊎◌,
}
use native.Mathlib.Nat.{mod-eq_of_lt}
use bftraft4go.Messages.{LogEntry, RequestVoteRequest, RequestVoteResponse}
use bftraft4go.Outcome.{done, panicked, >>=-eq-done, along_done}
use bftraft4go.World.{World}
use bftraft4go.SignData.{request_vote_response_sign_data}
use bftraft4go.Server.{Server, RtGroup, verify_sign}
use bftraft4go.Hosts.{get_host_public_key}
use bftraft4go.Hosts.KeyViews.{key_view, SameKeys, get_host_public_key-view}
use bftraft4go.Vote.{reset_term}
use bftraft4go.Log.{last_log_entry}
use bftraft4go.Ballot.{interval_count, refuses, no_vote, request_vote}
use bftraft4go.Ballot.Grants.{Free, IsFair, Granted, request_vote_complete}
use bftraft4go.Election.{Ballot, candidate_request, judge_ballot, usable, gather_votes, stand}

module _ (w : World) where
  -- A vote: the answer of a peer that is granted, for a log no longer than the candidate's, under
  -- a signature of the peer that was asked.
  pub record IsVote (s : Server w) (last : LogEntry) (ballot : Ballot) : Type 0 where
    pub key : w.PublicKey
    pub has_key : key_view w s ballot.0 ≡ done (some key)
    pub signed :
        verify_sign w key ballot.1.signature (request_vote_response_sign_data ballot.1) ≡ true
    pub granted : ballot.1.granted ≡ true
    pub caught_up : ballot.1.log_index ≤ last.index

  -- The answers that are votes, each once and in the order of arrival.
  abbrev pub Counted : Server w → LogEntry → List Ballot → List RequestVoteResponse → Type 0
  Counted s last [] votes = votes ≡ []
  Counted s last (ballot ∷ ballots) votes =
      (IsVote s last ballot
        × (rest : List RequestVoteResponse) × (votes ≡ ballot.1 ∷ rest)
        × Counted s last ballots rest)
      ⊎ ((¬ IsVote s last ballot) × Counted s last ballots votes)

  module _ (last : LogEntry) where
    abbrev Judged : Server w → Ballot → Bool → Type 0
    Judged s ballot b =
        ((b ≡ true) × IsVote s last ballot) ⊎ ((b ≡ false) × (¬ IsVote s last ballot))

    verified :
        (s : Server w) (ballot : Ballot) (key : w.PublicKey)
        → key_view w s ballot.0 ≡ done (some key)
        → IsVote s last ballot
        → verify_sign w key ballot.1.signature (request_vote_response_sign_data ballot.1) ≡ true
    verified s ballot key known vote =
        let same : key ≡ vote.key = cc (known, vote.has_key) in
        subst
          (λ k.
            verify_sign w k ballot.1.signature (request_vote_response_sign_data ballot.1) ≡ true)
          (sym same) vote.signed

    judge_ballot_sound :
        (s : Server w) (ballot : Ballot) (r : Bool × Server w)
        → judge_ballot w (some last) s ballot ≡ done r
        → SameKeys w s r.1 × Judged s ballot r.0
    unfolding judge_ballot usable
    judge_ballot_sound s (node_id, vote) r e =
        let Fine : Bool × Server w → Type 0 =
          λ t. SameKeys w s t.1 × Judged s (node_id, vote) t.0 in
        let (got, looked, rest) = >>=-eq-done (get_host_public_key w s node_id) _ e in
        elim (get_host_public_key-view w s node_id) [
          | inl bad ↦ cc (looked, bad.0)
          | inr (none, t, known) ↦
              let nil : got.0 ≡ none = cc (looked, known.0) in
              let e' : panicked ≡ done r = rw nil at rest in cc (e')
          | inr (some key, t, known) ↦
              let same : got ≡ (some key, t) = cc (looked, known.0) in
              let at : got.0 ≡ some key = ap (λ (p : Option w.PublicKey × Server w). p.0) same in
              let kept : SameKeys w s got.1 =
                subst (λ (p : Option w.PublicKey × Server w). SameKeys w s p.1) (sym same)
                  known.2 in
              elim (Bool-cases
                (verify_sign w key vote.signature (request_vote_response_sign_data vote))) [
                  | inr forged ↦
                      along_done Fine (false, got.1) r (rw forged at (rw at at rest))
                        (
                          kept,
                          inr (refl, λ v. cc (forged, verified s (node_id, vote) key known.1 v)),
                        )
                  | inl signed ↦ elim (Bool-cases vote.granted) [
                    | inr no_vote ↦
                        along_done Fine (false, got.1) r
                          (rw no_vote at (rw signed at (rw at at rest)))
                          (kept, inr (refl, λ v. cc (no_vote, v.granted)))
                    | inl granted ↦
                        along_done Fine (leb vote.log_index last.index, got.1) r
                          (rw granted at (rw signed at (rw at at rest)))
                          (
                            kept,
                            elim (Bool-cases (leb vote.log_index last.index)) [
                              | inr longer ↦ inr (longer, λ v. ground (arith, longer, v.caught_up))
                              | inl short ↦ inl (
                                short,
                                record {
                                  key = key;
                                  has_key = known.1;
                                  signed = signed;
                                  granted = granted;
                                  caught_up = leb→le _ _ short;
                                },
                              )
                            ],
                          )
                  ]
                ]
        ]

    IsVote-same :
        (s t : Server w)
        → ((j : ℕ) → key_view w t j ≡ key_view w s j)
        → (ballot : Ballot) → IsVote t last ballot
        → IsVote s last ballot
    IsVote-same s t keys ballot h = record {
      key = h.key;
      has_key = sym (keys ballot.0) ∙ h.has_key;
      signed = h.signed;
      granted = h.granted;
      caught_up = h.caught_up;
    }

    Counted-same :
        (s t : Server w)
        → SameKeys w s t
        → (ballots : List Ballot) (votes : List RequestVoteResponse) → Counted t last ballots votes
        → Counted s last ballots votes
    Counted-same s t same [] votes h = h
    Counted-same s t same (ballot ∷ ballots) votes (inl (vote, rest, first, h)) =
        inl
          (IsVote-same s t same.keys ballot vote, rest, first, Counted-same s t same ballots rest h)
    Counted-same s t same (ballot ∷ ballots) votes (inr (not_one, h)) = inr (
      λ vote. not_one (IsVote-same t s (λ j. sym (same.keys j)) ballot vote),
      Counted-same s t same ballots votes h,
    )

    -- Where the candidate's log has the last entry `last`: of the answers to its request
    -- `BecomeCandidate`, when it returns from gathering them, counts exactly those, each once and
    -- in the order of arrival, that are granted, are verified under the key that the node has of
    -- the peer that was asked, and name a log that is no longer than the candidate's.
    pub gather_votes_sound :
        (s : Server w) (ballots : List Ballot) (r : List RequestVoteResponse × Server w)
        → gather_votes w (some last) s ballots ≡ done r
        → Counted s last ballots r.0
    unfolding gather_votes
    gather_votes_sound s [] r e =
        along_done (λ (t : List RequestVoteResponse × Server w). t.0 ≡ []) ([], s) r e refl
    gather_votes_sound s (ballot ∷ ballots) r e =
        let Fine : List RequestVoteResponse × Server w → Type 0 =
          λ t. Counted s last (ballot ∷ ballots) t.0 in
        let (j, judged, rest) = >>=-eq-done (judge_ballot w (some last) s ballot) _ e in
        let (same, vote) = judge_ballot_sound s ballot j judged in
        let (q, gathered, end) = >>=-eq-done (gather_votes w (some last) j.1 ballots) _ rest in
        let others =
          Counted-same s j.1 same ballots q.0 (gather_votes_sound j.1 ballots q gathered) in
        elim vote [
          | inl (counts, is) ↦
              along_done Fine (ballot.1 ∷ q.0, q.1) r (rw counts at end)
                (inl (is, q.0, refl, others))
          | inr (left, not_one) ↦
              along_done Fine (q.0, q.1) r (rw left at end) (inr (not_one, others))
        ]

  -- The request of a peer that stands for election.
  abbrev pub asks : Server w → RtGroup → RequestVoteRequest
  asks s m = candidate_request w (stand w s m).0 (stand w s m).1

  -- Where a peer stands for election, with a next term that fits in a uint64 and a log with a last
  -- entry, `RequestVote` of the peer itself answers its request without a vote and writes nothing,
  -- whatever it would see in a wait; and each voter whose group has the term that the peer had
  -- before grants the request, where it has promised no later term, its log has a last entry with
  -- no greater index, and it is no follower at one of the first twenty looks.
  pub request_vote-candidate_request :
      (s : Server w) (m : RtGroup) (last : LogEntry)
      → m.group.term + 1 < 2 ^ 64
      → last_log_entry w m.group.id (stand w s m).0.db ≡ some last
      → (t : Server w) (v : RtGroup) (own_last : LogEntry)
      → last_log_entry w v.group.id t.db ≡ some own_last
      → v.group.term ≡ m.group.term
      → own_last.index ≤ last.index
      → v.last_voted_term ≤ m.group.term
      → (own later : ℕ → RtGroup) (look : ℕ)
      → (0 < look) × (look ≤ interval_count) × Free later look
      → (request_vote w (stand w s m).0 (stand w s m).1 own (asks s m)
          ≡ done (no_vote w (stand w s m).0 (stand w s m).1 last (asks s m), none))
        × (r : RequestVoteResponse × Option RtGroup) × (request_vote w t v later (asks s m)
            ≡ done r)
        × (r.0.granted ≡ true)
        × Granted w t v later (asks s m) r
  unfolding request_vote refuses candidate_request stand reset_term
  request_vote-candidate_request s m last fits at_last t v own_last at_own behind short untold own
        later look (lo, hi, free) =
      let (r, returns, agreed, granted) =
        request_vote_complete w t v later (asks s m) own_last at_own fair look lo hi free in
      (rw (at_last, request_vote) (rw (self last) refl), r, returns, agreed, granted)
    where
      raised : (m.group.term + 1) % 2 ^ 64 ≡ m.group.term + 1
      raised = mod-eq_of_lt fits

      index : (asks s m).log_index ≡ last.index
      index = ap (λ (o : Option LogEntry). elim o [ none ↦ 0 | some e ↦ e.index ]) at_last

      fair : IsFair v own_last (asks s m)
      fair = record {
        newer = omega (arith, behind, raised);
        caught_up = subst (λ n. own_last.index ≤ n) (sym index) short;
        near = omega (arith, behind, raised);
        not_promised = λ e. absurd (omega (arith, e, raised));
      }

      self : (e : LogEntry) → refuses (stand w s m).1 e (asks s m) ≡ true
      self e = ground arith
