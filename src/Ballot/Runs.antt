-- ===== src/Ballot/Runs.antt =====
-- The votes that one peer gives, one after the other (`VoteLock` keeps the calls apart).
use bftraft4go.Prelude.{
  ℕ, ◌+◌, ◌≤◌, ◌<◌, ◌≡◌, ◌≢◌, refl, ap, sym, ◌⊎◌, ◌∙◌, true, Option, some, List, [], ◌∷◌, arith,
  All, Option-cases, inl, inr,
}
use bftraft4go.Messages.{RaftGroup, RequestVoteRequest, RequestVoteResponse, LogEntry}
use bftraft4go.Outcome.{done, panicked}
use bftraft4go.World.{World}
use bftraft4go.Server.{Server, RtGroup}
use bftraft4go.Vote.{max_term_bump}
use bftraft4go.Log.{last_log_entry}
use bftraft4go.Ballot.{interval_count, request_vote}
use bftraft4go.Ballot.Grants.{Free, IsFair, request_vote_sound, request_vote_complete}

-- A vote that was given: the term and the candidate.
abbrev pub Given : Type 0
Given = ℕ × ℕ

-- The terms do not fall: the newest vote stands first.
abbrev pub Rises : List Given → Type 0
Rises [] = Unit
Rises (v ∷ vs) = All (λ (u : Given). u.0 ≤ v.0) vs × Rises vs

-- Votes for one term are for one candidate.
abbrev pub Unanimous : List Given → Type 0
Unanimous [] = Unit
Unanimous (v ∷ vs) = All (λ (u : Given). u.0 ≡ v.0 → u.1 ≡ v.1) vs × Unanimous vs

-- What the group remembers of the votes.
abbrev Remembers : RtGroup → List Given → Type 0
Remembers m [] = m.last_voted_to ≡ 0
Remembers m (v ∷ vs) = (m.last_voted_term ≡ v.0) × (m.last_voted_to ≡ v.1)

module _ (w : World) where
  -- The group after some votes. Between and during the calls of `RequestVote` all but the promise
  -- may change.
  pub data Voting : RtGroup → List Given → Type 1 where
    fresh : (m : RtGroup) → m.last_voted_to ≡ 0 → Voting m []
    drift :
        (m m' : RtGroup) (vs : List Given)
        → Voting m vs
        → m'.last_voted_to ≡ m.last_voted_to
        → m'.last_voted_term ≡ m.last_voted_term
        → Voting m' vs
    vote :
        (m m' : RtGroup) (vs : List Given)
        → Voting m vs
        → (s : Server w) (later : ℕ → RtGroup) (req : RequestVoteRequest)
          (r : RequestVoteResponse × Option RtGroup)
        → request_vote w s m later req ≡ done r
        → r.1 ≡ some m'
        → Voting m' ((req.term, req.candidate_id) ∷ vs)

  has_last :
      (s : Server w) (m : RtGroup) (later : ℕ → RtGroup) (req : RequestVoteRequest)
      (r : RequestVoteResponse × Option RtGroup)
      → request_vote w s m later req ≡ done r
      → (e : LogEntry) × (last_log_entry w m.group.id s.db ≡ some e)
  unfolding request_vote
  has_last s m later req r e = elim (Option-cases (last_log_entry w m.group.id s.db)) [
    | inl nil ↦ let bad : panicked ≡ done r = rw (nil, request_vote) at e in cc (bad)
    | inr (entry, last) ↦ (entry, last)
  ]

  -- A call that writes has been asked fairly, and writes the vote.
  wrote :
      (s : Server w) (m m' : RtGroup) (later : ℕ → RtGroup) (req : RequestVoteRequest)
      (r : RequestVoteResponse × Option RtGroup)
      → request_vote w s m later req ≡ done r
      → r.1 ≡ some m'
      → (req.term ≡ m.last_voted_term
          → (m.last_voted_to ≡ 0) ⊎ (m.last_voted_to ≡ req.candidate_id))
        × (m'.last_voted_term ≡ req.term)
        × (m'.last_voted_to ≡ req.candidate_id)
  wrote s m m' later req r e written =
      let (entry, last) = has_last s m later req r e in
      elim (request_vote_sound w s m later req entry last r e) [
        | inr (_, nothing) ↦ cc (written, nothing)
        | inl (_, fair, g) ↦
            let same : some (record (later g.look) {
              last_voted_to = req.candidate_id;
              last_voted_term = req.term;
            })
                ≡ some m' =
              sym g.written ∙ written in
            let m'_eq : record (later g.look) {
              last_voted_to = req.candidate_id;
              last_voted_term = req.term;
            }
                ≡ m' =
              cc (same) in
            (
              fair.not_promised,
              sym (ap (λ (n : RtGroup). n.last_voted_term) m'_eq),
              sym (ap (λ (n : RtGroup). n.last_voted_to) m'_eq),
            )
      ]

  Voting-Remembers : (m : RtGroup) (vs : List Given) → Voting m vs → Remembers m vs
  Voting-Remembers _ _ (fresh m unset) = unset
  Voting-Remembers _ _ (drift m0 m [] v to term) = to ∙ Voting-Remembers m0 [] v
  Voting-Remembers _ _ (drift m0 m (x ∷ vs) v to term) =
      let (t, c) = Voting-Remembers m0 (x ∷ vs) v in (term ∙ t, to ∙ c)
  Voting-Remembers _ _ (vote m0 m vs v s later req r e written) =
      let (_, t, c) = wrote s m0 m later req r e written in (t, c)

  older_agree :
      (t c : ℕ) (v : Given) (vs : List Given)
      → v.0 ≤ t
      → (t ≡ v.0 → v.1 ≡ c)
      → All (λ (u : Given). u.0 ≤ v.0) vs
      → All (λ (u : Given). u.0 ≡ v.0 → u.1 ≡ v.1) vs
      → All (λ (u : Given). u.0 ≡ t → u.1 ≡ c) vs
  older_agree t c v [] le agree low same = tt
  older_agree t c v (u ∷ vs) le agree low same = (
    λ e. same.0 (omega (arith, low.0)) ∙ agree (omega (arith, low.0)),
    older_agree t c v vs le agree low.1 same.1,
  )

  -- As long as the terms that a peer votes for do not fall, no candidate has the number 0, and
  -- nothing but `RequestVote` changes what it has promised, a peer gives all its votes for one
  -- term to one candidate.
  pub Voting-Unanimous :
      (m : RtGroup) (vs : List Given)
      → Voting m vs
      → Rises vs
      → All (λ (u : Given). u.1 ≢ 0) vs
      → Unanimous vs
  Voting-Unanimous _ _ (fresh m unset) rises real = tt
  Voting-Unanimous _ _ (drift m m' vs v to term) rises real = Voting-Unanimous m vs v rises real
  Voting-Unanimous _ _ (vote m m' [] v s later req r e written) rises real = (tt, tt)
  Voting-Unanimous _ _ (vote m m' (x ∷ vs) v s later req r e written) rises real =
      let older = Voting-Unanimous m (x ∷ vs) v rises.1 real.1 in
      let (t, c) = Voting-Remembers m (x ∷ vs) v in
      let (promise, _, _) = wrote s m m' later req r e written in
      let agree : req.term ≡ x.0 → x.1 ≡ req.candidate_id = λ same.
        elim (promise (omega (arith, same, t))) [
          | inl unset ↦ absurd (real.1.0 (omega (arith, unset, c)))
          | inr held ↦ omega (arith, held, c)
        ] in
      (
        (
          λ same. agree (omega (arith, same)),
          older_agree req.term req.candidate_id x vs rises.0.0 agree rises.1.0 older.0,
        ),
        older,
      )

  module _ (s2 s3 : Server w) (m : RtGroup) (later2 later3 : ℕ → RtGroup)
      (req2 req3 : RequestVoteRequest) where
    -- After a vote at a lower term the promised term is open again.
    reopened :
        (m2 : RtGroup) (last3 : LogEntry)
        → m2.group ≡ m.group
        → m2.last_voted_term ≡ req2.term
        → last_log_entry w m.group.id s3.db ≡ some last3
        → last3.index ≤ req3.log_index
        → m.group.term < req2.term
        → req2.term < req3.term
        → req3.term ≤ m.group.term + max_term_bump
        → (i3 : ℕ) → (0 < i3) × (i3 ≤ interval_count) × Free later3 i3
        → (r3 : RequestVoteResponse × Option RtGroup) × (request_vote w s3 m2 later3 req3 ≡ done r3)
          × (r3.0.granted ≡ true)
    reopened m2 last3 same voted l3 up3 opened lower near i3 (lo3, hi3, free3) =
        let (r3, e3, yes3, _) =
          request_vote_complete w s3 m2 later3 req3 last3
            (ap (λ (g : RaftGroup). last_log_entry w g.id s3.db) same ∙ l3)
            (record {
              newer = omega (arith, ap (λ (g : RaftGroup). g.term) same);
              caught_up = up3;
              near = omega (arith, ap (λ (g : RaftGroup). g.term) same);
              not_promised = λ e. absurd (omega (arith, e, voted));
            })
            i3 lo3 hi3 free3 in
        (r3, e3, yes3)

    -- A peer that has promised a term, at most twenty ahead of its own, and that is asked fairly
    -- for a lower term which is still open, at a look at which it is no follower, and with the
    -- content of the group, its term too, staying the same during that wait, votes for the lower
    -- term, and after it grants the promised term again to any candidate with a log no shorter:
    -- the lower term has overwritten the promise.
    pub request_vote-forgets :
        (last2 last3 : LogEntry)
        → last_log_entry w m.group.id s2.db ≡ some last2
        → last_log_entry w m.group.id s3.db ≡ some last3
        → last2.index ≤ req2.log_index
        → last3.index ≤ req3.log_index
        → m.group.term < req2.term
        → req2.term < m.last_voted_term
        → m.last_voted_term ≤ m.group.term + max_term_bump
        → req3.term ≡ m.last_voted_term
        → ((i : ℕ) → (later2 i).group ≡ m.group)
        → (i2 i3 : ℕ) → (0 < i2) × (i2 ≤ interval_count) × Free later2 i2
        → (0 < i3) × (i3 ≤ interval_count) × Free later3 i3
        → (r2 r3 : RequestVoteResponse × Option RtGroup) × (m2 : RtGroup) × (request_vote w s2 m
              later2 req2
            ≡ done r2)
          × (r2.0.granted ≡ true)
          × (r2.1 ≡ some m2)
          × (request_vote w s3 m2 later3 req3 ≡ done r3)
          × (r3.0.granted ≡ true)
    request_vote-forgets last2 last3 l2 l3 up2 up3 open2 lower near again still i2 i3
          (lo2, hi2, free2) (lo3, hi3, free3) =
        let fair : IsFair m last2 req2 = record {
          newer = open2;
          caught_up = up2;
          near = omega arith;
          not_promised = λ e. absurd (omega arith);
        } in
        let (r2, e2, yes2, g) =
          request_vote_complete w s2 m later2 req2 last2 l2 fair i2 lo2 hi2 free2 in
        let m2 : RtGroup = record (later2 g.look) {
          last_voted_to = req2.candidate_id;
          last_voted_term = req2.term;
        } in
        let (r3, e3, yes3) =
          reopened m2 last3 (still g.look) refl l3 up3 open2 (omega arith) (omega arith) i3
            (lo3, hi3, free3) in
        (r2, r3, m2, e2, yes2, g.written, e3, yes3)
