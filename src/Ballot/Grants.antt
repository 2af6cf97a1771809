-- ===== src/Ballot/Grants.antt =====
-- When `RequestVote` grants: exactly when, what it writes, and when it crashes.
use native.Mathlib.Decide.{ℕ_discrete}
use bftraft4go.Prelude.{
  ℕ, zero, suc, ◌+◌, ◌≤◌, ◌<◌, ◌≡◌, ◌≢◌, refl, ap, ◌⊎◌, true, false, Option, none, some, [], arith,
  leb, Bool-cases, Option-cases, subst, inl, inr,
}
use bftraft4go.Messages.{RequestVoteRequest, RequestVoteResponse, LogEntry}
use bftraft4go.Outcome.{done, panicked}
use bftraft4go.World.{World, IsWorld}
use bftraft4go.Server.{Server, RtGroup}
use bftraft4go.Vote.{max_term_bump, is_follower}
use bftraft4go.Log.{last_log_entry}
use bftraft4go.Log.Abstract.{IsLog, last_log_entry-eq}
use bftraft4go.Ballot.{
  interval_count, lazy_wait, refuses, signed_vote, no_vote, grant, request_vote,
}

-- The voter is no follower at a look.
abbrev pub Free : (ℕ → RtGroup) → ℕ → Type 0
Free later look = is_follower (later look).role ≡ false

lazy_wait-some :
    (fuel waited look : ℕ) (later : ℕ → RtGroup)
    → lazy_wait fuel waited later ≡ some look
    → waited < interval_count
    → (waited < look) × (look ≤ interval_count) × Free later look
unfolding lazy_wait
lazy_wait-some zero waited look later e h = cc
lazy_wait-some (suc fuel) waited look later e h =
    elim (Bool-cases (is_follower (later (suc waited)).role)) [
      | inl waits ↦ elim (Bool-cases (leb interval_count (suc waited))) [
        | inl timeout ↦ let e' : none ≡ some look = rw timeout at (rw waits at e) in cc (e')
        | inr on ↦
            let (lo, hi, free) =
              lazy_wait-some fuel (suc waited) look later (rw on at (rw waits at e))
                (ground arith) in
            (omega arith, hi, free)
      ]
      | inr stops ↦
          let e' : some (suc waited) ≡ some look = rw stops at e in
          let same : suc waited ≡ look = cc (e') in
          (omega arith, omega arith, subst (Free later) same stops)
    ]

-- Twenty rounds are enough: a look at which the voter is no follower is not missed.
lazy_wait-grants :
    (fuel waited look : ℕ) (later : ℕ → RtGroup)
    → waited < look
    → look ≤ interval_count
    → interval_count ≤ waited + fuel
    → Free later look
    → lazy_wait fuel waited later ≢ none
unfolding lazy_wait
lazy_wait-grants zero waited look later lo hi enough free = absurd (omega arith)
lazy_wait-grants (suc fuel) waited look later lo hi enough free =
    elim (Bool-cases (is_follower (later (suc waited)).role)) [
      | inr stops ↦ rw stops (λ e. cc)
      | inl waits ↦ elim (ℕ_discrete look (suc waited)) [
        | yes here ↦ cc (free, waits, ap (λ (k : ℕ). is_follower (later k).role) here)
        | no further ↦ rw waits (
            rw (off look waited lo further hi)
              (lazy_wait-grants fuel (suc waited) look later (omega arith) hi (omega arith) free))
      ]
    ]
  where
    off :
        (look waited : ℕ)
        → waited < look
        → look ≢ suc waited
        → look ≤ interval_count
        → leb interval_count (suc waited) ≡ false
    off look waited lo further hi = ground arith

-- The tests that a request must pass.
pub record IsFair (m : RtGroup) (last_entry : LogEntry) (req : RequestVoteRequest) : Type 0 where
  pub newer : m.group.term < req.term
  pub caught_up : last_entry.index ≤ req.log_index
  pub near : req.term ≤ m.group.term + max_term_bump
  pub not_promised :
      req.term ≡ m.last_voted_term → (m.last_voted_to ≡ 0) ⊎ (m.last_voted_to ≡ req.candidate_id)

refuses→IsFair :
    (m : RtGroup) (last_entry : LogEntry) (req : RequestVoteRequest)
    → refuses m last_entry req ≡ false
    → IsFair m last_entry req
unfolding refuses
refuses→IsFair m last_entry req h = record {
  newer = ground arith;
  caught_up = ground arith;
  near = ground arith;
  not_promised = λ e. ground arith;
}

IsFair→refuses :
    (m : RtGroup) (last_entry : LogEntry) (req : RequestVoteRequest)
    → IsFair m last_entry req
    → refuses m last_entry req ≡ false
unfolding refuses
IsFair→refuses m last_entry req fair =
    ground (arith, fair.newer, fair.caught_up, fair.near, fair.not_promised)

module _ (w : World) (s : Server w) (m : RtGroup) (later : ℕ → RtGroup)
    (req : RequestVoteRequest) where
  -- The look at which a vote is granted, and what is then written.
  pub record Granted (r : RequestVoteResponse × Option RtGroup) : Type 0 where
    pub look : ℕ
    pub in_time : (0 < look) × (look ≤ interval_count)
    pub free : Free later look
    pub written :
        r.1
        ≡ some
            (record (later look) { last_voted_to = req.candidate_id; last_voted_term = req.term })
    pub for_candidate : r.0.candidate_id ≡ req.candidate_id
    pub own_term : r.0.term ≡ m.group.term

  module _ (last_entry : LogEntry) (last : last_log_entry w m.group.id s.db ≡ some last_entry) where
    -- On a log with a last entry, a call of `RequestVote` that returns either grants the vote, and
    -- then the request named a newer term, at most twenty ahead, and a log no shorter, the voter
    -- had not promised the term to another candidate, it was no follower at one of the first
    -- twenty looks, and the group as it was then is written with the candidate and the term of the
    -- request; or it does not grant it, and writes nothing.
    pub request_vote_sound :
        (r : RequestVoteResponse × Option RtGroup)
        → request_vote w s m later req ≡ done r
        → ((r.0.granted ≡ true) × IsFair m last_entry req × Granted r)
          ⊎ ((r.0.granted ≡ false) × (r.1 ≡ none))
    unfolding request_vote signed_vote no_vote grant
    request_vote_sound r e = elim (Bool-cases (refuses m last_entry req)) [
      | inl refused ↦
          let e' = rw refused at (rw (last, request_vote) at e) in inr (cc (e'), cc (e'))
      | inr fair ↦ elim (Option-cases (lazy_wait interval_count 0 later)) [
        | inl timeout ↦
            let e' = rw timeout at (rw fair at (rw (last, request_vote) at e)) in
            inr (cc (e'), cc (e'))
        | inr (look, waited) ↦
            let e' = rw waited at (rw fair at (rw (last, request_vote) at e)) in
            let (lo, hi, free) = lazy_wait-some interval_count 0 look later waited (omega arith) in
            inl (
              cc (e'),
              refuses→IsFair m last_entry req fair,
              record {
                look = look;
                in_time = (lo, hi);
                free = free;
                written = cc (e');
                for_candidate = cc (e');
                own_term = cc (e');
              },
            )
      ]
    ]

    -- On a log with a last entry, `RequestVote` returns and grants a vote that is asked for fairly
    -- (`IsFair`) of a voter that is no follower at one of the first twenty looks, be it candidate,
    -- leader or observer, and whatever its term then is; the group as it is at a look of this kind
    -- is written with the candidate and the term of the request.
    pub request_vote_complete :
        IsFair m last_entry req
        → (look : ℕ) → 0 < look
        → look ≤ interval_count
        → Free later look
        → (r : RequestVoteResponse × Option RtGroup) × (request_vote w s m later req ≡ done r)
          × (r.0.granted ≡ true)
          × Granted r
    unfolding request_vote signed_vote no_vote grant
    request_vote_complete fair look lo hi free =
        elim (Option-cases (lazy_wait interval_count 0 later)) [
          | inl timeout ↦
              absurd (lazy_wait-grants interval_count 0 look later lo hi (omega arith) free timeout)
          | inr (at_look, waited) ↦
              let (after, before, stops) =
                lazy_wait-some interval_count 0 at_look later waited (omega arith) in
              (
                (
                  signed_vote w s (record (no_vote w s m last_entry req) { granted = true }),
                  some (grant w req (later at_look)),
                ),
                rw (last, request_vote)
                    (rw (IsFair→refuses m last_entry req fair) (rw waited refl)),
                refl,
                record {
                  look = at_look;
                  in_time = (after, before);
                  free = stops;
                  written = refl;
                  for_candidate = refl;
                  own_term = refl;
                },
              )
        ]

  -- In a world that keeps its laws, `RequestVote` panics on every request to a group with an empty
  -- log.
  pub request_vote-empty_log :
      IsWorld w → IsLog w m.group.id s.db [] → request_vote w s m later req ≡ panicked
  unfolding request_vote
  request_vote-empty_log laws log =
      rw (last_log_entry-eq w laws m.group.id s.db [] log, request_vote)
