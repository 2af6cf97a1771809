-- ===== src/Ballot.antt =====
-- `RequestVote` of server/group.go: when a peer grants its vote. The handler holds `VoteLock` from
-- its first line to its last, and waits between; what other handlers do to the group meanwhile is
-- given by `later`, the group at each look of the waiting loop.
pub mod Grants
pub mod Runs
use bftraft4go.Prelude.{
  ℕ, zero, suc, ◌+◌, ◌-◌, ◌*◌, ◌/◌, Bool, true, false, not, ◌&&◌, ◌||◌, Option, none, some, [],
  Bytes, ltb, leb, ◌==◌, if◌then◌else◌,
}
use bftraft4go.Messages.{RequestVoteRequest, RequestVoteResponse, LogEntry}
use bftraft4go.Outcome.{Outcome, done, panicked}
use bftraft4go.World.{World}
use bftraft4go.SignData.{request_vote_response_sign_data}
use bftraft4go.Server.{Server, RtGroup, sign}
use bftraft4go.Vote.{max_term_bump, is_follower}
use bftraft4go.Log.{last_log_entry}

-- `secsToWait * 1000 / interval`
abbrev pub interval_count : ℕ
interval_count = 10 * 1000 / 500

-- The waiting loop: the number of the look at which the vote is granted, if it is. One round of
-- `fuel` is one look.
unfoldable pub lazy_wait : ℕ → ℕ → (ℕ → RtGroup) → Option ℕ
lazy_wait zero waited_counts later = none
lazy_wait (suc fuel) waited_counts later =
    let rest = lazy_wait fuel (suc waited_counts) later in
    if not (is_follower (later (suc waited_counts)).role)
    then some (suc waited_counts)
    else if leb interval_count (suc waited_counts)
    then none
    else rest

-- The three tests that refuse a vote. The tests that only write to the log are left out.
unfoldable pub refuses : RtGroup → LogEntry → RequestVoteRequest → Bool
refuses m last_entry req =
    (leb req.term m.group.term || ltb req.log_index last_entry.index)
    || (ltb max_term_bump (req.term - m.group.term)
        || ((req.term == m.last_voted_term)
            && (not (m.last_voted_to == 0) && not (m.last_voted_to == req.candidate_id))))

module _ (w : World) where
  unfoldable pub signed_vote : Server w → RequestVoteResponse → RequestVoteResponse
  signed_vote s vote = record vote { signature = sign w s (request_vote_response_sign_data vote) }

  -- The answer without a vote. Its term is the voter's own.
  unfoldable pub no_vote : Server w → RtGroup → LogEntry → RequestVoteRequest → RequestVoteResponse
  unfolding signed_vote
  no_vote s m last_entry req = signed_vote s (record {
    group = m.group.id;
    term = m.group.term;
    log_index = last_entry.index;
    candidate_id = req.candidate_id;
    voter = s.id;
    granted = false;
    signature = [];
  })

  -- The grant, written to the group as it is at that look.
  unfoldable pub grant : RequestVoteRequest → RtGroup → RtGroup
  grant req m = record m { last_voted_to = req.candidate_id; last_voted_term = req.term }

  -- `RequestVote`: the answer, and the group if it was written to. The index of the last entry is
  -- read with no test for an empty log.
  unfoldable pub request_vote :
      Server w
      → RtGroup
      → (ℕ → RtGroup)
      → RequestVoteRequest
      → Outcome (RequestVoteResponse × Option RtGroup)
  unfolding no_vote grant refuses lazy_wait
  request_vote s m later req = elim (last_log_entry w m.group.id s.db) [
    | none ↦ panicked
    | some last_entry ↦
        if refuses m last_entry req
        then done (no_vote s m last_entry req, none)
        else elim (lazy_wait interval_count 0 later) [
          | none ↦ done (no_vote s m last_entry req, none)
          | some look ↦ done (
            signed_vote s (record (no_vote s m last_entry req) { granted = true }),
            some (grant req (later look)),
          )
        ]
  ]
