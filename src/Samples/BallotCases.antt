-- ===== src/Samples/BallotCases.antt =====
-- The theorems on `RequestVote` at the small cluster.
use bftraft4go.Prelude.{
  ℕ, ◌≡◌, refl, ◌⊎◌, true, false, Option, some, none, [], ◌∷◌, arith, inl, bytes_equal, lookup,
}
use bftraft4go.Messages.{RaftGroup, RequestVoteRequest, RequestVoteResponse}
use bftraft4go.Outcome.{done, panicked}
use bftraft4go.SignData.{request_vote_response_sign_data}
use bftraft4go.Server.{Server, RtGroup, verify_sign}
use bftraft4go.Vote.{is_follower, reset_term, save_group}
use bftraft4go.Follower.Keeps.{save_group-IsLog}
use bftraft4go.Log.{last_log_entry}
use bftraft4go.Log.Abstract.{last_log_entry-eq}
use bftraft4go.Ballot.{refuses, lazy_wait, no_vote, signed_vote, grant, request_vote}
use bftraft4go.Ballot.Grants.{
  IsFair, Granted, request_vote_sound, request_vote_complete, request_vote-empty_log,
}
use bftraft4go.Ballot.Runs.{Voting, Unanimous, Voting-Unanimous, request_vote-forgets}
use bftraft4go.Election.{stand, gather_votes, judge_ballot, usable}
use bftraft4go.Hosts.{get_host_public_key}
use bftraft4go.Text.{decimal, digits, print_bool}
use bftraft4go.Election.Votes.{Counted, gather_votes_sound, asks, request_vote-candidate_request}
use bftraft4go.Samples.Small.{small, small-IsWorld}
use bftraft4go.Samples.Cluster.{node, group, first_entry, one_write, one_write-IsLog, empty-IsLog}

abbrev ask : ℕ → ℕ → RequestVoteRequest
ask term candidate_id = record {
  group = 7;
  term = term;
  log_index = 1;
  log_term = 3;
  candidate_id = candidate_id;
  signature = [];
}

last : last_log_entry small 7 one_write ≡ some first_entry
last = last_log_entry-eq small small-IsWorld 7 one_write (first_entry ∷ []) one_write-IsLog

abbrev unsigned_answer : RequestVoteResponse
unsigned_answer = record {
  group = 7;
  term = 4;
  log_index = 1;
  candidate_id = 2;
  voter = 1;
  granted = false;
  signature = [];
}

abbrev answer : RequestVoteResponse
answer =
    signed_vote small (node one_write)
      (record (signed_vote small (node one_write) unsigned_answer) { granted = true })

abbrev promised : RtGroup
promised = record (group 3) { last_voted_to = 2; last_voted_term = 6 }

given :
    request_vote small (node one_write) (group 3) (λ i. group 3) (ask 6 2)
    ≡ done (answer, some promised)
unfolding request_vote refuses lazy_wait no_vote signed_vote grant is_follower
given = rw (last, request_vote) refl

given_again :
    request_vote small (node one_write) promised (λ i. promised) (ask 6 2)
    ≡ done (answer, some promised)
unfolding request_vote refuses lazy_wait no_vote signed_vote grant is_follower
given_again = rw (last, request_vote) refl

request_vote_sound_example :
    ((answer.granted ≡ true)
      × IsFair (group 3) first_entry (ask 6 2)
      × Granted small (node one_write) (group 3) (λ i. group 3) (ask 6 2) (answer, some promised))
    ⊎ ((answer.granted ≡ false) × (some promised ≡ none))
request_vote_sound_example =
    request_vote_sound small (node one_write) (group 3) (λ i. group 3) (ask 6 2) first_entry last
      (answer, some promised) given

fair : IsFair (group 3) first_entry (ask 6 2)
fair = record {
  newer = omega arith;
  caught_up = omega arith;
  near = omega arith;
  not_promised = λ e. inl refl;
}

request_vote_complete_example :
    (r : RequestVoteResponse × Option RtGroup) × (request_vote small
        (node one_write)
        (group 3)
        (λ i. group 3)
        (ask 6 2)
      ≡ done r)
    × (r.0.granted ≡ true)
    × Granted small (node one_write) (group 3) (λ i. group 3) (ask 6 2) r
unfolding is_follower
request_vote_complete_example =
    request_vote_complete small (node one_write) (group 3) (λ i. group 3) (ask 6 2) first_entry last
      fair 4 (omega arith) (omega arith) refl

request_vote-empty_log_example :
    request_vote small (node []) (group 3) (λ i. group 3) (ask 6 2) ≡ panicked
request_vote-empty_log_example =
    request_vote-empty_log small (node []) (group 3) (λ i. group 3) (ask 6 2) small-IsWorld
      empty-IsLog

voted : Voting small promised ((6, 2) ∷ (6, 2) ∷ [])
voted =
    Voting.vote promised promised ((6, 2) ∷ [])
      (Voting.vote (group 3) promised [] (Voting.fresh (group 3) refl) (node one_write)
        (λ i. group 3) (ask 6 2) (answer, some promised) given refl)
      (node one_write) (λ i. promised) (ask 6 2) (answer, some promised) given_again refl

Voting-Unanimous_example : Unanimous ((6, 2) ∷ (6, 2) ∷ [])
Voting-Unanimous_example =
    Voting-Unanimous small promised ((6, 2) ∷ (6, 2) ∷ []) voted (omega arith) (omega arith)

abbrev bound : RtGroup
bound = record (group 3) { last_voted_to = 3; last_voted_term = 8 }

request_vote-forgets_example :
    (r2 r3 : RequestVoteResponse × Option RtGroup) × (m2 : RtGroup) × (request_vote small
        (node one_write)
        bound
        (λ i. bound)
        (ask 6 2)
      ≡ done r2)
    × (r2.0.granted ≡ true)
    × (r2.1 ≡ some m2)
    × (request_vote small (node one_write) m2 (λ i. bound) (ask 8 1) ≡ done r3)
    × (r3.0.granted ≡ true)
unfolding is_follower
request_vote-forgets_example =
    request_vote-forgets small (node one_write) (node one_write) bound (λ i. bound) (λ i. bound)
      (ask 6 2) (ask 8 1) first_entry first_entry last last (omega arith) (omega arith)
      (omega arith) (omega arith) (omega arith) refl (λ i. refl) 1 1
      (omega arith, omega arith, refl) (omega arith, omega arith, refl)

abbrev raised : RaftGroup
raised = record { replications = 3; id = 7; term = 5 }

abbrev voter : Server small
voter = record (node one_write) { id = 2; private_key = 102 }

stand-last : last_log_entry small 7 (stand small (node one_write) (group 3)).0.db ≡ some first_entry
unfolding stand reset_term
stand-last = last_log_entry-eq small small-IsWorld 7 _ (first_entry ∷ []) (
    save_group-IsLog small small-IsWorld 7 (first_entry ∷ []) (omega arith)
      (save_group small (node one_write) raised) raised refl
      (save_group-IsLog small small-IsWorld 7 (first_entry ∷ []) (omega arith) (node one_write)
        raised refl one_write-IsLog))

request_vote-candidate_request_example :
    (request_vote small
        (stand small (node one_write) (group 3)).0
        (stand small (node one_write) (group 3)).1
        (λ i. group 3)
        (asks small (node one_write) (group 3))
      ≡ done (
        no_vote small
            (stand small (node one_write) (group 3)).0
            (stand small (node one_write) (group 3)).1
            first_entry
            (asks small (node one_write) (group 3)),
        none,
      ))
    × (r : RequestVoteResponse × Option RtGroup) × (request_vote small voter
          (group 2)
          (λ i. group 2)
          (asks small (node one_write) (group 3))
        ≡ done r)
    × (r.0.granted ≡ true)
    × Granted small voter (group 2) (λ i. group 2) (asks small (node one_write) (group 3)) r
unfolding is_follower
request_vote-candidate_request_example =
    request_vote-candidate_request small (node one_write) (group 3) first_entry (omega arith)
      stand-last voter (group 2) first_entry last refl (omega arith) (omega arith) (λ i. group 3)
      (λ i. group 2) 4 (omega arith, omega arith, refl)

-- A vote that host 2 gave to the node; host 3 sends it too.
abbrev unsigned_ballot : RequestVoteResponse
unsigned_ballot = record {
  group = 7;
  term = 4;
  log_index = 1;
  candidate_id = 1;
  voter = 2;
  granted = true;
  signature = [];
}

abbrev ballot : RequestVoteResponse
ballot = record unsigned_ballot {
  signature = 102 ∷ request_vote_response_sign_data unsigned_ballot;
}

gathered :
    gather_votes small (some first_entry) (node one_write) ((3, ballot) ∷ (2, ballot) ∷ [])
    ≡ done (ballot ∷ [], node one_write)
unfolding gather_votes judge_ballot usable get_host_public_key lookup verify_sign
    request_vote_response_sign_data decimal digits print_bool bytes_equal
gathered = refl

gather_votes_sound_example :
    Counted small (node one_write) first_entry ((3, ballot) ∷ (2, ballot) ∷ []) (ballot ∷ [])
gather_votes_sound_example =
    gather_votes_sound small first_entry (node one_write) ((3, ballot) ∷ (2, ballot) ∷ [])
      (ballot ∷ [], node one_write) gathered
