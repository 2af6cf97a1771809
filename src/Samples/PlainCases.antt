-- ===== src/Samples/PlainCases.antt =====
-- The theorems on encodings, keys, signed texts, majorities and hosts at small inputs.
use bftraft4go.Prelude.{
  ℕ, ◌^◌, ◌≡◌, ◌<◌, ◌*◌, refl, true, Option, some, none, List, [], ◌∷◌, ◌++◌, ◌⊎◌, arith, IsRange,
  length,
}
use bftraft4go.Messages.{RequestVoteResponse}
use bftraft4go.Outcome.{done, panicked}
use bftraft4go.Encoding.{u64_bytes, bytes_u64}
use bftraft4go.Encoding.RoundTrip.{bytes_u64-u64_bytes}
use bftraft4go.SignData.{exec_command_sign_data, request_vote_response_sign_data}
use bftraft4go.SignData.Injective.{
  IsCommand, SameCommand, IsVote, SameVote, exec_command_sign_data_injective,
  request_vote_response_sign_data_injective,
}
use bftraft4go.Consensus.{expected_players, FuncResult, pick_majority, majority_response}
use bftraft4go.Consensus.Counting.{count, expected_players-majority}
use bftraft4go.Consensus.Majority.{
  IsMajority, IsAnswer, hashes_of, pick_majority-eq, majority_response-eq,
}
use bftraft4go.Server.{Server}
use bftraft4go.Hosts.{get_host_public_key}
use bftraft4go.Hosts.KeyViews.{key_view, KeyGot, get_host_public_key-view}
use bftraft4go.Samples.Small.{small}
use bftraft4go.Samples.Cluster.{node, command}

bytes_u64-u64_bytes_example : bytes_u64 ((7 ∷ []) ++ (u64_bytes 513 ++ (9 ∷ []))) 1 ≡ done 513
bytes_u64-u64_bytes_example = bytes_u64-u64_bytes (7 ∷ []) (9 ∷ []) 513 (omega arith)

command-IsCommand : (k : ℕ) → k < 2 ^ 64 → IsCommand (command k)
command-IsCommand k lt = record {
  group_lt = omega arith;
  client_id_lt = omega arith;
  request_id_lt = lt;
  func_id_lt = omega arith;
}

exec_command_sign_data_injective_example :
    SameCommand (command 3) (record (command 3) { signature = [] })
unfolding exec_command_sign_data
exec_command_sign_data_injective_example =
    exec_command_sign_data_injective (command 3) (record (command 3) { signature = [] })
      (command-IsCommand 3 (omega arith)) unsigned-IsCommand refl
  where
    unsigned-IsCommand : IsCommand (record (command 3) { signature = [] })
    unsigned-IsCommand = record {
      group_lt = omega arith;
      client_id_lt = omega arith;
      request_id_lt = omega arith;
      func_id_lt = omega arith;
    }

same-IsRange : IsRange (λ (m : List (ℕ × ℕ)). m)
same-IsRange xs x = (λ e. e, λ e. e)

agreed : IsMajority 4 (4 ∷ 5 ∷ 4 ∷ [])
unfolding count expected_players
agreed = omega arith

pick_majority-eq_example : pick_majority (λ m. m) (4 ∷ 5 ∷ 4 ∷ []) ≡ 4
pick_majority-eq_example = pick_majority-eq (λ m. m) same-IsRange (4 ∷ 5 ∷ 4 ∷ []) 4 agreed

-- Two answers with features of one hash (the length), and one that is nil.
abbrev answers : List (FuncResult ℕ)
answers =
    record { result = some 11; feature = 1 ∷ [] }
    ∷ record { result = none; feature = [] }
    ∷ record { result = some 12; feature = 2 ∷ [] }
    ∷ []

both_answer : IsMajority 1 (hashes_of length answers)
unfolding count expected_players hashes_of
both_answer = omega arith

majority_response-eq_example :
    (v : ℕ) × (majority_response length (λ m. m) (λ m. m) answers ≡ some v)
    × IsAnswer length 1 v answers
majority_response-eq_example =
    majority_response-eq length (λ m. m) same-IsRange (λ m. m) 1 answers both_answer

abbrev vote : RequestVoteResponse
vote = record {
  group = 7;
  term = 4;
  log_index = 0;
  candidate_id = 2;
  voter = 3;
  granted = true;
  signature = [];
}

vote-IsVote : (voter : ℕ) → IsVote (record vote { voter = voter })
vote-IsVote voter = record {
  group_lt = omega arith;
  term_lt = omega arith;
  log_index_lt = omega arith;
  candidate_id_lt = omega arith;
}

request_vote_response_sign_data_injective_example : SameVote vote (record vote { voter = 8 })
unfolding request_vote_response_sign_data
request_vote_response_sign_data_injective_example =
    request_vote_response_sign_data_injective vote (record vote { voter = 8 }) (vote-IsVote 3)
      (vote-IsVote 8) refl

expected_players-majority_example : 5 < 2 * expected_players 5
expected_players-majority_example = expected_players-majority 5

get_host_public_key-view_example :
    ((get_host_public_key small (node []) 9 ≡ panicked) × (key_view small (node []) 9 ≡ panicked))
    ⊎ ((k : Option ℕ) × (t : Server small) × KeyGot small (node []) 9 k t)
get_host_public_key-view_example = get_host_public_key-view small (node []) 9
