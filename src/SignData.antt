-- ===== src/SignData.antt =====
-- The byte strings that are signed: utils/shares.go, server/vote.go, server/log_entries.go and
-- server/membership.go. `fmt.Sprint` is that of Text.antt.
pub mod Injective
use bftraft4go.Prelude.{ℕ, Bool, true, false, [], ◌∷◌, ◌++◌, Bytes}
use bftraft4go.Encoding.{u64_bytes}
use bftraft4go.Text.{decimal, dash, print_bool}
use bftraft4go.Messages.{CommandRequest, RequestVoteRequest, RequestVoteResponse}

-- `CommandSignData`
unfoldable pub command_sign_data : ℕ → ℕ → ℕ → Bytes → Bytes
command_sign_data group sender req_id bytes =
    ((u64_bytes group ++ u64_bytes sender) ++ u64_bytes req_id) ++ bytes

-- `ExecCommandSignData`
unfoldable pub exec_command_sign_data : CommandRequest → Bytes
unfolding command_sign_data
exec_command_sign_data cmd =
    command_sign_data cmd.group cmd.client_id cmd.request_id (u64_bytes cmd.func_id ++ cmd.arg)

-- `RequestVoteRequestSignData`
unfoldable pub request_vote_request_sign_data : RequestVoteRequest → Bytes
request_vote_request_sign_data req =
    decimal req.group
    ++ dash
      ∷ (decimal req.term
          ++ dash
            ∷ (decimal req.log_index
                ++ dash ∷ (decimal req.term ++ dash ∷ decimal req.candidate_id)))

-- `RequestVoteResponseSignData`
unfoldable pub request_vote_response_sign_data : RequestVoteResponse → Bytes
request_vote_response_sign_data res =
    decimal res.group
    ++ dash
      ∷ (decimal res.term
          ++ dash
            ∷ (decimal res.log_index
                ++ dash
                  ∷ (decimal res.term
                      ++ dash ∷ (decimal res.candidate_id ++ dash ∷ print_bool res.granted))))

-- `AppendLogEntrySignData`
unfoldable pub append_log_entry_sign_data : ℕ → ℕ → ℕ → ℕ → Bytes
append_log_entry_sign_data group_id term prev_index prev_term =
    decimal group_id
    ++ dash ∷ (decimal term ++ dash ∷ (decimal prev_index ++ dash ∷ decimal prev_term))

-- `EB`
unfoldable pub eb : Bool → ℕ
eb true = 1
eb false = 0
