-- ===== src/SignData/Injective.antt =====
-- What a signature covers: the fields that can be read back from the signed bytes.
use mathlib.Core.List.{append_assoc}
use bftraft4go.Prelude.{ℕ, ◌^◌, ◌<◌, ◌≡◌, sym, ◌∙◌, ◌++◌, Bytes}
use bftraft4go.Encoding.{u64_bytes}
use bftraft4go.Encoding.RoundTrip.{length-u64_bytes, u64_bytes_injective}
use bftraft4go.Store.Keys.{split_equal}
use bftraft4go.Text.Decimal.{split_decimals, print_bool_injective}
use bftraft4go.Messages.{CommandRequest, RequestVoteResponse}
use bftraft4go.SignData.{exec_command_sign_data, request_vote_response_sign_data}

split_u64 :
    (m n : ℕ) (r s : Bytes)
    → m < 2 ^ 64
    → n < 2 ^ 64
    → u64_bytes m ++ r ≡ u64_bytes n ++ s
    → (m ≡ n) × (r ≡ s)
split_u64 m n r s hm hn e =
    let both =
      split_equal (u64_bytes m) (u64_bytes n) r s (length-u64_bytes m ∙ sym (length-u64_bytes n))
        e in
    (u64_bytes_injective m n hm hn both.0, both.1)

-- The fields of a command are uint64.
pub record IsCommand (cmd : CommandRequest) : Type 0 where
  pub group_lt : cmd.group < 2 ^ 64
  pub client_id_lt : cmd.client_id < 2 ^ 64
  pub request_id_lt : cmd.request_id < 2 ^ 64
  pub func_id_lt : cmd.func_id < 2 ^ 64

-- Two commands with the same signed bytes are the same command, but for the signature.
pub record SameCommand (a b : CommandRequest) : Type 0 where
  pub group : a.group ≡ b.group
  pub client_id : a.client_id ≡ b.client_id
  pub request_id : a.request_id ≡ b.request_id
  pub func_id : a.func_id ≡ b.func_id
  pub arg : a.arg ≡ b.arg

flatten_command :
    (a : CommandRequest)
    → exec_command_sign_data a
      ≡ u64_bytes a.group
        ++ (u64_bytes a.client_id ++ (u64_bytes a.request_id ++ (u64_bytes a.func_id ++ a.arg)))
unfolding exec_command_sign_data
flatten_command a = simp append_assoc

-- Two commands with uint64 fields and the same signed bytes agree in all fields but the signature.
pub exec_command_sign_data_injective :
    (a b : CommandRequest)
    → IsCommand a
    → IsCommand b
    → exec_command_sign_data a ≡ exec_command_sign_data b
    → SameCommand a b
exec_command_sign_data_injective a b ha hb e =
    let on_group =
      split_u64 a.group b.group _ _ ha.group_lt hb.group_lt
        (sym (flatten_command a) ∙ e ∙ flatten_command b) in
    let on_client =
      split_u64 a.client_id b.client_id _ _ ha.client_id_lt hb.client_id_lt on_group.1 in
    let on_request =
      split_u64 a.request_id b.request_id _ _ ha.request_id_lt hb.request_id_lt on_client.1 in
    let on_func = split_u64 a.func_id b.func_id _ _ ha.func_id_lt hb.func_id_lt on_request.1 in
    record {
      group = on_group.0;
      client_id = on_client.0;
      request_id = on_request.0;
      func_id = on_func.0;
      arg = on_func.1;
    }

-- The number fields of a vote that are signed.
pub record IsVote (v : RequestVoteResponse) : Type 0 where
  pub group_lt : v.group < 2 ^ 64
  pub term_lt : v.term < 2 ^ 64
  pub log_index_lt : v.log_index < 2 ^ 64
  pub candidate_id_lt : v.candidate_id < 2 ^ 64

pub record SameVote (a b : RequestVoteResponse) : Type 0 where
  pub group : a.group ≡ b.group
  pub term : a.term ≡ b.term
  pub log_index : a.log_index ≡ b.log_index
  pub candidate_id : a.candidate_id ≡ b.candidate_id
  pub granted : a.granted ≡ b.granted

-- Two votes with uint64 fields and the same signed bytes agree in all fields but the voter and the
-- signature.
pub request_vote_response_sign_data_injective :
    (a b : RequestVoteResponse)
    → IsVote a
    → IsVote b
    → request_vote_response_sign_data a ≡ request_vote_response_sign_data b
    → SameVote a b
unfolding request_vote_response_sign_data
request_vote_response_sign_data_injective a b ha hb e =
    let on_group = split_decimals a.group b.group _ _ ha.group_lt hb.group_lt e in
    let on_term = split_decimals a.term b.term _ _ ha.term_lt hb.term_lt on_group.1 in
    let on_index =
      split_decimals a.log_index b.log_index _ _ ha.log_index_lt hb.log_index_lt on_term.1 in
    let on_term2 = split_decimals a.term b.term _ _ ha.term_lt hb.term_lt on_index.1 in
    let on_candidate =
      split_decimals a.candidate_id b.candidate_id _ _ ha.candidate_id_lt hb.candidate_id_lt
        on_term2.1 in
    record {
      group = on_group.0;
      term = on_term.0;
      log_index = on_index.0;
      candidate_id = on_candidate.0;
      granted = print_bool_injective a.granted b.granted on_candidate.1;
    }
