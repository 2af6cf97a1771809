-- ===== src/Samples/VoteCases.antt =====
-- The theorems on votes at the small cluster.
use bftraft4go.Prelude.{
  ℕ, All, ◌+◌, ◌≤◌, ◌≡◌, refl, true, some, inl, inr, List, [], ◌∷◌, arith, Bytes, bytes_equal,
  lookup, insert, keys,
}
use bftraft4go.Messages.{RequestVoteResponse, AppendEntriesRequest, Peer}
use bftraft4go.Outcome.{done}
use bftraft4go.SignData.{request_vote_response_sign_data}
use bftraft4go.Server.{Server, RtGroup, follower, refresh_timer, expected_honest_peers, verify_sign}
use bftraft4go.Vote.{
  become_follower, follow, count_votes, take_vote, check_vote, reset_term, reset_fields, save_group,
  mark_all,
}
use bftraft4go.Hosts.{get_host_public_key, parse_host_key, get_host, load_host}
use bftraft4go.Log.{set_or_keep}
use bftraft4go.Consensus.{expected_players}
use bftraft4go.Text.{decimal, digits, print_bool}
use bftraft4go.Encoding.{u32_bytes, u64_bytes, put_uint}
use bftraft4go.Vote.Requests.{HasVote}
use bftraft4go.Vote.Quorum.{
  Elected, Follows, become_follower-Elected, become_follower-any_term, become_follower-shared_voter,
}
use bftraft4go.Vote.Recognised.{GoodVote, become_follower-Follows}
use bftraft4go.Hosts.KeyViews.{key_view}
use bftraft4go.Store.{compose_key_prefix, group_meta}
use bftraft4go.Samples.Codecs.{encode_group}
use bftraft4go.Samples.Small.{small, parse_key}
use bftraft4go.Samples.Cluster.{node, group, peer}

abbrev unsigned_vote : ℕ → RequestVoteResponse
unsigned_vote voter = record {
  group = 7;
  term = 4;
  log_index = 0;
  candidate_id = 2;
  voter = voter;
  granted = true;
  signature = [];
}

abbrev pub vote : ℕ → RequestVoteResponse
vote voter = record (unsigned_vote voter) {
  signature = (100 + voter) ∷ request_vote_response_sign_data (unsigned_vote voter);
}

abbrev claim_lead : List RequestVoteResponse → AppendEntriesRequest
claim_lead votes = record {
  group = 7;
  term = 5;
  leader_id = 2;
  prev_log_index = 0;
  prev_log_term = 0;
  signature = [];
  quorum_votes = votes;
  entries = [];
}

-- The group after it has taken the new leader.
abbrev led : RtGroup
led = record (group 3) {
  role = follower;
  leader_id = 2;
  timeout = 30;
  group = record { replications = 3; id = 7; term = 5 };
  send_votes_for_peers = (1, true) ∷ (2, true) ∷ (3, true) ∷ [];
}

abbrev saved : List (Bytes × Bytes)
saved =
    (compose_key_prefix 7 group_meta, encode_group led.group)
    ∷ (compose_key_prefix 7 group_meta, encode_group led.group)
    ∷ []

abbrev request : AppendEntriesRequest
request = claim_lead (vote 3 ∷ vote 2 ∷ [])

followed : become_follower small 10 20 (node []) (group 3) request ≡ done (true, node saved, led)
unfolding become_follower follow count_votes take_vote check_vote get_host_public_key parse_host_key
    get_host load_host reset_term reset_fields save_group set_or_keep refresh_timer mark_all keys
    insert lookup expected_honest_peers expected_players verify_sign request_vote_response_sign_data
    decimal digits print_bool compose_key_prefix u32_bytes u64_bytes put_uint encode_group
    bytes_equal
followed = refl

become_follower-Elected_example :
    Elected small (node []) (group 3) request × Follows small (group 3) led request
become_follower-Elected_example =
    become_follower-Elected small 10 20 (node []) (group 3) request followed

become_follower-any_term_example :
    (s'' : Server small) × (m'' : RtGroup) × (become_follower small 10 20
        (node [])
        (group 3)
        (record request { term = 9 })
      ≡ done (true, s'', m''))
    × (m''.group.term ≡ 9)
    × (m''.leader_id ≡ 2)
become_follower-any_term_example =
    become_follower-any_term small 10 20 (node []) (group 3) request 9 followed

keyed : (k : ℕ) (p : Peer) → lookup k (group 3).group_peers ≡ some p → p.id ≡ k
unfolding lookup
keyed k p h = ground arith

become_follower-shared_voter_example :
    (id : ℕ) × HasVote small (group 3) request (node []) request.quorum_votes id
    × HasVote small (group 3) request (node []) request.quorum_votes id
become_follower-shared_voter_example =
    become_follower-shared_voter small 10 20 10 20 (node []) (node []) (group 3) (group 3) request
      request keyed refl followed followed

good_votes : All (GoodVote small (group 3) request (node [])) request.quorum_votes
unfolding key_view get_host load_host lookup parse_key verify_sign request_vote_response_sign_data
    bytes_equal decimal digits print_bool
good_votes = (
  record {
    peer = peer 3;
    is_peer = refl;
    own_id = refl;
    key = 103;
    has_key = refl;
    signed = refl;
    for_group = refl;
    for_sender = refl;
    granted = refl;
  },
  (
    record {
      peer = peer 2;
      is_peer = refl;
      own_id = refl;
      key = 102;
      has_key = refl;
      signed = refl;
      for_group = refl;
      for_sender = refl;
      granted = refl;
    },
    tt,
  ),
)

quorum_here : expected_honest_peers (group 3) ≤ 2
unfolding expected_honest_peers expected_players
quorum_here = omega arith

become_follower-Follows_example :
    (s' : Server small) × (m' : RtGroup) × (become_follower small 10 20 (node []) (group 3) request
      ≡ done (true, s', m'))
    × Follows small (group 3) m' request
become_follower-Follows_example =
    become_follower-Follows small (group 3) request 10 20 (node []) good_votes
      ((λ e. elim e [ inl same ↦ ground arith | inr never ↦ never ]), ((λ never. never), tt))
      quorum_here
