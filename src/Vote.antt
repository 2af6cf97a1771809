-- ===== src/Vote.antt =====
-- `ResetTerm` and `BecomeFollower` of server/vote.go: how a new leader is recognised.
-- The current time and the random part of a timeout are arguments.
pub mod Requests
pub mod Quorum
pub mod Recognised
use bftraft4go.Prelude.{
  ℕ, zero, suc, ◌+◌, ◌-◌, ◌%◌, ◌^◌, Bool, true, false, not, ◌&&◌, ◌||◌, Option, none, some, List,
  [], ◌∷◌, Bytes, ltb, leb, ◌==◌, if◌then◌else◌, length, Map, lookup, insert, keys,
}
use bftraft4go.Messages.{
  RaftGroup, RequestVoteRequest, RequestVoteResponse, AppendEntriesRequest, LogEntry, Peer,
}
use bftraft4go.Outcome.{Outcome, done, panicked, ◌>>=◌}
use bftraft4go.World.{World, Codec}
use bftraft4go.Store.{compose_key_prefix, group_meta}
use bftraft4go.SignData.{request_vote_response_sign_data}
use bftraft4go.Server.{
  Server, RtGroup, Role, leader, follower, candidate, observer, refresh_timer,
  expected_honest_peers, sign, verify_sign,
}
use bftraft4go.Hosts.{get_host_public_key}
use bftraft4go.Log.{last_log_entry, set_or_keep}

abbrev pub max_term_bump : ℕ
max_term_bump = 20

unfoldable pub is_follower : Role → Bool
is_follower follower = true
is_follower leader = false
is_follower candidate = false
is_follower observer = false

unfoldable pub is_candidate : Role → Bool
is_candidate candidate = true
is_candidate leader = false
is_candidate follower = false
is_candidate observer = false

-- `for peerId := range m.GroupPeers { m.SendVotesForPeers[peerId] = true }`
unfoldable pub mark_all : List ℕ → Map Bool → Map Bool
mark_all [] marks = marks
mark_all (peer_id ∷ rest) marks = mark_all rest (insert peer_id true marks)

module _ (w : World) where
  -- `SaveGroupNTXN` as a statement: its error is dropped.
  unfoldable pub save_group : Server w → RaftGroup → Server w
  save_group s group = elim (w.group_codec.marshal group) [
    | none ↦ s
    | some bytes ↦ record s {
      db = set_or_keep w s.db (compose_key_prefix group.id group_meta) bytes;
    }
  ]

  -- The fields that `ResetTerm` changes.
  unfoldable pub reset_fields : RtGroup → ℕ → RtGroup
  reset_fields m term = record m {
    group = record m.group { term = term };
    votes = [];
    last_voted_term = 0;
    last_voted_to = 0;
    send_votes_for_peers = mark_all (keys m.group_peers) m.send_votes_for_peers;
  }

  -- `ResetTerm`
  unfoldable pub reset_term : Server w → RtGroup → ℕ → Server w × RtGroup
  unfolding reset_fields save_group
  reset_term s m term = (save_group s (reset_fields m term).group, reset_fields m term)

  -- The tests on a vote whose voter is a peer, under the voter's key. A nil key panics in the
  -- verification.
  unfoldable pub check_vote :
      RtGroup
      → AppendEntriesRequest
      → RequestVoteResponse
      → ℕ
      → Option w.PublicKey
      → Map Bool
      → Outcome (Map Bool)
  check_vote m req vote peer_id none votes = panicked
  check_vote m req vote peer_id (some key) votes = done (
      if not (verify_sign w key vote.signature (request_vote_response_sign_data vote))
      then votes
      else if (vote.group == m.group.id) && ((vote.candidate_id == req.leader_id) && vote.granted)
      then insert peer_id true votes
      else votes)

  -- One round of the loop of `BecomeFollower` over the quorum votes.
  unfoldable pub take_vote :
      Server w
      → RtGroup
      → AppendEntriesRequest
      → RequestVoteResponse
      → Map Bool
      → Outcome (Map Bool × Server w)
  take_vote s m req vote votes = elim (lookup vote.voter m.group_peers) [
    | none ↦ done (votes, s)
    | some vote_peer ↦ get_host_public_key w s vote_peer.id >>= λ got.
        check_vote m req vote vote_peer.id got.0 votes >>= λ votes'. done (votes', got.1)
  ]

  unfoldable pub count_votes :
      Server w
      → RtGroup
      → AppendEntriesRequest
      → List RequestVoteResponse
      → Map Bool
      → Outcome (Map Bool × Server w)
  count_votes s m req [] votes = done (votes, s)
  count_votes s m req (vote ∷ rest) votes =
      take_vote s m req vote votes >>= λ r. count_votes r.1 m req rest r.0

  -- `BecomeFollower`, once the votes are counted.
  unfoldable pub follow :
      ℕ → ℕ → RtGroup → AppendEntriesRequest → Map Bool × Server w → Bool × Server w × RtGroup
  unfolding reset_term refresh_timer
  follow now draw m req (votes, s) =
      if leb (expected_honest_peers m) (length votes)
      then (let (s', m') = reset_term s (record m { role = follower }) req.term in
          let m'' = record (refresh_timer now draw m') { leader_id = req.leader_id } in
          (true, save_group s' m''.group, m''))
      else (false, s, m)

  -- `BecomeFollower`
  unfoldable pub become_follower :
      ℕ → ℕ → Server w → RtGroup → AppendEntriesRequest → Outcome (Bool × Server w × RtGroup)
  unfolding follow
  become_follower now draw s m req =
      if ltb (length req.quorum_votes) (expected_honest_peers m)
      then done (false, s, m)
      else count_votes s m req req.quorum_votes [] >>= λ r. done (follow now draw m req r)
