-- ===== src/Election.antt =====
-- `BecomeCandidate` and `BecomeLeader` of server/vote.go: how a peer stands for election. The
-- answers to its requests are an argument: who was asked and what came back in ten seconds, in the
-- order of arrival. `RequestVote` does not change the role, and the other handlers wait for `Lock`.
pub mod Votes
use bftraft4go.Prelude.{
  ℕ, zero, suc, ◌+◌, ◌%◌, ◌^◌, Bool, true, false, not, ◌&&◌, Option, none, some, List, [], ◌∷◌,
  Bytes, ltb, leb, if◌then◌else◌, length, take,
}
use bftraft4go.Messages.{LogEntry, RequestVoteRequest, RequestVoteResponse, Peer}
use bftraft4go.Outcome.{Outcome, done, panicked, ◌>>=◌}
use bftraft4go.World.{World}
use bftraft4go.SignData.{request_vote_request_sign_data, request_vote_response_sign_data}
use bftraft4go.Server.{
  Server, RtGroup, Role, leader, candidate, refresh_timer, expected_honest_peers, sign, verify_sign,
}
use bftraft4go.Hosts.{get_host, get_host_public_key}
use bftraft4go.Log.{last_log_entry}
use bftraft4go.Vote.{is_candidate, save_group, reset_term}
use bftraft4go.Leader.{Network, send_followers_heartbeat}

-- An answer: the peer that was asked, and what it sent.
abbrev pub Ballot : Type 0
Ballot = ℕ × RequestVoteResponse

module _ (w : World) where
  -- The request, once the term has been raised. An empty log has index and term 0.
  unfoldable pub candidate_request : Server w → RtGroup → RequestVoteRequest
  candidate_request s m =
      let last = last_log_entry w m.group.id s.db in
      let request : RequestVoteRequest = record {
        group = m.group.id;
        term = m.group.term;
        log_index = elim last [ none ↦ 0 | some e ↦ e.index ];
        log_term = elim last [ none ↦ 0 | some e ↦ e.term ];
        candidate_id = s.id;
        signature = [];
      } in
      record request { signature = sign w s (request_vote_request_sign_data request) }

  -- The loop that asks the peers: a host that is not known is a nil that is dereferenced.
  unfoldable pub ask_peers : List (ℕ × Peer) → Server w → Outcome (Server w)
  ask_peers [] s = done s
  ask_peers ((peer_id, peer) ∷ peers) s =
      let (node, s') = get_host w s peer.id in
      elim node [ none ↦ panicked | some host ↦ ask_peers peers s' ]

  -- The last test on a vote. It reads the index of the last entry, which an empty log has not.
  unfoldable pub usable : Option LogEntry → RequestVoteResponse → Outcome Bool
  usable last vote =
      if not vote.granted
      then done false
      else elim last [ none ↦ panicked | some e ↦ done (leb vote.log_index e.index) ]

  -- Whether an answer is a vote. A nil key panics in the verification.
  unfoldable pub judge_ballot : Option LogEntry → Server w → Ballot → Outcome (Bool × Server w)
  unfolding usable
  judge_ballot last s (node_id, vote) = get_host_public_key w s node_id >>= λ got. elim got.0 [
    | none ↦ panicked
    | some key ↦
        if verify_sign w key vote.signature (request_vote_response_sign_data vote)
        then (usable last vote >>= λ b. done (b, got.1))
        else done (false, got.1)
  ]

  unfoldable pub gather_votes :
      Option LogEntry → Server w → List Ballot → Outcome (List RequestVoteResponse × Server w)
  unfolding judge_ballot
  gather_votes last s [] = done ([], s)
  gather_votes last s (ballot ∷ ballots) = judge_ballot last s ballot >>= λ j.
      gather_votes last j.1 ballots >>= λ r. done (if j.0 then ballot.1 ∷ r.0 else r.0, r.1)

  -- `BecomeLeader`
  unfoldable pub become_leader : Network → ℕ → ℕ → Server w → RtGroup → Outcome (Server w × RtGroup)
  unfolding save_group
  become_leader net now draw s m =
      send_followers_heartbeat w net now draw (save_group w s m.group)
        (record m { role = leader; leader_id = s.id })

  -- The end of an election: with enough votes the first of them are kept, and a candidate leads.
  unfoldable pub settle_election :
      Network → ℕ → ℕ → Server w → RtGroup → List RequestVoteResponse → Outcome (Server w × RtGroup)
  unfolding become_leader refresh_timer
  settle_election net now draw s m votes =
      if ltb (length votes) (expected_honest_peers m)
      then done (s, m)
      else (let m' = record m { votes = take (expected_honest_peers m) votes } in
          if is_candidate m'.role
          then (become_leader net now draw s m' >>= λ r. done (r.0, refresh_timer now draw r.1))
          else done (s, m'))

  -- The first half of `BecomeCandidate`: the group that stands.
  unfoldable pub stand : Server w → RtGroup → Server w × RtGroup
  unfolding reset_term save_group
  stand s m =
      let (s', m') = reset_term w s (record m { role = candidate }) ((m.group.term + 1) % 2 ^ 64) in
      (save_group w s' m'.group, m')

  -- `BecomeCandidate`; `draw_long` is the draw of the timer that is set at the end.
  unfoldable pub become_candidate :
      Network
      → (RequestVoteRequest → List Ballot)
      → ℕ
      → ℕ
      → ℕ
      → Server w
      → RtGroup
      → Outcome (Server w × RtGroup)
  unfolding stand candidate_request ask_peers gather_votes settle_election refresh_timer
  become_candidate net ballots now draw draw_long s m =
      let (s1, m1) = stand s m in
      let request = candidate_request s1 m1 in
      ask_peers (net.visits m1.group_peers) s1 >>= λ s2.
      gather_votes (last_log_entry w m1.group.id s1.db) s2 (ballots request) >>= λ g.
      settle_election net now draw g.1 m1 g.0 >>= λ r. done (r.0, refresh_timer now draw_long r.1)
