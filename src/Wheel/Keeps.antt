-- ===== src/Wheel/Keeps.antt =====
-- What the steps of an election leave alone, and that a heartbeat keeps the role.
use bftraft4go.Prelude.{
  ℕ, ◌≡◌, refl, ◌∙◌, false, Option, none, some, List, [], ◌∷◌, ◌==◌, lookup, Bool, Bool-cases,
  Option-cases, inl, inr,
}
use bftraft4go.Messages.{LogEntry, Peer, AppendEntriesResponse, RequestVoteResponse}
use bftraft4go.Outcome.{done, panicked, >>=-eq-done, along_done}
use bftraft4go.World.{World}
use bftraft4go.SignData.{request_vote_response_sign_data}
use bftraft4go.Server.{Server, RtGroup, refresh_timer, verify_sign}
use bftraft4go.Hosts.{get_host, get_host_public_key}
use bftraft4go.Hosts.KeyViews.{get_host-SameKeys}
use bftraft4go.Follower.Keeps.{get_host_public_key-db}
use bftraft4go.Leader.{
  Network, send_requests, move_peer, note_response, note_responses, send_followers_heartbeat,
}
use bftraft4go.Election.{Ballot, ask_peers, usable, judge_ballot, gather_votes}

module _ (w : World) where
  pub ask_peers-db :
      (peers : List (ℕ × Peer)) (s t : Server w) → ask_peers w peers s ≡ done t → t.db ≡ s.db
  unfolding ask_peers
  ask_peers-db [] s t e = along_done (λ (u : Server w). u.db ≡ s.db) s t e refl
  ask_peers-db ((i, peer) ∷ peers) s t e = elim (Option-cases (get_host w s peer.id).0) [
    | inl nil ↦ let bad : panicked ≡ done t = rw (nil, ask_peers) at e in cc (bad)
    | inr (host, known) ↦
        ask_peers-db peers (get_host w s peer.id).1 t (rw (known, ask_peers) at e)
        ∙ (get_host-SameKeys w s peer.id).db
  ]

  judge_ballot-db :
      (last : Option LogEntry) (s : Server w) (ballot : Ballot) (r : Bool × Server w)
      → judge_ballot w last s ballot ≡ done r
      → r.1.db ≡ s.db
  unfolding judge_ballot
  judge_ballot-db last s (i, vote) r e =
      let Kept : Bool × Server w → Type 0 = λ t. t.1.db ≡ s.db in
      let (got, looked, rest) = >>=-eq-done (get_host_public_key w s i) _ e in
      let kept = get_host_public_key-db w s i got looked in
      elim (Option-cases got.0) [
        | inl nil ↦ let bad : panicked ≡ done r = rw nil at rest in cc (bad)
        | inr (key, known) ↦
            elim (Bool-cases
              (verify_sign w key vote.signature (request_vote_response_sign_data vote))) [
                | inr forged ↦
                    along_done Kept (false, got.1) r (rw forged at (rw known at rest)) kept
                | inl signed ↦
                    let (b, used, end) =
                      >>=-eq-done (usable w last vote) _ (rw signed at (rw known at rest)) in
                    along_done Kept (b, got.1) r end kept
              ]
      ]

  pub gather_votes-db :
      (last : Option LogEntry) (s : Server w) (ballots : List Ballot)
      (r : List RequestVoteResponse × Server w)
      → gather_votes w last s ballots ≡ done r
      → r.1.db ≡ s.db
  unfolding gather_votes
  gather_votes-db last s [] r e =
      along_done (λ (t : List RequestVoteResponse × Server w). t.1.db ≡ s.db) ([], s) r e refl
  gather_votes-db last s (ballot ∷ ballots) r e =
      let (j, judged, rest) = >>=-eq-done (judge_ballot w last s ballot) _ e in
      let (q, gathered, end) = >>=-eq-done (gather_votes w last j.1 ballots) _ rest in
      along_done (λ (t : List RequestVoteResponse × Server w). t.1.db ≡ s.db) _ r end
        (gather_votes-db last j.1 ballots q gathered ∙ judge_ballot-db last s ballot j judged)

  note_response-role :
      (response : AppendEntriesResponse) (p r : Server w × RtGroup)
      → note_response w response p ≡ done r
      → r.1.role ≡ p.1.role
  unfolding note_response move_peer
  note_response-role response (s, m) r e =
      let Kept : Server w × RtGroup → Type 0 = λ t. t.1.role ≡ m.role in
      let (got, looked, rest) = >>=-eq-done (get_host_public_key w s response.peer) _ e in
      elim (Option-cases got.0) [
        | inl no_key ↦ along_done Kept (got.1, m) r (rw no_key at rest) refl
        | inr (key, known) ↦ elim (Option-cases (lookup response.peer m.group_peers)) [
          | inl nil ↦ let bad : panicked ≡ done r = rw nil at (rw known at rest) in cc (bad)
          | inr (peer, found) ↦ elim (Bool-cases (response.index == peer.match_index)) [
            | inl still ↦ along_done Kept _ r (rw still at (rw found at (rw known at rest))) refl
            | inr moved ↦ along_done Kept _ r (rw moved at (rw found at (rw known at rest))) refl
          ]
        ]
      ]

  note_responses-role :
      (answers : List (Option AppendEntriesResponse)) (p r : Server w × RtGroup)
      → note_responses w answers p ≡ done r
      → r.1.role ≡ p.1.role
  unfolding note_responses
  note_responses-role [] p r e =
      along_done (λ (t : Server w × RtGroup). t.1.role ≡ p.1.role) p r e refl
  note_responses-role (none ∷ answers) p r e = note_responses-role answers p r e
  note_responses-role (some response ∷ answers) p r e =
      let (q, first, rest) = >>=-eq-done (note_response w response p) _ e in
      note_responses-role answers q r rest ∙ note_response-role response p q first

  pub send_followers_heartbeat-role :
      (net : Network) (now draw : ℕ) (s : Server w) (m : RtGroup) (r : Server w × RtGroup)
      → send_followers_heartbeat w net now draw s m ≡ done r
      → r.1.role ≡ m.role
  unfolding send_followers_heartbeat refresh_timer
  send_followers_heartbeat-role net now draw s m r e =
      let m' = refresh_timer now draw m in
      let sent = send_requests w net m' (net.visits m'.group_peers) s in
      elim (Bool-cases sent.1) [
        | inl whole ↦ note_responses-role (net.answers sent.0) (sent.2, m') r (rw whole at e)
        | inr stopped ↦
            along_done (λ (t : Server w × RtGroup). t.1.role ≡ m.role) (sent.2, m') r
              (rw stopped at e) refl
      ]
