-- ===== src/Leader/Beats.antt =====
-- What `SendFollowersHeartbeat` does to the log of the group.
use bftraft4go.Prelude.{
  ℕ, ◌+◌, ◌%◌, ◌^◌, ◌≡◌, refl, ◌∙◌, subst, Option, none, some, List, [], ◌∷◌, arith, ◌==◌,
  if◌then◌else◌, lookup, Bool-cases, Option-cases, inl, inr,
}
use bftraft4go.Messages.{LogEntry, AppendEntriesResponse, Peer}
use bftraft4go.Outcome.{done, panicked, >>=-eq-done, along_done, Result, ok, err}
use bftraft4go.World.{World, IsWorld}
use bftraft4go.Store.{peer_key, group_peers, log_entries}
use bftraft4go.Store.Keys.{has_prefix-table}
use bftraft4go.Encoding.{u64_bytes}
use bftraft4go.Server.{Server, RtGroup, refresh_timer}
use bftraft4go.Hosts.{get_host, get_host_public_key}
use bftraft4go.Hosts.KeyViews.{get_host-SameKeys}
use bftraft4go.Log.Abstract.{IsLog}
use bftraft4go.Log.Refusals.{IsLog-set}
use bftraft4go.Peers.{save_peer}
use bftraft4go.Follower.Keeps.{get_host_public_key-db}
use bftraft4go.Follower.Appends.{AtLog}
use bftraft4go.Leader.{
  Network, send_requests, move_peer, note_response, note_responses, send_followers_heartbeat,
}

module _ (w : World) where
  send_requests-db :
      (net : Network) (m : RtGroup) (peers : List (ℕ × Peer)) (s : Server w)
      → (send_requests w net m peers s).2.db ≡ s.db
  unfolding send_requests
  send_requests-db net m [] s = refl
  send_requests-db net m ((peer_id, peer) ∷ peers) s =
      let kept = (get_host-SameKeys w s peer_id).db in
      let next : Server w = if peer_id == s.id then s else (get_host w s peer_id).1 in
      let rest : (send_requests w net m peers next).2.db ≡ s.db =
        elim (Bool-cases (peer_id == s.id)) [
          | inl own ↦ rw own (send_requests-db net m peers s)
          | inr other ↦ rw other (send_requests-db net m peers (get_host w s peer_id).1 ∙ kept)
        ] in
      elim (Bool-cases (peer_id == s.id)) [
        | inl own ↦ rw own (send_requests-db net m peers s)
        | inr other ↦ rw other (elim (Option-cases (get_host w s peer_id).0) [
          | inl nil ↦ rw nil kept
          | inr (host, known) ↦ rw known (elim (Bool-cases (net.connects host.server_addr)) [
            | inl connected ↦ rw connected rest
            | inr cut ↦ rw cut rest
          ])
        ])
      ]

  module _ (laws : IsWorld w) (g : ℕ) (es : List LogEntry) where
    pub save_peer-IsLog :
        (s s' : Server w) (peer : Peer)
        → save_peer w s peer ≡ ok s'
        → IsLog w g s.db es
        → IsLog w g s'.db es
    unfolding save_peer
    save_peer-IsLog s s' peer e log = elim (Option-cases (w.peer_codec.marshal peer)) [
      | inl bad ↦ let e' = rw (bad, save_peer) at e in cc (e')
      | inr (bytes, marshalled) ↦
          elim (Option-cases (w.set s.db (peer_key peer.group peer.id) bytes)) [
            | inl no_room ↦ let e' = rw no_room at (rw (marshalled, save_peer) at e) in cc (e')
            | inr (db', written) ↦
                let e' : ok (record s { db = db' }) ≡ ok s' =
                  rw written at (rw (marshalled, save_peer) at e) in
                let same : record s { db = db' } ≡ s' = cc (e') in
                subst (λ (t : Server w). IsLog w g t.db es) same
                  (IsLog-set w laws g s.db db' es (peer_key peer.group peer.id) bytes log written (
                    unfold peer_key in
                    has_prefix-table g peer.group log_entries group_peers (u64_bytes peer.id)
                      (omega arith) (omega arith) (ground arith)))
          ]
    ]

    move_peer-AtLog :
        (s : Server w) (m : RtGroup) (peer_id : ℕ) (peer : Peer) (index : ℕ)
        → AtLog w g es s m
        → AtLog w g es (move_peer w s m peer_id peer index).0 (move_peer w s m peer_id peer index).1
    unfolding move_peer
    move_peer-AtLog s m peer_id peer index at = (at.0, saved (save_peer w s moved) refl)
      where
        moved : Peer
        moved = record peer { match_index = index; next_index = (index + 1) % 2 ^ 64 }

        saved :
            (r : Result (Server w))
            → save_peer w s moved ≡ r
            → IsLog w g (elim r as (λ _. Server w) [ ok s' ↦ s' | err e ↦ s ]).db es
        saved (ok s') e = save_peer-IsLog s s' moved e at.1
        saved (err x) e = at.1

    note_response-IsLog :
        (response : AppendEntriesResponse) (p r : Server w × RtGroup)
        → note_response w response p ≡ done r
        → AtLog w g es p.0 p.1
        → AtLog w g es r.0 r.1
    unfolding note_response move_peer
    note_response-IsLog response (s, m) r e at =
        let Kept : Server w × RtGroup → Type 0 = λ t. AtLog w g es t.0 t.1 in
        let (got, looked, rest) = >>=-eq-done (get_host_public_key w s response.peer) _ e in
        let here : AtLog w g es got.1 m =
          (at.0, rw (get_host_public_key-db w s response.peer got looked) (at.1)) in
        elim (Option-cases got.0) [
          | inl no_key ↦ along_done Kept (got.1, m) r (rw no_key at rest) here
          | inr (key, known) ↦ elim (Option-cases (lookup response.peer m.group_peers)) [
            | inl nil ↦ let bad : panicked ≡ done r = rw nil at (rw known at rest) in cc (bad)
            | inr (peer, found) ↦ elim (Bool-cases (response.index == peer.match_index)) [
              | inl still ↦ along_done Kept _ r (rw still at (rw found at (rw known at rest))) here
              | inr moved ↦
                  along_done Kept _ r (rw moved at (rw found at (rw known at rest)))
                    (move_peer-AtLog got.1 m response.peer peer response.index here)
            ]
          ]
        ]

    note_responses-IsLog :
        (answers : List (Option AppendEntriesResponse)) (p r : Server w × RtGroup)
        → note_responses w answers p ≡ done r
        → AtLog w g es p.0 p.1
        → AtLog w g es r.0 r.1
    unfolding note_responses
    note_responses-IsLog [] p r e at =
        along_done (λ (t : Server w × RtGroup). AtLog w g es t.0 t.1) p r e at
    note_responses-IsLog (none ∷ answers) p r e at = note_responses-IsLog answers p r e at
    note_responses-IsLog (some response ∷ answers) p r e at =
        let (q, first, rest) = >>=-eq-done (note_response w response p) _ e in
        note_responses-IsLog answers q r rest (note_response-IsLog response p q first at)

    -- In a world that keeps its laws, `SendFollowersHeartbeat`, when it returns, leaves the log of
    -- the group and its number as they were, whatever the network does.
    pub send_followers_heartbeat-IsLog :
        (net : Network) (now draw : ℕ) (s : Server w) (m : RtGroup) (r : Server w × RtGroup)
        → send_followers_heartbeat w net now draw s m ≡ done r
        → AtLog w g es s m
        → AtLog w g es r.0 r.1
    unfolding send_followers_heartbeat refresh_timer
    send_followers_heartbeat-IsLog net now draw s m r e at =
        let m' = refresh_timer now draw m in
        let sent = send_requests w net m' (net.visits m'.group_peers) s in
        let here : AtLog w g es sent.2 m' =
          (at.0, rw (send_requests-db net m' (net.visits m'.group_peers) s) (at.1)) in
        elim (Bool-cases sent.1) [
          | inl whole ↦
              note_responses-IsLog (net.answers sent.0) (sent.2, m') r (rw whole at e) here
          | inr stopped ↦
              along_done (λ (t : Server w × RtGroup). AtLog w g es t.0 t.1) (sent.2, m') r
                (rw stopped at e) here
        ]
