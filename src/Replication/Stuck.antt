-- ===== src/Replication/Stuck.antt =====
-- A follower that has lost its log, and a leader that believes it has the first entry to come.
use bftraft4go.Prelude.{
  ℕ, ◌+◌, ◌*◌, ◌%◌, ◌^◌, ◌≡◌, refl, ap, sym, ◌∙◌, true, false, not, ◌&&◌, Option, some, List, [],
  ◌∷◌, arith, ◌==◌, insert, lookup,
}
use bftraft4go.Messages.{LogEntry, Peer, AppendEntriesRequest, AppendEntriesResponse}
use bftraft4go.Outcome.{done, ok}
use bftraft4go.World.{World, IsWorld}
use bftraft4go.Server.{Server, RtGroup}
use bftraft4go.Hosts.KeyViews.{got_key, key_view}
use bftraft4go.Log.{last_entry_index}
use bftraft4go.Log.Reads.{last_entry_index-eq}
use bftraft4go.Peers.Uncommitted.{entry_or_zero, sent_before, peer_uncommitted_log_entries-eq}
use bftraft4go.Follower.{
  RaftFunc, first_response, transfer, match_entries, follow_leader, append_entries,
}
use bftraft4go.Follower.Appends.{AtLog}
use bftraft4go.Leader.{heartbeat_request, note_response}

module _ (w : World) (laws : IsWorld w) (g : ℕ) where
  -- What a follower with an empty log makes of a batch on top of a first entry.
  elsewhere :
      (func_reg : ℕ → Option (RaftFunc w)) (response : AppendEntriesResponse) (s : Server w)
      (m : RtGroup) (req : AppendEntriesRequest) (x : LogEntry) (xs : List LogEntry)
      → req.entries ≡ x ∷ xs
      → req.prev_log_index ≡ 1
      → AtLog w g [] s m
      → match_entries w func_reg response s m req ≡ done (ok response, s, m)
  unfolding match_entries
  elsewhere func_reg response s m req x xs batch index at =
      let last : last_entry_index w m.group.id s.db ≡ 0 =
        rw (at.0) (last_entry_index-eq w laws g s.db [] at.1) in
      let next : ((req.prev_log_index == last_entry_index w m.group.id s.db)
            && (x.index == ((last_entry_index w m.group.id s.db + 1) % 2 ^ 64)))
          ≡ false =
        ground arith in
      rw batch (rw next refl)

  -- The leader makes nothing of an answer with the index that it has of the peer.
  unmoved :
      (s : Server w) (n : RtGroup) (response : AppendEntriesResponse) (p : Peer) (key : w.PublicKey)
      → key_view w s response.peer ≡ done (some key)
      → lookup response.peer n.group_peers ≡ some p
      → response.index ≡ p.match_index
      → (s' : Server w) × (n' : RtGroup) × (note_response w response (s, n) ≡ done (s', n'))
        × (s'.db ≡ s.db)
        × (n'.group_peers ≡ n.group_peers)
  unfolding note_response
  unmoved s n response p key seen known same =
      let (t, got, kept) = got_key w s response.peer (some key) seen in
      let here : (response.index == p.match_index) ≡ true = ground arith in
      (
        t,
        record n {
          send_votes_for_peers =
              insert response.peer (not response.convinced) n.send_votes_for_peers;
        },
        ground (arith, got, known),
        kept.db,
        refl,
      )

  -- A follower with an empty log, of which the leader has the positions `NextIndex` 1 and
  -- `MatchIndex` 0, gets nothing: on the request of the heartbeat from a log that is not empty its
  -- `AppendEntries` returns without `Successed` and its log stays empty, and the leader keeps the
  -- positions when it notes the answer, where both hold the other's key.
  pub heartbeat_request-stuck :
      (func_reg : ℕ → Option (RaftFunc w)) (s t : Server w) (lead m : RtGroup)
      (p leader_peer : Peer) (key own_key : w.PublicKey) (x : LogEntry) (xs : List LogEntry)
      (now draw : ℕ)
      → AtLog w g (x ∷ xs) s lead
      → AtLog w g [] t m
      → p.next_index ≡ 1
      → p.match_index ≡ 0
      → lookup t.id lead.group_peers ≡ some p
      → s.id ≡ m.leader_id
      → lookup s.id m.group_peers ≡ some leader_peer
      → key_view w t m.leader_id ≡ done (some key)
      → key_view w s t.id ≡ done (some own_key)
      → (response : AppendEntriesResponse) × (t' : Server w) × (m' : RtGroup) × (append_entries w
            func_reg now draw t m
            (heartbeat_request w s lead p)
          ≡ done (ok response, t', m'))
        × (response.successed ≡ false)
        × AtLog w g [] t' m'
        × (s' : Server w) × (lead' : RtGroup) × (note_response w response (s, lead)
            ≡ done (s', lead'))
        × (s'.db ≡ s.db)
        × (lookup t.id lead'.group_peers ≡ some p)
  unfolding append_entries transfer follow_leader heartbeat_request sent_before entry_or_zero
      first_response
  heartbeat_request-stuck func_reg s t lead m p leader_peer key own_key x xs now draw leads at next
        matched known follows is_peer seen own_seen =
      let req = heartbeat_request w s lead p in
      let (t', got, same) = got_key w t m.leader_id (some key) seen in
      let response = record (first_response w t m) { convinced = true } in
      let m' = record m { timeout = now + 10 * 1000 } in
      let here : AtLog w g [] t' m' = (at.0, rw (same.db) (at.1)) in
      let (entries, prev) =
        peer_uncommitted_log_entries-eq w laws g s.db (x ∷ xs) leads.1 p 0 next in
      let batch : req.entries ≡ x ∷ xs = rw (leads.0) entries in
      let index : req.prev_log_index ≡ 1 =
        rw (leads.0) (ap (λ (e : LogEntry). e.index) prev ∙ leads.1.indexed.0) in
      let refused = elsewhere func_reg response t' m' req x xs batch index here in
      let own : (s.id == m.leader_id) ≡ true = ground arith in
      let told : response.index ≡ p.match_index =
        ap (λ k. last_entry_index w k t.db) at.0
        ∙ last_entry_index-eq w laws g t.db [] at.1
        ∙ sym matched in
      let (s', lead', noted, same_db, same_peers) =
        unmoved s lead response p own_key own_seen known told in
      (
        response,
        t',
        m',
        rw (is_peer, append_entries)
            (rw (own, transfer) (rw (got, follow_leader) (rw (refused, match_entries) refl))),
        refl,
        here,
        s',
        lead',
        noted,
        same_db,
        ap (lookup t.id) same_peers ∙ known,
      )
