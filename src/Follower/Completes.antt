-- ===== src/Follower/Completes.antt =====
-- When `AppendEntries` takes a batch: it returns, and the whole batch is on the log.
use bftraft4go.Prelude.{
  ℕ, suc, ◌+◌, ◌*◌, ◌%◌, ◌^◌, ◌<◌, ◌≡◌, refl, ap, ◌∙◌, subst, true, false, Option, none, some, List,
  ◌∷◌, ◌&&◌, arith, ◌==◌, length, lookup, inl, inr,
}
use bftraft4go.Messages.{LogEntry, AppendEntriesRequest, AppendEntriesResponse, Peer}
use bftraft4go.Outcome.{done, ok}
use bftraft4go.World.{World, IsWorld}
use bftraft4go.Server.{Server, RtGroup}
use bftraft4go.Hosts.KeyViews.{got_key, key_view}
use bftraft4go.Log.{group_hash, last_log_entry, last_entry_hash, last_entry_index}
use bftraft4go.Log.Abstract.{last_or, last_hash, Indexed, Chained, last_log_entry-eq}
use bftraft4go.Log.Reads.{last_entry_hash-eq, last_entry_index-eq}
use bftraft4go.Follower.{
  RaftFunc, Progress, check_all, append_all, take_entries, last_log_term, match_entries,
  follow_leader, first_response, transfer, append_entries,
}
use bftraft4go.Follower.Appends.{IsRoomy, IsQuiet, AtLog}
use bftraft4go.Follower.Batches.{Answer, Taken, append_entries-AllOrNone}
use bftraft4go.Follower.Returns.{
  Readable, Served, Readable-SameKeys, check_all-true, append_all-done,
}

-- The term of the last entry, 0 for an empty log.
abbrev pub term_of : Option LogEntry → ℕ
term_of none = 0
term_of (some e) = e.term

module _ (w : World) (laws : IsWorld w) (roomy : IsRoomy w) (g : ℕ)
    (func_reg : ℕ → Option (RaftFunc w)) (quiet : IsQuiet w g func_reg) (es : List LogEntry) where
  -- The part of `AppendEntries` that takes the entries returns with success.
  take_entries-done :
      (response : AppendEntriesResponse) (s : Server w) (m : RtGroup) (x : LogEntry)
      (xs : List LogEntry)
      → AtLog w g es s m
      → Readable w s (x ∷ xs)
      → Served w laws roomy g func_reg quiet (x ∷ xs)
      → Indexed (length es) (x ∷ xs)
      → Chained w (last_hash (group_hash w g) es) (x ∷ xs)
      → length es + length (x ∷ xs) + 1 < 2 ^ 64
      → (p : Progress w) × (take_entries w func_reg response s m (x ∷ xs)
          ≡ done (ok (record p.0 { successed = true }), p.1, p.2))
  unfolding take_entries
  take_entries-done response s m x xs at readable served indexed chained room =
      let hash : last_entry_hash w m.group.id s.db ≡ last_hash (group_hash w g) es =
        ap (λ (k : ℕ). last_entry_hash w k s.db) at.0 ∙ last_entry_hash-eq w laws g s.db es at.1 in
      let next : (last_entry_index w m.group.id s.db + 1) % 2 ^ 64 ≡ suc (length es) =
        rw (at.0) (rw (last_entry_index-eq w laws g s.db es at.1) (omega arith)) in
      let (t, checked, same) =
        check_all-true w s (last_hash (group_hash w g) es) _ (length es) _ x xs hash next readable
          indexed chained room in
      let (p, appended) =
        append_all-done w laws roomy g func_reg quiet (x ∷ xs) (response, t, m) served at.0 in
      (p, rw (checked, check_all) (rw (appended, append_all) refl))

  match_entries-done :
      (response : AppendEntriesResponse) (s : Server w) (m : RtGroup) (x : LogEntry)
      (xs : List LogEntry) (req : AppendEntriesRequest)
      → req.entries ≡ x ∷ xs
      → req.prev_log_index ≡ length es
      → req.prev_log_term ≡ term_of (last_or none es)
      → AtLog w g es s m
      → Readable w s (x ∷ xs)
      → Served w laws roomy g func_reg quiet (x ∷ xs)
      → Indexed (length es) (x ∷ xs)
      → Chained w (last_hash (group_hash w g) es) (x ∷ xs)
      → length es + length (x ∷ xs) + 1 < 2 ^ 64
      → (p : Progress w) × (match_entries w func_reg response s m req
          ≡ done (ok (record p.0 { successed = true }), p.1, p.2))
  unfolding match_entries last_log_term
  match_entries-done response s m x xs req batch index term at readable served indexed chained
        room =
      let (p, took) = take_entries-done response s m x xs at readable served indexed chained room in
      let last : last_entry_index w m.group.id s.db ≡ length es =
        rw (at.0) (last_entry_index-eq w laws g s.db es at.1) in
      let next : ((req.prev_log_index == last_entry_index w m.group.id s.db)
            && (x.index == ((last_entry_index w m.group.id s.db + 1) % 2 ^ 64)))
          ≡ true =
        ground (arith, indexed.0) in
      let last_term : last_log_term w s m ≡ term_of (last_or none es) =
        ap (λ (k : ℕ). term_of (last_log_entry w k s.db)) at.0
        ∙ ap term_of (last_log_entry-eq w laws g s.db es at.1) in
      let here : (req.prev_log_term == last_log_term w s m) ≡ true = ground arith in
      (p, rw batch (rw next (rw (here, last_log_term) (rw (took, take_entries) refl))))

  -- A batch of the leader that the group follows, which stands on the last entry of the log, is taken.
  pub append_entries-Taken :
      (now draw : ℕ) (s : Server w) (m : RtGroup) (req : AppendEntriesRequest) (x : LogEntry)
      (xs : List LogEntry) (leader_peer : Peer) (key : w.PublicKey)
      → AtLog w g es s m
      → g < 2 ^ 64
      → req.leader_id ≡ m.leader_id
      → lookup req.leader_id m.group_peers ≡ some leader_peer
      → key_view w s m.leader_id ≡ done (some key)
      → req.entries ≡ x ∷ xs
      → req.prev_log_index ≡ length es
      → req.prev_log_term ≡ term_of (last_or none es)
      → Indexed (length es) (x ∷ xs)
      → Chained w (last_hash (group_hash w g) es) (x ∷ xs)
      → length es + length (x ∷ xs) + 1 < 2 ^ 64
      → Readable w s (x ∷ xs)
      → Served w laws roomy g func_reg quiet (x ∷ xs)
      → (r : Answer w) × (append_entries w func_reg now draw s m req ≡ done r)
        × Taken w g es (x ∷ xs) r
  unfolding append_entries transfer follow_leader
  append_entries-Taken now draw s m req x xs leader_peer key at fits leads is_peer seen batch index
        term indexed chained room readable served =
      let (t, got, same) = got_key w s m.leader_id (some key) seen in
      let response = record (first_response w s m) { convinced = true } in
      let here : AtLog w g es t m = (at.0, rw (same.db) (at.1)) in
      let (p, took) =
        match_entries-done response t (record m { timeout = now + 10 * 1000 }) x xs req batch index
          term here (Readable-SameKeys w s t (x ∷ xs) same readable) served indexed chained room in
      let own : (req.leader_id == m.leader_id) ≡ true = ground arith in
      let r : Answer w = (ok (record p.0 { successed = true }), p.1, p.2) in
      let returned : append_entries w func_reg now draw s m req ≡ done r =
        rw (is_peer, append_entries)
          (rw (own, transfer) (rw (got, follow_leader) (rw (took, match_entries) refl))) in
      let room' : length es + length req.entries + 1 < 2 ^ 64 = rw batch room in
      elim (append_entries-AllOrNone w laws roomy g func_reg quiet es now draw s m req r returned at
        fits room') [
          | inl taken ↦ (r, returned, subst (λ l. Taken w g es l r) batch taken)
          | inr refused ↦
              let bad : true ≡ false = refused.0 (record p.0 { successed = true }) refl in cc (bad)
        ]
