-- ===== src/Follower/Batches.antt =====
-- The log of the group before and after `AppendEntries`.
use bftraft4go.Prelude.{
  ℕ, suc, ◌+◌, ◌%◌, ◌^◌, ◌<◌, ◌≡◌, refl, ap, sym, ◌⊎◌, ◌∙◌, subst, Bool, true, false, ◌&&◌, Option,
  List, [], ◌∷◌, ◌++◌, arith, Bytes, ltb, ◌==◌, length, lookup, Bool-cases, Option-cases, inl, inr,
}
use bftraft4go.Messages.{LogEntry, AppendEntriesRequest, AppendEntriesResponse}
use bftraft4go.Outcome.{
  done, >>=-eq-done, along_done, Result, ok, err, prev_term_mismatch, no_leader_key,
  no_host_or_group,
}
use bftraft4go.World.{World, IsWorld}
use bftraft4go.Server.{Server, RtGroup}
use bftraft4go.Hosts.{get_host_public_key}
use bftraft4go.Log.{group_hash, last_entry_hash, last_entry_index}
use bftraft4go.Log.Abstract.{last_hash, Indexed, Chained}
use bftraft4go.Log.Reads.{last_entry_hash-eq, last_entry_index-eq}
use bftraft4go.Follower.{
  RaftFunc, first_response, transfer, check_entries, check_all, last_log_term, append_all,
  take_entries, match_entries, follow_leader, append_entries,
}
use bftraft4go.Follower.Keeps.{get_host_public_key-db, check_entries_sound, transfer-IsLog}
use bftraft4go.Follower.Appends.{IsRoomy, IsQuiet, AtLog, append_all-IsLog}

module _ (w : World) where
  abbrev pub Answer : Type 0
  Answer = Result AppendEntriesResponse × Server w × RtGroup

  -- The whole batch is on the log, and the answer says so.
  abbrev pub Taken : ℕ → List LogEntry → List LogEntry → Answer → Type 0
  Taken g es entries r =
      (response : AppendEntriesResponse) × (r.0 ≡ ok response)
      × (response.successed ≡ true)
      × AtLog w g (es ++ entries) r.1 r.2

  -- The log is as it was, and the answer does not claim more.
  abbrev pub Refused : ℕ → List LogEntry → Answer → Type 0
  Refused g es r =
      ((response : AppendEntriesResponse) → r.0 ≡ ok response → response.successed ≡ false)
      × AtLog w g es r.1 r.2

  abbrev pub AllOrNone : ℕ → List LogEntry → List LogEntry → Answer → Type 0
  AllOrNone g es entries r = Taken g es entries r ⊎ Refused g es r

  check_all_sound :
      (s : Server w) (h : Bytes) (next n : ℕ) (x : LogEntry) (xs : List LogEntry)
      (r : Bool × Server w)
      → check_all w s h next (x ∷ xs) ≡ done r
      → next ≡ suc n
      → suc n + length (x ∷ xs) < 2 ^ 64
      → (r.1.db ≡ s.db) × (r.0 ≡ true → Indexed n (x ∷ xs) × Chained w h (x ∷ xs))
  unfolding check_all
  check_all_sound s h next n x xs r e start room =
      let runs : ltb next ((next + length (x ∷ xs)) % 2 ^ 64) ≡ true = ground arith in
      check_entries_sound w s h n (x ∷ xs) r
        (subst (λ (k : ℕ). check_entries w s h k (x ∷ xs) ≡ done r) start (rw runs at e))

  module _ (laws : IsWorld w) (roomy : IsRoomy w) (g : ℕ) (func_reg : ℕ → Option (RaftFunc w))
      (quiet : IsQuiet w g func_reg) (es : List LogEntry) where
    kept :
        (response : AppendEntriesResponse)
        → response.successed ≡ false
        → (a : AppendEntriesResponse) → ok response ≡ ok a
        → a.successed ≡ false
    kept response not_yet a same =
        let h : response ≡ a = cc (same) in
        subst (λ (b : AppendEntriesResponse). b.successed ≡ false) h not_yet

    -- The handler returned, with node and group in which the log is as it was.
    untouched :
        (a : Result AppendEntriesResponse) (entries : List LogEntry) (s : Server w) (m : RtGroup)
        (r : Answer)
        → done (a, s, m) ≡ done r
        → ((response : AppendEntriesResponse) → a ≡ ok response → response.successed ≡ false)
        → AtLog w g es s m
        → AllOrNone g es entries r
    untouched a entries s m r e quiet_answer at =
        along_done (AllOrNone g es entries) (a, s, m) r e (inr (quiet_answer, at))

    take_entries-AllOrNone :
        (response : AppendEntriesResponse) (s : Server w) (m : RtGroup) (x : LogEntry)
        (xs : List LogEntry) (r : Answer)
        → take_entries w func_reg response s m (x ∷ xs) ≡ done r
        → response.successed ≡ false
        → AtLog w g es s m
        → length es + length (x ∷ xs) + 1 < 2 ^ 64
        → AllOrNone g es (x ∷ xs) r
    unfolding take_entries
    take_entries-AllOrNone response s m x xs r e not_yet at room =
        let g_eq = at.0 in
        let hash : last_entry_hash w m.group.id s.db ≡ last_hash (group_hash w g) es =
          ap (λ (k : ℕ). last_entry_hash w k s.db) g_eq
          ∙ last_entry_hash-eq w laws g s.db es at.1 in
        let index : last_entry_index w m.group.id s.db ≡ length es =
          ap (λ (k : ℕ). last_entry_index w k s.db) g_eq
          ∙ last_entry_index-eq w laws g s.db es at.1 in
        let (c, checked, rest) =
          >>=-eq-done
            (check_all w s (last_entry_hash w m.group.id s.db)
              ((last_entry_index w m.group.id s.db + 1) % 2 ^ 64) (x ∷ xs))
            _ e in
        let (same_db, sound) =
          check_all_sound s _ _ (length es) x xs c checked (omega (arith, index)) (omega arith) in
        let here : AtLog w g es c.1 m = (g_eq, rw same_db (at.1)) in
        elim (Bool-cases c.0) [
          | inr bad ↦ inr (
            along_done
                (λ (t : Answer). (a : AppendEntriesResponse) → t.0 ≡ ok a → a.successed ≡ false)
                (ok response, c.1, m) r (rw bad at rest) (kept response not_yet),
            along_done (λ (t : Answer). AtLog w g es t.1 t.2) (ok response, c.1, m) r
                (rw bad at rest) here,
          )
          | inl good ↦
              let (p, appended, end) =
                >>=-eq-done (append_all w func_reg (x ∷ xs) (response, c.1, m)) _
                  (rw good at rest) in
              let (indexed, chained) = sound good in
              let log =
                append_all-IsLog w laws roomy g func_reg quiet es (x ∷ xs) (response, c.1, m) p
                  appended here indexed (subst (λ (h : Bytes). Chained w h (x ∷ xs)) hash chained)
                  (omega arith) in
              along_done (AllOrNone g es (x ∷ xs)) _ r end
                (inl (record p.0 { successed = true }, refl, refl, log))
        ]

    match_entries-AllOrNone :
        (response : AppendEntriesResponse) (s : Server w) (m : RtGroup) (req : AppendEntriesRequest)
        (r : Answer)
        → match_entries w func_reg response s m req ≡ done r
        → response.successed ≡ false
        → AtLog w g es s m
        → length es + length req.entries + 1 < 2 ^ 64
        → AllOrNone g es req.entries r
    unfolding match_entries
    match_entries-AllOrNone response s m req r e not_yet at room = go req.entries refl
      where
        go : (entries : List LogEntry) → req.entries ≡ entries → AllOrNone g es req.entries r
        go [] same =
            let e' : done (ok response, s, m) ≡ done r = rw (same, match_entries) at e in
            untouched (ok response) req.entries s m r e' (kept response not_yet) at
        go (x ∷ xs) same =
            let e' = rw (same, match_entries) at e in
            let last = last_entry_index w m.group.id s.db in
            elim (Bool-cases ((req.prev_log_index == last) && (x.index == ((last + 1) % 2 ^ 64)))) [
              | inr elsewhere ↦
                  untouched (ok response) req.entries s m r (rw elsewhere at e')
                    (kept response not_yet) at
              | inl next ↦ elim (Bool-cases (req.prev_log_term == last_log_term w s m)) [
                | inr other ↦
                    untouched (err prev_term_mismatch) req.entries s m r
                      (rw other at (rw next at e')) (λ a same. cc (same)) at
                | inl fits ↦
                    subst (λ (l : List LogEntry). AllOrNone g es l r) (sym same)
                      (take_entries-AllOrNone response s m x xs r (rw fits at (rw next at e'))
                        not_yet at
                        (subst (λ (l : List LogEntry). length es + length l + 1 < 2 ^ 64) same
                          room))
              ]
            ]

    -- If the encoding and the database take every write, the registered functions leave the log
    -- and the number of the group alone, the number is a uint64 and the indices of the batch fit
    -- in one, then `AppendEntries` on a group with the log `es`, when it returns, has either put
    -- the whole batch of entries behind `es` and answers `Successed`, or has left the log at `es`
    -- and does not answer that.
    pub append_entries-AllOrNone :
        (now draw : ℕ) (s : Server w) (m : RtGroup) (req : AppendEntriesRequest) (r : Answer)
        → append_entries w func_reg now draw s m req ≡ done r
        → AtLog w g es s m
        → g < 2 ^ 64
        → length es + length req.entries + 1 < 2 ^ 64
        → AllOrNone g es req.entries r
    unfolding append_entries follow_leader first_response
    append_entries-AllOrNone now draw s m req r e at fits room =
        elim (Option-cases (lookup req.leader_id m.group_peers)) [
          | inl nil ↦
              untouched (err no_host_or_group) req.entries s m r (rw (nil, append_entries) at e)
                (λ a same. cc (same)) at
          | inr (leader_peer, is_peer) ↦
              let (t, checked, rest) =
                >>=-eq-done (transfer w now draw s m req) _ (rw (is_peer, append_entries) at e) in
              let at' = transfer-IsLog w laws g es fits now draw s m req t checked at.0 at.1 in
              elim (Option-cases t.0) [
                | inr (error, refused) ↦
                    untouched (err error) req.entries t.1 t.2 r (rw refused at rest)
                      (λ a same. cc (same)) at'
                | inl accepted ↦
                    let (got, g_key, end) =
                      >>=-eq-done (get_host_public_key w t.1 t.2.leader_id) _
                        (rw (accepted, follow_leader) at rest) in
                    let same_db = get_host_public_key-db w t.1 t.2.leader_id got g_key in
                    let at'' : AtLog w g es got.1 t.2 = (at'.0, rw same_db (at'.1)) in
                    elim (Option-cases got.0) [
                      | inl no_key ↦
                          untouched (err no_leader_key) req.entries got.1 t.2 r (rw no_key at end)
                            (λ a same. cc (same)) at''
                      | inr (key, known) ↦
                          match_entries-AllOrNone _ got.1 _ req r (rw known at end) refl at'' room
                    ]
              ]
        ]
