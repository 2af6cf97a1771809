-- ===== src/Follower/Appends.antt =====
-- What the loop of `AppendEntries` that appends does to the log of the group.
use mathlib.Core.List.{append-nil, append_assoc}
use bftraft4go.Prelude.{
  ℕ, ◌+◌, ◌^◌, ◌<◌, ◌≡◌, refl, ap, sym, ◌∙◌, subst, Option, some, List, [], ◌∷◌, ◌++◌, arith, Bytes,
  ◌==◌, length, length-append, Bool-cases, Option-cases, inl, inr,
}
use bftraft4go.Messages.{LogEntry, AppendEntriesResponse}
use bftraft4go.Outcome.{done, panicked, >>=-eq-done, along_done, Result, ok}
use bftraft4go.World.{World, IsWorld}
use bftraft4go.Store.{log_entry_key}
use bftraft4go.Server.{Server, RtGroup}
use bftraft4go.Hosts.KeyViews.{get_host-SameKeys}
use bftraft4go.Log.{log_hash, group_hash, append_entry_to_local}
use bftraft4go.Log.Abstract.{last_hash, Indexed, Chained, IsLog}
use bftraft4go.Log.Append.{append_entry_to_local-IsLog}
use bftraft4go.Follower.{
  RaftFunc, Progress, store_entry, note_entry, commit_group_log, append_one, append_all,
}

last_hash-append :
    (h : Bytes) (es : List LogEntry) (x : LogEntry) → x.hash ≡ last_hash h (es ++ x ∷ [])
last_hash-append h [] x = refl
last_hash-append h (e ∷ es) x = last_hash-append e.hash es x

module _ (w : World) where
  -- The encoding and the database take what they are given: neither fails for want of room.
  pub record IsRoomy : Type 0 where
    pub marshals : (e : LogEntry) → (bs : Bytes) × (w.log_entry_codec.marshal e ≡ some bs)
    pub sets : (db : w.Db) (k v : Bytes) → (db' : w.Db) × (w.set db k v ≡ some db')

  -- The registered functions leave the log of group `g` and the number of the group alone.
  abbrev pub IsQuiet : ℕ → (ℕ → Option (RaftFunc w)) → Type 0
  IsQuiet g func_reg =
      (id : ℕ) (f : RaftFunc w) (entry : LogEntry) (s : Server w) (m : RtGroup)
      (r : Bytes × Server w × RtGroup)
      → func_reg id ≡ some f
      → f entry s m ≡ done r
      → m.group.id ≡ g
      → (r.2.group.id ≡ g) × ((es : List LogEntry) → IsLog w g s.db es → IsLog w g r.1.db es)

  abbrev pub AtLog : ℕ → List LogEntry → Server w → RtGroup → Type 0
  AtLog g es s m = (m.group.id ≡ g) × IsLog w g s.db es

  -- `AppendEntryToLocal` panics on an entry of another group.
  own_group :
      (g : ℕ) (db : w.Db) (e : LogEntry) (r : Result w.Db)
      → append_entry_to_local w g db e ≡ done r
      → e.command.group ≡ g
  unfolding append_entry_to_local
  own_group g db e r h = elim (Bool-cases (e.command.group == g)) [
    | inl own ↦ ground arith
    | inr foreign ↦ let h' : panicked ≡ done r = rw foreign at h in cc (h')
  ]

  note_entry-db :
      (e : LogEntry) (response : AppendEntriesResponse) (s : Server w) (m : RtGroup)
      → ((note_entry w e response s m).1.db ≡ s.db) × ((note_entry w e response s m).2 ≡ m)
  unfolding note_entry
  note_entry-db e response s m = ((get_host-SameKeys w s e.command.client_id).db, refl)

  module _ (laws : IsWorld w) (roomy : IsRoomy) (g : ℕ) (func_reg : ℕ → Option (RaftFunc w))
      (quiet : IsQuiet g func_reg) where
    store_entry-IsLog :
        (es : List LogEntry) (s : Server w) (m : RtGroup) (e : LogEntry) (s' : Server w)
        → store_entry w s m e ≡ done s'
        → AtLog g es s m
        → e.index ≡ length es + 1
        → length es + 1 < 2 ^ 64
        → e.hash
          ≡ log_hash w (last_hash (group_hash w g) es) e.index e.command.func_id e.command.arg
        → IsLog w g s'.db (es ++ e ∷ [])
    unfolding store_entry
    store_entry-IsLog es s m e s' stored at next room hash =
        let (r, appended, end) = >>=-eq-done (append_entry_to_local w m.group.id s.db e) _ stored in
        let here : append_entry_to_local w g s.db e ≡ done r =
          sym (ap (λ (k : ℕ). append_entry_to_local w k s.db e) at.0) ∙ appended in
        let (bs, marshalled) = roomy.marshals e in
        let (db', written) = roomy.sets s.db (log_entry_key g e.index) bs in
        let (there, log) =
          append_entry_to_local-IsLog w laws g s.db es at.1 e next room (own_group g s.db e r here)
            db' bs hash marshalled written in
        let same : r ≡ ok db' = cc (here, there) in
        along_done (λ (t : Server w). IsLog w g t.db (es ++ e ∷ [])) (record s { db = db' }) s'
          (rw same at end) log

    pub commit-quiet :
        (e : LogEntry) (s : Server w) (m : RtGroup) (r : Bytes × Server w × RtGroup)
        → commit_group_log w func_reg e s m ≡ done r
        → m.group.id ≡ g
        → (r.2.group.id ≡ g) × ((es : List LogEntry) → IsLog w g s.db es → IsLog w g r.1.db es)
    unfolding commit_group_log
    commit-quiet e s m r committed own = elim (Option-cases (func_reg e.command.func_id)) [
      | inl nil ↦ let bad : panicked ≡ done r = rw (nil, commit_group_log) at committed in cc (bad)
      | inr (f, registered) ↦
          quiet e.command.func_id f e s m r registered
            (rw (registered, commit_group_log) at committed) own
    ]

    append_one-IsLog :
        (es : List LogEntry) (e : LogEntry) (p r : Progress w)
        → append_one w func_reg e p ≡ done r
        → AtLog g es p.1 p.2
        → e.index ≡ length es + 1
        → length es + 1 < 2 ^ 64
        → e.hash
          ≡ log_hash w (last_hash (group_hash w g) es) e.index e.command.func_id e.command.arg
        → AtLog g (es ++ e ∷ []) r.1 r.2
    unfolding append_one commit_group_log note_entry
    append_one-IsLog es e (response, s, m) r step at next room hash =
        let (s', stored, rest) = >>=-eq-done (store_entry w s m e) _ step in
        let log = store_entry-IsLog es s m e s' stored at next room hash in
        let (c, committed, end) = >>=-eq-done (commit_group_log w func_reg e s' m) _ rest in
        let (own, kept) = commit-quiet e s' m c committed at.0 in
        let (same_db, same_group) = note_entry-db e response c.1 c.2 in
        along_done (λ (q : Progress w). AtLog g (es ++ e ∷ []) q.1 q.2) _ r end
          (own, rw same_db (kept (es ++ e ∷ []) log))

    pub append_all-IsLog :
        (es entries : List LogEntry) (p r : Progress w)
        → append_all w func_reg entries p ≡ done r
        → AtLog g es p.1 p.2
        → Indexed (length es) entries
        → Chained w (last_hash (group_hash w g) es) entries
        → length es + length entries < 2 ^ 64
        → AtLog g (es ++ entries) r.1 r.2
    unfolding append_all
    append_all-IsLog es [] p r e at i c room =
        along_done (λ (q : Progress w). AtLog g (es ++ []) q.1 q.2) p r e (rw append-nil at)
    append_all-IsLog es (x ∷ xs) p r e at i c room =
        let (q, first, rest) = >>=-eq-done (append_one w func_reg x p) _ e in
        let next = append_one-IsLog es x p q first at (omega (arith, i.0)) (omega arith) c.0 in
        subst (λ (t : List LogEntry). AtLog g t r.1 r.2) (append_assoc es (x ∷ []) xs)
          (append_all-IsLog (es ++ x ∷ []) xs q r rest next
            (subst (λ (n : ℕ). Indexed n xs) (omega (arith, length-append es (x ∷ []))) i.1)
            (subst (λ (h : Bytes). Chained w h xs) (last_hash-append (group_hash w g) es x) c.1)
            (omega (arith, length-append es (x ∷ []))))
