-- ===== src/Follower/Returns.antt =====
-- That the parts of `AppendEntries` return: the check of the commands, and the loop that appends.
use bftraft4go.Prelude.{
  ℕ, suc, ◌+◌, ◌%◌, ◌^◌, ◌<◌, ◌≡◌, refl, ap, ap₂, sym, ◌∙◌, subst, Bool, true, false, Option, none,
  some, List, [], ◌∷◌, arith, Bytes, bytes_equal, bytes_equal_refl, All, ltb, ◌==◌, length, inl,
  inr,
}
use bftraft4go.Messages.{LogEntry, CommandRequest, AppendEntriesResponse}
use bftraft4go.Outcome.{done, Result, err, Result-cases, log_existed, store_error}
use bftraft4go.World.{World, IsWorld, Fetched, found, key_not_found, failed}
use bftraft4go.Store.{log_entry_key}
use bftraft4go.Server.{Server, RtGroup, verify_sign}
use bftraft4go.Hosts.{verify_command_sign}
use bftraft4go.Hosts.KeyViews.{key_view, SameKeys, SameKeys-refl, SameKeys-trans, got_key}
use bftraft4go.SignData.{exec_command_sign_data}
use bftraft4go.Log.{write_entry, log_hash, append_entry_to_local}
use bftraft4go.Log.Abstract.{Indexed, Chained}
use bftraft4go.Follower.{
  RaftFunc, Progress, check_entry, check_entries, check_all, store_entry, commit_group_log,
  note_entry, append_one, append_all,
}
use bftraft4go.Follower.Appends.{IsRoomy, IsQuiet, commit-quiet}

module _ (w : World) where
  -- `GetHostPublicKey` does not panic for the clients of the entries.
  abbrev pub Readable : Server w → List LogEntry → Type 0
  Readable s =
      All (λ (e : LogEntry). (k : Option w.PublicKey) × (key_view w s e.command.client_id ≡ done k))

  pub Readable-SameKeys :
      (s t : Server w) (es : List LogEntry) → SameKeys w s t → Readable s es → Readable t es
  Readable-SameKeys s t [] same r = tt
  Readable-SameKeys s t (e ∷ es) same r =
      ((r.0.0, same.keys e.command.client_id ∙ r.0.1), Readable-SameKeys s t es same r.1)

  verified :
      (s : Server w) (cmd : CommandRequest) (k : Option w.PublicKey)
      → key_view w s cmd.client_id ≡ done k
      → (b : Bool) × (t : Server w) × (verify_command_sign w s cmd ≡ done (b, t)) × SameKeys w s t
  unfolding verify_command_sign
  verified s cmd none seen =
      let (t, got, same) = got_key w s cmd.client_id none seen in (false, t, rw got refl, same)
  verified s cmd (some k) seen =
      let (t, got, same) = got_key w s cmd.client_id (some k) seen in
      (verify_sign w k cmd.signature (exec_command_sign_data cmd), t, rw got refl, same)

  check_entry-hash :
      (s : Server w) (h : Bytes) (i : ℕ) (e : LogEntry) (k : Option w.PublicKey)
      → key_view w s e.command.client_id ≡ done k
      → e.index ≡ i
      → e.hash ≡ log_hash w h e.index e.command.func_id e.command.arg
      → (t : Server w) × (check_entry w s h i e ≡ done (some e.hash, t)) × SameKeys w s t
  unfolding check_entry
  check_entry-hash s h i e k seen index chained =
      let (b, t, passed, same) = verified s e.command k seen in
      let expected = log_hash w h i e.command.func_id e.command.arg in
      let hash : e.hash ≡ expected =
        chained ∙ ap (λ j. log_hash w h j e.command.func_id e.command.arg) index in
      let here : (e.index == i) ≡ true = ground arith in
      let fits : bytes_equal e.hash expected ≡ true =
        subst (λ x. bytes_equal e.hash x ≡ true) hash (bytes_equal_refl e.hash) in
      (t, rw here (rw fits (rw passed (ap (λ x. done (some x, t)) (sym hash)))), same)

  check_entries-true :
      (s : Server w) (h : Bytes) (n : ℕ) (entries : List LogEntry)
      → Readable s entries
      → Indexed n entries
      → Chained w h entries
      → (t : Server w) × (check_entries w s h (suc n) entries ≡ done (true, t)) × SameKeys w s t
  unfolding check_entries
  check_entries-true s h n [] r i c = (s, refl, SameKeys-refl w s)
  check_entries-true s h n (e ∷ es) r i c =
      let (t, passed, same) = check_entry-hash s h (suc n) e r.0.0 r.0.1 i.0 c.0 in
      let (u, rest, same') =
        check_entries-true t e.hash (suc n) es (Readable-SameKeys s t es same r.1) i.1 c.1 in
      (u, rw passed rest, SameKeys-trans w s t u same same')

  pub check_all-true :
      (s : Server w) (h h' : Bytes) (n next : ℕ) (x : LogEntry) (xs : List LogEntry)
      → h' ≡ h
      → next ≡ suc n
      → Readable s (x ∷ xs)
      → Indexed n (x ∷ xs)
      → Chained w h (x ∷ xs)
      → n + length (x ∷ xs) + 1 < 2 ^ 64
      → (t : Server w) × (check_all w s h' next (x ∷ xs) ≡ done (true, t)) × SameKeys w s t
  unfolding check_all
  check_all-true s h h' n next x xs hash start readable indexed chained room =
      let (t, checked, same) = check_entries-true s h n (x ∷ xs) readable indexed chained in
      let runs : ltb next ((next + length (x ∷ xs)) % 2 ^ 64) ≡ true = ground arith in
      let checked' : check_entries w s h' next (x ∷ xs) ≡ done (true, t) =
        ap₂ (λ a b. check_entries w s a b (x ∷ xs)) hash start ∙ checked in
      (t, rw runs checked', same)

  own_append :
      (g : ℕ) (db : w.Db) (e : LogEntry)
      → e.command.group ≡ g
      → (r : Result w.Db) × (append_entry_to_local w g db e ≡ done r)
  own_append g db e own = go (w.get db (log_entry_key e.command.group e.index)) refl
    where
      here : (e.command.group == g) ≡ true
      here = ground arith

      go :
          (f : Fetched)
          → w.get db (log_entry_key e.command.group e.index) ≡ f
          → (r : Result w.Db) × (append_entry_to_local w g db e ≡ done r)
      go key_not_found at =
          (write_entry w g db e, unfold append_entry_to_local in rw here (rw at refl))
      go (found v) at = (err log_existed, unfold append_entry_to_local in rw here (rw at refl))
      go failed at = (err store_error, unfold append_entry_to_local in rw here (rw at refl))

  stores :
      (s : Server w) (m : RtGroup) (e : LogEntry)
      → e.command.group ≡ m.group.id
      → (t : Server w) × (store_entry w s m e ≡ done t)
  unfolding store_entry
  stores s m e own =
      let (r, returned) = own_append m.group.id s.db e own in
      elim (Result-cases r) [
        | inl (x, bad) ↦ (s, rw returned (rw bad refl))
        | inr (db', good) ↦ (record s { db = db' }, rw returned (rw good refl))
      ]

  module _ (laws : IsWorld w) (roomy : IsRoomy w) (g : ℕ) (func_reg : ℕ → Option (RaftFunc w))
      (quiet : IsQuiet w g func_reg) where
    -- The entries are of the group, and their functions are registered and return.
    abbrev pub Served : List LogEntry → Type 0
    Served = All (λ (e : LogEntry).
        (e.command.group ≡ g)
        × (f : RaftFunc w) × (func_reg e.command.func_id ≡ some f)
        × ((s : Server w) (m : RtGroup) → (r : Bytes × Server w × RtGroup) × (f e s m ≡ done r)))

    append_one-done :
        (e : LogEntry) (es : List LogEntry) (response : AppendEntriesResponse) (s : Server w)
        (m : RtGroup)
        → Served (e ∷ es)
        → m.group.id ≡ g
        → (q : Progress w) × (append_one w func_reg e (response, s, m) ≡ done q)
          × (q.2.group.id ≡ g)
    unfolding append_one note_entry
    append_one-done e es response s m served own =
        let (of_group, f, registered, returns) = served.0 in
        let (t, stored) = stores s m e (of_group ∙ sym own) in
        let (c, ran) = returns t m in
        let committed : commit_group_log w func_reg e t m ≡ done c =
          unfold commit_group_log in rw (registered, commit_group_log) ran in
        let kept = commit-quiet w laws roomy g func_reg quiet e t m c committed own in
        (note_entry w e response c.1 c.2, rw stored (rw (committed, commit_group_log) refl), kept.0)

    pub append_all-done :
        (entries : List LogEntry) (p : Progress w)
        → Served entries
        → p.2.group.id ≡ g
        → (q : Progress w) × (append_all w func_reg entries p ≡ done q)
    unfolding append_all
    append_all-done [] p served own = (p, refl)
    append_all-done (e ∷ es) (response, s, m) served own =
        let (p, first, kept) = append_one-done e es response s m served own in
        let (q, rest) = append_all-done es p served.1 kept in (q, rw (first, append_one) rest)
