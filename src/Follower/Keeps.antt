-- ===== src/Follower/Keeps.antt =====
-- What the steps of `AppendEntries` before the first write of an entry leave alone, and what the
-- check of the entries establishes.
use bftraft4go.Prelude.{
  ℕ, suc, ◌^◌, ◌<◌, ◌≡◌, ap, ◌∙◌, subst, Bool, true, false, ◌&&◌, Option, none, some, List, [], ◌∷◌,
  arith, Bytes, bytes_equal, bytes_equal→eq, ltb, leb, ◌==◌, length, Bool-cases, Option-cases, inl,
  inr, ◌⊎◌, Map,
}
use mathlib.Core.List.{append-nil}
use bftraft4go.Messages.{LogEntry, CommandRequest, AppendEntriesRequest, RaftGroup}
use bftraft4go.Outcome.{done, >>=-eq-done, along_done, GoError, leader_mismatch, term_behind}
use bftraft4go.World.{World, IsWorld}
use bftraft4go.World.Keyed.{has_prefix}
use bftraft4go.Store.{compose_key_prefix, group_meta, log_entries}
use bftraft4go.Server.{Server, RtGroup, expected_honest_peers}
use bftraft4go.Hosts.{get_host_public_key, verify_command_sign}
use bftraft4go.Hosts.KeyViews.{get_host_public_key-view}
use bftraft4go.Vote.{save_group, count_votes, follow, become_follower}
use bftraft4go.Vote.Requests.{count_votes_sound}
use bftraft4go.Log.{log_hash, set_or_keep}
use bftraft4go.Log.Abstract.{Indexed, Chained, IsLog}
use bftraft4go.Log.Refusals.{IsLog-set, outside_log}
use bftraft4go.Follower.{transfer, check_entry, check_entries}

module _ (w : World) where
  pub get_host_public_key-db :
      (s : Server w) (i : ℕ) (r : Option w.PublicKey × Server w)
      → get_host_public_key w s i ≡ done r
      → r.1.db ≡ s.db
  get_host_public_key-db s i r e = elim (get_host_public_key-view w s i) [
    | inl bad ↦ cc (e, bad.0)
    | inr (k, t, known) ↦
        let same : r ≡ (k, t) = cc (e, known.0) in
        ap (λ (p : Option w.PublicKey × Server w). p.1.db) same ∙ known.2.db
  ]

  pub verify_command_sign-db :
      (s : Server w) (cmd : CommandRequest) (r : Bool × Server w)
      → verify_command_sign w s cmd ≡ done r
      → r.1.db ≡ s.db
  unfolding verify_command_sign
  verify_command_sign-db s cmd r e =
      let (got, g, rest) = >>=-eq-done (get_host_public_key w s cmd.client_id) _ e in
      elim (Option-cases got.0) [
        | inl nil ↦
            let e' : done (false, got.1) ≡ done r = rw nil at rest in
            along_done (λ (p : Bool × Server w). p.1.db ≡ s.db) _ r e'
              (get_host_public_key-db s cmd.client_id got g)
        | inr (key, at) ↦
            let e' = rw at at rest in
            along_done (λ (p : Bool × Server w). p.1.db ≡ s.db) _ r e'
              (get_host_public_key-db s cmd.client_id got g)
      ]

  check_entry_sound :
      (s : Server w) (h : Bytes) (i : ℕ) (entry : LogEntry) (r : Option Bytes × Server w)
      → check_entry w s h i entry ≡ done r
      → (r.1.db ≡ s.db)
        × ((r.0 ≡ none)
            ⊎ ((r.0 ≡ some entry.hash)
                × (entry.index ≡ i)
                × (entry.hash ≡ log_hash w h entry.index entry.command.func_id entry.command.arg)))
  unfolding check_entry
  check_entry_sound s h i entry r e =
      let expected = log_hash w h i entry.command.func_id entry.command.arg in
      elim (Bool-cases ((entry.index == i) && bytes_equal entry.hash expected)) [
        | inr bad ↦ let e' : done (none, s) ≡ done r = rw bad at e in (cc (e'), inl (cc (e')))
        | inl good ↦
            let (v, verified, end) =
              >>=-eq-done (verify_command_sign w s entry.command) _ (rw good at e) in
            let index : entry.index ≡ i = ground arith in
            let hash : entry.hash ≡ expected = ground (arith, bytes_equal→eq entry.hash expected) in
            (
              along_done (λ (p : Option Bytes × Server w). p.1.db ≡ s.db) _ r end
                  (verify_command_sign-db s entry.command v verified),
              inr (cc (end, hash), index, cc (hash, index)),
            )
      ]

  -- The check of the entries looks at no more than hosts, and passes a chain of hashes.
  pub check_entries_sound :
      (s : Server w) (h : Bytes) (n : ℕ) (entries : List LogEntry) (r : Bool × Server w)
      → check_entries w s h (suc n) entries ≡ done r
      → (r.1.db ≡ s.db) × (r.0 ≡ true → Indexed n entries × Chained w h entries)
  unfolding check_entries
  check_entries_sound s h n [] r e = (cc (e), λ t. (tt, tt))
  check_entries_sound s h n (entry ∷ entries) r e =
      let (c, checked, rest) = >>=-eq-done (check_entry w s h (suc n) entry) _ e in
      let (kept, passed) = check_entry_sound s h (suc n) entry c checked in
      elim passed [
        | inl failed ↦
            let e' : done (false, c.1) ≡ done r = rw failed at rest in
            (along_done (λ (p : Bool × Server w). p.1.db ≡ s.db) _ r e' kept, λ t. cc (e', t))
        | inr (hash, index, chained) ↦
            let (kept', sound) =
              check_entries_sound c.1 entry.hash (suc n) entries r (rw hash at rest) in
            (kept' ∙ kept, λ t. ((index, (sound t).0), (chained, (sound t).1)))
      ]

  module _ (laws : IsWorld w) (g : ℕ) (es : List LogEntry) (fits : g < 2 ^ 64) where
    pub save_group-IsLog :
        (s : Server w) (group : RaftGroup)
        → group.id ≡ g
        → IsLog w g s.db es
        → IsLog w g (save_group w s group).db es
    unfolding save_group set_or_keep
    save_group-IsLog s group own log = elim (Option-cases (w.group_codec.marshal group)) [
      | inl no_bytes ↦ rw (no_bytes, save_group) log
      | inr (bytes, marshalled) ↦
          let key = compose_key_prefix group.id group_meta in
          elim (Option-cases (w.set s.db key bytes)) [
            | inl no_room ↦ rw (marshalled, save_group) (rw (no_room, set_or_keep) log)
            | inr (db', written) ↦
                rw (marshalled, save_group)
                  (rw (written, set_or_keep)
                    (IsLog-set w laws g s.db db' es key bytes log written (outside group.id own)))
          ]
    ]
      where
        outside :
            (h : ℕ)
            → h ≡ g
            → has_prefix (compose_key_prefix g log_entries) (compose_key_prefix h group_meta)
              ≡ false
        outside h own =
            subst (λ (k : Bytes). has_prefix (compose_key_prefix g log_entries) k ≡ false)
              (append-nil (compose_key_prefix h group_meta))
              (outside_log g h group_meta [] fits (omega arith) (omega arith) (inr (omega arith)))

    follow-IsLog :
        (now draw : ℕ) (m : RtGroup) (req : AppendEntriesRequest) (c : Map Bool × Server w)
        → m.group.id ≡ g
        → IsLog w g c.1.db es
        → ((follow w now draw m req c).2.group.id ≡ g)
          × IsLog w g (follow w now draw m req c).1.db es
    unfolding follow
    follow-IsLog now draw m req c own log =
        elim (Bool-cases (leb (expected_honest_peers m) (length c.0))) [
          | inr few ↦ rw few (own, log)
          | inl enough ↦ rw enough (
            own,
            save_group-IsLog _ (record m.group { term = req.term }) own
                (save_group-IsLog c.1 (record m.group { term = req.term }) own log),
          )
        ]

    become_follower-IsLog :
        (now draw : ℕ) (s : Server w) (m : RtGroup) (req : AppendEntriesRequest)
        (r : Bool × Server w × RtGroup)
        → become_follower w now draw s m req ≡ done r
        → m.group.id ≡ g
        → IsLog w g s.db es
        → (r.2.group.id ≡ g) × IsLog w g r.1.db es
    unfolding become_follower
    become_follower-IsLog now draw s m req r e own log =
        elim (Bool-cases (ltb (length req.quorum_votes) (expected_honest_peers m))) [
          | inl few ↦
              let e' : done (false, s, m) ≡ done r = rw few at e in
              along_done
                (λ (t : Bool × Server w × RtGroup). (t.2.group.id ≡ g) × IsLog w g t.1.db es) _ r e'
                (own, log)
          | inr many ↦
              let (c, counting, end) =
                >>=-eq-done (count_votes w s m req req.quorum_votes []) _ (rw many at e) in
              let (_, _, same) =
                count_votes_sound w m req (λ _. Unit {0}) s c.1 req.quorum_votes [] c.0 (λ id h. tt)
                  counting tt tt in
              along_done
                (λ (t : Bool × Server w × RtGroup). (t.2.group.id ≡ g) × IsLog w g t.1.db es) _ r
                end (follow-IsLog now draw m req c own (rw (same.db) log))
        ]

    -- The check of the leader keeps the log.
    pub transfer-IsLog :
        (now draw : ℕ) (s : Server w) (m : RtGroup) (req : AppendEntriesRequest)
        (r : Option GoError × Server w × RtGroup)
        → transfer w now draw s m req ≡ done r
        → m.group.id ≡ g
        → IsLog w g s.db es
        → (r.2.group.id ≡ g) × IsLog w g r.1.db es
    unfolding transfer
    transfer-IsLog now draw s m req r e own log =
        let Kept : Option GoError × Server w × RtGroup → Type 0 =
          λ t. (t.2.group.id ≡ g) × IsLog w g t.1.db es in
        elim (Bool-cases (req.leader_id == m.leader_id)) [
          | inl same ↦
              let e' : done (none, s, m) ≡ done r = rw same at e in
              along_done Kept _ r e' (own, log)
          | inr other ↦ elim (Bool-cases (length req.quorum_votes == 0)) [
            | inl no_votes ↦
                let e' : done (some leader_mismatch, s, m) ≡ done r =
                  rw no_votes at (rw other at e) in
                along_done Kept _ r e' (own, log)
            | inr votes ↦ elim (Bool-cases (ltb req.term m.group.term)) [
              | inl behind ↦
                  let e' : done (some term_behind, s, m) ≡ done r =
                    rw behind at (rw votes at (rw other at e)) in
                  along_done Kept _ r e' (own, log)
              | inr ahead ↦
                  let (f, following, end) =
                    >>=-eq-done (become_follower w now draw s m req) _
                      (rw ahead at (rw votes at (rw other at e))) in
                  along_done Kept _ r end
                    (become_follower-IsLog now draw s m req f following own log)
            ]
          ]
        ]
