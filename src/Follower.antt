-- ===== src/Follower.antt =====
-- `AppendEntries` of server/group.go with `CommitGroupLog` of server/log_entries.go: how a follower
-- takes entries from its leader. The functions of the replicated state machine (`FuncReg`) are an
-- argument: each may change the node and the group. The result that is sent to the client of a
-- command, and is not waited for, is left out, and so is the verdict on the leader's signature,
-- which the code drops. `WaitLogApproved` is `true`. The times are in milliseconds.
pub mod Keeps
pub mod Appends
pub mod Batches
pub mod Returns
pub mod Completes
use bftraft4go.Prelude.{
  ℕ, zero, suc, ◌+◌, ◌*◌, ◌%◌, ◌^◌, Bool, true, false, not, ◌&&◌, Option, none, some, List, [], ◌∷◌,
  Bytes, bytes_equal, ltb, ◌==◌, if◌then◌else◌, length, lookup,
}
use bftraft4go.Messages.{LogEntry, AppendEntriesRequest, AppendEntriesResponse, Peer}
use bftraft4go.Outcome.{
  Outcome, done, panicked, ◌>>=◌, GoError, no_host_or_group, term_behind, not_enough_votes,
  leader_mismatch, no_leader_key, prev_term_mismatch, Result, ok, err,
}
use bftraft4go.World.{World}
use bftraft4go.Server.{Server, RtGroup, sign}
use bftraft4go.Hosts.{get_host, get_host_public_key, verify_command_sign}
use bftraft4go.Vote.{become_follower}
use bftraft4go.Log.{
  log_hash, last_log_entry, last_entry_hash, last_entry_index, append_entry_to_local,
}

-- A registered function: its result, and what it leaves of the node and of the group.
abbrev pub RaftFunc : World → Type 0
RaftFunc w = LogEntry → Server w → RtGroup → Outcome (Bytes × Server w × RtGroup)

-- The answer that is being built, the node and the group.
abbrev pub Progress : World → Type 0
Progress w = AppendEntriesResponse × Server w × RtGroup

module _ (w : World) where
  -- The answer when no entry has been taken.
  unfoldable pub first_response : Server w → RtGroup → AppendEntriesResponse
  first_response s m = record {
    group = m.group.id;
    term = m.group.term;
    index = last_entry_index w m.group.id s.db;
    peer = s.id;
    successed = false;
    convinced = false;
    hash = last_entry_hash w m.group.id s.db;
    signature = sign w s (last_entry_hash w m.group.id s.db);
  }

  -- The check of the leader: an error, or none.
  unfoldable pub transfer :
      ℕ
      → ℕ
      → Server w
      → RtGroup
      → AppendEntriesRequest
      → Outcome (Option GoError × Server w × RtGroup)
  transfer now draw s m req =
      if req.leader_id == m.leader_id
      then done (none, s, m)
      else if length req.quorum_votes == 0
      then done (some leader_mismatch, s, m)
      else if ltb req.term m.group.term
      then done (some term_behind, s, m)
      else become_follower w now draw s m req >>= λ r.
          done (if r.0 then none else some not_enough_votes, r.1, r.2)

  -- One round of the check of the entries: the hash that the next one is checked against.
  unfoldable pub check_entry : Server w → Bytes → ℕ → LogEntry → Outcome (Option Bytes × Server w)
  check_entry s expected_hash i entry =
      let expected = log_hash w expected_hash i entry.command.func_id entry.command.arg in
      if not ((entry.index == i) && bytes_equal entry.hash expected)
      then done (none, s)
      else verify_command_sign w s entry.command >>= λ r. done (some expected, r.1)

  unfoldable pub check_entries : Server w → Bytes → ℕ → List LogEntry → Outcome (Bool × Server w)
  check_entries s expected_hash i [] = done (true, s)
  check_entries s expected_hash i (entry ∷ entries) = check_entry s expected_hash i entry >>= λ r.
      elim r.0 [ none ↦ done (false, r.1) | some hash ↦ check_entries r.1 hash (suc i) entries ]

  -- The loop runs while `i < nextLogIdx + len(req.Entries)`, a sum of uint64.
  unfoldable pub check_all : Server w → Bytes → ℕ → List LogEntry → Outcome (Bool × Server w)
  unfolding check_entries
  check_all s expected_hash next_log_idx entries =
      if ltb next_log_idx ((next_log_idx + length entries) % 2 ^ 64)
      then check_entries s expected_hash next_log_idx entries
      else done (true, s)

  -- The write of an entry: the error of `AppendEntryToLocal` is dropped, its panic is not.
  unfoldable pub store_entry : Server w → RtGroup → LogEntry → Outcome (Server w)
  store_entry s m entry = append_entry_to_local w m.group.id s.db entry >>= λ r. elim r [
    | ok db' ↦ done (record s { db = db' })
    | err e ↦ done s
  ]

  -- After the commit: the answer moves on to the entry if its client is a known host.
  unfoldable pub note_entry : LogEntry → AppendEntriesResponse → Server w → RtGroup → Progress w
  note_entry entry response s m =
      let (client, s') = get_host w s entry.command.client_id in
      (
        elim client [
          | none ↦ response
          | some node ↦ record response {
            term = entry.term;
            index = entry.index;
            hash = entry.hash;
            signature = sign w s entry.hash;
          }
        ],
        s',
        m,
      )

  -- The term of the last entry, 0 for an empty log.
  unfoldable pub last_log_term : Server w → RtGroup → ℕ
  last_log_term s m = elim (last_log_entry w m.group.id s.db) [ none ↦ 0 | some entry ↦ entry.term ]

module _ (w : World) (func_reg : ℕ → Option (RaftFunc w)) where
  -- `CommitGroupLog`: a function that is not registered is nil, and its call panics.
  unfoldable pub commit_group_log :
      LogEntry → Server w → RtGroup → Outcome (Bytes × Server w × RtGroup)
  commit_group_log entry s m = elim (func_reg entry.command.func_id) [
    | none ↦ panicked
    | some f ↦ f entry s m
  ]

  -- One round of the loop that appends: store, commit, note.
  unfoldable pub append_one : LogEntry → Progress w → Outcome (Progress w)
  unfolding store_entry commit_group_log note_entry
  append_one entry (response, s, m) = store_entry w s m entry >>= λ s'.
      commit_group_log entry s' m >>= λ r. done (note_entry w entry response r.1 r.2)

  unfoldable pub append_all : List LogEntry → Progress w → Outcome (Progress w)
  unfolding append_one
  append_all [] p = done p
  append_all (entry ∷ entries) p = append_one entry p >>= λ p'. append_all entries p'

  -- The entries, once their place in the log has been found right.
  unfoldable pub take_entries :
      AppendEntriesResponse
      → Server w
      → RtGroup
      → List LogEntry
      → Outcome (Result AppendEntriesResponse × Server w × RtGroup)
  unfolding check_all append_all
  take_entries response s m entries =
      check_all w s (last_entry_hash w m.group.id s.db)
        ((last_entry_index w m.group.id s.db + 1) % 2 ^ 64) entries
      >>= λ c.
          if c.0
          then (append_all entries (response, c.1, m) >>= λ p.
              done (ok (record p.0 { successed = true }), p.1, p.2))
          else done (ok response, c.1, m)

  -- The part of `AppendEntries` that follows the check of the leader.
  unfoldable pub match_entries :
      AppendEntriesResponse
      → Server w
      → RtGroup
      → AppendEntriesRequest
      → Outcome (Result AppendEntriesResponse × Server w × RtGroup)
  unfolding take_entries last_log_term
  match_entries response s m req = elim req.entries [
    | [] ↦ done (ok response, s, m)
    | first ∷ rest ↦
        let last_log_idx = last_entry_index w m.group.id s.db in
        if not
          ((req.prev_log_index == last_log_idx) && (first.index == ((last_log_idx + 1) % 2 ^ 64)))
        then done (ok response, s, m)
        else if not (req.prev_log_term == last_log_term w s m)
        then done (err prev_term_mismatch, s, m)
        else take_entries response s m (first ∷ rest)
  ]

  -- The part that follows the check of the leader's key.
  unfoldable pub follow_leader :
      ℕ
      → AppendEntriesResponse
      → Server w
      → RtGroup
      → AppendEntriesRequest
      → Outcome (Result AppendEntriesResponse × Server w × RtGroup)
  unfolding match_entries
  follow_leader now response s m req = get_host_public_key w s m.leader_id >>= λ got. elim got.0 [
    | none ↦ done (err no_leader_key, got.1, m)
    | some key ↦
        match_entries (record response { convinced = true }) got.1
          (record m { timeout = now + 10 * 1000 }) req
  ]

  -- `AppendEntries`
  unfoldable pub append_entries :
      ℕ
      → ℕ
      → Server w
      → RtGroup
      → AppendEntriesRequest
      → Outcome (Result AppendEntriesResponse × Server w × RtGroup)
  unfolding first_response transfer follow_leader
  append_entries now draw s m req = elim (lookup req.leader_id m.group_peers) [
    | none ↦ done (err no_host_or_group, s, m)
    | some leader_peer ↦ transfer w now draw s m req >>= λ t. elim t.0 [
      | some e ↦ done (err e, t.1, t.2)
      | none ↦ follow_leader now (first_response w s m) t.1 t.2 req
    ]
  ]
