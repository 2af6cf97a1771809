-- ===== src/Observer.antt =====
-- `PullAndCommitGroupLogs` of server/observer.go: an observer takes the entries that a majority of
-- the peers answer with. The answers are an argument, in the order of arrival; a nil answer has no
-- entries that the code could go through, and panics in the type assertion.
pub mod Pulls
use bftraft4go.Prelude.{ℕ, ◌+◌, ◌%◌, ◌^◌, Option, none, some, List, [], ◌∷◌, Bytes, Map}
use bftraft4go.Messages.{LogEntry, Peer}
use bftraft4go.Outcome.{Outcome, done, panicked, ◌>>=◌, ok, err}
use bftraft4go.World.{World}
use bftraft4go.Consensus.{FuncResult, majority_response}
use bftraft4go.Server.{Server, RtGroup}
use bftraft4go.Hosts.{get_host}
use bftraft4go.Log.{last_entry_index, append_entry_to_local}
use bftraft4go.Follower.{RaftFunc, commit_group_log}

-- The feature of an answer: the hash of its last entry.
unfoldable pub feature : List LogEntry → Bytes
feature [] = 1 ∷ []
feature (entry ∷ []) = entry.hash
feature (entry ∷ next ∷ entries) = feature (next ∷ entries)

-- What the peers' answers are to `MajorityResponse`: a failed call is nil.
unfoldable pub results_of : List (Option (List LogEntry)) → List (FuncResult (List LogEntry))
unfolding feature
results_of [] = []
results_of (none ∷ rest) = record { result = none; feature = [] } ∷ results_of rest
results_of (some entries ∷ rest) =
    record { result = some entries; feature = feature entries } ∷ results_of rest

module _ (w : World) where
  -- The first loop: the host of each peer is dereferenced.
  unfoldable pub find_clients : List (ℕ × Peer) → Server w → Outcome (Server w)
  find_clients [] s = done s
  find_clients ((peer_id, peer) ∷ peers) s =
      let (node, s') = get_host w s peer.id in
      elim node [ none ↦ panicked | some host ↦ find_clients peers s' ]

module _ (w : World) (func_reg : ℕ → Option (RaftFunc w)) where
  -- The last loop: at the first entry that is refused the observer stops.
  unfoldable pub commit_pulled : List LogEntry → Server w → RtGroup → Outcome (Server w × RtGroup)
  commit_pulled [] s m = done (s, m)
  commit_pulled (entry ∷ entries) s m = append_entry_to_local w m.group.id s.db entry >>= λ r.
      elim r [
        | err e ↦ done (s, m)
        | ok db' ↦ commit_group_log w func_reg entry (record s { db = db' }) m >>= λ c.
            commit_pulled entries c.1 c.2
      ]

  -- `PullAndCommitGroupLogs`; `answers` are those to a request from the index on that it is given.
  unfoldable pub pull_and_commit_group_logs :
      (Bytes → ℕ)
      → (Map ℕ → Map ℕ)
      → (Map (List LogEntry) → Map (List LogEntry))
      → (Map Peer → Map Peer)
      → (ℕ → List (Option (List LogEntry)))
      → Server w
      → RtGroup
      → Outcome (Server w × RtGroup)
  unfolding find_clients commit_pulled results_of
  pull_and_commit_group_logs hash_data range range_vals visits answers s m =
      find_clients w (visits m.group_peers) s >>= λ s'.
      elim (majority_response hash_data range range_vals
        (results_of (answers ((last_entry_index w m.group.id s'.db + 1) % 2 ^ 64)))) [
          | none ↦ panicked
          | some entries ↦ commit_pulled entries s' m
        ]
