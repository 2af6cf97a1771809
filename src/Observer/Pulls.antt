-- ===== src/Observer/Pulls.antt =====
-- An observer that pulls from a node whose log is longer.
use bftraft4go.Prelude.{
  ℕ, suc, ◌≡◌, ◌≢◌, refl, sym, subst, ap, ◌∙◌, Option, some, List, [], ◌∷◌, ◌++◌, map, arith, Bytes,
  bytes_equal, bytes_equal→eq, drop, length, length-append, ◌==◌, inl, inr, Bool-cases, true, false,
}
use bftraft4go.Messages.{LogEntry}
use bftraft4go.Outcome.{done, err, GoError, hash_mismatch, log_existed, store_error}
use bftraft4go.World.{World, IsWorld, Fetched, found, key_not_found, failed}
use bftraft4go.Server.{Server, RtGroup}
use bftraft4go.Store.{log_entry_key}
use bftraft4go.Log.{log_hash, group_hash, last_entry_hash, append_entry_to_local}
use bftraft4go.Log.Abstract.{last_hash, IsLog}
use bftraft4go.Log.Reads.{last_entry_hash-eq}
use bftraft4go.Follower.{RaftFunc}
use bftraft4go.Groups.{pull_group_logs}
use bftraft4go.Groups.Pulls.{pull_group_logs-eq}
use bftraft4go.Observer.{commit_pulled}

drop-longer :
    (es rest : List LogEntry) (e : LogEntry) → drop (suc (length es)) (es ++ e ∷ rest) ≡ rest
drop-longer [] rest e = refl
drop-longer (x ∷ es) rest e = drop-longer es rest e

module _ (w : World) where
  -- An entry whose hash does not stand on the last hash of the log is refused, whatever its index.
  refused_off_chain :
      (g : ℕ) (db : w.Db) (e : LogEntry)
      → e.command.group ≡ g
      → log_hash w (last_entry_hash w g db) e.index e.command.func_id e.command.arg ≢ e.hash
      → (x : GoError) × (append_entry_to_local w g db e ≡ done (err x))
  refused_off_chain g db e own off = go (w.get db (log_entry_key e.command.group e.index)) refl
    where
      here : (e.command.group == g) ≡ true
      here = ground arith

      differs :
          bytes_equal
            (log_hash w (last_entry_hash w g db) e.index e.command.func_id e.command.arg)
            e.hash
          ≡ false
      differs = elim (Bool-cases _) [
        | inl same ↦ absurd (off (bytes_equal→eq _ _ same))
        | inr d ↦ d
      ]

      go :
          (f : Fetched)
          → w.get db (log_entry_key e.command.group e.index) ≡ f
          → (x : GoError) × (append_entry_to_local w g db e ≡ done (err x))
      go key_not_found at =
          (hash_mismatch, unfold append_entry_to_local in ground (arith, at, differs))
      go (found v) at = (log_existed, unfold append_entry_to_local in ground (arith, at))
      go failed at = (store_error, unfold append_entry_to_local in ground (arith, at))

  -- No hash of two chains meets: the first entry does not stand on the hash `h` too.
  abbrev pub Apart : ℕ → Bytes → List LogEntry → Type 0
  Apart g h [] = Unit
  Apart g h (d ∷ rest) =
      (d.command.group ≡ g) × (log_hash w h d.index d.command.func_id d.command.arg ≢ d.hash)

  abbrev Off : ℕ → w.Db → List LogEntry → Type 0
  Off g db rest = Apart g (last_entry_hash w g db) rest

  stays :
      (func_reg : ℕ → Option (RaftFunc w)) (rest : List LogEntry) (s : Server w) (m : RtGroup)
      → Off m.group.id s.db rest
      → commit_pulled w func_reg rest s m ≡ done (s, m)
  unfolding commit_pulled
  stays func_reg [] s m off = refl
  stays func_reg (d ∷ rest) s m off =
      let (x, refused) = refused_off_chain m.group.id s.db d off.0 off.1 in rw refused refl

  module _ (laws : IsWorld w) (func_reg : ℕ → Option (RaftFunc w)) (g : ℕ) where
    -- An observer with the log `es` does not catch up with a node that has the log `es`, an entry
    -- and more: in a world that keeps its laws, `PullGroupLogs` of the index that the observer
    -- lacks answers what follows that entry, and `commit_pulled` on this leaves the node and the
    -- group as they are, where the first entry that is answered does not stand on the last hash of
    -- `es`.
    pub pull-stuck :
        (db : w.Db) (es rest : List LogEntry) (e : LogEntry)
        → IsLog w g db (es ++ e ∷ rest)
        → (s : Server w) (m : RtGroup) → m.group.id ≡ g
        → IsLog w g s.db es
        → Apart g (last_hash (group_hash w g) es) rest
        → (pull_group_logs w db g (suc (length es)) ≡ done (map some rest))
          × (commit_pulled w func_reg rest s m ≡ done (s, m))
    pull-stuck db es rest e remote s m own log apart = (
      pull_group_logs-eq w laws g db (es ++ e ∷ rest) remote (suc (length es))
            (omega (arith, remote.short, length-append es (e ∷ rest)))
          ∙ ap (λ t. done (map some t)) (drop-longer es rest e),
      stays func_reg rest s m (subst (λ i. Off i s.db rest) (sym own) (off_of rest apart)),
    )
      where
        off_of :
            (rest : List LogEntry) → Apart g (last_hash (group_hash w g) es) rest → Off g s.db rest
        off_of [] apart = tt
        off_of (d ∷ rest) apart = rw (last_entry_hash-eq w laws g s.db es log) apart
