-- ===== src/Samples/LogCases.antt =====
-- The theorems on the log of a group at the small cluster.
use bftraft4go.Prelude.{ℕ, ◌≡◌, ◌≢◌, refl, some, [], ◌∷◌, ◌++◌, arith, Bytes}
use bftraft4go.Outcome.{done, ok}
use bftraft4go.Log.{last_log_entry, append_entry_to_local}
use bftraft4go.Log.Abstract.{IsLog, last_log_entry-eq}
use bftraft4go.Log.Append.{append_entry_to_local-IsLog}
use bftraft4go.Peers.{peer_uncommitted_log_entries}
use bftraft4go.Peers.Uncommitted.{peer_uncommitted_log_entries-eq, sent_before, entry_or_zero}
use bftraft4go.Samples.Codecs.{encode_entry}
use bftraft4go.Samples.Small.{small, small-IsWorld}
use bftraft4go.Samples.Cluster.{
  first_entry, second_entry, one_write, two_writes, one_write-IsLog, two_writes-IsLog, peer,
}

append_entry_to_local-IsLog_example :
    (append_entry_to_local small 7 one_write second_entry ≡ done (ok two_writes))
    × IsLog small 7 two_writes (first_entry ∷ second_entry ∷ [])
append_entry_to_local-IsLog_example =
    append_entry_to_local-IsLog small small-IsWorld 7 one_write (first_entry ∷ []) one_write-IsLog
      second_entry refl (omega arith) refl two_writes (encode_entry second_entry) refl refl refl

ends : (xs : Bytes) (x : ℕ) → ◌≢◌ {A = Bytes} [] (xs ++ x ∷ [])
ends [] x = λ e. cc (e)
ends (y ∷ ys) x = λ e. cc (e)

last_log_entry-eq_example : last_log_entry small 7 two_writes ≡ some second_entry
last_log_entry-eq_example =
    last_log_entry-eq small small-IsWorld 7 two_writes (first_entry ∷ second_entry ∷ [])
      two_writes-IsLog

peer_uncommitted_log_entries-eq_example :
    ((peer_uncommitted_log_entries small 7 two_writes (peer 3)).0 ≡ second_entry ∷ [])
    × ((peer_uncommitted_log_entries small 7 two_writes (peer 3)).1 ≡ first_entry)
unfolding sent_before entry_or_zero
peer_uncommitted_log_entries-eq_example =
    peer_uncommitted_log_entries-eq small small-IsWorld 7 two_writes
      (first_entry ∷ second_entry ∷ []) two_writes-IsLog (peer 3) 1 refl
