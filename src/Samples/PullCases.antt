-- ===== src/Samples/PullCases.antt =====
-- The theorems on `PullGroupLogs` at the small cluster.
use bftraft4go.Prelude.{
  ◌≡◌, ◌≢◌, refl, false, some, [], ◌∷◌, map, arith, Bytes, bytes_equal, bytes_equal_refl,
}
use bftraft4go.Outcome.{done}
use bftraft4go.Encoding.{u64_bytes, put_uint}
use bftraft4go.Text.{decimal, digits}
use bftraft4go.Log.{log_hash, group_hash}
use bftraft4go.Log.Abstract.{last_hash}
use bftraft4go.Groups.{pull_group_logs}
use bftraft4go.Groups.Pulls.{after, pull_group_logs-eq}
use bftraft4go.Observer.{commit_pulled}
use bftraft4go.Observer.Pulls.{Apart, pull-stuck}
use bftraft4go.Samples.Small.{small, small-IsWorld}
use bftraft4go.Samples.Cluster.{
  node, group, first_entry, second_entry, two_writes, two_writes-IsLog, empty-IsLog,
}
use bftraft4go.Samples.HandlerCases.{registered}

pull_group_logs-eq_example :
    pull_group_logs small two_writes 7 1
    ≡ done (map some (after 1 (first_entry ∷ second_entry ∷ [])))
pull_group_logs-eq_example =
    pull_group_logs-eq small small-IsWorld 7 two_writes (first_entry ∷ second_entry ∷ [])
      two_writes-IsLog 1 (omega arith)

differ : (a b : Bytes) → bytes_equal a b ≡ false → a ≢ b
differ a b e same = cc (e, bytes_equal_refl a, same)

off_chain : log_hash small (group_hash small 7) 2 2 (5 ∷ []) ≢ second_entry.hash
unfolding log_hash group_hash decimal digits bytes_equal u64_bytes put_uint
off_chain = differ _ _ refl

second-Apart : Apart small 7 (last_hash (group_hash small 7) []) (second_entry ∷ [])
second-Apart = (refl, off_chain)

pull-stuck_example :
    (pull_group_logs small two_writes 7 1 ≡ done (map some (second_entry ∷ [])))
    × (commit_pulled small registered (second_entry ∷ []) (node []) (group 2)
        ≡ done (node [], group 2))
pull-stuck_example =
    pull-stuck small small-IsWorld registered 7 two_writes [] (second_entry ∷ []) first_entry
      two_writes-IsLog (node []) (group 2) refl empty-IsLog second-Apart
