-- ===== src/Samples/GroupCases.antt =====
-- The theorems on saved groups and hosts, and on new groups, at the small cluster.
use bftraft4go.Prelude.{◌≡◌, refl, some, [], ◌∷◌, true}
use bftraft4go.Messages.{RaftGroup}
use bftraft4go.Store.{compose_key_prefix, group_meta}
use bftraft4go.Vote.{save_group}
use bftraft4go.Groups.{get_group_from_kv}
use bftraft4go.Groups.Stored.{get_group_from_kv-save_group}
use bftraft4go.Membership.{sm_new_group}
use bftraft4go.Membership.NewGroups.{Proposed, sm_new_group-Proposed}
use bftraft4go.Samples.Codecs.{encode_group, decode_group}
use bftraft4go.Samples.Small.{small, small-IsWorld}
use bftraft4go.Samples.Cluster.{node, first_entry}

abbrev proposal : RaftGroup
proposal = record { replications = 3; id = 8; term = 0 }

get_group_from_kv-save_group_example :
    get_group_from_kv small (save_group small (node []) proposal).db 8 ≡ some proposal
get_group_from_kv-save_group_example =
    get_group_from_kv-save_group small small-IsWorld (node []) proposal (encode_group proposal)
      ((compose_key_prefix 8 group_meta, encode_group proposal) ∷ []) refl refl

decoded : decode_group (3 ∷ 8 ∷ 0 ∷ []) ≡ (proposal, true)
unfolding decode_group
decoded = refl

sm_new_group-Proposed_example :
    Proposed small small-IsWorld 0
      (node [])
      []
      (3 ∷ 8 ∷ 0 ∷ [])
      first_entry
      proposal
      decoded
      (sm_new_group small 0 (node []) [] (3 ∷ 8 ∷ 0 ∷ []) first_entry)
sm_new_group-Proposed_example =
    sm_new_group-Proposed small small-IsWorld 0 (node []) [] (3 ∷ 8 ∷ 0 ∷ []) first_entry proposal
      decoded
