-- ===== src/Membership/Registry.antt =====
-- `RegisterMembershipCommands` of server/membership.go: the membership commands as registered
-- functions. A function runs on a group that is on board; `onboard` are the others.
use bftraft4go.Prelude.{
  ℕ, Bool, Option, none, some, Bytes, ◌==◌, if◌then◌else◌, Map, lookup, insert,
}
use bftraft4go.Outcome.{done, ◌>>=◌}
use bftraft4go.World.{World}
use bftraft4go.Server.{RtGroup}
use bftraft4go.Follower.{RaftFunc}
use bftraft4go.Leader.{reg_node}
use bftraft4go.Membership.{sm_reg_host, sm_node_join, sm_new_client, sm_new_group}

abbrev pub node_join : ℕ
node_join = 0

abbrev pub new_client : ℕ
new_client = 2

abbrev pub new_group : ℕ
new_group = 3

-- The group itself, after a function has changed what is on board.
unfoldable pub own_group : RtGroup → Map RtGroup → RtGroup
own_group m onboard = elim (lookup m.group.id onboard) [ none ↦ m | some m' ↦ m' ]

module _ (w : World) (hash_key : Bytes → ℕ) (decode_join : Bytes → Option ℕ)
    (connects : Bytes → Bool) (now : ℕ) (onboard : Map RtGroup) where
  unfoldable pub reg_node_func : RaftFunc w
  reg_node_func entry s m =
      let (result, s') = sm_reg_host w hash_key s entry.command.arg in done (result, s', m)

  unfoldable pub new_client_func : RaftFunc w
  new_client_func entry s m =
      let (result, s') = sm_new_client w hash_key s entry.command.arg in done (result, s', m)

  unfoldable pub node_join_func : RaftFunc w
  unfolding own_group
  node_join_func entry s m =
      sm_node_join w decode_join connects s (insert m.group.id m onboard) entry.command.arg entry
      >>= λ r. done (r.0, r.1, own_group m r.2)

  unfoldable pub new_group_func : RaftFunc w
  unfolding own_group
  new_group_func entry s m =
      let (result, s', onboard') =
        sm_new_group w now s (insert m.group.id m onboard) entry.command.arg entry in
      done (result, s', own_group m onboard')

  -- `RegisterMembershipCommands`
  unfoldable pub membership_funcs : ℕ → Option (RaftFunc w)
  unfolding node_join_func reg_node_func new_client_func new_group_func
  membership_funcs id =
      if id == node_join
      then some node_join_func
      else if id == reg_node
      then some reg_node_func
      else if id == new_client
      then some new_client_func
      else if id == new_group
      then some new_group_func
      else none
