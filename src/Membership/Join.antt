-- ===== src/Membership/Join.antt =====
-- The parts of server/membership.go that propose a membership command and wait for what follows:
-- `RegHost`, `NodeJoin`, `NewGroup`. What the user client's `ExecCommand` returns is an argument (see
-- Client), and so are the invitations that arrive in time, in their order, and the end of the wait for a
-- new group.
pub mod Taken
pub mod Invited
use bftraft4go.Prelude.{
  ℕ, Bool, true, false, Option, none, some, List, [], ◌∷◌, ◌++◌, Bytes, ltb, leb, ◌==◌,
  if◌then◌else◌, length, Map, lookup, insert,
}
use bftraft4go.Text.{decimal, dash}
use bftraft4go.Messages.{Peer, Host, RaftGroup, GroupInvitation}
use bftraft4go.Outcome.{
  Outcome, done, panicked, ◌>>=◌, GoError, codec_error, remote_error, timeout, unexpected, Result,
  ok, err,
}
use bftraft4go.World.{World, Codec}
use bftraft4go.Consensus.{expected_players, pick_majority}
use bftraft4go.Server.{Server, RtGroup, follower, sign}
use bftraft4go.Hosts.{save_host}
use bftraft4go.Peers.{get_group_peers_from_kv, save_peer}
use bftraft4go.Groups.{new_rt_group, set_onboard_group, get_group, get_group_hosts}
use bftraft4go.Alpha.{this_host}
use bftraft4go.Membership.{new_peer}

-- `InvitationSignature`
unfoldable pub invitation_signature : GroupInvitation → Bytes
invitation_signature inv =
    decimal inv.group ++ dash ∷ (decimal inv.node ++ dash ∷ decimal inv.leader)

-- The invitation of `SMNodeJoin` to a node that joins the group `m`.
unfoldable pub invitation_of : (w : World) → Server w → RtGroup → ℕ → GroupInvitation
unfolding invitation_signature
invitation_of w s m group_id =
    let inv : GroupInvitation = record {
      group = group_id;
      leader = m.leader_id;
      node = s.id;
      signature = [];
    } in
    record inv { signature = sign w s (invitation_signature inv) }

-- `hostsMap`
unfoldable pub hosts_map : List Host → Map Bool → Map Bool
hosts_map [] m = m
hosts_map (h ∷ hosts) m = hosts_map hosts (insert h.id true m)

-- The invitations taken so far, and their leaders in the order of arrival.
pub record Invitations : Type 0 where
  pub taken : Map GroupInvitation
  pub leaders : List ℕ

-- One round of the loop over the invitations: the first one of each member counts.
unfoldable pub take_invitation : Map Bool → GroupInvitation → Invitations → Invitations
take_invitation hosts inv i = elim (lookup inv.node hosts) [
  | none ↦ i
  | some member ↦ elim (lookup inv.node i.taken) [
    | some old ↦ i
    | none ↦ record { taken = insert inv.node inv i.taken; leaders = i.leaders ++ inv.leader ∷ [] }
  ]
]

-- The loop, until there are enough; `none` where they do not come in time. An invitation of a node
-- that is no member does not end the wait.
unfoldable pub wait_invitations :
    Map Bool → ℕ → List GroupInvitation → Invitations → Option Invitations
unfolding take_invitation
wait_invitations hosts expected_response [] i = none
wait_invitations hosts expected_response (inv ∷ invs) i =
    let next = take_invitation hosts inv i in
    let rest = wait_invitations hosts expected_response invs next in
    elim (lookup inv.node hosts) [
      | none ↦ rest
      | some member ↦ if leb expected_response (length next.taken) then some next else rest
    ]

module _ (w : World) where
  -- The end of `NodeJoin`, with enough invitations. `leader = LEADER` gives the leader the number 0
  -- where the role is meant. A group that is not known is nil, which the first look at it
  -- dereferences; an error of the transaction is dropped.
  unfoldable pub join_as_peer :
      (Map ℕ → Map ℕ)
      → ℕ
      → ℕ
      → Invitations
      → Server w
      → Map RtGroup
      → Outcome (Server w × Map RtGroup)
  join_as_peer range now group_id i s onboard =
      let (group, s') = get_group w s group_id in
      let peer = new_peer s.id group_id in
      get_group_peers_from_kv w s'.db group_id >>= λ peers. elim (save_peer w s' peer) [
        | err e ↦ done (s', onboard)
        | ok t ↦ elim group [
          | none ↦ panicked
          | some g ↦
              let picked = pick_majority range i.leaders in
              let leader = if picked == s.id then 0 else picked in
              done (
                t,
                set_onboard_group onboard
                    (new_rt_group now leader (insert s.id peer peers) g follower),
              )
        ]
      ]

  -- `NodeJoin`, after the answer of `ExecCommand`. An empty answer panics.
  unfoldable pub node_join :
      (Map ℕ → Map ℕ)
      → (Map Peer → Map Peer)
      → ℕ
      → ℕ
      → Result Bytes
      → List GroupInvitation
      → Server w
      → Map RtGroup
      → Outcome (Result (Unit {0}) × Server w × Map RtGroup)
  unfolding wait_invitations hosts_map join_as_peer
  node_join range visits now group_id res invs s onboard = elim res [
    | err e ↦ done (err e, s, onboard)
    | ok bytes ↦ elim bytes [
      | [] ↦ panicked
      | first ∷ rest ↦
          if first == 1
          then (get_group_hosts w visits s group_id >>= λ h.
              let hosts = hosts_map h.0 [] in
              elim (wait_invitations hosts (expected_players (length hosts)) invs
                (record { taken = []; leaders = [] })) [
                  | none ↦ done (err timeout, h.1, onboard)
                  | some i ↦
                      join_as_peer range now group_id i h.1 onboard >>= λ r. done (ok tt, r.0, r.1)
                ])
          else done (err remote_error, s, onboard)
    ]
  ]

  -- `RegHost`: the node saves itself first, with an error dropped. `exec` is the client's
  -- `ExecCommand` on the encoded host.
  unfoldable pub reg_host :
      (w.PublicKey → Option Bytes)
      → Bytes
      → (Bytes → Result Bytes)
      → Server w
      → Outcome (Result (Unit {0}) × Server w)
  unfolding this_host
  reg_host marshal_key address exec s = elim (marshal_key (w.public_of s.private_key)) [
    | none ↦ done (err codec_error, s)
    | some public_key ↦
        let host = record (this_host w marshal_key address s) { public_key = public_key } in
        elim (w.host_codec.marshal host) [
          | none ↦ done (err codec_error, s)
          | some host_data ↦
              let s' : Server w = elim (save_host w s host) [ ok t ↦ t | err e ↦ s ] in
              elim (exec host_data) [
                | err e ↦ done (err e, s')
                | ok bytes ↦ elim bytes [
                  | [] ↦ panicked
                  | first ∷ rest ↦ done (
                    (if first == 0
                        then err remote_error
                        else if first == 1
                        then ok tt
                        else err unexpected),
                    s',
                  )
                ]
              ]
        ]
  ]

  -- `NewGroup`: `created` is what arrives on the channel of the group within ten seconds.
  unfoldable pub propose_group :
      (Bytes → Result Bytes) → Option (Result (Unit {0})) → RaftGroup → Result (Unit {0})
  propose_group exec created group = elim (w.group_codec.marshal group) [
    | none ↦ err codec_error
    | some group_data ↦ elim (exec group_data) [
      | err e ↦ err e
      | ok bytes ↦
          if ltb 1 (length bytes)
          then (elim created [ none ↦ err timeout | some res ↦ res ])
          else err remote_error
    ]
  ]
