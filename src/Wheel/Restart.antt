-- ===== src/Wheel/Restart.antt =====
-- A node that starts again with a group of its own.
use bftraft4go.Prelude.{
  ℕ, ◌+◌, ◌≤◌, ◌<◌, ◌≡◌, refl, ◌∙◌, sym, true, false, arith, ltb, ◌==◌, length, Map, lookup, Option,
  some,
}
use bftraft4go.Messages.{Peer}
use bftraft4go.Outcome.{done, panicked}
use bftraft4go.World.{World}
use bftraft4go.Server.{Server, RtGroup, follower}
use bftraft4go.Follower.{RaftFunc}
use bftraft4go.Scan.{scan_hosted_groups}
use bftraft4go.Scan.Scanned.{scan_hosted_groups-FromDb}
use bftraft4go.Wheel.{Look, act, turn}

module _ (w : World) (func_reg : ℕ → Option (RaftFunc w)) where
  own_follower-panics :
      (l : Look) (s : Server w) (m : RtGroup)
      → m.role ≡ follower
      → m.leader_id ≡ s.id
      → m.timeout ≤ l.now
      → turn w func_reg l s m ≡ panicked
  unfolding turn act
  own_follower-panics l s m role own over =
      let late : ltb l.now m.timeout ≡ false = ground arith in
      let same : (m.leader_id == s.id) ≡ true = ground arith in rw late (rw role (rw same refl))

  -- A group with less than two peers that `ScanHostedGroups` takes on board for the node's own id,
  -- under the number of its content, makes the time wheel panic at the first look a minute later,
  -- where the visit of a map meets all of it: the node is its leader and a follower.
  pub lone_group-panics :
      (visits : Map Peer → Map Peer)
      → ((peers : Map Peer) → length (visits peers) ≡ length peers)
      → (now : ℕ) (s : Server w) (onboard : Map RtGroup) (r : Map RtGroup × Server w × Map RtGroup)
      → scan_hosted_groups w visits now s s.id onboard ≡ done r
      → (g : ℕ) (m : RtGroup) → lookup g r.0 ≡ some m
      → m.group.id ≡ g
      → length m.group_peers < 2
      → (l : Look) (t : Server w) → t.id ≡ s.id
      → now + 60000 ≤ l.now
      → turn w func_reg l t m ≡ panicked
  lone_group-panics visits whole now s onboard r scanned g m at own few l t same late =
      let found = scan_hosted_groups-FromDb w visits now s s.id onboard r scanned g m at in
      own_follower-panics l t m found.role
        (found.lone own (omega (arith, whole m.group_peers)) ∙ sym same)
        (omega (arith, found.timeout))
