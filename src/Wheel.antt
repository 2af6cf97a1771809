-- ===== src/Wheel.antt =====
-- `StartTimeWheel` of server/group.go: what a node does with a group when its timer has run out. The
-- goroutine that looks at the timer every 100 ms is the list of the looks; what each look meets of the
-- time, the network and the draws is its `Look`.
pub mod Restart
pub mod Keeps
pub mod Logs
use bftraft4go.Prelude.{ℕ, Bool, List, [], ◌∷◌, Option, Bytes, Map, ltb, ◌==◌, if◌then◌else◌}
use bftraft4go.Messages.{LogEntry, RequestVoteRequest}
use bftraft4go.Outcome.{Outcome, done, panicked, ◌>>=◌}
use bftraft4go.World.{World}
use bftraft4go.Server.{Server, RtGroup, Role, leader, follower, candidate, observer, refresh_timer}
use bftraft4go.Follower.{RaftFunc}
use bftraft4go.Leader.{Network, send_followers_heartbeat}
use bftraft4go.Election.{Ballot, become_candidate}
use bftraft4go.Observer.{pull_and_commit_group_logs}

pub record Look : Type 0 where
  pub now : ℕ
  pub draw : ℕ
  pub draw_long : ℕ
  pub net : Network
  pub ballots : RequestVoteRequest → List Ballot
  -- For the observer: the hash of a feature, the visits of the maps, and the answers to a pull.
  pub hash_data : Bytes → ℕ
  pub range : Map ℕ → Map ℕ
  pub range_vals : Map (List LogEntry) → Map (List LogEntry)
  pub pulled : ℕ → List (Option (List LogEntry))

module _ (w : World) (func_reg : ℕ → Option (RaftFunc w)) where
  -- The round of the wheel by the role of the group.
  unfoldable pub act : Role → Look → Server w → RtGroup → Outcome (Server w × RtGroup)
  unfolding refresh_timer
  act candidate l s m = become_candidate w l.net l.ballots l.now l.draw l.draw_long s m
  act follower l s m =
      if m.leader_id == s.id
      then panicked
      else become_candidate w l.net l.ballots l.now l.draw l.draw_long s m
  act leader l s m = send_followers_heartbeat w l.net l.now l.draw s m
  act observer l s m =
      pull_and_commit_group_logs w func_reg l.hash_data l.range l.range_vals l.net.visits l.pulled s
        m
      >>= λ r. done (r.0, refresh_timer l.now l.draw_long r.1)

  -- One look at the timer.
  unfoldable pub turn : Look → Server w → RtGroup → Outcome (Server w × RtGroup)
  unfolding act
  turn l s m = if ltb l.now m.timeout then done (s, m) else act m.role l s m

  -- `StartTimeWheel`
  unfoldable pub run_wheel : List Look → Server w → RtGroup → Outcome (Server w × RtGroup)
  unfolding turn
  run_wheel [] s m = done (s, m)
  run_wheel (l ∷ looks) s m = turn l s m >>= λ r. run_wheel looks r.0 r.1
