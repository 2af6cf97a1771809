-- ===== src/Wheel/Logs.antt =====
-- What the time wheel does to the log of a group.
use bftraft4go.Prelude.{
  ℕ, ◌^◌, ◌<◌, ◌≡◌, refl, sym, ◌∙◌, subst, Option, List, [], ◌∷◌, ltb, ◌==◌, length, take,
  Bool-cases, inl, inr,
}
use bftraft4go.Messages.{LogEntry, RequestVoteResponse}
use bftraft4go.Outcome.{done, panicked, >>=-eq-done, along_done}
use bftraft4go.World.{World, IsWorld}
use bftraft4go.Server.{
  Server, RtGroup, Role, leader, follower, candidate, observer, refresh_timer,
  expected_honest_peers,
}
use bftraft4go.Log.{last_log_entry}
use bftraft4go.Log.Abstract.{IsLog}
use bftraft4go.Vote.{is_candidate, save_group, reset_term}
use bftraft4go.Follower.{RaftFunc}
use bftraft4go.Follower.Keeps.{save_group-IsLog}
use bftraft4go.Follower.Appends.{AtLog}
use bftraft4go.Leader.{Network}
use bftraft4go.Leader.Beats.{send_followers_heartbeat-IsLog}
use bftraft4go.Election.{
  candidate_request, ask_peers, gather_votes, become_leader, settle_election, stand,
  become_candidate,
}
use bftraft4go.Wheel.Keeps.{ask_peers-db, gather_votes-db, send_followers_heartbeat-role}
use bftraft4go.Wheel.{Look, act, turn, run_wheel}

-- A role in which the node takes part in the group.
abbrev pub TakesPart : Role → Type 0
TakesPart observer = ⊥
TakesPart leader = Unit
TakesPart follower = Unit
TakesPart candidate = Unit

module _ (w : World) where
  module _ (laws : IsWorld w) (g : ℕ) (es : List LogEntry) (fits : g < 2 ^ 64) where
    -- The log is `es`, and the node takes part in the group.
    abbrev pub TakingPart : Server w × RtGroup → Type 0
    TakingPart p = AtLog w g es p.0 p.1 × TakesPart p.1.role

    stand-AtLog :
        (s : Server w) (m : RtGroup)
        → AtLog w g es s m
        → AtLog w g es (stand w s m).0 (stand w s m).1 × ((stand w s m).1.role ≡ candidate)
    unfolding stand reset_term
    stand-AtLog s m at = (
      (
        at.0,
        save_group-IsLog w laws g es fits _ _ at.0
            (save_group-IsLog w laws g es fits s _ at.0 at.1),
      ),
      refl,
    )

    become_leader-TakingPart :
        (net : Network) (now draw : ℕ) (s : Server w) (m : RtGroup) (r : Server w × RtGroup)
        → become_leader w net now draw s m ≡ done r
        → AtLog w g es s m
        → TakingPart r
    unfolding become_leader
    become_leader-TakingPart net now draw s m r e at = (
      send_followers_heartbeat-IsLog w laws g es net now draw (save_group w s m.group) _ r e
          (at.0, save_group-IsLog w laws g es fits s m.group at.0 at.1),
      subst TakesPart
          (sym (send_followers_heartbeat-role w net now draw (save_group w s m.group) _ r e)) tt,
    )

    abbrev kept_votes : RtGroup → List RequestVoteResponse → RtGroup
    kept_votes m votes = record m { votes = take (expected_honest_peers m) votes }

    settle_election-TakingPart :
        (net : Network) (now draw : ℕ) (s : Server w) (m : RtGroup)
        (votes : List RequestVoteResponse) (r : Server w × RtGroup)
        → settle_election w net now draw s m votes ≡ done r
        → TakingPart (s, m)
        → TakingPart r
    unfolding settle_election refresh_timer
    settle_election-TakingPart net now draw s m votes r e at =
        elim (Bool-cases (ltb (length votes) (expected_honest_peers m))) [
          | inl few ↦ along_done TakingPart (s, m) r (rw few at e) at
          | inr enough ↦ elim (Bool-cases (is_candidate m.role)) [
            | inr other ↦ along_done TakingPart _ r (rw other at (rw enough at e)) at
            | inl stands ↦
                let (q, led, end) =
                  >>=-eq-done (become_leader w net now draw s (kept_votes m votes)) _
                    (rw stands at (rw enough at e)) in
                along_done TakingPart _ r end
                  (become_leader-TakingPart net now draw s (kept_votes m votes) q led at.0)
          ]
        ]

    become_candidate-TakingPart :
        (l : Look) (s : Server w) (m : RtGroup) (r : Server w × RtGroup)
        → become_candidate w l.net l.ballots l.now l.draw l.draw_long s m ≡ done r
        → AtLog w g es s m
        → TakingPart r
    unfolding become_candidate refresh_timer
    become_candidate-TakingPart l s m r e at =
        let s1 = (stand w s m).0 in
        let m1 = (stand w s m).1 in
        let stood = stand-AtLog s m at in
        let (s2, asked, rest) = >>=-eq-done (ask_peers w (l.net.visits m1.group_peers) s1) _ e in
        let (v, gathered, rest2) =
          >>=-eq-done
            (gather_votes w (last_log_entry w m1.group.id s1.db) s2
              (l.ballots (candidate_request w s1 m1)))
            _ rest in
        let (q, settled, end) =
          >>=-eq-done (settle_election w l.net l.now l.draw v.1 m1 v.0) _ rest2 in
        let same : v.1.db ≡ s1.db =
          gather_votes-db w (last_log_entry w m1.group.id s1.db) s2
            (l.ballots (candidate_request w s1 m1)) v gathered
          ∙ ask_peers-db w (l.net.visits m1.group_peers) s1 s2 asked in
        along_done TakingPart _ r end (
          settle_election-TakingPart l.net l.now l.draw v.1 m1 v.0 q settled (
            (stood.0.0, subst (λ d. IsLog w g d es) (sym same) stood.0.1),
            subst TakesPart (sym stood.1) tt,
          ))

    module _ (func_reg : ℕ → Option (RaftFunc w)) where
      act-TakingPart :
          (role : Role) (l : Look) (s : Server w) (m : RtGroup) (r : Server w × RtGroup)
          → act w func_reg role l s m ≡ done r
          → m.role ≡ role
          → TakingPart (s, m)
          → TakingPart r
      unfolding act
      act-TakingPart candidate l s m r e is at = become_candidate-TakingPart l s m r e at.0
      act-TakingPart follower l s m r e is at = elim (Bool-cases (m.leader_id == s.id)) [
        | inl own ↦ let bad : panicked ≡ done r = rw own at e in cc (bad)
        | inr other ↦ become_candidate-TakingPart l s m r (rw other at e) at.0
      ]
      act-TakingPart leader l s m r e is at = (
        send_followers_heartbeat-IsLog w laws g es l.net l.now l.draw s m r e at.0,
        subst TakesPart (sym (send_followers_heartbeat-role w l.net l.now l.draw s m r e)) at.1,
      )
      act-TakingPart observer l s m r e is at = absurd (subst TakesPart is at.1)

      turn-TakingPart :
          (l : Look) (s : Server w) (m : RtGroup) (r : Server w × RtGroup)
          → turn w func_reg l s m ≡ done r
          → TakingPart (s, m)
          → TakingPart r
      unfolding turn
      turn-TakingPart l s m r e at = elim (Bool-cases (ltb l.now m.timeout)) [
        | inl early ↦ along_done TakingPart (s, m) r (rw early at e) at
        | inr late ↦ act-TakingPart m.role l s m r (rw late at e) refl at
      ]

      -- In a world that keeps its laws, where the number of a group is a uint64: as long as
      -- `StartTimeWheel` does not panic, it leaves the log and the number of a group in which the
      -- node is no observer as they were, and the node does not become an observer, whatever the
      -- looks at the timer meet.
      pub run_wheel-TakingPart :
          (looks : List Look) (s : Server w) (m : RtGroup) (r : Server w × RtGroup)
          → run_wheel w func_reg looks s m ≡ done r
          → TakingPart (s, m)
          → TakingPart r
      unfolding run_wheel
      run_wheel-TakingPart [] s m r e at = along_done TakingPart (s, m) r e at
      run_wheel-TakingPart (l ∷ looks) s m r e at =
          let (q, first, rest) = >>=-eq-done (turn w func_reg l s m) _ e in
          run_wheel-TakingPart looks q.0 q.1 r rest (turn-TakingPart l s m q first at)
