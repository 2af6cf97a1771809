-- ===== src/Leader/Commands.antt =====
-- What `ExecCommand` on the leader does to the log of the group.
use bftraft4go.Prelude.{
  ℕ, ◌+◌, ◌^◌, ◌<◌, ◌≡◌, refl, ap, sym, ◌⊎◌, ◌∙◌, Bool, true, ◌&&◌, Option, List, [], ◌∷◌, ◌++◌,
  arith, Bytes, ◌==◌, length, Bool-cases, Option-cases, inl, inr,
}
use bftraft4go.Messages.{CommandRequest, CommandResponse, LogEntry}
use bftraft4go.Outcome.{done, >>=-eq-done, along_done, ok}
use bftraft4go.World.{World, IsWorld}
use bftraft4go.Store.{log_entry_key}
use bftraft4go.Server.{Server, RtGroup}
use bftraft4go.Hosts.{get_host}
use bftraft4go.Hosts.KeyViews.{get_host-SameKeys}
use bftraft4go.Log.{log_hash, group_hash, last_entry_hash, last_entry_index, append_entry_to_local}
use bftraft4go.Log.Abstract.{last_hash, IsLog}
use bftraft4go.Log.Reads.{last_entry_hash-eq, last_entry_index-eq}
use bftraft4go.Log.Append.{append_entry_to_local-IsLog}
use bftraft4go.Follower.{RaftFunc, commit_group_log}
use bftraft4go.Follower.Keeps.{verify_command_sign-db}
use bftraft4go.Follower.Appends.{IsRoomy, IsQuiet, AtLog, commit-quiet}
use bftraft4go.Leader.Beats.{send_followers_heartbeat-IsLog}
use bftraft4go.Leader.{
  Network, alpha_group, reg_node, send_followers_heartbeat, new_entry, first_answer, signed_answer,
  accept_command, append_command, lead_command,
}

module _ (w : World) where
  accept_command-db :
      (s : Server w) (cmd : CommandRequest) (r : Bool × Server w)
      → accept_command w s cmd ≡ done r
      → r.1.db ≡ s.db
  unfolding accept_command
  accept_command-db s cmd r e =
      let kept = (get_host-SameKeys w s cmd.client_id).db in
      elim (Option-cases (get_host w s cmd.client_id).0) [
        | inr (host, known) ↦
            verify_command_sign-db w (get_host w s cmd.client_id).1 cmd r
              (rw (known, accept_command) at e)
            ∙ kept
        | inl nil ↦ elim (Bool-cases ((cmd.group == alpha_group) && (cmd.func_id == reg_node))) [
          | inr checked ↦
              verify_command_sign-db w (get_host w s cmd.client_id).1 cmd r
                (rw checked at (rw (nil, accept_command) at e))
              ∙ kept
          | inl registers ↦
              along_done (λ (t : Bool × Server w). t.1.db ≡ s.db)
                (true, (get_host w s cmd.client_id).1) r
                (rw registers at (rw (nil, accept_command) at e)) kept
        ]
      ]

  -- The log after a command: one entry longer, by the command under the leader's term, or as it was.
  abbrev pub Led :
      ℕ → List LogEntry → RtGroup → CommandRequest → CommandResponse × Server w × RtGroup → Type 0
  Led g es m cmd r =
      ((e : LogEntry) × (e.command ≡ cmd)
        × (e.term ≡ m.group.term)
        × AtLog w g (es ++ e ∷ []) r.1 r.2)
      ⊎ (AtLog w g es r.1 r.2 × (r.0.result ≡ []))

  module _ (laws : IsWorld w) (roomy : IsRoomy w) (g : ℕ) (es : List LogEntry)
      (func_reg : ℕ → Option (RaftFunc w)) (quiet : IsQuiet w g func_reg)
      (room : length es + 1 < 2 ^ 64) where
    append_new :
        (s : Server w) (m : RtGroup) (cmd : CommandRequest)
        → AtLog w g es s m
        → cmd.group ≡ g
        → (db' : w.Db) × (append_entry_to_local w g s.db (new_entry w s m cmd) ≡ done (ok db'))
          × IsLog w g db' (es ++ new_entry w s m cmd ∷ [])
    unfolding new_entry
    append_new s m cmd at own =
        let e = new_entry w s m cmd in
        let index : last_entry_index w m.group.id s.db ≡ length es =
          ap (λ (k : ℕ). last_entry_index w k s.db) at.0
          ∙ last_entry_index-eq w laws g s.db es at.1 in
        let hash : last_entry_hash w m.group.id s.db ≡ last_hash (group_hash w g) es =
          ap (λ (k : ℕ). last_entry_hash w k s.db) at.0
          ∙ last_entry_hash-eq w laws g s.db es at.1 in
        let (bs, marshalled) = roomy.marshals e in
        let (db', written) = roomy.sets s.db (log_entry_key g e.index) bs in
        let (there, log) =
          append_entry_to_local-IsLog w laws g s.db es at.1 e (omega (arith, index)) room own db' bs
            (ap (λ (h : Bytes). log_hash w h e.index cmd.func_id cmd.arg) hash) marshalled
            written in
        (db', there, log)

    append_command-log :
        (net : Network) (now draw : ℕ) (s : Server w) (m : RtGroup) (cmd : CommandRequest)
        (r : CommandResponse × Server w × RtGroup)
        → append_command w func_reg net now draw s m cmd ≡ done r
        → AtLog w g es s m
        → cmd.group ≡ g
        → AtLog w g (es ++ new_entry w s m cmd ∷ []) r.1 r.2
    unfolding append_command
    append_command-log net now draw s m cmd r e at own =
        let (t, appended, rest) =
          >>=-eq-done (append_entry_to_local w m.group.id s.db (new_entry w s m cmd)) _ e in
        let (db', done_so, log) = append_new s m cmd at own in
        let same : t ≡ ok db' = cc (
          sym (ap (λ (k : ℕ). append_entry_to_local w k s.db (new_entry w s m cmd)) at.0)
              ∙ appended,
          done_so,
        ) in
        let (p, sent, rest') =
          >>=-eq-done (send_followers_heartbeat w net now draw (record s { db = db' }) m) _
            (rw same at rest) in
        let at' =
          send_followers_heartbeat-IsLog w laws g (es ++ new_entry w s m cmd ∷ []) net now draw _ m
            p sent (at.0, log) in
        let (c, committed, end) =
          >>=-eq-done (commit_group_log w func_reg (new_entry w s m cmd) p.0 p.1) _ rest' in
        let (id, kept) =
          commit-quiet w laws roomy g func_reg quiet (new_entry w s m cmd) p.0 p.1 c committed
            at'.0 in
        along_done
          (λ (q : CommandResponse × Server w × RtGroup).
            AtLog w g (es ++ new_entry w s m cmd ∷ []) q.1 q.2)
          _ r end (id, kept (es ++ new_entry w s m cmd ∷ []) at'.1)

    -- If the encoding and the database take every write, the registered functions leave the log
    -- and the number of the group alone and the next index fits in a uint64, then `ExecCommand` on
    -- the leader, when it returns, has put the command on the log as its next entry, under the
    -- term of the group; or it has left the log as it was and answers with no result.
    pub lead_command-Led :
        (net : Network) (now draw : ℕ) (s : Server w) (m : RtGroup) (cmd : CommandRequest)
        (r : CommandResponse × Server w × RtGroup)
        → lead_command w func_reg net now draw s m cmd ≡ done r
        → AtLog w g es s m
        → cmd.group ≡ g
        → Led g es m cmd r
    unfolding lead_command signed_answer first_answer new_entry
    lead_command-Led net now draw s m cmd r e at own =
        let (a, accepted, rest) = >>=-eq-done (accept_command w s cmd) _ e in
        let here : AtLog w g es a.1 m = (at.0, rw (accept_command-db s cmd a accepted) (at.1)) in
        elim (Bool-cases a.0) [
          | inl taken ↦
              let (q, appended, end) =
                >>=-eq-done (append_command w func_reg net now draw a.1 m cmd) _
                  (rw taken at rest) in
              along_done (Led g es m cmd) _ r end (
                inl (
                  new_entry w a.1 m cmd,
                  refl,
                  refl,
                  append_command-log net now draw a.1 m cmd q appended here own,
                ))
          | inr left ↦ along_done (Led g es m cmd) _ r (rw left at rest) (inr (here, refl))
        ]
