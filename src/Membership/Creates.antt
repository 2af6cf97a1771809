-- ===== src/Membership/Creates.antt =====
-- What `SMNewGroup` leaves alone.
use mathlib.Core.List.{append-nil}
use bftraft4go.Prelude.{
  ℕ, ◌≡◌, refl, subst, false, ◌||◌, none, some, [], arith, Bytes, ltb, ◌==◌, Map, Bool-cases,
  Option-cases, inl, inr,
}
use bftraft4go.Messages.{LogEntry, Peer, RaftGroup}
use bftraft4go.Outcome.{ok, err}
use bftraft4go.World.{World, IsWorld}
use bftraft4go.World.Keyed.{has_prefix}
use bftraft4go.Store.{compose_key_prefix, group_meta, log_entries}
use bftraft4go.Store.Keys.{has_prefix-table}
use bftraft4go.Server.{Server, RtGroup}
use bftraft4go.Log.Abstract.{IsLog}
use bftraft4go.Log.Refusals.{IsLog-set}
use bftraft4go.Peers.{save_peer}
use bftraft4go.Groups.{new_rt_group, set_onboard_group, get_group}
use bftraft4go.Membership.{new_peer, save_new_group, create_group, sm_new_group}
use bftraft4go.Groups.Stored.{get_group-db}
use bftraft4go.Membership.Saves.{KeepsLog, same_db, saved_peer-KeepsLog}
use bftraft4go.Membership.Joins.{Numbered, insert-Numbered, Tame}

module _ (w : World) (laws : IsWorld w) (g : ℕ) where
  save_new_group-KeepsLog :
      (s t : Server w) (group : RaftGroup) (peer : Peer)
      → save_new_group w s group peer ≡ some t
      → KeepsLog w laws g s t
  unfolding save_new_group
  save_new_group-KeepsLog s t group peer e es log =
      elim (Option-cases (w.group_codec.marshal group)) [
        | inl bad ↦ let e' : none ≡ some t = rw (bad, save_new_group) at e in cc (e')
        | inr (bytes, marshalled) ↦
            let key = compose_key_prefix group.id group_meta in
            elim (Option-cases (w.set s.db key bytes)) [
              | inl no_room ↦
                  let e' : none ≡ some t = rw no_room at (rw (marshalled, save_new_group) at e) in
                  cc (e')
              | inr (db', written) ↦
                  let s' : Server w = record s { db = db' } in
                  let same : (elim (save_peer w s' peer) as (λ _. Server w) [
                    | ok u ↦ u
                    | err x ↦ s'
                  ])
                      ≡ t =
                    cc (rw written at (rw (marshalled, save_new_group) at e)) in
                  subst (λ (u : Server w). IsLog w g u.db es) same
                    (saved_peer-KeepsLog w laws g s' peer (save_peer w s' peer) refl es
                      (IsLog-set w laws g s.db db' es key bytes log written outside))
            ]
      ]
    where
      outside :
          has_prefix (compose_key_prefix g log_entries) (compose_key_prefix group.id group_meta)
          ≡ false
      outside =
          subst (λ (k : Bytes). has_prefix (compose_key_prefix g log_entries) k ≡ false)
            (append-nil (compose_key_prefix group.id group_meta))
            (has_prefix-table g group.id log_entries group_meta [] (omega arith) (omega arith)
              (ground arith))

  create_group-Tame :
      (now : ℕ) (s : Server w) (onboard : Map RtGroup) (group : RaftGroup) (entry : LogEntry)
      → Numbered w laws g onboard
      → Tame w laws g s (create_group w now s onboard group entry)
  unfolding create_group set_onboard_group new_rt_group
  create_group-Tame now s onboard group entry numbered =
      elim (Bool-cases (ltb group.replications 1 || ltb 100 group.replications)) [
        | inl bad ↦ rw bad ((λ es log. log), numbered)
        | inr good ↦
            let s' = (get_group w s group.id).1 in
            let kept : KeepsLog w laws g s s' = same_db w laws g s s' (get_group-db w s group.id) in
            elim (Option-cases (get_group w s group.id).0) [
              | inr (known, is_known) ↦ rw good (rw is_known (kept, numbered))
              | inl new ↦
                  let fresh : RaftGroup = record group { term = 0 } in
                  let peer = new_peer entry.command.client_id group.id in
                  elim (Option-cases (save_new_group w s' fresh peer)) [
                    | inl failed ↦ rw good (rw new (rw failed (kept, numbered)))
                    | inr (t, saved) ↦
                        let kept' : KeepsLog w laws g s t = λ es log.
                          save_new_group-KeepsLog s' t fresh peer saved es (kept es log) in
                        rw good (
                          rw new (
                            rw saved (
                              kept',
                              elim (Bool-cases (s.id == entry.command.client_id)) [
                                | inl own ↦ rw own (
                                    insert-Numbered w laws g group.id _ onboard (λ same. same)
                                      numbered)
                                | inr other ↦ rw other numbered
                              ],
                            )))
                  ]
            ]
      ]

  pub sm_new_group-Tame :
      (now : ℕ) (s : Server w) (onboard : Map RtGroup) (arg : Bytes) (entry : LogEntry)
      → Numbered w laws g onboard
      → Tame w laws g s (sm_new_group w now s onboard arg entry)
  unfolding sm_new_group
  sm_new_group-Tame now s onboard arg entry numbered =
      elim (Bool-cases (w.group_codec.unmarshal arg).1) [
        | inl good ↦
            rw good (create_group-Tame now s onboard (w.group_codec.unmarshal arg).0 entry numbered)
        | inr bad ↦ rw bad ((λ es log. log), numbered)
      ]
