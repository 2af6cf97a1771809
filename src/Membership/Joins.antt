-- ===== src/Membership/Joins.antt =====
-- What `SMNodeJoin` leaves alone.
use bftraft4go.Prelude.{
  ℕ, ◌≡◌, refl, sym, ap, ◌∙◌, subst, Bool, true, false, Option, some, Bytes, leb, ◌==◌,
  if◌then◌else◌, ==_iff, length, Map, lookup, insert, lookup-insert, Bool-cases, Option-cases, inl,
  inr,
}
use bftraft4go.Messages.{LogEntry}
use bftraft4go.Outcome.{done, panicked, >>=-eq-done, along_done, Result, ok, err}
use bftraft4go.World.{World, IsWorld}
use bftraft4go.Server.{Server, RtGroup}
use bftraft4go.Hosts.{get_host}
use bftraft4go.Hosts.KeyViews.{get_host-SameKeys}
use bftraft4go.Peers.{save_peer, get_group_peers_from_kv}
use bftraft4go.Groups.{get_onboard_group, get_group}
use bftraft4go.Leader.Beats.{save_peer-IsLog}
use bftraft4go.Membership.{
  refused, accepted, new_peer, join_transaction, join_onboard, sm_node_join,
}
use bftraft4go.Groups.Stored.{get_group-db}
use bftraft4go.Membership.Registry.{own_group}
use bftraft4go.Membership.Saves.{KeepsLog, same_db}

module _ (w : World) (laws : IsWorld w) (g : ℕ) where
  join_transaction-KeepsLog :
      (s : Server w) (node group_id : ℕ) (r : Bool × Server w)
      → join_transaction w s node group_id ≡ done r
      → KeepsLog w laws g s r.1
  unfolding join_transaction
  join_transaction-KeepsLog s node group_id r e =
      let Kept : Bool × Server w → Type 0 = λ t. KeepsLog w laws g s t.1 in
      let s' = (get_host w s node).1 in
      let s'' = (get_group w s' group_id).1 in
      let host_db : s'.db ≡ s.db = (get_host-SameKeys w s node).db in
      let group_db : s''.db ≡ s.db = get_group-db w s' group_id ∙ host_db in
      elim (Option-cases (get_host w s node).0) [
        | inl nil ↦
            along_done Kept (false, s') r (rw (nil, join_transaction) at e)
              (same_db w laws g s s' host_db)
        | inr (h, known) ↦ elim (Bool-cases (node == s.id)) [
          | inl own ↦
              along_done Kept (true, s') r (rw own at (rw (known, join_transaction) at e))
                (same_db w laws g s s' host_db)
          | inr other ↦ elim (Option-cases (get_group w s' group_id).0) [
            | inl no_group ↦
                let bad : panicked ≡ done r =
                  rw no_group at (rw other at (rw (known, join_transaction) at e)) in
                cc (bad)
            | inr (group, found) ↦
                let (peers, read, rest) =
                  >>=-eq-done (get_group_peers_from_kv w s''.db group_id) _
                    (rw found at (rw other at (rw (known, join_transaction) at e))) in
                elim (Bool-cases (leb group.replications (length peers))) [
                  | inl full ↦
                      along_done Kept (false, s'') r (rw full at rest)
                        (same_db w laws g s s'' group_db)
                  | inr room ↦
                      along_done Kept _ r (rw room at rest)
                        (go s'' group_db (save_peer w s'' (new_peer node group_id)) refl)
                ]
          ]
        ]
      ]
    where
      go :
          (t : Server w)
          → t.db ≡ s.db
          → (q : Result (Server w)) → save_peer w t (new_peer node group_id) ≡ q
          → KeepsLog w laws g s
              (elim q as (λ _. Bool × Server w) [ ok u ↦ (true, u) | err x ↦ (false, t) ]).1
      go t same (ok u) saved = λ es log.
          save_peer-IsLog w laws g es t u (new_peer node group_id) saved
            (same_db w laws g s t same es log)
      go t same (err x) saved = same_db w laws g s t same

  -- A group that is on board under the number `g` has it.
  abbrev pub Numbered : Map RtGroup → Type 0
  Numbered onboard = (m : RtGroup) → lookup g onboard ≡ some m → m.group.id ≡ g

  pub insert-Numbered :
      (k : ℕ) (m : RtGroup) (onboard : Map RtGroup)
      → (k ≡ g → m.group.id ≡ g)
      → Numbered onboard
      → Numbered (insert k m onboard)
  insert-Numbered k m onboard new old m' at =
      let at' : (if k == g then some m else lookup g onboard) ≡ some m' =
        sym (lookup-insert k g m onboard) ∙ at in
      elim (Bool-cases (k == g)) [
        | inl same ↦
            let e : some m ≡ some m' = rw same at at' in
            let m-eq : m ≡ m' = cc (e) in
            subst (λ (t : RtGroup). t.group.id ≡ g) m-eq (new ((==_iff k g).0 same))
        | inr other ↦ old m' (rw other at at')
      ]

  pub own_group-id :
      (m : RtGroup) (onboard : Map RtGroup)
      → m.group.id ≡ g
      → Numbered onboard
      → (own_group m onboard).group.id ≡ g
  unfolding own_group
  own_group-id m onboard own numbered = elim (Option-cases (lookup m.group.id onboard)) [
    | inl gone ↦ rw (gone, own_group) own
    | inr (m', found) ↦
        rw (found, own_group) (numbered m' (ap (λ i. lookup i onboard) (sym own) ∙ found))
  ]

  abbrev pub Tame : Server w → Bytes × Server w × Map RtGroup → Type 0
  Tame s r = KeepsLog w laws g s r.1 × Numbered r.2

  module _ (connects : Bytes → Bool) where
    join_onboard-Tame :
        (s0 s : Server w) (onboard : Map RtGroup) (node group_id : ℕ)
        (r : Bytes × Server w × Map RtGroup)
        → join_onboard w connects s onboard node group_id ≡ done r
        → KeepsLog w laws g s0 s
        → Numbered onboard
        → Tame s0 r
    unfolding join_onboard get_onboard_group
    join_onboard-Tame s0 s onboard node group_id r e kept numbered =
        let s' = (get_host w s node).1 in
        let kept' : KeepsLog w laws g s0 s' =
          λ es log. same_db w laws g s s' ((get_host-SameKeys w s node).db) es (kept es log) in
        elim (Option-cases (lookup group_id onboard)) [
          | inl off ↦
              along_done (Tame s0) (accepted, s, onboard) r (rw (off, join_onboard) at e)
                (kept, numbered)
          | inr (m, on) ↦ elim (Option-cases (get_host w s node).0) [
            | inl nil ↦
                let bad : panicked ≡ done r = rw nil at (rw (on, join_onboard) at e) in cc (bad)
            | inr (h, known) ↦ elim (Bool-cases (connects h.server_addr)) [
              | inl up ↦
                  along_done (Tame s0) _ r (rw up at (rw known at (rw (on, join_onboard) at e))) (
                    kept',
                    insert-Numbered group_id _ onboard
                        (λ same. numbered m (ap (λ i. lookup i onboard) (sym same) ∙ on)) numbered,
                  )
              | inr down ↦
                  along_done (Tame s0) (refused, s', onboard) r
                    (rw down at (rw known at (rw (on, join_onboard) at e))) (kept', numbered)
            ]
          ]
        ]

    pub sm_node_join-Tame :
        (decode_join : Bytes → Option ℕ) (s : Server w) (onboard : Map RtGroup) (arg : Bytes)
        (entry : LogEntry) (r : Bytes × Server w × Map RtGroup)
        → sm_node_join w decode_join connects s onboard arg entry ≡ done r
        → Numbered onboard
        → Tame s r
    unfolding sm_node_join
    sm_node_join-Tame decode_join s onboard arg entry r e numbered =
        elim (Option-cases (decode_join arg)) [
          | inl bad ↦
              along_done (Tame s) (refused, s, onboard) r (rw (bad, sm_node_join) at e)
                ((λ es log. log), numbered)
          | inr (group_id, decoded) ↦
              let (t, joined, rest) =
                >>=-eq-done (join_transaction w s entry.command.client_id group_id) _
                  (rw (decoded, sm_node_join) at e) in
              let kept = join_transaction-KeepsLog s entry.command.client_id group_id t joined in
              elim (Bool-cases t.0) [
                | inl good ↦
                    join_onboard-Tame s t.1 onboard entry.command.client_id group_id r
                      (rw good at rest) kept numbered
                | inr bad ↦
                    along_done (Tame s) (refused, t.1, onboard) r (rw bad at rest) (kept, numbered)
              ]
        ]
