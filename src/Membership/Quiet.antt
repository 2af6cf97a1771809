-- ===== src/Membership/Quiet.antt =====
-- The membership commands leave the logs alone.
use bftraft4go.Prelude.{
  ℕ, ◌≡◌, subst, Bool, Option, none, some, Bytes, ◌==◌, Map, lookup, insert, lookup-insert_self,
  Bool-cases, inl, inr,
}
use bftraft4go.Messages.{LogEntry}
use bftraft4go.Outcome.{done, >>=-eq-done, along_done}
use bftraft4go.World.{World, IsWorld}
use bftraft4go.Server.{Server, RtGroup}
use bftraft4go.Follower.{RaftFunc}
use bftraft4go.Follower.Appends.{IsQuiet}
use bftraft4go.Leader.{reg_node}
use bftraft4go.Membership.{sm_node_join}
use bftraft4go.Membership.Registry.{
  reg_node_func, new_client_func, node_join_func, new_group_func, membership_funcs, node_join,
  new_client, new_group,
}
use bftraft4go.Membership.Saves.{KeepsLog, sm_reg_host-KeepsLog, sm_new_client-KeepsLog}
use bftraft4go.Membership.Joins.{Numbered, own_group-id, sm_node_join-Tame}
use bftraft4go.Membership.Creates.{sm_new_group-Tame}

module _ (w : World) (laws : IsWorld w) (g : ℕ) where
  module _ (hash_key : Bytes → ℕ) (decode_join : Bytes → Option ℕ) (connects : Bytes → Bool)
      (now : ℕ) (onboard : Map RtGroup) where
    abbrev Quiet : RaftFunc w → Type 0
    Quiet f =
        (entry : LogEntry) (s : Server w) (m : RtGroup) (r : Bytes × Server w × RtGroup)
        → f entry s m ≡ done r
        → m.group.id ≡ g
        → (r.2.group.id ≡ g) × KeepsLog w laws g s r.1

    boarded-Numbered :
        (m : RtGroup) → m.group.id ≡ g → Numbered w laws g (insert m.group.id m onboard)
    boarded-Numbered m own m' at =
        let here : lookup g (insert m.group.id m onboard) ≡ some m =
          subst (λ i. lookup i (insert m.group.id m onboard) ≡ some m) own
            (lookup-insert_self m.group.id m onboard) in
        let e : m ≡ m' = cc (here, at) in subst (λ (t : RtGroup). t.group.id ≡ g) e own

    funcs-Quiet :
        (Quiet (reg_node_func w hash_key decode_join connects now onboard))
        × Quiet (new_client_func w hash_key decode_join connects now onboard)
        × Quiet (node_join_func w hash_key decode_join connects now onboard)
        × Quiet (new_group_func w hash_key decode_join connects now onboard)
    unfolding reg_node_func new_client_func node_join_func new_group_func
    funcs-Quiet =
        let Fine : Server w → Bytes × Server w × RtGroup → Type 0 =
          λ s t. (t.2.group.id ≡ g) × KeepsLog w laws g s t.1 in
        (
          (λ entry s m r e own.
              along_done (Fine s) _ r e
                (own, sm_reg_host-KeepsLog w laws g hash_key s entry.command.arg)),
          (λ entry s m r e own.
              along_done (Fine s) _ r e
                (own, sm_new_client-KeepsLog w laws g hash_key s entry.command.arg)),
          (λ entry s m r e own.
              let (t, joined, rest) =
                >>=-eq-done
                  (sm_node_join w decode_join connects s (insert m.group.id m onboard)
                    entry.command.arg entry)
                  _ e in
              let tame =
                sm_node_join-Tame w laws g connects decode_join s (insert m.group.id m onboard)
                  entry.command.arg entry t joined (boarded-Numbered m own) in
              along_done (Fine s) _ r rest (own_group-id w laws g m t.2 own tame.1, tame.0)),
          (λ entry s m r e own.
              let tame =
                sm_new_group-Tame w laws g now s (insert m.group.id m onboard) entry.command.arg
                  entry (boarded-Numbered m own) in
              along_done (Fine s) _ r e (own_group-id w laws g m _ own tame.1, tame.0)),
        )

    -- In a world that keeps its laws, each function that `RegisterMembershipCommands` registers,
    -- when it returns for a group with the number `g`, leaves that number and whatever log the
    -- database holds for `g` as they were.
    pub membership_funcs-IsQuiet :
        IsQuiet w g (membership_funcs w hash_key decode_join connects now onboard)
    unfolding membership_funcs
    membership_funcs-IsQuiet id f entry s m r at e own = registered f at entry s m r e own
      where
        Func : Type 0
        Func = RaftFunc w

        is_quiet : (h : Func) → Quiet h → (f : Func) → some h ≡ some f → Quiet f
        is_quiet h quiet f at = let same : h ≡ f = cc (at) in subst Quiet same quiet

        registered :
            (f : Func)
            → membership_funcs w hash_key decode_join connects now onboard id ≡ some f
            → Quiet f
        registered f at = elim (Bool-cases (id == node_join)) [
          | inl join ↦ is_quiet _ funcs-Quiet.2 f (rw join at at)
          | inr not_join ↦ elim (Bool-cases (id == reg_node)) [
            | inl reg ↦ is_quiet _ funcs-Quiet.0 f (rw reg at (rw not_join at at))
            | inr not_reg ↦ elim (Bool-cases (id == new_client)) [
              | inl client ↦
                  is_quiet _ funcs-Quiet.1 f (rw client at (rw not_reg at (rw not_join at at)))
              | inr not_client ↦ elim (Bool-cases (id == new_group)) [
                | inl make ↦
                    is_quiet _ funcs-Quiet.3 f
                      (rw make at (rw not_client at (rw not_reg at (rw not_join at at))))
                | inr not_make ↦
                    let bad : none ≡ some f =
                      rw not_make at (rw not_client at (rw not_reg at (rw not_join at at))) in
                    cc (bad)
              ]
            ]
          ]
        ]
