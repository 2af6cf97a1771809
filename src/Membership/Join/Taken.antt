-- ===== src/Membership/Join/Taken.antt =====
-- The invitations that `NodeJoin` takes while it waits.
use bftraft4go.Prelude.{
  ℕ, ◌≤◌, ◌≡◌, ◌≢◌, refl, sym, ap, ◌∙◌, subst, Bool, none, some, List, [], ◌∷◌, ◌++◌, arith, leb,
  ◌==◌, ==_iff, if◌then◌else◌, length, Map, Elem, IsUnique, insert-IsUnique, lookup, insert,
  lookup-insert, Bool-cases, Option-cases, inl, inr,
}
use bftraft4go.Messages.{GroupInvitation}
use bftraft4go.Membership.Join.{Invitations, take_invitation, wait_invitations}

-- The leaders that invitations name, in the order in which they were taken.
unfoldable pub leaders_of : Map GroupInvitation → List ℕ
leaders_of [] = []
leaders_of ((id, inv) ∷ taken) = inv.leader ∷ leaders_of taken

leaders_of-insert :
    (id : ℕ) (inv : GroupInvitation) (taken : Map GroupInvitation)
    → lookup id taken ≡ none
    → leaders_of (insert id inv taken) ≡ leaders_of taken ++ inv.leader ∷ []
unfolding lookup insert leaders_of
leaders_of-insert id inv [] new = refl
leaders_of-insert id inv ((first, other) ∷ taken) new = elim (Bool-cases (first == id)) [
  | inl same ↦ let bad : some other ≡ none = rw same at new in cc (bad)
  | inr apart ↦
      rw apart (ap (λ t. other.leader ∷ t) (leaders_of-insert id inv taken (rw apart at new)))
]

-- The invitations that are taken: one of each node, from members, among those that arrived; and the
-- leader of each of them.
pub record Invited (hosts : Map Bool) (invs : List GroupInvitation) (i : Invitations) : Type 0 where
  pub unique : IsUnique i.taken
  pub from_members :
      (id : ℕ) (inv : GroupInvitation)
      → lookup id i.taken ≡ some inv
      → (inv.node ≡ id) × (lookup id hosts ≢ none) × Elem inv invs
  pub named : i.leaders ≡ leaders_of i.taken

module _ (hosts : Map Bool) (invs : List GroupInvitation) where
  pub no_invitations : Invited hosts invs (record { taken = []; leaders = [] })
  unfolding lookup leaders_of
  no_invitations = record { unique = tt; from_members = λ id inv at. cc (at); named = refl }

  take_invitation-Invited :
      (inv : GroupInvitation) (i : Invitations)
      → Elem inv invs
      → Invited hosts invs i
      → Invited hosts invs (take_invitation hosts inv i)
  unfolding take_invitation
  take_invitation-Invited inv i among known = elim (Option-cases (lookup inv.node hosts)) [
    | inl stranger ↦ rw (stranger, take_invitation) known
    | inr (b, member) ↦ elim (Option-cases (lookup inv.node i.taken)) [
      | inr (old, twice) ↦ rw (member, take_invitation) (rw twice known)
      | inl new ↦
          rw (member, take_invitation)
            (rw new (record {
              unique = insert-IsUnique inv.node inv i.taken known.unique;
              from_members = λ id other at.
                  let at' : (if inv.node == id then some inv else lookup id i.taken) ≡ some other =
                    sym (lookup-insert inv.node id inv i.taken) ∙ at in
                  elim (Bool-cases (inv.node == id)) [
                    | inr apart ↦ known.from_members id other (rw apart at at')
                    | inl same ↦
                        let e : some inv ≡ some other = rw same at at' in
                        let is : inv ≡ other = cc (e) in
                        let id-eq : inv.node ≡ id = (==_iff _ _).0 same in
                        (
                          ap (λ (t : GroupInvitation). t.node) (sym is) ∙ id-eq,
                          subst (λ n. lookup n hosts ≢ none) id-eq (λ no_one. cc (no_one, member)),
                          subst (λ t. Elem t invs) is among,
                        )
                  ];
              named =
                  ap (λ t. t ++ inv.leader ∷ []) known.named
                  ∙ sym (leaders_of-insert inv.node inv i.taken new);
            }))
    ]
  ]

  pub wait_invitations-Invited :
      (k : ℕ) (rest : List GroupInvitation) (i j : Invitations)
      → ((inv : GroupInvitation) → Elem inv rest → Elem inv invs)
      → Invited hosts invs i
      → wait_invitations hosts k rest i ≡ some j
      → Invited hosts invs j × (k ≤ length j.taken)
  unfolding wait_invitations
  wait_invitations-Invited k [] i j within known e = cc (e)
  wait_invitations-Invited k (inv ∷ rest) i j within known e =
      let next = take_invitation hosts inv i in
      let known' = take_invitation-Invited inv i (within inv (inl refl)) known in
      let later =
        wait_invitations-Invited k rest next j (λ other at. within other (inr at)) known' in
      elim (Option-cases (lookup inv.node hosts)) [
        | inl stranger ↦ later (rw (stranger, wait_invitations) at e)
        | inr (b, member) ↦ elim (Bool-cases (leb k (length next.taken))) [
          | inr few ↦ later (rw few at (rw (member, wait_invitations) at e))
          | inl enough ↦
              let e' : some next ≡ some j = rw enough at (rw (member, wait_invitations) at e) in
              let same : next ≡ j = cc (e') in
              subst (λ t. Invited hosts invs t × (k ≤ length t.taken)) same (known', ground arith)
        ]
      ]
