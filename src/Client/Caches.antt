-- ===== src/Client/Caches.antt =====
-- The caches of the user client: what `GetGroupLeader` and `GetGroupHosts` leave in them.
use bftraft4go.Prelude.{
  ℕ, ◌≡◌, refl, ◌∙◌, Option, none, some, List, Bytes, lookup, lookup-insert_self, Bool-cases,
  Option-cases, inl, inr,
}
use bftraft4go.Messages.{Host}
use bftraft4go.Outcome.{done, >>=-eq-done, along_done}
use bftraft4go.World.{World}
use bftraft4go.Consensus.{majority_response}
use bftraft4go.AlphaNodes.{ClientNet, Reading, each, get_alpha_rpcs}
use bftraft4go.Client.{
  UserClient, alpha_clients, hosts_answer, leader_answers, get_group_leader, get_group_hosts,
}

module _ (w : World) (reading : Reading) (net : ClientNet) (now : ℕ) where
  -- What the client is, and how many commands it has sent.
  abbrev pub SameClient : UserClient w → UserClient w → Type 0
  SameClient c d = (d.id ≡ c.id) × (d.private_key ≡ c.private_key) × (d.counter ≡ c.counter)

  alpha_clients-caches :
      (c : UserClient w) (a : List Bytes × UserClient w)
      → alpha_clients w reading net now c ≡ done a
      → (a.1.group_leader ≡ c.group_leader) × (a.1.group_hosts ≡ c.group_hosts) × SameClient c a.1
  unfolding alpha_clients
  alpha_clients-caches c a e =
      let (r, got, end) =
        >>=-eq-done (get_alpha_rpcs reading w.host_codec.marshal net now c.alpha_rpcs) _ e in
      along_done
        (λ (t : List Bytes × UserClient w).
          (t.1.group_leader ≡ c.group_leader)
          × (t.1.group_hosts ≡ c.group_hosts)
          × SameClient c t.1)
        _ a end (refl, refl, (refl, refl, refl))

  -- The leader that is found is cached.
  pub get_group_leader-cached :
      (c : UserClient w) (g : ℕ) (leader : Bytes) (l : Option Bytes × UserClient w)
      → get_group_leader w reading net now c g ≡ done l
      → l.0 ≡ some leader
      → (lookup g l.1.group_leader ≡ some leader) × SameClient c l.1
  unfolding get_group_leader
  get_group_leader-cached c g leader l e is = elim (Option-cases (lookup g c.group_leader)) [
    | inr (known, at) ↦
        along_done
          (λ (t : Option Bytes × UserClient w).
            t.0 ≡ some leader → (lookup g t.1.group_leader ≡ some leader) × SameClient c t.1)
          (some known, c) l (rw (at, get_group_leader) at e)
          (λ same. (at ∙ same, (refl, refl, refl))) is
    | inl new ↦
        let Cached : Option Bytes × UserClient w → Type 0 =
          λ t. t.0 ≡ some leader → (lookup g t.1.group_leader ≡ some leader) × SameClient c t.1 in
        let (a, asked, rest) =
          >>=-eq-done (alpha_clients w reading net now c) _ (rw (new, get_group_leader) at e) in
        let (_, _, kept) = alpha_clients-caches c a asked in
        let (frs, answers, end) =
          >>=-eq-done (leader_answers w reading net now (net.group_leader a.0 g)) _ rest in
        elim (Option-cases
          (majority_response reading.hash_data reading.range reading.visit_any frs)) [
            | inl nil ↦ along_done Cached (none, a.1) l (rw nil at end) (λ no_one. cc (no_one)) is
            | inr (node, found) ↦ elim (Bool-cases (net.connects node.server_addr)) [
              | inr cut ↦
                  along_done Cached (none, a.1) l (rw cut at (rw found at end))
                    (λ no_one. cc (no_one)) is
              | inl up ↦
                  along_done Cached _ l (rw up at (rw found at end))
                    (λ same. (lookup-insert_self g node.server_addr a.1.group_leader ∙ same, kept))
                    is
            ]
          ]
  ]

  pub get_group_hosts-cached :
      (c : UserClient w) (g : ℕ) (hosts : List Host) (h : Option (List Host) × UserClient w)
      → get_group_hosts w reading net now c g ≡ done h
      → h.0 ≡ some hosts
      → (lookup g h.1.group_hosts ≡ some hosts)
        × (h.1.group_leader ≡ c.group_leader)
        × SameClient c h.1
  unfolding get_group_hosts
  get_group_hosts-cached c g hosts h e is =
      let Cached : Option (List Host) × UserClient w → Type 0 = λ t.
        t.0 ≡ some hosts
        → (lookup g t.1.group_hosts ≡ some hosts)
          × (t.1.group_leader ≡ c.group_leader)
          × SameClient c t.1 in
      elim (Option-cases (lookup g c.group_hosts)) [
        | inr (known, at) ↦
            along_done Cached (some known, c) h (rw (at, get_group_hosts) at e)
              (λ same. (at ∙ same, refl, (refl, refl, refl))) is
        | inl new ↦
            let (a, asked, end) =
              >>=-eq-done (alpha_clients w reading net now c) _ (rw (new, get_group_hosts) at e) in
            let (leads, _, kept) = alpha_clients-caches c a asked in
            elim (Option-cases (
              majority_response reading.hash_data reading.range reading.visit_any
                (each (hosts_answer w reading net now) (net.group_hosts a.0 g)))) [
                  | inl nil ↦
                      along_done Cached (none, a.1) h (rw nil at end) (λ no_one. cc (no_one)) is
                  | inr (found, at) ↦
                      along_done Cached _ h (rw at at end)
                        (λ same. (lookup-insert_self g found a.1.group_hosts ∙ same, leads, kept))
                        is
                ]
      ]
