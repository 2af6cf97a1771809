-- ===== src/Client/Leaders.antt =====
-- How a client ends on a nil answer: `GetGroupLeader` and `AlphaNodes`.
use bftraft4go.Prelude.{
  ℕ, zero, suc, ◌≡◌, refl, sym, ap, ◌∙◌, Option, none, some, List, [], ◌∷◌, arith, Bytes, length,
  Map, Elem, IsRange, lookup, Option-cases, inl, inr, ==_refl,
}
use bftraft4go.Messages.{Peer, Host, GroupNodesResponse}
use bftraft4go.Outcome.{done, panicked, >>=-eq-done, along_done}
use bftraft4go.World.{World}
use bftraft4go.Consensus.{FuncResult}
use bftraft4go.Consensus.Counting.{count, expected_players-le}
use bftraft4go.Consensus.Majority.{IsMajority, hashes_of, majority_response-eq}
use bftraft4go.Server.{Server, RtGroup}
use bftraft4go.Leader.{alpha_group}
use bftraft4go.Groups.{GroupLeader, get_onboard_group, get_group_hosts, group_leader}
use bftraft4go.AlphaNodes.{
  Reply, answered, call_failed, timed_out, ClientNet, Reading, connected, alpha_answer, each,
  alpha_nodes,
}
use bftraft4go.Client.{UserClient, alpha_clients, leader_answers, get_group_leader}

module _ (w : World) where
  -- The answer of a node without the group on board names no host, whoever is in the group.
  group_leader-nil :
      (visits : Map Peer → Map Peer) (s : Server w) (onboard : Map RtGroup) (g : ℕ)
      (r : GroupLeader × Server w)
      → get_onboard_group onboard g ≡ none
      → group_leader w visits s onboard g ≡ done r
      → r.0.leader_node ≡ none
  unfolding group_leader
  group_leader-nil visits s onboard g r off e =
      let (hosts, found, end) =
        >>=-eq-done (get_group_hosts w visits s g) _ (rw (off, group_leader) at e) in
      along_done (λ (t : GroupLeader × Server w). t.0.leader_node ≡ none) _ r end refl

  module _ (reading : Reading) (net : ClientNet) (now : ℕ) where
    leader_answers-panics :
        (replies : List (Reply GroupLeader)) (res : GroupLeader)
        → Elem (answered res) replies
        → res.leader_node ≡ none
        → leader_answers w reading net now replies ≡ panicked
    unfolding leader_answers
    leader_answers-panics [] res at nil = absurd at
    leader_answers-panics (call_failed ∷ rest) res (inl e) nil = cc (e)
    leader_answers-panics (call_failed ∷ rest) res (inr later) nil =
        rw (leader_answers-panics rest res later nil) refl
    leader_answers-panics (timed_out ∷ rest) res (inl e) nil = cc (e)
    leader_answers-panics (timed_out ∷ rest) res (inr later) nil =
        rw (leader_answers-panics rest res later nil) refl
    leader_answers-panics (answered other ∷ rest) res (inl e) nil =
        let same : res ≡ other = cc (e) in
        let no_node : other.leader_node ≡ none =
          ap (λ (t : GroupLeader). t.leader_node) (sym same) ∙ nil in
        rw no_node refl
    leader_answers-panics (answered other ∷ rest) res (inr later) nil =
        elim (Option-cases other.leader_node) [
          | inl no_node ↦ rw no_node refl
          | inr (node, known) ↦ rw known (rw (leader_answers-panics rest res later nil) refl)
        ]

    -- If a node that has not the group on board is asked for its leader, and its answer is among
    -- those that `GetGroupLeader` of the client gets for a leader that is not cached, the client
    -- panics.
    pub get_group_leader-panics :
        (visits : Map Peer → Map Peer) (s : Server w) (onboard : Map RtGroup) (g : ℕ)
        (r : GroupLeader × Server w)
        → get_onboard_group onboard g ≡ none
        → group_leader w visits s onboard g ≡ done r
        → (c : UserClient w) (a : List Bytes × UserClient w) → lookup g c.group_leader ≡ none
        → alpha_clients w reading net now c ≡ done a
        → Elem (answered r.0) (net.group_leader a.0 g)
        → get_group_leader w reading net now c g ≡ panicked
    unfolding get_group_leader
    get_group_leader-panics visits s onboard g r off led c a new asked among =
        rw (new, get_group_leader)
          (rw asked (
            rw
              (leader_answers-panics (net.group_leader a.0 g) r.0 among
                (group_leader-nil visits s onboard g r off led))
              refl))

-- As many calls that fail.
abbrev pub failures : ℕ → List (Reply GroupNodesResponse)
failures zero = []
failures (suc n) = call_failed ∷ failures n

module _ (reading : Reading) (marshal : Host → Option Bytes) where
  open reading use {hash_data, range, visit_any}

  failed_answers :
      (n : ℕ)
      → (count (hash_data []) (hashes_of hash_data (each (alpha_answer marshal) (failures n))) ≡ n)
        × (length (hashes_of hash_data (each (alpha_answer marshal) (failures n))) ≡ n)
  unfolding each alpha_answer hashes_of count
  failed_answers zero = (refl, refl)
  failed_answers (suc n) =
      let rest = failed_answers n in
      rw (==_refl (hash_data [])) (omega (arith, rest.0), omega (arith, rest.1))

  nil_answer :
      (n : ℕ) (fr : FuncResult (Option GroupNodesResponse))
      → Elem fr (each (alpha_answer marshal) (failures n))
      → fr.result ≡ some none
  unfolding each alpha_answer
  nil_answer zero fr at = absurd at
  nil_answer (suc n) fr (inl e) = ap (λ (t : FuncResult (Option GroupNodesResponse)). t.result) e
  nil_answer (suc n) fr (inr at) = nil_answer n fr at

  -- If the calls of all alpha nodes fail, and there is one at least, `AlphaNodes` panics.
  pub alpha_nodes-panics :
      IsRange range
      → (net : ClientNet) (servers : List Bytes) (n : ℕ)
      → net.group_hosts (connected net.connects servers) alpha_group ≡ failures (suc n)
      → alpha_nodes reading marshal net servers ≡ panicked
  unfolding alpha_nodes
  alpha_nodes-panics visits net servers n all_failed =
      let answers = each (alpha_answer marshal) (failures (suc n)) in
      let counts = failed_answers (suc n) in
      let major : IsMajority (hash_data []) (hashes_of hash_data answers) =
        rw (counts.1) (rw (counts.0) (expected_players-le (suc n) (omega arith))) in
      let (v, found, (fr, among, is, same)) =
        majority_response-eq hash_data range visits visit_any (hash_data []) answers major in
      let nil : v ≡ none = cc (is, nil_answer (suc n) fr among) in
      rw (all_failed, alpha_nodes) (rw (found, alpha_nodes) (rw nil refl))
