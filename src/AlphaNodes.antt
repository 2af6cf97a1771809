-- ===== src/AlphaNodes.antt =====
-- utils/alpha.go and client/alpha.go: how a client finds the alpha nodes, and what it reads from the
-- network. A gRPC client is the address that it was made for. What the network answers is a `ClientNet`;
-- the hash of an answer (FNV) and the visits of Go's maps are a `Reading`.
use bftraft4go.Prelude.{
  ℕ, ◌+◌, ◌*◌, Bool, ◌||◌, Option, none, some, List, [], ◌∷◌, Bytes, ltb, if◌then◌else◌, length,
  Map,
}
use bftraft4go.Messages.{CommandRequest, Host, GroupNodesResponse}
use bftraft4go.Outcome.{Outcome, done, panicked, ◌>>=◌}
use bftraft4go.Consensus.{FuncResult, majority_response}
use bftraft4go.Leader.{alpha_group}
use bftraft4go.Groups.{GroupLeader}
use bftraft4go.Members.{nodes_sign_data}

-- `AlphaRPCsCache`; the time is in milliseconds.
pub record AlphaRpcsCache : Type 0 where
  pub bootstraps : List Bytes
  pub rpcs : List Bytes
  pub last_check : ℕ

-- How a call of the network ends within the ten seconds of `MajorityResponse`.
pub data Reply (A : Type 0) : Type 0 where
  answered : A → Reply A
  call_failed : Reply A
  timed_out : Reply A

pub record ClientNet : Type 0 where
  pub connects : Bytes → Bool
  -- The answers of some nodes, in the order of their arrival.
  pub group_hosts : List Bytes → ℕ → List (Reply GroupNodesResponse)
  pub group_leader : List Bytes → ℕ → List (Reply GroupLeader)
  pub group_content : List Bytes → ℕ → List (Reply (Unit {0}))
  -- The results of a command that arrive within ten seconds: from the leader and the peers.
  pub results : Bytes → CommandRequest → List Bytes

-- How a client reads what it is answered.
pub record Reading : Type 1 where
  pub hash_data : Bytes → ℕ
  pub range : Map ℕ → Map ℕ
  pub visit_any : {A : Type 0} → Map A → Map A

-- The addresses to which there is a connection.
unfoldable pub connected : (Bytes → Bool) → List Bytes → List Bytes
connected connects [] = []
connected connects (addr ∷ addrs) =
    let rest = connected connects addrs in if connects addr then addr ∷ rest else rest

unfoldable pub addresses : List Host → List Bytes
addresses [] = []
addresses (node ∷ nodes) = node.server_addr ∷ addresses nodes

-- The answers to `AlphaNodes`: where the call fails the result is a nil pointer in an interface, which
-- is not nil.
unfoldable pub alpha_answer :
    (Host → Option Bytes) → Reply GroupNodesResponse → FuncResult (Option GroupNodesResponse)
unfolding nodes_sign_data
alpha_answer marshal (answered res) = record {
  result = some (some res);
  feature = nodes_sign_data marshal res.nodes;
}
alpha_answer marshal call_failed = record { result = some none; feature = [] }
alpha_answer marshal timed_out = record { result = none; feature = [] }

unfoldable pub each : {A B : Type 0} → (A → B) → List A → List B
each f [] = []
each f (x ∷ xs) = f x ∷ each f xs

-- `AlphaNodes`
unfoldable pub alpha_nodes :
    Reading → (Host → Option Bytes) → ClientNet → List Bytes → Outcome (List Host)
unfolding connected alpha_answer each
alpha_nodes reading marshal net servers =
    elim (majority_response reading.hash_data reading.range reading.visit_any (
      each (alpha_answer marshal) (net.group_hosts (connected net.connects servers) alpha_group))) [
        | none ↦ done []
        | some response ↦ elim response [ none ↦ panicked | some res ↦ done res.nodes ]
      ]

-- `AlphaRPCsCache.Get`, at the time `now`.
unfoldable pub get_alpha_rpcs :
    Reading
    → (Host → Option Bytes)
    → ClientNet
    → ℕ
    → AlphaRpcsCache
    → Outcome (List Bytes × AlphaRpcsCache)
unfolding alpha_nodes addresses connected
get_alpha_rpcs reading marshal net now arc =
    if ltb (length arc.rpcs) 1 || ltb (arc.last_check + 5 * 60000) now
    then (alpha_nodes reading marshal net arc.bootstraps >>= λ nodes.
        let rpcs = connected net.connects (addresses nodes) in
        done (
          rpcs,
          record {
            bootstraps = if ltb 0 (length rpcs) then rpcs else arc.bootstraps;
            rpcs = rpcs;
            last_check = now;
          },
        ))
    else done (arc.rpcs, arc)
