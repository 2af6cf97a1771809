-- ===== src/Client.antt =====
-- client/user_client.go: the client that executes commands on the groups. The caches do not expire.
pub mod Counts
pub mod Results
pub mod Caches
pub mod Commands
pub mod Leaders
use bftraft4go.Prelude.{
  ℕ, ◌+◌, ◌*◌, ◌%◌, ◌^◌, Bool, true, false, ◌||◌, Option, none, some, List, [], ◌∷◌, ◌++◌, Bytes,
  ltb, ◌==◌, if◌then◌else◌, length, take, Map, lookup, insert,
}
use bftraft4go.Messages.{CommandRequest, Host, GroupNodesResponse}
use bftraft4go.Outcome.{
  Outcome, done, panicked, ◌>>=◌, GoError, no_leader, no_group_hosts, no_response, Result, ok, err,
}
use bftraft4go.World.{World, Codec}
use bftraft4go.SignData.{exec_command_sign_data}
use bftraft4go.Consensus.{expected_players, pick_majority, FuncResult, majority_response}
use bftraft4go.Leader.{alpha_group}
use bftraft4go.Groups.{GroupLeader}
use bftraft4go.Members.{nodes_sign_data}
use bftraft4go.AlphaNodes.{
  AlphaRpcsCache, Reply, answered, call_failed, timed_out, ClientNet, Reading, each, get_alpha_rpcs,
}

-- `BFTRaftClient`
pub record UserClient (w : World) : Type 0 where
  pub id : ℕ
  pub private_key : w.PrivateKey
  pub alpha_rpcs : AlphaRpcsCache
  pub group_hosts : Map (List Host)
  pub group_leader : Map Bytes
  pub counter : ℕ

module _ (w : World) (reading : Reading) (net : ClientNet) (now : ℕ) where
  -- The alpha nodes that a client asks.
  unfoldable pub alpha_clients : UserClient w → Outcome (List Bytes × UserClient w)
  unfolding get_alpha_rpcs
  alpha_clients c = get_alpha_rpcs reading w.host_codec.marshal net now c.alpha_rpcs >>= λ r.
      done (r.0, record c { alpha_rpcs = r.1 })

  unfoldable pub hosts_answer : Reply GroupNodesResponse → FuncResult (List Host)
  unfolding nodes_sign_data
  hosts_answer (answered res) = record {
    result = some res.nodes;
    feature = nodes_sign_data w.host_codec.marshal res.nodes;
  }
  hosts_answer call_failed = record { result = none; feature = [] }
  hosts_answer timed_out = record { result = none; feature = [] }

  -- `GetGroupHosts`
  unfoldable pub get_group_hosts : UserClient w → ℕ → Outcome (Option (List Host) × UserClient w)
  unfolding alpha_clients hosts_answer each
  get_group_hosts c group_id = elim (lookup group_id c.group_hosts) [
    | some hosts ↦ done (some hosts, c)
    | none ↦ alpha_clients c >>= λ a.
        elim (majority_response reading.hash_data reading.range reading.visit_any
          (each hosts_answer (net.group_hosts a.0 group_id))) [
            | none ↦ done (none, a.1)
            | some hosts ↦
                done
                  (some hosts, record a.1 { group_hosts = insert group_id hosts a.1.group_hosts })
          ]
  ]

  -- The answers to `GetGroupLeader`. The address of a nil node is read, in a goroutine of its own:
  -- the panic ends the process.
  unfoldable pub leader_answers : List (Reply GroupLeader) → Outcome (List (FuncResult Host))
  leader_answers [] = done []
  leader_answers (call_failed ∷ rest) =
      leader_answers rest >>= λ frs. done (record { result = none; feature = [] } ∷ frs)
  leader_answers (timed_out ∷ rest) =
      leader_answers rest >>= λ frs. done (record { result = none; feature = [] } ∷ frs)
  leader_answers (answered res ∷ rest) = elim res.leader_node [
    | none ↦ panicked
    | some node ↦ leader_answers rest >>= λ frs.
        done (record { result = some node; feature = node.server_addr } ∷ frs)
  ]

  -- `GetGroupLeader`
  unfoldable pub get_group_leader : UserClient w → ℕ → Outcome (Option Bytes × UserClient w)
  unfolding alpha_clients leader_answers
  get_group_leader c group_id = elim (lookup group_id c.group_leader) [
    | some leader ↦ done (some leader, c)
    | none ↦ alpha_clients c >>= λ a. leader_answers (net.group_leader a.0 group_id) >>= λ frs.
        elim (majority_response reading.hash_data reading.range reading.visit_any frs) [
          | none ↦ done (none, a.1)
          | some node ↦
              if net.connects node.server_addr
              then done (
                some node.server_addr,
                record a.1 { group_leader = insert group_id node.server_addr a.1.group_leader },
              )
              else done (none, a.1)
        ]
  ]

  unfoldable pub exists_answer : Reply (Unit {0}) → FuncResult Bool
  exists_answer (answered content) = record { result = some true; feature = 1 ∷ [] }
  exists_answer call_failed = record { result = some false; feature = 0 ∷ [] }
  exists_answer timed_out = record { result = none; feature = [] }

  -- `GroupExists`: with no answer the type assertion on nil panics.
  unfoldable pub group_exists : UserClient w → ℕ → Outcome (Bool × UserClient w)
  unfolding alpha_clients exists_answer each
  group_exists c group_id = alpha_clients c >>= λ a.
      elim (majority_response reading.hash_data reading.range reading.visit_any
        (each exists_answer (net.group_content a.0 group_id))) [
          | none ↦ panicked
          | some found ↦ done (found, a.1)
        ]

  -- The signed request of `ExecCommand`.
  unfoldable pub command_request : UserClient w → ℕ → ℕ → ℕ → Bytes → CommandRequest
  command_request c req_id group_id func_id arg =
      let request : CommandRequest = record {
        group = group_id;
        client_id = c.id;
        request_id = req_id;
        func_id = func_id;
        signature = [];
        arg = arg;
      } in
      record request {
        signature = w.sign_digest c.private_key (w.sha1 (exec_command_sign_data request));
      }

  -- The goroutine that receives results: their hashes, and the last result under each hash.
  unfoldable pub receive : List ℕ → Map Bytes → List Bytes → List ℕ × Map Bytes
  receive hashes received [] = (hashes, received)
  receive hashes received (res ∷ results) =
      receive (hashes ++ reading.hash_data res ∷ []) (insert (reading.hash_data res) res received)
        results

  -- The result that the hash of a majority stands for; a key that the map has not gives no bytes.
  unfoldable pub majority_data : List ℕ × Map Bytes → Bytes
  majority_data (hashes, received) = elim (lookup (pick_majority reading.range hashes) received) [
    | none ↦ []
    | some bytes ↦ bytes
  ]

  -- The end of `ExecCommand`: as many results as are expected, or none in time.
  unfoldable pub wait_results : ℕ → List Bytes → Result Bytes
  unfolding receive majority_data
  wait_results expected_response results =
      if ltb (length results) expected_response
      then err no_response
      else ok (majority_data (receive [] [] (take expected_response results)))

  -- `ExecCommand`; the counter is an int64 that is read as a uint64.
  unfoldable pub exec_command : UserClient w → ℕ → ℕ → Bytes → Outcome (Result Bytes × UserClient w)
  unfolding get_group_leader command_request get_group_hosts wait_results
  exec_command c group_id func_id arg = get_group_leader c group_id >>= λ l. elim l.0 [
    | none ↦ done (err no_leader, l.1)
    | some leader ↦
        let req_id = (l.1.counter + 1) % 2 ^ 64 in
        let c' = record l.1 { counter = req_id } in
        let request = command_request c' req_id group_id func_id arg in
        get_group_hosts c' group_id >>= λ h. elim h.0 [
          | none ↦ done (err no_group_hosts, h.1)
          | some hosts ↦
              done
                (wait_results (expected_players (length hosts)) (net.results leader request), h.1)
        ]
  ]
