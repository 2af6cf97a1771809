-- ===== src/Samples/ClientCases.antt =====
-- The theorems on the user client at the small cluster.
use mathlib.Core.Logic.{◌↔◌}
use bftraft4go.Prelude.{
  ℕ, zero, suc, ◌+◌, ◌≤◌, ◌≡◌, ◌≢◌, refl, sym, ap, ◌∙◌, true, false, some, none, List, [], ◌∷◌,
  arith, Bytes, lookup, insert, length, take, Elem, IsRange, inl, inr,
}
use bftraft4go.Outcome.{done, panicked, ok}
use bftraft4go.Consensus.{expected_players, pick_majority, bump, majority_response}
use bftraft4go.World.Keyed.{seek}
use bftraft4go.Peers.{get_group_peers_from_kv}
use bftraft4go.Groups.{
  GroupLeader, group_leader, get_onboard_group, get_group_hosts, hosts_of_peers,
}
use bftraft4go.AlphaNodes.{answered, ClientNet, Reading, get_alpha_rpcs}
use bftraft4go.Client
use bftraft4go.Client.{
  UserClient, alpha_clients, hosts_answer, leader_answers, get_group_leader, command_request,
  receive, majority_data, wait_results, exec_command,
}
use bftraft4go.Client.Counts.{count_bytes, Apart}
use bftraft4go.Client.Results.{wait_results_iff}
use bftraft4go.Client.Commands.{Agreed, exec_command-Agreed}
use bftraft4go.Client.Leaders.{get_group_leader-panics}
use bftraft4go.Samples.Codecs.{encode_host}
use bftraft4go.Samples.Small.{small, all_items}
use bftraft4go.Samples.Cluster.{node, host}

unfoldable weigh : Bytes → ℕ
weigh [] = 1
weigh (x ∷ xs) = x + 2

abbrev reading : Reading
reading = record { hash_data = weigh; range = λ m. m; visit_any = λ m. m }

abbrev results : List Bytes
results = (5 ∷ []) ∷ (5 ∷ []) ∷ (6 ∷ []) ∷ []

abbrev net_of : GroupLeader → ClientNet
net_of leader = record {
  connects = λ address. true;
  group_hosts =
      λ nodes g. answered (record { nodes = host 1 ∷ host 2 ∷ host 3 ∷ []; signature = [] }) ∷ [];
  group_leader = λ nodes g. answered leader ∷ [];
  group_content = λ nodes g. [];
  results = λ leader request. results;
}

abbrev net : ClientNet
net = net_of (record { leader_node = some (host 2); accuate = true })

abbrev client : UserClient small
client = record {
  id = 9;
  private_key = 109;
  alpha_rpcs = record { bootstraps = []; rpcs = (1 ∷ []) ∷ []; last_check = 0 };
  group_hosts = [];
  group_leader = [];
  counter = 0;
}

abbrev wrap : List ℕ → List Bytes
wrap [] = []
wrap (b ∷ bs) = (b ∷ []) ∷ wrap bs

single : (n : ℕ) (bs : List ℕ) (x : Bytes) → Elem x (take n (wrap bs)) → (b : ℕ) × (x ≡ b ∷ [])
single zero bs x at = absurd at
single (suc n) [] x at = absurd at
single (suc n) (b ∷ bs) x (inl e) = (b, e)
single (suc n) (b ∷ bs) x (inr at) = single n bs x at

results-Apart : (n : ℕ) → Apart weigh (take n results)
unfolding weigh
results-Apart n x y at_x at_y same =
    let (b, x_eq) = single n (5 ∷ 5 ∷ 6 ∷ []) x at_x in
    let (d, y_eq) = single n (5 ∷ 5 ∷ 6 ∷ []) y at_y in
    let weights : b + 2 ≡ d + 2 = sym (ap weigh x_eq) ∙ same ∙ ap weigh y_eq in
    let b_eq : b ≡ d = omega (arith, weights) in x_eq ∙ ap (λ t. t ∷ []) b_eq ∙ sym y_eq

in_order : {A : Type 0} → IsRange {A = A} (λ m. m)
in_order xs x = (λ at. at, λ at. at)

results_nonzero : (n : ℕ) (x : Bytes) → Elem x (take n results) → weigh x ≢ 0
unfolding weigh
results_nonzero n [] at = ground arith
results_nonzero n (b ∷ x) at = ground arith

wait_results_iff_example :
    (wait_results small reading net 0 2 results ≡ ok (5 ∷ []))
    ↔ ((2 ≤ length results) × (expected_players 2 ≤ count_bytes (5 ∷ []) (take 2 results)))
wait_results_iff_example =
    wait_results_iff small reading net 0 in_order 2 results (results-Apart 2) (results_nonzero 2)
      (5 ∷ []) (λ e. cc (e))

abbrev client_after : UserClient small
client_after = record client {
  group_hosts = (7, host 1 ∷ host 2 ∷ host 3 ∷ []) ∷ [];
  group_leader = (7, 2 ∷ []) ∷ [];
  counter = 1;
}

executed : exec_command small reading net 0 client 7 2 (5 ∷ []) ≡ done (ok (5 ∷ []), client_after)
unfolding exec_command get_group_leader Client.get_group_hosts alpha_clients get_alpha_rpcs lookup
    majority_response insert weigh pick_majority bump expected_players encode_host
executed = refl

exec_command-Agreed_example : Agreed small reading net 0 client 7 2 (5 ∷ []) (5 ∷ []) client_after
exec_command-Agreed_example =
    exec_command-Agreed small reading net 0 in_order (λ leader request. results-Apart)
      (λ leader request. results_nonzero) client 7 2 (5 ∷ []) (5 ∷ []) (ok (5 ∷ []), client_after)
      executed refl (λ e. cc (e))

abbrev off_board : GroupLeader
off_board = record { leader_node = none; accuate = false }

answered_nil : group_leader small (λ m. m) (node []) [] 7 ≡ done (off_board, node [])
unfolding group_leader get_group_hosts hosts_of_peers get_group_peers_from_kv seek all_items lookup
    get_onboard_group
answered_nil = refl

not_on_board : get_onboard_group [] 7 ≡ none
unfolding get_onboard_group lookup
not_on_board = refl

asked : alpha_clients small reading (net_of off_board) 0 client ≡ done ((1 ∷ []) ∷ [], client)
unfolding alpha_clients get_alpha_rpcs
asked = refl

unknown : lookup 7 client.group_leader ≡ none
unfolding lookup
unknown = refl

get_group_leader-panics_example :
    get_group_leader small reading (net_of off_board) 0 client 7 ≡ panicked
get_group_leader-panics_example =
    get_group_leader-panics small reading (net_of off_board) 0 (λ m. m) (node []) [] 7
      (off_board, node []) not_on_board answered_nil client ((1 ∷ []) ∷ [], client) unknown asked
      (inl refl)
