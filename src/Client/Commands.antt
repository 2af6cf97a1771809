-- ===== src/Client/Commands.antt =====
-- `ExecCommand` of the client: which answers stand behind its result.
use bftraft4go.Prelude.{
  ℕ, ◌+◌, ◌%◌, ◌^◌, ◌≤◌, ◌≡◌, ◌≢◌, refl, ap, ◌∙◌, some, List, [], Bytes, length, take, Elem,
  IsRange, lookup, Option-cases, inl, inr,
}
use bftraft4go.Messages.{CommandRequest, Host}
use bftraft4go.Outcome.{done, >>=-eq-done, along_done, Result, ok, err, no_leader, no_group_hosts}
use bftraft4go.World.{World}
use bftraft4go.SignData.{exec_command_sign_data}
use bftraft4go.Consensus.{expected_players}
use bftraft4go.Client.Counts.{count_bytes, Apart}
use bftraft4go.AlphaNodes.{ClientNet, Reading}
use bftraft4go.Client.{
  UserClient, get_group_leader, get_group_hosts, command_request, wait_results, exec_command,
}
use bftraft4go.Client.Results.{wait_results_iff}
use bftraft4go.Client.Caches.{SameClient, get_group_leader-cached, get_group_hosts-cached}

module _ (w : World) (reading : Reading) (net : ClientNet) (now : ℕ) where
  -- The request that asks for the function `func_id` of the group on `arg`: the client's next one,
  -- under its signature.
  pub record IsAsked (c : UserClient w) (group_id func_id : ℕ) (arg : Bytes)
      (request : CommandRequest) : Type 0 where
    pub group : request.group ≡ group_id
    pub client : request.client_id ≡ c.id
    pub next : request.request_id ≡ (c.counter + 1) % 2 ^ 64
    pub func : request.func_id ≡ func_id
    pub on_arg : request.arg ≡ arg
    pub signed :
        request.signature ≡ w.sign_digest c.private_key (w.sha1 (exec_command_sign_data request))

  -- The result `d` that the client `c'` has of the command that `c` asks for is agreed on by a quorum
  -- of a quorum of the hosts of the group.
  pub record Agreed (c : UserClient w) (group_id func_id : ℕ) (arg d : Bytes) (c' : UserClient w)
      : Type 0 where
    pub leader : Bytes
    pub hosts : List Host
    pub request : CommandRequest
    pub asked : IsAsked c group_id func_id arg request
    pub counted : c'.counter ≡ request.request_id
    pub leads : lookup group_id c'.group_leader ≡ some leader
    pub known : lookup group_id c'.group_hosts ≡ some hosts
    pub arrived : expected_players (length hosts) ≤ length (net.results leader request)
    pub quorum :
        expected_players (expected_players (length hosts))
        ≤ count_bytes d (take (expected_players (length hosts)) (net.results leader request))

  abbrev counted : UserClient w → UserClient w
  counted t = record t { counter = (t.counter + 1) % 2 ^ 64 }

  abbrev sent : UserClient w → ℕ → ℕ → Bytes → CommandRequest
  sent l group_id func_id arg =
      command_request w reading net now (counted l) (counted l).counter group_id func_id arg

  sent-IsAsked :
      (c l : UserClient w) (group_id func_id : ℕ) (arg : Bytes)
      → SameClient w reading net now c l
      → IsAsked c group_id func_id arg (sent l group_id func_id arg)
  unfolding command_request exec_command_sign_data
  sent-IsAsked c l group_id func_id arg (id, key, counter) = record {
    group = refl;
    client = id;
    next = ap (λ (n : ℕ). (n + 1) % 2 ^ 64) counter;
    func = refl;
    on_arg = refl;
    signed =
        ap (λ k. w.sign_digest k (w.sha1 (exec_command_sign_data (sent l group_id func_id arg))))
          key;
  }

  module _ (visits : IsRange reading.range)
      (apart : (leader : Bytes) (request : CommandRequest) (n : ℕ)
        → Apart reading.hash_data (take n (net.results leader request)))
      (nonzero : (leader : Bytes) (request : CommandRequest) (n : ℕ) (x : Bytes)
        → Elem x (take n (net.results leader request))
        → reading.hash_data x ≢ 0) where
    -- If the results of commands have hashes that tell them apart and are not 0, then behind a
    -- non-empty result of the client's `ExecCommand` of a function on an argument there is a
    -- leader, and there are hosts of the group, that the client now has in its caches; and of the
    -- results of a request to that leader, which names the group, the client, its next number
    -- (modulo 2^64), that function and that argument under the client's signature, as many have
    -- arrived as a quorum of the hosts, of which, those that came first, a quorum are the result;
    -- and the client has counted the request.
    pub exec_command-Agreed :
        (c : UserClient w) (group_id func_id : ℕ) (arg d : Bytes) (r : Result Bytes × UserClient w)
        → exec_command w reading net now c group_id func_id arg ≡ done r
        → r.0 ≡ ok d
        → d ≢ []
        → Agreed c group_id func_id arg d r.1
    unfolding exec_command
    exec_command-Agreed c group_id func_id arg d r e is full =
        let Fine : Result Bytes × UserClient w → Type 0 =
          λ t. t.0 ≡ ok d → Agreed c group_id func_id arg d t.1 in
        let (l, led, rest) = >>=-eq-done (get_group_leader w reading net now c group_id) _ e in
        elim (Option-cases l.0) [
          | inl nil ↦ along_done Fine (err no_leader, l.1) r (rw nil at rest) (λ bad. cc (bad)) is
          | inr (leader, found_leader) ↦
              let request = sent l.1 group_id func_id arg in
              let (leads, kept) =
                get_group_leader-cached w reading net now c group_id leader l led found_leader in
              let (h, hosted, end) =
                >>=-eq-done (get_group_hosts w reading net now (counted l.1) group_id) _
                  (rw found_leader at rest) in
              elim (Option-cases h.0) [
                | inl nil ↦
                    along_done Fine (err no_group_hosts, h.1) r (rw nil at end) (λ bad. cc (bad)) is
                | inr (hosts, found) ↦
                    let expected = expected_players (length hosts) in
                    let (known, unchanged, (_, _, counter)) =
                      get_group_hosts-cached w reading net now (counted l.1) group_id hosts h hosted
                        found in
                    along_done Fine
                      (wait_results w reading net now expected (net.results leader request), h.1) r
                      (rw found at end)
                      (λ got.
                        let many =
                          (wait_results_iff w reading net now visits expected
                              (net.results leader request) (apart leader request expected)
                              (nonzero leader request expected) d full).0
                            got in
                        record {
                          leader = leader;
                          hosts = hosts;
                          request = request;
                          asked = sent-IsAsked c l.1 group_id func_id arg kept;
                          counted = counter;
                          leads = ap (lookup group_id) unchanged ∙ leads;
                          known = known;
                          arrived = many.0;
                          quorum = many.1;
                        })
                      is
              ]
        ]
