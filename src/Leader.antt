-- ===== src/Leader.antt =====
-- The leader: `SendFollowersHeartbeat` of server/group.go and `ExecCommand` of server/bftraft.go.
-- What the network does is a `Network`: which addresses can be called, which answers come back and in
-- which order. The order in which a Go map is visited is `visits`.
pub mod Beats
pub mod Commands
use bftraft4go.Prelude.{
  ℕ, zero, suc, ◌+◌, ◌%◌, ◌^◌, Bool, true, false, not, ◌&&◌, Option, none, some, List, [], ◌∷◌,
  Bytes, ◌==◌, if◌then◌else◌, Map, lookup, insert,
}
use bftraft4go.Messages.{
  CommandRequest, CommandResponse, LogEntry, AppendEntriesRequest, AppendEntriesResponse, Peer,
  Host,
}
use bftraft4go.Outcome.{Outcome, done, panicked, ◌>>=◌, Result, ok, err}
use bftraft4go.World.{World}
use bftraft4go.SignData.{command_sign_data, append_log_entry_sign_data}
use bftraft4go.Server.{Server, RtGroup, refresh_timer, sign}
use bftraft4go.Hosts.{get_host, get_host_public_key, verify_command_sign}
use bftraft4go.Log.{log_hash, last_entry_hash, last_entry_index, append_entry_to_local}
use bftraft4go.Peers.{peer_uncommitted_log_entries, save_peer, get_group_peers_from_kv}
use bftraft4go.Follower.{RaftFunc, commit_group_log}

pub record Network : Type 0 where
  pub connects : Bytes → Bool
  pub visits : Map Peer → Map Peer
  pub answers : List (ℕ × AppendEntriesRequest) → List (Option AppendEntriesResponse)
  -- `ExecCommand` on another host.
  pub forward : Host → CommandRequest → Result CommandResponse

abbrev pub alpha_group : ℕ
alpha_group = 1

abbrev pub reg_node : ℕ
reg_node = 1

-- A key that a Go map of Booleans has not is false.
unfoldable pub marked : ℕ → Map Bool → Bool
marked id marks = elim (lookup id marks) [ none ↦ false | some b ↦ b ]

module _ (w : World) where
  -- The request to a peer. Whether it carries the votes is looked up under the leader's own id.
  unfoldable pub heartbeat_request : Server w → RtGroup → Peer → AppendEntriesRequest
  unfolding marked
  heartbeat_request s m peer =
      let (entries, prev_entry) = peer_uncommitted_log_entries w m.group.id s.db peer in
      record {
        group = m.group.id;
        term = m.group.term;
        leader_id = s.id;
        prev_log_index = prev_entry.index;
        prev_log_term = prev_entry.term;
        signature =
            sign w s
              (append_log_entry_sign_data m.group.id m.group.term prev_entry.index prev_entry.term);
        quorum_votes = if marked s.id m.send_votes_for_peers then m.votes else [];
        entries = entries;
      }

  -- The first loop: what is sent, and whether the handler goes on. At a peer whose host is not
  -- known it returns.
  unfoldable pub send_requests :
      Network
      → RtGroup
      → List (ℕ × Peer)
      → Server w
      → List (ℕ × AppendEntriesRequest) × Bool × Server w
  unfolding heartbeat_request
  send_requests net m [] s = ([], true, s)
  send_requests net m ((peer_id, peer) ∷ peers) s =
      let (node, s') = get_host w s peer_id in
      let rest = send_requests net m peers (if peer_id == s.id then s else s') in
      if peer_id == s.id then rest else elim node [
        | none ↦ ([], false, s')
        | some host ↦
            if net.connects host.server_addr
            then ((peer_id, heartbeat_request s m peer) ∷ rest.0, rest.1, rest.2)
            else rest
      ]

  -- The new indices of a peer. The peer is the value behind the key of the answer, and is put
  -- under its own id too.
  unfoldable pub move_peer : Server w → RtGroup → ℕ → Peer → ℕ → Server w × RtGroup
  move_peer s m peer_id peer index =
      let peer' = record peer { match_index = index; next_index = (index + 1) % 2 ^ 64 } in
      (
        elim (save_peer w s peer') [ ok s' ↦ s' | err e ↦ s ],
        record m { group_peers = insert peer.id peer' (insert peer_id peer' m.group_peers) },
      )

  -- One round of the second loop, for an answer that is not nil.
  unfoldable pub note_response :
      AppendEntriesResponse → Server w × RtGroup → Outcome (Server w × RtGroup)
  unfolding move_peer
  note_response response (s, m) = get_host_public_key w s response.peer >>= λ got. elim got.0 [
    | none ↦ done (got.1, m)
    | some key ↦ elim (lookup response.peer m.group_peers) [
      | none ↦ panicked
      | some peer ↦
          let (s', m') =
            if response.index == peer.match_index
            then (got.1, m)
            else move_peer got.1 m response.peer peer response.index in
          done (
            s',
            record m' {
              send_votes_for_peers =
                  insert response.peer (not response.convinced) m'.send_votes_for_peers;
            },
          )
    ]
  ]

  unfoldable pub note_responses :
      List (Option AppendEntriesResponse) → Server w × RtGroup → Outcome (Server w × RtGroup)
  unfolding note_response
  note_responses [] p = done p
  note_responses (none ∷ answers) p = note_responses answers p
  note_responses (some response ∷ answers) p =
      note_response response p >>= λ p'. note_responses answers p'

  -- `SendFollowersHeartbeat`
  unfoldable pub send_followers_heartbeat :
      Network → ℕ → ℕ → Server w → RtGroup → Outcome (Server w × RtGroup)
  unfolding send_requests note_responses refresh_timer
  send_followers_heartbeat net now draw s m =
      let m' = refresh_timer now draw m in
      let (requests, whole, s') = send_requests net m' (net.visits m'.group_peers) s in
      if whole then note_responses (net.answers requests) (s', m') else done (s', m')

  -- The entry that a leader makes of a command.
  unfoldable pub new_entry : Server w → RtGroup → CommandRequest → LogEntry
  new_entry s m cmd =
      let index = (last_entry_index w m.group.id s.db + 1) % 2 ^ 64 in
      record {
        term = m.group.term;
        index = index;
        hash = log_hash w (last_entry_hash w m.group.id s.db) index cmd.func_id cmd.arg;
        command = cmd;
      }

  unfoldable pub first_answer : Server w → CommandRequest → CommandResponse
  first_answer s cmd = record {
    group = cmd.group;
    leader_id = 0;
    node_id = s.id;
    request_id = cmd.request_id;
    signature = sign w s (command_sign_data cmd.group s.id cmd.request_id []);
    result = [];
  }

  unfoldable pub signed_answer : Server w → CommandResponse → CommandResponse
  signed_answer s r = record r {
    signature = sign w s (command_sign_data r.group r.node_id r.request_id r.result);
  }

  -- Whether a command is taken: a node that registers itself has no key yet.
  unfoldable pub accept_command : Server w → CommandRequest → Outcome (Bool × Server w)
  accept_command s cmd =
      let (node, s') = get_host w s cmd.client_id in
      let checked = verify_command_sign w s' cmd in
      elim node [
        | some host ↦ checked
        | none ↦
            if (cmd.group == alpha_group) && (cmd.func_id == reg_node)
            then done (true, s')
            else checked
      ]

module _ (w : World) (func_reg : ℕ → Option (RaftFunc w)) where
  -- A command that the leader has accepted.
  unfoldable pub append_command :
      Network
      → ℕ
      → ℕ
      → Server w
      → RtGroup
      → CommandRequest
      → Outcome (CommandResponse × Server w × RtGroup)
  unfolding first_answer new_entry
  append_command net now draw s m cmd =
      let entry = new_entry w s m cmd in
      let response = record (first_answer w s cmd) { leader_id = s.id } in
      append_entry_to_local w m.group.id s.db entry >>= λ r. elim r [
        | err e ↦ done (response, s, m)
        | ok db' ↦ send_followers_heartbeat w net now draw (record s { db = db' }) m >>= λ p.
            commit_group_log w func_reg entry p.0 p.1 >>= λ c.
            done (record response { result = c.0 }, c.1, c.2)
      ]

  -- `ExecCommand` on the leader of the group.
  unfoldable pub lead_command :
      Network
      → ℕ
      → ℕ
      → Server w
      → RtGroup
      → CommandRequest
      → Outcome (CommandResponse × Server w × RtGroup)
  unfolding append_command accept_command signed_answer
  lead_command net now draw s m cmd = accept_command w s cmd >>= λ a.
      (if a.0 then append_command net now draw a.1 m cmd else done (first_answer w s cmd, a.1, m))
      >>= λ r. done (signed_answer w r.1 r.0, r.1, r.2)

  -- The host that a command is passed on to: the leader, or some host of the group.
  unfoldable pub route_command :
      Network → Server w → Option RtGroup → ℕ → Outcome (Option Host × Server w)
  route_command net s (some m) group = done (get_host w s m.leader_id)
  route_command net s none group = get_group_peers_from_kv w s.db group >>= λ peers.
      elim (net.visits peers) [ [] ↦ done (none, s) | p ∷ rest ↦ done (get_host w s p.0) ]

  -- `ExecCommand` elsewhere: a nil host panics.
  unfoldable pub pass_command :
      Network
      → Server w
      → Option RtGroup
      → CommandRequest
      → Outcome (Result CommandResponse × Server w)
  unfolding route_command
  pass_command net s onboard cmd = route_command net s onboard cmd.group >>= λ r. elim r.0 [
    | none ↦ panicked
    | some host ↦
        if net.connects host.server_addr
        then done (net.forward host cmd, r.1)
        else done (ok (signed_answer w r.1 (first_answer w s cmd)), r.1)
  ]
