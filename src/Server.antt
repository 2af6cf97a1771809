-- ===== src/Server.antt =====
-- The state of a node: `BFTRaftServer` of server/bftraft.go, its caches, and `RTGroup` of
-- server/group.go. The two are separate values here; a handler that changes either returns it.
-- The caches (go-cache) are keyed by decimal texts of uint64, which are the numbers here.
use bftraft4go.Prelude.{ℕ, ◌+◌, Bool, List, Bytes, Map, length}
use bftraft4go.Messages.{Peer, Host, RaftGroup, RequestVoteResponse}
use bftraft4go.World.{World}
use bftraft4go.Consensus.{expected_players}

-- The roles `LEADER`, `FOLLOWER`, `CANDIDATE` and `OBSERVER`.
pub data Role : Type 0 where
  leader follower candidate observer : Role

pub record RtGroup : Type 0 where
  pub leader_id : ℕ
  pub last_voted_to : ℕ
  pub last_voted_term : ℕ
  pub group_peers : Map Peer
  pub group : RaftGroup
  pub timeout : ℕ
  pub role : Role
  pub votes : List RequestVoteResponse
  pub send_votes_for_peers : Map Bool

-- The fields of `BFTRaftServer` that the handlers of a group use.
pub record Server (w : World) : Type 0 where
  pub id : ℕ
  pub db : w.Db
  pub private_key : w.PrivateKey
  pub groups : Map RaftGroup
  pub hosts : Map Host
  pub node_public_keys : Map w.PublicKey

-- `RefreshTimer`: `draw` is what `RandomTimeout` returned, in milliseconds.
unfoldable pub refresh_timer : ℕ → ℕ → RtGroup → RtGroup
refresh_timer now draw m = record m { timeout = now + draw }

-- `ExpectedHonestPeers`
unfoldable pub expected_honest_peers : RtGroup → ℕ
expected_honest_peers m = expected_players (length m.group_peers)

module _ (w : World) where
  -- `Sign` of utils/signature.go under the key of the server.
  unfoldable pub sign : Server w → Bytes → Bytes
  sign s text = w.sign_digest s.private_key (w.sha1 text)

  -- `VerifySign`
  unfoldable pub verify_sign : w.PublicKey → Bytes → Bytes → Bool
  verify_sign public_key signature text = w.verify_digest public_key (w.sha1 text) signature
