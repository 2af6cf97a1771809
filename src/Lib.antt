-- ===== src/Lib.antt =====
-- BFTRaft4go: a replicated state machine in groups of peers, with leaders that are elected by signed
-- votes. This library models its core and proves what keeps the logs and the leaders right.
--
-- The program. A node (`BFTRaftServer`, server/bftraft.go) takes part in groups. For each it has an
-- `RTGroup` (server/group.go): the peers, the term, its role, its promise of a vote. The log of a group
-- stands in a badger database, one entry per key, each with a hash on top of the one before
-- (server/log_entries.go). Clients send signed commands to the leader (`ExecCommand`), the leader sends
-- entries to its peers in heartbeats (`SendFollowersHeartbeat`, server/peers.go), a follower takes them
-- (`AppendEntries`). A follower that waits too long stands for election (`BecomeCandidate`,
-- server/vote.go), peers vote (`RequestVote`), and a new leader shows its votes in the next
-- `AppendEntries`, where the follower checks them (`BecomeFollower`). What a group does when its timer
-- runs out is `StartTimeWheel`. The alpha group (server/alpha.go) is the group in which nodes, clients
-- and groups are registered, by commands (server/membership.go) that the user client executes
-- (client/user_client.go).
--
-- Which file models what. State is passed explicitly: a handler takes the node (`Server`) and the group
-- (`RtGroup`) and returns them; a call that can panic returns an `Outcome`.
--   Encoding    utils/encoding.go: big-endian numbers
--   Consensus   utils/consensus.go: `ExpectedPlayers`, `PickMajority`, `MajorityResponse`
--   Messages    proto/server/server.pb.go: the structs of the messages
--   World       badger, protobuf, SHA-1 and RSA as parameters, and the laws that are relied on
--   Text        `fmt.Sprint` of numbers and Booleans
--   Store       server/store.go: the keys of the database
--   SignData    utils/shares.go and parts of server/vote.go, server/log_entries.go: what is signed
--   Outcome     how a call ends: a value, a panic, an error
--   Log         server/log_entries.go; `Log.Abstract.IsLog` says which list of entries a database holds
--   Server      the state; `Sign` and `VerifySign`
--   Hosts       server/hosts.go: hosts and their keys, behind two caches
--   Vote        server/vote.go: `ResetTerm`, `BecomeFollower`
--   Ballot      server/group.go: `RequestVote`
--   Peers       server/peers.go: the peers in the database, the entries that a peer lacks
--   Follower    server/group.go: `AppendEntries`; `CommitGroupLog` of server/log_entries.go
--   Leader      server/group.go: `SendFollowersHeartbeat`; `ExecCommand` of server/bftraft.go
--   Replication a heartbeat of the leader and the answer of the follower together: no code of its own
--   Election    server/vote.go: `BecomeCandidate`, `BecomeLeader`
--   Groups      server/group.go: reading and caching groups, `GroupLeader`; the calls of
--               server/bftraft.go that hand on to a group, `PullGroupLogs`
--   Members     server/bftraft.go, server/group.go: what a node tells of the members of a group
--   Membership  server/membership.go: the commands that run on every node, their registration
--               (`Membership.Registry`), and those that propose them (`Membership.Join`)
--   Scan        server/peers.go: `ScanHostedGroups`
--   Wheel       server/group.go: `StartTimeWheel`
--   Alpha       server/alpha.go: `ColdStart`, `SyncAlphaGroup`
--   Start       server/bftraft.go, server/config.go: `InitDatabase`, `GetConfig`, `GetServer`
--   AlphaNodes  utils/alpha.go, client/alpha.go: how a client finds the alpha nodes
--   Client      client/user_client.go: the client that executes commands
--   Observer    server/observer.go: `PullAndCommitGroupLogs`
--   Samples     a small world and cluster, at which every result is instantiated
--   Prelude     names of the library, Boolean tests, lists and maps over the native numbers
--
-- Numbers. uint32 and uint64 are natural numbers; sums that can overflow are taken modulo 2 ^ 64, and
-- theorems name the bounds they need. Two loops run on fuel. `RequestVote` looks at the group at most
-- twenty times (10 * 1000 / 500), which is the fuel of `lazy_wait`; a number below 2 ^ 64 has at most
-- twenty decimal digits, the fuel of `decimal`. The other loops go through a list.
--
-- What other code does. The answers of the network, the time, drawn timeouts, the order in which a Go
-- map is visited and the functions of the state machine (`FuncReg`) are arguments. Goroutines are
-- represented by the order in which their messages arrive. The locks are not modelled: a handler runs
-- alone, but for `RequestVote`, which sees the group change while it waits. The caches do not expire.
-- Log messages are left out, and so is the call that sends the result of a command to its client.
--
-- What is not modelled: the connections (utils/conns.go, utils/rpcs.go, server/clients.go), where a client
-- is the address it connects to; the configuration file (server/config.go) and
-- `StartServer` of server/bftraft.go, which sets up gRPC services and registers the host; `RandomTimeout`, a draw of floating-point
-- numbers; the feedback server (client/feedback_server.go), which hands results on to a channel. Generated
-- code is left out but for the structs. The panic of a goroutine ends the process, and is the panic of the
-- call that started it.
pub mod Prelude
pub mod Encoding
pub mod Consensus
pub mod Messages
pub mod World
pub mod Text
pub mod Store
pub mod SignData
pub mod Outcome
pub mod Log
mod Samples
pub mod Server
pub mod Hosts
pub mod Vote
pub mod Ballot
pub mod Follower
pub mod Peers
pub mod Leader
pub mod Election
pub mod Groups
pub mod Membership
pub mod Observer
pub mod Members
pub mod Alpha
pub mod AlphaNodes
pub mod Client
pub mod Replication
pub mod Start
pub mod Wheel
pub mod Scan
