-- ===== src/Messages.antt =====
-- The protocol's messages: the structs of proto/server/server.pb.go. A pointer field that the
-- handlers dereference without a test (`Command`) is the struct itself. XXX fields: there are none.
use bftraft4go.Prelude.{ℕ, Bool, Option, List, Bytes}

pub record CommandRequest : Type 0 where
  pub group : ℕ
  pub client_id : ℕ
  pub request_id : ℕ
  pub func_id : ℕ
  pub signature : Bytes
  pub arg : Bytes

pub record CommandResponse : Type 0 where
  pub group : ℕ
  pub leader_id : ℕ
  pub node_id : ℕ
  pub request_id : ℕ
  pub signature : Bytes
  pub result : Bytes

pub record LogEntry : Type 0 where
  pub term : ℕ
  pub index : ℕ
  pub hash : Bytes
  pub command : CommandRequest

pub record RequestVoteRequest : Type 0 where
  pub group : ℕ
  pub term : ℕ
  pub log_index : ℕ
  pub log_term : ℕ
  pub candidate_id : ℕ
  pub signature : Bytes

pub record RequestVoteResponse : Type 0 where
  pub group : ℕ
  pub term : ℕ
  pub log_index : ℕ
  pub candidate_id : ℕ
  pub voter : ℕ
  pub granted : Bool
  pub signature : Bytes

pub record AppendEntriesRequest : Type 0 where
  pub group : ℕ
  pub term : ℕ
  pub leader_id : ℕ
  pub prev_log_index : ℕ
  pub prev_log_term : ℕ
  pub signature : Bytes
  pub quorum_votes : List RequestVoteResponse
  pub entries : List LogEntry

pub record AppendEntriesResponse : Type 0 where
  pub group : ℕ
  pub term : ℕ
  pub index : ℕ
  pub peer : ℕ
  pub successed : Bool
  pub convinced : Bool
  pub hash : Bytes
  pub signature : Bytes

pub record Peer : Type 0 where
  pub id : ℕ
  pub group : ℕ
  pub next_index : ℕ
  pub match_index : ℕ

pub record Host : Type 0 where
  pub id : ℕ
  pub last_seen : ℕ
  pub online : Bool
  pub server_addr : Bytes
  pub public_key : Bytes

pub record RaftGroup : Type 0 where
  pub replications : ℕ
  pub id : ℕ
  pub term : ℕ

pub record ApproveAppendResponse : Type 0 where
  pub group : ℕ
  pub peer : ℕ
  pub index : ℕ
  pub appended : Bool
  pub delayed : Bool
  pub failed : Bool
  pub signature : Bytes

pub record GroupNodesResponse : Type 0 where
  pub nodes : List Host
  pub signature : Bytes

-- Both fields are pointers that the program always sets.
pub record GroupMember : Type 0 where
  pub host : Host
  pub peer : Peer

pub record GroupMembersResponse : Type 0 where
  pub last_entry : Option LogEntry
  pub members : List GroupMember
  pub signature : Bytes

pub record GroupInvitation : Type 0 where
  pub group : ℕ
  pub leader : ℕ
  pub node : ℕ
  pub signature : Bytes
