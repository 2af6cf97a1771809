-- ===== src/Store.antt =====
-- server/store.go and the keys of the other server files: the layout of the database.
pub mod Keys
use bftraft4go.Prelude.{ℕ, ◌++◌, Bytes}
use bftraft4go.Encoding.{u32_bytes, u64_bytes}

abbrev pub log_entries : ℕ
log_entries = 0

abbrev pub group_peers : ℕ
group_peers = 1

abbrev pub group_meta : ℕ
group_meta = 2

abbrev pub host_list : ℕ
host_list = 3

abbrev pub host_list_group : ℕ
host_list_group = 1

-- `ComposeKeyPrefix`
unfoldable pub compose_key_prefix : ℕ → ℕ → Bytes
compose_key_prefix group t = u32_bytes t ++ u64_bytes group

-- `LogEntryKey`
unfoldable pub log_entry_key : ℕ → ℕ → Bytes
log_entry_key group entry_index = compose_key_prefix group log_entries ++ u64_bytes entry_index

-- The key under which `SavePeer` writes.
unfoldable pub peer_key : ℕ → ℕ → Bytes
peer_key group id = compose_key_prefix group group_peers ++ u64_bytes id

-- The key under which `SaveHost` writes and `GetHost` reads.
unfoldable pub host_key : ℕ → Bytes
host_key id = compose_key_prefix host_list_group host_list ++ u64_bytes id
