-- ===== src/Log.antt =====
-- server/log_entries.go: the log of a group in the database.
pub mod Abstract
pub mod Reads
pub mod Append
pub mod Refusals
use bftraft4go.Prelude.{
  ℕ, zero, suc, ◌+◌, ◌-◌, ◌^◌, Bool, true, false, not, Option, none, some, List, [], ◌∷◌, ◌++◌,
  Bytes, bytes_equal, ◌==◌, ltb, if◌then◌else◌,
}
use bftraft4go.Encoding.{u64_bytes}
use bftraft4go.Text.{decimal}
use bftraft4go.Messages.{LogEntry}
use bftraft4go.Outcome.{
  Outcome, done, panicked, GoError, hash_mismatch, log_existed, store_error, codec_error, Result,
  ok, err,
}
use bftraft4go.World.{World, Codec, Fetched, found, key_not_found, failed}
use bftraft4go.World.Keyed.{Item, reverse_seek, current}
use bftraft4go.Store.{compose_key_prefix, log_entry_key, log_entries}

abbrev pub max_uint64 : ℕ
max_uint64 = 2 ^ 64 - 1

module _ (w : World) where
  -- `LogHash`
  unfoldable pub log_hash : Bytes → ℕ → ℕ → Bytes → Bytes
  log_hash prev_hash index func_id args =
      w.sha1 (((prev_hash ++ u64_bytes index) ++ u64_bytes func_id) ++ args)

  -- `LogEntryFromKVItem`; an error of `Unmarshal` is not looked at.
  unfoldable pub log_entry_from_item : Item → Option LogEntry
  log_entry_from_item (key, none) = none
  log_entry_from_item (key, some bytes) = some (w.log_entry_codec.unmarshal bytes).0

  -- `ReversedLogIterator`: what is left for the iterator after its seek.
  unfoldable pub reversed_log_iterator : ℕ → w.Db → List Item
  reversed_log_iterator group_id db =
      reverse_seek (compose_key_prefix group_id log_entries ++ u64_bytes max_uint64) (w.items db)

  -- `Current`
  unfoldable pub current_entry : ℕ → List Item → Option LogEntry
  current_entry group_id iter = elim (current (compose_key_prefix group_id log_entries) iter) [
    | none ↦ none
    | some item ↦ log_entry_from_item item
  ]

  -- `LastLogEntry`, `LastLogEntryNTXN`
  unfoldable pub last_log_entry : ℕ → w.Db → Option LogEntry
  last_log_entry group_id db = current_entry group_id (reversed_log_iterator group_id db)

  -- The hash that stands before the first entry: that of the text `GROUP:` and the number.
  unfoldable pub group_hash : ℕ → Bytes
  group_hash group_id = w.sha1 ((71 ∷ 82 ∷ 79 ∷ 85 ∷ 80 ∷ 58 ∷ []) ++ decimal group_id)

  -- `LastEntryHash`, `LastEntryHashNTXN`
  unfoldable pub last_entry_hash : ℕ → w.Db → Bytes
  last_entry_hash group_id db = elim (last_log_entry group_id db) [
    | none ↦ group_hash group_id
    | some entry ↦ entry.hash
  ]

  -- `LastEntryIndex`, `LastEntryIndexNTXN`
  unfoldable pub last_entry_index : ℕ → w.Db → ℕ
  last_entry_index group_id db = elim (last_log_entry group_id db) [
    | none ↦ 0
    | some entry ↦ entry.index
  ]

  -- `txn.Set(key, data, 0x00)` as a statement: its error is dropped, and then nothing is written.
  unfoldable pub set_or_keep : w.Db → Bytes → Bytes → w.Db
  set_or_keep db key bytes = elim (w.set db key bytes) [ none ↦ db | some db' ↦ db' ]

  -- The write of `AppendEntryToLocal`, where the key is free.
  unfoldable pub write_entry : ℕ → w.Db → LogEntry → Result w.Db
  unfolding set_or_keep
  write_entry group_id db entry =
      let hash =
        log_hash (last_entry_hash group_id db) entry.index entry.command.func_id
          entry.command.arg in
      if not (bytes_equal hash entry.hash)
      then err hash_mismatch
      else elim (w.log_entry_codec.marshal entry) [
        | none ↦ err codec_error
        | some bytes ↦ ok (set_or_keep db (log_entry_key entry.command.group entry.index) bytes)
      ]

  -- `AppendEntryToLocal`; on an error the transaction is dropped.
  unfoldable pub append_entry_to_local : ℕ → w.Db → LogEntry → Outcome (Result w.Db)
  unfolding write_entry
  append_entry_to_local group_id db entry =
      if not (entry.command.group == group_id)
      then panicked
      else elim (w.get db (log_entry_key entry.command.group entry.index)) [
        | key_not_found ↦ done (write_entry group_id db entry)
        | found value ↦ done (err log_existed)
        | failed ↦ done (err store_error)
      ]

  -- `GetLogEntry`
  unfoldable pub get_log_entry : ℕ → w.Db → ℕ → Option LogEntry
  get_log_entry group_id db entry_index = elim (w.get db (log_entry_key group_id entry_index)) [
    | found value ↦ log_entry_from_item (log_entry_key group_id entry_index, value)
    | key_not_found ↦ none
    | failed ↦ none
  ]
