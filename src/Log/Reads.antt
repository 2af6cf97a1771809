-- ===== src/Log/Reads.antt =====
-- What the reads of server/log_entries.go return of a log.
use bftraft4go.Prelude.{
  ℕ, suc, ◌+◌, ◌≡◌, refl, ◌∙◌, none, some, List, [], ◌∷◌, arith, Bytes, length,
}
use bftraft4go.Messages.{LogEntry}
use bftraft4go.World.{World, IsWorld}
use bftraft4go.Log.{last_log_entry, group_hash, last_entry_hash, last_entry_index}
use bftraft4go.Log.Abstract.{last_or, last_hash, Indexed, IsLog, last_log_entry-eq}

pub last_or-hash :
    (h : Bytes) (e : LogEntry) (es : List LogEntry)
    → (x : LogEntry) × (last_or (some e) es ≡ some x) × (x.hash ≡ last_hash e.hash es)
last_or-hash h e [] = (e, refl, refl)
last_or-hash h e (x ∷ es) = last_or-hash h x es

pub last_or-index :
    (n : ℕ) (e : LogEntry) (es : List LogEntry)
    → Indexed n (e ∷ es)
    → (x : LogEntry) × (last_or (some e) es ≡ some x) × (x.index ≡ n + length (e ∷ es))
last_or-index n e [] i = (e, refl, omega (arith, i.0))
last_or-index n e (x ∷ es) i =
    let (y, at, index) = last_or-index (suc n) x es i.1 in (y, at, omega arith)

module _ (w : World) (laws : IsWorld w) (g : ℕ) (db : w.Db) (es : List LogEntry)
    (log : IsLog w g db es) where
  hash_of :
      (es : List LogEntry)
      → last_log_entry w g db ≡ last_or none es
      → last_entry_hash w g db ≡ last_hash (group_hash w g) es
  unfolding last_entry_hash
  hash_of [] e = rw (e, last_entry_hash)
  hash_of (x ∷ xs) e =
      let (y, at, hash) = last_or-hash x.hash x xs in rw (e ∙ at, last_entry_hash) hash

  -- In a world that keeps its laws, where the database holds the log `es` of a group,
  -- `LastEntryHash` is the hash of the last entry of `es`, and for an empty log that of the
  -- group's name.
  pub last_entry_hash-eq : last_entry_hash w g db ≡ last_hash (group_hash w g) es
  last_entry_hash-eq = hash_of es (last_log_entry-eq w laws g db es log)

  index_of :
      (es : List LogEntry)
      → Indexed 0 es
      → last_log_entry w g db ≡ last_or none es
      → last_entry_index w g db ≡ length es
  unfolding last_entry_index
  index_of [] i e = rw (e, last_entry_index)
  index_of (x ∷ xs) i e =
      let (y, at, index) = last_or-index 0 x xs i in
      rw (e ∙ at, last_entry_index) (omega (arith, index))

  -- `LastEntryIndex` is the length of the log.
  pub last_entry_index-eq : last_entry_index w g db ≡ length es
  last_entry_index-eq = index_of es log.indexed (last_log_entry-eq w laws g db es log)
