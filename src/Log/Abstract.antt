-- ===== src/Log/Abstract.antt =====
-- The log that the database holds of a group, as a list; what reads of it return.
use mathlib.Core.List.{reverse-cons, append_assoc, append-nil}
use bftraft4go.Prelude.{
  ℕ, suc, ◌+◌, ◌^◌, ◌<◌, ◌≡◌, refl, sym, ap, ◌∙◌, Bool, true, Option, none, some, List, [], ◌∷◌,
  ◌++◌, arith, Bytes, All, length, le→leb, Bool-cases, inl, inr, reverse,
}
use bftraft4go.Encoding.{u64_bytes}
use bftraft4go.Encoding.Order.{bytes_leb, bytes_leb-append, bytes_leb-u64_bytes}
use bftraft4go.Messages.{LogEntry}
use bftraft4go.World.{World, IsWorld}
use bftraft4go.World.Keyed.{Item, has_prefix, under_prefix, first_of_items}
use bftraft4go.World.Walks.{taken, current-eq-first, taken-reverse_seek}
use bftraft4go.Store.{compose_key_prefix, log_entry_key, log_entries}
use bftraft4go.Log.{
  max_uint64, log_hash, log_entry_from_item, reversed_log_iterator, current_entry, last_log_entry,
  group_hash,
}

-- The last element, or `d`.
abbrev pub last_or : Option LogEntry → List LogEntry → Option LogEntry
last_or d [] = d
last_or d (x ∷ xs) = last_or (some x) xs

-- The hash of the last entry, or `h`.
abbrev pub last_hash : Bytes → List LogEntry → Bytes
last_hash h [] = h
last_hash h (e ∷ es) = last_hash e.hash es

-- The indices are `n + 1`, `n + 2`, and so on.
abbrev pub Indexed : ℕ → List LogEntry → Type 0
Indexed n [] = Unit
Indexed n (e ∷ es) = (e.index ≡ suc n) × Indexed (suc n) es

module _ (w : World) where
  -- Each hash is that of the entry on top of the hash before.
  abbrev pub Chained : Bytes → List LogEntry → Type 0
  Chained h [] = Unit
  Chained h (e ∷ es) =
      (e.hash ≡ log_hash w h e.index e.command.func_id e.command.arg) × Chained e.hash es

  -- An item that holds an entry under its key.
  abbrev pub Holds : ℕ → LogEntry → Item → Type 0
  Holds g e item =
      (bs : Bytes) × (w.log_entry_codec.marshal e ≡ some bs)
      × (item.1 ≡ some bs)
      × (item.0 ≡ log_entry_key g e.index)

  abbrev pub Stored : ℕ → List LogEntry → List Item → Type 0
  Stored g [] [] = Unit
  Stored g [] (x ∷ xs) = ⊥
  Stored g (e ∷ es) [] = ⊥
  Stored g (e ∷ es) (x ∷ xs) = Holds g e x × Stored g es xs

  -- The database holds exactly the log `es` of group `g`: numbered from 1, a chain of hashes.
  pub record IsLog (g : ℕ) (db : w.Db) (es : List LogEntry) : Type 0 where
    pub stored : Stored g es (under_prefix (compose_key_prefix g log_entries) (w.items db))
    pub indexed : Indexed 0 es
    pub chained : Chained (group_hash w g) es
    pub short : length es < 2 ^ 64

pub All-under_prefix :
    (P : Item → Type 0) (ps : Bytes) (xs : List Item)
    → All P (under_prefix ps xs)
    → All (λ (y : Item). has_prefix ps y.0 ≡ true → P y) xs
unfolding under_prefix
All-under_prefix P ps [] h = tt
All-under_prefix P ps (x ∷ xs) h = elim (Bool-cases (has_prefix ps x.0)) [
  | inl at ↦
      let k : All P (x ∷ under_prefix ps xs) = rw at at h in
      ((λ _. k.0), All-under_prefix P ps xs k.1)
  | inr out ↦ ((λ p. cc), All-under_prefix P ps xs (rw out at h))
]

module _ (w : World) (laws : IsWorld w) where
  abbrev entry_of : Option Item → Option LogEntry
  entry_of none = none
  entry_of (some item) = log_entry_from_item w item

  -- An item that holds an entry is read back as the entry.
  pub Holds→entry :
      (g : ℕ) (e : LogEntry) (x : Item) → Holds w g e x → log_entry_from_item w x ≡ some e
  unfolding log_entry_from_item
  Holds→entry g e (k, v) (bs, marshalled, value, key) =
      rw value (ap (λ (r : LogEntry × Bool). some r.0) (laws.log_entry-IsCodec e bs marshalled))

  first_of_reversed :
      (g : ℕ) (es : List LogEntry) (xs ys : List Item)
      → Stored w g es xs
      → entry_of (first_of_items (reverse xs ++ ys)) ≡ last_or (entry_of (first_of_items ys)) es
  first_of_reversed g [] [] ys h = refl
  first_of_reversed g [] (x ∷ xs) ys h = absurd h
  first_of_reversed g (e ∷ es) [] ys h = absurd h
  first_of_reversed g (e ∷ es) (x ∷ xs) ys h =
      ap (λ t. entry_of (first_of_items (t ++ ys))) (reverse-cons x xs)
      ∙ ap (λ t. entry_of (first_of_items t)) (append_assoc (reverse xs) (x ∷ []) ys)
      ∙ first_of_reversed g es xs (x ∷ ys) h.1
      ∙ ap (λ o. last_or o es) (unfold first_of_items in Holds→entry g e x h.0)

  Stored-below :
      (g n : ℕ) (es : List LogEntry) (xs : List Item)
      → Stored w g es xs
      → Indexed n es
      → n + length es < 2 ^ 64
      → All
          (λ (y : Item).
            bytes_leb y.0 (compose_key_prefix g log_entries ++ u64_bytes max_uint64) ≡ true)
          xs
  Stored-below g n [] [] s i l = tt
  Stored-below g n [] (x ∷ xs) s i l = absurd s
  Stored-below g n (e ∷ es) [] s i l = absurd s
  Stored-below g n (e ∷ es) (x ∷ xs) s i l = (
    rw (s.0.3) (
        unfold log_entry_key in
        bytes_leb-append (compose_key_prefix g log_entries) (u64_bytes e.index)
          (u64_bytes max_uint64)
        ∙ bytes_leb-u64_bytes e.index max_uint64 (omega (arith, i.0)) (omega arith)
        ∙ le→leb _ _ (omega (arith, i.0))),
    Stored-below g (suc n) es xs s.1 i.1 (omega arith),
  )

  module _ (g : ℕ) (db : w.Db) (es : List LogEntry) (log : IsLog w g db es) where
    -- A reverse iterator of the log passes the entries, the last one first.
    pub taken-reversed_log_iterator :
        taken (compose_key_prefix g log_entries) (reversed_log_iterator w g db)
        ≡ reverse (under_prefix (compose_key_prefix g log_entries) (w.items db))
    unfolding reversed_log_iterator
    taken-reversed_log_iterator =
        taken-reverse_seek (compose_key_prefix g log_entries) (u64_bytes max_uint64) (w.items db)
          (laws.items-IsSorted db)
          (All-under_prefix _ (compose_key_prefix g log_entries) (w.items db)
            (Stored-below g 0 es _ log.stored log.indexed (omega (arith, log.short))))

    -- In a world that keeps its laws, where the database holds the log `es` of a group,
    -- `LastLogEntry` returns the last entry of `es`, and nil for an empty log.
    pub last_log_entry-eq : last_log_entry w g db ≡ last_or none es
    unfolding last_log_entry current_entry
    last_log_entry-eq =
        ap entry_of (
          current-eq-first (compose_key_prefix g log_entries) (reversed_log_iterator w g db)
          ∙ ap first_of_items taken-reversed_log_iterator)
        ∙ ap (λ t. entry_of (first_of_items t))
            (sym
              (append-nil (reverse (under_prefix (compose_key_prefix g log_entries) (w.items db)))))
        ∙ first_of_reversed g es _ [] log.stored
        ∙ unfold first_of_items in refl
