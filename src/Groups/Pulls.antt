-- ===== src/Groups/Pulls.antt =====
-- `PullGroupLogs` on the log that the database holds.
use bftraft4go.Prelude.{
  ℕ, zero, suc, ◌+◌, ◌^◌, ◌<◌, ◌≡◌, refl, ap, ap₂, ◌∙◌, true, false, Option, none, some, List, [],
  ◌∷◌, map, arith, Bytes, length, drop, leb, ◌==◌, if◌then◌else◌, Bool-cases, inl, inr,
}
use bftraft4go.Encoding.{u64_bytes}
use bftraft4go.Encoding.Order.{bytes_leb}
use bftraft4go.Messages.{LogEntry}
use bftraft4go.Outcome.{Outcome, done, panicked}
use bftraft4go.World.{World, IsWorld}
use bftraft4go.World.Keyed.{Item, has_prefix, under_prefix, seek}
use bftraft4go.World.Walks.{taken}
use bftraft4go.World.Climbs.{taken-seek}
use bftraft4go.Store.{compose_key_prefix, log_entry_key, log_entries}
use bftraft4go.Store.Keys.{log_entry_key_order}
use bftraft4go.Log.{log_entry_from_item}
use bftraft4go.Log.Abstract.{Indexed, Stored, IsLog, Holds→entry}
use bftraft4go.Groups.{pull_entries, pull_group_logs}

-- The entries with a greater index than the one asked for, which the log must have.
abbrev pub after : ℕ → List LogEntry → List LogEntry
after zero es = []
after (suc k) es = drop (suc k) es

module _ (w : World) where
  read_all : List Item → List (Option LogEntry)
  read_all [] = []
  read_all (x ∷ xs) = log_entry_from_item w x ∷ read_all xs

  pull_entries-taken :
      (prefix : Bytes) (xs : List Item) → pull_entries w prefix xs ≡ read_all (taken prefix xs)
  unfolding pull_entries taken read_all
  pull_entries-taken prefix [] = refl
  pull_entries-taken prefix (x ∷ xs) = ground (arith, pull_entries-taken prefix xs)

  abbrev answer : ℕ → Option LogEntry → List (Option LogEntry) → Outcome (List (Option LogEntry))
  answer index first rest = elim first [
    | none ↦ panicked
    | some e ↦ done (if e.index == index then rest else [])
  ]

  -- The answer from the items under the prefix.
  pull_from : ℕ → List Item → Outcome (List (Option LogEntry))
  pull_from index [] = done []
  pull_from index (x ∷ xs) = answer index (log_entry_from_item w x) (read_all xs)

  abbrev pull_at : Bytes → ℕ → List Item → Outcome (List (Option LogEntry))
  pull_at prefix index xs = elim xs [
    | [] ↦ done []
    | item ∷ items ↦
        if has_prefix prefix item.0
        then answer index (log_entry_from_item w item) (pull_entries w prefix items)
        else done []
  ]

  pull_at-taken :
      (prefix : Bytes) (index : ℕ) (xs : List Item)
      → pull_at prefix index xs ≡ pull_from index (taken prefix xs)
  unfolding pull_from taken
  pull_at-taken prefix index [] = refl
  pull_at-taken prefix index (x ∷ xs) = elim (Bool-cases (has_prefix prefix x.0)) [
    | inl at ↦ rw at (ap (answer index (log_entry_from_item w x)) (pull_entries-taken prefix xs))
    | inr out ↦ rw out refl
  ]

  module _ (laws : IsWorld w) (g : ℕ) where
    read_all-Stored :
        (es : List LogEntry) (xs : List Item) → Stored w g es xs → read_all xs ≡ map some es
    unfolding read_all
    read_all-Stored [] [] h = refl
    read_all-Stored [] (x ∷ xs) h = absurd h
    read_all-Stored (e ∷ es) [] h = absurd h
    read_all-Stored (e ∷ es) (x ∷ xs) h =
        ap₂ (λ o t. o ∷ t) (Holds→entry w laws g e x h.0) (read_all-Stored es xs h.1)

    pull_from-head :
        (k : ℕ) (e : LogEntry) (es : List LogEntry) (x : Item) (xs : List Item)
        → Stored w g (e ∷ es) (x ∷ xs)
        → pull_from k (x ∷ xs) ≡ done (if e.index == k then map some es else [])
    unfolding pull_from
    pull_from-head k e es x xs h =
        ap₂ (answer k) (Holds→entry w laws g e x h.0) (read_all-Stored es xs h.1)

    key_order :
        (k : ℕ) (e : LogEntry) (x : Item)
        → Stored w g (e ∷ []) (x ∷ [])
        → k < 2 ^ 64
        → e.index < 2 ^ 64
        → bytes_leb (log_entry_key g k) x.0 ≡ leb k e.index
    key_order k e x h hk he =
        ap (bytes_leb (log_entry_key g k)) h.0.3 ∙ log_entry_key_order g k e.index hk he

    pull_from-seek :
        (n j k : ℕ) (es : List LogEntry) (xs : List Item)
        → Stored w g es xs
        → Indexed n es
        → n + length es < 2 ^ 64
        → k ≡ suc (n + j)
        → k < 2 ^ 64
        → pull_from k (seek (log_entry_key g k) xs) ≡ done (map some (drop (suc j) es))
    unfolding seek
    pull_from-seek n j k [] [] s i fits at hk = unfold pull_from in refl
    pull_from-seek n j k [] (x ∷ xs) s i fits at hk = absurd s
    pull_from-seek n j k (e ∷ es) [] s i fits at hk = absurd s
    pull_from-seek n zero k (e ∷ es) (x ∷ xs) s i fits at hk =
        let order = key_order k e x (s.0, tt) hk (omega (arith, i.0)) in
        let here : leb k e.index ≡ true = ground (arith, i.0) in
        let same : (e.index == k) ≡ true = ground (arith, i.0) in
        rw (order ∙ here) (pull_from-head k e es x xs s ∙ rw same refl)
    pull_from-seek n (suc j) k (e ∷ es) (x ∷ xs) s i fits at hk =
        let order = key_order k e x (s.0, tt) hk (omega (arith, i.0)) in
        let past : leb k e.index ≡ false = ground (arith, i.0) in
        rw (order ∙ past) (pull_from-seek (suc n) j k es xs s.1 i.1 (omega arith) (omega arith) hk)

    pull_from-zero :
        (es : List LogEntry) (xs : List Item)
        → Stored w g es xs
        → Indexed 0 es
        → length es < 2 ^ 64
        → pull_from 0 (seek (log_entry_key g 0) xs) ≡ done []
    unfolding seek
    pull_from-zero [] [] s i fits = unfold pull_from in refl
    pull_from-zero [] (x ∷ xs) s i fits = absurd s
    pull_from-zero (e ∷ es) [] s i fits = absurd s
    pull_from-zero (e ∷ es) (x ∷ xs) s i fits =
        let order = key_order 0 e x (s.0, tt) (omega arith) (omega (arith, i.0)) in
        let here : leb 0 e.index ≡ true = ground arith in
        let other : (e.index == 0) ≡ false = ground (arith, i.0) in
        rw (order ∙ here) (pull_from-head 0 e es x xs s ∙ rw other refl)

    answer_at :
        (db : w.Db) (es : List LogEntry)
        → IsLog w g db es
        → (k : ℕ) → k < 2 ^ 64
        → pull_from k (
            seek (log_entry_key g k) (under_prefix (compose_key_prefix g log_entries) (w.items db)))
          ≡ done (map some (after k es))
    answer_at db es log zero fits = pull_from-zero es _ log.stored log.indexed log.short
    answer_at db es log (suc k) fits =
        pull_from-seek 0 k (suc k) es _ log.stored log.indexed (omega (arith, log.short))
          (omega arith) fits

    -- In a world that keeps its laws, where the database holds the log `es` of a group,
    -- `PullGroupLogs` of the index `k`, a uint64, answers the entries of `es` with a greater index
    -- than `k`, where there is an entry with the index `k`, and nothing for an index that the log
    -- has not.
    pub pull_group_logs-eq :
        (db : w.Db) (es : List LogEntry)
        → IsLog w g db es
        → (k : ℕ) → k < 2 ^ 64
        → pull_group_logs w db g k ≡ done (map some (after k es))
    unfolding pull_group_logs log_entry_key
    pull_group_logs-eq db es log k fits =
        pull_at-taken (compose_key_prefix g log_entries) k (seek (log_entry_key g k) (w.items db))
        ∙ ap (pull_from k) (
            taken-seek (compose_key_prefix g log_entries) (u64_bytes k) (w.items db)
              (laws.items-IsSorted db))
        ∙ answer_at db es log k fits
