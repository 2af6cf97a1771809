-- ===== src/Log/Refusals.antt =====
-- `AppendEntryToLocal` where it must not write, and the logs of the other groups.
use bftraft4go.Prelude.{
  ℕ, suc, ◌+◌, ◌^◌, ◌≤◌, ◌<◌, ◌≡◌, ◌≢◌, ◌⊎◌, sym, ap, ◌∙◌, subst, false, Option, some, List, [],
  ◌∷◌, ◌++◌, arith, Bytes, bytes_equal, bytes_equal_refl, length, Bool-cases, inl, inr,
}
use bftraft4go.Messages.{LogEntry}
use bftraft4go.Outcome.{done, err, log_existed}
use bftraft4go.World.{World, IsWorld, found, fetched_of}
use bftraft4go.World.Keyed.{Item, has_prefix, has_prefix-append, under_prefix, find_item}
use bftraft4go.World.Writes.{find_item-under, under_prefix-insert_outside}
use bftraft4go.Store.{compose_key_prefix, log_entry_key, log_entries}
use bftraft4go.Store.Keys.{has_prefix-compose_key_prefix}
use bftraft4go.Log.{append_entry_to_local}
use bftraft4go.Log.Abstract.{Indexed, Stored, IsLog}

differs :
    (w : World) (g : ℕ) (e : LogEntry) {n k : ℕ} {j : Bytes}
    → e.index ≡ suc n
    → j ≡ log_entry_key g e.index
    → bytes_equal j (log_entry_key g k) ≡ false
    → k ≢ suc n
differs w g e {n} {k} {j} i key other same = cc (
  bytes_equal_refl (log_entry_key g k),
  other,
  ap (λ t. bytes_equal t (log_entry_key g k)) (key ∙ ap (log_entry_key g) (i ∙ sym same)),
)

find-Stored :
    (w : World) (g n k : ℕ) (es : List LogEntry) (xs : List Item)
    → Stored w g es xs
    → Indexed n es
    → n < k
    → k ≤ n + length es
    → n + length es < 2 ^ 64
    → (v : Option Bytes) × (find_item (log_entry_key g k) xs ≡ some v)
unfolding find_item
find-Stored w g n k [] [] s i lo hi fits = absurd (omega arith)
find-Stored w g n k [] (x ∷ xs) s i lo hi fits = absurd s
find-Stored w g n k (e ∷ es) [] s i lo hi fits = absurd s
find-Stored w g n k (e ∷ es) ((j, v) ∷ xs) s i lo hi fits =
    elim (Bool-cases (bytes_equal j (log_entry_key g k))) [
      | inl same ↦ (v, rw same)
      | inr other ↦
          let later : suc n < k = omega (arith, differs w g e i.0 s.0.3 other) in
          rw other (find-Stored w g (suc n) k es xs s.1 i.1 later (omega arith) (omega arith))
    ]

module _ (w : World) (laws : IsWorld w) (g : ℕ) (db : w.Db) (es : List LogEntry)
    (log : IsLog w g db es) where
  fetch_stored :
      (k : ℕ)
      → 0 < k
      → k ≤ length es
      → (v : Option Bytes) × (w.get db (log_entry_key g k) ≡ found v)
  fetch_stored k lo hi =
      let (v, at) =
        find-Stored w g 0 k es _ log.stored log.indexed lo (omega arith)
          (omega (arith, log.short)) in
      (
        v,
        laws.get_lem db (log_entry_key g k)
            ∙ ap fetched_of (
                find_item-under (compose_key_prefix g log_entries) (log_entry_key g k) (w.items db)
                  (unfold log_entry_key in has_prefix-append (compose_key_prefix g log_entries) _)
                ∙ at),
      )

  -- In a world that keeps its laws, where the database holds the log `es` of group `g`: an entry
  -- of the group with an index that the log has is refused, whatever else it says.
  pub append_entry_to_local-existed :
      (e : LogEntry)
      → e.command.group ≡ g
      → 0 < e.index
      → e.index ≤ length es
      → append_entry_to_local w g db e ≡ done (err log_existed)
  unfolding append_entry_to_local
  append_entry_to_local-existed e own lo hi =
      let (v, at) = fetch_stored e.index lo hi in ground (arith, at)

-- A write outside of the log's keys leaves the log.
pub IsLog-set :
    (w : World) (laws : IsWorld w) (g : ℕ) (db db' : w.Db) (es : List LogEntry) (k v : Bytes)
    → IsLog w g db es
    → w.set db k v ≡ some db'
    → has_prefix (compose_key_prefix g log_entries) k ≡ false
    → IsLog w g db' es
IsLog-set w laws g db db' es k v log written outside = record {
  stored =
      subst (λ t. Stored w g es (under_prefix (compose_key_prefix g log_entries) t))
        (sym (laws.items-set db db' k v written))
        (rw
          (under_prefix-insert_outside (compose_key_prefix g log_entries) k (some v) (w.items db)
            outside)
          log.stored);
  indexed = log.indexed;
  chained = log.chained;
  short = log.short;
}

-- A write under another table or group is outside of the log's keys.
pub outside_log :
    (g h t : ℕ) (rest : Bytes)
    → g < 2 ^ 64
    → h < 2 ^ 64
    → t < 2 ^ 32
    → (g ≢ h) ⊎ (t ≢ log_entries)
    → has_prefix (compose_key_prefix g log_entries) (compose_key_prefix h t ++ rest) ≡ false
outside_log g h t rest hg hh ht apart =
    elim (Bool-cases
      (has_prefix (compose_key_prefix g log_entries) (compose_key_prefix h t ++ rest))) [
        | inl under ↦
            let same =
              has_prefix-compose_key_prefix g h log_entries t rest hg hh (omega arith) ht under in
            absurd (omega (arith, same.0, same.1, apart))
        | inr outside ↦ outside
      ]
