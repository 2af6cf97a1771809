-- ===== src/Log/Append.antt =====
-- `AppendEntryToLocal` on the next entry of the log.
use bftraft4go.Prelude.{
  ℕ, suc, ◌+◌, ◌^◌, ◌<◌, ◌≡◌, ◌≢◌, refl, sym, ap, ◌∙◌, subst, true, false, none, some, List, [],
  ◌∷◌, ◌++◌, arith, Bytes, bytes_equal, bytes_equal→eq, bytes_equal_refl, All, length,
  length-append, le→leb, Bool-cases, inl, inr,
}
use bftraft4go.Encoding.Order.{bytes_leb}
use bftraft4go.Messages.{LogEntry}
use bftraft4go.Outcome.{done, ok, err, hash_mismatch}
use bftraft4go.World.{World, IsWorld, key_not_found, fetched_of}
use bftraft4go.World.Keyed.{Item, has_prefix, has_prefix-append, under_prefix, find_item}
use bftraft4go.World.Writes.{find_item-under, under_prefix-insert_last}
use bftraft4go.Store.{compose_key_prefix, log_entry_key, log_entries}
use bftraft4go.Store.Keys.{log_entry_key_order, log_entry_key_injective}
use bftraft4go.Log.{log_hash, group_hash, last_entry_hash, append_entry_to_local}
use bftraft4go.Log.Abstract.{last_hash, Indexed, Chained, Holds, Stored, IsLog, All-under_prefix}
use bftraft4go.Log.Reads.{last_entry_hash-eq}

keys_differ :
    (g m n : ℕ)
    → m < 2 ^ 64
    → n < 2 ^ 64
    → m < n
    → bytes_equal (log_entry_key g m) (log_entry_key g n) ≡ false
keys_differ g m n hm hn lt =
    elim (Bool-cases (bytes_equal (log_entry_key g m) (log_entry_key g n))) [
      | inl same ↦
          absurd (omega (arith, log_entry_key_injective g m n hm hn (bytes_equal→eq _ _ same)))
      | inr other ↦ other
    ]

module _ (w : World) where
  pub Stored-append :
      (g : ℕ) (es : List LogEntry) (xs : List Item) (e : LogEntry) (x : Item)
      → Stored w g es xs
      → Holds w g e x
      → Stored w g (es ++ e ∷ []) (xs ++ x ∷ [])
  Stored-append g [] [] e x s h = (h, tt)
  Stored-append g [] (y ∷ ys) e x s h = absurd s
  Stored-append g (d ∷ ds) [] e x s h = absurd s
  Stored-append g (d ∷ ds) (y ∷ ys) e x s h = (s.0, Stored-append g ds ys e x s.1 h)

  Chained-append :
      (h : Bytes) (es : List LogEntry) (e : LogEntry)
      → Chained w h es
      → e.hash ≡ log_hash w (last_hash h es) e.index e.command.func_id e.command.arg
      → Chained w h (es ++ e ∷ [])
  Chained-append h [] e c k = (k, tt)
  Chained-append h (d ∷ ds) e c k = (c.0, Chained-append d.hash ds e c.1 k)

  -- The stored keys are all before that of the next entry.
  keys_before :
      (g n k : ℕ) (es : List LogEntry) (xs : List Item)
      → Stored w g es xs
      → Indexed n es
      → n + length es < k
      → k < 2 ^ 64
      → All
          (λ (y : Item).
            (bytes_leb y.0 (log_entry_key g k) ≡ true)
            × (bytes_equal y.0 (log_entry_key g k) ≡ false))
          xs
  keys_before g n k [] [] s i l m = tt
  keys_before g n k [] (x ∷ xs) s i l m = absurd s
  keys_before g n k (e ∷ es) [] s i l m = absurd s
  keys_before g n k (e ∷ es) (x ∷ xs) s i l m = (
    (
      rw (s.0.3) (
          log_entry_key_order g e.index k (omega (arith, i.0)) m ∙ le→leb _ _ (omega (arith, i.0))),
      rw (s.0.3) (keys_differ g e.index k (omega (arith, i.0)) m (omega (arith, i.0))),
    ),
    keys_before g (suc n) k es xs s.1 i.1 (omega arith) m,
  )

Indexed-append :
    (n : ℕ) (es : List LogEntry) (e : LogEntry)
    → Indexed n es
    → e.index ≡ n + length es + 1
    → Indexed n (es ++ e ∷ [])
Indexed-append n [] e i k = (omega arith, tt)
Indexed-append n (d ∷ ds) e i k = (i.0, Indexed-append (suc n) ds e i.1 (omega arith))

find_item-none :
    (k : Bytes) (xs : List Item)
    → All (λ (y : Item). (bytes_leb y.0 k ≡ true) × (bytes_equal y.0 k ≡ false)) xs
    → find_item k xs ≡ none
unfolding find_item
find_item-none k [] h = refl
find_item-none k ((j, v) ∷ xs) h = ground (arith, find_item-none k xs)

module _ (w : World) (laws : IsWorld w) (g : ℕ) (db : w.Db) (es : List LogEntry)
    (log : IsLog w g db es) (e : LogEntry) (next : e.index ≡ length es + 1)
    (room : length es + 1 < 2 ^ 64) (own : e.command.group ≡ g) where
  before :
      All
        (λ (y : Item).
          (bytes_leb y.0 (log_entry_key g e.index) ≡ true)
          × (bytes_equal y.0 (log_entry_key g e.index) ≡ false))
        (under_prefix (compose_key_prefix g log_entries) (w.items db))
  before = keys_before w g 0 e.index es _ log.stored log.indexed (omega arith) (omega arith)

  key_under : has_prefix (compose_key_prefix g log_entries) (log_entry_key g e.index) ≡ true
  key_under = unfold log_entry_key in has_prefix-append (compose_key_prefix g log_entries) _

  -- The key of the next entry is free.
  next_free : w.get db (log_entry_key g e.index) ≡ key_not_found
  next_free =
      laws.get_lem db (log_entry_key g e.index)
      ∙ ap fetched_of (
          find_item-under (compose_key_prefix g log_entries) (log_entry_key g e.index) (w.items db)
            key_under
          ∙ find_item-none (log_entry_key g e.index) _ before)

  -- In a world that keeps its laws, where the database holds the log `es` of group `g`: an entry
  -- of the group with the next index, but with a hash that is not the one of its content on top of
  -- the last hash, is refused with a hash mismatch.
  pub append_entry_to_local-mismatch :
      e.hash ≢ log_hash w (last_hash (group_hash w g) es) e.index e.command.func_id e.command.arg
      → append_entry_to_local w g db e ≡ done (err hash_mismatch)
  append_entry_to_local-mismatch bad =
      unfold append_entry_to_local in
      ground (
        arith,
        next_free,
        last_entry_hash-eq w laws g db es log,
        bytes_equal→eq (log_hash w (last_entry_hash w g db) e.index e.command.func_id e.command.arg)
            e.hash,
      )

  -- In a world that keeps its laws, where the database holds the log `es` of group `g`: an entry
  -- of the group with the next index, which fits in a uint64, and with the hash of its content on
  -- top of the last hash, is appended, if it is encoded and the write succeeds; and the database
  -- then holds exactly `es` and the entry.
  pub append_entry_to_local-IsLog :
      (db' : w.Db) (bs : Bytes)
      → e.hash ≡ log_hash w (last_hash (group_hash w g) es) e.index e.command.func_id e.command.arg
      → w.log_entry_codec.marshal e ≡ some bs
      → w.set db (log_entry_key g e.index) bs ≡ some db'
      → (append_entry_to_local w g db e ≡ done (ok db')) × IsLog w g db' (es ++ e ∷ [])
  append_entry_to_local-IsLog db' bs hash marshalled written = (
    unfold append_entry_to_local in
        ground (arith, next_free, last_entry_hash-eq w laws g db es log, bytes_equal_refl e.hash),
    record {
      stored =
          subst (λ t. Stored w g (es ++ e ∷ []) (under_prefix (compose_key_prefix g log_entries) t))
            (sym (laws.items-set db db' _ bs written))
            (rw
              (under_prefix-insert_last (compose_key_prefix g log_entries) (log_entry_key g e.index)
                (some bs) (w.items db) key_under (laws.items-IsSorted db)
                (All-under_prefix _ (compose_key_prefix g log_entries) (w.items db) before))
              (Stored-append w g es _ e _ log.stored (bs, marshalled, refl, refl)));
      indexed = Indexed-append 0 es e log.indexed (omega arith);
      chained = Chained-append w (group_hash w g) es e log.chained hash;
      short = omega (arith, length-append es (e ∷ []));
    },
  )
