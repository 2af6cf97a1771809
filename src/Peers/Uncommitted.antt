-- ===== src/Peers/Uncommitted.antt =====
-- What `PeerUncommittedLogEntries` sends to a peer.
use mathlib.Core.List.{append-nil, append_assoc, reverse-cons, reverse-reverse}
use bftraft4go.Prelude.{
  ℕ, zero, suc, ◌+◌, ◌≤◌, ◌<◌, ◌≡◌, refl, ap, ap₂, sym, ◌∙◌, subst, true, false, none, some, Option,
  List, [], ◌∷◌, ◌++◌, arith, ltb, ◌==◌, if◌then◌else◌, reverse, drop, take, Bool-cases, inl, inr,
}
use bftraft4go.Messages.{LogEntry, Peer}
use bftraft4go.World.{World, IsWorld}
use bftraft4go.World.Keyed.{Item, current, has_prefix}
use bftraft4go.World.Walks.{taken}
use bftraft4go.Store.{compose_key_prefix, log_entries}
use bftraft4go.Log.{reversed_log_iterator, current_entry}
use bftraft4go.Log.Abstract.{
  last_or, Indexed, Stored, IsLog, Holds→entry, taken-reversed_log_iterator,
}
use bftraft4go.Log.Append.{Stored-append}
use bftraft4go.Peers.{zero_entry, walk_down, peer_uncommitted_log_entries}

-- The loop on the entries themselves.
unfoldable pub walk_entries : ℕ → List LogEntry → LogEntry → List LogEntry × LogEntry
walk_entries next [] prev = ([], prev)
walk_entries next (e ∷ es) prev =
    let rest = walk_entries next es e in if ltb e.index next then ([], e) else (e ∷ rest.0, rest.1)

unfoldable pub first_or : LogEntry → List LogEntry → LogEntry
first_or prev [] = prev
first_or prev (e ∷ es) = e

abbrev put : List LogEntry → List LogEntry × LogEntry → List LogEntry × LogEntry
put passed r = (passed ++ r.0, r.1)

reverse_head :
    (e : LogEntry) (es bs : List LogEntry) → reverse (e ∷ es) ++ bs ≡ reverse es ++ (e ∷ bs)
reverse_head e es bs = ap (λ t. t ++ bs) (reverse-cons e es) ∙ append_assoc (reverse es) (e ∷ []) bs

-- Entries that the peer lacks are all passed.
pub walk-above :
    (next n : ℕ) (es bs : List LogEntry) (prev : LogEntry)
    → Indexed n es
    → next ≤ suc n
    → walk_entries next (reverse es ++ bs) prev
      ≡ put (reverse es) (walk_entries next bs (first_or prev es))
unfolding walk_entries first_or
walk-above next n [] bs prev i le = refl
walk-above next n (e ∷ es) bs prev i le =
    let further : ltb e.index next ≡ false = ground arith in
    let step : walk_entries next (e ∷ bs) (first_or prev es)
        ≡ (e ∷ (walk_entries next bs e).0, (walk_entries next bs e).1) =
      rw further refl in
    ap (λ t. walk_entries next t prev) (reverse_head e es bs)
    ∙ walk-above next (suc n) es (e ∷ bs) prev i.1 (omega arith)
    ∙ ap (put (reverse es)) step
    ∙ ap (λ t. (t, (walk_entries next bs e).1)) (sym (reverse_head e es (walk_entries next bs e).0))

-- The walk stops at the last entry that the peer has.
walk-below :
    (k n : ℕ) (e : LogEntry) (es bs : List LogEntry) (prev : LogEntry)
    → Indexed n (e ∷ es)
    → (y : LogEntry) × (last_or none (take (suc k) (e ∷ es)) ≡ some y)
      × (walk_entries (suc (n + suc k)) (reverse (e ∷ es) ++ bs) prev
          ≡ (reverse (drop (suc k) (e ∷ es)), y))
unfolding walk_entries first_or
walk-below zero n e es bs prev i = (
  e,
  refl,
  ap (λ t. walk_entries (suc (n + 1)) t prev) (reverse_head e es bs)
      ∙ walk-above (suc (n + 1)) (suc n) es (e ∷ bs) prev i.1 (omega arith)
      ∙ ap (put (reverse es)) (stops (n + 1) (first_or prev es) (omega (arith, i.0)))
      ∙ ap (λ t. (t, e)) (append-nil (reverse es)),
)
  where
    stops :
        (next : ℕ) (p : LogEntry)
        → e.index < suc next
        → walk_entries (suc next) (e ∷ bs) p ≡ ([], e)
    stops next p lt = let stop : ltb e.index (suc next) ≡ true = ground arith in rw stop refl
walk-below (suc k) n e [] bs prev i =
    let stop : ltb e.index (suc (n + suc (suc k))) ≡ true = ground (arith, i.0) in
    (e, refl, rw stop refl)
walk-below (suc k) n e (d ∷ es) bs prev i =
    let (y, last, walked) = walk-below k (suc n) d es (e ∷ bs) prev i.1 in
    (
      y,
      last,
      ap₂ (λ m t. walk_entries m t prev) (omega arith) (reverse_head e (d ∷ es) bs) ∙ walked,
    )

unfoldable pub entry_or_zero : Option LogEntry → LogEntry
entry_or_zero none = zero_entry
entry_or_zero (some e) = e

-- The previous entry of a message to a peer that has the first `k` entries.
unfoldable pub sent_before : ℕ → List LogEntry → LogEntry
sent_before zero es = entry_or_zero (last_or none (take 1 es))
sent_before (suc k) es = entry_or_zero (last_or none (take (suc k) es))

-- What has been passed, put in order, and the last entry seen.
Sent : ℕ → List LogEntry → List LogEntry × LogEntry → Type 0
Sent k es r = (reverse r.0 ≡ drop k es) × (r.1 ≡ sent_before k es)

sent :
    (k : ℕ) (es : List LogEntry)
    → Indexed 0 es
    → Sent k es (walk_entries (suc k) (reverse es) zero_entry)
unfolding walk_entries first_or Sent sent_before entry_or_zero
sent zero [] i = (refl, refl)
sent (suc k) [] i = (refl, refl)
sent zero (e ∷ es) i =
    let walked =
      ap (λ t. walk_entries 1 t zero_entry) (sym (append-nil (reverse (e ∷ es))))
      ∙ walk-above 1 0 (e ∷ es) [] zero_entry i (omega arith) in
    subst (Sent 0 (e ∷ es)) (sym walked)
      (ap reverse (append-nil (reverse (e ∷ es))) ∙ reverse-reverse (e ∷ es), refl)
sent (suc k) (e ∷ es) i =
    let (y, last, walked) = walk-below k 0 e es [] zero_entry i in
    subst (Sent (suc k) (e ∷ es))
      (sym (
        ap₂ (λ n t. walk_entries n t zero_entry) (omega arith) (sym (append-nil (reverse (e ∷ es))))
        ∙ walked))
      (reverse-reverse (drop (suc k) (e ∷ es)), sym (ap entry_or_zero last))

module _ (w : World) where
  pub Stored-reverse :
      (g : ℕ) (es : List LogEntry) (xs : List Item)
      → Stored w g es xs
      → Stored w g (reverse es) (reverse xs)
  Stored-reverse g [] [] h = tt
  Stored-reverse g [] (x ∷ xs) h = absurd h
  Stored-reverse g (e ∷ es) [] h = absurd h
  Stored-reverse g (e ∷ es) (x ∷ xs) h =
      subst (λ t. Stored w g t (reverse (x ∷ xs))) (sym (reverse-cons e es))
        (subst (Stored w g (reverse es ++ e ∷ [])) (sym (reverse-cons x xs))
          (Stored-append w g (reverse es) (reverse xs) e x (Stored-reverse g es xs h.1) h.0))

  module _ (laws : IsWorld w) (g : ℕ) where
    pub walk_down-eq :
        (next : ℕ) (iter : List Item) (rs : List LogEntry) (prev : LogEntry)
        → Stored w g rs (taken (compose_key_prefix g log_entries) iter)
        → walk_down w g next iter prev ≡ walk_entries next rs prev
    unfolding walk_down walk_entries taken
    walk_down-eq next [] [] prev h = refl
    walk_down-eq next [] (e ∷ rs) prev h = absurd h
    walk_down-eq next (x ∷ xs) rs prev h =
        elim (Bool-cases (has_prefix (compose_key_prefix g log_entries) x.0)) [
          | inl under ↦ inside (walk_down-eq next xs) under rs (rw (under, taken) at h)
          | inr out ↦ rw (outside out, walk_down) (ended rs (rw (out, taken) at h))
        ]
      where
        ended : (rs : List LogEntry) → Stored w g rs [] → ([], prev) ≡ walk_entries next rs prev
        ended [] h = refl
        ended (e ∷ rs) h = absurd h

        outside :
            has_prefix (compose_key_prefix g log_entries) x.0 ≡ false
            → current_entry w g (x ∷ xs) ≡ none
        outside out = unfold current_entry current in rw (out, current_entry, current) refl

        inside :
            ((rs : List LogEntry) (prev : LogEntry)
              → Stored w g rs (taken (compose_key_prefix g log_entries) xs)
              → walk_down w g next xs prev ≡ walk_entries next rs prev)
            → has_prefix (compose_key_prefix g log_entries) x.0 ≡ true
            → (rs : List LogEntry) → Stored w g rs (x ∷ taken (compose_key_prefix g log_entries) xs)
            → walk_down w g next (x ∷ xs) prev ≡ walk_entries next rs prev
        inside ih under [] h = absurd h
        inside ih under (e ∷ rs) h =
            let seen : current_entry w g (x ∷ xs) ≡ some e =
              unfold current_entry current in
              rw (under, current_entry, current) (Holds→entry w laws g e x h.0) in
            rw (seen, walk_down)
              (ap
                (λ (r : List LogEntry × LogEntry).
                  if ltb e.index next then ([], e) else (e ∷ r.0, r.1))
                (ih rs e h.1))

    -- In a world that keeps its laws, where the database holds the log `es`: for a peer with next
    -- index `k + 1` the entries to send are those of `es` after the first `k`, and the previous
    -- entry is the last one of the first `k`, but for `k = 0` the first one of `es`, which is
    -- itself among those that are sent; on an empty log it is the zero entry.
    pub peer_uncommitted_log_entries-eq :
        (db : w.Db) (es : List LogEntry)
        → IsLog w g db es
        → (peer : Peer) (k : ℕ) → peer.next_index ≡ suc k
        → ((peer_uncommitted_log_entries w g db peer).0 ≡ drop k es)
          × ((peer_uncommitted_log_entries w g db peer).1 ≡ sent_before k es)
    unfolding peer_uncommitted_log_entries Sent
    peer_uncommitted_log_entries-eq db es log peer k next =
        let stored : Stored w g (reverse es)
            (taken (compose_key_prefix g log_entries) (reversed_log_iterator w g db)) =
          rw (taken-reversed_log_iterator w laws g db es log) (Stored-reverse g es _ log.stored) in
        let walked =
          walk_down-eq peer.next_index (reversed_log_iterator w g db) (reverse es) zero_entry stored
          ∙ ap (λ n. walk_entries n (reverse es) zero_entry) next in
        let known : (peer.next_index == 0) ≡ false = ground arith in
        rw known (rw walked (sent k es log.indexed))
