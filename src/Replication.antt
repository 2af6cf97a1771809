-- ===== src/Replication.antt =====
-- From the leader's log to the follower's: a heartbeat of `SendFollowersHeartbeat` and what the
-- `AppendEntries` of the follower makes of it.
pub mod Stuck
use bftraft4go.Prelude.{
  ℕ, zero, suc, ◌+◌, ◌^◌, ◌<◌, ◌≡◌, refl, ap, sym, ◌∙◌, subst, true, false, Option, none, some,
  List, [], ◌∷◌, ◌++◌, arith, Bytes, length, length-append, take, drop, take-append, drop-append,
  lookup, ◌⊎◌, inl, inr,
}
use bftraft4go.Messages.{LogEntry, Peer}
use bftraft4go.Outcome.{done, ok}
use bftraft4go.World.{World, IsWorld}
use bftraft4go.Server.{Server, RtGroup}
use bftraft4go.Hosts.KeyViews.{key_view}
use bftraft4go.Log.{group_hash}
use bftraft4go.Log.Abstract.{last_or, last_hash, Indexed, Chained, IsLog}
use bftraft4go.Log.Reads.{last_or-index}
use bftraft4go.Peers.{zero_entry, peer_uncommitted_log_entries}
use bftraft4go.Peers.Uncommitted.{entry_or_zero, sent_before, peer_uncommitted_log_entries-eq}
use bftraft4go.Peers.Fresh.{peer_uncommitted_log_entries-fresh}
use bftraft4go.Follower.{RaftFunc, append_entries}
use bftraft4go.Follower.Appends.{IsRoomy, IsQuiet, AtLog}
use bftraft4go.Follower.Batches.{Answer, Taken}
use bftraft4go.Follower.Returns.{Readable, Served}
use bftraft4go.Follower.Completes.{term_of, append_entries-Taken}
use bftraft4go.Leader.{heartbeat_request}

-- What the leader knows of a peer with the log `es`: its next index, or nothing of one that has
-- nothing.
abbrev pub Tracked : Peer → List LogEntry → Type 0
Tracked p es =
    ((es ≡ []) × (p.next_index ≡ 0) × (p.match_index ≡ 0))
    ⊎ ((k : ℕ) × (length es ≡ suc k) × (p.next_index ≡ suc (length es)))

Indexed-rest :
    (n : ℕ) (es rest : List LogEntry) → Indexed n (es ++ rest) → Indexed (n + length es) rest
Indexed-rest n [] rest i = subst (λ k. Indexed k rest) (omega arith) i
Indexed-rest n (e ∷ es) rest i =
    subst (λ k. Indexed k rest) (omega arith) (Indexed-rest (suc n) es rest i.1)

Indexed-front : (n : ℕ) (es rest : List LogEntry) → Indexed n (es ++ rest) → Indexed n es
Indexed-front n [] rest i = tt
Indexed-front n (e ∷ es) rest i = (i.0, Indexed-front (suc n) es rest i.1)

Chained-rest :
    (w : World) (h : Bytes) (es rest : List LogEntry)
    → Chained w h (es ++ rest)
    → Chained w (last_hash h es) rest
Chained-rest w h [] rest c = c
Chained-rest w h (e ∷ es) rest c = Chained-rest w e.hash es rest c.1

-- The last entry as the previous entry of a message.
before :
    (es : List LogEntry)
    → Indexed 0 es
    → ((entry_or_zero (last_or none es)).index ≡ length es)
      × ((entry_or_zero (last_or none es)).term ≡ term_of (last_or none es))
unfolding entry_or_zero
before [] i = (refl, refl)
before (e ∷ es) i =
    let (y, at, index) = last_or-index 0 e es i in rw at (omega (arith, index), refl)

sent_before-append :
    (k : ℕ) (es rest : List LogEntry)
    → length es ≡ suc k
    → sent_before (length es) (es ++ rest) ≡ entry_or_zero (last_or none es)
unfolding sent_before
sent_before-append k [] rest long = absurd (omega (arith, long))
sent_before-append k (e ∷ es) rest long =
    ap (λ t. entry_or_zero (last_or none t)) (take-append (e ∷ es) rest)

module _ (w : World) (laws : IsWorld w) (g : ℕ) where
  -- What a heartbeat carries for a peer with the log `es`.
  carried :
      (db : w.Db) (es rest : List LogEntry) (p : Peer)
      → IsLog w g db (es ++ rest)
      → Tracked p es
      → ((peer_uncommitted_log_entries w g db p).0 ≡ rest)
        × ((peer_uncommitted_log_entries w g db p).1.index ≡ length es)
        × ((peer_uncommitted_log_entries w g db p).1.term ≡ term_of (last_or none es))
  carried db es rest p log (inl (none_yet, next, matched)) =
      let all : IsLog w g db rest = subst (λ t. IsLog w g db (t ++ rest)) none_yet log in
      let (entries, prev) =
        peer_uncommitted_log_entries-fresh w laws g db rest all p next matched in
      (entries, rw prev (rw none_yet refl), rw prev (rw none_yet refl))
  carried db es rest p log (inr (k, long, next)) =
      let (entries, prev) =
        peer_uncommitted_log_entries-eq w laws g db (es ++ rest) log p (length es) next in
      let prev' = sent_before-append k es rest long in
      let (index, term) = before es (Indexed-front 0 es rest log.indexed) in
      (entries ∙ drop-append es rest, rw (prev ∙ prev') index, rw (prev ∙ prev') term)

  module _ (roomy : IsRoomy w) (func_reg : ℕ → Option (RaftFunc w))
      (quiet : IsQuiet w g func_reg) where
    -- Replication makes progress: if the encoding and the database take every write, the leader's
    -- log is the follower's log `es` and more entries, the leader has the right positions of the
    -- peer (`Tracked`), and the follower follows that leader and holds its key, then
    -- `AppendEntries` of the follower on the request of the heartbeat returns, answers
    -- `Successed`, and has put all entries that were missing on the log; provided that the
    -- clients' keys can be parsed, the functions of the entries are registered, return and leave
    -- the log and the number of the group alone, and number and indices fit in a uint64.
    pub heartbeat_request-Taken :
        (s t : Server w) (lead m : RtGroup) (p leader_peer : Peer) (key : w.PublicKey)
        (es : List LogEntry) (x : LogEntry) (xs : List LogEntry) (now draw : ℕ)
        → AtLog w g (es ++ x ∷ xs) s lead
        → AtLog w g es t m
        → Tracked p es
        → s.id ≡ m.leader_id
        → lookup s.id m.group_peers ≡ some leader_peer
        → key_view w t m.leader_id ≡ done (some key)
        → g < 2 ^ 64
        → length es + length (x ∷ xs) + 1 < 2 ^ 64
        → Readable w t (x ∷ xs)
        → Served w laws roomy g func_reg quiet (x ∷ xs)
        → (r : Answer w) × (append_entries w func_reg now draw t m (heartbeat_request w s lead p)
            ≡ done r)
          × Taken w g es (x ∷ xs) r
    unfolding heartbeat_request
    heartbeat_request-Taken s t lead m p leader_peer key es x xs now draw leads at tracked follows
          is_peer seen fits room readable served =
        let c = carried s.db es (x ∷ xs) p leads.1 tracked in
        append_entries-Taken w laws roomy g func_reg quiet es now draw t m
          (heartbeat_request w s lead p) x xs leader_peer key at fits follows is_peer seen
          (rw (leads.0) (c.0)) (rw (leads.0) (c.1)) (rw (leads.0) (c.2))
          (subst (λ n. Indexed n (x ∷ xs)) (omega arith)
            (Indexed-rest 0 es (x ∷ xs) leads.1.indexed))
          (Chained-rest w (group_hash w g) es (x ∷ xs) leads.1.chained) room readable served
