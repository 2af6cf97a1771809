-- ===== src/Peers/Fresh.antt =====
-- What `PeerUncommittedLogEntries` sends to a peer that has joined with nothing.
use mathlib.Core.List.{append-nil, reverse-reverse}
use bftraft4go.Prelude.{ℕ, ◌≡◌, refl, ap, sym, ◌∙◌, true, List, [], arith, ◌&&◌, ◌==◌, reverse}
use bftraft4go.Messages.{LogEntry, Peer}
use bftraft4go.World.{World, IsWorld}
use bftraft4go.World.Walks.{taken}
use bftraft4go.Store.{compose_key_prefix, log_entries}
use bftraft4go.Log.{reversed_log_iterator}
use bftraft4go.Log.Abstract.{Indexed, Stored, IsLog, taken-reversed_log_iterator}
use bftraft4go.Peers.{zero_entry, peer_uncommitted_log_entries}
use bftraft4go.Peers.Uncommitted.{walk_entries, walk-above, Stored-reverse, walk_down-eq}

walked_all :
    (es : List LogEntry) → Indexed 0 es → reverse (walk_entries 0 (reverse es) zero_entry).0 ≡ es
unfolding walk_entries
walked_all es i =
    ap (λ t. reverse (walk_entries 0 t zero_entry).0) (sym (append-nil (reverse es)))
    ∙ ap (λ (r : List LogEntry × LogEntry). reverse r.0)
        (walk-above 0 0 es [] zero_entry i (omega arith))
    ∙ ap reverse (append-nil (reverse es))
    ∙ reverse-reverse es

-- A peer with the positions 0 gets the whole log, on top of the zero entry.
pub peer_uncommitted_log_entries-fresh :
    (w : World) (laws : IsWorld w) (g : ℕ) (db : w.Db) (es : List LogEntry)
    → IsLog w g db es
    → (peer : Peer) → peer.next_index ≡ 0
    → peer.match_index ≡ 0
    → ((peer_uncommitted_log_entries w g db peer).0 ≡ es)
      × ((peer_uncommitted_log_entries w g db peer).1 ≡ zero_entry)
unfolding peer_uncommitted_log_entries
peer_uncommitted_log_entries-fresh w laws g db es log peer next matched =
    let stored : Stored w g (reverse es)
        (taken (compose_key_prefix g log_entries) (reversed_log_iterator w g db)) =
      rw (taken-reversed_log_iterator w laws g db es log) (Stored-reverse w g es _ log.stored) in
    let walked =
      walk_down-eq w laws g peer.next_index (reversed_log_iterator w g db) (reverse es) zero_entry
        stored
      ∙ ap (λ n. walk_entries n (reverse es) zero_entry) next in
    let new : ((peer.next_index == 0) && (peer.match_index == 0)) ≡ true = ground arith in
    rw new (rw walked (walked_all es log.indexed, refl))
