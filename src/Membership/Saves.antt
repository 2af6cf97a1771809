-- ===== src/Membership/Saves.antt =====
-- What the saves of the membership commands leave alone, and the commands that only save a host.
use bftraft4go.Prelude.{
  ℕ, ◌≡◌, refl, sym, subst, true, List, arith, Bytes, Bool-cases, Option-cases, inl, inr,
}
use bftraft4go.Encoding.{u64_bytes}
use bftraft4go.Messages.{LogEntry, Peer, Host}
use bftraft4go.Outcome.{Result, ok, err}
use bftraft4go.World.{World, IsWorld}
use bftraft4go.Store.{host_key, host_list, host_list_group, log_entries}
use bftraft4go.Store.Keys.{has_prefix-table}
use bftraft4go.Server.{Server}
use bftraft4go.Hosts.{save_host}
use bftraft4go.Log.Abstract.{IsLog}
use bftraft4go.Log.Refusals.{IsLog-set}
use bftraft4go.Peers.{save_peer}
use bftraft4go.Leader.Beats.{save_peer-IsLog}
use bftraft4go.Membership.{refused, accepted, sm_reg_host, sm_new_client}

module _ (w : World) (laws : IsWorld w) (g : ℕ) where
  -- A step from `s` to `t` that leaves the log of `g`.
  abbrev pub KeepsLog : Server w → Server w → Type 0
  KeepsLog s t = (es : List LogEntry) → IsLog w g s.db es → IsLog w g t.db es

  pub same_db : (s t : Server w) → t.db ≡ s.db → KeepsLog s t
  same_db s t same es log = subst (λ d. IsLog w g d es) (sym same) log

  save_host-KeepsLog : (s s' : Server w) (node : Host) → save_host w s node ≡ ok s' → KeepsLog s s'
  unfolding save_host
  save_host-KeepsLog s s' node e es log = elim (Option-cases (w.host_codec.marshal node)) [
    | inl bad ↦ let e' = rw (bad, save_host) at e in cc (e')
    | inr (bytes, marshalled) ↦ elim (Option-cases (w.set s.db (host_key node.id) bytes)) [
      | inl no_room ↦ let e' = rw no_room at (rw (marshalled, save_host) at e) in cc (e')
      | inr (db', written) ↦
          let e' : ok (record s { db = db' }) ≡ ok s' =
            rw written at (rw (marshalled, save_host) at e) in
          let same : record s { db = db' } ≡ s' = cc (e') in
          subst (λ (t : Server w). IsLog w g t.db es) same
            (IsLog-set w laws g s.db db' es (host_key node.id) bytes log written (
              unfold host_key in
              has_prefix-table g host_list_group log_entries host_list (u64_bytes node.id)
                (omega arith) (omega arith) (ground arith)))
    ]
  ]

  -- The node after a save whose error may be dropped.
  saved_host-KeepsLog :
      (s : Server w) (node : Host) (r : Result (Server w))
      → save_host w s node ≡ r
      → KeepsLog s (elim r as (λ _. Server w) [ ok s' ↦ s' | err e ↦ s ])
  saved_host-KeepsLog s node (ok s') e = save_host-KeepsLog s s' node e
  saved_host-KeepsLog s node (err x) e = λ es log. log

  pub saved_peer-KeepsLog :
      (s : Server w) (peer : Peer) (r : Result (Server w))
      → save_peer w s peer ≡ r
      → KeepsLog s (elim r as (λ _. Server w) [ ok s' ↦ s' | err e ↦ s ])
  saved_peer-KeepsLog s peer (ok s') e = λ es log. save_peer-IsLog w laws g es s s' peer e log
  saved_peer-KeepsLog s peer (err x) e = λ es log. log

  module _ (hash_key : Bytes → ℕ) where
    pub sm_reg_host-KeepsLog :
        (s : Server w) (arg : Bytes) → KeepsLog s (sm_reg_host w hash_key s arg).1
    unfolding sm_reg_host
    sm_reg_host-KeepsLog s arg = elim (Bool-cases (w.host_codec.unmarshal arg).1) [
      | inr bad ↦ rw bad (λ es log. log)
      | inl good ↦
          let node : Host = record (w.host_codec.unmarshal arg).0 {
            id = hash_key (w.host_codec.unmarshal arg).0.public_key;
            online = true;
          } in
          rw good (saved_host-KeepsLog s node (save_host w s node) refl)
    ]

    pub sm_new_client-KeepsLog :
        (s : Server w) (arg : Bytes) → KeepsLog s (sm_new_client w hash_key s arg).1
    unfolding sm_new_client
    sm_new_client-KeepsLog s arg = elim (Bool-cases (w.host_codec.unmarshal arg).1) [
      | inr bad ↦ rw bad (λ es log. log)
      | inl good ↦
          let node : Host = record (w.host_codec.unmarshal arg).0 {
            id = hash_key (w.host_codec.unmarshal arg).0.public_key;
          } in
          rw good (go node (save_host w s node) refl)
    ]
      where
        go :
            (node : Host) (r : Result (Server w))
            → save_host w s node ≡ r
            → KeepsLog s
                (elim r as (λ _. Bytes × Server w) [
                  | ok s' ↦ (accepted, s')
                  | err e ↦ (refused, s)
                ]).1
        go node (ok s') e = save_host-KeepsLog s s' node e
        go node (err x) e = λ es log. log
