-- ===== src/Groups/Stored.antt =====
-- Saving and reading groups (server/group.go) and hosts (server/hosts.go).
use bftraft4go.Prelude.{
  ℕ, ◌≡◌, refl, ap, sym, ◌∙◌, some, lookup, Bytes, Option-cases, inl, inr, Bool,
}
use bftraft4go.Messages.{Host, RaftGroup}
use bftraft4go.Outcome.{ok, err, codec_error, store_error}
use bftraft4go.World.{World, IsWorld, found, fetched_of}
use bftraft4go.World.Keyed.{find_item}
use bftraft4go.World.Writes.{find_item-insert_item}
use bftraft4go.Store.{compose_key_prefix, group_meta, host_key}
use bftraft4go.Server.{Server}
use bftraft4go.Hosts.{load_host, save_host}
use bftraft4go.Vote.{save_group}
use bftraft4go.Log.{set_or_keep}
use bftraft4go.Groups.{get_group_from_kv, get_group}

module _ (w : World) (laws : IsWorld w) where
  pub get-set :
      (db db' : w.Db) (k v : Bytes) → w.set db k v ≡ some db' → w.get db' k ≡ found (some v)
  get-set db db' k v written =
      laws.get_lem db' k
      ∙ ap (λ xs. fetched_of (find_item k xs)) (laws.items-set db db' k v written)
      ∙ ap fetched_of (find_item-insert_item k (some v) (w.items db))

  -- In a world that keeps its laws, a group that `SaveGroup` encodes and writes without an error
  -- is what `GetGroupFromKV` then reads under its number.
  pub get_group_from_kv-save_group :
      (s : Server w) (group : RaftGroup) (bytes : Bytes) (db' : w.Db)
      → w.group_codec.marshal group ≡ some bytes
      → w.set s.db (compose_key_prefix group.id group_meta) bytes ≡ some db'
      → get_group_from_kv w (save_group w s group).db group.id ≡ some group
  unfolding get_group_from_kv save_group set_or_keep
  get_group_from_kv-save_group s group bytes db' marshalled written =
      rw (marshalled, save_group)
        (rw (written, set_or_keep)
          (rw
            (
              get-set s.db db' (compose_key_prefix group.id group_meta) bytes written,
              get_group_from_kv,
            )
            (ap (λ (r : RaftGroup × Bool). some r.0) (laws.group-IsCodec group bytes marshalled))))

  -- In a world that keeps its laws, a host that `SaveHost` has saved without an error is what
  -- `GetHost` reads from the database under its id, where it is not cached.
  pub load_host-save_host :
      (s s' : Server w) (node : Host)
      → save_host w s node ≡ ok s'
      → (load_host w s' node.id).0 ≡ some node
  unfolding save_host load_host
  load_host-save_host s s' node saved = elim (Option-cases (w.host_codec.marshal node)) [
    | inl bad ↦ let e : err codec_error ≡ ok s' = rw (bad, save_host) at saved in cc (e)
    | inr (bytes, marshalled) ↦ elim (Option-cases (w.set s.db (host_key node.id) bytes)) [
      | inl no_room ↦
          let e : err store_error ≡ ok s' = rw no_room at (rw (marshalled, save_host) at saved) in
          cc (e)
      | inr (db', written) ↦
          let e : ok (record s { db = db' }) ≡ ok s' =
            rw written at (rw (marshalled, save_host) at saved) in
          let same : record s { db = db' } ≡ s' = cc (e) in
          ap (λ (t : Server w). (load_host w t node.id).0) (sym same)
          ∙ (rw (get-set s.db db' (host_key node.id) bytes written, load_host)
              (ap (λ (r : Host × Bool). some r.0) (laws.host-IsCodec node bytes marshalled)))
    ]
  ]

module _ (w : World) where
  pub get_group-db : (s : Server w) (id : ℕ) → (get_group w s id).1.db ≡ s.db
  unfolding get_group
  get_group-db s id = elim (Option-cases (lookup id s.groups)) [
    | inr (group, cached) ↦ rw (cached, get_group) refl
    | inl new ↦ elim (Option-cases (get_group_from_kv w s.db id)) [
      | inl nil ↦ rw (new, get_group) (rw nil refl)
      | inr (group, known) ↦ rw (new, get_group) (rw known refl)
    ]
  ]
