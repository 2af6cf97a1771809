-- ===== src/Hosts/KeyViews.antt =====
-- The same of `GetHostPublicKey`.
use bftraft4go.Prelude.{
  ℕ, ◌≡◌, refl, ap, ap₂, sym, ◌⊎◌, ◌∙◌, Option, none, some, lookup, insert, lookup-insert, ◌==◌,
  ==_iff, subst, Bool-cases, Option-cases, inl, inr,
}
use bftraft4go.Messages.{Host}
use bftraft4go.Outcome.{Outcome, done, panicked}
use bftraft4go.World.{World}
use bftraft4go.Server.{Server}
use bftraft4go.Hosts.{get_host, parse_host_key, get_host_public_key}
use bftraft4go.Hosts.Views.{host_view, get_host-state, view_cached, host_view-with_key}

module _ (w : World) where
  -- The key that the host's record holds.
  abbrev key_in : Option Host → Outcome (Option w.PublicKey)
  key_in none = done none
  key_in (some node) = elim (w.parse_public_key node.public_key) [
    | none ↦ panicked
    | some k ↦ done (some k)
  ]

  abbrev key_from : Option w.PublicKey → Option Host → Outcome (Option w.PublicKey)
  key_from (some k) o = done (some k)
  key_from none o = key_in o

  -- What `GetHostPublicKey` answers: the cached key, or else that of the host.
  unfoldable pub key_view : Server w → ℕ → Outcome (Option w.PublicKey)
  key_view s i = key_from (lookup i s.node_public_keys) (host_view w s i)

  -- What a look at a key leaves alone, the answers of all later looks included.
  pub record SameKeys (s t : Server w) : Type 0 where
    pub id : t.id ≡ s.id
    pub db : t.db ≡ s.db
    pub private_key : t.private_key ≡ s.private_key
    pub groups : t.groups ≡ s.groups
    pub keys : (j : ℕ) → key_view t j ≡ key_view s j

  pub SameKeys-refl : (s : Server w) → SameKeys s s
  SameKeys-refl s = record {
    id = refl;
    db = refl;
    private_key = refl;
    groups = refl;
    keys = λ j. refl;
  }

  pub SameKeys-trans : (s t u : Server w) → SameKeys s t → SameKeys t u → SameKeys s u
  SameKeys-trans s t u h k = record {
    id = k.id ∙ h.id;
    db = k.db ∙ h.db;
    private_key = k.private_key ∙ h.private_key;
    groups = k.groups ∙ h.groups;
    keys = λ j. k.keys j ∙ h.keys j;
  }

  pub get_host-SameKeys : (s : Server w) (i : ℕ) → SameKeys s (get_host w s i).1
  unfolding key_view
  get_host-SameKeys s i = elim (get_host-state w s i) [
    | inl same ↦ rw same (SameKeys-refl s)
    | inr got ↦ rw got.2 (record {
      id = refl;
      db = refl;
      private_key = refl;
      groups = refl;
      keys = λ j. ap (key_from (lookup j s.node_public_keys)) (view_cached w s i j got.0 got.1);
    })
  ]

  -- The answer is that of the view, and it is remembered.
  abbrev pub KeyGot : Server w → ℕ → Option w.PublicKey → Server w → Type 0
  KeyGot s i k t =
      (get_host_public_key w s i ≡ done (k, t)) × (key_view s i ≡ done k) × SameKeys s t

  with_key : Server w → ℕ → w.PublicKey → Server w
  with_key s i k = record s { node_public_keys = insert i k s.node_public_keys }

  with_key-SameKeys :
      (s : Server w) (i : ℕ) (k : w.PublicKey)
      → key_view s i ≡ done (some k)
      → SameKeys s (with_key s i k)
  unfolding key_view with_key
  with_key-SameKeys s i k e = record {
    id = refl;
    db = refl;
    private_key = refl;
    groups = refl;
    keys = λ j.
        ap₂ key_from (lookup-insert i j k s.node_public_keys)
          (host_view-with_key w s (insert i k s.node_public_keys) j)
        ∙ elim (Bool-cases (i == j)) [
          | inl same ↦
              rw same (sym (subst (λ t. key_view s t ≡ done (some k)) ((==_iff i j).0 same) e))
          | inr other ↦ rw other
        ];
  }

  computed :
      (s : Server w) (i : ℕ) (r : Option Host × Server w)
      → lookup i s.node_public_keys ≡ none
      → get_host w s i ≡ r
      → get_host_public_key w s i ≡ parse_host_key w i r
  computed s i r e g =
      unfold get_host_public_key in rw (e, get_host_public_key) (ap (parse_host_key w i) g)

  viewed :
      (s : Server w) (i : ℕ) (r : Option Host × Server w)
      → lookup i s.node_public_keys ≡ none
      → get_host w s i ≡ r
      → key_view s i ≡ key_in r.0
  unfolding key_view
  viewed s i r e g = ap₂ key_from e (ap (λ (p : Option Host × Server w). p.0) g)

  got_after :
      (s t : Server w) (i : ℕ) (o : Option Host)
      → lookup i s.node_public_keys ≡ none
      → get_host w s i ≡ (o, t)
      → SameKeys s t
      → ((get_host_public_key w s i ≡ panicked) × (key_view s i ≡ panicked))
        ⊎ ((k : Option w.PublicKey) × (u : Server w) × KeyGot s i k u)
  got_after s t i none e g same =
      inr (none, t, (computed s i _ e g ∙ unfold parse_host_key in refl, viewed s i _ e g, same))
  got_after s t i (some node) e g same = elim (Option-cases (w.parse_public_key node.public_key)) [
    | inl bad ↦ inl (
      computed s i _ e g ∙ (unfold parse_host_key in rw (bad, parse_host_key)),
      viewed s i _ e g ∙ rw (bad, key_in),
    )
    | inr (k, good) ↦
        let seen : key_view s i ≡ done (some k) = viewed s i _ e g ∙ rw (good, key_in) in
        inr (
          some k,
          with_key t i k,
          (
            computed s i _ e g ∙ (unfold parse_host_key with_key in rw (good, parse_host_key)),
            seen,
            SameKeys-trans s t (with_key t i k) same (with_key-SameKeys t i k (same.keys i ∙ seen)),
          ),
        )
  ]

  -- `GetHostPublicKey` panics exactly where the cached key, or else the host's record, gives no
  -- key that can be parsed (`key_view`); else it answers what these give and changes no answer of
  -- a later call, nor the database, the node's id, its private key or the cache of groups.
  pub get_host_public_key-view :
      (s : Server w) (i : ℕ)
      → ((get_host_public_key w s i ≡ panicked) × (key_view s i ≡ panicked))
        ⊎ ((k : Option w.PublicKey) × (t : Server w) × KeyGot s i k t)
  get_host_public_key-view s i = elim (Option-cases (lookup i s.node_public_keys)) [
    | inl new ↦ got_after s (get_host w s i).1 i (get_host w s i).0 new refl (get_host-SameKeys s i)
    | inr (k, old) ↦ inr (
      some k,
      s,
      (
        (unfold get_host_public_key in rw (old, get_host_public_key)),
        (unfold key_view in rw (old, key_view)),
        SameKeys-refl s,
      ),
    )
  ]

  -- The same where the view is known.
  pub got_key :
      (s : Server w) (i : ℕ) (k : Option w.PublicKey)
      → key_view s i ≡ done k
      → (t : Server w) × (get_host_public_key w s i ≡ done (k, t)) × SameKeys s t
  got_key s i k seen = elim (get_host_public_key-view s i) [
    | inl (bad, panics) ↦ cc (seen, panics)
    | inr (k', t, (got, seen', same)) ↦
        let eq : k' ≡ k = cc (seen, seen') in (t, got ∙ ap (λ q. done (q, t)) eq, same)
  ]
