-- ===== src/Hosts/Views.antt =====
-- What `GetHost` returns before and after it has filled its cache.
use bftraft4go.Prelude.{
  ℕ, ◌≡◌, refl, ap, ap₂, sym, ◌⊎◌, ◌∙◌, Option, none, some, arith, Map, lookup, insert,
  lookup-insert, inl, inr,
}
use bftraft4go.Messages.{Host}
use bftraft4go.World.{World, Fetched, found, key_not_found, failed}
use bftraft4go.Store.{host_key}
use bftraft4go.Server.{Server}
use bftraft4go.Hosts.{load_host, get_host}

module _ (w : World) where
  -- The host that `GetHost` returns.
  abbrev pub host_view : Server w → ℕ → Option Host
  host_view s id = (get_host w s id).0

  abbrev pub with_host : Server w → ℕ → Host → Server w
  with_host s i node = record s { hosts = insert i node s.hosts }

  -- The host that the database holds.
  abbrev host_of : Fetched → Option Host
  host_of (found (some bs)) = some (w.host_codec.unmarshal bs).0
  host_of (found none) = none
  host_of key_not_found = none
  host_of failed = none

  abbrev or_else : {A : Type 0} → Option A → Option A → Option A
  or_else (some a) o = some a
  or_else none o = o

  -- What `GetHost` returns, and which node it leaves behind.
  abbrev after_get : Option Host → Server w → ℕ → Server w
  after_get none s i = s
  after_get (some node) s i = with_host s i node

  load_host-eq :
      (s : Server w) (i : ℕ)
      → load_host w s i
        ≡ (host_of (w.get s.db (host_key i)), after_get (host_of (w.get s.db (host_key i))) s i)
  load_host-eq s i = go (w.get s.db (host_key i)) refl
    where
      go :
          (f : Fetched)
          → w.get s.db (host_key i) ≡ f
          → load_host w s i ≡ (host_of f, after_get (host_of f) s i)
      go (found (some bs)) e = unfold load_host in rw (e, load_host)
      go (found none) e = unfold load_host in rw (e, load_host)
      go key_not_found e = unfold load_host in rw (e, load_host)
      go failed e = unfold load_host in rw (e, load_host)

  host_view-eq :
      (s : Server w) (i : ℕ)
      → host_view s i ≡ or_else (lookup i s.hosts) (host_of (w.get s.db (host_key i)))
  host_view-eq s i = go (lookup i s.hosts) refl
    where
      go :
          (c : Option Host)
          → lookup i s.hosts ≡ c
          → host_view s i ≡ or_else c (host_of (w.get s.db (host_key i)))
      go none e = unfold get_host in rw (e, host_view, get_host) (ap (λ r. r.0) (load_host-eq s i))
      go (some node) e = unfold get_host in rw (e, host_view, get_host)

  pub get_host-state :
      (s : Server w) (i : ℕ)
      → ((get_host w s i).1 ≡ s)
        ⊎ ((node : Host) × (host_view s i ≡ some node) × ((get_host w s i).1 ≡ with_host s i node))
  get_host-state s i = go (lookup i s.hosts) (host_of (w.get s.db (host_key i))) refl refl
    where
      go :
          (c h : Option Host)
          → lookup i s.hosts ≡ c
          → host_of (w.get s.db (host_key i)) ≡ h
          → ((get_host w s i).1 ≡ s)
            ⊎ ((node : Host) × (host_view s i ≡ some node)
                × ((get_host w s i).1 ≡ with_host s i node))
      go (some node) h e f = inl (unfold get_host in rw (e, get_host))
      go none none e f = inl (
          unfold get_host in
          rw (e, get_host) (ap (λ r. r.1) (load_host-eq s i) ∙ ap (λ o. after_get o s i) f))
      go none (some node) e f = inr (
        node,
        host_view-eq s i ∙ ap₂ or_else e f,
        (unfold get_host in
            rw (e, get_host) (ap (λ r. r.1) (load_host-eq s i) ∙ ap (λ o. after_get o s i) f)),
      )

  pub view_cached :
      (s : Server w) (i j : ℕ) (node : Host)
      → host_view s i ≡ some node
      → host_view (with_host s i node) j ≡ host_view s j
  view_cached s i j node e = ground (
    arith,
    host_view-eq (with_host s i node) j,
    host_view-eq s j,
    host_view-eq s i,
    lookup-insert i j node s.hosts,
  )

  -- A call of `GetHost` changes no answer of a later call, whichever hosts the two are about.
  pub host_view-get_host : (s : Server w) (i j : ℕ) → host_view (get_host w s i).1 j ≡ host_view s j
  host_view-get_host s i j = elim (get_host-state s i) [
    | inl same ↦ ap (λ t. host_view t j) same
    | inr got ↦ ap (λ t. host_view t j) got.2 ∙ view_cached s i j got.0 got.1
  ]

  -- Keys that are cached do not change which host is seen.
  pub host_view-with_key :
      (s : Server w) (ks : Map w.PublicKey) (j : ℕ)
      → host_view (record s { node_public_keys = ks }) j ≡ host_view s j
  host_view-with_key s ks j =
      host_view-eq (record s { node_public_keys = ks }) j ∙ sym (host_view-eq s j)
