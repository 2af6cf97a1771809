-- ===== src/Prelude/Maps.antt =====
-- Go maps with uint64 keys as association lists in which no key stands twice. The order in which
-- `range` visits the entries is left to the caller: see `IsRange`.
use Prim.Native.Nat.{ℕ}
use mathlib.Core.Path.{◌≡◌, refl}
use mathlib.Core.Logic.{◌↔◌, ◌⊎◌, inl, inr, ◌≢◌}
use mathlib.Core.List.{List, [], ◌∷◌}
use mathlib.Core.Option.{Option, none, some}
use native.Mathlib.Omega.{arith}
use bftraft4go.Prelude.Tests.{◌==◌, if◌then◌else◌, Bool-cases}

-- Membership, with the place kept.
abbrev pub Elem : {A : Type 0} → A → List A → Type 0
Elem x [] = ⊥
Elem x (y ∷ ys) = (x ≡ y) ⊎ Elem x ys

-- What `range` may do: it visits what is there, and all of it.
abbrev pub IsRange : {A : Type 0} → (List A → List A) → Type 0
IsRange {A} range = (xs : List A) (x : A) → Elem x (range xs) ↔ Elem x xs

abbrev pub Map {ℓ} : Type ℓ → Type ℓ
Map V = List (ℕ × V)

module _ {ℓ} {V : Type ℓ} where
  -- `v, found := m[k]`
  unfoldable pub lookup : ℕ → Map V → Option V
  lookup key [] = none
  lookup key ((k, value) ∷ rest) = if k == key then some value else lookup key rest

  -- `m[k] = v`
  unfoldable pub insert : ℕ → V → Map V → Map V
  insert key value [] = (key, value) ∷ []
  insert key value ((k, old) ∷ rest) =
      if k == key then (key, value) ∷ rest else (k, old) ∷ insert key value rest

  -- `delete(m, k)`
  unfoldable pub delete : ℕ → Map V → Map V
  delete k [] = []
  delete k ((j, w) ∷ m) = if j == k then m else (j, w) ∷ delete k m

  unfoldable pub keys : Map V → List ℕ
  keys [] = []
  keys ((k, v) ∷ m) = k ∷ keys m

  abbrev pub IsUnique : Map V → Type ℓ
  IsUnique [] = Unit
  IsUnique ((k, v) ∷ m) = (lookup k m ≡ none) × IsUnique m

  pub lookup-insert :
      (k j : ℕ) (v : V) (m : Map V)
      → lookup j (insert k v m) ≡ (if k == j then some v else lookup j m)
  unfolding lookup insert
  lookup-insert k j v [] = refl
  lookup-insert k j v ((first, old) ∷ rest) = ground (arith, lookup-insert k j v rest)

  pub lookup-insert_self : (k : ℕ) (v : V) (m : Map V) → lookup k (insert k v m) ≡ some v
  lookup-insert_self k v m = ground (arith, lookup-insert k k v m)

  pub lookup-insert_ne :
      (k j : ℕ) (v : V) (m : Map V) → k ≢ j → lookup j (insert k v m) ≡ lookup j m
  lookup-insert_ne k j v m h = ground (arith, lookup-insert k j v m)

  pub insert-IsUnique : (k : ℕ) (v : V) (m : Map V) → IsUnique m → IsUnique (insert k v m)
  unfolding lookup insert
  insert-IsUnique k v [] h = (refl, tt)
  insert-IsUnique k v ((j, w) ∷ m) h = elim (Bool-cases (j == k)) [
    | inl same ↦ rw same (ground arith, h.1)
    | inr other ↦ rw other (ground (arith, lookup-insert k j v m), insert-IsUnique k v m h.1)
  ]

module _ {V : Type 0} where
  pub lookup→Elem : (k : ℕ) (v : V) (m : Map V) → lookup k m ≡ some v → Elem (k, v) m
  unfolding lookup
  lookup→Elem k v [] h = ground arith
  lookup→Elem k v ((j, w) ∷ m) h = ground (arith, lookup→Elem k v m)

  pub Elem→lookup : (k : ℕ) (v : V) (m : Map V) → IsUnique m → Elem (k, v) m → lookup k m ≡ some v
  unfolding lookup
  Elem→lookup k v [] u e = elim e [ ]
  Elem→lookup k v ((j, w) ∷ m) u (inl e) = ground arith
  Elem→lookup k v ((j, w) ∷ m) u (inr e) = ground (arith, Elem→lookup k v m u.1 e)
