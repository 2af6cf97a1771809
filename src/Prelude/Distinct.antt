-- ===== src/Prelude/Distinct.antt =====
-- Lists without repetition, and the pigeonhole principle for two of them.
use Prim.Native.Nat.{ℕ, suc, ◌+◌, ◌≤◌, ◌<◌}
use mathlib.Core.Path.{◌≡◌, refl, subst}
use mathlib.Core.Logic.{◌⊎◌, inl, inr, ◌≢◌}
use mathlib.Core.List.{List, [], ◌∷◌, ◌++◌}
use mathlib.Core.Option.{none, some}
use native.Mathlib.Decide.{ℕ_discrete}
use native.Mathlib.Omega.{arith}
use bftraft4go.Prelude.Tests.{◌==◌, Bool-cases}
use bftraft4go.Prelude.Lists.{length, length-append}
use bftraft4go.Prelude.Maps.{Elem, Map, IsUnique, lookup, keys}

abbrev pub IsDistinct : List ℕ → Type 0
IsDistinct [] = Unit
IsDistinct (x ∷ xs) = (Elem x xs → ⊥) × IsDistinct xs

abbrev pub Within : List ℕ → List ℕ → Type 0
Within xs zs = (a : ℕ) → Elem a xs → Elem a zs

pub dec-Elem : (a : ℕ) (xs : List ℕ) → Elem a xs ⊎ (Elem a xs → ⊥)
dec-Elem a [] = inr (λ e. e)
dec-Elem a (x ∷ xs) = elim (ℕ_discrete a x) [
  | yes same ↦ inl (inl same)
  | no other ↦ elim (dec-Elem a xs) [
    | inl later ↦ inl (inr later)
    | inr never ↦ inr (λ e. elim e [ inl same ↦ other same | inr later ↦ never later ])
  ]
]

without : (a : ℕ) (xs : List ℕ) → Elem a xs → List ℕ
without a (x ∷ xs) (inl e) = xs
without a (x ∷ xs) (inr e) = x ∷ without a xs e
without a [] e = elim e [ ]

length-without : (a : ℕ) (xs : List ℕ) (e : Elem a xs) → length xs ≡ suc (length (without a xs e))
unfolding without
length-without a (x ∷ xs) (inl e) = refl
length-without a (x ∷ xs) (inr e) = omega (arith, length-without a xs e)
length-without a [] e = elim e [ ]

Elem-without : (a b : ℕ) (xs : List ℕ) (e : Elem a xs) → b ≢ a → Elem b xs → Elem b (without a xs e)
unfolding without
Elem-without a b (x ∷ xs) (inl e) ne (inl f) = absurd (omega arith)
Elem-without a b (x ∷ xs) (inl e) ne (inr f) = f
Elem-without a b (x ∷ xs) (inr e) ne (inl f) = inl f
Elem-without a b (x ∷ xs) (inr e) ne (inr f) = inr (Elem-without a b xs e ne f)
Elem-without a b [] e ne f = elim e [ ]

-- Different things in a list are no more than the list holds.
pub IsDistinct-length : (xs zs : List ℕ) → IsDistinct xs → Within xs zs → length xs ≤ length zs
IsDistinct-length [] zs d within = omega arith
IsDistinct-length (x ∷ xs) zs d within =
    let at : Elem x zs = within x (inl refl) in
    omega (
      arith,
      length-without x zs at,
      IsDistinct-length xs (without x zs at) d.1
          (λ a e. Elem-without x a zs at (λ same. d.0 (move a same e)) (within a (inr e))),
    )
  where
    move : (a : ℕ) → a ≡ x → Elem a xs → Elem x xs
    move a same e = subst (λ t. Elem t xs) same e

Elem-append : (a : ℕ) (xs ys : List ℕ) → Elem a (xs ++ ys) → Elem a xs ⊎ Elem a ys
Elem-append a [] ys e = inr e
Elem-append a (x ∷ xs) ys (inl e) = inl (inl e)
Elem-append a (x ∷ xs) ys (inr e) = elim (Elem-append a xs ys e) [
  | inl l ↦ inl (inr l)
  | inr r ↦ inr r
]

-- Either the lists share something, or together they have no repetition.
shared_or_IsDistinct :
    (xs ys : List ℕ)
    → IsDistinct xs
    → IsDistinct ys
    → ((a : ℕ) × Elem a xs × Elem a ys) ⊎ IsDistinct (xs ++ ys)
shared_or_IsDistinct [] ys dx dy = inr dy
shared_or_IsDistinct (x ∷ xs) ys dx dy = elim (dec-Elem x ys) [
  | inl shared ↦ inl (x, inl refl, shared)
  | inr apart ↦ elim (shared_or_IsDistinct xs ys dx.1 dy) [
    | inl found ↦ inl (found.0, inr found.1, found.2)
    | inr d ↦ inr ((λ e. elim (Elem-append x xs ys e) [ inl l ↦ dx.0 l | inr r ↦ apart r ]), d)
  ]
]

-- Two lists of different things that together are more than the whole share one.
pub pigeonhole :
    (xs ys zs : List ℕ)
    → IsDistinct xs
    → IsDistinct ys
    → Within xs zs
    → Within ys zs
    → length zs < length xs + length ys
    → (a : ℕ) × Elem a xs × Elem a ys
pigeonhole xs ys zs dx dy wx wy more = elim (shared_or_IsDistinct xs ys dx dy) [
  | inl found ↦ found
  | inr d ↦ absurd (
      omega (
        arith,
        length-append xs ys,
        IsDistinct-length (xs ++ ys) zs d
            (λ a e. elim (Elem-append a xs ys e) [ inl l ↦ wx a l | inr r ↦ wy a r ]),
      ))
]

module _ {V : Type 0} where
  pub length-keys : (m : Map V) → length (keys m) ≡ length m
  unfolding keys
  length-keys [] = refl
  length-keys ((k, v) ∷ m) = omega (arith, length-keys m)

  absent : (k : ℕ) (m : Map V) → lookup k m ≡ none → Elem k (keys m) → ⊥
  unfolding lookup keys
  absent k [] h e = e
  absent k ((j, v) ∷ m) h (inl e) = ground arith
  absent k ((j, v) ∷ m) h (inr e) = absent k m (ground arith) e

  pub keys-IsDistinct : (m : Map V) → IsUnique m → IsDistinct (keys m)
  unfolding keys
  keys-IsDistinct [] u = tt
  keys-IsDistinct ((k, v) ∷ m) u = (absent k m u.0, keys-IsDistinct m u.1)

  pub lookup→key : (k : ℕ) (v : V) (m : Map V) → lookup k m ≡ some v → Elem k (keys m)
  unfolding lookup keys
  lookup→key k v [] h = cc
  lookup→key k v ((j, u) ∷ m) h = elim (Bool-cases (j == k)) [
    | inl same ↦ inl (ground arith)
    | inr other ↦ inr (lookup→key k v m (rw other at h))
  ]
