-- ===== src/World/Walks.antt =====
-- Walks over the items under a prefix: what the program's reverse iterators see, and what a write
-- changes.
use mathlib.Core.List.{reverse-cons, append-nil}
use bftraft4go.Prelude.{
  ◌≡◌, refl, true, false, List, [], ◌∷◌, ◌++◌, arith, Bytes, All, All-append, if◌then◌else◌,
  Bool-cases, inl, inr, reverse, ap, ◌∙◌, sym,
}
use bftraft4go.Encoding.Order.{bytes_leb, bytes_leb_trans}
use bftraft4go.World.Keyed.{
  Item, IsSorted, Falls, has_prefix, has_prefix_between, seek_down, reverse_seek, under_prefix,
  current, first_of_items,
}

-- The items that a walk passes before it leaves the prefix.
unfoldable pub taken : Bytes → List Item → List Item
taken prefix [] = []
taken prefix (x ∷ xs) = let rest = taken prefix xs in if has_prefix prefix x.0 then x ∷ rest else []

pub current-eq-first : (ps : Bytes) (xs : List Item) → current ps xs ≡ first_of_items (taken ps xs)
unfolding current first_of_items taken
current-eq-first ps [] = refl
current-eq-first ps (x ∷ xs) = ground arith

module _ (ps s : Bytes) where
  none_under :
      (x : Item) (xs : List Item)
      → has_prefix ps x.0 ≡ false
      → bytes_leb x.0 (ps ++ s) ≡ true
      → All (λ (y : Item). bytes_leb y.0 x.0 ≡ true) xs
      → under_prefix ps xs ≡ []
  unfolding under_prefix
  none_under x [] out le below = refl
  none_under x (y ∷ ys) out le below =
      ground (arith, has_prefix_between ps y.0 x.0 s, none_under x ys out le below.1)

  taken-eq-under :
      (xs : List Item)
      → Falls xs
      → All (λ (y : Item). bytes_leb y.0 (ps ++ s) ≡ true) xs
      → taken ps xs ≡ under_prefix ps xs
  unfolding taken under_prefix
  taken-eq-under [] falls below = refl
  taken-eq-under (x ∷ xs) falls below = elim (Bool-cases (has_prefix ps x.0)) [
    | inl at ↦ rw at (ap (λ t. x ∷ t) (taken-eq-under xs falls.1 below.1))
    | inr out ↦ rw out (sym (none_under x xs out below.0 falls.0))
  ]

  -- No key under the prefix comes after the key that is sought.
  abbrev pub Reaches : List Item → Type 0
  Reaches xs = All (λ (y : Item). has_prefix ps y.0 ≡ true → bytes_leb y.0 (ps ++ s) ≡ true) xs

  below_head :
      (x : Item) (xs : List Item)
      → bytes_leb x.0 (ps ++ s) ≡ true
      → All (λ (y : Item). bytes_leb y.0 x.0 ≡ true) xs
      → All (λ (y : Item). bytes_leb y.0 (ps ++ s) ≡ true) xs
  below_head x [] le below = tt
  below_head x (y ∷ ys) le below =
      (bytes_leb_trans y.0 x.0 (ps ++ s) below.0 le, below_head x ys le below.1)

  taken-seek_down :
      (xs : List Item)
      → Falls xs
      → Reaches xs
      → taken ps (seek_down (ps ++ s) xs) ≡ under_prefix ps xs
  unfolding seek_down under_prefix
  taken-seek_down [] falls reaches = unfold taken in refl
  taken-seek_down (x ∷ xs) falls reaches = elim (Bool-cases (bytes_leb x.0 (ps ++ s))) [
    | inl le ↦ rw le (taken-eq-under (x ∷ xs) falls (le, below_head x xs le falls.0))
    | inr over ↦ rw over (rw (outside over) (taken-seek_down xs falls.1 reaches.1))
  ]
    where
      outside : bytes_leb x.0 (ps ++ s) ≡ false → has_prefix ps x.0 ≡ false
      outside over = elim (Bool-cases (has_prefix ps x.0)) [
        | inl at ↦ cc (reaches.0 at)
        | inr out ↦ out
      ]

under_prefix-append :
    (ps : Bytes) (xs ys : List Item)
    → under_prefix ps (xs ++ ys) ≡ under_prefix ps xs ++ under_prefix ps ys
unfolding under_prefix
under_prefix-append ps [] ys = refl
under_prefix-append ps (x ∷ xs) ys = ground (arith, under_prefix-append ps xs ys)

under_prefix-reverse :
    (ps : Bytes) (xs : List Item) → under_prefix ps (reverse xs) ≡ reverse (under_prefix ps xs)
under_prefix-reverse ps [] = unfold under_prefix in refl
under_prefix-reverse ps (x ∷ xs) =
    ap (under_prefix ps) (reverse-cons x xs)
    ∙ under_prefix-append ps (reverse xs) (x ∷ [])
    ∙ ap (λ t. t ++ under_prefix ps (x ∷ [])) (under_prefix-reverse ps xs)
    ∙ elim (Bool-cases (has_prefix ps x.0)) [
      | inl at ↦ unfold under_prefix in rw at (sym (reverse-cons x (under_prefix ps xs)))
      | inr out ↦ unfold under_prefix in rw out (append-nil _)
    ]

All-reverse : (P : Item → Type 0) (xs : List Item) → All P xs → All P (reverse xs)
All-reverse P [] h = tt
All-reverse P (x ∷ xs) h =
    rw (reverse-cons x xs) (All-append P (reverse xs) (x ∷ []) (All-reverse P xs h.1) (h.0, tt))

Falls-append :
    (xs : List Item) (x : Item)
    → Falls xs
    → All (λ (y : Item). bytes_leb x.0 y.0 ≡ true) xs
    → Falls (xs ++ x ∷ [])
Falls-append [] x falls above = (tt, tt)
Falls-append (y ∷ ys) x falls above = (
  All-append (λ (z : Item). bytes_leb z.0 y.0 ≡ true) ys (x ∷ []) falls.0 (above.0, tt),
  Falls-append ys x falls.1 above.1,
)

reverse-Falls : (xs : List Item) → IsSorted xs → Falls (reverse xs)
reverse-Falls [] sorted = tt
reverse-Falls (x ∷ xs) sorted = rw (reverse-cons x xs) (
    Falls-append (reverse xs) x (reverse-Falls xs sorted.1)
      (All-reverse (λ (y : Item). bytes_leb x.0 y.0 ≡ true) xs sorted.0))

-- A reverse iterator that seeks past all keys of the prefix passes exactly the items under it, the
-- last one first.
pub taken-reverse_seek :
    (ps s : Bytes) (xs : List Item)
    → IsSorted xs
    → Reaches ps s xs
    → taken ps (reverse_seek (ps ++ s) xs) ≡ reverse (under_prefix ps xs)
unfolding reverse_seek
taken-reverse_seek ps s xs sorted reaches =
    taken-seek_down ps s (reverse xs) (reverse-Falls xs sorted) (
      All-reverse (λ (y : Item). has_prefix ps y.0 ≡ true → bytes_leb y.0 (ps ++ s) ≡ true) xs
        reaches)
    ∙ under_prefix-reverse ps xs
