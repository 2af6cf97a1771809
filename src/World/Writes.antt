-- ===== src/World/Writes.antt =====
-- What a write changes among the items under a prefix, and where a read looks.
use bftraft4go.Prelude.{
  ◌≡◌, refl, true, false, Option, List, [], ◌∷◌, ◌++◌, arith, Bytes, All, bytes_equal, Bool-cases,
  inl, inr, sym, subst, bytes_equal→eq, bytes_equal_refl, some,
}
use bftraft4go.Encoding.Order.{bytes_leb, bytes_leb_trans}
use bftraft4go.World.Keyed.{Item, IsSorted, find_item, insert_item, has_prefix, under_prefix}

-- A key under the prefix is found among the items under the prefix.
pub find_item-under :
    (ps k : Bytes) (xs : List Item)
    → has_prefix ps k ≡ true
    → find_item k xs ≡ find_item k (under_prefix ps xs)
unfolding find_item under_prefix
find_item-under ps k [] h = refl
find_item-under ps k ((j, v) ∷ xs) h = ground (arith, bytes_equal→eq j k, find_item-under ps k xs)

-- A write outside of the prefix changes nothing under it.
pub under_prefix-insert_outside :
    (ps k : Bytes) (v : Option Bytes) (xs : List Item)
    → has_prefix ps k ≡ false
    → under_prefix ps (insert_item k v xs) ≡ under_prefix ps xs
unfolding insert_item under_prefix
under_prefix-insert_outside ps k v [] h = ground arith
under_prefix-insert_outside ps k v ((j, u) ∷ xs) h =
    ground (arith, bytes_equal→eq j k, under_prefix-insert_outside ps k v xs)

-- Each key under the prefix is before `k`, and is not `k`.
abbrev pub Precedes : Bytes → Bytes → List Item → Type 0
Precedes ps k xs =
    All
      (λ (y : Item).
        has_prefix ps y.0 ≡ true → (bytes_leb y.0 k ≡ true) × (bytes_equal y.0 k ≡ false))
      xs

no_later :
    (ps k : Bytes) (x : Item) (xs : List Item)
    → bytes_leb x.0 k ≡ false
    → All (λ (y : Item). bytes_leb x.0 y.0 ≡ true) xs
    → Precedes ps k xs
    → under_prefix ps xs ≡ []
unfolding under_prefix
no_later ps k x [] past after before = refl
no_later ps k x (y ∷ ys) past after before =
    ground (arith, before.0, bytes_leb_trans x.0 y.0 k, no_later ps k x ys)

-- A write of the last key under the prefix adds one item at the end.
pub under_prefix-insert_last :
    (ps k : Bytes) (v : Option Bytes) (xs : List Item)
    → has_prefix ps k ≡ true
    → IsSorted xs
    → Precedes ps k xs
    → under_prefix ps (insert_item k v xs) ≡ under_prefix ps xs ++ (k, v) ∷ []
unfolding insert_item under_prefix
under_prefix-insert_last ps k v [] h sorted before = rw h
under_prefix-insert_last ps k v ((j, u) ∷ xs) h sorted before =
    elim (Bool-cases (bytes_equal j k)) [
      | inl same ↦ cc (
        (before.0 (subst (λ t. has_prefix ps t ≡ true) (sym (bytes_equal→eq j k same)) h)).1,
        same,
      )
      | inr other ↦ rw other (elim (Bool-cases (bytes_leb j k)) [
        | inl le ↦ rw le (ground (arith, under_prefix-insert_last ps k v xs h sorted.1 before.1))
        | inr past ↦
            rw past (ground (arith, before.0, no_later ps k (j, u) xs past sorted.0 before.1))
      ])
    ]

-- What is written is found.
pub find_item-insert_item :
    (k : Bytes) (v : Option Bytes) (xs : List Item) → find_item k (insert_item k v xs) ≡ some v
unfolding find_item insert_item
find_item-insert_item k v [] = ground (arith, bytes_equal_refl k)
find_item-insert_item k v ((j, u) ∷ xs) =
    ground (arith, bytes_equal_refl k, find_item-insert_item k v xs)

-- A write under another key is not seen.
pub find_item-insert_other :
    (j k : Bytes) (v : Option Bytes) (xs : List Item)
    → bytes_equal j k ≡ false
    → find_item k (insert_item j v xs) ≡ find_item k xs
unfolding find_item insert_item
find_item-insert_other j k v [] other = ground arith
find_item-insert_other j k v ((i, u) ∷ xs) other =
    ground (arith, bytes_equal→eq i j, find_item-insert_other j k v xs)

insert_item-later :
    (ps j k : Bytes) (v : Option Bytes) (xs : List Item)
    → bytes_leb j k ≡ false
    → All (λ (y : Item). bytes_leb j y.0 ≡ true) xs
    → insert_item k v (under_prefix ps xs) ≡ (k, v) ∷ under_prefix ps xs
unfolding insert_item under_prefix
insert_item-later ps j k v [] past above = refl
insert_item-later ps j k v (y ∷ ys) past above =
    let apart : bytes_equal y.0 k ≡ false = elim (Bool-cases (bytes_equal y.0 k)) [
      | inl same ↦
          let reached : bytes_leb j k ≡ true =
            subst (λ t. bytes_leb j t ≡ true) (bytes_equal→eq y.0 k same) above.0 in
          cc (reached, past)
      | inr other ↦ other
    ] in
    ground (arith, bytes_leb_trans j y.0 k, insert_item-later ps j k v ys past above.1)

-- A write under the prefix is the same write among the items under it.
pub under_prefix-insert_under :
    (ps k : Bytes) (v : Option Bytes) (xs : List Item)
    → has_prefix ps k ≡ true
    → IsSorted xs
    → under_prefix ps (insert_item k v xs) ≡ insert_item k v (under_prefix ps xs)
unfolding insert_item under_prefix
under_prefix-insert_under ps k v [] h sorted = rw h
under_prefix-insert_under ps k v ((j, u) ∷ xs) h sorted = elim (Bool-cases (bytes_equal j k)) [
  | inl same ↦
      let at : has_prefix ps j ≡ true =
        subst (λ t. has_prefix ps t ≡ true) (sym (bytes_equal→eq j k same)) h in
      ground arith
  | inr other ↦ elim (Bool-cases (bytes_leb j k)) [
    | inl le ↦ ground (arith, under_prefix-insert_under ps k v xs h sorted.1)
    | inr past ↦ ground (arith, insert_item-later ps j k v xs past sorted.0)
  ]
]
