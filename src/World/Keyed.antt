-- ===== src/World/Keyed.antt =====
-- Items in the order of their keys: what badger documents of its iterators, and the two ways in which
-- the program seeks in them.
use bftraft4go.Prelude.{
  ◌≡◌, refl, Bool, true, false, ◌&&◌, Option, none, some, List, [], ◌∷◌, ◌++◌, arith, Bytes, All,
  bytes_equal, ◌==◌, if◌then◌else◌, reverse,
}
use bftraft4go.Encoding.Order.{bytes_leb}

abbrev pub Item : Type 0
Item = Bytes × Option Bytes

-- Each key is at or before all keys that follow.
abbrev pub IsSorted : List Item → Type 0
IsSorted [] = Unit
IsSorted (x ∷ xs) = All (λ (y : Item). bytes_leb x.0 y.0 ≡ true) xs × IsSorted xs

unfoldable pub find_item : Bytes → List Item → Option (Option Bytes)
find_item k [] = none
find_item k ((j, v) ∷ xs) = if bytes_equal j k then some v else find_item k xs

unfoldable pub insert_item : Bytes → Option Bytes → List Item → List Item
insert_item k v [] = (k, v) ∷ []
insert_item k v ((j, u) ∷ xs) =
    if bytes_equal j k
    then (k, v) ∷ xs
    else if bytes_leb j k
    then (j, u) ∷ insert_item k v xs
    else (k, v) ∷ (j, u) ∷ xs

-- `bytes.HasPrefix(key, prefix)`
unfoldable pub has_prefix : Bytes → Bytes → Bool
has_prefix [] key = true
has_prefix (p ∷ ps) [] = false
has_prefix (p ∷ ps) (b ∷ bs) = (p == b) && has_prefix ps bs

-- `iter.Seek(key)`: what is left for an iterator that goes up from the first key at or after `key`.
unfoldable pub seek : Bytes → List Item → List Item
seek key [] = []
seek key (x ∷ xs) = if bytes_leb key x.0 then x ∷ xs else seek key xs

-- The same for a reverse iterator, which is given the items last one first.
unfoldable pub seek_down : Bytes → List Item → List Item
seek_down key [] = []
seek_down key (x ∷ xs) = if bytes_leb x.0 key then x ∷ xs else seek_down key xs

unfoldable pub reverse_seek : Bytes → List Item → List Item
unfolding seek_down
reverse_seek key xs = seek_down key (reverse xs)

-- The items under a prefix, in order: what the two walks are about.
unfoldable pub under_prefix : Bytes → List Item → List Item
under_prefix prefix [] = []
under_prefix prefix (x ∷ xs) =
    let rest = under_prefix prefix xs in if has_prefix prefix x.0 then x ∷ rest else rest

pub has_prefix-append : (ps bs : Bytes) → has_prefix ps (ps ++ bs) ≡ true
unfolding has_prefix
has_prefix-append [] bs = refl
has_prefix-append (p ∷ ps) bs = ground (arith, has_prefix-append ps bs)

-- Keys with a common prefix stand together.
pub has_prefix_between :
    (ps a b s : Bytes)
    → has_prefix ps a ≡ true
    → bytes_leb a b ≡ true
    → bytes_leb b (ps ++ s) ≡ true
    → has_prefix ps b ≡ true
unfolding has_prefix bytes_leb
has_prefix_between [] a b s h le ge = refl
has_prefix_between (p ∷ ps) [] b s h le ge = ground arith
has_prefix_between (p ∷ ps) (x ∷ a) [] s h le ge = ground arith
has_prefix_between (p ∷ ps) (x ∷ a) (y ∷ b) s h le ge = ground (arith, has_prefix_between ps a b s)

abbrev pub Falls : List Item → Type 0
Falls [] = Unit
Falls (x ∷ xs) = All (λ (y : Item). bytes_leb y.0 x.0 ≡ true) xs × Falls xs

-- What a walk down sees first, if it stops outside of the prefix.
unfoldable pub current : Bytes → List Item → Option Item
current prefix [] = none
current prefix (x ∷ xs) = if has_prefix prefix x.0 then some x else none

unfoldable pub first_of_items : List Item → Option Item
first_of_items [] = none
first_of_items (x ∷ xs) = some x
