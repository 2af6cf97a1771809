-- ===== src/World/Climbs.antt =====
-- Walks up from a key that is sought: what the program's forward iterators see under a prefix.
use bftraft4go.Prelude.{
  ◌≡◌, refl, sym, ap, true, false, List, [], ◌∷◌, ◌++◌, arith, Bytes, All, Bool-cases, inl, inr,
}
use bftraft4go.Encoding.Order.{bytes_leb, bytes_leb_trans}
use bftraft4go.World.Keyed.{Item, IsSorted, has_prefix, seek, under_prefix}
use bftraft4go.World.Walks.{taken}

-- A key between one that extends the prefix and one under the prefix is under it.
has_prefix_above :
    (ps s b c : Bytes)
    → bytes_leb (ps ++ s) b ≡ true
    → bytes_leb b c ≡ true
    → has_prefix ps c ≡ true
    → has_prefix ps b ≡ true
unfolding has_prefix bytes_leb
has_prefix_above [] s b c le ge h = refl
has_prefix_above (p ∷ ps) s [] c le ge h = ground arith
has_prefix_above (p ∷ ps) s (x ∷ b) [] le ge h = ground arith
has_prefix_above (p ∷ ps) s (x ∷ b) (y ∷ c) le ge h = ground (arith, has_prefix_above ps s b c)

module _ (ps s : Bytes) where
  none_above :
      (x : Item) (xs : List Item)
      → bytes_leb (ps ++ s) x.0 ≡ true
      → has_prefix ps x.0 ≡ false
      → All (λ (y : Item). bytes_leb x.0 y.0 ≡ true) xs
      → under_prefix ps xs ≡ []
  unfolding under_prefix
  none_above x [] from out above = refl
  none_above x (y ∷ ys) from out above =
      ground (arith, has_prefix_above ps s x.0 y.0, none_above x ys from out above.1)

  taken-eq-under :
      (xs : List Item)
      → IsSorted xs
      → All (λ (y : Item). bytes_leb (ps ++ s) y.0 ≡ true) xs
      → taken ps xs ≡ under_prefix ps xs
  unfolding taken under_prefix
  taken-eq-under [] sorted from = refl
  taken-eq-under (x ∷ xs) sorted from = elim (Bool-cases (has_prefix ps x.0)) [
    | inl at ↦ rw at (ap (λ t. x ∷ t) (taken-eq-under xs sorted.1 from.1))
    | inr out ↦ rw out (sym (none_above x xs from.0 out sorted.0))
  ]

  from_head :
      (x : Item) (xs : List Item)
      → bytes_leb (ps ++ s) x.0 ≡ true
      → All (λ (y : Item). bytes_leb x.0 y.0 ≡ true) xs
      → All (λ (y : Item). bytes_leb (ps ++ s) y.0 ≡ true) xs
  from_head x [] from above = tt
  from_head x (y ∷ ys) from above =
      (bytes_leb_trans (ps ++ s) x.0 y.0 from above.0, from_head x ys from above.1)

  seek_all :
      (xs : List Item)
      → All (λ (y : Item). bytes_leb (ps ++ s) y.0 ≡ true) xs
      → seek (ps ++ s) (under_prefix ps xs) ≡ under_prefix ps xs
  unfolding seek under_prefix
  seek_all [] from = refl
  seek_all (x ∷ xs) from = ground (arith, seek_all xs from.1)

  -- Under the prefix, an iterator that seeks a key of the prefix passes what a seek among the items
  -- under the prefix leaves.
  pub taken-seek :
      (xs : List Item)
      → IsSorted xs
      → taken ps (seek (ps ++ s) xs) ≡ seek (ps ++ s) (under_prefix ps xs)
  unfolding seek taken
  taken-seek [] sorted = unfold taken seek under_prefix in refl
  taken-seek (x ∷ xs) sorted = elim (Bool-cases (bytes_leb (ps ++ s) x.0)) [
    | inl from ↦
        let all = from_head x xs from sorted.0 in
        rw (from, seek)
          (rw (seek_all (x ∷ xs) (from, all)) (taken-eq-under (x ∷ xs) sorted (from, all)))
    | inr before ↦ rw (before, seek) (rw (taken-seek xs sorted.1) (later before))
  ]
    where
      later :
          bytes_leb (ps ++ s) x.0 ≡ false
          → seek (ps ++ s) (under_prefix ps xs) ≡ seek (ps ++ s) (under_prefix ps (x ∷ xs))
      later before = unfold seek under_prefix in ground arith
