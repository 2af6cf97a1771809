-- ===== src/Client/Counts.antt =====
-- Results of a command and their hashes.
use bftraft4go.Prelude.{
  ℕ, suc, ◌≤◌, ◌<◌, ◌≡◌, ◌≢◌, refl, sym, ap, ◌∙◌, subst, true, false, Option, none, some, List, [],
  ◌∷◌, arith, Bytes, bytes_equal, bytes_equal→eq, bytes_equal_refl, leb, ◌==◌, ==_iff,
  if◌then◌else◌, length, Map, Elem, IsRange, Bool-cases, inl, inr, ◌⊎◌,
}
use bftraft4go.Consensus.{expected_players, first_reaching, pick_majority, count_hashes}
use bftraft4go.Consensus.Counting.{count}
use bftraft4go.Consensus.Majority.{IsMajority, entry-count}

first_reaching_sound :
    (expected h : ℕ) (entries : Map ℕ)
    → first_reaching expected entries ≡ h
    → h ≢ 0
    → (c : ℕ) × Elem (h, c) entries × (expected ≤ c)
unfolding first_reaching
first_reaching_sound expected h [] e nonzero = absurd (nonzero (sym e))
first_reaching_sound expected h ((k, c) ∷ entries) e nonzero = elim (Bool-cases (leb expected c)) [
  | inl enough ↦
      let same : k ≡ h = rw enough at e in (c, inl (ap (λ i. (i, c)) (sym same)), ground arith)
  | inr few ↦
      let (d, at, le) = first_reaching_sound expected h entries (rw few at e) nonzero in
      (d, inr at, le)
]

-- A majority that `PickMajority` finds is one.
pub pick_majority_sound :
    (range : Map ℕ → Map ℕ) (hashes : List ℕ) (h : ℕ)
    → IsRange range
    → pick_majority range hashes ≡ h
    → h ≢ 0
    → IsMajority h hashes
unfolding pick_majority
pick_majority_sound range hashes h visits e nonzero =
    let (c, at, le) =
      first_reaching_sound (expected_players (length hashes)) h (range (count_hashes [] hashes)) e
        nonzero in
    omega (arith, entry-count range visits hashes h c at)

-- How often a result stands among the results.
unfoldable pub count_bytes : Bytes → List Bytes → ℕ
count_bytes r [] = 0
count_bytes r (x ∷ xs) = let rest = count_bytes r xs in if bytes_equal x r then suc rest else rest

module _ (hash_data : Bytes → ℕ) where
  unfoldable pub hashes : List Bytes → List ℕ
  hashes [] = []
  hashes (x ∷ xs) = hash_data x ∷ hashes xs

  -- The hash tells the results apart.
  abbrev pub Apart : List Bytes → Type 0
  Apart results =
      (x y : Bytes) → Elem x results → Elem y results → hash_data x ≡ hash_data y → x ≡ y

  pub length-hashes : (xs : List Bytes) → length (hashes xs) ≡ length xs
  unfolding hashes
  length-hashes [] = refl
  length-hashes (x ∷ xs) = omega (arith, length-hashes xs)

  -- Under such a hash a result is as frequent as its hash.
  pub count-hashes :
      (r : Bytes) (xs : List Bytes)
      → ((x : Bytes) → Elem x xs → hash_data x ≡ hash_data r → x ≡ r)
      → count (hash_data r) (hashes xs) ≡ count_bytes r xs
  unfolding count hashes count_bytes
  count-hashes r [] apart = refl
  count-hashes r (x ∷ xs) apart =
      let rest = count-hashes r xs (λ y at. apart y (inr at)) in
      elim (Bool-cases (bytes_equal x r)) [
        | inl same ↦
            let e : (hash_data x == hash_data r) ≡ true =
              (==_iff _ _).1 (ap hash_data (bytes_equal→eq x r same)) in
            rw e (rw same (omega (arith, rest)))
        | inr other ↦
            let e : (hash_data x == hash_data r) ≡ false =
              elim (Bool-cases (hash_data x == hash_data r)) [
                | inr d ↦ d
                | inl same ↦
                    let x-eq : x ≡ r = apart x (inl refl) ((==_iff _ _).0 same) in
                    let bad : bytes_equal x r ≡ true =
                      subst (λ t. bytes_equal x t ≡ true) x-eq (bytes_equal_refl x) in
                    cc (bad, other)
              ] in
            rw e (rw other rest)
      ]

  -- The last result under a hash.
  unfoldable pub last_of : ℕ → Option Bytes → List Bytes → Option Bytes
  last_of h found [] = found
  last_of h found (x ∷ xs) = last_of h (if hash_data x == h then some x else found) xs

  pub last_of-hash :
      (h : ℕ) (found : Option Bytes) (xs : List Bytes) (v : Bytes)
      → last_of h found xs ≡ some v
      → (found ≡ some v) ⊎ (Elem v xs × (hash_data v ≡ h))
  unfolding last_of
  last_of-hash h found [] v e = inl e
  last_of-hash h found (x ∷ xs) v e =
      elim (last_of-hash h (if hash_data x == h then some x else found) xs v e) [
        | inr at ↦ inr (inr at.0, at.1)
        | inl here ↦ elim (Bool-cases (hash_data x == h)) [
          | inl same ↦
              let x-eq : some x ≡ some v = rw same at here in
              let v-eq : v ≡ x = cc (x-eq) in
              inr (inl v-eq, ap hash_data v-eq ∙ (==_iff _ _).0 same)
          | inr other ↦ inl (rw other at here)
        ]
      ]

  pub last_of-some :
      (h : ℕ) (found : Option Bytes) (xs : List Bytes)
      → (found ≢ none) ⊎ (0 < count h (hashes xs))
      → last_of h found xs ≢ none
  unfolding last_of hashes count
  last_of-some h found [] (inl f) = f
  last_of-some h found [] (inr f) = absurd (omega arith)
  last_of-some h found (x ∷ xs) f =
      last_of-some h (if hash_data x == h then some x else found) xs
        (elim (Bool-cases (hash_data x == h)) [
          | inl same ↦ inl (rw same (λ e. cc))
          | inr other ↦ rw other (rw (other, count) at f)
        ])
