-- ===== src/Consensus/Majority.antt =====
-- What `PickMajority` and `MajorityResponse` answer, whatever the order in which Go visits a map.
use mathlib.Core.List.{append-nil, append_assoc}
use bftraft4go.Prelude.{
  ℕ, ◌≤◌, ◌<◌, ◌≡◌, ◌≢◌, refl, sym, ap, ◌⊎◌, ◌∙◌, inl, inr, Option-cases, Bool-cases, Option, none,
  some, List, [], ◌∷◌, ◌++◌, arith, Bytes, ◌==◌, if◌then◌else◌, length, Map, Elem, IsRange, lookup,
  insert, lookup-insert, lookup→Elem, Elem→lookup,
}
use bftraft4go.Consensus.{
  expected_players, count_hashes, first_reaching, pick_majority, FuncResult, collect, settle,
  majority_response,
}
use bftraft4go.Consensus.Counting.{
  count, count_pair, expected_players-majority, expected_players-pos, count_hashes-IsUnique,
  lookup-count_hashes,
}

-- A value that a quorum of the answers agrees on.
abbrev pub IsMajority : ℕ → List ℕ → Type 0
IsMajority r hashes = expected_players (length hashes) ≤ count r hashes

-- Two quorums of the same answers agree.
pub IsMajority-unique :
    (r q : ℕ) (hashes : List ℕ) → IsMajority r hashes → IsMajority q hashes → r ≡ q
IsMajority-unique r q hashes hr hq = elim (Bool-cases (r == q)) [
  | inl same ↦ ground arith
  | inr other ↦ absurd (
      omega
        (arith, expected_players-majority (length hashes), count_pair r q hashes (ground arith)))
]

first_reaching-eq :
    (expected r : ℕ) (entries : Map ℕ)
    → ((h c : ℕ) → Elem (h, c) entries → expected ≤ c → h ≡ r)
    → (c : ℕ) → Elem (r, c) entries
    → expected ≤ c
    → first_reaching expected entries ≡ r
unfolding first_reaching
first_reaching-eq expected r [] only c e le = elim e [ ]
first_reaching-eq expected r ((h, d) ∷ entries) only c (inl e) le =
    ground (arith, only h d (inl refl))
first_reaching-eq expected r ((h, d) ∷ entries) only c (inr e) le = ground (
  arith,
  only h d (inl refl),
  first_reaching-eq expected r entries (λ k n i. only k n (inr i)) c e le,
)

first_reaching-zero :
    (expected : ℕ) (entries : Map ℕ)
    → ((h c : ℕ) → Elem (h, c) entries → c < expected)
    → first_reaching expected entries ≡ 0
unfolding first_reaching
first_reaching-zero expected [] short = refl
first_reaching-zero expected ((h, c) ∷ entries) short =
    ground (
      arith,
      short h c (inl refl),
      first_reaching-zero expected entries (λ k n i. short k n (inr i)),
    )

module _ (range : Map ℕ → Map ℕ) (visits : IsRange range) (hashes : List ℕ) where
  -- An entry that the second loop of `PickMajority` meets tells the number of occurrences.
  pub entry-count : (h c : ℕ) → Elem (h, c) (range (count_hashes [] hashes)) → c ≡ count h hashes
  entry-count h c e = ground (
    arith,
    lookup-count_hashes h hashes,
    Elem→lookup h c _ (count_hashes-IsUnique [] hashes tt) ((visits _ _).0 e),
  )

  -- If a quorum of the answers (`ExpectedPlayers`) is the value `r`, `PickMajority` returns `r`,
  -- in whatever order the map of counts is visited.
  pub pick_majority-eq : (r : ℕ) → IsMajority r hashes → pick_majority range hashes ≡ r
  unfolding pick_majority
  pick_majority-eq r major =
      first_reaching-eq _ r _
        (λ h c e le. IsMajority-unique h r hashes (omega (arith, entry-count h c e)) major)
        (count r hashes)
        ((visits _ _).1 (
          lookup→Elem _ _ _
            (ground (arith, lookup-count_hashes r hashes, expected_players-pos (length hashes)))))
        major

  -- If no value is a quorum of the answers, `PickMajority` returns 0, in whatever order the map of
  -- counts is visited.
  pub pick_majority-zero : ((r : ℕ) → ¬ IsMajority r hashes) → pick_majority range hashes ≡ 0
  unfolding pick_majority
  pick_majority-zero nobody =
      first_reaching-zero (expected_players (length hashes)) (range (count_hashes [] hashes))
        λ h c e. omega (arith, entry-count h c e, nobody h)

module _ {A : Type 0} (hash_data : Bytes → ℕ) where
  -- The features of the answers that are not nil, hashed.
  unfoldable pub hashes_of : List (FuncResult A) → List ℕ
  hashes_of [] = []
  hashes_of (fr ∷ frs) = elim fr.result [
    | none ↦ hashes_of frs
    | some val ↦ hash_data fr.feature ∷ hashes_of frs
  ]

  collect-hashes :
      (hashes : List ℕ) (vals : Map A) (frs : List (FuncResult A))
      → (collect hash_data hashes vals frs).0 ≡ hashes ++ hashes_of frs
  unfolding collect hashes_of
  collect-hashes hashes vals [] = sym (append-nil hashes)
  collect-hashes hashes vals (fr ∷ frs) = elim (Option-cases fr.result) [
    | inl nil ↦ rw (nil, collect) (collect-hashes hashes vals frs)
    | inr (val, e) ↦
        rw (e, collect)
          (collect-hashes (hashes ++ hash_data fr.feature ∷ [])
              (insert (hash_data fr.feature) val vals) frs
            ∙ append_assoc hashes (hash_data fr.feature ∷ []) (hashes_of frs))
  ]

  -- The answer that `vals` ends up with under a hash: the last one that arrived with it.
  pub last_with : ℕ → Option A → List (FuncResult A) → Option A
  last_with h found [] = found
  last_with h found (fr ∷ frs) = elim fr.result [
    | none ↦ last_with h found frs
    | some val ↦ last_with h (if hash_data fr.feature == h then some val else found) frs
  ]

  collect-vals :
      (h : ℕ) (hashes : List ℕ) (vals : Map A) (frs : List (FuncResult A))
      → lookup h (collect hash_data hashes vals frs).1 ≡ last_with h (lookup h vals) frs
  unfolding collect last_with
  collect-vals h hashes vals [] = refl
  collect-vals h hashes vals (fr ∷ frs) = elim (Option-cases fr.result) [
    | inl nil ↦ rw (nil, collect) (collect-vals h hashes vals frs)
    | inr (val, e) ↦
        rw (e, collect)
          (collect-vals h (hashes ++ hash_data fr.feature ∷ [])
              (insert (hash_data fr.feature) val vals) frs
            ∙ ap (λ o. last_with h o frs) (lookup-insert (hash_data fr.feature) h val vals))
  ]

  -- The value `v` came with a feature that hashes to `h`.
  abbrev pub IsAnswer : ℕ → A → List (FuncResult A) → Type 0
  IsAnswer h v frs =
      (fr : FuncResult A) × Elem fr frs × (fr.result ≡ some v) × (hash_data fr.feature ≡ h)

  last_with-keeps :
      (P : A → Type 0) (h : ℕ) (found : Option A) (frs : List (FuncResult A))
      → ((v : A) → found ≡ some v → P v)
      → ((v : A) → IsAnswer h v frs → P v)
      → (v : A) → last_with h found frs ≡ some v
      → P v
  unfolding last_with
  last_with-keeps P h found [] old new v e = old v e
  last_with-keeps P h found (fr ∷ frs) old new v e = elim (Option-cases fr.result) [
    | inl nil ↦
        last_with-keeps P h found frs old (λ w a. new w (a.0, inr a.1, a.2, a.3)) v
          (rw (nil, last_with) at e)
    | inr (val, r) ↦
        last_with-keeps P h (if hash_data fr.feature == h then some val else found) frs
          (λ w f. elim (Bool-cases (hash_data fr.feature == h)) [
            | inl same ↦ new w (fr, inl refl, r ∙ (rw same at f), ground arith)
            | inr other ↦ old w (rw other at f)
          ])
          (λ w a. new w (a.0, inr a.1, a.2, a.3)) v (rw (r, last_with) at e)
  ]

  last_with-some :
      (h : ℕ) (found : Option A) (frs : List (FuncResult A))
      → (found ≢ none) ⊎ (0 < count h (hashes_of frs))
      → last_with h found frs ≢ none
  unfolding last_with hashes_of count
  last_with-some h found [] (inl f) = f
  last_with-some h found [] (inr f) = absurd (omega arith)
  last_with-some h found (fr ∷ frs) f = elim (Option-cases fr.result) [
    | inl nil ↦ rw (nil, last_with) (last_with-some h found frs (rw (nil, hashes_of) at f))
    | inr (val, r) ↦
        rw (r, last_with)
          (last_with-some h (if hash_data fr.feature == h then some val else found) frs
            (keeps_found val (rw (r, hashes_of) at f)))
  ]
    where
      keeps_found :
          (val : A)
          → (found ≢ none) ⊎ (0 < count h (hash_data fr.feature ∷ hashes_of frs))
          → ((if hash_data fr.feature == h then some val else found) ≢ none)
            ⊎ (0 < count h (hashes_of frs))
      keeps_found val g = elim (Bool-cases (hash_data fr.feature == h)) [
        | inl same ↦ inl (rw same (λ e. cc))
        | inr other ↦ rw other (rw (other, count) at g)
      ]

  module _ (range : Map ℕ → Map ℕ) (visits : IsRange range) (range_vals : Map A → Map A) where
    settle-some :
        (p : List ℕ × Map A) (v : A)
        → lookup (pick_majority range p.0) p.1 ≡ some v
        → settle hash_data range range_vals p ≡ some v
    unfolding settle
    settle-some p v e = rw (e, settle)

    -- If a quorum of the answers that are not nil has features with the hash `h`,
    -- `MajorityResponse` returns one of these answers, in whatever order the maps are visited.
    pub majority_response-eq :
        (h : ℕ) (answers : List (FuncResult A))
        → IsMajority h (hashes_of answers)
        → (v : A) × (majority_response hash_data range range_vals answers ≡ some v)
          × IsAnswer h v answers
    unfolding majority_response lookup
    majority_response-eq h answers major = elim (Option-cases (last_with h none answers)) [
      | inl nil ↦ absurd (
          last_with-some h none answers
            (inr (omega (arith, expected_players-pos (length (hashes_of answers))))) nil)
      | inr (v, e) ↦ (
        v,
        settle-some (collect hash_data [] [] answers) v (
            ap (λ k. lookup k (collect hash_data [] [] answers).1)
              (ap (pick_majority range) (collect-hashes [] [] answers)
                ∙ pick_majority-eq range visits _ h major)
            ∙ collect-vals h [] [] answers
            ∙ e),
        last_with-keeps (λ w. IsAnswer h w answers) h none answers (λ w f. cc) (λ w a. a) v e,
      )
    ]
