-- ===== src/Consensus.antt =====
-- utils/consensus.go: quorum sizes, the vote over answers, and the answer of a majority.
pub mod Counting
pub mod Majority
use bftraft4go.Prelude.{
  ℕ, ◌+◌, ◌/◌, ◌≡◌, refl, Option, none, some, List, [], ◌∷◌, ◌++◌, Bytes, ltb, leb, ◌==◌,
  if◌then◌else◌, length, Map, lookup, insert,
}

-- `ExpectedPlayers`
unfoldable pub expected_players : ℕ → ℕ
expected_players num =
    if num == 0
    then 1
    else if num == 1
    then 1
    else if num == 2
    then 2
    else if num == 3
    then 2
    else if ltb num 5
    then 3
    else num / 2 + 1

-- The first loop of `PickMajority`, one round.
unfoldable pub bump : ℕ → Map ℕ → Map ℕ
bump hash count_map = elim (lookup hash count_map) [
  | some num ↦ insert hash (num + 1) count_map
  | none ↦ insert hash 1 count_map
]

unfoldable pub count_hashes : Map ℕ → List ℕ → Map ℕ
count_hashes count_map [] = count_map
count_hashes count_map (hash ∷ hashes) = count_hashes (bump hash count_map) hashes

-- The second loop of `PickMajority`, over the entries in the order in which `range` visits them.
unfoldable pub first_reaching : ℕ → Map ℕ → ℕ
first_reaching expected [] = 0
first_reaching expected ((hash, count) ∷ rest) =
    if leb expected count then hash else first_reaching expected rest

-- `PickMajority`
unfoldable pub pick_majority : (Map ℕ → Map ℕ) → List ℕ → ℕ
unfolding count_hashes first_reaching
pick_majority range hashes =
    first_reaching (expected_players (length hashes)) (range (count_hashes [] hashes))

-- `FuncResult`; a nil `Result` is `none`.
pub record FuncResult {ℓ} (A : Type ℓ) : Type ℓ where
  pub result : Option A
  pub feature : Bytes

module _ {ℓ} {A : Type ℓ} (hash_data : Bytes → ℕ) where
  -- The collecting loop of `MajorityResponse`: an answer that is nil is passed over.
  unfoldable pub collect : List ℕ → Map A → List (FuncResult A) → List ℕ × Map A
  collect hashes vals [] = (hashes, vals)
  collect hashes vals (fr ∷ frs) = elim fr.result [
    | none ↦ collect hashes vals frs
    | some val ↦
        collect (hashes ++ hash_data fr.feature ∷ []) (insert (hash_data fr.feature) val vals) frs
  ]

  -- The second half of `MajorityResponse`. With no majority it takes what `range` visits first.
  unfoldable pub settle : (Map ℕ → Map ℕ) → (Map A → Map A) → List ℕ × Map A → Option A
  settle range range_vals (hashes, vals) = elim (lookup (pick_majority range hashes) vals) [
    | some val ↦ some val
    | none ↦ elim (range_vals vals) [ [] ↦ none | (k, v) ∷ rest ↦ some v ]
  ]

  -- `MajorityResponse`, over the answers in the order of their arrival. A client that does not
  -- answer within ten seconds is an answer with a nil result.
  unfoldable pub majority_response :
      (Map ℕ → Map ℕ) → (Map A → Map A) → List (FuncResult A) → Option A
  unfolding collect settle
  majority_response range range_vals answers = settle range range_vals (collect [] [] answers)

pick_three : pick_majority (λ m. m) (7 ∷ 9 ∷ 7 ∷ []) ≡ 7
unfolding pick_majority expected_players bump lookup insert
pick_three = refl
