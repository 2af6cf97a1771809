-- ===== src/Consensus/Counting.antt =====
-- Counting answers: the map that `PickMajority` builds, and why two values cannot both be frequent.
use bftraft4go.Prelude.{
  ℕ, zero, suc, ◌+◌, ◌*◌, ◌≤◌, ◌<◌, ◌≡◌, ◌≢◌, ◌∙◌, inl, inr, Option-cases, Option, none, some, List,
  [], ◌∷◌, arith, ◌==◌, if◌then◌else◌, length, Map, IsUnique, lookup, insert, lookup-insert,
  insert-IsUnique,
}
use bftraft4go.Consensus.{expected_players, bump, count_hashes}

-- How often `a` stands in a list.
unfoldable pub count : ℕ → List ℕ → ℕ
count a [] = 0
count a (x ∷ xs) = let rest = count a xs in if x == a then suc rest else rest

pub count_pair : (a b : ℕ) (xs : List ℕ) → a ≢ b → count a xs + count b xs ≤ length xs
unfolding count
count_pair a b [] h = omega arith
count_pair a b (x ∷ xs) h = ground (arith, count_pair a b xs)

-- Twice `ExpectedPlayers` of a number is more than the number.
pub expected_players-majority : (num : ℕ) → num < 2 * expected_players num
unfolding expected_players
expected_players-majority num = ground arith

-- A quorum can be met by the players there are, but for a group of none.
pub expected_players-le : (num : ℕ) → 0 < num → expected_players num ≤ num
unfolding expected_players
expected_players-le num h = ground arith

pub expected_players-pos : (num : ℕ) → 0 < expected_players num
expected_players-pos num = omega (arith, expected_players-majority num)

-- What the map holds of a key after `c` more answers with it.
abbrev tally : Option ℕ → ℕ → Option ℕ
tally (some n) c = some (n + c)
tally none zero = none
tally none (suc c) = some (suc c)

lookup-bump :
    (h k : ℕ) (m : Map ℕ)
    → lookup k (bump h m) ≡ (if h == k then tally (lookup k m) 1 else lookup k m)
unfolding bump
lookup-bump h k m = elim (Option-cases (lookup h m)) [
  | inl new ↦ rw (new, bump) (ground (arith, lookup-insert h k 1 m, new))
  | inr (n, old) ↦ rw (old, bump) (ground (arith, lookup-insert h k (n + 1) m, old))
]

bump-IsUnique : (h : ℕ) (m : Map ℕ) → IsUnique m → IsUnique (bump h m)
unfolding bump
bump-IsUnique h m u =
    elim (lookup h m)
      as (λ o. IsUnique (elim o [ some n ↦ insert h (n + 1) m | none ↦ insert h 1 m ])) [
        | none ↦ insert-IsUnique h 1 m u
        | some n ↦ insert-IsUnique h (n + 1) m u
      ]

pub count_hashes-IsUnique : (m : Map ℕ) (hs : List ℕ) → IsUnique m → IsUnique (count_hashes m hs)
unfolding count_hashes
count_hashes-IsUnique m [] u = u
count_hashes-IsUnique m (h ∷ hs) u = count_hashes-IsUnique (bump h m) hs (bump-IsUnique h m u)

tally-tally : (o : Option ℕ) (c : ℕ) → tally (tally o 1) c ≡ tally o (suc c)
tally-tally none c = ground arith
tally-tally (some n) c = ground arith

lookup-count_hashes_from :
    (k : ℕ) (m : Map ℕ) (hs : List ℕ)
    → lookup k (count_hashes m hs) ≡ tally (lookup k m) (count k hs)
unfolding count_hashes count
lookup-count_hashes_from k m [] = ground arith
lookup-count_hashes_from k m (h ∷ hs) =
    lookup-count_hashes_from k (bump h m) hs
    ∙ ground (arith, lookup-bump h k m, tally-tally (lookup k m) (count k hs))

-- After the first loop of `PickMajority` the map holds each value that occurs, with the number of
-- its occurrences, and no other.
pub lookup-count_hashes :
    (k : ℕ) (hs : List ℕ)
    → lookup k (count_hashes [] hs) ≡ (if count k hs == 0 then none else some (count k hs))
lookup-count_hashes k hs = lookup-count_hashes_from k [] hs ∙ unfold lookup in ground arith
