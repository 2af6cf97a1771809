-- ===== src/Client/Results.antt =====
-- The result of a command that a client takes from its answers.
use mathlib.Core.List.{append_assoc, append-nil}
use bftraft4go.Prelude.{
  ℕ, zero, suc, ◌≤◌, ◌<◌, ◌≡◌, ◌≢◌, refl, sym, ap, ◌∙◌, subst, false, Option, none, some, List, [],
  ◌∷◌, ◌++◌, arith, Bytes, bytes_equal, bytes_equal→eq, ltb, length, take, Map, Elem, IsRange,
  lookup, insert, lookup-insert, Bool-cases, Option-cases, inl, inr, ◌↔◌,
}
use bftraft4go.Outcome.{ok, err, no_response}
use bftraft4go.World.{World}
use bftraft4go.Consensus.{expected_players, pick_majority}
use bftraft4go.Consensus.Counting.{count, expected_players-pos}
use bftraft4go.Consensus.Majority.{IsMajority, pick_majority-eq}
use bftraft4go.Client.Counts.{
  pick_majority_sound, count_bytes, hashes, Apart, length-hashes, count-hashes, last_of,
  last_of-hash, last_of-some,
}
use bftraft4go.AlphaNodes.{ClientNet, Reading}
use bftraft4go.Client.{receive, majority_data, wait_results}

length-take : (n : ℕ) (xs : List Bytes) → n ≤ length xs → length (take n xs) ≡ n
length-take zero xs le = refl
length-take (suc n) [] le = absurd (omega arith)
length-take (suc n) (x ∷ xs) le = omega (arith, length-take n xs (omega arith))

Elem-of_count : (r : Bytes) (xs : List Bytes) → 0 < count_bytes r xs → Elem r xs
unfolding count_bytes
Elem-of_count r [] pos = absurd (omega arith)
Elem-of_count r (x ∷ xs) pos = elim (Bool-cases (bytes_equal x r)) [
  | inl same ↦ inl (sym (bytes_equal→eq x r same))
  | inr other ↦ inr (Elem-of_count r xs (rw other at pos))
]

module _ (w : World) (reading : Reading) (net : ClientNet) (now : ℕ)
    (visits : IsRange reading.range) where
  open reading use {hash_data, range}

  receive-hashes :
      (hs : List ℕ) (m : Map Bytes) (xs : List Bytes)
      → (receive w reading net now hs m xs).0 ≡ hs ++ hashes hash_data xs
  unfolding receive hashes
  receive-hashes hs m [] = sym (append-nil hs)
  receive-hashes hs m (x ∷ xs) =
      receive-hashes (hs ++ hash_data x ∷ []) (insert (hash_data x) x m) xs
      ∙ append_assoc hs (hash_data x ∷ []) (hashes hash_data xs)

  lookup-receive :
      (h : ℕ) (hs : List ℕ) (m : Map Bytes) (xs : List Bytes)
      → lookup h (receive w reading net now hs m xs).1 ≡ last_of hash_data h (lookup h m) xs
  unfolding receive last_of
  lookup-receive h hs m [] = refl
  lookup-receive h hs m (x ∷ xs) =
      lookup-receive h (hs ++ hash_data x ∷ []) (insert (hash_data x) x m) xs
      ∙ ap (λ o. last_of hash_data h o xs) (lookup-insert (hash_data x) h x m)

  abbrev bytes_of : Option Bytes → Bytes
  bytes_of none = []
  bytes_of (some bytes) = bytes

  majority_data-eq :
      (xs : List Bytes)
      → majority_data w reading net now (receive w reading net now [] [] xs)
        ≡ bytes_of (last_of hash_data (pick_majority range (hashes hash_data xs)) none xs)
  unfolding majority_data lookup
  majority_data-eq xs = ap bytes_of (
      lookup-receive (pick_majority range (receive w reading net now [] [] xs).0) [] [] xs
      ∙ ap (λ t. last_of hash_data (pick_majority range t) none xs) (receive-hashes [] [] xs))

  -- A result that a quorum agrees on is the one that is taken.
  majority_data-majority :
      (r : Bytes) (xs : List Bytes)
      → Apart hash_data xs
      → expected_players (length xs) ≤ count_bytes r xs
      → bytes_of (last_of hash_data (pick_majority range (hashes hash_data xs)) none xs) ≡ r
  majority_data-majority r xs apart enough =
      let among : Elem r xs =
        Elem-of_count r xs (omega (arith, expected_players-pos (length xs))) in
      let frequent = count-hashes hash_data r xs (λ x at. apart x r at among) in
      let major : IsMajority (hash_data r) (hashes hash_data xs) =
        rw (length-hashes hash_data xs) (rw frequent enough) in
      let picked = pick_majority-eq range visits (hashes hash_data xs) (hash_data r) major in
      rw picked (elim (Option-cases (last_of hash_data (hash_data r) none xs)) [
        | inl nil ↦ absurd (
            last_of-some hash_data (hash_data r) none xs
              (inr (omega (arith, frequent, expected_players-pos (length xs)))) nil)
        | inr (v, found) ↦ elim (last_of-hash hash_data (hash_data r) none xs v found) [
          | inl gone ↦ cc (gone)
          | inr at ↦ rw found (apart v r at.0 among at.1)
        ]
      ])

  majority_data_sound :
      (d : Bytes) (xs : List Bytes)
      → Apart hash_data xs
      → ((x : Bytes) → Elem x xs → hash_data x ≢ 0)
      → bytes_of (last_of hash_data (pick_majority range (hashes hash_data xs)) none xs) ≡ d
      → d ≢ []
      → expected_players (length xs) ≤ count_bytes d xs
  majority_data_sound d xs apart nonzero e full =
      let h = pick_majority range (hashes hash_data xs) in
      elim (Option-cases (last_of hash_data h none xs)) [
        | inl nil ↦ absurd (full (sym (rw nil at e)))
        | inr (v, found) ↦ elim (last_of-hash hash_data h none xs v found) [
          | inl gone ↦ cc (gone)
          | inr at ↦
              let v-eq : v ≡ d = rw found at e in
              let hash-d : hash_data d ≡ h = ap hash_data (sym v-eq) ∙ at.1 in
              let among : Elem d xs = subst (λ t. Elem t xs) v-eq at.0 in
              let major =
                pick_majority_sound range (hashes hash_data xs) h visits refl
                  (λ z. nonzero d among (hash-d ∙ z)) in
              let major' : IsMajority (hash_data d) (hashes hash_data xs) =
                subst (λ k. IsMajority k (hashes hash_data xs)) (sym hash-d) major in
              subst (λ n. expected_players (length xs) ≤ n)
                (count-hashes hash_data d xs (λ x here. apart x d here among))
                (subst (λ n. expected_players n ≤ count (hash_data d) (hashes hash_data xs))
                  (length-hashes hash_data xs) major')
        ]
      ]

  module _ (expected_response : ℕ) (results : List Bytes)
      (apart : Apart hash_data (take expected_response results))
      (nonzero : (x : Bytes) → Elem x (take expected_response results) → hash_data x ≢ 0) where
    -- If the results that are waited for have hashes that tell them apart and are not 0, then the
    -- wait at the end of `ExecCommand` gives a non-empty result exactly if as many results as
    -- expected arrive, and a quorum (`ExpectedPlayers`) of those that arrive first are that
    -- result, in whatever order the map of counts is visited.
    pub wait_results_iff :
        (d : Bytes)
        → d ≢ []
        → (wait_results w reading net now expected_response results ≡ ok d) ↔ (
            (expected_response ≤ length results)
            × (expected_players expected_response ≤ count_bytes d (take expected_response results)))
    unfolding wait_results
    wait_results_iff d full = (there, back)
      where
        taken : List Bytes
        taken = take expected_response results

        there :
            wait_results w reading net now expected_response results ≡ ok d
            → (expected_response ≤ length results)
              × (expected_players expected_response ≤ count_bytes d taken)
        there e = elim (Bool-cases (ltb (length results) expected_response)) [
          | inl few ↦ let bad : err no_response ≡ ok d = rw few at e in cc (bad)
          | inr enough ↦
              let le : expected_response ≤ length results = ground arith in
              let got : ok (majority_data w reading net now (receive w reading net now [] [] taken))
                  ≡ ok d =
                rw enough at e in
              let eq : majority_data w reading net now (receive w reading net now [] [] taken) ≡ d =
                cc (got) in
              let long = length-take expected_response results le in
              (
                le,
                subst (λ n. expected_players n ≤ count_bytes d taken) long
                    (majority_data_sound d taken apart nonzero (sym (majority_data-eq taken) ∙ eq)
                      full),
              )
        ]

        back :
            (expected_response ≤ length results)
              × (expected_players expected_response ≤ count_bytes d taken)
            → wait_results w reading net now expected_response results ≡ ok d
        back (le, many) =
            let enough : ltb (length results) expected_response ≡ false = ground arith in
            let long = length-take expected_response results le in
            rw enough (
              ap ok (
                majority_data-eq taken
                ∙ majority_data-majority d taken apart
                    (subst (λ n. expected_players n ≤ count_bytes d taken) (sym long) many)))
