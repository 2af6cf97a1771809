-- ===== src/Text.antt =====
-- What the program uses of `fmt.Sprint`: unsigned numbers in decimal, `true` and `false`, and the
-- operands one after the other (a blank goes only between two operands that are not strings).
pub mod Decimal
use bftraft4go.Prelude.{
  ℕ, zero, suc, ◌+◌, ◌/◌, ◌%◌, Bool, true, false, [], ◌∷◌, ◌++◌, Bytes, ltb, if◌then◌else◌,
}

-- The digits of `n`, with room for `fuel` of them.
unfoldable pub digits : ℕ → ℕ → Bytes
digits zero n = []
digits (suc fuel) n =
    let rest = digits fuel (n / 10) in
    if ltb n 10 then (48 + n) ∷ [] else rest ++ (48 + n % 10) ∷ []

-- A uint64 has at most twenty digits.
unfoldable pub decimal : ℕ → Bytes
unfolding digits
decimal n = digits 20 n

abbrev pub dash : ℕ
dash = 45

unfoldable pub print_bool : Bool → Bytes
print_bool true = 116 ∷ 114 ∷ 117 ∷ 101 ∷ []
print_bool false = 102 ∷ 97 ∷ 108 ∷ 115 ∷ 101 ∷ []
