-- ===== src/Text/Decimal.antt =====
-- Decimal numbers can be read back, and fields between dashes be told apart.
use native.Mathlib.Nat.{pow-suc}
use bftraft4go.Prelude.{
  ℕ, zero, suc, ◌+◌, ◌-◌, ◌*◌, ◌/◌, ◌%◌, ◌^◌, ◌<◌, ◌≡◌, ◌≢◌, refl, sym, ap, ◌∙◌, Bool, true, false,
  inl, inr, Bool-cases, [], ◌∷◌, ◌++◌, arith, Bytes, All, All-append, ltb,
}
use bftraft4go.Text.{digits, decimal, dash, print_bool}

value : ℕ → Bytes → ℕ
value acc [] = acc
value acc (b ∷ bs) = value (acc * 10 + (b - 48)) bs

value-append :
    (acc : ℕ) (xs : Bytes) (b : ℕ) → value acc (xs ++ b ∷ []) ≡ value acc xs * 10 + (b - 48)
unfolding value
value-append acc [] b = refl
value-append acc (x ∷ xs) b = value-append (acc * 10 + (x - 48)) xs b

value-digits : (fuel n : ℕ) → n < 10 ^ fuel → value 0 (digits fuel n) ≡ n
unfolding digits
value-digits zero n h = unfold value in omega arith
value-digits (suc fuel) n h = elim (Bool-cases (ltb n 10)) [
  | inl small ↦ rw small (unfold value in ground arith)
  | inr big ↦ rw big (
      value-append 0 (digits fuel (n / 10)) (48 + n % 10)
      ∙ omega (arith, value-digits fuel (n / 10) (omega (arith, pow-suc 10 fuel))))
]

pub decimal_injective : (m n : ℕ) → m < 2 ^ 64 → n < 2 ^ 64 → decimal m ≡ decimal n → m ≡ n
unfolding decimal
decimal_injective m n hm hn e =
    sym (value-digits 20 m (omega arith)) ∙ ap (value 0) e ∙ value-digits 20 n (omega arith)

-- No digit is a dash.
abbrev pub NoDash : Bytes → Type 0
NoDash = All (λ b. b ≢ dash)

digits-NoDash : (fuel n : ℕ) → NoDash (digits fuel n)
unfolding digits
digits-NoDash zero n = tt
digits-NoDash (suc fuel) n = elim (Bool-cases (ltb n 10)) [
  | inl small ↦ rw small (omega arith, tt)
  | inr big ↦ rw big (
      All-append (λ b. b ≢ dash) (digits fuel (n / 10)) ((48 + n % 10) ∷ [])
        (digits-NoDash fuel (n / 10)) (omega arith, tt))
]

pub decimal-NoDash : (n : ℕ) → NoDash (decimal n)
unfolding decimal
decimal-NoDash n = digits-NoDash 20 n

-- The first dash ends the first field.
pub split_at_dash :
    (xs ys r s : Bytes)
    → NoDash xs
    → NoDash ys
    → xs ++ dash ∷ r ≡ ys ++ dash ∷ s
    → (xs ≡ ys) × (r ≡ s)
split_at_dash [] [] r s hx hy e = (refl, cc)
split_at_dash [] (y ∷ ys) r s hx hy e = absurd (hy.0 (cc))
split_at_dash (x ∷ xs) [] r s hx hy e = absurd (hx.0 (cc))
split_at_dash (x ∷ xs) (y ∷ ys) r s hx hy e =
    let both = split_at_dash xs ys r s hx.1 hy.1 (cc) in (cc (both.0), both.1)

pub split_decimals :
    (m n : ℕ) (r s : Bytes)
    → m < 2 ^ 64
    → n < 2 ^ 64
    → decimal m ++ dash ∷ r ≡ decimal n ++ dash ∷ s
    → (m ≡ n) × (r ≡ s)
split_decimals m n r s hm hn e =
    let both = split_at_dash (decimal m) (decimal n) r s (decimal-NoDash m) (decimal-NoDash n) e in
    (decimal_injective m n hm hn both.0, both.1)

pub print_bool_injective : (a b : Bool) → print_bool a ≡ print_bool b → a ≡ b
unfolding print_bool
print_bool_injective true true e = refl
print_bool_injective true false e = cc
print_bool_injective false true e = cc
print_bool_injective false false e = refl
