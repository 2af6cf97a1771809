-- ===== src/Encoding/Order.antt =====
-- The byte-wise order of the store's keys, and why utils/encoding.go writes integers big-endian:
-- the order of the encodings is the order of the numbers.
use native.Mathlib.Nat.{mod-lt, mod-eq_of_lt, one-le-pow, mod-one, pow-suc, mul-le-mul_right}
use bftraft4go.Prelude.{
  ℕ, zero, suc, ◌+◌, ◌*◌, ◌/◌, ◌%◌, ◌^◌, ◌≤◌, ◌<◌, ◌≡◌, refl, sym, ap, ap₂, ◌∙◌, Bool, true, false,
  ◌⊎◌, inl, inr, [], ◌∷◌, ◌++◌, arith, Bytes, ltb, leb, ◌==◌, if◌then◌else◌,
}
use bftraft4go.Encoding.{put_uint, u64_bytes}
use bftraft4go.Encoding.RoundTrip.{mod-mul_split}

-- Byte strings in the order of `bytes.Compare`: a prefix comes first.
unfoldable pub bytes_leb : Bytes → Bytes → Bool
bytes_leb [] bs = true
bytes_leb (a ∷ as_) [] = false
bytes_leb (a ∷ as_) (b ∷ bs) = if ltb a b then true else if a == b then bytes_leb as_ bs else false

pub bytes_leb_refl : (as_ : Bytes) → bytes_leb as_ as_ ≡ true
unfolding bytes_leb
bytes_leb_refl [] = refl
bytes_leb_refl (a ∷ as_) = ground (arith, bytes_leb_refl as_)

pub bytes_leb_trans :
    (as_ bs cs : Bytes) → bytes_leb as_ bs ≡ true → bytes_leb bs cs ≡ true → bytes_leb as_ cs ≡ true
unfolding bytes_leb
bytes_leb_trans [] bs cs h k = refl
bytes_leb_trans (a ∷ as_) [] cs h k = ground arith
bytes_leb_trans (a ∷ as_) (b ∷ bs) [] h k = ground arith
bytes_leb_trans (a ∷ as_) (b ∷ bs) (c ∷ cs) h k = ground (arith, bytes_leb_trans as_ bs cs)

pub bytes_leb_total : (as_ bs : Bytes) → (bytes_leb as_ bs ≡ true) ⊎ (bytes_leb bs as_ ≡ true)
unfolding bytes_leb
bytes_leb_total [] bs = inl refl
bytes_leb_total (a ∷ as_) [] = inr refl
bytes_leb_total (a ∷ as_) (b ∷ bs) = ground (arith, bytes_leb_total as_ bs)

pub bytes_leb_antisym :
    (as_ bs : Bytes) → bytes_leb as_ bs ≡ true → bytes_leb bs as_ ≡ true → as_ ≡ bs
unfolding bytes_leb
bytes_leb_antisym [] [] h k = refl
bytes_leb_antisym [] (b ∷ bs) h k = ground arith
bytes_leb_antisym (a ∷ as_) [] h k = ground arith
bytes_leb_antisym (a ∷ as_) (b ∷ bs) h k = ground (arith, bytes_leb_antisym as_ bs)

-- A common prefix does not matter.
pub bytes_leb-append : (ps as_ bs : Bytes) → bytes_leb (ps ++ as_) (ps ++ bs) ≡ bytes_leb as_ bs
unfolding bytes_leb
bytes_leb-append [] as_ bs = refl
bytes_leb-append (p ∷ ps) as_ bs = ground (arith, bytes_leb-append ps as_ bs)

digits_order :
    (p a b x y : ℕ)
    → x < p
    → y < p
    → leb (a * p + x) (b * p + y) ≡ (if ltb a b then true else if a == b then leb x y else false)
digits_order p a b x y hx hy = ground (
  arith,
  λ (h : suc a ≤ b). mul-le-mul_right {m = suc a} {n = b} p h,
  λ (h : suc b ≤ a). mul-le-mul_right {m = suc b} {n = a} p h,
)

mod-pow_split : (w n : ℕ) → n % 256 ^ suc w ≡ n / 256 ^ w % 256 * 256 ^ w + n % 256 ^ w
mod-pow_split w n =
    ap (λ (t : ℕ). n % t) (pow-suc 256 w)
    ∙ mod-mul_split n (256 ^ w) (one-le-pow w 256 (omega arith))

bytes_leb-put_uint :
    (w m n : ℕ) → bytes_leb (put_uint w m) (put_uint w n) ≡ leb (m % 256 ^ w) (n % 256 ^ w)
unfolding put_uint bytes_leb
bytes_leb-put_uint zero m n = ground (arith, mod-one m, mod-one n)
bytes_leb-put_uint (suc w) m n = rw (bytes_leb-put_uint w m n) (
    sym (
      digits_order (256 ^ w) (m / 256 ^ w % 256) (n / 256 ^ w % 256) _ _
        (mod-lt m (one-le-pow w 256 (omega arith))) (mod-lt n (one-le-pow w 256 (omega arith))))
    ∙ ap₂ leb (sym (mod-pow_split w m)) (sym (mod-pow_split w n)))

-- The bytes of two uint64 are in the order of the numbers.
pub bytes_leb-u64_bytes :
    (m n : ℕ) → m < 2 ^ 64 → n < 2 ^ 64 → bytes_leb (u64_bytes m) (u64_bytes n) ≡ leb m n
unfolding u64_bytes
bytes_leb-u64_bytes m n hm hn =
    bytes_leb-put_uint 8 m n ∙ ap₂ leb (mod-eq_of_lt hm) (mod-eq_of_lt hn)
