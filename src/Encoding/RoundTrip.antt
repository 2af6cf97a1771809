-- ===== src/Encoding/RoundTrip.antt =====
-- Decoding what utils/encoding.go encodes.
use native.Mathlib.Nat.{
  mod-lt, mod-eq_of_lt, div-add-mod', add-mul-mod_self_right, one-le-pow, pow-suc, mod-one,
  mul-le-mul_right,
}
use mathlib.Core.List.{append-nil}
use bftraft4go.Prelude.{
  ℕ, zero, suc, ◌+◌, ◌*◌, ◌/◌, ◌%◌, ◌^◌, ◌<◌, ◌≡◌, refl, sym, ap, ◌∙◌, subst, [], ◌++◌, arith,
  Bytes, true, leb, length, length-append, take, drop, take-append, drop-append,
}
use bftraft4go.Outcome.{done}
use bftraft4go.Encoding.{put_uint, get_uint, u64_bytes, bytes_u64}

below_block : (q r p : ℕ) → r < p → q % 256 * p + r < p * 256
below_block q r p h = omega (arith, mul-le-mul_right {m = q % 256} {n = 255} p (omega arith))

-- One base-256 digit of a remainder.
pub mod-mul_split : (n p : ℕ) → 0 < p → n % (p * 256) ≡ n / p % 256 * p + n % p
mod-mul_split n p h =
    ap (λ (t : ℕ). t % (p * 256)) regroup
    ∙ add-mul-mod_self_right (n / p % 256 * p + n % p) (n / p / 256) (p * 256)
    ∙ mod-eq_of_lt (below_block (n / p) (n % p) p (mod-lt n h))
  where
    regroup : n ≡ n / p % 256 * p + n % p + n / p / 256 * (p * 256)
    regroup = omega (arith, div-add-mod' n p, ap (λ (t : ℕ). t * p) (div-add-mod' (n / p) 256))

pub length-put_uint : (w n : ℕ) → length (put_uint w n) ≡ w
unfolding put_uint
length-put_uint zero n = refl
length-put_uint (suc w) n = ap suc (length-put_uint w n)

get_uint-put_uint :
    (w n acc : ℕ) (rest : Bytes)
    → get_uint acc (put_uint w n ++ rest) ≡ get_uint (acc * 256 ^ w + n % 256 ^ w) rest
unfolding put_uint get_uint
get_uint-put_uint zero n acc rest = ap (λ t. get_uint t rest) (omega (arith, mod-one n))
get_uint-put_uint (suc w) n acc rest =
    get_uint-put_uint w n (acc * 256 + n / 256 ^ w % 256) rest
    ∙ ap (λ t. get_uint t rest)
        (omega (
          arith,
          mod-mul_split n (256 ^ w) (one-le-pow w 256 (omega arith)),
          pow-suc 256 w,
          ap (λ (t : ℕ). acc * t) (pow-suc 256 w),
          ap (λ (t : ℕ). n % t) (pow-suc 256 w),
        ))

-- `get_uint` inverts `put_uint` on every number of `w` bytes, whatever follows in the string.
pub get_uint-put_uint_lem : (w n : ℕ) → n < 256 ^ w → get_uint 0 (put_uint w n) ≡ n
get_uint-put_uint_lem w n h =
    ap (get_uint 0) (sym (append-nil (put_uint w n)))
    ∙ get_uint-put_uint w n 0 []
    ∙ unfold get_uint in omega (arith, mod-eq_of_lt h)

pub put_uint_injective :
    (w m n : ℕ) → m < 256 ^ w → n < 256 ^ w → put_uint w m ≡ put_uint w n → m ≡ n
put_uint_injective w m n hm hn e =
    sym (get_uint-put_uint_lem w m hm) ∙ ap (get_uint 0) e ∙ get_uint-put_uint_lem w n hn

pub length-u64_bytes : (n : ℕ) → length (u64_bytes n) ≡ 8
unfolding u64_bytes
length-u64_bytes n = length-put_uint 8 n

pub u64_bytes_injective : (m n : ℕ) → m < 2 ^ 64 → n < 2 ^ 64 → u64_bytes m ≡ u64_bytes n → m ≡ n
unfolding u64_bytes
u64_bytes_injective = put_uint_injective 8

-- `BytesU64`, read at the offset at which `U64Bytes` has put a uint64, does not panic and gives
-- the number back.
pub bytes_u64-u64_bytes :
    (before after : Bytes) (n : ℕ)
    → n < 2 ^ 64
    → bytes_u64 (before ++ (u64_bytes n ++ after)) (length before) ≡ done n
unfolding bytes_u64
bytes_u64-u64_bytes before after n h = rw fits (ap done read)
  where
    fits : leb (length before + 8) (length (before ++ (u64_bytes n ++ after))) ≡ true
    fits =
        rw
          (
            length-append before (u64_bytes n ++ after),
            length-append (u64_bytes n) after,
            length-u64_bytes n,
          )
          (ground arith)

    read : get_uint 0 (take 8 (drop (length before) (before ++ (u64_bytes n ++ after)))) ≡ n
    read =
        ap (λ (t : Bytes). get_uint 0 (take 8 t)) (drop-append before (u64_bytes n ++ after))
        ∙ ap (λ (t : Bytes). get_uint 0 t)
            (subst (λ k. take k (u64_bytes n ++ after) ≡ u64_bytes n) (length-u64_bytes n)
              (take-append (u64_bytes n) after))
        ∙ (unfold u64_bytes in get_uint-put_uint_lem 8 n h)
