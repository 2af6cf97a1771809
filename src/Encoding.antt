-- ===== src/Encoding.antt =====
-- utils/encoding.go: fixed-width big-endian integers, as `binary.BigEndian` writes them.
pub mod RoundTrip
pub mod Order
use bftraft4go.Prelude.{
  ℕ, zero, suc, ◌+◌, ◌*◌, ◌/◌, ◌%◌, ◌^◌, ◌≡◌, refl, [], ◌∷◌, Bytes, take, drop, length, leb,
  if◌then◌else◌,
}
use bftraft4go.Outcome.{Outcome, done, panicked}

abbrev pub uint32_len : ℕ
uint32_len = 4

abbrev pub uint64_len : ℕ
uint64_len = 8

-- The `w` low-order bytes of `n`, the most significant first.
unfoldable pub put_uint : ℕ → ℕ → Bytes
put_uint zero n = []
put_uint (suc w) n = n / 256 ^ w % 256 ∷ put_uint w n

-- The number that a byte string stands for, the most significant byte first.
unfoldable pub get_uint : ℕ → Bytes → ℕ
get_uint acc [] = acc
get_uint acc (b ∷ bs) = get_uint (acc * 256 + b) bs

-- `U32Bytes`
unfoldable pub u32_bytes : ℕ → Bytes
u32_bytes t = put_uint uint32_len t

-- `U64Bytes`
unfoldable pub u64_bytes : ℕ → Bytes
u64_bytes n = put_uint uint64_len n

-- `BytesU64`; the slice expression `bs[offset : offset+UINT64_LEN]` panics where the bytes are too
-- few. A slice has no more capacity than its length.
unfoldable pub bytes_u64 : Bytes → ℕ → Outcome ℕ
bytes_u64 bs offset =
    if leb (offset + uint64_len) (length bs)
    then done (get_uint 0 (take uint64_len (drop offset bs)))
    else panicked

u64_bytes_258 : u64_bytes 258 ≡ 0 ∷ 0 ∷ 0 ∷ 0 ∷ 0 ∷ 0 ∷ 1 ∷ 2 ∷ []
unfolding u64_bytes put_uint
u64_bytes_258 = refl
