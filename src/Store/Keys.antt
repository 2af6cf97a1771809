-- ===== src/Store/Keys.antt =====
-- The keys of server/store.go: their tables, groups and order.
use bftraft4go.Prelude.{
  ℕ, ◌^◌, ◌<◌, ◌≡◌, ◌≢◌, refl, sym, ◌∙◌, inl, inr, true, false, Bool-cases, [], ◌∷◌, ◌++◌, arith,
  Bytes, length, length-append, leb,
}
use bftraft4go.Encoding.{u32_bytes, u64_bytes}
use bftraft4go.Encoding.RoundTrip.{
  length-put_uint, length-u64_bytes, put_uint_injective, u64_bytes_injective,
}
use bftraft4go.Encoding.Order.{bytes_leb, bytes_leb-append, bytes_leb-u64_bytes}
use bftraft4go.World.Keyed.{has_prefix}
use bftraft4go.Store.{compose_key_prefix, log_entry_key, log_entries}

-- Strings that begin with strings of one length agree on these.
pub split_equal :
    (as_ bs r s : Bytes) → length as_ ≡ length bs → as_ ++ r ≡ bs ++ s → (as_ ≡ bs) × (r ≡ s)
split_equal [] [] r s l e = (refl, e)
split_equal [] (b ∷ bs) r s l e = absurd (omega arith)
split_equal (a ∷ as_) [] r s l e = absurd (omega arith)
split_equal (a ∷ as_) (b ∷ bs) r s l e =
    let both = split_equal as_ bs r s (omega arith) (cc) in (cc (both.0), both.1)

has_prefix→eq : (ps qs s : Bytes) → length ps ≡ length qs → has_prefix ps (qs ++ s) ≡ true → ps ≡ qs
unfolding has_prefix
has_prefix→eq [] [] s l h = refl
has_prefix→eq [] (q ∷ qs) s l h = absurd (omega arith)
has_prefix→eq (p ∷ ps) [] s l h = absurd (omega arith)
has_prefix→eq (p ∷ ps) (q ∷ qs) s l h = ground (arith, has_prefix→eq ps qs s)

length-u32_bytes : (t : ℕ) → length (u32_bytes t) ≡ 4
unfolding u32_bytes
length-u32_bytes t = length-put_uint 4 t

pub length-compose_key_prefix : (g t : ℕ) → length (compose_key_prefix g t) ≡ 12
unfolding compose_key_prefix
length-compose_key_prefix g t =
    omega (arith, length-append (u32_bytes t) (u64_bytes g), length-u32_bytes t, length-u64_bytes g)

pub compose_key_prefix_injective :
    (g h t u : ℕ)
    → g < 2 ^ 64
    → h < 2 ^ 64
    → t < 2 ^ 32
    → u < 2 ^ 32
    → compose_key_prefix g t ≡ compose_key_prefix h u
    → (g ≡ h) × (t ≡ u)
unfolding compose_key_prefix u32_bytes
compose_key_prefix_injective g h t u hg hh ht hu e =
    let both =
      split_equal (u32_bytes t) (u32_bytes u) (u64_bytes g) (u64_bytes h)
        (length-u32_bytes t ∙ sym (length-u32_bytes u)) e in
    (u64_bytes_injective g h hg hh both.1, put_uint_injective 4 t u ht hu both.0)

-- A key that begins with the prefix of group `g` in table `t`, and was built for group `h` in
-- table `u`, has `g = h` and `t = u`, where the numbers fit in their types.
pub has_prefix-compose_key_prefix :
    (g h t u : ℕ) (rest : Bytes)
    → g < 2 ^ 64
    → h < 2 ^ 64
    → t < 2 ^ 32
    → u < 2 ^ 32
    → has_prefix (compose_key_prefix g t) (compose_key_prefix h u ++ rest) ≡ true
    → (g ≡ h) × (t ≡ u)
has_prefix-compose_key_prefix g h t u rest hg hh ht hu e =
    compose_key_prefix_injective g h t u hg hh ht hu (
      has_prefix→eq _ _ rest (length-compose_key_prefix g t ∙ sym (length-compose_key_prefix h u))
        e)

-- The log keys of one group are ordered by the index of the entry.
pub log_entry_key_order :
    (g m n : ℕ)
    → m < 2 ^ 64
    → n < 2 ^ 64
    → bytes_leb (log_entry_key g m) (log_entry_key g n) ≡ leb m n
unfolding log_entry_key
log_entry_key_order g m n hm hn =
    bytes_leb-append (compose_key_prefix g log_entries) _ _ ∙ bytes_leb-u64_bytes m n hm hn

pub log_entry_key_injective :
    (g m n : ℕ) → m < 2 ^ 64 → n < 2 ^ 64 → log_entry_key g m ≡ log_entry_key g n → m ≡ n
unfolding log_entry_key
log_entry_key_injective g m n hm hn e =
    u64_bytes_injective m n hm hn (split_equal (compose_key_prefix g log_entries) _ _ _ refl e).1

-- No key of one table lies under a prefix of another table, whatever the groups.
pub has_prefix-table :
    (g h t u : ℕ) (rest : Bytes)
    → t < 2 ^ 32
    → u < 2 ^ 32
    → t ≢ u
    → has_prefix (compose_key_prefix g t) (compose_key_prefix h u ++ rest) ≡ false
unfolding compose_key_prefix u32_bytes
has_prefix-table g h t u rest ht hu apart =
    elim (Bool-cases (has_prefix (compose_key_prefix g t) (compose_key_prefix h u ++ rest))) [
      | inr outside ↦ outside
      | inl under ↦
          let same =
            has_prefix→eq _ _ rest
              (length-compose_key_prefix g t ∙ sym (length-compose_key_prefix h u)) under in
          let both =
            split_equal (u32_bytes t) (u32_bytes u) (u64_bytes g) (u64_bytes h)
              (length-u32_bytes t ∙ sym (length-u32_bytes u)) same in
          absurd (apart (put_uint_injective 4 t u ht hu both.0))
    ]
