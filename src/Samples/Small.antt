-- ===== src/Samples/Small.antt =====
-- A small world: the database is the list of its writes, the digest of a text is the text, and a
-- key is its own public half.
use bftraft4go.Prelude.{
  ℕ, ◌≡◌, refl, true, false, Option, none, some, List, [], ◌∷◌, arith, Bytes, All, bytes_equal,
  bytes_equal→eq, bytes_equal_refl, Bool-cases, inl, inr,
}
use bftraft4go.Encoding.Order.{bytes_leb, bytes_leb_refl, bytes_leb_trans, bytes_leb_total}
use bftraft4go.World.{World, IsWorld, fetched_of}
use bftraft4go.World.Keyed.{Item, IsSorted, insert_item, find_item}
use bftraft4go.Samples.Codecs.{
  entry_codec, entry_codec-IsCodec, peer_codec, peer_codec-IsCodec, host_codec, host_codec-IsCodec,
  group_codec, group_codec-IsCodec,
}

unfoldable pub all_items : List (Bytes × Bytes) → List Item
all_items [] = []
all_items ((k, v) ∷ writes) = insert_item k (some v) (all_items writes)

above_insert :
    (j k : Bytes) (v : Option Bytes) (xs : List Item)
    → bytes_leb j k ≡ true
    → All (λ (y : Item). bytes_leb j y.0 ≡ true) xs
    → All (λ (y : Item). bytes_leb j y.0 ≡ true) (insert_item k v xs)
unfolding insert_item
above_insert j k v [] le above = (le, tt)
above_insert j k v ((i, u) ∷ xs) le above = elim (Bool-cases (bytes_equal i k)) [
  | inl same ↦ rw same (le, above.1)
  | inr other ↦ rw other (elim (Bool-cases (bytes_leb i k)) [
    | inl at ↦ rw at (above.0, above_insert j k v xs le above.1)
    | inr past ↦ rw past (le, above)
  ])
]

raise_all :
    (j k : Bytes) (xs : List Item)
    → bytes_leb k j ≡ true
    → All (λ (y : Item). bytes_leb j y.0 ≡ true) xs
    → All (λ (y : Item). bytes_leb k y.0 ≡ true) xs
raise_all j k [] le above = tt
raise_all j k (x ∷ xs) le above = (bytes_leb_trans k j x.0 le above.0, raise_all j k xs le above.1)

insert_item-IsSorted :
    (k : Bytes) (v : Option Bytes) (xs : List Item) → IsSorted xs → IsSorted (insert_item k v xs)
unfolding insert_item
insert_item-IsSorted k v [] sorted = (tt, tt)
insert_item-IsSorted k v ((j, u) ∷ xs) sorted = elim (Bool-cases (bytes_equal j k)) [
  | inl same ↦
      rw same
        (raise_all j k xs (rw (bytes_equal→eq j k same) (bytes_leb_refl k)) sorted.0, sorted.1)
  | inr other ↦ rw other (elim (Bool-cases (bytes_leb j k)) [
    | inl at ↦ rw at (above_insert j k v xs at sorted.0, insert_item-IsSorted k v xs sorted.1)
    | inr past ↦ rw past ((first past, raise_all j k xs (first past) sorted.0), sorted)
  ])
]
  where
    first : bytes_leb j k ≡ false → bytes_leb k j ≡ true
    first past = elim (bytes_leb_total j k) [ inl le ↦ cc | inr ge ↦ ge ]

all_items-IsSorted : (writes : List (Bytes × Bytes)) → IsSorted (all_items writes)
unfolding all_items
all_items-IsSorted [] = tt
all_items-IsSorted ((k, v) ∷ writes) =
    insert_item-IsSorted k (some v) (all_items writes) (all_items-IsSorted writes)

unfoldable pub parse_key : Bytes → Option ℕ
parse_key (k ∷ []) = some k
parse_key _ = none

abbrev pub small : World
small = record {
  Db = List (Bytes × Bytes);
  PrivateKey = ℕ;
  PublicKey = ℕ;
  get = λ db k. fetched_of (find_item k (all_items db));
  set = λ db k v. some ((k, v) ∷ db);
  items = all_items;
  log_entry_codec = entry_codec;
  peer_codec = peer_codec;
  host_codec = host_codec;
  group_codec = group_codec;
  sha1 = λ text. text;
  sign_digest = λ key digest. key ∷ digest;
  verify_digest = λ key digest signature. bytes_equal signature (key ∷ digest);
  public_of = λ key. key;
  parse_public_key = parse_key;
}

set_small :
    (db db' : List (Bytes × Bytes)) (k v : Bytes)
    → small.set db k v ≡ some db'
    → all_items db' ≡ insert_item k (some v) (all_items db)
unfolding all_items
set_small db db' k v h = ground arith

pub small-IsWorld : IsWorld small
small-IsWorld = record {
  items-IsSorted = all_items-IsSorted;
  get_lem = λ db k. refl;
  items-set = set_small;
  log_entry-IsCodec = entry_codec-IsCodec;
  peer-IsCodec = peer_codec-IsCodec;
  host-IsCodec = host_codec-IsCodec;
  group-IsCodec = group_codec-IsCodec;
  verify-sign = λ k digest. bytes_equal_refl (k ∷ digest);
}
