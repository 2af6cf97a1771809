-- ===== src/World.antt =====
-- What the program uses and does not implement: the key-value store (badger), the message encoding
-- (protobuf), SHA-1 and RSA. Each is a parameter; `IsWorld` states the documented behaviour that the
-- theorems rely on.
pub mod Keyed
pub mod Walks
pub mod Writes
pub mod Climbs
use bftraft4go.Prelude.{ℕ, ◌≡◌, Bool, true, false, Option, none, some, List, [], ◌∷◌, Bytes, Elem}
use bftraft4go.Messages.{LogEntry, Peer, Host, RaftGroup}
use bftraft4go.World.Keyed.{Item, IsSorted, insert_item, find_item}

-- `proto.Marshal` may fail. `proto.Unmarshal` fills its struct and tells whether it found an error.
pub record Codec (A : Type 0) : Type 0 where
  pub marshal : A → Option Bytes
  pub unmarshal : Bytes → A × Bool

abbrev pub IsCodec : {A : Type 0} → Codec A → Type 0
IsCodec {A} c = (a : A) (bs : Bytes) → c.marshal a ≡ some bs → c.unmarshal bs ≡ (a, true)

-- The result of `txn.Get`: the item's value, or one of two errors. A value that `item.Value()`
-- cannot read is `none`.
pub data Fetched : Type 0 where
  found : Option Bytes → Fetched
  key_not_found : Fetched
  failed : Fetched

pub record World : Type 1 where
  pub Db : Type 0
  pub PrivateKey : Type 0
  pub PublicKey : Type 0
  -- badger: `txn.Get`, `txn.Set` (`none` is an error), and the items that an iterator visits.
  pub get : Db → Bytes → Fetched
  pub set : Db → Bytes → Bytes → Option Db
  pub items : Db → List Item
  -- protobuf
  pub log_entry_codec : Codec LogEntry
  pub peer_codec : Codec Peer
  pub host_codec : Codec Host
  pub group_codec : Codec RaftGroup
  -- crypto/sha1, crypto/rsa, crypto/x509
  pub sha1 : Bytes → Bytes
  pub sign_digest : PrivateKey → Bytes → Bytes
  pub verify_digest : PublicKey → Bytes → Bytes → Bool
  pub public_of : PrivateKey → PublicKey
  pub parse_public_key : Bytes → Option PublicKey

abbrev pub fetched_of : Option (Option Bytes) → Fetched
fetched_of none = key_not_found
fetched_of (some value) = found value

pub record IsWorld (w : World) : Type 0 where
  -- An iterator visits the items in the order of their keys.
  pub items-IsSorted : (db : w.Db) → IsSorted (w.items db)
  -- `Get` finds what an iterator would visit.
  pub get_lem : (db : w.Db) (k : Bytes) → w.get db k ≡ fetched_of (find_item k (w.items db))
  -- A `Set` that succeeds puts one item in its place.
  pub items-set :
      (db db' : w.Db) (k v : Bytes)
      → w.set db k v ≡ some db'
      → w.items db' ≡ insert_item k (some v) (w.items db)
  pub log_entry-IsCodec : IsCodec w.log_entry_codec
  pub peer-IsCodec : IsCodec w.peer_codec
  pub host-IsCodec : IsCodec w.host_codec
  pub group-IsCodec : IsCodec w.group_codec
  -- A signature is accepted under the key pair that made it.
  pub verify-sign :
      (k : w.PrivateKey) (digest : Bytes)
      → w.verify_digest (w.public_of k) digest (w.sign_digest k digest) ≡ true
