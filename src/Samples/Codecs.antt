-- ===== src/Samples/Codecs.antt =====
-- Encodings of the stored messages with a proof that they can be read back.
use bftraft4go.Prelude.{
  ℕ, zero, suc, ◌≡◌, refl, Bool, true, false, some, [], ◌∷◌, ◌++◌, arith, Bytes, length, take, drop,
  take-append, drop-append,
}
use bftraft4go.Messages.{LogEntry, Peer, Host, RaftGroup}
use bftraft4go.World.{Codec, IsCodec}

abbrev of_fields : ℕ → ℕ → Bytes → ℕ → ℕ → ℕ → ℕ → Bytes → Bytes → LogEntry
of_fields t i h g c r f s a = record {
  term = t;
  index = i;
  hash = h;
  command = record {
    group = g;
    client_id = c;
    request_id = r;
    func_id = f;
    signature = s;
    arg = a;
  };
}

unfoldable pub encode_entry : LogEntry → Bytes
encode_entry e =
    e.term
    ∷ e.index
    ∷ e.command.group
    ∷ e.command.client_id
    ∷ e.command.request_id
    ∷ e.command.func_id
    ∷ length e.hash
    ∷ length e.command.signature
    ∷ (e.hash ++ (e.command.signature ++ e.command.arg))

unfoldable pub decode_entry : Bytes → LogEntry × Bool
decode_entry (t ∷ i ∷ g ∷ c ∷ r ∷ f ∷ lh ∷ ls ∷ rest) =
    (of_fields t i (take lh rest) g c r f (take ls (drop lh rest)) (drop ls (drop lh rest)), true)
decode_entry _ = (of_fields 0 0 [] 0 0 0 0 [] [], false)

abbrev pub entry_codec : Codec LogEntry
entry_codec = record { marshal = λ e. some (encode_entry e); unmarshal = decode_entry }

decode-encode : (e : LogEntry) → decode_entry (encode_entry e) ≡ (e, true)
unfolding decode_entry encode_entry
decode-encode e = simp (take-append, drop-append)

pub entry_codec-IsCodec : IsCodec entry_codec
entry_codec-IsCodec e bs h = ground (arith, decode-encode e)

unfoldable pub encode_peer : Peer → Bytes
encode_peer p = p.id ∷ p.group ∷ p.next_index ∷ p.match_index ∷ []

unfoldable pub decode_peer : Bytes → Peer × Bool
decode_peer (i ∷ g ∷ n ∷ m ∷ []) =
    (record { id = i; group = g; next_index = n; match_index = m }, true)
decode_peer _ = (record { id = 0; group = 0; next_index = 0; match_index = 0 }, false)

abbrev pub peer_codec : Codec Peer
peer_codec = record { marshal = λ p. some (encode_peer p); unmarshal = decode_peer }

decode-encode_peer : (p : Peer) → decode_peer (encode_peer p) ≡ (p, true)
unfolding decode_peer encode_peer
decode-encode_peer p = refl

pub peer_codec-IsCodec : IsCodec peer_codec
peer_codec-IsCodec p bs h = ground (arith, decode-encode_peer p)

unfoldable pub encode_group : RaftGroup → Bytes
encode_group g = g.replications ∷ g.id ∷ g.term ∷ []

unfoldable pub decode_group : Bytes → RaftGroup × Bool
decode_group (r ∷ i ∷ t ∷ []) = (record { replications = r; id = i; term = t }, true)
decode_group _ = (record { replications = 0; id = 0; term = 0 }, false)

abbrev pub group_codec : Codec RaftGroup
group_codec = record { marshal = λ g. some (encode_group g); unmarshal = decode_group }

decode-encode_group : (g : RaftGroup) → decode_group (encode_group g) ≡ (g, true)
unfolding decode_group encode_group
decode-encode_group g = refl

pub group_codec-IsCodec : IsCodec group_codec
group_codec-IsCodec g bs h = ground (arith, decode-encode_group g)

flag : Bool → ℕ
flag true = 1
flag false = 0

unflag : ℕ → Bool
unflag zero = false
unflag (suc n) = true

unflag-flag : (b : Bool) → unflag (flag b) ≡ b
unfolding flag unflag
unflag-flag true = refl
unflag-flag false = refl

unfoldable pub encode_host : Host → Bytes
unfolding flag
encode_host h =
    h.id ∷ h.last_seen ∷ flag h.online ∷ length h.server_addr ∷ (h.server_addr ++ h.public_key)

unfoldable pub decode_host : Bytes → Host × Bool
unfolding unflag
decode_host (i ∷ l ∷ o ∷ n ∷ rest) = (
  record {
    id = i;
    last_seen = l;
    online = unflag o;
    server_addr = take n rest;
    public_key = drop n rest;
  },
  true,
)
decode_host _ =
    (record { id = 0; last_seen = 0; online = false; server_addr = []; public_key = [] }, false)

abbrev pub host_codec : Codec Host
host_codec = record { marshal = λ h. some (encode_host h); unmarshal = decode_host }

decode-encode_host : (h : Host) → decode_host (encode_host h) ≡ (h, true)
unfolding decode_host encode_host
decode-encode_host h = simp (take-append, drop-append, unflag-flag)

pub host_codec-IsCodec : IsCodec host_codec
host_codec-IsCodec h bs e = ground (arith, decode-encode_host h)
