-- ===== src/Peers/Table.antt =====
-- The table of the peers of a group in the database, as the list of the peers in the order of their
-- ids.
use bftraft4go.Prelude.{
  ℕ, ◌^◌, ◌≤◌, ◌<◌, ◌≡◌, refl, ap, ◌∙◌, subst, true, Option, none, some, List, [], ◌∷◌, arith, All,
  leb, ◌==◌, ==_iff, if◌then◌else◌, bytes_equal, bytes_equal→eq, bytes_equal_refl, Bool-cases, inl,
  inr, Map, lookup, insert, lookup-insert,
}
use bftraft4go.Encoding.RoundTrip.{u64_bytes_injective}
use bftraft4go.Encoding.Order.{bytes_leb, bytes_leb-append, bytes_leb-u64_bytes}
use bftraft4go.Messages.{Peer}
use bftraft4go.Store.{compose_key_prefix, peer_key, group_peers}
use bftraft4go.Store.Keys.{split_equal}

-- Each id is below those that follow, and is a uint64.
abbrev pub Ascending : List Peer → Type 0
Ascending [] = Unit
Ascending (p ∷ ps) = (p.id < 2 ^ 64) × All (λ (q : Peer). p.id < q.id) ps × Ascending ps

-- The peer takes its place, or that of a peer with its id.
unfoldable pub put_peer : Peer → List Peer → List Peer
put_peer p [] = p ∷ []
put_peer p (q ∷ qs) =
    if q.id == p.id then p ∷ qs else if leb q.id p.id then q ∷ put_peer p qs else p ∷ q ∷ qs

unfoldable pub find_peer : ℕ → List Peer → Option Peer
find_peer id [] = none
find_peer id (p ∷ ps) = if p.id == id then some p else find_peer id ps

pub find_peer-put_peer :
    (id : ℕ) (p : Peer) (ps : List Peer)
    → find_peer id (put_peer p ps) ≡ (if p.id == id then some p else find_peer id ps)
unfolding find_peer put_peer
find_peer-put_peer id p [] = refl
find_peer-put_peer id p (q ∷ qs) = ground (arith, find_peer-put_peer id p qs)

above-put_peer :
    (a : ℕ) (p : Peer) (ps : List Peer)
    → a < p.id
    → All (λ (q : Peer). a < q.id) ps
    → All (λ (q : Peer). a < q.id) (put_peer p ps)
unfolding put_peer
above-put_peer a p [] lt above = (lt, tt)
above-put_peer a p (q ∷ qs) lt above = elim (Bool-cases (q.id == p.id)) [
  | inl same ↦ rw same (lt, above.1)
  | inr other ↦ rw other (elim (Bool-cases (leb q.id p.id)) [
    | inl le ↦ rw le (above.0, above-put_peer a p qs lt above.1)
    | inr past ↦ rw past (lt, above)
  ])
]

raise_above :
    (a b : ℕ) (ps : List Peer)
    → a ≤ b
    → All (λ (q : Peer). b < q.id) ps
    → All (λ (q : Peer). a < q.id) ps
raise_above a b [] le above = tt
raise_above a b (q ∷ qs) le above = (omega (arith, above.0), raise_above a b qs le above.1)

pub put_peer-Ascending :
    (p : Peer) (ps : List Peer) → p.id < 2 ^ 64 → Ascending ps → Ascending (put_peer p ps)
unfolding put_peer
put_peer-Ascending p [] fits up = (fits, tt, tt)
put_peer-Ascending p (q ∷ qs) fits up = elim (Bool-cases (q.id == p.id)) [
  | inl same ↦ rw same (fits, raise_above p.id q.id qs (ground arith) up.1, up.2)
  | inr other ↦ rw other (elim (Bool-cases (leb q.id p.id)) [
    | inl le ↦
        rw le
          (up.0, above-put_peer q.id p qs (ground arith) up.1, put_peer-Ascending p qs fits up.2)
    | inr past ↦ rw past (fits, (ground arith, raise_above p.id q.id qs (ground arith) up.1), up)
  ])
]

find_peer-below :
    (id : ℕ) (ps : List Peer) → All (λ (q : Peer). id < q.id) ps → find_peer id ps ≡ none
unfolding find_peer
find_peer-below id [] above = refl
find_peer-below id (q ∷ qs) above = ground (arith, above.0, find_peer-below id qs above.1)

-- What the loop of `GetGroupPeersFromKV` makes of the peers.
unfoldable pub insert_all : List Peer → Map Peer → Map Peer
insert_all [] m = m
insert_all (p ∷ ps) m = insert_all ps (insert p.id p m)

abbrev pub or_else : Option Peer → Option Peer → Option Peer
or_else (some p) o = some p
or_else none o = o

pub lookup-insert_all :
    (id : ℕ) (ps : List Peer) (m : Map Peer)
    → Ascending ps
    → lookup id (insert_all ps m) ≡ or_else (find_peer id ps) (lookup id m)
unfolding insert_all find_peer
lookup-insert_all id [] m up = refl
lookup-insert_all id (p ∷ ps) m up =
    lookup-insert_all id ps (insert p.id p m) up.2
    ∙ ap (or_else (find_peer id ps)) (lookup-insert p.id id p m)
    ∙ elim (Bool-cases (p.id == id)) [
      | inl same ↦ rw same (
          ap (λ o. or_else o (some p))
            (find_peer-below id ps
              (subst (λ i. All (λ (q : Peer). i < q.id) ps) ((==_iff p.id id).0 same) up.1)))
      | inr other ↦ rw other refl
    ]

pub peer_key_order :
    (g m n : ℕ) → m < 2 ^ 64 → n < 2 ^ 64 → bytes_leb (peer_key g m) (peer_key g n) ≡ leb m n
unfolding peer_key
peer_key_order g m n hm hn =
    bytes_leb-append (compose_key_prefix g group_peers) _ _ ∙ bytes_leb-u64_bytes m n hm hn

pub peer_key_equal :
    (g m n : ℕ) → m < 2 ^ 64 → n < 2 ^ 64 → bytes_equal (peer_key g m) (peer_key g n) ≡ (m == n)
unfolding peer_key
peer_key_equal g m n hm hn = elim (Bool-cases (m == n)) [
  | inl same ↦
      let e : m ≡ n = ground arith in
      rw same (
        subst (λ i. bytes_equal (peer_key g m) (peer_key g i) ≡ true) e
          (bytes_equal_refl (peer_key g m)))
  | inr other ↦ rw other (elim (Bool-cases (bytes_equal (peer_key g m) (peer_key g n))) [
    | inl same ↦
        let e : m ≡ n =
          u64_bytes_injective m n hm hn
            (split_equal (compose_key_prefix g group_peers) _ _ _ refl
              (bytes_equal→eq _ _ same)).1 in
        absurd (ground arith)
    | inr apart ↦ apart
  ])
]
