-- ===== src/Rs/Coder/Refusal.antt =====
-- What src/main/rs/rs.c does with packets that it refuses, and with those that it takes in.
use nettle.Prelude.{
  ℕ, ◌+◌, ◌<◌, ◌≤◌, ◌≡◌, ◌⊎◌, arith, ℤ, pos, negative, Bool, true, false, List, some, ◌==◌,
  if◌then◌else◌,
}
use nettle.Rs.Coder.{Rs, Ec, Dc, t_size, is_complete}
use nettle.Rs.Coder.Receive.{
  decode_rows, is_raw, allowed_size, Decoded, decode, accept, list_erasures,
}
use nettle.Rs.Coder.Send.{Encoded, encode}

-- What an accepted packet leads to is no error.
list_erasures-accepts :
    (rs : Rs) (dc : Dc) (raw : Bool) (d : Decoded)
    → list_erasures rs dc raw ≡ some d
    → negative d.result ≡ false
unfolding list_erasures
list_erasures-accepts rs dc raw d e = grind arith

accept-accepts :
    (rs : Rs) (dc : Dc) (input : List ℕ) (size degree : ℕ) (d : Decoded)
    → accept rs dc input size degree ≡ some d
    → negative d.result ≡ false
unfolding accept
accept-accepts rs dc input size degree d e = grind (arith, list_erasures-accepts)

-- When `rs_decode` returns an error, for a bad degree, a bad size or a duplicate, the decoder's
-- state is what it was.
pub decode-refuses :
    (rs : Rs) (dc : Dc) (input : List ℕ) (size degree : ℤ) (raw : Bool) (d : Decoded)
    → decode rs dc input size degree raw ≡ some d
    → negative d.result ≡ true
    → d.dc ≡ dc
unfolding decode
decode-refuses rs dc input size degree raw d e n = grind (arith, accept-accepts)

-- When `rs_encode` returns an error, the encoder's state and the degree are what they were; otherwise
-- it has counted one packet, at most `K` in all, and has returned 0, or the number of redundant
-- packets with the last packet of the block.
pub encode-cases :
    (rs : Rs) (ec : Ec) (input : List ℕ) (size : ℤ) (degree : ℕ) (e : Encoded)
    → encode rs ec input size degree ≡ some e
    → ((negative e.result ≡ true) × (e.ec ≡ ec) × (e.degree ≡ degree))
      ⊎ ((e.ec.count ≡ ec.count + 1)
          × (e.ec.count ≤ rs.k)
          × (e.result ≡ (if e.ec.count == rs.k then pos (t_size rs) else pos 0)))
unfolding encode is_complete
encode-cases rs ec input size degree e h = grind arith

list_erasures-keeps :
    (rs : Rs) (dc : Dc) (raw : Bool) (d : Decoded)
    → list_erasures rs dc raw ≡ some d
    → (d.dc.syndromes ≡ dc.syndromes) × (d.dc.count ≡ dc.count) × (d.raw ≡ raw)
unfolding list_erasures
list_erasures-keeps rs dc raw d e = grind arith

accept-keeps :
    (rs : Rs) (dc : Dc) (input : List ℕ) (size degree : ℕ) (d : Decoded)
    → accept rs dc input size degree ≡ some d
    → (d.dc.syndromes ≡ decode_rows rs input size degree dc.syndromes)
      × (d.dc.count ≡ dc.count + 1)
      × (d.dc.count ≤ rs.k)
      × (d.raw ≡ is_raw rs degree)
unfolding accept is_complete
accept-keeps rs dc input size degree d e = grind (arith, list_erasures-keeps)

-- When `rs_decode` of a packet returns no error, its degree is below `N` and its size allowed, the
-- syndromes have received its rows, it is counted, at most `K` packets in all, and the caller is told
-- whether it is a packet of data.
pub decode-accepts :
    (rs : Rs) (dc : Dc) (input : List ℕ) (size degree : ℕ) (raw : Bool) (d : Decoded)
    → decode rs dc input (pos size) (pos degree) raw ≡ some d
    → negative d.result ≡ false
    → (degree < rs.n)
      × (size ≤ allowed_size rs degree)
      × (d.dc.syndromes ≡ decode_rows rs input size degree dc.syndromes)
      × (d.dc.count ≡ dc.count + 1)
      × (d.dc.count ≤ rs.k)
      × (d.raw ≡ is_raw rs degree)
unfolding decode
decode-accepts rs dc input size degree raw d e n = grind (arith, accept-keeps)
