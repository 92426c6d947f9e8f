-- ===== src/Tunnel/Fec.antt =====
-- The header of src/main/tunnel/nt_fec.h and src/main/tunnel/nt_fec.c, the codec that adds nothing, and the
-- sender of src/main/tunnel/nt_dup_fec.c, which repeats a packet.
-- `htonl` and `htons` of the C library are parameters, with their inverses. A callback is a function
-- of the caller's state `S`, which it changes, to its error code, 0 for none.
pub mod Codec
pub mod Layout
use nettle.Prelude.{
  ℕ, zero, suc, ◌+◌, ◌-◌, ◌*◌, ◌%◌, ◌^◌, ◌<◌, ◌≡◌, Bool, true, false, List, ◌==◌, ◌||◌, not,
  if◌then◌else◌, length, ◌++◌, drop, bytes_of, word_at,
}

-- `nt_fec_header_t`; `block_id_n` and `payload_size_n` are in the network's byte order.
pub record Header : Type 0 where
  pub tag : ℕ
  pub n : ℕ
  pub k : ℕ
  pub block_id_n : ℕ
  pub block_index : ℕ
  pub payload_size_n : ℕ

-- `NT_DUMMY_FEC_TAG` and `NT_DUP_FEC_TAG`
abbrev pub dummy_tag : ℕ
dummy_tag = 39

abbrev pub dup_tag : ℕ
dup_tag = 49

-- The byte order functions of the C library that the header uses.
pub record ByteOrder : Type 0 where
  pub htonl : ℕ → ℕ
  pub ntohl : ℕ → ℕ
  pub htons : ℕ → ℕ
  pub ntohs : ℕ → ℕ

-- Their documented behaviour: each undoes the other on words of its width, and gives such a word.
pub record IsByteOrder (o : ByteOrder) : Type 0 where
  pub ntohl-htonl : (x : ℕ) → x < 2 ^ 32 → o.ntohl (o.htonl x) ≡ x
  pub ntohs-htons : (x : ℕ) → x < 2 ^ 16 → o.ntohs (o.htons x) ≡ x
  pub htonl-lt : (x : ℕ) → x < 2 ^ 32 → o.htonl x < 2 ^ 32
  pub htons-lt : (x : ℕ) → x < 2 ^ 16 → o.htons x < 2 ^ 16
  pub ntohl-lt : (x : ℕ) → x < 2 ^ 32 → o.ntohl x < 2 ^ 32
  pub ntohs-lt : (x : ℕ) → x < 2 ^ 16 → o.ntohs x < 2 ^ 16

-- `sizeof(nt_fec_header_t)`
abbrev pub fec_size : ℕ
fec_size = 10

-- The bytes of the header, a packed struct, and the cast of a buffer to it.
unfoldable pub of_header : Header → List ℕ
of_header h =
    bytes_of 1 h.tag
    ++ (bytes_of 1 h.n
        ++ (bytes_of 1 h.k
            ++ (bytes_of 4 h.block_id_n
                ++ (bytes_of 1 h.block_index ++ bytes_of 2 h.payload_size_n))))

unfoldable pub to_header : List ℕ → Header
to_header bytes = record {
  tag = word_at 1 bytes;
  n = word_at 1 (drop 1 bytes);
  k = word_at 1 (drop 2 bytes);
  block_id_n = word_at 4 (drop 3 bytes);
  block_index = word_at 1 (drop 7 bytes);
  payload_size_n = word_at 2 (drop 8 bytes);
}

-- `nt_fec_message_payload`
abbrev pub header_payload : List ℕ → List ℕ
header_payload bytes = drop fec_size bytes

module _ (o : ByteOrder) where
  -- `nt_fec_header_init`
  unfoldable pub header_init : ℕ → ℕ → ℕ → ℕ → ℕ → ℕ → Header
  header_init tag n k block_id block_index payload_size = record {
    tag = tag;
    n = n;
    k = k;
    block_id_n = o.htonl block_id;
    block_index = block_index;
    payload_size_n = o.htons payload_size;
  }

  -- `nt_fec_header_block_id`
  abbrev pub header_block_id : Header → ℕ
  header_block_id header = o.ntohl header.block_id_n

  -- `nt_fec_header_payload_size`
  abbrev pub header_payload_size : Header → ℕ
  header_payload_size header = o.ntohs header.payload_size_n

  -- `nt_fec_header_set_block_id`
  abbrev pub set_block_id : Header → ℕ → Header
  set_block_id header block_id = record header { block_id_n = o.htonl block_id }

  -- `nt_fec_message_size`
  abbrev pub header_message_size : Header → ℕ
  header_message_size header = fec_size + header_payload_size header

  module _ {S : Type 0} (on_encode : S → Header → List ℕ → S × ℕ) where
    -- `nt_dummy_fec_encode`
    unfoldable pub dummy_encode : List ℕ → S → S × ℕ
    dummy_encode input s = on_encode s (header_init dummy_tag 0 0 0 0 (length input % 2 ^ 16)) input

    -- The loop of `nt_dup_fec_encode` from `i` on.
    unfoldable pub dup_loop : ℕ → ℕ → List ℕ → ℕ → ℕ → S → S × ℕ
    dup_loop n block_id input zero i s = (s, 0)
    dup_loop n block_id input (suc rounds) i s =
        let r = on_encode s (header_init dup_tag n 1 block_id i (length input % 2 ^ 16)) input in
        let rest = dup_loop n block_id input rounds (i + 1) r.0 in if r.1 == 0 then rest else r

    -- `nt_dup_fec_encode` of the copies' number `n` and the next number `id` of the generator, which it
    -- returns counted on.
    unfoldable pub dup_encode : ℕ → ℕ → List ℕ → S → (S × ℕ) × ℕ
    dup_encode n id input s = (dup_loop n id input n 0 s, (id + 1) % 2 ^ 32)

  -- `nt_dummy_fec_decode`, where `invalid_header` is `E_FEC_INVALID_HEADER`.
  unfoldable pub dummy_decode :
      {S : Type 0} → (S → List ℕ → S × ℕ) → ℕ → Header → List ℕ → S → S × ℕ
  dummy_decode on_decode invalid_header header input s =
      if not (header.tag == dummy_tag) || not (header.n == 0) || not (header.k == 0)
      then (s, invalid_header)
      else on_decode s input

-- `nt_fec_t`: a code with a state `F`, whose callbacks change a state `S`. The results are the code's
-- state, the callbacks' and the error code.
pub record Fec (F S : Type 0) : Type 0 where
  pub encode : F → (S → Header → List ℕ → S × ℕ) → List ℕ → S → F × S × ℕ
  pub decode : F → (S → List ℕ → S × ℕ) → Header → List ℕ → S → F × S × ℕ

-- `nt_dummy_fec_init`, of a code that has no state
unfoldable pub dummy_fec : {S : Type 0} → ByteOrder → ℕ → Fec (Unit {0}) S
dummy_fec o invalid_header = record {
  encode = λ f on_encode input s. let r = dummy_encode o on_encode input s in (f, r.0, r.1);
  decode = λ f on_decode header input s.
      let r = dummy_decode o on_decode invalid_header header input s in (f, r.0, r.1);
}
