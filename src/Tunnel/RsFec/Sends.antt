-- ===== src/Tunnel/RsFec/Sends.antt =====
-- What `nt_rs_fec_encode` of src/main/tunnel/nt_rs_fec.c sends.
use nettle.Prelude.{
  ℕ, zero, suc, ◌+◌, ◌-◌, ◌%◌, ◌^◌, ◌≤◌, ◌<◌, ◌≡◌, refl, sym, ap, ◌∙◌, arith, true, false,
  Bool-cases, inl, inr, pos, some, List, [], ◌∷◌, ◌++◌, length, take, replicate, ◌*◌, leb, ltb,
  ◌==◌, if◌then◌else◌,
}
use mathlib.Core.List.{append-nil, append_assoc}
use native.Mathlib.Nat.{mod-eq_of_lt}
use nettle.Rs.Coder.{t_size, max_encoded_size, is_complete, reset_ec}
use nettle.Rs.Coder.Send
use nettle.Rs.Coder.Send.{Encoded, encode_rows, encode_result, build_redundant}
use nettle.Tunnel.Fec.{ByteOrder, header_init}
use nettle.Tunnel.Fec.Codec.{Message, record_message}
use nettle.Tunnel.RsFec.{
  RsFec, rs_tag, rs_header, redundant_loop, send_redundant, send_encoded, send_result,
  rs_fec_encode, reset_encode_buffer,
}

-- A packet of the sender's block with its index and its bytes.
abbrev pub block_message : ByteOrder → RsFec → ℕ → List ℕ → Message
block_message o fec index payload = record {
  header = header_init o rs_tag fec.rs.n fec.rs.k fec.block_id index (length payload % 2 ^ 16);
  payload = payload;
}

-- The redundant packet of the index `i` in the array that `build_redundant` fills, which holds `encoded`.
abbrev pub built : RsFec → ℕ → List ℕ → List ℕ × ℕ
built fec i encoded =
    build_redundant encoded fec.buffer.checks (max_encoded_size fec.rs.max_data_size)
      (t_size fec.rs) i

-- The redundant packets from the index `i` on, `n` of them, each after the `K` packets of data.
unfoldable pub redundants : ByteOrder → RsFec → ℕ → ℕ → List ℕ → List Message
redundants o fec zero i encoded = []
redundants o fec (suc n) i encoded =
    record {
      header =
          header_init o rs_tag fec.rs.n fec.rs.k fec.block_id (fec.rs.k + i)
            ((built fec i encoded).1 % 2 ^ 16);
      payload = take (built fec i encoded).1 (built fec i encoded).0;
    }
    ∷ redundants o fec n (i + 1) (built fec i encoded).0

module _ (o : ByteOrder) (fec : RsFec) (n_lt : fec.rs.n < 256) (k_lt : fec.rs.k < fec.rs.n) where
  rs_header-index :
      (degree index size : ℕ)
      → index < fec.rs.n
      → fec.rs.n - 1 - degree ≡ index
      → rs_header o fec degree size
        ≡ header_init o rs_tag fec.rs.n fec.rs.k fec.block_id index (size % 2 ^ 16)
  unfolding rs_header
  rs_header-index degree index size h e =
      let i_lt : index < 256 = omega arith in
      let k_lt' : fec.rs.k < 256 = omega arith in
      rw (e, mod-eq_of_lt n_lt, mod-eq_of_lt k_lt', mod-eq_of_lt i_lt) refl

  encode_result-built :
      (i : ℕ) (encoded : List ℕ)
      → i < t_size fec.rs
      → encode_result fec.rs fec.buffer
          (pos i)
          encoded
          (pos (max_encoded_size fec.rs.max_data_size))
          0
        ≡ record {
          result = pos 0;
          buffer = (built fec i encoded).0;
          size = pos (built fec i encoded).1;
          degree = t_size fec.rs - 1 - i;
        }
  unfolding encode_result
  encode_result-built i encoded h =
      let inside : leb (t_size fec.rs) i ≡ false = ground arith in
      let fits : leb (max_encoded_size fec.rs.max_data_size) (max_encoded_size fec.rs.max_data_size)
          ≡ true =
        ground arith in
      rw (inside, fits) refl

  redundant_loop-sends :
      (n i : ℕ) (encoded : List ℕ) (sent : List Message)
      → i + n ≤ t_size fec.rs
      → redundant_loop o record_message fec n i encoded sent
        ≡ (sent ++ redundants o fec n i encoded, 0)
  unfolding redundant_loop redundants record_message
  redundant_loop-sends zero i encoded sent h = ap (λ l. (l, 0)) (sym (append-nil sent))
  redundant_loop-sends (suc n) i encoded sent h =
      let m : Message = record {
        header =
            header_init o rs_tag fec.rs.n fec.rs.k fec.block_id (fec.rs.k + i)
              ((built fec i encoded).1 % 2 ^ 16);
        payload = take (built fec i encoded).1 (built fec i encoded).0;
      } in
      rw
        (
          encode_result-built i encoded (omega arith),
          rs_header-index (t_size fec.rs - 1 - i) (fec.rs.k + i) (built fec i encoded).1
              (omega arith) (omega arith),
        )
        (redundant_loop-sends n (i + 1) (built fec i encoded).0 (sent ++ m ∷ []) (omega arith)
          ∙ ap (λ l. (l, 0))
              (append_assoc sent (m ∷ []) (redundants o fec n (i + 1) (built fec i encoded).0)))

-- The codec once its encoder has taken one more packet.
abbrev pub advanced : RsFec → List ℕ → RsFec
advanced fec input = record fec {
  buffer = record {
    count = fec.buffer.count + 1;
    checks = encode_rows fec.rs input (length input) fec.buffer.checks;
  };
}

module _ (o : ByteOrder) (fec : RsFec) (n_lt : fec.rs.n < 256) (k_lt : fec.rs.k < fec.rs.n) where
  encode-advanced :
      (input : List ℕ)
      → fec.buffer.count < fec.rs.k
      → length input ≤ fec.rs.max_data_size
      → Send.encode fec.rs fec.buffer input (pos (length input)) 0
        ≡ some (record {
          result = if fec.buffer.count + 1 == fec.rs.k then pos (t_size fec.rs) else pos 0;
          ec = (advanced fec input).buffer;
          degree = fec.rs.n - 1 - fec.buffer.count;
        })
  unfolding Send.encode is_complete
  encode-advanced input c l =
      let fits : ltb fec.rs.max_data_size (length input) ≡ false = ground arith in
      let below : leb (fec.buffer.count + 1) fec.rs.k ≡ true = ground arith in rw (fits, below) refl

  -- With a callback that accepts every packet, and of less than 256 packets a block, not all of data, the sender
  -- fails no check on a packet that is not too long when its encoder is not complete. It sends the packet as it is, with
  -- the number of packets before it in the block as its index. The last one of the data is followed by the redundant
  -- packets, in the order of their indices, and then the sender has the number that the generator gave for its next
  -- block, with no packet counted and all checks 0, and the generator is counted on; before the last one the sender keeps
  -- the number of its block, and the generator is not asked.
  pub rs_fec_encode-sends :
      (idgen : ℕ) (memory input : List ℕ) (sent : List Message)
      → fec.buffer.count < fec.rs.k
      → length input ≤ fec.rs.max_data_size
      → rs_fec_encode o record_message fec idgen memory input sent ≡ (
          if fec.buffer.count + 1 == fec.rs.k
          then some (
            (
              record {
                rs = fec.rs;
                block_id = idgen;
                buffer = record {
                  count = 0;
                  checks = replicate (max_encoded_size fec.rs.max_data_size * t_size fec.rs) 0;
                };
              },
              (idgen + 1) % 2 ^ 32,
            ),
            (sent ++ block_message o fec fec.buffer.count input ∷ [])
                ++ redundants o (advanced fec input) (t_size fec.rs) 0 memory,
            0,
          )
          else some (
            (advanced fec input, idgen),
            sent ++ block_message o fec fec.buffer.count input ∷ [],
            0,
          ))
  unfolding rs_fec_encode send_result send_encoded send_redundant record_message reset_encode_buffer
      reset_ec
  rs_fec_encode-sends idgen memory input sent c l =
      let next = advanced fec input in
      let header =
        rs_header-index o next n_lt k_lt (fec.rs.n - 1 - fec.buffer.count) fec.buffer.count
          (length input) (omega arith) (omega arith) in
      let some_left : (t_size fec.rs == 0) ≡ false = ground arith in
      elim (Bool-cases (fec.buffer.count + 1 == fec.rs.k)) [
        | inl last ↦
            rw (encode-advanced input c l, last, header, some_left)
              (ap (λ (r : List Message × ℕ). some (reset_encode_buffer next idgen, r.0, r.1))
                (redundant_loop-sends o next n_lt k_lt (t_size fec.rs) 0 memory
                  (sent ++ block_message o fec fec.buffer.count input ∷ []) (omega arith)))
        | inr more ↦ rw (encode-advanced input c l, more, header) refl
      ]
