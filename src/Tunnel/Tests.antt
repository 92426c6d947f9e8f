-- ===== src/Tunnel/Tests.antt =====
-- Runs of the tunnel's parts on concrete values.
use nettle.Prelude.{
  ℕ, ◌+◌, ◌%◌, ◌^◌, ◌<◌, ◌≡◌, ◌≢◌, refl, arith, ℤ, pos, negsuc, List, [], ◌∷◌, ◌++◌, map, none,
  some,
}
use nettle.Tunnel.Distributor
use nettle.Tunnel.Distributor.{Distributor, Selected, path, row_in_range, rows_in_use, select}
use nettle.Tunnel.Distributor.Range.{select-init}
use nettle.Tunnel.Fec.{
  header_payload, to_header, of_header, ByteOrder, IsByteOrder, dup_encode, dummy_encode,
  dummy_decode, header_init, header_block_id, header_payload_size,
}
use nettle.Tunnel.Fec.Codec.{
  Message, record_message, copy_of, upward, to_header-header_init, dup_encode-copies,
  dummy_decode-encode,
}

-- Two packets, each with one copy, over three paths; a third row is not in use.
abbrev matrix : List ℤ
matrix = pos 2 ∷ pos 0 ∷ negsuc 0 ∷ []

abbrev chosen : Distributor
chosen = record { path_num = 3; seq2addr = matrix; seq_num = 2; dup_num = 1 }

select-init_example :
    (select chosen 5 0 ≢ none) × ((n : ℕ) → select chosen 5 0 ≡ some (path n) → n < 3)
unfolding Distributor.init rows_in_use row_in_range
select-init_example = select-init 3 matrix (pos 3) (pos 1) chosen refl (omega arith) 5 0

-- A machine whose byte order is the network's.
abbrev big_endian : ByteOrder
big_endian = record { htonl = λ x. x; ntohl = λ x. x; htons = λ x. x; ntohs = λ x. x }

big_endian-IsByteOrder : IsByteOrder big_endian
big_endian-IsByteOrder = record {
  ntohl-htonl = λ x h. refl;
  ntohs-htons = λ x h. refl;
  htonl-lt = λ x h. h;
  htons-lt = λ x h. h;
  ntohl-lt = λ x h. h;
  ntohs-lt = λ x h. h;
}

to_header-header_init_example :
    let packet = of_header (header_init big_endian 49 3 1 70000 2 1400) ++ (8 ∷ []) in
    ((to_header packet).tag ≡ 49)
    × ((to_header packet).n ≡ 3)
    × ((to_header packet).k ≡ 1)
    × ((to_header packet).block_index ≡ 2)
    × (header_block_id big_endian (to_header packet) ≡ 70000)
    × (header_payload_size big_endian (to_header packet) ≡ 1400)
    × (header_payload packet ≡ 8 ∷ [])
to_header-header_init_example =
    to_header-header_init big_endian big_endian-IsByteOrder 49 3 1 70000 2 1400 (8 ∷ [])
      (omega arith) (omega arith) (omega arith) (omega arith) (omega arith) (omega arith)

dup_encode-copies_example :
    dup_encode big_endian record_message 3 8 (1 ∷ 2 ∷ []) []
    ≡ (([] ++ map (copy_of big_endian 3 8 (1 ∷ 2 ∷ [])) (upward 3 0), 0), (8 + 1) % 2 ^ 32)
dup_encode-copies_example = dup_encode-copies big_endian 3 8 (1 ∷ 2 ∷ []) []

abbrev plain : Message
plain = record {
  header = record { tag = 39; n = 0; k = 0; block_id_n = 0; block_index = 0; payload_size_n = 2 };
  payload = 1 ∷ 2 ∷ [];
}

abbrev none_left : List Message
none_left = []

abbrev deliver : List ℕ → List ℕ → List ℕ × ℕ
deliver s input = (s ++ input, 7)

dummy_decode-encode_example :
    (none_left ≡ [])
    × (dummy_decode big_endian deliver 77 plain.header plain.payload (9 ∷ [])
        ≡ deliver (9 ∷ []) (1 ∷ 2 ∷ []))
unfolding dummy_encode record_message header_init
dummy_decode-encode_example =
    dummy_decode-encode big_endian (List ℕ) deliver 77 (1 ∷ 2 ∷ []) (9 ∷ []) none_left plain refl
