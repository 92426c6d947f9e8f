-- ===== src/Rs/Coder/Send.antt =====
-- The sender's half of src/main/rs/rs.c: `rs_encode` and `rs_encode_result`.
use nettle.Prelude.{
  ℕ, zero, suc, ◌+◌, ◌-◌, ◌*◌, ◌%◌, ℤ, pos, negsuc, at_least, Option, none, some, List, get_or, set,
  ltb, leb, ◌==◌, if◌then◌else◌,
}
use nettle.Rs.RsCode
use nettle.Rs.RsCode.{RsCode, decode_syndromes, decode_erasure}
use nettle.Rs.Coder.{
  Rs, Ec, Packet, t_size, header_size, max_encoded_size, invalid_size, invalid_index, row_loop,
  size_byte, is_complete,
}

-- The three loops of `rs_encode`: the size, the data and the padding.
unfoldable pub encode_rows : Rs → List ℕ → ℕ → List ℕ → List ℕ
encode_rows rs input size checks =
    let T = t_size rs in
    let step = RsCode.encode rs.rscode in
    let sized = row_loop step T (size_byte size) 0 header_size 0 checks in
    let filled = row_loop step T (λ i. get_or input i 0) header_size size 0 sized in
    row_loop step T (λ _. 0) (header_size + size) (rs.max_data_size - size) 0 filled

-- What `rs_encode` returns and leaves.
pub record Encoded : Type 0 where
  pub result : ℤ
  pub ec : Ec
  pub degree : ℕ

-- `rs_encode`; the out parameter `degree` keeps its value when the size is refused.
unfoldable pub encode : Rs → Ec → List ℕ → ℤ → ℕ → Option Encoded
encode rs ec input (negsuc _) degree =
    some (record { result = invalid_size; ec = ec; degree = degree })
encode rs ec input (pos size) degree =
    if ltb rs.max_data_size size
    then some (record { result = invalid_size; ec = ec; degree = degree })
    else elim (is_complete rs (ec.count + 1)) [
      | none ↦ none
      | some complete ↦ some (record {
        result = if complete then pos (t_size rs) else pos 0;
        ec = record { count = ec.count + 1; checks = encode_rows rs input size ec.checks };
        degree = rs.n - 1 - ec.count;
      })
    ]

-- The loop of `build_redundant`, with `valid_size` and `trailing_zero`.
unfoldable pub build_loop : List ℕ → ℕ → ℕ → ℕ → ℕ → ℕ → ℕ → List ℕ → List ℕ × ℕ
build_loop from T j zero i valid_size trailing_zero to = (to, valid_size)
build_loop from T j (suc rounds) i valid_size trailing_zero to =
    let byte = get_or from (i * T + j) 0 % 256 in
    let to' = set to i byte in
    let zeros = build_loop from T j rounds (i + 1) valid_size (trailing_zero + 1) to' in
    let bytes = build_loop from T j rounds (i + 1) (valid_size + (1 + trailing_zero)) 0 to' in
    if byte == 0 then zeros else bytes

-- `build_redundant`
unfoldable pub build_redundant : List ℕ → List ℕ → ℕ → ℕ → ℕ → List ℕ × ℕ
build_redundant to from size T j = build_loop from T j size 0 0 0 to

-- `rs_encode_result`
unfoldable pub encode_result : Rs → Ec → ℤ → List ℕ → ℤ → ℕ → Packet
encode_result rs ec (negsuc _) buffer size degree = record {
  result = invalid_index;
  buffer = buffer;
  size = size;
  degree = degree;
}
encode_result rs ec (pos index) buffer size degree =
    let T = t_size rs in
    let built = build_redundant buffer ec.checks (max_encoded_size rs.max_data_size) T index in
    if leb T index
    then record { result = invalid_index; buffer = buffer; size = size; degree = degree }
    else if at_least (max_encoded_size rs.max_data_size) size
    then record { result = pos 0; buffer = built.0; size = pos built.1; degree = T - 1 - index }
    else record { result = invalid_size; buffer = buffer; size = size; degree = degree }
