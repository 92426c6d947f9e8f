-- ===== src/Rs/Coder/Receive.antt =====
-- The receiver's half of src/main/rs/rs.c: `rs_decode` and `rs_decode_result`.
use nettle.Prelude.{
  ℕ, zero, suc, ◌+◌, ◌-◌, ◌*◌, ◌%◌, ◌^◌, ℤ, pos, negsuc, above, at_least, bit_or, Bool, Option,
  none, some, List, drop, get_or, set, ltb, leb, ◌==◌, if◌then◌else◌,
}
use nettle.Rs.Galois.{u32}
use nettle.Rs.RsCode.{decode_syndromes, decode_erasure}
use nettle.Rs.Coder.{
  Rs, Dc, Packet, t_size, header_size, invalid_size, invalid_index, invalid_degree, invalid_header,
  duplicate, row_loop, size_byte, is_complete, bitmap256_set, bitmap256_isset,
}

-- `IS_RAW`
abbrev pub is_raw : Rs → ℕ → Bool
is_raw rs degree = leb (t_size rs) degree

-- The two loops of `rs_decode` over the size and the data.
unfoldable pub decode_rows : Rs → List ℕ → ℕ → ℕ → List ℕ → List ℕ
decode_rows rs input size degree syndromes =
    let T = t_size rs in
    let step = λ (value : ℕ). decode_syndromes rs.rscode value degree in
    let sized = row_loop step T (size_byte size) 0 header_size 0 syndromes in
    if is_raw rs degree
    then row_loop step T (λ i. get_or input i 0) header_size size 0 sized
    else row_loop step T (λ i. get_or input i 0) 0 size 0 syndromes

-- The loops that list the degrees below `i + 1` and from `low` on that are not in the mask, highest
-- first, after the `num` that the array holds.
unfoldable pub erasures_from : List ℕ → ℕ → ℕ → List ℕ → ℕ → Option (List ℕ × ℕ)
erasures_from mask zero low degrees num = some (degrees, num)
erasures_from mask (suc i) low degrees num =
    let missing = erasures_from mask i low (set degrees num i) (num + 1) in
    let present = erasures_from mask i low degrees num in
    if leb low i
    then elim (bitmap256_isset mask i) [
      | none ↦ none
      | some seen ↦ if seen then present else missing
    ]
    else some (degrees, num)

-- What `rs_decode` returns and leaves; `raw` is the out parameter `is_raw`.
pub record Decoded : Type 0 where
  pub result : ℤ
  pub dc : Dc
  pub raw : Bool

-- The end of `rs_decode`, once enough packets have arrived.
unfoldable pub list_erasures : Rs → Dc → Bool → Option Decoded
list_erasures rs dc raw =
    let T = t_size rs in
    elim (erasures_from dc.mask rs.n T dc.erasure_degrees 0) [
      | none ↦ none
      | some first ↦
          if first.1 == 0
          then some (record {
            result = pos 0;
            dc = record {
              count = dc.count;
              mask = dc.mask;
              syndromes = dc.syndromes;
              erasure_degrees = first.0;
              erasure_num = 0;
              raw_erasure_num = 0;
            };
            raw = raw;
          })
          else elim (erasures_from dc.mask T 0 first.0 first.1) [
            | none ↦ none
            | some all ↦ some (record {
              result = pos first.1;
              dc = record {
                count = dc.count;
                mask = dc.mask;
                syndromes = dc.syndromes;
                erasure_degrees = all.0;
                erasure_num = all.1;
                raw_erasure_num = first.1;
              };
              raw = raw;
            })
          ]
    ]

-- `rs_decode` once the packet is accepted.
unfoldable pub accept : Rs → Dc → List ℕ → ℕ → ℕ → Option Decoded
accept rs dc input size degree = elim (bitmap256_set dc.mask degree) [
  | none ↦ none
  | some mask ↦
      let dc' : Dc = record {
        count = dc.count + 1;
        mask = mask;
        syndromes = decode_rows rs input size degree dc.syndromes;
        erasure_degrees = dc.erasure_degrees;
        erasure_num = dc.erasure_num;
        raw_erasure_num = dc.raw_erasure_num;
      } in
      elim (is_complete rs (dc.count + 1)) [
        | none ↦ none
        | some complete ↦
            if complete
            then list_erasures rs dc' (is_raw rs degree)
            else some (record { result = pos 0; dc = dc'; raw = is_raw rs degree })
      ]
]

-- The size that `rs_decode` allows.
abbrev pub allowed_size : Rs → ℕ → ℕ
allowed_size rs degree =
    if is_raw rs degree then rs.max_data_size else rs.max_data_size + header_size

-- `rs_decode`
unfoldable pub decode : Rs → Dc → List ℕ → ℤ → ℤ → Bool → Option Decoded
decode rs dc input size (negsuc _) raw =
    some (record { result = invalid_degree; dc = dc; raw = raw })
decode rs dc input (negsuc _) (pos degree) raw =
    if leb rs.n degree
    then some (record { result = invalid_degree; dc = dc; raw = raw })
    else some (record { result = invalid_size; dc = dc; raw = raw })
decode rs dc input (pos size) (pos degree) raw =
    if leb rs.n degree
    then some (record { result = invalid_degree; dc = dc; raw = raw })
    else if ltb (allowed_size rs degree) size
    then some (record { result = invalid_size; dc = dc; raw = raw })
    else elim (bitmap256_isset dc.mask degree) [
      | none ↦ none
      | some seen ↦
          if seen
          then some (record { result = duplicate; dc = dc; raw = is_raw rs degree })
          else accept rs dc input size degree
    ]

-- A `uint32_t` as an `int`.
abbrev pub to_int : ℕ → ℤ
to_int w = if ltb w (2 ^ 31) then pos w else negsuc (2 ^ 32 - 1 - w)

-- One symbol of a row, erased.
abbrev pub erased_symbol : Rs → Dc → ℕ → ℕ → Option ℕ
erased_symbol rs dc row index =
    decode_erasure rs.rscode (drop (row * t_size rs) dc.syndromes) dc.erasure_degrees dc.erasure_num
      index

-- The loop that decodes the size, whose word is `size` so far.
unfoldable pub size_loop : Rs → Dc → ℕ → ℕ → ℕ → ℕ → Option ℕ
size_loop rs dc index zero i size = some size
size_loop rs dc index (suc rounds) i size = elim (erased_symbol rs dc i index) [
  | none ↦ none
  | some s ↦ size_loop rs dc index rounds (i + 1) (bit_or size (u32 (s * 2 ^ (i * 8))))
]

-- The loop that decodes the data.
unfoldable pub data_loop : Rs → Dc → ℕ → ℕ → ℕ → List ℕ → Option (List ℕ)
data_loop rs dc index zero i buffer = some buffer
data_loop rs dc index (suc rounds) i buffer = elim (erased_symbol rs dc (i + header_size) index) [
  | none ↦ none
  | some s ↦ data_loop rs dc index rounds (i + 1) (set buffer i (s % 256))
]

-- The rounds of a loop from 0 up to an `int`.
abbrev pub rounds_to : ℤ → ℕ
rounds_to (pos n) = n
rounds_to (negsuc n) = 0

-- `rs_decode_result`; `none` is a division by zero.
unfoldable pub decode_result : Rs → Dc → ℤ → List ℕ → ℤ → ℕ → Option Packet
decode_result rs dc (negsuc _) buffer size degree =
    some (record { result = invalid_index; buffer = buffer; size = size; degree = degree })
decode_result rs dc (pos index) buffer size degree =
    if leb dc.raw_erasure_num index
    then some (record { result = invalid_index; buffer = buffer; size = size; degree = degree })
    else if at_least rs.max_data_size size
    then elim (size_loop rs dc index header_size 0 0) [
      | none ↦ none
      | some word ↦
          if above rs.max_data_size (to_int word)
          then some
              (record { result = invalid_header; buffer = buffer; size = size; degree = degree })
          else elim (data_loop rs dc index (rounds_to (to_int word)) 0 buffer) [
            | none ↦ none
            | some data' ↦ some (record {
              result = pos 0;
              buffer = data';
              size = to_int word;
              degree = get_or dc.erasure_degrees index 0;
            })
          ]
    ]
    else some (record { result = invalid_size; buffer = buffer; size = size; degree = degree })
