-- ===== src/Rs/Coder.antt =====
-- The packet coder of src/main/rs/rs.h and src/main/rs/rs.c: `K` packets of data and `N - K` redundant ones,
-- each row of their bytes a code word. `none` is a failed `ensure`, which aborts the program, or a
-- shift that C leaves undefined.
pub mod Send
pub mod Receive
mod Tests
pub mod Init
pub mod Refusal
pub mod Defined
pub mod Rows
pub mod Restore
pub mod Block
pub mod Build
pub mod Arrival
pub mod Sender
pub mod Payload
pub mod Local
use nettle.Prelude.{
  ℕ, zero, suc, ◌+◌, ◌-◌, ◌*◌, ◌/◌, ◌%◌, ◌^◌, ℤ, pos, negsuc, above, at_least, bit_and, bit_or,
  Bool, true, false, ◌||◌, not, Option, none, some, List, [], ◌∷◌, ◌++◌, take, drop, get_or, set,
  replicate, ltb, leb, ◌==◌, if◌then◌else◌,
}
use nettle.Rs.Galois
use nettle.Rs.Galois.{Galois, init256, u32}
use nettle.Rs.RsCode
use nettle.Rs.RsCode.{RsCode, decode_syndromes, decode_erasure}

-- `E_RS_INVALID_SIZE` and the other errors
abbrev pub invalid_size : ℤ
invalid_size = negsuc 0

abbrev pub invalid_index : ℤ
invalid_index = negsuc 1

abbrev pub invalid_degree : ℤ
invalid_degree = negsuc 2

abbrev pub invalid_header : ℤ
invalid_header = negsuc 3

abbrev pub duplicate : ℤ
duplicate = negsuc 4

-- `RS_HEADER_SIZE`
abbrev pub header_size : ℕ
header_size = 4

-- `RS_MAX_ENCODED_SIZE`
abbrev pub max_encoded_size : ℕ → ℕ
max_encoded_size max_data_size = max_data_size + header_size

-- `rs_ec_t`
pub record Ec : Type 0 where
  pub count : ℕ
  pub checks : List ℕ

-- `rs_dc_t`; the mask is the four words of the `bitmap256_t`.
pub record Dc : Type 0 where
  pub count : ℕ
  pub mask : List ℕ
  pub syndromes : List ℕ
  pub erasure_degrees : List ℕ
  pub erasure_num : ℕ
  pub raw_erasure_num : ℕ

-- `rs_t`
pub record Rs : Type 0 where
  pub n : ℕ
  pub k : ℕ
  pub max_data_size : ℕ
  pub rscode : RsCode

-- `T_SIZE`, of at least as many packets as there are packets of data; with fewer it would be negative.
abbrev pub t_size : Rs → ℕ
t_size rs = rs.n - rs.k

-- `1 << m`, of an `int`: defined below the sign bit.
unfoldable pub shift_one : ℕ → Option ℕ
shift_one m = if ltb m 31 then some (2 ^ m) else none

-- `bitmap256_set`
unfoldable pub bitmap256_set : List ℕ → ℕ → Option (List ℕ)
bitmap256_set mask key = elim (shift_one (key % 64)) [
  | none ↦ none
  | some bit ↦ some (set mask (key / 64) (bit_or (get_or mask (key / 64) 0) bit))
]

-- `bitmap256_isset`
unfoldable pub bitmap256_isset : List ℕ → ℕ → Option Bool
bitmap256_isset mask key = elim (shift_one (key % 64)) [
  | none ↦ none
  | some bit ↦ some (not (bit_and (get_or mask (key / 64) 0) bit == 0))
]

-- `rs_init`, over the arrays that the struct holds.
unfoldable pub rs_init : ℕ → ℕ → ℕ → List ℕ → List ℕ → List ℕ → Rs
rs_init n k max_data_size galois_exps galois_logs rs_gen_poly =
    let galois = init256 galois_exps galois_logs in
    record {
      n = n;
      k = k;
      max_data_size = max_data_size;
      rscode = RsCode.init (u32 (255 + 2 ^ 32 - (n - k))) galois rs_gen_poly;
    }

-- `rs_reset_ec`
unfoldable pub reset_ec : Rs → Ec
reset_ec rs = record {
  count = 0;
  checks = replicate (max_encoded_size rs.max_data_size * t_size rs) 0;
}

-- `rs_reset_dc`
unfoldable pub reset_dc : Rs → Dc
reset_dc rs = record {
  count = 0;
  mask = replicate 4 0;
  syndromes = replicate (max_encoded_size rs.max_data_size * t_size rs) 0;
  erasure_degrees = replicate (t_size rs) 0;
  erasure_num = 0;
  raw_erasure_num = 0;
}

-- A call on a pointer into an array, `n` words from its start.
unfoldable pub at_offset : (List ℕ → List ℕ) → ℕ → List ℕ → List ℕ
at_offset f n xs = take n xs ++ f (drop n xs)

-- The byte `i` of a size, as `0xff & (size >> (i * 8))`.
abbrev pub size_byte : ℕ → ℕ → ℕ
size_byte size i = size / 2 ^ (i * 8) % 256

-- A loop of `rows` rounds that hands row `i + offset` the value `value i`.
unfoldable pub row_loop : (ℕ → List ℕ → List ℕ) → ℕ → (ℕ → ℕ) → ℕ → ℕ → ℕ → List ℕ → List ℕ
row_loop step T value offset zero i xs = xs
row_loop step T value offset (suc rows) i xs =
    row_loop step T value offset rows (i + 1) (at_offset (step (value i)) ((i + offset) * T) xs)

-- `rs_is_ec_complete` and `rs_is_dc_complete`, of the count.
unfoldable pub is_complete : Rs → ℕ → Option Bool
is_complete rs count = if leb count rs.k then some (count == rs.k) else none

-- What `rs_encode_result` and `rs_decode_result` return and leave.
pub record Packet : Type 0 where
  pub result : ℤ
  pub buffer : List ℕ
  pub size : ℤ
  pub degree : ℕ
