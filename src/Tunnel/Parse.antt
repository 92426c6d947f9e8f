-- ===== src/Tunnel/Parse.antt =====
-- The parsers of src/main/tunnel/nt_distributor.c. `sscanf` and the resolver behind `address_from` are
-- parameters; a pointer into the text is the rest of it, `NULL` is `none`. A write outside an array is
-- a fault, which is `none` around the result.
pub mod Bounds
mod Tests
use nettle.Prelude.{
  ℕ, zero, suc, ◌+◌, ◌*◌, ℤ, pos, negsuc, Option, none, some, List, [], ◌∷◌, length, set, get_or,
  ltb, if◌then◌else◌,
}
use nettle.Dispatcher.Address.{Address}
use nettle.Utils.Strings.{skip_delimit}
use nettle.Tunnel.Processor.Types.{NtPath}

-- What the parsers use of the C library and of the resolver: `sscanf` of a host with its port, and of a number, each
-- with the text behind it; and the address of a host and a port, of a type of socket.
pub record Scanner : Type 0 where
  pub scan_host : List ℕ → Option (List ℕ × List ℕ × List ℕ)
  pub scan_int : List ℕ → Option (ℤ × List ℕ)
  pub resolve : List ℕ → List ℕ → ℕ → Option Address

-- A write to an array.
unfoldable pub write {ℓ} : {A : Type ℓ} → List A → ℕ → A → Option (List A)
write xs i v = if ltb i (length xs) then some (set xs i v) else none

-- `SOCK_DGRAM`, and `0.0.0.0` with the port `0`
abbrev pub sock_dgram : ℕ
sock_dgram = 2

abbrev pub any_host : List ℕ
any_host = 48 ∷ (46 ∷ (48 ∷ (46 ∷ (48 ∷ (46 ∷ (48 ∷ []))))))

module _ (c : Scanner) where
  -- The end of `parse_address`, of the name and port that were read.
  unfoldable pub address_of : Option (List ℕ × List ℕ × List ℕ) → Option (Address × List ℕ)
  address_of none = none
  address_of (some (name, port, rest)) = elim (c.resolve name port sock_dgram) [
    | none ↦ none
    | some address ↦ some (address, rest)
  ]

  -- `parse_address`
  unfoldable pub parse_address : List ℕ → Option (Address × List ℕ)
  parse_address str = address_of (c.scan_host str)

  -- `parse_path`: the path, as far as it was written, and the rest of the text.
  unfoldable pub parse_path : NtPath → List ℕ → NtPath × Option (List ℕ)
  parse_path path str = elim (parse_address str) [
    | none ↦ (path, none)
    | some (src, str') ↦ elim (skip_delimit (45 ∷ []) str') [
      | none ↦ elim (c.resolve any_host (48 ∷ []) 0) [
        | none ↦ (record { src = src; dst = src }, some str')
        | some any ↦ (record { src = any; dst = src }, some str')
      ]
      | some s ↦ elim (parse_address s) [
        | none ↦ (record { src = src; dst = path.dst }, none)
        | some (dst, rest) ↦ (record { src = src; dst = dst }, some rest)
      ]
    ]
  ]

  -- The loop of `parse_paths` from `i` on, with the number `n` of paths and the array.
  unfoldable pub paths_loop :
      NtPath → ℕ → ℕ → ℕ → List NtPath → List ℕ → Option (List NtPath × ℕ × List ℕ)
  paths_loop unset zero i n paths str = some (paths, n, str)
  paths_loop unset (suc rounds) i n paths str =
      let r = parse_path (get_or paths i unset) str in
      elim (write paths i r.0) [
        | none ↦ none
        | some paths' ↦ elim r.1 [
          | none ↦ some (paths', n, str)
          | some rest ↦ elim (skip_delimit (44 ∷ []) rest) [
            | none ↦ some (paths', n + 1, rest)
            | some s ↦ paths_loop unset rounds (i + 1) (n + 1) paths' s
          ]
        ]
      ]

  -- `parse_paths`
  unfoldable pub parse_paths : NtPath → ℕ → List NtPath → List ℕ → Option (List NtPath × ℕ × List ℕ)
  parse_paths unset num paths str = paths_loop unset num 0 0 paths str

  -- The loop of `parse_seq2addr` over a row from `j` on.
  unfoldable pub seq_row_loop : ℕ → ℕ → ℕ → List ℤ → List ℕ → Option (List ℤ × List ℕ)
  seq_row_loop base zero j seq2addr str = some (seq2addr, str)
  seq_row_loop base (suc rounds) j seq2addr str = elim (c.scan_int str) [
    | none ↦ some (seq2addr, str)
    | some (v, str') ↦ elim (write seq2addr (base + j) v) [
      | none ↦ none
      | some seq2addr' ↦ elim (skip_delimit (44 ∷ []) str') [
        | none ↦ some (seq2addr', str')
        | some s ↦ seq_row_loop base rounds (j + 1) seq2addr' s
      ]
    ]
  ]

  -- The loop over the rows from `i` on.
  unfoldable pub seq_rows_loop : ℕ → ℕ → ℕ → List ℤ → List ℕ → Option (List ℤ × List ℕ)
  seq_rows_loop dup_num zero i seq2addr str = some (seq2addr, str)
  seq_rows_loop dup_num (suc rounds) i seq2addr str =
      elim (seq_row_loop (i * dup_num) dup_num 0 seq2addr str) [
        | none ↦ none
        | some (seq2addr', str') ↦ elim (skip_delimit (59 ∷ []) str') [
          | none ↦ some (seq2addr', str')
          | some s ↦ seq_rows_loop dup_num rounds (i + 1) seq2addr' s
        ]
      ]

-- The loops that fill the matrix with -1, over a row from `j` on and over the rows from `i` on.
unfoldable pub clear_row : ℕ → ℕ → ℕ → List ℤ → Option (List ℤ)
clear_row base zero j seq2addr = some seq2addr
clear_row base (suc rounds) j seq2addr = elim (write seq2addr (base + j) (negsuc 0)) [
  | none ↦ none
  | some seq2addr' ↦ clear_row base rounds (j + 1) seq2addr'
]

unfoldable pub clear_rows : ℕ → ℕ → ℕ → List ℤ → Option (List ℤ)
clear_rows dup_num zero i seq2addr = some seq2addr
clear_rows dup_num (suc rounds) i seq2addr = elim (clear_row (i * dup_num) dup_num 0 seq2addr) [
  | none ↦ none
  | some seq2addr' ↦ clear_rows dup_num rounds (i + 1) seq2addr'
]

-- `parse_seq2addr`
unfoldable pub parse_seq2addr : Scanner → List ℤ → ℕ → ℕ → List ℕ → Option (List ℤ × List ℕ)
parse_seq2addr c seq2addr seq_num dup_num str = elim (clear_rows dup_num seq_num 0 seq2addr) [
  | none ↦ none
  | some cleared ↦ seq_rows_loop c dup_num seq_num 0 cleared str
]
