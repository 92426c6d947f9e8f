-- ===== src/Tunnel/Distributor.antt =====
-- The paths of src/main/tunnel/nt_distributor.h and src/main/tunnel/nt_distributor.c: which path the copy
-- `dup` of the packet `seq` of a block takes. A pointer to a path is its index in the array `paths`.
-- `seq` and `dup` are the callers' counters, which are not negative.
pub mod Range
use nettle.Prelude.{
  ℕ, zero, suc, ◌+◌, ◌-◌, ◌*◌, ◌%◌, ℤ, pos, negsuc, negative, at_least, Bool, true, false, Option,
  none, some, List, get_or, leb, ◌==◌, if◌then◌else◌,
}

-- `nt_distributor_t`; `seq2addr` is a matrix with a row of `dup_num` path numbers for each packet.
pub record Distributor : Type 0 where
  pub path_num : ℕ
  pub seq2addr : List ℤ
  pub seq_num : ℕ
  pub dup_num : ℕ

-- The inner loop of `nt_distributor_init` from `j` on: no path number of the row is too large.
unfoldable pub row_in_range : ℕ → List ℤ → ℕ → ℕ → ℕ → Bool
row_in_range path_num seq2addr base zero j = true
row_in_range path_num seq2addr base (suc rounds) j =
    let rest = row_in_range path_num seq2addr base rounds (j + 1) in
    if at_least path_num (get_or seq2addr (base + j) (negsuc 0)) then false else rest

-- The outer loop from `i` on: the number of rows in use, or `none` for the `return false`.
unfoldable pub rows_in_use : ℕ → List ℤ → ℕ → ℕ → ℕ → Option ℕ
rows_in_use path_num seq2addr dup_num zero i = some i
rows_in_use path_num seq2addr dup_num (suc rounds) i =
    let rest = rows_in_use path_num seq2addr dup_num rounds (i + 1) in
    if negative (get_or seq2addr (i * dup_num) (negsuc 0))
    then some i
    else if row_in_range path_num seq2addr (i * dup_num) dup_num 0
    then rest
    else none

-- `nt_distributor_init`; `none` is `false`.
unfoldable pub init : ℕ → List ℤ → ℤ → ℤ → Option Distributor
init path_num seq2addr (negsuc _) dup_num = none
init path_num seq2addr (pos _) (negsuc _) = none
init path_num seq2addr (pos seq_num) (pos dup_num) =
    elim (rows_in_use path_num seq2addr dup_num seq_num 0) [
      | none ↦ none
      | some actual_seq_num ↦ some (record {
        path_num = path_num;
        seq2addr = seq2addr;
        seq_num = actual_seq_num;
        dup_num = dup_num;
      })
    ]

-- What `nt_distributor_select` returns: `NULL` or a path.
pub data Selected : Type 0 where
  no_path : Selected
  path : ℕ → Selected

-- `nt_distributor_select`; `none` is the remainder by zero.
unfoldable pub select : Distributor → ℕ → ℕ → Option Selected
select distributor seq dup =
    if leb distributor.dup_num dup
    then some no_path
    else if distributor.seq_num == 0
    then none
    else elim (get_or distributor.seq2addr (seq % distributor.seq_num * distributor.dup_num + dup)
        (negsuc 0)) [ negsuc _ ↦ some no_path | pos n ↦ some (path n) ]
