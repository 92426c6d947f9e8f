-- ===== src/Tunnel/Parse/Bounds.antt =====
-- The parsers of src/main/tunnel/nt_distributor.c write inside their arrays.
use nettle.Prelude.{
  ℕ, zero, suc, ◌+◌, ◌*◌, ◌≤◌, ◌<◌, ◌≡◌, refl, ◌∙◌, arith, ℤ, negsuc, Option, some, Option-cases,
  inl, inr, List, [], ◌∷◌, length, set, length-set, get_or,
}
use nettle.Utils.Strings.{skip_delimit}
use nettle.Tunnel.Processor.Types.{NtPath}
use nettle.Tunnel.Parse.{
  Scanner, write, clear_row, clear_rows, seq_row_loop, seq_rows_loop, parse_seq2addr, parse_path,
  paths_loop, parse_paths,
}

write-some {ℓ} :
    {A : Type ℓ} (xs : List A) (i : ℕ) (v : A) → i < length xs → write xs i v ≡ some (set xs i v)
unfolding write
write-some xs i v h = ground arith

clear_row-length :
    (base rounds j : ℕ) (xs : List ℤ)
    → base + j + rounds ≤ length xs
    → (ys : List ℤ) × (clear_row base rounds j xs ≡ some ys) × (length ys ≡ length xs)
unfolding clear_row
clear_row-length base zero j xs h = (xs, refl, refl)
clear_row-length base (suc rounds) j xs h =
    let same = length-set xs (base + j) (negsuc 0) in
    let (ys, e, l) =
      clear_row-length base rounds (j + 1) (set xs (base + j) (negsuc 0)) (omega (arith, same)) in
    (ys, rw (clear_row, write-some xs (base + j) (negsuc 0) (omega arith)) e, l ∙ same)

row-end : (i n d : ℕ) → i < n → i * d + d ≤ n * d
row-end i n d h = grind arith

clear_rows-length :
    (dup_num seq_num rounds i : ℕ) (xs : List ℤ)
    → i + rounds ≡ seq_num
    → length xs ≡ seq_num * dup_num
    → (ys : List ℤ) × (clear_rows dup_num rounds i xs ≡ some ys) × (length ys ≡ seq_num * dup_num)
unfolding clear_rows
clear_rows-length dup_num seq_num zero i xs e l = (xs, refl, l)
clear_rows-length dup_num seq_num (suc rounds) i xs e l =
    let (ys, f, m) =
      clear_row-length (i * dup_num) dup_num 0 xs
        (omega (arith, l, row-end i seq_num dup_num (omega arith))) in
    let (zs, g, n) = clear_rows-length dup_num seq_num rounds (i + 1) ys (omega arith) (m ∙ l) in
    (zs, rw (clear_rows, f) g, n)

module _ (c : Scanner) where
  -- What a loop returns: an array of this length, and the rest of the text.
  abbrev Returns : ℕ → Option (List ℤ × List ℕ) → Type 0
  Returns n r = (ys : List ℤ) × (rest : List ℕ) × (r ≡ some (ys, rest)) × (length ys ≡ n)

  row-Returns :
      (base rounds j : ℕ) (xs : List ℤ) (str : List ℕ)
      → base + j + rounds ≤ length xs
      → Returns (length xs) (seq_row_loop c base rounds j xs str)
  unfolding seq_row_loop
  row-Returns base zero j xs str h = (xs, str, refl, refl)
  row-Returns base (suc rounds) j xs str h = elim (Option-cases (c.scan_int str)) [
    | inl e ↦ (xs, str, rw (seq_row_loop, e) refl, refl)
    | inr ((v, str'), e) ↦
        let same = length-set xs (base + j) v in
        let written = write-some xs (base + j) v (omega arith) in
        elim (Option-cases (skip_delimit (44 ∷ []) str')) [
          | inl f ↦ (set xs (base + j) v, str', rw (seq_row_loop, e, written, f) refl, same)
          | inr (s, f) ↦
              let (ys, rest, g, l) =
                row-Returns base rounds (j + 1) (set xs (base + j) v) s (omega (arith, same)) in
              (ys, rest, rw (seq_row_loop, e, written, f) g, l ∙ same)
        ]
  ]

  rows-Returns :
      (dup_num seq_num rounds i : ℕ) (xs : List ℤ) (str : List ℕ)
      → i + rounds ≡ seq_num
      → length xs ≡ seq_num * dup_num
      → Returns (seq_num * dup_num) (seq_rows_loop c dup_num rounds i xs str)
  unfolding seq_rows_loop
  rows-Returns dup_num seq_num zero i xs str e l = (xs, str, refl, l)
  rows-Returns dup_num seq_num (suc rounds) i xs str e l =
      let (ys, str', f, m) =
        row-Returns (i * dup_num) dup_num 0 xs str
          (omega (arith, l, row-end i seq_num dup_num (omega arith))) in
      elim (Option-cases (skip_delimit (59 ∷ []) str')) [
        | inl g ↦ (ys, str', rw (seq_rows_loop, f, g) refl, m ∙ l)
        | inr (s, g) ↦
            let (zs, rest, k, n) =
              rows-Returns dup_num seq_num rounds (i + 1) ys s (omega arith) (m ∙ l) in
            (zs, rest, rw (seq_rows_loop, f, g) k, n)
      ]

  -- Whatever the text, `parse_seq2addr` ends and writes inside an array of `seq_num * dup_num` entries only.
  pub parse_seq2addr-Returns :
      (seq2addr : List ℤ) (seq_num dup_num : ℕ) (str : List ℕ)
      → length seq2addr ≡ seq_num * dup_num
      → (ys : List ℤ) × (rest : List ℕ) × (parse_seq2addr c seq2addr seq_num dup_num str
          ≡ some (ys, rest))
        × (length ys ≡ seq_num * dup_num)
  unfolding parse_seq2addr
  parse_seq2addr-Returns seq2addr seq_num dup_num str l =
      let (cleared, e, m) = clear_rows-length dup_num seq_num seq_num 0 seq2addr (omega arith) l in
      let (ys, rest, f, n) = rows-Returns dup_num seq_num seq_num 0 cleared str (omega arith) m in
      (ys, rest, rw (parse_seq2addr, e) f, n)

  paths-Returns :
      (unset : NtPath) (num rounds i : ℕ) (paths : List NtPath) (str : List ℕ)
      → i + rounds ≡ num
      → length paths ≡ num
      → (ys : List NtPath) × (n : ℕ) × (rest : List ℕ) × (paths_loop c unset rounds i i paths str
          ≡ some (ys, n, rest))
        × (n ≤ num)
        × (length ys ≡ num)
  unfolding paths_loop
  paths-Returns unset num zero i paths str e l = (paths, i, str, refl, omega arith, l)
  paths-Returns unset num (suc rounds) i paths str e l =
      let r = parse_path c (get_or paths i unset) str in
      let same = length-set paths i r.0 ∙ l in
      let written = write-some paths i r.0 (omega arith) in
      elim (Option-cases r.1) [
        | inl f ↦ (set paths i r.0, i, str, rw (paths_loop, written, f) refl, omega arith, same)
        | inr (rest, f) ↦ elim (Option-cases (skip_delimit (44 ∷ []) rest)) [
          | inl g ↦
              (set paths i r.0, i + 1, rest, rw (paths_loop, written, f, g) refl, omega arith, same)
          | inr (s, g) ↦
              let (ys, n, end, k, b, m) =
                paths-Returns unset num rounds (i + 1) (set paths i r.0) s (omega arith) same in
              (ys, n, end, rw (paths_loop, written, f, g) k, b, m)
        ]
      ]

  -- Whatever the text, `parse_paths` ends, writes inside its array only and counts no more paths than it holds.
  pub parse_paths-Returns :
      (unset : NtPath) (num : ℕ) (paths : List NtPath) (str : List ℕ)
      → length paths ≡ num
      → (ys : List NtPath) × (n : ℕ) × (rest : List ℕ) × (parse_paths c unset num paths str
          ≡ some (ys, n, rest))
        × (n ≤ num)
        × (length ys ≡ num)
  unfolding parse_paths
  parse_paths-Returns unset num paths str l =
      paths-Returns unset num num 0 paths str (omega arith) l
