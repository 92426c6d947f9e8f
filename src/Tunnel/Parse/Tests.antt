-- ===== src/Tunnel/Parse/Tests.antt =====
-- Runs of the parsers, with a scanner that reads one character.
use nettle.Prelude.{
  ℕ, ◌*◌, ◌≤◌, ◌≡◌, refl, ℤ, pos, none, some, List, [], ◌∷◌, ◌++◌, length, replicate,
}
use nettle.Dispatcher.Address.{inet}
use nettle.Utils.Strings.{contains, skip_delimit}
use nettle.Utils.Strings.Delimit.{skip_delimit-append}
use nettle.Tunnel.Processor.Types.{NtPath, null_path}
use nettle.Tunnel.Parse.{Scanner, parse_paths, parse_seq2addr}
use nettle.Tunnel.Parse.Bounds.{parse_seq2addr-Returns, parse_paths-Returns}

abbrev one_character : Scanner
one_character = record {
  scan_host = λ str. elim str [ [] ↦ none | x ∷ rest ↦ some (x ∷ [], x ∷ [], rest) ];
  scan_int = λ str. elim str [ [] ↦ none | x ∷ rest ↦ some (pos x, rest) ];
  resolve = λ name port socktype. some (inet 1 2);
}

-- Three numbers with delimiters.
abbrev numbers : List ℕ
numbers = 5 ∷ (44 ∷ (6 ∷ (59 ∷ (7 ∷ []))))

parse_seq2addr-Returns_example :
    (ys : List ℤ) × (rest : List ℕ) × (parse_seq2addr one_character
        (replicate 4 (pos 9))
        2
        2
        numbers
      ≡ some (ys, rest))
    × (length ys ≡ 2 * 2)
parse_seq2addr-Returns_example =
    parse_seq2addr-Returns one_character (replicate 4 (pos 9)) 2 2 numbers refl

abbrev no_paths : List NtPath
no_paths = replicate 2 null_path

parse_paths-Returns_example :
    (ys : List NtPath) × (n : ℕ) × (rest : List ℕ) × (parse_paths one_character null_path 2 no_paths
        numbers
      ≡ some (ys, n, rest))
    × (n ≤ 2)
    × (length ys ≡ 2)
parse_paths-Returns_example = parse_paths-Returns one_character null_path 2 no_paths numbers refl

-- A comma between blanks, before a digit.
skip_delimit-append_example :
    skip_delimit (44 ∷ []) ((32 ∷ []) ++ ((44 ∷ []) ++ ((9 ∷ (32 ∷ [])) ++ (53 ∷ []))))
    ≡ some (53 ∷ [])
unfolding contains
skip_delimit-append_example =
    skip_delimit-append (32 ∷ []) (44 ∷ []) (9 ∷ (32 ∷ [])) (53 ∷ []) (refl, tt) (refl, (refl, tt))
      refl refl
