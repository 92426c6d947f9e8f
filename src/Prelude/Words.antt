-- ===== src/Prelude/Words.antt =====
-- Words in memory: `k` bytes, the low one first.
use Prim.Native.Nat.{ℕ, zero, suc, ◌+◌, ◌*◌, ◌/◌, ◌%◌, ◌^◌, ◌<◌}
use mathlib.Core.Path.{◌≡◌, refl, ap}
use mathlib.Core.List.{List, [], ◌∷◌}
use native.Mathlib.Omega.{arith}
use nettle.Prelude.Lists.{length, get_or, drop}

abbrev pub bytes_of : ℕ → ℕ → List ℕ
bytes_of zero x = []
bytes_of (suc k) x = x % 256 ∷ bytes_of k (x / 256)

-- A byte past the end reads as 0.
abbrev pub word_at : ℕ → List ℕ → ℕ
word_at zero bytes = 0
word_at (suc k) bytes = get_or bytes 0 0 + 256 * word_at k (drop 1 bytes)

pub length-bytes_of : (k x : ℕ) → length (bytes_of k x) ≡ k
length-bytes_of zero x = refl
length-bytes_of (suc k) x = ap suc (length-bytes_of k (x / 256))

-- A word is the sum of its bytes.
pub word1 : (x : ℕ) → x < 256 → x % 256 + 256 * 0 ≡ x
word1 x h = omega arith

pub word2 : (x : ℕ) → x < 2 ^ 16 → x % 256 + 256 * (x / 256 % 256 + 256 * 0) ≡ x
word2 x h = omega arith

pub word4 :
    (x : ℕ)
    → x < 2 ^ 32
    → x % 256
        + 256
          * (x / 256 % 256
              + 256 * (x / 256 / 256 % 256 + 256 * (x / 256 / 256 / 256 % 256 + 256 * 0)))
      ≡ x
word4 x h = omega arith

-- A list of bytes.
abbrev pub AllBytes : List ℕ → Type 0
AllBytes [] = Unit
AllBytes (x ∷ xs) = (x < 256) × AllBytes xs

get_or-lt : (xs : List ℕ) (i : ℕ) → AllBytes xs → get_or xs i 0 < 256
get_or-lt [] i h = omega arith
get_or-lt (x ∷ xs) zero h = h.0
get_or-lt (x ∷ xs) (suc i) h = get_or-lt xs i h.1

pub drop-AllBytes : (n : ℕ) (xs : List ℕ) → AllBytes xs → AllBytes (drop n xs)
drop-AllBytes zero xs h = h
drop-AllBytes (suc n) [] h = h
drop-AllBytes (suc n) (x ∷ xs) h = drop-AllBytes n xs h.1

pub word_at1-lt : (xs : List ℕ) → AllBytes xs → word_at 1 xs < 256
word_at1-lt xs h = omega (arith, get_or-lt xs 0 h)

pub word_at2-lt : (xs : List ℕ) → AllBytes xs → word_at 2 xs < 2 ^ 16
word_at2-lt xs h = omega (arith, get_or-lt xs 0 h, word_at1-lt (drop 1 xs) (drop-AllBytes 1 xs h))

word_at3-lt : (xs : List ℕ) → AllBytes xs → word_at 3 xs < 2 ^ 24
word_at3-lt xs h = omega (arith, get_or-lt xs 0 h, word_at2-lt (drop 1 xs) (drop-AllBytes 1 xs h))

pub word_at4-lt : (xs : List ℕ) → AllBytes xs → word_at 4 xs < 2 ^ 32
word_at4-lt xs h = omega (arith, get_or-lt xs 0 h, word_at3-lt (drop 1 xs) (drop-AllBytes 1 xs h))
