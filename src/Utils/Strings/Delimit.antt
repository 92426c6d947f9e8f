-- ===== src/Utils/Strings/Delimit.antt =====
-- `skip_delimit` of src/main/utils/utils.h finds the delimiter between blanks.
use nettle.Prelude.{
  ℕ, ◌≡◌, refl, arith, true, false, some, List, [], ◌∷◌, ◌++◌, length, drop-append,
}
use nettle.Utils.Strings.{contains, starts_with, skip, blanks, skip_delimit}

-- All characters are blanks.
abbrev pub AllBlank : List ℕ → Type 0
AllBlank [] = Unit
AllBlank (c ∷ str) = (contains c blanks ≡ true) × AllBlank str

-- The string is empty or its first character is no blank.
abbrev pub StartsPlain : List ℕ → Type 0
StartsPlain [] = Unit
StartsPlain (c ∷ str) = contains c blanks ≡ false

skip-blank : (space str : List ℕ) → AllBlank space → skip blanks (space ++ str) ≡ skip blanks str
unfolding skip
skip-blank [] str h = refl
skip-blank (c ∷ space) str h = rw (h.0) (skip-blank space str h.1)

skip-plain : (str : List ℕ) → StartsPlain str → skip blanks str ≡ str
unfolding skip
skip-plain [] h = refl
skip-plain (c ∷ str) h = rw h refl

starts_with-append : (prefix str : List ℕ) → starts_with prefix (prefix ++ str) ≡ true
unfolding starts_with
starts_with-append [] str = refl
starts_with-append (p ∷ prefix) str = ground (arith, starts_with-append prefix str)

-- A delimiter that does not begin with a blank, with any blanks before and behind it, is skipped with them, up to
-- what follows, which begins with no blank.
pub skip_delimit-append :
    (before delimiter after rest : List ℕ)
    → AllBlank before
    → AllBlank after
    → StartsPlain (delimiter ++ (after ++ rest))
    → StartsPlain rest
    → skip_delimit delimiter (before ++ (delimiter ++ (after ++ rest))) ≡ some rest
unfolding skip_delimit
skip_delimit-append before delimiter after rest b a d r =
    rw
      (
        skip-blank before (delimiter ++ (after ++ rest)) b,
        skip-plain (delimiter ++ (after ++ rest)) d,
        starts_with-append delimiter (after ++ rest),
        drop-append (length delimiter) delimiter (after ++ rest) refl,
        skip-blank after rest a,
        skip-plain rest r,
      )
      refl
