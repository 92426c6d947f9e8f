-- ===== src/Utils/Strings.antt =====
-- The text helpers of src/main/utils/utils.h. A string is its characters, without the NUL at its end, and a pointer
-- into one is the rest of it.
pub mod Delimit
use nettle.Prelude.{
  ℕ, zero, suc, ◌+◌, ◌%◌, ◌^◌, Bool, true, false, Option, none, some, List, [], ◌∷◌, ◌==◌,
  if◌then◌else◌, length, drop,
}

-- `contains`
unfoldable pub contains : ℕ → List ℕ → Bool
contains c [] = false
contains c (s ∷ str) = let rest = contains c str in if s == c then true else rest

-- `starts_with`
unfoldable pub starts_with : List ℕ → List ℕ → Bool
starts_with [] str = true
starts_with (p ∷ prefix) [] = false
starts_with (p ∷ prefix) (s ∷ str) =
    let rest = starts_with prefix str in if p == s then rest else false

-- `skip`
unfoldable pub skip : List ℕ → List ℕ → List ℕ
skip chars [] = []
skip chars (c ∷ str) = let rest = skip chars str in if contains c chars then rest else c ∷ str

-- The characters `" \t"`
abbrev pub blanks : List ℕ
blanks = 32 ∷ (9 ∷ [])

-- `skip_delimit`; `none` is `NULL`.
unfoldable pub skip_delimit : List ℕ → List ℕ → Option (List ℕ)
skip_delimit delimiter str =
    let s = skip blanks str in
    if starts_with delimiter s then some (skip blanks (drop (length delimiter) s)) else none

-- `idgen_t`, `idgen_init` and `idgen_next`, which returns the number and counts it on.
abbrev pub IdGen : Type 0
IdGen = ℕ

abbrev pub idgen_init : ℕ → IdGen
idgen_init initial = initial

unfoldable pub idgen_next : IdGen → IdGen × ℕ
idgen_next idgen = ((idgen + 1) % 2 ^ 32, idgen)
