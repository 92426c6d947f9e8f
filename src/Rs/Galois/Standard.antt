-- ===== src/Rs/Galois/Standard.antt =====
-- The two fields that galois.h predefines: degree 4 with X^4 + X + 1, and degree 8 with
-- X^8 + X^4 + X^3 + X^2 + 1. Every power of the generator is tabulated and checked.
use nettle.Prelude.{
  all_below, all_below_sound, ℕ, zero, suc, ◌<◌, ◌≡◌, refl, arith, List, [], ◌∷◌, ltb, ◌==◌, Bool,
  true, ◌&&◌, if◌then◌else◌,
}
use nettle.Rs.Galois.{next_exp}
use nettle.Rs.Galois.Power.{times_gen, Primitive}

-- `n` successive powers from `x`.
powers : ℕ → ℕ → ℕ → ℕ → List ℕ
powers d p zero x = []
powers d p (suc n) x = x ∷ powers d p n (next_exp d p x)

-- The position of `a`, counted from `i`.
position : List ℕ → ℕ → ℕ → ℕ
position [] a i = i
position (x ∷ xs) a i = if x == a then i else position xs a (suc i)

-- What the tables must show of `n` powers: each stands at its own place and is not 0, and each
-- nonzero element stands at a place below `n`.
abbrev log_from : ℕ → ℕ → ℕ → ℕ → ℕ
log_from d p n a = position (powers d p n 1) a 0

abbrev at_own_place : ℕ → ℕ → ℕ → ℕ → Bool
at_own_place d p n j = log_from d p n (times_gen d p j 1) == j && ltb 0 (times_gen d p j 1)

abbrev has_place : ℕ → ℕ → ℕ → ℕ → Bool
has_place d p n a =
    times_gen d p (log_from d p n (suc a)) 1 == suc a && ltb (log_from d p n (suc a)) n

places16 : all_below 15 (at_own_place 4 0b10011 15) ≡ true
unfolding all_below powers position times_gen next_exp
places16 = refl

elements16 : all_below 15 (has_place 4 0b10011 15) ≡ true
unfolding all_below powers position times_gen next_exp
elements16 = refl

places256 : all_below 255 (at_own_place 8 0b100011101 255) ≡ true
unfolding all_below powers position times_gen next_exp
places256 = refl

elements256 : all_below 255 (has_place 8 0b100011101 255) ≡ true
unfolding all_below powers position times_gen next_exp
elements256 = refl

module _ (d p n : ℕ) where
  place_facts :
      (j : ℕ)
      → all_below n (at_own_place d p n) ≡ true
      → j < n
      → (log_from d p n (times_gen d p j 1) ≡ j) × (0 < times_gen d p j 1)
  place_facts j t l = ground (arith, all_below_sound n (at_own_place d p n) j t l)

  element_facts :
      (a : ℕ)
      → all_below n (has_place d p n) ≡ true
      → 0 < a
      → a < suc n
      → (times_gen d p (log_from d p n a) 1 ≡ a) × (log_from d p n a < n)
  element_facts zero t h l = absurd (omega arith)
  element_facts (suc a) t h l =
      ground (arith, all_below_sound n (has_place d p n) a t (omega arith))

pub primitive16 : Primitive 4 0b10011
unfolding times_gen next_exp
primitive16 = record {
  positive = omega arith;
  small = omega arith;
  more_than_two = omega arith;
  monic = refl;
  mask_none = refl;
  mask_all = refl;
  log_of = log_from 4 0b10011 15;
  log_of-lt = λ a h l. (element_facts 4 0b10011 15 a elements16 h l).1;
  power_log = λ a h l. (element_facts 4 0b10011 15 a elements16 h l).0;
  log_power = λ j l. (place_facts 4 0b10011 15 j places16 l).0;
  power_pos = λ j l. (place_facts 4 0b10011 15 j places16 l).1;
  cycle = refl;
}

pub primitive256 : Primitive 8 0b100011101
unfolding times_gen next_exp
primitive256 = record {
  positive = omega arith;
  small = omega arith;
  more_than_two = omega arith;
  monic = refl;
  mask_none = refl;
  mask_all = refl;
  log_of = log_from 8 0b100011101 255;
  log_of-lt = λ a h l. (element_facts 8 0b100011101 255 a elements256 h l).1;
  power_log = λ a h l. (element_facts 8 0b100011101 255 a elements256 h l).0;
  log_power = λ j l. (place_facts 8 0b100011101 255 j places256 l).0;
  power_pos = λ j l. (place_facts 8 0b100011101 255 j places256 l).1;
  cycle = refl;
}
