-- ===== src/Rs/Tests.antt =====
-- The Reed-Solomon code on concrete words: a field of 16 elements and a code with two checks.
use nettle.Prelude.{
  ℕ, zero, suc, ◌-◌, ◌<◌, ◌≡◌, ◌≢◌, refl, arith, List, [], ◌∷◌, ◌++◌, get_or, replicate, some,
}
use mathlib.Core.List.{Perm}
use mathlib.Core.List.Perm
use nettle.Rs.Galois
use nettle.Rs.Galois.{Galois, init16, init256, element, add, mul}
use nettle.Rs.Galois.Field.{IsField}
use nettle.Rs.Galois.Laws.{init16-IsField, init256-IsField}
use nettle.Rs.Galois.Poly.{poly_zero, zero_from, shift_add_scale, shift_loop}
use nettle.Rs.Galois.Poly.Eval.{power, coefficients, AllIn}
use nettle.Rs.RsCode.{RsCode, init, gen_loop, encode, encode_loop, decode_syndromes, decode_erasure}
use nettle.Rs.RsCode.Generator.{IsCode, init-IsCode}
use nettle.Rs.RsCode.Recover.{left_by, decode_erasure_recovers}
use nettle.Rs.RsCode.Symbols.{Symbol, no_symbol, receive, encode_all, total}
use nettle.Rs.RsCode.Syndromes.{decode_syndromes_lem}
use nettle.Rs.RsCode.Codeword.{AllBelow, codeword, data_symbols, check_symbols, codeword_vanishes}
use nettle.Rs.RsCode.RoundTrip.{decode_erasure-receive}

init256-IsField_example : IsField (init256 (replicate 256 7) (replicate 256 0))
init256-IsField_example = init256-IsField (replicate 256 7) (replicate 256 0) refl refl

-- A field of 16 elements, in arrays that hold something else before.
abbrev galois16 : Galois
galois16 = init16 (replicate 16 9) (replicate 16 0)

galois16-IsField : IsField galois16
galois16-IsField = init16-IsField (replicate 16 9) (replicate 16 0) refl refl

order16 : galois16.order ≡ 16
unfolding init16 Galois.init
order16 = refl

-- A code with two checks over it.
abbrev code16 : RsCode
code16 = init 13 galois16 (replicate 3 8)

code16-IsCode : IsCode code16 (suc 1)
unfolding init16 Galois.init
code16-IsCode = init-IsCode 13 galois16 (replicate 3 8) galois16-IsField (omega arith) (omega arith)

abbrev word16 : List Symbol
word16 = codeword code16 2 (3 ∷ 7 ∷ 11 ∷ [])

message16 : AllBelow galois16.order (3 ∷ 7 ∷ 11 ∷ [])
message16 = (omega (arith, order16), (omega (arith, order16), (omega (arith, order16), tt)))

two_words : (a b : ℕ) → a < 16 → b < 16 → AllIn galois16 (coefficients galois16 (a ∷ b ∷ [])) 2
two_words a b ha hb zero l = rw order16 ha
two_words a b ha hb (suc zero) l = rw order16 hb
two_words a b ha hb (suc (suc j)) l = absurd (omega arith)

two_coefficients :
    (a b : ℕ) → a < 16 → b < 16 → AllIn galois16 (coefficients galois16 (a ∷ b ∷ 6 ∷ [])) 2
two_coefficients a b ha hb zero l = rw order16 ha
two_coefficients a b ha hb (suc zero) l = rw order16 hb
two_coefficients a b ha hb (suc (suc j)) l = absurd (omega arith)

init-IsCode_example : IsCode (init 13 galois16 (replicate 3 8)) (galois16.order - 1 - 13)
init-IsCode_example =
    init-IsCode 13 galois16 (replicate 3 8) galois16-IsField (omega (arith, order16))
      (omega (arith, order16))

codeword_vanishes_example : total galois16 (element galois16 2) word16 ≡ 0
unfolding init init16
codeword_vanishes_example =
    codeword_vanishes code16-IsCode 2 (omega arith) (omega arith) (3 ∷ 7 ∷ 11 ∷ []) message16

decode_syndromes_lem_example :
    get_or (decode_syndromes code16 11 4 (4 ∷ 6 ∷ [])) 1 0
    ≡ add 6 (mul galois16 11 (power galois16 (element galois16 2) 4))
unfolding init
decode_syndromes_lem_example =
    decode_syndromes_lem code16 11 4 code16-IsCode 1 (4 ∷ 6 ∷ []) (omega arith)
      (omega (arith, order16)) (omega arith)

-- The symbols of degree 3, 4 and 1 have arrived, the others have not.
abbrev received16 : List Symbol
received16 =
    record { degree = 3; value = 7 }
    ∷ record { degree = 4; value = 3 }
    ∷ record { degree = 1; value = 7 }
    ∷ []

abbrev erased16 : List Symbol
erased16 = record { degree = 2; value = 11 } ∷ record { degree = 0; value = 12 } ∷ []

split16 : Perm (received16 ++ erased16) word16
unfolding init16 Galois.init element mul poly_zero zero_from shift_add_scale shift_loop init
    gen_loop encode encode_loop encode_all codeword data_symbols check_symbols
split16 =
    Perm.trans (Perm.swap (record { degree = 4; value = 3 }) (record { degree = 3; value = 7 }) _) (
      Perm.cons _ (
        Perm.cons _
          (Perm.swap (record { degree = 2; value = 11 }) (record { degree = 1; value = 7 }) _)))

degrees16 : (j : ℕ) → j < 2 → get_or (2 ∷ 0 ∷ []) j 0 ≡ (get_or erased16 j no_symbol).degree
degrees16 zero h = refl
degrees16 (suc zero) h = refl
degrees16 (suc (suc j)) h = absurd (omega arith)

decode_erasure-receive_example :
    decode_erasure code16 (receive code16 received16 (replicate 2 0)) (2 ∷ 0 ∷ []) 2 0 ≡ some 11
unfolding init init16
decode_erasure-receive_example =
    decode_erasure-receive code16 1 code16-IsCode (3 ∷ 7 ∷ 11 ∷ []) message16
      (omega (arith, order16)) received16 erased16 split16 (omega arith) (2 ∷ 0 ∷ []) degrees16 0
      (omega arith)

-- What the two erased symbols leave.
abbrev left16 : ℕ → ℕ
left16 = left_by galois16 (2 ∷ 0 ∷ []) 2 (λ j. (get_or erased16 j no_symbol).value)

left16_read : (k : ℕ) → k < 2 → get_or (left16 0 ∷ left16 1 ∷ []) k 0 ≡ left16 k
left16_read zero h = refl
left16_read (suc zero) h = refl
left16_read (suc (suc k)) h = absurd (omega arith)

values16 : (j : ℕ) → (get_or erased16 j no_symbol).value < galois16.order
values16 zero = omega (arith, order16)
values16 (suc zero) = omega (arith, order16)
values16 (suc (suc j)) = omega (arith, order16)

apart16 : (j : ℕ) → j < 2 → j ≢ 1 → element galois16 (get_or (2 ∷ 0 ∷ []) j 0) ≢ element galois16 0
unfolding element init16 Galois.init
apart16 zero h ne e = omega (arith, e)
apart16 (suc zero) h ne e = ne refl
apart16 (suc (suc j)) h ne e = absurd (omega arith)

decode_erasure_recovers_example :
    decode_erasure code16 (left16 0 ∷ left16 1 ∷ []) (2 ∷ 0 ∷ []) 2 1 ≡ some 12
unfolding init init16
decode_erasure_recovers_example =
    decode_erasure_recovers code16 galois16-IsField (left16 0 ∷ left16 1 ∷ []) (2 ∷ 0 ∷ []) 2 1
      (λ j. (get_or erased16 j no_symbol).value) values16 (omega arith) left16_read apart16
