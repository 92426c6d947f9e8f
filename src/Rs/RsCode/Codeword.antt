-- ===== src/Rs/RsCode/Codeword.antt =====
-- A message with its checks is a code word: its value is 0 at each root of the generator polynomial.
use nettle.Prelude.{
  ℕ, zero, suc, ◌+◌, ◌-◌, ◌≤◌, ◌<◌, ◌≡◌, refl, sym, ap, ap₂, ◌∙◌, arith, bit_xor, List, [], ◌∷◌,
  ◌++◌, length, replicate, length-replicate, get_or-replicate,
}
use nettle.Prelude.Bits.{
  zero-bit_xor, bit_xor-zero, bit_xor_assoc, bit_xor_comm, bit_xor_self, bit_xor_left_comm,
}
use nettle.Rs.Galois.{Galois, mul, element}
use nettle.Rs.Galois.Field.{IsField, zero-mul, mul-zero}
use nettle.Rs.Galois.Sum.{sum, sum-congr, sum_zero, sum-lt}
use nettle.Rs.Galois.Poly.Eval.{
  power, power-lt, eval, coefficients, AllIn, mul_left_comm, mul_one, term-lt,
}
use nettle.Rs.RsCode.{RsCode, encode}
use nettle.Rs.RsCode.Generator.{IsCode}
use nettle.Rs.RsCode.Encode.{remainder, encode_value, length-encode, encode-AllIn}
use nettle.Rs.RsCode.Symbols.{Symbol, encode_all, total, total-append}

-- The symbols of a message: the first has the highest degree, and the last has degree `T`.
unfoldable pub data_symbols : ℕ → List ℕ → List Symbol
data_symbols T [] = []
data_symbols T (m ∷ ms) = record { degree = T + length ms; value = m } ∷ data_symbols T ms

-- The checks of degree below `n`, highest degree first.
unfoldable pub check_symbols : ℕ → List ℕ → ℕ → List Symbol
check_symbols T checks zero = []
check_symbols T checks (suc n) =
    record { degree = n; value = remainder T checks n } ∷ check_symbols T checks n

-- The message and the checks that the encoder leaves, from cleared checks.
unfoldable pub codeword : RsCode → ℕ → List ℕ → List Symbol
codeword c T ms = data_symbols T ms ++ check_symbols T (encode_all c ms (replicate T 0)) T

-- Every number of the list is an element of the field.
abbrev pub AllBelow : ℕ → List ℕ → Type 0
AllBelow n [] = Unit {0}
AllBelow n (m ∷ ms) = (m < n) × AllBelow n ms

power-add :
    {g : Galois} (F : IsField g) (x i j : ℕ)
    → x < g.order
    → power g x (i + j) ≡ mul g (power g x i) (power g x j)
unfolding power
power-add {g} F x i zero h =
    ap (power g x) {x = i + 0} {y = i} (omega arith) ∙ sym (mul_one F _ (power-lt F x i h))
power-add {g} F x i (suc j) h =
    ap (power g x) {x = i + suc j} {y = suc (i + j)} (omega arith)
    ∙ ap (λ p. mul g p x) (power-add F x i j h)
    ∙ F.mul_assoc _ _ x (power-lt F x i h) (power-lt F x j h) h

module _ {c : RsCode} {n : ℕ} (v : IsCode c (suc n)) where
  abbrev g : Galois
  g = c.galois

  abbrev T : ℕ
  T = suc n

  total-check_symbols :
      (x m : ℕ) (checks : List ℕ)
      → total c.galois x (check_symbols (suc n) checks m)
        ≡ eval c.galois (remainder (suc n) checks) m x
  unfolding total check_symbols sum
  total-check_symbols x zero checks = refl
  total-check_symbols x (suc m) checks =
      ap (bit_xor _) (total-check_symbols x m checks) ∙ bit_xor_comm _ _

  eval-zeros : (x : ℕ) → eval c.galois (remainder (suc n) (replicate (suc n) 0)) (suc n) x ≡ 0
  eval-zeros x =
      sum-congr (suc n) _ (λ j. 0)
        (λ j h.
          ap (λ w. mul c.galois w (power c.galois x j))
            (get_or-replicate {A = ℕ} (suc n) (suc n - 1 - j) 0)
          ∙ zero-mul c.galois _)
      ∙ sum_zero (suc n)

  module _ (l : ℕ) (pl : 0 < l) (hl : l ≤ suc n) where
    abbrev point : ℕ
    point = element c.galois l

    hx : point < c.galois.order
    hx = v.field.element-lt l

    old-lt :
        (checks : List ℕ)
        → AllIn c.galois (coefficients c.galois checks) (suc n)
        → eval c.galois (remainder (suc n) checks) (suc n) point < c.galois.order
    old-lt checks hc = sum-lt v.field (suc n) _ (λ j h.
        term-lt v.field (remainder (suc n) checks) point j (hc (suc n - 1 - j) (omega arith)) hx)

    zeros-AllIn : AllIn c.galois (coefficients c.galois (replicate (suc n) 0)) (suc n)
    zeros-AllIn j h = rw (get_or-replicate {A = ℕ} (suc n) j 0) (omega (arith, v.field.order-lt))

    -- What one more symbol does, `k` symbols before the end.
    one_more :
        (m k e : ℕ)
        → m < c.galois.order
        → e < c.galois.order
        → mul c.galois
            (power c.galois point k)
            (bit_xor (mul c.galois m (power c.galois point (suc n))) (mul c.galois point e))
          ≡ bit_xor
              (mul c.galois m (power c.galois point (suc n + k)))
              (mul c.galois (power c.galois point (suc k)) e)
    unfolding power
    one_more m k e hm he =
        let f = v.field in
        let hk = power-lt f point k hx in
        let hT = power-lt f point (suc n) hx in
        f.mul_add _ _ _ hk (f.mul-lt m _ hm hT) (f.mul-lt point e hx he)
        ∙ ap₂ bit_xor
            (mul_left_comm f _ m _ hk hm hT
              ∙ ap (mul c.galois m) (f.mul_comm _ _ hk hT ∙ sym (power-add f point (suc n) k hx)))
            (sym (f.mul_assoc _ point e hk hx he))

    -- The checks hold at a root the value of the message, above what they held before.
    encode_all_value :
        (ms checks : List ℕ)
        → AllBelow c.galois.order ms
        → suc n ≤ length checks
        → AllIn c.galois (coefficients c.galois checks) (suc n)
        → eval c.galois (remainder (suc n) (encode_all c ms checks)) (suc n) point
          ≡ bit_xor (total c.galois point (data_symbols (suc n) ms)) (
              mul c.galois
                (power c.galois point (length ms))
                (eval c.galois (remainder (suc n) checks) (suc n) point))
    unfolding encode_all total data_symbols power
    encode_all_value [] checks h room hc =
        sym (zero-bit_xor _ ∙ v.field.one_mul _ (old-lt checks hc))
    encode_all_value (m ∷ ms) checks h room hc =
        encode_all_value ms (encode c m checks) h.1 (omega (arith, length-encode v m checks room))
          (encode-AllIn v m checks room h.0 hc)
        ∙ ap
            (λ e.
              bit_xor (total c.galois point (data_symbols (suc n) ms))
                (mul c.galois (power c.galois point (length ms)) e))
            (encode_value v m checks room h.0 hc l pl hl)
        ∙ ap (bit_xor (total c.galois point (data_symbols (suc n) ms)))
            (one_more m (length ms) _ h.0 (old-lt checks hc))
        ∙ bit_xor_left_comm _ _ _
        ∙ sym (bit_xor_assoc _ _ _)

    -- In a code with `suc n` checks, a message of elements of the field followed by the checks that
    -- `rscode_encode` leaves, symbol by symbol from cleared checks, has the value 0 at each `element
    -- l`, for `l` from 1 to the number of checks.
    pub codeword_vanishes :
        (ms : List ℕ)
        → AllBelow c.galois.order ms
        → total c.galois point (codeword c (suc n) ms) ≡ 0
    unfolding codeword
    codeword_vanishes ms h =
        let zeros : List ℕ = replicate (suc n) 0 in
        let sent = total c.galois point (data_symbols (suc n) ms) in
        total-append c.galois point (data_symbols (suc n) ms) _
        ∙ ap (bit_xor sent) (
            total-check_symbols point (suc n) (encode_all c ms zeros)
            ∙ encode_all_value ms zeros h (omega (arith, length-replicate {A = ℕ} (suc n) 0))
                zeros-AllIn
            ∙ ap (λ e. bit_xor sent (mul c.galois (power c.galois point (length ms)) e))
                (eval-zeros point)
            ∙ ap (bit_xor sent) (mul-zero c.galois _)
            ∙ bit_xor-zero sent)
        ∙ bit_xor_self sent
