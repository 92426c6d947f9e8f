-- ===== src/Rs/RsCode/Encode.antt =====
-- `rscode_encode` keeps the remainder of the message by the generator polynomial: seen at a root,
-- the checks hold the value of the message so far.
use nettle.Prelude.{
  ℕ, zero, suc, ◌+◌, ◌-◌, ◌≤◌, ◌<◌, ◌≡◌, refl, sym, ap, ap₂, subst, ◌∙◌, arith, bit_xor, List,
  get_or, set, length, length-set, get_or-set_self, get_or-set_ne,
}
use nettle.Prelude.Bits.{bit_xor_assoc, bit_xor_comm, bit_xor_left_comm, eq_of_bit_xor-zero}
use native.Mathlib.Decide.{ℕ_discrete}
use nettle.Rs.Galois.{add, mul, element}
use nettle.Rs.Galois.Field.{IsField}
use nettle.Rs.Galois.Sum.{sum, sum_first, sum_last, sum-congr, sum-bit_xor, mul-sum, sum-lt}
use nettle.Rs.Galois.Poly.Eval.{
  power, power-lt, eval, term, term-lt, coefficients, AllIn, add_mul, mul_left_comm, mixed_term,
}
use nettle.Rs.RsCode.{RsCode, encode_loop, encode}
use nettle.Rs.RsCode.Generator.{IsCode}

-- The checks are kept highest degree first: the coefficient of degree `j` is at `T - 1 - j`.
abbrev pub remainder : ℕ → List ℕ → ℕ → ℕ
remainder T checks j = get_or checks (T - 1 - j) 0

module _ (c : RsCode) (T factor : ℕ) where
  pub length-encode_loop :
      (rounds i : ℕ) (a : List ℕ) → length (encode_loop c T factor rounds i a) ≡ length a
  unfolding encode_loop
  length-encode_loop zero i a = refl
  length-encode_loop (suc rounds) i a =
      length-encode_loop rounds (i + 1) (set a i _) ∙ length-set a i _

  loop-below :
      (rounds i j : ℕ) (a : List ℕ)
      → j < i
      → get_or (encode_loop c T factor rounds i a) j 0 ≡ get_or a j 0
  unfolding encode_loop
  loop-below zero i j a h = refl
  loop-below (suc rounds) i j a h =
      loop-below rounds (i + 1) j (set a i _) (omega arith) ∙ get_or-set_ne a i j _ 0 (omega arith)

  -- The loop goes up, so each entry is made of the old one behind it.
  pub loop-within :
      (rounds i j : ℕ) (a : List ℕ)
      → i + rounds < length a
      → i ≤ j
      → j < i + rounds
      → get_or (encode_loop c T factor rounds i a) j 0
        ≡ add (get_or a (j + 1) 0) (mul c.galois (get_or c.gen_poly (T - 1 - j) 0) factor)
  unfolding encode_loop
  loop-within zero i j a room l h = absurd (omega arith)
  loop-within (suc rounds) i j a room l h =
      let w = add (get_or a (i + 1) 0) (mul c.galois (get_or c.gen_poly (T - 1 - i) 0) factor) in
      elim (ℕ_discrete i j) [
        | yes e ↦
            loop-below rounds (i + 1) j (set a i w) (omega arith)
            ∙ ap (λ k. get_or (set a i w) k 0) (sym e)
            ∙ get_or-set_self a i w 0 (omega arith)
            ∙ ap
                (λ k.
                  add (get_or a (k + 1) 0) (mul c.galois (get_or c.gen_poly (T - 1 - k) 0) factor))
                e
        | no ne ↦
            loop-within rounds (i + 1) j (set a i w) (omega (arith, length-set a i w)) (omega arith)
              (omega arith)
            ∙ ap (λ k. add k (mul c.galois (get_or c.gen_poly (T - 1 - j) 0) factor))
                (get_or-set_ne a i (j + 1) w 0 (omega arith))
      ]

module _ {c : RsCode} {T : ℕ} (v : IsCode c T) (input : ℕ) (checks : List ℕ)
    (room : T ≤ length checks) where
  abbrev fed : ℕ
  fed = add input (get_or checks 0 0)

  pub length-encode : length (encode c input checks) ≡ length checks
  unfolding encode
  length-encode =
      length-set (encode_loop c _ fed _ 0 checks) _ _ ∙ length-encode_loop c _ fed _ 0 checks

  -- The coefficients of the new remainder.
  remainder-zero : remainder T (encode c input checks) 0 ≡ mul c.galois (get_or c.gen_poly 0 0) fed
  unfolding encode
  remainder-zero = rw (v.checks) (
      ap
        (λ k.
          get_or
            (set (encode_loop c T fed (T - 1) 0 checks) (T - 1)
              (mul c.galois (get_or c.gen_poly 0 0) fed))
            k 0)
        {x = T - 1 - 0} {y = T - 1} (omega arith)
      ∙ get_or-set_self (encode_loop c T fed (T - 1) 0 checks) (T - 1) _ 0
          (omega (arith, length-encode_loop c T fed (T - 1) 0 checks, v.positive)))

  remainder-suc :
      (j : ℕ)
      → suc j < T
      → remainder T (encode c input checks) (suc j)
        ≡ add (remainder T checks j) (mul c.galois (get_or c.gen_poly (suc j) 0) fed)
  unfolding encode
  remainder-suc j h = rw (v.checks) (
      get_or-set_ne (encode_loop c T fed (T - 1) 0 checks) (T - 1) (T - 1 - suc j) _ 0 (omega arith)
      ∙ loop-within c T fed (T - 1) 0 (T - 1 - suc j) checks (omega arith) (omega arith)
          (omega arith)
      ∙ ap₂ (λ m n. add (get_or checks m 0) (mul c.galois (get_or c.gen_poly n 0) fed))
          (omega arith) (omega arith))

module _ {c : RsCode} {n : ℕ} (v : IsCode c (suc n)) (input : ℕ) (checks : List ℕ)
    (room : suc n ≤ length checks) (hi : input < c.galois.order)
    (hc : AllIn c.galois (coefficients c.galois checks) (suc n)) where
  F : IsField c.galois
  F = v.field

  pub remainder-AllIn : AllIn c.galois (remainder (suc n) checks) (suc n)
  remainder-AllIn j l = hc (suc n - 1 - j) (omega arith)

  factor : ℕ
  factor = add input (get_or checks 0 0)

  factor-lt : factor < c.galois.order
  unfolding factor
  factor-lt = F.add-lt _ _ hi (hc 0 (omega arith))

  new-AllIn : AllIn c.galois (remainder (suc n) (encode c input checks)) (suc n)
  unfolding factor
  new-AllIn zero h =
      rw (remainder-zero v input checks room)
        (F.mul-lt _ _ (v.generator.in_field 0 (omega arith)) factor-lt)
  new-AllIn (suc j) h = rw (remainder-suc v input checks room j h) (
      F.add-lt _ _ (remainder-AllIn j (omega arith))
        (F.mul-lt _ _ (v.generator.in_field (suc j) (omega arith)) factor-lt))

  -- The new checks are elements of the field.
  pub encode-AllIn : AllIn c.galois (coefficients c.galois (encode c input checks)) (suc n)
  encode-AllIn j h =
      subst (λ k. get_or (encode c input checks) k 0 < c.galois.order)
        {x = suc n - 1 - (suc n - 1 - j)} {y = j} (omega arith)
        (new-AllIn (suc n - 1 - j) (omega arith))

  module _ (l : ℕ) (pl : 0 < l) (hl : l ≤ suc n) where
    abbrev point : ℕ
    point = element c.galois l

    hx : point < c.galois.order
    hx = F.element-lt l

    abbrev gen_term : ℕ → ℕ
    gen_term j = term c.galois (coefficients c.galois c.gen_poly) point j

    gen_term-lt : (j : ℕ) → j < suc (suc n) → gen_term j < c.galois.order
    gen_term-lt j h =
        term-lt F (coefficients c.galois c.gen_poly) point j (v.generator.in_field j h) hx

    -- At a root the leading power has the value of the rest of the generator polynomial.
    generator_rest : sum (suc n) gen_term ≡ power c.galois point (suc n)
    generator_rest = eq_of_bit_xor-zero _ _ (
        ap (bit_xor (sum (suc n) gen_term)) (sym leading)
        ∙ sym (sum_last (suc n) gen_term)
        ∙ v.generator.root l pl hl)
      where
        leading : gen_term (suc n) ≡ power c.galois point (suc n)
        leading =
            ap (λ k. mul c.galois k (power c.galois point (suc n))) v.generator.monic
            ∙ F.one_mul _ (power-lt F point (suc n) hx)

    abbrev old_term : ℕ → ℕ
    old_term j = term c.galois (remainder (suc n) checks) point j

    old_term-lt : (j : ℕ) → j < suc n → old_term j < c.galois.order
    old_term-lt j h = term-lt F (remainder (suc n) checks) point j (remainder-AllIn j h) hx

    new_value :
        eval c.galois (remainder (suc n) (encode c input checks)) (suc n) point
        ≡ bit_xor
            (mul c.galois factor (power c.galois point (suc n)))
            (mul c.galois point (sum n old_term))
    unfolding factor power
    new_value =
        sum_first n _
        ∙ ap₂ bit_xor first (
            sum-congr n _ _ (λ j h.
              ap (λ k. mul c.galois k (power c.galois point (suc j)))
                (remainder-suc v input checks room j (omega arith))
              ∙ mixed_term F _ _ factor point j (remainder-AllIn j (omega arith))
                  (v.generator.in_field (suc j) (omega arith)) factor-lt hx)
            ∙ sum-bit_xor n _ _)
        ∙ bit_xor_left_comm _ _ _
        ∙ bit_xor_comm _ _
        ∙ ap₂ bit_xor
            (sym (sum_first n (λ j. mul c.galois factor (gen_term j)))
              ∙ sym
                  (mul-sum F factor (suc n) gen_term factor-lt (λ j h. gen_term-lt j (omega arith)))
              ∙ ap (mul c.galois factor) generator_rest)
            (sym (mul-sum F point n old_term hx (λ j h. old_term-lt j (omega arith))))
      where
        first :
            mul c.galois (remainder (suc n) (encode c input checks) 0) (power c.galois point 0)
            ≡ mul c.galois factor (gen_term 0)
        first =
            ap (λ k. mul c.galois k 1)
              (remainder-zero v input checks room
                ∙ F.mul_comm _ factor (v.generator.in_field 0 (omega arith)) factor-lt)
            ∙ F.mul_assoc factor _ 1 factor-lt (v.generator.in_field 0 (omega arith)) F.order-lt

    -- In a code with `suc n` checks, with the input and the checks in the field, `rscode_encode`
    -- leaves checks whose value at each root `element l`, for `l` from 1 to the number of checks, is
    -- the input times the root's power of that number, plus the root times the old value.
    pub encode_value :
        eval c.galois (remainder (suc n) (encode c input checks)) (suc n) point
        ≡ bit_xor
            (mul c.galois input (power c.galois point (suc n)))
            (mul c.galois point (eval c.galois (remainder (suc n) checks) (suc n) point))
    unfolding factor power
    encode_value =
        new_value
        ∙ ap (λ k. bit_xor k (mul c.galois point (sum n old_term)))
            (add_mul F input _ _ hi (hc 0 (omega arith)) (power-lt F point (suc n) hx))
        ∙ bit_xor_assoc _ _ _
        ∙ ap (bit_xor (mul c.galois input (power c.galois point (suc n)))) carried
      where
        highest :
            mul c.galois (get_or checks 0 0) (power c.galois point (suc n))
            ≡ mul c.galois point (old_term n)
        highest =
            let hp = power-lt F point n hx in
            ap (mul c.galois (get_or checks 0 0)) (F.mul_comm _ point hp hx)
            ∙ mul_left_comm F _ point _ (hc 0 (omega arith)) hx hp
            ∙ ap
                (λ k.
                  mul c.galois point (mul c.galois (get_or checks k 0) (power c.galois point n)))
                (omega arith)

        carried :
            bit_xor
              (mul c.galois (get_or checks 0 0) (power c.galois point (suc n)))
              (mul c.galois point (sum n old_term))
            ≡ mul c.galois point (sum (suc n) old_term)
        carried =
            ap (λ k. bit_xor k (mul c.galois point (sum n old_term))) highest
            ∙ bit_xor_comm _ _
            ∙ sym (
                F.mul_add point (sum n old_term) (old_term n) hx
                  (sum-lt F n old_term (λ j h. old_term-lt j (omega arith)))
                  (old_term-lt n (omega arith)))
            ∙ ap (mul c.galois point) (sym (sum_last n old_term))
