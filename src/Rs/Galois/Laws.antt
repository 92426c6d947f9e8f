-- ===== src/Rs/Galois/Laws.antt =====
-- Quotients, inverses, and all the field laws of filled tables.
use nettle.Prelude.{
  ℕ, zero, suc, ◌+◌, ◌-◌, ◌*◌, ◌%◌, ◌^◌, ◌<◌, ◌≡◌, sym, ap, ◌∙◌, arith, some, get_or, List, length,
}
use nettle.Prelude.Bits.{bit_xor-lt}
use native.Mathlib.Nat.{mod-eq_of_lt}
use native.Mathlib.Decide.{dec_lt}
use nettle.Rs.Galois.{Galois, u32, element, mul, div, inv, init16, init256}
use nettle.Rs.Galois.Power.{times_gen, Primitive, power_cycle, times_gen-add}
use nettle.Rs.Galois.Init.{HasTables, init-HasTables}
use nettle.Rs.Galois.Standard.{primitive16, primitive256}
use nettle.Rs.Galois.Field.{IsField, zero-mul}
use nettle.Rs.Galois.Logs.{
  element_lem, log_lem, mul_lem, lt_pow-mul, comm, assoc, distrib, one_mul_lem, element_pos_lem,
  element_lt_lem, pos_lem, element-add_lem, log_mul,
}

module _ {d p : ℕ} {g : Galois} (v : Primitive d p) (t : HasTables d p g) where
  -- The difference of the logarithms, in words, is the logarithm of the quotient, or one round
  -- of the table more.
  quotient_element :
      (a b c : ℕ)
      → 0 < a
      → a < 2 ^ d
      → b < 2 ^ d - 1
      → c ≡ (v.log_of a + b) % (2 ^ d - 1)
      → element g (2 ^ d - 1 + c - b) ≡ a
  quotient_element a b c ha la lb e = elim (dec_lt (v.log_of a + b) (2 ^ d - 1)) [
    | yes h ↦
        (element_lem v t) _
        ∙ ap (λ k. times_gen d p k 1) {y = 1 * (2 ^ d - 1) + v.log_of a}
            (omega (arith, mod-eq_of_lt h))
        ∙ power_cycle v 1 (v.log_of a)
        ∙ v.power_log a ha la
    | no h ↦
        (element_lem v t) _
        ∙ ap (λ k. times_gen d p k 1) {y = v.log_of a} (wrapped h)
        ∙ v.power_log a ha la
  ]
    where
      wrapped : ¬ (v.log_of a + b < 2 ^ d - 1) → 2 ^ d - 1 + c - b ≡ v.log_of a
      wrapped h = grind (arith, v.log_of-lt a ha la)

  div_tables :
      (a b : ℕ)
      → 0 < a
      → 0 < b
      → div g a b
        ≡ some
            (element g (u32 (u32 (g.order - 1 + get_or g.logs a 0) + 2 ^ 32 - get_or g.logs b 0)))
  unfolding div
  div_tables a b ha hb = ground arith

  zero-div : (b : ℕ) → 0 < b → div g 0 b ≡ some 0
  unfolding div
  zero-div b hb = ground arith

  div_lem : (a b : ℕ) → a < 2 ^ d → 0 < b → b < 2 ^ d → div g (mul g a b) b ≡ some a
  div_lem zero b la hb lb = rw (zero-mul g b) (zero-div b hb)
  div_lem (suc a) b la hb lb =
      let c = mul g (suc a) b in
      let hc = (pos_lem v t) (suc a) b (omega arith) hb la lb in
      let lc = (lt_pow-mul v t) (suc a) b la lb in
      div_tables c b hc hb
      ∙ simp ((log_lem v t) c hc lc, (log_lem v t) b hb lb, t.order_is)
          (ap some (
            ap (element g)
              (words (v.log_of c) (v.log_of b) (v.log_of-lt c hc lc) (v.log_of-lt b hb lb))
            ∙ quotient_element (suc a) (v.log_of b) (v.log_of c) (omega arith) la
                (v.log_of-lt b hb lb) ((log_mul v t) (suc a) b (omega arith) hb la lb)))
    where
      words :
          (i j : ℕ)
          → i < 2 ^ d - 1
          → j < 2 ^ d - 1
          → u32 (u32 (2 ^ d - 1 + i) + 2 ^ 32 - j) ≡ 2 ^ d - 1 + i - j
      words i j hi hj = omega (arith, v.small)

  inv_lem : (a : ℕ) → 0 < a → a < 2 ^ d → mul g a (inv g a) ≡ 1
  unfolding inv
  inv_lem a ha la =
      let i = v.log_of a in
      simp ((log_lem v t) a ha la, t.order_is)
        ((mul_lem v t) a _ ha la ((element_lt_lem v t) _)
          ∙ ap (times_gen d p i) ((element_lem v t) _)
          ∙ sym (times_gen-add d p i _ 1)
          ∙ ap (λ k. times_gen d p k 1) (whole (v.log_of a) (v.log_of-lt a ha la))
          ∙ v.cycle)
    where
      whole : (i : ℕ) → i < 2 ^ d - 1 → i + u32 (2 ^ d - 1 + 2 ^ 32 - i) ≡ 2 ^ d - 1
      whole i h = omega (arith, v.small)

  injective : (i j : ℕ) → i < 2 ^ d - 1 → j < 2 ^ d - 1 → element g i ≡ element g j → i ≡ j
  injective i j hi hj e =
      sym (v.log_power i hi)
      ∙ ap v.log_of (sym ((element_lem v t) i) ∙ e ∙ (element_lem v t) j)
      ∙ v.log_power j hj

  -- Filled tables over a primitive polynomial are a field.
  pub HasTables-IsField : IsField g
  unfolding times_gen
  HasTables-IsField =
      let o = t.order_is in
      record {
        order-lt = omega (arith, v.more_than_two, o);
        order_small = simp o v.small;
        add-lt = simp o (bit_xor-lt d);
        mul-lt = simp o (lt_pow-mul v t);
        mul_comm = simp o (comm v t);
        mul_assoc = simp o (assoc v t);
        one_mul = simp o (one_mul_lem v t);
        mul_add = simp o (distrib v t);
        mul-pos = simp o (pos_lem v t);
        div-mul = simp o div_lem;
        mul-inv = simp o inv_lem;
        element-lt = simp o (element_lt_lem v t);
        element-pos = (element_pos_lem v t);
        element-zero = (element_lem v t) 0;
        element-add = (element-add_lem v t);
        element_injective = simp o injective;
      }

-- `galois256_init` makes a field of any two arrays of 256 words: addition is `bit_xor`, and the laws
-- of `IsField` (closure, commutativity, associativity, distributivity, the unit, division, inverses
-- and the powers of the element) hold of `galois_mul`, `galois_div`, `galois_inv` and
-- `galois_element` on the words below 256.
pub init256-IsField :
    (exps logs : List ℕ) → length exps ≡ 256 → length logs ≡ 256 → IsField (init256 exps logs)
unfolding init256
init256-IsField exps logs he hl =
    HasTables-IsField primitive256 (init-HasTables primitive256 exps logs he hl)

-- `galois16_init` makes a field of 16 elements of any two arrays of 16 words.
pub init16-IsField :
    (exps logs : List ℕ) → length exps ≡ 16 → length logs ≡ 16 → IsField (init16 exps logs)
unfolding init16
init16-IsField exps logs he hl =
    HasTables-IsField primitive16 (init-HasTables primitive16 exps logs he hl)
