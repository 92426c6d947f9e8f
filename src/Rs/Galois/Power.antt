-- ===== src/Rs/Galois/Power.antt =====
-- Multiplication by the generator, which is the body of `galois_init`'s loop, and its powers.
use native.Mathlib.Nat.{pow-suc, div-add-mod', div-eq_of_lt, div-lt_iff_lt-mul, div-eq_of_lt-le}
use native.Mathlib.Decide.{dec_lt}
use nettle.Prelude.{
  ℕ, zero, suc, ◌+◌, ◌-◌, ◌*◌, ◌/◌, ◌%◌, ◌^◌, ◌≤◌, ◌<◌, bit_and, bit_xor, ◌≡◌, refl, sym, ap, ◌∙◌,
  arith,
}
use nettle.Prelude.Bits.{
  bit_xor_self, bit_xor-zero, zero-bit_xor, bit_xor-shift, bit_xor-lt, double-bit_xor,
  bit_xor_interchange,
}
use nettle.Rs.Galois.{u32, next_exp}

-- `next_exp` from `x`, `k` times.
unfoldable pub times_gen : ℕ → ℕ → ℕ → ℕ → ℕ
times_gen d p zero x = x
times_gen d p (suc k) x = next_exp d p (times_gen d p k x)

pub times_gen-add : (d p i j x : ℕ) → times_gen d p (i + j) x ≡ times_gen d p i (times_gen d p j x)
unfolding times_gen
times_gen-add d p zero j x = ap (λ k. times_gen d p k x) (omega arith)
times_gen-add d p (suc i) j x =
    ap (λ k. times_gen d p k x) {x = suc i + j} {y = suc (i + j)} (omega arith)
    ∙ ap (next_exp d p) (times_gen-add d p i j x)

-- What makes `p` a good generator polynomial of degree `d`: it has degree `d`, and the powers of
-- the generator run through all the nonzero elements, once each, before they come back to 1.
pub record Primitive (d p : ℕ) : Type 0 where
  pub positive : 0 < d
  pub small : 2 ^ d ≤ 2 ^ 16
  pub more_than_two : 2 < 2 ^ d
  pub monic : p / 2 ^ d ≡ 1
  pub mask_none : bit_and p 0 ≡ 0
  pub mask_all : bit_and p (2 ^ 32 - 1) ≡ p
  pub log_of : ℕ → ℕ
  pub log_of-lt : (a : ℕ) → 0 < a → a < 2 ^ d → log_of a < 2 ^ d - 1
  pub power_log : (a : ℕ) → 0 < a → a < 2 ^ d → times_gen d p (log_of a) 1 ≡ a
  pub log_power : (j : ℕ) → j < 2 ^ d - 1 → log_of (times_gen d p j 1) ≡ j
  pub power_pos : (j : ℕ) → j < 2 ^ d - 1 → 0 < times_gen d p j 1
  pub cycle : times_gen d p (2 ^ d - 1) 1 ≡ 1

-- What is added to the shifted word, by the bit that the shift drops.
abbrev reduction : ℕ → ℕ → ℕ
reduction p zero = 0
reduction p (suc h) = p

reduction-bit_xor :
    (p g h : ℕ)
    → g < 2
    → h < 2
    → reduction p (bit_xor g h) ≡ bit_xor (reduction p g) (reduction p h)
reduction-bit_xor p zero zero l m = refl
reduction-bit_xor p zero (suc zero) l m = sym (zero-bit_xor p)
reduction-bit_xor p (suc zero) zero l m = sym (bit_xor-zero p)
reduction-bit_xor p (suc zero) (suc zero) l m = sym (bit_xor_self p)
reduction-bit_xor p g h l m = absurd (omega arith)

module _ {d p : ℕ} (v : Primitive d p) where
  pub order_double : 2 ^ d ≡ 2 * 2 ^ (d - 1)
  order_double =
      ap (λ (k : ℕ). 2 ^ k) {x = d} {y = suc (d - 1)} (omega (arith, v.positive))
      ∙ omega (arith, pow-suc 2 (d - 1))

  doubled : (x : ℕ) → x < 2 ^ d → u32 (x * 2) ≡ 2 * x
  doubled x h = omega (arith, v.small)

  top : (x : ℕ) → x < 2 ^ d → 2 ^ (d - 1) ≤ x → x / 2 ^ (d - 1) ≡ 1
  top x h g = div-eq_of_lt-le {k = 1} (2 ^ (d - 1)) (omega arith) (omega (arith, order_double))

  -- The shift and the masked reduction, without words.
  pub next_exp_lem :
      (x : ℕ) → x < 2 ^ d → next_exp d p x ≡ bit_xor (2 * x) (reduction p (x / 2 ^ (d - 1)))
  unfolding next_exp
  next_exp_lem x h = elim (dec_lt x (2 ^ (d - 1))) [
    | yes l ↦ rw (div-eq_of_lt l, doubled x h, v.mask_none)
    | no g ↦ rw (top x h (omega arith), doubled x h, v.mask_all)
  ]

  pub next_exp-lt : (x : ℕ) → x < 2 ^ d → next_exp d p x < 2 ^ d
  next_exp-lt x h = rw (next_exp_lem x h) (elim (dec_lt x (2 ^ (d - 1))) [
    | yes l ↦ rw (div-eq_of_lt l, bit_xor-zero) (omega (arith, order_double))
    | no g ↦ rw (top x h (omega arith)) (below (carried (omega arith)))
  ])
    where
      carried : 2 ^ (d - 1) ≤ x → bit_xor (2 * x) p / 2 ^ d ≡ 0
      carried g = rw (
        bit_xor-shift d (2 * x) p,
        v.monic,
        div-eq_of_lt-le {k = 1} (2 ^ d) {m = 2 * x} (omega (arith, order_double))
            (omega (arith, order_double)),
      )

      below : {y : ℕ} → y / 2 ^ d ≡ 0 → y < 2 ^ d
      below {y} e = omega (
        arith,
        (div-lt_iff_lt-mul {k = 2 ^ d} {x = y} {y = 1} (omega (arith, v.more_than_two))).0
            (omega arith),
      )

  half-lt : (x : ℕ) → x < 2 ^ d → x / 2 ^ (d - 1) < 2
  half-lt x h = (div-lt_iff_lt-mul (omega (arith, order_double))).1 (omega (arith, order_double))

  -- Multiplication by the generator is linear.
  pub next_exp-bit_xor :
      (a b : ℕ)
      → a < 2 ^ d
      → b < 2 ^ d
      → next_exp d p (bit_xor a b) ≡ bit_xor (next_exp d p a) (next_exp d p b)
  next_exp-bit_xor a b ha hb =
      rw
        (
          next_exp_lem (bit_xor a b) (bit_xor-lt d a b ha hb),
          next_exp_lem a ha,
          next_exp_lem b hb,
          bit_xor-shift (d - 1) a b,
          reduction-bit_xor p _ _ (half-lt a ha) (half-lt b hb),
          double-bit_xor a b,
        )
        (bit_xor_interchange (2 * a) (2 * b) _ _)

  pub times_gen-lt : (k x : ℕ) → x < 2 ^ d → times_gen d p k x < 2 ^ d
  unfolding times_gen
  times_gen-lt zero x h = h
  times_gen-lt (suc k) x h = next_exp-lt (times_gen d p k x) (times_gen-lt k x h)

  pub times_gen-bit_xor :
      (k a b : ℕ)
      → a < 2 ^ d
      → b < 2 ^ d
      → times_gen d p k (bit_xor a b) ≡ bit_xor (times_gen d p k a) (times_gen d p k b)
  unfolding times_gen
  times_gen-bit_xor zero a b ha hb = refl
  times_gen-bit_xor (suc k) a b ha hb =
      rw (times_gen-bit_xor k a b ha hb)
        (next_exp-bit_xor _ _ (times_gen-lt k a ha) (times_gen-lt k b hb))

  pub times_gen-zero : (k : ℕ) → times_gen d p k 0 ≡ 0
  times_gen-zero k =
      let e =
        times_gen-bit_xor k 0 0 (omega (arith, v.more_than_two)) (omega (arith, v.more_than_two)) in
      e ∙ bit_xor_self (times_gen d p k 0)

  -- The powers of the generator come round after `2 ^ d - 1` of them.
  pub power_cycle : (q r : ℕ) → times_gen d p (q * (2 ^ d - 1) + r) 1 ≡ times_gen d p r 1
  power_cycle zero r = ap (λ k. times_gen d p k 1) (omega arith)
  power_cycle (suc q) r =
      ap (λ k. times_gen d p k 1) {x = suc q * (2 ^ d - 1) + r}
        {y = (q * (2 ^ d - 1) + r) + (2 ^ d - 1)} (grind arith)
      ∙ times_gen-add d p (q * (2 ^ d - 1) + r) (2 ^ d - 1) 1
      ∙ ap (times_gen d p (q * (2 ^ d - 1) + r)) v.cycle
      ∙ power_cycle q r

  pub power_mod : (k : ℕ) → times_gen d p (k % (2 ^ d - 1)) 1 ≡ times_gen d p k 1
  power_mod k =
      sym (power_cycle (k / (2 ^ d - 1)) (k % (2 ^ d - 1)))
      ∙ ap (λ j. times_gen d p j 1) (div-add-mod' k (2 ^ d - 1))
