-- ===== src/Rs/Galois/Logs.antt =====
-- Products by logarithms: over filled tables the code's `galois_mul` is a multiplication by a power
-- of the generator, and the ring laws follow.
use nettle.Prelude.{
  ℕ, zero, suc, ◌+◌, ◌-◌, ◌%◌, ◌^◌, ◌<◌, ◌≡◌, sym, ap, ap₂, ◌∙◌, arith, bit_xor, get_or,
}
use nettle.Prelude.Bits.{bit_xor-lt}
use native.Mathlib.Nat.{mod-lt}
use nettle.Rs.Galois.{Galois, u32, element, mul}
use nettle.Rs.Galois.Power.{
  times_gen, Primitive, times_gen-add, times_gen-lt, times_gen-bit_xor, times_gen-zero, power_mod,
}
use nettle.Rs.Galois.Init.{HasTables}
use nettle.Rs.Galois.Field.{zero-mul, mul-zero}

module _ {d p : ℕ} {g : Galois} (v : Primitive d p) (t : HasTables d p g) where
  pub element_lem : (i : ℕ) → element g i ≡ times_gen d p i 1
  unfolding element
  element_lem i =
      rw t.order_is
        (t.exps_is (i % (2 ^ d - 1)) (mod-lt i (omega (arith, v.more_than_two))) ∙ power_mod v i)

  pub log_lem : (a : ℕ) → 0 < a → a < 2 ^ d → get_or g.logs a 0 ≡ v.log_of a
  log_lem a h l =
      ap (λ b. get_or g.logs b 0) (sym (v.power_log a h l))
      ∙ t.logs_is (v.log_of a) (v.log_of-lt a h l)

  logs-lt : (a b : ℕ) → 0 < a → 0 < b → a < 2 ^ d → b < 2 ^ d → v.log_of a + v.log_of b < 2 ^ 17
  logs-lt a b ha hb la lb = omega (arith, v.small, v.log_of-lt a ha la, v.log_of-lt b hb lb)

  mul_tables :
      (a b : ℕ)
      → 0 < a
      → 0 < b
      → mul g a b ≡ element g (u32 (get_or g.logs a 0 + get_or g.logs b 0))
  unfolding mul
  mul_tables a b ha hb = ground arith

  pub mul-element :
      (a b : ℕ)
      → 0 < a
      → 0 < b
      → a < 2 ^ d
      → b < 2 ^ d
      → mul g a b ≡ element g (v.log_of a + v.log_of b)
  mul-element a b ha hb la lb =
      mul_tables a b ha hb
      ∙ ap (element g)
          (rw (log_lem a ha la, log_lem b hb lb) (omega (arith, logs-lt a b ha hb la lb)))

  -- A product is a multiplication by a power of the generator.
  pub mul_lem : (a b : ℕ) → 0 < a → a < 2 ^ d → b < 2 ^ d → mul g a b ≡ times_gen d p (v.log_of a) b
  mul_lem a zero h l m = mul-zero g a ∙ sym (times_gen-zero v (v.log_of a))
  mul_lem a (suc b) h l m =
      mul-element a (suc b) h (omega arith) l m
      ∙ element_lem (v.log_of a + v.log_of (suc b))
      ∙ times_gen-add d p (v.log_of a) (v.log_of (suc b)) 1
      ∙ ap (times_gen d p (v.log_of a)) (v.power_log (suc b) (omega arith) m)

  pub lt_pow-mul : (a b : ℕ) → a < 2 ^ d → b < 2 ^ d → mul g a b < 2 ^ d
  lt_pow-mul zero b la lb = rw (zero-mul g b) la
  lt_pow-mul (suc a) b la lb =
      rw (mul_lem (suc a) b (omega arith) la lb) (times_gen-lt v (v.log_of (suc a)) b lb)

  pub comm : (a b : ℕ) → a < 2 ^ d → b < 2 ^ d → mul g a b ≡ mul g b a
  comm zero b la lb = zero-mul g b ∙ sym (mul-zero g b)
  comm (suc a) zero la lb = mul-zero g (suc a) ∙ sym (zero-mul g (suc a))
  comm (suc a) (suc b) la lb =
      mul-element (suc a) (suc b) (omega arith) (omega arith) la lb
      ∙ ap (element g) (omega arith)
      ∙ sym (mul-element (suc b) (suc a) (omega arith) (omega arith) lb la)

  -- Multiplications by powers of the generator commute.
  pub assoc :
      (a b c : ℕ) → a < 2 ^ d → b < 2 ^ d → c < 2 ^ d → mul g (mul g a b) c ≡ mul g a (mul g b c)
  assoc zero b c la lb lc = rw (zero-mul g b, zero-mul g c, zero-mul g (mul g b c))
  assoc (suc a) b zero la lb lc =
      rw (mul-zero g (mul g (suc a) b), mul-zero g b, mul-zero g (suc a))
  assoc (suc a) b (suc c) la lb lc =
      let i = v.log_of (suc a) in
      let j = v.log_of (suc c) in
      comm _ (suc c) (lt_pow-mul (suc a) b la lb) lc
      ∙ mul_lem (suc c) _ (omega arith) lc (lt_pow-mul (suc a) b la lb)
      ∙ ap (times_gen d p j) (mul_lem (suc a) b (omega arith) la lb)
      ∙ sym (times_gen-add d p j i b)
      ∙ ap (λ k. times_gen d p k b) {x = j + i} {y = i + j} (omega arith)
      ∙ times_gen-add d p i j b
      ∙ ap (times_gen d p i) (sym (mul_lem (suc c) b (omega arith) lc lb))
      ∙ sym (mul_lem (suc a) _ (omega arith) la (lt_pow-mul (suc c) b lc lb))
      ∙ ap (mul g (suc a)) (comm (suc c) b lc lb)

  pub distrib :
      (a b c : ℕ)
      → a < 2 ^ d
      → b < 2 ^ d
      → c < 2 ^ d
      → mul g a (bit_xor b c) ≡ bit_xor (mul g a b) (mul g a c)
  distrib zero b c la lb lc = rw (zero-mul g (bit_xor b c), zero-mul g b, zero-mul g c)
  distrib (suc a) b c la lb lc =
      rw
        (
          mul_lem (suc a) (bit_xor b c) (omega arith) la (bit_xor-lt d b c lb lc),
          mul_lem (suc a) b (omega arith) la lb,
          mul_lem (suc a) c (omega arith) la lc,
        )
        (times_gen-bit_xor v (v.log_of (suc a)) b c lb lc)

  pub one_mul_lem : (a : ℕ) → a < 2 ^ d → mul g 1 a ≡ a
  unfolding times_gen
  one_mul_lem a la =
      mul_lem 1 a (omega arith) (omega (arith, v.more_than_two)) la
      ∙ ap (λ k. times_gen d p k a) {x = v.log_of 1} {y = 0} first
    where
      first : v.log_of 1 ≡ 0
      first = v.log_power 0 (omega (arith, v.more_than_two))

  pub element_pos_lem : (i : ℕ) → 0 < element g i
  element_pos_lem i =
      rw (element_lem i, ← power_mod v i)
        (v.power_pos (i % (2 ^ d - 1)) (mod-lt i (omega (arith, v.more_than_two))))

  pub element_lt_lem : (i : ℕ) → element g i < 2 ^ d
  element_lt_lem i = rw (element_lem i) (times_gen-lt v i 1 (omega (arith, v.more_than_two)))

  pub pos_lem : (a b : ℕ) → 0 < a → 0 < b → a < 2 ^ d → b < 2 ^ d → 0 < mul g a b
  pos_lem a b ha hb la lb = rw (mul-element a b ha hb la lb) (element_pos_lem _)

  log_element : (i : ℕ) → v.log_of (element g i) ≡ i % (2 ^ d - 1)
  log_element i =
      rw (element_lem i, ← power_mod v i)
        (v.log_power (i % (2 ^ d - 1)) (mod-lt i (omega (arith, v.more_than_two))))

  pub element-add_lem : (i j : ℕ) → element g (i + j) ≡ mul g (element g i) (element g j)
  element-add_lem i j =
      element_lem (i + j)
      ∙ ap (λ k. times_gen d p k 1) {x = i + j} {y = j + i} (omega arith)
      ∙ times_gen-add d p j i 1
      ∙ ap (times_gen d p j) (sym (power_mod v i))
      ∙ sym (times_gen-add d p j (i % (2 ^ d - 1)) 1)
      ∙ ap (λ k. times_gen d p k 1) {x = j + i % (2 ^ d - 1)} {y = i % (2 ^ d - 1) + j}
          (omega arith)
      ∙ times_gen-add d p (i % (2 ^ d - 1)) j 1
      ∙ ap₂ (times_gen d p) (sym (log_element i)) (sym (element_lem j))
      ∙ sym (mul_lem _ _ (element_pos_lem i) (element_lt_lem i) (element_lt_lem j))

  pub log_mul :
      (a b : ℕ)
      → 0 < a
      → 0 < b
      → a < 2 ^ d
      → b < 2 ^ d
      → v.log_of (mul g a b) ≡ (v.log_of a + v.log_of b) % (2 ^ d - 1)
  log_mul a b ha hb la lb =
      ap v.log_of (mul-element a b ha hb la lb) ∙ log_element (v.log_of a + v.log_of b)
