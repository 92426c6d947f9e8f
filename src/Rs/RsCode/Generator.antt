-- ===== src/Rs/RsCode/Generator.antt =====
-- The generator polynomial that `rscode_init` builds: monic, with a root at each of the first powers.
use nettle.Prelude.{
  ℕ, zero, suc, ◌+◌, ◌-◌, ◌^◌, ◌≤◌, ◌<◌, ◌≡◌, sym, ap, ap₂, subst, ◌∙◌, arith, List, get_or, set,
  length, length-set, get_or-set_self,
}
use nettle.Prelude.Bits.{bit_xor-zero, zero-bit_xor, bit_xor_self}
use native.Mathlib.Decide.{ℕ_discrete}
use native.Mathlib.Nat.{add-zero}
use nettle.Rs.Galois.{Galois, u32, add, mul, element}
use nettle.Rs.Galois.Field.{IsField, mul-zero, zero-mul}
use nettle.Rs.Galois.Sum.{sum}
use nettle.Rs.Galois.Poly.Zero.{length-zero_from}
use nettle.Rs.Galois.Poly.{poly_zero, shift_add_scale}
use nettle.Rs.Galois.Poly.Shift.{length-shift_add_scale, shift_add_scale-suc}
use nettle.Rs.Galois.Poly.Eval.{
  power, eval, coefficients, AllIn, shift_add_scale-eval, shift_add_scale-AllIn, mul_one,
}
use nettle.Rs.RsCode.{RsCode, gen_loop, init, checks_num}

-- The product of `x + element l` for `l` from 1 to `m`.
gen_roots : Galois → ℕ → ℕ → ℕ
gen_roots g x zero = 1
gen_roots g x (suc m) = mul g (add x (element g (suc m))) (gen_roots g x m)

gen_roots_vanish : (g : Galois) (l m : ℕ) → 0 < l → l ≤ m → gen_roots g (element g l) m ≡ 0
unfolding gen_roots
gen_roots_vanish g l zero p h = absurd (omega arith)
gen_roots_vanish g l (suc m) p h = elim (ℕ_discrete l (suc m)) [
  | yes e ↦
      let r = gen_roots g (element g l) m in
      ap (λ k. mul g k r)
        (ap (λ k. add (element g k) (element g (suc m))) e ∙ bit_xor_self (element g (suc m)))
      ∙ zero-mul g r
  | no ne ↦ ap (mul g _) (gen_roots_vanish g l m p (omega arith)) ∙ mul-zero g _
]

-- What a generator polynomial of degree `T` is: over the field, monic, and zero at the elements
-- `element 1` to `element T`.
pub record IsGenerator (g : Galois) (T : ℕ) (poly : List ℕ) : Type 0 where
  pub in_field : AllIn g (coefficients g poly) (suc T)
  pub root : (l : ℕ) → 0 < l → l ≤ T → eval g (coefficients g poly) (suc T) (element g l) ≡ 0
  pub monic : get_or poly T 0 ≡ 1

-- The array when the loop has multiplied in `m` roots.
record Grown (g : Galois) (m : ℕ) (poly : List ℕ) : Type 0 where
  in_field : AllIn g (coefficients g poly) (suc m)
  value : (x : ℕ) → x < g.order → eval g (coefficients g poly) (suc m) x ≡ gen_roots g x m
  leading : get_or poly m 0 ≡ 1

module _ {g : Galois} (F : IsField g) where
  Grown-step :
      (m : ℕ) (poly : List ℕ)
      → suc m < length poly
      → Grown g m poly
      → Grown g (suc m) (shift_add_scale g poly m (element g (suc m)))
  unfolding gen_roots
  Grown-step m poly room w =
      let s = element g (suc m) in
      record {
        in_field = shift_add_scale-AllIn F poly m s room w.in_field (F.element-lt _);
        value = λ x h.
            shift_add_scale-eval F poly m s room w.in_field (F.element-lt _) x h
            ∙ ap (mul g _) (w.value x h);
        leading =
            shift_add_scale-suc g s poly m room m (omega arith)
            ∙ ap₂ add w.leading (
                ap (λ k. mul g k s)
                  (ap (λ i. get_or (set poly (m + 1) 0) i 0) {x = suc m} {y = m + 1} (omega arith)
                    ∙ get_or-set_self poly (m + 1) 0 0 (omega arith))
                ∙ zero-mul g s)
            ∙ bit_xor-zero 1;
      }

  loop-Grown :
      (rounds m : ℕ) (poly : List ℕ)
      → m + rounds < length poly
      → Grown g m poly
      → Grown g (m + rounds) (gen_loop g rounds (suc m) poly)
  unfolding gen_loop
  loop-Grown zero m poly room w = rw add-zero w
  loop-Grown (suc rounds) m poly room w =
      rw (sub_suc m, bump m, shift m rounds)
        (loop-Grown rounds (suc m) _
          (omega (arith, length-shift_add_scale g (element g (suc m)) poly m (omega arith)))
          (Grown-step m poly (omega arith) w))
    where
      sub_suc : (j : ℕ) → suc j - 1 ≡ j
      sub_suc j = omega arith

      bump : (j : ℕ) → suc j + 1 ≡ suc (suc j)
      bump j = omega arith

      shift : (j r : ℕ) → j + suc r ≡ suc j + r
      shift j r = omega arith

-- A code with `T` checks that is ready for use.
pub record IsCode (c : RsCode) (T : ℕ) : Type 0 where
  pub field : IsField c.galois
  pub checks : checks_num c ≡ T
  pub positive : 0 < T
  pub below : T < c.galois.order
  pub generator : IsGenerator c.galois T c.gen_poly

module _ {g : Galois} (F : IsField g) (gen_poly : List ℕ) (T : ℕ) (room : T < length gen_poly) where
  abbrev first_poly : List ℕ
  first_poly = set (poly_zero gen_poly T) 0 (element g 0)

  length-poly_zero : length (poly_zero gen_poly T) ≡ length gen_poly
  unfolding poly_zero
  length-poly_zero = length-zero_from (T + 1) 0 gen_poly

  length-first_poly : length first_poly ≡ length gen_poly
  length-first_poly = length-set (poly_zero gen_poly T) 0 (element g 0) ∙ length-poly_zero

  leading_one : get_or first_poly 0 0 ≡ 1
  leading_one =
      get_or-set_self (poly_zero gen_poly T) 0 (element g 0) 0 (omega (arith, length-poly_zero))
      ∙ F.element-zero

  start-Grown : Grown g 0 first_poly
  unfolding gen_roots sum power
  start-Grown = record {
    in_field = λ j l. rw (zero_of_lt j l, leading_one) F.order-lt;
    value = λ x h. zero-bit_xor _ ∙ rw leading_one (mul_one F 1 F.order-lt);
    leading = leading_one;
  }
    where
      zero_of_lt : (j : ℕ) → j < 1 → j ≡ 0
      zero_of_lt j l = omega arith

  built-IsGenerator : IsGenerator g T (gen_loop g T 1 first_poly)
  built-IsGenerator =
      let w = loop-Grown F T 0 first_poly (omega (arith, length-first_poly)) start-Grown in
      let total : 0 + T ≡ T = omega arith in
      let w' = subst (λ m. Grown g m (gen_loop g T 1 first_poly)) total w in
      record {
        in_field = w'.in_field;
        root = λ l p h. w'.value _ (F.element-lt l) ∙ gen_roots_vanish g l T p h;
        monic = w'.leading;
      }

-- Over a field, for `k` below the order less 1 and any array with more words than checks,
-- `rscode_init` makes a code with `order - 1 - k` checks: the generator polynomial has that degree,
-- its coefficients are in the field, the highest one is 1, and it is 0 at `element 1` and on to the
-- element of its degree.
pub init-IsCode :
    (k : ℕ) (g : Galois) (gen_poly : List ℕ)
    → IsField g
    → k < g.order - 1
    → g.order - 1 - k < length gen_poly
    → IsCode (init k g gen_poly) (g.order - 1 - k)
unfolding init
init-IsCode k g gen_poly F h room =
    let T = g.order - 1 - k in
    let word : u32 (g.order - 1 + 2 ^ 32 - k) ≡ T = omega (arith, F.order_small) in
    record {
      field = F;
      checks = word;
      positive = omega arith;
      below = omega arith;
      generator =
          subst (λ t. IsGenerator g T (gen_loop g t 1 (set (poly_zero gen_poly t) 0 (element g 0))))
            (sym word) (built-IsGenerator F gen_poly T room);
    }
