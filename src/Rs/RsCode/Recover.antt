-- ===== src/Rs/RsCode/Recover.antt =====
-- `rscode_decode_erasure` recovers an erased symbol from the syndromes that the erased symbols leave.
use nettle.Prelude.{
  ℕ, zero, suc, ◌+◌, ◌-◌, ◌*◌, ◌<◌, ◌≡◌, ◌≢◌, sym, ap, ◌∙◌, arith, bit_xor, List, ◌∷◌, get_or,
  replicate, length-replicate, get_or-replicate, some,
}
use nettle.Prelude.Bits.{bit_xor-zero, zero-bit_xor, bit_xor_assoc, bit_xor_comm}
use nettle.Rs.Galois.{Galois, add, mul, div, element}
use nettle.Rs.Galois.Field.{IsField, mul-zero}
use nettle.Rs.Galois.Sum.{sum, sum-congr, sum_swap, sum_single, mul-sum, sum-lt}
use nettle.Rs.Galois.Poly.Eval.{
  power, power-lt, eval, coefficients, AllIn, mul_left_comm, mul_one, term-lt,
}
use nettle.Rs.RsCode.{RsCode, z, sigma_loop, solve_loop, decode_erasure}
use nettle.Rs.RsCode.Erasure.{Built, roots, roots-lt, roots_vanish, roots_pos, loop-Built}

-- The solving loop goes through the terms from the last one down.
solve-sum :
    (g : Galois) (syn sig : List ℕ) (num rounds j total : ℕ)
    → j + rounds ≡ num
    → solve_loop g syn sig num rounds j total
      ≡ bit_xor total (sum rounds (λ k. mul g (get_or syn k 0) (get_or sig k 0)))
unfolding solve_loop sum
solve-sum g syn sig num zero j total e = sym (bit_xor-zero total)
solve-sum g syn sig num (suc rounds) j total e =
    let f = λ (k : ℕ). mul g (get_or syn k 0) (get_or sig k 0) in
    solve-sum g syn sig num rounds (j + 1) _ (omega arith)
    ∙ ap (λ k. bit_xor (add total (f k)) (sum rounds f)) (omega arith)
    ∙ bit_xor_assoc total (f rounds) (sum rounds f)
    ∙ ap (bit_xor total) (bit_xor_comm (f rounds) (sum rounds f))

-- The syndrome that the values, at the erased degrees, leave at the root of index `k`.
abbrev pub left_by : Galois → List ℕ → ℕ → (ℕ → ℕ) → ℕ → ℕ
left_by g degrees num values k = sum num (λ j. mul g (values j) (power g (z g degrees j) (suc k)))

module _ {g : Galois} (F : IsField g) where
  pub element-mul : (d k : ℕ) → element g (d * k) ≡ power g (element g d) k
  unfolding power
  element-mul d zero = ap (element g) {x = d * 0} {y = 0} (omega arith) ∙ F.element-zero
  element-mul d (suc k) =
      ap (element g) {x = d * suc k} {y = d * k + d} (grind arith)
      ∙ F.element-add (d * k) d
      ∙ ap (λ p. mul g p (element g d)) (element-mul d k)

  start-AllIn : (n j : ℕ) → get_or (element g 0 ∷ replicate n 0) j 0 < g.order
  start-AllIn n zero = F.element-lt 0
  start-AllIn n (suc j) = rw (get_or-replicate {A = ℕ} n j 0) (omega (arith, F.order-lt))

  start-Built :
      (degrees : List ℕ) (i n : ℕ)
      → Built F degrees i 0 0 (element g 0 ∷ replicate n 0) (z g degrees i)
  unfolding sum power roots
  start-Built degrees i n = record {
    in_field = λ j l. start-AllIn n j;
    value = λ x h. zero-bit_xor _ ∙ mul_one F _ (F.element-lt 0) ∙ F.element-zero;
    product = sym (mul_one F _ (F.element-lt _));
    degree_is = ground arith;
  }

  module _ (degrees : List ℕ) (num : ℕ) (values : ℕ → ℕ) (hv : (j : ℕ) → values j < g.order) where
    weight : ℕ → ℕ
    weight j = mul g (values j) (z g degrees j)

    weight-lt : (j : ℕ) → weight j < g.order
    unfolding weight
    weight-lt j = F.mul-lt _ _ (hv j) (F.element-lt _)

    -- One product of a syndrome's term and a coefficient, sorted by the erased degree.
    cross_term :
        (s k j : ℕ)
        → s < g.order
        → mul g s (mul g (values j) (power g (z g degrees j) (suc k)))
          ≡ mul g (weight j) (mul g s (power g (z g degrees j) k))
    unfolding weight power
    cross_term s k j hs =
        let zj = z g degrees j in
        let hz = F.element-lt (get_or degrees j 0) in
        let hp = power-lt F zj k hz in
        ap (λ p. mul g s (mul g (values j) p)) (F.mul_comm _ zj hp hz)
        ∙ ap (mul g s) (sym (F.mul_assoc (values j) zj _ (hv j) hz hp))
        ∙ mul_left_comm F s _ _ hs (F.mul-lt _ _ (hv j) hz) hp

    module _ (sigma : ℕ → ℕ) (hs : AllIn g sigma num) where
      -- The sum that the decoder solves for, as one value of `sigma` for each erased degree.
      syndromes_to_values :
          sum num (λ k. mul g (left_by g degrees num values k) (sigma k))
          ≡ sum num (λ j. mul g (weight j) (eval g sigma num (z g degrees j)))
      syndromes_to_values =
          let t = λ (k j : ℕ). mul g (values j) (power g (z g degrees j) (suc k)) in
          let ht = λ (k j : ℕ). F.mul-lt _ _ (hv j) (power-lt F _ (suc k) (F.element-lt _)) in
          sum-congr num _ _ (λ k l.
            F.mul_comm _ _ (sum-lt F num (t k) (λ j m. ht k j)) (hs k l)
            ∙ mul-sum F (sigma k) num (t k) (hs k l) (λ j m. ht k j)
            ∙ sum-congr num _ _ (λ j m. cross_term (sigma k) k j (hs k l)))
          ∙ sum_swap num num _
          ∙ sum-congr num _ _ (λ j m. sym (
              mul-sum F (weight j) num _ (weight-lt j)
                (λ k l. term-lt F sigma _ k (hs k l) (F.element-lt _))))

      solved :
          (i : ℕ)
          → i < num
          → ((x : ℕ) → x < g.order → eval g sigma num x ≡ roots g degrees i x num)
          → sum num (λ k. mul g (left_by g degrees num values k) (sigma k))
            ≡ mul g (values i) (mul g (z g degrees i) (roots g degrees i (z g degrees i) num))
      unfolding weight
      solved i h value =
          syndromes_to_values
          ∙ sum_single num i _ h (λ j l ne.
            ap (mul g (weight j)) (value _ (F.element-lt _) ∙ roots_vanish F degrees i j num l ne)
            ∙ mul-zero g _)
          ∙ ap (mul g (weight i)) (value _ (F.element-lt _))
          ∙ F.mul_assoc _ _ _ (hv i) (F.element-lt _) (roots-lt F degrees i _ num (F.element-lt _))

-- Over a field, when each syndrome of index below `num` is what `num` values of the field leave at
-- their erased degrees, and the erased degree of index `i` below `num` has another power than the
-- others, `rscode_decode_erasure` returns the value of index `i`, without a division by zero.
pub decode_erasure_recovers :
    (c : RsCode)
    → IsField c.galois
    → (syndromes degrees : List ℕ) (num i : ℕ) (values : ℕ → ℕ)
    → ((j : ℕ) → values j < c.galois.order)
    → i < num
    → ((k : ℕ) → k < num → get_or syndromes k 0 ≡ left_by c.galois degrees num values k)
    → ((j : ℕ) → j < num → j ≢ i → z c.galois degrees j ≢ z c.galois degrees i)
    → decode_erasure c syndromes degrees num i ≡ some (values i)
unfolding decode_erasure
decode_erasure_recovers c F syndromes degrees num i values hv h left apart =
    let g = c.galois in
    let sigma = element g 0 ∷ replicate (num - 1) 0 in
    let b =
      loop-Built F degrees i num num 0 0 sigma (z g degrees i) h (omega arith)
        (omega (arith, length-replicate {A = ℕ} (num - 1) 0)) (start-Built F degrees i (num - 1)) in
    let last = sigma_loop g degrees i num 0 0 sigma (z g degrees i) in
    let zi = z g degrees i in
    let r = roots g degrees i zi num in
    let hr = roots-lt F degrees i zi num (F.element-lt _) in
    let positive : 0 < last.1 =
      rw b.product
        (F.mul-pos zi r (F.element-pos _) (roots_pos F degrees i num apart) (F.element-lt _) hr) in
    let small : last.1 < g.order = rw b.product (F.mul-lt zi r (F.element-lt _) hr) in
    let total =
      solve-sum g syndromes last.0 num num 0 0 (omega arith)
      ∙ zero-bit_xor _
      ∙ sum-congr num _ _ (λ k l. ap (λ s. mul g s (get_or last.0 k 0)) (left k l))
      ∙ solved F degrees num values hv (coefficients g last.0) (λ j l. b.in_field j (omega arith)) i
          h
          (λ x hx.
            ap (λ n. eval g (coefficients g last.0) n x) {x = num} {y = suc (num - 1)} (omega arith)
            ∙ b.value x hx)
      ∙ ap (mul g (values i)) (sym b.product) in
    ap (λ s. div g s last.1) total ∙ F.div-mul (values i) last.1 (hv i) positive small
