-- ===== src/Rs/RsCode/Erasure.antt =====
-- The loops of `rscode_decode_erasure`: `sigma` is the polynomial with a root at every erased
-- degree but one, and `prod` its value at that one, times the element of the degree.
use nettle.Prelude.{
  ℕ, zero, suc, ◌+◌, ◌-◌, ◌<◌, ◌≡◌, ◌≢◌, sym, ap, subst₂, ◌∙◌, arith, List, length, ltb, ◌==◌,
  if◌then◌else◌,
}
use nettle.Prelude.Bits.{bit_xor_self, eq_of_bit_xor-zero}
use native.Mathlib.Numerals.{add-one}
use native.Mathlib.Decide.{ℕ_discrete}
use nettle.Rs.Galois.{Galois, add, mul}
use nettle.Rs.Galois.Field.{IsField, mul-zero, zero-mul}
use nettle.Rs.Galois.Poly.{shift_add_scale}
use nettle.Rs.Galois.Poly.Shift.{length-shift_add_scale}
use nettle.Rs.Galois.Poly.Eval.{
  eval, coefficients, AllIn, shift_add_scale-eval, shift_add_scale-AllIn,
}
use nettle.Rs.RsCode.{z, sigma_loop}

-- The product of `x + z(j)` over the `m` first `j` but `i`.
unfoldable pub roots : Galois → List ℕ → ℕ → ℕ → ℕ → ℕ
roots g degrees i x zero = 1
roots g degrees i x (suc m) =
    if i == m then roots g degrees i x m else mul g (add x (z g degrees m)) (roots g degrees i x m)

module _ (g : Galois) (degrees : List ℕ) (i x m : ℕ) where
  roots_own : i ≡ m → roots g degrees i x (suc m) ≡ roots g degrees i x m
  unfolding roots
  roots_own e = ground arith

  roots_other :
      i ≢ m → roots g degrees i x (suc m) ≡ mul g (add x (z g degrees m)) (roots g degrees i x m)
  unfolding roots
  roots_other ne = ground arith

module _ {g : Galois} (F : IsField g) (degrees : List ℕ) (i : ℕ) where
  pub roots-lt : (x m : ℕ) → x < g.order → roots g degrees i x m < g.order
  unfolding roots
  roots-lt x zero h = F.order-lt
  roots-lt x (suc m) h = elim (ℕ_discrete i m) [
    | yes e ↦ rw (roots_own g degrees i x m e) (roots-lt x m h)
    | no ne ↦
        rw (roots_other g degrees i x m ne)
          (F.mul-lt _ _ (F.add-lt _ _ h (F.element-lt _)) (roots-lt x m h))
  ]

  -- Each of the other elements is a root.
  pub roots_vanish : (j m : ℕ) → j < m → j ≢ i → roots g degrees i (z g degrees j) m ≡ 0
  roots_vanish j zero l ne = absurd (omega arith)
  roots_vanish j (suc m) l ne = elim (ℕ_discrete i m) [
    | yes e ↦ roots_own g degrees i _ m e ∙ roots_vanish j m (omega arith) ne
    | no other ↦ roots_other g degrees i _ m other ∙ elim (ℕ_discrete j m) [
      | yes e ↦
          let r = roots g degrees i (z g degrees j) m in
          ap (λ k. mul g k r)
            (ap (λ k. add (z g degrees k) (z g degrees m)) e ∙ bit_xor_self (z g degrees m))
          ∙ zero-mul g r
      | no before ↦ ap (mul g _) (roots_vanish j m (omega arith) ne) ∙ mul-zero g _
    ]
  ]

  -- The element left out is no root, if the elements differ.
  pub roots_pos :
      (m : ℕ)
      → ((j : ℕ) → j < m → j ≢ i → z g degrees j ≢ z g degrees i)
      → 0 < roots g degrees i (z g degrees i) m
  unfolding roots
  roots_pos zero d = omega arith
  roots_pos (suc m) d = elim (ℕ_discrete i m) [
    | yes e ↦ rw (roots_own g degrees i _ m e) (roots_pos m (λ j l. d j (omega arith)))
    | no ne ↦ rw (roots_other g degrees i _ m ne) (
        F.mul-pos _ _ (apart (λ e. d m (omega arith) (λ k. ne (sym k)) (sym e)))
          (roots_pos m (λ j l. d j (omega arith))) (F.add-lt _ _ (F.element-lt _) (F.element-lt _))
          (roots-lt _ m (F.element-lt _)))
  ]
    where
      apart : z g degrees i ≢ z g degrees m → 0 < add (z g degrees i) (z g degrees m)
      apart ne = elim (ℕ_discrete (add (z g degrees i) (z g degrees m)) 0) [
        | yes e ↦ absurd (ne (eq_of_bit_xor-zero _ _ e))
        | no pos ↦ omega arith
      ]

  -- What the loop has built when it comes to `j`.
  pub record Built (j d : ℕ) (sigma : List ℕ) (prod : ℕ) : Type 0 where
    pub in_field : AllIn g (coefficients g sigma) (suc d)
    pub value :
        (x : ℕ) → x < g.order → eval g (coefficients g sigma) (suc d) x ≡ roots g degrees i x j
    pub product : prod ≡ mul g (z g degrees i) (roots g degrees i (z g degrees i) j)
    pub degree_is : d ≡ (if ltb i j then j - 1 else j)

  module _ (j d : ℕ) (sigma : List ℕ) (prod : ℕ) (b : Built j d sigma prod) where
    Built-skip : i ≡ j → Built (suc j) d sigma prod
    Built-skip e = record {
      in_field = b.in_field;
      value = λ x h. b.value x h ∙ sym (roots_own g degrees i x j e);
      product = b.product ∙ ap (mul g _) (sym (roots_own g degrees i _ j e));
      degree_is = ground (arith, b.degree_is);
    }

    Built-multiply :
        i ≢ j
        → suc d < length sigma
        → Built
            (suc j)
            (suc d)
            (shift_add_scale g sigma d (z g degrees j))
            (mul g prod (add (z g degrees i) (z g degrees j)))
    Built-multiply ne room = record {
      in_field = shift_add_scale-AllIn F sigma d _ room b.in_field (F.element-lt _);
      value = λ x h.
          shift_add_scale-eval F sigma d _ room b.in_field (F.element-lt _) x h
          ∙ ap (mul g _) (b.value x h)
          ∙ sym (roots_other g degrees i x j ne);
      product =
          let zi = z g degrees i in
          let hw = F.add-lt zi (z g degrees j) (F.element-lt _) (F.element-lt _) in
          let hr = roots-lt zi j (F.element-lt _) in
          ap (λ k. mul g k (add zi (z g degrees j))) b.product
          ∙ F.mul_assoc _ _ _ (F.element-lt _) hr hw
          ∙ ap (mul g zi) (F.mul_comm _ _ hr hw ∙ sym (roots_other g degrees i zi j ne));
      degree_is = ground (arith, b.degree_is);
    }

  module _ (rounds j d : ℕ) (sigma : List ℕ) (prod : ℕ) where
    loop_skip :
        i ≡ j
        → sigma_loop g degrees i (suc rounds) j d sigma prod
          ≡ sigma_loop g degrees i rounds (suc j) d sigma prod
    unfolding sigma_loop
    loop_skip e = rw (add-one j) (ground arith)

    loop_multiply :
        i ≢ j
        → sigma_loop g degrees i (suc rounds) j d sigma prod
          ≡ sigma_loop g degrees i rounds
              (suc j)
              (suc d)
              (shift_add_scale g sigma d (z g degrees j))
              (mul g prod (add (z g degrees i) (z g degrees j)))
    unfolding sigma_loop
    loop_multiply ne = rw (add-one j, add-one d) (ground arith)

  -- From `j` on, the loop builds the whole product in the room that `sigma` has.
  pub loop-Built :
      (total rounds j d : ℕ) (sigma : List ℕ) (prod : ℕ)
      → i < total
      → j + rounds ≡ total
      → total ≡ length sigma
      → Built j d sigma prod
      → Built total
          (total - 1)
          (sigma_loop g degrees i rounds j d sigma prod).0
          (sigma_loop g degrees i rounds j d sigma prod).1
  unfolding sigma_loop
  loop-Built total zero j d sigma prod h e room b =
      let same : j ≡ total = omega arith in
      let low : d ≡ total - 1 = ground (arith, b.degree_is) in
      subst₂ (λ m n. Built m n sigma prod) same low b
  loop-Built total (suc rounds) j d sigma prod h e room b = elim (ℕ_discrete i j) [
    | yes own ↦ rw (loop_skip rounds j d sigma prod own) (
        loop-Built total rounds (suc j) d sigma prod h (omega arith) room
          (Built-skip j d sigma prod b own))
    | no ne ↦
        let fits : suc d < length sigma = ground (arith, b.degree_is) in
        rw (loop_multiply rounds j d sigma prod ne) (
          loop-Built total rounds (suc j) (suc d) _ _ h (omega arith)
            (room ∙ sym (length-shift_add_scale g (z g degrees j) sigma d fits))
            (Built-multiply j d sigma prod b ne fits))
  ]
