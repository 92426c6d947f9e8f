-- ===== src/Rs/Galois/Poly/Shift.antt =====
-- `galois_poly_shift_add_scale`, coefficient by coefficient.
use nettle.Prelude.{
  ℕ, zero, suc, ◌+◌, ◌-◌, ◌<◌, ◌≡◌, ◌⊎◌, inl, inr, refl, ap, ap₂, ◌∙◌, arith, List, get_or, set,
  length, length-set, get_or-set_self, get_or-set_ne,
}
use native.Mathlib.Decide.{ℕ_discrete}
use nettle.Rs.Galois.{Galois, add, mul}
use nettle.Rs.Galois.Poly.{shift_loop, shift_add_scale}

module _ (g : Galois) (s : ℕ) where
  pub length-shift_loop : (k : ℕ) (a : List ℕ) → length (shift_loop g s k a) ≡ length a
  unfolding shift_loop
  length-shift_loop zero a = refl
  length-shift_loop (suc k) a = length-shift_loop k _ ∙ length-set a (suc k) _

  -- The entries past `k`, and the first, are left alone.
  loop_outside :
      (k j : ℕ) (a : List ℕ)
      → k < length a
      → (k < j) ⊎ (j ≡ 0)
      → get_or (shift_loop g s k a) j 0 ≡ get_or a j 0
  unfolding shift_loop
  loop_outside zero j a h o = refl
  loop_outside (suc k) j a h o =
      let w = add (get_or a (suc k - 1) 0) (mul g (get_or a (suc k) 0) s) in
      loop_outside k j (set a (suc k) w) (omega (arith, length-set a (suc k) w))
        (elim o [ inl p ↦ inl (omega arith) | inr p ↦ inr p ])
      ∙ get_or-set_ne a (suc k) j w 0 (elim o [ inl p ↦ omega arith | inr p ↦ omega arith ])

  -- The loop goes down, so each entry is made of old ones.
  loop_inside :
      (k j : ℕ) (a : List ℕ)
      → k < length a
      → j < k
      → get_or (shift_loop g s k a) (suc j) 0 ≡ add (get_or a j 0) (mul g (get_or a (suc j) 0) s)
  unfolding shift_loop
  loop_inside zero j a h l = absurd (omega arith)
  loop_inside (suc k) j a h l =
      let w = add (get_or a (suc k - 1) 0) (mul g (get_or a (suc k) 0) s) in
      let a' = set a (suc k) w in
      let size = length-set a (suc k) w in
      elim (ℕ_discrete j k) [
        | yes e ↦ rw e (
            loop_outside k (suc k) a' (omega (arith, size)) (inl (omega arith))
            ∙ get_or-set_self a (suc k) w 0 h
            ∙ ap (λ i. add (get_or a i 0) (mul g (get_or a (suc k) 0) s)) (omega arith))
        | no ne ↦
            loop_inside k j a' (omega (arith, size)) (omega arith)
            ∙ ap₂ (λ b c. add b (mul g c s)) (get_or-set_ne a (suc k) j w 0 (omega arith))
                (get_or-set_ne a (suc k) (suc j) w 0 (omega arith))
      ]

  module _ (a : List ℕ) (n : ℕ) (room : suc n < length a) where
    wide : n + 1 < length (set a (n + 1) 0)
    wide = omega (arith, length-set a (n + 1) 0)

    first : get_or (shift_loop g s (n + 1) (set a (n + 1) 0)) 0 0 ≡ get_or a 0 0
    first =
        loop_outside (n + 1) 0 (set a (n + 1) 0) wide (inr refl)
        ∙ get_or-set_ne a (n + 1) 0 0 0 (omega arith)

    pub length-shift_add_scale : length (shift_add_scale g a n s) ≡ length a
    unfolding shift_add_scale
    length-shift_add_scale =
        length-set (shift_loop g s (n + 1) (set a (n + 1) 0)) 0 _
        ∙ length-shift_loop (n + 1) (set a (n + 1) 0)
        ∙ length-set a (n + 1) 0

    pub shift_add_scale-zero : get_or (shift_add_scale g a n s) 0 0 ≡ mul g (get_or a 0 0) s
    unfolding shift_add_scale
    shift_add_scale-zero =
        get_or-set_self (shift_loop g s (n + 1) (set a (n + 1) 0)) 0 _ 0
          (omega (arith, length-shift_loop (n + 1) (set a (n + 1) 0), length-set a (n + 1) 0))
        ∙ ap (λ c. mul g c s) first

    pub shift_add_scale-suc :
        (j : ℕ)
        → j < n + 1
        → get_or (shift_add_scale g a n s) (suc j) 0
          ≡ add (get_or a j 0) (mul g (get_or (set a (n + 1) 0) (suc j) 0) s)
    unfolding shift_add_scale
    shift_add_scale-suc j l =
        get_or-set_ne (shift_loop g s (n + 1) (set a (n + 1) 0)) 0 (suc j) _ 0 (omega arith)
        ∙ loop_inside (n + 1) j (set a (n + 1) 0) wide l
        ∙ ap (λ b. add b (mul g (get_or (set a (n + 1) 0) (suc j) 0) s))
            (get_or-set_ne a (n + 1) j 0 0 (omega arith))
