-- ===== src/Rs/RsCode/Syndromes.antt =====
-- `rscode_decode_syndromes` adds the symbol's value at each root to the syndromes.
use nettle.Prelude.{
  ℕ, zero, suc, ◌+◌, ◌*◌, ◌^◌, ◌≤◌, ◌<◌, ◌≡◌, refl, sym, ap, ◌∙◌, arith, List, get_or, set, length,
  length-set, get_or-set_self, get_or-set_ne,
}
use native.Mathlib.Decide.{ℕ_discrete}
use native.Mathlib.Nat.{mul_comm, mod-eq_of_lt, mul-le-mul_right, le-pred_of_lt}
use nettle.Rs.Galois.{u32, add, mul, element}
use nettle.Rs.Galois.Poly.Eval.{power}
use nettle.Rs.RsCode.{RsCode, syndromes_loop, decode_syndromes, checks_num}
use nettle.Rs.RsCode.Generator.{IsCode}
use nettle.Rs.RsCode.Recover.{element-mul}

product-lt : (a b : ℕ) → a < 2 ^ 16 → b < 2 ^ 16 → a * b < 2 ^ 32
product-lt a b ha hb = omega (arith, mul-le-mul_right b (le-pred_of_lt ha))

module _ (c : RsCode) (input degree : ℕ) where
  abbrev pub update : ℕ → ℕ
  update i = mul c.galois input (element c.galois (u32 (degree * (i + 1))))

  length-syndromes_loop :
      (rounds i : ℕ) (a : List ℕ) → length (syndromes_loop c input degree rounds i a) ≡ length a
  unfolding syndromes_loop
  length-syndromes_loop zero i a = refl
  length-syndromes_loop (suc rounds) i a =
      length-syndromes_loop rounds (i + 1) (set a i _) ∙ length-set a i _

  loop-below :
      (rounds i j : ℕ) (a : List ℕ)
      → j < i
      → get_or (syndromes_loop c input degree rounds i a) j 0 ≡ get_or a j 0
  unfolding syndromes_loop
  loop-below zero i j a h = refl
  loop-below (suc rounds) i j a h =
      loop-below rounds (i + 1) j (set a i _) (omega arith) ∙ get_or-set_ne a i j _ 0 (omega arith)

  pub loop-within :
      (rounds i j : ℕ) (a : List ℕ)
      → i + rounds ≤ length a
      → i ≤ j
      → j < i + rounds
      → get_or (syndromes_loop c input degree rounds i a) j 0 ≡ add (get_or a j 0) (update j)
  unfolding syndromes_loop
  loop-within zero i j a room l h = absurd (omega arith)
  loop-within (suc rounds) i j a room l h =
      let w = add (get_or a i 0) (update i) in
      elim (ℕ_discrete i j) [
        | yes e ↦
            loop-below rounds (i + 1) j (set a i w) (omega arith)
            ∙ ap (λ k. get_or (set a i w) k 0) (sym e)
            ∙ get_or-set_self a i w 0 (omega arith)
            ∙ ap (λ k. add (get_or a k 0) (update k)) e
        | no ne ↦
            loop-within rounds (i + 1) j (set a i w) (omega (arith, length-set a i w)) (omega arith)
              (omega arith)
            ∙ ap (λ k. add k (update j)) (get_or-set_ne a i j w 0 ne)
      ]

  pub length-decode_syndromes : (a : List ℕ) → length (decode_syndromes c input degree a) ≡ length a
  unfolding decode_syndromes
  length-decode_syndromes a = length-syndromes_loop (checks_num c) 0 a

  -- In a code with `T` checks, `rscode_decode_syndromes` of a symbol of a degree below the order
  -- adds to each syndrome of index `k` below `T` the symbol times the power of that degree of
  -- `element (k + 1)`.
  pub decode_syndromes_lem :
      {T : ℕ} (v : IsCode c T) (k : ℕ) (a : List ℕ)
      → T ≤ length a
      → degree < c.galois.order
      → k < T
      → get_or (decode_syndromes c input degree a) k 0
        ≡ add (get_or a k 0) (mul c.galois input (power c.galois (element c.galois (suc k)) degree))
  unfolding decode_syndromes
  decode_syndromes_lem {T} v k a room hd hk =
      loop-within (checks_num c) 0 k a (omega (arith, v.checks)) (omega arith)
        (omega (arith, v.checks))
      ∙ ap (λ e. add (get_or a k 0) (mul c.galois input e))
          (ap (element c.galois) word ∙ element-mul v.field (suc k) degree)
    where
      word : u32 (degree * (k + 1)) ≡ suc k * degree
      word =
          ap u32
            (mul_comm degree (k + 1) ∙ ap (λ m. m * degree) {x = k + 1} {y = suc k} (omega arith))
          ∙ mod-eq_of_lt (
              product-lt (suc k) degree (omega (arith, v.below, v.field.order_small))
                (omega (arith, v.field.order_small)))
