-- ===== src/Rs/Galois/Poly/Eval.antt =====
-- The value of a polynomial at a point, and the value that `galois_poly_shift_add_scale` gives:
-- it multiplies by `X + scale`.
use nettle.Prelude.{
  ℕ, zero, suc, ◌+◌, ◌<◌, ◌≡◌, sym, ap, ap₂, ◌∙◌, arith, bit_xor, List, get_or, set, length,
  get_or-set_self, get_or-set_ne,
}
use nettle.Prelude.Bits.{bit_xor-zero, bit_xor_left_comm}
use nettle.Rs.Galois.{Galois, add, mul}
use nettle.Rs.Galois.Field.{IsField, mul-zero, zero-mul}
use nettle.Rs.Galois.Sum.{sum, sum_last, sum-congr, sum-bit_xor, sum_first, sum-lt, mul-sum}
use nettle.Rs.Galois.Poly.{shift_add_scale}
use nettle.Rs.Galois.Poly.Shift.{shift_add_scale-zero, shift_add_scale-suc}
use native.Mathlib.Decide.{ℕ_discrete}

module _ (g : Galois) where
  unfoldable pub power : ℕ → ℕ → ℕ
  power x zero = 1
  power x (suc k) = mul g (power x k) x

  abbrev pub term : (ℕ → ℕ) → ℕ → ℕ → ℕ
  term c x j = mul g (c j) (power x j)

  -- The value at `x` of the polynomial of the `n` coefficients `c`.
  abbrev pub eval : (ℕ → ℕ) → ℕ → ℕ → ℕ
  eval c n x = sum n (term c x)

  abbrev pub coefficients : List ℕ → ℕ → ℕ
  coefficients a j = get_or a j 0

  -- The `n` first coefficients are elements of the field.
  abbrev pub AllIn : (ℕ → ℕ) → ℕ → Type 0
  AllIn c n = (j : ℕ) → j < n → c j < g.order

module _ {g : Galois} (F : IsField g) where
  pub add_mul :
      (a b c : ℕ)
      → a < g.order
      → b < g.order
      → c < g.order
      → mul g (bit_xor a b) c ≡ bit_xor (mul g a c) (mul g b c)
  add_mul a b c ha hb hc =
      F.mul_comm _ c (F.add-lt a b ha hb) hc
      ∙ F.mul_add c a b hc ha hb
      ∙ ap₂ bit_xor (F.mul_comm c a hc ha) (F.mul_comm c b hc hb)

  pub mul_left_comm :
      (a b c : ℕ)
      → a < g.order
      → b < g.order
      → c < g.order
      → mul g a (mul g b c) ≡ mul g b (mul g a c)
  mul_left_comm a b c ha hb hc =
      sym (F.mul_assoc a b c ha hb hc)
      ∙ ap (λ k. mul g k c) (F.mul_comm a b ha hb)
      ∙ F.mul_assoc b a c hb ha hc

  pub mul_one : (a : ℕ) → a < g.order → mul g a 1 ≡ a
  mul_one a ha = F.mul_comm a 1 ha F.order-lt ∙ F.one_mul a ha

  pub power-lt : (x k : ℕ) → x < g.order → power g x k < g.order
  unfolding power
  power-lt x zero h = F.order-lt
  power-lt x (suc k) h = F.mul-lt _ x (power-lt x k h) h

  pub term-lt : (c : ℕ → ℕ) (x j : ℕ) → c j < g.order → x < g.order → term g c x j < g.order
  term-lt c x j hc hx = F.mul-lt _ _ hc (power-lt x j hx)

  -- One coefficient `u + w * s` against a power of `x`, as two terms.
  pub mixed_term :
      (u w s x k : ℕ)
      → u < g.order
      → w < g.order
      → s < g.order
      → x < g.order
      → mul g (add u (mul g w s)) (power g x (suc k))
        ≡ bit_xor (mul g x (mul g u (power g x k))) (mul g s (mul g w (power g x (suc k))))
  unfolding power
  mixed_term u w s x k hu hw hs hx =
      let hp = power-lt x (suc k) hx in
      add_mul u _ _ hu (F.mul-lt w s hw hs) hp
      ∙ ap₂ bit_xor
          (ap (mul g u) (F.mul_comm _ x (power-lt x k hx) hx)
            ∙ mul_left_comm u x _ hu hx (power-lt x k hx))
          (ap (λ m. mul g m (power g x (suc k))) (F.mul_comm w s hw hs)
            ∙ F.mul_assoc s w _ hs hw hp)

  module _ (c r : ℕ → ℕ) (n s x : ℕ) (hc : AllIn g c (suc (suc n))) (hs : s < g.order)
      (hx : x < g.order) where
    product_term :
        (j : ℕ)
        → j < n + 1
        → r (suc j) ≡ add (c j) (mul g (c (suc j)) s)
        → term g r x (suc j) ≡ bit_xor (mul g x (term g c x j)) (mul g s (term g c x (suc j)))
    product_term j l e =
        ap (λ k. mul g k (power g x (suc j))) e
        ∙ mixed_term (c j) (c (suc j)) s x j (hc j (omega arith)) (hc (suc j) (omega arith)) hs hx

    -- Multiplying the coefficients by `X + s` multiplies the value by `x + s`.
    eval_times :
        r 0 ≡ mul g (c 0) s
        → ((j : ℕ) → j < n + 1 → r (suc j) ≡ add (c j) (mul g (c (suc j)) s))
        → c (suc n) ≡ 0
        → eval g r (suc (suc n)) x ≡ mul g (add x s) (eval g c (suc n) x)
    unfolding power
    eval_times e0 es ez =
        let t = term g c x in
        let ht = λ (j : ℕ) (l : j < suc n). term-lt c x j (hc j (omega arith)) hx in
        sum_first (suc n) (term g r x)
        ∙ ap₂ bit_xor first (
            sum-congr (suc n) _ _ (λ j l. product_term j (omega arith) (es j (omega arith)))
            ∙ sum-bit_xor (suc n) _ _)
        ∙ bit_xor_left_comm (mul g s (t 0)) _ _
        ∙ ap₂ bit_xor (sym (mul-sum F x (suc n) t hx ht)) (
            sym (sum_first (suc n) (λ j. mul g s (t j)))
            ∙ sum_last (suc n) (λ j. mul g s (t j))
            ∙ ap₂ bit_xor (sym (mul-sum F s (suc n) t hs ht)) past
            ∙ bit_xor-zero _)
        ∙ sym (add_mul x s (sum (suc n) t) hx hs (sum-lt F (suc n) t ht))
      where
        past : mul g s (term g c x (suc n)) ≡ 0
        past =
            ap (λ k. mul g s (mul g k (power g x (suc n)))) ez
            ∙ ap (mul g s) (zero-mul g (power g x (suc n)))
            ∙ mul-zero g s

        first : term g r x 0 ≡ mul g s (term g c x 0)
        first =
            ap (λ k. mul g k 1) (e0 ∙ F.mul_comm _ s (hc 0 (omega arith)) hs)
            ∙ F.mul_assoc s (c 0) 1 hs (hc 0 (omega arith)) F.order-lt

  module _ (a : List ℕ) (n s : ℕ) (room : suc n < length a)
      (ha : AllIn g (coefficients g a) (suc n)) (hs : s < g.order) where
    -- The coefficients that the loop reads: the old ones, and 0 above the degree.
    abbrev cleared : ℕ → ℕ
    cleared j = get_or (set a (n + 1) 0) j 0

    cleared-AllIn : AllIn g cleared (suc (suc n))
    cleared-AllIn j l = elim (ℕ_discrete (n + 1) j) [
      | yes e ↦ rw (← e, get_or-set_self a (n + 1) 0 0 (omega arith)) (omega (arith, F.order-lt))
      | no ne ↦ rw (get_or-set_ne a (n + 1) j 0 0 ne) (ha j (omega arith))
    ]

    -- The new coefficients are elements of the field.
    pub shift_add_scale-AllIn : AllIn g (coefficients g (shift_add_scale g a n s)) (suc (suc n))
    shift_add_scale-AllIn zero l =
        rw (shift_add_scale-zero g s a n room) (F.mul-lt _ s (ha 0 (omega arith)) hs)
    shift_add_scale-AllIn (suc j) l =
        rw (shift_add_scale-suc g s a n room j (omega arith))
          (F.add-lt _ _ (ha j (omega arith)) (F.mul-lt _ s (cleared-AllIn (suc j) l) hs))

    -- Over a field, `galois_poly_shift_add_scale` of a polynomial with its coefficients in the
    -- field, in an array with room for one more, gives the polynomial whose value at each `x` of the
    -- field is `x + s` times the old value.
    pub shift_add_scale-eval :
        (x : ℕ)
        → x < g.order
        → eval g (coefficients g (shift_add_scale g a n s)) (suc (suc n)) x
          ≡ mul g (add x s) (eval g (coefficients g a) (suc n) x)
    shift_add_scale-eval x hx =
        eval_times cleared _ n s x cleared-AllIn hs hx
          (shift_add_scale-zero g s a n room
            ∙ ap (λ k. mul g k s) (sym (get_or-set_ne a (n + 1) 0 0 0 (omega arith))))
          (λ j l.
            shift_add_scale-suc g s a n room j l
            ∙ ap (λ k. add k (mul g (cleared (suc j)) s))
                (sym (get_or-set_ne a (n + 1) j 0 0 (omega arith))))
          (ap cleared {x = suc n} {y = n + 1} (omega arith)
            ∙ get_or-set_self a (n + 1) 0 0 (omega arith))
        ∙ ap (mul g (add x s)) (
            sum-congr (suc n) _ _ (λ j l.
              ap (λ k. mul g k (power g x j)) (get_or-set_ne a (n + 1) j 0 0 (omega arith))))
