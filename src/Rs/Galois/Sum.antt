-- ===== src/Rs/Galois/Sum.antt =====
-- Sums by `galois_add`, and how products and shifts of the index go through them.
use nettle.Prelude.{ℕ, zero, suc, ◌<◌, ◌≡◌, refl, sym, ap, ap₂, ◌∙◌, arith, bit_xor, ◌≢◌}
use nettle.Prelude.Bits.{
  bit_xor-zero, zero-bit_xor, bit_xor_comm, bit_xor_assoc, bit_xor_interchange,
}
use native.Mathlib.Decide.{ℕ_discrete}
use nettle.Rs.Galois.{Galois, mul}
use nettle.Rs.Galois.Field.{IsField, mul-zero}

-- f 0 + ... + f (n - 1)
unfoldable pub sum : ℕ → (ℕ → ℕ) → ℕ
sum zero f = 0
sum (suc n) f = bit_xor (sum n f) (f n)

pub sum_last : (n : ℕ) (f : ℕ → ℕ) → sum (suc n) f ≡ bit_xor (sum n f) (f n)
unfolding sum
sum_last n f = refl

pub sum-congr : (n : ℕ) (f h : ℕ → ℕ) → ((i : ℕ) → i < n → f i ≡ h i) → sum n f ≡ sum n h
unfolding sum
sum-congr zero f h e = refl
sum-congr (suc n) f h e =
    ap₂ bit_xor (sum-congr n f h (λ i l. e i (omega arith))) (e n (omega arith))

pub sum-bit_xor :
    (n : ℕ) (f h : ℕ → ℕ) → sum n (λ i. bit_xor (f i) (h i)) ≡ bit_xor (sum n f) (sum n h)
unfolding sum
sum-bit_xor zero f h = refl
sum-bit_xor (suc n) f h =
    ap (λ s. bit_xor s (bit_xor (f n) (h n))) (sum-bit_xor n f h)
    ∙ bit_xor_interchange (sum n f) (sum n h) (f n) (h n)

pub sum_zero : (n : ℕ) → sum n (λ i. 0) ≡ 0
unfolding sum
sum_zero zero = refl
sum_zero (suc n) = bit_xor-zero _ ∙ sum_zero n

-- The first term apart.
pub sum_first : (n : ℕ) (f : ℕ → ℕ) → sum (suc n) f ≡ bit_xor (f 0) (sum n (λ i. f (suc i)))
unfolding sum
sum_first zero f = bit_xor_comm 0 (f 0)
sum_first (suc n) f =
    ap (λ s. bit_xor s (f (suc n))) (sum_first n f) ∙ bit_xor_assoc (f 0) (sum n (λ i. f (suc i))) _

-- A double sum in the other order.
pub sum_swap :
    (n m : ℕ) (f : ℕ → ℕ → ℕ) → sum n (λ i. sum m (λ j. f i j)) ≡ sum m (λ j. sum n (λ i. f i j))
unfolding sum
sum_swap zero m f = sym (sum_zero m)
sum_swap (suc n) m f =
    ap (λ s. bit_xor s (sum m (λ j. f n j))) (sum_swap n m f)
    ∙ sym (sum-bit_xor m (λ j. sum n (λ i. f i j)) (λ j. f n j))

-- Only the term at `k` counts.
pub sum_single : (n k : ℕ) (f : ℕ → ℕ) → k < n → ((i : ℕ) → i < n → i ≢ k → f i ≡ 0) → sum n f ≡ f k
unfolding sum
sum_single zero k f h z = absurd (omega arith)
sum_single (suc n) k f h z = elim (ℕ_discrete k n) [
  | yes e ↦
      ap₂ bit_xor (sum-congr n f (λ i. 0) (λ i l. z i (omega arith) (omega arith)) ∙ sum_zero n)
        (ap f (sym e))
      ∙ zero-bit_xor (f k)
  | no ne ↦
      ap₂ bit_xor (sum_single n k f (omega arith) (λ i l d. z i (omega arith) d))
        (z n (omega arith) (λ e. ne (sym e)))
      ∙ bit_xor-zero (f k)
]

module _ {g : Galois} (F : IsField g) where
  pub sum-lt : (n : ℕ) (f : ℕ → ℕ) → ((i : ℕ) → i < n → f i < g.order) → sum n f < g.order
  unfolding sum
  sum-lt zero f h = omega (arith, F.order-lt)
  sum-lt (suc n) f h = F.add-lt _ _ (sum-lt n f (λ i l. h i (omega arith))) (h n (omega arith))

  pub mul-sum :
      (c n : ℕ) (f : ℕ → ℕ)
      → c < g.order
      → ((i : ℕ) → i < n → f i < g.order)
      → mul g c (sum n f) ≡ sum n (λ i. mul g c (f i))
  unfolding sum
  mul-sum c zero f hc h = mul-zero g c
  mul-sum c (suc n) f hc h =
      F.mul_add c _ _ hc (sum-lt n f (λ i l. h i (omega arith))) (h n (omega arith))
      ∙ ap (λ s. bit_xor s (mul g c (f n))) (mul-sum c n f hc (λ i l. h i (omega arith)))
