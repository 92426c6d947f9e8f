-- ===== src/Rs/Galois/Poly/Zero.antt =====
-- `galois_poly_zero`, entry by entry.
use nettle.Prelude.{
  ℕ, zero, suc, ◌+◌, ◌≤◌, ◌<◌, ◌≡◌, refl, sym, ap, ◌∙◌, arith, List, get_or, set, length,
  length-set, get_or-set_self, get_or-set_ne,
}
use native.Mathlib.Decide.{ℕ_discrete}
use nettle.Rs.Galois.Poly.{zero_from}

-- `poly_zero` clears the entries up to the degree.
pub length-zero_from : (k i : ℕ) (a : List ℕ) → length (zero_from k i a) ≡ length a
unfolding zero_from
length-zero_from zero i a = refl
length-zero_from (suc k) i a = length-zero_from k (i + 1) (set a i 0) ∙ length-set a i 0

pub zero_from-below : (k i j : ℕ) (a : List ℕ) → j < i → get_or (zero_from k i a) j 0 ≡ get_or a j 0
unfolding zero_from
zero_from-below zero i j a h = refl
zero_from-below (suc k) i j a h =
    zero_from-below k (i + 1) j (set a i 0) (omega arith) ∙ get_or-set_ne a i j 0 0 (omega arith)

pub zero_from-within :
    (k i j : ℕ) (a : List ℕ)
    → i + k ≤ length a
    → i ≤ j
    → j < i + k
    → get_or (zero_from k i a) j 0 ≡ 0
unfolding zero_from
zero_from-within zero i j a room l h = absurd (omega arith)
zero_from-within (suc k) i j a room l h = elim (ℕ_discrete i j) [
  | yes e ↦
      zero_from-below k (i + 1) j (set a i 0) (omega arith)
      ∙ ap (λ m. get_or (set a i 0) m 0) (sym e)
      ∙ get_or-set_self a i 0 0 (omega arith)
  | no ne ↦
      zero_from-within k (i + 1) j (set a i 0) (omega (arith, length-set a i 0)) (omega arith)
        (omega arith)
]
