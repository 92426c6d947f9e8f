-- ===== src/Rs/Galois/Poly.antt =====
-- The polynomials of src/main/rs/galois.h and src/main/rs/galois.c: arrays of coefficients, lowest first,
-- written in place.
pub mod Zero
pub mod Shift
pub mod Eval
use nettle.Prelude.{
  ℕ, zero, suc, ◌+◌, ◌-◌, ◌≤◌, ◌<◌, ◌≡◌, refl, sym, ap, ap₂, ◌∙◌, arith, bit_xor, List, get_or, set,
  length, length-set, get_or-set, ◌==◌, if◌then◌else◌,
}
use nettle.Rs.Galois.{Galois, add, mul}

-- `galois_poly_zero`: the loop from `i` on, with `k` rounds left.
unfoldable pub zero_from : ℕ → ℕ → List ℕ → List ℕ
zero_from zero i a = a
zero_from (suc k) i a = zero_from k (i + 1) (set a i 0)

unfoldable pub poly_zero : List ℕ → ℕ → List ℕ
poly_zero a degree = zero_from (degree + 1) 0 a

-- `galois_poly_copy`
unfoldable pub copy_from : ℕ → ℕ → List ℕ → List ℕ → List ℕ
copy_from zero i src dst = dst
copy_from (suc k) i src dst = copy_from k (i + 1) src (set dst i (get_or src i 0))

unfoldable pub poly_copy : List ℕ → List ℕ → ℕ → List ℕ
poly_copy src dst degree = copy_from (degree + 1) 0 src dst

-- The loop of `galois_poly_shift_add_scale`, which counts `i` down to 1.
unfoldable pub shift_loop : Galois → ℕ → ℕ → List ℕ → List ℕ
shift_loop g scale zero dst = dst
shift_loop g scale (suc i) dst =
    shift_loop g scale i
      (set dst (suc i) (add (get_or dst (suc i - 1) 0) (mul g (get_or dst (suc i) 0) scale)))

-- `galois_poly_shift_add_scale`: the new array; the degree that it returns is `degree + 1`.
unfoldable pub shift_add_scale : Galois → List ℕ → ℕ → ℕ → List ℕ
shift_add_scale g dst degree scale =
    let dst' = shift_loop g scale (degree + 1) (set dst (degree + 1) 0) in
    set dst' 0 (mul g (get_or dst' 0 0) scale)

-- The inner and the outer loop of `galois_poly_mul`, with the rounds left.
unfoldable pub mul_row : Galois → List ℕ → List ℕ → ℕ → ℕ → ℕ → List ℕ → List ℕ
mul_row g a b i zero j result = result
mul_row g a b i (suc k) j result =
    mul_row g a b i k (j + 1)
      (set result (i + j) (add (get_or result (i + j) 0) (mul g (get_or a i 0) (get_or b j 0))))

unfoldable pub mul_rows : Galois → List ℕ → List ℕ → ℕ → ℕ → ℕ → List ℕ → List ℕ
mul_rows g a b degree_b zero i result = result
mul_rows g a b degree_b (suc k) i result =
    mul_rows g a b degree_b k (i + 1) (mul_row g a b i (degree_b + 1) 0 result)

-- `galois_poly_mul`: the result array and its degree.
unfoldable pub poly_mul : Galois → List ℕ → ℕ → List ℕ → ℕ → List ℕ → List ℕ × ℕ
poly_mul g a degree_a b degree_b result =
    let degree_res = degree_a + degree_b in
    (mul_rows g a b degree_b (degree_a + 1) 0 (poly_zero result degree_res), degree_res)
