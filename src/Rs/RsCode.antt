-- ===== src/Rs/RsCode.antt =====
-- The Reed-Solomon code words of src/main/rs/rscode.h and src/main/rs/rscode.c: the generator polynomial,
-- the systematic encoder, the syndromes and the erasure decoder, one symbol at a time.
-- A code has at least one check (`k < n`), as the struct's comment asks.
pub mod Erasure
pub mod Recover
pub mod Generator
pub mod Encode
pub mod Syndromes
pub mod Symbols
pub mod Codeword
pub mod Degrees
pub mod RoundTrip
use nettle.Prelude.{
  ℕ, zero, suc, ◌+◌, ◌-◌, ◌*◌, ◌^◌, Bool, true, false, Option, List, [], ◌∷◌, ◌++◌, get_or, set,
  replicate, ◌==◌, if◌then◌else◌, none, some,
}
use nettle.Rs.Galois.{Galois, u32, add, mul, div, element}
use nettle.Rs.Galois.Poly.{poly_zero, shift_add_scale}

-- `rscode_t`
pub record RsCode : Type 0 where
  pub n : ℕ
  pub k : ℕ
  pub galois : Galois
  pub gen_poly : List ℕ

-- The loop of `rscode_init` from `i` on, with the rounds left.
unfoldable pub gen_loop : Galois → ℕ → ℕ → List ℕ → List ℕ
gen_loop g zero i poly = poly
gen_loop g (suc rounds) i poly =
    gen_loop g rounds (i + 1) (shift_add_scale g poly (i - 1) (element g i))

-- `rscode_init`, over the caller's array `gen_poly`.
unfoldable pub init : ℕ → Galois → List ℕ → RsCode
init k g gen_poly =
    let n = g.order - 1 in
    let T = u32 (n + 2 ^ 32 - k) in
    let poly = set (poly_zero gen_poly T) 0 (element g 0) in
    record { n = n; k = k; galois = g; gen_poly = gen_loop g T 1 poly }

-- `rscode_checks_num`
abbrev pub checks_num : RsCode → ℕ
checks_num c = u32 (c.n + 2 ^ 32 - c.k)

unfoldable pub prepare_loop : ℕ → ℕ → List ℕ → List ℕ
prepare_loop zero i buffer = buffer
prepare_loop (suc rounds) i buffer = prepare_loop rounds (i + 1) (set buffer i 0)

-- `rscode_prepare`
unfoldable pub prepare : RsCode → List ℕ → List ℕ
prepare c buffer = prepare_loop (checks_num c) 0 buffer

-- The loop of `rscode_encode`, for `T` checks.
unfoldable pub encode_loop : RsCode → ℕ → ℕ → ℕ → ℕ → List ℕ → List ℕ
encode_loop c T factor zero i checks = checks
encode_loop c T factor (suc rounds) i checks = encode_loop c T factor rounds (i + 1) (
    set checks i
      (add (get_or checks (i + 1) 0) (mul c.galois (get_or c.gen_poly (T - 1 - i) 0) factor)))

-- `rscode_encode` of a code with a check, as every use of it here has: without one, the source's `T-1` wraps around
-- and the loop leaves the arrays.
unfoldable pub encode : RsCode → ℕ → List ℕ → List ℕ
encode c input checks =
    let T = checks_num c in
    let factor = add input (get_or checks 0 0) in
    set (encode_loop c T factor (T - 1) 0 checks) (T - 1)
      (mul c.galois (get_or c.gen_poly 0 0) factor)

-- The loop of `rscode_decode_syndromes`.
unfoldable pub syndromes_loop : RsCode → ℕ → ℕ → ℕ → ℕ → List ℕ → List ℕ
syndromes_loop c input degree zero i syndromes = syndromes
syndromes_loop c input degree (suc rounds) i syndromes =
    syndromes_loop c input degree rounds (i + 1) (
      set syndromes i (
        add (get_or syndromes i 0)
          (mul c.galois input (element c.galois (u32 (degree * (i + 1)))))))

-- `rscode_decode_syndromes`
unfoldable pub decode_syndromes : RsCode → ℕ → ℕ → List ℕ → List ℕ
decode_syndromes c input degree syndromes = syndromes_loop c input degree (checks_num c) 0 syndromes

unfoldable pub all_zero : ℕ → ℕ → List ℕ → Bool
all_zero zero i syndromes = true
all_zero (suc rounds) i syndromes =
    if get_or syndromes i 0 == 0 then all_zero rounds (i + 1) syndromes else false

-- `rscode_check_syndromes`
unfoldable pub check_syndromes : RsCode → List ℕ → Bool
check_syndromes c syndromes = all_zero (checks_num c) 0 syndromes

-- The macro `z(i)`
abbrev pub z : Galois → List ℕ → ℕ → ℕ
z g erasure_degrees i = element g (get_or erasure_degrees i 0)

-- The loop of `rscode_decode_erasure` that builds `sigma` and `prod`.
unfoldable pub sigma_loop : Galois → List ℕ → ℕ → ℕ → ℕ → ℕ → List ℕ → ℕ → List ℕ × ℕ
sigma_loop g degrees index zero j d sigma prod = (sigma, prod)
sigma_loop g degrees index (suc rounds) j d sigma prod =
    let skipped = sigma_loop g degrees index rounds (j + 1) d sigma prod in
    let multiplied =
      sigma_loop g degrees index rounds (j + 1) (d + 1) (shift_add_scale g sigma d (z g degrees j))
        (mul g prod (add (z g degrees index) (z g degrees j))) in
    if index == j then skipped else multiplied

-- The loop that solves for the erasure value.
unfoldable pub solve_loop : Galois → List ℕ → List ℕ → ℕ → ℕ → ℕ → ℕ → ℕ
solve_loop g syndromes sigma num zero j total = total
solve_loop g syndromes sigma num (suc rounds) j total =
    solve_loop g syndromes sigma num rounds (j + 1)
      (add total (mul g (get_or syndromes (num - 1 - j) 0) (get_or sigma (num - 1 - j) 0)))

-- `rscode_decode_erasure`; `none` is a division by zero.
unfoldable pub decode_erasure : RsCode → List ℕ → List ℕ → ℕ → ℕ → Option ℕ
decode_erasure c syndromes degrees num index =
    let g = c.galois in
    let sigma = element g 0 ∷ replicate (num - 1) 0 in
    let (sigma', prod) = sigma_loop g degrees index num 0 0 sigma (z g degrees index) in
    div g (solve_loop g syndromes sigma' num num 0 0) prod

unfoldable pub erasures_loop : RsCode → List ℕ → List ℕ → ℕ → ℕ → ℕ → List ℕ → Option (List ℕ)
erasures_loop c syndromes degrees num zero i values = some values
erasures_loop c syndromes degrees num (suc rounds) i values =
    elim (decode_erasure c syndromes degrees num i) [
      | none ↦ none
      | some v ↦ erasures_loop c syndromes degrees num rounds (i + 1) (set values i v)
    ]

-- `rscode_decode_erasures`
unfoldable pub decode_erasures : RsCode → List ℕ → List ℕ → ℕ → List ℕ → Option (List ℕ)
decode_erasures c syndromes degrees num values = erasures_loop c syndromes degrees num num 0 values
