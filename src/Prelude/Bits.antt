-- ===== src/Prelude/Bits.antt =====
-- Laws of `^` on words of every width, from the digit recursion that the native operation means.
use Prim.Native.Nat.{
  ℕ, zero, suc, ◌+◌, ◌-◌, ◌*◌, ◌/◌, ◌%◌, ◌^◌, ◌≤◌, ◌<◌, bit_xor, digits, bit_xor-bitwise, differ,
}
use mathlib.Core.Path.{◌≡◌, refl, sym, ap, ap₂, ◌∙◌}
use native.Mathlib.Omega.{arith}
use native.Mathlib.Nat.{pow-suc, div-one, div-div-eq-div-mul}

-- The digits that differ, on `n` rounds: as many as the first word suffice, and more change nothing.
abbrev xor_digits : ℕ → ℕ → ℕ → ℕ
xor_digits = digits (λ y. y) differ

no_digits : (n b : ℕ) → xor_digits n 0 b ≡ b
no_digits zero b = refl
no_digits (suc n) b = refl

spare_round : (n a b : ℕ) → a ≤ n → xor_digits (suc n) a b ≡ xor_digits n a b
spare_round n zero b h = sym (no_digits n b)
spare_round (suc n) (suc a) b h =
    ap (λ d. d * 2 + differ (suc a % 2) (b % 2)) (spare_round n (suc a / 2) (b / 2) (omega arith))
spare_round zero (suc a) b h = absurd (omega arith)

enough_rounds : (k a b : ℕ) → xor_digits (k + a) a b ≡ bit_xor a b
enough_rounds zero a b =
    ap (λ n. xor_digits n a b) {x = 0 + a} {y = a} (omega arith) ∙ sym (bit_xor-bitwise a b)
enough_rounds (suc k) a b =
    ap (λ n. xor_digits n a b) {x = suc k + a} {y = suc (k + a)} (omega arith)
    ∙ spare_round (k + a) a b (omega arith)
    ∙ enough_rounds k a b

differ_lem : (x y : ℕ) → x < 2 → y < 2 → differ x y ≡ (x + y) % 2
differ_lem zero zero p q = refl
differ_lem zero (suc zero) p q = refl
differ_lem (suc zero) zero p q = refl
differ_lem (suc zero) (suc zero) p q = refl
differ_lem x y p q = absurd (omega arith)

pub bit_xor_step : (a b : ℕ) → bit_xor a b ≡ bit_xor (a / 2) (b / 2) * 2 + (a % 2 + b % 2) % 2
bit_xor_step zero b = simp bit_xor-bitwise (omega arith)
bit_xor_step (suc a) b =
    let half = suc a / 2 in
    let spare : a - half + half ≡ a = omega arith in
    bit_xor-bitwise (suc a) b
    ∙ ap₂ (λ d e. d * 2 + e)
        (ap (λ n. xor_digits n half (b / 2)) (sym spare) ∙ enough_rounds (a - half) half (b / 2))
        (differ_lem (suc a % 2) (b % 2) (omega arith) (omega arith))

pub zero-bit_xor : (b : ℕ) → bit_xor 0 b ≡ b
zero-bit_xor b = bit_xor-bitwise 0 b

comm_fuel : (n a b : ℕ) → a + b ≤ n → bit_xor a b ≡ bit_xor b a
comm_fuel zero zero zero h = refl
comm_fuel zero zero (suc b) h = absurd (omega arith)
comm_fuel zero (suc a) b h = absurd (omega arith)
comm_fuel (suc n) zero zero h = refl
comm_fuel (suc n) a b h =
    omega (arith, bit_xor_step a b, bit_xor_step b a, comm_fuel n (a / 2) (b / 2) (omega arith))

pub bit_xor_comm : (a b : ℕ) → bit_xor a b ≡ bit_xor b a
bit_xor_comm a b = comm_fuel (a + b) a b (omega arith)

pub bit_xor-half : (a b : ℕ) → bit_xor a b / 2 ≡ bit_xor (a / 2) (b / 2)
bit_xor-half a b = omega (arith, bit_xor_step a b)

xor_left_step :
    (a b c : ℕ)
    → bit_xor (bit_xor a b) c
      ≡ bit_xor (bit_xor (a / 2) (b / 2)) (c / 2) * 2 + (a % 2 + b % 2 + c % 2) % 2
xor_left_step a b c =
    rw (← bit_xor-half a b) (omega (arith, bit_xor_step (bit_xor a b) c, bit_xor_step a b))

assoc_fuel : (n a b c : ℕ) → a + b + c ≤ n → bit_xor (bit_xor a b) c ≡ bit_xor (bit_xor b c) a
assoc_fuel zero zero zero zero h = refl
assoc_fuel zero zero zero (suc c) h = absurd (omega arith)
assoc_fuel zero zero (suc b) c h = absurd (omega arith)
assoc_fuel zero (suc a) b c h = absurd (omega arith)
assoc_fuel (suc n) zero zero zero h = refl
assoc_fuel (suc n) a b c h = omega (
  arith,
  xor_left_step a b c,
  xor_left_step b c a,
  assoc_fuel n (a / 2) (b / 2) (c / 2) (omega arith),
)

pub bit_xor_assoc : (a b c : ℕ) → bit_xor (bit_xor a b) c ≡ bit_xor a (bit_xor b c)
bit_xor_assoc a b c = assoc_fuel (a + b + c) a b c (omega arith) ∙ bit_xor_comm (bit_xor b c) a

self_fuel : (n a : ℕ) → a ≤ n → bit_xor a a ≡ 0
self_fuel zero zero h = refl
self_fuel zero (suc a) h = absurd (omega arith)
self_fuel (suc n) zero h = refl
self_fuel (suc n) (suc a) h =
    omega (arith, bit_xor_step (suc a) (suc a), self_fuel n (suc a / 2) (omega arith))

pub bit_xor_self : (a : ℕ) → bit_xor a a ≡ 0
bit_xor_self a = self_fuel a a (omega arith)

pub bit_xor-zero : (a : ℕ) → bit_xor a 0 ≡ a
bit_xor-zero a = bit_xor_comm a 0 ∙ zero-bit_xor a

-- Two words of `k` bits give a word of `k` bits.
pub bit_xor-lt : (k a b : ℕ) → a < 2 ^ k → b < 2 ^ k → bit_xor a b < 2 ^ k
bit_xor-lt zero zero zero p q = omega arith
bit_xor-lt zero zero (suc b) p q = absurd (omega arith)
bit_xor-lt zero (suc a) b p q = absurd (omega arith)
bit_xor-lt (suc k) a b p q =
    omega (arith, bit_xor_step a b, pow-suc 2 k, bit_xor-lt k (a / 2) (b / 2) half_a half_b)
  where
    half_a : a / 2 < 2 ^ k
    half_a = omega (arith, pow-suc 2 k)

    half_b : b / 2 < 2 ^ k
    half_b = omega (arith, pow-suc 2 k)

pub bit_xor-shift : (k a b : ℕ) → bit_xor a b / 2 ^ k ≡ bit_xor (a / 2 ^ k) (b / 2 ^ k)
bit_xor-shift zero a b = simp div-one
bit_xor-shift (suc k) a b = simp (pow-suc, ← div-div-eq-div-mul, bit_xor-half, bit_xor-shift k a b)

pub double-bit_xor : (a b : ℕ) → 2 * bit_xor a b ≡ bit_xor (2 * a) (2 * b)
double-bit_xor a b = rw (bit_xor_step (2 * a) (2 * b), half a, half b) (omega arith)
  where
    half : (c : ℕ) → 2 * c / 2 ≡ c
    half c = omega arith

-- The middle terms change places.
pub bit_xor_interchange :
    (a b c d : ℕ) → bit_xor (bit_xor a b) (bit_xor c d) ≡ bit_xor (bit_xor a c) (bit_xor b d)
bit_xor_interchange a b c d = cc (
  bit_xor_assoc a b (bit_xor c d),
  bit_xor_assoc b c d,
  bit_xor_comm b c,
  bit_xor_assoc c b d,
  bit_xor_assoc a c (bit_xor b d),
)

pub bit_xor_left_comm : (a b c : ℕ) → bit_xor a (bit_xor b c) ≡ bit_xor b (bit_xor a c)
bit_xor_left_comm a b c = cc (bit_xor_assoc a b c, bit_xor_comm a b, bit_xor_assoc b a c)

pub bit_xor_cancel : (a b : ℕ) → bit_xor (bit_xor a b) b ≡ a
bit_xor_cancel a b = bit_xor_assoc a b b ∙ ap (bit_xor a) (bit_xor_self b) ∙ bit_xor-zero a

pub eq_of_bit_xor-zero : (a b : ℕ) → bit_xor a b ≡ 0 → a ≡ b
eq_of_bit_xor-zero a b e = sym (bit_xor_cancel a b) ∙ ap (λ k. bit_xor k b) e ∙ zero-bit_xor b
