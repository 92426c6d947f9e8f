-- ===== src/Rs/Galois/Field.antt =====
-- The field laws as an interface: what the code words need of a table of exponents and logarithms.
use nettle.Prelude.{ℕ, ◌+◌, ◌-◌, ◌^◌, ◌≤◌, ◌<◌, ◌≡◌, refl, arith, bit_xor, some}
use nettle.Rs.Galois.{Galois, element, mul, div, inv}

-- Addition is `bit_xor`, whose own laws hold for all words.
pub record IsField (g : Galois) : Type 0 where
  pub order-lt : 1 < g.order
  pub order_small : g.order ≤ 2 ^ 16
  pub add-lt : (a b : ℕ) → a < g.order → b < g.order → bit_xor a b < g.order
  pub mul-lt : (a b : ℕ) → a < g.order → b < g.order → mul g a b < g.order
  pub mul_comm : (a b : ℕ) → a < g.order → b < g.order → mul g a b ≡ mul g b a
  pub mul_assoc :
      (a b c : ℕ)
      → a < g.order
      → b < g.order
      → c < g.order
      → mul g (mul g a b) c ≡ mul g a (mul g b c)
  pub one_mul : (a : ℕ) → a < g.order → mul g 1 a ≡ a
  pub mul_add :
      (a b c : ℕ)
      → a < g.order
      → b < g.order
      → c < g.order
      → mul g a (bit_xor b c) ≡ bit_xor (mul g a b) (mul g a c)
  pub mul-pos : (a b : ℕ) → 0 < a → 0 < b → a < g.order → b < g.order → 0 < mul g a b
  pub div-mul : (a b : ℕ) → a < g.order → 0 < b → b < g.order → div g (mul g a b) b ≡ some a
  pub mul-inv : (a : ℕ) → 0 < a → a < g.order → mul g a (inv g a) ≡ 1
  pub element-lt : (i : ℕ) → element g i < g.order
  pub element-pos : (i : ℕ) → 0 < element g i
  pub element-zero : element g 0 ≡ 1
  pub element-add : (i j : ℕ) → element g (i + j) ≡ mul g (element g i) (element g j)
  pub element_injective :
      (i j : ℕ) → i < g.order - 1 → j < g.order - 1 → element g i ≡ element g j → i ≡ j

pub zero-mul : (g : Galois) (a : ℕ) → mul g 0 a ≡ 0
unfolding mul
zero-mul g a = refl

pub mul-zero : (g : Galois) (a : ℕ) → mul g a 0 ≡ 0
unfolding mul
mul-zero g a = ground arith
