-- ===== src/Rs/Galois.antt =====
-- A binary Galois field by exponent and logarithm tables, of src/main/rs/galois.h and src/main/rs/galois.c.
-- A `uint32_t` is a number below `2 ^ 32`; the tables and polynomials are arrays of them.
pub mod Power
pub mod Standard
pub mod Init
pub mod Field
pub mod Logs
pub mod Laws
pub mod Sum
pub mod Poly
use nettle.Prelude.{
  ℕ, zero, suc, ◌+◌, ◌-◌, ◌*◌, ◌/◌, ◌%◌, ◌^◌, bit_and, bit_xor, ◌||◌, Option, none, some, List,
  get_or, set, ◌==◌, if◌then◌else◌, ltb, Bool,
}

-- `galois_t`
pub record Galois : Type 0 where
  pub degree : ℕ
  pub order : ℕ
  pub gen_poly : ℕ
  pub exps : List ℕ
  pub logs : List ℕ

abbrev pub u32 : ℕ → ℕ
u32 x = x % 2 ^ 32

-- The body of the loop: the exponent that follows `e`. `0 - h` wraps in `uint32_t`.
unfoldable pub next_exp : ℕ → ℕ → ℕ → ℕ
next_exp degree gen_poly e =
    let h = e / 2 ^ (degree - 1) in
    let s = u32 (e * 2) in bit_xor s (bit_and gen_poly (u32 (2 ^ 32 - h)))

-- The loop from `i` on, with `k` rounds left.
pub init_loop : ℕ → ℕ → ℕ → ℕ → List ℕ → List ℕ → Galois
init_loop zero degree gen_poly i exps logs = record {
  degree = degree;
  order = u32 (2 ^ degree);
  gen_poly = gen_poly;
  exps = exps;
  logs = logs;
}
init_loop (suc k) degree gen_poly i exps logs =
    let e = next_exp degree gen_poly (get_or exps (i - 1) 0) in
    init_loop k degree gen_poly (i + 1) (set exps i e) (set logs e i)

-- `galois_init`, over the caller's arrays `exps` and `logs`, whatever they hold.
unfoldable pub init : ℕ → ℕ → List ℕ → List ℕ → Galois
unfolding init_loop next_exp
init degree gen_poly exps logs =
    let order = u32 (2 ^ degree) in
    let exps' = set exps 0 1 in
    let exps'' = set exps' (order - 1) (get_or exps' 0 0) in
    let logs' = set (set logs 0 0) 1 0 in init_loop (order - 2) degree gen_poly 1 exps'' logs'

-- `galois16_init`
unfoldable pub init16 : List ℕ → List ℕ → Galois
init16 exps logs = init 4 0b10011 exps logs

-- `galois256_init`
unfoldable pub init256 : List ℕ → List ℕ → Galois
init256 exps logs = init 8 0b100011101 exps logs

-- `galois_element`
unfoldable pub element : Galois → ℕ → ℕ
element g i = get_or g.exps (i % (g.order - 1)) 0

-- `galois_index`
unfoldable pub index : Galois → ℕ → ℕ
index g i = get_or g.logs i 0

-- `galois_add`
abbrev pub add : ℕ → ℕ → ℕ
add a b = bit_xor a b

-- `galois_mul`
unfoldable pub mul : Galois → ℕ → ℕ → ℕ
mul g a b = if a == 0 || b == 0 then 0 else element g (u32 (get_or g.logs a 0 + get_or g.logs b 0))

-- `galois_div`; `none` is the division by zero that `a/b` is at `b == 0`.
unfoldable pub div : Galois → ℕ → ℕ → Option ℕ
div g a b =
    if a == 0 || b == 0
    then if b == 0 then none else some (a / b)
    else some (element g (u32 (u32 (g.order - 1 + get_or g.logs a 0) + 2 ^ 32 - get_or g.logs b 0)))

-- `galois_inv`
unfoldable pub inv : Galois → ℕ → ℕ
inv g a = element g (u32 (g.order - 1 + 2 ^ 32 - get_or g.logs a 0))

-- `galois_in`
unfoldable pub is_in : Galois → ℕ → Bool
is_in g a = ltb a g.order
