-- ===== src/Rs/Coder/Init.antt =====
-- `rs_init` of src/main/rs/rs.c sets up a code with `N - K` checks over the bytes.
use nettle.Prelude.{ℕ, ◌+◌, ◌-◌, ◌^◌, ◌<◌, ◌≡◌, sym, subst, arith, List, length}
use nettle.Rs.Galois.{init256, u32}
use nettle.Rs.Galois.Init.{init-HasTables}
use nettle.Rs.Galois.Standard.{primitive256}
use nettle.Rs.Galois.Laws.{init256-IsField}
use nettle.Rs.RsCode
use nettle.Rs.RsCode.Generator.{IsCode, init-IsCode}
use nettle.Rs.Coder.{rs_init, t_size}

order-init256 :
    (exps logs : List ℕ) → length exps ≡ 256 → length logs ≡ 256 → (init256 exps logs).order ≡ 256
unfolding init256
order-init256 exps logs he hl = (init-HasTables primitive256 exps logs he hl).order_is

-- After `rs_init` of arrays of the sizes that the struct declares, with at least one redundant packet and at most
-- 254, the coder's field has 256 elements, and its code is a code with as many checks as there are redundant packets:
-- the tables are those of a field, and the generator polynomial is monic, of the field, and is 0 at each of the
-- elements 1 to the number of checks.
pub rs_init-IsCode :
    (n k max_data_size : ℕ) (exps logs gen_poly : List ℕ)
    → length exps ≡ 256
    → length logs ≡ 256
    → length gen_poly ≡ 255
    → k < n
    → n - k < 255
    → let rs = rs_init n k max_data_size exps logs gen_poly in
      IsCode rs.rscode (t_size rs) × (rs.rscode.galois.order ≡ 256)
unfolding rs_init RsCode.init
rs_init-IsCode n k max_data_size exps logs gen_poly he hl hg few many =
    let o = order-init256 exps logs he hl in
    let g = init256 exps logs in
    let word : u32 (255 + 2 ^ 32 - (n - k)) ≡ 255 - (n - k) = omega arith in
    let T : g.order - 1 - (255 - (n - k)) ≡ n - k = omega arith in
    let code : IsCode (RsCode.init (255 - (n - k)) g gen_poly) (n - k) =
      subst (IsCode (RsCode.init (255 - (n - k)) g gen_poly)) T (
        init-IsCode (255 - (n - k)) g gen_poly (init256-IsField exps logs he hl) (omega arith)
          (omega arith)) in
    (subst (λ w. IsCode (RsCode.init w g gen_poly) (n - k)) (sym word) code, o)
