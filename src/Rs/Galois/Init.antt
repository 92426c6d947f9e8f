-- ===== src/Rs/Galois/Init.antt =====
-- `galois_init` builds the exponent and logarithm tables, whatever the caller's arrays held before.
use nettle.Prelude.{
  ℕ, zero, suc, ◌+◌, ◌-◌, ◌^◌, ◌≤◌, ◌<◌, ◌≡◌, ◌≢◌, sym, ap, ◌∙◌, arith, List, length, get_or, set,
  length-set, get_or-set,
}
use nettle.Rs.Galois.{Galois, u32, next_exp, init_loop, init}
use nettle.Rs.Galois.Power.{times_gen, Primitive, times_gen-lt}

-- The tables of `g` hold the powers of the generator of degree `d` and polynomial `p`, and their
-- exponents.
pub record HasTables (d p : ℕ) (g : Galois) : Type 0 where
  pub order_is : g.order ≡ 2 ^ d
  pub exps_is : (j : ℕ) → j < 2 ^ d - 1 → get_or g.exps j 0 ≡ times_gen d p j 1
  pub logs_is : (j : ℕ) → j < 2 ^ d - 1 → get_or g.logs (times_gen d p j 1) 0 ≡ j

-- The tables as the loop has filled them when it comes to `i`.
record Filled (d p i : ℕ) (exps logs : List ℕ) : Type 0 where
  exps_length : length exps ≡ 2 ^ d
  logs_length : length logs ≡ 2 ^ d
  exps_below : (j : ℕ) → j < i → get_or exps j 0 ≡ times_gen d p j 1
  logs_below : (j : ℕ) → j < i → get_or logs (times_gen d p j 1) 0 ≡ j

module _ {d p : ℕ} (v : Primitive d p) where
  power-lt : (j : ℕ) → times_gen d p j 1 < 2 ^ d
  power-lt j = times_gen-lt v j 1 (omega (arith, v.more_than_two))

  powers_differ : (i j : ℕ) → i < 2 ^ d - 1 → j < i → times_gen d p i 1 ≢ times_gen d p j 1
  powers_differ i j hi hj e =
      let same : i ≡ j = sym (v.log_power i hi) ∙ ap v.log_of e ∙ v.log_power j (omega arith) in
      absurd (omega arith)

  next_power :
      (i : ℕ) (exps logs : List ℕ)
      → Filled d p (suc i) exps logs
      → next_exp d p (get_or exps (suc i - 1) 0) ≡ times_gen d p (suc i) 1
  unfolding times_gen
  next_power i exps logs f =
      ap (λ k. next_exp d p (get_or exps k 0)) {x = suc i - 1} {y = i} (omega arith)
      ∙ ap (next_exp d p) (f.exps_below i (omega arith))

  Filled-step :
      (i : ℕ) (exps logs : List ℕ)
      → suc i < 2 ^ d - 1
      → Filled d p (suc i) exps logs
      → let e = next_exp d p (get_or exps (suc i - 1) 0) in
        Filled d p (suc (suc i)) (set exps (suc i) e) (set logs e (suc i))
  Filled-step i exps logs h f =
      let t = times_gen d p (suc i) 1 in
      rw (next_power i exps logs f) (record {
        exps_length = length-set exps (suc i) t ∙ f.exps_length;
        logs_length = length-set logs t (suc i) ∙ f.logs_length;
        exps_below = λ j l.
            ground
              (arith, get_or-set exps (suc i) j t 0 (omega (arith, f.exps_length)), f.exps_below j);
        logs_below = λ j l. ground (
          arith,
          get_or-set logs t (times_gen d p j 1) (suc i) 0
              (omega (arith, f.logs_length, power-lt (suc i))),
          powers_differ (suc i) j h,
          f.logs_below j,
        );
      })

  loop-HasTables :
      (k i : ℕ) (exps logs : List ℕ)
      → suc i + k ≡ 2 ^ d - 1
      → Filled d p (suc i) exps logs
      → HasTables d p (init_loop k d p (suc i) exps logs)
  unfolding init_loop
  loop-HasTables zero i exps logs h f = record {
    order_is = omega (arith, v.small);
    exps_is = λ j l. f.exps_below j (omega arith);
    logs_is = λ j l. f.logs_below j (omega arith);
  }
  loop-HasTables (suc k) i exps logs h f =
      let e = next_exp d p (get_or exps (suc i - 1) 0) in
      rw (bump i) (
        loop-HasTables k (suc i) (set exps (suc i) e) (set logs e (suc i)) (omega arith)
          (Filled-step i exps logs (omega arith) f))
    where
      bump : (j : ℕ) → suc j + 1 ≡ suc (suc j)
      bump j = omega arith

  start-Filled :
      (exps logs : List ℕ)
      → length exps ≡ 2 ^ d
      → length logs ≡ 2 ^ d
      → (w : ℕ) → Filled d p 1 (set (set exps 0 1) (2 ^ d - 1) w) (set (set logs 0 0) 1 0)
  unfolding times_gen
  start-Filled exps logs he hl w = record {
    exps_length = length-set (set exps 0 1) (2 ^ d - 1) w ∙ length-set exps 0 1 ∙ he;
    logs_length = length-set (set logs 0 0) 1 0 ∙ length-set logs 0 0 ∙ hl;
    exps_below = first_exp;
    logs_below = first_log;
  }
    where
      first_exp :
          (j : ℕ) → j < 1 → get_or (set (set exps 0 1) (2 ^ d - 1) w) j 0 ≡ times_gen d p j 1
      first_exp zero l = ground (
        arith,
        v.more_than_two,
        length-set exps 0 1,
        get_or-set (set exps 0 1) (2 ^ d - 1) 0 w 0,
        get_or-set exps 0 0 1 0,
      )
      first_exp (suc j) l = absurd (omega arith)

      first_log : (j : ℕ) → j < 1 → get_or (set (set logs 0 0) 1 0) (times_gen d p j 1) 0 ≡ j
      first_log zero l =
          ground (arith, v.more_than_two, length-set logs 0 0, get_or-set (set logs 0 0) 1 1 0 0)
      first_log (suc j) l = absurd (omega arith)

  -- `galois_init` over any two arrays of `2 ^ degree` entries fills in the two tables.
  pub init-HasTables :
      (exps logs : List ℕ)
      → length exps ≡ 2 ^ d
      → length logs ≡ 2 ^ d
      → HasTables d p (init d p exps logs)
  unfolding init
  init-HasTables exps logs he hl = rw (word (2 ^ d) v.small) (
      loop-HasTables (2 ^ d - 2) 0 _ _ (omega (arith, v.more_than_two))
        (start-Filled exps logs he hl _))
    where
      word : (x : ℕ) → x ≤ 2 ^ 16 → u32 x ≡ x
      word x h = omega arith
