-- ===== src/Tunnel/Distributor/Range.antt =====
-- A distributor that is accepted selects no path outside the array.
use nettle.Prelude.{
  ℕ, zero, suc, ◌+◌, ◌*◌, ◌%◌, ◌≤◌, ◌<◌, ◌≡◌, ◌≢◌, refl, subst, arith, ℤ, pos, negsuc, at_least,
  true, false, Option, none, some, List, get_or,
}
use mathlib.Core.Option.{some-injective, none-ne-some}
use native.Mathlib.Decide.{ℕ_discrete}
use native.Mathlib.Nat.{mod-lt}
use nettle.Tunnel.Distributor.{Distributor, path, row_in_range, rows_in_use, init, select}

row_in_range-read :
    (p : ℕ) (s : List ℤ) (base rounds j k : ℕ)
    → row_in_range p s base rounds j ≡ true
    → j ≤ k
    → k < j + rounds
    → at_least p (get_or s (base + k) (negsuc 0)) ≡ false
unfolding row_in_range
row_in_range-read p s base zero j k e l u = absurd (omega arith)
row_in_range-read p s base (suc rounds) j k e l u = elim (ℕ_discrete j k) [
  | yes same ↦ grind arith
  | no other ↦ row_in_range-read p s base rounds (j + 1) k (grind arith) (omega arith) (omega arith)
]

rows_in_use-read :
    (p : ℕ) (s : List ℤ) (dup_num rounds i a r k : ℕ)
    → rows_in_use p s dup_num rounds i ≡ some a
    → i ≤ r
    → r < a
    → k < dup_num
    → at_least p (get_or s (r * dup_num + k) (negsuc 0)) ≡ false
unfolding rows_in_use
rows_in_use-read p s dup_num zero i a r k e l u h = grind arith
rows_in_use-read p s dup_num (suc rounds) i a r k e l u h = elim (ℕ_discrete i r) [
  | yes same ↦ grind (arith, row_in_range-read)
  | no other ↦ rows_in_use-read p s dup_num rounds (i + 1) a r k (grind arith) (omega arith) u h
]

-- What an accepted distributor holds in its rows in use.
record Accepted (path_num : ℕ) (d : Distributor) : Type 0 where
  same_num : d.path_num ≡ path_num
  in_range :
      (r k : ℕ)
      → r < d.seq_num
      → k < d.dup_num
      → at_least path_num (get_or d.seq2addr (r * d.dup_num + k) (negsuc 0)) ≡ false

accepted :
    (p : ℕ) (s : List ℤ) (seq_num dup_num : ℕ) (o : Option ℕ) (d : Distributor)
    → rows_in_use p s dup_num seq_num 0 ≡ o
    → (elim o [
      | none ↦ none
      | some a ↦ some (record { path_num = p; seq2addr = s; seq_num = a; dup_num = dup_num })
    ])
      ≡ some d
    → Accepted p d
accepted p s seq_num dup_num none d e f = absurd (none-ne-some _ f)
accepted p s seq_num dup_num (some a) d e f = subst (Accepted p) (some-injective _ _ f) (record {
  same_num = refl;
  in_range = λ r k hr hk. rows_in_use-read p s dup_num seq_num 0 a r k e (omega arith) hr hk;
})

init-Accepted :
    (path_num : ℕ) (seq2addr : List ℤ) (seq_num dup_num : ℤ) (d : Distributor)
    → init path_num seq2addr seq_num dup_num ≡ some d
    → Accepted path_num d
unfolding init
init-Accepted path_num seq2addr (negsuc _) dup_num d e = absurd (none-ne-some _ e)
init-Accepted path_num seq2addr (pos _) (negsuc _) d e = absurd (none-ne-some _ e)
init-Accepted path_num seq2addr (pos seq_num) (pos dup_num) d e =
    accepted path_num seq2addr seq_num dup_num _ d refl e

-- When `nt_distributor_init` accepts a matrix with a row in use, `nt_distributor_select` finds for
-- every packet and copy no path, or one of the paths; it does not divide by zero.
pub select-init :
    (path_num : ℕ) (seq2addr : List ℤ) (seq_num dup_num : ℤ) (d : Distributor)
    → init path_num seq2addr seq_num dup_num ≡ some d
    → 0 < d.seq_num
    → (seq dup : ℕ)
    → (select d seq dup ≢ none) × ((n : ℕ) → select d seq dup ≡ some (path n) → n < path_num)
unfolding select
select-init path_num seq2addr seq_num dup_num d e h seq dup =
    let a = init-Accepted path_num seq2addr seq_num dup_num d e in
    let row = mod-lt seq h in
    (grind arith, λ n f. grind (arith, a.in_range (seq % d.seq_num) dup row))
