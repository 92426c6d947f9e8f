-- ===== src/Rs/RsCode/Degrees.antt =====
-- The degrees of the symbols of a code word: those below its length, once each.
use nettle.Prelude.{
  ℕ, zero, suc, ◌+◌, ◌<◌, ◌≡◌, ◌≢◌, refl, sym, ap, subst, ◌∙◌, arith, List, [], ◌∷◌, ◌++◌, map,
  get_or, length,
}
use mathlib.Core.List.{Mem, Nodup, Nodup-nil, Nodup-cons, mem-cons, not-mem-nil}
use mathlib.Core.Logic.Or
use native.Mathlib.Bridge.{le_prop}
use nettle.Rs.RsCode.{RsCode}
use nettle.Rs.RsCode.Symbols.{Symbol}
use nettle.Rs.RsCode.Codeword.{codeword, data_symbols, check_symbols}

-- The numbers below `n`, highest first.
unfoldable pub down : ℕ → List ℕ
down zero = []
down (suc n) = n ∷ down n

pub lt_of_mem-down : (n a : ℕ) → Mem a (down n) → a < n
unfolding down
lt_of_mem-down zero a m = absurd (not-mem-nil m)
lt_of_mem-down (suc n) a m =
    Or.elim le_prop (mem-cons.0 m) (λ e. omega (arith, e))
      (λ r. omega (arith, lt_of_mem-down n a r))

pub down-Nodup : (n : ℕ) → Nodup (down n)
unfolding down
down-Nodup zero = Nodup-nil
down-Nodup (suc n) =
    Nodup-cons.1 ((λ m. absurd (omega (arith, lt_of_mem-down n n m))), down-Nodup n)

unfoldable pub degrees : List Symbol → List ℕ
degrees = map (λ s. s.degree)

degrees-check_symbols : (T m : ℕ) (checks : List ℕ) → degrees (check_symbols T checks m) ≡ down m
unfolding degrees check_symbols down
degrees-check_symbols T zero checks = refl
degrees-check_symbols T (suc m) checks = ap (◌∷◌ m) (degrees-check_symbols T m checks)

degrees-data_symbols :
    (T : ℕ) (ms : List ℕ) (ys : List Symbol)
    → degrees ys ≡ down T
    → degrees (data_symbols T ms ++ ys) ≡ down (T + length ms)
unfolding degrees data_symbols down
degrees-data_symbols T [] ys e = e ∙ ap down (omega arith)
degrees-data_symbols T (m ∷ ms) ys e =
    ap (◌∷◌ (T + length ms)) (degrees-data_symbols T ms ys e)
    ∙ ap down {x = suc (T + length ms)} {y = T + suc (length ms)} (omega arith)

-- The degrees of a code word are those below its length, once each.
pub degrees-codeword :
    (c : RsCode) (T : ℕ) (ms : List ℕ) → degrees (codeword c T ms) ≡ down (T + length ms)
unfolding codeword
degrees-codeword c T ms = degrees-data_symbols T ms _ (degrees-check_symbols T T _)

pub get_or-mem : {A : Type 0} (xs : List A) (j : ℕ) (d : A) → j < length xs → Mem (get_or xs j d) xs
get_or-mem [] j d h = absurd (omega arith)
get_or-mem (x ∷ xs) zero d h = mem-cons.1 (Or.inl refl)
get_or-mem (x ∷ xs) (suc j) d h = mem-cons.1 (Or.inr (get_or-mem xs j d (omega arith)))

pub Nodup-apart :
    (xs : List ℕ) (i j d : ℕ)
    → Nodup xs
    → i < length xs
    → j < length xs
    → j ≢ i
    → get_or xs j d ≢ get_or xs i d
Nodup-apart [] i j d u hi hj ne e = absurd (omega arith)
Nodup-apart (x ∷ xs) zero zero d u hi hj ne e = ne refl
Nodup-apart (x ∷ xs) zero (suc j) d u hi hj ne e =
    (Nodup-cons.0 u).0 (subst (λ k. Mem k xs) e (get_or-mem xs j d (omega arith)))
Nodup-apart (x ∷ xs) (suc i) zero d u hi hj ne e =
    (Nodup-cons.0 u).0 (subst (λ k. Mem k xs) (sym e) (get_or-mem xs i d (omega arith)))
Nodup-apart (x ∷ xs) (suc i) (suc j) d u hi hj ne e =
    Nodup-apart xs i j d (Nodup-cons.0 u).1 (omega arith) (omega arith) (λ p. ne (ap suc p)) e
