-- ===== src/Rs/RsCode/Symbols.antt =====
-- The symbols of a code word with their degrees: what the callers of src/main/rs/rscode.c hand over, one
-- `rscode_decode_syndromes` for each symbol that arrives, one `rscode_encode` for each of a message.
use nettle.Prelude.{
  ℕ, suc, ◌≤◌, ◌<◌, ◌≡◌, refl, sym, ap, ap₂, ◌∙◌, arith, bit_xor, List, [], ◌∷◌, ◌++◌, get_or,
  length,
}
use mathlib.Core.List.{Perm, Permᴰ}
use mathlib.Core.Logic.{∥∥₁_elim}
use native.Mathlib.Nat.{ℕ_set}
use nettle.Prelude.Bits.{zero-bit_xor, bit_xor-zero, bit_xor_assoc, bit_xor_left_comm}
use nettle.Rs.Galois.{Galois, mul, element}
use nettle.Rs.Galois.Sum.{sum, sum_first}
use nettle.Rs.Galois.Poly.Eval.{power}
use nettle.Rs.RsCode.{RsCode, encode, decode_syndromes}
use nettle.Rs.RsCode.Generator.{IsCode}
use nettle.Rs.RsCode.Syndromes.{decode_syndromes_lem, length-decode_syndromes}

pub record Symbol : Type 0 where
  pub degree : ℕ
  pub value : ℕ

-- The syndromes when the symbols have arrived, in this order.
unfoldable pub receive : RsCode → List Symbol → List ℕ → List ℕ
receive c [] syndromes = syndromes
receive c (s ∷ xs) syndromes = receive c xs (decode_syndromes c s.value s.degree syndromes)

-- The checks when the symbols of a message have been encoded, in this order.
unfoldable pub encode_all : RsCode → List ℕ → List ℕ → List ℕ
encode_all c [] checks = checks
encode_all c (m ∷ ms) checks = encode_all c ms (encode c m checks)

abbrev pub weigh : Galois → ℕ → Symbol → ℕ
weigh g x s = mul g s.value (power g x s.degree)

-- The value at `x` of the polynomial of the symbols.
unfoldable pub total : Galois → ℕ → List Symbol → ℕ
total g x [] = 0
total g x (s ∷ xs) = bit_xor (weigh g x s) (total g x xs)

pub total-append :
    (g : Galois) (x : ℕ) (xs ys : List Symbol)
    → total g x (xs ++ ys) ≡ bit_xor (total g x xs) (total g x ys)
unfolding total
total-append g x [] ys = sym (zero-bit_xor _)
total-append g x (s ∷ xs) ys =
    ap (bit_xor (weigh g x s)) (total-append g x xs ys) ∙ sym (bit_xor_assoc _ _ _)

total_permᴰ : (g : Galois) (x : ℕ) {xs ys : List Symbol} → Permᴰ xs ys → total g x xs ≡ total g x ys
unfolding total
total_permᴰ g x Permᴰ.nil = refl
total_permᴰ g x (Permᴰ.cons e p) = ap₂ (λ s t. bit_xor (weigh g x s) t) e (total_permᴰ g x p)
total_permᴰ g x (Permᴰ.swap {l = l} e f) =
    bit_xor_left_comm _ _ _
    ∙ ap₂ (λ s t. bit_xor (weigh g x s) (bit_xor (weigh g x t) (total g x l))) f e
total_permᴰ g x (Permᴰ.trans p q) = total_permᴰ g x p ∙ total_permᴰ g x q

-- The value does not depend on the order of the symbols.
pub total-perm :
    (g : Galois) (x : ℕ) {xs ys : List Symbol} → Perm xs ys → total g x xs ≡ total g x ys
total-perm g x p = ∥∥₁_elim p (ℕ_set _ _) (total_permᴰ g x)

abbrev pub no_symbol : Symbol
no_symbol = record { degree = 0; value = 0 }

pub total-sum :
    (g : Galois) (x : ℕ) (xs : List Symbol)
    → total g x xs ≡ sum (length xs) (λ j. weigh g x (get_or xs j no_symbol))
unfolding total sum
total-sum g x [] = refl
total-sum g x (s ∷ xs) =
    ap (bit_xor (weigh g x s)) (total-sum g x xs)
    ∙ sym (sum_first (length xs) (λ j. weigh g x (get_or (s ∷ xs) j no_symbol)))

-- Every degree is below the order.
abbrev pub DegreesBelow : ℕ → List Symbol → Type 0
DegreesBelow n [] = Unit {0}
DegreesBelow n (s ∷ xs) = (s.degree < n) × DegreesBelow n xs

module _ {c : RsCode} {T : ℕ} (v : IsCode c T) where
  -- The syndrome of index `k` is the value of what has arrived at `element (k + 1)`.
  pub receive-total :
      (k : ℕ) (xs : List Symbol) (syn : List ℕ)
      → T ≤ length syn
      → DegreesBelow c.galois.order xs
      → k < T
      → get_or (receive c xs syn) k 0
        ≡ bit_xor (get_or syn k 0) (total c.galois (element c.galois (suc k)) xs)
  unfolding receive total
  receive-total k [] syn room d h = sym (bit_xor-zero _)
  receive-total k (s ∷ xs) syn room d h =
      receive-total k xs (decode_syndromes c s.value s.degree syn)
        (omega (arith, length-decode_syndromes c s.value s.degree syn)) d.1 h
      ∙ ap (λ w. bit_xor w (total c.galois (element c.galois (suc k)) xs))
          (decode_syndromes_lem c s.value s.degree v k syn room d.0 h)
      ∙ bit_xor_assoc _ _ _
