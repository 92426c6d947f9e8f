-- ===== src/Rs/RsCode/RoundTrip.antt =====
-- Any loss of at most `T` symbols of a code word is repaired, whatever arrives, in whatever order.
use nettle.Prelude.{
  ℕ, zero, suc, ◌+◌, ◌-◌, ◌*◌, ◌≤◌, ◌<◌, ◌≡◌, ◌≢◌, refl, sym, ap, subst, ◌∙◌, arith, bit_xor, List,
  [], ◌∷◌, ◌++◌, get_or, length, replicate, length-replicate, get_or-replicate, some,
}
use mathlib.Core.List.{
  Perm, Mem, Nodup, mem-cons, not-mem-nil, map-append, Nodup-append, mem-map_of_mem,
  mem-append_left, mem-append_right,
}
use mathlib.Core.List.Perm
use mathlib.Core.Logic.Or
use native.Mathlib.Bridge.{le_prop}
use nettle.Prelude.Bits.{zero-bit_xor, eq_of_bit_xor-zero}
use nettle.Rs.Galois.{mul, element}
use nettle.Rs.Galois.Sum.{sum-congr}
use nettle.Rs.Galois.Poly.Eval.{power, AllIn, coefficients}
use nettle.Rs.RsCode.{RsCode, z, decode_erasure, encode}
use nettle.Rs.RsCode.Generator.{IsCode}
use nettle.Rs.RsCode.Encode.{remainder, length-encode, encode-AllIn}
use nettle.Rs.RsCode.Recover.{left_by, element-mul, decode_erasure_recovers}
use nettle.Rs.RsCode.Symbols.{
  Symbol, no_symbol, receive, encode_all, total, total-append, total-perm, total-sum, DegreesBelow,
  receive-total,
}
use nettle.Rs.RsCode.Codeword.{codeword, data_symbols, check_symbols, AllBelow, codeword_vanishes}
use nettle.Rs.RsCode.Degrees.{
  degrees, lt_of_mem-down, down-Nodup, degrees-codeword, get_or-mem, Nodup-apart,
}

get_or-degrees :
    (xs : List Symbol) (j : ℕ) → get_or (degrees xs) j 0 ≡ (get_or xs j no_symbol).degree
unfolding degrees
get_or-degrees [] j = refl
get_or-degrees (x ∷ xs) zero = refl
get_or-degrees (x ∷ xs) (suc j) = get_or-degrees xs j

length-degrees : (xs : List Symbol) → length (degrees xs) ≡ length xs
unfolding degrees
length-degrees [] = refl
length-degrees (x ∷ xs) = ap suc (length-degrees xs)

-- Every value of the list is an element of the field.
abbrev ValuesBelow : ℕ → List Symbol → Type 0
ValuesBelow n xs = (s : Symbol) → Mem s xs → s.value < n

get_or-value :
    (n : ℕ) (xs : List Symbol)
    → 0 < n
    → ValuesBelow n xs
    → (j : ℕ) → (get_or xs j no_symbol).value < n
get_or-value n [] p h j = p
get_or-value n (x ∷ xs) p h zero = h x (mem-cons.1 (Or.inl refl))
get_or-value n (x ∷ xs) p h (suc j) = get_or-value n xs p (λ s m. h s (mem-cons.1 (Or.inr m))) j

DegreesBelow-of :
    (n : ℕ) (xs : List Symbol) → ((s : Symbol) → Mem s xs → s.degree < n) → DegreesBelow n xs
DegreesBelow-of n [] h = tt
DegreesBelow-of n (x ∷ xs) h =
    (h x (mem-cons.1 (Or.inl refl)), DegreesBelow-of n xs (λ s m. h s (mem-cons.1 (Or.inr m))))

data-ValuesBelow :
    (n T : ℕ) (ms : List ℕ) (ys : List Symbol)
    → AllBelow n ms
    → ValuesBelow n ys
    → ValuesBelow n (data_symbols T ms ++ ys)
unfolding data_symbols
data-ValuesBelow n T [] ys h hy s i = hy s i
data-ValuesBelow n T (m ∷ ms) ys h hy s i =
    Or.elim le_prop (mem-cons.0 i) (λ e. subst (λ (t : Symbol). t.value < n) (sym e) h.0)
      (λ r. data-ValuesBelow n T ms ys h.1 hy s r)

check-ValuesBelow :
    (n T : ℕ) (checks : List ℕ) (m : ℕ)
    → ((j : ℕ) → j < T → remainder T checks j < n)
    → m ≤ T
    → ValuesBelow n (check_symbols T checks m)
unfolding check_symbols
check-ValuesBelow n T checks zero h l s i = absurd (not-mem-nil i)
check-ValuesBelow n T checks (suc m) h l s i =
    Or.elim le_prop (mem-cons.0 i)
      (λ e. subst (λ (t : Symbol). t.value < n) (sym e) (h m (omega arith)))
      (λ r. check-ValuesBelow n T checks m h (omega arith) s r)

module _ {c : RsCode} {n : ℕ} (v : IsCode c (suc n)) where
  pub encode_all-AllIn :
      (ms checks : List ℕ)
      → AllBelow c.galois.order ms
      → suc n ≤ length checks
      → AllIn c.galois (coefficients c.galois checks) (suc n)
      → AllIn c.galois (coefficients c.galois (encode_all c ms checks)) (suc n)
  unfolding encode_all
  encode_all-AllIn [] checks h room hc = hc
  encode_all-AllIn (m ∷ ms) checks h room hc =
      encode_all-AllIn ms (encode c m checks) h.1 (omega (arith, length-encode v m checks room))
        (encode-AllIn v m checks room h.0 hc)

  abbrev pub zeros : List ℕ
  zeros = replicate (suc n) 0

  pub zeros-AllIn : AllIn c.galois (coefficients c.galois zeros) (suc n)
  zeros-AllIn j h = rw (get_or-replicate {A = ℕ} (suc n) j 0) (omega (arith, v.field.order-lt))

  -- The values of a code word are elements of the field.
  codeword-ValuesBelow :
      (ms : List ℕ)
      → AllBelow c.galois.order ms
      → ValuesBelow c.galois.order (codeword c (suc n) ms)
  unfolding codeword
  codeword-ValuesBelow ms h =
      let checks = encode_all c ms (replicate (suc n) 0) in
      let inside =
        encode_all-AllIn ms (replicate (suc n) 0) h
          (omega (arith, length-replicate {A = ℕ} (suc n) 0)) zeros-AllIn in
      data-ValuesBelow c.galois.order (suc n) ms _ h (
        check-ValuesBelow c.galois.order (suc n) checks (suc n)
          (λ j l. inside (suc n - 1 - j) (omega arith)) (omega arith))

  module _ (ms : List ℕ) (below : AllBelow c.galois.order ms)
      (short : suc n + length ms < c.galois.order) (received erased : List Symbol)
      (p : Perm (received ++ erased) (codeword c (suc n) ms)) where
    degree-lt : (s : Symbol) → Mem s (received ++ erased) → s.degree < suc n + length ms
    unfolding degrees
    degree-lt s m = lt_of_mem-down _ s.degree (
        subst (Mem s.degree) (degrees-codeword c (suc n) ms)
          (mem-map_of_mem (λ (t : Symbol). t.degree) ((Perm.mem_iff p).0 m)))

    received-total :
        (k : ℕ)
        → k < suc n
        → get_or (receive c received (replicate (suc n) 0)) k 0
          ≡ total c.galois (element c.galois (suc k)) received
    received-total k h =
        receive-total v k received (replicate (suc n) 0)
          (omega (arith, length-replicate {A = ℕ} (suc n) 0))
          (DegreesBelow-of c.galois.order received
            (λ s m. omega (arith, degree-lt s (mem-append_left erased m))))
          h
        ∙ ap (λ w. bit_xor w (total c.galois (element c.galois (suc k)) received))
            (get_or-replicate {A = ℕ} (suc n) k 0)
        ∙ zero-bit_xor _

    -- What has arrived and what has not leave the same syndromes.
    erased-total :
        (k : ℕ)
        → k < suc n
        → total c.galois (element c.galois (suc k)) received
          ≡ total c.galois (element c.galois (suc k)) erased
    erased-total k h =
        let x = element c.galois (suc k) in
        eq_of_bit_xor-zero _ _ (
          sym (total-append c.galois x received erased)
          ∙ total-perm c.galois x p
          ∙ codeword_vanishes v (suc k) (omega arith) (omega arith) ms below)

    degrees-Nodup : Nodup (degrees erased)
    unfolding degrees
    degrees-Nodup =
        let all : Nodup (degrees (received ++ erased)) =
          Perm.nodup (Perm.symm (Perm.map (λ (t : Symbol). t.degree) p))
            (subst Nodup (sym (degrees-codeword c (suc n) ms)) (down-Nodup (suc n + length ms))) in
        (Nodup-append.0 (subst Nodup (map-append (λ (t : Symbol). t.degree) received erased) all)).1

    value-lt : (j : ℕ) → (get_or erased j no_symbol).value < c.galois.order
    value-lt =
        get_or-value c.galois.order erased (omega (arith, v.field.order-lt)) (λ s m.
          codeword-ValuesBelow ms below s ((Perm.mem_iff p).0 (mem-append_right received m)))

    left-erased :
        (degs : List ℕ)
        → ((j : ℕ) → j < length erased → get_or degs j 0 ≡ (get_or erased j no_symbol).degree)
        → (k : ℕ) → k < suc n
        → get_or (receive c received (replicate (suc n) 0)) k 0
          ≡ left_by c.galois degs (length erased) (λ j. (get_or erased j no_symbol).value) k
    left-erased degs e k h =
        received-total k h
        ∙ erased-total k h
        ∙ total-sum c.galois _ erased
        ∙ sum-congr (length erased) _ _ (λ j l.
          let d = (get_or erased j no_symbol).degree in
          ap (mul c.galois (get_or erased j no_symbol).value) (
            sym (element-mul v.field (suc k) d)
            ∙ ap (element c.galois) {x = suc k * d} {y = d * suc k} (grind arith)
            ∙ element-mul v.field d (suc k)
            ∙ ap (λ w. power c.galois (element c.galois w) (suc k)) (sym (e j l))))

    apart :
        (degs : List ℕ) (i j : ℕ)
        → ((j : ℕ) → j < length erased → get_or degs j 0 ≡ (get_or erased j no_symbol).degree)
        → i < length erased
        → j < length erased
        → j ≢ i
        → z c.galois degs j ≢ z c.galois degs i
    apart degs i j e hi hj ne same =
        let d = λ (k : ℕ) (l : k < length erased). e k l ∙ sym (get_or-degrees erased k) in
        Nodup-apart (degrees erased) i j 0 degrees-Nodup (omega (arith, length-degrees erased))
          (omega (arith, length-degrees erased)) ne
          (sym (d j hj)
            ∙ v.field.element_injective (get_or degs j 0) (get_or degs i 0) (small j hj)
                (small i hi) same
            ∙ d i hi)
      where
        small : (k : ℕ) → k < length erased → get_or degs k 0 < c.galois.order - 1
        small k l = omega (
          arith,
          degree-lt _ (mem-append_right received (get_or-mem erased k no_symbol l)),
          e k l,
        )

-- In a code with `suc n` checks, for a message of elements of the field with fewer symbols, its
-- checks included, than the order: when the symbols that arrive and the erased ones, at most as many
-- as there are checks, make up the message and its checks in any order, `rscode_decode_erasure` on
-- the syndromes of what has arrived, from cleared ones, and the erased degrees returns each erased
-- symbol.
pub decode_erasure-receive :
    (c : RsCode) (n : ℕ)
    → IsCode c (suc n)
    → (ms : List ℕ) → AllBelow c.galois.order ms
    → suc n + length ms < c.galois.order
    → (received erased : List Symbol) → Perm (received ++ erased) (codeword c (suc n) ms)
    → length erased ≤ suc n
    → (degs : List ℕ)
    → ((j : ℕ) → j < length erased → get_or degs j 0 ≡ (get_or erased j no_symbol).degree)
    → (i : ℕ) → i < length erased
    → decode_erasure c (receive c received (replicate (suc n) 0)) degs (length erased) i
      ≡ some (get_or erased i no_symbol).value
decode_erasure-receive c n v ms below short received erased p few degs e i h =
    decode_erasure_recovers c v.field _ degs (length erased) i
      (λ j. (get_or erased j no_symbol).value) (value-lt v ms below short received erased p) h
      (λ k l. left-erased v ms below short received erased p degs e k (omega arith))
      (λ j l. apart v ms below short received erased p degs i j e h l)

-- The same of any syndromes that agree with those.
pub decode_erasure-agrees :
    (c : RsCode) (T : ℕ)
    → IsCode c T
    → (ms : List ℕ) → AllBelow c.galois.order ms
    → T + length ms < c.galois.order
    → (received erased : List Symbol) → Perm (received ++ erased) (codeword c T ms)
    → length erased ≤ T
    → (degs syndromes : List ℕ)
    → ((j : ℕ) → j < length erased → get_or degs j 0 ≡ (get_or erased j no_symbol).degree)
    → ((k : ℕ) → k < T → get_or syndromes k 0 ≡ get_or (receive c received (replicate T 0)) k 0)
    → (i : ℕ) → i < length erased
    → decode_erasure c syndromes degs (length erased) i ≡ some (get_or erased i no_symbol).value
decode_erasure-agrees c zero v ms below short received erased p few degs syndromes e agree i h =
    absurd (omega (arith, v.positive))
decode_erasure-agrees c (suc n) v ms below short received erased p few degs syndromes e agree i h =
    decode_erasure_recovers c v.field syndromes degs (length erased) i
      (λ j. (get_or erased j no_symbol).value) (value-lt v ms below short received erased p) h
      (λ k l.
        agree k (omega arith)
        ∙ left-erased v ms below short received erased p degs e k (omega arith))
      (λ j l. apart v ms below short received erased p degs i j e h l)

pub encode_all-lt :
    (c : RsCode) (T : ℕ)
    → IsCode c T
    → (ms : List ℕ) → AllBelow c.galois.order ms
    → (k : ℕ) → k < T
    → get_or (encode_all c ms (replicate T 0)) k 0 < c.galois.order
encode_all-lt c zero v ms below k h = absurd (omega arith)
encode_all-lt c (suc n) v ms below k h =
    encode_all-AllIn v ms (replicate (suc n) 0) below
      (omega (arith, length-replicate {A = ℕ} (suc n) 0)) (zeros-AllIn v) k h
