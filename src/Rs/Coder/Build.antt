-- ===== src/Rs/Coder/Build.antt =====
-- `build_redundant` of src/main/rs/rs.c copies one column of the checks and leaves out the zeros at its end.
use nettle.Prelude.{
  ℕ, zero, suc, ◌+◌, ◌*◌, ◌%◌, ◌≤◌, ◌<◌, ◌≡◌, refl, sym, ap, subst, ◌∙◌, arith, true, false, List,
  [], ◌∷◌, take, set, length, get_or, get_or-set_self, get_or-set_ne, length-set, ◌==◌,
}
use native.Mathlib.Decide.{ℕ_discrete, dec_lt}
use nettle.Rs.Coder.Payload.{get_or-past}
use nettle.Rs.Coder.Send.{build_loop, build_redundant}

get_or-take : (n i : ℕ) (xs : List ℕ) → i < n → get_or (take n xs) i 0 ≡ get_or xs i 0
get_or-take zero i xs h = absurd (omega arith)
get_or-take (suc n) i [] h = refl
get_or-take (suc n) zero (x ∷ xs) h = refl
get_or-take (suc n) (suc i) (x ∷ xs) h = get_or-take n i xs (omega arith)

length-take-le : (n : ℕ) (xs : List ℕ) → length (take n xs) ≤ n
length-take-le zero xs = omega arith
length-take-le (suc n) [] = omega arith
length-take-le (suc n) (x ∷ xs) = omega (arith, length-take-le n xs)

module _ (from : List ℕ) (T j : ℕ) where
  -- The byte of row `i`.
  abbrev pub byte_of : ℕ → ℕ
  byte_of i = get_or from (i * T + j) 0 % 256

  -- What the loop leaves up to row `e`: the bytes from row `i` on, over an array that had `to`.
  record Built (i e : ℕ) (to : List ℕ) (r : List ℕ × ℕ) : Type 0 where
    before : (q : ℕ) → q < i → get_or r.0 q 0 ≡ get_or to q 0
    bytes : (q : ℕ) → i ≤ q → q < e → get_or r.0 q 0 ≡ byte_of q
    bound : r.1 ≤ e
    zeros : (q : ℕ) → r.1 ≤ q → q < e → byte_of q ≡ 0

  Built-step :
      (i e : ℕ) (to : List ℕ) (r : List ℕ × ℕ)
      → i < length to
      → i < e
      → Built (i + 1) e (set to i (byte_of i)) r
      → Built i e to r
  Built-step i e to r room h b = record {
    before = λ q l. b.before q (omega arith) ∙ get_or-set_ne to i q _ 0 (omega arith);
    bytes = λ q l u. elim (ℕ_discrete i q) [
      | yes same ↦
          b.before q (omega arith)
          ∙ ap (λ n. get_or (set to i (byte_of i)) n 0) (sym same)
          ∙ get_or-set_self to i (byte_of i) 0 room
          ∙ ap byte_of same
      | no other ↦ b.bytes q (omega arith) u
    ];
    bound = b.bound;
    zeros = b.zeros;
  }

  loop-Built :
      (rounds i valid trailing : ℕ) (to : List ℕ)
      → valid + trailing ≡ i
      → i + rounds ≤ length to
      → ((q : ℕ) → valid ≤ q → q < i → byte_of q ≡ 0)
      → Built i (i + rounds) to (build_loop from T j rounds i valid trailing to)
  unfolding build_loop
  loop-Built zero i valid trailing to e room z = record {
    before = λ q l. refl;
    bytes = λ q l u. absurd (omega arith);
    bound = omega arith;
    zeros = λ q l u. z q l (omega arith);
  }
  loop-Built (suc rounds) i valid trailing to e room z =
      let to' = set to i (byte_of i) in
      let end : i + 1 + rounds ≡ i + suc rounds = omega arith in
      elim (ℕ_discrete (byte_of i) 0) [
        | yes none ↦
            let b : (byte_of i == 0) ≡ true = ground arith in
            rw b (
              Built-step i (i + suc rounds) to _ (omega arith) (omega arith) (
                subst
                  (λ n.
                    Built (i + 1) n to'
                      (build_loop from T j rounds (i + 1) valid (trailing + 1) to'))
                  end
                  (loop-Built rounds (i + 1) valid (trailing + 1) to' (omega arith)
                    (omega (arith, length-set to i (byte_of i)))
                    (λ q l u. elim (ℕ_discrete q i) [
                      | yes same ↦ ap byte_of same ∙ none
                      | no other ↦ z q l (omega arith)
                    ]))))
        | no some ↦
            let b : (byte_of i == 0) ≡ false = ground arith in
            rw b (
              Built-step i (i + suc rounds) to _ (omega arith) (omega arith) (
                subst
                  (λ n.
                    Built (i + 1) n to'
                      (build_loop from T j rounds (i + 1) (valid + (1 + trailing)) 0 to'))
                  end
                  (loop-Built rounds (i + 1) (valid + (1 + trailing)) 0 to' (omega arith)
                    (omega (arith, length-set to i (byte_of i))) (λ q l u. absurd (omega arith)))))
      ]

  -- The packet that `rs_encode_result` sends: the buffer up to the size that it reports.
  abbrev pub built : List ℕ → ℕ → List ℕ
  built to size = let r = build_redundant to from size T j in take r.1 r.0

  pub length-built : (to : List ℕ) (size : ℕ) → size ≤ length to → length (built to size) ≤ size
  unfolding build_redundant
  length-built to size room =
      let b =
        loop-Built size 0 0 0 to (omega arith) (omega arith) (λ q l u. absurd (omega arith)) in
      omega (
        arith,
        b.bound,
        length-take-le (build_loop from T j size 0 0 0 to).1 (build_loop from T j size 0 0 0 to).0,
      )

  -- Read with zeros past its end, the packet is the column of the checks.
  pub get_or-built :
      (to : List ℕ) (size r : ℕ)
      → size ≤ length to
      → r < size
      → get_or (built to size) r 0 ≡ byte_of r
  unfolding build_redundant
  get_or-built to size r room h =
      let p = build_loop from T j size 0 0 0 to in
      let b =
        loop-Built size 0 0 0 to (omega arith) (omega arith) (λ q l u. absurd (omega arith)) in
      elim (dec_lt r p.1) [
        | yes kept ↦ get_or-take p.1 r p.0 kept ∙ b.bytes r (omega arith) (omega arith)
        | no cut ↦
            get_or-past (take p.1 p.0) r (omega (arith, length-take-le p.1 p.0))
            ∙ sym (b.zeros r (omega arith) (omega arith))
      ]
