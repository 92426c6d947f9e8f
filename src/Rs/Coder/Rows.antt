-- ===== src/Rs/Coder/Rows.antt =====
-- What a loop over the rows of an array of src/main/rs/rs.c leaves in each cell.
use nettle.Prelude.{
  ℕ, zero, suc, ◌+◌, ◌-◌, ◌*◌, ◌≤◌, ◌<◌, ◌≡◌, refl, sym, ap, ◌∙◌, arith, List, [], ◌∷◌, drop,
  get_or, length, ◌⊎◌, inl, inr,
}
use native.Mathlib.Decide.{ℕ_discrete}
use native.Mathlib.Nat.{mul-le-mul_right, suc-mul}
use nettle.Rs.Coder.{at_offset, row_loop}

pub get_or-drop : (n i : ℕ) (xs : List ℕ) → get_or (drop n xs) i 0 ≡ get_or xs (n + i) 0
get_or-drop zero i xs = ap (λ k. get_or xs k 0) {x = i} {y = 0 + i} (omega arith)
get_or-drop (suc n) i [] = refl
get_or-drop (suc n) i (x ∷ xs) =
    get_or-drop n i xs
    ∙ ap (λ k. get_or (x ∷ xs) k 0) {x = suc (n + i)} {y = suc n + i} (omega arith)

pub length-drop : (n : ℕ) (xs : List ℕ) → length (drop n xs) ≡ length xs - n
length-drop zero xs = omega arith
length-drop (suc n) [] = omega arith
length-drop (suc n) (x ∷ xs) = omega (arith, length-drop n xs)

-- What a call may do to a row of `T` words, whose last word need not be the array's.
pub record IsLocal (T : ℕ) (f : List ℕ → List ℕ) : Type 0 where
  pub same_length : (xs : List ℕ) → length (f xs) ≡ length xs
  pub beyond : (xs : List ℕ) (k : ℕ) → T ≤ length xs → T ≤ k → get_or (f xs) k 0 ≡ get_or xs k 0
  pub congr :
      (xs ys : List ℕ)
      → T ≤ length xs
      → T ≤ length ys
      → ((k : ℕ) → k < T → get_or xs k 0 ≡ get_or ys k 0)
      → (k : ℕ) → k < T
      → get_or (f xs) k 0 ≡ get_or (f ys) k 0

module _ (f : List ℕ → List ℕ) where
  at_offset-before :
      (n i : ℕ) (xs : List ℕ)
      → i < n
      → n ≤ length xs
      → get_or (at_offset f n xs) i 0 ≡ get_or xs i 0
  unfolding at_offset
  at_offset-before zero i xs h l = absurd (omega arith)
  at_offset-before (suc n) i [] h l = absurd (omega arith)
  at_offset-before (suc n) zero (x ∷ xs) h l = refl
  at_offset-before (suc n) (suc i) (x ∷ xs) h l =
      at_offset-before n i xs (omega arith) (omega arith)

  at_offset-from :
      (n i : ℕ) (xs : List ℕ)
      → n ≤ length xs
      → get_or (at_offset f n xs) (n + i) 0 ≡ get_or (f (drop n xs)) i 0
  unfolding at_offset
  at_offset-from zero i xs l = ap (λ k. get_or (f xs) k 0) {x = 0 + i} {y = i} (omega arith)
  at_offset-from (suc n) i [] l = absurd (omega arith)
  at_offset-from (suc n) i (x ∷ xs) l =
      ap (λ k. get_or (at_offset f (suc n) (x ∷ xs)) k 0) {x = suc n + i} {y = suc (n + i)}
        (omega arith)
      ∙ at_offset-from n i xs (omega arith)

  length-at_offset :
      ((xs : List ℕ) → length (f xs) ≡ length xs)
      → (n : ℕ) (xs : List ℕ) → length (at_offset f n xs) ≡ length xs
  unfolding at_offset
  length-at_offset same zero xs = same xs
  length-at_offset same (suc n) [] = same []
  length-at_offset same (suc n) (x ∷ xs) = ap suc (length-at_offset same n xs)

module _ {T : ℕ} (f : List ℕ → List ℕ) (w : IsLocal T f) where
  -- A call on row `r` leaves the cells of the other rows.
  at_offset-other :
      (r i : ℕ) (xs : List ℕ)
      → r * T + T ≤ length xs
      → (i < r * T) ⊎ (r * T + T ≤ i)
      → get_or (at_offset f (r * T) xs) i 0 ≡ get_or xs i 0
  at_offset-other r i xs room (inl before) = at_offset-before f (r * T) i xs before (omega arith)
  at_offset-other r i xs room (inr after) =
      let k = i - r * T in
      let e : r * T + k ≡ i = omega arith in
      ap (λ j. get_or (at_offset f (r * T) xs) j 0) (sym e)
      ∙ at_offset-from f (r * T) k xs (omega arith)
      ∙ w.beyond (drop (r * T) xs) k (omega (arith, length-drop (r * T) xs)) (omega arith)
      ∙ get_or-drop (r * T) k xs
      ∙ ap (λ j. get_or xs j 0) e

module _ {T : ℕ} (step : ℕ → List ℕ → List ℕ) (w : (v : ℕ) → IsLocal T (step v)) (value : ℕ → ℕ)
    (offset : ℕ) where
  pub length-row_loop :
      (rows i : ℕ) (xs : List ℕ) → length (row_loop step T value offset rows i xs) ≡ length xs
  unfolding row_loop
  length-row_loop zero i xs = refl
  length-row_loop (suc rows) i xs =
      length-row_loop rows (i + 1) _ ∙ length-at_offset _ (w (value i)).same_length _ xs

pub row-lt : (T r s k : ℕ) → k < T → r < s → r * T + k < s * T
row-lt T r s k h l = grind (arith, mul-le-mul_right T l)

pub row-le : (T r s n : ℕ) → r < s → s * T ≤ n → r * T + T ≤ n
row-le T r s n l h = omega (arith, mul-le-mul_right T l, suc-mul r T)

module _ {T : ℕ} (step : ℕ → List ℕ → List ℕ) (w : (v : ℕ) → IsLocal T (step v)) (value : ℕ → ℕ)
    (offset : ℕ) where
  room_after :
      (rows i : ℕ) (xs : List ℕ)
      → (i + suc rows + offset) * T ≤ length xs
      → (i + 1 + rows + offset) * T ≤ length (at_offset (step (value i)) ((i + offset) * T) xs)
  room_after rows i xs room = omega (
    arith,
    length-at_offset (step (value i)) (w (value i)).same_length ((i + offset) * T) xs,
    ap (λ n. n * T) {x = i + suc rows + offset} {y = i + 1 + rows + offset} (omega arith),
  )

  -- The loop leaves the cells of the rows that it does not reach.
  pub row_loop-other :
      (rows i r k : ℕ) (xs : List ℕ)
      → k < T
      → (i + rows + offset) * T ≤ length xs
      → (r < i + offset) ⊎ (i + rows + offset ≤ r)
      → get_or (row_loop step T value offset rows i xs) (r * T + k) 0 ≡ get_or xs (r * T + k) 0
  unfolding row_loop
  row_loop-other zero i r k xs h room out = refl
  row_loop-other (suc rows) i r k xs h room out =
      row_loop-other rows (i + 1) r k _ h (room_after rows i xs room)
        (elim out [ inl before ↦ inl (omega arith) | inr after ↦ inr (omega arith) ])
      ∙ at_offset-other (step (value i)) (w (value i)) (i + offset) (r * T + k) xs
          (row-le T (i + offset) (i + suc rows + offset) (length xs) (omega arith) room)
          (elim out [
            | inl before ↦ inl (row-lt T r (i + offset) k h before)
            | inr after ↦
                inr (omega (arith, row-le T (i + offset) r (r * T) (omega arith) (omega arith)))
          ])

  -- The loop hands each row that it reaches to one call, with the words that it held.
  pub row_loop-within :
      (rows i r k : ℕ) (xs : List ℕ)
      → k < T
      → (i + rows + offset) * T ≤ length xs
      → i ≤ r
      → r < i + rows
      → get_or (row_loop step T value offset rows i xs) ((r + offset) * T + k) 0
        ≡ get_or (step (value r) (drop ((r + offset) * T) xs)) k 0
  unfolding row_loop
  row_loop-within zero i r k xs h room l u = absurd (omega arith)
  row_loop-within (suc rows) i r k xs h room l u =
      let room' = room_after rows i xs room in
      let room_i = row-le T (i + offset) (i + suc rows + offset) (length xs) (omega arith) room in
      let room_r = row-le T (r + offset) (i + suc rows + offset) (length xs) (omega arith) room in
      let xs' = at_offset (step (value i)) ((i + offset) * T) xs in
      elim (ℕ_discrete i r) [
        | yes e ↦
            row_loop-other rows (i + 1) (r + offset) k xs' h room' (inl (omega arith))
            ∙ ap
                (λ j.
                  get_or (at_offset (step (value j)) ((j + offset) * T) xs) ((r + offset) * T + k)
                    0)
                e
            ∙ at_offset-from (step (value r)) ((r + offset) * T) k xs (omega arith)
        | no ne ↦
            row_loop-within rows (i + 1) r k xs' h room' (omega arith) (omega arith)
            ∙ (w (value r)).congr (drop ((r + offset) * T) xs') (drop ((r + offset) * T) xs)
                (omega (
                  arith,
                  length-drop ((r + offset) * T) xs',
                  length-at_offset (step (value i)) (w (value i)).same_length ((i + offset) * T) xs,
                ))
                (omega (arith, length-drop ((r + offset) * T) xs))
                (λ j hj.
                  get_or-drop ((r + offset) * T) j xs'
                  ∙ at_offset-other (step (value i)) (w (value i)) (i + offset)
                      ((r + offset) * T + j) xs room_i
                      (inr (
                        omega (
                          arith,
                          row-le T (i + offset) (r + offset) ((r + offset) * T) (omega arith)
                              (omega arith),
                        )))
                  ∙ sym (get_or-drop ((r + offset) * T) j xs))
                k h
      ]
