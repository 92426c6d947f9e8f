-- ===== src/Rs/Coder/Payload.antt =====
-- The column of bytes that a packet is in the code words of src/main/rs/rs.c: four of its size, its data,
-- and zeros; and what the loops of `rs_encode` and `rs_decode` make of it in each row.
use nettle.Prelude.{
  ℕ, zero, suc, ◌+◌, ◌-◌, ◌*◌, ◌≤◌, ◌<◌, ◌≡◌, refl, sym, ap, ap₂, ◌∙◌, arith, List, [], ◌∷◌, drop,
  get_or, length, if◌then◌else◌, ltb, inl, inr,
}
use native.Mathlib.Decide.{dec_lt}
use native.Mathlib.Nat.{mul-le-mul_right}
use nettle.Rs.RsCode
use nettle.Rs.RsCode.{RsCode}
use nettle.Rs.RsCode.Generator.{IsCode}
use nettle.Rs.Coder.{Rs, t_size, header_size, max_encoded_size, size_byte, row_loop}
use nettle.Rs.Coder.Rows.{
  IsLocal, row_loop-within, row_loop-other, length-row_loop, get_or-drop, length-drop, row-le,
}
use nettle.Rs.Coder.Local.{encode-IsLocal}
use nettle.Rs.Coder.Send.{encode_rows}

-- The byte of row `r`.
unfoldable pub payload : List ℕ → ℕ → ℕ
payload packet r =
    if ltb r header_size then size_byte (length packet) r else get_or packet (r - header_size) 0

pub get_or-past : (xs : List ℕ) (i : ℕ) → length xs ≤ i → get_or xs i 0 ≡ 0
get_or-past [] i h = refl
get_or-past (x ∷ xs) zero h = absurd (omega arith)
get_or-past (x ∷ xs) (suc i) h = get_or-past xs i (omega arith)

pub payload-head :
    (packet : List ℕ) (r : ℕ) → r < header_size → payload packet r ≡ size_byte (length packet) r
unfolding payload
payload-head packet r h = ground arith

pub payload-tail :
    (packet : List ℕ) (r : ℕ)
    → header_size ≤ r
    → payload packet r ≡ get_or packet (r - header_size) 0
unfolding payload
payload-tail packet r h = ground arith

-- Beyond the packet there are zeros.
pub payload-past :
    (packet : List ℕ) (r : ℕ) → length packet + header_size ≤ r → payload packet r ≡ 0
payload-past packet r h =
    payload-tail packet r (omega arith) ∙ get_or-past packet (r - header_size) (omega arith)

module _ {T : ℕ} (step : ℕ → List ℕ → List ℕ) (w : (v : ℕ) → IsLocal T (step v)) where
  -- What one call does to row `r` depends on that row alone.
  pub row-congr :
      (v r k : ℕ) (xs ys : List ℕ)
      → r * T + T ≤ length xs
      → r * T + T ≤ length ys
      → ((j : ℕ) → j < T → get_or xs (r * T + j) 0 ≡ get_or ys (r * T + j) 0)
      → k < T
      → get_or (step v (drop (r * T) xs)) k 0 ≡ get_or (step v (drop (r * T) ys)) k 0
  row-congr v r k xs ys hx hy same h =
      (w v).congr (drop (r * T) xs) (drop (r * T) ys) (omega (arith, length-drop (r * T) xs))
        (omega (arith, length-drop (r * T) ys))
        (λ j l. get_or-drop (r * T) j xs ∙ same j l ∙ sym (get_or-drop (r * T) j ys)) k h

  -- The loops over the size and the data, the second over a packet at most `m` bytes long.
  module _ (packet xs : List ℕ) (m : ℕ) (short : length packet ≤ m)
      (room : (m + header_size) * T ≤ length xs) where
    abbrev sized : List ℕ
    sized = row_loop step T (size_byte (length packet)) 0 header_size 0 xs

    abbrev pub filled : List ℕ
    filled = row_loop step T (λ i. get_or packet i 0) header_size (length packet) 0 sized

    length-sized : length sized ≡ length xs
    length-sized = length-row_loop step w (size_byte (length packet)) 0 header_size 0 xs

    pub length-filled : length filled ≡ length xs
    length-filled =
        length-row_loop step w (λ i. get_or packet i 0) header_size (length packet) 0 sized
        ∙ length-sized

    room_sized : (0 + header_size + 0) * T ≤ length xs
    room_sized =
        omega
          (arith, mul-le-mul_right {m = 0 + header_size + 0} {n = m + header_size} T (omega arith))

    room_filled : (0 + length packet + header_size) * T ≤ length sized
    room_filled = omega (
      arith,
      length-sized,
      mul-le-mul_right {m = 0 + length packet + header_size} {n = m + header_size} T (omega arith),
    )

    pub filled-other :
        (r k : ℕ)
        → k < T
        → length packet + header_size ≤ r
        → get_or filled (r * T + k) 0 ≡ get_or xs (r * T + k) 0
    filled-other r k h l =
        row_loop-other step w (λ i. get_or packet i 0) header_size (length packet) 0 r k sized h
          room_filled (inr (omega arith))
        ∙ row_loop-other step w (size_byte (length packet)) 0 header_size 0 r k xs h room_sized
            (inr (omega arith))

    pub filled-within :
        (r k : ℕ)
        → k < T
        → r < length packet + header_size
        → get_or filled (r * T + k) 0 ≡ get_or (step (payload packet r) (drop (r * T) xs)) k 0
    unfolding payload
    filled-within r k h l = elim (dec_lt r header_size) [
      | yes head ↦
          row_loop-other step w (λ i. get_or packet i 0) header_size (length packet) 0 r k sized h
            room_filled (inl (omega arith))
          ∙ ap (λ s. get_or sized (s * T + k) 0) {x = r} {y = r + 0} (omega arith)
          ∙ row_loop-within step w (size_byte (length packet)) 0 header_size 0 r k xs h room_sized
              (omega arith) (omega arith)
          ∙ ap₂ (λ v s. get_or (step v (drop (s * T) xs)) k 0) (sym (payload-head packet r head))
              same_row
      | no tail ↦
          let i = r - header_size in
          let row : i + header_size ≡ r = omega arith in
          ap (λ s. get_or filled (s * T + k) 0) (sym row)
          ∙ row_loop-within step w (λ i. get_or packet i 0) header_size (length packet) 0 i k sized
              h room_filled (omega arith) (omega arith)
          ∙ ap (λ s. get_or (step (get_or packet i 0) (drop (s * T) sized)) k 0) row
          ∙ row-congr (get_or packet i 0) r k sized xs (omega (arith, length-sized, row_room))
              row_room
              (λ j hj.
                row_loop-other step w (size_byte (length packet)) 0 header_size 0 r j xs hj
                  room_sized (inr (omega arith)))
              h
          ∙ ap (λ v. get_or (step v (drop (r * T) xs)) k 0)
              (sym (payload-tail packet r (omega arith)))
    ]
      where
        same_row : r + 0 ≡ r
        same_row = omega arith

        row_room : r * T + T ≤ length xs
        row_room = row-le T r (m + header_size) (length xs) (omega arith) room

-- `rs_encode` hands each row the byte of the packet's column to one `rscode_encode`.
module _ (rs : Rs) (v : IsCode rs.rscode (t_size rs)) where
  pub encode_rows-cell :
      (packet checks : List ℕ) (r k : ℕ)
      → length packet ≤ rs.max_data_size
      → max_encoded_size rs.max_data_size * t_size rs ≤ length checks
      → r < max_encoded_size rs.max_data_size
      → k < t_size rs
      → get_or (encode_rows rs packet (length packet) checks) (r * t_size rs + k) 0
        ≡ get_or (RsCode.encode rs.rscode (payload packet r) (drop (r * t_size rs) checks)) k 0
  unfolding encode_rows
  encode_rows-cell packet checks r k short room hr h =
      let step = RsCode.encode rs.rscode in
      let w = encode-IsLocal v in
      let m = rs.max_data_size in
      let start = header_size + length packet in
      let mid = filled step w packet checks m short room in
      let mid_length = length-filled step w packet checks m short room in
      let pad_room : (0 + (m - length packet) + start) * t_size rs ≤ length mid = omega (
        arith,
        mid_length,
        ap (λ n. n * t_size rs) {x = 0 + (m - length packet) + start} {y = max_encoded_size m}
            (omega arith),
      ) in
      let row_room = row-le (t_size rs) r (max_encoded_size m) (length checks) hr room in
      elim (dec_lt r start) [
        | yes inside ↦
            row_loop-other step w (λ _. 0) start (m - length packet) 0 r k mid h pad_room
              (inl (omega arith))
            ∙ filled-within step w packet checks m short room r k h (omega arith)
        | no outside ↦
            let i = r - start in
            let row : i + start ≡ r = omega arith in
            ap
              (λ s.
                get_or (row_loop step (t_size rs) (λ _. 0) start (m - length packet) 0 mid)
                  (s * t_size rs + k) 0)
              (sym row)
            ∙ row_loop-within step w (λ _. 0) start (m - length packet) 0 i k mid h pad_room
                (omega arith) (omega arith)
            ∙ ap (λ s. get_or (step 0 (drop (s * t_size rs) mid)) k 0) row
            ∙ row-congr step w 0 r k mid checks (omega (arith, mid_length, row_room)) row_room
                (λ j hj. filled-other step w packet checks m short room r j hj (omega arith)) h
            ∙ ap (λ b. get_or (step b (drop (r * t_size rs) checks)) k 0)
                (sym (payload-past packet r (omega arith)))
      ]

  pub length-encode_rows :
      (packet checks : List ℕ)
      → length packet ≤ rs.max_data_size
      → max_encoded_size rs.max_data_size * t_size rs ≤ length checks
      → length (encode_rows rs packet (length packet) checks) ≡ length checks
  unfolding encode_rows
  length-encode_rows packet checks short room =
      let step = RsCode.encode rs.rscode in
      let w = encode-IsLocal v in
      let m = rs.max_data_size in
      length-row_loop step w (λ _. 0) (header_size + length packet) (m - length packet) 0
        (filled step w packet checks m short room)
      ∙ length-filled step w packet checks m short room
