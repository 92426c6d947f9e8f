-- ===== src/Rs/Coder/Arrival.antt =====
-- Packets that arrive at `rs_decode`: each row of the syndromes receives the byte of the packet.
use nettle.Prelude.{
  ℕ, ◌+◌, ◌*◌, ◌≤◌, ◌<◌, ◌≡◌, sym, ap, subst, ◌∙◌, arith, List, [], ◌∷◌, map, drop, get_or, length,
  true, false, leb, if◌then◌else◌, inr,
}
use native.Mathlib.Decide.{dec_lt}
use native.Mathlib.Nat.{mul-le-mul_right}
use nettle.Prelude.Bits.{bit_xor-zero}
use nettle.Rs.Galois.{add}
use nettle.Rs.Galois.Field.{zero-mul}
use nettle.Rs.RsCode.{RsCode, decode_syndromes}
use nettle.Rs.RsCode.Generator.{IsCode}
use nettle.Rs.RsCode.Symbols.{Symbol, receive}
use nettle.Rs.Coder.{Rs, t_size, header_size, max_encoded_size, row_loop, size_byte}
use nettle.Rs.Coder.Rows.{
  IsLocal, row_loop-within, row_loop-other, length-row_loop, get_or-drop, length-drop, row-le,
}
use nettle.Rs.Coder.Local.{decode_syndromes-IsLocal, syndromes-cell}
use nettle.Rs.Coder.Payload.{
  payload, payload-past, get_or-past, filled, filled-within, filled-other,
}
use nettle.Rs.Coder.Receive.{decode_rows, allowed_size}

-- A packet with its degree.
pub record Arrival : Type 0 where
  pub degree : ℕ
  pub bytes : List ℕ

-- The byte of row `r`: packets of data carry their size, and redundant ones are rows themselves.
unfoldable pub arrival_byte : ℕ → Arrival → ℕ → ℕ
arrival_byte T a r = if leb T a.degree then payload a.bytes r else get_or a.bytes r 0

module _ (rs : Rs) (v : IsCode rs.rscode (t_size rs)) where
  -- A zero changes no syndrome.
  zero-syndromes :
      (degree k : ℕ) (xs : List ℕ)
      → t_size rs ≤ length xs
      → k < t_size rs
      → get_or (decode_syndromes rs.rscode 0 degree xs) k 0 ≡ get_or xs k 0
  zero-syndromes degree k xs room h =
      syndromes-cell v 0 degree k xs room h
      ∙ ap (add (get_or xs k 0)) (zero-mul rs.rscode.galois _)
      ∙ bit_xor-zero _

  module _ (packet syn : List ℕ) (degree r k : ℕ)
      (room : max_encoded_size rs.max_data_size * t_size rs ≤ length syn)
      (hr : r < max_encoded_size rs.max_data_size) (h : k < t_size rs) where
    abbrev step : ℕ → List ℕ → List ℕ
    step value = decode_syndromes rs.rscode value degree

    row_room : r * t_size rs + t_size rs ≤ length syn
    row_room = row-le (t_size rs) r (max_encoded_size rs.max_data_size) (length syn) hr room

    -- Row `r` when it receives a zero, or nothing.
    unchanged : get_or syn (r * t_size rs + k) 0 ≡ get_or (step 0 (drop (r * t_size rs) syn)) k 0
    unchanged = sym (
        zero-syndromes degree k (drop (r * t_size rs) syn)
          (omega (arith, length-drop (r * t_size rs) syn, row_room)) h
        ∙ get_or-drop (r * t_size rs) k syn)

    raw_cell :
        (short : length packet ≤ rs.max_data_size)
        → get_or
            (filled step
              (λ v'. decode_syndromes-IsLocal v v' degree)
              packet
              syn
              rs.max_data_size
              short
              room)
            (r * t_size rs + k)
            0
          ≡ get_or (step (payload packet r) (drop (r * t_size rs) syn)) k 0
    raw_cell short =
        let w = λ (b : ℕ). decode_syndromes-IsLocal v b degree in
        elim (dec_lt r (length packet + header_size)) [
          | yes inside ↦ filled-within step w packet syn rs.max_data_size short room r k h inside
          | no outside ↦
              filled-other step w packet syn rs.max_data_size short room r k h (omega arith)
              ∙ unchanged
              ∙ ap (λ b. get_or (step b (drop (r * t_size rs) syn)) k 0)
                  (sym (payload-past packet r (omega arith)))
        ]

    redundant_cell :
        length packet ≤ max_encoded_size rs.max_data_size
        → get_or
            (row_loop step (t_size rs) (λ i. get_or packet i 0) 0 (length packet) 0 syn)
            (r * t_size rs + k)
            0
          ≡ get_or (step (get_or packet r 0) (drop (r * t_size rs) syn)) k 0
    redundant_cell short =
        let w = λ (b : ℕ). decode_syndromes-IsLocal v b degree in
        let loop = row_loop step (t_size rs) (λ i. get_or packet i 0) 0 (length packet) 0 syn in
        let enough : (0 + length packet + 0) * t_size rs ≤ length syn = omega (
          arith,
          mul-le-mul_right {m = 0 + length packet + 0} {n = max_encoded_size rs.max_data_size}
              (t_size rs) (omega arith),
        ) in
        let same_row : r ≡ r + 0 = omega arith in
        elim (dec_lt r (length packet)) [
          | yes inside ↦
              ap (λ s. get_or loop (s * t_size rs + k) 0) same_row
              ∙ row_loop-within step w (λ i. get_or packet i 0) 0 (length packet) 0 r k syn h enough
                  (omega arith) (omega arith)
              ∙ ap (λ s. get_or (step (get_or packet r 0) (drop (s * t_size rs) syn)) k 0)
                  (sym same_row)
          | no outside ↦
              row_loop-other step w (λ i. get_or packet i 0) 0 (length packet) 0 r k syn h enough
                (inr (omega arith))
              ∙ unchanged
              ∙ ap (λ b. get_or (step b (drop (r * t_size rs) syn)) k 0)
                  (sym (get_or-past packet r (omega arith)))
        ]

  pub decode_rows-cell :
      (packet syn : List ℕ) (degree r k : ℕ)
      → length packet ≤ allowed_size rs degree
      → max_encoded_size rs.max_data_size * t_size rs ≤ length syn
      → r < max_encoded_size rs.max_data_size
      → k < t_size rs
      → get_or (decode_rows rs packet (length packet) degree syn) (r * t_size rs + k) 0
        ≡ get_or
            (decode_syndromes rs.rscode
              (arrival_byte (t_size rs) (record { degree = degree; bytes = packet }) r)
              degree
              (drop (r * t_size rs) syn))
            k
            0
  unfolding decode_rows arrival_byte
  decode_rows-cell packet syn degree r k short room hr h = elim (dec_lt degree (t_size rs)) [
    | yes redundant ↦
        let b : leb (t_size rs) degree ≡ false = ground arith in
        rw b (
          redundant_cell packet syn degree r k room hr h (
            subst
              (λ q.
                length packet ≤ (if q then rs.max_data_size else rs.max_data_size + header_size))
              b short))
    | no raw ↦
        let b : leb (t_size rs) degree ≡ true = ground arith in
        rw b (
          raw_cell packet syn degree r k room hr h (
            subst
              (λ q.
                length packet ≤ (if q then rs.max_data_size else rs.max_data_size + header_size))
              b short))
  ]

  pub length-decode_rows :
      (packet syn : List ℕ) (degree : ℕ)
      → length (decode_rows rs packet (length packet) degree syn) ≡ length syn
  unfolding decode_rows
  length-decode_rows packet syn degree = elim (dec_lt degree (t_size rs)) [
    | yes redundant ↦
        let b : leb (t_size rs) degree ≡ false = ground arith in
        rw b (length-row_loop step' w (λ i. get_or packet i 0) 0 (length packet) 0 syn)
    | no raw ↦
        let b : leb (t_size rs) degree ≡ true = ground arith in
        rw b (
          length-row_loop step' w (λ i. get_or packet i 0) header_size (length packet) 0
            (row_loop step' (t_size rs) (size_byte (length packet)) 0 header_size 0 syn)
          ∙ length-row_loop step' w (size_byte (length packet)) 0 header_size 0 syn)
  ]
    where
      step' : ℕ → List ℕ → List ℕ
      step' value = decode_syndromes rs.rscode value degree

      w : (b : ℕ) → IsLocal (t_size rs) (step' b)
      w b = decode_syndromes-IsLocal v b degree

-- The syndromes once the packets of the list have arrived, in this order.
unfoldable pub syndromes_after : Rs → List Arrival → List ℕ → List ℕ
syndromes_after rs [] syn = syn
syndromes_after rs (a ∷ xs) syn =
    syndromes_after rs xs (decode_rows rs a.bytes (length a.bytes) a.degree syn)

-- No packet is longer than `rs_decode` allows.
abbrev pub AllAllowed : Rs → List Arrival → Type 0
AllAllowed rs [] = Unit {0}
AllAllowed rs (a ∷ xs) = (length a.bytes ≤ allowed_size rs a.degree) × AllAllowed rs xs

-- The symbol of row `r`.
abbrev pub symbol : ℕ → ℕ → Arrival → Symbol
symbol T r a = record { degree = a.degree; value = arrival_byte T a r }

module _ {c : RsCode} {T : ℕ} (v : IsCode c T) where
  pub receive-congr :
      (ss : List Symbol) (xs ys : List ℕ)
      → T ≤ length xs
      → T ≤ length ys
      → ((k : ℕ) → k < T → get_or xs k 0 ≡ get_or ys k 0)
      → (k : ℕ) → k < T
      → get_or (receive c ss xs) k 0 ≡ get_or (receive c ss ys) k 0
  unfolding receive
  receive-congr [] xs ys hx hy same k h = same k h
  receive-congr (s ∷ ss) xs ys hx hy same k h =
      let w = decode_syndromes-IsLocal v s.value s.degree in
      receive-congr ss _ _ (omega (arith, w.same_length xs)) (omega (arith, w.same_length ys))
        (w.congr xs ys hx hy same) k h

module _ (rs : Rs) (v : IsCode rs.rscode (t_size rs)) where
  -- Each row of the syndromes is what the row's symbols leave.
  pub syndromes_after-cell :
      (xs : List Arrival) (syn : List ℕ) (r k : ℕ)
      → AllAllowed rs xs
      → max_encoded_size rs.max_data_size * t_size rs ≤ length syn
      → r < max_encoded_size rs.max_data_size
      → k < t_size rs
      → get_or (syndromes_after rs xs syn) (r * t_size rs + k) 0
        ≡ get_or (receive rs.rscode (map (symbol (t_size rs) r) xs) (drop (r * t_size rs) syn)) k 0
  unfolding syndromes_after receive
  syndromes_after-cell [] syn r k short room hr h = sym (get_or-drop (r * t_size rs) k syn)
  syndromes_after-cell (a ∷ xs) syn r k short room hr h =
      let byte = arrival_byte (t_size rs) a r in
      let w = decode_syndromes-IsLocal v byte a.degree in
      let next = decode_rows rs a.bytes (length a.bytes) a.degree syn in
      let next_length = length-decode_rows rs v a.bytes syn a.degree in
      let here = row-le (t_size rs) r (max_encoded_size rs.max_data_size) (length syn) hr room in
      syndromes_after-cell xs next r k short.1 (omega (arith, next_length)) hr h
      ∙ receive-congr v (map (symbol (t_size rs) r) xs) (drop (r * t_size rs) next)
          (decode_syndromes rs.rscode byte a.degree (drop (r * t_size rs) syn))
          (omega (arith, length-drop (r * t_size rs) next, next_length, here))
          (omega (
            arith,
            w.same_length (drop (r * t_size rs) syn),
            length-drop (r * t_size rs) syn,
            here,
          ))
          (λ j hj.
            get_or-drop (r * t_size rs) j next
            ∙ decode_rows-cell rs v a.bytes syn a.degree r j short.0 room hr hj)
          k h
