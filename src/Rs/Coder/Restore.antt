-- ===== src/Rs/Coder/Restore.antt =====
-- What a block of packets is restored from: any of its packets, as many as are left once at most
-- `N - K` are lost, whatever their order.
use nettle.Prelude.{
  ℕ, zero, suc, ◌+◌, ◌*◌, ◌≤◌, ◌<◌, ◌≡◌, refl, sym, ap, subst, ◌∙◌, arith, List, [], ◌∷◌, ◌++◌, map,
  drop, get_or, length, replicate, length-replicate, get_or-replicate, some,
}
use mathlib.Core.List.{map-append, Perm}
use mathlib.Core.List.Perm
use mathlib.Core.Option.{some-injective}
use nettle.Rs.RsCode.{decode_erasure}
use nettle.Rs.RsCode.Generator.{IsCode}
use nettle.Rs.RsCode.Symbols.{Symbol, no_symbol, receive}
use nettle.Rs.RsCode.Codeword.{codeword, AllBelow}
use nettle.Rs.RsCode.RoundTrip.{decode_erasure-agrees}
use nettle.Rs.Coder.{Rs, t_size, max_encoded_size, reset_dc}
use nettle.Rs.Coder.Rows.{get_or-drop, length-drop, row-le}
use nettle.Rs.Coder.Sender.{AllShort, column}
use nettle.Rs.Coder.Arrival.{
  Arrival, arrival_byte, symbol, syndromes_after, AllAllowed, syndromes_after-cell, receive-congr,
}
use nettle.Rs.Coder.Block.{
  block, block_packets, block-sends, block_packets-codeword, AllBytes, column-AllBelow,
  length-column,
}

abbrev pub no_arrival : Arrival
no_arrival = record { degree = 0; bytes = [] }

get_or-map :
    (T r : ℕ) (xs : List Arrival) (i : ℕ)
    → i < length xs
    → get_or (map (symbol T r) xs) i no_symbol ≡ symbol T r (get_or xs i no_arrival)
get_or-map T r [] i h = absurd (omega arith)
get_or-map T r (x ∷ xs) zero h = refl
get_or-map T r (x ∷ xs) (suc i) h = get_or-map T r xs i (omega arith)

length-map : (T r : ℕ) (xs : List Arrival) → length (map (symbol T r) xs) ≡ length xs
length-map T r [] = refl
length-map T r (x ∷ xs) = ap suc (length-map T r xs)

module _ (rs : Rs) (v : IsCode rs.rscode (t_size rs)) where
  cleared-cell : (r k : ℕ) → get_or (drop (r * t_size rs) (reset_dc rs).syndromes) k 0 ≡ 0
  unfolding reset_dc
  cleared-cell r k =
      get_or-drop (r * t_size rs) k (replicate (max_encoded_size rs.max_data_size * t_size rs) 0)
      ∙ get_or-replicate {A = ℕ} (max_encoded_size rs.max_data_size * t_size rs) (r * t_size rs + k)
          0

  length-cleared : length (reset_dc rs).syndromes ≡ max_encoded_size rs.max_data_size * t_size rs
  unfolding reset_dc
  length-cleared = length-replicate {A = ℕ} (max_encoded_size rs.max_data_size * t_size rs) 0

  -- The syndromes of a row, after some packets of a block.
  row-received :
      (received : List Arrival) (r k : ℕ)
      → AllAllowed rs received
      → r < max_encoded_size rs.max_data_size
      → k < t_size rs
      → get_or (drop (r * t_size rs) (syndromes_after rs received (reset_dc rs).syndromes)) k 0
        ≡ get_or
            (receive rs.rscode (map (symbol (t_size rs) r) received) (replicate (t_size rs) 0))
            k
            0
  row-received received r k allowed hr hk =
      let T = t_size rs in
      let cleared = (reset_dc rs).syndromes in
      let here =
        row-le T r (max_encoded_size rs.max_data_size) (length cleared) hr
          (omega (arith, length-cleared)) in
      get_or-drop (r * T) k (syndromes_after rs received cleared)
      ∙ syndromes_after-cell rs v received cleared r k allowed (omega (arith, length-cleared)) hr hk
      ∙ receive-congr v (map (symbol T r) received) (drop (r * T) cleared) (replicate T 0)
          (omega (arith, length-drop (r * T) cleared, here))
          (omega (arith, length-replicate {A = ℕ} T 0))
          (λ j hj. cleared-cell r j ∙ sym (get_or-replicate {A = ℕ} T j 0)) k hk

-- The coder's code has `N - K` checks over bytes, and `N` is at most 255. When a block of `K` packets
-- of data is sent, each of bytes and none longer than allowed, with room in the buffer for the
-- redundant ones, and the packets received, none longer than allowed, and the erased ones, at most
-- `N - K`, make up the block in any order, then `rscode_decode_erasure` on any row of the syndromes
-- after the received ones and the erased degrees returns the byte of the erased packet in that row.
pub erased_byte-block :
    (rs : Rs)
    → IsCode rs.rscode (t_size rs)
    → rs.rscode.galois.order ≡ 256
    → rs.k ≤ rs.n
    → rs.n < 256
    → (ps : List (List ℕ)) (buffer : List ℕ) → AllShort rs.max_data_size ps
    → AllBytes ps
    → length ps ≡ rs.k
    → max_encoded_size rs.max_data_size ≤ length buffer
    → (sent received erased : List Arrival) → block rs ps buffer ≡ some sent
    → Perm (received ++ erased) sent
    → AllAllowed rs received
    → length erased ≤ t_size rs
    → (degs : List ℕ)
    → ((j : ℕ) → j < length erased → get_or degs j 0 ≡ (get_or erased j no_arrival).degree)
    → (r : ℕ) → r < max_encoded_size rs.max_data_size
    → (i : ℕ) → i < length erased
    → decode_erasure rs.rscode
        (drop (r * t_size rs) (syndromes_after rs received (reset_dc rs).syndromes))
        degs
        (length erased)
        i
      ≡ some (arrival_byte (t_size rs) (get_or erased i no_arrival) r)
erased_byte-block rs v o le small ps buffer short bytes full room sent received erased e p allowed
      few degs d r hr i h =
    let T = t_size rs in
    let count = length-map T r erased in
    let same : block_packets rs ps buffer ≡ sent =
      some-injective _ _ (sym (block-sends rs ps buffer short full le) ∙ e) in
    let row : Perm (map (symbol T r) received ++ map (symbol T r) erased)
        (codeword rs.rscode T (column r ps)) =
      subst (λ q. Perm q (codeword rs.rscode T (column r ps)))
        (map-append (symbol T r) received erased)
        (subst (λ q. Perm (map (symbol T r) (received ++ erased)) q)
          (ap (map (symbol T r)) (sym same)
            ∙ block_packets-codeword rs v ps buffer o short bytes room r hr)
          (Perm.map (symbol T r) p)) in
    ap
      (λ n.
        decode_erasure rs.rscode
          (drop (r * T) (syndromes_after rs received (reset_dc rs).syndromes)) degs n i)
      (sym count)
    ∙ decode_erasure-agrees rs.rscode T v (column r ps)
        (subst (λ q. AllBelow q (column r ps)) (sym o) (column-AllBelow r ps bytes))
        (omega (arith, o, length-column r ps)) (map (symbol T r) received) (map (symbol T r) erased)
        row (omega (arith, count)) degs
        (drop (r * T) (syndromes_after rs received (reset_dc rs).syndromes))
        (λ j hj.
          d j (omega (arith, count))
          ∙ ap (λ (s : Symbol). s.degree) (sym (get_or-map T r erased j (omega (arith, count)))))
        (λ k hk. row-received rs v received r k allowed hr hk) i (omega (arith, count))
    ∙ ap (λ (s : Symbol). some s.value) (get_or-map T r erased i h)
