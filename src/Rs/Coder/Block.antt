-- ===== src/Rs/Coder/Block.antt =====
-- A block of packets, as `rs_encode` and `rs_encode_result` send it: each row is a code word.
use nettle.Prelude.{
  ℕ, zero, suc, ◌+◌, ◌-◌, ◌*◌, ◌%◌, ◌≤◌, ◌<◌, ◌≡◌, refl, sym, ap, ap₂, subst, ◌∙◌, arith, pos, List,
  [], ◌∷◌, ◌++◌, map, take, drop, get_or, length, replicate, length-replicate, get_or-replicate,
  Option, none, some, true, leb,
}
use mathlib.Core.List.{map-append}
use native.Mathlib.Decide.{dec_lt}
use native.Mathlib.Nat.{mod-eq_of_lt}
use nettle.Rs.RsCode.Generator.{IsCode}
use nettle.Rs.RsCode.Encode.{remainder}
use nettle.Rs.RsCode.Symbols.{encode_all}
use nettle.Rs.RsCode.Codeword.{codeword, data_symbols, check_symbols, AllBelow}
use nettle.Rs.Coder.{Rs, Ec, t_size, header_size, max_encoded_size, reset_ec}
use nettle.Rs.Coder.Send.{encode, encode_rows, encode_result}
use nettle.Rs.Coder.Receive.{rounds_to}
use nettle.Rs.Coder.Payload.{payload, payload-head, payload-tail}
use nettle.Rs.Coder.Sender.{
  AllShort, column, encode-accepts, checks_after, checks_after-cell, encode_all-congr,
}
use nettle.Rs.Coder.Arrival.{Arrival, arrival_byte, symbol}
use nettle.Rs.RsCode.RoundTrip.{encode_all-lt}
use nettle.Rs.Coder.Rows.{get_or-drop, length-drop, row-le}
use nettle.Rs.Coder.Build.{built, get_or-built}

-- The packets that one `rs_encode` each sends, and the state after them.
unfoldable pub sends : Rs → List (List ℕ) → Ec → Option (List Arrival × Ec)
sends rs [] ec = some ([], ec)
sends rs (p ∷ ps) ec = elim (encode rs ec p (pos (length p)) 0) [
  | none ↦ none
  | some e ↦ elim (sends rs ps e.ec) [
    | none ↦ none
    | some r ↦ some (record { degree = e.degree; bytes = p } ∷ r.0, r.1)
  ]
]

-- The packet of one `rs_encode_result`, in a buffer of the caller's.
abbrev pub redundant : Rs → Ec → List ℕ → ℕ → Arrival
redundant rs ec buffer index =
    let p = encode_result rs ec (pos index) buffer (pos (length buffer)) 0 in
    record { degree = p.degree; bytes = take (rounds_to p.size) p.buffer }

-- The last `n` of them.
unfoldable pub redundants : Rs → Ec → List ℕ → ℕ → List Arrival
redundants rs ec buffer zero = []
redundants rs ec buffer (suc n) =
    redundant rs ec buffer (t_size rs - 1 - n) ∷ redundants rs ec buffer n

-- All packets of a block.
unfoldable pub block : Rs → List (List ℕ) → List ℕ → Option (List Arrival)
block rs ps buffer = elim (sends rs ps (reset_ec rs)) [
  | none ↦ none
  | some r ↦ some (r.0 ++ redundants rs r.1 buffer (t_size rs))
]

-- The packets of data with their degrees.
data_arrivals : ℕ → List (List ℕ) → List Arrival
data_arrivals T [] = []
data_arrivals T (p ∷ ps) = record { degree = T + length ps; bytes = p } ∷ data_arrivals T ps

sends-data_arrivals :
    (rs : Rs) (ps : List (List ℕ)) (ec : Ec)
    → AllShort rs.max_data_size ps
    → ec.count + length ps ≡ rs.k
    → rs.k ≤ rs.n
    → sends rs ps ec
      ≡ some (
        data_arrivals (t_size rs) ps,
        record { count = rs.k; checks = checks_after rs ps ec.checks },
      )
unfolding sends data_arrivals checks_after
sends-data_arrivals rs [] ec short full le =
    ap (λ n. some ([], record { count = n; checks = ec.checks })) {x = ec.count} {y = rs.k}
      (omega arith)
sends-data_arrivals rs (p ∷ ps) ec short full le =
    rw
      (
        sends,
        encode-accepts rs ec p 0 short.0 (omega arith),
        sends-data_arrivals rs ps
            (record { count = ec.count + 1; checks = encode_rows rs p (length p) ec.checks })
            short.1 (omega arith) le,
      )
      (ap
        (λ n. some (
          record { degree = n; bytes = p } ∷ data_arrivals (t_size rs) ps,
          record {
            count = rs.k;
            checks = checks_after rs ps (encode_rows rs p (length p) ec.checks);
          },
        ))
        {x = rs.n - 1 - ec.count} {y = t_size rs + length ps} (omega arith))

pub length-column : (r : ℕ) (ps : List (List ℕ)) → length (column r ps) ≡ length ps
length-column r [] = refl
length-column r (p ∷ ps) = ap suc (length-column r ps)

data-symbols :
    (T r : ℕ) (ps : List (List ℕ))
    → map (symbol T r) (data_arrivals T ps) ≡ data_symbols T (column r ps)
unfolding data_arrivals data_symbols arrival_byte
data-symbols T r [] = refl
data-symbols T r (p ∷ ps) =
    let raw : leb T (T + length ps) ≡ true = ground arith in
    let count : length (column r ps) ≡ length ps = length-column r ps in
    rw (raw, count)
      (ap (◌∷◌ (record { degree = T + length ps; value = payload p r })) (data-symbols T r ps))

module _ (rs : Rs) (ec : Ec) (buffer : List ℕ)
    (room : max_encoded_size rs.max_data_size ≤ length buffer) where
  redundant-built :
      (index : ℕ)
      → index < t_size rs
      → redundant rs ec buffer index ≡ record {
        degree = t_size rs - 1 - index;
        bytes = built ec.checks (t_size rs) index buffer (max_encoded_size rs.max_data_size);
      }
  unfolding encode_result
  redundant-built index h = ground arith

-- What the redundant packets are, of checks that are bytes.
module _ (rs : Rs) (ec : Ec) (buffer : List ℕ) (r : ℕ) (cells : List ℕ)
    (room : max_encoded_size rs.max_data_size ≤ length buffer)
    (hr : r < max_encoded_size rs.max_data_size)
    (cell : (k : ℕ) → k < t_size rs → get_or ec.checks (r * t_size rs + k) 0 ≡ get_or cells k 0)
    (bytes : (k : ℕ) → k < t_size rs → get_or cells k 0 < 256) where
  small_degree :
      (sent : List ℕ) (n : ℕ)
      → n < t_size rs
      → arrival_byte (t_size rs) (record { degree = n; bytes = sent }) r ≡ get_or sent r 0
  unfolding arrival_byte
  small_degree sent n h = ground arith

  redundant-symbols :
      (n : ℕ)
      → n ≤ t_size rs
      → map (symbol (t_size rs) r) (redundants rs ec buffer n) ≡ check_symbols (t_size rs) cells n
  unfolding redundants check_symbols
  redundant-symbols zero h = refl
  redundant-symbols (suc n) h = ap₂ (λ s ss. s ∷ ss) one (redundant-symbols n (omega arith))
    where
      one :
          symbol (t_size rs) r (redundant rs ec buffer (t_size rs - 1 - n))
          ≡ record { degree = n; value = remainder (t_size rs) cells n }
      one =
          let index = t_size rs - 1 - n in
          let sent = built ec.checks (t_size rs) index buffer (max_encoded_size rs.max_data_size) in
          let back : t_size rs - 1 - index ≡ n = omega arith in
          ap (symbol (t_size rs) r) (redundant-built rs ec buffer room index (omega arith))
          ∙ ap (λ d. symbol (t_size rs) r (record { degree = d; bytes = sent })) back
          ∙ ap (λ b. record { degree = n; value = b })
              (small_degree sent n (omega arith)
                ∙ get_or-built ec.checks (t_size rs) index buffer
                    (max_encoded_size rs.max_data_size) r room hr
                ∙ ap (λ b. b % 256) (cell index (omega arith))
                ∙ mod-eq_of_lt (bytes index (omega arith)))

-- The bytes of a packet's column.
abbrev pub AllBytes : List (List ℕ) → Type 0
AllBytes [] = Unit {0}
AllBytes (p ∷ ps) = AllBelow 256 p × AllBytes ps

get_or-AllBelow : (n : ℕ) (xs : List ℕ) (i : ℕ) → 0 < n → AllBelow n xs → get_or xs i 0 < n
get_or-AllBelow n [] i h b = h
get_or-AllBelow n (x ∷ xs) zero h b = b.0
get_or-AllBelow n (x ∷ xs) (suc i) h b = get_or-AllBelow n xs i h b.1

payload-lt : (p : List ℕ) (r : ℕ) → AllBelow 256 p → payload p r < 256
payload-lt p r b = elim (dec_lt r header_size) [
  | yes head ↦ rw (payload-head p r head) (omega arith)
  | no tail ↦
      rw (payload-tail p r (omega arith)) (get_or-AllBelow 256 p (r - header_size) (omega arith) b)
]

pub column-AllBelow : (r : ℕ) (ps : List (List ℕ)) → AllBytes ps → AllBelow 256 (column r ps)
column-AllBelow r [] b = tt
column-AllBelow r (p ∷ ps) b = (payload-lt p r b.0, column-AllBelow r ps b.1)

-- The packets of the block.
pub block_packets : Rs → List (List ℕ) → List ℕ → List Arrival
block_packets rs ps buffer =
    data_arrivals (t_size rs) ps
    ++ redundants rs (record { count = rs.k; checks = checks_after rs ps (reset_ec rs).checks })
        buffer (t_size rs)

pub block-sends :
    (rs : Rs) (ps : List (List ℕ)) (buffer : List ℕ)
    → AllShort rs.max_data_size ps
    → length ps ≡ rs.k
    → rs.k ≤ rs.n
    → block rs ps buffer ≡ some (block_packets rs ps buffer)
unfolding block block_packets reset_ec
block-sends rs ps buffer short full le =
    rw (block, sends-data_arrivals rs ps (reset_ec rs) short (omega (arith, full)) le) refl

module _ (rs : Rs) (v : IsCode rs.rscode (t_size rs)) where
  reset-cell : (r k : ℕ) → get_or (drop (r * t_size rs) (reset_ec rs).checks) k 0 ≡ 0
  unfolding reset_ec
  reset-cell r k =
      get_or-drop (r * t_size rs) k (replicate (max_encoded_size rs.max_data_size * t_size rs) 0)
      ∙ get_or-replicate {A = ℕ} (max_encoded_size rs.max_data_size * t_size rs) (r * t_size rs + k)
          0

  length-reset : length (reset_ec rs).checks ≡ max_encoded_size rs.max_data_size * t_size rs
  unfolding reset_ec
  length-reset = length-replicate {A = ℕ} (max_encoded_size rs.max_data_size * t_size rs) 0

  -- The bytes of each row of the packets of a block are a code word.
  pub block_packets-codeword :
      (ps : List (List ℕ)) (buffer : List ℕ)
      → rs.rscode.galois.order ≡ 256
      → AllShort rs.max_data_size ps
      → AllBytes ps
      → max_encoded_size rs.max_data_size ≤ length buffer
      → (r : ℕ) → r < max_encoded_size rs.max_data_size
      → map (symbol (t_size rs) r) (block_packets rs ps buffer)
        ≡ codeword rs.rscode (t_size rs) (column r ps)
  unfolding block_packets codeword
  block_packets-codeword ps buffer o short bytes room r hr =
      let T = t_size rs in
      let ec : Ec = record { count = rs.k; checks = checks_after rs ps (reset_ec rs).checks } in
      let below : AllBelow rs.rscode.galois.order (column r ps) =
        subst (λ q. AllBelow q (column r ps)) (sym o) (column-AllBelow r ps bytes) in
      let here =
        row-le T r (max_encoded_size rs.max_data_size) (length (reset_ec rs).checks) hr
          (omega (arith, length-reset)) in
      map-append (symbol T r) (data_arrivals T ps) (redundants rs ec buffer T)
      ∙ ap₂ (λ a b. a ++ b) (data-symbols T r ps)
          (redundant-symbols rs ec buffer r (encode_all rs.rscode (column r ps) (replicate T 0))
            room hr
            (λ k hk.
              checks_after-cell rs v ps (reset_ec rs).checks r k short (omega (arith, length-reset))
                hr hk
              ∙ encode_all-congr v (column r ps) (drop (r * T) (reset_ec rs).checks) (replicate T 0)
                  (omega (arith, length-drop (r * T) (reset_ec rs).checks, here))
                  (omega (arith, length-replicate {A = ℕ} T 0))
                  (λ j hj. reset-cell r j ∙ sym (get_or-replicate {A = ℕ} T j 0)) k hk)
            (λ k hk. omega (arith, encode_all-lt rs.rscode T v (column r ps) below k hk, o)) T
            (omega arith))
