-- ===== src/Rs/Coder/Sender.antt =====
-- A whole block through `rs_encode`: the checks of each row are those of the row's code word.
use nettle.Prelude.{
  ℕ, suc, ◌+◌, ◌-◌, ◌*◌, ◌≤◌, ◌<◌, ◌≡◌, refl, sym, ap, ◌∙◌, arith, pos, List, [], ◌∷◌, map, drop,
  get_or, length, Option, none, some, if◌then◌else◌, ◌==◌,
}
use nettle.Rs.RsCode
use nettle.Rs.RsCode.{RsCode}
use nettle.Rs.RsCode.Generator.{IsCode}
use nettle.Rs.RsCode.Symbols.{encode_all}
use nettle.Rs.Coder.{Rs, Ec, t_size, max_encoded_size, is_complete}
use nettle.Rs.Coder.Rows.{get_or-drop, length-drop, row-le}
use nettle.Rs.Coder.Local.{encode-IsLocal}
use nettle.Rs.Coder.Payload.{payload, encode_rows-cell, length-encode_rows}
use nettle.Rs.Coder.Send.{encode, encode_rows}

-- One `rs_encode` for each packet of the list.
unfoldable pub send : Rs → List (List ℕ) → Ec → Option Ec
send rs [] ec = some ec
send rs (p ∷ ps) ec = elim (encode rs ec p (pos (length p)) 0) [
  | none ↦ none
  | some e ↦ send rs ps e.ec
]

-- No packet is longer than `m` bytes.
abbrev pub AllShort : ℕ → List (List ℕ) → Type 0
AllShort m [] = Unit {0}
AllShort m (p ∷ ps) = (length p ≤ m) × AllShort m ps

-- The checks after the packets of the list.
unfoldable pub checks_after : Rs → List (List ℕ) → List ℕ → List ℕ
checks_after rs [] checks = checks
checks_after rs (p ∷ ps) checks = checks_after rs ps (encode_rows rs p (length p) checks)

abbrev pub column : ℕ → List (List ℕ) → List ℕ
column r ps = map (λ p. payload p r) ps

-- `rs_encode` of a packet that fits, in a block that is not full: the block's size is returned with
-- its last packet, and 0 before.
pub encode-accepts :
    (rs : Rs) (ec : Ec) (packet : List ℕ) (degree : ℕ)
    → length packet ≤ rs.max_data_size
    → ec.count < rs.k
    → encode rs ec packet (pos (length packet)) degree
      ≡ some (record {
        result = if ec.count + 1 == rs.k then pos (t_size rs) else pos 0;
        ec = record {
          count = ec.count + 1;
          checks = encode_rows rs packet (length packet) ec.checks;
        };
        degree = rs.n - 1 - ec.count;
      })
unfolding encode is_complete
encode-accepts rs ec packet degree short room = ground arith

module _ {c : RsCode} {T : ℕ} (v : IsCode c T) where
  pub encode_all-congr :
      (ms xs ys : List ℕ)
      → T ≤ length xs
      → T ≤ length ys
      → ((k : ℕ) → k < T → get_or xs k 0 ≡ get_or ys k 0)
      → (k : ℕ) → k < T
      → get_or (encode_all c ms xs) k 0 ≡ get_or (encode_all c ms ys) k 0
  unfolding encode_all
  encode_all-congr [] xs ys hx hy same k h = same k h
  encode_all-congr (m ∷ ms) xs ys hx hy same k h =
      let w = encode-IsLocal v m in
      encode_all-congr ms _ _ (omega (arith, w.same_length xs)) (omega (arith, w.same_length ys))
        (w.congr xs ys hx hy same) k h

module _ (rs : Rs) (v : IsCode rs.rscode (t_size rs)) where
  pub length-checks_after :
      (ps : List (List ℕ)) (checks : List ℕ)
      → AllShort rs.max_data_size ps
      → max_encoded_size rs.max_data_size * t_size rs ≤ length checks
      → length (checks_after rs ps checks) ≡ length checks
  unfolding checks_after
  length-checks_after [] checks short room = refl
  length-checks_after (p ∷ ps) checks short room =
      let l = length-encode_rows rs v p checks short.0 room in
      length-checks_after ps _ short.1 (omega (arith, l)) ∙ l

  -- A block of at most `K` packets, none longer than allowed, is encoded, and is counted.
  pub send-checks_after :
      (ps : List (List ℕ)) (ec : Ec)
      → AllShort rs.max_data_size ps
      → ec.count + length ps ≤ rs.k
      → send rs ps ec
        ≡ some (record { count = ec.count + length ps; checks = checks_after rs ps ec.checks })
  unfolding send checks_after
  send-checks_after [] ec short full =
      ap (λ n. some (record { count = n; checks = ec.checks })) {x = ec.count} {y = ec.count + 0}
        (omega arith)
  send-checks_after (p ∷ ps) ec short full =
      rw (send, encode-accepts rs ec p 0 short.0 (omega arith))
        (send-checks_after ps
            (record { count = ec.count + 1; checks = encode_rows rs p (length p) ec.checks })
            short.1 (omega arith)
          ∙ ap
              (λ n. some (record {
                count = n;
                checks = checks_after rs ps (encode_rows rs p (length p) ec.checks);
              }))
              {x = ec.count + 1 + length ps} {y = ec.count + suc (length ps)} (omega arith))

  pub checks_after-cell :
      (ps : List (List ℕ)) (checks : List ℕ) (r k : ℕ)
      → AllShort rs.max_data_size ps
      → max_encoded_size rs.max_data_size * t_size rs ≤ length checks
      → r < max_encoded_size rs.max_data_size
      → k < t_size rs
      → get_or (checks_after rs ps checks) (r * t_size rs + k) 0
        ≡ get_or (encode_all rs.rscode (column r ps) (drop (r * t_size rs) checks)) k 0
  unfolding checks_after encode_all
  checks_after-cell [] checks r k short room hr h = sym (get_or-drop (r * t_size rs) k checks)
  checks_after-cell (p ∷ ps) checks r k short room hr h =
      let w = encode-IsLocal v (payload p r) in
      let next = encode_rows rs p (length p) checks in
      let next_length = length-encode_rows rs v p checks short.0 room in
      let here = row-le (t_size rs) r (max_encoded_size rs.max_data_size) (length checks) hr room in
      checks_after-cell ps next r k short.1 (omega (arith, next_length)) hr h
      ∙ encode_all-congr v (column r ps) (drop (r * t_size rs) next)
          (RsCode.encode rs.rscode (payload p r) (drop (r * t_size rs) checks))
          (omega (arith, length-drop (r * t_size rs) next, next_length, here))
          (omega (
            arith,
            w.same_length (drop (r * t_size rs) checks),
            length-drop (r * t_size rs) checks,
            here,
          ))
          (λ j hj.
            get_or-drop (r * t_size rs) j next
            ∙ encode_rows-cell rs v p checks r j short.0 room hr hj)
          k h
