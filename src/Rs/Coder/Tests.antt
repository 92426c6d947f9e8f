-- ===== src/Rs/Coder/Tests.antt =====
-- A block of two packets with one redundant packet, over the field of 256 elements.
use nettle.Prelude.{
  ℕ, zero, suc, ◌+◌, ◌≤◌, ◌<◌, ◌≡◌, ◌≢◌, none, ◌⊎◌, pos, negsuc, negative, true, false, ◌==◌,
  if◌then◌else◌, refl, arith, List, [], ◌∷◌, drop, get_or, replicate, some,
}
use mathlib.Core.List.Perm
use nettle.Rs.Galois
use nettle.Rs.Galois.{Galois, init256, element, add, mul}
use nettle.Rs.Galois.Poly.{poly_zero, zero_from, shift_add_scale, shift_loop}
use nettle.Rs.RsCode
use nettle.Rs.RsCode.{RsCode, gen_loop, encode_loop, decode_erasure}
use nettle.Rs.RsCode.Generator.{IsCode}
use nettle.Rs.Coder.Init.{rs_init-IsCode}
use nettle.Rs.Coder.{Rs, Ec, t_size, rs_init, reset_ec, reset_dc, at_offset, row_loop, is_complete}
use nettle.Rs.Coder.Send.{Encoded, encode, encode_rows, encode_result, build_redundant, build_loop}
use nettle.Rs.Coder.Arrival.{Arrival, arrival_byte, syndromes_after}
use nettle.Rs.Coder.Block.{block, sends, redundants}
use nettle.Rs.Coder.Refusal.{decode-refuses, encode-cases, decode-accepts}
use nettle.Rs.Coder.Defined.{decode-defined}
use nettle.Rs.Coder.{shift_one, bitmap256_set, bitmap256_isset}
use nettle.Rs.Coder.Receive.{Decoded, decode, decode_rows, accept, allowed_size, is_raw}
use nettle.Rs.Coder.Restore.{no_arrival, erased_byte-block}

abbrev coder : Rs
coder = rs_init 3 2 2 (replicate 256 0) (replicate 256 0) (replicate 255 0)

abbrev packets : List (List ℕ)
packets = (1 ∷ 2 ∷ []) ∷ (3 ∷ []) ∷ []

abbrev first : Arrival
first = record { degree = 2; bytes = 1 ∷ 2 ∷ [] }

abbrev second : Arrival
second = record { degree = 1; bytes = 3 ∷ [] }

abbrev redundant_one : Arrival
redundant_one = record { degree = 0; bytes = 10 ∷ 0 ∷ 0 ∷ 0 ∷ 2 ∷ 8 ∷ [] }

abbrev next_ec : Ec
next_ec = record { count = 1; checks = encode_rows coder (1 ∷ 2 ∷ []) 2 (reset_ec coder).checks }

block-packets : block coder packets (replicate 6 9) ≡ some (first ∷ second ∷ redundant_one ∷ [])
unfolding rs_init init256 Galois.init element mul poly_zero zero_from shift_add_scale shift_loop
    RsCode.init gen_loop RsCode.encode encode_loop reset_ec at_offset row_loop is_complete encode
    encode_rows encode_result build_redundant build_loop block sends redundants
block-packets = refl

rs_init-IsCode_example : IsCode coder.rscode (t_size coder) × (coder.rscode.galois.order ≡ 256)
rs_init-IsCode_example =
    rs_init-IsCode 3 2 2 (replicate 256 0) (replicate 256 0) (replicate 255 0) refl refl refl
      (omega arith) (omega arith)

coder_ready : IsCode coder.rscode (t_size coder) × (coder.rscode.galois.order ≡ 256)
coder_ready =
    rs_init-IsCode 3 2 2 (replicate 256 0) (replicate 256 0) (replicate 255 0) refl refl refl
      (omega arith) (omega arith)

first_degree : (j : ℕ) → j < 1 → get_or (2 ∷ []) j 0 ≡ (get_or (first ∷ []) j no_arrival).degree
first_degree zero h = refl
first_degree (suc j) h = absurd (omega arith)

-- The first packet is lost, and the others arrive.
erased_byte-block_example :
    decode_erasure coder.rscode
      (drop 4 (syndromes_after coder (second ∷ redundant_one ∷ []) (reset_dc coder).syndromes))
      (2 ∷ [])
      1
      0
    ≡ some (arrival_byte 1 first 4)
unfolding rs_init
erased_byte-block_example =
    erased_byte-block coder coder_ready.0 coder_ready.1 (omega arith) (omega arith) packets
      (replicate 6 9) (omega arith, (omega arith, tt))
      ((omega arith, (omega arith, tt)), ((omega arith, tt), tt)) refl (omega arith)
      (first ∷ second ∷ redundant_one ∷ []) (second ∷ redundant_one ∷ []) (first ∷ []) block-packets
      (Perm.trans (Perm.cons second (Perm.swap first redundant_one []))
        (Perm.swap first second (redundant_one ∷ [])))
      (omega arith, (omega arith, tt)) (omega arith) (2 ∷ []) first_degree 4 (omega arith) 0
      (omega arith)

abbrev refused : Decoded
refused = record { result = negsuc 0; dc = reset_dc coder; raw = false }

-- A size that is too large is refused.
decode-refuses_example : refused.dc ≡ reset_dc coder
unfolding rs_init decode
decode-refuses_example =
    decode-refuses coder (reset_dc coder) [] (pos 9) (pos 1) false refused refl refl

abbrev counted : Encoded
counted = record { result = pos 0; ec = next_ec; degree = 2 }

-- The first packet is counted.
encode-cases_example :
    ((negative counted.result ≡ true) × (counted.ec ≡ reset_ec coder) × (counted.degree ≡ 0))
    ⊎ ((counted.ec.count ≡ (reset_ec coder).count + 1)
        × (counted.ec.count ≤ coder.k)
        × (counted.result ≡ (if counted.ec.count == coder.k then pos (t_size coder) else pos 0)))
unfolding rs_init reset_ec encode is_complete
encode-cases_example = encode-cases coder (reset_ec coder) (1 ∷ 2 ∷ []) (pos 2) 0 counted refl

-- The second packet arrives first.
abbrev taken : Decoded
taken = record {
  result = pos 0;
  dc = record {
    count = 1;
    mask = 2 ∷ 0 ∷ 0 ∷ 0 ∷ [];
    syndromes = decode_rows coder (3 ∷ []) 1 1 (reset_dc coder).syndromes;
    erasure_degrees = 0 ∷ [];
    erasure_num = 0;
    raw_erasure_num = 0;
  };
  raw = true;
}

decode-accepts_example :
    (1 < coder.n)
    × (1 ≤ allowed_size coder 1)
    × (taken.dc.syndromes ≡ decode_rows coder (3 ∷ []) 1 1 (reset_dc coder).syndromes)
    × (taken.dc.count ≡ (reset_dc coder).count + 1)
    × (taken.dc.count ≤ coder.k)
    × (taken.raw ≡ is_raw coder 1)
unfolding rs_init reset_dc decode accept is_complete shift_one bitmap256_set bitmap256_isset
decode-accepts_example = decode-accepts coder (reset_dc coder) (3 ∷ []) 1 1 false taken refl refl

decode-defined_example : decode coder (reset_dc coder) (3 ∷ []) (pos 1) (pos 1) false ≢ none
unfolding rs_init reset_dc
decode-defined_example =
    decode-defined coder (reset_dc coder) (3 ∷ []) (pos 1) (pos 1) false (omega arith) (omega arith)
