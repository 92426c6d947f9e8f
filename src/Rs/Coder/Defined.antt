-- ===== src/Rs/Coder/Defined.antt =====
-- Where src/main/rs/rs.c stays within what C defines: coders of at most 31 packets, whose masks need no
-- shift into or past the sign bit.
use nettle.Prelude.{ℕ, zero, suc, ◌+◌, ◌%◌, ◌≤◌, ◌<◌, ◌≢◌, arith, ℤ, Bool, List, none, set}
use nettle.Rs.Coder.{Rs, Dc, is_complete, shift_one, bitmap256_set, bitmap256_isset}
use nettle.Rs.Coder.Receive.{decode, accept, list_erasures, erasures_from}

shift_one-defined : (key : ℕ) → key < 31 → shift_one (key % 64) ≢ none
unfolding shift_one
shift_one-defined key h e = ground arith

isset-defined : (mask : List ℕ) (key : ℕ) → key < 31 → bitmap256_isset mask key ≢ none
unfolding bitmap256_isset
isset-defined mask key h e = grind (arith, shift_one-defined)

set-defined : (mask : List ℕ) (key : ℕ) → key < 31 → bitmap256_set mask key ≢ none
unfolding bitmap256_set
set-defined mask key h e = grind (arith, shift_one-defined)

erasures_from-defined :
    (mask : List ℕ) (i low num : ℕ) (degrees : List ℕ)
    → i ≤ 31
    → erasures_from mask i low degrees num ≢ none
unfolding erasures_from
erasures_from-defined mask zero low num degrees h e = grind arith
erasures_from-defined mask (suc i) low num degrees h e =
    let missing = erasures_from-defined mask i low (num + 1) (set degrees num i) (omega arith) in
    let present = erasures_from-defined mask i low num degrees (omega arith) in
    let seen = isset-defined mask i (omega arith) in grind arith

list_erasures-defined :
    (rs : Rs) (dc : Dc) (raw : Bool) → rs.n ≤ 31 → list_erasures rs dc raw ≢ none
unfolding list_erasures
list_erasures-defined rs dc raw h e = grind (arith, erasures_from-defined)

accept-defined :
    (rs : Rs) (dc : Dc) (input : List ℕ) (size degree : ℕ)
    → rs.n ≤ 31
    → degree < rs.n
    → dc.count < rs.k
    → accept rs dc input size degree ≢ none
unfolding accept is_complete
accept-defined rs dc input size degree h l c e =
    let s = set-defined dc.mask degree (omega arith) in grind (arith, list_erasures-defined)

-- In a coder of at most 31 packets, with fewer than `K` packets counted, `rs_decode` returns for every
-- packet, size and degree: no `ensure` fails, and no shift is undefined.
pub decode-defined :
    (rs : Rs) (dc : Dc) (input : List ℕ) (size degree : ℤ) (raw : Bool)
    → rs.n ≤ 31
    → dc.count < rs.k
    → decode rs dc input size degree raw ≢ none
unfolding decode
decode-defined rs dc input size degree raw h c e = grind (arith, accept-defined, isset-defined)
