-- ===== src/Rs/Coder/Local.antt =====
-- `rscode_encode` and `rscode_decode_syndromes` read and write one row of `T` words.
use nettle.Prelude.{
  ℕ, zero, suc, ◌+◌, ◌-◌, ◌≤◌, ◌<◌, ◌≡◌, refl, sym, ap, ap₂, ◌∙◌, arith, List, get_or, length,
  length-set, get_or-set_self, get_or-set_ne,
}
use native.Mathlib.Decide.{ℕ_discrete}
use nettle.Rs.Galois.{add, mul}
use nettle.Rs.RsCode.{RsCode, encode, encode_loop, decode_syndromes, syndromes_loop, checks_num}
use nettle.Rs.RsCode.Encode
use nettle.Rs.RsCode.Encode.{length-encode_loop}
use nettle.Rs.RsCode.Syndromes
use nettle.Rs.RsCode.Syndromes.{length-decode_syndromes, update}
use nettle.Rs.RsCode.Generator.{IsCode}
use nettle.Rs.Coder.Rows.{IsLocal}

encode_loop-beyond :
    (c : RsCode) (T factor rounds i j : ℕ) (a : List ℕ)
    → i + rounds ≤ j
    → get_or (encode_loop c T factor rounds i a) j 0 ≡ get_or a j 0
unfolding encode_loop
encode_loop-beyond c T factor zero i j a h = refl
encode_loop-beyond c T factor (suc rounds) i j a h =
    encode_loop-beyond c T factor rounds (i + 1) j _ (omega arith)
    ∙ get_or-set_ne a i j _ 0 (omega arith)

syndromes_loop-beyond :
    (c : RsCode) (input degree rounds i j : ℕ) (a : List ℕ)
    → i + rounds ≤ j
    → get_or (syndromes_loop c input degree rounds i a) j 0 ≡ get_or a j 0
unfolding syndromes_loop
syndromes_loop-beyond c input degree zero i j a h = refl
syndromes_loop-beyond c input degree (suc rounds) i j a h =
    syndromes_loop-beyond c input degree rounds (i + 1) j _ (omega arith)
    ∙ get_or-set_ne a i j _ 0 (omega arith)

module _ {c : RsCode} {T : ℕ} (v : IsCode c T) where
  -- The cell of index `j` after one symbol, of the cells before it.
  encode_cell : ℕ → List ℕ → ℕ → ℕ
  encode_cell input a j =
      add (get_or a (j + 1) 0)
        (mul c.galois (get_or c.gen_poly (T - 1 - j) 0) (add input (get_or a 0 0)))

  encode-inner :
      (input j : ℕ) (a : List ℕ)
      → T ≤ length a
      → j < T - 1
      → get_or (encode c input a) j 0 ≡ encode_cell input a j
  unfolding encode encode_cell
  encode-inner input j a room h = rw v.checks (
      get_or-set_ne (encode_loop c T (add input (get_or a 0 0)) (T - 1) 0 a) (T - 1) j _ 0
        (omega arith)
      ∙ Encode.loop-within c T (add input (get_or a 0 0)) (T - 1) 0 j a (omega (arith, v.positive))
          (omega arith) (omega arith))

  encode-last :
      (input : ℕ) (a : List ℕ)
      → T ≤ length a
      → get_or (encode c input a) (T - 1) 0
        ≡ mul c.galois (get_or c.gen_poly 0 0) (add input (get_or a 0 0))
  unfolding encode
  encode-last input a room = rw v.checks (
      get_or-set_self (encode_loop c T (add input (get_or a 0 0)) (T - 1) 0 a) (T - 1) _ 0
        (omega (arith, length-encode_loop c T (add input (get_or a 0 0)) (T - 1) 0 a, v.positive)))

  pub encode-IsLocal : (input : ℕ) → IsLocal T (encode c input)
  unfolding encode encode_cell
  encode-IsLocal input = record {
    same_length = λ xs. length-set (encode_loop c _ _ _ 0 xs) _ _ ∙ length-encode_loop c _ _ _ 0 xs;
    beyond = λ xs k room h. rw v.checks (
        get_or-set_ne (encode_loop c T (add input (get_or xs 0 0)) (T - 1) 0 xs) (T - 1) k _ 0
          (omega (arith, v.positive))
        ∙ encode_loop-beyond c T (add input (get_or xs 0 0)) (T - 1) 0 k xs (omega arith));
    congr = λ xs ys rx ry same k h. elim (ℕ_discrete k (T - 1)) [
      | yes e ↦ rw e (
          encode-last input xs rx
          ∙ ap (λ n. mul c.galois (get_or c.gen_poly 0 0) (add input n)) (same 0 v.positive)
          ∙ sym (encode-last input ys ry))
      | no ne ↦
          encode-inner input k xs rx (omega arith)
          ∙ ap₂ (λ m n. add m (mul c.galois (get_or c.gen_poly (T - 1 - k) 0) (add input n)))
              (same (k + 1) (omega arith)) (same 0 v.positive)
          ∙ sym (encode-inner input k ys ry (omega arith))
    ];
  }

  pub syndromes-cell :
      (input degree j : ℕ) (a : List ℕ)
      → T ≤ length a
      → j < T
      → get_or (decode_syndromes c input degree a) j 0
        ≡ add (get_or a j 0) (update c input degree j)
  unfolding decode_syndromes
  syndromes-cell input degree j a room h =
      Syndromes.loop-within c input degree (checks_num c) 0 j a (omega (arith, v.checks))
        (omega arith) (omega (arith, v.checks))

  pub decode_syndromes-IsLocal : (input degree : ℕ) → IsLocal T (decode_syndromes c input degree)
  unfolding decode_syndromes
  decode_syndromes-IsLocal input degree = record {
    same_length = length-decode_syndromes c input degree;
    beyond = λ xs k room h.
        syndromes_loop-beyond c input degree (checks_num c) 0 k xs (omega (arith, v.checks));
    congr = λ xs ys rx ry same k h.
        syndromes-cell input degree k xs rx h
        ∙ ap (λ m. add m (update c input degree k)) (same k h)
        ∙ sym (syndromes-cell input degree k ys ry h);
  }
