-- ===== src/Utils/Bitmap/Keys.antt =====
-- The bitmap of src/main/utils/bitmap.c as a set of keys.
use nettle.Prelude.{
  get_or-set, all_below, all_below_sound, ℕ, ◌+◌, ◌*◌, ◌/◌, ◌%◌, ◌≤◌, ◌<◌, ◌≡◌, refl, ◌∙◌, arith,
  Bool, true, false, ◌&&◌, not, get_or, set, length, length-set, length-replicate, get_or-replicate,
  leb, ltb, ◌==◌, if◌then◌else◌,
}
use nettle.Utils.Bitmap.{
  Bitmap, make_bitmap, set_bit, clear_bit, has_bit, bitmap_set, bitmap_unset, bitmap_isset,
}

same : Bool → Bool → Bool
same true b = b
same false b = not b

same_sound : (a b : Bool) → same a b ≡ true → a ≡ b
unfolding same
same_sound true true h = refl
same_sound true false h = cc
same_sound false true h = cc
same_sound false false h = refl

and_left : (a b : Bool) → (a && b) ≡ true → a ≡ true
and_left true b h = refl
and_left false b h = h

and_right : (a b : Bool) → (a && b) ≡ true → b ≡ true
and_right true b h = h
and_right false b h = cc

-- What a byte with a bit set or cleared has at each bit, for one byte and two bits.
bit_test : ℕ → ℕ → ℕ → Bool
bit_test b m k =
    same (has_bit (set_bit b m) k) (if k == m then true else has_bit b k)
    && (same (has_bit (clear_bit b m) k) (if k == m then false else has_bit b k)
        && (ltb (set_bit b m) 256 && ltb (clear_bit b m) 256))

bit_table : all_below 256 (λ b. all_below 8 (λ m. all_below 8 (λ k. bit_test b m k))) ≡ true
unfolding all_below bit_test same set_bit clear_bit has_bit
bit_table = refl

bit_test-true : (b m k : ℕ) → b < 256 → m < 8 → k < 8 → bit_test b m k ≡ true
bit_test-true b m k hb hm hk =
    all_below_sound 8 (λ k. bit_test b m k) k
      (all_below_sound 8 (λ m. all_below 8 (λ k. bit_test b m k)) m
        (all_below_sound 256 (λ b. all_below 8 (λ m. all_below 8 (λ k. bit_test b m k))) b bit_table
          hb)
        hm)
      hk

module _ (b m k : ℕ) (hb : b < 256) (hm : m < 8) (hk : k < 8) where
  set_bit-has : has_bit (set_bit b m) k ≡ (if k == m then true else has_bit b k)
  unfolding bit_test
  set_bit-has = same_sound _ _ (and_left _ _ (bit_test-true b m k hb hm hk))

  clear_bit-has : has_bit (clear_bit b m) k ≡ (if k == m then false else has_bit b k)
  unfolding bit_test
  clear_bit-has = same_sound _ _ (and_left _ _ (and_right _ _ (bit_test-true b m k hb hm hk)))

module _ (b m : ℕ) (hb : b < 256) (hm : m < 8) where
  set_bit-lt : set_bit b m < 256
  unfolding bit_test
  set_bit-lt = ground (arith, bit_test-true b m 0 hb hm (omega arith))

  clear_bit-lt : clear_bit b m < 256
  unfolding bit_test
  clear_bit-lt = ground (arith, bit_test-true b m 0 hb hm (omega arith))

pub record IsBitmap (bitmap : Bitmap) : Type 0 where
  pub enough : bitmap.size ≤ 8 * bitmap.n_bytes
  pub room : length bitmap.buffer ≡ bitmap.n_bytes
  pub bytes : (i : ℕ) → get_or bitmap.buffer i 0 < 256

pub make_bitmap-IsBitmap : (size : ℕ) → IsBitmap (make_bitmap size)
unfolding make_bitmap
make_bitmap-IsBitmap size = record {
  enough = omega arith;
  room = length-replicate {A = ℕ} ((size + 7) / 8) 0;
  bytes = λ i. omega (arith, get_or-replicate {A = ℕ} ((size + 7) / 8) i 0);
}

-- The byte of a key after the byte of another key is written.
module _ (bitmap : Bitmap) (w : IsBitmap bitmap) (key : ℕ) (h : key < bitmap.size) where
  at_byte : key / 8 < length bitmap.buffer
  at_byte = omega (arith, w.enough, w.room)

  -- Setting a key of the bitmap succeeds, and then the keys set are those of before and the key; clearing it succeeds,
  -- and then they are those of before without the key.
  pub isset-set :
      (k : ℕ)
      → ((bitmap_set bitmap key).1 ≡ true)
        × (bitmap_isset (bitmap_set bitmap key).0 k
            ≡ (if k == key then true else bitmap_isset bitmap k))
        × ((bitmap_unset bitmap key).1 ≡ true)
        × (bitmap_isset (bitmap_unset bitmap key).0 k
            ≡ (if k == key then false else bitmap_isset bitmap k))
  unfolding bitmap_set bitmap_unset bitmap_isset
  isset-set k =
      let inside : leb bitmap.size key ≡ false = ground arith in
      let b = get_or bitmap.buffer (key / 8) 0 in
      let hb = w.bytes (key / 8) in
      (
        rw inside refl,
        rw inside (
            ground (
              arith,
              get_or-set bitmap.buffer (key / 8) (k / 8) (set_bit b (key % 8)) 0 at_byte,
              set_bit-has b (key % 8) (k % 8) hb (omega arith) (omega arith),
            )),
        rw inside refl,
        rw inside (
            ground (
              arith,
              get_or-set bitmap.buffer (key / 8) (k / 8) (clear_bit b (key % 8)) 0 at_byte,
              clear_bit-has b (key % 8) (k % 8) hb (omega arith) (omega arith),
            )),
      )

  written-IsBitmap :
      (v : ℕ) → v < 256 → IsBitmap (record bitmap { buffer = set bitmap.buffer (key / 8) v })
  written-IsBitmap v hv = record {
    enough = w.enough;
    room = length-set bitmap.buffer (key / 8) v ∙ w.room;
    bytes = λ i. ground (arith, get_or-set bitmap.buffer (key / 8) i v 0 at_byte, w.bytes i);
  }

  pub bitmap_set-IsBitmap : IsBitmap (bitmap_set bitmap key).0
  unfolding bitmap_set
  bitmap_set-IsBitmap =
      let inside : leb bitmap.size key ≡ false = ground arith in
      rw inside (
        written-IsBitmap _ (
          set_bit-lt (get_or bitmap.buffer (key / 8) 0) (key % 8) (w.bytes (key / 8))
            (omega arith)))

  pub bitmap_unset-IsBitmap : IsBitmap (bitmap_unset bitmap key).0
  unfolding bitmap_unset
  bitmap_unset-IsBitmap =
      let inside : leb bitmap.size key ≡ false = ground arith in
      rw inside (
        written-IsBitmap _ (
          clear_bit-lt (get_or bitmap.buffer (key / 8) 0) (key % 8) (w.bytes (key / 8))
            (omega arith)))
