-- ===== src/Utils/Bitmap.antt =====
-- The bitmap of src/main/utils/bitmap.h and src/main/utils/bitmap.c. `size_t` does not overflow at the sizes that memory
-- has.
pub mod Keys
mod Tests
use nettle.Prelude.{
  ℕ, zero, suc, ◌+◌, ◌-◌, ◌/◌, ◌%◌, ◌^◌, bit_and, bit_or, Bool, true, false, List, get_or, set,
  replicate, leb, ◌==◌, not, if◌then◌else◌,
}

-- `bitmap_s`
pub record Bitmap : Type 0 where
  pub size : ℕ
  pub n_bytes : ℕ
  pub buffer : List ℕ

-- `make_bitmap`
unfoldable pub make_bitmap : ℕ → Bitmap
make_bitmap size = record {
  size = size;
  n_bytes = (size + 7) / 8;
  buffer = replicate ((size + 7) / 8) 0;
}

-- A byte with a bit set, and with it cleared; `~(1 << m)` has all bits but one.
unfoldable pub set_bit : ℕ → ℕ → ℕ
set_bit byte m = bit_or byte (2 ^ m)

unfoldable pub clear_bit : ℕ → ℕ → ℕ
clear_bit byte m = bit_and byte (255 - 2 ^ m)

-- Whether a bit is set.
unfoldable pub has_bit : ℕ → ℕ → Bool
has_bit byte m = not (bit_and byte (2 ^ m) == 0)

-- `bitmap_set`
unfoldable pub bitmap_set : Bitmap → ℕ → Bitmap × Bool
bitmap_set bitmap key = if leb bitmap.size key then (bitmap, false) else (
  record bitmap {
    buffer = set bitmap.buffer (key / 8) (set_bit (get_or bitmap.buffer (key / 8) 0) (key % 8));
  },
  true,
)

-- `bitmap_unset`
unfoldable pub bitmap_unset : Bitmap → ℕ → Bitmap × Bool
bitmap_unset bitmap key = if leb bitmap.size key then (bitmap, false) else (
  record bitmap {
    buffer = set bitmap.buffer (key / 8) (clear_bit (get_or bitmap.buffer (key / 8) 0) (key % 8));
  },
  true,
)

-- `bitmap_isset`
unfoldable pub bitmap_isset : Bitmap → ℕ → Bool
bitmap_isset bitmap key =
    if leb bitmap.size key then false else has_bit (get_or bitmap.buffer (key / 8) 0) (key % 8)
