-- ===== src/Utils/Bitmap/Tests.antt =====
-- Keys 3 and 9 in a bitmap of 10 keys.
use nettle.Prelude.{◌≡◌, arith, true}
use nettle.Utils.Bitmap.{Bitmap, make_bitmap, bitmap_set, bitmap_unset, bitmap_isset}
use nettle.Utils.Bitmap.Keys.{make_bitmap-IsBitmap, isset-set}

abbrev ten_keys : Bitmap
ten_keys = make_bitmap 10

isset-set_example :
    ((bitmap_set ten_keys 9).1 ≡ true)
    × (bitmap_isset (bitmap_set ten_keys 9).0 3 ≡ bitmap_isset ten_keys 3)
    × ((bitmap_unset ten_keys 9).1 ≡ true)
    × (bitmap_isset (bitmap_unset ten_keys 9).0 3 ≡ bitmap_isset ten_keys 3)
unfolding make_bitmap
isset-set_example = isset-set ten_keys (make_bitmap-IsBitmap 10) 9 (omega arith) 3
