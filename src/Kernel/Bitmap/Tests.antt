-- ===== src/Kernel/Bitmap/Tests.antt =====
-- A bitmap of 40 bits in two words.
use cs162_group13_clone.Base.{ℕ, ◌<◌, ◌≡◌, true, false, some, [], ◌∷◌, ok, arith}
use cs162_group13_clone.Kernel.Bitmap.{Bitmap, bitmap_scan, bitmap_scan_and_flip, bitmap_create}
use cs162_group13_clone.Kernel.Bitmap.Bits.{IsValid, get}
use cs162_group13_clone.Kernel.Bitmap.Range.{bitmap_create_lem}
use cs162_group13_clone.Kernel.Bitmap.Scan.{
  Finds, Flipped, bitmap_scan_lem, bitmap_scan_and_flip_lem,
}

abbrev sample : Bitmap
sample = record { bit_cnt = 40; bits = 0x80000001 ∷ 3 ∷ [] }

sample-IsValid : IsValid sample
sample-IsValid = record { words = omega arith; small = omega arith }

bitmap_create_lem_example :
    (b : Bitmap) × (bitmap_create true true (7 ∷ 7 ∷ []) 40 ≡ ok (some b))
    × IsValid b
    × (b.bit_cnt ≡ 40)
    × ((j : ℕ) → j < 40 → get b j ≡ false)
bitmap_create_lem_example = bitmap_create_lem (7 ∷ 7 ∷ []) 40 (omega arith) (omega arith)

bitmap_scan_lem_example :
    (r : ℕ) × (bitmap_scan sample 0 4 false ≡ ok r) × Finds (get sample) 40 0 4 false r
bitmap_scan_lem_example = bitmap_scan_lem sample 0 4 false sample-IsValid (omega arith)

bitmap_scan_and_flip_lem_example :
    (r : ℕ) × (b' : Bitmap) × (bitmap_scan_and_flip sample 0 4 false ≡ ok (r, b'))
    × Finds (get sample) 40 0 4 false r
    × Flipped sample r 4 false b'
bitmap_scan_and_flip_lem_example =
    bitmap_scan_and_flip_lem sample 0 4 false sample-IsValid (omega arith)
