-- ===== src/Filesys/FreeMap/Tests.antt =====
-- The free map of a device of 40 sectors, with the first three and sector 5 held.
use cs162_group13_clone.Base.{replicate, ◌≡◌, refl, true, false, none, some, [], ◌∷◌, ok}
use cs162_group13_clone.Kernel.Bitmap.{
  Bitmap, bitmap_scan, bitmap_scan_and_flip, bitmap_set_multiple, bitmap_set, bitmap_mark,
  bitmap_reset, bitmap_contains, bitmap_test, set_from, scan_from, contains_from,
}
use cs162_group13_clone.Filesys.Cache.{Cache, cache_init}
use cs162_group13_clone.Filesys.FreeMap.{
  FreeMap, FileWrite, bitmap_write, free_map_allocate, commit,
}

-- 0b100111
abbrev held : Bitmap
held = record { bit_cnt = 40; bits = 0x27 ∷ 0 ∷ [] }

abbrev in_use : FreeMap
in_use = record { map = held; file_open = true }

-- Writes that write nothing, and writes that count as whole.
abbrev never : FileWrite
never bytes n offset c = ok (0, c)

abbrev whole : FileWrite
whole bytes n offset c = ok (n, c)

abbrev cache : Cache
cache = cache_init (record {
  size = 40;
  foreign = false;
  content = λ s. replicate 512 s;
  read_cnt = 0;
  write_cnt = 0;
})

-- Sectors 6, 7 and 8 are the first three in a row; the map says so afterwards, if it is written.
allocate_runs :
    free_map_allocate whole cache in_use 3
    ≡ ok (
      some 6,
      record { map = record { bit_cnt = 40; bits = 0x1e7 ∷ 0 ∷ [] }; file_open = true },
      cache,
    )
unfolding free_map_allocate commit bitmap_write bitmap_scan_and_flip bitmap_scan scan_from
    bitmap_contains contains_from bitmap_test bitmap_set_multiple set_from bitmap_set bitmap_mark
allocate_runs = refl

allocate_taken_back : free_map_allocate never cache in_use 3 ≡ ok (none, in_use, cache)
unfolding free_map_allocate commit bitmap_write bitmap_scan_and_flip bitmap_scan scan_from
    bitmap_contains contains_from bitmap_test bitmap_set_multiple set_from bitmap_set bitmap_mark
    bitmap_reset
allocate_taken_back = refl
