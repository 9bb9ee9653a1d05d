-- ===== src/Filesys/Cache/Tests.antt =====
-- A cache over a device of 100 sectors, each of which holds its own number.
use cs162_group13_clone.Base.{
  ℕ, zero, suc, ◌<◌, ◌≡◌, refl, false, List, [], ◌∷◌, ◌++◌, ok, get_or, arith,
}
use cs162_group13_clone.Base.Int.{pos, to_int32, ◌+ℤ◌, ◌-ℤ◌}
use cs162_group13_clone.Devices.Block.{Block, block_read, block_write}
use cs162_group13_clone.Filesys.Cache.{
  Entry, Cache, cache_read, cache_write, cache_sync, empty_entry, written, write_scan, read_scan,
  append_entry, evict, write_miss, place_entry, answer, read_miss, age_back, sync_entries,
}
use cs162_group13_clone.Filesys.Cache.View.{view, IsValid, Agree, SameRefs, AllGood}
use cs162_group13_clone.Filesys.Cache.Write.{cache_write_lem}
use cs162_group13_clone.Filesys.Cache.Slots.{Wrote}
use cs162_group13_clone.Filesys.Cache.Write.Twice.{cache_write_twice}
use cs162_group13_clone.Filesys.Cache.Read.{Reads, cache_read_lem}
use cs162_group13_clone.Filesys.Cache.Refine.{Op, get, put, flush, run, serve, run_refines}

abbrev disk : Block
disk = record { size = 100; foreign = false; content = λ s. s ∷ []; read_cnt = 0; write_cnt = 0 }

-- n entries, for the sectors 1 to n.
abbrev filled : ℕ → List Entry
filled zero = []
filled (suc n) = written (suc n) (7 ∷ []) ∷ filled n

-- n slots taken, and one free one.
abbrev with_entries : ℕ → Cache
with_entries n = record { entry_num = n; entries = filled n ++ empty_entry ∷ []; device = disk }

filled-Agree : (n s : ℕ) → Agree n (filled n ++ empty_entry ∷ []) s (pos 0)
filled-Agree zero s = tt
filled-Agree (suc n) s = (λ p. refl, filled-Agree n s)

filled-SameRefs : (n : ℕ) → SameRefs n (filled n ++ empty_entry ∷ [])
filled-SameRefs zero = tt
filled-SameRefs (suc n) = (filled-Agree n (suc n), filled-SameRefs n)

filled-AllGood : (n : ℕ) → n < 100 → AllGood 100 n (filled n ++ empty_entry ∷ [])
filled-AllGood zero h = tt
filled-AllGood (suc n) h = (refl, h, filled-AllGood n (omega arith))

abbrev nearly_full : Cache
nearly_full = with_entries 31

nearly_full-IsValid : IsValid nearly_full
nearly_full-IsValid = record {
  count = omega arith;
  slots = refl;
  good = filled-AllGood 31 (omega arith);
  same = filled-SameRefs 31;
  local_device = refl;
}

cache_write_lem_example :
    (c' : Cache) × (cache_write nearly_full 60 (9 ∷ []) ≡ ok c') × Wrote nearly_full 60 (9 ∷ []) c'
cache_write_lem_example = cache_write_lem 60 (9 ∷ []) nearly_full-IsValid (omega arith)

cache_read_lem_example : Reads nearly_full 60 (cache_read nearly_full 60)
cache_read_lem_example = cache_read_lem 60 nearly_full-IsValid (omega arith)

cache_write_twice_example :
    (c' : Cache) × (m : ℕ) × (cache_write nearly_full 60 (9 ∷ []) ≡ ok c')
    × (m < 31)
    × (get_or c'.entries m empty_entry ≡ written 60 (9 ∷ []))
    × (get_or c'.entries 31 empty_entry ≡ written 60 (9 ∷ []))
cache_write_twice_example =
    cache_write_twice 60 (9 ∷ []) nearly_full-IsValid (omega arith) refl refl

abbrev requests : List Op
requests = get 5 ∷ put 60 (9 ∷ []) ∷ get 60 ∷ put 61 (8 ∷ []) ∷ flush ∷ get 61 ∷ get 90 ∷ []

run_refines_example : run nearly_full requests ≡ ok (serve (view nearly_full) requests)
run_refines_example = run_refines requests nearly_full-IsValid (omega arith)

serve_runs : serve (view nearly_full) requests ≡ (7 ∷ []) ∷ (9 ∷ []) ∷ (8 ∷ []) ∷ (90 ∷ []) ∷ []
unfolding serve
serve_runs = refl

run_runs : run nearly_full requests ≡ ok ((7 ∷ []) ∷ (9 ∷ []) ∷ (8 ∷ []) ∷ (90 ∷ []) ∷ [])
unfolding run cache_read cache_write cache_sync write_scan read_scan append_entry evict write_miss
    place_entry answer read_miss age_back sync_entries block_read block_write to_int32 ◌+ℤ◌ ◌-ℤ◌
run_runs = refl
