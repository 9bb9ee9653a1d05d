-- ===== src/Filesys/Inode/Tests.antt =====
-- A device of 100 sectors, with the inode of a file of 196608 bytes in sector 1, its indirect block
-- in sector 5 and its doubly indirect block in sector 6. Each indirect pointer is 7.
use cs162_group13_clone.Base.{
  true, zero, suc, ◌<◌, ◌≢◌, ℕ, ◌≡◌, ◌≤◌, ◌/◌, ◌^◌, ◌-◌, refl, [], ◌∷◌, ◌++◌, false, ok, arith,
  replicate, if◌then◌else◌, ◌==◌,
}
use cs162_group13_clone.Base.Int.{pos, ltb_ℤ, to_int32}
use cs162_group13_clone.Devices.Block.{Block, Sector}
use cs162_group13_clone.Filesys.Cache.{Cache, cache_init}
use cs162_group13_clone.Filesys.Cache.View.{view, IsValid, cache_init_lem}
use cs162_group13_clone.Kernel.Bitmap.Bits.{get}
use cs162_group13_clone.Filesys.FreeMap.{FreeMap}
use cs162_group13_clone.Base.{some}
use cs162_group13_clone.Base.Int.{◌-ℤ◌}
use cs162_group13_clone.Filesys.Inode.Open.{Inodes, inode_open, inode_close}
use cs162_group13_clone.Filesys.Inode.Open.Counts.{IsConsistent, Opened, inode_open_lem}
use cs162_group13_clone.Filesys.Inode.Open.Close.{Closed, inode_close-others, inode_close-last}
use cs162_group13_clone.Filesys.Inode.Dealloc.{total_sectors, deallocate_inode}
use cs162_group13_clone.Filesys.Inode.Dealloc.Release.{AllHeld, Released, deallocate_inode_lem}
use cs162_group13_clone.Filesys.FreeMap.MapFile.{Saved}
use cs162_group13_clone.Filesys.Inode.Data.File.{Holds}
use cs162_group13_clone.Filesys.Inode.TestMap.{save, own, Ready, save-SavesMap}
use cs162_group13_clone.Filesys.Inode.{word, inode_disk, byte_to_sector}
use cs162_group13_clone.Filesys.Inode.BlockMap.{
  SameView, nth_sector, byte_to_sector_lem, byte_to_sector-doubly,
}

abbrev inode_bytes : Sector
inode_bytes =
    replicate 496 0 ++ (5 ∷ 0 ∷ 0 ∷ 0 ∷ 6 ∷ 0 ∷ 0 ∷ 0 ∷ 0 ∷ 0 ∷ 3 ∷ 0 ∷ 68 ∷ 79 ∷ 78 ∷ 73 ∷ [])

abbrev pointers : ℕ → Sector
pointers s = s ∷ 0 ∷ 0 ∷ 0 ∷ []

abbrev disk : Block
disk = record {
  size = 100;
  foreign = false;
  content = λ s. if s == 1 then inode_bytes else pointers 7;
  read_cnt = 0;
  write_cnt = 0;
}

abbrev behind : ℕ → ℕ
behind i = 3735928559

fresh-IsValid : IsValid (cache_init disk)
fresh-IsValid = (cache_init_lem disk refl).0

byte_to_sector_lem_example :
    (c' : Cache) × (byte_to_sector behind (cache_init disk) 1 63488
      ≡ ok (
        if ltb_ℤ (pos 63488) (inode_disk (view (cache_init disk) 1)).length
            then nth_sector
                (view (cache_init disk))
                (inode_disk (view (cache_init disk) 1))
                (63488 / 512)
            else 2 ^ 32 - 1,
        c',
      ))
    × SameView (cache_init disk) c'
unfolding cache_init word
byte_to_sector_lem_example =
    byte_to_sector_lem behind {c = cache_init disk} 1 63488 fresh-IsValid (omega arith)
      (omega arith) (λ p. omega arith)

byte_to_sector-doubly_example :
    (k : ℕ) × (c' : Cache) × (byte_to_sector behind (cache_init disk) 1 129024 ≡ ok (behind k, c'))
    × (252 ≤ k)
    × (k ≡ 129024 / 512 - (129024 / 512 - 252) / 128)
    × SameView (cache_init disk) c'
unfolding cache_init word to_int32
byte_to_sector-doubly_example =
    byte_to_sector-doubly behind {c = cache_init disk} 1 129024 fresh-IsValid (omega arith)
      (omega arith) refl (omega arith) (omega arith)

-- A file of 600 bytes in the sectors 2 and 5, which a free map has as held.
abbrev short_file : Sector
short_file =
    (2 ∷ 0 ∷ 0 ∷ 0 ∷ 5 ∷ 0 ∷ 0 ∷ 0 ∷ [])
    ++ (replicate 496 0 ++ (88 ∷ 2 ∷ 0 ∷ 0 ∷ 68 ∷ 79 ∷ 78 ∷ 73 ∷ []))

abbrev in_use : FreeMap
in_use = record { map = record { bit_cnt = 40; bits = 0x27 ∷ 0 ∷ [] }; file_open = true }

short_file-AllHeld : AllHeld in_use (word short_file) 0 (total_sectors (pos 600))
unfolding word total_sectors
short_file-AllHeld = record {
  inside = λ i p q. inside i q;
  is_held = λ i p q. is_held i q;
  different = λ i i' p q r. different i i' q r;
}
  where
    inside : (i : ℕ) → i < 2 → word short_file i < 40
    inside zero q = omega arith
    inside (suc zero) q = omega arith
    inside (suc (suc i)) q = absurd (omega arith)

    is_held : (i : ℕ) → i < 2 → get in_use.map (word short_file i) ≡ true
    is_held zero q = refl
    is_held (suc zero) q = refl
    is_held (suc (suc i)) q = absurd (omega arith)

    different : (i i' : ℕ) → i < i' → i' < 2 → word short_file i ≢ word short_file i'
    different zero (suc zero) q r = omega arith
    different zero zero q r = absurd (omega arith)
    different (suc i) (suc zero) q r = absurd (omega arith)
    different (suc i) zero q r = absurd (omega arith)
    different i (suc (suc i')) q r = absurd (omega arith)

fresh-Holds : Holds (cache_init disk) disk.content 100
unfolding cache_init
fresh-Holds = record { valid = fresh-IsValid; views = refl; size_eq = refl }

deallocate_inode_lem_example :
    (m' : FreeMap) × (c' : Cache) × (deallocate_inode save 0xc0101000
        (cache_init disk)
        in_use
        short_file
      ≡ ok (m', c'))
    × Released in_use (word short_file) 0 (total_sectors (pos 600)) m'
    × Saved save own Ready 100 disk.content c'
unfolding word to_int32
deallocate_inode_lem_example =
    deallocate_inode_lem save own Ready 0xc0101000 in_use short_file 600
      (save-SavesMap 100 40 (omega arith)) fresh-Holds tt refl (omega arith) (omega arith)
      (record { words = omega arith; small = omega arith }) refl short_file-AllHeld

-- The inode of sector 9 at place 50 is open twice, with writes denied once; that of sector 4 at
-- place 51 is open once.
abbrev two_open : Inodes
two_open = record {
  inodes = λ p.
      if p == 50
      then record { sector = 9; open_cnt = pos 2; removed = false; deny_write_cnt = pos 1 }
      else record { sector = 4; open_cnt = pos 1; removed = false; deny_write_cnt = pos 0 };
  open_inodes = 50 ∷ 51 ∷ [];
}

two_open-IsConsistent : IsConsistent two_open
two_open-IsConsistent = record {
  once = refl;
  one_per_sector = λ p q m n e. ground (arith, m, n, e);
  counts = λ p m. record {
    opened = ground arith;
    small = ground arith;
    deny = ground arith;
    deny_open = ground arith;
  };
}

inode_open_lem_example :
    (p : ℕ) × (t' : Inodes) × (inode_open two_open 9 (some 52) ≡ (some p, t'))
    × Opened two_open 9 p t'
inode_open_lem_example =
    inode_open_lem two_open 9 52 two_open-IsConsistent refl (λ q m. ground arith)

inode_close-others_example :
    (t' : Inodes) × (inode_close save 0xc0101000 two_open (cache_init disk) in_use (some 50)
      ≡ ok (t', cache_init disk, in_use))
    × IsConsistent t'
    × ((t'.inodes 50).open_cnt ≡ pos 2 -ℤ pos 1)
    × (t'.open_inodes ≡ 50 ∷ 51 ∷ [])
    × (((t'.inodes 50).sector ≡ 9)
        × ((t'.inodes 50).removed ≡ false)
        × ((t'.inodes 50).deny_write_cnt ≡ pos 1))
    × ((q : ℕ) → q ≢ 50 → t'.inodes q ≡ two_open.inodes q)
inode_close-others_example =
    inode_close-others save 0xc0101000 two_open (cache_init disk) in_use 50 two_open-IsConsistent
      refl (omega arith) (omega arith)

inode_close-last_example :
    (t' : Inodes) × (inode_close save 0xc0101000 two_open (cache_init disk) in_use (some 51)
      ≡ ok (t', cache_init disk, in_use))
    × Closed two_open 51 t'
inode_close-last_example =
    inode_close-last save 0xc0101000 two_open (cache_init disk) in_use 51 two_open-IsConsistent refl
      refl
