-- ===== src/Filesys/Inode/FileTests.antt =====
-- A device of 40 sectors that holds a file of 600 bytes: its inode in sector 1, its bytes in the
-- sectors 2 and 5, which hold the numbers 2 and 5.
use cs162_group13_clone.Base.{
  ℕ, zero, suc, ◌-◌, ◌*◌, ◌<◌, ◌≡◌, ◌≢◌, refl, true, false, Bool, List, [], ◌∷◌, ◌++◌, ok, arith,
  ltb, ◌==◌, ◌&&◌, if◌then◌else◌, length, length-replicate, replicate, min, Bool-cases, inl, inr,
}
use cs162_group13_clone.Base.Int.{pos, to_int32}
use cs162_group13_clone.Devices.Block.{Block, Sector}
use cs162_group13_clone.Filesys.Cache.{Cache, cache_init}
use cs162_group13_clone.Filesys.Cache.View.{cache_init_lem}
use cs162_group13_clone.Filesys.FreeMap.{FreeMap}
use cs162_group13_clone.Filesys.Inode.TestMap.{save}
use cs162_group13_clone.Filesys.Inode.{word}
use cs162_group13_clone.Filesys.Inode.Open.{Inode}
use cs162_group13_clone.Filesys.Inode.Data.{overwrite, zeros_from, inode_read_at}
use cs162_group13_clone.Filesys.Inode.Data.File.{Holds, IsFile, data_sector, file_bytes}
use cs162_group13_clone.Filesys.Inode.Data.ReadAt.{inode_read_at-inside, inode_read_at-outside}
use cs162_group13_clone.Filesys.Inode.Data.Layout.{IsSeparate}
use cs162_group13_clone.Filesys.Inode.Data.WriteAt.{WroteBytes}
use cs162_group13_clone.Filesys.Inode.Grow.{Disk, Growth, inode_write_at}
use cs162_group13_clone.Filesys.Inode.Grow.Words.{AreBytes}
use cs162_group13_clone.Filesys.Inode.Grow.Within.{inode_write_at-within}

abbrev file_inode : Sector
file_inode =
    (2 ∷ 0 ∷ 0 ∷ 0 ∷ 5 ∷ 0 ∷ 0 ∷ 0 ∷ [])
    ++ (replicate 496 0 ++ (88 ∷ 2 ∷ 0 ∷ 0 ∷ 68 ∷ 79 ∷ 78 ∷ 73 ∷ []))

abbrev sectors : ℕ → Sector
sectors s = if s == 1 then file_inode else replicate 512 s

abbrev device : Block
device = record { size = 40; foreign = false; content = sectors; read_cnt = 0; write_cnt = 0 }

cache_init-Holds : Holds (cache_init device) sectors 40
unfolding cache_init
cache_init-Holds = record { valid = (cache_init_lem device refl).0; views = refl; size_eq = refl }

sectors-full : (j : ℕ) → length (sectors j) ≡ 512
sectors-full j = elim (Bool-cases (j == 1)) [
  | inl t ↦ rw t refl
  | inr t ↦ rw t (length-replicate {A = ℕ} 512 j)
]

sectors-IsFile : IsFile sectors 40 1 600
unfolding word to_int32
sectors-IsFile = record {
  inode_inside = omega arith;
  length_eq = refl;
  short = omega arith;
  indirect_inside = λ h. omega arith;
  inside = inside;
  full = sectors-full;
}
  where
    inside : (i : ℕ) → i * 512 < 600 → data_sector sectors 1 i < 40
    inside zero h = omega arith
    inside (suc zero) h = omega arith
    inside (suc (suc i)) h = absurd (omega arith)

sectors-IsSeparate : IsSeparate sectors 1 600
unfolding word
sectors-IsSeparate = record {
  distinct = distinct;
  not_inode = not_inode;
  not_indirect = λ i h h'. absurd (omega arith);
}
  where
    distinct :
        (i j : ℕ)
        → i * 512 < 600
        → j * 512 < 600
        → data_sector sectors 1 i ≡ data_sector sectors 1 j
        → i ≡ j
    distinct zero zero h h' e = refl
    distinct zero (suc zero) h h' e = absurd (omega arith)
    distinct (suc zero) zero h h' e = absurd (omega arith)
    distinct (suc zero) (suc zero) h h' e = refl
    distinct (suc (suc i)) j h h' e = absurd (omega arith)
    distinct zero (suc (suc j)) h h' e = absurd (omega arith)
    distinct (suc zero) (suc (suc j)) h h' e = absurd (omega arith)

    not_inode : (i : ℕ) → i * 512 < 600 → data_sector sectors 1 i ≢ 1
    not_inode zero h = omega arith
    not_inode (suc zero) h = omega arith
    not_inode (suc (suc i)) h = absurd (omega arith)

abbrev small_all : List ℕ → Bool
small_all [] = true
small_all (x ∷ xs) = ltb x 256 && small_all xs

small_all-AreBytes : (b : Sector) → small_all b ≡ true → AreBytes b
small_all-AreBytes [] h j l = absurd (omega arith)
small_all-AreBytes (x ∷ xs) h zero l = ground arith
small_all-AreBytes (x ∷ xs) h (suc j) l = small_all-AreBytes xs (ground arith) j (omega arith)

abbrev behind : ℕ → ℕ
behind i = 3735928559

-- The first `malloc` fails, the second succeeds.
abbrev enough : ℕ → Bool × Bool
enough o = (false, true)

abbrev stack : ℕ → Sector
stack j = replicate 512 204

abbrev map_bits : FreeMap
map_bits = record { map = record { bit_cnt = 40; bits = 0x27 ∷ 0 ∷ [] }; file_open = true }

abbrev opened : Inode
opened = record { sector = 1; open_cnt = pos 1; removed = false; deny_write_cnt = pos 0 }

inode_read_at-inside_example :
    (c' : Cache) × (inode_read_at behind behind enough
        (cache_init device)
        1
        (replicate 200 0)
        200
        500
      ≡ ok (
        pos (min 200 (600 - 500)),
        overwrite (replicate 200 0) 0 (file_bytes sectors 1 500 (min 200 (600 - 500))),
        c',
      ))
    × Holds c' sectors 40
inode_read_at-inside_example =
    inode_read_at-inside sectors-IsFile behind enough behind cache_init-Holds (replicate 200 0) 200
      500 (λ o. refl) (omega arith) (omega arith)

inode_read_at-outside_example :
    (c' : Cache) × (inode_read_at behind behind enough
        (cache_init device)
        1
        (replicate 600 1)
        600
        700
      ≡ ok (pos 0, overwrite (replicate 600 1) 0 (zeros_from behind 0 600), c'))
    × Holds c' sectors 40
inode_read_at-outside_example =
    inode_read_at-outside sectors-IsFile behind enough behind cache_init-Holds (replicate 600 1) 600
      700 (omega arith) (omega arith) (omega arith)

inode_write_at-within_example :
    (c' : Cache) × (inode_write_at save behind enough
        (stack 0)
        stack
        5
        (cache_init device)
        map_bits
        opened
        (replicate 20 7)
        20
        505
      ≡ ok (20, c', map_bits))
    × WroteBytes sectors 40 1 600 (replicate 20 7) 505 20 c'
inode_write_at-within_example =
    inode_write_at-within save (stack 0) stack 5 behind enough sectors-IsFile sectors-IsSeparate
      cache_init-Holds (small_all-AreBytes file_inode refl) map_bits opened (replicate 20 7) 20 505
      (λ o. refl) refl refl (omega arith)

abbrev growing : Disk
growing = record { cache = cache_init device; map = map_bits; pointers = file_inode }

-- An inode with its 252 sectors given, and one more to give.
abbrev at_limit : Growth
at_limit = record { disk = growing; current_sectors = 252; new_sectors = pos 1 }
