-- ===== src/Filesys/Inode/Grow/Within.antt =====
-- A write inside a file: no sector is allocated, and the inode stays as it is.
use mathlib.Core.Path.{fun_ext, subst}
use native.Mathlib.Decide.{ℕ_discrete}
use cs162_group13_clone.Base.{
  ℕ, ◌+◌, ◌-◌, ◌*◌, ◌^◌, ◌≤◌, ◌<◌, ◌≡◌, refl, ap, min, Bool, true, false, List, ok, length, ltb,
  leb, ◌==◌, arith,
}
use cs162_group13_clone.Base.Int.{pos, to_int32}
use cs162_group13_clone.Devices.Block.{Sector}
use cs162_group13_clone.Filesys.Cache.{Cache}
use cs162_group13_clone.Filesys.FreeMap.{FreeMap, FileWrite}
use cs162_group13_clone.Filesys.Inode.{word, inode_disk}
use cs162_group13_clone.Filesys.Inode.Dealloc.{total_sectors}
use cs162_group13_clone.Filesys.Inode.Open.{Inode}
use cs162_group13_clone.Filesys.Inode.Data.File.{Holds, IsFile, cache_read-Holds}
use cs162_group13_clone.Filesys.Inode.Data.Layout.{IsSeparate, put_sector, Written}
use cs162_group13_clone.Filesys.Inode.Data.WriteAt.{cache_write-Holds, WroteBytes, write_rounds_lem}
use cs162_group13_clone.Filesys.Inode.Grow.{set_word, Disk, add_inode, inode_write_at}
use cs162_group13_clone.Filesys.Inode.Grow.Words.{AreBytes, set_word-word}

-- The length that the inode's bytes give is the word itself.
length_word : (w n : ℕ) → to_int32 (pos w) ≡ pos n → w < 2 ^ 32 → w ≡ n
unfolding to_int32
length_word w n e h = ground arith

word_fits : (b : Sector) (i : ℕ) → AreBytes b → 4 * i + 4 ≤ length b → word b i < 2 ^ 32
unfolding word
word_fits b i h l = omega (
  arith,
  h (4 * i) (omega arith),
  h (4 * i + 1) (omega arith),
  h (4 * i + 2) (omega arith),
  h (4 * i + 3) (omega arith),
)

total_sectors_mono : (m n : ℕ) → m ≤ n → total_sectors (pos m) ≤ total_sectors (pos n)
unfolding total_sectors
total_sectors_mono m n h = ground arith

put_sector_same : (a : ℕ → Sector) (s : ℕ) → put_sector a s (a s) ≡ a
put_sector_same a s = fun_ext (λ j. elim (ℕ_discrete s j) [
  | yes e ↦ let t : (s == j) ≡ true = ground arith in rw t (ap a e)
  | no n ↦ let t : (s == j) ≡ false = ground arith in rw t refl
])

module _ (write : FileWrite) (garbage : Sector) (garbage' : ℕ → Sector) (zeros_address : ℕ) where
  -- `add_inode` with a length that the file already has changes nothing.
  add_inode-within :
      (d : Disk) (n length' : ℕ)
      → (inode_disk d.pointers).length ≡ pos n
      → AreBytes d.pointers
      → length d.pointers ≡ 512
      → length' ≤ n
      → add_inode write garbage garbage' zeros_address d length' ≡ ok d
  unfolding add_inode
  add_inode-within d n m e h w l =
      let t : leb (total_sectors (pos m)) (total_sectors (pos n)) ≡ true =
        ground (arith, total_sectors_mono m n l) in
      let u : ltb n m ≡ false = ground arith in
      let k : word d.pointers 126 ≡ n =
        length_word (word d.pointers 126) n e (word_fits d.pointers 126 h (omega arith)) in
      let s : set_word d.pointers 126 n ≡ d.pointers =
        subst (λ (x : ℕ). set_word d.pointers 126 x ≡ d.pointers) k
          (set_word-word d.pointers 126 h (omega arith)) in
      rw (e, t, u, s) refl

  module _ {size sector n : ℕ} (beyond : ℕ → ℕ) (mem : ℕ → Bool × Bool) where
    -- A write of `want` bytes that ends inside a file of n bytes (no doubly indirect block, sectors
    -- apart and on the device, no writes denied, and memory for each bounce buffer: at every offset
    -- the second call of `malloc` succeeds) puts the buffer's first `want` bytes into the file
    -- from the offset on, and returns their number. It changes no other byte of the file, no
    -- other sector and not the free map, whatever the stack and the heap hold.
    pub inode_write_at-within :
        {a : ℕ → Sector} {c : Cache} (f : IsFile a size sector n) (d : IsSeparate a sector n)
        (v : Holds c a size) (h : AreBytes (a sector)) (m : FreeMap) (inode : Inode)
        (buffer : List ℕ) (want offset : ℕ)
        → ((o : ℕ) → (mem o).1 ≡ true)
        → inode.sector ≡ sector
        → inode.deny_write_cnt ≡ pos 0
        → want + offset ≤ n
        → (c' : Cache) × (inode_write_at write beyond mem garbage garbage' zeros_address c m inode
              buffer want offset
            ≡ ok (want, c', m))
          × WroteBytes a size sector n buffer offset want c'
    unfolding inode_write_at
    inode_write_at-within {a} {c} f d v h m inode buffer want offset ready at none l =
        let (r, e, b, x) = cache_read-Holds v sector f.inode_inside in
        let read : Disk = record { cache = r.cache; map = m; pointers = a sector } in
        let grown = add_inode-within read n (want + offset) f.length_eq h (f.full sector) l in
        let (c1, e1, x1) = cache_write-Holds x sector (a sector) f.inode_inside in
        let y1 : Holds c1 a size =
          subst (λ (g : ℕ → Sector). Holds c1 g size) (put_sector_same a sector) x1 in
        let (c2, e2, w) =
          write_rounds_lem beyond mem (want + 1) f d y1 buffer want offset ready (omega arith)
            (omega (arith, f.short)) in
        let cnt : min want (n - offset) ≡ want = omega arith in
        let (c3, e3, x3) = cache_write-Holds w.holds sector (a sector) f.inode_inside in
        let kept : w.sectors sector ≡ a sector = w.written.others sector d.not_inode in
        let same : put_sector w.sectors sector (a sector) ≡ w.sectors =
          subst (λ (b : Sector). put_sector w.sectors sector b ≡ w.sectors) kept
            (put_sector_same w.sectors sector) in
        (
          c3,
          rw (none, at, e, b, grown, e1, e2, e3, cnt) refl,
          record {
            sectors = w.sectors;
            holds = subst (λ (g : ℕ → Sector). Holds c3 g size) same x3;
            file = w.file;
            separate = w.separate;
            written = subst (λ (k : ℕ). Written a w.sectors sector n buffer offset k) cnt w.written;
          },
        )
