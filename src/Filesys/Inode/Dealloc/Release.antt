-- ===== src/Filesys/Inode/Dealloc/Release.antt =====
-- `deallocate_inode` of a file with direct pointers only frees its sectors; of a longer file it
-- panics.
use mathlib.Core.Path.{subst}
use native.Mathlib.Decide.{ℕ_discrete}
use cs162_group13_clone.Base.{
  ℕ, zero, suc, ◌+◌, ◌-◌, ◌≤◌, ◌<◌, ◌==◌, ◌≡◌, ◌≢◌, refl, sym, ◌∙◌, Bool, true, false, min, ok,
  arith,
}
use cs162_group13_clone.Base.Int.{pos}
use cs162_group13_clone.Devices.Block.{Sector}
use cs162_group13_clone.Kernel.Bitmap.Bits.{IsValid, get}
use cs162_group13_clone.Kernel.Bitmap.Scan.{AllAre}
use cs162_group13_clone.Filesys.Cache.{Cache}
use cs162_group13_clone.Filesys.Cache.View as CacheView
use cs162_group13_clone.Filesys.Cache.View.{cached, AllGood, Absent-cached, Absent}
use cs162_group13_clone.Filesys.FreeMap.{FreeMap, FileWrite}
use cs162_group13_clone.Filesys.FreeMap.MapFile.{
  KeepsCache, Saved, SavesMap, not-Saved, bitmap_write-total, bitmap_write-Saved,
}
use cs162_group13_clone.Filesys.Inode.Data.File.{Holds}
use cs162_group13_clone.Filesys.FreeMap.Alloc.{Marked, free_map_release_lem}
use cs162_group13_clone.Filesys.Inode.{word, inode_disk}
use cs162_group13_clone.Filesys.Inode.Dealloc.{
  total_sectors, release_pointers, release_indirect, deallocate_inode,
}

-- The pointers from the j-th on, n of them, name held sectors of the map, each sector once.
pub record AllHeld (m : FreeMap) (f : ℕ → ℕ) (j n : ℕ) : Type 0 where
  pub inside : (i : ℕ) → j ≤ i → i < j + n → f i < m.map.bit_cnt
  pub is_held : (i : ℕ) → j ≤ i → i < j + n → get m.map (f i) ≡ true
  pub different : (i i' : ℕ) → j ≤ i → i < i' → i' < j + n → f i ≢ f i'

-- Exactly the sectors that these pointers name have become free.
pub record Released (m : FreeMap) (f : ℕ → ℕ) (j n : ℕ) (m' : FreeMap) : Type 0 where
  pub valid : IsValid m'.map
  pub count : m'.map.bit_cnt ≡ m.map.bit_cnt
  pub file : m'.file_open ≡ m.file_open
  pub freed : (i : ℕ) → j ≤ i → i < j + n → get m'.map (f i) ≡ false
  pub others : (s : ℕ) → ((i : ℕ) → j ≤ i → i < j + n → f i ≢ s) → get m'.map s ≡ get m.map s

AllHeld-next :
    {m m' : FreeMap} (f : ℕ → ℕ) (j n : ℕ)
    → AllHeld m f j (suc n)
    → Marked m (f j) 1 false m'
    → AllHeld m' f (j + 1) n
AllHeld-next f j n h x = record {
  inside = λ i p q. rw x.count (h.inside i (omega arith) (omega arith));
  is_held = λ i p q.
      let ne = h.different j i (omega arith) (omega arith) (omega arith) in
      ground (arith, x.bits (f i), h.is_held i (omega arith) (omega arith), ne);
  different = λ i i' p q r. h.different i i' (omega arith) q (omega arith);
}

Released-cons :
    {m m1 m2 : FreeMap} (f : ℕ → ℕ) (j n : ℕ)
    → AllHeld m f j (suc n)
    → Marked m (f j) 1 false m1
    → Released m1 f (j + 1) n m2
    → Released m f j (suc n) m2
Released-cons f j n h x y = record {
  valid = y.valid;
  count = y.count ∙ x.count;
  file = y.file ∙ x.file;
  freed = λ i p q. elim (ℕ_discrete j i) [
    | yes e ↦ rw (← e) (
        y.others (f j)
          (λ k p' q' e'. h.different j k (omega arith) (omega arith) (omega arith) (sym e'))
        ∙ ground (arith, x.bits (f j)))
    | no ne ↦ y.freed i (omega arith) (omega arith)
  ];
  others = λ s ne.
      let d = ne j (omega arith) (omega arith) in
      y.others s (λ i p q. ne i (omega arith) (omega arith)) ∙ ground (arith, x.bits s, d);
}

one_held : (m : FreeMap) (s : ℕ) → get m.map s ≡ true → AllAre (get m.map) s 1 true
one_held m s h k p q = let e : k ≡ s = omega arith in rw e h

module _ (write : FileWrite) (own : ℕ → Bool) (Ready : (ℕ → Sector) → Type 0) {size : ℕ} where
  Saved-then :
      {a : ℕ → Sector} {c1 c2 : Cache} (x : Saved write own Ready size a c1)
      → Saved write own Ready size x.sectors c2
      → Saved write own Ready size a c2
  Saved-then x y = record {
    sectors = y.sectors;
    holds = y.holds;
    is_ready = y.is_ready;
    others = λ s o. y.others s o ∙ x.others s o;
    full = λ h. y.full (x.full h);
  }

  release_pointers_lem :
      (n j : ℕ) {c : Cache} {a : ℕ → Sector} (m : FreeMap) (b : Sector)
      → SavesMap write own Ready size m.map.bit_cnt
      → Holds c a size
      → Ready a
      → IsValid m.map
      → m.file_open ≡ true
      → AllHeld m (word b) j n
      → (m' : FreeMap) × (c' : Cache) × (release_pointers write c m b n j ≡ ok (m', c'))
        × Released m (word b) j n m'
        × Saved write own Ready size a c'
  unfolding release_pointers
  release_pointers_lem zero j {c} m b law v r w f h = (
    m,
    c,
    refl,
    record {
      valid = w;
      count = refl;
      file = refl;
      freed = λ i p q. absurd (omega arith);
      others = λ s ne. refl;
    },
    not-Saved write own Ready size v r,
  )
  release_pointers_lem (suc n) j {c} m b law v r w f h =
      let total = bitmap_write-total write own Ready size law v r in
      let (m1, c1, e, x, (written, e1)) =
        free_map_release_lem write c m (word b j) 1 total w f
          (let l = h.inside j (omega arith) (omega arith) in omega arith)
          (one_held m (word b j) (h.is_held j (omega arith) (omega arith))) in
      let z = bitmap_write-Saved write own Ready size law v r m1.map written c1 x.count e1 in
      let law' = subst (λ (k : ℕ). SavesMap write own Ready size k) (sym x.count) law in
      let (m2, c2, e', y, z') =
        release_pointers_lem n (j + 1) m1 b law' z.holds z.is_ready x.valid (x.file ∙ f)
          (AllHeld-next (word b) j n h x) in
      (m2, c2, rw (e, e') refl, Released-cons (word b) j n h x y, Saved-then z z')

-- Whatever the releases do to the map, the cache stays well-formed.
module _ (write : FileWrite) (law : KeepsCache write) where
  abbrev Kept : Cache → Cache → Type 0
  Kept c c' = CacheView.IsValid c' × (c'.device.size ≡ c.device.size)

total_sectors-direct :
    (n : ℕ)
    → 0 < n
    → n ≤ 63488
    → ((total_sectors (pos n) == 0) ≡ false) × (total_sectors (pos n) ≤ 124)
unfolding total_sectors
total_sectors-direct n h l = (ground arith, ground arith)

-- For a file of 1 to 63488 bytes, which has direct pointers only, whose sectors are held in a valid
-- free map with its file open, each named once, and with writes of the map as `SavesMap` says,
-- `deallocate_inode` does not panic: exactly the file's sectors become free, and of the cache's
-- sectors none changes but those of the free map's file.
pub deallocate_inode_lem :
    (write : FileWrite) (own : ℕ → Bool) (Ready : (ℕ → Sector) → Type 0) {size : ℕ} (address : ℕ)
    {c : Cache} {a : ℕ → Sector} (m : FreeMap) (b : Sector) (n : ℕ)
    → SavesMap write own Ready size m.map.bit_cnt
    → Holds c a size
    → Ready a
    → (inode_disk b).length ≡ pos n
    → 0 < n
    → n ≤ 63488
    → IsValid m.map
    → m.file_open ≡ true
    → AllHeld m (word b) 0 (total_sectors (pos n))
    → (m' : FreeMap) × (c' : Cache) × (deallocate_inode write address c m b ≡ ok (m', c'))
      × Released m (word b) 0 (total_sectors (pos n)) m'
      × Saved write own Ready size a c'
unfolding deallocate_inode release_indirect
deallocate_inode_lem write own Ready address m b n law v r e p q w f h =
    let (m', c', e', x, z) =
      release_pointers_lem write own Ready (total_sectors (pos n)) 0 m b law v r w f h in
    let (t, l) = total_sectors-direct n p q in
    let min_eq : min (total_sectors (pos n)) 124 ≡ total_sectors (pos n) = omega arith in
    let none_left : total_sectors (pos n) - 124 ≡ 0 = omega arith in
    (m', c', rw (e, t, min_eq, e', none_left) refl, x, z)
