-- ===== src/Filesys/FreeMap/MapFile.antt =====
-- What is asked of a write of the whole map to the free map's file: it does not panic, and changes only
-- sectors that are the file's own.
use mathlib.Core.Path.{subst}
use cs162_group13_clone.Base.{
  ℕ, ◌==◌, ◌≡◌, sym, ◌∙◌, refl, Bool, true, false, List, length, ok, ok-injective,
}
use cs162_group13_clone.Devices.Block.{Sector}
use cs162_group13_clone.Kernel.Bitmap.{Bitmap, byte_cnt}
use cs162_group13_clone.Filesys.Cache.{Cache}
use cs162_group13_clone.Filesys.Cache.View as CacheView
use cs162_group13_clone.Filesys.Inode.Data.File.{Holds}
use cs162_group13_clone.Filesys.FreeMap.{FileWrite, bitmap_write, elem_bytes}

module _ (write : FileWrite) (own : ℕ → Bool) (Ready : (ℕ → Sector) → Type 0) (size : ℕ) where
  -- A cache in which the map's file has been written, against the sectors before.
  pub record Saved (a : ℕ → Sector) (c' : Cache) : Type 0 where
    pub sectors : ℕ → Sector
    pub holds : Holds c' sectors size
    pub is_ready : Ready sectors
    pub others : (s : ℕ) → own s ≡ false → sectors s ≡ a s
    pub full : ((i : ℕ) → length (a i) ≡ 512) → (i : ℕ) → length (sectors i) ≡ 512

  -- `Ready` says of the sectors that the file is there; it depends on the file's own ones only.
  pub record SavesMap (bit_cnt : ℕ) : Type 0 where
    pub saves :
        (bytes : List ℕ) {c : Cache} {a : ℕ → Sector}
        → Holds c a size
        → Ready a
        → (k : ℕ) × (c' : Cache) × (write bytes (byte_cnt bit_cnt) 0 c ≡ ok (k, c')) × Saved a c'
    pub stays : (a a' : ℕ → Sector) → Ready a → ((s : ℕ) → own s ≡ true → a' s ≡ a s) → Ready a'

  module _ {bit_cnt : ℕ} (law : SavesMap bit_cnt) {c : Cache} {a : ℕ → Sector} (v : Holds c a size)
      (r : Ready a) where
    saved :
        (b : Bitmap)
        → b.bit_cnt ≡ bit_cnt
        → (w : Bool) × (c' : Cache) × (bitmap_write write b c ≡ ok (w, c')) × Saved a c'
    unfolding bitmap_write
    saved b same =
        let (k, c', e, x) = law.saves (elem_bytes b.bits) v r in
        (k == byte_cnt bit_cnt, c', rw (same, e) refl, x)

    pub bitmap_write-total :
        (b : Bitmap)
        → b.bit_cnt ≡ bit_cnt
        → (w : Bool) × (c' : Cache) × (bitmap_write write b c ≡ ok (w, c'))
    bitmap_write-total b same = let (w, c', e, x) = saved b same in (w, c', e)

    pub bitmap_write-Saved :
        (b : Bitmap) (w : Bool) (c' : Cache)
        → b.bit_cnt ≡ bit_cnt
        → bitmap_write write b c ≡ ok (w, c')
        → Saved a c'
    bitmap_write-Saved b w c' same h =
        let (w', c1, e, x) = saved b same in
        subst (λ (p : Bool × Cache). Saved a p.1) (ok-injective (sym e ∙ h)) x

  pub not-Saved : {c : Cache} {a : ℕ → Sector} → Holds c a size → Ready a → Saved a c
  not-Saved {c} {a} v r = record {
    sectors = a;
    holds = v;
    is_ready = r;
    others = λ s h. refl;
    full = λ h. h;
  }

-- A write that returns leaves a well-formed cache of the same device.
pub record KeepsCache (write : FileWrite) : Type 0 where
  pub keeps :
      (bytes : List ℕ) (n offset : ℕ) (c : Cache) (k : ℕ) (c' : Cache)
      → CacheView.IsValid c
      → write bytes n offset c ≡ ok (k, c')
      → CacheView.IsValid c' × (c'.device.size ≡ c.device.size)
