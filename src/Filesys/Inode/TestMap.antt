-- ===== src/Filesys/Inode/TestMap.antt =====
-- A free map file in sector 0, for the runs of the inodes' functions: a write of the map puts its bytes
-- into this sector, and the rest of the sector is zeros.
use cs162_group13_clone.Base.{
  ℕ, ◌<◌, ◌==◌, ◌≡◌, refl, Bool, true, false, List, length-replicate, replicate, ok, ◌>>=◌, ◌∙◌, ap,
  ok-injective, arith, Bool-cases, inl, inr,
}
use mathlib.Core.Path.{subst}
use cs162_group13_clone.Devices.Block.{Sector}
use cs162_group13_clone.Kernel.Bitmap.{byte_cnt}
use cs162_group13_clone.Kernel.Bitmap.Bits.{get}
use cs162_group13_clone.Filesys.Cache.{Cache, cache_write}
use cs162_group13_clone.Filesys.Cache.View as CacheView
use cs162_group13_clone.Filesys.FreeMap.{FreeMap, FileWrite}
use cs162_group13_clone.Filesys.FreeMap.MapFile.{Saved, SavesMap, KeepsCache}
use cs162_group13_clone.Filesys.Inode.Data.{overwrite}
use cs162_group13_clone.Filesys.Inode.Data.Bytes.{length-overwrite}
use cs162_group13_clone.Filesys.Inode.Data.File.{Holds}
use cs162_group13_clone.Filesys.Inode.Data.Layout.{put_sector}
use cs162_group13_clone.Filesys.Inode.Data.WriteAt.{cache_write-Holds}

abbrev pub map_sector : List ℕ → Sector
map_sector bytes = overwrite (replicate 512 0) 0 bytes

abbrev pub save : FileWrite
save bytes n offset c = do c' ← cache_write c 0 (map_sector bytes); ok (n, c')

abbrev pub own : ℕ → Bool
own s = s == 0

abbrev pub Ready : (ℕ → Sector) → Type 0
Ready a = Unit {0}

pub save-SavesMap : (size bit_cnt : ℕ) → 0 < size → SavesMap save own Ready size bit_cnt
save-SavesMap size bit_cnt l = record { saves = saves; stays = λ a a' r h. tt }
  where
    saves :
        (bytes : List ℕ) {c : Cache} {a : ℕ → Sector}
        → Holds c a size
        → Ready a
        → (k : ℕ) × (c' : Cache) × (save bytes (byte_cnt bit_cnt) 0 c ≡ ok (k, c'))
          × Saved save own Ready size a c'
    saves bytes {c} {a} v r =
        let (c', e, y) = cache_write-Holds v 0 (map_sector bytes) l in
        (
          byte_cnt bit_cnt,
          c',
          rw e refl,
          record {
            sectors = put_sector a 0 (map_sector bytes);
            holds = y;
            is_ready = tt;
            others = λ s o. let t : (0 == s) ≡ false = ground arith in rw t refl;
            full = λ h i. elim (Bool-cases (0 == i)) [
              | inl t ↦
                  rw t (length-overwrite (replicate 512 0) 0 bytes ∙ length-replicate {A = ℕ} 512 0)
              | inr t ↦ rw t (h i)
            ];
          },
        )

-- In a map in which sector 0 is in use, the file's own sector is.
pub own_in_use : (m : FreeMap) → get m.map 0 ≡ true → (s : ℕ) → own s ≡ true → get m.map s ≡ true
own_in_use m h s t = let e : 0 ≡ s = ground arith in subst (λ (k : ℕ). get m.map k ≡ true) e h

-- Writes that count as whole and write nothing.
abbrev pub whole : FileWrite
whole bytes n offset c = ok (n, c)

pub whole-KeepsCache : KeepsCache whole
whole-KeepsCache = record {
  keeps = λ bytes n offset c k c' v e.
      let same : c ≡ c' = ap (λ (p : ℕ × Cache). p.1) (ok-injective e) in
      subst (λ (x : Cache). CacheView.IsValid x × (x.device.size ≡ c.device.size)) same (v, refl);
}
