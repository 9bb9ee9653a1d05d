-- ===== src/Filesys/Inode/Data/File.antt =====
-- A file as the array of sectors has it, and what the steps of the data loops find of it.
use mathlib.Core.Path.{fun_ext, subst}
use cs162_group13_clone.Base.{
  ℕ, zero, suc, ◌+◌, ◌-◌, ◌*◌, ◌/◌, ◌%◌, ◌^◌, ◌≤◌, ◌<◌, ◌≡◌, refl, sym, ap, ◌∙◌, true, false, List,
  [], ◌∷◌, ◌++◌, Outcome, ok, get_or, length, if◌then◌else◌, arith,
}
use cs162_group13_clone.Base.Int.{pos, ltb_ℤ}
use cs162_group13_clone.Devices.Block.{Sector}
use cs162_group13_clone.Filesys.Cache.{Cache, ReadResult, cache_read}
use cs162_group13_clone.Filesys.Cache.View.{view, IsValid}
use cs162_group13_clone.Filesys.Cache.Read.{cache_read_lem}
use cs162_group13_clone.Filesys.Inode.{inode_disk, byte_to_sector, inode_length}
use cs162_group13_clone.Filesys.Inode.BlockMap.{nth_sector, byte_to_sector_lem}
use cs162_group13_clone.Filesys.Inode.Data.{slice}

-- The cache is well-formed, and stands for the array of sectors a on a device of `size` sectors.
pub record Holds (c : Cache) (a : ℕ → Sector) (size : ℕ) : Type 0 where
  pub valid : IsValid c
  pub views : view c ≡ a
  pub size_eq : c.device.size ≡ size

-- The i-th sector of the file whose inode is in a sector.
abbrev pub data_sector : (ℕ → Sector) → ℕ → ℕ → ℕ
data_sector a sector i = nth_sector a (inode_disk (a sector)) i

-- A file of n bytes that needs no doubly indirect block, all of it on the device.
pub record IsFile (a : ℕ → Sector) (size sector n : ℕ) : Type 0 where
  pub inode_inside : sector < size
  pub length_eq : (inode_disk (a sector)).length ≡ pos n
  pub short : n ≤ 129024
  pub indirect_inside : 63488 < n → (inode_disk (a sector)).indirect < size
  pub inside : (i : ℕ) → i * 512 < n → data_sector a sector i < size
  pub full : (j : ℕ) → length (a j) ≡ 512

-- The byte of the file at a position, and k bytes from a position on.
abbrev pub file_byte : (ℕ → Sector) → ℕ → ℕ → ℕ
file_byte a sector p = get_or (a (data_sector a sector (p / 512))) (p % 512) 0

abbrev pub file_bytes : (ℕ → Sector) → ℕ → ℕ → ℕ → List ℕ
file_bytes a sector p zero = []
file_bytes a sector p (suc k) = file_byte a sector p ∷ file_bytes a sector (p + 1) k

pub file_bytes-append :
    (a : ℕ → Sector) (sector p k m : ℕ)
    → file_bytes a sector p (k + m) ≡ file_bytes a sector p k ++ file_bytes a sector (p + k) m
file_bytes-append a sector p zero m =
    ap (λ (x : ℕ). file_bytes a sector p x) (omega arith)
    ∙ ap (λ (x : ℕ). file_bytes a sector x m) (omega arith)
file_bytes-append a sector p (suc k) m =
    let split : suc k + m ≡ suc (k + m) = omega arith in
    let shift : p + 1 + k ≡ p + suc k = omega arith in
    rw split (
      ap (λ (xs : List ℕ). file_byte a sector p ∷ xs)
        (file_bytes-append a sector (p + 1) k m
          ∙ ap (λ (x : ℕ). file_bytes a sector (p + 1) k ++ file_bytes a sector x m) shift))

-- Within one sector the file's bytes are the sector's.
pub file_bytes-slice :
    (a : ℕ → Sector) (sector p k : ℕ)
    → p % 512 + k ≤ 512
    → file_bytes a sector p k ≡ slice (a (data_sector a sector (p / 512))) (p % 512) k
file_bytes-slice a sector p k h = walk k p (p % 512) refl h
  where
    walk :
        (k q o : ℕ)
        → q % 512 ≡ o
        → o + k ≤ 512
        → file_bytes a sector q k ≡ slice (a (data_sector a sector (q / 512))) o k
    walk zero q o e h = refl
    walk (suc zero) q o e h = rw e refl
    walk (suc (suc k)) q o e h =
        let rest =
          walk (suc k) (q + 1) (o + 1) (omega arith) (omega arith)
          ∙ ap (λ (s : ℕ). slice (a (data_sector a sector s)) (o + 1) (suc k)) (omega arith) in
        rw (e, rest) refl

module _ {c : Cache} {a : ℕ → Sector} {size : ℕ} (v : Holds c a size) where
  pub cache_read-Holds :
      (s : ℕ)
      → s < size
      → (r : ReadResult) × (cache_read c s ≡ ok r) × (r.data_out ≡ a s) × Holds r.cache a size
  cache_read-Holds s l =
      let (r, e, x) = cache_read_lem {c = c} s v.valid (rw v.size_eq l) in
      (
        r,
        e,
        x.bytes ∙ ap (λ (f : ℕ → Sector). f s) v.views,
        record { valid = x.valid; views = fun_ext x.views ∙ v.views; size_eq = x.size ∙ v.size_eq },
      )

  module _ {sector n : ℕ} (f : IsFile a size sector n) where
    pub inode_length-Holds :
        (c' : Cache) × (inode_length c sector ≡ ok (pos n, c')) × Holds c' a size
    unfolding inode_length
    inode_length-Holds =
        let (r, e, b, x) = cache_read-Holds sector f.inode_inside in
        (r.cache, rw (e, b, f.length_eq) refl, x)

    pub byte_to_sector-inside :
        (beyond : ℕ → ℕ) (p : ℕ)
        → p < n
        → (c' : Cache) × (byte_to_sector beyond c sector p
            ≡ ok (data_sector a sector (p / 512), c'))
          × Holds c' a size
    byte_to_sector-inside beyond p l =
        let (c', e, x) =
          byte_to_sector_lem beyond {c = c} sector p v.valid (rw v.size_eq f.inode_inside)
            (omega (arith, f.short))
            (λ h.
              subst (λ (g : ℕ → Sector). (inode_disk (g sector)).indirect < c.device.size)
                (sym v.views) (rw v.size_eq (f.indirect_inside (omega arith)))) in
        let t : ltb_ℤ (pos p) (pos n) ≡ true = ground arith in
        let found : (o : Cache)
            → ◌≡◌ {A = Outcome (ℕ × Cache)}
                (ok (
                  if ltb_ℤ (pos p) (inode_disk (a sector)).length
                      then nth_sector a (inode_disk (a sector)) (p / 512)
                      else 2 ^ 32 - 1,
                  o,
                ))
                (ok (data_sector a sector (p / 512), o)) =
          λ o. rw (f.length_eq, t) refl in
        (
          c',
          e
              ∙ ap
                  (λ (g : ℕ → Sector). ok (
                    if ltb_ℤ (pos p) (inode_disk (g sector)).length
                        then nth_sector g (inode_disk (g sector)) (p / 512)
                        else 2 ^ 32 - 1,
                    c',
                  ))
                  v.views
              ∙ found c',
          record {
            valid = x.valid;
            views = fun_ext x.views ∙ v.views;
            size_eq = x.size ∙ v.size_eq;
          },
        )

    pub byte_to_sector-outside :
        (beyond : ℕ → ℕ) (p : ℕ)
        → n ≤ p
        → (c' : Cache) × (byte_to_sector beyond c sector p ≡ ok (2 ^ 32 - 1, c')) × Holds c' a size
    unfolding byte_to_sector
    byte_to_sector-outside beyond p l =
        let (r, e, b, x) = cache_read-Holds sector f.inode_inside in
        let t : ltb_ℤ (pos p) (pos n) ≡ false = ground arith in
        (r.cache, rw (e, b, f.length_eq, t) refl, x)
