-- ===== src/Filesys/Inode/Create/Ready.antt =====
-- A new file that has got all its sectors is one that the data routines can work on.
use mathlib.Core.Path.{subst}
use native.Mathlib.Decide.{dec_lt}
use cs162_group13_clone.Base.{ℕ, ◌*◌, ◌≤◌, ◌<◌, ◌≡◌, ◌≢◌, sym, Bool, true, length, arith, inl, inr}
use cs162_group13_clone.Devices.Block.{Sector}
use cs162_group13_clone.Kernel.Bitmap.Bits.{get}
use cs162_group13_clone.Filesys.Cache.{Cache}
use cs162_group13_clone.Filesys.FreeMap.{FreeMap, FileWrite}
use cs162_group13_clone.Filesys.Inode.Data.File.{IsFile, data_sector}
use cs162_group13_clone.Filesys.Inode.Data.Layout.{IsSeparate}
use cs162_group13_clone.Filesys.Inode.Grow.Fill.{IsFresh}
use cs162_group13_clone.Filesys.Inode.Create.Direct.{Created}

-- A new file none of whose pointers is 0 can be read and written: its sectors are on the device
-- and apart from each other and from the inode's.
module _ {write : FileWrite} {own : ℕ → Bool} {b : Bool} {a : ℕ → Sector} {m m' : FreeMap}
    {size sector n : ℕ} {c' : Cache} (x : Created write own a m size sector n b c' m')
    (in_use : get m.map sector ≡ true)
    (complete : (i : ℕ) → i * 512 < n → data_sector x.sectors sector i ≢ 0) (h : n ≤ 63488) where
  given_one : (i : ℕ) → i * 512 < n → IsFresh m m' (data_sector x.sectors sector i)
  given_one i l = elim (x.got i l) [ inl (e, why) ↦ absurd (complete i l e) | inr (f, z) ↦ f ]

  pub Created-IsFile :
      ((i : ℕ) → length (a i) ≡ 512)
      → m.map.bit_cnt ≤ size
      → sector < size
      → IsFile x.sectors size sector n
  Created-IsFile full bits l = record {
    inode_inside = l;
    length_eq = x.length_eq;
    short = omega arith;
    indirect_inside = λ p. absurd (omega arith);
    inside = λ i p. let q = (given_one i p).inside in omega arith;
    full = x.full full;
  }

  pub Created-IsSeparate : IsSeparate x.sectors sector n
  Created-IsSeparate = record {
    distinct = λ i k p q e. elim (dec_lt i k) [
      | yes l ↦ absurd (x.apart i k l q (complete i p) (complete k q) e)
      | no l ↦ elim (dec_lt k i) [
        | yes l' ↦ absurd (x.apart k i l' p (complete k q) (complete i p) (sym e))
        | no l' ↦ omega arith
      ]
    ];
    not_inode = λ i p e.
        let free = (given_one i p).free in
        let used = subst (λ (s : ℕ). get m.map s ≡ true) (sym e) in_use in cc;
    not_indirect = λ i p q. absurd (omega arith);
  }
