-- ===== src/Filesys/Inode/BlockMap.antt =====
-- Which sector `byte_to_sector` finds: by the direct and the indirect pointers the right one, by
-- the doubly indirect pointer none of the file's.
use mathlib.Core.Path.{fun_ext, subst}
use native.Mathlib.Decide.{dec_lt}
use cs162_group13_clone.Base.{
  ℕ, ◌-◌, ◌/◌, ◌^◌, ◌≤◌, ◌<◌, ◌≡◌, refl, sym, ap, ◌∙◌, true, false, ok, ltb, if◌then◌else◌, arith,
  Bool-cases, inl, inr, lt→ltb,
}
use cs162_group13_clone.Base.Int.{pos, ltb_ℤ}
use cs162_group13_clone.Devices.Block.{Sector}
use cs162_group13_clone.Filesys.Cache.{Cache}
use cs162_group13_clone.Filesys.Cache.View.{view, IsValid}
use cs162_group13_clone.Filesys.Cache.Read.{cache_read_lem}
use cs162_group13_clone.Filesys.Inode.{
  word, InodeDisk, inode_disk, bounced, read_sector, find_sector, byte_to_sector,
}

-- The cache stands for the same array of sectors, over a device of the same size.
pub record SameView (c c' : Cache) : Type 0 where
  pub valid : IsValid c'
  pub size : c'.device.size ≡ c.device.size
  pub views : (j : ℕ) → view c' j ≡ view c j

-- The n-th sector of a file whose inode is d, as the array of sectors has it: 124 sectors are
-- named by the inode, and 128 by its indirect block.
abbrev pub nth_sector : (ℕ → Sector) → InodeDisk → ℕ → ℕ
nth_sector a d n = if ltb n 124 then d.direct n else word (a d.indirect) (n - 124)

le→ltb : (a b : ℕ) → b ≤ a → ltb a b ≡ false
le→ltb a b h = ground arith

module _ (beyond : ℕ → ℕ) where
  read_sector_lem :
      {c : Cache} (sector offset : ℕ)
      → IsValid c
      → sector < c.device.size
      → (c' : Cache) × (read_sector beyond c sector offset
          ≡ ok (bounced beyond (view c sector) offset, c'))
        × SameView c c'
  unfolding read_sector
  read_sector_lem {c} sector offset v l =
      let (r, e, x) = cache_read_lem sector v l in
      (r.cache, rw (e, x.bytes) refl, record { valid = x.valid; size = x.size; views = x.views })

  find_sector-direct :
      (c : Cache) (a : ℕ → Sector) (d : InodeDisk) (position : ℕ)
      → position < 63488
      → find_sector beyond c d position ≡ ok (nth_sector a d (position / 512), c)
  unfolding find_sector
  find_sector-direct c a d position h =
      rw (lt→ltb position 63488 h, lt→ltb (position / 512) 124 (omega arith)) refl

  find_sector-indirect :
      {c : Cache} (d : InodeDisk) (position : ℕ)
      → IsValid c
      → 63488 ≤ position
      → position < 129024
      → d.indirect < c.device.size
      → (c' : Cache) × (find_sector beyond c d position
          ≡ ok (nth_sector (view c) d (position / 512), c'))
        × SameView c c'
  unfolding find_sector
  find_sector-indirect {c} d position v h h' l =
      let (c', e, s) = read_sector_lem d.indirect (position / 512 - 124) v l in
      (
        c',
        rw
            (
              le→ltb position 63488 h,
              lt→ltb position 129024 h',
              le→ltb (position / 512) 124 (omega arith),
              e,
              lt→ltb (position / 512 - 124) 128 (omega arith),
            )
            refl,
        s,
      )

  -- The block whose pointer the code takes for the inner indirect block.
  abbrev pub inner_block : (ℕ → Sector) → InodeDisk → ℕ → ℕ
  inner_block a d n = bounced beyond (a d.doubly_indirect) ((n - 124 - 128) / 128)

  find_sector-doubly :
      {c : Cache} (d : InodeDisk) (position : ℕ)
      → IsValid c
      → 129024 ≤ position
      → d.doubly_indirect < c.device.size
      → inner_block (view c) d (position / 512) < c.device.size
      → (c' : Cache) × (find_sector beyond c d position
          ≡ ok (beyond (position / 512 - (position / 512 - 124 - 128) / 128), c'))
        × SameView c c'
  unfolding find_sector
  find_sector-doubly {c} d position v h l l' =
      let (c1, e1, s1) =
        read_sector_lem d.doubly_indirect ((position / 512 - 124 - 128) / 128) v l in
      let (c2, e2, s2) =
        read_sector_lem (inner_block (view c) d (position / 512))
          (position / 512 - (position / 512 - 124 - 128) / 128) s1.valid (rw s1.size l') in
      (
        c2,
        rw
            (
              le→ltb position 63488 (omega arith),
              le→ltb position 129024 h,
              e1,
              e2,
              le→ltb (position / 512 - (position / 512 - 124 - 128) / 128) 128 (omega arith),
            )
            refl,
        record { valid = s2.valid; size = s2.size ∙ s1.size; views = λ j. s2.views j ∙ s1.views j },
      )

  find_sector_lem :
      {c : Cache} (d : InodeDisk) (position : ℕ)
      → IsValid c
      → position < 129024
      → (63488 ≤ position → d.indirect < c.device.size)
      → (c' : Cache) × (find_sector beyond c d position
          ≡ ok (nth_sector (view c) d (position / 512), c'))
        × SameView c c'
  find_sector_lem {c} d position v h l = elim (dec_lt position 63488) [
    | yes p ↦ (
      c,
      find_sector-direct c (view c) d position p,
      record { valid = v; size = refl; views = λ j. refl },
    )
    | no p ↦ find_sector-indirect d position v (omega arith) h (l (omega arith))
  ]

  -- For a position that the direct and the indirect pointers cover, and with a well-formed cache,
  -- `byte_to_sector` does not panic and finds the sector that the file has there, or (block_sector_t) -1 for a position at
  -- or after the end; the array of sectors that the cache stands for is as it was. The sectors of
  -- the inode and of its indirect block, if that is needed, are to lie on the device.
  pub byte_to_sector_lem :
      {c : Cache} (sector position : ℕ)
      → IsValid c
      → sector < c.device.size
      → position < 129024
      → (63488 ≤ position → (inode_disk (view c sector)).indirect < c.device.size)
      → (c' : Cache) × (byte_to_sector beyond c sector position
          ≡ ok (
            if ltb_ℤ (pos position) (inode_disk (view c sector)).length
                then nth_sector (view c) (inode_disk (view c sector)) (position / 512)
                else 2 ^ 32 - 1,
            c',
          ))
        × SameView c c'
  unfolding byte_to_sector
  byte_to_sector_lem {c} sector position v l h i =
      let (r, e, x) = cache_read_lem sector v l in
      let d = inode_disk (view c sector) in
      elim (Bool-cases (ltb_ℤ (pos position) d.length)) [
        | inl t ↦
            let (c', e', s) =
              find_sector_lem {c = r.cache} d position x.valid h (λ p. rw x.size (i p)) in
            (
              c',
              rw (e, x.bytes, t, e')
                  (ap (λ (a : ℕ → Sector). ok (nth_sector a d (position / 512), c'))
                    (fun_ext x.views)),
              record {
                valid = s.valid;
                size = s.size ∙ x.size;
                views = λ j. s.views j ∙ x.views j;
              },
            )
        | inr t ↦ (
          r.cache,
          rw (e, x.bytes, t) refl,
          record { valid = x.valid; size = x.size; views = x.views },
        )
      ]

  -- For a position in the file that only the doubly indirect pointer covers, and with a
  -- well-formed cache, `byte_to_sector` does not read a pointer of the file: with s = position / 512,
  -- it gives the word with the index s - (s - 252) / 128, which is at least 252, from the start of a
  -- buffer that holds a block of 128 pointers, and so whatever the heap has there. The sectors it
  -- reads are to lie on the device.
  pub byte_to_sector-doubly :
      {c : Cache} (sector position : ℕ)
      → IsValid c
      → sector < c.device.size
      → 129024 ≤ position
      → ltb_ℤ (pos position) (inode_disk (view c sector)).length ≡ true
      → (inode_disk (view c sector)).doubly_indirect < c.device.size
      → inner_block (view c) (inode_disk (view c sector)) (position / 512) < c.device.size
      → (k : ℕ) × (c' : Cache) × (byte_to_sector beyond c sector position ≡ ok (beyond k, c'))
        × (252 ≤ k)
        × (k ≡ position / 512 - (position / 512 - 252) / 128)
        × SameView c c'
  unfolding byte_to_sector
  byte_to_sector-doubly {c} sector position v l h t m m' =
      let (r, e, x) = cache_read_lem sector v l in
      let d = inode_disk (view c sector) in
      let (c', e', s) = find_sector-doubly {c = r.cache} d position x.valid h (rw x.size m) (
        rw x.size (
          subst (λ (a : ℕ → Sector). inner_block a d (position / 512) < c.device.size)
            (sym (fun_ext x.views)) m')) in
      (
        position / 512 - (position / 512 - 124 - 128) / 128,
        c',
        rw (e, x.bytes, t, e') refl,
        omega arith,
        omega arith,
        record { valid = s.valid; size = s.size ∙ x.size; views = λ j. s.views j ∙ x.views j },
      )
