-- ===== src/Filesys/Inode/Data/WriteAt.antt =====
-- The loop of inode_write_at puts the buffer's bytes into the file, and changes nothing else.
use mathlib.Core.Path.{fun_ext, subst}
use native.Mathlib.Decide.{dec_lt}
use cs162_group13_clone.Base.{
  ℕ, zero, suc, ◌+◌, ◌-◌, ◌/◌, ◌%◌, ◌≤◌, ◌<◌, ◌≡◌, ◌≢◌, refl, sym, ap, ◌∙◌, min, Bool, true, false,
  List, ok, get_or, length, ltb, ◌==◌, ◌&&◌, ◌||◌, arith, Bool-cases, inl, inr,
}
use cs162_group13_clone.Base.Int.{pos, leb_ℤ}
use cs162_group13_clone.Devices.Block.{Sector}
use cs162_group13_clone.Filesys.Cache.{Cache, cache_write}
use cs162_group13_clone.Filesys.Cache.Write.{cache_write_lem}
use cs162_group13_clone.Filesys.Inode.Data.{
  slice, overwrite, cache_write_bytes, bounce_for, sector_left, write_chunk, write_rounds,
}
use cs162_group13_clone.Filesys.Inode.Data.Bytes.{
  length-slice, length-overwrite, overwrite-inside, bytes-eq,
}
use cs162_group13_clone.Filesys.Inode.Data.Chunk.{chunk_size-inside, chunk_size-outside}
use cs162_group13_clone.Filesys.Inode.Data.File.{
  Holds, IsFile, data_sector, cache_read-Holds, inode_length-Holds, byte_to_sector-inside,
  byte_to_sector-outside,
}
use cs162_group13_clone.Filesys.Inode.Data.ReadAt.{round_size}
use cs162_group13_clone.Filesys.Inode.Data.Layout.{
  IsSeparate, put_sector, put_sector-IsFile, put_sector-IsSeparate, put_chunk, put_chunk-Written,
  Written, Written-none, Written-then,
}

overwrite_whole : (b xs : List ℕ) → length xs ≡ length b → overwrite b 0 xs ≡ xs
overwrite_whole b xs e = bytes-eq (overwrite b 0 xs) xs (length-overwrite b 0 xs ∙ sym e) (λ j l.
    ap (λ (i : ℕ). get_or (overwrite b 0 xs) i 0) (omega arith)
    ∙ overwrite-inside b 0 xs j (omega arith) (omega (arith, length-overwrite b 0 xs)))

module _ {a : ℕ → Sector} {size : ℕ} where
  pub cache_write-Holds :
      {c : Cache} (v : Holds c a size) (s : ℕ) (bytes : Sector)
      → s < size
      → (c' : Cache) × (cache_write c s bytes ≡ ok c') × Holds c' (put_sector a s bytes) size
  cache_write-Holds {c} v s bytes l =
      let (c', e, w) = cache_write_lem {c = c} s bytes v.valid (rw v.size_eq l) in
      (
        c',
        e,
        record {
          valid = w.valid;
          views = fun_ext w.views ∙ ap (λ (g : ℕ → Sector). put_sector g s bytes) v.views;
          size_eq = w.size ∙ v.size_eq;
        },
      )

  write_chunk-Holds :
      {c : Cache} (v : Holds c a size) (mem : Bool × Bool) (s : ℕ) (buffer : List ℕ) (offset k : ℕ)
      → mem.1 ≡ true
      → s < size
      → length (a s) ≡ 512
      → offset % 512 + k ≤ 512
      → (c' : Cache) × (write_chunk mem c s buffer (offset % 512) k (sector_left offset) ≡ ok c')
        × Holds c' (put_sector a s (overwrite (a s) (offset % 512) (slice buffer 0 k))) size
  unfolding write_chunk cache_write_bytes bounce_for
  write_chunk-Holds {c} v mem s buffer offset k ready l w h =
      let o = offset % 512 in
      elim (Bool-cases ((o == 0) && (k == 512))) [
        | inl t ↦
            let z : o ≡ 0 = ground arith in
            let m : k ≡ 512 = ground arith in
            let (c', e, x) = cache_write-Holds v s (slice buffer 0 512) l in
            (
              c',
              rw t e,
              rw
                  (
                    z,
                    m,
                    overwrite_whole (a s) (slice buffer 0 512) (length-slice buffer 0 512 ∙ sym w),
                  )
                  x,
            )
        | inr t ↦
            let p : (ltb 0 o || ltb k (sector_left offset)) ≡ true = ground arith in
            let (r, e, b, x) = cache_read-Holds v s l in
            let (c', e', x') = cache_write-Holds x s (overwrite (a s) o (slice buffer 0 k)) l in
            (c', rw (t, ready, p, e, b, e') refl, x')
      ]

-- What the loop leaves of a file: cnt bytes of the buffer written, nothing else changed, the cache
-- and the file's layout intact.
pub record WroteBytes (a : ℕ → Sector) (size sector n : ℕ) (buffer : List ℕ) (offset cnt : ℕ)
    (c' : Cache) : Type 0 where
  pub sectors : ℕ → Sector
  pub holds : Holds c' sectors size
  pub file : IsFile sectors size sector n
  pub separate : IsSeparate sectors sector n
  pub written : Written a sectors sector n buffer offset cnt

module _ {size sector n : ℕ} (beyond : ℕ → ℕ) (mem : ℕ → Bool × Bool) where
  module _ {a : ℕ → Sector} (f : IsFile a size sector n) (d : IsSeparate a sector n) where
    write_none :
        {c : Cache} (v : Holds c a size) (buffer : List ℕ) (offset cnt : ℕ)
        → cnt ≡ 0
        → WroteBytes a size sector n buffer offset cnt c
    write_none v buffer offset cnt z = record {
      sectors = a;
      holds = v;
      file = f;
      separate = d;
      written = Written-none a sector n buffer offset cnt z;
    }

    write_outside :
        {c : Cache} (v : Holds c a size) (fuel : ℕ) (buffer : List ℕ) (want offset : ℕ)
        → n ≤ offset
        → offset < 2147483648
        → (c' : Cache) × (write_rounds beyond mem (suc fuel) c sector buffer want offset
            ≡ ok (0, c'))
          × Holds c' a size
    unfolding write_rounds
    write_outside {c} v fuel buffer want offset h l = elim (Bool-cases (want == 0)) [
      | inl t ↦ (c, rw t refl, v)
      | inr t ↦
          let (c1, e1, v1) = byte_to_sector-outside v f beyond offset h in
          let (c2, e2, v2) = inode_length-Holds v1 f in
          (c2, rw (t, e1, e2, chunk_size-outside n want offset h l) refl, v2)
    ]

    -- One round inside the file, by what the rounds after it do.
    write_inside :
        {c : Cache} (v : Holds c a size) (fuel : ℕ) (buffer : List ℕ) (want offset : ℕ)
        → ((o : ℕ) → (mem o).1 ≡ true)
        → want ≢ 0
        → offset < n
        → (c' : Cache) × Holds c' (put_chunk f d buffer offset (round_size n want offset)) size
          × ((cnt : ℕ) (c'' : Cache)
              → write_rounds beyond mem fuel c' sector
                  (slice buffer (round_size n want offset) (want - round_size n want offset))
                  (want - round_size n want offset)
                  (offset + round_size n want offset)
                ≡ ok (cnt, c'')
              → write_rounds beyond mem (suc fuel) c sector buffer want offset
                ≡ ok (round_size n want offset + cnt, c''))
    unfolding write_rounds
    write_inside {c} v fuel buffer want offset ready h l =
        let t : (want == 0) ≡ false = ground arith in
        let k = round_size n want offset in
        let s = data_sector a sector (offset / 512) in
        let u : leb_ℤ (pos k) (pos 0) ≡ false = ground arith in
        let (c1, e1, v1) = byte_to_sector-inside v f beyond offset l in
        let (c2, e2, v2) = inode_length-Holds v1 f in
        let (c3, e3, v3) =
          write_chunk-Holds v2 (mem offset) s buffer offset k (ready offset)
            (f.inside (offset / 512) (omega arith)) (f.full s) (omega arith) in
        let w = chunk_size-inside n want offset (omega (arith, f.short)) l in
        (c3, v3, λ cnt c'' e. rw (t, e1, e2, w, u, e3, e) refl)

  -- For a file of n bytes that has no doubly indirect block, whose sectors are apart and lie on the
  -- device with its inode and its indirect block, the loop of `inode_write_at`, given more fuel than
  -- bytes to write and memory for each bounce buffer, puts the buffer's bytes into the file from the offset on, as many as are asked
  -- for and the file has room for, and returns their number. The file's other bytes and all other
  -- sectors stay as they were; the cache stays well-formed, and the file's layout the same.
  pub write_rounds_lem :
      (fuel : ℕ) {a : ℕ → Sector} {c : Cache} (f : IsFile a size sector n)
      (d : IsSeparate a sector n) (v : Holds c a size) (buffer : List ℕ) (want offset : ℕ)
      → ((o : ℕ) → (mem o).1 ≡ true)
      → want < fuel
      → offset < 2147483648
      → (c' : Cache) × (write_rounds beyond mem fuel c sector buffer want offset
          ≡ ok (min want (n - offset), c'))
        × WroteBytes a size sector n buffer offset (min want (n - offset)) c'
  unfolding write_rounds
  write_rounds_lem zero f d v buffer want offset ready h b = absurd (omega arith)
  write_rounds_lem (suc fuel) {a} {c} f d v buffer want offset ready h b = elim (dec_lt offset n) [
    | no p ↦
        let (c', e, x) = write_outside f d v fuel buffer want offset (omega arith) b in
        let z : min want (n - offset) ≡ 0 = omega arith in
        (c', rw z e, write_none f d x buffer offset (min want (n - offset)) z)
    | yes p ↦ elim (Bool-cases (want == 0)) [
      | inl t ↦
          let z : min want (n - offset) ≡ 0 = ground arith in
          (c, rw (t, z) refl, write_none f d v buffer offset (min want (n - offset)) z)
      | inr t ↦
          let w : want ≢ 0 = ground arith in
          let k = round_size n want offset in
          let (c1, v1, step) = write_inside f d v fuel buffer want offset ready w p in
          let s = data_sector a sector (offset / 512) in
          let i = offset / 512 in
          let bytes = overwrite (a s) (offset % 512) (slice buffer 0 k) in
          let m : k + min (want - k) (n - (offset + k)) ≡ min want (n - offset) = omega arith in
          let (c', e, x) =
            write_rounds_lem fuel
              (put_sector-IsFile f d i (omega arith) bytes
                (length-overwrite (a s) (offset % 512) (slice buffer 0 k) ∙ f.full s))
              (put_sector-IsSeparate f d i (omega arith) bytes) v1 (slice buffer k (want - k))
              (want - k) (offset + k) ready (omega arith) (omega (arith, f.short)) in
          let done =
            Written-then buffer offset k want (min (want - k) (n - (offset + k))) (omega arith)
              (put_chunk-Written f d buffer offset k p (omega arith)) x.written in
          (
            c',
            step (min (want - k) (n - (offset + k))) c' e ∙ ap (λ (j : ℕ). ok (j, c')) m,
            record {
              sectors = x.sectors;
              holds = x.holds;
              file = x.file;
              separate = x.separate;
              written = subst (λ (j : ℕ). Written a x.sectors sector n buffer offset j) m done;
            },
          )
    ]
  ]
