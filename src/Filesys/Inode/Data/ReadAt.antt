-- ===== src/Filesys/Inode/Data/ReadAt.antt =====
-- inode_read_at returns the file's bytes from the offset on, as many as there are.
use native.Mathlib.Decide.{dec_lt}
use cs162_group13_clone.Base.{
  Bool, ◌||◌, ℕ, zero, suc, ◌+◌, ◌-◌, ◌/◌, ◌%◌, ◌≤◌, ◌<◌, ◌≡◌, ◌≢◌, refl, sym, ap, ◌∙◌, min, true,
  false, List, [], ◌++◌, ok, get_or, length, ltb, ◌==◌, ◌&&◌, arith, Bool-cases, inl, inr,
}
use cs162_group13_clone.Base.Int.{pos, leb_ℤ}
use cs162_group13_clone.Devices.Block.{Sector}
use cs162_group13_clone.Filesys.Cache.{Cache}
use cs162_group13_clone.Filesys.Inode.Data.{
  slice, overwrite, zeros_from, cache_read_bytes, read_chunk, read_rounds, inode_read_at,
}
use cs162_group13_clone.Filesys.Inode.Data.Bytes.{length-slice, get_or-slice, bytes-eq}
use cs162_group13_clone.Filesys.Inode.Data.Chunk.{chunk_size-inside, chunk_size-outside}
use cs162_group13_clone.Filesys.Inode.Data.File.{
  Holds, IsFile, data_sector, file_bytes, file_bytes-append, file_bytes-slice, cache_read-Holds,
  inode_length-Holds, byte_to_sector-inside, byte_to_sector-outside,
}

slice_whole : (b : List ℕ) (k : ℕ) → length b ≡ k → slice b 0 k ≡ b
slice_whole b k e = bytes-eq (slice b 0 k) b (length-slice b 0 k ∙ sym e) (λ j l.
    let l' : j < k = omega (arith, length-slice b 0 k) in
    get_or-slice b 0 k j l' ∙ ap (λ (i : ℕ). get_or b i 0) (omega arith))

-- The chunk that a round copies.
abbrev pub round_size : ℕ → ℕ → ℕ → ℕ
round_size n size offset = min size (min (n - offset) (512 - offset % 512))

module _ {a : ℕ → Sector} {size : ℕ} where
  cache_read_bytes-Holds :
      {c : Cache} (v : Holds c a size) (mem : Bool × Bool) (s : ℕ) (buff : List ℕ) (offset k : ℕ)
      → (mem.0 || mem.1) ≡ true
      → s < size
      → (c' : Cache) × (cache_read_bytes mem c s buff offset k ≡ ok (slice (a s) offset k, c'))
        × Holds c' a size
  unfolding cache_read_bytes
  cache_read_bytes-Holds v mem s buff offset k ready l =
      let (r, e, b, x) = cache_read-Holds v s l in (r.cache, rw (ready, e, b) refl, x)

  read_chunk-Holds :
      {c : Cache} (v : Holds c a size) (mem : Bool × Bool) (s : ℕ) (buff : List ℕ) (offset k : ℕ)
      → (mem.0 || mem.1) ≡ true
      → s < size
      → length (a s) ≡ 512
      → (c' : Cache) × (read_chunk mem c s buff offset k ≡ ok (slice (a s) offset k, c'))
        × Holds c' a size
  unfolding read_chunk
  read_chunk-Holds v mem s buff offset k ready l w =
      elim (Bool-cases ((offset == 0) && (k == 512))) [
        | inl t ↦
            let (r, e, b, x) = cache_read-Holds v s l in
            let o : offset ≡ 0 = ground arith in
            let m : k ≡ 512 = ground arith in
            (r.cache, rw (t, e, b, o, m, slice_whole (a s) 512 w) refl, x)
        | inr t ↦
            let (c', e, x) = cache_read_bytes-Holds v mem s buff offset k ready l in
            (c', rw (t, e) refl, x)
      ]

module _ {a : ℕ → Sector} {size sector n : ℕ} (f : IsFile a size sector n) (beyond : ℕ → ℕ)
    (mem : ℕ → Bool × Bool) where
  read_outside :
      {c : Cache} (v : Holds c a size) (fuel : ℕ) (buffer : List ℕ) (want offset : ℕ)
      → n ≤ offset
      → offset < 2147483648
      → (c' : Cache) × (read_rounds beyond mem (suc fuel) c sector buffer want offset ≡ ok ([], c'))
        × Holds c' a size
  unfolding read_rounds
  read_outside {c} v fuel buffer want offset h l = elim (Bool-cases (want == 0)) [
    | inl t ↦ (c, rw (t) refl, v)
    | inr t ↦
        let (c1, e1, v1) = byte_to_sector-outside v f beyond offset h in
        let (c2, e2, v2) = inode_length-Holds v1 f in
        (c2, rw (t, e1, e2, chunk_size-outside n want offset h l) refl, v2)
  ]

  -- One round inside the file, by what the rounds after it do.
  read_inside :
      {c : Cache} (v : Holds c a size) (fuel : ℕ) (buffer : List ℕ) (want offset : ℕ)
      → ((o : ℕ) → ((mem o).0 || (mem o).1) ≡ true)
      → want ≢ 0
      → offset < n
      → (c' : Cache) × Holds c' a size
        × ((bytes : List ℕ) (c'' : Cache)
            → read_rounds beyond mem fuel c' sector
                (slice buffer (round_size n want offset) (want - round_size n want offset))
                (want - round_size n want offset)
                (offset + round_size n want offset)
              ≡ ok (bytes, c'')
            → read_rounds beyond mem (suc fuel) c sector buffer want offset
              ≡ ok (file_bytes a sector offset (round_size n want offset) ++ bytes, c''))
  unfolding read_rounds
  read_inside {c} v fuel buffer want offset ready h l =
      let t : (want == 0) ≡ false = ground arith in
      let k = round_size n want offset in
      let s = data_sector a sector (offset / 512) in
      let u : leb_ℤ (pos k) (pos 0) ≡ false = ground arith in
      let (c1, e1, v1) = byte_to_sector-inside v f beyond offset l in
      let (c2, e2, v2) = inode_length-Holds v1 f in
      let (c3, e3, v3) =
        read_chunk-Holds v2 (mem offset) s buffer (offset % 512) k (ready offset)
          (f.inside (offset / 512) (omega arith)) (f.full s) in
      let w = chunk_size-inside n want offset (omega (arith, f.short)) l in
      (
        c3,
        v3,
        λ bytes c'' e.
            rw (t, e1, e2, w, u, e3, e, file_bytes-slice a sector offset k (omega arith)) refl,
      )

  -- Of a file, the loop of `inode_read_at` copies the bytes from the offset on, as many as are
  -- asked for and the file has, given more fuel than bytes asked for and memory for each bounce
  -- buffer. It changes no sector.
  pub read_rounds_lem :
      (fuel : ℕ) {c : Cache} (v : Holds c a size) (buffer : List ℕ) (want offset : ℕ)
      → ((o : ℕ) → ((mem o).0 || (mem o).1) ≡ true)
      → want < fuel
      → offset < 2147483648
      → (c' : Cache) × (read_rounds beyond mem fuel c sector buffer want offset
          ≡ ok (file_bytes a sector offset (min want (n - offset)), c'))
        × Holds c' a size
  unfolding read_rounds
  read_rounds_lem zero v buffer want offset ready h b = absurd (omega arith)
  read_rounds_lem (suc fuel) {c} v buffer want offset ready h b = elim (dec_lt offset n) [
    | no p ↦
        let (c', e, x) = read_outside v fuel buffer want offset (omega arith) b in
        let z : min want (n - offset) ≡ 0 = omega arith in (c', rw z e, x)
    | yes p ↦ elim (Bool-cases (want == 0)) [
      | inl t ↦ let z : min want (n - offset) ≡ 0 = ground arith in (c, rw (t, z) refl, v)
      | inr t ↦
          let w : want ≢ 0 = ground arith in
          let k = round_size n want offset in
          let (c1, v1, step) = read_inside v fuel buffer want offset ready w p in
          let (c', e, x) =
            read_rounds_lem fuel v1 (slice buffer k (want - k)) (want - k) (offset + k) ready
              (omega arith) (omega (arith, f.short)) in
          let m : min want (n - offset) ≡ k + min (want - k) (n - (offset + k)) = omega arith in
          let both = file_bytes-append a sector offset k (min (want - k) (n - (offset + k))) in
          (
            c',
            step (file_bytes a sector (offset + k) (min (want - k) (n - (offset + k)))) c' e
                ∙ ap (λ (bytes : List ℕ). ok (bytes, c'))
                    (sym both ∙ ap (λ (i : ℕ). file_bytes a sector offset i) (sym m)),
            x,
          )
    ]
  ]

  length-file_bytes : (p k : ℕ) → length (file_bytes a sector p k) ≡ k
  length-file_bytes p zero = refl
  length-file_bytes p (suc k) = ap suc (length-file_bytes (p + 1) k)

  -- From an offset inside a file of n bytes that has no doubly indirect block and lies on the device
  -- with its inode (at sector 20,000,000 at most), `inode_read_at` puts into the buffer the bytes of
  -- the file from the offset on, as many as are asked for and the file still has, and returns their
  -- number, if at each offset one of the two calls of `malloc` succeeds. The cache stays well-formed,
  -- and no sector changes.
  pub inode_read_at-inside :
      (past : ℕ → ℕ) {c : Cache} (v : Holds c a size) (buffer : List ℕ) (want offset : ℕ)
      → ((o : ℕ) → ((mem o).0 || (mem o).1) ≡ true)
      → sector ≤ 20000000
      → offset < n
      → (c' : Cache) × (inode_read_at beyond past mem c sector buffer want offset
          ≡ ok (
            pos (min want (n - offset)),
            overwrite buffer 0 (file_bytes a sector offset (min want (n - offset))),
            c',
          ))
        × Holds c' a size
  unfolding inode_read_at
  inode_read_at-inside past v buffer want offset ready l h =
      let t : ltb 20000000 sector ≡ false = ground arith in
      let u : leb_ℤ (pos n) (pos offset) ≡ false = ground arith in
      let (r, e, b, x) = cache_read-Holds v sector f.inode_inside in
      let (c', e', x') =
        read_rounds_lem (want + 1) x buffer want offset ready (omega arith)
          (omega (arith, f.short)) in
      (
        c',
        rw (t, e, b, f.length_eq, u, e', length-file_bytes offset (min want (n - offset))) refl,
        x',
      )

  -- From an offset at or behind the end of such a file, `inode_read_at` returns 0, and fills the
  -- buffer, as far as it is asked to read, with 512 zeros and then with what lies behind its array of
  -- zeros in memory, whether or not there is memory for bounce buffers.
  pub inode_read_at-outside :
      (past : ℕ → ℕ) {c : Cache} (v : Holds c a size) (buffer : List ℕ) (want offset : ℕ)
      → sector ≤ 20000000
      → n ≤ offset
      → offset < 2147483648
      → (c' : Cache) × (inode_read_at beyond past mem c sector buffer want offset
          ≡ ok (pos 0, overwrite buffer 0 (zeros_from past 0 want), c'))
        × Holds c' a size
  unfolding inode_read_at
  inode_read_at-outside past v buffer want offset l h b =
      let t : ltb 20000000 sector ≡ false = ground arith in
      let u : leb_ℤ (pos n) (pos offset) ≡ true = ground arith in
      let (r, e, d, x) = cache_read-Holds v sector f.inode_inside in
      let (c', e', x') =
        read_outside x want (overwrite buffer 0 (zeros_from past 0 want)) want offset h b in
      let fuel : want + 1 ≡ suc want = omega arith in
      (c', rw (t, e, d, f.length_eq, u, fuel, e') refl, x')
