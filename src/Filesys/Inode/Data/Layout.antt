-- ===== src/Filesys/Inode/Data/Layout.antt =====
-- A file whose sectors are apart, so that a write to one sector leaves the others.
use mathlib.Core.Path.{subst}
use native.Mathlib.Decide.{ℕ_discrete, dec_lt}
use cs162_group13_clone.Base.{
  ℕ, ◌+◌, ◌-◌, ◌*◌, ◌/◌, ◌%◌, ◌≤◌, ◌<◌, ◌≡◌, ◌≢◌, refl, sym, ap, ◌∙◌, true, false, List, get_or,
  length, ltb, leb, ◌==◌, ◌&&◌, if◌then◌else◌, arith, Bool-cases, inl, inr,
}
use cs162_group13_clone.Devices.Block.{Sector}
use cs162_group13_clone.Filesys.Inode.{inode_disk}
use cs162_group13_clone.Filesys.Inode.Data.{slice, overwrite}
use cs162_group13_clone.Filesys.Inode.Data.Bytes.{
  length-slice, get_or-slice, overwrite-outside, overwrite-inside,
}
use cs162_group13_clone.Filesys.Inode.Data.File.{IsFile, data_sector, file_byte}

abbrev pub put_sector : (ℕ → Sector) → ℕ → Sector → ℕ → Sector
put_sector a s bytes j = if s == j then bytes else a j

-- The sectors of the file's bytes are apart, and none of them is the inode's or the indirect
-- block's.
pub record IsSeparate (a : ℕ → Sector) (sector n : ℕ) : Type 0 where
  pub distinct :
      (i j : ℕ)
      → i * 512 < n
      → j * 512 < n
      → data_sector a sector i ≡ data_sector a sector j
      → i ≡ j
  pub not_inode : (i : ℕ) → i * 512 < n → data_sector a sector i ≢ sector
  pub not_indirect :
      (i : ℕ) → i * 512 < n → 63488 < n → data_sector a sector i ≢ (inode_disk (a sector)).indirect

-- The file's bytes from the offset on are cnt bytes of the buffer; its other bytes, and the other
-- sectors, are as they were.
pub record Written (a a' : ℕ → Sector) (sector n : ℕ) (buffer : List ℕ) (offset cnt : ℕ)
    : Type 0 where
  pub places : (i : ℕ) → i * 512 < n → data_sector a' sector i ≡ data_sector a sector i
  pub bytes :
      (p : ℕ)
      → p < n
      → file_byte a' sector p ≡ (
          if leb offset p && ltb p (offset + cnt)
          then get_or buffer (p - offset) 0
          else file_byte a sector p)
  pub others : (j : ℕ) → ((i : ℕ) → i * 512 < n → data_sector a sector i ≢ j) → a' j ≡ a j

pub Written-none :
    (a : ℕ → Sector) (sector n : ℕ) (buffer : List ℕ) (offset cnt : ℕ)
    → cnt ≡ 0
    → Written a a sector n buffer offset cnt
Written-none a sector n buffer offset cnt z = record {
  places = λ i h. refl;
  bytes = λ p h. let t : (leb offset p && ltb p (offset + cnt)) ≡ false = ground arith in rw t refl;
  others = λ j h. refl;
}

-- One write and then one behind it, of what the first left in the buffer.
pub Written-then :
    {a a1 a2 : ℕ → Sector} {sector n : ℕ} (buffer : List ℕ) (offset k want m : ℕ)
    → k + m ≤ want
    → Written a a1 sector n buffer offset k
    → Written a1 a2 sector n (slice buffer k (want - k)) (offset + k) m
    → Written a a2 sector n buffer offset (k + m)
Written-then {a} {a1} {a2} {sector} {n} buffer offset k want m l x y = record {
  places = λ i h. y.places i h ∙ x.places i h;
  bytes = λ p h. elim (Bool-cases (leb (offset + k) p && ltb p (offset + k + m))) [
    | inl t ↦
        let u : (leb offset p && ltb p (offset + (k + m))) ≡ true = ground arith in
        let q : p - (offset + k) < want - k = ground arith in
        let r : k + (p - (offset + k)) ≡ p - offset = ground arith in
        let e = y.bytes p h in
        rw u (
          subst
            (λ b. file_byte a2 sector p ≡ (
              if b
              then get_or (slice buffer k (want - k)) (p - (offset + k)) 0
              else file_byte a1 sector p))
            t e
          ∙ get_or-slice buffer k (want - k) (p - (offset + k)) q
          ∙ ap (λ (j : ℕ). get_or buffer j 0) r)
    | inr t ↦
        let u : (leb offset p && ltb p (offset + (k + m))) ≡ (leb offset p && ltb p (offset + k)) =
          ground arith in
        let e = y.bytes p h in
        rw u (
          subst
            (λ b. file_byte a2 sector p ≡ (
              if b
              then get_or (slice buffer k (want - k)) (p - (offset + k)) 0
              else file_byte a1 sector p))
            t e
          ∙ x.bytes p h)
  ];
  others = λ j h. y.others j (λ i g e. h i g (sym (x.places i g) ∙ e)) ∙ x.others j h;
}

bytes_put :
    (b buffer : List ℕ) (o k q : ℕ)
    → length b ≡ 512
    → o + k ≤ 512
    → get_or (overwrite b o (slice buffer 0 k)) q 0
      ≡ (if leb o q && ltb q (o + k) then get_or buffer (q - o) 0 else get_or b q 0)
bytes_put b buffer o k q w h = elim (Bool-cases (leb o q && ltb q (o + k))) [
  | inl t ↦
      let m : q ≡ o + (q - o) = ground arith in
      let l : q - o < k = ground arith in
      rw t (
        ap (λ (j : ℕ). get_or (overwrite b o (slice buffer 0 k)) j 0) m
        ∙ overwrite-inside b o (slice buffer 0 k) (q - o) (omega (arith, length-slice buffer 0 k))
            (omega (arith, length-slice buffer 0 k))
        ∙ get_or-slice buffer 0 k (q - o) l
        ∙ ap (λ (j : ℕ). get_or buffer j 0) (omega arith))
  | inr t ↦
      let m : o ≤ q → o + k ≤ q = ground arith in
      rw t (overwrite-outside b o (slice buffer 0 k) q (rw (length-slice buffer 0 k) m))
]

module _ {a : ℕ → Sector} {size sector n : ℕ} (f : IsFile a size sector n)
    (d : IsSeparate a sector n) where
  module _ (i : ℕ) (l : i * 512 < n) (bytes : Sector) where
    abbrev after : ℕ → Sector
    after = put_sector a (data_sector a sector i) bytes

    put_sector-inode : after sector ≡ a sector
    put_sector-inode =
        let t : (data_sector a sector i == sector) ≡ false = ground (arith, d.not_inode i l) in
        rw t refl

    put_sector-data : (j : ℕ) → j * 512 < n → data_sector after sector j ≡ data_sector a sector j
    put_sector-data j h = rw put_sector-inode (elim (dec_lt j 124) [
      | yes p ↦ ground arith
      | no p ↦
          let t : (data_sector a sector i == (inode_disk (a sector)).indirect) ≡ false =
            ground (arith, d.not_indirect i l (omega arith)) in
          let u : ltb j 124 ≡ false = ground arith in rw (u, t) refl
    ])

    pub put_sector-IsFile : length bytes ≡ 512 → IsFile after size sector n
    put_sector-IsFile w = record {
      inode_inside = f.inode_inside;
      length_eq = rw put_sector-inode f.length_eq;
      short = f.short;
      indirect_inside = λ h. rw put_sector-inode (f.indirect_inside h);
      inside = λ j h. rw (put_sector-data j h) (f.inside j h);
      full = λ j. elim (Bool-cases (data_sector a sector i == j)) [
        | inl t ↦ rw t w
        | inr t ↦ rw t (f.full j)
      ];
    }

    pub put_sector-IsSeparate : IsSeparate after sector n
    put_sector-IsSeparate = record {
      distinct =
          λ j k h h' e. d.distinct j k h h' (sym (put_sector-data j h) ∙ e ∙ put_sector-data k h');
      not_inode = λ j h. rw (put_sector-data j h) (d.not_inode j h);
      not_indirect = λ j h m. rw (put_sector-data j h, put_sector-inode) (d.not_indirect j h m);
    }

  -- A chunk of the buffer put into the sector that holds the file's byte at the offset.
  abbrev pub put_chunk : List ℕ → ℕ → ℕ → ℕ → Sector
  put_chunk buffer offset k =
      let s = data_sector a sector (offset / 512) in
      put_sector a s (overwrite (a s) (offset % 512) (slice buffer 0 k))

  put_chunk-byte :
      (buffer : List ℕ) (offset k p : ℕ)
      → offset < n
      → offset % 512 + k ≤ 512
      → p < n
      → file_byte (put_chunk buffer offset k) sector p ≡ (
          if leb offset p && ltb p (offset + k)
          then get_or buffer (p - offset) 0
          else file_byte a sector p)
  put_chunk-byte buffer offset k p l w h =
      let i = offset / 512 in
      let s = data_sector a sector i in
      let bytes = overwrite (a s) (offset % 512) (slice buffer 0 k) in
      rw (put_sector-data i (omega arith) bytes (p / 512) (omega arith))
        (elim (ℕ_discrete i (p / 512)) [
          | yes e ↦
              let t : (s == data_sector a sector (p / 512)) ≡ true = ground arith in
              let in_sector : (leb (offset % 512) (p % 512) && ltb (p % 512) (offset % 512 + k))
                  ≡ (leb offset p && ltb p (offset + k)) =
                ground arith in
              let place : p % 512 - offset % 512 ≡ p - offset = omega arith in
              rw t (
                bytes_put (a s) buffer (offset % 512) k (p % 512) (f.full s) w
                ∙ rw (in_sector) (
                    rw place (
                      ap
                        (λ (x : ℕ).
                          if leb offset p && ltb p (offset + k)
                          then get_or buffer (p - offset) 0
                          else get_or (a (data_sector a sector x)) (p % 512) 0)
                        e)))
          | no ne ↦
              let t : (s == data_sector a sector (p / 512)) ≡ false =
                ground (arith, d.distinct i (p / 512) (omega arith) (omega arith)) in
              let away : (leb offset p && ltb p (offset + k)) ≡ false = ground arith in
              rw (t, away) refl
        ])

  pub put_chunk-Written :
      (buffer : List ℕ) (offset k : ℕ)
      → offset < n
      → offset % 512 + k ≤ 512
      → Written a (put_chunk buffer offset k) sector n buffer offset k
  put_chunk-Written buffer offset k l w =
      let i = offset / 512 in
      let s = data_sector a sector i in
      let b = overwrite (a s) (offset % 512) (slice buffer 0 k) in
      record {
        places = put_sector-data i (omega arith) b;
        bytes = λ p h. put_chunk-byte buffer offset k p l w h;
        others = λ j h. let t : (s == j) ≡ false = ground (arith, h i (omega arith)) in rw t refl;
      }
