-- ===== src/Strings/Copy.antt =====
-- memcpy and memmove: what the memory holds after a copy.
use mathlib.Core.Path.{fun_ext}
use native.Mathlib.Decide.{dec_lt, ℕ_discrete}
use cs162_group13_clone.Base.{
  ℕ, zero, suc, ◌+◌, ◌-◌, ◌≤◌, ◌<◌, ◌≡◌, ◌≢◌, refl, sym, ap, ◌∙◌, true, false, ◌&&◌, ok, ltb, leb,
  ◌==◌, if◌then◌else◌, arith, Bool-cases, inl, inr,
}
use cs162_group13_clone.Devices.Block.{update}
use cs162_group13_clone.Strings.{Memory, copy_up, copy_down, memcpy, memmove}

-- The memory after `size` bytes from src on are put to dst at once.
abbrev pub copied : Memory → ℕ → ℕ → ℕ → Memory
copied m dst src size j = if leb dst j && ltb j (dst + size) then m (src + (j - dst)) else m j

copied_none : (m : Memory) (dst src j : ℕ) → copied m dst src 0 j ≡ m j
copied_none m dst src j = let t : (leb dst j && ltb j (dst + 0)) ≡ false = ground arith in rw t refl

-- The first byte and then the others.
copied_first :
    (m : Memory) (dst src size : ℕ)
    → (src < dst → src + suc size ≤ dst)
    → (j : ℕ)
    → copied (update m dst (m src)) (dst + 1) (src + 1) size j ≡ copied m dst src (suc size) j
copied_first m dst src size h j = elim (ℕ_discrete j dst) [
  | yes e ↦
      let t : (leb (dst + 1) j && ltb j (dst + 1 + size)) ≡ false = ground arith in
      let u : (leb dst j && ltb j (dst + suc size)) ≡ true = ground arith in
      let v : (j == dst) ≡ true = ground arith in rw (t, u, v) (ap m (omega arith))
  | no ne ↦
      let v : (j == dst) ≡ false = ground arith in
      let same : (leb (dst + 1) j && ltb j (dst + 1 + size))
          ≡ (leb dst j && ltb j (dst + suc size)) =
        ground arith in
      elim (Bool-cases (leb dst j && ltb j (dst + suc size))) [
        | inr t ↦ rw (same, t, v) refl
        | inl t ↦
            let l : dst ≤ j = ground arith in
            let r : j < dst + suc size = ground arith in
            let place : src + 1 + (j - (dst + 1)) ≡ src + (j - dst) = omega arith in
            let w : (src + (j - dst) == dst) ≡ false = elim (dec_lt src dst) [
              | yes p ↦ let q = h p in ground arith
              | no p ↦ ground arith
            ] in
            rw (same, t, place, w) refl
      ]
]

-- The last byte and then the others.
copied_last :
    (m : Memory) (dst src size : ℕ)
    → (dst < src → dst + suc size ≤ src)
    → (j : ℕ)
    → copied (update m (dst + size) (m (src + size))) dst src size j ≡ copied m dst src (suc size) j
copied_last m dst src size h j = elim (ℕ_discrete j (dst + size)) [
  | yes e ↦
      let t : (leb dst j && ltb j (dst + size)) ≡ false = ground arith in
      let u : (leb dst j && ltb j (dst + suc size)) ≡ true = ground arith in
      let v : (j == dst + size) ≡ true = ground arith in rw (t, u, v) (ap m (omega arith))
  | no ne ↦
      let v : (j == dst + size) ≡ false = ground arith in
      let same : (leb dst j && ltb j (dst + size)) ≡ (leb dst j && ltb j (dst + suc size)) =
        ground arith in
      elim (Bool-cases (leb dst j && ltb j (dst + suc size))) [
        | inr t ↦ rw (same, t, v) refl
        | inl t ↦
            let l : dst ≤ j = ground arith in
            let r : j < dst + suc size = ground arith in
            let w : (src + (j - dst) == dst + size) ≡ false = elim (dec_lt dst src) [
              | yes p ↦ let q = h p in ground arith
              | no p ↦ ground arith
            ] in
            rw (same, t, w) refl
      ]
]

copy_up_lem :
    (m : Memory) (dst src size : ℕ)
    → (src < dst → src + size ≤ dst)
    → (j : ℕ) → copy_up m dst src size j ≡ copied m dst src size j
unfolding copy_up
copy_up_lem m dst src zero h j = sym (copied_none m dst src j)
copy_up_lem m dst src (suc size) h j =
    copy_up_lem (update m dst (m src)) (dst + 1) (src + 1) size
      (λ p. let q = h (omega arith) in omega arith) j
    ∙ copied_first m dst src size h j

copy_down_lem :
    (m : Memory) (dst src size : ℕ)
    → (dst < src → dst + size ≤ src)
    → (j : ℕ) → copy_down m dst src size j ≡ copied m dst src size j
unfolding copy_down
copy_down_lem m dst src zero h j = sym (copied_none m dst src j)
copy_down_lem m dst src (suc size) h j =
    copy_down_lem (update m (dst + size) (m (src + size))) dst src size
      (λ p. let q = h p in omega arith) j
    ∙ copied_last m dst src size h j

-- `memmove` between blocks that are not null and may overlap in any way puts the bytes that the
-- source had before into the destination and changes no other byte. The pointer that it returns is
-- the destination only where the destination does not lie before the source; else it is its end.
pub memmove_lem :
    (m : Memory) (dst src size : ℕ)
    → dst ≢ 0
    → src ≢ 0
    → memmove m dst src size ≡ ok (if ltb dst src then dst + size else dst, copied m dst src size)
unfolding memmove
memmove_lem m dst src size p q =
    let t : (dst == 0) ≡ false = ground arith in
    let u : (src == 0) ≡ false = ground arith in
    elim (Bool-cases (ltb dst src)) [
      | inl e ↦
          let same : copy_up m dst src size ≡ copied m dst src size =
            fun_ext (copy_up_lem m dst src size (λ l. ground arith)) in
          rw (t, u, e, same) refl
      | inr e ↦
          let same : copy_down m dst src size ≡ copied m dst src size =
            fun_ext (copy_down_lem m dst src size (λ l. ground arith)) in
          rw (t, u, e, same) refl
    ]

pub memcpy_lem :
    (m : Memory) (dst src size : ℕ)
    → dst ≢ 0
    → src ≢ 0
    → (src < dst → src + size ≤ dst)
    → memcpy m dst src size ≡ ok (dst, copied m dst src size)
unfolding memcpy
memcpy_lem m dst src size p q h =
    let t : (dst == 0) ≡ false = ground arith in
    let u : (src == 0) ≡ false = ground arith in
    let same : copy_up m dst src size ≡ copied m dst src size =
      fun_ext (copy_up_lem m dst src size h) in
    rw (t, u, same) refl

-- Between blocks that are not null and do not overlap, `memcpy` and `memmove` leave the same memory.
pub memcpy-memmove :
    (m : Memory) (dst src size : ℕ)
    → dst ≢ 0
    → src ≢ 0
    → (src < dst → src + size ≤ dst)
    → (m' : Memory) × (p : ℕ) × (memcpy m dst src size ≡ ok (dst, m'))
      × (memmove m dst src size ≡ ok (p, m'))
memcpy-memmove m dst src size p q h = (
  copied m dst src size,
  if ltb dst src then dst + size else dst,
  memcpy_lem m dst src size p q h,
  memmove_lem m dst src size p q,
)
