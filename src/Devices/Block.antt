-- ===== src/Devices/Block.antt =====
-- pintos/src/devices/block.c: access to a block device by sector numbers.
-- The driver behind `block->ops` is a map from sectors to their bytes, which a write updates; the
-- 64-bit statistics counters are kept.
use cs162_group13_clone.Base.{
  ℕ, ◌+◌, ◌%◌, ◌^◌, ◌<◌, ◌≡◌, ◌≢◌, sym, inl, inr, ◌==◌, ==_iff, Bool-cases, lt→ltb, Bool, false,
  not, List, Outcome, ok, assert, ◌>>◌, ltb, if◌then◌else◌,
}

-- The bytes of a sector.
abbrev pub Sector : Type 0
Sector = List ℕ

pub record Block : Type 0 where
  pub size : ℕ
  -- type == BLOCK_FOREIGN
  pub foreign : Bool
  pub content : ℕ → Sector
  pub read_cnt : ℕ
  pub write_cnt : ℕ

abbrev pub check_sector : Block → ℕ → Outcome (Unit {0})
check_sector block sector = assert (ltb sector block.size)

-- What goes through `buffer`, and the device.
unfoldable pub block_read : Block → ℕ → Outcome (Sector × Block)
block_read block sector =
    check_sector block sector
    >> ok (block.content sector, record block { read_cnt = (block.read_cnt + 1) % 2 ^ 64 })

abbrev pub update {ℓ} : {A : Type ℓ} → (ℕ → A) → ℕ → A → ℕ → A
update f k v j = if j == k then v else f j

unfoldable pub block_write : Block → ℕ → Sector → Outcome Block
block_write block sector buffer = do
  check_sector block sector
  assert (not block.foreign)
  ok (record block {
    content = update block.content sector buffer;
    write_cnt = (block.write_cnt + 1) % 2 ^ 64;
  })

-- The device after a write that passes the checks.
abbrev pub stored : Block → ℕ → Sector → Block
stored block sector buffer = record block {
  content = update block.content sector buffer;
  write_cnt = (block.write_cnt + 1) % 2 ^ 64;
}

abbrev pub counted_read : Block → Block
counted_read block = record block { read_cnt = (block.read_cnt + 1) % 2 ^ 64 }

module _ (block : Block) (sector : ℕ) (inside : sector < block.size) where
  pub block_write-eq_stored :
      (buffer : Sector)
      → block.foreign ≡ false
      → block_write block sector buffer ≡ ok (stored block sector buffer)
  unfolding block_write
  block_write-eq_stored buffer local = rw (lt→ltb _ _ inside, local)

  pub block_read_lem : block_read block sector ≡ ok (block.content sector, counted_read block)
  unfolding block_read
  block_read_lem = rw (lt→ltb _ _ inside)

module _ {ℓ} {A : Type ℓ} (f : ℕ → A) (v : A) where
  pub update_self : {k j : ℕ} → k ≡ j → update f k v j ≡ v
  update_self {k} {j} p = rw ((==_iff j k).1 (sym p))

  pub update_ne : {k j : ℕ} → k ≢ j → update f k v j ≡ f j
  update_ne {k} {j} p = elim (Bool-cases (j == k)) [
    | inl e ↦ absurd (p (sym ((==_iff j k).0 e)))
    | inr e ↦ rw e
  ]
