-- ===== src/Strings/Bounded.antt =====
-- pintos/src/lib/string.c, the routines that measure or fill: strlen, strnlen, memset, strlcpy,
-- strlcat.
pub mod Copies
use cs162_group13_clone.Base.{
  ℕ, zero, suc, ◌+◌, ◌-◌, ◌%◌, ◌==◌, Bool, true, false, ◌&&◌, Outcome, ok, panic, ◌>>=◌, ◌>>◌, ltb,
  if◌then◌else◌,
}
use cs162_group13_clone.Devices.Block.{update}
use cs162_group13_clone.Strings.{Memory, assert_block, assert_pointer, memcpy}

unfoldable pub fill_bytes : Memory → ℕ → ℕ → ℕ → Memory
fill_bytes m dst value zero = m
fill_bytes m dst value (suc size) = fill_bytes (update m dst value) (dst + 1) value size

unfoldable pub memset : Memory → ℕ → ℕ → ℕ → Outcome (ℕ × Memory)
memset m dst value size = do assert_block dst size; ok (dst, fill_bytes m dst (value % 256) size)

-- The loop of `strlen`; the result counts from `length` on.
unfoldable pub count_chars : ℕ → Memory → ℕ → ℕ → Outcome ℕ
count_chars zero m p length = panic
count_chars (suc fuel) m p length =
    let rest = count_chars fuel m (p + 1) (length + 1) in if m p == 0 then ok length else rest

unfoldable pub strlen : ℕ → Memory → ℕ → Outcome ℕ
strlen fuel m string = do assert_pointer string; count_chars fuel m string 0

-- It reads `string[maxlen]` before it compares the length with `maxlen`.
unfoldable pub strnlen : Memory → ℕ → ℕ → ℕ → ℕ
strnlen m string zero length = length
strnlen m string (suc left) length =
    let rest = strnlen m string left (length + 1) in
    if m (string + length) == 0 then length else rest

unfoldable pub strlcpy : ℕ → Memory → ℕ → ℕ → ℕ → Outcome (ℕ × Memory)
strlcpy fuel m dst src size = do
  assert_pointer dst
  assert_pointer src
  src_len ← strlen fuel m src
  if ltb 0 size
      then (do
        let dst_len = if ltb src_len (size - 1) then src_len else size - 1
        (copy, m') ← memcpy m dst src dst_len
        ok (src_len, update m' (dst + dst_len) 0))
      else ok (src_len, m)

unfoldable pub strlcat : ℕ → Memory → ℕ → ℕ → ℕ → Outcome (ℕ × Memory)
strlcat fuel m dst src size = do
  assert_pointer dst
  assert_pointer src
  src_len ← strlen fuel m src
  dst_len ← strlen fuel m dst
  if ltb 0 size && ltb dst_len size
      then (do
        let room = size - dst_len - 1
        let copy_cnt = if ltb src_len room then src_len else room
        (copy, m') ← memcpy m (dst + dst_len) src copy_cnt
        ok (src_len + dst_len, update m' (dst + dst_len + copy_cnt) 0))
      else ok (src_len + dst_len, m)
