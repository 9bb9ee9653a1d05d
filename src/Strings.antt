-- ===== src/Strings.antt =====
-- pintos/src/lib/string.c over a memory of bytes. A pointer is an address, and 0 the null pointer.
-- A loop that runs to the end of a string recurs on `fuel`; `panic` stands for a failed ASSERT and
-- for fuel that has run out.
pub mod Copy
pub mod Texts
pub mod Compare
pub mod Bounded
pub mod Tokens
mod Tests
use cs162_group13_clone.Base.{
  ℕ, zero, suc, ◌+◌, ◌-◌, ◌%◌, ◌==◌, Bool, true, false, not, ◌&&◌, ◌||◌, Outcome, ok, panic, assert,
  ◌>>=◌, ◌>>◌, ltb, leb, if◌then◌else◌,
}
use cs162_group13_clone.Base.Int.{ℤ, pos, negsuc}
use cs162_group13_clone.Devices.Block.{update}

abbrev pub Memory : Type 0
Memory = ℕ → ℕ

-- ASSERT (p != NULL || size == 0)
abbrev pub assert_block : ℕ → ℕ → Outcome (Unit {0})
assert_block p size = assert (not (p == 0) || size == 0)

-- ASSERT (p != NULL)
abbrev pub assert_pointer : ℕ → Outcome (Unit {0})
assert_pointer p = assert (not (p == 0))

-- `while (size-- > 0) *dst++ = *src++;`
unfoldable pub copy_up : Memory → ℕ → ℕ → ℕ → Memory
copy_up m dst src zero = m
copy_up m dst src (suc size) = copy_up (update m dst (m src)) (dst + 1) (src + 1) size

-- `while (size-- > 0) *--dst = *--src;`, from the ends on.
unfoldable pub copy_down : Memory → ℕ → ℕ → ℕ → Memory
copy_down m dst src zero = m
copy_down m dst src (suc size) = copy_down (update m (dst + size) (m (src + size))) dst src size

-- The pointer returned, and the memory.
unfoldable pub memcpy : Memory → ℕ → ℕ → ℕ → Outcome (ℕ × Memory)
memcpy m dst src size = do
  assert_block dst size
  assert_block src size
  ok (dst, copy_up m dst src size)

-- The code returns its own `dst`, which the first loop has moved.
unfoldable pub memmove : Memory → ℕ → ℕ → ℕ → Outcome (ℕ × Memory)
memmove m dst src size = do
  assert_block dst size
  assert_block src size
  if ltb dst src
      then ok (dst + size, copy_up m dst src size)
      else ok (dst, copy_down m dst src size)

unfoldable pub compare_bytes : Memory → ℕ → ℕ → ℕ → ℤ
compare_bytes m a b zero = pos 0
compare_bytes m a b (suc size) =
    let rest = compare_bytes m (a + 1) (b + 1) size in
    if m a == m b then rest else if ltb (m b) (m a) then pos 1 else negsuc 0

unfoldable pub memcmp : Memory → ℕ → ℕ → ℕ → Outcome ℤ
memcmp m a b size = do assert_block a size; assert_block b size; ok (compare_bytes m a b size)

unfoldable pub compare_strings : ℕ → Memory → ℕ → ℕ → Outcome ℤ
compare_strings zero m a b = panic
compare_strings (suc fuel) m a b =
    let rest = compare_strings fuel m (a + 1) (b + 1) in
    if not (m a == 0) && (m a == m b)
    then rest
    else if ltb (m a) (m b)
    then ok (negsuc 0)
    else if ltb (m b) (m a)
    then ok (pos 1)
    else ok (pos 0)

unfoldable pub strcmp : ℕ → Memory → ℕ → ℕ → Outcome ℤ
strcmp fuel m a b = do assert_pointer a; assert_pointer b; compare_strings fuel m a b

-- The loop of `memchr`.
unfoldable pub find_byte : Memory → ℕ → ℕ → ℕ → ℕ
find_byte m block ch zero = 0
find_byte m block ch (suc size) =
    let rest = find_byte m (block + 1) ch size in if m block == ch then block else rest

unfoldable pub memchr : Memory → ℕ → ℕ → ℕ → Outcome ℕ
memchr m block ch size = do assert_block block size; ok (find_byte m block (ch % 256) size)

-- The loop of `strchr`.
unfoldable pub find_char : ℕ → Memory → ℕ → ℕ → Outcome ℕ
find_char zero m string c = panic
find_char (suc fuel) m string c =
    let rest = find_char fuel m (string + 1) c in
    if m string == c then ok string else if m string == 0 then ok 0 else rest

unfoldable pub strchr : ℕ → Memory → ℕ → ℕ → Outcome ℕ
strchr fuel m string c = do assert_pointer string; find_char fuel m string (c % 256)

-- The loops of `strcspn` and `strspn`, which stop where `strchr` finds the character, or does not.
unfoldable pub span_from : ℕ → Memory → ℕ → ℕ → Bool → ℕ → Outcome ℕ
span_from zero m string set stop_found length = panic
span_from (suc fuel) m string set stop_found length =
    if m (string + length) == 0 then ok length else (do
      found ← strchr (suc fuel) m set (m (string + length))
      let rest = span_from fuel m string set stop_found (length + 1)
      if stop_found
          then (if not (found == 0) then ok length else rest)
          else if found == 0
          then ok length
          else rest)

unfoldable pub strcspn : ℕ → Memory → ℕ → ℕ → Outcome ℕ
strcspn fuel m string stop = span_from fuel m string stop true 0

unfoldable pub strspn : ℕ → Memory → ℕ → ℕ → Outcome ℕ
strspn fuel m string skip = span_from fuel m string skip false 0

unfoldable pub strpbrk : ℕ → Memory → ℕ → ℕ → Outcome ℕ
strpbrk zero m string stop = panic
strpbrk (suc fuel) m string stop = if m string == 0 then ok 0 else (do
  found ← strchr (suc fuel) m stop (m string)
  let rest = strpbrk fuel m (string + 1) stop
  if not (found == 0) then ok string else rest)

-- The loop of `strrchr`, with its `p`.
unfoldable pub last_char : ℕ → Memory → ℕ → ℕ → ℕ → Outcome ℕ
last_char zero m string c p = panic
last_char (suc fuel) m string c p =
    let rest = last_char fuel m (string + 1) c (if m string == c then string else p) in
    if m string == 0 then ok p else rest

unfoldable pub strrchr : ℕ → Memory → ℕ → ℕ → Outcome ℕ
strrchr fuel m string c = last_char fuel m string (c % 256) 0
