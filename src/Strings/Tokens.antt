-- ===== src/Strings/Tokens.antt =====
-- pintos/src/lib/string.c, strtok_r and strstr. `*save_ptr` is a value that is passed on.
pub mod First
pub mod Search
use cs162_group13_clone.Base.{
  ℕ, zero, suc, ◌+◌, ◌-◌, ◌==◌, Bool, true, false, not, Outcome, ok, panic, ◌>>=◌, ◌>>◌, leb,
  if◌then◌else◌,
}
use cs162_group13_clone.Base.Int.{ℤ, pos, negsuc}
use cs162_group13_clone.Devices.Block.{update}
use cs162_group13_clone.Strings.{Memory, assert_pointer, strchr, memcmp}
use cs162_group13_clone.Strings.Bounded.{strlen}

-- "Skip any DELIMITERS at our current position": whether the string ended, and the position.
unfoldable pub skip_delimiters : ℕ → Memory → ℕ → ℕ → Outcome (Bool × ℕ)
skip_delimiters zero m delimiters s = panic
skip_delimiters (suc fuel) m delimiters s = do
  found ← strchr (suc fuel) m delimiters (m s)
  let rest = skip_delimiters fuel m delimiters (s + 1)
  if found == 0 then ok (false, s) else if m s == 0 then ok (true, s) else rest

-- "Skip any non-DELIMITERS up to the end of the string."
unfoldable pub skip_token : ℕ → Memory → ℕ → ℕ → Outcome ℕ
skip_token zero m delimiters s = panic
skip_token (suc fuel) m delimiters s = do
  found ← strchr (suc fuel) m delimiters (m s)
  let rest = skip_token fuel m delimiters (s + 1)
  if found == 0 then rest else ok s

-- What follows the token: it is cut off, and the next call starts behind it.
abbrev pub cut_token : Memory → ℕ → ℕ → ℕ × ℕ × Memory
cut_token m token s = if not (m s == 0) then (token, s + 1, update m s 0) else (token, s, m)

-- The token, `*save_ptr` and the memory.
unfoldable pub strtok_r : ℕ → Memory → ℕ → ℕ → ℕ → Outcome (ℕ × ℕ × Memory)
strtok_r fuel m s delimiters save_ptr = do
  assert_pointer delimiters
  let start = if s == 0 then save_ptr else s
  assert_pointer start
  (ended, token) ← skip_delimiters fuel m delimiters start
  if ended
      then ok (0, token, m)
      else (do s' ← skip_token fuel m delimiters token; ok (cut_token m token s'))

abbrev pub is_zero : ℤ → Bool
is_zero (pos n) = n == 0
is_zero (negsuc n) = false

-- The loop of `strstr`, with the rounds that are left.
unfoldable pub search_from : ℕ → Memory → ℕ → ℕ → ℕ → ℕ → Outcome ℕ
search_from zero m haystack needle needle_len i = ok 0
search_from (suc rounds) m haystack needle needle_len i = do
  order ← memcmp m (haystack + i) needle needle_len
  let rest = search_from rounds m haystack needle needle_len (i + 1)
  if is_zero order then ok (haystack + i) else rest

unfoldable pub strstr : ℕ → Memory → ℕ → ℕ → Outcome ℕ
strstr fuel m haystack needle = do
  haystack_len ← strlen fuel m haystack
  needle_len ← strlen fuel m needle
  if leb needle_len haystack_len
      then search_from (haystack_len - needle_len + 1) m haystack needle needle_len 0
      else ok 0
