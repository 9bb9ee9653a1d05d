-- ===== src/Strings/Tests.antt =====
-- A memory with " ab cd" at 100, " " at 200, "cd" at 300 and null bytes elsewhere.
use cs162_group13_clone.Base.{
  ℕ, zero, suc, ◌+◌, ◌-◌, ◌≤◌, ◌≡◌, refl, List, [], ◌∷◌, ok, arith, ltb, leb, ◌==◌, ◌&&◌,
  if◌then◌else◌,
}
use cs162_group13_clone.Base.Int.{ℤ}
use cs162_group13_clone.Strings.{
  Memory, memmove, memcpy, memchr, strcmp, strrchr, strcspn, find_byte, find_char, strchr,
  span_from, last_char,
}
use cs162_group13_clone.Strings.Copy.{copied, memmove_lem, memcpy-memmove}
use cs162_group13_clone.Strings.Texts.{IsString}
use cs162_group13_clone.Strings.Compare.{Ordered, strcmp_lem}
use cs162_group13_clone.Strings.Bounded.{strlcpy}
use cs162_group13_clone.Strings.Bounded.Copies.{take, strlcpy_lem}
use cs162_group13_clone.Strings.Tokens.{strtok_r, strstr}
use cs162_group13_clone.Strings.Tokens.First.{Tokenised, strtok_r_lem}
use cs162_group13_clone.Strings.Tokens.Search.{Found, strstr_lem}

abbrev line : List ℕ
line = b' ' ∷ b'a' ∷ b'b' ∷ b' ' ∷ b'c' ∷ b'd' ∷ []

abbrev word_cd : List ℕ
word_cd = b'c' ∷ b'd' ∷ []

abbrev byte_of : List ℕ → ℕ → ℕ
byte_of [] i = 0
byte_of (x ∷ xs) zero = x
byte_of (x ∷ xs) (suc i) = byte_of xs i

abbrev memory : Memory
memory p =
    if leb 100 p && ltb p 200
    then byte_of line (p - 100)
    else if p == 200
    then b' '
    else if leb 300 p
    then byte_of word_cd (p - 300)
    else 0

line-IsString : IsString memory 100 line
line-IsString = omega arith

space-IsString : IsString memory 200 (b' ' ∷ [])
space-IsString = omega arith

word_cd-IsString : IsString memory 300 word_cd
word_cd-IsString = omega arith

-- The source overlaps the destination, which stands before it.
memmove_lem_example :
    memmove memory 100 102 5 ≡ ok (if ltb 100 102 then 100 + 5 else 100, copied memory 100 102 5)
memmove_lem_example = memmove_lem memory 100 102 5 (omega arith) (omega arith)

memcpy-memmove_example :
    (m' : Memory) × (p : ℕ) × (memcpy memory 400 100 7 ≡ ok (400, m'))
    × (memmove memory 400 100 7 ≡ ok (p, m'))
memcpy-memmove_example =
    memcpy-memmove memory 400 100 7 (omega arith) (omega arith) (λ l. omega arith)

strcmp_lem_example : (r : ℤ) × (strcmp 10 memory 100 300 ≡ ok r) × Ordered line word_cd r
strcmp_lem_example =
    strcmp_lem 10 memory 100 300 line word_cd (omega arith) (omega arith) line-IsString
      word_cd-IsString (omega arith)

strlcpy_lem_example :
    (m' : Memory) × (strlcpy 10 memory 400 100 4 ≡ ok (6, m'))
    × IsString m' 400 (take (4 - 1) line)
    × ((j : ℕ) → (400 ≤ j → 400 + 4 ≤ j) → m' j ≡ memory j)
strlcpy_lem_example =
    strlcpy_lem 10 memory 400 100 4 line (omega arith) (omega arith) (omega arith) line-IsString
      (omega arith) (λ l. omega arith)

strtok_r_lem_example : Tokenised memory 100 (b' ' ∷ []) line (strtok_r 10 memory 100 200 0)
strtok_r_lem_example =
    strtok_r_lem 10 memory 100 200 0 100 (b' ' ∷ []) line refl (omega arith) (omega arith)
      line-IsString space-IsString (omega arith)

strstr_lem_example : Found 100 line word_cd (strstr 10 memory 100 300)
strstr_lem_example =
    strstr_lem 10 memory 100 300 line word_cd (omega arith) (omega arith) line-IsString
      word_cd-IsString (omega arith) (omega arith)

-- The character that is looked for stands at 103 last, and " a" spans two characters.
strrchr_finds : strrchr 10 memory 100 b' ' ≡ ok 103
unfolding strrchr last_char
strrchr_finds = refl

strcspn_counts : strcspn 10 memory 101 200 ≡ ok 2
unfolding strcspn span_from strchr find_char
strcspn_counts = refl

-- Two bytes before the end of a block of three, and behind it.
memchr_misses : memchr memory 100 b'b' 2 ≡ ok 0
unfolding memchr find_byte
memchr_misses = refl
