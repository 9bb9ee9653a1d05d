-- ===== src/Filesys/Cache/View.antt =====
-- What the cache stands for: one array of sectors. Of several entries for a sector the last one
-- counts, as in the loops of the code; a sector with no entry is read from the device.
use cs162_group13_clone.Base.{
  ℕ, zero, suc, ◌≡◌, refl, sym, ◌≢◌, ◌≤◌, ◌<◌, ◌==◌, true, false, List, [], ◌∷◌, Option, none, some,
  arith, if◌then◌else◌, length, set,
}
use cs162_group13_clone.Base.Int.{ℤ}
use cs162_group13_clone.Devices.Block.{Sector, Block}
use cs162_group13_clone.Filesys.Cache.{Entry, Cache, cache_init}

-- The bytes that the first n entries hold for a sector.
abbrev pub cached : ℕ → List Entry → ℕ → Option Sector
cached zero es s = none
cached (suc n) [] s = none
cached (suc n) (e ∷ es) s = elim (cached n es s) [
  | some d ↦ some d
  | none ↦ if e.sector == s then some e.bytes else none
]

abbrev pub or_device : Option Sector → Sector → Sector
or_device none d = d
or_device (some b) d = b

abbrev pub view : Cache → ℕ → Sector
view c s = or_device (cached c.entry_num c.entries s) (c.device.content s)

-- None of the first n entries is for the sector.
abbrev pub Absent : ℕ → List Entry → ℕ → Type 0
Absent zero es s = Unit {0}
Absent (suc n) [] s = Unit {0}
Absent (suc n) (e ∷ es) s = (e.sector ≢ s) × Absent n es s

-- Each of the first n entries that is for the sector has the ref_count r.
abbrev pub Agree : ℕ → List Entry → ℕ → ℤ → Type 0
Agree zero es s r = Unit {0}
Agree (suc n) [] s r = Unit {0}
Agree (suc n) (e ∷ es) s r = (e.sector ≡ s → e.ref_count ≡ r) × Agree n es s r

-- Entries for one sector have one ref_count.
abbrev pub SameRefs : ℕ → List Entry → Type 0
SameRefs zero es = Unit {0}
SameRefs (suc n) [] = Unit {0}
SameRefs (suc n) (e ∷ es) = Agree n es e.sector e.ref_count × SameRefs n es

-- The first n entries are marked for writing, and are for sectors of the device.
abbrev pub AllGood : ℕ → ℕ → List Entry → Type 0
AllGood size zero es = Unit {0}
AllGood size (suc n) [] = Unit {0}
AllGood size (suc n) (e ∷ es) = (e.write ≡ true) × (e.sector < size) × AllGood size n es

pub record IsValid (c : Cache) : Type 0 where
  pub count : c.entry_num ≤ 32
  pub slots : length c.entries ≡ 32
  pub good : AllGood c.device.size c.entry_num c.entries
  pub same : SameRefs c.entry_num c.entries
  pub local_device : c.device.foreign ≡ false

pub cached-Absent : (n : ℕ) (es : List Entry) (s : ℕ) → cached n es s ≡ none → Absent n es s
cached-Absent zero es s h = tt
cached-Absent (suc n) [] s h = tt
cached-Absent (suc n) (e ∷ es) s h = (λ p. ground arith, cached-Absent n es s (ground arith))

pub Absent-cached : (n : ℕ) (es : List Entry) (s : ℕ) → Absent n es s → cached n es s ≡ none
Absent-cached zero es s h = refl
Absent-cached (suc n) [] s h = refl
Absent-cached (suc n) (e ∷ es) s h = ground (arith, Absent-cached n es s h.1)

pub Absent-Agree : (n : ℕ) (es : List Entry) (s : ℕ) (r : ℤ) → Absent n es s → Agree n es s r
Absent-Agree zero es s r h = tt
Absent-Agree (suc n) [] s r h = tt
Absent-Agree (suc n) (e ∷ es) s r h = (λ p. absurd (h.0 p), Absent-Agree n es s r h.1)

module _ (e' : Entry) where
  pub set-Agree :
      (n k : ℕ) (es : List Entry) (s : ℕ) (r : ℤ)
      → (e'.sector ≡ s → e'.ref_count ≡ r)
      → Agree n es s r
      → Agree n (set es k e') s r
  set-Agree zero k es s r p h = tt
  set-Agree (suc n) k [] s r p h = tt
  set-Agree (suc n) zero (e ∷ es) s r p h = (p, h.1)
  set-Agree (suc n) (suc k) (e ∷ es) s r p h = (h.0, set-Agree n k es s r p h.1)

  -- An entry may be put in if those for its sector have its ref_count.
  pub set-SameRefs :
      (n k : ℕ) (es : List Entry)
      → Agree n es e'.sector e'.ref_count
      → SameRefs n es
      → SameRefs n (set es k e')
  set-SameRefs zero k es a h = tt
  set-SameRefs (suc n) k [] a h = tt
  set-SameRefs (suc n) zero (e ∷ es) a h = (a.1, h.1)
  set-SameRefs (suc n) (suc k) (e ∷ es) a h = (
    set-Agree n k es e.sector e.ref_count (λ p. sym (a.0 (sym p))) h.0,
    set-SameRefs n k es a.1 h.1,
  )

  pub append-Agree :
      (n : ℕ) (es : List Entry) (s : ℕ) (r : ℤ)
      → (e'.sector ≡ s → e'.ref_count ≡ r)
      → Agree n es s r
      → Agree (suc n) (set es n e') s r
  append-Agree zero [] s r p h = tt
  append-Agree zero (e ∷ es) s r p h = (p, tt)
  append-Agree (suc n) [] s r p h = tt
  append-Agree (suc n) (e ∷ es) s r p h = (h.0, append-Agree n es s r p h.1)

  pub append-SameRefs :
      (n : ℕ) (es : List Entry)
      → Agree n es e'.sector e'.ref_count
      → SameRefs n es
      → SameRefs (suc n) (set es n e')
  append-SameRefs zero [] a h = tt
  append-SameRefs zero (e ∷ es) a h = (tt, tt)
  append-SameRefs (suc n) [] a h = tt
  append-SameRefs (suc n) (e ∷ es) a h = (
    append-Agree n es e.sector e.ref_count (λ p. sym (a.0 (sym p))) h.0,
    append-SameRefs n es a.1 h.1,
  )

  pub set-AllGood :
      (size n k : ℕ) (es : List Entry)
      → e'.write ≡ true
      → e'.sector < size
      → AllGood size n es
      → AllGood size n (set es k e')
  set-AllGood size zero k es w l h = tt
  set-AllGood size (suc n) k [] w l h = tt
  set-AllGood size (suc n) zero (e ∷ es) w l h = (w, l, h.2)
  set-AllGood size (suc n) (suc k) (e ∷ es) w l h = (h.0, h.1, set-AllGood size n k es w l h.2)

  pub append-AllGood :
      (size n : ℕ) (es : List Entry)
      → e'.write ≡ true
      → e'.sector < size
      → AllGood size n es
      → AllGood size (suc n) (set es n e')
  append-AllGood size zero [] w l h = tt
  append-AllGood size zero (e ∷ es) w l h = (w, l, tt)
  append-AllGood size (suc n) [] w l h = tt
  append-AllGood size (suc n) (e ∷ es) w l h = (h.0, h.1, append-AllGood size n es w l h.2)

  -- A new entry in slot n counts for its sector, and changes no other.
  pub cached-append :
      (n : ℕ) (es : List Entry) (s : ℕ)
      → n < length es
      → cached (suc n) (set es n e') s ≡ (if e'.sector == s then some e'.bytes else cached n es s)
  cached-append n [] s l = absurd (omega arith)
  cached-append zero (e ∷ es) s l = refl
  cached-append (suc n) (e ∷ es) s l = ground (arith, cached-append n es s (omega arith))

-- A new cache is well-formed and stands for what the device holds.
pub cache_init_lem :
    (device : Block)
    → device.foreign ≡ false
    → IsValid (cache_init device) × ((j : ℕ) → view (cache_init device) j ≡ device.content j)
unfolding cache_init
cache_init_lem device local = (
  record { count = omega arith; slots = refl; good = tt; same = tt; local_device = local },
  λ j. refl,
)
