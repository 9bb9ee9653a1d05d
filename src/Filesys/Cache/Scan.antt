-- ===== src/Filesys/Cache/Scan.antt =====
-- The loops over the entries: they change ref_counts only, and find the last entry of a sector.
use cs162_group13_clone.Base.{
  ℕ, zero, suc, ◌+◌, ◌≡◌, refl, ap, ◌==◌, List, [], ◌∷◌, Option, none, some, arith, if◌then◌else◌,
  length, set,
}
use cs162_group13_clone.Base.Int.{ℤ, pos, ◌-ℤ◌, to_int32}
use cs162_group13_clone.Devices.Block.{Sector}
use cs162_group13_clone.Filesys.Cache.{
  Entry, Choice, bump, read_scan, write_scan, age_back, touch_entry, consider,
}
use cs162_group13_clone.Filesys.Cache.View.{cached, Agree, SameRefs, AllGood}

-- New ref_counts for the first n entries.
unfoldable pub map_refs : (ℕ → ℤ → ℤ) → ℕ → List Entry → List Entry
map_refs g zero es = es
map_refs g (suc n) [] = []
map_refs g (suc n) (e ∷ es) = record e { ref_count = g e.sector e.ref_count } ∷ map_refs g n es

module _ (g : ℕ → ℤ → ℤ) where
  pub length-map_refs : (n : ℕ) (es : List Entry) → length (map_refs g n es) ≡ length es
  unfolding map_refs
  length-map_refs zero es = refl
  length-map_refs (suc n) [] = refl
  length-map_refs (suc n) (e ∷ es) = ap suc (length-map_refs n es)

  pub cached-map_refs :
      (n : ℕ) (es : List Entry) (s : ℕ) → cached n (map_refs g n es) s ≡ cached n es s
  unfolding map_refs
  cached-map_refs zero es s = refl
  cached-map_refs (suc n) [] s = refl
  cached-map_refs (suc n) (e ∷ es) s = ground (arith, cached-map_refs n es s)

  pub map_refs-AllGood :
      (size n : ℕ) (es : List Entry) → AllGood size n es → AllGood size n (map_refs g n es)
  unfolding map_refs
  map_refs-AllGood size zero es h = tt
  map_refs-AllGood size (suc n) [] h = tt
  map_refs-AllGood size (suc n) (e ∷ es) h = (h.0, h.1, map_refs-AllGood size n es h.2)

  pub map_refs-Agree :
      (n : ℕ) (es : List Entry) (s : ℕ) (r : ℤ)
      → Agree n es s r
      → Agree n (map_refs g n es) s (g s r)
  unfolding map_refs
  map_refs-Agree zero es s r h = tt
  map_refs-Agree (suc n) [] s r h = tt
  map_refs-Agree (suc n) (e ∷ es) s r h = (λ p. cc (p, h.0 p), map_refs-Agree n es s r h.1)

  pub map_refs-SameRefs : (n : ℕ) (es : List Entry) → SameRefs n es → SameRefs n (map_refs g n es)
  unfolding map_refs
  map_refs-SameRefs zero es h = tt
  map_refs-SameRefs (suc n) [] h = tt
  map_refs-SameRefs (suc n) (e ∷ es) h =
      (map_refs-Agree n es e.sector e.ref_count h.0, map_refs-SameRefs n es h.1)

-- What the first loops do to the ref_counts.
abbrev pub touch_ref : ℕ → ℕ → ℤ → ℤ
touch_ref sector s r = if s == sector then pos 0 else bump r

abbrev pub touch : ℕ → ℕ → List Entry → List Entry
touch sector = map_refs (touch_ref sector)

abbrev pub lower_ref : ℕ → ℤ → ℤ
lower_ref s r = to_int32 (r -ℤ pos 1)

pub age_back_lem : (n : ℕ) (es : List Entry) → age_back n es ≡ map_refs lower_ref n es
unfolding age_back map_refs
age_back_lem zero es = refl
age_back_lem (suc n) [] = refl
age_back_lem (suc n) (e ∷ es) = rw (age_back_lem n es)

abbrev pub or_else : Option Sector → Option Sector → Option Sector
or_else none d = d
or_else (some b) d = some b

pub read_scan_lem :
    (n : ℕ) (es : List Entry) (s : ℕ) (out : Option Sector)
    → read_scan n es s out ≡ (touch s n es, or_else (cached n es s) out)
unfolding read_scan map_refs
read_scan_lem zero es s out = refl
read_scan_lem (suc n) [] s out = refl
read_scan_lem (suc n) (e ∷ es) s out =
    ground (arith, read_scan_lem n es s (if e.sector == s then some e.bytes else out))

pub write_scan-touch :
    (n i : ℕ) (es : List Entry) (s : ℕ) (c : Choice) → (write_scan n i es s c).0 ≡ touch s n es
unfolding write_scan map_refs
write_scan-touch zero i es s c = refl
write_scan-touch (suc n) i [] s c = refl
write_scan-touch (suc n) i (e ∷ es) s c =
    ap (λ t. touch_entry s e ∷ t) (write_scan-touch n (i + 1) es s (consider s i e c))

-- After the loop an entry for the sector has the ref_count 0.
pub touch-Agree : (n : ℕ) (es : List Entry) (s : ℕ) → Agree n (touch s n es) s (pos 0)
unfolding map_refs
touch-Agree zero es s = tt
touch-Agree (suc n) [] s = tt
touch-Agree (suc n) (e ∷ es) s = (λ p. ground arith, touch-Agree n es s)

-- The place of the last of the first n entries that is for the sector.
abbrev pub last_match : ℕ → List Entry → ℕ → Option ℕ
last_match zero es s = none
last_match (suc n) [] s = none
last_match (suc n) (e ∷ es) s = elim (last_match n es s) [
  | some k ↦ some (suc k)
  | none ↦ if e.sector == s then some 0 else none
]

pub last_match-none :
    (n : ℕ) (es : List Entry) (s : ℕ) → last_match n es s ≡ none → cached n es s ≡ none
last_match-none zero es s h = refl
last_match-none (suc n) [] s h = refl
last_match-none (suc n) (e ∷ es) s h = ground (arith, last_match-none n es s)

pub last_match_of_uncached :
    (n : ℕ) (es : List Entry) (s : ℕ) → cached n es s ≡ none → last_match n es s ≡ none
last_match_of_uncached zero es s h = refl
last_match_of_uncached (suc n) [] s h = refl
last_match_of_uncached (suc n) (e ∷ es) s h = ground (arith, last_match_of_uncached n es s)

abbrev pub shifted : ℕ → Option ℕ → Option ℕ → Option ℕ
shifted i none r = r
shifted i (some k) r = some (i + k)

pub write_scan-replace :
    (n i : ℕ) (es : List Entry) (s : ℕ) (c : Choice)
    → (write_scan n i es s c).1.replace ≡ shifted i (last_match n es s) c.replace
unfolding write_scan
write_scan-replace zero i es s c = refl
write_scan-replace (suc n) i [] s c = refl
write_scan-replace (suc n) i (e ∷ es) s c =
    ground (arith, write_scan-replace n (i + 1) es s (consider s i e c))

-- Writing to the last entry of a sector changes what is cached for that sector, and no other.
pub cached-set_last :
    (n : ℕ) (es : List Entry) (s k : ℕ) (e' : Entry) (j : ℕ)
    → last_match n es s ≡ some k
    → e'.sector ≡ s
    → cached n (set es k e') j ≡ (if s == j then some e'.bytes else cached n es j)
cached-set_last zero es s k e' j h p = cc
cached-set_last (suc n) [] s k e' j h p = cc
cached-set_last (suc n) (e ∷ es) s zero e' j h p = ground (arith, last_match-none n es s)
cached-set_last (suc n) (e ∷ es) s (suc k) e' j h p = ground (arith, cached-set_last n es s k e' j)

pub last_match-map_refs :
    (g : ℕ → ℤ → ℤ) (n : ℕ) (es : List Entry) (s : ℕ)
    → last_match n (map_refs g n es) s ≡ last_match n es s
unfolding map_refs
last_match-map_refs g zero es s = refl
last_match-map_refs g (suc n) [] s = refl
last_match-map_refs g (suc n) (e ∷ es) s = ground (arith, last_match-map_refs g n es s)
