-- ===== src/Filesys/FreeMap/Alloc.antt =====
-- free_map_allocate and free_map_release on the bits of the map.
use cs162_group13_clone.Base.{
  ℕ, ◌+◌, ◌≤◌, ◌<◌, ◌≡◌, refl, sym, ap, ◌⊎◌, ◌∙◌, inl, inr, ◌==◌, Bool, true, false, not, Option,
  none, some, ok, panic, arith, if◌then◌else◌, List, length, ◌^◌, ltb, Bool-cases, ==_iff, ne_of_==,
}
use cs162_group13_clone.Kernel.Bitmap.{Bitmap, bitmap_error, bitmap_all, bitmap_mark, elem_cnt}
use cs162_group13_clone.Kernel.Bitmap.Bits.{IsValid, get, Changed, single_bit_lem}
use cs162_group13_clone.Kernel.Bitmap.Range.{
  within, some_in, bitmap_contains_lem, bitmap_set_multiple_lem, bitmap_create_lem,
}
use cs162_group13_clone.Kernel.Bitmap.Scan.{
  AllAre, Finds, nothing, first, Flipped, bitmap_scan_and_flip_lem, AllAre-some_in,
  not-AllAre-some_in,
}
use cs162_group13_clone.Filesys.Cache.{Cache}
use cs162_group13_clone.Filesys.FreeMap.{
  FreeMap, FileWrite, bitmap_write, commit, free_map_allocate, free_map_release, free_map_init,
}

-- The map m' is m with the bits of a range given the value.
pub record Marked (m : FreeMap) (sector cnt : ℕ) (value : Bool) (m' : FreeMap) : Type 0 where
  pub valid : IsValid m'.map
  pub count : m'.map.bit_cnt ≡ m.map.bit_cnt
  pub file : m'.file_open ≡ m.file_open
  pub bits : (j : ℕ) → get m'.map j ≡ (if within sector cnt j then value else get m.map j)

-- What an allocation may give: the first range of free sectors of the device, which are marked, and
-- the map is written if its file is open; nothing, since there is no such range; or nothing, since the
-- map with this range marked could not be written, with every bit as it was.
pub data Allocates (write : FileWrite) (c : Cache) (m : FreeMap) (cnt : ℕ) (o : Option ℕ)
    (m' : FreeMap) (c' : Cache) : Type 0 where
  given :
      (s : ℕ)
      → o ≡ some s
      → s + cnt ≤ m.map.bit_cnt
      → AllAre (get m.map) s cnt false
      → ((i : ℕ) → i < s → ¬ AllAre (get m.map) i cnt false)
      → Marked m s cnt true m'
      → ((m.file_open ≡ false) × (c' ≡ c))
        ⊎ ((m.file_open ≡ true) × (bitmap_write write m'.map c ≡ ok (true, c')))
      → Allocates write c m cnt o m' c'
  no_room :
      o ≡ none
      → m' ≡ m
      → c' ≡ c
      → ((i : ℕ) → i + cnt ≤ m.map.bit_cnt → ¬ AllAre (get m.map) i cnt false)
      → Allocates write c m cnt o m' c'
  not_written :
      (s : ℕ) (m1 : FreeMap)
      → o ≡ none
      → m.file_open ≡ true
      → Marked m s cnt true m1
      → bitmap_write write m1.map c ≡ ok (false, c')
      → IsValid m'.map
      → m'.map.bit_cnt ≡ m.map.bit_cnt
      → ((j : ℕ) → get m'.map j ≡ get m.map j)
      → Allocates write c m cnt o m' c'

-- Clearing a range that was clear before it was set gives back every bit.
restored :
    (f g h : ℕ → Bool) (s cnt : ℕ)
    → AllAre f s cnt false
    → ((j : ℕ) → g j ≡ (if within s cnt j then true else f j))
    → ((j : ℕ) → h j ≡ (if within s cnt j then false else g j))
    → (j : ℕ) → h j ≡ f j
restored f g h s cnt free set_them clear j = elim (Bool-cases (within s cnt j)) [
  | inl e ↦ clear j ∙ rw e (sym (free j (ground arith) (ground arith)))
  | inr e ↦ clear j ∙ rw e (set_them j ∙ rw e)
]

module _ (write : FileWrite) (c : Cache) where
  abbrev Commits : FreeMap → ℕ → ℕ → Bitmap → Type 0
  Commits m cnt s map =
      (o : Option ℕ) × (m' : FreeMap) × (c' : Cache) × (commit write c m cnt s map ≡ ok (o, m', c'))
      × Allocates write c m cnt o m' c'

  commit_none :
      (m : FreeMap) (cnt s : ℕ) (map : Bitmap)
      → Flipped m.map s cnt false map
      → s ≡ bitmap_error
      → ((i : ℕ) → i + cnt ≤ m.map.bit_cnt → ¬ AllAre (get m.map) i cnt false)
      → Commits m cnt s map
  unfolding commit
  commit_none m cnt s map flipped e full =
      let q = flipped.none_found e in
      (
        none,
        record m { map = map },
        c,
        rw ((==_iff s bitmap_error).1 e),
        no_room refl (ap (λ (b : Bitmap). record m { map = b }) q) refl full,
      )

  commit_some :
      (m : FreeMap) (cnt s : ℕ) (map : Bitmap)
      → ((b : Bitmap)
          → b.bit_cnt ≡ m.map.bit_cnt
          → (w : Bool) × (c' : Cache) × (bitmap_write write b c ≡ ok (w, c')))
      → Changed m.map (λ j. if within s cnt j then true else get m.map j) map
      → (s == bitmap_error) ≡ false
      → s + cnt ≤ m.map.bit_cnt
      → AllAre (get m.map) s cnt false
      → ((i : ℕ) → 0 ≤ i → i < s → ¬ AllAre (get m.map) i cnt false)
      → Commits m cnt s map
  unfolding commit
  commit_some m cnt s map total x e q a later = elim (Bool-cases m.file_open) [
    | inr f ↦ (
      some s,
      record m { map = map },
      c,
      rw (e, f) refl,
      given s refl q a (λ i. later i (omega arith)) marked (inl (f, refl)),
    )
    | inl f ↦
        let (w, c', h) = total map x.count in
        elim (Bool-cases w) [
          | inl t ↦ (
            some s,
            record m { map = map },
            c',
            rw (e, f, h, t) refl,
            given s refl q a (λ i. later i (omega arith)) marked (inr (f, rw t at h)),
          )
          | inr t ↦
              let (map', e', y) =
                bitmap_set_multiple_lem map s cnt false x.valid (omega (arith, x.count)) in
              (
                none,
                record m { map = map' },
                c',
                rw (e, f, h, t, e') refl,
                not_written s (record m { map = map }) refl f marked (rw t at h) y.valid
                    (y.count ∙ x.count)
                    (restored (get m.map) (get map) (get map') s cnt a x.bits y.bits),
              )
        ]
  ]
    where
      marked : Marked m s cnt true (record m { map = map })
      marked = record { valid = x.valid; count = x.count; file = refl; bits = x.bits }

  commit_lem :
      (m : FreeMap) (cnt s : ℕ) (map : Bitmap)
      → ((b : Bitmap)
          → b.bit_cnt ≡ m.map.bit_cnt
          → (w : Bool) × (c' : Cache) × (bitmap_write write b c ≡ ok (w, c')))
      → IsValid m.map
      → Finds (get m.map) m.map.bit_cnt 0 cnt false s
      → Flipped m.map s cnt false map
      → Commits m cnt s map
  commit_lem m cnt s map total w (nothing e later) flipped =
      commit_none m cnt s map flipped e (λ i. later i (omega arith))
  commit_lem m cnt s map total w (first p q a later) flipped =
      elim (Bool-cases (s == bitmap_error)) [
        | inl e ↦
            let is_error : s ≡ bitmap_error = (==_iff s bitmap_error).0 e in
            let none : cnt ≡ 0 = omega (arith, w.small) in
            absurd (later 0 (omega arith) (omega arith) (λ k l l'. absurd (omega arith)))
        | inr e ↦
            commit_some m cnt s map total (flipped.found (ne_of_== s bitmap_error e)) e q a later
      ]

  pub free_map_allocate_lem :
      (m : FreeMap) (cnt : ℕ)
      → ((b : Bitmap)
          → b.bit_cnt ≡ m.map.bit_cnt
          → (w : Bool) × (c' : Cache) × (bitmap_write write b c ≡ ok (w, c')))
      → IsValid m.map
      → (o : Option ℕ) × (m' : FreeMap) × (c' : Cache) × (free_map_allocate write c m cnt
          ≡ ok (o, m', c'))
        × Allocates write c m cnt o m' c'
  unfolding free_map_allocate
  free_map_allocate_lem m cnt total w =
      let (s, map, e, found, flipped) =
        bitmap_scan_and_flip_lem m.map 0 cnt false w (omega arith) in
      rw e (commit_lem m cnt s map total w found flipped)

bitmap_all_lem :
    (b : Bitmap) (start cnt : ℕ)
    → IsValid b
    → start + cnt ≤ b.bit_cnt
    → bitmap_all b start cnt ≡ ok (not (some_in (get b) start cnt false))
unfolding bitmap_all
bitmap_all_lem b start cnt w h = rw (bitmap_contains_lem b start cnt false w h)

-- `free_map_release` of a range of held sectors, with the map's file open, does not panic if the
-- write of the map does not, and marks exactly these free.
pub free_map_release_lem :
    (write : FileWrite) (c : Cache) (m : FreeMap) (sector cnt : ℕ)
    → ((b : Bitmap)
        → b.bit_cnt ≡ m.map.bit_cnt
        → (w : Bool) × (c' : Cache) × (bitmap_write write b c ≡ ok (w, c')))
    → IsValid m.map
    → m.file_open ≡ true
    → sector + cnt ≤ m.map.bit_cnt
    → AllAre (get m.map) sector cnt true
    → (m' : FreeMap) × (c' : Cache) × (free_map_release write c m sector cnt ≡ ok (m', c'))
      × Marked m sector cnt false m'
      × ((w : Bool) × (bitmap_write write m'.map c ≡ ok (w, c')))
unfolding free_map_release
free_map_release_lem write c m sector cnt total w f h all =
    let (map, e, x) = bitmap_set_multiple_lem m.map sector cnt false w h in
    let (written, c', e') = total map x.count in
    (
      record m { map = map },
      c',
      rw
          (
            bitmap_all_lem m.map sector cnt w h,
            AllAre-some_in (get m.map) sector cnt true all,
            e,
            f,
            e',
          )
          refl,
      record { valid = x.valid; count = x.count; file = refl; bits = x.bits },
      (written, e'),
    )

-- A release of a range with a sector that is free already is a panic.
pub free_map_release_free :
    (write : FileWrite) (c : Cache) (m : FreeMap) (sector cnt k : ℕ)
    → IsValid m.map
    → sector + cnt ≤ m.map.bit_cnt
    → sector ≤ k
    → k < sector + cnt
    → get m.map k ≡ false
    → free_map_release write c m sector cnt ≡ panic
unfolding free_map_release
free_map_release_free write c m sector cnt k w h p q free = rw (
  bitmap_all_lem m.map sector cnt w h,
  not-AllAre-some_in (get m.map) sector cnt true (λ all. cc (all k p q)),
)

-- The map that `free_map_init` makes, of a device with at least two sectors: valid, with the
-- sectors of the free map and of the root directory held, and every other one free.
pub free_map_init_lem :
    (garbage : List ℕ) (sectors : ℕ)
    → 2 ≤ sectors
    → sectors < 2 ^ 32
    → elem_cnt sectors ≤ length garbage
    → (m : FreeMap) × (free_map_init true true garbage sectors ≡ ok m)
      × IsValid m.map
      × (m.map.bit_cnt ≡ sectors)
      × ((j : ℕ) → j < sectors → get m.map j ≡ ltb j 2)
unfolding free_map_init
free_map_init_lem garbage sectors two small room =
    let (b, e, w, n, clear) = bitmap_create_lem garbage sectors small room in
    let x = (single_bit_lem b 0 w (omega arith)).0 in
    let y = (single_bit_lem (bitmap_mark b 0) 1 x.valid (omega (arith, x.count))).0 in
    (
      record { map = bitmap_mark (bitmap_mark b 0) 1; file_open = false },
      rw e,
      y.valid,
      y.count ∙ x.count ∙ n,
      λ j l. y.bits j ∙ ground (arith, x.bits j, clear j l),
    )
