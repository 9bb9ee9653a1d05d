-- ===== src/Filesys/Cache/Read.antt =====
-- `cache_read` reads the array that the cache stands for, and `cache_sync` writes it to the device.
use cs162_group13_clone.Base.{
  Bool, Outcome, panic, inl, inr, ℕ, zero, suc, ◌≡◌, ◌≤◌, refl, ap, ◌∙◌, ◌<◌, ◌==◌, true, false,
  List, [], ◌∷◌, Option, none, some, ok, arith, if◌then◌else◌, Option-cases, Bool-cases, ==_iff,
}
use cs162_group13_clone.Devices.Block.{
  Sector, Block, block_read, block_read_lem, counted_read, block_write-eq_stored, stored,
}
use cs162_group13_clone.Filesys.Cache.{
  Entry, Cache, ReadResult, cache_read, read_miss, answer, sync_entries, cache_sync,
}
use cs162_group13_clone.Filesys.Cache.View.{cached, view, or_device, IsValid, AllGood}
use cs162_group13_clone.Filesys.Cache.Scan.{
  touch_ref, map_refs, lower_ref, age_back_lem, length-map_refs, cached-map_refs, map_refs-AllGood,
  map_refs-SameRefs, read_scan_lem, or_else,
}
use cs162_group13_clone.Filesys.Cache.Slots.{touched, touched-IsValid, view-touched}
use cs162_group13_clone.Filesys.Cache.Write.{cache_write_lem}

abbrev pub is_some : Option Sector → Bool
is_some none = false
is_some (some b) = true

-- What a read gives back: whether the sector was cached, the sector's bytes, and a cache that stands
-- for the same array.
pub record ReadOk (c : Cache) (sector : ℕ) (r : ReadResult) : Type 0 where
  pub hit : r.found ≡ is_some (cached c.entry_num c.entries sector)
  pub bytes : r.data_out ≡ view c sector
  pub valid : IsValid r.cache
  pub size : r.cache.device.size ≡ c.device.size
  pub views : (j : ℕ) → view r.cache j ≡ view c j

abbrev pub Reads : Cache → ℕ → Outcome ReadResult → Type 0
Reads c sector o = (r : ReadResult) × (o ≡ ok r) × ReadOk c sector r

-- The cache as `read_miss` leaves it to `cache_write`.
aged : Cache → Cache
aged c = record c {
  entries = map_refs lower_ref c.entry_num c.entries;
  device = counted_read c.device;
}

aged-IsValid : {c : Cache} → IsValid c → IsValid (aged c)
unfolding aged
aged-IsValid {c} v = record {
  count = v.count;
  slots = length-map_refs lower_ref c.entry_num c.entries ∙ v.slots;
  good = map_refs-AllGood lower_ref c.device.size c.entry_num c.entries v.good;
  same = map_refs-SameRefs lower_ref c.entry_num c.entries v.same;
  local_device = v.local_device;
}

view-aged : (c : Cache) (j : ℕ) → view (aged c) j ≡ view c j
unfolding aged
view-aged c j = rw (cached-map_refs lower_ref c.entry_num c.entries j)

-- A miss writes the bytes that the device holds, which are what the cache stands for.
miss_lem :
    (c : Cache) (sector : ℕ)
    → IsValid c
    → sector < c.device.size
    → cached c.entry_num c.entries sector ≡ none
    → Reads c sector (answer c sector none)
unfolding answer read_miss aged
miss_lem c sector v l miss =
    let (c', e, w) =
      cache_write_lem {c = aged c} sector (c.device.content sector) (aged-IsValid v) l in
    (
      record { found = false; data_out = c.device.content sector; cache = c' },
      rw (block_read_lem c.device sector l, age_back_lem c.entry_num c.entries, e),
      record {
        hit = rw miss;
        bytes = rw miss;
        valid = w.valid;
        size = w.size;
        views = λ j. w.views j ∙ same j;
      },
    )
  where
    same : (j : ℕ) → (if sector == j then c.device.content sector else view (aged c) j) ≡ view c j
    same j = elim (Bool-cases (sector == j)) [
      | inl e ↦ rw (e, ← (==_iff sector j).0 e, miss)
      | inr e ↦ rw e (view-aged c j)
    ]

cache_read-eq_answer :
    (c : Cache) (sector : ℕ)
    → cache_read c sector
      ≡ answer (touched c sector) sector (or_else (cached c.entry_num c.entries sector) none)
unfolding cache_read touched
cache_read-eq_answer c sector = rw (read_scan_lem c.entry_num c.entries sector none)

Reads-touched :
    {c : Cache} {sector : ℕ} {o : Outcome ReadResult}
    → Reads (touched c sector) sector o
    → Reads c sector o
unfolding touched
Reads-touched {c} {sector} (r, e, ok_read) = (
  r,
  e,
  record {
    hit =
        ok_read.hit ∙ ap is_some (cached-map_refs (touch_ref sector) c.entry_num c.entries sector);
    bytes = ok_read.bytes ∙ view-touched c sector sector;
    valid = ok_read.valid;
    size = ok_read.size;
    views = λ j. ok_read.views j ∙ view-touched c sector j;
  },
)

-- `cache_read` of a sector of the device ends and puts into `data` what the stored array holds at
-- the sector, whether that is cached or not, and returns whether it was cached; it keeps the cache
-- well-formed and the array as it is, whatever it evicts.
pub cache_read_lem :
    {c : Cache} (sector : ℕ)
    → IsValid c
    → sector < c.device.size
    → Reads c sector (cache_read c sector)
unfolding touched answer
cache_read_lem {c} sector v l =
    rw (cache_read-eq_answer c sector) (elim (Option-cases (cached c.entry_num c.entries sector)) [
      | inl miss ↦ rw miss (
          Reads-touched (
            miss_lem (touched c sector) sector (touched-IsValid sector v) l
              (cached-map_refs (touch_ref sector) c.entry_num c.entries sector ∙ miss)))
      | inr (b, hit) ↦ rw hit (
        _,
        refl,
        record {
          hit = rw hit;
          bytes = rw hit;
          valid = touched-IsValid sector v;
          size = refl;
          views = view-touched c sector;
        },
      )
    ])

-- The device d' is d with the first n entries written to it in turn.
record Synced (n : ℕ) (es : List Entry) (d d' : Block) : Type 0 where
  size : d'.size ≡ d.size
  local_device : d'.foreign ≡ d.foreign
  content : (j : ℕ) → d'.content j ≡ or_device (cached n es j) (d.content j)

sync_entries_lem :
    (n : ℕ) (es : List Entry) (d : Block)
    → AllGood d.size n es
    → d.foreign ≡ false
    → (d' : Block) × (sync_entries n es d ≡ ok d') × Synced n es d d'
unfolding sync_entries
sync_entries_lem zero es d g f =
    (d, refl, record { size = refl; local_device = refl; content = λ j. refl })
sync_entries_lem (suc n) [] d g f =
    (d, refl, record { size = refl; local_device = refl; content = λ j. refl })
sync_entries_lem (suc n) (e ∷ es) d g f =
    let (d', p, w) = sync_entries_lem n es (stored d e.sector e.bytes) g.2 f in
    (
      d',
      rw (block_write-eq_stored d e.sector g.1 e.bytes f) p,
      record {
        size = w.size;
        local_device = w.local_device;
        content = λ j. w.content j ∙ ground arith;
      },
    )

-- `cache_sync` ends and leaves on the device, whose size stays, the whole array that the cache stands for; the cache
-- stays well-formed, with its entries as they were, and stands for the same array.
pub cache_sync_lem :
    {c : Cache}
    → IsValid c
    → (c' : Cache) × (cache_sync c ≡ ok c')
      × IsValid c'
      × (c'.device.size ≡ c.device.size)
      × (c'.entries ≡ c.entries)
      × ((j : ℕ) → (c'.device.content j ≡ view c j) × (view c' j ≡ view c j))
unfolding cache_sync
cache_sync_lem {c} v =
    let (d, e, w) = sync_entries_lem c.entry_num c.entries c.device v.good v.local_device in
    (
      record c { device = d },
      rw e,
      record {
        count = v.count;
        slots = v.slots;
        good = rw w.size v.good;
        same = v.same;
        local_device = w.local_device ∙ v.local_device;
      },
      w.size,
      refl,
      λ j. (w.content j, ground (arith, w.content j)),
    )

not_cached :
    (size n : ℕ) (es : List Entry) (s : ℕ) → AllGood size n es → size ≤ s → cached n es s ≡ none
not_cached size zero es s g h = refl
not_cached size (suc n) [] s g h = refl
not_cached size (suc n) (e ∷ es) s g h = ground (arith, not_cached size n es s g.2 h, g.1)

block_read-outside :
    (device : Block) (sector : ℕ) → device.size ≤ sector → block_read device sector ≡ panic
unfolding block_read
block_read-outside device sector h = ground arith

-- `cache_read` with a well-formed cache, of a sector that the device does not have, panics.
pub cache_read-outside :
    {c : Cache} (sector : ℕ) → IsValid c → c.device.size ≤ sector → cache_read c sector ≡ panic
unfolding touched answer read_miss
cache_read-outside {c} sector v h =
    rw
      (
        cache_read-eq_answer c sector,
        not_cached c.device.size c.entry_num c.entries sector v.good h,
        block_read-outside c.device sector h,
      )
      refl
