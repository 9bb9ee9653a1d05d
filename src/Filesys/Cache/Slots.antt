-- ===== src/Filesys/Cache/Slots.antt =====
-- What `cache_write` does to the slots, on each of its ways: it overwrites an entry, takes a free
-- slot, or takes the slot of a victim.
use cs162_group13_clone.Base.{
  ℕ, zero, suc, ◌≡◌, refl, ◌∙◌, ◌≢◌, ◌⊎◌, inl, inr, ◌<◌, ◌==◌, true, List, [], ◌∷◌, none, some, ok,
  arith, if◌then◌else◌, length, length-set, get_or, set, Option-cases, Bool-cases, ==_iff, ne_of_==,
  Outcome,
}
use cs162_group13_clone.Base.Int.{pos}
use cs162_group13_clone.Devices.Block.{
  Sector, block_write-eq_stored, stored, update_ne, update_self,
}
use cs162_group13_clone.Filesys.Cache.{
  Entry, Cache, cache_size, written, evict, append_entry, empty_entry,
}
use cs162_group13_clone.Filesys.Cache.View.{
  cached, view, IsValid, Absent, Agree, AllGood, cached-Absent, set-SameRefs, set-AllGood,
  append-SameRefs, append-AllGood, cached-append,
}
use cs162_group13_clone.Filesys.Cache.Scan.{
  touch, touch_ref, length-map_refs, cached-map_refs, map_refs-AllGood, map_refs-SameRefs,
  last_match, cached-set_last,
}
use cs162_group13_clone.Filesys.Cache.Victim.{IsVictim, cached-set_other, cached-set_self}

-- The cache c' is c with the sector written.
pub record Wrote (c : Cache) (sector : ℕ) (bytes : Sector) (c' : Cache) : Type 0 where
  pub valid : IsValid c'
  pub size : c'.device.size ≡ c.device.size
  pub views : (j : ℕ) → view c' j ≡ (if sector == j then bytes else view c j)

abbrev pub Writes : Cache → ℕ → Sector → Outcome Cache → Type 0
Writes c sector bytes r = (c' : Cache) × (r ≡ ok c') × Wrote c sector bytes c'

unfoldable pub touched : Cache → ℕ → Cache
touched c s = record c { entries = touch s c.entry_num c.entries }

pub touched-IsValid : {c : Cache} (s : ℕ) → IsValid c → IsValid (touched c s)
unfolding touched
touched-IsValid {c} s v = record {
  count = v.count;
  slots = length-map_refs (touch_ref s) c.entry_num c.entries ∙ v.slots;
  good = map_refs-AllGood (touch_ref s) c.device.size c.entry_num c.entries v.good;
  same = map_refs-SameRefs (touch_ref s) c.entry_num c.entries v.same;
  local_device = v.local_device;
}

pub view-touched : (c : Cache) (s j : ℕ) → view (touched c s) j ≡ view c j
unfolding touched
view-touched c s j = rw (cached-map_refs (touch_ref s) c.entry_num c.entries j)

AllGood-get_or :
    (size n k : ℕ) (es : List Entry)
    → AllGood size n es
    → k < n
    → k < length es
    → ((get_or es k empty_entry).write ≡ true) × ((get_or es k empty_entry).sector < size)
AllGood-get_or size zero k es g h l = absurd (omega arith)
AllGood-get_or size (suc n) k [] g h l = absurd (omega arith)
AllGood-get_or size (suc n) zero (e ∷ es) g h l = (g.0, g.1)
AllGood-get_or size (suc n) (suc k) (e ∷ es) g h l =
    AllGood-get_or size n k es g.2 (omega arith) (omega arith)

Absent-get_or :
    (n k : ℕ) (es : List Entry) (s : ℕ)
    → Absent n es s
    → k < n
    → k < length es
    → (get_or es k empty_entry).sector ≢ s
Absent-get_or zero k es s a h l = absurd (omega arith)
Absent-get_or (suc n) k [] s a h l = absurd (omega arith)
Absent-get_or (suc n) zero (e ∷ es) s a h l = a.0
Absent-get_or (suc n) (suc k) (e ∷ es) s a h l =
    Absent-get_or n k es s a.1 (omega arith) (omega arith)

-- A hit: the last entry for the sector is overwritten.
pub hit_lem :
    (c : Cache) (sector k : ℕ) (bytes : Sector)
    → IsValid c
    → sector < c.device.size
    → Agree c.entry_num c.entries sector (pos 0)
    → last_match c.entry_num c.entries sector ≡ some k
    → Wrote c sector bytes (record c { entries = set c.entries k (written sector bytes) })
hit_lem c sector k bytes v l a m = record {
  valid = record {
    count = v.count;
    slots = length-set c.entries k _ ∙ v.slots;
    good = set-AllGood _ c.device.size c.entry_num k c.entries refl l v.good;
    same = set-SameRefs _ c.entry_num k c.entries a v.same;
    local_device = v.local_device;
  };
  size = refl;
  views = λ j.
      ground
        (arith, cached-set_last c.entry_num c.entries sector k (written sector bytes) j m refl);
}

-- A miss while a slot is free: the entry goes there.
unfoldable pub appended : Cache → ℕ → Sector → Cache
appended c sector bytes = record c {
  entry_num = suc c.entry_num;
  entries = set c.entries c.entry_num (written sector bytes);
}

pub append_entry-eq_appended :
    (c : Cache) (sector : ℕ) (bytes : Sector)
    → c.entry_num < cache_size
    → append_entry c sector bytes ≡ appended c sector bytes
unfolding append_entry appended
append_entry-eq_appended c sector bytes h = ground arith

pub appended_lem :
    (c : Cache) (sector : ℕ) (bytes : Sector)
    → IsValid c
    → sector < c.device.size
    → Agree c.entry_num c.entries sector (pos 0)
    → c.entry_num < cache_size
    → Wrote c sector bytes (appended c sector bytes)
unfolding appended
appended_lem c sector bytes v l a h = record {
  valid = record {
    count = h;
    slots = length-set c.entries c.entry_num _ ∙ v.slots;
    good = append-AllGood _ c.device.size c.entry_num c.entries refl l v.good;
    same = append-SameRefs _ c.entry_num c.entries a v.same;
    local_device = v.local_device;
  };
  size = refl;
  views = λ j. ground (
    arith,
    cached-append (written sector bytes) c.entry_num c.entries j (omega (arith, v.slots)),
  );
}

-- A miss with no free slot: the victim goes to the device, and its slot is taken.
module _ (c : Cache) (m sector : ℕ) (bytes : Sector) where
  unfoldable pub victim : Entry
  victim = get_or c.entries m empty_entry

  unfoldable pub evicted : Cache
  unfolding victim
  evicted = record c {
    entries = set c.entries m (written sector bytes);
    device = stored c.device victim.sector victim.bytes;
  }

module _ {c : Cache} {m sector : ℕ} (bytes : Sector) (v : IsValid c)
    (full : c.entry_num ≡ cache_size) (l : sector < c.device.size)
    (a : Agree c.entry_num c.entries sector (pos 0)) (chosen : IsVictim c.entry_num m c.entries)
    (o : (cached c.entry_num c.entries sector ≡ none)
      ⊎ (cached c.entry_num c.entries sector ≡ some bytes)) where
  pub place : m < c.entry_num
  place = omega (arith, chosen.place)

  pub slot : m < length c.entries
  slot = omega (arith, place, v.slots)

  pub evict-eq_evicted : evict c m sector bytes ≡ ok (evicted c m sector bytes)
  unfolding evict evicted
  evict-eq_evicted =
      let g = AllGood-get_or c.device.size c.entry_num m c.entries v.good place slot in
      rw (g.0, block_write-eq_stored c.device _ g.1 _ v.local_device)

  evicted-view_self : (j : ℕ) → sector ≡ j → view (evicted c m sector bytes) j ≡ bytes
  unfolding evicted
  evicted-view_self j p =
      rw (← p, cached-set_self c.entry_num m c.entries (written sector bytes) place slot o)

  evicted-view_other : (j : ℕ) → sector ≢ j → view (evicted c m sector bytes) j ≡ view c j
  unfolding evicted victim
  evicted-view_other j ne =
      elim (cached-set_other c.entry_num m c.entries (written sector bytes) j place slot
        chosen.first ne) [
          | inl same ↦ rw same (elim (Option-cases (cached c.entry_num c.entries j)) [
            | inl out ↦ rw out (
                update_ne c.device.content _ (
                  Absent-get_or c.entry_num m c.entries j
                    (cached-Absent c.entry_num c.entries j out) place slot))
            | inr (b, hit) ↦ rw hit
          ])
          | inr (p, new, old) ↦ rw (new, old) (update_self c.device.content _ p)
        ]

  evicted_views :
      (j : ℕ) → view (evicted c m sector bytes) j ≡ (if sector == j then bytes else view c j)
  evicted_views j = elim (Bool-cases (sector == j)) [
    | inl e ↦ rw e (evicted-view_self j ((==_iff sector j).0 e))
    | inr e ↦ rw e (evicted-view_other j (ne_of_== sector j e))
  ]

  pub evicted_lem : Wrote c sector bytes (evicted c m sector bytes)
  unfolding evicted
  evicted_lem = record {
    valid = record {
      count = v.count;
      slots = length-set c.entries m _ ∙ v.slots;
      good = set-AllGood _ c.device.size c.entry_num m c.entries refl l v.good;
      same = set-SameRefs _ c.entry_num m c.entries a v.same;
      local_device = v.local_device;
    };
    size = refl;
    views = evicted_views;
  }
