-- ===== src/Filesys/Cache/Write/Twice.antt =====
-- The write that fills the last free slot: the test for a full cache comes after the slot was
-- taken, so the code goes on to evict, and puts the sector into a second slot.
use cs162_group13_clone.Base.{
  ℕ, ◌≡◌, ◌∙◌, ◌<◌, none, ok, arith, length, get_or, get_or-set_self, get_or-set_ne, length-set,
}
use cs162_group13_clone.Base.Int.{pos}
use cs162_group13_clone.Devices.Block.{Sector}
use cs162_group13_clone.Filesys.Cache.{
  Cache, cache_write, place_entry, written, write_scan, empty_entry, no_choice,
}
use cs162_group13_clone.Filesys.Cache.View.{cached, IsValid, Agree}
use cs162_group13_clone.Filesys.Cache.Scan.{
  touch_ref, touch-Agree, last_match_of_uncached, cached-map_refs,
}
use cs162_group13_clone.Filesys.Cache.Victim.{IsVictim}
use cs162_group13_clone.Filesys.Cache.Slots
use cs162_group13_clone.Filesys.Cache.Write

-- The cache that a miss with 31 entries leaves.
module _ (c : Cache) (m sector : ℕ) (bytes : Sector) (n : c.entry_num ≡ 31)
    (slots : length c.entries ≡ 32) where
  twice_slots :
      m < 31
      → let c' = Slots.evicted (Slots.appended c sector bytes) m sector bytes in
        (get_or c'.entries m empty_entry ≡ written sector bytes)
        × (get_or c'.entries 31 empty_entry ≡ written sector bytes)
  unfolding Slots.evicted Slots.appended
  twice_slots h = (
    get_or-set_self (Slots.appended c sector bytes).entries m (written sector bytes) empty_entry
        (omega (arith, length-set c.entries c.entry_num (written sector bytes))),
    get_or-set_ne (Slots.appended c sector bytes).entries {i = m} {j = 31} (written sector bytes)
          empty_entry (λ p. omega arith)
        ∙ rw (← n) (
            get_or-set_self c.entries c.entry_num (written sector bytes) empty_entry (omega arith)),
  )

-- Whenever 31 slots are taken and the sector is not cached, `cache_write` leaves it in two slots:
-- the last one, and one that held another entry before.
pub cache_write_twice :
    {c : Cache} (sector : ℕ) (bytes : Sector)
    → IsValid c
    → sector < c.device.size
    → c.entry_num ≡ 31
    → cached c.entry_num c.entries sector ≡ none
    → (c' : Cache) × (m : ℕ) × (cache_write c sector bytes ≡ ok c')
      × (m < 31)
      × (get_or c'.entries m empty_entry ≡ written sector bytes)
      × (get_or c'.entries 31 empty_entry ≡ written sector bytes)
unfolding Slots.touched Write.c1 place_entry
cache_write_twice {c} sector bytes v l n miss = (
  Slots.evicted (Slots.appended t sector bytes) m sector bytes,
  m,
  Write.cache_write-eq_place c sector bytes
      ∙ rw (last_match_of_uncached c.entry_num c.entries sector miss) (
          Write.write_miss-last t m sector bytes (omega arith)
          ∙ Write.last_slot-eq bytes w0 l zeroed chosen miss0 (omega arith)),
  below,
  (twice_slots t m sector bytes n w0.slots below).0,
  (twice_slots t m sector bytes n w0.slots below).1,
)
  where
    t : Cache
    t = Slots.touched c sector

    m : ℕ
    m = (write_scan c.entry_num 0 c.entries sector no_choice).1.max_index

    w0 : IsValid t
    w0 = Slots.touched-IsValid sector v

    chosen : IsVictim t.entry_num m t.entries
    chosen = Write.IsVictim-of_scan sector v

    zeroed : Agree t.entry_num t.entries sector (pos 0)
    zeroed = touch-Agree c.entry_num c.entries sector

    miss0 : cached t.entry_num t.entries sector ≡ none
    miss0 = cached-map_refs (touch_ref sector) c.entry_num c.entries sector ∙ miss

    below : m < 31
    below = omega (arith, chosen.place)
