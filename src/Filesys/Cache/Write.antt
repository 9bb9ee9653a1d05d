-- ===== src/Filesys/Cache/Write.antt =====
-- `cache_write` writes one sector of the array that the cache stands for, whatever it evicts.
pub mod Twice
use native.Mathlib.Decide.{dec_lt}
use native.Mathlib.Nat.{zero-add}
use cs162_group13_clone.Base.{
  ℕ, zero, suc, ◌≡◌, refl, ap, ◌∙◌, ◌≢◌, ◌⊎◌, inl, inr, ◌≤◌, ◌<◌, ◌==◌, true, List, [], ◌∷◌, none,
  some, ok, arith, if◌then◌else◌, length, length-set, get_or, set, Option-cases, Bool-cases, ==_iff,
  ne_of_==, lt→ltb, get_or-set_ne, Outcome,
}
use cs162_group13_clone.Base.Int.{pos}
use cs162_group13_clone.Devices.Block.{
  Sector, block_write-eq_stored, stored, update_ne, update_self,
}
use cs162_group13_clone.Filesys.Cache.{
  Entry, Cache, cache_size, written, write_scan, evict, append_entry, write_miss, cache_write,
  place_entry, empty_entry, no_choice,
}
use cs162_group13_clone.Filesys.Cache.View.{
  cached, view, IsValid, Absent, Agree, AllGood, cached-Absent, set-SameRefs, set-AllGood,
  append-SameRefs, append-AllGood, append-Agree, cached-append,
}
use cs162_group13_clone.Filesys.Cache.Scan.{
  touch, touch_ref, length-map_refs, cached-map_refs, map_refs-AllGood, map_refs-SameRefs,
  touch-Agree, last_match, last_match-none, last_match-map_refs, shifted, write_scan-touch,
  write_scan-replace, cached-set_last,
}
use cs162_group13_clone.Filesys.Cache.Victim.{
  IsVictim, write_scan-IsVictim, cached-set_other, cached-set_self,
}
use cs162_group13_clone.Filesys.Cache.Slots.{
  Wrote, Writes, touched, touched-IsValid, view-touched, hit_lem, appended,
  append_entry-eq_appended, appended_lem, victim, evicted, place, slot, evict-eq_evicted,
  evicted_lem,
}

set-Absent_before :
    (m k : ℕ) (es : List Entry) (e' : Entry) (s : ℕ)
    → m ≤ k
    → Absent m es s
    → Absent m (set es k e') s
set-Absent_before zero k es e' s h a = tt
set-Absent_before (suc m) k [] e' s h a = tt
set-Absent_before (suc m) zero (e ∷ es) e' s h a = absurd (omega arith)
set-Absent_before (suc m) (suc k) (e ∷ es) e' s h a =
    (a.0, set-Absent_before m k es e' s (omega arith) a.1)

Wrote-trans :
    {c c' c'' : Cache} {sector : ℕ} {bytes : Sector}
    → Wrote c sector bytes c'
    → Wrote c' sector bytes c''
    → Wrote c sector bytes c''
Wrote-trans {sector = sector} w x = record {
  valid = x.valid;
  size = x.size ∙ w.size;
  views = λ j. elim (Bool-cases (sector == j)) [
    | inl e ↦ x.views j ∙ rw e
    | inr e ↦ x.views j ∙ rw e (w.views j ∙ rw e)
  ];
}

-- The three ways through a miss.
module _ (c : Cache) (m sector : ℕ) (bytes : Sector) where
  write_miss-room :
      suc c.entry_num < cache_size → write_miss c m sector bytes ≡ ok (appended c sector bytes)
  unfolding write_miss appended
  write_miss-room h =
      rw (
        append_entry-eq_appended c sector bytes (omega arith),
        lt→ltb (suc c.entry_num) cache_size h,
      )

  write_miss-last :
      suc c.entry_num ≡ cache_size
      → write_miss c m sector bytes ≡ evict (appended c sector bytes) m sector bytes
  unfolding write_miss appended
  write_miss-last h = rw (append_entry-eq_appended c sector bytes (omega arith), h)

  write_miss-full : c.entry_num ≡ cache_size → write_miss c m sector bytes ≡ evict c m sector bytes
  unfolding write_miss append_entry
  write_miss-full h = rw h

module _ {c : Cache} {m sector : ℕ} (bytes : Sector) (v : IsValid c) (l : sector < c.device.size)
    (a : Agree c.entry_num c.entries sector (pos 0)) (chosen : IsVictim c.entry_num m c.entries)
    (miss : cached c.entry_num c.entries sector ≡ none) where
  c1 : Cache
  c1 = appended c sector bytes

  module _ (full : suc c.entry_num ≡ cache_size) where
    zeroed1 : Agree c1.entry_num c1.entries sector (pos 0)
    unfolding c1 appended
    zeroed1 = append-Agree (written sector bytes) c.entry_num c.entries sector (pos 0) (λ p. refl) a

    before : m < c.entry_num
    before = omega (arith, chosen.place)

    chosen1 : IsVictim c1.entry_num m c1.entries
    unfolding c1 appended
    chosen1 = record {
      place = inr (omega (arith, before));
      first =
          rw
            (get_or-set_ne c.entries {i = c.entry_num} {j = m} (written sector bytes) empty_entry
              (λ p. omega (arith, before)))
            (set-Absent_before m c.entry_num c.entries _ _ (omega (arith, before)) chosen.first);
    }

    hit1 : cached c1.entry_num c1.entries sector ≡ some bytes
    unfolding c1 appended
    hit1 =
        cached-append (written sector bytes) c.entry_num c.entries sector (omega (arith, v.slots))
        ∙ rw ((==_iff sector sector).1 refl)

    -- The 32nd entry: the cache is full now, and the code goes on to evict.
    last_slot-eq : evict c1 m sector bytes ≡ ok (evicted c1 m sector bytes)
    unfolding c1 appended
    last_slot-eq =
        evict-eq_evicted bytes (appended_lem c sector bytes v l a (omega arith)).valid full l
          zeroed1 chosen1 (inr hit1)

    last_slot : Wrote c sector bytes (evicted c1 m sector bytes)
    unfolding c1 appended
    last_slot =
        let w = appended_lem c sector bytes v l a (omega arith) in
        Wrote-trans w (evicted_lem bytes w.valid full l zeroed1 chosen1 (inr hit1))

  write_miss_lem : Writes c sector bytes (write_miss c m sector bytes)
  unfolding c1
  write_miss_lem = elim (dec_lt c.entry_num cache_size) [
    | yes free ↦ elim (dec_lt (suc c.entry_num) cache_size) [
      | yes room ↦
          (c1, write_miss-room c m sector bytes room, appended_lem c sector bytes v l a free)
      | no full ↦
          let full' : suc c.entry_num ≡ cache_size = omega arith in
          (
            evicted c1 m sector bytes,
            write_miss-last c m sector bytes full' ∙ last_slot-eq full',
            last_slot full',
          )
    ]
    | no full ↦
        let f : c.entry_num ≡ cache_size = omega (arith, v.count) in
        (
          evicted c m sector bytes,
          write_miss-full c m sector bytes f ∙ evict-eq_evicted bytes v f l a chosen (inl miss),
          evicted_lem bytes v f l a chosen (inl miss),
        )
  ]

Wrote-touched :
    {c c' : Cache} {sector : ℕ} {bytes : Sector}
    → Wrote (touched c sector) sector bytes c'
    → Wrote c sector bytes c'
unfolding touched
Wrote-touched {c} {c'} {sector} {bytes} w = record {
  valid = w.valid;
  size = w.size;
  views = λ j. w.views j ∙ ap (λ b. if sector == j then bytes else b) (view-touched c sector j);
}

cache_write-eq_place :
    (c : Cache) (sector : ℕ) (bytes : Sector)
    → cache_write c sector bytes
      ≡ place_entry
          (touched c sector)
          (write_scan c.entry_num 0 c.entries sector no_choice).1.max_index
          sector
          bytes
          (shifted 0 (last_match c.entry_num c.entries sector) none)
unfolding cache_write touched
cache_write-eq_place c sector bytes = rw (
  write_scan-touch c.entry_num 0 c.entries sector no_choice,
  write_scan-replace c.entry_num 0 c.entries sector no_choice,
)

IsVictim-of_scan :
    {c : Cache} (sector : ℕ)
    → IsValid c
    → IsVictim c.entry_num
        (write_scan c.entry_num 0 c.entries sector no_choice).1.max_index
        (touched c sector).entries
unfolding touched
IsVictim-of_scan {c} sector v =
    write_scan-IsVictim c.entry_num c.entries sector (omega (arith, v.count, v.slots))
      (touched-IsValid sector v).same

-- `cache_write` ends, keeps the cache well-formed and the size of the device, and changes the
-- stored array at the written sector and nowhere else: the sector then reads as the bytes written.
pub cache_write_lem :
    {c : Cache} (sector : ℕ) (bytes : Sector)
    → IsValid c
    → sector < c.device.size
    → Writes c sector bytes (cache_write c sector bytes)
unfolding touched place_entry
cache_write_lem {c} sector bytes v l =
    rw (cache_write-eq_place c sector bytes)
      (elim (Option-cases (last_match c.entry_num c.entries sector)) [
        | inl miss ↦
            let (c', e, w) = write_miss_lem bytes w0 l zeroed (IsVictim-of_scan sector v) (
              rw (cached-map_refs (touch_ref sector) c.entry_num c.entries sector)
                (last_match-none c.entry_num c.entries sector miss)) in
            rw miss (c', e, Wrote-touched w)
        | inr (k, hit) ↦
            rw (hit, zero-add)
              (
                _,
                refl,
                Wrote-touched (
                    hit_lem (touched c sector) sector k bytes w0 l zeroed
                      (last_match-map_refs (touch_ref sector) c.entry_num c.entries sector ∙ hit)),
              )
      ])
  where
    w0 : IsValid (touched c sector)
    w0 = touched-IsValid sector v

    zeroed : Agree c.entry_num (touched c sector).entries sector (pos 0)
    zeroed = touch-Agree c.entry_num c.entries sector
