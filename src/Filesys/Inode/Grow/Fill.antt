-- ===== src/Filesys/Inode/Grow/Fill.antt =====
-- The loop that gives sectors to pointers: each is fresh, and filled with zeros.
use mathlib.Core.Path.{subst}
use native.Mathlib.Decide.{ℕ_discrete}
use cs162_group13_clone.Base.{
  ℕ, suc, ◌+◌, ◌*◌, ◌^◌, ◌≤◌, ◌<◌, ◌≡◌, ◌≢◌, ◌⊎◌, Option, refl, sym, ap, ◌∙◌, Bool, true, false, ok,
  some, none, length, length-replicate, ◌==◌, arith, Bool-cases, inl, inr,
}
use cs162_group13_clone.Devices.Block.{Sector}
use cs162_group13_clone.Kernel.Bitmap.{Bitmap}
use cs162_group13_clone.Kernel.Bitmap.Bits.{IsValid, get}
use cs162_group13_clone.Kernel.Bitmap.Range.{within}
use cs162_group13_clone.Filesys.Cache.{Cache}
use cs162_group13_clone.Kernel.Bitmap.Scan.{AllAre}
use cs162_group13_clone.Filesys.FreeMap.{FreeMap, FileWrite, bitmap_write, free_map_allocate}
use cs162_group13_clone.Filesys.FreeMap.MapFile.{
  Saved, SavesMap, not-Saved, bitmap_write-total, bitmap_write-Saved,
}
use cs162_group13_clone.Filesys.FreeMap.Alloc.{
  Allocates, given, no_room, not_written, Marked, free_map_allocate_lem,
}
use cs162_group13_clone.Filesys.Inode.{word}
use cs162_group13_clone.Filesys.Inode.Data.File.{Holds}
use cs162_group13_clone.Filesys.Inode.Data.Layout.{put_sector}
use cs162_group13_clone.Filesys.Inode.Data.WriteAt.{cache_write-Holds}
use cs162_group13_clone.Filesys.Inode.Grow.{set_word, zeros, Disk, allocate_word, clear_sector}
use cs162_group13_clone.Filesys.Inode.Grow.Words.{
  length-set_word, word-set_word_self, word-set_word_ne,
}

-- A sector that was free and is in use now.
pub record IsFresh (m m' : FreeMap) (s : ℕ) : Type 0 where
  pub free : get m.map s ≡ false
  pub used : get m'.map s ≡ true
  pub inside : s < m.map.bit_cnt

-- Every sector of the device is in use.
abbrev pub Full : FreeMap → Type 0
Full m = (s : ℕ) → s < m.map.bit_cnt → get m.map s ≡ true

-- A write of the free map, to a well-formed cache of the device, that wrote less than all of it. In the
-- map that was to be written, every sector that is in use in m was in use.
pub record FellShort (write : FileWrite) (size : ℕ) (m : FreeMap) : Type 0 where
  pub map : Bitmap
  pub count : map.bit_cnt ≡ m.map.bit_cnt
  pub used : (s : ℕ) → get m.map s ≡ true → get map s ≡ true
  pub before : Cache
  pub sectors : ℕ → Sector
  pub holds : Holds before sectors size
  pub after : Cache
  pub failed : bitmap_write write map before ≡ ok (false, after)

module _ (write : FileWrite) (own : ℕ → Bool) (Ready : (ℕ → Sector) → Type 0) where
  -- n pointers from the j-th on have got a fresh sector each, but where no sector was left or a write of
  -- the free map fell short; sectors in use are as they were, but those of the map's own file.
  pub record Filled (size : ℕ) (d d' : Disk) (a : ℕ → Sector) (j n : ℕ) : Type 0 where
    pub sectors : ℕ → Sector
    pub holds : Holds d'.cache sectors size
    pub is_ready : Ready sectors
    pub valid : IsValid d'.map.map
    pub bit_cnt : d'.map.map.bit_cnt ≡ d.map.map.bit_cnt
    pub length_eq : length d'.pointers ≡ length d.pointers
    pub outside : (i : ℕ) → (j ≤ i → j + n ≤ i) → word d'.pointers i ≡ word d.pointers i
    pub got :
        (i : ℕ)
        → j ≤ i
        → i < j + n
        → ((word d'.pointers i ≡ word d.pointers i) × (Full d'.map ⊎ FellShort write size d.map))
          ⊎ (IsFresh d.map d'.map (word d'.pointers i) × (sectors (word d'.pointers i) ≡ zeros))
    pub apart :
        (i k : ℕ)
        → j ≤ i
        → i < k
        → k < j + n
        → get d.map.map (word d.pointers i) ≡ true
        → get d.map.map (word d.pointers k) ≡ true
        → IsFresh d.map d'.map (word d'.pointers i)
        → IsFresh d.map d'.map (word d'.pointers k)
        → word d'.pointers i ≢ word d'.pointers k
    pub used : (s : ℕ) → get d.map.map s ≡ true → get d'.map.map s ≡ true
    pub kept : (s : ℕ) → get d.map.map s ≡ true → own s ≡ false → sectors s ≡ a s
    pub full : ((i : ℕ) → length (a i) ≡ 512) → (i : ℕ) → length (sectors i) ≡ 512

  module _ {size : ℕ} (d : Disk) (a : ℕ → Sector) (j : ℕ) where
    none_given :
        (m : FreeMap) (c : Cache)
        → Saved write own Ready size a c
        → IsValid m.map
        → m.map.bit_cnt ≡ d.map.map.bit_cnt
        → ((i : ℕ) → get m.map i ≡ get d.map.map i)
        → Full m ⊎ FellShort write size d.map
        → Filled size d (record d { cache = c; map = m }) a j 1
    none_given m c x w b same why = record {
      sectors = x.sectors;
      holds = x.holds;
      is_ready = x.is_ready;
      valid = w;
      bit_cnt = b;
      length_eq = refl;
      outside = λ i h. refl;
      got = λ i h h'. inl (refl, why);
      apart = λ i k h h' h'' u w x y. absurd (omega arith);
      used = λ s h. same s ∙ h;
      kept = λ s h o. x.others s o;
      full = λ h. x.full h;
    }

    one_given :
        (s : ℕ) (m : FreeMap) (c1 c : Cache) (z : Saved write own Ready size a c1)
        → Holds c (put_sector z.sectors s zeros) size
        → Ready (put_sector z.sectors s zeros)
        → 4 * j + 4 ≤ length d.pointers
        → s < d.map.map.bit_cnt
        → s < 2 ^ 32
        → get d.map.map s ≡ false
        → Marked d.map s 1 true m
        → Filled size d (record { cache = c; map = m; pointers = set_word d.pointers j s }) a j 1
    one_given s m c1 c z v r l h b free x =
        let w : word (set_word d.pointers j s) j ≡ s = word-set_word_self d.pointers j s l b in
        let t : (s == s) ≡ true = ground arith in
        let mine : within s 1 s ≡ true = ground arith in
        record {
          sectors = put_sector z.sectors s zeros;
          holds = v;
          is_ready = r;
          valid = x.valid;
          bit_cnt = x.count;
          length_eq = length-set_word d.pointers j s;
          outside = λ i q.
              word-set_word_ne d.pointers s (λ e. let r = q (omega arith) in absurd (omega arith));
          got = λ i p q.
              let e : i ≡ j = omega arith in
              inr (
                subst
                  (λ (k : ℕ).
                    IsFresh d.map m (word (set_word d.pointers j s) k)
                    × (put_sector z.sectors s zeros (word (set_word d.pointers j s) k) ≡ zeros))
                  (sym e)
                  (rw w (
                    record { free = free; used = x.bits s ∙ rw mine refl; inside = h },
                    rw t refl,
                  )));
          apart = λ i k p q r u w y z. absurd (omega arith);
          used = λ i p.
              x.bits i ∙ elim (Bool-cases (within s 1 i)) [ inl r ↦ rw r refl | inr r ↦ rw r p ];
          kept = λ i p o. let ne : (s == i) ≡ false = ground arith in rw ne (z.others i o);
          full = λ p i. elim (Bool-cases (s == i)) [
            | inl r ↦ rw r (length-replicate {A = ℕ} 512 0)
            | inr r ↦ rw r (z.full p i)
          ];
        }

  -- One round and those after it.
  pub Filled-then :
      {size : ℕ} (d d1 d2 : Disk) (a : ℕ → Sector) (j n : ℕ) (x : Filled size d d1 a j 1)
      → Filled size d1 d2 x.sectors (j + 1) n
      → ((s : ℕ) → own s ≡ true → get d.map.map s ≡ true)
      → Filled size d d2 a j (suc n)
  Filled-then {size} d d1 d2 a j n x y mine = record {
    sectors = y.sectors;
    holds = y.holds;
    is_ready = y.is_ready;
    valid = y.valid;
    bit_cnt = y.bit_cnt ∙ x.bit_cnt;
    length_eq = y.length_eq ∙ x.length_eq;
    outside = λ i h.
        y.outside i (λ p. let q = h (omega arith) in omega arith)
        ∙ x.outside i (λ p. let q = h (omega arith) in omega arith);
    got = λ i p q. elim (ℕ_discrete i j) [
      | yes e ↦ first i e
      | no ne ↦ elim (y.got i (omega arith) (omega arith)) [
        | inl (r, inl f) ↦ inl (r ∙ x.outside i (λ t. omega arith), inl f)
        | inl (r, inr f) ↦ inl (r ∙ x.outside i (λ t. omega arith), inr (fell_before f))
        | inr r ↦ inr (earlier (word d2.pointers i) r.0, r.1)
      ]
    ];
    apart = λ i k p l q ui uk f g. elim (ℕ_discrete i j) [
      | yes e ↦ first_apart i k e (omega arith) q ui uk f g
      | no ne ↦
          y.apart i k (omega arith) l (omega arith) (still i (omega arith) ui)
            (still k (omega arith) uk) (newer i (omega arith) (omega arith) ui f)
            (newer k (omega arith) (omega arith) uk g)
    ];
    used = λ s h. y.used s (x.used s h);
    kept = λ s h o. y.kept s (x.used s h) o ∙ x.kept s h o;
    full = λ h. y.full (x.full h);
  }
    where
      not_used : (s : ℕ) → get d1.map.map s ≡ false → get d.map.map s ≡ false
      not_used s h = elim (Bool-cases (get d.map.map s)) [
        | inl t ↦ absurd (let u = x.used s t in cc)
        | inr t ↦ t
      ]

      not_own : (s : ℕ) → get d.map.map s ≡ false → own s ≡ false
      not_own s h = elim (Bool-cases (own s)) [
        | inl t ↦ absurd (let u = mine s t in cc)
        | inr t ↦ t
      ]

      still_full : Full d1.map → Full d2.map
      still_full f s h = y.used s (f s (subst (λ (k : ℕ). s < k) y.bit_cnt h))

      fell_before : FellShort write size d1.map → FellShort write size d.map
      fell_before f = record {
        map = f.map;
        count = f.count ∙ x.bit_cnt;
        used = λ s h. f.used s (x.used s h);
        before = f.before;
        sectors = f.sectors;
        holds = f.holds;
        after = f.after;
        failed = f.failed;
      }

      earlier : (s : ℕ) → IsFresh d1.map d2.map s → IsFresh d.map d2.map s
      earlier s r = record {
        free = not_used s r.free;
        used = r.used;
        inside = rw (sym x.bit_cnt) r.inside;
      }

      unchanged : word d2.pointers j ≡ word d1.pointers j
      unchanged = y.outside j (λ p. absurd (omega arith))

      first :
          (i : ℕ)
          → i ≡ j
          → ((word d2.pointers i ≡ word d.pointers i) × (Full d2.map ⊎ FellShort write size d.map))
            ⊎ (IsFresh d.map d2.map (word d2.pointers i) × (y.sectors (word d2.pointers i) ≡ zeros))
      first i e =
          subst
            (λ (k : ℕ).
              ((word d2.pointers k ≡ word d.pointers k)
                × (Full d2.map ⊎ FellShort write size d.map))
              ⊎ (IsFresh d.map d2.map (word d2.pointers k)
                  × (y.sectors (word d2.pointers k) ≡ zeros)))
            (sym e)
            (rw unchanged (elim (x.got j (omega arith) (omega arith)) [
              | inl (r, inl f) ↦ inl (r, inl (still_full f))
              | inl (r, inr f) ↦ inl (r, inr f)
              | inr (f, z) ↦ inr (
                record {
                  free = f.free;
                  used = y.used (word d1.pointers j) f.used;
                  inside = f.inside;
                },
                y.kept (word d1.pointers j) f.used (not_own (word d1.pointers j) f.free) ∙ z,
              )
            ]))

      still :
          (i : ℕ)
          → j < i
          → get d.map.map (word d.pointers i) ≡ true
          → get d1.map.map (word d1.pointers i) ≡ true
      still i h u = rw (x.outside i (λ t. omega arith)) (x.used (word d.pointers i) u)

      newer :
          (i : ℕ)
          → j < i
          → i < j + suc n
          → get d.map.map (word d.pointers i) ≡ true
          → IsFresh d.map d2.map (word d2.pointers i)
          → IsFresh d1.map d2.map (word d2.pointers i)
      newer i h h' u f = elim (y.got i (omega arith) (omega arith)) [
        | inr r ↦ r.0
        | inl (e, why) ↦
            let same : word d2.pointers i ≡ word d.pointers i =
              e ∙ x.outside i (λ t. omega arith) in
            let used : get d.map.map (word d2.pointers i) ≡ true = rw same u in
            let free = f.free in absurd cc
      ]

      first_apart :
          (i k : ℕ)
          → i ≡ j
          → j < k
          → k < j + suc n
          → get d.map.map (word d.pointers i) ≡ true
          → get d.map.map (word d.pointers k) ≡ true
          → IsFresh d.map d2.map (word d2.pointers i)
          → IsFresh d.map d2.map (word d2.pointers k)
          → word d2.pointers i ≢ word d2.pointers k
      first_apart i k e h h' ui uk f g same =
          let g1 = newer k h h' uk g in
          let at_i : word d2.pointers i ≡ word d1.pointers j =
            ap (λ (t : ℕ). word d2.pointers t) e ∙ unchanged in
          let is_used : get d1.map.map (word d1.pointers j) ≡ true =
            elim (x.got j (omega arith) (omega arith)) [
              | inr r ↦ r.0.used
              | inl (r, why) ↦
                  let old : word d2.pointers i ≡ word d.pointers i =
                    at_i ∙ r ∙ ap (λ (t : ℕ). word d.pointers t) (sym e) in
                  let used : get d.map.map (word d2.pointers i) ≡ true = rw old ui in
                  let free = f.free in absurd cc
            ] in
          let free : get d1.map.map (word d1.pointers j) ≡ false =
            subst (λ (t : ℕ). get d1.map.map t ≡ false) (sym same ∙ at_i) g1.free in
          cc

  -- The cache after an allocation.
  pub Allocates-Saved :
      {size : ℕ} {c : Cache} {a : ℕ → Sector} {m : FreeMap} {cnt : ℕ} {o : Option ℕ} {m' : FreeMap}
      {c' : Cache}
      → SavesMap write own Ready size m.map.bit_cnt
      → Holds c a size
      → Ready a
      → Allocates write c m cnt o m' c'
      → Saved write own Ready size a c'
  Allocates-Saved {size} {c} {a} law v r (given s q inside free least x (inl (f, e))) =
      subst (λ (c1 : Cache). Saved write own Ready size a c1) (sym e)
        (not-Saved write own Ready size v r)
  Allocates-Saved {size} {c} {a} {m} {cnt} {o} {m'} {c'} law v r
        (given s q inside free least x (inr (f, e))) =
      bitmap_write-Saved write own Ready size law v r m'.map true c' x.count e
  Allocates-Saved {size} {c} {a} law v r (no_room q e e' full) =
      subst (λ (c1 : Cache). Saved write own Ready size a c1) (sym e')
        (not-Saved write own Ready size v r)
  Allocates-Saved {size} {c} {a} {m} {cnt} {o} {m'} {c'} law v r
        (not_written s m1 q f x e w b same) =
      bitmap_write-Saved write own Ready size law v r m1.map false c' x.count e

  put_own :
      {size bit_cnt : ℕ} (law : SavesMap write own Ready size bit_cnt) (a : ℕ → Sector) (s : ℕ)
      (b : Sector)
      → Ready a
      → own s ≡ false
      → Ready (put_sector a s b)
  put_own law a s b r o =
      law.stays a (put_sector a s b) r
        (λ i t. let ne : (s == i) ≡ false = ne_of s i o t in rw ne refl)
    where
      ne_of : (s i : ℕ) → own s ≡ false → own i ≡ true → (s == i) ≡ false
      ne_of s i o t = elim (Bool-cases (s == i)) [
        | inl e ↦
            let q : s ≡ i = ground arith in
            let o' = subst (λ (k : ℕ). own k ≡ false) q o in absurd cc
        | inr e ↦ e
      ]

  all_used :
      (m : FreeMap) → ((i : ℕ) → i + 1 ≤ m.map.bit_cnt → ¬ AllAre (get m.map) i 1 false) → Full m
  all_used m none_free s h = elim (Bool-cases (get m.map s)) [
    | inl t ↦ t
    | inr t ↦ absurd (none_free s (omega arith) (λ k p q. let e : k ≡ s = omega arith in rw e t))
  ]

  pub Filled-zero :
      {size : ℕ} (d : Disk) (a : ℕ → Sector) (j : ℕ)
      → Holds d.cache a size
      → Ready a
      → IsValid d.map.map
      → Filled size d d a j 0
  Filled-zero d a j v r w = record {
    sectors = a;
    holds = v;
    is_ready = r;
    valid = w;
    bit_cnt = refl;
    length_eq = refl;
    outside = λ i h. refl;
    got = λ i p q. absurd (omega arith);
    apart = λ i k p h q u u' f g. absurd (omega arith);
    used = λ s h. h;
    kept = λ s h o. refl;
    full = λ h. h;
  }

  -- One round, and whether it has got a sector.
  pub round_lem :
      (size : ℕ) (d : Disk) (a : ℕ → Sector) (j : ℕ)
      → SavesMap write own Ready size d.map.map.bit_cnt
      → ((s : ℕ) → own s ≡ true → get d.map.map s ≡ true)
      → Holds d.cache a size
      → Ready a
      → IsValid d.map.map
      → d.map.map.bit_cnt ≤ size
      → 4 * j + 4 ≤ length d.pointers
      → (d1 : Disk) × (d2 : Disk) × (o : Option ℕ) × (allocate_word write d j ≡ ok (o, d1))
        × (clear_sector write d1 o ≡ ok d2)
        × Filled size d d2 a j 1
        × (((o ≡ none) × (d2.pointers ≡ d.pointers))
            ⊎ ((s : ℕ) × (o ≡ some s) × IsFresh d.map d2.map (word d2.pointers j)))
  unfolding allocate_word
  round_lem size d a j law mine v r w b l =
      let total = bitmap_write-total write own Ready size law v r in
      let (o, m, c, e, x) = free_map_allocate_lem write d.cache d.map 1 total w in
      after o m c e x (Allocates-Saved law v r x)
    where
      after :
          (o : Option ℕ) (m : FreeMap) (c : Cache)
          → free_map_allocate write d.cache d.map 1 ≡ ok (o, m, c)
          → Allocates write d.cache d.map 1 o m c
          → Saved write own Ready size a c
          → (d1 : Disk) × (d2 : Disk) × (o : Option ℕ) × (allocate_word write d j ≡ ok (o, d1))
            × (clear_sector write d1 o ≡ ok d2)
            × Filled size d d2 a j 1
            × (((o ≡ none) × (d2.pointers ≡ d.pointers))
                ⊎ ((s : ℕ) × (o ≡ some s) × IsFresh d.map d2.map (word d2.pointers j)))
      after o m c e (given s is_s inside free_all least x written) z =
          let got : free_map_allocate write d.cache d.map 1 ≡ ok (some s, m, c) = rw (sym is_s) e in
          let (c', e', y) = cache_write-Holds z.holds s zeros (omega arith) in
          let free : get d.map.map s ≡ false = free_all s (omega arith) (omega arith) in
          let not_own : own s ≡ false = elim (Bool-cases (own s)) [
            | inl t ↦ absurd (let u = mine s t in cc)
            | inr t ↦ t
          ] in
          let small : s < 2 ^ 32 = omega (arith, w.small) in
          let within_map : s < d.map.map.bit_cnt = omega arith in
          let kept = word-set_word_self d.pointers j s l small in
          let in_range : within s 1 s ≡ true = ground arith in
          (
            record { cache = c; map = m; pointers = set_word d.pointers j s },
            record { cache = c'; map = m; pointers = set_word d.pointers j s },
            some s,
            rw got refl,
            rw e' refl,
            one_given d a j s m c c' z y (put_own law z.sectors s zeros z.is_ready not_own) l
                within_map small free x,
            inr (
              s,
              refl,
              rw kept
                  (record { free = free; used = x.bits s ∙ rw in_range refl; inside = within_map }),
            ),
          )
      after o m c e (no_room is_none same e1 none_free) z =
          let got : free_map_allocate write d.cache d.map 1 ≡ ok (none, m, c) =
            rw (sym is_none) e in
          let bits : (i : ℕ) → get m.map i ≡ get d.map.map i =
            λ i. ap (λ (k : FreeMap). get k.map i) same in
          let count : m.map.bit_cnt ≡ d.map.map.bit_cnt =
            ap (λ (k : FreeMap). k.map.bit_cnt) same in
          (
            record d { cache = c; map = m },
            record d { cache = c; map = m },
            none,
            rw got refl,
            refl,
            none_given d a j m c z (subst (λ (k : FreeMap). IsValid k.map) (sym same) w) count bits
                (inl
                  (λ s h. bits s ∙ all_used d.map none_free s (subst (λ (k : ℕ). s < k) count h))),
            inl (refl, refl),
          )
      after o m c e (not_written s1 m1 is_none f x short valid b' same) z =
          let got : free_map_allocate write d.cache d.map 1 ≡ ok (none, m, c) =
            rw (sym is_none) e in
          (
            record d { cache = c; map = m },
            record d { cache = c; map = m },
            none,
            rw got refl,
            refl,
            none_given d a j m c z valid b' same (
                inr (record {
                  map = m1.map;
                  count = x.count;
                  used = λ s h.
                      x.bits s
                      ∙ elim (Bool-cases (within s1 1 s)) [ inl q ↦ rw q refl | inr q ↦ rw q h ];
                  before = d.cache;
                  sectors = a;
                  holds = v;
                  after = c;
                  failed = short;
                })),
            inl (refl, refl),
          )
