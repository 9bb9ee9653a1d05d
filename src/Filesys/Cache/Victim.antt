-- ===== src/Filesys/Cache/Victim.antt =====
-- The entry that `cache_write` replaces: no entry before it is for the same sector, so its bytes
-- are either shadowed by a later entry or are what the cache holds for the sector.
use native.Mathlib.Nat.{zero-add}
use cs162_group13_clone.Base.{
  ℕ, zero, suc, ◌+◌, ◌≡◌, refl, sym, ◌∙◌, ◌≢◌, ◌⊎◌, inl, inr, ◌≤◌, ◌<◌, List, [], ◌∷◌, none, some,
  arith, length, get_or, set,
}
use cs162_group13_clone.Base.Int.{ℤ, pos, ◌<ℤ◌, ◌≤ℤ◌}
use cs162_group13_clone.Filesys.Cache.{Entry, Choice, write_scan, empty_entry, consider, no_choice}
use cs162_group13_clone.Filesys.Cache.View.{cached, Absent, Agree, SameRefs}
use cs162_group13_clone.Filesys.Cache.Scan.{touch, touch_ref, map_refs, length-map_refs}

-- The first k entries have ref_counts below r.
abbrev pub RefsBelow : ℕ → List Entry → ℤ → Type 0
RefsBelow zero es r = Unit {0}
RefsBelow (suc k) [] r = Unit {0}
RefsBelow (suc k) (e ∷ es) r = (e.ref_count <ℤ r) × RefsBelow k es r

-- The index m that a scan from place i on ends with, over the entries es that it leaves: the index
-- it began with, or the first place of the largest ref_count.
data Chosen (n i : ℕ) (es : List Entry) (c : Choice) (m : ℕ) : Type 0 where
  kept : m ≡ c.max_index → Chosen n i es c m
  picked :
      (k : ℕ)
      → m ≡ i + k
      → k < n
      → RefsBelow k es (get_or es k empty_entry).ref_count
      → c.max <ℤ (get_or es k empty_entry).ref_count
      → Chosen n i es c m

-- What one round does to the choice: the entry's new ref_count either is not above the largest
-- so far, or becomes it.
abbrev Considered : ℕ → ℤ → Choice → Choice → Type 0
Considered i r c c' =
    ((c'.max ≡ c.max) × (c'.max_index ≡ c.max_index) × (r ≤ℤ c.max))
    ⊎ ((c'.max ≡ r) × (c'.max_index ≡ i) × (c.max <ℤ r))

consider-Considered :
    (s i : ℕ) (e : Entry) (c : Choice)
    → pos 0 ≤ℤ c.max
    → Considered i (touch_ref s e.sector e.ref_count) c (consider s i e c)
consider-Considered s i e c h = ground arith

Chosen-cons :
    (n i : ℕ) (e : Entry) (es : List Entry) (c c' : Choice) (m : ℕ)
    → Considered i e.ref_count c c'
    → Chosen n (i + 1) es c' m
    → Chosen (suc n) i (e ∷ es) c m
Chosen-cons n i e es c c' m (inl (p, q, r)) (kept k) = kept (k ∙ q)
Chosen-cons n i e es c c' m (inr (p, q, r)) (kept k) = picked 0 (omega arith) (omega arith) tt r
Chosen-cons n i e es c c' m (inl (p, q, r)) (picked k a b d f) =
    picked (suc k) (omega arith) (omega arith) (ground arith, d) (ground arith)
Chosen-cons n i e es c c' m (inr (p, q, r)) (picked k a b d f) =
    picked (suc k) (omega arith) (omega arith) (ground arith, d) (ground arith)

write_scan-Chosen :
    (n i : ℕ) (es : List Entry) (s : ℕ) (c : Choice)
    → pos 0 ≤ℤ c.max
    → Chosen n i (touch s n es) c (write_scan n i es s c).1.max_index
unfolding write_scan map_refs
write_scan-Chosen zero i es s c h = kept refl
write_scan-Chosen (suc n) i [] s c h = kept refl
write_scan-Chosen (suc n) i (e ∷ es) s c h =
    Chosen-cons n i _ _ c (consider s i e c) _ (consider-Considered s i e c h)
      (write_scan-Chosen n (i + 1) es s (consider s i e c) (ground arith))

Agree-get_or :
    (n k : ℕ) (es : List Entry) (s : ℕ) (r : ℤ)
    → Agree n es s r
    → k < n
    → k < length es
    → (get_or es k empty_entry).sector ≡ s
    → (get_or es k empty_entry).ref_count ≡ r
Agree-get_or zero k es s r a h l p = absurd (omega arith)
Agree-get_or (suc n) k [] s r a h l p = absurd (omega arith)
Agree-get_or (suc n) zero (e ∷ es) s r a h l p = a.0 p
Agree-get_or (suc n) (suc k) (e ∷ es) s r a h l p =
    Agree-get_or n k es s r a.1 (omega arith) (omega arith) p

-- Entries with lower ref_counts are for other sectors.
RefsBelow-Absent :
    (n k : ℕ) (es : List Entry)
    → SameRefs n es
    → k < n
    → k < length es
    → RefsBelow k es (get_or es k empty_entry).ref_count
    → Absent k es (get_or es k empty_entry).sector
RefsBelow-Absent n zero es same h l b = tt
RefsBelow-Absent n (suc k) [] same h l b = tt
RefsBelow-Absent zero (suc k) (e ∷ es) same h l b = absurd (omega arith)
RefsBelow-Absent (suc n) (suc k) (e ∷ es) same h l b = (
  λ p.
      ground (
        arith,
        Agree-get_or n k es e.sector e.ref_count same.0 (omega arith) (omega arith) (sym p),
      ),
  RefsBelow-Absent n k es same.1 (omega arith) (omega arith) b.1,
)

-- The victim is the first entry for its sector.
pub record IsVictim (n m : ℕ) (es : List Entry) : Type 0 where
  pub place : (m ≡ 0) ⊎ (m < n)
  pub first : Absent m es (get_or es m empty_entry).sector

pub write_scan-IsVictim :
    (n : ℕ) (es : List Entry) (s : ℕ)
    → n ≤ length es
    → SameRefs n (touch s n es)
    → IsVictim n (write_scan n 0 es s no_choice).1.max_index (touch s n es)
write_scan-IsVictim n es s l same =
    Chosen-IsVictim (write_scan-Chosen n 0 es s no_choice (omega arith))
  where
    Chosen-IsVictim : {m : ℕ} → Chosen n 0 (touch s n es) no_choice m → IsVictim n m (touch s n es)
    Chosen-IsVictim (kept p) = record { place = inl p; first = rw p tt }
    Chosen-IsVictim (picked k p h b f) =
        let q = p ∙ zero-add k in
        record {
          place = inr (omega arith);
          first =
              rw q (
                RefsBelow-Absent n k _ same h (omega (arith, length-map_refs (touch_ref s) n es))
                  b);
        }

-- What replacing the victim does to another sector: nothing, or the victim's bytes were what was
-- cached for it, and nothing is any more.
pub cached-set_other :
    (n k : ℕ) (es : List Entry) (e' : Entry) (j : ℕ)
    → k < n
    → k < length es
    → Absent k es (get_or es k empty_entry).sector
    → e'.sector ≢ j
    → (cached n (set es k e') j ≡ cached n es j)
      ⊎ (((get_or es k empty_entry).sector ≡ j)
          × (cached n (set es k e') j ≡ none)
          × (cached n es j ≡ some (get_or es k empty_entry).bytes))
cached-set_other zero k es e' j h l a ne = absurd (omega arith)
cached-set_other (suc n) k [] e' j h l a ne = absurd (omega arith)
cached-set_other (suc n) zero (e ∷ es) e' j h l a ne = ground arith
cached-set_other (suc n) (suc k) (e ∷ es) e' j h l a ne =
    ground (arith, cached-set_other n k es e' j (omega arith) (omega arith) a.1 ne)

-- The new bytes are cached for their sector, if nothing else was before.
pub cached-set_self :
    (n k : ℕ) (es : List Entry) (e' : Entry)
    → k < n
    → k < length es
    → ((cached n es e'.sector ≡ none) ⊎ (cached n es e'.sector ≡ some e'.bytes))
    → cached n (set es k e') e'.sector ≡ some e'.bytes
cached-set_self zero k es e' h l o = absurd (omega arith)
cached-set_self (suc n) k [] e' h l o = absurd (omega arith)
cached-set_self (suc n) zero (e ∷ es) e' h l o = ground arith
cached-set_self (suc n) (suc k) (e ∷ es) e' h l o =
    ground (arith, cached-set_self n k es e' (omega arith) (omega arith))
