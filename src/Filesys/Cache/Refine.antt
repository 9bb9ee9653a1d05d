-- ===== src/Filesys/Cache/Refine.antt =====
-- The buffer cache against its specification, an array of sectors.
use cs162_group13_clone.Base.{ℕ, ◌≡◌, refl, ap, ◌∙◌, ◌<◌, List, [], ◌∷◌, Outcome, ok, arith, ◌>>=◌}
use cs162_group13_clone.Devices.Block.{Sector, update}
use cs162_group13_clone.Filesys.Cache.{Cache, cache_read, cache_write, cache_sync}
use cs162_group13_clone.Filesys.Cache.View.{view, IsValid}
use cs162_group13_clone.Filesys.Cache.Write.{cache_write_lem}
use cs162_group13_clone.Filesys.Cache.Read.{cache_read_lem, cache_sync_lem}

-- What the file system asks of the cache.
pub data Op : Type 0 where
  get : ℕ → Op
  put : ℕ → Sector → Op
  flush : Op

-- The bytes that the reads give, in order.
unfoldable pub run : Cache → List Op → Outcome (List Sector)
run c [] = ok []
run c (get s ∷ ops) = do r ← cache_read c s; rest ← run r.cache ops; ok (r.data_out ∷ rest)
run c (put s bytes ∷ ops) = do c' ← cache_write c s bytes; run c' ops
run c (flush ∷ ops) = do c' ← cache_sync c; run c' ops

-- The same of an array that nothing stands before.
unfoldable pub serve : (ℕ → Sector) → List Op → List Sector
serve a [] = []
serve a (get s ∷ ops) = a s ∷ serve a ops
serve a (put s bytes ∷ ops) = serve (update a s bytes) ops
serve a (flush ∷ ops) = serve a ops

-- Every sector that is asked for lies on the device.
abbrev pub OnDevice : ℕ → List Op → Type 0
OnDevice size [] = Unit {0}
OnDevice size (get s ∷ ops) = (s < size) × OnDevice size ops
OnDevice size (put s bytes ∷ ops) = (s < size) × OnDevice size ops
OnDevice size (flush ∷ ops) = OnDevice size ops

run_refines_from :
    (ops : List Op) {c : Cache} (a : ℕ → Sector)
    → IsValid c
    → ((j : ℕ) → view c j ≡ a j)
    → OnDevice c.device.size ops
    → run c ops ≡ ok (serve a ops)
unfolding run serve
run_refines_from [] a v h o = refl
run_refines_from (get s ∷ ops) a v h o =
    let (r, e, w) = cache_read_lem s v o.0 in
    rw e (
      rw (run_refines_from ops {c = r.cache} a w.valid (λ j. w.views j ∙ h j) (rw w.size o.1))
        (ap (λ b. ok (b ∷ serve a ops)) (w.bytes ∙ h s)))
run_refines_from (put s bytes ∷ ops) a v h o =
    let (c', e, w) = cache_write_lem s bytes v o.0 in
    rw e (
      run_refines_from ops {c = c'} (update a s bytes) w.valid
        (λ j. w.views j ∙ ground (arith, h j)) (rw w.size o.1))
run_refines_from (flush ∷ ops) a v h o =
    let (c', e, w, size, _, k) = cache_sync_lem v in
    rw e (run_refines_from ops {c = c'} a w (λ j. (k j).1 ∙ h j) (rw size o))

-- No sequence of reads, writes and flushes of sectors of the device tells a well-formed cache from
-- the array of sectors that it stands for: none panics, and each read gives what the array holds at
-- that point.
pub run_refines :
    (ops : List Op) {c : Cache}
    → IsValid c
    → OnDevice c.device.size ops
    → run c ops ≡ ok (serve (view c) ops)
run_refines ops {c} v o = run_refines_from ops (view c) v (λ j. refl) o
