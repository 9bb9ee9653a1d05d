-- ===== src/Filesys/Inode/Open/Close.antt =====
-- `inode_close`, `inode_deny_write`, `inode_allow_write` on the table of open inodes.
use cs162_group13_clone.Base.{
  ℕ, ◌==◌, ◌≡◌, ◌≢◌, refl, ap, ◌∙◌, true, false, not, ◌&&◌, List, [], ◌∷◌, some, ok, arith, mem,
  distinct,
}
use cs162_group13_clone.Base.Int.{ℤ, pos, negsuc, ◌+ℤ◌, ◌-ℤ◌, ◌≤ℤ◌, ◌<ℤ◌, leb_ℤ, to_int32}
use cs162_group13_clone.Devices.Block.{update, update_self}
use cs162_group13_clone.Filesys.Cache.{Cache}
use cs162_group13_clone.Filesys.FreeMap.{FreeMap, FileWrite}
use cs162_group13_clone.Filesys.Inode.Open.{
  Inode, Inodes, modify, list_remove, close_last, inode_close, inode_deny_write,
}
use cs162_group13_clone.Filesys.Inode.Open.Counts.{CountsFit, IsConsistent, modify-IsConsistent}

one_less : (z : ℤ) → pos 1 ≤ℤ z → z ≤ℤ pos 2147483647 → to_int32 (z -ℤ pos 1) ≡ z -ℤ pos 1
unfolding to_int32 ◌-ℤ◌
one_less (pos n) h l = ground arith
one_less (negsuc n) h l = absurd (omega arith)

mem-list_remove :
    (p q : ℕ) (ps : List ℕ)
    → distinct ps ≡ true
    → mem q (list_remove p ps) ≡ (mem q ps && not (q == p))
mem-list_remove p q [] d = refl
mem-list_remove p q (x ∷ ps) d = ground (arith, d, mem-list_remove p q ps (ground (arith, d)))

distinct-list_remove :
    (p : ℕ) (ps : List ℕ) → distinct ps ≡ true → distinct (list_remove p ps) ≡ true
distinct-list_remove p [] d = refl
distinct-list_remove p (x ∷ ps) d = ground (
  arith,
  d,
  distinct-list_remove p ps (ground (arith, d)),
  mem-list_remove p x ps (ground (arith, d)),
)

deny_more :
    (z w : ℤ)
    → pos 0 ≤ℤ z
    → z <ℤ w
    → w ≤ℤ pos 2147483647
    → (to_int32 (z +ℤ pos 1) ≡ z +ℤ pos 1)
      × (leb_ℤ (z +ℤ pos 1) w ≡ true)
      × (pos 0 ≤ℤ z +ℤ pos 1)
      × (z +ℤ pos 1 ≤ℤ w)
unfolding to_int32 ◌+ℤ◌
deny_more (pos n) (pos k) h l b = (ground arith, ground arith, ground arith, ground arith)
deny_more (pos n) (negsuc k) h l b = absurd (omega arith)
deny_more (negsuc n) w h l b = absurd (omega arith)

-- On a consistent table, `inode_deny_write` of an open inode that fewer than all its openers have denied writes to does
-- not panic: it counts one more, and keeps the table consistent.
pub inode_deny_write_lem :
    (t : Inodes) (p : ℕ)
    → IsConsistent t
    → mem p t.open_inodes ≡ true
    → (t.inodes p).deny_write_cnt <ℤ (t.inodes p).open_cnt
    → (t' : Inodes) × (inode_deny_write t p ≡ ok t')
      × IsConsistent t'
      × ((t'.inodes p).deny_write_cnt ≡ (t.inodes p).deny_write_cnt +ℤ pos 1)
unfolding inode_deny_write
inode_deny_write_lem t p v m l =
    let c = v.counts p m in
    let (e, le, low, high) =
      deny_more (t.inodes p).deny_write_cnt (t.inodes p).open_cnt c.deny l c.small in
    let inode = record (t.inodes p) { deny_write_cnt = (t.inodes p).deny_write_cnt +ℤ pos 1 } in
    (
      modify t p inode,
      rw (e, le) refl,
      modify-IsConsistent t p inode v refl
          record { opened = c.opened; small = c.small; deny = low; deny_open = high },
      ap (λ (i : Inode). i.deny_write_cnt) (update_self t.inodes inode {k = p} refl),
    )

-- The counts after a close that leaves openers.
abbrev closed : Inode → Inode
closed inode = record inode { open_cnt = inode.open_cnt -ℤ pos 1 }

close_less :
    (inode : Inode)
    → CountsFit inode
    → inode.deny_write_cnt <ℤ inode.open_cnt
    → pos 1 <ℤ inode.open_cnt
    → CountsFit (closed inode)
      × ((leb_ℤ (inode.open_cnt -ℤ pos 1) (pos 0) && leb_ℤ (pos 0) (inode.open_cnt -ℤ pos 1))
          ≡ false)
unfolding ◌-ℤ◌
close_less inode c d l = (
  record {
    opened = ground (arith, l);
    small = ground (arith, c.small, l);
    deny = c.deny;
    deny_open = ground (arith, d, l, c.deny);
  },
  ground (arith, l),
)

-- On a consistent table, a close of an inode that others have open too, by an opener who does not deny writes to it: one
-- opener less is counted, and nothing else of this inode, of the others or of the list of open inodes
-- changes; the table stays consistent, and neither the cache nor the free map is touched.
pub inode_close-others :
    (write : FileWrite) (address : ℕ) (t : Inodes) (c : Cache) (m : FreeMap) (p : ℕ)
    → IsConsistent t
    → mem p t.open_inodes ≡ true
    → (t.inodes p).deny_write_cnt <ℤ (t.inodes p).open_cnt
    → pos 1 <ℤ (t.inodes p).open_cnt
    → (t' : Inodes) × (inode_close write address t c m (some p) ≡ ok (t', c, m))
      × IsConsistent t'
      × ((t'.inodes p).open_cnt ≡ (t.inodes p).open_cnt -ℤ pos 1)
      × (t'.open_inodes ≡ t.open_inodes)
      × (((t'.inodes p).sector ≡ (t.inodes p).sector)
          × ((t'.inodes p).removed ≡ (t.inodes p).removed)
          × ((t'.inodes p).deny_write_cnt ≡ (t.inodes p).deny_write_cnt))
      × ((q : ℕ) → q ≢ p → t'.inodes q ≡ t.inodes q)
unfolding inode_close
inode_close-others write address t c m p v h d l =
    let f = v.counts p h in
    let (f', e) = close_less (t.inodes p) f d l in
    let here = update_self t.inodes (closed (t.inodes p)) {k = p} refl in
    (
      modify t p (closed (t.inodes p)),
      rw (one_less (t.inodes p).open_cnt f.opened f.small, e) refl,
      modify-IsConsistent t p (closed (t.inodes p)) v refl f',
      ap (λ (i : Inode). i.open_cnt) here,
      refl,
      (
        ap (λ (i : Inode). i.sector) here,
        ap (λ (i : Inode). i.removed) here,
        ap (λ (i : Inode). i.deny_write_cnt) here,
      ),
      λ q ne. ground (arith, ne),
    )

-- What is left when the last opener has closed p: p is open no more, the other inodes are as they
-- were, and the table is consistent.
pub record Closed (t : Inodes) (p : ℕ) (t' : Inodes) : Type 0 where
  pub consistent : IsConsistent t'
  pub gone : mem p t'.open_inodes ≡ false
  pub others :
      (q : ℕ) → q ≢ p → (mem q t'.open_inodes ≡ mem q t.open_inodes) × (t'.inodes q ≡ t.inodes q)

-- The table without p, whose opener count is 0.
abbrev without : Inodes → ℕ → Inodes
without t p = record {
  inodes = update t.inodes p (record (t.inodes p) { open_cnt = pos 0 });
  open_inodes = list_remove p t.open_inodes;
}

without-Closed : (t : Inodes) (p : ℕ) → IsConsistent t → Closed t p (without t p)
without-Closed t p v = record {
  consistent = record {
    once = distinct-list_remove p t.open_inodes v.once;
    one_per_sector = λ x y m n e.
        let (m', nx) = left x m in
        let (n', ny) = left y n in v.one_per_sector x y m' n' (ground (arith, e, nx, ny));
    counts = λ x m. let (m', nx) = left x m in rw nx (v.counts x m');
  };
  gone = ground (arith, mem-list_remove p p t.open_inodes v.once);
  others =
      λ q ne. (ground (arith, ne, mem-list_remove p q t.open_inodes v.once), ground (arith, ne));
}
  where
    left :
        (x : ℕ)
        → mem x (list_remove p t.open_inodes) ≡ true
        → (mem x t.open_inodes ≡ true) × ((x == p) ≡ false)
    left x m = (
      ground (arith, m, mem-list_remove p x t.open_inodes v.once),
      ground (arith, m, mem-list_remove p x t.open_inodes v.once),
    )

close_last-kept :
    (write : FileWrite) (address : ℕ) (t : Inodes) (c : Cache) (m : FreeMap) (p : ℕ)
    → (t.inodes p).removed ≡ false
    → close_last write address t c m p
      ≡ ok (record t { open_inodes = list_remove p t.open_inodes }, c, m)
unfolding close_last
close_last-kept write address t c m p r = rw r refl

-- On a consistent table, the last close of an inode that is not removed takes it off the table and touches neither the
-- cache nor the free map.
pub inode_close-last :
    (write : FileWrite) (address : ℕ) (t : Inodes) (c : Cache) (m : FreeMap) (p : ℕ)
    → IsConsistent t
    → (t.inodes p).open_cnt ≡ pos 1
    → (t.inodes p).removed ≡ false
    → (t' : Inodes) × (inode_close write address t c m (some p) ≡ ok (t', c, m)) × Closed t p t'
unfolding inode_close to_int32 ◌-ℤ◌
inode_close-last write address t c m p v o r =
    let inode = record (t.inodes p) { open_cnt = pos 0 } in
    (
      without t p,
      rw o (
          close_last-kept write address (modify t p inode) c m p
            (ap (λ (i : Inode). i.removed) (update_self t.inodes inode {k = p} refl) ∙ r)),
      without-Closed t p v,
    )
