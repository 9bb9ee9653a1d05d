-- ===== src/Filesys/Inode/Open/Counts.antt =====
-- The table of open inodes: one inode for each sector that is open, with counts in range.
use native.Mathlib.Decide.{ℕ_discrete}
use cs162_group13_clone.Base.{
  ℕ, ◌==◌, ◌≡◌, ◌≢◌, ◌⊎◌, refl, sym, ap, ◌∙◌, true, false, List, [], ◌∷◌, Option, none, some, arith,
  inl, inr, Bool-cases, ==_iff, mem, distinct,
}
use cs162_group13_clone.Base.Int.{ℤ, pos, negsuc, ◌+ℤ◌, ◌≤ℤ◌, ◌<ℤ◌, to_int32}
use cs162_group13_clone.Devices.Block.{update, update_self}
use cs162_group13_clone.Filesys.Inode.Open.{
  Inode, Inodes, modify, find_open, reopened, inode_reopen, open_new, inode_open,
}

-- The counts of an open inode.
pub record CountsFit (inode : Inode) : Type 0 where
  pub opened : pos 1 ≤ℤ inode.open_cnt
  pub small : inode.open_cnt ≤ℤ pos 2147483647
  pub deny : pos 0 ≤ℤ inode.deny_write_cnt
  pub deny_open : inode.deny_write_cnt ≤ℤ inode.open_cnt

pub record IsConsistent (t : Inodes) : Type 0 where
  pub once : distinct t.open_inodes ≡ true
  pub one_per_sector :
      (p q : ℕ)
      → mem p t.open_inodes ≡ true
      → mem q t.open_inodes ≡ true
      → (t.inodes p).sector ≡ (t.inodes q).sector
      → p ≡ q
  pub counts : (p : ℕ) → mem p t.open_inodes ≡ true → CountsFit (t.inodes p)

-- What the search for a sector gives.
pub data Search (inodes : ℕ → Inode) (ps : List ℕ) (sector : ℕ) (o : Option ℕ) : Type 0 where
  not_open :
      o ≡ none
      → ((p : ℕ) → mem p ps ≡ true → (inodes p).sector ≢ sector)
      → Search inodes ps sector o
  is_open :
      (p : ℕ)
      → o ≡ some p
      → mem p ps ≡ true
      → (inodes p).sector ≡ sector
      → Search inodes ps sector o

find_open_lem :
    (inodes : ℕ → Inode) (ps : List ℕ) (sector : ℕ)
    → Search inodes ps sector (find_open inodes ps sector)
unfolding find_open
find_open_lem inodes [] sector = not_open refl (λ p h. cc)
find_open_lem inodes (p ∷ ps) sector = elim (Bool-cases ((inodes p).sector == sector)) [
  | inl e ↦ rw e (is_open p refl (ground arith) ((==_iff _ sector).0 e))
  | inr e ↦ rw e (later e (find_open_lem inodes ps sector))
]
  where
    later :
        ((inodes p).sector == sector) ≡ false
        → {o : Option ℕ} → Search inodes ps sector o
        → Search inodes (p ∷ ps) sector o
    later e (not_open q h) = not_open q (λ x m. ground (arith, m, e, h x))
    later e (is_open x q m s) = is_open x q (ground (arith, m)) s

pub modify-IsConsistent :
    (t : Inodes) (p : ℕ) (inode : Inode)
    → IsConsistent t
    → inode.sector ≡ (t.inodes p).sector
    → CountsFit inode
    → IsConsistent (modify t p inode)
modify-IsConsistent t p inode v s c = record {
  once = v.once;
  one_per_sector = λ x y m n e. v.one_per_sector x y m n (sym (same_sector x) ∙ e ∙ same_sector y);
  counts = λ x m. elim (Bool-cases (x == p)) [ inl e ↦ rw e c | inr e ↦ rw e (v.counts x m) ];
}
  where
    same_sector : (x : ℕ) → (update t.inodes p inode x).sector ≡ (t.inodes x).sector
    same_sector x = elim (Bool-cases (x == p)) [
      | inl e ↦ let e' = (==_iff x p).0 e in rw (e, e') s
      | inr e ↦ rw e refl
    ]

-- What an open of the sector s leaves: p is the sector's inode, with one opener more than before,
-- and the other inodes are as they were.
pub record Opened (t : Inodes) (s p : ℕ) (t' : Inodes) : Type 0 where
  pub consistent : IsConsistent t'
  pub in_table : mem p t'.open_inodes ≡ true
  pub at_sector : (t'.inodes p).sector ≡ s
  pub count :
      ((mem p t.open_inodes ≡ true) × ((t'.inodes p).open_cnt ≡ (t.inodes p).open_cnt +ℤ pos 1))
      ⊎ (((q : ℕ) → mem q t.open_inodes ≡ true → (t.inodes q).sector ≢ s)
          × ((t'.inodes p).open_cnt ≡ pos 1))
  pub others :
      (q : ℕ) → q ≢ p → (mem q t'.open_inodes ≡ mem q t.open_inodes) × (t'.inodes q ≡ t.inodes q)

one_more : (z : ℤ) → pos 1 ≤ℤ z → z <ℤ pos 2147483647 → to_int32 (z +ℤ pos 1) ≡ z +ℤ pos 1
unfolding to_int32 ◌+ℤ◌
one_more (pos n) h l = ground arith
one_more (negsuc n) h l = absurd (omega arith)

reopened-CountsFit :
    (inode : Inode)
    → CountsFit inode
    → inode.open_cnt <ℤ pos 2147483647
    → CountsFit (reopened inode)
unfolding ◌+ℤ◌
reopened-CountsFit inode c l =
    let e = one_more inode.open_cnt c.opened l in
    record {
      opened = rw e (ground (arith, c.opened));
      small = rw e (ground (arith, l, c.opened));
      deny = c.deny;
      deny_open = rw e (ground (arith, c.deny_open, c.opened, c.deny));
    }

reopen_lem :
    (t : Inodes) (s p : ℕ)
    → IsConsistent t
    → mem p t.open_inodes ≡ true
    → (t.inodes p).sector ≡ s
    → (t.inodes p).open_cnt <ℤ pos 2147483647
    → Opened t s p (modify t p (reopened (t.inodes p)))
reopen_lem t s p v m e l = record {
  consistent =
      modify-IsConsistent t p (reopened (t.inodes p)) v refl
        (reopened-CountsFit (t.inodes p) (v.counts p m) l);
  in_table = m;
  at_sector = ground (arith, e);
  count = inl (
    m,
    ap (λ (i : Inode). i.open_cnt) (update_self t.inodes (reopened (t.inodes p)) {k = p} refl)
        ∙ one_more (t.inodes p).open_cnt (v.counts p m).opened l,
  );
  others = λ q ne. (refl, ground (arith, ne));
}

new_counts :
    {s : ℕ}
    → CountsFit (record { sector = s; open_cnt = pos 1; removed = false; deny_write_cnt = pos 0 })
new_counts = record {
  opened = omega arith;
  small = omega arith;
  deny = omega arith;
  deny_open = omega arith;
}

open_new_lem :
    (t : Inodes) (s p : ℕ)
    → IsConsistent t
    → mem p t.open_inodes ≡ false
    → ((q : ℕ) → mem q t.open_inodes ≡ true → (t.inodes q).sector ≢ s)
    → Opened t s p (open_new t s (some p)).1
unfolding open_new
open_new_lem t s p v f n = record {
  consistent = record {
    once = ground (arith, f, v.once);
    one_per_sector = λ x y m m' e. elim (ℕ_discrete x p) [
      | yes ex ↦ elim (ℕ_discrete y p) [
        | yes ey ↦ ex ∙ sym ey
        | no ny ↦ absurd (n y (ground (arith, m', ny)) (ground (arith, e, ex, ny)))
      ]
      | no nx ↦ elim (ℕ_discrete y p) [
        | yes ey ↦ absurd (n x (ground (arith, m, nx)) (ground (arith, e, ey, nx)))
        | no ny ↦
            v.one_per_sector x y (ground (arith, m, nx)) (ground (arith, m', ny))
              (ground (arith, e, nx, ny))
      ]
    ];
    counts = λ x m. elim (Bool-cases (x == p)) [
      | inl ex ↦ rw ex new_counts
      | inr nx ↦ rw nx (v.counts x (ground (arith, m, nx)))
    ];
  };
  in_table = ground arith;
  at_sector = ground arith;
  count = inr (n, ground arith);
  others = λ q ne. (ground (arith, ne), ground (arith, ne));
}

open_new-some : (t : Inodes) (s f : ℕ) → open_new t s (some f) ≡ (some f, (open_new t s (some f)).1)
unfolding open_new
open_new-some t s f = refl

-- `inode_open` of a sector on a consistent table, with memory for a new inode at a place f that is no open inode, and
-- fewer than 2^31 - 1 openers so far, gives an inode of that sector that is counted as open once
-- more: the one that is open already, if one is. There is one inode for each open sector still,
-- the counts stay in range, and the other inodes are as they were.
pub inode_open_lem :
    (t : Inodes) (s f : ℕ)
    → IsConsistent t
    → mem f t.open_inodes ≡ false
    → ((q : ℕ) → mem q t.open_inodes ≡ true → (t.inodes q).open_cnt <ℤ pos 2147483647)
    → (p : ℕ) × (t' : Inodes) × (inode_open t s (some f) ≡ (some p, t')) × Opened t s p t'
unfolding inode_open inode_reopen
inode_open_lem t s f v m l = by_search (find_open_lem t.inodes t.open_inodes s)
  where
    by_search :
        Search t.inodes t.open_inodes s (find_open t.inodes t.open_inodes s)
        → (p : ℕ) × (t' : Inodes) × (inode_open t s (some f) ≡ (some p, t')) × Opened t s p t'
    by_search (not_open e n) = (
      f,
      (open_new t s (some f)).1,
      rw (e, inode_open) (open_new-some t s f),
      open_new_lem t s f v m n,
    )
    by_search (is_open p e h q) = (
      p,
      modify t p (reopened (t.inodes p)),
      rw (e, inode_open) refl,
      reopen_lem t s p v h q (l p h),
    )
