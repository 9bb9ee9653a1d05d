-- ===== src/Filesys/Inode/Open.antt =====
-- pintos/src/filesys/inode.c, the inodes in memory: inode_init's list, inode_open, inode_reopen,
-- inode_close, inode_remove, inode_deny_write, inode_allow_write. An inode is named by its pointer;
-- a member of `struct inode` that is an `int` wraps here where the C overflow is undefined.
pub mod Counts
pub mod Close
use cs162_group13_clone.Base.{
  ℕ, ◌==◌, Bool, true, false, ◌&&◌, List, [], ◌∷◌, Option, none, some, Outcome, ok, assert, ◌>>=◌,
  ◌>>◌, if◌then◌else◌,
}
use cs162_group13_clone.Base.Int.{ℤ, pos, negsuc, ◌+ℤ◌, ◌-ℤ◌, ltb_ℤ, leb_ℤ, to_int32}
use cs162_group13_clone.Devices.Block.{update}
use cs162_group13_clone.Filesys.Cache.{Cache, cache_read}
use cs162_group13_clone.Filesys.FreeMap.{FreeMap, FileWrite, free_map_release}
use cs162_group13_clone.Filesys.Inode.Dealloc.{deallocate_inode}

pub record Inode : Type 0 where
  pub sector : ℕ
  pub open_cnt : ℤ
  pub removed : Bool
  pub deny_write_cnt : ℤ

-- What the pointers point to, and the list of the open inodes.
pub record Inodes : Type 0 where
  pub inodes : ℕ → Inode
  pub open_inodes : List ℕ

abbrev pub modify : Inodes → ℕ → Inode → Inodes
modify t p inode = record t { inodes = update t.inodes p inode }

-- The loop of `inode_open`.
unfoldable pub find_open : (ℕ → Inode) → List ℕ → ℕ → Option ℕ
find_open inodes [] sector = none
find_open inodes (p ∷ ps) sector =
    if (inodes p).sector == sector then some p else find_open inodes ps sector

abbrev pub reopened : Inode → Inode
reopened inode = record inode { open_cnt = to_int32 (inode.open_cnt +ℤ pos 1) }

unfoldable pub inode_reopen : Inodes → Option ℕ → Inodes
inode_reopen t none = t
inode_reopen t (some p) = modify t p (reopened (t.inodes p))

-- The part of `inode_open` for a sector that is not open. `fresh` is what `malloc` gives.
unfoldable pub open_new : Inodes → ℕ → Option ℕ → Option ℕ × Inodes
open_new t sector none = (none, t)
open_new t sector (some p) = (
  some p,
  record {
    inodes =
        update t.inodes p
          record { sector = sector; open_cnt = pos 1; removed = false; deny_write_cnt = pos 0 };
    open_inodes = p ∷ t.open_inodes;
  },
)

unfoldable pub inode_open : Inodes → ℕ → Option ℕ → Option ℕ × Inodes
inode_open t sector fresh = elim (find_open t.inodes t.open_inodes sector) [
  | some p ↦ (some p, inode_reopen t (some p))
  | none ↦ open_new t sector fresh
]

abbrev pub list_remove : ℕ → List ℕ → List ℕ
list_remove p [] = []
list_remove p (q ∷ qs) = if p == q then qs else q ∷ list_remove p qs

module _ (write : FileWrite) where
  -- The part of `inode_close` for the last opener. `address` is where `disk_inode` lies.
  unfoldable pub close_last : ℕ → Inodes → Cache → FreeMap → ℕ → Outcome (Inodes × Cache × FreeMap)
  close_last address t c m p =
      let t' = record t { open_inodes = list_remove p t.open_inodes } in
      if (t.inodes p).removed
      then (do
        r ← cache_read c (t.inodes p).sector
        (m1, c1) ← deallocate_inode write address r.cache m r.data_out
        (m2, c2) ← free_map_release write c1 m1 (t.inodes p).sector 1
        ok (t', c2, m2))
      else ok (t', c, m)

  unfoldable pub inode_close :
      ℕ → Inodes → Cache → FreeMap → Option ℕ → Outcome (Inodes × Cache × FreeMap)
  inode_close address t c m none = ok (t, c, m)
  inode_close address t c m (some p) =
      let open_cnt = to_int32 ((t.inodes p).open_cnt -ℤ pos 1) in
      let t' = modify t p (record (t.inodes p) { open_cnt = open_cnt }) in
      if leb_ℤ open_cnt (pos 0) && leb_ℤ (pos 0) open_cnt
      then close_last address t' c m p
      else ok (t', c, m)

unfoldable pub inode_remove : Inodes → ℕ → Inodes
inode_remove t p = modify t p (record (t.inodes p) { removed = true })

unfoldable pub inode_deny_write : Inodes → ℕ → Outcome Inodes
inode_deny_write t p =
    let deny = to_int32 ((t.inodes p).deny_write_cnt +ℤ pos 1) in
    assert (leb_ℤ deny (t.inodes p).open_cnt)
    >> ok (modify t p (record (t.inodes p) { deny_write_cnt = deny }))

unfoldable pub inode_allow_write : Inodes → ℕ → Outcome Inodes
inode_allow_write t p =
    let deny = (t.inodes p).deny_write_cnt in
    assert (ltb_ℤ (pos 0) deny)
    >> assert (leb_ℤ deny (t.inodes p).open_cnt)
    >> ok (modify t p (record (t.inodes p) { deny_write_cnt = to_int32 (deny -ℤ pos 1) }))
