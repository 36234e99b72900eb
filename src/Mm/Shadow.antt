-- ===== src/Mm/Shadow.antt =====
-- kernel/vm/shadow.c: shadow objects, over the page frames.
pub mod Chain
use weenix.Prelude.{
  ℕ, zero, suc, ◌+◌, ◌-◌, Bool, true, false, ◌&&◌, not, Option, none, some, List, [], ◌∷◌,
  if◌then◌else◌, ◌==◌, ltb, Exec, returns, panics, ◌>>=◌, ◌>>◌, kassert, deref, Ret, done, fails,
}
use weenix.Mm.State.{Pframe, Mmobj, Event, slab_obj_free, Mem, log, set_pf, set_obj, Mmops}
use weenix.Mm.Pframe.{
  is_pinned, pframe_get_resident, pframe_pin, pframe_dirty, Got, got, failed, sleeps_on, pframe_get,
}
use weenix.Mm.Anon.{set_refcount, free_pages}

-- `newobj` is what `slab_obj_alloc` gives; it is used without a test.
unfoldable pub shadow_create : Mem → Option ℕ → Exec (ℕ × Mem)
shadow_create s newobj = do
  o ← deref newobj
  returns (
    o,
    set_obj s o
        (record { refcount = 1; nrespages = 0; respages = []; shadowed = none; bottom = none }),
  )

pub shadow_ref : Mem → ℕ → Exec Mem
shadow_ref s o = do
  kassert (ltb 0 (s.mmobj o).refcount)
  returns (set_refcount s o ((s.mmobj o).refcount + 1))

abbrev pub shadow_dirtypage : Mem → ℕ → ℕ → Exec (Ret ℕ × Mem)
shadow_dirtypage s o p = returns (done 0, s)

abbrev pub shadow_cleanpage : Mem → ℕ → ℕ → Exec (Ret ℕ × Mem)
shadow_cleanpage s o p = returns (done 0, s)

-- The operations of the pages of shadow objects, and of the objects below: `put`, and the page that
-- `pframe_lookup` for reading gives.
module _ (ops : Mmops) (put : Mem → ℕ → Exec Mem)
    (lookup_bottom : Mem → ℕ → ℕ → Exec (Ret ℕ × Mem)) where
  pub shadow_put : Mem → ℕ → Exec Mem
  shadow_put s o = do
    kassert (ltb 0 (s.mmobj o).refcount)
    if not ((s.mmobj o).nrespages == (s.mmobj o).refcount - 1)
        then returns (set_refcount s o ((s.mmobj o).refcount - 1))
        else (do
          t ← free_pages ops s (s.mmobj o).respages
          let u = set_refcount t o ((t.mmobj o).refcount - 1)
          below ← deref (u.mmobj o).shadowed
          v ← put u below
          bottom ← deref (v.mmobj o).bottom
          w ← put v bottom
          returns (log w (slab_obj_free o)))

  abbrev pub found_resident : (Mem → Exec (Option ℕ × Mem)) → Option ℕ × Mem → Exec (Option ℕ × Mem)
  found_resident next (some p, s) = returns (some p, s)
  found_resident next (none, s) = next s

  abbrev pub read_at :
      (Mem → ℕ → Exec (Option ℕ × Mem)) → Mem → ℕ → ℕ → Option ℕ → Exec (Option ℕ × Mem)
  read_at next s cur n none = returns (none, s)
  read_at next s cur n (some below) =
      found_resident (λ t. next t below) (pframe_get_resident ops s cur n)

  -- The loop of a lookup for reading, which ends at the object that shadows nothing. The fuel is the
  -- number of rounds.
  pub find_read : ℕ → Mem → ℕ → ℕ → Exec (Option ℕ × Mem)
  find_read zero s cur n = panics
  find_read (suc fuel) s cur n =
      read_at (λ t below. find_read fuel t below n) s cur n (s.mmobj cur).shadowed

  abbrev pub fill_at :
      (Mem → ℕ → Exec (Option ℕ × Mem)) → Mem → ℕ → Option ℕ → Exec (Option ℕ × Mem)
  fill_at next s n none = returns (none, s)
  fill_at next s n (some below) =
      found_resident (λ t. next t below) (pframe_get_resident ops s below n)

  -- The loop of shadow_fillpage, from the object below on. No page belongs to NULL.
  pub find_fill : ℕ → Mem → ℕ → ℕ → Exec (Option ℕ × Mem)
  find_fill zero s cur n = panics
  find_fill (suc fuel) s cur n =
      fill_at (λ t below. find_fill fuel t below n) s n (s.mmobj cur).shadowed

  -- The KASSERTs at the end.
  abbrev pub checked : ℕ → Got × Mem → Exec (Got × Mem)
  checked n (got p, s) = do
    kassert ((s.pframe p).pagenum == n && not (s.pframe p).busy)
    returns (got p, s)
  checked n (failed e, s) = returns (failed e, s)
  checked n (sleeps_on p, s) = returns (sleeps_on p, s)

  abbrev pub bottom_found : ℕ → Ret ℕ × Mem → Exec (Got × Mem)
  bottom_found n (done p, s) = checked n (got p, s)
  bottom_found n (fails e, s) = returns (failed e, s)

  pub read_found : ℕ → ℕ → Option ℕ × Mem → Exec (Got × Mem)
  read_found o n (some p, s) = checked n (got p, s)
  read_found o n (none, s) = do
    bottom ← deref (s.mmobj o).bottom
    r ← lookup_bottom s bottom n
    bottom_found n r

  -- The result of `pframe_dirty` is not tested.
  pub write_got : ℕ → Got × Mem → Exec (Got × Mem)
  write_got n (got p, s) = do (r, t) ← pframe_dirty ops s p; checked n (got p, t)
  write_got n (failed e, s) = returns (failed e, s)
  write_got n (sleeps_on p, s) = returns (sleeps_on p, s)

  pub write_found : ℕ → ℕ → Option ℕ × Mem → Exec (Got × Mem)
  write_found o n (some p, s) = checked n (got p, s)
  write_found o n (none, s) = pframe_get ops s o n >>= λ r. write_got n r

  pub shadow_lookuppage : ℕ → Mem → ℕ → ℕ → Bool → Exec (Got × Mem)
  shadow_lookuppage fuel s o n forwrite =
      if forwrite
      then write_found o n (pframe_get_resident ops s o n)
      else find_read fuel s o n >>= λ r. read_found o n r

  -- `memcpy` of a whole page, and the pin.
  pub copy_page : Mem → ℕ → ℕ → Exec (Ret ℕ × Mem)
  copy_page s p q = do
    t ← pframe_pin (set_pf s p (record (s.pframe p) { bytes = (s.pframe q).bytes })) p
    returns (done 0, t)

  abbrev pub fill_bottom : ℕ → Ret ℕ × Mem → Exec (Ret ℕ × Mem)
  fill_bottom p (done q, s) = copy_page s p q
  fill_bottom p (fails e, s) = returns (fails e, s)

  pub fill_found : ℕ → ℕ → Option ℕ × Mem → Exec (Ret ℕ × Mem)
  fill_found o p (some q, s) = copy_page s p q
  fill_found o p (none, s) = do
    bottom ← deref (s.mmobj o).bottom
    r ← lookup_bottom s bottom (s.pframe p).pagenum
    fill_bottom p r

  pub shadow_fillpage : ℕ → Mem → ℕ → ℕ → Exec (Ret ℕ × Mem)
  shadow_fillpage fuel s o p = do
    kassert (s.pframe p).busy
    kassert (not (is_pinned (s.pframe p)))
    r ← find_fill fuel s o (s.pframe p).pagenum
    fill_found o p r
