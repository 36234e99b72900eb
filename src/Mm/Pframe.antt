-- ===== src/Mm/Pframe.antt =====
-- kernel/mm/pframe.c: the resident pages.
pub mod Valid
pub mod Pin
pub mod Cache
pub mod Free
pub mod Get
pub mod Clean
pub mod Dirty
use weenix.Prelude.{
  ℕ, zero, suc, ◌+◌, ◌-◌, Bool, true, false, ◌&&◌, ◌||◌, not, Option, none, some, List, [], ◌∷◌,
  ◌++◌, if◌then◌else◌, ◌==◌, ltb, leb, Exec, returns, panics, ◌>>=◌, ◌>>◌, kassert, deref, Ret,
  done, fails, Errno, length,
}
use weenix.Proc.Fifo.{remove_elem}
use weenix.Mm.State.{
  Pframe, Mmobj, Event, tlb_flush, remove_from_pts, page_free, slab_obj_free, broadcast, Mem, log,
  set_pf, set_obj, set_chain, unlink, is_some, is_obj, Mmops,
}

abbrev pub is_pinned : Pframe → Bool
is_pinned f = not (f.pincount == 0)

abbrev pub is_page : Pframe → ℕ → ℕ → Bool
is_page f o pagenum = is_obj f.obj o && f.pagenum == pagenum

abbrev pub set_busy : Mem → ℕ → Bool → Mem
set_busy s p b = set_pf s p (record (s.pframe p) { busy = b })

abbrev pub set_dirty : Mem → ℕ → Bool → Mem
set_dirty s p b = set_pf s p (record (s.pframe p) { dirty = b })

-- A page that is not pinned goes to the back of `alloc_list`.
abbrev pub requested : Mem → ℕ → Mem
requested s p = if is_pinned (s.pframe p) then s else record s {
  alloc_list = remove_elem p s.alloc_list ++ p ∷ [];
  pinned_list = remove_elem p s.pinned_list;
}

-- The loop over a hash chain.
pub find_page : Mem → ℕ → ℕ → List ℕ → Option ℕ
find_page s o pagenum [] = none
find_page s o pagenum (p ∷ ps) =
    if is_page (s.pframe p) o pagenum then some p else find_page s o pagenum ps

abbrev pub found_page : Mem → Option ℕ → Option ℕ × Mem
found_page s none = (none, s)
found_page s (some p) = (some p, requested s p)

pub pframe_pin : Mem → ℕ → Exec Mem
pframe_pin s p = do
  kassert (is_some (s.pframe p).obj)
  let t = set_pf s p (record (s.pframe p) { pincount = (s.pframe p).pincount + 1 })
  returns (
      if (s.pframe p).pincount + 1 == 1
      then record t {
        alloc_list = remove_elem p s.alloc_list;
        nallocated = s.nallocated - 1;
        pinned_list = remove_elem p s.pinned_list ++ p ∷ [];
        npinned = s.npinned + 1;
      }
      else t)

pub pframe_unpin : Mem → ℕ → Exec Mem
pframe_unpin s p = do
  kassert (is_some (s.pframe p).obj)
  kassert (ltb 0 (s.pframe p).pincount)
  let t = set_pf s p (record (s.pframe p) { pincount = (s.pframe p).pincount - 1 })
  returns (
      if (s.pframe p).pincount - 1 == 0
      then record t {
        pinned_list = remove_elem p s.pinned_list;
        npinned = s.npinned - 1;
        alloc_list = remove_elem p s.alloc_list ++ p ∷ [];
        nallocated = s.nallocated + 1;
      }
      else t)

-- The `int` of an operation is 0 or an error.
abbrev pub end_busy : Mem → ℕ → Mem
end_busy s p = log (set_busy s p false) (broadcast p)

abbrev pub after_dirty : Mem → ℕ → Ret ℕ → Mem
after_dirty s p (done n) = if n == 0 then set_dirty s p true else s
after_dirty s p (fails e) = s

abbrev pub after_clean : Mem → ℕ → Ret ℕ → Mem
after_clean s p (done n) = s
after_clean s p (fails e) = set_dirty s p true

-- What `pframe_get` comes to: the page, an error, or a sleep on the queue of a page that is busy, after
-- which it starts again.
pub data Got : Type 0 where
  got : ℕ → Got
  failed : Errno → Got
  sleeps_on : ℕ → Got

module _ (ops : Mmops) where
  pub pframe_get_resident : Mem → ℕ → ℕ → Option ℕ × Mem
  pframe_get_resident s o pagenum =
      found_page s (find_page s o pagenum (s.hash (ops.hash_page o pagenum)))

  -- The new frame `p`, whose page comes from `page_alloc`.
  pub init_pframe : Mem → ℕ → (ℕ → ℕ) → ℕ → ℕ → Exec Mem
  init_pframe s p bytes o pagenum = do
    let chain = ops.hash_page o pagenum
    let s1 =
        record (set_pf s p (record {
          obj = some o;
          pagenum = pagenum;
          busy = false;
          dirty = false;
          pincount = 0;
          bytes = bytes;
        })) { nallocated = s.nallocated + 1; alloc_list = s.alloc_list ++ p ∷ [] }
    s2 ← ops.ref (set_chain s1 chain (p ∷ s.hash chain)) o
    returns (
        set_obj s2 o (record (s2.mmobj o) {
          nrespages = (s2.mmobj o).nrespages + 1;
          respages = p ∷ (s2.mmobj o).respages;
        }))

  pub alloc_page : Mem → ℕ → ℕ → ℕ → Option (ℕ → ℕ) → Exec (Option ℕ × Mem)
  alloc_page s p o pagenum none = returns (none, log s (slab_obj_free p))
  alloc_page s p o pagenum (some bytes) = do
    t ← init_pframe s p bytes o pagenum
    returns (some p, t)

  pub alloc_slab : Mem → ℕ → ℕ → Option ℕ → Exec (Option ℕ × Mem)
  alloc_slab s o pagenum none = returns (none, s)
  alloc_slab s o pagenum (some p) = alloc_page s p o pagenum (ops.page_alloc s)

  pub pframe_alloc : Mem → ℕ → ℕ → Exec (Option ℕ × Mem)
  pframe_alloc s o pagenum = alloc_slab s o pagenum (ops.slab_obj_alloc s)

  pub pframe_fill : Mem → ℕ → Exec (Ret ℕ × Mem)
  pframe_fill s p = do
    o ← deref (s.pframe p).obj
    (r, t) ← ops.fillpage (set_busy s p true) o p
    returns (r, end_busy t p)

  pub pframe_dirty : Mem → ℕ → Exec (Ret ℕ × Mem)
  pframe_dirty s p = do
    kassert (not (s.pframe p).busy)
    o ← deref (s.pframe p).obj
    (r, t) ← ops.dirtypage (set_busy s p true) o p
    returns (r, end_busy (after_dirty t p r) p)

  pub pframe_clean : Mem → ℕ → Exec (Ret ℕ × Mem)
  pframe_clean s p = do
    kassert (s.pframe p).dirty
    kassert ((s.pframe p).pincount == 0)
    o ← deref (s.pframe p).obj
    let s1 = log (log (set_dirty s p false) (tlb_flush p)) (remove_from_pts p)
    (r, t) ← ops.cleanpage (set_busy s1 p true) o p
    returns (r, end_busy (after_clean t p r) p)

  -- The page of `pf` is out of every list before the object is put.
  abbrev pub uncached : Mem → ℕ → ℕ → Mem
  uncached s p o =
      let f = s.pframe p in
      let chain = ops.hash_page o f.pagenum in
      record s {
        pframe = λ i. if p == i then record f { obj = none } else s.pframe i;
        hash = λ i. if chain == i then remove_elem p (s.hash chain) else s.hash i;
        nallocated = s.nallocated - 1;
        alloc_list = remove_elem p s.alloc_list;
        pinned_list = remove_elem p s.pinned_list;
        mmobj = λ i.
            if o == i
            then record (s.mmobj o) {
              nrespages = (s.mmobj o).nrespages - 1;
              respages = remove_elem p (s.mmobj o).respages;
            }
            else s.mmobj i;
        events = slab_obj_free p ∷ page_free p ∷ remove_from_pts p ∷ tlb_flush p ∷ s.events;
      }

  pub pframe_free : Mem → ℕ → Exec Mem
  pframe_free s p = do
    kassert (not (is_pinned (s.pframe p)))
    o ← deref (s.pframe p).obj
    kassert (not (s.pframe p).busy)
    ops.put (uncached s p o) o

  pub get_filled : ℕ → Ret ℕ × Mem → Exec (Got × Mem)
  get_filled p (fails e, s) = do t ← pframe_free s p; returns (failed e, t)
  get_filled p (done n, s) = do kassert (not (s.pframe p).busy); returns (got p, s)

  -- The result of `pframe_alloc` is used without a test for NULL.
  pub get_alloced : Option ℕ × Mem → Exec (Got × Mem)
  get_alloced (q, s) = do p ← deref q; r ← pframe_fill s p; get_filled p r

  pub get_found : ℕ → ℕ → Option ℕ × Mem → Exec (Got × Mem)
  get_found o pagenum (some p, s) =
      if (s.pframe p).busy then returns (sleeps_on p, s) else returns (got p, s)
  get_found o pagenum (none, s) = do r ← pframe_alloc s o pagenum; get_alloced r

  -- One round of the loop.
  pub pframe_get : Mem → ℕ → ℕ → Exec (Got × Mem)
  pframe_get s o pagenum = get_found o pagenum (pframe_get_resident s o pagenum)

  pub migrate_to : Mem → ℕ → ℕ → Exec Mem
  migrate_to s p dest = do
    src ← deref (s.pframe p).obj
    let pagenum = (s.pframe p).pagenum
    let old = ops.hash_page src pagenum
    let new = ops.hash_page dest pagenum
    let s1 = set_pf s p (record (s.pframe p) { obj = some dest })
    let s2 = set_chain s1 old (remove_elem p (s1.hash old))
    s3 ←
        ops.put
          (set_obj s2 src (record (s2.mmobj src) {
            nrespages = (s2.mmobj src).nrespages - 1;
            respages = remove_elem p (s2.mmobj src).respages;
          }))
          src
    let s4 = set_chain s3 new (p ∷ s3.hash new)
    ops.ref
        (set_obj s4 dest (record (s4.mmobj dest) {
          nrespages = (s4.mmobj dest).nrespages + 1;
          respages = p ∷ (s4.mmobj dest).respages;
        }))
        dest

  pub migrate_found : ℕ → ℕ → Option ℕ × Mem → Exec Mem
  migrate_found p dest (some q, s) = do
    t ← pframe_unpin s p
    (r, u) ← pframe_clean t p
    pframe_free u p
  migrate_found p dest (none, s) = migrate_to s p dest

  pub pframe_migrate : Mem → ℕ → ℕ → Exec Mem
  pframe_migrate s p dest = do
    kassert (not (s.pframe p).busy)
    migrate_found p dest (pframe_get_resident s dest (s.pframe p).pagenum)

  -- The first page of the list that is busy or dirty.
  pub first_unclean : Mem → List ℕ → Exec (Option ℕ)
  first_unclean s [] = returns none
  first_unclean s (p ∷ ps) = do
    kassert (not (is_pinned (s.pframe p)))
    kassert (is_some (s.pframe p).obj)
    let rest = first_unclean s ps
    if (s.pframe p).busy || (s.pframe p).dirty then returns (some p) else rest

  pub clean_found : Mem → (Mem → Exec (Option ℕ × Mem)) → Option ℕ → Exec (Option ℕ × Mem)
  clean_found s next none = returns (none, s)
  clean_found s next (some p) =
      if (s.pframe p).busy then returns (some p, s) else pframe_clean s p >>= λ r. next r.1

  -- Until it ends, or sleeps on a page that is busy; after the sleep it starts again. The fuel is the
  -- number of rounds.
  pub clean_all : ℕ → Mem → Exec (Option ℕ × Mem)
  clean_all zero s = panics
  clean_all (suc fuel) s = first_unclean s s.alloc_list >>= λ q. clean_found s (clean_all fuel) q

  pub pframe_clean_all : Mem → Exec (Option ℕ × Mem)
  pframe_clean_all s = clean_all (length s.alloc_list + 1) s
