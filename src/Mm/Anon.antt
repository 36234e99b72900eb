-- ===== src/Mm/Anon.antt =====
-- kernel/vm/anon.c: anonymous memory objects.
pub mod Laws
pub mod Put
pub mod Zero
use weenix.Prelude.{
  ℕ, zero, suc, ◌+◌, ◌-◌, Bool, true, false, not, Option, none, some, List, [], ◌∷◌, if◌then◌else◌,
  ◌==◌, ltb, Exec, returns, panics, ◌>>=◌, ◌>>◌, kassert, Ret, done, fails,
}
use weenix.Mm.State.{Pframe, Mmobj, Event, slab_obj_free, Mem, log, set_pf, set_obj, Mmops}
use weenix.Mm.Pframe.{is_pinned, set_dirty, pframe_pin, pframe_unpin, pframe_free, Got, pframe_get}

-- The fields that `mmobj_init` and anon_create set.
abbrev pub anon_init : Mmobj
anon_init = record { refcount = 1; nrespages = 0; respages = []; shadowed = none; bottom = none }

abbrev pub anon_created : Mem → Option ℕ → Option ℕ × Mem
anon_created s none = (none, s)
anon_created s (some o) = (some o, set_obj s o anon_init)

-- `o` is what `slab_obj_alloc` gives.
abbrev pub anon_create : Mem → Option ℕ → Option ℕ × Mem
anon_create s o = anon_created s o

abbrev pub set_refcount : Mem → ℕ → ℕ → Mem
set_refcount s o k = set_obj s o (record (s.mmobj o) { refcount = k })

pub anon_ref : Mem → ℕ → Exec Mem
anon_ref s o = do
  kassert (ltb 0 (s.mmobj o).refcount)
  returns (set_refcount s o ((s.mmobj o).refcount + 1))

pub anon_fillpage : Mem → ℕ → ℕ → Exec (Ret ℕ × Mem)
anon_fillpage s o p = do
  kassert (s.pframe p).busy
  kassert (not (is_pinned (s.pframe p)))
  t ← pframe_pin s p
  returns (done 0, set_pf t p (record (t.pframe p) { bytes = λ i. 0 }))

abbrev pub anon_dirtypage : Mem → ℕ → ℕ → Exec (Ret ℕ × Mem)
anon_dirtypage s o p = returns (done 0, set_dirty s p true)

abbrev pub anon_cleanpage : Mem → ℕ → ℕ → Exec (Ret ℕ × Mem)
anon_cleanpage s o p = returns (done 0, s)

-- The loop of anon_put and of shadow_put over the pages of an object.
pub free_pages : Mmops → Mem → List ℕ → Exec Mem
free_pages ops s [] = returns s
free_pages ops s (p ∷ ps) = do
  t ← (if is_pinned (s.pframe p) then pframe_unpin s p else returns s)
  u ← pframe_free ops t p
  free_pages ops u ps

-- `hash_page` and the allocators.
module _ (hash_page : ℕ → ℕ → ℕ) (slab : Mem → Option ℕ) (page : Mem → Option (ℕ → ℕ)) where
  -- `anon_mmobj_ops`, with `anon_put` as it is.
  abbrev pub anon_ops_with : (Mem → ℕ → Exec Mem) → Mmops
  anon_ops_with put = record {
    hash_page = hash_page;
    slab_obj_alloc = slab;
    page_alloc = page;
    ref = anon_ref;
    put = put;
    fillpage = anon_fillpage;
    dirtypage = anon_dirtypage;
    cleanpage = anon_cleanpage;
  }

  -- `pframe_free` calls `anon_put` again. The fuel is how deep these calls may nest.
  pub anon_put : ℕ → Mem → ℕ → Exec Mem
  anon_put zero s o = panics
  anon_put (suc depth) s o = do
    kassert (ltb 0 (s.mmobj o).refcount)
    let last = (s.mmobj o).refcount == (s.mmobj o).nrespages + 1
    t ←
        (if last
          then free_pages (anon_ops_with (anon_put depth)) s (s.mmobj o).respages
          else returns s)
    returns
        (set_refcount (if last then log t (slab_obj_free o) else t) o ((t.mmobj o).refcount - 1))

  abbrev pub anon_ops : ℕ → Mmops
  anon_ops depth = anon_ops_with (anon_put depth)

  pub anon_lookuppage : ℕ → Mem → ℕ → ℕ → Exec (Got × Mem)
  anon_lookuppage depth s o pagenum = pframe_get (anon_ops depth) s o pagenum
