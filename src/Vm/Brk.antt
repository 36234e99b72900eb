-- ===== src/Vm/Brk.antt =====
-- kernel/vm/brk.c
pub mod Laws
use weenix.Prelude.{
  ℕ, Bool, true, false, ◌||◌, Option, none, some, List, [], ◌∷◌, ltb, leb, ◌==◌, if◌then◌else◌,
  ◌&&◌, sub32, Exec, returns, panics, ◌>>=◌, ◌>>◌, deref, Ret, done, fails, enomem,
}
use weenix.Vm.Area.{Layout, Vmarea, covers}
use weenix.Vm.Vmmap.{Effect, vmmap_lookup, vmmap_is_range_empty, vmmap_remove}
use weenix.Vm.Paging.{Paging, layout}

-- The fields of `curproc` that brk(2) works on.
pub record Heap : Type 0 where
  pub areas : List Vmarea
  pub start_brk : ℕ
  pub brk : ℕ

-- What `do_brk` returns (the new break goes through `ret`), the process after it, and its effects.
pub record Outcome : Type 0 where
  pub result : Ret ℕ
  pub heap : Heap
  pub calls : List Effect

pub validate_brk_addr : Paging → Heap → ℕ → Bool
validate_brk_addr pg h addr =
    if ltb addr h.start_brk || ltb pg.user_mem_high addr then false else true

-- `vma->vma_end = e` through the pointer that `vmmap_lookup(vfn)` returned: its first match.
pub set_end : ℕ → ℕ → List Vmarea → List Vmarea
set_end vfn e [] = []
set_end vfn e (v ∷ vs) = if covers v vfn then record v { end = e } ∷ vs else v ∷ set_end vfn e vs

-- The break once the pages are right.
abbrev pub set_brk : Heap → ℕ → List Vmarea → List Effect → Outcome
set_brk h addr areas calls = record {
  result = done addr;
  heap = record h { areas = areas; brk = addr };
  calls = calls;
}

abbrev pub refuse : Heap → Outcome
refuse h = record { result = fails enomem; heap = h; calls = [] }

pub expand_brk : Paging → Heap → ℕ → ℕ → ℕ → ℕ → Exec Outcome
expand_brk pg h addr prev_end cur_end npages = do
  empty ← vmmap_is_range_empty (layout pg) h.areas prev_end npages
  returns (
      if empty
      then set_brk h addr (set_end (pg.addr_to_pn h.start_brk) cur_end h.areas) []
      else refuse h)

pub shrink_brk : Paging → Heap → ℕ → ℕ → ℕ → Exec Outcome
shrink_brk pg h addr cur_end npages = do
  (areas, calls) ← vmmap_remove (layout pg) h.areas cur_end npages
  returns (set_brk h addr areas calls)

-- `addr` is 0 for NULL. A NULL area is read from, which stops the kernel.
pub do_brk : Paging → Heap → ℕ → Exec Outcome
do_brk pg h addr =
    if addr == 0
    then returns (record { result = done h.brk; heap = h; calls = [] })
    else if validate_brk_addr pg h addr
    then (do
      vma ← deref (vmmap_lookup h.areas (pg.addr_to_pn h.start_brk))
      let cur_end = pg.addr_to_pn (pg.page_align_up addr)
      if ltb vma.end cur_end
          then expand_brk pg h addr vma.end cur_end (sub32 cur_end vma.end)
          else if ltb cur_end vma.end
          then shrink_brk pg h addr cur_end (sub32 vma.end cur_end)
          else returns (set_brk h addr h.areas []))
    else returns (refuse h)
