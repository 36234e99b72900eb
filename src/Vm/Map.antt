-- ===== src/Vm/Map.antt =====
-- `vmmap_map` of kernel/vm/vmmap.c.
pub mod Laws
use weenix.Prelude.{
  ℕ, zero, suc, ◌+◌, ◌/◌, ◌%◌, Bool, true, false, ◌&&◌, ◌||◌, not, Option, none, some, List, [],
  ◌∷◌, ◌++◌, ltb, leb, ◌==◌, if◌then◌else◌, add32, Exec, returns, panics, ◌>>=◌, ◌>>◌, kassert,
  deref, Ret, done, fails, Errno, no_range, einval, ebadf, eacces,
}
use weenix.Vm.Area.{Layout, Vmarea, Prot, MapFlags, Dir, hilo}
use weenix.Vm.Vmmap.{
  Effect, obj_ref, anon_create, shadow_create, olink_insert, vn_mmap, set_shadowed, set_bottom,
  file_get, file_put, tlb_flush_all, vmmap_insert, vmmap_find_range, vmmap_is_range_empty,
  vmmap_remove,
}
use weenix.Vm.Paging.{Paging, layout}

-- The objects that one call gets: from `anon_create` and `shadow_create`, from a vnode's `mmap`,
-- and `mmobj_bottom_obj` of an object (mm/mmobj.h).
pub record Objects : Type 0 where
  pub anon : ℕ
  pub shadow : ℕ
  pub mmap : ℕ → ℕ
  pub bottom : ℕ → ℕ

-- The arguments of `vmmap_map`: `file` is a vnode or NULL, `off` counts bytes.
pub record MapArgs : Type 0 where
  pub file : Option ℕ
  pub lopage : ℕ
  pub npages : ℕ
  pub prot : Prot
  pub flags : MapFlags
  pub off : ℕ
  pub dir : Dir

-- The address space after a call, and the new area or an error.
pub record MapOutcome : Type 0 where
  pub result : Ret Vmarea
  pub areas : List Vmarea
  pub calls : List Effect

module _ (pg : Paging) (objs : Objects) where
  -- The object that the mapping starts from.
  unfoldable pub base_object : Option ℕ → ℕ
  base_object none = objs.anon
  base_object (some vn) = objs.mmap vn

  pub base_calls : Option ℕ → List Effect
  base_calls none = anon_create objs.anon ∷ olink_insert objs.anon ∷ []
  base_calls (some vn) = vn_mmap vn (objs.mmap vn) ∷ olink_insert (objs.mmap vn) ∷ []

  -- With MAP_PRIVATE a shadow object stands over it.
  unfoldable pub area_object : MapFlags → ℕ → ℕ
  area_object flags o = if flags.private then objs.shadow else o

  pub shadow_calls : MapFlags → ℕ → List Effect
  shadow_calls flags o =
      if flags.private
      then shadow_create objs.shadow
        ∷ set_shadowed objs.shadow o
        ∷ set_bottom objs.shadow (objs.bottom o)
        ∷ obj_ref (objs.bottom o)
        ∷ []
      else []

  -- The new area. Its object and its link to the object's list are set after `vmmap_insert`, which
  -- reads neither.
  unfoldable pub new_area : MapArgs → ℕ → Vmarea
  new_area a lopage = record {
    start = lopage;
    end = add32 lopage a.npages;
    off = pg.addr_to_pn a.off;
    prot = a.prot;
    flags = a.flags;
    obj = some (area_object a.flags (base_object a.file));
    linked = false;
    olinked = true;
  }

  -- The part of `vmmap_map` behind the choice of the range.
  pub map_at : MapArgs → ℕ → List Vmarea → List Effect → Exec MapOutcome
  map_at a lopage areas calls = do
    areas' ← vmmap_insert (layout pg) areas (new_area a lopage)
    returns (record {
      result = done (record (new_area a lopage) { linked = true });
      areas = areas';
      calls = calls ++ (base_calls a.file ++ shadow_calls a.flags (base_object a.file));
    })

  pub map_found : MapArgs → List Vmarea → Option ℕ → Exec MapOutcome
  map_found a areas none = returns (record { result = fails no_range; areas = areas; calls = [] })
  map_found a areas (some range) = map_at a range areas []

  pub map_fixed : MapArgs → List Vmarea → Exec MapOutcome
  map_fixed a areas = do
    empty ← vmmap_is_range_empty (layout pg) areas a.lopage a.npages
    if empty then map_at a a.lopage areas [] else (do
      (areas', calls) ← vmmap_remove (layout pg) areas a.lopage a.npages
      map_at a a.lopage areas' calls)

  abbrev pub map_args_ok : MapArgs → Bool
  map_args_ok a =
      ltb 0 a.npages
      && (a.flags.shared || a.flags.private)
      && (a.lopage == 0 || leb (layout pg).low a.lopage)
      && (a.lopage == 0 || leb (add32 a.lopage a.npages) (layout pg).high)
      && pg.page_aligned a.off

  pub vmmap_map : List Vmarea → MapArgs → Exec MapOutcome
  vmmap_map areas a = do
    kassert (map_args_ok a)
    if a.lopage == 0
        then (do range ← vmmap_find_range (layout pg) areas a.npages a.dir; map_found a areas range)
        else map_fixed a areas
