-- ===== src/Vm/Vmmap.antt =====
-- kernel/vm/vmmap.c: the list `vmm_list` of areas of an address space, as the list that each
-- function leaves. Areas are in the order of the list; page numbers and offsets are `uint32_t`.
pub mod Lookup
pub mod Insert
pub mod Range
pub mod Remove
pub mod Unmap
pub mod Refcount
pub mod Clone
use weenix.Prelude.{
  ℕ, zero, suc, ◌+◌, ◌*◌, Bool, true, false, ◌&&◌, ◌||◌, not, Option, none, some, List, [], ◌∷◌,
  ◌++◌, reverse, length, ltb, leb, if◌then◌else◌, add32, sub32, is_none, Exec, returns, panics,
  ◌>>=◌, ◌>>◌, kassert, deref,
}
use weenix.Vm.Area.{Layout, Vmarea, Dir}

-- What a function does to other parts of the kernel, in order: the `ref` and `put` of memory
-- objects, their creation and fields, the object's list of areas, the allocators, the TLB, the page
-- table, and the references to open files.
pub data Effect : Type 0 where
  obj_ref obj_put anon_create shadow_create olink_insert file_get file_put : ℕ → Effect
  vn_mmap set_shadowed set_bottom : ℕ → ℕ → Effect
  olink_remove : Option ℕ → Effect
  vmarea_free vmmap_free tlb_flush_all : Effect
  pt_unmap_range : ℕ → ℕ → Effect

-- The scan of `vmmap_insert`: before the first area that starts at or above the new one's end.
pub insert_before : Vmarea → List Vmarea → List Vmarea
insert_before new [] = new ∷ []
insert_before new (v ∷ vs) = if leb new.end v.start then new ∷ v ∷ vs else v ∷ insert_before new vs

-- The KASSERTs of `vmmap_insert`.
abbrev pub insertable : Layout → Vmarea → Bool
insertable ly new =
    not new.linked && ltb new.start new.end && leb ly.low new.start && leb new.end ly.high

abbrev pub link : Vmarea → Vmarea
link new = record new { linked = true }

pub vmmap_insert : Layout → List Vmarea → Vmarea → Exec (List Vmarea)
vmmap_insert ly areas new = do kassert (insertable ly new); returns (insert_before (link new) areas)

-- The loop goes on after a match, and keeps the first.
unfoldable pub lookup_from : Option Vmarea → List Vmarea → ℕ → Option Vmarea
lookup_from recorded [] vfn = recorded
lookup_from recorded (v ∷ vs) vfn =
    lookup_from (if is_none recorded && leb v.start vfn && ltb vfn v.end then some v else recorded)
      vs vfn

unfoldable pub vmmap_lookup : List Vmarea → ℕ → Option Vmarea
vmmap_lookup areas vfn = lookup_from none areas vfn

pub empty_from : Bool → List Vmarea → ℕ → ℕ → Bool
empty_from found [] lo hi = found
empty_from found (v ∷ vs) lo hi =
    empty_from (if ltb v.start hi && ltb lo v.end then false else found) vs lo hi

pub vmmap_is_range_empty : Layout → List Vmarea → ℕ → ℕ → Exec Bool
vmmap_is_range_empty ly areas startvfn npages = do
  let endvfn = add32 startvfn npages
  kassert (ltb startvfn endvfn && leb ly.low startvfn && leb endvfn ly.high)
  returns (empty_from true areas startvfn endvfn)

-- `pre_start` and `result` of `vmmap_find_range`; `none` stands for `record == -1`.
pub record Scan : Type 0 where
  pub pre_start : ℕ
  pub result : Option ℕ

pub scan_area : ℕ → Scan → Vmarea → Scan
scan_area npages s v = record {
  pre_start = v.start;
  result =
      if is_none s.result && leb npages (sub32 s.pre_start v.end)
      then some (sub32 s.pre_start npages)
      else s.result;
}

pub scan_areas : ℕ → Scan → List Vmarea → Scan
scan_areas npages s [] = s
scan_areas npages s (v ∷ vs) = scan_areas npages (scan_area npages s v) vs

-- The gap below the first area. On an empty list `list_head` is no area at all.
pub scan_head : Layout → List Vmarea → ℕ → Exec (Option ℕ)
scan_head ly [] npages = panics
scan_head ly (v ∷ vs) npages =
    if leb npages (sub32 v.start ly.low)
    then returns (some (sub32 v.start npages))
    else returns none

-- After the loop.
pub range_result : Layout → List Vmarea → ℕ → Option ℕ → Exec (Option ℕ)
range_result ly areas npages (some r) = returns (some r)
range_result ly areas npages none = scan_head ly areas npages

-- `none` is the result -1. The code does not read `dir`.
pub vmmap_find_range : Layout → List Vmarea → ℕ → Dir → Exec (Option ℕ)
vmmap_find_range ly areas npages dir =
    let start : Scan = record { pre_start = ly.high; result = none } in
    range_result ly areas npages (scan_areas npages start (reverse areas)).result

-- One area of the copy that `vmmap_clone` makes.
abbrev pub clone_area : Vmarea → Vmarea
clone_area v = record v { obj = none; linked = true; olinked = false }

pub clone_from : List Vmarea → List Vmarea → List Vmarea
clone_from newmap [] = newmap
clone_from newmap (v ∷ vs) = clone_from (newmap ++ clone_area v ∷ []) vs

pub vmmap_clone : List Vmarea → List Vmarea
vmmap_clone areas = clone_from [] areas

abbrev pub put_calls : Option ℕ → List Effect
put_calls none = []
put_calls (some o) = obj_put o ∷ []

abbrev pub olink_calls : Vmarea → List Effect
olink_calls v = if v.olinked then olink_remove v.obj ∷ [] else []

-- The areas themselves are not freed.
pub destroy_areas : List Vmarea → List Effect
destroy_areas [] = []
destroy_areas (v ∷ vs) = put_calls v.obj ++ (olink_calls v ++ destroy_areas vs)

pub vmmap_destroy : List Vmarea → List Effect
vmmap_destroy areas = destroy_areas areas ++ vmmap_free ∷ []

-- Where the loop of `vmmap_remove` stands: the areas behind it, the current one, new ones between
-- it and the saved next one, and those still to visit.
pub record Cursor : Type 0 where
  pub seen : List Vmarea
  pub cur : Vmarea
  pub fresh : List Vmarea
  pub rest : List Vmarea

pub any_above : ℕ → List Vmarea → Bool
any_above n [] = false
any_above n (v ∷ vs) = leb n v.start || any_above n vs

-- Where `vmmap_insert` puts an area while the loop is under way.
pub link_rest : Cursor → Vmarea → List Vmarea → Cursor
link_rest c new [] = record c { fresh = new ∷ [] }
link_rest c new (v ∷ vs) =
    if leb new.end v.start
    then record c { fresh = new ∷ [] }
    else record c { rest = v ∷ insert_before new vs }

pub link_at : Cursor → Vmarea → Cursor
unfolding link_rest
link_at c new =
    if any_above new.end c.seen
    then record c { seen = insert_before new c.seen }
    else if leb new.end c.cur.start
    then record c { seen = c.seen ++ new ∷ [] }
    else link_rest c new c.rest

-- `vma_off + hi - vma_start`
abbrev pub moved_off : Vmarea → ℕ → ℕ
moved_off v hi = sub32 (add32 v.off hi) v.start

-- The upper part of an area that is split at `hi`.
abbrev pub upper_part : ℕ → Vmarea → Vmarea
upper_part hi v = record v { start = hi; off = moved_off v hi; linked = false; olinked = false }

-- Case 1: the range lies inside the area.
pub split_case : Layout → ℕ → ℕ → Cursor → Exec (Cursor × List Effect)
split_case ly lo hi c =
    if ltb c.cur.start lo && ltb hi c.cur.end
    then (do
      let new = upper_part hi c.cur
      kassert (insertable ly new)
      let c' = link_at c (link new)
      o ← deref new.obj
      returns (record c' { cur = record c.cur { end = lo } }, obj_ref o ∷ []))
    else returns (c, [])

-- Case 2: the range covers the end of the area.
pub tail_case : ℕ → ℕ → Vmarea → Vmarea
tail_case lo hi v =
    if ltb v.start lo && ltb lo v.end && leb v.end hi then record v { end = lo } else v

-- Case 3: the range covers the beginning of the area.
pub head_case : ℕ → ℕ → Vmarea → Vmarea
head_case lo hi v =
    if ltb hi v.end && ltb v.start hi && leb lo v.start
    then record v { off = moved_off v hi; start = hi }
    else v

-- Case 4: the range covers the area.
pub drop_case : ℕ → ℕ → Vmarea → Exec (List Vmarea × List Effect)
drop_case lo hi v =
    if leb lo v.start && leb v.end hi
    then (do o ← deref v.obj; returns ([], obj_put o ∷ (olink_calls v ++ vmarea_free ∷ [])))
    else returns (v ∷ [], [])

-- The loop, which visits at most `fuel` areas. Every area can be split once, and the piece that
-- is split off is not split again.
pub remove_loop : Layout → ℕ → ℕ → ℕ → List Vmarea → List Vmarea → Exec (List Vmarea × List Effect)
remove_loop ly lo hi zero seen rest = panics
remove_loop ly lo hi (suc fuel) seen [] = returns (seen, [])
remove_loop ly lo hi (suc fuel) seen (v ∷ rest) = do
  (c, refs) ← split_case ly lo hi (record { seen = seen; cur = v; fresh = []; rest = rest })
  (left, puts) ← drop_case lo hi (head_case lo hi (tail_case lo hi c.cur))
  (areas, calls) ← remove_loop ly lo hi fuel (c.seen ++ (left ++ c.fresh)) c.rest
  returns (areas, refs ++ (puts ++ calls))

pub vmmap_remove : Layout → List Vmarea → ℕ → ℕ → Exec (List Vmarea × List Effect)
vmmap_remove ly areas lopage npages = do
  let hi = add32 lopage npages
  (areas', calls) ← remove_loop ly lopage hi (2 * length areas + 1) [] areas
  returns (areas', calls ++ tlb_flush_all ∷ pt_unmap_range lopage hi ∷ [])
