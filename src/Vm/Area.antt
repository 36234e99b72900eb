-- ===== src/Vm/Area.antt =====
-- `vmarea_t` as kernel/vm/vmmap.c uses it, and what a list of areas means: which page of which
-- object stands behind each virtual page.
use weenix.Prelude.{
  ℕ, ◌+◌, ◌-◌, ◌^◌, ◌≤◌, ◌<◌, ◌≡◌, Bool, Option, none, some, List, [], ◌∷◌, ◌&&◌, ltb, leb,
  if◌then◌else◌,
}

-- The user part of the address space in pages: ADDR_TO_PN of USER_MEM_LOW and USER_MEM_HIGH.
pub record Layout : Type 0 where
  pub low : ℕ
  pub high : ℕ

-- The bits of PROT_READ, PROT_WRITE and PROT_EXEC.
pub record Prot : Type 0 where
  pub read : Bool
  pub write : Bool
  pub exec : Bool

-- The bits of MAP_SHARED, MAP_PRIVATE, MAP_FIXED and MAP_ANON.
pub record MapFlags : Type 0 where
  pub shared : Bool
  pub private : Bool
  pub fixed : Bool
  pub anon : Bool

-- `obj` is `none` for a NULL `vma_obj`, `linked` says that `vma_vmmap` is not NULL, and `olinked`
-- that `vma_olink` stands on the list of areas of a memory object.
pub record Vmarea : Type 0 where
  pub start : ℕ
  pub end : ℕ
  pub off : ℕ
  pub prot : Prot
  pub flags : MapFlags
  pub obj : Option ℕ
  pub linked : Bool
  pub olinked : Bool

abbrev pub covers : Vmarea → ℕ → Bool
covers v vfn = leb v.start vfn && ltb vfn v.end

-- VMMAP_DIR_LOHI and VMMAP_DIR_HILO.
pub data Dir : Type 0 where
  lohi hilo : Dir

-- What stands behind a virtual page.
pub record Page : Type 0 where
  pub obj : Option ℕ
  pub pagenum : ℕ
  pub prot : Prot
  pub flags : MapFlags

abbrev pub page_of : Vmarea → ℕ → Page
page_of v vfn = record {
  obj = v.obj;
  pagenum = vfn - v.start + v.off;
  prot = v.prot;
  flags = v.flags;
}

-- The address space as a partial function on virtual pages: the abstract view of `vmm_list`.
abbrev pub view : List Vmarea → ℕ → Option Page
view [] vfn = none
view (v ∷ vs) vfn = if covers v vfn then some (page_of v vfn) else view vs vfn

-- From page `b` to `top` the areas ascend without overlap, none is empty, and no offset wraps.
abbrev pub IsOrdered : ℕ → ℕ → List Vmarea → Type 0
IsOrdered top b [] = b ≤ top
IsOrdered top b (v ∷ vs) =
    (b ≤ v.start)
    × (v.start < v.end)
    × (v.off + (v.end - v.start) < 2 ^ 32)
    × IsOrdered top v.end vs

-- The invariant of an address space.
pub record IsValid (ly : Layout) (vs : List Vmarea) : Type 0 where
  pub ordered : IsOrdered ly.high ly.low vs
  pub word : ly.high < 2 ^ 31

-- Every area has an object.
abbrev pub Backed : List Vmarea → Type 0
Backed [] = Unit {0}
Backed (v ∷ vs) = ((o : ℕ) × (v.obj ≡ some o)) × Backed vs
