-- ===== src/Vm/PageFault.antt =====
-- kernel/vm/pagefault.c: what a page fault of the current process comes to.
use weenix.Prelude.{
  ℕ, ◌^◌, ◌<◌, ◌≡◌, refl, ◌⊎◌, inl, inr, Bool, true, false, ◌||◌, ◌&&◌, not, Option, none, some,
  List, if◌then◌else◌, add32, sub32, arith, Option-cases, Exec, returns, panics, ◌>>=◌, deref, Ret,
  done, fails, Errno, efault,
}
use weenix.Vm.Area.{Vmarea, Prot, Page, view, page_of, IsOrdered, IsValid}
use weenix.Vm.Vmmap.{vmmap_lookup}
use weenix.Vm.Vmmap.Lookup.{vmmap_lookup-view, lookup-Found}
use weenix.Vm.Paging.{Paging, layout}

-- The bits FAULT_WRITE and FAULT_EXEC of `cause`.
pub record Cause : Type 0 where
  pub write : Bool
  pub exec : Bool

-- The process ends with EFAULT, or the page of the address is mapped to a page frame, with PD_WRITE
-- and PT_WRITE or without; `dirtied` says that the frame was pinned, dirtied and unpinned before.
pub data FaultResult : Type 0 where
  exits : Errno → FaultResult
  maps : ℕ → ℕ → Bool → Bool → FaultResult

unfoldable pub refused : Cause → Prot → Bool
refused cause prot =
    (cause.write && not prot.write)
    || (not (cause.write || cause.exec) && not prot.read)
    || (cause.exec && not prot.exec)

-- The access is one that the permissions of the page deny: a write without PROT_WRITE, a fetch without
-- PROT_EXEC, or a read, which is neither, without PROT_READ.
abbrev pub Denies : Cause → Prot → Type 0
Denies cause prot =
    ((cause.write ≡ true) × (prot.write ≡ false))
    ⊎ ((cause.exec ≡ true) × (prot.exec ≡ false))
    ⊎ ((cause.write ≡ false) × (cause.exec ≡ false) × (prot.read ≡ false))

-- Each kind of access that the cause names is permitted.
abbrev pub Permits : Cause → Prot → Type 0
Permits cause prot =
    ((cause.write ≡ false) ⊎ (prot.write ≡ true))
    × ((cause.exec ≡ false) ⊎ (prot.exec ≡ true))
    × ((cause.write ≡ true) ⊎ (cause.exec ≡ true) ⊎ (prot.read ≡ true))

permission_of :
    (w x pw px pr : Bool)
    → ((((w && not pw) || (not (w || x) && not pr) || (x && not px)) ≡ true)
        × (((w ≡ true) × (pw ≡ false))
            ⊎ ((x ≡ true) × (px ≡ false))
            ⊎ ((w ≡ false) × (x ≡ false) × (pr ≡ false))))
      ⊎ ((((w && not pw) || (not (w || x) && not pr) || (x && not px)) ≡ false)
          × (((w ≡ false) ⊎ (pw ≡ true))
              × ((x ≡ false) ⊎ (px ≡ true))
              × ((w ≡ true) ⊎ (x ≡ true) ⊎ (pr ≡ true))))
permission_of true x false px pr = inl (refl, inl (refl, refl))
permission_of true true true false pr = inl (refl, inr (inl (refl, refl)))
permission_of true true true true pr = inr (refl, (inr refl, inr refl, inl refl))
permission_of true false true px pr = inr (refl, (inr refl, inl refl, inl refl))
permission_of false true pw false pr = inl (refl, inr (inl (refl, refl)))
permission_of false true pw true pr = inr (refl, (inl refl, inr refl, inr (inl refl)))
permission_of false false pw px false = inl (refl, inr (inr (refl, refl, refl)))
permission_of false false pw px true = inr (refl, (inl refl, inl refl, inr (inr refl)))

permission :
    (cause : Cause) (prot : Prot)
    → ((refused cause prot ≡ true) × Denies cause prot)
      ⊎ ((refused cause prot ≡ false) × Permits cause prot)
unfolding refused
permission cause prot = permission_of cause.write cause.exec prot.write prot.exec prot.read

-- The page number that the handler computes is the one that the address space maps.
pub pagenum_lem :
    (top b n : ℕ) (v : Vmarea) (vs : List Vmarea)
    → IsOrdered top b vs
    → top < 2 ^ 31
    → vmmap_lookup vs n ≡ some v
    → add32 (sub32 n v.start) v.off ≡ (page_of v n).pagenum
pagenum_lem top b n v vs o w e =
    let f = lookup-Found top b n v vs o e in omega (arith, f.below, f.above, f.to, f.offset)

-- `lookup` is `pframe_lookup`, which calls into the memory object; its frame is a number.
module _ (pg : Paging) (lookup : ℕ → ℕ → Bool → Ret ℕ) where
  unfoldable pub map_frame : ℕ → Bool → Ret ℕ → FaultResult
  map_frame vfn write (fails e) = exits efault
  map_frame vfn write (done frame) = maps vfn frame write write

  unfoldable pub fault_in : ℕ → Cause → Vmarea → Exec FaultResult
  fault_in vfn cause vma = if refused cause vma.prot then returns (exits efault) else (do
    o ← deref vma.obj
    returns
        (map_frame vfn cause.write (lookup o (add32 (sub32 vfn vma.start) vma.off) cause.write)))

  unfoldable pub handle_pagefault : List Vmarea → ℕ → Cause → Exec FaultResult
  handle_pagefault areas vaddr cause = elim (vmmap_lookup areas (pg.addr_to_pn vaddr)) [
    | none ↦ returns (exits efault)
    | some vma ↦ fault_in (pg.addr_to_pn vaddr) cause vma
  ]

  -- What the lookup of the page comes to: with a frame it is mapped, to be written only after a write,
  -- and the frame is dirtied first; with an error the process ends.
  abbrev pub Looked : ℕ → Cause → Ret ℕ → Exec FaultResult → Type 0
  Looked n cause (fails e) out = out ≡ returns (exits efault)
  Looked n cause (done frame) out = out ≡ returns (maps n frame cause.write cause.write)

  -- A page that has no object is a NULL pointer.
  abbrev pub Resolves : ℕ → Cause → Option ℕ → ℕ → Exec FaultResult → Type 0
  Resolves n cause none pagenum out = out ≡ panics
  Resolves n cause (some o) pagenum out = Looked n cause (lookup o pagenum cause.write) out

  -- What a fault on page `n` comes to, where the address space has `page` there.
  abbrev pub Handles : ℕ → Cause → Option Page → Exec FaultResult → Type 0
  Handles n cause none out = out ≡ returns (exits efault)
  Handles n cause (some page) out =
      (Denies cause page.prot × (out ≡ returns (exits efault)))
      ⊎ (Permits cause page.prot × Resolves n cause page.obj page.pagenum out)

  looked_lem :
      (n : ℕ) (cause : Cause) (r : Ret ℕ) → Looked n cause r (returns (map_frame n cause.write r))
  unfolding map_frame
  looked_lem n cause (fails e) = refl
  looked_lem n cause (done frame) = refl

  resolved_lem :
      (n : ℕ) (cause : Cause) (obj : Option ℕ) (m pagenum : ℕ)
      → m ≡ pagenum
      → Resolves n cause obj pagenum
          (deref obj >>= λ o. returns (map_frame n cause.write (lookup o m cause.write)))
  resolved_lem n cause none m pagenum e = refl
  resolved_lem n cause (some o) m pagenum e =
      rw e (looked_lem n cause (lookup o pagenum cause.write))

  fault_in_lem :
      (n : ℕ) (cause : Cause) (v : Vmarea)
      → add32 (sub32 n v.start) v.off ≡ (page_of v n).pagenum
      → Handles n cause (some (page_of v n)) (fault_in n cause v)
  unfolding fault_in
  fault_in_lem n cause v e = elim (permission cause v.prot) [
    | inl (r, d) ↦ rw r (inl (d, refl))
    | inr (r, d) ↦ rw r (inr (d, resolved_lem n cause v.obj _ _ e))
  ]

  pub handle_pagefault-Handles :
      (areas : List Vmarea) (vaddr : ℕ) (cause : Cause)
      → IsValid (layout pg) areas
      → Handles
          (pg.addr_to_pn vaddr)
          cause
          (view areas (pg.addr_to_pn vaddr))
          (handle_pagefault areas vaddr cause)
  unfolding handle_pagefault
  handle_pagefault-Handles areas vaddr cause ok =
      let n = pg.addr_to_pn vaddr in
      rw (← vmmap_lookup-view areas n) (elim (Option-cases (vmmap_lookup areas n)) [
        | inl e ↦ rw (e, handle_pagefault) refl
        | inr (v, e) ↦
            rw (e, handle_pagefault)
              (fault_in_lem n cause v (pagenum_lem _ _ n v areas ok.ordered ok.word e))
      ])
