-- ===== src/Vm/Mmap/Laws.antt =====
-- mmap(2) and munmap(2) against the pages of the address space.
use weenix.Prelude.{
  ℕ, ◌+◌, ◌*◌, ◌%◌, ◌^◌, ◌≤◌, ◌<◌, ◌≡◌, ◌≢◌, refl, true, false, Option, none, some, List, [], ◌∷◌,
  ◌++◌, ◌-◌, ◌||◌, not, ◌⊎◌, arith, leb, ltb, if◌then◌else◌, ◌&&◌, Bool-cases, inl, inr, returns,
  add32, ◌==◌, ◌∙◌, done,
}
use native.Mathlib.Nat.{div-add-mod, mod-lt}
use native.Mathlib.Decide.{dec_lt}
use weenix.Vm.Area.{Vmarea, Page, hilo, view, IsValid, Backed}
use weenix.Vm.Vmmap.{Effect, file_get, tlb_flush_all}
use weenix.Vm.Vmmap.Unmap.{vmmap_remove-view}
use weenix.Vm.Paging.{Paging, IsPaging, layout}
use weenix.Vm.Map.{Objects, MapArgs, vmmap_map, map_args_ok, new_area, area_object, base_object}
use weenix.Vm.Map.Laws.{vmmap_map_fixed}
use weenix.Vm.Mmap.{
  OpenFile, MmapArgs, MmapOutcome, FileTasks, validate_munmap_args, page_count, munmap_pages,
  munmap_checked, do_munmap, do_mmap, file_tasks_found, fd_file, handle_file_related_tasks,
  mmap_result, map_args, put_file,
}

module _ (pg : Paging) (laws : IsPaging pg) where
  page_count-lt : (len : ℕ) → page_count pg len * pg.page_size < len + pg.page_size
  page_count-lt len =
      let sum = div-add-mod len pg.page_size in
      let small = mod-lt len laws.size_pos in
      elim (Bool-cases (len % pg.page_size == 0)) [
        | inl e ↦ rw e (ground (arith, sum, laws.size_pos))
        | inr e ↦ rw e (ground (arith, sum, small))
      ]

  mul_lt : (a b c : ℕ) → a < b → a * c + c ≤ b * c
  mul_lt a b c h = grind arith

  -- The pages of `len` bytes that end inside the user part do so too.
  page_count_fits :
      (addr len : ℕ)
      → pg.page_aligned addr ≡ true
      → addr + len ≤ pg.user_mem_high
      → pg.addr_to_pn addr + page_count pg len ≤ (layout pg).high
  page_count_fits addr len al h =
      elim (dec_lt (layout pg).high (pg.addr_to_pn addr + page_count pg len)) [
        | no p ↦ omega arith
        | yes p ↦ absurd (
            omega (
              arith,
              mul_lt (layout pg).high (pg.addr_to_pn addr + page_count pg len) pg.page_size p,
              page_count-lt len,
              laws.aligned addr al,
              laws.aligned pg.user_mem_high laws.high_aligned,
              laws.size_pos,
            ))
      ]

  -- `do_munmap` of an aligned range inside the user part succeeds: the pages that the range takes,
  -- its last one counted whole, are unmapped, every other page is as before, and the address space
  -- stays valid with its objects. (Given a valid address space whose areas have objects, and the
  -- laws of the page macros.)
  pub do_munmap-view :
      (areas : List Vmarea) (addr len : ℕ)
      → IsValid (layout pg) areas
      → Backed areas
      → pg.page_aligned addr ≡ true
      → pg.user_mem_low ≤ addr
      → addr + len ≤ pg.user_mem_high
      → (o : MmapOutcome) × (do_munmap pg areas addr len ≡ returns o)
        × (o.result ≡ done 0)
        × IsValid (layout pg) o.areas
        × Backed o.areas
        × ((n : ℕ)
            → view o.areas n ≡ (
                if leb (pg.addr_to_pn addr) n && ltb n (pg.addr_to_pn addr + page_count pg len)
                then none
                else view areas n))
  do_munmap-view areas addr len ok back al low high =
      let e : add32 addr len ≡ addr + len = omega (arith, laws.high_word) in
      let checks : validate_munmap_args pg addr len ≡ none =
        unfold validate_munmap_args in rw (al, e) (ground arith) in
      let (areas', calls, rem, ok', back', same) =
        vmmap_remove-view (layout pg) areas (pg.addr_to_pn addr) (page_count pg len) back ok
          (laws.pn_mono pg.user_mem_low addr low) (page_count_fits addr len al high) in
      (
        record { result = done 0; areas = areas'; calls = calls ++ tlb_flush_all ∷ [] },
        unfold do_munmap munmap_checked munmap_pages in rw (checks, rem),
        refl,
        ok',
        back',
        same,
      )

module _ (pg : Paging) (objs : Objects) (fget : ℕ → Option OpenFile) (laws : IsPaging pg) where
  -- The file that a call maps, if any: with MAP_ANON none, and otherwise that of its descriptor, which
  -- is open, and for writing if the mapping is shared and writable.
  abbrev pub Maps : MmapArgs → Option OpenFile → Type 0
  Maps a file =
      ((a.flags.anon ≡ true) × (file ≡ none))
      ⊎ ((a.flags.anon ≡ false)
          × ((fd : ℕ) × (f : OpenFile) × (a.fd ≡ some fd)
              × (fget fd ≡ some f)
              × (file ≡ some f)
              × ((f.writable ≡ true) ⊎ (a.prot.write ≡ false) ⊎ (a.flags.private ≡ true))))

  abbrev vnode_of : Option OpenFile → Option ℕ
  vnode_of none = none
  vnode_of (some f) = some f.vnode

  -- What the call asks of vmmap_map.
  abbrev pub requested : MmapArgs → Option OpenFile → MapArgs
  requested a file = record {
    file = vnode_of file;
    lopage = pg.addr_to_pn a.addr;
    npages = page_count pg a.len;
    prot = a.prot;
    flags = a.flags;
    off = a.off;
    dir = hilo;
  }

  -- A call of mmap(2) without an error, at an address of the caller's choice: the address and the offset
  -- are aligned, the length is not 0, the range is in user memory, the flags have MAP_SHARED or
  -- MAP_PRIVATE, and no sum overflows.
  pub record IsFixedCall (a : MmapArgs) (file : Option OpenFile) : Type 0 where
    pub page : pg.addr_to_pn a.addr ≢ 0
    pub address : a.addr ≢ 0
    pub aligned : pg.page_aligned a.addr ≡ true
    pub offset_aligned : pg.page_aligned a.off ≡ true
    pub some_page : 0 < page_count pg a.len
    pub above : (layout pg).low ≤ pg.addr_to_pn a.addr
    pub below : pg.addr_to_pn a.addr + page_count pg a.len ≤ (layout pg).high
    pub kind : (a.flags.shared || a.flags.private) ≡ true
    pub range : pg.addr_to_pn a.addr + page_count pg a.len < 2 ^ 32
    pub offset : pg.addr_to_pn a.off + page_count pg a.len < 2 ^ 32
    pub maps : Maps a file

  -- The object of the mapping: a new shadow object if it is private, and otherwise that of the file, or
  -- a new anonymous object.
  abbrev pub source : MmapArgs → Option OpenFile → ℕ
  source a none = if a.flags.private then objs.shadow else objs.anon
  source a (some f) = if a.flags.private then objs.shadow else objs.mmap f.vnode

  -- Page `n` of the mapping.
  abbrev pub page_at : MmapArgs → Option OpenFile → ℕ → Page
  page_at a file n = record {
    obj = some (source a file);
    pagenum = n - pg.addr_to_pn a.addr + pg.addr_to_pn a.off;
    prot = a.prot;
    flags = a.flags;
  }

  abbrev pub get_file : Option OpenFile → List Effect
  get_file none = []
  get_file (some f) = file_get f.file ∷ []

  source_lem :
      (a : MmapArgs) (file : Option OpenFile)
      → area_object pg objs a.flags (base_object pg objs (vnode_of file)) ≡ source a file
  unfolding area_object base_object
  source_lem a none = refl
  source_lem a (some f) = refl

  -- The file tasks of such a call.
  abbrev opened : Option OpenFile → FileTasks
  opened file = record { err = none; file = file; calls = get_file file }

  tasks_lem :
      (a : MmapArgs) (file : Option OpenFile)
      → Maps a file
      → handle_file_related_tasks pg objs fget a ≡ opened file
  unfolding handle_file_related_tasks file_tasks_found fd_file
  tasks_lem a file (inl (e, n)) = rw (e, n) refl
  tasks_lem a file (inr (e, (fd, f, d, o, n, ok))) =
      let allowed : (not f.writable && a.prot.write && not a.flags.private) ≡ false =
        ground arith in
      rw (e, d, o, n, allowed) refl

  npages_lem :
      (a : MmapArgs) (t : FileTasks) → (map_args pg objs fget a t).npages ≡ page_count pg a.len
  npages_lem a t = elim (Bool-cases (a.len % pg.page_size == 0)) [
    | inl e ↦ rw e (omega arith)
    | inr e ↦ rw e refl
  ]

  args_lem :
      (a : MmapArgs) (file : Option OpenFile)
      → a.addr ≢ 0
      → map_args pg objs fget a (opened file) ≡ requested a file
  args_lem a none z =
      let e : (a.addr == 0) ≡ false = ground arith in rw (e, npages_lem a (opened none)) refl
  args_lem a (some f) z =
      let e : (a.addr == 0) ≡ false = ground arith in rw (e, npages_lem a (opened (some f))) refl

  checks_lem :
      (a : MmapArgs) (file : Option OpenFile)
      → IsFixedCall a file
      → map_args_ok pg objs (requested a file) ≡ true
  checks_lem a file c =
      let word : add32 (pg.addr_to_pn a.addr) (page_count pg a.len)
          ≡ pg.addr_to_pn a.addr + page_count pg a.len =
        omega (arith, c.range) in
      rw word (ground (arith, c.offset_aligned, c.some_page, c.above, c.below, c.kind))

  -- The call as it runs, once the file tasks and vmmap_map are known.
  runs_lem :
      (areas areas' : List Vmarea) (a : MmapArgs) (file : Option OpenFile) (calls : List Effect)
      (v : Vmarea)
      → handle_file_related_tasks pg objs fget a ≡ opened file
      → map_args pg objs fget a (opened file) ≡ requested a file
      → vmmap_map pg objs areas (requested a file)
        ≡ returns (record { result = done v; areas = areas'; calls = calls })
      → do_mmap pg objs fget areas a
        ≡ returns (record {
          result = done (pg.pn_to_addr v.start);
          areas = areas';
          calls = get_file file ++ (calls ++ (put_file pg objs fget file ++ tlb_flush_all ∷ []));
        })
  unfolding do_mmap mmap_result
  runs_lem areas areas' a file calls v t q e = rw (t, q, e) refl

  pub do_mmap-Mmaps :
      (areas : List Vmarea) (a : MmapArgs) (file : Option OpenFile)
      → IsValid (layout pg) areas
      → Backed areas
      → IsFixedCall a file
      → (o : MmapOutcome) × (do_mmap pg objs fget areas a ≡ returns o)
        × (o.result ≡ done (pg.pn_to_addr (pg.addr_to_pn a.addr)))
        × IsValid (layout pg) o.areas
        × ((mapping : List Effect) × (o.calls
              ≡ get_file file ++ (mapping ++ (put_file pg objs fget file ++ tlb_flush_all ∷ []))))
        × ((n : ℕ)
            → view o.areas n ≡ (
                if leb (pg.addr_to_pn a.addr) n
                  && ltb n (pg.addr_to_pn a.addr + page_count pg a.len)
                then some (page_at a file n)
                else view areas n))
  do_mmap-Mmaps areas a file ok back c =
      let args = requested a file in
      let (areas', calls, e, ok', _, same) =
        vmmap_map_fixed pg objs args laws c.some_page c.offset areas ok back c.page
          (checks_lem a file c) c.range in
      let v = record (new_area pg objs args (pg.addr_to_pn a.addr)) { linked = true } in
      (
        record {
          result = done (pg.pn_to_addr (pg.addr_to_pn a.addr));
          areas = areas';
          calls = get_file file ++ (calls ++ (put_file pg objs fget file ++ tlb_flush_all ∷ []));
        },
        unfold new_area in
            runs_lem areas areas' a file calls v (tasks_lem a file c.maps)
              (args_lem a file c.address) e,
        refl,
        ok',
        (calls, refl),
        λ n. same n ∙ rw (source_lem a file) refl,
      )
