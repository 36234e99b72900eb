-- ===== src/Vm/Tests/Calls.antt =====
-- Runs of mmap(2), munmap(2), brk(2), of a page fault and of the permission checks.
use weenix.Prelude.{
  ℕ, ◌+◌, ◌≡◌, refl, ◌⊎◌, inr, ◌++◌, [], ◌∷◌, Bool, true, false, ◌&&◌, Option, none, some, List,
  arith, ltb, leb, if◌then◌else◌, returns, panics, Ret, done,
}
use weenix.Vm.Area.{MapFlags, Vmarea, hilo, view, IsValid, Backed}
use weenix.Vm.Paging.{layout}
use weenix.Vm.Vmmap.{Effect, file_get, file_put, tlb_flush_all, vmmap_lookup, lookup_from}
use weenix.Vm.Vmmap.Lookup.{Unmapped, Mapped}
use weenix.Vm.Vmmap.Range.{Best}
use weenix.Vm.Map.{Objects, MapArgs, vmmap_map}
use weenix.Vm.Map.Laws.{MapsAt, FoundAt, vmmap_map_fixed, vmmap_map_found}
use weenix.Vm.Mmap.{OpenFile, MmapArgs, MmapOutcome, page_count, do_munmap, do_mmap}
use weenix.Vm.Mmap.Laws.{IsFixedCall, page_at, do_munmap-view, do_mmap-Mmaps}
use weenix.Vm.Brk.{Heap, Outcome, set_brk, refuse, do_brk}
use weenix.Vm.Brk.Laws.{Grows, do_brk_grow, do_brk_shrink, do_brk_lost_heap}
use weenix.Vm.PageFault.{Cause, handle_pagefault, Handles, handle_pagefault-Handles}
use weenix.Vm.Tests.{
  pages, pages-IsPaging, read_write, private_anon, text, heap_area, above, process, process-IsValid,
  process-Backed,
}

abbrev objects : Objects
objects = record { anon = 10; shadow = 11; mmap = λ vn. vn + 20; bottom = λ o. o }

abbrev map_call : ℕ → MapArgs
map_call lopage = record {
  file = none;
  lopage = lopage;
  npages = 2;
  prot = read_write;
  flags = private_anon;
  off = 0;
  dir = hilo;
}

vmmap_map_fixed_example :
    MapsAt pages objects
      (map_call 1026)
      1026
      process
      (vmmap_map pages objects process (map_call 1026))
vmmap_map_fixed_example =
    vmmap_map_fixed pages objects (map_call 1026) pages-IsPaging (omega arith) (omega arith) process
      process-IsValid process-Backed (ground arith) refl (omega arith)

vmmap_map_found_example :
    (r : Option ℕ) × Best 1024 786432 2 process r
    × FoundAt pages objects (map_call 0) process (vmmap_map pages objects process (map_call 0)) r
vmmap_map_found_example =
    vmmap_map_found pages objects (map_call 0) pages-IsPaging (omega arith) (omega arith) text above
      process-IsValid process-Backed refl refl

do_munmap-view_example :
    (o : MmapOutcome) × (do_munmap pages process 4198400 5000 ≡ returns o)
    × (o.result ≡ done 0)
    × IsValid (layout pages) o.areas
    × Backed o.areas
    × ((n : ℕ)
        → view o.areas n
          ≡ (if leb 1025 n && ltb n (1025 + page_count pages 5000) then none else view process n))
do_munmap-view_example =
    do_munmap-view pages pages-IsPaging process 4198400 5000 process-IsValid process-Backed refl
      (omega arith) (omega arith)

-- No descriptor is open but 3, for reading.
abbrev read_file : OpenFile
read_file = record { file = 7; vnode = 1; writable = false }

abbrev fget : ℕ → Option OpenFile
fget fd = if ltb fd 4 then (if leb 3 fd then some read_file else none) else none

abbrev private_file : MapFlags
private_file = record { shared = false; private = true; fixed = true; anon = false }

abbrev mmap_call : MmapArgs
mmap_call = record {
  addr = 4194304;
  len = 100;
  prot = read_write;
  flags = private_file;
  fd = some 3;
  off = 0;
}

mmap_call-IsFixedCall : IsFixedCall pages objects fget pages-IsPaging mmap_call (some read_file)
mmap_call-IsFixedCall = record {
  page = ground arith;
  address = ground arith;
  aligned = refl;
  offset_aligned = refl;
  some_page = omega arith;
  above = omega arith;
  below = omega arith;
  kind = refl;
  range = omega arith;
  offset = omega arith;
  maps = inr (refl, (3, read_file, refl, refl, refl, inr (inr refl)));
}

do_mmap-Mmaps_example :
    (o : MmapOutcome) × (do_mmap pages objects fget process mmap_call ≡ returns o)
    × (o.result ≡ done 4194304)
    × IsValid (layout pages) o.areas
    × ((mapping : List Effect) × (o.calls
          ≡ file_get 7 ∷ (mapping ++ (file_put 7 ∷ tlb_flush_all ∷ []))))
    × ((n : ℕ)
        → view o.areas n ≡ (
            if leb 1024 n && ltb n (1024 + page_count pages 100)
            then some (page_at pages objects fget pages-IsPaging mmap_call (some read_file) n)
            else view process n))
do_mmap-Mmaps_example =
    do_mmap-Mmaps pages objects fget pages-IsPaging process mmap_call (some read_file)
      process-IsValid process-Backed mmap_call-IsFixedCall

heap_found : vmmap_lookup process 2000 ≡ some heap_area
heap_found = unfold vmmap_lookup lookup_from in refl

abbrev heap : Heap
heap = record { areas = process; start_brk = 8192000; brk = 8200000 }

do_brk_grow_example :
    (Unmapped process 2004 2010 × Grows pages heap 8230000 heap_area)
    ⊎ (Mapped process 2004 2010 × (do_brk pages heap 8230000 ≡ returns (refuse heap)))
do_brk_grow_example =
    do_brk_grow pages pages-IsPaging heap 8230000 heap_area process-IsValid (ground arith)
      (omega arith) (omega arith) heap_found (omega arith) (omega arith)

do_brk_shrink_example :
    (areas' : List Vmarea) × (calls : List Effect) × (do_brk pages heap 8196100
      ≡ returns (set_brk heap 8196100 areas' calls))
    × IsValid (layout pages) areas'
    × ((n : ℕ) → view areas' n ≡ (if leb 2002 n && ltb n 2004 then none else view process n))
do_brk_shrink_example =
    do_brk_shrink pages pages-IsPaging heap 8196100 heap_area process-IsValid (ground arith)
      (omega arith) (omega arith) heap_found (omega arith) process-Backed

do_brk_lost_heap_example :
    (o : Outcome) × (do_brk pages heap 8192000 ≡ returns o) × (do_brk pages o.heap 8200000 ≡ panics)
do_brk_lost_heap_example =
    do_brk_lost_heap pages pages-IsPaging heap 8192000 heap_area process-IsValid (ground arith)
      (omega arith) (omega arith) heap_found refl process-Backed 8200000 (ground arith)
      (omega arith) (omega arith)

-- Every object has its pages in frames.
abbrev lookup : ℕ → ℕ → Bool → Ret ℕ
lookup o pagenum forwrite = done (o + pagenum)

abbrev write_access : Cause
write_access = record { write = true; exec = false }

handle_pagefault_example :
    Handles pages lookup 2001 write_access
      (view process 2001)
      (handle_pagefault pages lookup process 8196500 write_access)
handle_pagefault_example =
    handle_pagefault-Handles pages lookup process 8196500 write_access process-IsValid
