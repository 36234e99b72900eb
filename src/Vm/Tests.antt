-- ===== src/Vm/Tests.antt =====
-- Runs of the address space operations on a small process, with pages of 4096 bytes.
mod Calls
mod Memory
use mathlib.Core.Option
use weenix.Prelude.{
  ℕ, ◌+◌, ◌-◌, ◌*◌, ◌/◌, ◌%◌, ◌^◌, ◌≤◌, ◌<◌, ◌≡◌, refl, ◌⊎◌, inl, inr, Bool, true, false, ◌&&◌,
  Option, none, some, List, [], ◌∷◌, ◌++◌, arith, ltb, leb, ◌==◌, if◌then◌else◌, Exec, returns,
}
use weenix.Vm.Area.{
  Layout, Prot, MapFlags, Vmarea, Dir, hilo, Page, covers, page_of, view, IsOrdered, IsValid,
  Backed,
}
use weenix.Vm.Paging.{Paging, IsPaging, layout}
use weenix.Vm.Vmmap.{
  Effect, obj_ref, tlb_flush_all, pt_unmap_range, vmmap_lookup, vmmap_insert, vmmap_find_range,
  vmmap_is_range_empty, vmmap_clone, vmmap_destroy, vmmap_remove,
}
use weenix.Vm.Vmmap.Lookup.{Unmapped, Mapped, vmmap_is_range_empty_lem, vmmap_lookup-view}
use weenix.Vm.Vmmap.Insert.{vmmap_insert_lem}
use weenix.Vm.Vmmap.Range.{Finds, vmmap_find_range_lem}
use weenix.Vm.Vmmap.Remove.{all_pieces, all_calls, vmmap_remove_pieces}
use weenix.Vm.Vmmap.Unmap.{vmmap_remove-view}
use weenix.Vm.Vmmap.Refcount.{uses, refs, puts, vmmap_remove_balance, vmmap_destroy_balance}
use weenix.Vm.Vmmap.Clone.{bare, vmmap_clone-view}

abbrev pub pages : Paging
pages = record {
  page_size = 4096;
  user_mem_low = 4194304;
  user_mem_high = 3221225472;
  addr_to_pn = λ a. a / 4096;
  pn_to_addr = λ n. n * 4096;
  page_align_up = λ a. (a + 4095) / 4096 * 4096;
  page_aligned = λ a. a % 4096 == 0;
  page_offset = λ a. a % 4096;
}

pub pages-IsPaging : IsPaging pages
pages-IsPaging = record {
  size_pos = omega arith;
  pn_le = λ a. omega arith;
  lt_pn = λ a. omega arith;
  pn_of_pn = λ n h. omega arith;
  aligned = λ a h. ground arith;
  pn_mono = λ a b h. omega arith;
  up_le = λ a b h. omega arith;
  pn_le_up = λ a. omega arith;
  up_aligned = λ a h. ground arith;
  offset_lem = λ a. omega arith;
  high_aligned = refl;
  high_word = omega arith;
  high_pages = omega arith;
}

abbrev pub read_write : Prot
read_write = record { read = true; write = true; exec = false }

abbrev pub private_anon : MapFlags
private_anon = record { shared = false; private = true; fixed = false; anon = true }

abbrev pub area : ℕ → ℕ → ℕ → Vmarea
area start end o = record {
  start = start;
  end = end;
  off = 0;
  prot = read_write;
  flags = private_anon;
  obj = some o;
  linked = true;
  olinked = true;
}

-- Text, heap and stack.
abbrev pub text : Vmarea
text = area 1024 1028 1

abbrev pub heap_area : Vmarea
heap_area = area 2000 2004 2

abbrev pub above : List Vmarea
above = heap_area ∷ area 786000 786432 3 ∷ []

abbrev pub process : List Vmarea
process = text ∷ above

pub process-IsValid : IsValid (layout pages) process
process-IsValid = record {
  ordered = (
    omega arith,
    omega arith,
    omega arith,
    (omega arith, omega arith, omega arith, (omega arith, omega arith, omega arith, omega arith)),
  );
  word = omega arith;
}

pub process-Backed : Backed process
process-Backed = ((1, refl), ((2, refl), ((3, refl), tt)))

vmmap_remove-view_example :
    (vs' : List Vmarea) × (calls : List Effect) × (vmmap_remove (layout pages) process 1025 2
      ≡ returns (vs', calls))
    × IsValid (layout pages) vs'
    × Backed vs'
    × ((n : ℕ) → view vs' n ≡ (if leb 1025 n && ltb n 1027 then none else view process n))
vmmap_remove-view_example =
    vmmap_remove-view (layout pages) process 1025 2 process-Backed process-IsValid (omega arith)
      (omega arith)

vmmap_remove_balance_example :
    (vs' : List Vmarea) × (calls : List Effect) × (vmmap_remove (layout pages) process 1025 2
      ≡ returns (vs', calls))
    × ((o : ℕ) → uses o vs' + puts o calls ≡ uses o process + refs o calls)
vmmap_remove_balance_example =
    vmmap_remove_balance (layout pages) process 1025 2 process-Backed process-IsValid (omega arith)
      (omega arith)

vmmap_find_range_example :
    Finds 1024 786432 16 process (vmmap_find_range (layout pages) process 16 hilo)
vmmap_find_range_example =
    vmmap_find_range_lem (layout pages) text above 16 hilo process-IsValid (omega arith)

abbrev fresh : Vmarea
fresh = record (area 1500 1510 4) { linked = false }
