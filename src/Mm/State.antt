-- ===== src/Mm/State.antt =====
-- The page frames and the memory objects, and the lists of kernel/mm/pframe.c that hold them. A frame
-- and an object are numbers; the headers that declare them are not part of the repository.
use weenix.Prelude.{
  ℕ, Bool, true, false, Option, none, some, List, ◌∷◌, if◌then◌else◌, ◌==◌, Exec, Ret,
}
use weenix.Proc.Fifo.{remove_elem}

-- `pframe_t`. `obj` is `none` for a NULL `pf_obj`, `busy` and `dirty` are the bits of `pf_flags`, and
-- `bytes` is the page at `pf_addr`.
pub record Pframe : Type 0 where
  pub obj : Option ℕ
  pub pagenum : ℕ
  pub busy : Bool
  pub dirty : Bool
  pub pincount : ℕ
  pub bytes : ℕ → ℕ

-- `mmobj_t`, with `mmo_respages`.
pub record Mmobj : Type 0 where
  pub refcount : ℕ
  pub nrespages : ℕ
  pub respages : List ℕ
  pub shadowed : Option ℕ
  pub bottom : Option ℕ

-- What is done to the rest of the machine, the last one first.
pub data Event : Type 0 where
  tlb_flush remove_from_pts page_free slab_obj_free broadcast : ℕ → Event

-- `pframe_hash`, `pinned_list` and `npinned`, `alloc_list` and `nallocated`; the head of a list is the
-- head of the C list.
pub record Mem : Type 0 where
  pub pframe : ℕ → Pframe
  pub mmobj : ℕ → Mmobj
  pub hash : ℕ → List ℕ
  pub pinned_list : List ℕ
  pub npinned : ℕ
  pub alloc_list : List ℕ
  pub nallocated : ℕ
  pub events : List Event

abbrev pub log : Mem → Event → Mem
log s e = record s { events = e ∷ s.events }

abbrev pub set_pf : Mem → ℕ → Pframe → Mem
set_pf s p f = record s { pframe = λ i. if p == i then f else s.pframe i }

abbrev pub set_obj : Mem → ℕ → Mmobj → Mem
set_obj s o x = record s { mmobj = λ i. if o == i then x else s.mmobj i }

abbrev pub set_chain : Mem → ℕ → List ℕ → Mem
set_chain s c ps = record s { hash = λ i. if c == i then ps else s.hash i }

-- `list_remove` of `pf_link`, which is on one of the two lists.
abbrev pub unlink : Mem → ℕ → Mem
unlink s p = record s {
  alloc_list = remove_elem p s.alloc_list;
  pinned_list = remove_elem p s.pinned_list;
}

abbrev pub is_some : Option ℕ → Bool
is_some none = false
is_some (some o) = true

abbrev pub is_obj : Option ℕ → ℕ → Bool
is_obj none o = false
is_obj (some x) o = x == o

-- The operations of memory objects, which pframe.c calls through pointers, the macro
-- `hash_page`, and the allocators: the frame that `slab_obj_alloc` gives, and the bytes of the page that
-- `page_alloc` gives, `none` for NULL.
pub record Mmops : Type 0 where
  pub hash_page : ℕ → ℕ → ℕ
  pub slab_obj_alloc : Mem → Option ℕ
  pub page_alloc : Mem → Option (ℕ → ℕ)
  pub ref : Mem → ℕ → Exec Mem
  pub put : Mem → ℕ → Exec Mem
  pub fillpage : Mem → ℕ → ℕ → Exec (Ret ℕ × Mem)
  pub dirtypage : Mem → ℕ → ℕ → Exec (Ret ℕ × Mem)
  pub cleanpage : Mem → ℕ → ℕ → Exec (Ret ℕ × Mem)
