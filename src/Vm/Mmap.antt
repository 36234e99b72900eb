-- ===== src/Vm/Mmap.antt =====
-- kernel/vm/mmap.c: mmap(2) and munmap(2).
pub mod Laws
use weenix.Prelude.{
  ℕ, ◌+◌, ◌/◌, ◌%◌, Bool, true, false, ◌&&◌, ◌||◌, not, Option, none, some, List, [], ◌∷◌, ◌++◌,
  ltb, ◌==◌, if◌then◌else◌, add32, Exec, returns, panics, ◌>>=◌, Ret, done, fails, Errno, einval,
  ebadf, eacces,
}
use weenix.Vm.Area.{Vmarea, Prot, MapFlags, Dir, hilo}
use weenix.Vm.Vmmap.{Effect, file_get, file_put, tlb_flush_all, vmmap_remove}
use weenix.Vm.Paging.{Paging, layout}
use weenix.Vm.Map.{Objects, MapArgs, MapOutcome, vmmap_map}

-- What `do_mmap` reads of an open file: its vnode and the bit FMODE_WRITE of its mode.
pub record OpenFile : Type 0 where
  pub file : ℕ
  pub vnode : ℕ
  pub writable : Bool

-- The arguments of mmap(2); `addr` 0 is NULL, and `fd` is `none` for -1.
pub record MmapArgs : Type 0 where
  pub addr : ℕ
  pub len : ℕ
  pub prot : Prot
  pub flags : MapFlags
  pub fd : Option ℕ
  pub off : ℕ

-- The address that mmap(2) returns, or an error; the address space after it; its effects.
pub record MmapOutcome : Type 0 where
  pub result : Ret ℕ
  pub areas : List Vmarea
  pub calls : List Effect

-- What `handle_file_related_tasks` leaves in `err`, `file` and `vn`, with its effects.
pub record FileTasks : Type 0 where
  pub err : Option Errno
  pub file : Option OpenFile
  pub calls : List Effect

module _ (pg : Paging) where
  pub validate_mmap_args : MmapArgs → Option Errno
  validate_mmap_args a =
      if not (pg.page_aligned a.off)
      then some einval
      else if a.len == 0
      then some einval
      else if a.flags.fixed && a.addr == 0
      then some einval
      else if not (a.addr == 0) && not (pg.page_aligned a.addr)
      then some einval
      else if ltb pg.user_mem_high (add32 a.addr a.len)
      then some einval
      else if not a.flags.private && not a.flags.shared
      then some einval
      else none

  pub validate_munmap_args : ℕ → ℕ → Option Errno
  validate_munmap_args addr len =
      if not (pg.page_aligned addr)
      then some einval
      else if ltb pg.user_mem_high (add32 addr len)
      then some einval
      else if ltb (add32 addr len) pg.user_mem_low
      then some einval
      else none

  -- The number of pages that `len` bytes take.
  abbrev pub page_count : ℕ → ℕ
  page_count len = if len % pg.page_size == 0 then len / pg.page_size else len / pg.page_size + 1

  pub munmap_pages : List Vmarea → ℕ → ℕ → Exec MmapOutcome
  munmap_pages areas addr len = do
    (areas', calls) ← vmmap_remove (layout pg) areas (pg.addr_to_pn addr) (page_count len)
    returns (record { result = done 0; areas = areas'; calls = calls ++ tlb_flush_all ∷ [] })

  pub munmap_checked : List Vmarea → ℕ → ℕ → Option Errno → Exec MmapOutcome
  munmap_checked areas addr len none = munmap_pages areas addr len
  munmap_checked areas addr len (some e) =
      returns (record { result = fails e; areas = areas; calls = [] })

  pub do_munmap : List Vmarea → ℕ → ℕ → Exec MmapOutcome
  do_munmap areas addr len = munmap_checked areas addr len (validate_munmap_args addr len)

-- `fget` is the descriptor table of the process.
module _ (pg : Paging) (objs : Objects) (fget : ℕ → Option OpenFile) where
  unfoldable pub file_tasks_found : MmapArgs → Option OpenFile → FileTasks
  file_tasks_found a none = record { err = some ebadf; file = none; calls = [] }
  file_tasks_found a (some f) =
      if not f.writable && a.prot.write && not a.flags.private
      then record {
        err = some eacces;
        file = some f;
        calls = file_get f.file ∷ file_put f.file ∷ [];
      }
      else record { err = none; file = some f; calls = file_get f.file ∷ [] }

  unfoldable pub fd_file : Option ℕ → Option OpenFile
  fd_file none = none
  fd_file (some fd) = fget fd

  unfoldable pub handle_file_related_tasks : MmapArgs → FileTasks
  handle_file_related_tasks a =
      if a.flags.anon
      then record { err = none; file = none; calls = [] }
      else file_tasks_found a (fd_file a.fd)

  abbrev pub put_file : Option OpenFile → List Effect
  put_file none = []
  put_file (some f) = file_put f.file ∷ []

  abbrev pub put_all : FileTasks → MapOutcome → List Effect
  put_all t m = t.calls ++ (m.calls ++ (put_file t.file ++ tlb_flush_all ∷ []))

  -- After `vmmap_map`. If it failed for a file, the code goes on and reads the area that was not
  -- set.
  pub mmap_result : FileTasks → MapOutcome → Ret Vmarea → Exec MmapOutcome
  mmap_result t m (done new) =
      returns
        (record { result = done (pg.pn_to_addr new.start); areas = m.areas; calls = put_all t m })
  mmap_result t m (fails e) = elim t.file [
    | none ↦ returns (record { result = fails e; areas = m.areas; calls = t.calls ++ m.calls })
    | some f ↦ panics
  ]

  abbrev pub file_vnode : Option OpenFile → Option ℕ
  file_vnode none = none
  file_vnode (some f) = some f.vnode

  abbrev pub map_args : MmapArgs → FileTasks → MapArgs
  map_args a t = record {
    file = file_vnode t.file;
    lopage = if a.addr == 0 then 0 else pg.addr_to_pn a.addr;
    npages = a.len / pg.page_size + (if a.len % pg.page_size == 0 then 0 else 1);
    prot = a.prot;
    flags = a.flags;
    off = a.off;
    dir = hilo;
  }

  -- The code stores the result of both checks in `err` and does not read it.
  pub do_mmap : List Vmarea → MmapArgs → Exec MmapOutcome
  do_mmap areas a =
      let t = handle_file_related_tasks a in
      vmmap_map pg objs areas (map_args a t) >>= λ m. mmap_result t m m.result
