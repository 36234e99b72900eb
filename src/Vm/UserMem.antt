-- ===== src/Vm/UserMem.antt =====
-- vmmap_read and vmmap_write of kernel/vm/vmmap.c, and the copies of kernel/api/access.c: bytes of
-- user memory. A buffer of the kernel is a function from offsets to bytes.
pub mod Bytes
pub mod Read
pub mod Write
pub mod Copy
pub mod Anon
use weenix.Prelude.{
  ℕ, zero, suc, ◌+◌, ◌-◌, Bool, true, false, ◌&&◌, not, Option, none, some, List, if◌then◌else◌,
  ltb, leb, min, add32, sub32, Exec, returns, panics, ◌>>=◌, deref, Ret, done, fails, efault,
}
use weenix.Mm.State.{Mem, set_pf, Mmops}
use weenix.Mm.Pframe.{pframe_dirty}
use weenix.Vm.Area.{Vmarea, Prot}
use weenix.Vm.Vmmap.{vmmap_lookup}
use weenix.Vm.Paging.{Paging}
use weenix.Vm.Access.{range_perm}

abbrev pub Buffer : Type 0
Buffer = ℕ → ℕ

abbrev pub prot_read : Prot
prot_read = record { read = true; write = false; exec = false }

abbrev pub prot_write : Prot
prot_write = record { read = false; write = true; exec = false }

-- `memcpy(dst + d, src + s, n)`.
abbrev pub memcpy : Buffer → ℕ → Buffer → ℕ → ℕ → Buffer
memcpy dst d src s n = λ i. if leb d i && ltb i (d + n) then src (s + (i - d)) else dst i

-- `pf` is never set if the lookup fails.
abbrev pub frame_of : Ret ℕ → Exec ℕ
frame_of (done p) = returns p
frame_of (fails e) = panics

-- `lookuppage` is the operation of the memory objects, called through a pointer.
module _ (pg : Paging) (ops : Mmops) (lookuppage : Mem → ℕ → ℕ → Bool → Exec (Ret ℕ × Mem)) where
  -- The page frame behind the address `cur`, and the memory after the lookup. The results of the two
  -- lookups are used as they are.
  pub user_frame : Mem → List Vmarea → ℕ → Bool → Exec (ℕ × Mem)
  user_frame s areas cur forwrite = do
    vma ← deref (vmmap_lookup areas (pg.addr_to_pn cur))
    o ← deref vma.obj
    (r, t) ← lookuppage s o (add32 (sub32 (pg.addr_to_pn cur) vma.start) vma.off) forwrite
    p ← frame_of r
    returns (p, t)

  -- `MIN(count - copied, PAGE_SIZE - PAGE_OFFSET(cur))`.
  pub chunk : ℕ → ℕ → ℕ → ℕ
  chunk count copied cur = min (sub32 count copied) (pg.page_size - pg.page_offset cur)

  -- The loop of vmmap_read. The fuel is the number of rounds.
  pub read_loop : ℕ → Mem → List Vmarea → ℕ → ℕ → ℕ → ℕ → Buffer → Exec (Ret ℕ × Buffer × Mem)
  read_loop zero s areas end count cur copied buf = panics
  read_loop (suc fuel) s areas end count cur copied buf =
      let round = (do
        (p, t) ← user_frame s areas cur false
        let n = chunk count copied cur
        read_loop fuel t areas end count (add32 cur n) (add32 copied n)
            (memcpy buf copied (t.pframe p).bytes (pg.page_offset cur) n)) in
      if ltb cur end then round else returns (done 0, buf, s)

  pub vmmap_read : Mem → List Vmarea → ℕ → Buffer → ℕ → Exec (Ret ℕ × Buffer × Mem)
  vmmap_read s areas vaddr buf count =
      read_loop (count + 1) s areas (add32 vaddr count) count vaddr 0 buf

  -- `n` bytes of `buf` go to the page of the frame `p`, which becomes dirty. The result of
  -- pframe_dirty is not used.
  pub write_frame : Mem → ℕ → ℕ → Buffer → ℕ → ℕ → Exec Mem
  write_frame t p at buf copied n = do
    (r, u) ←
        pframe_dirty ops
          (set_pf t p (record (t.pframe p) { bytes = memcpy (t.pframe p).bytes at buf copied n })) p
    returns u

  pub write_loop : ℕ → Mem → List Vmarea → ℕ → ℕ → ℕ → ℕ → Buffer → Exec (Ret ℕ × Mem)
  write_loop zero s areas end count cur copied buf = panics
  write_loop (suc fuel) s areas end count cur copied buf =
      let round = (do
        (p, t) ← user_frame s areas cur true
        let n = chunk count copied cur
        u ← write_frame t p (pg.page_offset cur) buf copied n
        write_loop fuel u areas end count (add32 cur n) (add32 copied n) buf) in
      if ltb cur end then round else returns (done 0, s)

  pub vmmap_write : Mem → List Vmarea → ℕ → Buffer → ℕ → Exec (Ret ℕ × Mem)
  vmmap_write s areas vaddr buf count =
      write_loop (count + 1) s areas (add32 vaddr count) count vaddr 0 buf

  pub copy_from_user : Mem → List Vmarea → Buffer → ℕ → ℕ → Exec (Ret ℕ × Buffer × Mem)
  copy_from_user s areas kaddr uaddr nbytes =
      if not (range_perm pg areas uaddr nbytes prot_read)
      then returns (fails efault, kaddr, s)
      else vmmap_read s areas uaddr kaddr nbytes

  pub copy_to_user : Mem → List Vmarea → ℕ → Buffer → ℕ → Exec (Ret ℕ × Mem)
  copy_to_user s areas uaddr kaddr nbytes =
      if not (range_perm pg areas uaddr nbytes prot_write)
      then returns (fails efault, s)
      else vmmap_write s areas uaddr kaddr nbytes
