-- ===== src/Proc/Table.antt =====
-- kernel/proc/proc.c: the table of processes, the choice of a process id, and the creation of a
-- process as far as the table and the links between processes go.
pub mod Getid
pub mod Create
pub mod Wait
use weenix.Prelude.{
  ℕ, zero, suc, ◌+◌, ◌%◌, Bool, true, false, ◌||◌, not, Option, none, some, List, [], ◌∷◌, ◌++◌,
  if◌then◌else◌, ◌==◌, is_none, Exec, returns, panics, ◌>>=◌, ◌>>◌, kassert,
}
use weenix.Proc.Sched.{update, list_empty}

-- The fields of `proc_t` that the table uses. `pid` is `none` for -1, and processes are named by
-- their addresses.
pub record Process : Type 0 where
  pub pid : Option ℕ
  pub parent : Option ℕ
  pub children : List ℕ
  pub status : ℕ
  pub dead : Bool

-- `_proc_list`, `next_pid`, `curproc` and `proc_initproc`; `proc_max_count` is PROC_MAX_COUNT.
pub record Table : Type 0 where
  pub plist : List ℕ
  pub proc : ℕ → Process
  pub next_pid : ℕ
  pub curproc : Option ℕ
  pub initproc : Option ℕ
  pub proc_max_count : ℕ

-- `p_pid == pid`, where either may be -1.
abbrev pub same_pid : Option ℕ → Option ℕ → Bool
same_pid none none = true
same_pid none (some n) = false
same_pid (some p) none = false
same_pid (some p) (some n) = p == n

abbrev pub is_pid : Option ℕ → ℕ → Bool
is_pid p n = same_pid p (some n)

unfoldable pub lookup_in : (ℕ → Process) → List ℕ → Option ℕ → Option ℕ
lookup_in proc [] pid = none
lookup_in proc (p ∷ ps) pid = if same_pid (proc p).pid pid then some p else lookup_in proc ps pid

-- The `int` that is looked up: `none` for -1. No process has another negative number.
unfoldable pub proc_lookup : Table → Option ℕ → Option ℕ
proc_lookup s pid = lookup_in s.proc s.plist pid

-- The scan of `_proc_getid` for a process that has the id.
pub used_in : (ℕ → Process) → List ℕ → ℕ → Bool
used_in proc [] pid = false
used_in proc (p ∷ ps) pid = if is_pid (proc p).pid pid then true else used_in proc ps pid

-- Each round is one scan of the list from its head. The result is `none` for -1, with the new
-- value of `next_pid`.
pub getid_loop : ℕ → Table → ℕ → Exec (Option ℕ × ℕ)
getid_loop zero s pid = panics
getid_loop (suc fuel) s pid =
    let pid' = (pid + 1) % s.proc_max_count in
    let rest = getid_loop fuel s pid' in
    if used_in s.proc s.plist pid
    then (if pid' == s.next_pid then returns (none, s.next_pid) else rest)
    else returns (some pid, pid')

pub proc_getid : Table → Exec (Option ℕ × ℕ)
proc_getid s = getid_loop s.proc_max_count s s.next_pid

abbrev pub has_pid : Table → Option ℕ → ℕ → Bool
has_pid s none n = false
has_pid s (some p) n = is_pid (s.proc p).pid n

-- The new process is a child of `curproc`, which is NULL only for the first one.
abbrev pub link_child : (ℕ → Process) → Option ℕ → ℕ → ℕ → Process
link_child proc none addr = proc
link_child proc (some c) addr =
    update proc c (record (proc c) { children = (proc c).children ++ addr ∷ [] })

abbrev pub created : Table → ℕ → Option ℕ → ℕ → Table
created s addr pid next = record s {
  plist = s.plist ++ addr ∷ [];
  proc =
      link_child
        (update s.proc addr
          (record { pid = pid; parent = s.curproc; children = []; status = 0; dead = false }))
        s.curproc addr;
  next_pid = next;
  initproc = if is_pid pid 1 then some addr else s.initproc;
}

-- `addr` is the address that the allocator gives. PID_IDLE is 0 and PID_INIT is 1.
pub proc_create : Table → ℕ → Exec Table
proc_create s addr = do
  (pid, next) ← proc_getid s
  kassert (not (is_pid pid 0) || list_empty s.plist)
  kassert (not (is_pid pid 1) || has_pid s s.curproc 0)
  returns (created s addr pid next)
