-- ===== src/Proc/Exit.antt =====
-- kernel/proc/kthread.c and the end of a process in kernel/proc/proc.c. A function that switches to
-- another thread is modelled up to the switch.
pub mod Laws
pub mod Ends
use weenix.Prelude.{
  ℕ, Bool, true, false, ◌&&◌, not, Option, none, some, List, [], ◌∷◌, ◌++◌, if◌then◌else◌, ◌==◌,
  ltb, is_none, Exec, returns, ◌>>=◌, ◌>>◌, kassert, deref,
}
use weenix.Proc.Sched.{
  KtState, exited, no_state, run, Kthread, Sched, update, set_state, sched_queue_empty,
  sched_broadcast_on, sched_cancel,
}
use weenix.Proc.Table.{Process, Table, is_pid}

-- What an exit gives back, the last one first: files, working directories and address spaces.
pub data Release : Type 0 where
  file_put vnode_put vmmap_destroy : ℕ → Release

-- The scheduler and the processes; `p_cwd`, `p_files`, `p_threads` and the queue `p_wait` of a process,
-- and `kt_proc` of a thread.
pub record Kernel : Type 0 where
  pub sched : Sched
  pub table : Table
  pub cwd : ℕ → Option ℕ
  pub files : ℕ → List (Option ℕ)
  pub threads : ℕ → List ℕ
  pub p_wait : ℕ → ℕ
  pub kt_proc : ℕ → Option ℕ
  pub released : List Release

-- The loop over the children: each becomes a child of init. They are not taken off the list of the
-- process, which nobody reads any more.
pub adopt : (ℕ → Process) → ℕ → List ℕ → ℕ → Process
adopt proc init [] = proc
adopt proc init (x ∷ xs) =
    let proc' = update proc x (record (proc x) { parent = some init }) in
    adopt (update proc' init (record (proc' init) { children = (proc' init).children ++ x ∷ [] }))
      init xs

-- The loop over `p_files`.
pub put_files : List (Option ℕ) → List Release → List Release
put_files [] done = done
put_files (none ∷ fs) done = put_files fs done
put_files (some f ∷ fs) done = put_files fs (file_put f ∷ done)

pub no_files : List (Option ℕ) → List (Option ℕ)
no_files [] = []
no_files (f ∷ fs) = none ∷ no_files fs

abbrev pub put_cwd : Option ℕ → List Release → List Release
put_cwd none done = done
put_cwd (some v) done = vnode_put v ∷ done

-- What the process `c` has is given back.
abbrev pub released_all : Kernel → ℕ → Kernel
released_all s c = record s {
  files = update s.files c (no_files (s.files c));
  released = vmmap_destroy c ∷ put_files (s.files c) (put_cwd (s.cwd c) s.released);
}

abbrev pub buried : Kernel → ℕ → ℕ → Kernel
buried s c status = record s {
  table = record s.table {
    proc = update s.table.proc c (record (s.table.proc c) { dead = true; status = status });
  };
}

abbrev pub orphaned : Kernel → ℕ → ℕ → Kernel
orphaned s c init = record s {
  table = record s.table { proc = adopt s.table.proc init (s.table.proc c).children };
}

-- The threads that wait on `p_wait` of the parent wake up.
pub tell_parent : Sched → ℕ → Exec Sched
tell_parent s q =
    if sched_queue_empty s q
    then returns s
    else (do u ← sched_broadcast_on s q; returns (set_state u u.curthr exited))

abbrev pub is_exited : KtState → Bool
is_exited exited = true
is_exited _ = false

-- `1 <= p_pid`.
abbrev pub is_child_pid : Option ℕ → Bool
is_child_pid none = false
is_child_pid (some n) = ltb 0 n

pub proc_cleanup : Kernel → ℕ → Exec Kernel
proc_cleanup s status = do
  init ← deref s.table.initproc
  c ← deref s.table.curproc
  parent ← deref (s.table.proc c).parent
  kassert (is_child_pid (s.table.proc c).pid)
  let t = released_all (orphaned (buried s c status) c init) c
  u ← tell_parent t.sched (t.p_wait parent)
  kassert (is_exited (u.thread u.curthr).state)
  returns (record t { sched = u })

-- proc_thread_exited is proc_cleanup and the switch.
abbrev pub proc_thread_exited : Kernel → ℕ → Exec Kernel
proc_thread_exited s retval = proc_cleanup s retval

abbrev pub set_retval : Sched → ℕ → ℕ → Sched
set_retval s t retval = record s {
  thread = update s.thread t (record (s.thread t) { retval = retval });
}

abbrev pub same_proc : Option ℕ → Option ℕ → Bool
same_proc none none = true
same_proc (some a) (some b) = a == b
same_proc none (some b) = false
same_proc (some a) none = false

-- The link of a thread is on a list exactly if it waits on a queue.
pub kthread_exit : Kernel → ℕ → Exec Kernel
kthread_exit s retval = do
  let t = s.sched.curthr
  let s' = record s { sched = set_state (set_retval s.sched t retval) t exited }
  kassert (is_none (s.sched.thread t).wchan)
  kassert (same_proc (s.kt_proc t) s.table.curproc)
  proc_thread_exited s' retval

-- A call returns, or the thread that runs has exited and control goes to another one.
pub data Outcome : Type 0 where
  goes_on switches : Kernel → Outcome

abbrev pub set_cancelled : Sched → ℕ → ℕ → Sched
set_cancelled s t retval = record s {
  thread = update s.thread t (record (s.thread t) { cancelled = true; retval = retval });
}

pub kthread_cancel : Kernel → ℕ → ℕ → Exec Outcome
kthread_cancel s t retval =
    if t == s.sched.curthr then (do s' ← kthread_exit s retval; returns (switches s')) else (do
      u ← sched_cancel (set_cancelled s.sched t retval) t
      returns (goes_on (record s { sched = u })))

abbrev pub and_then : (Kernel → Exec Outcome) → Outcome → Exec Outcome
and_then next (goes_on s) = next s
and_then next (switches s) = returns (switches s)

-- The loop of do_exit and of proc_kill over the threads of a process.
pub cancel_threads : List ℕ → ℕ → Kernel → Exec Outcome
cancel_threads [] status s = returns (goes_on s)
cancel_threads (t ∷ ts) status s = kthread_cancel s t status >>= and_then (cancel_threads ts status)

pub do_exit : Kernel → ℕ → Exec Outcome
do_exit s status = do c ← deref s.table.curproc; cancel_threads (s.threads c) status s

pub proc_kill : Kernel → ℕ → ℕ → Exec Outcome
proc_kill s p status =
    if same_proc (some p) s.table.curproc
    then do_exit s status
    else cancel_threads (s.threads p) status s

-- Neither the idle process, nor init, nor the process 2.
abbrev pub is_killed : Option ℕ → Bool
is_killed pid = not (is_pid pid 0) && not (is_pid pid 1) && not (is_pid pid 2)

pub kill_others : List ℕ → Kernel → Exec Outcome
kill_others [] s = returns (goes_on s)
kill_others (p ∷ ps) s =
    (if is_killed (s.table.proc p).pid && not (same_proc (some p) s.table.curproc)
      then proc_kill s p (s.table.proc p).status
      else returns (goes_on s))
    >>= and_then (kill_others ps)

abbrev pub kill_self : Kernel → Exec Outcome
kill_self s = deref s.table.curproc >>= λ c.
    if is_killed (s.table.proc c).pid
    then proc_kill s c (s.table.proc c).status
    else returns (goes_on s)

pub proc_kill_all : Kernel → Exec Outcome
proc_kill_all s = kill_others s.table.plist s >>= and_then kill_self
