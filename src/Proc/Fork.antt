-- ===== src/Proc/Fork.antt =====
-- kernel/proc/fork.c: do_fork over the process table, the threads, the open files and the address
-- spaces. The registers, the stack and the context of the new thread are outside the model,
-- and so is what the page tables hold: the calls that change them are logged.
pub mod Laws
use weenix.Prelude.{
  ℕ, Bool, not, Option, none, some, List, [], ◌∷◌, ◌++◌, if◌then◌else◌, ◌==◌, Exec, returns, ◌>>=◌,
  ◌>>◌, kassert, deref,
}
use weenix.Proc.Sched.{Sched, update, sched_queue_init, sched_make_runnable}
use weenix.Proc.Table.{Process, Table, proc_create}
use weenix.Proc.Exit.{Kernel}
use weenix.Proc.Kthread.{kthread_clone}
use weenix.Mm.State.{Mmobj, Mem}
use weenix.Vm.Area.{Vmarea}
use weenix.Vm.Fork.{fork_vmmap}

-- References to files and vnodes that are taken and given back.
pub data Taken : Type 0 where
  file_get vnode_get vnode_put : ℕ → Taken

-- Changes of page tables: `pt_unmap_range` of all user memory of a process, and `tlb_flush_all`.
pub data PageCall : Type 0 where
  pt_unmap_range : ℕ → PageCall
  tlb_flush_all : PageCall

-- The processes with their threads and files, the memory, the areas of each address space, and `p_brk`
-- and `p_start_brk`; `root` is `vfs_root_vn` and `no_file` the descriptors of a new process. The last
-- reference is the first of its list, and so is the last change of a page table.
pub record Machine : Type 0 where
  pub kernel : Kernel
  pub mem : Mem
  pub areas : ℕ → List Vmarea
  pub brk : ℕ → ℕ
  pub start_brk : ℕ → ℕ
  pub root : Option ℕ
  pub no_files : List (Option ℕ)
  pub taken : List Taken
  pub page_calls : List PageCall

abbrev pub get_vnode : Option ℕ → List Taken → List Taken
get_vnode none done = done
get_vnode (some v) done = vnode_get v ∷ done

abbrev pub put_vnode : Option ℕ → List Taken → List Taken
put_vnode none done = done
put_vnode (some v) done = vnode_put v ∷ done

-- What `proc_create` does besides the table, the name and the page directory. The new process has no thread, and nobody waits on its
-- `p_wait`. The address space that it makes is replaced before anyone reads it.
abbrev pub born : Machine → ℕ → Table → Machine
born s addr t = record s {
  kernel = record s.kernel {
    sched = sched_queue_init s.kernel.sched (s.kernel.p_wait addr);
    table = t;
    threads = update s.kernel.threads addr [];
    cwd = update s.kernel.cwd addr s.root;
    files = update s.kernel.files addr s.no_files;
  };
  brk = update s.brk addr 0;
  start_brk = update s.start_brk addr 0;
  taken = get_vnode s.root s.taken;
}

-- The loop of copy_parent_files.
pub fref_all : List (Option ℕ) → List Taken → List Taken
fref_all [] done = done
fref_all (none ∷ fs) done = fref_all fs done
fref_all (some f ∷ fs) done = fref_all fs (file_get f ∷ done)

pub copy_parent_files : Machine → ℕ → ℕ → Machine
copy_parent_files s c child = record s {
  kernel = record s.kernel {
    files = update s.kernel.files child (s.kernel.files c);
    cwd = update s.kernel.cwd child (s.kernel.cwd c);
  };
  taken =
      get_vnode (s.kernel.cwd c)
        (put_vnode (s.kernel.cwd child) (fref_all (s.kernel.files c) s.taken));
}

abbrev pub with_spaces : Machine → ℕ → ℕ → List Vmarea → List Vmarea → Mem → Machine
with_spaces s c child cs ps m = record s { mem = m; areas = update (update s.areas child cs) c ps }

-- User memory is unmapped from the page table of the process, and the TLB flushed.
abbrev pub pt_cleared : Machine → ℕ → Machine
pt_cleared s c = record s { page_calls = tlb_flush_all ∷ pt_unmap_range c ∷ s.page_calls }

-- The new thread belongs to the new process, which has the break of the parent.
abbrev pub adopted : Machine → ℕ → ℕ → ℕ → Machine
adopted s c child thr = record s {
  kernel = record s.kernel {
    kt_proc = update s.kernel.kt_proc thr (some child);
    threads = update s.kernel.threads child (s.kernel.threads child ++ thr ∷ []);
  };
  brk = update s.brk child (s.brk c);
  start_brk = update s.start_brk child (s.start_brk c);
}

abbrev pub with_kernel : Machine → Kernel → Machine
with_kernel s k = record s { kernel = k }

abbrev pub with_sched : Machine → Sched → Machine
with_sched s u = record s { kernel = record s.kernel { sched = u } }

module _ (bottom_of : Mmobj → ℕ → Option ℕ) (ref : Mem → ℕ → Exec Mem) where
  -- `child` and `thr` are the addresses of the new process and thread that the allocators give, and
  -- `news` those of the new shadow objects.
  pub fork_process : Machine → ℕ → ℕ → Option ℕ → List ℕ → Exec (Option ℕ × Machine)
  fork_process s c child thr news = do
    kassert (not (s.kernel.table.proc c).dead)
    t ← proc_create s.kernel.table child
    let s1 = born s child t
    (cs, ps, left, m) ← fork_vmmap bottom_of ref s1.mem news (s1.areas c)
    let s2 = pt_cleared (with_spaces s1 c child cs ps m) c
    (newthr, k) ← kthread_clone s2.kernel s2.kernel.sched.curthr thr
    kassert (not (k.table.proc child).dead)
    let s3 = adopted (copy_parent_files (with_kernel s2 k) c child) c child newthr
    u ← sched_make_runnable s3.kernel.sched newthr
    returns ((s3.kernel.table.proc child).pid, with_sched s3 u)

  pub do_fork : Machine → ℕ → Option ℕ → List ℕ → Exec (Option ℕ × Machine)
  do_fork s child thr news = deref s.kernel.table.curproc >>= λ c. fork_process s c child thr news
