-- ===== src/Proc/Tests/Exits.antt =====
-- Runs of an exit: thread 3 of process 102 exits, whose parent is init, 101; threads 4 and 5 wait on
-- `p_wait` of init, and process 104 is a child of 102.
use weenix.Prelude.{ℕ, ◌≡◌, refl, none, some, [], ◌∷◌, if◌then◌else◌, ◌==◌, arith, returns}
use weenix.Proc.Table.{Process}
use weenix.Proc.Table.Wait.{any, do_waitpid, Reaps}
use weenix.Proc.Exit.{Kernel, kthread_exit}
use weenix.Proc.Exit.Ends.{CanExit, Ended, IsFamily, when_runs, kthread_exit-Ended, exit-waitpid}
use weenix.Proc.Tests.{process, start, start-IsRunning, wait_queue}

abbrev procs : ℕ → Process
procs a =
    if a == 101
    then process (some 1) (some 100) (102 ∷ [])
    else if a == 102
    then process (some 2) (some 101) (104 ∷ [])
    else process (some 3) (some 102) []

abbrev running : Kernel
running = record {
  sched = start;
  table = record {
    plist = 100 ∷ 101 ∷ 102 ∷ 104 ∷ [];
    proc = procs;
    next_pid = 4;
    curproc = some 102;
    initproc = some 101;
    proc_max_count = 8;
  };
  cwd = λ p. some 50;
  files = λ p. some 7 ∷ none ∷ some 7 ∷ [];
  threads = λ p. if p == 102 then 3 ∷ [] else [];
  p_wait = λ p. if p == 101 then 1 else 2;
  kt_proc = λ t. some 102;
  released = [];
}

running-CanExit : CanExit running 102 101 101
running-CanExit = record {
  current = refl;
  initial = refl;
  child = refl;
  numbered = refl;
  owner = refl;
  right = start-IsRunning;
  queue = wait_queue;
  elder = ground arith;
  no_loop = refl;
  no_init = refl;
}

running-IsFamily : IsFamily running.table 102 101
running-IsFamily = record {
  single = λ p. ground arith;
  listed = λ p e. ground arith;
  own = omega arith;
}

kthread_exit_example :
    (t : Kernel) × (kthread_exit running 9 ≡ returns t) × Ended running t 102 101 101 9
kthread_exit_example = kthread_exit-Ended running 102 101 101 9 running-CanExit

exit-waitpid_example :
    (t : Kernel) × (p : ℕ) × (kthread_exit running 9 ≡ returns t)
    × Reaps (when_runs t.table 101) 101 p (do_waitpid (when_runs t.table 101) any)
exit-waitpid_example = exit-waitpid running 102 101 101 9 running-CanExit running-IsFamily
