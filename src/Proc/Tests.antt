-- ===== src/Proc/Tests.antt =====
-- Runs of the scheduler, of mutexes and of the process table. In the first ones thread 3 runs,
-- threads 4 and 5 sleep on queue 1, and thread 6 is ready.
mod Waiting
mod Exits
mod Forks
use weenix.Prelude.{
  ℕ, ◌<◌, ◌≡◌, ◌≢◌, ◌⊎◌, refl, true, false, Option, none, some, List, [], ◌∷◌, ◌++◌, if◌then◌else◌,
  ◌==◌, arith, returns, fails, eintr,
}
use weenix.Proc.Fifo.{last_of}
use weenix.Proc.Sched.{
  run, sleep_cancellable, Kthread, Ktqueue, Sched, kt_runq, cancellable_wakeup, sched_wakeup_on,
  sched_broadcast_on, sched_cancel,
}
use weenix.Proc.Sched.Laws.{IsConsistent, Broadcast, moved, sched_broadcast_on_lem}
use weenix.Proc.Sched.Steps.{IsRunning, wake_lem, sched_cancel_lem, sched_wakeup_on_lem}
use weenix.Proc.Sched.Reach.{here, next, wakes, Reach-IsRunning}
use weenix.Proc.Table.{Process, Table, proc_lookup, lookup_in, proc_getid, proc_create}
use weenix.Proc.Table.Getid.{Chosen, proc_getid_lem}
use weenix.Proc.Table.Create.{Added, Unnamed, proc_create_lem}
use weenix.Proc.Kmutex.Owner.{IsOwned, kmutex_unlock-IsOwned}
use weenix.Proc.Kmutex.Steps
use weenix.Proc.Kmutex.Steps.{MutexReach-IsOwned, unlocks}
use weenix.Proc.Kmutex.{
  unlock_runs, Kmutex, kmutex_unlock, kmutex_unlock_hands_over, kmutex_cancelled_holder,
}

abbrev queues : ℕ → Ktqueue
queues q =
    if q == 1
    then record { list = 5 ∷ 4 ∷ []; size = 2 }
    else if q == 0
    then record { list = 6 ∷ []; size = 1 }
    else record { list = []; size = 0 }

abbrev waiting : Kthread
waiting = record { state = sleep_cancellable; wchan = some 1; cancelled = false; retval = 0 }

abbrev ready : Option ℕ → Kthread
ready w = record { state = run; wchan = w; cancelled = false; retval = 0 }

abbrev threads : ℕ → Kthread
threads t =
    if t == 4
    then waiting
    else if t == 5
    then waiting
    else if t == 6
    then ready (some 0)
    else ready none

abbrev start : Sched
start = record { queue = queues; thread = threads; curthr = 3 }

start-IsConsistent : IsConsistent start
start-IsConsistent = record { placed = λ t q. ground arith; sized = λ q. ground arith }

start-IsRunning : IsRunning start
start-IsRunning = record {
  consistent = start-IsConsistent;
  asleep = λ t q e n. ground arith;
  current = refl;
}

wait_queue : 1 ≢ kt_runq
wait_queue = ground arith

sched_broadcast_on_example :
    (s' : Sched) × (sched_broadcast_on start 1 ≡ returns s') × Broadcast start 1 s'
sched_broadcast_on_example = sched_broadcast_on_lem start 1 start-IsConsistent wait_queue

sched_wakeup_on_example :
    (t : ℕ) × (s' : Sched) × (sched_wakeup_on start 1 ≡ returns (some t, s'))
    × IsRunning s'
    × (5 ∷ 4 ∷ [] ≡ (s'.queue 1).list ++ t ∷ [])
    × ((s'.thread t).state ≡ run)
    × ((s'.thread t).wchan ≡ some kt_runq)
sched_wakeup_on_example = sched_wakeup_on_lem start 1 5 (4 ∷ []) start-IsRunning wait_queue refl

-- Thread 4 has been woken.
abbrev later : Sched
later = moved start 1 5 (4 ∷ [])

Reach-IsRunning_example : IsRunning later
Reach-IsRunning_example = Reach-IsRunning start later start-IsRunning (
    next here (
      wakes 1 (some (last_of 5 (4 ∷ []))) wait_queue
        (wake_lem start 1 5 (4 ∷ []) start-IsRunning wait_queue refl)))

abbrev mutex : Kmutex
mutex = record { holder = some 3; waitq = 1 }

kmutex_unlock_example :
    (t : ℕ) × (s' : Sched) × (kmutex_unlock start mutex
      ≡ returns (record mutex { holder = some t }, s'))
    × IsRunning s'
    × (5 ∷ 4 ∷ [] ≡ (s'.queue 1).list ++ t ∷ [])
    × ((s'.thread t).state ≡ run)
    × ((s'.thread t).wchan ≡ some kt_runq)
    × (t ≢ s'.curthr)
kmutex_unlock_example =
    kmutex_unlock_hands_over start mutex 5 (4 ∷ []) start-IsRunning wait_queue refl refl

-- The idle process and init at the addresses 100 and 101; the ids are 0, 1 and 2.
abbrev pub process : Option ℕ → Option ℕ → List ℕ → Process
process pid parent children = record {
  pid = pid;
  parent = parent;
  children = children;
  status = 0;
  dead = false;
}

abbrev table : Table
table = record {
  plist = 100 ∷ 101 ∷ [];
  proc = λ a. if a == 100 then process (some 0) none (101 ∷ []) else process (some 1) (some 100) [];
  next_pid = 0;
  curproc = some 101;
  initproc = some 101;
  proc_max_count = 3;
}

proc_create_example :
    (s' : Table) × (proc_create table 102 ≡ returns s')
    × (s'.next_pid < 3)
    × (s'.plist ≡ 100 ∷ 101 ∷ 102 ∷ [])
    × (((pid : ℕ) × Added table 102 s' pid) ⊎ Unnamed table 102 s')
proc_create_example =
    proc_create_lem table 102 100 101 (omega arith) refl (unfold proc_lookup lookup_in in refl)
      (unfold proc_lookup lookup_in in refl)

mutex-IsOwned : IsOwned start mutex
mutex-IsOwned = record {
  running = start-IsRunning;
  waits = wait_queue;
  free = λ e. cc;
  awake = λ t e. ground arith;
}

MutexReach-IsOwned_example : IsOwned later (record mutex { holder = some (last_of 5 (4 ∷ [])) })
MutexReach-IsOwned_example =
    MutexReach-IsOwned start mutex later (record mutex { holder = some (last_of 5 (4 ∷ [])) })
      mutex-IsOwned
      (Steps.next Steps.here
        (unlocks refl (unlock_runs start mutex 5 (4 ∷ []) start-IsRunning wait_queue refl refl)))
