-- ===== src/Proc/Kthread.antt =====
-- kernel/proc/kthread.c: threads are made, copied and destroyed. The stack and the context of a thread
-- are outside the model.
use weenix.Prelude.{
  ℕ, ◌≡◌, refl, Bool, true, false, Option, none, some, List, [], ◌∷◌, ◌++◌, if◌then◌else◌, ◌==◌,
  arith, Exec, returns, ◌>>=◌, ◌>>◌, kassert, deref,
}
use weenix.Proc.Fifo.{remove_elem, count, remove-last}
use weenix.Proc.Sched.{KtState, run, no_state, Kthread, Sched, update}
use weenix.Proc.Sched.Steps.{IsRunning}
use weenix.Proc.Table.{is_pid}
use weenix.Proc.Exit.{Kernel}

abbrev pub new_thread : KtState → Kthread
new_thread x = record { state = x; wchan = none; cancelled = false; retval = 0 }

abbrev pub set_thread : Sched → ℕ → Kthread → Sched
set_thread s t x = record s { thread = update s.thread t x }

-- `t` is what `slab_obj_alloc` gives; it is used without a test for NULL. PID_IDLE is 0.
pub kthread_create : Kernel → ℕ → Option ℕ → Exec (ℕ × Kernel)
kthread_create s p new = do
  t ← deref new
  let state = if is_pid (s.table.proc p).pid 0 then run else no_state
  returns (
    t,
    record s {
      sched = set_thread s.sched t (new_thread state);
      kt_proc = update s.kt_proc t (some p);
      threads = update s.threads p (s.threads p ++ t ∷ []);
    },
  )

-- The link of a thread is on the list of the process that it belongs to, or on none.
abbrev pub unlinked : Kernel → ℕ → Option ℕ → Kernel
unlinked s t none = s
unlinked s t (some p) = record s { threads = update s.threads p (remove_elem t (s.threads p)) }

pub kthread_destroy : Kernel → ℕ → Kernel
kthread_destroy s t = unlinked s t (s.kt_proc t)

abbrev pub is_run : KtState → Bool
is_run run = true
is_run _ = false

-- The new thread has the values of the old one, and no process yet.
pub kthread_clone : Kernel → ℕ → Option ℕ → Exec (ℕ × Kernel)
kthread_clone s thr new = do
  kassert (is_run (s.sched.thread thr).state)
  t ← deref new
  let s' = record s {
    sched = set_thread s.sched t (s.sched.thread thr);
    kt_proc = update s.kt_proc t none;
  }
  kassert (is_run (s'.sched.thread t).state)
  returns (t, s')

set_thread-IsRunning :
    (s : Sched) (t : ℕ) (x : KtState)
    → IsRunning s
    → (s.thread t).wchan ≡ none
    → IsRunning (set_thread s t (new_thread x))
set_thread-IsRunning s t x g w = record {
  consistent = record {
    placed = λ u q. ground (arith, g.consistent.placed u q);
    sized = g.consistent.sized;
  };
  asleep = λ u q e n. ground (arith, g.asleep u q);
  current = ground (arith, g.current);
}

same_threads :
    (s : Kernel) (t p : ℕ) (l m : List ℕ)
    → s.kt_proc t ≡ some p
    → s.threads p ≡ l
    → remove_elem t l ≡ m
    → (kthread_destroy s t).threads p ≡ m
unfolding kthread_destroy
same_threads s t p l m e h r = let same : (p == p) ≡ true = ground arith in rw (e, same, h) r

-- `kthread_create` with memory for a thread that is on no queue and not on the list of the process
-- returns: the thread is the last of the process, the scheduler stays right, and the list is again what
-- it was once `kthread_destroy` has taken the thread away.
pub kthread_create-destroy :
    (s : Kernel) (p t : ℕ)
    → IsRunning s.sched
    → (s.sched.thread t).wchan ≡ none
    → count t (s.threads p) ≡ 0
    → (u : Kernel) × (kthread_create s p (some t) ≡ returns (t, u))
      × IsRunning u.sched
      × (u.threads p ≡ s.threads p ++ t ∷ [])
      × ((kthread_destroy u t).threads p ≡ s.threads p)
unfolding kthread_create
kthread_create-destroy s p t g w e =
    let state = if is_pid (s.table.proc p).pid 0 then run else no_state in
    let u = record s {
      sched = set_thread s.sched t (new_thread state);
      kt_proc = update s.kt_proc t (some p);
      threads = update s.threads p (s.threads p ++ t ∷ []);
    } in
    let last : u.threads p ≡ s.threads p ++ t ∷ [] = ground arith in
    (
      u,
      refl,
      set_thread-IsRunning s.sched t state g w,
      last,
      same_threads u t p (s.threads p ++ t ∷ []) (s.threads p) (ground arith) last
          (remove-last t (s.threads p) e),
    )

-- What kthread_clone leaves.
abbrev pub cloned : Kernel → ℕ → ℕ → Kernel
cloned s thr t = record s {
  sched = set_thread s.sched t (s.sched.thread thr);
  kt_proc = update s.kt_proc t none;
}

pub kthread_clone_lem :
    (s : Kernel) (thr t : ℕ)
    → (s.sched.thread thr).state ≡ run
    → kthread_clone s thr (some t) ≡ returns (t, cloned s thr t)
unfolding kthread_clone
kthread_clone_lem s thr t e =
    let runs : is_run (s.sched.thread thr).state ≡ true = rw e refl in
    let same : (t == t) ≡ true = ground arith in rw (same, runs) refl

-- A copy of the thread that runs is on no queue.
pub cloned-IsRunning :
    (s : Kernel) (t : ℕ)
    → IsRunning s.sched
    → (s.sched.thread t).wchan ≡ none
    → IsRunning (cloned s s.sched.curthr t).sched
cloned-IsRunning s t g w = record {
  consistent = record {
    placed = λ u q.
        ground (arith, g.consistent.placed u q, g.consistent.placed s.sched.curthr q, g.current);
    sized = g.consistent.sized;
  };
  asleep = λ u q e n. ground (arith, g.asleep u q, g.current);
  current = ground (arith, g.current);
}
