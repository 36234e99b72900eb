-- ===== src/Proc/Kmutex.antt =====
-- kernel/proc/kmutex.c. A lock that has to sleep is modelled up to its switch to another thread.
pub mod Owner
pub mod Steps
use weenix.Prelude.{
  ℕ, ◌≡◌, ◌≢◌, Bool, true, false, not, Option, none, some, List, [], ◌∷◌, ◌++◌, if◌then◌else◌, ◌==◌,
  arith, Exec, returns, ◌>>=◌, ◌>>◌, kassert, Ret, done, fails, eintr,
}
use weenix.Proc.Fifo.{last_of, init-last}
use weenix.Proc.Sched.{
  run, Sched, kt_runq, update, sched_queue_empty, sched_wakeup_on, sched_sleep_on,
  sched_cancellable_sleep_on, sched_cancel, cancellable_wakeup, unlink_last, set_cancelled,
}
use weenix.Proc.Sched.Laws.{last-wchan, moved}
use weenix.Proc.Sched.Steps.{IsRunning, wake_lem, moved-IsRunning}

-- `kmutex_t`: the holder, and the number of the wait queue.
pub record Kmutex : Type 0 where
  pub holder : Option ℕ
  pub waitq : ℕ

pub kmutex_init : Sched → Kmutex → Kmutex × Sched
kmutex_init s m = (
  record m { holder = none },
  record s { queue = update s.queue m.waitq (record { list = []; size = 0 }) },
)

abbrev pub holds : Option ℕ → ℕ → Bool
holds none t = false
holds (some h) t = h == t

abbrev pub take_lock : Sched → Kmutex → Kmutex
take_lock s m = record m { holder = some s.curthr }

pub kmutex_lock : Sched → Kmutex → Exec (Kmutex × Sched)
kmutex_lock s m = do
  kassert (not (holds m.holder s.curthr))
  elim m.holder [
    | none ↦ returns (take_lock s m, s)
    | some h ↦ sched_sleep_on s m.waitq >>= λ s'. returns (m, s')
  ]

abbrev pub slept : Kmutex → Ret Sched → Ret (Kmutex × Sched)
slept m (done s) = done (m, s)
slept m (fails e) = fails e

pub kmutex_lock_cancellable : Sched → Kmutex → Exec (Ret (Kmutex × Sched))
kmutex_lock_cancellable s m = do
  kassert (not (holds m.holder s.curthr))
  elim m.holder [
    | none ↦ returns (done (take_lock s m, s))
    | some h ↦ sched_cancellable_sleep_on s m.waitq >>= λ r. returns (slept m r)
  ]

pub kmutex_unlock : Sched → Kmutex → Exec (Kmutex × Sched)
kmutex_unlock s m = do
  kassert (holds m.holder s.curthr)
  (h, s') ← (if sched_queue_empty s m.waitq then returns (none, s) else sched_wakeup_on s m.waitq)
  kassert (not (holds h s'.curthr))
  returns (record m { holder = h }, s')

-- The thread that is woken is not the running one.
other_holder :
    (s : Sched) (q x : ℕ) (xs : List ℕ)
    → IsRunning s
    → (s.queue q).list ≡ x ∷ xs
    → last_of x xs ≢ s.curthr
other_holder s q x xs g e = ground (arith, g.current, last-wchan s q x xs g.consistent e)

pub unlock_runs :
    (s : Sched) (m : Kmutex) (x : ℕ) (xs : List ℕ)
    → IsRunning s
    → m.waitq ≢ kt_runq
    → m.holder ≡ some s.curthr
    → (s.queue m.waitq).list ≡ x ∷ xs
    → kmutex_unlock s m ≡ returns (record m { holder = some (last_of x xs) }, moved s m.waitq x xs)
unlock_runs s m x xs g n h e =
    let held : holds m.holder s.curthr ≡ true = ground arith in
    let waits : sched_queue_empty s m.waitq ≡ false = unfold sched_queue_empty in rw e in
    let other : not (holds (some (last_of x xs)) (moved s m.waitq x xs).curthr) ≡ true =
      unfold unlink_last in ground (arith, other_holder s m.waitq x xs g e) in
    unfold kmutex_unlock in rw (held, waits, wake_lem s m.waitq x xs g n e) (rw other)

-- `kmutex_unlock` by the holder of a mutex with waiting threads returns: no KASSERT fails, the
-- thread that has waited longest is the new holder and leaves the wait queue for the run queue in
-- the state KT_RUN, it is not the running thread, and the scheduler stays right. (Given that it
-- was: consistent queues, everyone on a wait queue asleep, the running thread on none.)
pub kmutex_unlock_hands_over :
    (s : Sched) (m : Kmutex) (x : ℕ) (xs : List ℕ)
    → IsRunning s
    → m.waitq ≢ kt_runq
    → m.holder ≡ some s.curthr
    → (s.queue m.waitq).list ≡ x ∷ xs
    → (t : ℕ) × (s' : Sched) × (kmutex_unlock s m ≡ returns (record m { holder = some t }, s'))
      × IsRunning s'
      × ((s.queue m.waitq).list ≡ (s'.queue m.waitq).list ++ t ∷ [])
      × ((s'.thread t).state ≡ run)
      × ((s'.thread t).wchan ≡ some kt_runq)
      × (t ≢ s'.curthr)
kmutex_unlock_hands_over s m x xs g n h e = (
  last_of x xs,
  moved s m.waitq x xs,
  unlock_runs s m x xs g n h e,
  moved-IsRunning s m.waitq x xs g n e,
  unfold unlink_last in ground (arith, init-last x xs),
  unfold unlink_last in ground arith,
  unfold unlink_last in ground arith,
  unfold unlink_last in ground (arith, other_holder s m.waitq x xs g e),
)

-- A thread that `kmutex_unlock` has made the holder and that is cancelled before it runs: the
-- cancellation returns, and `kmutex_lock_cancellable` of that thread then reports EINTR although
-- the thread holds the mutex. (Given that the scheduler is right when the holder unlocks, and that
-- a thread waits.)
pub kmutex_cancelled_holder :
    (s : Sched) (m : Kmutex) (x : ℕ) (xs : List ℕ)
    → IsRunning s
    → m.waitq ≢ kt_runq
    → m.holder ≡ some s.curthr
    → (s.queue m.waitq).list ≡ x ∷ xs
    → (t : ℕ) × (s' u : Sched) × (kmutex_unlock s m ≡ returns (record m { holder = some t }, s'))
      × (sched_cancel s' t ≡ returns u)
      × (cancellable_wakeup (record u { curthr = t }) ≡ fails eintr)
kmutex_cancelled_holder s m x xs g n h e =
    let t = last_of x xs in
    let s' = moved s m.waitq x xs in
    (
      t,
      s',
      set_cancelled s' t,
      unlock_runs s m x xs g n h e,
      unfold sched_cancel unlink_last in ground arith,
      unfold cancellable_wakeup unlink_last in ground arith,
    )
