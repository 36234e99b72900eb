-- ===== src/Proc/Sched.antt =====
-- kernel/proc/sched.c and kernel/proc/sched_helper.c. A function that switches to another thread is
-- modelled up to the switch, and the switch by itself. What sets and restores the IPL around a change
-- of the run queue makes the change one step.
pub mod Laws
pub mod Steps
pub mod Switch
pub mod Reach
use weenix.Prelude.{
  ℕ, zero, suc, ◌+◌, ◌-◌, Bool, true, false, ◌&&◌, ◌||◌, not, Option, none, some, List, [], ◌∷◌,
  if◌then◌else◌, ◌==◌, is_none, Exec, returns, panics, ◌>>=◌, ◌>>◌, kassert, deref, Ret, done,
  fails, eintr,
}
use weenix.Proc.Fifo.{last_of, init_of, remove_elem}

-- `kt_state`
pub data KtState : Type 0 where
  no_state run sleep sleep_cancellable exited : KtState

-- The fields of `kthread_t` that the scheduler uses. `wchan` is the queue that the thread is on.
pub record Kthread : Type 0 where
  pub state : KtState
  pub wchan : Option ℕ
  pub cancelled : Bool
  pub retval : ℕ

-- `ktqueue_t`: the list from its head on.
pub record Ktqueue : Type 0 where
  pub list : List ℕ
  pub size : ℕ

-- The queues by number (`kt_runq` is number 0), the threads by number, and `curthr`.
pub record Sched : Type 0 where
  pub queue : ℕ → Ktqueue
  pub thread : ℕ → Kthread
  pub curthr : ℕ

abbrev pub kt_runq : ℕ
kt_runq = 0

abbrev pub update {ℓ} : {A : Type ℓ} → (ℕ → A) → ℕ → A → ℕ → A
update f i a j = if i == j then a else f j

abbrev pub set_wchan : Sched → ℕ → Option ℕ → ℕ → Kthread
set_wchan s t w = update s.thread t (record (s.thread t) { wchan = w })

abbrev pub sched_queue_init : Sched → ℕ → Sched
sched_queue_init s q = record s { queue = update s.queue q (record { list = []; size = 0 }) }

abbrev pub set_state : Sched → ℕ → KtState → Sched
set_state s t x = record s { thread = update s.thread t (record (s.thread t) { state = x }) }

abbrev pub enqueued : Sched → ℕ → ℕ → Sched
enqueued s q t = record s {
  queue = update s.queue q (record { list = t ∷ (s.queue q).list; size = (s.queue q).size + 1 });
  thread = set_wchan s t (some q);
}

pub ktqueue_enqueue : Sched → ℕ → ℕ → Exec Sched
ktqueue_enqueue s q t = do kassert (is_none (s.thread t).wchan); returns (enqueued s q t)

-- What `ktqueue_dequeue` leaves when the list is `x ∷ xs`.
unfoldable pub unlink_last : Sched → ℕ → ℕ → List ℕ → Sched
unlink_last s q x xs = record s {
  queue = update s.queue q (record { list = init_of x xs; size = (s.queue q).size - 1 });
  thread = set_wchan s (last_of x xs) none;
}

pub dequeue_list : Sched → ℕ → List ℕ → Option ℕ × Sched
dequeue_list s q [] = (none, s)
dequeue_list s q (x ∷ xs) = (some (last_of x xs), unlink_last s q x xs)

pub ktqueue_dequeue : Sched → ℕ → Option ℕ × Sched
ktqueue_dequeue s q = dequeue_list s q (s.queue q).list

abbrev pub removed : Sched → ℕ → ℕ → Sched
removed s q t = record s {
  queue =
      update s.queue q
        (record { list = remove_elem t (s.queue q).list; size = (s.queue q).size - 1 });
  thread = set_wchan s t none;
}

-- The thread's link is on a list exactly if it waits on a queue.
pub ktqueue_remove : Sched → ℕ → ℕ → Exec Sched
ktqueue_remove s q t = do kassert (not (is_none (s.thread t).wchan)); returns (removed s q t)

abbrev pub list_empty : List ℕ → Bool
list_empty [] = true
list_empty (x ∷ xs) = false

unfoldable pub sched_queue_empty : Sched → ℕ → Bool
sched_queue_empty s q = list_empty (s.queue q).list

abbrev pub is_runq : Option ℕ → Bool
is_runq none = false
is_runq (some q) = q == kt_runq

pub sched_make_runnable : Sched → ℕ → Exec Sched
sched_make_runnable s t = do kassert (not (is_runq (s.thread t).wchan)); ktqueue_enqueue s kt_runq t

abbrev pub is_asleep : KtState → Bool
is_asleep sleep = true
is_asleep sleep_cancellable = true
is_asleep _ = false

pub wake : Option ℕ × Sched → Exec (Option ℕ × Sched)
wake (none, s) = returns (none, s)
wake (some t, s) = do
  kassert (is_asleep (s.thread t).state)
  s' ← sched_make_runnable (set_state s t run) t
  returns (some t, s')

pub sched_wakeup_on : Sched → ℕ → Exec (Option ℕ × Sched)
sched_wakeup_on s q = wake (ktqueue_dequeue s q)

-- The loop of `sched_broadcast_on` takes one thread in each round; a list bounds the rounds.
pub wake_one : Option ℕ × Sched → Exec Sched
wake_one (none, s) = returns s
wake_one (some t, s) = sched_make_runnable (set_state s t run) t

pub broadcast_rounds : List ℕ → Sched → ℕ → Exec Sched
broadcast_rounds [] s q = returns s
broadcast_rounds (r ∷ rs) s q = wake_one (ktqueue_dequeue s q) >>= λ s'. broadcast_rounds rs s' q

pub sched_broadcast_on : Sched → ℕ → Exec Sched
sched_broadcast_on s q = broadcast_rounds (s.queue q).list s q

-- `sched_sleep_on` up to its call of `sched_switch`.
unfoldable pub sched_sleep_on : Sched → ℕ → Exec Sched
sched_sleep_on s q = ktqueue_enqueue (set_state s s.curthr sleep) q s.curthr

-- `sched_cancellable_sleep_on` up to its call of `sched_switch`; `fails eintr` is an early return.
unfoldable pub sched_cancellable_sleep_on : Sched → ℕ → Exec (Ret Sched)
sched_cancellable_sleep_on s q =
    if (s.thread s.curthr).cancelled then returns (fails eintr) else (do
      s' ← ktqueue_enqueue (set_state s s.curthr sleep_cancellable) q s.curthr
      returns (done s'))

-- What `sched_cancellable_sleep_on` returns once the thread runs again.
unfoldable pub cancellable_wakeup : Sched → Ret ℕ
cancellable_wakeup s = if (s.thread s.curthr).cancelled then fails eintr else done 0

abbrev pub set_cancelled : Sched → ℕ → Sched
set_cancelled s t = record s {
  thread = update s.thread t (record (s.thread t) { cancelled = true });
}

abbrev pub is_cancellable : KtState → Bool
is_cancellable sleep_cancellable = true
is_cancellable _ = false

unfoldable pub sched_cancel : Sched → ℕ → Exec Sched
sched_cancel s t =
    if is_cancellable (s.thread t).state
    then (do
      q ← deref (s.thread t).wchan
      s' ← ktqueue_remove (set_cancelled s t) q t
      sched_make_runnable s' t)
    else returns (set_cancelled s t)

-- `sched_switch` once the run queue is not empty: `none` while it is, when the processor waits for
-- an interrupt.
pub run_next : Option ℕ × Sched → Option Sched
run_next (none, s) = none
run_next (some t, s) = some (record s { curthr = t })

pub sched_switch : Sched → Option Sched
sched_switch s = run_next (ktqueue_dequeue s kt_runq)
