-- ===== src/Proc/Kmutex/Owner.antt =====
-- The invariant of a mutex, and `kmutex_unlock` under it.
use weenix.Prelude.{ℕ, ◌≡◌, ◌≢◌, refl, true, none, some, List, [], ◌∷◌, arith, returns}
use weenix.Proc.Fifo.{last_of}
use weenix.Proc.Sched.{Sched, kt_runq, unlink_last, sched_queue_empty}
use weenix.Proc.Sched.Laws.{moved}
use weenix.Proc.Sched.Steps.{IsRunning, moved-IsRunning}
use weenix.Proc.Kmutex.{Kmutex, kmutex_unlock, holds, unlock_runs}

-- The scheduler is right, the wait queue is not the run queue, nobody waits for a free mutex, and
-- the holder does not wait for it.
pub record IsOwned (s : Sched) (m : Kmutex) : Type 0 where
  pub running : IsRunning s
  pub waits : m.waitq ≢ kt_runq
  pub free : m.holder ≡ none → (s.queue m.waitq).list ≡ []
  pub awake : (t : ℕ) → m.holder ≡ some t → (s.thread t).wchan ≢ some m.waitq

unlock_free :
    (s : Sched) (m : Kmutex)
    → m.holder ≡ some s.curthr
    → (s.queue m.waitq).list ≡ []
    → kmutex_unlock s m ≡ returns (record m { holder = none }, s)
unlock_free s m h e =
    let held : holds m.holder s.curthr ≡ true = ground arith in
    let empty : sched_queue_empty s m.waitq ≡ true = unfold sched_queue_empty in rw e in
    unfold kmutex_unlock in rw (held, empty) refl

unlock_cases :
    (s : Sched) (m : Kmutex) (l : List ℕ)
    → IsOwned s m
    → m.holder ≡ some s.curthr
    → (s.queue m.waitq).list ≡ l
    → (m' : Kmutex) × (s' : Sched) × (kmutex_unlock s m ≡ returns (m', s')) × IsOwned s' m'
unlock_cases s m [] g h e = (
  record m { holder = none },
  s,
  unlock_free s m h e,
  record { running = g.running; waits = g.waits; free = λ _. e; awake = λ t p. cc },
)
unlock_cases s m (x ∷ xs) g h e = (
  record m { holder = some (last_of x xs) },
  moved s m.waitq x xs,
  unlock_runs s m x xs g.running g.waits h e,
  record {
    running = moved-IsRunning s m.waitq x xs g.running g.waits e;
    waits = g.waits;
    free = λ p. cc;
    awake = λ t p. unfold unlink_last in ground (arith, g.waits);
  },
)

-- `kmutex_unlock` by the holder returns in every state of the invariant, no KASSERT fails, and the
-- invariant is kept.
pub kmutex_unlock-IsOwned :
    (s : Sched) (m : Kmutex)
    → IsOwned s m
    → m.holder ≡ some s.curthr
    → (m' : Kmutex) × (s' : Sched) × (kmutex_unlock s m ≡ returns (m', s')) × IsOwned s' m'
kmutex_unlock-IsOwned s m g h = unlock_cases s m (s.queue m.waitq).list g h refl
