-- ===== src/Proc/Sched/Reach.antt =====
-- Runs of the scheduler: the steps of the running thread, and the states that they reach.
use weenix.Prelude.{
  ℕ, ◌≡◌, ◌≢◌, refl, Option, none, some, List, [], ◌∷◌, arith, Exec, returns, panics, ◌>>=◌, done,
  sym, subst, ◌∙◌, ap,
}
use weenix.Proc.Fifo.{last_of}
use weenix.Proc.Sched.{
  Sched, kt_runq, set_state, enqueued, sleep, sleep_cancellable, dequeue_list, ktqueue_dequeue,
  wake, wake_one, broadcast_rounds, sched_wakeup_on, sched_broadcast_on, sched_sleep_on,
  sched_cancellable_sleep_on, sched_cancel, sched_switch,
}
use weenix.Proc.Sched.Laws.{ktqueue_enqueue_lem, same_wchan, wake_one_lem, moved}
use weenix.Proc.Sched.Steps.{
  IsRunning, sleep_switch-IsRunning, sched_cancel_lem, wake_lem, moved-IsRunning,
}

-- Sleeps include the switch to the next thread; only a thread that waits is cancelled; the run queue
-- is not a wait queue.
pub data Step (s s' : Sched) : Type 0 where
  sleeps :
      (q : ℕ) (s1 : Sched) → sched_sleep_on s q ≡ returns s1 → sched_switch s1 ≡ some s' → Step s s'
  sleeps_cancellable :
      (q : ℕ) (s1 : Sched)
      → sched_cancellable_sleep_on s q ≡ returns (done s1)
      → sched_switch s1 ≡ some s'
      → Step s s'
  wakes : (q : ℕ) (t : Option ℕ) → q ≢ kt_runq → sched_wakeup_on s q ≡ returns (t, s') → Step s s'
  broadcasts : (q : ℕ) → q ≢ kt_runq → sched_broadcast_on s q ≡ returns s' → Step s s'
  cancels : (t q : ℕ) → (s.thread t).wchan ≡ some q → sched_cancel s t ≡ returns s' → Step s s'

pub data Reach (s : Sched) : Sched → Type 0 where
  here : Reach s s
  next : {t u : Sched} → Reach s t → Step t u → Reach s u

pub returns-injective {ℓ} : {A : Type ℓ} (a b : A) → returns a ≡ returns b → a ≡ b
returns-injective a b e = cc

pub sleep_on_lem :
    (s : Sched) (q : ℕ)
    → IsRunning s
    → sched_sleep_on s q ≡ returns (enqueued (set_state s s.curthr sleep) q s.curthr)
unfolding sched_sleep_on
sleep_on_lem s q g =
    ktqueue_enqueue_lem (set_state s s.curthr sleep) q s.curthr
      (same_wchan s s.curthr sleep g.current)

pub cancellable_sleep_lem :
    (s s1 : Sched) (q : ℕ)
    → IsRunning s
    → sched_cancellable_sleep_on s q ≡ returns (done s1)
    → s1 ≡ enqueued (set_state s s.curthr sleep_cancellable) q s.curthr
unfolding sched_cancellable_sleep_on
cancellable_sleep_lem s s1 q g e =
    let enq =
      ktqueue_enqueue_lem (set_state s s.curthr sleep_cancellable) q s.curthr
        (same_wchan s s.curthr sleep_cancellable g.current) in
    ground (arith, enq)

wake_nothing : (s : Sched) (q : ℕ) → wake (dequeue_list s q []) ≡ returns (none, s)
unfolding dequeue_list wake
wake_nothing s q = refl

wakeup-IsRunning :
    (s s' : Sched) (q : ℕ) (t : Option ℕ) (l : List ℕ)
    → IsRunning s
    → q ≢ kt_runq
    → (s.queue q).list ≡ l
    → sched_wakeup_on s q ≡ returns (t, s')
    → IsRunning s'
wakeup-IsRunning s s' q t [] g n e h =
    let h' : wake (dequeue_list s q []) ≡ returns (t, s') =
      unfold sched_wakeup_on ktqueue_dequeue in rw e at h in
    let pair : (none, s) ≡ (t, s') =
      returns-injective (none, s) (t, s') (sym (wake_nothing s q) ∙ h') in
    subst IsRunning (ap (λ p. p.1) pair) g
wakeup-IsRunning s s' q t (x ∷ xs) g n e h =
    let pair : (some (last_of x xs), moved s q x xs) ≡ (t, s') =
      returns-injective (some (last_of x xs), moved s q x xs) (t, s')
        (sym (wake_lem s q x xs g n e) ∙ h) in
    subst IsRunning (ap (λ p. p.1) pair) (moved-IsRunning s q x xs g n e)

-- One round of a broadcast.
round-IsRunning :
    (s s' : Sched) (q : ℕ) (l : List ℕ)
    → IsRunning s
    → q ≢ kt_runq
    → (s.queue q).list ≡ l
    → wake_one (ktqueue_dequeue s q) ≡ returns s'
    → IsRunning s'
round-IsRunning s s' q [] g n e h =
    let h' : wake_one (dequeue_list s q []) ≡ returns s' = unfold ktqueue_dequeue in rw e at h in
    subst IsRunning (returns-injective s s' (unfold wake_one dequeue_list in h')) g
round-IsRunning s s' q (x ∷ xs) g n e h =
    subst IsRunning (returns-injective (moved s q x xs) s' (sym (wake_one_lem s q x xs e) ∙ h))
      (moved-IsRunning s q x xs g n e)

after_round :
    (rs : List ℕ) (s s' : Sched) (q : ℕ) (m : Exec Sched)
    → IsRunning s
    → q ≢ kt_runq
    → wake_one (ktqueue_dequeue s q) ≡ m
    → (m >>= λ u. broadcast_rounds rs u q) ≡ returns s'
    → ((u : Sched) → IsRunning u → broadcast_rounds rs u q ≡ returns s' → IsRunning s')
    → IsRunning s'
after_round rs s s' q panics g n e h rest = cc
after_round rs s s' q (returns u) g n e h rest =
    rest u (round-IsRunning s u q (s.queue q).list g n refl e) h

broadcast-IsRunning :
    (rs : List ℕ) (s s' : Sched) (q : ℕ)
    → IsRunning s
    → q ≢ kt_runq
    → broadcast_rounds rs s q ≡ returns s'
    → IsRunning s'
unfolding broadcast_rounds
broadcast-IsRunning [] s s' q g n h = subst IsRunning (returns-injective s s' h) g
broadcast-IsRunning (r ∷ rs) s s' q g n h =
    after_round rs s s' q (wake_one (ktqueue_dequeue s q)) g n refl h
      (λ u k e. broadcast-IsRunning rs u s' q k n e)

pub sched_broadcast_on-IsRunning :
    (s s' : Sched) (q : ℕ)
    → IsRunning s
    → q ≢ kt_runq
    → sched_broadcast_on s q ≡ returns s'
    → IsRunning s'
unfolding sched_broadcast_on
sched_broadcast_on-IsRunning s s' q g n e = broadcast-IsRunning (s.queue q).list s s' q g n e

Step-IsRunning : (s s' : Sched) → IsRunning s → Step s s' → IsRunning s'
Step-IsRunning s s' g (sleeps q s1 e h) =
    let same : enqueued (set_state s s.curthr sleep) q s.curthr ≡ s1 =
      returns-injective (enqueued (set_state s s.curthr sleep) q s.curthr) s1
        (sym (sleep_on_lem s q g) ∙ e) in
    sleep_switch-IsRunning s s' sleep q g refl (ap sched_switch same ∙ h)
Step-IsRunning s s' g (sleeps_cancellable q s1 e h) =
    sleep_switch-IsRunning s s' sleep_cancellable q g refl
      (ap sched_switch (sym (cancellable_sleep_lem s s1 q g e)) ∙ h)
Step-IsRunning s s' g (wakes q t n e) = wakeup-IsRunning s s' q t (s.queue q).list g n refl e
Step-IsRunning s s' g (broadcasts q n e) = sched_broadcast_on-IsRunning s s' q g n e
Step-IsRunning s s' g (cancels t q w e) =
    let (u, runs, k, _, _) = sched_cancel_lem s q t g w in
    subst IsRunning (returns-injective u s' (sym runs ∙ e)) k

-- In every state that the running threads reach by sleeping, waking, broadcasting and cancelling,
-- the queues are consistent, whoever is on a wait queue is asleep, and the running thread is on no
-- queue. (Given that this holds of the state they start from, that only wait queues are woken and
-- only threads that wait are cancelled.)
pub Reach-IsRunning : (s s' : Sched) → IsRunning s → Reach s s' → IsRunning s'
Reach-IsRunning s s' g here = g
Reach-IsRunning s s' g (next {t} r x) = Step-IsRunning t s' (Reach-IsRunning s t g r) x
