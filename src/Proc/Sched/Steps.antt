-- ===== src/Proc/Sched/Steps.antt =====
-- The invariant of a running scheduler, and the operations of the running thread under it.
use weenix.Prelude.{
  ℕ, ◌≡◌, ◌≢◌, refl, inl, inr, true, none, some, List, [], ◌∷◌, ◌++◌, if◌then◌else◌, arith,
  Bool-cases, returns, subst,
}
use mathlib.Core.Option.{some-injective}
use weenix.Proc.Fifo.{last_of, init-last, count, count-remove, length-remove}
use weenix.Proc.Sched.{
  KtState, run, Sched, kt_runq, set_state, enqueued, removed, unlink_last, dequeue_list,
  ktqueue_dequeue, ktqueue_remove, is_asleep, wake, sched_wakeup_on, set_cancelled, is_cancellable,
  sched_cancel, run_next, sched_switch,
}
use weenix.Proc.Sched.Laws.{
  IsConsistent, set_state-IsConsistent, set_cancelled-IsConsistent, enqueued-IsConsistent,
  unlink_last-IsConsistent, last-wchan, make_runnable_lem, moved, moved-IsConsistent, unlinked,
  same_wchan,
}

-- The queues are consistent, whoever is on a wait queue is asleep, and the running thread is on no
-- queue.
pub record IsRunning (s : Sched) : Type 0 where
  pub consistent : IsConsistent s
  pub asleep :
      (t q : ℕ) → (s.thread t).wchan ≡ some q → q ≢ kt_runq → is_asleep (s.thread t).state ≡ true
  pub current : (s.thread s.curthr).wchan ≡ none

-- The same without its last part, between a sleep and the switch.
record IsQuiet (s : Sched) : Type 0 where
  consistent : IsConsistent s
  asleep :
      (t q : ℕ) → (s.thread t).wchan ≡ some q → q ≢ kt_runq → is_asleep (s.thread t).state ≡ true

sleep_state :
    (s : Sched) (x : KtState)
    → IsRunning s
    → is_asleep x ≡ true
    → (q : ℕ) → IsQuiet (enqueued (set_state s s.curthr x) q s.curthr)
sleep_state s x g h q = record {
  consistent =
      enqueued-IsConsistent (set_state s s.curthr x) q s.curthr
        (set_state-IsConsistent s s.curthr x g.consistent) (same_wchan s s.curthr x g.current);
  asleep = λ t p e n. ground (arith, g.asleep t p, h);
}

switched-IsConsistent :
    (s : Sched) (x : ℕ) (xs : List ℕ)
    → IsConsistent s
    → (s.queue kt_runq).list ≡ x ∷ xs
    → IsConsistent (record (unlink_last s kt_runq x xs) { curthr = last_of x xs })
switched-IsConsistent s x xs c e =
    let c' = unlink_last-IsConsistent s kt_runq x xs c e in
    record { placed = c'.placed; sized = c'.sized }

switch-IsRunning :
    (s : Sched) (l : List ℕ) (s' : Sched)
    → IsQuiet s
    → (s.queue kt_runq).list ≡ l
    → run_next (dequeue_list s kt_runq l) ≡ some s'
    → IsRunning s'
unfolding run_next dequeue_list
switch-IsRunning s [] s' g e h = cc
switch-IsRunning s (x ∷ xs) s' g e h =
    subst IsRunning
      (some-injective (record (unlink_last s kt_runq x xs) { curthr = last_of x xs }) s' h)
      (record {
        consistent = switched-IsConsistent s x xs g.consistent e;
        asleep = λ t q w n. unfold unlink_last in ground (arith, g.asleep t q);
        current = unlinked s kt_runq x xs;
      })

-- A sleep on any queue and the switch that follows it.
pub sleep_switch-IsRunning :
    (s s' : Sched) (x : KtState) (q : ℕ)
    → IsRunning s
    → is_asleep x ≡ true
    → sched_switch (enqueued (set_state s s.curthr x) q s.curthr) ≡ some s'
    → IsRunning s'
sleep_switch-IsRunning s s' x q g h e =
    let s1 = enqueued (set_state s s.curthr x) q s.curthr in
    switch-IsRunning s1 (s1.queue kt_runq).list s' (sleep_state s x g h q) refl
      (unfold sched_switch ktqueue_dequeue in e)

removed-IsConsistent :
    (s : Sched) (q t : ℕ)
    → IsConsistent s
    → (s.thread t).wchan ≡ some q
    → IsConsistent (removed s q t)
removed-IsConsistent s q t c w =
    let one : count t (s.queue q).list ≡ 1 = ground (arith, c.placed t q) in
    record {
      placed = λ u p. ground (arith, c.placed u p, count-remove u t (s.queue q).list one);
      sized = λ p. ground (arith, c.sized p, length-remove t (s.queue q).list one);
    }

-- What `sched_cancel` leaves of a thread in a cancellable sleep.
abbrev cancelled_state : Sched → ℕ → ℕ → Sched
cancelled_state s q t = enqueued (removed (set_cancelled s t) q t) kt_runq t

sched_cancel_wakes :
    (s : Sched) (q t : ℕ)
    → (s.thread t).wchan ≡ some q
    → is_cancellable (s.thread t).state ≡ true
    → sched_cancel s t ≡ returns (cancelled_state s q t)
sched_cancel_wakes s q t w h =
    unfold sched_cancel ktqueue_remove in
    rw (h, w) (ground (arith, make_runnable_lem (removed (set_cancelled s t) q t) t))

-- `sched_cancel` of a thread that is on a queue returns and keeps the scheduler right, whatever
-- the thread waits for; the thread is flagged, and it is on the run queue if its sleep was
-- cancellable. (Given that the scheduler was right: consistent queues, everyone on a wait queue
-- asleep, the running thread on none.)
pub sched_cancel_lem :
    (s : Sched) (q t : ℕ)
    → IsRunning s
    → (s.thread t).wchan ≡ some q
    → (s' : Sched) × (sched_cancel s t ≡ returns s')
      × IsRunning s'
      × ((s'.thread t).cancelled ≡ true)
      × ((s'.thread t).wchan ≡ (if is_cancellable (s.thread t).state then some kt_runq else some q))
sched_cancel_lem s q t g w = elim (Bool-cases (is_cancellable (s.thread t).state)) [
  | inl h ↦ (
    cancelled_state s q t,
    sched_cancel_wakes s q t w h,
    record {
      consistent =
          enqueued-IsConsistent (removed (set_cancelled s t) q t) kt_runq t
            (removed-IsConsistent (set_cancelled s t) q t
              (set_cancelled-IsConsistent s t g.consistent) (ground arith))
            (ground arith);
      asleep = λ u p e n. ground (arith, g.asleep u p);
      current = ground (arith, g.current);
    },
    ground arith,
    rw h (ground arith),
  )
  | inr h ↦ (
    set_cancelled s t,
    unfold sched_cancel in rw h,
    record {
      consistent = set_cancelled-IsConsistent s t g.consistent;
      asleep = λ u p e n. ground (arith, g.asleep u p);
      current = ground (arith, g.current);
    },
    ground arith,
    rw h (ground arith),
  )
]

pub wake_lem :
    (s : Sched) (q x : ℕ) (xs : List ℕ)
    → IsRunning s
    → q ≢ kt_runq
    → (s.queue q).list ≡ x ∷ xs
    → sched_wakeup_on s q ≡ returns (some (last_of x xs), moved s q x xs)
wake_lem s q x xs g n e =
    unfold sched_wakeup_on ktqueue_dequeue in
    rw e (
      unfold dequeue_list wake in
      let t = last_of x xs in
      let s' = unlink_last s q x xs in
      let awake : is_asleep (s'.thread t).state ≡ true =
        unfold unlink_last in ground (arith, g.asleep t q, last-wchan s q x xs g.consistent e) in
      rw
        (awake, make_runnable_lem (set_state s' t run) t (same_wchan s' t run (unlinked s q x xs))))

pub moved-IsRunning :
    (s : Sched) (q x : ℕ) (xs : List ℕ)
    → IsRunning s
    → q ≢ kt_runq
    → (s.queue q).list ≡ x ∷ xs
    → IsRunning (moved s q x xs)
moved-IsRunning s q x xs g n e = record {
  consistent = moved-IsConsistent s q x xs g.consistent e;
  asleep = λ t p w m. unfold unlink_last in ground (arith, g.asleep t p);
  current = unfold unlink_last in ground (arith, g.current, last-wchan s q x xs g.consistent e);
}

-- `sched_wakeup_on` a wait queue with threads returns the one that has slept longest, keeps the
-- scheduler right, and leaves that thread in the state KT_RUN on the run queue; the others stay.
-- (Given that the queues are consistent, whoever is on a wait queue is asleep, and the running
-- thread is on no queue.)
pub sched_wakeup_on_lem :
    (s : Sched) (q x : ℕ) (xs : List ℕ)
    → IsRunning s
    → q ≢ kt_runq
    → (s.queue q).list ≡ x ∷ xs
    → (t : ℕ) × (s' : Sched) × (sched_wakeup_on s q ≡ returns (some t, s'))
      × IsRunning s'
      × ((s.queue q).list ≡ (s'.queue q).list ++ t ∷ [])
      × ((s'.thread t).state ≡ run)
      × ((s'.thread t).wchan ≡ some kt_runq)
sched_wakeup_on_lem s q x xs g n e = (
  last_of x xs,
  moved s q x xs,
  wake_lem s q x xs g n e,
  moved-IsRunning s q x xs g n e,
  unfold unlink_last in ground (arith, init-last x xs),
  unfold unlink_last in ground arith,
  unfold unlink_last in ground arith,
)
