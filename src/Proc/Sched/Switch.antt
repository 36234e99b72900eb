-- ===== src/Proc/Sched/Switch.antt =====
-- What `sched_switch` does to the queues.
use mathlib.Core.Option.{some-injective}
use weenix.Prelude.{ℕ, ◌≡◌, ◌≢◌, refl, some, List, [], ◌∷◌, arith, subst}
use weenix.Proc.Fifo.{last_of}
use weenix.Proc.Sched.{
  Sched, kt_runq, unlink_last, dequeue_list, ktqueue_dequeue, run_next, sched_switch,
}

-- Every other queue is as before, and a thread waits on another queue only if it did before.
pub record Switched (s s' : Sched) : Type 0 where
  pub queues : (q : ℕ) → q ≢ kt_runq → s'.queue q ≡ s.queue q
  pub waiting : (t q : ℕ) → q ≢ kt_runq → (s'.thread t).wchan ≡ some q → (s.thread t).wchan ≡ some q

run_next-Switched :
    (s : Sched) (l : List ℕ) (s' : Sched)
    → (s.queue kt_runq).list ≡ l
    → run_next (dequeue_list s kt_runq l) ≡ some s'
    → Switched s s'
unfolding run_next dequeue_list
run_next-Switched s [] s' e h = cc
run_next-Switched s (x ∷ xs) s' e h =
    subst (Switched s)
      (some-injective (record (unlink_last s kt_runq x xs) { curthr = last_of x xs }) s' h)
      (record {
        queues = λ q n. unfold unlink_last in ground arith;
        waiting = λ t q n w. unfold unlink_last in ground arith;
      })

pub sched_switch-Switched : (s s' : Sched) → sched_switch s ≡ some s' → Switched s s'
sched_switch-Switched s s' h =
    run_next-Switched s (s.queue kt_runq).list s' refl (unfold sched_switch ktqueue_dequeue in h)
