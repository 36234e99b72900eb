-- ===== src/Proc/Sched/Laws.antt =====
-- Consistent queues of the scheduler, and the operations that take threads off and put them on.
use weenix.Prelude.{
  ℕ, ◌≡◌, ◌≢◌, refl, Bool, true, false, not, Option, none, some, List, [], ◌∷◌, ◌++◌, if◌then◌else◌,
  ◌==◌, length, arith, returns, ◌∙◌,
}
use weenix.Proc.Fifo.{last_of, init_of, count, init-last-append, count-init, length-init}
use weenix.Proc.Sched.{
  KtState, run, Sched, kt_runq, set_state, enqueued, ktqueue_enqueue, unlink_last, dequeue_list,
  ktqueue_dequeue, is_runq, sched_make_runnable, wake_one, broadcast_rounds, sched_broadcast_on,
  set_cancelled,
}

abbrev pub waits_on : Option ℕ → ℕ → Bool
waits_on none q = false
waits_on (some p) q = p == q

-- A thread stands once on the queue of its `kt_wchan` and on no other, and `tq_size` is the length.
pub record IsConsistent (s : Sched) : Type 0 where
  pub placed :
      (t q : ℕ) → count t (s.queue q).list ≡ (if waits_on (s.thread t).wchan q then 1 else 0)
  pub sized : (q : ℕ) → (s.queue q).size ≡ length (s.queue q).list

-- Nothing in the invariant depends on the other fields of a thread.
pub set_state-IsConsistent :
    (s : Sched) (t : ℕ) (x : KtState) → IsConsistent s → IsConsistent (set_state s t x)
set_state-IsConsistent s t x c = record {
  placed = λ u q. ground (arith, c.placed u q);
  sized = c.sized;
}

pub set_cancelled-IsConsistent :
    (s : Sched) (t : ℕ) → IsConsistent s → IsConsistent (set_cancelled s t)
set_cancelled-IsConsistent s t c = record {
  placed = λ u q. ground (arith, c.placed u q);
  sized = c.sized;
}

pub enqueued-IsConsistent :
    (s : Sched) (q t : ℕ)
    → IsConsistent s
    → (s.thread t).wchan ≡ none
    → IsConsistent (enqueued s q t)
enqueued-IsConsistent s q t c w = record {
  placed = λ u p. ground (arith, c.placed u p, c.placed t p);
  sized = λ p. ground (arith, c.sized p);
}

pub ktqueue_enqueue_lem :
    (s : Sched) (q t : ℕ)
    → (s.thread t).wchan ≡ none
    → ktqueue_enqueue s q t ≡ returns (enqueued s q t)
unfolding ktqueue_enqueue
ktqueue_enqueue_lem s q t w = rw w

pub waits_on-eq : (w : Option ℕ) (q : ℕ) → waits_on w q ≡ true → w ≡ some q
waits_on-eq none q h = cc
waits_on-eq (some p) q h = ground arith

-- A thread of the list of a queue waits on that queue.
pub last-wchan :
    (s : Sched) (q x : ℕ) (xs : List ℕ)
    → IsConsistent s
    → (s.queue q).list ≡ x ∷ xs
    → (s.thread (last_of x xs)).wchan ≡ some q
last-wchan s q x xs c e =
    waits_on-eq (s.thread (last_of x xs)).wchan q
      (ground (arith, c.placed (last_of x xs) q, count-init (last_of x xs) x xs))

pub unlink_last-IsConsistent :
    (s : Sched) (q x : ℕ) (xs : List ℕ)
    → IsConsistent s
    → (s.queue q).list ≡ x ∷ xs
    → IsConsistent (unlink_last s q x xs)
unfolding unlink_last
unlink_last-IsConsistent s q x xs c e = record {
  placed = λ u p. ground (arith, c.placed u p, last-wchan s q x xs c e, count-init u x xs);
  sized = λ p. ground (arith, c.sized p, length-init x xs);
}

-- What `sched_make_runnable` makes of a thread that is on no queue.
abbrev pub woken : Sched → ℕ → Sched
woken s t = enqueued (set_state s t run) kt_runq t

pub same_wchan :
    (s : Sched) (t : ℕ) (x : KtState)
    → (s.thread t).wchan ≡ none
    → ((set_state s t x).thread t).wchan ≡ none
same_wchan s t x w = ground arith

pub make_runnable_lem :
    (s : Sched) (t : ℕ)
    → (s.thread t).wchan ≡ none
    → sched_make_runnable s t ≡ returns (enqueued s kt_runq t)
unfolding sched_make_runnable
make_runnable_lem s t w =
    let free : not (is_runq (s.thread t).wchan) ≡ true = ground arith in
    rw free (ktqueue_enqueue_lem s kt_runq t w)

-- Taking the oldest thread off a queue and making it runnable.
abbrev pub moved : Sched → ℕ → ℕ → List ℕ → Sched
moved s q x xs = woken (unlink_last s q x xs) (last_of x xs)

pub unlinked :
    (s : Sched) (q x : ℕ) (xs : List ℕ)
    → ((unlink_last s q x xs).thread (last_of x xs)).wchan ≡ none
unfolding unlink_last
unlinked s q x xs = ground arith

pub moved-IsConsistent :
    (s : Sched) (q x : ℕ) (xs : List ℕ)
    → IsConsistent s
    → (s.queue q).list ≡ x ∷ xs
    → IsConsistent (moved s q x xs)
moved-IsConsistent s q x xs c e =
    let s' = unlink_last s q x xs in
    let t = last_of x xs in
    enqueued-IsConsistent (set_state s' t run) kt_runq t
      (set_state-IsConsistent s' t run (unlink_last-IsConsistent s q x xs c e))
      (same_wchan s' t run (unlinked s q x xs))

pub wake_one_lem :
    (s : Sched) (q x : ℕ) (xs : List ℕ)
    → (s.queue q).list ≡ x ∷ xs
    → wake_one (ktqueue_dequeue s q) ≡ returns (moved s q x xs)
unfolding ktqueue_dequeue
wake_one_lem s q x xs e = rw e (
    unfold dequeue_list wake_one in
    make_runnable_lem (set_state (unlink_last s q x xs) (last_of x xs) run) (last_of x xs)
      (same_wchan (unlink_last s q x xs) (last_of x xs) run (unlinked s q x xs)))

moved-queues :
    (s : Sched) (q x : ℕ) (xs : List ℕ)
    → q ≢ kt_runq
    → (((moved s q x xs).queue q).list ≡ init_of x xs)
      × (((moved s q x xs).queue kt_runq).list ≡ last_of x xs ∷ (s.queue kt_runq).list)
unfolding unlink_last
moved-queues s q x xs n = (ground arith, ground arith)

-- The state of a thread after a broadcast on `q`.
abbrev broadcast_state : Sched → ℕ → ℕ → KtState
broadcast_state s q t = if waits_on (s.thread t).wchan q then run else (s.thread t).state

moved-state :
    (s : Sched) (q x : ℕ) (xs : List ℕ) (t : ℕ)
    → IsConsistent s
    → (s.queue q).list ≡ x ∷ xs
    → q ≢ kt_runq
    → broadcast_state (moved s q x xs) q t ≡ broadcast_state s q t
unfolding unlink_last
moved-state s q x xs t c e n = ground (arith, last-wchan s q x xs c e)

moved-curthr : (s : Sched) (q x : ℕ) (xs : List ℕ) → (moved s q x xs).curthr ≡ s.curthr
unfolding unlink_last
moved-curthr s q x xs = refl

-- What a broadcast on `q` leaves.
pub record Broadcast (s : Sched) (q : ℕ) (s' : Sched) : Type 0 where
  pub consistent : IsConsistent s'
  pub emptied : (s'.queue q).list ≡ []
  pub runnable : (s'.queue kt_runq).list ≡ (s.queue q).list ++ (s.queue kt_runq).list
  pub states :
      (t : ℕ)
      → (s'.thread t).state ≡ (if waits_on (s.thread t).wchan q then run else (s.thread t).state)
  pub current : s'.curthr ≡ s.curthr

pub Broadcast-done : (s : Sched) (q : ℕ) → IsConsistent s → (s.queue q).list ≡ [] → Broadcast s q s
Broadcast-done s q c e = record {
  consistent = c;
  emptied = e;
  runnable = rw e;
  states = λ t. ground (arith, c.placed t q);
  current = refl;
}

broadcast_rounds_lem :
    (rs : List ℕ) (s : Sched) (q : ℕ) (l : List ℕ)
    → IsConsistent s
    → q ≢ kt_runq
    → (s.queue q).list ≡ l
    → length rs ≡ length l
    → (s' : Sched) × (broadcast_rounds rs s q ≡ returns s') × Broadcast s q s'
unfolding broadcast_rounds
broadcast_rounds_lem [] s q [] c n e h = (s, refl, Broadcast-done s q c e)
broadcast_rounds_lem [] s q (x ∷ xs) c n e h = absurd (omega arith)
broadcast_rounds_lem (r ∷ rs) s q [] c n e h = absurd (omega arith)
broadcast_rounds_lem (r ∷ rs) s q (x ∷ xs) c n e h =
    let (left, queued) = moved-queues s q x xs n in
    let (s', runs, b) =
      broadcast_rounds_lem rs (moved s q x xs) q (init_of x xs) (moved-IsConsistent s q x xs c e) n
        left (omega (arith, length-init x xs)) in
    (
      s',
      rw (wake_one_lem s q x xs e) runs,
      record {
        consistent = b.consistent;
        emptied = b.emptied;
        runnable = b.runnable ∙ rw (left, queued, e) (init-last-append x xs (s.queue kt_runq).list);
        states = λ t. b.states t ∙ moved-state s q x xs t c e n;
        current = b.current ∙ moved-curthr s q x xs;
      },
    )

-- `sched_broadcast_on` a wait queue ends. It moves every thread of the queue to the run queue, in
-- the order in which they would have been woken, sets exactly their states to KT_RUN, and keeps
-- the queues consistent. (Given that the queues are consistent.)
pub sched_broadcast_on_lem :
    (s : Sched) (q : ℕ)
    → IsConsistent s
    → q ≢ kt_runq
    → (s' : Sched) × (sched_broadcast_on s q ≡ returns s') × Broadcast s q s'
unfolding sched_broadcast_on
sched_broadcast_on_lem s q c n =
    broadcast_rounds_lem (s.queue q).list s q (s.queue q).list c n refl refl
