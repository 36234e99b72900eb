-- ===== src/Proc/Exit/Laws.antt =====
-- What the exit of the running thread comes to.
use weenix.Prelude.{
  ℕ, ◌≡◌, ◌≢◌, refl, true, some, List, [], ◌∷◌, ◌++◌, if◌then◌else◌, ◌==◌, ltb, arith, Bool-cases,
  inl, inr, append-nil, append_assoc, returns, ap, ◌∙◌,
}
use weenix.Proc.Fifo.{count}
use weenix.Proc.Sched.{exited, Sched, update, kt_runq, set_state, list_empty, sched_queue_empty}
use weenix.Proc.Sched.Laws.{
  set_state-IsConsistent, Broadcast, Broadcast-done, sched_broadcast_on_lem,
}
use weenix.Proc.Sched.Steps.{IsRunning}
use weenix.Proc.Sched.Reach.{sched_broadcast_on-IsRunning}
use weenix.Proc.Table.{Process}
use weenix.Proc.Exit.{adopt, tell_parent, set_retval}

abbrev adopted : (ℕ → Process) → ℕ → ℕ → ℕ → Process
adopted proc init x =
    let proc' = update proc x (record (proc x) { parent = some init }) in
    update proc' init (record (proc' init) { children = (proc' init).children ++ x ∷ [] })

-- The parents after the loop: init for every process of the list.
pub adopt-parent :
    (proc : ℕ → Process) (init : ℕ) (xs : List ℕ) (y : ℕ)
    → count init xs ≡ 0
    → (adopt proc init xs y).parent ≡ (if ltb 0 (count y xs) then some init else (proc y).parent)
unfolding adopt
adopt-parent proc init [] y e = refl
adopt-parent proc init (x ∷ xs) y e =
    ground (arith, adopt-parent (adopted proc init x) init xs y (ground arith))

-- Nothing else changes but the children of init.
pub adopt-rest :
    (proc : ℕ → Process) (init : ℕ) (xs : List ℕ) (y : ℕ)
    → count init xs ≡ 0
    → ((adopt proc init xs y).pid ≡ (proc y).pid)
      × ((adopt proc init xs y).status ≡ (proc y).status)
      × ((adopt proc init xs y).dead ≡ (proc y).dead)
      × ((adopt proc init xs y).children
          ≡ (if init == y then (proc y).children ++ xs else (proc y).children))
unfolding adopt
adopt-rest proc init [] y e = (refl, refl, refl, ground (arith, append-nil (proc y).children))
adopt-rest proc init (x ∷ xs) y e =
    let r = adopt-rest (adopted proc init x) init xs y (ground arith) in
    (
      ground (arith, r.0),
      ground (arith, r.1),
      ground (arith, r.2),
      ground (arith, r.3, append_assoc (proc y).children (x ∷ []) xs),
    )

-- A running thread that has exited.
pub ended-IsRunning :
    (s : Sched) (retval : ℕ)
    → IsRunning s
    → IsRunning (set_state (set_retval s s.curthr retval) s.curthr exited)
ended-IsRunning s retval g = record {
  consistent = record {
    placed = λ t q. ground (arith, g.consistent.placed t q);
    sized = g.consistent.sized;
  };
  asleep = λ t q e n. ground (arith, g.asleep t q, g.current);
  current = ground (arith, g.current);
}

still-IsRunning : (s : Sched) → IsRunning s → IsRunning (set_state s s.curthr exited)
still-IsRunning s g = record {
  consistent = set_state-IsConsistent s s.curthr exited g.consistent;
  asleep = λ t q e n. ground (arith, g.asleep t q, g.current);
  current = ground (arith, g.current);
}

still-Broadcast :
    (s u : Sched) (q : ℕ)
    → (u.thread u.curthr).state ≡ exited
    → Broadcast s q u
    → Broadcast s q (set_state u u.curthr exited)
still-Broadcast s u q e b = record {
  consistent = set_state-IsConsistent u u.curthr exited b.consistent;
  emptied = b.emptied;
  runnable = b.runnable;
  states = λ t. ground (arith, b.states t);
  current = b.current;
}

empty_list : (l : List ℕ) → list_empty l ≡ true → l ≡ []
empty_list [] e = refl
empty_list (x ∷ xs) e = cc

pub tell_parent_lem :
    (s : Sched) (q : ℕ)
    → IsRunning s
    → q ≢ kt_runq
    → (s.thread s.curthr).state ≡ exited
    → (u : Sched) × (tell_parent s q ≡ returns u) × IsRunning u × Broadcast s q u
unfolding tell_parent
tell_parent_lem s q g n e = elim (Bool-cases (sched_queue_empty s q)) [
  | inl h ↦ (
    s,
    rw h refl,
    g,
    Broadcast-done s q g.consistent (empty_list (s.queue q).list (unfold sched_queue_empty in h)),
  )
  | inr h ↦
      let (u, runs, b) = sched_broadcast_on_lem s q g.consistent n in
      let g' = sched_broadcast_on-IsRunning s u q g n runs in
      let alive : (u.thread u.curthr).state ≡ exited =
        ap (λ t. (u.thread t).state) b.current ∙ ground (arith, b.states s.curthr, g.current) in
      (
        set_state u u.curthr exited,
        rw (h, runs) refl,
        still-IsRunning u g',
        still-Broadcast s u q alive b,
      )
]
