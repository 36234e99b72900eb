-- ===== src/Proc/Kmutex/Steps.antt =====
-- The threads that use a mutex as a system of steps.
use weenix.Prelude.{
  ℕ, ◌≡◌, ◌≢◌, refl, true, none, some, ◌==◌, arith, Exec, returns, panics, ◌>>=◌, Ret, done, fails,
  Bool-cases, inl, inr, subst, sym, ◌∙◌, ap,
}
use weenix.Proc.Sched.{
  KtState, Sched, set_state, enqueued, is_asleep, sleep, sleep_cancellable, sched_switch,
  sched_sleep_on, sched_cancellable_sleep_on,
}
use weenix.Proc.Sched.Steps.{sleep_switch-IsRunning}
use weenix.Proc.Sched.Switch.{sched_switch-Switched}
use weenix.Proc.Sched.Reach.{sleep_on_lem, cancellable_sleep_lem, returns-injective}
use weenix.Proc.Kmutex.{
  Kmutex, kmutex_lock, kmutex_lock_cancellable, kmutex_unlock, take_lock, slept,
}
use weenix.Proc.Kmutex.Owner.{IsOwned, kmutex_unlock-IsOwned}

-- A sleep on the queue of the mutex, while another thread holds it, or on another queue.
sleep-IsOwned :
    (s s' : Sched) (m : Kmutex) (x : KtState) (q : ℕ)
    → IsOwned s m
    → is_asleep x ≡ true
    → (q ≡ m.waitq → (h : ℕ) × (m.holder ≡ some h) × (h ≢ s.curthr))
    → sched_switch (enqueued (set_state s s.curthr x) q s.curthr) ≡ some s'
    → IsOwned s' m
sleep-IsOwned s s' m x q g a held e =
    let w = sched_switch-Switched (enqueued (set_state s s.curthr x) q s.curthr) s' e in
    record {
      running = sleep_switch-IsRunning s s' x q g.running a e;
      waits = g.waits;
      free = λ n. ground (arith, w.queues m.waitq g.waits, g.free n, held);
      awake = λ t h b. ground (arith, w.waiting t m.waitq g.waits b, g.awake t h, held);
    }

-- The running thread takes the mutex, waits for it, gives it back, or sleeps on another queue. A
-- call that sleeps is a step together with the switch.
pub data MutexStep (s : Sched) (m : Kmutex) (s' : Sched) (m' : Kmutex) : Type 0 where
  takes : m.holder ≡ none → kmutex_lock s m ≡ returns (m', s') → MutexStep s m s' m'
  takes_cancellable :
      m.holder ≡ none → kmutex_lock_cancellable s m ≡ returns (done (m', s')) → MutexStep s m s' m'
  waits :
      (s1 : Sched) (h : ℕ)
      → m.holder ≡ some h
      → kmutex_lock s m ≡ returns (m', s1)
      → sched_switch s1 ≡ some s'
      → MutexStep s m s' m'
  waits_cancellable :
      (s1 : Sched) (h : ℕ)
      → m.holder ≡ some h
      → kmutex_lock_cancellable s m ≡ returns (done (m', s1))
      → sched_switch s1 ≡ some s'
      → MutexStep s m s' m'
  unlocks : m.holder ≡ some s.curthr → kmutex_unlock s m ≡ returns (m', s') → MutexStep s m s' m'
  sleeps :
      (q : ℕ) (s1 : Sched)
      → q ≢ m.waitq
      → m' ≡ m
      → sched_sleep_on s q ≡ returns s1
      → sched_switch s1 ≡ some s'
      → MutexStep s m s' m'

pub data MutexReach (s : Sched) (m : Kmutex) : Sched → Kmutex → Type 0 where
  here : MutexReach s m s m
  next : {t u : Sched} {n k : Kmutex} → MutexReach s m t n → MutexStep t n u k → MutexReach s m u k

take-IsOwned : (s : Sched) (m : Kmutex) → IsOwned s m → m.holder ≡ none → IsOwned s (take_lock s m)
take-IsOwned s m g h = record {
  running = g.running;
  waits = g.waits;
  free = λ e. cc;
  awake = λ t e. ground (arith, g.running.current);
}

lock_none :
    (s : Sched) (m : Kmutex) → m.holder ≡ none → kmutex_lock s m ≡ returns (take_lock s m, s)
lock_none s m h = unfold kmutex_lock in rw h refl

lock_cancellable_none :
    (s : Sched) (m : Kmutex)
    → m.holder ≡ none
    → kmutex_lock_cancellable s m ≡ returns (done (take_lock s m, s))
lock_cancellable_none s m h = unfold kmutex_lock_cancellable in rw h refl

done_injective : (a b : Kmutex × Sched) → done a ≡ done b → a ≡ b
done_injective a b e = cc

returns-pair :
    (a b : Kmutex) (c d : Sched)
    → ◌≡◌ {A = Exec (Kmutex × Sched)} (returns (a, c)) (returns (b, d))
    → (a ≡ b) × (c ≡ d)
returns-pair a b c d e =
    let p : ◌≡◌ {A = Kmutex × Sched} (a, c) (b, d) = returns-injective (a, c) (b, d) e in
    (ap (λ x. x.0) p, ap (λ x. x.1) p)

done-pair :
    (a b : Kmutex) (c d : Sched)
    → ◌≡◌ {A = Exec (Ret (Kmutex × Sched))} (returns (done (a, c))) (returns (done (b, d)))
    → (a ≡ b) × (c ≡ d)
done-pair a b c d e =
    let p : ◌≡◌ {A = Kmutex × Sched} (a, c) (b, d) =
      done_injective (a, c) (b, d) (returns-injective (done (a, c)) (done (b, d)) e) in
    (ap (λ x. x.0) p, ap (λ x. x.1) p)

-- A lock of a mutex that is held returns only if the caller is not the holder.
lock_held :
    (s s1 : Sched) (m m' : Kmutex) (h : ℕ)
    → IsOwned s m
    → m.holder ≡ some h
    → kmutex_lock s m ≡ returns (m', s1)
    → (h ≢ s.curthr) × (m ≡ m') × (enqueued (set_state s s.curthr sleep) m.waitq s.curthr ≡ s1)
lock_held s s1 m m' h g e r = elim (Bool-cases (h == s.curthr)) [
  | inl t ↦ absurd (
      let stops : kmutex_lock s m ≡ panics = unfold kmutex_lock in rw (e, t) refl in
      let none' : panics ≡ returns (m', s1) = sym stops ∙ r in cc)
  | inr t ↦
      let s2 = enqueued (set_state s s.curthr sleep) m.waitq s.curthr in
      let runs : kmutex_lock s m ≡ returns (m, s2) =
        unfold kmutex_lock in
        rw (e, t, sleep_on_lem s m.waitq g.running)
          (ap (λ x. returns (record m { holder = x }, s2)) e) in
      let (p, q) = returns-pair m m' s2 s1 (sym runs ∙ r) in (ground arith, p, q)
]

slept_held :
    (s s1 : Sched) (m m' : Kmutex) (x : Exec (Ret Sched))
    → sched_cancellable_sleep_on s m.waitq ≡ x
    → (x >>= λ r. returns (slept m r)) ≡ returns (done (m', s1))
    → (m ≡ m') × (sched_cancellable_sleep_on s m.waitq ≡ returns (done s1))
slept_held s s1 m m' panics e h = cc
slept_held s s1 m m' (returns (fails y)) e h = cc
slept_held s s1 m m' (returns (done u)) e h =
    let (a, b) = done-pair m m' u s1 h in (a, e ∙ ap (λ v. returns (done v)) b)

lock_cancellable_held :
    (s s1 : Sched) (m m' : Kmutex) (h : ℕ)
    → IsOwned s m
    → m.holder ≡ some h
    → kmutex_lock_cancellable s m ≡ returns (done (m', s1))
    → (h ≢ s.curthr)
      × (m ≡ m')
      × (enqueued (set_state s s.curthr sleep_cancellable) m.waitq s.curthr ≡ s1)
lock_cancellable_held s s1 m m' h g e r = elim (Bool-cases (h == s.curthr)) [
  | inl t ↦ absurd (
      let stops : kmutex_lock_cancellable s m ≡ panics =
        unfold kmutex_lock_cancellable in rw (e, t) refl in
      let none' : panics ≡ returns (done (m', s1)) = sym stops ∙ r in cc)
  | inr t ↦
      let runs : kmutex_lock_cancellable s m
          ≡ (sched_cancellable_sleep_on s m.waitq >>= λ u. returns (slept m u)) =
        unfold kmutex_lock_cancellable in
        rw (e, t)
          (ap
            (λ x.
              (sched_cancellable_sleep_on s m.waitq >>= λ u.
              returns (slept (record m { holder = x }) u)))
            e) in
      let (a, b) =
        slept_held s s1 m m' (sched_cancellable_sleep_on s m.waitq) refl (sym runs ∙ r) in
      (ground arith, a, sym (cancellable_sleep_lem s s1 m.waitq g.running b))
]

MutexStep-IsOwned :
    (s s' : Sched) (m m' : Kmutex) → IsOwned s m → MutexStep s m s' m' → IsOwned s' m'
MutexStep-IsOwned s s' m m' g (takes h e) =
    let (a, b) = returns-pair (take_lock s m) m' s s' (sym (lock_none s m h) ∙ e) in
    subst (λ u. IsOwned u m') b (subst (IsOwned s) a (take-IsOwned s m g h))
MutexStep-IsOwned s s' m m' g (takes_cancellable h e) =
    let (a, b) = done-pair (take_lock s m) m' s s' (sym (lock_cancellable_none s m h) ∙ e) in
    subst (λ u. IsOwned u m') b (subst (IsOwned s) a (take-IsOwned s m g h))
MutexStep-IsOwned s s' m m' g (waits s1 h e r w) =
    let (n, a, b) = lock_held s s1 m m' h g e r in
    subst (IsOwned s') a
      (sleep-IsOwned s s' m sleep m.waitq g refl (λ _. (h, e, n)) (ap sched_switch b ∙ w))
MutexStep-IsOwned s s' m m' g (waits_cancellable s1 h e r w) =
    let (n, a, b) = lock_cancellable_held s s1 m m' h g e r in
    subst (IsOwned s') a (
      sleep-IsOwned s s' m sleep_cancellable m.waitq g refl (λ _. (h, e, n))
        (ap sched_switch b ∙ w))
MutexStep-IsOwned s s' m m' g (unlocks h e) =
    let (n, u, runs, k) = kmutex_unlock-IsOwned s m g h in
    let (a, b) = returns-pair n m' u s' (sym runs ∙ e) in
    subst (λ t. IsOwned t m') b (subst (IsOwned u) a k)
MutexStep-IsOwned s s' m m' g (sleeps q s1 n a r w) =
    let b =
      returns-injective (enqueued (set_state s s.curthr sleep) q s.curthr) s1
        (sym (sleep_on_lem s q g.running) ∙ r) in
    subst (IsOwned s') (sym a)
      (sleep-IsOwned s s' m sleep q g refl (λ e. absurd (n e)) (ap sched_switch b ∙ w))

-- In every state that the threads reach by taking a mutex, waiting for it, giving it back, and
-- sleeping on other queues: nobody waits for the mutex while it is free, its holder does not wait
-- for it, and the scheduler is right. (Given that this holds of the state they start from, and
-- that the wait queue is not the run queue.)
pub MutexReach-IsOwned :
    (s : Sched) (m : Kmutex) (s' : Sched) (m' : Kmutex)
    → IsOwned s m
    → MutexReach s m s' m'
    → IsOwned s' m'
MutexReach-IsOwned s m s' m' g here = g
MutexReach-IsOwned s m s' m' g (next {t} {u} {n} {k} r x) =
    MutexStep-IsOwned t s' n m' (MutexReach-IsOwned s m t n g r) x
