-- ===== src/Proc/Exit/Ends.antt =====
-- kthread_exit and do_exit of the running thread, and the wait of the parent for it.
use weenix.Prelude.{
  ℕ, ◌+◌, ◌≤◌, ◌<◌, ◌≡◌, ◌≢◌, refl, Bool, true, false, Option, none, some, List, [], ◌∷◌, ◌++◌,
  if◌then◌else◌, ◌==◌, arith, Bool-cases, inl, inr, Exec, returns, ◌>>=◌, ◌>>◌, kassert, deref,
  is_none, sym, subst, ◌⊎◌, ap, ◌∙◌, All,
}
use weenix.Proc.Fifo.{count, count-append}
use weenix.Proc.Sched.{exited, run, Sched, kt_runq, set_state, list_empty}
use weenix.Proc.Sched.Laws.{waits_on, Broadcast}
use weenix.Proc.Sched.Steps.{IsRunning}
use weenix.Proc.Table.{Table}
use weenix.Proc.Table.Wait.{IsLinked, Reaps, any, do_waitpid, do_waitpid-any}
use weenix.Proc.Exit.{
  Release, file_put, vnode_put, vmmap_destroy, Kernel, put_files, no_files, put_cwd, released_all,
  buried, orphaned, tell_parent, is_exited, is_child_pid, proc_cleanup, set_retval, same_proc,
  kthread_exit, switches, kthread_cancel, cancel_threads, do_exit,
}
use weenix.Proc.Exit.Laws.{adopt-parent, adopt-rest, ended-IsRunning, tell_parent_lem}

-- The running thread belongs to the process `c`, which has the parent `parent` and is neither the idle
-- process nor init, nor among its own children.
pub record CanExit (s : Kernel) (c init parent : ℕ) : Type 0 where
  pub current : s.table.curproc ≡ some c
  pub initial : s.table.initproc ≡ some init
  pub child : (s.table.proc c).parent ≡ some parent
  pub numbered : is_child_pid (s.table.proc c).pid ≡ true
  pub owner : s.kt_proc s.sched.curthr ≡ some c
  pub right : IsRunning s.sched
  pub queue : s.p_wait parent ≢ kt_runq
  pub elder : c ≢ init
  pub no_loop : count c (s.table.proc c).children ≡ 0
  pub no_init : count init (s.table.proc c).children ≡ 0

-- How often a file is put, and how often it is open.
abbrev pub puts : ℕ → List Release → ℕ
puts f [] = 0
puts f (file_put g ∷ rs) = (if g == f then 1 else 0) + puts f rs
puts f (vnode_put v ∷ rs) = puts f rs
puts f (vmmap_destroy c ∷ rs) = puts f rs

abbrev pub held : ℕ → List (Option ℕ) → ℕ
held f [] = 0
held f (none ∷ fs) = held f fs
held f (some g ∷ fs) = (if g == f then 1 else 0) + held f fs

puts-files :
    (f : ℕ) (fs : List (Option ℕ)) (rs : List Release)
    → puts f (put_files fs rs) ≡ held f fs + puts f rs
unfolding put_files
puts-files f [] rs = omega arith
puts-files f (none ∷ fs) rs = puts-files f fs rs
puts-files f (some g ∷ fs) rs = omega (arith, puts-files f fs (file_put g ∷ rs))

puts-cwd : (f : ℕ) (v : Option ℕ) (rs : List Release) → puts f (put_cwd v rs) ≡ puts f rs
puts-cwd f none rs = refl
puts-cwd f (some v) rs = refl

no_files-none : (fs : List (Option ℕ)) → All (λ f. f ≡ none) (no_files fs)
unfolding no_files
no_files-none [] = tt
no_files-none (f ∷ fs) = (refl, no_files-none fs)

-- The process is dead with the status, its children are those of init, it has no open files and each
-- was put as often as it was open; the threads that waited on `p_wait` of the parent are in the state
-- KT_RUN, the thread has exited, no other thread has changed its state, and the scheduler is right.
pub record Ended (s s' : Kernel) (c init parent code : ℕ) : Type 0 where
  pub dead : (s'.table.proc c).dead ≡ true
  pub status : (s'.table.proc c).status ≡ code
  pub adopted :
      (p : ℕ) → 0 < count p (s.table.proc c).children → (s'.table.proc p).parent ≡ some init
  pub family :
      (s'.table.proc init).children ≡ (s.table.proc init).children ++ (s.table.proc c).children
  pub others : (p : ℕ) → p ≢ init → (s'.table.proc p).children ≡ (s.table.proc p).children
  pub alive : (p : ℕ) → p ≢ c → (s'.table.proc p).dead ≡ (s.table.proc p).dead
  pub listed : s'.table.plist ≡ s.table.plist
  pub closed : All (λ f. f ≡ none) (s'.files c)
  pub balance : (f : ℕ) → puts f s'.released ≡ held f (s.files c) + puts f s.released
  pub finished : (s'.sched.thread s.sched.curthr).state ≡ exited
  pub states :
      (t : ℕ)
      → t ≢ s.sched.curthr
      → (s'.sched.thread t).state ≡ (
          if waits_on (s.sched.thread t).wchan (s.p_wait parent)
          then run
          else (s.sched.thread t).state)
  pub right : IsRunning s'.sched

abbrev after : Kernel → ℕ → ℕ → ℕ → Kernel
after s c init status = released_all (orphaned (buried s c status) c init) c

cleanup_steps :
    (s : Kernel) (c init parent status : ℕ) (u : Sched)
    → s.table.curproc ≡ some c
    → s.table.initproc ≡ some init
    → (s.table.proc c).parent ≡ some parent
    → is_child_pid (s.table.proc c).pid ≡ true
    → tell_parent s.sched (s.p_wait parent) ≡ returns u
    → is_exited (u.thread u.curthr).state ≡ true
    → proc_cleanup s status ≡ returns (record (after s c init status) { sched = u })
unfolding proc_cleanup
cleanup_steps s c init parent status u cur first child numbered told e =
    rw (first, cur, child, numbered, told, e) refl

files_closed : (s : Kernel) (c : ℕ) → All (λ f. f ≡ none) ((released_all s c).files c)
files_closed s c = let same : (c == c) ≡ true = ground arith in rw same (no_files-none (s.files c))

after-Ended :
    (s : Kernel) (c init parent status : ℕ) (u : Sched)
    → CanExit s c init parent
    → IsRunning u
    → Broadcast
        (set_state (set_retval s.sched s.sched.curthr status) s.sched.curthr exited)
        (s.p_wait parent)
        u
    → Ended s (record (after s c init status) { sched = u }) c init parent status
after-Ended s c init parent status u h right told =
    let proc = (buried s c status).table.proc in
    let kids = (proc c).children in
    let same : kids ≡ (s.table.proc c).children = ground arith in
    let no : count init kids ≡ 0 = ap (count init) same ∙ h.no_init in
    let r = λ (y : ℕ). adopt-rest proc init kids y no in
    record {
      dead = ground (arith, r c);
      status = ground (arith, r c);
      adopted = λ p l. ground (arith, adopt-parent proc init kids p no, ap (count p) same);
      family = ground (arith, r init, h.elder);
      others = λ p n. ground (arith, r p);
      alive = λ p n. ground (arith, r p);
      listed = refl;
      closed = files_closed s c;
      balance = λ f.
          puts-files f (s.files c) (put_cwd (s.cwd c) s.released)
          ∙ ap (λ n. held f (s.files c) + n) (puts-cwd f (s.cwd c) s.released);
      finished = ground (arith, told.states s.sched.curthr, h.right.current);
      states = λ t n. ground (arith, told.states t);
      right = right;
    }

-- What kthread_exit does first.
abbrev ended : Kernel → ℕ → Kernel
ended s retval = record s {
  sched = set_state (set_retval s.sched s.sched.curthr retval) s.sched.curthr exited;
}

asserted :
    (a b : Bool) (k : Exec Kernel) → a ≡ true → b ≡ true → (kassert a >> (kassert b >> k)) ≡ k
asserted a b k h e = rw (h, e) refl

exit_steps :
    (s t : Kernel) (c retval : ℕ)
    → s.table.curproc ≡ some c
    → s.kt_proc s.sched.curthr ≡ some c
    → (s.sched.thread s.sched.curthr).wchan ≡ none
    → proc_cleanup (ended s retval) retval ≡ returns t
    → kthread_exit s retval ≡ returns t
unfolding kthread_exit
exit_steps s t c retval cur own w runs =
    asserted (is_none (s.sched.thread s.sched.curthr).wchan)
      (same_proc (s.kt_proc s.sched.curthr) s.table.curproc) (proc_cleanup (ended s retval) retval)
      (ap is_none w) (rw (own, cur) (ground arith))
    ∙ runs

-- `kthread_exit` of the thread that runs, of a process with a parent that is neither the idle process
-- nor init: no KASSERT fails up to the switch to another thread. Then the process is dead with the
-- status, its children are children of init, each of its open files has been put as often as it was
-- open, every thread that waited for a child of the parent is in the state KT_RUN, no other thread has
-- changed its state, and the scheduler is right. (Given a right scheduler, that the queue of the parent
-- is not the run queue, and that neither the process nor init is among its children.)
pub kthread_exit-Ended :
    (s : Kernel) (c init parent retval : ℕ)
    → CanExit s c init parent
    → (t : Kernel) × (kthread_exit s retval ≡ returns t) × Ended s t c init parent retval
kthread_exit-Ended s c init parent retval h =
    let me = s.sched.curthr in
    let s1 = set_state (set_retval s.sched me retval) me exited in
    let (u, told, right, b) =
      tell_parent_lem s1 (s.p_wait parent) (ended-IsRunning s.sched retval h.right) h.queue
        (ground arith) in
    let gone : (u.thread u.curthr).state ≡ exited =
      ap (λ t. (u.thread t).state) b.current ∙ ground (arith, b.states me, h.right.current) in
    (
      record (after s c init retval) { sched = u },
      exit_steps s (record (after s c init retval) { sched = u }) c retval h.current h.owner
          h.right.current
          (cleanup_steps (record s { sched = s1 }) c init parent retval u h.current h.initial
            h.child h.numbered told (ground arith)),
      after-Ended s c init parent retval u h right b,
    )

cancel_self :
    (s t : Kernel) (code : ℕ)
    → kthread_exit s code ≡ returns t
    → cancel_threads (s.sched.curthr ∷ []) code s ≡ returns (switches t)
unfolding cancel_threads kthread_cancel
cancel_self s t code runs =
    let same : (s.sched.curthr == s.sched.curthr) ≡ true = ground arith in rw (same, runs) refl

deref-some :
    {A : Type 0} (x : Option ℕ) (c : ℕ) (f : ℕ → Exec A) → x ≡ some c → (deref x >>= f) ≡ f c
deref-some x c f e = rw e refl

-- `do_exit` of a process with one thread, the one that runs, under the same conditions: it switches to
-- another thread, and leaves what `kthread_exit` leaves.
pub do_exit-Ended :
    (s : Kernel) (c init parent code : ℕ)
    → CanExit s c init parent
    → s.threads c ≡ s.sched.curthr ∷ []
    → (t : Kernel) × (do_exit s code ≡ returns (switches t)) × Ended s t c init parent code
unfolding do_exit
do_exit-Ended s c init parent code h one =
    let (t, runs, ended) = kthread_exit-Ended s c init parent code h in
    (
      t,
      deref-some s.table.curproc c (λ x. cancel_threads (s.threads x) code s) h.current
          ∙ ap (λ l. cancel_threads l code s) one
          ∙ cancel_self s t code runs,
      ended,
    )

-- The children of the parent and of the process are distinct, each stands once on `_proc_list`, and the
-- process is one of the former.
pub record IsFamily (s : Table) (c parent : ℕ) : Type 0 where
  pub single : (p : ℕ) → count p (s.proc parent).children + count p (s.proc c).children ≤ 1
  pub listed :
      (p : ℕ)
      → count p (s.proc parent).children + count p (s.proc c).children ≡ 1
      → count p s.plist ≡ 1
  pub own : 0 < count c (s.proc parent).children

-- The table when the parent runs.
abbrev pub when_runs : Table → ℕ → Table
when_runs s p = record s { curproc = some p }

Ended-children :
    (s t : Kernel) (c init parent code p : ℕ)
    → Ended s t c init parent code
    → (count p (t.table.proc parent).children
        ≡ count p (s.table.proc parent).children + count p (s.table.proc c).children)
      ⊎ (count p (t.table.proc parent).children ≡ count p (s.table.proc parent).children)
Ended-children s t c init parent code p e = elim (Bool-cases (parent == init)) [
  | inl i ↦
      let same : parent ≡ init = ground arith in
      inl (
        subst
          (λ q.
            count p (t.table.proc q).children
            ≡ count p (s.table.proc q).children + count p (s.table.proc c).children)
          (sym same)
          (ap (count p) e.family
            ∙ count-append p (s.table.proc init).children (s.table.proc c).children))
  | inr i ↦ inr (ap (count p) (e.others parent (ground arith)))
]

Ended-IsLinked :
    (s t : Kernel) (c init parent code : ℕ)
    → IsFamily s.table c parent
    → Ended s t c init parent code
    → IsLinked (when_runs t.table parent) parent
Ended-IsLinked s t c init parent code f e = record {
  single = λ p. elim (Ended-children s t c init parent code p e) [
    | inl x ↦ omega (arith, f.single p)
    | inr x ↦ omega (arith, f.single p)
  ];
  listed = λ p one. ap (count p) e.listed ∙ elim (Ended-children s t c init parent code p e) [
    | inl x ↦ f.listed p (omega arith)
    | inr x ↦ f.listed p (omega (arith, f.single p))
  ];
}

some_children : (l : List ℕ) (c : ℕ) → 0 < count c l → list_empty l ≡ false
some_children [] c h = absurd (omega arith)
some_children (x ∷ xs) c h = refl

-- Once the running thread has exited as above, a `do_waitpid` of the parent for any child does not
-- sleep: it disposes of a child that is dead. (Given that the children of the parent and of the process
-- are distinct and stand once on the list of processes.)
pub exit-waitpid :
    (s : Kernel) (c init parent code : ℕ)
    → CanExit s c init parent
    → IsFamily s.table c parent
    → (t : Kernel) × (p : ℕ) × (kthread_exit s code ≡ returns t)
      × Reaps (when_runs t.table parent) parent p (do_waitpid (when_runs t.table parent) any)
exit-waitpid s c init parent code h f =
    let (t, runs, e) = kthread_exit-Ended s c init parent code h in
    let linked = Ended-IsLinked s t c init parent code f e in
    let mine : 0 < count c (t.table.proc parent).children =
      elim (Ended-children s t c init parent code c e) [
        | inl x ↦ omega (arith, f.own)
        | inr x ↦ omega (arith, f.own)
      ] in
    elim (do_waitpid-any (when_runs t.table parent) parent refl linked
      (some_children (t.table.proc parent).children c mine)) [
        | inl (p, reaps) ↦ (t, p, runs, reaps)
        | inr (_, none_dead) ↦ absurd (cc (none_dead c mine, e.dead))
      ]
