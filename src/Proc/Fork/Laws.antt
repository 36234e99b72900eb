-- ===== src/Proc/Fork/Laws.antt =====
-- What fork(2) comes to.
use weenix.Prelude.{
  ℕ, ◌+◌, ◌≤◌, ◌<◌, ◌≡◌, ◌≢◌, refl, true, false, Option, none, some, List, [], ◌∷◌, if◌then◌else◌,
  ◌==◌, arith, length, Exec, returns, ◌>>=◌, deref, ap, ◌∙◌, All, sym, subst, Bool-cases, inl, inr,
}
use weenix.Proc.Fifo.{count}
use weenix.Proc.Sched.{run, Sched, update, sched_queue_init, kt_runq, enqueued, sched_make_runnable}
use weenix.Proc.Sched.Laws.{make_runnable_lem, enqueued-IsConsistent}
use weenix.Proc.Sched.Steps.{IsRunning}
use weenix.Proc.Table.{Table, proc_lookup, proc_create, created}
use weenix.Proc.Table.Create.{Numbered, proc_create-created}
use weenix.Proc.Exit.{Kernel}
use weenix.Proc.Exit.Ends.{held}
use weenix.Proc.Kthread.{kthread_clone, cloned, kthread_clone_lem, cloned-IsRunning}
use weenix.Mm.State.{Mmobj, Mem}
use weenix.Vm.Area.{Layout, Vmarea, view, IsValid}
use weenix.Vm.Fork.{fork_vmmap}
use weenix.Vm.Fork.Pairs.{IsFork}
use weenix.Vm.Fork.Spaces.{Alive, needs}
use weenix.Vm.Fork.View.{Forks, fork_vmmap-Forks}
use weenix.Proc.Fork.{
  pt_unmap_range, tlb_flush_all, pt_cleared, Taken, file_get, vnode_get, vnode_put, Machine,
  get_vnode, put_vnode, born, fref_all, copy_parent_files, with_spaces, adopted, with_kernel,
  with_sched, fork_process, do_fork,
}

-- How often a reference to a file was taken.
abbrev pub gets : ℕ → List Taken → ℕ
gets f [] = 0
gets f (file_get g ∷ rs) = (if g == f then 1 else 0) + gets f rs
gets f (vnode_get v ∷ rs) = gets f rs
gets f (vnode_put v ∷ rs) = gets f rs

gets-all :
    (f : ℕ) (fs : List (Option ℕ)) (rs : List Taken)
    → gets f (fref_all fs rs) ≡ held f fs + gets f rs
unfolding fref_all
gets-all f [] rs = omega arith
gets-all f (none ∷ fs) rs = gets-all f fs rs
gets-all f (some g ∷ fs) rs = omega (arith, gets-all f fs (file_get g ∷ rs))

gets-vnodes :
    (f : ℕ) (a b : Option ℕ) (rs : List Taken) → gets f (get_vnode a (put_vnode b rs)) ≡ gets f rs
gets-vnodes f none none rs = refl
gets-vnodes f none (some b) rs = refl
gets-vnodes f (some a) none rs = refl
gets-vnodes f (some a) (some b) rs = refl

gets-vnode : (f : ℕ) (a : Option ℕ) (rs : List Taken) → gets f (get_vnode a rs) ≡ gets f rs
gets-vnode f none rs = refl
gets-vnode f (some a) rs = refl

-- The thread `t`, which no queue has, becomes ready.
ready-IsRunning :
    (s : Sched) (t : ℕ)
    → IsRunning s
    → (s.thread t).wchan ≡ none
    → t ≢ s.curthr
    → IsRunning (enqueued s kt_runq t)
ready-IsRunning s t g w n = record {
  consistent = enqueued-IsConsistent s kt_runq t g.consistent w;
  asleep = λ u q e m. ground (arith, g.asleep u q);
  current = ground (arith, g.current);
}

-- The queue of a new process is empty, and was before.
queue_init-IsRunning :
    (s : Sched) (q : ℕ) → IsRunning s → (s.queue q).list ≡ [] → IsRunning (sched_queue_init s q)
queue_init-IsRunning s q g e = record {
  consistent = record {
    placed = λ t p. elim (Bool-cases (q == p)) [
      | inl h ↦
          let same : q ≡ p = ground arith in
          rw h (
            ap (count t) (sym e)
            ∙ ap (λ x. count t (s.queue x).list) same
            ∙ g.consistent.placed t p)
      | inr h ↦ rw h (g.consistent.placed t p)
    ];
    sized =
        λ p. elim (Bool-cases (q == p)) [ inl h ↦ rw h refl | inr h ↦ rw h (g.consistent.sized p) ];
  };
  asleep = g.asleep;
  current = g.current;
}

module _ (bottom_of : Mmobj → ℕ → Option ℕ) (ref : Mem → ℕ → Exec Mem) (laws : IsFork bottom_of ref)
    (ly : Layout) where
  -- A running process `c`, the addresses of the new process and thread, and of the new objects.
  pub record CanFork (s : Machine) (c child thr : ℕ) (news : List ℕ) : Type 0 where
    pub idle : ℕ
    pub init : ℕ
    pub current : s.kernel.table.curproc ≡ some c
    pub alive : (s.kernel.table.proc c).dead ≡ false
    pub ids : s.kernel.table.next_pid < s.kernel.table.proc_max_count
    pub has_idle : proc_lookup s.kernel.table (some 0) ≡ some idle
    pub has_init : proc_lookup s.kernel.table (some 1) ≡ some init
    pub other : c ≢ child
    pub right : IsRunning s.kernel.sched
    pub runs : (s.kernel.sched.thread s.kernel.sched.curthr).state ≡ run
    pub free : (s.kernel.sched.thread thr).wchan ≡ none
    pub own_queue : s.kernel.p_wait child ≢ kt_runq
    pub waits : (s.kernel.sched.queue (s.kernel.p_wait child)).list ≡ []
    pub new_thread : thr ≢ s.kernel.sched.curthr
    pub space : IsValid ly (s.areas c)
    pub objects : All (λ v. Alive bottom_of ref laws s.mem news v) (s.areas c)
    pub distinct : (k : ℕ) → count k news ≤ 1
    pub enough : needs (s.areas c) ≤ length news

  -- The child has the pages, the files, the working directory and the break of the parent, and its
  -- thread is the next on the run queue but for those that were ready before.
  pub record IsForked (s s' : Machine) (c child thr : ℕ) : Type 0 where
    pub pages :
        (n : ℕ) → Forks s'.mem (view (s.areas c) n) (view (s'.areas child) n) (view (s'.areas c) n)
    pub valid : IsValid ly (s'.areas child) × IsValid ly (s'.areas c)
    pub files : s'.kernel.files child ≡ s.kernel.files c
    pub balance : (f : ℕ) → gets f s'.taken ≡ held f (s.kernel.files c) + gets f s.taken
    pub cwd : s'.kernel.cwd child ≡ s.kernel.cwd c
    pub brk : (s'.brk child ≡ s.brk c) × (s'.start_brk child ≡ s.start_brk c)
    pub owner : s'.kernel.kt_proc thr ≡ some child
    pub thread : s'.kernel.threads child ≡ thr ∷ []
    pub waits : (s'.kernel.sched.queue (s.kernel.p_wait child)).list ≡ []
    pub flushed : s'.page_calls ≡ tlb_flush_all ∷ pt_unmap_range c ∷ s.page_calls
    pub numbered : Numbered s.kernel.table (s'.kernel.table.proc child).pid
    pub ready : (s'.kernel.sched.queue kt_runq).list ≡ thr ∷ (s.kernel.sched.queue kt_runq).list
    pub runnable : (s'.kernel.sched.thread thr).state ≡ run
    pub right : IsRunning s'.kernel.sched
    pub child_of : (s'.kernel.table.proc child).parent ≡ some c

  fork_steps :
      (s : Machine) (t : Table) (c child thr : ℕ) (news left : List ℕ) (cs ps : List Vmarea)
      (m : Mem) (k : Kernel) (u : Sched)
      → s.kernel.table.curproc ≡ some c
      → (s.kernel.table.proc c).dead ≡ false
      → proc_create s.kernel.table child ≡ returns t
      → fork_vmmap bottom_of ref s.mem news (s.areas c) ≡ returns (cs, ps, left, m)
      → kthread_clone (born s child t).kernel s.kernel.sched.curthr (some thr) ≡ returns (thr, k)
      → (k.table.proc child).dead ≡ false
      → sched_make_runnable k.sched thr ≡ returns u
      → do_fork bottom_of ref s child (some thr) news
        ≡ returns (
          (k.table.proc child).pid,
          with_sched
              (adopted
                (copy_parent_files
                  (with_kernel (pt_cleared (with_spaces (born s child t) c child cs ps m) c) k)
                  c
                  child)
                c
                child
                thr)
              u,
        )
  unfolding do_fork fork_process copy_parent_files
  fork_steps s t c child thr news left cs ps m k u cur a create spaces clone d ready =
      ap (λ x. deref x >>= λ c. fork_process bottom_of ref s c child (some thr) news) cur
      ∙ rw (a, create, spaces, clone, d, ready) refl

  -- The machine afterwards.
  abbrev forked : Machine → Table → ℕ → ℕ → ℕ → List Vmarea → List Vmarea → Mem → Machine
  forked s t c child thr cs ps m =
      let k = cloned (born s child t).kernel s.kernel.sched.curthr thr in
      with_sched
        (adopted
          (copy_parent_files
            (with_kernel (pt_cleared (with_spaces (born s child t) c child cs ps m) c) k) c child)
          c child thr)
        (enqueued k.sched kt_runq thr)

  new_process :
      (s : Table) (c child : ℕ) (pid : Option ℕ) (next : ℕ)
      → s.curproc ≡ some c
      → c ≢ child
      → (((created s child pid next).proc child).dead ≡ false)
        × (((created s child pid next).proc child).parent ≡ some c)
  new_process s c child pid next e n = (ground (arith, e), ground (arith, e))

  new_pid :
      (s : Table) (c child : ℕ) (pid : Option ℕ) (next : ℕ)
      → s.curproc ≡ some c
      → c ≢ child
      → pid ≡ ((created s child pid next).proc child).pid
  new_pid s c child pid next e n = ground (arith, e)

  file_balance :
      (s : Machine) (c child : ℕ) (t : Table) (f : ℕ) (x : Option ℕ)
      → c ≢ child
      → gets f (
          get_vnode
            (s.kernel.cwd c)
            (put_vnode x (fref_all (s.kernel.files c) (get_vnode s.root s.taken))))
        ≡ held f (s.kernel.files c) + gets f s.taken
  file_balance s c child t f x n =
      gets-vnodes f (s.kernel.cwd c) x (fref_all (s.kernel.files c) (get_vnode s.root s.taken))
      ∙ gets-all f (s.kernel.files c) (get_vnode s.root s.taken)
      ∙ ap (λ n. held f (s.kernel.files c) + n) (gets-vnode f s.root s.taken)

  forked-IsForked :
      (s : Machine) (c child thr : ℕ) (news : List ℕ) (pid : Option ℕ) (next : ℕ)
      (cs ps : List Vmarea) (m : Mem)
      → CanFork s c child thr news
      → ((n : ℕ) → Forks m (view (s.areas c) n) (view cs n) (view ps n))
      → IsValid ly cs
      → IsValid ly ps
      → Numbered s.kernel.table pid
      → IsForked s
          (forked s (created s.kernel.table child pid next) c child thr cs ps m)
          c
          child
          thr
  unfolding copy_parent_files
  forked-IsForked s c child thr news pid next cs ps m h pages vc vp num =
      let t = created s.kernel.table child pid next in
      let far : (child == c) ≡ false = ground (arith, h.other) in
      let near : (child == child) ≡ true = ground arith in
      let here : (c == c) ≡ true = ground arith in
      let back : (c == child) ≡ false = ground (arith, h.other) in
      let k =
        cloned (born s child (created s.kernel.table child pid next)).kernel s.kernel.sched.curthr
          thr in
      record {
        pages = λ n. rw (near, here, back) (pages n);
        valid = rw (near, here, back) (vc, vp);
        files = rw (near, far) refl;
        balance = λ f.
            rw far (file_balance s c child t f (update s.kernel.cwd child s.root child) h.other);
        cwd = rw (near, far) refl;
        brk = rw (near, far) (refl, refl);
        owner = ground arith;
        thread = rw near refl;
        waits = ground (arith, h.own_queue);
        flushed = refl;
        numbered =
            subst (Numbered s.kernel.table)
              (new_pid s.kernel.table c child pid next h.current h.other) num;
        ready = ground (arith, h.own_queue);
        runnable = ground (arith, h.runs);
        right =
            ready-IsRunning k.sched thr
              (cloned-IsRunning (born s child t).kernel thr
                (queue_init-IsRunning s.kernel.sched (s.kernel.p_wait child) h.right h.waits)
                h.free)
              (ground (arith, h.right.current)) h.new_thread;
        child_of = (new_process s.kernel.table c child pid next h.current h.other).1;
      }

  -- fork(2) in a process that runs returns the id of the new process: an id in range that no
  -- process had, or -1 if all ids are taken, and the child exists then too. The child has the
  -- files of the parent, with a reference more for each descriptor, and its working directory and
  -- break. Its only thread is the new one, which is ready; nobody waits on the child, and the
  -- scheduler is right. Each page of a shared mapping is the same in both address spaces, and each
  -- page of a private one is a page of two different objects that shadow the object it had; both
  -- address spaces are valid. User memory is unmapped from the page table of the parent, and after
  -- that the TLB is flushed. (Given a right scheduler, that the idle process and init exist, a
  -- valid address space whose objects and the objects below them have references, free memory for
  -- the process, the thread and the new objects, and that no thread is on the queue of the new
  -- process.)
  pub do_fork-IsForked :
      (s : Machine) (c child thr : ℕ) (news : List ℕ)
      → CanFork s c child thr news
      → (s' : Machine) × (do_fork bottom_of ref s child (some thr) news
          ≡ returns ((s'.kernel.table.proc child).pid, s'))
        × IsForked s s' c child thr
  unfolding copy_parent_files
  do_fork-IsForked s c child thr news h =
      let (pid, next, create, num) =
        proc_create-created s.kernel.table child h.idle h.init h.ids h.has_idle h.has_init in
      let (cs, ps, left, m, spaces, vc, vp, pages) =
        fork_vmmap-Forks bottom_of ref laws ly s.mem news (s.areas c) h.space h.objects h.distinct
          h.enough in
      let t = created s.kernel.table child pid next in
      let b = (born s child t).kernel in
      let k = cloned b s.kernel.sched.curthr thr in
      (
        forked s t c child thr cs ps m,
        fork_steps s t c child thr news left cs ps m k (enqueued k.sched kt_runq thr) h.current
            h.alive create spaces (kthread_clone_lem b s.kernel.sched.curthr thr h.runs)
            (new_process s.kernel.table c child pid next h.current h.other).0
            (make_runnable_lem k.sched thr (ground (arith, h.right.current))),
        forked-IsForked s c child thr news pid next cs ps m h pages vc vp num,
      )
