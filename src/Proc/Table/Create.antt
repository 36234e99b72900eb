-- ===== src/Proc/Table/Create.antt =====
-- What `proc_create` makes of the table of processes, as `proc_lookup` sees it.
use weenix.Prelude.{
  ℕ, ◌<◌, ◌≡◌, ◌≢◌, refl, ◌⊎◌, inl, inr, Bool, true, false, ◌||◌, not, Option, none, some, List, [],
  ◌∷◌, ◌++◌, if◌then◌else◌, ◌==◌, is_none, arith, Bool-cases, Option-cases, returns, ap, ◌∙◌,
}
use weenix.Proc.Sched.{update}
use weenix.Proc.Table.{
  Process, Table, same_pid, is_pid, lookup_in, proc_lookup, used_in, proc_getid, link_child,
  created, proc_create,
}
use weenix.Proc.Table.Getid.{proc_getid_lem}

abbrev pub on_list : ℕ → List ℕ → Bool
on_list a [] = false
on_list a (p ∷ ps) = p == a || on_list a ps

used_in-lookup_in :
    (proc : ℕ → Process) (l : List ℕ) (q : ℕ)
    → used_in proc l q ≡ not (is_none (lookup_in proc l (some q)))
unfolding used_in lookup_in
used_in-lookup_in proc [] q = refl
used_in-lookup_in proc (p ∷ ps) q = ground (arith, used_in-lookup_in proc ps q)

lookup_in-append :
    (proc : ℕ → Process) (l : List ℕ) (a : ℕ) (q : Option ℕ)
    → lookup_in proc (l ++ a ∷ []) q ≡ (
        if is_none (lookup_in proc l q)
        then (if same_pid (proc a).pid q then some a else none)
        else lookup_in proc l q)
unfolding lookup_in
lookup_in-append proc [] a q = refl
lookup_in-append proc (p ∷ ps) a q = ground (arith, lookup_in-append proc ps a q)

lookup_in-same :
    (proc proc' : ℕ → Process) (a : ℕ) (l : List ℕ) (q : Option ℕ)
    → ((p : ℕ) → p ≢ a → (proc' p).pid ≡ (proc p).pid)
    → on_list a l ≡ false
    → lookup_in proc' l q ≡ lookup_in proc l q
unfolding lookup_in
lookup_in-same proc proc' a [] q same h = refl
lookup_in-same proc proc' a (p ∷ ps) q same h =
    ground (arith, same p, lookup_in-same proc proc' a ps q same)

link_child-pid :
    (proc : ℕ → Process) (c : Option ℕ) (a p : ℕ) → (link_child proc c a p).pid ≡ (proc p).pid
link_child-pid proc none a p = refl
link_child-pid proc (some c) a p = ground arith

-- What `proc_lookup` finds once process `addr` has been added with `pid`.
created-lookup :
    (s : Table) (addr next : ℕ) (pid : Option ℕ) (q : Option ℕ)
    → on_list addr s.plist ≡ false
    → proc_lookup (created s addr pid next) q ≡ (
        if is_none (proc_lookup s q)
        then (if same_pid pid q then some addr else none)
        else proc_lookup s q)
unfolding proc_lookup
created-lookup s addr next pid q h =
    let t = created s addr pid next in
    let own : (t.proc addr).pid ≡ pid =
      link_child-pid
        (update s.proc addr
          (record { pid = pid; parent = s.curproc; children = []; status = 0; dead = false }))
        s.curproc addr addr
      ∙ ground arith in
    let others : (p : ℕ) → p ≢ addr → (t.proc p).pid ≡ (s.proc p).pid = λ p n.
      link_child-pid
        (update s.proc addr
          (record { pid = pid; parent = s.curproc; children = []; status = 0; dead = false }))
        s.curproc addr p
      ∙ ground arith in
    lookup_in-append t.proc s.plist addr q
    ∙ rw (own, lookup_in-same s.proc t.proc addr s.plist q others h)

same_pid-neq : (pid : ℕ) (q : Option ℕ) → q ≢ some pid → same_pid (some pid) q ≡ false
same_pid-neq pid none n = refl
same_pid-neq pid (some r) n = elim (Bool-cases (pid == r)) [
  | inl e ↦ absurd (n (ap some (let same : r ≡ pid = ground arith in same)))
  | inr e ↦ e
]

-- The table before and after `proc_create` with an id, and without one, when the process has -1.
abbrev pub Added : Table → ℕ → Table → ℕ → Type 0
Added s addr s' pid =
    (pid < s.proc_max_count)
    × (proc_lookup s (some pid) ≡ none)
    × (proc_lookup s' (some pid) ≡ some addr)
    × ((q : Option ℕ) → q ≢ some pid → proc_lookup s' q ≡ proc_lookup s q)

abbrev pub Unnamed : Table → ℕ → Table → Type 0
Unnamed s addr s' =
    ((q : ℕ) → q < s.proc_max_count → (p : ℕ) × (proc_lookup s (some q) ≡ some p))
    × ((q : ℕ) → proc_lookup s' (some q) ≡ proc_lookup s (some q))
    × (proc_lookup s' none
        ≡ (if is_none (proc_lookup s none) then some addr else proc_lookup s none))

create_runs :
    (s : Table) (addr next : ℕ) (pid : Option ℕ)
    → proc_getid s ≡ returns (pid, next)
    → is_pid pid 0 ≡ false
    → is_pid pid 1 ≡ false
    → proc_create s addr ≡ returns (created s addr pid next)
unfolding proc_create
create_runs s addr next pid e idle init = rw (e, idle, init)

unused-none : (s : Table) (q : ℕ) → used_in s.proc s.plist q ≡ false → proc_lookup s (some q) ≡ none
unfolding proc_lookup
unused-none s q h = elim (Option-cases (lookup_in s.proc s.plist (some q))) [
  | inl e ↦ e
  | inr (p, e) ↦ absurd (ground (arith, used_in-lookup_in s.proc s.plist q))
]

used-some :
    (s : Table) (q : ℕ)
    → used_in s.proc s.plist q ≡ true
    → (p : ℕ) × (proc_lookup s (some q) ≡ some p)
unfolding proc_lookup
used-some s q h = elim (Option-cases (lookup_in s.proc s.plist (some q))) [
  | inl e ↦ absurd (ground (arith, used_in-lookup_in s.proc s.plist q))
  | inr (p, e) ↦ (p, e)
]

taken-other :
    (s : Table) (q p r : ℕ)
    → proc_lookup s (some q) ≡ none
    → proc_lookup s (some r) ≡ some p
    → is_pid (some q) r ≡ false
taken-other s q p r h e = elim (Bool-cases (q == r)) [
  | inl t ↦ absurd (let same : q ≡ r = ground arith in cc)
  | inr t ↦ t
]

-- `proc_create` once the processes with the ids 0 and 1 exist returns. The new process has an id in
-- range that no process had, `proc_lookup` of that id gives the new process, and it gives for every
-- other number what it gave before. Or else all the ids in range were taken: the new process is on the
-- list with the id -1, `proc_lookup` of -1 gives it unless a process had that id before, and it gives
-- for every id what it gave before. (Given that `next_pid` is in range, and that the
-- allocator gives an address that is not on the list.)
pub proc_create_lem :
    (s : Table) (addr idle init : ℕ)
    → s.next_pid < s.proc_max_count
    → on_list addr s.plist ≡ false
    → proc_lookup s (some 0) ≡ some idle
    → proc_lookup s (some 1) ≡ some init
    → (s' : Table) × (proc_create s addr ≡ returns s')
      × (s'.next_pid < s.proc_max_count)
      × (s'.plist ≡ s.plist ++ addr ∷ [])
      × (((pid : ℕ) × Added s addr s' pid) ⊎ Unnamed s addr s')
proc_create_lem s addr idle init small new h0 h1 = elim (proc_getid_lem s small) [
  | inl (pid, next, e, l, m, free, _) ↦
      let none' = unused-none s pid free in
      let look = created-lookup s addr next (some pid) in
      (
        created s addr (some pid) next,
        create_runs s addr next (some pid) e (taken-other s pid idle 0 none' h0)
            (taken-other s pid init 1 none' h1),
        m,
        refl,
        inl (
          pid,
          (
            l,
            none',
            ground (arith, look (some pid) new),
            λ q n. ground (arith, look q new, same_pid-neq pid q n),
          ),
        ),
      )
  | inr (e, full) ↦ (
    created s addr none s.next_pid,
    create_runs s addr s.next_pid none e refl refl,
    small,
    refl,
    inr (
      λ q l. used-some s q (full q l),
      λ q. ground (arith, created-lookup s addr s.next_pid none (some q) new),
      created-lookup s addr s.next_pid none none new,
    ),
  )
]

-- The id of a new process: one in range that no process had, or -1 and all of them were taken.
abbrev pub Numbered : Table → Option ℕ → Type 0
Numbered s none = (q : ℕ) → q < s.proc_max_count → (p : ℕ) × (proc_lookup s (some q) ≡ some p)
Numbered s (some pid) = (pid < s.proc_max_count) × (proc_lookup s (some pid) ≡ none)

-- The table that `proc_create` leaves in either case.
pub proc_create-created :
    (s : Table) (addr idle init : ℕ)
    → s.next_pid < s.proc_max_count
    → proc_lookup s (some 0) ≡ some idle
    → proc_lookup s (some 1) ≡ some init
    → (pid : Option ℕ) × (next : ℕ) × (proc_create s addr ≡ returns (created s addr pid next))
      × Numbered s pid
proc_create-created s addr idle init small h0 h1 = elim (proc_getid_lem s small) [
  | inl (pid, next, e, l, m, free, _) ↦
      let none' = unused-none s pid free in
      (
        some pid,
        next,
        create_runs s addr next (some pid) e (taken-other s pid idle 0 none' h0)
            (taken-other s pid init 1 none' h1),
        (l, none'),
      )
  | inr (e, full) ↦ (
    none,
    s.next_pid,
    create_runs s addr s.next_pid none e refl refl,
    λ q l. used-some s q (full q l),
  )
]
