-- ===== src/Proc/Table/Wait.antt =====
-- `do_waitpid` of kernel/proc/proc.c, in one pass that ends with its result or at its sleep. What it
-- frees (the thread, the page directory, the process) is outside the model.
use weenix.Prelude.{
  ℕ, ◌<◌, ◌≤◌, ◌≡◌, ◌≢◌, refl, ◌⊎◌, inl, inr, true, false, Option, none, some, List, [], ◌∷◌,
  if◌then◌else◌, arith, Bool-cases, Option-cases, ◌∙◌, subst, Exec, returns, ◌>>=◌, ◌>>◌, kassert,
  deref,
}
use weenix.Proc.Fifo.{remove_elem, count, count-remove}
use weenix.Proc.Sched.{update, list_empty}
use weenix.Proc.Table.{Process, Table, is_pid}

-- The argument `pid`: positive, -1, or neither.
pub data WaitFor : Type 0 where
  child : ℕ → WaitFor
  any other : WaitFor

-- The id and status of a child that was disposed of, with the table after it; or the call sleeps on
-- `p_wait`; or it returns -ECHILD; or it returns 0.
pub data Waited : Type 0 where
  reaped : Option ℕ → ℕ → Table → Waited
  blocks no_child nothing : Waited

abbrev pub dispose : Table → ℕ → ℕ → Table
dispose s c p =
    let proc' = update s.proc p (record (s.proc p) { parent = none }) in
    record s {
      plist = remove_elem p s.plist;
      proc = update proc' c (record (proc' c) { children = remove_elem p (proc' c).children });
    }

abbrev pub reap : Table → ℕ → ℕ → Waited
reap s c p = reaped (s.proc p).pid (s.proc p).status (dispose s c p)

pub find_child : (ℕ → Process) → List ℕ → ℕ → Option ℕ
find_child proc [] pid = none
find_child proc (p ∷ ps) pid = if is_pid (proc p).pid pid then some p else find_child proc ps pid

-- The test of the `while` loop, and what follows it.
pub wait_child : Table → ℕ → ℕ → Option ℕ → Exec Waited
wait_child s c pid none = returns no_child
wait_child s c pid (some p) =
    if (s.proc p).dead
    then (do kassert (is_pid (s.proc p).pid pid); returns (reap s c p))
    else returns blocks

pub find_dead : (ℕ → Process) → List ℕ → Option ℕ
find_dead proc [] = none
find_dead proc (p ∷ ps) = if (proc p).dead then some p else find_dead proc ps

pub wait_any : Table → ℕ → Option ℕ → Waited
wait_any s c none = blocks
wait_any s c (some p) = reap s c p

pub wait_children : Table → ℕ → WaitFor → Exec Waited
wait_children s c (child pid) = wait_child s c pid (find_child s.proc (s.proc c).children pid)
wait_children s c any = returns (wait_any s c (find_dead s.proc (s.proc c).children))
wait_children s c other = returns nothing

pub do_waitpid : Table → WaitFor → Exec Waited
do_waitpid s arg = do
  c ← deref s.curproc
  if list_empty (s.proc c).children then returns no_child else wait_children s c arg

-- The children of `c` are distinct, and each stands once on `_proc_list`.
pub record IsLinked (s : Table) (c : ℕ) : Type 0 where
  pub single : (p : ℕ) → count p (s.proc c).children ≤ 1
  pub listed : (p : ℕ) → count p (s.proc c).children ≡ 1 → count p s.plist ≡ 1

-- Process `p` was a dead child of `c`; it is off both lists, and no other process is.
pub record Reaped (s : Table) (c p : ℕ) (s' : Table) : Type 0 where
  pub dead : (s.proc p).dead ≡ true
  pub child : count p (s.proc c).children ≡ 1
  pub unlinked : count p (s'.proc c).children ≡ 0
  pub unlisted : count p s'.plist ≡ 0
  pub children : (q : ℕ) → q ≢ p → count q (s'.proc c).children ≡ count q (s.proc c).children
  pub others : (q : ℕ) → q ≢ p → count q s'.plist ≡ count q s.plist

dispose-Reaped :
    (s : Table) (c p : ℕ)
    → IsLinked s c
    → (s.proc p).dead ≡ true
    → 0 < count p (s.proc c).children
    → Reaped s c p (dispose s c p)
dispose-Reaped s c p k d h =
    let once : count p (s.proc c).children ≡ 1 = omega (arith, k.single p) in
    record {
      dead = d;
      child = once;
      unlinked = ground (arith, count-remove p p (s.proc c).children once);
      unlisted = ground (arith, count-remove p p s.plist (k.listed p once), k.listed p once);
      children = λ q n. ground (arith, count-remove q p (s.proc c).children once);
      others = λ q n. ground (arith, count-remove q p s.plist (k.listed p once));
    }

find_dead-some :
    (proc : ℕ → Process) (l : List ℕ) (p : ℕ)
    → find_dead proc l ≡ some p
    → ((proc p).dead ≡ true) × (0 < count p l)
unfolding find_dead
find_dead-some proc [] p e = cc
find_dead-some proc (x ∷ xs) p e = elim (Bool-cases (proc x).dead) [
  | inl d ↦
      let same : x ≡ p = ground arith in (subst (λ y. (proc y).dead ≡ true) same d, ground arith)
  | inr d ↦ ground (arith, find_dead-some proc xs p)
]

find_dead-none :
    (proc : ℕ → Process) (l : List ℕ) (p : ℕ)
    → find_dead proc l ≡ none
    → 0 < count p l
    → (proc p).dead ≡ false
unfolding find_dead
find_dead-none proc [] p e h = absurd (omega arith)
find_dead-none proc (x ∷ xs) p e h = ground (arith, find_dead-none proc xs p)

find_child-some :
    (proc : ℕ → Process) (l : List ℕ) (pid p : ℕ)
    → find_child proc l pid ≡ some p
    → (is_pid (proc p).pid pid ≡ true) × (0 < count p l)
unfolding find_child
find_child-some proc [] pid p e = cc
find_child-some proc (x ∷ xs) pid p e = elim (Bool-cases (is_pid (proc x).pid pid)) [
  | inl d ↦
      let same : x ≡ p = ground arith in
      (subst (λ y. is_pid (proc y).pid pid ≡ true) same d, ground arith)
  | inr d ↦ ground (arith, find_child-some proc xs pid p)
]

find_child-none :
    (proc : ℕ → Process) (l : List ℕ) (pid p : ℕ)
    → find_child proc l pid ≡ none
    → 0 < count p l
    → is_pid (proc p).pid pid ≡ false
unfolding find_child
find_child-none proc [] pid p e h = absurd (omega arith)
find_child-none proc (x ∷ xs) pid p e h = ground (arith, find_child-none proc xs pid p)

-- The call disposes of the child `p`.
abbrev pub Reaps : Table → ℕ → ℕ → Exec Waited → Type 0
Reaps s c p out =
    (s' : Table) × (out ≡ returns (reaped (s.proc p).pid (s.proc p).status s')) × Reaped s c p s'

module _ (s : Table) (c : ℕ) (cur : s.curproc ≡ some c) (linked : IsLinked s c)
    (some_child : list_empty (s.proc c).children ≡ false) where
  waits : (arg : WaitFor) → do_waitpid s arg ≡ wait_children s c arg
  unfolding do_waitpid
  waits arg = rw (cur, some_child)

  -- `do_waitpid` for any child, of a process that has children: if one is dead, the call disposes
  -- of a dead one and gives its id and status, and takes it and no other process off the children
  -- and off the list of processes; it sleeps only if no child is dead. (Given that the children
  -- are distinct and stand once on the list of processes.)
  pub do_waitpid-any :
      ((p : ℕ) × Reaps s c p (do_waitpid s any))
      ⊎ ((do_waitpid s any ≡ returns blocks)
          × ((p : ℕ) → 0 < count p (s.proc c).children → (s.proc p).dead ≡ false))
  do_waitpid-any = elim (Option-cases (find_dead s.proc (s.proc c).children)) [
    | inl e ↦ inr (
      waits any ∙ (unfold wait_children wait_any in rw e),
      λ p h. find_dead-none s.proc (s.proc c).children p e h,
    )
    | inr (p, e) ↦
        let (d, h) = find_dead-some s.proc (s.proc c).children p e in
        inl (
          p,
          (
            dispose s c p,
            waits any ∙ (unfold wait_children wait_any in rw e),
            dispose-Reaped s c p linked d h,
          ),
        )
  ]

  -- `do_waitpid` for one id, of a process that has children: it fails with ECHILD exactly if no
  -- child has the id, sleeps while a child that has it is alive, and otherwise disposes of the
  -- child. (Given that the children are distinct and stand once on the list of processes.)
  pub do_waitpid-child :
      (pid : ℕ)
      → ((do_waitpid s (child pid) ≡ returns no_child)
          × ((p : ℕ) → 0 < count p (s.proc c).children → is_pid (s.proc p).pid pid ≡ false))
        ⊎ ((p : ℕ) × (is_pid (s.proc p).pid pid ≡ true)
            × (0 < count p (s.proc c).children)
            × (Reaps s c p (do_waitpid s (child pid))
                ⊎ ((do_waitpid s (child pid) ≡ returns blocks) × ((s.proc p).dead ≡ false))))
  do_waitpid-child pid = elim (Option-cases (find_child s.proc (s.proc c).children pid)) [
    | inl e ↦ inl (
      waits (child pid) ∙ (unfold wait_children wait_child in rw e),
      λ p h. find_child-none s.proc (s.proc c).children pid p e h,
    )
    | inr (p, e) ↦
        let (t, h) = find_child-some s.proc (s.proc c).children pid p e in
        inr (
          p,
          t,
          h,
          elim (Bool-cases (s.proc p).dead) [
            | inl d ↦ inl (
              dispose s c p,
              waits (child pid) ∙ (unfold wait_children wait_child in rw (e, d, t) refl),
              dispose-Reaped s c p linked d h,
            )
            | inr d ↦
                inr (waits (child pid) ∙ (unfold wait_children wait_child in rw (e, d) refl), d)
          ],
        )
  ]
