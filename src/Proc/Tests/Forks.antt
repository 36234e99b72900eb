-- ===== src/Proc/Tests/Forks.antt =====
-- A run of fork(2): thread 3 of process 102, with a private and a shared area, over anonymous objects.
use weenix.Prelude.{
  ℕ, ◌≡◌, refl, Bool, true, false, Option, none, some, List, [], ◌∷◌, if◌then◌else◌, ◌==◌, arith,
  returns,
}
use weenix.Mm.State.{Mmobj, Mem}
use weenix.Mm.Anon.{anon_ref}
use weenix.Mm.Anon.Laws.{anon_ref_lem}
use weenix.Vm.Area.{Vmarea, Layout, MapFlags, IsValid}
use weenix.Vm.Fork.Pairs.{IsFork}
use weenix.Vm.Fork.Spaces.{Alive}
use weenix.Proc.Table.{proc_lookup, lookup_in}
use weenix.Proc.Fork.{Machine, do_fork}
use weenix.Proc.Fork.Laws.{CanFork, IsForked, do_fork-IsForked}
use weenix.Proc.Tests.{process, start, start-IsRunning}

abbrev flags : Bool → MapFlags
flags b = record { shared = b; private = if b then false else true; fixed = false; anon = true }

abbrev area : ℕ → ℕ → ℕ → Bool → Vmarea
area lo hi o b = record {
  start = lo;
  end = hi;
  off = 0;
  prot = record { read = true; write = true; exec = false };
  flags = flags b;
  obj = some o;
  linked = true;
  olinked = true;
}

abbrev space : List Vmarea
space = area 1024 1026 1 false ∷ area 2000 2001 2 true ∷ []

abbrev user_layout : Layout
user_layout = record { low = 1024; high = 786432 }

space-IsValid : IsValid user_layout space
space-IsValid = record {
  ordered =
      (omega arith, omega arith, omega arith, (omega arith, omega arith, omega arith, omega arith));
  word = omega arith;
}

abbrev memory : Mem
memory = record {
  pframe = λ p. record {
    obj = none;
    pagenum = 0;
    busy = false;
    dirty = false;
    pincount = 0;
    bytes = λ i. 0;
  };
  mmobj = λ o. record {
    refcount = if o == 1 then 1 else if o == 2 then 1 else 0;
    nrespages = 0;
    respages = [];
    shadowed = none;
    bottom = none;
  };
  hash = λ c. [];
  pinned_list = [];
  npinned = 0;
  alloc_list = [];
  nallocated = 0;
  events = [];
}

-- An object that shadows nothing is at the bottom itself.
abbrev bottom_of : Mmobj → ℕ → Option ℕ
bottom_of x o = elim x.shadowed [ none ↦ some o | some b ↦ x.bottom ]

objects-IsFork : IsFork bottom_of anon_ref
objects-IsFork = record {
  counts = λ s o b. anon_ref_lem (λ o n. o) (λ s. none) (λ s. none) s o b;
  bottoms = λ x o k. refl;
}

area-Alive :
    (o : ℕ) (v : Vmarea)
    → v.obj ≡ some o
    → (memory.mmobj o).refcount ≡ 1
    → (o == 11) ≡ false
    → (o == 12) ≡ false
    → Alive bottom_of anon_ref objects-IsFork memory (11 ∷ 12 ∷ []) v
area-Alive o v e one a b = record {
  object = o;
  bottom = o;
  backed = e;
  counted = omega (arith, one);
  bottom_counted = omega (arith, one);
  grounded = refl;
  old = ground arith;
  bottom_old = ground arith;
}

abbrev machine : Machine
machine = record {
  kernel = record {
    sched = start;
    table = record {
      plist = 100 ∷ 101 ∷ 102 ∷ [];
      proc = λ a.
          if a == 100
          then process (some 0) none (101 ∷ [])
          else if a == 101
          then process (some 1) (some 100) (102 ∷ [])
          else process (some 2) (some 101) [];
      next_pid = 3;
      curproc = some 102;
      initproc = some 101;
      proc_max_count = 8;
    };
    cwd = λ p. some 50;
    files = λ p. some 7 ∷ none ∷ some 7 ∷ [];
    threads = λ p. if p == 102 then 3 ∷ [] else [];
    p_wait = λ p. p;
    kt_proc = λ t. some 102;
    released = [];
  };
  mem = memory;
  areas = λ p. if p == 102 then space else [];
  brk = λ p. 0;
  start_brk = λ p. 0;
  root = some 40;
  no_files = none ∷ none ∷ none ∷ [];
  taken = [];
  page_calls = [];
}

machine-CanFork :
    CanFork bottom_of anon_ref objects-IsFork user_layout machine 102 105 9 (11 ∷ 12 ∷ [])
unfolding proc_lookup lookup_in
machine-CanFork = record {
  idle = 100;
  init = 101;
  current = refl;
  alive = refl;
  ids = omega arith;
  has_idle = refl;
  has_init = refl;
  other = ground arith;
  right = start-IsRunning;
  runs = refl;
  free = refl;
  own_queue = ground arith;
  waits = refl;
  new_thread = ground arith;
  space = space-IsValid;
  objects = (
    area-Alive 1 (area 1024 1026 1 false) refl refl refl refl,
    (area-Alive 2 (area 2000 2001 2 true) refl refl refl refl, tt),
  );
  distinct = λ k. ground arith;
  enough = omega arith;
}

do_fork_example :
    (s' : Machine) × (do_fork bottom_of anon_ref machine 105 (some 9) (11 ∷ 12 ∷ [])
      ≡ returns ((s'.kernel.table.proc 105).pid, s'))
    × IsForked bottom_of anon_ref objects-IsFork user_layout machine s' 102 105 9
do_fork_example =
    do_fork-IsForked bottom_of anon_ref objects-IsFork user_layout machine 102 105 9 (11 ∷ 12 ∷ [])
      machine-CanFork
