-- ===== src/Vm/Fork/Pairs.antt =====
-- What fork(2) does with one area.
use weenix.Prelude.{
  ℕ, ◌+◌, ◌<◌, ◌≡◌, ◌≢◌, refl, true, false, Option, none, some, List, [], ◌∷◌, if◌then◌else◌, ◌==◌,
  arith, Exec, returns, ◌∙◌,
}
use weenix.Mm.State.{Mmobj, Mem, set_obj}
use weenix.Mm.Anon.{set_refcount}
use weenix.Mm.Shadow.{shadow_create}
use weenix.Vm.Area.{Vmarea}
use weenix.Vm.Fork.{
  set_shadowed, set_bottom, parent_shadow, child_shadow, handle_memory_object, is_shared,
}

-- `mmobj_bottom_obj` does not read the reference count, and a reference more adds one to the count of an
-- object that is alive.
pub record IsFork (bottom_of : Mmobj → ℕ → Option ℕ) (ref : Mem → ℕ → Exec Mem) : Type 0 where
  pub counts :
      (s : Mem) (o : ℕ)
      → 0 < (s.mmobj o).refcount
      → ref s o ≡ returns (set_refcount s o ((s.mmobj o).refcount + 1))
  pub bottoms : (x : Mmobj) (o k : ℕ) → bottom_of (record x { refcount = k }) o ≡ bottom_of x o

-- From `s` to `t` the objects `a` and `c` have become shadows of `o` over `b`; of the others, `o` has a
-- reference more and `b` two, and nothing else has changed.
pub record Paired (s t : Mem) (a c o b : ℕ) : Type 0 where
  pub shadows : ((t.mmobj a).shadowed ≡ some o) × ((t.mmobj c).shadowed ≡ some o)
  pub bottoms : ((t.mmobj a).bottom ≡ some b) × ((t.mmobj c).bottom ≡ some b)
  pub fresh : ((t.mmobj a).refcount ≡ 1) × ((t.mmobj c).refcount ≡ 1)
  pub others :
      (k : ℕ)
      → k ≢ a
      → k ≢ c
      → t.mmobj k ≡ record (s.mmobj k) {
        refcount = (s.mmobj k).refcount + (if o == k then 1 else 0) + (if b == k then 2 else 0);
      }

module _ (bottom_of : Mmobj → ℕ → Option ℕ) (ref : Mem → ℕ → Exec Mem)
    (laws : IsFork bottom_of ref) where
  abbrev blank : Mmobj
  blank = record { refcount = 1; nrespages = 0; respages = []; shadowed = none; bottom = none }

  abbrev shadow : ℕ → ℕ → Mmobj
  shadow o b = record blank { shadowed = some o; bottom = some b }

  abbrev counted : Mem → ℕ → Mem
  counted s o = set_refcount s o ((s.mmobj o).refcount + 1)

  abbrev started : Mem → ℕ → ℕ → Mem
  started s c o = set_shadowed (set_obj s c blank) c (some o)

  same_bottom :
      (s : Mem) (c o b k : ℕ)
      → (c == o) ≡ false
      → bottom_of (s.mmobj o) o ≡ some b
      → bottom_of ((set_refcount (started s c o) o k).mmobj o) o ≡ some b
  same_bottom s c o b k n e =
      let same : (o == o) ≡ true = ground arith in rw (same, n) (laws.bottoms (s.mmobj o) o k ∙ e)

  later_bottom :
      (s : Mem) (a o b : ℕ)
      → (a == o) ≡ false
      → bottom_of (s.mmobj o) o ≡ some b
      → bottom_of ((set_bottom (started s a o) a (some b)).mmobj o) o ≡ some b
  later_bottom s a o b n e = rw n e

  parent_shadow_lem :
      (s : Mem) (a o b : ℕ)
      → (a == o) ≡ false
      → bottom_of (s.mmobj o) o ≡ some b
      → parent_shadow bottom_of ref s o (some a)
        ≡ returns (a, set_bottom (started s a o) a (some b))
  unfolding parent_shadow shadow_create
  parent_shadow_lem s a o b n e =
      let same : bottom_of ((started s a o).mmobj o) o ≡ some b = rw n e in rw same refl

  child_steps :
      (s s2 s4 : Mem) (c o b : ℕ)
      → ref (started s c o) o ≡ returns s2
      → bottom_of (s2.mmobj o) o ≡ some b
      → ref (set_bottom s2 c (some b)) b ≡ returns s4
      → child_shadow bottom_of ref s o (some c) ≡ returns (c, s4)
  unfolding child_shadow shadow_create
  child_steps s s2 s4 c o b first e second =
      let same : (c == c) ≡ true = ground arith in rw (first, e, same, second) refl

  -- The memory once the child's shadow is there.
  abbrev with_child : Mem → ℕ → ℕ → ℕ → Mem
  with_child s c o b = counted (set_bottom (counted (started s c o) o) c (some b)) b

  child_shadow_lem :
      (s : Mem) (c o b : ℕ)
      → (c == o) ≡ false
      → (c == b) ≡ false
      → 0 < (s.mmobj o).refcount
      → 0 < (s.mmobj b).refcount
      → bottom_of (s.mmobj o) o ≡ some b
      → child_shadow bottom_of ref s o (some c) ≡ returns (c, with_child s c o b)
  child_shadow_lem s c o b n m alive live e =
      child_steps s (counted (started s c o) o) (with_child s c o b) c o b
        (laws.counts (started s c o) o (ground arith))
        (same_bottom s c o b (((started s c o).mmobj o).refcount + 1) n e)
        (laws.counts (set_bottom (counted (started s c o) o) c (some b)) b (ground arith))

  -- The memory after both shadows, with the last reference to the bottom.
  abbrev paired : Mem → ℕ → ℕ → ℕ → ℕ → Mem
  paired s a c o b = counted (with_child (set_bottom (started s a o) a (some b)) c o b) b

  paired-Paired :
      (s : Mem) (a c o b : ℕ)
      → (a == c) ≡ false
      → (a == o) ≡ false
      → (c == o) ≡ false
      → (a == b) ≡ false
      → (c == b) ≡ false
      → Paired s (paired s a c o b) a c o b
  paired-Paired s a c o b ac ao co ab cb = record {
    shadows = (ground arith, ground arith);
    bottoms = (ground arith, ground arith);
    fresh = (ground arith, ground arith);
    others = λ k x y. ground arith;
  }

  private_steps :
      (s s1 s2 t : Mem) (a c o b : ℕ) (rest : List ℕ) (child parent : Vmarea)
      → parent.obj ≡ some o
      → is_shared child.flags ≡ false
      → parent_shadow bottom_of ref s o (some a) ≡ returns (a, s1)
      → child_shadow bottom_of ref s1 o (some c) ≡ returns (c, s2)
      → (s2.mmobj a).bottom ≡ some b
      → ref s2 b ≡ returns t
      → handle_memory_object bottom_of ref s (a ∷ c ∷ rest) child parent
        ≡ returns
            (record child { obj = some c; olinked = true }, record parent { obj = some a }, rest, t)
  unfolding handle_memory_object
  private_steps s s1 s2 t a c o b rest child parent e p x y z w = rw (e, p, x, y, z, w) refl

  -- What has to be in place for the object `o` over the bottom `b`, and the addresses that are given.
  pub record Ready (s : Mem) (a c o b : ℕ) : Type 0 where
    pub alive : 0 < (s.mmobj o).refcount
    pub grounded : 0 < (s.mmobj b).refcount
    pub bottom : bottom_of (s.mmobj o) o ≡ some b
    pub apart : (a == c) ≡ false
    pub parent_new : ((a == o) ≡ false) × ((a == b) ≡ false)
    pub child_new : ((c == o) ≡ false) × ((c == b) ≡ false)

  -- The area of a private mapping: parent and child get a shadow object each.
  pub handle_memory_object-private :
      (s : Mem) (a c o b : ℕ) (rest : List ℕ) (child parent : Vmarea)
      → Ready s a c o b
      → parent.obj ≡ some o
      → is_shared child.flags ≡ false
      → (t : Mem) × (handle_memory_object bottom_of ref s (a ∷ c ∷ rest) child parent
          ≡ returns (
            record child { obj = some c; olinked = true },
            record parent { obj = some a },
            rest,
            t,
          ))
        × Paired s t a c o b
  handle_memory_object-private s a c o b rest child parent r e p =
      let s1 = set_bottom (started s a o) a (some b) in
      let s2 = with_child s1 c o b in
      let (ao, ab) = r.parent_new in
      let (co, cb) = r.child_new in
      (
        paired s a c o b,
        private_steps s s1 s2 (paired s a c o b) a c o b rest child parent e p
            (parent_shadow_lem s a o b ao r.bottom)
            (child_shadow_lem s1 c o b co cb (ground (arith, r.alive)) (ground (arith, r.grounded))
              (later_bottom s a o b ao r.bottom))
            (ground (arith, r.apart)) (laws.counts s2 b (ground (arith, r.grounded))),
        paired-Paired s a c o b r.apart ao co ab cb,
      )

  -- The area of a shared mapping: both have the object, with a reference more.
  pub handle_memory_object-shared :
      (s : Mem) (o : ℕ) (news : List ℕ) (child parent : Vmarea)
      → 0 < (s.mmobj o).refcount
      → parent.obj ≡ some o
      → is_shared child.flags ≡ true
      → handle_memory_object bottom_of ref s news child parent
        ≡ returns (record child { obj = some o; olinked = true }, parent, news, counted s o)
  unfolding handle_memory_object
  handle_memory_object-shared s o news child parent alive e p =
      rw (e, p, laws.counts s o alive) refl
