-- ===== src/Vm/Fork/Spaces.antt =====
-- The address spaces of parent and child after fork(2).
use weenix.Prelude.{
  ℕ, ◌+◌, ◌≤◌, ◌<◌, ◌≡◌, refl, ◌⊎◌, inl, inr, true, false, Option, some, List, [], ◌∷◌, ◌++◌,
  if◌then◌else◌, ◌==◌, arith, Bool-cases, length, map, append_assoc, Exec, returns, sym, ap, ◌∙◌,
  All,
}
use weenix.Proc.Fifo.{count}
use weenix.Mm.State.{Mmobj, Mem}
use weenix.Mm.Anon.{set_refcount}
use weenix.Vm.Area.{Vmarea, IsOrdered}
use weenix.Vm.Vmmap.{vmmap_lookup, clone_area}
use weenix.Vm.Vmmap.Lookup.{vmmap_lookup-cons}
use weenix.Vm.Fork.{is_shared, handle_memory_object, replaced, fork_areas}
use weenix.Vm.Fork.Pairs.{
  IsFork, Paired, Ready, handle_memory_object-private, handle_memory_object-shared,
}

-- Objects that are not among the new ones keep all but their reference count, which does not fall.
abbrev pub Grows : Mem → Mem → List ℕ → Type 0
Grows s t news =
    (k : ℕ)
    → count k news ≡ 0
    → (t.mmobj k ≡ record (s.mmobj k) { refcount = (t.mmobj k).refcount })
      × ((s.mmobj k).refcount ≤ (t.mmobj k).refcount)

abbrev pub Fewer : List ℕ → List ℕ → Type 0
Fewer rest news = (k : ℕ) → count k rest ≤ count k news

-- The areas of the child and of the parent for an area of the parent, and the addresses left.
abbrev pub ForkedArea : Mem → List ℕ → Vmarea → Vmarea → Vmarea → Type 0
ForkedArea u rest v c p =
    ((is_shared v.flags ≡ true)
      × (c ≡ record (clone_area v) { obj = v.obj; olinked = true })
      × (p ≡ v))
    ⊎ ((is_shared v.flags ≡ false)
        × (a : ℕ) × (k : ℕ) × (c ≡ record (clone_area v) { obj = some k; olinked = true })
        × (p ≡ record v { obj = some a })
        × ((a == k) ≡ false)
        × ((u.mmobj a).shadowed ≡ v.obj)
        × ((u.mmobj k).shadowed ≡ v.obj)
        × (count a rest ≡ 0)
        × (count k rest ≡ 0))

abbrev pub Forked : Mem → List ℕ → List Vmarea → List Vmarea → List Vmarea → Type 0
Forked u rest [] cs ps = (cs ≡ []) × (ps ≡ [])
Forked u rest (v ∷ vs) [] ps = ⊥
Forked u rest (v ∷ vs) (c ∷ cs) [] = ⊥
Forked u rest (v ∷ vs) (c ∷ cs) (p ∷ ps) = ForkedArea u rest v c p × Forked u rest vs cs ps

-- What an area keeps while later ones are handled.
kept :
    (t u : Mem) (rest left : List ℕ) (v c p : Vmarea)
    → Grows t u rest
    → Fewer left rest
    → ForkedArea t rest v c p
    → ForkedArea u left v c p
kept t u rest left v c p g f (inl h) = inl h
kept t u rest left v c p g f (inr (e, a, k, x, y, n, sa, sk, ca, ck)) = inr (
  e,
  a,
  k,
  x,
  y,
  n,
  ap (λ m. m.shadowed) (g a ca).0 ∙ sa,
  ap (λ m. m.shadowed) (g k ck).0 ∙ sk,
  omega (arith, f a),
  omega (arith, f k),
)

abbrev pub private_area : Vmarea → ℕ
private_area v = if is_shared v.flags then 0 else 2

-- How many new objects the areas need.
abbrev pub needs : List Vmarea → ℕ
needs [] = 0
needs (v ∷ vs) = private_area v + needs vs

-- Below the areas the list is `done`, whose areas end at `b` or before.
abbrev Below : ℕ → List Vmarea → Type 0
Below b done = All (λ v. v.end ≤ b) done

lookup-behind :
    (done vs : List Vmarea) (v : Vmarea) (b : ℕ)
    → Below b done
    → b ≤ v.start
    → v.start < v.end
    → vmmap_lookup (done ++ v ∷ vs) v.start ≡ some v
lookup-behind [] vs v b h l n = ground (arith, vmmap_lookup-cons v vs v.start)
lookup-behind (w ∷ ws) vs v b (e, h) l n =
    ground (arith, vmmap_lookup-cons w (ws ++ v ∷ vs) v.start, lookup-behind ws vs v b h l n)

replaced-behind :
    (done vs : List Vmarea) (v p : Vmarea) (b : ℕ)
    → Below b done
    → b ≤ v.start
    → v.start < v.end
    → replaced (done ++ v ∷ vs) v.start p ≡ (done ++ p ∷ []) ++ vs
unfolding replaced
replaced-behind [] vs v p b h l n = ground arith
replaced-behind (w ∷ ws) vs v p b (e, h) l n = ground (arith, replaced-behind ws vs v p b h l n)

Below-next :
    (done : List Vmarea) (p : Vmarea) (b e : ℕ)
    → Below b done
    → b ≤ e
    → p.end ≤ e
    → Below e (done ++ p ∷ [])
Below-next [] p b e h l n = (n, tt)
Below-next (w ∷ ws) p b e (x, h) l n = (omega arith, Below-next ws p b e h l n)

module _ (bottom_of : Mmobj → ℕ → Option ℕ) (ref : Mem → ℕ → Exec Mem)
    (laws : IsFork bottom_of ref) where
  -- The object of an area, and the one at its bottom, have references, and neither is new.
  pub record Alive (s : Mem) (news : List ℕ) (v : Vmarea) : Type 0 where
    pub object : ℕ
    pub bottom : ℕ
    pub backed : v.obj ≡ some object
    pub counted : 0 < (s.mmobj object).refcount
    pub bottom_counted : 0 < (s.mmobj bottom).refcount
    pub grounded : bottom_of (s.mmobj object) object ≡ some bottom
    pub old : count object news ≡ 0
    pub bottom_old : count bottom news ≡ 0

  still_alive :
      (s t : Mem) (news rest : List ℕ) (v : Vmarea)
      → Grows s t news
      → Fewer rest news
      → Alive s news v
      → Alive t rest v
  still_alive s t news rest v g f a = record {
    object = a.object;
    bottom = a.bottom;
    backed = a.backed;
    counted = omega (arith, (g a.object a.old).1, a.counted);
    bottom_counted = omega (arith, (g a.bottom a.bottom_old).1, a.bottom_counted);
    grounded =
        ap (λ x. bottom_of x a.object) (g a.object a.old).0
        ∙ laws.bottoms (s.mmobj a.object) a.object (t.mmobj a.object).refcount
        ∙ a.grounded;
    old = omega (arith, f a.object, a.old);
    bottom_old = omega (arith, f a.bottom, a.bottom_old);
  }

  all_alive :
      (s t : Mem) (news rest : List ℕ) (vs : List Vmarea)
      → Grows s t news
      → Fewer rest news
      → All (λ v. Alive s news v) vs
      → All (λ v. Alive t rest v) vs
  all_alive s t news rest [] g f h = tt
  all_alive s t news rest (v ∷ vs) g f (a, h) =
      (still_alive s t news rest v g f a, all_alive s t news rest vs g f h)

  -- What the loop does with one area.
  abbrev Round : Mem → List ℕ → Vmarea → Type 0
  Round s news v =
      (c : Vmarea) × (p : Vmarea) × (rest : List ℕ) × (t : Mem) × (handle_memory_object bottom_of
          ref s news (clone_area v) v
        ≡ returns (c, p, rest, t))
      × ForkedArea t rest v c p
      × Grows s t news
      × Fewer rest news
      × (length news ≡ private_area v + length rest)
      × (p.end ≡ v.end)

  counted-Grows :
      (s : Mem) (o : ℕ) (news : List ℕ) → Grows s (set_refcount s o ((s.mmobj o).refcount + 1)) news
  counted-Grows s o news k e = elim (Bool-cases (o == k)) [
    | inl h ↦ let same : o ≡ k = ground arith in (ground arith, ground arith)
    | inr h ↦ (ground arith, ground arith)
  ]

  shared-Round :
      (s : Mem) (news : List ℕ) (v : Vmarea)
      → Alive s news v
      → is_shared v.flags ≡ true
      → Round s news v
  shared-Round s news v a e = (
    record (clone_area v) { obj = some a.object; olinked = true },
    v,
    news,
    set_refcount s a.object ((s.mmobj a.object).refcount + 1),
    handle_memory_object-shared bottom_of ref laws s a.object news (clone_area v) v a.counted
        a.backed e,
    inl (e, rw a.backed refl, refl),
    counted-Grows s a.object news,
    λ k. omega arith,
    rw e (omega arith),
    refl,
  )

  Paired-Grows :
      (s t : Mem) (a c o b : ℕ) (rest : List ℕ) → Paired s t a c o b → Grows s t (a ∷ c ∷ rest)
  Paired-Grows s t a c o b rest q k e =
      let other = q.others k (ground arith) (ground arith) in (ground arith, ground arith)

  private-Round :
      (s : Mem) (a c : ℕ) (rest : List ℕ) (v : Vmarea)
      → Alive s (a ∷ c ∷ rest) v
      → ((k : ℕ) → count k (a ∷ c ∷ rest) ≤ 1)
      → is_shared v.flags ≡ false
      → Round s (a ∷ c ∷ rest) v
  private-Round s a c rest v x one e =
      let ready : Ready bottom_of ref laws s a c x.object x.bottom = record {
        alive = x.counted;
        grounded = x.bottom_counted;
        bottom = x.grounded;
        apart = ground (arith, one c);
        parent_new = (ground (arith, x.old), ground (arith, x.bottom_old));
        child_new = (ground (arith, x.old), ground (arith, x.bottom_old));
      } in
      let (t, runs, q) =
        handle_memory_object-private bottom_of ref laws s a c x.object x.bottom rest (clone_area v)
          v ready x.backed e in
      (
        record (clone_area v) { obj = some c; olinked = true },
        record v { obj = some a },
        rest,
        t,
        runs,
        inr (
          e,
          a,
          c,
          refl,
          refl,
          ready.apart,
          q.shadows.0 ∙ sym x.backed,
          q.shadows.1 ∙ sym x.backed,
          ground (arith, one a),
          ground (arith, one c),
        ),
        Paired-Grows s t a c x.object x.bottom rest q,
        λ k. ground arith,
        rw e (omega arith),
        refl,
      )

  enough_given :
      (s : Mem) (news : List ℕ) (v : Vmarea)
      → Alive s news v
      → ((k : ℕ) → count k news ≤ 1)
      → 2 ≤ length news
      → is_shared v.flags ≡ false
      → Round s news v
  enough_given s [] v x one l e = absurd (omega arith)
  enough_given s (a ∷ []) v x one l e = absurd (omega arith)
  enough_given s (a ∷ c ∷ rest) v x one l e = private-Round s a c rest v x one e

  round_lem :
      (s : Mem) (news : List ℕ) (v : Vmarea)
      → Alive s news v
      → ((k : ℕ) → count k news ≤ 1)
      → private_area v ≤ length news
      → Round s news v
  round_lem s news v x one l = elim (Bool-cases (is_shared v.flags)) [
    | inl e ↦ shared-Round s news v x e
    | inr e ↦ enough_given s news v x one (rw e at l) e
  ]

  -- The loop: what it returns for the areas `vs` when the ones in `done` have been handled.
  abbrev Loop : Mem → List ℕ → List Vmarea → List Vmarea → List Vmarea → Type 0
  Loop s news parents done vs =
      (cs : List Vmarea) × (ps : List Vmarea) × (left : List ℕ) × (u : Mem) × (fork_areas bottom_of
          ref s news parents (map clone_area vs)
        ≡ returns (cs, done ++ ps, left, u))
      × Forked u left vs cs ps
      × Grows s u news
      × Fewer left news

  loop_steps :
      (s t u : Mem) (news rest left : List ℕ) (v c p : Vmarea)
      (parents parents' vs cs all : List Vmarea)
      → vmmap_lookup parents v.start ≡ some v
      → handle_memory_object bottom_of ref s news (clone_area v) v ≡ returns (c, p, rest, t)
      → replaced parents v.start p ≡ parents'
      → fork_areas bottom_of ref t rest parents' (map clone_area vs) ≡ returns (cs, all, left, u)
      → fork_areas bottom_of ref s news parents (map clone_area (v ∷ vs))
        ≡ returns (c ∷ cs, all, left, u)
  unfolding fork_areas
  loop_steps s t u news rest left v c p parents parents' vs cs all found runs put later =
      rw (found, runs, put, later) refl

  Grows-trans :
      (s t u : Mem) (news rest : List ℕ)
      → Grows s t news
      → Grows t u rest
      → Fewer rest news
      → Grows s u news
  Grows-trans s t u news rest g h f k e =
      let none_left : count k rest ≡ 0 = omega (arith, f k) in
      let (x, l) = g k e in
      let (y, m) = h k none_left in
      (y ∙ ap (λ (o : Mmobj). record o { refcount = (u.mmobj k).refcount }) x, omega arith)

  pub loop_lem :
      (vs : List Vmarea) (top b : ℕ) (s : Mem) (news : List ℕ) (done parents : List Vmarea)
      → IsOrdered top b vs
      → Below b done
      → parents ≡ done ++ vs
      → All (λ v. Alive s news v) vs
      → ((k : ℕ) → count k news ≤ 1)
      → needs vs ≤ length news
      → Loop s news parents done vs
  unfolding fork_areas
  loop_lem [] top b s news done parents o below e alive one l = (
    [],
    [],
    news,
    s,
    ap (λ (ps : List Vmarea). returns ([], ps, news, s)) e,
    (refl, refl),
    (λ k h. (refl, omega arith)),
    λ k. omega arith,
  )
  loop_lem (v ∷ vs) top b s news done parents (x, y, z, o) below e (a, alive) one l =
      let (c, p, rest, t, runs, area, grows, fewer, size, ends) =
        round_lem s news v a one (omega arith) in
      let (cs, ps, left, u, later, forked, grows', fewer') =
        loop_lem vs top v.end t rest (done ++ p ∷ []) ((done ++ p ∷ []) ++ vs) o
          (Below-next done p b v.end below (omega arith) (omega arith)) refl
          (all_alive s t news rest vs grows fewer alive) (λ k. omega (arith, one k, fewer k))
          (omega arith) in
      (
        c ∷ cs,
        p ∷ ps,
        left,
        u,
        loop_steps s t u news rest left v c p parents ((done ++ p ∷ []) ++ vs) vs cs
            (done ++ p ∷ ps)
            (ap (λ l. vmmap_lookup l v.start) e ∙ lookup-behind done vs v b below x y) runs
            (ap (λ l. replaced l v.start p) e ∙ replaced-behind done vs v p b below x y)
            (later ∙ ap (λ l. returns (cs, l, left, u)) (append_assoc done (p ∷ []) ps)),
        (kept t u rest left v c p grows' fewer' area, forked),
        Grows-trans s t u news rest grows grows' fewer,
        λ k. omega (arith, fewer k, fewer' k),
      )
