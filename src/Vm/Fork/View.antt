-- ===== src/Vm/Fork/View.antt =====
-- What fork(2) makes of the pages of the parent.
use weenix.Prelude.{
  ℕ, ◌≤◌, ◌≡◌, refl, ◌⊎◌, inl, inr, true, false, Option, none, some, List, [], ◌∷◌, ◌==◌,
  Bool-cases, length, Exec, returns, ap, ◌∙◌, All,
}
use weenix.Proc.Fifo.{count}
use weenix.Mm.State.{Mmobj, Mem}
use weenix.Vm.Area.{Vmarea, Page, Layout, page_of, covers, view, IsOrdered, IsValid}
use weenix.Vm.Vmmap.Clone.{vmmap_clone-map}
use weenix.Vm.Fork.{is_shared, fork_areas, fork_vmmap}
use weenix.Vm.Fork.Pairs.{IsFork}
use weenix.Vm.Fork.Spaces.{ForkedArea, Forked, Alive, needs, loop_lem}

-- What stands behind a page of the parent afterwards, and behind the same page of the child: the
-- same, for a shared mapping, and otherwise the same page of two different objects that both shadow the
-- object of the parent.
abbrev pub Forks : Mem → Option Page → Option Page → Option Page → Type 0
Forks u none c p = (c ≡ none) × (p ≡ none)
Forks u (some q) c p =
    ((is_shared q.flags ≡ true) × (c ≡ some q) × (p ≡ some q))
    ⊎ ((is_shared q.flags ≡ false)
        × (a : ℕ) × (k : ℕ) × (p ≡ some (record q { obj = some a }))
        × (c ≡ some (record q { obj = some k }))
        × ((a == k) ≡ false)
        × ((u.mmobj a).shadowed ≡ q.obj)
        × ((u.mmobj k).shadowed ≡ q.obj))

area-Forks :
    (u : Mem) (left : List ℕ) (v c p : Vmarea) (n : ℕ)
    → ForkedArea u left v c p
    → (covers c n ≡ covers v n)
      × (covers p n ≡ covers v n)
      × Forks u (some (page_of v n)) (some (page_of c n)) (some (page_of p n))
area-Forks u left v c p n (inl (e, x, y)) = rw (x, y) (refl, refl, inl (e, refl, refl))
area-Forks u left v c p n (inr (e, a, k, x, y, m, sa, sk, _, _)) =
    rw (x, y) (refl, refl, inr (e, a, k, refl, refl, m, sa, sk))

Forked-Forks :
    (u : Mem) (left : List ℕ) (vs cs ps : List Vmarea) (n : ℕ)
    → Forked u left vs cs ps
    → Forks u (view vs n) (view cs n) (view ps n)
Forked-Forks u left [] cs ps n (x, y) = rw (x, y) (refl, refl)
Forked-Forks u left (v ∷ vs) [] ps n h = absurd h
Forked-Forks u left (v ∷ vs) (c ∷ cs) [] n h = absurd h
Forked-Forks u left (v ∷ vs) (c ∷ cs) (p ∷ ps) n (h, hs) =
    let (x, y, page) = area-Forks u left v c p n h in
    elim (Bool-cases (covers v n)) [
      | inl e ↦ rw (x, y, e) page
      | inr e ↦ rw (x, y, e) (Forked-Forks u left vs cs ps n hs)
    ]

Forked-IsOrdered :
    (u : Mem) (left : List ℕ) (vs cs ps : List Vmarea) (top b : ℕ)
    → Forked u left vs cs ps
    → IsOrdered top b vs
    → IsOrdered top b cs × IsOrdered top b ps
Forked-IsOrdered u left [] cs ps top b (x, y) o = rw (x, y) (o, o)
Forked-IsOrdered u left (v ∷ vs) [] ps top b h o = absurd h
Forked-IsOrdered u left (v ∷ vs) (c ∷ cs) [] top b h o = absurd h
Forked-IsOrdered u left (v ∷ vs) (c ∷ cs) (p ∷ ps) top b (inl (e, x, y), hs) (j, k, l, o) =
    let (oc, op) = Forked-IsOrdered u left vs cs ps top v.end hs o in
    rw (x, y) ((j, k, l, oc), (j, k, l, op))
Forked-IsOrdered u left (v ∷ vs) (c ∷ cs) (p ∷ ps) top b (inr (e, _, _, x, y, _, _, _, _, _), hs)
      (j, k, l, o) =
    let (oc, op) = Forked-IsOrdered u left vs cs ps top v.end hs o in
    rw (x, y) ((j, k, l, oc), (j, k, l, op))

-- What fork(2) makes of the address space of the parent: it returns, both address spaces are valid, a
-- page that is not mapped is mapped in neither, a page of a shared mapping is the same in both, and a
-- page of a private mapping is in each a page of an object of its own that shadows the object of the
-- parent. (Given a valid address space, whose objects and the objects below them have references, and
-- enough different new objects, none of which is in use.)
pub fork_vmmap-Forks :
    (bottom_of : Mmobj → ℕ → Option ℕ) (ref : Mem → ℕ → Exec Mem) (laws : IsFork bottom_of ref)
    (ly : Layout) (s : Mem) (news : List ℕ) (parents : List Vmarea)
    → IsValid ly parents
    → All (λ v. Alive bottom_of ref laws s news v) parents
    → ((k : ℕ) → count k news ≤ 1)
    → needs parents ≤ length news
    → (cs : List Vmarea) × (ps : List Vmarea) × (left : List ℕ) × (u : Mem) × (fork_vmmap bottom_of
          ref s news parents
        ≡ returns (cs, ps, left, u))
      × IsValid ly cs
      × IsValid ly ps
      × ((n : ℕ) → Forks u (view parents n) (view cs n) (view ps n))
unfolding fork_vmmap
fork_vmmap-Forks bottom_of ref laws ly s news parents ok alive one enough =
    let (cs, ps, left, u, runs, forked, _, _) =
      loop_lem bottom_of ref laws parents ly.high ly.low s news [] parents ok.ordered tt refl alive
        one enough in
    let (oc, op) = Forked-IsOrdered u left parents cs ps ly.high ly.low forked ok.ordered in
    (
      cs,
      ps,
      left,
      u,
      ap (fork_areas bottom_of ref s news parents) (vmmap_clone-map parents) ∙ runs,
      record { ordered = oc; word = ok.word },
      record { ordered = op; word = ok.word },
      λ n. Forked-Forks u left parents cs ps n forked,
    )
