-- ===== src/Mm/Anon/Put.antt =====
-- anon_put of kernel/vm/anon.c: the last reference of an object.
use weenix.Prelude.{
  ℕ, suc, ◌+◌, ◌-◌, ◌≤◌, ◌≡◌, refl, Bool, true, false, Option, some, List, [], ◌∷◌, if◌then◌else◌,
  ◌==◌, ltb, arith, Bool-cases, inl, inr, returns, length, ap, ◌∙◌,
}
use weenix.Proc.Fifo.{count, remove_elem, remove-first}
use weenix.Mm.State.{slab_obj_free, Mem, log, set_pf, is_obj, Mmops}
use weenix.Mm.Pframe.{is_pinned, pframe_unpin, pframe_free}
use weenix.Mm.Pframe.Valid.{Valid, pframe_unpin-Valid, log-Valid}
use weenix.Mm.Pframe.Free.{Sound, freed, has_page, freed-Sound, recount-Valid, pframe_free_lem}
use weenix.Mm.Anon.{set_refcount, free_pages, anon_put, anon_ops}
use weenix.Mm.Anon.Laws.{anon_ops-IsMmops}

-- No page of the object is busy, and each is pinned at most once.
abbrev pub Idle : Mem → ℕ → Type 0
Idle s o =
    (p : ℕ) → (s.pframe p).obj ≡ some o → ((s.pframe p).busy ≡ false) × ((s.pframe p).pincount ≤ 1)

-- Nothing of any other object has changed.
abbrev pub Aside : ℕ → Mem → Mem → Type 0
Aside o s t =
    ((u : ℕ) → (o == u) ≡ false → t.mmobj u ≡ s.mmobj u)
    × ((q : ℕ) → is_obj (s.pframe q).obj o ≡ false → t.pframe q ≡ s.pframe q)

Aside-trans : (o : ℕ) (s t u : Mem) → Aside o s t → Aside o t u → Aside o s u
Aside-trans o s t u (a, b) (c, d) =
    (λ i e. c i e ∙ a i e, λ q e. d q (ap (λ f. is_obj f.obj o) (b q e) ∙ e) ∙ b q e)

module _ (hash_page : ℕ → ℕ → ℕ) (slab : Mem → Option ℕ) (page : Mem → Option (ℕ → ℕ)) where
  abbrev ops : ℕ → Mmops
  ops depth = anon_ops hash_page slab page depth

  -- The pages that are left, and the references of these pages and one.
  abbrev Draining : ℕ → Mem → ℕ → List ℕ → Type 0
  Draining depth s o ps =
      Valid (ops depth) s
      × ((s.mmobj o).respages ≡ ps)
      × ((s.mmobj o).refcount ≡ (s.mmobj o).nrespages + 1)
      × Idle s o

  only : ℕ → ℕ → Bool
  only o u = u == o

  Draining-Sound :
      (depth : ℕ) (s : Mem) (o : ℕ) (ps : List ℕ)
      → Draining depth s o ps
      → Sound (ops depth) (only o) s
  unfolding only
  Draining-Sound depth s o ps (v, e, b, idle) = (v, λ u l. ground (arith, b))

  first_obj :
      (depth : ℕ) (s : Mem) (o p : ℕ) (ps : List ℕ)
      → Draining depth s o (p ∷ ps)
      → (s.pframe p).obj ≡ some o
  first_obj depth s o p ps (v, e, b, idle) =
      let on_list : 1 ≤ count p (s.mmobj o).respages = rw e (ground arith) in
      ground (arith, v.owned p o, on_list)

  -- A page that is not pinned is freed.
  drop_page :
      (depth : ℕ) (s : Mem) (o p : ℕ) (ps : List ℕ)
      → Draining (suc depth) s o (p ∷ ps)
      → (s.pframe p).pincount ≡ 0
      → (t : Mem) × (pframe_free (ops (suc depth)) s p ≡ returns t)
        × Draining (suc depth) t o ps
        × Aside o s t
  unfolding only
  drop_page depth s o p ps (v, e, b, idle) z =
      let obj = first_obj (suc depth) s o p ps (v, e, b, idle) in
      let sound = Draining-Sound (suc depth) s o (p ∷ ps) (v, e, b, idle) in
      let laws = anon_ops-IsMmops hash_page slab page depth (only o) in
      let own : (o == o) ≡ true = ground arith in
      let rest : remove_elem p (s.mmobj o).respages ≡ ps = rw e (remove-first p ps) in
      let some_left = has_page (ops (suc depth)) (only o) s p o v obj in
      let run =
        pframe_free_lem (ops (suc depth)) (only o) s p o laws sound own obj z (idle p obj).0 in
      (
        freed (ops (suc depth)) (only o) s p o,
        run,
        (
          (freed-Sound (ops (suc depth)) (only o) s p o sound own obj z).0,
          ground (arith, rest),
          ground (arith, some_left, b),
          λ q f. elim (Bool-cases (p == q)) [
            | inl x ↦ absurd (ground arith)
            | inr x ↦ let (a, c) = idle q (ground arith) in (ground (arith, a), ground (arith, c))
          ],
        ),
        (λ u n. ground arith, λ q n. ground arith),
      )

  -- A page that is pinned is unpinned first.
  unpinned :
      (depth : ℕ) (s t : Mem) (o p k : ℕ) (ps : List ℕ)
      → Draining depth s o ps
      → Valid (ops depth) t
      → (s.pframe p).obj ≡ some o
      → k ≤ 1
      → t.pframe ≡ (set_pf s p (record (s.pframe p) { pincount = k })).pframe
      → t.mmobj ≡ s.mmobj
      → Draining depth t o ps × Aside o s t × ((t.pframe p).pincount ≡ k)
  unpinned depth s t o p k ps (v, e, b, idle) v' obj small pages objects = (
    (
      v',
      ap (λ m. (m o).respages) objects ∙ e,
      rw objects b,
      rw pages (λ q f. elim (Bool-cases (p == q)) [
        | inl x ↦ (ground (arith, idle p obj), ground arith)
        | inr x ↦ let (a, c) = idle q (ground arith) in (ground (arith, a), ground (arith, c))
      ]),
    ),
    (λ u n. ap (λ m. m u) objects, rw pages (λ q n. ground (arith, obj))),
    rw pages (ground arith),
  )

  unpin_page :
      (depth : ℕ) (s : Mem) (o p : ℕ) (ps : List ℕ)
      → Draining depth s o (p ∷ ps)
      → (t : Mem) × ((if is_pinned (s.pframe p) then pframe_unpin s p else returns s) ≡ returns t)
        × Draining depth t o (p ∷ ps)
        × Aside o s t
        × ((t.pframe p).pincount ≡ 0)
  unpin_page depth s o p ps (v, e, b, idle) = elim (Bool-cases ((s.pframe p).pincount == 0)) [
    | inl z ↦ rw z (s, refl, (v, e, b, idle), (λ u n. refl, λ q n. refl), ground arith)
    | inr z ↦
        let obj = first_obj depth s o p ps (v, e, b, idle) in
        let one : (s.pframe p).pincount - 1 ≡ 0 = ground (arith, idle p obj) in
        let (t, runs, v', pages, objects) =
          pframe_unpin-Valid (ops depth) s p o v obj (ground arith) in
        let (left, aside, zero_now) =
          unpinned depth s t o p ((s.pframe p).pincount - 1) (p ∷ ps) (v, e, b, idle) v' obj
            (omega (arith, one)) pages objects in
        rw z (t, runs, left, aside, zero_now ∙ one)
  ]

  free_pages_lem :
      (depth : ℕ) (s : Mem) (o : ℕ) (ps : List ℕ)
      → Draining (suc depth) s o ps
      → (t : Mem) × (free_pages (ops (suc depth)) s ps ≡ returns t)
        × Draining (suc depth) t o []
        × Aside o s t
  unfolding free_pages
  free_pages_lem depth s o [] h = (s, refl, h, (λ u n. refl, λ q n. refl))
  free_pages_lem depth s o (p ∷ ps) h =
      let (t, unpins, ht, at, zero_now) = unpin_page (suc depth) s o p ps h in
      let (u, frees, hu, au) = drop_page depth t o p ps ht zero_now in
      let (w, rest, hw, aw) = free_pages_lem depth u o ps hu in
      (w, rw (unpins, frees) rest, hw, Aside-trans o s t w at (Aside-trans o t u w au aw))

  -- An object that is gone: no page of it is resident, and it has no references.
  abbrev pub Gone : Mem → ℕ → Type 0
  Gone t o =
      ((t.mmobj o).refcount ≡ 0)
      × ((t.mmobj o).nrespages ≡ 0)
      × ((q : ℕ) → is_obj (t.pframe q).obj o ≡ false)

  emptied :
      (depth : ℕ) (s t : Mem) (o : ℕ)
      → Draining depth t o []
      → Aside o s t
      → let u : Mem = set_refcount (log t (slab_obj_free o)) o ((t.mmobj o).refcount - 1) in
        Valid (ops depth) u × Gone u o × Aside o s u
  emptied depth s t o (v, e, b, idle) (a, c) =
      let none_left : (t.mmobj o).nrespages ≡ 0 = v.sized o ∙ ap length e in
      let logged = log-Valid (ops depth) t (slab_obj_free o) v in
      (
        recount-Valid (ops depth) (only o) (log t (slab_obj_free o)) o ((t.mmobj o).refcount - 1)
            logged,
        (
          ground (arith, b, none_left),
          ground (arith, none_left),
          λ q.
              let unlisted : count q (t.mmobj o).respages ≡ 0 = ap (count q) e in
              ground (arith, v.owned q o, unlisted),
        ),
        (λ u n. ground (arith, a u n), c),
      )

  -- The last anon_put of an object, which has no other references than those of its resident pages, of
  -- which none is busy or pinned more than once: it returns, and no calls nest deeper than two. No
  -- page of the object is resident any more and it has no references; the invariant of the pages is
  -- kept, and no other object and no page of another object has changed.
  pub anon_put_last :
      (depth : ℕ) (s : Mem) (o : ℕ)
      → Valid (ops (suc depth)) s
      → (s.mmobj o).refcount ≡ (s.mmobj o).nrespages + 1
      → Idle s o
      → (t : Mem) × (anon_put hash_page slab page (suc (suc depth)) s o ≡ returns t)
        × Valid (ops (suc depth)) t
        × Gone t o
        × Aside o s t
  unfolding anon_put
  anon_put_last depth s o v b idle =
      let (t, runs, h, aside) = free_pages_lem depth s o (s.mmobj o).respages (v, refl, b, idle) in
      let positive : ltb 0 (s.mmobj o).refcount ≡ true = ground arith in
      let last : ((s.mmobj o).refcount == (s.mmobj o).nrespages + 1) ≡ true = ground arith in
      let (valid, gone, others) = emptied (suc depth) s t o h aside in
      rw (positive, last, runs) (_, refl, valid, gone, others)
