-- ===== src/Mm/Pframe/Get.antt =====
-- `pframe_get` over memory objects that keep their promises.
use mathlib.Core.Path.{fun_ext}
use weenix.Prelude.{
  ℕ, ◌+◌, ◌<◌, ◌≡◌, refl, Bool, true, false, Option, none, some, ◌∷◌, if◌then◌else◌, ◌==◌, arith,
  Bool-cases, inl, inr, Exec, returns, ◌>>=◌, deref, Ret, done, fails, sym, subst, ap, ◌∙◌,
}
use weenix.Mm.State.{Mmobj, broadcast, Mem, Mmops}
use weenix.Mm.Pframe.{
  is_page, set_busy, end_busy, pframe_get_resident, init_pframe, alloc_page, alloc_slab,
  pframe_alloc, pframe_fill, Got, got, failed, sleeps_on, get_filled, get_alloced, get_found,
  pframe_get,
}
use weenix.Mm.Pframe.Valid.{Valid, set-Valid, log-Valid}
use weenix.Mm.Pframe.Cache.{Resident, pframe_get_resident-Resident, inserted, inserted-Valid}
use weenix.Mm.Pframe.Free.{Sound, Filled, IsMmops, page_obj, pframe_free-Sound}

busy_steps :
    {A B : Type 0} (x : Option ℕ) (o : ℕ) (k : ℕ → Exec A) (g : A → B) (a : A)
    → x ≡ some o
    → k o ≡ returns a
    → (deref x >>= λ y. k y >>= λ z. returns (g z)) ≡ returns (g a)
busy_steps x o k g a e h = rw (e, h) refl

module _ (ops : Mmops) (live : ℕ → Bool) where
  -- A change of a change of the same object.
  changed_twice :
      (m : ℕ → Mmobj) (o : ℕ) (f g : Mmobj → Mmobj)
      → ◌≡◌ {A = ℕ → Mmobj}
          (λ i.
            if o == i
            then g (if o == o then f (m o) else m o)
            else (if o == i then f (m o) else m i))
          (λ i. if o == i then g (f (m o)) else m i)
  changed_twice m o f g =
      let same : (o == o) ≡ true = ground arith in
      fun_ext λ i. elim (Bool-cases (o == i)) [ inl e ↦ rw (e, same) refl | inr e ↦ rw e refl ]

  abbrev counted : Mmobj → Mmobj
  counted x = record x { refcount = x.refcount + 1 }

  abbrev listed : ℕ → Mmobj → Mmobj
  listed p x = record x { nrespages = x.nrespages + 1; respages = p ∷ x.respages }

  pub init_pframe_lem :
      (s : Mem) (p o n : ℕ) (bytes : ℕ → ℕ)
      → IsMmops ops live
      → live o ≡ true
      → 0 < (s.mmobj o).refcount
      → init_pframe ops s p bytes o n
        ≡ returns (inserted ops s p o n bytes ((s.mmobj o).refcount + 1))
  unfolding init_pframe
  init_pframe_lem s p o n bytes laws l b =
      let u = record (inserted ops s p o n bytes 0) { mmobj = s.mmobj } in
      rw (laws.ref u o l b)
        (ap (λ m. returns (record u { mmobj = m })) (changed_twice s.mmobj o counted (listed p)))

  -- A new page with an identity that no page has.
  pframe_alloc-Sound :
      (s : Mem) (p o n : ℕ) (bytes : ℕ → ℕ)
      → IsMmops ops live
      → Sound ops live s
      → live o ≡ true
      → ops.slab_obj_alloc s ≡ some p
      → ops.page_alloc s ≡ some bytes
      → (s.pframe p).obj ≡ none
      → Resident ops s o n none
      → (t : Mem) × (pframe_alloc ops s o n ≡ returns (some p, t))
        × Sound ops live t
        × (is_page (t.pframe p) o n ≡ true)
        × ((t.pframe p).pincount ≡ 0)
  unfolding pframe_alloc alloc_slab alloc_page
  pframe_alloc-Sound s p o n bytes laws (v, h) l a b free fresh =
      let k = (s.mmobj o).refcount + 1 in
      (
        inserted ops s p o n bytes k,
        rw (a, b, init_pframe_lem s p o n bytes laws l (ground (arith, h o l))) refl,
        (
          inserted-Valid ops s p o n k bytes v free fresh,
          λ u e. elim (Bool-cases (o == u)) [
            | inl x ↦ ground (arith, h o l)
            | inr x ↦ ground (arith, h u e)
          ],
        ),
        ground arith,
        ground arith,
      )

  still-Filled :
      (r : Ret ℕ) (t : Mem) (p o n : ℕ)
      → Filled ops live p o n r t
      → Filled ops live p o n r (end_busy t p)
  still-Filled (done k) t p o n h = ground arith
  still-Filled (fails e) t p o n (h, z) = (ground arith, ground arith)

  fill_ended :
      (m : Exec (Ret ℕ × Mem)) (p o n : ℕ) (r : Ret ℕ) (t : Mem)
      → m ≡ returns (r, end_busy t p)
      → Sound ops live t
      → Filled ops live p o n r t
      → (r : Ret ℕ) × (t : Mem) × (m ≡ returns (r, t))
        × Sound ops live t
        × Filled ops live p o n r t
        × ((t.pframe p).busy ≡ false)
  fill_ended m p o n r t runs (v, h) filled = (
    r,
    end_busy t p,
    runs,
    (
      log-Valid ops (set_busy t p false) (broadcast p)
          (set-Valid ops t p (t.pframe p).pincount false (t.pframe p).dirty v refl),
      h,
    ),
    still-Filled r t p o n filled,
    ground arith,
  )

  fill_steps :
      (s : Mem) (p o n : ℕ)
      → IsMmops ops live
      → Sound ops live s
      → live o ≡ true
      → is_page (s.pframe p) o n ≡ true
      → (s.pframe p).pincount ≡ 0
      → (r : Ret ℕ) × (t : Mem) × (pframe_fill ops s p ≡ returns (r, t))
        × Sound ops live t
        × Filled ops live p o n r t
        × ((t.pframe p).busy ≡ false)
  unfolding pframe_fill
  fill_steps s p o n laws (v, h) l e z =
      let (r, t, runs, sound, filled) =
        laws.fillpage (set_busy s p true) o p n l
          (set-Valid ops s p (s.pframe p).pincount true (s.pframe p).dirty v refl, h) (ground arith)
          (ground arith) (ground arith) in
      fill_ended (pframe_fill ops s p) p o n r t
        (busy_steps (s.pframe p).obj o (λ y. ops.fillpage (set_busy s p true) y p)
          (λ z. (z.0, end_busy z.1 p)) (r, t) (page_obj ops live (s.pframe p) o n e) runs)
        sound filled

  -- What `pframe_get` comes to: a page that is resident with the identity and not busy, a busy page to
  -- wait for, or an error.
  abbrev pub GetEnds : ℕ → ℕ → Got → Mem → Type 0
  GetEnds o n (got p) t = (is_page (t.pframe p) o n ≡ true) × ((t.pframe p).busy ≡ false)
  GetEnds o n (sleeps_on p) t = (is_page (t.pframe p) o n ≡ true) × ((t.pframe p).busy ≡ true)
  GetEnds o n (failed e) t = Unit {0}

  get_filled-Sound :
      (s : Mem) (p o n : ℕ) (r : Ret ℕ)
      → IsMmops ops live
      → Sound ops live s
      → live o ≡ true
      → Filled ops live p o n r s
      → (s.pframe p).busy ≡ false
      → (g : Got) × (t : Mem) × (get_filled ops p (r, s) ≡ returns (g, t))
        × Sound ops live t
        × GetEnds o n g t
  unfolding get_filled
  get_filled-Sound s p o n (done k) laws v l e b = rw b (got p, s, refl, v, (e, b))
  get_filled-Sound s p o n (fails x) laws v l (e, z) b =
      let (t, runs, sound, free) =
        pframe_free-Sound ops live s p o laws v l (page_obj ops live (s.pframe p) o n e) z b in
      rw runs (failed x, t, refl, sound, tt)

  -- The allocators have memory for a page, whatever the lists are.
  abbrev pub Available : Mem → ℕ → Type 0
  Available s p =
      ((s.pframe p).obj ≡ none)
      × ((t : Mem) → t.pframe ≡ s.pframe → ops.slab_obj_alloc t ≡ some p)
      × ((t : Mem) → t.pframe ≡ s.pframe → (bytes : ℕ → ℕ) × (ops.page_alloc t ≡ some bytes))

  get_found-Sound :
      (s t : Mem) (o n p : ℕ) (q : Option ℕ)
      → IsMmops ops live
      → Sound ops live t
      → live o ≡ true
      → t.pframe ≡ s.pframe
      → Available s p
      → Resident ops s o n q
      → (g : Got) × (u : Mem) × (get_found ops o n (q, t) ≡ returns (g, u))
        × Sound ops live u
        × GetEnds o n g u
  unfolding get_found get_alloced
  get_found-Sound s t o n p none laws v l same (free, slab, page) fresh =
      let (bytes, paged) = page t same in
      let (a, runs, va, ea, za) =
        pframe_alloc-Sound t p o n bytes laws v l (slab t same) paged
          (ap (λ f. (f p).obj) same ∙ free) (rw same fresh) in
      let (r, b, fills, vb, filled, idle) = fill_steps a p o n laws va l ea za in
      rw (runs, fills) (get_filled-Sound b p o n r laws vb l filled idle)
  get_found-Sound s t o n p (some q) laws v l same available e =
      let here : is_page (t.pframe q) o n ≡ true = rw same e in
      elim (Bool-cases (t.pframe q).busy) [
        | inl b ↦ rw b (sleeps_on q, t, refl, v, (here, b))
        | inr b ↦ rw b (got q, t, refl, v, (here, b))
      ]

  -- `pframe_get` of a page of a live object, where the allocators have memory for a new page, returns:
  -- with the page of that identity, resident and not busy, or that page and it is busy and waited for,
  -- or an error. In each case it keeps the invariant.
  pub pframe_get-Sound :
      (s : Mem) (o n p : ℕ)
      → IsMmops ops live
      → Sound ops live s
      → live o ≡ true
      → Available s p
      → (g : Got) × (t : Mem) × (pframe_get ops s o n ≡ returns (g, t))
        × Sound ops live t
        × GetEnds o n g t
  unfolding pframe_get
  pframe_get-Sound s o n p laws (v, h) l available =
      let (v', (same, objects), found) = pframe_get_resident-Resident ops s o n v in
      let (q, t) = pframe_get_resident ops s o n in
      get_found-Sound s t o n p q laws
        (
          v',
          subst (λ m. (u : ℕ) → live u ≡ true → (m u).nrespages < (m u).refcount) (sym objects) h,
        )
        l same available found

  filled_steps :
      (a u : Mem) (p o k : ℕ)
      → (a.pframe p).obj ≡ some o
      → ops.fillpage (set_busy a p true) o p ≡ returns (done k, u)
      → (pframe_fill ops a p >>= λ r. get_filled ops p r) ≡ returns (got p, end_busy u p)
  unfolding get_filled
  filled_steps a u p o k e f =
      let idle : ((end_busy u p).pframe p).busy ≡ false = ground arith in
      let fills : pframe_fill ops a p ≡ returns (done k, end_busy u p) =
        unfold pframe_fill in
        busy_steps (a.pframe p).obj o (λ y. ops.fillpage (set_busy a p true) y p)
          (λ z. (z.0, end_busy z.1 p)) (done k, u) e f in
      rw (fills, idle) refl

  fresh_steps :
      (s t : Mem) (o n p : ℕ) (bytes : ℕ → ℕ) (q : Option ℕ)
      → IsMmops ops live
      → live o ≡ true
      → 0 < (t.mmobj o).refcount
      → ops.slab_obj_alloc t ≡ some p
      → ops.page_alloc t ≡ some bytes
      → Resident ops s o n none
      → Resident ops s o n q
      → (k : ℕ) (u : Mem)
      → ops.fillpage (set_busy (inserted ops t p o n bytes ((t.mmobj o).refcount + 1)) p true) o p
        ≡ returns (done k, u)
      → get_found ops o n (q, t) ≡ returns (got p, end_busy u p)
  unfolding get_found get_alloced pframe_alloc alloc_slab alloc_page
  fresh_steps s t o n p bytes none laws l b slab page fresh found k u f =
      let own : ((inserted ops t p o n bytes ((t.mmobj o).refcount + 1)).pframe p).obj ≡ some o =
        ground arith in
      rw (slab, page, init_pframe_lem t p o n bytes laws l b)
        (filled_steps (inserted ops t p o n bytes ((t.mmobj o).refcount + 1)) u p o k own f)
  fresh_steps s t o n p bytes (some x) laws l b slab page fresh found k u f =
      absurd (ground (arith, fresh x))

  -- `pframe_get` of a page that is not resident: a new page is inserted, and filled by its object.
  pub pframe_get-fills :
      (s : Mem) (o n p : ℕ)
      → IsMmops ops live
      → live o ≡ true
      → Valid ops s
      → 0 < (s.mmobj o).refcount
      → Available s p
      → Resident ops s o n none
      → (t : Mem) × (bytes : ℕ → ℕ) × (t.pframe ≡ s.pframe)
        × (t.mmobj ≡ s.mmobj)
        × Valid ops (inserted ops t p o n bytes ((t.mmobj o).refcount + 1))
        × ((k : ℕ) (u : Mem)
            → ops.fillpage
                (set_busy (inserted ops t p o n bytes ((t.mmobj o).refcount + 1)) p true)
                o
                p
              ≡ returns (done k, u)
            → pframe_get ops s o n ≡ returns (got p, end_busy u p))
  unfolding pframe_get
  pframe_get-fills s o n p laws l v b (free, slab, page) fresh =
      let (v', (same, objects), found) = pframe_get_resident-Resident ops s o n v in
      let (q, t) = pframe_get_resident ops s o n in
      let (bytes, paged) = page t same in
      let counted : 0 < (t.mmobj o).refcount = subst (λ m. 0 < (m o).refcount) (sym objects) b in
      (
        t,
        bytes,
        same,
        objects,
        inserted-Valid ops t p o n ((t.mmobj o).refcount + 1) bytes v'
            (ap (λ f. (f p).obj) same ∙ free) (rw same fresh),
        fresh_steps s t o n p bytes q laws l counted (slab t same) paged fresh found,
      )
