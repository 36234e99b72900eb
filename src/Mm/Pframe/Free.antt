-- ===== src/Mm/Pframe/Free.antt =====
-- What memory objects promise, and `pframe_free` over them.
use weenix.Prelude.{
  ℕ, ◌+◌, ◌-◌, ◌≤◌, ◌<◌, ◌≡◌, refl, Bool, true, false, not, Option, none, some, ◌==◌, arith,
  Bool-cases, inl, inr, Exec, returns, ◌>>=◌, ◌>>◌, kassert, deref, Ret, done, fails, ◌∙◌,
}
use weenix.Proc.Fifo.{count-length}
use weenix.Mm.State.{Pframe, Mem, set_obj, Mmops}
use weenix.Mm.Pframe.{is_pinned, is_page, uncached, pframe_free}
use weenix.Mm.Pframe.Valid.{Valid}
use weenix.Mm.Pframe.Cache.{uncached-Valid}

free_steps :
    (a c : Bool) (x : Option ℕ) (o : ℕ) (k : ℕ → Exec Mem)
    → a ≡ true
    → x ≡ some o
    → c ≡ true
    → (kassert a >> (deref x >>= λ y. kassert c >> k y)) ≡ k o
free_steps a c x o k h e b = rw (h, e, b) refl

module _ (ops : Mmops) (live : ℕ → Bool) where
  -- The invariant, and every live object has a reference besides those of its resident pages.
  abbrev pub Sound : Mem → Type 0
  Sound s = Valid ops s × ((o : ℕ) → live o ≡ true → (s.mmobj o).nrespages < (s.mmobj o).refcount)

  -- A page has the identity, and is not pinned if the operation has failed.
  abbrev pub Filled : ℕ → ℕ → ℕ → Ret ℕ → Mem → Type 0
  Filled p o n (done k) t = is_page (t.pframe p) o n ≡ true
  Filled p o n (fails e) t = (is_page (t.pframe p) o n ≡ true) × ((t.pframe p).pincount ≡ 0)

  -- What the operations of live objects promise: a reference more or less changes the count alone, as
  -- long as there are others than those of the resident pages, and a page is filled without a change
  -- of its identity.
  pub record IsMmops : Type 0 where
    pub ref :
        (s : Mem) (o : ℕ)
        → live o ≡ true
        → 0 < (s.mmobj o).refcount
        → ops.ref s o
          ≡ returns (set_obj s o (record (s.mmobj o) { refcount = (s.mmobj o).refcount + 1 }))
    pub put :
        (s : Mem) (o : ℕ)
        → live o ≡ true
        → (s.mmobj o).nrespages + 1 < (s.mmobj o).refcount
        → ops.put s o
          ≡ returns (set_obj s o (record (s.mmobj o) { refcount = (s.mmobj o).refcount - 1 }))
    pub fillpage :
        (s : Mem) (o p n : ℕ)
        → live o ≡ true
        → Sound s
        → is_page (s.pframe p) o n ≡ true
        → (s.pframe p).busy ≡ true
        → (s.pframe p).pincount ≡ 0
        → (r : Ret ℕ) × (t : Mem) × (ops.fillpage s o p ≡ returns (r, t))
          × Sound t
          × Filled p o n r t

  pub page_obj : (f : Pframe) (o n : ℕ) → is_page f o n ≡ true → f.obj ≡ some o
  page_obj f o n e = ground arith

  -- The lists do not depend on the reference counts.
  pub recount-Valid :
      (s : Mem) (o k : ℕ)
      → Valid ops s
      → Valid ops (set_obj s o (record (s.mmobj o) { refcount = k }))
  recount-Valid s o k v = record {
    alloced = v.alloced;
    pinned = v.pinned;
    nalloced = v.nalloced;
    npins = v.npins;
    hashed = v.hashed;
    owned = λ q u. ground (arith, v.owned q u);
    sized = λ u. ground (arith, v.sized u);
    unique = v.unique;
  }

  recount-Sound :
      (s : Mem) (o k : ℕ)
      → Valid ops s
      → ((u : ℕ) → live u ≡ true → (o == u) ≡ false → (s.mmobj u).nrespages < (s.mmobj u).refcount)
      → (s.mmobj o).nrespages < k
      → Sound (set_obj s o (record (s.mmobj o) { refcount = k }))
  recount-Sound s o k v h b = (
    recount-Valid s o k v,
    λ u l. elim (Bool-cases (o == u)) [ inl e ↦ ground arith | inr e ↦ ground (arith, h u l e) ],
  )

  -- A page that is neither pinned nor busy is taken out of the lists, and its object loses a reference.
  abbrev pub freed : Mem → ℕ → ℕ → Mem
  freed s p o =
      let u = uncached ops s p o in
      set_obj u o (record (u.mmobj o) { refcount = (u.mmobj o).refcount - 1 })

  pub has_page :
      (s : Mem) (p o : ℕ) → Valid ops s → (s.pframe p).obj ≡ some o → 1 ≤ (s.mmobj o).nrespages
  has_page s p o v e = ground (arith, v.owned p o, v.sized o, count-length p (s.mmobj o).respages)

  pub pframe_free_lem :
      (s : Mem) (p o : ℕ)
      → IsMmops
      → Sound s
      → live o ≡ true
      → (s.pframe p).obj ≡ some o
      → (s.pframe p).pincount ≡ 0
      → (s.pframe p).busy ≡ false
      → pframe_free ops s p ≡ returns (freed s p o)
  unfolding pframe_free
  pframe_free_lem s p o laws (v, h) l e z b =
      free_steps (not (is_pinned (s.pframe p))) (not (s.pframe p).busy) (s.pframe p).obj o
        (λ x. ops.put (uncached ops s p x) x) (ground arith) e (ground arith)
      ∙ laws.put (uncached ops s p o) o l (ground (arith, h o l, has_page s p o v e))

  pub freed-Sound :
      (s : Mem) (p o : ℕ)
      → Sound s
      → live o ≡ true
      → (s.pframe p).obj ≡ some o
      → (s.pframe p).pincount ≡ 0
      → Sound (freed s p o)
  freed-Sound s p o (v, h) l e z =
      let u = uncached ops s p o in
      recount-Sound u o ((u.mmobj o).refcount - 1) (uncached-Valid ops s p o v e z)
        (λ x a n. ground (arith, h x a)) (ground (arith, h o l, has_page s p o v e))

  -- `pframe_free` of a resident page of a live object that is neither pinned nor busy returns and keeps
  -- the invariant; the page is free.
  pub pframe_free-Sound :
      (s : Mem) (p o : ℕ)
      → IsMmops
      → Sound s
      → live o ≡ true
      → (s.pframe p).obj ≡ some o
      → (s.pframe p).pincount ≡ 0
      → (s.pframe p).busy ≡ false
      → (t : Mem) × (pframe_free ops s p ≡ returns t) × Sound t × ((t.pframe p).obj ≡ none)
  pframe_free-Sound s p o laws sound l e z b = (
    freed s p o,
    pframe_free_lem s p o laws sound l e z b,
    freed-Sound s p o sound l e z,
    ground arith,
  )
