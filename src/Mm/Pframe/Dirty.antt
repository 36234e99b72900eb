-- ===== src/Mm/Pframe/Dirty.antt =====
-- `pframe_get` and `pframe_dirty` of a page that is resident and not busy.
use weenix.Prelude.{
  ℕ, ◌≡◌, refl, Bool, true, false, not, Option, none, some, if◌then◌else◌, ◌==◌, arith, Exec,
  returns, ◌>>=◌, ◌>>◌, kassert, deref, done, ap, ◌∙◌,
}
use weenix.Mm.State.{broadcast, Mem, Mmops}
use weenix.Mm.Pframe.{
  is_page, set_busy, set_dirty, end_busy, after_dirty, pframe_get_resident, pframe_dirty, got,
  get_found, pframe_get,
}
use weenix.Mm.Pframe.Valid.{Valid, set-Valid, log-Valid}
use weenix.Mm.Pframe.Cache.{Resident, pframe_get_resident-Resident}

dirty_steps :
    {A B : Type 0} (b : Bool) (x : Option ℕ) (o : ℕ) (k : ℕ → Exec A) (g : A → B) (a : A)
    → b ≡ false
    → x ≡ some o
    → k o ≡ returns a
    → (kassert (not b) >> (deref x >>= λ y. k y >>= λ z. returns (g z))) ≡ returns (g a)
dirty_steps b x o k g a i e h = rw (i, e, h) refl

module _ (ops : Mmops) where
  found_steps :
      (s t : Mem) (o n p : ℕ) (q : Option ℕ)
      → is_page (s.pframe p) o n ≡ true
      → ((x : ℕ) → (s.pframe x).busy ≡ false)
      → t.pframe ≡ s.pframe
      → Resident ops s o n q
      → (x : ℕ) × (get_found ops o n (q, t) ≡ returns (got x, t))
        × (is_page (s.pframe x) o n ≡ true)
  unfolding get_found
  found_steps s t o n p none e idle same h = absurd (ground (arith, h p))
  found_steps s t o n p (some x) e idle same h =
      let b : (t.pframe x).busy ≡ false = ap (λ f. (f x).busy) same ∙ idle x in (x, rw b refl, h)

  -- `pframe_get` of a resident page, where no page is busy, returns it and changes no page.
  pub pframe_get-found :
      (s : Mem) (o n p : ℕ)
      → Valid ops s
      → is_page (s.pframe p) o n ≡ true
      → ((x : ℕ) → (s.pframe x).busy ≡ false)
      → (x : ℕ) × (t : Mem) × (pframe_get ops s o n ≡ returns (got x, t))
        × Valid ops t
        × (t.pframe ≡ s.pframe)
        × (t.mmobj ≡ s.mmobj)
        × (is_page (s.pframe x) o n ≡ true)
  unfolding pframe_get
  pframe_get-found s o n p v e idle =
      let (v', (same, objects), found) = pframe_get_resident-Resident ops s o n v in
      let (q, t) = pframe_get_resident ops s o n in
      let (x, run, here) = found_steps s t o n p q e idle same found in
      (x, t, run, v', same, objects, here)

  -- The page is dirty and not busy, after it was busy.
  abbrev pub dirtied : Mem → ℕ → Mem
  dirtied s p = end_busy (set_dirty (set_dirty (set_busy s p true) p true) p true) p

  -- `pframe_dirty` of a page that is not busy, whose object makes it dirty at once.
  pub pframe_dirty_lem :
      (s : Mem) (p o : ℕ)
      → ((t : Mem) → ops.dirtypage t o p ≡ returns (done 0, set_dirty t p true))
      → (s.pframe p).obj ≡ some o
      → (s.pframe p).busy ≡ false
      → pframe_dirty ops s p ≡ returns (done 0, dirtied s p)
  unfolding pframe_dirty
  pframe_dirty_lem s p o law e b =
      dirty_steps (s.pframe p).busy (s.pframe p).obj o (λ y. ops.dirtypage (set_busy s p true) y p)
        (λ z. (z.0, end_busy (after_dirty z.1 p z.0) p))
        (done 0, set_dirty (set_busy s p true) p true) b e (law (set_busy s p true))

  pub dirtied-Valid : (s : Mem) (p : ℕ) → Valid ops s → Valid ops (dirtied s p)
  dirtied-Valid s p v =
      let k = (s.pframe p).pincount in
      let a = set_busy s p true in
      let b = set_dirty a p true in
      let c = set_dirty b p true in
      let va = set-Valid ops s p k true (s.pframe p).dirty v refl in
      let vb = set-Valid ops a p (a.pframe p).pincount (a.pframe p).busy true va refl in
      let vc = set-Valid ops b p (b.pframe p).pincount (b.pframe p).busy true vb refl in
      log-Valid ops (set_busy c p false) (broadcast p)
        (set-Valid ops c p (c.pframe p).pincount false (c.pframe p).dirty vc refl)

  pub dirtied-pages :
      (s : Mem) (p i : ℕ)
      → (dirtied s p).pframe i
        ≡ (if p == i then record (s.pframe p) { busy = false; dirty = true } else s.pframe i)
  dirtied-pages s p i = ground arith
