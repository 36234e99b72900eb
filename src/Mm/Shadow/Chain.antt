-- ===== src/Mm/Shadow/Chain.antt =====
-- What a lookup through a chain of shadow objects finds.
use weenix.Prelude.{
  ℕ, zero, suc, ◌+◌, ◌<◌, ◌≡◌, refl, ◌⊎◌, true, false, not, Option, none, some, List, [], ◌∷◌,
  length, arith, inl, inr, Exec, returns, Ret, done, sym, subst, ap, ◌∙◌,
}
use weenix.Mm.State.{Pframe, Mmobj, Mem, set_pf, Mmops}
use weenix.Mm.Pframe.{is_page, is_pinned, pframe_get_resident}
use weenix.Mm.Pframe.Valid.{Valid, bytes-Valid, pframe_pin-Valid}
use weenix.Mm.Pframe.Cache.{Resident, pframe_get_resident-Resident}
use weenix.Mm.Shadow.{found_resident, find_read, find_fill, copy_page, fill_found, shadow_fillpage}

-- The objects from `o` on that shadow another one, down to the one that shadows nothing.
abbrev pub IsChain : (ℕ → Mmobj) → ℕ → List ℕ → Type 0
IsChain m o [] = (m o).shadowed ≡ none
IsChain m o (x ∷ os) = (x ≡ o) × (below : ℕ) × ((m o).shadowed ≡ some below) × IsChain m below os

-- The objects below `o`.
abbrev pub IsBelow : (ℕ → Mmobj) → ℕ → List ℕ → Type 0
IsBelow m o [] = (m o).shadowed ≡ none
IsBelow m o (x ∷ os) = ((m o).shadowed ≡ some x) × IsBelow m x os

-- The page of the first object of the list that has it resident, or none.
abbrev pub Visible : (ℕ → Pframe) → ℕ → List ℕ → Option ℕ → Type 0
Visible f n [] q = q ≡ none
Visible f n (o ∷ os) q =
    ((p : ℕ) × (q ≡ some p) × (is_page (f p) o n ≡ true))
    ⊎ (((p : ℕ) → is_page (f p) o n ≡ false) × Visible f n os q)

module _ (ops : Mmops) (put : Mem → ℕ → Exec Mem)
    (lookup_bottom : Mem → ℕ → ℕ → Exec (Ret ℕ × Mem)) where
  -- The lookup returns, with the page that is visible, and changes no page and no object.
  abbrev pub Finds : Mem → ℕ → List ℕ → Exec (Option ℕ × Mem) → Type 0
  Finds s n os m =
      (q : Option ℕ) × (t : Mem) × (m ≡ returns (q, t))
      × Valid ops t
      × (t.pframe ≡ s.pframe)
      × (t.mmobj ≡ s.mmobj)
      × Visible s.pframe n os q

  found-Finds :
      (s t : Mem) (n o : ℕ) (os : List ℕ) (q : Option ℕ) (next : Mem → Exec (Option ℕ × Mem))
      → Valid ops t
      → t.pframe ≡ s.pframe
      → t.mmobj ≡ s.mmobj
      → Resident ops s o n q
      → (q ≡ none → Finds s n os (next t))
      → Finds s n (o ∷ os) (found_resident ops put lookup_bottom next (q, t))
  found-Finds s t n o os none next v e f r h =
      let (q, u, runs, vu, pages, objects, visible) = h refl in
      (q, u, runs, vu, pages, objects, inr (r, visible))
  found-Finds s t n o os (some p) next v e f r h = (some p, t, refl, v, e, f, inl (p, refl, r))

  Finds-same :
      (s t : Mem) (n : ℕ) (os : List ℕ) (m : Exec (Option ℕ × Mem))
      → t.pframe ≡ s.pframe
      → t.mmobj ≡ s.mmobj
      → Finds t n os m
      → Finds s n os m
  Finds-same s t n os m e f (q, u, runs, v, pages, objects, visible) =
      (q, u, runs, v, pages ∙ e, objects ∙ f, subst (λ g. Visible g n os q) e visible)

  -- The loop of a lookup for reading ends, given fuel for each object of the chain and one round more:
  -- it finds the page of the first object of the chain that has it resident, or none if no object that
  -- shadows another has it; it keeps the invariant and changes no page and no object.
  pub find_read-Finds :
      (fuel : ℕ) (s : Mem) (o n : ℕ) (os : List ℕ)
      → Valid ops s
      → IsChain s.mmobj o os
      → length os < fuel
      → Finds s n os (find_read ops put lookup_bottom fuel s o n)
  unfolding find_read
  find_read-Finds zero s o n os v c b = absurd (omega arith)
  find_read-Finds (suc fuel) s o n [] v c b = rw c (none, s, refl, v, refl, refl, refl)
  find_read-Finds (suc fuel) s o n (x ∷ os) v (e, below, c, rest) b =
      let (v', (pages, objects), found) = pframe_get_resident-Resident ops s o n v in
      let (q, t) = pframe_get_resident ops s o n in
      rw (c, e)
        (found-Finds s t n o os q (λ u. find_read ops put lookup_bottom fuel u below n) v' pages
          objects found
          (λ _. Finds-same s t n os (find_read ops put lookup_bottom fuel t below n) pages objects (
            find_read-Finds fuel t below n os v'
              (subst (λ m. IsChain m below os) (sym objects) rest) (omega (arith, b)))))

  -- The same for a fill, which starts below the object and looks at the last one too.
  find_fill-Finds :
      (fuel : ℕ) (s : Mem) (o n : ℕ) (os : List ℕ)
      → Valid ops s
      → IsBelow s.mmobj o os
      → length os < fuel
      → Finds s n os (find_fill ops put lookup_bottom fuel s o n)
  unfolding find_fill
  find_fill-Finds zero s o n os v c b = absurd (omega arith)
  find_fill-Finds (suc fuel) s o n [] v c b = rw c (none, s, refl, v, refl, refl, refl)
  find_fill-Finds (suc fuel) s o n (x ∷ os) v (c, rest) b =
      let (v', (pages, objects), found) = pframe_get_resident-Resident ops s x n v in
      let (q, t) = pframe_get_resident ops s x n in
      rw c (
        found-Finds s t n x os q (λ u. find_fill ops put lookup_bottom fuel u x n) v' pages objects
          found
          (λ _. Finds-same s t n os (find_fill ops put lookup_bottom fuel t x n) pages objects (
            find_fill-Finds fuel t x n os v' (subst (λ m. IsBelow m x os) (sym objects) rest)
              (omega (arith, b)))))

  copy_page_lem :
      (s : Mem) (p o q : ℕ)
      → Valid ops s
      → (s.pframe p).obj ≡ some o
      → (t : Mem) × (copy_page ops put lookup_bottom s p q ≡ returns (done 0, t))
        × Valid ops t
        × ((t.pframe p).bytes ≡ (s.pframe q).bytes)
        × ((t.pframe p).pincount ≡ (s.pframe p).pincount + 1)
  unfolding copy_page
  copy_page_lem s p o q v e =
      let u = set_pf s p (record (s.pframe p) { bytes = (s.pframe q).bytes }) in
      let (t, pins, vt, pages, objects) =
        pframe_pin-Valid ops u p o (bytes-Valid ops s p (s.pframe q).bytes v) (ground (arith, e)) in
      (t, rw pins refl, vt, rw pages (ground arith), rw pages (ground arith))

  fill_step :
      (fuel : ℕ) (s t : Mem) (o p : ℕ) (q : Option ℕ)
      → (s.pframe p).busy ≡ true
      → (s.pframe p).pincount ≡ 0
      → find_fill ops put lookup_bottom fuel s o (s.pframe p).pagenum ≡ returns (q, t)
      → shadow_fillpage ops put lookup_bottom fuel s o p
        ≡ fill_found ops put lookup_bottom o p (q, t)
  unfolding shadow_fillpage
  fill_step fuel s t o p q b z runs =
      let free : not (is_pinned (s.pframe p)) ≡ true = ground arith in rw (b, free, runs) refl

  -- What a fill does for the page that is visible: it copies that page and pins the new one.
  abbrev pub Copies : Mem → ℕ → Option ℕ → Exec (Ret ℕ × Mem) → Type 0
  Copies s p none m = Unit {0}
  Copies s p (some q) m =
      (t : Mem) × (m ≡ returns (done 0, t))
      × Valid ops t
      × ((t.pframe p).bytes ≡ (s.pframe q).bytes)
      × ((t.pframe p).pincount ≡ 1)

  copied :
      (s t : Mem) (o p : ℕ) (q : Option ℕ)
      → Valid ops t
      → t.pframe ≡ s.pframe
      → (s.pframe p).obj ≡ some o
      → (s.pframe p).pincount ≡ 0
      → Copies s p q (fill_found ops put lookup_bottom o p (q, t))
  unfolding fill_found
  copied s t o p none v e f z = tt
  copied s t o p (some q) v e f z =
      let (u, runs, vu, bytes, pins) = copy_page_lem t p o q v (ap (λ g. (g p).obj) e ∙ f) in
      (
        u,
        runs,
        vu,
        bytes ∙ ap (λ g. (g q).bytes) e,
        omega (arith, pins, z, ap (λ g. (g p).pincount) e),
      )

  -- `shadow_fillpage` of a page of the object `o` that is busy and not pinned, given fuel for each
  -- object below and one round more: where some object below `o` has the page resident, the fill
  -- returns 0, and the page holds what the page of the first such object holds, and is pinned once. The
  -- invariant is kept.
  pub shadow_fillpage-Copies :
      (fuel : ℕ) (s : Mem) (o p : ℕ) (os : List ℕ)
      → Valid ops s
      → IsBelow s.mmobj o os
      → length os < fuel
      → (s.pframe p).obj ≡ some o
      → (s.pframe p).busy ≡ true
      → (s.pframe p).pincount ≡ 0
      → (q : Option ℕ) × Visible s.pframe (s.pframe p).pagenum os q
        × Copies s p q (shadow_fillpage ops put lookup_bottom fuel s o p)
  shadow_fillpage-Copies fuel s o p os v c b e busy z =
      let (q, t, runs, vt, pages, objects, visible) =
        find_fill-Finds fuel s o (s.pframe p).pagenum os v c b in
      (
        q,
        visible,
        subst (Copies s p q) (sym (fill_step fuel s t o p q busy z runs))
            (copied s t o p q vt pages e z),
      )
