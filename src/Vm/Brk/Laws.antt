-- ===== src/Vm/Brk/Laws.antt =====
-- What brk(2) does to the pages of the process when the break grows and when it falls.
use weenix.Prelude.{
  ℕ, ◌+◌, ◌-◌, ◌^◌, ◌≤◌, ◌<◌, ◌≡◌, ◌≢◌, ◌⊎◌, true, false, none, some, List, [], ◌∷◌, arith, leb,
  ltb, if◌then◌else◌, ◌&&◌, Bool-cases, inl, inr, returns, panics, sub32, ◌∙◌, ap, subst, sym,
}
use weenix.Vm.Area.{Backed, Vmarea, covers, page_of, view, IsOrdered, IsValid}
use weenix.Vm.Vmmap.{Effect, vmmap_lookup}
use weenix.Vm.Vmmap.Lookup.{
  Unmapped, Mapped, vmmap_lookup-cons, vmmap_lookup-nil, Found, lookup-Found, lookup-none,
  vmmap_is_range_empty_lem,
}
use weenix.Vm.Vmmap.Unmap.{vmmap_remove-view}
use weenix.Vm.Paging.{Paging, IsPaging, layout}
use weenix.Vm.Brk.{
  Heap, Outcome, validate_brk_addr, set_end, set_brk, refuse, expand_brk, shrink_brk, do_brk,
}

free_above :
    (top c e : ℕ) (vs : List Vmarea)
    → IsOrdered top c vs
    → Unmapped vs c e
    → c ≤ e
    → e ≤ top
    → IsOrdered top e vs
free_above top c e [] o un l t = t
free_above top c e (w ∷ ws) o un l t = (
  (elim (Bool-cases (leb e w.start)) [ inl h ↦ ground arith | inr h ↦ ground (arith, un w.start) ]),
  o.1,
  o.2,
  o.3,
)

Unmapped-drop :
    (w : Vmarea) (vs : List Vmarea) (lo hi : ℕ) → Unmapped (w ∷ vs) lo hi → Unmapped vs lo hi
Unmapped-drop w vs lo hi un n a b = ground (arith, un n a b)

head_found :
    (w v : Vmarea) (vs : List Vmarea) (n : ℕ)
    → covers w n ≡ true
    → vmmap_lookup (w ∷ vs) n ≡ some v
    → w ≡ v
head_found w v vs n c f = ground (arith, vmmap_lookup-cons w vs n)

tail_found :
    (w v : Vmarea) (vs : List Vmarea) (n : ℕ)
    → covers w n ≡ false
    → vmmap_lookup (w ∷ vs) n ≡ some v
    → vmmap_lookup vs n ≡ some v
tail_found w v vs n c f = ground (arith, vmmap_lookup-cons w vs n)

-- Moving the end of the area that covers `n` up to `e`, over pages that are free.
module _ (top n e : ℕ) (v : Vmarea) (up : v.end ≤ e) (room : e ≤ top)
    (small : v.off + (e - v.start) < 2 ^ 32) where
  set_end-IsOrdered :
      (b : ℕ) (vs : List Vmarea)
      → IsOrdered top b vs
      → vmmap_lookup vs n ≡ some v
      → Unmapped vs v.end e
      → IsOrdered top b (set_end n e vs)
  unfolding set_end
  set_end-IsOrdered b [] o f un = o
  set_end-IsOrdered b (w ∷ vs) o f un = elim (Bool-cases (covers w n)) [
    | inl c ↦
        let same = head_found w v vs n c f in
        let free = subst (λ (x : Vmarea). Unmapped (w ∷ vs) x.end e) (sym same) un in
        rw c (
          o.0,
          ground (arith, same),
          ground (arith, same),
          free_above top w.end e vs o.3 (Unmapped-drop w vs w.end e free) (ground (arith, same))
              room,
        )
    | inr c ↦ rw c (
      o.0,
      o.1,
      o.2,
      set_end-IsOrdered w.end vs o.3 (tail_found w v vs n c f) (Unmapped-drop w vs v.end e un),
    )
  ]

  view-set_end :
      (b : ℕ) (vs : List Vmarea) (m : ℕ)
      → IsOrdered top b vs
      → vmmap_lookup vs n ≡ some v
      → Unmapped vs v.end e
      → view (set_end n e vs) m ≡ (if leb v.end m && ltb m e then some (page_of v m) else view vs m)
  unfolding set_end
  view-set_end b [] m o f un = cc (vmmap_lookup-nil n)
  view-set_end b (w ∷ vs) m o f un = elim (Bool-cases (covers w n)) [
    | inl c ↦ rw c (ground (arith, head_found w v vs n c f))
    | inr c ↦
        let f' = tail_found w v vs n c f in
        rw c (
          ground (
            arith,
            view-set_end w.end vs m o.3 f' (Unmapped-drop w vs v.end e un),
            un m,
            lookup-Found top w.end n v vs o.3 f',
          ))
  ]

-- The page at which the heap ends for a break.
abbrev pub new_end : Paging → ℕ → ℕ
new_end pg addr = pg.addr_to_pn (pg.page_align_up addr)

-- The break is set, and the pages from the end of the heap's area `v` on are the heap's.
abbrev pub Grows : Paging → Heap → ℕ → Vmarea → Type 0
Grows pg h addr v =
    (areas' : List Vmarea) × (do_brk pg h addr ≡ returns (set_brk h addr areas' []))
    × IsValid (layout pg) areas'
    × ((n : ℕ)
        → view areas' n
          ≡ (if leb v.end n && ltb n (new_end pg addr) then some (page_of v n) else view h.areas n))

module _ (pg : Paging) (laws : IsPaging pg) (h : Heap) (addr : ℕ) (v : Vmarea)
    (ok : IsValid (layout pg) h.areas) (given : addr ≢ 0) (least : h.start_brk ≤ addr)
    (most : addr ≤ pg.user_mem_high)
    (heap : vmmap_lookup h.areas (pg.addr_to_pn h.start_brk) ≡ some v) where
  found : Found (layout pg).high (layout pg).low (pg.addr_to_pn h.start_brk) v
  found = lookup-Found _ _ _ v h.areas ok.ordered heap

  end_bound : (new_end pg addr) ≤ (layout pg).high
  end_bound =
      let e = ap pg.addr_to_pn (laws.up_aligned pg.user_mem_high laws.high_aligned) in
      omega (arith, laws.up_le addr pg.user_mem_high most)

  start_bound : v.start ≤ (new_end pg addr)
  start_bound = omega (arith, laws.pn_le_up addr, laws.pn_mono h.start_brk addr least, found.below)

  valid_addr : validate_brk_addr pg h addr ≡ true
  unfolding validate_brk_addr
  valid_addr = ground arith

  do_brk-grows :
      v.end < (new_end pg addr)
      → do_brk pg h addr ≡ expand_brk pg h addr v.end (new_end pg addr) ((new_end pg addr) - v.end)
  unfolding do_brk
  do_brk-grows l =
      let e : sub32 (new_end pg addr) v.end ≡ (new_end pg addr) - v.end =
        omega (arith, end_bound, laws.high_pages) in
      rw (valid_addr, heap) (ground (arith, e))

  do_brk-shrinks :
      (new_end pg addr) < v.end
      → do_brk pg h addr ≡ shrink_brk pg h addr (new_end pg addr) (v.end - (new_end pg addr))
  unfolding do_brk
  do_brk-shrinks l =
      let e : sub32 v.end (new_end pg addr) ≡ v.end - (new_end pg addr) =
        omega (arith, found.to, laws.high_pages) in
      rw (valid_addr, heap) (ground (arith, e))

  -- `do_brk` with a break in range that asks for pages above the area of the heap, whose offsets
  -- do not overflow there, returns. If all those pages are free, the break is set and the pages
  -- become the heap's, with every other page as before, in a valid address space; if one is
  -- mapped, it fails with ENOMEM and nothing changes. (Given a valid address space that maps the
  -- start of the heap, and the laws of the page macros.)
  pub do_brk_grow :
      v.end < (new_end pg addr)
      → v.off + ((new_end pg addr) - v.start) < 2 ^ 32
      → (Unmapped h.areas v.end (new_end pg addr) × Grows pg h addr v)
        ⊎ (Mapped h.areas v.end (new_end pg addr) × (do_brk pg h addr ≡ returns (refuse h)))
  do_brk_grow l small =
      let sum : v.end + ((new_end pg addr) - v.end) ≡ (new_end pg addr) = omega arith in
      elim (vmmap_is_range_empty_lem (layout pg) h.areas v.end ((new_end pg addr) - v.end) ok
        (omega arith) (omega (arith, found.from, found.below, found.above))
        (omega (arith, end_bound))) [
          | inl (e, un) ↦
              let free = subst (λ x. Unmapped h.areas v.end x) sum un in
              inl (
                free,
                (
                  set_end (pg.addr_to_pn h.start_brk) (new_end pg addr) h.areas,
                  rw (do_brk-grows l) (unfold expand_brk in rw e),
                  record {
                    ordered =
                        set_end-IsOrdered _ _ (new_end pg addr) v (omega arith) end_bound small _
                          h.areas ok.ordered heap free;
                    word = ok.word;
                  },
                  λ n.
                      view-set_end _ _ (new_end pg addr) v (omega arith) end_bound small _ h.areas n
                        ok.ordered heap free,
                ),
              )
          | inr (e, m) ↦ inr (
            subst (λ x. Mapped h.areas v.end x) sum m,
            rw (do_brk-grows l) (unfold expand_brk in rw e),
          )
        ]

  -- `do_brk` with a break in range below the end of the area of the heap returns the break, and
  -- unmaps exactly the pages from the new end up to the old one, in a valid address space. (Given
  -- a valid address space that maps the start of the heap and whose areas have objects, and the
  -- laws of the page macros.)
  pub do_brk_shrink :
      (new_end pg addr) < v.end
      → Backed h.areas
      → (areas' : List Vmarea) × (calls : List Effect) × (do_brk pg h addr
          ≡ returns (set_brk h addr areas' calls))
        × IsValid (layout pg) areas'
        × ((n : ℕ)
            → view areas' n
              ≡ (if leb (new_end pg addr) n && ltb n v.end then none else view h.areas n))
  do_brk_shrink l back =
      let sum : (new_end pg addr) + (v.end - (new_end pg addr)) ≡ v.end = omega arith in
      let (areas', calls, e, valid, _, same) =
        vmmap_remove-view (layout pg) h.areas (new_end pg addr) (v.end - (new_end pg addr)) back ok
          (omega (arith, found.from, start_bound)) (omega (arith, found.to)) in
      (
        areas',
        calls,
        rw (do_brk-shrinks l) (unfold shrink_brk in rw e),
        valid,
        subst
            (λ (x : ℕ).
              (n : ℕ)
              → view areas' n
                ≡ (if leb (new_end pg addr) n && ltb n x then none else view h.areas n))
            sum same,
      )

  -- A break that leaves no page of the area of the heap removes the area: from then on every
  -- request for a break in range stops the kernel, at the NULL area that `do_brk` does not test.
  -- (Given a valid address space that maps the start of the heap and whose areas have objects, and
  -- the laws of the page macros.)
  pub do_brk_lost_heap :
      (new_end pg addr) ≡ v.start
      → Backed h.areas
      → (b : ℕ) → b ≢ 0
      → h.start_brk ≤ b
      → b ≤ pg.user_mem_high
      → (o : Outcome) × (do_brk pg h addr ≡ returns o) × (do_brk pg o.heap b ≡ panics)
  do_brk_lost_heap l back b nz lo hi =
      let (areas', calls, e, _, same) =
        do_brk_shrink (omega (arith, found.below, found.above)) back in
      let gone : view areas' (pg.addr_to_pn h.start_brk) ≡ none =
        same (pg.addr_to_pn h.start_brk) ∙ ground (arith, found.below, found.above) in
      let lost : vmmap_lookup areas' (pg.addr_to_pn h.start_brk) ≡ none =
        lookup-none areas' (pg.addr_to_pn h.start_brk) gone in
      (set_brk h addr areas' calls, e, unfold do_brk validate_brk_addr in ground (arith, lost))
