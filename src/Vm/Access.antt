-- ===== src/Vm/Access.antt =====
-- kernel/api/access.c: may the current process use a range of its addresses?
use weenix.Prelude.{
  ℕ, zero, suc, ◌+◌, ◌-◌, ◌*◌, ◌^◌, ◌≤◌, ◌<◌, ◌≡◌, refl, ◌⊎◌, inl, inr, Bool, true, false, ◌||◌,
  ◌&&◌, not, none, some, List, if◌then◌else◌, add32, arith, Bool-cases, subst, ap, ◌∙◌,
}
use native.Mathlib.Decide.{ℕ_discrete}
use weenix.Vm.Area.{Vmarea, Prot, view}
use weenix.Vm.Vmmap.{vmmap_lookup}
use weenix.Vm.Vmmap.Lookup.{vmmap_lookup-view}
use weenix.Vm.Paging.{Paging, IsPaging}

-- `(vma_prot & perm) == perm`
abbrev pub includes : Prot → Prot → Bool
includes prot perm =
    (not perm.read || prot.read) && (not perm.write || prot.write) && (not perm.exec || prot.exec)

pub addr_perm : Paging → List Vmarea → ℕ → Prot → Bool
addr_perm pg areas vaddr perm = elim (vmmap_lookup areas (pg.addr_to_pn vaddr)) [
  | none ↦ false
  | some vma ↦ includes vma.prot perm
]

-- The loop over `count` pages from `pn` on.
pub range_from : Paging → List Vmarea → Prot → ℕ → ℕ → Bool
range_from pg areas perm pn zero = true
range_from pg areas perm pn (suc count) =
    let rest = range_from pg areas perm (pn + 1) count in
    if addr_perm pg areas (pg.pn_to_addr pn) perm then rest else false

-- `for (pn = start_pn; pn <= end_pn; ++pn)`, where the sum of `avaddr` and `len` may wrap.
pub range_perm : Paging → List Vmarea → ℕ → ℕ → Prot → Bool
range_perm pg areas avaddr len perm =
    let start_pn = pg.addr_to_pn avaddr in
    let end_pn = pg.addr_to_pn (add32 avaddr len) in
    range_from pg areas perm start_pn (end_pn + 1 - start_pn)

-- Whether the address space maps a page with at least these permissions.
abbrev pub allows : List Vmarea → Prot → ℕ → Bool
allows areas perm n = elim (view areas n) [ none ↦ false | some p ↦ includes p.prot perm ]

-- `addr_perm` answers by the page that the address space maps at the address.
addr_perm-allows :
    (pg : Paging) (areas : List Vmarea) (vaddr : ℕ) (perm : Prot)
    → addr_perm pg areas vaddr perm ≡ allows areas perm (pg.addr_to_pn vaddr)
unfolding addr_perm
addr_perm-allows pg areas vaddr perm = ground (arith, vmmap_lookup-view areas (pg.addr_to_pn vaddr))

abbrev pub Allowed : List Vmarea → Prot → ℕ → ℕ → Type 0
Allowed areas perm lo hi = (n : ℕ) → lo ≤ n → n < hi → allows areas perm n ≡ true

abbrev pub Denied : List Vmarea → Prot → ℕ → ℕ → Type 0
Denied areas perm lo hi = (n : ℕ) × (lo ≤ n) × (n < hi) × (allows areas perm n ≡ false)

module _ (pg : Paging) (laws : IsPaging pg) (areas : List Vmarea) (perm : Prot) where
  addr_perm_page :
      (n last : ℕ)
      → n ≤ last
      → last * pg.page_size < 2 ^ 32
      → addr_perm pg areas (pg.pn_to_addr n) perm ≡ allows areas perm n
  addr_perm_page n last l w =
      let small : n * pg.page_size ≤ last * pg.page_size = grind arith in
      addr_perm-allows pg areas (pg.pn_to_addr n) perm
      ∙ ap (allows areas perm) (laws.pn_of_pn n (omega arith))

  range_from_lem :
      (last count lo hi : ℕ)
      → last * pg.page_size < 2 ^ 32
      → lo + count ≡ hi
      → hi ≤ last + 1
      → ((range_from pg areas perm lo count ≡ true) × Allowed areas perm lo hi)
        ⊎ ((range_from pg areas perm lo count ≡ false) × Denied areas perm lo hi)
  unfolding range_from
  range_from_lem last zero lo hi w s l = inl (refl, λ n a b. absurd (omega arith))
  range_from_lem last (suc count) lo hi w s l =
      rw (addr_perm_page lo last (omega arith) w) (elim (Bool-cases (allows areas perm lo)) [
        | inr c ↦ inr (rw c, (lo, omega arith, omega arith, c))
        | inl c ↦ elim (range_from_lem last count (lo + 1) hi w (omega arith) l) [
          | inr (e, (n, a, b, d)) ↦ inr (rw c e, (n, omega arith, b, d))
          | inl (e, all) ↦ inl (
            rw c e,
            λ n a b. elim (ℕ_discrete lo n) [
              | yes q ↦ subst (λ m. allows areas perm m ≡ true) q c
              | no q ↦ all n (omega arith) b
            ],
          )
        ]
      ])

  -- For a range that does not wrap, `range_perm` decides whether the address space maps every page
  -- from the one of `avaddr` to the one of `avaddr + len` with at least the permissions asked for.
  -- (Given the laws of the page macros.)
  pub range_perm_lem :
      (avaddr len : ℕ)
      → avaddr + len < 2 ^ 32
      → ((range_perm pg areas avaddr len perm ≡ true)
          × Allowed areas perm (pg.addr_to_pn avaddr) (pg.addr_to_pn (avaddr + len) + 1))
        ⊎ ((range_perm pg areas avaddr len perm ≡ false)
            × Denied areas perm (pg.addr_to_pn avaddr) (pg.addr_to_pn (avaddr + len) + 1))
  unfolding range_perm
  range_perm_lem avaddr len w =
      let lo = pg.addr_to_pn avaddr in
      let last = pg.addr_to_pn (avaddr + len) in
      let e : add32 avaddr len ≡ avaddr + len = omega arith in
      let le : lo ≤ last = laws.pn_mono avaddr (avaddr + len) (omega arith) in
      rw e (
        range_from_lem last (last + 1 - lo) lo (last + 1) (omega (arith, laws.pn_le (avaddr + len)))
          (omega arith) (omega arith))

  -- A range that does not wrap is refused if the page at its end is not mapped with the
  -- permissions, also where the range ends just before that page and all its own bytes are fine.
  -- (Given the laws of the page macros.)
  pub range_perm_end :
      (avaddr len : ℕ)
      → avaddr + len < 2 ^ 32
      → allows areas perm (pg.addr_to_pn (avaddr + len)) ≡ false
      → range_perm pg areas avaddr len perm ≡ false
  range_perm_end avaddr len w d = elim (range_perm_lem avaddr len w) [
    | inl (e, all) ↦
        ground (arith, all (pg.addr_to_pn (avaddr + len)), laws.pn_mono avaddr (avaddr + len))
    | inr (e, _) ↦ e
  ]

  -- A range that wraps round the end of the 32-bit addresses to a lower page is accepted, whatever
  -- is mapped.
  pub range_perm_wraps :
      (avaddr len : ℕ)
      → pg.addr_to_pn (add32 avaddr len) < pg.addr_to_pn avaddr
      → range_perm pg areas avaddr len perm ≡ true
  unfolding range_perm
  range_perm_wraps avaddr len l =
      let none_left : pg.addr_to_pn (add32 avaddr len) + 1 - pg.addr_to_pn avaddr ≡ 0 =
        omega arith in
      rw none_left (unfold range_from in refl)
