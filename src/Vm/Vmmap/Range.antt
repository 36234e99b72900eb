-- ===== src/Vm/Vmmap/Range.antt =====
-- `vmmap_find_range` against the free ranges of the address space.
use mathlib.Core.List.{reverse-cons}
use weenix.Prelude.{
  ℕ, ◌+◌, ◌-◌, ◌^◌, ◌≤◌, ◌<◌, ◌≡◌, refl, Option, none, some, List, [], ◌∷◌, ◌++◌, reverse, arith,
  leb, if◌then◌else◌, Bool-cases, inl, inr, returns, sub32, ap, Exec,
}
use weenix.Vm.Area.{Layout, Vmarea, Dir, view, IsOrdered, IsValid}
use weenix.Vm.Vmmap.{Scan, scan_area, scan_areas, scan_head, range_result, vmmap_find_range}
use weenix.Vm.Vmmap.Lookup.{Unmapped, view-below, IsOrdered-le}

scan_areas-append :
    (n : ℕ) (s : Scan) (xs : List Vmarea) (v : Vmarea)
    → scan_areas n s (xs ++ v ∷ []) ≡ scan_area n (scan_areas n s xs) v
unfolding scan_areas
scan_areas-append n s [] v = refl
scan_areas-append n s (x ∷ xs) v = scan_areas-append n (scan_area n s x) xs v

-- Where the first area starts.
abbrev pub first : ℕ → List Vmarea → ℕ
first top [] = top
first top (v ∷ vs) = v.start

-- The result of a scan of the range from `lo` to `top`: the highest free range of `n` pages there.
abbrev pub Best : ℕ → ℕ → ℕ → List Vmarea → Option ℕ → Type 0
Best lo top n vs none = (s : ℕ) → lo ≤ s → s + n ≤ top → Unmapped vs s (s + n) → ⊥
Best lo top n vs (some r) =
    (lo ≤ r)
    × (r + n ≤ top)
    × Unmapped vs r (r + n)
    × ((s : ℕ) → lo ≤ s → s + n ≤ top → Unmapped vs s (s + n) → s ≤ r)

-- What a search for `n` free pages between `lo` and `top` may return: no such range, or one of
-- them with the highest start.
abbrev pub Finds : ℕ → ℕ → ℕ → List Vmarea → Exec (Option ℕ) → Type 0
Finds lo top n vs out = (r : Option ℕ) × (out ≡ returns r) × Best lo top n vs r

module _ (top n : ℕ) (pos : 0 < n) (word : top < 2 ^ 31) where
  before_first :
      (b s : ℕ) (vs : List Vmarea)
      → IsOrdered top b vs
      → Unmapped vs s (s + n)
      → s < first top vs
      → s + n ≤ top
      → s + n ≤ first top vs
  before_first b s [] o un l t = t
  before_first b s (v ∷ vs) o un l t = elim (Bool-cases (leb (s + n) v.start)) [
    | inl e ↦ ground arith
    | inr e ↦ ground (arith, un v.start)
  ]

  not_inside :
      (b s : ℕ) (v : Vmarea) (vs : List Vmarea)
      → Unmapped (v ∷ vs) s (s + n)
      → v.start ≤ s
      → v.end ≤ s
  not_inside b s v vs un l = ground (arith, un s)

  first_bounds :
      (b : ℕ) (vs : List Vmarea) → IsOrdered top b vs → (b ≤ first top vs) × (first top vs ≤ top)
  first_bounds b [] o = omega arith
  first_bounds b (v ∷ vs) o = omega (arith, IsOrdered-le top v.end vs o.3)

  below_first :
      (b p : ℕ) (vs : List Vmarea) → IsOrdered top b vs → p < first top vs → view vs p ≡ none
  below_first b p [] o l = refl
  below_first b p (v ∷ vs) o l = view-below top v.start (v ∷ vs) p (ground arith, o.1, o.2, o.3) l

  -- The gap between `e` and the first area of `vs` extends a search that stopped above it.
  module _ (b e lo : ℕ) (vs ws : List Vmarea) (o : IsOrdered top b vs) (le : lo ≤ e)
      (fit : e ≤ first top vs) (same : (p : ℕ) → e ≤ p → view ws p ≡ view vs p)
      (taken : (s : ℕ) → Unmapped ws s (s + n) → lo ≤ s → e ≤ s) where
    narrow : (s : ℕ) → e ≤ s → Unmapped ws s (s + n) → Unmapped vs s (s + n)
    narrow s l un p x y = ground (arith, same p, un p x y)

    widen : (s : ℕ) → e ≤ s → Unmapped vs s (s + n) → Unmapped ws s (s + n)
    widen s l un p x y = ground (arith, same p, un p x y)

    gap_end :
        (s : ℕ)
        → lo ≤ s
        → s + n ≤ top
        → Unmapped ws s (s + n)
        → s < first top vs
        → s + n ≤ first top vs
    gap_end s l t un h = before_first b s vs o (narrow s (taken s un l) un) h t

    keep-Best : (r : ℕ) → Best (first top vs) top n vs (some r) → Best lo top n ws (some r)
    keep-Best r (above, t, un, most) = (
      omega arith,
      t,
      widen r (omega arith) un,
      λ s l h u. elim (Bool-cases (leb (first top vs) s)) [
        | inl c ↦ most s (ground arith) h (narrow s (taken s u l) u)
        | inr c ↦ ground arith
      ],
    )

    take_gap :
        Best (first top vs) top n vs none
        → n ≤ first top vs - e
        → Best lo top n ws (some (first top vs - n))
    take_gap rest h = (
      omega arith,
      omega (arith, first_bounds b vs o),
      widen (first top vs - n) (omega arith) (λ p x y. below_first b p vs o (omega arith)),
      λ s l t u. elim (Bool-cases (leb (first top vs) s)) [
        | inl c ↦ absurd (rest s (ground arith) t (narrow s (taken s u l) u))
        | inr c ↦ omega (arith, gap_end s l t u (ground arith))
      ],
    )

    skip_gap : Best (first top vs) top n vs none → first top vs < e + n → Best lo top n ws none
    skip_gap rest h s l t u = elim (Bool-cases (leb (first top vs) s)) [
      | inl c ↦ rest s (ground arith) t (narrow s (taken s u l) u)
      | inr c ↦ omega (arith, gap_end s l t u (ground arith), taken s u l)
    ]

  sub_pages : (a b : ℕ) → b ≤ a → a ≤ top → sub32 a b ≡ a - b
  sub_pages a b h k = omega arith

  -- One test of the code: is the gap from `e` to the first area long enough?
  gap_step :
      (b e lo : ℕ) (vs ws : List Vmarea)
      → IsOrdered top b vs
      → lo ≤ e
      → e ≤ first top vs
      → ((p : ℕ) → e ≤ p → view ws p ≡ view vs p)
      → ((s : ℕ) → Unmapped ws s (s + n) → lo ≤ s → e ≤ s)
      → Best (first top vs) top n vs none
      → Best lo top n ws
          (if leb n (sub32 (first top vs) e) then some (sub32 (first top vs) n) else none)
  gap_step b e lo vs ws o le fit same taken rest =
      let big = (first_bounds b vs o).1 in
      elim (Bool-cases (leb n (sub32 (first top vs) e))) [
        | inl c ↦
            let room : n ≤ first top vs - e = ground (arith, sub_pages (first top vs) e) in
            rw (c, sub_pages (first top vs) n (omega arith) big)
              (take_gap b e lo vs ws o le fit same taken rest room)
        | inr c ↦ rw c (
            skip_gap b e lo vs ws o le fit same taken rest
              (ground (arith, sub_pages (first top vs) e)))
      ]

  scan_step :
      (b : ℕ) (v : Vmarea) (vs : List Vmarea) (r : Option ℕ)
      → IsOrdered top b (v ∷ vs)
      → Best (first top vs) top n vs r
      → Best v.start top n
          (v ∷ vs)
          (scan_area n (record { pre_start = first top vs; result = r }) v).result
  unfolding scan_area
  scan_step b v vs (some r) o best =
      keep-Best v.end v.end v.start vs (v ∷ vs) o.3 (omega arith) (first_bounds v.end vs o.3).0
        (λ p h. ground arith) (λ s un l. not_inside b s v vs un l) r best
  scan_step b v vs none o best =
      gap_step v.end v.end v.start vs (v ∷ vs) o.3 (omega arith) (first_bounds v.end vs o.3).0
        (λ p h. ground arith) (λ s un l. not_inside b s v vs un l) best

  -- The state of the loop after it has gone over `vs` from its end.
  scan : List Vmarea → Scan
  scan vs = scan_areas n (record { pre_start = top; result = none }) (reverse vs)

  scan-cons : (v : Vmarea) (vs : List Vmarea) → scan (v ∷ vs) ≡ scan_area n (scan vs) v
  unfolding scan
  scan-cons v vs = rw (reverse-cons v vs) (scan_areas-append n _ (reverse vs) v)

  scan_start : (vs : List Vmarea) → (scan vs).pre_start ≡ first top vs
  unfolding scan scan_areas scan_area
  scan_start [] = refl
  scan_start (v ∷ vs) = ap (λ s. s.pre_start) (scan-cons v vs)

  scan_from :
      (vs : List Vmarea) → scan vs ≡ record { pre_start = first top vs; result = (scan vs).result }
  scan_from vs = λ i. record { pre_start = scan_start vs i; result = (scan vs).result }

  scan-Best :
      (b : ℕ) (vs : List Vmarea)
      → IsOrdered top b vs
      → Best (first top vs) top n vs (scan vs).result
  unfolding scan scan_areas
  scan-Best b [] o = λ s l t un. omega arith
  scan-Best b (v ∷ vs) o =
      rw (scan-cons v vs, scan_from vs)
        (scan_step b v vs (scan vs).result o (scan-Best v.end vs o.3))

range_result-Finds :
    (ly : Layout) (v : Vmarea) (vs : List Vmarea) (npages : ℕ) (r : Option ℕ)
    → IsValid ly (v ∷ vs)
    → 0 < npages
    → Best v.start ly.high npages (v ∷ vs) r
    → Finds ly.low ly.high npages (v ∷ vs) (range_result ly (v ∷ vs) npages r)
unfolding range_result scan_head
range_result-Finds ly v vs npages (some r) ok pos best = (
  some r,
  refl,
  keep-Best ly.high npages pos ok.word ly.low ly.low ly.low (v ∷ vs) (v ∷ vs) ok.ordered
      (omega arith) (omega arith) (λ p h. refl) (λ s un l. l) r best,
)
range_result-Finds ly v vs npages none ok pos best = (
  if leb npages (sub32 v.start ly.low) then some (sub32 v.start npages) else none,
  ground arith,
  gap_step ly.high npages pos ok.word ly.low ly.low ly.low (v ∷ vs) (v ∷ vs) ok.ordered
      (omega arith) (omega arith) (λ p h. refl) (λ s un l. l) best,
)

-- On an address space that has an area, `vmmap_find_range` returns. A page that it returns starts
-- `npages` free pages inside the user part, and no such range starts higher; it returns -1 only if
-- there is no such range. It holds for both values of `dir`. (Given that the address space is
-- valid and `npages` is not 0.)
pub vmmap_find_range_lem :
    (ly : Layout) (v : Vmarea) (vs : List Vmarea) (npages : ℕ) (dir : Dir)
    → IsValid ly (v ∷ vs)
    → 0 < npages
    → Finds ly.low ly.high npages (v ∷ vs) (vmmap_find_range ly (v ∷ vs) npages dir)
unfolding vmmap_find_range scan
vmmap_find_range_lem ly v vs npages dir ok pos =
    range_result-Finds ly v vs npages (scan ly.high npages pos ok.word (v ∷ vs)).result ok pos
      (scan-Best ly.high npages pos ok.word ly.low (v ∷ vs) ok.ordered)
