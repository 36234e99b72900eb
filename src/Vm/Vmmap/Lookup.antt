-- ===== src/Vm/Vmmap/Lookup.antt =====
-- `vmmap_lookup` and `vmmap_is_range_empty` against the pages that the list of areas maps.
use weenix.Prelude.{
  ℕ, ◌+◌, ◌-◌, ◌^◌, ◌≤◌, ◌<◌, ◌≡◌, refl, ◌⊎◌, inl, inr, true, false, none, some, List, [], ◌∷◌,
  arith, Bool-cases, if◌then◌else◌, add32, returns, ap, ltb, leb, ◌&&◌,
}
use mathlib.Core.Option
use weenix.Vm.Area.{Layout, Vmarea, Page, covers, page_of, view, IsOrdered, IsValid}
use weenix.Vm.Vmmap.{lookup_from, vmmap_lookup, empty_from, vmmap_is_range_empty}

lookup_from-some : (v : Vmarea) (vs : List Vmarea) (n : ℕ) → lookup_from (some v) vs n ≡ some v
unfolding lookup_from
lookup_from-some v [] n = refl
lookup_from-some v (w ∷ vs) n = lookup_from-some v vs n

pub vmmap_lookup-cons :
    (v : Vmarea) (vs : List Vmarea) (n : ℕ)
    → vmmap_lookup (v ∷ vs) n ≡ (if covers v n then some v else vmmap_lookup vs n)
unfolding vmmap_lookup lookup_from
vmmap_lookup-cons v vs n = ground (arith, lookup_from-some v vs n)

-- `vmmap_lookup` finds the area of the page: it returns NULL exactly for a page that is not mapped,
-- and otherwise an area that puts behind the page what the address space maps there.
pub vmmap_lookup-view :
    (vs : List Vmarea) (n : ℕ) → Option.map (λ v. page_of v n) (vmmap_lookup vs n) ≡ view vs n
unfolding vmmap_lookup lookup_from
vmmap_lookup-view [] n = refl
vmmap_lookup-view (v ∷ vs) n = ground (arith, vmmap_lookup-cons v vs n, vmmap_lookup-view vs n)

pub IsOrdered-le : (top b : ℕ) (vs : List Vmarea) → IsOrdered top b vs → b ≤ top
IsOrdered-le top b [] o = o
IsOrdered-le top b (v ∷ vs) o = omega (arith, IsOrdered-le top v.end vs o.3)

pub view-below :
    (top b : ℕ) (vs : List Vmarea) (n : ℕ) → IsOrdered top b vs → n < b → view vs n ≡ none
view-below top b [] n o h = refl
view-below top b (v ∷ vs) n o h = ground (arith, view-below top v.end vs n o.3)

pub view-above :
    (top b : ℕ) (vs : List Vmarea) (n : ℕ) → IsOrdered top b vs → top ≤ n → view vs n ≡ none
view-above top b [] n o h = refl
view-above top b (v ∷ vs) n o h =
    ground (arith, IsOrdered-le top v.end vs o.3, view-above top v.end vs n o.3)

-- Whether some page of `lo ≤ n < hi` is mapped.
abbrev pub Unmapped : List Vmarea → ℕ → ℕ → Type 0
Unmapped vs lo hi = (n : ℕ) → lo ≤ n → n < hi → view vs n ≡ none

abbrev pub Mapped : List Vmarea → ℕ → ℕ → Type 0
Mapped vs lo hi = (n : ℕ) × (lo ≤ n) × (n < hi) × (p : Page) × (view vs n ≡ some p)

empty_from-false : (vs : List Vmarea) (lo hi : ℕ) → empty_from false vs lo hi ≡ false
unfolding empty_from
empty_from-false [] lo hi = refl
empty_from-false (v ∷ vs) lo hi = ground (arith, empty_from-false vs lo hi)

first_page :
    (v : Vmarea) (vs : List Vmarea) (lo hi : ℕ)
    → v.start < v.end
    → lo < hi
    → v.start < hi
    → lo < v.end
    → Mapped (v ∷ vs) lo hi
first_page v vs lo hi h l a b = elim (Bool-cases (leb lo v.start)) [
  | inl e ↦ (v.start, ground arith, ground arith, page_of v v.start, ground arith)
  | inr e ↦ (lo, ground arith, ground arith, page_of v lo, ground arith)
]

Mapped-cons : (v : Vmarea) (vs : List Vmarea) (lo hi : ℕ) → Mapped vs lo hi → Mapped (v ∷ vs) lo hi
Mapped-cons v vs lo hi (n, a, b, p, e) = elim (Bool-cases (covers v n)) [
  | inl c ↦ (n, a, b, page_of v n, rw c)
  | inr c ↦ (n, a, b, p, rw c e)
]

empty_from_lem :
    (top b : ℕ) (vs : List Vmarea) (lo hi : ℕ)
    → IsOrdered top b vs
    → lo < hi
    → ((empty_from true vs lo hi ≡ true) × Unmapped vs lo hi)
      ⊎ ((empty_from true vs lo hi ≡ false) × Mapped vs lo hi)
unfolding empty_from
empty_from_lem top b [] lo hi o l = inl (refl, λ n a c. refl)
empty_from_lem top b (v ∷ vs) lo hi o l = elim (Bool-cases (ltb v.start hi && ltb lo v.end)) [
  | inl e ↦
      inr (
        rw e (empty_from-false vs lo hi),
        first_page v vs lo hi o.1 l (ground arith) (ground arith),
      )
  | inr e ↦ elim (empty_from_lem top v.end vs lo hi o.3 l) [
    | inl (t, un) ↦ inl (rw e t, λ n a c. ground (arith, un n a c))
    | inr (f, m) ↦ inr (rw e f, Mapped-cons v vs lo hi m)
  ]
]

-- On a range inside the user part, `vmmap_is_range_empty` returns, and it returns 1 exactly when
-- no page of the range is mapped: with 0 there is a mapped page in the range. (Given a valid
-- address space and a range that is not empty.)
pub vmmap_is_range_empty_lem :
    (ly : Layout) (vs : List Vmarea) (lo npages : ℕ)
    → IsValid ly vs
    → 0 < npages
    → ly.low ≤ lo
    → lo + npages ≤ ly.high
    → ((vmmap_is_range_empty ly vs lo npages ≡ returns true) × Unmapped vs lo (lo + npages))
      ⊎ ((vmmap_is_range_empty ly vs lo npages ≡ returns false) × Mapped vs lo (lo + npages))
unfolding vmmap_is_range_empty
vmmap_is_range_empty_lem ly vs lo npages ok pos a b =
    let e : add32 lo npages ≡ lo + npages = omega (arith, ok.word) in
    let t : (ltb lo (lo + npages) && leb ly.low lo && leb (lo + npages) ly.high) ≡ true =
      ground arith in
    rw (e, t)
      (elim (empty_from_lem ly.high ly.low vs lo (lo + npages) ok.ordered (omega arith)) [
        | inl (q, un) ↦ inl (ap returns q, un)
        | inr (q, m) ↦ inr (ap returns q, m)
      ])

pub vmmap_lookup-nil : (n : ℕ) → vmmap_lookup [] n ≡ none
unfolding vmmap_lookup lookup_from
vmmap_lookup-nil n = refl

-- An area that a lookup finds covers the page and lies in the address space.
pub record Found (top b n : ℕ) (v : Vmarea) : Type 0 where
  pub below : v.start ≤ n
  pub above : n < v.end
  pub from : b ≤ v.start
  pub to : v.end ≤ top
  pub offset : v.off + (v.end - v.start) < 2 ^ 32

pub lookup-Found :
    (top b n : ℕ) (v : Vmarea) (vs : List Vmarea)
    → IsOrdered top b vs
    → vmmap_lookup vs n ≡ some v
    → Found top b n v
lookup-Found top b n v [] o e = cc (vmmap_lookup-nil n)
lookup-Found top b n v (w ∷ vs) o e = elim (Bool-cases (covers w n)) [
  | inl c ↦ ground (arith, vmmap_lookup-cons w vs n, IsOrdered-le top w.end vs o.3)
  | inr c ↦
      let f = lookup-Found top w.end n v vs o.3 (ground (arith, vmmap_lookup-cons w vs n)) in
      record { below = f.below; above = f.above; from = omega arith; to = f.to; offset = f.offset }
]

pub lookup-none : (vs : List Vmarea) (n : ℕ) → view vs n ≡ none → vmmap_lookup vs n ≡ none
lookup-none vs n e = ground (arith, vmmap_lookup-view vs n)
