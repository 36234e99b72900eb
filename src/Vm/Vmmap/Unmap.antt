-- ===== src/Vm/Vmmap/Unmap.antt =====
-- What `vmmap_remove` does to the address space: the pages that it unmaps, the order of the areas,
-- and the references to memory objects.
use weenix.Prelude.{
  ℕ, ◌+◌, ◌-◌, ◌^◌, ◌≤◌, ◌<◌, ◌≡◌, refl, none, some, List, [], ◌∷◌, ◌++◌, arith, leb, ltb,
  if◌then◌else◌, ◌&&◌, Bool-cases, inl, inr, returns,
}
use weenix.Vm.Area.{Backed, Layout, Vmarea, covers, page_of, view, IsOrdered, IsValid}
use weenix.Vm.Vmmap.{Effect, moved_off, vmmap_remove}
use weenix.Vm.Vmmap.Lookup.{IsOrdered-le}
use weenix.Vm.Vmmap.Remove.{pieces, all_pieces, vmmap_remove_pieces}

view-append :
    (xs ys : List Vmarea) (n : ℕ)
    → view (xs ++ ys) n ≡ elim (view xs n) [ none ↦ view ys n | some p ↦ some p ]
view-append [] ys n = refl
view-append (x ∷ xs) ys n = ground (arith, view-append xs ys n)

IsOrdered-weaken :
    (top b c : ℕ) (vs : List Vmarea) → b ≤ c → IsOrdered top c vs → IsOrdered top b vs
IsOrdered-weaken top b c [] l o = omega arith
IsOrdered-weaken top b c (v ∷ vs) l o = (omega arith, o.1, o.2, o.3)

module _ (top lo hi : ℕ) (word : top < 2 ^ 31) (le : lo ≤ hi) where
  moved_off_lem :
      (v : Vmarea)
      → v.start ≤ hi
      → hi < v.end
      → v.end ≤ top
      → v.off + (v.end - v.start) < 2 ^ 32
      → moved_off v hi ≡ v.off + (hi - v.start)
  moved_off_lem v a b c d = omega arith

  view-pieces :
      (v : Vmarea) (n : ℕ)
      → v.start < v.end
      → v.end ≤ top
      → v.off + (v.end - v.start) < 2 ^ 32
      → view (pieces lo hi v) n
        ≡ (if leb lo n && ltb n hi then none else if covers v n then some (page_of v n) else none)
  unfolding pieces
  view-pieces v n a b c = ground (arith, moved_off_lem v)

  view-all_pieces :
      (b : ℕ) (vs : List Vmarea) (n : ℕ)
      → IsOrdered top b vs
      → view (all_pieces lo hi vs) n ≡ (if leb lo n && ltb n hi then none else view vs n)
  unfolding all_pieces
  view-all_pieces b [] n o = ground arith
  view-all_pieces b (v ∷ vs) n o = ground (
    arith,
    view-append (pieces lo hi v) (all_pieces lo hi vs) n,
    view-pieces v n o.1 (IsOrdered-le top v.end vs o.3) o.2,
    view-all_pieces v.end vs n o.3,
  )

  pieces-IsOrdered :
      (b : ℕ) (v : Vmarea) (ws : List Vmarea)
      → b ≤ v.start
      → v.start < v.end
      → v.end ≤ top
      → v.off + (v.end - v.start) < 2 ^ 32
      → IsOrdered top v.end ws
      → IsOrdered top b (pieces lo hi v ++ ws)
  unfolding pieces
  pieces-IsOrdered b v ws a c d e o =
      ground
        (arith, moved_off_lem v, IsOrdered-weaken top b v.end ws, IsOrdered-weaken top lo v.end ws)

  all_pieces-IsOrdered :
      (b : ℕ) (vs : List Vmarea) → IsOrdered top b vs → IsOrdered top b (all_pieces lo hi vs)
  unfolding all_pieces
  all_pieces-IsOrdered b [] o = o
  all_pieces-IsOrdered b (v ∷ vs) o =
      pieces-IsOrdered b v (all_pieces lo hi vs) o.0 o.1 (IsOrdered-le top v.end vs o.3) o.2
        (all_pieces-IsOrdered v.end vs o.3)

Backed-append : (xs ys : List Vmarea) → Backed xs → Backed ys → Backed (xs ++ ys)
Backed-append [] ys p q = q
Backed-append (x ∷ xs) ys p q = (p.0, Backed-append xs ys p.1 q)

pieces-Backed : (lo hi : ℕ) (v : Vmarea) → ((o : ℕ) × (v.obj ≡ some o)) → Backed (pieces lo hi v)
unfolding pieces
pieces-Backed lo hi v h = elim (Bool-cases (ltb v.start lo)) [
  | inl a ↦ elim (Bool-cases (ltb hi v.end)) [
    | inl c ↦ rw (a, c) (h, (h, tt))
    | inr c ↦ elim (Bool-cases (ltb lo v.end)) [
      | inl d ↦ rw (a, c, d) (h, tt)
      | inr d ↦ rw (a, c, d) (h, tt)
    ]
  ]
  | inr a ↦ elim (Bool-cases (leb v.end hi)) [
    | inl c ↦ rw (a, c) tt
    | inr c ↦ elim (Bool-cases (ltb v.start hi)) [
      | inl d ↦ rw (a, c, d) (h, tt)
      | inr d ↦ rw (a, c, d) (h, tt)
    ]
  ]
]

all_pieces-Backed : (lo hi : ℕ) (vs : List Vmarea) → Backed vs → Backed (all_pieces lo hi vs)
unfolding all_pieces
all_pieces-Backed lo hi [] b = tt
all_pieces-Backed lo hi (v ∷ vs) b =
    Backed-append (pieces lo hi v) _ (pieces-Backed lo hi v b.0) (all_pieces-Backed lo hi vs b.1)

-- `vmmap_remove` unmaps exactly the range. On a valid address space whose areas have objects, and
-- for a range inside the user part, it returns; the areas stay valid and keep their objects, no
-- page of the range is mapped, and every other page is mapped as before.
pub vmmap_remove-view :
    (ly : Layout) (vs : List Vmarea) (lo npages : ℕ)
    → Backed vs
    → IsValid ly vs
    → ly.low ≤ lo
    → lo + npages ≤ ly.high
    → (vs' : List Vmarea) × (calls : List Effect) × (vmmap_remove ly vs lo npages
        ≡ returns (vs', calls))
      × IsValid ly vs'
      × Backed vs'
      × ((n : ℕ) → view vs' n ≡ (if leb lo n && ltb n (lo + npages) then none else view vs n))
vmmap_remove-view ly vs lo npages back ok low top = (
  all_pieces lo (lo + npages) vs,
  _,
  vmmap_remove_pieces ly vs back lo npages ok low top,
  record {
    ordered =
        all_pieces-IsOrdered ly.high lo (lo + npages) ok.word (omega arith) ly.low vs ok.ordered;
    word = ok.word;
  },
  all_pieces-Backed lo (lo + npages) vs back,
  λ n. view-all_pieces ly.high lo (lo + npages) ok.word (omega arith) ly.low vs n ok.ordered,
)
