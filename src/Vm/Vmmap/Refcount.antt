-- ===== src/Vm/Vmmap/Refcount.antt =====
-- The references that `vmmap_remove` takes and gives back against the areas that use an object.
use weenix.Prelude.{
  ℕ, ◌+◌, ◌≤◌, ◌≡◌, none, some, List, [], ◌∷◌, ◌++◌, arith, if◌then◌else◌, returns, ◌==◌,
}
use weenix.Vm.Area.{Backed, Layout, Vmarea, IsValid}
use weenix.Vm.Vmmap.{
  Effect, obj_ref, obj_put, vmmap_free, tlb_flush_all, pt_unmap_range, olink_calls, vmmap_remove,
  destroy_areas, vmmap_destroy, put_calls,
}
use weenix.Vm.Vmmap.Remove.{pieces, piece_calls, all_pieces, all_calls, vmmap_remove_pieces}

-- How often an object is used by the areas of a list.
pub uses : ℕ → List Vmarea → ℕ
uses o [] = 0
uses o (v ∷ vs) = (elim v.obj [ none ↦ 0 | some p ↦ if p == o then 1 else 0 ]) + uses o vs

-- How often a list of calls takes a reference to an object, and gives one back.
pub refs : ℕ → List Effect → ℕ
refs o [] = 0
refs o (obj_ref p ∷ cs) = (if p == o then 1 else 0) + refs o cs
refs o (_ ∷ cs) = refs o cs

pub puts : ℕ → List Effect → ℕ
puts o [] = 0
puts o (obj_put p ∷ cs) = (if p == o then 1 else 0) + puts o cs
puts o (_ ∷ cs) = puts o cs

uses-append : (o : ℕ) (xs ys : List Vmarea) → uses o (xs ++ ys) ≡ uses o xs + uses o ys
unfolding uses
uses-append o [] ys = omega arith
uses-append o (x ∷ xs) ys = omega (arith, uses-append o xs ys)

refs-append : (o : ℕ) (xs ys : List Effect) → refs o (xs ++ ys) ≡ refs o xs + refs o ys
unfolding refs
refs-append o [] ys = omega arith
refs-append o (obj_ref p ∷ xs) ys = omega (arith, refs-append o xs ys)
refs-append o (_ ∷ xs) ys = omega (arith, refs-append o xs ys)

puts-append : (o : ℕ) (xs ys : List Effect) → puts o (xs ++ ys) ≡ puts o xs + puts o ys
unfolding puts
puts-append o [] ys = omega arith
puts-append o (obj_put p ∷ xs) ys = omega (arith, puts-append o xs ys)
puts-append o (_ ∷ xs) ys = omega (arith, puts-append o xs ys)

pieces_balance :
    (lo hi : ℕ) (v : Vmarea) (p o : ℕ)
    → v.obj ≡ some p
    → uses o (pieces lo hi v) + puts o (piece_calls lo hi v p)
      ≡ uses o (v ∷ []) + refs o (piece_calls lo hi v p)
unfolding pieces piece_calls uses puts refs
pieces_balance lo hi v p o e = ground arith

all_pieces_balance :
    (lo hi : ℕ) (vs : List Vmarea) (back : Backed vs) (o : ℕ)
    → uses o (all_pieces lo hi vs) + puts o (all_calls lo hi vs back)
      ≡ uses o vs + refs o (all_calls lo hi vs back)
unfolding all_pieces all_calls
all_pieces_balance lo hi [] back o = unfold uses puts refs in omega arith
all_pieces_balance lo hi (v ∷ vs) back o = omega (
  arith,
  uses-append o (pieces lo hi v) (all_pieces lo hi vs),
  puts-append o (piece_calls lo hi v back.0.0) (all_calls lo hi vs back.1),
  refs-append o (piece_calls lo hi v back.0.0) (all_calls lo hi vs back.1),
  uses-append o (v ∷ []) vs,
  pieces_balance lo hi v back.0.0 o back.0.1,
  all_pieces_balance lo hi vs back.1 o,
)

-- `vmmap_remove` keeps the reference counts right: it returns, and the number of areas that use an
-- object changes by the references that it takes less those that it gives back. (On a valid address
-- space whose areas have objects, for a range inside the user part.)
pub vmmap_remove_balance :
    (ly : Layout) (vs : List Vmarea) (lo npages : ℕ)
    → Backed vs
    → IsValid ly vs
    → ly.low ≤ lo
    → lo + npages ≤ ly.high
    → (vs' : List Vmarea) × (calls : List Effect) × (vmmap_remove ly vs lo npages
        ≡ returns (vs', calls))
      × ((o : ℕ) → uses o vs' + puts o calls ≡ uses o vs + refs o calls)
vmmap_remove_balance ly vs lo npages back ok low top = (
  all_pieces lo (lo + npages) vs,
  all_calls lo (lo + npages) vs back ++ tlb_flush_all ∷ pt_unmap_range lo (lo + npages) ∷ [],
  vmmap_remove_pieces ly vs back lo npages ok low top,
  λ o.
      unfold puts refs in
      omega (
        arith,
        puts-append o (all_calls lo (lo + npages) vs back)
            (tlb_flush_all ∷ pt_unmap_range lo (lo + npages) ∷ []),
        refs-append o (all_calls lo (lo + npages) vs back)
            (tlb_flush_all ∷ pt_unmap_range lo (lo + npages) ∷ []),
        all_pieces_balance lo (lo + npages) vs back o,
      ),
)

destroy_areas_balance :
    (vs : List Vmarea) (o : ℕ)
    → (puts o (destroy_areas vs) ≡ uses o vs) × (refs o (destroy_areas vs) ≡ 0)
unfolding destroy_areas uses puts refs
destroy_areas_balance [] o = omega arith
destroy_areas_balance (v ∷ vs) o = ground (
  arith,
  puts-append o (put_calls v.obj) (olink_calls v ++ destroy_areas vs),
  puts-append o (olink_calls v) (destroy_areas vs),
  refs-append o (put_calls v.obj) (olink_calls v ++ destroy_areas vs),
  refs-append o (olink_calls v) (destroy_areas vs),
  destroy_areas_balance vs o,
)

-- `vmmap_destroy` gives back exactly one reference for each area that uses an object.
pub vmmap_destroy_balance :
    (vs : List Vmarea) (o : ℕ)
    → (puts o (vmmap_destroy vs) ≡ uses o vs) × (refs o (vmmap_destroy vs) ≡ 0)
unfolding vmmap_destroy
vmmap_destroy_balance vs o =
    unfold puts refs in
    omega (
      arith,
      puts-append o (destroy_areas vs) (vmmap_free ∷ []),
      refs-append o (destroy_areas vs) (vmmap_free ∷ []),
      destroy_areas_balance vs o,
    )
