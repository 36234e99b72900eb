-- ===== src/Vm/Vmmap/Insert.antt =====
-- `vmmap_insert`: the order of the list, and what the new address space maps.
use weenix.Prelude.{
  ℕ, ◌+◌, ◌-◌, ◌^◌, ◌≤◌, ◌<◌, ◌≡◌, refl, true, false, some, List, [], ◌∷◌, arith, leb,
  if◌then◌else◌, Bool-cases, inl, inr, returns, subst,
}
use weenix.Vm.Area.{Layout, Vmarea, covers, page_of, view, IsOrdered, IsValid, Backed}
use weenix.Vm.Vmmap.{insert_before, insertable, link, vmmap_insert}
use weenix.Vm.Vmmap.Lookup.{Unmapped, view-below}

-- The areas of an ordered list that a free range does not meet lie below it or above it.
free_side :
    (top b lo hi : ℕ) (v : Vmarea) (vs : List Vmarea)
    → IsOrdered top b (v ∷ vs)
    → lo < hi
    → Unmapped (v ∷ vs) lo hi
    → leb hi v.start ≡ false
    → v.end ≤ lo
free_side top b lo hi v vs o l un e = elim (Bool-cases (leb lo v.start)) [
  | inl c ↦ ground (arith, un v.start)
  | inr c ↦ ground (arith, un lo)
]

Unmapped-tail :
    (top b lo hi : ℕ) (v : Vmarea) (vs : List Vmarea)
    → IsOrdered top b (v ∷ vs)
    → Unmapped (v ∷ vs) lo hi
    → Unmapped vs lo hi
Unmapped-tail top b lo hi v vs o un n a c = ground (arith, un n a c, view-below top v.end vs n o.3)

insert_before-IsOrdered :
    (top b : ℕ) (new : Vmarea) (vs : List Vmarea)
    → IsOrdered top b vs
    → new.start < new.end
    → b ≤ new.start
    → new.end ≤ top
    → new.off + (new.end - new.start) < 2 ^ 32
    → Unmapped vs new.start new.end
    → IsOrdered top b (insert_before new vs)
unfolding insert_before
insert_before-IsOrdered top b new [] o h l t w un = omega arith
insert_before-IsOrdered top b new (v ∷ vs) o h l t w un = elim (Bool-cases (leb new.end v.start)) [
  | inl e ↦ rw e (l, h, w, (ground arith, o.1, o.2, o.3))
  | inr e ↦ rw e (
    o.0,
    o.1,
    o.2,
    insert_before-IsOrdered top v.end new vs o.3 h (free_side top b new.start new.end v vs o h un e)
        t w (Unmapped-tail top b new.start new.end v vs o un),
  )
]

view-insert_before :
    (top b : ℕ) (new : Vmarea) (vs : List Vmarea) (n : ℕ)
    → IsOrdered top b vs
    → Unmapped vs new.start new.end
    → view (insert_before new vs) n ≡ (if covers new n then some (page_of new n) else view vs n)
unfolding insert_before
view-insert_before top b new [] n o un = refl
view-insert_before top b new (v ∷ vs) n o un = ground (
  arith,
  un n,
  view-insert_before top v.end new vs n o.3 (Unmapped-tail top b new.start new.end v vs o un),
)

-- `vmmap_insert` of an area that is not empty, lies in the user part, has no map yet and meets no
-- mapped page returns. The list stays valid, and a page of the new area is now the new area's,
-- while every other page is mapped as before. (Given that the list was valid and that the offsets
-- of the new area do not overflow.)
pub vmmap_insert_lem :
    (ly : Layout) (vs : List Vmarea) (new : Vmarea)
    → IsValid ly vs
    → insertable ly new ≡ true
    → new.off + (new.end - new.start) < 2 ^ 32
    → Unmapped vs new.start new.end
    → (vs' : List Vmarea) × (vmmap_insert ly vs new ≡ returns vs')
      × IsValid ly vs'
      × ((n : ℕ) → view vs' n ≡ (if covers new n then some (page_of new n) else view vs n))
unfolding vmmap_insert
vmmap_insert_lem ly vs new ok ins w un = (
  insert_before (link new) vs,
  rw ins,
  record {
    ordered =
        insert_before-IsOrdered ly.high ly.low (link new) vs ok.ordered (ground arith)
          (ground arith) (ground arith) w un;
    word = ok.word;
  },
  λ n. view-insert_before ly.high ly.low (link new) vs n ok.ordered un,
)

insert_before-Backed :
    (new : Vmarea) (vs : List Vmarea)
    → ((o : ℕ) × (new.obj ≡ some o))
    → Backed vs
    → Backed (insert_before new vs)
unfolding insert_before
insert_before-Backed new [] h b = (h, tt)
insert_before-Backed new (v ∷ vs) h b = elim (Bool-cases (leb new.end v.start)) [
  | inl e ↦ rw e (h, b)
  | inr e ↦ rw e (b.0, insert_before-Backed new vs h b.1)
]

pub vmmap_insert-Backed :
    (ly : Layout) (vs vs' : List Vmarea) (new : Vmarea)
    → vmmap_insert ly vs new ≡ returns vs'
    → ((o : ℕ) × (new.obj ≡ some o))
    → Backed vs
    → Backed vs'
unfolding vmmap_insert
vmmap_insert-Backed ly vs vs' new e h b = elim (Bool-cases (insertable ly new)) [
  | inl c ↦ subst Backed (ground arith) (insert_before-Backed (link new) vs h b)
  | inr c ↦ ground arith
]
