-- ===== src/Vm/Vmmap/Clone.antt =====
-- `vmmap_clone`: the copy of the list that fork(2) makes.
use mathlib.Core.Option
use weenix.Prelude.{ℕ, ◌≡◌, refl, none, List, [], ◌∷◌, ◌++◌, map, append-nil, append_assoc, arith}
use weenix.Vm.Area.{Vmarea, Page, Layout, IsValid, IsOrdered, view}
use weenix.Vm.Vmmap.{clone_area, clone_from, vmmap_clone}

clone_from-map : (new vs : List Vmarea) → clone_from new vs ≡ new ++ map clone_area vs
unfolding clone_from
clone_from-map new [] = simp append-nil
clone_from-map new (v ∷ vs) = rw (clone_from-map (new ++ clone_area v ∷ []) vs) (simp append_assoc)

pub vmmap_clone-map : (vs : List Vmarea) → vmmap_clone vs ≡ map clone_area vs
unfolding vmmap_clone
vmmap_clone-map vs = clone_from-map [] vs

-- A page without its object.
abbrev pub bare : Page → Page
bare p = record p { obj = none }

view_clones : (vs : List Vmarea) (n : ℕ) → view (map clone_area vs) n ≡ Option.map bare (view vs n)
view_clones [] n = refl
view_clones (v ∷ vs) n = ground (arith, view_clones vs n)

clones-IsOrdered :
    (top b : ℕ) (vs : List Vmarea) → IsOrdered top b vs → IsOrdered top b (map clone_area vs)
clones-IsOrdered top b [] o = o
clones-IsOrdered top b (v ∷ vs) o = (o.0, o.1, o.2, clones-IsOrdered top v.end vs o.3)

-- The clone of a valid address space is valid, and maps the same pages at the same offsets with the
-- same permissions and flags, but to no object yet.
pub vmmap_clone-view :
    (ly : Layout) (vs : List Vmarea)
    → IsValid ly vs
    → IsValid ly (vmmap_clone vs)
      × ((n : ℕ) → view (vmmap_clone vs) n ≡ Option.map bare (view vs n))
vmmap_clone-view ly vs ok = rw (vmmap_clone-map vs) (
  record { ordered = clones-IsOrdered ly.high ly.low vs ok.ordered; word = ok.word },
  λ n. view_clones vs n,
)
