-- ===== src/Vm/Fork.antt =====
-- kernel/proc/fork.c: what fork(2) does with the address spaces of the parent and of the child.
pub mod Pairs
pub mod Spaces
pub mod View
use weenix.Prelude.{
  ℕ, Bool, true, false, ◌&&◌, not, Option, none, some, List, [], ◌∷◌, if◌then◌else◌, Exec, returns,
  ◌>>=◌, deref,
}
use weenix.Mm.State.{Mmobj, Mem, set_obj}
use weenix.Mm.Shadow.{shadow_create}
use weenix.Vm.Area.{MapFlags, Vmarea, covers}
use weenix.Vm.Vmmap.{vmmap_lookup, vmmap_clone}

-- `MAP_SHARED == (vma_flags & MAP_TYPE)`.
abbrev pub is_shared : MapFlags → Bool
is_shared f = f.shared && not f.private

-- The addresses that `slab_obj_alloc` gives one after the other.
abbrev pub next_new : List ℕ → Option ℕ
next_new [] = none
next_new (a ∷ news) = some a

abbrev pub later_news : List ℕ → List ℕ
later_news [] = []
later_news (a ∷ news) = news

abbrev pub set_shadowed : Mem → ℕ → Option ℕ → Mem
set_shadowed s a x = set_obj s a (record (s.mmobj a) { shadowed = x })

abbrev pub set_bottom : Mem → ℕ → Option ℕ → Mem
set_bottom s a x = set_obj s a (record (s.mmobj a) { bottom = x })

-- The area that `vmmap_lookup` finds for a page, with another one in its place.
pub replaced : List Vmarea → ℕ → Vmarea → List Vmarea
replaced [] n p = []
replaced (v ∷ vs) n p = if covers v n then p ∷ vs else v ∷ replaced vs n p

-- `bottom_of` is `mmobj_bottom_obj` of the headers, and `ref` the operation of the memory objects, which
-- is called through a pointer.
module _ (bottom_of : Mmobj → ℕ → Option ℕ) (ref : Mem → ℕ → Exec Mem) where
  -- The shadow object of the parent, for the object `o`.
  pub parent_shadow : Mem → ℕ → Option ℕ → Exec (ℕ × Mem)
  parent_shadow s o new = do
    (a, s1) ← shadow_create s new
    let s2 = set_shadowed s1 a (some o)
    returns (a, set_bottom s2 a (bottom_of (s2.mmobj o) o))

  -- The shadow object of the child.
  pub child_shadow : Mem → ℕ → Option ℕ → Exec (ℕ × Mem)
  child_shadow s o new = do
    (c, s1) ← shadow_create s new
    s2 ← ref (set_shadowed s1 c (some o)) o
    let s3 = set_bottom s2 c (bottom_of (s2.mmobj o) o)
    b ← deref (s3.mmobj c).bottom
    s4 ← ref s3 b
    returns (c, s4)

  -- The areas of the child and of the parent, the addresses that are left, and the memory. The child's
  -- area goes on the list of areas of the object at the bottom.
  pub handle_memory_object : Mem → List ℕ → Vmarea → Vmarea → Exec (Vmarea × Vmarea × List ℕ × Mem)
  handle_memory_object s news child parent = do
    o ← deref parent.obj
    if is_shared child.flags
        then (do
          t ← ref s o
          returns (record child { obj = some o; olinked = true }, parent, news, t))
        else (do
          (a, s1) ← parent_shadow s o (next_new news)
          (c, s2) ← child_shadow s1 o (next_new (later_news news))
          b ← deref (s2.mmobj a).bottom
          t ← ref s2 b
          returns (
            record child { obj = some c; olinked = true },
            record parent { obj = some a },
            later_news (later_news news),
            t,
          ))

  -- The loop of do_fork over the areas of the child. The area of the parent is looked up and used
  -- without a test for NULL.
  pub fork_areas :
      Mem → List ℕ → List Vmarea → List Vmarea → Exec (List Vmarea × List Vmarea × List ℕ × Mem)
  fork_areas s news parents [] = returns ([], parents, news, s)
  fork_areas s news parents (v ∷ vs) = do
    p ← deref (vmmap_lookup parents v.start)
    (v', p', rest, t) ← handle_memory_object s news v p
    (vs', parents', left, u) ← fork_areas t rest (replaced parents v.start p') vs
    returns (v' ∷ vs', parents', left, u)

  -- The address spaces of child and parent: create_child_process and the loop.
  pub fork_vmmap : Mem → List ℕ → List Vmarea → Exec (List Vmarea × List Vmarea × List ℕ × Mem)
  fork_vmmap s news parents = fork_areas s news parents (vmmap_clone parents)
