-- ===== src/Mm/Tests/Shadows.antt =====
-- Runs of shadow objects: object 2 shadows object 1, which has page 5 in frame 3; frame 7 is to be
-- filled with page 5 of object 2.
use weenix.Prelude.{
  ℕ, refl, true, Option, none, some, [], ◌∷◌, if◌then◌else◌, ◌==◌, arith, Exec, returns, Ret, done,
}
use weenix.Mm.State.{Mem}
use weenix.Mm.Pframe.Valid.{Valid}
use weenix.Mm.Shadow.{find_read, shadow_fillpage}
use weenix.Mm.Shadow.Chain.{Visible, Finds, find_read-Finds, Copies, shadow_fillpage-Copies}
use weenix.Mm.Tests.{ops, free_frame}

abbrev put : Mem → ℕ → Exec Mem
put s o = returns s

abbrev lookup_bottom : Mem → ℕ → ℕ → Exec (Ret ℕ × Mem)
lookup_bottom s o n = returns (done 3, s)

abbrev chained : Mem
chained = record {
  pframe = λ p.
      if p == 3
      then record free_frame { obj = some 1; pagenum = 5; pincount = 1; bytes = λ i. i }
      else if p == 7
      then record free_frame { obj = some 2; pagenum = 5; busy = true }
      else free_frame;
  mmobj = λ o.
      if o == 1
      then record { refcount = 3; nrespages = 1; respages = 3 ∷ []; shadowed = none; bottom = none }
      else if o == 2
      then record {
        refcount = 2;
        nrespages = 1;
        respages = 7 ∷ [];
        shadowed = some 1;
        bottom = some 1;
      }
      else record { refcount = 0; nrespages = 0; respages = []; shadowed = none; bottom = none };
  hash = λ c. if c == 6 then 3 ∷ [] else if c == 7 then 7 ∷ [] else [];
  pinned_list = 3 ∷ [];
  npinned = 1;
  alloc_list = 7 ∷ [];
  nallocated = 1;
  events = [];
}

chained-Valid : Valid (ops 1) chained
chained-Valid = record {
  alloced = λ p. ground arith;
  pinned = λ p. ground arith;
  nalloced = refl;
  npins = refl;
  hashed = λ p c. ground arith;
  owned = λ p o. ground arith;
  sized = λ o. ground arith;
  unique = λ p q o n a b. ground arith;
}

find_read-Finds_example :
    Finds
      (ops 1)
      put
      lookup_bottom
      chained
      5
      (2 ∷ [])
      (find_read (ops 1) put lookup_bottom 2 chained 2 5)
find_read-Finds_example =
    find_read-Finds (ops 1) put lookup_bottom 2 chained 2 5 (2 ∷ []) chained-Valid
      (refl, 1, refl, refl) (omega arith)

shadow_fillpage-Copies_example :
    (q : Option ℕ) × Visible chained.pframe 5 (1 ∷ []) q
    × Copies
        (ops 1)
        put
        lookup_bottom
        chained
        7
        q
        (shadow_fillpage (ops 1) put lookup_bottom 2 chained 2 7)
shadow_fillpage-Copies_example =
    shadow_fillpage-Copies (ops 1) put lookup_bottom 2 chained 2 7 (1 ∷ []) chained-Valid
      (refl, refl) (omega arith) refl refl refl
