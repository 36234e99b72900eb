-- ===== src/Mm/Tests.antt =====
-- Runs of the page frames and of an anonymous object: object 1 has the page 5, in frame 3, which is
-- pinned, and one reference besides that of the page.
mod Shadows
use weenix.Prelude.{
  ℕ, ◌+◌, ◌≡◌, refl, Bool, true, false, Option, none, some, [], ◌∷◌, if◌then◌else◌, ◌==◌, arith,
  returns,
}
use weenix.Mm.State.{Pframe, Mem, Mmops}
use weenix.Mm.Pframe.{pframe_pin, pframe_unpin, pframe_get, pframe_clean_all, Got, got}
use weenix.Mm.Pframe.Valid.{Valid}
use weenix.Mm.Pframe.Pin.{pframe_unpin-pin}
use weenix.Mm.Pframe.Free.{Sound, IsMmops}
use weenix.Mm.Pframe.Get.{GetEnds, pframe_get-Sound}
use weenix.Mm.Pframe.Clean.{Calm, Cleaned, pframe_clean_all-Cleaned}
use weenix.Mm.Anon.{anon_ops, anon_put, anon_lookuppage}
use weenix.Mm.Anon.Laws.{anon_ops-IsMmops}
use weenix.Mm.Anon.Zero.{IsZeroed, anon_lookuppage-IsZeroed}
use weenix.Mm.Anon.Put.{Gone, Aside, Idle, anon_put_last}

abbrev chain : ℕ → ℕ → ℕ
chain o n = o + n

abbrev slab : Mem → Option ℕ
slab s = some 7

abbrev page : Mem → Option (ℕ → ℕ)
page s = some (λ i. 9)

abbrev pub ops : ℕ → Mmops
ops depth = anon_ops chain slab page depth

abbrev pub free_frame : Pframe
free_frame = record {
  obj = none;
  pagenum = 0;
  busy = false;
  dirty = false;
  pincount = 0;
  bytes = λ i. 0;
}

abbrev start : Mem
start = record {
  pframe = λ p.
      if p == 3 then record free_frame { obj = some 1; pagenum = 5; pincount = 1 } else free_frame;
  mmobj = λ o.
      if o == 1
      then record { refcount = 2; nrespages = 1; respages = 3 ∷ []; shadowed = none; bottom = none }
      else record { refcount = 0; nrespages = 0; respages = []; shadowed = none; bottom = none };
  hash = λ c. if c == 6 then 3 ∷ [] else [];
  pinned_list = 3 ∷ [];
  npinned = 1;
  alloc_list = [];
  nallocated = 0;
  events = [];
}

start-Valid : (depth : ℕ) → Valid (ops depth) start
start-Valid depth = record {
  alloced = λ p. ground arith;
  pinned = λ p. ground arith;
  nalloced = refl;
  npins = refl;
  hashed = λ p c. ground arith;
  owned = λ p o. ground arith;
  sized = λ o. ground arith;
  unique = λ p q o n a b. ground arith;
}

abbrev live : ℕ → Bool
live o = o == 1

start-Sound : (depth : ℕ) → Sound (ops depth) live start
start-Sound depth = (start-Valid depth, λ o e. ground arith)

-- Page 6 is not resident, and frame 7 is free.
pframe_get-Sound_example :
    (g : Got) × (t : Mem) × (pframe_get (ops 1) start 1 6 ≡ returns (g, t))
    × Sound (ops 1) live t
    × GetEnds (ops 1) live 1 6 g t
pframe_get-Sound_example =
    pframe_get-Sound (ops 1) live start 1 6 7 (anon_ops-IsMmops chain slab page 0 live)
      (start-Sound 1) refl (refl, λ t e. refl, λ t e. (λ i. 9, refl))

start-Idle : Idle start 1
start-Idle = λ p e. ground arith

anon_put_last_example :
    (t : Mem) × (anon_put chain slab page 2 start 1 ≡ returns t)
    × Valid (ops 1) t
    × Gone chain slab page t 1
    × Aside 1 start t
anon_put_last_example = anon_put_last chain slab page 0 start 1 (start-Valid 1) refl start-Idle

-- The page on `alloc_list`, and dirty.
abbrev untidy : Mem
untidy = record start {
  pframe = λ p.
      if p == 3 then record free_frame { obj = some 1; pagenum = 5; dirty = true } else free_frame;
  pinned_list = [];
  npinned = 0;
  alloc_list = 3 ∷ [];
  nallocated = 1;
}

untidy-Valid : Valid (ops 1) untidy
untidy-Valid = record {
  alloced = λ p. ground arith;
  pinned = λ p. ground arith;
  nalloced = refl;
  npins = refl;
  hashed = λ p c. ground arith;
  owned = λ p o. ground arith;
  sized = λ o. ground arith;
  unique = λ p q o n a b. ground arith;
}

untidy-Calm : Calm (ops 1) untidy
untidy-Calm = λ p. ground arith

pframe_clean_all-Cleaned_example : Cleaned (ops 1) untidy (pframe_clean_all (ops 1) untidy)
pframe_clean_all-Cleaned_example =
    pframe_clean_all-Cleaned (ops 1) untidy (λ s o p. refl) untidy-Valid untidy-Calm

anon_lookuppage_example :
    (t : Mem) × (anon_lookuppage chain slab page 2 start 1 6 ≡ returns (got 7, t))
    × Valid (ops 2) t
    × IsZeroed chain slab page start t 1 6 7
anon_lookuppage_example =
    anon_lookuppage-IsZeroed chain slab page 1 start 1 6 7 (start-Valid 2) (omega arith)
      (refl, λ t e. refl, λ t e. (λ i. 9, refl)) (λ q. ground arith)
