-- ===== src/Vm/Vmmap/Remove.antt =====
-- `vmmap_remove`: its loop against the pieces that each area leaves, and what stays mapped.
use weenix.Prelude.{
  ℕ, zero, suc, ◌+◌, ◌*◌, ◌≤◌, ◌<◌, ◌≡◌, refl, true, false, some, List, [], ◌∷◌, ◌++◌, append-nil,
  append_assoc, arith, leb, ltb, if◌then◌else◌, ◌&&◌, Bool-cases, inl, inr, returns, add32, All,
  length, ◌>>=◌,
}
use weenix.Vm.Area.{Layout, Vmarea, IsOrdered, IsValid, Backed}
use weenix.Vm.Vmmap.{
  Effect, obj_ref, obj_put, vmarea_free, tlb_flush_all, pt_unmap_range, Cursor, any_above, link,
  link_at, link_rest, moved_off, upper_part, olink_calls, split_case, tail_case, head_case,
  drop_case, remove_loop, vmmap_remove,
}
use weenix.Vm.Vmmap.Lookup.{IsOrdered-le}

-- What the removal of the pages `lo ≤ n < hi` leaves of one area.
unfoldable pub pieces : ℕ → ℕ → Vmarea → List Vmarea
pieces lo hi v =
    if ltb v.start lo
    then (if ltb hi v.end
        then record v { end = lo } ∷ link (upper_part hi v) ∷ []
        else if ltb lo v.end
        then record v { end = lo } ∷ []
        else v ∷ [])
    else if leb v.end hi
    then []
    else if ltb v.start hi
    then record v { off = moved_off v hi; start = hi } ∷ []
    else v ∷ []

-- The calls on its object: a `ref` for a split, a `put` and the releases for a removal.
unfoldable pub piece_calls : ℕ → ℕ → Vmarea → ℕ → List Effect
piece_calls lo hi v o =
    if ltb v.start lo
    then (if ltb hi v.end then obj_ref o ∷ [] else [])
    else if leb v.end hi
    then obj_put o ∷ (olink_calls v ++ vmarea_free ∷ [])
    else []

unfoldable pub all_pieces : ℕ → ℕ → List Vmarea → List Vmarea
all_pieces lo hi [] = []
all_pieces lo hi (v ∷ vs) = pieces lo hi v ++ all_pieces lo hi vs

unfoldable pub all_calls : ℕ → ℕ → (vs : List Vmarea) → Backed vs → List Effect
all_calls lo hi [] b = []
all_calls lo hi (v ∷ vs) b = piece_calls lo hi v b.0.0 ++ all_calls lo hi vs b.1

-- The areas behind the loop start below the part that it has still to visit.
abbrev StartBelow : ℕ → List Vmarea → Type 0
StartBelow b ws = All (λ (w : Vmarea). w.start < b) ws

any_above-StartBelow :
    (n b : ℕ) (ws : List Vmarea) → StartBelow b ws → b ≤ n → any_above n ws ≡ false
unfolding any_above
any_above-StartBelow n b [] h l = refl
any_above-StartBelow n b (w ∷ ws) h l = ground (arith, any_above-StartBelow n b ws h.1 l)

link_rest-fresh :
    (top : ℕ) (c : Cursor) (new : Vmarea) (vs : List Vmarea)
    → IsOrdered top new.end vs
    → link_rest c new vs ≡ record c { fresh = new ∷ [] }
unfolding link_rest
link_rest-fresh top c new [] o = refl
link_rest-fresh top c new (v ∷ vs) o = ground arith

module _ (ly : Layout) (lo hi : ℕ) (low : ly.low ≤ lo) (le : lo ≤ hi) where
  at : List Vmarea → Vmarea → List Vmarea → Cursor
  at seen v vs = record { seen = seen; cur = v; fresh = []; rest = vs }

  link_at-upper :
      (b : ℕ) (seen : List Vmarea) (v : Vmarea) (vs : List Vmarea)
      → IsOrdered ly.high b (v ∷ vs)
      → StartBelow b seen
      → link_at (at seen v vs) (link (upper_part hi v))
        ≡ record (at seen v vs) { fresh = link (upper_part hi v) ∷ [] }
  unfolding link_at at
  link_at-upper b seen v vs ord below = ground (
    arith,
    any_above-StartBelow v.end b seen below,
    link_rest-fresh ly.high (at seen v vs) (link (upper_part hi v)) vs ord.3,
  )

  split_case-inside :
      (b o : ℕ) (seen : List Vmarea) (v : Vmarea) (vs : List Vmarea)
      → IsOrdered ly.high b (v ∷ vs)
      → StartBelow b seen
      → v.obj ≡ some o
      → v.start < lo
      → hi < v.end
      → split_case ly lo hi (at seen v vs)
        ≡ returns (
          record (at seen v vs) {
            fresh = link (upper_part hi v) ∷ [];
            cur = record v { end = lo };
          },
          obj_ref o ∷ [],
        )
  unfolding split_case at
  split_case-inside b o seen v vs ord below e p q =
      ground (arith, link_at-upper b seen v vs ord below, IsOrdered-le ly.high v.end vs ord.3)

  split_case-outside :
      (seen : List Vmarea) (v : Vmarea) (vs : List Vmarea)
      → ltb v.start lo && ltb hi v.end ≡ false
      → split_case ly lo hi (at seen v vs) ≡ returns (at seen v vs, [])
  unfolding split_case at
  split_case-outside seen v vs e = rw e

  shorten :
      (v : Vmarea)
      → v.start < lo
      → drop_case lo hi (head_case lo hi (tail_case lo hi (record v { end = lo })))
        ≡ returns (record v { end = lo } ∷ [], [])
  unfolding tail_case head_case drop_case
  shorten v h = ground arith

  cut_rest :
      (v : Vmarea) (o : ℕ)
      → v.obj ≡ some o
      → v.start < v.end
      → ltb v.start lo && ltb hi v.end ≡ false
      → drop_case lo hi (head_case lo hi (tail_case lo hi v))
        ≡ returns (pieces lo hi v, piece_calls lo hi v o)
  unfolding pieces piece_calls tail_case head_case drop_case
  cut_rest v o e ne out = ground arith

  pieces-inside :
      (v : Vmarea) (o : ℕ)
      → ltb v.start lo && ltb hi v.end ≡ true
      → (pieces lo hi v ≡ record v { end = lo } ∷ link (upper_part hi v) ∷ [])
        × (piece_calls lo hi v o ≡ obj_ref o ∷ [])
  unfolding pieces piece_calls
  pieces-inside v o c = (ground arith, ground arith)

  cut_area :
      (fuel b o : ℕ) (seen : List Vmarea) (v : Vmarea) (vs : List Vmarea)
      → IsOrdered ly.high b (v ∷ vs)
      → StartBelow b seen
      → v.obj ≡ some o
      → remove_loop ly lo hi (suc fuel) seen (v ∷ vs) ≡ (
          (remove_loop ly lo hi fuel (seen ++ pieces lo hi v) vs) >>= λ (areas, calls).
          returns (areas, piece_calls lo hi v o ++ calls))
  unfolding remove_loop at
  cut_area fuel b o seen v vs ord below e = elim (Bool-cases (ltb v.start lo && ltb hi v.end)) [
    | inl c ↦
        let (p, q) = pieces-inside v o c in
        rw (
          split_case-inside b o seen v vs ord below e (ground arith) (ground arith),
          shorten v (ground arith),
          p,
          q,
        )
    | inr c ↦ rw (split_case-outside seen v vs c, cut_rest v o e ord.1 c) (simp append-nil)
  ]

  StartBelow-pieces :
      (b : ℕ) (seen : List Vmarea) (v : Vmarea)
      → b ≤ v.start
      → v.start < v.end
      → StartBelow b seen
      → StartBelow v.end (seen ++ pieces lo hi v)
  unfolding pieces
  StartBelow-pieces b [] v l h below = ground arith
  StartBelow-pieces b (w ∷ ws) v l h below = (omega arith, StartBelow-pieces b ws v l h below.1)

  remove_loop_lem :
      (fuel b : ℕ) (seen vs : List Vmarea) (back : Backed vs)
      → length vs < fuel
      → IsOrdered ly.high b vs
      → StartBelow b seen
      → remove_loop ly lo hi fuel seen vs
        ≡ returns (seen ++ all_pieces lo hi vs, all_calls lo hi vs back)
  remove_loop_lem zero b seen vs back l ord below = absurd (omega arith)
  remove_loop_lem (suc fuel) b seen [] back l ord below =
      unfold remove_loop all_pieces all_calls in simp append-nil
  remove_loop_lem (suc fuel) b seen (v ∷ vs) back l ord below =
      rw
        (
          cut_area fuel b back.0.0 seen v vs ord below back.0.1,
          remove_loop_lem fuel v.end (seen ++ pieces lo hi v) vs back.1 (omega arith) ord.3
              (StartBelow-pieces b seen v ord.0 ord.1 below),
        )
        (unfold all_pieces all_calls in simp append_assoc)

-- On a valid address space whose areas have objects, and for a range inside the user part,
-- `vmmap_remove` returns: each area is replaced in its place by the pieces that the range leaves of
-- it, the objects get the calls of those pieces, and then the TLB is flushed and the range unmapped.
pub vmmap_remove_pieces :
    (ly : Layout) (vs : List Vmarea) (back : Backed vs) (lo npages : ℕ)
    → IsValid ly vs
    → ly.low ≤ lo
    → lo + npages ≤ ly.high
    → vmmap_remove ly vs lo npages
      ≡ returns (
        all_pieces lo (lo + npages) vs,
        all_calls lo (lo + npages) vs back ++ tlb_flush_all ∷ pt_unmap_range lo (lo + npages) ∷ [],
      )
unfolding vmmap_remove
vmmap_remove_pieces ly vs back lo npages ok low top =
    let e : add32 lo npages ≡ lo + npages = omega (arith, ok.word) in
    rw (
      e,
      remove_loop_lem ly lo (lo + npages) low (omega arith) (2 * length vs + 1) ly.low [] vs back
          (omega arith) ok.ordered tt,
    )
