-- ===== src/Vm/Map/Laws.antt =====
-- What `vmmap_map` does to the pages of the address space.
use weenix.Prelude.{
  ℕ, ◌+◌, ◌-◌, ◌^◌, ◌≤◌, ◌<◌, ◌≡◌, ◌≢◌, refl, true, false, Option, none, some, List, [], ◌∷◌, ◌++◌,
  arith, leb, ltb, if◌then◌else◌, ◌&&◌, inl, inr, returns, add32, ◌==◌, ◌∙◌, Exec, done, fails,
  no_range, subst, sym,
}
use weenix.Vm.Area.{Vmarea, Page, view, IsValid, Backed}
use weenix.Vm.Vmmap.{Effect}
use weenix.Vm.Vmmap.Lookup.{Unmapped, vmmap_is_range_empty_lem}
use weenix.Vm.Vmmap.Insert.{vmmap_insert_lem, vmmap_insert-Backed}
use weenix.Vm.Vmmap.Range.{Best, vmmap_find_range_lem}
use weenix.Vm.Vmmap.Unmap.{vmmap_remove-view}
use weenix.Vm.Paging.{Paging, IsPaging, layout}
use weenix.Vm.Map.{
  Objects, MapArgs, MapOutcome, base_object, area_object, base_calls, shadow_calls, new_area,
  map_at, map_found, map_fixed, map_args_ok, vmmap_map,
}

module _ (pg : Paging) (objs : Objects) (a : MapArgs) where
  -- What the mapping puts behind page `n`.
  abbrev pub mapped_page : ℕ → ℕ → Page
  mapped_page start n = record {
    obj = some (area_object pg objs a.flags (base_object pg objs a.file));
    pagenum = n - start + pg.addr_to_pn a.off;
    prot = a.prot;
    flags = a.flags;
  }

  -- The call returns with a mapping of `npages` pages from `start` on, over the address space
  -- `areas`: those pages are the new mapping's, every other page is as before.
  abbrev pub MapsAt : ℕ → List Vmarea → Exec MapOutcome → Type 0
  MapsAt start areas out =
      (areas' : List Vmarea) × (calls : List Effect) × (out
        ≡ returns (record {
          result = done (record (new_area pg objs a start) { linked = true });
          areas = areas';
          calls = calls;
        }))
      × IsValid (layout pg) areas'
      × Backed areas'
      × ((n : ℕ)
          → view areas' n ≡ (
              if leb start n && ltb n (start + a.npages)
              then some (mapped_page start n)
              else view areas n))

  -- What `vmmap_map` returns for the result of the search for a range.
  abbrev pub FoundAt : List Vmarea → Exec MapOutcome → Option ℕ → Type 0
  FoundAt areas out none =
      out ≡ returns (record { result = fails no_range; areas = areas; calls = [] })
  FoundAt areas out (some start) = MapsAt start areas out

  module _ (laws : IsPaging pg) (pos : 0 < a.npages)
      (small : pg.addr_to_pn a.off + a.npages < 2 ^ 32) where
    map_at-MapsAt :
        (start : ℕ) (areas : List Vmarea) (calls : List Effect)
        → IsValid (layout pg) areas
        → Backed areas
        → (layout pg).low ≤ start
        → start + a.npages ≤ (layout pg).high
        → Unmapped areas start (start + a.npages)
        → MapsAt start areas (map_at pg objs a start areas calls)
    map_at-MapsAt start areas calls ok back low high un =
        let e : add32 start a.npages ≡ start + a.npages = omega (arith, laws.high_pages) in
        let new = new_area pg objs a start in
        let (areas', ins, ok', same) =
          vmmap_insert_lem (layout pg) areas new ok (unfold new_area in ground (arith, e))
            (unfold new_area in ground (arith, e))
            (unfold new_area in subst (λ x. Unmapped areas start x) (sym e) un) in
        (
          areas',
          calls
              ++ (base_calls pg objs a.file
                  ++ shadow_calls pg objs a.flags (base_object pg objs a.file)),
          unfold map_at in rw ins,
          ok',
          vmmap_insert-Backed (layout pg) areas areas' new ins (unfold new_area in (_, refl)) back,
          λ n. same n ∙ (unfold new_area in rw e),
        )

    -- At a page that the caller chose.
    map_fixed-MapsAt :
        (areas : List Vmarea)
        → IsValid (layout pg) areas
        → Backed areas
        → (layout pg).low ≤ a.lopage
        → a.lopage + a.npages ≤ (layout pg).high
        → MapsAt a.lopage areas (map_fixed pg objs a areas)
    map_fixed-MapsAt areas ok back low high =
        unfold map_fixed in
        elim (vmmap_is_range_empty_lem (layout pg) areas a.lopage a.npages ok pos low high) [
          | inl (e, un) ↦ rw e (map_at-MapsAt a.lopage areas [] ok back low high un)
          | inr (e, _) ↦
              let (left, calls, rem, ok', back', same) =
                vmmap_remove-view (layout pg) areas a.lopage a.npages back ok low high in
              let (areas', calls', out, valid, backed, now) =
                map_at-MapsAt a.lopage left calls ok' back' low high
                  (λ n l h. same n ∙ ground arith) in
              rw (e, rem) (areas', calls', out, valid, backed, λ n. now n ∙ ground (arith, same n))
        ]

    pub vmmap_map_fixed :
        (areas : List Vmarea)
        → IsValid (layout pg) areas
        → Backed areas
        → a.lopage ≢ 0
        → map_args_ok pg objs a ≡ true
        → a.lopage + a.npages < 2 ^ 32
        → MapsAt a.lopage areas (vmmap_map pg objs areas a)
    vmmap_map_fixed areas ok back nz args small' =
        let t : (a.lopage == 0) ≡ false = ground arith in
        let e : add32 a.lopage a.npages ≡ a.lopage + a.npages = omega arith in
        unfold vmmap_map in
        rw (args, t) (map_fixed-MapsAt areas ok back (ground arith) (ground (arith, e)))

    map_found-FoundAt :
        (areas : List Vmarea) (r : Option ℕ)
        → IsValid (layout pg) areas
        → Backed areas
        → Best (layout pg).low (layout pg).high a.npages areas r
        → FoundAt areas (map_found pg objs a areas r) r
    unfolding map_found
    map_found-FoundAt areas none ok back best = refl
    map_found-FoundAt areas (some start) ok back best =
        map_at-MapsAt start areas [] ok back best.0 best.1 best.2

    pub vmmap_map_found :
        (v : Vmarea) (vs : List Vmarea)
        → IsValid (layout pg) (v ∷ vs)
        → Backed (v ∷ vs)
        → a.lopage ≡ 0
        → map_args_ok pg objs a ≡ true
        → (r : Option ℕ) × Best (layout pg).low (layout pg).high a.npages (v ∷ vs) r
          × FoundAt (v ∷ vs) (vmmap_map pg objs (v ∷ vs) a) r
    vmmap_map_found v vs ok back z args =
        let (r, e, best) = vmmap_find_range_lem (layout pg) v vs a.npages a.dir ok pos in
        let t : (a.lopage == 0) ≡ true = ground arith in
        (r, best, unfold vmmap_map in rw (args, t, e) (map_found-FoundAt (v ∷ vs) r ok back best))
