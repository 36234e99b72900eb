-- ===== src/Mm/Pframe/Cache.antt =====
-- `pframe_get_resident`, and pages that come into the lists and go out of them.
use weenix.Prelude.{
  ℕ, ◌+◌, ◌≤◌, ◌≡◌, refl, true, false, Option, none, some, List, [], ◌∷◌, ◌++◌, if◌then◌else◌, ◌==◌,
  arith, Bool-cases, inl, inr, length-append,
}
use weenix.Proc.Fifo.{remove_elem, count, count-remove, length-remove, count-append, remove-absent}
use weenix.Mm.State.{Pframe, Mem, Mmops}
use weenix.Mm.Pframe.{is_page, requested, find_page, found_page, pframe_get_resident, uncached}
use weenix.Mm.Pframe.Valid.{Valid, requested-Valid}

-- The first page of a chain with the identity, or none if no page of the chain has it.
abbrev pub First : Mem → ℕ → ℕ → List ℕ → Option ℕ → Type 0
First s o n ps none = (p : ℕ) → 1 ≤ count p ps → is_page (s.pframe p) o n ≡ false
First s o n ps (some p) = is_page (s.pframe p) o n ≡ true

First-tail :
    (s : Mem) (o n p : ℕ) (ps : List ℕ) (r : Option ℕ)
    → is_page (s.pframe p) o n ≡ false
    → First s o n ps r
    → First s o n (p ∷ ps) r
First-tail s o n p ps none e h =
    λ q b. elim (Bool-cases (p == q)) [ inl t ↦ ground arith | inr t ↦ h q (ground arith) ]
First-tail s o n p ps (some q) e h = h

find_page-First : (s : Mem) (o n : ℕ) (ps : List ℕ) → First s o n ps (find_page s o n ps)
unfolding find_page
find_page-First s o n [] = λ p b. absurd (omega arith)
find_page-First s o n (p ∷ ps) = elim (Bool-cases (is_page (s.pframe p) o n)) [
  | inl e ↦ rw e e
  | inr e ↦ rw e (First-tail s o n p ps (find_page s o n ps) e (find_page-First s o n ps))
]

module _ (ops : Mmops) where
  -- The page with the identity, or none if it is not resident.
  abbrev pub Resident : Mem → ℕ → ℕ → Option ℕ → Type 0
  Resident s o n none = (p : ℕ) → is_page (s.pframe p) o n ≡ false
  Resident s o n (some p) = is_page (s.pframe p) o n ≡ true

  on_its_chain :
      (s : Mem) (p o n : ℕ)
      → Valid ops s
      → is_page (s.pframe p) o n ≡ true
      → 1 ≤ count p (s.hash (ops.hash_page o n))
  on_its_chain s p o n h e = ground (arith, h.hashed p (ops.hash_page o n))

  all_chains :
      (s : Mem) (o n : ℕ) (r : Option ℕ)
      → Valid ops s
      → First s o n (s.hash (ops.hash_page o n)) r
      → Resident s o n r
  all_chains s o n (some p) v h = h
  all_chains s o n none v h = λ p. elim (Bool-cases (is_page (s.pframe p) o n)) [
    | inl e ↦ absurd (ground (arith, h p (on_its_chain s p o n v e)))
    | inr e ↦ e
  ]

  page_obj : (f : Pframe) (o n : ℕ) → is_page f o n ≡ true → f.obj ≡ some o
  page_obj f o n e = ground arith

  requested_pages :
      (s : Mem) (p : ℕ) → ((requested s p).pframe ≡ s.pframe) × ((requested s p).mmobj ≡ s.mmobj)
  requested_pages s p = elim (Bool-cases ((s.pframe p).pincount == 0)) [
    | inl e ↦ rw e (refl, refl)
    | inr e ↦ rw e (refl, refl)
  ]

  found-Valid :
      (s : Mem) (o n : ℕ) (r : Option ℕ)
      → Valid ops s
      → Resident s o n r
      → Valid ops (found_page s r).1
        × (((found_page s r).1.pframe ≡ s.pframe) × ((found_page s r).1.mmobj ≡ s.mmobj))
        × ((found_page s r).0 ≡ r)
  found-Valid s o n none v h = (v, (refl, refl), refl)
  found-Valid s o n (some p) v h =
      (requested-Valid ops s p o v (page_obj (s.pframe p) o n h), requested_pages s p, refl)

  -- `pframe_get_resident` finds the page with the identity exactly if there is one; it keeps the
  -- invariant and changes no page and no object.
  pub pframe_get_resident-Resident :
      (s : Mem) (o n : ℕ)
      → Valid ops s
      → Valid ops (pframe_get_resident ops s o n).1
        × (((pframe_get_resident ops s o n).1.pframe ≡ s.pframe)
            × ((pframe_get_resident ops s o n).1.mmobj ≡ s.mmobj))
        × Resident s o n (pframe_get_resident ops s o n).0
  unfolding pframe_get_resident
  pframe_get_resident-Resident s o n v =
      let chain = s.hash (ops.hash_page o n) in
      let r = find_page s o n chain in
      let found = all_chains s o n r v (find_page-First s o n chain) in
      let (v', same, e) = found-Valid s o n r v found in (v', same, rw e found)

  -- A page that is not pinned can go.
  pub uncached-Valid :
      (s : Mem) (p o : ℕ)
      → Valid ops s
      → (s.pframe p).obj ≡ some o
      → (s.pframe p).pincount ≡ 0
      → Valid ops (uncached ops s p o)
  uncached-Valid s p o h e z =
      let chain = ops.hash_page o (s.pframe p).pagenum in
      let here : count p s.alloc_list ≡ 1 = ground (arith, h.alloced p) in
      let there : count p s.pinned_list ≡ 0 = ground (arith, h.pinned p) in
      let same : remove_elem p s.pinned_list ≡ s.pinned_list =
        remove-absent p s.pinned_list there in
      let in_chain : count p (s.hash chain) ≡ 1 = ground (arith, h.hashed p chain) in
      let in_object : count p (s.mmobj o).respages ≡ 1 = ground (arith, h.owned p o) in
      record {
        alloced = λ q. ground (arith, h.alloced q, count-remove q p s.alloc_list here);
        pinned = λ q. rw same (ground (arith, h.pinned q));
        nalloced = ground (arith, h.nalloced, length-remove p s.alloc_list here);
        npins = rw same h.npins;
        hashed = λ q c. ground (arith, h.hashed q c, count-remove q p (s.hash chain) in_chain);
        owned = λ q u. ground (arith, h.owned q u, count-remove q p (s.mmobj o).respages in_object);
        sized = λ u.
            ground (arith, h.sized u, h.sized o, length-remove p (s.mmobj o).respages in_object);
        unique = λ q r u n a b. h.unique q r u n (ground arith) (ground arith);
      }

  -- What `pframe_alloc` makes of a frame that is free.
  abbrev pub inserted : Mem → ℕ → ℕ → ℕ → (ℕ → ℕ) → ℕ → Mem
  inserted s p o n bytes k =
      let chain = ops.hash_page o n in
      record s {
        pframe = λ i.
            if p == i
            then record {
              obj = some o;
              pagenum = n;
              busy = false;
              dirty = false;
              pincount = 0;
              bytes = bytes;
            }
            else s.pframe i;
        hash = λ i. if chain == i then p ∷ s.hash chain else s.hash i;
        nallocated = s.nallocated + 1;
        alloc_list = s.alloc_list ++ p ∷ [];
        mmobj = λ i.
            if o == i
            then record (s.mmobj o) {
              refcount = k;
              nrespages = (s.mmobj o).nrespages + 1;
              respages = p ∷ (s.mmobj o).respages;
            }
            else s.mmobj i;
      }

  -- A frame that is free can be given an identity that no page has.
  pub inserted-Valid :
      (s : Mem) (p o n k : ℕ) (bytes : ℕ → ℕ)
      → Valid ops s
      → (s.pframe p).obj ≡ none
      → Resident s o n none
      → Valid ops (inserted s p o n bytes k)
  inserted-Valid s p o n k bytes h e fresh = record {
    alloced = λ q. ground (arith, h.alloced q, count-append q s.alloc_list (p ∷ []));
    pinned = λ q. ground (arith, h.pinned q);
    nalloced = ground (arith, h.nalloced, length-append s.alloc_list (p ∷ []));
    npins = h.npins;
    hashed = λ q c. ground (arith, h.hashed q c);
    owned = λ q u. ground (arith, h.owned q u);
    sized = λ u. ground (arith, h.sized u, h.sized o);
    unique = λ q r u m a b. elim (Bool-cases (p == q)) [
      | inl x ↦ elim (Bool-cases (p == r)) [
        | inl y ↦ ground arith
        | inr y ↦ absurd (ground (arith, fresh r))
      ]
      | inr x ↦ elim (Bool-cases (p == r)) [
        | inl y ↦ absurd (ground (arith, fresh q))
        | inr y ↦ h.unique q r u m (ground arith) (ground arith)
      ]
    ];
  }
