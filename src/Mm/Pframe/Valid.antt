-- ===== src/Mm/Pframe/Valid.antt =====
-- The invariant of the resident pages.
use weenix.Prelude.{
  ℕ, ◌+◌, ◌-◌, ◌≡◌, ◌≢◌, refl, Bool, true, ◌&&◌, not, none, some, [], ◌∷◌, ◌++◌, if◌then◌else◌,
  ◌==◌, ltb, arith, Bool-cases, inl, inr, returns, length, length-append,
}
use weenix.Proc.Fifo.{remove_elem, count, count-remove, length-remove, count-append, remove-absent}
use weenix.Mm.State.{Pframe, Event, Mem, log, set_pf, is_some, is_obj, Mmops}
use weenix.Mm.Pframe.{is_page, requested, pframe_pin, pframe_unpin}

abbrev pub on_alloc : Pframe → ℕ
on_alloc f = if is_some f.obj && f.pincount == 0 then 1 else 0

abbrev pub on_pinned : Pframe → ℕ
on_pinned f = if is_some f.obj && not (f.pincount == 0) then 1 else 0

abbrev pub on_chain : Mmops → Pframe → ℕ → ℕ
on_chain ops f c = elim f.obj [
  | none ↦ 0
  | some o ↦ if ops.hash_page o f.pagenum == c then 1 else 0
]

abbrev pub on_object : Pframe → ℕ → ℕ
on_object f o = if is_obj f.obj o then 1 else 0

-- A page is on `alloc_list` or on `pinned_list` as its pin count says, on the hash chain of its
-- identity, on the list of its object, and on no list when it is free. The counters are the lengths of
-- the lists, and no two resident pages have the same identity.
pub record Valid (ops : Mmops) (s : Mem) : Type 0 where
  pub alloced : (p : ℕ) → count p s.alloc_list ≡ on_alloc (s.pframe p)
  pub pinned : (p : ℕ) → count p s.pinned_list ≡ on_pinned (s.pframe p)
  pub nalloced : s.nallocated ≡ length s.alloc_list
  pub npins : s.npinned ≡ length s.pinned_list
  pub hashed : (p c : ℕ) → count p (s.hash c) ≡ on_chain ops (s.pframe p) c
  pub owned : (p o : ℕ) → count p (s.mmobj o).respages ≡ on_object (s.pframe p) o
  pub sized : (o : ℕ) → (s.mmobj o).nrespages ≡ length (s.mmobj o).respages
  pub unique :
      (p q o n : ℕ) → is_page (s.pframe p) o n ≡ true → is_page (s.pframe q) o n ≡ true → p ≡ q

module _ (ops : Mmops) where
  pin-first :
      (s : Mem) (p o k : ℕ)
      → Valid ops s
      → (s.pframe p).obj ≡ some o
      → (s.pframe p).pincount ≡ 0
      → k ≡ 1
      → Valid ops (record (set_pf s p (record (s.pframe p) { pincount = k })) {
        alloc_list = remove_elem p s.alloc_list;
        nallocated = s.nallocated - 1;
        pinned_list = remove_elem p s.pinned_list ++ p ∷ [];
        npinned = s.npinned + 1;
      })
  pin-first s p o k h e z one =
      let here : count p s.alloc_list ≡ 1 = ground (arith, h.alloced p) in
      let there : count p s.pinned_list ≡ 0 = ground (arith, h.pinned p) in
      let same : remove_elem p s.pinned_list ≡ s.pinned_list =
        remove-absent p s.pinned_list there in
      record {
        alloced = λ q. ground (arith, h.alloced q, count-remove q p s.alloc_list here);
        pinned = λ q. rw same (ground (arith, h.pinned q, count-append q s.pinned_list (p ∷ [])));
        nalloced = ground (arith, h.nalloced, length-remove p s.alloc_list here);
        npins = rw same (ground (arith, h.npins, length-append s.pinned_list (p ∷ [])));
        hashed = λ q c. ground (arith, h.hashed q c);
        owned = λ q u. ground (arith, h.owned q u);
        sized = h.sized;
        unique = λ q r u n a b. h.unique q r u n (ground arith) (ground arith);
      }

  unpin-last :
      (s : Mem) (p o k : ℕ)
      → Valid ops s
      → (s.pframe p).obj ≡ some o
      → (s.pframe p).pincount ≡ 1
      → k ≡ 0
      → Valid ops (record (set_pf s p (record (s.pframe p) { pincount = k })) {
        pinned_list = remove_elem p s.pinned_list;
        npinned = s.npinned - 1;
        alloc_list = remove_elem p s.alloc_list ++ p ∷ [];
        nallocated = s.nallocated + 1;
      })
  unpin-last s p o k h e z none_left =
      let here : count p s.pinned_list ≡ 1 = ground (arith, h.pinned p) in
      let there : count p s.alloc_list ≡ 0 = ground (arith, h.alloced p) in
      let same : remove_elem p s.alloc_list ≡ s.alloc_list = remove-absent p s.alloc_list there in
      record {
        alloced = λ q. rw same (ground (arith, h.alloced q, count-append q s.alloc_list (p ∷ [])));
        pinned = λ q. ground (arith, h.pinned q, count-remove q p s.pinned_list here);
        nalloced = rw same (ground (arith, h.nalloced, length-append s.alloc_list (p ∷ [])));
        npins = ground (arith, h.npins, length-remove p s.pinned_list here);
        hashed = λ q c. ground (arith, h.hashed q c);
        owned = λ q u. ground (arith, h.owned q u);
        sized = h.sized;
        unique = λ q r u n a b. h.unique q r u n (ground arith) (ground arith);
      }

  -- A pin count that stays positive, and the flags, are in no list.
  pub set-Valid :
      (s : Mem) (p k : ℕ) (b d : Bool)
      → Valid ops s
      → (k == 0) ≡ ((s.pframe p).pincount == 0)
      → Valid ops (set_pf s p (record (s.pframe p) { pincount = k; busy = b; dirty = d }))
  set-Valid s p k b d h e = record {
    alloced = λ q. ground (arith, h.alloced q);
    pinned = λ q. ground (arith, h.pinned q);
    nalloced = h.nalloced;
    npins = h.npins;
    hashed = λ q c. ground (arith, h.hashed q c);
    owned = λ q u. ground (arith, h.owned q u);
    sized = h.sized;
    unique = λ q r u n a b. h.unique q r u n (ground arith) (ground arith);
  }

  -- `pframe_pin` of a resident page returns, keeps the invariant, and adds one to the pin count.
  pub pframe_pin-Valid :
      (s : Mem) (p o : ℕ)
      → Valid ops s
      → (s.pframe p).obj ≡ some o
      → (t : Mem) × (pframe_pin s p ≡ returns t)
        × Valid ops t
        × (t.pframe
            ≡ (set_pf s p (record (s.pframe p) { pincount = (s.pframe p).pincount + 1 })).pframe)
        × (t.mmobj ≡ s.mmobj)
  unfolding pframe_pin
  pframe_pin-Valid s p o h e =
      let k = (s.pframe p).pincount + 1 in
      let resident : is_some (s.pframe p).obj ≡ true = ground (arith, e) in
      elim (Bool-cases (k == 1)) [
        | inl q ↦
            rw (resident, q)
              (_, refl, pin-first s p o k h e (ground arith) (ground arith), refl, refl)
        | inr q ↦
            rw (resident, q)
              (
                _,
                refl,
                set-Valid s p k (s.pframe p).busy (s.pframe p).dirty h (ground arith),
                refl,
                refl,
              )
      ]

  pub pframe_unpin-Valid :
      (s : Mem) (p o : ℕ)
      → Valid ops s
      → (s.pframe p).obj ≡ some o
      → 0 ≢ (s.pframe p).pincount
      → (t : Mem) × (pframe_unpin s p ≡ returns t)
        × Valid ops t
        × (t.pframe
            ≡ (set_pf s p (record (s.pframe p) { pincount = (s.pframe p).pincount - 1 })).pframe)
        × (t.mmobj ≡ s.mmobj)
  unfolding pframe_unpin
  pframe_unpin-Valid s p o h e n =
      let k = (s.pframe p).pincount - 1 in
      let resident : is_some (s.pframe p).obj ≡ true = ground (arith, e) in
      let some_left : ltb 0 (s.pframe p).pincount ≡ true = ground arith in
      elim (Bool-cases (k == 0)) [
        | inl q ↦
            rw (resident, some_left, q)
              (_, refl, unpin-last s p o k h e (ground arith) (ground arith), refl, refl)
        | inr q ↦
            rw (resident, some_left, q)
              (
                _,
                refl,
                set-Valid s p k (s.pframe p).busy (s.pframe p).dirty h (ground arith),
                refl,
                refl,
              )
      ]

  -- A page that is requested stays on its list.
  pub requested-Valid :
      (s : Mem) (p o : ℕ) → Valid ops s → (s.pframe p).obj ≡ some o → Valid ops (requested s p)
  requested-Valid s p o h e = elim (Bool-cases ((s.pframe p).pincount == 0)) [
    | inr z ↦ rw z h
    | inl z ↦
        let here : count p s.alloc_list ≡ 1 = ground (arith, h.alloced p) in
        let there : count p s.pinned_list ≡ 0 = ground (arith, h.pinned p) in
        let same : remove_elem p s.pinned_list ≡ s.pinned_list =
          remove-absent p s.pinned_list there in
        rw z (record {
          alloced = λ q. ground (
            arith,
            h.alloced q,
            count-remove q p s.alloc_list here,
            count-append q (remove_elem p s.alloc_list) (p ∷ []),
          );
          pinned = λ q. rw same (h.pinned q);
          nalloced = ground (
            arith,
            h.nalloced,
            length-remove p s.alloc_list here,
            length-append (remove_elem p s.alloc_list) (p ∷ []),
          );
          npins = rw same h.npins;
          hashed = h.hashed;
          owned = h.owned;
          sized = h.sized;
          unique = h.unique;
        })
  ]

  -- The lists do not depend on what is done to the rest of the machine.
  pub log-Valid : (s : Mem) (e : Event) → Valid ops s → Valid ops (log s e)
  log-Valid s e v = record {
    alloced = v.alloced;
    pinned = v.pinned;
    nalloced = v.nalloced;
    npins = v.npins;
    hashed = v.hashed;
    owned = v.owned;
    sized = v.sized;
    unique = v.unique;
  }

  -- Nor on what the pages hold.
  pub bytes-Valid :
      (s : Mem) (p : ℕ) (bytes : ℕ → ℕ)
      → Valid ops s
      → Valid ops (set_pf s p (record (s.pframe p) { bytes = bytes }))
  bytes-Valid s p bytes h = record {
    alloced = λ q. ground (arith, h.alloced q);
    pinned = λ q. ground (arith, h.pinned q);
    nalloced = h.nalloced;
    npins = h.npins;
    hashed = λ q c. ground (arith, h.hashed q c);
    owned = λ q u. ground (arith, h.owned q u);
    sized = h.sized;
    unique = λ q r u n a b. h.unique q r u n (ground arith) (ground arith);
  }
