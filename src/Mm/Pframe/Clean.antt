-- ===== src/Mm/Pframe/Clean.antt =====
-- `pframe_clean_all` of kernel/mm/pframe.c: the loop and the pages that it cleans.
use mathlib.Core.Path.{fun_ext}
use weenix.Prelude.{
  ℕ, zero, suc, ◌+◌, ◌≤◌, ◌<◌, ◌≡◌, refl, Bool, true, false, not, Option, none, some, List, [], ◌∷◌,
  if◌then◌else◌, ◌==◌, arith, Bool-cases, Option-cases, inl, inr, Exec, returns, ◌>>=◌, ◌>>◌,
  kassert, deref, Ret, done, length, sym, subst, ap,
}
use weenix.Proc.Fifo.{count}
use weenix.Mm.State.{Pframe, tlb_flush, remove_from_pts, broadcast, Mem, log, is_some, Mmops}
use weenix.Mm.Pframe.{
  is_pinned, set_busy, set_dirty, end_busy, after_clean, pframe_clean, first_unclean, clean_found,
  clean_all, pframe_clean_all,
}
use weenix.Mm.Pframe.Valid.{Valid, set-Valid, log-Valid}

-- How many of the pages are dirty.
dirty_in : (ℕ → Pframe) → List ℕ → ℕ
dirty_in f [] = 0
dirty_in f (p ∷ ps) = (if (f p).dirty then 1 else 0) + dirty_in f ps

dirty_in-length : (f : ℕ → Pframe) (ps : List ℕ) → dirty_in f ps ≤ length ps
unfolding dirty_in
dirty_in-length f [] = omega arith
dirty_in-length f (p ∷ ps) = ground (arith, dirty_in-length f ps)

abbrev washed : (ℕ → Pframe) → ℕ → ℕ → Pframe
washed f p i = if p == i then record (f p) { dirty = false; busy = false } else f i

dirty_in-washed_le :
    (f : ℕ → Pframe) (p : ℕ) (ps : List ℕ) → dirty_in (washed f p) ps ≤ dirty_in f ps
unfolding dirty_in
dirty_in-washed_le f p [] = omega arith
dirty_in-washed_le f p (q ∷ ps) = ground (arith, dirty_in-washed_le f p ps)

dirty_in-washed :
    (f : ℕ → Pframe) (p : ℕ) (ps : List ℕ)
    → 1 ≤ count p ps
    → (f p).dirty ≡ true
    → dirty_in (washed f p) ps < dirty_in f ps
unfolding dirty_in
dirty_in-washed f p [] h e = absurd (omega arith)
dirty_in-washed f p (q ∷ ps) h e = elim (Bool-cases (q == p)) [
  | inl x ↦ ground (arith, dirty_in-washed_le f p ps)
  | inr x ↦ ground (arith, dirty_in-washed f p ps)
]

module _ (ops : Mmops) where
  -- No page is busy.
  abbrev pub Calm : Mem → Type 0
  Calm s = (p : ℕ) → (s.pframe p).busy ≡ false

  abbrev Unclean : Mem → List ℕ → Option ℕ → Type 0
  Unclean s ps none = (p : ℕ) → 1 ≤ count p ps → (s.pframe p).dirty ≡ false
  Unclean s ps (some p) = (1 ≤ count p ps) × ((s.pframe p).dirty ≡ true)

  Unclean-tail :
      (s : Mem) (p : ℕ) (ps : List ℕ) (q : Option ℕ)
      → (s.pframe p).dirty ≡ false
      → Unclean s ps q
      → Unclean s (p ∷ ps) q
  Unclean-tail s p ps none e h =
      λ q b. elim (Bool-cases (p == q)) [ inl x ↦ ground arith | inr x ↦ h q (ground arith) ]
  Unclean-tail s p ps (some q) e (a, b) = (ground arith, b)

  first-Unclean :
      (s : Mem) (ps : List ℕ)
      → Calm s
      → ((p : ℕ)
          → 1 ≤ count p ps
          → (not (is_pinned (s.pframe p)) ≡ true) × (is_some (s.pframe p).obj ≡ true))
      → (q : Option ℕ) × (first_unclean ops s ps ≡ returns q) × Unclean s ps q
  unfolding first_unclean
  first-Unclean s [] calm h = (none, refl, λ p b. absurd (omega arith))
  first-Unclean s (p ∷ ps) calm h =
      let (a, b) = h p (ground arith) in
      let (q, runs, u) = first-Unclean s ps calm (λ r c. h r (ground arith)) in
      elim (Bool-cases (s.pframe p).dirty) [
        | inl d ↦ rw (a, b, calm p, d) (some p, refl, (ground arith, d))
        | inr d ↦ rw (a, b, calm p, d) (q, runs, Unclean-tail s p ps q d u)
      ]

  -- A page is cleaned at once, as pages of anonymous and of shadow objects are.
  abbrev pub Cleans : Type 0
  Cleans = (s : Mem) (o p : ℕ) → ops.cleanpage s o p ≡ returns (done 0, s)

  abbrev cleaned : Mem → ℕ → Mem
  cleaned s p =
      end_busy (set_busy (log (log (set_dirty s p false) (tlb_flush p)) (remove_from_pts p)) p true)
        p

  cleaned_pages : (s : Mem) (p : ℕ) → (cleaned s p).pframe ≡ washed s.pframe p
  cleaned_pages s p =
      fun_ext λ i. elim (Bool-cases (p == i)) [ inl x ↦ ground arith | inr x ↦ ground arith ]

  cleaned-Valid : (s : Mem) (p : ℕ) → Valid ops s → Valid ops (cleaned s p)
  cleaned-Valid s p v =
      let s1 = set_dirty s p false in
      let s2 = log (log s1 (tlb_flush p)) (remove_from_pts p) in
      let s3 = set_busy s2 p true in
      let v1 = set-Valid ops s p (s.pframe p).pincount (s.pframe p).busy false v refl in
      let v2 =
        log-Valid ops (log s1 (tlb_flush p)) (remove_from_pts p)
          (log-Valid ops s1 (tlb_flush p) v1) in
      let v3 = set-Valid ops s2 p (s2.pframe p).pincount true (s2.pframe p).dirty v2 refl in
      let v4 = set-Valid ops s3 p (s3.pframe p).pincount false (s3.pframe p).dirty v3 refl in
      log-Valid ops (set_busy s3 p false) (broadcast p) v4

  clean_steps :
      (a c : Bool) (x : Option ℕ) (o : ℕ) (m : ℕ → Exec (Ret ℕ × Mem))
      (g : Ret ℕ × Mem → Ret ℕ × Mem) (y : Ret ℕ × Mem)
      → a ≡ true
      → c ≡ true
      → x ≡ some o
      → m o ≡ returns y
      → (kassert a >> (kassert c >> (deref x >>= λ o. m o >>= λ z. returns (g z)))) ≡ returns (g y)
  clean_steps a c x o m g y h b e r = rw (h, b, e, r) refl

  pframe_clean_lem :
      (s : Mem) (p o : ℕ)
      → Cleans
      → (s.pframe p).dirty ≡ true
      → (s.pframe p).pincount ≡ 0
      → (s.pframe p).obj ≡ some o
      → pframe_clean ops s p ≡ returns (done 0, cleaned s p)
  unfolding pframe_clean
  pframe_clean_lem s p o cleans d z e =
      let u = set_busy (log (log (set_dirty s p false) (tlb_flush p)) (remove_from_pts p)) p true in
      clean_steps (s.pframe p).dirty ((s.pframe p).pincount == 0) (s.pframe p).obj o
        (λ x. ops.cleanpage u x p) (λ z. (z.0, end_busy (after_clean z.1 p z.0) p)) (done 0, u) d
        (ground arith) e (cleans u o p)

  -- What the list has: resident pages that are not pinned.
  listed :
      (s : Mem) (p : ℕ)
      → Valid ops s
      → 1 ≤ count p s.alloc_list
      → (o : ℕ) × ((s.pframe p).obj ≡ some o) × ((s.pframe p).pincount ≡ 0)
  listed s p v b = elim (Option-cases (s.pframe p).obj) [
    | inl e ↦ absurd (ground (arith, v.alloced p))
    | inr (o, e) ↦ (o, e, ground (arith, v.alloced p))
  ]

  -- The function returns with no page of the list dirty.
  abbrev pub Cleaned : Mem → Exec (Option ℕ × Mem) → Type 0
  Cleaned s m =
      (t : Mem) × (m ≡ returns (none, t))
      × Valid ops t
      × (t.alloc_list ≡ s.alloc_list)
      × ((p : ℕ) → 1 ≤ count p t.alloc_list → (t.pframe p).dirty ≡ false)

  found-Cleaned :
      (fuel : ℕ) (s : Mem) (q : Option ℕ)
      → Cleans
      → Valid ops s
      → Calm s
      → Unclean s s.alloc_list q
      → ((p : ℕ) → q ≡ some p → Cleaned (cleaned s p) (clean_all ops fuel (cleaned s p)))
      → Cleaned s (clean_found ops s (clean_all ops fuel) q)
  unfolding clean_found
  found-Cleaned fuel s none cleans v calm u rest = (s, refl, v, refl, u)
  found-Cleaned fuel s (some p) cleans v calm (b, d) rest =
      let (o, e, z) = listed s p v b in
      let (t, runs, vt, same, clean) = rest p refl in
      rw (calm p, pframe_clean_lem s p o cleans d z e) (t, runs, vt, same, clean)

  some_dirty :
      (s : Mem) (p : ℕ) (q : Option ℕ)
      → q ≡ some p
      → Unclean s s.alloc_list q
      → (1 ≤ count p s.alloc_list) × ((s.pframe p).dirty ≡ true)
  some_dirty s p q e u = subst (Unclean s s.alloc_list) e u

  clean_all-Cleaned :
      (fuel : ℕ) (s : Mem)
      → Cleans
      → Valid ops s
      → Calm s
      → dirty_in s.pframe s.alloc_list < fuel
      → Cleaned s (clean_all ops fuel s)
  unfolding clean_all
  clean_all-Cleaned zero s cleans v calm b = absurd (omega arith)
  clean_all-Cleaned (suc fuel) s cleans v calm b =
      let (q, runs, u) =
        first-Unclean s s.alloc_list calm
          (λ p c. let (o, e, z) = listed s p v c in (ground arith, ground (arith, e))) in
      rw runs (
        found-Cleaned fuel s q cleans v calm u (λ p e.
          let (c, d) = some_dirty s p q e u in
          let same = cleaned_pages s p in
          clean_all-Cleaned fuel (cleaned s p) cleans (cleaned-Valid s p v)
            (subst (λ f. (i : ℕ) → (f i).busy ≡ false) (sym same) (λ i. ground (arith, calm i)))
            (omega (
              arith,
              b,
              dirty_in-washed s.pframe p s.alloc_list c d,
              ap (λ f. dirty_in f s.alloc_list) same,
            ))))

  -- `pframe_clean_all` ends, where no page is busy and the pages are cleaned at once: then no page of
  -- `alloc_list` is dirty, and the list and the invariant are kept.
  pub pframe_clean_all-Cleaned :
      (s : Mem) → Cleans → Valid ops s → Calm s → Cleaned s (pframe_clean_all ops s)
  unfolding pframe_clean_all
  pframe_clean_all-Cleaned s cleans v calm =
      clean_all-Cleaned (length s.alloc_list + 1) s cleans v calm
        (omega (arith, dirty_in-length s.pframe s.alloc_list))
