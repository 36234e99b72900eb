-- ===== src/Vm/UserMem/Anon.antt =====
-- anon_lookuppage of kernel/vm/anon.c as the lookup of user memory: the pages of anonymous objects
-- that are resident.
use weenix.Prelude.{
  ℕ, ◌≤◌, ◌≡◌, refl, Bool, true, false, ◌&&◌, Option, List, [], ◌∷◌, inl, inr, if◌then◌else◌, ◌==◌,
  arith, Bool-cases, Exec, returns, ◌>>=◌, Ret, done, fails, ap, sym, ◌∙◌,
}
use weenix.Proc.Fifo.{count}
use weenix.Mm.State.{Pframe, Mem, set_pf, Mmops}
use weenix.Mm.Pframe.{is_page, pframe_get, Got, got, failed, sleeps_on}
use weenix.Mm.Pframe.Valid.{Valid, bytes-Valid}
use weenix.Mm.Pframe.Dirty.{dirtied, dirtied-Valid, pframe_dirty_lem, pframe_get-found}
use weenix.Mm.Anon.Laws.{anon_lookuppage_lem}
use weenix.Mm.Anon.{anon_ops, anon_lookuppage}
use weenix.Vm.UserMem.{Buffer}
use weenix.Vm.UserMem.Bytes.{Writes, Looks, Contents}

-- The bytes of the page `n` among the resident pages of an object.
unfoldable pub bytes_in : (ℕ → Pframe) → ℕ → List ℕ → Buffer
bytes_in f n [] = λ i. 0
bytes_in f n (p ∷ ps) = if (f p).pagenum == n then (f p).bytes else bytes_in f n ps

bytes_in_lem :
    (f : ℕ → Pframe) (n p : ℕ) (ps : List ℕ)
    → ((q : ℕ) → 1 ≤ count q ps → ((f q).pagenum == n) ≡ true → q ≡ p)
    → ((f p).pagenum == n) ≡ true
    → 1 ≤ count p ps
    → bytes_in f n ps ≡ (f p).bytes
unfolding bytes_in
bytes_in_lem f n p [] h e l = absurd (omega arith)
bytes_in_lem f n p (q ∷ ps) h e l = elim (Bool-cases ((f q).pagenum == n)) [
  | inl a ↦ rw a (ap (λ x. (f x).bytes) (h q (ground arith) a))
  | inr a ↦ rw a (
      bytes_in_lem f n p ps (λ x b c. h x (ground arith) c) e
        (elim (Bool-cases (q == p)) [
          | inl d ↦
              let same : q ≡ p = ground arith in
              absurd (ground (arith, ap (λ x. (f x).pagenum) same))
          | inr d ↦ ground arith
        ]))
]

-- `after` is what the lookup comes to if it has to sleep on a busy page first.
module _ (hash_page : ℕ → ℕ → ℕ) (slab : Mem → Option ℕ) (page : Mem → Option (ℕ → ℕ)) (depth : ℕ)
    (after : ℕ → Mem → Exec (Ret ℕ × Mem)) (has : ℕ → ℕ → Bool) where
  abbrev ops : Mmops
  ops = anon_ops hash_page slab page depth

  abbrev pub looked_up : Got × Mem → Exec (Ret ℕ × Mem)
  looked_up (got p, t) = returns (done p, t)
  looked_up (failed e, t) = returns (fails e, t)
  looked_up (sleeps_on p, t) = after p t

  abbrev pub anon_lookup : Mem → ℕ → ℕ → Bool → Exec (Ret ℕ × Mem)
  anon_lookup s o n forwrite = anon_lookuppage hash_page slab page depth s o n >>= looked_up

  unfoldable pub content : Mem → ℕ → ℕ → Buffer
  content s o n = bytes_in s.pframe n (s.mmobj o).respages

  -- The lists are right, no page is busy, and the pages are resident.
  abbrev pub Good : Mem → Type 0
  Good s =
      Valid ops s
      × ((p : ℕ) → (s.pframe p).busy ≡ false)
      × ((o n : ℕ) → has o n ≡ true → (p : ℕ) × (is_page (s.pframe p) o n ≡ true))

  content_lem :
      (s : Mem) (p o n : ℕ)
      → Valid ops s
      → is_page (s.pframe p) o n ≡ true
      → content s o n ≡ (s.pframe p).bytes
  unfolding content
  content_lem s p o n v e =
      bytes_in_lem s.pframe n p (s.mmobj o).respages
        (λ q l h. v.unique q p o n (ground (arith, v.owned q o)) e) (ground arith)
        (ground (arith, v.owned p o))

  -- The contents of the pages that are resident do not depend on the order of the lists.
  same_content : (s t : Mem) → t.pframe ≡ s.pframe → t.mmobj ≡ s.mmobj → content t ≡ content s
  unfolding content
  same_content s t a b = rw (a, b) refl

  moved-Good : (s t : Mem) → Good s → Valid ops t → t.pframe ≡ s.pframe → Good t
  moved-Good s t (v, idle, held) v' same = (
    v',
    λ p. ap (λ f. (f p).busy) same ∙ idle p,
    λ o n h. let (p, e) = held o n h in (p, ap (λ f. is_page (f p) o n) same ∙ e),
  )

  abbrev stored : Mem → ℕ → Buffer → Mem
  stored t p f = dirtied ops (set_pf t p (record (t.pframe p) { bytes = f })) p

  stored-page :
      (t : Mem) (p q o n : ℕ) (f : Buffer)
      → is_page (t.pframe q) o n ≡ true
      → is_page ((stored t p f).pframe q) o n ≡ true
  stored-page t p q o n f e = ground arith

  stored-Good : (t : Mem) (p : ℕ) (f : Buffer) → Good t → Good (stored t p f)
  stored-Good t p f (v, idle, held) = (
    dirtied-Valid ops (set_pf t p (record (t.pframe p) { bytes = f })) p (bytes-Valid ops t p f v),
    λ q. ground (arith, idle q),
    λ o n h. let (q, e) = held o n h in (q, stored-page t p q o n f e),
  )

  stored-bytes :
      (t : Mem) (p q o n x m i : ℕ) (f : Buffer)
      → is_page (t.pframe p) o n ≡ true
      → is_page (t.pframe q) x m ≡ true
      → ((o == x && n == m) ≡ true → p ≡ q)
      → ((stored t p f).pframe q).bytes i ≡ (if o == x && n == m then f i else (t.pframe q).bytes i)
  stored-bytes t p q o n x m i f e h one = elim (Bool-cases (o == x && n == m)) [
    | inl y ↦ let s = one y in ground arith
    | inr y ↦ ground arith
  ]

  stored-content :
      (t : Mem) (p o n x m i : ℕ) (f : Buffer)
      → Good t
      → is_page (t.pframe p) o n ≡ true
      → has x m ≡ true
      → content (stored t p f) x m i ≡ (if o == x && n == m then f i else content t x m i)
  stored-content t p o n x m i f (v, idle, held) e h =
      let (q, here) = held x m h in
      let old : content t x m i ≡ (t.pframe q).bytes i =
        ap (λ b. b i) (content_lem t q x m v here) in
      let new : content (stored t p f) x m i ≡ ((stored t p f).pframe q).bytes i =
        ap (λ b. b i)
          (content_lem (stored t p f) q x m (stored-Good t p f (v, idle, held)).0
            (stored-page t p q x m f here)) in
      let which : (o == x && n == m) ≡ true → p ≡ q = λ y. v.unique p q o n e (ground arith) in
      new ∙ stored-bytes t p q o n x m i f e here which ∙ rw old refl

  stored-Writes :
      (t : Mem) (p o n : ℕ)
      → Good t
      → is_page (t.pframe p) o n ≡ true
      → Writes ops anon_lookup Good has content t p o n
  stored-Writes t p o n good e f = (
    done 0,
    stored t p f,
    pframe_dirty_lem ops (set_pf t p (record (t.pframe p) { bytes = f })) p o (λ u. refl)
        (ground arith) (ground (arith, good.1 p)),
    stored-Good t p f good,
    λ x m i h. stored-content t p o n x m i f good e h,
  )

  lookup_steps :
      (s t : Mem) (o n p : ℕ) (forwrite : Bool)
      → pframe_get ops s o n ≡ returns (got p, t)
      → anon_lookup s o n forwrite ≡ returns (done p, t)
  lookup_steps s t o n p forwrite e =
      rw (anon_lookuppage_lem hash_page slab page depth s o n, e) refl

  -- `anon_lookuppage` of a resident page of an anonymous object, where no page is busy, keeps the
  -- promises on which reading and writing user memory rely: it returns a frame that holds the page,
  -- changes no content, and a write through the frame followed by `pframe_dirty` changes the content of
  -- that page and of no other.
  pub anon_lookup-Looks :
      (s : Mem) (o n : ℕ) (forwrite : Bool)
      → Good s
      → has o n ≡ true
      → Looks ops anon_lookup Good has content s o n forwrite
  anon_lookup-Looks s o n forwrite good h =
      let (p, e) = good.2 o n h in
      let (q, t, run, v, same, objects, here) = pframe_get-found ops s o n p good.0 e good.1 in
      let good' = moved-Good s t good v same in
      (
        q,
        t,
        lookup_steps s t o n q forwrite run,
        good',
        same_content s t same objects,
        ap (λ f. (f q).bytes) same ∙ sym (content_lem s q o n good.0 here),
        λ w. stored-Writes t q o n good' (ap (λ f. is_page (f q) o n) same ∙ here),
      )

  abbrev pub anon_contents : Contents ops anon_lookup
  anon_contents = record { Good = Good; has = has; content = content; looks_up = anon_lookup-Looks }
