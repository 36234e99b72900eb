-- ===== src/Mm/Anon/Zero.antt =====
-- The first lookup of a page of an anonymous object.
use weenix.Prelude.{ℕ, suc, ◌+◌, ◌<◌, ◌≡◌, ◌≢◌, refl, true, false, Option, arith, returns, ap, ◌∷◌}
use weenix.Mm.State.{Mem, broadcast, set_pf}
use weenix.Mm.Pframe.{is_page, set_busy, end_busy, got}
use weenix.Mm.Pframe.Valid.{Valid, set-Valid, log-Valid, bytes-Valid, pframe_pin-Valid}
use weenix.Mm.Pframe.Cache.{inserted}
use weenix.Mm.Pframe.Get.{Available, pframe_get-fills}
use weenix.Mm.Anon.{anon_lookuppage}
use weenix.Mm.Anon.Laws.{ops, cleared, fill_run, anon_ops-IsMmops}

module _ (hash_page : ℕ → ℕ → ℕ) (slab : Mem → Option ℕ) (page : Mem → Option (ℕ → ℕ)) where
  -- The new frame `p` of page `n` of the object `o`: it is all zeros, pinned once, and the other
  -- frames are as before; the object has a page and a reference more.
  pub record IsZeroed (s t : Mem) (o n p : ℕ) : Type 0 where
    pub identity : is_page (t.pframe p) o n ≡ true
    pub zeros : (i : ℕ) → (t.pframe p).bytes i ≡ 0
    pub pinned : (t.pframe p).pincount ≡ 1
    pub idle : (t.pframe p).busy ≡ false
    pub clean : (t.pframe p).dirty ≡ false
    pub others : (q : ℕ) → q ≢ p → t.pframe q ≡ s.pframe q
    pub counted : (t.mmobj o).refcount ≡ (s.mmobj o).refcount + 1
    pub resident : (t.mmobj o).respages ≡ p ∷ (s.mmobj o).respages

  zeroed :
      (s t a u : Mem) (o n p k : ℕ) (bytes : ℕ → ℕ)
      → t.pframe ≡ s.pframe
      → t.mmobj ≡ s.mmobj
      → a
        ≡ set_busy
            (inserted (ops hash_page slab page k) t p o n bytes ((t.mmobj o).refcount + 1))
            p
            true
      → u.pframe
        ≡ (set_pf a p (record (a.pframe p) { pincount = (a.pframe p).pincount + 1 })).pframe
      → u.mmobj ≡ a.mmobj
      → IsZeroed s (end_busy (cleared hash_page slab page u p) p) o n p
  zeroed s t a u o n p k bytes same objects e pages kept = record {
    identity = rw (pages, e) (ground arith);
    zeros = λ i. rw (pages, e) (ground arith);
    pinned = rw (pages, e) (ground arith);
    idle = rw (pages, e) (ground arith);
    clean = rw (pages, e) (ground arith);
    others = λ q d. rw (pages, e) (ground (arith, ap (λ f. f q) same));
    counted = rw (kept, e) (ground (arith, ap (λ f. (f o).refcount) objects));
    resident = rw (kept, e) (ground (arith, ap (λ f. (f o).respages) objects));
  }

  -- anon_lookuppage of a page that is not resident, of an object with a reference, where the allocators
  -- have a frame and a page, returns the new frame. It is the page that was asked for, its bytes are all
  -- 0 whatever the memory held before, and it is pinned, not busy and not dirty. The other frames are as
  -- before, the object has that page and a reference more, and the lists stay right.
  pub anon_lookuppage-IsZeroed :
      (depth : ℕ) (s : Mem) (o n p : ℕ)
      → Valid (ops hash_page slab page (suc depth)) s
      → 0 < (s.mmobj o).refcount
      → Available (ops hash_page slab page (suc depth)) (λ u. true) s p
      → ((q : ℕ) → is_page (s.pframe q) o n ≡ false)
      → (t : Mem) × (anon_lookuppage hash_page slab page (suc depth) s o n ≡ returns (got p, t))
        × Valid (ops hash_page slab page (suc depth)) t
        × IsZeroed s t o n p
  unfolding anon_lookuppage
  anon_lookuppage-IsZeroed depth s o n p v b available fresh =
      let os = ops hash_page slab page (suc depth) in
      let (t, bytes, same, objects, vi, get) =
        pframe_get-fills os (λ u. true) s o n p
          (anon_ops-IsMmops hash_page slab page depth (λ u. true)) refl v b available fresh in
      let c = inserted os t p o n bytes ((t.mmobj o).refcount + 1) in
      let a = set_busy c p true in
      let va = set-Valid os c p (c.pframe p).pincount true (c.pframe p).dirty vi refl in
      let (u, pins, vu, pages, kept) = pframe_pin-Valid os a p o va (ground arith) in
      let w = cleared hash_page slab page u p in
      let vw = bytes-Valid os u p (λ i. 0) vu in
      (
        end_busy w p,
        get 0 w (fill_run hash_page slab page a u o p (ground arith) (ground arith) pins),
        log-Valid os (set_busy w p false) (broadcast p)
            (set-Valid os w p (w.pframe p).pincount false (w.pframe p).dirty vw refl),
        zeroed s t a u o n p (suc depth) bytes same objects refl pages kept,
      )
