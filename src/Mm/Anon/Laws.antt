-- ===== src/Mm/Anon/Laws.antt =====
-- What the operations of an anonymous object do.
use weenix.Prelude.{
  ℕ, suc, ◌+◌, ◌-◌, ◌<◌, ◌≡◌, refl, Bool, true, false, not, Option, some, ◌==◌, ltb, arith, returns,
  Ret, done, sym, subst,
}
use weenix.Mm.State.{Pframe, Mem, set_pf, Mmops}
use weenix.Mm.Pframe.{is_pinned, is_page, pframe_pin, pframe_get}
use weenix.Mm.Pframe.Valid.{Valid, bytes-Valid, pframe_pin-Valid}
use weenix.Mm.Pframe.Free.{Sound, Filled, IsMmops}
use weenix.Mm.Anon.{set_refcount, anon_ref, anon_fillpage, anon_put, anon_ops, anon_lookuppage}

module _ (hash_page : ℕ → ℕ → ℕ) (slab : Mem → Option ℕ) (page : Mem → Option (ℕ → ℕ)) where
  abbrev pub ops : ℕ → Mmops
  ops depth = anon_ops hash_page slab page depth

  pub anon_ref_lem :
      (s : Mem) (o : ℕ)
      → 0 < (s.mmobj o).refcount
      → anon_ref s o ≡ returns (set_refcount s o ((s.mmobj o).refcount + 1))
  unfolding anon_ref
  anon_ref_lem s o b =
      let positive : ltb 0 (s.mmobj o).refcount ≡ true = ground arith in rw positive refl

  anon_put_some :
      (depth : ℕ) (s : Mem) (o : ℕ)
      → (s.mmobj o).nrespages + 1 < (s.mmobj o).refcount
      → anon_put hash_page slab page (suc depth) s o
        ≡ returns (set_refcount s o ((s.mmobj o).refcount - 1))
  unfolding anon_put
  anon_put_some depth s o b =
      let positive : ltb 0 (s.mmobj o).refcount ≡ true = ground arith in
      let more : ((s.mmobj o).refcount == (s.mmobj o).nrespages + 1) ≡ false = ground arith in
      rw (positive, more) refl

  page_obj : (f : Pframe) (o n : ℕ) → is_page f o n ≡ true → f.obj ≡ some o
  page_obj f o n e = ground arith

  abbrev pub cleared : Mem → ℕ → Mem
  cleared t p = set_pf t p (record (t.pframe p) { bytes = λ i. 0 })

  pub fill_run :
      (s t : Mem) (o p : ℕ)
      → (s.pframe p).busy ≡ true
      → not (is_pinned (s.pframe p)) ≡ true
      → pframe_pin s p ≡ returns t
      → anon_fillpage s o p ≡ returns (done 0, cleared t p)
  unfolding anon_fillpage
  fill_run s t o p b z runs = rw (b, z, runs) refl

  fill_ended :
      (depth : ℕ) (live : ℕ → Bool) (s t : Mem) (o p n k : ℕ)
      → Sound (ops depth) live s
      → is_page (s.pframe p) o n ≡ true
      → Valid (ops depth) t
      → t.pframe ≡ (set_pf s p (record (s.pframe p) { pincount = k })).pframe
      → t.mmobj ≡ s.mmobj
      → Sound (ops depth) live (cleared t p) × Filled (ops depth) live p o n (done 0) (cleared t p)
  fill_ended depth live s t o p n k (v, h) e v' pages objects =
      let here : is_page (t.pframe p) o n ≡ true = rw pages (ground arith) in
      (
        (
          bytes-Valid (ops depth) t p (λ i. 0) v',
          subst (λ m. (u : ℕ) → live u ≡ true → (m u).nrespages < (m u).refcount) (sym objects) h,
        ),
        ground arith,
      )

  fill-Sound :
      (depth : ℕ) (live : ℕ → Bool) (s : Mem) (o p n : ℕ)
      → Sound (ops depth) live s
      → is_page (s.pframe p) o n ≡ true
      → (s.pframe p).busy ≡ true
      → (s.pframe p).pincount ≡ 0
      → (r : Ret ℕ) × (t : Mem) × (anon_fillpage s o p ≡ returns (r, t))
        × Sound (ops depth) live t
        × Filled (ops depth) live p o n r t
  fill-Sound depth live s o p n (v, h) e b z =
      let (t, runs, v', pages, objects) =
        pframe_pin-Valid (ops depth) s p o v (page_obj (s.pframe p) o n e) in
      let (sound, filled) =
        fill_ended depth live s t o p n ((s.pframe p).pincount + 1) (v, h) e v' pages objects in
      (done 0, cleared t p, fill_run s t o p b (ground arith) runs, sound, filled)

  -- Anonymous objects keep the promises of memory objects, whichever of them are live.
  pub anon_ops-IsMmops : (depth : ℕ) (live : ℕ → Bool) → IsMmops (ops (suc depth)) live
  anon_ops-IsMmops depth live = record {
    ref = λ s o l b. anon_ref_lem s o b;
    put = λ s o l b. anon_put_some depth s o b;
    fillpage = λ s o p n l v e b z. fill-Sound (suc depth) live s o p n v e b z;
  }

  pub anon_lookuppage_lem :
      (depth : ℕ) (s : Mem) (o n : ℕ)
      → anon_lookuppage hash_page slab page depth s o n ≡ pframe_get (ops depth) s o n
  unfolding anon_lookuppage
  anon_lookuppage_lem depth s o n = refl
