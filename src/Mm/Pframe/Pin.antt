-- ===== src/Mm/Pframe/Pin.antt =====
-- `pframe_pin` and `pframe_unpin` one after the other.
use mathlib.Core.Path.{fun_ext}
use weenix.Prelude.{
  ℕ, ◌+◌, ◌-◌, ◌≡◌, ◌≢◌, some, if◌then◌else◌, ◌==◌, arith, Bool-cases, inl, inr, returns, ◌∙◌, ap,
}
use weenix.Mm.State.{Pframe, Mem, Mmops}
use weenix.Mm.Pframe.{pframe_pin, pframe_unpin}
use weenix.Mm.Pframe.Valid.{Valid, pframe_pin-Valid, pframe_unpin-Valid}

abbrev pinned_to : Pframe → ℕ → Pframe
pinned_to f k = record f { pincount = k }

module _ (ops : Mmops) where
  counted_back :
      (m n u : ℕ → Pframe) (p : ℕ)
      → n ≡ (λ i. if p == i then pinned_to (m p) ((m p).pincount + 1) else m i)
      → u ≡ (λ i. if p == i then pinned_to (n p) ((n p).pincount - 1) else n i)
      → u ≡ m
  counted_back m n u p e f =
      f
      ∙ fun_ext λ i. elim (Bool-cases (p == i)) [
        | inl x ↦ ground (arith, ap (λ g. g p) e)
        | inr x ↦ ground (arith, ap (λ g. g i) e)
      ]

  -- `pframe_pin` of a resident page, and `pframe_unpin` of it, return and keep the invariant, and
  -- together they leave every page and every object as it was.
  pub pframe_unpin-pin :
      (s : Mem) (p o : ℕ)
      → Valid ops s
      → (s.pframe p).obj ≡ some o
      → (t : Mem) × (u : Mem) × (pframe_pin s p ≡ returns t)
        × (pframe_unpin t p ≡ returns u)
        × Valid ops t
        × Valid ops u
        × (u.pframe ≡ s.pframe)
        × (u.mmobj ≡ s.mmobj)
  pframe_unpin-pin s p o v e =
      let (t, pins, vt, pages, objects) = pframe_pin-Valid ops s p o v e in
      let owner : (t.pframe p).obj ≡ some o = rw pages (ground (arith, e)) in
      let more : (t.pframe p).pincount ≡ (s.pframe p).pincount + 1 = rw pages (ground arith) in
      let some_pin : 0 ≢ (t.pframe p).pincount = λ q. omega (arith, q, more) in
      let (u, unpins, vu, pages2, objects2) = pframe_unpin-Valid ops t p o vt owner some_pin in
      (
        t,
        u,
        pins,
        unpins,
        vt,
        vu,
        counted_back s.pframe t.pframe u.pframe p pages pages2,
        objects2 ∙ objects,
      )
