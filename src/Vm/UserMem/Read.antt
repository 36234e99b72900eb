-- ===== src/Vm/UserMem/Read.antt =====
-- What vmmap_read copies.
use weenix.Prelude.{
  ℕ, zero, suc, ◌+◌, ◌-◌, ◌^◌, ◌≤◌, ◌<◌, ◌≡◌, refl, Bool, true, false, ◌&&◌, List, inl, inr,
  if◌then◌else◌, ltb, leb, add32, arith, Bool-cases, Exec, returns, Ret, done, ap, ◌∙◌,
}
use weenix.Mm.State.{Mem, Mmops}
use weenix.Vm.Area.{Vmarea, page_of, IsValid}
use weenix.Vm.Paging.{Paging, IsPaging, layout}
use weenix.Vm.PageFault.{pagenum_lem}
use weenix.Vm.UserMem.{Buffer, user_frame, chunk, memcpy, read_loop, vmmap_read}
use weenix.Vm.UserMem.Bytes.{
  Writes, Contents, Behind, Behind_lem, offset-lt, same_page, user_byte, IsBacked,
}

two_parts :
    (x y z copied n count i : ℕ)
    → n ≤ count - copied
    → (copied ≤ i → i < copied + n → x ≡ y)
    → (if leb (copied + n) i && ltb i count
        then y
        else (if leb copied i && ltb i (copied + n) then x else z))
      ≡ (if leb copied i && ltb i count then y else z)
two_parts x y z copied n count i l h = ground (arith, h)

module _ (pg : Paging) (laws : IsPaging pg) (ops : Mmops)
    (lookuppage : Mem → ℕ → ℕ → Bool → Exec (Ret ℕ × Mem)) (c : Contents ops lookuppage)
    (areas : List Vmarea) (ok : IsValid (layout pg) areas) where
  -- The frame of an address that is backed.
  pub user_frame_lem :
      (s : Mem) (cur : ℕ) (forwrite : Bool)
      → c.Good s
      → (b : Behind c.has areas (pg.addr_to_pn cur))
      → (p : ℕ) × (t : Mem) × (user_frame pg ops lookuppage s areas cur forwrite ≡ returns (p, t))
        × c.Good t
        × (c.content t ≡ c.content s)
        × ((t.pframe p).bytes ≡ c.content s b.object (page_of b.area (pg.addr_to_pn cur)).pagenum)
        × (forwrite ≡ true
            → Writes ops lookuppage c.Good c.has c.content t p b.object
                (page_of b.area (pg.addr_to_pn cur)).pagenum)
  unfolding user_frame
  user_frame_lem s cur forwrite good b =
      let n = pg.addr_to_pn cur in
      let num = pagenum_lem _ _ n b.area areas ok.ordered ok.word b.found in
      let (p, t, run, good', same, bytes, writes) =
        c.looks_up s b.object (page_of b.area n).pagenum forwrite good b.held in
      (p, t, rw (b.found, b.backed, num, run) refl, good', same, bytes, writes)

  -- A round copies at least a byte, at most what is left, and does not leave the page.
  pub chunk_bounds :
      (count copied cur : ℕ)
      → copied < count
      → count < 2 ^ 32
      → (0 < chunk pg ops lookuppage count copied cur)
        × (chunk pg ops lookuppage count copied cur ≤ count - copied)
        × (pg.page_offset cur + chunk pg ops lookuppage count copied cur ≤ pg.page_size)
  unfolding chunk
  chunk_bounds count copied cur l w = ground (arith, offset-lt pg laws cur)

  abbrev pub byte : Mem → ℕ → ℕ
  byte s a = user_byte pg laws (c.content s) areas a

  -- The bytes that a round finds in the frame of its page.
  pub frame_bytes :
      (s : Mem) (cur j : ℕ) (b : Behind c.has areas (pg.addr_to_pn cur))
      → pg.page_offset cur + j < pg.page_size
      → c.content s b.object (page_of b.area (pg.addr_to_pn cur)).pagenum (pg.page_offset cur + j)
        ≡ byte s (cur + j)
  frame_bytes s cur j b h =
      let (p, o) = same_page pg laws cur j h in rw (p, o, b.mapped, b.backed) refl

  -- The first `copied` bytes of the buffer are there; the loop adds the others.
  abbrev pub filled : Mem → Buffer → ℕ → ℕ → ℕ → Buffer
  filled s buf vaddr copied count =
      λ i. if leb copied i && ltb i count then byte s (vaddr + i) else buf i

  -- One round more.
  filled_round :
      (s t : Mem) (vaddr count copied n : ℕ) (buf bytes : Buffer)
      (b : Behind c.has areas (pg.addr_to_pn (vaddr + copied)))
      → c.content t ≡ c.content s
      → bytes ≡ c.content s b.object (page_of b.area (pg.addr_to_pn (vaddr + copied))).pagenum
      → n ≤ count - copied
      → pg.page_offset (vaddr + copied) + n ≤ pg.page_size
      → (i : ℕ)
      → filled t
          (memcpy buf copied bytes (pg.page_offset (vaddr + copied)) n)
          vaddr
          (copied + n)
          count
          i
        ≡ filled s buf vaddr copied count i
  filled_round s t vaddr count copied n buf bytes b same e l h i =
      rw (same, e)
        (two_parts
          (c.content s b.object (page_of b.area (pg.addr_to_pn (vaddr + copied))).pagenum
            (pg.page_offset (vaddr + copied) + (i - copied)))
          (byte s (vaddr + i)) (buf i) copied n count i l
          (λ x y.
            frame_bytes s (vaddr + copied) (i - copied) b (omega arith)
            ∙ ap (byte s) (omega arith)))

  read_round :
      (fuel end count cur next copied more p : ℕ) (s t : Mem) (buf : Buffer)
      (r : Exec (Ret ℕ × Buffer × Mem))
      → ltb cur end ≡ true
      → user_frame pg ops lookuppage s areas cur false ≡ returns (p, t)
      → add32 cur (chunk pg ops lookuppage count copied cur) ≡ next
      → add32 copied (chunk pg ops lookuppage count copied cur) ≡ more
      → read_loop pg ops lookuppage fuel t areas end count next more (
          memcpy buf copied
            (t.pframe p).bytes
            (pg.page_offset cur)
            (chunk pg ops lookuppage count copied cur))
        ≡ r
      → read_loop pg ops lookuppage (suc fuel) s areas end count cur copied buf ≡ r
  unfolding read_loop
  read_round fuel end count cur next copied more p s t buf r e run a b rest = rw (e, run, a, b) rest

  read_loop_lem :
      (fuel : ℕ) (s : Mem) (vaddr count copied : ℕ) (buf : Buffer)
      → c.Good s
      → vaddr + count < 2 ^ 32
      → copied ≤ count
      → count - copied < fuel
      → IsBacked pg laws c.has areas (vaddr + copied) (vaddr + count)
      → (t : Mem) × (out : Buffer) × (read_loop pg ops lookuppage fuel s areas
            (vaddr + count)
            count
            (vaddr + copied)
            copied
            buf
          ≡ returns (done 0, out, t))
        × c.Good t
        × (c.content t ≡ c.content s)
        × ((i : ℕ) → out i ≡ filled s buf vaddr copied count i)
  unfolding read_loop
  read_loop_lem zero s vaddr count copied buf good w l f back = absurd (omega arith)
  read_loop_lem (suc fuel) s vaddr count copied buf good w l f back =
      let cur = vaddr + copied in
      elim (Bool-cases (ltb cur (vaddr + count))) [
        | inr e ↦ rw e (s, buf, refl, good, refl, λ i. ground arith)
        | inl e ↦
            let b =
              Behind_lem c.has areas (pg.addr_to_pn cur) (back cur (omega arith) (ground arith)) in
            let (p, t, run, good', same, bytes, _) = user_frame_lem s cur false good b in
            let n = chunk pg ops lookuppage count copied cur in
            let (pos, most, inside) = chunk_bounds count copied cur (ground arith) (omega arith) in
            let next : add32 cur n ≡ vaddr + (copied + n) = omega arith in
            let more : add32 copied n ≡ copied + n = omega arith in
            let (u, out, rest, good'', same', all) =
              read_loop_lem fuel t vaddr count (copied + n)
                (memcpy buf copied (t.pframe p).bytes (pg.page_offset cur) n) good' w (omega arith)
                (omega arith) (λ a x y. back a (omega arith) y) in
            (
              u,
              out,
              read_round fuel (vaddr + count) count cur (vaddr + (copied + n)) copied (copied + n) p
                  s t buf (returns (done 0, out, u)) e run next more rest,
              good'',
              same' ∙ same,
              λ i.
                  all i
                  ∙ filled_round s t vaddr count copied n buf (t.pframe p).bytes b same bytes most
                      inside i,
            )
      ]

  read_start :
      (end count vaddr cur : ℕ) (s : Mem) (buf : Buffer) (r : Exec (Ret ℕ × Buffer × Mem))
      → add32 vaddr count ≡ end
      → cur ≡ vaddr
      → read_loop pg ops lookuppage (count + 1) s areas end count cur 0 buf ≡ r
      → vmmap_read pg ops lookuppage s areas vaddr buf count ≡ r
  unfolding vmmap_read
  read_start end count vaddr cur s buf r e z run = rw (e, ← z) run

  -- `vmmap_read` of a range that does not wrap, where every address is mapped to a page that can be
  -- looked up: it returns 0, the first `count` bytes of the buffer are those of the user memory from
  -- `vaddr` on, its other bytes and all contents are as before. (Given a valid address space and the
  -- laws of the page macros.)
  pub vmmap_read_lem :
      (s : Mem) (vaddr count : ℕ) (buf : Buffer)
      → c.Good s
      → vaddr + count < 2 ^ 32
      → IsBacked pg laws c.has areas vaddr (vaddr + count)
      → (t : Mem) × (out : Buffer) × (vmmap_read pg ops lookuppage s areas vaddr buf count
          ≡ returns (done 0, out, t))
        × c.Good t
        × (c.content t ≡ c.content s)
        × ((i : ℕ) → out i ≡ (if ltb i count then byte s (vaddr + i) else buf i))
  vmmap_read_lem s vaddr count buf good w back =
      let e : add32 vaddr count ≡ vaddr + count = omega arith in
      let z : vaddr + 0 ≡ vaddr = omega arith in
      let (t, out, run, good', same, all) =
        read_loop_lem (count + 1) s vaddr count 0 buf good w (omega arith) (omega arith)
          (λ a x y. back a (omega arith) y) in
      (
        t,
        out,
        read_start (vaddr + count) count vaddr (vaddr + 0) s buf (returns (done 0, out, t)) e z run,
        good',
        same,
        λ i. all i ∙ ground arith,
      )
