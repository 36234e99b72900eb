-- ===== src/Vm/UserMem/Write.antt =====
-- What vmmap_write changes.
use weenix.Prelude.{
  ℕ, zero, suc, ◌+◌, ◌-◌, ◌*◌, ◌^◌, ◌≤◌, ◌<◌, ◌≡◌, refl, Bool, true, false, ◌&&◌, some, List, inl,
  inr, if◌then◌else◌, ◌==◌, ltb, leb, add32, arith, Bool-cases, Exec, returns, Ret, done, ap, sym,
  ◌∙◌,
}
use weenix.Mm.State.{Mem, Mmops}
use weenix.Vm.Area.{Vmarea, Page, view, page_of, IsValid}
use weenix.Vm.Paging.{Paging, IsPaging, layout}
use weenix.Vm.UserMem.{
  Buffer, user_frame, chunk, memcpy, write_frame, write_loop, vmmap_write, vmmap_read,
}
use weenix.Vm.UserMem.Bytes.{Writes, Contents, is_backed, Behind, Behind_lem, same_page, IsBacked}
use weenix.Vm.UserMem.Read.{user_frame_lem, chunk_bounds, byte, vmmap_read_lem}

-- No page of an object is mapped at two places.
abbrev pub Unaliased : List Vmarea → Type 0
Unaliased areas =
    (m n : ℕ) (p q : Page)
    → view areas m ≡ some p
    → view areas n ≡ some q
    → p.obj ≡ q.obj
    → p.pagenum ≡ q.pagenum
    → m ≡ n

-- Offsets in a page and addresses that lie in it.
shifted :
    (base at off cur a n copied z : ℕ) (buf : Buffer)
    → base + at ≡ cur
    → base + off ≡ a
    → (if leb at off && ltb off (at + n) then buf (copied + (off - at)) else z)
      ≡ (if leb cur a && ltb a (cur + n) then buf (copied + (a - cur)) else z)
shifted base at off cur a n copied z buf e h =
    let d : off - at ≡ a - cur = omega arith in ground arith

module _ (pg : Paging) (laws : IsPaging pg) (ops : Mmops)
    (lookuppage : Mem → ℕ → ℕ → Bool → Exec (Ret ℕ × Mem)) (c : Contents ops lookuppage)
    (areas : List Vmarea) (ok : IsValid (layout pg) areas) where
  abbrev user : Mem → ℕ → ℕ
  user s a = byte pg laws ops lookuppage c areas ok s a

  user_lem :
      (s : Mem) (a : ℕ) (b : Behind c.has areas (pg.addr_to_pn a))
      → user s a
        ≡ c.content s b.object (page_of b.area (pg.addr_to_pn a)).pagenum (pg.page_offset a)
  user_lem s a b = rw (b.mapped, b.backed) refl

  write_frame_lem :
      (t : Mem) (p o k at n copied : ℕ) (buf : Buffer)
      → Writes ops lookuppage c.Good c.has c.content t p o k
      → (t.pframe p).bytes ≡ c.content t o k
      → (u : Mem) × (write_frame pg ops lookuppage t p at buf copied n ≡ returns u)
        × c.Good u
        × ((x m i : ℕ)
            → c.has x m ≡ true
            → c.content u x m i ≡ (
                if o == x && k == m
                then memcpy (c.content t o k) at buf copied n i
                else c.content t x m i))
  unfolding write_frame
  write_frame_lem t p o k at n copied buf writes e =
      let (r, u, run, good, all) = writes (memcpy (t.pframe p).bytes at buf copied n) in
      (u, rw run refl, good, λ x m i h. all x m i h ∙ rw e refl)

  -- What a round makes of the byte at `a`.
  abbrev stored : Mem → ℕ → ℕ → Buffer → ℕ → ℕ → ℕ
  stored s cur n buf copied a =
      if leb cur a && ltb a (cur + n) then buf (copied + (a - cur)) else user s a

  stored_here :
      (s : Mem) (cur n copied a : ℕ) (buf : Buffer) (b : Behind c.has areas (pg.addr_to_pn cur))
      → pg.addr_to_pn a ≡ pg.addr_to_pn cur
      → memcpy
          (c.content s b.object (page_of b.area (pg.addr_to_pn cur)).pagenum)
          (pg.page_offset cur)
          buf
          copied
          n
          (pg.page_offset a)
        ≡ stored s cur n buf copied a
  stored_here s cur n copied a buf b e =
      let k = pg.addr_to_pn cur in
      let z : user s a ≡ c.content s b.object (page_of b.area k).pagenum (pg.page_offset a) =
        rw (e, b.mapped, b.backed) refl in
      let same : k * pg.page_size + pg.page_offset a ≡ a =
        ap (λ m. m * pg.page_size + pg.page_offset a) (sym e) ∙ laws.offset_lem a in
      rw z (
        shifted (k * pg.page_size) (pg.page_offset cur) (pg.page_offset a) cur a n copied
          (c.content s b.object (page_of b.area k).pagenum (pg.page_offset a)) buf
          (laws.offset_lem cur) same)

  stored_elsewhere :
      (s : Mem) (cur n copied a : ℕ) (buf : Buffer)
      → pg.page_offset cur + n ≤ pg.page_size
      → (pg.addr_to_pn a == pg.addr_to_pn cur) ≡ false
      → user s a ≡ stored s cur n buf copied a
  stored_elsewhere s cur n copied a buf l h = elim (Bool-cases (leb cur a && ltb a (cur + n))) [
    | inr e ↦ rw e refl
    | inl e ↦
        let (p, _) = same_page pg laws cur (a - cur) (ground arith) in
        let there : cur + (a - cur) ≡ a = ground arith in
        absurd (ground (arith, ap pg.addr_to_pn there))
  ]

  same_place :
      (k m : ℕ) (b : Behind c.has areas k) (d : Behind c.has areas m)
      → Unaliased areas
      → (b.object == d.object && (page_of b.area k).pagenum == (page_of d.area m).pagenum) ≡ true
      → m ≡ k
  same_place k m b d single e =
      let object : b.object ≡ d.object = ground arith in
      single m k (page_of d.area m) (page_of b.area k) d.mapped b.mapped
        (d.backed ∙ ap some (sym object) ∙ sym b.backed) (ground arith)

  other_place :
      (k m : ℕ) (b : Behind c.has areas k) (d : Behind c.has areas m)
      → (b.object == d.object && (page_of b.area k).pagenum == (page_of d.area m).pagenum) ≡ false
      → (m == k) ≡ false
  other_place k m b d e = elim (Bool-cases (m == k)) [
    | inr h ↦ h
    | inl h ↦
        let s : m ≡ k = ground arith in
        let same : view areas m ≡ view areas k = ap (view areas) s in
        let area : b.area ≡ d.area = cc (b.found, d.found, s) in
        absurd (ground (arith, b.backed, d.backed, area))
  ]

  stored_lem :
      (s : Mem) (cur n copied a : ℕ) (buf : Buffer) (b : Behind c.has areas (pg.addr_to_pn cur))
      (d : Behind c.has areas (pg.addr_to_pn a))
      → Unaliased areas
      → pg.page_offset cur + n ≤ pg.page_size
      → (if b.object == d.object
            && (page_of b.area (pg.addr_to_pn cur)).pagenum
              == (page_of d.area (pg.addr_to_pn a)).pagenum
          then memcpy
              (c.content s b.object (page_of b.area (pg.addr_to_pn cur)).pagenum)
              (pg.page_offset cur)
              buf
              copied
              n
              (pg.page_offset a)
          else c.content s d.object (page_of d.area (pg.addr_to_pn a)).pagenum (pg.page_offset a))
        ≡ stored s cur n buf copied a
  stored_lem s cur n copied a buf b d single l =
      let k = pg.addr_to_pn cur in
      let m = pg.addr_to_pn a in
      elim (Bool-cases
        (b.object == d.object && (page_of b.area k).pagenum == (page_of d.area m).pagenum)) [
          | inl e ↦ rw e (stored_here s cur n copied a buf b (same_place k m b d single e))
          | inr e ↦ rw e (
              sym (user_lem s a d)
              ∙ stored_elsewhere s cur n copied a buf l (other_place k m b d e))
        ]

  -- One round of the loop, on every address that is backed.
  write_round_lem :
      (s : Mem) (cur n copied : ℕ) (buf : Buffer)
      → c.Good s
      → Unaliased areas
      → is_backed c.has (view areas (pg.addr_to_pn cur)) ≡ true
      → pg.page_offset cur + n ≤ pg.page_size
      → (p : ℕ) × (t : Mem) × (u : Mem) × (user_frame pg ops lookuppage s areas cur true
          ≡ returns (p, t))
        × (write_frame pg ops lookuppage t p (pg.page_offset cur) buf copied n ≡ returns u)
        × c.Good u
        × ((a : ℕ)
            → is_backed c.has (view areas (pg.addr_to_pn a)) ≡ true
            → user u a ≡ stored s cur n buf copied a)
  write_round_lem s cur n copied buf good single back l =
      let b = Behind_lem c.has areas (pg.addr_to_pn cur) back in
      let k = (page_of b.area (pg.addr_to_pn cur)).pagenum in
      let (p, t, run, good', same, bytes, writes) =
        user_frame_lem pg laws ops lookuppage c areas ok s cur true good b in
      let (u, stores, good'', all) =
        write_frame_lem t p b.object k (pg.page_offset cur) n copied buf (writes refl)
          (bytes ∙ sym (ap (λ m. m b.object k) same)) in
      (
        p,
        t,
        u,
        run,
        stores,
        good'',
        λ a h.
            let d = Behind_lem c.has areas (pg.addr_to_pn a) h in
            user_lem u a d
            ∙ all d.object (page_of d.area (pg.addr_to_pn a)).pagenum (pg.page_offset a) d.held
            ∙ (rw same (stored_lem s cur n copied a buf b d single l)),
      )

  write_round :
      (fuel end count cur next copied more p : ℕ) (s t u : Mem) (buf : Buffer)
      (r : Exec (Ret ℕ × Mem))
      → ltb cur end ≡ true
      → user_frame pg ops lookuppage s areas cur true ≡ returns (p, t)
      → write_frame pg ops lookuppage t p
          (pg.page_offset cur)
          buf
          copied
          (chunk pg ops lookuppage count copied cur)
        ≡ returns u
      → add32 cur (chunk pg ops lookuppage count copied cur) ≡ next
      → add32 copied (chunk pg ops lookuppage count copied cur) ≡ more
      → write_loop pg ops lookuppage fuel u areas end count next more buf ≡ r
      → write_loop pg ops lookuppage (suc fuel) s areas end count cur copied buf ≡ r
  unfolding write_loop
  write_round fuel end count cur next copied more p s t u buf r e run stores a b rest =
      rw (e, run, stores, a, b) rest

  -- A byte that a round or a later one writes, or none.
  two_rounds :
      (vaddr count copied n a z : ℕ) (buf : Buffer)
      → n ≤ count - copied
      → (if leb (vaddr + (copied + n)) a && ltb a (vaddr + count)
          then buf (a - vaddr)
          else (if leb (vaddr + copied) a && ltb a (vaddr + copied + n)
              then buf (copied + (a - (vaddr + copied)))
              else z))
        ≡ (if leb (vaddr + copied) a && ltb a (vaddr + count) then buf (a - vaddr) else z)
  two_rounds vaddr count copied n a z buf l = elim (Bool-cases (leb (vaddr + copied) a)) [
    | inl e ↦ let d : copied + (a - (vaddr + copied)) ≡ a - vaddr = ground arith in ground arith
    | inr e ↦ ground arith
  ]

  write_loop_lem :
      (fuel : ℕ) (s : Mem) (vaddr count copied : ℕ) (buf : Buffer)
      → c.Good s
      → Unaliased areas
      → vaddr + count < 2 ^ 32
      → copied ≤ count
      → count - copied < fuel
      → IsBacked pg laws c.has areas (vaddr + copied) (vaddr + count)
      → (t : Mem) × (write_loop pg ops lookuppage fuel s areas
            (vaddr + count)
            count
            (vaddr + copied)
            copied
            buf
          ≡ returns (done 0, t))
        × c.Good t
        × ((a : ℕ)
            → is_backed c.has (view areas (pg.addr_to_pn a)) ≡ true
            → user t a ≡ (
                if leb (vaddr + copied) a && ltb a (vaddr + count)
                then buf (a - vaddr)
                else user s a))
  unfolding write_loop
  write_loop_lem zero s vaddr count copied buf good single w l f back = absurd (omega arith)
  write_loop_lem (suc fuel) s vaddr count copied buf good single w l f back =
      let cur = vaddr + copied in
      elim (Bool-cases (ltb cur (vaddr + count))) [
        | inr e ↦ rw e (s, refl, good, λ a h. ground arith)
        | inl e ↦
            let n = chunk pg ops lookuppage count copied cur in
            let (pos, most, inside) =
              chunk_bounds pg laws ops lookuppage c areas ok count copied cur (ground arith)
                (omega arith) in
            let (p, t, u, run, stores, good', first) =
              write_round_lem s cur n copied buf good single (back cur (omega arith) (ground arith))
                inside in
            let next : add32 cur n ≡ vaddr + (copied + n) = omega arith in
            let more : add32 copied n ≡ copied + n = omega arith in
            let (v, rest, good'', others) =
              write_loop_lem fuel u vaddr count (copied + n) buf good' single w (omega arith)
                (omega arith) (λ a x y. back a (omega arith) y) in
            (
              v,
              write_round fuel (vaddr + count) count cur (vaddr + (copied + n)) copied (copied + n)
                  p s t u buf (returns (done 0, v)) e run stores next more rest,
              good'',
              λ a h.
                  others a h
                  ∙ (rw (first a h) (two_rounds vaddr count copied n a (user s a) buf most)),
            )
      ]

  write_start :
      (end count vaddr cur : ℕ) (s : Mem) (buf : Buffer) (r : Exec (Ret ℕ × Mem))
      → add32 vaddr count ≡ end
      → cur ≡ vaddr
      → write_loop pg ops lookuppage (count + 1) s areas end count cur 0 buf ≡ r
      → vmmap_write pg ops lookuppage s areas vaddr buf count ≡ r
  unfolding vmmap_write
  write_start end count vaddr cur s buf r e z run = rw (e, ← z) run

  -- `vmmap_write` to a range that does not wrap, where every address is mapped to a page that can be
  -- looked up: it returns 0, the user memory from `vaddr` on holds the first `count` bytes of the
  -- buffer, and every other address that is mapped to such a page holds what it held. (Given a valid
  -- address space that maps no page of an object twice, and the laws of the page macros.)
  pub vmmap_write_lem :
      (s : Mem) (vaddr count : ℕ) (buf : Buffer)
      → c.Good s
      → Unaliased areas
      → vaddr + count < 2 ^ 32
      → IsBacked pg laws c.has areas vaddr (vaddr + count)
      → (t : Mem) × (vmmap_write pg ops lookuppage s areas vaddr buf count ≡ returns (done 0, t))
        × c.Good t
        × ((a : ℕ)
            → is_backed c.has (view areas (pg.addr_to_pn a)) ≡ true
            → user t a
              ≡ (if leb vaddr a && ltb a (vaddr + count) then buf (a - vaddr) else user s a))
  vmmap_write_lem s vaddr count buf good single w back =
      let (t, run, good', all) =
        write_loop_lem (count + 1) s vaddr count 0 buf good single w (omega arith) (omega arith)
          (λ a x y. back a (omega arith) y) in
      (
        t,
        write_start (vaddr + count) count vaddr (vaddr + 0) s buf (returns (done 0, t))
            (omega arith) (omega arith) run,
        good',
        λ a h. all a h ∙ ground arith,
      )

  -- What `vmmap_write` writes `vmmap_read` reads: both return 0, and the buffer that was read into holds
  -- the bytes that were written, and beyond them its own. (For a range that does not wrap, where every
  -- address is mapped to a page that can be looked up; given a valid address space that maps no page of
  -- an object twice, and the laws of the page macros.)
  pub vmmap_read-write :
      (s : Mem) (vaddr count : ℕ) (buf into : Buffer)
      → c.Good s
      → Unaliased areas
      → vaddr + count < 2 ^ 32
      → IsBacked pg laws c.has areas vaddr (vaddr + count)
      → (t u : Mem) × (out : Buffer) × (vmmap_write pg ops lookuppage s areas vaddr buf count
          ≡ returns (done 0, t))
        × (vmmap_read pg ops lookuppage t areas vaddr into count ≡ returns (done 0, out, u))
        × ((i : ℕ) → out i ≡ (if ltb i count then buf i else into i))
  vmmap_read-write s vaddr count buf into good single w back =
      let (t, writes, good', all) = vmmap_write_lem s vaddr count buf good single w back in
      let (u, out, reads, _, _, found) =
        vmmap_read_lem pg laws ops lookuppage c areas ok t vaddr count into good' w back in
      (
        t,
        u,
        out,
        writes,
        reads,
        λ i. found i ∙ elim (Bool-cases (ltb i count)) [
          | inr e ↦ rw e refl
          | inl e ↦
              let d : vaddr + i - vaddr ≡ i = omega arith in
              ground (arith, all (vaddr + i) (back (vaddr + i) (omega arith) (ground arith)))
        ],
      )
