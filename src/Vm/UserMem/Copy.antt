-- ===== src/Vm/UserMem/Copy.antt =====
-- copy_from_user and copy_to_user: what they refuse and what they copy.
use weenix.Prelude.{
  ℕ, ◌+◌, ◌-◌, ◌^◌, ◌<◌, ◌≡◌, refl, ◌⊎◌, inl, inr, Bool, true, ◌&&◌, List, if◌then◌else◌, ltb, leb,
  arith, Exec, returns, Ret, done, fails, efault,
}
use weenix.Mm.State.{Mem, Mmops}
use weenix.Vm.Area.{Vmarea, Prot, view, IsValid}
use weenix.Vm.Paging.{Paging, IsPaging, layout}
use weenix.Vm.Access.{allows, Allowed, Denied, range_perm_lem}
use weenix.Vm.UserMem.{Buffer, prot_read, prot_write, copy_from_user, copy_to_user}
use weenix.Vm.UserMem.Bytes.{Contents, is_backed, IsBacked}
use weenix.Vm.UserMem.Read.{byte, vmmap_read_lem}
use weenix.Vm.UserMem.Write.{Unaliased, vmmap_write_lem}

-- Every page that is mapped with the permissions can be looked up.
abbrev pub Held : (ℕ → ℕ → Bool) → List Vmarea → Prot → Type 0
Held has areas perm = (n : ℕ) → allows areas perm n ≡ true → is_backed has (view areas n) ≡ true

module _ (pg : Paging) (laws : IsPaging pg) (ops : Mmops)
    (lookuppage : Mem → ℕ → ℕ → Bool → Exec (Ret ℕ × Mem)) (c : Contents ops lookuppage)
    (areas : List Vmarea) (ok : IsValid (layout pg) areas) where
  Allowed-IsBacked :
      (perm : Prot) (uaddr n : ℕ)
      → Held c.has areas perm
      → Allowed areas perm (pg.addr_to_pn uaddr) (pg.addr_to_pn (uaddr + n) + 1)
      → IsBacked pg laws c.has areas uaddr (uaddr + n)
  Allowed-IsBacked perm uaddr n held all = λ a l h. held (pg.addr_to_pn a) (
      all (pg.addr_to_pn a) (laws.pn_mono uaddr a l)
        (omega (arith, laws.pn_mono a (uaddr + n) (omega arith))))

  abbrev user : Mem → ℕ → ℕ
  user s a = byte pg laws ops lookuppage c areas ok s a

  -- `copy_from_user` of a range that does not wrap either returns 0 and has copied the bytes of the
  -- user memory to the first `n` bytes of the buffer, or it fails with EFAULT, and then the address
  -- space denies reading at some page from the one of `uaddr` to the one of `uaddr + n`; the buffer and
  -- the memory are then as before. (Given a valid address space whose readable pages can be looked up,
  -- and the laws of the page macros.)
  pub copy_from_user_lem :
      (s : Mem) (buf : Buffer) (uaddr n : ℕ)
      → c.Good s
      → Held c.has areas prot_read
      → uaddr + n < 2 ^ 32
      → ((t : Mem) × (out : Buffer) × (copy_from_user pg ops lookuppage s areas buf uaddr n
            ≡ returns (done 0, out, t))
          × c.Good t
          × (c.content t ≡ c.content s)
          × ((i : ℕ) → out i ≡ (if ltb i n then user s (uaddr + i) else buf i)))
        ⊎ ((copy_from_user pg ops lookuppage s areas buf uaddr n ≡ returns (fails efault, buf, s))
            × Denied areas prot_read (pg.addr_to_pn uaddr) (pg.addr_to_pn (uaddr + n) + 1))
  unfolding copy_from_user
  copy_from_user_lem s buf uaddr n good held w =
      elim (range_perm_lem pg laws areas prot_read uaddr n w) [
        | inr (e, d) ↦ inr (rw e refl, d)
        | inl (e, all) ↦
            let (t, out, run, good', same, bytes) =
              vmmap_read_lem pg laws ops lookuppage c areas ok s uaddr n buf good w
                (Allowed-IsBacked prot_read uaddr n held all) in
            inl (t, out, rw e run, good', same, bytes)
      ]

  -- `copy_to_user` to a range that does not wrap either returns 0, and the user memory there holds the
  -- first `n` bytes of the buffer while every other byte of the pages that can be looked up is as
  -- before, or it fails with EFAULT and changes nothing, and then the address space denies writing at
  -- some page from the one of `uaddr` to the one of `uaddr + n`. (Given a valid address space that maps
  -- no page of an object twice and whose writable pages can be looked up, and the laws of the page
  -- macros.)
  pub copy_to_user_lem :
      (s : Mem) (buf : Buffer) (uaddr n : ℕ)
      → c.Good s
      → Held c.has areas prot_write
      → Unaliased areas
      → uaddr + n < 2 ^ 32
      → ((t : Mem) × (copy_to_user pg ops lookuppage s areas uaddr buf n ≡ returns (done 0, t))
          × c.Good t
          × ((a : ℕ)
              → is_backed c.has (view areas (pg.addr_to_pn a)) ≡ true
              → user t a
                ≡ (if leb uaddr a && ltb a (uaddr + n) then buf (a - uaddr) else user s a)))
        ⊎ ((copy_to_user pg ops lookuppage s areas uaddr buf n ≡ returns (fails efault, s))
            × Denied areas prot_write (pg.addr_to_pn uaddr) (pg.addr_to_pn (uaddr + n) + 1))
  unfolding copy_to_user
  copy_to_user_lem s buf uaddr n good held single w =
      elim (range_perm_lem pg laws areas prot_write uaddr n w) [
        | inr (e, d) ↦ inr (rw e refl, d)
        | inl (e, all) ↦
            let (t, run, good', bytes) =
              vmmap_write_lem pg laws ops lookuppage c areas ok s uaddr n buf good single w
                (Allowed-IsBacked prot_write uaddr n held all) in
            inl (t, rw e run, good', bytes)
      ]
