-- ===== src/Api/Syscall/Getdents.antt =====
-- sys_getdents of kernel/api/syscall.c. The results of the copies and of kmalloc are not looked at; a block
-- that is NULL, which do_getdent would fill, is `panics`.
use weenix.Prelude.{
  ℕ, zero, suc, ◌+◌, ◌-◌, ◌*◌, ◌≤◌, ◌<◌, ◌≡◌, refl, ◌⊎◌, true, Option, none, some, inl, inr,
  if◌then◌else◌, ◌==◌, ltb, add32, ◌^◌, arith, Bool-cases, Exec, returns, panics, ◌>>=◌, deref, Ret,
  done, fails, ◌∙◌, Errno,
}
use weenix.Vm.UserMem.{Buffer}
use weenix.Api.Syscall.{Kern, Sys, Answer, answer, minus_one, set_errno, set_kern, kfree}
use weenix.Api.Syscall.Laws.{Exec-cases, reported}

-- `getdents_args_t`, and `sizeof(dirent_t)`.
pub record DirArgs : Type 0 where
  pub size : ℕ
  pub fd : Buffer → ℕ
  pub dirp : Buffer → ℕ
  pub count : Buffer → ℕ
  pub size_dirent : ℕ

-- do_getdent, which fills the block, and `page_free` of NULL.
pub record DirKern (K : Type 0) : Type 0 where
  pub do_getdent : K → ℕ → Buffer → Exec (Ret ℕ × Buffer × K)
  pub page_free_null : K → Exec K

module _ {K : Type 0} (o : Kern K) (d : DirKern K) (b : DirArgs) where
  -- The entry goes to the user, and the loop goes on.
  pub dirent_copied :
      Sys K → Buffer → Buffer → ℕ → (Sys K → ℕ → Exec (Answer × Sys K)) → K → Exec (Answer × Sys K)
  dirent_copied s kargs dir n again k = do
    r ← o.copy_to_user k (add32 (b.dirp kargs) n) dir b.size_dirent
    again (set_kern s r.1) (add32 n b.size_dirent)

  -- After do_getdent: 0 is the end of the directory, and `handle_error` frees the page NULL.
  pub got_dirent :
      Sys K
      → Buffer
      → ℕ
      → (Buffer → Sys K → ℕ → Exec (Answer × Sys K))
      → Ret ℕ × Buffer × K
      → Exec (Answer × Sys K)
  got_dirent s kargs n again (fails e, dir, k) =
      d.page_free_null k >>= λ k'. returns (minus_one, set_errno (kfree (set_kern s k')) e)
  got_dirent s kargs n again (done r, dir, k) =
      if r == 0
      then returns (answer n, kfree (set_kern s k))
      else dirent_copied s kargs dir n (again dir) k

  pub getdents_loop : ℕ → Sys K → Buffer → Buffer → ℕ → Exec (Answer × Sys K)
  getdents_loop zero s kargs dir n = panics
  getdents_loop (suc fuel) s kargs dir n =
      let round =
        (d.do_getdent s.kern (b.fd kargs) dir
          >>= got_dirent s kargs n (λ dir' t m. getdents_loop fuel t kargs dir' m)) in
      if ltb n (b.count kargs) then round else returns (answer n, kfree s)

  pub getdents_in : Sys K → Buffer → Option Buffer → Exec (Answer × Sys K)
  getdents_in s kargs block = do
    dir ← deref block
    getdents_loop (b.count kargs + 1) (record s { blocks = s.blocks + 1 }) kargs dir 0

  pub sys_getdents : Sys K → Buffer → ℕ → Exec (Answer × Sys K)
  sys_getdents s stack arg = do
    (r, kargs, k) ← o.copy_from_user s.kern stack arg b.size
    getdents_in (set_kern s k) kargs (o.kmalloc k b.size_dirent)

  -- Where the loop stops from `n` bytes on: in do_getdent, in page_free of NULL after it has failed, in the
  -- copy of an entry to the user, or in a later round.
  pub data DirStop (kargs : Buffer) : K → Buffer → ℕ → Type 0 where
    in_getdent :
        (k : K) (dir : Buffer) (n : ℕ)
        → d.do_getdent k (b.fd kargs) dir ≡ panics
        → DirStop kargs k dir n
    in_free :
        (k k' : K) (dir dir' : Buffer) (n : ℕ) (e : Errno)
        → d.do_getdent k (b.fd kargs) dir ≡ returns (fails e, dir', k')
        → d.page_free_null k' ≡ panics
        → DirStop kargs k dir n
    in_copy :
        (k k' : K) (dir dir' : Buffer) (n r : ℕ)
        → d.do_getdent k (b.fd kargs) dir ≡ returns (done r, dir', k')
        → o.copy_to_user k' (add32 (b.dirp kargs) n) dir' b.size_dirent ≡ panics
        → DirStop kargs k dir n
    later :
        (k k' l : K) (dir dir' : Buffer) (n r : ℕ) (w : Ret ℕ)
        → d.do_getdent k (b.fd kargs) dir ≡ returns (done r, dir', k')
        → o.copy_to_user k' (add32 (b.dirp kargs) n) dir' b.size_dirent ≡ returns (w, l)
        → DirStop kargs l dir' (n + b.size_dirent)
        → DirStop kargs k dir n

  -- The bytes that were read are whole entries, and less than an entry more than was asked for.
  abbrev pub Listed : Buffer → Answer → Type 0
  Listed kargs (answer m) = (q : ℕ) × (m ≡ q * b.size_dirent) × (m < b.count kargs + b.size_dirent)
  Listed kargs minus_one = Unit {0}

  -- It stops, and `B` says where, or it returns with `n` blocks less.
  abbrev Lists : Type 0 → ℕ → Sys K → Buffer → Exec (Answer × Sys K) → Type 0
  Lists B n s kargs m =
      (B × (m ≡ panics))
      ⊎ ((a : Answer) × (t : Sys K) × (m ≡ returns (a, t))
          × (t.blocks + n ≡ s.blocks)
          × (reported a t ≡ true)
          × Listed kargs a)

  moved :
      (B C : Type 0) (n k : ℕ) (s u : Sys K) (kargs : Buffer) (m : Exec (Answer × Sys K))
      → (B → C)
      → ((x : ℕ) → x + n ≡ u.blocks → x + k ≡ s.blocks)
      → Lists B n u kargs m
      → Lists C k s kargs m
  moved B C n k s u kargs m f h (inl (x, e)) = inl (f x, e)
  moved B C n k s u kargs m f h (inr (a, t, e, c, x, y)) = inr (a, t, e, h t.blocks c, x, y)

  -- The copy of an entry, and the rounds after it.
  copied-Lists :
      (B : K → Type 0) (s : Sys K) (kargs dir : Buffer) (n : ℕ)
      (again : Sys K → ℕ → Exec (Answer × Sys K)) (k : K)
      → b.count kargs + b.size_dirent < 2 ^ 32
      → n < b.count kargs
      → ((t : Sys K)
          → t.blocks ≡ s.blocks
          → Lists (B t.kern) 1 t kargs (again t (n + b.size_dirent)))
      → Lists
          ((o.copy_to_user k (add32 (b.dirp kargs) n) dir b.size_dirent ≡ panics)
            ⊎ ((w : Ret ℕ) × (l : K) × (o.copy_to_user k (add32 (b.dirp kargs) n) dir b.size_dirent
                  ≡ returns (w, l))
                × B l))
          1
          s
          kargs
          (dirent_copied s kargs dir n again k)
  unfolding dirent_copied
  copied-Lists B s kargs dir n again k bound l h =
      let q : add32 n b.size_dirent ≡ n + b.size_dirent = omega arith in
      elim (Exec-cases (o.copy_to_user k (add32 (b.dirp kargs) n) dir b.size_dirent)) [
        | inl e ↦ rw e (inl (inl refl, refl))
        | inr ((w, x), e) ↦
            rw (e, q)
              (moved (B x) _ 1 1 s (set_kern s x) kargs _ (λ y. inr (w, x, refl, y)) (λ y z. z)
                (h (set_kern s x) refl))
      ]

  next_entry : (q n : ℕ) → n ≡ q * b.size_dirent → n + b.size_dirent ≡ suc q * b.size_dirent
  next_entry q n w = omega arith

  -- A round, once do_getdent has returned.
  got-Lists :
      (s : Sys K) (kargs dir : Buffer) (n : ℕ) (again : Buffer → Sys K → ℕ → Exec (Answer × Sys K))
      (r : Ret ℕ) (dir' : Buffer) (k : K)
      → b.count kargs + b.size_dirent < 2 ^ 32
      → 1 ≤ s.blocks
      → n < b.count kargs
      → (q : ℕ) × (n ≡ q * b.size_dirent)
      → d.do_getdent s.kern (b.fd kargs) dir ≡ returns (r, dir', k)
      → ((t : Sys K)
          → t.blocks ≡ s.blocks
          → Lists
              (DirStop kargs t.kern dir' (n + b.size_dirent))
              1
              t
              kargs
              (again dir' t (n + b.size_dirent)))
      → Lists (DirStop kargs s.kern dir n) 1 s kargs (got_dirent s kargs n again (r, dir', k))
  unfolding got_dirent
  got-Lists s kargs dir n again (fails e) dir' k bound p l _ g h =
      elim (Exec-cases (d.page_free_null k)) [
        | inl f ↦ rw f (inl (in_free s.kern k dir dir' n e g f, refl))
        | inr (k', f) ↦
            rw f (inr (minus_one, set_errno (kfree (set_kern s k')) e, refl, omega arith, refl, tt))
      ]
  got-Lists s kargs dir n again (done r) dir' k bound p l (q, w) g h = elim (Bool-cases (r == 0)) [
    | inl e ↦
        rw e (inr (answer n, kfree (set_kern s k), refl, omega arith, refl, (q, w, omega arith)))
    | inr e ↦ rw e (
        moved _ (DirStop kargs s.kern dir n) 1 1 s s kargs _
          (λ x. elim x [
            | inl c ↦ in_copy s.kern k dir dir' n r g c
            | inr (c, x, y, z) ↦ later s.kern k x dir dir' n r c g y z
          ])
          (λ x y. y)
          (copied-Lists (λ x. DirStop kargs x dir' (n + b.size_dirent)) s kargs dir' n (again dir')
            k bound l h))
  ]

  loop-Lists :
      (fuel : ℕ) (s : Sys K) (kargs dir : Buffer) (n : ℕ)
      → 1 ≤ b.size_dirent
      → b.count kargs + b.size_dirent < 2 ^ 32
      → 1 ≤ s.blocks
      → b.count kargs - n < fuel
      → n < b.count kargs + b.size_dirent
      → (q : ℕ) × (n ≡ q * b.size_dirent)
      → Lists (DirStop kargs s.kern dir n) 1 s kargs (getdents_loop fuel s kargs dir n)
  unfolding getdents_loop
  loop-Lists zero s kargs dir n one bound p l _ _ = absurd (omega arith)
  loop-Lists (suc fuel) s kargs dir n one bound p l z (q, w) =
      elim (Bool-cases (ltb n (b.count kargs))) [
        | inr e ↦ rw e (inr (answer n, kfree s, refl, omega arith, refl, (q, w, z)))
        | inl e ↦
            let m : n < b.count kargs = ground arith in
            elim (Exec-cases (d.do_getdent s.kern (b.fd kargs) dir)) [
              | inl f ↦ rw (e, f) (inl (in_getdent s.kern dir n f, refl))
              | inr ((r, dir', k), f) ↦
                  rw (e, f)
                    (got-Lists s kargs dir n (λ x t m. getdents_loop fuel t kargs x m) r dir' k
                      bound p m (q, w) f
                      (λ t same.
                        loop-Lists fuel t kargs dir' (n + b.size_dirent) one bound (omega arith)
                          (omega arith) (omega arith) (suc q, next_entry q n w)))
            ]
      ]

  -- Where sys_getdents stops after the copy of its arguments: for want of a block, or in the loop.
  abbrev pub BlockStop : Buffer → K → Option Buffer → Type 0
  BlockStop kargs k none = Unit {0}
  BlockStop kargs k (some dir) = DirStop kargs k dir 0

  in-Lists :
      (s : Sys K) (kargs : Buffer) (block : Option Buffer)
      → 1 ≤ b.size_dirent
      → b.count kargs + b.size_dirent < 2 ^ 32
      → Lists (BlockStop kargs s.kern block) 0 s kargs (getdents_in s kargs block)
  unfolding getdents_in
  in-Lists s kargs none one bound = inl (tt, refl)
  in-Lists s kargs (some dir) one bound =
      let t = record s { blocks = s.blocks + 1 } in
      moved _ _ 1 0 s t kargs _ (λ x. x) (λ x y. omega arith)
        (loop-Lists (b.count kargs + 1) t kargs dir 0 one bound (omega arith) (omega arith)
          (omega arith) (0, omega arith))

  listed :
      (B : Type 0) (s : Sys K) (k : K) (kargs : Buffer) (m m' : Exec (Answer × Sys K))
      → m' ≡ m
      → Lists B 0 (set_kern s k) kargs m
      → (B × (m' ≡ panics))
        ⊎ ((a : Answer) × (t : Sys K) × (m' ≡ returns (a, t))
            × (t.blocks ≡ s.blocks)
            × (reported a t ≡ true)
            × Listed kargs a)
  listed B s k kargs m m' h (inl (x, e)) = inl (x, h ∙ e)
  listed B s k kargs m m' h (inr (a, t, e, c, x, y)) = inr (a, t, h ∙ e, omega arith, x, y)

  -- sys_getdents with the arguments `kargs` stops the kernel only for want of a block, where do_getdent or
  -- the copy of an entry stops it, or in the page_free of NULL with which it answers an error of
  -- do_getdent. Otherwise it returns, so the loop over the directory ends. It has then freed the block
  -- for an entry, and if it returns -1, `kt_errno` is set; any other answer is the size of some number of
  -- whole entries, less than an entry above the count of the arguments. (Given that an entry has at least
  -- a byte, and that the count does not wrap with an entry more.)
  pub sys_getdents-Listed :
      (s : Sys K) (stack kargs : Buffer) (arg : ℕ) (r : Ret ℕ) (k : K)
      → o.copy_from_user s.kern stack arg b.size ≡ returns (r, kargs, k)
      → 1 ≤ b.size_dirent
      → b.count kargs + b.size_dirent < 2 ^ 32
      → (BlockStop kargs k (o.kmalloc k b.size_dirent) × (sys_getdents s stack arg ≡ panics))
        ⊎ ((a : Answer) × (t : Sys K) × (sys_getdents s stack arg ≡ returns (a, t))
            × (t.blocks ≡ s.blocks)
            × (reported a t ≡ true)
            × Listed kargs a)
  unfolding sys_getdents
  sys_getdents-Listed s stack kargs arg r k e one bound =
      listed (BlockStop kargs k (o.kmalloc k b.size_dirent)) s k kargs
        (getdents_in (set_kern s k) kargs (o.kmalloc k b.size_dirent)) (sys_getdents s stack arg)
        (rw e refl) (in-Lists (set_kern s k) kargs (o.kmalloc k b.size_dirent) one bound)
