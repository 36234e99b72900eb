-- ===== src/Api/Syscall/Io.antt =====
-- sys_read, sys_write and syscall_handler of kernel/api/syscall.c. Their copies between user and kernel
-- memory are made without a look at the result. A page that is NULL, which do_read would fill and
-- page_free be given, is `panics`.
use weenix.Prelude.{
  ℕ, ◌+◌, ◌≤◌, ◌≡◌, refl, ◌⊎◌, Bool, true, Option, none, some, inl, inr, if◌then◌else◌, arith, Exec,
  returns, panics, ◌>>=◌, deref, Ret, done, fails, Errno,
}
use weenix.Vm.UserMem.{Buffer}
use weenix.Api.Syscall.{Kern, Sys, Answer, answer, minus_one, set_errno, set_kern, kfree}
use weenix.Api.Syscall.Laws.{Exec-cases, Ends, Settles, reported, settled, shift}

-- `read_args_t` and `write_args_t`.
pub record IoArgs : Type 0 where
  pub size : ℕ
  pub fd : Buffer → ℕ
  pub buf : Buffer → ℕ
  pub nbytes : Buffer → ℕ

-- `page_alloc`, do_read, which fills the page, do_write, and a direct use of the user's pointer `arg`:
-- what the kernel then reads, if the processor can. `cancelled` is `kt_cancelled` of the current thread.
pub record IoKern (K : Type 0) : Type 0 where
  pub page_alloc : K → Option Buffer
  pub do_read : K → ℕ → ℕ → Buffer → Exec (Ret ℕ × Buffer × K)
  pub do_write : K → ℕ → Buffer → ℕ → Exec (Ret ℕ × K)
  pub direct : K → ℕ → Exec Buffer
  pub cancelled : K → Bool
  pub kthread_exit : K → Exec K

module _ {K : Type 0} where
  -- The page is freed, and the errno set.
  abbrev pub handle_error : Sys K → Errno → Answer × Sys K
  handle_error s e = (minus_one, set_errno (kfree s) e)

module _ {K : Type 0} (o : Kern K) (io : IoKern K) (b : IoArgs) where
  abbrev pub read_copied : ℕ → Sys K → Ret ℕ × K → Answer × Sys K
  read_copied n s (r, k) = (answer n, kfree (set_kern s k))

  -- After do_read: the bytes that were read go to the user's buffer.
  pub read_done : Sys K → ℕ → Ret ℕ × Buffer × K → Exec (Answer × Sys K)
  read_done s arg (fails e, page, k) = returns (handle_error (set_kern s k) e)
  read_done s arg (done n, page, k) = do
    user ← io.direct k arg
    r ← o.copy_to_user k (b.buf user) page n
    returns (read_copied n s r)

  -- With the arguments as they are on the stack, and the page.
  pub read_page : Sys K → ℕ → Buffer → Option Buffer → Exec (Answer × Sys K)
  read_page s arg kargs page = do
    p ← deref page
    let t = record s { blocks = s.blocks + 1 }
    r ← io.do_read t.kern (b.fd kargs) (b.nbytes kargs) p
    read_done t arg r

  pub sys_read : Sys K → Buffer → ℕ → Exec (Answer × Sys K)
  sys_read s stack arg = do
    (r, kargs, k) ← o.copy_from_user s.kern stack arg b.size
    read_page (set_kern s k) arg kargs (io.page_alloc k)

  abbrev pub written : Sys K → Ret ℕ × K → Answer × Sys K
  written s (fails e, k) = handle_error (set_kern s k) e
  written s (done n, k) = (answer n, kfree (set_kern s k))

  pub write_page : Sys K → ℕ → Buffer → Option Buffer → Exec (Answer × Sys K)
  write_page s arg kargs page = do
    p ← deref page
    user ← io.direct s.kern arg
    (r, bytes, k) ← o.copy_from_user s.kern p (b.buf user) (b.nbytes user)
    w ← io.do_write k (b.fd kargs) bytes (b.nbytes kargs)
    returns (written (record s { blocks = s.blocks + 1 }) w)

  pub sys_write : Sys K → Buffer → ℕ → Exec (Answer × Sys K)
  sys_write s stack arg = do
    (r, kargs, k) ← o.copy_from_user s.kern stack arg b.size
    write_page (set_kern s k) arg kargs (io.page_alloc k)

  -- The thread goes back to the user with an answer in `eax`, or it has exited.
  pub data Trap : Type 0 where
    back : Answer → Sys K → Trap
    gone : K → Trap

  abbrev pub leave : Sys K → Exec Trap
  leave s = io.kthread_exit s.kern >>= λ k. returns (gone k)

  abbrev pub leave_or : Answer × Sys K → Exec Trap
  leave_or (a, s) = if io.cancelled s.kern then leave s else returns (back a s)

  -- `dispatch` is syscall_dispatch with the number and the arguments that are in the registers.
  pub syscall_handler : (Sys K → Exec (Answer × Sys K)) → Sys K → Exec Trap
  syscall_handler dispatch s = if io.cancelled s.kern then leave s else dispatch s >>= leave_or

  -- Where sys_read stops after do_read, and where it stops at all: in a copy or in do_read, for want of
  -- a page, or at the user's pointer.
  abbrev pub GivesStop : ℕ → Buffer → ℕ → K → Type 0
  GivesStop arg page n k =
      (io.direct k arg ≡ panics)
      ⊎ ((user : Buffer) × (io.direct k arg ≡ returns user)
          × (o.copy_to_user k (b.buf user) page n ≡ panics))

  abbrev pub PageStop : ℕ → Buffer → K → Buffer → Type 0
  PageStop arg kargs k p =
      (io.do_read k (b.fd kargs) (b.nbytes kargs) p ≡ panics)
      ⊎ ((n : ℕ) × (page : Buffer) × (k' : K) × (io.do_read k (b.fd kargs) (b.nbytes kargs) p
            ≡ returns (done n, page, k'))
          × GivesStop arg page n k')

  abbrev pub ReadStop : Sys K → Buffer → ℕ → Type 0
  ReadStop s stack arg =
      (o.copy_from_user s.kern stack arg b.size ≡ panics)
      ⊎ ((r : Ret ℕ) × (kargs : Buffer) × (k : K) × (o.copy_from_user s.kern stack arg b.size
            ≡ returns (r, kargs, k))
          × ((io.page_alloc k ≡ none)
              ⊎ ((p : Buffer) × (io.page_alloc k ≡ some p) × PageStop arg kargs k p)))

  -- The same of sys_write.
  abbrev pub TakesStop : ℕ → Buffer → K → Buffer → Type 0
  TakesStop arg kargs k p =
      (io.direct k arg ≡ panics)
      ⊎ ((user : Buffer) × (io.direct k arg ≡ returns user)
          × ((o.copy_from_user k p (b.buf user) (b.nbytes user) ≡ panics)
              ⊎ ((r : Ret ℕ) × (bytes : Buffer) × (k' : K) × (o.copy_from_user k p (b.buf user)
                      (b.nbytes user)
                    ≡ returns (r, bytes, k'))
                  × (io.do_write k' (b.fd kargs) bytes (b.nbytes kargs) ≡ panics))))

  abbrev pub WriteStop : Sys K → Buffer → ℕ → Type 0
  WriteStop s stack arg =
      (o.copy_from_user s.kern stack arg b.size ≡ panics)
      ⊎ ((r : Ret ℕ) × (kargs : Buffer) × (k : K) × (o.copy_from_user s.kern stack arg b.size
            ≡ returns (r, kargs, k))
          × ((io.page_alloc k ≡ none)
              ⊎ ((p : Buffer) × (io.page_alloc k ≡ some p) × TakesStop arg kargs k p)))

  gives_end :
      (s : Sys K) (n : ℕ) (m : Exec (Ret ℕ × K))
      → 1 ≤ s.blocks
      → Settles (m ≡ panics) 1 s (m >>= λ r. returns (read_copied n s r))
  gives_end s n panics l = inl (refl, refl)
  gives_end s n (returns (r, k)) l =
      inr (answer n, kfree (set_kern s k), refl, omega arith, λ y. cc)

  read_done-Settles :
      (s : Sys K) (arg n : ℕ) (page : Buffer) (k : K)
      → 1 ≤ s.blocks
      → Settles (GivesStop arg page n k) 1 s (read_done s arg (done n, page, k))
  unfolding read_done
  read_done-Settles s arg n page k l = elim (Exec-cases (io.direct k arg)) [
    | inl e ↦ rw e (inl (inl refl, refl))
    | inr (user, e) ↦ rw e (
        shift (o.copy_to_user k (b.buf user) page n ≡ panics) _ 1 1 s s _ (λ x. inr (user, refl, x))
          (λ x q. q) (gives_end s n _ l))
  ]

  read_failed :
      (s : Sys K) (arg : ℕ) (e : Errno) (page : Buffer) (k : K)
      → 1 ≤ s.blocks
      → Ends 1 s (read_done s arg (fails e, page, k))
  unfolding read_done
  read_failed s arg e page k l =
      (minus_one, set_errno (kfree (set_kern s k)) e, refl, omega arith, λ _. refl)

  did_read :
      (s : Sys K) (arg : ℕ) (m : Exec (Ret ℕ × Buffer × K))
      → 1 ≤ s.blocks
      → Settles
          ((m ≡ panics)
            ⊎ ((n : ℕ) × (page : Buffer) × (k' : K) × (m ≡ returns (done n, page, k'))
                × GivesStop arg page n k'))
          1
          s
          (m >>= read_done s arg)
  did_read s arg panics l = inl (inl refl, refl)
  did_read s arg (returns (fails e, page, k)) l = inr (read_failed s arg e page k l)
  did_read s arg (returns (done n, page, k)) l =
      shift (GivesStop arg page n k) _ 1 1 s s _ (λ x. inr (n, page, k, refl, x)) (λ x q. q)
        (read_done-Settles s arg n page k l)

  read_page-Settles :
      (s : Sys K) (arg : ℕ) (kargs : Buffer) (page : Option Buffer)
      → Settles
          ((page ≡ none) ⊎ ((p : Buffer) × (page ≡ some p) × PageStop arg kargs s.kern p))
          0
          s
          (read_page s arg kargs page)
  unfolding read_page
  read_page-Settles s arg kargs none = inl (inl refl, refl)
  read_page-Settles s arg kargs (some p) =
      let t = record s { blocks = s.blocks + 1 } in
      shift (PageStop arg kargs s.kern p) _ 1 0 s t _ (λ x. inr (p, refl, x)) (λ x q. omega arith)
        (did_read t arg (io.do_read s.kern (b.fd kargs) (b.nbytes kargs) p) (omega arith))

  did_copy :
      (s : Sys K) (m : Exec (Ret ℕ × Buffer × K)) (g : Buffer → Sys K → Exec (Answer × Sys K))
      (B : Buffer → K → Type 0)
      → ((kargs : Buffer) (k : K) → Settles (B kargs k) 0 (set_kern s k) (g kargs (set_kern s k)))
      → Settles
          ((m ≡ panics)
            ⊎ ((r : Ret ℕ) × (kargs : Buffer) × (k : K) × (m ≡ returns (r, kargs, k)) × B kargs k))
          0
          s
          (m >>= λ z. g z.1 (set_kern s z.2))
  did_copy s panics g B h = inl (inl refl, refl)
  did_copy s (returns (r, kargs, k)) g B h =
      shift (B kargs k) _ 0 0 s (set_kern s k) _ (λ x. inr (r, kargs, k, refl, x)) (λ x q. q)
        (h kargs k)

  read-Settles :
      (s : Sys K) (stack : Buffer) (arg : ℕ)
      → Settles (ReadStop s stack arg) 0 s (sys_read s stack arg)
  unfolding sys_read
  read-Settles s stack arg =
      did_copy s (o.copy_from_user s.kern stack arg b.size)
        (λ kargs t. read_page t arg kargs (io.page_alloc t.kern)) _
        λ kargs k. read_page-Settles (set_kern s k) arg kargs (io.page_alloc k)

  did_write :
      (s : Sys K) (m : Exec (Ret ℕ × K))
      → 1 ≤ s.blocks
      → Settles (m ≡ panics) 1 s (m >>= λ w. returns (written s w))
  did_write s panics l = inl (refl, refl)
  did_write s (returns (fails e, k)) l = inr (minus_one, _, refl, omega arith, λ _. refl)
  did_write s (returns (done n, k)) l = inr (answer n, _, refl, omega arith, λ y. cc)

  did_take :
      (s : Sys K) (kargs : Buffer) (m : Exec (Ret ℕ × Buffer × K))
      → 1 ≤ s.blocks
      → Settles
          ((m ≡ panics)
            ⊎ ((r : Ret ℕ) × (bytes : Buffer) × (k' : K) × (m ≡ returns (r, bytes, k'))
                × (io.do_write k' (b.fd kargs) bytes (b.nbytes kargs) ≡ panics)))
          1
          s
          (m >>= λ z.
            io.do_write z.2 (b.fd kargs) z.1 (b.nbytes kargs) >>= λ w. returns (written s w))
  did_take s kargs panics l = inl (inl refl, refl)
  did_take s kargs (returns (r, bytes, k)) l =
      shift (io.do_write k (b.fd kargs) bytes (b.nbytes kargs) ≡ panics) _ 1 1 s s _
        (λ x. inr (r, bytes, k, refl, x)) (λ x q. q) (did_write s _ l)

  write_page-Settles :
      (s : Sys K) (arg : ℕ) (kargs : Buffer) (page : Option Buffer)
      → Settles
          ((page ≡ none) ⊎ ((p : Buffer) × (page ≡ some p) × TakesStop arg kargs s.kern p))
          0
          s
          (write_page s arg kargs page)
  unfolding write_page
  write_page-Settles s arg kargs none = inl (inl refl, refl)
  write_page-Settles s arg kargs (some p) =
      let t = record s { blocks = s.blocks + 1 } in
      elim (Exec-cases (io.direct s.kern arg)) [
        | inl e ↦ rw e (inl (inr (p, refl, inl refl), refl))
        | inr (user, e) ↦ rw e (
            shift _ _ 1 0 s t _ (λ x. inr (p, refl, inr (user, refl, x))) (λ x q. omega arith)
              (did_take t kargs (o.copy_from_user s.kern p (b.buf user) (b.nbytes user))
                (omega arith)))
      ]

  write-Settles :
      (s : Sys K) (stack : Buffer) (arg : ℕ)
      → Settles (WriteStop s stack arg) 0 s (sys_write s stack arg)
  unfolding sys_write
  write-Settles s stack arg =
      did_copy s (o.copy_from_user s.kern stack arg b.size)
        (λ kargs t. write_page t arg kargs (io.page_alloc t.kern)) _
        λ kargs k. write_page-Settles (set_kern s k) arg kargs (io.page_alloc k)

  pub io-Settles :
      (s : Sys K) (stack : Buffer) (arg : ℕ)
      → ((ReadStop s stack arg × (sys_read s stack arg ≡ panics))
          ⊎ ((a : Answer) × (t : Sys K) × (sys_read s stack arg ≡ returns (a, t))
              × (t.blocks ≡ s.blocks)
              × (reported a t ≡ true)))
        × ((WriteStop s stack arg × (sys_write s stack arg ≡ panics))
            ⊎ ((a : Answer) × (t : Sys K) × (sys_write s stack arg ≡ returns (a, t))
                × (t.blocks ≡ s.blocks)
                × (reported a t ≡ true)))
  io-Settles s stack arg = (
    settled (ReadStop s stack arg) s (sys_read s stack arg) (read-Settles s stack arg),
    settled (WriteStop s stack arg) s (sys_write s stack arg) (write-Settles s stack arg),
  )
