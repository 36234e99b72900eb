-- ===== src/Api/Syscall/Dispatch.antt =====
-- The dispatch of system calls.
use weenix.Prelude.{
  ℕ, ◌≤◌, ◌≡◌, refl, ◌⊎◌, true, Option, none, some, inl, inr, ◌==◌, arith, Bool-cases, Exec,
  returns, panics, ◌>>=◌, Ret, done, fails, Errno, efault, ap,
}
use weenix.Vm.UserMem.{Buffer}
use weenix.Api.Syscall.{
  Structs, Kern, Sys, Answer, answer, minus_one, set_errno, set_kern, kfree, finish, zero_answer,
  sys_munmap, fault_or, waited, sys_waitpid, stat_done, sys_stat, sys_sync, Sysnum, close, dup,
  dup2, mkdir, rmdir, unlink, link, rename, chdir, lseek, open_file, munmap, mmap, brk, waitpid,
  stat, fork, sync, errno, unknown, errno_answer, syscall_dispatch,
}
use weenix.Api.Syscall.Laws.{
  Exec-cases, Ends, Settles, reported, settled, finish-errno, call-Settles, shift, ArgsStop,
  with_args-Settles, with_args_or_fault-Settles,
}
use weenix.Api.Syscall.Paths.{
  PathStop, with_path-Settles, OneStop, TwoStop, path_call-Settles, two_path_call-Settles,
}

module _ {K : Type 0} (o : Kern K) (b : Structs) where
  -- sys_waitpid stops in do_waitpid or in the copy of the status, and sys_stat in do_stat or in the copy
  -- of its result.
  abbrev pub WaitStop : Sys K → Buffer → ℕ → Type 0
  WaitStop s stack arg = ArgsStop o b s stack arg b.size_waitpid λ kargs t.
      (o.do_waitpid t.kern (b.wpa_pid kargs) (b.wpa_options kargs) ≡ panics)
      ⊎ ((r : Ret ℕ) × (status : Buffer) × (k : K) × (o.do_waitpid t.kern (b.wpa_pid kargs)
              (b.wpa_options kargs)
            ≡ returns (r, status, k))
          × (o.copy_to_user k (b.wpa_status kargs) status b.size_int ≡ panics))

  abbrev pub StatStop : Sys K → Buffer → ℕ → Type 0
  StatStop s stack arg = ArgsStop o b s stack arg b.size_stat λ kargs t.
      PathStop o b t (b.stat_path kargs) λ path u.
        (o.do_stat u.kern path ≡ panics)
        ⊎ ((r : Ret ℕ) × (buf : Buffer) × (k : K) × (o.do_stat u.kern path ≡ returns (r, buf, k))
            × (o.copy_to_user k (b.stat_buf kargs) buf b.size_struct_stat ≡ panics))

  -- Where a system call stops: in one of its copies, or in the function of the kernel that it calls, with
  -- the arguments and the paths that were copied.
  abbrev pub Stops : Sys K → Buffer → Sysnum → ℕ → Type 0
  Stops s stack close args = o.do_close s.kern args ≡ panics
  Stops s stack dup args = o.do_dup s.kern args ≡ panics
  Stops s stack dup2 args =
      ArgsStop o b s stack args b.size_dup2
        λ kargs t. o.do_dup2 t.kern (b.dup2_ofd kargs) (b.dup2_nfd kargs) ≡ panics
  Stops s stack mkdir args =
      OneStop o b s stack args b.size_mkdir b.mkdir_path (λ kargs path k. o.do_mkdir k path)
  Stops s stack rmdir args =
      OneStop o b s stack args b.size_argstr b.argstr (λ kargs path k. o.do_rmdir k path)
  Stops s stack unlink args =
      OneStop o b s stack args b.size_argstr b.argstr (λ kargs path k. o.do_unlink k path)
  Stops s stack chdir args =
      OneStop o b s stack args b.size_argstr b.argstr (λ kargs path k. o.do_chdir k path)
  Stops s stack open_file args =
      OneStop o b s stack args b.size_open b.open_filename
        (λ kargs path k. o.do_open k path (b.open_flags kargs))
  Stops s stack link args =
      TwoStop o b s stack args b.size_link b.link_to b.link_from (λ to from k. o.do_link k from to)
  Stops s stack rename args =
      TwoStop o b s stack args b.size_rename b.rename_oldname b.rename_newname
        (λ old new k. o.do_rename k old new)
  Stops s stack lseek args = ArgsStop o b s stack args b.size_lseek λ kargs t.
      o.do_lseek t.kern (b.lseek_fd kargs) (b.lseek_offset kargs) (b.lseek_whence kargs) ≡ panics
  Stops s stack munmap args =
      ArgsStop o b s stack args b.size_munmap
        λ kargs t. o.do_munmap t.kern (b.munmap_addr kargs) (b.munmap_len kargs) ≡ panics
  Stops s stack mmap args =
      ArgsStop o b s stack args b.size_mmap λ kargs t. o.do_mmap t.kern kargs ≡ panics
  Stops s stack brk args = o.do_brk s.kern args ≡ panics
  Stops s stack waitpid args = WaitStop s stack args
  Stops s stack stat args = StatStop s stack args
  Stops s stack fork args = o.do_fork s.kern ≡ panics
  Stops s stack sync args = o.pframe_clean_all s.kern ≡ panics
  Stops s stack errno args = ⊥
  Stops s stack unknown args = ⊥

  zero-Settles :
      (B : Type 0) (s : Sys K) (m : Exec (Answer × Sys K))
      → Settles B 0 s m
      → Settles B 0 s (m >>= λ r. returns (zero_answer o b r))
  zero-Settles B s m (inl (x, e)) = inl (x, ap (λ z. z >>= λ r. returns (zero_answer o b r)) e)
  zero-Settles B s m (inr (answer n, t, e, c, x)) =
      inr (answer 0, t, ap (λ z. z >>= λ r. returns (zero_answer o b r)) e, c, λ y. cc)
  zero-Settles B s m (inr (minus_one, t, e, c, x)) =
      inr (minus_one, t, ap (λ z. z >>= λ r. returns (zero_answer o b r)) e, c, x)

  munmap-Settles :
      (s : Sys K) (stack : Buffer) (arg : ℕ)
      → Settles (Stops s stack munmap arg) 0 s (sys_munmap o b s stack arg)
  unfolding sys_munmap
  munmap-Settles s stack arg =
      with_args_or_fault-Settles o b s stack arg b.size_munmap
        (λ kargs t. o.do_munmap t.kern (b.munmap_addr kargs) (b.munmap_len kargs) ≡ panics) _
        λ kargs t _.
          zero-Settles _ t _
            (call-Settles t (λ k. o.do_munmap k (b.munmap_addr kargs) (b.munmap_len kargs)))

  -- After do_waitpid: `fault_or` of the copy, and `finish` of that of stat.
  status-Settles :
      (s : Sys K) (p : ℕ) (r : Ret ℕ) (k : K) (m : Exec (Ret ℕ × K))
      → m ≡ returns (r, k)
      → Ends 0 s (m >>= λ z. returns (fault_or o b p s z))
  status-Settles s p (fails e) k m h = (
    minus_one,
    set_errno (set_kern s k) efault,
    ap (λ z. z >>= λ y. returns (fault_or o b p s y)) h,
    omega arith,
    λ _. refl,
  )
  status-Settles s p (done n) k m h = (
    answer p,
    set_kern s k,
    ap (λ z. z >>= λ y. returns (fault_or o b p s y)) h,
    omega arith,
    λ y. cc,
  )

  waited-Settles :
      (s : Sys K) (to : ℕ) (r : Ret ℕ) (status : Buffer) (k : K)
      → Settles
          (o.copy_to_user k to status b.size_int ≡ panics)
          0
          s
          (waited o b s to (r, status, k))
  unfolding waited
  waited-Settles s to (fails e) status k =
      inr (minus_one, set_errno (set_kern s k) e, refl, omega arith, λ _. refl)
  waited-Settles s to (done p) status k = elim (Bool-cases (to == 0)) [
    | inl e ↦ rw e (inr (answer p, set_kern s k, refl, omega arith, λ y. cc))
    | inr e ↦ rw e (elim (Exec-cases (o.copy_to_user k to status b.size_int)) [
      | inl h ↦ inl (h, ap (λ m. m >>= λ z. returns (fault_or o b p s z)) h)
      | inr ((r, k'), h) ↦ inr (status-Settles s p r k' (o.copy_to_user k to status b.size_int) h)
    ])
  ]

  reaped-Settles :
      (t : Sys K) (kargs : Buffer) (m : Exec (Ret ℕ × Buffer × K))
      → Settles
          ((m ≡ panics)
            ⊎ ((r : Ret ℕ) × (status : Buffer) × (k : K) × (m ≡ returns (r, status, k))
                × (o.copy_to_user k (b.wpa_status kargs) status b.size_int ≡ panics)))
          0
          t
          (m >>= waited o b t (b.wpa_status kargs))
  reaped-Settles t kargs panics = inl (inl refl, refl)
  reaped-Settles t kargs (returns (r, status, k)) =
      shift (o.copy_to_user k (b.wpa_status kargs) status b.size_int ≡ panics) _ 0 0 t t _
        (λ x. inr (r, status, k, refl, x)) (λ x e. e)
        (waited-Settles t (b.wpa_status kargs) r status k)

  waitpid-Settles :
      (s : Sys K) (stack : Buffer) (arg : ℕ)
      → Settles (WaitStop s stack arg) 0 s (sys_waitpid o b s stack arg)
  unfolding sys_waitpid
  waitpid-Settles s stack arg =
      with_args_or_fault-Settles o b s stack arg b.size_waitpid _ _ λ kargs t _.
        reaped-Settles t kargs (o.do_waitpid t.kern (b.wpa_pid kargs) (b.wpa_options kargs))

  freed-Settles :
      (s : Sys K) (m : Exec (Ret ℕ × K))
      → 1 ≤ s.blocks
      → Settles (m ≡ panics) 1 s (m >>= λ z. returns (finish (kfree (set_kern s z.1)) z.0))
  freed-Settles s panics l = inl (refl, refl)
  freed-Settles s (returns (r, k)) l =
      let u = kfree (set_kern s k) in
      let (c, x) = finish-errno u r in
      inr ((finish u r).0, (finish u r).1, refl, omega (arith, c), x)

  stat_done-Settles :
      (s : Sys K) (to : ℕ) (r : Ret ℕ) (buf : Buffer) (k : K)
      → 1 ≤ s.blocks
      → Settles
          (o.copy_to_user k to buf b.size_struct_stat ≡ panics)
          1
          s
          (stat_done o b s to (r, buf, k))
  unfolding stat_done
  stat_done-Settles s to (fails e) buf k l =
      inr (minus_one, set_errno (kfree (set_kern s k)) e, refl, omega arith, λ _. refl)
  stat_done-Settles s to (done n) buf k l =
      freed-Settles s (o.copy_to_user k to buf b.size_struct_stat) l

  told-Settles :
      (u : Sys K) (kargs : Buffer) (m : Exec (Ret ℕ × Buffer × K))
      → 1 ≤ u.blocks
      → Settles
          ((m ≡ panics)
            ⊎ ((r : Ret ℕ) × (buf : Buffer) × (k : K) × (m ≡ returns (r, buf, k))
                × (o.copy_to_user k (b.stat_buf kargs) buf b.size_struct_stat ≡ panics)))
          1
          u
          (m >>= stat_done o b u (b.stat_buf kargs))
  told-Settles u kargs panics l = inl (inl refl, refl)
  told-Settles u kargs (returns (r, buf, k)) l =
      shift (o.copy_to_user k (b.stat_buf kargs) buf b.size_struct_stat ≡ panics) _ 1 1 u u _
        (λ x. inr (r, buf, k, refl, x)) (λ x e. e)
        (stat_done-Settles u (b.stat_buf kargs) r buf k l)

  stat-Settles :
      (s : Sys K) (stack : Buffer) (arg : ℕ)
      → Settles (StatStop s stack arg) 0 s (sys_stat o b s stack arg)
  unfolding sys_stat
  stat-Settles s stack arg = with_args_or_fault-Settles o b s stack arg b.size_stat _ _ λ kargs t _.
      with_path-Settles o b t (b.stat_path kargs) _ _
        λ path u c. told-Settles u kargs (o.do_stat u.kern path) (omega arith)

  sync_end :
      (s : Sys K) (m : Exec K)
      → Settles (m ≡ panics) 0 s (m >>= λ k. returns (answer 0, set_kern s k))
  sync_end s panics = inl (refl, refl)
  sync_end s (returns k) = inr (answer 0, set_kern s k, refl, omega arith, λ y. cc)

  errno-Settles :
      (number : Errno → ℕ) (s : Sys K) (e : Option Errno)
      → Settles ⊥ 0 s (returns (errno_answer o b e number, s))
  errno-Settles number s none = inr (answer 0, s, refl, omega arith, λ y. cc)
  errno-Settles number s (some e) = inr (answer (number e), s, refl, omega arith, λ y. cc)

  dispatch-Settles :
      (number : Errno → ℕ) (s : Sys K) (stack : Buffer) (n : Sysnum) (args : ℕ)
      → Settles (Stops s stack n args) 0 s (syscall_dispatch o b number s stack n args)
  unfolding syscall_dispatch sys_sync
  dispatch-Settles number s stack close args = call-Settles s _
  dispatch-Settles number s stack dup args = call-Settles s _
  dispatch-Settles number s stack dup2 args =
      with_args-Settles o b s stack args b.size_dup2 _ _ λ kargs t _. call-Settles t _
  dispatch-Settles number s stack mkdir args =
      path_call-Settles o b s stack args b.size_mkdir b.mkdir_path _
  dispatch-Settles number s stack rmdir args =
      path_call-Settles o b s stack args b.size_argstr b.argstr _
  dispatch-Settles number s stack unlink args =
      path_call-Settles o b s stack args b.size_argstr b.argstr _
  dispatch-Settles number s stack chdir args =
      path_call-Settles o b s stack args b.size_argstr b.argstr _
  dispatch-Settles number s stack open_file args =
      path_call-Settles o b s stack args b.size_open b.open_filename _
  dispatch-Settles number s stack link args =
      two_path_call-Settles o b s stack args b.size_link b.link_to b.link_from _
  dispatch-Settles number s stack rename args =
      two_path_call-Settles o b s stack args b.size_rename b.rename_oldname b.rename_newname _
  dispatch-Settles number s stack lseek args =
      with_args-Settles o b s stack args b.size_lseek _ _ λ kargs t _. call-Settles t _
  dispatch-Settles number s stack munmap args = munmap-Settles s stack args
  dispatch-Settles number s stack mmap args =
      with_args_or_fault-Settles o b s stack args b.size_mmap _ _ λ kargs t _. call-Settles t _
  dispatch-Settles number s stack brk args = call-Settles s _
  dispatch-Settles number s stack waitpid args = waitpid-Settles s stack args
  dispatch-Settles number s stack stat args = stat-Settles s stack args
  dispatch-Settles number s stack fork args = call-Settles s _
  dispatch-Settles number s stack sync args = sync_end s (o.pframe_clean_all s.kern)
  dispatch-Settles number s stack errno args = errno-Settles number s s.kt_errno
  dispatch-Settles number s stack unknown args = inr (minus_one, _, refl, omega arith, λ _. refl)

  pub syscall_dispatch-Settles :
      (number : Errno → ℕ) (s : Sys K) (stack : Buffer) (n : Sysnum) (args : ℕ)
      → (Stops s stack n args × (syscall_dispatch o b number s stack n args ≡ panics))
        ⊎ ((a : Answer) × (t : Sys K) × (syscall_dispatch o b number s stack n args
              ≡ returns (a, t))
            × (t.blocks ≡ s.blocks)
            × (reported a t ≡ true))
  syscall_dispatch-Settles number s stack n args =
      settled (Stops s stack n args) s (syscall_dispatch o b number s stack n args)
        (dispatch-Settles number s stack n args)
