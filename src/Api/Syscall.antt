-- ===== src/Api/Syscall.antt =====
-- kernel/api/syscall.c, and user_strdup of kernel/api/access.c: the system calls between user memory and
-- the functions of the kernel that do the work.
pub mod Laws
pub mod Paths
pub mod Dispatch
pub mod Io
pub mod Getdents
use weenix.Prelude.{
  ℕ, ◌+◌, ◌-◌, Bool, true, false, Option, none, some, if◌then◌else◌, ◌==◌, Exec, returns, ◌>>=◌,
  Ret, done, fails, Errno, einval, enomem, efault, enosys,
}
use weenix.Vm.UserMem.{Buffer}

-- `argstr_t`
pub record Argstr : Type 0 where
  pub as_str : ℕ
  pub as_len : ℕ

-- The structs of the headers: their sizes, the strings in them, and the 32-bit word at an offset.
pub record Structs : Type 0 where
  pub size_argstr : ℕ
  pub size_mkdir : ℕ
  pub size_open : ℕ
  pub size_stat : ℕ
  pub size_struct_stat : ℕ
  pub size_link : ℕ
  pub size_rename : ℕ
  pub size_dup2 : ℕ
  pub size_lseek : ℕ
  pub size_munmap : ℕ
  pub size_mmap : ℕ
  pub size_waitpid : ℕ
  pub argstr : Buffer → Argstr
  pub mkdir_path : Buffer → Argstr
  pub open_filename : Buffer → Argstr
  pub open_flags : Buffer → ℕ
  pub stat_path : Buffer → Argstr
  pub stat_buf : Buffer → ℕ
  pub link_to : Buffer → Argstr
  pub link_from : Buffer → Argstr
  pub rename_oldname : Buffer → Argstr
  pub rename_newname : Buffer → Argstr
  pub dup2_ofd : Buffer → ℕ
  pub dup2_nfd : Buffer → ℕ
  pub lseek_fd : Buffer → ℕ
  pub lseek_offset : Buffer → ℕ
  pub lseek_whence : Buffer → ℕ
  pub munmap_addr : Buffer → ℕ
  pub munmap_len : Buffer → ℕ
  pub wpa_pid : Buffer → ℕ
  pub wpa_options : Buffer → ℕ
  pub wpa_status : Buffer → ℕ
  pub size_int : ℕ

-- The calls into the other parts of the kernel, over its state `K`: `copy_from_user` with the buffer
-- that it fills, `kmalloc` with the bytes of the block, and the functions that do the work. A value that is
-- not negative is `done`: of the copies and of do_stat it is 0, of do_mmap and do_brk the address.
pub record Kern (K : Type 0) : Type 0 where
  pub copy_from_user : K → Buffer → ℕ → ℕ → Exec (Ret ℕ × Buffer × K)
  pub copy_to_user : K → ℕ → Buffer → ℕ → Exec (Ret ℕ × K)
  pub kmalloc : K → ℕ → Option Buffer
  pub do_close : K → ℕ → Exec (Ret ℕ × K)
  pub do_dup : K → ℕ → Exec (Ret ℕ × K)
  pub do_dup2 : K → ℕ → ℕ → Exec (Ret ℕ × K)
  pub do_mkdir : K → Buffer → Exec (Ret ℕ × K)
  pub do_rmdir : K → Buffer → Exec (Ret ℕ × K)
  pub do_unlink : K → Buffer → Exec (Ret ℕ × K)
  pub do_link : K → Buffer → Buffer → Exec (Ret ℕ × K)
  pub do_rename : K → Buffer → Buffer → Exec (Ret ℕ × K)
  pub do_chdir : K → Buffer → Exec (Ret ℕ × K)
  pub do_lseek : K → ℕ → ℕ → ℕ → Exec (Ret ℕ × K)
  pub do_open : K → Buffer → ℕ → Exec (Ret ℕ × K)
  pub do_munmap : K → ℕ → ℕ → Exec (Ret ℕ × K)
  pub do_mmap : K → Buffer → Exec (Ret ℕ × K)
  pub do_brk : K → ℕ → Exec (Ret ℕ × K)
  pub do_stat : K → Buffer → Exec (Ret ℕ × Buffer × K)
  pub do_waitpid : K → ℕ → ℕ → Exec (Ret ℕ × Buffer × K)
  pub do_fork : K → Exec (Ret ℕ × K)
  pub pframe_clean_all : K → Exec K

-- The state with `kt_errno` of the current thread (`none` for 0) and the number of blocks that `kmalloc`
-- has given and that were not freed.
pub record Sys (K : Type 0) : Type 0 where
  pub kern : K
  pub kt_errno : Option Errno
  pub blocks : ℕ

-- What a system call returns.
pub data Answer : Type 0 where
  answer : ℕ → Answer
  minus_one : Answer

-- The number of a system call, of those that are in this file.
pub data Sysnum : Type 0 where
  close dup dup2 mkdir rmdir unlink link rename chdir lseek open_file : Sysnum
  munmap mmap brk waitpid stat fork sync errno unknown : Sysnum

module _ {K : Type 0} where
  abbrev pub set_errno : Sys K → Errno → Sys K
  set_errno s e = record s { kt_errno = some e }

  abbrev pub set_kern : Sys K → K → Sys K
  set_kern s k = record s { kern = k }

  abbrev pub kfree : Sys K → Sys K
  kfree s = record s { blocks = s.blocks - 1 }

  -- `if (err < 0) { curthr->kt_errno = -err; return -1; } else return err;`
  pub finish : Sys K → Ret ℕ → Answer × Sys K
  finish s (done n) = (answer n, s)
  finish s (fails e) = (minus_one, set_errno s e)

  -- A call of the kernel whose result the system call returns.
  pub call : Sys K → (K → Exec (Ret ℕ × K)) → Exec (Answer × Sys K)
  call s f = do (r, k) ← f s.kern; returns (finish (set_kern s k) r)

  -- The same, and a block is freed before the result is looked at.
  pub call_and_free : ℕ → Sys K → (K → Exec (Ret ℕ × K)) → Exec (Answer × Sys K)
  call_and_free n s f = do
    (r, k) ← f s.kern
    returns (finish (record (set_kern s k) { blocks = s.blocks - n }) r)

module _ {K : Type 0} (o : Kern K) (b : Structs) where
  -- The arguments are copied to the stack; the error is that of the copy.
  abbrev pub args_copied :
      (Buffer → Sys K → Exec (Answer × Sys K)) → Sys K → Ret ℕ × Buffer × K → Exec (Answer × Sys K)
  args_copied body s (fails e, kargs, k) = returns (minus_one, set_errno (set_kern s k) e)
  args_copied body s (done n, kargs, k) = body kargs (set_kern s k)

  -- `stack` is what stood where the arguments are copied to.
  pub with_args :
      Sys K → Buffer → ℕ → ℕ → (Buffer → Sys K → Exec (Answer × Sys K)) → Exec (Answer × Sys K)
  with_args s stack arg size body = o.copy_from_user s.kern stack arg size >>= args_copied body s

  -- Where the code sets EFAULT itself.
  abbrev pub args_or_fault :
      (Buffer → Sys K → Exec (Answer × Sys K)) → Sys K → Ret ℕ × Buffer × K → Exec (Answer × Sys K)
  args_or_fault body s (fails e, kargs, k) = returns (minus_one, set_errno (set_kern s k) efault)
  args_or_fault body s (done n, kargs, k) = body kargs (set_kern s k)

  pub with_args_or_fault :
      Sys K → Buffer → ℕ → ℕ → (Buffer → Sys K → Exec (Answer × Sys K)) → Exec (Answer × Sys K)
  with_args_or_fault s stack arg size body =
      o.copy_from_user s.kern stack arg size >>= args_or_fault body s

  abbrev pub string_copied : Sys K → Ret ℕ × Buffer × K → Option Buffer × Sys K
  string_copied s (fails e, kstr, k) = (none, set_errno (kfree (set_kern s k)) e)
  string_copied s (done n, kstr, k) = (some kstr, set_kern s k)

  pub strdup_in : Sys K → Argstr → Option Buffer → Exec (Option Buffer × Sys K)
  strdup_in s ustr none = returns (none, set_errno s enomem)
  strdup_in s ustr (some block) = do
    r ← o.copy_from_user s.kern block ustr.as_str (ustr.as_len + 1)
    returns (string_copied (record s { blocks = s.blocks + 1 }) r)

  pub user_strdup : Sys K → Argstr → Exec (Option Buffer × Sys K)
  user_strdup s ustr = strdup_in s ustr (o.kmalloc s.kern (ustr.as_len + 1))

  -- The errno that user_strdup has set is overwritten.
  abbrev pub path_copied :
      (Buffer → Sys K → Exec (Answer × Sys K)) → Option Buffer × Sys K → Exec (Answer × Sys K)
  path_copied body (none, s) = returns (minus_one, set_errno s einval)
  path_copied body (some path, s) = body path s

  pub with_path : Sys K → Argstr → (Buffer → Sys K → Exec (Answer × Sys K)) → Exec (Answer × Sys K)
  with_path s ustr body = user_strdup s ustr >>= path_copied body

  -- The second of two paths: the first is freed if it cannot be had.
  abbrev pub second_copied :
      (Buffer → Sys K → Exec (Answer × Sys K)) → Option Buffer × Sys K → Exec (Answer × Sys K)
  second_copied body (none, s) = returns (minus_one, kfree (set_errno s einval))
  second_copied body (some path, s) = body path s

  pub with_second :
      Sys K → Argstr → (Buffer → Sys K → Exec (Answer × Sys K)) → Exec (Answer × Sys K)
  with_second s ustr body = user_strdup s ustr >>= second_copied body

  -- A call with one path: the struct that holds it, and the call.
  pub path_call :
      Sys K
      → Buffer
      → ℕ
      → ℕ
      → (Buffer → Argstr)
      → (Buffer → Buffer → K → Exec (Ret ℕ × K))
      → Exec (Answer × Sys K)
  path_call s stack arg size get f =
      with_args s stack arg size
        λ kargs t. with_path t (get kargs) λ path u. call_and_free 1 u (f kargs path)

  -- A call with two paths.
  pub two_path_call :
      Sys K
      → Buffer
      → ℕ
      → ℕ
      → (Buffer → Argstr)
      → (Buffer → Argstr)
      → (Buffer → Buffer → K → Exec (Ret ℕ × K))
      → Exec (Answer × Sys K)
  two_path_call s stack arg size first second f = with_args s stack arg size λ kargs t.
      with_path t (first kargs)
        λ one u. with_second u (second kargs) λ two v. call_and_free 2 v (f one two)

  abbrev pub sys_close : Sys K → ℕ → Exec (Answer × Sys K)
  sys_close s fd = call s (λ k. o.do_close k fd)

  abbrev pub sys_dup : Sys K → ℕ → Exec (Answer × Sys K)
  sys_dup s fd = call s (λ k. o.do_dup k fd)

  abbrev pub sys_dup2 : Sys K → Buffer → ℕ → Exec (Answer × Sys K)
  sys_dup2 s stack arg =
      with_args s stack arg b.size_dup2
        λ kargs t. call t (λ k. o.do_dup2 k (b.dup2_ofd kargs) (b.dup2_nfd kargs))

  abbrev pub sys_mkdir : Sys K → Buffer → ℕ → Exec (Answer × Sys K)
  sys_mkdir s stack arg =
      path_call s stack arg b.size_mkdir b.mkdir_path (λ kargs path k. o.do_mkdir k path)

  abbrev pub sys_rmdir : Sys K → Buffer → ℕ → Exec (Answer × Sys K)
  sys_rmdir s stack arg =
      path_call s stack arg b.size_argstr b.argstr (λ kargs path k. o.do_rmdir k path)

  abbrev pub sys_unlink : Sys K → Buffer → ℕ → Exec (Answer × Sys K)
  sys_unlink s stack arg =
      path_call s stack arg b.size_argstr b.argstr (λ kargs path k. o.do_unlink k path)

  abbrev pub sys_link : Sys K → Buffer → ℕ → Exec (Answer × Sys K)
  sys_link s stack arg =
      two_path_call s stack arg b.size_link b.link_to b.link_from (λ to from k. o.do_link k from to)

  abbrev pub sys_rename : Sys K → Buffer → ℕ → Exec (Answer × Sys K)
  sys_rename s stack arg =
      two_path_call s stack arg b.size_rename b.rename_oldname b.rename_newname
        (λ old new k. o.do_rename k old new)

  abbrev pub sys_chdir : Sys K → Buffer → ℕ → Exec (Answer × Sys K)
  sys_chdir s stack arg =
      path_call s stack arg b.size_argstr b.argstr (λ kargs path k. o.do_chdir k path)

  abbrev pub sys_lseek : Sys K → Buffer → ℕ → Exec (Answer × Sys K)
  sys_lseek s stack arg = with_args s stack arg b.size_lseek λ kargs t.
      call t (λ k. o.do_lseek k (b.lseek_fd kargs) (b.lseek_offset kargs) (b.lseek_whence kargs))

  abbrev pub sys_open : Sys K → Buffer → ℕ → Exec (Answer × Sys K)
  sys_open s stack arg =
      path_call s stack arg b.size_open b.open_filename
        (λ kargs path k. o.do_open k path (b.open_flags kargs))

  -- The result is 0, whatever do_munmap gives that is no error.
  abbrev pub zero_answer : Answer × Sys K → Answer × Sys K
  zero_answer (answer n, s) = (answer 0, s)
  zero_answer (minus_one, s) = (minus_one, s)

  pub sys_munmap : Sys K → Buffer → ℕ → Exec (Answer × Sys K)
  sys_munmap s stack arg = with_args_or_fault s stack arg b.size_munmap λ kargs t.
      call t (λ k. o.do_munmap k (b.munmap_addr kargs) (b.munmap_len kargs)) >>= λ r.
      returns (zero_answer r)

  -- MAP_FAILED is -1.
  abbrev pub sys_mmap : Sys K → Buffer → ℕ → Exec (Answer × Sys K)
  sys_mmap s stack arg =
      with_args_or_fault s stack arg b.size_mmap λ kargs t. call t (λ k. o.do_mmap k kargs)

  abbrev pub sys_brk : Sys K → ℕ → Exec (Answer × Sys K)
  sys_brk s addr = call s (λ k. o.do_brk k addr)

  abbrev pub fault_or : ℕ → Sys K → Ret ℕ × K → Answer × Sys K
  fault_or p s (fails e, k) = (minus_one, set_errno (set_kern s k) efault)
  fault_or p s (done n, k) = (answer p, set_kern s k)

  -- The status goes to `wpa_status` unless that is NULL.
  pub waited : Sys K → ℕ → Ret ℕ × Buffer × K → Exec (Answer × Sys K)
  waited s to (fails e, status, k) = returns (minus_one, set_errno (set_kern s k) e)
  waited s to (done p, status, k) =
      if to == 0
      then returns (answer p, set_kern s k)
      else o.copy_to_user k to status b.size_int >>= λ r. returns (fault_or p s r)

  pub sys_waitpid : Sys K → Buffer → ℕ → Exec (Answer × Sys K)
  sys_waitpid s stack arg = with_args_or_fault s stack arg b.size_waitpid λ kargs t.
      o.do_waitpid t.kern (b.wpa_pid kargs) (b.wpa_options kargs) >>= waited t (b.wpa_status kargs)

  -- The bytes of the result go to user memory, and the path is freed in either case.
  pub stat_done : Sys K → ℕ → Ret ℕ × Buffer × K → Exec (Answer × Sys K)
  stat_done s to (fails e, buf, k) = returns (minus_one, set_errno (kfree (set_kern s k)) e)
  stat_done s to (done n, buf, k) = o.copy_to_user k to buf b.size_struct_stat >>= λ r.
      returns (finish (kfree (set_kern s r.1)) r.0)

  pub sys_stat : Sys K → Buffer → ℕ → Exec (Answer × Sys K)
  sys_stat s stack arg = with_args_or_fault s stack arg b.size_stat λ kargs t.
      with_path t (b.stat_path kargs)
        λ path u. o.do_stat u.kern path >>= stat_done u (b.stat_buf kargs)

  abbrev pub sys_fork : Sys K → Exec (Answer × Sys K)
  sys_fork s = call s o.do_fork

  pub sys_sync : Sys K → Exec (Answer × Sys K)
  sys_sync s = do k ← o.pframe_clean_all s.kern; returns (answer 0, set_kern s k)

  -- `kt_errno` as a number: 0 is no error.
  abbrev pub errno_answer : Option Errno → (Errno → ℕ) → Answer
  errno_answer none f = answer 0
  errno_answer (some e) f = answer (f e)

  -- The cases of this file, and the default. `number` gives the errno as an `int`.
  pub syscall_dispatch : (Errno → ℕ) → Sys K → Buffer → Sysnum → ℕ → Exec (Answer × Sys K)
  syscall_dispatch number s stack waitpid args = sys_waitpid s stack args
  syscall_dispatch number s stack fork args = sys_fork s
  syscall_dispatch number s stack sync args = sys_sync s
  syscall_dispatch number s stack mmap args = sys_mmap s stack args
  syscall_dispatch number s stack munmap args = sys_munmap s stack args
  syscall_dispatch number s stack open_file args = sys_open s stack args
  syscall_dispatch number s stack close args = sys_close s args
  syscall_dispatch number s stack dup args = sys_dup s args
  syscall_dispatch number s stack dup2 args = sys_dup2 s stack args
  syscall_dispatch number s stack mkdir args = sys_mkdir s stack args
  syscall_dispatch number s stack rmdir args = sys_rmdir s stack args
  syscall_dispatch number s stack unlink args = sys_unlink s stack args
  syscall_dispatch number s stack link args = sys_link s stack args
  syscall_dispatch number s stack rename args = sys_rename s stack args
  syscall_dispatch number s stack chdir args = sys_chdir s stack args
  syscall_dispatch number s stack brk args = sys_brk s args
  syscall_dispatch number s stack lseek args = sys_lseek s stack args
  syscall_dispatch number s stack stat args = sys_stat s stack args
  syscall_dispatch number s stack errno args = returns (errno_answer s.kt_errno number, s)
  syscall_dispatch number s stack unknown args = returns (minus_one, set_errno s enosys)
