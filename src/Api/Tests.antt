-- ===== src/Api/Tests.antt =====
-- Runs of system calls, over a kernel that counts the calls that change it.
use weenix.Prelude.{
  ◌⊎◌, panics, arith, ℕ, ◌+◌, ◌≡◌, refl, true, false, none, some, if◌then◌else◌, ◌==◌, returns, Ret,
  done, fails, ebadf, einval, eexist, efault, enomem,
}
use weenix.Vm.UserMem.{Buffer}
use weenix.Api.Syscall.{Argstr, Structs, Kern, Sys, Answer, link, syscall_dispatch}
use weenix.Api.Syscall.Laws.{reported}
use weenix.Api.Syscall.Dispatch.{Stops, syscall_dispatch-Settles}
use weenix.Api.Syscall.Getdents.{
  DirArgs, DirKern, BlockStop, Listed, sys_getdents, sys_getdents-Listed,
}
use weenix.Api.Syscall.Io.{IoArgs, IoKern, ReadStop, WriteStop, sys_read, sys_write, io-Settles}

abbrev pair_at : ℕ → Buffer → Argstr
pair_at at buf = record { as_str = buf at; as_len = buf (at + 1) }

abbrev structs : Structs
structs = record {
  size_argstr = 2;
  size_mkdir = 2;
  size_open = 3;
  size_stat = 3;
  size_struct_stat = 4;
  size_link = 4;
  size_rename = 4;
  size_dup2 = 2;
  size_lseek = 3;
  size_munmap = 2;
  size_mmap = 6;
  size_waitpid = 3;
  argstr = pair_at 0;
  mkdir_path = pair_at 0;
  open_filename = pair_at 0;
  open_flags = λ buf. buf 2;
  stat_path = pair_at 0;
  stat_buf = λ buf. buf 2;
  link_to = pair_at 0;
  link_from = pair_at 2;
  rename_oldname = pair_at 0;
  rename_newname = pair_at 2;
  dup2_ofd = λ buf. buf 0;
  dup2_nfd = λ buf. buf 1;
  lseek_fd = λ buf. buf 0;
  lseek_offset = λ buf. buf 1;
  lseek_whence = λ buf. buf 2;
  munmap_addr = λ buf. buf 0;
  munmap_len = λ buf. buf 1;
  wpa_pid = λ buf. buf 0;
  wpa_options = λ buf. buf 1;
  wpa_status = λ buf. buf 2;
  size_int = 1;
}

-- User memory: address 9 is not mapped, address 20 holds the arguments of link.
abbrev user : ℕ → ℕ
user a = if a == 20 then 40 else if a == 21 then 3 else if a == 22 then 9 else 5

abbrev copied : ℕ → Buffer → ℕ → Ret ℕ × Buffer × ℕ
copied k buf a = if a == 9 then (fails efault, buf, k) else (done 0, (λ i. user (a + i)), k)

abbrev stored : ℕ → ℕ → Ret ℕ × ℕ
stored k a = if a == 9 then (fails efault, k) else (done 0, k + 1)

abbrev kernel : Kern ℕ
kernel = record {
  copy_from_user = λ k buf a n. returns (copied k buf a);
  copy_to_user = λ k a buf n. returns (stored k a);
  kmalloc = λ k n. some (λ i. 0);
  do_close = λ k fd. returns (done 0, k + 1);
  do_dup = λ k fd. returns (done 3, k + 1);
  do_dup2 = λ k ofd nfd. returns (done nfd, k + 1);
  do_mkdir = λ k p. returns (fails eexist, k);
  do_rmdir = λ k p. returns (done 0, k + 1);
  do_unlink = λ k p. returns (done 0, k + 1);
  do_link = λ k p q. returns (done 0, k + 1);
  do_rename = λ k p q. returns (done 0, k + 1);
  do_chdir = λ k p. returns (done 0, k + 1);
  do_lseek = λ k fd at w. returns (done at, k + 1);
  do_open = λ k p f. returns (done 3, k + 1);
  do_munmap = λ k a n. returns (fails einval, k);
  do_mmap = λ k args. returns (fails enomem, k);
  do_brk = λ k a. returns (done a, k + 1);
  do_stat = λ k p. returns (done 0, (λ i. 1), k);
  do_waitpid = λ k p f. returns (done p, (λ i. 0), k + 1);
  do_fork = λ k. returns (done 7, k + 1);
  pframe_clean_all = λ k. returns (k + 1);
}

abbrev before : Sys ℕ
before = record { kern = 0; kt_errno = none; blocks = 2 }

syscall_dispatch_example :
    (Stops kernel structs before (λ i. 0) link 20
      × (syscall_dispatch kernel structs (λ e. 1) before (λ i. 0) link 20 ≡ panics))
    ⊎ ((a : Answer) × (t : Sys ℕ) × (syscall_dispatch kernel structs
            (λ e. 1)
            before
            (λ i. 0)
            link
            20
          ≡ returns (a, t))
        × (t.blocks ≡ 2)
        × (reported a t ≡ true))
syscall_dispatch_example = syscall_dispatch-Settles kernel structs (λ e. 1) before (λ i. 0) link 20

abbrev io_args : IoArgs
io_args = record { size = 3; fd = λ buf. buf 0; buf = λ buf. buf 1; nbytes = λ buf. buf 2 }

-- Descriptor 5 is open for reading only.
abbrev devices : IoKern ℕ
devices = record {
  page_alloc = λ k. some (λ i. 0);
  do_read = λ k fd n p. returns (done n, (λ i. 7), k + 1);
  do_write = λ k fd p n. returns (if fd == 5 then fails ebadf else done n, k);
  direct = λ k arg. returns (λ i. user (arg + i));
  cancelled = λ k. false;
  kthread_exit = λ k. returns k;
}

io-Settles_example :
    ((ReadStop kernel devices io_args before (λ i. 0) 30
        × (sys_read kernel devices io_args before (λ i. 0) 30 ≡ panics))
      ⊎ ((a : Answer) × (t : Sys ℕ) × (sys_read kernel devices io_args before (λ i. 0) 30
            ≡ returns (a, t))
          × (t.blocks ≡ 2)
          × (reported a t ≡ true)))
    × ((WriteStop kernel devices io_args before (λ i. 0) 30
          × (sys_write kernel devices io_args before (λ i. 0) 30 ≡ panics))
        ⊎ ((a : Answer) × (t : Sys ℕ) × (sys_write kernel devices io_args before (λ i. 0) 30
              ≡ returns (a, t))
            × (t.blocks ≡ 2)
            × (reported a t ≡ true)))
io-Settles_example = io-Settles kernel devices io_args before (λ i. 0) 30

abbrev dir_args : DirArgs
dir_args = record {
  size = 3;
  fd = λ buf. buf 0;
  dirp = λ buf. buf 1;
  count = λ buf. buf 2;
  size_dirent = 2;
}

-- A directory with two entries left.
abbrev directory : DirKern ℕ
directory = record {
  do_getdent = λ k fd dir. returns (done (if k == 4 then 0 else 2), (λ i. k), k + 1);
  page_free_null = λ k. returns k;
}

sys_getdents-Listed_example :
    (BlockStop kernel directory dir_args (λ i. user (30 + i)) 0 (some (λ i. 0))
      × (sys_getdents kernel directory dir_args before (λ i. 0) 30 ≡ panics))
    ⊎ ((a : Answer) × (t : Sys ℕ) × (sys_getdents kernel directory dir_args before (λ i. 0) 30
          ≡ returns (a, t))
        × (t.blocks ≡ 2)
        × (reported a t ≡ true)
        × Listed kernel directory dir_args (λ i. user (30 + i)) a)
sys_getdents-Listed_example =
    sys_getdents-Listed kernel directory dir_args before (λ i. 0) (λ i. user (30 + i)) 30 (done 0) 0
      refl (omega arith) (omega arith)
