-- ===== src/Fs/File.antt =====
-- The calls on descriptors: kernel/fs/vfs_syscall.c without those on path names, and `get_empty_fd`
-- of kernel/fs/open.c. A descriptor or an offset is the bit pattern of an `int`.
pub mod Refs
pub mod Descriptors
pub mod Write
pub mod Session
use weenix.Prelude.{
  ℕ, zero, suc, ◌+◌, ◌-◌, ◌^◌, Bool, true, false, ◌&&◌, ◌||◌, not, Option, none, some, List, [],
  ◌∷◌, if◌then◌else◌, ◌==◌, ltb, leb, add32, Exec, returns, panics, ◌>>=◌, ◌>>◌, kassert, deref,
  Ret, done, fails, Errno, ebadf, eisdir, enotdir, einval, emfile,
}
use weenix.Fs.State.{
  Kind, dir, reg, chr, blk, Vnodes, File, Call, file_get, file_put, Process, log, Limits,
}

abbrev pub is_negative : ℕ → Bool
is_negative n = leb (2 ^ 31) n

abbrev pub is_dir : Kind → Bool
is_dir dir = true
is_dir _ = false

abbrev pub kind_ok : Kind → ℕ → ℕ → Bool
kind_ok dir pos len = false
kind_ok reg pos len = is_negative pos || leb pos len
kind_ok chr pos len = true
kind_ok blk pos len = true

-- SEEK_SET, SEEK_CUR, SEEK_END, and any other number.
pub data Whence : Type 0 where
  seek_set seek_cur seek_end seek_other : Whence

abbrev pub first_free : Option ℕ → ℕ → Option ℕ → Option ℕ
first_free none fd rest = some fd
first_free (some f) fd rest = rest

-- The loop over the `n` descriptors from `fd` on.
unfoldable pub empty_from : (ℕ → Option ℕ) → ℕ → ℕ → Option ℕ
empty_from files fd zero = none
empty_from files fd (suc n) = first_free (files fd) fd (empty_from files (fd + 1) n)

-- `none` is -EMFILE.
unfoldable pub get_empty_fd : Limits → (ℕ → Option ℕ) → Option ℕ
get_empty_fd l files = empty_from files 0 l.nfiles

module _ {W : Type 0} where
  abbrev pub set_fd : Process W → ℕ → Option ℕ → Process W
  set_fd s fd f = record s { files = λ i. if fd == i then f else s.files i }

  abbrev pub set_file : Process W → ℕ → File → Process W
  set_file s f x = record s { file = λ i. if f == i then x else s.file i }

  -- `f_pos`
  abbrev pub set_pos : Process W → ℕ → ℕ → Process W
  set_pos s f pos = set_file s f (record (s.file f) { pos = pos })

  abbrev pub get : Process W → ℕ → Process W
  get s f = log s (file_get f)

  abbrev pub put : Process W → ℕ → Process W
  put s f = log s (file_put f)

  -- The number of bytes is added to `f_pos`, after an operation that did not fail.
  abbrev pub advance : Process W → ℕ → Ret ℕ → Process W
  advance s f (done n) = set_pos s f (add32 (s.file f).pos n)
  advance s f (fails e) = s

  module _ (ops : Vnodes W) (l : Limits) where
    abbrev pub is_dir_file : W → Option ℕ → Bool
    is_dir_file w none = false
    is_dir_file w (some v) = is_dir (ops.kind w v)

    pub read_vnode : Process W → ℕ → ℕ → ℕ → Ret ℕ × W → Ret ℕ × Process W
    read_vnode s f v n (r, w) = (r, put (advance (record s { fs = w }) f r) f)

    pub read_file : Process W → ℕ → ℕ → Exec (Ret ℕ × Process W)
    read_file s f n =
        if is_dir_file s.fs (s.file f).vnode
        then returns (fails eisdir, put s f)
        else if not (s.file f).readable
        then returns (fails ebadf, put s f)
        else (do
          v ← deref (s.file f).vnode
          returns (read_vnode s f v n (ops.read s.fs v (s.file f).pos n)))

    pub read_found : Process W → ℕ → Option ℕ → Exec (Ret ℕ × Process W)
    read_found s n none = returns (fails ebadf, s)
    read_found s n (some f) = read_file (get s f) f n

    pub do_read : Process W → ℕ → ℕ → Exec (Ret ℕ × Process W)
    do_read s fd n = read_found s n (l.fget s.files fd)

    -- `new_pos`, or nothing for a number that is no whence.
    pub seek_pos : Process W → ℕ → ℕ → Whence → Exec (Option ℕ)
    seek_pos s f offset seek_set = returns (some offset)
    seek_pos s f offset seek_cur = returns (some (add32 (s.file f).pos offset))
    seek_pos s f offset seek_end = do
      v ← deref (s.file f).vnode
      returns (some (add32 (ops.len s.fs v) offset))
    seek_pos s f offset seek_other = returns none

    pub seek_to : Process W → ℕ → Option ℕ → Ret ℕ × Process W
    seek_to s f none = (fails einval, put s f)
    seek_to s f (some p) =
        if is_negative p then (fails einval, put s f) else (done p, put (set_pos s f p) f)

    pub seek_found : Process W → ℕ → Whence → Option ℕ → Exec (Ret ℕ × Process W)
    seek_found s offset whence none = returns (fails ebadf, s)
    seek_found s offset whence (some f) = do
      p ← seek_pos (get s f) f offset whence
      returns (seek_to (get s f) f p)

    pub do_lseek : Process W → ℕ → ℕ → Whence → Exec (Ret ℕ × Process W)
    do_lseek s fd offset whence =
        if is_negative fd || leb l.nfiles fd
        then returns (fails ebadf, s)
        else seek_found s offset whence (l.fget s.files fd)

    -- The KASSERT after a write that did not fail.
    abbrev pub write_ok : Process W → ℕ → ℕ → Ret ℕ → Bool
    write_ok s f v (fails e) = true
    write_ok s f v (done n) = kind_ok (ops.kind s.fs v) (s.file f).pos (ops.len s.fs v)

    pub write_vnode : Process W → ℕ → ℕ → Ret ℕ × W → Exec (Ret ℕ × Process W)
    write_vnode s f v (r, w) = do
      let s' = advance (record s { fs = w }) f r
      kassert (write_ok s' f v r)
      returns (r, put s' f)

    pub write_file : Process W → ℕ → ℕ → ℕ → Exec (Ret ℕ × Process W)
    write_file s fd f n = if not (s.file f).writable then returns (fails ebadf, put s f) else (do
      (r, s') ← (if (s.file f).append then do_lseek s fd 0 seek_end else returns (done 0, s))
      v ← deref (s'.file f).vnode
      write_vnode s' f v (ops.write s'.fs v (s'.file f).pos n))

    pub write_found : Process W → ℕ → ℕ → Option ℕ → Exec (Ret ℕ × Process W)
    write_found s fd n none = returns (fails ebadf, s)
    write_found s fd n (some f) = write_file (get s f) fd f n

    pub do_write : Process W → ℕ → ℕ → Exec (Ret ℕ × Process W)
    do_write s fd n = write_found s fd n (l.fget s.files fd)

    unfoldable pub close_file : Process W → ℕ → Option ℕ → Ret ℕ × Process W
    close_file s fd none = (fails ebadf, s)
    close_file s fd (some f) = (done 0, set_fd (put s f) fd none)

    unfoldable pub do_close : Process W → ℕ → Ret ℕ × Process W
    do_close s fd =
        if is_negative fd || leb l.nfiles fd then (fails ebadf, s) else close_file s fd (s.files fd)

    -- With no free descriptor the code writes to `p_files[-EMFILE]`.
    unfoldable pub dup_file : Process W → ℕ → Option ℕ → Exec (Ret ℕ × Process W)
    dup_file s f none = panics
    dup_file s f (some fd) = returns (done fd, set_fd s fd (some f))

    unfoldable pub dup_found : Process W → Option ℕ → Exec (Ret ℕ × Process W)
    dup_found s none = returns (fails ebadf, s)
    dup_found s (some f) = dup_file (get s f) f (get_empty_fd l s.files)

    unfoldable pub do_dup : Process W → ℕ → Exec (Ret ℕ × Process W)
    do_dup s fd =
        if is_negative fd || leb l.nfiles fd
        then returns (fails ebadf, s)
        else dup_found s (l.fget s.files fd)

    pub dup2_found : Process W → ℕ → ℕ → Option ℕ → Ret ℕ × Process W
    dup2_found s ofd nfd none = (fails ebadf, s)
    dup2_found s ofd nfd (some f) =
        let s' = set_fd (get s f) nfd (some f) in (done nfd, (if nfd == ofd then put s' f else s'))

    pub do_dup2 : Process W → ℕ → ℕ → Ret ℕ × Process W
    do_dup2 s ofd nfd =
        if is_negative ofd || leb l.nfiles ofd
        then (fails ebadf, s)
        else if is_negative nfd || leb l.nfiles nfd
        then (fails ebadf, s)
        else dup2_found s ofd nfd (l.fget s.files ofd)

    abbrev pub is_zero : Ret ℕ → Bool
    is_zero (done n) = n == 0
    is_zero (fails e) = false

    -- Also an error of the operation ends in the size of a `dirent_t`.
    pub getdent_vnode : Process W → ℕ → Ret ℕ × W → Ret ℕ × Process W
    getdent_vnode s f (r, w) =
        let s' = record s { fs = w } in
        if is_zero r then (done 0, put s' f) else (done l.dirent_size, put (advance s' f r) f)

    pub getdent_file : Process W → ℕ → Exec (Ret ℕ × Process W)
    getdent_file s f = do
      v ← deref (s.file f).vnode
      if ops.has_readdir s.fs v
          then returns (getdent_vnode s f (ops.readdir s.fs v (s.file f).pos))
          else returns (fails enotdir, put s f)

    pub getdent_found : Process W → Option ℕ → Exec (Ret ℕ × Process W)
    getdent_found s none = panics
    getdent_found s (some f) = getdent_file (get s f) f

    pub do_getdent : Process W → ℕ → Exec (Ret ℕ × Process W)
    do_getdent s fd =
        if is_negative fd || leb l.nfiles fd then returns (fails ebadf, s) else elim (s.files fd) [
          | none ↦ returns (fails ebadf, s)
          | some f ↦ getdent_found s (l.fget s.files fd)
        ]
