-- ===== src/Fs/Path.antt =====
-- The calls on path names: kernel/fs/vfs_syscall.c, and `do_open` of kernel/fs/open.c.
pub mod Refs
pub mod Total
pub mod Chdir
pub mod Open
use weenix.Prelude.{
  ℕ, zero, suc, ◌+◌, Bool, true, false, ◌&&◌, ◌||◌, not, Option, none, some, List, [], ◌∷◌, length,
  if◌then◌else◌, ◌==◌, Exec, returns, panics, ◌>>=◌, ◌>>◌, kassert, deref, Ret, done, fails, Errno,
  eperm, eexist, einval, enotempty, enotdir, eisdir,
}
use weenix.Fs.State.{Kind, dir, Vnodes, File, Process, Limits, minus_one}
use weenix.Fs.File.{is_dir, get_empty_fd, set_fd, set_file, get, put}
use weenix.Fs.Namev.{vref, vput, given, lookup, dir_namev, open_namev}

-- The bits of `oflags`; O_RDONLY is 0, and `rest` stands for every other bit.
pub record OpenFlags : Type 0 where
  pub wronly : Bool
  pub rdwr : Bool
  pub append : Bool
  pub creat : Bool
  pub rest : Bool

abbrev pub is_rdonly : OpenFlags → Bool
is_rdonly o = not (o.wronly || o.rdwr || o.append || o.creat || o.rest)

-- `strcmp` with "." and "..".
abbrev pub is_dot : List ℕ → Bool
is_dot [] = false
is_dot (c ∷ []) = c == 46
is_dot (c ∷ d ∷ cs) = false

abbrev pub is_dotdot : List ℕ → Bool
is_dotdot [] = false
is_dotdot (c ∷ []) = false
is_dotdot (c ∷ d ∷ []) = c == 46 && d == 46
is_dotdot (c ∷ d ∷ e ∷ cs) = false

module _ {W : Type 0} where
  -- The result of an operation that gives no vnode.
  abbrev pub ran : Process W → Ret ℕ × W → Ret ℕ × Process W
  ran s (r, w) = (r, record s { fs = w })

  abbrev pub then_put : Ret ℕ × Process W → ℕ → Ret ℕ × Process W
  then_put (r, s) v = (r, vput s v)

  module _ (ops : Vnodes W) (l : Limits) where
    abbrev pub Named : Type 0
    Named = Ret (ℕ × Option (List ℕ)) × Process W

    -- The results of `dir_namev` and of `lookup` are not tested. `mode` is `none` for one that is
    -- neither a character nor a block device.
    pub mknod_looked : ℕ → List ℕ → ℕ → ℕ → Ret ℕ × Process W → Exec (Ret ℕ × Process W)
    mknod_looked d name mode devid (r, s) = do
      kassert (ops.has_mknod s.fs d)
      returns (then_put (ran s (ops.mknod s.fs d name mode devid)) d)

    pub mknod_in : ℕ → ℕ → Named → Exec (Ret ℕ × Process W)
    mknod_in mode devid (fails e, s) = panics
    mknod_in mode devid (done (d, name), s) = do
      n ← deref name
      r ← lookup ops l s d (some n)
      mknod_looked d n mode devid r

    pub do_mknod : Process W → List ℕ → Option ℕ → ℕ → Exec (Ret ℕ × Process W)
    do_mknod s path mode devid = do
      m ← deref mode
      r ← dir_namev ops l s path none
      mknod_in m devid r

    pub mkdir_looked : ℕ → List ℕ → Ret ℕ × Process W → Exec (Ret ℕ × Process W)
    mkdir_looked d name (done v, s) = returns (fails eexist, vput (vput s d) v)
    mkdir_looked d name (fails e, s) = do
      kassert (ops.has_mkdir s.fs d)
      returns (then_put (ran s (ops.mkdir s.fs d name)) d)

    pub mkdir_in : Named → Exec (Ret ℕ × Process W)
    mkdir_in (fails e, s) = returns (fails e, s)
    mkdir_in (done (d, none), s) = if d == s.root then returns (fails eexist, vput s d) else panics
    mkdir_in (done (d, some name), s) = lookup ops l s d (some name) >>= λ r. mkdir_looked d name r

    pub do_mkdir : Process W → List ℕ → Exec (Ret ℕ × Process W)
    do_mkdir s path = dir_namev ops l s path none >>= λ r. mkdir_in r

    -- `strcmp` reads through the name also where it is NULL.
    pub rmdir_in : Named → Exec (Ret ℕ × Process W)
    rmdir_in (fails e, s) = returns (fails e, s)
    rmdir_in (done (d, none), s) = panics
    rmdir_in (done (d, some name), s) =
        if is_dot name
        then returns (fails einval, vput s d)
        else if is_dotdot name
        then returns (fails enotempty, vput s d)
        else (do
          kassert (ops.has_rmdir s.fs d)
          returns (then_put (ran s (ops.rmdir s.fs d name)) d))

    pub do_rmdir : Process W → List ℕ → Exec (Ret ℕ × Process W)
    do_rmdir s path = dir_namev ops l s path none >>= λ r. rmdir_in r

    pub unlink_looked : ℕ → List ℕ → Ret ℕ × Process W → Exec (Ret ℕ × Process W)
    unlink_looked d name (fails e, s) = returns (fails e, vput s d)
    unlink_looked d name (done v, s) =
        if is_dir (ops.kind s.fs v) then returns (fails eperm, vput (vput s d) v) else (do
          kassert (ops.has_unlink s.fs d)
          returns (then_put (then_put (ran s (ops.unlink s.fs d name)) d) v))

    pub unlink_in : Named → Exec (Ret ℕ × Process W)
    unlink_in (fails e, s) = returns (fails e, s)
    unlink_in (done (d, name), s) = do
      n ← deref name
      r ← lookup ops l s d (some n)
      unlink_looked d n r

    pub do_unlink : Process W → List ℕ → Exec (Ret ℕ × Process W)
    do_unlink s path = dir_namev ops l s path none >>= λ r. unlink_in r

    -- The result of `lookup` is not tested, and the vnode that it gives is not put.
    pub link_looked : ℕ → ℕ → List ℕ → Ret ℕ × Process W → Exec (Ret ℕ × Process W)
    link_looked from d name (r, s) = do
      kassert (ops.has_link s.fs d)
      returns (then_put (then_put (ran s (ops.link s.fs from d name)) from) d)

    pub link_in : ℕ → Named → Exec (Ret ℕ × Process W)
    link_in from (fails e, s) = returns (fails e, vput s from)
    link_in from (done (d, name), s) = do
      n ← deref name
      r ← lookup ops l s d (some n)
      link_looked from d n r

    pub link_from : List ℕ → Ret ℕ × Process W → Exec (Ret ℕ × Process W)
    link_from to (fails e, s) = returns (fails e, s)
    link_from to (done from, s) = dir_namev ops l s to none >>= λ r. link_in from r

    pub do_link : Process W → List ℕ → List ℕ → Exec (Ret ℕ × Process W)
    do_link s from to = open_namev ops l s from false none >>= λ r. link_from to r

    -- A count that is not 0 is returned as it is, like an error.
    pub rename_linked : List ℕ → Ret ℕ × Process W → Exec (Ret ℕ × Process W)
    rename_linked oldname (fails e, s) = returns (fails e, s)
    rename_linked oldname (done n, s) = if n == 0 then do_unlink s oldname else returns (done n, s)

    pub do_rename : Process W → List ℕ → List ℕ → Exec (Ret ℕ × Process W)
    do_rename s oldname newname = do_link s oldname newname >>= λ r. rename_linked oldname r

    pub chdir_to : Ret ℕ × Process W → Exec (Ret ℕ × Process W)
    chdir_to (fails e, s) = returns (fails e, s)
    chdir_to (done v, s) =
        if is_dir (ops.kind s.fs v)
        then (do old ← deref s.cwd; returns (done 0, record (vput s old) { cwd = some v }))
        else returns (fails enotdir, vput s v)

    pub do_chdir : Process W → List ℕ → Exec (Ret ℕ × Process W)
    do_chdir s path = open_namev ops l s path false none >>= λ r. chdir_to r

    pub stat_of : Ret ℕ × Process W → Exec (Ret ℕ × Process W)
    stat_of (fails e, s) = returns (fails e, s)
    stat_of (done v, s) = do
      kassert (ops.has_stat s.fs v)
      returns (then_put (ran s (ops.stat s.fs v)) v)

    pub do_stat : Process W → List ℕ → Exec (Ret ℕ × Process W)
    do_stat s path =
        if length path == 0
        then returns (fails einval, s)
        else open_namev ops l s path false none >>= λ r. stat_of r

    -- `f_mode` of a new file; `fget(-1)` gives it with the other fields cleared.
    abbrev pub fresh_file : OpenFlags → File
    fresh_file o = record {
      vnode = none;
      readable = is_rdonly o || o.rdwr;
      writable = o.wronly || o.rdwr;
      append = o.append;
      pos = 0;
    }

    pub open_vnode : ℕ → ℕ → OpenFlags → Ret ℕ × Process W → Exec (Ret ℕ × Process W)
    open_vnode fd f o (fails e, s) = returns (fails e, set_fd (put s f) fd none)
    open_vnode fd f o (done v, s) =
        if is_dir (ops.kind s.fs v) && (o.wronly || o.rdwr)
        then returns (fails eisdir, set_fd (put (vput s v) f) fd none)
        else returns (done fd, set_file s f (record (s.file f) { vnode = some v; pos = 0 }))

    -- With no free descriptor the code writes to `p_files[-EMFILE]`; a NULL file is written to.
    pub do_open : Process W → List ℕ → OpenFlags → Exec (Ret ℕ × Process W)
    do_open s filename o = if o.wronly && o.rdwr then returns (fails einval, s) else (do
      fd ← deref (get_empty_fd l s.files)
      f ← deref (l.fget s.files minus_one)
      let s' = set_fd (set_file (get s f) f (fresh_file o)) fd (some f)
      r ← open_namev ops l s' filename o.creat none
      open_vnode fd f o r)
