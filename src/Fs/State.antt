-- ===== src/Fs/State.antt =====
-- What the code of kernel/fs works on: the descriptors and open files of a process, and vnodes. The
-- operations of a vnode belong to its file system or driver, which are not part of the repository:
-- they are a parameter, and so are `fget`, `fput`, `vref` and `vput`.
use weenix.Prelude.{ℕ, ◌-◌, ◌^◌, ◌≤◌, ◌<◌, ◌≡◌, Bool, true, Option, none, List, ◌∷◌, Ret}

-- `vn_mode`, as S_ISDIR, S_ISREG, S_ISCHR and S_ISBLK test it.
pub data Kind : Type 0 where
  dir reg chr blk : Kind

-- The file systems in a state `W`, buffers of the caller included: the mode and the length of a
-- vnode, which of the operations that may be NULL it has, and the operations. A byte count, or the
-- number of a vnode, is `done`.
pub record Vnodes (W : Type 0) : Type 0 where
  pub kind : W → ℕ → Kind
  pub len : W → ℕ → ℕ
  pub has_lookup : W → ℕ → Bool
  pub has_create : W → ℕ → Bool
  pub has_mkdir : W → ℕ → Bool
  pub has_rmdir : W → ℕ → Bool
  pub has_unlink : W → ℕ → Bool
  pub has_link : W → ℕ → Bool
  pub has_mknod : W → ℕ → Bool
  pub has_readdir : W → ℕ → Bool
  pub has_stat : W → ℕ → Bool
  pub read : W → ℕ → ℕ → ℕ → Ret ℕ × W
  pub write : W → ℕ → ℕ → ℕ → Ret ℕ × W
  pub readdir : W → ℕ → ℕ → Ret ℕ × W
  pub lookup : W → ℕ → List ℕ → Ret ℕ × W
  pub create : W → ℕ → List ℕ → Ret ℕ × W
  pub mkdir : W → ℕ → List ℕ → Ret ℕ × W
  pub rmdir : W → ℕ → List ℕ → Ret ℕ × W
  pub unlink : W → ℕ → List ℕ → Ret ℕ × W
  pub link : W → ℕ → ℕ → List ℕ → Ret ℕ × W
  pub mknod : W → ℕ → List ℕ → ℕ → ℕ → Ret ℕ × W
  pub stat : W → ℕ → Ret ℕ × W

-- `file_t`, with the bits of `f_mode`.
pub record File : Type 0 where
  pub vnode : Option ℕ
  pub readable : Bool
  pub writable : Bool
  pub append : Bool
  pub pos : ℕ

-- The references that are taken and given back: `file_get` by a call of `fget` that found the file,
-- `vnode_get` by an operation that gave the vnode, or by `vref`.
pub data Call : Type 0 where
  file_get file_put vnode_get vnode_put : ℕ → Call

-- `p_files`, the open files by number, `p_cwd` (`none` for NULL), `vfs_root_vn`, the file systems,
-- and the calls so far, the last one first.
pub record Process (W : Type 0) : Type 0 where
  pub files : ℕ → Option ℕ
  pub file : ℕ → File
  pub cwd : Option ℕ
  pub root : ℕ
  pub fs : W
  pub calls : List Call

abbrev pub log : {W : Type 0} → Process W → Call → Process W
log s c = record s { calls = c ∷ s.calls }

-- The constants of the headers, and `fget`: what it finds for a number that is read as an `int`.
pub record Limits : Type 0 where
  pub nfiles : ℕ
  pub name_len : ℕ
  pub dirent_size : ℕ
  pub fget : (ℕ → Option ℕ) → ℕ → Option ℕ

-- The `int` -1.
abbrev pub minus_one : ℕ
minus_one = 2 ^ 32 - 1

-- `fget` finds the file of a descriptor, and nothing for any other number but -1.
pub record IsFget (l : Limits) : Type 0 where
  pub inside : (files : ℕ → Option ℕ) (fd : ℕ) → fd < l.nfiles → l.fget files fd ≡ files fd
  pub outside :
      (files : ℕ → Option ℕ) (fd : ℕ) → l.nfiles ≤ fd → fd < minus_one → l.fget files fd ≡ none
  pub small : l.nfiles < 2 ^ 31

-- A vnode that can be searched has the other operations of a directory, also after the search, and
-- every vnode can be asked for its state.
pub record IsTree {W : Type 0} (ops : Vnodes W) : Type 0 where
  pub create :
      (w : W) (d : ℕ) (name : List ℕ)
      → ops.has_lookup w d ≡ true
      → ops.has_create (ops.lookup w d name).1 d ≡ true
  pub mkdir :
      (w : W) (d : ℕ) (name : List ℕ)
      → ops.has_lookup w d ≡ true
      → ops.has_mkdir (ops.lookup w d name).1 d ≡ true
  pub unlink :
      (w : W) (d : ℕ) (name : List ℕ)
      → ops.has_lookup w d ≡ true
      → ops.has_unlink (ops.lookup w d name).1 d ≡ true
  pub rmdir : (w : W) (d : ℕ) → ops.has_lookup w d ≡ true → ops.has_rmdir w d ≡ true
  pub stat : (w : W) (v : ℕ) → ops.has_stat w v ≡ true
