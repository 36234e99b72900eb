-- ===== src/Fs/Tests.antt =====
-- Runs of the calls on files: a file system of a root directory 0, a directory 2 named "d" and a
-- regular file 1 named "a", whose length is the state.
mod Runs
mod Paths
use weenix.Prelude.{
  ℕ, ◌+◌, ◌≤◌, ◌<◌, ◌≡◌, ◌≢◌, refl, Bool, true, false, ◌||◌, not, Option, none, some, List, [], ◌∷◌,
  if◌then◌else◌, ◌==◌, ltb, arith, Bool-cases, inl, inr, Ret, done, fails, Errno, enoent, eisdir,
  eexist, eperm,
}
use weenix.Fs.State.{Kind, dir, reg, Vnodes, File, Process, Limits, minus_one, IsFget}
use weenix.Fs.File.Write.{IsWrite}

abbrev pub kind_of : ℕ → Kind
kind_of v = if v == 1 then reg else dir

abbrev pub find : List ℕ → Ret ℕ
find [] = fails enoent
find (c ∷ cs) = if c == 97 then done 1 else if c == 100 then done 2 else fails enoent

abbrev pub write_to : ℕ → ℕ → ℕ → ℕ → Ret ℕ × ℕ
write_to w v pos n = if v == 1 then (done n, pos + n + w) else (fails eisdir, w)

abbrev pub disk : Vnodes ℕ
disk = record {
  kind = λ w v. kind_of v;
  len = λ w v. w;
  has_lookup = λ w v. not (v == 1);
  has_create = λ w v. not (v == 1);
  has_mkdir = λ w v. not (v == 1);
  has_rmdir = λ w v. not (v == 1);
  has_unlink = λ w v. not (v == 1);
  has_link = λ w v. not (v == 1);
  has_mknod = λ w v. not (v == 1);
  has_readdir = λ w v. not (v == 1);
  has_stat = λ w v. true;
  read = λ w v pos n. (done 0, w);
  write = write_to;
  readdir = λ w v pos. (done 0, w);
  lookup = λ w d name. (find name, w);
  create = λ w d name. (done 1, w);
  mkdir = λ w d name. (done 0, w);
  rmdir = λ w d name. (done 0, w);
  unlink = λ w d name. (done 0, w);
  link = λ w from d name. (done 0, w);
  mknod = λ w d name mode devid. (done 0, w);
  stat = λ w v. (done 0, w);
}

abbrev pub found : (ℕ → Option ℕ) → ℕ → Option ℕ
found files fd = if ltb fd 4 then files fd else if fd == minus_one then some 9 else none

abbrev pub limits : Limits
limits = record { nfiles = 4; name_len = 28; dirent_size = 40; fget = found }

pub limits-IsFget : IsFget limits
limits-IsFget = record {
  inside = λ files fd b. ground arith;
  outside = λ files fd a b. ground arith;
  small = omega arith;
}

pub disk-IsWrite : IsWrite disk
disk-IsWrite = record {
  not_dir = λ w v pos n k e. ground arith;
  long = λ w v pos n k e r. ground arith;
}

abbrev pub open_file : File
open_file = record { vnode = some 1; readable = true; writable = true; append = true; pos = 0 }

-- Descriptor 0 holds file 5, descriptor 2 file 6; both are open on the regular file.
abbrev pub start : Process ℕ
start = record {
  files = λ fd. if fd == 0 then some 5 else if fd == 2 then some 6 else none;
  file = λ f. open_file;
  cwd = some 2;
  root = 0;
  fs = 10;
  calls = [];
}
