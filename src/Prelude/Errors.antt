-- ===== src/Prelude/Errors.antt =====
-- The error numbers that the modelled functions return, by name, and a C result that is a value or
-- a negated error number.
pub data Errno : Type 0 where
  eperm enoent eintr enxio ebadf echild enomem eacces efault eexist enotdir eisdir : Errno
  einval emfile enotempty enametoolong enotsup enosys : Errno
  -- The bare -1 of `vmmap_find_range`.
  no_range : Errno

pub data Ret {ℓ} (A : Type ℓ) : Type ℓ where
  done : A → Ret A
  fails : Errno → Ret A
