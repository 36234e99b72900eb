-- ===== src/Fs/Path/Total.antt =====
-- mkdir, rmdir, unlink and stat on paths that lead through directories.
use weenix.Prelude.{
  ℕ, ◌≡◌, refl, true, false, Option, none, some, List, ◌∷◌, length, ◌==◌, Bool-cases, inl, inr,
  Exec, returns, Ret, done, fails, ◌∙◌, ap,
}
use weenix.Fs.State.{Vnodes, Process, Limits, IsTree}
use weenix.Fs.File.{is_dir}
use weenix.Fs.Namev.{given, lookup}
use weenix.Fs.Namev.Refs.{Ends}
use weenix.Fs.Namev.Total.{IsPath, Ready, dir_namev-Ready_name, open_namev-returns, ends_at}
use weenix.Fs.Path.{
  is_dot, is_dotdot, mkdir_looked, mkdir_in, do_mkdir, rmdir_in, do_rmdir, unlink_looked, unlink_in,
  do_unlink, stat_of, do_stat,
}
use weenix.Fs.Path.Refs.{Even, do_mkdir-Even, do_rmdir-Even, do_unlink-Even, do_stat-Even}

pub data PathCall : Type 0 where
  mkdir rmdir unlink stat : PathCall

module _ {W : Type 0} (ops : Vnodes W) (l : Limits) where
  pub run_path : Process W → List ℕ → PathCall → Exec (Ret ℕ × Process W)
  run_path s path mkdir = do_mkdir ops l s path
  run_path s path rmdir = do_rmdir ops l s path
  run_path s path unlink = do_unlink ops l s path
  run_path s path stat = do_stat ops l s path

  mkdir_looked-returns :
      (d : ℕ) (name : List ℕ) (r : Ret ℕ) (s : Process W)
      → ops.has_mkdir s.fs d ≡ true
      → (y : Ret ℕ × Process W) × (mkdir_looked ops l d name (r, s) ≡ returns y)
  unfolding mkdir_looked
  mkdir_looked-returns d name (done v) s h = (_, refl)
  mkdir_looked-returns d name (fails e) s h = rw h (_, refl)

  given-fs : (s : Process W) (r : Ret ℕ) (w : W) → (given s (r, w)).fs ≡ w
  given-fs s (done v) w = refl
  given-fs s (fails e) w = refl

  mkdir_in-returns :
      (c : ℕ) (cs : List ℕ) (x : Ret (ℕ × Option (List ℕ)) × Process W)
      → IsTree ops
      → Ready ops l (c ∷ cs) x
      → (y : Ret ℕ × Process W) × (mkdir_in ops l x ≡ returns y)
  unfolding mkdir_in lookup
  mkdir_in-returns c cs (fails e, s) laws h = (_, refl)
  mkdir_in-returns c cs (done (d, none), s) laws (p, q) = cc
  mkdir_in-returns c cs (done (d, some name), s) laws (p, q) =
      let (r, w) = ops.lookup s.fs d name in
      rw q (
        mkdir_looked-returns d name r (given s (r, w))
          (ap (λ z. ops.has_mkdir z d) (given-fs s r w) ∙ laws.mkdir s.fs d name q))

  rmdir_in-returns :
      (c : ℕ) (cs : List ℕ) (x : Ret (ℕ × Option (List ℕ)) × Process W)
      → IsTree ops
      → Ready ops l (c ∷ cs) x
      → (y : Ret ℕ × Process W) × (rmdir_in ops l x ≡ returns y)
  unfolding rmdir_in
  rmdir_in-returns c cs (fails e, s) laws h = (_, refl)
  rmdir_in-returns c cs (done (d, none), s) laws (p, q) = cc
  rmdir_in-returns c cs (done (d, some name), s) laws (p, q) = elim (Bool-cases (is_dot name)) [
    | inl e ↦ rw e (_, refl)
    | inr e ↦ elim (Bool-cases (is_dotdot name)) [
      | inl t ↦ rw (e, t) (_, refl)
      | inr t ↦ rw (e, t, laws.rmdir s.fs d q) (_, refl)
    ]
  ]

  unlink_looked-returns :
      (d : ℕ) (name : List ℕ) (r : Ret ℕ) (s : Process W)
      → ops.has_unlink s.fs d ≡ true
      → (y : Ret ℕ × Process W) × (unlink_looked ops l d name (r, s) ≡ returns y)
  unfolding unlink_looked
  unlink_looked-returns d name (fails e) s h = (_, refl)
  unlink_looked-returns d name (done v) s h = elim (Bool-cases (is_dir (ops.kind s.fs v))) [
    | inl e ↦ rw e (_, refl)
    | inr e ↦ rw (e, h) (_, refl)
  ]

  unlink_in-returns :
      (c : ℕ) (cs : List ℕ) (x : Ret (ℕ × Option (List ℕ)) × Process W)
      → IsTree ops
      → Ready ops l (c ∷ cs) x
      → (y : Ret ℕ × Process W) × (unlink_in ops l x ≡ returns y)
  unfolding unlink_in lookup
  unlink_in-returns c cs (fails e, s) laws h = (_, refl)
  unlink_in-returns c cs (done (d, none), s) laws (p, q) = cc
  unlink_in-returns c cs (done (d, some name), s) laws (p, q) =
      let (r, w) = ops.lookup s.fs d name in
      rw q (
        unlink_looked-returns d name r (given s (r, w))
          (ap (λ z. ops.has_unlink z d) (given-fs s r w) ∙ laws.unlink s.fs d name q))

  stat_of-returns :
      (x : Ret ℕ × Process W) → IsTree ops → (y : Ret ℕ × Process W) × (stat_of ops l x ≡ returns y)
  unfolding stat_of
  stat_of-returns (fails e, s) laws = (_, refl)
  stat_of-returns (done v, s) laws = rw (laws.stat s.fs v) (_, refl)

  do_stat-returns :
      (s : Process W) (path : List ℕ)
      → IsTree ops
      → IsPath ops l s path
      → (y : Ret ℕ × Process W) × (do_stat ops l s path ≡ returns y)
  unfolding do_stat
  do_stat-returns s path laws p = elim (Bool-cases (length path == 0)) [
    | inl e ↦ rw e (_, refl)
    | inr e ↦
        let (x, runs) = open_namev-returns ops l s path false laws p in
        rw (e, runs) (stat_of-returns x laws)
  ]

  run_path-returns :
      (s : Process W) (path : List ℕ) (c : PathCall)
      → IsTree ops
      → IsPath ops l s path
      → (y : Ret ℕ × Process W) × (run_path s path c ≡ returns y)
  unfolding run_path do_mkdir do_rmdir do_unlink
  run_path-returns s path mkdir laws p =
      let (x, runs, ready) = dir_namev-Ready_name ops l s path p in
      rw runs (mkdir_in-returns p.first p.more x laws ready)
  run_path-returns s path rmdir laws p =
      let (x, runs, ready) = dir_namev-Ready_name ops l s path p in
      rw runs (rmdir_in-returns p.first p.more x laws ready)
  run_path-returns s path unlink laws p =
      let (x, runs, ready) = dir_namev-Ready_name ops l s path p in
      rw runs (unlink_in-returns p.first p.more x laws ready)
  run_path-returns s path stat laws p = do_stat-returns s path laws p

  run_path-Even : (s : Process W) (path : List ℕ) (c : PathCall) → Ends (Even s) (run_path s path c)
  unfolding run_path
  run_path-Even s path mkdir = do_mkdir-Even ops l s path
  run_path-Even s path rmdir = do_rmdir-Even ops l s path
  run_path-Even s path unlink = do_unlink-Even ops l s path
  run_path-Even s path stat = do_stat-Even ops l s path

  -- mkdir, rmdir, unlink and stat return on every path that leads through directories to a name, in
  -- file systems whose directories have their operations: no KASSERT fails, and whatever the result
  -- is, every reference to a vnode that the call takes it gives back.
  pub run_path_lem :
      (s : Process W) (path : List ℕ) (c : PathCall)
      → IsTree ops
      → IsPath ops l s path
      → (x : Ret ℕ × Process W) × (run_path s path c ≡ returns x) × Even s x
  run_path_lem s path c laws p =
      let (x, runs) = run_path-returns s path c laws p in
      (x, runs, ends_at ops l (Even s) (run_path s path c) x runs (run_path-Even s path c))
