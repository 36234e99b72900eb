-- ===== src/Fs/Path/Refs.antt =====
-- The references to vnodes that the calls on path names take and give back.
use weenix.Prelude.{
  ℕ, false, Option, none, some, List, [], ◌∷◌, length, ◌==◌, arith, Bool-cases, inl, inr, Ret, done,
  fails,
}
use weenix.Fs.State.{Vnodes, Process, Limits}
use weenix.Fs.File.{is_dir}
use weenix.Fs.Namev.{lookup, dir_namev, open_namev}
use weenix.Fs.Namev.Refs.{
  Ends, Ends-bind, Ends-kassert, Ends-deref, Holds, Gives, Named, lookup-Gives, dir_namev-Named,
  open_namev-Gives,
}
use weenix.Fs.Path.{
  is_dot, is_dotdot, mkdir_looked, mkdir_in, do_mkdir, rmdir_in, do_rmdir, unlink_looked, unlink_in,
  do_unlink, stat_of, do_stat,
}

module _ {W : Type 0} where
  -- Whatever the result, the call has given back what it took.
  abbrev pub Even : Process W → Ret ℕ × Process W → Type 0
  Even s0 (r, s) = Holds s0 s []

  module _ (ops : Vnodes W) (l : Limits) where
    mkdir_looked-Even :
        (s0 : Process W) (d : ℕ) (name : List ℕ) (x : Ret ℕ × Process W)
        → Gives s0 (d ∷ []) x
        → Ends (Even s0) (mkdir_looked ops l d name x)
    unfolding mkdir_looked
    mkdir_looked-Even s0 d name (done v, s) h = λ u. ground (arith, h u)
    mkdir_looked-Even s0 d name (fails e, s) h =
        Ends-kassert (Even s0) (ops.has_mkdir s.fs d) _ (λ u. ground (arith, h u))

    mkdir_in-Even :
        (s0 : Process W) (x : Ret (ℕ × Option (List ℕ)) × Process W)
        → Named s0 x
        → Ends (Even s0) (mkdir_in ops l x)
    unfolding mkdir_in
    mkdir_in-Even s0 (fails e, s) h = h
    mkdir_in-Even s0 (done (d, none), s) h = elim (Bool-cases (d == s.root)) [
      | inl e ↦ rw e (λ u. ground (arith, h u))
      | inr e ↦ rw e tt
    ]
    mkdir_in-Even s0 (done (d, some name), s) h =
        Ends-bind (Gives s0 (d ∷ [])) (Even s0) (lookup ops l s d (some name)) _
          (lookup-Gives ops l s0 s d (some name) (d ∷ []) h)
          (λ x g. mkdir_looked-Even s0 d name x g)

    pub do_mkdir-Even : (s : Process W) (path : List ℕ) → Ends (Even s) (do_mkdir ops l s path)
    unfolding do_mkdir
    do_mkdir-Even s path =
        Ends-bind (Named s) (Even s) (dir_namev ops l s path none) _
          (dir_namev-Named ops l s path none) (λ x h. mkdir_in-Even s x h)

    rmdir_in-Even :
        (s0 : Process W) (x : Ret (ℕ × Option (List ℕ)) × Process W)
        → Named s0 x
        → Ends (Even s0) (rmdir_in ops l x)
    unfolding rmdir_in
    rmdir_in-Even s0 (fails e, s) h = h
    rmdir_in-Even s0 (done (d, none), s) h = tt
    rmdir_in-Even s0 (done (d, some name), s) h = elim (Bool-cases (is_dot name)) [
      | inl e ↦ rw e (λ u. ground (arith, h u))
      | inr e ↦ elim (Bool-cases (is_dotdot name)) [
        | inl t ↦ rw (e, t) (λ u. ground (arith, h u))
        | inr t ↦
            rw (e, t) (Ends-kassert (Even s0) (ops.has_rmdir s.fs d) _ (λ u. ground (arith, h u)))
      ]
    ]

    pub do_rmdir-Even : (s : Process W) (path : List ℕ) → Ends (Even s) (do_rmdir ops l s path)
    unfolding do_rmdir
    do_rmdir-Even s path =
        Ends-bind (Named s) (Even s) (dir_namev ops l s path none) _
          (dir_namev-Named ops l s path none) (λ x h. rmdir_in-Even s x h)

    unlink_looked-Even :
        (s0 : Process W) (d : ℕ) (name : List ℕ) (x : Ret ℕ × Process W)
        → Gives s0 (d ∷ []) x
        → Ends (Even s0) (unlink_looked ops l d name x)
    unfolding unlink_looked
    unlink_looked-Even s0 d name (fails e, s) h = λ u. ground (arith, h u)
    unlink_looked-Even s0 d name (done v, s) h = elim (Bool-cases (is_dir (ops.kind s.fs v))) [
      | inl e ↦ rw e (λ u. ground (arith, h u))
      | inr e ↦ rw e (Ends-kassert (Even s0) (ops.has_unlink s.fs d) _ (λ u. ground (arith, h u)))
    ]

    unlink_in-Even :
        (s0 : Process W) (x : Ret (ℕ × Option (List ℕ)) × Process W)
        → Named s0 x
        → Ends (Even s0) (unlink_in ops l x)
    unfolding unlink_in
    unlink_in-Even s0 (fails e, s) h = h
    unlink_in-Even s0 (done (d, name), s) h = Ends-deref (Even s0) name _ λ n.
        Ends-bind (Gives s0 (d ∷ [])) (Even s0) (lookup ops l s d (some n)) _
          (lookup-Gives ops l s0 s d (some n) (d ∷ []) h) (λ x g. unlink_looked-Even s0 d n x g)

    pub do_unlink-Even : (s : Process W) (path : List ℕ) → Ends (Even s) (do_unlink ops l s path)
    unfolding do_unlink
    do_unlink-Even s path =
        Ends-bind (Named s) (Even s) (dir_namev ops l s path none) _
          (dir_namev-Named ops l s path none) (λ x h. unlink_in-Even s x h)

    stat_of-Even :
        (s0 : Process W) (x : Ret ℕ × Process W) → Gives s0 [] x → Ends (Even s0) (stat_of ops l x)
    unfolding stat_of
    stat_of-Even s0 (fails e, s) h = h
    stat_of-Even s0 (done v, s) h =
        Ends-kassert (Even s0) (ops.has_stat s.fs v) _ (λ u. ground (arith, h u))

    pub do_stat-Even : (s : Process W) (path : List ℕ) → Ends (Even s) (do_stat ops l s path)
    unfolding do_stat
    do_stat-Even s path = elim (Bool-cases (length path == 0)) [
      | inl e ↦ rw e (λ u. ground arith)
      | inr e ↦ rw e (
          Ends-bind (Gives s []) (Even s) (open_namev ops l s path false none) _
            (open_namev-Gives ops l s path false none) (λ x h. stat_of-Even s x h))
    ]
