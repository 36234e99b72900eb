-- ===== src/Fs/Path/Chdir.antt =====
-- `do_chdir`: the reference that `p_cwd` holds.
use weenix.Prelude.{
  ℕ, ◌+◌, ◌≡◌, refl, true, false, none, some, List, [], ◌∷◌, arith, Bool-cases, inl, inr, returns,
  Ret, done, fails, ◌∙◌,
}
use weenix.Proc.Fifo.{count}
use weenix.Fs.State.{Vnodes, Process, Limits, IsTree}
use weenix.Fs.File.{is_dir}
use weenix.Fs.Namev.{open_namev}
use weenix.Fs.Namev.Refs.{vgets, vputs, Gives, open_namev-Gives}
use weenix.Fs.Namev.Total.{IsPath, open_namev-returns, ends_at}
use weenix.Fs.Namev.Frame.{IsFrame, open_namev-After}
use weenix.Fs.Path.{chdir_to, do_chdir}

cwd-IsFrame : {W : Type 0} (s : Process W) → IsFrame {W = W} (λ t. t.cwd ≡ s.cwd)
cwd-IsFrame s = record { changed = λ t w h. h; taken = λ t v h. h; returned = λ t v h. h }

module _ {W : Type 0} (ops : Vnodes W) (l : Limits) where
  -- Where the call has arrived: in a directory, or, with an error, where it was.
  abbrev pub Arrived : ℕ → Ret ℕ → W → ℕ → Type 0
  Arrived old (done n) w new = (n ≡ 0) × (is_dir (ops.kind w new) ≡ true)
  Arrived old (fails e) w new = new ≡ old

  -- The references that are taken less those that are given back are that of the new working
  -- directory less that of the old one.
  abbrev pub Moves : Process W → ℕ → Ret ℕ × Process W → Type 0
  Moves s old (r, t) =
      (new : ℕ) × (t.cwd ≡ some new)
      × Arrived old r t.fs new
      × ((v : ℕ)
          → vgets v t.calls + (vputs v s.calls + count v (old ∷ []))
            ≡ vgets v s.calls + (vputs v t.calls + count v (new ∷ [])))

  chdir_to-Moves :
      (s t : Process W) (old : ℕ) (r : Ret ℕ)
      → t.cwd ≡ some old
      → Gives s [] (r, t)
      → (y : Ret ℕ × Process W) × (chdir_to ops l (r, t) ≡ returns y) × Moves s old y
  unfolding chdir_to
  chdir_to-Moves s t old (fails e) c h = (_, refl, (old, c, refl, λ u. ground (arith, h u)))
  chdir_to-Moves s t old (done v) c h = elim (Bool-cases (is_dir (ops.kind t.fs v))) [
    | inl e ↦ rw (e, c) (_, refl, (v, refl, (refl, e), λ u. ground (arith, h u)))
    | inr e ↦ rw e (_, refl, (old, c, refl, λ u. ground (arith, h u)))
  ]

  -- `do_chdir` to a path that leads through directories to a name, in a process that has a working
  -- directory, returns: it returns 0 and the new working directory is a directory, or it fails and the
  -- working directory stays. The working directory holds exactly one reference, and no other is kept.
  pub do_chdir-Moves :
      (s : Process W) (path : List ℕ) (old : ℕ)
      → IsTree ops
      → IsPath ops l s path
      → s.cwd ≡ some old
      → (y : Ret ℕ × Process W) × (do_chdir ops l s path ≡ returns y) × Moves s old y
  unfolding do_chdir
  do_chdir-Moves s path old laws p c =
      let m = open_namev ops l s path false none in
      let (z, runs) = open_namev-returns ops l s path false laws p in
      let kept =
        open_namev-After ops l (λ t. t.cwd ≡ s.cwd) (cwd-IsFrame s) s path false none refl in
      let k = ends_at ops l (λ r. r.1.cwd ≡ s.cwd) m z runs kept in
      let g = ends_at ops l (Gives s []) m z runs (open_namev-Gives ops l s path false none) in
      rw runs (chdir_to-Moves s z.1 old z.0 (k ∙ c) g)
