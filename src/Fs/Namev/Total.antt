-- ===== src/Fs/Namev/Total.antt =====
-- `dir_namev` and `open_namev` on paths that lead through directories.
use weenix.Prelude.{
  ℕ, ◌≡◌, refl, Bool, true, false, Option, none, some, List, [], ◌∷◌, length, ltb, Bool-cases, inl,
  inr, Exec, returns, panics, Ret, done, fails, enametoolong, sym, subst, ◌∙◌, ap,
}
use weenix.Fs.State.{Vnodes, Process, Limits, IsTree}
use weenix.Fs.Namev.{
  last_slash, dir_part, base_name, name_arg, given, put_prev, after_lookup, start_base, lookup,
  namev_result, dir_namev, create_last, open_last, open_found, open_namev,
}
use weenix.Fs.Namev.Refs.{Ends, Ends-bind, Named, dir_namev-Named}
use weenix.Fs.Namev.Words.{words, walk_words, walk-words}

given-fs : {W : Type 0} (s : Process W) (r : Ret ℕ) (w : W) → (given s (r, w)).fs ≡ w
given-fs s (done v) w = refl
given-fs s (fails e) w = refl

put_prev-fs : {W : Type 0} (s : Process W) (p : Option ℕ) → (put_prev s p).fs ≡ s.fs
put_prev-fs s none = refl
put_prev-fs s (some v) = refl

any : {A : Type 0} (m : Exec A) → Ends (λ _. Unit {0}) m
any (returns a) = tt
any panics = tt

module _ {W : Type 0} (ops : Vnodes W) (l : Limits) where
  -- Each vnode that the words lead through can be searched.
  abbrev pub Walkable : W → ℕ → List (List ℕ) → Type 0
  Walkable w base [] = Unit {0}
  Walkable w base (x ∷ ws) =
      (ops.has_lookup w base ≡ true)
      × ((v : ℕ) → (ops.lookup w base x).0 ≡ done v → Walkable (ops.lookup w base x).1 v ws)

  next-returns :
      (r q : Ret ℕ) (s : Process W) (next : ℕ → Exec (Ret (Option ℕ) × Process W))
      → r ≡ q
      → ((v : ℕ) → r ≡ done v → (x : Ret (Option ℕ) × Process W) × (next v ≡ returns x))
      → (x : Ret (Option ℕ) × Process W) × (after_lookup q s next ≡ returns x)
  next-returns r (done v) s next e f = f v e
  next-returns r (fails y) s next e f = ((fails y, s), refl)

  walk_words-returns :
      (s : Process W) (base : ℕ) (prev : Option ℕ) (ws : List (List ℕ))
      → Walkable s.fs base ws
      → (x : Ret (Option ℕ) × Process W) × (walk_words ops l s base prev ws ≡ returns x)
  unfolding walk_words lookup
  walk_words-returns s base prev [] h = ((done prev, s), refl)
  walk_words-returns s base prev (w ∷ ws) (a, f) =
      let p = ops.lookup s.fs base w in
      let t = put_prev (given s p) prev in
      let same : t.fs ≡ p.1 = put_prev-fs (given s p) prev ∙ given-fs s p.0 p.1 in
      rw a (
        next-returns p.0 p.0 t (λ v. walk_words ops l t v (some v) ws) refl
          (λ v e.
            walk_words-returns t v (some v) ws (subst (λ z. Walkable z v ws) (sym same) (f v e))))

  namev_result-returns :
      (b : ℕ) (name : List ℕ) (x : Ret (Option ℕ) × Process W)
      → (y : Ret (ℕ × Option (List ℕ)) × Process W) × (namev_result ops l b name x ≡ returns y)
  unfolding namev_result
  namev_result-returns b name (fails e, s) = (_, refl)
  namev_result-returns b name (done none, s) = (_, refl)
  namev_result-returns b name (done (some v), s) = elim (Bool-cases (ops.has_lookup s.fs v)) [
    | inl e ↦ rw e (_, refl)
    | inr e ↦ rw e (_, refl)
  ]

  pub ends_at : {A : Type 0} (P : A → Type 0) (m : Exec A) (x : A) → m ≡ returns x → Ends P m → P x
  ends_at P (returns y) x e h = subst P (returned y x e) h
    where
      returned : {A : Type 0} (y x : A) → returns y ≡ returns x → y ≡ x
      returned y x e = cc
  ends_at P panics x e h = cc

  dir_namev-returns :
      (s : Process W) (path : List ℕ) (base : Option ℕ) (b : ℕ)
      → start_base s path base ≡ some b
      → Walkable s.fs b (words (dir_part (last_slash path) path))
      → (x : Ret (ℕ × Option (List ℕ)) × Process W) × (dir_namev ops l s path base ≡ returns x)
  unfolding dir_namev
  dir_namev-returns s path base b e h =
      let dirs = dir_part (last_slash path) path in
      let name = base_name (last_slash path) path in
      elim (Bool-cases (ltb l.name_len (length name))) [
        | inl t ↦ rw t ((fails enametoolong, s), refl)
        | inr t ↦
            let (x, runs) = walk_words-returns s b none (words dirs) h in
            let (y, out) = namev_result-returns b name x in
            (y, rw (t, e, walk-words ops l s b dirs, runs) out)
      ]

  -- `dir_namev` where the path leads through vnodes that can be searched, from a directory that is
  -- there: it returns, with one reference to the directory that it gives, or with an error and none.
  pub dir_namev_lem :
      (s : Process W) (path : List ℕ) (base : Option ℕ) (b : ℕ)
      → start_base s path base ≡ some b
      → Walkable s.fs b (words (dir_part (last_slash path) path))
      → (x : Ret (ℕ × Option (List ℕ)) × Process W) × (dir_namev ops l s path base ≡ returns x)
        × Named s x
  dir_namev_lem s path base b e h =
      let (x, runs) = dir_namev-returns s path base b e h in
      (
        x,
        runs,
        ends_at (Named s) (dir_namev ops l s path base) x runs (dir_namev-Named ops l s path base),
      )

  -- Nothing has happened if no vnode has been looked up.
  abbrev Kept : Process W → Ret (Option ℕ) × Process W → Type 0
  Kept s0 (done none, s) = s ≡ s0
  Kept s0 (done (some v), s) = Unit {0}
  Kept s0 (fails e, s) = Unit {0}

  -- A directory that is found can be searched, and comes with the last part of the path.
  abbrev pub Ready : List ℕ → Ret (ℕ × Option (List ℕ)) × Process W → Type 0
  Ready name (fails e, s) = Unit {0}
  Ready name (done (d, n), s) = (n ≡ name_arg name) × (ops.has_lookup s.fs d ≡ true)

  next-Kept :
      (s0 s : Process W) (r : Ret ℕ) (next : ℕ → Exec (Ret (Option ℕ) × Process W))
      → ((v : ℕ) → Ends (Kept s0) (next v))
      → Ends (Kept s0) (after_lookup r s next)
  next-Kept s0 s (done v) next f = f v
  next-Kept s0 s (fails e) next f = tt

  some-Kept :
      (s0 s : Process W) (base v : ℕ) (ws : List (List ℕ))
      → Ends (Kept s0) (walk_words ops l s base (some v) ws)
  unfolding walk_words
  some-Kept s0 s base v [] = tt
  some-Kept s0 s base v (w ∷ ws) =
      Ends-bind (λ _. Unit {0}) (Kept s0) (lookup ops l s base (some w)) _
        (any (lookup ops l s base (some w)))
        (λ x g.
          next-Kept s0 (put_prev x.1 (some v)) x.0 _
            (λ u. some-Kept s0 (put_prev x.1 (some v)) u u ws))

  none-Kept :
      (s : Process W) (base : ℕ) (ws : List (List ℕ))
      → Ends (Kept s) (walk_words ops l s base none ws)
  unfolding walk_words
  none-Kept s base [] = refl
  none-Kept s base (w ∷ ws) =
      Ends-bind (λ _. Unit {0}) (Kept s) (lookup ops l s base (some w)) _
        (any (lookup ops l s base (some w)))
        (λ x g. next-Kept s x.1 x.0 _ (λ u. some-Kept s x.1 u u ws))

  namev_result-Ready :
      (s0 : Process W) (b : ℕ) (name : List ℕ) (x : Ret (Option ℕ) × Process W)
      → ops.has_lookup s0.fs b ≡ true
      → Kept s0 x
      → Ends (Ready name) (namev_result ops l b name x)
  unfolding namev_result
  namev_result-Ready s0 b name (fails e, s) h k = tt
  namev_result-Ready s0 b name (done none, s) h k = (refl, ap (λ z. ops.has_lookup (z.fs) b) k ∙ h)
  namev_result-Ready s0 b name (done (some v), s) h k = elim (Bool-cases (ops.has_lookup s.fs v)) [
    | inl e ↦ rw e (refl, e)
    | inr e ↦ rw e tt
  ]

  dir_namev-Ready :
      (s : Process W) (path : List ℕ) (base : Option ℕ) (b : ℕ)
      → start_base s path base ≡ some b
      → ops.has_lookup s.fs b ≡ true
      → Ends (Ready (base_name (last_slash path) path)) (dir_namev ops l s path base)
  unfolding dir_namev
  dir_namev-Ready s path base b e h =
      let dirs = dir_part (last_slash path) path in
      let name = base_name (last_slash path) path in
      elim (Bool-cases (ltb l.name_len (length name))) [
        | inl t ↦ rw t tt
        | inr t ↦
            rw (t, e, walk-words ops l s b dirs)
              (Ends-bind (Kept s) (Ready name) (walk_words ops l s b none (words dirs)) _
                (none-Kept s b (words dirs)) (λ x k. namev_result-Ready s b name x h k))
      ]

  -- A path that leads through directories to a name in one.
  pub record IsPath (s : Process W) (path : List ℕ) : Type 0 where
    pub from : ℕ
    pub starts : start_base s path none ≡ some from
    pub searched : ops.has_lookup s.fs from ≡ true
    pub walkable : Walkable s.fs from (words (dir_part (last_slash path) path))
    pub first : ℕ
    pub more : List ℕ
    pub named : base_name (last_slash path) path ≡ first ∷ more

  -- `dir_namev` of such a path returns, and a directory that it gives can be searched for a name.
  pub dir_namev-Ready_name :
      (s : Process W) (path : List ℕ) (p : IsPath s path)
      → (x : Ret (ℕ × Option (List ℕ)) × Process W) × (dir_namev ops l s path none ≡ returns x)
        × Ready (p.first ∷ p.more) x
  dir_namev-Ready_name s path p =
      let (x, runs) = dir_namev-returns s path none p.from p.starts p.walkable in
      let ready = dir_namev-Ready s path none p.from p.starts p.searched in
      (
        x,
        runs,
        subst (λ n. Ready n x) p.named
            (ends_at (Ready (base_name (last_slash path) path)) (dir_namev ops l s path none) x runs
              ready),
      )

  open_last-returns :
      (creat : Bool) (d : ℕ) (name : List ℕ) (r : Ret ℕ) (s : Process W)
      → ops.has_create s.fs d ≡ true
      → (y : Ret ℕ × Process W) × (open_last ops l creat d name (r, s) ≡ returns y)
  unfolding open_last create_last
  open_last-returns creat d name (done v) s h = (_, refl)
  open_last-returns false d name (fails e) s h = (_, refl)
  open_last-returns true d name (fails e) s h = rw h (_, refl)

  open_found-returns :
      (creat : Bool) (c : ℕ) (cs : List ℕ) (x : Ret (ℕ × Option (List ℕ)) × Process W)
      → IsTree ops
      → Ready (c ∷ cs) x
      → (y : Ret ℕ × Process W) × (open_found ops l creat x ≡ returns y)
  unfolding open_found lookup
  open_found-returns creat c cs (fails e, s) laws h = (_, refl)
  open_found-returns creat c cs (done (d, none), s) laws h = (_, refl)
  open_found-returns creat c cs (done (d, some name), s) laws (p, q) =
      let (r, w) = ops.lookup s.fs d name in
      rw q (
        open_last-returns creat d name r (given s (r, w))
          (ap (λ z. ops.has_create z d) (given-fs s r w) ∙ laws.create s.fs d name q))

  -- `open_namev` of such a path returns.
  pub open_namev-returns :
      (s : Process W) (path : List ℕ) (creat : Bool)
      → IsTree ops
      → IsPath s path
      → (y : Ret ℕ × Process W) × (open_namev ops l s path creat none ≡ returns y)
  unfolding open_namev
  open_namev-returns s path creat laws p =
      let (x, runs, ready) = dir_namev-Ready_name s path p in
      rw runs (open_found-returns creat p.first p.more x laws ready)
