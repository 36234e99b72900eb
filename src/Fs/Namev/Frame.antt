-- ===== src/Fs/Namev/Frame.antt =====
-- The resolution of a path and predicates that are neither about the file systems nor about the
-- references to vnodes.
use weenix.Prelude.{
  ℕ, zero, suc, Bool, true, false, Option, none, some, List, [], ◌∷◌, length, ltb, Bool-cases, inl,
  inr, Exec, Ret, done, fails,
}
use weenix.Fs.State.{Vnodes, Process, Limits}
use weenix.Fs.Namev.{
  last_slash, skip_slashes, component, after_component, dir_part, base_name, vref, vput, given,
  put_prev, after_lookup, start_base, lookup, walk, namev_result, dir_namev, create_last, open_last,
  open_found, open_namev,
}
use weenix.Fs.Namev.Refs.{Ends, Ends-bind, Ends-kassert, Ends-deref}

-- A predicate of the state that is about neither.
pub record IsFrame {W : Type 0} (R : Process W → Type 0) : Type 0 where
  pub changed : (s : Process W) (w : W) → R s → R (record s { fs = w })
  pub taken : (s : Process W) (v : ℕ) → R s → R (vref s v)
  pub returned : (s : Process W) (v : ℕ) → R s → R (vput s v)

module _ {W : Type 0} (ops : Vnodes W) (l : Limits) (R : Process W → Type 0)
    (frame : IsFrame R) where
  abbrev After : {A : Type 0} → Ret A × Process W → Type 0
  After (r, s) = R s

  given-After : (s : Process W) (r : Ret ℕ) (w : W) → R s → R (given s (r, w))
  given-After s (done v) w h = frame.taken (record s { fs = w }) v (frame.changed s w h)
  given-After s (fails e) w h = frame.changed s w h

  put_prev-After : (s : Process W) (prev : Option ℕ) → R s → R (put_prev s prev)
  put_prev-After s none h = h
  put_prev-After s (some v) h = frame.returned s v h

  lookup-After :
      (s : Process W) (d : ℕ) (name : Option (List ℕ)) → R s → Ends After (lookup ops l s d name)
  unfolding lookup
  lookup-After s d name h = Ends-deref After name _ λ n.
      Ends-kassert After (ops.has_lookup s.fs d) _
        (given-After s (ops.lookup s.fs d n).0 (ops.lookup s.fs d n).1 h)

  after_lookup-After :
      (r : Ret ℕ) (s : Process W) (next : ℕ → Exec (Ret (Option ℕ) × Process W))
      → R s
      → ((v : ℕ) → Ends After (next v))
      → Ends After (after_lookup r s next)
  after_lookup-After (done v) s next h f = f v
  after_lookup-After (fails e) s next h f = h

  walk-After :
      (fuel : ℕ) (s : Process W) (base : ℕ) (prev : Option ℕ) (cs : List ℕ)
      → R s
      → Ends After (walk ops l fuel s base prev cs)
  unfolding walk
  walk-After zero s base prev cs h = tt
  walk-After (suc fuel) s base prev [] h = h
  walk-After (suc fuel) s base prev (c ∷ cs) h =
      Ends-bind After After (lookup ops l s base (some (component (c ∷ cs)))) _
        (lookup-After s base (some (component (c ∷ cs))) h)
        (λ x g.
          let k = put_prev-After x.1 prev g in
          after_lookup-After x.0 (put_prev x.1 prev) _ k (λ v.
            walk-After fuel (put_prev x.1 prev) v (some v) (skip_slashes (after_component (c ∷ cs)))
              k))

  namev_result-After :
      (base : ℕ) (name : List ℕ) (x : Ret (Option ℕ) × Process W)
      → R x.1
      → Ends After (namev_result ops l base name x)
  unfolding namev_result
  namev_result-After base name (fails e, s) h = h
  namev_result-After base name (done none, s) h = frame.taken s base h
  namev_result-After base name (done (some v), s) h = elim (Bool-cases (ops.has_lookup s.fs v)) [
    | inl e ↦ rw e h
    | inr e ↦ rw e (frame.returned s v h)
  ]

  pub dir_namev-After :
      (s : Process W) (path : List ℕ) (base : Option ℕ)
      → R s
      → Ends After (dir_namev ops l s path base)
  unfolding dir_namev
  dir_namev-After s path base h =
      let limit = last_slash path in
      let name = base_name limit path in
      let cs = skip_slashes (dir_part limit path) in
      elim (Bool-cases (ltb l.name_len (length name))) [
        | inl e ↦ rw e h
        | inr e ↦ rw e (
            Ends-deref After (start_base s path base) _ λ b.
              Ends-bind After After (walk ops l (suc (length cs)) s b none cs) _
                (walk-After (suc (length cs)) s b none cs h) (λ x g. namev_result-After b name x g))
      ]

  open_last-After :
      (creat : Bool) (d : ℕ) (name : List ℕ) (x : Ret ℕ × Process W)
      → R x.1
      → Ends After (open_last ops l creat d name x)
  unfolding open_last create_last
  open_last-After creat d name (done v, s) h = frame.returned s d h
  open_last-After false d name (fails e, s) h = frame.returned s d h
  open_last-After true d name (fails e, s) h = Ends-kassert After (ops.has_create s.fs d) _ (
      frame.returned (given s (ops.create s.fs d name)) d
        (given-After s (ops.create s.fs d name).0 (ops.create s.fs d name).1 h))

  open_found-After :
      (creat : Bool) (x : Ret (ℕ × Option (List ℕ)) × Process W)
      → R x.1
      → Ends After (open_found ops l creat x)
  unfolding open_found
  open_found-After creat (fails e, s) h = h
  open_found-After creat (done (d, none), s) h = h
  open_found-After creat (done (d, some name), s) h =
      Ends-bind After After (lookup ops l s d (some name)) _ (lookup-After s d (some name) h)
        (λ x g. open_last-After creat d name x g)

  pub open_namev-After :
      (s : Process W) (path : List ℕ) (creat : Bool) (base : Option ℕ)
      → R s
      → Ends After (open_namev ops l s path creat base)
  unfolding open_namev
  open_namev-After s path creat base h =
      Ends-bind After After (dir_namev ops l s path base) _ (dir_namev-After s path base h)
        (λ x g. open_found-After creat x g)
