-- ===== src/Fs/Namev/Refs.antt =====
-- The references to vnodes that the resolution of a path takes and gives back.
use weenix.Prelude.{
  ℕ, zero, suc, ◌+◌, ◌≡◌, Bool, true, false, Option, none, some, List, [], ◌∷◌, length,
  if◌then◌else◌, ◌==◌, ltb, arith, Bool-cases, inl, inr, Exec, returns, panics, ◌>>=◌, ◌>>◌,
  kassert, deref, Ret, done, fails,
}
use weenix.Proc.Fifo.{count}
use weenix.Fs.State.{Vnodes, Call, file_get, file_put, vnode_get, vnode_put, Process, Limits}
use weenix.Fs.Namev.{
  last_slash, skip_slashes, component, after_component, dir_part, base_name, given, put_prev,
  after_lookup, start_base, lookup, walk, namev_result, dir_namev, create_last, open_last,
  open_found, open_namev,
}

abbrev pub vgets : ℕ → List Call → ℕ
vgets v [] = 0
vgets v (vnode_get u ∷ cs) = (if u == v then 1 else 0) + vgets v cs
vgets v (vnode_put u ∷ cs) = vgets v cs
vgets v (file_get f ∷ cs) = vgets v cs
vgets v (file_put f ∷ cs) = vgets v cs

abbrev pub vputs : ℕ → List Call → ℕ
vputs v [] = 0
vputs v (vnode_put u ∷ cs) = (if u == v then 1 else 0) + vputs v cs
vputs v (vnode_get u ∷ cs) = vputs v cs
vputs v (file_get f ∷ cs) = vputs v cs
vputs v (file_put f ∷ cs) = vputs v cs

-- What a function that returns has done.
abbrev pub Ends : {A : Type 0} → (A → Type 0) → Exec A → Type 0
Ends P (returns a) = P a
Ends P panics = Unit

pub Ends-bind :
    {A B : Type 0} (P : A → Type 0) (Q : B → Type 0) (m : Exec A) (k : A → Exec B)
    → Ends P m
    → ((a : A) → P a → Ends Q (k a))
    → Ends Q (m >>= k)
Ends-bind P Q (returns a) k h f = f a h
Ends-bind P Q panics k h f = tt

pub Ends-kassert :
    {B : Type 0} (Q : B → Type 0) (b : Bool) (m : Exec B) → Ends Q m → Ends Q (kassert b >> m)
Ends-kassert Q true m h = h
Ends-kassert Q false m h = tt

pub Ends-deref :
    {A B : Type 0} (Q : B → Type 0) (o : Option A) (k : A → Exec B)
    → ((a : A) → Ends Q (k a))
    → Ends Q (deref o >>= k)
Ends-deref Q none k h = tt
Ends-deref Q (some a) k h = h a

abbrev pub held_by : Option ℕ → List ℕ
held_by none = []
held_by (some v) = v ∷ []

module _ {W : Type 0} where
  -- Since `s0` exactly the references to the vnodes in `held` have been taken and not given back.
  abbrev pub Holds : Process W → Process W → List ℕ → Type 0
  Holds s0 s held =
      (v : ℕ)
      → vgets v s.calls + vputs v s0.calls ≡ vgets v s0.calls + (vputs v s.calls + count v held)

  -- A result that is a vnode comes with a reference, an error with none.
  abbrev pub Gives : Process W → List ℕ → Ret ℕ × Process W → Type 0
  Gives s0 held (done v, s) = Holds s0 s (v ∷ held)
  Gives s0 held (fails e, s) = Holds s0 s held

  abbrev pub Walked : Process W → Ret (Option ℕ) × Process W → Type 0
  Walked s0 (done none, s) = Holds s0 s []
  Walked s0 (done (some v), s) = Holds s0 s (v ∷ [])
  Walked s0 (fails e, s) = Holds s0 s []

  abbrev pub Named : Process W → Ret (ℕ × Option (List ℕ)) × Process W → Type 0
  Named s0 (done (d, name), s) = Holds s0 s (d ∷ [])
  Named s0 (fails e, s) = Holds s0 s []

  pub given-Gives :
      (s0 s : Process W) (held : List ℕ) (r : Ret ℕ) (w : W)
      → Holds s0 s held
      → Gives s0 held (r, given s (r, w))
  given-Gives s0 s held (done v) w h = λ u. ground (arith, h u)
  given-Gives s0 s held (fails e) w h = h

  put_prev-Gives :
      (s0 s : Process W) (prev : Option ℕ) (r : Ret ℕ)
      → Gives s0 (held_by prev) (r, s)
      → Gives s0 [] (r, put_prev s prev)
  put_prev-Gives s0 s none r h = h
  put_prev-Gives s0 s (some v) (done u) h = λ x. ground (arith, h x)
  put_prev-Gives s0 s (some v) (fails e) h = λ x. ground (arith, h x)

  module _ (ops : Vnodes W) (l : Limits) where
    pub lookup-Gives :
        (s0 s : Process W) (d : ℕ) (name : Option (List ℕ)) (held : List ℕ)
        → Holds s0 s held
        → Ends (Gives s0 held) (lookup ops l s d name)
    unfolding lookup
    lookup-Gives s0 s d name held h = Ends-deref (Gives s0 held) name _ λ n.
        Ends-kassert (Gives s0 held) (ops.has_lookup s.fs d) _
          (given-Gives s0 s held (ops.lookup s.fs d n).0 (ops.lookup s.fs d n).1 h)

    next-Walked :
        (s0 s : Process W) (r : Ret ℕ) (next : ℕ → Exec (Ret (Option ℕ) × Process W))
        → Gives s0 [] (r, s)
        → ((v : ℕ) → Holds s0 s (v ∷ []) → Ends (Walked s0) (next v))
        → Ends (Walked s0) (after_lookup r s next)
    next-Walked s0 s (done v) next h f = f v h
    next-Walked s0 s (fails e) next h f = h

    walk-Walked :
        (fuel : ℕ) (s0 s : Process W) (base : ℕ) (prev : Option ℕ) (cs : List ℕ)
        → Holds s0 s (held_by prev)
        → Ends (Walked s0) (walk ops l fuel s base prev cs)
    unfolding walk
    walk-Walked zero s0 s base prev cs h = tt
    walk-Walked (suc fuel) s0 s base none [] h = h
    walk-Walked (suc fuel) s0 s base (some v) [] h = h
    walk-Walked (suc fuel) s0 s base prev (c ∷ cs) h =
        Ends-bind (Gives s0 (held_by prev)) (Walked s0)
          (lookup ops l s base (some (component (c ∷ cs)))) _
          (lookup-Gives s0 s base (some (component (c ∷ cs))) (held_by prev) h)
          (λ x g.
            next-Walked s0 (put_prev x.1 prev) x.0 _ (put_prev-Gives s0 x.1 prev x.0 g) (λ v k.
              walk-Walked fuel s0 (put_prev x.1 prev) v (some v)
                (skip_slashes (after_component (c ∷ cs))) k))

    namev_result-Named :
        (s0 : Process W) (base : ℕ) (name : List ℕ) (x : Ret (Option ℕ) × Process W)
        → Walked s0 x
        → Ends (Named s0) (namev_result ops l base name x)
    unfolding namev_result
    namev_result-Named s0 base name (fails e, s) h = h
    namev_result-Named s0 base name (done none, s) h = λ v. ground (arith, h v)
    namev_result-Named s0 base name (done (some v), s) h =
        elim (Bool-cases (ops.has_lookup s.fs v)) [
          | inl e ↦ rw e h
          | inr e ↦ rw e (λ u. ground (arith, h u))
        ]

    -- `dir_namev`, where it returns: with a directory it gives one reference to it, and with an error
    -- none; every other reference that it has taken it has given back.
    pub dir_namev-Named :
        (s : Process W) (path : List ℕ) (base : Option ℕ)
        → Ends (Named s) (dir_namev ops l s path base)
    unfolding dir_namev
    dir_namev-Named s path base =
        let limit = last_slash path in
        let name = base_name limit path in
        let cs = skip_slashes (dir_part limit path) in
        elim (Bool-cases (ltb l.name_len (length name))) [
          | inl e ↦ rw e (λ v. ground arith)
          | inr e ↦ rw e (
              Ends-deref (Named s) (start_base s path base) _ λ b.
                Ends-bind (Walked s) (Named s) (walk ops l (suc (length cs)) s b none cs) _
                  (walk-Walked (suc (length cs)) s s b none cs (λ v. ground arith))
                  (λ x h. namev_result-Named s b name x h))
        ]

    create_last-Gives :
        (s0 s : Process W) (d : ℕ) (name : List ℕ)
        → Holds s0 s (d ∷ [])
        → Ends (Gives s0 []) (create_last ops l s d name)
    unfolding create_last
    create_last-Gives s0 s d name h = Ends-kassert (Gives s0 []) (ops.has_create s.fs d) _ (
        put_prev-Gives s0 (given s (ops.create s.fs d name)) (some d) (ops.create s.fs d name).0
          (given-Gives s0 s (d ∷ []) (ops.create s.fs d name).0 (ops.create s.fs d name).1 h))

    open_last-Gives :
        (s0 : Process W) (creat : Bool) (d : ℕ) (name : List ℕ) (x : Ret ℕ × Process W)
        → Gives s0 (d ∷ []) x
        → Ends (Gives s0 []) (open_last ops l creat d name x)
    unfolding open_last
    open_last-Gives s0 creat d name (done v, s) h = put_prev-Gives s0 s (some d) (done v) h
    open_last-Gives s0 true d name (fails e, s) h = create_last-Gives s0 s d name h
    open_last-Gives s0 false d name (fails e, s) h = put_prev-Gives s0 s (some d) (fails e) h

    open_found-Gives :
        (s0 : Process W) (creat : Bool) (x : Ret (ℕ × Option (List ℕ)) × Process W)
        → Named s0 x
        → Ends (Gives s0 []) (open_found ops l creat x)
    unfolding open_found
    open_found-Gives s0 creat (fails e, s) h = h
    open_found-Gives s0 creat (done (d, none), s) h = h
    open_found-Gives s0 creat (done (d, some name), s) h =
        Ends-bind (Gives s0 (d ∷ [])) (Gives s0 []) (lookup ops l s d (some name)) _
          (lookup-Gives s0 s d (some name) (d ∷ []) h) (λ x g. open_last-Gives s0 creat d name x g)

    -- `open_namev`, where it returns: it gives one reference to the vnode that it finds or creates, and
    -- none with an error; it keeps no other reference.
    pub open_namev-Gives :
        (s : Process W) (path : List ℕ) (creat : Bool) (base : Option ℕ)
        → Ends (Gives s []) (open_namev ops l s path creat base)
    unfolding open_namev
    open_namev-Gives s path creat base =
        Ends-bind (Named s) (Gives s []) (dir_namev ops l s path base) _
          (dir_namev-Named s path base) (λ x h. open_found-Gives s creat x h)
