-- ===== src/Api/Syscall/Laws.antt =====
-- What the copies of arguments and paths come to, for every system call that makes them.
use weenix.Prelude.{
  ℕ, ◌+◌, ◌-◌, ◌≤◌, ◌≡◌, refl, ◌⊎◌, Bool, true, false, not, inl, inr, is_none, arith, Exec, returns,
  panics, ◌>>=◌, Ret, done, fails, efault, ap, ◌∙◌,
}
use weenix.Vm.UserMem.{Buffer}
use weenix.Api.Syscall.{
  Structs, Kern, Sys, Answer, answer, minus_one, set_errno, set_kern, finish, call, call_and_free,
  args_copied, with_args, args_or_fault, with_args_or_fault,
}

-- A computation returns.
abbrev pub Returns : {A : Type 0} → Exec A → Type 0
Returns {A = A} m = (a : A) × (m ≡ returns a)

pub Exec-cases : {A : Type 0} → (m : Exec A) → (m ≡ panics) ⊎ Returns m
Exec-cases panics = inl refl
Exec-cases (returns a) = inr (a, refl)

module _ {K : Type 0} where
  -- The call returns with `n` blocks less than in `s`, and if it returns -1, an errno is set.
  abbrev pub Ends : ℕ → Sys K → Exec (Answer × Sys K) → Type 0
  Ends n s m =
      (a : Answer) × (t : Sys K) × (m ≡ returns (a, t))
      × (t.blocks + n ≡ s.blocks)
      × (a ≡ minus_one → is_none t.kt_errno ≡ false)

  -- Either it ends so, or it stops, and `B` says where.
  abbrev pub Settles : Type 0 → ℕ → Sys K → Exec (Answer × Sys K) → Type 0
  Settles B n s m = (B × (m ≡ panics)) ⊎ Ends n s m

  -- An answer of -1 comes with an error number.
  abbrev pub reported : Answer → Sys K → Bool
  reported (answer n) t = true
  reported minus_one t = not (is_none t.kt_errno)

  settled_end :
      (s : Sys K) (m : Exec (Answer × Sys K))
      → Ends 0 s m
      → (a : Answer) × (t : Sys K) × (m ≡ returns (a, t))
        × (t.blocks ≡ s.blocks)
        × (reported a t ≡ true)
  settled_end s m (answer n, t, e, c, x) = (answer n, t, e, omega arith, refl)
  settled_end s m (minus_one, t, e, c, x) = (minus_one, t, e, omega arith, rw (x refl) refl)

  pub settled :
      (B : Type 0) (s : Sys K) (m : Exec (Answer × Sys K))
      → Settles B 0 s m
      → (B × (m ≡ panics))
        ⊎ ((a : Answer) × (t : Sys K) × (m ≡ returns (a, t))
            × (t.blocks ≡ s.blocks)
            × (reported a t ≡ true))
  settled B s m (inl h) = inl h
  settled B s m (inr h) = inr (settled_end s m h)

  pub finish-errno :
      (s : Sys K) (r : Ret ℕ)
      → ((finish s r).1.blocks ≡ s.blocks)
        × ((finish s r).0 ≡ minus_one → is_none (finish s r).1.kt_errno ≡ false)
  unfolding finish
  finish-errno s (done n) = (refl, λ e. cc)
  finish-errno s (fails e) = (refl, λ _. refl)

  -- The same computation from a state with other blocks, for a reason that follows.
  pub shift :
      (B C : Type 0) (n k : ℕ) (s u : Sys K) (m : Exec (Answer × Sys K))
      → (B → C)
      → ((x : ℕ) → x + n ≡ u.blocks → x + k ≡ s.blocks)
      → Settles B n u m
      → Settles C k s m
  shift B C n k s u m f h (inl (b, e)) = inl (f b, e)
  shift B C n k s u m f h (inr (a, t, e, c, x)) = inr (a, t, e, h t.blocks c, x)

  -- A computation that is equal to one that settles.
  pub same :
      (B : Type 0) (n : ℕ) (s : Sys K) (m m' : Exec (Answer × Sys K))
      → m ≡ m'
      → Settles B n s m'
      → Settles B n s m
  same B n s m m' h (inl (b, e)) = inl (b, h ∙ e)
  same B n s m m' h (inr (a, u, e, c, x)) = inr (a, u, h ∙ e, c, x)

  pub call-Settles :
      (s : Sys K) (f : K → Exec (Ret ℕ × K)) → Settles (f s.kern ≡ panics) 0 s (call s f)
  unfolding call
  call-Settles s f = elim (Exec-cases (f s.kern)) [
    | inl e ↦ inl (e, ap (λ m. m >>= λ z. returns (finish (set_kern s z.1) z.0)) e)
    | inr ((r, k), e) ↦
        let (b, x) = finish-errno (set_kern s k) r in
        inr (
          (finish (set_kern s k) r).0,
          (finish (set_kern s k) r).1,
          ap (λ m. m >>= λ z. returns (finish (set_kern s z.1) z.0)) e,
          omega (arith, b),
          x,
        )
  ]

  pub call_and_free-Settles :
      (n : ℕ) (s : Sys K) (f : K → Exec (Ret ℕ × K))
      → n ≤ s.blocks
      → Settles (f s.kern ≡ panics) n s (call_and_free n s f)
  unfolding call_and_free
  call_and_free-Settles n s f l = elim (Exec-cases (f s.kern)) [
    | inl e ↦ inl (
      e,
      ap (λ m. m >>= λ z. returns (finish (record (set_kern s z.1) { blocks = s.blocks - n }) z.0))
          e,
    )
    | inr ((r, k), e) ↦
        let u = record (set_kern s k) { blocks = s.blocks - n } in
        let (b, x) = finish-errno u r in
        inr (
          (finish u r).0,
          (finish u r).1,
          ap
              (λ m.
                m >>= λ z. returns (finish (record (set_kern s z.1) { blocks = s.blocks - n }) z.0))
              e,
          omega (arith, b),
          x,
        )
  ]

module _ {K : Type 0} (o : Kern K) (b : Structs) where
  -- A call stops in the copy of its arguments, or with the arguments that were copied.
  abbrev pub ArgsStop : Sys K → Buffer → ℕ → ℕ → (Buffer → Sys K → Type 0) → Type 0
  ArgsStop s stack arg size B =
      (o.copy_from_user s.kern stack arg size ≡ panics)
      ⊎ ((n : ℕ) × (kargs : Buffer) × (k : K) × (o.copy_from_user s.kern stack arg size
            ≡ returns (done n, kargs, k))
          × B kargs (set_kern s k))

  copied-Settles :
      (s : Sys K) (stack : Buffer) (arg size : ℕ) (r : Ret ℕ) (kargs : Buffer) (k : K)
      (B : Buffer → Sys K → Type 0) (body : Buffer → Sys K → Exec (Answer × Sys K))
      → o.copy_from_user s.kern stack arg size ≡ returns (r, kargs, k)
      → ((t : Sys K) → t.blocks ≡ s.blocks → Settles (B kargs t) 0 t (body kargs t))
      → Settles (ArgsStop s stack arg size B) 0 s (args_copied o b body s (r, kargs, k))
  copied-Settles s stack arg size (fails e) kargs k B body q h =
      inr (minus_one, set_errno (set_kern s k) e, refl, omega arith, λ _. refl)
  copied-Settles s stack arg size (done n) kargs k B body q h =
      shift (B kargs (set_kern s k)) _ 0 0 s (set_kern s k) (body kargs (set_kern s k))
        (λ x. inr (n, kargs, k, q, x)) (λ x e. e) (h (set_kern s k) refl)

  pub with_args-Settles :
      (s : Sys K) (stack : Buffer) (arg size : ℕ) (B : Buffer → Sys K → Type 0)
      (body : Buffer → Sys K → Exec (Answer × Sys K))
      → ((kargs : Buffer) (t : Sys K)
          → t.blocks ≡ s.blocks
          → Settles (B kargs t) 0 t (body kargs t))
      → Settles (ArgsStop s stack arg size B) 0 s (with_args o b s stack arg size body)
  unfolding with_args
  with_args-Settles s stack arg size B body h =
      elim (Exec-cases (o.copy_from_user s.kern stack arg size)) [
        | inl e ↦ inl (inl e, ap (λ m. m >>= args_copied o b body s) e)
        | inr ((r, kargs, k), e) ↦
            same (ArgsStop s stack arg size B) 0 s (with_args o b s stack arg size body)
              (args_copied o b body s (r, kargs, k)) (ap (λ m. m >>= args_copied o b body s) e)
              (copied-Settles s stack arg size r kargs k B body e (h kargs))
      ]

  fault-Settles :
      (s : Sys K) (stack : Buffer) (arg size : ℕ) (r : Ret ℕ) (kargs : Buffer) (k : K)
      (B : Buffer → Sys K → Type 0) (body : Buffer → Sys K → Exec (Answer × Sys K))
      → o.copy_from_user s.kern stack arg size ≡ returns (r, kargs, k)
      → ((t : Sys K) → t.blocks ≡ s.blocks → Settles (B kargs t) 0 t (body kargs t))
      → Settles (ArgsStop s stack arg size B) 0 s (args_or_fault o b body s (r, kargs, k))
  fault-Settles s stack arg size (fails e) kargs k B body q h =
      inr (minus_one, set_errno (set_kern s k) efault, refl, omega arith, λ _. refl)
  fault-Settles s stack arg size (done n) kargs k B body q h =
      shift (B kargs (set_kern s k)) _ 0 0 s (set_kern s k) (body kargs (set_kern s k))
        (λ x. inr (n, kargs, k, q, x)) (λ x e. e) (h (set_kern s k) refl)

  pub with_args_or_fault-Settles :
      (s : Sys K) (stack : Buffer) (arg size : ℕ) (B : Buffer → Sys K → Type 0)
      (body : Buffer → Sys K → Exec (Answer × Sys K))
      → ((kargs : Buffer) (t : Sys K)
          → t.blocks ≡ s.blocks
          → Settles (B kargs t) 0 t (body kargs t))
      → Settles (ArgsStop s stack arg size B) 0 s (with_args_or_fault o b s stack arg size body)
  unfolding with_args_or_fault
  with_args_or_fault-Settles s stack arg size B body h =
      elim (Exec-cases (o.copy_from_user s.kern stack arg size)) [
        | inl e ↦ inl (inl e, ap (λ m. m >>= args_or_fault o b body s) e)
        | inr ((r, kargs, k), e) ↦
            same (ArgsStop s stack arg size B) 0 s (with_args_or_fault o b s stack arg size body)
              (args_or_fault o b body s (r, kargs, k)) (ap (λ m. m >>= args_or_fault o b body s) e)
              (fault-Settles s stack arg size r kargs k B body e (h kargs))
      ]
