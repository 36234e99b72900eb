-- ===== src/Api/Syscall/Paths.antt =====
-- The system calls with paths: the copies of user_strdup, and what is freed after them.
use weenix.Prelude.{
  ℕ, ◌+◌, ◌≤◌, ◌≡◌, refl, ◌⊎◌, Option, none, some, inl, inr, arith, Exec, returns, panics, ◌>>=◌,
  Ret, done, fails, ap,
}
use weenix.Vm.UserMem.{Buffer}
use weenix.Api.Syscall.{
  Argstr, Structs, Kern, Sys, Answer, minus_one, string_copied, strdup_in, user_strdup, path_copied,
  with_path, second_copied, with_second, path_call, two_path_call,
}
use weenix.Api.Syscall.Laws.{
  Exec-cases, Settles, shift, same, call_and_free-Settles, ArgsStop, with_args-Settles,
}

module _ {K : Type 0} (o : Kern K) (b : Structs) where
  -- The copy of a string stops.
  abbrev pub CopyStop : Sys K → Argstr → Type 0
  CopyStop s ustr =
      (block : Buffer) × (o.kmalloc s.kern (ustr.as_len + 1) ≡ some block)
      × (o.copy_from_user s.kern block ustr.as_str (ustr.as_len + 1) ≡ panics)

  -- A call stops in the copy of a path, or with the path that was copied.
  abbrev pub PathStop : Sys K → Argstr → (Buffer → Sys K → Type 0) → Type 0
  PathStop s ustr B =
      CopyStop s ustr
      ⊎ ((path : Buffer) × (t : Sys K) × (user_strdup o b s ustr ≡ returns (some path, t))
          × B path t)

  -- `user_strdup` returns a block that is new, or none and the number of blocks is as before.
  abbrev Duplicated : Sys K → Option Buffer → Sys K → Type 0
  Duplicated s none t = t.blocks ≡ s.blocks
  Duplicated s (some p) t = t.blocks ≡ s.blocks + 1

  string-Duplicated :
      (s : Sys K) (r : Ret ℕ) (p : Buffer) (k : K)
      → Duplicated s
          (string_copied o b (record s { blocks = s.blocks + 1 }) (r, p, k)).0
          (string_copied o b (record s { blocks = s.blocks + 1 }) (r, p, k)).1
  string-Duplicated s (fails e) p k = omega arith
  string-Duplicated s (done n) p k = refl

  strdup_in-Duplicated :
      (s : Sys K) (ustr : Argstr) (block : Option Buffer)
      → o.kmalloc s.kern (ustr.as_len + 1) ≡ block
      → (CopyStop s ustr × (strdup_in o b s ustr block ≡ panics))
        ⊎ ((p : Option Buffer) × (t : Sys K) × (strdup_in o b s ustr block ≡ returns (p, t))
            × Duplicated s p t)
  unfolding strdup_in
  strdup_in-Duplicated s ustr none q = inr (none, _, refl, refl)
  strdup_in-Duplicated s ustr (some block) q =
      elim (Exec-cases (o.copy_from_user s.kern block ustr.as_str (ustr.as_len + 1))) [
        | inl e ↦ inl (
          (block, q, e),
          ap (λ m. m >>= λ z. returns (string_copied o b (record s { blocks = s.blocks + 1 }) z)) e,
        )
        | inr ((r, p, k), e) ↦
            let u = string_copied o b (record s { blocks = s.blocks + 1 }) (r, p, k) in
            inr (
              u.0,
              u.1,
              ap
                  (λ m.
                    m >>= λ z. returns (string_copied o b (record s { blocks = s.blocks + 1 }) z))
                  e,
              string-Duplicated s r p k,
            )
      ]

  path-Settles :
      (s t : Sys K) (ustr : Argstr) (p : Option Buffer) (B : Buffer → Sys K → Type 0)
      (body : Buffer → Sys K → Exec (Answer × Sys K))
      → user_strdup o b s ustr ≡ returns (p, t)
      → Duplicated s p t
      → ((path : Buffer) (u : Sys K)
          → u.blocks ≡ s.blocks + 1
          → Settles (B path u) 1 u (body path u))
      → Settles (PathStop s ustr B) 0 s (path_copied o b body (p, t))
  path-Settles s t ustr none B body q d h = inr (minus_one, _, refl, omega arith, λ _. refl)
  path-Settles s t ustr (some path) B body q d h =
      shift (B path t) _ 1 0 s t (body path t) (λ x. inr (path, t, q, x)) (λ x e. omega arith)
        (h path t d)

  pub with_path-Settles :
      (s : Sys K) (ustr : Argstr) (B : Buffer → Sys K → Type 0)
      (body : Buffer → Sys K → Exec (Answer × Sys K))
      → ((path : Buffer) (u : Sys K)
          → u.blocks ≡ s.blocks + 1
          → Settles (B path u) 1 u (body path u))
      → Settles (PathStop s ustr B) 0 s (with_path o b s ustr body)
  unfolding with_path user_strdup
  with_path-Settles s ustr B body h =
      elim (strdup_in-Duplicated s ustr (o.kmalloc s.kern (ustr.as_len + 1)) refl) [
        | inl (c, e) ↦ inl (inl c, ap (λ m. m >>= path_copied o b body) e)
        | inr (p, t, e, d) ↦
            same (PathStop s ustr B) 0 s (with_path o b s ustr body) (path_copied o b body (p, t))
              (ap (λ m. m >>= path_copied o b body) e) (path-Settles s t ustr p B body e d h)
      ]

  second-Settles :
      (s t : Sys K) (ustr : Argstr) (p : Option Buffer) (B : Buffer → Sys K → Type 0)
      (body : Buffer → Sys K → Exec (Answer × Sys K))
      → 1 ≤ s.blocks
      → user_strdup o b s ustr ≡ returns (p, t)
      → Duplicated s p t
      → ((path : Buffer) (u : Sys K)
          → u.blocks ≡ s.blocks + 1
          → Settles (B path u) 2 u (body path u))
      → Settles (PathStop s ustr B) 1 s (second_copied o b body (p, t))
  second-Settles s t ustr none B body l q d h = inr (minus_one, _, refl, omega arith, λ _. refl)
  second-Settles s t ustr (some path) B body l q d h =
      shift (B path t) _ 2 1 s t (body path t) (λ x. inr (path, t, q, x)) (λ x e. omega arith)
        (h path t d)

  with_second-Settles :
      (s : Sys K) (ustr : Argstr) (B : Buffer → Sys K → Type 0)
      (body : Buffer → Sys K → Exec (Answer × Sys K))
      → 1 ≤ s.blocks
      → ((path : Buffer) (u : Sys K)
          → u.blocks ≡ s.blocks + 1
          → Settles (B path u) 2 u (body path u))
      → Settles (PathStop s ustr B) 1 s (with_second o b s ustr body)
  unfolding with_second user_strdup
  with_second-Settles s ustr B body l h =
      elim (strdup_in-Duplicated s ustr (o.kmalloc s.kern (ustr.as_len + 1)) refl) [
        | inl (c, e) ↦ inl (inl c, ap (λ m. m >>= second_copied o b body) e)
        | inr (p, t, e, d) ↦
            same (PathStop s ustr B) 1 s (with_second o b s ustr body)
              (second_copied o b body (p, t)) (ap (λ m. m >>= second_copied o b body) e)
              (second-Settles s t ustr p B body l e d h)
      ]

  -- Where a call with one path stops, and one with two paths.
  abbrev pub OneStop :
      Sys K → Buffer → ℕ → ℕ → (Buffer → Argstr) → (Buffer → Buffer → K → Exec (Ret ℕ × K)) → Type 0
  OneStop s stack arg size get f =
      ArgsStop o b s stack arg size
        λ kargs t. PathStop t (get kargs) λ path u. f kargs path u.kern ≡ panics

  abbrev pub TwoStop :
      Sys K
      → Buffer
      → ℕ
      → ℕ
      → (Buffer → Argstr)
      → (Buffer → Argstr)
      → (Buffer → Buffer → K → Exec (Ret ℕ × K))
      → Type 0
  TwoStop s stack arg size one two f =
      ArgsStop o b s stack arg size
        λ kargs t. PathStop t (one kargs) λ p u. PathStop u (two kargs) λ q v. f p q v.kern ≡ panics

  pub path_call-Settles :
      (s : Sys K) (stack : Buffer) (arg size : ℕ) (get : Buffer → Argstr)
      (f : Buffer → Buffer → K → Exec (Ret ℕ × K))
      → Settles (OneStop s stack arg size get f) 0 s (path_call o b s stack arg size get f)
  unfolding path_call
  path_call-Settles s stack arg size get f =
      with_args-Settles o b s stack arg size
        (λ kargs t. PathStop t (get kargs) λ path u. f kargs path u.kern ≡ panics) _
        λ kargs t _.
          with_path-Settles t (get kargs) (λ path u. f kargs path u.kern ≡ panics) _
            λ path u c. call_and_free-Settles 1 u (f kargs path) (omega arith)

  pub two_path_call-Settles :
      (s : Sys K) (stack : Buffer) (arg size : ℕ) (one two : Buffer → Argstr)
      (f : Buffer → Buffer → K → Exec (Ret ℕ × K))
      → Settles
          (TwoStop s stack arg size one two f)
          0
          s
          (two_path_call o b s stack arg size one two f)
  unfolding two_path_call
  two_path_call-Settles s stack arg size one two f =
      with_args-Settles o b s stack arg size
        (λ kargs t.
          PathStop t (one kargs) λ p u. PathStop u (two kargs) λ q v. f p q v.kern ≡ panics)
        _
        λ kargs t _.
          with_path-Settles t (one kargs)
            (λ p u. PathStop u (two kargs) λ q v. f p q v.kern ≡ panics) _
            λ p u c.
              with_second-Settles u (two kargs) (λ q v. f p q v.kern ≡ panics) _ (omega arith)
                λ q v d. call_and_free-Settles 2 v (f p q) (omega arith)
