-- ===== src/Fs/Namev/Words.antt =====
-- The walk of `dir_namev` against the list of the words of the path.
use mathlib.Core.Path.{fun_ext}
use weenix.Prelude.{
  ℕ, zero, suc, ◌≤◌, ◌<◌, ◌≡◌, refl, Bool, true, false, not, Option, none, some, List, [], ◌∷◌,
  length, if◌then◌else◌, ◌==◌, arith, Bool-cases, inl, inr, Exec, returns, ◌>>=◌, Ret, done, ◌∙◌,
  ap,
}
use weenix.Fs.State.{Vnodes, Process, Limits}
use weenix.Fs.Namev.{
  slash, skip_slashes, component, after_component, put_prev, after_lookup, lookup, walk,
}

abbrev pub begins : List ℕ → Bool
begins [] = false
begins (c ∷ cs) = not (c == slash)

abbrev pub join : ℕ → Bool → List (List ℕ) → List (List ℕ)
join c true (w ∷ ws) = (c ∷ w) ∷ ws
join c true [] = (c ∷ []) ∷ []
join c false ws = (c ∷ []) ∷ ws

-- The words between the slashes, without the empty ones.
unfoldable pub words : List ℕ → List (List ℕ)
words [] = []
words (c ∷ cs) = if c == slash then words cs else join c (begins cs) (words cs)

words-skip_slashes : (cs : List ℕ) → words (skip_slashes cs) ≡ words cs
unfolding words skip_slashes
words-skip_slashes [] = refl
words-skip_slashes (c ∷ cs) = ground (arith, words-skip_slashes cs)

-- A word is read off the front.
words-component :
    (cs : List ℕ) → begins cs ≡ true → words cs ≡ component cs ∷ words (after_component cs)
unfolding words component after_component
words-component [] h = cc
words-component (c ∷ []) h = ground arith
words-component (c ∷ d ∷ cs) h = elim (Bool-cases (d == slash)) [
  | inl e ↦ ground arith
  | inr e ↦ ground (arith, words-component (d ∷ cs) (ground arith))
]

after_component-length : (cs : List ℕ) → length (after_component cs) ≤ length cs
unfolding after_component
after_component-length [] = omega arith
after_component-length (c ∷ cs) = ground (arith, after_component-length cs)

after_first :
    (c : ℕ) (cs : List ℕ) → begins (c ∷ cs) ≡ true → length (after_component (c ∷ cs)) ≤ length cs
unfolding after_component
after_first c cs h = ground (arith, after_component-length cs)

skip_slashes-length : (cs : List ℕ) → length (skip_slashes cs) ≤ length cs
unfolding skip_slashes
skip_slashes-length [] = omega arith
skip_slashes-length (c ∷ cs) = ground (arith, skip_slashes-length cs)

skip_slashes-begins : (c : ℕ) (cs ds : List ℕ) → skip_slashes ds ≡ c ∷ cs → begins (c ∷ cs) ≡ true
unfolding skip_slashes
skip_slashes-begins c cs [] e = cc
skip_slashes-begins c cs (d ∷ ds) e = elim (Bool-cases (d == slash)) [
  | inl h ↦ skip_slashes-begins c cs ds (ground arith)
  | inr h ↦ ground arith
]

module _ {W : Type 0} (ops : Vnodes W) (l : Limits) where
  -- One lookup for each word, from the vnode of the one before.
  unfoldable pub walk_words :
      Process W → ℕ → Option ℕ → List (List ℕ) → Exec (Ret (Option ℕ) × Process W)
  walk_words s base prev [] = returns (done prev, s)
  walk_words s base prev (w ∷ ws) = do
    (r, s') ← lookup ops l s base (some w)
    let s2 = put_prev s' prev
    after_lookup r s2 (λ v. walk_words s2 v (some v) ws)

  walk_rest :
      (fuel : ℕ) (s : Process W) (base : ℕ) (prev : Option ℕ) (cs ds : List ℕ)
      → skip_slashes ds ≡ cs
      → length cs < fuel
      → walk ops l fuel s base prev cs ≡ walk_words s base prev (words cs)
  unfolding walk walk_words
  walk_rest zero s base prev cs ds e h = absurd (omega arith)
  walk_rest (suc fuel) s base prev [] ds e h = unfold words in refl
  walk_rest (suc fuel) s base prev (c ∷ cs) ds e h =
      let first = skip_slashes-begins c cs ds e in
      let rest = after_component (c ∷ cs) in
      rw (words-component (c ∷ cs) first) (
        ap
          (λ (k : Process W → ℕ → Exec (Ret (Option ℕ) × Process W)).
            lookup ops l s base (some (component (c ∷ cs))) >>= λ x.
            after_lookup x.0 (put_prev x.1 prev) (k (put_prev x.1 prev)))
          (fun_ext λ t. fun_ext λ v.
            walk_rest fuel t v (some v) (skip_slashes rest) rest refl
              (omega (arith, after_first c cs first, skip_slashes-length rest))
            ∙ ap (walk_words t v (some v)) (words-skip_slashes rest)))

  -- The loop of `dir_namev` never runs out of fuel: on the directory part of a path it looks up the
  -- words between the slashes one after the other, each in the vnode that the last one gave.
  pub walk-words :
      (s : Process W) (base : ℕ) (path : List ℕ)
      → walk ops l (suc (length (skip_slashes path))) s base none (skip_slashes path)
        ≡ walk_words s base none (words path)
  walk-words s base path =
      walk_rest (suc (length (skip_slashes path))) s base none (skip_slashes path) path refl
        (omega arith)
      ∙ ap (walk_words s base none) (words-skip_slashes path)
