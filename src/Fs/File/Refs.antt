-- ===== src/Fs/File/Refs.antt =====
-- The references to open files: what the calls on descriptors take and give back, against the
-- descriptors that hold a file.
use weenix.Prelude.{
  ℕ, zero, suc, ◌+◌, ◌<◌, ◌≡◌, refl, ◌⊎◌, inl, inr, Bool, false, ◌||◌, Option, none, some, List, [],
  ◌∷◌, if◌then◌else◌, ◌==◌, ltb, leb, add32, arith, Bool-cases, Option-cases, Exec, returns, Ret,
  done, fails, ebadf, ◌∙◌,
}
use weenix.Fs.State.{
  Vnodes, File, Call, file_get, file_put, vnode_get, vnode_put, Process, Limits, minus_one, IsFget,
}
use weenix.Fs.File.{
  is_negative, set_file, set_pos, get, put, advance, is_dir_file, read_vnode, read_file, read_found,
  do_read, Whence, seek_set, seek_cur, seek_end, seek_other, seek_pos, seek_to, seek_found,
  do_lseek,
}

-- How often a list of calls takes a reference to a file, and gives one back.
abbrev pub gets : ℕ → List Call → ℕ
gets f [] = 0
gets f (file_get g ∷ cs) = (if g == f then 1 else 0) + gets f cs
gets f (file_put g ∷ cs) = gets f cs
gets f (vnode_get v ∷ cs) = gets f cs
gets f (vnode_put v ∷ cs) = gets f cs

abbrev pub puts : ℕ → List Call → ℕ
puts f [] = 0
puts f (file_put g ∷ cs) = (if g == f then 1 else 0) + puts f cs
puts f (file_get g ∷ cs) = puts f cs
puts f (vnode_get v ∷ cs) = puts f cs
puts f (vnode_put v ∷ cs) = puts f cs

abbrev pub is_file : Option ℕ → ℕ → Bool
is_file none f = false
is_file (some g) f = g == f

-- How many of the first `n` descriptors hold a file.
pub holders : (ℕ → Option ℕ) → ℕ → ℕ → ℕ
holders files zero f = 0
holders files (suc n) f = (if is_file (files n) f then 1 else 0) + holders files n f

pub holders-set :
    (files : ℕ → Option ℕ) (n fd f : ℕ) (x : Option ℕ)
    → holders (λ i. if fd == i then x else files i) n f
        + (if ltb fd n then (if is_file (files fd) f then 1 else 0) else 0)
      ≡ holders files n f + (if ltb fd n then (if is_file x f then 1 else 0) else 0)
unfolding holders
holders-set files zero fd f x = ground arith
holders-set files (suc n) fd f x = ground (arith, holders-set files n fd f x)

pub fget-cases :
    (l : Limits)
    → IsFget l
    → (files : ℕ → Option ℕ) (fd : ℕ) → fd < minus_one
    → (l.fget files fd ≡ none)
      ⊎ ((f : ℕ) × (l.fget files fd ≡ some f) × (fd < l.nfiles) × (files fd ≡ some f))
fget-cases l laws files fd b = elim (Bool-cases (ltb fd l.nfiles)) [
  | inl h ↦ elim (Option-cases (files fd)) [
    | inl e ↦ inl (laws.inside files fd (ground arith) ∙ e)
    | inr (f, e) ↦ inr (f, laws.inside files fd (ground arith) ∙ e, ground arith, e)
  ]
  | inr h ↦ inl (laws.outside files fd (ground arith) b)
]

module _ {W : Type 0} (l : Limits) where
  -- Between two states, the descriptors that hold a file grow by the references that were taken less
  -- those that were given back.
  abbrev pub Keeps : Process W → Process W → Type 0
  Keeps s s' =
      (f : ℕ)
      → gets f s'.calls + (puts f s.calls + holders s.files l.nfiles f)
        ≡ gets f s.calls + (puts f s'.calls + holders s'.files l.nfiles f)

  -- The file of every descriptor has a vnode.
  abbrev pub Opened : Process W → Type 0
  Opened s =
      (fd f : ℕ) → fd < l.nfiles → s.files fd ≡ some f → (v : ℕ) × ((s.file f).vnode ≡ some v)

  -- The call returns, keeps the balance, and keeps the files of the descriptors open.
  abbrev pub Good : Process W → Exec (Ret ℕ × Process W) → Type 0
  Good s out = (r : Ret ℕ) × (s' : Process W) × (out ≡ returns (r, s')) × Keeps s s' × Opened s'

  pub vnode_of :
      (s : Process W) (g : ℕ) (x : File)
      → Opened s
      → (s.file g).vnode ≡ x.vnode
      → Opened (set_file s g x)
  vnode_of s g x o e fd f h p = let (v, q) = o fd f h p in (v, ground (arith, q))

  -- A call that takes a reference to a file and gives it back.
  pub advance-Opened :
      (s : Process W) (f : ℕ) (r : Ret ℕ) → Opened s → Opened (put (advance s f r) f)
  advance-Opened s f (done n) o =
      vnode_of s f (record (s.file f) { pos = add32 (s.file f).pos n }) o refl
  advance-Opened s f (fails e) o = o

  pub advance-Keeps :
      (s : Process W) (f : ℕ) (w : W) (r : Ret ℕ)
      → Keeps s (put (advance (record (get s f) { fs = w }) f r) f)
  advance-Keeps s f w (done n) g = ground arith
  advance-Keeps s f w (fails e) g = ground arith

  module _ (ops : Vnodes W) where
    read_file-Good :
        (s : Process W) (f v n : ℕ)
        → Opened s
        → (s.file f).vnode ≡ some v
        → Good s (read_file ops l (get s f) f n)
    unfolding read_file read_vnode
    read_file-Good s f v n o e = elim (Bool-cases (is_dir_file ops l s.fs (s.file f).vnode)) [
      | inl h ↦ rw h (_, put (get s f) f, refl, λ g. ground arith, o)
      | inr h ↦ elim (Bool-cases (s.file f).readable) [
        | inl q ↦
            let (r, w) = ops.read s.fs v (s.file f).pos n in
            rw (h, q, e)
              (
                r,
                put (advance (record (get s f) { fs = w }) f r) f,
                refl,
                advance-Keeps s f w r,
                advance-Opened (record (get s f) { fs = w }) f r o,
              )
        | inr q ↦ rw (h, q) (_, put (get s f) f, refl, λ g. ground arith, o)
      ]
    ]

    -- `do_read` of any number but -1 returns, gives back the reference that it takes, and leaves the
    -- files of the descriptors open.
    pub do_read-Good :
        (s : Process W) (fd n : ℕ)
        → IsFget l
        → Opened s
        → fd < minus_one
        → Good s (do_read ops l s fd n)
    unfolding do_read read_found
    do_read-Good s fd n laws o b = elim (fget-cases l laws s.files fd b) [
      | inl e ↦ rw e (fails ebadf, s, refl, λ g. ground arith, o)
      | inr (f, e, h, p) ↦ let (v, q) = o fd f h p in rw e (read_file-Good s f v n o q)
    ]

    -- The steps of a seek.
    seek_to-Good :
        (s : Process W) (f : ℕ) (p : Option ℕ)
        → Opened s
        → Good s (returns (seek_to ops l (get s f) f p))
    unfolding seek_to
    seek_to-Good s f none o = (_, put (get s f) f, refl, λ g. ground arith, o)
    seek_to-Good s f (some p) o = elim (Bool-cases (is_negative p)) [
      | inl h ↦ rw h (_, put (get s f) f, refl, λ g. ground arith, o)
      | inr h ↦ rw h (
        done p,
        put (set_pos (get s f) f p) f,
        refl,
        λ g. ground arith,
        vnode_of s f (record (s.file f) { pos = p }) o refl,
      )
    ]

    seek_pos-returns :
        (s : Process W) (f v offset : ℕ) (whence : Whence)
        → (s.file f).vnode ≡ some v
        → (p : Option ℕ) × (seek_pos ops l s f offset whence ≡ returns p)
    unfolding seek_pos
    seek_pos-returns s f v offset seek_set e = (_, refl)
    seek_pos-returns s f v offset seek_cur e = (_, refl)
    seek_pos-returns s f v offset seek_end e = rw e (_, refl)
    seek_pos-returns s f v offset seek_other e = (_, refl)

    pub do_lseek-Good :
        (s : Process W) (fd offset : ℕ) (whence : Whence)
        → IsFget l
        → Opened s
        → fd < minus_one
        → Good s (do_lseek ops l s fd offset whence)
    unfolding do_lseek seek_found
    do_lseek-Good s fd offset whence laws o b =
        elim (Bool-cases (is_negative fd || leb l.nfiles fd)) [
          | inl h ↦ rw h (fails ebadf, s, refl, λ g. ground arith, o)
          | inr h ↦ elim (fget-cases l laws s.files fd b) [
            | inl e ↦ rw (h, e) (fails ebadf, s, refl, λ g. ground arith, o)
            | inr (f, e, q, p) ↦
                let (v, t) = o fd f q p in
                let (p', runs) = seek_pos-returns (get s f) f v offset whence t in
                rw (h, e, runs) (seek_to-Good s f p' o)
          ]
        ]
