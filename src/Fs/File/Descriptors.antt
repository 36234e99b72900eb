-- ===== src/Fs/File/Descriptors.antt =====
-- `get_empty_fd`, `do_close`, `do_dup`, `do_dup2` and `do_getdent`: the table of descriptors and the
-- references of its files.
use weenix.Prelude.{
  ℕ, zero, suc, ◌+◌, ◌≤◌, ◌<◌, ◌≡◌, ◌≢◌, refl, ◌⊎◌, inl, inr, false, ◌||◌, Option, none, some, ◌==◌,
  leb, arith, Bool-cases, Option-cases, returns, Ret, done, fails, ebadf, enotdir, subst,
}
use weenix.Fs.State.{Vnodes, Process, Limits, IsFget}
use weenix.Fs.File.{
  is_negative, first_free, empty_from, get_empty_fd, set_fd, get, put, advance, close_file,
  do_close, dup_file, dup_found, do_dup, dup2_found, do_dup2, is_zero, getdent_vnode, getdent_file,
  getdent_found, do_getdent,
}
use weenix.Fs.File.Refs.{
  gets, puts, holders, holders-set, Opened, Good, fget-cases, advance-Opened, advance-Keeps,
}

-- The lowest free descriptor, or none if all are taken.
abbrev pub Lowest : (ℕ → Option ℕ) → ℕ → ℕ → Option ℕ → Type 0
Lowest files lo hi none = (i : ℕ) → lo ≤ i → i < hi → (f : ℕ) × (files i ≡ some f)
Lowest files lo hi (some fd) =
    (lo ≤ fd)
    × (fd < hi)
    × (files fd ≡ none)
    × ((i : ℕ) → lo ≤ i → i < fd → (f : ℕ) × (files i ≡ some f))

Lowest-down :
    (files : ℕ → Option ℕ) (lo hi f : ℕ) (r : Option ℕ)
    → files lo ≡ some f
    → Lowest files (lo + 1) hi r
    → Lowest files lo hi r
Lowest-down files lo hi f none e h = λ i a b. elim (Bool-cases (lo == i)) [
  | inl q ↦ (f, subst (λ j. files j ≡ some f) (ground arith) e)
  | inr q ↦ h i (ground arith) b
]
Lowest-down files lo hi f (some fd) e (a, b, c, d) = (
  omega arith,
  b,
  c,
  λ i p r. elim (Bool-cases (lo == i)) [
    | inl q ↦ (f, subst (λ j. files j ≡ some f) (ground arith) e)
    | inr q ↦ d i (ground arith) r
  ],
)

empty_from-Lowest :
    (files : ℕ → Option ℕ) (n fd : ℕ) → Lowest files fd (fd + n) (empty_from files fd n)
unfolding empty_from
empty_from-Lowest files zero fd = λ i a b. absurd (omega arith)
empty_from-Lowest files (suc n) fd = elim (Option-cases (files fd)) [
  | inl e ↦ rw (e, first_free) (omega arith, omega arith, e, λ i a b. absurd (omega arith))
  | inr (f, e) ↦
      rw (e, first_free)
        (Lowest-down files fd (fd + suc n) f (empty_from files (fd + 1) n) e (
          subst (λ h. Lowest files (fd + 1) h (empty_from files (fd + 1) n)) (omega arith)
            (empty_from-Lowest files n (fd + 1))))
]

-- `get_empty_fd` gives the lowest free descriptor, and -EMFILE only if all are taken.
pub get_empty_fd-Lowest :
    (l : Limits) (files : ℕ → Option ℕ) → Lowest files 0 l.nfiles (get_empty_fd l files)
unfolding get_empty_fd
get_empty_fd-Lowest l files =
    subst (λ n. Lowest files 0 n (empty_from files 0 l.nfiles)) (omega arith)
      (empty_from-Lowest files l.nfiles 0)

free_fd :
    (files : ℕ → Option ℕ) (n free : ℕ) (r : Option ℕ)
    → Lowest files 0 n r
    → free < n
    → files free ≡ none
    → (fd : ℕ) × (r ≡ some fd) × (fd < n) × (files fd ≡ none)
free_fd files n free none h b e = let (f, q) = h free (omega arith) b in absurd (cc)
free_fd files n free (some fd) (_, b', c, _) b e = (fd, refl, b', c)

module _ {W : Type 0} (l : Limits) where
  set_fd-Opened :
      (s : Process W) (fd : ℕ) (x : Option ℕ)
      → Opened l s
      → ((f : ℕ) → x ≡ some f → (v : ℕ) × ((s.file f).vnode ≡ some v))
      → Opened l (set_fd s fd x)
  set_fd-Opened s fd x o h i f b p = elim (Bool-cases (fd == i)) [
    | inl e ↦ h f (ground arith)
    | inr e ↦ o i f b (ground arith)
  ]

  module _ (ops : Vnodes W) where
    -- `do_close` gives back the reference of the descriptor that it frees.
    pub do_close-Good :
        (s : Process W) (fd : ℕ) → Opened l s → Good l s (returns (do_close ops l s fd))
    unfolding do_close close_file
    do_close-Good s fd o = elim (Bool-cases (is_negative fd || leb l.nfiles fd)) [
      | inl h ↦ rw h (fails ebadf, s, refl, λ g. ground arith, o)
      | inr h ↦ elim (Option-cases (s.files fd)) [
        | inl e ↦ rw (h, e) (fails ebadf, s, refl, λ g. ground arith, o)
        | inr (f, e) ↦
            rw (h, e)
              (
                done 0,
                set_fd (put s f) fd none,
                refl,
                λ g. ground (arith, holders-set s.files l.nfiles fd g none),
                set_fd-Opened (put s f) fd none o (λ f p. cc),
              )
      ]
    ]

    -- A descriptor that is free before is set to a file that is open.
    hand_out :
        (s : Process W) (f fd v : ℕ)
        → Opened l s
        → (s.file f).vnode ≡ some v
        → fd < l.nfiles
        → s.files fd ≡ none
        → Good l s (returns (done fd, set_fd (get s f) fd (some f)))
    hand_out s f fd v o e b p = (
      done fd,
      set_fd (get s f) fd (some f),
      refl,
      λ g. ground (arith, holders-set s.files l.nfiles fd g (some f)),
      set_fd-Opened (get s f) fd (some f) o (λ g q. (v, ground arith)),
    )

    -- `do_dup` where some descriptor is free returns, and the reference that it takes is that of the
    -- new descriptor.
    pub do_dup-Good :
        (s : Process W) (fd free : ℕ)
        → IsFget l
        → Opened l s
        → free < l.nfiles
        → s.files free ≡ none
        → Good l s (do_dup ops l s fd)
    unfolding do_dup dup_found dup_file
    do_dup-Good s fd free laws o b p = elim (Bool-cases (is_negative fd || leb l.nfiles fd)) [
      | inl h ↦ rw h (fails ebadf, s, refl, λ g. ground arith, o)
      | inr h ↦
          let (new, found, nb, np) =
            free_fd s.files l.nfiles free (get_empty_fd l s.files) (get_empty_fd-Lowest l s.files) b
              p in
          elim (fget-cases l laws s.files fd (ground (arith, laws.small))) [
            | inl e ↦ rw (h, e) (fails ebadf, s, refl, λ g. ground arith, o)
            | inr (f, e, q, t) ↦
                let (v, u) = o fd f q t in rw (h, e, found) (hand_out s f new v o u nb np)
          ]
    ]

    -- `do_dup2` to a descriptor that is free or is the same keeps the references right.
    pub do_dup2-Good :
        (s : Process W) (ofd nfd : ℕ)
        → IsFget l
        → Opened l s
        → (nfd ≡ ofd) ⊎ (s.files nfd ≡ none)
        → Good l s (returns (do_dup2 ops l s ofd nfd))
    unfolding do_dup2 dup2_found
    do_dup2-Good s ofd nfd laws o free = elim (Bool-cases (is_negative ofd || leb l.nfiles ofd)) [
      | inl h ↦ rw h (fails ebadf, s, refl, λ g. ground arith, o)
      | inr h ↦ elim (Bool-cases (is_negative nfd || leb l.nfiles nfd)) [
        | inl k ↦ rw (h, k) (fails ebadf, s, refl, λ g. ground arith, o)
        | inr k ↦ elim (fget-cases l laws s.files ofd (ground (arith, laws.small))) [
          | inl e ↦ rw (h, k, e) (fails ebadf, s, refl, λ g. ground arith, o)
          | inr (f, e, q, t) ↦
              let (v, u) = o ofd f q t in
              elim (Bool-cases (nfd == ofd)) [
                | inl m ↦
                    rw (h, k, e, m)
                      (
                        done nfd,
                        put (set_fd (get s f) nfd (some f)) f,
                        refl,
                        λ g. ground (arith, holders-set s.files l.nfiles nfd g (some f)),
                        set_fd-Opened s nfd (some f) o (λ g q. (v, ground arith)),
                      )
                | inr m ↦
                    let open_slot : s.files nfd ≡ none = ground arith in
                    rw (h, k, e, m) (hand_out s f nfd v o u (ground arith) open_slot)
              ]
        ]
      ]
    ]

    -- `do_dup2` to a descriptor that holds another file overwrites it: the call gives back no
    -- reference, and the file has one descriptor less.
    pub do_dup2_leak :
        (s : Process W) (ofd nfd f g : ℕ)
        → IsFget l
        → ofd < l.nfiles
        → nfd < l.nfiles
        → s.files ofd ≡ some f
        → s.files nfd ≡ some g
        → f ≢ g
        → (s' : Process W) × (do_dup2 ops l s ofd nfd ≡ (done nfd, s'))
          × (gets g s'.calls ≡ gets g s.calls)
          × (puts g s'.calls ≡ puts g s.calls)
          × (holders s'.files l.nfiles g + 1 ≡ holders s.files l.nfiles g)
    unfolding do_dup2 dup2_found
    do_dup2_leak s ofd nfd f g laws a b p q n =
        let first : (is_negative ofd || leb l.nfiles ofd) ≡ false = ground (arith, laws.small) in
        let second : (is_negative nfd || leb l.nfiles nfd) ≡ false = ground (arith, laws.small) in
        let other : (nfd == ofd) ≡ false = ground arith in
        (
          set_fd (get s f) nfd (some f),
          rw (first, second, laws.inside s.files ofd a, p, other) refl,
          ground arith,
          refl,
          ground (arith, holders-set s.files l.nfiles nfd g (some f)),
        )

    getdent_vnode-Good :
        (s : Process W) (f : ℕ) (r : Ret ℕ) (w : W)
        → Opened l s
        → Good l s (returns (getdent_vnode ops l (get s f) f (r, w)))
    unfolding getdent_vnode
    getdent_vnode-Good s f r w o = elim (Bool-cases (is_zero ops l r)) [
      | inl h ↦ rw h (done 0, put (record (get s f) { fs = w }) f, refl, λ g. ground arith, o)
      | inr h ↦ rw h (
        done l.dirent_size,
        put (advance (record (get s f) { fs = w }) f r) f,
        refl,
        advance-Keeps l s f w r,
        advance-Opened l (record (get s f) { fs = w }) f r o,
      )
    ]

    getdent_file-Good :
        (s : Process W) (f v : ℕ)
        → Opened l s
        → (s.file f).vnode ≡ some v
        → Good l s (getdent_file ops l (get s f) f)
    unfolding getdent_file
    getdent_file-Good s f v o q = elim (Bool-cases (ops.has_readdir s.fs v)) [
      | inl h ↦
          let (r, w) = ops.readdir s.fs v (s.file f).pos in rw (q, h) (getdent_vnode-Good s f r w o)
      | inr h ↦ rw (q, h) (fails enotdir, put (get s f) f, refl, λ g. ground arith, o)
    ]

    pub do_getdent-Good :
        (s : Process W) (fd : ℕ) → IsFget l → Opened l s → Good l s (do_getdent ops l s fd)
    unfolding do_getdent getdent_found
    do_getdent-Good s fd laws o = elim (Bool-cases (is_negative fd || leb l.nfiles fd)) [
      | inl h ↦ rw h (fails ebadf, s, refl, λ g. ground arith, o)
      | inr h ↦ elim (Option-cases (s.files fd)) [
        | inl e ↦ rw (h, e) (fails ebadf, s, refl, λ g. ground arith, o)
        | inr (f, e) ↦
            let (v, u) = o fd f (ground arith) e in
            rw (h, e, laws.inside s.files fd (ground arith), e) (getdent_file-Good s f v o u)
      ]
    ]
