-- ===== src/Fs/Path/Open.antt =====
-- `do_open`: the descriptor, the file and the vnode of an open, and what a failure undoes.
use mathlib.Core.Path.{fun_ext}
use weenix.Prelude.{
  ℕ, ◌<◌, ◌≡◌, ◌≢◌, refl, false, ◌&&◌, ◌||◌, Option, none, some, List, [], ◌∷◌, arith, Bool-cases,
  inl, inr, returns, Ret, done, fails, Errno, eisdir, einval, sym, ◌∙◌, ap,
}
use weenix.Fs.State.{Vnodes, File, Process, Limits, minus_one, IsTree}
use weenix.Fs.File.{is_dir, get_empty_fd, set_fd, set_file, get, put}
use weenix.Fs.File.Refs.{gets, puts, holders, holders-set, Keeps}
use weenix.Fs.File.Descriptors.{Lowest, get_empty_fd-Lowest}
use weenix.Fs.Namev.{start_base, vput, open_namev}
use weenix.Fs.Namev.Refs.{Holds, Gives, open_namev-Gives}
use weenix.Fs.Namev.Total.{IsPath, open_namev-returns, ends_at}
use weenix.Fs.Namev.Frame.{IsFrame, open_namev-After}
use weenix.Fs.Path.{OpenFlags, fresh_file, open_vnode, do_open}

free-Lowest :
    (files : ℕ → Option ℕ) (n fd : ℕ) (r : Option ℕ)
    → r ≡ some fd
    → Lowest files 0 n r
    → (fd < n) × (files fd ≡ none)
free-Lowest files n fd none e h = cc
free-Lowest files n fd (some x) e (a, b, c, d) = (ground (arith, e), ground (arith, e))

get_empty_fd-free :
    (l : Limits) (files : ℕ → Option ℕ) (fd : ℕ)
    → get_empty_fd l files ≡ some fd
    → (fd < l.nfiles) × (files fd ≡ none)
get_empty_fd-free l files fd e =
    free-Lowest files l.nfiles fd (get_empty_fd l files) e (get_empty_fd-Lowest l files)

module _ {W : Type 0} where
  -- The descriptors and the references to files are the same.
  abbrev SameFiles : Process W → Process W → Type 0
  SameFiles s t =
      (t.files ≡ s.files)
      × ((f : ℕ) → gets f t.calls ≡ gets f s.calls)
      × ((f : ℕ) → puts f t.calls ≡ puts f s.calls)

  SameFiles-IsFrame : (s : Process W) → IsFrame (SameFiles s)
  SameFiles-IsFrame s = record { changed = λ t w h. h; taken = λ t v h. h; returned = λ t v h. h }

  start_base_same :
      (s t : Process W) (path : List ℕ)
      → t.cwd ≡ s.cwd
      → t.root ≡ s.root
      → start_base t path none ≡ start_base s path none
  start_base_same s t [] p q = p
  start_base_same s t (c ∷ cs) p q = rw (p, q) refl

  module _ (l : Limits) where
    -- What an open that returns has done: on success the descriptor was free and holds a file that is
    -- open on a vnode, for which there is one reference more; otherwise the descriptors are as before
    -- and there is none. In both cases the references to files fit the descriptors.
    abbrev pub Opens : Process W → Ret ℕ × Process W → Type 0
    Opens s (fails e, t) = ((i : ℕ) → t.files i ≡ s.files i) × Keeps l s t × Holds s t []
    Opens s (done fd, t) =
        (s.files fd ≡ none)
        × ((i : ℕ) → fd ≢ i → t.files i ≡ s.files i)
        × Keeps l s t
        × ((f : ℕ) × (v : ℕ) × (t.files fd ≡ some f)
            × ((t.file f).vnode ≡ some v)
            × Holds s t (v ∷ []))

    -- The state in which the path is looked up.
    abbrev opening : Process W → ℕ → ℕ → File → Process W
    opening s fd f x = set_fd (set_file (get s f) f x) fd (some f)

    undone :
        (s t : Process W) (fd f : ℕ) (x : File) (e : Errno)
        → s.files fd ≡ none
        → SameFiles (opening s fd f x) t
        → Holds (opening s fd f x) t []
        → Opens s (fails e, set_fd (put t f) fd none)
    undone s t fd f x e free (p, g, q) h =
        let same : (set_fd (put t f) fd none).files ≡ s.files =
          fun_ext (λ i. rw p (ground (arith, free))) in
        (
          λ i. ap (λ z. z i) same,
          λ u.
              let balance : holders (set_fd (put t f) fd none).files l.nfiles u
                  ≡ holders s.files l.nfiles u =
                ap (λ z. holders z l.nfiles u) same in
              omega (arith, balance, g u, q u),
          λ v. ground (arith, h v),
        )

    opened :
        (s t : Process W) (fd f v : ℕ) (x y : File)
        → fd < l.nfiles
        → s.files fd ≡ none
        → y.vnode ≡ some v
        → SameFiles (opening s fd f x) t
        → Holds (opening s fd f x) t (v ∷ [])
        → Opens s (done fd, set_file t f y)
    opened s t fd f v x y b free e (p, g, q) h =
        let other : (i : ℕ) → fd ≢ i → t.files i ≡ s.files i = λ i n. rw p (ground arith) in
        let own : t.files fd ≡ some f = rw p (ground arith) in
        (
          free,
          other,
          λ u.
              let balance : holders t.files l.nfiles u
                  ≡ holders (opening s fd f x).files l.nfiles u =
                ap (λ z. holders z l.nfiles u) p in
              ground (arith, balance, g u, q u, holders-set s.files l.nfiles fd u (some f)),
          (f, v, own, ground (arith, e), λ u. ground (arith, h u)),
        )

    module _ (ops : Vnodes W) where
      open_vnode-Opens :
          (s t : Process W) (fd f : ℕ) (x : File) (o : OpenFlags) (r : Ret ℕ)
          → fd < l.nfiles
          → s.files fd ≡ none
          → SameFiles (opening s fd f x) t
          → Gives (opening s fd f x) [] (r, t)
          → (y : Ret ℕ × Process W) × (returns y ≡ open_vnode ops l fd f o (r, t)) × Opens s y
      unfolding open_vnode
      open_vnode-Opens s t fd f x o (fails e) b free k h = (_, refl, undone s t fd f x e free k h)
      open_vnode-Opens s t fd f x o (done v) b free k h =
          elim (Bool-cases (is_dir (ops.kind t.fs v) && (o.wronly || o.rdwr))) [
            | inl q ↦
                rw q (_, refl, undone s (vput t v) fd f x eisdir free k (λ u. ground (arith, h u)))
            | inr q ↦ rw q (
              _,
              refl,
              opened s t fd f v x (record (t.file f) { vnode = some v; pos = 0 }) b free refl k h,
            )
          ]

      do_open_step :
          (s : Process W) (path : List ℕ) (o : OpenFlags) (fd f : ℕ) (z : Ret ℕ × Process W)
          → (o.wronly && o.rdwr) ≡ false
          → get_empty_fd l s.files ≡ some fd
          → l.fget s.files minus_one ≡ some f
          → open_namev ops l (opening s fd f (fresh_file ops l o)) path o.creat none ≡ returns z
          → do_open ops l s path o ≡ open_vnode ops l fd f o z
      unfolding do_open
      do_open_step s path o fd f z h e q runs = rw (h, e, q, runs) refl

      -- `do_open` of a path that leads through directories to a name, where `get_empty_fd` finds a free
      -- descriptor and `fget(-1)` a new file: it returns. If it succeeds, the descriptor that it gives
      -- was free and holds a file on the vnode found, for which there is one reference; if not, the
      -- descriptors are as before and there is none. No other descriptor changes, and the references to
      -- files fit the descriptors.
      pub do_open_lem :
          (s : Process W) (path : List ℕ) (o : OpenFlags) (fd f : ℕ)
          → IsTree ops
          → IsPath ops l s path
          → get_empty_fd l s.files ≡ some fd
          → l.fget s.files minus_one ≡ some f
          → (y : Ret ℕ × Process W) × (do_open ops l s path o ≡ returns y) × Opens s y
      unfolding do_open
      do_open_lem s path o fd f laws p e q = elim (Bool-cases (o.wronly && o.rdwr)) [
        | inl h ↦ rw h ((fails einval, s), refl, (λ i. refl, λ u. ground arith, λ u. ground arith))
        | inr h ↦
            let x = fresh_file ops l o in
            let s' = opening s fd f x in
            let (b, free) = get_empty_fd-free l s.files fd e in
            let p' : IsPath ops l s' path = record {
              from = p.from;
              starts = start_base_same s s' path refl refl ∙ p.starts;
              searched = p.searched;
              walkable = p.walkable;
              first = p.first;
              more = p.more;
              named = p.named;
            } in
            let (z, runs) = open_namev-returns ops l s' path o.creat laws p' in
            let same =
              open_namev-After ops l (SameFiles s') (SameFiles-IsFrame s') s' path o.creat none
                (refl, λ g. refl, λ g. refl) in
            let k =
              ends_at ops l (λ r. SameFiles s' r.1) (open_namev ops l s' path o.creat none) z runs
                same in
            let g =
              ends_at ops l (Gives s' []) (open_namev ops l s' path o.creat none) z runs
                (open_namev-Gives ops l s' path o.creat none) in
            let (y, ends, opens) = open_vnode-Opens s z.1 fd f x o z.0 b free k g in
            (y, do_open_step s path o fd f z h e q runs ∙ sym ends, opens)
      ]
