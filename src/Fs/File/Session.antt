-- ===== src/Fs/File/Session.antt =====
-- Sequences of calls on the descriptors of a process.
use weenix.Prelude.{
  ℕ, ◌<◌, ◌≡◌, refl, ◌⊎◌, none, arith, Exec, returns, panics, Ret, sym, subst, ap, ◌∙◌,
}
use weenix.Fs.State.{Vnodes, Process, Limits, minus_one, IsFget}
use weenix.Fs.File.{Whence, do_read, do_write, do_lseek, do_close, do_dup, do_dup2, do_getdent}
use weenix.Fs.File.Refs.{Keeps, Opened, Good, do_read-Good, do_lseek-Good}
use weenix.Fs.File.Descriptors.{do_close-Good, do_dup-Good, do_dup2-Good, do_getdent-Good}
use weenix.Fs.File.Write.{IsWrite, do_write-Good}

pub data FileCall : Type 0 where
  read : ℕ → ℕ → FileCall
  write : ℕ → ℕ → FileCall
  lseek : ℕ → ℕ → Whence → FileCall
  close : ℕ → FileCall
  dup : ℕ → FileCall
  dup2 : ℕ → ℕ → FileCall
  getdent : ℕ → FileCall

module _ {W : Type 0} (ops : Vnodes W) (l : Limits) where
  unfoldable pub run_call : Process W → FileCall → Exec (Ret ℕ × Process W)
  run_call s (read fd n) = do_read ops l s fd n
  run_call s (write fd n) = do_write ops l s fd n
  run_call s (lseek fd offset whence) = do_lseek ops l s fd offset whence
  run_call s (close fd) = returns (do_close ops l s fd)
  run_call s (dup fd) = do_dup ops l s fd
  run_call s (dup2 ofd nfd) = returns (do_dup2 ops l s ofd nfd)
  run_call s (getdent fd) = do_getdent ops l s fd

  -- No call is for -1, a `dup` finds a free descriptor, and a `dup2` overwrites no other one.
  abbrev pub Allowed : Process W → FileCall → Type 0
  Allowed s (read fd n) = fd < minus_one
  Allowed s (write fd n) = fd < minus_one
  Allowed s (lseek fd offset whence) = fd < minus_one
  Allowed s (close fd) = Unit {0}
  Allowed s (dup fd) = (free : ℕ) × (free < l.nfiles) × (s.files free ≡ none)
  Allowed s (dup2 ofd nfd) = (nfd ≡ ofd) ⊎ (s.files nfd ≡ none)
  Allowed s (getdent fd) = Unit {0}

  -- The states that a process reaches by such calls.
  pub data Session (s : Process W) : Process W → Type 0 where
    here : Session s s
    next :
        {t u : Process W} (c : FileCall) (r : Ret ℕ)
        → Session s t
        → Allowed t c
        → run_call t c ≡ returns (r, u)
        → Session s u

  -- Every allowed call on open files returns, and what it takes and gives back fits the descriptors.
  pub run_call-Good :
      (s : Process W) (c : FileCall)
      → IsFget l
      → IsWrite ops
      → Opened l s
      → Allowed s c
      → Good l s (run_call s c)
  unfolding run_call
  run_call-Good s (read fd n) laws wl o a = do_read-Good l ops s fd n laws o a
  run_call-Good s (write fd n) laws wl o a = do_write-Good ops l s fd n laws wl o a
  run_call-Good s (lseek fd offset whence) laws wl o a =
      do_lseek-Good l ops s fd offset whence laws o a
  run_call-Good s (close fd) laws wl o a = do_close-Good l ops s fd o
  run_call-Good s (dup fd) laws wl o (free, b, p) = do_dup-Good l ops s fd free laws o b p
  run_call-Good s (dup2 ofd nfd) laws wl o a = do_dup2-Good l ops s ofd nfd laws o a
  run_call-Good s (getdent fd) laws wl o a = do_getdent-Good l ops s fd laws o

  same_state :
      (r q : Ret ℕ) (s t : Process W)
      → ◌≡◌ {A = Exec (Ret ℕ × Process W)} (returns (r, s)) (returns (q, t))
      → s ≡ t
  same_state r q s t e = ap (λ x. elim x as (λ y. Process W) [ returns (_, u) ↦ u | panics ↦ s ]) e

  -- After any sequence of reads, writes, seeks, closes, dups and directory reads, where no call is
  -- for -1, each `dup` finds a free descriptor and each `dup2` overwrites no other one: every file
  -- has as many references more as descriptors more, and the file of every descriptor is open.
  -- (Given that this last holds at first, the laws of `fget`, and those of the writes.)
  pub Session-Keeps :
      (s s' : Process W)
      → IsFget l
      → IsWrite ops
      → Opened l s
      → Session s s'
      → Keeps l s s' × Opened l s'
  Session-Keeps s s' laws wl o here = (λ f. refl, o)
  Session-Keeps s s' laws wl o (next {t} {u} c r h a e) =
      let (k, o') = Session-Keeps s t laws wl o h in
      let (q, v, runs, k', o'') = run_call-Good t c laws wl o' a in
      let same : v ≡ s' = same_state q r v s' (sym runs ∙ e) in
      subst (λ z. Keeps l s z × Opened l z) same ((λ f. omega (arith, k f, k' f)), o'')
