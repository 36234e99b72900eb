-- ===== src/Fs/File/Write.antt =====
-- `do_write`: its references, and the KASSERT after the write.
use weenix.Prelude.{
  ℕ, ◌+◌, ◌≤◌, ◌<◌, ◌≡◌, ◌≢◌, refl, inl, inr, true, false, ◌||◌, some, if◌then◌else◌, ◌==◌, leb,
  add32, arith, Bool-cases, returns, ◌>>=◌, deref, Ret, done, fails, ebadf,
}
use weenix.Fs.State.{Kind, dir, reg, chr, blk, Vnodes, Process, Limits, minus_one, IsFget}
use weenix.Fs.File.{
  is_negative, set_pos, get, put, advance, seek_end, seek_pos, seek_to, seek_found, do_lseek,
  write_ok, write_vnode, write_file, write_found, do_write,
}
use weenix.Fs.File.Refs.{
  gets, puts, holders, Keeps, Opened, Good, fget-cases, vnode_of, advance-Opened,
}

-- What the file systems promise of a write that does not fail: it is not to a directory, and a
-- regular file is at least as long as the position and the bytes written together.
pub record IsWrite {W : Type 0} (ops : Vnodes W) : Type 0 where
  pub not_dir :
      (w : W) (v pos n k : ℕ)
      → (ops.write w v pos n).0 ≡ done k
      → ops.kind (ops.write w v pos n).1 v ≢ dir
  pub long :
      (w : W) (v pos n k : ℕ)
      → (ops.write w v pos n).0 ≡ done k
      → ops.kind (ops.write w v pos n).1 v ≡ reg
      → pos + k ≤ ops.len (ops.write w v pos n).1 v

module _ {W : Type 0} (ops : Vnodes W) (l : Limits) where
  -- The state `t` holds one reference to `f` more than it did at `s`.
  abbrev Holds : Process W → Process W → ℕ → Type 0
  Holds s t f =
      (g : ℕ)
      → gets g t.calls + (puts g s.calls + holders s.files l.nfiles g)
        ≡ gets g s.calls + (puts g t.calls + holders t.files l.nfiles g) + (if f == g then 1 else 0)

  put-Keeps :
      (s t : Process W) (f : ℕ) (w : W) (r : Ret ℕ)
      → Holds s t f
      → Keeps l s (put (advance (record t { fs = w }) f r) f)
  put-Keeps s t f w (done n) h g = ground (arith, h g)
  put-Keeps s t f w (fails e) h g = ground (arith, h g)

  write_ok_lem :
      (t : Process W) (f v n : ℕ) (r : Ret ℕ) (k : Kind)
      → IsWrite ops
      → (ops.write t.fs v (t.file f).pos n).0 ≡ r
      → ops.kind (ops.write t.fs v (t.file f).pos n).1 v ≡ k
      → write_ok ops l (advance (record t { fs = (ops.write t.fs v (t.file f).pos n).1 }) f r) f v r
        ≡ true
  write_ok_lem t f v n (fails e) k laws h q = refl
  write_ok_lem t f v n (done b) dir laws h q = absurd (laws.not_dir t.fs v (t.file f).pos n b h q)
  write_ok_lem t f v n (done b) chr laws h q = ground arith
  write_ok_lem t f v n (done b) blk laws h q = ground arith
  write_ok_lem t f v n (done b) reg laws h q =
      ground (arith, laws.long t.fs v (t.file f).pos n b h q)

  write_vnode-Good :
      (s t : Process W) (f v n : ℕ)
      → IsWrite ops
      → Opened l t
      → Holds s t f
      → Good l s (write_vnode ops l t f v (ops.write t.fs v (t.file f).pos n))
  unfolding write_vnode
  write_vnode-Good s t f v n laws o h =
      let (r, w) = ops.write t.fs v (t.file f).pos n in
      rw (write_ok_lem t f v n r (ops.kind w v) laws refl refl) (
        r,
        put (advance (record t { fs = w }) f r) f,
        refl,
        put-Keeps s t f w r h,
        advance-Opened l (record t { fs = w }) f r o,
      )

  -- The seek of an append.
  append_seek :
      (s : Process W) (fd f v : ℕ)
      → IsFget l
      → fd < l.nfiles
      → s.files fd ≡ some f
      → (s.file f).vnode ≡ some v
      → do_lseek ops l s fd 0 seek_end
        ≡ returns (seek_to ops l (get s f) f (some (add32 (ops.len s.fs v) 0)))
  unfolding do_lseek seek_found seek_pos
  append_seek s fd f v laws b e q =
      let inside : (is_negative fd || leb l.nfiles fd) ≡ false = ground (arith, laws.small) in
      rw (inside, laws.inside s.files fd b, e, q) refl

  appended-Good :
      (s : Process W) (f v n p : ℕ)
      → IsWrite ops
      → Opened l s
      → (s.file f).vnode ≡ some v
      → Good l s (
          (returns (seek_to ops l (get (get s f) f) f (some p)) >>= λ u.
          deref (u.1.file f).vnode >>= λ v.
          write_vnode ops l u.1 f v (ops.write u.1.fs v (u.1.file f).pos n)))
  unfolding seek_to
  appended-Good s f v n p laws o e = elim (Bool-cases (is_negative p)) [
    | inl h ↦
        rw (h, e) (write_vnode-Good s (put (get (get s f) f) f) f v n laws o (λ g. ground arith))
    | inr h ↦
        let t = put (set_pos (get (get s f) f) f p) f in
        let q : (t.file f).vnode ≡ some v = ground arith in
        rw (h, q)
          (write_vnode-Good s t f v n laws (vnode_of l s f (record (s.file f) { pos = p }) o refl)
            (λ g. ground arith))
  ]

  -- `do_write` of any number but -1 returns: the KASSERT after the write does not fail, the call gives
  -- back its references, the one of the seek of an append included, and it leaves the files of the
  -- descriptors open.
  pub do_write-Good :
      (s : Process W) (fd n : ℕ)
      → IsFget l
      → IsWrite ops
      → Opened l s
      → fd < minus_one
      → Good l s (do_write ops l s fd n)
  unfolding do_write write_found write_file
  do_write-Good s fd n laws wl o b = elim (fget-cases l laws s.files fd b) [
    | inl e ↦ rw e (fails ebadf, s, refl, λ g. ground arith, o)
    | inr (f, e, h, p) ↦
        let (v, q) = o fd f h p in
        elim (Bool-cases (s.file f).writable) [
          | inr t ↦ rw (e, t) (fails ebadf, put (get s f) f, refl, λ g. ground arith, o)
          | inl t ↦ elim (Bool-cases (s.file f).append) [
            | inl u ↦
                rw (e, t, u, append_seek (get s f) fd f v laws h p q)
                  (appended-Good s f v n (add32 (ops.len s.fs v) 0) wl o q)
            | inr u ↦ rw (e, t, u, q) (write_vnode-Good s (get s f) f v n wl o (λ g. ground arith))
          ]
        ]
  ]
