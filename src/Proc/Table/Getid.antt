-- ===== src/Proc/Table/Getid.antt =====
-- Which process id `_proc_getid` gives.
use native.Mathlib.Nat.{mod-eq_of_lt, mod-eq-sub-mod, mod-lt}
use weenix.Prelude.{
  ℕ, zero, suc, ◌+◌, ◌-◌, ◌%◌, ◌<◌, ◌≡◌, refl, ◌⊎◌, inl, inr, true, false, Option, none, some,
  if◌then◌else◌, ◌==◌, ltb, arith, Bool-cases, Exec, returns, sym, subst,
}
use weenix.Proc.Table.{Table, used_in, getid_loop, proc_getid}

step_lem : (p m : ℕ) → p < m → (p + 1) % m ≡ (if p + 1 == m then 0 else p + 1)
step_lem p m l = elim (Bool-cases (p + 1 == m)) [
  | inl h ↦ rw h (
      ground (
        arith,
        mod-eq-sub-mod {n = p + 1} {m = m} (ground arith),
        mod-eq_of_lt {n = 0} {m = m} (omega arith),
      ))
  | inr h ↦ rw h (mod-eq_of_lt (ground arith))
]

module _ (s : Table) (small : s.next_pid < s.proc_max_count) where
  -- The id that is tried after `k` others.
  abbrev pub nth : ℕ → ℕ
  nth k =
      if ltb (s.next_pid + k) s.proc_max_count
      then s.next_pid + k
      else s.next_pid + k - s.proc_max_count

  abbrev Used : ℕ → Type 0
  Used pid = used_in s.proc s.plist pid ≡ true

  -- What the search finds.
  abbrev pub Chosen : Exec (Option ℕ × ℕ) → Type 0
  Chosen out =
      ((pid : ℕ) × (next : ℕ) × (out ≡ returns (some pid, next))
        × (pid < s.proc_max_count)
        × (next < s.proc_max_count)
        × (used_in s.proc s.plist pid ≡ false)
        × ((k : ℕ) × (pid ≡ nth k) × ((i : ℕ) → i < k → used_in s.proc s.plist (nth i) ≡ true)))
      ⊎ ((out ≡ returns (none, s.next_pid))
          × ((pid : ℕ) → pid < s.proc_max_count → used_in s.proc s.plist pid ≡ true))

  nth-lt : (k : ℕ) → k < s.proc_max_count → nth k < s.proc_max_count
  nth-lt k l = ground arith

  nth_step :
      (k : ℕ)
      → k < s.proc_max_count
      → ((k + 1 < s.proc_max_count)
          × ((nth k + 1) % s.proc_max_count ≡ nth (k + 1))
          × (((nth k + 1) % s.proc_max_count == s.next_pid) ≡ false))
        ⊎ ((k + 1 ≡ s.proc_max_count) × (((nth k + 1) % s.proc_max_count == s.next_pid) ≡ true))
  nth_step k l =
      let step = step_lem (nth k) s.proc_max_count (nth-lt k l) in
      elim (Bool-cases (ltb (k + 1) s.proc_max_count)) [
        | inl h ↦ rw step (inl (ground arith, ground arith, ground arith))
        | inr h ↦ rw step (inr (ground arith, ground arith))
      ]

  nth-onto : (pid : ℕ) → pid < s.proc_max_count → (i : ℕ) × (i < s.proc_max_count) × (nth i ≡ pid)
  nth-onto pid l = elim (Bool-cases (ltb pid s.next_pid)) [
    | inl h ↦ (pid + s.proc_max_count - s.next_pid, ground arith, ground arith)
    | inr h ↦ (pid - s.next_pid, ground arith, ground arith)
  ]

  tried_more :
      (k : ℕ) → ((i : ℕ) → i < k → Used (nth i)) → Used (nth k) → (i : ℕ) → i < k + 1 → Used (nth i)
  tried_more k tried h i l = elim (Bool-cases (ltb i k)) [
    | inl e ↦ tried i (ground arith)
    | inr e ↦ subst (λ j. Used (nth j)) (ground arith) h
  ]

  all_tried :
      (k : ℕ)
      → k ≡ s.proc_max_count
      → ((i : ℕ) → i < k → Used (nth i))
      → (pid : ℕ) → pid < s.proc_max_count
      → Used pid
  all_tried k e tried pid l =
      let (i, small, at) = nth-onto pid l in subst Used at (tried i (omega arith))

  getid_loop_lem :
      (fuel k : ℕ)
      → fuel + k ≡ s.proc_max_count
      → 0 < fuel
      → ((i : ℕ) → i < k → Used (nth i))
      → Chosen (getid_loop fuel s (nth k))
  unfolding getid_loop
  getid_loop_lem zero k e p tried = absurd (omega arith)
  getid_loop_lem (suc fuel) k e p tried = elim (Bool-cases (used_in s.proc s.plist (nth k))) [
    | inl h ↦ elim (nth_step k (omega arith)) [
      | inl (l, q, t) ↦
          rw (h, t)
            (subst (λ x. Chosen (getid_loop fuel s x)) (sym q)
              (getid_loop_lem fuel (k + 1) (omega arith) (omega arith) (tried_more k tried h)))
      | inr (l, t) ↦ rw (h, t) (inr (refl, all_tried (k + 1) l (tried_more k tried h)))
    ]
    | inr h ↦ rw h (
        inl (
          nth k,
          (nth k + 1) % s.proc_max_count,
          refl,
          nth-lt k (omega arith),
          mod-lt (nth k + 1) (omega arith),
          h,
          (k, refl, tried),
        ))
  ]

  -- `_proc_getid` ends. It gives the first id from `next_pid` on, round the end of the ids, that no
  -- process has, and leaves `next_pid` in range; it gives -1 only if all the ids are taken. (Given
  -- that `next_pid` is in range.)
  pub proc_getid_lem : Chosen (proc_getid s)
  proc_getid_lem =
      unfold proc_getid in
      subst (λ x. Chosen (getid_loop s.proc_max_count s x)) (ground arith)
        (getid_loop_lem s.proc_max_count 0 (omega arith) (omega arith)
          (λ i l. absurd (omega arith)))
