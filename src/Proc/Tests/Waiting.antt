-- ===== src/Proc/Tests/Waiting.antt =====
-- Runs of `do_waitpid`: init has the children 102, which runs, and 103, which has exited with status 7.
use weenix.Prelude.{
  ℕ, ◌<◌, ◌≡◌, ◌⊎◌, refl, true, false, some, [], ◌∷◌, if◌then◌else◌, ◌==◌, arith, returns,
}
use weenix.Proc.Fifo.{count}
use weenix.Proc.Table.{Process, Table}
use weenix.Proc.Table.Wait.{any, blocks, do_waitpid, IsLinked, Reaps, do_waitpid-any}
use weenix.Proc.Tests.{process}

abbrev procs : ℕ → Process
procs a =
    if a == 101
    then process (some 1) (some 100) (102 ∷ 103 ∷ [])
    else if a == 102
    then process (some 2) (some 101) []
    else record (process (some 3) (some 101) []) { dead = true; status = 7 }

abbrev family : Table
family = record {
  plist = 100 ∷ 101 ∷ 102 ∷ 103 ∷ [];
  proc = procs;
  next_pid = 4;
  curproc = some 101;
  initproc = some 101;
  proc_max_count = 8;
}

family-IsLinked : IsLinked family 101
family-IsLinked = record { single = λ p. ground arith; listed = λ p e. ground arith }

do_waitpid-any_example :
    ((p : ℕ) × Reaps family 101 p (do_waitpid family any))
    ⊎ ((do_waitpid family any ≡ returns blocks)
        × ((p : ℕ) → 0 < count p (102 ∷ 103 ∷ []) → (procs p).dead ≡ false))
do_waitpid-any_example = do_waitpid-any family 101 refl family-IsLinked refl
