-- ===== src/Prelude/Run.antt =====
-- What running a kernel function comes to: it returns, or the kernel stops. It stops at a KASSERT
-- that fails and at a read or write through a pointer that is NULL or was never set.
use mathlib.Core.Bool.{Bool, true, false}
use mathlib.Core.Option.{Option, none, some}

pub data Exec {ℓ} (A : Type ℓ) : Type ℓ where
  returns : A → Exec A
  panics : Exec A

infixl 5 ◌>>=◌ ◌>>◌
abbrev pub ◌>>=◌ {ℓ κ} : {A : Type ℓ} {B : Type κ} → Exec A → (A → Exec B) → Exec B
returns a >>= f = f a
panics >>= f = panics

abbrev pub ◌>>◌ {ℓ} : {B : Type ℓ} → Exec (Unit {0}) → Exec B → Exec B
m >> k = m >>= λ _. k

abbrev pub kassert : Bool → Exec (Unit {0})
kassert true = returns tt
kassert false = panics

-- A use of a pointer that may be NULL.
abbrev pub deref {ℓ} : {A : Type ℓ} → Option A → Exec A
deref none = panics
deref (some a) = returns a
