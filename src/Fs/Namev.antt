-- ===== src/Fs/Namev.antt =====
-- kernel/fs/namev.c: the resolution of path names. A path is the list of its characters, without the
-- NUL at the end.
pub mod Refs
pub mod Words
pub mod Frame
pub mod Total
use weenix.Prelude.{
  ℕ, zero, suc, ◌+◌, Bool, true, false, ◌&&◌, not, Option, none, some, List, [], ◌∷◌, length,
  if◌then◌else◌, ◌==◌, ltb, Exec, returns, panics, ◌>>=◌, ◌>>◌, kassert, deref, Ret, done, fails,
  Errno, enotdir, enametoolong,
}
use weenix.Fs.State.{Vnodes, Call, vnode_get, vnode_put, Process, log, Limits}

abbrev pub slash : ℕ
slash = 47

abbrev pub take {ℓ} : {A : Type ℓ} → ℕ → List A → List A
take zero l = []
take (suc n) [] = []
take (suc n) (x ∷ l) = x ∷ take n l

abbrev pub drop {ℓ} : {A : Type ℓ} → ℕ → List A → List A
drop zero l = l
drop (suc n) [] = []
drop (suc n) (x ∷ l) = drop n l

abbrev pub or_here : Option ℕ → ℕ → Option ℕ
or_here none c = if c == slash then some 0 else none
or_here (some i) c = some (i + 1)

-- `dir_index_limit`: the index of the last slash, `none` for -1.
unfoldable pub last_slash : List ℕ → Option ℕ
last_slash [] = none
last_slash (c ∷ cs) = or_here (last_slash cs) c

pub skip_slashes : List ℕ → List ℕ
skip_slashes [] = []
skip_slashes (c ∷ cs) = if c == slash then skip_slashes cs else c ∷ cs

-- Up to the next slash, and from there on.
pub component : List ℕ → List ℕ
component [] = []
component (c ∷ cs) = if c == slash then [] else c ∷ component cs

pub after_component : List ℕ → List ℕ
after_component [] = []
after_component (c ∷ cs) = if c == slash then c ∷ cs else after_component cs

-- The characters before `dir_index_limit`, and those behind it.
abbrev pub dir_part : Option ℕ → List ℕ → List ℕ
dir_part none path = []
dir_part (some i) path = take i path

abbrev pub base_name : Option ℕ → List ℕ → List ℕ
base_name none path = path
base_name (some i) path = drop (i + 1) path

-- `*name`, which stays NULL for an empty name.
abbrev pub name_arg : List ℕ → Option (List ℕ)
name_arg [] = none
name_arg (c ∷ cs) = some (c ∷ cs)

module _ {W : Type 0} where
  abbrev pub vref : Process W → ℕ → Process W
  vref s v = log s (vnode_get v)

  abbrev pub vput : Process W → ℕ → Process W
  vput s v = log s (vnode_put v)

  -- An operation that succeeds gives its vnode with a reference.
  abbrev pub given : Process W → Ret ℕ × W → Process W
  given s (done v, w) = vref (record s { fs = w }) v
  given s (fails e, w) = record s { fs = w }

  abbrev pub put_prev : Process W → Option ℕ → Process W
  put_prev s none = s
  put_prev s (some v) = vput s v

  abbrev pub after_lookup :
      {A : Type 0} → Ret ℕ → Process W → (ℕ → Exec (Ret A × Process W)) → Exec (Ret A × Process W)
  after_lookup (done v) s next = next v
  after_lookup (fails e) s next = returns (fails e, s)

  -- `cur_base` at the start.
  abbrev pub start_base : Process W → List ℕ → Option ℕ → Option ℕ
  start_base s [] none = s.cwd
  start_base s [] (some b) = some b
  start_base s (c ∷ cs) none = if c == slash then some s.root else s.cwd
  start_base s (c ∷ cs) (some b) = if c == slash then some s.root else some b

  module _ (ops : Vnodes W) (l : Limits) where
    -- A vnode without the operation has NULL in its place, and the call stops the kernel.
    unfoldable pub lookup : Process W → ℕ → Option (List ℕ) → Exec (Ret ℕ × Process W)
    lookup s dir name = do
      n ← deref name
      kassert (ops.has_lookup s.fs dir)
      returns ((ops.lookup s.fs dir n).0, given s (ops.lookup s.fs dir n))

    -- The main loop; `prev` is both `prev_node` and `cur_node`. Each round takes at least one of the
    -- characters, of which the fuel is the number and one more.
    pub walk : ℕ → Process W → ℕ → Option ℕ → List ℕ → Exec (Ret (Option ℕ) × Process W)
    walk zero s base prev cs = panics
    walk (suc fuel) s base prev [] = returns (done prev, s)
    walk (suc fuel) s base prev (c ∷ cs) = do
      (r, s') ← lookup s base (some (component (c ∷ cs)))
      let s2 = put_prev s' prev
      after_lookup r s2 (λ v. walk fuel s2 v (some v) (skip_slashes (after_component (c ∷ cs))))

    -- What follows the loop, for the `cur_base` of its start.
    pub namev_result :
        ℕ → List ℕ → Ret (Option ℕ) × Process W → Exec (Ret (ℕ × Option (List ℕ)) × Process W)
    namev_result base name (fails e, s) = returns (fails e, s)
    namev_result base name (done none, s) = returns (done (base, name_arg name), vref s base)
    namev_result base name (done (some v), s) =
        if ops.has_lookup s.fs v
        then returns (done (v, name_arg name), s)
        else returns (fails enotdir, vput s v)

    -- The directory, and the name that `*name` and `*name_len` describe.
    pub dir_namev : Process W → List ℕ → Option ℕ → Exec (Ret (ℕ × Option (List ℕ)) × Process W)
    dir_namev s path base =
        let limit = last_slash path in
        let name = base_name limit path in
        if ltb l.name_len (length name) then returns (fails enametoolong, s) else (do
          let cs = skip_slashes (dir_part limit path)
          b ← deref (start_base s path base)
          r ← walk (suc (length cs)) s b none cs
          namev_result b name r)

    pub create_last : Process W → ℕ → List ℕ → Exec (Ret ℕ × Process W)
    create_last s dir name = do
      kassert (ops.has_create s.fs dir)
      returns ((ops.create s.fs dir name).0, vput (given s (ops.create s.fs dir name)) dir)

    -- `creat` is the bit O_CREAT.
    pub open_last : Bool → ℕ → List ℕ → Ret ℕ × Process W → Exec (Ret ℕ × Process W)
    open_last creat dir name (done v, s) = returns (done v, vput s dir)
    open_last creat dir name (fails e, s) =
        if creat then create_last s dir name else returns (fails e, vput s dir)

    pub open_found : Bool → Ret (ℕ × Option (List ℕ)) × Process W → Exec (Ret ℕ × Process W)
    open_found creat (fails e, s) = returns (fails e, s)
    open_found creat (done (dir, none), s) = returns (done dir, s)
    open_found creat (done (dir, some name), s) =
        lookup s dir (some name) >>= λ r. open_last creat dir name r

    pub open_namev : Process W → List ℕ → Bool → Option ℕ → Exec (Ret ℕ × Process W)
    open_namev s path creat base = dir_namev s path base >>= λ r. open_found creat r
