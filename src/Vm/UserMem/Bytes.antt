-- ===== src/Vm/UserMem/Bytes.antt =====
-- The bytes of user memory: what stands behind an address, and what a lookup of a page promises.
use weenix.Prelude.{
  ℕ, ◌+◌, ◌*◌, ◌≤◌, ◌<◌, ◌≡◌, Bool, true, false, ◌&&◌, Option, none, some, List, inl, inr,
  if◌then◌else◌, ◌==◌, arith, Option-cases, Bool-cases, ltb, Exec, returns, Ret, done, ap, sym, ◌∙◌,
}
use weenix.Mm.State.{Mem, set_pf, Mmops}
use weenix.Mm.Pframe.{pframe_dirty}
use weenix.Vm.Area.{Vmarea, Page, view, page_of}
use weenix.Vm.Vmmap.{vmmap_lookup}
use weenix.Vm.Vmmap.Lookup.{vmmap_lookup-view}
use weenix.Vm.Paging.{Paging, IsPaging}
use weenix.Vm.UserMem.{Buffer}

module _ (ops : Mmops) (lookuppage : Mem → ℕ → ℕ → Bool → Exec (Ret ℕ × Mem)) where
  -- The frame `p` holds the page `n` of the object `o`: writing to it and making it dirty changes that
  -- page and no other.
  abbrev pub Writes :
      (Mem → Type 0) → (ℕ → ℕ → Bool) → (Mem → ℕ → ℕ → Buffer) → Mem → ℕ → ℕ → ℕ → Type 0
  Writes Good has content t p o n =
      (f : Buffer)
      → (r : Ret ℕ) × (u : Mem) × (pframe_dirty ops (set_pf t p (record (t.pframe p) { bytes = f }))
            p
          ≡ returns (r, u))
        × Good u
        × ((x m i : ℕ)
            → has x m ≡ true
            → content u x m i ≡ (if o == x && n == m then f i else content t x m i))

  -- The lookup of a page returns a frame with its content and leaves all contents as they are.
  abbrev pub Looks :
      (Mem → Type 0) → (ℕ → ℕ → Bool) → (Mem → ℕ → ℕ → Buffer) → Mem → ℕ → ℕ → Bool → Type 0
  Looks Good has content s o n forwrite =
      (p : ℕ) × (t : Mem) × (lookuppage s o n forwrite ≡ returns (done p, t))
      × Good t
      × (content t ≡ content s)
      × ((t.pframe p).bytes ≡ content s o n)
      × (forwrite ≡ true → Writes Good has content t p o n)

  -- What lookups promise in the memories that are `Good`, for the pages that they `has`.
  pub record Contents : Type 1 where
    pub Good : Mem → Type 0
    pub has : ℕ → ℕ → Bool
    pub content : Mem → ℕ → ℕ → Buffer
    pub looks_up :
        (s : Mem) (o n : ℕ) (forwrite : Bool)
        → Good s
        → has o n ≡ true
        → Looks Good has content s o n forwrite

abbrev pub byte_of : (ℕ → ℕ → Buffer) → Option Page → ℕ → ℕ
byte_of content none at = 0
byte_of content (some q) at = elim q.obj [ none ↦ 0 | some o ↦ content o q.pagenum at ]

abbrev pub is_backed : (ℕ → ℕ → Bool) → Option Page → Bool
is_backed has none = false
is_backed has (some q) = elim q.obj [ none ↦ false | some o ↦ has o q.pagenum ]

-- What an address that is backed has behind it.
pub record Behind (has : ℕ → ℕ → Bool) (areas : List Vmarea) (vfn : ℕ) : Type 0 where
  pub area : Vmarea
  pub object : ℕ
  pub found : vmmap_lookup areas vfn ≡ some area
  pub backed : area.obj ≡ some object
  pub held : has object (page_of area vfn).pagenum ≡ true
  pub mapped : view areas vfn ≡ some (page_of area vfn)

pub Behind_lem :
    (has : ℕ → ℕ → Bool) (areas : List Vmarea) (vfn : ℕ)
    → is_backed has (view areas vfn) ≡ true
    → Behind has areas vfn
Behind_lem has areas vfn h = elim (Option-cases (vmmap_lookup areas vfn)) [
  | inl e ↦ absurd (ground (arith, vmmap_lookup-view areas vfn, e))
  | inr (v, e) ↦ elim (Option-cases v.obj) [
    | inl b ↦ absurd (ground (arith, vmmap_lookup-view areas vfn, e))
    | inr (o, b) ↦
        let m : view areas vfn ≡ some (page_of v vfn) =
          ground (arith, vmmap_lookup-view areas vfn, e) in
        record { area = v; object = o; found = e; backed = b; held = ground (arith, m); mapped = m }
  ]
]

lt_of_mul : (a b c : ℕ) → a * c < b * c → a < b
lt_of_mul a b c h = elim (Bool-cases (ltb a b)) [
  | inl e ↦ ground arith
  | inr e ↦
      let below : b ≤ a = ground arith in
      let more : b * c ≤ a * c = grind arith in absurd (omega arith)
]

module _ (pg : Paging) (laws : IsPaging pg) where
  pub offset-lt : (a : ℕ) → pg.page_offset a < pg.page_size
  offset-lt a = grind (arith, laws.lt_pn a, laws.offset_lem a)

  -- The page of an address is the only one that holds it.
  pub pn_unique :
      (a k : ℕ) → k * pg.page_size ≤ a → a < (k + 1) * pg.page_size → pg.addr_to_pn a ≡ k
  pn_unique a k l h =
      let low : k < pg.addr_to_pn a + 1 =
        lt_of_mul k (pg.addr_to_pn a + 1) pg.page_size (omega (arith, laws.lt_pn a)) in
      let high : pg.addr_to_pn a < k + 1 =
        lt_of_mul (pg.addr_to_pn a) (k + 1) pg.page_size (omega (arith, laws.pn_le a)) in
      omega arith

  -- Up to the end of its page, an address that is `j` bytes further is on the same page.
  pub same_page :
      (cur j : ℕ)
      → pg.page_offset cur + j < pg.page_size
      → (pg.addr_to_pn (cur + j) ≡ pg.addr_to_pn cur)
        × (pg.page_offset (cur + j) ≡ pg.page_offset cur + j)
  same_page cur j h =
      let k = pg.addr_to_pn cur in
      let same : pg.addr_to_pn (cur + j) ≡ k =
        pn_unique (cur + j) k (grind (arith, laws.offset_lem cur))
          (grind (arith, laws.offset_lem cur)) in
      let whole : k * pg.page_size + pg.page_offset (cur + j) ≡ cur + j =
        ap (λ m. m * pg.page_size + pg.page_offset (cur + j)) (sym same)
        ∙ laws.offset_lem (cur + j) in
      (same, omega (arith, laws.offset_lem cur))

  abbrev pub user_byte : (ℕ → ℕ → Buffer) → List Vmarea → ℕ → ℕ
  user_byte content areas a = byte_of content (view areas (pg.addr_to_pn a)) (pg.page_offset a)

  -- Every address from `lo` up to `hi` is mapped to a page that can be looked up.
  abbrev pub IsBacked : (ℕ → ℕ → Bool) → List Vmarea → ℕ → ℕ → Type 0
  IsBacked has areas lo hi =
      (a : ℕ) → lo ≤ a → a < hi → is_backed has (view areas (pg.addr_to_pn a)) ≡ true
