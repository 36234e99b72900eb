-- ===== src/Vm/Tests/Memory.antt =====
-- Runs on user memory: object 1 has its pages 0 and 1 in the frames 3 and 4, and an area maps them at the
-- pages 1024 and 1025.
use weenix.Prelude.{
  ℕ, ◌+◌, ◌-◌, ◌≡◌, refl, ◌⊎◌, Bool, true, false, ◌&&◌, Option, none, some, List, [], ◌∷◌,
  if◌then◌else◌, ◌==◌, ltb, leb, arith, Exec, returns, Ret, done, fails, efault,
}
use weenix.Mm.State.{Pframe, Mem, Mmops}
use weenix.Mm.Anon.{anon_ops}
use weenix.Mm.Pframe.Valid.{Valid}
use weenix.Vm.Area.{Vmarea, Prot, view, IsValid}
use weenix.Vm.Paging.{layout}
use weenix.Vm.Access.{Denied}
use weenix.Vm.UserMem.{
  Buffer, prot_read, prot_write, vmmap_read, vmmap_write, copy_from_user, copy_to_user,
}
use weenix.Vm.UserMem.Bytes.{Contents, Looks, is_backed, IsBacked}
use weenix.Vm.UserMem.Read.{byte}
use weenix.Vm.UserMem.Write.{Unaliased, vmmap_read-write}
use weenix.Vm.UserMem.Copy.{Held, copy_from_user_lem, copy_to_user_lem}
use weenix.Vm.UserMem.Anon.{anon_lookup, anon_contents, anon_lookup-Looks, Good, content, bytes_in}
use weenix.Vm.Tests.{pages, pages-IsPaging, read_write, private_anon}

abbrev chain : ℕ → ℕ → ℕ
chain o n = o + n

abbrev slab : Mem → Option ℕ
slab s = none

abbrev page : Mem → Option Buffer
page s = none

abbrev sleeping : ℕ → Mem → Exec (Ret ℕ × Mem)
sleeping p s = returns (done p, s)

abbrev has : ℕ → ℕ → Bool
has o n = o == 1 && ltb n 2

abbrev ops : Mmops
ops = anon_ops chain slab page 1

abbrev look : Mem → ℕ → ℕ → Bool → Exec (Ret ℕ × Mem)
look = anon_lookup chain slab page 1 sleeping has

abbrev store : Contents ops look
store = anon_contents chain slab page 1 sleeping has

abbrev frame : ℕ → Pframe
frame n = record {
  obj = some 1;
  pagenum = n;
  busy = false;
  dirty = false;
  pincount = 1;
  bytes = λ i. n + i;
}

abbrev free_frame : Pframe
free_frame = record {
  obj = none;
  pagenum = 0;
  busy = false;
  dirty = false;
  pincount = 0;
  bytes = λ i. 0;
}

abbrev memory : Mem
memory = record {
  pframe = λ p. if p == 3 then frame 0 else (if p == 4 then frame 1 else free_frame);
  mmobj = λ o.
      if o == 1
      then record {
        refcount = 3;
        nrespages = 2;
        respages = 4 ∷ 3 ∷ [];
        shadowed = none;
        bottom = none;
      }
      else record { refcount = 0; nrespages = 0; respages = []; shadowed = none; bottom = none };
  hash = λ c. if c == 1 then 3 ∷ [] else (if c == 2 then 4 ∷ [] else []);
  pinned_list = 3 ∷ 4 ∷ [];
  npinned = 2;
  alloc_list = [];
  nallocated = 0;
  events = [];
}

memory-Valid : Valid ops memory
memory-Valid = record {
  alloced = λ p. ground arith;
  pinned = λ p. ground arith;
  nalloced = refl;
  npins = refl;
  hashed = λ p c. ground arith;
  owned = λ p o. ground arith;
  sized = λ o. ground arith;
  unique = λ p q o n a b. ground arith;
}

memory-Good : Good chain slab page 1 sleeping has memory
memory-Good = (memory-Valid, λ p. ground arith, λ o n h. (if n == 0 then 3 else 4, ground arith))

abbrev heap : Vmarea
heap = record {
  start = 1024;
  end = 1026;
  off = 0;
  prot = read_write;
  flags = private_anon;
  obj = some 1;
  linked = true;
  olinked = true;
}

abbrev areas : List Vmarea
areas = heap ∷ []

areas-IsValid : IsValid (layout pages) areas
areas-IsValid = record {
  ordered = (omega arith, omega arith, omega arith, omega arith);
  word = omega arith;
}

areas-Unaliased : Unaliased areas
areas-Unaliased = λ m n p q a b x y. ground arith

areas-Held : (perm : Prot) → Held has areas perm
areas-Held perm = λ n h. ground arith

-- Sixteen bytes across the border of the two pages.
abbrev vaddr : ℕ
vaddr = 4198392

there : IsBacked pages pages-IsPaging has areas vaddr (vaddr + 16)
there = λ a l h. ground arith

abbrev message : Buffer
message i = 100 + i

abbrev user : Mem → ℕ → ℕ
user s a = byte pages pages-IsPaging ops look store areas areas-IsValid s a

vmmap_read-write_example :
    (t u : Mem) × (out : Buffer) × (vmmap_write pages ops look memory areas vaddr message 16
      ≡ returns (done 0, t))
    × (vmmap_read pages ops look t areas vaddr (λ i. 0) 16 ≡ returns (done 0, out, u))
    × ((i : ℕ) → out i ≡ (if ltb i 16 then message i else 0))
vmmap_read-write_example =
    vmmap_read-write pages pages-IsPaging ops look store areas areas-IsValid memory vaddr 16 message
      (λ i. 0) memory-Good areas-Unaliased (omega arith) there

copy_from_user_example :
    ((t : Mem) × (out : Buffer) × (copy_from_user pages ops look memory areas message vaddr 16
        ≡ returns (done 0, out, t))
      × store.Good t
      × (store.content t ≡ store.content memory)
      × ((i : ℕ) → out i ≡ (if ltb i 16 then user memory (vaddr + i) else message i)))
    ⊎ ((copy_from_user pages ops look memory areas message vaddr 16
          ≡ returns (fails efault, message, memory))
        × Denied areas prot_read 1024 1026)
copy_from_user_example =
    copy_from_user_lem pages pages-IsPaging ops look store areas areas-IsValid memory message vaddr
      16 memory-Good (areas-Held prot_read) (omega arith)

copy_to_user_example :
    ((t : Mem) × (copy_to_user pages ops look memory areas vaddr message 16 ≡ returns (done 0, t))
      × store.Good t
      × ((a : ℕ)
          → is_backed has (view areas (pages.addr_to_pn a)) ≡ true
          → user t a
            ≡ (if leb vaddr a && ltb a (vaddr + 16) then message (a - vaddr) else user memory a)))
    ⊎ ((copy_to_user pages ops look memory areas vaddr message 16 ≡ returns (fails efault, memory))
        × Denied areas prot_write 1024 1026)
copy_to_user_example =
    copy_to_user_lem pages pages-IsPaging ops look store areas areas-IsValid memory message vaddr 16
      memory-Good (areas-Held prot_write) areas-Unaliased (omega arith)

anon_lookup_example :
    Looks ops look (Good chain slab page 1 sleeping has) has store.content memory 1 0 true
anon_lookup_example =
    anon_lookup-Looks chain slab page 1 sleeping has memory 1 0 true memory-Good refl

-- The first byte across the border.
read_over_the_border : user memory 4198400 ≡ 1
unfolding content bytes_in
read_over_the_border = refl
