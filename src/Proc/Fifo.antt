-- ===== src/Proc/Fifo.antt =====
-- Lists as the scheduler's queues use them: put in at the head, taken out at the tail.
use weenix.Prelude.{
  ℕ, suc, ◌+◌, ◌≤◌, ◌≡◌, refl, List, [], ◌∷◌, ◌++◌, arith, if◌then◌else◌, ◌==◌, length, ap,
}

-- The last element of `x ∷ xs`, and the others.
pub last_of : ℕ → List ℕ → ℕ
last_of x [] = x
last_of x (y ∷ ys) = last_of y ys

pub init_of : ℕ → List ℕ → List ℕ
init_of x [] = []
init_of x (y ∷ ys) = x ∷ init_of y ys

abbrev pub count : ℕ → List ℕ → ℕ
count a [] = 0
count a (x ∷ xs) = (if x == a then 1 else 0) + count a xs

-- `list_remove` of an element.
pub remove_elem : ℕ → List ℕ → List ℕ
remove_elem a [] = []
remove_elem a (x ∷ xs) = if x == a then xs else x ∷ remove_elem a xs

pub init-last : (x : ℕ) (xs : List ℕ) → init_of x xs ++ last_of x xs ∷ [] ≡ x ∷ xs
unfolding last_of init_of
init-last x [] = refl
init-last x (y ∷ ys) = ap (λ l. x ∷ l) (init-last y ys)

pub count-init :
    (a x : ℕ) (xs : List ℕ)
    → count a (init_of x xs) + (if last_of x xs == a then 1 else 0) ≡ count a (x ∷ xs)
unfolding last_of init_of
count-init a x [] = ground arith
count-init a x (y ∷ ys) = ground (arith, count-init a y ys)

pub length-init : (x : ℕ) (xs : List ℕ) → suc (length (init_of x xs)) ≡ length (x ∷ xs)
unfolding init_of
length-init x [] = refl
length-init x (y ∷ ys) = omega (arith, length-init y ys)

pub count-remove :
    (a b : ℕ) (xs : List ℕ)
    → count b xs ≡ 1
    → count a (remove_elem b xs) + (if b == a then 1 else 0) ≡ count a xs
unfolding remove_elem
count-remove a b [] h = absurd (omega arith)
count-remove a b (x ∷ xs) h = ground (arith, count-remove a b xs)

pub length-remove :
    (b : ℕ) (xs : List ℕ) → count b xs ≡ 1 → suc (length (remove_elem b xs)) ≡ length xs
unfolding remove_elem
length-remove b [] h = absurd (omega arith)
length-remove b (x ∷ xs) h = ground (arith, length-remove b xs)

pub init-last-append : (x : ℕ) (xs ys : List ℕ) → init_of x xs ++ last_of x xs ∷ ys ≡ x ∷ (xs ++ ys)
unfolding last_of init_of
init-last-append x [] ys = refl
init-last-append x (z ∷ zs) ys = ap (λ l. x ∷ l) (init-last-append z zs ys)

pub count-append : (a : ℕ) (xs ys : List ℕ) → count a (xs ++ ys) ≡ count a xs + count a ys
count-append a [] ys = omega arith
count-append a (x ∷ xs) ys = ground (arith, count-append a xs ys)

pub remove-absent : (a : ℕ) (xs : List ℕ) → count a xs ≡ 0 → remove_elem a xs ≡ xs
unfolding remove_elem
remove-absent a [] h = refl
remove-absent a (x ∷ xs) h = ground (arith, remove-absent a xs)

pub count-length : (a : ℕ) (xs : List ℕ) → count a xs ≤ length xs
count-length a [] = omega arith
count-length a (x ∷ xs) = ground (arith, count-length a xs)

pub remove-first : (a : ℕ) (xs : List ℕ) → remove_elem a (a ∷ xs) ≡ xs
unfolding remove_elem
remove-first a xs = ground arith

pub remove-last : (t : ℕ) (ts : List ℕ) → count t ts ≡ 0 → remove_elem t (ts ++ t ∷ []) ≡ ts
unfolding remove_elem
remove-last t [] e = ground arith
remove-last t (x ∷ xs) e = ground (arith, remove-last t xs)
