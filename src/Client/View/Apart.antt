-- ===== src/Client/View/Apart.antt =====
-- Lists of ids without a repetition, and what keeps them so.
use paho_cpp_static.Prelude.{◌≡◌, ◌++◌, [], false, ℕ, List, ◌==◌, ◌∷◌, arith, refl}
use paho_cpp_static.Client.Tables.{contains}

abbrev pub IsApart : List ℕ → Type 0
IsApart [] = Unit {0}
IsApart (x ∷ xs) = (contains xs x ≡ false) × IsApart xs

-- The first list is the second with some entries left out.
pub data Part : List ℕ → List ℕ → Type 0 where
  nothing : {ys : List ℕ} → Part [] ys
  keep : {x : ℕ} {xs ys : List ℕ} → Part xs ys → Part (x ∷ xs) (x ∷ ys)
  skip : {y : ℕ} {xs ys : List ℕ} → Part xs ys → Part xs (y ∷ ys)

-- The second list is the first with `id` entered, or the first.
pub data Grown (id : ℕ) : List ℕ → List ℕ → Type 0 where
  same : {xs : List ℕ} → Grown id xs xs
  here : {xs : List ℕ} → Grown id xs (id ∷ xs)
  there : {x : ℕ} {xs ys : List ℕ} → Grown id xs ys → Grown id (x ∷ xs) (x ∷ ys)

contains-Part :
    (id : ℕ) (xs ys : List ℕ) → Part xs ys → contains ys id ≡ false → contains xs id ≡ false
unfolding contains
contains-Part id [] ys p h = refl
contains-Part id (x ∷ xs) [] p h = elim p [ ]
contains-Part id (x ∷ xs) (_ ∷ ys) (keep p) h = ground (arith, contains-Part id xs ys p)
contains-Part id xs (y ∷ ys) (skip p) h = contains-Part id xs ys p (ground (arith, h))

pub IsApart-Part : (xs ys : List ℕ) → Part xs ys → IsApart ys → IsApart xs
IsApart-Part [] ys p h = tt
IsApart-Part (x ∷ xs) [] p h = elim p [ ]
IsApart-Part (x ∷ xs) (_ ∷ ys) (keep p) h = (contains-Part x xs ys p h.0, IsApart-Part xs ys p h.1)
IsApart-Part xs (y ∷ ys) (skip p) h = IsApart-Part xs ys p h.1

pub Part-refl : (xs : List ℕ) → Part xs xs
Part-refl [] = nothing
Part-refl (x ∷ xs) = keep (Part-refl xs)

pub Part-left : (xs ys zs : List ℕ) → Part xs ys → Part (xs ++ zs) (ys ++ zs)
Part-left [] [] zs p = Part-refl zs
Part-left [] (y ∷ ys) zs p = skip (Part-left [] ys zs nothing)
Part-left (x ∷ xs) [] zs p = elim p [ ]
Part-left (x ∷ xs) (_ ∷ ys) zs (keep p) = keep (Part-left xs ys zs p)
Part-left xs (y ∷ ys) zs (skip p) = skip (Part-left xs ys zs p)

pub Part-right : (ws xs ys : List ℕ) → Part xs ys → Part (ws ++ xs) (ws ++ ys)
Part-right [] xs ys p = p
Part-right (w ∷ ws) xs ys p = keep (Part-right ws xs ys p)

contains-Grown :
    (id x : ℕ) (xs ys : List ℕ)
    → Grown id xs ys
    → (id == x) ≡ false
    → contains xs x ≡ false
    → contains ys x ≡ false
unfolding contains
contains-Grown id x xs _ same e h = h
contains-Grown id x xs _ here e h = rw e h
contains-Grown id x (y ∷ xs) (_ ∷ ys) (there g) e h = ground (arith, contains-Grown id x xs ys g e)

pub IsApart-Grown :
    (id : ℕ) (xs ys : List ℕ) → Grown id xs ys → contains xs id ≡ false → IsApart xs → IsApart ys
unfolding contains
IsApart-Grown id xs _ same e h = h
IsApart-Grown id xs _ here e h = (e, h)
IsApart-Grown id (y ∷ xs) (_ ∷ ys) (there g) e h = (
  contains-Grown id y xs ys g (ground (arith, e)) h.0,
  IsApart-Grown id xs ys g (ground (arith, e)) h.1,
)

pub Grown-left : (id : ℕ) (xs ys zs : List ℕ) → Grown id xs ys → Grown id (xs ++ zs) (ys ++ zs)
Grown-left id xs _ zs same = same
Grown-left id xs _ zs here = here
Grown-left id (x ∷ xs) (_ ∷ ys) zs (there g) = there (Grown-left id xs ys zs g)

pub Grown-right : (id : ℕ) (ws xs : List ℕ) → Grown id (ws ++ xs) (ws ++ (xs ++ (id ∷ [])))
Grown-right id [] [] = here
Grown-right id [] (x ∷ xs) = there (Grown-right id [] xs)
Grown-right id (w ∷ ws) xs = there (Grown-right id ws xs)

pub contains-append :
    (id : ℕ) (xs ys : List ℕ)
    → contains xs id ≡ false
    → contains ys id ≡ false
    → contains (xs ++ ys) id ≡ false
unfolding contains
contains-append id [] ys h g = g
contains-append id (x ∷ xs) ys h g = ground (arith, contains-append id xs ys)
