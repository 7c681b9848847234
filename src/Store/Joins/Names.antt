-- ===== src/Store/Joins/Names.antt =====
-- The two loops over the names of a join state: what a name that is added or removed does to the
-- names that a slice holds, where no name stands twice.
use floxy_pro.Prelude.{
  All, Bool-cases, List, String, [], arith, contains, contains-append, false, inl, inr, length,
  nat_eq, not, refl, str_iff, string_eq, suc, true, ◌&&◌, ◌++◌, ◌==◌, ◌||◌, ◌∷◌, ◌≡◌, ◌≤◌,
}
use floxy_pro.Store.Joins.{add_name, remove_name}

abbrev pub Once : List String → Type 0
Once [] = Unit
Once (x ∷ xs) = (contains xs x ≡ false) × Once xs

pub contains-add_name :
    (x y : String) (xs : List String) → contains (add_name x xs) y ≡ (contains xs y || x == y)
contains-add_name x y xs = ground (arith, contains-append xs (x ∷ []) y, str_iff x y)

Once-snoc : (x : String) (xs : List String) → contains xs x ≡ false → Once xs → Once (xs ++ x ∷ [])
Once-snoc x [] absent once = (refl, tt)
Once-snoc x (y ∷ ys) absent once =
    ground (arith, contains-append ys (x ∷ []) y, str_iff x y, str_iff y x, Once-snoc x ys)

pub add_name-Once : (x : String) (xs : List String) → Once xs → Once (add_name x xs)
add_name-Once x xs once = ground (arith, Once-snoc x xs)

pub contains-remove_name :
    (x y : String) (xs : List String)
    → Once xs
    → contains (remove_name x xs) y ≡ (contains xs y && not (x == y))
unfolding remove_name
contains-remove_name x y [] once = ground arith
contains-remove_name x y (z ∷ zs) once =
    ground (arith, str_iff z x, str_iff z y, str_iff x y, contains-remove_name x y zs once.1)

pub remove_name-Once : (x : String) (xs : List String) → Once xs → Once (remove_name x xs)
unfolding remove_name
remove_name-Once x [] once = tt
remove_name-Once x (z ∷ zs) once =
    ground (arith, str_iff z x, contains-remove_name x z zs once.1, remove_name-Once x zs once.1)

-- Every name of `xs` is one of `ys`.
abbrev pub Within : List String → List String → Type 0
Within xs ys = All (λ x. contains ys x ≡ true) xs

contains-Within :
    (xs ys : List String) (x : String) → Within xs ys → contains xs x ≡ true → contains ys x ≡ true
contains-Within [] ys x w c = absurd (cc)
contains-Within (y ∷ xs) ys x w c = ground (arith, str_iff y x, contains-Within xs ys x w.1)

Within-remove :
    (x : String) (xs ys : List String)
    → contains xs x ≡ false
    → Once ys
    → Within xs ys
    → Within xs (remove_name x ys)
Within-remove x [] ys absent once w = tt
Within-remove x (z ∷ xs) ys absent once w =
    ground
      (arith, contains-remove_name x z ys once, str_iff z x, str_iff x z, Within-remove x xs ys)

length-remove_name :
    (x : String) (ys : List String)
    → contains ys x ≡ true
    → length ys ≡ suc (length (remove_name x ys))
unfolding remove_name
length-remove_name x [] c = absurd (cc)
length-remove_name x (y ∷ ys) c = ground (arith, str_iff y x, length-remove_name x ys)

-- The names of a slice that stand in another, each once, are no more than its names.
pub length-le_of_Within :
    (xs ys : List String) → Once xs → Once ys → Within xs ys → length xs ≤ length ys
length-le_of_Within [] ys ox oy w = omega arith
length-le_of_Within (x ∷ xs) ys ox oy w = omega (
  arith,
  length-remove_name x ys w.0,
  length-le_of_Within xs (remove_name x ys) ox.1 (remove_name-Once x ys oy)
      (Within-remove x xs ys ox.0 oy w.1),
)

-- Names each once within a slice that is no longer: they are all of its names.
pub contains_of_full :
    (xs ys : List String) (y : String)
    → Once xs
    → Once ys
    → Within xs ys
    → length ys ≤ length xs
    → contains ys y ≡ true
    → contains xs y ≡ true
contains_of_full [] [] y ox oy w full c = c
contains_of_full [] (z ∷ ys) y ox oy w full c = absurd (omega arith)
contains_of_full (x ∷ xs) ys y ox oy w full c =
    let shorter = length-remove_name x ys w.0 in
    let smaller : length (remove_name x ys) ≤ length xs = omega (arith, shorter) in
    let inner =
      contains_of_full xs (remove_name x ys) y ox.1 (remove_name-Once x ys oy)
        (Within-remove x xs ys ox.0 oy w.1) smaller in
    elim (Bool-cases (x == y)) [
      | inl here ↦ rw here refl
      | inr other ↦ ground (arith, inner (ground (arith, contains-remove_name x y ys oy)))
    ]

pub Within-of_contains :
    (xs ys : List String)
    → ((x : String) → contains xs x ≡ true → contains ys x ≡ true)
    → Within xs ys
Within-of_contains [] ys h = tt
Within-of_contains (x ∷ xs) ys h =
    (h x (ground (arith, str_iff x x)), Within-of_contains xs ys (λ y c. h y (ground (arith, c))))

pub append-Once :
    (xs ys : List String)
    → Once xs
    → Once ys
    → ((x : String) → contains xs x ≡ true → contains ys x ≡ false)
    → Once (xs ++ ys)
append-Once [] ys ox oy apart = oy
append-Once (x ∷ xs) ys ox oy apart = (
  ground (arith, contains-append xs ys x, apart x (ground (arith, str_iff x x)), ox.0),
  append-Once xs ys ox.1 oy (λ y c. apart y (ground (arith, c))),
)
