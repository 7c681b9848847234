-- ===== src/Prelude/Sorting.antt =====
-- `sort_by` keeps the elements of a list, and orders them by a key where `less` compares keys.
use floxy_pro.Prelude.{
  All, Bool, List, [], ap, arith, if◌then◌else◌, inl, inr, length, ltb, nat_eq, refl, suc, ℕ, ◌↔◌,
  ◌∙◌, ◌∷◌, ◌≡◌, ◌≤◌, ◌⊎◌,
}

module _ {ℓ} {A : Type ℓ} where
  -- `sort.Slice` by insertion, which keeps the order of elements that `less` does not tell apart.
  unfoldable pub insert_by : (A → A → Bool) → A → List A → List A
  insert_by less x [] = x ∷ []
  insert_by less x (y ∷ ys) =
      let rest = y ∷ insert_by less x ys in if less y x then rest else x ∷ y ∷ ys

  unfoldable pub sort_by : (A → A → Bool) → List A → List A
  unfolding insert_by
  sort_by less [] = []
  sort_by less (x ∷ xs) = insert_by less x (sort_by less xs)

module _ {A : Type 0} where
  -- The element stands in the list.
  abbrev pub Among : A → List A → Type 0
  Among x [] = ⊥
  Among x (y ∷ ys) = (x ≡ y) ⊎ Among x ys

  abbrev pub SortedBy : (A → ℕ) → List A → Type 0
  SortedBy key [] = Unit
  SortedBy key (x ∷ xs) = All (λ y. key x ≤ key y) xs × SortedBy key xs

  module _ (less : A → A → Bool) where
    insert_by-Among_to :
        (a x : A) (xs : List A) → Among x (insert_by less a xs) → (x ≡ a) ⊎ Among x xs
    unfolding insert_by
    insert_by-Among_to a x [] m = m
    insert_by-Among_to a x (y ∷ ys) m = ground (arith, insert_by-Among_to a x ys)

    insert_by-Among_of :
        (a x : A) (xs : List A) → (x ≡ a) ⊎ Among x xs → Among x (insert_by less a xs)
    unfolding insert_by
    insert_by-Among_of a x [] m = m
    insert_by-Among_of a x (y ∷ ys) m = ground (arith, insert_by-Among_of a x ys)

    pub sort_by-Among : (x : A) (xs : List A) → Among x (sort_by less xs) ↔ Among x xs
    unfolding sort_by
    sort_by-Among x [] = (λ m. m, λ m. m)
    sort_by-Among x (y ∷ ys) =
        let rest = sort_by-Among x ys in
        (
          λ m. elim (insert_by-Among_to y x (sort_by less ys) m) [
            | inl e ↦ inl e
            | inr old ↦ inr (rest.0 old)
          ],
          λ m.
              insert_by-Among_of y x (sort_by less ys)
                (elim m [ inl e ↦ inl e | inr old ↦ inr (rest.1 old) ]),
        )

    pub length-sort_by : (xs : List A) → length (sort_by less xs) ≡ length xs
    unfolding sort_by
    length-sort_by [] = refl
    length-sort_by (x ∷ xs) = go x (sort_by less xs) ∙ ap suc (length-sort_by xs)
      where
        go : (a : A) (ys : List A) → length (insert_by less a ys) ≡ suc (length ys)
        go a [] = refl
        go a (y ∷ ys) = ground (arith, go a ys)

  module _ (key : A → ℕ) where
    All-weaken : (a b : ℕ) (xs : List A) → a ≤ b → All (λ y. b ≤ key y) xs → All (λ y. a ≤ key y) xs
    All-weaken a b [] le h = tt
    All-weaken a b (x ∷ xs) le h = (omega arith, All-weaken a b xs le h.1)

    insert_by-All :
        (n : ℕ) (a : A) (xs : List A)
        → n ≤ key a
        → All (λ y. n ≤ key y) xs
        → All (λ y. n ≤ key y) (insert_by (λ x y. ltb (key x) (key y)) a xs)
    unfolding insert_by
    insert_by-All n a [] le h = (le, tt)
    insert_by-All n a (x ∷ xs) le h = ground (arith, insert_by-All n a xs le h.1)

    insert_by-SortedBy :
        (a : A) (xs : List A)
        → SortedBy key xs
        → SortedBy key (insert_by (λ x y. ltb (key x) (key y)) a xs)
    unfolding insert_by
    insert_by-SortedBy a [] h = (tt, tt)
    insert_by-SortedBy a (x ∷ xs) h = ground (
      arith,
      insert_by-SortedBy a xs h.1,
      insert_by-All (key x) a xs,
      All-weaken (key a) (key x) xs,
    )

    pub sort_by-SortedBy : (xs : List A) → SortedBy key (sort_by (λ x y. ltb (key x) (key y)) xs)
    unfolding sort_by
    sort_by-SortedBy [] = tt
    sort_by-SortedBy (x ∷ xs) = insert_by-SortedBy x _ (sort_by-SortedBy xs)
