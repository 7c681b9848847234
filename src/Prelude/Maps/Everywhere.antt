-- ===== src/Prelude/Maps/Everywhere.antt =====
-- A predicate of every entry of a map, by lookup, and how the operations on maps keep it.
use mathlib.Core.Option
use floxy_pro.Prelude.{
  Bool, Eq, Option, arith, false, if◌then◌else◌, inl, inr, nat_eq, none, refl, some, sym, ◌==◌, ◌∙◌,
  ◌≡◌, ◌≢◌, ◌⊎◌,
}
use floxy_pro.Prelude.Maps.{
  Map, adjust, delete, delete_where, insert, lookup, lookup-adjust, lookup-delete, lookup-insert,
}
use floxy_pro.Prelude.Maps.Distinct.{IsDistinct, lookup-delete_where}

abbrev pub Everywhere {ℓ κ μ} :
    {K : Type ℓ} {V : Type κ} ⦃e : Eq K⦄ → (K → V → Type μ) → Map K V → Type (ℓ ⊔ κ ⊔ μ)
Everywhere {K} {V} P m = (k : K) (v : V) → lookup k m ≡ some v → P k v

module _ {ℓ κ} {K : Type ℓ} {V : Type κ} ⦃e : Eq K⦄ where
  pub insert_cases :
      (k j : K) (v x : V) (m : Map K V)
      → lookup j (insert k v m) ≡ some x
      → (k ≡ j) × (x ≡ v) ⊎ (lookup j m ≡ some x)
  insert_cases k j v x m seen = ground (arith, lookup-insert k j v m, e.beq_iff k j)

  pub adjust_cases :
      (k j : K) (f : V → V) (x : V) (m : Map K V)
      → lookup j (adjust k f m) ≡ some x
      → (y : V) × (lookup j m ≡ some y) × ((x ≡ y) ⊎ (k ≡ j) × (x ≡ f y))
  adjust_cases k j f x m seen = go (lookup j m) refl (sym (lookup-adjust k j f m) ∙ seen)
    where
      go :
          (o : Option V)
          → lookup j m ≡ o
          → (if k == j then Option.map f o else o) ≡ some x
          → (y : V) × (lookup j m ≡ some y) × ((x ≡ y) ⊎ (k ≡ j) × (x ≡ f y))
      go none eq h = absurd (ground arith)
      go (some y) eq h = (y, eq, ground (arith, e.beq_iff k j))

  pub delete_cases :
      (k j : K) (x : V) (m : Map K V)
      → lookup j (delete k m) ≡ some x
      → (k ≢ j) × (lookup j m ≡ some x)
  delete_cases k j x m seen = ground (arith, lookup-delete k j m, e.beq_iff k j)

  pub delete_where_cases :
      (j : K) (p : V → Bool) (x : V) (m : Map K V)
      → IsDistinct m
      → lookup j (delete_where p m) ≡ some x
      → (p x ≡ false) × (lookup j m ≡ some x)
  delete_where_cases j p x m d seen = ground (arith, lookup-delete_where j p m d)

module _ {ℓ κ μ} {K : Type ℓ} {V : Type κ} ⦃e : Eq K⦄ (P : K → V → Type μ) (m : Map K V) where
  pub insert-Everywhere : (k : K) (v : V) → P k v → Everywhere P m → Everywhere P (insert k v m)
  insert-Everywhere k v here h j x seen = elim (insert_cases k j v x m seen) [
    | inl (same, new) ↦ rw (← same, new) here
    | inr old ↦ h j x old
  ]

  pub adjust-Everywhere :
      (k : K) (f : V → V)
      → ((v : V) → P k v → P k (f v))
      → Everywhere P m
      → Everywhere P (adjust k f m)
  adjust-Everywhere k f keep h j x seen =
      let (y, old, changed) = adjust_cases k j f x m seen in
      elim changed [
        | inl same ↦ rw same (h j y old)
        | inr (here, new) ↦ rw (← here, new) (keep y (rw here (h j y old)))
      ]

  pub delete-Everywhere : (k : K) → Everywhere P m → Everywhere P (delete k m)
  delete-Everywhere k h j x seen = h j x (delete_cases k j x m seen).1

  pub delete_where-Everywhere :
      (p : V → Bool) → IsDistinct m → Everywhere P m → Everywhere P (delete_where p m)
  delete_where-Everywhere p d h j x seen = h j x (delete_where_cases j p x m d seen).1

  pub weaken-Everywhere {ν} :
      (Q : K → V → Type ν) → ((k : K) (v : V) → P k v → Q k v) → Everywhere P m → Everywhere Q m
  weaken-Everywhere Q weaker h k v seen = weaker k v (h k v seen)
