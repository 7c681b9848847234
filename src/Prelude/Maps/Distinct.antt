-- ===== src/Prelude/Maps/Distinct.antt =====
-- Maps whose keys are distinct, as those of a Go map are: a visit of the entries sees what a lookup
-- finds, and every operation keeps the keys distinct.
use floxy_pro.Prelude.{
  All, Bool, Eq, Option, [], arith, if◌then◌else◌, nat_eq, none, refl, some, ◌∷◌, ◌≡◌,
}
use floxy_pro.Prelude.Maps.{
  Map, adjust, delete, delete_where, insert, lookup, lookup-adjust, lookup-delete, lookup-insert,
}

-- What `delete_where` leaves at a key.
abbrev pub unless {ℓ} : {V : Type ℓ} → (V → Bool) → Option V → Option V
unless p none = none
unless p (some v) = if p v then none else some v

module _ {ℓ κ} {K : Type ℓ} {V : Type κ} ⦃e : Eq K⦄ where
  abbrev pub IsDistinct : Map K V → Type κ
  IsDistinct [] = Unit
  IsDistinct ((k, v) ∷ m) = (lookup k m ≡ none) × IsDistinct m

  pub lookup_self : (k : K) (v : V) (m : Map K V) → lookup k ((k, v) ∷ m) ≡ some v
  unfolding lookup
  lookup_self k v m = ground (arith, e.beq_iff k k)

  pub insert-IsDistinct : (k : K) (v : V) (m : Map K V) → IsDistinct m → IsDistinct (insert k v m)
  unfolding lookup insert
  insert-IsDistinct k v [] d = (refl, tt)
  insert-IsDistinct k v ((j, w) ∷ m) d =
      ground
        (arith, e.beq_iff j k, e.beq_iff k j, lookup-insert k j v m, insert-IsDistinct k v m d.1)

  pub delete-IsDistinct : (k : K) (m : Map K V) → IsDistinct m → IsDistinct (delete k m)
  unfolding lookup delete
  delete-IsDistinct k [] d = tt
  delete-IsDistinct k ((j, w) ∷ m) d =
      ground (arith, e.beq_iff j k, e.beq_iff k j, lookup-delete k j m, delete-IsDistinct k m d.1)

  pub adjust-IsDistinct :
      (k : K) (f : V → V) (m : Map K V) → IsDistinct m → IsDistinct (adjust k f m)
  unfolding lookup adjust
  adjust-IsDistinct k f [] d = tt
  adjust-IsDistinct k f ((j, w) ∷ m) d =
      ground
        (arith, e.beq_iff j k, e.beq_iff k j, lookup-adjust k j f m, adjust-IsDistinct k f m d.1)

  pub lookup-delete_where :
      (j : K) (p : V → Bool) (m : Map K V)
      → IsDistinct m
      → lookup j (delete_where p m) ≡ unless p (lookup j m)
  unfolding lookup delete_where
  lookup-delete_where j p [] d = refl
  lookup-delete_where j p ((i, w) ∷ m) d =
      ground (arith, e.beq_iff i j, lookup-delete_where j p m d.1)

  pub delete_where-IsDistinct :
      (p : V → Bool) (m : Map K V) → IsDistinct m → IsDistinct (delete_where p m)
  unfolding lookup delete_where
  delete_where-IsDistinct p [] d = tt
  delete_where-IsDistinct p ((j, w) ∷ m) d =
      ground (arith, lookup-delete_where j p m d.1, delete_where-IsDistinct p m d.1)

  -- Each entry of a map is what a lookup of its key finds.
  pub entries_below :
      (full m : Map K V)
      → IsDistinct m
      → ((k : K) (v : V) → lookup k m ≡ some v → lookup k full ≡ some v)
      → All (λ entry. lookup entry.0 full ≡ some entry.1) m
  unfolding lookup
  entries_below full [] d sub = tt
  entries_below full ((k, v) ∷ m) d sub = (
    sub k v (lookup_self k v m),
    entries_below full m d.1 (λ j w e'. sub j w (ground (arith, e.beq_iff k j, d.0))),
  )

  pub entries_found :
      (m : Map K V) → IsDistinct m → All (λ entry. lookup entry.0 m ≡ some entry.1) m
  entries_found m d = entries_below m m d (λ k v e'. e')
