-- ===== src/Prelude/Keys.antt =====
-- Equality as a Boolean test, for the keys of maps and for the names of steps.
use Prim.Native.Nat.{ℕ}
use Prim.Native.String.{String}
use mathlib.Core.Path.{◌≡◌}
use mathlib.Core.Logic.{◌↔◌}
use mathlib.Core.Bool.{Bool, true, ◌&&◌}
use native.Mathlib.Omega.{arith}
use text.Mathlib.Text.{◌==◌ as str_eq}
use text.Mathlib.TextEquality.{eq_iff}
use floxy_pro.Prelude.Tests.{nat_beq, nat_beq_iff}

pub record Eq {ℓ} (A : Type ℓ) : Type ℓ where
  pub beq : A → A → Bool
  pub beq_iff : (a b : A) → (beq a b ≡ true) ↔ (a ≡ b)

instance abbrev pub nat_eq : Eq ℕ
nat_eq = record { beq = nat_beq; beq_iff = nat_beq_iff }

abbrev pub str_iff : (s t : String) → (str_eq s t ≡ true) ↔ (s ≡ t)
str_iff = eq_iff

abbrev pub pair_beq : ℕ × String → ℕ × String → Bool
pair_beq (a, s) (b, t) = nat_beq a b && str_eq s t

pub pair_beq_iff : (p q : ℕ × String) → (pair_beq p q ≡ true) ↔ (p ≡ q)
pair_beq_iff (a, s) (b, t) = ground (arith, eq_iff s t)

instance abbrev pub string_eq : Eq String
string_eq = record { beq = str_eq; beq_iff = eq_iff }

instance abbrev pub pair_eq : Eq (ℕ × String)
pair_eq = record { beq = pair_beq; beq_iff = pair_beq_iff }

infix 50 ◌==◌
abbrev pub ◌==◌ {ℓ} : {A : Type ℓ} ⦃e : Eq A⦄ → A → A → Bool
◌==◌ ⦃e⦄ = e.beq
