-- ===== src/Base/Keys.antt =====
-- Decidable equality of keys as an interface, with its instances.
use mathlib.Core.Path.{◌≡◌, refl}
use mathlib.Core.Logic.{◌↔◌, ◌≢◌}
use mathlib.Core.Bool.{Bool, true, false, ◌&&◌}
use native.Mathlib.Omega.{arith}
use Prim.Native.Nat.{ℕ}
use whatsmcp.Base.Tests.{◌==◌, ==_iff}
use whatsmcp.Base.Strings.{Text, text_eq, text_eq_iff}

pub record Key {ℓ} (K : Type ℓ) : Type ℓ where
  pub beq : K → K → Bool
  pub beq_iff : (a b : K) → (beq a b ≡ true) ↔ (a ≡ b)

abbrev pub same {ℓ} : {K : Type ℓ} ⦃e : Key K⦄ → K → K → Bool
same ⦃e⦄ = e.beq

module _ {ℓ} {K : Type ℓ} ⦃e : Key K⦄ where
  pub same_refl : (a : K) → same a a ≡ true
  same_refl a = (e.beq_iff a a).1 refl

  pub same_comm : (a b : K) → same a b ≡ same b a
  same_comm a b = ground (arith, e.beq_iff a b, e.beq_iff b a)

  pub same-eq-false : (a b : K) → a ≢ b → same a b ≡ false
  same-eq-false a b h = ground (arith, e.beq_iff a b)

instance abbrev pub text_key : Key Text
text_key = record { beq = text_eq; beq_iff = text_eq_iff }

abbrev pub pair_eq : Text × Text → Text × Text → Bool
pair_eq (a, b) (c, d) = text_eq a c && text_eq b d

pub pair_eq_iff : (p q : Text × Text) → (pair_eq p q ≡ true) ↔ (p ≡ q)
pair_eq_iff (a, b) (c, d) = ground (arith, text_eq_iff a c, text_eq_iff b d)

instance abbrev pub pair_key : Key (Text × Text)
pair_key = record { beq = pair_eq; beq_iff = pair_eq_iff }

instance abbrev pub nat_key : Key ℕ
nat_key = record { beq = ◌==◌; beq_iff = ==_iff }
