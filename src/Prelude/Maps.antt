-- ===== src/Prelude/Maps.antt =====
-- An `unordered_map` as a function to `Option`: what the program does with one is `find`, `[]`,
-- `erase`, and no iteration.
use Prim.Native.Nat.{ℕ}
use mathlib.Core.Path.{◌≡◌}
use mathlib.Core.Logic.{◌↔◌}
use mathlib.Core.Bool.{Bool, true}
use mathlib.Core.Option.{Option, none, some}
use coroutine_library.Prelude.Tests.{◌==◌, ==_iff, if◌then◌else◌}
use coroutine_library.Prelude.Int.{ℤ, int_eq, int_eq_iff}

pub record Eq {ℓ} (A : Type ℓ) : Type ℓ where
  pub beq : A → A → Bool
  pub beq_iff : (a b : A) → (beq a b ≡ true) ↔ (a ≡ b)

instance abbrev pub nat_eq : Eq ℕ
nat_eq = record { beq = ◌==◌; beq_iff = ==_iff }

instance abbrev pub int_key : Eq ℤ
int_key = record { beq = int_eq; beq_iff = int_eq_iff }

abbrev pub Map {ℓ κ} : Type ℓ → Type κ → Type (ℓ ⊔ κ)
Map K V = K → Option V

module _ {ℓ κ} {K : Type ℓ} {V : Type κ} ⦃e : Eq K⦄ where
  abbrev pub put : Map K V → K → V → Map K V
  put m k v j = if e.beq k j then some v else m j

  abbrev pub erase : Map K V → K → Map K V
  erase m k j = if e.beq k j then none else m j

abbrev pub empty_map {ℓ κ} : {K : Type ℓ} {V : Type κ} → Map K V
empty_map k = none
