-- ===== src/Base/Tests.antt =====
-- Tests, the conditional, and the interface of types whose values the code compares by `==`.
use Prim.Native.Nat.{ℕ, compare, Ordering}
use Prim.Native.String.{String}
use mathlib.Core.Path.{◌≡◌, refl}
use mathlib.Core.Logic.{ite, ◌↔◌, ◌⊎◌, inl, inr}
use mathlib.Core.Bool.{Bool, true, false, false≢true}
use mathlib.Core.Option.{Option, none, some}
use native.Mathlib.Decide.{ℕ_discrete}
use text.Mathlib.Text.{◌==◌ as str_eq}
use text.Mathlib.TextEquality.{eq_iff}

-- Both tests compute to `compare`, which `ground` and `grind` read.
abbrev pub ltb : ℕ → ℕ → Bool
ltb a b = elim (compare a b) [ Ordering.lt ↦ true | _ ↦ false ]

abbrev pub leb : ℕ → ℕ → Bool
leb a b = elim (compare a b) [ Ordering.gt ↦ false | _ ↦ true ]

infix 1 if◌then◌else◌
abbrev pub if◌then◌else◌ {ℓ} : {A : Type ℓ} → Bool → A → A → A
if true then x else y = x
if false then x else y = y

pub Bool-cases : (b : Bool) → (b ≡ true) ⊎ (b ≡ false)
Bool-cases true = inl refl
Bool-cases false = inr refl

pub Option-cases {ℓ} : {A : Type ℓ} (o : Option A) → (o ≡ none) ⊎ ((a : A) × (o ≡ some a))
Option-cases none = inl refl
Option-cases (some a) = inr (a, refl)

dec_of_iff {ℓ} : {P : Type ℓ} (b : Bool) → ((b ≡ true) ↔ P) → Dec P
dec_of_iff true e = yes (e.0 refl)
dec_of_iff false e = no (λ p. false≢true (e.1 p))

unfoldable pub String_discrete : Discrete String
unfolding dec_of_iff
String_discrete a b = dec_of_iff (str_eq a b) (eq_iff a b)

pub record Key {ℓ} (K : Type ℓ) : Type ℓ where
  pub dec_eq : Discrete K

infix 50 ◌=?◌
abbrev pub ◌=?◌ {ℓ} : {K : Type ℓ} ⦃k : Key K⦄ → Discrete K
◌=?◌ ⦃k⦄ = k.dec_eq

instance abbrev pub nat_key : Key ℕ
nat_key = record { dec_eq = ℕ_discrete }

instance abbrev pub string_key : Key String
string_key = record { dec_eq = String_discrete }

-- To prove a statement about both branches of a test.
pub ite_ind {ℓ κ μ} :
    {X : Type ℓ} {A : Type κ} (P : A → Type μ) (d : Dec X) (a b : A)
    → (X → P a)
    → (¬ X → P b)
    → P (ite d a b)
ite_ind P (yes x) a b f g = f x
ite_ind P (no n) a b f g = g n
