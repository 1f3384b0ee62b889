-- ===== src/Base/Int.antt =====
-- Go's `int` (64 bits on the platforms of the program) and `int32`, as integers that wrap.
use native.Mathlib.Decide.{ℕ_discrete}
use Prim.Native.Nat.{ℕ, suc, ◌+◌, ◌-◌, ◌/◌, ◌%◌, ◌^◌, ◌≤◌, ◌<◌}
use mathlib.Core.Path.{◌≡◌, ap}
use mathlib.Core.Logic.{◌≢◌}
use mathlib.Core.Bool.{Bool}
use native.Mathlib.Omega.{arith}
use wireguard_babeld_igp.Base.Tests.{ltb, if◌then◌else◌, Key}

-- `negsuc n` is -(n + 1).
pub data ℤ : Type 0 where
  pos : ℕ → ℤ
  negsuc : ℕ → ℤ

abbrev pub pos_part : ℤ → ℕ
pos_part (pos n) = n
pos_part (negsuc n) = 0

abbrev pub neg_part : ℤ → ℕ
neg_part (pos n) = 0
neg_part (negsuc n) = suc n

pub pos-injective : {a b : ℕ} → pos a ≡ pos b → a ≡ b
pos-injective e = ap pos_part e

pub negsuc-injective : {a b : ℕ} → negsuc a ≡ negsuc b → a ≡ b
negsuc-injective e = cc

pub pos≢negsuc : {a b : ℕ} → pos a ≢ negsuc b
pos≢negsuc e = cc

pub negsuc≢pos : {a b : ℕ} → negsuc a ≢ pos b
negsuc≢pos e = cc

dec_ap : {A : Type 0} {x y : A} (a b : ℕ) → (a ≡ b → x ≡ y) → (x ≡ y → a ≡ b) → Dec (x ≡ y)
unfolding ℕ_discrete
dec_ap a b f g = elim (ℕ_discrete a b) [ yes e ↦ yes (f e) | no n ↦ no (λ p. n (g p)) ]

unfoldable pub ℤ_discrete : Discrete ℤ
unfolding dec_ap
ℤ_discrete (pos a) (pos b) = dec_ap a b (ap pos) pos-injective
ℤ_discrete (negsuc a) (negsuc b) = dec_ap a b (ap negsuc) negsuc-injective
ℤ_discrete (pos a) (negsuc b) = no pos≢negsuc
ℤ_discrete (negsuc a) (pos b) = no negsuc≢pos

instance abbrev pub int_key : Key ℤ
int_key = record { dec_eq = ℤ_discrete }

infix 50 ◌≤ℤ◌ ◌<ℤ◌
abbrev pub ◌≤ℤ◌ : ℤ → ℤ → Type 0
a ≤ℤ b = pos_part a + neg_part b ≤ pos_part b + neg_part a

abbrev pub ◌<ℤ◌ : ℤ → ℤ → Type 0
a <ℤ b = pos_part a + neg_part b < pos_part b + neg_part a

abbrev pub ltb_ℤ : ℤ → ℤ → Bool
ltb_ℤ a b = ltb (pos_part a + neg_part b) (pos_part b + neg_part a)

-- The bit pattern of an integer modulo `m`, and the integer in the signed range that it stands for.
abbrev residue : ℕ → ℤ → ℕ
residue m (pos n) = n % m
residue m (negsuc n) = m - 1 - n % m

abbrev signed : ℕ → ℕ → ℤ
signed m r = if ltb r (m / 2) then pos r else negsuc (m - 1 - r)

-- The conversion to `int32`.
unfoldable pub to_int32 : ℤ → ℤ
to_int32 a = signed (2 ^ 32) (residue (2 ^ 32) a)

-- The conversion to `int64`.
unfoldable pub to_int64 : ℤ → ℤ
to_int64 a = signed (2 ^ 64) (residue (2 ^ 64) a)

abbrev pub max_int : ℕ
max_int = 2 ^ 63 - 1

suc_ℤ : ℤ → ℤ
suc_ℤ (pos n) = pos (n + 1)
suc_ℤ (negsuc n) = if ltb 0 n then negsuc (n - 1) else pos 0

-- `x + 1` and `x++` on an `int`.
unfoldable pub inc : ℤ → ℤ
unfolding suc_ℤ
inc a = signed (2 ^ 64) (residue (2 ^ 64) (suc_ℤ a))

-- The values of type `int`, and of type `int32`.
abbrev pub IsInt : ℤ → Type 0
IsInt a = (pos_part a ≤ max_int) × (neg_part a ≤ max_int + 1)

abbrev pub IsInt32 : ℤ → Type 0
IsInt32 a = (pos_part a < 2 ^ 31) × (neg_part a ≤ 2 ^ 31)

pub inc_bounds : (a : ℤ) → IsInt (inc a)
unfolding inc
inc_bounds a = ground arith

-- Below the largest `int` the increment is exact.
pub inc_parts :
    (a : ℤ)
    → IsInt a
    → a <ℤ pos max_int
    → pos_part (inc a) + neg_part a ≡ neg_part (inc a) + pos_part a + 1
unfolding inc
inc_parts (pos n) h l = ground arith
inc_parts (negsuc n) h l = ground arith

pub to_int32_self : (a : ℤ) → IsInt32 a → to_int32 a ≡ a
unfolding to_int32
to_int32_self (pos n) h = ground arith
to_int32_self (negsuc n) h = ground arith

pub to_int32_bounds : (a : ℤ) → IsInt32 (to_int32 a)
unfolding to_int32
to_int32_bounds a = ground arith

pub eq_of_parts : (a b : ℤ) → pos_part a + neg_part b ≡ pos_part b + neg_part a → a ≡ b
eq_of_parts a b h = ground arith
