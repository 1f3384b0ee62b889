-- ===== src/Data/Text/Decimal.antt =====
-- Numbers in decimal, written by fmt and read by strconv.Atoi.
use Prim.Native.Char.{code, Char}
use Prim.Native.String.{[], ◌∷◌, ◌++◌}
use Prim.Native.String.append
use wireguard_babeld_igp.Base.{
  ℕ, zero, suc, ◌+◌, ◌*◌, ◌/◌, ◌%◌, ◌<◌, ◌≡◌, ◌≢◌, ◌⊎◌, inl, inr, refl, ap, ◌∙◌, arith, String,
  false, Bool-cases, some, leb,
}
use wireguard_babeld_igp.Base.Int.{ℤ, pos, negsuc, IsInt}
use wireguard_babeld_igp.Data.Text.{
  digit, digits, unsigned, positive, negative, atoi, show_before, show_ℕ, show_ℤ, contains_char,
}

-- The digits stand at the codes from 48 on.
code-digit : (k : ℕ) → k < 10 → code (digit k) ≡ 48 + k
unfolding digit
code-digit zero h = refl
code-digit (suc zero) h = refl
code-digit (suc (suc zero)) h = refl
code-digit (suc (suc (suc zero))) h = refl
code-digit (suc (suc (suc (suc zero)))) h = refl
code-digit (suc (suc (suc (suc (suc zero))))) h = refl
code-digit (suc (suc (suc (suc (suc (suc zero)))))) h = refl
code-digit (suc (suc (suc (suc (suc (suc (suc zero))))))) h = refl
code-digit (suc (suc (suc (suc (suc (suc (suc (suc zero)))))))) h = refl
code-digit (suc (suc (suc (suc (suc (suc (suc (suc (suc zero))))))))) h = refl
code-digit (suc (suc (suc (suc (suc (suc (suc (suc (suc (suc k)))))))))) h = omega (arith, h)

digits-digit : (n k : ℕ) (s : String) → k < 10 → digits n (digit k ∷ s) ≡ digits (n * 10 + k) s
unfolding digits
digits-digit n k s h = ground (arith, code-digit k h)

digits-show_before :
    (rounds n : ℕ) (rest : String)
    → n < rounds
    → digits 0 (show_before rounds n rest) ≡ digits n rest
unfolding show_before
digits-show_before zero n rest h = absurd (omega (arith, h))
digits-show_before (suc rounds) n rest h = elim (Bool-cases (leb n 9)) [
  | inl e ↦
      rw e
        (digits-digit 0 (n % 10) rest (omega arith) ∙ ap (λ m. digits m rest) (ground (arith, e)))
  | inr e ↦ rw e (
      digits-show_before rounds (n / 10) (digit (n % 10) ∷ rest) (ground (arith, e, h))
      ∙ digits-digit (n / 10) (n % 10) rest (omega arith)
      ∙ ap (λ m. digits m rest) (omega arith))
]

-- A text that begins with a digit.
FromDigit : String → Type 0
FromDigit s = (k : ℕ) × (t : String) × (k < 10) × (s ≡ (digit k ∷ t))

show_before-FromDigit :
    (rounds n : ℕ) (rest : String)
    → (0 < rounds) ⊎ FromDigit rest
    → FromDigit (show_before rounds n rest)
unfolding FromDigit show_before
show_before-FromDigit zero n rest (inl h) = absurd (omega (arith, h))
show_before-FromDigit zero n rest (inr h) = h
show_before-FromDigit (suc rounds) n rest h = elim (Bool-cases (leb n 9)) [
  | inl e ↦ rw e (n % 10, rest, omega arith, refl)
  | inr e ↦ rw e (
      show_before-FromDigit rounds (n / 10) (digit (n % 10) ∷ rest)
        (inr (n % 10, rest, omega arith, refl)))
]

unsigned_from : (s : String) → FromDigit s → unsigned s ≡ digits 0 s
unfolding FromDigit unsigned
unsigned_from s (k, t, l, e) = rw e refl

atoi_from : (s : String) → FromDigit s → atoi s ≡ positive (unsigned s)
unfolding FromDigit atoi
atoi_from s (k, t, l, e) = rw e (ground (arith, code-digit k l))

show_ℕ-FromDigit : (n : ℕ) → FromDigit (show_ℕ n)
unfolding show_ℕ
show_ℕ-FromDigit n = show_before-FromDigit (suc n) n [] (inl (omega arith))

unsigned-show_ℕ : (n : ℕ) → unsigned (show_ℕ n) ≡ some n
unfolding show_ℕ digits
unsigned-show_ℕ n =
    unsigned_from (show_ℕ n) (show_ℕ-FromDigit n) ∙ digits-show_before (suc n) n [] (omega arith)

minus : Char
minus = "-"

minus_cons : (s : String) → "-" ++ s ≡ minus ∷ s
unfolding minus
minus_cons s = append.cons "-" [] s ∙ ap (λ t. minus ∷ t) (append.nil s)

atoi_minus : (s : String) → atoi ("-" ++ s) ≡ negative (unsigned s)
unfolding atoi minus
atoi_minus s = rw (minus_cons s) refl

-- Atoi reads back the decimal text of every `int`.
pub atoi-show_ℤ : (z : ℤ) → IsInt z → atoi (show_ℤ z) ≡ some z
unfolding show_ℤ positive negative
atoi-show_ℤ (pos n) i =
    atoi_from (show_ℕ n) (show_ℕ-FromDigit n) ∙ ap positive (unsigned-show_ℕ n) ∙ ground (arith, i)
atoi-show_ℤ (negsuc n) i =
    atoi_minus (show_ℕ (suc n)) ∙ ap negative (unsigned-show_ℕ (suc n)) ∙ ground (arith, i)

-- A character that no decimal text has, given by its code.
unfoldable pub NotDecimal : ℕ → Type 0
NotDecimal d = (d ≢ 45) × ((d < 48) ⊎ (57 < d))

no_char-show_before :
    (d rounds n : ℕ) (rest : String)
    → NotDecimal d
    → contains_char d (show_before rounds n rest) ≡ contains_char d rest
unfolding NotDecimal show_before contains_char
no_char-show_before d zero n rest h = refl
no_char-show_before d (suc rounds) n rest h =
    let other : contains_char d (digit (n % 10) ∷ rest) ≡ contains_char d rest =
      ground (arith, code-digit (n % 10)) in
    elim (Bool-cases (leb n 9)) [
      | inl e ↦ rw e other
      | inr e ↦ rw e (no_char-show_before d rounds (n / 10) (digit (n % 10) ∷ rest) h ∙ other)
    ]

pub no_char-show_ℤ : (d : ℕ) (z : ℤ) → NotDecimal d → contains_char d (show_ℤ z) ≡ false
unfolding NotDecimal show_ℤ show_ℕ contains_char minus
no_char-show_ℤ d (pos n) h = no_char-show_before d (suc n) n [] h
no_char-show_ℤ d (negsuc n) h =
    ap (contains_char d) (minus_cons (show_ℕ (suc n)))
    ∙ ground (arith, no_char-show_before d (suc (suc n)) (suc n) [] h)
