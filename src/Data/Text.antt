-- ===== src/Data/Text.antt =====
-- The functions of `strconv`, `strings` and `fmt` that the program calls, on texts.
pub mod Scan
pub mod Decimal
use Prim.Native.Char.{code, Char}
use Prim.Native.String.{[], ◌∷◌, ◌++◌}
use Prim.Native.String.append
use wireguard_babeld_igp.Base.{
  refl, ◌≡◌, ◌<◌, arith, ℕ, zero, suc, ◌+◌, ◌-◌, ◌*◌, String, Option, none, some, ◌&&◌, leb,
  if◌then◌else◌, ◌%◌, ◌/◌, Bool, false, true, ◌<◌, ◌≡◌, arith,
}
use wireguard_babeld_igp.Base.Int.{ℤ, pos, negsuc, max_int}

-- The digits of a decimal number, after those that gave `n`.
digits : ℕ → String → Option ℕ
digits n [] = some n
digits n (c ∷ s) =
    let d = code c in
    let rest = digits (n * 10 + (d - 48)) s in if leb 48 d && leb d 57 then rest else none

unsigned : String → Option ℕ
unfolding digits
unsigned [] = none
unsigned (c ∷ s) = digits 0 (c ∷ s)

positive : Option ℕ → Option ℤ
positive none = none
positive (some n) = if leb n max_int then some (pos n) else none

negative : Option ℕ → Option ℤ
negative none = none
negative (some zero) = some (pos 0)
negative (some (suc n)) = if leb n max_int then some (negsuc n) else none

-- strconv.Atoi: an optional sign, then digits; `none` is its error, for syntax or for range.
unfoldable pub atoi : String → Option ℤ
unfolding unsigned positive negative
atoi [] = none
atoi (c ∷ s) =
    if leb 43 (code c) && leb (code c) 43
    then positive (unsigned s)
    else if leb 45 (code c) && leb (code c) 45
    then negative (unsigned s)
    else positive (unsigned (c ∷ s))

-- strings.SplitN(s, " ", 2): the parts, if there are two.
unfoldable pub split_space : String → Option (String × String)
split_space [] = none
split_space (c ∷ s) =
    if leb 32 (code c) && leb (code c) 32
    then some ([], s)
    else elim (split_space s) [ none ↦ none | some (a, b) ↦ some (c ∷ a, b) ]

digit : ℕ → Char
digit zero = "0"
digit (suc zero) = "1"
digit (suc (suc zero)) = "2"
digit (suc (suc (suc zero))) = "3"
digit (suc (suc (suc (suc zero)))) = "4"
digit (suc (suc (suc (suc (suc zero))))) = "5"
digit (suc (suc (suc (suc (suc (suc zero)))))) = "6"
digit (suc (suc (suc (suc (suc (suc (suc zero))))))) = "7"
digit (suc (suc (suc (suc (suc (suc (suc (suc zero)))))))) = "8"
digit _ = "9"

-- The decimal digits of `n` before `rest`. Each round divides `n` by ten, so `suc n` rounds suffice.
show_before : ℕ → ℕ → String → String
unfolding digit
show_before zero n rest = rest
show_before (suc rounds) n rest =
    let text = digit (n % 10) ∷ rest in
    let more = show_before rounds (n / 10) text in if leb n 9 then text else more

-- `%d` on a number that is not negative.
unfoldable pub show_ℕ : ℕ → String
unfolding show_before
show_ℕ n = show_before (suc n) n []

-- `%d` on an `int`.
unfoldable pub show_ℤ : ℤ → String
unfolding show_ℕ
show_ℤ (pos n) = show_ℕ n
show_ℤ (negsuc n) = "-" ++ show_ℕ (suc n)

-- strings.Contains(s, c) for a text of one ASCII character, given by its code.
unfoldable pub contains_char : ℕ → String → Bool
contains_char d [] = false
contains_char d (c ∷ s) =
    let rest = contains_char d s in if leb d (code c) && leb (code c) d then true else rest

-- strings.HasPrefix(s, p)
unfoldable pub starts_with : String → String → Bool
starts_with [] s = true
starts_with (d ∷ p) [] = false
starts_with (d ∷ p) (c ∷ s) =
    let rest = starts_with p s in
    if leb (code d) (code c) && leb (code c) (code d) then rest else false

-- strings.Contains(s, p)
unfoldable pub contains : String → String → Bool
unfolding starts_with
contains p [] = starts_with p []
contains p (c ∷ s) = let rest = contains p s in if starts_with p (c ∷ s) then true else rest

starts_with_self : (p : String) → starts_with p p ≡ true
unfolding starts_with
starts_with_self [] = refl
starts_with_self (c ∷ p) = ground (arith, starts_with_self p)

contains_self : (p : String) → contains p p ≡ true
unfolding contains
contains_self [] = starts_with_self []
contains_self (c ∷ p) = ground (arith, starts_with_self (c ∷ p))

-- A text contains each of its ends.
pub contains_end : (p s : String) → contains p (s ++ p) ≡ true
unfolding contains
contains_end p [] = rw (append.nil p) (contains_self p)
contains_end p (c ∷ s) = ground (arith, append.cons c s p, contains_end p s)

text_length : String → ℕ
text_length [] = 0
text_length (c ∷ s) = suc (text_length s)

-- `skip` is how much of the text belongs to an occurrence that is already replaced.
replace_after : ℕ → String → String → String → String
unfolding starts_with text_length
replace_after skip old new [] = []
replace_after (suc skip) old new (c ∷ s) = replace_after skip old new s
replace_after zero old new (c ∷ s) =
    let found = new ++ replace_after (text_length old - 1) old new s in
    let kept = c ∷ replace_after zero old new s in if starts_with old (c ∷ s) then found else kept

-- strings.ReplaceAll(s, old, new), for an `old` that is not empty.
unfoldable pub replace_all : String → String → String → String
unfolding replace_after
replace_all old new s = replace_after zero old new s

hex_digit : ℕ → Char
unfolding digit
hex_digit (suc (suc (suc (suc (suc (suc (suc (suc (suc (suc zero)))))))))) = "a"
hex_digit (suc (suc (suc (suc (suc (suc (suc (suc (suc (suc (suc zero))))))))))) = "b"
hex_digit (suc (suc (suc (suc (suc (suc (suc (suc (suc (suc (suc (suc zero)))))))))))) = "c"
hex_digit (suc (suc (suc (suc (suc (suc (suc (suc (suc (suc (suc (suc (suc zero))))))))))))) = "d"
hex_digit (suc (suc (suc (suc (suc (suc (suc (suc (suc (suc (suc (suc (suc (suc zero)))))))))))))) =
    "e"
hex_digit
      (suc
        (suc (suc (suc (suc (suc (suc (suc (suc (suc (suc (suc (suc (suc (suc zero))))))))))))))) =
    "f"
hex_digit n = digit n

hex_before : ℕ → ℕ → String → String
unfolding hex_digit
hex_before zero n rest = rest
hex_before (suc rounds) n rest =
    let text = hex_digit (n % 16) ∷ rest in
    let more = hex_before rounds (n / 16) text in if leb n 15 then text else more

-- `%x` on an `int`.
unfoldable pub show_hex : ℤ → String
unfolding hex_before
show_hex (pos n) = hex_before (suc n) n []
show_hex (negsuc n) = "-" ++ hex_before (suc (suc n)) (suc n) []

-- Both formats write a number below ten as one digit, the same one.
pub show_hex-show_ℤ : (n : ℕ) → n < 10 → show_hex (pos n) ≡ show_ℤ (pos n)
unfolding show_hex show_ℤ
show_hex-show_ℤ zero h = refl
show_hex-show_ℤ (suc zero) h = refl
show_hex-show_ℤ (suc (suc zero)) h = refl
show_hex-show_ℤ (suc (suc (suc zero))) h = refl
show_hex-show_ℤ (suc (suc (suc (suc zero)))) h = refl
show_hex-show_ℤ (suc (suc (suc (suc (suc zero))))) h = refl
show_hex-show_ℤ (suc (suc (suc (suc (suc (suc zero)))))) h = refl
show_hex-show_ℤ (suc (suc (suc (suc (suc (suc (suc zero))))))) h = refl
show_hex-show_ℤ (suc (suc (suc (suc (suc (suc (suc (suc zero)))))))) h = refl
show_hex-show_ℤ (suc (suc (suc (suc (suc (suc (suc (suc (suc zero))))))))) h = refl
show_hex-show_ℤ (suc (suc (suc (suc (suc (suc (suc (suc (suc (suc n)))))))))) h = ground arith
