-- ===== src/Data/Text/Scan.antt =====
-- strings.Split on one separator, and the verbs `%d` of fmt.Sscanf.
use Prim.Native.Char.{code, Char}
use Prim.Native.Nat.{zero, suc}
use Prim.Native.String.{[], ◌∷◌, ◌++◌}
use Prim.Native.String.append
use mathlib.Core.List.{List, [], ◌∷◌}
use mathlib.Core.List.{◌++◌ as append}
use wireguard_babeld_igp.Base.{
  ap, sym, ◌∙◌, ℕ, ◌+◌, ◌-◌, ◌*◌, ◌≡◌, refl, Bool-cases, inl, inr, arith, String, Bool, false,
  Option, none, some, ◌&&◌, ◌||◌, leb, if◌then◌else◌,
}
use wireguard_babeld_igp.Base.Int.{ℤ, pos, negsuc, max_int}
use wireguard_babeld_igp.Data.Text.{contains_char}

cons_head : Char → List String → List String
cons_head c [] = (c ∷ []) ∷ []
cons_head c (s ∷ l) = (c ∷ s) ∷ l

-- strings.Split(s, d) for a separator of one ASCII character, given by its code.
unfoldable pub split : ℕ → String → List String
unfolding cons_head
split d [] = [] ∷ []
split d (c ∷ s) =
    let rest = split d s in if leb d (code c) && leb (code c) d then [] ∷ rest else cons_head c rest

pub split_last : (d : ℕ) (s : String) → contains_char d s ≡ false → split d s ≡ s ∷ []
unfolding split contains_char cons_head
split_last d [] h = refl
split_last d (c ∷ s) h = ground (arith, split_last d s)

pub split_first :
    (d : ℕ) (s t : String) (c : Char)
    → contains_char d s ≡ false
    → code c ≡ d
    → split d (s ++ (c ∷ t)) ≡ s ∷ split d t
unfolding split contains_char cons_head
split_first d [] t c h e = ground (arith, append.nil (c ∷ t), e)
split_first d (x ∷ s) t c h e = ground (arith, split_first d s t c, append.cons x s (c ∷ t))

split_cons : (d : ℕ) (p : String) → (s : String) × (l : List String) × (split d p ≡ (s ∷ l))
unfolding split cons_head
split_cons d [] = ([], [], refl)
split_cons d (c ∷ p) =
    let (s, l, e) = split_cons d p in
    elim (Bool-cases (leb d (code c) && leb (code c) d)) [
      | inl t ↦ rw t ([], split d p, refl)
      | inr t ↦ rw (t, e) (c ∷ s, l, refl)
    ]

cons_head-append :
    (x : Char) (a r : List String) (s : String) (l : List String)
    → a ≡ s ∷ l
    → cons_head x (append a r) ≡ append (cons_head x a) r
unfolding cons_head
cons_head-append x a r s l e = rw e refl

pub append_moved : (p s : String) (c : Char) → (p ++ (c ∷ [])) ++ s ≡ p ++ (c ∷ s)
append_moved [] s c =
    ap (λ t. t ++ s) (append.nil (c ∷ []))
    ∙ append.cons c [] s
    ∙ ap (λ t. c ∷ t) (append.nil s)
    ∙ sym (append.nil (c ∷ s))
append_moved (x ∷ p) s c =
    ap (λ t. t ++ s) (append.cons x p (c ∷ []))
    ∙ append.cons x (p ++ (c ∷ [])) s
    ∙ ap (λ t. x ∷ t) (append_moved p s c)
    ∙ sym (append.cons x p (c ∷ s))

-- A separator between two texts parts them.
pub split-append :
    (d : ℕ) (p s : String) (c : Char)
    → code c ≡ d
    → split d (p ++ (c ∷ s)) ≡ append (split d p) (split d s)
unfolding split
split-append d [] s c e = ground (arith, append.nil (c ∷ s), e)
split-append d (x ∷ p) s c e =
    let (w, l, f) = split_cons d p in
    ground (
      arith,
      append.cons x p (c ∷ s),
      split-append d p s c e,
      cons_head-append x (split d p) (split d s) w l f,
    )

-- What is left of `s` after the prefix `p`.
unfoldable pub strip_prefix : String → String → Option String
strip_prefix [] s = some s
strip_prefix (d ∷ p) [] = none
strip_prefix (d ∷ p) (c ∷ s) =
    let rest = strip_prefix p s in
    if leb (code d) (code c) && leb (code c) (code d) then rest else none

-- The blanks that fmt skips before a number. It refuses a line feed, which is no digit either.
is_blank : ℕ → Bool
is_blank n =
    (leb 9 n && leb n 9)
    || ((leb 11 n && leb n 13)
        || ((leb 32 n && leb n 32)
            || ((leb 133 n && leb n 133)
                || ((leb 160 n && leb n 160)
                    || ((leb 5760 n && leb n 5760)
                        || ((leb 8192 n && leb n 8202)
                            || ((leb 8232 n && leb n 8233)
                                || ((leb 8239 n && leb n 8239)
                                    || ((leb 8287 n && leb n 8287)
                                        || (leb 12288 n && leb n 12288))))))))))

skip_blanks : String → String
unfolding is_blank
skip_blanks [] = []
skip_blanks (c ∷ s) = let rest = skip_blanks s in if is_blank (code c) then rest else c ∷ s

is_digit : Char → Bool
is_digit c = leb 48 (code c) && leb (code c) 57

take_digits : ℕ → String → ℕ × String
unfolding is_digit
take_digits n [] = (n, [])
take_digits n (c ∷ s) =
    let rest = take_digits (n * 10 + (code c - 48)) s in if is_digit c then rest else (n, c ∷ s)

in_range : (ℕ → Option ℤ) → ℕ × String → Option (ℤ × String)
in_range value (n, rest) = elim (value n) [ none ↦ none | some z ↦ some (z, rest) ]

-- At least one digit, and the number within an `int`.
scan_digits : (ℕ → Option ℤ) → String → Option (ℤ × String)
unfolding take_digits in_range is_digit
scan_digits value [] = none
scan_digits value (c ∷ s) = if is_digit c then in_range value (take_digits 0 (c ∷ s)) else none

positive : ℕ → Option ℤ
positive n = if leb n max_int then some (pos n) else none

negative : ℕ → Option ℤ
negative zero = some (pos 0)
negative (suc n) = if leb n max_int then some (negsuc n) else none

scan_signed : String → Option (ℤ × String)
unfolding scan_digits positive negative
scan_signed [] = none
scan_signed (c ∷ s) =
    if leb 43 (code c) && leb (code c) 43
    then scan_digits positive s
    else if leb 45 (code c) && leb (code c) 45
    then scan_digits negative s
    else scan_digits positive (c ∷ s)

-- `p%d` of fmt.Sscanf: the number after the text `p`, and what follows it.
unfoldable pub scan_after : String → String → Option (ℤ × String)
unfolding strip_prefix skip_blanks scan_signed
scan_after p s = elim (strip_prefix p s) [
  | none ↦ none
  | some rest ↦ scan_signed (skip_blanks rest)
]

-- strings.Cut(s, d) for a separator of one ASCII character, given by its code: the parts around its
-- first occurrence, if it has one.
unfoldable pub cut : ℕ → String → Option (String × String)
cut d [] = none
cut d (c ∷ s) =
    let rest = cut d s in
    if leb d (code c) && leb (code c) d
    then some ([], s)
    else elim rest [ none ↦ none | some (a, b) ↦ some (c ∷ a, b) ]

pub cut_first :
    (d : ℕ) (s t : String) (c : Char)
    → contains_char d s ≡ false
    → code c ≡ d
    → cut d (s ++ (c ∷ t)) ≡ some (s, t)
unfolding cut contains_char
cut_first d [] t c h e = ground (arith, append.nil (c ∷ t), e)
cut_first d (x ∷ s) t c h e = ground (arith, cut_first d s t c, append.cons x s (c ∷ t))

lower : ℕ → ℕ
lower n = if leb 65 n && leb n 90 then n + 32 else n

-- What is left of `s` after a prefix that is `p` under strings.EqualFold, for an ASCII text `p`.
unfoldable pub strip_fold : String → String → Option String
unfolding lower
strip_fold [] s = some s
strip_fold (d ∷ p) [] = none
strip_fold (d ∷ p) (c ∷ s) =
    let rest = strip_fold p s in
    if leb (lower (code d)) (lower (code c)) && leb (lower (code c)) (lower (code d))
    then rest
    else none

pub strip_fold_self : (p s : String) → strip_fold p (p ++ s) ≡ some s
unfolding strip_fold
strip_fold_self [] s = ap some (append.nil s)
strip_fold_self (c ∷ p) s = ground (arith, append.cons c p s, strip_fold_self p s)
