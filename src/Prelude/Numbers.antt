-- ===== src/Prelude/Numbers.antt =====
-- Rust's `str::parse::<i64>` and the decimal print of an i64. A text that is not a number and one
-- that overflows are both refused.
use Prim.Native.Nat.{ℕ, zero, suc, ◌+◌, ◌-◌, ◌*◌, ◌/◌, ◌%◌, ◌^◌, ◌<◌}
use mathlib.Core.Path.{◌≡◌, refl, ap, ◌∙◌}
use mathlib.Core.Logic.{inl, inr}
use mathlib.Core.Bool.{Bool, true, false, ◌&&◌}
use mathlib.Core.List.{[], ◌∷◌}
use mathlib.Core.Option.{Option, none, some}
use native.Mathlib.Omega.{arith}
use hyprstate.Prelude.Tests.{eqb→eq, Bool-cases, ◌==◌, if◌then◌else◌, ltb, leb}
use hyprstate.Prelude.Lists.{all}
use hyprstate.Prelude.Texts.{Text}
use hyprstate.Prelude.Lines.{tight-cons, neat, is_space, is_empty, tight, one_line}
use hyprstate.Prelude.Int.{ℤ, pos, negsuc}

unfoldable pub is_digit : ℕ → Bool
is_digit c = leb b'0' c && leb c b'9'

-- The number that digits spell behind `n`.
unfoldable pub scan : Text → ℕ → Option ℕ
scan [] n = some n
scan (c ∷ s) n = let rest = scan s (n * 10 + (c - b'0')) in if is_digit c then rest else none

unfoldable pub magnitude : Text → Option ℕ
magnitude [] = none
magnitude (c ∷ s) = scan (c ∷ s) 0

abbrev pub negate : ℕ → ℤ
negate zero = pos 0
negate (suc n) = negsuc n

unfoldable pub not_negative : Option ℕ → Option ℤ
not_negative none = none
not_negative (some n) = if ltb n (2 ^ 63) then some (pos n) else none

unfoldable pub negated : Option ℕ → Option ℤ
negated none = none
negated (some n) = if leb n (2 ^ 63) then some (negate n) else none

unfoldable pub parse_i64 : Text → Option ℤ
parse_i64 [] = none
parse_i64 (c ∷ s) =
    if c == b'-'
    then negated (magnitude s)
    else (if c == b'+' then not_negative (magnitude s) else not_negative (magnitude (c ∷ s)))

-- The digits of `n` in front of `out`, on a fuel above `n`.
unfoldable pub digits : ℕ → ℕ → Text → Text
digits zero n out = out
digits (suc k) n out = elim (ltb 0 n) [
  | true ↦ digits k (n / 10) ((b'0' + n % 10) ∷ out)
  | false ↦ out
]

unfoldable pub print_nat : ℕ → Text
print_nat n = if n == 0 then b'0' ∷ [] else digits (suc n) n []

unfoldable pub print_i64 : ℤ → Text
print_i64 (pos n) = print_nat n
print_i64 (negsuc n) = b'-' ∷ print_nat (suc n)

-- The values of an i64.
abbrev pub fits_i64 : ℤ → Bool
fits_i64 (pos n) = ltb n (2 ^ 63)
fits_i64 (negsuc n) = ltb n (2 ^ 63)

scan_last : (n : ℕ) (out : Text) → scan ((b'0' + n % 10) ∷ out) (n / 10) ≡ scan out n
unfolding scan is_digit
scan_last n out = ground arith

digits-zero : (n : ℕ) (out : Text) → digits zero n out ≡ out
unfolding digits
digits-zero n out = refl

more_digits :
    (k n : ℕ) (out : Text)
    → ltb 0 n ≡ true
    → digits (suc k) n out ≡ digits k (n / 10) ((b'0' + n % 10) ∷ out)
unfolding digits
more_digits k n out h = ground arith

no_digits : (k n : ℕ) (out : Text) → ltb 0 n ≡ false → digits (suc k) n out ≡ out
unfolding digits
no_digits k n out h = ground arith

-- What every round of the loop keeps holds at its end.
digits-keeps {ℓ} :
    (P : Text → Type ℓ)
    → ((m : ℕ) (t : Text) → P t → P ((b'0' + m % 10) ∷ t))
    → (k n : ℕ) (out : Text) → P out
    → P (digits k n out)
digits-keeps P round zero n out h = rw (digits-zero n out) h
digits-keeps P round (suc k) n out h = elim (Bool-cases (ltb 0 n)) [
  | inl e ↦
      rw (more_digits k n out e)
        (digits-keeps P round k (n / 10) ((b'0' + n % 10) ∷ out) (round n out h))
  | inr e ↦ rw (no_digits k n out e) h
]

scan-digits : (k n : ℕ) (out : Text) → n < k → scan (digits k n out) 0 ≡ scan out n
scan-digits zero n out h = absurd (omega arith)
scan-digits (suc k) n out h = elim (Bool-cases (ltb 0 n)) [
  | inl e ↦
      rw (more_digits k n out e)
        (scan-digits k (n / 10) ((b'0' + n % 10) ∷ out) (ground arith) ∙ scan_last n out)
  | inr e ↦ rw (no_digits k n out e) (ap (scan out) (ground arith))
]

digit_round : (m : ℕ) (t : Text) → all is_digit t ≡ true → all is_digit ((b'0' + m % 10) ∷ t) ≡ true
unfolding is_digit
digit_round m t h = ground arith

pub print_nat-digits : (n : ℕ) → all is_digit (print_nat n) ≡ true
unfolding print_nat is_digit
print_nat-digits n = elim (Bool-cases (n == 0)) [
  | inl e ↦ rw e refl
  | inr e ↦ rw e (digits-keeps (λ t. all is_digit t ≡ true) digit_round (suc n) n [] refl)
]

first_digit : (n : ℕ) → (n == 0) ≡ false → is_empty (digits (suc n) n []) ≡ false
first_digit n h =
    rw (more_digits n n [] (ground arith)) (
      digits-keeps (λ t. is_empty t ≡ false) (λ m t e. refl) n (n / 10) ((b'0' + n % 10) ∷ []) refl)

pub print_nat-filled : (n : ℕ) → is_empty (print_nat n) ≡ false
unfolding print_nat
print_nat-filled n = elim (Bool-cases (n == 0)) [
  | inl e ↦ rw e refl
  | inr e ↦ rw e (first_digit n e)
]

magnitude-scan : (s : Text) → is_empty s ≡ false → magnitude s ≡ scan s 0
unfolding magnitude
magnitude-scan [] h = ground arith
magnitude-scan (c ∷ s) h = refl

magnitude-print_nat : (n : ℕ) → magnitude (print_nat n) ≡ some n
unfolding scan print_nat is_digit
magnitude-print_nat n = magnitude-scan (print_nat n) (print_nat-filled n) ∙ scanned
  where
    scanned : scan (print_nat n) 0 ≡ some n
    scanned = elim (Bool-cases (n == 0)) [
      | inl e ↦ rw (eqb→eq n 0 e) refl
      | inr e ↦ rw (print_nat, e) (scan-digits (suc n) n [] (omega arith))
    ]

unsigned :
    (s : Text)
    → all is_digit s ≡ true
    → is_empty s ≡ false
    → parse_i64 s ≡ not_negative (magnitude s)
unfolding parse_i64 is_digit
unsigned [] a h = ground arith
unsigned (c ∷ s) a h = ground arith

-- Every i64 that is printed is parsed back.
pub parse_i64-print_i64 : (z : ℤ) → fits_i64 z ≡ true → parse_i64 (print_i64 z) ≡ some z
unfolding parse_i64 print_i64 negated not_negative
parse_i64-print_i64 (pos n) h =
    unsigned (print_nat n) (print_nat-digits n) (print_nat-filled n)
    ∙ rw (magnitude-print_nat n, h) refl
parse_i64-print_i64 (negsuc n) h = rw (magnitude-print_nat (suc n)) (ground arith)

digit_not_space : (c : ℕ) → is_digit c ≡ true → is_space c ≡ false
unfolding is_digit is_space
digit_not_space c h = ground arith

pub digit_tight : (s : Text) → all is_digit s ≡ true → is_empty s ≡ false → tight s ≡ true
unfolding tight
digit_tight [] a h = ground arith
digit_tight (c ∷ []) a h = ground (arith, digit_not_space c)
digit_tight (c ∷ d ∷ s) a h = ground (arith, digit_tight (d ∷ s))

pub digit_one_line : (s : Text) → all is_digit s ≡ true → one_line s ≡ true
unfolding one_line is_digit
digit_one_line [] a = refl
digit_one_line (c ∷ s) a = ground (arith, digit_one_line s)

digit_neat : (s : Text) → all is_digit s ≡ true → is_empty s ≡ false → neat s ≡ true
unfolding neat
digit_neat [] a h = ground arith
digit_neat (c ∷ s) a h = ground (arith, digit_not_space c, digit_tight (c ∷ s) a h)

pub print_i64-neat : (z : ℤ) → neat (print_i64 z) ≡ true
unfolding print_i64 neat is_space
print_i64-neat (pos n) = digit_neat (print_nat n) (print_nat-digits n) (print_nat-filled n)
print_i64-neat (negsuc n) =
    tight-cons b'-' (print_nat (suc n)) (print_nat-filled (suc n))
      (digit_tight (print_nat (suc n)) (print_nat-digits (suc n)) (print_nat-filled (suc n)))

pub print_i64-one_line : (z : ℤ) → one_line (print_i64 z) ≡ true
unfolding print_i64 one_line
print_i64-one_line (pos n) = digit_one_line (print_nat n) (print_nat-digits n)
print_i64-one_line (negsuc n) = digit_one_line (print_nat (suc n)) (print_nat-digits (suc n))
