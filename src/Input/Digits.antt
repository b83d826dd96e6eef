-- ===== src/Input/Digits.antt =====
-- A number that std::to_string writes is read back.
use sis_op_ii.Common.{
  ℕ, zero, suc, ◌+◌, ◌*◌, ◌/◌, ◌%◌, ◌^◌, ◌<◌, ◌≡◌, refl, ap, ◌∙◌, Bool, true, false, some, [], ◌∷◌,
  Text, arith, ◌==◌, if◌then◌else◌, ◌>>=◌,
}
use sis_op_ii.Common.Int.{ℤ, pos, negsuc}
use sis_op_ii.Common.Word.{IsInt}
use sis_op_ii.Input.{
  is_space, skip_spaces, is_digit, read_digits, read_magnitude, to_range, read_signed, read_int,
}

-- The digits of a number in front of a text, at most so many.
pub digits : ℕ → ℕ → Text → Text
digits zero n out = out
digits (suc k) n out =
    let rest = digits k (n / 10) ((48 + n % 10) ∷ out) in if n == 0 then out else rest

-- A natural number below 10 ^ 10 and an `int` as std::to_string writes them, in front of a text.
pub print_nat : ℕ → Text → Text
print_nat n out = if n == 0 then 48 ∷ out else digits 10 n out

pub print : ℤ → Text → Text
print (pos n) out = print_nat n out
print (negsuc n) out = 45 ∷ print_nat (suc n) out

-- No digit follows.
unfoldable pub stops : Text → Bool
stops [] = true
stops (c ∷ s) = if is_digit c then false else true

zero_of : (n : ℕ) → n < 1 → 0 ≡ n
zero_of n h = omega arith

power_step : (k : ℕ) → 10 ^ suc k ≡ 10 ^ k * 10
power_step k = omega arith

read_digits-last :
    (n : ℕ) (out : Text) → read_digits (n / 10) ((48 + n % 10) ∷ out) ≡ read_digits n out
unfolding read_digits is_digit
read_digits-last n out = ground arith

read_digits-digits :
    (k n : ℕ) (out : Text) → n < 10 ^ k → read_digits 0 (digits k n out) ≡ read_digits n out
unfolding digits
read_digits-digits zero n out h = ap (λ m. read_digits m out) (zero_of n h)
read_digits-digits (suc k) n out h = ground (
  arith,
  power_step k,
  read_digits-last n out,
  read_digits-digits k (n / 10) ((48 + n % 10) ∷ out),
)

read_digits-stops : (n : ℕ) (out : Text) → stops out ≡ true → read_digits n out ≡ n
unfolding read_digits stops
read_digits-stops n [] h = refl
read_digits-stops n (c ∷ s) h = ground arith

starts_digit : Text → Bool
starts_digit [] = false
starts_digit (c ∷ s) = is_digit c

digits-starts_digit :
    (k n : ℕ) (out : Text) → 0 < n → n < 10 ^ k → starts_digit (digits k n out) ≡ true
unfolding digits starts_digit is_digit
digits-starts_digit zero n out positive h = absurd (omega arith)
digits-starts_digit (suc zero) n out positive h = ground arith
digits-starts_digit (suc (suc k)) n out positive h =
    ground (arith, power_step (suc k), digits-starts_digit (suc k) (n / 10) ((48 + n % 10) ∷ out))

print_nat-starts_digit : (n : ℕ) (out : Text) → n < 10 ^ 10 → starts_digit (print_nat n out) ≡ true
unfolding print_nat starts_digit is_digit
print_nat-starts_digit n out h = ground (arith, digits-starts_digit 10 n out)

read_digits-print_nat :
    (n : ℕ) (out : Text) → n < 10 ^ 10 → stops out ≡ true → read_digits 0 (print_nat n out) ≡ n
unfolding print_nat read_digits is_digit
read_digits-print_nat n out h ends =
    ground (arith, read_digits-digits 10 n out h, read_digits-stops n out ends)

read_magnitude-starts_digit :
    (s : Text) → starts_digit s ≡ true → read_magnitude s ≡ some (read_digits 0 s)
unfolding starts_digit read_magnitude
read_magnitude-starts_digit [] e = absurd (cc e)
read_magnitude-starts_digit (c ∷ s) e = rw e refl

read_magnitude-print_nat :
    (n : ℕ) (out : Text)
    → n < 10 ^ 10
    → stops out ≡ true
    → read_magnitude (print_nat n out) ≡ some n
read_magnitude-print_nat n out h ends =
    read_magnitude-starts_digit (print_nat n out) (print_nat-starts_digit n out h)
    ∙ ap some (read_digits-print_nat n out h ends)

-- A digit is no sign and no space.
read_signed-starts_digit :
    (s : Text)
    → starts_digit s ≡ true
    → (read_signed s ≡ (read_magnitude s >>= to_range false)) × (skip_spaces s ≡ s)
unfolding starts_digit read_signed is_digit skip_spaces is_space
read_signed-starts_digit [] e = absurd (cc e)
read_signed-starts_digit (c ∷ s) e = (ground arith, ground arith)

read_int-minus : (s : Text) → read_int (45 ∷ s) ≡ (read_magnitude s >>= to_range true)
unfolding read_int skip_spaces is_space read_signed
read_int-minus s = refl

-- What std::to_string writes of an `int` is read back.
pub read_int-print :
    (a : ℤ) (out : Text) → IsInt a → stops out ≡ true → read_int (print a out) ≡ some a
unfolding read_int print
read_int-print (pos n) out h ends =
    let starts = print_nat-starts_digit n out (omega arith) in
    let (signed, spaceless) = read_signed-starts_digit (print_nat n out) starts in
    rw (spaceless, signed, read_magnitude-print_nat n out (omega arith) ends)
      (unfold to_range in ground arith)
read_int-print (negsuc n) out h ends =
    rw
      (
        read_int-minus (print_nat (suc n) out),
        read_magnitude-print_nat (suc n) out (omega arith) ends,
      )
      (unfold to_range in ground arith)
