-- ===== src/Input.antt =====
-- How the standard library reads words and numbers from a text: operator>> of a stream in
-- validateInput (T1/transactions/transactionClient.cpp), and std::stoi in getValidatedPort
-- (T1/utils.cpp).
pub mod Digits
pub mod Lines
use sis_op_ii.Common.{
  ℕ, zero, suc, ◌+◌, ◌-◌, ◌*◌, ◌^◌, Bool, true, false, ◌&&◌, ◌||◌, Option, none, some, [], ◌∷◌,
  Text, leb, ltb, ◌==◌, if◌then◌else◌, ◌>>=◌,
}
use sis_op_ii.Common.Int.{ℤ, pos, negsuc}

-- `isspace`, in the C locale.
unfoldable pub is_space : ℕ → Bool
is_space c = (c == 32) || (leb 9 c && leb c 13)

-- What both do first.
unfoldable pub skip_spaces : Text → Text
skip_spaces [] = []
skip_spaces (c ∷ s) = let rest = skip_spaces s in if is_space c then rest else c ∷ s

-- The text up to the first space, and what follows.
unfoldable pub read_word : Text → Text × Text
read_word [] = ([], [])
read_word (c ∷ s) =
    let (word, rest) = read_word s in if is_space c then ([], c ∷ s) else (c ∷ word, rest)

unfoldable pub is_digit : ℕ → Bool
is_digit c = leb 48 c && leb c 57

-- The digits at the front of a text, after those that make `n`.
unfoldable pub read_digits : ℕ → Text → ℕ
read_digits n [] = n
read_digits n (c ∷ s) =
    let rest = read_digits (n * 10 + (c - 48)) s in if is_digit c then rest else n

-- There must be one digit at least.
unfoldable pub read_magnitude : Text → Option ℕ
unfolding read_digits
read_magnitude [] = none
read_magnitude (c ∷ s) = if is_digit c then some (read_digits 0 (c ∷ s)) else none

-- A number outside the range of `int` is an error.
unfoldable pub to_range : Bool → ℕ → Option ℤ
to_range false n = if ltb n (2 ^ 31) then some (pos n) else none
to_range true zero = some (pos 0)
to_range true (suc n) = if ltb n (2 ^ 31) then some (negsuc n) else none

unfoldable pub read_signed : Text → Option ℤ
unfolding read_magnitude to_range
read_signed [] = none
read_signed (c ∷ s) =
    if c == 45
    then (read_magnitude s >>= to_range true)
    else if c == 43
    then (read_magnitude s >>= to_range false)
    else (read_magnitude (c ∷ s) >>= to_range false)

-- An `int` after any spaces; what follows the number is left alone. `none` is a stream that fails,
-- and an exception of std::stoi.
unfoldable pub read_int : Text → Option ℤ
unfolding skip_spaces read_signed
read_int s = read_signed (skip_spaces s)
