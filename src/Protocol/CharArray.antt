-- ===== src/Protocol/CharArray.antt =====
-- A `std::string` put into a `char[INET_ADDRSTRLEN]` by strncpy, and read back as a C string.
use sis_op_ii.Common.{
  ℕ, zero, suc, Bool, true, false, Option, none, some, ◌≤◌, ◌<◌, ◌≡◌, refl, ◌≢◌, List, [], ◌∷◌,
  Text, arith, ◌==◌, if◌then◌else◌, length, take, replicate, modify, length-replicate,
  length-modify, ◌∙◌,
}

abbrev pub inet_addrstrlen : ℕ
inet_addrstrlen = 16

-- `strncpy(dst, src, n)`: copies up to the end of `src`, and fills up with zeros.
pub strncpy : ℕ → Text → List ℕ
strncpy zero s = []
strncpy (suc n) [] = replicate (suc n) 0
strncpy (suc n) (c ∷ s) = if c == 0 then replicate (suc n) 0 else c ∷ strncpy n s

-- The copy, followed by `dst[INET_ADDRSTRLEN - 1] = '\0'`.
unfoldable pub copy_ip : Text → List ℕ
unfolding strncpy
copy_ip s = modify 15 (λ _. 0) (strncpy inet_addrstrlen s)

-- The characters before the first zero, as a C string has them.
unfoldable pub up_to_zero : List ℕ → Text
up_to_zero [] = []
up_to_zero (c ∷ b) = if c == 0 then [] else c ∷ up_to_zero b

unfoldable pub has_zero : List ℕ → Bool
has_zero [] = false
has_zero (c ∷ b) = let rest = has_zero b in if c == 0 then true else rest

-- `std::string(array)`: without a zero in the array it reads past the end, undefined behaviour.
unfoldable pub c_string : List ℕ → Option Text
unfolding has_zero up_to_zero
c_string b = if has_zero b then some (up_to_zero b) else none

-- A text with no zero that fits the array with its terminator.
abbrev pub HasNoZero : Text → Type 0
HasNoZero [] = Unit {0}
HasNoZero (c ∷ s) = (c ≢ 0) × HasNoZero s

pub record IsAddress (s : Text) : Type 0 where
  pub no_zero : HasNoZero s
  pub fits : length s < inet_addrstrlen

up_to_zero-replicate : (n : ℕ) → up_to_zero (replicate n 0) ≡ []
unfolding up_to_zero
up_to_zero-replicate zero = refl
up_to_zero-replicate (suc n) = refl

up_to_zero-modify-replicate : (k n : ℕ) → up_to_zero (modify k (λ _. 0) (replicate n 0)) ≡ []
unfolding up_to_zero
up_to_zero-modify-replicate zero zero = refl
up_to_zero-modify-replicate (suc k) zero = refl
up_to_zero-modify-replicate zero (suc n) = refl
up_to_zero-modify-replicate (suc k) (suc n) = refl

up_to_zero-strncpy :
    (n : ℕ) (s : Text) → up_to_zero (modify n (λ _. 0) (strncpy (suc n) s)) ≡ take n (up_to_zero s)
unfolding up_to_zero strncpy
up_to_zero-strncpy zero [] = refl
up_to_zero-strncpy (suc n) [] = refl
up_to_zero-strncpy zero (c ∷ s) = ground arith
up_to_zero-strncpy (suc n) (c ∷ s) = ground (arith, up_to_zero-strncpy n s)

up_to_zero_lem : (s : Text) → HasNoZero s → up_to_zero s ≡ s
unfolding up_to_zero
up_to_zero_lem [] h = refl
up_to_zero_lem (c ∷ s) h = ground (arith, up_to_zero_lem s h.1)

take_all : (n : ℕ) (s : Text) → length s ≤ n → take n s ≡ s
take_all zero [] h = refl
take_all zero (c ∷ s) h = absurd (omega arith)
take_all (suc n) [] h = refl
take_all (suc n) (c ∷ s) h = ground (arith, take_all n s)

length-strncpy : (n : ℕ) (s : Text) → length (strncpy n s) ≡ n
unfolding strncpy
length-strncpy zero s = refl
length-strncpy (suc n) [] = length-replicate {A = ℕ} (suc n) 0
length-strncpy (suc n) (c ∷ s) = ground (arith, length-replicate {A = ℕ} n 0, length-strncpy n s)

-- The copy fills the array exactly.
pub length-copy_ip : (s : Text) → length (copy_ip s) ≡ inet_addrstrlen
unfolding copy_ip
length-copy_ip s = length-modify 15 (λ _. 0) (strncpy 16 s) ∙ length-strncpy 16 s

up_to_zero-copy_ip : (s : Text) → up_to_zero (copy_ip s) ≡ take 15 (up_to_zero s)
unfolding copy_ip
up_to_zero-copy_ip s = up_to_zero-strncpy 15 s

has_zero-modify-replicate : (k n : ℕ) → has_zero (modify k (λ _. 0) (replicate (suc n) 0)) ≡ true
unfolding has_zero
has_zero-modify-replicate zero n = refl
has_zero-modify-replicate (suc k) n = refl

has_zero-strncpy : (n : ℕ) (s : Text) → has_zero (modify n (λ _. 0) (strncpy (suc n) s)) ≡ true
unfolding has_zero strncpy
has_zero-strncpy n [] = has_zero-modify-replicate n n
has_zero-strncpy zero (c ∷ s) = ground arith
has_zero-strncpy (suc n) (c ∷ s) = ground (arith, has_zero-strncpy n s)

-- Reading back an array that strncpy and the terminator have filled from any text reads nothing
-- past its end and gives the first 15 characters of the text up to its first zero: a longer text
-- is cut off.
pub c_string-copy_ip : (s : Text) → c_string (copy_ip s) ≡ some (take 15 (up_to_zero s))
unfolding c_string copy_ip
c_string-copy_ip s = rw (has_zero-strncpy 15 s, up_to_zero-copy_ip s)

-- An address survives the trip through the array.
pub c_string-copy_ip_address : (s : Text) → IsAddress s → c_string (copy_ip s) ≡ some s
c_string-copy_ip_address s h =
    rw (c_string-copy_ip s, up_to_zero_lem s h.no_zero, take_all 15 s (omega arith))
