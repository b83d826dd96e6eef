-- ===== src/Ports.antt =====
-- The port on the command line (T1/utils.cpp), and what main does with it (T1/server/main.cpp,
-- T1/client/main.cpp).
use sis_op_ii.Common.{
  ℕ, ◌≤◌, ◌<◌, ◌≡◌, refl, inl, inr, ◌↔◌, Bool, true, ◌||◌, not, Option, none, some, List, [], ◌∷◌,
  Text, arith, ◌==◌, if◌then◌else◌, length, get_elem?, ◌>>=◌, Option-cases, Bool-cases,
}
use sis_op_ii.Input.{read_int}
use sis_op_ii.Input.Digits.{print, stops, read_int-print}
use sis_op_ii.Common.Int.{ℤ, pos, negsuc, ltb_ℤ, leb_ℤ}

-- `argv` is the list of the arguments with the program's name.
unfoldable pub validate_port_arg : List Text → Bool
validate_port_arg argv = length argv == 2

unfoldable pub validate_port : ℤ → Bool
validate_port port = not (leb_ℤ port (pos 1024) || ltb_ℤ (pos 65535) port)

-- std::stoi has no value where it throws.
unfoldable pub get_validated_port : List Text → ℤ
unfolding validate_port_arg validate_port
get_validated_port argv =
    if validate_port_arg argv
    then (elim (get_elem? argv 1 >>= read_int) [
      | none ↦ negsuc 0
      | some port ↦ if validate_port port then port else negsuc 0
    ])
    else negsuc 0

-- main, with what it starts on a port; without a value it returns 1. The only negative port is -1.
abbrev pub run_main {ℓ} : {A : Type ℓ} → (ℕ → A) → ℤ → Option A
run_main start (pos port) = some (start port)
run_main start (negsuc n) = none

-- The one argument is the number of a port above 1024.
abbrev pub IsPort : List Text → ℕ → Type 0
IsPort argv n =
    (program argument : Text) × (argv ≡ (program ∷ argument ∷ []))
    × (read_int argument ≡ some (pos n))
    × (1024 < n)
    × (n ≤ 65535)

two_arguments :
    (argv : List Text)
    → validate_port_arg argv ≡ true
    → (program argument : Text) × (argv ≡ (program ∷ argument ∷ []))
unfolding validate_port_arg
two_arguments [] e = absurd (cc e)
two_arguments (a ∷ []) e = absurd (cc e)
two_arguments (a ∷ b ∷ []) e = (a, b, refl)
two_arguments (a ∷ b ∷ c ∷ argv) e = absurd (ground (arith))

read_port :
    (program argument : Text) (n : ℕ)
    → get_validated_port (program ∷ argument ∷ []) ≡ pos n
    → (read_int argument ≡ some (pos n)) × (1024 < n) × (n ≤ 65535)
unfolding get_validated_port validate_port_arg validate_port
read_port program argument n e = elim (Option-cases (read_int argument)) [
  | inl fault ↦ absurd (cc (rw fault at e))
  | inr (port, read) ↦ ground (arith, (rw read at e))
]

-- getValidatedPort returns a natural number exactly if there is one argument, std::stoi reads it
-- as this number, and it lies above 1024 and is at most 65535.
pub get_validated_port-IsPort :
    (argv : List Text) (n : ℕ) → (get_validated_port argv ≡ pos n) ↔ IsPort argv n
unfolding get_validated_port validate_port
get_validated_port-IsPort argv n = (
  λ e. elim (Bool-cases (validate_port_arg argv)) [
    | inl two ↦
        let (program, argument, is) = two_arguments argv two in
        let (read, low, high) = read_port program argument n (rw is at e) in
        (program, argument, is, read, low, high)
    | inr other ↦ absurd (cc (rw other at e))
  ],
  λ (program, argument, is, read, low, high). rw (is, read) (ground arith),
)

-- A port from 1025 to 65535 that is written as std::to_string writes it, with any text after it
-- that does not begin with a digit, as the only argument of the program: getValidatedPort reads
-- the port back.
pub get_validated_port-print :
    (program after : Text) (n : ℕ)
    → 1024 < n
    → n ≤ 65535
    → stops after ≡ true
    → get_validated_port (program ∷ print (pos n) after ∷ []) ≡ pos n
get_validated_port-print program after n low high ends =
    (get_validated_port-IsPort (program ∷ print (pos n) after ∷ []) n).1 (
      program,
      print (pos n) after,
      refl,
      read_int-print (pos n) after (record { above = omega arith; below = omega arith }) ends,
      low,
      high,
    )
