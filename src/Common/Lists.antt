-- ===== src/Common/Lists.antt =====
-- Lists measured and indexed by native numbers, and the chain of partial results.
use Prim.Native.Nat.{ℕ, zero, suc, ◌+◌}
use mathlib.Core.Path.{◌≡◌, refl, ap}
use mathlib.Core.Logic.{◌≢◌}
use mathlib.Core.List.{List, [], ◌∷◌, ◌++◌}
use mathlib.Core.Option.{Option, none, some}
use native.Mathlib.Omega.{arith}

infixl 5 ◌>>=◌
abbrev pub ◌>>=◌ {ℓ κ} : {A : Type ℓ} {B : Type κ} → Option A → (A → Option B) → Option B
none >>= f = none
some a >>= f = f a

module _ {ℓ} {A : Type ℓ} where
  abbrev pub length : List A → ℕ
  length [] = 0
  length (x ∷ xs) = suc (length xs)

  abbrev pub get_elem? : List A → ℕ → Option A
  get_elem? [] i = none
  get_elem? (x ∷ xs) zero = some x
  get_elem? (x ∷ xs) (suc i) = get_elem? xs i

  abbrev pub take : ℕ → List A → List A
  take zero xs = []
  take (suc n) [] = []
  take (suc n) (x ∷ xs) = x ∷ take n xs

  abbrev pub replicate : ℕ → A → List A
  replicate zero a = []
  replicate (suc n) a = a ∷ replicate n a

  -- The last element, `back()` of a vector.
  abbrev pub get_last? : List A → Option A
  get_last? [] = none
  get_last? (x ∷ []) = some x
  get_last? (x ∷ y ∷ xs) = get_last? (y ∷ xs)

  -- The list with the element at an index replaced; an index out of range changes nothing.
  abbrev pub modify : ℕ → (A → A) → List A → List A
  modify i f [] = []
  modify zero f (x ∷ xs) = f x ∷ xs
  modify (suc i) f (x ∷ xs) = x ∷ modify i f xs

  pub length-append : (xs ys : List A) → length (xs ++ ys) ≡ length xs + length ys
  length-append [] ys = omega arith
  length-append (x ∷ xs) ys = omega (arith, length-append xs ys)

  pub get_last?-snoc : (xs : List A) (x : A) → get_last? (xs ++ x ∷ []) ≡ some x
  get_last?-snoc [] x = refl
  get_last?-snoc (y ∷ []) x = refl
  get_last?-snoc (y ∷ z ∷ xs) x = get_last?-snoc (z ∷ xs) x

module _ {ℓ} {A : Type ℓ} where
  pub length-replicate : (n : ℕ) (a : A) → length (replicate n a) ≡ n
  length-replicate zero a = refl
  length-replicate (suc n) a = ap suc (length-replicate n a)

  pub length-modify : (i : ℕ) (f : A → A) (xs : List A) → length (modify i f xs) ≡ length xs
  length-modify zero f [] = refl
  length-modify (suc i) f [] = refl
  length-modify zero f (x ∷ xs) = refl
  length-modify (suc i) f (x ∷ xs) = ap suc (length-modify i f xs)

  pub get_elem?-modify_self :
      (i : ℕ) (f : A → A) (xs : List A) {x : A}
      → get_elem? xs i ≡ some x
      → get_elem? (modify i f xs) i ≡ some (f x)
  get_elem?-modify_self zero f [] e = cc
  get_elem?-modify_self (suc i) f [] e = cc
  get_elem?-modify_self zero f (y ∷ xs) e = cc
  get_elem?-modify_self (suc i) f (y ∷ xs) e = get_elem?-modify_self i f xs e

  pub get_elem?-modify_ne :
      (i j : ℕ) (f : A → A) (xs : List A) → i ≢ j → get_elem? (modify i f xs) j ≡ get_elem? xs j
  get_elem?-modify_ne zero j f [] h = refl
  get_elem?-modify_ne (suc i) j f [] h = refl
  get_elem?-modify_ne zero zero f (x ∷ xs) h = absurd (h refl)
  get_elem?-modify_ne zero (suc j) f (x ∷ xs) h = refl
  get_elem?-modify_ne (suc i) zero f (x ∷ xs) h = refl
  get_elem?-modify_ne (suc i) (suc j) f (x ∷ xs) h =
      get_elem?-modify_ne i j f xs (λ e. h (ap suc e))

  -- Two lists with the same elements at every index are equal.
  pub get_elem?-ext : (xs ys : List A) → ((i : ℕ) → get_elem? xs i ≡ get_elem? ys i) → xs ≡ ys
  get_elem?-ext [] [] h = refl
  get_elem?-ext [] (y ∷ ys) h = cc (h 0)
  get_elem?-ext (x ∷ xs) [] h = cc (h 0)
  get_elem?-ext (x ∷ xs) (y ∷ ys) h = cc (h 0, get_elem?-ext xs ys (λ i. h (suc i)))

  -- A second change at the same index acts on the result of the first.
  pub modify-modify :
      (i : ℕ) (f g : A → A) (xs : List A) → modify i f (modify i g xs) ≡ modify i (λ x. f (g x)) xs
  modify-modify zero f g [] = refl
  modify-modify (suc i) f g [] = refl
  modify-modify zero f g (x ∷ xs) = refl
  modify-modify (suc i) f g (x ∷ xs) = ap (◌∷◌ x) (modify-modify i f g xs)

-- A property of the result, if there is one.
pub OnSome {ℓ κ} : {A : Type ℓ} → (A → Type κ) → Option A → Type κ
OnSome holds none = Unit
OnSome holds (some a) = holds a

pub OnSome-pure {ℓ κ} : {A : Type ℓ} (holds : A → Type κ) (a : A) → holds a → OnSome holds (some a)
unfolding OnSome
OnSome-pure holds a h = h

pub OnSome-none {ℓ κ} : {A : Type ℓ} (holds : A → Type κ) → OnSome holds none
unfolding OnSome
OnSome-none holds = tt

pub OnSome-some {ℓ κ} :
    {A : Type ℓ} (holds : A → Type κ) (o : Option A) (a : A) → OnSome holds o → o ≡ some a → holds a
unfolding OnSome
OnSome-some holds o a h e = rw e at h

pub OnSome-bind {ℓ κ μ ν} :
    {A : Type ℓ} {B : Type κ} (given : A → Type μ) (holds : B → Type ν) (o : Option A)
    (f : A → Option B)
    → OnSome given o
    → ((a : A) → given a → OnSome holds (f a))
    → OnSome holds (o >>= f)
unfolding OnSome
OnSome-bind given holds none f g h = tt
OnSome-bind given holds (some a) f g h = h a g

pub OnSome-any {ℓ} : {A : Type ℓ} (o : Option A) → OnSome {ℓ, 0} (λ _. Unit) o
unfolding OnSome
OnSome-any none = tt
OnSome-any (some a) = tt

pub OnSome-then {ℓ κ ν} :
    {A : Type ℓ} {B : Type κ} (holds : B → Type ν) (o : Option A) (f : A → Option B)
    → ((a : A) → OnSome holds (f a))
    → OnSome holds (o >>= f)
OnSome-then holds o f h = OnSome-bind {ℓ, κ, 0, ν} (λ _. Unit) holds o f (OnSome-any o) λ a _. h a
