-- ===== src/Input/Lines.antt =====
-- Words and spaces at the front of a text.
use sis_op_ii.Common.{
  ℕ, ◌≡◌, ◌≢◌, refl, ap, Bool, true, false, ◌&&◌, [], ◌∷◌, ◌++◌, Text, arith, Bool-cases, not, ◌⊎◌,
  inl, inr,
}
use sis_op_ii.Input.{is_space, skip_spaces, read_word}

-- Only spaces, and no space.
abbrev pub are_spaces : Text → Bool
are_spaces [] = true
are_spaces (c ∷ s) = is_space c && are_spaces s

abbrev pub is_word : Text → Bool
is_word [] = true
is_word (c ∷ s) = not (is_space c) && is_word s

-- A space is at the front.
abbrev pub opens_space : Text → Bool
opens_space [] = false
opens_space (c ∷ s) = is_space c

pub skip_spaces-are_spaces :
    (before s : Text) → are_spaces before ≡ true → skip_spaces (before ++ s) ≡ skip_spaces s
unfolding skip_spaces
skip_spaces-are_spaces [] s e = refl
skip_spaces-are_spaces (c ∷ before) s e = ground (arith, skip_spaces-are_spaces before s)

read_word-is_word :
    (word rest : Text)
    → is_word word ≡ true
    → opens_space rest ≡ true
    → read_word (word ++ rest) ≡ (word, rest)
unfolding read_word
read_word-is_word [] [] e opens = absurd (cc opens)
read_word-is_word [] (c ∷ rest) e opens = ground arith
read_word-is_word (c ∷ word) rest e opens = ground (arith, read_word-is_word word rest)

skip_spaces-is_word :
    (c : ℕ) (word rest : Text)
    → is_word (c ∷ word) ≡ true
    → skip_spaces (c ∷ (word ++ rest)) ≡ c ∷ (word ++ rest)
unfolding skip_spaces
skip_spaces-is_word c word rest e = ground arith

-- The spaces before a text are a text of their own.
pub skipped :
    (s : Text) → (before : Text) × (are_spaces before ≡ true) × (s ≡ before ++ skip_spaces s)
unfolding skip_spaces
skipped [] = ([], refl, refl)
skipped (c ∷ s) = elim (Bool-cases (is_space c)) [
  | inl space ↦
      let (before, spaces, is) = skipped s in
      (c ∷ before, rw space spaces, rw space (ap (λ t. c ∷ t) is))
  | inr other ↦ ([], refl, rw other refl)
]

-- A word that was read, and what follows it.
pub record Splits (s : Text) (cut : Text × Text) : Type 0 where
  pub whole : s ≡ cut.0 ++ cut.1
  pub word : is_word cut.0 ≡ true
  pub ends : (cut.1 ≡ []) ⊎ (opens_space cut.1 ≡ true)

pub read_word-Splits : (s : Text) → Splits s (read_word s)
unfolding read_word
read_word-Splits [] = record { whole = refl; word = refl; ends = inl refl }
read_word-Splits (c ∷ s) = elim (Bool-cases (is_space c)) [
  | inl space ↦ rw space (record { whole = refl; word = refl; ends = inr space })
  | inr other ↦
      let h = read_word-Splits s in
      rw other (record { whole = ap (λ t. c ∷ t) h.whole; word = rw other h.word; ends = h.ends })
]

-- A word between spaces is read.
pub read_word-between :
    (before word rest : Text)
    → are_spaces before ≡ true
    → is_word word ≡ true
    → word ≢ []
    → opens_space rest ≡ true
    → read_word (skip_spaces (before ++ (word ++ rest))) ≡ (word, rest)
read_word-between before [] rest spaces is full opens = absurd (full refl)
read_word-between before (c ∷ word) rest spaces is full opens =
    rw
      (
        skip_spaces-are_spaces before (c ∷ (word ++ rest)) spaces,
        skip_spaces-is_word c word rest is,
      )
      (read_word-is_word (c ∷ word) rest is opens)
