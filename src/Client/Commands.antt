-- ===== src/Client/Commands.antt =====
-- The line that a user types (validateInput in T1/transactions/transactionClient.cpp).
use sis_op_ii.Common.{
  ◌≡◌, ◌≢◌, refl, ap, ◌∙◌, ◌⊎◌, inl, inr, ◌↔◌, true, some, [], ◌∷◌, ◌++◌, Text, arith, Option-cases,
}
use sis_op_ii.Common.Int.{ℤ}
use sis_op_ii.Common.Word.{IsInt}
use sis_op_ii.Input.{skip_spaces, read_word, read_int}
use sis_op_ii.Input.Digits.{print, stops, read_int-print}
use sis_op_ii.Input.Lines.{
  are_spaces, is_word, opens_space, skip_spaces-are_spaces, skipped, read_word-Splits,
  read_word-between,
}
use sis_op_ii.Client.{request_of, validate_input}

-- A line with a destination between spaces and a number after it.
pub record IsRequest (line dest_ip : Text) (value : ℤ) : Type 0 where
  pub before : Text
  pub rest : Text
  pub whole : line ≡ before ++ (dest_ip ++ rest)
  pub spaces : are_spaces before ≡ true
  pub word : is_word dest_ip ≡ true
  pub full : dest_ip ≢ []
  pub opens : opens_space rest ≡ true
  pub number : read_int rest ≡ some value

request_of-read :
    (dest_ip rest : Text) (value : ℤ)
    → dest_ip ≢ []
    → read_int rest ≡ some value
    → request_of (dest_ip, rest) ≡ some (dest_ip, value)
unfolding request_of
request_of-read [] rest value full number = absurd (full refl)
request_of-read (c ∷ dest_ip) rest value full number = rw number refl

read-request_of :
    (cut : Text × Text) (dest_ip : Text) (value : ℤ)
    → request_of cut ≡ some (dest_ip, value)
    → (cut.0 ≡ dest_ip) × (dest_ip ≢ []) × (read_int cut.1 ≡ some value)
unfolding request_of
read-request_of ([], rest) dest_ip value e = absurd (cc e)
read-request_of (c ∷ word, rest) dest_ip value e = elim (Option-cases (read_int rest)) [
  | inl failed ↦ absurd (cc (rw failed at e))
  | inr (v, number) ↦
      (cc (rw number at e), λ empty. cc (rw number at e, empty), number ∙ cc (rw number at e))
]

read_int-opens_space :
    (rest : Text) (value : ℤ)
    → (rest ≡ []) ⊎ (opens_space rest ≡ true)
    → read_int rest ≡ some value
    → opens_space rest ≡ true
unfolding read_int skip_spaces
read_int-opens_space rest value (inl e) number = absurd (cc (rw e at number))
read_int-opens_space rest value (inr opens) number = opens

-- validateInput accepts a line exactly if the line is made of spaces, a word without spaces that
-- is not empty, and a text that begins with a space and from which a number in the range of `int`
-- can be read; then it returns this word and this number.
pub validate_input-IsRequest :
    (line dest_ip : Text) (value : ℤ)
    → (validate_input line ≡ some (dest_ip, value)) ↔ IsRequest line dest_ip value
unfolding validate_input
validate_input-IsRequest line dest_ip value = (
  λ e.
      let (before, spaces, is) = skipped line in
      let cut = read_word (skip_spaces line) in
      let h = read_word-Splits (skip_spaces line) in
      let (word_is, full, number) = read-request_of cut dest_ip value e in
      record {
        before = before;
        rest = cut.1;
        whole = is ∙ ap (λ t. before ++ t) (h.whole ∙ ap (λ t. t ++ cut.1) word_is);
        spaces = spaces;
        word = rw word_is at h.word;
        full = full;
        opens = read_int-opens_space cut.1 value h.ends number;
        number = number;
      },
  λ h.
      rw (h.whole, read_word-between h.before dest_ip h.rest h.spaces h.word h.full h.opens)
        (request_of-read dest_ip h.rest value h.full h.number),
)

read_int-are_spaces :
    (between s : Text) → are_spaces between ≡ true → read_int (between ++ s) ≡ read_int s
unfolding read_int
read_int-are_spaces between s e = rw (skip_spaces-are_spaces between s e) refl

opens_space-append :
    (between s : Text)
    → are_spaces between ≡ true
    → between ≢ []
    → opens_space (between ++ s) ≡ true
opens_space-append [] s e full = absurd (full refl)
opens_space-append (c ∷ between) s e full = ground arith

-- A destination without spaces that is not empty, and an amount in the range of `int`, are written
-- on a line as std::to_string writes the amount, with any spaces before the destination and at
-- least one between the two, and with any text after the amount that does not begin with a digit.
-- validateInput reads the destination and the amount back.
pub validate_input-print :
    (before dest_ip between after : Text) (value : ℤ)
    → are_spaces before ≡ true
    → is_word dest_ip ≡ true
    → dest_ip ≢ []
    → are_spaces between ≡ true
    → between ≢ []
    → IsInt value
    → stops after ≡ true
    → validate_input (before ++ (dest_ip ++ (between ++ print value after))) ≡ some (dest_ip, value)
validate_input-print before dest_ip between after value spaces word full spaces' full' v_IsInt
      ends =
    (validate_input-IsRequest _ dest_ip value).1 (record {
      before = before;
      rest = between ++ print value after;
      whole = refl;
      spaces = spaces;
      word = word;
      full = full;
      opens = opens_space-append between (print value after) spaces' full';
      number =
          read_int-are_spaces between (print value after) spaces'
          ∙ read_int-print value after v_IsInt ends;
    })
