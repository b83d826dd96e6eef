-- ===== src/Server/Transactions/Reasons.antt =====
-- Why a request gets its status.
use sis_op_ii.Common.{
  ℕ, ◌≡◌, sym, ap, ◌∙◌, subst, inl, inr, true, false, some, Text, arith, Bool-cases,
}
use sis_op_ii.Common.Int.{ℤ, pos, ◌+ℤ◌, ◌≤ℤ◌, ltb_ℤ, leb_ℤ, +ℤ_parts, eq_of_parts}
use sis_op_ii.Common.Word.{IsInt, add_int-IsInt}
use sis_op_ii.Protocol.{TransactionStatus, ClientDto}
use sis_op_ii.Platform.{Platform, FloatLaws, IsExact}
use sis_op_ii.Server.State.{Server}
use sis_op_ii.Server.Clients.Lookup.{lookup}
use sis_op_ii.Server.Transactions.{Outcome, check_request, process_transaction}
use sis_op_ii.Server.Transactions.Bank.{judged}
use sis_op_ii.Server.Transactions.Contract.{process_transaction-Truthful}

-- The reason for a status, for a source with this last request and this whole balance. The reasons
-- exclude one another.
abbrev pub Reason : TransactionStatus → ℤ → ℤ → ℤ → ℤ → Type 0
Reason TransactionStatus.success last balance value seqn =
    (seqn ≡ last +ℤ pos 1) × (value ≤ℤ balance)
Reason TransactionStatus.error_client_not_found last balance value seqn = ⊥
Reason TransactionStatus.error_duplicate_request last balance value seqn = seqn ≤ℤ last
Reason TransactionStatus.error_insufficient_funds last balance value seqn =
    (seqn ≡ last +ℤ pos 1) × ¬ (value ≤ℤ balance)
Reason TransactionStatus.error_out_of_sequence last balance value seqn = ¬ (seqn ≤ℤ (last +ℤ pos 1))

not_le : (a b : ℤ) → ltb_ℤ a b ≡ true → ¬ (b ≤ℤ a)
not_le a b less = λ le. ground arith

le : (a b : ℤ) → ltb_ℤ a b ≡ false → b ≤ℤ a
le a b e = ground arith

is_next :
    (last seqn : ℤ)
    → leb_ℤ seqn last ≡ false
    → ltb_ℤ (last +ℤ pos 1) seqn ≡ false
    → seqn ≡ last +ℤ pos 1
is_next last seqn fresh due =
    eq_of_parts seqn (last +ℤ pos 1) (ground (arith, +ℤ_parts last (pos 1)))

module _ {W : Type 0} ⦃p : Platform W⦄ where
  check_request-Reason :
      (laws : FloatLaws W) (c : ClientDto W) (balance value seqn : ℤ)
      → c.balance ≡ p.of_int balance
      → IsExact balance
      → IsExact value
      → IsInt (c.last_req +ℤ pos 1)
      → Reason (check_request c value seqn) c.last_req balance value seqn
  unfolding check_request
  check_request-Reason laws c balance value seqn held exact value_exact next =
      rw
        (
          held,
          laws.lt-of_int balance value exact value_exact,
          add_int-IsInt c.last_req (pos 1) next,
        )
        (elim (Bool-cases (leb_ℤ seqn c.last_req)) [
          | inl duplicate ↦ rw duplicate (ground arith)
          | inr fresh ↦ elim (Bool-cases (ltb_ℤ (c.last_req +ℤ pos 1) seqn)) [
            | inl early ↦ rw (fresh, early) (not_le (c.last_req +ℤ pos 1) seqn early)
            | inr due ↦ elim (Bool-cases (ltb_ℤ balance value)) [
              | inl poor ↦
                  rw (fresh, due, poor)
                    (is_next c.last_req seqn fresh due, not_le balance value poor)
              | inr rich ↦
                  rw (fresh, due, rich) (is_next c.last_req seqn fresh due, le balance value rich)
            ]
          ]
        ])

  -- Both accounts of a request exist, the source's balance is a whole number, this and the amount
  -- are at most 2 ^ 24 in size, and the number after the source's last request is in the range of
  -- `int`. On a platform whose floats are exact up to 2 ^ 24 processTransaction answers SUCCESS
  -- only to the next sequence number and an amount that the balance covers,
  -- ERROR_INSUFFICIENT_FUNDS only to the next number and a larger amount, ERROR_DUPLICATE_REQUEST
  -- only to a number that is not above the last one, ERROR_OUT_OF_SEQUENCE only to one above the
  -- next, and never ERROR_CLIENT_NOT_FOUND.
  pub process_transaction-Reason :
      (laws : FloatLaws W) (s : Server W) (src : Text) (addr : ℕ) (c d : ClientDto W)
      (balance value seqn : ℤ) (o : Outcome W)
      → lookup src s.clients ≡ some c
      → lookup (p.inet_ntop addr) s.clients ≡ some d
      → c.balance ≡ p.of_int balance
      → IsExact balance
      → IsExact value
      → IsInt (c.last_req +ℤ pos 1)
      → process_transaction s src addr value seqn ≡ some o
      → Reason o.status c.last_req balance value seqn
  process_transaction-Reason laws s src addr c d balance value seqn o source_at dest_at held exact
        value_exact next done =
      let truth = process_transaction-Truthful s src addr value seqn o done in
      subst (λ status. Reason status c.last_req balance value seqn)
        (sym (
          truth.judged
          ∙ ap (λ a. judged a (lookup (p.inet_ntop addr) s.clients) value seqn) source_at
          ∙ ap (λ a. judged (some c) a value seqn) dest_at))
        (check_request-Reason laws c balance value seqn held exact value_exact next)
