-- ===== src/Client/InStep.antt =====
-- The sequence number of a client against the last request that the server has of it.
use sis_op_ii.Common.{
  ℕ, ◌≡◌, refl, ◌≢◌, sym, ap, ◌∙◌, ◌⊎◌, subst, inl, inr, Option, none, some, Text, arith,
}
use sis_op_ii.Common.Int.{ℤ, pos, ◌+ℤ◌, +ℤ_parts}
use sis_op_ii.Common.Word.{IsInt, add_int-IsInt}
use sis_op_ii.Protocol.{TransactionStatus, Packet, ClientDto}
use sis_op_ii.Platform.{Platform, read_ack}
use sis_op_ii.Server.State.{Server}
use sis_op_ii.Server.Transactions.{Outcome, check_request, process_transaction}
use sis_op_ii.Server.Transactions.Bank.{Bank, bank_of, bank_after, judged, verdict}
use sis_op_ii.Server.Transactions.Retry.{transferred-source}
use sis_op_ii.Server.Transactions.Contract.{process_transaction-Truthful}
use sis_op_ii.Server.Once.Used.{bank_after-refused}
use sis_op_ii.Client.{Client, after_answer, after_status, increment_sequence_number}
use sis_op_ii.Client.Exchange.{Reads}

module _ {W : Type 0} ⦃p : Platform W⦄ where
  -- The server has an account for the client, and the client's sequence number is the next one.
  pub record InStep (c : Client) (book : Text → Option (ClientDto W)) (ip : Text) : Type 0 where
    pub account : ClientDto W
    pub registered : book ip ≡ some account
    pub next : c.sequence_number ≡ account.last_req +ℤ pos 1

  -- The next number is neither a duplicate nor out of sequence.
  check_request-next :
      (c : ClientDto W) (value : ℤ)
      → IsInt (c.last_req +ℤ pos 1)
      → (check_request c value (c.last_req +ℤ pos 1) ≡ TransactionStatus.success)
        ⊎ (check_request c value (c.last_req +ℤ pos 1) ≡ TransactionStatus.error_insufficient_funds)
  unfolding check_request
  check_request-next c value small =
      rw (add_int-IsInt c.last_req (pos 1) small) (ground (arith, +ℤ_parts c.last_req (pos 1)))

  judged-next :
      (d : Option (ClientDto W)) (c : ClientDto W) (value : ℤ)
      → IsInt (c.last_req +ℤ pos 1)
      → (judged (some c) d value (c.last_req +ℤ pos 1) ≡ TransactionStatus.success)
        ⊎ ((status : TransactionStatus) × (judged (some c) d value (c.last_req +ℤ pos 1) ≡ status)
            × (status ≢ TransactionStatus.success)
            × ((x : Client) (found : Option Text) → after_status W x (some status) found ≡ x))
  unfolding after_status
  judged-next none c value small =
      inr (TransactionStatus.error_client_not_found, refl, (λ e. cc), λ x found. refl)
  judged-next (some d) c value small = elim (check_request-next c value small) [
    | inl ok ↦ inl ok
    | inr poor ↦ inr (TransactionStatus.error_insufficient_funds, poor, (λ e. cc), λ x found. refl)
  ]

  module _ (c : Client) (s : Server W) (ip : Text) (addr : ℕ) (value : ℤ) (o : Outcome W)
      (answer : Packet W) (found : Option Text) where
    after_read :
        Reads c.sequence_number o answer
        → after_answer c (some (read_ack answer.contents)) found
          ≡ after_status W c (some o.status) found
    unfolding after_answer
    after_read reads = ap (λ st. after_status W c st found) reads.status_read

    -- Let the client's sequence number be one more than the last request that the server has of
    -- it, and let this number and the next one be in the range of `int`. When processTransaction
    -- handles the client's request with that sequence number, to any destination and with any
    -- amount, and the client's switch handles an answer that reads as its outcome, the sequence
    -- number is again one more than the last request of the server.
    pub after_answer-InStep :
        InStep c (bank_of s).book ip
        → process_transaction s ip addr value c.sequence_number ≡ some o
        → Reads c.sequence_number o answer
        → IsInt c.sequence_number
        → IsInt (c.sequence_number +ℤ pos 1)
        → InStep (after_answer c (some (read_ack answer.contents)) found) (bank_of o.server).book ip
    unfolding after_status increment_sequence_number
    after_answer-InStep step done reads small later =
        let dst = p.inet_ntop addr in
        let seqn = c.sequence_number in
        let b = bank_of s in
        let truth = process_transaction-Truthful s ip addr value seqn o done in
        let as_judged : verdict b ip dst value seqn
            ≡ judged (some step.account) (b.book dst) value (step.account.last_req +ℤ pos 1) =
          ap (λ a. judged a (b.book dst) value seqn) step.registered
          ∙ ap (λ n. judged (some step.account) (b.book dst) value n) step.next in
        let book_after : (status : TransactionStatus)
            → verdict b ip dst value seqn ≡ status
            → (bank_of o.server).book ip ≡ (bank_after status b ip dst value seqn).book ip =
          λ status e.
            ap (λ (x : Bank W). x.book ip) truth.accounts
            ∙ ap (λ st. (bank_after st b ip dst value seqn).book ip) e in
        let client_after : (status : TransactionStatus)
            → verdict b ip dst value seqn ≡ status
            → after_answer c (some (read_ack answer.contents)) found
              ≡ after_status W c (some status) found =
          λ status e.
            after_read reads ∙ ap (λ st. after_status W c (some st) found) (truth.judged ∙ e) in
        elim (judged-next (b.book dst) step.account value (rw step.next at small)) [
          | inl ok ↦
              let (account, now, last) =
                transferred-source ip dst value seqn b.book step.account step.registered in
              subst (λ x. InStep x (bank_of o.server).book ip)
                (sym (client_after TransactionStatus.success (as_judged ∙ ok)))
                (record {
                  account = account;
                  registered = book_after TransactionStatus.success (as_judged ∙ ok) ∙ now;
                  next = add_int-IsInt seqn (pos 1) later ∙ ap (λ n. n +ℤ pos 1) (sym last);
                })
          | inr (status, refusal, ne, unmoved) ↦
              subst (λ x. InStep x (bank_of o.server).book ip)
                (sym (client_after status (as_judged ∙ refusal) ∙ unmoved c found))
                (record {
                  account = step.account;
                  registered =
                      book_after status (as_judged ∙ refusal)
                      ∙ ap (λ (x : Bank W). x.book ip)
                          (bank_after-refused status b ip dst value seqn ne)
                      ∙ step.registered;
                  next = step.next;
                })
        ]
