-- ===== src/Client/Lossy/Once.antt =====
-- A command is executed once if it is answered, and at most once otherwise.
use sis_op_ii.Common.{
  ℕ, suc, ◌+◌, ◌≡◌, sym, ap, ◌∙◌, ◌⊎◌, subst, inl, inr, true, Option, none, some, List, [], ◌∷◌,
  ◌++◌, Text, get_last?-snoc, length, Bool-cases, some_inj, arith,
}
use sis_op_ii.Common.Int.{ℤ, pos, ◌+ℤ◌}
use sis_op_ii.Common.Word.{add_int, IsInt, add_int-IsInt}
use sis_op_ii.Protocol.{status-cases, TransactionStatus, AckData, Packet, SockAddr}
use sis_op_ii.Platform.{Platform, NetLaws, read_ack}
use sis_op_ii.Server.State.{Server, Send}
use sis_op_ii.Server.Transactions.{Outcome, process_transaction}
use sis_op_ii.Server.Transactions.Bank.{Bank, bank_of, bank_after, bank_step, verdict}
use sis_op_ii.Server.Transactions.Contract.{process_transaction-Truthful}
use sis_op_ii.Server.Transactions.Retry.{transferred-source}
use sis_op_ii.Server.Once.Used.{bank_after-refused}
use sis_op_ii.Client.{
  Client, max_retries, receive_response, ack_of, execute_request_with_retries, after_answer,
  after_status, increment_sequence_number,
}
use sis_op_ii.Client.Exchange.{Reads}
use sis_op_ii.Client.InStep.{InStep, after_answer-InStep}
use sis_op_ii.Client.Retries.{Ended, execute_request_with_retries-Ended}
use sis_op_ii.Client.Lossy.{Fate, handled, server_at, heard_at, lossy}
use sis_op_ii.Client.Lossy.Copies.{
  copy, server_at-once, again-duplicate, bank_step_twice, bank_step-once,
}

module _ {W : Type 0} ⦃p : Platform W⦄ where
  module _ (laws : NetLaws W) (c : Client) (client : SockAddr) (dest_ip : Text) (value : ℤ)
      (addr : ℕ) (parsed : p.inet_pton dest_ip ≡ some addr) (value_IsInt : IsInt value)
      (seqn_IsInt : IsInt c.sequence_number) (next_IsInt : IsInt (c.sequence_number +ℤ pos 1))
      (fates : ℕ → Fate) (s : Server W)
      (registered : InStep c (bank_of s).book (p.inet_ntop client.sin_addr))
      (found : Option Text) where
    abbrev src : Text
    src = p.inet_ntop client.sin_addr

    abbrev dst : Text
    dst = p.inet_ntop addr

    abbrev seqn : ℤ
    seqn = c.sequence_number

    abbrev executed : Bank W
    executed = bank_step (bank_of s) src dst value seqn

    abbrev server_of : ℕ → Server W
    server_of k = server_at client dest_ip value seqn fates s k

    -- The client's switch on an answer of the server t.
    module _ (t : Server W) (x : Client) (same : x.sequence_number ≡ seqn) (o : Outcome W)
        (answer : Packet W) (done : process_transaction t src addr value seqn ≡ some o)
        (reads : Reads seqn o answer) where
      abbrev ThenInStep : Type 0
      ThenInStep =
          InStep (after_answer x (some (read_ack answer.contents)) found) (bank_of o.server).book
            src

      first_copy : bank_of t ≡ bank_of s → ThenInStep
      first_copy untouched =
          after_answer-InStep x t src addr value o answer found
            (subst (λ (b : Bank W). InStep x b.book src) (sym untouched)
              (record {
                account = registered.account;
                registered = registered.registered;
                next = same ∙ registered.next;
              }))
            (subst (λ n. process_transaction t src addr value n ≡ some o) (sym same) done)
            (subst (λ n. Reads n o answer) (sym same) reads) (subst IsInt (sym same) seqn_IsInt)
            (subst (λ n. IsInt (n +ℤ pos 1)) (sym same) next_IsInt)

      later_copy :
          bank_of t ≡ executed
          → verdict (bank_of s) src dst value seqn ≡ TransactionStatus.success
          → ThenInStep
      unfolding after_answer after_status increment_sequence_number
      later_copy before ok =
          let truth = process_transaction-Truthful t src addr value seqn o done in
          let duplicate : o.status ≡ TransactionStatus.error_duplicate_request =
            truth.judged
            ∙ ap (λ (b : Bank W). verdict b src dst value seqn) before
            ∙ again-duplicate (bank_of s) src dst value seqn ok in
          let (account, now, last) =
            transferred-source src dst value seqn (bank_of s).book registered.account
              registered.registered in
          let same_bank : bank_of o.server ≡ executed =
            truth.accounts
            ∙ ap (λ (b : Bank W). bank_step b src dst value seqn) before
            ∙ bank_step_twice (bank_of s) src dst value seqn in
          subst (λ y. InStep y (bank_of o.server).book src)
            (sym (
              ap (λ st. after_status W x st found) reads.status_read
              ∙ ap (λ st. after_status W x (some st) found) duplicate))
            (record {
              account = account;
              registered =
                  ap (λ (b : Bank W). b.book src) same_bank
                  ∙ ap (λ st. (bank_after st (bank_of s) src dst value seqn).book src) ok
                  ∙ now;
              next =
                  ap (λ n. add_int n (pos 1)) same
                  ∙ add_int-IsInt seqn (pos 1) next_IsInt
                  ∙ ap (λ n. n +ℤ pos 1) (sym last);
            })

      any_copy : (bank_of t ≡ bank_of s) ⊎ (bank_of t ≡ executed) → ThenInStep
      any_copy (inl untouched) = first_copy untouched
      any_copy (inr before) = elim (status-cases (verdict (bank_of s) src dst value seqn)) [
        | inl ok ↦ later_copy before ok
        | inr ne ↦ first_copy (
            before
            ∙ bank_after-refused (verdict (bank_of s) src dst value seqn) (bank_of s) src dst value
                seqn ne)
      ]

    -- An answer that the client takes in a round is that of the server's copy in this round.
    heard-copy :
        (j : ℕ) (answer : Packet W) (to : SockAddr) (sent : List (Send W)) (t' : Server W)
        → handled client dest_ip value seqn fates (server_of j)
          ≡ some (t', sent ++ (answer, to) ∷ [])
        → receive_response (heard_at client dest_ip value seqn fates s j) seqn ≡ true
        → (heard_at client dest_ip value seqn fates s j ≡ some answer) × (server_of (suc j) ≡ t')
    unfolding heard_at server_at receive_response
    heard-copy j answer to sent t' thread taken = elim (Bool-cases (fates j).arrives) [
      | inr lost ↦ absurd (cc (rw lost at taken))
      | inl arrives ↦ elim (Bool-cases (fates j).returns) [
        | inr lost ↦ absurd (cc (rw (arrives, lost) at taken))
        | inl returns ↦
            (rw (arrives, returns, thread, get_last?-snoc sent (answer, to)), rw (arrives, thread))
      ]
    ]

    -- The state of the server and of the client after the command.
    abbrev pub Commanded : Client × List (Send W) × Option (AckData W) → Type 0
    Commanded (c', sent, none) =
        (length sent ≡ max_retries)
        × (c'.sequence_number ≡ seqn)
        × ((bank_of (server_of max_retries) ≡ bank_of s)
            ⊎ (bank_of (server_of max_retries) ≡ executed))
    Commanded (c', sent, some ack) =
        (bank_of (server_of (length sent)) ≡ executed)
        × InStep (after_answer c' (some ack) found) (bank_of (server_of (length sent))).book src

    answered :
        (c' : Client) (sent : List (Send W)) (ack : AckData W) (j : ℕ)
        → c'.sequence_number ≡ seqn
        → length sent ≡ suc j
        → receive_response (heard_at client dest_ip value seqn fates s j) seqn ≡ true
        → ack_of (heard_at client dest_ip value seqn fates s j) ≡ some ack
        → Commanded (c', sent, some ack)
    answered c' sent ack j same count taken held =
        let t = server_of j in
        let (o, answer, done, thread, reads) =
          copy laws client dest_ip value seqn addr parsed value_IsInt seqn_IsInt fates s t in
        let truth = process_transaction-Truthful t src addr value seqn o done in
        let (heard, after) = heard-copy j answer client o.sent o.server thread taken in
        let read : read_ack answer.contents ≡ ack = some_inj (ap ack_of (sym heard) ∙ held) in
        let once =
          server_at-once laws client dest_ip value seqn addr parsed value_IsInt seqn_IsInt fates
            s in
        let final : server_of (length sent) ≡ o.server = ap server_of count ∙ after in
        (
          ap bank_of final
              ∙ truth.accounts
              ∙ bank_step-once (bank_of s) (bank_of t) src dst value seqn (once j),
          subst
              (λ (a : AckData W).
                InStep (after_answer c' (some a) found) (bank_of (server_of (length sent))).book
                  src)
              read
              (subst
                (λ (u : Server W).
                  InStep (after_answer c' (some (read_ack answer.contents)) found) (bank_of u).book
                    src)
                (sym final) (any_copy t c' same o answer done reads (once j))),
        )

    command_end :
        (r : Client × List (Send W) × Option (AckData W))
        → Ended (lossy client dest_ip value seqn fates s) dest_ip value seqn 0 max_retries r
        → Commanded r
    command_end (c', sent, none) ended = (
      ended.result.0,
      ended.kept,
      server_at-once laws client dest_ip value seqn addr parsed value_IsInt seqn_IsInt fates s
          max_retries,
    )
    command_end (c', sent, some ack) ended =
        let (j, less, count, silent, taken, held) = ended.result in
        let here : 0 + j ≡ j = omega arith in
        answered c' sent ack j ended.kept count
          (subst (λ k. receive_response (heard_at client dest_ip value seqn fates s k) seqn ≡ true)
            here taken)
          (subst (λ k. ack_of (heard_at client dest_ip value seqn fates s k) ≡ some ack) here held)

    -- A client's sequence number is one more than the last request that the server has of it, this
    -- number, the next one and the amount are in the range of `int`, and inet_pton reads the
    -- destination. executeRequestWithRetries runs against the server over a network that in each
    -- round may lose the request, or the reply to it; the server does nothing else meanwhile and
    -- no announcement comes in. If the command is answered, the server's accounts, history and
    -- counters are those after executing the request exactly once, however many copies have
    -- arrived, and after the client's switch its sequence number is again one more than the last
    -- request of the server. If it is not answered, five packets were sent, the request was
    -- executed once or not at all, and the client's sequence number has stayed.
    pub execute_request_with_retries-Commanded : Commanded (
        execute_request_with_retries c dest_ip value
          (lossy client dest_ip value c.sequence_number fates s))
    execute_request_with_retries-Commanded = command_end _ (
        execute_request_with_retries-Ended c dest_ip value
          (lossy client dest_ip value c.sequence_number fates s))
