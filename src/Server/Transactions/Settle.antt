-- ===== src/Server/Transactions/Settle.antt =====
-- What handleTransactionLogic and processTransaction do on each branch.
use mathlib.Core.Option
use sis_op_ii.Common.{
  ℕ, ◌≡◌, refl, ◌≢◌, Option, none, some, List, Text, same, same_refl, same→eq, arith, if◌then◌else◌,
  modify,
}
use sis_op_ii.Common.Int.{ℤ, negsuc}
use sis_op_ii.Protocol.{TransactionStatus, ClientDto}
use sis_op_ii.Platform.{Platform}
use sis_op_ii.Server.State.{Server}
use sis_op_ii.Server.Clients.{find_client, set_balance, set_last_request}
use sis_op_ii.Server.Clients.Lookup.{lookup, Found, lookup-modify, Found-modify}
use sis_op_ii.Server.Transactions.{
  check_request, execute_transaction, update_and_log_transaction, setup_duplicate_request_log,
  settle, handle_transaction_logic, log_success,
}

module _ {W : Type 0} ⦃p : Platform W⦄ where
  -- The vector after a transfer between the clients at two indices, the second of which holds `d`
  -- once the first has been debited.
  abbrev pub moved :
      List (ClientDto W) → ℕ → ℕ → ClientDto W → ClientDto W → ℤ → ℤ → List (ClientDto W)
  moved cs i j c d value seqn = modify i (set_last_request seqn) (
      modify j (set_balance (p.add d.balance (p.of_int value)))
        (modify i (set_balance (p.sub c.balance (p.of_int value))) cs))

  -- The same at the level of addresses: debit, credit, and the new sequence number, each at one
  -- address of a book of clients.
  abbrev pub at_address :
      Text
      → (ClientDto W → ClientDto W)
      → (Text → Option (ClientDto W))
      → Text
      → Option (ClientDto W)
  at_address ip f book jp = if same ip jp then Option.map f (book jp) else book jp

  abbrev pub debit : ℤ → ClientDto W → ClientDto W
  debit value c = set_balance (p.sub c.balance (p.of_int value)) c

  abbrev pub credit : ℤ → ClientDto W → ClientDto W
  credit value c = set_balance (p.add c.balance (p.of_int value)) c

  abbrev pub transferred :
      Text → Text → ℤ → ℤ → (Text → Option (ClientDto W)) → Text → Option (ClientDto W)
  transferred src dst value seqn book =
      at_address src (set_last_request seqn)
        (at_address dst (credit value) (at_address src (debit value) book))

  -- The destination after the debit: for a transfer to oneself, the debited source.
  abbrev pub dest_debited : Text → Text → ClientDto W → ClientDto W → ℤ → ClientDto W
  dest_debited src dst c d value =
      if same src dst then set_balance (p.sub c.balance (p.of_int value)) d else d

  module _ (src dst : Text) (cs : List (ClientDto W)) (i j : ℕ) (c d : ClientDto W)
      (from : Found src cs i c) (onto : Found dst cs j d) (value seqn : ℤ) where
    abbrev debited : List (ClientDto W)
    debited = modify i (set_balance (p.sub c.balance (p.of_int value))) cs

    dest-debited : Found dst debited j (dest_debited src dst c d value)
    dest-debited =
        Found-modify (set_balance (p.sub c.balance (p.of_int value))) cs (λ _. refl) from onto

    source-debited : Found src debited i (set_balance (p.sub c.balance (p.of_int value)) c)
    source-debited =
        rw (same_refl src) at
          (Found-modify (set_balance (p.sub c.balance (p.of_int value))) cs (λ _. refl) from from)

    abbrev credited : List (ClientDto W)
    credited =
        modify j (set_balance (p.add (dest_debited src dst c d value).balance (p.of_int value)))
          debited

    source-credited : Found src credited i (
        if same dst src
        then set_balance
            (p.add (dest_debited src dst c d value).balance (p.of_int value))
            (set_balance (p.sub c.balance (p.of_int value)) c)
        else set_balance (p.sub c.balance (p.of_int value)) c)
    source-credited = Found-modify _ debited (λ _. refl) dest-debited source-debited

    dest-credited : Found dst credited j (
        set_balance
          (p.add (dest_debited src dst c d value).balance (p.of_int value))
          (dest_debited src dst c d value))
    dest-credited = rw (same_refl dst) at (
        Found-modify (set_balance (p.add (dest_debited src dst c d value).balance (p.of_int value)))
          debited (λ _. refl) dest-debited dest-debited)

    -- The three writes succeed.
    pub execute_transaction-moved :
        execute_transaction cs i j value seqn
        ≡ some (moved cs i j c (dest_debited src dst c d value) value seqn)
    unfolding execute_transaction
    execute_transaction-moved = rw (from.holds, dest-debited.holds, source-credited.holds)

    abbrev pub source_settled : ClientDto W
    source_settled = set_last_request seqn (
        if same dst src
        then set_balance (p.add (dest_debited src dst c d value).balance (p.of_int value))
            (set_balance (p.sub c.balance (p.of_int value)) c)
        else set_balance (p.sub c.balance (p.of_int value)) c)

    pub source-moved :
        Found src (moved cs i j c (dest_debited src dst c d value) value seqn) i source_settled
    source-moved =
        rw (same_refl src) at (
          Found-modify (set_last_request seqn) credited (λ _. refl) source-credited source-credited)

    abbrev pub dest_settled : ClientDto W
    dest_settled =
        let paid =
          set_balance (p.add (dest_debited src dst c d value).balance (p.of_int value))
            (dest_debited src dst c d value) in
        if same src dst then set_last_request seqn paid else paid

    pub dest-moved :
        Found dst (moved cs i j c (dest_debited src dst c d value) value seqn) j dest_settled
    dest-moved =
        Found-modify (set_last_request seqn) credited (λ _. refl) source-credited dest-credited

    -- Each write goes to one address: the transfer at the level of addresses.
    pub lookup-moved :
        (jp : Text)
        → lookup jp (moved cs i j c (dest_debited src dst c d value) value seqn)
          ≡ transferred src dst value seqn (λ ip. lookup ip cs) jp
    lookup-moved jp =
        rw
          (
            lookup-modify src jp i (set_last_request seqn) credited (λ _. refl)
                source-credited.found,
            lookup-modify dst jp j
                (set_balance (p.add (dest_debited src dst c d value).balance (p.of_int value)))
                debited (λ _. refl) dest-debited.found,
            lookup-modify src jp i (set_balance (p.sub c.balance (p.of_int value))) cs (λ _. refl)
                from.found,
          )
          (ground (
            arith,
            same→eq dst jp,
            same→eq src jp,
            same→eq src dst,
            same_refl dst,
            from.looked,
            onto.looked,
          ))

  module _ (s : Server W) (src dst : Text) (i j : ℕ) (c d : ClientDto W)
      (from : Found src s.clients i c) (onto : Found dst s.clients j d) (value seqn : ℤ) where
    -- The vector after the transfer.
    abbrev pub clients_after : List (ClientDto W)
    clients_after = moved s.clients i j c (dest_debited src dst c d value) value seqn

    pub handle_transaction_logic-success :
        check_request c value seqn ≡ TransactionStatus.success
        → handle_transaction_logic s src dst value seqn
          ≡ some (
            log_success (
                update_and_log_transaction
                  (record s { clients = clients_after })
                  src
                  dst
                  value
                  seqn),
            TransactionStatus.success,
            (source_settled src dst s.clients i j c d from onto value seqn).balance,
          )
    unfolding handle_transaction_logic
    handle_transaction_logic-success ok = rw (
      from.found,
      onto.found,
      from.holds,
      ok,
      execute_transaction-moved src dst s.clients i j c d from onto value seqn,
      (source-moved src dst s.clients i j c d from onto value seqn).holds,
    )

  -- A request that is refused changes the log at most.
  unfoldable pub refused : Server W → Text → Text → ℤ → ℤ → TransactionStatus → Server W
  unfolding setup_duplicate_request_log
  refused s src dst value seqn TransactionStatus.error_duplicate_request =
      setup_duplicate_request_log s src dst value seqn
  refused s src dst value seqn TransactionStatus.error_out_of_sequence =
      setup_duplicate_request_log s src dst value seqn
  refused s src dst value seqn _ = s

  module _ (s : Server W) (src dst : Text) (value seqn : ℤ) where
    pub handle_transaction_logic-no_source :
        find_client src s.clients ≡ none
        → handle_transaction_logic s src dst value seqn
          ≡ some (s, TransactionStatus.error_client_not_found, p.of_int (negsuc 0))
    unfolding handle_transaction_logic
    handle_transaction_logic-no_source e = rw e

    pub handle_transaction_logic-no_dest :
        (i : ℕ) (c : ClientDto W)
        → Found src s.clients i c
        → find_client dst s.clients ≡ none
        → handle_transaction_logic s src dst value seqn
          ≡ some (s, TransactionStatus.error_client_not_found, c.balance)
    unfolding handle_transaction_logic
    handle_transaction_logic-no_dest i c from e = rw (from.found, e, from.holds)

    pub handle_transaction_logic-refused :
        (i j : ℕ) (c d : ClientDto W)
        → Found src s.clients i c
        → Found dst s.clients j d
        → (status : TransactionStatus) → check_request c value seqn ≡ status
        → status ≢ TransactionStatus.success
        → handle_transaction_logic s src dst value seqn
          ≡ some (refused s src dst value seqn status, status, c.balance)
    unfolding handle_transaction_logic refused
    handle_transaction_logic-refused i j c d from onto TransactionStatus.success e not_success =
        absurd (not_success refl)
    handle_transaction_logic-refused i j c d from onto status e not_success =
        rw (from.found, onto.found, from.holds, e, settle, from.holds)
