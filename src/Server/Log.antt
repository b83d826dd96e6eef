-- ===== src/Server/Log.antt =====
-- What the server prints: ServerInterface::run and its messages (T1/server/serverInterface.cpp), and
-- the getters that it uses (T1/server/Server.cpp). The time of day in front of a line is left out.
use sis_op_ii.Common.{
  ℕ, ◌≡◌, refl, ◌≢◌, inl, inr, false, Option, none, some, List, [], ◌∷◌, Text, if◌then◌else◌, map,
  replicate, get_last?, get_last?-snoc, ◌>>=◌, take,
}
use sis_op_ii.Common.Int.{ℤ, pos}
use sis_op_ii.Protocol.{LogType, LogInfo, status-cases, TransactionStatus, Transaction, ClientDto}
use sis_op_ii.Protocol.CharArray.{c_string, up_to_zero, c_string-copy_ip}
use sis_op_ii.Platform.{Platform}
use sis_op_ii.Server.State.{Server, notify}
use sis_op_ii.Server.Clients.Lookup.{Found, find_client-cases}
use sis_op_ii.Server.Transactions.{
  Outcome, should_notify, check_request, handle_transaction_logic, setup_duplicate_request_log,
  update_and_log_transaction, process_transaction,
}
use sis_op_ii.Server.Transactions.Settle.{
  refused, handle_transaction_logic-no_source, handle_transaction_logic-no_dest,
  handle_transaction_logic-refused,
}
use sis_op_ii.Server.Transactions.Process.{
  entry_of, server_after, process_transaction-failed, process_transaction-success,
}
use sis_op_ii.Server.Transactions.Contract.{is_success_ne}

-- `num transactions`, `total transferred` and `total balance`.
pub record Totals : Type 0 where
  pub num_transactions : ℤ
  pub total_transferred : ℤ
  pub total_balance : ℤ

-- A line of logInitialMessage, logRequisitionMessage (`client`, `id req`, `dest`, `value`) or
-- logDuplicatedMessage. An entry's addresses are the arrays' characters up to the first zero.
pub data Line : Type 0 where
  initial : Totals → Line
  requisition : Text → ℤ → Text → ℤ → Totals → Line
  duplicated : Text → ℤ → Text → ℤ → Totals → Line

-- `Transaction{}`.
abbrev pub zero_transaction : Transaction
zero_transaction = record {
  id = pos 0;
  source_ip = replicate 16 0;
  dest_ip = replicate 16 0;
  value = pos 0;
  client_seqn = pos 0;
}

abbrev pub last_or_zero : Option Transaction → Transaction
last_or_zero none = zero_transaction
last_or_zero (some t) = t

module _ {W : Type 0} where
  -- getNumTransactions, getTotalTransferred and getTotalBalance.
  abbrev pub totals : Server W → Totals
  totals s = record {
    num_transactions = s.num_transactions;
    total_transferred = s.total_transferred;
    total_balance = s.total_balance;
  }

  unfoldable pub get_last_transaction : Server W → Transaction
  get_last_transaction s = last_or_zero (get_last? s.transaction_history)

  -- The table of printClients, without its headings and column widths.
  abbrev row : ClientDto W → Text × ℤ × W
  row c = (c.address, c.last_req, c.balance)

  unfoldable pub print_clients : Server W → List (Text × ℤ × W)
  print_clients s = map row s.clients

  unfoldable pub initial_message : Server W → Line
  initial_message s = Line.initial (totals s)

  -- logRequisitionMessage; an address without an end is read past its array.
  unfoldable pub requisition_message : Server W → Transaction → Option Line
  unfolding c_string
  requisition_message s transaction = do
    source_ip ← c_string transaction.source_ip
    dest_ip ← c_string transaction.dest_ip
    some (Line.requisition source_ip transaction.client_seqn dest_ip transaction.value (totals s))

  unfoldable pub duplicated_message : Server W → LogInfo → Line
  duplicated_message s info =
      Line.duplicated info.source_ip info.transaction_id info.dest_ip info.value (totals s)

  -- The messages for the type of the last log entry; `none` is undefined behaviour.
  abbrev pub message : LogType → Server W → Option (List Line)
  message LogType.success s =
      requisition_message s (get_last_transaction s) >>= λ line. some (line ∷ [])
  message LogType.duplicate s = some (duplicated_message s s.last_log_info ∷ [])
  message LogType.nothing s = some []

  -- One round of the loop of `run`; without a change it waits, and prints nothing.
  unfoldable pub run_round : Server W → Option (Server W × List Line)
  unfolding get_last_transaction requisition_message duplicated_message
  run_round s =
      if s.data_changed
      then (message s.last_log_info.type s >>= λ printed.
          some (record s { data_changed = false }, printed))
      else some (s, [])

module _ {W : Type 0} ⦃p : Platform W⦄ where
  -- The lines of a round of the interface.
  abbrev pub Writes : Server W → List Line → Type 0
  Writes s' printed = run_round s' ≡ some (record s' { data_changed = false }, printed)

  -- What the interface prints about a request. The addresses of a request that was carried out are
  -- printed from its entry, which holds 15 characters at most.
  abbrev pub Printed : TransactionStatus → Server W → Text → Text → ℤ → ℤ → Server W → Type 0
  Printed TransactionStatus.success s src dst value seqn s' = Writes s' (
      Line.requisition (take 15 (up_to_zero src)) seqn (take 15 (up_to_zero dst)) value (totals s')
      ∷ [])
  Printed TransactionStatus.error_duplicate_request s src dst value seqn s' =
      Writes s' (Line.duplicated src seqn dst value (totals s) ∷ [])
  Printed TransactionStatus.error_out_of_sequence s src dst value seqn s' =
      Writes s' (Line.duplicated src seqn dst value (totals s) ∷ [])
  Printed _ s src dst value seqn s' = s' ≡ s

  module _ (s : Server W) (src : Text) (addr : ℕ) (value seqn : ℤ) where
    abbrev pub Prints : Option (Outcome W) → Type 0
    Prints r =
        (o : Outcome W) × (r ≡ some o)
        × Printed o.status s src (p.inet_ntop addr) value seqn o.server

    failed :
        (s' : Server W) (status : TransactionStatus) (balance : W)
        → handle_transaction_logic s src (p.inet_ntop addr) value seqn ≡ some (s', status, balance)
        → status ≢ TransactionStatus.success
        → Printed status s src
            (p.inet_ntop addr)
            value
            seqn
            (if should_notify status then notify s' else s')
        → Prints (process_transaction s src addr value seqn)
    failed s' status balance e ne printed = (
      _,
      process_transaction-failed s src addr value seqn s' status balance e
          (is_success_ne status ne),
      printed,
    )

    refused-Printed :
        (status : TransactionStatus)
        → status ≢ TransactionStatus.success
        → Printed status s src (p.inet_ntop addr) value seqn (
            if should_notify status
            then notify (refused s src (p.inet_ntop addr) value seqn status)
            else refused s src (p.inet_ntop addr) value seqn status)
    unfolding refused run_round duplicated_message setup_duplicate_request_log
    refused-Printed TransactionStatus.success ne = absurd (ne refl)
    refused-Printed _ ne = refl

    granted-Printed :
        (i j : ℕ) (c d : ClientDto W) (from : Found src s.clients i c)
        (onto : Found (p.inet_ntop addr) s.clients j d)
        → Printed TransactionStatus.success s src
            (p.inet_ntop addr)
            value
            seqn
            (notify (server_after s src addr value seqn i j c d from onto))
    unfolding run_round server_after get_last_transaction update_and_log_transaction
        requisition_message
    granted-Printed i j c d from onto = rw (
      get_last?-snoc s.transaction_history (entry_of s src (p.inet_ntop addr) value seqn),
      c_string-copy_ip src,
      c_string-copy_ip (p.inet_ntop addr),
    )

    -- processTransaction returns, and the next round of the interface's loop prints one line about
    -- it without a fault: after a success the first 15 characters of each of the two addresses, up
    -- to a zero, the sequence number of the request, its value and the new totals; after
    -- ERROR_DUPLICATE_REQUEST and ERROR_OUT_OF_SEQUENCE the request's addresses, sequence number
    -- and value as a duplicate, and the old totals. After any other status the server is as it was
    -- before, so that the request prints nothing.
    pub process_transaction-Prints : Prints (process_transaction s src addr value seqn)
    process_transaction-Prints = elim (find_client-cases src s.clients) [
      | inl (e, l) ↦
          failed s _ _ (handle_transaction_logic-no_source s src (p.inet_ntop addr) value seqn e)
            (λ h. cc) refl
      | inr (i, c, from) ↦ elim (find_client-cases (p.inet_ntop addr) s.clients) [
        | inl (e, l) ↦
            failed s _ _
              (handle_transaction_logic-no_dest s src (p.inet_ntop addr) value seqn i c from e)
              (λ h. cc) refl
        | inr (j, d, onto) ↦ elim (status-cases (check_request c value seqn)) [
          | inl ok ↦ (
            _,
            process_transaction-success s src addr value seqn i j c d from onto ok,
            granted-Printed i j c d from onto,
          )
          | inr ne ↦
              failed _ _ _
                (handle_transaction_logic-refused s src (p.inet_ntop addr) value seqn i j c d from
                  onto _ refl ne)
                ne (refused-Printed (check_request c value seqn) ne)
        ]
      ]
    ]
