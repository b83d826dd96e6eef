-- ===== src/Server/Transactions/Bank.antt =====
-- What the server promises about transactions: a bank of accounts under addresses, a history and
-- two counters, with no iterators, no log and no network.
use mathlib.Core.Path.{fun_ext}
use sis_op_ii.Common.{
  ℕ, ◌≡◌, refl, ◌≢◌, sym, ap, ◌∙◌, inl, inr, Option, none, some, List, [], ◌∷◌, ◌++◌, Text,
}
use sis_op_ii.Common.Int.{ℤ, pos, negsuc}
use sis_op_ii.Common.Word.{add_int}
use sis_op_ii.Protocol.{status-cases, TransactionStatus, Transaction, ClientDto}
use sis_op_ii.Protocol.CharArray.{copy_ip}
use sis_op_ii.Platform.{Platform}
use sis_op_ii.Server.State.{Server}
use sis_op_ii.Server.Clients.Lookup.{lookup, Found, find_client-cases}
use sis_op_ii.Server.Transactions.{
  check_request, handle_transaction_logic, update_and_log_transaction, log_success,
}
use sis_op_ii.Server.Transactions.Settle.{
  transferred, lookup-moved, clients_after, refused, handle_transaction_logic-success,
  handle_transaction_logic-no_source, handle_transaction_logic-no_dest,
  handle_transaction_logic-refused, source-moved,
}

pub record Bank (W : Type 0) : Type 0 where
  pub book : Text → Option (ClientDto W)
  pub history : List Transaction
  pub count : ℤ
  pub volume : ℤ

abbrev pub bank_of : {W : Type 0} → Server W → Bank W
bank_of s = record {
  book = λ ip. lookup ip s.clients;
  history = s.transaction_history;
  count = s.num_transactions;
  volume = s.total_transferred;
}

module _ {W : Type 0} ⦃p : Platform W⦄ where
  -- The answer to a request: both accounts must exist, and the source must pass the checks.
  abbrev pub judged : Option (ClientDto W) → Option (ClientDto W) → ℤ → ℤ → TransactionStatus
  judged none d value seqn = TransactionStatus.error_client_not_found
  judged (some c) none value seqn = TransactionStatus.error_client_not_found
  judged (some c) (some d) value seqn = check_request c value seqn

  abbrev pub verdict : Bank W → Text → Text → ℤ → ℤ → TransactionStatus
  verdict b src dst value seqn = judged (b.book src) (b.book dst) value seqn

  -- A transfer that is granted: the accounts, the history and the counters.
  abbrev pub grant : Bank W → Text → Text → ℤ → ℤ → Bank W
  grant b src dst value seqn = record {
    book = transferred src dst value seqn b.book;
    history =
        b.history
        ++ record {
          id = add_int b.count (pos 1);
          source_ip = copy_ip src;
          dest_ip = copy_ip dst;
          value = value;
          client_seqn = seqn;
        }
          ∷ [];
    count = add_int b.count (pos 1);
    volume = add_int b.volume value;
  }

  abbrev pub bank_after : TransactionStatus → Bank W → Text → Text → ℤ → ℤ → Bank W
  bank_after TransactionStatus.success b src dst value seqn = grant b src dst value seqn
  bank_after _ b src dst value seqn = b

  -- One request to the bank.
  abbrev pub bank_step : Bank W → Text → Text → ℤ → ℤ → Bank W
  bank_step b src dst value seqn = bank_after (verdict b src dst value seqn) b src dst value seqn

  -- What a reply says of the source's account: -1 stands for one that does not exist.
  abbrev pub reported_balance : Option (ClientDto W) → W
  reported_balance none = p.of_int (negsuc 0)
  reported_balance (some c) = c.balance

  abbrev pub Implements :
      Server W → Text → Text → ℤ → ℤ → Option (Server W × TransactionStatus × W) → Type 0
  Implements s src dst value seqn r =
      (s' : Server W) × (status : TransactionStatus) × (balance : W) × (r
        ≡ some (s', status, balance))
      × (bank_of s' ≡ bank_step (bank_of s) src dst value seqn)
      × (status ≡ verdict (bank_of s) src dst value seqn)
      × (balance ≡ reported_balance (lookup src s'.clients))

  refused-bank :
      (s : Server W) (src dst : Text) (value seqn : ℤ) (status : TransactionStatus)
      → status ≢ TransactionStatus.success
      → (bank_of (refused s src dst value seqn status)
          ≡ bank_after status (bank_of s) src dst value seqn)
        × ((refused s src dst value seqn status).clients ≡ s.clients)
  unfolding refused
  refused-bank s src dst value seqn TransactionStatus.success ne = absurd (ne refl)
  refused-bank s src dst value seqn _ ne = (refl, refl)

  module _ (s : Server W) (src dst : Text) (value seqn : ℤ) (i j : ℕ) (c d : ClientDto W)
      (from : Found src s.clients i c) (onto : Found dst s.clients j d) where
    pub verdict-found : verdict (bank_of s) src dst value seqn ≡ check_request c value seqn
    verdict-found = rw (from.looked, onto.looked)

    -- A granted request has done to the bank what the bank does.
    pub granted_bank :
        check_request c value seqn ≡ TransactionStatus.success
        → bank_of (
            log_success (
              update_and_log_transaction
                (record s { clients = clients_after s src dst i j c d from onto value seqn })
                src
                dst
                value
                seqn))
          ≡ bank_step (bank_of s) src dst value seqn
    unfolding update_and_log_transaction
    granted_bank ok =
        rw (verdict-found, ok)
          (ap (λ book. record (grant (bank_of s) src dst value seqn) { book = book })
            (fun_ext (lookup-moved src dst s.clients i j c d from onto value seqn)))

    granted :
        check_request c value seqn ≡ TransactionStatus.success
        → Implements s src dst value seqn (handle_transaction_logic s src dst value seqn)
    unfolding update_and_log_transaction
    granted ok = (
      _,
      _,
      _,
      handle_transaction_logic-success s src dst i j c d from onto value seqn ok,
      granted_bank ok,
      sym (verdict-found ∙ ok),
      sym (
          ap reported_balance (source-moved src dst s.clients i j c d from onto value seqn).looked),
    )

    pub declined :
        (status : TransactionStatus)
        → check_request c value seqn ≡ status
        → status ≢ TransactionStatus.success
        → Implements s src dst value seqn (handle_transaction_logic s src dst value seqn)
    declined status e ne =
        let (same_bank, same_clients) = refused-bank s src dst value seqn status ne in
        (
          _,
          _,
          _,
          handle_transaction_logic-refused s src dst value seqn i j c d from onto status e ne,
          rw (verdict-found, e) same_bank,
          sym (verdict-found ∙ e),
          rw (same_clients, from.looked),
        )

  -- handleTransactionLogic returns on every input, for any two addresses: it never uses an
  -- iterator outside the vector. Accounts, history and counters after it are those of `bank_step`,
  -- the status is the bank's verdict, and the balance is the source's afterwards, or -1 if there
  -- is no such client.
  pub handle_transaction_logic-Implements :
      (s : Server W) (src dst : Text) (value seqn : ℤ)
      → Implements s src dst value seqn (handle_transaction_logic s src dst value seqn)
  handle_transaction_logic-Implements s src dst value seqn =
      elim (find_client-cases src s.clients) [
        | inl (e, l) ↦
            (_, _, _, handle_transaction_logic-no_source s src dst value seqn e, rw l, rw l, rw l)
        | inr (i, c, from) ↦ elim (find_client-cases dst s.clients) [
          | inl (e, l) ↦ (
            _,
            _,
            _,
            handle_transaction_logic-no_dest s src dst value seqn i c from e,
            rw (from.looked, l),
            rw (from.looked, l),
            rw from.looked,
          )
          | inr (j, d, onto) ↦ elim (status-cases (check_request c value seqn)) [
            | inl ok ↦ granted s src dst value seqn i j c d from onto ok
            | inr ne ↦ declined s src dst value seqn i j c d from onto _ refl ne
          ]
        ]
      ]
