-- ===== src/Server/Transactions/Contract.antt =====
-- processTransaction and its reply against the bank.
use sis_op_ii.Common.{
  ℕ, ◌≡◌, refl, ◌≢◌, sym, ap, subst, ◌∙◌, inl, inr, false, Option, some, [], Text, arith,
  if◌then◌else◌, Bool-cases, some_inj,
}
use sis_op_ii.Common.Int.{ℤ}
use sis_op_ii.Protocol.{status-cases, TransactionStatus, ClientDto}
use sis_op_ii.Platform.{Platform}
use sis_op_ii.Server.State.{Server, notify}
use sis_op_ii.Server.Clients.Lookup.{lookup, Found, find_client-cases}
use sis_op_ii.Server.Transactions.{
  Outcome, is_success, should_notify, check_request, handle_transaction_logic, process_transaction,
}
use sis_op_ii.Server.Transactions.Settle.{source-moved}
use sis_op_ii.Server.Transactions.Bank.{
  bank_of, bank_step, verdict, reported_balance, Implements, granted_bank, verdict-found,
  handle_transaction_logic-Implements,
}
use sis_op_ii.Server.Transactions.Process.{
  reported_last_req, process_transaction-failed, process_transaction-success, server_after,
}

pub is_success_ne :
    (status : TransactionStatus) → status ≢ TransactionStatus.success → is_success status ≡ false
is_success_ne TransactionStatus.success ne = absurd (ne refl)
is_success_ne _ ne = refl

module _ {W : Type 0} ⦃p : Platform W⦄ where
  -- An outcome that is the bank's: its accounts, its verdict, and the source's account as it is
  -- afterwards.
  pub record Truthful (s : Server W) (src dst : Text) (value seqn : ℤ) (o : Outcome W)
      : Type 0 where
    pub accounts : bank_of o.server ≡ bank_step (bank_of s) src dst value seqn
    pub judged : o.status ≡ verdict (bank_of s) src dst value seqn
    pub balance_told : o.balance ≡ reported_balance (lookup src o.server.clients)
    pub last_req_told : o.last_req ≡ reported_last_req (lookup src o.server.clients)
    pub quiet : (if is_success o.status then [] else o.sent) ≡ []

  abbrev pub Answers : Server W → Text → Text → ℤ → ℤ → Option (Outcome W) → Type 0
  Answers s src dst value seqn r = (o : Outcome W) × (r ≡ some o) × Truthful s src dst value seqn o

  notified : TransactionStatus → Server W → Server W
  notified status s' = if should_notify status then notify s' else s'

  notified-same :
      (status : TransactionStatus) (s' : Server W)
      → (bank_of (notified status s') ≡ bank_of s') × ((notified status s').clients ≡ s'.clients)
  unfolding notified
  notified-same status s' = elim (Bool-cases (should_notify status)) [
    | inl yes_notify ↦ rw yes_notify (refl, refl)
    | inr no_notify ↦ rw no_notify (refl, refl)
  ]

  module _ (s : Server W) (src : Text) (addr : ℕ) (value seqn : ℤ) where
    answered_failure :
        Implements s src
          (p.inet_ntop addr)
          value
          seqn
          (handle_transaction_logic s src (p.inet_ntop addr) value seqn)
        → is_success (verdict (bank_of s) src (p.inet_ntop addr) value seqn) ≡ false
        → Answers s src (p.inet_ntop addr) value seqn (process_transaction s src addr value seqn)
    unfolding notified
    answered_failure (s', status, balance, e, accounts, judged, told) failed =
        let (same_bank, same_clients) = notified-same status s' in
        (
          _,
          process_transaction-failed s src addr value seqn s' status balance e (rw judged failed),
          record {
            accounts = same_bank ∙ accounts;
            judged = judged;
            balance_told = rw same_clients told;
            last_req_told = rw same_clients refl;
            quiet = ground arith;
          },
        )

    answered_success :
        (i j : ℕ) (c d : ClientDto W) (from : Found src s.clients i c)
        (onto : Found (p.inet_ntop addr) s.clients j d)
        → check_request c value seqn ≡ TransactionStatus.success
        → Answers s src (p.inet_ntop addr) value seqn (process_transaction s src addr value seqn)
    unfolding server_after
    answered_success i j c d from onto ok =
        let now = source-moved src (p.inet_ntop addr) s.clients i j c d from onto value seqn in
        (
          _,
          process_transaction-success s src addr value seqn i j c d from onto ok,
          record {
            accounts = granted_bank s src (p.inet_ntop addr) value seqn i j c d from onto ok;
            judged = sym (verdict-found s src (p.inet_ntop addr) value seqn i j c d from onto ∙ ok);
            balance_told = sym (ap reported_balance now.looked);
            last_req_told = sym (ap reported_last_req now.looked);
            quiet = refl;
          },
        )

    -- processTransaction returns on every input and refines the bank. The accounts, the history
    -- and the two counters after it are those of `bank_step`; the reply carries the bank's
    -- verdict, the source's balance as it is afterwards (-1 if there is no such client) and its
    -- last request (0 if there is none); unless the status is success, nothing is sent to the
    -- backups.
    pub process_transaction-Answers :
        Answers s src (p.inet_ntop addr) value seqn (process_transaction s src addr value seqn)
    process_transaction-Answers = elim (find_client-cases src s.clients) [
      | inl (e, l) ↦ answered_failure implemented (rw l)
      | inr (i, c, from) ↦ elim (find_client-cases (p.inet_ntop addr) s.clients) [
        | inl (e, l) ↦ answered_failure implemented (rw (from.looked, l))
        | inr (j, d, onto) ↦ elim (status-cases (check_request c value seqn)) [
          | inl ok ↦ answered_success i j c d from onto ok
          | inr ne ↦ answered_failure implemented (
              rw (verdict-found s src (p.inet_ntop addr) value seqn i j c d from onto)
                (is_success_ne _ ne))
        ]
      ]
    ]
      where
        implemented :
            Implements s src
              (p.inet_ntop addr)
              value
              seqn
              (handle_transaction_logic s src (p.inet_ntop addr) value seqn)
        implemented = handle_transaction_logic-Implements s src (p.inet_ntop addr) value seqn

    pub process_transaction-Truthful :
        (o : Outcome W)
        → process_transaction s src addr value seqn ≡ some o
        → Truthful s src (p.inet_ntop addr) value seqn o
    process_transaction-Truthful o e =
        let (answer, answered, truth) = process_transaction-Answers in
        subst (Truthful s src (p.inet_ntop addr) value seqn) (some_inj (sym answered ∙ e)) truth
