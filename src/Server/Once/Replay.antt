-- ===== src/Server/Once/Replay.antt =====
-- A copy of a request that comes after others.
use sis_op_ii.Common.{ℕ, ◌≡◌, refl, sym, ◌∙◌, subst, some, List, [], ◌∷◌, Text, arith}
use sis_op_ii.Common.Int.{ℤ, ◌≤ℤ◌}
use sis_op_ii.Protocol.{TransactionStatus}
use sis_op_ii.Platform.{Platform}
use sis_op_ii.Server.State.{Server}
use sis_op_ii.Server.Transactions.{Outcome, process_transaction}
use sis_op_ii.Server.Transactions.Bank.{Bank, bank_of, bank_step, verdict}
use sis_op_ii.Server.Transactions.Retry.{
  transferred-source, transferred-dest, judged-success, check_request-duplicate,
}
use sis_op_ii.Server.Transactions.Contract.{
  process_transaction-Truthful, process_transaction-Answers,
}
use sis_op_ii.Server.Registration.{add_client}
use sis_op_ii.Server.Once.{Event, join, request, apply_event, run_events}
use sis_op_ii.Server.Once.Used.{Used, Used-run}

module _ {W : Type 0} ⦃p : Platform W⦄ where
  -- Every event is handled without a fault.
  pub run_events-total :
      (events : List Event) (s : Server W) → (s' : Server W) × (run_events s events ≡ some s')
  unfolding run_events apply_event
  run_events-total [] s = (s, refl)
  run_events-total (join ip ∷ events) s = run_events-total events (add_client s ip).0
  run_events-total (request src addr value seqn ∷ events) s =
      let (o, answered, truth) = process_transaction-Answers s src addr value seqn in
      let (s', ran) = run_events-total events o.server in (s', rw answered ran)

  pub Used-duplicate :
      (b : Bank W) (src dst : Text) (value seqn seqn' : ℤ)
      → Used b.book src dst seqn
      → seqn' ≤ℤ seqn
      → verdict b src dst value seqn' ≡ TransactionStatus.error_duplicate_request
  Used-duplicate b src dst value seqn seqn' u le =
      rw (u.source_at, u.dest_at)
        (check_request-duplicate u.source value seqn' u.source.last_req refl
          (omega (arith, le, u.used)))

  pub Used-granted :
      (b : Bank W) (src dst : Text) (value seqn : ℤ)
      → verdict b src dst value seqn ≡ TransactionStatus.success
      → Used (bank_step b src dst value seqn).book src dst seqn
  Used-granted b src dst value seqn ok =
      let (c, d, found_c, found_d) = judged-success (b.book src) (b.book dst) value seqn ok in
      let (c', source_now, last) = transferred-source src dst value seqn b.book c found_c in
      let (d', dest_now) = transferred-dest src dst value seqn b.book d found_d in
      rw ok (record {
        source = c';
        dest = d';
        source_at = source_now;
        dest_at = dest_now;
        used = rw last (omega arith);
      })

  -- A request is granted, and then any sequence of joins and of requests, of any clients and with
  -- any amounts, is handled. All of these return. A request of the first client to the same
  -- destination, with the sequence number of the granted request or a lower one and any amount, is
  -- then answered with ERROR_DUPLICATE_REQUEST: accounts, history and counters are unchanged, and
  -- nothing is sent to the backups.
  pub process_transaction_once :
      (s : Server W) (src : Text) (addr : ℕ) (value seqn value' seqn' : ℤ) (o : Outcome W)
      (events : List Event)
      → process_transaction s src addr value seqn ≡ some o
      → o.status ≡ TransactionStatus.success
      → seqn' ≤ℤ seqn
      → (s' : Server W) × (o' : Outcome W) × (run_events o.server events ≡ some s')
        × (process_transaction s' src addr value' seqn' ≡ some o')
        × (o'.status ≡ TransactionStatus.error_duplicate_request)
        × (bank_of o'.server ≡ bank_of s')
        × (o'.sent ≡ [])
  process_transaction_once s src addr value seqn value' seqn' o events done ok le =
      let dst = p.inet_ntop addr in
      let truth = process_transaction-Truthful s src addr value seqn o done in
      let granted : Used (bank_of o.server).book src dst seqn =
        subst (λ (b : Bank W). Used b.book src dst seqn) (sym truth.accounts)
          (Used-granted (bank_of s) src dst value seqn (sym truth.judged ∙ ok)) in
      let (s', ran) = run_events-total events o.server in
      let (second, answered, truth') = process_transaction-Answers s' src addr value' seqn' in
      let duplicate =
        Used-duplicate (bank_of s') src dst value' seqn seqn'
          (Used-run src dst seqn events o.server s' ran granted) le in
      (
        s',
        second,
        ran,
        answered,
        truth'.judged ∙ duplicate,
        rw duplicate at truth'.accounts,
        rw (truth'.judged ∙ duplicate) at truth'.quiet,
      )
