-- ===== src/Server/Transactions/Cases.antt =====
-- A case rule for processTransaction: it refuses and leaves the clients alone, or it grants.
use sis_op_ii.Common.{
  ℕ, ◌≡◌, refl, ◌≢◌, sym, ◌∙◌, inl, inr, Bool, true, false, some, Text, subst, if◌then◌else◌,
  some_inj,
}
use sis_op_ii.Common.Int.{ℤ}
use sis_op_ii.Protocol.{status-cases, TransactionStatus, ClientDto}
use sis_op_ii.Platform.{Platform}
use sis_op_ii.Server.State.{Server, notify}
use sis_op_ii.Server.Clients.Lookup.{Found, find_client-cases}
use sis_op_ii.Server.Transactions.{
  Outcome, should_notify, check_request, handle_transaction_logic, process_transaction,
}
use sis_op_ii.Server.Transactions.Settle.{
  refused, handle_transaction_logic-no_source, handle_transaction_logic-no_dest,
  handle_transaction_logic-refused,
}
use sis_op_ii.Server.Transactions.Process.{
  server_after, process_transaction-failed, process_transaction-success,
}
use sis_op_ii.Server.Transactions.Contract.{is_success_ne}

module _ {W : Type 0} ⦃p : Platform W⦄ where
  -- The accounts and the history after a request, compared with those before it.
  pub record Refused (s : Server W) (o : Outcome W) : Type 0 where
    pub not_granted : o.status ≢ TransactionStatus.success
    pub same_clients : o.server.clients ≡ s.clients
    pub same_history : o.server.transaction_history ≡ s.transaction_history
    pub same_total : o.server.total_balance ≡ s.total_balance
    pub same_role : o.server.current_role ≡ s.current_role
    pub same_backups : o.server.backup_servers ≡ s.backup_servers

  refused-Refused :
      (s : Server W) (src dst : Text) (value seqn : ℤ) (status : TransactionStatus)
      → let s' = refused s src dst value seqn status in
        (s'.clients ≡ s.clients)
        × (s'.transaction_history ≡ s.transaction_history)
        × (s'.total_balance ≡ s.total_balance)
        × (s'.current_role ≡ s.current_role)
        × (s'.backup_servers ≡ s.backup_servers)
  unfolding refused
  refused-Refused s src dst value seqn TransactionStatus.success = (refl, refl, refl, refl, refl)
  refused-Refused s src dst value seqn _ = (refl, refl, refl, refl, refl)

  -- `notify` changes no field that it does not set.
  notified {κ} :
      {A : Type κ} (f : Server W → A) (notifies : Bool) (s : Server W)
      → f (notify s) ≡ f s
      → f (if notifies then notify s else s) ≡ f s
  notified f true s same_field = same_field
  notified f false s same_field = refl

  module _ {ℓ} (s : Server W) (src : Text) (addr : ℕ) (value seqn : ℤ) (P : Outcome W → Type ℓ)
      (keep : (o : Outcome W) → Refused s o → P o)
      (grant : (i j : ℕ) (c d : ClientDto W) (from : Found src s.clients i c)
          (onto : Found (p.inet_ntop addr) s.clients j d)
        → check_request c value seqn ≡ TransactionStatus.success
        → (o : Outcome W) → o.status ≡ TransactionStatus.success
        → o.server ≡ notify (server_after s src addr value seqn i j c d from onto)
        → P o)
      (o : Outcome W) (done : process_transaction s src addr value seqn ≡ some o) where
    failed :
        (s' : Server W) (status : TransactionStatus) (balance : W)
        → handle_transaction_logic s src (p.inet_ntop addr) value seqn ≡ some (s', status, balance)
        → status ≢ TransactionStatus.success
        → (s'.clients ≡ s.clients)
          × (s'.transaction_history ≡ s.transaction_history)
          × (s'.total_balance ≡ s.total_balance)
          × (s'.current_role ≡ s.current_role)
          × (s'.backup_servers ≡ s.backup_servers)
        → P o
    failed s' status balance e ne (clients, history, total, role, backups) =
        let answered =
          process_transaction-failed s src addr value seqn s' status balance e
            (is_success_ne status ne) in
        subst P (some_inj (sym answered ∙ done)) (
          keep _ (record {
            not_granted = ne;
            same_clients = notified (λ t. t.clients) (should_notify status) s' refl ∙ clients;
            same_history =
                notified (λ t. t.transaction_history) (should_notify status) s' refl ∙ history;
            same_total = notified (λ t. t.total_balance) (should_notify status) s' refl ∙ total;
            same_role = notified (λ t. t.current_role) (should_notify status) s' refl ∙ role;
            same_backups =
                notified (λ t. t.backup_servers) (should_notify status) s' refl ∙ backups;
          }))

    pub process_transaction-cases : P o
    process_transaction-cases = elim (find_client-cases src s.clients) [
      | inl (e, l) ↦
          failed s _ _ (handle_transaction_logic-no_source s src (p.inet_ntop addr) value seqn e)
            (λ h. cc) (refl, refl, refl, refl, refl)
      | inr (i, c, from) ↦ elim (find_client-cases (p.inet_ntop addr) s.clients) [
        | inl (e, l) ↦
            failed s _ _
              (handle_transaction_logic-no_dest s src (p.inet_ntop addr) value seqn i c from e)
              (λ h. cc) (refl, refl, refl, refl, refl)
        | inr (j, d, onto) ↦ elim (status-cases (check_request c value seqn)) [
          | inl ok ↦
              let answered =
                process_transaction-success s src addr value seqn i j c d from onto ok in
              subst P (some_inj (sym answered ∙ done)) (grant i j c d from onto ok _ refl refl)
          | inr ne ↦
              failed _ _ _
                (handle_transaction_logic-refused s src (p.inet_ntop addr) value seqn i j c d from
                  onto _ refl ne)
                ne
                (refused-Refused s src (p.inet_ntop addr) value seqn (check_request c value seqn))
        ]
      ]
    ]
