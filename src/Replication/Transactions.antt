-- ===== src/Replication/Transactions.antt =====
-- A transaction on the primary, and the update that it sends.
use sis_op_ii.Common.{
  ℕ, ◌^◌, ◌<◌, ◌≡◌, refl, ◌≢◌, inl, inr, Bool, true, false, Option, some, [], Text, if◌then◌else◌,
}
use sis_op_ii.Common.Int.{ℤ}
use sis_op_ii.Protocol.{
  ServerRole, status-cases, TransactionStatus, packet_code, PacketType, Packet,
}
use sis_op_ii.Platform.{Platform, NetLaws}
use sis_op_ii.Server.State.{Server, send_to_all, notify}
use sis_op_ii.Server.Clients.Lookup.{find_client-cases}
use sis_op_ii.Server.Transactions.{
  Outcome, should_notify, handle_transaction_logic, check_request, state_update_packet,
  process_transaction,
}
use sis_op_ii.Server.Transactions.Settle.{
  refused, handle_transaction_logic-no_source, handle_transaction_logic-no_dest,
  handle_transaction_logic-refused,
}
use sis_op_ii.Server.Transactions.Process.{process_transaction-success, process_transaction-failed}
use sis_op_ii.Server.Transactions.Contract.{is_success_ne}
use sis_op_ii.Server.Registration.{handle_state_update}
use sis_op_ii.Replication.Mirrors.{Mirrors}
use sis_op_ii.Replication.Update.{update_packet, state_update-Mirrors}

module _ {W : Type 0} ⦃p : Platform W⦄ where
  -- What an outcome of a primary means to a backup: after a success one packet has gone to every
  -- backup, and brings this one level; otherwise nothing was sent, and it is still level.
  abbrev pub Levels : TransactionStatus → Server W → Server W → Outcome W → Type 0
  Levels TransactionStatus.success s b o =
      (packet : Packet W) × (o.sent ≡ send_to_all packet s.backup_servers)
      × (packet.type ≡ p.htons (packet_code PacketType.state_update))
      × (b' : Server W) × (handle_state_update b packet ≡ some b')
      × Mirrors o.server b'
  Levels _ s b o = (o.sent ≡ []) × Mirrors o.server b

  abbrev pub Replicates : Server W → Server W → Option (Outcome W) → Type 0
  Replicates s b r = (o : Outcome W) × (r ≡ some o) × Levels o.status s b o

  Levels-failed :
      (s b : Server W) (status : TransactionStatus) (o : Outcome W)
      → status ≢ TransactionStatus.success
      → o.sent ≡ []
      → Mirrors o.server b
      → Levels status s b o
  Levels-failed s b TransactionStatus.success o ne sent m = absurd (ne refl)
  Levels-failed s b _ o ne sent m = (sent, m)

  refused-Mirrors :
      (s b : Server W) (src dst : Text) (value seqn : ℤ) (status : TransactionStatus)
      → Mirrors s b
      → Mirrors (refused s src dst value seqn status) b
  unfolding refused
  refused-Mirrors s b src dst value seqn TransactionStatus.error_duplicate_request m = record {
    clients = m.clients;
    history = m.history;
    transactions = m.transactions;
    transferred = m.transferred;
    money = m.money;
  }
  refused-Mirrors s b src dst value seqn TransactionStatus.error_out_of_sequence m = record {
    clients = m.clients;
    history = m.history;
    transactions = m.transactions;
    transferred = m.transferred;
    money = m.money;
  }
  refused-Mirrors s b src dst value seqn _ m = m

  notify-Mirrors :
      (notifies : Bool) (s b : Server W)
      → Mirrors s b
      → Mirrors (if notifies then notify s else s) b
  notify-Mirrors true s b m = record {
    clients = m.clients;
    history = m.history;
    transactions = m.transactions;
    transferred = m.transferred;
    money = m.money;
  }
  notify-Mirrors false s b m = m

  module _ (s b : Server W) (laws : NetLaws W) (leading : s.current_role ≡ ServerRole.primary)
      (mirrors : Mirrors s b) (sender addr : ℕ) (sender_small : sender < 2 ^ 32)
      (addr_small : addr < 2 ^ 32) (value seqn : ℤ) where
    abbrev src : Text
    src = p.inet_ntop sender

    abbrev dst : Text
    dst = p.inet_ntop addr

    failed :
        (s' : Server W) (status : TransactionStatus) (balance : W)
        → handle_transaction_logic s src dst value seqn ≡ some (s', status, balance)
        → status ≢ TransactionStatus.success
        → Mirrors s' b
        → Replicates s b (process_transaction s src addr value seqn)
    failed s' status balance e ne m = (
      _,
      process_transaction-failed s src addr value seqn s' status balance e
          (is_success_ne status ne),
      Levels-failed s b status _ ne refl (notify-Mirrors (should_notify status) s' b m),
    )

    -- Let a backup hold the clients, the history and the counters of its primary, and let the
    -- addresses of source and destination be 32-bit numbers. processTransaction on the primary
    -- returns; if its status is success, it has sent one packet of type STATE_UPDATE to each
    -- registered backup, and handleStateUpdate on that packet returns and leaves the backup with
    -- the clients, history and counters of the primary again; otherwise it has sent nothing and
    -- the backup still agrees with the primary.
    pub process_transaction-Replicates : Replicates s b (process_transaction s src addr value seqn)
    unfolding state_update_packet
    process_transaction-Replicates = elim (find_client-cases src s.clients) [
      | inl (e, l) ↦
          failed s _ _ (handle_transaction_logic-no_source s src dst value seqn e) (λ h. cc) mirrors
      | inr (i, c, from) ↦ elim (find_client-cases dst s.clients) [
        | inl (e, l) ↦
            failed s _ _ (handle_transaction_logic-no_dest s src dst value seqn i c from e)
              (λ h. cc) mirrors
        | inr (j, d, onto) ↦ elim (status-cases (check_request c value seqn)) [
          | inl ok ↦
              let (b', handled, level) =
                state_update-Mirrors s b laws mirrors sender addr sender_small addr_small value seqn
                  i j c d from onto in
              (
                _,
                process_transaction-success s src addr value seqn i j c d from onto ok,
                (
                  update_packet s b laws mirrors sender addr sender_small addr_small value seqn i j
                      c d from onto,
                  rw leading,
                  refl,
                  b',
                  handled,
                  level,
                ),
              )
          | inr ne ↦
              failed _ _ _
                (handle_transaction_logic-refused s src dst value seqn i j c d from onto _ refl ne)
                ne (refused-Mirrors s b src dst value seqn (check_request c value seqn) mirrors)
        ]
      ]
    ]
