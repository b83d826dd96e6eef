-- ===== src/Server/Transactions/Process.antt =====
-- What processTransaction does, with the packets that it sends to the backups.
use sis_op_ii.Common.{
  ℕ, ◌≡◌, refl, inl, inr, false, Option, none, some, List, [], ◌∷◌, ◌++◌, Text, if◌then◌else◌,
  get_last?-snoc, Bool-cases,
}
use sis_op_ii.Common.Int.{ℤ, pos}
use sis_op_ii.Common.Word.{add_int}
use sis_op_ii.Protocol.{TransactionStatus, Transaction, is_primary, Packet, ClientDto}
use sis_op_ii.Protocol.CharArray.{copy_ip}
use sis_op_ii.Platform.{Platform}
use sis_op_ii.Server.State.{Server, notify, send_to_all}
use sis_op_ii.Server.Clients.Lookup.{lookup, Found, find_client-cases}
use sis_op_ii.Server.Transactions.{
  is_success, should_notify, check_request, handle_transaction_logic, update_and_log_transaction,
  log_success, last_request_of, replicate_last, state_update_packet, process_transaction,
}
use sis_op_ii.Server.Transactions.Settle.{
  clients_after, handle_transaction_logic-success, source-moved, source_settled, dest-moved,
  dest_settled,
}

module _ {W : Type 0} ⦃p : Platform W⦄ where
  abbrev pub reported_last_req : Option (ClientDto W) → ℤ
  reported_last_req none = pos 0
  reported_last_req (some c) = c.last_req

  last_request_of-lookup :
      (ip : Text) (cs : List (ClientDto W))
      → last_request_of ip cs ≡ some (reported_last_req (lookup ip cs))
  unfolding last_request_of
  last_request_of-lookup ip cs = elim (find_client-cases ip cs) [
    | inl (e, l) ↦ rw (e, last_request_of, l)
    | inr (i, c, f) ↦ rw (f.found, last_request_of, f.holds, f.looked)
  ]

  -- The entry that a granted request adds to the history.
  abbrev pub entry_of : Server W → Text → Text → ℤ → ℤ → Transaction
  entry_of s src dst value seqn = record {
    id = add_int s.num_transactions (pos 1);
    source_ip = copy_ip src;
    dest_ip = copy_ip dst;
    value = value;
    client_seqn = seqn;
  }

  module _ (s : Server W) (src : Text) (addr : ℕ) (value seqn : ℤ) where
    pub process_transaction-failed :
        (s' : Server W) (status : TransactionStatus) (balance : W)
        → handle_transaction_logic s src (p.inet_ntop addr) value seqn ≡ some (s', status, balance)
        → is_success status ≡ false
        → process_transaction s src addr value seqn
          ≡ some (record {
            server = if should_notify status then notify s' else s';
            status = status;
            balance = balance;
            last_req = reported_last_req (lookup src s'.clients);
            sent = [];
          })
    unfolding process_transaction
    process_transaction-failed s' status balance e failed =
        rw (e, failed, last_request_of-lookup src s'.clients)

    module _ (i j : ℕ) (c d : ClientDto W) (from : Found src s.clients i c)
        (onto : Found (p.inet_ntop addr) s.clients j d) where
      abbrev pub source_now : ClientDto W
      source_now = source_settled src (p.inet_ntop addr) s.clients i j c d from onto value seqn

      abbrev pub dest_now : ClientDto W
      dest_now = dest_settled src (p.inet_ntop addr) s.clients i j c d from onto value seqn

      unfoldable pub server_after : Server W
      unfolding update_and_log_transaction
      server_after = log_success (
          update_and_log_transaction
            (record s {
              clients = clients_after s src (p.inet_ntop addr) i j c d from onto value seqn;
            })
            src (p.inet_ntop addr) value seqn)

      abbrev update_packet : Packet W
      update_packet =
          state_update_packet (entry_of s src (p.inet_ntop addr) value seqn) source_now dest_now

      source-Found : Found src server_after.clients i source_now
      unfolding server_after
      source-Found = source-moved src (p.inet_ntop addr) s.clients i j c d from onto value seqn

      dest-Found : Found (p.inet_ntop addr) server_after.clients j dest_now
      unfolding server_after
      dest-Found = dest-moved src (p.inet_ntop addr) s.clients i j c d from onto value seqn

      history_after :
          server_after.transaction_history
          ≡ s.transaction_history ++ entry_of s src (p.inet_ntop addr) value seqn ∷ []
      unfolding server_after
      history_after = refl

      replicate_last-server_after :
          replicate_last server_after src (p.inet_ntop addr)
          ≡ some (send_to_all update_packet s.backup_servers)
      unfolding replicate_last
      replicate_last-server_after =
          rw
            (
              history_after,
              get_last?-snoc s.transaction_history,
              source-Found.found,
              dest-Found.found,
              source-Found.holds,
              dest-Found.holds,
            )
            (unfold server_after in refl)

      pub process_transaction-success :
          check_request c value seqn ≡ TransactionStatus.success
          → process_transaction s src addr value seqn
            ≡ some (record {
              server = notify server_after;
              status = TransactionStatus.success;
              balance = source_now.balance;
              last_req = seqn;
              sent =
                  if is_primary s.current_role
                  then send_to_all update_packet s.backup_servers
                  else [];
            })
      unfolding process_transaction server_after
      process_transaction-success ok = elim (Bool-cases (is_primary s.current_role)) [
        | inl leading ↦ rw (
          handle_transaction_logic-success s src (p.inet_ntop addr) i j c d from onto value seqn ok,
          leading,
          replicate_last-server_after,
          last_request_of-lookup src server_after.clients,
          source-Found.looked,
        )
        | inr following ↦ rw (
          handle_transaction_logic-success s src (p.inet_ntop addr) i j c d from onto value seqn ok,
          following,
          last_request_of-lookup src server_after.clients,
          source-Found.looked,
        )
      ]
