-- ===== src/Server/Transactions.antt =====
-- Transactions on the server: validateTransaction, executeTransaction, updateAndLogTransaction,
-- setupDuplicateRequestLog, handleTransactionLogic, processTransaction, and the reply of
-- handleTransactionRequest. `none` is undefined behaviour.
pub mod Settle
pub mod Bank
pub mod Process
pub mod Contract
pub mod Cases
pub mod Money
pub mod Retry
pub mod Reasons
use sis_op_ii.Common.{
  ℕ, ◌≡◌, Bool, true, false, ◌&&◌, Option, none, some, List, [], ◌∷◌, ◌++◌, Text, if◌then◌else◌,
  get_last?, ◌>>=◌,
}
use sis_op_ii.Common.Int.{ℤ, pos, negsuc, ltb_ℤ, leb_ℤ}
use sis_op_ii.Common.Word.{to_u32, to_int, add_int}
use sis_op_ii.Protocol.{
  LogType, LogInfo, TransactionStatus, status_code, Transaction, is_primary, packet_code,
  PacketType, StateUpdateData, ReqData, PacketData, of_req, of_ack, of_state_update, Packet,
  SockAddr, ClientDto,
}
use sis_op_ii.Protocol.CharArray.{copy_ip}
use sis_op_ii.Platform.{Platform, read_req}
use sis_op_ii.Server.State.{Server, Send, notify, send_to_all}
use sis_op_ii.Server.Clients.{Iterator, find_client, deref, write, set_balance, set_last_request}

abbrev pub is_success : TransactionStatus → Bool
is_success TransactionStatus.success = true
is_success _ = false

abbrev pub should_notify : TransactionStatus → Bool
should_notify TransactionStatus.success = true
should_notify TransactionStatus.error_duplicate_request = true
should_notify TransactionStatus.error_out_of_sequence = true
should_notify _ = false

-- What processTransaction returns, with the state after it and the packets it sends.
pub record Outcome (W : Type 0) : Type 0 where
  pub server : Server W
  pub status : TransactionStatus
  pub balance : W
  pub last_req : ℤ
  pub sent : List (Send W)

module _ {W : Type 0} ⦃p : Platform W⦄ where
  unfoldable pub check_request : ClientDto W → ℤ → ℤ → TransactionStatus
  check_request source value seqn =
      if leb_ℤ seqn source.last_req
      then TransactionStatus.error_duplicate_request
      else if ltb_ℤ (add_int source.last_req (pos 1)) seqn
      then TransactionStatus.error_out_of_sequence
      else if p.lt source.balance (p.of_int value)
      then TransactionStatus.error_insufficient_funds
      else TransactionStatus.success

  unfoldable pub validate_transaction :
      List (ClientDto W) → Iterator → Iterator → ℤ → ℤ → Option TransactionStatus
  unfolding check_request
  validate_transaction clients none dest_it value seqn =
      some TransactionStatus.error_client_not_found
  validate_transaction clients (some i) none value seqn =
      some TransactionStatus.error_client_not_found
  validate_transaction clients (some i) (some j) value seqn = do
    source ← deref i clients
    some (check_request source value seqn)

  unfoldable pub execute_transaction :
      List (ClientDto W) → ℕ → ℕ → ℤ → ℤ → Option (List (ClientDto W))
  execute_transaction clients i j value seqn = do
    source ← deref i clients
    debited ← write i (set_balance (p.sub source.balance (p.of_int value))) clients
    dest ← deref j debited
    credited ← write j (set_balance (p.add dest.balance (p.of_int value))) debited
    write i (set_last_request seqn) credited

  unfoldable pub update_and_log_transaction : Server W → Text → Text → ℤ → ℤ → Server W
  update_and_log_transaction s source_ip dest_ip value seqn =
      let id = add_int s.num_transactions (pos 1) in
      record s {
        num_transactions = id;
        total_transferred = add_int s.total_transferred value;
        transaction_history =
            s.transaction_history
            ++ record {
              id = id;
              source_ip = copy_ip source_ip;
              dest_ip = copy_ip dest_ip;
              value = value;
              client_seqn = seqn;
            }
              ∷ [];
      }

  unfoldable pub setup_duplicate_request_log : Server W → Text → Text → ℤ → ℤ → Server W
  setup_duplicate_request_log s source_ip dest_ip value seqn = record s {
    last_log_info = record {
      type = LogType.duplicate;
      transaction_id = seqn;
      value = value;
      source_ip = source_ip;
      dest_ip = dest_ip;
    };
  }

  -- `last_log_info.type = LogType::SUCCESS`.
  abbrev log_success : Server W → Server W
  log_success s = record s { last_log_info = record s.last_log_info { type = LogType.success } }

  -- The branch of handleTransactionLogic for a status; on success both iterators are valid.
  unfoldable pub settle :
      Server W
      → Iterator
      → Iterator
      → Text
      → Text
      → ℤ
      → ℤ
      → TransactionStatus
      → Option (Server W × TransactionStatus × W)
  unfolding execute_transaction update_and_log_transaction setup_duplicate_request_log
  settle s (some i) (some j) source_ip dest_ip value seqn TransactionStatus.success = do
    clients ← execute_transaction s.clients i j value seqn
    source ← deref i clients
    let s' =
        update_and_log_transaction (record s { clients = clients }) source_ip dest_ip value seqn
    some (log_success s', TransactionStatus.success, source.balance)
  settle s none _ source_ip dest_ip value seqn TransactionStatus.success = none
  settle s (some i) none source_ip dest_ip value seqn TransactionStatus.success = none
  settle s (some i) _ source_ip dest_ip value seqn TransactionStatus.error_duplicate_request = do
    source ← deref i s.clients
    some (
      setup_duplicate_request_log s source_ip dest_ip value seqn,
      TransactionStatus.error_duplicate_request,
      source.balance,
    )
  settle s none _ source_ip dest_ip value seqn TransactionStatus.error_duplicate_request = none
  settle s (some i) _ source_ip dest_ip value seqn TransactionStatus.error_out_of_sequence = do
    source ← deref i s.clients
    some (
      setup_duplicate_request_log s source_ip dest_ip value seqn,
      TransactionStatus.error_out_of_sequence,
      source.balance,
    )
  settle s none _ source_ip dest_ip value seqn TransactionStatus.error_out_of_sequence = none
  settle s none _ source_ip dest_ip value seqn status = some (s, status, p.of_int (negsuc 0))
  settle s (some i) _ source_ip dest_ip value seqn status = do
    source ← deref i s.clients
    some (s, status, source.balance)

  unfoldable pub handle_transaction_logic :
      Server W → Text → Text → ℤ → ℤ → Option (Server W × TransactionStatus × W)
  unfolding validate_transaction settle
  handle_transaction_logic s source_ip dest_ip value seqn =
      let source_it = find_client source_ip s.clients in
      let dest_it = find_client dest_ip s.clients in
      validate_transaction s.clients source_it dest_it value seqn
      >>= settle s source_it dest_it source_ip dest_ip value seqn

  unfoldable pub state_update_packet : Transaction → ClientDto W → ClientDto W → Packet W
  state_update_packet new_tx source_client dest_client = record {
    type = p.htons (packet_code PacketType.state_update);
    contents = of_state_update (record {
      transaction = new_tx;
      source_ip = copy_ip source_client.address;
      source_balance = source_client.balance;
      dest_ip = copy_ip dest_client.address;
      dest_balance = dest_client.balance;
    });
  }

  unfoldable pub propagate_transaction :
      Server W → Transaction → ClientDto W → ClientDto W → List (Send W)
  unfolding state_update_packet
  propagate_transaction s new_tx source_client dest_client =
      send_to_all (state_update_packet new_tx source_client dest_client) s.backup_servers

  -- The branch of processTransaction that a primary takes after a success.
  unfoldable pub replicate_last : Server W → Text → Text → Option (List (Send W))
  unfolding propagate_transaction
  replicate_last s source_ip dest_ip = do
    new_tx ← get_last? s.transaction_history
    i ← find_client source_ip s.clients
    j ← find_client dest_ip s.clients
    source ← deref i s.clients
    dest ← deref j s.clients
    some (propagate_transaction s new_tx source dest)

  -- `last_req` of the reply: that of the source, or 0 if there is none.
  unfoldable pub last_request_of : Text → List (ClientDto W) → Option ℤ
  last_request_of ip clients = elim (find_client ip clients) [
    | none ↦ some (pos 0)
    | some i ↦ deref i clients >>= λ source. some source.last_req
  ]

  unfoldable pub process_transaction : Server W → Text → ℕ → ℤ → ℤ → Option (Outcome W)
  unfolding handle_transaction_logic replicate_last last_request_of
  process_transaction s source_ip dest_addr_int value seqn = do
    let dest_ip = p.inet_ntop dest_addr_int
    (s', status, balance) ← handle_transaction_logic s source_ip dest_ip value seqn
    sent ←
        if is_success status && is_primary s'.current_role
        then replicate_last s' source_ip dest_ip
        else some []
    last_req ← last_request_of source_ip s'.clients
    some (record {
      server = if should_notify status then notify s' else s';
      status = status;
      balance = balance;
      last_req = last_req;
      sent = sent;
    })

  unfoldable pub transaction_ack : ℤ → Outcome W → Packet W
  transaction_ack seqn result = record {
    type = p.htons (packet_code PacketType.transaction_ack);
    contents = of_ack (record {
      seqn = p.htonl (to_u32 seqn);
      new_balance = result.balance;
      status = p.htonl (status_code result.status);
      last_req = p.htonl (to_u32 result.last_req);
    });
  }

  -- The body of the thread that handleTransactionRequest starts.
  unfoldable pub handle_transaction_request :
      Server W → Packet W → SockAddr → Option (Server W × List (Send W))
  unfolding process_transaction
  handle_transaction_request s request_packet client_addr = do
    let source_ip = p.inet_ntop client_addr.sin_addr
    let req = read_req request_packet.contents
    let value = to_int (p.ntohl req.value)
    let seqn = to_int (p.ntohl req.seqn)
    result ← process_transaction s source_ip req.dest_addr value seqn
    some (result.server, result.sent ++ (transaction_ack seqn result, client_addr) ∷ [])
