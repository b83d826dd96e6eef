-- ===== src/Election/System/Handlers.antt =====
-- What the handlers and the stages of the threads send, and what they do to an election.
use sis_op_ii.Common.{
  ℕ, ◌≡◌, refl, inl, inr, Bool, true, false, none, some, List, [], ◌∷◌, ◌++◌, map, get_last?,
  OnSome, OnSome-none, OnSome-pure, OnSome-bind, OnSome-then, Text, arith, ◌&&◌, if◌then◌else◌,
  Bool-cases, ◌>>=◌,
}
use sis_op_ii.Common.Int.{ℤ}
use sis_op_ii.Common.Word.{to_int}
use sis_op_ii.Protocol.{TransactionStatus, PacketType, Transaction, Packet, SockAddr, ClientDto}
use sis_op_ii.Platform.{Platform, NetLaws, read_req}
use sis_op_ii.Server.State.{Server, Send, notify}
use sis_op_ii.Server.Transactions.{
  Outcome, should_notify, is_success, execute_transaction, settle, update_and_log_transaction,
  setup_duplicate_request_log, validate_transaction, handle_transaction_logic, last_request_of,
  process_transaction, replicate_last, propagate_transaction, state_update_packet, transaction_ack,
  handle_transaction_request,
}
use sis_op_ii.Server.Registration.{
  client_update_packet, history_packet, discovery_ack, propagate_client_addition, was_client_added,
  add_client, handle_discovery_packet, sync_packets, register_backup,
}
use sis_op_ii.Server.Election.{bare_packet}
use sis_op_ii.Election.System.{is_vote}
use sis_op_ii.Server.Clients.{Iterator, new_client, find_client, deref}
use sis_op_ii.Protocol.{is_primary}
use sis_op_ii.Election.System.Honest.{
  IsHonest, AreHonest, other-IsHonest, AreHonest-append, send_to_all-AreHonest, map-AreHonest,
}

module _ {W : Type 0} where
  -- An election under way is left alone.
  pub record Unmoved (s s' : Server W) : Type 0 where
    pub id : s'.server_id ≡ s.server_id
    pub running : s'.election_in_progress ≡ s.election_in_progress
    pub lost : s'.election_lost ≡ s.election_lost
    pub role : s'.current_role ≡ s.current_role

module _ {W : Type 0} ⦃p : Platform W⦄ (laws : NetLaws W) (id : ℕ) where
  pub bare_packet-IsHonest :
      (t : PacketType) → is_vote (some t) ≡ false → IsHonest {W = W} id (bare_packet t)
  unfolding bare_packet
  bare_packet-IsHonest t other = other-IsHonest laws id (bare_packet t) t refl other

  client_update-IsHonest : (c : ClientDto W) → IsHonest id (client_update_packet c)
  unfolding client_update_packet
  client_update-IsHonest c =
      other-IsHonest laws id (client_update_packet c) PacketType.add_client_update refl refl

  history-IsHonest : (tx : Transaction) → IsHonest {W = W} id (history_packet tx)
  unfolding history_packet
  history-IsHonest tx =
      other-IsHonest laws id (history_packet tx) PacketType.add_history_entry refl refl

  state_update-IsHonest :
      (tx : Transaction) (a b : ClientDto W) → IsHonest id (state_update_packet tx a b)
  unfolding state_update_packet
  state_update-IsHonest tx a b =
      other-IsHonest laws id (state_update_packet tx a b) PacketType.state_update refl refl

  transaction_ack-IsHonest :
      (seqn : ℤ) (result : Outcome W) → IsHonest id (transaction_ack seqn result)
  unfolding transaction_ack
  transaction_ack-IsHonest seqn result =
      other-IsHonest laws id (transaction_ack seqn result) PacketType.transaction_ack refl refl

  discovery_ack-IsHonest : IsHonest {W = W} id discovery_ack
  unfolding discovery_ack
  discovery_ack-IsHonest = other-IsHonest laws id discovery_ack PacketType.discovery_ack refl refl

  pub add_client-AreHonest : (s : Server W) (ip : Text) → AreHonest id (add_client s ip).1
  unfolding add_client was_client_added propagate_client_addition
  add_client-AreHonest s ip =
      let update : ClientDto W = new_client ip in
      ground (
        arith,
        send_to_all-AreHonest id (client_update_packet update) s.backup_servers
            (client_update-IsHonest update),
      )

  pub discovery-AreHonest :
      (s : Server W) (addr : SockAddr) → AreHonest id (handle_discovery_packet s addr).1
  unfolding handle_discovery_packet
  discovery-AreHonest s addr = elim (Bool-cases (is_primary s.current_role)) [
    | inl leads ↦ rw leads (
        AreHonest-append id (add_client s (p.inet_ntop addr.sin_addr)).1 _
          (add_client-AreHonest s (p.inet_ntop addr.sin_addr)) (discovery_ack-IsHonest, tt))
    | inr follows ↦ rw follows tt
  ]

  map-append :
      (xs ys : List (Packet W)) (to : SockAddr)
      → AreHonest id (map (λ packet. (packet, to)) xs)
      → AreHonest id (map (λ packet. (packet, to)) ys)
      → AreHonest id (map (λ packet. (packet, to)) (xs ++ ys))
  map-append [] ys to hx hy = hy
  map-append (x ∷ xs) ys to (h, hx) hy = (h, map-append xs ys to hx hy)

  pub register_backup-AreHonest :
      (s : Server W) (addr : SockAddr) → AreHonest id (register_backup s addr).1
  unfolding register_backup sync_packets
  register_backup-AreHonest s addr =
      map-append (map client_update_packet s.clients) (map history_packet s.transaction_history)
        addr (map-AreHonest id addr client_update_packet s.clients client_update-IsHonest)
        (map-AreHonest id addr history_packet s.transaction_history history-IsHonest)

  replicate_last-OnSome :
      (s : Server W) (source_ip dest_ip : Text)
      → OnSome (AreHonest id) (replicate_last s source_ip dest_ip)
  unfolding replicate_last propagate_transaction
  replicate_last-OnSome s source_ip dest_ip =
      OnSome-then _ (get_last? s.transaction_history) _ λ tx.
        OnSome-then _ (find_client source_ip s.clients) _ λ i.
          OnSome-then _ (find_client dest_ip s.clients) _ λ j.
            OnSome-then _ (deref i s.clients) _ λ source.
              OnSome-then _ (deref j s.clients) _ λ dest. OnSome-pure _ _ (
                send_to_all-AreHonest id (state_update_packet tx source dest) s.backup_servers
                  (state_update-IsHonest tx source dest))

  replicated-OnSome :
      (s : Server W) (source_ip dest_ip : Text) (successful : Bool)
      → OnSome (AreHonest id) (if successful then replicate_last s source_ip dest_ip else some [])
  replicated-OnSome s source_ip dest_ip true = replicate_last-OnSome s source_ip dest_ip
  replicated-OnSome s source_ip dest_ip false = OnSome-pure _ [] tt

  settle-Unmoved :
      (s : Server W) (i j : Iterator) (source_ip dest_ip : Text) (value seqn : ℤ)
      (status : TransactionStatus)
      → OnSome (λ r. Unmoved s r.0) (settle s i j source_ip dest_ip value seqn status)
  unfolding settle update_and_log_transaction setup_duplicate_request_log
  settle-Unmoved s (some i) (some j) source_ip dest_ip value seqn TransactionStatus.success =
      OnSome-then _ (execute_transaction s.clients i j value seqn) _
        λ clients. OnSome-then _ (deref i clients) _ λ source. OnSome-pure _ _ (ground arith)
  settle-Unmoved s none j source_ip dest_ip value seqn TransactionStatus.success = OnSome-none _
  settle-Unmoved s (some i) none source_ip dest_ip value seqn TransactionStatus.success =
      OnSome-none _
  settle-Unmoved s none j source_ip dest_ip value seqn TransactionStatus.error_duplicate_request =
      OnSome-none _
  settle-Unmoved s none j source_ip dest_ip value seqn TransactionStatus.error_out_of_sequence =
      OnSome-none _
  settle-Unmoved s none j source_ip dest_ip value seqn status = OnSome-pure _ _ (ground arith)
  settle-Unmoved s (some i) j source_ip dest_ip value seqn status =
      OnSome-then _ (deref i s.clients) _ λ source. OnSome-pure _ _ (ground arith)

  logic-Unmoved :
      (s : Server W) (source_ip dest_ip : Text) (value seqn : ℤ)
      → OnSome (λ r. Unmoved s r.0) (handle_transaction_logic s source_ip dest_ip value seqn)
  unfolding handle_transaction_logic
  logic-Unmoved s source_ip dest_ip value seqn =
      let i = find_client source_ip s.clients in
      let j = find_client dest_ip s.clients in
      OnSome-then _ (validate_transaction s.clients i j value seqn) _
        λ status. settle-Unmoved s i j source_ip dest_ip value seqn status

  replies-OnSome :
      (s s' : Server W) (source_ip : Text) (status : TransactionStatus) (balance : W)
      (sent : List (Send W))
      → Unmoved s s'
      → AreHonest id sent
      → OnSome
          (λ (o : Outcome W). Unmoved s o.server × AreHonest id o.sent)
          (last_request_of source_ip s'.clients >>= λ last_req. some (record {
            server = if should_notify status then notify s' else s';
            status = status;
            balance = balance;
            last_req = last_req;
            sent = sent;
          }))
  replies-OnSome s s' source_ip status balance sent same honest =
      OnSome-then _ (last_request_of source_ip s'.clients) _
        λ last_req. OnSome-pure _ _ (ground arith, honest)

  process_transaction-OnSome :
      (s : Server W) (source_ip : Text) (dest : ℕ) (value seqn : ℤ)
      → OnSome
          (λ o. Unmoved s o.server × AreHonest id o.sent)
          (process_transaction s source_ip dest value seqn)
  unfolding process_transaction
  process_transaction-OnSome s source_ip dest value seqn =
      let dest_ip = p.inet_ntop dest in
      OnSome-bind _ _ (handle_transaction_logic s source_ip dest_ip value seqn) _
        (logic-Unmoved s source_ip dest_ip value seqn)
        λ (s', status, balance) same.
          OnSome-bind (AreHonest id) _
            (if is_success status && is_primary s'.current_role
              then replicate_last s' source_ip dest_ip
              else some [])
            _ (replicated-OnSome s' source_ip dest_ip _)
            λ sent honest. replies-OnSome s s' source_ip status balance sent same honest

  pub transaction-OnSome :
      (s : Server W) (packet : Packet W) (addr : SockAddr)
      → OnSome (λ r. Unmoved s r.0 × AreHonest id r.1) (handle_transaction_request s packet addr)
  unfolding handle_transaction_request
  transaction-OnSome s packet addr =
      let req = read_req packet.contents in
      let seqn = to_int (p.ntohl req.seqn) in
      OnSome-bind _ _
        (process_transaction s (p.inet_ntop addr.sin_addr) req.dest_addr
          (to_int (p.ntohl req.value)) seqn)
        _
        (process_transaction-OnSome s (p.inet_ntop addr.sin_addr) req.dest_addr
          (to_int (p.ntohl req.value)) seqn)
        λ o (same, honest).
          OnSome-pure _ _
            (same, AreHonest-append id o.sent _ honest (transaction_ack-IsHonest seqn o, tt))
