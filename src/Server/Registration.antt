-- ===== src/Server/Registration.antt =====
-- Clients and backups that join, and what a backup does with the packets of its primary:
-- wasClientAdded, addClient, propagateClientAddition, registerBackup, handleClientUpdate,
-- handleStateUpdate and handleHistoryEntry. `none` is undefined behaviour.
pub mod StateUpdate
pub mod Join
use sis_op_ii.Common.{
  ℕ, Bool, true, false, Option, none, some, List, [], ◌∷◌, ◌++◌, map, Text, if◌then◌else◌, length,
  ◌>>=◌,
}
use sis_op_ii.Common.Int.{ℤ, pos}
use sis_op_ii.Common.Word.{add_int}
use sis_op_ii.Protocol.{
  LogType, is_primary, packet_code, PacketType, Transaction, ClientUpdateData, PacketData,
  of_client_update, of_history_entry, indeterminate, Packet, SockAddr, ClientDto,
}
use sis_op_ii.Protocol.CharArray.{copy_ip, c_string}
use sis_op_ii.Platform.{Platform, read_client_update, read_state_update, read_history_entry}
use sis_op_ii.Server.State.{Server, Send, notify, send_to_all}
use sis_op_ii.Server.Clients.{
  Iterator, new_client, find_client, write, set_balance, set_last_request,
}

module _ {W : Type 0} ⦃p : Platform W⦄ where
  -- `int += float`: the sum is a float, cut off to an `int`.
  unfoldable pub add_balance : ℤ → W → ℤ
  add_balance total bal = p.trunc (p.add (p.of_int total) bal)

  unfoldable pub client_update_packet : ClientDto W → Packet W
  client_update_packet c = record {
    type = p.htons (packet_code PacketType.add_client_update);
    contents =
        of_client_update
          (record { ip = copy_ip c.address; balance = c.balance; last_request = c.last_req });
  }

  unfoldable pub propagate_client_addition : Server W → ClientDto W → List (Send W)
  unfolding client_update_packet
  propagate_client_addition s c = send_to_all (client_update_packet c) s.backup_servers

  -- The branch of wasClientAdded for an address that `find_if` does not meet.
  unfoldable pub append_client : Server W → Text → Server W
  unfolding new_client add_balance
  append_client s client_ip = record s {
    clients = s.clients ++ new_client client_ip ∷ [];
    total_balance = add_balance s.total_balance (new_client client_ip).balance;
  }

  unfoldable pub was_client_added : Server W → Text → Server W × Bool × List (Send W)
  unfolding append_client propagate_client_addition
  was_client_added s client_ip = elim (find_client client_ip s.clients) [
    | some _ ↦ (s, false, [])
    | none ↦ (
      append_client s client_ip,
      true,
      (if is_primary s.current_role
          then propagate_client_addition s (new_client client_ip)
          else []),
    )
  ]

  unfoldable pub add_client : Server W → Text → Server W × List (Send W)
  unfolding was_client_added
  add_client s client_ip =
      let (s', client_added, sent) = was_client_added s client_ip in
      (if client_added then notify s' else s', sent)

  unfoldable pub discovery_ack : Packet W
  discovery_ack = record {
    type = p.htons (packet_code PacketType.discovery_ack);
    contents = indeterminate;
  }

  -- handleDiscoveryPacket, without the table that it prints.
  unfoldable pub handle_discovery_packet : Server W → SockAddr → Server W × List (Send W)
  unfolding add_client discovery_ack
  handle_discovery_packet s client_addr =
      if is_primary s.current_role
      then (let (s', sent) = add_client s (p.inet_ntop client_addr.sin_addr) in
          (s', sent ++ (discovery_ack, client_addr) ∷ []))
      else (s, [])

  unfoldable pub history_packet : Transaction → Packet W
  history_packet tx = record {
    type = p.htons (packet_code PacketType.add_history_entry);
    contents = of_history_entry tx;
  }

  -- The packets that bring a new backup up to date.
  unfoldable pub sync_packets : Server W → List (Packet W)
  unfolding client_update_packet history_packet
  sync_packets s = map client_update_packet s.clients ++ map history_packet s.transaction_history

  unfoldable pub register_backup : Server W → SockAddr → Server W × List (Send W)
  unfolding sync_packets
  register_backup s backup_addr = (
    record s { backup_servers = s.backup_servers ++ backup_addr ∷ [] },
    map (λ packet. (packet, backup_addr)) (sync_packets s),
  )

  -- handleClientUpdate, from its address on.
  unfoldable pub take_client : Server W → ClientUpdateData W → Text → Server W
  unfolding add_balance new_client
  take_client s u ip = elim (find_client ip s.clients) [
    | some _ ↦ s
    | none ↦ notify (record s {
      clients =
          s.clients ++ set_last_request u.last_request (set_balance u.balance (new_client ip)) ∷ [];
      total_balance = add_balance s.total_balance u.balance;
    })
  ]

  -- `none` is undefined behaviour.
  unfoldable pub handle_client_update : Server W → Packet W → Option (Server W)
  unfolding take_client c_string
  handle_client_update s packet = do
    let u = read_client_update packet.contents
    ip ← c_string u.ip
    some (take_client s u ip)

  unfoldable pub handle_history_entry : Server W → Packet W → Server W
  handle_history_entry s packet =
      let entry = read_history_entry packet.contents in
      notify (record s {
        transaction_history = s.transaction_history ++ entry ∷ [];
        num_transactions = add_int s.num_transactions (pos 1);
        total_transferred = add_int s.total_transferred entry.value;
      })

  -- `findClient`, and `emplace_back` where there is none; the last part says that the vector
  -- has moved, so that older iterators dangle.
  unfoldable pub find_or_add : Text → List (ClientDto W) → List (ClientDto W) × Iterator × Bool
  unfolding new_client
  find_or_add ip clients = elim (find_client ip clients) [
    | some i ↦ (clients, some i, false)
    | none ↦
        let grown = clients ++ new_client ip ∷ [] in
        (grown, find_client ip grown, p.reallocates (length clients))
  ]

  unfoldable pub handle_state_update : Server W → Packet W → Option (Server W)
  unfolding c_string
  handle_state_update s packet = do
    let u = read_state_update packet.contents
    let tx = u.transaction
    source_ip ← c_string u.source_ip
    dest_ip ← c_string u.dest_ip
    let (with_source, source_it, _) = find_or_add source_ip s.clients
    let (with_both, dest_it, moved) = find_or_add dest_ip with_source
    i ← if moved then none else source_it
    j ← dest_it
    debited ← write i (set_balance u.source_balance) with_both
    credited ← write j (set_balance u.dest_balance) debited
    clients ← write i (set_last_request tx.client_seqn) credited
    some (
        notify (record s {
          clients = clients;
          transaction_history = s.transaction_history ++ tx ∷ [];
          num_transactions = add_int s.num_transactions (pos 1);
          total_transferred = add_int s.total_transferred tx.value;
          last_log_info = record {
            type = LogType.success;
            transaction_id = tx.id;
            value = tx.value;
            source_ip = source_ip;
            dest_ip = dest_ip;
          };
        }))
