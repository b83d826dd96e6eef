-- ===== src/Server/Dispatch.antt =====
-- The main loop of Server::init on one packet, and one stage of each thread.
pub mod Types
use sis_op_ii.Common.{
  ℕ, Bool, true, false, Option, none, some, List, [], ◌∷◌, ◌++◌, Text, ◌==◌, if◌then◌else◌, ◌>>=◌,
}
use sis_op_ii.Protocol.{is_primary, is_backup, packet_code, PacketType, Packet, SockAddr}
use sis_op_ii.Platform.{Platform}
use sis_op_ii.Server.State.{Server, Send}
use sis_op_ii.Server.Transactions.{handle_transaction_request}
use sis_op_ii.Server.Registration.{
  handle_discovery_packet, register_backup, handle_client_update, handle_state_update,
  handle_history_entry,
}
use sis_op_ii.Server.Election.{
  Thread, transaction, heartbeat_sender, heartbeat_monitor, monitor_waiting, delayed_election,
  election, election_waiting, Reaction, silent, send_heartbeats, start_election, finish_election,
  arm_monitor, end_wait, handle_heartbeat_packet, send_discovery_ack,
  handle_new_primary_announcement, handle_election_packet, handle_election_answer_packet,
  init_backup, init_primary,
}

-- The case of a `switch` on a packet's type; `none` is the default case.
unfoldable pub packet_type_of : ℕ → Option PacketType
packet_type_of n =
    if n == 0
    then some PacketType.discovery
    else if n == 1
    then some PacketType.discovery_ack
    else if n == 2
    then some PacketType.transaction_req
    else if n == 3
    then some PacketType.transaction_ack
    else if n == 4
    then some PacketType.register_backup
    else if n == 5
    then some PacketType.add_client_update
    else if n == 6
    then some PacketType.heartbeat
    else if n == 7
    then some PacketType.new_primary_announcement
    else if n == 8
    then some PacketType.state_update
    else if n == 9
    then some PacketType.state_update_ack
    else if n == 10
    then some PacketType.add_history_entry
    else if n == 11
    then some PacketType.server_discovery
    else if n == 12
    then some PacketType.election
    else if n == 13
    then some PacketType.election_answer
    else none

module _ {W : Type 0} where
  abbrev pub replies : Server W × List (Send W) → Reaction W
  replies (s, sent) = record { server = s; sent = sent; threads = [] }

module _ {W : Type 0} ⦃p : Platform W⦄ where
  unfoldable pub handle_packet :
      Server W → Option PacketType → Packet W → SockAddr → Option (Reaction W)
  handle_packet s (some PacketType.transaction_req) packet addr = some (
      if is_primary s.current_role
      then record { server = s; sent = []; threads = Thread.transaction packet addr ∷ [] }
      else silent s)
  handle_packet s (some PacketType.discovery) packet addr =
      some (replies (handle_discovery_packet s addr))
  handle_packet s (some PacketType.discovery_ack) packet addr = some (silent s)
  handle_packet s (some PacketType.register_backup) packet addr =
      some (if is_primary s.current_role then replies (register_backup s addr) else silent s)
  handle_packet s (some PacketType.add_client_update) packet addr =
      if is_backup s.current_role
      then (handle_client_update s packet >>= λ s'. some (silent s'))
      else some (silent s)
  handle_packet s (some PacketType.state_update) packet addr =
      if is_backup s.current_role
      then (handle_state_update s packet >>= λ s'. some (silent s'))
      else some (silent s)
  handle_packet s (some PacketType.add_history_entry) packet addr =
      some (silent (if is_backup s.current_role then handle_history_entry s packet else s))
  handle_packet s (some PacketType.heartbeat) packet addr =
      some (silent (handle_heartbeat_packet s))
  handle_packet s (some PacketType.server_discovery) packet addr =
      some (replies (s, send_discovery_ack s addr))
  handle_packet s (some PacketType.new_primary_announcement) packet addr =
      some (handle_new_primary_announcement s packet addr)
  handle_packet s (some PacketType.election) packet addr =
      some (replies (handle_election_packet s packet addr))
  handle_packet s (some PacketType.election_answer) packet addr =
      some (silent (handle_election_answer_packet s packet))
  handle_packet s (some PacketType.transaction_ack) packet addr = some (silent s)
  handle_packet s (some PacketType.state_update_ack) packet addr = some (silent s)
  handle_packet s none packet addr = some (silent s)

  -- One round of the main loop, for a packet that was received.
  unfoldable pub dispatch : Server W → Packet W → SockAddr → Option (Reaction W)
  dispatch s packet addr = handle_packet s (packet_type_of (p.ntohs packet.type)) packet addr

  -- The choice of Server::init between the two ways to begin, by the result of the discovery.
  unfoldable pub choose_role : Server W → Text → ℕ → Reaction W
  unfolding init_backup init_primary
  choose_role s [] port = init_primary s
  choose_role s (c ∷ primary_ip) port = init_backup s (c ∷ primary_ip) port

  unfoldable pub run_thread : Thread W → Server W → Option (Reaction W)
  unfolding handle_transaction_request send_heartbeats arm_monitor end_wait start_election
      finish_election
  run_thread (transaction packet addr) s =
      handle_transaction_request s packet addr >>= λ r. some (replies r)
  run_thread heartbeat_sender s = some (send_heartbeats s)
  run_thread heartbeat_monitor s = some (arm_monitor s)
  run_thread monitor_waiting s = some (end_wait s)
  run_thread delayed_election s =
      some (record { server = s; sent = []; threads = Thread.election ∷ [] })
  run_thread election s = some (start_election s)
  run_thread election_waiting s = some (finish_election s)
