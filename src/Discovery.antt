-- ===== src/Discovery.antt =====
-- The two discovery services (T1/discovery): a client that looks for the primary, and a server that
-- starts and looks for one.
pub mod Descriptor
pub mod Search
use sis_op_ii.Common.{
  ℕ, Bool, true, false, ◌&&◌, not, Option, none, some, List, [], ◌∷◌, ◌++◌, Text, codes, ltb, ◌==◌,
  if◌then◌else◌,
}
use sis_op_ii.Common.Int.{ℤ, pos}
use sis_op_ii.Protocol.{packet_code, PacketType, indeterminate, Packet, SockAddr}
use sis_op_ii.Platform.{Platform}
use sis_op_ii.Server.State.{Send}
use sis_op_ii.Server.Election.{bare_packet}
use sis_op_ii.Sockets.{Call, Received, is_positive}
use sis_op_ii.Sockets.ClientUdp.{
  ClientUdp, new_client_udp, setup_broadcast, send_packet, receive_packet, close_socket, destroy,
}

-- What the system calls of run_discovery_service_client return, in their order.
pub record Answers (W : Type 0) : Type 0 where
  pub fd : ℤ
  pub set : ℤ
  pub sent : ℤ
  pub received : Received W

module _ {W : Type 0} ⦃p : Platform W⦄ where
  abbrev pub is_discovery_ack : Packet W → Bool
  is_discovery_ack packet = p.ntohs packet.type == packet_code PacketType.discovery_ack

  -- `broadcast` is what inet_addr returns for BROADCAST_ADDR, and `unset` what `server_addr` of the
  -- socket holds in memory. `none` is an exception. The last call is the destructor's.
  unfoldable pub run_discovery_service_client :
      ℕ → SockAddr → Answers W → ℕ → List (Call W) × Option Text
  unfolding new_client_udp setup_broadcast send_packet receive_packet close_socket destroy
      bare_packet
  run_discovery_service_client broadcast unset os server_port =
      let (client, opening, ready) = setup_broadcast os.fd os.set (new_client_udp unset) in
      let broadcast_addr : SockAddr = record {
        sin_addr = broadcast;
        sin_port = p.htons server_port;
      } in
      let (sending, sent) =
        send_packet os.sent (bare_packet PacketType.discovery) broadcast_addr client in
      let (receiving, response) = receive_packet os.received client in
      if not ready
      then (opening ++ destroy client, none)
      else if not sent
      then (opening ++ sending ++ destroy client, none)
      else (
        opening ++ sending ++ receiving ++ close_socket client ++ destroy client,
        if is_positive response.n && is_discovery_ack response.packet
            then some (p.inet_ntop response.sender.sin_addr)
            else none,
      )
