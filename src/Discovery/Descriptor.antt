-- ===== src/Discovery/Descriptor.antt =====
-- The descriptor of the socket that run_discovery_service_client opens.
use sis_op_ii.Common.{ℕ, ◌≡◌, ◌&&◌, not, none, some, arith, if◌then◌else◌}
use sis_op_ii.Protocol.{SockAddr}
use sis_op_ii.Platform.{Platform}
use sis_op_ii.Sockets.{is_negative, is_positive, closes}
use sis_op_ii.Sockets.ClientUdp.{
  new_client_udp, setup_broadcast, send_packet, receive_packet, close_socket, destroy,
}
use sis_op_ii.Discovery.{Answers, is_discovery_ack, run_discovery_service_client}

module _ {W : Type 0} ⦃p : Platform W⦄ where
  -- run_discovery_service_client returns the text of an address exactly if socket, setsockopt and
  -- sendto succeed and a DISCOVERY_ACK is received, and then it is that of the sender; otherwise
  -- it throws. It closes the descriptor never if there is none, once if only sendto fails, and
  -- twice on every other path, the successful one included.
  pub run_discovery_service_client-closes :
      (broadcast : ℕ) (unset : SockAddr) (os : Answers W) (server_port : ℕ)
      → let (calls, found) = run_discovery_service_client broadcast unset os server_port in
        (closes calls ≡ (
          if is_negative os.fd
          then 0
          else if not (is_negative os.set) && is_negative os.sent
          then 1
          else 2))
        × (found ≡ (
            if not (is_negative os.fd)
              && not (is_negative os.set)
              && not (is_negative os.sent)
              && is_positive os.received.n
              && is_discovery_ack os.received.packet
            then some (p.inet_ntop os.received.sender.sin_addr)
            else none))
  unfolding run_discovery_service_client setup_broadcast send_packet receive_packet close_socket
      destroy new_client_udp
  run_discovery_service_client-closes broadcast unset os server_port = (ground arith, ground arith)
