-- ===== src/Sockets/ClientUdp.antt =====
-- T1/udp/ClientUDP.cpp.
use sis_op_ii.Common.{Bool, true, false, not, List, [], ◌∷◌, Text, if◌then◌else◌}
use sis_op_ii.Common.Int.{ℤ, negsuc}
use sis_op_ii.Protocol.{Packet, SockAddr}
use sis_op_ii.Sockets.{Call, Received, is_negative}

pub record ClientUdp : Type 0 where
  pub sockfd : ℤ
  pub server_addr : SockAddr

-- The constructor, which leaves `server_addr` as it is in memory.
unfoldable pub new_client_udp : SockAddr → ClientUdp
new_client_udp addr = record { sockfd = negsuc 0; server_addr = addr }

module _ {W : Type 0} where
  unfoldable pub create_socket : ℤ → ClientUdp → ClientUdp × List (Call W) × Bool
  create_socket fd c = (record c { sockfd = fd }, Call.socket ∷ [], not (is_negative fd))

  unfoldable pub setup_broadcast : ℤ → ℤ → ClientUdp → ClientUdp × List (Call W) × Bool
  setup_broadcast fd set c =
      let opened = record c { sockfd = fd } in
      if is_negative fd
      then (opened, Call.socket ∷ [], false)
      else if is_negative set
      then (opened, Call.socket ∷ Call.set_broadcast fd ∷ Call.close fd ∷ [], false)
      else (opened, Call.socket ∷ Call.set_broadcast fd ∷ [], true)

  -- A failure is only printed.
  unfoldable pub set_receive_timeout : ℤ → ℤ → ClientUdp → List (Call W)
  set_receive_timeout seconds microseconds c = Call.set_timeout c.sockfd seconds microseconds ∷ []

  unfoldable pub send_packet : ℤ → Packet W → SockAddr → ClientUdp → List (Call W) × Bool
  send_packet sent packet dest_addr c =
      (Call.send_to c.sockfd packet dest_addr ∷ [], not (is_negative sent))

  unfoldable pub receive_packet : Received W → ClientUdp → List (Call W) × Received W
  receive_packet received c = (Call.receive_from c.sockfd ∷ [], received)

  unfoldable pub send_message : ℤ → Text → ClientUdp → List (Call W) × Bool
  send_message sent message c =
      (Call.send_text c.sockfd message c.server_addr ∷ [], not (is_negative sent))

  unfoldable pub close_socket : ClientUdp → List (Call W)
  close_socket c = if is_negative c.sockfd then [] else Call.close c.sockfd ∷ []

  -- The destructor.
  unfoldable pub destroy : ClientUdp → List (Call W)
  unfolding close_socket
  destroy c = close_socket c
