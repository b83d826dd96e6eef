-- ===== src/Sockets/ServerUdp.antt =====
-- T1/udp/ServerUDP.cpp, and how Server::init opens its socket (T1/server/Server.cpp).
use sis_op_ii.Common.{
  ℕ, Bool, true, false, not, Option, none, some, List, [], ◌∷◌, ◌++◌, Text, if◌then◌else◌,
}
use sis_op_ii.Common.Int.{ℤ, negsuc}
use sis_op_ii.Protocol.{Packet, SockAddr}
use sis_op_ii.Platform.{Platform}
use sis_op_ii.Sockets.{Call, Received, is_negative}

pub record ServerUdp : Type 0 where
  pub sockfd : ℤ
  pub server_addr : SockAddr
  pub port : ℕ

unfoldable pub new_server_udp : ℕ → SockAddr → ServerUdp
new_server_udp port addr = record { sockfd = negsuc 0; server_addr = addr; port = port }

abbrev pub get_port : ServerUdp → ℕ
get_port u = u.port

-- INADDR_ANY is 0.
unfoldable pub set_up_server_address : (W : Type 0) ⦃p : Platform W⦄ → ServerUdp → ServerUdp
set_up_server_address W ⦃p⦄ u = record u {
  server_addr = record { sin_addr = 0; sin_port = p.htons u.port };
}

module _ {W : Type 0} ⦃p : Platform W⦄ where
  -- The option is set before the descriptor is looked at.
  unfoldable pub create_socket : ℤ → ServerUdp → ServerUdp × List (Call W) × Bool
  create_socket fd u =
      (record u { sockfd = fd }, Call.socket ∷ Call.set_broadcast fd ∷ [], not (is_negative fd))

  unfoldable pub configure_broadcast : ℤ → ServerUdp → List (Call W)
  configure_broadcast set u =
      Call.set_broadcast u.sockfd ∷ (if is_negative set then Call.close u.sockfd ∷ [] else [])

  unfoldable pub bind_socket : ℤ → ServerUdp → List (Call W) × Bool
  bind_socket bound u =
      if is_negative bound
      then (Call.bind u.sockfd u.server_addr ∷ Call.close u.sockfd ∷ [], false)
      else (Call.bind u.sockfd u.server_addr ∷ [], true)

  unfoldable pub receive_packet : Received W → ServerUdp → List (Call W) × Received W
  receive_packet received u = (Call.receive_from u.sockfd ∷ [], received)

  unfoldable pub send_packet : ℤ → Packet W → SockAddr → ServerUdp → List (Call W) × Bool
  send_packet sent packet dest_addr u =
      (Call.send_to u.sockfd packet dest_addr ∷ [], not (is_negative sent))

  unfoldable pub send_message : ℤ → Text → SockAddr → ServerUdp → List (Call W) × Bool
  send_message sent message dest_addr u =
      (Call.send_text u.sockfd message dest_addr ∷ [], not (is_negative sent))

  -- It throws if the second part is false.
  unfoldable pub set_receive_timeout : ℤ → ℤ → ℤ → ServerUdp → List (Call W) × Bool
  set_receive_timeout set seconds microseconds u =
      (Call.set_timeout u.sockfd seconds microseconds ∷ [], not (is_negative set))

  unfoldable pub close_socket : ServerUdp → List (Call W)
  close_socket u = if is_negative u.sockfd then [] else Call.close u.sockfd ∷ []

  -- The destructor.
  unfoldable pub destroy : ServerUdp → List (Call W)
  unfolding close_socket
  destroy u = close_socket u

  -- The head of Server::init, which ignores what bindSocket returns; `none` is its exception.
  unfoldable pub open_server : ℤ → ℤ → ℤ → ServerUdp → List (Call W) × Option ServerUdp
  unfolding create_socket configure_broadcast set_up_server_address bind_socket
  open_server fd set bound u =
      let (created, opening, ok) = create_socket fd u in
      if ok
      then (let ready = set_up_server_address W created in
          (opening ++ configure_broadcast set created ++ (bind_socket bound ready).0, some ready))
      else (opening, none)
