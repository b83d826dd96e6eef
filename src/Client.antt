-- ===== src/Client.antt =====
-- The client (T1/client/Client.cpp, T1/client/clientInterface.cpp) and its packets
-- (T1/transactions/transactionClient.cpp).
pub mod Retries
pub mod Exchange
pub mod InStep
pub mod Lossy
pub mod Notices
pub mod Commands
pub mod Listener
pub mod Process
use sis_op_ii.Common.{
  ℕ, zero, suc, Bool, true, false, ◌&&◌, not, Option, none, some, List, [], ◌∷◌, Text, same, ◌==◌,
  if◌then◌else◌, ◌>>=◌,
}
use sis_op_ii.Common.Int.{ℤ, pos}
use sis_op_ii.Common.Word.{to_u32, add_int}
use sis_op_ii.Input.{skip_spaces, read_word, read_int}
use sis_op_ii.Protocol.{
  TransactionStatus, status_of_code, packet_code, PacketType, ReqData, AckData, PacketData, of_req,
  Packet, SockAddr,
}
use sis_op_ii.Platform.{Platform, read_ack}
use sis_op_ii.Server.State.{Send}

pub record Client : Type 0 where
  pub port : ℕ
  pub sequence_number : ℤ
  pub server_address : Text
  pub server_sock_addr : SockAddr

-- The constructor.
unfoldable pub new_session : ℕ → Client
new_session port = record {
  port = port;
  sequence_number = pos 1;
  server_address = [];
  server_sock_addr = record { sin_addr = 0; sin_port = 0 };
}

abbrev pub get_sequence_number : Client → ℤ
get_sequence_number c = c.sequence_number

abbrev pub get_server_address : Client → Text
get_server_address c = c.server_address

unfoldable pub increment_sequence_number : Client → Client
increment_sequence_number c = record c { sequence_number = add_int c.sequence_number (pos 1) }

-- The extraction of the destination, then of the amount.
unfoldable pub request_of : Text × Text → Option (Text × ℤ)
request_of ([], rest) = none
request_of (c ∷ dest_ip, rest) = read_int rest >>= λ value. some (c ∷ dest_ip, value)

-- validateInput; `none` is a line that it does not accept.
unfoldable pub validate_input : Text → Option (Text × ℤ)
unfolding request_of
validate_input line = request_of (read_word (skip_spaces line))

-- MAX_RETRIES
abbrev pub max_retries : ℕ
max_retries = 5

-- What comes in during one round of executeRequestWithRetries: to the thread that listens for
-- announcements before the request is sent, and to the socket within its timeout. `unset_addr` is
-- what `dest_addr` holds in memory, for inet_pton leaves it alone when it fails.
pub record Round (W : Type 0) : Type 0 where
  pub announcements : List (Packet W × SockAddr)
  pub unset_addr : ℕ
  pub heard : Option (Packet W)

-- `discoverServer`, from the address that the discovery returned.
unfoldable pub discover_server : (W : Type 0) ⦃p : Platform W⦄ → Client → Text → Client
discover_server W ⦃p⦄ c found = record c {
  server_address = found;
  server_sock_addr = record {
    sin_addr = elim (p.inet_pton found) [ none ↦ c.server_sock_addr.sin_addr | some a ↦ a ];
    sin_port = p.htons c.port;
  };
}

-- The switch of processCommand; `found` is what a new discovery returns, `none` if it throws.
unfoldable pub after_status :
    (W : Type 0) ⦃p : Platform W⦄ → Client → Option TransactionStatus → Option Text → Client
unfolding increment_sequence_number discover_server
after_status W c (some TransactionStatus.success) found = increment_sequence_number c
after_status W c (some TransactionStatus.error_insufficient_funds) found = c
after_status W c (some TransactionStatus.error_client_not_found) found = c
after_status W c (some TransactionStatus.error_duplicate_request) found =
    increment_sequence_number c
after_status W c (some TransactionStatus.error_out_of_sequence) found = c
after_status W c none none = c
after_status W c none (some address) = discover_server W c address

module _ {W : Type 0} ⦃p : Platform W⦄ where
  -- One round of listenForAnnouncements, for a packet that was received.
  unfoldable pub listen_for_announcement : Client → Packet W → SockAddr → Client
  listen_for_announcement c packet sender_addr =
      let new_ip = p.inet_ntop sender_addr.sin_addr in
      if (p.ntohs packet.type == 7) && not (same new_ip c.server_address)
      then record c {
        server_address = new_ip;
        server_sock_addr = record {
          sin_addr = elim (p.inet_pton new_ip) [ none ↦ 0 | some a ↦ a ];
          sin_port = p.htons c.port;
        };
      }
      else c

  unfoldable pub listen_all : Client → List (Packet W × SockAddr) → Client
  listen_all c [] = c
  listen_all c ((packet, addr) ∷ packets) =
      listen_all (listen_for_announcement c packet addr) packets

  -- The packet of sendRequestPacket.
  unfoldable pub request_packet : ℤ → Text → ℤ → ℕ → Packet W
  request_packet sequence_number dest_ip value unset_addr = record {
    type = p.htons (packet_code PacketType.transaction_req);
    contents = of_req (record {
      dest_addr = elim (p.inet_pton dest_ip) [ none ↦ unset_addr | some a ↦ a ];
      value = p.htonl (to_u32 value);
      seqn = p.htonl (to_u32 sequence_number);
    });
  }

  -- receiveResponse; nothing comes in before the timeout where `heard` is `none`.
  unfoldable pub receive_response : Option (Packet W) → ℤ → Bool
  receive_response none sequence_number = false
  receive_response (some packet) sequence_number =
      (p.ntohs packet.type == 3)
      && (p.ntohl (read_ack packet.contents).seqn == to_u32 sequence_number)

  -- `response_packet.data.ack`.
  abbrev pub ack_of : Option (Packet W) → Option (AckData W)
  ack_of none = none
  ack_of (some packet) = some (read_ack packet.contents)

  -- The loop of executeRequestWithRetries, with the retries made and those that are left.
  unfoldable pub request_loop :
      Client → Text → ℤ → (ℕ → Round W) → ℕ → ℕ → Client × List (Send W) × Option (AckData W)
  unfolding request_packet receive_response
  request_loop c dest_ip value rounds retries zero = (c, [], none)
  request_loop c dest_ip value rounds retries (suc left) =
      let round = rounds retries in
      let c' = listen_all c round.announcements in
      let sent : Send W =
        (request_packet c'.sequence_number dest_ip value round.unset_addr, c'.server_sock_addr) in
      let (c'', more, answer) = request_loop c' dest_ip value rounds (suc retries) left in
      if receive_response round.heard c'.sequence_number
      then (c', sent ∷ [], ack_of round.heard)
      else (c'', sent ∷ more, answer)

  unfoldable pub execute_request_with_retries :
      Client → Text → ℤ → (ℕ → Round W) → Client × List (Send W) × Option (AckData W)
  unfolding request_loop
  execute_request_with_retries c dest_ip value rounds =
      request_loop c dest_ip value rounds 0 max_retries

  unfoldable pub after_answer : Client → Option (AckData W) → Option Text → Client
  unfolding after_status
  after_answer c none found = c
  after_answer c (some ack) found = after_status W c (status_of_code (p.ntohl ack.status)) found

  -- processCommand, without its messages, from what validateInput reads.
  unfoldable pub process_request :
      Client → Option (Text × ℤ) → (ℕ → Round W) → Option Text → Client × List (Send W)
  unfolding execute_request_with_retries after_answer
  process_request c none rounds found = (c, [])
  process_request c (some (dest_ip, value)) rounds found =
      let (c', sent, answer) = execute_request_with_retries c dest_ip value rounds in
      (after_answer c' answer found, sent)

  unfoldable pub process_command :
      Client → Text → (ℕ → Round W) → Option Text → Client × List (Send W)
  unfolding process_request
  process_command c command rounds found = process_request c (validate_input command) rounds found
