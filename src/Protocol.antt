-- ===== src/Protocol.antt =====
-- The wire protocol (T1/include/utils.h) and the class ClientDTO (T1/include/ClientDTO.h).
-- `W` is the type of `float` values.
pub mod CharArray
use sis_op_ii.Common.{
  ℕ, zero, suc, ◌≡◌, refl, ◌≢◌, ◌⊎◌, inl, inr, Bool, true, false, Option, none, some, List, [],
  Text, ◌==◌, if◌then◌else◌,
}
use sis_op_ii.Common.Int.{ℤ, pos}

pub data LogType : Type 0 where
  nothing success duplicate : LogType

pub data ServerRole : Type 0 where
  primary backup : ServerRole

abbrev pub is_primary : ServerRole → Bool
is_primary ServerRole.primary = true
is_primary ServerRole.backup = false

abbrev pub is_backup : ServerRole → Bool
is_backup ServerRole.primary = false
is_backup ServerRole.backup = true

pub record LogInfo : Type 0 where
  pub type : LogType
  pub transaction_id : ℤ
  pub value : ℤ
  pub source_ip : Text
  pub dest_ip : Text

abbrev pub no_log : LogInfo
no_log = record {
  type = LogType.nothing;
  transaction_id = pos 0;
  value = pos 0;
  source_ip = [];
  dest_ip = [];
}

pub data TransactionStatus : Type 0 where
  success : TransactionStatus
  error_client_not_found : TransactionStatus
  error_duplicate_request : TransactionStatus
  error_insufficient_funds : TransactionStatus
  error_out_of_sequence : TransactionStatus

pub status-cases :
    (status : TransactionStatus)
    → (status ≡ TransactionStatus.success) ⊎ (status ≢ TransactionStatus.success)
status-cases TransactionStatus.success = inl refl
status-cases TransactionStatus.error_client_not_found = inr (λ e. cc)
status-cases TransactionStatus.error_duplicate_request = inr (λ e. cc)
status-cases TransactionStatus.error_insufficient_funds = inr (λ e. cc)
status-cases TransactionStatus.error_out_of_sequence = inr (λ e. cc)

-- `static_cast<uint32_t>` of a status.
unfoldable pub status_code : TransactionStatus → ℕ
status_code TransactionStatus.success = 0
status_code TransactionStatus.error_client_not_found = 1
status_code TransactionStatus.error_duplicate_request = 2
status_code TransactionStatus.error_insufficient_funds = 3
status_code TransactionStatus.error_out_of_sequence = 4

-- The status that a code stands for; `none` is a value outside the enumeration.
unfoldable pub status_of_code : ℕ → Option TransactionStatus
status_of_code n =
    if n == 0
    then some TransactionStatus.success
    else if n == 1
    then some TransactionStatus.error_client_not_found
    else if n == 2
    then some TransactionStatus.error_duplicate_request
    else if n == 3
    then some TransactionStatus.error_insufficient_funds
    else if n == 4
    then some TransactionStatus.error_out_of_sequence
    else none

-- The two `char[INET_ADDRSTRLEN]` fields are lists of character codes.
pub record Transaction : Type 0 where
  pub id : ℤ
  pub source_ip : List ℕ
  pub dest_ip : List ℕ
  pub value : ℤ
  pub client_seqn : ℤ

pub data PacketType : Type 0 where
  discovery discovery_ack transaction_req transaction_ack : PacketType
  register_backup add_client_update heartbeat new_primary_announcement : PacketType
  state_update state_update_ack add_history_entry server_discovery : PacketType
  election election_answer : PacketType

unfoldable pub packet_code : PacketType → ℕ
packet_code PacketType.discovery = 0
packet_code PacketType.discovery_ack = 1
packet_code PacketType.transaction_req = 2
packet_code PacketType.transaction_ack = 3
packet_code PacketType.register_backup = 4
packet_code PacketType.add_client_update = 5
packet_code PacketType.heartbeat = 6
packet_code PacketType.new_primary_announcement = 7
packet_code PacketType.state_update = 8
packet_code PacketType.state_update_ack = 9
packet_code PacketType.add_history_entry = 10
packet_code PacketType.server_discovery = 11
packet_code PacketType.election = 12
packet_code PacketType.election_answer = 13

pub record ClientUpdateData (W : Type 0) : Type 0 where
  pub ip : List ℕ
  pub balance : W
  pub last_request : ℤ

pub record StateUpdateData (W : Type 0) : Type 0 where
  pub transaction : Transaction
  pub source_ip : List ℕ
  pub source_balance : W
  pub dest_ip : List ℕ
  pub dest_balance : W

pub record ReqData : Type 0 where
  pub dest_addr : ℕ
  pub value : ℕ
  pub seqn : ℕ

pub record AckData (W : Type 0) : Type 0 where
  pub seqn : ℕ
  pub new_balance : W
  pub status : ℕ
  pub last_req : ℕ

-- The union of a packet, by the member that was written last; `indeterminate` is a union that
-- nothing has written.
pub data PacketData (W : Type 0) : Type 0 where
  of_req : ReqData → PacketData W
  of_ack : AckData W → PacketData W
  of_client_update : ClientUpdateData W → PacketData W
  of_state_update : StateUpdateData W → PacketData W
  of_history_entry : Transaction → PacketData W
  indeterminate : PacketData W

pub record Packet (W : Type 0) : Type 0 where
  pub type : ℕ
  pub contents : PacketData W

-- The parts of a `struct sockaddr_in` that the program sets, `sin_addr` and `sin_port`.
pub record SockAddr : Type 0 where
  pub sin_addr : ℕ
  pub sin_port : ℕ

pub record ClientDto (W : Type 0) : Type 0 where
  pub address : Text
  pub last_req : ℤ
  pub balance : W
