-- ===== src/Server/State.antt =====
-- The fields of Server and its constructor.
use sis_op_ii.Common.{ℕ, Bool, true, false, List, [], ◌∷◌}
use sis_op_ii.Common.Int.{ℤ, pos}
use sis_op_ii.Protocol.{ServerRole, LogInfo, no_log, Transaction, Packet, SockAddr, ClientDto}

-- The mutex and the counters of the readers-writer lock are modelled apart; `data_changed` is the
-- flag of the ServerInterface that the server owns, and `port` the one of its socket.
pub record Server (W : Type 0) : Type 0 where
  pub num_transactions : ℤ
  pub total_transferred : ℤ
  pub total_balance : ℤ
  pub port : ℕ
  pub clients : List (ClientDto W)
  pub transaction_history : List Transaction
  pub data_changed : Bool
  pub current_role : ServerRole
  pub backup_servers : List SockAddr
  pub primary_server_addr : SockAddr
  pub primary_alive : Bool
  pub server_id : ℕ
  pub election_in_progress : Bool
  pub election_lost : Bool
  pub last_log_info : LogInfo

-- A packet with the address it is sent to.
abbrev pub Send : Type 0 → Type 0
Send W = Packet W × SockAddr

module _ {W : Type 0} where
  -- The constructor. It leaves `current_role`, `primary_server_addr` and `primary_alive` as they
  -- are in memory, so these are arguments; `found_ip` is the result of `getIp`.
  unfoldable pub construct : ℕ → ℕ → ServerRole → SockAddr → Bool → Server W
  construct port found_ip role addr alive = record {
    num_transactions = pos 0;
    total_transferred = pos 0;
    total_balance = pos 0;
    port = port;
    clients = [];
    transaction_history = [];
    data_changed = false;
    current_role = role;
    backup_servers = [];
    primary_server_addr = addr;
    primary_alive = alive;
    server_id = found_ip;
    election_in_progress = false;
    election_lost = false;
    last_log_info = no_log;
  }

  -- `ServerInterface::notify`.
  abbrev pub notify : Server W → Server W
  notify s = record s { data_changed = true }

  -- The loop that sends one packet to every backup.
  abbrev pub send_to_all : Packet W → List SockAddr → List (Send W)
  send_to_all p [] = []
  send_to_all p (a ∷ addrs) = (p, a) ∷ send_to_all p addrs
