-- ===== src/Tests/Data.antt =====
-- Two customers, a primary and a backup, over the platform `integers`.
use sis_op_ii.Common.{ℕ, ◌*◌, refl, false, true, List, [], ◌∷◌, Text, arith, length, same}
use sis_op_ii.Common.Int.{ℤ, pos}
use sis_op_ii.Protocol.{
  ServerRole, LogType, no_log, TransactionStatus, PacketType, packet_code, Transaction, Packet,
  of_state_update, SockAddr, ClientDto,
}
use sis_op_ii.Protocol.CharArray.{copy_ip}
use sis_op_ii.Platform.{integers}
use sis_op_ii.Server.State.{Server}
use sis_op_ii.Server.Clients.{find_client}
use sis_op_ii.Server.Clients.Lookup.{lookup}
use sis_op_ii.Common.Int.{◌-ℤ◌}
use sis_op_ii.Common.Word.{add_int}
use sis_op_ii.Common.{◌≡◌, some}
use sis_op_ii.Server.Transactions.{Outcome, process_transaction}
use sis_op_ii.Server.Transactions.Money.{sum}
use sis_op_ii.Server.Solvency.{IsSolvent}
use sis_op_ii.Replication.Fresh.{IsBlank, IsConsistent}

abbrev pub alice : Text
alice = integers.inet_ntop 1

abbrev pub bob : Text
bob = integers.inet_ntop 2

abbrev pub host : ℕ → SockAddr
host n = record { sin_addr = n; sin_port = 4000 }

abbrev pub server : ServerRole → ℕ → List (ClientDto ℤ) → List SockAddr → Server ℤ
server role id clients backups = record {
  num_transactions = pos 0;
  total_transferred = pos 0;
  total_balance = pos (1000 * length clients);
  port = 4000;
  clients = clients;
  transaction_history = [];
  data_changed = false;
  current_role = role;
  backup_servers = backups;
  primary_server_addr = host 9;
  primary_alive = false;
  server_id = id;
  election_in_progress = false;
  election_lost = false;
  last_log_info = no_log;
}

abbrev pub customer : Text → ClientDto ℤ
customer ip = record { address = ip; last_req = pos 0; balance = pos 1000 }

abbrev pub leader : Server ℤ
leader = server ServerRole.primary 9 (customer alice ∷ customer bob ∷ []) (host 5 ∷ [])

abbrev pub follower : Server ℤ
follower = server ServerRole.backup 5 (customer alice ∷ customer bob ∷ []) []

abbrev pub newcomer : Server ℤ
newcomer = server ServerRole.backup 5 [] []

pub leader-IsSolvent : IsSolvent leader
unfolding sum
leader-IsSolvent = record {
  holdings = 1000 ∷ 1000 ∷ [];
  holds = (refl, (refl, tt));
  full = refl;
  reported = refl;
}

pub leader-IsConsistent : IsConsistent leader
unfolding find_client lookup same
leader-IsConsistent = record { registered = ground arith; counted = refl; measured = refl }

pub newcomer-IsBlank : IsBlank newcomer
newcomer-IsBlank = record {
  follows = refl;
  no_clients = refl;
  no_history = refl;
  no_transactions = refl;
  no_transfers = refl;
  no_money = refl;
}

-- Alice sends 100 to Bob, with the sequence number 1.
abbrev first_entry : Transaction
first_entry = record {
  id = pos 1;
  source_ip = copy_ip alice;
  dest_ip = copy_ip bob;
  value = pos 100;
  client_seqn = pos 1;
}

abbrev pub first_update : Packet ℤ
first_update = record {
  type = packet_code PacketType.state_update;
  contents = of_state_update (record {
    transaction = first_entry;
    source_ip = copy_ip alice;
    source_balance = pos 900;
    dest_ip = copy_ip bob;
    dest_balance = pos 1100;
  });
}

abbrev pub first_outcome : Outcome ℤ
first_outcome = record {
  server = record leader {
    num_transactions = pos 1;
    total_transferred = pos 100;
    clients =
        record { address = alice; last_req = pos 1; balance = pos 900 }
        ∷ record { address = bob; last_req = pos 0; balance = pos 1100 }
        ∷ [];
    transaction_history = first_entry ∷ [];
    data_changed = true;
    last_log_info = record no_log { type = LogType.success };
  };
  status = TransactionStatus.success;
  balance = pos 900;
  last_req = pos 1;
  sent = (first_update, host 5) ∷ [];
}

pub first_run : process_transaction leader alice 2 (pos 100) (pos 1) ≡ some first_outcome
unfolding process_transaction find_client same add_int ◌-ℤ◌
first_run = refl
