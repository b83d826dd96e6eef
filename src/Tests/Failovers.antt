-- ===== src/Tests/Failovers.antt =====
-- A primary that serves, a backup that follows, and what becomes of them when the primary is lost.
use sis_op_ii.Common.{◌≡◌, refl, false, some, List, [], ◌∷◌, ◌++◌, map, arith}
use sis_op_ii.Common.Int.{ℤ, pos}
use sis_op_ii.Protocol.{
  ServerRole, TransactionStatus, PacketType, packet_code, of_req, Packet, SockAddr,
}
use sis_op_ii.Platform.{integers, integers-NetLaws}
use sis_op_ii.Server.State.{Server, Send}
use sis_op_ii.Server.Transactions.{Outcome, process_transaction}
use sis_op_ii.Server.Transactions.Bank.{bank_of}
use sis_op_ii.Server.Election.{
  Reaction, id_packet, sender_id, bare_packet, start_election, finish_election,
}
use sis_op_ii.Server.Dispatch.{packet_type_of, dispatch}
use sis_op_ii.Election.Window.{hear_all, beats_any}
use sis_op_ii.Replication.Mirrors.{Mirrors}
use sis_op_ii.Replication.Delivery.{times, delivered}
use sis_op_ii.Replication.Sync.{receive_all, count_from, volume_from}
use sis_op_ii.Replication.Fresh.{IsConsistent}
use sis_op_ii.Replication.Consistent.{process_transaction-IsConsistent}
use sis_op_ii.Replication.Run.{
  Input, arrival, request, registration, serve_all, Linked, AllRegular, Served,
}
use sis_op_ii.Replication.Run.Steps.{serve_all-Served}
use sis_op_ii.Replication.Failover.{IsSilent}
use sis_op_ii.Replication.Failover.Retry.{promoted-once}
use sis_op_ii.Replication.Rejoin.{rejoin-doubles}
use sis_op_ii.Tests.Data.{
  alice, host, leader, follower, leader-IsConsistent, first_outcome, first_run,
}

-- Alice asks for 100 to Bob, another client arrives, another backup registers.
abbrev inputs : List (Input ℤ)
inputs =
    request
      (record {
        type = packet_code PacketType.transaction_req;
        contents = of_req (record { dest_addr = 2; value = 100; seqn = 1 });
      })
      (host 1)
    ∷ arrival (host 3)
    ∷ registration (host 6)
    ∷ []

abbrev equal_accounts : Mirrors leader follower
equal_accounts = record {
  clients = refl;
  history = refl;
  transactions = refl;
  transferred = refl;
  money = refl;
}

leader-Linked : Linked (host 5) leader follower
unfolding times
leader-Linked = record { equal = equal_accounts; leads = refl; follows = refl; once = refl }

inputs-AllRegular : AllRegular (host 5) inputs
inputs-AllRegular = ((omega arith, omega arith), (omega arith, (refl, tt)))

serve_all-Served_example : Served (host 5) (host 9) follower (serve_all leader inputs)
serve_all-Served_example =
    serve_all-Served integers-NetLaws (host 5) (host 9) leader follower inputs leader-Linked
      inputs-AllRegular

-- The primary and its backup after the transfer.
abbrev busy : Server ℤ
busy = first_outcome.server

abbrev level : Server ℤ
level = record follower {
  clients = busy.clients;
  transaction_history = busy.transaction_history;
  num_transactions = busy.num_transactions;
  total_transferred = busy.total_transferred;
}

busy-Mirrors : Mirrors busy level
busy-Mirrors = record {
  clients = refl;
  history = refl;
  transactions = refl;
  transferred = refl;
  money = refl;
}

busy-Linked : Linked (host 5) busy level
unfolding times
busy-Linked = record { equal = busy-Mirrors; leads = refl; follows = refl; once = refl }

-- A server with a lower id stands for election at the same time.
abbrev challenges : List (Packet ℤ × SockAddr)
challenges = (id_packet PacketType.election 3, host 3) ∷ []

challenges-IsSilent : IsSilent challenges
unfolding id_packet packet_type_of packet_code
challenges-IsSilent = (refl, tt)

challenges-unbeaten : beats_any 5 challenges ≡ false
unfolding id_packet packet_type_of packet_code sender_id
challenges-unbeaten = refl

promoted-once_example :
    (s' b' c : Server ℤ) × (sent : List (Send ℤ)) × (o' : Outcome ℤ) × (serve_all busy inputs
      ≡ some (s', sent))
    × (receive_all level (delivered (host 5) sent) (host 9) ≡ some b')
    × (hear_all (start_election b').server challenges ≡ some c)
    × ((finish_election c).server.current_role ≡ ServerRole.primary)
    × (process_transaction (finish_election c).server alice 2 (pos 100) (pos 1) ≡ some o')
    × (o'.status ≡ TransactionStatus.error_duplicate_request)
    × (bank_of o'.server ≡ bank_of s')
    × (o'.sent ≡ [])
promoted-once_example =
    promoted-once (host 5) (host 9) integers-NetLaws leader level alice 2 (pos 100) (pos 1)
      (pos 100) (pos 1) first_outcome inputs challenges first_run refl (omega arith) busy-Linked
      inputs-AllRegular challenges-IsSilent challenges-unbeaten

busy-IsConsistent : IsConsistent busy
busy-IsConsistent =
    process_transaction-IsConsistent leader alice 2 (pos 100) (pos 1) first_outcome first_run
      leader-IsConsistent

rejoin-doubles_example :
    (r q : Reaction ℤ) × (b' : Server ℤ) × (dispatch level
        (id_packet PacketType.new_primary_announcement 9)
        (host 9)
      ≡ some r)
    × (r.sent ≡ ((bare_packet PacketType.register_backup, host 9) ∷ []))
    × (dispatch busy (bare_packet PacketType.register_backup) (host 5) ≡ some q)
    × (receive_all r.server (map (λ m. m.0) q.sent) (host 9) ≡ some b')
    × (b'.clients ≡ busy.clients)
    × (b'.total_balance ≡ busy.total_balance)
    × (b'.transaction_history ≡ busy.transaction_history ++ busy.transaction_history)
    × (b'.num_transactions
        ≡ count_from (pos 0) (busy.transaction_history ++ busy.transaction_history))
    × (b'.total_transferred
        ≡ volume_from (pos 0) (busy.transaction_history ++ busy.transaction_history))
rejoin-doubles_example =
    rejoin-doubles integers-NetLaws (host 9) (host 5) busy level refl refl busy-Mirrors
      busy-IsConsistent (omega arith) (omega arith)
