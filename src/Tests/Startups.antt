-- ===== src/Tests/Startups.antt =====
-- A server that starts, a client that looks for the primary, and their sockets.
use sis_op_ii.Common.{
  ◌+◌, ◌*◌, ◌^◌, ◌<◌, ◌≡◌, refl, true, ◌&&◌, not, Option, none, some, List, [], ◌∷◌, if◌then◌else◌,
}
use sis_op_ii.Common.Int.{ℤ, pos, negsuc}
use sis_op_ii.Protocol.{ServerRole, PacketType}
use sis_op_ii.Platform.{integers, integers-NetLaws}
use sis_op_ii.Server.Transactions.{process_transaction}
use sis_op_ii.Server.Election.{Reaction, bare_packet}
use sis_op_ii.Server.Id.{IfAddr, Chosen, get_ip, get_ip-Chosen}
use sis_op_ii.Server.Log.{Prints, process_transaction-Prints}
use sis_op_ii.Sockets.{is_negative, is_positive, closes}
use sis_op_ii.Sockets.ServerUdp.{ServerUdp, new_server_udp}
use sis_op_ii.Discovery.{Answers, is_discovery_ack, run_discovery_service_client}
use sis_op_ii.Discovery.Descriptor.{run_discovery_service_client-closes}
use sis_op_ii.Discovery.Search.{Attempt, search, decide, first_decisive, search-first_decisive}
use sis_op_ii.Replication.Delivery.{times}
use sis_op_ii.Replication.Startup.{answered, begun}
use sis_op_ii.Tests.Data.{alice, host, leader}

-- No packet of the primary is needed before the answer; afterwards nothing comes.
abbrev silence : Attempt ℤ
silence = record {
  elapsed = 2;
  received = record { n = negsuc 0; packet = bare_packet PacketType.heartbeat; sender = host 9 };
}

nobody_at : times (host 7) leader.backup_servers ≡ 0
unfolding times
nobody_at = refl

abbrev newcomer : Reaction ℤ
newcomer = begun 4000 7 ServerRole.primary (host 0) true (integers.inet_ntop 9)

search-first_decisive_example :
    search (silence ∷ answered 2 (pos 2) (host 9) ∷ [])
    ≡ decide (first_decisive (silence ∷ answered 2 (pos 2) (host 9) ∷ []))
search-first_decisive_example = search-first_decisive (silence ∷ answered 2 (pos 2) (host 9) ∷ [])

abbrev answers : Answers ℤ
answers = record {
  fd = pos 3;
  set = pos 0;
  sent = pos 2;
  received = record { n = pos 2; packet = bare_packet PacketType.discovery_ack; sender = host 9 };
}

run_discovery_service_client-closes_example :
    let (calls, found) = run_discovery_service_client 255 (host 0) answers 4000 in
    (closes calls ≡ (
      if is_negative answers.fd
      then 0
      else if not (is_negative answers.set) && is_negative answers.sent
      then 1
      else 2))
    × (found ≡ (
        if not (is_negative answers.fd)
          && not (is_negative answers.set)
          && not (is_negative answers.sent)
          && is_positive answers.received.n
          && is_discovery_ack answers.received.packet
        then some (integers.inet_ntop answers.received.sender.sin_addr)
        else none))
run_discovery_service_client-closes_example =
    run_discovery_service_client-closes 255 (host 0) answers 4000

abbrev unopened : ServerUdp
unopened = new_server_udp 4000 (host 0)

abbrev interfaces : List (Option IfAddr)
interfaces =
    none
    ∷ some (record { is_inet = true; s_addr = 127 * 2 ^ 24 + 1 })
    ∷ some (record { is_inet = true; s_addr = 10 * 2 ^ 24 + 5 })
    ∷ []

get_ip-Chosen_example :
    Chosen ℤ interfaces (get_ip ℤ (some interfaces)) × (get_ip ℤ (some interfaces) < 2 ^ 32)
get_ip-Chosen_example = get_ip-Chosen ℤ integers-NetLaws interfaces

process_transaction-Prints_example :
    Prints leader alice 2 (pos 100) (pos 1) (process_transaction leader alice 2 (pos 100) (pos 1))
process_transaction-Prints_example = process_transaction-Prints leader alice 2 (pos 100) (pos 1)
