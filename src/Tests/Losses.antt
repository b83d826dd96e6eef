-- ===== src/Tests/Losses.antt =====
-- A backup that has missed Alice's first request, and then hears of a new client.
use sis_op_ii.Common.{◌≡◌, refl, some, List, [], ◌∷◌, ◌++◌, arith, same, Text}
use sis_op_ii.Common.Int.{ℤ}
use sis_op_ii.Platform.{integers, integers-NetLaws, read_client_update}
use sis_op_ii.Protocol.CharArray.{c_string, has_zero, up_to_zero, copy_ip}
use sis_op_ii.Protocol.{packet_code}
use sis_op_ii.Server.State.{Server, Send}
use sis_op_ii.Server.Clients.{find_client, new_client}
use sis_op_ii.Server.Dispatch.{packet_type_of, dispatch, handle_packet}
use sis_op_ii.Server.Registration.{
  add_client, was_client_added, append_client, propagate_client_addition, client_update_packet,
  discovery_ack, handle_discovery_packet, handle_client_update, take_client, add_balance,
}
use sis_op_ii.Replication.Delivery.{times, delivered}
use sis_op_ii.Replication.Sync.{receive_all}
use sis_op_ii.Replication.Run.{arrival, serve, serve_all}
use sis_op_ii.Replication.Lost.{Grown}
use sis_op_ii.Replication.Lost.Runs.{serve_all-Grown}
use sis_op_ii.Tests.Data.{host, follower, first_outcome}

abbrev primary : Server ℤ
primary = first_outcome.server

abbrev joined : Server ℤ × List (Send ℤ)
joined = handle_discovery_packet primary (host 3)

abbrev cleo : Text
cleo = integers.inet_ntop 3

abbrev caught_up : Server ℤ
caught_up =
    take_client follower (read_client_update (client_update_packet (new_client cleo)).contents) cleo

once : times (host 5) primary.backup_servers ≡ 1
unfolding times
once = refl

serves : serve_all primary (arrival (host 3) ∷ []) ≡ some (joined.0, joined.1 ++ [])
unfolding serve_all serve
serves = refl

hears : receive_all follower (delivered (host 5) (joined.1 ++ [])) (host 9) ≡ some caught_up
unfolding receive_all delivered handle_discovery_packet add_client was_client_added append_client
    propagate_client_addition client_update_packet discovery_ack dispatch handle_packet
    packet_type_of packet_code find_client same add_balance new_client handle_client_update c_string
    has_zero up_to_zero copy_ip
hears = refl

serve_all-Grown_example : Grown primary follower joined.0 caught_up
serve_all-Grown_example =
    serve_all-Grown integers-NetLaws (host 5) (host 9) primary joined.0 follower caught_up
      (arrival (host 3) ∷ []) (joined.1 ++ []) refl refl once (omega arith, tt) serves hears
