-- ===== src/Tests/Elections.antt =====
-- Two backups that start an election at once.
use sis_op_ii.Common.{◌≡◌, refl, true, some, [], ◌∷◌, arith, if◌then◌else◌}
use sis_op_ii.Protocol.{ServerRole, PacketType, packet_code, of_req, Packet}
use sis_op_ii.Common.Int.{ℤ}
use sis_op_ii.Platform.{integers, integers-NetLaws}
use sis_op_ii.Server.State.{Server}
use sis_op_ii.Server.Election.{
  Thread, id_packet, start_election, finish_election, arm_monitor, end_wait, broadcast_addr,
  handle_heartbeat_packet, handle_election_packet, sender_id,
}
use sis_op_ii.Server.Dispatch.{packet_type_of, dispatch, handle_packet}
use sis_op_ii.Election.Window.{hear_all, revives_any}
use sis_op_ii.Election.Outcome.{Ends, here, election-Ends, election-low_loses}
use sis_op_ii.Election.Monitor.{monitor-suspects}
use sis_op_ii.Tests.Data.{host, server}

abbrev low : Server ℤ
low = server ServerRole.backup 5 [] []

abbrev high : Server ℤ
high = server ServerRole.backup 6 [] []

abbrev challenge : Packet ℤ
challenge = id_packet PacketType.election 6

abbrev low_after : Server ℤ
low_after = record low { election_in_progress = true; election_lost = true }

low_hears : hear_all (start_election low).server ((challenge, host 6) ∷ []) ≡ some low_after
unfolding hear_all start_election dispatch handle_packet id_packet packet_type_of packet_code
    handle_election_packet
low_hears = refl

high_sends : (start_election high).sent ≡ ((challenge, broadcast_addr high) ∷ [])
unfolding start_election
high_sends = refl

election-Ends_example : Ends true low_after (finish_election low_after)
unfolding id_packet packet_type_of packet_code sender_id
election-Ends_example = election-Ends ((challenge, host 6) ∷ []) low low_after refl low_hears

election-low_loses_example : Ends true low_after (finish_election low_after)
election-low_loses_example =
    election-low_loses integers-NetLaws low low_after high challenge (broadcast_addr high)
      ((challenge, host 6) ∷ []) refl (omega arith) (omega arith) high_sends (here (host 6) [])
      low_hears

abbrev heartbeat : Packet ℤ
heartbeat = record {
  type = packet_code PacketType.heartbeat;
  contents = of_req (record { dest_addr = 0; value = 0; seqn = 0 });
}

abbrev low_revived : Server ℤ
low_revived = record low { primary_alive = true }

low_revives : hear_all (arm_monitor low).server ((heartbeat, host 9) ∷ []) ≡ some low_revived
unfolding hear_all arm_monitor dispatch handle_packet packet_code packet_type_of
    handle_heartbeat_packet
low_revives = refl

monitor-suspects_example :
    end_wait low_revived ≡ (
      if revives_any ((heartbeat, host 9) ∷ [])
      then record { server = low_revived; sent = []; threads = Thread.heartbeat_monitor ∷ [] }
      else start_election low_revived)
    × (low_revived.current_role ≡ ServerRole.backup)
monitor-suspects_example =
    monitor-suspects ((heartbeat, host 9) ∷ []) low low_revived refl low_revives
