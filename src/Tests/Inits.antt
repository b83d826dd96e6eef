-- ===== src/Tests/Inits.antt =====
-- Whole starts of a server, and the lines of a user.
use sis_op_ii.Common.{
  ℕ, ◌≡◌, refl, ◌↔◌, true, ◌||◌, none, some, List, [], ◌∷◌, ◌++◌, map, Text, codes, arith,
  if◌then◌else◌, false,
}
use sis_op_ii.Common.Int.{ℤ, pos, negsuc}
use sis_op_ii.Common.Word.{IsInt}
use sis_op_ii.Protocol.{ServerRole, PacketType}
use sis_op_ii.Platform.{integers, integers-FloatLaws, integers-NetLaws}
use sis_op_ii.Server.State.{Server, Send, construct}
use sis_op_ii.Server.Election.{Reaction, bare_packet, id_packet}
use sis_op_ii.Server.Dispatch.{dispatch}
use sis_op_ii.Server.Init.{Progress, init}
use sis_op_ii.Server.Init.Loop.{packets_of}
use sis_op_ii.Sockets.{Received, closes, is_negative}
use sis_op_ii.Sockets.ServerUdp.{ServerUdp, new_server_udp}
use sis_op_ii.Discovery.Search.{search_packets}
use sis_op_ii.Replication.Delivery.{times}
use sis_op_ii.Replication.Run.{Linked}
use sis_op_ii.Replication.Init.{arrivals, booted, init-Linked}
use sis_op_ii.Client.{Client, new_session, listen_all, request_of, validate_input}
use sis_op_ii.Client.Listener.{listen_for_announcements, listen_for_announcements-closes}
use sis_op_ii.Client.Process.{Meeting, Broadcast}
use sis_op_ii.Client.Process.Numbered.{Process}
use sis_op_ii.Ports.{get_validated_port, get_validated_port-print}
use sis_op_ii.Client.Commands.{IsRequest, validate_input-IsRequest, validate_input-print}
use sis_op_ii.Input.Digits.{print, stops}
use sis_op_ii.Input.{
  is_space, skip_spaces, read_word, is_digit, read_digits, read_magnitude, to_range, read_signed,
  read_int,
}
use sis_op_ii.Tests.Data.{host, leader, leader-IsSolvent, leader-IsConsistent}

nobody_at : times (host 7) leader.backup_servers ≡ 0
unfolding times
nobody_at = refl

abbrev fresh : Server ℤ
fresh = construct 4000 7 ServerRole.primary (host 0) true

abbrev unopened : ServerUdp
unopened = new_server_udp 4000 (host 0)

init-Linked_example :
    (answer joined r : Reaction ℤ) × (later : List (Send ℤ)) × (dispatch leader
        (bare_packet PacketType.server_discovery)
        (host 7)
      ≡ some answer)
    × (answer.sent ≡ ((bare_packet PacketType.discovery_ack, host 7) ∷ []))
    × (dispatch leader (bare_packet PacketType.register_backup) (host 7) ≡ some joined)
    × (init fresh unopened
          (booted (pos 3) (pos 0) (pos 0) 0 (pos 2) (host 9) [])
          4000
          (arrivals (pos 2) (host 9) (map (λ m. m.0) joined.sent))
        ≡ (search_packets 4000, Progress.serving r))
    × (r.sent ≡ ((bare_packet PacketType.register_backup, host 9) ∷ later))
    × Linked (host 7) joined.server r.server
init-Linked_example =
    init-Linked integers-NetLaws integers-FloatLaws leader (host 7) 9 7 4000 0 (pos 2) (pos 3)
      (pos 0) (pos 0) ServerRole.primary (host 0) true unopened [] refl (omega arith) (omega arith)
      refl refl leader-IsSolvent (omega arith) leader-IsConsistent nobody_at

-- A receive that fails, and an ELECTION packet.
abbrev incoming : List (Received ℤ)
incoming =
    record { n = negsuc 0; packet = bare_packet PacketType.heartbeat; sender = host 0 }
    ∷ record { n = pos 14; packet = id_packet PacketType.election 6; sender = host 6 }
    ∷ []

validate_input-IsRequest_example :
    (validate_input (codes " 10.0.0.2  +7x") ≡ some (codes "10.0.0.2", pos 7))
    ↔ IsRequest (codes " 10.0.0.2  +7x") (codes "10.0.0.2") (pos 7)
validate_input-IsRequest_example =
    validate_input-IsRequest (codes " 10.0.0.2  +7x") (codes "10.0.0.2") (pos 7)

small : IsInt (negsuc 41)
small = record { above = omega arith; below = omega arith }

validate_input-print_example :
    validate_input
      (codes " " ++ (codes "10.0.0.2" ++ (codes "  " ++ print (negsuc 41) (codes " !"))))
    ≡ some (codes "10.0.0.2", negsuc 41)
unfolding is_space is_digit stops
validate_input-print_example =
    validate_input-print (codes " ") (codes "10.0.0.2") (codes "  ") (codes " !") (negsuc 41) refl
      refl (λ e. cc e) refl (λ e. cc e) small refl

reads : validate_input (codes " 10.0.0.2  -42abc") ≡ some (codes "10.0.0.2", negsuc 41)
unfolding validate_input request_of skip_spaces read_word read_int read_signed read_magnitude
    read_digits to_range is_space is_digit
reads = refl

too_large : validate_input (codes "10.0.0.2 2147483648") ≡ none
unfolding validate_input request_of skip_spaces read_word read_int read_signed read_magnitude
    read_digits to_range is_space is_digit
too_large = refl

abbrev session : Client
session = new_session 4000

abbrev announcement : Received ℤ
announcement = record {
  n = pos 14;
  packet = id_packet PacketType.new_primary_announcement 6;
  sender = host 6;
}

listen_for_announcements-closes_example :
    let (calls, c') =
      listen_for_announcements (pos 3) (pos 0) (pos 0) session (announcement ∷ []) in
    (closes calls ≡ (if is_negative (pos 3) then 0 else 1))
    × (c' ≡ (
        if is_negative (pos 3) || (is_negative (pos 0) || is_negative (pos 0))
        then session
        else listen_all session (packets_of (announcement ∷ []))))
listen_for_announcements-closes_example =
    listen_for_announcements-closes (pos 3) (pos 0) (pos 0) session (announcement ∷ [])

abbrev lines : List Text
lines = codes "10.0.0.2 100" ∷ [] ∷ codes "nonsense" ∷ []

abbrev asked : Broadcast ℤ
asked = record {
  broadcast = 255;
  unset = host 0;
  answers = record {
    fd = pos 3;
    set = pos 0;
    sent = pos 2;
    received = record { n = pos 2; packet = bare_packet PacketType.discovery_ack; sender = host 9 };
  };
  waits = false;
}

-- Nothing comes in.
abbrev silence : ℕ → Meeting ℤ
silence k = record {
  rounds = λ j. record { announcements = []; unset_addr = 0; heard = none };
  found = none;
}

get_validated_port-print_example :
    get_validated_port (codes "server" ∷ print (pos 4000) (codes "/udp") ∷ []) ≡ pos 4000
unfolding stops is_digit
get_validated_port-print_example =
    get_validated_port-print (codes "server") (codes "/udp") 4000 (omega arith) (omega arith) refl
