-- ===== src/Tests/Clients.antt =====
-- A client and its primary.
use sis_op_ii.Common.{
  ℕ, zero, suc, ◌≡◌, ◌∷◌, ◌++◌, true, false, same, refl, none, some, [], arith, if◌then◌else◌, ◌==◌,
}
use sis_op_ii.Common.Int.{ℤ, pos, ◌+ℤ◌}
use sis_op_ii.Common.Word.{IsInt}
use sis_op_ii.Protocol.{Packet}
use sis_op_ii.Platform.{integers, integers-NetLaws, read_ack}
use sis_op_ii.Server.Transactions.{
  Outcome, process_transaction, transaction_ack, handle_transaction_request,
}
use sis_op_ii.Server.Transactions.Bank.{bank_of}
use sis_op_ii.Server.Clients.Lookup.{lookup}
use sis_op_ii.Client.{Client, Round, request_packet, execute_request_with_retries}
use sis_op_ii.Client.Lossy.{Fate, lossy}
use sis_op_ii.Client.Lossy.Once.{Commanded, execute_request_with_retries-Commanded}
use sis_op_ii.Client.Notices.{notices, told, notices-told}
use sis_op_ii.Client.InStep.{InStep}
use sis_op_ii.Tests.Data.{alice, bob, host, customer, leader, first_outcome}

abbrev session : Client
session = record {
  port = 4000;
  sequence_number = pos 1;
  server_address = integers.inet_ntop 9;
  server_sock_addr = host 9;
}

abbrev answer : Packet ℤ
answer = transaction_ack (pos 1) first_outcome

-- The answer comes in the third round.
abbrev rounds : ℕ → Round ℤ
rounds k = record {
  announcements = [];
  unset_addr = 0;
  heard = if k == 2 then some answer else none;
}

small : IsInt (pos 1)
small = record { above = omega arith; below = omega arith }

hundred : IsInt (pos 100)
hundred = record { above = omega arith; below = omega arith }

second : IsInt (session.sequence_number +ℤ pos 1)
unfolding ◌+ℤ◌
second = record { above = omega arith; below = omega arith }

alice-InStep : InStep session (bank_of leader).book alice
unfolding lookup same ◌+ℤ◌
alice-InStep = record { account = customer alice; registered = refl; next = refl }

-- The first reply is lost, so the server handles the request twice.
abbrev fates : ℕ → Fate
fates zero = record { arrives = true; returns = false }
fates (suc k) = record { arrives = true; returns = true }

execute_request_with_retries-Commanded_example :
    Commanded integers-NetLaws session
      (host 1)
      bob
      (pos 100)
      2
      refl
      hundred
      small
      second
      fates
      leader
      alice-InStep
      none
      (execute_request_with_retries session bob
        (pos 100)
        (lossy (host 1) bob (pos 100) (pos 1) fates leader))
execute_request_with_retries-Commanded_example =
    execute_request_with_retries-Commanded integers-NetLaws session (host 1) bob (pos 100) 2 refl
      hundred small second fates leader alice-InStep none

notices-told_example :
    (o : Outcome ℤ) × (reply : Packet ℤ) × (process_transaction leader alice 2 (pos 100) (pos 1)
      ≡ some o)
    × (handle_transaction_request leader (request_packet (pos 1) bob (pos 100) 0) (host 1)
        ≡ some (o.server, o.sent ++ (reply, host 1) ∷ []))
    × (notices session bob (pos 100) (some (read_ack reply.contents)) none
        ≡ told session bob (pos 100) o o.status)
notices-told_example =
    notices-told integers-NetLaws session leader (host 1) bob (pos 100) 0 2 none refl hundred small
