-- ===== src/Tests/Banking.antt =====
-- Transactions of the two customers.
use sis_op_ii.Common.{List, ◌≡◌, refl, true, some, [], ◌∷◌, arith, take}
use sis_op_ii.Common.Int.{negsuc, ◌+ℤ◌, ◌-ℤ◌, ℤ, pos}
use sis_op_ii.Protocol.{ServerRole, TransactionStatus}
use sis_op_ii.Protocol.CharArray.{
  copy_ip, up_to_zero, c_string, c_string-copy_ip, c_string-copy_ip_address,
}
use sis_op_ii.Platform.{integers, integers-FloatLaws, integers-NetLaws}
use sis_op_ii.Server.State.{Server, construct}
use sis_op_ii.Server.Transactions.{Outcome, process_transaction}
use sis_op_ii.Server.Transactions.Bank.{bank_of}
use sis_op_ii.Server.Transactions.Contract.{Answers, process_transaction-Answers}
use sis_op_ii.Server.Transactions.Reasons.{Reason, process_transaction-Reason}
use sis_op_ii.Common.{same}
use sis_op_ii.Server.Clients.Lookup.{lookup}
use sis_op_ii.Server.Negative.{Balance, process_transaction-negative}
use sis_op_ii.Server.Once.{Event, run_events}
use sis_op_ii.Server.Once.Replay.{process_transaction_once}
use sis_op_ii.Server.Solvency.{join, request, IsSolvent, run_calls, run_calls-IsSolvent}
use sis_op_ii.Tests.Data.{customer, alice, bob, host, leader, first_outcome, first_run}

process_transaction-Answers_example :
    Answers leader alice bob
      (pos 100)
      (pos 1)
      (process_transaction leader alice 2 (pos 100) (pos 1))
process_transaction-Answers_example = process_transaction-Answers leader alice 2 (pos 100) (pos 1)

abbrev later_events : List Event
later_events =
    Event.join (integers.inet_ntop 3)
    ∷ Event.request bob 1 (pos 50) (pos 1)
    ∷ Event.request alice 2 (pos 5000) (pos 2)
    ∷ []

process_transaction_once_example :
    (s : Server ℤ) × (o : Outcome ℤ) × (run_events first_outcome.server later_events ≡ some s)
    × (process_transaction s alice 2 (pos 300) (pos 1) ≡ some o)
    × (o.status ≡ TransactionStatus.error_duplicate_request)
    × (bank_of o.server ≡ bank_of s)
    × (o.sent ≡ [])
process_transaction_once_example =
    process_transaction_once leader alice 2 (pos 100) (pos 1) (pos 300) (pos 1) first_outcome
      later_events first_run refl (omega arith)

run_calls-IsSolvent_example :
    (s : Server ℤ) × (run_calls
        (construct 4000 9 ServerRole.primary (host 9) true)
        (join alice ∷ join bob ∷ request alice 2 100 (pos 1) ∷ request bob 1 5000 (pos 1) ∷ [])
      ≡ some s)
    × IsSolvent s
run_calls-IsSolvent_example =
    run_calls-IsSolvent integers-FloatLaws 4000 9 ServerRole.primary (host 9) true
      (join alice ∷ join bob ∷ request alice 2 100 (pos 1) ∷ request bob 1 5000 (pos 1) ∷ [])
      (omega arith)

c_string-copy_ip_example :
    c_string (copy_ip (1 ∷ 2 ∷ 3 ∷ 0 ∷ 5 ∷ []))
    ≡ some (take 15 (up_to_zero (1 ∷ 2 ∷ 3 ∷ 0 ∷ 5 ∷ [])))
c_string-copy_ip_example = c_string-copy_ip (1 ∷ 2 ∷ 3 ∷ 0 ∷ 5 ∷ [])

c_string-copy_ip_address_example : c_string (copy_ip alice) ≡ some alice
c_string-copy_ip_address_example =
    c_string-copy_ip_address alice (integers-NetLaws.inet_ntop-IsAddress 1 (omega arith))

process_transaction-negative_example :
    (o : Outcome ℤ) × (process_transaction leader alice 2 (negsuc 1999) (pos 0 +ℤ pos 1) ≡ some o)
    × (o.status ≡ TransactionStatus.success)
    × Balance o.server alice (pos 1000 -ℤ negsuc 1999)
    × Balance o.server bob (pos 1000 +ℤ negsuc 1999)
unfolding lookup same ◌+ℤ◌
process_transaction-negative_example =
    process_transaction-negative integers-FloatLaws leader alice 2 1000 1000 1999 (customer alice)
      (customer bob) refl refl refl refl refl (omega arith) (omega arith) (omega arith)
      (record { above = omega arith; below = omega arith })

process_transaction-Reason_example :
    Reason first_outcome.status (pos 0) (pos 1000) (pos 100) (pos 1)
unfolding lookup same ◌+ℤ◌
process_transaction-Reason_example =
    process_transaction-Reason integers-FloatLaws leader alice 2 (customer alice) (customer bob)
      (pos 1000) (pos 100) (pos 1) first_outcome refl refl refl
      (record { above = omega arith; below = omega arith })
      (record { above = omega arith; below = omega arith })
      (record { above = omega arith; below = omega arith }) first_run
