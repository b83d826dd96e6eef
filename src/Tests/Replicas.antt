-- ===== src/Tests/Replicas.antt =====
-- The primary and its backups.
use sis_op_ii.Common.{◌≡◌, refl, ◌↔◌, none, some, map, arith, same}
use sis_op_ii.Common.Int.{ℤ, pos, ◌+ℤ◌}
use sis_op_ii.Common.Word.{IsInt}
use sis_op_ii.Protocol.{StateUpdateData}
use sis_op_ii.Platform.{integers, integers-FloatLaws, integers-NetLaws, read_state_update}
use sis_op_ii.Server.State.{Server}
use sis_op_ii.Server.Transactions.{process_transaction}
use sis_op_ii.Server.Registration.{register_backup, find_or_add, handle_state_update}
use sis_op_ii.Server.Clients.{find_client}
use sis_op_ii.Protocol.CharArray.{c_string, has_zero, up_to_zero, copy_ip}
use sis_op_ii.Server.Registration.StateUpdate.{Fails, Counts, handle_state_update-Fails}
use sis_op_ii.Replication.Mirrors.{Mirrors}
use sis_op_ii.Replication.Transactions.{Replicates, process_transaction-Replicates}
use sis_op_ii.Replication.Sync.{receive_all}
use sis_op_ii.Replication.Fresh.{register_backup-Mirrors}
use sis_op_ii.Tests.Data.{
  alice, host, leader, follower, newcomer, leader-IsSolvent, leader-IsConsistent, newcomer-IsBlank,
  first_update,
}

process_transaction-Replicates_example :
    Replicates leader follower (process_transaction leader alice 2 (pos 100) (pos 1))
process_transaction-Replicates_example =
    process_transaction-Replicates leader follower integers-NetLaws refl
      (record {
        clients = refl;
        history = refl;
        transactions = refl;
        transferred = refl;
        money = refl;
      })
      1 2 (omega arith) (omega arith) (pos 100) (pos 1)

register_backup-Mirrors_example :
    (b : Server ℤ) × (receive_all newcomer
        (map (λ m. m.0) (register_backup leader (host 5)).1)
        (host 9)
      ≡ some b)
    × Mirrors (register_backup leader (host 5)).0 b
register_backup-Mirrors_example =
    register_backup-Mirrors integers-NetLaws integers-FloatLaws leader newcomer (host 5) (host 9)
      leader-IsSolvent (omega arith) leader-IsConsistent newcomer-IsBlank

abbrev update_data : StateUpdateData ℤ
update_data = read_state_update first_update.contents

counted : IsInt (newcomer.num_transactions +ℤ pos 1)
unfolding ◌+ℤ◌
counted = record { above = omega arith; below = omega arith }

summed : IsInt (newcomer.total_transferred +ℤ update_data.transaction.value)
unfolding ◌+ℤ◌
summed = record { above = omega arith; below = omega arith }

handle_state_update-Fails_example :
    ((handle_state_update newcomer first_update ≡ none) ↔ Fails newcomer update_data)
    × ((s' : Server ℤ)
        → handle_state_update newcomer first_update ≡ some s'
        → Counts newcomer update_data.transaction.value s')
handle_state_update-Fails_example = handle_state_update-Fails newcomer first_update counted summed

-- A backup that knows neither client does meet the fault: its vector grows from one to two.
newcomer-dangles : handle_state_update newcomer first_update ≡ none
unfolding handle_state_update find_or_add find_client same c_string has_zero up_to_zero copy_ip
newcomer-dangles = refl
