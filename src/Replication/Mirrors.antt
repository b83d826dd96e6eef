-- ===== src/Replication/Mirrors.antt =====
-- The part of the state that a backup holds in common with its primary.
use sis_op_ii.Common.{◌≡◌}
use sis_op_ii.Server.State.{Server}

-- Roles, addresses, flags and the last log entry are each server's own.
pub record Mirrors {W : Type 0} (s b : Server W) : Type 0 where
  pub clients : b.clients ≡ s.clients
  pub history : b.transaction_history ≡ s.transaction_history
  pub transactions : b.num_transactions ≡ s.num_transactions
  pub transferred : b.total_transferred ≡ s.total_transferred
  pub money : b.total_balance ≡ s.total_balance
