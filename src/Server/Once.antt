-- ===== src/Server/Once.antt =====
-- Sequences of joins and requests at the server (addClient and processTransaction in
-- T1/server/Server.cpp).
pub mod Used
pub mod Replay
use sis_op_ii.Common.{
  ℕ, ◌≡◌, refl, ◌≢◌, sym, ap, ◌∙◌, subst, inl, inr, Bool, true, false, Option, none, some, List, [],
  ◌∷◌, Text, same, same→eq, arith, if◌then◌else◌, ◌>>=◌, Option-cases, some_inj,
}
use sis_op_ii.Common.Int.{ℤ, ◌≤ℤ◌}
use sis_op_ii.Protocol.{status-cases, TransactionStatus, ClientDto}
use sis_op_ii.Platform.{Platform}
use sis_op_ii.Server.State.{Server}
use sis_op_ii.Server.Clients.{new_client, set_last_request}
use sis_op_ii.Server.Clients.Lookup.{lookup, find_client-cases}
use sis_op_ii.Server.Clients.Append.{lookup-append}
use sis_op_ii.Server.Transactions.{Outcome, check_request, process_transaction}
use sis_op_ii.Server.Transactions.Settle.{transferred, credit, debit}
use sis_op_ii.Server.Transactions.Bank.{Bank, bank_of, bank_after, bank_step, judged, verdict}
use sis_op_ii.Server.Transactions.Retry.{
  transferred-source, transferred-dest, judged-success, check_request-duplicate,
}
use sis_op_ii.Server.Transactions.Contract.{
  process_transaction-Truthful, process_transaction-Answers,
}
use sis_op_ii.Server.Registration.{append_client, add_client}
use sis_op_ii.Server.Registration.Join.{add_client-known, add_client-new}

-- A client that joins, or a request of a client.
pub data Event : Type 0 where
  join : (ip : Text) → Event
  request : (src : Text) (addr : ℕ) (value seqn : ℤ) → Event

module _ {W : Type 0} ⦃p : Platform W⦄ where
  unfoldable pub apply_event : Server W → Event → Option (Server W)
  apply_event s (join ip) = some (add_client s ip).0
  apply_event s (request src addr value seqn) =
      process_transaction s src addr value seqn >>= λ o. some o.server

  unfoldable pub run_events : Server W → List Event → Option (Server W)
  unfolding apply_event
  run_events s [] = some s
  run_events s (event ∷ events) = apply_event s event >>= λ s'. run_events s' events
