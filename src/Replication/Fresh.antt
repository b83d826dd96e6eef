-- ===== src/Replication/Fresh.antt =====
-- A backup that starts from nothing has everything after the packets of registerBackup.
use mathlib.Core.List.{append_assoc, append-nil}
use sis_op_ii.Common.{
  ℕ, ◌+◌, ◌≤◌, ◌<◌, ◌≡◌, refl, sym, ap, ◌∙◌, some, List, [], ◌∷◌, ◌++◌, map, arith, length,
}
use sis_op_ii.Common.Int.{pos}
use sis_op_ii.Protocol.{ServerRole, Transaction, SockAddr, ClientDto}
use sis_op_ii.Platform.{Platform, NetLaws, FloatLaws, exact_limit}
use sis_op_ii.Server.State.{Server}
use sis_op_ii.Server.Transactions.Money.{sum, Holds, add_exact}
use sis_op_ii.Server.Registration.{add_balance, sync_packets, history_packet, register_backup}
use sis_op_ii.Server.Solvency.{IsSolvent, client_limit}
use sis_op_ii.Replication.Mirrors.{Mirrors}
use sis_op_ii.Replication.Sync.{
  receive_all, AllFresh, count_from, volume_from, balance_from, with_client, with_entry,
  with_clients, with_entries, receive-clients, receive-entries,
}

pub map-first {ℓ κ} :
    {A : Type ℓ} {B : Type κ} (b : B) (xs : List A)
    → map (λ (m : A × B). m.0) (map (λ x. (x, b)) xs) ≡ xs
map-first b [] = refl
map-first b (x ∷ xs) = ap (◌∷◌ x) (map-first b xs)

module _ {W : Type 0} ⦃p : Platform W⦄ where
  -- What a list of clients does to each field of a backup.
  record WithClients (b : Server W) (cs : List (ClientDto W)) (b' : Server W) : Type 0 where
    clients : b'.clients ≡ b.clients ++ cs
    money : b'.total_balance ≡ balance_from b.total_balance cs
    role : b'.current_role ≡ b.current_role
    history : b'.transaction_history ≡ b.transaction_history
    transactions : b'.num_transactions ≡ b.num_transactions
    transferred : b'.total_transferred ≡ b.total_transferred

  with_clients-fields :
      (b : Server W) (cs : List (ClientDto W)) → WithClients b cs (with_clients b cs)
  with_clients-fields b [] = record {
    clients = sym (append-nil b.clients);
    money = refl;
    role = refl;
    history = refl;
    transactions = refl;
    transferred = refl;
  }
  with_clients-fields b (c ∷ cs) =
      let later = with_clients-fields (with_client b c) cs in
      record {
        clients = later.clients ∙ append_assoc b.clients (c ∷ []) cs;
        money = later.money;
        role = later.role;
        history = later.history;
        transactions = later.transactions;
        transferred = later.transferred;
      }

  pub record WithEntries (b : Server W) (ts : List Transaction) (b' : Server W) : Type 0 where
    pub clients : b'.clients ≡ b.clients
    pub money : b'.total_balance ≡ b.total_balance
    pub history : b'.transaction_history ≡ b.transaction_history ++ ts
    pub transactions : b'.num_transactions ≡ count_from b.num_transactions ts
    pub transferred : b'.total_transferred ≡ volume_from b.total_transferred ts

  pub with_entries-fields :
      (b : Server W) (ts : List Transaction) → WithEntries b ts (with_entries b ts)
  with_entries-fields b [] = record {
    clients = refl;
    money = refl;
    history = sym (append-nil b.transaction_history);
    transactions = refl;
    transferred = refl;
  }
  with_entries-fields b (t ∷ ts) =
      let later = with_entries-fields (with_entry b t) ts in
      record {
        clients = later.clients;
        money = later.money;
        history = later.history ∙ append_assoc b.transaction_history (t ∷ []) ts;
        transactions = later.transactions;
        transferred = later.transferred;
      }

  balance_from-Holds :
      (laws : FloatLaws W) (a : ℕ) (cs : List (ClientDto W)) (zs : List ℕ)
      → Holds cs zs
      → a + sum zs < exact_limit
      → balance_from (pos a) cs ≡ pos (a + sum zs)
  unfolding sum add_balance
  balance_from-Holds laws a [] [] h small = ap pos (omega arith)
  balance_from-Holds laws a [] (z ∷ zs) h small = absurd h
  balance_from-Holds laws a (c ∷ cs) [] h small = absurd h
  balance_from-Holds laws a (c ∷ cs) (z ∷ zs) (e, h) small =
      let added : add_balance (pos a) c.balance ≡ pos (a + z) = rw e (
        ap p.trunc (add_exact laws a z (omega arith))
        ∙ laws.trunc-of_int (pos (a + z)) (omega arith)) in
      rw added (balance_from-Holds laws (a + z) cs zs h (omega arith) ∙ ap pos (omega arith))

  -- A backup as it is before its first packet.
  pub record IsBlank (b : Server W) : Type 0 where
    pub follows : b.current_role ≡ ServerRole.backup
    pub no_clients : b.clients ≡ []
    pub no_history : b.transaction_history ≡ []
    pub no_transactions : b.num_transactions ≡ pos 0
    pub no_transfers : b.total_transferred ≡ pos 0
    pub no_money : b.total_balance ≡ pos 0

  -- A primary whose addresses are distinct and fit a packet, and whose counters are those of its
  -- history.
  pub record IsConsistent (s : Server W) : Type 0 where
    pub registered : AllFresh [] s.clients
    pub counted : s.num_transactions ≡ count_from (pos 0) s.transaction_history
    pub measured : s.total_transferred ≡ volume_from (pos 0) s.transaction_history

  module _ (net : NetLaws W) (float : FloatLaws W) (s b : Server W) (backup primary : SockAddr)
      (solvent : IsSolvent s) (few : length s.clients ≤ client_limit) (consistent : IsConsistent s)
      (blank : IsBlank b) where
    -- Let a primary have whole balances that add up to 1000 for each client, at most 16777
    -- clients, distinct addresses that fit a packet, and counters that are those of its history.
    -- If the packets that registerBackup sends reach a backup that is still empty, in the order in
    -- which they are sent, its main loop handles them all without a fault, and its clients,
    -- history, counters and total balance are then the primary's.
    pub register_backup-Mirrors :
        (b' : Server W) × (receive_all b (map (λ m. m.0) (register_backup s backup).1) primary
          ≡ some b')
        × Mirrors (register_backup s backup).0 b'
    unfolding register_backup sync_packets
    register_backup-Mirrors =
        let joined = with_clients b s.clients in
        let after_clients = with_clients-fields b s.clients in
        let after_entries = with_entries-fields joined s.transaction_history in
        (
          with_entries joined s.transaction_history,
          rw (map-first backup) (
              receive-clients net primary b s.clients (map history_packet s.transaction_history)
                blank.follows (rw blank.no_clients consistent.registered)
              ∙ receive-entries net primary joined s.transaction_history
                  (after_clients.role ∙ blank.follows)),
          record {
            clients =
                after_entries.clients
                ∙ after_clients.clients
                ∙ ap (λ cs. cs ++ s.clients) blank.no_clients;
            history =
                after_entries.history
                ∙ ap (λ ts. ts ++ s.transaction_history) (after_clients.history ∙ blank.no_history);
            transactions =
                after_entries.transactions
                ∙ ap (λ n. count_from n s.transaction_history)
                    (after_clients.transactions ∙ blank.no_transactions)
                ∙ sym consistent.counted;
            transferred =
                after_entries.transferred
                ∙ ap (λ n. volume_from n s.transaction_history)
                    (after_clients.transferred ∙ blank.no_transfers)
                ∙ sym consistent.measured;
            money =
                after_entries.money
                ∙ after_clients.money
                ∙ ap (λ n. balance_from n s.clients) blank.no_money
                ∙ balance_from-Holds float 0 s.clients solvent.holdings solvent.holds
                    (omega (arith, solvent.full))
                ∙ ap pos (omega arith)
                ∙ sym solvent.reported;
          },
        )
