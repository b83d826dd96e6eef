-- ===== src/Replication/Sync.antt =====
-- The packets of registerBackup through the main loop of a backup that has nothing yet.
use sis_op_ii.Common.{
  ◌≡◌, refl, ◌∙◌, ap, if◌then◌else◌, Option, some, List, [], ◌∷◌, ◌++◌, map, ◌>>=◌, Option-cases,
  inl, inr,
}
use sis_op_ii.Common.Int.{ℤ, pos}
use sis_op_ii.Common.Word.{add_int}
use sis_op_ii.Protocol.{ServerRole, PacketType, is_backup, Transaction, Packet, SockAddr, ClientDto}
use sis_op_ii.Protocol.CharArray.{IsAddress, c_string-copy_ip_address}
use sis_op_ii.Platform.{Platform, NetLaws}
use sis_op_ii.Server.State.{Server, notify}
use sis_op_ii.Server.Clients.{new_client}
use sis_op_ii.Server.Clients.Lookup.{Missing}
use sis_op_ii.Server.Registration.{
  add_balance, client_update_packet, history_packet, handle_history_entry, handle_client_update,
}
use sis_op_ii.Server.Registration.Join.{handle_client_update-new}
use sis_op_ii.Server.Election.{silent}
use sis_op_ii.Server.Dispatch.{handle_packet, dispatch}
use sis_op_ii.Server.Dispatch.Types.{dispatch-type}

-- The counters of a history, as `++` and `+=` make them.
abbrev pub count_from : ℤ → List Transaction → ℤ
count_from n [] = n
count_from n (t ∷ ts) = count_from (add_int n (pos 1)) ts

abbrev pub volume_from : ℤ → List Transaction → ℤ
volume_from n [] = n
volume_from n (t ∷ ts) = volume_from (add_int n t.value) ts

module _ {W : Type 0} where
  -- Each client has an address that fits a packet, and no client before it has the same.
  abbrev pub AllFresh : List (ClientDto W) → List (ClientDto W) → Type 0
  AllFresh before [] = Unit {0}
  AllFresh before (c ∷ cs) =
      Missing c.address before × IsAddress c.address × AllFresh (before ++ c ∷ []) cs

module _ {W : Type 0} ⦃p : Platform W⦄ where
  -- The main loop over packets from one sender. Only the state is followed; a backup sends nothing
  -- and starts no thread in answer to the packets meant here.
  unfoldable pub receive_all : Server W → List (Packet W) → SockAddr → Option (Server W)
  receive_all b [] addr = some b
  receive_all b (packet ∷ packets) addr =
      dispatch b packet addr >>= λ r. receive_all r.server packets addr

  pub receive_all-append :
      (b : Server W) (xs ys : List (Packet W)) (from : SockAddr)
      → receive_all b (xs ++ ys) from ≡ receive_all b xs from >>= λ b'. receive_all b' ys from
  unfolding receive_all
  receive_all-append b [] ys from = refl
  receive_all-append b (x ∷ xs) ys from = elim (Option-cases (dispatch b x from)) [
    | inl fault ↦ rw fault
    | inr (r, done) ↦ rw done (receive_all-append r.server xs ys from)
  ]

  abbrev pub balance_from : ℤ → List (ClientDto W) → ℤ
  balance_from n [] = n
  balance_from n (c ∷ cs) = balance_from (add_balance n c.balance) cs

  -- A backup after one client, and after one entry of the history.
  abbrev pub with_client : Server W → ClientDto W → Server W
  with_client b c = notify (record b {
    clients = b.clients ++ c ∷ [];
    total_balance = add_balance b.total_balance c.balance;
  })

  abbrev pub with_entry : Server W → Transaction → Server W
  with_entry b t = notify (record b {
    transaction_history = b.transaction_history ++ t ∷ [];
    num_transactions = add_int b.num_transactions (pos 1);
    total_transferred = add_int b.total_transferred t.value;
  })

  -- The backup after a list of clients, and after a list of entries.
  abbrev pub with_clients : Server W → List (ClientDto W) → Server W
  with_clients b [] = b
  with_clients b (c ∷ cs) = with_clients (with_client b c) cs

  abbrev pub with_entries : Server W → List Transaction → Server W
  with_entries b [] = b
  with_entries b (t ∷ ts) = with_entries (with_entry b t) ts

  module _ (laws : NetLaws W) (addr : SockAddr) where
    update-with_client :
        (b : Server W) (c : ClientDto W)
        → Missing c.address b.clients
        → IsAddress c.address
        → handle_client_update b (client_update_packet c) ≡ some (with_client b c)
    unfolding client_update_packet new_client
    update-with_client b c missing fits =
        handle_client_update-new b (client_update_packet c) c.address
          (c_string-copy_ip_address c.address fits) missing.0

    pub client_update-taken :
        (b b' : Server W) (packet : Packet W)
        → b.current_role ≡ ServerRole.backup
        → handle_client_update b packet ≡ some b'
        → handle_packet b (some PacketType.add_client_update) packet addr ≡ some (silent b')
    unfolding handle_packet
    client_update-taken b b' packet follows handled =
        ap
          (λ role.
            if is_backup role
            then (handle_client_update b packet >>= λ s'. some (silent s'))
            else some (silent b))
          follows
        ∙ ap (λ o. o >>= λ s'. some (silent s')) handled

    dispatch-client :
        (b : Server W) (c : ClientDto W)
        → b.current_role ≡ ServerRole.backup
        → Missing c.address b.clients
        → IsAddress c.address
        → dispatch b (client_update_packet c) addr ≡ some (silent (with_client b c))
    unfolding client_update_packet handle_packet
    dispatch-client b c role missing fits =
        dispatch-type laws b (client_update_packet c) addr PacketType.add_client_update refl
        ∙ client_update-taken b (with_client b c) (client_update_packet c) role
            (update-with_client b c missing fits)

    dispatch-entry :
        (b : Server W) (t : Transaction)
        → b.current_role ≡ ServerRole.backup
        → dispatch b (history_packet t) addr ≡ some (silent (with_entry b t))
    unfolding history_packet handle_history_entry handle_packet
    dispatch-entry b t role =
        dispatch-type laws b (history_packet t) addr PacketType.add_history_entry refl ∙ rw role

    pub receive-clients :
        (b : Server W) (cs : List (ClientDto W)) (rest : List (Packet W))
        → b.current_role ≡ ServerRole.backup
        → AllFresh b.clients cs
        → receive_all b (map client_update_packet cs ++ rest) addr
          ≡ receive_all (with_clients b cs) rest addr
    unfolding receive_all
    receive-clients b [] rest role fresh = refl
    receive-clients b (c ∷ cs) rest role (missing, fits, later) =
        rw (dispatch-client b c role missing fits)
          (receive-clients (with_client b c) cs rest role later)

    pub receive-entries :
        (b : Server W) (ts : List Transaction)
        → b.current_role ≡ ServerRole.backup
        → receive_all b (map history_packet ts) addr ≡ some (with_entries b ts)
    unfolding receive_all
    receive-entries b [] role = refl
    receive-entries b (t ∷ ts) role =
        rw (dispatch-entry b t role) (receive-entries (with_entry b t) ts role)
