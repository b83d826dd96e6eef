-- ===== src/Replication/Run/Taken.antt =====
-- The role and the list of backups over one step of the primary, and the packets of one step at
-- the backup.
use sis_op_ii.Common.{
  ℕ, ◌≡◌, refl, ap, ◌∙◌, inl, inr, some, List, [], ◌∷◌, ◌++◌, arith, if◌then◌else◌, ◌>>=◌,
  Bool-cases,
}
use sis_op_ii.Protocol.{ServerRole, is_backup, PacketType, Packet, SockAddr}
use sis_op_ii.Platform.{Platform, NetLaws}
use sis_op_ii.Server.State.{Server, send_to_all}
use sis_op_ii.Server.Transactions.{Outcome, process_transaction, transaction_ack}
use sis_op_ii.Server.Transactions.Cases.{process_transaction-cases}
use sis_op_ii.Server.Transactions.Process.{server_after}
use sis_op_ii.Server.Registration.{
  add_client, was_client_added, append_client, discovery_ack, handle_state_update,
}
use sis_op_ii.Server.Election.{silent}
use sis_op_ii.Server.Dispatch.{handle_packet, dispatch}
use sis_op_ii.Server.Dispatch.Types.{dispatch-type}
use sis_op_ii.Election.Window.{dispatch-Flags}
use sis_op_ii.Replication.Delivery.{
  same_addr, times, delivered, delivered-append, delivered-send_to_all,
}
use sis_op_ii.Replication.Sync.{receive_all}

module _ {W : Type 0} ⦃p : Platform W⦄ where
  -- The role and the backups of a server that processes a request or adds a client.
  pub process_transaction-role :
      (s : Server W) (src : List ℕ) (addr : ℕ) (value seqn : _) (o : Outcome W)
      → process_transaction s src addr value seqn ≡ some o
      → (o.server.current_role ≡ s.current_role) × (o.server.backup_servers ≡ s.backup_servers)
  unfolding server_after
  process_transaction-role s src addr value seqn o done =
      process_transaction-cases s src addr value seqn
        (λ o.
          (o.server.current_role ≡ s.current_role) × (o.server.backup_servers ≡ s.backup_servers))
        (λ o r. (r.same_role, r.same_backups)) (λ i j c d f g ok o good at. rw at (refl, refl)) o
        done

  pub add_client-role :
      (s : Server W) (ip : List ℕ)
      → let s' = (add_client s ip).0 in
        (s'.current_role ≡ s.current_role) × (s'.backup_servers ≡ s.backup_servers)
  unfolding add_client was_client_added append_client
  add_client-role s ip = ground arith

  module _ (laws : NetLaws W) (back from : SockAddr) where
    -- A backup ignores the replies that a primary sends to its clients.
    pub receive-reply :
        (b : Server W) (packet : Packet W) (client : SockAddr)
        → dispatch b packet from ≡ some (silent b)
        → receive_all b (delivered back ((packet, client) ∷ [])) from ≡ some b
    unfolding receive_all delivered
    receive-reply b packet client ignored = elim (Bool-cases (same_addr back client)) [
      | inl here ↦ rw (here, ignored)
      | inr away ↦ rw away
    ]

    pub dispatch-discovery_ack : (b : Server W) → dispatch b discovery_ack from ≡ some (silent b)
    unfolding discovery_ack handle_packet
    dispatch-discovery_ack b = dispatch-type laws b discovery_ack from PacketType.discovery_ack refl

    pub dispatch-transaction_ack :
        (b : Server W) (seqn : _) (o : Outcome W)
        → dispatch b (transaction_ack seqn o) from ≡ some (silent b)
    unfolding transaction_ack handle_packet
    dispatch-transaction_ack b seqn o =
        dispatch-type laws b (transaction_ack seqn o) from PacketType.transaction_ack refl

    -- What one packet to every backup, and then a reply, do to the backup that stands once in the
    -- list.
    pub receive-update :
        (s b b' : Server W) (packet reply : Packet W) (client : SockAddr)
        → times back s.backup_servers ≡ 1
        → dispatch b packet from ≡ some (silent b')
        → dispatch b' reply from ≡ some (silent b')
        → receive_all b
            (delivered back (send_to_all packet s.backup_servers ++ (reply, client) ∷ []))
            from
          ≡ some b'
    unfolding receive_all
    receive-update s b b' packet reply client once taken ignored =
        rw
          (
            delivered-append back (send_to_all packet s.backup_servers) ((reply, client) ∷ []),
            delivered-send_to_all back packet s.backup_servers,
            once,
            taken,
          )
          (receive-reply b' reply client ignored)

    pub taken-follows :
        (b b' : Server W) (packet : Packet W)
        → dispatch b packet from ≡ some (silent b')
        → b.current_role ≡ ServerRole.backup
        → b'.current_role ≡ ServerRole.backup
    taken-follows b b' packet e = (dispatch-Flags b packet from (silent b') e).backup

    pub state_update-taken :
        (b b' : Server W) (packet : Packet W)
        → b.current_role ≡ ServerRole.backup
        → handle_state_update b packet ≡ some b'
        → handle_packet b (some PacketType.state_update) packet from ≡ some (silent b')
    unfolding handle_packet
    state_update-taken b b' packet follows handled =
        ap
          (λ role.
            if is_backup role
            then (handle_state_update b packet >>= λ s'. some (silent s'))
            else some (silent b))
          follows
        ∙ ap (λ o. o >>= λ s'. some (silent s')) handled
