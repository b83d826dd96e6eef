-- ===== src/Replication/Joins.antt =====
-- A client that joins at the primary, and the update that it sends.
use sis_op_ii.Common.{ℕ, ◌^◌, ◌<◌, ◌≡◌, ◌≢◌, refl, ◌⊎◌, inl, inr, none, some, List, [], Text}
use sis_op_ii.Protocol.{ServerRole, packet_code, PacketType, Packet}
use sis_op_ii.Protocol.CharArray.{c_string, c_string-copy_ip_address}
use sis_op_ii.Platform.{Platform, NetLaws, read_client_update}
use sis_op_ii.Server.State.{Server, Send, send_to_all, notify}
use sis_op_ii.Server.Clients.{find_client, new_client}
use sis_op_ii.Server.Clients.Lookup.{lookup, find_client-cases}
use sis_op_ii.Server.Clients.Append.{Found-append_new}
use sis_op_ii.Server.Registration.{
  append_client, add_client, client_update_packet, propagate_client_addition, handle_client_update,
}
use sis_op_ii.Server.Registration.Join.{add_client-known, add_client-new, handle_client_update-new}
use sis_op_ii.Replication.Mirrors.{Mirrors}

module _ {W : Type 0} ⦃p : Platform W⦄ where
  -- The result of a join, for a known address and for a new one.
  abbrev pub JoinLevels : Text → Server W → Server W → Server W × List (Send W) → Type 0
  JoinLevels ip s b (s', sent) =
      ((lookup ip s.clients ≢ none) × (s' ≡ s) × (sent ≡ []))
      ⊎ ((lookup ip s.clients ≡ none)
          × (lookup ip s'.clients ≡ some (new_client ip))
          × (packet : Packet W) × (sent ≡ send_to_all packet s.backup_servers)
          × (packet.type ≡ p.htons (packet_code PacketType.add_client_update))
          × (b' : Server W) × (handle_client_update b packet ≡ some b')
          × Mirrors s' b')

  module _ (laws : NetLaws W) (s b : Server W) (leading : s.current_role ≡ ServerRole.primary)
      (mirrors : Mirrors s b) (addr : ℕ) (small : addr < 2 ^ 32) where
    abbrev ip : Text
    ip = p.inet_ntop addr

    abbrev join_packet : Packet W
    join_packet = client_update_packet (new_client ip)

    join_text : c_string (read_client_update join_packet.contents).ip ≡ some ip
    unfolding client_update_packet new_client
    join_text = c_string-copy_ip_address ip (laws.inet_ntop-IsAddress addr small)

    joined-Mirrors :
        find_client ip s.clients ≡ none
        → (b' : Server W) × (handle_client_update b join_packet ≡ some b')
          × Mirrors (notify (append_client s ip)) b'
    unfolding append_client client_update_packet new_client
    joined-Mirrors e = (
      _,
      handle_client_update-new b join_packet ip join_text (rw mirrors.clients e),
      record {
        clients = rw mirrors.clients;
        history = mirrors.history;
        transactions = mirrors.transactions;
        transferred = mirrors.transferred;
        money = rw mirrors.money;
      },
    )

    -- Let a backup hold the clients, the history and the counters of its primary, and let a client
    -- join with a 32-bit address. If the primary knew the address, addClient changes and sends
    -- nothing. Otherwise it registers a new client under it and sends one packet of type
    -- ADD_CLIENT_UPDATE to each registered backup, and handleClientUpdate on that packet leaves
    -- the backup with the clients, history and counters of the primary again.
    pub add_client-JoinLevels : JoinLevels ip s b (add_client s ip)
    unfolding propagate_client_addition append_client
    add_client-JoinLevels = elim (find_client-cases ip s.clients) [
      | inl missing ↦
          let (b', handled, equal) = joined-Mirrors missing.0 in
          rw (add_client-new s ip missing.0) (
            inr (
              missing.1,
              (Found-append_new ip s.clients (new_client ip) missing refl).looked,
              join_packet,
              rw leading,
              refl,
              b',
              handled,
              equal,
            ))
      | inr (i, c, f) ↦
          rw (add_client-known s ip i f.found) (inl ((λ none_there. cc f.looked), refl, refl))
    ]
