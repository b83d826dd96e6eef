-- ===== src/Replication/Run.antt =====
-- A primary that serves discoveries, requests and registrations, and one backup of it that takes
-- the packets which reach it through its main loop.
pub mod Taken
pub mod Steps
use sis_op_ii.Common.{
  ℕ, ◌^◌, ◌<◌, ◌≡◌, refl, sym, ap, ◌∙◌, inl, inr, true, false, Option, none, some, List, [], ◌∷◌,
  ◌++◌, arith, if◌then◌else◌, ◌>>=◌, replicate, Bool-cases, map,
}
use sis_op_ii.Common.Word.{to_int}
use sis_op_ii.Protocol.{
  ServerRole, is_primary, is_backup, TransactionStatus, packet_code, PacketType, ReqData, Packet,
  SockAddr,
}
use sis_op_ii.Platform.{Platform, NetLaws, read_req}
use sis_op_ii.Server.State.{Server, Send, send_to_all}
use sis_op_ii.Server.Transactions.{
  Outcome, process_transaction, transaction_ack, handle_transaction_request,
}
use sis_op_ii.Server.Transactions.Cases.{process_transaction-cases, Refused}
use sis_op_ii.Server.Transactions.Process.{server_after}
use sis_op_ii.Server.Registration.{
  add_client, was_client_added, append_client, discovery_ack, handle_discovery_packet,
  register_backup, handle_client_update, handle_state_update, sync_packets,
}
use sis_op_ii.Server.Election.{silent}
use sis_op_ii.Server.Dispatch.{handle_packet, dispatch}
use sis_op_ii.Server.Dispatch.Types.{dispatch-type}
use sis_op_ii.Election.Window.{dispatch-Flags}
use sis_op_ii.Replication.Mirrors.{Mirrors}
use sis_op_ii.Replication.Delivery.{
  same_addr, times, delivered, delivered-append, delivered-send_to_all, delivered-elsewhere,
  times-append,
}
use sis_op_ii.Replication.Transactions.{Levels, process_transaction-Replicates}
use sis_op_ii.Replication.Joins.{JoinLevels, add_client-JoinLevels}
use sis_op_ii.Replication.Sync.{receive_all, receive_all-append}

-- What a primary has to serve: a DISCOVERY packet, the thread of a TRANSACTION_REQ packet, and a
-- REGISTER_BACKUP packet, each with its sender.
pub data Input (W : Type 0) : Type 0 where
  arrival : (client : SockAddr) → Input W
  request : (packet : Packet W) (client : SockAddr) → Input W
  registration : (other : SockAddr) → Input W

module _ {W : Type 0} ⦃p : Platform W⦄ where
  unfoldable pub serve : Server W → Input W → Option (Server W × List (Send W))
  unfolding handle_discovery_packet handle_transaction_request register_backup
  serve s (arrival client) = some (handle_discovery_packet s client)
  serve s (request packet client) = handle_transaction_request s packet client
  serve s (registration other) =
      some (if is_primary s.current_role then register_backup s other else (s, []))

  -- The state after a sequence of inputs, with everything that was sent.
  unfoldable pub serve_all : Server W → List (Input W) → Option (Server W × List (Send W))
  unfolding serve
  serve_all s [] = some (s, [])
  serve_all s (input ∷ inputs) = do
    (s', sent) ← serve s input
    (s'', later) ← serve_all s' inputs
    some (s'', sent ++ later)

  -- A primary and the backup at an address: equal accounts, and registered once.
  pub record Linked (back : SockAddr) (s b : Server W) : Type 0 where
    pub equal : Mirrors s b
    pub leads : s.current_role ≡ ServerRole.primary
    pub follows : b.current_role ≡ ServerRole.backup
    pub once : times back s.backup_servers ≡ 1

  -- Addresses are 32-bit numbers, and the backup does not register again.
  abbrev pub IsRegular : SockAddr → Input W → Type 0
  IsRegular back (arrival client) = client.sin_addr < 2 ^ 32
  IsRegular back (request packet client) =
      (client.sin_addr < 2 ^ 32) × ((read_req packet.contents).dest_addr < 2 ^ 32)
  IsRegular back (registration other) = same_addr back other ≡ false

  abbrev pub AllRegular : SockAddr → List (Input W) → Type 0
  AllRegular back [] = Unit {0}
  AllRegular back (input ∷ inputs) = IsRegular back input × AllRegular back inputs

  -- The primary returns, the backup takes all that reaches it, and they are linked again.
  abbrev pub Served : SockAddr → SockAddr → Server W → Option (Server W × List (Send W)) → Type 0
  Served back from b r =
      (s' : Server W) × (sent : List (Send W)) × (r ≡ some (s', sent))
      × (b' : Server W) × (receive_all b (delivered back sent) from ≡ some b')
      × Linked back s' b'
