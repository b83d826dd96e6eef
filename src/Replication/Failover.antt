-- ===== src/Replication/Failover.antt =====
-- A backup that becomes primary (startElection, promoteToPrimary in T1/server/Server.cpp) after it
-- has followed one.
pub mod Window
pub mod Retry
use sis_op_ii.Common.{Bool, true, false, Option, none, some, List, [], ◌∷◌, ◌≡◌}
use sis_op_ii.Protocol.{PacketType, Packet, SockAddr}
use sis_op_ii.Platform.{Platform}
use sis_op_ii.Election.Window.{type_of}

-- The packets by which a primary tells a backup of accounts and transactions.
abbrev pub tells_accounts : Option PacketType → Bool
tells_accounts (some PacketType.add_client_update) = true
tells_accounts (some PacketType.state_update) = true
tells_accounts (some PacketType.add_history_entry) = true
tells_accounts _ = false

module _ {W : Type 0} ⦃p : Platform W⦄ where
  -- The primary is silent: none of these packets tells of accounts.
  abbrev pub IsSilent : List (Packet W × SockAddr) → Type 0
  IsSilent [] = Unit {0}
  IsSilent ((packet, addr) ∷ packets) = (tells_accounts (type_of packet) ≡ false) × IsSilent packets
