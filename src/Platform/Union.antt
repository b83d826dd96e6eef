-- ===== src/Platform/Union.antt =====
-- The members of the union in a packet: each reads back what was written to it, and otherwise
-- whatever the bytes of the other member mean, which the platform says.
use sis_op_ii.Protocol.{
  Transaction, ClientUpdateData, StateUpdateData, ReqData, AckData, PacketData, of_req, of_ack,
  of_client_update, of_state_update, of_history_entry,
}
use sis_op_ii.Platform.Defs.{Platform}

module _ {W : Type 0} ⦃p : Platform W⦄ where
  abbrev pub read_req : PacketData W → ReqData
  read_req (of_req r) = r
  read_req d = p.overlay_req d

  abbrev pub read_ack : PacketData W → AckData W
  read_ack (of_ack a) = a
  read_ack d = p.overlay_ack d

  abbrev pub read_client_update : PacketData W → ClientUpdateData W
  read_client_update (of_client_update u) = u
  read_client_update d = p.overlay_client_update d

  abbrev pub read_state_update : PacketData W → StateUpdateData W
  read_state_update (of_state_update u) = u
  read_state_update d = p.overlay_state_update d

  abbrev pub read_history_entry : PacketData W → Transaction
  read_history_entry (of_history_entry t) = t
  read_history_entry d = p.overlay_history_entry d
