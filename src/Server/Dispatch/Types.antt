-- ===== src/Server/Dispatch/Types.antt =====
-- The type of a packet, from the sender's htons to the receiver's switch.
use sis_op_ii.Common.{◌^◌, ◌<◌, ◌≡◌, refl, some, arith}
use sis_op_ii.Protocol.{PacketType, packet_code, Packet, SockAddr}
use sis_op_ii.Platform.{Platform, NetLaws}
use sis_op_ii.Server.State.{Server}
use sis_op_ii.Server.Dispatch.{packet_type_of, handle_packet, dispatch}

packet_type_of-packet_code : (t : PacketType) → packet_type_of (packet_code t) ≡ some t
unfolding packet_type_of packet_code
packet_type_of-packet_code PacketType.discovery = refl
packet_type_of-packet_code PacketType.discovery_ack = refl
packet_type_of-packet_code PacketType.transaction_req = refl
packet_type_of-packet_code PacketType.transaction_ack = refl
packet_type_of-packet_code PacketType.register_backup = refl
packet_type_of-packet_code PacketType.add_client_update = refl
packet_type_of-packet_code PacketType.heartbeat = refl
packet_type_of-packet_code PacketType.new_primary_announcement = refl
packet_type_of-packet_code PacketType.state_update = refl
packet_type_of-packet_code PacketType.state_update_ack = refl
packet_type_of-packet_code PacketType.add_history_entry = refl
packet_type_of-packet_code PacketType.server_discovery = refl
packet_type_of-packet_code PacketType.election = refl
packet_type_of-packet_code PacketType.election_answer = refl

packet_code-lt : (t : PacketType) → packet_code t < 2 ^ 16
unfolding packet_code
packet_code-lt PacketType.discovery = omega arith
packet_code-lt _ = omega arith

module _ {W : Type 0} ⦃p : Platform W⦄ where
  pub received_type :
      (laws : NetLaws W) (packet : Packet W) (t : PacketType)
      → packet.type ≡ p.htons (packet_code t)
      → packet_type_of (p.ntohs packet.type) ≡ some t
  received_type laws packet t e =
      rw (e, laws.ntohs-htons (packet_code t) (packet_code-lt t), packet_type_of-packet_code t)

  -- A packet whose type was written by htons from one of the fourteen packet types is handled by
  -- the main loop as a packet of that type.
  pub dispatch-type :
      (laws : NetLaws W) (s : Server W) (packet : Packet W) (addr : SockAddr) (t : PacketType)
      → packet.type ≡ p.htons (packet_code t)
      → dispatch s packet addr ≡ handle_packet s (some t) packet addr
  unfolding dispatch
  dispatch-type laws s packet addr t e = rw (received_type laws packet t e)
