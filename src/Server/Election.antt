-- ===== src/Server/Election.antt =====
-- Roles, heartbeats and the election, with the threads that the server starts. A thread is the list
-- of what it still has to run, cut where it sleeps or waits: `Thread` names these points.
use sis_op_ii.Common.{
  ℕ, true, false, ◌&&◌, not, none, some, List, [], ◌∷◌, Text, codes, ltb, ◌==◌, if◌then◌else◌,
}
use sis_op_ii.Protocol.{
  ServerRole, is_primary, is_backup, packet_code, PacketType, of_req, indeterminate, Packet,
  SockAddr,
}
use sis_op_ii.Platform.{Platform, read_req}
use sis_op_ii.Server.State.{Server, Send, send_to_all}

pub data Thread (W : Type 0) : Type 0 where
  -- handleTransactionRequest, on its copy of the packet and the sender's address
  transaction : Packet W → SockAddr → Thread W
  -- startHeartbeatSender, at the head of its loop
  heartbeat_sender : Thread W
  -- startHeartbeatMonitor, at the head of its loop, and in `wait_for`
  heartbeat_monitor : Thread W
  monitor_waiting : Thread W
  -- initPrimary in its sleep, startElection at its start, and in its sleep
  delayed_election : Thread W
  election : Thread W
  election_waiting : Thread W

-- What a handler or a stage of a thread does: the state after it, the packets that it sends, and
-- the threads that go on.
pub record Reaction (W : Type 0) : Type 0 where
  pub server : Server W
  pub sent : List (Send W)
  pub threads : List (Thread W)

module _ {W : Type 0} where
  abbrev pub silent : Server W → Reaction W
  silent s = record { server = s; sent = []; threads = [] }

module _ {W : Type 0} ⦃p : Platform W⦄ where
  -- A zeroed packet with its type and `data.req.value` set.
  unfoldable pub id_packet : PacketType → ℕ → Packet W
  id_packet t id = record {
    type = p.htons (packet_code t);
    contents = of_req (record { dest_addr = 0; value = p.htonl id; seqn = 0 });
  }

  -- A packet of which only the type is set.
  unfoldable pub bare_packet : PacketType → Packet W
  bare_packet t = record { type = p.htons (packet_code t); contents = indeterminate }

  -- BROADCAST_ADDR at the port of the socket; `sin_addr` stays zero if inet_pton fails.
  unfoldable pub broadcast_addr : Server W → SockAddr
  broadcast_addr s = record {
    sin_addr = elim (p.inet_pton (codes "255.255.255.255")) [ none ↦ 0 | some a ↦ a ];
    sin_port = p.htons s.port;
  }

  -- The id in `data.req.value`.
  unfoldable pub sender_id : Packet W → ℕ
  sender_id packet = p.ntohl (read_req packet.contents).value

  -- One round of the loop of startHeartbeatSender.
  unfoldable pub send_heartbeats : Server W → Reaction W
  send_heartbeats s =
      if is_primary s.current_role
      then record {
        server = s;
        sent = send_to_all heartbeat s.backup_servers;
        threads = Thread.heartbeat_sender ∷ [];
      }
      else silent s
    where
      heartbeat : Packet W
      heartbeat = record {
        type = p.htons (packet_code PacketType.heartbeat);
        contents = of_req (record { dest_addr = 0; value = 0; seqn = 0 });
      }

  unfoldable pub announce_new_primary : Server W → List (Send W)
  unfolding id_packet broadcast_addr
  announce_new_primary s =
      (id_packet PacketType.new_primary_announcement s.server_id, broadcast_addr s) ∷ []

  unfoldable pub promote_to_primary : Server W → Reaction W
  unfolding announce_new_primary
  promote_to_primary s =
      if is_backup s.current_role
      then record {
        server = record s { current_role = ServerRole.primary; backup_servers = [] };
        sent = announce_new_primary s;
        threads = Thread.heartbeat_sender ∷ [];
      }
      else silent s

  -- startElection up to its sleep.
  unfoldable pub start_election : Server W → Reaction W
  unfolding id_packet broadcast_addr
  start_election s = record {
    server = record s { election_in_progress = true; election_lost = false };
    sent = (id_packet PacketType.election s.server_id, broadcast_addr s) ∷ [];
    threads = Thread.election_waiting ∷ [];
  }

  -- startElection after its sleep.
  unfoldable pub finish_election : Server W → Reaction W
  unfolding promote_to_primary
  finish_election s =
      let s' = record s { election_in_progress = false } in
      if not s'.election_lost
      then promote_to_primary s'
      else record { server = s'; sent = []; threads = Thread.heartbeat_monitor ∷ [] }

  -- The head of the loop of startHeartbeatMonitor.
  unfoldable pub arm_monitor : Server W → Reaction W
  arm_monitor s =
      if is_backup s.current_role
      then record {
        server = record s { primary_alive = false };
        sent = [];
        threads = Thread.monitor_waiting ∷ [];
      }
      else silent s

  -- The end of its `wait_for`: by the predicate, or by the timeout.
  unfoldable pub end_wait : Server W → Reaction W
  unfolding start_election
  end_wait s =
      if s.primary_alive
      then record { server = s; sent = []; threads = Thread.heartbeat_monitor ∷ [] }
      else start_election s

  unfoldable pub init_backup : Server W → Text → ℕ → Reaction W
  unfolding bare_packet
  init_backup s primary_ip port =
      let addr : SockAddr = record {
        sin_addr = elim (p.inet_pton primary_ip) [ none ↦ 0 | some a ↦ a ];
        sin_port = p.htons port;
      } in
      record {
        server = record s { current_role = ServerRole.backup; primary_server_addr = addr };
        sent = (bare_packet PacketType.register_backup, addr) ∷ [];
        threads = Thread.heartbeat_monitor ∷ [];
      }

  unfoldable pub init_primary : Server W → Reaction W
  init_primary s = record {
    server = record s { current_role = ServerRole.backup };
    sent = [];
    threads = Thread.delayed_election ∷ [];
  }

  unfoldable pub handle_heartbeat_packet : Server W → Server W
  handle_heartbeat_packet s =
      if is_backup s.current_role then record s { primary_alive = true } else s

  unfoldable pub send_discovery_ack : Server W → SockAddr → List (Send W)
  unfolding bare_packet
  send_discovery_ack s client_addr =
      if is_primary s.current_role
      then (bare_packet PacketType.discovery_ack, client_addr) ∷ []
      else []

  unfoldable pub follow_primary : Server W → SockAddr → Reaction W
  unfolding bare_packet
  follow_primary s sender_addr = record {
    server = record s {
      current_role = ServerRole.backup;
      backup_servers = [];
      primary_server_addr = sender_addr;
    };
    sent = (bare_packet PacketType.register_backup, sender_addr) ∷ [];
    threads = [];
  }

  unfoldable pub handle_new_primary_announcement : Server W → Packet W → SockAddr → Reaction W
  unfolding sender_id follow_primary
  handle_new_primary_announcement s packet sender_addr =
      let new_leader_id = sender_id packet in
      let s1 = if s.election_in_progress then record s { election_lost = true } else s in
      let s2 = if is_backup s1.current_role then record s1 { primary_alive = true } else s1 in
      if new_leader_id == s2.server_id then silent s2 else follow_primary s2 sender_addr

  unfoldable pub handle_election_packet : Server W → Packet W → SockAddr → Server W × List (Send W)
  unfolding sender_id id_packet
  handle_election_packet s packet sender_addr =
      if ltb s.server_id (sender_id packet)
      then ((if s.election_in_progress then record s { election_lost = true } else s), [])
      else (s, (id_packet PacketType.election_answer s.server_id, sender_addr) ∷ [])

  unfoldable pub handle_election_answer_packet : Server W → Packet W → Server W
  unfolding sender_id
  handle_election_answer_packet s packet =
      if s.election_in_progress && ltb s.server_id (sender_id packet)
      then record s { election_lost = true }
      else s

  -- handleElectionMsg, which nothing calls.
  unfoldable pub handle_election_msg : Server W → Packet W → SockAddr → Reaction W
  unfolding sender_id id_packet
  handle_election_msg s packet sender_addr =
      if ltb (sender_id packet) s.server_id
      then record {
        server = record s { election_in_progress = true };
        sent = (id_packet PacketType.election_answer s.server_id, sender_addr) ∷ [];
        threads = if s.election_in_progress then [] else Thread.election ∷ [];
      }
      else silent s
