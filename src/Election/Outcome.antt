-- ===== src/Election/Outcome.antt =====
-- How an election of a server ends (startElection in T1/server/Server.cpp).
use sis_op_ii.Common.{
  ℕ, ◌^◌, ◌<◌, ◌≡◌, refl, subst, Bool, true, false, some, List, [], ◌∷◌, arith, lt→ltb,
  if◌then◌else◌,
}
use sis_op_ii.Protocol.{ServerRole, PacketType, Packet, SockAddr}
use sis_op_ii.Platform.{Platform, NetLaws}
use sis_op_ii.Server.State.{Server}
use sis_op_ii.Server.Election.{
  Thread, Reaction, sender_id, id_packet, start_election, finish_election, promote_to_primary,
  announce_new_primary,
}
use sis_op_ii.Server.Dispatch.Types.{received_type}
use sis_op_ii.Election.Window.{beats_as, beats_any, type_of, hear_all, hear_all-Heard}

-- A packet is among those of a window.
pub data Hears {W : Type 0} (packet : Packet W) : List (Packet W × SockAddr) → Type 0 where
  here :
      (addr : SockAddr) (packets : List (Packet W × SockAddr))
      → Hears packet ((packet, addr) ∷ packets)
  there :
      (sent : Packet W × SockAddr) (packets : List (Packet W × SockAddr))
      → Hears packet packets
      → Hears packet (sent ∷ packets)

module _ {W : Type 0} ⦃p : Platform W⦄ where
  -- What the server is, says and starts after the election, by whether it was beaten.
  pub record Ends (beaten : Bool) (s : Server W) (r : Reaction W) : Type 0 where
    pub over : r.server.election_in_progress ≡ false
    pub role : r.server.current_role ≡ (if beaten then ServerRole.backup else ServerRole.primary)
    pub backups : r.server.backup_servers ≡ (if beaten then s.backup_servers else [])
    pub sent : r.sent ≡ (if beaten then [] else announce_new_primary s)
    pub threads :
        r.threads ≡ ((if beaten then Thread.heartbeat_monitor else Thread.heartbeat_sender) ∷ [])

  pub finish_election-Ends :
      (s : Server W)
      → s.current_role ≡ ServerRole.backup
      → Ends s.election_lost s (finish_election s)
  unfolding finish_election promote_to_primary announce_new_primary
  finish_election-Ends s b = ground arith

  -- A backup starts an election and then handles any sequence of packets without a fault. If one
  -- of them is an ELECTION or an ELECTION_ANSWER with a higher id, or a NEW_PRIMARY_ANNOUNCEMENT,
  -- the end of the election leaves it a backup with the list of backups that these packets have
  -- left it, sends nothing, and goes back to the heartbeat monitor. Otherwise the end of the
  -- election makes it primary with an empty list of backups, broadcasts the announcement and
  -- starts its heartbeats. In both cases the election is over.
  pub election-Ends :
      (packets : List (Packet W × SockAddr)) (s s' : Server W)
      → s.current_role ≡ ServerRole.backup
      → hear_all (start_election s).server packets ≡ some s'
      → Ends (beats_any s.server_id packets) s' (finish_election s')
  unfolding start_election
  election-Ends packets s s' b e =
      let h = hear_all-Heard packets (start_election s).server s' e in
      rw (← h.lost refl) (finish_election-Ends s' (h.backup b))

  beats_any-Hears :
      (id : ℕ) (packet : Packet W) (packets : List (Packet W × SockAddr))
      → beats_as (type_of packet) id packet ≡ true
      → Hears packet packets
      → beats_any id packets ≡ true
  beats_any-Hears id packet packets beats (here addr rest) = rw beats refl
  beats_any-Hears id packet packets beats (there sent rest hears) =
      ground (arith, beats_any-Hears id packet rest beats hears)

  id_packet-beats :
      (laws : NetLaws W) (low high : ℕ)
      → low < high
      → high < 2 ^ 32
      → (packet : Packet W) → id_packet PacketType.election high ≡ packet
      → beats_as (type_of packet) low packet ≡ true
  unfolding id_packet sender_id
  id_packet-beats laws low high less word packet e =
      rw
        (
          ← e,
          received_type laws (id_packet PacketType.election high) PacketType.election refl,
          laws.ntohl-htonl high word,
        )
        (lt→ltb low high less)

  sent_packet :
      (high : Server W) (packet : Packet W) (to : SockAddr)
      → (start_election high).sent ≡ ((packet, to) ∷ [])
      → id_packet PacketType.election high.server_id ≡ packet
  unfolding start_election
  sent_packet high packet to e = cc

  -- Two servers start an election, the first with the lower id (below 2 ^ 32) and as a backup. If
  -- the ELECTION packet that the second one broadcasts is among the packets that the first one
  -- handles while it sleeps, and all those are handled without a fault, then the first one ends
  -- its election as a backup: it announces nothing and goes back to its heartbeat monitor.
  pub election-low_loses :
      (laws : NetLaws W) (low low' high : Server W) (packet : Packet W) (to : SockAddr)
      (packets : List (Packet W × SockAddr))
      → low.current_role ≡ ServerRole.backup
      → low.server_id < high.server_id
      → high.server_id < 2 ^ 32
      → (start_election high).sent ≡ ((packet, to) ∷ [])
      → Hears packet packets
      → hear_all (start_election low).server packets ≡ some low'
      → Ends true low' (finish_election low')
  election-low_loses laws low low' high packet to packets b less word sends hears e =
      subst (λ beaten. Ends beaten low' (finish_election low'))
        (beats_any-Hears low.server_id packet packets
          (id_packet-beats laws low.server_id high.server_id less word packet
            (sent_packet high packet to sends))
          hears)
        (election-Ends packets low low' b e)
