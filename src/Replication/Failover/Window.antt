-- ===== src/Replication/Failover/Window.antt =====
-- What a backup keeps of the accounts through the packets of an election.
use sis_op_ii.Common.{◌≡◌, refl, ◌∙◌, false, Option, none, some, List, [], ◌∷◌, arith}
use sis_op_ii.Protocol.{ServerRole, PacketType, Packet, SockAddr}
use sis_op_ii.Platform.{Platform}
use sis_op_ii.Server.State.{Server}
use sis_op_ii.Server.Registration.{handle_discovery_packet}
use sis_op_ii.Server.Election.{
  Reaction, start_election, finish_election, promote_to_primary, handle_heartbeat_packet,
  handle_new_primary_announcement, follow_primary, handle_election_packet,
  handle_election_answer_packet,
}
use sis_op_ii.Server.Dispatch.{handle_packet, dispatch}
use sis_op_ii.Election.Window.{type_of, dispatch-Flags, hear_all, beats_any}
use sis_op_ii.Election.Outcome.{election-Ends}
use sis_op_ii.Replication.Mirrors.{Mirrors}
use sis_op_ii.Replication.Failover.{tells_accounts, IsSilent}

module _ {W : Type 0} ⦃p : Platform W⦄ where
  pub Mirrors_trans : (a b c : Server W) → Mirrors a b → Mirrors b c → Mirrors a c
  Mirrors_trans a b c f g = record {
    clients = g.clients ∙ f.clients;
    history = g.history ∙ f.history;
    transactions = g.transactions ∙ f.transactions;
    transferred = g.transferred ∙ f.transferred;
    money = g.money ∙ f.money;
  }

  Keeps : Server W → Option (Reaction W) → Type 0
  Keeps s r = (t : Reaction W) × (r ≡ some t) × Mirrors s t.server

  announcement-Mirrors :
      (s : Server W) (packet : Packet W) (addr : SockAddr)
      → Mirrors s (handle_new_primary_announcement s packet addr).server
  unfolding handle_new_primary_announcement follow_primary
  announcement-Mirrors s packet addr = ground arith

  election-Mirrors :
      (s : Server W) (packet : Packet W) (addr : SockAddr)
      → Mirrors s (handle_election_packet s packet addr).0
  unfolding handle_election_packet
  election-Mirrors s packet addr = ground arith

  answer-Mirrors :
      (s : Server W) (packet : Packet W) → Mirrors s (handle_election_answer_packet s packet)
  unfolding handle_election_answer_packet
  answer-Mirrors s packet = ground arith

  heartbeat-Mirrors : (s : Server W) → Mirrors s (handle_heartbeat_packet s)
  unfolding handle_heartbeat_packet
  heartbeat-Mirrors s = ground arith

  Mirrors_refl : (s : Server W) → Mirrors s s
  Mirrors_refl s = record {
    clients = refl;
    history = refl;
    transactions = refl;
    transferred = refl;
    money = refl;
  }

  discovery-Mirrors :
      (s : Server W) (addr : SockAddr)
      → s.current_role ≡ ServerRole.backup
      → Mirrors s (handle_discovery_packet s addr).0
  unfolding handle_discovery_packet
  discovery-Mirrors s addr follows = ground arith

  finish_election-Mirrors : (s : Server W) → Mirrors s (finish_election s).server
  unfolding finish_election promote_to_primary
  finish_election-Mirrors s = ground arith

  handle_packet-Keeps :
      (s : Server W) (t : Option PacketType) (packet : Packet W) (addr : SockAddr)
      → s.current_role ≡ ServerRole.backup
      → tells_accounts t ≡ false
      → Keeps s (handle_packet s t packet addr)
  unfolding handle_packet Keeps
  handle_packet-Keeps s none packet addr b quiet = (_, refl, Mirrors_refl s)
  handle_packet-Keeps s (some PacketType.discovery) packet addr b quiet =
      (_, refl, discovery-Mirrors s addr b)
  handle_packet-Keeps s (some PacketType.transaction_req) packet addr b quiet =
      (_, refl, ground (arith, Mirrors_refl s))
  handle_packet-Keeps s (some PacketType.register_backup) packet addr b quiet =
      (_, refl, ground (arith, Mirrors_refl s))
  handle_packet-Keeps s (some PacketType.add_client_update) packet addr b quiet = cc
  handle_packet-Keeps s (some PacketType.heartbeat) packet addr b quiet =
      (_, refl, heartbeat-Mirrors s)
  handle_packet-Keeps s (some PacketType.new_primary_announcement) packet addr b quiet =
      (_, refl, announcement-Mirrors s packet addr)
  handle_packet-Keeps s (some PacketType.state_update) packet addr b quiet = cc
  handle_packet-Keeps s (some PacketType.add_history_entry) packet addr b quiet = cc
  handle_packet-Keeps s (some PacketType.election) packet addr b quiet =
      (_, refl, election-Mirrors s packet addr)
  handle_packet-Keeps s (some PacketType.election_answer) packet addr b quiet =
      (_, refl, answer-Mirrors s packet)
  handle_packet-Keeps s (some _) packet addr b quiet = (_, refl, Mirrors_refl s)

  -- A backup hears silent packets without a fault, and its accounts stay.
  pub hear_all-Mirrors :
      (s : Server W) (packets : List (Packet W × SockAddr))
      → s.current_role ≡ ServerRole.backup
      → IsSilent packets
      → (s' : Server W) × (hear_all s packets ≡ some s') × Mirrors s s'
  unfolding hear_all dispatch Keeps
  hear_all-Mirrors s [] follows silent = (s, refl, Mirrors_refl s)
  hear_all-Mirrors s ((packet, addr) ∷ packets) follows (quiet, silent) =
      let (r, done, kept) = handle_packet-Keeps s (type_of packet) packet addr follows quiet in
      let flags = dispatch-Flags s packet addr r done in
      let (s', heard, kept') = hear_all-Mirrors r.server packets (flags.backup follows) silent in
      (s', rw done heard, Mirrors_trans s r.server s' kept kept')

  -- A backup starts an election and hears any packets that tell of no accounts and do not beat it.
  -- All of them are handled without a fault; the election then makes it a primary with the
  -- clients, the history, the counters and the total balance that it had as a backup.
  pub election-Mirrors_primary :
      (b : Server W) (packets : List (Packet W × SockAddr))
      → b.current_role ≡ ServerRole.backup
      → IsSilent packets
      → beats_any b.server_id packets ≡ false
      → (c : Server W) × (hear_all (start_election b).server packets ≡ some c)
        × ((finish_election c).server.current_role ≡ ServerRole.primary)
        × Mirrors b (finish_election c).server
  unfolding start_election
  election-Mirrors_primary b packets follows silent unbeaten =
      let (c, heard, kept) = hear_all-Mirrors (start_election b).server packets follows silent in
      (
        c,
        heard,
        (election-Ends packets b c follows heard).role ∙ rw unbeaten,
        Mirrors_trans b c (finish_election c).server
            (record {
              clients = kept.clients;
              history = kept.history;
              transactions = kept.transactions;
              transferred = kept.transferred;
              money = kept.money;
            })
            (finish_election-Mirrors c),
      )
