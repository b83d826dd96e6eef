-- ===== src/Replication/Init.antt =====
-- Server::init of a server that starts while there is a primary, as a whole (T1/server/Server.cpp).
use sis_op_ii.Common.{
  ℕ, ◌^◌, ◌≤◌, ◌<◌, ◌≡◌, refl, sym, ap, ◌∙◌, inl, inr, Bool, true, false, some, List, [], ◌∷◌, ◌++◌,
  map, Text, length, subst, Option-cases,
}
use sis_op_ii.Common.Int.{ℤ, pos}
use sis_op_ii.Protocol.{ServerRole, PacketType, Packet, SockAddr}
use sis_op_ii.Platform.{Platform, NetLaws, FloatLaws}
use sis_op_ii.Server.State.{Server, Send, construct}
use sis_op_ii.Server.Solvency.{IsSolvent, client_limit}
use sis_op_ii.Server.Election.{Reaction, bare_packet}
use sis_op_ii.Server.Dispatch.{dispatch, choose_role}
use sis_op_ii.Server.Init.{Boot, Progress, followed, main_loop, take_role, init}
use sis_op_ii.Server.Init.Loop.{packets_of, main_loop-runs}
use sis_op_ii.Sockets.{Received, is_negative, is_positive}
use sis_op_ii.Sockets.ServerUdp.{ServerUdp}
use sis_op_ii.Sockets.Opening.{open_server-closes}
use sis_op_ii.Discovery.Search.{Attempt, Result, search_packets, run_discovery_service_server}
use sis_op_ii.Election.Window.{hear_all}
use sis_op_ii.Replication.Delivery.{times}
use sis_op_ii.Replication.Sync.{receive_all}
use sis_op_ii.Replication.Fresh.{IsConsistent}
use sis_op_ii.Replication.Run.{Linked}
use sis_op_ii.Replication.Startup.{answered, begun, startup-Linked}

module _ {W : Type 0} ⦃p : Platform W⦄ where
  -- The packets as receivePacket brings them, `n` bytes each.
  abbrev pub arrivals : ℤ → SockAddr → List (Packet W) → List (Received W)
  arrivals n from [] = []
  arrivals n from (packet ∷ packets) =
      record { n = n; packet = packet; sender = from } ∷ arrivals n from packets

  hear_all-arrivals :
      (n : ℤ) (from : SockAddr) (packets : List (Packet W)) (b : Server W)
      → is_positive n ≡ true
      → hear_all b (packets_of (arrivals n from packets)) ≡ receive_all b packets from
  unfolding hear_all receive_all
  hear_all-arrivals n from [] b some_bytes = refl
  hear_all-arrivals n from (packet ∷ packets) b some_bytes =
      elim (Option-cases (dispatch b packet from)) [
        | inl fault ↦ rw (some_bytes, fault) refl
        | inr (r, done) ↦
            rw (some_bytes, done) (hear_all-arrivals n from packets r.server some_bytes)
      ]

  init-serving :
      (s : Server W) (u : ServerUdp) (os : Boot W) (port : ℕ) (ip : Text)
      (received : List (Received W)) (next : Reaction W)
      → is_negative os.fd ≡ false
      → (run_discovery_service_server os.limit os.reset port os.attempts).1 ≡ Result.returned ip
      → main_loop (choose_role s ip port).server received ≡ some next
      → init s u os port received
        ≡ (search_packets port, Progress.serving (followed (choose_role s ip port) next))
  unfolding init take_role run_discovery_service_server
  init-serving s u os port ip received next opens finds runs =
      rw (init, (open_server-closes W os.fd os.set os.bound u).1, opens, finds, take_role, runs)
        refl

  -- A new server's system calls up to its main loop, all but setsockopt and bind of the socket
  -- without an error, when the answer of a primary is the first thing that it receives.
  abbrev pub booted : ℤ → ℤ → ℤ → ℕ → ℤ → SockAddr → List (Attempt W) → Boot W
  booted fd set bound elapsed n primary_at attempts = record {
    fd = fd;
    set = set;
    bound = bound;
    limit = pos 0;
    reset = pos 0;
    attempts = answered elapsed n primary_at ∷ attempts;
  }

  module _ (laws : NetLaws W) (float : FloatLaws W) (s : Server W) (back : SockAddr)
      (addr id port elapsed : ℕ) (n fd set bound : ℤ) (role : ServerRole) (unset : SockAddr)
      (alive : Bool) (u : ServerUdp) (attempts : List (Attempt W)) where
    abbrev primary_at : SockAddr
    primary_at = record { sin_addr = addr; sin_port = p.htons port }

    -- A primary has whole balances that add up to 1000 for each client, at most 16777 clients,
    -- distinct addresses that fit a packet, and counters that are those of its history; its
    -- address is a 32-bit number, and none of its backups has the new server's address. Its answer
    -- to a SERVER_DISCOVERY packet is the first thing that a new server on the same port receives,
    -- within two seconds, and socket and the calls of setReceiveTimeout of the new server succeed.
    -- Server::init of the new server then throws nothing and asks the primary first to register
    -- it; and when its main loop has received the packets that the primary sends it for this, in
    -- their order, it holds the primary's clients, history, counters and total balance, the two
    -- are primary and backup, and the primary has it in its list once. All of this runs without a
    -- fault, on a platform whose floats are exact up to 2 ^ 24.
    pub init-Linked :
        s.current_role ≡ ServerRole.primary
        → addr < 2 ^ 32
        → elapsed ≤ 2
        → is_positive n ≡ true
        → is_negative fd ≡ false
        → IsSolvent s
        → length s.clients ≤ client_limit
        → IsConsistent s
        → times back s.backup_servers ≡ 0
        → (answer joined r : Reaction W) × (later : List (Send W)) × (dispatch s
              (bare_packet PacketType.server_discovery)
              back
            ≡ some answer)
          × (answer.sent ≡ ((bare_packet PacketType.discovery_ack, back) ∷ []))
          × (dispatch s (bare_packet PacketType.register_backup) back ≡ some joined)
          × (init
                (construct port id role unset alive)
                u
                (booted fd set bound elapsed n primary_at attempts)
                port
                (arrivals n primary_at (map (λ m. m.0) joined.sent))
              ≡ (search_packets port, Progress.serving r))
          × (r.sent ≡ ((bare_packet PacketType.register_backup, primary_at) ∷ later))
          × Linked back joined.server r.server
    init-Linked leads small soon some_bytes opens solvent few consistent new =
        let (answer, joined, b, answers, answer_sent, finds, asks, joins, received, linked) =
          startup-Linked laws float s back addr id port elapsed n role unset alive attempts leads
            small soon some_bytes solvent few consistent new in
        let begins = begun port id role unset alive (p.inet_ntop addr) in
        let packets : List (Packet W) = map (λ m. m.0) joined.sent in
        let (next, runs, same) =
          main_loop-runs (arrivals n primary_at packets) begins.server b
            (hear_all-arrivals n primary_at packets begins.server some_bytes ∙ received) in
        (
          answer,
          joined,
          followed begins next,
          next.sent,
          answers,
          answer_sent,
          joins,
          init-serving (construct port id role unset alive) u
              (booted fd set bound elapsed n primary_at attempts) port (p.inet_ntop addr)
              (arrivals n primary_at packets) next opens finds runs,
          ap (λ xs. xs ++ next.sent) asks,
          subst (Linked back joined.server) (sym same) linked,
        )
