-- ===== src/Replication/Startup.antt =====
-- A server that starts while there is a primary: run_discovery_service_server
-- (T1/discovery/discoveryServer.cpp), initBackup, sendDiscoveryAck and registerBackup
-- (T1/server/Server.cpp).
use sis_op_ii.Common.{
  ℕ, suc, ◌^◌, ◌≤◌, ◌<◌, ◌≡◌, ◌≢◌, refl, sym, ap, ◌∙◌, inl, inr, Bool, true, some, List, [], ◌∷◌,
  map, Text, arith, length, Option-cases, some_inj, subst,
}
use sis_op_ii.Common.Int.{ℤ, pos}
use sis_op_ii.Protocol.{ServerRole, packet_code, PacketType, Packet, SockAddr}
use sis_op_ii.Platform.{Platform, NetLaws, FloatLaws}
use sis_op_ii.Server.State.{Server, construct}
use sis_op_ii.Server.Solvency.{IsSolvent, client_limit}
use sis_op_ii.Server.Registration.{register_backup}
use sis_op_ii.Server.Election.{Reaction, bare_packet, send_discovery_ack, init_backup}
use sis_op_ii.Server.Dispatch.{replies, handle_packet, dispatch, choose_role}
use sis_op_ii.Server.Dispatch.Types.{dispatch-type}
use sis_op_ii.Sockets.{is_positive}
use sis_op_ii.Discovery.Search.{Attempt, Result, search, run_discovery_service_server}
use sis_op_ii.Election.Window.{dispatch-Flags}
use sis_op_ii.Replication.Delivery.{times, times-append_self}
use sis_op_ii.Replication.Sync.{receive_all}
use sis_op_ii.Replication.Fresh.{IsConsistent, IsBlank, register_backup-Mirrors}
use sis_op_ii.Replication.Run.{Linked}

module _ {W : Type 0} ⦃p : Platform W⦄ where
  receive_all-follows :
      (b b' : Server W) (packets : List (Packet W)) (from : SockAddr)
      → receive_all b packets from ≡ some b'
      → b.current_role ≡ ServerRole.backup
      → b'.current_role ≡ ServerRole.backup
  unfolding receive_all
  receive_all-follows b b' [] from e follows = rw (← some_inj e) follows
  receive_all-follows b b' (packet ∷ packets) from e follows =
      elim (Option-cases (dispatch b packet from)) [
        | inl fault ↦ ground (arith)
        | inr (r, done) ↦
            receive_all-follows r.server b' packets from (rw done at e)
              ((dispatch-Flags b packet from r done).backup follows)
      ]

  choose_role-backup :
      (n : Server W) (ip : Text) (port : ℕ)
      → ip ≢ []
      → choose_role n ip port ≡ init_backup n ip port
  unfolding choose_role
  choose_role-backup n [] port ne = absurd (ne refl)
  choose_role-backup n (c ∷ ip) port ne = refl

  -- What receivePacket brings when the answer of a primary comes in.
  abbrev pub answered : ℕ → ℤ → SockAddr → Attempt W
  answered elapsed n from = record {
    elapsed = elapsed;
    received = record { n = n; packet = bare_packet PacketType.discovery_ack; sender = from };
  }

  -- A new server, from its constructor to the choice of its role, when it has found an address.
  abbrev pub begun : ℕ → ℕ → ServerRole → SockAddr → Bool → Text → Reaction W
  begun port id role unset alive ip = choose_role (construct port id role unset alive) ip port

  module _ (laws : NetLaws W) where
    -- The answer of a primary ends the search.
    search-answered :
        (elapsed port : ℕ) (n : ℤ) (from : SockAddr) (attempts : List (Attempt W))
        → elapsed ≤ 2
        → is_positive n ≡ true
        → (run_discovery_service_server (pos 0) (pos 0) port (answered elapsed n from ∷ attempts)).1
          ≡ Result.returned (p.inet_ntop from.sin_addr)
    unfolding run_discovery_service_server search bare_packet packet_code
    search-answered elapsed port n from attempts soon some_bytes =
        ground (arith, laws.ntohs-htons 1 (omega arith))

  -- A new server at `back`, and a primary at `addr` on the same port.
  module _ (laws : NetLaws W) (float : FloatLaws W) (s : Server W) (back : SockAddr)
      (addr id port elapsed : ℕ) (n : ℤ) (role : ServerRole) (unset : SockAddr) (alive : Bool)
      (attempts : List (Attempt W)) where
    abbrev primary_at : SockAddr
    primary_at = record { sin_addr = addr; sin_port = p.htons port }

    abbrev ip : Text
    ip = p.inet_ntop addr

    abbrev newcomer : Reaction W
    newcomer = begun port id role unset alive ip

    module _ (leads : s.current_role ≡ ServerRole.primary) (small : addr < 2 ^ 32)
        (soon : elapsed ≤ 2) (some_bytes : is_positive n ≡ true) (solvent : IsSolvent s)
        (few : length s.clients ≤ client_limit) (consistent : IsConsistent s)
        (new : times back s.backup_servers ≡ 0) where
      begins : newcomer ≡ init_backup (construct port id role unset alive) ip port
      begins =
          choose_role-backup (construct port id role unset alive) ip port
            (laws.inet_ntop-not_empty addr small)

      newcomer-IsBlank : IsBlank newcomer.server
      unfolding init_backup construct
      newcomer-IsBlank =
          subst (λ (r : Reaction W). IsBlank r.server) (sym begins)
            (record {
              follows = refl;
              no_clients = refl;
              no_history = refl;
              no_transactions = refl;
              no_transfers = refl;
              no_money = refl;
            })

      newcomer-asks : newcomer.sent ≡ ((bare_packet PacketType.register_backup, primary_at) ∷ [])
      unfolding init_backup
      newcomer-asks =
          subst
            (λ (r : Reaction W).
              r.sent ≡ ((bare_packet PacketType.register_backup, primary_at) ∷ []))
            (sym begins) (rw (laws.inet_pton-inet_ntop addr small))

      primary-answers :
          dispatch s (bare_packet PacketType.server_discovery) back
          ≡ some (replies (s, (bare_packet PacketType.discovery_ack, back) ∷ []))
      unfolding handle_packet bare_packet send_discovery_ack
      primary-answers =
          dispatch-type laws s (bare_packet PacketType.server_discovery) back
            PacketType.server_discovery refl
          ∙ rw leads

      enlist :
          dispatch s (bare_packet PacketType.register_backup) back
          ≡ some (replies (register_backup s back))
      unfolding handle_packet bare_packet
      enlist =
          dispatch-type laws s (bare_packet PacketType.register_backup) back
            PacketType.register_backup refl
          ∙ rw leads

      -- A primary has whole balances that add up to 1000 for each client, at most 16777 clients,
      -- distinct addresses that fit a packet, and counters that are those of its history; its
      -- address is a 32-bit number, and none of its backups has the new server's address. Its
      -- answer to a SERVER_DISCOVERY packet is the first thing that a new server on the same port
      -- receives, within two seconds. The new server then finds the primary's address, begins as a
      -- backup and asks the primary to register it; and when it has taken the packets that the
      -- primary sends it, in their order, it holds the primary's clients, history, counters and
      -- total balance, the two are primary and backup, and the primary has it in its list once.
      -- All of this runs without a fault, on a platform whose floats are exact up to 2 ^ 24.
      pub startup-Linked :
          (answer joined : Reaction W) × (b : Server W) × (dispatch s
              (bare_packet PacketType.server_discovery)
              back
            ≡ some answer)
          × (answer.sent ≡ ((bare_packet PacketType.discovery_ack, back) ∷ []))
          × ((run_discovery_service_server
                (pos 0)
                (pos 0)
                port
                (answered elapsed n primary_at ∷ attempts)).1
              ≡ Result.returned ip)
          × (newcomer.sent ≡ ((bare_packet PacketType.register_backup, primary_at) ∷ []))
          × (dispatch s (bare_packet PacketType.register_backup) back ≡ some joined)
          × (receive_all newcomer.server (map (λ m. m.0) joined.sent) primary_at ≡ some b)
          × Linked back joined.server b
      unfolding register_backup
      startup-Linked =
          let (b, received, equal) =
            register_backup-Mirrors laws float s newcomer.server back primary_at solvent few
              consistent newcomer-IsBlank in
          (
            replies (s, (bare_packet PacketType.discovery_ack, back) ∷ []),
            replies (register_backup s back),
            b,
            primary-answers,
            refl,
            search-answered laws elapsed port n primary_at attempts soon some_bytes,
            newcomer-asks,
            enlist,
            received,
            record {
              equal = equal;
              leads = leads;
              follows =
                  receive_all-follows newcomer.server b (map (λ m. m.0) (register_backup s back).1)
                    primary_at received newcomer-IsBlank.follows;
              once = times-append_self back s.backup_servers ∙ ap suc new;
            },
          )
