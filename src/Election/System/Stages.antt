-- ===== src/Election/System/Stages.antt =====
-- One packet, one stage of a thread, and a start, for the election of a server.
use sis_op_ii.Common.{
  ℕ, ◌^◌, ◌<◌, ◌≡◌, refl, sym, ◌∙◌, ◌⊎◌, inl, inr, Bool, true, false, ◌||◌, Option, some, [], ◌∷◌,
  Text, arith, Bool-cases, OnSome, OnSome-some, OnSome-then, OnSome-bind, OnSome-pure,
}
use sis_op_ii.Protocol.{ServerRole, PacketType, is_primary, is_backup, Packet, SockAddr}
use sis_op_ii.Platform.{Platform, NetLaws}
use sis_op_ii.Server.State.{Server, construct}
use sis_op_ii.Server.Transactions.{handle_transaction_request}
use sis_op_ii.Server.Registration.{handle_state_update, handle_client_update}
use sis_op_ii.Server.Election.{
  Thread, transaction, heartbeat_sender, heartbeat_monitor, monitor_waiting, delayed_election,
  election, election_waiting, Reaction, send_heartbeats, announce_new_primary, promote_to_primary,
  start_election, finish_election, arm_monitor, end_wait, init_backup, init_primary,
  send_discovery_ack, follow_primary, handle_new_primary_announcement, handle_election_packet,
}
use sis_op_ii.Server.Dispatch.{handle_packet, dispatch, choose_role, run_thread}
use sis_op_ii.Election.Window.{beats_as, type_of, dispatch-Flags}
use sis_op_ii.Election.System.Honest.{
  AreHonest, other-IsHonest, id_packet-IsHonest, send_to_all-AreHonest,
}
use sis_op_ii.Election.System.Handlers.{
  bare_packet-IsHonest, discovery-AreHonest, register_backup-AreHonest, transaction-OnSome,
}

module _ {W : Type 0} ⦃p : Platform W⦄ where
  -- A reaction is fair: the server keeps its id, it gives an election up only for a packet that
  -- beats it, and it sends what is honest.
  pub record IsFair (beaten : Bool) (s : Server W) (r : Reaction W) : Type 0 where
    pub id : r.server.server_id ≡ s.server_id
    pub lost :
        r.server.election_in_progress ≡ true
        → r.server.election_lost ≡ true
        → ((s.election_in_progress ≡ true) × (s.election_lost ≡ true)) ⊎ (beaten ≡ true)
    pub honest : AreHonest s.server_id r.sent

module _ {W : Type 0} ⦃p : Platform W⦄ (laws : NetLaws W) where
  announcement-AreHonest :
      (s : Server W) (packet : Packet W) (addr : SockAddr) (id : ℕ)
      → AreHonest id (handle_new_primary_announcement s packet addr).sent
  unfolding handle_new_primary_announcement follow_primary
  announcement-AreHonest s packet addr id =
      ground (arith, bare_packet-IsHonest laws id PacketType.register_backup refl)

  election-AreHonest :
      (s : Server W) (packet : Packet W) (addr : SockAddr)
      → s.server_id < 2 ^ 32
      → AreHonest s.server_id (handle_election_packet s packet addr).1
  unfolding handle_election_packet
  election-AreHonest s packet addr word =
      ground (arith, id_packet-IsHonest laws s.server_id PacketType.election_answer word)

  discovery_ack-AreHonest :
      (s : Server W) (addr : SockAddr) (id : ℕ) → AreHonest id (send_discovery_ack s addr)
  unfolding send_discovery_ack
  discovery_ack-AreHonest s addr id =
      ground (arith, bare_packet-IsHonest laws id PacketType.discovery_ack refl)

  handle_packet-OnSome :
      (s : Server W) (t : Option PacketType) (packet : Packet W) (addr : SockAddr)
      → s.server_id < 2 ^ 32
      → OnSome (λ r. AreHonest s.server_id r.sent) (handle_packet s t packet addr)
  unfolding handle_packet
  handle_packet-OnSome s (some PacketType.discovery) packet addr word =
      OnSome-pure _ _ (discovery-AreHonest laws s.server_id s addr)
  handle_packet-OnSome s (some PacketType.register_backup) packet addr word =
      OnSome-pure _ _ (ground (arith, register_backup-AreHonest laws s.server_id s addr))
  handle_packet-OnSome s (some PacketType.server_discovery) packet addr word =
      OnSome-pure _ _ (discovery_ack-AreHonest s addr s.server_id)
  handle_packet-OnSome s (some PacketType.new_primary_announcement) packet addr word =
      OnSome-pure _ _ (announcement-AreHonest s packet addr s.server_id)
  handle_packet-OnSome s (some PacketType.election) packet addr word =
      OnSome-pure _ _ (election-AreHonest s packet addr word)
  handle_packet-OnSome s (some PacketType.add_client_update) packet addr word =
      elim (Bool-cases (is_backup s.current_role)) [
        | inl follows ↦
            rw follows (OnSome-then _ (handle_client_update s packet) _ λ s'. OnSome-pure _ _ tt)
        | inr leads ↦ rw leads (OnSome-pure _ _ tt)
      ]
  handle_packet-OnSome s (some PacketType.state_update) packet addr word =
      elim (Bool-cases (is_backup s.current_role)) [
        | inl follows ↦
            rw follows (OnSome-then _ (handle_state_update s packet) _ λ s'. OnSome-pure _ _ tt)
        | inr leads ↦ rw leads (OnSome-pure _ _ tt)
      ]
  handle_packet-OnSome s (some PacketType.transaction_req) packet addr word =
      OnSome-pure _ _ (ground arith)
  handle_packet-OnSome s _ packet addr word = OnSome-pure _ _ tt

  dispatch-OnSome :
      (s : Server W) (packet : Packet W) (addr : SockAddr)
      → s.server_id < 2 ^ 32
      → OnSome (λ r. AreHonest s.server_id r.sent) (dispatch s packet addr)
  unfolding dispatch
  dispatch-OnSome s packet addr word = handle_packet-OnSome s (type_of packet) packet addr word

  pub dispatch-IsFair :
      (s : Server W) (packet : Packet W) (addr : SockAddr) (r : Reaction W)
      → s.server_id < 2 ^ 32
      → dispatch s packet addr ≡ some r
      → IsFair (beats_as (type_of packet) s.server_id packet) s r
  dispatch-IsFair s packet addr r word e =
      let f = dispatch-Flags s packet addr r e in
      record {
        id = f.id;
        lost = λ running lost.
            either s.election_lost _ (sym f.running ∙ running)
              (sym (f.lost (sym f.running ∙ running)) ∙ lost);
        honest = OnSome-some _ (dispatch s packet addr) r (dispatch-OnSome s packet addr word) e;
      }
    where
      either :
          (a b : Bool)
          → s.election_in_progress ≡ true
          → a || b ≡ true
          → ((s.election_in_progress ≡ true) × (a ≡ true)) ⊎ (b ≡ true)
      either true b running e = inl (running, refl)
      either false b running e = inr e

  heartbeats-AreHonest : (s : Server W) (id : ℕ) → AreHonest id (send_heartbeats s).sent
  unfolding send_heartbeats
  heartbeats-AreHonest s id = elim (Bool-cases (is_primary s.current_role)) [
    | inl leads ↦ rw leads (
        send_to_all-AreHonest id _ s.backup_servers
          (other-IsHonest laws id _ PacketType.heartbeat refl refl))
    | inr follows ↦ rw follows tt
  ]

  heartbeats-IsFair : (s : Server W) → IsFair false s (send_heartbeats s)
  unfolding send_heartbeats
  heartbeats-IsFair s = record {
    id = ground arith;
    lost = ground arith;
    honest = heartbeats-AreHonest s s.server_id;
  }

  start_election-IsFair : (s : Server W) → s.server_id < 2 ^ 32 → IsFair false s (start_election s)
  unfolding start_election
  start_election-IsFair s word = record {
    id = refl;
    lost = λ running lost. absurd (cc lost);
    honest = (id_packet-IsHonest laws s.server_id PacketType.election word, tt);
  }

  finish_election-IsFair :
      (s : Server W) → s.server_id < 2 ^ 32 → IsFair false s (finish_election s)
  unfolding finish_election promote_to_primary announce_new_primary
  finish_election-IsFair s word =
      ground (arith, id_packet-IsHonest laws s.server_id PacketType.new_primary_announcement word)

  run_thread-OnSome :
      (t : Thread W) (s : Server W)
      → s.server_id < 2 ^ 32
      → OnSome (IsFair false s) (run_thread t s)
  unfolding run_thread send_heartbeats arm_monitor end_wait
  run_thread-OnSome (transaction packet addr) s word =
      OnSome-bind _ _ (handle_transaction_request s packet addr) _
        (transaction-OnSome laws s.server_id s packet addr)
        λ r (same, honest). OnSome-pure _ _ (record {
          id = same.id;
          lost = λ running lost. inl (sym same.running ∙ running, sym same.lost ∙ lost);
          honest = honest;
        })
  run_thread-OnSome heartbeat_sender s word = OnSome-pure _ _ (heartbeats-IsFair s)
  run_thread-OnSome heartbeat_monitor s word = OnSome-pure _ _ (ground arith)
  run_thread-OnSome monitor_waiting s word =
      OnSome-pure _ _ (ground (arith, start_election-IsFair s word))
  run_thread-OnSome delayed_election s word = OnSome-pure _ _ (ground arith)
  run_thread-OnSome election s word = OnSome-pure _ _ (start_election-IsFair s word)
  run_thread-OnSome election_waiting s word = OnSome-pure _ _ (finish_election-IsFair s word)

  pub run_thread-IsFair :
      (t : Thread W) (s : Server W) (r : Reaction W)
      → s.server_id < 2 ^ 32
      → run_thread t s ≡ some r
      → IsFair false s r
  run_thread-IsFair t s r word e = OnSome-some _ (run_thread t s) r (run_thread-OnSome t s word) e

  -- A server that starts.
  pub choose_role-IsFair :
      (s : Server W) (port : ℕ) (role : ServerRole) (addr : SockAddr) (alive : Bool)
      (primary_ip : Text)
      → IsFair false s (choose_role (construct port s.server_id role addr alive) primary_ip port)
  unfolding choose_role construct init_primary init_backup
  choose_role-IsFair s port role addr alive [] = record {
    id = refl;
    lost = λ running lost. absurd (cc running);
    honest = tt;
  }
  choose_role-IsFair s port role addr alive (c ∷ primary_ip) = record {
    id = refl;
    lost = λ running lost. absurd (cc running);
    honest = (bare_packet-IsHonest laws s.server_id PacketType.register_backup refl, tt);
  }
