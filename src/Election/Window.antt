-- ===== src/Election/Window.antt =====
-- What the main loop does to the flags of the election and of the monitor, packet by packet.
use sis_op_ii.Common.{
  ℕ, ◌≡◌, refl, sym, ap, ◌∙◌, inl, inr, Bool, true, false, ◌||◌, Option, some, List, [], ◌∷◌, arith,
  ltb, Option-cases, some_inj, ◌>>=◌,
}
use sis_op_ii.Protocol.{ServerRole, PacketType, Packet, SockAddr}
use sis_op_ii.Platform.{Platform}
use sis_op_ii.Server.State.{Server}
use sis_op_ii.Server.Registration.{
  was_client_added, add_client, append_client, handle_discovery_packet, register_backup,
  take_client, handle_client_update, handle_state_update, handle_history_entry,
}
use sis_op_ii.Server.Election.{
  Reaction, sender_id, handle_heartbeat_packet, handle_new_primary_announcement, follow_primary,
  handle_election_packet, handle_election_answer_packet,
}
use sis_op_ii.Server.Dispatch.{packet_type_of, handle_packet, dispatch}

-- A packet that shows a backup that a primary is alive.
abbrev pub revives_as : Option PacketType → Bool
revives_as (some PacketType.heartbeat) = true
revives_as (some PacketType.new_primary_announcement) = true
revives_as _ = false

or_assoc : (a b c : Bool) → ((a || b) || c) ≡ (a || (b || c))
or_assoc a b c = ground arith

or_false : (a : Bool) → a ≡ (a || false)
or_false a = ground arith

module _ {W : Type 0} ⦃p : Platform W⦄ where
  -- A packet that tells a candidate with this id that it has lost.
  abbrev pub beats_as : Option PacketType → ℕ → Packet W → Bool
  beats_as (some PacketType.election) id packet = ltb id (sender_id packet)
  beats_as (some PacketType.election_answer) id packet = ltb id (sender_id packet)
  beats_as (some PacketType.new_primary_announcement) id packet = true
  beats_as _ id packet = false

  abbrev pub type_of : Packet W → Option PacketType
  type_of packet = packet_type_of (p.ntohs packet.type)

  -- The flags after a packet, of a server that is a candidate or a backup.
  pub record Flags (t : Option PacketType) (packet : Packet W) (s s' : Server W) : Type 0 where
    pub id : s'.server_id ≡ s.server_id
    pub running : s'.election_in_progress ≡ s.election_in_progress
    pub lost :
        s.election_in_progress ≡ true
        → s'.election_lost ≡ (s.election_lost || beats_as t s.server_id packet)
    pub backup : s.current_role ≡ ServerRole.backup → s'.current_role ≡ ServerRole.backup
    pub alive :
        s.current_role ≡ ServerRole.backup → s'.primary_alive ≡ (s.primary_alive || revives_as t)

  -- A handler that touches none of the flags.
  record Apart (s s' : Server W) : Type 0 where
    id : s'.server_id ≡ s.server_id
    running : s'.election_in_progress ≡ s.election_in_progress
    lost : s'.election_lost ≡ s.election_lost
    role : s'.current_role ≡ s.current_role
    alive : s'.primary_alive ≡ s.primary_alive

  state_update-Apart :
      (s s' : Server W) (packet : Packet W) → handle_state_update s packet ≡ some s' → Apart s s'
  unfolding handle_state_update
  state_update-Apart s s' packet e = ground arith

  client_update-Apart :
      (s s' : Server W) (packet : Packet W) → handle_client_update s packet ≡ some s' → Apart s s'
  unfolding handle_client_update take_client
  client_update-Apart s s' packet e = ground arith

  history_entry-Apart : (s : Server W) (packet : Packet W) → Apart s (handle_history_entry s packet)
  unfolding handle_history_entry
  history_entry-Apart s packet = ground arith

  discovery-Apart : (s : Server W) (addr : SockAddr) → Apart s (handle_discovery_packet s addr).0
  unfolding handle_discovery_packet add_client was_client_added append_client
  discovery-Apart s addr = ground arith

  Apart-Flags :
      (t : Option PacketType) (packet : Packet W) (s s' : Server W)
      → beats_as t s.server_id packet ≡ false
      → revives_as t ≡ false
      → Apart s s'
      → Flags t packet s s'
  Apart-Flags t packet s s' harmless silent_type a = ground arith

  handle_packet-Flags :
      (s : Server W) (t : Option PacketType) (packet : Packet W) (addr : SockAddr) (r : Reaction W)
      → handle_packet s t packet addr ≡ some r
      → Flags t packet s r.server
  unfolding handle_packet handle_heartbeat_packet handle_new_primary_announcement follow_primary
      handle_election_packet handle_election_answer_packet register_backup
  handle_packet-Flags s (some PacketType.discovery) packet addr r e =
      rw (← some_inj e) (Apart-Flags _ packet s _ refl refl (discovery-Apart s addr))
  handle_packet-Flags s (some PacketType.add_client_update) packet addr r e =
      elim (Option-cases (handle_client_update s packet)) [
        | inl fault ↦ ground (arith)
        | inr (s', done) ↦ ground (arith, client_update-Apart s s' packet done)
      ]
  handle_packet-Flags s (some PacketType.add_history_entry) packet addr r e =
      rw (← some_inj e)
        (Apart-Flags _ packet s _ refl refl (ground (arith, history_entry-Apart s packet)))
  handle_packet-Flags s (some PacketType.state_update) packet addr r e =
      elim (Option-cases (handle_state_update s packet)) [
        | inl fault ↦ ground (arith)
        | inr (s', done) ↦ ground (arith, state_update-Apart s s' packet done)
      ]
  handle_packet-Flags s (some PacketType.new_primary_announcement) packet addr r e = ground arith
  handle_packet-Flags s (some PacketType.election) packet addr r e = ground arith
  handle_packet-Flags s (some PacketType.election_answer) packet addr r e = ground arith
  handle_packet-Flags s _ packet addr r e = ground arith

  -- One round of the main loop.
  pub dispatch-Flags :
      (s : Server W) (packet : Packet W) (addr : SockAddr) (r : Reaction W)
      → dispatch s packet addr ≡ some r
      → Flags (type_of packet) packet s r.server
  unfolding dispatch
  dispatch-Flags s packet addr r e = handle_packet-Flags s (type_of packet) packet addr r e

  -- The state after the packets that come in while a thread sleeps.
  unfoldable pub hear_all : Server W → List (Packet W × SockAddr) → Option (Server W)
  hear_all s [] = some s
  hear_all s ((packet, addr) ∷ packets) = dispatch s packet addr >>= λ r. hear_all r.server packets

  abbrev pub beats_any : ℕ → List (Packet W × SockAddr) → Bool
  beats_any id [] = false
  beats_any id ((packet, addr) ∷ packets) =
      beats_as (type_of packet) id packet || beats_any id packets

  abbrev pub revives_any : List (Packet W × SockAddr) → Bool
  revives_any [] = false
  revives_any ((packet, addr) ∷ packets) = revives_as (type_of packet) || revives_any packets

  -- The flags after a window.
  pub record Heard (packets : List (Packet W × SockAddr)) (s s' : Server W) : Type 0 where
    pub id : s'.server_id ≡ s.server_id
    pub lost :
        s.election_in_progress ≡ true
        → s'.election_lost ≡ (s.election_lost || beats_any s.server_id packets)
    pub backup : s.current_role ≡ ServerRole.backup → s'.current_role ≡ ServerRole.backup
    pub alive :
        s.current_role ≡ ServerRole.backup
        → s'.primary_alive ≡ (s.primary_alive || revives_any packets)

  Heard-cons :
      (packet : Packet W) (addr : SockAddr) (packets : List (Packet W × SockAddr))
      (s m s' : Server W)
      → Flags (type_of packet) packet s m
      → Heard packets m s'
      → Heard ((packet, addr) ∷ packets) s s'
  Heard-cons packet addr packets s m s' f h = record {
    id = h.id ∙ f.id;
    lost = λ running.
        h.lost (f.running ∙ running)
        ∙ rw (f.lost running, f.id)
            (or_assoc s.election_lost (beats_as (type_of packet) s.server_id packet)
              (beats_any s.server_id packets));
    backup = λ b. h.backup (f.backup b);
    alive = λ b.
        h.alive (f.backup b)
        ∙ rw (f.alive b)
            (or_assoc s.primary_alive (revives_as (type_of packet)) (revives_any packets));
  }

  pub hear_all-Heard :
      (packets : List (Packet W × SockAddr)) (s s' : Server W)
      → hear_all s packets ≡ some s'
      → Heard packets s s'
  unfolding hear_all
  hear_all-Heard [] s s' e = record {
    id = rw (← some_inj e) refl;
    lost = λ running. rw (← some_inj e) (or_false s.election_lost);
    backup = λ b. rw (← some_inj e) b;
    alive = λ b. rw (← some_inj e) (or_false s.primary_alive);
  }
  hear_all-Heard ((packet, addr) ∷ packets) s s' e = elim (Option-cases (dispatch s packet addr)) [
    | inl fault ↦ ground (arith)
    | inr (r, done) ↦
        Heard-cons packet addr packets s r.server s' (dispatch-Flags s packet addr r done) (
          hear_all-Heard packets r.server s'
            (ap (λ o. o >>= λ r. hear_all r.server packets) (sym done) ∙ e))
  ]
