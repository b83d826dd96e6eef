-- ===== src/Election/System.antt =====
-- Servers that talk to each other over a network, in any order of their steps. A packet that a
-- server has sent may arrive late, more than once, out of order, or never.
pub mod Honest
pub mod Handlers
pub mod Stages
pub mod Beaten
pub mod Announced
pub mod Duties
pub mod Alone
pub mod SplitBrain
use mathlib.Core.List.{Memᴰ}
use sis_op_ii.Common.{
  ℕ, ◌≡◌, ◌⊎◌, Bool, true, false, Option, some, List, [], ◌∷◌, ◌++◌, Text, ◌==◌, if◌then◌else◌,
}
use sis_op_ii.Protocol.{ServerRole, PacketType, Packet, SockAddr}
use sis_op_ii.Platform.{Platform}
use sis_op_ii.Server.State.{Server, Send, construct}
use sis_op_ii.Server.Election.{Thread, Reaction, broadcast_addr}
use sis_op_ii.Server.Dispatch.{dispatch, choose_role, run_thread}
use sis_op_ii.Election.Window.{type_of}

-- A packet on the network, with the address of the server that has sent it.
pub record Message (W : Type 0) : Type 0 where
  pub from : ℕ
  pub packet : Packet W
  pub to : SockAddr

-- The server at each address, the stages of its threads that are still to run, and all that has
-- been sent so far.
pub record System (W : Type 0) : Type 0 where
  pub servers : ℕ → Server W
  pub threads : ℕ → List (Thread W)
  pub sent : List (Message W)

abbrev pub update {ℓ} : {A : Type ℓ} → (ℕ → A) → ℕ → A → ℕ → A
update f i a j = if i == j then a else f j

-- The packets in which servers compare their ids, or announce one.
abbrev pub is_vote : Option PacketType → Bool
is_vote (some PacketType.election) = true
is_vote (some PacketType.election_answer) = true
is_vote (some PacketType.new_primary_announcement) = true
is_vote _ = false

module _ {W : Type 0} where
  abbrev pub messages : ℕ → List (Send W) → List (Message W)
  messages i [] = []
  messages i ((packet, to) ∷ sent) = record { from = i; packet = packet; to = to } ∷ messages i sent

  -- What the server at an address has done.
  abbrev pub react : ℕ → Reaction W → System W → System W
  react i r sys = record {
    servers = update sys.servers i r.server;
    threads = update sys.threads i (sys.threads i ++ r.threads);
    sent = messages i r.sent ++ sys.sent;
  }

  abbrev pub set_threads : ℕ → List (Thread W) → System W → System W
  set_threads i threads sys = record sys { threads = update sys.threads i threads }

module _ {W : Type 0} ⦃p : Platform W⦄ where
  -- The main loop of a server takes a packet that a server has sent, to it or to all; it takes a
  -- packet of a client; a stage of one of its threads runs; or its process starts, after it may
  -- have failed at any point. A server that has failed takes no step.
  pub data Step (sys : System W) : System W → Type 0 where
    receive :
        (i : ℕ) (m : Message W) (port : ℕ) (r : Reaction W)
        → Memᴰ m sys.sent
        → (m.to.sin_addr ≡ i) ⊎ (m.to.sin_addr ≡ (broadcast_addr (sys.servers m.from)).sin_addr)
        → dispatch (sys.servers i) m.packet (record { sin_addr = m.from; sin_port = port }) ≡ some r
        → Step sys (react i r sys)
    receive_client :
        (i : ℕ) (packet : Packet W) (addr : SockAddr) (r : Reaction W)
        → is_vote (type_of packet) ≡ false
        → dispatch (sys.servers i) packet addr ≡ some r
        → Step sys (react i r sys)
    run :
        (i : ℕ) (before after : List (Thread W)) (t : Thread W) (r : Reaction W)
        → sys.threads i ≡ before ++ (t ∷ after)
        → run_thread t (sys.servers i) ≡ some r
        → Step sys (react i r (set_threads i (before ++ after) sys))
    restart :
        (i port : ℕ) (role : ServerRole) (addr : SockAddr) (alive : Bool) (primary_ip : Text)
        → Step sys (
            react i
              (choose_role
                (construct port (sys.servers i).server_id role addr alive)
                primary_ip
                port)
              (set_threads i [] sys))

  -- Before any server has started; the role is not read before initBackup or initPrimary sets it.
  pub record Begins (sys : System W) : Type 0 where
    pub no_election : (i : ℕ) → (sys.servers i).election_in_progress ≡ false
    pub no_primary : (i : ℕ) → (sys.servers i).current_role ≡ ServerRole.backup
    pub no_threads : (i : ℕ) → sys.threads i ≡ []
    pub none_sent : sys.sent ≡ []

  pub data Reaches (start : System W) : System W → Type 0 where
    here : Reaches start start
    step : (s t : System W) → Reaches start s → Step s t → Reaches start t
