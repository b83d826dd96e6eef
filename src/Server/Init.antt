-- ===== src/Server/Init.antt =====
-- Server::init as a whole (T1/server/Server.cpp): the socket, the search for a primary, the role,
-- and the main loop.
pub mod Loop
use sis_op_ii.Common.{
  ℕ, Bool, true, false, Option, none, some, List, [], ◌∷◌, ◌++◌, Text, if◌then◌else◌, ◌>>=◌,
}
use sis_op_ii.Common.Int.{ℤ}
use sis_op_ii.Protocol.{ServerRole, Packet, SockAddr}
use sis_op_ii.Platform.{Platform}
use sis_op_ii.Ports.{get_validated_port, run_main}
use sis_op_ii.Server.Id.{IfAddr, get_ip}
use sis_op_ii.Server.State.{Server, Send, construct}
use sis_op_ii.Server.Election.{Reaction, silent}
use sis_op_ii.Server.Dispatch.{dispatch, choose_role}
use sis_op_ii.Sockets.{Call, Received, is_positive}
use sis_op_ii.Sockets.ServerUdp.{ServerUdp, new_server_udp, open_server}
use sis_op_ii.Discovery.Search.{Attempt, Result, run_discovery_service_server}

-- What the system calls return before the main loop: socket, setsockopt, bind, setsockopt in the
-- first and the last setReceiveTimeout, and what the search receives.
pub record Boot (W : Type 0) : Type 0 where
  pub fd : ℤ
  pub set : ℤ
  pub bound : ℤ
  pub limit : ℤ
  pub reset : ℤ
  pub attempts : List (Attempt W)

-- Where init is: it has thrown, it still searches, its main loop runs, or its behaviour is
-- undefined.
pub data Progress (W : Type 0) : Type 0 where
  threw : Progress W
  pending : Progress W
  serving : Reaction W → Progress W
  fault : Progress W

module _ {W : Type 0} where
  -- One reaction after another.
  abbrev pub followed : Reaction W → Reaction W → Reaction W
  followed r next = record {
    server = next.server;
    sent = r.sent ++ next.sent;
    threads = r.threads ++ next.threads;
  }

module _ {W : Type 0} ⦃p : Platform W⦄ where
  -- The main loop over what its calls of receivePacket bring.
  unfoldable pub main_loop : Server W → List (Received W) → Option (Reaction W)
  main_loop s [] = some (silent s)
  main_loop s (received ∷ later) =
      if is_positive received.n
      then (dispatch s received.packet received.sender >>= λ r.
          main_loop r.server later >>= λ next. some (followed r next))
      else main_loop s later

  -- From the role on.
  unfoldable pub take_role : Server W → Result → ℕ → List (Received W) → Progress W
  unfolding choose_role main_loop
  take_role s Result.threw port received = Progress.threw
  take_role s Result.pending port received = Progress.pending
  take_role s (Result.returned primary_ip) port received =
      let r = choose_role s primary_ip port in
      elim (main_loop r.server received) [
        | none ↦ Progress.fault
        | some next ↦ Progress.serving (followed r next)
      ]

  -- The packets of the search are not among those of the reaction.
  unfoldable pub init :
      Server W → ServerUdp → Boot W → ℕ → List (Received W) → List (Send W) × Progress W
  unfolding open_server run_discovery_service_server take_role
  init s u os port received =
      let (calls, opened) : List (Call W) × Option ServerUdp =
        open_server os.fd os.set os.bound u in
      let (sent, result) = run_discovery_service_server os.limit os.reset port os.attempts in
      elim opened [
        | none ↦ ([], Progress.threw)
        | some ready ↦ (sent, take_role s result port received)
      ]

  -- main, with the list of interfaces that getIp meets, and what memory holds in the members that
  -- the constructors do not set; its exit code is 1 without a result.
  unfoldable pub run_server :
      List Text
      → Option (List (Option IfAddr))
      → ServerRole
      → SockAddr
      → Bool
      → SockAddr
      → Boot W
      → List (Received W)
      → Option (List (Send W) × Progress W)
  unfolding init
  run_server argv interfaces role addr alive unset os received =
      run_main
        (λ port.
          init (construct port (get_ip W interfaces) role addr alive) (new_server_udp port unset) os
            port received)
        (get_validated_port argv)
