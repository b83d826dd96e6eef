-- ===== src/Client/Process.antt =====
-- The process of a client, from its arguments to its end (T1/client/main.cpp, ClientInterface::start
-- and communicationThread in T1/client/clientInterface.cpp).
pub mod Typed
pub mod Numbered
use sis_op_ii.Common.{
  ℕ, suc, Bool, true, false, ◌&&◌, Option, none, some, List, [], ◌∷◌, ◌++◌, Text, if◌then◌else◌,
}
use sis_op_ii.Protocol.{SockAddr}
use sis_op_ii.Platform.{Platform}
use sis_op_ii.Server.State.{Send}
use sis_op_ii.Sockets.{Call}
use sis_op_ii.Ports.{get_validated_port, run_main}
use sis_op_ii.Discovery.{Answers, run_discovery_service_client}
use sis_op_ii.Interface.{commands}
use sis_op_ii.Client.{Client, Round, new_session, discover_server, process_command}

-- What one command meets: its rounds, and the result of a new discovery, if it starts one.
pub record Meeting (W : Type 0) : Type 0 where
  pub rounds : ℕ → Round W
  pub found : Option Text

-- What the discovery of `start` meets: the address that inet_addr gives for BROADCAST_ADDR, what
-- `server_addr` of its socket holds in memory, and what its system calls return. Its receivePacket
-- has no timeout, and `waits` says that nothing ever comes in for it.
pub record Broadcast (W : Type 0) : Type 0 where
  pub broadcast : ℕ
  pub unset : SockAddr
  pub answers : Answers W
  pub waits : Bool

-- What a client has done: the calls of its first discovery, and the requests that its
-- communicationThread has sent. `blocked` says that it is still in that discovery.
pub record Life (W : Type 0) : Type 0 where
  pub discovery : List (Call W)
  pub blocked : Bool
  pub client : Client
  pub requests : List (Send W)

-- The calls up to the first recvfrom, and whether there is one.
unfoldable pub until_receive : {W : Type 0} → List (Call W) → List (Call W) × Bool
until_receive [] = ([], false)
until_receive (Call.receive_from fd ∷ calls) = (Call.receive_from fd ∷ [], true)
until_receive (call ∷ calls) =
    let (before, receives) = until_receive calls in (call ∷ before, receives)

module _ {W : Type 0} ⦃p : Platform W⦄ where
  -- communicationThread on its commands, in the order in which the queue gives them.
  unfoldable pub run_commands : Client → List Text → ℕ → (ℕ → Meeting W) → Client × List (Send W)
  unfolding process_command
  run_commands c [] k net = (c, [])
  run_commands c (command ∷ later) k net =
      let (c', sent) = process_command c command (net k).rounds (net k).found in
      let (c'', more) = run_commands c' later (suc k) net in (c'', sent ++ more)

  -- ClientInterface::start, until both threads have ended; without an address it prints an error.
  unfoldable pub start : Client → Broadcast W → List Text → (ℕ → Meeting W) → Life W
  unfolding run_commands run_discovery_service_client discover_server until_receive
  start c search lines net =
      let (calls, address) =
        run_discovery_service_client search.broadcast search.unset search.answers c.port in
      let (before, receives) = until_receive calls in
      if search.waits && receives
      then record { discovery = before; blocked = true; client = c; requests = [] }
      else elim address [
        | none ↦ record { discovery = calls; blocked = false; client = c; requests = [] }
        | some found ↦
            let r = run_commands (discover_server W c found) (commands lines) 0 net in
            record { discovery = calls; blocked = false; client = r.0; requests = r.1 }
      ]

  -- main: its exit code is 1 without a result, and 0 with one that is not blocked.
  unfoldable pub run_client :
      List Text → Broadcast W → List Text → (ℕ → Meeting W) → Option (Life W)
  unfolding get_validated_port new_session start
  run_client argv search lines net =
      run_main (λ port. start (new_session port) search lines net) (get_validated_port argv)
