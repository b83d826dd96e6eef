-- ===== src/Election/Monitor.antt =====
-- What the heartbeat monitor of a backup decides (startHeartbeatMonitor in T1/server/Server.cpp).
use sis_op_ii.Common.{◌≡◌, ap, ◌∙◌, false, ◌||◌, some, List, [], ◌∷◌, arith, if◌then◌else◌}
use sis_op_ii.Protocol.{ServerRole, Packet, SockAddr}
use sis_op_ii.Platform.{Platform}
use sis_op_ii.Server.State.{Server}
use sis_op_ii.Server.Election.{Thread, arm_monitor, end_wait, start_election}
use sis_op_ii.Election.Window.{revives_any, hear_all, hear_all-Heard}

module _ {W : Type 0} ⦃p : Platform W⦄ where
  armed :
      (s : Server W)
      → s.current_role ≡ ServerRole.backup
      → ((arm_monitor s).server.current_role ≡ ServerRole.backup)
        × ((arm_monitor s).server.primary_alive ≡ false)
  unfolding arm_monitor
  armed s b = ground arith

  -- The heartbeat monitor of a backup clears the flag, and the main loop handles any sequence of
  -- packets without a fault until the wait ends. If one of them is a HEARTBEAT or a
  -- NEW_PRIMARY_ANNOUNCEMENT, the monitor goes round again; otherwise it starts an election. The
  -- server is a backup in both cases.
  pub monitor-suspects :
      (packets : List (Packet W × SockAddr)) (s s' : Server W)
      → s.current_role ≡ ServerRole.backup
      → hear_all (arm_monitor s).server packets ≡ some s'
      → end_wait s' ≡ (
          if revives_any packets
          then record { server = s'; sent = []; threads = Thread.heartbeat_monitor ∷ [] }
          else start_election s')
        × (s'.current_role ≡ ServerRole.backup)
  unfolding end_wait
  monitor-suspects packets s s' b e =
      let h = hear_all-Heard packets (arm_monitor s).server s' e in
      (
        ap
            (λ alive.
              if alive
              then record { server = s'; sent = []; threads = Thread.heartbeat_monitor ∷ [] }
              else start_election s')
            (h.alive (armed s b).0 ∙ ap (λ alive. alive || revives_any packets) (armed s b).1),
        h.backup (armed s b).0,
      )
