-- ===== src/Server/Init/Loop.antt =====
-- The main loop of Server::init, over all that its calls of receivePacket bring.
use sis_op_ii.Common.{
  ◌≡◌, refl, ◌∙◌, inl, inr, true, Option, some, List, [], ◌∷◌, if◌then◌else◌, ◌>>=◌, Bool-cases,
  Option-cases, some_inj,
}
use sis_op_ii.Protocol.{Packet, SockAddr}
use sis_op_ii.Platform.{Platform}
use sis_op_ii.Server.State.{Server}
use sis_op_ii.Server.Election.{Reaction}
use sis_op_ii.Server.Dispatch.{dispatch}
use sis_op_ii.Server.Init.{main_loop}
use sis_op_ii.Sockets.{Received, is_positive}
use sis_op_ii.Election.Window.{hear_all}

module _ {W : Type 0} where
  -- The packets that come in with at least one byte, each with its sender.
  abbrev pub packets_of : List (Received W) → List (Packet W × SockAddr)
  packets_of [] = []
  packets_of (received ∷ later) =
      let rest = packets_of later in
      if is_positive received.n then (received.packet, received.sender) ∷ rest else rest

module _ {W : Type 0} ⦃p : Platform W⦄ where
  after_loop : Option (Reaction W) → Option (Server W)
  after_loop o = o >>= λ r. some r.server

  main_loop-round :
      (s : Server W) (received : Received W) (later : List (Received W)) (r : Reaction W)
      → is_positive received.n ≡ true
      → dispatch s received.packet received.sender ≡ some r
      → after_loop (main_loop s (received ∷ later)) ≡ after_loop (main_loop r.server later)
  unfolding main_loop after_loop
  main_loop-round s received later r some_bytes done =
      elim (Option-cases (main_loop r.server later)) [
        | inl fault ↦ rw (some_bytes, done, fault) refl
        | inr (next, went) ↦ rw (some_bytes, done, went) refl
      ]

  -- The main loop of Server::init over any results of receivePacket leaves the server in the state
  -- in which handling only the packets of more than no bytes leaves it, one after another in their
  -- order; one of the two has undefined behaviour exactly if the other has.
  pub main_loop-hear_all :
      (received : List (Received W)) (s : Server W)
      → (main_loop s received >>= λ r. some r.server) ≡ hear_all s (packets_of received)
  unfolding main_loop hear_all after_loop
  main_loop-hear_all [] s = refl
  main_loop-hear_all (received ∷ later) s = elim (Bool-cases (is_positive received.n)) [
    | inl some_bytes ↦ elim (Option-cases (dispatch s received.packet received.sender)) [
      | inl fault ↦ rw (some_bytes, fault) refl
      | inr (r, done) ↦
          main_loop-round s received later r some_bytes done
          ∙ main_loop-hear_all later r.server
          ∙ rw (some_bytes, done) refl
    ]
    | inr nothing ↦ rw nothing (main_loop-hear_all later s)
  ]

  -- Where the packets are handled without a fault, the loop goes on.
  pub main_loop-runs :
      (received : List (Received W)) (s s' : Server W)
      → hear_all s (packets_of received) ≡ some s'
      → (r : Reaction W) × (main_loop s received ≡ some r) × (r.server ≡ s')
  main_loop-runs received s s' e = elim (Option-cases (main_loop s received)) [
    | inl fault ↦ absurd (cc (e, rw fault at (main_loop-hear_all received s)))
    | inr (r, went) ↦ (r, went, some_inj (rw went at (main_loop-hear_all received s) ∙ e))
  ]
