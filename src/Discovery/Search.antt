-- ===== src/Discovery/Search.antt =====
-- run_discovery_service_server (T1/discovery/discoveryServer.cpp).
use sis_op_ii.Common.{
  ℕ, Bool, ◌&&◌, not, Option, none, some, List, [], ◌∷◌, Text, ◌||◌, ◌≡◌, refl, arith, codes, ltb,
  if◌then◌else◌,
}
use sis_op_ii.Common.Int.{ℤ}
use sis_op_ii.Protocol.{PacketType, SockAddr}
use sis_op_ii.Platform.{Platform}
use sis_op_ii.Server.State.{Send}
use sis_op_ii.Server.Election.{bare_packet}
use sis_op_ii.Sockets.{Received, is_negative, is_positive}
use sis_op_ii.Discovery.{is_discovery_ack}

-- One round of the loop: the whole seconds since its start, and what receivePacket brings then.
pub record Attempt (W : Type 0) : Type 0 where
  pub elapsed : ℕ
  pub received : Received W

-- What the loop is left with; `searching` is a loop that has not ended yet.
pub data Search : Type 0 where
  found : Text → Search
  gave_up searching : Search

-- The result: an address, or the empty string; `threw` is an exception of setReceiveTimeout.
pub data Result : Type 0 where
  returned : Text → Result
  threw pending : Result

-- The end of the search, with what the last setsockopt returns.
abbrev pub search_result : ℤ → Search → Result
search_result reset (Search.found ip) =
    if is_negative reset then Result.threw else Result.returned ip
search_result reset Search.gave_up = if is_negative reset then Result.threw else Result.returned []
search_result reset Search.searching = Result.pending

-- A round that ends the loop, one way or the other.
abbrev pub is_decisive : {W : Type 0} ⦃p : Platform W⦄ → Attempt W → Bool
is_decisive a =
    ltb 2 a.elapsed || not (is_positive a.received.n) || is_discovery_ack a.received.packet

module _ {W : Type 0} ⦃p : Platform W⦄ where
  unfoldable pub search : List (Attempt W) → Search
  search [] = Search.searching
  search (a ∷ attempts) =
      let rest = search attempts in
      if ltb 2 a.elapsed
      then Search.gave_up
      else if is_positive a.received.n
      then (if is_discovery_ack a.received.packet
          then Search.found (p.inet_ntop a.received.sender.sin_addr)
          else rest)
      else Search.gave_up

  -- The packets that are sent first; `sin_addr` stays zero if inet_pton fails.
  unfoldable pub search_packets : ℕ → List (Send W)
  unfolding bare_packet
  search_packets port =
      let addr : SockAddr = record {
        sin_addr = elim (p.inet_pton (codes "255.255.255.255")) [ none ↦ 0 | some a ↦ a ];
        sin_port = p.htons port;
      } in
      let packet = bare_packet PacketType.server_discovery in
      (packet, addr) ∷ (packet, addr) ∷ (packet, addr) ∷ []

  -- `limit` and `reset` are what setsockopt returns in the first and the last setReceiveTimeout.
  unfoldable pub run_discovery_service_server :
      ℤ → ℤ → ℕ → List (Attempt W) → List (Send W) × Result
  unfolding search search_packets
  run_discovery_service_server limit reset port attempts = (
    search_packets port,
    if is_negative limit then Result.threw else search_result reset (search attempts),
  )

  -- The loop ends in the first round that decides it.
  abbrev pub decision : Attempt W → Search
  decision a =
      if not (ltb 2 a.elapsed) && is_positive a.received.n
      then Search.found (p.inet_ntop a.received.sender.sin_addr)
      else Search.gave_up

  abbrev pub first_decisive : List (Attempt W) → Option (Attempt W)
  first_decisive [] = none
  first_decisive (a ∷ attempts) =
      let rest = first_decisive attempts in if is_decisive a then some a else rest

  abbrev pub decide : Option (Attempt W) → Search
  decide none = Search.searching
  decide (some a) = decision a

  -- The loop of run_discovery_service_server ends in the first round that is later than two
  -- seconds, receives nothing, or receives a DISCOVERY_ACK: in the last case, if it is in time,
  -- with the text of the sender's address, otherwise without an address. Without such a round it
  -- does not end.
  pub search-first_decisive :
      (attempts : List (Attempt W)) → search attempts ≡ decide (first_decisive attempts)
  unfolding search
  search-first_decisive [] = refl
  search-first_decisive (a ∷ attempts) = ground (arith, search-first_decisive attempts)
