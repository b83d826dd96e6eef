-- ===== src/Election/System/SplitBrain.antt =====
-- Two primaries at once (handleNewPrimaryAnnouncementPacket in T1/server/Server.cpp).
use mathlib.Core.List.{append-nil}
use mathlib.Core.List.Memᴰ.{append_right}
use sis_op_ii.Common.{
  ℕ, ◌^◌, ◌<◌, ◌≡◌, ◌≢◌, refl, sym, ap, ◌∙◌, inl, inr, true, false, some, List, [], ◌++◌, arith,
  ◌==◌, Bool-cases,
}
use sis_op_ii.Protocol.{ServerRole, PacketType, Packet, SockAddr}
use sis_op_ii.Platform.{Platform, NetLaws}
use sis_op_ii.Server.State.{Server}
use sis_op_ii.Server.Election.{
  Reaction, id_packet, sender_id, broadcast_addr, handle_new_primary_announcement, follow_primary,
}
use sis_op_ii.Server.Dispatch.{handle_packet, dispatch}
use sis_op_ii.Server.Dispatch.Types.{dispatch-type}
use sis_op_ii.Election.System.{Message, System, react, Step, receive, Begins, Reaches, here, step}
use sis_op_ii.Election.System.Duties.{duties, IsDuty}
use sis_op_ii.Election.System.Alone.{Reaches-IsDuty}
use sis_op_ii.Election.System.Beaten.{Reaches-IsFairPlay}
use sis_op_ii.Election.System.Announced.{equal, HasAnnounced, Reaches-HasAnnounced}

ne→== : (i j : ℕ) → i ≢ j → (i == j) ≡ false
ne→== i j h = ground arith

==_refl : (i : ℕ) → (i == i) ≡ true
==_refl i = ground arith

module _ {W : Type 0} ⦃p : Platform W⦄ where
  -- A server that hears the announcement of another one follows it, and starts no thread.
  record Follows (s : Server W) (addr : SockAddr) (r : Reaction W) : Type 0 where
    role : r.server.current_role ≡ ServerRole.backup
    primary : r.server.primary_server_addr ≡ addr
    no_threads : r.threads ≡ []

  named :
      (laws : NetLaws W) (id : ℕ) (t : PacketType)
      → id < 2 ^ 32
      → sender_id (id_packet {W = W} t id) ≡ id
  unfolding id_packet sender_id
  named laws id t word = laws.ntohl-htonl id word

  dispatch-announcement :
      (laws : NetLaws W) (s : Server W) (packet : Packet W) (addr : SockAddr) (id : ℕ)
      → packet ≡ id_packet PacketType.new_primary_announcement id
      → dispatch s packet addr ≡ some (handle_new_primary_announcement s packet addr)
  unfolding id_packet handle_packet
  dispatch-announcement laws s packet addr id e =
      dispatch-type laws s packet addr PacketType.new_primary_announcement (rw e refl)

  announcement-Follows :
      (s : Server W) (packet : Packet W) (addr : SockAddr) (id : ℕ)
      → sender_id packet ≡ id
      → id ≢ s.server_id
      → Follows s addr (handle_new_primary_announcement s packet addr)
  unfolding handle_new_primary_announcement follow_primary
  announcement-Follows s packet addr id e other = ground arith

  -- A server takes the announcement of another one, which comes late.
  module _ (laws : NetLaws W) (sys : System W) (i j port : ℕ) (from : Server W)
      (h : HasAnnounced j from sys.sent) where
    abbrev pub reaction : Reaction W
    reaction =
        handle_new_primary_announcement (sys.servers i)
          (id_packet PacketType.new_primary_announcement from.server_id)
          (record { sin_addr = j; sin_port = port })

    hears : Step sys (react i reaction sys)
    unfolding broadcast_addr
    hears =
        receive i
          (record {
            from = j;
            packet = id_packet PacketType.new_primary_announcement from.server_id;
            to = h.to;
          })
          port reaction h.among (inr h.to_all)
          (dispatch-announcement laws (sys.servers i) _ _ from.server_id refl)

    hears-Follows :
        from.server_id < 2 ^ 32
        → from.server_id ≢ (sys.servers i).server_id
        → Follows (sys.servers i) (record { sin_addr = j; sin_port = port }) reaction
    hears-Follows word other =
        announcement-Follows (sys.servers i) _ _ from.server_id
          (named laws from.server_id PacketType.new_primary_announcement word) other

  HasAnnounced-after :
      (i : ℕ) (s : Server W) (before sent : List (Message W))
      → HasAnnounced i s sent
      → HasAnnounced i s (before ++ sent)
  HasAnnounced-after i s before sent h = record {
    to = h.to;
    to_all = h.to_all;
    among = append_right before h.among;
  }

  react-threads :
      (sys : System W) (i k : ℕ) (r : Reaction W)
      → r.threads ≡ []
      → (react i r sys).threads k ≡ sys.threads k
  react-threads sys i k r e = elim (Bool-cases (i == k)) [
    | inl self ↦ rw (self, e) (append-nil (sys.threads i) ∙ ap sys.threads (equal i k self))
    | inr other ↦ rw other refl
  ]

  -- The servers at two addresses have handled an announcement of each other.
  module _ (laws : NetLaws W) (sys : System W) (i j : ℕ)
      (hi : HasAnnounced i (sys.servers i) sys.sent)
      (hj : HasAnnounced j (sys.servers j) sys.sent) where
    abbrev reaction_i : Reaction W
    reaction_i = reaction laws sys i j 0 (sys.servers j) hj

    abbrev first : System W
    first = react i reaction_i sys

    late : HasAnnounced i (sys.servers i) first.sent
    late = HasAnnounced-after i (sys.servers i) _ sys.sent hi

    abbrev reaction_j : Reaction W
    reaction_j = reaction laws first j i 0 (sys.servers i) late

    abbrev second : System W
    second = react j reaction_j first

    second-Reaches : Reaches sys second
    second-Reaches =
        step first second (step sys first here (hears laws sys i j 0 (sys.servers j) hj))
          (hears laws first j i 0 (sys.servers i) late)

    module _ (words : (k : ℕ) → (sys.servers k).server_id < 2 ^ 32)
        (rivals : (sys.servers i).server_id ≢ (sys.servers j).server_id) where
      elsewhere : i ≢ j
      elsewhere e = rivals (ap (λ k. (sys.servers k).server_id) e)

      first-j : first.servers j ≡ sys.servers j
      first-j = rw (ne→== i j elsewhere) refl

      first_followed : Follows (sys.servers i) (record { sin_addr = j; sin_port = 0 }) reaction_i
      first_followed =
          hears-Follows laws sys i j 0 (sys.servers j) hj (words j) (λ e. rivals (sym e))

      second_followed : Follows (first.servers j) (record { sin_addr = i; sin_port = 0 }) reaction_j
      second_followed =
          hears-Follows laws first j i 0 (sys.servers i) late (words i)
            (λ e. rivals (e ∙ ap (λ (s : Server W). s.server_id) first-j))

      backup-i : (second.servers i).current_role ≡ ServerRole.backup
      backup-i = rw (ne→== j i (λ e. elsewhere (sym e)), ==_refl i) first_followed.role

      backup-j : (second.servers j).current_role ≡ ServerRole.backup
      backup-j = rw (==_refl j) second_followed.role

      follows-i : ((second.servers i).primary_server_addr).sin_addr ≡ j
      follows-i =
          rw (ne→== j i (λ e. elsewhere (sym e)), ==_refl i)
            (ap (λ (a : SockAddr). a.sin_addr) first_followed.primary)

      follows-j : ((second.servers j).primary_server_addr).sin_addr ≡ i
      follows-j = rw (==_refl j) (ap (λ (a : SockAddr). a.sin_addr) second_followed.primary)

      second-threads : (k : ℕ) → second.threads k ≡ sys.threads k
      second-threads k =
          react-threads first j k reaction_j second_followed.no_threads
          ∙ react-threads sys i k reaction_i first_followed.no_threads

  -- What two primaries make of each other.
  pub record GivenUp (i j : ℕ) (sys t : System W) : Type 0 where
    pub first_role : (t.servers i).current_role ≡ ServerRole.backup
    pub second_role : (t.servers j).current_role ≡ ServerRole.backup
    pub first_follows : ((t.servers i).primary_server_addr).sin_addr ≡ j
    pub second_follows : ((t.servers j).primary_server_addr).sin_addr ≡ i
    pub others : (k : ℕ) → (i == k) ≡ false → (j == k) ≡ false → t.servers k ≡ sys.servers k
    pub threads : (k : ℕ) → t.threads k ≡ sys.threads k
    pub first_duty : IsDuty ServerRole.primary (duties (t.threads i))
    pub second_duty : IsDuty ServerRole.primary (duties (t.threads j))

  -- Any number of servers with ids below 2 ^ 32 start, fail, start again, run the stages of their
  -- threads and handle packets of clients and of each other in any order; what one sends to
  -- another or to all may come late, more than once, out of order or never. From every state that
  -- is reached in which two servers with different ids are primary, further steps lead to a state
  -- in which both are backups, each follows the other as its primary, and no other server has
  -- changed. Every server has the same stages of threads left as before, and to each of the two,
  -- requests aside, at most one is left, of a thread that sends heartbeats: none that watches a
  -- primary or starts an election.
  pub Reaches-both_follow :
      (laws : NetLaws W) (start sys : System W)
      → Begins start
      → ((k : ℕ) → (start.servers k).server_id < 2 ^ 32)
      → Reaches start sys
      → (i j : ℕ) → (sys.servers i).current_role ≡ ServerRole.primary
      → (sys.servers j).current_role ≡ ServerRole.primary
      → (sys.servers i).server_id ≢ (sys.servers j).server_id
      → (t : System W) × Reaches sys t × GivenUp i j sys t
  Reaches-both_follow laws start sys b words r i j leads_i leads_j rivals =
      let hi = Reaches-HasAnnounced laws start sys b words r i leads_i in
      let hj = Reaches-HasAnnounced laws start sys b words r j leads_j in
      let words' = (Reaches-IsFairPlay laws start sys b words r).words in
      let kept = second-threads laws sys i j hi hj words' rivals in
      (
        second laws sys i j hi hj,
        second-Reaches laws sys i j hi hj,
        record {
          first_role = backup-i laws sys i j hi hj words' rivals;
          second_role = backup-j laws sys i j hi hj words' rivals;
          first_follows = follows-i laws sys i j hi hj words' rivals;
          second_follows = follows-j laws sys i j hi hj words' rivals;
          others = λ k not_i not_j. rw (not_j, not_i) refl;
          threads = kept;
          first_duty = sends (second laws sys i j hi hj) i leads_i (kept i);
          second_duty = sends (second laws sys i j hi hj) j leads_j (kept j);
        },
      )
    where
      sends :
          (t : System W) (k : ℕ)
          → (sys.servers k).current_role ≡ ServerRole.primary
          → t.threads k ≡ sys.threads k
          → IsDuty ServerRole.primary (duties (t.threads k))
      sends t k leads same = rw (same, ← leads) (Reaches-IsDuty laws start sys b r k)
