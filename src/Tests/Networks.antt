-- ===== src/Tests/Networks.antt =====
-- Two servers on a network, with the ids 5 and 6, that start while there is no primary.
use mathlib.Core.List.{Memᴰ}
use mathlib.Core.List.Memᴰ.{head, tail}
use sis_op_ii.Common.{
  ℕ, ◌≢◌, ◌≤◌, ◌^◌, ◌<◌, refl, inr, false, some, [], ◌∷◌, arith, ◌==◌, if◌then◌else◌,
}
use sis_op_ii.Common.Int.{ℤ}
use sis_op_ii.Protocol.{ServerRole, PacketType, packet_code}
use sis_op_ii.Platform.{integers, integers-NetLaws}
use sis_op_ii.Server.State.{Server, construct}
use sis_op_ii.Server.Election.{
  Thread, silent, id_packet, init_primary, start_election, finish_election, promote_to_primary,
  broadcast_addr, handle_election_packet, sender_id,
}
use sis_op_ii.Server.Dispatch.{packet_type_of, dispatch, handle_packet, choose_role, run_thread}
use sis_op_ii.Election.Outcome.{Ends}
use sis_op_ii.Election.Window.{type_of}
use sis_op_ii.Election.System.{
  Message, System, react, set_threads, receive, run, restart, Begins, Reaches, here, step,
}
use sis_op_ii.Election.System.Beaten.{Reason, Reaches-Reason, Reaches-highest}
use sis_op_ii.Election.System.Announced.{HasAnnounced, Reaches-HasAnnounced}
use sis_op_ii.Election.System.Duties.{duties, IsDuty}
use sis_op_ii.Election.System.Alone.{Reaches-IsDuty}
use sis_op_ii.Election.System.SplitBrain.{GivenUp, Reaches-both_follow}
use sis_op_ii.Tests.Data.{host}

abbrev off : ℕ → Server ℤ
off i = construct 4000 (if i == 6 then 6 else 5) ServerRole.backup (host 0) false

abbrev unstarted : System ℤ
unstarted = record { servers = off; threads = λ i. []; sent = [] }

unstarted-Begins : Begins unstarted
unfolding construct
unstarted-Begins = record {
  no_election = λ i. refl;
  no_primary = λ i. refl;
  no_threads = λ i. refl;
  none_sent = refl;
}

unstarted-words : (i : ℕ) → (unstarted.servers i).server_id < 2 ^ 32
unfolding construct
unstarted-words i = ground arith

-- The server at an address starts, and its first thread comes to the sleep of its election.
abbrev booted : ℕ → System ℤ → System ℤ
booted i s =
    react i
      (choose_role (construct 4000 (s.servers i).server_id ServerRole.backup (host 0) false) []
        4000)
      (set_threads i [] s)

abbrev woken : ℕ → System ℤ → System ℤ
woken i s =
    react i (record { server = s.servers i; sent = []; threads = Thread.election ∷ [] })
      (set_threads i [] s)

abbrev running : ℕ → System ℤ → System ℤ
running i s = react i (start_election (s.servers i)) (set_threads i [] s)

abbrev both : System ℤ
both = running 6 (woken 6 (booted 6 (running 5 (woken 5 (booted 5 unstarted)))))

both-Reaches : Reaches unstarted both
unfolding choose_role construct init_primary start_election run_thread
both-Reaches =
    step _ _
      (step _ _
        (step _ _
          (step _ _
            (step _ _ (step _ _ here (restart 5 4000 ServerRole.backup (host 0) false []))
              (run 5 [] [] Thread.delayed_election _ refl refl))
            (run 5 [] [] Thread.election _ refl refl))
          (restart 6 4000 ServerRole.backup (host 0) false []))
        (run 6 [] [] Thread.delayed_election _ refl refl))
      (run 6 [] [] Thread.election _ refl refl)

abbrev challenge : Message ℤ
challenge = record {
  from = 6;
  packet = id_packet PacketType.election 6;
  to = broadcast_addr (both.servers 6);
}

abbrev after : System ℤ
after = react 5 (silent (handle_election_packet (both.servers 5) challenge.packet (host 6)).0) both

after-Reaches : Reaches unstarted after
unfolding choose_role construct init_primary start_election dispatch handle_packet id_packet
    packet_type_of packet_code handle_election_packet sender_id
after-Reaches = step _ _ both-Reaches (receive 5 challenge 4000 _ (head refl) (inr refl) refl)

Reaches-Reason_example : Reason after (after.servers 5).server_id
unfolding choose_role construct init_primary start_election handle_election_packet id_packet
    sender_id
Reaches-Reason_example =
    Reaches-Reason integers-NetLaws unstarted after unstarted-Begins unstarted-words after-Reaches 5
      refl refl

ids : (j : ℕ) → (both.servers j).server_id ≤ (both.servers 6).server_id
unfolding choose_role construct init_primary start_election
ids j = ground arith

unannounced :
    (m : Message ℤ) → Memᴰ m both.sent → type_of m.packet ≢ some PacketType.new_primary_announcement
unfolding choose_role construct init_primary start_election id_packet packet_type_of packet_code
unannounced m (head e) = λ announces. cc (rw e at announces)
unannounced m (tail (head e)) = λ announces. cc (rw e at announces)
unannounced m (tail (tail at)) = elim at [ ]

Reaches-highest_example : Ends false (both.servers 6) (finish_election (both.servers 6))
unfolding choose_role construct init_primary start_election
Reaches-highest_example =
    Reaches-highest integers-NetLaws unstarted both unstarted-Begins unstarted-words both-Reaches 6
      ids unannounced refl refl

-- The server with the higher id wins.
abbrev won : System ℤ
won = react 6 (finish_election (both.servers 6)) (set_threads 6 [] both)

won-Reaches : Reaches unstarted won
unfolding choose_role construct init_primary start_election run_thread
won-Reaches = step _ _ both-Reaches (run 6 [] [] Thread.election_waiting _ refl refl)

Reaches-HasAnnounced_example : HasAnnounced 6 (won.servers 6) won.sent
unfolding choose_role construct init_primary start_election finish_election promote_to_primary
Reaches-HasAnnounced_example =
    Reaches-HasAnnounced integers-NetLaws unstarted won unstarted-Begins unstarted-words won-Reaches
      6 refl

-- Both win, when no packet arrives in time.
abbrev two_primaries : System ℤ
two_primaries = react 5 (finish_election (won.servers 5)) (set_threads 5 [] won)

two_primaries-Reaches : Reaches unstarted two_primaries
unfolding choose_role construct init_primary start_election finish_election promote_to_primary
    run_thread
two_primaries-Reaches = step _ _ won-Reaches (run 5 [] [] Thread.election_waiting _ refl refl)

Reaches-both_follow_example : (t : System ℤ) × Reaches two_primaries t × GivenUp 5 6 two_primaries t
unfolding choose_role construct init_primary start_election finish_election promote_to_primary
Reaches-both_follow_example =
    Reaches-both_follow integers-NetLaws unstarted two_primaries unstarted-Begins unstarted-words
      two_primaries-Reaches 5 6 refl refl (λ e. absurd (omega (arith, e)))

Reaches-IsDuty_example :
    IsDuty (two_primaries.servers 5).current_role (duties (two_primaries.threads 5))
Reaches-IsDuty_example =
    Reaches-IsDuty integers-NetLaws unstarted two_primaries unstarted-Begins two_primaries-Reaches 5
