-- ===== src/Election/System/Beaten.antt =====
-- A server gives an election up only for a reason, in every state of a network of servers.
use mathlib.Core.List.{Memᴰ}
use mathlib.Core.List.Memᴰ.{head, tail, append_right, append_cases, not-nil}
use sis_op_ii.Common.{
  ℕ, ◌^◌, ◌<◌, ◌≤◌, ◌≡◌, ◌≢◌, refl, subst, ◌∙◌, inl, inr, Bool, true, false, some, List, [], ◌∷◌,
  ◌++◌, arith, ◌==◌, Bool-cases,
}
use sis_op_ii.Protocol.{ServerRole, PacketType}
use sis_op_ii.Platform.{Platform, NetLaws}
use sis_op_ii.Server.State.{Server, Send}
use sis_op_ii.Server.Election.{Thread, Reaction, finish_election}
use sis_op_ii.Election.Outcome.{Ends, finish_election-Ends}
use sis_op_ii.Election.Window.{beats_as, type_of}
use sis_op_ii.Election.System.{
  Message, System, update, messages, Step, receive, receive_client, run, restart, Begins, Reaches,
  here, step,
}
use sis_op_ii.Election.System.Honest.{IsHonest, AreHonest, beats-vote}
use sis_op_ii.Election.System.Stages.{
  IsFair, dispatch-IsFair, run_thread-IsFair, choose_role-IsFair,
}

module _ {W : Type 0} ⦃p : Platform W⦄ where
  -- A packet on the network beats a server with this id.
  abbrev pub IsBeaten : ℕ → List (Message W) → Type 0
  IsBeaten id sent =
      (m : Message W) × Memᴰ m sent × (beats_as (type_of m.packet) id m.packet ≡ true)

  -- Each packet comes from a server that may send it, the ids are words, and a server that has lost
  -- an election was beaten.
  pub record IsFairPlay (sys : System W) : Type 0 where
    pub honest :
        (m : Message W) → Memᴰ m sys.sent → IsHonest (sys.servers m.from).server_id m.packet
    pub words : (i : ℕ) → (sys.servers i).server_id < 2 ^ 32
    pub beaten :
        (i : ℕ)
        → (sys.servers i).election_in_progress ≡ true
        → (sys.servers i).election_lost ≡ true
        → IsBeaten (sys.servers i).server_id sys.sent

  messages-IsHonest :
      (i id : ℕ) (sent : List (Send W)) (m : Message W)
      → AreHonest id sent
      → Memᴰ m (messages i sent)
      → (m.from ≡ i) × IsHonest id m.packet
  messages-IsHonest i id [] m h at = elim at [ ]
  messages-IsHonest i id ((packet, to) ∷ sent) m (h, hs) (head e) = (rw e refl, rw e h)
  messages-IsHonest i id ((packet, to) ∷ sent) m (h, hs) (tail at) =
      messages-IsHonest i id sent m hs at

  update-id :
      (servers : ℕ → Server W) (i j : ℕ) (s : Server W)
      → s.server_id ≡ (servers i).server_id
      → (update servers i s j).server_id ≡ (servers j).server_id
  update-id servers i j s e = ground arith

  IsBeaten-later :
      (id : ℕ) (before sent : List (Message W)) → IsBeaten id sent → IsBeaten id (before ++ sent)
  IsBeaten-later id before sent (m, at, beats) = (m, append_right before at, beats)

  -- A fair reaction of a server in a fair state.
  react-IsFairPlay :
      (sys : System W) (i : ℕ) (threads : ℕ → List (Thread W)) (s : Server W) (r : Reaction W)
      (beaten : Bool)
      → IsFairPlay sys
      → s.server_id ≡ (sys.servers i).server_id
      → (s.election_in_progress ≡ true → s.election_lost ≡ true → IsBeaten s.server_id sys.sent)
      → IsFair beaten s r
      → (beaten ≡ true → IsBeaten s.server_id sys.sent)
      → IsFairPlay (record {
        servers = update sys.servers i r.server;
        threads = threads;
        sent = messages i r.sent ++ sys.sent;
      })
  react-IsFairPlay sys i threads s r beaten inv same already fair reason = record {
    honest = λ m at. elim (append_cases (messages i r.sent) at) [
      | inl new ↦
          let (from, h) = messages-IsHonest i s.server_id r.sent m fair.honest new in
          rw (keeps m.from, from, ← same) h
      | inr old ↦ rw (keeps m.from) (inv.honest m old)
    ];
    words = λ j. rw (keeps j) (inv.words j);
    beaten = λ j running lost. elim (Bool-cases (i == j)) [
      | inl self ↦ rw self (
          rw fair.id (
            IsBeaten-later s.server_id (messages i r.sent) sys.sent
              (because (rw self at running) (rw self at lost))))
      | inr other ↦ rw other (
          IsBeaten-later (sys.servers j).server_id (messages i r.sent) sys.sent
            (inv.beaten j (rw other at running) (rw other at lost)))
    ];
  }
    where
      keeps : (j : ℕ) → (update sys.servers i r.server j).server_id ≡ (sys.servers j).server_id
      keeps j = update-id sys.servers i j r.server (fair.id ∙ same)

      because :
          r.server.election_in_progress ≡ true
          → r.server.election_lost ≡ true
          → IsBeaten s.server_id sys.sent
      because running lost = elim (fair.lost running lost) [
        | inl (ran, gave_up) ↦ already ran gave_up
        | inr beats ↦ reason beats
      ]

  Step-IsFairPlay : (laws : NetLaws W) (s t : System W) → Step s t → IsFairPlay s → IsFairPlay t
  Step-IsFairPlay laws sys _ (receive i m port r at to done) inv =
      react-IsFairPlay sys i _ (sys.servers i) r _ inv refl (inv.beaten i)
        (dispatch-IsFair laws (sys.servers i) m.packet _ r (inv.words i) done)
        λ beats. (m, at, beats)
  Step-IsFairPlay laws sys _ (receive_client i packet addr r other done) inv =
      react-IsFairPlay sys i _ (sys.servers i) r _ inv refl (inv.beaten i)
        (dispatch-IsFair laws (sys.servers i) packet addr r (inv.words i) done)
        λ beats. absurd (cc (beats, beats-vote _ _ packet other))
  Step-IsFairPlay laws sys _ (run i before after t r pending done) inv =
      react-IsFairPlay sys i _ (sys.servers i) r false inv refl (inv.beaten i)
        (run_thread-IsFair laws t (sys.servers i) r (inv.words i) done) λ beats. absurd (cc beats)
  Step-IsFairPlay laws sys _ (restart i port role addr alive primary_ip) inv =
      react-IsFairPlay sys i _ (sys.servers i) _ false inv refl (inv.beaten i)
        (choose_role-IsFair laws (sys.servers i) port role addr alive primary_ip)
        λ beats. absurd (cc beats)

  pub Reaches-IsFairPlay :
      (laws : NetLaws W) (start sys : System W)
      → Begins start
      → ((i : ℕ) → (start.servers i).server_id < 2 ^ 32)
      → Reaches start sys
      → IsFairPlay sys
  Reaches-IsFairPlay laws start _ b words here = record {
    honest = λ m at. absurd (not-nil (rw b.none_sent at at));
    words = words;
    beaten = λ i running lost. absurd (cc (running, b.no_election i));
  }
  Reaches-IsFairPlay laws start _ b words (step s t r m) =
      Step-IsFairPlay laws s t m (Reaches-IsFairPlay laws start s b words r)

  -- Why a server with this id may give up: a server has announced that it is the primary, or one
  -- with a higher id has answered, or is a candidate.
  pub data Reason (sys : System W) (id : ℕ) : Type 0 where
    announced :
        (m : Message W)
        → Memᴰ m sys.sent
        → type_of m.packet ≡ some PacketType.new_primary_announcement
        → Reason sys id
    outranked :
        (m : Message W)
        → Memᴰ m sys.sent
        → beats_as (type_of m.packet) id m.packet ≡ true
        → id < (sys.servers m.from).server_id
        → Reason sys id

  -- Any number of servers with ids below 2 ^ 32 start, fail, start again, run the stages of their
  -- threads and handle packets of clients and of each other in any order; what one sends to
  -- another or to all may come late, more than once, out of order or never. In every state that is
  -- reached: if a server has lost the election that it has in progress, then some server has sent
  -- a NEW_PRIMARY_ANNOUNCEMENT, or a server with a higher id has sent an ELECTION or
  -- ELECTION_ANSWER packet with an id above its own.
  pub Reaches-Reason :
      (laws : NetLaws W) (start sys : System W)
      → Begins start
      → ((i : ℕ) → (start.servers i).server_id < 2 ^ 32)
      → Reaches start sys
      → (i : ℕ) → (sys.servers i).election_in_progress ≡ true
      → (sys.servers i).election_lost ≡ true
      → Reason sys (sys.servers i).server_id
  Reaches-Reason laws start sys b words r i running lost =
      let inv = Reaches-IsFairPlay laws start sys b words r in
      let (m, at, beats) = inv.beaten i running lost in
      elim (inv.honest m at (sys.servers i).server_id beats) [
        | inl announces ↦ announced m at announces
        | inr less ↦ outranked m at beats less
      ]

  -- Any number of servers with ids below 2 ^ 32 start, fail, start again, run the stages of their
  -- threads and handle packets of clients and of each other in any order; what one sends to
  -- another or to all may come late, more than once, out of order or never. In every state that is
  -- reached: if a server has an election in progress as a backup, no other server has a higher id,
  -- and no NEW_PRIMARY_ANNOUNCEMENT has been sent, then the end of its election makes it primary,
  -- with an empty list of backups; it broadcasts the announcement and starts its heartbeats.
  pub Reaches-highest :
      (laws : NetLaws W) (start sys : System W)
      → Begins start
      → ((i : ℕ) → (start.servers i).server_id < 2 ^ 32)
      → Reaches start sys
      → (i : ℕ) → ((j : ℕ) → (sys.servers j).server_id ≤ (sys.servers i).server_id)
      → ((m : Message W)
          → Memᴰ m sys.sent
          → type_of m.packet ≢ some PacketType.new_primary_announcement)
      → (sys.servers i).election_in_progress ≡ true
      → (sys.servers i).current_role ≡ ServerRole.backup
      → Ends false (sys.servers i) (finish_election (sys.servers i))
  Reaches-highest laws start sys b words r i highest unannounced running backup =
      elim (Bool-cases (sys.servers i).election_lost) [
        | inl lost ↦ elim (Reaches-Reason laws start sys b words r i running lost) [
          | announced m at announces ↦ absurd (unannounced m at announces)
          | outranked m at beats less ↦ absurd (omega (arith, highest m.from))
        ]
        | inr kept ↦
            subst (λ beaten. Ends beaten (sys.servers i) (finish_election (sys.servers i))) kept
              (finish_election-Ends (sys.servers i) backup)
      ]
