-- ===== src/Election/System/Announced.antt =====
-- Who is primary has told all others, in every state of a network of servers.
use mathlib.Core.List.{Memᴰ}
use mathlib.Core.List.Memᴰ.{head, append_right}
use sis_op_ii.Common.{
  ℕ, ◌^◌, ◌<◌, ◌≡◌, refl, subst, sym, ◌∙◌, ◌⊎◌, inl, inr, true, some, List, [], ◌∷◌, ◌++◌, Text,
  arith, ◌==◌, Bool-cases, OnSome, OnSome-some, OnSome-bind, OnSome-pure,
}
use sis_op_ii.Protocol.{ServerRole, PacketType, Packet, SockAddr}
use sis_op_ii.Platform.{Platform, NetLaws}
use sis_op_ii.Server.State.{Server, Send}
use sis_op_ii.Server.Transactions.{handle_transaction_request}
use sis_op_ii.Server.Election.{
  Thread, transaction, heartbeat_sender, heartbeat_monitor, monitor_waiting, delayed_election,
  election, election_waiting, Reaction, id_packet, broadcast_addr, send_heartbeats, start_election,
  finish_election, promote_to_primary, announce_new_primary, arm_monitor, end_wait, init_backup,
  init_primary,
}
use sis_op_ii.Server.Dispatch.{dispatch, choose_role, run_thread}
use sis_op_ii.Election.Window.{dispatch-Flags}
use sis_op_ii.Election.System.{
  Message, System, update, messages, Step, receive, receive_client, run, restart, Begins, Reaches,
  here, step,
}
use sis_op_ii.Election.System.Handlers.{transaction-OnSome}
use sis_op_ii.Election.System.Beaten.{Reaches-IsFairPlay}
use sis_op_ii.Election.System.Stages.{dispatch-IsFair, run_thread-IsFair, choose_role-IsFair}

pub equal : (i j : ℕ) → i == j ≡ true → i ≡ j
equal i j e = ground arith

module _ {W : Type 0} ⦃p : Platform W⦄ where
  -- A server becomes primary only with an announcement.
  IsOpen : Server W → Reaction W → Type 0
  IsOpen s r =
      r.server.current_role ≡ ServerRole.primary
      → (s.current_role ≡ ServerRole.primary) ⊎ (r.sent ≡ announce_new_primary s)

  pub kept_role :
      (s s' : Server W)
      → (s.current_role ≡ ServerRole.backup → s'.current_role ≡ ServerRole.backup)
      → s'.current_role ≡ ServerRole.primary
      → s.current_role ≡ ServerRole.primary
  kept_role s s' h e = ground arith

  dispatch-IsOpen :
      (s : Server W) (packet : Packet W) (addr : SockAddr) (r : Reaction W)
      → dispatch s packet addr ≡ some r
      → IsOpen s r
  unfolding IsOpen
  dispatch-IsOpen s packet addr r e =
      λ leads. inl (kept_role s r.server (dispatch-Flags s packet addr r e).backup leads)

  finish_election-IsOpen : (s : Server W) → IsOpen s (finish_election s)
  unfolding IsOpen finish_election promote_to_primary announce_new_primary broadcast_addr
  finish_election-IsOpen s = ground arith

  run_thread-OnSome :
      (laws : NetLaws W) (t : Thread W) (s : Server W) → OnSome (IsOpen s) (run_thread t s)
  unfolding IsOpen run_thread send_heartbeats arm_monitor end_wait start_election
  run_thread-OnSome laws (transaction packet addr) s =
      OnSome-bind _ _ (handle_transaction_request s packet addr) _
        (transaction-OnSome laws s.server_id s packet addr)
        λ r (same, honest). OnSome-pure _ _ λ leads. inl (sym same.role ∙ leads)
  run_thread-OnSome laws heartbeat_sender s = OnSome-pure _ _ (ground arith)
  run_thread-OnSome laws heartbeat_monitor s = OnSome-pure _ _ (ground arith)
  run_thread-OnSome laws monitor_waiting s = OnSome-pure _ _ (ground arith)
  run_thread-OnSome laws delayed_election s = OnSome-pure _ _ (ground arith)
  run_thread-OnSome laws election s = OnSome-pure _ _ (ground arith)
  run_thread-OnSome laws election_waiting s = OnSome-pure _ _ (finish_election-IsOpen s)

  choose_role-IsOpen :
      (s s' : Server W) (port : ℕ) (primary_ip : Text) → IsOpen s (choose_role s' primary_ip port)
  unfolding IsOpen choose_role init_primary init_backup
  choose_role-IsOpen s s' port [] = λ leads. absurd (cc leads)
  choose_role-IsOpen s s' port (c ∷ primary_ip) = λ leads. absurd (cc leads)

  -- The announcement of a server at an address, to all.
  pub record HasAnnounced (i : ℕ) (s : Server W) (sent : List (Message W)) : Type 0 where
    pub to : SockAddr
    pub to_all : to.sin_addr ≡ (broadcast_addr s).sin_addr
    pub among :
        Memᴰ
          (record {
            from = i;
            packet = id_packet PacketType.new_primary_announcement s.server_id;
            to = to;
          })
          sent

  AllAnnounced : System W → Type 0
  AllAnnounced sys =
      (i : ℕ)
      → (sys.servers i).current_role ≡ ServerRole.primary
      → HasAnnounced i (sys.servers i) sys.sent

  HasAnnounced-later :
      (i : ℕ) (s s' : Server W) (before sent : List (Message W))
      → s'.server_id ≡ s.server_id
      → HasAnnounced i s sent
      → HasAnnounced i s' (before ++ sent)
  unfolding broadcast_addr
  HasAnnounced-later i s s' before sent e h = record {
    to = h.to;
    to_all = h.to_all;
    among = rw e (append_right before h.among);
  }

  HasAnnounced-now :
      (i : ℕ) (s s' : Server W) (r : List (Send W)) (sent : List (Message W))
      → s'.server_id ≡ s.server_id
      → r ≡ announce_new_primary s
      → HasAnnounced i s' (messages i r ++ sent)
  unfolding broadcast_addr announce_new_primary
  HasAnnounced-now i s s' r sent e says = record {
    to = broadcast_addr s;
    to_all = refl;
    among = rw (says, e) (head refl);
  }

  react-AllAnnounced :
      (sys : System W) (i : ℕ) (threads : ℕ → List (Thread W)) (r : Reaction W)
      → AllAnnounced sys
      → r.server.server_id ≡ (sys.servers i).server_id
      → IsOpen (sys.servers i) r
      → AllAnnounced (record {
        servers = update sys.servers i r.server;
        threads = threads;
        sent = messages i r.sent ++ sys.sent;
      })
  unfolding AllAnnounced IsOpen
  react-AllAnnounced sys i threads r inv same opens = λ j leads. elim (Bool-cases (i == j)) [
    | inl self ↦ rw self (
        subst (λ j. HasAnnounced j r.server (messages i r.sent ++ sys.sent)) (equal i j self)
          (elim (opens (rw self at leads)) [
            | inl led ↦
                HasAnnounced-later i (sys.servers i) r.server (messages i r.sent) sys.sent same
                  (inv i led)
            | inr says ↦ HasAnnounced-now i (sys.servers i) r.server r.sent sys.sent same says
          ]))
    | inr other ↦ rw other (
        HasAnnounced-later j (sys.servers j) (sys.servers j) (messages i r.sent) sys.sent refl
          (inv j (rw other at leads)))
  ]

  Step-AllAnnounced :
      (laws : NetLaws W) (s t : System W)
      → ((i : ℕ) → (s.servers i).server_id < 2 ^ 32)
      → Step s t
      → AllAnnounced s
      → AllAnnounced t
  Step-AllAnnounced laws sys _ words (receive i m port r at to done) inv =
      react-AllAnnounced sys i _ r inv
        (dispatch-IsFair laws (sys.servers i) m.packet _ r (words i) done).id
        (dispatch-IsOpen (sys.servers i) m.packet _ r done)
  Step-AllAnnounced laws sys _ words (receive_client i packet addr r other done) inv =
      react-AllAnnounced sys i _ r inv
        (dispatch-IsFair laws (sys.servers i) packet addr r (words i) done).id
        (dispatch-IsOpen (sys.servers i) packet addr r done)
  Step-AllAnnounced laws sys _ words (run i before after t r pending done) inv =
      react-AllAnnounced sys i _ r inv
        (run_thread-IsFair laws t (sys.servers i) r (words i) done).id
        (OnSome-some _ (run_thread t (sys.servers i)) r (run_thread-OnSome laws t (sys.servers i))
          done)
  Step-AllAnnounced laws sys _ words (restart i port role addr alive primary_ip) inv =
      react-AllAnnounced sys i _ _ inv
        (choose_role-IsFair laws (sys.servers i) port role addr alive primary_ip).id
        (choose_role-IsOpen (sys.servers i) _ port primary_ip)

  -- Any number of servers with ids below 2 ^ 32 start, fail, start again, run the stages of their
  -- threads and handle packets of clients and of each other in any order; what one sends to
  -- another or to all may come late, more than once, out of order or never. In every state that is
  -- reached, each server that is primary has sent a NEW_PRIMARY_ANNOUNCEMENT with its id to the
  -- broadcast address.
  pub Reaches-HasAnnounced :
      (laws : NetLaws W) (start sys : System W)
      → Begins start
      → ((i : ℕ) → (start.servers i).server_id < 2 ^ 32)
      → Reaches start sys
      → (i : ℕ) → (sys.servers i).current_role ≡ ServerRole.primary
      → HasAnnounced i (sys.servers i) sys.sent
  unfolding AllAnnounced
  Reaches-HasAnnounced laws start _ b words here i leads = absurd (cc (leads, b.no_primary i))
  Reaches-HasAnnounced laws start _ b words (step s t r m) i leads =
      Step-AllAnnounced laws s t (Reaches-IsFairPlay laws start s b words r).words m
        (Reaches-HasAnnounced laws start s b words r) i leads
