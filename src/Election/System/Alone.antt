-- ===== src/Election/System/Alone.antt =====
-- Each server has one duty at most, in every state of a network of servers.
use mathlib.Core.List.{append-nil}
use sis_op_ii.Common.{
  ℕ, ◌≡◌, sym, ◌∙◌, inl, inr, true, false, some, List, [], ◌∷◌, ◌++◌, Text, arith, ◌==◌, Bool-cases,
  OnSome-some,
}
use sis_op_ii.Protocol.{ServerRole, Packet, SockAddr}
use sis_op_ii.Platform.{Platform, NetLaws}
use sis_op_ii.Server.State.{Server, construct}
use sis_op_ii.Server.Election.{Thread, Reaction, init_backup, init_primary}
use sis_op_ii.Server.Dispatch.{dispatch, choose_role, run_thread}
use sis_op_ii.Election.Window.{dispatch-Flags, type_of}
use sis_op_ii.Election.System.{
  System, react, set_threads, Step, receive, receive_client, run, restart, Begins, Reaches, here,
  step,
}
use sis_op_ii.Election.System.Announced.{kept_role}
use sis_op_ii.Election.System.Duties.{
  role-cases, duties, IsDuty, duties-append, IsDuty-backup, IsDuty-alone, Hands, run_thread-OnSome,
  handle_packet-OnSome,
}

==_refl : (i : ℕ) → (i == i) ≡ true
==_refl i = ground arith

module _ {W : Type 0} ⦃p : Platform W⦄ where
  AllDuties : System W → Type 0
  AllDuties sys = (i : ℕ) → IsDuty (sys.servers i).current_role (duties (sys.threads i))

  react-AllDuties :
      (sys : System W) (i : ℕ) (r : Reaction W)
      → ((j : ℕ) → (i == j) ≡ false → IsDuty (sys.servers j).current_role (duties (sys.threads j)))
      → IsDuty r.server.current_role (duties (sys.threads i ++ r.threads))
      → AllDuties (react i r sys)
  unfolding AllDuties
  react-AllDuties sys i r inv h =
      λ j. elim (Bool-cases (i == j)) [ inl self ↦ rw self h | inr other ↦ rw other (inv j other) ]

  set_threads-AllDuties :
      (sys : System W) (i : ℕ) (threads : List (Thread W)) (r : Reaction W)
      → AllDuties sys
      → IsDuty r.server.current_role (duties (threads ++ r.threads))
      → AllDuties (react i r (set_threads i threads sys))
  unfolding AllDuties
  set_threads-AllDuties sys i threads r inv h =
      react-AllDuties (set_threads i threads sys) i r (λ j other. rw other (inv j))
        (rw (==_refl i) h)

  -- No new duty, and no server becomes primary.
  stays-IsDuty :
      (s s' : Server W) (ts us : List (Thread W))
      → (s.current_role ≡ ServerRole.backup → s'.current_role ≡ ServerRole.backup)
      → duties us ≡ []
      → IsDuty s.current_role (duties ts)
      → IsDuty s'.current_role (duties (ts ++ us))
  stays-IsDuty s s' ts us stays none_new h =
      rw (duties-append ts us, none_new, append-nil (duties ts))
        (elim (role-cases s'.current_role) [
          | inl leads ↦ rw (leads ∙ sym (kept_role s s' stays leads)) h
          | inr follows ↦ rw follows (IsDuty-backup s.current_role (duties ts) h)
        ])

  run-IsDuty :
      (t : Thread W) (s : Server W) (r : Reaction W) (before after : List (Thread W))
      → Hands t s r
      → IsDuty s.current_role (duties (before ++ (t ∷ after)))
      → IsDuty r.server.current_role (duties ((before ++ after) ++ r.threads))
  unfolding Hands duties
  run-IsDuty (Thread.transaction packet addr) s r before after (nothing_new, same) h =
      rw
        (
          same,
          nothing_new,
          duties-append (before ++ after) [],
          append-nil (duties (before ++ after)),
          duties-append before after,
        )
        (rw (duties-append before (Thread.transaction packet addr ∷ after)) at h)
  run-IsDuty t s r before after hands h =
      let (first, last, alone) =
        IsDuty-alone s.current_role (duties before) (duties after) t
          (rw (duties-append before (t ∷ after)) at h) in
      rw (duties-append (before ++ after) r.threads, duties-append before after, first, last)
        (hands alone)

  dispatch-AllDuties :
      (sys : System W) (i : ℕ) (packet : Packet W) (addr : SockAddr) (r : Reaction W)
      → dispatch (sys.servers i) packet addr ≡ some r
      → AllDuties sys
      → AllDuties (react i r sys)
  unfolding AllDuties dispatch
  dispatch-AllDuties sys i packet addr r done inv =
      react-AllDuties sys i r (λ j other. inv j)
        (stays-IsDuty (sys.servers i) r.server (sys.threads i) r.threads
          (dispatch-Flags (sys.servers i) packet addr r done).backup
          (OnSome-some _ (dispatch (sys.servers i) packet addr) r
            (handle_packet-OnSome (sys.servers i) (type_of packet) packet addr) done)
          (inv i))

  choose_role-IsDuty :
      (s : Server W) (port : ℕ) (primary_ip : Text)
      → let r = choose_role s primary_ip port in
        IsDuty r.server.current_role (duties ([] ++ r.threads))
  unfolding duties choose_role init_primary init_backup
  choose_role-IsDuty s port [] = tt
  choose_role-IsDuty s port (c ∷ primary_ip) = tt

  Step-AllDuties : (laws : NetLaws W) (s t : System W) → Step s t → AllDuties s → AllDuties t
  unfolding AllDuties
  Step-AllDuties laws sys _ (receive i m port r at to done) inv =
      dispatch-AllDuties sys i m.packet (record { sin_addr = m.from; sin_port = port }) r done inv
  Step-AllDuties laws sys _ (receive_client i packet addr r other done) inv =
      dispatch-AllDuties sys i packet addr r done inv
  Step-AllDuties laws sys _ (run i before after t r pending done) inv =
      set_threads-AllDuties sys i (before ++ after) r inv (
        run-IsDuty t (sys.servers i) r before after
          (OnSome-some (Hands t (sys.servers i)) (run_thread t (sys.servers i)) r
            (run_thread-OnSome laws t (sys.servers i)) done)
          (rw pending at (inv i)))
  Step-AllDuties laws sys _ (restart i port role addr alive primary_ip) inv =
      set_threads-AllDuties sys i []
        (choose_role (construct port (sys.servers i).server_id role addr alive) primary_ip port) inv
        (choose_role-IsDuty (construct port (sys.servers i).server_id role addr alive) port
          primary_ip)

  -- Any number of servers start, fail, start again, run the stages of their threads and handle
  -- packets of clients and of each other in any order; what one sends to another or to all may
  -- come late, more than once, out of order or never. In every state that is reached, the stages
  -- that are left to a server, those of requests aside, are none or one, and if the server is
  -- primary, this one is of a thread that sends heartbeats.
  pub Reaches-IsDuty :
      (laws : NetLaws W) (start sys : System W)
      → Begins start
      → Reaches start sys
      → (i : ℕ) → IsDuty (sys.servers i).current_role (duties (sys.threads i))
  unfolding AllDuties duties
  Reaches-IsDuty laws start _ b here i = rw (b.no_threads i) tt
  Reaches-IsDuty laws start _ b (step s t r m) i =
      Step-AllDuties laws s t m (Reaches-IsDuty laws start s b r) i
