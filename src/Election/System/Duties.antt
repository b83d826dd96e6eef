-- ===== src/Election/System/Duties.antt =====
-- The threads of a server that are about its role, in every state of a network of servers.
use sis_op_ii.Common.{
  ◌≡◌, refl, ap, ◌⊎◌, inl, inr, Option, some, List, [], ◌∷◌, ◌++◌, arith, Bool-cases, OnSome,
  OnSome-bind, OnSome-then, OnSome-pure,
}
use sis_op_ii.Protocol.{ServerRole, PacketType, is_backup, Packet, SockAddr}
use sis_op_ii.Platform.{Platform, NetLaws}
use sis_op_ii.Server.State.{Server}
use sis_op_ii.Server.Transactions.{handle_transaction_request}
use sis_op_ii.Server.Registration.{handle_state_update, handle_client_update}
use sis_op_ii.Server.Election.{
  Thread, transaction, heartbeat_sender, heartbeat_monitor, monitor_waiting, delayed_election,
  election, election_waiting, Reaction, send_heartbeats, start_election, finish_election,
  promote_to_primary, arm_monitor, end_wait, follow_primary, handle_new_primary_announcement,
}
use sis_op_ii.Server.Dispatch.{handle_packet, run_thread}
use sis_op_ii.Election.System.Handlers.{transaction-OnSome}

pub role-cases : (role : ServerRole) → (role ≡ ServerRole.primary) ⊎ (role ≡ ServerRole.backup)
role-cases ServerRole.primary = inl refl
role-cases ServerRole.backup = inr refl

module _ {W : Type 0} where
  -- All threads but those of requests.
  unfoldable pub duties : List (Thread W) → List (Thread W)
  duties [] = []
  duties (Thread.transaction packet addr ∷ ts) = duties ts
  duties (t ∷ ts) = t ∷ duties ts

  -- At most one, and that of a primary sends heartbeats.
  abbrev pub IsDuty : ServerRole → List (Thread W) → Type 0
  IsDuty role [] = Unit {0}
  IsDuty ServerRole.primary (t ∷ []) = t ≡ Thread.heartbeat_sender
  IsDuty ServerRole.backup (t ∷ []) = Unit {0}
  IsDuty role (t ∷ u ∷ ts) = ⊥

  pub duties-append : (ts us : List (Thread W)) → duties (ts ++ us) ≡ duties ts ++ duties us
  unfolding duties
  duties-append [] us = refl
  duties-append (Thread.transaction packet addr ∷ ts) us = duties-append ts us
  duties-append (t ∷ ts) us = ap (λ rest. t ∷ rest) (duties-append ts us)

  pub IsDuty-backup :
      (role : ServerRole) (ts : List (Thread W)) → IsDuty role ts → IsDuty ServerRole.backup ts
  IsDuty-backup role [] h = tt
  IsDuty-backup ServerRole.primary (t ∷ []) h = tt
  IsDuty-backup ServerRole.backup (t ∷ []) h = tt
  IsDuty-backup role (t ∷ u ∷ ts) h = h

  -- A thread that is alone.
  pub IsDuty-alone :
      (role : ServerRole) (before after : List (Thread W)) (t : Thread W)
      → IsDuty role (before ++ (t ∷ after))
      → (before ≡ []) × (after ≡ []) × IsDuty role (t ∷ [])
  IsDuty-alone role [] [] t h = (refl, refl, h)
  IsDuty-alone role [] (u ∷ after) t h = absurd h
  IsDuty-alone role (u ∷ []) after t h = absurd h
  IsDuty-alone role (u ∷ v ∷ before) after t h = absurd h

module _ {W : Type 0} ⦃p : Platform W⦄ where
  -- What a stage of a thread leaves to run, and the role.
  unfoldable pub Hands : Thread W → Server W → Reaction W → Type 0
  Hands (Thread.transaction packet addr) s r =
      (r.threads ≡ []) × (r.server.current_role ≡ s.current_role)
  Hands t s r = IsDuty s.current_role (t ∷ []) → IsDuty r.server.current_role (duties r.threads)

  pub run_thread-OnSome :
      (laws : NetLaws W) (t : Thread W) (s : Server W) → OnSome (Hands t s) (run_thread t s)
  unfolding Hands duties run_thread send_heartbeats arm_monitor end_wait start_election
      finish_election promote_to_primary
  run_thread-OnSome laws (transaction packet addr) s =
      OnSome-bind _ _ (handle_transaction_request s packet addr) _
        (transaction-OnSome laws s.server_id s packet addr)
        λ r (same, honest). OnSome-pure _ _ (refl, same.role)
  run_thread-OnSome laws heartbeat_sender s = OnSome-pure _ _ λ h.
      elim (role-cases s.current_role) [ inl leads ↦ rw leads refl | inr follows ↦ rw follows tt ]
  run_thread-OnSome laws heartbeat_monitor s = OnSome-pure _ _ λ h.
      elim (role-cases s.current_role) [
        | inl leads ↦ absurd (cc (rw leads at h))
        | inr follows ↦ rw follows tt
      ]
  run_thread-OnSome laws monitor_waiting s = OnSome-pure _ _ λ h. elim (role-cases s.current_role) [
    | inl leads ↦ absurd (cc (rw leads at h))
    | inr follows ↦ elim (Bool-cases s.primary_alive) [
      | inl alive ↦ rw (alive, follows) tt
      | inr quiet ↦ rw (quiet, follows) tt
    ]
  ]
  run_thread-OnSome laws delayed_election s = OnSome-pure _ _ λ h.
      elim (role-cases s.current_role) [
        | inl leads ↦ absurd (cc (rw leads at h))
        | inr follows ↦ rw follows tt
      ]
  run_thread-OnSome laws election s = OnSome-pure _ _ λ h. elim (role-cases s.current_role) [
    | inl leads ↦ absurd (cc (rw leads at h))
    | inr follows ↦ rw follows tt
  ]
  run_thread-OnSome laws election_waiting s = OnSome-pure _ _ λ h.
      elim (role-cases s.current_role) [
        | inl leads ↦ absurd (cc (rw leads at h))
        | inr follows ↦ elim (Bool-cases s.election_lost) [
          | inl lost ↦ rw (lost, follows) tt
          | inr kept ↦ rw (kept, follows) refl
        ]
      ]

  pub handle_packet-OnSome :
      (s : Server W) (t : Option PacketType) (packet : Packet W) (addr : SockAddr)
      → OnSome (λ r. duties r.threads ≡ []) (handle_packet s t packet addr)
  unfolding duties handle_packet handle_new_primary_announcement follow_primary
  handle_packet-OnSome s (some PacketType.transaction_req) packet addr =
      OnSome-pure _ _ (ground arith)
  handle_packet-OnSome s (some PacketType.register_backup) packet addr =
      OnSome-pure _ _ (ground arith)
  handle_packet-OnSome s (some PacketType.new_primary_announcement) packet addr =
      OnSome-pure _ _ (ground arith)
  handle_packet-OnSome s (some PacketType.add_client_update) packet addr =
      elim (Bool-cases (is_backup s.current_role)) [
        | inl follows ↦
            rw follows (OnSome-then _ (handle_client_update s packet) _ λ s'. OnSome-pure _ _ refl)
        | inr leads ↦ rw leads (OnSome-pure _ _ refl)
      ]
  handle_packet-OnSome s (some PacketType.state_update) packet addr =
      elim (Bool-cases (is_backup s.current_role)) [
        | inl follows ↦
            rw follows (OnSome-then _ (handle_state_update s packet) _ λ s'. OnSome-pure _ _ refl)
        | inr leads ↦ rw leads (OnSome-pure _ _ refl)
      ]
  handle_packet-OnSome s _ packet addr = OnSome-pure _ _ refl
