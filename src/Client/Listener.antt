-- ===== src/Client/Listener.antt =====
-- The thread of Client::listenForAnnouncements with its socket (T1/client/Client.cpp).
use sis_op_ii.Common.{
  suc, ◌≡◌, refl, inl, inr, ◌||◌, List, [], ◌∷◌, ◌++◌, arith, if◌then◌else◌, Bool-cases,
}
use sis_op_ii.Common.Int.{ℤ}
use sis_op_ii.Protocol.{SockAddr}
use sis_op_ii.Platform.{Platform}
use sis_op_ii.Server.Init.Loop.{packets_of}
use sis_op_ii.Sockets.{Call, Received, is_negative, is_positive, closes}
use sis_op_ii.Client.{Client, listen_for_announcement, listen_all}

module _ {W : Type 0} ⦃p : Platform W⦄ where
  -- The loop on an open socket, with what recvfrom brings until `running` is false.
  unfoldable pub listen_loop : ℤ → Client → List (Received W) → List (Call W) × Client
  listen_loop fd c [] = ([], c)
  listen_loop fd c (received ∷ later) =
      let heard =
        if is_positive received.n
        then listen_for_announcement c received.packet received.sender
        else c in
      let (calls, c') = listen_loop fd heard later in (Call.receive_from fd ∷ calls, c')

  -- `fd`, `set` and `bound` are what socket, setsockopt and bind return. INADDR_ANY is 0.
  unfoldable pub listen_for_announcements :
      ℤ → ℤ → ℤ → Client → List (Received W) → List (Call W) × Client
  unfolding listen_loop
  listen_for_announcements fd set bound c received =
      let addr : SockAddr = record { sin_addr = 0; sin_port = p.htons c.port } in
      let (calls, c') = listen_loop fd c received in
      if is_negative fd
      then (Call.socket ∷ [], c)
      else if is_negative set
      then (Call.socket ∷ Call.set_reuse_addr fd ∷ Call.close fd ∷ [], c)
      else if is_negative bound
      then (Call.socket ∷ Call.set_reuse_addr fd ∷ Call.bind fd addr ∷ Call.close fd ∷ [], c)
      else (
        Call.socket ∷ Call.set_reuse_addr fd ∷ Call.bind fd addr ∷ (calls ++ Call.close fd ∷ []),
        c',
      )

  closes-append_close :
      (fd : ℤ) (calls : List (Call W)) → closes (calls ++ Call.close fd ∷ []) ≡ suc (closes calls)
  closes-append_close fd [] = refl
  closes-append_close fd (call ∷ calls) = ground (arith, closes-append_close fd calls)

  listen_loop-closes :
      (fd : ℤ) (received : List (Received W)) (c : Client)
      → closes (listen_loop fd c received).0 ≡ 0
  unfolding listen_loop
  listen_loop-closes fd [] c = refl
  listen_loop-closes fd (received ∷ later) c = listen_loop-closes fd later _

  listen_loop-listen_all :
      (fd : ℤ) (received : List (Received W)) (c : Client)
      → (listen_loop fd c received).1 ≡ listen_all c (packets_of received)
  unfolding listen_loop listen_all
  listen_loop-listen_all fd [] c = refl
  listen_loop-listen_all fd (received ∷ later) c = elim (Bool-cases (is_positive received.n)) [
    | inl some_bytes ↦ rw some_bytes (listen_loop-listen_all fd later _)
    | inr nothing ↦ rw nothing (listen_loop-listen_all fd later c)
  ]

  -- The thread of listenForAnnouncements closes its descriptor never if socket fails, and
  -- otherwise once on every path. If socket, setsockopt or bind fails it leaves the client as it
  -- is; otherwise the client is that of handling the packets of more than no bytes, in their
  -- order.
  pub listen_for_announcements-closes :
      (fd set bound : ℤ) (c : Client) (received : List (Received W))
      → let (calls, c') = listen_for_announcements fd set bound c received in
        (closes calls ≡ (if is_negative fd then 0 else 1))
        × (c' ≡ (
            if is_negative fd || (is_negative set || is_negative bound)
            then c
            else listen_all c (packets_of received)))
  unfolding listen_for_announcements
  listen_for_announcements-closes fd set bound c received = (
    ground (
      arith,
      closes-append_close fd (listen_loop fd c received).0,
      listen_loop-closes fd received c,
    ),
    ground (arith, listen_loop-listen_all fd received c),
  )
