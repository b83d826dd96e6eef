-- ===== src/Sockets/Opening.antt =====
-- The descriptor of the socket that Server::init opens.
use sis_op_ii.Common.{◌+◌, ◌≡◌, Option, none, some, List, arith, if◌then◌else◌}
use sis_op_ii.Common.Int.{ℤ}
use sis_op_ii.Platform.{Platform}
use sis_op_ii.Sockets.{Call, is_negative, closes}
use sis_op_ii.Sockets.ServerUdp.{
  ServerUdp, create_socket, configure_broadcast, set_up_server_address, bind_socket, open_server,
}

module _ (W : Type 0) ⦃p : Platform W⦄ where
  -- Server::init throws exactly if no socket is created. Otherwise it goes on with the socket's
  -- descriptor and with any address at its port, after it has closed this descriptor once for each
  -- of setsockopt and bind that failed.
  pub open_server-closes :
      (fd set bound : ℤ) (u : ServerUdp)
      → let (calls, opened) : List (Call W) × Option ServerUdp = open_server fd set bound u in
        (closes calls ≡ (
          if is_negative fd
          then 0
          else (if is_negative set then 1 else 0) + (if is_negative bound then 1 else 0)))
        × (opened ≡ (
            if is_negative fd
            then none
            else some (record {
              sockfd = fd;
              server_addr = record { sin_addr = 0; sin_port = p.htons u.port };
              port = u.port;
            })))
  unfolding open_server create_socket configure_broadcast set_up_server_address bind_socket
  open_server-closes fd set bound u = (ground arith, ground arith)
