-- ===== src/Sockets.antt =====
-- The classes ClientUDP and ServerUDP (T1/udp). A method takes what the system calls that it makes
-- return, and says which calls these are.
pub mod ClientUdp
pub mod ServerUdp
pub mod Opening
use sis_op_ii.Common.{
  ℕ, suc, Bool, true, false, ◌&&◌, not, List, [], ◌∷◌, Text, ◌==◌, if◌then◌else◌,
}
use sis_op_ii.Common.Int.{ℤ, pos, negsuc, ltb_ℤ}
use sis_op_ii.Protocol.{Packet, SockAddr}

-- The system calls, on a descriptor: SO_BROADCAST, SO_REUSEADDR and SO_RCVTIMEO are options of
-- setsockopt.
pub data Call (W : Type 0) : Type 0 where
  socket : Call W
  set_broadcast : ℤ → Call W
  set_reuse_addr : ℤ → Call W
  set_timeout : ℤ → ℤ → ℤ → Call W
  bind : ℤ → SockAddr → Call W
  send_to : ℤ → Packet W → SockAddr → Call W
  send_text : ℤ → Text → SockAddr → Call W
  receive_from : ℤ → Call W
  close : ℤ → Call W

-- What recvfrom returns, with the buffers as it leaves them.
pub record Received (W : Type 0) : Type 0 where
  pub n : ℤ
  pub packet : Packet W
  pub sender : SockAddr

abbrev pub is_negative : ℤ → Bool
is_negative a = ltb_ℤ a (pos 0)

abbrev pub is_positive : ℤ → Bool
is_positive a = ltb_ℤ (pos 0) a

abbrev pub is_close : {W : Type 0} → Call W → Bool
is_close (Call.close fd) = true
is_close _ = false

-- How many calls of `close` there are.
abbrev pub closes : {W : Type 0} → List (Call W) → ℕ
closes [] = 0
closes (call ∷ calls) = let rest = closes calls in if is_close call then suc rest else rest
