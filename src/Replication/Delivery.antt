-- ===== src/Replication/Delivery.antt =====
-- The network between a primary and one backup: of the packets that a server sends (sendPacket in
-- T1/udp/ServerUDP.cpp), those with the backup's address, in the order of sending.
use sis_op_ii.Common.{
  ℕ, suc, ◌≡◌, refl, Bool, true, false, ◌&&◌, List, [], ◌∷◌, ◌++◌, map, ◌==◌, arith, if◌then◌else◌,
  replicate,
}
use sis_op_ii.Protocol.{Packet, SockAddr}
use sis_op_ii.Server.State.{Send, send_to_all}

abbrev pub same_addr : SockAddr → SockAddr → Bool
same_addr a b = (a.sin_addr == b.sin_addr) && (a.sin_port == b.sin_port)

-- How often an address stands in a list of addresses.
unfoldable pub times : SockAddr → List SockAddr → ℕ
times back [] = 0
times back (a ∷ addrs) = if same_addr back a then suc (times back addrs) else times back addrs

module _ {W : Type 0} where
  -- The packets of a list of sends that reach an address.
  unfoldable pub delivered : SockAddr → List (Send W) → List (Packet W)
  delivered back [] = []
  delivered back ((packet, a) ∷ sends) =
      let rest = delivered back sends in if same_addr back a then packet ∷ rest else rest

  pub delivered-append :
      (back : SockAddr) (xs ys : List (Send W))
      → delivered back (xs ++ ys) ≡ delivered back xs ++ delivered back ys
  unfolding delivered
  delivered-append back [] ys = refl
  delivered-append back ((packet, a) ∷ xs) ys = ground (arith, delivered-append back xs ys)

  pub delivered-send_to_all :
      (back : SockAddr) (packet : Packet W) (addrs : List SockAddr)
      → delivered back (send_to_all packet addrs) ≡ replicate (times back addrs) packet
  unfolding delivered times
  delivered-send_to_all back packet [] = refl
  delivered-send_to_all back packet (a ∷ addrs) =
      ground (arith, delivered-send_to_all back packet addrs)

  -- What is sent to another address does not arrive.
  pub delivered-elsewhere :
      (back addr : SockAddr) (packets : List (Packet W))
      → same_addr back addr ≡ false
      → delivered back (map (λ packet. (packet, addr)) packets) ≡ []
  unfolding delivered
  delivered-elsewhere back addr [] other = refl
  delivered-elsewhere back addr (packet ∷ packets) other =
      rw other (delivered-elsewhere back addr packets other)

pub times-append :
    (back addr : SockAddr) (addrs : List SockAddr)
    → same_addr back addr ≡ false
    → times back (addrs ++ addr ∷ []) ≡ times back addrs
unfolding times
times-append back addr [] other = rw other
times-append back addr (a ∷ addrs) other = ground (arith, times-append back addr addrs other)

same_addr_refl : (a : SockAddr) → same_addr a a ≡ true
same_addr_refl a = ground arith

pub times-append_self :
    (back : SockAddr) (addrs : List SockAddr)
    → times back (addrs ++ back ∷ []) ≡ suc (times back addrs)
unfolding times
times-append_self back [] = rw (same_addr_refl back)
times-append_self back (a ∷ addrs) = ground (arith, times-append_self back addrs)
