-- ===== src/Election/System/Honest.antt =====
-- A server compares with its own id only, and announces no other.
use sis_op_ii.Common.{
  ℕ, ◌^◌, ◌<◌, ◌≡◌, refl, ◌⊎◌, inl, inr, true, false, Option, none, some, List, [], ◌∷◌, ◌++◌, map,
  arith,
}
use sis_op_ii.Protocol.{PacketType, packet_code, Packet, SockAddr}
use sis_op_ii.Platform.{Platform, NetLaws}
use sis_op_ii.Server.State.{Send, send_to_all}
use sis_op_ii.Server.Dispatch.Types.{received_type}
use sis_op_ii.Server.Election.{id_packet, sender_id}
use sis_op_ii.Election.Window.{beats_as, type_of}
use sis_op_ii.Election.System.{is_vote}

module _ {W : Type 0} ⦃p : Platform W⦄ where
  -- A packet that may come from a server with this id: the servers that it beats in an election
  -- have a lower one, unless it is an announcement.
  abbrev pub IsHonest : ℕ → Packet W → Type 0
  IsHonest id packet =
      (low : ℕ)
      → beats_as (type_of packet) low packet ≡ true
      → (type_of packet ≡ some PacketType.new_primary_announcement) ⊎ (low < id)

  abbrev pub AreHonest : ℕ → List (Send W) → Type 0
  AreHonest id [] = Unit
  AreHonest id ((packet, to) ∷ sent) = IsHonest id packet × AreHonest id sent

  pub beats-vote :
      (t : Option PacketType) (low : ℕ) (packet : Packet W)
      → is_vote t ≡ false
      → beats_as t low packet ≡ false
  beats-vote none low packet e = refl
  beats-vote (some PacketType.election) low packet e = absurd (cc e)
  beats-vote (some PacketType.election_answer) low packet e = absurd (cc e)
  beats-vote (some PacketType.new_primary_announcement) low packet e = absurd (cc e)
  beats-vote (some _) low packet e = refl

  pub other-IsHonest :
      (laws : NetLaws W) (id : ℕ) (packet : Packet W) (t : PacketType)
      → packet.type ≡ p.htons (packet_code t)
      → is_vote (some t) ≡ false
      → IsHonest id packet
  other-IsHonest laws id packet t e other low beats = absurd (
      cc (beats, beats-vote (type_of packet) low packet (rw (received_type laws packet t e) other)))

  named_as :
      (t : Option PacketType) (low id : ℕ) (packet : Packet W)
      → sender_id packet ≡ id
      → beats_as t low packet ≡ true
      → (t ≡ some PacketType.new_primary_announcement) ⊎ (low < id)
  named_as none low id packet e beats = absurd (cc beats)
  named_as (some PacketType.election) low id packet e beats = inr (ground arith)
  named_as (some PacketType.election_answer) low id packet e beats = inr (ground arith)
  named_as (some PacketType.new_primary_announcement) low id packet e beats = inl refl
  named_as (some _) low id packet e beats = absurd (cc beats)

  -- A packet that carries the id of its sender.
  pub id_packet-IsHonest :
      (laws : NetLaws W) (id : ℕ) (t : PacketType) → id < 2 ^ 32 → IsHonest id (id_packet t id)
  unfolding id_packet sender_id
  id_packet-IsHonest laws id t word low beats =
      named_as (type_of {W = W} (id_packet t id)) low id (id_packet t id) (laws.ntohl-htonl id word)
        beats

  pub AreHonest-append :
      (id : ℕ) (xs ys : List (Send W)) → AreHonest id xs → AreHonest id ys → AreHonest id (xs ++ ys)
  AreHonest-append id [] ys hx hy = hy
  AreHonest-append id ((packet, to) ∷ xs) ys (h, hx) hy = (h, AreHonest-append id xs ys hx hy)

  pub send_to_all-AreHonest :
      (id : ℕ) (packet : Packet W) (addrs : List SockAddr)
      → IsHonest id packet
      → AreHonest id (send_to_all packet addrs)
  send_to_all-AreHonest id packet [] h = tt
  send_to_all-AreHonest id packet (addr ∷ addrs) h = (h, send_to_all-AreHonest id packet addrs h)

  pub map-AreHonest {ℓ} :
      {A : Type ℓ} (id : ℕ) (to : SockAddr) (f : A → Packet W) (xs : List A)
      → ((x : A) → IsHonest id (f x))
      → AreHonest id (map (λ packet. (packet, to)) (map f xs))
  map-AreHonest id to f [] h = tt
  map-AreHonest id to f (x ∷ xs) h = (h x, map-AreHonest id to f xs h)
