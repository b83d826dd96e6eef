-- ===== src/Client/Retries.antt =====
-- The loop of executeRequestWithRetries.
use sis_op_ii.Common.{
  ℕ, zero, suc, ◌+◌, ◌<◌, ◌≡◌, refl, sym, ap, ◌∙◌, subst, inl, inr, true, false, Option, none, some,
  List, [], ◌∷◌, Text, arith, length, Bool-cases,
}
use sis_op_ii.Common.Int.{ℤ}
use sis_op_ii.Protocol.{AckData, Packet, SockAddr}
use sis_op_ii.Platform.{Platform, read_ack}
use sis_op_ii.Server.State.{Send}
use sis_op_ii.Client.{
  Client, Round, listen_for_announcement, listen_all, request_packet, receive_response, ack_of,
  request_loop, execute_request_with_retries, max_retries,
}

module _ {W : Type 0} ⦃p : Platform W⦄ where
  listen_all-sequence_number :
      (c : Client) (packets : List (Packet W × SockAddr))
      → (listen_all c packets).sequence_number ≡ c.sequence_number
  unfolding listen_all listen_for_announcement
  listen_all-sequence_number c [] = refl
  listen_all-sequence_number c ((packet, addr) ∷ packets) =
      listen_all-sequence_number (listen_for_announcement c packet addr) packets
      ∙ heard c packet addr
    where
      heard :
          (c : Client) (packet : Packet W) (addr : SockAddr)
          → (listen_for_announcement c packet addr).sequence_number ≡ c.sequence_number
      heard c packet addr = ground arith

  module _ (rounds : ℕ → Round W) (dest_ip : Text) (value seqn : ℤ) where
    -- No answer in so many rounds from round k on.
    abbrev pub Silent : ℕ → ℕ → Type 0
    Silent k zero = Unit {0}
    Silent k (suc n) = (receive_response (rounds k).heard seqn ≡ false) × Silent (suc k) n

    -- Every packet is the request, with the same sequence number.
    abbrev pub AllRequests : List (Send W) → Type 0
    AllRequests [] = Unit {0}
    AllRequests ((packet, to) ∷ sent) =
        ((unset_addr : ℕ) × (packet ≡ request_packet seqn dest_ip value unset_addr))
        × AllRequests sent

    -- The result, with the number of packets sent, of the rounds from k on.
    abbrev pub Result : ℕ → ℕ → ℕ → Option (AckData W) → Type 0
    Result k left count none = (count ≡ left) × Silent k left
    Result k left count (some ack) =
        (j : ℕ) × (j < left)
        × (count ≡ suc j)
        × Silent k j
        × (receive_response (rounds (k + j)).heard seqn ≡ true)
        × (ack_of (rounds (k + j)).heard ≡ some ack)

    Result-later :
        (k left count : ℕ) (answer : Option (AckData W))
        → receive_response (rounds k).heard seqn ≡ false
        → Result (suc k) left count answer
        → Result k (suc left) (suc count) answer
    Result-later k left count none quiet (same_count, silent) = (ap suc same_count, (quiet, silent))
    Result-later k left count (some ack) quiet (j, less, same_count, silent, taken, held) =
        let next : suc k + j ≡ k + suc j = omega arith in
        (
          suc j,
          omega arith,
          ap suc same_count,
          (quiet, silent),
          subst (λ (n : ℕ). receive_response (rounds n).heard seqn ≡ true) next taken,
          subst (λ (n : ℕ). ack_of (rounds n).heard ≡ some ack) next held,
        )

    answered_now :
        (k left : ℕ) (heard : Option (Packet W))
        → (rounds k).heard ≡ heard
        → receive_response heard seqn ≡ true
        → Result k (suc left) 1 (ack_of heard)
    unfolding receive_response
    answered_now k left none e taken = cc
    answered_now k left (some packet) e taken =
        let here : k ≡ k + 0 = omega arith in
        (
          0,
          omega arith,
          refl,
          tt,
          subst (λ (n : ℕ). receive_response (rounds n).heard seqn ≡ true) here (rw e taken),
          subst (λ (n : ℕ). ack_of (rounds n).heard ≡ some (read_ack packet.contents)) here (rw e),
        )

    pub record Ended (k left : ℕ) (r : Client × List (Send W) × Option (AckData W)) : Type 0 where
      pub kept : (r.0).sequence_number ≡ seqn
      pub requests : AllRequests r.1
      pub result : Result k left (length r.1) r.2

    request_loop-Ended :
        (left k : ℕ) (c : Client)
        → c.sequence_number ≡ seqn
        → Ended k left (request_loop c dest_ip value rounds k left)
    unfolding request_loop
    request_loop-Ended zero k c e = record { kept = e; requests = tt; result = (refl, tt) }
    request_loop-Ended (suc left) k c e =
        let c' = listen_all c (rounds k).announcements in
        let same_seqn : c'.sequence_number ≡ seqn =
          listen_all-sequence_number c (rounds k).announcements ∙ e in
        let rest = request_loop-Ended left (suc k) c' same_seqn in
        let later = request_loop c' dest_ip value rounds (suc k) left in
        let sent_now : (unset_addr : ℕ) × (request_packet {W = W} c'.sequence_number dest_ip value
                (rounds k).unset_addr
              ≡ request_packet {W = W} seqn dest_ip value unset_addr) =
          (
            (rounds k).unset_addr,
            ap (λ n. request_packet n dest_ip value (rounds k).unset_addr) same_seqn,
          ) in
        let as_sent = ap (receive_response (rounds k).heard) same_seqn in
        elim (Bool-cases (receive_response (rounds k).heard c'.sequence_number)) [
          | inl taken ↦ rw taken (record {
            kept = same_seqn;
            requests = (sent_now, tt);
            result = answered_now k left (rounds k).heard refl (sym as_sent ∙ taken);
          })
          | inr quiet ↦ rw quiet (record {
            kept = rest.kept;
            requests = (sent_now, rest.requests);
            result = Result-later k left (length later.1) later.2 (sym as_sent ∙ quiet) rest.result;
          })
        ]

  pub execute_request_with_retries-Ended :
      (c : Client) (dest_ip : Text) (value : ℤ) (rounds : ℕ → Round W)
      → Ended rounds dest_ip value c.sequence_number 0 max_retries
          (execute_request_with_retries c dest_ip value rounds)
  unfolding execute_request_with_retries
  execute_request_with_retries-Ended c dest_ip value rounds =
      request_loop-Ended rounds dest_ip value c.sequence_number max_retries 0 c refl
