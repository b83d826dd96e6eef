-- ===== src/Platform/Defs.antt =====
-- The operations that the program takes from its platform, and their documented laws.
use sis_op_ii.Common.{ℕ, ◌-◌, ◌^◌, ◌<◌, ◌≡◌, ◌≢◌, [], Bool, true, Option, some, Text}
use sis_op_ii.Common.Int.{ℤ, pos, negsuc, ◌+ℤ◌, ◌-ℤ◌, ◌≤ℤ◌, ltb_ℤ}
use sis_op_ii.Protocol.{
  Transaction, ClientUpdateData, StateUpdateData, ReqData, AckData, PacketData,
}
use sis_op_ii.Protocol.CharArray.{IsAddress}

pub record Platform (W : Type 0) : Type 0 where
  -- `float`: the conversions from and to `int`, `+`, `-` and `<`
  pub of_int : ℤ → W
  pub trunc : W → ℤ
  pub add : W → W → W
  pub sub : W → W → W
  pub lt : W → W → Bool
  -- arpa/inet.h
  pub htons : ℕ → ℕ
  pub ntohs : ℕ → ℕ
  pub htonl : ℕ → ℕ
  pub ntohl : ℕ → ℕ
  pub inet_ntop : ℕ → Text
  pub inet_pton : Text → Option ℕ
  -- what a member of the union reads as, when another member was written last
  pub overlay_req : PacketData W → ReqData
  pub overlay_ack : PacketData W → AckData W
  pub overlay_client_update : PacketData W → ClientUpdateData W
  pub overlay_state_update : PacketData W → StateUpdateData W
  pub overlay_history_entry : PacketData W → Transaction
  -- whether a vector of this size, filled by push_back alone, reallocates at the next push_back
  pub reallocates : ℕ → Bool

-- The integers that a `float` holds exactly.
abbrev pub exact_limit : ℕ
exact_limit = 2 ^ 24

pub record IsExact (a : ℤ) : Type 0 where
  pub above : negsuc (exact_limit - 1) ≤ℤ a
  pub below : a ≤ℤ pos exact_limit

-- IEEE 754 binary32: on integers up to 2 ^ 24 arithmetic and comparison are exact.
pub record FloatLaws (W : Type 0) ⦃p : Platform W⦄ : Type 0 where
  pub trunc-of_int : (a : ℤ) → IsExact a → p.trunc (p.of_int a) ≡ a
  pub add-of_int :
      (a b : ℤ)
      → IsExact a
      → IsExact b
      → IsExact (a +ℤ b)
      → p.add (p.of_int a) (p.of_int b) ≡ p.of_int (a +ℤ b)
  pub sub-of_int :
      (a b : ℤ)
      → IsExact a
      → IsExact b
      → IsExact (a -ℤ b)
      → p.sub (p.of_int a) (p.of_int b) ≡ p.of_int (a -ℤ b)
  pub lt-of_int : (a b : ℤ) → IsExact a → IsExact b → p.lt (p.of_int a) (p.of_int b) ≡ ltb_ℤ a b
  -- a larger `int` is rounded to no less than the limit
  pub lt-of_int_above :
      (a b : ℤ)
      → negsuc (exact_limit - 1) ≤ℤ a
      → a ≤ℤ pos (exact_limit - 1)
      → pos exact_limit ≤ℤ b
      → p.lt (p.of_int a) (p.of_int b) ≡ true

-- POSIX: host and network order are inverse to one another, an address has one text of 1 to 15
-- characters, and inet_pton reads it back.
pub record NetLaws (W : Type 0) ⦃p : Platform W⦄ : Type 0 where
  pub ntohs-htons : (n : ℕ) → n < 2 ^ 16 → p.ntohs (p.htons n) ≡ n
  pub ntohl-htonl : (n : ℕ) → n < 2 ^ 32 → p.ntohl (p.htonl n) ≡ n
  pub ntohl-lt : (n : ℕ) → p.ntohl n < 2 ^ 32
  pub inet_ntop-IsAddress : (n : ℕ) → n < 2 ^ 32 → IsAddress (p.inet_ntop n)
  pub inet_ntop-not_empty : (n : ℕ) → n < 2 ^ 32 → p.inet_ntop n ≢ []
  pub inet_pton-inet_ntop : (n : ℕ) → n < 2 ^ 32 → p.inet_pton (p.inet_ntop n) ≡ some n
