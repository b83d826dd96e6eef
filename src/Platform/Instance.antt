-- ===== src/Platform/Instance.antt =====
-- A platform that meets the laws: floats that hold every integer, a big-endian host, addresses
-- written as four characters, and vectors that double.
use Prim.Native.Nat.{bit_and}
use sis_op_ii.Common.{
  ℕ, ◌+◌, ◌-◌, ◌*◌, ◌/◌, ◌%◌, ◌^◌, refl, Option, none, some, [], ◌∷◌, Text, arith, ◌==◌,
}
use sis_op_ii.Common.Int.{ℤ, pos, ◌+ℤ◌, ◌-ℤ◌, ltb_ℤ}
use sis_op_ii.Protocol.{Transaction}
use sis_op_ii.Platform.Defs.{Platform, FloatLaws, NetLaws}

abbrev write_address : ℕ → Text
write_address n =
    (n / 2 ^ 24 % 256 + 1) ∷ (n / 2 ^ 16 % 256 + 1) ∷ (n / 2 ^ 8 % 256 + 1) ∷ (n % 256 + 1) ∷ []

abbrev read_address : Text → Option ℕ
read_address (a ∷ b ∷ c ∷ d ∷ []) =
    some ((a - 1) * 2 ^ 24 + (b - 1) * 2 ^ 16 + (c - 1) * 2 ^ 8 + (d - 1))
read_address _ = none

abbrev no_transaction : Transaction
no_transaction = record {
  id = pos 0;
  source_ip = [];
  dest_ip = [];
  value = pos 0;
  client_seqn = pos 0;
}

instance abbrev pub integers : Platform ℤ
integers = record {
  of_int = λ a. a;
  trunc = λ a. a;
  add = ◌+ℤ◌;
  sub = ◌-ℤ◌;
  lt = ltb_ℤ;
  htons = λ n. n;
  ntohs = λ n. n;
  htonl = λ n. n % 2 ^ 32;
  ntohl = λ n. n % 2 ^ 32;
  inet_ntop = write_address;
  inet_pton = read_address;
  overlay_req = λ _. record { dest_addr = 0; value = 0; seqn = 0 };
  overlay_ack = λ _. record { seqn = 0; new_balance = pos 0; status = 0; last_req = 0 };
  overlay_client_update = λ _. record { ip = []; balance = pos 0; last_request = pos 0 };
  overlay_state_update = λ _. record {
    transaction = no_transaction;
    source_ip = [];
    source_balance = pos 0;
    dest_ip = [];
    dest_balance = pos 0;
  };
  overlay_history_entry = λ _. no_transaction;
  reallocates = λ n. bit_and n (n - 1) == 0;
}

pub integers-FloatLaws : FloatLaws ℤ
integers-FloatLaws = record {
  trunc-of_int = λ a _. refl;
  add-of_int = λ a b _ _ _. refl;
  sub-of_int = λ a b _ _ _. refl;
  lt-of_int = λ a b _ _. refl;
  lt-of_int_above = λ a b lo hi large. ground arith;
}

pub integers-NetLaws : NetLaws ℤ
integers-NetLaws = record {
  ntohs-htons = λ n _. refl;
  ntohl-htonl = λ n h. omega arith;
  ntohl-lt = λ n. omega arith;
  inet_ntop-IsAddress = λ n _. omega arith;
  inet_ntop-not_empty = λ n _ e. absurd (cc e);
  inet_pton-inet_ntop = λ n h. ground arith;
}
