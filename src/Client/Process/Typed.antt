-- ===== src/Client/Process/Typed.antt =====
-- Requests that the user's lines ask for.
use mathlib.Core.List.{Memᴰ}
use mathlib.Core.List.Memᴰ.{head, tail}
use sis_op_ii.Common.{ℕ, ◌≤◌, ◌≡◌, refl, some, List, [], ◌∷◌, ◌++◌, Text, arith}
use sis_op_ii.Common.Int.{ℤ, pos}
use sis_op_ii.Protocol.{Packet}
use sis_op_ii.Platform.{Platform}
use sis_op_ii.Server.State.{Send}
use sis_op_ii.Client.{Round, validate_input, request_packet}
use sis_op_ii.Client.Retries.{AllRequests}

pub alone :
    (line line' : Text) (lines : List Text) → Memᴰ line' (line ∷ []) → Memᴰ line' (line ∷ lines)
alone line line' lines (head e) = head e
alone line line' lines (tail at) = elim at [ ]

module _ {W : Type 0} ⦃p : Platform W⦄ where
  -- A request that a line asks for, with a number in a range.
  pub record IsTyped (lines : List Text) (low high : ℕ) (packet : Packet W) : Type 0 where
    pub command : Text
    pub number : ℕ
    pub dest_ip : Text
    pub value : ℤ
    pub unset_addr : ℕ
    pub among : Memᴰ command lines
    pub valid : validate_input command ≡ some (dest_ip, value)
    pub from : low ≤ number
    pub to : number ≤ high
    pub is : packet ≡ request_packet (pos number) dest_ip value unset_addr

  abbrev pub AllTyped : List Text → ℕ → ℕ → List (Send W) → Type 0
  AllTyped lines low high [] = Unit
  AllTyped lines low high ((packet, to) ∷ sent) =
      IsTyped lines low high packet × AllTyped lines low high sent

  pub AllTyped-append :
      (lines : List Text) (low high : ℕ) (xs ys : List (Send W))
      → AllTyped lines low high xs
      → AllTyped lines low high ys
      → AllTyped lines low high (xs ++ ys)
  AllTyped-append lines low high [] ys hx hy = hy
  AllTyped-append lines low high ((packet, to) ∷ xs) ys (h, hx) hy =
      (h, AllTyped-append lines low high xs ys hx hy)

  pub AllTyped-widen :
      (lines lines' : List Text) (low low' high high' : ℕ) (sent : List (Send W))
      → ((line : Text) → Memᴰ line lines → Memᴰ line lines')
      → low ≤ low'
      → high ≤ high'
      → AllTyped lines low' high sent
      → AllTyped lines' low high' sent
  AllTyped-widen lines lines' low low' high high' [] within less more h = tt
  AllTyped-widen lines lines' low low' high high' ((packet, to) ∷ sent) within less more (h, hs) = (
    record {
      command = h.command;
      number = h.number;
      dest_ip = h.dest_ip;
      value = h.value;
      unset_addr = h.unset_addr;
      among = within h.command h.among;
      valid = h.valid;
      from = omega (arith, h.from);
      to = omega (arith, h.to);
      is = h.is;
    },
    AllTyped-widen lines lines' low low' high high' sent within less more hs,
  )

  pub AllRequests-AllTyped :
      (command : Text) (lines : List Text) (number high : ℕ) (dest_ip : Text) (value : ℤ)
      (rounds : ℕ → Round W) (sent : List (Send W))
      → validate_input command ≡ some (dest_ip, value)
      → number ≤ high
      → AllRequests rounds dest_ip value (pos number) sent
      → AllTyped (command ∷ lines) number high sent
  AllRequests-AllTyped command lines number high dest_ip value rounds [] valid less h = tt
  AllRequests-AllTyped command lines number high dest_ip value rounds ((packet, to) ∷ sent) valid
        less ((unset_addr, is), h) =
      (
        record {
          command = command;
          number = number;
          dest_ip = dest_ip;
          value = value;
          unset_addr = unset_addr;
          among = head refl;
          valid = valid;
          from = omega arith;
          to = less;
          is = is;
        },
        AllRequests-AllTyped command lines number high dest_ip value rounds sent valid less h,
      )
