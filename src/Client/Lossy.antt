-- ===== src/Client/Lossy.antt =====
-- A command of a client and its primary over a network that loses packets: executeRequestWithRetries
-- (T1/client/Client.cpp) against handleTransactionRequest (T1/transactions/transactionServer.cpp).
pub mod Copies
pub mod Once
use sis_op_ii.Common.{
  ℕ, zero, suc, Bool, true, false, ◌&&◌, Option, none, some, List, [], ◌∷◌, Text, if◌then◌else◌,
  get_last?, ◌>>=◌,
}
use sis_op_ii.Common.Int.{ℤ}
use sis_op_ii.Protocol.{Packet, SockAddr}
use sis_op_ii.Platform.{Platform}
use sis_op_ii.Server.State.{Server, Send}
use sis_op_ii.Server.Transactions.{handle_transaction_request}
use sis_op_ii.Client.{Round, request_packet}

-- What the network does in a round: whether the request arrives, and whether the reply to it does.
pub record Fate : Type 0 where
  pub arrives : Bool
  pub returns : Bool

module _ {W : Type 0} ⦃p : Platform W⦄ where
  abbrev pub next_server : Server W → Option (Server W × List (Send W)) → Server W
  next_server s none = s
  next_server s (some (s', sent)) = s'

  -- The reply is the last packet that the thread sends.
  abbrev pub last_packet : List (Send W) → Option (Packet W)
  last_packet sent = get_last? sent >>= λ (m : Send W). some m.0

  abbrev pub reply : Option (Server W × List (Send W)) → Option (Packet W)
  reply none = none
  reply (some (s', sent)) = last_packet sent

  module _ (client : SockAddr) (dest_ip : Text) (value seqn : ℤ) (fates : ℕ → Fate) where
    -- The thread of the server on a copy of the request.
    abbrev pub handled : Server W → Option (Server W × List (Send W))
    handled s = handle_transaction_request s (request_packet seqn dest_ip value 0) client

    -- The server before a round; it does nothing else in the meantime.
    unfoldable pub server_at : Server W → ℕ → Server W
    server_at s zero = s
    server_at s (suc k) =
        let before = server_at s k in
        if (fates k).arrives then next_server before (handled before) else before

    -- What the client hears in a round.
    unfoldable pub heard_at : Server W → ℕ → Option (Packet W)
    unfolding server_at
    heard_at s k =
        if (fates k).arrives && (fates k).returns then reply (handled (server_at s k)) else none

    abbrev pub lossy : Server W → ℕ → Round W
    lossy s k = record { announcements = []; unset_addr = 0; heard = heard_at s k }
