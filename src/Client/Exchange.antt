-- ===== src/Client/Exchange.antt =====
-- One request and its answer: the client's packet through handleTransactionRequest, and back.
use sis_op_ii.Common.{ℕ, ◌^◌, ◌<◌, ◌≡◌, refl, true, Option, some, List, [], ◌∷◌, ◌++◌, Text, arith}
use sis_op_ii.Common.Int.{ℤ}
use sis_op_ii.Common.Word.{to_u32, IsInt, to_u32-lt, to_int-to_u32}
use sis_op_ii.Protocol.{
  TransactionStatus, status_code, status_of_code, packet_code, Packet, SockAddr,
}
use sis_op_ii.Platform.{Platform, NetLaws, read_ack}
use sis_op_ii.Server.State.{Server}
use sis_op_ii.Server.Transactions.{
  Outcome, process_transaction, transaction_ack, handle_transaction_request,
}
use sis_op_ii.Server.Transactions.Contract.{process_transaction-Answers}
use sis_op_ii.Client.{request_packet, receive_response}

status_of_code-status_code :
    (status : TransactionStatus) → status_of_code (status_code status) ≡ some status
unfolding status_of_code status_code
status_of_code-status_code TransactionStatus.success = refl
status_of_code-status_code TransactionStatus.error_client_not_found = refl
status_of_code-status_code TransactionStatus.error_duplicate_request = refl
status_of_code-status_code TransactionStatus.error_insufficient_funds = refl
status_of_code-status_code TransactionStatus.error_out_of_sequence = refl

status_code-lt : (status : TransactionStatus) → status_code status < 2 ^ 32
unfolding status_code
status_code-lt TransactionStatus.success = omega arith
status_code-lt TransactionStatus.error_client_not_found = omega arith
status_code-lt TransactionStatus.error_duplicate_request = omega arith
status_code-lt TransactionStatus.error_insufficient_funds = omega arith
status_code-lt TransactionStatus.error_out_of_sequence = omega arith

module _ {W : Type 0} ⦃p : Platform W⦄ where
  -- An answer that the client takes for one to this request, and reads as this outcome.
  pub record Reads (seqn : ℤ) (o : Outcome W) (answer : Packet W) : Type 0 where
    pub taken : receive_response (some answer) seqn ≡ true
    pub status_read : status_of_code (p.ntohl (read_ack answer.contents).status) ≡ some o.status
    pub balance_read : (read_ack answer.contents).new_balance ≡ o.balance
    pub last_req_read : p.ntohl (read_ack answer.contents).last_req ≡ to_u32 o.last_req

  pub ack-Reads :
      (laws : NetLaws W) (seqn : ℤ) (o : Outcome W) → Reads seqn o (transaction_ack seqn o)
  unfolding transaction_ack receive_response packet_code
  ack-Reads laws seqn o = record {
    taken =
        rw (laws.ntohs-htons 3 (omega arith), laws.ntohl-htonl (to_u32 seqn) (to_u32-lt seqn))
          (ground arith);
    status_read =
        rw (laws.ntohl-htonl (status_code o.status) (status_code-lt o.status))
          (status_of_code-status_code o.status);
    balance_read = refl;
    last_req_read = laws.ntohl-htonl (to_u32 o.last_req) (to_u32-lt o.last_req);
  }

  module _ (laws : NetLaws W) (s : Server W) (client : SockAddr) (dest_ip : Text) (value seqn : ℤ)
      (unset_addr addr : ℕ) where
    abbrev pub Exchanged : Option (Server W × List (Packet W × SockAddr)) → Type 0
    Exchanged r =
        (o : Outcome W) × (answer : Packet W) × (process_transaction s (p.inet_ntop client.sin_addr)
            addr value seqn
          ≡ some o)
        × (r ≡ some (o.server, o.sent ++ (answer, client) ∷ []))
        × Reads seqn o answer

    -- Let a client build a request for a destination that inet_pton reads, with an amount and a
    -- sequence number in the range of `int`. The thread of handleTransactionRequest on that packet
    -- returns; its effect is that of processTransaction on the client's address, that destination,
    -- that amount and that sequence number; the last packet that it sends is an answer to the
    -- client, which receiveResponse takes, and whose status, balance and last request read as
    -- those of the outcome.
    pub request-Exchanged :
        p.inet_pton dest_ip ≡ some addr
        → IsInt value
        → IsInt seqn
        → Exchanged
            (handle_transaction_request s (request_packet seqn dest_ip value unset_addr) client)
    unfolding handle_transaction_request request_packet
    request-Exchanged parsed value_IsInt seqn_IsInt =
        let (o, answered, truth) =
          process_transaction-Answers s (p.inet_ntop client.sin_addr) addr value seqn in
        (
          o,
          transaction_ack seqn o,
          answered,
          rw (
            parsed,
            laws.ntohl-htonl (to_u32 value) (to_u32-lt value),
            laws.ntohl-htonl (to_u32 seqn) (to_u32-lt seqn),
            to_int-to_u32 value value_IsInt,
            to_int-to_u32 seqn seqn_IsInt,
            answered,
          ),
          ack-Reads laws seqn o,
        )
