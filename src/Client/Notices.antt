-- ===== src/Client/Notices.antt =====
-- The messages of processCommand (T1/client/clientInterface.cpp), without the time of day.
use sis_op_ii.Common.{
  ℕ, ◌+◌, ◌%◌, ◌^◌, ◌≡◌, refl, ap, ◌∙◌, Option, none, some, List, [], ◌∷◌, ◌++◌, Text,
}
use sis_op_ii.Common.Int.{ℤ}
use sis_op_ii.Common.Word.{to_u32, IsInt}
use sis_op_ii.Protocol.{TransactionStatus, status_of_code, AckData, Packet, SockAddr}
use sis_op_ii.Platform.{Platform, NetLaws, read_ack}
use sis_op_ii.Server.State.{Server}
use sis_op_ii.Server.Transactions.{Outcome, process_transaction, handle_transaction_request}
use sis_op_ii.Client.{
  Client, Round, get_sequence_number, get_server_address, validate_input, request_packet,
  execute_request_with_retries,
}
use sis_op_ii.Client.Exchange.{Reads, request-Exchanged}

pub data Notice (W : Type 0) : Type 0 where
  -- logResponse: the server's address, the number of the request, what was asked, the balance
  response : Text → ℤ → Text → ℤ → W → Notice W
  -- what logError is given, and the two lines about a new discovery
  invalid_input insufficient_funds searching search_failed : Notice W
  duplicate_request out_of_sequence no_answer : ℤ → Notice W
  last_processed : ℕ → Notice W
  expected_next : ℕ → ℕ → Notice W

module _ {W : Type 0} where
  -- The branch of the switch for a status; `last` is the last request in the answer, and `found`
  -- what a new discovery returns, `none` if it throws.
  unfoldable pub notices_of :
      Client → Text → ℤ → W → ℕ → Option Text → Option TransactionStatus → List (Notice W)
  notices_of c dest_ip value balance last found (some TransactionStatus.success) =
      Notice.response (get_server_address c) (get_sequence_number c) dest_ip value balance ∷ []
  notices_of c dest_ip value balance last found (some TransactionStatus.error_insufficient_funds) =
      Notice.insufficient_funds ∷ []
  notices_of c dest_ip value balance last found (some TransactionStatus.error_client_not_found) = []
  notices_of c dest_ip value balance last found (some TransactionStatus.error_duplicate_request) =
      Notice.duplicate_request (get_sequence_number c) ∷ Notice.last_processed last ∷ []
  notices_of c dest_ip value balance last found (some TransactionStatus.error_out_of_sequence) =
      Notice.out_of_sequence (get_sequence_number c)
      ∷ Notice.expected_next last ((last + 1) % 2 ^ 32)
      ∷ []
  notices_of c dest_ip value balance last none none =
      Notice.no_answer (get_sequence_number c) ∷ Notice.searching ∷ Notice.search_failed ∷ []
  notices_of c dest_ip value balance last (some address) none =
      Notice.no_answer (get_sequence_number c) ∷ Notice.searching ∷ []

module _ {W : Type 0} ⦃p : Platform W⦄ where
  unfoldable pub notices : Client → Text → ℤ → Option (AckData W) → Option Text → List (Notice W)
  unfolding notices_of
  notices c dest_ip value none found = Notice.no_answer (get_sequence_number c) ∷ []
  notices c dest_ip value (some ack) found =
      notices_of c dest_ip value ack.new_balance (p.ntohl ack.last_req) found
        (status_of_code (p.ntohl ack.status))

  -- What processCommand prints, from what validateInput reads.
  unfoldable pub request_notices :
      Client → Option (Text × ℤ) → (ℕ → Round W) → Option Text → List (Notice W)
  unfolding notices
  request_notices c none rounds found = Notice.invalid_input ∷ []
  request_notices c (some (dest_ip, value)) rounds found =
      let (c', sent, answer) = execute_request_with_retries c dest_ip value rounds in
      notices c' dest_ip value answer found

  unfoldable pub command_notices : Client → Text → (ℕ → Round W) → Option Text → List (Notice W)
  unfolding request_notices
  command_notices c command rounds found = request_notices c (validate_input command) rounds found

  -- What the outcome of the server means to the user.
  abbrev pub told : Client → Text → ℤ → Outcome W → TransactionStatus → List (Notice W)
  told c dest_ip value o TransactionStatus.success =
      Notice.response c.server_address c.sequence_number dest_ip value o.balance ∷ []
  told c dest_ip value o TransactionStatus.error_insufficient_funds = Notice.insufficient_funds ∷ []
  told c dest_ip value o TransactionStatus.error_client_not_found = []
  told c dest_ip value o TransactionStatus.error_duplicate_request =
      Notice.duplicate_request c.sequence_number ∷ Notice.last_processed (to_u32 o.last_req) ∷ []
  told c dest_ip value o TransactionStatus.error_out_of_sequence =
      Notice.out_of_sequence c.sequence_number
      ∷ Notice.expected_next (to_u32 o.last_req) ((to_u32 o.last_req + 1) % 2 ^ 32)
      ∷ []

  notices_of-told :
      (c : Client) (dest_ip : Text) (value : ℤ) (o : Outcome W) (found : Option Text)
      (status : TransactionStatus)
      → notices_of c dest_ip value o.balance (to_u32 o.last_req) found (some status)
        ≡ told c dest_ip value o status
  unfolding notices_of
  notices_of-told c dest_ip value o found TransactionStatus.success = refl
  notices_of-told c dest_ip value o found TransactionStatus.error_insufficient_funds = refl
  notices_of-told c dest_ip value o found TransactionStatus.error_client_not_found = refl
  notices_of-told c dest_ip value o found TransactionStatus.error_duplicate_request = refl
  notices_of-told c dest_ip value o found TransactionStatus.error_out_of_sequence = refl

  answer-told :
      (c : Client) (dest_ip : Text) (value : ℤ) (found : Option Text) (o : Outcome W)
      (answer : Packet W)
      → Reads c.sequence_number o answer
      → notices c dest_ip value (some (read_ack answer.contents)) found
        ≡ told c dest_ip value o o.status
  unfolding notices
  answer-told c dest_ip value found o answer reads =
      let ack = read_ack answer.contents in
      ap (notices_of c dest_ip value ack.new_balance (p.ntohl ack.last_req) found) reads.status_read
      ∙ ap (λ b. notices_of c dest_ip value b (p.ntohl ack.last_req) found (some o.status))
          reads.balance_read
      ∙ ap (λ n. notices_of c dest_ip value o.balance n found (some o.status)) reads.last_req_read
      ∙ notices_of-told c dest_ip value o found o.status

  -- Let a client build a request for a destination that inet_pton reads, with an amount and a
  -- sequence number in the range of `int`. The server's thread on it ends with an answer to the
  -- client, and what processCommand prints of this answer is what the server's outcome says: after
  -- a success the server's address, the sequence number, the destination, the amount and the
  -- source's new balance; after a duplicate the last request of the source; after a number out of
  -- sequence this last request and the next one, modulo 2 ^ 32; else only the kind of error, or
  -- nothing for an unknown client.
  pub notices-told :
      (laws : NetLaws W) (c : Client) (s : Server W) (client : SockAddr) (dest_ip : Text)
      (value : ℤ) (unset_addr addr : ℕ) (found : Option Text)
      → p.inet_pton dest_ip ≡ some addr
      → IsInt value
      → IsInt c.sequence_number
      → (o : Outcome W) × (answer : Packet W) × (process_transaction s
            (p.inet_ntop client.sin_addr)
            addr
            value
            c.sequence_number
          ≡ some o)
        × (handle_transaction_request s
              (request_packet c.sequence_number dest_ip value unset_addr)
              client
            ≡ some (o.server, o.sent ++ (answer, client) ∷ []))
        × (notices c dest_ip value (some (read_ack answer.contents)) found
            ≡ told c dest_ip value o o.status)
  notices-told laws c s client dest_ip value unset_addr addr found parsed value_IsInt seqn_IsInt =
      let (o, answer, done, thread, reads) =
        request-Exchanged laws s client dest_ip value c.sequence_number unset_addr addr parsed
          value_IsInt seqn_IsInt in
      (o, answer, done, thread, answer-told c dest_ip value found o answer reads)
