-- ===== src/Replication/Failover/Retry.antt =====
-- A request that the old primary granted, sent again to the new one.
use sis_op_ii.Common.{
  ◌≡◌, refl, sym, ap, ◌∙◌, subst, inl, inr, false, some, List, [], ◌∷◌, arith, Text, ℕ, Bool-cases,
  Option-cases, some_inj,
}
use sis_op_ii.Common.Int.{ℤ, ◌≤ℤ◌}
use sis_op_ii.Common.Word.{to_int}
use sis_op_ii.Protocol.{ServerRole, is_primary, TransactionStatus, Packet, SockAddr}
use sis_op_ii.Platform.{Platform, NetLaws, read_req}
use sis_op_ii.Server.State.{Server, Send}
use sis_op_ii.Server.Transactions.{Outcome, process_transaction, handle_transaction_request}
use sis_op_ii.Server.Transactions.Bank.{Bank, bank_of}
use sis_op_ii.Server.Transactions.Contract.{
  process_transaction-Truthful, process_transaction-Answers,
}
use sis_op_ii.Server.Registration.{handle_discovery_packet, register_backup, add_client}
use sis_op_ii.Server.Clients.Lookup.{lookup}
use sis_op_ii.Server.Once.{Event, join, apply_event}
use sis_op_ii.Server.Once.Used.{Used, Used-apply}
use sis_op_ii.Server.Once.Replay.{Used-duplicate, Used-granted}
use sis_op_ii.Server.Election.{start_election, finish_election}
use sis_op_ii.Server.Dispatch.{dispatch}
use sis_op_ii.Election.Window.{dispatch-Flags, hear_all, beats_any}
use sis_op_ii.Replication.Mirrors.{Mirrors}
use sis_op_ii.Replication.Delivery.{delivered}
use sis_op_ii.Replication.Sync.{receive_all}
use sis_op_ii.Replication.Run.{
  Input, arrival, request, registration, serve, serve_all, Linked, AllRegular,
}
use sis_op_ii.Replication.Run.Steps.{serve_all-Served}
use sis_op_ii.Replication.Failover.{IsSilent}
use sis_op_ii.Replication.Failover.Window.{Mirrors_trans, election-Mirrors_primary}

module _ {W : Type 0} ⦃p : Platform W⦄ where
  module _ (src dst : Text) (seqn : ℤ) where
    HasUsed : Server W → Type 0
    HasUsed s = Used (λ ip. lookup ip s.clients) src dst seqn

    serve-HasUsed :
        (s s' : Server W) (sent : List (Send W)) (input : Input W)
        → serve s input ≡ some (s', sent)
        → HasUsed s
        → HasUsed s'
    unfolding serve HasUsed handle_discovery_packet handle_transaction_request register_backup
        apply_event
    serve-HasUsed s s' sent (arrival client) e u = elim (Bool-cases (is_primary s.current_role)) [
      | inl leads ↦ subst HasUsed (ap (λ r. r.0) (some_inj (rw leads at e))) (
          Used-apply src dst seqn s (add_client s (p.inet_ntop client.sin_addr)).0
            (join (p.inet_ntop client.sin_addr)) refl u)
      | inr follows ↦ subst HasUsed (ap (λ r. r.0) (some_inj (rw follows at e))) u
    ]
    serve-HasUsed s s' sent (request packet client) e u =
        let req = read_req packet.contents in
        let from = p.inet_ntop client.sin_addr in
        let value = to_int (p.ntohl req.value) in
        let seqn' = to_int (p.ntohl req.seqn) in
        elim (Option-cases (process_transaction s from req.dest_addr value seqn')) [
          | inl fault ↦ ground (arith)
          | inr (o, done) ↦ subst HasUsed (ap (λ r. r.0) (some_inj (rw done at e))) (
              Used-apply src dst seqn s o.server (Event.request from req.dest_addr value seqn')
                (rw done) u)
        ]
    serve-HasUsed s s' sent (registration other) e u =
        elim (Bool-cases (is_primary s.current_role)) [
          | inl leads ↦ subst HasUsed (ap (λ r. r.0) (some_inj (rw leads at e))) u
          | inr follows ↦ subst HasUsed (ap (λ r. r.0) (some_inj (rw follows at e))) u
        ]

    serve_all-HasUsed :
        (s s' : Server W) (sent : List (Send W)) (inputs : List (Input W))
        → serve_all s inputs ≡ some (s', sent)
        → HasUsed s
        → HasUsed s'
    unfolding serve_all
    serve_all-HasUsed s s' sent [] e u = subst HasUsed (ap (λ r. r.0) (some_inj e)) u
    serve_all-HasUsed s s' sent (input ∷ inputs) e u = elim (Option-cases (serve s input)) [
      | inl fault ↦ ground (arith)
      | inr ((m, now), done) ↦ elim (Option-cases (serve_all m inputs)) [
        | inl fault ↦ ground (arith)
        | inr ((s2, later), ran) ↦
            subst HasUsed (ap (λ r. r.0) (some_inj (rw (done, ran) at e)))
              (serve_all-HasUsed m s2 later inputs ran (serve-HasUsed s m now input done u))
      ]
    ]

  module _ (back from : SockAddr) where
    receive_all-id :
        (b b' : Server W) (packets : List (Packet W))
        → receive_all b packets from ≡ some b'
        → b'.server_id ≡ b.server_id
    unfolding receive_all
    receive_all-id b b' [] e = sym (ap (λ (s : Server W). s.server_id) (some_inj e))
    receive_all-id b b' (packet ∷ packets) e = elim (Option-cases (dispatch b packet from)) [
      | inl fault ↦ ground (arith)
      | inr (r, done) ↦
          receive_all-id r.server b' packets (rw done at e)
          ∙ (dispatch-Flags b packet from r done).id
    ]

    -- The two servers have the same bank.
    Mirrors-bank_of : (s b : Server W) → Mirrors s b → bank_of b ≡ bank_of s
    Mirrors-bank_of s b m = rw (m.clients, m.history, m.transactions, m.transferred)

    -- A new primary with the accounts of an old one answers a request that the old one granted.
    promoted-duplicate :
        (s r : Server W) (src : Text) (addr : ℕ) (value seqn seqn' : ℤ)
        → Mirrors s r
        → HasUsed src (p.inet_ntop addr) seqn s
        → seqn' ≤ℤ seqn
        → (o : Outcome W) × (process_transaction r src addr value seqn' ≡ some o)
          × (o.status ≡ TransactionStatus.error_duplicate_request)
          × (bank_of o.server ≡ bank_of s)
          × (o.sent ≡ [])
    unfolding HasUsed
    promoted-duplicate s r src addr value seqn seqn' m u le =
        let same_bank = Mirrors-bank_of s r m in
        let (o, answered, truth) = process_transaction-Answers r src addr value seqn' in
        let duplicate =
          Used-duplicate (bank_of r) src (p.inet_ntop addr) value seqn seqn'
            (subst (λ (b : Bank W). Used b.book src (p.inet_ntop addr) seqn) (sym same_bank) u)
            le in
        (
          o,
          answered,
          truth.judged ∙ duplicate,
          (rw duplicate at truth.accounts) ∙ same_bank,
          rw (truth.judged ∙ duplicate) at truth.quiet,
        )

    -- A primary grants a request, and a backup that is registered exactly once with it has the
    -- same accounts afterwards. The primary serves any sequence of discoveries, requests and
    -- registrations of other backups, with 32-bit addresses, and the packets for the backup arrive
    -- in the order of sending and without loss. The backup then stands for election, and hears
    -- only packets that tell of no accounts and do not beat it. All of this runs without a fault
    -- and makes the backup a primary. A request of the first client to the same destination, with
    -- the sequence number of the granted request or a lower one and any amount, is answered by the
    -- new primary with ERROR_DUPLICATE_REQUEST: accounts, history and counters are those that the
    -- old primary had, and nothing is sent to the backups.
    pub promoted-once :
        (laws : NetLaws W) (s b : Server W) (src : Text) (addr : ℕ) (value seqn value' seqn' : ℤ)
        (o : Outcome W) (inputs : List (Input W)) (packets : List (Packet W × SockAddr))
        → process_transaction s src addr value seqn ≡ some o
        → o.status ≡ TransactionStatus.success
        → seqn' ≤ℤ seqn
        → Linked back o.server b
        → AllRegular back inputs
        → IsSilent packets
        → beats_any b.server_id packets ≡ false
        → (s' b' c : Server W) × (sent : List (Send W)) × (o' : Outcome W) × (serve_all o.server
              inputs
            ≡ some (s', sent))
          × (receive_all b (delivered back sent) from ≡ some b')
          × (hear_all (start_election b').server packets ≡ some c)
          × ((finish_election c).server.current_role ≡ ServerRole.primary)
          × (process_transaction (finish_election c).server src addr value' seqn' ≡ some o')
          × (o'.status ≡ TransactionStatus.error_duplicate_request)
          × (bank_of o'.server ≡ bank_of s')
          × (o'.sent ≡ [])
    unfolding HasUsed
    promoted-once laws s b src addr value seqn value' seqn' o inputs packets done ok le linked
          regular silent unbeaten =
        let truth = process_transaction-Truthful s src addr value seqn o done in
        let granted : HasUsed src (p.inet_ntop addr) seqn o.server =
          subst (λ (b : Bank W). Used b.book src (p.inet_ntop addr) seqn) (sym truth.accounts)
            (Used-granted (bank_of s) src (p.inet_ntop addr) value seqn (sym truth.judged ∙ ok)) in
        let (s', sent, served, b', received, linked') =
          serve_all-Served laws back from o.server b inputs linked regular in
        let (c, heard, leads, kept) = election-Mirrors_primary b' packets linked'.follows silent (
          ap (λ id. beats_any id packets) (receive_all-id b b' (delivered back sent) received)
          ∙ unbeaten) in
        let (o', answered, duplicate, same_bank, quiet) =
          promoted-duplicate s' (finish_election c).server src addr value' seqn seqn'
            (Mirrors_trans s' b' (finish_election c).server linked'.equal kept)
            (serve_all-HasUsed src (p.inet_ntop addr) seqn o.server s' sent inputs served granted)
            le in
        (s', b', c, sent, o', served, received, heard, leads, answered, duplicate, same_bank, quiet)
