-- ===== src/Replication/Run/Steps.antt =====
-- Each input of a primary, taken by its backup, and a whole sequence of them.
use sis_op_ii.Common.{◌^◌, ◌<◌, ◌≡◌, refl, ◌∙◌, inl, inr, false, some, List, [], ◌∷◌, ◌++◌}
use sis_op_ii.Common.Word.{to_int}
use sis_op_ii.Protocol.{TransactionStatus, PacketType, Packet, SockAddr}
use sis_op_ii.Platform.{Platform, NetLaws, read_req}
use sis_op_ii.Server.State.{Server}
use sis_op_ii.Server.Transactions.{Outcome, transaction_ack, handle_transaction_request}
use sis_op_ii.Server.Registration.{
  add_client, discovery_ack, handle_discovery_packet, register_backup, sync_packets,
}
use sis_op_ii.Server.Election.{silent}
use sis_op_ii.Server.Dispatch.{handle_packet, dispatch}
use sis_op_ii.Server.Dispatch.Types.{dispatch-type}
use sis_op_ii.Replication.Delivery.{
  same_addr, delivered, delivered-append, delivered-elsewhere, times-append,
}
use sis_op_ii.Replication.Transactions.{Levels, process_transaction-Replicates}
use sis_op_ii.Replication.Joins.{add_client-JoinLevels}
use sis_op_ii.Replication.Sync.{client_update-taken, receive_all, receive_all-append}
use sis_op_ii.Replication.Run.{
  Input, arrival, request, registration, serve, serve_all, Linked, IsRegular, AllRegular, Served,
}
use sis_op_ii.Replication.Run.Taken.{
  process_transaction-role, add_client-role, receive-reply, dispatch-discovery_ack,
  dispatch-transaction_ack, receive-update, taken-follows, state_update-taken,
}

module _ {W : Type 0} ⦃p : Platform W⦄ where
  module _ (laws : NetLaws W) (back from : SockAddr) where
    serve-arrival :
        (s b : Server W) (client : SockAddr)
        → Linked back s b
        → client.sin_addr < 2 ^ 32
        → Served back from b (serve s (arrival client))
    unfolding serve handle_discovery_packet handle_packet
    serve-arrival s b client linked small =
        let ip = p.inet_ntop client.sin_addr in
        let s' = (add_client s ip).0 in
        let (role, backups) = add_client-role s ip in
        elim (add_client-JoinLevels laws s b linked.leads linked.equal client.sin_addr small) [
          | inl (known, stays, nothing_sent) ↦ (
            s',
            (add_client s ip).1 ++ (discovery_ack, client) ∷ [],
            rw linked.leads,
            b,
            rw nothing_sent (
                receive-reply laws back from b discovery_ack client
                  (dispatch-discovery_ack laws back from b)),
            rw stays linked,
          )
          | inr (new, joined, packet, told, typed, b', handled, equal) ↦
              let taken : dispatch b packet from ≡ some (silent b') =
                dispatch-type laws b packet from PacketType.add_client_update typed
                ∙ client_update-taken laws from b b' packet linked.follows handled in
              (
                s',
                (add_client s ip).1 ++ (discovery_ack, client) ∷ [],
                rw linked.leads,
                b',
                rw told (
                    receive-update laws back from s b b' packet discovery_ack client linked.once
                      taken (dispatch-discovery_ack laws back from b')),
                record {
                  equal = equal;
                  leads = role ∙ linked.leads;
                  follows = taken-follows laws back from b b' packet taken linked.follows;
                  once = rw backups linked.once;
                },
              )
        ]

    -- The backup after the packets of one outcome and the reply to the client.
    receive-outcome :
        (s b : Server W) (o : Outcome W) (reply : Packet W) (client : SockAddr)
        → Linked back s b
        → o.server.current_role ≡ s.current_role
        → o.server.backup_servers ≡ s.backup_servers
        → ((b' : Server W) → dispatch b' reply from ≡ some (silent b'))
        → (status : TransactionStatus) → Levels status s b o
        → (b' : Server W) × (receive_all b (delivered back (o.sent ++ (reply, client) ∷ [])) from
            ≡ some b')
          × Linked back o.server b'
    unfolding handle_packet
    receive-outcome s b o reply client linked role backups ignored TransactionStatus.success
          (packet, told, typed, b', handled, equal) =
        let taken : dispatch b packet from ≡ some (silent b') =
          dispatch-type laws b packet from PacketType.state_update typed
          ∙ state_update-taken laws back from b b' packet linked.follows handled in
        (
          b',
          rw told (
              receive-update laws back from s b b' packet reply client linked.once taken
                (ignored b')),
          record {
            equal = equal;
            leads = role ∙ linked.leads;
            follows = taken-follows laws back from b b' packet taken linked.follows;
            once = rw backups linked.once;
          },
        )
    receive-outcome s b o reply client linked role backups ignored _ level = (
      b,
      rw level.0 (receive-reply laws back from b reply client (ignored b)),
      record {
        equal = level.1;
        leads = role ∙ linked.leads;
        follows = linked.follows;
        once = rw backups linked.once;
      },
    )

    serve-request :
        (s b : Server W) (packet : Packet W) (client : SockAddr)
        → Linked back s b
        → IsRegular back (request packet client)
        → Served back from b (serve s (request packet client))
    unfolding serve handle_transaction_request
    serve-request s b packet client linked (small, dest_small) =
        let req = read_req packet.contents in
        let value = to_int (p.ntohl req.value) in
        let seqn = to_int (p.ntohl req.seqn) in
        let (o, done, level) =
          process_transaction-Replicates s b laws linked.leads linked.equal client.sin_addr
            req.dest_addr small dest_small value seqn in
        let (role, backups) =
          process_transaction-role s (p.inet_ntop client.sin_addr) req.dest_addr value seqn o
            done in
        let (b', received, again) =
          receive-outcome s b o (transaction_ack seqn o) client linked role backups
            (λ b'. dispatch-transaction_ack laws back from b' seqn o) o.status level in
        (o.server, o.sent ++ (transaction_ack seqn o, client) ∷ [], rw done, b', received, again)

    serve-registration :
        (s b : Server W) (other : SockAddr)
        → Linked back s b
        → same_addr back other ≡ false
        → Served back from b (serve s (registration other))
    unfolding serve register_backup receive_all
    serve-registration s b other linked elsewhere = (
      (register_backup s other).0,
      (register_backup s other).1,
      rw linked.leads,
      b,
      rw (delivered-elsewhere back other (sync_packets s) elsewhere),
      record {
        equal = record {
          clients = linked.equal.clients;
          history = linked.equal.history;
          transactions = linked.equal.transactions;
          transferred = linked.equal.transferred;
          money = linked.equal.money;
        };
        leads = linked.leads;
        follows = linked.follows;
        once = times-append back other s.backup_servers elsewhere ∙ linked.once;
      },
    )

    serve-Served :
        (s b : Server W) (input : Input W)
        → Linked back s b
        → IsRegular back input
        → Served back from b (serve s input)
    serve-Served s b (arrival client) linked small = serve-arrival s b client linked small
    serve-Served s b (request packet client) linked small =
        serve-request s b packet client linked small
    serve-Served s b (registration other) linked elsewhere =
        serve-registration s b other linked elsewhere

    -- A primary and a backup that is registered exactly once hold the same clients, history,
    -- counters and total balance. The primary then serves any sequence of discoveries, requests
    -- and registrations of other backups, where all addresses are 32-bit numbers. It handles all
    -- of them without a fault. If the packets that it sends to the backup's address arrive in the
    -- order of sending and none is lost, the backup's main loop handles them all, and afterwards
    -- the two hold the same again, are still primary and backup, and the backup is still
    -- registered once.
    pub serve_all-Served :
        (s b : Server W) (inputs : List (Input W))
        → Linked back s b
        → AllRegular back inputs
        → Served back from b (serve_all s inputs)
    unfolding serve_all receive_all delivered
    serve_all-Served s b [] linked regular = (s, [], refl, b, refl, linked)
    serve_all-Served s b (input ∷ inputs) linked (here, there) =
        let (s1, sent, served, b1, received, linked1) = serve-Served s b input linked here in
        let (s2, later, served2, b2, received2, linked2) =
          serve_all-Served s1 b1 inputs linked1 there in
        (
          s2,
          sent ++ later,
          rw (served, served2),
          b2,
          rw
              (
                delivered-append back sent later,
                receive_all-append b (delivered back sent) (delivered back later) from,
                received,
              )
              received2,
          linked2,
        )
