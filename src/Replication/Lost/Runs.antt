-- ===== src/Replication/Lost/Runs.antt =====
-- Runs of a primary, and a backup that has missed a packet before.
use mathlib.Core.List.{append_assoc}
use sis_op_ii.Common.{
  ◌^◌, ◌<◌, ◌≡◌, refl, sym, ap, ◌∙◌, inl, inr, false, some, List, [], ◌∷◌, ◌++◌, Option-cases,
  some_inj,
}
use sis_op_ii.Common.Word.{to_int}
use sis_op_ii.Protocol.{ServerRole, TransactionStatus, Packet, SockAddr}
use sis_op_ii.Platform.{Platform, NetLaws, read_req}
use sis_op_ii.Server.State.{Server, Send}
use sis_op_ii.Server.Registration.{handle_client_update, handle_state_update}
use sis_op_ii.Server.Election.{silent}
use sis_op_ii.Server.Dispatch.{handle_packet, dispatch}
use sis_op_ii.Replication.Delivery.{
  same_addr, times, delivered, delivered-append, delivered-elsewhere, times-append,
}
use sis_op_ii.Replication.Sync.{receive_all, receive_all-append}
use sis_op_ii.Replication.Transactions.{Levels, process_transaction-Replicates}
use sis_op_ii.Replication.Joins.{add_client-JoinLevels}
use sis_op_ii.Server.Transactions.{Outcome, transaction_ack, handle_transaction_request}
use sis_op_ii.Server.Registration.{
  add_client, discovery_ack, handle_discovery_packet, register_backup, sync_packets,
}
use sis_op_ii.Replication.Run.{
  Input, arrival, request, registration, serve, serve_all, IsRegular, AllRegular,
}
use sis_op_ii.Replication.Run.Taken.{
  process_transaction-role, add_client-role, receive-reply, dispatch-discovery_ack,
  dispatch-transaction_ack,
}
use sis_op_ii.Replication.Lost.{
  history, state_update-history, client_update-history, state_update-dispatch,
  client_update-dispatch, Mirrors_self, Grown, Follows, Grown-update, Grown-same, Goes,
}

module _ {W : Type 0} ⦃p : Platform W⦄ where
  module _ (laws : NetLaws W) (back from : SockAddr) where
    Goes-arrival :
        (s : Server W) (client : SockAddr)
        → s.current_role ≡ ServerRole.primary
        → times back s.backup_servers ≡ 1
        → client.sin_addr < 2 ^ 32
        → Goes laws back from s (serve s (arrival client))
    unfolding Goes serve handle_discovery_packet handle_packet
    Goes-arrival s client leads once small =
        let ip = p.inet_ntop client.sin_addr in
        let s' = (add_client s ip).0 in
        let (role, backups) = add_client-role s ip in
        (
          s',
          (add_client s ip).1 ++ (discovery_ack, client) ∷ [],
          rw leads refl,
          role ∙ leads,
          rw backups once,
          λ b b' follows received.
              elim (add_client-JoinLevels laws s s leads (Mirrors_self s) client.sin_addr small) [
                | inl (known, stays, nothing_sent) ↦
                    Grown-same laws back from s b s' b'
                      (delivered back ((discovery_ack, client) ∷ [])) follows (ap history stays)
                      (receive-reply laws back from b discovery_ack client
                        (dispatch-discovery_ack laws back from b))
                      (rw nothing_sent at received)
                | inr (new, joined, packet, told, typed, s1, handled, equal) ↦
                    Grown-update laws back from s b s' b' packet discovery_ack client
                      (handle_client_update b packet) [] once follows
                      (client_update-dispatch laws back from b packet typed follows)
                      (sym equal.history ∙ client_update-history s s1 packet handled)
                      (λ b1 done. client_update-history b b1 packet done)
                      (dispatch-discovery_ack laws back from) (rw told at received)
              ],
        )

    Goes-outcome :
        (s : Server W) (o : Outcome W) (reply : Packet W) (client : SockAddr)
        → times back s.backup_servers ≡ 1
        → ((b : Server W) → dispatch b reply from ≡ some (silent b))
        → (status : TransactionStatus) → Levels status s s o
        → (b b' : Server W) → b.current_role ≡ ServerRole.backup
        → receive_all b (delivered back (o.sent ++ (reply, client) ∷ [])) from ≡ some b'
        → Follows s b o.server b'
    Goes-outcome s o reply client once ignored TransactionStatus.success
          (packet, told, typed, s1, handled, equal) b b' follows received =
        Grown-update laws back from s b o.server b' packet reply client
          (handle_state_update b packet) _ once follows
          (state_update-dispatch laws back from b packet typed follows)
          (sym equal.history ∙ state_update-history s s1 packet handled)
          (λ b1 done. state_update-history b b1 packet done) ignored (rw told at received)
    Goes-outcome s o reply client once ignored _ level b b' follows received =
        Grown-same laws back from s b o.server b' (delivered back ((reply, client) ∷ [])) follows
          (sym level.1.history) (receive-reply laws back from b reply client (ignored b))
          (rw level.0 at received)

    Goes-request :
        (s : Server W) (packet : Packet W) (client : SockAddr)
        → s.current_role ≡ ServerRole.primary
        → times back s.backup_servers ≡ 1
        → IsRegular back (request packet client)
        → Goes laws back from s (serve s (request packet client))
    unfolding Goes serve handle_transaction_request
    Goes-request s packet client leads once (small, dest_small) =
        let req = read_req packet.contents in
        let value = to_int (p.ntohl req.value) in
        let seqn = to_int (p.ntohl req.seqn) in
        let (o, done, level) =
          process_transaction-Replicates s s laws leads (Mirrors_self s) client.sin_addr
            req.dest_addr small dest_small value seqn in
        let (role, backups) =
          process_transaction-role s (p.inet_ntop client.sin_addr) req.dest_addr value seqn o
            done in
        (
          o.server,
          o.sent ++ (transaction_ack seqn o, client) ∷ [],
          rw done refl,
          role ∙ leads,
          rw backups once,
          Goes-outcome s o (transaction_ack seqn o) client once
              (λ b. dispatch-transaction_ack laws back from b seqn o) o.status level,
        )

    Goes-registration :
        (s : Server W) (other : SockAddr)
        → s.current_role ≡ ServerRole.primary
        → times back s.backup_servers ≡ 1
        → same_addr back other ≡ false
        → Goes laws back from s (serve s (registration other))
    unfolding Goes serve register_backup receive_all
    Goes-registration s other leads once elsewhere = (
      (register_backup s other).0,
      (register_backup s other).1,
      rw leads refl,
      leads,
      times-append back other s.backup_servers elsewhere ∙ once,
      λ b b' follows received.
          Grown-same laws back from s b (register_backup s other).0 b' [] follows refl refl
            (rw (delivered-elsewhere back other (sync_packets s) elsewhere) at received),
    )

    serve-Goes :
        (s : Server W) (input : Input W)
        → s.current_role ≡ ServerRole.primary
        → times back s.backup_servers ≡ 1
        → IsRegular back input
        → Goes laws back from s (serve s input)
    serve-Goes s (arrival client) leads once small = Goes-arrival s client leads once small
    serve-Goes s (request packet client) leads once small =
        Goes-request s packet client leads once small
    serve-Goes s (registration other) leads once elsewhere =
        Goes-registration s other leads once elsewhere

    Grown-append :
        (s s1 s2 b b' : Server W) (sent later : List (Send W))
        → ((b b' : Server W)
            → b.current_role ≡ ServerRole.backup
            → receive_all b (delivered back sent) from ≡ some b'
            → Follows s b s1 b')
        → ((b b' : Server W)
            → b.current_role ≡ ServerRole.backup
            → receive_all b (delivered back later) from ≡ some b'
            → Follows s1 b s2 b')
        → b.current_role ≡ ServerRole.backup
        → receive_all b (delivered back (sent ++ later)) from ≡ some b'
        → Follows s b s2 b'
    Grown-append s s1 s2 b b' sent later grows grows2 follows received =
        let parts =
          sym (receive_all-append b (delivered back sent) (delivered back later) from)
          ∙ (rw (delivered-append back sent later) at received) in
        elim (Option-cases (receive_all b (delivered back sent) from)) [
          | inl fault ↦ absurd (cc (rw fault at parts))
          | inr (b1, first) ↦
              let (follows1, (new, more, more_b)) = grows b b1 follows first in
              let (follows2, (new2, more2, more_b2)) = grows2 b1 b' follows1 (rw first at parts) in
              (
                follows2,
                (
                  new ++ new2,
                  more2 ∙ ap (λ h. h ++ new2) more ∙ append_assoc (history s) new new2,
                  more_b2 ∙ ap (λ h. h ++ new2) more_b ∙ append_assoc (history b) new new2,
                ),
              )
        ]

    serve_all-Goes :
        (s : Server W) (inputs : List (Input W))
        → s.current_role ≡ ServerRole.primary
        → times back s.backup_servers ≡ 1
        → AllRegular back inputs
        → Goes laws back from s (serve_all s inputs)
    unfolding Goes serve_all receive_all delivered
    serve_all-Goes s [] leads once regular = (
      s,
      [],
      refl,
      leads,
      once,
      λ b b' follows received. Grown-same laws back from s b s b' [] follows refl refl received,
    )
    serve_all-Goes s (input ∷ inputs) leads once (here, there) =
        let (s1, sent, served, leads1, once1, grows) = serve-Goes s input leads once here in
        let (s2, later, served2, leads2, once2, grows2) =
          serve_all-Goes s1 inputs leads1 once1 there in
        (
          s2,
          sent ++ later,
          rw (served, served2) refl,
          leads2,
          once2,
          λ b b' follows received.
              Grown-append s s1 s2 b b' sent later grows grows2 follows received,
        )

    -- A primary and a backup that is registered exactly once may hold accounts that differ in any
    -- way. The primary serves any sequence of discoveries, requests and registrations of other
    -- backups, where all addresses are 32-bit numbers, and the backup takes, in the order of
    -- sending and without a fault, all that the primary sends to its address for them. Then the
    -- same entries, in the same order, have been added at the end of the primary's history and at
    -- the end of the backup's, and nothing else has changed in either history.
    pub serve_all-Grown :
        (s s' b b' : Server W) (inputs : List (Input W)) (sent : List (Send W))
        → s.current_role ≡ ServerRole.primary
        → b.current_role ≡ ServerRole.backup
        → times back s.backup_servers ≡ 1
        → AllRegular back inputs
        → serve_all s inputs ≡ some (s', sent)
        → receive_all b (delivered back sent) from ≡ some b'
        → Grown s b s' b'
    unfolding Goes
    serve_all-Grown s s' b b' inputs sent leads follows once regular served received =
        let (s1, sent1, served1, leads1, once1, grows) =
          serve_all-Goes s inputs leads once regular in
        let same : (s1, sent1) ≡ (s', sent) = some_inj (sym served1 ∙ served) in
        let (follows', (new, more, more_b)) = grows b b' follows (
          ap (λ (r : Server W × List (Send W)). receive_all b (delivered back r.1) from) same
          ∙ received) in
        (new, ap (λ (r : Server W × List (Send W)). history r.0) (sym same) ∙ more, more_b)
