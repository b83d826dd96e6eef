-- ===== src/Replication/Lost.antt =====
-- A backup that has missed a packet of its primary (propagateTransaction and handleStateUpdate in
-- T1/server/Server.cpp): nothing is sent again.
pub mod Runs
use mathlib.Core.List.{append-nil}
use sis_op_ii.Common.{
  ℕ, suc, ◌+◌, ◌^◌, ◌<◌, ◌≡◌, refl, sym, ap, subst, ◌∙◌, inl, inr, Bool, true, false, Option, none,
  some, List, [], ◌∷◌, ◌++◌, arith, length, length-append, if◌then◌else◌, ◌>>=◌, Option-cases,
  some_inj, OnSome, OnSome-some, OnSome-then, OnSome-pure,
}
use sis_op_ii.Common.Word.{to_int}
use sis_op_ii.Protocol.{
  ServerRole, TransactionStatus, PacketType, packet_code, Transaction, Packet, SockAddr,
}
use sis_op_ii.Protocol.CharArray.{c_string}
use sis_op_ii.Platform.{Platform, NetLaws, read_req, read_state_update, read_client_update}
use sis_op_ii.Server.State.{Server, Send, send_to_all}
use sis_op_ii.Server.Clients.{find_client, write, set_balance, set_last_request}
use sis_op_ii.Server.Registration.{
  handle_state_update, handle_client_update, take_client, find_or_add,
}
use sis_op_ii.Server.Election.{Reaction, silent}
use sis_op_ii.Server.Dispatch.{handle_packet, dispatch}
use sis_op_ii.Server.Dispatch.Types.{dispatch-type}
use sis_op_ii.Protocol.{is_backup}
use sis_op_ii.Replication.Delivery.{
  same_addr, times, delivered, delivered-append, delivered-send_to_all, delivered-elsewhere,
  times-append,
}
use sis_op_ii.Replication.Sync.{receive_all, receive_all-append}
use sis_op_ii.Replication.Transactions.{Levels, process_transaction-Replicates}
use sis_op_ii.Replication.Joins.{add_client-JoinLevels}
use sis_op_ii.Server.Transactions.{Outcome, transaction_ack, handle_transaction_request}
use sis_op_ii.Server.Registration.{
  add_client, discovery_ack, handle_discovery_packet, register_backup, sync_packets,
}
use sis_op_ii.Replication.Run.{
  Input, arrival, request, registration, serve, serve_all, IsRegular, AllRegular,
}
use sis_op_ii.Replication.Run.Taken.{
  process_transaction-role, add_client-role, receive-reply, dispatch-discovery_ack,
  dispatch-transaction_ack, receive-update, taken-follows,
}
use sis_op_ii.Replication.Mirrors.{Mirrors}

module _ {W : Type 0} ⦃p : Platform W⦄ where
  abbrev pub history : Server W → List Transaction
  history s = s.transaction_history

  pub state_update-history :
      (b b' : Server W) (packet : Packet W)
      → handle_state_update b packet ≡ some b'
      → history b' ≡ history b ++ (read_state_update packet.contents).transaction ∷ []
  unfolding handle_state_update
  state_update-history b b' packet e =
      let u = read_state_update packet.contents in
      OnSome-some (λ b'. history b' ≡ history b ++ u.transaction ∷ [])
        (handle_state_update b packet) b'
        (OnSome-then _ (c_string u.source_ip) _ λ source_ip.
          OnSome-then _ (c_string u.dest_ip) _ λ dest_ip.
            let r = find_or_add source_ip b.clients in
            let q = find_or_add dest_ip r.0 in
            OnSome-then _ (if q.2 then none else r.1) _ λ i. OnSome-then _ q.1 _ λ j.
              OnSome-then _ (write i (set_balance u.source_balance) q.0) _ λ debited.
                OnSome-then _ (write j (set_balance u.dest_balance) debited) _ λ credited.
                  OnSome-then _ (write i (set_last_request u.transaction.client_seqn) credited) _
                    λ clients. OnSome-pure _ _ refl)
        e

  pub client_update-history :
      (b b' : Server W) (packet : Packet W)
      → handle_client_update b packet ≡ some b'
      → history b' ≡ history b ++ []
  unfolding handle_client_update take_client
  client_update-history b b' packet e =
      let u = read_client_update packet.contents in
      OnSome-some (λ b'. history b' ≡ history b ++ []) (handle_client_update b packet) b'
        (OnSome-then _ (c_string u.ip) _ λ ip.
          OnSome-pure _ _ (elim (Option-cases (find_client ip b.clients)) [
            | inl none_there ↦ rw (take_client, none_there) (sym (append-nil (history b)))
            | inr (i, known) ↦ rw (take_client, known) (sym (append-nil (history b)))
          ]))
        e

  pub Mirrors_self : (s : Server W) → Mirrors s s
  Mirrors_self s = record {
    clients = refl;
    history = refl;
    transactions = refl;
    transferred = refl;
    money = refl;
  }

  -- The histories of the primary and of the backup grow by the same entries.
  abbrev pub Grown : Server W → Server W → Server W → Server W → Type 0
  Grown s b s' b' =
      (new : List Transaction) × (history s' ≡ history s ++ new) × (history b' ≡ history b ++ new)

  -- What a primary and its backup do with one input.
  abbrev pub Follows : Server W → Server W → Server W → Server W → Type 0
  Follows s b s' b' = (b'.current_role ≡ ServerRole.backup) × Grown s b s' b'

  abbrev pub quietly : Option (Server W) → Option (Reaction W)
  quietly handled = handled >>= λ s'. some (silent s')

  module _ (laws : NetLaws W) (back from : SockAddr) where
    receive-fault :
        (s b : Server W) (packet reply : Packet W) (client : SockAddr)
        → times back s.backup_servers ≡ 1
        → dispatch b packet from ≡ none
        → receive_all b
            (delivered back (send_to_all packet s.backup_servers ++ (reply, client) ∷ []))
            from
          ≡ none
    unfolding receive_all
    receive-fault s b packet reply client once fault =
        rw
          (
            delivered-append back (send_to_all packet s.backup_servers) ((reply, client) ∷ []),
            delivered-send_to_all back packet s.backup_servers,
            once,
            fault,
          )
          refl

    pub state_update-dispatch :
        (b : Server W) (packet : Packet W)
        → packet.type ≡ p.htons (packet_code PacketType.state_update)
        → b.current_role ≡ ServerRole.backup
        → dispatch b packet from ≡ quietly (handle_state_update b packet)
    unfolding handle_packet
    state_update-dispatch b packet typed follows =
        dispatch-type laws b packet from PacketType.state_update typed
        ∙ ap
            (λ role.
              if is_backup role then quietly (handle_state_update b packet) else some (silent b))
            follows

    pub client_update-dispatch :
        (b : Server W) (packet : Packet W)
        → packet.type ≡ p.htons (packet_code PacketType.add_client_update)
        → b.current_role ≡ ServerRole.backup
        → dispatch b packet from ≡ quietly (handle_client_update b packet)
    unfolding handle_packet
    client_update-dispatch b packet typed follows =
        dispatch-type laws b packet from PacketType.add_client_update typed
        ∙ ap
            (λ role.
              if is_backup role then quietly (handle_client_update b packet) else some (silent b))
            follows

    -- The packets of an input that has sent one update, and a reply that the backup ignores.
    pub Grown-update :
        (s b s' b' : Server W) (packet reply : Packet W) (client : SockAddr)
        (handled : Option (Server W)) (new : List Transaction)
        → times back s.backup_servers ≡ 1
        → b.current_role ≡ ServerRole.backup
        → dispatch b packet from ≡ quietly handled
        → history s' ≡ history s ++ new
        → ((b1 : Server W) → handled ≡ some b1 → history b1 ≡ history b ++ new)
        → ((b : Server W) → dispatch b reply from ≡ some (silent b))
        → receive_all b
            (delivered back (send_to_all packet s.backup_servers ++ (reply, client) ∷ []))
            from
          ≡ some b'
        → Follows s b s' b'
    Grown-update s b s' b' packet reply client none new once follows taken more grows ignored
          received =
        absurd (cc (received, receive-fault s b packet reply client once taken))
    Grown-update s b s' b' packet reply client (some b1) new once follows taken more grows ignored
          received =
        let same : b1 ≡ b' = some_inj (
          sym (receive-update laws back from s b b1 packet reply client once taken (ignored b1))
          ∙ received) in
        subst (Follows s b s') same
          (taken-follows laws back from b b1 packet taken follows, (new, more, grows b1 refl))

    -- Any other packets leave the history alone on both sides.
    pub Grown-same :
        (s b s' b' : Server W) (packets : List (Packet W))
        → b.current_role ≡ ServerRole.backup
        → history s' ≡ history s
        → receive_all b packets from ≡ some b
        → receive_all b packets from ≡ some b'
        → Follows s b s' b'
    Grown-same s b s' b' packets follows same takes received =
        subst (Follows s b s') (some_inj (sym takes ∙ received))
          (follows, ([], same ∙ sym (append-nil (history s)), sym (append-nil (history b))))

    -- What a primary does with one input, and its backup with the packets of it.
    pub Goes : Server W → Option (Server W × List (Send W)) → Type 0
    Goes s r =
        (s' : Server W) × (sent : List (Send W)) × (r ≡ some (s', sent))
        × (s'.current_role ≡ ServerRole.primary)
        × (times back s'.backup_servers ≡ 1)
        × ((b b' : Server W)
            → b.current_role ≡ ServerRole.backup
            → receive_all b (delivered back sent) from ≡ some b'
            → Follows s b s' b')
