-- ===== src/Replication/Rejoin.antt =====
-- A backup of the old primary that follows a new one: handleNewPrimaryAnnouncementPacket, then
-- registerBackup at the new primary, then handleClientUpdate and handleHistoryEntry at the backup
-- (T1/server/Server.cpp).
use mathlib.Core.List.{append_assoc}
use sis_op_ii.Common.{
  ℕ, ◌^◌, ◌<◌, ◌≡◌, ◌≢◌, refl, sym, ap, ◌∙◌, true, some, List, [], ◌∷◌, ◌++◌, map, arith, length,
  if◌then◌else◌, subst,
}
use sis_op_ii.Common.Int.{ℤ, pos}
use sis_op_ii.Common.Word.{add_int}
use sis_op_ii.Protocol.{ServerRole, PacketType, Transaction, Packet, SockAddr, ClientDto}
use sis_op_ii.Protocol.CharArray.{IsAddress, c_string-copy_ip_address}
use sis_op_ii.Platform.{Platform, NetLaws}
use sis_op_ii.Server.State.{Server}
use sis_op_ii.Server.Clients.{find_client}
use sis_op_ii.Server.Clients.Append.{Found-append, Found-append_new}
use sis_op_ii.Server.Registration.{
  client_update_packet, history_packet, handle_client_update, register_backup, sync_packets,
}
use sis_op_ii.Server.Registration.Join.{handle_client_update-known}
use sis_op_ii.Server.Election.{
  Reaction, silent, id_packet, sender_id, bare_packet, handle_new_primary_announcement,
  follow_primary,
}
use sis_op_ii.Server.Dispatch.{replies, handle_packet, dispatch}
use sis_op_ii.Server.Dispatch.Types.{dispatch-type}
use sis_op_ii.Replication.Mirrors.{Mirrors}
use sis_op_ii.Replication.Sync.{
  client_update-taken, receive_all, AllFresh, count_from, volume_from, with_entries,
  receive-entries,
}
use sis_op_ii.Replication.Fresh.{IsConsistent, map-first, with_entries-fields}

-- A count over one history and then over another.
count_from-append :
    (n : ℤ) (xs ys : List Transaction) → count_from n (xs ++ ys) ≡ count_from (count_from n xs) ys
count_from-append n [] ys = refl
count_from-append n (x ∷ xs) ys = count_from-append (add_int n (pos 1)) xs ys

volume_from-append :
    (n : ℤ) (xs ys : List Transaction)
    → volume_from n (xs ++ ys) ≡ volume_from (volume_from n xs) ys
volume_from-append n [] ys = refl
volume_from-append n (x ∷ xs) ys = volume_from-append (add_int n x.value) xs ys

module _ {W : Type 0} where
  -- Each of some clients is among the known ones, under an address that fits a packet.
  AllKnown : List (ClientDto W) → List (ClientDto W) → Type 0
  AllKnown known [] = Unit {0}
  AllKnown known (c ∷ cs) =
      ((i : ℕ) × (find_client c.address known ≡ some i)) × IsAddress c.address × AllKnown known cs

  AllFresh-AllKnown :
      (before cs : List (ClientDto W)) → AllFresh before cs → AllKnown (before ++ cs) cs
  unfolding AllKnown
  AllFresh-AllKnown before [] fresh = tt
  AllFresh-AllKnown before (c ∷ cs) (missing, fits, later) =
      let here =
        Found-append c.address (before ++ c ∷ []) cs (length before) c
          (Found-append_new c.address before c missing refl) in
      subst (λ known. AllKnown known (c ∷ cs)) (append_assoc before (c ∷ []) cs)
        ((length before, here.found), fits, AllFresh-AllKnown (before ++ c ∷ []) cs later)

module _ {W : Type 0} ⦃p : Platform W⦄ (laws : NetLaws W) (addr : SockAddr) where
  update-known :
      (b : Server W) (c : ClientDto W) (i : ℕ)
      → find_client c.address b.clients ≡ some i
      → IsAddress c.address
      → handle_client_update b (client_update_packet c) ≡ some b
  unfolding client_update_packet
  update-known b c i known fits =
      handle_client_update-known b (client_update_packet c) c.address i
        (c_string-copy_ip_address c.address fits) known

  dispatch-known :
      (b : Server W) (c : ClientDto W) (i : ℕ)
      → b.current_role ≡ ServerRole.backup
      → find_client c.address b.clients ≡ some i
      → IsAddress c.address
      → dispatch b (client_update_packet c) addr ≡ some (silent b)
  unfolding client_update_packet handle_packet
  dispatch-known b c i role known fits =
      dispatch-type laws b (client_update_packet c) addr PacketType.add_client_update refl
      ∙ client_update-taken laws addr b b (client_update_packet c) role
          (update-known b c i known fits)

  -- A backup passes over clients that it knows.
  receive-known :
      (b : Server W) (cs : List (ClientDto W)) (rest : List (Packet W))
      → b.current_role ≡ ServerRole.backup
      → AllKnown b.clients cs
      → receive_all b (map client_update_packet cs ++ rest) addr ≡ receive_all b rest addr
  unfolding receive_all AllKnown
  receive-known b [] rest role known = refl
  receive-known b (c ∷ cs) rest role ((i, here), fits, later) =
      rw (dispatch-known b c i role here fits) (receive-known b cs rest role later)

  -- A survivor and a new primary with the same accounts.
  module _ (back : SockAddr) (s b : Server W) (leads : s.current_role ≡ ServerRole.primary)
      (follows : b.current_role ≡ ServerRole.backup) (equal : Mirrors s b)
      (consistent : IsConsistent s) (small : s.server_id < 2 ^ 32)
      (other : s.server_id ≢ b.server_id) where
    abbrev announcement : Packet W
    announcement = id_packet PacketType.new_primary_announcement s.server_id

    -- The survivor after the announcement.
    abbrev follower : Server W
    follower = record b {
      election_lost = if b.election_in_progress then true else b.election_lost;
      primary_alive = true;
      current_role = ServerRole.backup;
      backup_servers = [];
      primary_server_addr = addr;
    }

    follow :
        (r : Reaction W) × (dispatch b announcement addr ≡ some r)
        × (r.sent ≡ ((bare_packet PacketType.register_backup, addr) ∷ []))
        × (r.server ≡ follower)
    unfolding handle_packet handle_new_primary_announcement follow_primary id_packet sender_id
    follow = (
      _,
      dispatch-type laws b announcement addr PacketType.new_primary_announcement refl,
      ground (arith, laws.ntohl-htonl s.server_id small),
      ground (arith, laws.ntohl-htonl s.server_id small),
    )

    enlist :
        dispatch s (bare_packet PacketType.register_backup) back
        ≡ some (replies (register_backup s back))
    unfolding handle_packet bare_packet
    enlist =
        dispatch-type laws s (bare_packet PacketType.register_backup) back
          PacketType.register_backup refl
        ∙ rw leads

    taken :
        receive_all follower (map (λ m. m.0) (register_backup s back).1) addr
        ≡ some (with_entries follower s.transaction_history)
    unfolding register_backup sync_packets
    taken = rw (map-first back) (
        receive-known follower s.clients (map history_packet s.transaction_history) refl (
          subst (λ known. AllKnown known s.clients) (sym equal.clients)
            (AllFresh-AllKnown [] s.clients consistent.registered))
        ∙ receive-entries laws addr follower s.transaction_history refl)

    -- A new primary, whose clients have distinct addresses that fit a packet and whose counters
    -- are those of its history, announces itself to a backup of the old primary that has the same
    -- accounts and another id; ids are 32-bit numbers. The backup follows and asks to register,
    -- and the new primary sends it clients and history. The backup takes all of it without a
    -- fault: its clients and its total balance stay, but its history is then the primary's written
    -- twice, and its counters are those of that doubled history.
    pub rejoin-doubles :
        (r q : Reaction W) × (b' : Server W) × (dispatch b announcement addr ≡ some r)
        × (r.sent ≡ ((bare_packet PacketType.register_backup, addr) ∷ []))
        × (dispatch s (bare_packet PacketType.register_backup) back ≡ some q)
        × (receive_all r.server (map (λ m. m.0) q.sent) addr ≡ some b')
        × (b'.clients ≡ s.clients)
        × (b'.total_balance ≡ s.total_balance)
        × (b'.transaction_history ≡ s.transaction_history ++ s.transaction_history)
        × (b'.num_transactions
            ≡ count_from (pos 0) (s.transaction_history ++ s.transaction_history))
        × (b'.total_transferred
            ≡ volume_from (pos 0) (s.transaction_history ++ s.transaction_history))
    rejoin-doubles =
        let (r, heard, asks, becomes) = follow in
        let after = with_entries-fields follower s.transaction_history in
        (
          r,
          replies (register_backup s back),
          with_entries follower s.transaction_history,
          heard,
          asks,
          enlist,
          rw becomes taken,
          after.clients ∙ equal.clients,
          after.money ∙ equal.money,
          after.history ∙ ap (λ ts. ts ++ s.transaction_history) equal.history,
          after.transactions
              ∙ ap (λ n. count_from n s.transaction_history)
                  (equal.transactions ∙ consistent.counted)
              ∙ sym (count_from-append (pos 0) s.transaction_history s.transaction_history),
          after.transferred
              ∙ ap (λ n. volume_from n s.transaction_history)
                  (equal.transferred ∙ consistent.measured)
              ∙ sym (volume_from-append (pos 0) s.transaction_history s.transaction_history),
        )
