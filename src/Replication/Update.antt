-- ===== src/Replication/Update.antt =====
-- The packet of a transaction, and what it does to a backup.
use sis_op_ii.Common.{
  ℕ, ◌^◌, ◌<◌, ◌≡◌, sym, ap, ◌∙◌, inl, inr, some, List, Text, same, same→eq, same_comm, arith,
  modify, modify-modify, Bool-cases,
}
use sis_op_ii.Common.Int.{ℤ}
use sis_op_ii.Protocol.{StateUpdateData, Packet, ClientDto}
use sis_op_ii.Protocol.CharArray.{copy_ip, c_string, c_string-copy_ip_address}
use sis_op_ii.Platform.{Platform, NetLaws, read_state_update}
use sis_op_ii.Server.State.{Server, notify}
use sis_op_ii.Server.Clients.{set_balance, set_last_request}
use sis_op_ii.Server.Clients.Lookup.{Found}
use sis_op_ii.Server.Transactions.{state_update_packet}
use sis_op_ii.Server.Transactions.Settle.{
  source-moved, dest-moved, source_settled, dest_settled, dest_debited, moved,
}
use sis_op_ii.Server.Transactions.Process.{entry_of, source_now, dest_now, server_after}
use sis_op_ii.Server.Registration.{handle_state_update}
use sis_op_ii.Server.Registration.StateUpdate.{updated, applied, handle_state_update-known}
use sis_op_ii.Replication.Mirrors.{Mirrors}

module _ {W : Type 0} ⦃p : Platform W⦄ where
  -- Of two balances written to one client only the second stays.
  overwrite :
      (i : ℕ) (x y z : W) (cs : List (ClientDto W))
      → modify i (set_balance x) (modify i (set_balance y) cs)
        ≡ modify i (set_balance x) (modify i (set_balance z) cs)
  overwrite i x y z cs =
      modify-modify i (set_balance x) (set_balance y) cs
      ∙ sym (modify-modify i (set_balance x) (set_balance z) cs)

  same_index :
      {src dst : Text} {cs : List (ClientDto W)} {i j : ℕ} {c d : ClientDto W}
      → Found src cs i c
      → Found dst cs j d
      → src ≡ dst
      → j ≡ i
  same_index from onto e = ground (arith, from.found, onto.found)

  module _ (src dst : Text) (cs : List (ClientDto W)) (i j : ℕ) (c d : ClientDto W)
      (from : Found src cs i c) (onto : Found dst cs j d) (value seqn : ℤ) where
    -- Writing the final balances gives what the transfer gave: also where both clients are one,
    -- since then both balances sent are the final one.
    updated-moved :
        updated cs i j
          (source_settled src dst cs i j c d from onto value seqn).balance
          (dest_settled src dst cs i j c d from onto value seqn).balance
          seqn
        ≡ moved cs i j c (dest_debited src dst c d value) value seqn
    updated-moved = elim (Bool-cases (same src dst)) [
      | inl itself ↦
          rw (itself, same_comm dst src ∙ itself, same_index from onto (same→eq src dst itself))
            (ap (modify i (set_last_request seqn)) (overwrite i _ _ _ cs))
      | inr other ↦ rw (other, same_comm dst src ∙ other)
    ]

  -- The update packet of a transaction takes a backup that mirrors the primary to one that mirrors
  -- it again.
  module _ (s b : Server W) (laws : NetLaws W) (mirrors : Mirrors s b) (sender addr : ℕ)
      (sender_small : sender < 2 ^ 32) (addr_small : addr < 2 ^ 32) (value seqn : ℤ) (i j : ℕ)
      (c d : ClientDto W) (from : Found (p.inet_ntop sender) s.clients i c)
      (onto : Found (p.inet_ntop addr) s.clients j d) where
    abbrev pub update_packet : Packet W
    update_packet =
        state_update_packet (entry_of s (p.inet_ntop sender) (p.inet_ntop addr) value seqn)
          (source_now s (p.inet_ntop sender) addr value seqn i j c d from onto)
          (dest_now s (p.inet_ntop sender) addr value seqn i j c d from onto)

    abbrev update_data : StateUpdateData W
    update_data = read_state_update update_packet.contents

    source_text : c_string update_data.source_ip ≡ some (p.inet_ntop sender)
    unfolding state_update_packet
    source_text =
        let source_at =
          source-moved (p.inet_ntop sender) (p.inet_ntop addr) s.clients i j c d from onto value
            seqn in
        ap (λ a. c_string (copy_ip a)) source_at.addressed
        ∙ c_string-copy_ip_address (p.inet_ntop sender)
            (laws.inet_ntop-IsAddress sender sender_small)

    dest_text : c_string update_data.dest_ip ≡ some (p.inet_ntop addr)
    unfolding state_update_packet
    dest_text =
        let dest_at =
          dest-moved (p.inet_ntop sender) (p.inet_ntop addr) s.clients i j c d from onto value
            seqn in
        ap (λ a. c_string (copy_ip a)) dest_at.addressed
        ∙ c_string-copy_ip_address (p.inet_ntop addr) (laws.inet_ntop-IsAddress addr addr_small)

    pub state_update-Mirrors :
        (b' : Server W) × (handle_state_update b update_packet ≡ some b')
        × Mirrors
            (notify (server_after s (p.inet_ntop sender) addr value seqn i j c d from onto))
            b'
    unfolding state_update_packet server_after
    state_update-Mirrors = (
      applied b i j (p.inet_ntop sender) (p.inet_ntop addr) update_data,
      handle_state_update-known b update_packet (p.inet_ntop sender) (p.inet_ntop addr) i j c d
          source_text dest_text (rw mirrors.clients from) (rw mirrors.clients onto),
      record {
        clients = rw mirrors.clients (
            updated-moved (p.inet_ntop sender) (p.inet_ntop addr) s.clients i j c d from onto value
              seqn);
        history = rw mirrors.history;
        transactions = rw mirrors.transactions;
        transferred = rw mirrors.transferred;
        money = mirrors.money;
      },
    )
