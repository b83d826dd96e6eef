-- ===== src/Client/Lossy/Copies.antt =====
-- Copies of one request at the server.
use sis_op_ii.Common.{
  ℕ, zero, suc, ◌≡◌, refl, ap, ◌∙◌, ◌⊎◌, inl, inr, some, Text, Bool-cases, arith,
}
use sis_op_ii.Common.Int.{ℤ}
use sis_op_ii.Common.Word.{IsInt}
use sis_op_ii.Protocol.{status-cases, TransactionStatus, SockAddr}
use sis_op_ii.Platform.{Platform, NetLaws}
use sis_op_ii.Server.State.{Server}
use sis_op_ii.Server.Transactions.Bank.{Bank, bank_of, bank_after, bank_step, verdict}
use sis_op_ii.Server.Transactions.Contract.{process_transaction-Truthful}
use sis_op_ii.Server.Once.Used.{bank_after-refused}
use sis_op_ii.Server.Once.Replay.{Used-granted, Used-duplicate}
use sis_op_ii.Client.Exchange.{Exchanged, request-Exchanged}
use sis_op_ii.Client.Lossy.{Fate, next_server, handled, server_at}

module _ {W : Type 0} ⦃p : Platform W⦄ where
  -- A request that was granted is a duplicate when it comes again.
  pub again-duplicate :
      (b : Bank W) (src dst : Text) (value seqn : ℤ)
      → verdict b src dst value seqn ≡ TransactionStatus.success
      → verdict (bank_step b src dst value seqn) src dst value seqn
        ≡ TransactionStatus.error_duplicate_request
  again-duplicate b src dst value seqn ok =
      Used-duplicate (bank_step b src dst value seqn) src dst value seqn seqn
        (Used-granted b src dst value seqn ok) (omega arith)

  -- The second copy of a request does nothing.
  pub bank_step_twice :
      (b : Bank W) (src dst : Text) (value seqn : ℤ)
      → bank_step (bank_step b src dst value seqn) src dst value seqn
        ≡ bank_step b src dst value seqn
  bank_step_twice b src dst value seqn = elim (status-cases (verdict b src dst value seqn)) [
    | inl ok ↦
        let after = bank_step b src dst value seqn in
        ap (λ st. bank_after st after src dst value seqn) (again-duplicate b src dst value seqn ok)
    | inr ne ↦
        ap (λ (x : Bank W). bank_step x src dst value seqn)
          (bank_after-refused (verdict b src dst value seqn) b src dst value seqn ne)
  ]

  pub bank_step-once :
      (a b : Bank W) (src dst : Text) (value seqn : ℤ)
      → (b ≡ a) ⊎ (b ≡ bank_step a src dst value seqn)
      → bank_step b src dst value seqn ≡ bank_step a src dst value seqn
  bank_step-once a b src dst value seqn (inl untouched) =
      ap (λ (x : Bank W). bank_step x src dst value seqn) untouched
  bank_step-once a b src dst value seqn (inr once) =
      ap (λ (x : Bank W). bank_step x src dst value seqn) once
      ∙ bank_step_twice a src dst value seqn

  module _ (laws : NetLaws W) (client : SockAddr) (dest_ip : Text) (value seqn : ℤ) (addr : ℕ)
      (parsed : p.inet_pton dest_ip ≡ some addr) (value_IsInt : IsInt value)
      (seqn_IsInt : IsInt seqn) (fates : ℕ → Fate) (s : Server W) where
    abbrev src : Text
    src = p.inet_ntop client.sin_addr

    abbrev dst : Text
    dst = p.inet_ntop addr

    -- What the server makes of one copy.
    pub copy :
        (t : Server W)
        → Exchanged laws t client dest_ip value seqn 0 addr
            (handled client dest_ip value seqn fates t)
    copy t = request-Exchanged laws t client dest_ip value seqn 0 addr parsed value_IsInt seqn_IsInt

    next_server-bank :
        (t : Server W)
        → bank_of (next_server t (handled client dest_ip value seqn fates t))
          ≡ bank_step (bank_of t) src dst value seqn
    next_server-bank t =
        let (o, answer, done, thread, reads) = copy t in
        ap (λ r. bank_of (next_server t r)) thread
        ∙ (process_transaction-Truthful t src addr value seqn o done).accounts

    -- Before each round the request has been executed once, or not at all.
    pub server_at-once :
        (k : ℕ)
        → let b = bank_of (server_at client dest_ip value seqn fates s k) in
          (b ≡ bank_of s) ⊎ (b ≡ bank_step (bank_of s) src dst value seqn)
    unfolding server_at
    server_at-once zero = inl refl
    server_at-once (suc k) =
        let t = server_at client dest_ip value seqn fates s k in
        elim (Bool-cases (fates k).arrives) [
          | inr lost ↦ rw lost (server_at-once k)
          | inl arrives ↦ inr (
              rw arrives (
                next_server-bank t
                ∙ bank_step-once (bank_of s) (bank_of t) src dst value seqn (server_at-once k)))
        ]
