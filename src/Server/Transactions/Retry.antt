-- ===== src/Server/Transactions/Retry.antt =====
-- The parts of a request that comes again: its accounts, and the check of its sequence number.
use sis_op_ii.Common.{◌≡◌, refl, Option, none, some, Text, same, same_refl, arith, if◌then◌else◌}
use sis_op_ii.Common.Int.{ℤ, ◌≤ℤ◌}
use sis_op_ii.Protocol.{TransactionStatus, ClientDto}
use sis_op_ii.Platform.{Platform}
use sis_op_ii.Server.Clients.{set_last_request}
use sis_op_ii.Server.Transactions.{check_request}
use sis_op_ii.Server.Transactions.Settle.{transferred, credit, debit}
use sis_op_ii.Server.Transactions.Bank.{judged}

module _ {W : Type 0} ⦃p : Platform W⦄ where
  pub transferred-source :
      (src dst : Text) (value seqn : ℤ) (book : Text → Option (ClientDto W)) (c : ClientDto W)
      → book src ≡ some c
      → (e : ClientDto W) × (transferred src dst value seqn book src ≡ some e) × (e.last_req ≡ seqn)
  transferred-source src dst value seqn book c h = (
    set_last_request seqn (if same dst src then credit value (debit value c) else debit value c),
    ground (arith, same_refl src),
    refl,
  )

  pub transferred-dest :
      (src dst : Text) (value seqn : ℤ) (book : Text → Option (ClientDto W)) (d : ClientDto W)
      → book dst ≡ some d
      → (e : ClientDto W) × (transferred src dst value seqn book dst ≡ some e)
  transferred-dest src dst value seqn book d h = (
    let e = credit value (if same src dst then debit value d else d) in
        if same src dst then set_last_request seqn e else e,
    ground (arith, same_refl dst),
  )

  -- Both accounts exist when a request is granted.
  pub judged-success :
      (c d : Option (ClientDto W)) (value seqn : ℤ)
      → judged c d value seqn ≡ TransactionStatus.success
      → (c' : ClientDto W) × (d' : ClientDto W) × (c ≡ some c') × (d ≡ some d')
  judged-success none d value seqn h = cc
  judged-success (some c) none value seqn h = cc
  judged-success (some c) (some d) value seqn h = (c, d, refl, refl)

  -- A sequence number that is not above the last one is a duplicate, whatever is asked.
  pub check_request-duplicate :
      (c : ClientDto W) (value seqn last : ℤ)
      → c.last_req ≡ last
      → seqn ≤ℤ last
      → check_request c value seqn ≡ TransactionStatus.error_duplicate_request
  unfolding check_request
  check_request-duplicate c value seqn last e h = ground arith
