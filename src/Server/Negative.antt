-- ===== src/Server/Negative.antt =====
-- A request with a negative amount.
use sis_op_ii.Common.{
  ℕ, suc, ◌+◌, ◌<◌, ◌≡◌, ap, ◌∙◌, false, some, Text, same, same_refl, same_comm, arith,
}
use sis_op_ii.Common.Int.{ℤ, pos, negsuc, ◌+ℤ◌, ◌-ℤ◌, +ℤ_parts, -ℤ_parts}
use sis_op_ii.Common.Word.{IsInt, add_int-IsInt}
use sis_op_ii.Protocol.{TransactionStatus, ClientDto}
use sis_op_ii.Platform.{Platform, FloatLaws, exact_limit}
use sis_op_ii.Server.State.{Server}
use sis_op_ii.Server.Clients.{set_last_request}
use sis_op_ii.Server.Clients.Lookup.{lookup}
use sis_op_ii.Server.Transactions.{Outcome, check_request, process_transaction}
use sis_op_ii.Server.Transactions.Settle.{transferred, credit, debit}
use sis_op_ii.Server.Transactions.Bank.{Bank, bank_of, bank_after, verdict}
use sis_op_ii.Server.Transactions.Contract.{process_transaction-Answers}

module _ {W : Type 0} ⦃p : Platform W⦄ where
  -- A balance at an address.
  abbrev pub Balance : Server W → Text → ℤ → Type 0
  Balance s ip z = (c : ClientDto W) × (lookup ip s.clients ≡ some c) × (c.balance ≡ p.of_int z)

  check_request-negative :
      (laws : FloatLaws W) (c : ClientDto W) (x n : ℕ)
      → c.balance ≡ p.of_int (pos x)
      → x + suc n < exact_limit
      → IsInt (c.last_req +ℤ pos 1)
      → check_request c (negsuc n) (c.last_req +ℤ pos 1) ≡ TransactionStatus.success
  unfolding check_request
  check_request-negative laws c x n held small next =
      rw
        (
          add_int-IsInt c.last_req (pos 1) next,
          held,
          laws.lt-of_int (pos x) (negsuc n) (record { above = omega arith; below = omega arith })
              (record { above = omega arith; below = omega arith }),
        )
        (ground (arith, +ℤ_parts c.last_req (pos 1)))

  module _ (laws : FloatLaws W) (s : Server W) (src : Text) (addr x y n : ℕ)
      (c d : ClientDto W) where
    -- Two different clients hold whole balances, and the first one sends a request to the second
    -- one with its next sequence number, which is in the range of `int`, and a negative amount. If
    -- its balance less the amount, the other's balance and the amount's size stay within 2 ^ 24,
    -- on a platform whose floats are exact up to there, processTransaction returns SUCCESS: the
    -- first client's balance grows by the size of the amount and the second one's falls by it,
    -- below zero where the amount is larger.
    pub process_transaction-negative :
        lookup src s.clients ≡ some c
        → lookup (p.inet_ntop addr) s.clients ≡ some d
        → same src (p.inet_ntop addr) ≡ false
        → c.balance ≡ p.of_int (pos x)
        → d.balance ≡ p.of_int (pos y)
        → x + suc n < exact_limit
        → y < exact_limit
        → n < exact_limit
        → IsInt (c.last_req +ℤ pos 1)
        → (o : Outcome W) × (process_transaction s src addr (negsuc n) (c.last_req +ℤ pos 1)
            ≡ some o)
          × (o.status ≡ TransactionStatus.success)
          × Balance o.server src (pos x -ℤ negsuc n)
          × Balance o.server (p.inet_ntop addr) (pos y +ℤ negsuc n)
    process_transaction-negative at_src at_dst other rich poor small_x small_y small_n next =
        let dst = p.inet_ntop addr in
        let seqn = c.last_req +ℤ pos 1 in
        let (o, answered, truth) = process_transaction-Answers s src addr (negsuc n) seqn in
        let granted : verdict (bank_of s) src dst (negsuc n) seqn ≡ TransactionStatus.success =
          rw (at_src, at_dst) (check_request-negative laws c x n rich small_x next) in
        let books : (ip : Text)
            → lookup ip o.server.clients ≡ transferred src dst (negsuc n) seqn (bank_of s).book ip =
          λ ip.
            ap (λ (b : Bank W). b.book ip) truth.accounts
            ∙ ap (λ st. (bank_after st (bank_of s) src dst (negsuc n) seqn).book ip) granted in
        (
          o,
          answered,
          truth.judged ∙ granted,
          (
            set_last_request seqn (debit (negsuc n) c),
            books src ∙ rw (same_refl src, same_comm dst src ∙ other, at_src),
            ap (λ w. p.sub w (p.of_int (negsuc n))) rich
                ∙ laws.sub-of_int (pos x) (negsuc n)
                    (record { above = omega arith; below = omega arith })
                    (record { above = omega arith; below = omega arith })
                    (record {
                      above = omega (arith, -ℤ_parts (pos x) (negsuc n));
                      below = omega (arith, -ℤ_parts (pos x) (negsuc n));
                    }),
          ),
          (
            credit (negsuc n) d,
            books dst ∙ rw (same_refl dst, other, at_dst),
            ap (λ w. p.add w (p.of_int (negsuc n))) poor
                ∙ laws.add-of_int (pos y) (negsuc n)
                    (record { above = omega arith; below = omega arith })
                    (record { above = omega arith; below = omega arith })
                    (record {
                      above = omega (arith, +ℤ_parts (pos y) (negsuc n));
                      below = omega (arith, +ℤ_parts (pos y) (negsuc n));
                    }),
          ),
        )
