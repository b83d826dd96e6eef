-- ===== src/Server/Transactions/Money.antt =====
-- Balances as numbers: while they are whole and small, `float` arithmetic is exact.
use native.Mathlib.Decide.{dec_lt}
use sis_op_ii.Common.{
  ℕ, zero, suc, ◌+◌, ◌-◌, ◌≤◌, ◌<◌, ◌≡◌, refl, ap, ◌∙◌, true, false, some, List, [], ◌∷◌, ◌++◌,
  Text, arith, length, get_elem?, modify, length-modify, some_inj, lt→ltb,
}
use sis_op_ii.Common.Int.{ℤ, pos, ◌+ℤ◌, ◌-ℤ◌, int_laws}
use sis_op_ii.Protocol.{TransactionStatus, ClientDto}
use sis_op_ii.Platform.{Platform, FloatLaws, exact_limit}
use sis_op_ii.Server.Clients.{set_balance, set_last_request}
use sis_op_ii.Server.Clients.Lookup.{Found, Found-modify}
use sis_op_ii.Server.Transactions.{check_request}
use sis_op_ii.Server.Transactions.Settle.{moved, dest_debited}

unfoldable pub sum : List ℕ → ℕ
sum [] = 0
sum (z ∷ zs) = z + sum zs

sum-modify :
    (i y : ℕ) (zs : List ℕ) {z : ℕ}
    → get_elem? zs i ≡ some z
    → sum (modify i (λ _. y) zs) + z ≡ sum zs + y
unfolding sum
sum-modify i y [] e = cc
sum-modify zero y (x ∷ zs) e = ground arith
sum-modify (suc i) y (x ∷ zs) e = omega (arith, sum-modify i y zs e)

le-sum : (i : ℕ) (zs : List ℕ) {z : ℕ} → get_elem? zs i ≡ some z → z ≤ sum zs
unfolding sum
le-sum i [] e = cc
le-sum zero (x ∷ zs) e = ground arith
le-sum (suc i) (x ∷ zs) e = omega (arith, le-sum i zs e)

pub sum-append : (ys zs : List ℕ) → sum (ys ++ zs) ≡ sum ys + sum zs
unfolding sum
sum-append [] zs = omega arith
sum-append (y ∷ ys) zs = omega (arith, sum-append ys zs)

module _ {W : Type 0} ⦃p : Platform W⦄ where
  -- Each client's balance is the whole number at its place.
  abbrev pub Holds : List (ClientDto W) → List ℕ → Type 0
  Holds [] [] = Unit
  Holds [] (z ∷ zs) = ⊥
  Holds (c ∷ cs) [] = ⊥
  Holds (c ∷ cs) (z ∷ zs) = (c.balance ≡ p.of_int (pos z)) × Holds cs zs

  holding :
      (cs : List (ClientDto W)) (zs : List ℕ) (i : ℕ) (c : ClientDto W)
      → Holds cs zs
      → get_elem? cs i ≡ some c
      → (z : ℕ) × (get_elem? zs i ≡ some z) × (c.balance ≡ p.of_int (pos z))
  holding [] [] i c h e = cc
  holding [] (z ∷ zs) i c h e = absurd h
  holding (x ∷ cs) [] i c h e = absurd h
  holding (x ∷ cs) (z ∷ zs) zero c h e = (z, refl, rw (← some_inj e) h.0)
  holding (x ∷ cs) (z ∷ zs) (suc i) c h e = holding cs zs i c h.1 e

  Holds-set_balance :
      (cs : List (ClientDto W)) (zs : List ℕ) (i y : ℕ) (x : W)
      → Holds cs zs
      → x ≡ p.of_int (pos y)
      → Holds (modify i (set_balance x) cs) (modify i (λ _. y) zs)
  Holds-set_balance [] [] i y x h e = tt
  Holds-set_balance [] (z ∷ zs) i y x h e = absurd h
  Holds-set_balance (c ∷ cs) [] i y x h e = absurd h
  Holds-set_balance (c ∷ cs) (z ∷ zs) zero y x h e = (e, h.1)
  Holds-set_balance (c ∷ cs) (z ∷ zs) (suc i) y x h e = (h.0, Holds-set_balance cs zs i y x h.1 e)

  Holds-set_last_request :
      (cs : List (ClientDto W)) (zs : List ℕ) (i : ℕ) (q : ℤ)
      → Holds cs zs
      → Holds (modify i (set_last_request q) cs) zs
  Holds-set_last_request [] [] i q h = tt
  Holds-set_last_request [] (z ∷ zs) i q h = absurd h
  Holds-set_last_request (c ∷ cs) [] i q h = absurd h
  Holds-set_last_request (c ∷ cs) (z ∷ zs) zero q h = h
  Holds-set_last_request (c ∷ cs) (z ∷ zs) (suc i) q h = (h.0, Holds-set_last_request cs zs i q h.1)

  pub Holds-append :
      (cs : List (ClientDto W)) (zs : List ℕ) (c : ClientDto W) (z : ℕ)
      → Holds cs zs
      → c.balance ≡ p.of_int (pos z)
      → Holds (cs ++ c ∷ []) (zs ++ z ∷ [])
  Holds-append [] [] c z h e = (e, tt)
  Holds-append [] (y ∷ zs) c z h e = absurd h
  Holds-append (x ∷ cs) [] c z h e = absurd h
  Holds-append (x ∷ cs) (y ∷ zs) c z h e = (h.0, Holds-append cs zs c z h.1 e)

  funded :
      (c : ClientDto W) (value seqn : ℤ)
      → check_request c value seqn ≡ TransactionStatus.success
      → p.lt c.balance (p.of_int value) ≡ false
  unfolding check_request
  funded c value seqn ok = ground arith

  module _ (laws : FloatLaws W) where
    short : (z v : ℕ) → z < exact_limit → z < v → p.lt (p.of_int (pos z)) (p.of_int (pos v)) ≡ true
    short z v small h = elim (dec_lt v exact_limit) [
      | yes exact ↦
          laws.lt-of_int (pos z) (pos v) (omega arith) (omega arith)
          ∙ lt→ltb (z + 0) (v + 0) (omega arith)
      | no large ↦ laws.lt-of_int_above (pos z) (pos v) (omega arith) (omega arith) (omega arith)
    ]

    -- A request that passes the checks is covered by the balance.
    covered :
        (c : ClientDto W) (z v : ℕ) (seqn : ℤ)
        → c.balance ≡ p.of_int (pos z)
        → z < exact_limit
        → check_request c (pos v) seqn ≡ TransactionStatus.success
        → v ≤ z
    covered c z v seqn holds small ok = elim (dec_lt z v) [
      | yes h ↦ absurd (cc (funded c (pos v) seqn ok, short z v small h))
      | no h ↦ omega arith
    ]

    sub_exact :
        (z v : ℕ)
        → v ≤ z
        → z < exact_limit
        → p.sub (p.of_int (pos z)) (p.of_int (pos v)) ≡ p.of_int (pos (z - v))
    sub_exact z v le small =
        let difference : pos z -ℤ pos v ≡ pos (z - v) = omega int_laws in
        laws.sub-of_int (pos z) (pos v) (omega arith) (omega arith) (rw difference (omega arith))
        ∙ ap p.of_int difference

    pub add_exact :
        (z v : ℕ)
        → z + v < exact_limit
        → p.add (p.of_int (pos z)) (p.of_int (pos v)) ≡ p.of_int (pos (z + v))
    add_exact z v small =
        let total : pos z +ℤ pos v ≡ pos (z + v) = omega int_laws in
        laws.add-of_int (pos z) (pos v) (omega arith) (omega arith) (rw total (omega arith))
        ∙ ap p.of_int total

    module _ (src dst : Text) (cs : List (ClientDto W)) (zs : List ℕ) (i j : ℕ) (c d : ClientDto W)
        (from : Found src cs i c) (onto : Found dst cs j d) (v : ℕ) (seqn : ℤ) (holds : Holds cs zs)
        (small : sum zs < exact_limit)
        (ok : check_request c (pos v) seqn ≡ TransactionStatus.success) where
      -- A transfer moves a whole number from one balance to another.
      pub moved-sum :
          (zs' : List ℕ) × Holds
            (moved cs i j c (dest_debited src dst c d (pos v)) (pos v) seqn)
            zs'
          × (sum zs' ≡ sum zs)
          × (length zs' ≡ length zs)
      moved-sum =
          let (z, at_i, source_z) = holding cs zs i c holds from.holds in
          let le = covered c z v seqn source_z (omega (arith, le-sum i zs at_i)) ok in
          let zs1 = modify i (λ _. z - v) zs in
          let holds1 =
            Holds-set_balance cs zs i (z - v) (p.sub c.balance (p.of_int (pos v))) holds
              (rw source_z (sub_exact z v le (omega (arith, le-sum i zs at_i)))) in
          let onto1 =
            Found-modify (set_balance (p.sub c.balance (p.of_int (pos v)))) cs (λ _. refl) from
              onto in
          let (y, at_j, dest_y) = holding _ zs1 j _ holds1 onto1.holds in
          let sum1 = sum-modify i (z - v) zs at_i in
          let sum2 = sum-modify j (y + v) zs1 at_j in
          (
            modify j (λ _. y + v) zs1,
            Holds-set_last_request _ _ i seqn (
                Holds-set_balance _ zs1 j (y + v) _ holds1
                  (rw dest_y (add_exact y v (omega (arith, le-sum j zs1 at_j))))),
            omega arith,
            length-modify j (λ _. y + v) zs1 ∙ length-modify i (λ _. z - v) zs,
          )
