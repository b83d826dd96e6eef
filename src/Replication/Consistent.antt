-- ===== src/Replication/Consistent.antt =====
-- What a primary must keep for its backups: distinct addresses that fit a packet, and counters that
-- are those of the history.
use mathlib.Core.List.{append_assoc, append-nil}
use mathlib.Core.Path.{ap₂}
use sis_op_ii.Common.{
  ℕ, zero, suc, ◌^◌, ◌<◌, ◌≡◌, refl, sym, ap, ◌∙◌, inl, inr, subst, some, List, [], ◌∷◌, ◌++◌, Text,
  arith, modify,
}
use sis_op_ii.Common.Int.{ℤ, pos}
use sis_op_ii.Common.Word.{add_int}
use sis_op_ii.Protocol.{TransactionStatus, Transaction, ClientDto}
use sis_op_ii.Protocol.CharArray.{IsAddress}
use sis_op_ii.Platform.{Platform, NetLaws}
use sis_op_ii.Server.State.{Server}
use sis_op_ii.Server.Clients.{find_client, new_client, set_balance, set_last_request}
use sis_op_ii.Server.Clients.Lookup.{lookup, Missing, KeepsAddress, find_client-cases}
use sis_op_ii.Server.Clients.Append.{missing_tail}
use sis_op_ii.Server.Transactions.{Outcome, process_transaction}
use sis_op_ii.Server.Transactions.Settle.{moved, dest_debited}
use sis_op_ii.Server.Transactions.Bank.{Bank, bank_of, bank_after, verdict}
use sis_op_ii.Server.Transactions.Process.{server_after}
use sis_op_ii.Server.Transactions.Contract.{process_transaction-Truthful}
use sis_op_ii.Server.Transactions.Cases.{process_transaction-cases}
use sis_op_ii.Server.Registration.{append_client, add_client}
use sis_op_ii.Server.Registration.Join.{add_client-known, add_client-new}
use sis_op_ii.Replication.Sync.{AllFresh, count_from, volume_from}
use sis_op_ii.Replication.Fresh.{IsConsistent}

count_from-snoc :
    (n : ℤ) (ts : List Transaction) (t : Transaction)
    → count_from n (ts ++ t ∷ []) ≡ add_int (count_from n ts) (pos 1)
count_from-snoc n [] t = refl
count_from-snoc n (x ∷ ts) t = count_from-snoc (add_int n (pos 1)) ts t

volume_from-snoc :
    (n : ℤ) (ts : List Transaction) (t : Transaction)
    → volume_from n (ts ++ t ∷ []) ≡ add_int (volume_from n ts) t.value
volume_from-snoc n [] t = refl
volume_from-snoc n (x ∷ ts) t = volume_from-snoc (add_int n x.value) ts t

module _ {W : Type 0} where
  abbrev addresses : List (ClientDto W) → List Text
  addresses [] = []
  addresses (c ∷ cs) = c.address ∷ addresses cs

  addresses-modify :
      (i : ℕ) (f : ClientDto W → ClientDto W) (cs : List (ClientDto W))
      → KeepsAddress f
      → addresses (modify i f cs) ≡ addresses cs
  addresses-modify zero f [] keep = refl
  addresses-modify (suc i) f [] keep = refl
  addresses-modify zero f (c ∷ cs) keep = ap (λ a. a ∷ addresses cs) (keep c)
  addresses-modify (suc i) f (c ∷ cs) keep = ap (◌∷◌ c.address) (addresses-modify i f cs keep)

  addresses-append :
      (cs ds : List (ClientDto W)) → addresses (cs ++ ds) ≡ addresses cs ++ addresses ds
  addresses-append [] ds = refl
  addresses-append (c ∷ cs) ds = ap (◌∷◌ c.address) (addresses-append cs ds)

  Missing-cons :
      (ip : Text) (c : ClientDto W) (cs : List (ClientDto W)) → Missing ip (c ∷ cs) → Missing ip cs
  unfolding lookup
  Missing-cons ip c cs m = ground (arith, missing_tail ip c cs m.0)

  -- Which addresses are missing depends on the addresses alone.
  Missing-same :
      (ip : Text) (cs ds : List (ClientDto W))
      → addresses cs ≡ addresses ds
      → Missing ip cs
      → Missing ip ds
  unfolding find_client lookup
  Missing-same ip [] [] e m = m
  Missing-same ip [] (d ∷ ds) e m = cc
  Missing-same ip (c ∷ cs) [] e m = cc
  Missing-same ip (c ∷ cs) (d ∷ ds) e m =
      let head : c.address ≡ d.address = cc in
      let rest : addresses cs ≡ addresses ds = cc in
      ground (arith, Missing-same ip cs ds rest (Missing-cons ip c cs m))

  AllFresh-same :
      (before before' cs ds : List (ClientDto W))
      → addresses before ≡ addresses before'
      → addresses cs ≡ addresses ds
      → AllFresh before cs
      → AllFresh before' ds
  AllFresh-same before before' [] [] b e h = tt
  AllFresh-same before before' [] (d ∷ ds) b e h = cc
  AllFresh-same before before' (c ∷ cs) [] b e h = cc
  AllFresh-same before before' (c ∷ cs) (d ∷ ds) b e (missing, fits, later) =
      let head : c.address ≡ d.address = cc in
      let rest : addresses cs ≡ addresses ds = cc in
      (
        Missing-same d.address before before' b (rw (← head) missing),
        rw (← head) fits,
        AllFresh-same (before ++ c ∷ []) (before' ++ d ∷ []) cs ds
            (addresses-append before (c ∷ [])
              ∙ ap₂ (λ old a. old ++ a ∷ []) b head
              ∙ sym (addresses-append before' (d ∷ [])))
            rest later,
      )

  AllFresh-snoc :
      (before cs : List (ClientDto W)) (d : ClientDto W)
      → AllFresh before cs
      → Missing d.address (before ++ cs)
      → IsAddress d.address
      → AllFresh before (cs ++ d ∷ [])
  AllFresh-snoc before [] d h m a = (rw (append-nil before) at m, a, tt)
  AllFresh-snoc before (c ∷ cs) d (missing, fits, later) m a = (
    missing,
    fits,
    AllFresh-snoc (before ++ c ∷ []) cs d later (rw (append_assoc before (c ∷ []) cs) m) a,
  )

module _ {W : Type 0} ⦃p : Platform W⦄ where
  -- The counters of a bank are those of its history.
  abbrev pub IsCounted : Bank W → Type 0
  IsCounted b =
      (b.count ≡ count_from (pos 0) b.history) × (b.volume ≡ volume_from (pos 0) b.history)

  bank_after-IsCounted :
      (status : TransactionStatus) (b : Bank W) (src dst : Text) (value seqn : ℤ)
      → IsCounted b
      → IsCounted (bank_after status b src dst value seqn)
  bank_after-IsCounted TransactionStatus.success b src dst value seqn (counted, measured) = (
    ap (λ n. add_int n (pos 1)) counted ∙ sym (count_from-snoc (pos 0) b.history _),
    ap (λ n. add_int n value) measured ∙ sym (volume_from-snoc (pos 0) b.history _),
  )
  bank_after-IsCounted _ b src dst value seqn h = h

  moved-addresses :
      (cs : List (ClientDto W)) (i j : ℕ) (c d : ClientDto W) (value seqn : ℤ)
      → addresses (moved cs i j c d value seqn) ≡ addresses cs
  moved-addresses cs i j c d value seqn =
      addresses-modify i (set_last_request seqn) _ (λ _. refl)
      ∙ addresses-modify j (set_balance (p.add d.balance (p.of_int value))) _ (λ _. refl)
      ∙ addresses-modify i (set_balance (p.sub c.balance (p.of_int value))) cs (λ _. refl)

  process_transaction-addresses :
      (s : Server W) (src : Text) (addr : ℕ) (value seqn : ℤ) (o : Outcome W)
      → process_transaction s src addr value seqn ≡ some o
      → addresses o.server.clients ≡ addresses s.clients
  unfolding server_after
  process_transaction-addresses s src addr value seqn o done =
      process_transaction-cases s src addr value seqn
        (λ o. addresses o.server.clients ≡ addresses s.clients) (λ o r. ap addresses r.same_clients)
        (λ i j c d from onto ok o granted e. rw e (
          moved-addresses s.clients i j c (dest_debited src (p.inet_ntop addr) c d value) value
            seqn))
        o done

  -- Let the addresses of the clients be distinct and fit a packet, and let the two counters be
  -- those of the history. processTransaction keeps this, whatever its status.
  pub process_transaction-IsConsistent :
      (s : Server W) (src : Text) (addr : ℕ) (value seqn : ℤ) (o : Outcome W)
      → process_transaction s src addr value seqn ≡ some o
      → IsConsistent s
      → IsConsistent o.server
  process_transaction-IsConsistent s src addr value seqn o done h =
      let truth = process_transaction-Truthful s src addr value seqn o done in
      let (counted, measured) : IsCounted (bank_of o.server) =
        subst IsCounted (sym truth.accounts) (
          bank_after-IsCounted (verdict (bank_of s) src (p.inet_ntop addr) value seqn) (bank_of s)
            src (p.inet_ntop addr) value seqn (h.counted, h.measured)) in
      record {
        registered =
            AllFresh-same [] [] s.clients o.server.clients refl
              (sym (process_transaction-addresses s src addr value seqn o done)) h.registered;
        counted = counted;
        measured = measured;
      }

  -- Let the addresses of the clients be distinct and fit a packet, and let the two counters be
  -- those of the history. addClient keeps this for the text of any 32-bit address, new or known.
  pub add_client-IsConsistent :
      (laws : NetLaws W) (s : Server W) (addr : ℕ)
      → addr < 2 ^ 32
      → IsConsistent s
      → IsConsistent (add_client s (p.inet_ntop addr)).0
  unfolding append_client new_client
  add_client-IsConsistent laws s addr small h =
      elim (find_client-cases (p.inet_ntop addr) s.clients) [
        | inl missing ↦ rw (add_client-new s (p.inet_ntop addr) missing.0) (record {
          registered =
              AllFresh-snoc [] s.clients (new_client (p.inet_ntop addr)) h.registered missing
                (laws.inet_ntop-IsAddress addr small);
          counted = h.counted;
          measured = h.measured;
        })
        | inr (i, c, f) ↦ rw (add_client-known s (p.inet_ntop addr) i f.found) h
      ]
