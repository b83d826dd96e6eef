-- ===== src/Server/Solvency.antt =====
-- The money in the system: the balances of the clients, who join with 1000 each, and
-- `total_balance`, under requests with amounts that are not negative.
use sis_op_ii.Common.{
  ℕ, suc, ◌+◌, ◌*◌, ◌≤◌, ◌<◌, ◌≡◌, refl, sym, ap, ◌∙◌, inl, inr, Bool, Option, some, List, [], ◌∷◌,
  ◌++◌, Text, arith, length, length-append, ◌>>=◌,
}
use sis_op_ii.Common.Int.{ℤ, pos}
use sis_op_ii.Protocol.{TransactionStatus, ServerRole, SockAddr, ClientDto}
use sis_op_ii.Platform.{Platform, FloatLaws, exact_limit}
use sis_op_ii.Server.State.{Server, construct, notify}
use sis_op_ii.Server.Clients.{new_client}
use sis_op_ii.Server.Clients.Lookup.{Found, find_client-cases}
use sis_op_ii.Server.Transactions.{Outcome, check_request, process_transaction}
use sis_op_ii.Server.Transactions.Process.{server_after}
use sis_op_ii.Server.Transactions.Contract.{process_transaction-Answers}
use sis_op_ii.Server.Transactions.Cases.{process_transaction-cases}
use sis_op_ii.Server.Transactions.Money.{sum, sum-append, Holds, Holds-append, moved-sum, add_exact}
use sis_op_ii.Server.Registration.{append_client, add_client}
use sis_op_ii.Server.Registration.Join.{add_client-known, add_client-new}

-- The largest number of clients whose money a `float` counts without rounding.
abbrev pub client_limit : ℕ
client_limit = 16777

-- What reaches the accounts of a primary: a client that joins, or a request of a client, with an
-- amount that is not negative.
pub data Call : Type 0 where
  join : (ip : Text) → Call
  request : (src : Text) (addr v : ℕ) (seqn : ℤ) → Call

module _ {W : Type 0} ⦃p : Platform W⦄ where
  -- The balances are the numbers `holdings`, which add up to 1000 for each client.
  pub record IsSolvent (s : Server W) : Type 0 where
    pub holdings : List ℕ
    pub holds : Holds s.clients holdings
    pub full : sum holdings ≡ 1000 * length s.clients
    pub reported : s.total_balance ≡ pos (sum holdings)

  Holds-length : (cs : List (ClientDto W)) (zs : List ℕ) → Holds cs zs → length cs ≡ length zs
  Holds-length [] [] h = refl
  Holds-length [] (z ∷ zs) h = absurd h
  Holds-length (c ∷ cs) [] h = absurd h
  Holds-length (c ∷ cs) (z ∷ zs) h = ap suc (Holds-length cs zs h.1)

  module _ (laws : FloatLaws W) where
    -- Let balances be natural numbers that add up to 1000 for each client, let `total_balance` be
    -- their sum, and let there be at most 16777 clients. A request with an amount that is not
    -- negative keeps all this and the number of clients, whatever its status, on a platform whose
    -- floats are exact up to 2 ^ 24.
    pub process_transaction-IsSolvent :
        (s : Server W) (src : Text) (addr v : ℕ) (seqn : ℤ) (o : Outcome W)
        → process_transaction s src addr (pos v) seqn ≡ some o
        → length s.clients ≤ client_limit
        → IsSolvent s
        → IsSolvent o.server × (length o.server.clients ≡ length s.clients)
    unfolding server_after
    process_transaction-IsSolvent s src addr v seqn o done few solvent =
        process_transaction-cases s src addr (pos v) seqn
          (λ o. IsSolvent o.server × (length o.server.clients ≡ length s.clients))
          (λ o r. (
            record {
              holdings = solvent.holdings;
              holds = rw r.same_clients solvent.holds;
              full = rw r.same_clients solvent.full;
              reported = r.same_total ∙ solvent.reported;
            },
            ap length r.same_clients,
          ))
          (λ i j c d from onto ok o granted e. rw e (granted_solvent i j c d from onto ok)) o done
      where
        granted_solvent :
            (i j : ℕ) (c d : ClientDto W) (from : Found src s.clients i c)
            (onto : Found (p.inet_ntop addr) s.clients j d)
            → check_request c (pos v) seqn ≡ TransactionStatus.success
            → let s' = server_after s src addr (pos v) seqn i j c d from onto in
              IsSolvent (notify s') × (length s'.clients ≡ length s.clients)
        granted_solvent i j c d from onto ok =
            let clients_now = (server_after s src addr (pos v) seqn i j c d from onto).clients in
            let (zs, holds, same_sum, same_length) =
              moved-sum laws src (p.inet_ntop addr) s.clients solvent.holdings i j c d from onto v
                seqn solvent.holds (omega (arith, solvent.full)) ok in
            let same_count : length clients_now ≡ length s.clients =
              Holds-length clients_now zs holds
              ∙ same_length
              ∙ sym (Holds-length s.clients solvent.holdings solvent.holds) in
            (
              record {
                holdings = zs;
                holds = holds;
                full = same_sum ∙ solvent.full ∙ ap (λ (n : ℕ). 1000 * n) (sym same_count);
                reported = solvent.reported ∙ ap pos (sym same_sum);
              },
              same_count,
            )

    -- Let balances be natural numbers that add up to 1000 for each client, let `total_balance` be
    -- their sum, and let there be fewer than 16777 clients. addClient keeps this for a new address
    -- and for a known one, and adds at most one client, on a platform whose floats are exact up to
    -- 2 ^ 24.
    pub add_client-IsSolvent :
        (s : Server W) (ip : Text)
        → length s.clients < client_limit
        → IsSolvent s
        → IsSolvent (add_client s ip).0
          × (length (add_client s ip).0.clients ≤ length s.clients + 1)
    unfolding append_client sum
    add_client-IsSolvent s ip few solvent = elim (find_client-cases ip s.clients) [
      | inl (e, l) ↦ rw (add_client-new s ip e) (joined_solvent, omega (arith, grown))
      | inr (i, c, f) ↦ rw (add_client-known s ip i f.found) (solvent, omega arith)
    ]
      where
        grown : length (append_client s ip).clients ≡ length s.clients + 1
        grown = length-append s.clients (new_client ip ∷ [])

        small : sum solvent.holdings + 1000 < exact_limit
        small = omega (arith, solvent.full)

        joined_solvent : IsSolvent (notify (append_client s ip))
        joined_solvent = record {
          holdings = solvent.holdings ++ 1000 ∷ [];
          holds = Holds-append s.clients solvent.holdings (new_client ip) 1000 solvent.holds refl;
          full = omega (arith, sum-append solvent.holdings (1000 ∷ []), solvent.full, grown);
          reported =
              rw (solvent.reported, sum-append solvent.holdings (1000 ∷ []))
                (ap p.trunc (add_exact laws (sum solvent.holdings) 1000 small)
                  ∙ laws.trunc-of_int (pos (sum solvent.holdings + 1000)) (omega arith));
        }

  pub apply_call : Server W → Call → Option (Server W)
  apply_call s (join ip) = some (add_client s ip).0
  apply_call s (request src addr v seqn) =
      process_transaction s src addr (pos v) seqn >>= λ o. some o.server

  pub run_calls : Server W → List Call → Option (Server W)
  unfolding apply_call
  run_calls s [] = some s
  run_calls s (call ∷ calls) = apply_call s call >>= λ s'. run_calls s' calls

  module _ (laws : FloatLaws W) where
    apply_call-IsSolvent :
        (s : Server W) (call : Call)
        → length s.clients < client_limit
        → IsSolvent s
        → (s' : Server W) × (apply_call s call ≡ some s')
          × IsSolvent s'
          × (length s'.clients ≤ length s.clients + 1)
    unfolding apply_call
    apply_call-IsSolvent s (join ip) few solvent =
        let (after, grown) = add_client-IsSolvent laws s ip few solvent in
        ((add_client s ip).0, refl, after, grown)
    apply_call-IsSolvent s (request src addr v seqn) few solvent =
        let (o, answered, truth) = process_transaction-Answers s src addr (pos v) seqn in
        let (after, same_count) =
          process_transaction-IsSolvent laws s src addr v seqn o answered (omega arith) solvent in
        (o.server, rw answered, after, omega (arith, same_count))

    run_calls_from :
        (s : Server W) (calls : List Call)
        → length s.clients + length calls ≤ client_limit
        → IsSolvent s
        → (s' : Server W) × (run_calls s calls ≡ some s') × IsSolvent s'
    unfolding run_calls
    run_calls_from s [] few solvent = (s, refl, solvent)
    run_calls_from s (call ∷ calls) few solvent =
        let (s1, stepped, after, grown) = apply_call-IsSolvent s call (omega arith) solvent in
        let (s2, ran, at_end) = run_calls_from s1 calls (omega arith) after in
        (s2, rw (stepped, ran), at_end)

    -- From a newly constructed server, every sequence of at most 16777 joins and requests whose
    -- amounts are not negative runs to its end, on a platform whose floats are exact up to 2 ^ 24.
    -- In the state reached every balance is a natural number, the balances add up to 1000 for each
    -- client, and `total_balance` is that sum.
    pub run_calls-IsSolvent :
        (port found_ip : ℕ) (role : ServerRole) (addr : SockAddr) (alive : Bool) (calls : List Call)
        → length calls ≤ client_limit
        → (s' : Server W) × (run_calls (construct port found_ip role addr alive) calls ≡ some s')
          × IsSolvent s'
    unfolding construct sum
    run_calls-IsSolvent port found_ip role addr alive calls few =
        run_calls_from (construct port found_ip role addr alive) calls (omega arith)
          (record { holdings = []; holds = tt; full = refl; reported = refl })
