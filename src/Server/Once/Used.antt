-- ===== src/Server/Once/Used.antt =====
-- What the sequence number of a granted request rules out from then on.
use sis_op_ii.Common.{
  ◌≡◌, refl, ◌≢◌, sym, ap, ◌∙◌, subst, inl, inr, Bool, true, false, Option, none, some, List, [],
  ◌∷◌, Text, same, same→eq, arith, if◌then◌else◌, ◌>>=◌, Option-cases, some_inj,
}
use sis_op_ii.Common.Int.{ℤ, ◌≤ℤ◌}
use sis_op_ii.Protocol.{status-cases, TransactionStatus, ClientDto}
use sis_op_ii.Platform.{Platform}
use sis_op_ii.Server.State.{Server}
use sis_op_ii.Server.Clients.{new_client, set_last_request}
use sis_op_ii.Server.Clients.Lookup.{lookup, find_client-cases}
use sis_op_ii.Server.Clients.Append.{lookup-append}
use sis_op_ii.Server.Transactions.{check_request}
use sis_op_ii.Server.Transactions.Settle.{transferred, credit, debit}
use sis_op_ii.Server.Transactions.Bank.{Bank, bank_of, bank_after, bank_step, judged, verdict}
use sis_op_ii.Server.Transactions.Contract.{process_transaction-Answers}
use sis_op_ii.Server.Registration.{append_client, add_client}
use sis_op_ii.Server.Registration.Join.{add_client-known, add_client-new}
use sis_op_ii.Server.Once.{Event, join, request, apply_event, run_events}

kept :
    (seqn : ℤ) (moves : Bool) (last seqn' : ℤ)
    → seqn ≤ℤ last
    → (moves ≡ true → last ≤ℤ seqn')
    → seqn ≤ℤ (if moves then seqn' else last)
kept seqn true last seqn' le above = omega (arith, le, above refl)
kept seqn false last seqn' le above = le

module _ {W : Type 0} ⦃p : Platform W⦄ where
  -- Both accounts exist, and the source has used the sequence number or a higher one.
  pub record Used (book : Text → Option (ClientDto W)) (src dst : Text) (seqn : ℤ) : Type 0 where
    pub source : ClientDto W
    pub dest : ClientDto W
    pub source_at : book src ≡ some source
    pub dest_at : book dst ≡ some dest
    pub used : seqn ≤ℤ source.last_req

  transferred-at :
      (src dst ip : Text) (value seqn : ℤ) (book : Text → Option (ClientDto W)) (c : ClientDto W)
      → book ip ≡ some c
      → (e : ClientDto W) × (transferred src dst value seqn book ip ≡ some e)
        × (e.last_req ≡ (if same src ip then seqn else c.last_req))
  transferred-at src dst ip value seqn book c h =
      let c1 = if same src ip then debit value c else c in
      let c2 = if same dst ip then credit value c1 else c1 in
      let c3 = if same src ip then set_last_request seqn c2 else c2 in
      (c3, ground arith, ground arith)

  check_request-above :
      (c : ClientDto W) (value seqn : ℤ)
      → check_request c value seqn ≡ TransactionStatus.success
      → c.last_req ≤ℤ seqn
  unfolding check_request
  check_request-above c value seqn ok = ground arith

  verdict-above :
      (c d : Option (ClientDto W)) (value seqn : ℤ) (c' : ClientDto W)
      → judged c d value seqn ≡ TransactionStatus.success
      → c ≡ some c'
      → c'.last_req ≤ℤ seqn
  verdict-above none d value seqn c' ok e = cc
  verdict-above (some c) none value seqn c' ok e = cc
  verdict-above (some c) (some d) value seqn c' ok e =
      subst (λ x. x.last_req ≤ℤ seqn) (some_eq e) (check_request-above c value seqn ok)
    where
      some_eq : some c ≡ some c' → c ≡ c'
      some_eq e = cc

  pub bank_after-refused :
      (status : TransactionStatus) (b : Bank W) (src dst : Text) (value seqn : ℤ)
      → status ≢ TransactionStatus.success
      → bank_after status b src dst value seqn ≡ b
  bank_after-refused TransactionStatus.success b src dst value seqn ne = absurd (ne refl)
  bank_after-refused _ b src dst value seqn ne = refl

  module _ (src dst : Text) (seqn : ℤ) where
    above_used :
        (b : Bank W) (from onto : Text) (value seqn' : ℤ) (c : ClientDto W)
        → b.book src ≡ some c
        → verdict b from onto value seqn' ≡ TransactionStatus.success
        → same from src ≡ true
        → c.last_req ≤ℤ seqn'
    above_used b from onto value seqn' c e ok moves =
        verdict-above (b.book from) (b.book onto) value seqn' c ok
          (ap b.book (same→eq from src moves) ∙ e)

    Used-step :
        (b : Bank W) (from onto : Text) (value seqn' : ℤ)
        → Used b.book src dst seqn
        → Used (bank_step b from onto value seqn').book src dst seqn
    Used-step b from onto value seqn' u = elim (status-cases (verdict b from onto value seqn')) [
      | inl ok ↦
          let (c, source_at, last) =
            transferred-at from onto src value seqn' b.book u.source u.source_at in
          let (d, dest_at, _) = transferred-at from onto dst value seqn' b.book u.dest u.dest_at in
          rw ok (record {
            source = c;
            dest = d;
            source_at = source_at;
            dest_at = dest_at;
            used = rw last (
                kept seqn (same from src) u.source.last_req seqn' u.used
                  (above_used b from onto value seqn' u.source u.source_at ok));
          })
      | inr ne ↦
          rw (bank_after-refused (verdict b from onto value seqn') b from onto value seqn' ne) u
    ]

    joined :
        (s : Server W) (ip jp : Text) (c : ClientDto W)
        → lookup jp s.clients ≡ some c
        → lookup jp (add_client s ip).0.clients ≡ some c
    unfolding append_client
    joined s ip jp c e = elim (find_client-cases ip s.clients) [
      | inl m ↦
          rw (add_client-new s ip m.0) (rw (lookup-append jp s.clients (new_client ip ∷ []), e))
      | inr (i, d, f) ↦ rw (add_client-known s ip i f.found) e
    ]

    pub Used-apply :
        (s s' : Server W) (event : Event)
        → apply_event s event ≡ some s'
        → Used (λ ip. lookup ip s.clients) src dst seqn
        → Used (λ ip. lookup ip s'.clients) src dst seqn
    unfolding apply_event
    Used-apply s s' (join ip) e u = rw (← some_inj e) (record {
      source = u.source;
      dest = u.dest;
      source_at = joined s ip src u.source u.source_at;
      dest_at = joined s ip dst u.dest u.dest_at;
      used = u.used;
    })
    Used-apply s s' (request from addr value seqn') e u =
        let (o, answered, truth) = process_transaction-Answers s from addr value seqn' in
        let same_server : o.server ≡ s' =
          some_inj (ap (λ r. r >>= λ o. some o.server) (sym answered) ∙ e) in
        subst (λ (x : Server W). Used (λ ip. lookup ip x.clients) src dst seqn) same_server
          (subst (λ (b : Bank W). Used b.book src dst seqn) (sym truth.accounts)
            (Used-step (bank_of s) from (p.inet_ntop addr) value seqn' u))

    pub Used-run :
        (events : List Event) (s s' : Server W)
        → run_events s events ≡ some s'
        → Used (λ ip. lookup ip s.clients) src dst seqn
        → Used (λ ip. lookup ip s'.clients) src dst seqn
    unfolding run_events
    Used-run [] s s' e u = rw (← some_inj e) u
    Used-run (event ∷ events) s s' e u = elim (Option-cases (apply_event s event)) [
      | inl fault ↦ ground (arith)
      | inr (m, done) ↦
          Used-run events m s' (ap (λ r. r >>= λ x. run_events x events) (sym done) ∙ e)
            (Used-apply s m event done u)
    ]
