-- ===== src/Server/Registration/StateUpdate.antt =====
-- handleStateUpdate: what it does to a backup that knows both clients, and where it fails.
use sis_op_ii.Common.{
  ℕ, ◌≡◌, refl, ◌↔◌, inl, inr, true, false, none, some, List, [], ◌∷◌, ◌++◌, Text, modify, length,
  Bool-cases, Option-cases, some_inj, subst, sym, ◌∙◌, ◌⊎◌,
}
use sis_op_ii.Common.Int.{ℤ, pos, ◌+ℤ◌}
use sis_op_ii.Common.Word.{add_int, IsInt, add_int-IsInt}
use sis_op_ii.Protocol.{LogType, StateUpdateData, Packet, ClientDto}
use sis_op_ii.Protocol.CharArray.{c_string}
use sis_op_ii.Platform.{Platform, read_state_update}
use sis_op_ii.Server.State.{Server, notify}
use sis_op_ii.Server.Clients.Append.{Found-append, Found-append_new}
use sis_op_ii.Server.Clients.{find_client, new_client, set_balance, set_last_request}
use sis_op_ii.Server.Clients.Lookup.{Found, Found-modify, find_client-cases}
use sis_op_ii.Server.Registration.{find_or_add, handle_state_update}

module _ {W : Type 0} ⦃p : Platform W⦄ where
  -- The vector after the three writes of handleStateUpdate.
  abbrev pub updated : List (ClientDto W) → ℕ → ℕ → W → W → ℤ → List (ClientDto W)
  updated cs i j source_balance dest_balance seqn =
      modify i (set_last_request seqn)
        (modify j (set_balance dest_balance) (modify i (set_balance source_balance) cs))

  -- The state after an update that finds both clients.
  abbrev pub applied : Server W → ℕ → ℕ → Text → Text → StateUpdateData W → Server W
  applied s i j source_ip dest_ip u = notify (record s {
    clients = updated s.clients i j u.source_balance u.dest_balance u.transaction.client_seqn;
    transaction_history = s.transaction_history ++ u.transaction ∷ [];
    num_transactions = add_int s.num_transactions (pos 1);
    total_transferred = add_int s.total_transferred u.transaction.value;
    last_log_info = record {
      type = LogType.success;
      transaction_id = u.transaction.id;
      value = u.transaction.value;
      source_ip = source_ip;
      dest_ip = dest_ip;
    };
  })

  pub find_or_add-found :
      (ip : Text) (cs : List (ClientDto W)) (i : ℕ)
      → find_client ip cs ≡ some i
      → find_or_add ip cs ≡ (cs, some i, false)
  unfolding find_or_add
  find_or_add-found ip cs i e = rw (e, find_or_add)

  pub handle_state_update-known :
      (s : Server W) (packet : Packet W) (src dst : Text) (i j : ℕ) (c d : ClientDto W)
      → let u = read_state_update packet.contents in
        c_string u.source_ip ≡ some src
        → c_string u.dest_ip ≡ some dst
        → Found src s.clients i c
        → Found dst s.clients j d
        → handle_state_update s packet ≡ some (applied s i j src dst u)
  unfolding handle_state_update
  handle_state_update-known s packet src dst i j c d read_src read_dst from onto =
      let u = read_state_update packet.contents in
      let dest_first =
        Found-modify (set_balance u.source_balance) s.clients (λ _. refl) from onto in
      let source_first =
        Found-modify (set_balance u.source_balance) s.clients (λ _. refl) from from in
      let source_second =
        Found-modify (set_balance u.dest_balance)
          (modify i (set_balance u.source_balance) s.clients) (λ _. refl) dest_first source_first in
      rw (
        read_src,
        read_dst,
        find_or_add-found src s.clients i from.found,
        find_or_add-found dst s.clients j onto.found,
        from.holds,
        dest_first.holds,
        source_second.holds,
      )

  -- findClient, with emplace_back where needed, ends at a client with the address.
  find_or_add-Found :
      (ip : Text) (cs : List (ClientDto W))
      → (i : ℕ) × (c : ClientDto W) × ((find_or_add ip cs).1 ≡ some i)
        × Found ip (find_or_add ip cs).0 i c
  unfolding find_or_add new_client
  find_or_add-Found ip cs = elim (find_client-cases ip cs) [
    | inl m ↦
        let f = Found-append_new ip cs (new_client ip) m refl in
        (length cs, new_client ip, rw (m.0, find_or_add) f.found, rw (m.0, find_or_add) f)
    | inr (i, c, f) ↦ (i, c, rw (f.found, find_or_add), rw (f.found, find_or_add) f)
  ]

  -- The iterator to a client that the vector held before the second `emplace_back`.
  find_or_add-keeps :
      (ip jp : Text) (cs : List (ClientDto W)) (i : ℕ) (c : ClientDto W)
      → Found ip cs i c
      → Found ip (find_or_add jp cs).0 i c
  unfolding find_or_add new_client
  find_or_add-keeps ip jp cs i c f = elim (find_client-cases jp cs) [
    | inl m ↦ rw (m.0, find_or_add) (Found-append ip cs (new_client jp ∷ []) i c f)
    | inr (j, d, g) ↦ rw (g.found, find_or_add) f
  ]

  find_or_add-moved :
      (ip : Text) (cs : List (ClientDto W))
      → ((find_or_add ip cs).2 ≡ true)
        ↔ ((find_client ip cs ≡ none) × (p.reallocates (length cs) ≡ true))
  unfolding find_or_add
  find_or_add-moved ip cs = elim (find_client-cases ip cs) [
    | inl m ↦ rw (m.0, find_or_add) (λ moves. (refl, moves), λ h. h.1)
    | inr (j, d, g) ↦ rw (g.found, find_or_add) (λ moves. cc, λ h. cc)
  ]

  -- The vector after the source has been found or added.
  abbrev pub with_source : Server W → Text → List (ClientDto W)
  with_source s src = (find_or_add src s.clients).0

  -- The second address is unknown, and the vector moves when it is added.
  abbrev pub Dangles : Server W → Text → Text → Type 0
  Dangles s src dst =
      (find_client dst (with_source s src) ≡ none)
      × (p.reallocates (length (with_source s src)) ≡ true)

  -- An address of the packet has no end, or the iterator to the source dangles.
  abbrev pub Fails : Server W → StateUpdateData W → Type 0
  Fails s u =
      (c_string u.source_ip ≡ none)
      ⊎ ((c_string u.dest_ip ≡ none)
          ⊎ ((src : Text) × (dst : Text) × (c_string u.source_ip ≡ some src)
              × (c_string u.dest_ip ≡ some dst)
              × Dangles s src dst))

  -- The counters after an update, as numbers.
  abbrev pub Counts : Server W → ℤ → Server W → Type 0
  Counts s value s' =
      (s'.num_transactions ≡ s.num_transactions +ℤ pos 1)
      × (s'.total_transferred ≡ s.total_transferred +ℤ value)

  module _ (s : Server W) (packet : Packet W) where
    abbrev u : StateUpdateData W
    u = read_state_update packet.contents

    module _ (src dst : Text) (read_src : c_string u.source_ip ≡ some src)
        (read_dst : c_string u.dest_ip ≡ some dst) where
      -- handleStateUpdate then writes through the old iterator: undefined behaviour.
      handle_state_update-dangling : Dangles s src dst → handle_state_update s packet ≡ none
      unfolding handle_state_update
      handle_state_update-dangling h =
          rw (read_src, read_dst, (find_or_add-moved dst (with_source s src)).1 h)

      handle_state_update-defined :
          (find_or_add dst (with_source s src)).2 ≡ false
          → (i : ℕ) × (j : ℕ) × (handle_state_update s packet
              ≡ some (
                  applied
                    (record s { clients = (find_or_add dst (with_source s src)).0 })
                    i
                    j
                    src
                    dst
                    u))
      unfolding handle_state_update
      handle_state_update-defined still =
          let (i, c, at_source, from) = find_or_add-Found src s.clients in
          let (j, d, at_dest, onto) = find_or_add-Found dst (with_source s src) in
          let cs = (find_or_add dst (with_source s src)).0 in
          let kept = find_or_add-keeps src dst (with_source s src) i c from in
          let dest_first = Found-modify (set_balance u.source_balance) cs (λ _. refl) kept onto in
          let source_first = Found-modify (set_balance u.source_balance) cs (λ _. refl) kept kept in
          let source_second =
            Found-modify (set_balance u.dest_balance) (modify i (set_balance u.source_balance) cs)
              (λ _. refl) dest_first source_first in
          (
            i,
            j,
            rw (
              read_src, read_dst, still, at_source, at_dest, kept.holds, dest_first.holds,
              source_second.holds,
            ),
          )

    Fails-none : Fails s u → handle_state_update s packet ≡ none
    unfolding handle_state_update
    Fails-none (inl e) = rw e
    Fails-none (inr (inl e)) = elim (Option-cases (c_string u.source_ip)) [
      | inl e' ↦ rw e'
      | inr (src, e') ↦ rw (e', e)
    ]
    Fails-none (inr (inr (src, dst, read_src, read_dst, h))) =
        handle_state_update-dangling src dst read_src read_dst h

    -- The two ways in which handleStateUpdate may go.
    abbrev Goes : Type 0
    Goes =
        Fails s u
        ⊎ ((s' : Server W) × (handle_state_update s packet ≡ some s')
            × (s'.num_transactions ≡ add_int s.num_transactions (pos 1))
            × (s'.total_transferred ≡ add_int s.total_transferred u.transaction.value))

    handle_state_update-Goes : Goes
    handle_state_update-Goes = elim (Option-cases (c_string u.source_ip)) [
      | inl e ↦ inl (inl e)
      | inr (src, read_src) ↦ elim (Option-cases (c_string u.dest_ip)) [
        | inl e ↦ inl (inr (inl e))
        | inr (dst, read_dst) ↦ elim (Bool-cases (find_or_add dst (with_source s src)).2) [
          | inl moves ↦ inl (
              inr (
                inr (
                  src,
                  dst,
                  read_src,
                  read_dst,
                  (find_or_add-moved dst (with_source s src)).0 moves,
                )))
          | inr still ↦
              let (i, j, done) = handle_state_update-defined src dst read_src read_dst still in
              inr (_, done, refl, refl)
        ]
      ]
    ]

    -- Let the number of transactions and the total after a STATE_UPDATE packet be in the range of
    -- `int`. Then handleStateUpdate has undefined behaviour on the packet exactly if one of its
    -- two addresses has no zero in its array, or if, once the source has been found or added, the
    -- destination is unknown and the vector of clients reallocates when it is added, so that the
    -- iterator to the source dangles. Whenever it returns, the number of transactions has grown by
    -- one and the total by the value of the transaction.
    pub handle_state_update-Fails :
        IsInt (s.num_transactions +ℤ pos 1)
        → IsInt (s.total_transferred +ℤ u.transaction.value)
        → ((handle_state_update s packet ≡ none) ↔ Fails s u)
          × ((s' : Server W)
              → handle_state_update s packet ≡ some s'
              → Counts s u.transaction.value s')
    handle_state_update-Fails counted summed = elim handle_state_update-Goes [
      | inl fails ↦ ((λ _. fails, Fails-none), λ s' done. absurd (cc (Fails-none fails, done)))
      | inr (s1, done1, count, sum) ↦ (
        (λ fault. absurd (cc done1), λ fails. absurd (cc (Fails-none fails, done1))),
        λ s' done. subst (Counts s u.transaction.value) (some_inj (sym done1 ∙ done)) (
          count ∙ add_int-IsInt s.num_transactions (pos 1) counted,
          sum ∙ add_int-IsInt s.total_transferred u.transaction.value summed,
        ),
      )
    ]
