-- ===== src/Server/Clients/Append.antt =====
-- A client at the end of the vector: iterators that were valid before, and the new one.
use sis_op_ii.Common.{
  ℕ, zero, suc, ◌≡◌, refl, ◌≢◌, inl, inr, false, none, some, List, [], ◌∷◌, ◌++◌, Text, same,
  same_refl, ne→same, arith, length,
}
use sis_op_ii.Protocol.{ClientDto}
use sis_op_ii.Server.Clients.{find_client}
use sis_op_ii.Server.Clients.Lookup.{
  lookup, Found, Missing, Found-of_lookup, find_client-cases, found_head, found_tail,
}

module _ {W : Type 0} where
  pub missing_tail :
      (ip : Text) (c : ClientDto W) (cs : List (ClientDto W))
      → find_client ip (c ∷ cs) ≡ none
      → (same c.address ip ≡ false) × (find_client ip cs ≡ none)
  unfolding find_client
  missing_tail ip c cs e = ground arith

  find_client-append_found :
      (ip : Text) (cs ys : List (ClientDto W)) (i : ℕ)
      → find_client ip cs ≡ some i
      → find_client ip (cs ++ ys) ≡ some i
  unfolding find_client
  find_client-append_found ip [] ys i e = cc
  find_client-append_found ip (c ∷ cs) ys zero e =
      ground (arith, found_head ip c cs e, same_refl ip)
  find_client-append_found ip (c ∷ cs) ys (suc i) e =
      ground (arith, found_tail ip c cs e, find_client-append_found ip cs ys i)

  find_client-append_missing :
      (ip : Text) (cs : List (ClientDto W)) (d : ClientDto W)
      → find_client ip cs ≡ none
      → d.address ≡ ip
      → find_client ip (cs ++ d ∷ []) ≡ some (length cs)
  unfolding find_client
  find_client-append_missing ip [] d e a = rw (a, same_refl ip)
  find_client-append_missing ip (c ∷ cs) d e a =
      ground (arith, missing_tail ip c cs e, find_client-append_missing ip cs d)

  -- Which client an address leads to after one more client.
  pub lookup-append :
      (ip : Text) (cs ys : List (ClientDto W))
      → lookup ip (cs ++ ys) ≡ (elim (lookup ip cs) [ none ↦ lookup ip ys | some c ↦ some c ])
  unfolding lookup
  lookup-append ip [] ys = refl
  lookup-append ip (c ∷ cs) ys = ground (arith, lookup-append ip cs ys)

  pub Found-append :
      (ip : Text) (cs ys : List (ClientDto W)) (i : ℕ) (c : ClientDto W)
      → Found ip cs i c
      → Found ip (cs ++ ys) i c
  Found-append ip cs ys i c f =
      Found-of_lookup ip (cs ++ ys) i c (find_client-append_found ip cs ys i f.found)
        (rw (lookup-append ip cs ys, f.looked))

  pub Found-append_new :
      (ip : Text) (cs : List (ClientDto W)) (d : ClientDto W)
      → Missing ip cs
      → d.address ≡ ip
      → Found ip (cs ++ d ∷ []) (length cs) d
  unfolding lookup
  Found-append_new ip cs d (e, l) a =
      Found-of_lookup ip (cs ++ d ∷ []) (length cs) d (find_client-append_missing ip cs d e a)
        (rw (lookup-append ip cs (d ∷ []), l, a, same_refl ip))

  pub Missing-append :
      (ip : Text) (cs : List (ClientDto W)) (d : ClientDto W)
      → Missing ip cs
      → d.address ≢ ip
      → Missing ip (cs ++ d ∷ [])
  unfolding lookup
  Missing-append ip cs d m ne = elim (find_client-cases ip (cs ++ d ∷ [])) [
    | inl missing ↦ missing
    | inr (i, c, f) ↦ absurd (not_found f.looked)
  ]
    where
      not_found : {c : ClientDto W} → lookup ip (cs ++ d ∷ []) ≡ some c → ⊥
      not_found e = ground (arith, lookup-append ip cs (d ∷ []), m.1, ne→same d.address ip ne)
