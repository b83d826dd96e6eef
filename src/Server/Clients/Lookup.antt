-- ===== src/Server/Clients/Lookup.antt =====
-- Iterators against look-up by address: what `findClient` finds, and what a write through an
-- iterator does to every address.
use mathlib.Core.Option
use sis_op_ii.Common.{
  ℕ, zero, suc, ◌≡◌, refl, subst, ◌∙◌, ◌⊎◌, inl, inr, false, Option, none, some, List, [], ◌∷◌,
  Text, same, same_refl, same→eq, arith, if◌then◌else◌, get_elem?, modify, Bool-cases,
}
use sis_op_ii.Protocol.{ClientDto}
use sis_op_ii.Server.Clients.{find_client}

module _ {W : Type 0} where
  -- The first client with an address, if there is one.
  unfoldable pub lookup : Text → List (ClientDto W) → Option (ClientDto W)
  lookup ip [] = none
  lookup ip (c ∷ cs) = if same c.address ip then some c else lookup ip cs

  -- A change that leaves the address alone.
  abbrev pub KeepsAddress : (ClientDto W → ClientDto W) → Type 0
  KeepsAddress f = (c : ClientDto W) → (f c).address ≡ c.address

  -- What findClient returns, and where its iterator leads.
  pub record Found (ip : Text) (cs : List (ClientDto W)) (i : ℕ) (c : ClientDto W) : Type 0 where
    pub found : find_client ip cs ≡ some i
    pub holds : get_elem? cs i ≡ some c
    pub looked : lookup ip cs ≡ some c
    pub addressed : c.address ≡ ip

  abbrev pub Missing : Text → List (ClientDto W) → Type 0
  Missing ip cs = (find_client ip cs ≡ none) × (lookup ip cs ≡ none)

  find_client-cons :
      (ip : Text) (c : ClientDto W) (cs : List (ClientDto W))
      → same c.address ip ≡ false
      → Missing ip cs ⊎ ((i : ℕ) × (d : ClientDto W) × Found ip cs i d)
      → Missing ip (c ∷ cs) ⊎ ((i : ℕ) × (d : ClientDto W) × Found ip (c ∷ cs) i d)
  unfolding find_client lookup
  find_client-cons ip c cs e (inl m) = inl (ground arith)
  find_client-cons ip c cs e (inr (i, d, f)) = inr (
    suc i,
    d,
    record {
      found = ground arith;
      holds = f.holds;
      looked = ground arith;
      addressed = f.addressed;
    },
  )

  pub find_client-cases :
      (ip : Text) (cs : List (ClientDto W))
      → Missing ip cs ⊎ ((i : ℕ) × (c : ClientDto W) × Found ip cs i c)
  unfolding find_client lookup
  find_client-cases ip [] = inl (refl, refl)
  find_client-cases ip (c ∷ cs) = elim (Bool-cases (same c.address ip)) [
    | inl hit ↦ inr (
      0,
      c,
      record {
        found = ground arith;
        holds = refl;
        looked = ground arith;
        addressed = same→eq c.address ip hit;
      },
    )
    | inr miss ↦ find_client-cons ip c cs miss (find_client-cases ip cs)
  ]

  pub lookup→Found :
      (ip : Text) (cs : List (ClientDto W)) (c : ClientDto W)
      → lookup ip cs ≡ some c
      → (i : ℕ) × Found ip cs i c
  lookup→Found ip cs c e = elim (find_client-cases ip cs) [
    | inl m ↦ cc
    | inr (i, d, f) ↦
        (i, record { found = f.found; holds = cc; looked = e; addressed = ground arith })
  ]

  pub Found-of_lookup :
      (ip : Text) (cs : List (ClientDto W)) (i : ℕ) (c : ClientDto W)
      → find_client ip cs ≡ some i
      → lookup ip cs ≡ some c
      → Found ip cs i c
  Found-of_lookup ip cs i c e l =
      let (k, f) = lookup→Found ip cs c l in subst (λ n. Found ip cs n c) (same_index k f.found) f
    where
      same_index : (k : ℕ) → find_client ip cs ≡ some k → k ≡ i
      same_index k h = ground arith

  pub find_client-modify :
      (ip : Text) (i : ℕ) (f : ClientDto W → ClientDto W) (cs : List (ClientDto W))
      → KeepsAddress f
      → find_client ip (modify i f cs) ≡ find_client ip cs
  unfolding find_client
  find_client-modify ip zero f [] keep = refl
  find_client-modify ip (suc i) f [] keep = refl
  find_client-modify ip zero f (c ∷ cs) keep = rw (keep c)
  find_client-modify ip (suc i) f (c ∷ cs) keep = rw (find_client-modify ip i f cs keep)

  pub found_head :
      (ip : Text) (c : ClientDto W) (cs : List (ClientDto W))
      → find_client ip (c ∷ cs) ≡ some 0
      → c.address ≡ ip
  unfolding find_client
  found_head ip c cs e = ground (arith, same→eq c.address ip)

  pub found_tail :
      (ip : Text) (c : ClientDto W) (cs : List (ClientDto W)) {i : ℕ}
      → find_client ip (c ∷ cs) ≡ some (suc i)
      → (same c.address ip ≡ false) × (find_client ip cs ≡ some i)
  unfolding find_client
  found_tail ip c cs e = ground arith

  -- A write through the iterator of `ip` changes the client at `ip`, and nothing elsewhere.
  pub lookup-modify :
      (ip jp : Text) (i : ℕ) (f : ClientDto W → ClientDto W) (cs : List (ClientDto W))
      → KeepsAddress f
      → find_client ip cs ≡ some i
      → lookup jp (modify i f cs)
        ≡ (if same ip jp then Option.map f (lookup jp cs) else lookup jp cs)
  unfolding find_client lookup
  lookup-modify ip jp zero f [] keep e = cc
  lookup-modify ip jp (suc i) f [] keep e = cc
  lookup-modify ip jp zero f (c ∷ cs) keep e =
      ground (arith, keep c, found_head ip c cs e, same_refl jp)
  lookup-modify ip jp (suc i) f (c ∷ cs) keep e =
      ground (arith, found_tail ip c cs e, lookup-modify ip jp i f cs keep, same→eq ip jp)

  -- A write through one iterator leaves every other iterator where it is.
  pub Found-modify :
      {ip jp : Text} {i j : ℕ} {c d : ClientDto W} (f : ClientDto W → ClientDto W)
      (cs : List (ClientDto W))
      → KeepsAddress f
      → Found ip cs i c
      → Found jp cs j d
      → Found jp (modify i f cs) j (if same ip jp then f d else d)
  Found-modify {ip} {jp} {i} {j} {c} {d} f cs keep from onto =
      Found-of_lookup jp (modify i f cs) j (if same ip jp then f d else d)
        (find_client-modify jp i f cs keep ∙ onto.found)
        (rw (lookup-modify ip jp i f cs keep from.found, onto.looked) (ground arith))
