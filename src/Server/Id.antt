-- ===== src/Server/Id.antt =====
-- The id of a server: getIp (T1/server/Server.cpp).
use sis_op_ii.Common.{
  ℕ, ◌/◌, ◌^◌, ◌<◌, ◌≡◌, refl, ap, ◌⊎◌, inl, inr, Bool, true, false, ◌&&◌, not, Option, none, some,
  List, [], ◌∷◌, ◌++◌, arith, ◌==◌, if◌then◌else◌, Bool-cases,
}
use sis_op_ii.Platform.{Platform, NetLaws}

-- The part of an `ifaddrs` that getIp reads: the address of the interface, if it has one, its
-- family, and `sin_addr` if the family is AF_INET.
pub record IfAddr : Type 0 where
  pub is_inet : Bool
  pub s_addr : ℕ

module _ (W : Type 0) ⦃p : Platform W⦄ where
  -- An address that getIp takes: not one of the loopback network.
  abbrev pub is_suited : Option IfAddr → Bool
  is_suited none = false
  is_suited (some a) = a.is_inet && not (p.ntohl a.s_addr / 2 ^ 24 == 127)

  abbrev pub id_of : Option IfAddr → ℕ
  id_of none = 0
  id_of (some a) = p.ntohl a.s_addr

  -- The loop over the list.
  unfoldable pub find_id : List (Option IfAddr) → ℕ
  find_id [] = 0
  find_id (a ∷ interfaces) = let rest = find_id interfaces in if is_suited a then id_of a else rest

  -- The argument is what getifaddrs yields, if it succeeds.
  unfoldable pub get_ip : Option (List (Option IfAddr)) → ℕ
  unfolding find_id
  get_ip none = 0
  get_ip (some interfaces) = find_id interfaces

  -- The id is 0, and no address is suited, or it is the first suited address.
  abbrev pub AllUnsuited : List (Option IfAddr) → Type 0
  AllUnsuited [] = Unit {0}
  AllUnsuited (a ∷ interfaces) = (is_suited a ≡ false) × AllUnsuited interfaces

  abbrev pub Chosen : List (Option IfAddr) → ℕ → Type 0
  Chosen interfaces id =
      (AllUnsuited interfaces × (id ≡ 0))
      ⊎ ((before after : List (Option IfAddr)) × (a : Option IfAddr) × (interfaces
            ≡ before ++ a ∷ after)
          × AllUnsuited before
          × (is_suited a ≡ true)
          × (id ≡ id_of a))

  find_id-Chosen : (interfaces : List (Option IfAddr)) → Chosen interfaces (find_id interfaces)
  unfolding find_id
  find_id-Chosen [] = inl (tt, refl)
  find_id-Chosen (a ∷ interfaces) = elim (Bool-cases (is_suited a)) [
    | inl suited ↦ inr ([], interfaces, a, refl, tt, suited, rw suited)
    | inr unsuited ↦ elim (find_id-Chosen interfaces) [
      | inl (none_there, zero_id) ↦ inl ((unsuited, none_there), rw unsuited zero_id)
      | inr (before, after, b, split, none_before, suited, at) ↦
          inr (
            a ∷ before,
            after,
            b,
            ap (◌∷◌ a) split,
            (unsuited, none_before),
            suited,
            rw unsuited at,
          )
    ]
  ]

  id_of-lt : (laws : NetLaws W) (a : Option IfAddr) → id_of a < 2 ^ 32
  id_of-lt laws none = omega arith
  id_of-lt laws (some a) = laws.ntohl-lt a.s_addr

  find_id-lt : (laws : NetLaws W) (interfaces : List (Option IfAddr)) → find_id interfaces < 2 ^ 32
  unfolding find_id
  find_id-lt laws [] = omega arith
  find_id-lt laws (a ∷ interfaces) = ground (arith, id_of-lt laws a, find_id-lt laws interfaces)

  -- On a list of interfaces getIp returns a 32-bit number: 0 if no interface has an address of
  -- family AF_INET outside the loopback network, and otherwise the first such address in the byte
  -- order of the host.
  pub get_ip-Chosen :
      (laws : NetLaws W) (interfaces : List (Option IfAddr))
      → Chosen interfaces (get_ip (some interfaces)) × (get_ip (some interfaces) < 2 ^ 32)
  unfolding get_ip
  get_ip-Chosen laws interfaces = (find_id-Chosen interfaces, find_id-lt laws interfaces)
