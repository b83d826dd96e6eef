-- ===== src/Server/Clients.antt =====
-- The vector of clients. An iterator is an index, and `none` is `clients.end()`. Reading or writing
-- through an index outside the vector is undefined behaviour, the result `none` of `deref` and
-- `write`.
use sis_op_ii.Common.{
  ℕ, zero, suc, Bool, true, false, Option, none, some, List, [], ◌∷◌, ◌++◌, Text, same,
  if◌then◌else◌, get_elem?, modify, ◌>>=◌,
}
pub mod Lookup
pub mod Append
use mathlib.Core.Option
use sis_op_ii.Common.Int.{ℤ, pos}
use sis_op_ii.Protocol.{ClientDto}
use sis_op_ii.Platform.{Platform}

abbrev pub Iterator : Type 0
Iterator = Option ℕ

module _ {W : Type 0} ⦃p : Platform W⦄ where
  -- INITIAL_BALANCE
  abbrev pub initial_balance : W
  initial_balance = p.of_int (pos 1000)

  -- The constructor of ClientDTO.
  unfoldable pub new_client : Text → ClientDto W
  new_client addr = record { address = addr; last_req = pos 0; balance = initial_balance }

module _ {W : Type 0} where
  -- `findClient`: the first client with the address.
  unfoldable pub find_client : Text → List (ClientDto W) → Iterator
  find_client ip [] = none
  find_client ip (c ∷ cs) = if same c.address ip then some 0 else Option.map suc (find_client ip cs)

  -- `*it`.
  abbrev pub deref : ℕ → List (ClientDto W) → Option (ClientDto W)
  deref i cs = get_elem? cs i

  -- A change made through an iterator.
  abbrev pub write :
      ℕ → (ClientDto W → ClientDto W) → List (ClientDto W) → Option (List (ClientDto W))
  write i f cs = deref i cs >>= λ _. some (modify i f cs)

  -- `ClientDTO::setBalance` and `ClientDTO::setLastRequest`.
  abbrev pub set_balance : W → ClientDto W → ClientDto W
  set_balance bal c = record c { balance = bal }

  abbrev pub set_last_request : ℤ → ClientDto W → ClientDto W
  set_last_request req c = record c { last_req = req }
