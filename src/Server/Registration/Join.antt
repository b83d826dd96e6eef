-- ===== src/Server/Registration/Join.antt =====
-- addClient and handleClientUpdate on an address that is new, and on one that is known.
use sis_op_ii.Common.{ℕ, ◌≡◌, none, some, [], ◌∷◌, ◌++◌, Text, if◌then◌else◌}
use sis_op_ii.Protocol.{is_primary, ClientUpdateData, Packet, ClientDto}
use sis_op_ii.Protocol.CharArray.{c_string}
use sis_op_ii.Platform.{Platform, read_client_update}
use sis_op_ii.Server.State.{Server, notify}
use sis_op_ii.Server.Clients.{find_client, new_client, set_balance, set_last_request}
use sis_op_ii.Server.Registration.{
  add_balance, append_client, propagate_client_addition, was_client_added, add_client, take_client,
  handle_client_update,
}

module _ {W : Type 0} ⦃p : Platform W⦄ where
  pub add_client-known :
      (s : Server W) (ip : Text) (i : ℕ)
      → find_client ip s.clients ≡ some i
      → add_client s ip ≡ (s, [])
  unfolding add_client was_client_added
  add_client-known s ip i e = rw (e, was_client_added)

  pub add_client-new :
      (s : Server W) (ip : Text)
      → find_client ip s.clients ≡ none
      → add_client s ip ≡ (
        notify (append_client s ip),
        if is_primary s.current_role then propagate_client_addition s (new_client ip) else [],
      )
  unfolding add_client was_client_added
  add_client-new s ip e = rw (e, was_client_added)

  -- The client that an update describes.
  abbrev pub described : ClientUpdateData W → Text → ClientDto W
  described u ip = set_last_request u.last_request (set_balance u.balance (new_client ip))

  pub handle_client_update-new :
      (s : Server W) (packet : Packet W) (ip : Text)
      → let u = read_client_update packet.contents in
        c_string u.ip ≡ some ip
        → find_client ip s.clients ≡ none
        → handle_client_update s packet
          ≡ some (
              notify (record s {
                clients = s.clients ++ described u ip ∷ [];
                total_balance = add_balance s.total_balance u.balance;
              }))
  unfolding handle_client_update take_client
  handle_client_update-new s packet ip read e = rw (read, take_client, e)

  pub handle_client_update-known :
      (s : Server W) (packet : Packet W) (ip : Text) (i : ℕ)
      → c_string (read_client_update packet.contents).ip ≡ some ip
      → find_client ip s.clients ≡ some i
      → handle_client_update s packet ≡ some s
  unfolding handle_client_update take_client
  handle_client_update-known s packet ip i read e = rw (read, take_client, e)
