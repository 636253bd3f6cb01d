-- ===== src/Server/Connections.antt =====
-- `connected_ips_` of MatchingServer/src/core/server.cpp, and the destructor of Session.

use socket_communication.Common.{
  ℤ, if◌then◌else◌, ◌==◌, nat_eq, int_eq, bytes_eq, string_eq, delete_rows, any_row, erase, has_key,
  lookup-erase, ℕ, ◌≡◌, ◌≢◌, true, false, some, List, [], ◌∷◌, arith,
}
use socket_communication.Db.{Text, room_status_eq, game_status_eq}
use socket_communication.Server.{
  Session, Server, check_already_login, allow_connection, remove_connection, destroy,
}

any_row-delete_rows :
    (ip jp : Text) (ips : List Text)
    → any_row (λ i. i == jp) (delete_rows (λ i. i == ip) ips)
      ≡ (if jp == ip then false else any_row (λ i. i == jp) ips)
unfolding any_row delete_rows
any_row-delete_rows ip jp [] = ground arith
any_row-delete_rows ip jp (i ∷ ips) = ground (arith, any_row-delete_rows ip jp ips)

-- An address that was let in is refused until it is removed, and removing it lets it in again;
-- neither touches another address.
pub allow_connection_once :
    (ip : Text) (w : Server)
    → ((allow_connection ip (allow_connection ip w).0).1 ≡ false)
      × ((allow_connection ip (remove_connection ip w)).1 ≡ true)
      × ((jp : Text)
          → jp ≢ ip
          → (allow_connection jp (allow_connection ip w).0).1 ≡ (allow_connection jp w).1)
      × ((jp : Text)
          → jp ≢ ip
          → (allow_connection jp (remove_connection ip w)).1 ≡ (allow_connection jp w).1)
unfolding allow_connection remove_connection any_row
allow_connection_once ip w = (
  ground arith,
  ground (arith, any_row-delete_rows ip ip w.connected_ips),
  λ jp n. ground arith,
  λ jp n. ground (arith, any_row-delete_rows ip jp w.connected_ips),
)

has_key-erase :
    (k j : ℤ) (m : List (ℤ × ℕ)) → has_key j (erase k m) ≡ (if k == j then false else has_key j m)
has_key-erase k j m = ground (arith, lookup-erase k j m)

tokens-destroy :
    (s t : ℕ) (o : Session) (w : Server)
    → o.token ≡ some t
    → (destroy s o w).tokens ≡ erase o.user_id w.tokens
unfolding destroy
tokens-destroy s t o w e = ground arith

-- The destructor of a session with a token ends the login of the user that the object names last,
-- and leaves that of every other user as it was.
pub check_already_login-destroy :
    (s t : ℕ) (o : Session) (w : Server) (user : ℤ)
    → o.token ≡ some t
    → check_already_login user (destroy s o w)
      ≡ (if o.user_id == user then false else check_already_login user w)
unfolding check_already_login
check_already_login-destroy s t o w user e =
    rw (tokens-destroy s t o w e) (has_key-erase o.user_id user w.tokens)
