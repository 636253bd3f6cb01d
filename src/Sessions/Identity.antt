-- ===== src/Sessions/Identity.antt =====
-- `process_request` of MatchingServer/src/core/session.cpp: whose request a message is, and what a
-- second login on a session leaves behind.

use socket_communication.Common.{
  ℤ, minus_one, if◌then◌else◌, ◌==◌, nat_eq, int_eq, bytes_eq, string_eq, Bool-cases, Ran, ◌>>=◌,
  catching, final, ran, threw, has_key, insert, lookup-insert, ℕ, String, ◌≡◌, refl, ap, ◌∙◌, ◌≢◌,
  inl, inr, Bool, true, false, Option, none, some, List, arith,
}
use socket_communication.Db.{room_status_eq, game_status_eq}
use socket_communication.Protocol.{
  Field, Request, Profile, get, absent, mistyped, given, bad_request,
}
use socket_communication.AuthService.{External}
use socket_communication.Server.{
  Session, Server, zero_id, user_of, modify, add_token, register_session, check_already_login,
  destroy,
}
use socket_communication.Server.Connections.{check_already_login-destroy}
use socket_communication.Sessions.{
  World, send, refuse, log_in_as, no_user, init_current_user, after_login,
}
use socket_communication.Sessions.Requests.{is_auth_action, auth_request, route, process_request}

-- A request with another `userId`.
abbrev pub claiming : Field ℤ → Request → Request
claiming f q = record q { user_id = f }

module _ (x : External) (now s : ℕ) (q : Request) (f : Field ℤ) (w : World) where
  auth_same :
      user_of s w.server ≢ zero_id → auth_request x s (claiming f q) w ≡ auth_request x s q w
  unfolding auth_request
  auth_same n = elim (Bool-cases (user_of s w.server == zero_id)) [
    | inl none_yet ↦ absurd (ground arith)
    | inr logged ↦ rw logged refl
  ]

  route_same :
      (a : String)
      → user_of s w.server ≢ zero_id
      → route x now s (claiming f q) a w ≡ route x now s q a w
  unfolding route
  route_same a n = elim (Bool-cases (is_auth_action a)) [
    | inl auth ↦ rw auth (auth_same n)
    | inr other ↦ rw other refl
  ]

  caught_same :
      (field : Field String)
      → ((a : String) → route x now s (claiming f q) a w ≡ route x now s q a w)
      → (get field >>= λ a. catching (route x now s (claiming f q) a) (refuse s bad_request)) w
        ≡ (get field >>= λ a. catching (route x now s q a) (refuse s bad_request)) w
  caught_same absent h = refl
  caught_same mistyped h = refl
  caught_same (given a) h = ap handled (h a)
    where
      handled : Ran World (Unit {0}) → Ran World (Unit {0})
      handled r = elim r [ ran u v ↦ ran u v | threw v ↦ refuse s bad_request v ]

-- For a session that is logged in, the `userId` of a message makes no difference to what
-- `process_request` does.
pub identity_from_session :
    (x : External) (now s : ℕ) (q : Request) (f : Field ℤ) (w : World)
    → user_of s w.server ≢ zero_id
    → process_request x now s (claiming f q) w ≡ process_request x now s q w
unfolding process_request
identity_from_session x now s q f w n =
    caught_same x now s q f w q.action (λ a. route_same x now s q f w a n)

has_key-insert :
    (k j : ℤ) (v : ℕ) (m : List (ℤ × ℕ))
    → has_key j (insert k v m) ≡ (if k == j then true else has_key j m)
has_key-insert k j v m = ground (arith, lookup-insert k j v m)

tokens-modify : (s : ℕ) (g : Session → Session) (v : Server) → (modify s g v).tokens ≡ v.tokens
unfolding modify
tokens-modify s g v = ground arith

kept_by_modify :
    (s : ℕ) (g : Session → Session) (v : Server) (user : ℤ)
    → check_already_login user v ≡ true
    → check_already_login user (modify s g v) ≡ true
unfolding check_already_login
kept_by_modify s g v user h = rw (tokens-modify s g v) h

kept_by_register :
    (s : ℕ) (v : Server) (user : ℤ)
    → check_already_login user v ≡ true
    → check_already_login user (register_session s v).0 ≡ true
unfolding check_already_login register_session add_token
kept_by_register s v user h =
    ground (arith, has_key-insert (user_of s v) user v.next_token v.tokens)

-- A login on a session ends nobody's login, not that of the user whom the session named before
-- either.
pub after_login_keeps :
    (s : ℕ) (p : Option Profile) (w : World) (user : ℤ)
    → check_already_login user w.server ≡ true
    → check_already_login user (final (after_login s p w)).server ≡ true
unfolding after_login init_current_user send
after_login_keeps s none w user h = elim (Bool-cases (check_already_login minus_one w.server)) [
  | inl already ↦ rw already h
  | inr new ↦ rw new (kept_by_modify s no_user w.server user h)
]
after_login_keeps s (some p) w user h = elim (Bool-cases (check_already_login p.user_id w.server)) [
  | inl already ↦ rw already h
  | inr new ↦ rw new (
      kept_by_modify s _ _ user
        (kept_by_register s _ user (kept_by_modify s (log_in_as p) w.server user h)))
]

-- If a session of one user logs in as another and then ends, the first user stays logged in: no
-- object that names another user ends that login when it is destroyed.
pub relogin_locks_out :
    (s t : ℕ) (p : Option Profile) (w : World) (user : ℤ) (o : Session)
    → check_already_login user w.server ≡ true
    → o.token ≡ some t
    → o.user_id ≢ user
    → check_already_login user (destroy s o (final (after_login s p w)).server) ≡ true
relogin_locks_out s t p w user o h e n =
    check_already_login-destroy s t o (final (after_login s p w)).server user e
    ∙ other_user (after_login_keeps s p w user h)
  where
    other_user : {b : Bool} → b ≡ true → (if o.user_id == user then false else b) ≡ true
    other_user k = ground arith
