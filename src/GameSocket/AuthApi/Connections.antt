-- ===== src/GameSocket/AuthApi/Connections.antt =====
-- The connections that the handlers of GameSocketServer/src/api/auth_api.cpp take from the pool.

use socket_communication.GameSocket.Effects.{
  Tried, Task, ◌>>=◌, give, fail, Leads, Leads-bind, Leads-imp, Leads-rescue, other_error,
  undefined_behaviour,
}
use socket_communication.GameSocket.Store.{Store, with_work}
use socket_communication.GameSocket.Store.Rules.{Leaked, with_work-leaks}
use socket_communication.GameSocket.AuthApi.{
  AuthRequest, Answer, Library, hash_password, text_field, register_body, is_bad_username,
  is_short_password, register_checked, handle_register, login_body, welcome, login_checked,
  handle_login, handle_request, unknown_auth_action, bad_username, short_password, refused,
  registered, logged_in,
}
use socket_communication.Common.{
  if◌then◌else◌, ◌==◌, nat_eq, int_eq, bytes_eq, string_eq, String, ◌≡◌, refl, ◌⊎◌, inl, inr, Bool,
  true, false,
}
use socket_communication.Db.{Text, room_status_eq, game_status_eq}
use socket_communication.Protocol.{Field, absent, mistyped, given}
use socket_communication.DbPool.{DbPool}
use socket_communication.DbPool.Slots.{IsValid}

-- The pool as it was, or with one connection more in use.
abbrev pub MayLeak : DbPool → DbPool → Type 0
MayLeak p p' = (p' ≡ p) ⊎ Leaked p p'

-- What an answer says of the pool: one that is no refusal has cost a connection.
abbrev pub Costs : DbPool → Answer → DbPool → Type 0
Costs p (refused r) p' = MayLeak p p'
Costs p (registered id name) p' = Leaked p p'
Costs p (logged_in w) p' = Leaked p p'

Leaked-Costs : (p : DbPool) (a : Answer) (p' : DbPool) → Leaked p p' → Costs p a p'
Leaked-Costs p (refused r) p' h = inr h
Leaked-Costs p (registered id name) p' h = h
Leaked-Costs p (logged_in w) p' h = h

-- The postcondition of the handlers from the store `s`.
abbrev pub Charged : Store → Tried Store Answer → Type 0
Charged s = Leads (λ a s'. Costs s.pool a s'.pool) (λ _ s'. MayLeak s.pool s'.pool)

module _ (x : Library) (q : AuthRequest) (s : Store) (v : IsValid s.pool) where
  handle_register-Charged : Charged s (handle_register x q s)
  unfolding handle_register register_checked
  handle_register-Charged =
      Leads-rescue _ _ _ _ (register_checked x q s) (λ s' e. e) (λ s' e. e)
        (fields q.username q.password)
    where
      tested :
          (name password : Text) (b b' : Bool)
          → Charged s (
              (if b
                  then give (refused bad_username)
                  else if b'
                  then give (refused short_password)
                  else with_work (register_body name (hash_password x password)))
                s)
      tested name password true b' = inl refl
      tested name password false true = inl refl
      tested name password false false =
          let body = register_body name (hash_password x password) in
          Leads-imp _ _ _ _ (with_work body s) (λ a s' l. Leaked-Costs s.pool a s'.pool l)
            (λ e s' l. l) (with_work-leaks body s v)

      fields :
          (u p : Field Text)
          → Charged s (
              (text_field u >>= λ name. text_field p >>= λ password.
              if is_bad_username name
              then give (refused bad_username)
              else if is_short_password password
              then give (refused short_password)
              else with_work (register_body name (hash_password x password)))
                s)
      fields absent p = inl refl
      fields mistyped p = inl refl
      fields (given name) absent = inl refl
      fields (given name) mistyped = inl refl
      fields (given name) (given password) =
          tested name password (is_bad_username name) (is_short_password password)

  handle_login-Charged : Charged s (handle_login x q s)
  unfolding handle_login login_checked
  handle_login-Charged =
      Leads-rescue _ _ _ _ (login_checked x q s) (λ s' e. e) (λ s' e. e)
        (fields q.username q.password)
    where
      fields :
          (u p : Field Text)
          → Charged s (
              (text_field u >>= λ name. text_field p >>= λ password.
              with_work (login_body name (hash_password x password)) >>= λ found.
              give (welcome x name s.link.now found))
                s)
      fields absent p = inl refl
      fields mistyped p = inl refl
      fields (given name) absent = inl refl
      fields (given name) mistyped = inl refl
      fields (given name) (given password) =
          let body = login_body name (hash_password x password) in
          Leads-bind (λ _ s'. Leaked s.pool s'.pool) (λ _ s'. MayLeak s.pool s'.pool)
            (λ a s'. Costs s.pool a s'.pool) (with_work body)
            (λ found. give (welcome x name s.link.now found)) s (with_work-leaks body s v)
            (λ found s' l. Leaked-Costs s.pool (welcome x name s.link.now found) s'.pool l)

  -- From a valid pool, no request gives a connection back: afterwards as many are in use as before
  -- or one more, and one more where the answer registers or logs in. The pool stays valid.
  pub handle_request-Charged : Charged s (handle_request x q s)
  unfolding handle_request
  handle_request-Charged = go q.action
    where
      chosen :
          (b b' : Bool)
          → Charged s (
              (if b
                  then handle_register x q
                  else if b'
                  then handle_login x q
                  else give (refused unknown_auth_action))
                s)
      chosen true b' = handle_register-Charged
      chosen false true = handle_login-Charged
      chosen false false = inl refl

      go :
          (f : Field String)
          → Charged s (
              elim f as (λ _. Task Store Answer) [
                | absent ↦ fail undefined_behaviour
                | mistyped ↦ fail other_error
                | given a ↦
                    if a == "register"
                    then handle_register x q
                    else if a == "login"
                    then handle_login x q
                    else give (refused unknown_auth_action)
              ]
                s)
      go absent = inl refl
      go mistyped = inl refl
      go (given a) = chosen (a == "register") (a == "login")
