-- ===== src/GameSocket/Session/Accounts.antt =====
-- The accounts that a whole connection of GameSocketServer/src/session.cpp finds and leaves.

use socket_communication.GameSocket.Effects.{
  Task, give, fail, Leads, Leads-imp, other_error, undefined_behaviour,
}
use socket_communication.GameSocket.Store.{Account, Store}
use socket_communication.GameSocket.AuthApi.{
  AuthRequest, Answer, Library, handle_register, handle_login, handle_request, unknown_auth_action,
  refused, registered, logged_in,
}
use socket_communication.GameSocket.AuthApi.Login.{seen, LoginEnds, handle_login-LoginEnds}
use socket_communication.GameSocket.AuthApi.Register.{IsDigest, Refused, handle_register-Refused}
use socket_communication.Common.{
  ℤ, if◌then◌else◌, ◌==◌, nat_eq, int_eq, bytes_eq, string_eq, Bool-cases, update_rows, ℕ, String,
  ◌≡◌, refl, ap, ◌∙◌, inl, inr, Bool, true, false, List, [], ◌∷◌, map,
}
use socket_communication.Db.{Text, room_status_eq, game_status_eq}
use socket_communication.Protocol.{Field, absent, mistyped, given}

-- What identifies an account.
abbrev pub credentials : Account → ℤ × Text × Text
credentials a = (a.user_id, a.username, a.password)

seen-credentials :
    (id : ℤ) (now : ℕ) (as' : List Account)
    → map credentials (seen id now as') ≡ map credentials as'
unfolding update_rows
seen-credentials id now [] = refl
seen-credentials id now (a ∷ as') = elim (Bool-cases (a.user_id == id)) [
  | inl h ↦ rw h (ap (◌∷◌ (credentials a)) (seen-credentials id now as'))
  | inr h ↦ rw h (ap (◌∷◌ (credentials a)) (seen-credentials id now as'))
]

abbrev Same : Store → Store → Type 0
Same s s' = map credentials s'.accounts ≡ map credentials s.accounts

module _ (x : Library) (digests : (t : Text) → IsDigest (x.sha256 t)) where
  handle_request-Same :
      (q : AuthRequest) (s : Store)
      → Leads (λ _ s'. Same s s') (λ _ s'. Same s s') (handle_request x q s)
  unfolding handle_request
  handle_request-Same q s = go q.action
    where
      registers : Leads (λ _ s'. Same s s') (λ _ s'. Same s s') (handle_register x q s)
      registers =
          Leads-imp (λ a s'. Refused s.accounts a s'.accounts) (λ _ s'. s'.accounts ≡ s.accounts) _
            _ (handle_register x q s) (λ a s' r. ap (map credentials) r.1)
            (λ e s' r. ap (map credentials) r) (handle_register-Refused x q s digests)

      ends :
          (a : Answer) (s' : Store) → LoginEnds x q s.link.now s.accounts a s'.accounts → Same s s'
      ends (refused r) s' e = ap (map credentials) e
      ends (registered id name) s' e = absurd e
      ends (logged_in w) s' (name, password, u, p, (a, g)) =
          ap (map credentials) g.touched ∙ seen-credentials a.user_id s.link.now s.accounts

      logs_in : Leads (λ _ s'. Same s s') (λ _ s'. Same s s') (handle_login x q s)
      logs_in =
          Leads-imp (λ a s'. LoginEnds x q s.link.now s.accounts a s'.accounts)
            (λ _ s'. s'.accounts ≡ s.accounts) _ _ (handle_login x q s) ends
            (λ e s' r. ap (map credentials) r) (handle_login-LoginEnds x q s)

      chosen :
          (b b' : Bool)
          → Leads
              (λ _ s'. Same s s')
              (λ _ s'. Same s s')
              ((if b
                  then handle_register x q
                  else if b'
                  then handle_login x q
                  else give (refused unknown_auth_action))
                s)
      chosen true b' = registers
      chosen false true = logs_in
      chosen false false = refl

      go :
          (f : Field String)
          → Leads
              (λ _ s'. Same s s')
              (λ _ s'. Same s s')
              (elim f as (λ _. Task Store Answer) [
                | absent ↦ fail undefined_behaviour
                | mistyped ↦ fail other_error
                | given a ↦
                    if a == "register"
                    then handle_register x q
                    else if a == "login"
                    then handle_login x q
                    else give (refused unknown_auth_action)
              ]
                s)
      go absent = refl
      go mistyped = refl
      go (given a) = chosen (a == "register") (a == "login")

  -- A request keeps what the rows were at some time.
  pub handle_request-credentials :
      (as' : List Account) (q : AuthRequest) (s : Store)
      → map credentials s.accounts ≡ map credentials as'
      → Leads
          (λ _ s'. map credentials s'.accounts ≡ map credentials as')
          (λ _ s'. map credentials s'.accounts ≡ map credentials as')
          (handle_request x q s)
  handle_request-credentials as' q s e =
      Leads-imp (λ _ s'. Same s s') (λ _ s'. Same s s') _ _ (handle_request x q s) (λ a s' h. h ∙ e)
        (λ f s' h. h ∙ e) (handle_request-Same q s)
