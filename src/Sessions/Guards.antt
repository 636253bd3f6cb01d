-- ===== src/Sessions/Guards.antt =====
-- The guards of `process_request` in MatchingServer/src/core/session.cpp.

use socket_communication.Common.{
  ◌==◌, nat_eq, int_eq, bytes_eq, string_eq, Bool-cases, Ran, ◌>>=◌, catching, ran, threw, ℕ,
  String, ◌≡◌, refl, ◌⊎◌, inl, inr, true, false, not, ◌||◌, [], ◌∷◌, ◌++◌, arith,
}
use socket_communication.Db.{room_status_eq, game_status_eq}
use socket_communication.Protocol.{
  Field, Request, Refusal, get, absent, mistyped, given, not_authenticated, not_permitted,
  bad_request, refused,
}
use socket_communication.AuthService.{External}
use socket_communication.Server.{zero_id, user_of}
use socket_communication.Sessions.{World, Handler, send, refuse, response}
use socket_communication.Sessions.Requests.{
  is_auth_action, is_room_action, is_game_action, room_request, is_mirror_object, game_request,
  route, process_request,
}

room_actions :
    (a : String)
    → is_room_action a ≡ true
    → (a ≡ "createRoom") ⊎ (a ≡ "joinRoom") ⊎ (a ≡ "exitRoom") ⊎ (a ≡ "listRooms")
room_actions a h = ground arith

-- An action of the rooms is none of those of the accounts.
room_not_auth : (a : String) → is_room_action a ≡ true → is_auth_action a ≡ false
unfolding string_eq
room_not_auth a h = elim (room_actions a h) [
  | inl e ↦ rw e refl
  | inr (inl e) ↦ rw e refl
  | inr (inr (inl e)) ↦ rw e refl
  | inr (inr (inr e)) ↦ rw e refl
]

game_not_other :
    (a : String) → is_game_action a ≡ true → (is_auth_action a ≡ false) × (is_room_action a ≡ false)
unfolding string_eq
game_not_other a h = elim (which a h) [ inl e ↦ rw e (refl, refl) | inr e ↦ rw e (refl, refl) ]
  where
    which : (b : String) → is_game_action b ≡ true → (b ≡ "gameStart") ⊎ (b ≡ "gameEnd")
    which b k = ground arith

-- What a refused request leaves: the world as it was, and the refusal written to the session.
abbrev pub refused_in : ℕ → Refusal → World → World
refused_in s r w = record w { sent = w.sent ++ (s, response (refused r)) ∷ [] }

module _ (x : External) (now s : ℕ) (q : Request) (a : String) (w : World) where
  routed :
      (w' : World)
      → q.action ≡ given a
      → route x now s q a w ≡ ran tt w'
      → process_request x now s q w ≡ ran tt w'
  unfolding process_request
  routed w' e r = go q.action e
    where
      catch_route : String → Handler
      catch_route b = catching (route x now s q b) (refuse s bad_request)

      caught :
          (v : Ran World (Unit {0}))
          → v ≡ ran tt w'
          → elim v [ ran u v' ↦ ran u v' | threw v' ↦ refuse s bad_request v' ] ≡ ran tt w'
      caught v i = rw i refl

      go : (f : Field String) → f ≡ given a → (get f >>= catch_route) w ≡ ran tt w'
      go absent i = absurd (ground arith)
      go mistyped i = absurd (ground arith)
      go (given b) i = let same : b ≡ a = ground arith in rw same (caught (route x now s q a w) r)

room_refused :
    (s : ℕ) (q : Request) (w : World)
    → user_of s w.server ≡ zero_id
    → room_request s q w ≡ ran tt (refused_in s not_authenticated w)
unfolding room_request send
room_refused s q w u = elim (Bool-cases (user_of s w.server == zero_id)) [
  | inl stop ↦ rw stop refl
  | inr pass ↦ absurd (ground arith)
]

game_refused :
    (s : ℕ) (q : Request) (w : World)
    → (user_of s w.server ≡ zero_id) ⊎ (is_mirror_object s w.server ≡ false)
    → game_request s q w ≡ ran tt (refused_in s not_permitted w)
unfolding game_request send
game_refused s q w u =
    elim (Bool-cases (user_of s w.server == zero_id || not (is_mirror_object s w.server))) [
      | inl stop ↦ rw stop refl
      | inr pass ↦ absurd (ground arith)
    ]

-- A session that is not logged in gets no room action through: nothing changes but that the refusal
-- is written to it.
pub room_needs_login :
    (x : External) (now s : ℕ) (q : Request) (a : String) (w : World)
    → q.action ≡ given a
    → is_room_action a ≡ true
    → user_of s w.server ≡ zero_id
    → process_request x now s q w ≡ ran tt (refused_in s not_authenticated w)
room_needs_login x now s q a w e r u =
    routed x now s q a w _ e (unfold route send in rw (room_not_auth a r, r) (room_refused s q w u))

-- Only a mirror server that has a user id gets a game action through: for any other session nothing
-- changes but that the refusal is written to it.
pub game_needs_mirror :
    (x : External) (now s : ℕ) (q : Request) (a : String) (w : World)
    → q.action ≡ given a
    → is_game_action a ≡ true
    → (user_of s w.server ≡ zero_id) ⊎ (is_mirror_object s w.server ≡ false)
    → process_request x now s q w ≡ ran tt (refused_in s not_permitted w)
game_needs_mirror x now s q a w e g u = routed x now s q a w _ e (
    unfold route send in
    rw ((game_not_other a g).0, (game_not_other a g).1, g) (game_refused s q w u))
