-- ===== src/Sessions/Broadcasts.antt =====
-- The broadcasts of MatchingServer/src/core/server.cpp.

use mathlib.Core.List.{append-nil, append_assoc}
use socket_communication.Common.{
  if◌then◌else◌, ◌==◌, nat_eq, int_eq, bytes_eq, string_eq, ◌>>◌, pure, ran, ℕ, ◌≡◌, refl, sym, ap,
  ◌∙◌, none, some, List, [], ◌∷◌, ◌++◌, map, arith,
}
use socket_communication.Db.{Text, room_status_eq, game_status_eq}
use socket_communication.Server.{
  Status, Server, zero_id, lock, waiting_sessions, get_waiting_sessions, waiting_lobby,
}
use socket_communication.Sessions.{Message, World, Handler, send, ccu_list, new_login, chat}

-- `broadcastActiveUser`: `write_broadcast` of each session.
unfoldable pub broadcast_active_user : Message → List ℕ → Handler
unfolding send
broadcast_active_user m [] = pure tt
broadcast_active_user m (s ∷ ss) = send s m >> broadcast_active_user m ss

-- The loop of `broadcastCCU`: the data of the sessions that are logged in, and those in the lobby.
unfoldable pub collect_users : Server → List (ℕ × ℕ) → List (Text × Status) × List ℕ
collect_users w [] = ([], [])
collect_users w ((t, s) ∷ m) =
    let (users, in_lobby) = collect_users w m in
    elim (lock s w) [
      | none ↦ (users, in_lobby)
      | some o ↦ if o.user_id == zero_id then (users, in_lobby) else (
        (o.nick_name, o.status) ∷ users,
        elim o.status [ waiting_lobby ↦ s ∷ in_lobby | _ ↦ in_lobby ],
      )
    ]

unfoldable pub broadcast_ccu : Handler
unfolding broadcast_active_user collect_users
broadcast_ccu w =
    let (users, in_lobby) = collect_users w.server w.server.sessions in
    broadcast_active_user (ccu_list users) in_lobby w

unfoldable pub broadcast_login : Text → Handler
unfolding broadcast_active_user
broadcast_login nick_name w =
    broadcast_active_user (new_login nick_name) (get_waiting_sessions w.server) w

unfoldable pub broadcast_chat : Text → Text → Handler
unfolding broadcast_active_user
broadcast_chat nick_name message w =
    broadcast_active_user (chat nick_name message) (get_waiting_sessions w.server) w

-- The world with a message written to each of some sessions.
abbrev pub told : Message → List ℕ → World → World
told m ss w = record w { sent = w.sent ++ map (λ s. (s, m)) ss }

broadcast_active_user-told :
    (m : Message) (ss : List ℕ) (w : World) → broadcast_active_user m ss w ≡ ran tt (told m ss w)
unfolding broadcast_active_user send
broadcast_active_user-told m [] w =
    ap (λ l. ran tt (record w { sent = l })) (sym (append-nil w.sent))
broadcast_active_user-told m (s ∷ ss) w =
    broadcast_active_user-told m ss (record w { sent = w.sent ++ (s, m) ∷ [] })
    ∙ ap (λ l. ran tt (record w { sent = l }))
        (append_assoc w.sent ((s, m) ∷ []) (map (λ i. (i, m)) ss))

waiting_agree : (w : Server) (m : List (ℕ × ℕ)) → (collect_users w m).1 ≡ waiting_sessions w m
unfolding collect_users waiting_sessions
waiting_agree w [] = refl
waiting_agree w ((t, s) ∷ m) = ground (arith, waiting_agree w m)

-- The list of users goes to exactly the sessions that `getWaitingSessions` answers, once each and in
-- its order, and `broadcastCCU` changes nothing else.
pub broadcast_ccu-told :
    (w : World)
    → broadcast_ccu w
      ≡ ran tt (
          told
            (ccu_list (collect_users w.server w.server.sessions).0)
            (get_waiting_sessions w.server)
            w)
unfolding broadcast_ccu get_waiting_sessions
broadcast_ccu-told w =
    broadcast_active_user-told _ _ w
    ∙ ap (λ ss. ran tt (told (ccu_list (collect_users w.server w.server.sessions).0) ss w))
        (waiting_agree w.server w.server.sessions)
