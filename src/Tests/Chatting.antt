-- ===== src/Tests/Chatting.antt =====
-- The chat server and its client.

use socket_communication.Common.{
  nat_eq, int_eq, bytes_eq, string_eq, lookup, insert, bytes_of, ◌≡◌, refl, true, false, some, List,
  [], ◌∷◌, ◌++◌,
}
use socket_communication.Db.{room_status_eq, game_status_eq}
use socket_communication.ChatServer.{
  Service, Event, has_joined, new_chat, register_client, run_chat, accepts, arrives, ready, fails,
}
use socket_communication.ChatServer.Names.{nickname_is_own}
use socket_communication.ChatServer.Departed.{name_never_freed}
use socket_communication.ChatServer.Client.{send_message}

-- Two connections; the first calls itself ann, and the second tries the same name and then leaves.
abbrev two_join : List Event
two_join =
    accepts
    ∷ accepts
    ∷ arrives 0 (send_message (bytes_of "ann") ++ send_message (bytes_of "hi"))
    ∷ ready 0
    ∷ ready 0
    ∷ []

abbrev second_tries : List Event
second_tries = arrives 1 (send_message (bytes_of "ann")) ∷ ready 1 ∷ []

-- Both lines of the first are broadcast to it.
both_told :
    (run_chat two_join new_chat).sent
    ≡ (0, bytes_of "ann" ++ (has_joined ++ (b'\n' ∷ [])))
      ∷ (0, bytes_of "ann: hi" ++ (b'\n' ∷ []))
      ∷ []
unfolding run_chat lookup insert nat_eq send_message bytes_eq
both_told = refl

abbrev ann : Service
ann = record { request = []; nickname = bytes_of "ann"; is_reading = true; is_open = true }

nickname_is_own_example : lookup (bytes_of "ann") (run_chat two_join new_chat).clients ≡ some 0
unfolding lookup insert nat_eq send_message bytes_eq
nickname_is_own_example = nickname_is_own two_join 0 ann (unfold run_chat in refl) refl refl

name_never_freed_example :
    (register_client 1 ann (run_chat (fails 0 ∷ second_tries) (run_chat two_join new_chat))).1
    ≡ false
unfolding lookup insert nat_eq send_message bytes_eq
name_never_freed_example =
    name_never_freed (fails 0 ∷ second_tries) (run_chat two_join new_chat) (bytes_of "ann") 0 1 ann
      (unfold run_chat in refl) refl
