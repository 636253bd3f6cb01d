-- ===== src/History/Invariant.antt =====
-- The capacity of rooms over a history of requests.

use socket_communication.Common.{
  ℤ, lt_int, Within, pos, Ran, final, Ends, ran, threw, ℕ, ◌≤◌, ◌≡◌, sym, subst, inl, inr, false,
  some, List, [], ◌∷◌, arith,
}
use socket_communication.Db.{Tables, Db}
use socket_communication.RoomRepository.Capacity.{
  IsConsistent, Joined-IsConsistent, Creation-IsConsistent, Departure-IsConsistent,
}
use socket_communication.RoomService.{create_room, join_room, exit_room}
use socket_communication.RoomService.Rooms.{Never, Makes, create_room-Makes}
use socket_communication.RoomService.Seats.{Enters, join_room-Enters, Leaves, exit_room-Leaves}
use socket_communication.GameService.{start_game, end_game}
use socket_communication.GameService.Games.{Refuses, start_game-Refuses, end_game-Refuses}
use socket_communication.GameRepository.Games.{Start, End}
use socket_communication.History.Games.{Start-IsConsistent, End-IsConsistent}
use socket_communication.History.Listings.{list_rooms-Keeps}
use socket_communication.History.{
  Call, Event, serve, during, run_history, creates, joins, leaves, starts, ends, lists,
}
use socket_communication.Protocol.{Request}

-- What holds in either way to end holds in the state reached.
at_end {ℓ} :
    {A : Type ℓ} (P : A → Db → Type 0) (E Q : Db → Type 0) (r : Ran Db A)
    → ((a : A) (db : Db) → P a db → Q db)
    → ((db : Db) → E db → Q db)
    → Ends P E r
    → Q (final r)
at_end P E Q (ran a db) p e h = p a db h
at_end P E Q (threw db) p e h = e db h

-- The committed tables are consistent.
abbrev pub Consistently : Db → Type 0
Consistently db = IsConsistent db.committed

has_place : (limit : ℤ) → Within 2 8 limit → lt_int limit (pos 1) ≡ false
has_place limit (n, e, lo, hi) = rw e (one_fits n lo)
  where
    one_fits : (n : ℕ) → 2 ≤ n → lt_int (pos n) (pos 1) ≡ false
    one_fits n l = ground arith

unchanged : (t : Tables) (db : Db) → IsConsistent t → db.committed ≡ t → Consistently db
unchanged t db c e = subst IsConsistent (sym e) c

serve-create : (q : Request) (db : Db) → Consistently db → Consistently (final (create_room q db))
serve-create q db c =
    at_end (Makes q db.committed) Never Consistently _
      (λ a db' m. elim m [
        | inl (e, _) ↦ unchanged db.committed db' c e
        | inr m ↦
            Creation-IsConsistent m.host m.name m.limit db.committed (some m.room) db'.committed
              (has_place m.limit m.range) m.creation c
      ])
      (λ db' e. absurd e) (create_room-Makes q db)

serve-join : (q : Request) (db : Db) → Consistently db → Consistently (final (join_room q db))
serve-join q db c =
    at_end (Enters q db.committed) Never Consistently _
      (λ a db' m. elim m [
        | inl (e, _) ↦ unchanged db.committed db' c e
        | inr m ↦ Joined-IsConsistent m.room m.user db.committed db'.committed m.joined c
      ])
      (λ db' e. absurd e) (join_room-Enters q db)

serve-exit : (q : Request) (db : Db) → Consistently db → Consistently (final (exit_room q db))
serve-exit q db c =
    at_end (Leaves q db.committed) Never Consistently _
      (λ a db' m. elim m [
        | inl (e, _) ↦ unchanged db.committed db' c e
        | inr m ↦ Departure-IsConsistent m.user db.committed db'.committed m.departure c
      ])
      (λ db' e. absurd e) (exit_room-Leaves q db)

serve-start : (q : Request) (db : Db) → Consistently db → Consistently (final (start_game q db))
serve-start q db c =
    at_end (Refuses (Start db.committed) db.committed) Never Consistently _
      (λ a db' m. elim m.1 [
        | inl e ↦ unchanged db.committed db' c e
        | inr s ↦ Start-IsConsistent db.committed db'.committed s c
      ])
      (λ db' e. absurd e) (start_game-Refuses q db)

serve-end : (q : Request) (db : Db) → Consistently db → Consistently (final (end_game q db))
serve-end q db c =
    at_end (Refuses (λ t'. (game : ℤ) × End game db.committed t') db.committed) Never Consistently _
      (λ a db' m. elim m.1 [
        | inl e ↦ unchanged db.committed db' c e
        | inr (game, e) ↦ End-IsConsistent game db.committed db'.committed e c
      ])
      (λ db' e. absurd e) (end_game-Refuses q db)

-- Whatever the request to the room or the game service, and whatever statements fail: if room ids
-- are distinct, every room holds at most its `max_players` and every terminated room holds nobody,
-- the same is true after.
pub serve-IsConsistent :
    (c : Call) (db : Db) → IsConsistent db.committed → IsConsistent (final (serve c db)).committed
unfolding serve
serve-IsConsistent (creates q) db h = serve-create q db h
serve-IsConsistent (joins q) db h = serve-join q db h
serve-IsConsistent (leaves q) db h = serve-exit q db h
serve-IsConsistent (starts q) db h = serve-start q db h
serve-IsConsistent (ends q) db h = serve-end q db h
serve-IsConsistent lists db h =
    at_end (λ a w. w.committed ≡ db.committed) (λ w. w.committed ≡ db.committed) Consistently _
      (λ a w e. unchanged db.committed w h e) (λ w e. unchanged db.committed w h e)
      (list_rooms-Keeps db)

-- From tables in which room ids are distinct, every room holds at most its `max_players` and every
-- terminated room holds nobody, any history of requests to the room and game services, each with
-- faults and a link of its own, leads to such tables again.
pub run_history-IsConsistent :
    (es : List Event) (db : Db)
    → IsConsistent db.committed
    → IsConsistent (run_history es db).committed
unfolding run_history
run_history-IsConsistent [] db h = h
run_history-IsConsistent (e ∷ es) db h =
    run_history-IsConsistent es _ (serve-IsConsistent e.call (during e db) h)
