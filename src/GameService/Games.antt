-- ===== src/GameService/Games.antt =====
-- `startGame` and `endGame` of MatchingServer/src/service/game_service.cpp, whatever fails.

use mathlib.Core.Logic.{if_pos}
use socket_communication.Common.{
  ℤ, minus_one, int_eq, Bool-cases, Ran, ◌>>=◌, pure, Ends, Ends-catching, ran, threw, ◌≡◌, refl,
  ◌⊎◌, inl, inr, false, not, ◌||◌,
}
use socket_communication.Db.{Tables, Db}
use socket_communication.Db.Atomicity.{Atomic}
use socket_communication.Protocol.{
  Field, Request, Response, contains, is_success, absent, mistyped, given,
}
use socket_communication.GameRepository.{GameAnswer}
use socket_communication.GameRepository.Games.{
  Start, End, Completes, Begins, NoId, create_game-Start, end_game-End,
}
use socket_communication.GameService
use socket_communication.GameService.{
  start_answer, start_game_checked, start_game, end_answer, end_game_checked,
}

-- An error, over committed tables that are unchanged or changed by `K`.
abbrev pub Refuses : (Tables → Type 0) → Tables → Response → Db → Type 0
Refuses K t a db = (is_success a ≡ false) × ((db.committed ≡ t) ⊎ K db.committed)

start_answer_refused : (a : GameAnswer) → NoId a → is_success (start_answer a) ≡ false
start_answer_refused a n = rw (if_pos (int_eq.dec a.game_id minus_one) n) refl

module _ (q : Request) (db : Db) where
  create_game_called :
      (r : Ran Db GameAnswer)
      → Atomic NoId (Begins q.room_id q.map_id db.committed) db.committed r
      → Ends
          (Refuses (Start db.committed) db.committed)
          (λ db'. db'.committed ≡ db.committed)
          (((λ _. r) >>= λ a. pure (start_answer a)) db)
  create_game_called (threw db') e = e
  create_game_called (ran a db') (inl (same, n)) = (start_answer_refused a n, inl same)
  create_game_called (ran a db') (inr c) = (start_answer_refused a c.no_id, inr c.start)

  start_game_checked-Refuses :
      Ends
        (Refuses (Start db.committed) db.committed)
        (λ db'. db'.committed ≡ db.committed)
        (start_game_checked q db)
  unfolding start_game_checked
  start_game_checked-Refuses =
      elim (Bool-cases (not (contains q.room_id) || not (contains q.map_id))) [
        | inl missing ↦ rw missing (refl, inl refl)
        | inr all_there ↦ rw all_there (create_game_called _ (create_game-Start q db))
      ]

  completion_called :
      (game : ℤ) (r : Ran Db GameAnswer)
      → Atomic NoId (Completes game db.committed) db.committed r
      → Ends
          (Refuses (λ t'. (game : ℤ) × End game db.committed t') db.committed)
          (λ db'. db'.committed ≡ db.committed)
          (((λ _. r) >>= end_answer) db)
  completion_called game (threw db') e = e
  completion_called game (ran a db') (inl (same, n)) =
      rw (if_pos (int_eq.dec a.game_id minus_one) n) (refl, inl same)
  completion_called game (ran a db') (inr c) =
      rw (if_pos (int_eq.dec a.game_id minus_one) c.no_id) (refl, inr (game, c.end))

  end_game_checked-Refuses :
      (game_field : Field ℤ)
      → Ends
          (Refuses (λ t'. (game : ℤ) × End game db.committed t') db.committed)
          (λ db'. db'.committed ≡ db.committed)
          (end_game_checked game_field db)
  unfolding end_game_checked
  end_game_checked-Refuses absent = (refl, inl refl)
  end_game_checked-Refuses mistyped = refl
  end_game_checked-Refuses (given game) = completion_called game _ (end_game-End game db)

-- `start_game` never throws and always answers an error, also where it has committed a `Start`.
pub start_game-Refuses :
    (q : Request) (db : Db)
    → Ends (Refuses (Start db.committed) db.committed) (λ db'. ⊥) (start_game q db)
unfolding start_game
start_game-Refuses q db =
    Ends-catching _ _ _ (start_game_checked q) _ db (start_game_checked-Refuses q db)
      (λ db' e. (refl, inl e))

-- `end_game` never throws and always answers an error, also where it has committed an `End`.
pub end_game-Refuses :
    (q : Request) (db : Db)
    → Ends
        (Refuses (λ t'. (game : ℤ) × End game db.committed t') db.committed)
        (λ db'. ⊥)
        (GameService.end_game q db)
unfolding GameService.end_game
end_game-Refuses q db =
    Ends-catching _ _ _ (end_game_checked q.game_id) _ db (end_game_checked-Refuses q db q.game_id)
      (λ db' e. (refl, inl e))
