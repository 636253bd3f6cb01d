-- ===== src/Protocol.antt =====
-- The JSON that clients and services exchange. A request is the fields that the handlers read, each
-- absent, of a type that does not convert, or given; a value that is no object has every field
-- absent. A response is a constructor for each object that the services build, and its `message` is
-- the constructor's `Refusal`.

use socket_communication.Common.{ℤ, Action, pure, throw, ℕ, String, Bool, true, false, Option, List}
use socket_communication.Db.{Room, Text}

pub data Field {ℓ} (A : Type ℓ) : Type ℓ where
  absent mistyped : Field A
  given : A → Field A

abbrev pub contains {ℓ} : {A : Type ℓ} → Field A → Bool
contains absent = false
contains mistyped = true
contains (given a) = true

-- A conversion of the field, which throws where it is not possible.
abbrev pub get {ℓ κ} : {A : Type ℓ} {S : Type κ} → Field A → Action S A
get absent = throw
get mistyped = throw
get (given a) = pure a

pub record Request : Type 0 where
  pub action : Field String
  pub user_id : Field ℤ
  pub user_name : Field Text
  pub password : Field Text
  pub nick_name : Field Text
  pub room_id : Field ℤ
  pub room_name : Field Text
  pub max_players : Field ℤ
  pub map_id : Field ℤ
  pub game_id : Field ℤ
  pub connection_type : Field String
  pub port : Field ℤ
  pub version : Field String

-- Why a response has the status "error".
pub data Refusal : Type 0 where
  fields_missing exception_met unknown_action : Refusal
  invalid_room_name invalid_max_players room_not_created room_not_joined not_in_a_room : Refusal
  game_not_created game_not_ended : Refusal
  invalid_user_name short_password name_taken not_registered unknown_user wrong_password : Refusal
  invalid_nick_name nick_name_not_changed : Refusal
  not_authenticated not_permitted already_logged_in no_mirror no_controller bad_request : Refusal

-- A user's data in the response to a login.
pub record Profile : Type 0 where
  pub user_id : ℤ
  pub user_name : Text
  pub nick_name : Text
  pub created_at : ℕ
  pub last_login : ℕ

-- A room's data in the response to its creation.
pub record Opened : Type 0 where
  pub room_id : ℤ
  pub room_name : Text
  pub max_players : ℤ
  pub ip_address : Text
  pub port : ℤ

pub data Response : Type 0 where
  refused : Refusal → Response
  registered : ℤ → Text → Response
  -- `none` is a response whose `userId` is -1 and whose other data are null
  logged_in : Option Profile → Response
  nick_name_changed : Text → Response
  room_created : Opened → Response
  room_joined : ℤ → Response
  room_left : Response
  rooms_listed : List (Room × ℤ) → Response
  game_started : ℤ → List ℤ → Response
  game_ended : ℤ → List ℤ → Response

-- `response["status"] == "success"`.
abbrev pub is_success : Response → Bool
is_success (refused r) = false
is_success _ = true
