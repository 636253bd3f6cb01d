-- ===== src/Server.antt =====
-- MatchingServer/src/core/server.h and server.cpp: the registries of the server, and the session
-- objects (core/session.h) that its weak pointers lead to. An object is known by a number and lies
-- in `objects` while it is alive, so `lock()` is a look-up there. A token is the number of the draw
-- from the UUID generator. The mutexes make each method one step.

pub mod Registry
pub mod Connections
use socket_communication.Common.{
  ℤ, pos, if◌then◌else◌, ltb, ◌==◌, nat_eq, int_eq, bytes_eq, string_eq, length, is_empty,
  delete_rows, any_row, lookup, insert, erase, has_key, ℕ, suc, ◌-◌, String, Bool, true, false,
  Option, none, some, List, [], ◌∷◌,
}
use socket_communication.Db.{Text, room_status_eq, game_status_eq}

-- The texts that the program stores in `status_`.
pub data Status : Type 0 where
  unset waiting_lobby playing : Status
  in_room : ℤ → Status

-- The fields of a Session object that the program reads; `is_live` is whether its socket is open.
pub record Session : Type 0 where
  pub user_id : ℤ
  pub user_name : Text
  pub nick_name : Text
  pub status : Status
  pub last_activity : ℕ
  pub token : Option ℕ
  pub is_mirror : Bool
  pub mirror_port : ℤ
  pub remote_ip : Text
  pub is_live : Bool

pub record Server : Type 0 where
  pub objects : List (ℕ × Session)
  pub sessions : List (ℕ × ℕ)
  pub tokens : List (ℤ × ℕ)
  pub mirrors : List (ℤ × ℕ)
  pub connected_ips : List Text
  pub next_token : ℕ
  pub session_timeout : ℕ
  pub version : String

abbrev pub zero_id : ℤ
zero_id = pos 0

-- `lock()`.
abbrev pub lock : ℕ → Server → Option Session
lock s w = lookup s w.objects

-- `getUserId()` of an object, 0 where it is gone.
abbrev pub user_of : ℕ → Server → ℤ
user_of s w = elim (lock s w) [ none ↦ zero_id | some o ↦ o.user_id ]

-- A change of one object.
unfoldable pub modify : ℕ → (Session → Session) → Server → Server
modify s f w = elim (lock s w) [
  | none ↦ w
  | some o ↦ record w { objects = insert s (f o) w.objects }
]

-- The loop of `registerSession` and `registerMirrorSession`: the first entry of the object goes.
unfoldable pub drop_entry {ℓ} : {K : Type ℓ} → ℕ → List (K × ℕ) → List (K × ℕ)
drop_entry s [] = []
drop_entry s ((k, i) ∷ m) = if i == s then m else (k, i) ∷ drop_entry s m

unfoldable pub add_token : ℤ → ℕ → List (ℤ × ℕ) → List (ℤ × ℕ)
add_token user token m = if user == zero_id then m else insert user token m

unfoldable pub register_session : ℕ → Server → Server × ℕ
unfolding add_token
register_session s w = (
  record w {
    sessions = insert w.next_token s (drop_entry s w.sessions);
    tokens = add_token (user_of s w) w.next_token w.tokens;
    next_token = suc w.next_token;
  },
  w.next_token,
)

unfoldable pub register_mirror_session : ℕ → ℤ → Server → Server
register_mirror_session s port w = record w { mirrors = insert port s (drop_entry s w.mirrors) }

unfoldable pub remove_session : ℕ → ℤ → Server → Server
remove_session token user w = record w {
  sessions = erase token w.sessions;
  tokens = erase user w.tokens;
}

unfoldable pub remove_mirror_session : ℤ → Server → Server
remove_mirror_session port w = record w { mirrors = erase port w.mirrors }

-- `getMirrorSession`: an entry whose object is gone is erased.
unfoldable pub get_mirror_session : ℤ → Server → Server × Option ℕ
get_mirror_session port w = elim (lookup port w.mirrors) [
  | none ↦ (w, none)
  | some s ↦ elim (lock s w) [
    | none ↦ (record w { mirrors = erase port w.mirrors }, none)
    | some o ↦ (w, some s)
  ]
]

-- `getSession`.
unfoldable pub get_session : ℕ → Server → Server × Option ℕ
get_session token w = elim (lookup token w.sessions) [
  | none ↦ (w, none)
  | some s ↦ elim (lock s w) [
    | none ↦ (record w { sessions = erase token w.sessions }, none)
    | some o ↦ (w, some s)
  ]
]

unfoldable pub get_ccu : Server → ℕ
get_ccu w = length w.sessions

unfoldable pub get_room_capacity : Server → ℕ
get_room_capacity w = length w.mirrors

unfoldable pub check_already_login : ℤ → Server → Bool
check_already_login user w = has_key user w.tokens

unfoldable pub allow_connection : Text → Server → Server × Bool
allow_connection ip w =
    if any_row (λ i. i == ip) w.connected_ips
    then (w, false)
    else (record w { connected_ips = ip ∷ w.connected_ips }, true)

unfoldable pub remove_connection : Text → Server → Server
remove_connection ip w = record w { connected_ips = delete_rows (λ i. i == ip) w.connected_ips }

-- The first loop of `setSessionStatus`.
unfoldable pub tokens_of : List ℤ → List (ℤ × ℕ) → List ℕ
tokens_of [] m = []
tokens_of (u ∷ us) m = elim (lookup u m) [ none ↦ tokens_of us m | some t ↦ t ∷ tokens_of us m ]

-- The second loop. An entry whose object is gone is a null pointer that the source dereferences:
-- the model stops there with no result.
unfoldable pub set_status_at : Status → List ℕ → Server → Option Server
set_status_at st [] w = some w
set_status_at st (t ∷ ts) w = elim (lookup t w.sessions) [
  | none ↦ set_status_at st ts w
  | some s ↦ elim (lock s w) [
    | none ↦ none
    | some o ↦ set_status_at st ts (modify s (λ o. record o { status = st }) w)
  ]
]

unfoldable pub set_session_status : List ℤ → Bool → Server → Option Server
unfolding tokens_of set_status_at
set_session_status users flag w =
    set_status_at (if flag then playing else waiting_lobby) (tokens_of users w.tokens) w

-- `isActive`, at a time.
abbrev pub is_active : ℕ → ℕ → Session → Bool
is_active now timeout o = ltb (now - o.last_activity) timeout

-- The first loop of `check_inactive_sessions`: the tokens whose object is gone or inactive.
unfoldable pub inactive_tokens : ℕ → Server → List (ℕ × ℕ) → List ℕ
inactive_tokens now w [] = []
inactive_tokens now w ((t, s) ∷ m) =
    let rest = inactive_tokens now w m in
    elim (lock s w) [
      | none ↦ t ∷ rest
      | some o ↦ if is_active now w.session_timeout o then rest else t ∷ rest
    ]

-- `getWaitingSessions`: the objects that are logged in and in the lobby.
unfoldable pub waiting_sessions : Server → List (ℕ × ℕ) → List ℕ
waiting_sessions w [] = []
waiting_sessions w ((t, s) ∷ m) =
    let rest = waiting_sessions w m in
    elim (lock s w) [
      | none ↦ rest
      | some o ↦
          if o.user_id == zero_id
          then rest
          else elim o.status [ waiting_lobby ↦ s ∷ rest | _ ↦ rest ]
    ]

unfoldable pub get_waiting_sessions : Server → List ℕ
unfolding waiting_sessions
get_waiting_sessions w = waiting_sessions w w.sessions

abbrev pub leave_token : Option ℕ → ℤ → Server → Server
leave_token none user w = w
leave_token (some t) user w = remove_session t user w

-- The destructor of Session, for an object that is in `objects`: it leaves the registries.
unfoldable pub destroy : ℕ → Session → Server → Server
unfolding remove_mirror_session remove_session remove_connection
destroy s o w =
    let w1 : Server = record w { objects = erase s w.objects } in
    let w2 : Server = if o.is_mirror then remove_mirror_session o.mirror_port w1 else w1 in
    let w3 : Server = leave_token o.token o.user_id w2 in
    if is_empty o.remote_ip then w3 else remove_connection o.remote_ip w3
