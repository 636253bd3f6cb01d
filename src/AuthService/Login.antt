-- ===== src/AuthService/Login.antt =====
-- `loginUser` and `registerCheckAndLogin` of MatchingServer/src/service/auth_service.cpp.

use mathlib.Core.Logic.{if_pos, if_neg}
use socket_communication.Common.{
  minus_one, if◌then◌else◌, bytes_eq, Bool-cases, Ran, Action, ◌>>=◌, pure, Ends, ran, threw, ◌≡◌,
  refl, sym, ap, ◌∙◌, ◌⊎◌, inl, inr, Bool, true, false, not, ◌||◌, Option, none, some, arith,
}
use socket_communication.Db.{User, Tables, Text, Transaction, Db}
use socket_communication.Db.Atomicity.{Closes, Atomic, run_work-Atomic, query-Closes}
use socket_communication.Protocol.{
  Field, Request, Response, contains, get, is_success, absent, mistyped, given, fields_missing,
  unknown_user, refused, logged_in,
}
use socket_communication.UserRepository.{user_named, close_found, find_by_username}
use socket_communication.AuthService.{
  External, hash_password, verify_password, profile, credentials_missing, login_found, login_user,
  check_in, register_and_check_in, register_check_and_login,
}
use socket_communication.RoomRepository.Creation.{IsNone}

-- A look-up changes nothing and finds no user, or the user of that name.
abbrev pub Finds : Text → Tables → Option User → Tables → Type 0
Finds name t o t' = (t' ≡ t) × (o ≡ user_named name t)

find_body :
    (name : Text) (t : Tables) (o : Option User) (w : Transaction)
    → o ≡ user_named name t
    → w.tables ≡ t
    → Closes IsNone (Finds name t) (pure (close_found o) w)
find_body name t none w e same = refl
find_body name t (some u) w e same = (same, e)

-- Whatever statements fail, `find_by_username` changes no committed table, and answers no user or
-- the first one whose name equals the given one in lower case.
pub find_by_username-Finds :
    (name : Text) (db : Db)
    → Atomic IsNone (Finds name db.committed) db.committed (find_by_username name db)
unfolding find_by_username
find_by_username-Finds name db = run_work-Atomic _ _ none _ db refl λ w e.
    query-Closes _ _ db.committed (user_named name) _ w e
      λ w' e'. find_body name db.committed (user_named name db.committed) w' refl e'

-- A login that succeeded: the request names a user, and the hash of its password is the stored one.
pub record Authentic (x : External) (q : Request) (t : Tables) (a : Response) : Type 0 where
  pub name : Text
  pub password : Text
  pub user : User
  pub named : q.user_name ≡ given name
  pub passed : q.password ≡ given password
  pub found : user_named name t ≡ some user
  pub verified : hash_password x password ≡ user.password_hash
  pub answer : a ≡ logged_in (some (profile user))

abbrev pub LogsIn : External → Request → Tables → Response → Db → Type 0
LogsIn x q t a db = ((db.committed ≡ t) × (is_success a ≡ false)) ⊎ Authentic x q t a

abbrev pub Anything : Db → Type 0
Anything db = Unit {0}

module _ (x : External) (q : Request) (db : Db) where
  abbrev Ok : Ran Db Response → Type 0
  Ok = Ends (LogsIn x q db.committed) Anything

  touched :
      (a : Response)
      → Authentic x q db.committed a
      → (r : Ran Db Bool) → Ok (elim r [ ran b db' ↦ ran a db' | threw db' ↦ threw db' ])
  touched a h (ran b db') = inr h
  touched a h (threw db') = tt

  login_found-Ok :
      (name : Text) (password_field : Field Text) (u : User) (db' : Db)
      → q.user_name ≡ given name
      → q.password ≡ password_field
      → user_named name db.committed ≡ some u
      → db'.committed ≡ db.committed
      → Ok (login_found x password_field u db')
  unfolding login_found verify_password
  login_found-Ok name absent u db' n p f same = tt
  login_found-Ok name mistyped u db' n p f same = tt
  login_found-Ok name (given password) u db' n p f same =
      elim (bytes_eq.dec (hash_password x password) u.password_hash) [
        | no differ ↦ rw (if_neg _ differ) (inl (same, refl))
        | yes equal ↦ rw (if_pos _ equal) (
            touched (logged_in (some (profile u)))
              (record {
                name = name;
                password = password;
                user = u;
                named = n;
                passed = p;
                found = f;
                verified = equal;
                answer = refl;
              })
              _)
      ]

  after_find :
      (name : Text)
      → q.user_name ≡ given name
      → (r : Ran Db (Option User)) → Atomic IsNone (Finds name db.committed) db.committed r
      → Ok (
          ((λ _. r) >>= (elim [
            | none ↦ pure (refused unknown_user)
            | some u ↦ login_found x q.password u
          ]))
            db)
  after_find name n (threw db') a = tt
  after_find name n (ran none db') (inl (same, _)) = inl (same, refl)
  after_find name n (ran (some u) db') (inl (same, e)) = absurd (ground arith)
  after_find name n (ran none db') (inr (same, e)) = inl (same, refl)
  after_find name n (ran (some u) db') (inr (same, e)) =
      login_found-Ok name q.password u db' n refl (sym e) same

  named_login :
      (name_field : Field Text)
      → q.user_name ≡ name_field
      → Ok (
          (get name_field >>= λ name.
          find_by_username name
          >>= (elim [ none ↦ pure (refused unknown_user) | some u ↦ login_found x q.password u ]))
            db)
  named_login absent n = tt
  named_login mistyped n = tt
  named_login (given name) n = after_find name n _ (find_by_username-Finds name db)

-- Whatever statements fail, a login that answers either answers an error over unchanged tables, or
-- the request gave a name and a password, the database has a user of that name, the hash of the
-- password is the stored one, and the answer is that user's profile.
pub login_user-LogsIn :
    (x : External) (q : Request) (db : Db)
    → Ends (LogsIn x q db.committed) Anything (login_user x q db)
unfolding login_user
login_user-LogsIn x q db = elim (Bool-cases (credentials_missing q)) [
  | inl missing ↦ rw missing (inl (refl, refl))
  | inr there ↦ rw there (named_login x q db q.user_name refl)
]

-- Where the name is found, `register_check_and_login` does the same for every password: two
-- requests that give the same name and any passwords end alike, in the answer and in the database.
pub ssafy_login_ignores_password :
    (x : External) (q q' : Request) (name : Text) (u : User) (db db' : Db)
    → q.user_name ≡ given name
    → q'.user_name ≡ given name
    → contains q.password ≡ true
    → contains q'.password ≡ true
    → find_by_username name db ≡ ran (some u) db'
    → register_check_and_login x q db ≡ register_check_and_login x q' db
unfolding register_check_and_login
ssafy_login_ignores_password x q q' name u db db' n n' p p' f =
    checks_in q.user_name q.password n p ∙ sym (checks_in q'.user_name q'.password n' p')
  where
    asked : Field Text → Field Text → Action Db Response
    asked name_field password_field =
        if not (contains name_field) || not (contains password_field)
        then pure (refused fields_missing)
        else (get name_field >>= λ a. find_by_username a >>= (elim [
          | none ↦ register_and_check_in x password_field a
          | some v ↦ check_in a minus_one
        ]))

    checks_in :
        (name_field password_field : Field Text)
        → name_field ≡ given name
        → contains password_field ≡ true
        → asked name_field password_field db ≡ check_in name minus_one db'
    checks_in name_field password_field e there =
        rw (e, there)
          (ap
            (λ (r : Ran Db (Option User)).
              ((λ _. r) >>= λ found. elim found [
                | none ↦ register_and_check_in x password_field name
                | some v ↦ check_in name minus_one
              ])
                db)
            f)
