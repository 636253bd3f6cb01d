-- ===== src/GameSocket/AuthApi/Register.antt =====
-- `handle_register` of GameSocketServer/src/api/auth_api.cpp on the table Users of init.sql.

use Prim.Native.Nat.{◌*◌, ◌/◌, ◌%◌}
use socket_communication.GameSocket.Effects.{Tried, ◌>>=◌, give, Leads, Leads-bind, Leads-rescue}
use socket_communication.GameSocket.Store.{
  Account, Store, Work, Ending, statement, select, with_work, column_width, insert_account,
  committed, aborted,
}
use socket_communication.GameSocket.Store.Rules.{statement-Leads, Leaves, with_work-Leads}
use socket_communication.GameSocket.AuthApi.{
  AuthRequest, Answer, Library, hash_password, text_field, register_body, is_bad_username,
  is_short_password, register_checked, handle_register, bad_username, short_password,
  username_taken, refused, registered, logged_in,
}
use socket_communication.Common.{
  if◌then◌else◌, ltb, leb, ◌==◌, nat_eq, int_eq, bytes_eq, string_eq, length, count_rows, any_row,
  All, hex_digit, to_hex, ℕ, ◌<◌, ◌≡◌, refl, Bool, true, false, ◌||◌, List, [], ◌∷◌, arith,
}
use socket_communication.Db.{Text, fits, room_status_eq, game_status_eq}
use socket_communication.Protocol.{Field, absent, mistyped, given}

-- What SHA-256 is relied on for: 32 bytes.
pub record IsDigest (bytes : List ℕ) : Type 0 where
  pub size : length bytes ≡ 32
  pub octets : All (λ b. b < 256) bytes

hex_digit-le : (d : ℕ) → d < 16 → hex_digit d < 128
hex_digit-le d h = ground arith

abbrev starts_char : ℕ → Bool
starts_char c = ltb c 0x80 || leb 0xC0 c

hex_digit-starts_char : (d : ℕ) → d < 16 → starts_char (hex_digit d) ≡ true
hex_digit-starts_char d h = ground (arith, hex_digit-le d h)

count-to_hex :
    (bs : List ℕ) → All (λ b. b < 256) bs → count_rows starts_char (to_hex bs) ≡ 2 * length bs
unfolding count_rows to_hex
count-to_hex [] a = refl
count-to_hex (b ∷ bs) (h, a) =
    let one = hex_digit-starts_char (b / 16) (omega arith) in
    let two = hex_digit-starts_char (b % 16) (omega arith) in
    rw (one, two, count-to_hex bs a) (omega arith)

-- The text of a digest is wider than the column.
pub digest_too_wide : (bs : List ℕ) → IsDigest bs → fits column_width (to_hex bs) ≡ false
unfolding fits
digest_too_wide bs d = rw (count-to_hex bs d.octets, d.size) refl

abbrev pub IsRefused : Answer → Type 0
IsRefused (refused r) = Unit {0}
IsRefused (registered id name) = ⊥
IsRefused (logged_in w) = ⊥

-- A refusal, and the rows as they were.
abbrev pub Refused : List Account → Answer → List Account → Type 0
Refused before a after = IsRefused a × (after ≡ before)

abbrev Unchanged : List Account → Tried Store Answer → Type 0
Unchanged before = Leads (λ a s'. Refused before a s'.accounts) (λ _ s'. s'.accounts ≡ before)

insert_account-raises :
    (name hash : Text) (w : Work)
    → fits column_width hash ≡ false
    → Leads (λ _ _. ⊥) (λ _ _. Unit {0}) (insert_account name hash w)
unfolding insert_account
insert_account-raises name hash w wide = ground (arith, wide)

register_body-Refused :
    (name hash : Text) (before : List Account) (w : Work)
    → fits column_width hash ≡ false
    → w.accounts ≡ before
    → Leads (Leaves (Refused before) before) (λ _ _. Unit {0}) (register_body name hash w)
unfolding register_body
register_body-Refused name hash before w wide e =
    Leads-bind (λ _ _. Unit {0}) (λ _ _. Unit {0}) (Leaves (Refused before) before)
      (select (any_row (λ a. a.username == name))) _ w
      (statement-Leads (λ _ _. Unit {0}) (λ _ _. Unit {0}) _ w (λ fs. tt) (λ f fs. tt))
      (λ taken w' u. next taken w')
  where
    next :
        (taken : Bool) (w' : Work)
        → Leads
            (Leaves (Refused before) before)
            (λ _ _. Unit {0})
            ((if taken
                then give {S = Work} {A = Ending Answer} (aborted (refused username_taken))
                else (statement (insert_account name hash) >>= λ id.
                    give {S = Work} {A = Ending Answer} (committed (registered id name))))
              w')
    next true w' = (tt, refl)
    next false w' =
        Leads-bind (λ _ _. ⊥) (λ _ _. Unit {0}) (Leaves (Refused before) before)
          (statement (insert_account name hash)) _ w'
          (statement-Leads (λ _ _. ⊥) (λ _ _. Unit {0}) _ w'
            (λ fs. insert_account-raises name hash _ wide) (λ f fs. tt))
          (λ id w'' z. absurd z)

-- No request registers: where SHA-256 gives 32 bytes, whose hexadecimal text is longer than the
-- column for it, every call of `handle_register` answers an error or raises, and leaves the rows as
-- they were.
pub handle_register-Refused :
    (x : Library) (q : AuthRequest) (s : Store)
    → ((t : Text) → IsDigest (x.sha256 t))
    → Leads
        (λ a s'. Refused s.accounts a s'.accounts)
        (λ _ s'. s'.accounts ≡ s.accounts)
        (handle_register x q s)
unfolding handle_register register_checked hash_password
handle_register-Refused x q s d =
    Leads-rescue _ _ _ _ (register_checked x q s) (λ s' e. (tt, e)) (λ s' e. (tt, e))
      (fields q.username q.password)
  where
    tested :
        (name password : Text) (b b' : Bool)
        → Unchanged s.accounts (
            (if b
                then give (refused bad_username)
                else if b'
                then give (refused short_password)
                else with_work (register_body name (to_hex (x.sha256 password))))
              s)
    tested name password true b' = (tt, refl)
    tested name password false true = (tt, refl)
    tested name password false false =
        with_work-Leads (Refused s.accounts) (register_body name (to_hex (x.sha256 password))) s
          (λ w e now. register_body-Refused name _ s.accounts w (digest_too_wide _ (d password)) e)

    fields :
        (u p : Field Text)
        → Unchanged s.accounts (
            (text_field u >>= λ name. text_field p >>= λ password.
            if is_bad_username name
            then give (refused bad_username)
            else if is_short_password password
            then give (refused short_password)
            else with_work (register_body name (to_hex (x.sha256 password))))
              s)
    fields absent p = refl
    fields mistyped p = refl
    fields (given name) absent = refl
    fields (given name) mistyped = refl
    fields (given name) (given password) =
        tested name password (is_bad_username name) (is_short_password password)
