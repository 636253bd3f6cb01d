-- ===== src/GameSocket/UserDao/Stats.antt =====
-- The counts of GameSocketServer/src/db/user_dao.cpp through any sequence of calls of its methods.

use Prim.Native.Nat.{◌≤◌}
use socket_communication.GameSocket.Effects.{
  Tried, Task, ◌>>=◌, give, rescue, reached, Leads, Leads-bind, Leads-imp, Leads-rescue, sql_error,
  done, raised,
}
use socket_communication.GameSocket.Store.{
  Account, Store, Work, statement, with_work, column_width, insert_account, touch_account,
  committed,
}
use socket_communication.GameSocket.Store.Rules.{statement-Leads, Leaves, with_work-Leads}
use socket_communication.GameSocket.UserDao.{
  create, rate_account, update_rating, count_game, max_int, overflows, count_account, update_stats,
  update_last_login,
}
use socket_communication.Common.{
  ℤ, minus_one, pos, if◌then◌else◌, ◌==◌, nat_eq, int_eq, bytes_eq, string_eq, update_rows, any_row,
  All, All-both, All-update_rows, suc, ◌≤◌, ◌<◌, ◌≡◌, refl, sym, subst, Bool, true, false, not,
  ◌||◌, none, List, [], ◌∷◌, ◌++◌, arith,
}
use socket_communication.Db.{Text, fits, room_status_eq, game_status_eq}

-- A call of a method that changes rows.
pub data Call : Type 0 where
  creates : Text → Text → Call
  rates : ℤ → ℤ → Call
  counts : ℤ → Bool → Call
  touches : ℤ → Call

-- The state after a call, and after a sequence of them.
unfoldable pub after_call : Call → Store → Store
unfolding create update_rating update_stats update_last_login
after_call (creates name hash) s = reached (create name hash s)
after_call (rates id new_rating) s = reached (update_rating id new_rating s)
after_call (counts id is_win) s = reached (update_stats id is_win s)
after_call (touches id) s = reached (update_last_login id s)

unfoldable pub after_calls : List Call → Store → Store
unfolding after_call
after_calls [] s = s
after_calls (c ∷ cs) s = after_calls cs (after_call c s)

-- No more wins than games, and no more games than an INT column holds.
abbrev pub InRange : Account → Type 0
InRange a = (a.total_wins ≤ a.total_games) × (a.total_games ≤ max_int)

none_of :
    (p : Account → Bool) (as' : List Account) → any_row p as' ≡ false → All (λ a. p a ≡ false) as'
unfolding any_row
none_of p [] h = tt
none_of p (a ∷ as') h = (ground (arith, h), none_of p as' (ground (arith, h)))

count_game-InRange :
    (is_win : Bool) (a : Account)
    → InRange a
    → a.total_games < max_int
    → InRange (count_game is_win a)
count_game-InRange true a (w, g) l = (omega arith, omega arith)
count_game-InRange false a (w, g) l = (omega arith, omega arith)

below_max :
    (id : ℤ) (is_win : Bool) (a : Account)
    → overflows id is_win a ≡ false
    → (a.user_id == id) ≡ true
    → a.total_games < max_int
below_max id is_win a h k = ground (arith, h, k)

-- A transaction that commits rows in range, if it found rows in range.
module _ {ℓ} {A : Type ℓ} (sql other : A) (f : Task Work A)
    (effect : (w : Work)
      → All InRange w.accounts
      → Leads (λ _ w'. All InRange w'.accounts) (λ _ _. Unit {0}) (f w)) where
  method-InRange :
      (s : Store)
      → All InRange s.accounts
      → All InRange
          (reached
            (rescue sql other (with_work (statement f >>= λ a. give (committed a)) s))).accounts
  method-InRange s h = ends _ (
      Leads-rescue {S = Store} (λ _ s'. All InRange s'.accounts) (λ _ s'. All InRange s'.accounts)
        sql other _ (λ s' k. k) (λ s' k. k)
        (Leads-imp {S = Store} (λ _ s'. All InRange s'.accounts) (λ _ s'. s'.accounts ≡ s.accounts)
          _ _ _ (λ a s' k. k) (λ e s' k. subst (All InRange) (sym k) h)
          (with_work-Leads (λ _ as'. All InRange as') (statement f >>= λ a. give (committed a)) s
            body)))
    where
      ends :
          (r : Tried Store A)
          → Leads (λ _ s'. All InRange s'.accounts) (λ _ s'. All InRange s'.accounts) r
          → All InRange (reached r).accounts
      ends (done a s') k = k
      ends (raised e s') k = k

      body :
          (w : Work)
          → w.accounts ≡ s.accounts
          → w.now ≡ s.link.now
          → Leads
              (Leaves (λ _ as'. All InRange as') s.accounts)
              (λ _ _. Unit {0})
              ((statement f >>= λ a. give (committed a)) w)
      body w e now =
          Leads-bind (λ _ w'. All InRange w'.accounts) (λ _ _. Unit {0})
            (Leaves (λ _ as'. All InRange as') s.accounts) (statement f) (λ a. give (committed a)) w
            (statement-Leads (λ _ w'. All InRange w'.accounts) (λ _ _. Unit {0}) f w
              (λ fs. effect (record w { faults = fs }) (subst (All InRange) (sym e) h))
              (λ x fs. tt))
            (λ a w' k. k)

-- The effects of the statements.
abbrev Safe {ℓ} : {A : Type ℓ} → Task Work A → Type 0
Safe f =
    (w : Work)
    → All InRange w.accounts
    → Leads (λ _ w'. All InRange w'.accounts) (λ _ _. Unit {0}) (f w)

All-snoc :
    (P : Account → Type 0) (as' : List Account) (a : Account)
    → All P as'
    → P a
    → All P (as' ++ a ∷ [])
All-snoc P [] a h p = (p, tt)
All-snoc P (b ∷ as') a h p = (h.0, All-snoc P as' a h.1 p)

insert_account-Safe : (name hash : Text) → Safe (insert_account name hash)
unfolding insert_account
insert_account-Safe name hash w h = go (
    not (fits column_width name)
    || (not (fits column_width hash) || any_row (λ a. a.username == name) w.accounts))
  where
    drawn : Work
    drawn = record w { next_id = suc w.next_id }

    row : Account
    row = record {
      user_id = pos w.next_id;
      username = name;
      password = hash;
      created_at = w.now;
      last_login = none;
      total_games = 0;
      total_wins = 0;
      rating = pos 1000;
    }

    go :
        (b : Bool)
        → Leads {A = ℤ}
            (λ _ w'. All InRange w'.accounts)
            (λ _ _. Unit {0})
            (if b
              then raised sql_error drawn
              else done (pos w.next_id) (record drawn { accounts = w.accounts ++ row ∷ [] }))
    go true = tt
    go false = All-snoc InRange w.accounts row h (omega arith, omega arith)

rate_account-Safe : (id new_rating : ℤ) → Safe (rate_account id new_rating)
unfolding rate_account
rate_account-Safe id new_rating w h =
    All-update_rows InRange InRange _ _ w.accounts (λ a e k. k) (λ a e k. k) h

touch_account-Safe : (id : ℤ) → Safe (touch_account id)
unfolding touch_account
touch_account-Safe id w h =
    All-update_rows InRange InRange _ _ w.accounts (λ a e k. k) (λ a e k. k) h

count_account-Safe : (id : ℤ) (is_win : Bool) → Safe (count_account id is_win)
unfolding count_account
count_account-Safe id is_win w h = go (any_row (overflows id is_win) w.accounts) refl
  where
    go :
        (b : Bool)
        → any_row (overflows id is_win) w.accounts ≡ b
        → Leads
            (λ _ w'. All InRange w'.accounts)
            (λ _ _. Unit {0})
            (if b
              then raised sql_error w
              else done (any_row (λ a. a.user_id == id) w.accounts) (record w {
                accounts = update_rows (λ a. a.user_id == id) (count_game is_win) w.accounts;
              }))
    go true e = tt
    go false e =
        All-update_rows (λ a. InRange a × (overflows id is_win a ≡ false)) InRange _ _ w.accounts
          (λ a k r. count_game-InRange is_win a r.0 (below_max id is_win a r.1 k)) (λ a k r. r.0)
          (All-both InRange _ w.accounts h (none_of (overflows id is_win) w.accounts e))

after_call-InRange :
    (c : Call) (s : Store) → All InRange s.accounts → All InRange (after_call c s).accounts
unfolding after_call create update_rating update_stats update_last_login
after_call-InRange (creates name hash) =
    method-InRange minus_one minus_one (insert_account name hash) (insert_account-Safe name hash)
after_call-InRange (rates id new_rating) =
    method-InRange false false (rate_account id new_rating) (rate_account-Safe id new_rating)
after_call-InRange (counts id is_win) =
    method-InRange false false (count_account id is_win) (count_account-Safe id is_win)
after_call-InRange (touches id) =
    method-InRange false false (touch_account id) (touch_account-Safe id)

-- Through any sequence of calls of the methods that change rows, failing statements and lost
-- connections included, every account keeps no more wins than games and no more games than an INT
-- column holds, if all did at the start.
pub after_calls-InRange :
    (cs : List Call) (s : Store) → All InRange s.accounts → All InRange (after_calls cs s).accounts
unfolding after_calls
after_calls-InRange [] s h = h
after_calls-InRange (c ∷ cs) s h =
    after_calls-InRange cs (after_call c s) (after_call-InRange c s h)
