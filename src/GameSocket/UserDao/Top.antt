-- ===== src/GameSocket/UserDao/Top.antt =====
-- `get_top_players` of GameSocketServer/src/db/user_dao.cpp: the order and the limit.

use mathlib.Core.List.Perm
use socket_communication.GameSocket.Effects.{rescue, done}
use socket_communication.GameSocket.Store.{Account, Store, statement, finish}
use socket_communication.GameSocket.Store.Rules.{with_work-runs}
use socket_communication.GameSocket.UserDao.{
  UserInfo, user_info, insert_rated, by_rating, top_accounts, get_top_players,
}
use socket_communication.Common.{
  lt_int, lt_int_asym, lt_int_trans, pos, Bool-cases, length, All, All-imp, ran, drop, take, ℕ,
  zero, suc, ◌<◌, ◌≡◌, refl, sym, ap, subst, ◌⊎◌, inl, inr, false, List, [], ◌∷◌, ◌++◌, map, Perm,
  arith,
}
use socket_communication.DbPool.{DbPool, get_connection}

-- No rating is above one before it.
abbrev pub IsRanked : List Account → Type 0
IsRanked [] = Unit {0}
IsRanked (a ∷ as') = All (λ b. lt_int a.rating b.rating ≡ false) as' × IsRanked as'

insert_rated-All :
    (P : Account → Type 0) (a : Account) (bs : List Account)
    → P a
    → All P bs
    → All P (insert_rated a bs)
unfolding insert_rated
insert_rated-All P a [] p h = (p, tt)
insert_rated-All P a (b ∷ bs) p h = elim (Bool-cases (lt_int a.rating b.rating)) [
  | inl below ↦ rw below (h.0, insert_rated-All P a bs p h.1)
  | inr not_below ↦ rw not_below (p, h)
]

insert_rated-IsRanked :
    (a : Account) (bs : List Account) → IsRanked bs → IsRanked (insert_rated a bs)
unfolding insert_rated
insert_rated-IsRanked a [] s = (tt, tt)
insert_rated-IsRanked a (b ∷ bs) (h, s) = elim (Bool-cases (lt_int a.rating b.rating)) [
  | inl below ↦ rw below (
    insert_rated-All (λ c. lt_int b.rating c.rating ≡ false) a bs
        (lt_int_asym a.rating b.rating below) h,
    insert_rated-IsRanked a bs s,
  )
  | inr not_below ↦ rw not_below (
    (
      not_below,
      All-imp (λ c. lt_int b.rating c.rating ≡ false) (λ c. lt_int a.rating c.rating ≡ false) bs
          (λ c k. lt_int_trans c.rating b.rating a.rating k not_below) h,
    ),
    (h, s),
  )
]

by_rating-IsRanked : (as' : List Account) → IsRanked (by_rating as')
unfolding by_rating
by_rating-IsRanked [] = tt
by_rating-IsRanked (a ∷ as') = insert_rated-IsRanked a (by_rating as') (by_rating-IsRanked as')

insert_rated-Perm : (a : Account) (bs : List Account) → Perm (insert_rated a bs) (a ∷ bs)
unfolding insert_rated
insert_rated-Perm a [] = Perm.refl _
insert_rated-Perm a (b ∷ bs) = elim (Bool-cases (lt_int a.rating b.rating)) [
  | inl below ↦ rw below (Perm.trans (Perm.cons b (insert_rated-Perm a bs)) (Perm.swap a b bs))
  | inr not_below ↦ rw not_below (Perm.refl _)
]

by_rating-Perm : (as' : List Account) → Perm (by_rating as') as'
unfolding by_rating
by_rating-Perm [] = Perm.refl _
by_rating-Perm (a ∷ as') =
    Perm.trans (insert_rated-Perm a (by_rating as')) (Perm.cons a (by_rating-Perm as'))

cut : (n : ℕ) (as' : List Account) → take n as' ++ drop n as' ≡ as'
unfolding take drop
cut zero as' = refl
cut (suc n) [] = refl
cut (suc n) (a ∷ as') = ap (◌∷◌ a) (cut n as')

-- As many as the limit says, or all where there are fewer.
abbrev Fills : ℕ → List Account → List Account → Type 0
Fills n shown rest = (length shown ≡ n) ⊎ ((length shown < n) × (rest ≡ []))

take-Fills : (n : ℕ) (as' : List Account) → Fills n (take n as') (drop n as')
unfolding take drop
take-Fills zero as' = inl refl
take-Fills (suc n) [] = inr (omega arith, refl)
take-Fills (suc n) (a ∷ as') = elim (take-Fills n as') [
  | inl e ↦ inl (ap suc e)
  | inr (l, e) ↦ inr (omega (arith, l), e)
]

-- The first accounts of a ranking of all the accounts, as many as the limit says.
pub record IsTop (n : ℕ) (accounts : List Account) (users : List UserInfo) : Type 0 where
  pub shown : List Account
  pub rest : List Account
  pub told : users ≡ map user_info shown
  pub all_there : Perm (shown ++ rest) accounts
  pub ranked : IsRanked (shown ++ rest)
  pub fills : Fills n shown rest

IsTop-of_take :
    (n : ℕ) (accounts : List Account)
    → IsTop n accounts (map user_info (take n (by_rating accounts)))
IsTop-of_take n accounts = record {
  shown = take n (by_rating accounts);
  rest = drop n (by_rating accounts);
  told = refl;
  all_there =
      subst (λ l. Perm l accounts) (sym (cut n (by_rating accounts))) (by_rating-Perm accounts);
  ranked = subst IsRanked (sym (cut n (by_rating accounts))) (by_rating-IsRanked accounts);
  fills = take-Fills n (by_rating accounts);
}

-- Where a connection is got and no statement fails, `get_top_players` answers the accounts of the
-- highest ratings, in falling order, as many as the limit says or all where there are fewer, and
-- changes no account.
pub get_top_players-IsTop :
    (n c : ℕ) (p : DbPool) (s : Store)
    → get_connection s.link s.pool ≡ ran c p
    → s.faults ≡ []
    → (users : List UserInfo) × (get_top_players (pos n) s
        ≡ done users (record s { pool = p; faults = [] }))
      × IsTop n s.accounts users
unfolding get_top_players statement finish top_accounts
get_top_players-IsTop n c p s lent calm = (
  map user_info (take n (by_rating s.accounts)),
  ap (rescue [] []) (with_work-runs _ s c p lent calm),
  IsTop-of_take n s.accounts,
)
