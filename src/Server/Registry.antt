-- ===== src/Server/Registry.antt =====
-- `sessions_` and `tokens_` of MatchingServer/src/core/server.cpp.

use socket_communication.Common.{
  ℤ, if◌then◌else◌, ◌==◌, nat_eq, int_eq, bytes_eq, string_eq, count_rows, All, lookup, insert,
  erase, lookup-insert, lookup-erase, ℕ, suc, ◌+◌, ◌≤◌, ◌<◌, ◌≡◌, refl, false, some, List, [], ◌∷◌,
  arith,
}
use socket_communication.Db.{room_status_eq, game_status_eq}
use socket_communication.Server.{
  Server, drop_entry, register_session, remove_session, check_already_login,
}

abbrev pub entries_of : ℕ → List (ℕ × ℕ) → ℕ
entries_of s = count_rows (λ e. e.1 == s)

abbrev pub TokensBelow : ℕ → List (ℕ × ℕ) → Type 0
TokensBelow n = All (λ e. e.0 < n)

pub record IsRegistry (w : Server) : Type 0 where
  pub fresh : TokensBelow w.next_token w.sessions
  pub single : (s : ℕ) → entries_of s w.sessions ≤ 1

entries_of-drop : (s i : ℕ) (m : List (ℕ × ℕ)) → entries_of i (drop_entry s m) ≤ entries_of i m
unfolding drop_entry count_rows
entries_of-drop s i [] = omega arith
entries_of-drop s i ((t, j) ∷ m) = ground (arith, entries_of-drop s i m)

entries_of-drop_self :
    (s : ℕ) (m : List (ℕ × ℕ)) → entries_of s m ≤ 1 → entries_of s (drop_entry s m) ≡ 0
unfolding drop_entry count_rows
entries_of-drop_self s [] h = refl
entries_of-drop_self s ((t, j) ∷ m) h = ground (arith, entries_of-drop_self s m)

TokensBelow-drop : (n s : ℕ) (m : List (ℕ × ℕ)) → TokensBelow n m → TokensBelow n (drop_entry s m)
unfolding drop_entry
TokensBelow-drop n s [] h = tt
TokensBelow-drop n s ((t, j) ∷ m) h = ground (arith, TokensBelow-drop n s m h.1)

-- A fresh token is added at the end.
entries_of-insert :
    (n s i : ℕ) (m : List (ℕ × ℕ))
    → TokensBelow n m
    → entries_of i (insert n s m) ≡ entries_of i m + (if s == i then 1 else 0)
unfolding insert count_rows
entries_of-insert n s i [] h = ground arith
entries_of-insert n s i ((t, j) ∷ m) h = ground (arith, entries_of-insert n s i m h.1)

TokensBelow-insert :
    (n s : ℕ) (m : List (ℕ × ℕ)) → TokensBelow n m → TokensBelow (suc n) (insert n s m)
unfolding insert
TokensBelow-insert n s [] h = (omega arith, tt)
TokensBelow-insert n s ((t, j) ∷ m) h = ground (arith, TokensBelow-insert n s m h.1)

entries_of-erase : (t i : ℕ) (m : List (ℕ × ℕ)) → entries_of i (erase t m) ≤ entries_of i m
unfolding erase count_rows
entries_of-erase t i [] = omega arith
entries_of-erase t i ((u, j) ∷ m) = ground (arith, entries_of-erase t i m)

TokensBelow-erase : (n t : ℕ) (m : List (ℕ × ℕ)) → TokensBelow n m → TokensBelow n (erase t m)
unfolding erase
TokensBelow-erase n t [] h = tt
TokensBelow-erase n t ((u, j) ∷ m) h = ground (arith, TokensBelow-erase n t m h.1)

-- `register_session` gives the object a token that was never given before, takes its former one
-- away, and leaves every object with one token at most.
pub register_session-IsRegistry :
    (s : ℕ) (w : Server)
    → IsRegistry w
    → IsRegistry (register_session s w).0
      × (entries_of s (register_session s w).0.sessions ≡ 1)
      × (lookup (register_session s w).1 (register_session s w).0.sessions ≡ some s)
unfolding register_session
register_session-IsRegistry s w r = (
  record {
    fresh = TokensBelow-insert w.next_token s (drop_entry s w.sessions) below;
    single = λ i. ground (
      arith,
      entries_of-insert w.next_token s i (drop_entry s w.sessions) below,
      entries_of-drop s i w.sessions,
      entries_of-drop_self s w.sessions (r.single s),
      r.single i,
    );
  },
  ground (
    arith,
    entries_of-insert w.next_token s s (drop_entry s w.sessions) below,
    entries_of-drop_self s w.sessions (r.single s),
  ),
  ground (arith, lookup-insert w.next_token w.next_token s (drop_entry s w.sessions)),
)
  where
    below : TokensBelow w.next_token (drop_entry s w.sessions)
    below = TokensBelow-drop w.next_token s w.sessions r.fresh

-- `remove_session` keeps the registry, and ends the login of the user that it names, of no other.
pub remove_session-IsRegistry :
    (token : ℕ) (user other : ℤ) (w : Server)
    → IsRegistry w
    → IsRegistry (remove_session token user w)
      × (check_already_login other (remove_session token user w)
          ≡ (if user == other then false else check_already_login other w))
unfolding remove_session check_already_login
remove_session-IsRegistry token user other w r = (
  record {
    fresh = TokensBelow-erase w.next_token token w.sessions r.fresh;
    single = λ i. omega (arith, entries_of-erase token i w.sessions, r.single i);
  },
  ground (arith, lookup-erase user other w.tokens),
)
