-- ===== src/Sessions/Expiry.antt =====
-- `check_inactive_sessions` of MatchingServer/src/core/server.cpp: what a check leaves.

use socket_communication.Common.{
  if◌then◌else◌, ◌==◌, nat_eq, int_eq, bytes_eq, string_eq, Bool-cases, ==_iff, any_row, All, Ran,
  ran, threw, lookup, erase, lookup-erase, ℕ, ◌-◌, ◌≤◌, ◌<◌, ◌≡◌, refl, sym, ap, subst, ◌∙◌, ◌⊎◌,
  inl, inr, Bool, true, false, Option, none, some, List, [], ◌∷◌, arith,
}
use socket_communication.Db.{room_status_eq, game_status_eq}
use socket_communication.Server.{Session, Server, lock, inactive_tokens}
use socket_communication.Sessions.{World}
use socket_communication.Sessions.Handshake.{expire_object, expire_each, check_inactive_sessions}
use socket_communication.Sessions.Quiet.{
  SameRegistries, SameRegistries-refl, SameRegistries-trans, Quiet, handle_error-Quiet,
}

-- The sessions but for those of some tokens, and a handler that returns and leaves them.
abbrev pub Erases : List ℕ → World → Ran World (Unit {0}) → Type 0
Erases ts w r =
    (w' : World) × (r ≡ ran tt w')
    × SameRegistries w.server w'.server
    × ((j : ℕ)
        → lookup j w'.server.sessions
          ≡ (if any_row (λ t. t == j) ts then none else lookup j w.server.sessions))

abbrev without : ℕ → World → World
without t w = record w { server = record w.server { sessions = erase t w.server.sessions } }

expired :
    (t s : ℕ) (o : Option Session) (w : World)
    → Quiet (without t w) (expire_object s o (without t w))
expired t s none w = (without t w, refl, SameRegistries-refl _, refl)
expired t s (some o) w = handle_error-Quiet s (without t w)

expire_each-Erases : (ts : List ℕ) (w : World) → Erases ts w (expire_each ts w)
unfolding expire_each any_row
expire_each-Erases [] w = (w, refl, SameRegistries-refl w.server, λ j. refl)
expire_each-Erases (t ∷ ts) w = go (expire_each-Erases ts) (lookup t w.server.sessions) refl
  where
    off : {v : Server} → SameRegistries (without t w).server v → SameRegistries w.server v
    off k = record {
      tokens_kept = k.tokens_kept;
      mirrors_kept = k.mirrors_kept;
      addresses_kept = k.addresses_kept;
      version_kept = k.version_kept;
      draws_kept = k.draws_kept;
    }

    go :
        ((v : World) → Erases ts v (expire_each ts v))
        → (o : Option ℕ) → lookup t w.server.sessions ≡ o
        → Erases (t ∷ ts) w (elim o as (λ _. Ran World (Unit {0})) [
          | none ↦ expire_each ts w
          | some s ↦
              elim (expire_object s (lock s w.server) (without t w))
                as (λ _. Ran World (Unit {0})) [ ran u v ↦ expire_each ts v | threw v ↦ threw v ]
        ])
    go later none e = let (w', r, k, h) = later w in (w', r, k, λ j. ground (arith, h j, e))
    go later (some s) e =
        let (v, r, k, same) = expired t s (lock s w.server) w in
        let (w', r', k', h) = later v in
        (
          w',
          ap
                (λ q. elim q as (λ _. Ran World (Unit {0})) [
                  | ran u v ↦ expire_each ts v
                  | threw v ↦ threw v
                ])
                r
              ∙ r',
          SameRegistries-trans w.server v.server w'.server (off k) k',
          λ j.
              let one : lookup j v.server.sessions
                  ≡ (if t == j then none else lookup j w.server.sessions) =
                ap (lookup j) same ∙ lookup-erase t j w.server.sessions in
              ground (arith, h j, one),
        )

-- An entry whose object is gone, or has been silent for the timeout.
abbrev pub Stale : ℕ → Server → ℕ → Type 0
Stale now v s =
    (lock s v ≡ none)
    ⊎ ((o : Session) × (lock s v ≡ some o) × (v.session_timeout ≤ now - o.last_activity))

-- An entry whose object is there and has been heard of within the timeout.
abbrev pub Fresh : ℕ → Server → ℕ → Type 0
Fresh now v s = (o : Session) × (lock s v ≡ some o) × (now - o.last_activity < v.session_timeout)

-- Each entry of a token is fresh; a registry has one at most.
abbrev pub FreshAt : ℕ → Server → ℕ → List (ℕ × ℕ) → Type 0
FreshAt now v j = All (λ e. e.0 ≡ j → Fresh now v e.1)

-- The registries after a check: stale sessions are out, fresh ones stay, and nothing is added.
pub record Swept (now : ℕ) (v v' : Server) : Type 0 where
  pub others : SameRegistries v v'
  pub gone : (j s : ℕ) → lookup j v.sessions ≡ some s → Stale now v s → lookup j v'.sessions ≡ none
  pub kept : (j : ℕ) → FreshAt now v j v.sessions → lookup j v'.sessions ≡ lookup j v.sessions

abbrev pub Expires : ℕ → World → Ran World (Unit {0}) → Type 0
Expires now w r = (w' : World) × (r ≡ ran tt w') × Swept now w.server w'.server

module _ (now : ℕ) (v : Server) where
  abbrev listed : ℕ → List (ℕ × ℕ) → Bool
  listed j m = any_row (λ t. t == j) (inactive_tokens now v m)

  Stale-first :
      (j k s : ℕ) (m : List (ℕ × ℕ))
      → (k == j) ≡ true
      → Stale now v s
      → listed j ((k, s) ∷ m) ≡ true
  unfolding inactive_tokens any_row
  Stale-first j k s m e (inl dead) = ground (arith, e, dead)
  Stale-first j k s m e (inr (o, there, silent)) = ground (arith, e, there, silent)

  Fresh-first : (j k s : ℕ) (m : List (ℕ × ℕ)) → Fresh now v s → listed j ((k, s) ∷ m) ≡ listed j m
  unfolding inactive_tokens any_row
  Fresh-first j k s m (o, there, heard) = ground (arith, there, heard)

  other_first :
      (j k s : ℕ) (m : List (ℕ × ℕ)) → (k == j) ≡ false → listed j ((k, s) ∷ m) ≡ listed j m
  unfolding inactive_tokens any_row
  other_first j k s m e = ground (arith, e)

  Stale-listed :
      (j s : ℕ) (m : List (ℕ × ℕ)) → lookup j m ≡ some s → Stale now v s → listed j m ≡ true
  unfolding lookup
  Stale-listed j s [] e h = cc
  Stale-listed j s ((k, i) ∷ m) e h = elim (Bool-cases (k == j)) [
    | inl same ↦
        let i-s : i ≡ s = ground (arith, e, same) in
        Stale-first j k i m same (subst (Stale now v) (sym i-s) h)
    | inr other ↦ other_first j k i m other ∙ Stale-listed j s m (ground (arith, e, other)) h
  ]

  FreshAt-unlisted : (j : ℕ) (m : List (ℕ × ℕ)) → FreshAt now v j m → listed j m ≡ false
  unfolding inactive_tokens any_row
  FreshAt-unlisted j [] h = refl
  FreshAt-unlisted j ((k, i) ∷ m) (h, hs) = elim (Bool-cases (k == j)) [
    | inl same ↦ Fresh-first j k i m (h ((==_iff k j).0 same)) ∙ FreshAt-unlisted j m hs
    | inr other ↦ other_first j k i m other ∙ FreshAt-unlisted j m hs
  ]

-- A check at a time returns, never throws. Each session whose object is gone by then, or was silent for
-- the timeout, is out of the registry; each token whose session was heard of within the timeout keeps it,
-- and no token is added. The logins, mirrors and addresses stay, those of the expired sessions too, until
-- their objects are destroyed.
pub check_inactive_sessions-Expires :
    (now : ℕ) (w : World) → Expires now w (check_inactive_sessions now w)
unfolding check_inactive_sessions
check_inactive_sessions-Expires now w =
    let (w', e, k, h) = expire_each-Erases (inactive_tokens now w.server w.server.sessions) w in
    (
      w',
      e,
      record {
        others = k;
        gone = λ j s found stale.
            h j ∙ rw (Stale-listed now w.server j s w.server.sessions found stale) refl;
        kept = λ j fresh. h j ∙ rw (FreshAt-unlisted now w.server j w.server.sessions fresh) refl;
      },
    )
