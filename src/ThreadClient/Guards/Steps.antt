-- ===== src/ThreadClient/Guards/Steps.antt =====
-- Each step of a thread of boost_Practice/03_Client_Application/MultiThreadAsyncTCPClient.cpp leaves every
-- mutex with the thread that stands where it holds it.

use socket_communication.Common.{
  if◌then◌else◌, ◌==◌, nat_eq, int_eq, bytes_eq, string_eq, Bool-cases, ==_iff, lookup, insert,
  lookup-insert, ℕ, ◌≤◌, ◌≡◌, refl, sym, ap, subst, ◌∙◌, inl, inr, Bool, true, false, Option, none,
  some, List,
}
use socket_communication.ThreadClient.{
  Session, Place, Client, goto, change, lock_active, lock_session,
}
use socket_communication.ThreadClient.Guards.{
  IsGuarded, holds_active, holds_session, guard_in, guard_of, guard-change, Passes, moved-IsGuarded,
}

-- What holds after a step, where there is one.
abbrev pub After : (Client → Type 0) → Option Client → Type 0
After P none = Unit {0}
After P (some d) = P d

pub session-Passes :
    (t : ℕ) (q p : Place) (o : ℕ) (s s' : Session) (c : Client)
    → lookup o c.objects ≡ some s
    → Passes t (holds_session o q) (holds_session o p) s.guard s'.guard
    → ((i : ℕ) → (o == i) ≡ false → holds_session i q ≡ holds_session i p)
    → (i : ℕ)
    → Passes t (holds_session i q) (holds_session i p) (guard_of i c) (guard_of i (change o s' c))
session-Passes t q p o s s' c found at others i = elim (Bool-cases (o == i)) [
  | inl h ↦
      subst
        (λ i.
          Passes t (holds_session i q) (holds_session i p) (guard_of i c)
            (guard_of i (change o s' c)))
        ((==_iff o i).0 h)
        (subst2 (sym (ap guard_in found)) (sym (guard-change o o s' c ∙ rw (own o) refl)))
  | inr h ↦ inl (others i h, sym (guard-change o i s' c ∙ rw h refl))
]
  where
    own : (o : ℕ) → (o == o) ≡ true
    own o = (==_iff o o).1 refl

    subst2 :
        {g g' : Option ℕ}
        → s.guard ≡ g
        → s'.guard ≡ g'
        → Passes t (holds_session o q) (holds_session o p) g g'
    subst2 {g} {g'} e f =
        subst (λ h. Passes t (holds_session o q) (holds_session o p) h g') e
          (subst (Passes t (holds_session o q) (holds_session o p) s.guard) f at)

no_session : {s : Session} → none ≡ some s → ⊥
no_session e = cc

pub fresh-change :
    (o : ℕ) (s s' : Session) (c : Client)
    → IsGuarded c
    → lookup o c.objects ≡ some s
    → (i : ℕ) → c.next_object ≤ i
    → lookup i (insert o s' c.objects) ≡ none
fresh-change o s s' c g found i l =
    lookup-insert o i s' c.objects ∙ rw (other (o == i) refl) (g.fresh i l)
  where
    other : (b : Bool) → (o == i) ≡ b → (o == i) ≡ false
    other false e = e
    other true e = absurd (
        no_session
          (sym (g.fresh i l) ∙ sym (ap (λ j. lookup j c.objects) ((==_iff o i).0 e)) ∙ found))

module _ (t : ℕ) (q : Place) (c : Client) (g : IsGuarded c) (at : c.threads t ≡ q) where
  -- A step that changes no mutex and no session.
  pub stays :
      (p : Place) (c' : Client)
      → ((u : ℕ) → c'.threads u ≡ (if t == u then p else c.threads u))
      → holds_active q ≡ holds_active p
      → ((o : ℕ) → holds_session o q ≡ holds_session o p)
      → c'.active_guard ≡ c.active_guard
      → c'.objects ≡ c.objects
      → c'.next_object ≡ c.next_object
      → IsGuarded c'
  stays p c' goes a s ga ob n =
      moved-IsGuarded t p c c' g goes (inl (ap holds_active at ∙ a, sym ga))
        (λ o. inl (
          ap (holds_session o) at ∙ s o,
          ap (λ (os : List (ℕ × Session)). guard_in (lookup o os)) (sym ob),
        ))
        (λ o l. ap (lookup o) ob ∙ g.fresh o (subst (λ m. m ≤ o) n l))

  -- `unique_lock` on the map's guard.
  pub locks_active :
      (p : Place)
      → holds_active p ≡ true
      → ((o : ℕ) → holds_session o q ≡ holds_session o p)
      → After IsGuarded (lock_active t p c)
  locks_active p now s = go c.active_guard refl
    where
      go :
          (o : Option ℕ)
          → c.active_guard ≡ o
          → After IsGuarded (elim o as (λ _. Option Client) [
            | none ↦ some (goto t p (record c { active_guard = some t }))
            | some u ↦ none
          ])
      go none e =
          moved-IsGuarded t p c (goto t p (record c { active_guard = some t })) g (λ u. refl)
            (inr (inl (now, e, refl))) (λ o. inl (ap (holds_session o) at ∙ s o, refl)) g.fresh
      go (some u) e = tt

  -- A step that gives the map's guard back and changes a session.
  pub unlocks_active :
      (p : Place) (c' : Client)
      → ((u : ℕ) → c'.threads u ≡ (if t == u then p else c.threads u))
      → holds_active q ≡ true
      → holds_active p ≡ false
      → c'.active_guard ≡ none
      → ((o : ℕ) → Passes t (holds_session o q) (holds_session o p) (guard_of o c) (guard_of o c'))
      → ((o : ℕ) → c'.next_object ≤ o → lookup o c'.objects ≡ none)
      → IsGuarded c'
  unlocks_active p c' goes was now free s f =
      moved-IsGuarded t p c c' g goes (inr (inr (ap holds_active at ∙ was, now, free)))
        (λ o.
          subst (λ b. Passes t b (holds_session o p) (guard_of o c) (guard_of o c'))
            (sym (ap (holds_session o) at)) (s o))
        f

  -- A step that changes a session only.
  pub changes :
      (p : Place) (o : ℕ) (s s' : Session) (c' : Client)
      → ((u : ℕ) → c'.threads u ≡ (if t == u then p else c.threads u))
      → holds_active q ≡ holds_active p
      → c'.active_guard ≡ c.active_guard
      → c'.objects ≡ insert o s' c.objects
      → c'.next_object ≡ c.next_object
      → lookup o c.objects ≡ some s
      → Passes t (holds_session o q) (holds_session o p) s.guard s'.guard
      → ((i : ℕ) → (o == i) ≡ false → holds_session i q ≡ holds_session i p)
      → IsGuarded c'
  changes p o s s' c' goes a ga ob n found at_o others =
      moved-IsGuarded t p c c' g goes (inl (ap holds_active at ∙ a, sym ga))
        (λ i.
          subst (λ b. Passes t b (holds_session i p) (guard_of i c) (guard_of i c'))
            (sym (ap (holds_session i) at))
            (subst
              (λ (os : List (ℕ × Session)).
                Passes t (holds_session i q) (holds_session i p) (guard_of i c)
                  (guard_in (lookup i os)))
              (sym ob) (session-Passes t q p o s s' c found at_o others i)))
        (λ i l. ap (lookup i) ob ∙ fresh-change o s s' c g found i (subst (λ m. m ≤ i) n l))

  -- `unique_lock` on the guard of a session.
  pub locks_session :
      (p : Place) (o : ℕ) (s : Session)
      → lookup o c.objects ≡ some s
      → holds_active q ≡ holds_active p
      → holds_session o p ≡ true
      → ((i : ℕ) → (o == i) ≡ false → holds_session i q ≡ holds_session i p)
      → After IsGuarded (lock_session t o s p c)
  locks_session p o s found a now others = go s.guard refl
    where
      go :
          (h : Option ℕ)
          → s.guard ≡ h
          → After IsGuarded (elim h as (λ _. Option Client) [
            | none ↦ some (goto t p (change o (record s { guard = some t }) c))
            | some u ↦ none
          ])
      go none e =
          changes p o s (record s { guard = some t }) _ (λ u. refl) a refl refl refl found
            (inr (inl (now, e, refl))) others
      go (some u) e = tt
