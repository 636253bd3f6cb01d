-- ===== src/ThreadClient/Guards.antt =====
-- The mutexes of boost_Practice/03_Client_Application/MultiThreadAsyncTCPClient.cpp: who holds them.

pub mod Steps
pub mod Runs
use socket_communication.Common.{
  if◌then◌else◌, ◌==◌, nat_eq, int_eq, bytes_eq, string_eq, Bool-cases, ==_iff, lookup,
  lookup-insert, ℕ, ◌≤◌, ◌≡◌, refl, sym, ap, ◌∙◌, ◌⊎◌, inl, inr, Bool, true, false, ◌&&◌, Option,
  none, some, arith,
}
use socket_communication.ThreadClient.{
  Session, Place, Client, new_client, change, submitted, decides, completes, erases, reports,
  searches, marks, marked,
}

-- Whether a thread that stands there holds `m_active_sessions_guard`, or the guard of session `o`.
unfoldable pub holds_active : Place → Bool
holds_active (submitted duration id) = true
holds_active (erases o locked) = true
holds_active (searches id) = true
holds_active (marks o) = true
holds_active (marked o) = true
holds_active _ = false

unfoldable pub holds_session : ℕ → Place → Bool
holds_session o (decides i st) = i == o
holds_session o (completes i locked) = (i == o) && locked
holds_session o (erases i locked) = (i == o) && locked
holds_session o (reports i locked) = (i == o) && locked
holds_session o (marked i) = i == o
holds_session o _ = false

abbrev pub is_holder : ℕ → Option ℕ → Bool
is_holder t none = false
is_holder t (some u) = u == t

abbrev pub guard_in : Option Session → Option ℕ
guard_in none = none
guard_in (some s) = s.guard

abbrev pub guard_of : ℕ → Client → Option ℕ
guard_of o c = guard_in (lookup o c.objects)

-- Each mutex is held by exactly the thread that stands where it holds it, and numbers are given once.
pub record IsGuarded (c : Client) : Type 0 where
  pub active : (t : ℕ) → holds_active (c.threads t) ≡ is_holder t c.active_guard
  pub sessions : (t o : ℕ) → holds_session o (c.threads t) ≡ is_holder t (guard_of o c)
  pub fresh : (o : ℕ) → c.next_object ≤ o → lookup o c.objects ≡ none

pub new_client-IsGuarded : IsGuarded new_client
unfolding holds_active holds_session lookup
new_client-IsGuarded = record { active = λ t. refl; sessions = λ t o. refl; fresh = λ o l. refl }

pub guard-change :
    (o i : ℕ) (s : Session) (c : Client)
    → guard_of i (change o s c) ≡ (if o == i then s.guard else guard_of i c)
guard-change o i s c = ap guard_in (lookup-insert o i s c.objects) ∙ split (o == i)
  where
    split :
        (b : Bool)
        → guard_in (if b then some s else lookup i c.objects)
          ≡ (if b then s.guard else guard_of i c)
    split true = refl
    split false = refl

-- What a step of thread `t` does to a mutex: nothing, taking it where it is free, or giving it back.
abbrev pub Passes : ℕ → Bool → Bool → Option ℕ → Option ℕ → Type 0
Passes t was now g g' =
    ((was ≡ now) × (g ≡ g'))
    ⊎ ((now ≡ true) × (g ≡ none) × (g' ≡ some t))
    ⊎ ((was ≡ true) × (now ≡ false) × (g' ≡ none))

Passes-holder :
    (t u : ℕ) (was now other : Bool) (g g' : Option ℕ)
    → Passes t was now g g'
    → was ≡ is_holder t g
    → other ≡ is_holder u g
    → (if t == u then now else other) ≡ is_holder u g'
unfolding nat_eq
Passes-holder t u was now other g g' (inl (e, f)) h k = elim (Bool-cases (t == u)) [
  | inl s ↦
      let i : t ≡ u = (==_iff t u).0 s in
      rw s (sym e ∙ h ∙ ap (λ v. is_holder v g) i ∙ ap (is_holder u) f)
  | inr d ↦ rw d (k ∙ ap (is_holder u) f)
]
Passes-holder t u was now other g g' (inr (inl (n, e, f))) h k =
    let free : other ≡ false = k ∙ ap (is_holder u) e in ground (arith, n, free, f)
Passes-holder t u was now other g g' (inr (inr (w, n, f))) h k =
    let one : (t == u) ≡ false → is_holder u g ≡ false = other_holds_not t u g (sym h ∙ w) in
    elim (Bool-cases (t == u)) [
      | inl s ↦ rw s (n ∙ sym (ap (is_holder u) f))
      | inr d ↦ rw d (k ∙ one d ∙ sym (ap (is_holder u) f))
    ]
  where
    other_holds_not :
        (t u : ℕ) (g : Option ℕ) → is_holder t g ≡ true → (t == u) ≡ false → is_holder u g ≡ false
    other_holds_not t u none a b = refl
    other_holds_not t u (some v) a b = let i : v ≡ t = (==_iff v t).0 a in rw i b

module _ (t : ℕ) (p : Place) (c c' : Client) (g : IsGuarded c)
    (goes : (u : ℕ) → c'.threads u ≡ (if t == u then p else c.threads u)) where
  -- A step of thread `t` to the place `p` that does so to every mutex.
  pub moved-IsGuarded :
      Passes t (holds_active (c.threads t)) (holds_active p) c.active_guard c'.active_guard
      → ((o : ℕ)
          → Passes t
              (holds_session o (c.threads t))
              (holds_session o p)
              (guard_of o c)
              (guard_of o c'))
      → ((o : ℕ) → c'.next_object ≤ o → lookup o c'.objects ≡ none)
      → IsGuarded c'
  moved-IsGuarded a s f = record {
    active = λ u.
        ap holds_active (goes u)
        ∙ pick holds_active u
        ∙ Passes-holder t u _ _ _ c.active_guard c'.active_guard a (g.active t) (g.active u);
    sessions = λ u o.
        ap (holds_session o) (goes u)
        ∙ pick (holds_session o) u
        ∙ Passes-holder t u _ _ _ (guard_of o c) (guard_of o c') (s o) (g.sessions t o)
            (g.sessions u o);
    fresh = f;
  }
    where
      pick :
          (h : Place → Bool) (u : ℕ)
          → h (if t == u then p else c.threads u) ≡ (if t == u then h p else h (c.threads u))
      pick h u = ground arith
