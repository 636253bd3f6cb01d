-- ===== src/ThreadClient/Threads.antt =====
-- The constructor of AsyncTCPClient in boost_Practice/03_Client_Application/MultiThreadAsyncTCPClient.cpp.

use Prim.Native.Nat.{◌%◌}
use socket_communication.Common.{
  if◌then◌else◌, ltb, leb, Bool-cases, ℕ, zero, suc, ◌+◌, ◌<◌, ◌≡◌, refl, sym, ap, ◌∙◌, ◌↔◌, inl,
  inr, Bool, true, false, none, some, arith,
}
use socket_communication.ThreadClient.{spawn_threads}

next_counter : (i : ℕ) → i < 255 → (i + 1) % 256 ≡ suc i
next_counter i l = omega (arith, l)

spawned :
    (num left i made : ℕ)
    → num < 255
    → i + left ≡ suc num
    → spawn_threads (suc left) num i made ≡ some (made + left)
unfolding spawn_threads
spawned num zero i made l e = let all : made ≡ made + 0 = omega arith in ground (arith, e, all)
spawned num (suc left) i made l e =
    let later : spawn_threads (suc left) num (suc i) (suc made) ≡ some (suc made + left) =
      spawned num left (suc i) (suc made) l (omega (arith, e)) in
    let same : suc made + left ≡ made + suc left = omega arith in
    let on : leb i num ≡ true = ground (arith, e) in
    let at : (i + 1) % 256 ≡ suc i = omega (arith, e, l) in rw on (rw at (later ∙ ap some same))

spawning : (fuel i made : ℕ) → i < 256 → spawn_threads fuel 255 i made ≡ none
unfolding spawn_threads
spawning zero i made l = refl
spawning (suc fuel) i made l =
    let on : leb i 255 ≡ true = ground (arith, l) in
    rw on (spawning fuel ((i + 1) % 256) (suc made) (omega arith))

some_is_not : {num : ℕ} → none ≡ some num → ⊥
some_is_not e = cc

-- The loop of the constructor ends.
abbrev pub Spawns : ℕ → Type 0
Spawns num = (fuel : ℕ) × (made : ℕ) × (spawn_threads fuel num 1 0 ≡ some made)

spawn_result :
    (num : ℕ)
    → num < 256
    → (b : Bool) → ltb num 255 ≡ b
    → spawn_threads (suc num) num 1 0 ≡ (if b then some num else none)
spawn_result num l true h =
    let all : 0 + num ≡ num = omega arith in
    spawned num num 1 0 (ground (arith, h)) (omega arith) ∙ ap some all
spawn_result num l false h =
    let is_last : num ≡ 255 = ground (arith, h, l) in
    ap (λ n. spawn_threads (suc num) n 1 0) is_last ∙ spawning (suc num) 1 0 (omega arith)

-- For each number that an `unsigned char` holds, the loop of the constructor ends exactly where that is
-- less than 255, and one test more than that number is enough to end it, with as many threads as were
-- asked for: at 255 the counter wraps round and the loop does not end within any number of tests.
pub constructor_ends_iff :
    (num : ℕ)
    → num < 256
    → (Spawns num ↔ (num < 255))
      × (spawn_threads (suc num) num 1 0 ≡ (if ltb num 255 then some num else none))
constructor_ends_iff num l = ((only, ends), spawn_result num l (ltb num 255) refl)
  where
    ends : num < 255 → Spawns num
    ends m = (suc num, num, spawn_result num l true (ground (arith, m)))

    only : Spawns num → num < 255
    only (fuel, made, e) = elim (Bool-cases (ltb num 255)) [
      | inl small ↦ ground (arith, small)
      | inr big ↦
          let is_last : num ≡ 255 = ground (arith, big, l) in
          absurd (
            some_is_not (
              sym (spawning fuel 1 0 (omega arith))
              ∙ ap (λ n. spawn_threads fuel n 1 0) (sym is_last)
              ∙ e))
    ]
