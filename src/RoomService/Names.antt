-- ===== src/RoomService/Names.antt =====
-- `isValidRoomName` of MatchingServer/src/service/room_service.cpp, against ranges of bytes.

use socket_communication.Common.{
  leb, nat_eq, length, All, ℕ, zero, suc, ◌≤◌, ◌<◌, ◌≡◌, refl, sym, subst, ◌↔◌, ◌⊎◌, Bool, true,
  false, not, ◌&&◌, ◌||◌, [], ◌∷◌, arith,
}
use socket_communication.Db.{Text}
use socket_communication.RoomService.{is_name_byte, check_bytes, is_valid_room_name}

-- ASCII letters and digits, the space, and all bytes 0x80 to 0xBF and 0xE0 to 0xEF.
unfoldable pub in_name_range : ℕ → Bool
in_name_range c =
    (leb 48 c && leb c 57)
    || (leb 65 c && leb c 90)
    || (leb 97 c && leb c 122)
    || leb 32 c && leb c 32
    || (leb 0x80 c && leb c 0xBF)
    || (leb 0xE0 c && leb c 0xEF)

abbrev iff : Bool → Bool → Bool
iff true b = b
iff false b = not b

-- Whether the masks and the ranges agree on a byte.
abbrev agrees : ℕ → Bool
agrees c = iff (is_name_byte c) (in_name_range c)

and_left : (a b : Bool) → (a && b) ≡ true → a ≡ true
and_left a b h = ground arith

and_right : (a b : Bool) → (a && b) ≡ true → b ≡ true
and_right a b h = ground arith

-- Whether they agree on all bytes up to this one.
agree_up_to : ℕ → Bool
agree_up_to zero = agrees zero
agree_up_to (suc n) = let lower = agree_up_to n in lower && agrees (suc n)

agree_everywhere : agree_up_to 255 ≡ true
unfolding agree_up_to is_name_byte in_name_range nat_eq
agree_everywhere = refl

agrees-of_up_to : (n c : ℕ) → agree_up_to n ≡ true → c ≤ n → agrees c ≡ true
unfolding agree_up_to
agrees-of_up_to zero c h l = subst (λ b. agrees b ≡ true) (omega arith) h
agrees-of_up_to (suc n) c h l = elim (nat_eq.dec (suc n) c) [
  | yes same ↦ subst (λ b. agrees b ≡ true) same (and_right (agree_up_to n) _ h)
  | no other ↦ agrees-of_up_to n c (and_left (agree_up_to n) _ h) (omega arith)
]

iff_eq : (a b : Bool) → iff a b ≡ true → a ≡ b
iff_eq true b h = sym h
iff_eq false b h = ground arith

-- The masks of the source accept the bytes of `in_name_range`.
is_name_byte-range : (c : ℕ) → c < 256 → is_name_byte c ≡ in_name_range c
is_name_byte-range c h =
    iff_eq (is_name_byte c) (in_name_range c) (agrees-of_up_to 255 c agree_everywhere (omega arith))

-- A name's bytes: each in the range, or a `$` that ends the name.
abbrev pub NameBytes : Text → Type 0
NameBytes [] = Unit {0}
NameBytes (c ∷ cs) = ((in_name_range c ≡ true) ⊎ ((c ≡ 36) × (cs ≡ []))) × NameBytes cs

abbrev pub IsBytes : Text → Type 0
IsBytes = All (λ c. c < 256)

check_bytes-NameBytes : (t : Text) → IsBytes t → check_bytes t ≡ true → NameBytes t
unfolding check_bytes
check_bytes-NameBytes [] b h = tt
check_bytes-NameBytes (c ∷ []) b h = ground (arith, is_name_byte-range c)
check_bytes-NameBytes (c ∷ d ∷ cs) b h =
    ground (arith, is_name_byte-range c, check_bytes-NameBytes (d ∷ cs) b.1)

NameBytes-check_bytes : (t : Text) → IsBytes t → NameBytes t → check_bytes t ≡ true
unfolding check_bytes
NameBytes-check_bytes [] b h = refl
NameBytes-check_bytes (c ∷ []) b h = ground (arith, is_name_byte-range c)
NameBytes-check_bytes (c ∷ d ∷ cs) b h =
    ground (arith, is_name_byte-range c, NameBytes-check_bytes (d ∷ cs) b.1 h.1)

-- A name of bytes is valid exactly when it has 1 to 40 bytes, each an ASCII letter or digit, a space
-- or in 0x80 to 0xBF or 0xE0 to 0xEF, but for a `$` that may end it.
pub is_valid_room_name_iff :
    (name : Text)
    → IsBytes name
    → (is_valid_room_name name ≡ true) ↔ ((1 ≤ length name) × (length name ≤ 40) × NameBytes name)
unfolding is_valid_room_name
is_valid_room_name_iff [] b = (λ h. cc, λ h. absurd (omega arith))
is_valid_room_name_iff (c ∷ cs) b = (
  λ h. (omega arith, ground arith, check_bytes-NameBytes (c ∷ cs) b (ground arith)),
  λ h. ground (arith, NameBytes-check_bytes (c ∷ cs) b h.2),
)
