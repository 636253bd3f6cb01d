-- ===== src/Common/Texts.antt =====
-- `std::string` as the list of its bytes: the standard functions that the program calls.

use Prim.Native.Nat.{◌/◌, ◌%◌, ◌*◌, ◌+◌, ◌-◌, ◌^◌, ℕ, zero, suc}
use Prim.Native.Char.{code}
use Prim.Native.String.{String}
use mathlib.Core.Bool.{Bool, true, false, ◌&&◌, ◌||◌}
use mathlib.Core.Option
use mathlib.Core.Option.{Option, none, some}
use mathlib.Core.List.{List, [], ◌∷◌}
use socket_communication.Common.Tests.{if◌then◌else◌, ltb, leb, ◌==◌, nat_eq}

-- The bytes of an ASCII literal.
abbrev pub bytes_of : String → List ℕ
bytes_of String.[] = []
bytes_of (String.◌∷◌ c s) = code c ∷ bytes_of s

unfoldable pub drop {ℓ} : {A : Type ℓ} → ℕ → List A → List A
drop zero xs = xs
drop (suc n) [] = []
drop (suc n) (x ∷ xs) = drop n xs

unfoldable pub take {ℓ} : {A : Type ℓ} → ℕ → List A → List A
take zero xs = []
take (suc n) [] = []
take (suc n) (x ∷ xs) = x ∷ take n xs

-- `substr(from, count)`.
unfoldable pub substr : ℕ → ℕ → List ℕ → List ℕ
unfolding drop take
substr from count t = take count (drop from t)

unfoldable pub starts_with : List ℕ → List ℕ → Bool
starts_with [] t = true
starts_with (c ∷ cs) [] = false
starts_with (c ∷ cs) (d ∷ t) = let rest = starts_with cs t in c == d && rest

-- The first index from `i` on at which `word` stands, where `i` is the index of the text's first byte.
unfoldable pub find_at : List ℕ → ℕ → List ℕ → Option ℕ
unfolding starts_with
find_at word i [] = if starts_with word [] then some i else none
find_at word i (c ∷ t) =
    let later = find_at word (suc i) t in if starts_with word (c ∷ t) then some i else later

-- `text.find(word, from)`, with `none` for `npos`.
unfoldable pub find : List ℕ → ℕ → List ℕ → Option ℕ
unfolding find_at drop
find word from t = find_at word from (drop from t)

abbrev pub hex_digit : ℕ → ℕ
hex_digit d = if ltb d 10 then 48 + d else 87 + d

-- Two hexadecimal digits for each byte.
unfoldable pub to_hex : List ℕ → List ℕ
to_hex [] = []
to_hex (b ∷ bs) = hex_digit (b / 16) ∷ hex_digit (b % 16) ∷ to_hex bs

-- The decimal digits of a number before a text, for a number below the fuel.
unfoldable pub digits_before : ℕ → ℕ → List ℕ → List ℕ
digits_before zero n out = out
digits_before (suc fuel) n out =
    let more = digits_before fuel (n / 10) ((b'0' + n % 10) ∷ out) in
    if ltb n 10 then (b'0' + n) ∷ out else more

-- `std::to_string`.
unfoldable pub to_string : ℕ → List ℕ
unfolding digits_before
to_string n = digits_before (suc n) n []

abbrev pub is_digit : ℕ → Bool
is_digit c = leb b'0' c && leb c b'9'

abbrev pub is_space : ℕ → Bool
is_space c = c == 32 || (leb 9 c && leb c 13)

unfoldable pub skip_spaces : List ℕ → List ℕ
skip_spaces [] = []
skip_spaces (c ∷ t) = let rest = skip_spaces t in if is_space c then rest else c ∷ t

-- The number that the digits in front spell behind `n`.
unfoldable pub read_digits : ℕ → List ℕ → ℕ
read_digits n [] = n
read_digits n (c ∷ t) =
    let rest = read_digits (n * 10 + (c - b'0')) t in if is_digit c then rest else n

abbrev pub max_ulong : ℕ
max_ulong = 2 ^ 64 - 1

-- A number that an `unsigned long` holds.
unfoldable pub in_ulong : ℕ → Option ℕ
in_ulong n = if leb n max_ulong then some n else none

-- The digits that must stand here.
unfoldable pub unsigned_here : List ℕ → Option ℕ
unfolding read_digits in_ulong
unsigned_here [] = none
unsigned_here (c ∷ t) = if is_digit c then in_ulong (read_digits 0 (c ∷ t)) else none

-- A sign, and the digits. A minus negates modulo 2 ^ 64.
unfoldable pub signed_here : List ℕ → Option ℕ
unfolding unsigned_here
signed_here [] = none
signed_here (c ∷ t) =
    if c == b'-'
    then Option.map (λ n. (2 ^ 64 - n) % 2 ^ 64) (unsigned_here t)
    else if c == b'+'
    then unsigned_here t
    else unsigned_here (c ∷ t)

-- `std::stoul`, with `none` where it throws.
unfoldable pub stoul : List ℕ → Option ℕ
unfolding skip_spaces signed_here
stoul t = signed_here (skip_spaces t)
