-- ===== src/Base/Text.antt =====
-- What the program uses of Go's strings and strconv: texts as lists of bytes or of code points.
use Prim.Native.Char.{code}
use Prim.Native.Nat.{ℕ, zero, suc, ◌+◌, ◌/◌, ◌%◌}
use Prim.Native.String.{String, ◌++◌ as ◌<>◌}
use mathlib.Core.Bool.{Bool, true, false, ◌&&◌, ◌||◌}
use mathlib.Core.List.{List, [], ◌∷◌, ◌++◌}
use node_gateway.Base.Lists.{get_elem?}
use node_gateway.Base.Maps.{value_or}
use node_gateway.Base.Int.{ℤ, pos, negsuc}
use node_gateway.Base.Tests.{◌==◌, nat_eq, ltb, leb, if◌then◌else◌}

unfoldable pub codes : String → List ℕ
codes String.[] = []
codes (String.◌∷◌ c s) = code c ∷ codes s

-- The UTF-8 bytes of a code point.
unfoldable pub utf8_of_code : ℕ → List ℕ
utf8_of_code c =
    if ltb c 0x80
    then c ∷ []
    else if ltb c 0x800
    then (0xc0 + c / 64) ∷ (0x80 + c % 64) ∷ []
    else if ltb c 0x1_0000
    then (0xe0 + c / 4096) ∷ (0x80 + c / 64 % 64) ∷ (0x80 + c % 64) ∷ []
    else (0xf0 + c / 262_144) ∷ (0x80 + c / 4096 % 64) ∷ (0x80 + c / 64 % 64) ∷ (0x80 + c % 64) ∷ []

-- The bytes of a Go string.
unfoldable pub bytes : String → List ℕ
unfolding utf8_of_code
bytes String.[] = []
bytes (String.◌∷◌ c s) = utf8_of_code (code c) ++ bytes s

unfoldable pub has_prefix : List ℕ → List ℕ → Bool
has_prefix xs [] = true
has_prefix [] (y ∷ ys) = false
has_prefix (x ∷ xs) (y ∷ ys) = x == y && has_prefix xs ys

-- strings.Contains
unfoldable pub contains_bytes : List ℕ → List ℕ → Bool
unfolding has_prefix
contains_bytes [] ys = has_prefix [] ys
contains_bytes (x ∷ xs) ys = has_prefix (x ∷ xs) ys || contains_bytes xs ys

unfoldable pub contains : String → String → Bool
unfolding contains_bytes bytes
contains s t = contains_bytes (bytes s) (bytes t)

-- strings.ToLower on ASCII letters. The other characters whose lower case is in ASCII are the
-- Kelvin sign (k) and the dotted capital I (i).
unfoldable pub to_lower_byte : ℕ → ℕ
to_lower_byte c = if leb b'A' c && leb c b'Z' then c + 32 else c

-- The decimal digits of a number before `acc`, at most `fuel` of them.
unfoldable pub digits_from : ℕ → ℕ → List ℕ → List ℕ
digits_from zero n acc = acc
digits_from (suc fuel) n acc =
    let more = (b'0' + n % 10) ∷ acc in
    let rest = digits_from fuel (n / 10) more in if ltb n 10 then more else rest

-- strconv.Itoa: a number below 2 ^ 63 has at most 19 digits.
unfoldable pub itoa : ℤ → List ℕ
unfolding digits_from
itoa (pos n) = digits_from 20 n []
itoa (negsuc n) = b'-' ∷ digits_from 20 (suc n) []

-- A text put together of its parts, and strings.Join.
unfoldable pub concat : List String → String
concat [] = ""
concat (s ∷ ss) = s <> concat ss

unfoldable pub join : String → List String → String
unfolding concat
join separator [] = ""
join separator (s ∷ []) = s
join separator (s ∷ t ∷ ss) = concat (s ∷ separator ∷ join separator (t ∷ ss) ∷ [])

abbrev digits : List String
digits = "0" ∷ "1" ∷ "2" ∷ "3" ∷ "4" ∷ "5" ∷ "6" ∷ "7" ∷ "8" ∷ "9" ∷ []

unfoldable pub decimal_from : ℕ → ℕ → String → String
decimal_from zero n acc = acc
decimal_from (suc fuel) n acc =
    let more = value_or "" (get_elem? digits (n % 10)) <> acc in
    let rest = decimal_from fuel (n / 10) more in if ltb n 10 then more else rest

-- `%d` of an int: below 2 ^ 63 in absolute value.
unfoldable pub decimal : ℤ → String
unfolding decimal_from
decimal (pos n) = decimal_from 20 n ""
decimal (negsuc n) = "-" <> decimal_from 20 (suc n) ""
