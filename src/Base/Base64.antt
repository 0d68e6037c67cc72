-- ===== src/Base/Base64.antt =====
-- Base64 with the standard alphabet and padding (RFC 4648), over bytes: what EncodeToString of Go's
-- encoding/base64 gives, and how a server reads it.
use Prim.Native.Nat.{ℕ, ◌+◌, ◌-◌, ◌*◌, ◌/◌, ◌%◌, ◌<◌}
use mathlib.Core.Path.{◌≡◌, refl, ap, ap₂, ◌∙◌}
use mathlib.Core.Bool.{false}
use mathlib.Core.List.{List, [], ◌∷◌}
use mathlib.Core.Option.{Option, none, some}
use native.Mathlib.Omega.{arith}
use node_gateway.Base.Lists.{All}
use node_gateway.Base.Tests.{◌==◌, nat_eq, ltb, if◌then◌else◌, if_false, ◌>>=◌}

unfoldable pub symbol : ℕ → ℕ
symbol n =
    if ltb n 26
    then b'A' + n
    else if ltb n 52
    then b'a' + (n - 26)
    else if ltb n 62
    then b'0' + (n - 52)
    else if n == 62
    then b'+'
    else b'/'

unfoldable pub base64 : List ℕ → List ℕ
base64 [] = []
base64 (a ∷ []) = symbol (a / 4) ∷ symbol (a % 4 * 16) ∷ b'=' ∷ b'=' ∷ []
base64 (a ∷ b ∷ []) =
    symbol (a / 4) ∷ symbol (a % 4 * 16 + b / 16) ∷ symbol (b % 16 * 4) ∷ b'=' ∷ []
base64 (a ∷ b ∷ c ∷ rest) =
    symbol (a / 4)
    ∷ symbol (a % 4 * 16 + b / 16)
    ∷ symbol (b % 16 * 4 + c / 64)
    ∷ symbol (c % 64)
    ∷ base64 rest

-- The number of a symbol.
unfoldable pub digit : ℕ → ℕ
digit c =
    if c == b'+'
    then 62
    else if c == b'/'
    then 63
    else if ltb c b'A'
    then c - b'0' + 52
    else if ltb c b'a'
    then c - b'A'
    else c - b'a' + 26

abbrev first : ℕ → ℕ → ℕ
first w x = digit w * 4 + digit x / 16

abbrev second : ℕ → ℕ → ℕ
second x y = digit x % 16 * 16 + digit y / 4

abbrev third : ℕ → ℕ → ℕ
third y z = digit y % 4 * 64 + digit z

unfoldable pub decode_base64 : List ℕ → Option (List ℕ)
decode_base64 [] = some []
decode_base64 (w ∷ x ∷ y ∷ z ∷ rest) =
    let more = decode_base64 rest >>= λ bytes. some (first w x ∷ second x y ∷ third y z ∷ bytes) in
    if z == b'='
    then (if y == b'=' then some (first w x ∷ []) else some (first w x ∷ second x y ∷ []))
    else more
decode_base64 _ = none

digit-symbol : (n : ℕ) → n < 64 → digit (symbol n) ≡ n
unfolding symbol digit
digit-symbol n h = ground arith

symbol-ne : (n : ℕ) → n < 64 → (symbol n == b'=') ≡ false
unfolding symbol
symbol-ne n h = ground arith

-- The numbers that a group of three bytes is cut into, and how they give the bytes.
abbrev pub IsByte : ℕ → Type 0
IsByte n = n < 256

first-symbol : (p q : ℕ) → p < 64 → q < 64 → first (symbol p) (symbol q) ≡ p * 4 + q / 16
first-symbol p q hp hq = rw (digit-symbol p hp, digit-symbol q hq) refl

second-symbol : (p q : ℕ) → p < 64 → q < 64 → second (symbol p) (symbol q) ≡ p % 16 * 16 + q / 4
second-symbol p q hp hq = rw (digit-symbol p hp, digit-symbol q hq) refl

third-symbol : (p q : ℕ) → p < 64 → q < 64 → third (symbol p) (symbol q) ≡ p % 4 * 64 + q
third-symbol p q hp hq = rw (digit-symbol p hp, digit-symbol q hq) refl

first_byte : (a b : ℕ) → IsByte a → b < 16 → first (symbol (a / 4)) (symbol (a % 4 * 16 + b)) ≡ a
first_byte a b ha hb =
    first-symbol (a / 4) (a % 4 * 16 + b) (omega arith) (omega arith) ∙ omega arith

second_byte :
    (a b c : ℕ)
    → IsByte b
    → c < 4
    → second (symbol (a % 4 * 16 + b / 16)) (symbol (b % 16 * 4 + c)) ≡ b
second_byte a b c hb hc =
    second-symbol (a % 4 * 16 + b / 16) (b % 16 * 4 + c) (omega arith) (omega arith) ∙ omega arith

third_byte : (b c : ℕ) → IsByte c → third (symbol (b % 16 * 4 + c / 64)) (symbol (c % 64)) ≡ c
third_byte b c hc =
    third-symbol (b % 16 * 4 + c / 64) (c % 64) (omega arith) (omega arith) ∙ omega arith

only_byte : (a : ℕ) → IsByte a → first (symbol (a / 4)) (symbol (a % 4 * 16)) ≡ a
only_byte a ha = first-symbol (a / 4) (a % 4 * 16) (omega arith) (omega arith) ∙ omega arith

last_byte : (a b : ℕ) → IsByte b → second (symbol (a % 4 * 16 + b / 16)) (symbol (b % 16 * 4)) ≡ b
last_byte a b hb =
    second-symbol (a % 4 * 16 + b / 16) (b % 16 * 4) (omega arith) (omega arith) ∙ omega arith

three_bytes :
    (a b c : ℕ) (rest : List ℕ)
    → IsByte a
    → IsByte b
    → IsByte c
    → some (
        first (symbol (a / 4)) (symbol (a % 4 * 16 + b / 16))
        ∷ second (symbol (a % 4 * 16 + b / 16)) (symbol (b % 16 * 4 + c / 64))
        ∷ third (symbol (b % 16 * 4 + c / 64)) (symbol (c % 64))
        ∷ rest)
      ≡ some (a ∷ b ∷ c ∷ rest)
three_bytes a b c rest ha hb hc =
    rw
      (
        first_byte a (b / 16) ha (omega arith),
        second_byte a b (c / 64) hb (omega arith),
        third_byte b c hc,
      )
      refl

-- Reading what was encoded gives the bytes.
pub decode_base64-base64 : (bs : List ℕ) → All IsByte bs → decode_base64 (base64 bs) ≡ some bs
unfolding base64 decode_base64
decode_base64-base64 [] h = refl
decode_base64-base64 (a ∷ []) (ha, _) = ap (λ x. some (x ∷ [])) (only_byte a ha)
decode_base64-base64 (a ∷ b ∷ []) (ha, (hb, _)) =
    if_false _ _ (symbol-ne (b % 16 * 4) (omega arith))
    ∙ ap₂ (λ x y. some (x ∷ y ∷ [])) (first_byte a (b / 16) ha (omega arith)) (last_byte a b hb)
decode_base64-base64 (a ∷ b ∷ c ∷ rest) (ha, (hb, (hc, hs))) =
    if_false _ _ (symbol-ne (c % 64) (omega arith))
    ∙ rw (decode_base64-base64 rest hs) (three_bytes a b c rest ha hb hc)
