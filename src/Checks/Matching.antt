-- ===== src/Checks/Matching.antt =====
-- What the patterns of internal/checks/error.go match.
use node_gateway.Base.{
  ℕ, zero, suc, String, ◌≡◌, refl, ◌↔◌, ◌⊎◌, true, ◌||◌, List, [], ◌∷◌, some, arith, ◌==◌, nat_eq,
  string_eq, length, get_elem?, bytes,
}
use node_gateway.Checks.Patterns.{is_wildcard, match_bytes, is_match}

-- A byte of a pattern: `x` and `X` stand for any byte, all else for itself.
abbrev pub Fits : ℕ → ℕ → Type 0
Fits x y = (y ≡ b'x') ⊎ (y ≡ b'X') ⊎ (x ≡ y)

-- The code has the length of the pattern, and fits it at each position.
pub record Matches (code pattern : List ℕ) : Type 0 where
  pub same_length : length code ≡ length pattern
  pub fits : (i x y : ℕ) → get_elem? code i ≡ some x → get_elem? pattern i ≡ some y → Fits x y

Fits-iff : (x y : ℕ) → (is_wildcard y || x == y ≡ true) ↔ Fits x y
unfolding is_wildcard
Fits-iff x y = ground arith

match_bytes_sound :
    (xs ys : List ℕ) → length xs ≡ length ys → match_bytes xs ys ≡ true → Matches xs ys
unfolding match_bytes
match_bytes_sound [] [] e h = record { same_length = refl; fits = λ i x y p q. cc }
match_bytes_sound [] (y ∷ ys) e h = absurd (omega arith)
match_bytes_sound (x ∷ xs) [] e h = absurd (omega arith)
match_bytes_sound (x ∷ xs) (y ∷ ys) e h =
    let rest = match_bytes_sound xs ys (omega arith) (ground arith) in
    record { same_length = e; fits = at rest }
  where
    at :
        Matches xs ys
        → (i a b : ℕ) → get_elem? (x ∷ xs) i ≡ some a
        → get_elem? (y ∷ ys) i ≡ some b
        → Fits a b
    at rest zero a b p q = ground (arith, Fits-iff x y)
    at rest (suc i) a b p q = rest.fits i a b p q

match_bytes_complete : (xs ys : List ℕ) → Matches xs ys → match_bytes xs ys ≡ true
unfolding match_bytes
match_bytes_complete [] ys m = refl
match_bytes_complete (x ∷ xs) [] m = refl
match_bytes_complete (x ∷ xs) (y ∷ ys) m = ground (
  arith,
  (Fits-iff x y).1 (m.fits 0 x y refl refl),
  match_bytes_complete xs ys (record {
    same_length = let e = m.same_length in omega arith;
    fits = λ i a b. m.fits (suc i) a b;
  }),
)

-- A response code matches a pattern exactly when both have the same number of bytes and each byte
-- of the pattern is a wildcard or the byte of the code at its place.
pub is_match_iff :
    (response_code : List ℕ) (pattern : String)
    → (is_match response_code pattern ≡ true) ↔ Matches response_code (bytes pattern)
unfolding is_match
is_match_iff response_code pattern = (
  λ h. match_bytes_sound response_code (bytes pattern) (ground arith) (ground arith),
  λ m.
      let e = m.same_length in
      let found = match_bytes_complete response_code (bytes pattern) m in ground arith,
)
