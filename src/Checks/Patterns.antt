-- ===== src/Checks/Patterns.antt =====
-- internal/checks/error.go: which responses count as errors.
use node_gateway.Base.{
  ℕ, String, Bool, true, false, not, ◌&&◌, ◌||◌, List, [], ◌∷◌, ◌==◌, nat_eq, string_eq,
  if◌then◌else◌, length, is_empty, any, bytes, contains,
}
use node_gateway.Config.{ErrorsConfig}

-- `strings.EqualFold(y, "x")` for the one-character string of a byte.
unfoldable pub is_wildcard : ℕ → Bool
is_wildcard y = y == b'x' || y == b'X'

-- The loop of isMatch, over two strings of one length. The response code comes from strconv.Itoa:
-- it is ASCII, so that `range` visits one byte after the other.
unfoldable pub match_bytes : List ℕ → List ℕ → Bool
unfolding is_wildcard
match_bytes [] _ = true
match_bytes (x ∷ xs) [] = true
match_bytes (x ∷ xs) (y ∷ ys) = (is_wildcard y || x == y) && match_bytes xs ys

unfoldable pub is_match : List ℕ → String → Bool
unfolding match_bytes bytes
is_match response_code pattern =
    if not (length response_code == length (bytes pattern))
    then false
    else match_bytes response_code (bytes pattern)

unfoldable pub is_match_for_patterns : List ℕ → List String → Bool
unfolding is_match
is_match_for_patterns response_code patterns =
    if is_empty response_code
    then false
    else if is_empty patterns
    then true
    else any (is_match response_code) patterns

unfoldable pub is_error_matches : String → List String → Bool
unfolding contains
is_error_matches error_msg errors =
    if error_msg == ""
    then false
    else if is_empty errors
    then true
    else any (contains error_msg) errors

unfoldable pub is_error : ErrorsConfig → List ℕ → List ℕ → String → Bool
unfolding is_match_for_patterns is_error_matches
is_error c http_code json_rpc_code error_msg =
    is_match_for_patterns http_code c.http_codes
    || (is_match_for_patterns json_rpc_code c.json_rpc_codes
        || is_error_matches error_msg c.error_strings)
