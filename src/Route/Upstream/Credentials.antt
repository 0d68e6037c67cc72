-- ===== src/Route/Upstream/Credentials.antt =====
-- The credentials that an upstream reads from a request (RFC 7617).
use Prim.Native.Char.{Char, char, code}
use node_gateway.Base.{
  ℕ, ◌<◌, String, ◌≡◌, ◌≢◌, refl, ap, ◌∙◌, true, false, not, ◌&&◌, List, [], ◌∷◌, ◌++◌, Option,
  none, some, ◌==◌, nat_eq, string_eq, if◌then◌else◌, if_true, if_false, ◌>>=◌, bytes, utf8_of_code,
  decode_base64, decode_base64-base64, IsByte, All, arith, eq_iff,
}
use node_gateway.Config.{UpstreamConfig, BasicAuthConfig}
use node_gateway.Route.Upstream.{
  bytes_eq, Headers, canonical_header_key, set_header, basic_auth, request_headers,
}

code_bound : (c : Char) → code c < 0x11_0000
code_bound (char n p) = ground (arith, p)

All-append : (P : ℕ → Type 0) (xs ys : List ℕ) → All P xs → All P ys → All P (xs ++ ys)
All-append P [] ys h k = k
All-append P (x ∷ xs) ys (h, hs) k = (h, All-append P xs ys hs k)

utf8_of_code-IsByte : (n : ℕ) → n < 0x11_0000 → All IsByte (utf8_of_code n)
unfolding utf8_of_code
utf8_of_code-IsByte n h = ground arith

bytes-IsByte : (s : String) → All IsByte (bytes s)
unfolding bytes
bytes-IsByte String.[] = tt
bytes-IsByte (String.◌∷◌ c s) =
    All-append IsByte (utf8_of_code (code c)) (bytes s)
      (utf8_of_code-IsByte (code c) (code_bound c)) (bytes-IsByte s)

-- How a server reads the value of the header: the scheme, then a name that ends at the first colon.
abbrev pub strip_prefix : List ℕ → List ℕ → Option (List ℕ)
strip_prefix [] ys = some ys
strip_prefix (x ∷ xs) [] = none
strip_prefix (x ∷ xs) (y ∷ ys) = if x == y then strip_prefix xs ys else none

abbrev pub cut_at_colon : List ℕ → Option (List ℕ × List ℕ)
cut_at_colon [] = none
cut_at_colon (c ∷ cs) =
    let rest = cut_at_colon cs >>= λ (x : List ℕ × List ℕ). some (c ∷ x.0, x.1) in
    if c == b':' then some ([], cs) else rest

abbrev pub read_basic_auth : List ℕ → Option (List ℕ × List ℕ)
read_basic_auth value = strip_prefix (bytes "Basic ") value >>= λ (x : List ℕ).
    decode_base64 x >>= λ (y : List ℕ). cut_at_colon y

abbrev pub HasNoColon : List ℕ → Type 0
HasNoColon cs = All (λ c. (c == b':') ≡ false) cs

cut_at_colon-append :
    (xs ys : List ℕ) → HasNoColon xs → cut_at_colon (xs ++ b':' ∷ ys) ≡ some (xs, ys)
cut_at_colon-append [] ys h = refl
cut_at_colon-append (x ∷ xs) ys (h, hs) =
    if_false _ _ h
    ∙ ap (λ o. o >>= λ (p : List ℕ × List ℕ). some (x ∷ p.0, p.1)) (cut_at_colon-append xs ys hs)

read_basic_auth-basic_auth :
    (c : BasicAuthConfig)
    → HasNoColon (bytes c.username)
    → read_basic_auth (basic_auth c) ≡ some (bytes c.username, bytes c.password)
unfolding basic_auth
read_basic_auth-basic_auth c h =
    ap (λ o. o >>= λ (y : List ℕ). cut_at_colon y)
      (decode_base64-base64 (bytes c.username ++ b':' ∷ bytes c.password) (
        All-append IsByte (bytes c.username) (b':' ∷ bytes c.password) (bytes-IsByte c.username)
          (omega arith, bytes-IsByte c.password)))
    ∙ cut_at_colon-append (bytes c.username) (bytes c.password) h

given :
    (c : BasicAuthConfig)
    → c.username ≢ ""
    → c.password ≢ ""
    → not (c.username == "") && not (c.password == "") ≡ true
given c name password = ground (arith, eq_iff c.username "", eq_iff c.password "", name, password)

-- A request to an upstream that has a user name and a password, the name without a colon, carries
-- exactly these two to the server, whatever other headers are configured.
pub read_basic_auth-request_headers :
    (u : UpstreamConfig)
    → u.basic_auth_config.username ≢ ""
    → u.basic_auth_config.password ≢ ""
    → HasNoColon (bytes u.basic_auth_config.username)
    → (request_headers u (bytes "Authorization") >>= λ (v : List ℕ). read_basic_auth v)
      ≡ some (bytes u.basic_auth_config.username, bytes u.basic_auth_config.password)
unfolding request_headers set_header canonical_header_key
read_basic_auth-request_headers u name password plain =
    ap (λ (h : Headers). h (bytes "Authorization") >>= λ (v : List ℕ). read_basic_auth v)
      (if_true _ _ (given u.basic_auth_config name password))
    ∙ read_basic_auth-basic_auth u.basic_auth_config plain
