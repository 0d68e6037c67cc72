-- ===== src/Config/Yaml/Names.antt =====
-- The lists of methods and the TTLs of methods that internal/config/config.go reads from YAML.
use Prim.Native.Char.{Char}
use Prim.Native.String.{◌++◌ as ◌<>◌}
use Prim.Native.String.append
use text.Mathlib.TextLemmas.{append-nil}
use node_gateway.Base.{
  String, ◌≡◌, refl, sym, ap, ap₂, ◌∙◌, Bool, true, false, or-false, ◌||◌, List, [], ◌∷◌, Option,
  none, some, Map, lookup, insert, lookup-insert, value_or, ◌==◌, nat_eq, string_eq, ltb_ℤ, pos,
  if◌then◌else◌, if_false, ◌≢◌, any, All, join, concat, Bool-cases, inl, inr,
}
use node_gateway.Config.{Duration, MethodsConfig, ChainCacheConfig}
use node_gateway.Config.Yaml.{
  is_comma, put_first, split, add_all, unmarshal_methods, MethodTtlConfig, add_ttls,
  unmarshal_cache,
}
use node_gateway.Config.Ttl.{get_ttl_for_method}

-- No character is a comma.
abbrev pub IsName : String → Type 0
IsName String.[] = Unit
IsName (String.◌∷◌ c s) = (is_comma c ≡ false) × IsName s

-- The name before the first part.
abbrev put_word : String → List String → List String
put_word name [] = name ∷ []
put_word name (w ∷ ws) = (name <> w) ∷ ws

nil-append : (s : String) → "" <> s ≡ s
nil-append s i = append.nil s i

cons-append : (c : Char) (s t : String) → String.◌∷◌ c s <> t ≡ String.◌∷◌ c (s <> t)
cons-append c s t i = append.cons c s t i

put_first-put_word :
    (c : Char) (s : String) (ws : List String)
    → put_first c (put_word s ws) ≡ put_word (String.◌∷◌ c s) ws
unfolding put_first
put_first-put_word c s [] = refl
put_first-put_word c s (w ∷ ws) = rw (cons-append c s w) refl

put_word-nil : (ws : List String) → ws ≢ [] → put_word "" ws ≡ ws
put_word-nil [] h = absurd (h refl)
put_word-nil (w ∷ ws) h = rw (nil-append w) refl

put_first-ne : (c : Char) (ws : List String) → put_first c ws ≢ []
unfolding put_first
put_first-ne c [] e = cc
put_first-ne c (w ∷ ws) e = cc

split-ne : (s : String) → split s ≢ []
unfolding split
split-ne String.[] e = cc
split-ne (String.◌∷◌ c s) e = elim (Bool-cases (is_comma c)) [
  | inl comma ↦ cc
  | inr plain ↦ put_first-ne c (split s) (sym (if_false _ _ plain) ∙ e)
]

split-append : (name s : String) → IsName name → split (name <> s) ≡ put_word name (split s)
unfolding split
split-append String.[] s h = rw (nil-append s) (sym (put_word-nil (split s) (split-ne s)))
split-append (String.◌∷◌ c name) s (plain, h) = rw (cons-append c name s) (
    if_false _ _ plain
    ∙ ap (put_first c) (split-append name s h)
    ∙ put_first-put_word c name (split s))

comma-split : (s : String) → split ("," <> s) ≡ "" ∷ split s
unfolding split
comma-split s = ap split (cons-append "," "" s ∙ ap (String.◌∷◌ ",") (nil-append s))

split-name : (name : String) → IsName name → split name ≡ name ∷ []
unfolding split
split-name name h =
    ap split (sym (append-nil name)) ∙ split-append name "" h ∙ ap (λ w. w ∷ []) (append-nil name)

-- Splitting what is joined by commas gives back the parts, if there are any and they have no commas.
split-join :
    (name : String) (names : List String)
    → All IsName (name ∷ names)
    → split (join "," (name ∷ names)) ≡ name ∷ names
unfolding join concat
split-join name [] (h, _) = split-name name h
split-join name (next ∷ names) (h, hs) =
    split-append name _ h
    ∙ ap (put_word name) (comma-split _)
    ∙ ap₂ (λ w ws. w ∷ ws) (append-nil name) (ap split (append-nil _) ∙ split-join next names hs)

shuffle :
    (here rest : Bool) (found : Option Bool)
    → rest || value_or false (if here then some true else found)
      ≡ (here || rest) || value_or false found
shuffle true true found = refl
shuffle true false found = refl
shuffle false rest found = refl

-- The set that is filled from a list of names.
lookup-add_all :
    (name : String) (names : List String) (set : Map Bool)
    → value_or false (lookup name (add_all names set))
      ≡ any (λ n. n == name) names || value_or false (lookup name set)
unfolding add_all
lookup-add_all name [] set = refl
lookup-add_all name (n ∷ names) set =
    lookup-add_all name names (insert n true set)
    ∙ ap (λ o. any (λ k. k == name) names || value_or false o) (lookup-insert n name true set)
    ∙ shuffle (n == name) (any (λ k. k == name) names) (lookup name set)

-- Of the texts that join two lists of names by commas, neither empty and no name with a comma, the
-- configuration enables exactly the names of the first and disables exactly those of the second.
pub unmarshal_methods-join :
    (e : String) (es : List String) (d : String) (ds : List String) (name : String)
    → All IsName (e ∷ es)
    → All IsName (d ∷ ds)
    → (m : MethodsConfig) × (unmarshal_methods (some (join "," (e ∷ es), join "," (d ∷ ds)))
        ≡ some m)
      × (value_or false (lookup name m.enabled) ≡ any (λ n. n == name) (e ∷ es))
      × (value_or false (lookup name m.disabled) ≡ any (λ n. n == name) (d ∷ ds))
unfolding unmarshal_methods lookup
unmarshal_methods-join e es d ds name he hd = (
  record { enabled = add_all (e ∷ es) []; disabled = add_all (d ∷ ds) [] },
  rw (split-join e es he, split-join d ds hd) refl,
  lookup-add_all name (e ∷ es) [] ∙ or-false _,
  lookup-add_all name (d ∷ ds) [] ∙ or-false _,
)

-- The TTL of the last entry of a method.
abbrev pub last_ttl : String → List MethodTtlConfig → Option Duration → Option Duration
last_ttl name [] found = found
last_ttl name (m ∷ ms) found = last_ttl name ms (if m.method == name then some m.ttl else found)

lookup-add_ttls :
    (name : String) (ms : List MethodTtlConfig) (ttls : Map Duration)
    → lookup name (add_ttls ms ttls) ≡ last_ttl name ms (lookup name ttls)
unfolding add_ttls
lookup-add_ttls name [] ttls = refl
lookup-add_ttls name (m ∷ ms) ttls =
    lookup-add_ttls name ms (insert m.method m.ttl ttls)
    ∙ ap (last_ttl name ms) (lookup-insert m.method name m.ttl ttls)

chosen :
    (found : Option Duration) (ttl : Duration)
    → elim found [ some t ↦ if ltb_ℤ (pos 0) t then t else ttl | none ↦ ttl ]
      ≡ (if ltb_ℤ (pos 0) (value_or (pos 0) found) then value_or (pos 0) found else ttl)
chosen none ttl = refl
chosen (some t) ttl = refl

-- The TTL of a method is that of its last entry, where this is positive, and else the TTL of the
-- chain.
pub get_ttl_for_method-unmarshal_cache :
    (name : String) (ms : List MethodTtlConfig) (ttl : Duration)
    → (c : ChainCacheConfig) × (unmarshal_cache (some (ms, ttl)) ≡ some c)
      × (get_ttl_for_method name c ≡ (
          if ltb_ℤ (pos 0) (value_or (pos 0) (last_ttl name ms none))
          then value_or (pos 0) (last_ttl name ms none)
          else ttl))
unfolding unmarshal_cache get_ttl_for_method lookup
get_ttl_for_method-unmarshal_cache name ms ttl = (
  record { method_ttls = add_ttls ms []; ttl = ttl },
  refl,
  rw (get_ttl_for_method, lookup-add_ttls name ms []) (chosen (last_ttl name ms none) ttl),
)
