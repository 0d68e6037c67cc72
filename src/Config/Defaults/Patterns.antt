-- ===== src/Config/Defaults/Patterns.antt =====
-- The error patterns that a chain takes from the global configuration (ErrorsConfig.merge of
-- internal/config/config.go).
use node_gateway.Base.{
  is_empty, if_elim, true, false, ◌&&◌, contains, if◌then◌else◌, get_elem?-put_at,
  get_elem?-put_at_other, ℕ, String, ◌≡◌, ◌≢◌, refl, ap, ◌∙◌, Bool, ◌||◌, List, [], ◌∷◌, ◌++◌, some,
  arith, ◌==◌, string_eq, eq_iff, Bool-cases, inl, inr, get_elem?, any,
}
use node_gateway.Config.{ErrorsConfig}
use node_gateway.Checks.Patterns.{is_match_for_patterns, is_error_matches, is_match}
use node_gateway.Config.Pointers.{
  Heap, put_errors, insert_text, sort_texts, compact_after, compact, sort_and_remove_duplicates,
  merge_errors, is_at_most,
}

shared : (a b x y : Bool) → a ≡ b → b || x ≡ b || y → a || x ≡ a || (b || y)
shared a b x y e h = ground (arith, e, h)

module _ (f : String → Bool) where
  any-insert_text : (s : String) (ts : List String) → any f (insert_text s ts) ≡ f s || any f ts
  unfolding insert_text
  any-insert_text s [] = refl
  any-insert_text s (t ∷ ts) = ground (arith, any-insert_text s ts)

  any-sort_texts : (ss : List String) → any f (sort_texts ss) ≡ any f ss
  unfolding sort_texts
  any-sort_texts [] = refl
  any-sort_texts (s ∷ ss) =
      any-insert_text s (sort_texts ss) ∙ ap (λ b. f s || b) (any-sort_texts ss)

  any-compact_after :
      (s : String) (ss : List String) → f s || any f (compact_after s ss) ≡ f s || any f ss
  unfolding compact_after
  any-compact_after s [] = refl
  any-compact_after s (t ∷ ts) = elim (Bool-cases (s == t)) [
    | inl same ↦
        rw same (shared (f s) (f t) _ _ (ap f ((eq_iff s t).0 same)) (any-compact_after t ts))
    | inr other ↦ rw other (ap (λ b. f s || b) (any-compact_after t ts))
  ]

  any-append : (xs ys : List String) → any f (xs ++ ys) ≡ any f xs || any f ys
  any-append [] ys = refl
  any-append (x ∷ xs) ys = ground (arith, any-append xs ys)

  any-compact : (ss : List String) → any f (compact ss) ≡ any f ss
  unfolding compact
  any-compact [] = refl
  any-compact (s ∷ ss) = any-compact_after s ss

  any-merged :
      (xs ys : List String) → any f (sort_and_remove_duplicates (xs ++ ys)) ≡ any f xs || any f ys
  unfolding sort_and_remove_duplicates
  any-merged xs ys =
      any-compact (sort_texts (xs ++ ys)) ∙ any-sort_texts (xs ++ ys) ∙ any-append xs ys

-- A list of patterns is compacted to nothing only where it is empty.
is_empty-insert_text : (s : String) (ts : List String) → is_empty (insert_text s ts) ≡ false
unfolding insert_text
is_empty-insert_text s [] = refl
is_empty-insert_text s (t ∷ ts) =
    if_elim (λ (l : List String). is_empty l ≡ false) (is_at_most s t) refl refl

is_empty-compact : (ss : List String) → is_empty (compact ss) ≡ is_empty ss
unfolding compact
is_empty-compact [] = refl
is_empty-compact (s ∷ ss) = refl

is_empty-merged :
    (xs ys : List String)
    → is_empty (sort_and_remove_duplicates (xs ++ ys)) ≡ is_empty xs && is_empty ys
unfolding sort_and_remove_duplicates sort_texts
is_empty-merged [] [] = is_empty-compact []
is_empty-merged [] (y ∷ ys) =
    is_empty-compact (sort_texts (y ∷ ys)) ∙ is_empty-insert_text y (sort_texts ys)
is_empty-merged (x ∷ xs) ys =
    is_empty-compact (sort_texts (x ∷ xs ++ ys)) ∙ is_empty-insert_text x (sort_texts (xs ++ ys))

-- How a matcher answers for merged patterns: where both lists have patterns, it matches what one of
-- them matches; where only one has, what that one matches; where neither has, as for no patterns.
abbrev pub MatchesMerged : (List String → Bool) → (own global merged : List String) → Type 0
MatchesMerged matches own global merged = matches merged ≡ (
    if is_empty own
    then matches global
    else if is_empty global
    then matches own
    else matches own || matches global)

abbrev matcher : Bool → (String → Bool) → List String → Bool
matcher blank f ps = if blank then false else if is_empty ps then true else any f ps

matcher-merged :
    (blank : Bool) (f : String → Bool) (xs ys : List String)
    → MatchesMerged (matcher blank f) xs ys (sort_and_remove_duplicates (xs ++ ys))
matcher-merged blank f xs ys =
    ground (arith, is_empty-merged xs ys, any-merged f xs ys, any_none xs, any_none ys)
  where
    any_none : (zs : List String) → is_empty zs ≡ true → any f zs ≡ false
    any_none [] e = refl
    any_none (z ∷ zs) e = cc

-- Merging two error configurations gives one whose patterns of each of the three kinds are matched by
-- the matchers of the error check as follows: where both configurations have patterns of the kind,
-- what one of the two lists matches; where only one has, what that list matches, although a list
-- without patterns matches every code and text that is not empty; where neither has, what a list
-- without patterns matches. The merge keeps the rate and every other configuration. (Both are there;
-- they may be the same.)
pub merge_errors-matches :
    (p q : ℕ) (h : Heap) (c g : ErrorsConfig)
    → get_elem? h.errors p ≡ some c
    → get_elem? h.errors q ≡ some g
    → (h' : Heap) × (c' : ErrorsConfig) × (merge_errors p (some q) h ≡ some h')
      × (get_elem? h'.errors p ≡ some c')
      × ((code : List ℕ) (text : String)
          → MatchesMerged (is_match_for_patterns code) c.http_codes g.http_codes c'.http_codes
            × MatchesMerged
                (is_match_for_patterns code)
                c.json_rpc_codes
                g.json_rpc_codes
                c'.json_rpc_codes
            × MatchesMerged
                (is_error_matches text)
                c.error_strings
                g.error_strings
                c'.error_strings)
      × (c'.rate ≡ c.rate)
      × ((i : ℕ) → i ≢ p → get_elem? h'.errors i ≡ get_elem? h.errors i)
unfolding merge_errors is_match_for_patterns is_error_matches
merge_errors-matches p q h c g own global =
    let merged = record c {
      http_codes = sort_and_remove_duplicates (c.http_codes ++ g.http_codes);
      json_rpc_codes = sort_and_remove_duplicates (c.json_rpc_codes ++ g.json_rpc_codes);
      error_strings = sort_and_remove_duplicates (c.error_strings ++ g.error_strings);
    } in
    (
      put_errors p merged h,
      merged,
      rw (merge_errors, own, global) refl,
      get_elem?-put_at p c merged h.errors own,
      λ code text. (
        matcher-merged (is_empty code) (is_match code) c.http_codes g.http_codes,
        matcher-merged (is_empty code) (is_match code) c.json_rpc_codes g.json_rpc_codes,
        matcher-merged (text == "") (contains text) c.error_strings g.error_strings,
      ),
      refl,
      λ i other. get_elem?-put_at_other p i merged h.errors other,
    )
