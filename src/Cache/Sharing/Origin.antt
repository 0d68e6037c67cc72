-- ===== src/Cache/Sharing/Origin.antt =====
-- Results that an upstream gave for a key, and which results may be written.
use node_gateway.Base.{
  String, ◌≡◌, ◌≢◌, inl, inr, refl, sym, ap, ◌∙◌, false, List, [], ◌∷◌, ◌++◌, Option, none, some,
  arith, In, All, Bool-cases, if_false, value_or, ◌==◌, string_eq, eq_refl, Option-cases,
}
use node_gateway.Jsonrpc.{SingleResponseBody, ResponseBody, ErrorObject}
use node_gateway.Jsonrpc.Codec.{Result, ok}
use node_gateway.Cache.{CacheWrite}
use node_gateway.Route.Executor.{Answer, origin_func, judge_response}
use node_gateway.Cache.Sharing.{Served}

-- An upstream gave the value for the key, and the value is not the JSON null.
abbrev pub FromOrigin : List Served → String → Option String → Type 0
FromOrigin history key value =
    (e : Served) × In e history
    × (e.key ≡ key)
    × (e.value ≡ value)
    × (e.is_cached ≡ false)
    × (value ≢ some "null")

pub FromOrigin-cons :
    (e : Served) (history : List Served) (key : String) (value : Option String)
    → FromOrigin history key value
    → FromOrigin (e ∷ history) key value
FromOrigin-cons e history key value (f, m, k, v, cached, real) = (f, inr m, k, v, cached, real)

-- A response that is not an error and not null.
ok_injective : {A E : Type 0} {a b : A} → ◌≡◌ {A = Result A E} (ok a) (ok b) → a ≡ b
ok_injective e = cc

single_not_null :
    (r body : SingleResponseBody) (error : Option ErrorObject)
    → r.error ≡ error
    → judge_response (some (ResponseBody.single r)) ≡ ok body
    → body.result ≢ some "null"
unfolding judge_response
single_not_null r body (some x) has e n = ground (arith, has, e)
single_not_null r body none has e n = elim (Bool-cases (value_or "" r.result == "null")) [
  | inl null ↦ ground (arith, has, e, null)
  | inr real ↦
      let same = ok_injective (sym (if_false _ _ real) ∙ (rw has at e)) in
      let result = ap (λ (x : SingleResponseBody). x.result) same ∙ n in
      cc (sym real ∙ ap (λ (x : Option String). value_or "" x == "null") result ∙ eq_refl "null")
]

not_null :
    (o : Option ResponseBody) (body : SingleResponseBody)
    → judge_response o ≡ ok body
    → body.result ≢ some "null"
unfolding judge_response
not_null none body e n = cc
not_null (some (ResponseBody.batch rs)) body e n = cc
not_null (some (ResponseBody.single r)) body e n = single_not_null r body (r.error) refl e n

pub origin-not_null :
    (a : Answer) (body : SingleResponseBody) → origin_func a ≡ ok body → body.result ≢ some "null"
unfolding origin_func
origin-not_null a body e = elim (Option-cases a.error) [
  | inl fine ↦ not_null a.response_body body (rw fine at e)
  | inr (x, failed) ↦ absurd (cc (rw failed at e))
]

pub removed-All :
    (P : CacheWrite → Type 0) (before after : List CacheWrite) (w : CacheWrite)
    → All P (before ++ w ∷ after)
    → P w × All P (before ++ after)
removed-All P [] after w (h, hs) = (h, hs)
removed-All P (v ∷ before) after w (h, hs) =
    let (found, rest) = removed-All P before after w hs in (found, (h, rest))
