-- ===== src/Checks/ErrorCheck/Outcomes.antt =====
-- What the error check of internal/checks/error.go tells its breaker about a request.
use node_gateway.Base.{
  ℕ, ◌≡◌, refl, sym, ap, ◌∙◌, if_true, if_false, Bool, true, false, ◌||◌, List, [], ◌∷◌, map,
  Option, none, some, arith, if◌then◌else◌, any, itoa, Option-cases, Bool-cases, inl, inr,
}
use node_gateway.Config.{ErrorsConfig}
use node_gateway.Jsonrpc.{SingleResponseBody}
use node_gateway.Checks.Breaker.{CircuitBreaker}
use node_gateway.Checks.Patterns.{is_error}
use node_gateway.Checks.Request.{RequestData}
use node_gateway.Checks.ErrorCheck.{
  ErrorCheck, is_http_failure, is_http_error, is_counted, sub_responses, record_response,
  record_responses, record_request,
}

-- The specification: the outcomes of a request in order, `true` for an error. A request that failed
-- as a whole has one, any other one for each response.
abbrev pub response_outcome : ErrorsConfig → SingleResponseBody → Bool
response_outcome e resp = elim resp.error [
  | none ↦ false
  | some err ↦ is_error e [] (itoa err.code) err.message
]

abbrev pub outcomes : ErrorsConfig → RequestData → List Bool
outcomes e d =
    if is_http_failure d then is_http_error d e ∷ [] else map (response_outcome e) (sub_responses d)

abbrev pub has_error : List Bool → Bool
has_error = any (λ o. o)

or_assoc : (x y z : Bool) → (x || y) || z ≡ x || (y || z)
or_assoc x y z = ground arith

is_counted_lem :
    (e : ErrorsConfig) (errors : Option ErrorsConfig) (r : SingleResponseBody)
    → errors ≡ some e
    → is_counted errors r ≡ some (response_outcome e r)
unfolding is_counted
is_counted_lem e errors r h = elim (Option-cases r.error) [
  | inl p ↦ rw (p, is_counted)
  | inr (err, p) ↦ rw (p, is_counted) (rw h)
]

module _ {S : Type 0} ⦃b : CircuitBreaker S⦄ where
  abbrev pub tell : ℕ → List Bool → S → S
  tell now [] s = s
  tell now (true ∷ os) s = tell now os (b.record_failure now s)
  tell now (false ∷ os) s = tell now os (b.record_success now s)

  tell-cons :
      (now : ℕ) (o : Bool) (os : List Bool) (s : S)
      → tell now (o ∷ os) s ≡ tell now os (record_response now o s)
  unfolding record_response
  tell-cons now true os s = refl
  tell-cons now false os s = refl

  record_responses_lem :
      (now : ℕ) (e : ErrorsConfig) (found : Bool) (rs : List SingleResponseBody) (c : ErrorCheck S)
      → c.routing_config.errors ≡ some e
      → let os = map (response_outcome e) rs in
        record_responses now found rs c
        ≡ some (
          found || has_error os,
          record c { error_circuit_breaker = tell now os c.error_circuit_breaker },
        )
  unfolding record_responses
  record_responses_lem now e found [] c h = ground arith
  record_responses_lem now e found (r ∷ rs) c h =
      rw
        (
          is_counted_lem e c.routing_config.errors r h,
          tell-cons now (response_outcome e r) (map (response_outcome e) rs)
              c.error_circuit_breaker,
          ← or_assoc found (response_outcome e r) (has_error (map (response_outcome e) rs)),
        )
        (record_responses_lem now e (found || response_outcome e r) rs
          (record c {
            error_circuit_breaker =
                record_response now (response_outcome e r) c.error_circuit_breaker;
          })
          h)

  -- An enabled check with its `Errors` set never panics: it tells the breaker each outcome of the
  -- request in order, and reports an error exactly when the request failed as a whole or a response
  -- counts as an error.
  pub record_request-outcomes :
      (now : ℕ) (e : ErrorsConfig) (d : RequestData) (c : ErrorCheck S)
      → c.is_check_enabled ≡ true
      → c.routing_config.errors ≡ some e
      → record_request now d c
        ≡ some (
          is_http_failure d || has_error (outcomes e d),
          record c { error_circuit_breaker = tell now (outcomes e d) c.error_circuit_breaker },
        )
  unfolding record_request
  record_request-outcomes now e d c enabled h =
      if_true _ _ enabled ∙ elim (Bool-cases (is_http_failure d)) [
        | inl failed ↦
            if_true _ _ failed
            ∙ simp (failed, h)
                (ap (λ s. some (true, record c { error_circuit_breaker = s }))
                  (sym (tell-cons now (is_http_error d e) [] c.error_circuit_breaker)))
        | inr answered ↦
            if_false _ _ answered
            ∙ simp answered (record_responses_lem now e false (sub_responses d) c h)
      ]
