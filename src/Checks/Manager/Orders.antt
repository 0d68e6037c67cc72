-- ===== src/Checks/Manager/Orders.antt =====
-- internal/checks/manager.go: the goroutines of a round finish in any order.
use node_gateway.Base.{
  if_true, ◌⊎◌, String, Bool, ◌≡◌, refl, sym, ap, ◌∙◌, true, List, [], ◌∷◌, ◌++◌, some, ◌>>=◌, inl,
  inr, ◌==◌, string_eq, if◌then◌else◌, eq_iff, if_false, Bool-cases,
}
use node_gateway.Config.{UpstreamConfig}
use node_gateway.Config.Validation.Spec.{IsDistinct}
use node_gateway.Metadata.Store.{Op, new_chain_metadata_store, get_block_height_status, run_ops}
use node_gateway.Metadata.Interleaving.{sent_by, sent_by-append, run_ops_interleaved}
use node_gateway.Checks.Manager.{
  UpstreamStatus, HealthCheckManager, Replies, get_upstream_status, set_upstream_status, run_checks,
  run_checks_on,
}
use node_gateway.Checks.Manager.Rounds.{
  ids, is_listed, IsOwn, after, ops_of, get-set, run_checks_on-Round,
}
use node_gateway.Checks.Breaker.{CircuitBreaker}
use node_gateway.Checks.BlockHeight.Sending.{
  run_check-upstream_config, new_block_height_checker-upstream_config,
}
use node_gateway.Checks.Manager.{new_upstream_status, initialize_checks_on}

module _ {S : Type 0} where
  -- A round keeps the checks with their upstreams.
  run_checks-IsOwn :
      (r : Replies) (id : String) (s : UpstreamStatus S)
      → s.block_height_check.upstream_config.id ≡ id
      → (run_checks r s).0.block_height_check.upstream_config.id ≡ id
  unfolding run_checks
  run_checks-IsOwn r id s its =
      ap (λ (u : UpstreamConfig). u.id)
        (run_check-upstream_config r.http_dial r.header s.block_height_check)
      ∙ its

  after-IsOwn :
      (replies : String → Replies) (cs : List UpstreamConfig) (id : String)
      (m m' : HealthCheckManager S)
      → get_upstream_status id m' ≡ after replies cs id m
      → IsOwn id m
      → IsOwn id m'
  after-IsOwn replies cs id m m' known (s, found, its) = elim (Bool-cases (is_listed id cs)) [
    | inl listed ↦ (
      (run_checks (replies id) s).0,
      known ∙ rw (listed, found) refl,
      run_checks-IsOwn (replies id) id s its,
    )
    | inr left ↦ (s, known ∙ rw (left, found) refl, its)
  ]

  -- The goroutines of a round may take the upstreams in any order: for two lists of the same upstreams,
  -- each with its ID once and with a block height check of its own, the rounds do not panic, leave every
  -- upstream the same status, and after what they send, whatever was sent earlier, the store gives the
  -- same answer to every question; the block height checks stay with their upstreams.
  pub run_checks_on-orders :
      (replies : String → Replies) (cs ds : List UpstreamConfig) (m : HealthCheckManager S)
      → IsDistinct (ids cs)
      → IsDistinct (ids ds)
      → ((id : String) → is_listed id cs ≡ is_listed id ds)
      → ((id : String) → is_listed id cs ≡ true → IsOwn id m)
      → (m1 : HealthCheckManager S) × (sent1 : List Op) × (m2 : HealthCheckManager S)
        × (sent2 : List Op) × (run_checks_on replies cs m ≡ some (m1, sent1))
        × (run_checks_on replies ds m ≡ some (m2, sent2))
        × ((id : String) → get_upstream_status id m1 ≡ get_upstream_status id m2)
        × ((id : String) → IsOwn id m → IsOwn id m1)
        × ((g u : String) (earlier : List Op)
            → get_block_height_status g u (run_ops (earlier ++ sent1) new_chain_metadata_store)
              ≡ get_block_height_status g u (run_ops (earlier ++ sent2) new_chain_metadata_store))
  run_checks_on-orders replies cs ds m apart1 apart2 same own =
      let (m1, sent1, ran1, known1, named1) = run_checks_on-Round replies cs m apart1 own in
      let (m2, sent2, ran2, known2, named2) =
        run_checks_on-Round replies ds m apart2 (λ id h. own id (same id ∙ h)) in
      let one_sender : (v : String) → sent_by v sent1 ≡ sent_by v sent2 = λ v.
        named1 v
        ∙ ap (λ (b : Bool). if b then ops_of (replies v) (get_upstream_status v m) else []) (same v)
        ∙ sym (named2 v) in
      (
        m1,
        sent1,
        m2,
        sent2,
        ran1,
        ran2,
        λ id.
            known1 id
            ∙ ap
                (λ (b : Bool).
                  if b
                  then (get_upstream_status id m >>= λ (s : UpstreamStatus S).
                      some (run_checks (replies id) s).0)
                  else get_upstream_status id m)
                (same id)
            ∙ sym (known2 id),
        λ id. after-IsOwn replies cs id m m1 (known1 id),
        λ g u earlier. run_ops_interleaved g u (earlier ++ sent1) (earlier ++ sent2) (λ v.
            sent_by-append v earlier sent1
            ∙ ap (λ l. sent_by v earlier ++ l) (one_sender v)
            ∙ sym (sent_by-append v earlier sent2)),
      )

module _ {S : Type 0} ⦃b : CircuitBreaker S⦄ where
  -- The checks that are made are those of their upstreams.
  pub initialize_checks_on-IsOwn :
      (first : String → Replies) (cs : List UpstreamConfig) (m : HealthCheckManager S) (id : String)
      → IsOwn id m ⊎ (is_listed id cs ≡ true)
      → IsOwn id (initialize_checks_on first cs m).0
  unfolding initialize_checks_on new_upstream_status
  initialize_checks_on-IsOwn first [] m id (inl own) = own
  initialize_checks_on-IsOwn first [] m id (inr listed) = cc
  initialize_checks_on-IsOwn first (c ∷ cs) m id h =
      let made = new_upstream_status {S = S} (first c.id) m.routing_config c in
      initialize_checks_on-IsOwn first cs (set_upstream_status c.id made.0 m) id
        (elim (Bool-cases (c.id == id)) [
          | inl here ↦ inl (
            made.0,
            get-set id c.id made.0 m ∙ if_true _ _ here,
            ap (λ (u : UpstreamConfig). u.id)
                  (new_block_height_checker-upstream_config c (first c.id).ws_dial
                    (first c.id).subscribed (first c.id).http_dial)
                ∙ (eq_iff c.id id).0 here,
          )
          | inr there ↦ elim h [
            | inl (s, found, its) ↦
                inl (s, get-set id c.id made.0 m ∙ if_false _ _ there ∙ found, its)
            | inr listed ↦ inr (rw there at listed)
          ]
        ])
